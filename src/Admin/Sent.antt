-- ===== src/Admin/Sent.antt =====
-- The routes that admin.go has sent with success: the requests after a POST of a route keep it sent.
pub mod Patches
use mathlib.Core.Path.{subst}
use caddy_dev_local.Base.{
  sym, ℕ, zero, suc, ◌≡◌, ◌≤◌, refl, Bool, true, false, Option, none, some, List, [], ◌∷◌, ◌++◌,
  ◌⊎◌, inl, inr, arith, if◌then◌else◌, ◌==◌, nat_eq, list_eq, ◌||◌,
}
use caddy_dev_local.Str.{Str, codes}
use caddy_dev_local.Admin.{
  Server, Codec, Log, Outcome, Method, Request, Answer, response, transient, permanent, get, put,
  patch, post, delete, and_then, only_if, is_post, is_success, tries, do_request, request,
  get_config, do_delete, do_post, delete_by_id, patch_by_id, post_route, put_resource,
  settle_policies, write_policies, merge_policy, prepend_tls_policy, server_path, policies_path,
}

-- The POST that adds a route.
abbrev pub route_request : Str → Request
route_request obj = record {
  method = post;
  path = server_path ++ codes "/routes/-";
  body = some obj;
}

abbrev pub Accepts : Answer → Type 0
Accepts (response status body) = (200 ≤ status) × (status ≤ 299)
Accepts transient = ⊥
Accepts permanent = ⊥

module _ (server : Server) (obj : Str) where
  -- Among the requests is a POST of the route, and the server accepted it.
  abbrev pub IsSent : Log → Type 0
  IsSent [] = ⊥
  IsSent (req ∷ log) = ((req ≡ route_request obj) × Accepts (server log req)) ⊎ IsSent log

  -- What was sent before a call is sent after it.
  abbrev pub Keeps : {A : Type 0} → Log → Outcome A → Type 0
  Keeps log o = IsSent log → IsSent o.1

  -- If the call succeeds, the route is sent.
  abbrev pub Adds : {A : Type 0} → Outcome A → Type 0
  Adds (none, log) = Unit
  Adds (some a, log) = IsSent log

  pub Keeps-and_then :
      {A B : Type 0} (log : Log) (o : Outcome A) (f : A → Log → Outcome B)
      → Keeps log o
      → ((a : A) (log' : Log) → Keeps log' (f a log'))
      → Keeps log (and_then o f)
  unfolding and_then
  Keeps-and_then log (none, log') f h k = h
  Keeps-and_then log (some a, log') f h k = λ s. k a log' (h s)

  pub Adds-then :
      {A B : Type 0} (o : Outcome A) (f : A → Log → Outcome B)
      → Adds o
      → ((a : A) (log' : Log) → Keeps log' (f a log'))
      → Adds (and_then o f)
  unfolding and_then
  Adds-then (none, log) f h k = tt
  Adds-then (some a, log) f h k = Keeps-Adds (f a log) (k a log h)
    where
      Keeps-Adds : {A : Type 0} (o : Outcome A) → IsSent o.1 → Adds o
      Keeps-Adds (none, log) s = tt
      Keeps-Adds (some a, log) s = s

  pub Adds-after :
      {A B : Type 0} (o : Outcome A) (f : A → Log → Outcome B)
      → ((a : A) (log' : Log) → Adds (f a log'))
      → Adds (and_then o f)
  unfolding and_then
  Adds-after (none, log) f h = tt
  Adds-after (some a, log) f h = h a log

  pub Keeps-only_if : (b : Bool) (log : Log) → Keeps log (only_if b log)
  unfolding only_if
  Keeps-only_if true log s = s
  Keeps-only_if false log s = s

  pub Keeps-if :
      {A : Type 0} (log : Log) (b : Bool) (o o' : Outcome A)
      → Keeps log o
      → Keeps log o'
      → Keeps log (if b then o else o')
  Keeps-if log true o o' h k = h
  Keeps-if log false o o' h k = k

  keeps_retry :
      (b : Bool) (log : Log) (o : Outcome (ℕ × Str))
      → IsSent log
      → IsSent o.1
      → IsSent (if b then (none, log) else o).1
  keeps_retry true log o s t = s
  keeps_retry false log o s t = t

  keeps_step :
      (n : ℕ) (req : Request) (log : Log) (a : Answer)
      → server log req ≡ a
      → IsSent (req ∷ log)
      → IsSent (tries server n req (req ∷ log)).1
      → IsSent (tries server (suc n) req log).1
  unfolding tries
  keeps_step n req log (response status body) e s t =
      let ends : tries server (suc n) req log ≡ (some (status, body), req ∷ log) =
        rw (e, tries) refl in
      subst (λ o. IsSent o.1) (sym ends) s
  keeps_step n req log transient e s t =
      let again : tries server (suc n) req log
          ≡ (if is_post req.method then (none, req ∷ log) else tries server n req (req ∷ log)) =
        rw (e, tries) refl in
      subst (λ o. IsSent o.1) (sym again)
        (keeps_retry (is_post req.method) (req ∷ log) (tries server n req (req ∷ log)) s t)
  keeps_step n req log permanent e s t =
      let ends : tries server (suc n) req log ≡ (none, req ∷ log) = rw (e, tries) refl in
      subst (λ o. IsSent o.1) (sym ends) s

  Keeps-tries : (n : ℕ) (req : Request) (log : Log) → Keeps log (tries server n req log)
  Keeps-tries zero req log = λ s. unfold tries in s
  Keeps-tries (suc n) req log = λ s.
      keeps_step n req log (server log req) refl (inr s) (Keeps-tries n req (req ∷ log) (inr s))

  pub Keeps-do_request :
      (m : Method) (path : Str) (body : Option Str) (log : Log)
      → Keeps log (do_request server m path body log)
  unfolding do_request
  Keeps-do_request m path body log =
      Keeps-tries 3 (record { method = m; path = path; body = body }) log

  pub Keeps-request :
      (m : Method) (path : Str) (body : Option Str) (log : Log)
      → Keeps log (request server m path body log)
  unfolding request
  Keeps-request m path body log =
      Keeps-and_then log (do_request server m path body log) _ (Keeps-do_request m path body log)
        (λ reply log' s. s)

  pub Keeps-delete_by_id : (id : Str) (log : Log) → Keeps log (delete_by_id server id log)
  unfolding delete_by_id do_delete
  Keeps-delete_by_id id log =
      Keeps-and_then log (request server delete (codes "/id/" ++ id) none log) _
        (Keeps-request delete (codes "/id/" ++ id) none log) (λ status log'. Keeps-only_if _ log')

  pub Keeps-post_route : (o : Str) (log : Log) → Keeps log (post_route server o log)
  unfolding post_route do_post
  Keeps-post_route o log =
      Keeps-and_then log _ _ (Keeps-request post (server_path ++ codes "/routes/-") (some o) log)
        (λ status log'. Keeps-only_if _ log')

  Keeps-put_resource : (path body : Str) (log : Log) → Keeps log (put_resource server path body log)
  unfolding put_resource
  Keeps-put_resource path body log =
      Keeps-and_then log _ _ (Keeps-request put path (some body) log)
        (λ status log'. Keeps-only_if _ log')

  -- A POST that returns a status was answered with it.
  answered :
      (log : Log) (a : Answer)
      → server log (route_request obj) ≡ a
      → Adds (
          and_then
            (request server post (server_path ++ codes "/routes/-") (some obj) log)
            (λ status log'. only_if (is_success status) log'))
  unfolding and_then request do_request tries only_if is_success is_post
  answered log a e = ground (arith, e)

  pub Adds-post_route : (log : Log) → Adds (post_route server obj log)
  unfolding post_route do_post
  Adds-post_route log = answered log (server log (route_request obj)) refl

  module _ (codec : Codec) where
    Keeps-settle_policies :
        (result : Str) (status : ℕ) (log : Log)
        → Keeps log (settle_policies server codec result status log)
    unfolding settle_policies
    Keeps-settle_policies result status log =
        Keeps-if log (status == 404) _ _ (Keeps-put_resource policies_path result log)
          (Keeps-only_if (status == 409 || is_success status) log)

    Keeps-write_policies :
        (exists : Bool) (o : Option Str) (log : Log)
        → Keeps log (write_policies server codec exists o log)
    unfolding write_policies
    Keeps-write_policies exists none log = λ s. s
    Keeps-write_policies exists (some result) log =
        Keeps-and_then log _ _
          (Keeps-request (if exists then patch else put) policies_path (some result) log)
          (Keeps-settle_policies result)

    Keeps-merge_policy :
        (policy : Str) (exists : Bool) (o : Option (List Str)) (log : Log)
        → Keeps log (merge_policy server codec policy exists o log)
    unfolding merge_policy
    Keeps-merge_policy policy exists none log = λ s. s
    Keeps-merge_policy policy exists (some policies) log = Keeps-write_policies exists _ log

    pub Keeps-prepend_tls_policy :
        (policy : Str) (log : Log) → Keeps log (prepend_tls_policy server codec policy log)
    unfolding prepend_tls_policy get_config
    Keeps-prepend_tls_policy policy log =
        Keeps-and_then log _ _ (Keeps-do_request get policies_path none log)
          (λ reply log'. Keeps-merge_policy policy _ _ log')
