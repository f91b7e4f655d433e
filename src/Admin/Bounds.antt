-- ===== src/Admin/Bounds.antt =====
-- How many requests the calls of admin.go send.
use caddy_dev_local.Base.{
  ℕ, zero, suc, ◌+◌, ◌≤◌, Bool, true, false, Option, none, some, List, ◌∷◌, ◌++◌, arith, length,
  if◌then◌else◌, ◌==◌, nat_eq, list_eq, ◌||◌,
}
use caddy_dev_local.Str.{Str, codes}
use caddy_dev_local.Admin.{
  Server, Codec, Log, Outcome, Method, Request, get, put, patch, post, delete, and_then, only_if,
  is_success, tries, do_request, request, get_config, do_delete, do_post, delete_by_id, post_route,
  get_status, put_resource, ensure_resource, effective_ports, server_body, empty_body,
  ensure_server, settle_policies, write_policies, merge_policy, prepend_tls_policy, server_path,
  policies_path,
}

-- At most so many requests more.
abbrev pub Costs {ℓ} : {A : Type ℓ} → ℕ → Log → Option A × Log → Type 0
Costs n log o = length o.1 ≤ n + length log

pub Costs-and_then :
    {A B : Type 0} (m n : ℕ) (log : Log) (o : Outcome A) (f : A → Log → Outcome B)
    → Costs m log o
    → ((a : A) (log' : Log) → Costs n log' (f a log'))
    → Costs (m + n) log (and_then o f)
unfolding and_then
Costs-and_then m n log (none, log') f h k = omega (arith, h)
Costs-and_then m n log (some a, log') f h k = omega (arith, h, k a log')

pub Costs-only_if : (b : Bool) (log : Log) → Costs 0 log (only_if b log)
unfolding only_if
Costs-only_if true log = omega arith
Costs-only_if false log = omega arith

pub Costs-if :
    {A : Type 0} (n : ℕ) (log : Log) (b : Bool) (o o' : Outcome A)
    → Costs n log o
    → Costs n log o'
    → Costs n log (if b then o else o')
Costs-if n log true o o' h k = h
Costs-if n log false o o' h k = k

module _ (server : Server) where
  Costs-tries : (n : ℕ) (req : Request) (log : Log) → Costs n log (tries server n req log)
  unfolding tries
  Costs-tries zero req log = omega arith
  Costs-tries (suc n) req log = ground (arith, Costs-tries n req (req ∷ log))

  pub Costs-do_request :
      (m : Method) (path : Str) (body : Option Str) (log : Log)
      → Costs 3 log (do_request server m path body log)
  unfolding do_request
  Costs-do_request m path body log =
      Costs-tries 3 (record { method = m; path = path; body = body }) log

  pub Costs-request :
      (m : Method) (path : Str) (body : Option Str) (log : Log)
      → Costs 3 log (request server m path body log)
  unfolding request
  Costs-request m path body log =
      Costs-and_then 3 0 log (do_request server m path body log) _
        (Costs-do_request m path body log) (λ reply log'. omega arith)

  pub Costs-delete_by_id : (id : Str) (log : Log) → Costs 3 log (delete_by_id server id log)
  unfolding delete_by_id do_delete
  Costs-delete_by_id id log =
      Costs-and_then 3 0 log (request server delete (codes "/id/" ++ id) none log) _
        (Costs-request delete (codes "/id/" ++ id) none log) (λ status log'. Costs-only_if _ log')

  pub Costs-post_route : (obj : Str) (log : Log) → Costs 3 log (post_route server obj log)
  unfolding post_route do_post
  Costs-post_route obj log =
      Costs-and_then 3 0 log _ _
        (Costs-request post (server_path ++ codes "/routes/-") (some obj) log)
        (λ status log'. Costs-only_if _ log')

  Costs-put_resource :
      (path body : Str) (log : Log) → Costs 3 log (put_resource server path body log)
  unfolding put_resource
  Costs-put_resource path body log =
      Costs-and_then 3 0 log _ _ (Costs-request put path (some body) log)
        (λ status log'. Costs-only_if _ log')

  Costs-ensure_resource :
      (n : ℕ) (path : Str) (make_body : Log → Outcome Str) (log : Log)
      → ((log' : Log) → Costs n log' (make_body log'))
      → Costs (6 + n) log (ensure_resource server path make_body log)
  unfolding ensure_resource get_status
  Costs-ensure_resource n path make_body log h =
      let cost : Costs (3 + (n + 3)) log (ensure_resource server path make_body log) =
        Costs-and_then 3 (n + 3) log (request server get path none log) _
          (Costs-request get path none log)
          (λ status log'.
            Costs-if {A = Unit} (n + 3) log' (status == 200) (some tt, log') _ (omega arith)
              (Costs-and_then n 3 log' (make_body log') _ (h log')
                (λ body log''. Costs-put_resource path body log''))) in
      omega (arith, cost)

  module _ (codec : Codec) where
    Costs-server_body : (log : Log) → Costs 3 log (server_body server codec log)
    unfolding server_body effective_ports get_config
    Costs-server_body log =
        Costs-and_then 3 0 log _ _
          (Costs-and_then 3 0 log _ _ (Costs-do_request get (codes "/config/apps/http") none log)
            (λ reply log'. omega arith))
          (λ ports log'. omega arith)

    Costs-empty_body : (log : Log) → Costs 0 log (empty_body server codec log)
    unfolding empty_body
    Costs-empty_body log = omega arith

    -- The server, its routes and the policies are looked up, and created where they are missing.
    pub Costs-ensure_server : (log : Log) → Costs 21 log (ensure_server server codec log)
    unfolding ensure_server
    Costs-ensure_server log =
        Costs-and_then 9 12 log _ _
          (Costs-ensure_resource 3 server_path (server_body server codec) log Costs-server_body)
          (λ u log'.
            Costs-and_then 6 6 log' _ _
              (Costs-ensure_resource 0 (server_path ++ codes "/routes") (empty_body server codec)
                log' Costs-empty_body)
              (λ v log''.
                Costs-ensure_resource 0 policies_path (empty_body server codec) log''
                  Costs-empty_body))

    Costs-settle_policies :
        (result : Str) (status : ℕ) (log : Log)
        → Costs 3 log (settle_policies server codec result status log)
    unfolding settle_policies
    Costs-settle_policies result status log =
        Costs-if 3 log (status == 404) _ _ (Costs-put_resource policies_path result log)
          (omega (arith, Costs-only_if (status == 409 || is_success status) log))

    Costs-write_policies :
        (exists : Bool) (o : Option Str) (log : Log)
        → Costs 6 log (write_policies server codec exists o log)
    unfolding write_policies
    Costs-write_policies exists none log = omega arith
    Costs-write_policies exists (some result) log =
        Costs-and_then 3 3 log _ _
          (Costs-request (if exists then patch else put) policies_path (some result) log)
          (Costs-settle_policies result)

    Costs-merge_policy :
        (policy : Str) (exists : Bool) (o : Option (List Str)) (log : Log)
        → Costs 6 log (merge_policy server codec policy exists o log)
    unfolding merge_policy
    Costs-merge_policy policy exists none log = omega arith
    Costs-merge_policy policy exists (some policies) log = Costs-write_policies exists _ log

    pub Costs-prepend_tls_policy :
        (policy : Str) (log : Log) → Costs 9 log (prepend_tls_policy server codec policy log)
    unfolding prepend_tls_policy get_config
    Costs-prepend_tls_policy policy log =
        Costs-and_then 3 6 log _ _ (Costs-do_request get policies_path none log)
          (λ reply log'. Costs-merge_policy policy (reply.0 == 200) _ log')
