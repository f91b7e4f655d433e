-- ===== src/Admin.antt =====
-- admin.go: the requests to the admin API of Caddy.
-- The server is an argument: a function from the requests so far, the newest first, and a request to
-- what `rawRequest` returns. The content type is left out: it is the same for all requests with a body.
pub mod Patch
pub mod Bounds
pub mod Reconcile
pub mod Sent
mod Tests
use caddy_dev_local.Base.{
  ℕ, zero, suc, ◌≡◌, refl, ap, ◌∙◌, Bool, true, false, Option, none, some, List, [], ◌∷◌, ◌++◌,
  ◌==◌, nat_eq, list_eq, not, ◌&&◌, ◌||◌, leb, ltb, if◌then◌else◌,
}
use caddy_dev_local.Base.Dict.{Dict, lookup, keys}
use caddy_dev_local.Base.Sort.{sort}
use caddy_dev_local.Base.Int.{ℤ, pos, negsuc}
use caddy_dev_local.Str.{Str, codes, str_le}

pub data Method : Type 0 where
  get delete post put patch : Method

pub record Request : Type 0 where
  pub method : Method
  pub path : Str
  pub body : Option Str

abbrev pub Log : Type 0
Log = List Request

-- What `rawRequest` returns: a status and a body, an error that `isTransientNetError` accepts, or
-- another error.
pub data Answer : Type 0 where
  response : ℕ → Str → Answer
  transient permanent : Answer

abbrev pub Server : Type 0
Server = Log → Request → Answer

-- A result, where `none` is an error, and the requests so far.
abbrev pub Outcome : Type 0 → Type 0
Outcome A = Option A × Log

unfoldable pub and_then : {A B : Type 0} → Outcome A → (A → Log → Outcome B) → Outcome B
and_then (none, log) f = (none, log)
and_then (some a, log) f = f a log

pub and_then-some :
    {A B : Type 0} (o : Outcome A) (a : A) (log : Log) (f : A → Log → Outcome B)
    → o ≡ (some a, log)
    → and_then o f ≡ f a log
and_then-some o a log f e = ap (λ p. and_then p f) e ∙ unfold and_then in refl

unfoldable pub only_if : Bool → Log → Outcome Unit
only_if true log = (some tt, log)
only_if false log = (none, log)

-- `method == http.MethodPost`
unfoldable pub is_post : Method → Bool
is_post get = false
is_post delete = false
is_post post = true
is_post put = false
is_post patch = false

-- `status < 200 || status > 299` is false.
unfoldable pub is_success : ℕ → Bool
is_success status = leb 200 status && leb status 299

abbrev pub server_path : Str
server_path = codes "/config/apps/http/servers/srv0"

abbrev pub policies_path : Str
policies_path = codes "/config/apps/tls/automation/policies"

-- What the code uses of `encoding/json`. `policy_id` is the `@id` of a policy, or the empty text.
pub record Codec : Type 0 where
  pub decode_ports : Str → Option (ℤ × ℤ)
  pub encode_server : ℤ → ℤ → Option Str
  pub decode_policies : Str → Option (List Str)
  pub policy_id : Str → Str
  pub encode_policies : List Str → Option Str

-- A port that is 0 stands for the default.
unfoldable pub port_or : ℕ → ℤ → ℤ
port_or default (pos zero) = pos default
port_or default (pos (suc n)) = pos (suc n)
port_or default (negsuc n) = negsuc n

unfoldable pub ports_or_default : Option (ℤ × ℤ) → ℤ × ℤ
ports_or_default none = (pos 80, pos 443)
ports_or_default (some (http, https)) = (port_or 80 http, port_or 443 https)

unfoldable pub decoded_policies : Codec → Bool → Str → Option (List Str)
decoded_policies codec false body = some []
decoded_policies codec true [] = some []
decoded_policies codec true (c ∷ body) = codec.decode_policies (c ∷ body)

unfoldable pub without_policy : Codec → List Str → List Str
without_policy codec [] = []
without_policy codec (p ∷ ps) =
    let rest = without_policy codec ps in
    if codec.policy_id p == codes "devlocal-tls" then rest else p ∷ rest

module _ (server : Server) where
  -- `backoff.Retry` with at most `n` tries
  unfoldable pub tries : ℕ → Request → Log → Outcome (ℕ × Str)
  tries zero req log = (none, log)
  tries (suc n) req log = elim (server log req) [
    | response status body ↦ (some (status, body), req ∷ log)
    | transient ↦
        let again = tries n req (req ∷ log) in
        if is_post req.method then (none, req ∷ log) else again
    | permanent ↦ (none, req ∷ log)
  ]

  unfoldable pub do_request : Method → Str → Option Str → Log → Outcome (ℕ × Str)
  do_request method path body log =
      tries 3 (record { method = method; path = path; body = body }) log

  unfoldable pub request : Method → Str → Option Str → Log → Outcome ℕ
  request method path body log =
      and_then (do_request method path body log) (λ reply log'. (some reply.0, log'))

  unfoldable pub get_config : Str → Log → Outcome (ℕ × Str)
  get_config path log = do_request get path none log

  unfoldable pub do_delete : Str → Log → Outcome Unit
  do_delete path log =
      and_then (request delete path none log)
        (λ status log'. only_if (status == 200 || status == 204 || status == 404) log')

  unfoldable pub do_post : Str → Str → Log → Outcome Unit
  do_post path body log =
      and_then (request post path (some body) log) (λ status log'. only_if (is_success status) log')

  unfoldable pub delete_by_id : Str → Log → Outcome Unit
  delete_by_id id log = do_delete (codes "/id/" ++ id) log

  unfoldable pub patch_by_id : Str → Str → Log → Outcome ℕ
  patch_by_id id obj log = request patch (codes "/id/" ++ id) (some obj) log

  unfoldable pub post_route : Str → Log → Outcome Unit
  post_route obj log = do_post (server_path ++ codes "/routes/-") obj log

  unfoldable pub get_status : Str → Log → Outcome ℕ
  get_status path log = request get path none log

  unfoldable pub put_resource : Str → Str → Log → Outcome Unit
  put_resource path body log =
      and_then (request put path (some body) log)
        (λ status log'. only_if (status == 409 || is_success status) log')

  unfoldable pub ensure_resource : Str → (Log → Outcome Str) → Log → Outcome Unit
  ensure_resource path make_body log = and_then (get_status path log) (λ status log'.
      if status == 200
      then (some tt, log')
      else and_then (make_body log') (λ body log''. put_resource path body log''))

  module _ (codec : Codec) where
    unfoldable pub effective_ports : Log → Outcome (ℤ × ℤ)
    effective_ports log = and_then (get_config (codes "/config/apps/http") log) (λ reply log'. (
      some (ports_or_default (if reply.0 == 200 then codec.decode_ports reply.1 else none)),
      log',
    ))

    unfoldable pub server_body : Log → Outcome Str
    server_body log =
        and_then (effective_ports log) (λ ports log'. (codec.encode_server ports.0 ports.1, log'))

    unfoldable pub empty_body : Log → Outcome Str
    empty_body log = (some (codes "[]"), log)

    unfoldable pub ensure_server : Log → Outcome Unit
    ensure_server log = and_then (ensure_resource server_path server_body log) (λ _ log'.
        and_then (ensure_resource (server_path ++ codes "/routes") empty_body log')
          (λ _ log''. ensure_resource policies_path empty_body log''))

    -- From the status that the PATCH or the PUT of the policies returns.
    unfoldable pub settle_policies : Str → ℕ → Log → Outcome Unit
    settle_policies result status log =
        if status == 404
        then put_resource policies_path result log
        else only_if (status == 409 || is_success status) log

    unfoldable pub write_policies : Bool → Option Str → Log → Outcome Unit
    write_policies exists none log = (none, log)
    write_policies exists (some result) log =
        and_then (request (if exists then patch else put) policies_path (some result) log)
          (settle_policies result)

    unfoldable pub merge_policy : Str → Bool → Option (List Str) → Log → Outcome Unit
    merge_policy policy exists none log = (none, log)
    merge_policy policy exists (some policies) log =
        write_policies exists (codec.encode_policies (policy ∷ without_policy codec policies)) log

    unfoldable pub prepend_tls_policy : Str → Log → Outcome Unit
    prepend_tls_policy policy log = and_then (get_config policies_path log) (λ reply log'.
        merge_policy policy (reply.0 == 200) (decoded_policies codec (reply.0 == 200) reply.1) log')
