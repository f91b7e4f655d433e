-- ===== src/Admin/Reconcile/Unchanged.antt =====
-- `reconcileDevlocal` of admin.go where nothing changed.
use caddy_dev_local.Base.{
  ℕ, ◌≡◌, ◌++◌, suc, refl, sym, ap, ◌∙◌, Bool, true, false, Option, none, some, [], ◌∷◌, nat_eq,
  list_eq, arith,
}
use caddy_dev_local.Base.Dict.{Dict, lookup, NodupKeys}
use caddy_dev_local.Base.Sort.{sort}
use caddy_dev_local.Str.{Str, codes}
use caddy_dev_local.Admin.{
  Server, Codec, Log, Request, get, response, tries, do_request, request, get_status,
  ensure_resource, server_body, empty_body, server_path, policies_path, Outcome, and_then,
  and_then-some, post_route, prepend_tls_policy, ensure_server,
}
use caddy_dev_local.Admin.Patch.{
  Patch, compute_patch, lookup-compute_patch, updated_of, removed_of, added_of,
}
use caddy_dev_local.Admin.Reconcile.{
  Known, is_empty, delete_all, update_all, add_all, apply_patch, ensure_if, send_all, remember,
  reconcile_devlocal,
}

-- A map without entries, told by its lookups.
nil_of_lookup : (m : Dict Str Str) → ((id : Str) → lookup id m ≡ none) → m ≡ []
unfolding lookup
nil_of_lookup [] h = refl
nil_of_lookup ((k, v) ∷ m) h = ground (arith, h k)

updated_of_same : (o : Option Str) → updated_of o o ≡ none
updated_of_same none = refl
updated_of_same (some obj) = ground arith

removed_of_same : (o : Option Str) → removed_of o o ≡ none
removed_of_same none = refl
removed_of_same (some obj) = refl

added_of_same : (o : Option Str) → added_of o o ≡ none
added_of_same none = refl
added_of_same (some obj) = refl

compute_patch_same :
    (prev desired : Dict Str Str)
    → NodupKeys prev
    → NodupKeys desired
    → ((id : Str) → lookup id prev ≡ lookup id desired)
    → compute_patch prev desired ≡ record { removed = []; updated = []; added = [] }
compute_patch_same prev desired u v h = λ i. record {
  removed =
      nil_of_lookup (compute_patch prev desired).removed
        (λ id.
          (lookup-compute_patch prev desired u v id).0
          ∙ (ap (removed_of (lookup id prev)) (sym (h id)) ∙ removed_of_same (lookup id prev)))
        i;
  updated =
      nil_of_lookup (compute_patch prev desired).updated
        (λ id.
          (lookup-compute_patch prev desired u v id).1
          ∙ (ap (updated_of (lookup id prev)) (sym (h id)) ∙ updated_of_same (lookup id prev)))
        i;
  added =
      nil_of_lookup (compute_patch prev desired).added
        (λ id.
          (lookup-compute_patch prev desired u v id).2
          ∙ (ap (added_of (lookup id prev)) (sym (h id)) ∙ added_of_same (lookup id prev)))
        i;
}

-- A GET of a path.
abbrev pub get_of : Str → Request
get_of path = record { method = get; path = path; body = none }

-- The server answers every GET with status 200.
abbrev pub IsUp : Server → Type 0
IsUp server =
    (path : Str) (log : Log) → (body : Str) × (server log (get_of path) ≡ response 200 body)

module _ (server : Server) (codec : Codec) (up : IsUp server) where
  tries-get :
      (n : ℕ) (path : Str) (log : Log)
      → tries server (suc n) (get_of path) log ≡ (some (200, (up path log).0), get_of path ∷ log)
  unfolding tries
  tries-get n path log = rw ((up path log).1, tries) refl

  ensure_resource_up :
      (path : Str) (make_body : Log → Outcome Str) (log : Log)
      → ensure_resource server path make_body log ≡ (some tt, get_of path ∷ log)
  unfolding ensure_resource get_status request do_request and_then
  ensure_resource_up path make_body log = rw (tries-get 2 path log) (ground arith)

  -- The requests with which the server is checked.
  abbrev pub checks : Log
  checks = get_of policies_path ∷ get_of (server_path ++ codes "/routes") ∷ get_of server_path ∷ []

  ensure_server_up : (log : Log) → ensure_server server codec log ≡ (some tt, checks ++ log)
  unfolding ensure_server
  ensure_server_up log =
      and_then-some _ tt (get_of server_path ∷ log) _
        (ensure_resource_up server_path (server_body server codec) log)
      ∙ (and_then-some _ tt (get_of (server_path ++ codes "/routes") ∷ (get_of server_path ∷ log)) _
            (ensure_resource_up (server_path ++ codes "/routes") (empty_body server codec)
              (get_of server_path ∷ log))
          ∙ ensure_resource_up policies_path (empty_body server codec)
              (get_of (server_path ++ codes "/routes") ∷ (get_of server_path ∷ log)))

  -- The requests of a reconciliation that has nothing to change.
  abbrev pub checks_if : Bool → Log → Log
  checks_if true log = log
  checks_if false log = checks ++ log

  ensure_if_up :
      (empty : Bool) (log : Log) → ensure_if server codec empty log ≡ (some tt, checks_if empty log)
  unfolding ensure_if
  ensure_if_up true log = refl
  ensure_if_up false log = ensure_server_up log

  apply_nothing :
      (add : Str → Log → Outcome Unit) (p : Patch) (log : Log)
      → p ≡ record { removed = []; updated = []; added = [] }
      → apply_patch server add p log ≡ (some tt, log)
  apply_nothing add p log e =
      ap (λ q. apply_patch server add q log) e
      ∙ (unfold apply_patch delete_all update_all add_all and_then sort in refl)

  -- Suppose that the server answers every GET with status 200, and that the desired routes and
  -- policies are, ID by ID, the remembered ones. Then the reconciliation succeeds and sends no request
  -- but the three GETs that check the server, and where no route is desired, none at all.
  pub reconcile_devlocal_unchanged :
      (routes policies : Dict Str Str) (known : Known) (log : Log)
      → NodupKeys routes
      → NodupKeys policies
      → NodupKeys known.routes
      → NodupKeys known.policies
      → ((id : Str) → lookup id known.routes ≡ lookup id routes)
      → ((id : Str) → lookup id known.policies ≡ lookup id policies)
      → reconcile_devlocal server codec routes policies known log
        ≡ (true, (record { routes = routes; policies = policies }, checks_if (is_empty routes) log))
  unfolding reconcile_devlocal send_all remember
  reconcile_devlocal_unchanged routes policies known log u v w x h k =
      ap (remember server codec routes policies known) (
        and_then-some _ tt (checks_if (is_empty routes) log) _ (ensure_if_up (is_empty routes) log)
        ∙ (and_then-some _ tt (checks_if (is_empty routes) log) _ (
              apply_nothing (post_route server) (compute_patch known.routes routes)
                (checks_if (is_empty routes) log) (compute_patch_same known.routes routes w u h))
            ∙ apply_nothing (prepend_tls_policy server codec)
                (compute_patch known.policies policies) (checks_if (is_empty routes) log)
                (compute_patch_same known.policies policies x v k)))
