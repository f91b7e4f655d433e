-- ===== src/Admin/Reconcile.antt =====
-- `reconcileDevlocal` of admin.go. The mutex makes it one step.
pub mod Unchanged
pub mod Routes
pub mod Refines
pub mod Cost
use caddy_dev_local.Base.{
  ℕ, Bool, true, false, Option, none, some, List, [], ◌∷◌, ◌==◌, nat_eq, list_eq, not,
  if◌then◌else◌,
}
use caddy_dev_local.Base.Dict.{Dict, lookup, keys}
use caddy_dev_local.Base.Sort.{sort}
use caddy_dev_local.Str.{Str, str_le}
use caddy_dev_local.Admin.{
  Server, Codec, Log, Outcome, and_then, only_if, is_success, delete_by_id, patch_by_id, post_route,
  ensure_server, prepend_tls_policy,
}
use caddy_dev_local.Admin.Patch.{Patch, compute_patch}

-- `prevRoutes` and `prevPolicies`
pub record Known : Type 0 where
  pub routes : Dict Str Str
  pub policies : Dict Str Str

-- `m[id]`, where a missing key gives nil
unfoldable pub object_of : Option Str → Str
object_of none = []
object_of (some obj) = obj

unfoldable pub is_empty : Dict Str Str → Bool
is_empty [] = true
is_empty (entry ∷ m) = false

module _ (server : Server) where
  unfoldable pub delete_all : List Str → Log → Outcome Unit
  delete_all [] log = (some tt, log)
  delete_all (id ∷ ids) log = and_then (delete_by_id server id log) (λ _ log'. delete_all ids log')

  module _ (add : Str → Log → Outcome Unit) where
    -- From the status of the PATCH.
    unfoldable pub settle_update : Str → ℕ → Log → Outcome Unit
    settle_update obj status log =
        if status == 404 then add obj log else only_if (is_success status) log

    unfoldable pub update_one : Str → Str → Log → Outcome Unit
    update_one id obj log = and_then (patch_by_id server id obj log) (settle_update obj)

    unfoldable pub update_all : Dict Str Str → List Str → Log → Outcome Unit
    update_all updated [] log = (some tt, log)
    update_all updated (id ∷ ids) log =
        and_then (update_one id (object_of (lookup id updated)) log)
          (λ _ log'. update_all updated ids log')

    unfoldable pub add_all : Dict Str Str → List Str → Log → Outcome Unit
    add_all added [] log = (some tt, log)
    add_all added (id ∷ ids) log =
        and_then (add (object_of (lookup id added)) log) (λ _ log'. add_all added ids log')

    -- The three loops over a patch, for routes and for policies.
    unfoldable pub apply_patch : Patch → Log → Outcome Unit
    apply_patch p log = and_then (delete_all (keys p.removed) log) (λ _ log'.
        and_then (update_all p.updated (sort str_le (keys p.updated)) log')
          (λ _ log''. add_all p.added (sort str_le (keys p.added)) log''))

  module _ (codec : Codec) where
    unfoldable pub ensure_if : Bool → Log → Outcome Unit
    ensure_if true log = (some tt, log)
    ensure_if false log = ensure_server server codec log

    unfoldable pub send_all : Known → Dict Str Str → Dict Str Str → Log → Outcome Unit
    send_all known routes policies log = and_then (ensure_if (is_empty routes) log) (λ _ log'.
        and_then (apply_patch (post_route server) (compute_patch known.routes routes) log')
          (λ _ log''.
            apply_patch (prepend_tls_policy server codec) (compute_patch known.policies policies)
              log''))

    unfoldable pub remember :
        Dict Str Str → Dict Str Str → Known → Outcome Unit → Bool × (Known × Log)
    remember routes policies known (none, log) = (false, (known, log))
    remember routes policies known (some _, log) =
        (true, (record { routes = routes; policies = policies }, log))

    -- Whether it returned without an error, what is known afterwards, and the requests so far.
    unfoldable pub reconcile_devlocal :
        Dict Str Str → Dict Str Str → Known → Log → Bool × (Known × Log)
    reconcile_devlocal routes policies known log =
        remember routes policies known (send_all known routes policies log)
