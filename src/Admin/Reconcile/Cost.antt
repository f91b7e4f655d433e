-- ===== src/Admin/Reconcile/Cost.antt =====
-- How many requests `reconcileDevlocal` of admin.go sends.
use caddy_dev_local.Base.{
  ℕ, suc, ◌+◌, ◌*◌, ◌≤◌, ◌≡◌, refl, ap, ◌∙◌, Bool, true, false, none, some, List, [], ◌∷◌, ◌++◌,
  arith, length, ◌==◌, nat_eq, list_eq,
}
use caddy_dev_local.Base.Dict.{Dict, lookup, keys}
use caddy_dev_local.Base.Sort.{sort, insert_sorted}
use caddy_dev_local.Str.{Str, codes, str_le}
use caddy_dev_local.Admin.{
  Server, Codec, Log, Outcome, patch, is_success, patch_by_id, post_route, prepend_tls_policy,
}
use caddy_dev_local.Admin.Patch.{Patch, compute_patch}
use caddy_dev_local.Admin.Reconcile.{
  Known, object_of, delete_all, settle_update, update_one, update_all, add_all, apply_patch,
  ensure_if, is_empty, send_all, remember, reconcile_devlocal,
}
use caddy_dev_local.Admin.Bounds.{
  Costs, Costs-and_then, Costs-only_if, Costs-if, Costs-delete_by_id, Costs-request,
  Costs-post_route, Costs-ensure_server, Costs-prepend_tls_policy,
}

length-insert_sorted :
    (x : Str) (xs : List Str) → length (insert_sorted str_le x xs) ≡ suc (length xs)
unfolding insert_sorted
length-insert_sorted x [] = refl
length-insert_sorted x (y ∷ xs) = ground (arith, length-insert_sorted x xs)

length-sort : (xs : List Str) → length (sort str_le xs) ≡ length xs
unfolding sort
length-sort [] = refl
length-sort (x ∷ xs) = omega (arith, length-insert_sorted x (sort str_le xs), length-sort xs)

length-keys : (d : Dict Str Str) → length (keys d) ≡ length d
length-keys [] = refl
length-keys (entry ∷ d) = omega (arith, length-keys d)

-- The requests for a patch, where adding an object takes at most `n`.
abbrev pub patch_cost : ℕ → Patch → ℕ
patch_cost n p = 3 * length p.removed + (3 + n) * length p.updated + n * length p.added

module _ (server : Server) where
  Costs-delete_all :
      (ids : List Str) (log : Log) → Costs (3 * length ids) log (delete_all server ids log)
  unfolding delete_all
  Costs-delete_all [] log = omega arith
  Costs-delete_all (id ∷ ids) log =
      let cost : Costs (3 + 3 * length ids) log (delete_all server (id ∷ ids) log) =
        Costs-and_then 3 (3 * length ids) log _ _ (Costs-delete_by_id server id log)
          (λ u log'. Costs-delete_all ids log') in
      omega (arith, cost)

  module _ (add : Str → Log → Outcome Unit) (n : ℕ)
      (adds : (obj : Str) (log : Log) → Costs n log (add obj log)) where
    Costs-update_one :
        (id obj : Str) (log : Log) → Costs (3 + n) log (update_one server add id obj log)
    unfolding update_one patch_by_id settle_update
    Costs-update_one id obj log =
        Costs-and_then 3 n log _ _ (Costs-request server patch (codes "/id/" ++ id) (some obj) log)
          (λ status log'.
            Costs-if n log' (status == 404) _ _ (adds obj log')
              (omega (arith, Costs-only_if (is_success status) log')))

    Costs-update_all :
        (updated : Dict Str Str) (ids : List Str) (log : Log)
        → Costs ((3 + n) * length ids) log (update_all server add updated ids log)
    unfolding update_all
    Costs-update_all updated [] log = omega arith
    Costs-update_all updated (id ∷ ids) log =
        let cost : Costs ((3 + n) + (3 + n) * length ids) log
            (update_all server add updated (id ∷ ids) log) =
          Costs-and_then (3 + n) ((3 + n) * length ids) log _ _
            (Costs-update_one id (object_of (lookup id updated)) log)
            (λ u log'. Costs-update_all updated ids log') in
        grind (arith, cost)

    Costs-add_all :
        (added : Dict Str Str) (ids : List Str) (log : Log)
        → Costs (n * length ids) log (add_all server add added ids log)
    unfolding add_all
    Costs-add_all added [] log = omega arith
    Costs-add_all added (id ∷ ids) log =
        let cost : Costs (n + n * length ids) log (add_all server add added (id ∷ ids) log) =
          Costs-and_then n (n * length ids) log _ _ (adds (object_of (lookup id added)) log)
            (λ u log'. Costs-add_all added ids log') in
        grind (arith, cost)

    Costs-apply_patch :
        (p : Patch) (log : Log) → Costs (patch_cost n p) log (apply_patch server add p log)
    unfolding apply_patch
    Costs-apply_patch p log =
        let updates : ℕ = (3 + n) * length (sort str_le (keys p.updated)) in
        let additions : ℕ = n * length (sort str_le (keys p.added)) in
        let cost : Costs (3 * length (keys p.removed) + (updates + additions)) log
            (apply_patch server add p log) =
          Costs-and_then (3 * length (keys p.removed)) (updates + additions) log _ _
            (Costs-delete_all (keys p.removed) log)
            (λ u log'.
              Costs-and_then updates additions log' _ _
                (Costs-update_all p.updated (sort str_le (keys p.updated)) log')
                (λ v log''. Costs-add_all p.added (sort str_le (keys p.added)) log'')) in
        omega (
          arith,
          cost,
          length-keys p.removed,
          ap (λ (t : ℕ). (3 + n) * t) (length-sort (keys p.updated) ∙ length-keys p.updated),
          ap (λ (t : ℕ). n * t) (length-sort (keys p.added) ∙ length-keys p.added),
        )

  module _ (codec : Codec) where
    Costs-ensure_if : (b : Bool) (log : Log) → Costs 21 log (ensure_if server codec b log)
    unfolding ensure_if
    Costs-ensure_if true log = omega arith
    Costs-ensure_if false log = Costs-ensure_server server codec log

    Costs-send_all :
        (known : Known) (routes policies : Dict Str Str) (log : Log)
        → Costs
            (21
              + (patch_cost 3 (compute_patch known.routes routes)
                  + patch_cost 9 (compute_patch known.policies policies)))
            log
            (send_all server codec known routes policies log)
    unfolding send_all
    Costs-send_all known routes policies log =
        let first = patch_cost 3 (compute_patch known.routes routes) in
        let second = patch_cost 9 (compute_patch known.policies policies) in
        Costs-and_then 21 (first + second) log _ _ (Costs-ensure_if (is_empty routes) log)
          (λ u log'.
            Costs-and_then first second log' _ _
              (Costs-apply_patch (post_route server) 3 (Costs-post_route server)
                (compute_patch known.routes routes) log')
              (λ v log''.
                Costs-apply_patch (prepend_tls_policy server codec) 9
                  (Costs-prepend_tls_policy server codec) (compute_patch known.policies policies)
                  log''))

    log-remember :
        (routes policies : Dict Str Str) (known : Known) (o : Outcome Unit)
        → (remember server codec routes policies known o).1.1 ≡ o.1
    unfolding remember
    log-remember routes policies known (none, log) = refl
    log-remember routes policies known (some u, log) = refl

    -- A reconciliation ends after a number of requests that is linear in what changes, whatever the
    -- server answers: at most 21 to set up the server, three for each route that is removed or added and
    -- six for each that is updated, and for the policies three, nine and twelve.
    pub reconcile_devlocal_bound :
        (routes policies : Dict Str Str) (known : Known) (log : Log)
        → length (reconcile_devlocal server codec routes policies known log).1.1
          ≤ 21
            + (patch_cost 3 (compute_patch known.routes routes)
                + patch_cost 9 (compute_patch known.policies policies))
            + length log
    unfolding reconcile_devlocal
    reconcile_devlocal_bound routes policies known log = omega (
      arith,
      ap length
          (log-remember routes policies known (send_all server codec known routes policies log)),
      Costs-send_all known routes policies log,
    )
