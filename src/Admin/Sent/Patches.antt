-- ===== src/Admin/Sent/Patches.antt =====
-- Which routes `reconcileDevlocal` of admin.go has sent when it succeeds.
use mathlib.Core.Path.{subst}
use caddy_dev_local.Base.{
  ◌≡◌, refl, sym, ap, ◌∙◌, true, some, List, [], ◌∷◌, ◌++◌, inl, inr, arith, ◌==◌, ==_iff, nat_eq,
  list_eq, contains, Bool-cases,
}
use caddy_dev_local.Base.Dict.{Dict, lookup, keys}
use caddy_dev_local.Base.Distinct.{contains-sort, contains-keys, is_some}
use caddy_dev_local.Base.Sort.{sort}
use caddy_dev_local.Str.{Str, codes, str_le}
use caddy_dev_local.Admin.{
  Server, Codec, Log, Outcome, patch, is_success, patch_by_id, post_route, prepend_tls_policy,
}
use caddy_dev_local.Admin.Patch.{Patch, added_entries, compute_patch}
use caddy_dev_local.Admin.Reconcile.{
  Known, object_of, delete_all, settle_update, update_one, update_all, add_all, apply_patch,
  send_all,
}
use caddy_dev_local.Admin.Sent.{
  Keeps, Adds, Keeps-and_then, Adds-then, Adds-after, Keeps-only_if, Keeps-if, Keeps-request,
  Keeps-delete_by_id, Keeps-post_route, Adds-post_route, Keeps-prepend_tls_policy,
}

added_to_nothing : (desired : Dict Str Str) → added_entries [] desired ≡ desired
unfolding added_entries lookup
added_to_nothing [] = refl
added_to_nothing ((id, obj) ∷ desired) = ap (λ rest. (id, obj) ∷ rest) (added_to_nothing desired)

module _ (server : Server) (obj : Str) where
  Keeps-delete_all : (ids : List Str) (log : Log) → Keeps server obj log (delete_all server ids log)
  unfolding delete_all
  Keeps-delete_all [] log = λ s. s
  Keeps-delete_all (id ∷ ids) log =
      Keeps-and_then server obj log _ _ (Keeps-delete_by_id server obj id log)
        (λ u log'. Keeps-delete_all ids log')

  module _ (add : Str → Log → Outcome Unit)
      (adds : (o : Str) (log : Log) → Keeps server obj log (add o log)) where
    Keeps-update_one :
        (id o : Str) (log : Log) → Keeps server obj log (update_one server add id o log)
    unfolding update_one patch_by_id settle_update
    Keeps-update_one id o log =
        Keeps-and_then server obj log _ _
          (Keeps-request server obj patch (codes "/id/" ++ id) (some o) log)
          (λ status log'.
            Keeps-if server obj log' (status == 404) _ _ (adds o log')
              (Keeps-only_if server obj (is_success status) log'))

    Keeps-update_all :
        (updated : Dict Str Str) (ids : List Str) (log : Log)
        → Keeps server obj log (update_all server add updated ids log)
    unfolding update_all
    Keeps-update_all updated [] log = λ s. s
    Keeps-update_all updated (id ∷ ids) log =
        Keeps-and_then server obj log _ _ (Keeps-update_one id (object_of (lookup id updated)) log)
          (λ u log'. Keeps-update_all updated ids log')

    Keeps-add_all :
        (added : Dict Str Str) (ids : List Str) (log : Log)
        → Keeps server obj log (add_all server add added ids log)
    unfolding add_all
    Keeps-add_all added [] log = λ s. s
    Keeps-add_all added (id ∷ ids) log =
        Keeps-and_then server obj log _ _ (adds (object_of (lookup id added)) log)
          (λ u log'. Keeps-add_all added ids log')

    Keeps-apply_patch :
        (p : Patch) (log : Log) → Keeps server obj log (apply_patch server add p log)
    unfolding apply_patch
    Keeps-apply_patch p log =
        Keeps-and_then server obj log _ _ (Keeps-delete_all (keys p.removed) log) (λ u log'.
          Keeps-and_then server obj log' _ _
            (Keeps-update_all p.updated (sort str_le (keys p.updated)) log')
            (λ v log''. Keeps-add_all p.added (sort str_le (keys p.added)) log''))

  Adds-add_one : (o : Str) (log : Log) → o ≡ obj → Adds server obj (post_route server o log)
  Adds-add_one o log e =
      subst (λ t. Adds server obj (post_route server t log)) (sym e)
        (Adds-post_route server obj log)

  Adds-add_all :
      (added : Dict Str Str) (id : Str) (ids : List Str) (log : Log)
      → object_of (lookup id added) ≡ obj
      → contains ids id ≡ true
      → Adds server obj (add_all server (post_route server) added ids log)
  unfolding add_all
  Adds-add_all added id [] log e h = absurd (ground (arith, h))
  Adds-add_all added id (k ∷ ids) log e h = elim (Bool-cases (id == k)) [
    | inl q ↦
        Adds-then server obj _ _
          (Adds-add_one (object_of (lookup k added)) log
            (ap (λ t. object_of (lookup t added)) (sym ((==_iff id k).0 q)) ∙ e))
          (λ u log'. Keeps-add_all (post_route server) (Keeps-post_route server obj) added ids log')
    | inr q ↦
        Adds-after server obj _ _
          (λ u log'. Adds-add_all added id ids log' e (ground (arith, h, q)))
  ]

  module _ (routes : Dict Str Str) (id : Str) (desired : lookup id routes ≡ some obj) where
    Adds-apply_patch :
        (prev : Dict Str Str) (log : Log)
        → prev ≡ []
        → Adds server obj (apply_patch server (post_route server) (compute_patch prev routes) log)
    unfolding apply_patch object_of compute_patch
    Adds-apply_patch prev log h =
        let added : added_entries prev routes ≡ routes =
          ap (λ t. added_entries t routes) h ∙ added_to_nothing routes in
        let found : lookup id (added_entries prev routes) ≡ some obj =
          ap (lookup id) added ∙ desired in
        Adds-after server obj _ _ (λ u log'. Adds-after server obj _ _ (λ v log''.
          Adds-add_all (added_entries prev routes) id _ log'' (ap object_of found) (
            contains-sort str_le id (keys (added_entries prev routes))
            ∙ (contains-keys id (added_entries prev routes) ∙ ap is_some found))))

    -- When the first reconciliation succeeds, each desired route is sent.
    pub Adds-send_all :
        (codec : Codec) (known : Known) (policies : Dict Str Str) (log : Log)
        → known.routes ≡ []
        → Adds server obj (send_all server codec known routes policies log)
    unfolding send_all
    Adds-send_all codec known policies log h = Adds-after server obj _ _ (λ u log'.
        Adds-then server obj _ _ (Adds-apply_patch known.routes log' h) (λ v log''.
          Keeps-apply_patch (prepend_tls_policy server codec)
            (Keeps-prepend_tls_policy server obj codec) (compute_patch known.policies policies)
            log''))
