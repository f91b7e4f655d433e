-- ===== src/Admin/Reconcile/Refines.antt =====
-- The reconciliation of the routes brings the server to the desired routes.
use mathlib.Core.Path.{subst}
use mathlib.Core.Option.{some-ne-none}
use caddy_dev_local.Base.{
  ◌≡◌, ◌≢◌, refl, sym, ◌∙◌, true, Option, none, some, nat_eq, list_eq, if◌then◌else◌, contains,
  arith,
}
use caddy_dev_local.Base.Dict.{Dict, lookup, keys, NodupKeys}
use caddy_dev_local.Base.Sort.{sort}
use caddy_dev_local.Base.Distinct.{
  Nodup, contains-sort, sort-Nodup, is_some, contains-keys, keys-Nodup,
}
use caddy_dev_local.Str.{Str, str_le}
use caddy_dev_local.Admin.{Server, Log, Outcome, post_route, and_then-some}
use caddy_dev_local.Admin.Patch.{
  Patch, compute_patch, lookup-compute_patch, updated_of, removed_of, added_of,
  removed_entries-NodupKeys, added_entries-NodupKeys,
}
use caddy_dev_local.Admin.Reconcile.{object_of, delete_all, update_all, add_all, apply_patch}
use caddy_dev_local.Admin.Reconcile.Routes.{
  Behaves, Leaves, delete_all-Leaves, update_all-Leaves, add_all-Leaves,
}

object_of-some : (o : Option Str) (obj : Str) → o ≡ some obj → some (object_of o) ≡ some obj
unfolding object_of
object_of-some none obj e = cc
object_of-some (some a) obj e = e

module _ (server : Server) (store : Log → Str → Option Str) (id_of : Str → Str)
    (good : Behaves server store id_of) (prev desired : Dict Str Str) (u : NodupKeys prev)
    (v : NodupKeys desired)
    (own : (y obj : Str) → lookup y desired ≡ some obj → id_of obj ≡ y) where
  p : Patch
  p = compute_patch prev desired

  removed-Nodup : Nodup (keys (compute_patch prev desired).removed)
  unfolding compute_patch
  removed-Nodup = keys-Nodup _ (removed_entries-NodupKeys desired prev u)

  added-Nodup : Nodup (keys (compute_patch prev desired).added)
  unfolding compute_patch
  added-Nodup = keys-Nodup _ (added_entries-NodupKeys prev desired v)

  -- What the object under an ID is after the deletions and after the updates.
  abbrev kept_object : Option Str → Option Str → Option Str
  kept_object none d = none
  kept_object (some o) none = none
  kept_object (some o) (some d) = some o

  abbrev updated_object : Option Str → Option Str → Option Str
  updated_object none d = none
  updated_object (some o) d = d

  after_removal :
      (y : Str) (o d r : Option Str)
      → r ≡ removed_of o d
      → (if is_some r then none else o) ≡ kept_object o d
  after_removal y none d r e = ground (arith, e)
  after_removal y (some o) none r e = ground (arith, e)
  after_removal y (some o) (some d) r e = ground (arith, e)

  after_update :
      (o d r : Option Str)
      → r ≡ updated_of o d
      → (if is_some r then some (object_of r) else kept_object o d) ≡ updated_object o d
  unfolding object_of
  after_update none d r e = ground (arith, e)
  after_update (some o) none r e = ground (arith, e)
  after_update (some o) (some d) r e = ground (arith, e)

  after_addition :
      (o d r : Option Str)
      → r ≡ added_of o d
      → (if is_some r then some (object_of r) else updated_object o d) ≡ d
  unfolding object_of
  after_addition none none r e = ground (arith, e)
  after_addition none (some d) r e = ground (arith, e)
  after_addition (some o) d r e = ground (arith, e)

  removed_present : (o d r : Option Str) → r ≡ removed_of o d → is_some r ≡ true → o ≢ none
  removed_present none d r e h = absurd (ground (arith, e, h))
  removed_present (some o) d r e h = some-ne-none o

  updated_present :
      (o d r : Option Str) → r ≡ updated_of o d → is_some r ≡ true → kept_object o d ≢ none
  updated_present none d r e h = absurd (ground (arith, e, h))
  updated_present (some o) none r e h = absurd (ground (arith, e, h))
  updated_present (some o) (some d) r e h = some-ne-none o

  updated_desired :
      (o d r : Option Str) → r ≡ updated_of o d → is_some r ≡ true → d ≡ some (object_of r)
  unfolding object_of
  updated_desired none d r e h = absurd (ground (arith, e, h))
  updated_desired (some o) none r e h = absurd (ground (arith, e, h))
  updated_desired (some o) (some d) r e h = ground (arith, e, h)

  added_free :
      (o d r : Option Str) → r ≡ added_of o d → is_some r ≡ true → updated_object o d ≡ none
  added_free none d r e h = refl
  added_free (some o) d r e h = absurd (ground (arith, e, h))

  added_desired :
      (o d r : Option Str) → r ≡ added_of o d → is_some r ≡ true → d ≡ some (object_of r)
  unfolding object_of
  added_desired none none r e h = absurd (ground (arith, e, h))
  added_desired none (some d) r e h = ground (arith, e)
  added_desired (some o) d r e h = absurd (ground (arith, e, h))

  of :
      (y : Str)
      → (lookup y (compute_patch prev desired).removed
          ≡ removed_of (lookup y prev) (lookup y desired))
        × (lookup y (compute_patch prev desired).updated
            ≡ updated_of (lookup y prev) (lookup y desired))
        × (lookup y (compute_patch prev desired).added
            ≡ added_of (lookup y prev) (lookup y desired))
  of = lookup-compute_patch prev desired u v

  sorted_keys :
      (m : Dict Str Str) (y : Str) → contains (sort str_le (keys m)) y ≡ is_some (lookup y m)
  sorted_keys m y = contains-sort str_le y (keys m) ∙ contains-keys y m

  -- What the server holds after each loop.
  abbrev Holds : Outcome Unit → (Option Str → Option Str → Option Str) → Type 0
  Holds o f = Leaves server store id_of good o (λ y. f (lookup y prev) (lookup y desired))

  deletions :
      (log : Log)
      → ((y : Str) → store log y ≡ lookup y prev)
      → Holds (delete_all server (keys (compute_patch prev desired).removed) log) kept_object
  deletions log h =
      let (log', e, g) =
        delete_all-Leaves server store id_of good (keys (compute_patch prev desired).removed) log
          removed-Nodup
          (λ y c.
            subst (λ o. o ≢ none) (sym (h y))
              (removed_present (lookup y prev) (lookup y desired) _ (of y).0
                (sym (contains-keys y _) ∙ c))) in
      (
        log',
        e,
        λ y.
            g y
            ∙ (ground (arith, contains-keys y (compute_patch prev desired).removed, h y)
                ∙ after_removal y (lookup y prev) (lookup y desired)
                    (lookup y (compute_patch prev desired).removed) (of y).0),
      )

  updates :
      (log : Log)
      → ((y : Str) → store log y ≡ kept_object (lookup y prev) (lookup y desired))
      → Holds
          (update_all server
            (post_route server)
            (compute_patch prev desired).updated
            (sort str_le (keys (compute_patch prev desired).updated))
            log)
          updated_object
  updates log h =
      let m : Dict Str Str = (compute_patch prev desired).updated in
      let (log', e, g) =
        update_all-Leaves server store id_of good m (sort str_le (keys m)) log
          (λ y c.
            subst (λ o. o ≢ none) (sym (h y))
              (updated_present (lookup y prev) (lookup y desired) (lookup y m) (of y).1
                (sym (sorted_keys m y) ∙ c)))
          (λ y c. own y (object_of (lookup y m)) (
            updated_desired (lookup y prev) (lookup y desired) (lookup y m) (of y).1
              (sym (sorted_keys m y) ∙ c))) in
      (
        log',
        e,
        λ y.
            g y
            ∙ (ground (arith, sorted_keys m y, h y)
                ∙ after_update (lookup y prev) (lookup y desired) (lookup y m) (of y).1),
      )

  additions :
      (log : Log)
      → ((y : Str) → store log y ≡ updated_object (lookup y prev) (lookup y desired))
      → Holds
          (add_all server
            (post_route server)
            (compute_patch prev desired).added
            (sort str_le (keys (compute_patch prev desired).added))
            log)
          (λ o d. d)
  additions log h =
      let m : Dict Str Str = (compute_patch prev desired).added in
      let (log', e, g) =
        add_all-Leaves server store id_of good m (sort str_le (keys m)) log
          (sort-Nodup str_le (keys m) added-Nodup)
          (λ y c.
            h y
            ∙ added_free (lookup y prev) (lookup y desired) (lookup y m) (of y).2
                (sym (sorted_keys m y) ∙ c))
          (λ y c. own y (object_of (lookup y m)) (
            added_desired (lookup y prev) (lookup y desired) (lookup y m) (of y).2
              (sym (sorted_keys m y) ∙ c))) in
      (
        log',
        e,
        λ y.
            g y
            ∙ (ground (arith, sorted_keys m y, h y)
                ∙ after_addition (lookup y prev) (lookup y desired) (lookup y m) (of y).2),
      )

  -- Suppose that the server does what the admin API documents, that it holds the remembered routes,
  -- and that each desired route has its ID. Then the three loops over the patch of the routes return
  -- without an error, and the server holds the desired routes and no other.
  pub apply_patch-Leaves :
      (log : Log)
      → ((y : Str) → store log y ≡ lookup y prev)
      → (log' : Log) × (apply_patch server (post_route server) (compute_patch prev desired) log
          ≡ (some tt, log'))
        × ((y : Str) → store log' y ≡ lookup y desired)
  unfolding apply_patch
  apply_patch-Leaves log h =
      let (log₁, e₁, g₁) = deletions log h in
      let (log₂, e₂, g₂) = updates log₁ g₁ in
      let (log₃, e₃, g₃) = additions log₂ g₂ in
      (log₃, and_then-some _ tt log₁ _ e₁ ∙ (and_then-some _ tt log₂ _ e₂ ∙ e₃), g₃)
