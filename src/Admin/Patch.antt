-- ===== src/Admin/Patch.antt =====
-- `computePatch` of admin.go: what changes from one set of objects to another.
use caddy_dev_local.Base.{
  ◌≡◌, refl, Option, none, some, [], ◌∷◌, ◌==◌, nat_eq, list_eq, if◌then◌else◌, arith,
}
use caddy_dev_local.Base.Dict.{Dict, lookup, NodupKeys}
use caddy_dev_local.Str.{Str}

-- The maps start empty and each key is set once, so setting a key adds an entry.
unfoldable pub removed_entries : Dict Str Str → Dict Str Str → Dict Str Str
removed_entries desired [] = []
removed_entries desired ((id, obj) ∷ prev) =
    let rest = removed_entries desired prev in
    elim (lookup id desired) [ none ↦ (id, obj) ∷ rest | some desired_obj ↦ rest ]

unfoldable pub updated_entries : Dict Str Str → Dict Str Str → Dict Str Str
updated_entries desired [] = []
updated_entries desired ((id, obj) ∷ prev) =
    let rest = updated_entries desired prev in
    elim (lookup id desired) [
      | none ↦ rest
      | some desired_obj ↦ if obj == desired_obj then rest else (id, desired_obj) ∷ rest
    ]

unfoldable pub added_entries : Dict Str Str → Dict Str Str → Dict Str Str
added_entries prev [] = []
added_entries prev ((id, obj) ∷ desired) =
    let rest = added_entries prev desired in
    elim (lookup id prev) [ none ↦ (id, obj) ∷ rest | some prev_obj ↦ rest ]

pub record Patch : Type 0 where
  pub removed : Dict Str Str
  pub updated : Dict Str Str
  pub added : Dict Str Str

unfoldable pub compute_patch : Dict Str Str → Dict Str Str → Patch
compute_patch prev desired = record {
  removed = removed_entries desired prev;
  updated = updated_entries desired prev;
  added = added_entries prev desired;
}

-- What each part should hold under an ID, from the object before and the desired one.
abbrev pub removed_of : Option Str → Option Str → Option Str
removed_of none desired = none
removed_of (some obj) none = some obj
removed_of (some obj) (some desired_obj) = none

abbrev pub updated_of : Option Str → Option Str → Option Str
updated_of none desired = none
updated_of (some obj) none = none
updated_of (some obj) (some desired_obj) = if obj == desired_obj then none else some desired_obj

abbrev pub added_of : Option Str → Option Str → Option Str
added_of none desired = desired
added_of (some obj) desired = none

lookup-removed_entries :
    (id : Str) (desired prev : Dict Str Str)
    → NodupKeys prev
    → lookup id (removed_entries desired prev) ≡ removed_of (lookup id prev) (lookup id desired)
unfolding removed_entries lookup
lookup-removed_entries id desired [] u = refl
lookup-removed_entries id desired ((k, obj) ∷ prev) u =
    ground (arith, u.0, lookup-removed_entries id desired prev u.1)

lookup-updated_entries :
    (id : Str) (desired prev : Dict Str Str)
    → NodupKeys prev
    → lookup id (updated_entries desired prev) ≡ updated_of (lookup id prev) (lookup id desired)
unfolding updated_entries lookup
lookup-updated_entries id desired [] u = refl
lookup-updated_entries id desired ((k, obj) ∷ prev) u =
    ground (arith, u.0, lookup-updated_entries id desired prev u.1)

lookup-added_entries :
    (id : Str) (prev desired : Dict Str Str)
    → NodupKeys desired
    → lookup id (added_entries prev desired) ≡ added_of (lookup id prev) (lookup id desired)
unfolding added_entries lookup
lookup-added_entries id prev [] u = ground arith
lookup-added_entries id prev ((k, obj) ∷ desired) u =
    ground (arith, u.0, lookup-added_entries id prev desired u.1)

-- For maps, in which no key stands twice: an object is removed just if its ID is not desired, updated
-- to the desired object just if its ID has another object before, and added just if its ID has no
-- object before.
pub lookup-compute_patch :
    (prev desired : Dict Str Str)
    → NodupKeys prev
    → NodupKeys desired
    → (id : Str)
    → (lookup id (compute_patch prev desired).removed
        ≡ removed_of (lookup id prev) (lookup id desired))
      × (lookup id (compute_patch prev desired).updated
          ≡ updated_of (lookup id prev) (lookup id desired))
      × (lookup id (compute_patch prev desired).added
          ≡ added_of (lookup id prev) (lookup id desired))
unfolding compute_patch
lookup-compute_patch prev desired u v id = (
  lookup-removed_entries id desired prev u,
  lookup-updated_entries id desired prev u,
  lookup-added_entries id prev desired v,
)

pub removed_entries-NodupKeys :
    (desired prev : Dict Str Str) → NodupKeys prev → NodupKeys (removed_entries desired prev)
unfolding removed_entries
removed_entries-NodupKeys desired [] u = tt
removed_entries-NodupKeys desired ((k, obj) ∷ prev) u = ground (
  arith,
  removed_entries-NodupKeys desired prev u.1,
  lookup-removed_entries k desired prev u.1,
  u.0,
)

pub added_entries-NodupKeys :
    (prev desired : Dict Str Str) → NodupKeys desired → NodupKeys (added_entries prev desired)
unfolding added_entries
added_entries-NodupKeys prev [] u = tt
added_entries-NodupKeys prev ((k, obj) ∷ desired) u =
    ground (
      arith,
      added_entries-NodupKeys prev desired u.1,
      lookup-added_entries k prev desired u.1,
      u.0,
    )
