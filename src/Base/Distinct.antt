-- ===== src/Base/Distinct.antt =====
-- Lists without repetition, and what `contains` says of appended and sorted lists.
use mathlib.Core.List.{Permᴰ}
use mathlib.Core.Path.{◌≡◌, refl, ap, ◌∙◌}
use mathlib.Core.Bool.{Bool, true, false, ◌||◌}
use mathlib.Core.List.{List, [], ◌∷◌, ◌++◌}
use native.Mathlib.Omega.{arith}
use caddy_dev_local.Base.Equality.{Eq, ◌==◌, contains}
use caddy_dev_local.Base.Lists.{flat_map}
use caddy_dev_local.Base.Dict.{Dict, keys, lookup, NodupKeys}
use mathlib.Core.Option.{Option, none, some}
use caddy_dev_local.Base.Sort.{IsLinear, insert_sorted, sort, IsSorted}

module _ {A : Type 0} ⦃e : Eq A⦄ where
  abbrev pub Nodup : List A → Type 0
  Nodup [] = Unit
  Nodup (x ∷ xs) = (contains xs x ≡ false) × Nodup xs

  pub contains-append :
      (a : A) (xs ys : List A) → contains (xs ++ ys) a ≡ (contains xs a || contains ys a)
  contains-append a [] ys = refl
  contains-append a (x ∷ xs) ys = ground (arith, contains-append a xs ys)

  pub snoc-Nodup : (xs : List A) (x : A) → contains xs x ≡ false → Nodup xs → Nodup (xs ++ x ∷ [])
  snoc-Nodup [] x h u = (refl, tt)
  snoc-Nodup (y ∷ xs) x h u = ground (arith, snoc-Nodup xs x, contains-append y xs (x ∷ []))

  module _ (le : A → A → Bool) where
    contains-insert_sorted :
        (a x : A) (xs : List A) → contains (insert_sorted le x xs) a ≡ (a == x || contains xs a)
    unfolding insert_sorted
    contains-insert_sorted a x [] = refl
    contains-insert_sorted a x (y ∷ xs) = ground (arith, contains-insert_sorted a x xs)

    pub contains-sort : (a : A) (xs : List A) → contains (sort le xs) a ≡ contains xs a
    unfolding sort
    contains-sort a [] = refl
    contains-sort a (x ∷ xs) =
        ground (arith, contains-insert_sorted a x (sort le xs), contains-sort a xs)

    insert_sorted-Nodup :
        (x : A) (xs : List A) → contains xs x ≡ false → Nodup xs → Nodup (insert_sorted le x xs)
    unfolding insert_sorted
    insert_sorted-Nodup x [] h u = (refl, tt)
    insert_sorted-Nodup x (y ∷ xs) h u =
        ground (arith, insert_sorted-Nodup x xs, contains-insert_sorted y x xs)

    pub sort-Nodup : (xs : List A) → Nodup xs → Nodup (sort le xs)
    unfolding sort
    sort-Nodup [] u = tt
    sort-Nodup (x ∷ xs) u =
        insert_sorted-Nodup x (sort le xs) (contains-sort x xs ∙ u.0) (sort-Nodup xs u.1)

    module _ (o : IsLinear le) where
      IsSorted-tail : (x : A) (xs : List A) → IsSorted le (x ∷ xs) → IsSorted le xs
      IsSorted-tail x [] s = tt
      IsSorted-tail x (y ∷ xs) s = s.1

      sorted_le :
          (x a : A) (xs : List A) → IsSorted le (x ∷ xs) → contains xs a ≡ true → le x a ≡ true
      sorted_le x a [] s h = cc
      sorted_le x a (y ∷ xs) s h = ground (arith, s, o.trans x y a, sorted_le y a xs s.1)

      same_head :
          (x y : A) (xs ys : List A)
          → IsSorted le (x ∷ xs)
          → IsSorted le (y ∷ ys)
          → contains (x ∷ xs) x ≡ contains (y ∷ ys) x
          → contains (x ∷ xs) y ≡ contains (y ∷ ys) y
          → x ≡ y
      same_head x y xs ys s t h k =
          ground (arith, h, k, o.antisym x y, sorted_le x y xs s, sorted_le y x ys t)

      -- Sorted lists without repetition that have the same members are equal.
      pub sorted_unique :
          (xs ys : List A)
          → IsSorted le xs
          → IsSorted le ys
          → Nodup xs
          → Nodup ys
          → ((a : A) → contains xs a ≡ contains ys a)
          → xs ≡ ys
      sorted_unique [] [] s t u v h = refl
      sorted_unique [] (y ∷ ys) s t u v h = ground (arith, h y)
      sorted_unique (x ∷ xs) [] s t u v h = ground (arith, h x)
      sorted_unique (x ∷ xs) (y ∷ ys) s t u v h =
          let same = same_head x y xs ys s t (h x) (h y) in
          let rest =
            sorted_unique xs ys (IsSorted-tail x xs s) (IsSorted-tail y ys t) u.1 v.1
              (λ a. ground (arith, h a, same, u.0, v.0)) in
          cc

abbrev pub is_some {ℓ} : {A : Type ℓ} → Option A → Bool
is_some none = false
is_some (some a) = true

module _ {K : Type 0} {V : Type 0} ⦃e : Eq K⦄ where
  -- The keys of a map are what can be looked up in it.
  pub contains-keys : (k : K) (d : Dict K V) → contains (keys d) k ≡ is_some (lookup k d)
  unfolding lookup
  contains-keys k [] = refl
  contains-keys k ((j, v) ∷ d) = ground (arith, contains-keys k d)

  pub keys-Nodup : (d : Dict K V) → NodupKeys d → Nodup (keys d)
  keys-Nodup [] u = tt
  keys-Nodup ((k, v) ∷ d) u = (contains-keys k d ∙ ap is_some u.0, keys-Nodup d u.1)

module _ {A : Type 0} {B : Type 0} ⦃e : Eq B⦄ (f : A → List B) (b : B) where
  -- What a list gives in parts does not depend on its order.
  pub contains-flat_map_perm :
      {xs ys : List A} → Permᴰ xs ys → contains (flat_map f xs) b ≡ contains (flat_map f ys) b
  contains-flat_map_perm Permᴰ.nil = refl
  contains-flat_map_perm (Permᴰ.cons {a = x} {b = y} {l₁ = l} {l₂ = k} p q) = ground (
    arith,
    contains-append b (f x) (flat_map f l),
    contains-append b (f y) (flat_map f k),
    ap f p,
    contains-flat_map_perm q,
  )
  contains-flat_map_perm (Permᴰ.swap {a = x} {b = y} {a' = x'} {b' = y'} {l = l} p q) = ground (
    arith,
    contains-append b (f x) (f y ++ flat_map f l),
    contains-append b (f y) (flat_map f l),
    contains-append b (f x') (f y' ++ flat_map f l),
    contains-append b (f y') (flat_map f l),
    ap f p,
    ap f q,
  )
  contains-flat_map_perm (Permᴰ.trans p q) = contains-flat_map_perm p ∙ contains-flat_map_perm q
