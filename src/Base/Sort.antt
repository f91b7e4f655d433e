-- ===== src/Base/Sort.antt =====
-- `slices.Sort`, `sort.Strings`, `slices.SortStableFunc`: insertion sort over a test `a ≤ b`.
-- Over a linear order every sort returns the same list.
use mathlib.Core.List.{Permᴰ}
use mathlib.Core.List.Permᴰ
use mathlib.Core.Path.{◌≡◌, refl, ◌∙◌}
use mathlib.Core.Logic.{◌⊎◌, ◌↔◌, inl, inr}
use mathlib.Core.Bool.{Bool, true, false}
use mathlib.Core.List.{List, [], ◌∷◌}
use native.Mathlib.Omega.{arith}
use caddy_dev_local.Base.Tests.{if◌then◌else◌, Bool-cases}
use caddy_dev_local.Base.Lists.{In, All}

-- A linear order, by its test.
pub record IsLinear {ℓ} {A : Type ℓ} (le : A → A → Bool) : Type ℓ where
  pub total : (a b : A) → le a b ≡ false → le b a ≡ true
  pub trans : (a b c : A) → le a b ≡ true → le b c ≡ true → le a c ≡ true
  pub antisym : (a b : A) → le a b ≡ true → le b a ≡ true → a ≡ b

module _ {ℓ} {A : Type ℓ} (le : A → A → Bool) where
  unfoldable pub insert_sorted : A → List A → List A
  insert_sorted a [] = a ∷ []
  insert_sorted a (x ∷ xs) = if le a x then a ∷ x ∷ xs else x ∷ insert_sorted a xs

  unfoldable pub sort : List A → List A
  unfolding insert_sorted
  sort [] = []
  sort (x ∷ xs) = insert_sorted x (sort xs)

  abbrev pub IsSorted : List A → Type 0
  IsSorted [] = Unit
  IsSorted (x ∷ []) = Unit
  IsSorted (x ∷ y ∷ xs) = (le x y ≡ true) × IsSorted (y ∷ xs)

module _ {A : Type 0} (le : A → A → Bool) where
  In-insert_sorted : (a x : A) (xs : List A) → In a (insert_sorted le x xs) → (a ≡ x) ⊎ In a xs
  unfolding insert_sorted
  In-insert_sorted a x [] h = h
  In-insert_sorted a x (y ∷ xs) h = ground (arith, In-insert_sorted a x xs)

  insert_sorted-In : (a x : A) (xs : List A) → (a ≡ x) ⊎ In a xs → In a (insert_sorted le x xs)
  unfolding insert_sorted
  insert_sorted-In a x [] h = h
  insert_sorted-In a x (y ∷ xs) h = ground (arith, insert_sorted-In a x xs)

  -- A sorted list has the same members.
  pub In-sort : (a : A) (xs : List A) → In a (sort le xs) ↔ In a xs
  unfolding sort
  In-sort a [] = (λ h. h, λ h. h)
  In-sort a (x ∷ xs) = (
    λ h. elim (In-insert_sorted a x (sort le xs) h) [
      | inl e ↦ inl e
      | inr m ↦ inr ((In-sort a xs).0 m)
    ],
    λ h.
        insert_sorted-In a x (sort le xs)
          (elim h [ inl e ↦ inl e | inr m ↦ inr ((In-sort a xs).1 m) ]),
  )

  pub insert_sorted-perm : (x : A) (xs : List A) → Permᴰ (insert_sorted le x xs) (x ∷ xs)
  unfolding insert_sorted
  insert_sorted-perm x [] = Permᴰ.refl _
  insert_sorted-perm x (y ∷ xs) =
      elim (le x y)
        as (λ b. Permᴰ (if b then x ∷ y ∷ xs else y ∷ insert_sorted le x xs) (x ∷ y ∷ xs)) [
          | true ↦ Permᴰ.refl _
          | false ↦ Permᴰ.trans (Permᴰ.cons refl (insert_sorted-perm x xs)) (Permᴰ.swap refl refl)
        ]

  pub sort-perm : (xs : List A) → Permᴰ (sort le xs) xs
  unfolding sort
  sort-perm [] = Permᴰ.nil
  sort-perm (x ∷ xs) =
      Permᴰ.trans (insert_sorted-perm x (sort le xs)) (Permᴰ.cons refl (sort-perm xs))

  pub insert_sorted-IsSorted :
      ((a b : A) → le a b ≡ false → le b a ≡ true)
      → (x : A) (xs : List A) → IsSorted le xs
      → IsSorted le (insert_sorted le x xs)
  unfolding insert_sorted
  insert_sorted-IsSorted t x [] s = tt
  insert_sorted-IsSorted t x (y ∷ []) s = ground (arith, t x y)
  insert_sorted-IsSorted t x (y ∷ z ∷ xs) s =
      ground (arith, t x y, t x z, insert_sorted-IsSorted t x (z ∷ xs))

  pub sort-IsSorted :
      ((a b : A) → le a b ≡ false → le b a ≡ true) → (xs : List A) → IsSorted le (sort le xs)
  unfolding sort
  sort-IsSorted t [] = tt
  sort-IsSorted t (x ∷ xs) = insert_sorted-IsSorted t x (sort le xs) (sort-IsSorted t xs)

  -- A list in order is left as it is.
  pub sort_of_IsSorted : (xs : List A) → IsSorted le xs → sort le xs ≡ xs
  unfolding sort insert_sorted
  sort_of_IsSorted [] s = refl
  sort_of_IsSorted (x ∷ []) s = refl
  sort_of_IsSorted (x ∷ y ∷ xs) s = rw (sort_of_IsSorted (y ∷ xs) s.1) (ground arith)

module _ {ℓ} {A : Type ℓ} (le : A → A → Bool) (o : IsLinear le) where
  insert_comm :
      (a b : A) (xs : List A)
      → insert_sorted le a (insert_sorted le b xs) ≡ insert_sorted le b (insert_sorted le a xs)
  unfolding insert_sorted
  insert_comm a b [] = ground (arith, o.total a b, o.antisym a b)
  insert_comm a b (x ∷ xs) =
      ground (arith, insert_comm a b xs, o.total a b, o.antisym a b, o.trans a b x, o.trans b a x)

  -- The sorted list does not depend on the order of the input.
  pub sort-eq_of_perm : {xs ys : List A} → Permᴰ xs ys → sort le xs ≡ sort le ys
  unfolding sort
  sort-eq_of_perm Permᴰ.nil = refl
  sort-eq_of_perm (Permᴰ.cons {a = a} {b = b} e p) = cc (sort-eq_of_perm p)
  sort-eq_of_perm (Permᴰ.swap {a = a} {b = b} {l = l} e f) = cc (insert_comm a b (sort le l))
  sort-eq_of_perm (Permᴰ.trans p q) = sort-eq_of_perm p ∙ sort-eq_of_perm q

module _ {ℓ κ} {A : Type ℓ} (P : A → Type κ) (le : A → A → Bool) where
  insert_sorted-All : (x : A) (xs : List A) → P x → All P xs → All P (insert_sorted le x xs)
  unfolding insert_sorted
  insert_sorted-All x [] h k = (h, tt)
  insert_sorted-All x (y ∷ xs) h k = elim (Bool-cases (le x y)) [
    | inl e ↦ rw e (h, k)
    | inr e ↦ rw e (k.0, insert_sorted-All x xs h k.1)
  ]

  pub sort-All : (xs : List A) → All P xs → All P (sort le xs)
  unfolding sort
  sort-All [] h = tt
  sort-All (x ∷ xs) h = insert_sorted-All x (sort le xs) h.0 (sort-All xs h.1)
