-- ===== src/Str/Trim.antt =====
-- Trimming: what `TrimRight` and `TrimSpace` take away.
use caddy_dev_local.Base.{
  ℕ, ◌≡◌, ◌≢◌, refl, sym, ap, ◌∙◌, Bool, true, false, [], ◌∷◌, ◌++◌, arith, All, inl, inr,
  Bool-cases,
}
use mathlib.Core.Path.{subst}
use mathlib.Core.List.{cons-ne-nil}
use caddy_dev_local.Str.{Str, trim_left, trim_right, keep_before, trim_space, is_space}

module _ (drops : ℕ → Bool) where
  pub keep_before_kept : (c : ℕ) (s : Str) → drops c ≡ false → keep_before drops c s ≡ c ∷ s
  unfolding keep_before
  keep_before_kept c [] h = ground arith
  keep_before_kept c (d ∷ s) h = refl

  keep_before-ne-nil : (c : ℕ) (s : Str) → s ≢ [] → keep_before drops c s ≡ c ∷ s
  unfolding keep_before
  keep_before-ne-nil c [] h = absurd (h refl)
  keep_before-ne-nil c (d ∷ s) h = refl

  pub trim_right_dropped : (t : Str) → All (λ c. drops c ≡ true) t → trim_right drops t ≡ []
  unfolding trim_right
  trim_right_dropped [] h = refl
  trim_right_dropped (c ∷ t) h = rw (trim_right_dropped t h.1) (ground arith)

  -- Dropped characters at the end make no difference.
  pub trim_right-append_dropped :
      (s t : Str) → All (λ c. drops c ≡ true) t → trim_right drops (s ++ t) ≡ trim_right drops s
  unfolding trim_right
  trim_right-append_dropped [] t h = trim_right_dropped t h
  trim_right-append_dropped (c ∷ s) t h = rw (trim_right-append_dropped s t h)

  pub trim_right-append_nil :
      (s t : Str) → trim_right drops t ≡ [] → trim_right drops (s ++ t) ≡ trim_right drops s
  unfolding trim_right
  trim_right-append_nil [] t h = h
  trim_right-append_nil (c ∷ s) t h = rw (trim_right-append_nil s t h)

  append-ne-nil : (s t : Str) → t ≢ [] → s ++ t ≢ []
  append-ne-nil [] t h = h
  append-ne-nil (c ∷ s) t h = cons-ne-nil c (s ++ t)

  -- A character that is kept keeps all that stands before it.
  pub trim_right-append_kept :
      (s t : Str) → trim_right drops t ≢ [] → trim_right drops (s ++ t) ≡ s ++ trim_right drops t
  unfolding trim_right
  trim_right-append_kept [] t h = refl
  trim_right-append_kept (c ∷ s) t h =
      rw (trim_right-append_kept s t h) (keep_before-ne-nil c _ (append-ne-nil s _ h))

  pub trim_right-last_kept :
      (s : Str) (c : ℕ) → drops c ≡ false → trim_right drops (s ++ c ∷ []) ≡ s ++ c ∷ []
  unfolding trim_right
  trim_right-last_kept s c h =
      trim_right-append_kept s (c ∷ [])
        (subst (λ t. t ≢ []) (sym (keep_before_kept c [] h)) (cons-ne-nil c []))
      ∙ ap (λ t. s ++ t) (keep_before_kept c [] h)

  keep_before-decompose :
      (c : ℕ) (s t : Str)
      → All (λ d. drops d ≡ true) t
      → (u : Str) × (c ∷ (s ++ t) ≡ keep_before drops c s ++ u) × All (λ d. drops d ≡ true) u
  unfolding keep_before
  keep_before-decompose c (d ∷ s) t h = (t, refl, h)
  keep_before-decompose c [] t h = elim (Bool-cases (drops c)) [
    | inl e ↦ (c ∷ t, rw e, (e, h))
    | inr e ↦ (t, rw e, h)
  ]

  -- What is taken away from the right end is dropped characters.
  pub trim_right-decompose :
      (s : Str) → (t : Str) × (s ≡ trim_right drops s ++ t) × All (λ c. drops c ≡ true) t
  unfolding trim_right
  trim_right-decompose [] = ([], refl, tt)
  trim_right-decompose (c ∷ s) =
      let (t, e, h) = trim_right-decompose s in
      let (u, f, k) = keep_before-decompose c (trim_right drops s) t h in (u, ap (◌∷◌ c) e ∙ f, k)

  -- Trimming twice is trimming once.
  pub trim_right_idem : (s : Str) → trim_right drops (trim_right drops s) ≡ trim_right drops s
  trim_right_idem s =
      let (t, e, h) = trim_right-decompose s in
      sym (trim_right-append_dropped (trim_right drops s) t h) ∙ ap (trim_right drops) (sym e)

  pub trim_left_kept : (c : ℕ) (s : Str) → drops c ≡ false → trim_left drops (c ∷ s) ≡ c ∷ s
  unfolding trim_left
  trim_left_kept c s h = ground arith

-- A text that begins with a character other than white space still does when it is trimmed.
pub trim_space_kept :
    (c : ℕ) (s : Str) → is_space c ≡ false → trim_space (c ∷ s) ≡ c ∷ trim_right is_space s
unfolding trim_space trim_right
trim_space_kept c s h = rw (trim_left_kept is_space c s h) (keep_before_kept is_space c _ h)
