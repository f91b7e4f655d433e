-- ===== src/Str/Lines.antt =====
-- Splitting a text at a separator and joining the parts.
use caddy_dev_local.Base.{
  ℕ, ◌≡◌, ◌≢◌, refl, sym, ap, ◌∙◌, Bool, true, false, List, [], ◌∷◌, ◌++◌, append_assoc, append-nil,
  arith, All, ◌==◌, if◌then◌else◌,
}
use mathlib.Core.Path.{subst}
use mathlib.Core.List.{cons-ne-nil}
use caddy_dev_local.Base.{nat_eq}
use caddy_dev_local.Str.{Str, Lacks, split, push, join}

pub append-ne-nil {ℓ} : {A : Type ℓ} (xs ys : List A) → ys ≢ [] → xs ++ ys ≢ []
append-ne-nil [] ys h = h
append-ne-nil (x ∷ xs) ys h = cons-ne-nil x (xs ++ ys)

pub left-ne-nil {ℓ} : {A : Type ℓ} (xs ys : List A) → xs ≢ [] → xs ++ ys ≢ []
left-ne-nil [] ys h = absurd (h refl)
left-ne-nil (x ∷ xs) ys h = cons-ne-nil x (xs ++ ys)

module _ (sep : ℕ) where
  pub join-cons : (p : Str) (ps : List Str) → ps ≢ [] → join sep (p ∷ ps) ≡ p ++ (sep ∷ join sep ps)
  unfolding join
  join-cons p [] h = absurd (h refl)
  join-cons p (q ∷ ps) h = refl

  push-ne-nil : (c : ℕ) (ps : List Str) → push c ps ≢ []
  unfolding push
  push-ne-nil c [] h = cc
  push-ne-nil c (p ∷ ps) h = cc

  pub split-cons :
      (c : ℕ) (s : Str)
      → split sep (c ∷ s) ≡ (if c == sep then [] ∷ split sep s else push c (split sep s))
  unfolding split
  split-cons c s = refl

  pub split-ne-nil : (s : Str) → split sep s ≢ []
  split-ne-nil [] = unfold split in cons-ne-nil [] []
  split-ne-nil (c ∷ s) =
      rw split-cons (ground (arith, push-ne-nil c (split sep s), cons-ne-nil [] (split sep s)))

  join-push : (c : ℕ) (ps : List Str) → ps ≢ [] → join sep (push c ps) ≡ c ∷ join sep ps
  unfolding join push
  join-push c [] h = absurd (h refl)
  join-push c (p ∷ []) h = refl
  join-push c (p ∷ q ∷ ps) h = refl

  join-nil-cons : (ps : List Str) → ps ≢ [] → join sep ([] ∷ ps) ≡ sep ∷ join sep ps
  unfolding join
  join-nil-cons [] h = absurd (h refl)
  join-nil-cons (p ∷ ps) h = refl

  -- Joining the parts of a split gives the text back.
  pub join-split : (s : Str) → join sep (split sep s) ≡ s
  join-split [] = unfold split join in refl
  join-split (c ∷ s) = ground (
    arith,
    split-cons c s,
    join-split s,
    join-push c (split sep s) (split-ne-nil s),
    join-nil-cons (split sep s) (split-ne-nil s),
  )

  push-append : (c : ℕ) (ps qs : List Str) → ps ≢ [] → push c (ps ++ qs) ≡ push c ps ++ qs
  unfolding push
  push-append c [] qs h = absurd (h refl)
  push-append c (p ∷ ps) qs h = refl

  pub join-append :
      (ps qs : List Str)
      → ps ≢ []
      → qs ≢ []
      → join sep (ps ++ qs) ≡ join sep ps ++ (sep ∷ join sep qs)
  unfolding join
  join-append [] qs h k = absurd (h refl)
  join-append (p ∷ []) [] h k = absurd (k refl)
  join-append (p ∷ []) (q ∷ qs) h k = refl
  join-append (p ∷ r ∷ ps) qs h k = rw (join-append (r ∷ ps) qs (cc) k, append_assoc)

  split-Lacks_go : (p : Str) → Lacks sep p → split sep p ≡ p ∷ []
  unfolding split push
  split-Lacks_go [] h = refl
  split-Lacks_go (c ∷ p) h = rw (split-Lacks_go p h.1) (ground arith)

  pub split-append_sep : (p s : Str) → Lacks sep p → split sep (p ++ (sep ∷ s)) ≡ p ∷ split sep s
  unfolding split push
  split-append_sep [] s h = ground arith
  split-append_sep (c ∷ p) s h = rw (split-append_sep p s h.1) (ground arith)

  pub split-append : (s t : Str) → split sep (s ++ (sep ∷ t)) ≡ split sep s ++ split sep t
  split-append [] t = unfold split in ground arith
  split-append (c ∷ s) t = ground (
    arith,
    split-cons c s,
    split-cons c (s ++ (sep ∷ t)),
    split-append s t,
    push-append c (split sep s) (split sep t) (split-ne-nil s),
  )

  -- Splitting joined parts gives them back, if none holds the separator.
  pub split-join : (ps : List Str) → ps ≢ [] → All (Lacks sep) ps → split sep (join sep ps) ≡ ps
  unfolding join
  split-join [] h l = absurd (h refl)
  split-join (p ∷ []) h l = split-Lacks_go p l.0
  split-join (p ∷ q ∷ ps) h l = rw (split-append_sep p _ l.0, split-join (q ∷ ps) (cc) l.1)

  push-Lacks : (c : ℕ) (ps : List Str) → c ≢ sep → All (Lacks sep) ps → All (Lacks sep) (push c ps)
  unfolding push
  push-Lacks c [] h l = ((h, tt), tt)
  push-Lacks c (p ∷ ps) h l = ((h, l.0), l.1)

  -- The parts do not hold the separator.
  pub split-Lacks : (s : Str) → All (Lacks sep) (split sep s)
  unfolding split
  split-Lacks [] = (tt, tt)
  split-Lacks (c ∷ s) = ground (arith, split-Lacks s, push-Lacks c (split sep s))

  -- A joined part may be taken apart in place.
  pub join_nested :
      (ps qs rs : List Str)
      → qs ≢ []
      → join sep (ps ++ (join sep qs ∷ rs)) ≡ join sep (ps ++ (qs ++ rs))
  join_nested [] qs [] h = unfold join in ap (join sep) (sym (append-nil qs))
  join_nested [] qs (r ∷ rs) h =
      join-cons (join sep qs) (r ∷ rs) (cons-ne-nil r rs)
      ∙ sym (join-append qs (r ∷ rs) h (cons-ne-nil r rs))
  join_nested (p ∷ ps) qs rs h =
      join-cons p (ps ++ (join sep qs ∷ rs))
        (append-ne-nil ps (join sep qs ∷ rs) (cons-ne-nil (join sep qs) rs))
      ∙ (ap (λ t. p ++ (sep ∷ t)) (join_nested ps qs rs h)
          ∙ sym
              (join-cons p (ps ++ (qs ++ rs)) (append-ne-nil ps (qs ++ rs) (left-ne-nil qs rs h))))

module _ {ℓ} (P : ℕ → Type ℓ) (sep : ℕ) where
  push-All : (c : ℕ) (ps : List Str) → P c → All (All P) ps → All (All P) (push c ps)
  unfolding push
  push-All c [] h k = ((h, tt), tt)
  push-All c (p ∷ ps) h k = ((h, k.0), k.1)

  -- The parts are made of the characters of the text.
  pub split-All : (s : Str) → All P s → All (All P) (split sep s)
  split-All [] h = unfold split in (tt, tt)
  split-All (c ∷ s) h =
      subst (All (All P)) (sym (split-cons sep c s)) (both (c == sep) (split-All s h.1))
    where
      both :
          (b : Bool)
          → All (All P) (split sep s)
          → All (All P) (if b then [] ∷ split sep s else push c (split sep s))
      both true k = (tt, k)
      both false k = push-All c (split sep s) h.0 k
