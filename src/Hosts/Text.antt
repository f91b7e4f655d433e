-- ===== src/Hosts/Text.antt =====
-- Lines of a text that is trimmed or extended, and which of them are markers.
use mathlib.Core.List.{cons-ne-nil}
use caddy_dev_local.Base.{
  ℕ, ◌≡◌, ◌≢◌, refl, sym, ap, ◌∙◌, true, List, [], ◌∷◌, ◌++◌, append_assoc, append-nil, arith, All,
  inl, inr, Bool-cases, All-append_left, nat_eq, list_eq, nat_dec,
}
use caddy_dev_local.Str.{Str, newline, split, push, trim_left, trim_right, trim_space, is_space}
use mathlib.Core.Path.{subst}
use caddy_dev_local.Str.Lines.{split-cons, split-ne-nil, split-append}
use caddy_dev_local.Str.Trim.{trim_right-append_dropped, trim_right-decompose, trim_space_kept}
use caddy_dev_local.Hosts.{plain, mark, is_newline, is_line_end}

abbrev pub IsPlain : Str → Type 0
IsPlain l = mark l ≡ plain

-- The last line grows by a text without a newline.
extend_last : Str → List Str → List Str
extend_last u [] = u ∷ []
extend_last u (p ∷ []) = (p ++ u) ∷ []
extend_last u (p ∷ q ∷ ps) = p ∷ extend_last u (q ∷ ps)

extend_last-push :
    (u : Str) (c : ℕ) (ps : List Str)
    → ps ≢ []
    → extend_last u (push c ps) ≡ push c (extend_last u ps)
unfolding extend_last push
extend_last-push u c [] h = absurd (h refl)
extend_last-push u c (p ∷ []) h = refl
extend_last-push u c (p ∷ q ∷ ps) h = refl

extend_last-cons :
    (u p : Str) (ps : List Str) → ps ≢ [] → extend_last u (p ∷ ps) ≡ p ∷ extend_last u ps
unfolding extend_last
extend_last-cons u p [] h = absurd (h refl)
extend_last-cons u p (q ∷ ps) h = refl

split_char : (c : ℕ) → c ≢ newline → split newline (c ∷ []) ≡ (c ∷ []) ∷ []
unfolding split push
split_char c h = ground arith

split_snoc :
    (s : Str) (c : ℕ)
    → c ≢ newline
    → split newline (s ++ c ∷ []) ≡ extend_last (c ∷ []) (split newline s)
split_snoc [] c h = split_char c h ∙ unfold split extend_last in refl
split_snoc (d ∷ s) c h = ground (
  arith,
  split-cons newline d s,
  split-cons newline d (s ++ c ∷ []),
  split_snoc s c h,
  extend_last-push (c ∷ []) d (split newline s) (split-ne-nil newline s),
  extend_last-cons (c ∷ []) [] (split newline s) (split-ne-nil newline s),
)

trim_left-append :
    (s t : Str)
    → trim_left is_space s ≢ []
    → trim_left is_space (s ++ t) ≡ trim_left is_space s ++ t
unfolding trim_left
trim_left-append [] t h = absurd (h refl)
trim_left-append (c ∷ s) t h = elim (Bool-cases (is_space c)) [
  | inl e ↦ rw e (trim_left-append s t (rw e at h))
  | inr e ↦ rw e
]

trim_left-append_nil :
    (s t : Str) → trim_left is_space s ≡ [] → trim_left is_space (s ++ t) ≡ trim_left is_space t
unfolding trim_left
trim_left-append_nil [] t h = refl
trim_left-append_nil (c ∷ s) t h = elim (Bool-cases (is_space c)) [
  | inl e ↦ rw e (trim_left-append_nil s t (rw e at h))
  | inr e ↦ absurd (cons-ne-nil c s (rw e at h))
]

-- White space behind a line does not change what it is taken for.
trim_space-snoc : (s : Str) (c : ℕ) → is_space c ≡ true → trim_space (s ++ c ∷ []) ≡ trim_space s
unfolding trim_space
trim_space-snoc s c h = go (trim_left is_space s) refl
  where
    go :
        (r : Str)
        → trim_left is_space s ≡ r
        → trim_right is_space (trim_left is_space (s ++ c ∷ []))
          ≡ trim_right is_space (trim_left is_space s)
    go [] e = rw (trim_left-append_nil s (c ∷ []) e, e) (unfold trim_left in rw h)
    go (d ∷ r) e =
        rw (trim_left-append s (c ∷ []) (λ n. cons-ne-nil d r (sym e ∙ n)))
          (trim_right-append_dropped is_space (trim_left is_space s) (c ∷ []) (h, tt))

mark-snoc : (s : Str) (c : ℕ) → is_space c ≡ true → mark (s ++ c ∷ []) ≡ mark s
unfolding mark
mark-snoc s c h = rw (trim_space-snoc s c h)

extend_last-IsPlain :
    (c : ℕ) (ps : List Str)
    → is_space c ≡ true
    → ps ≢ []
    → All IsPlain (extend_last (c ∷ []) ps)
    → All IsPlain ps
unfolding extend_last
extend_last-IsPlain c [] h n k = tt
extend_last-IsPlain c (p ∷ []) h n k = (sym (mark-snoc p c h) ∙ k.0, tt)
extend_last-IsPlain c (p ∷ q ∷ ps) h n k =
    (k.0, extend_last-IsPlain c (q ∷ ps) h (cons-ne-nil q ps) k.1)

is_space_of_eq : (c d : ℕ) → c ≡ d → is_space d ≡ true → is_space c ≡ true
is_space_of_eq c d e h = rw e h

line_end-IsSpace : (c : ℕ) → is_line_end c ≡ true → is_space c ≡ true
line_end-IsSpace c h = elim (nat_dec c newline) [
  | yes e ↦ is_space_of_eq c newline e (unfold is_space in refl)
  | no n ↦ is_space_of_eq c 13 (ground arith) (unfold is_space in refl)
]

split_snoc-IsPlain :
    (s : Str) (c : ℕ)
    → is_line_end c ≡ true
    → All IsPlain (split newline (s ++ c ∷ []))
    → All IsPlain (split newline s)
split_snoc-IsPlain s c h k = elim (nat_dec c newline) [
  | yes e ↦
      All-append_left IsPlain (split newline s) (split newline []) (
        subst (All IsPlain) (ap (λ d. split newline (s ++ d ∷ [])) e ∙ split-append newline s []) k)
  | no n ↦
      extend_last-IsPlain c (split newline s) (line_end-IsSpace c h) (split-ne-nil newline s)
        (subst (All IsPlain) (split_snoc s c n) k)
]

-- A text whose lines are no markers still has none when its last line ends are cut off.
pub split-IsPlain :
    (s t : Str)
    → All (λ c. is_line_end c ≡ true) t
    → All IsPlain (split newline (s ++ t))
    → All IsPlain (split newline s)
split-IsPlain s [] h k = subst (λ u. All IsPlain (split newline u)) (append-nil s) k
split-IsPlain s (c ∷ t) h k = split_snoc-IsPlain s c h.0 (
    split-IsPlain (s ++ c ∷ []) t h.1
      (subst (λ u. All IsPlain (split newline u)) (sym (append_assoc s (c ∷ []) t)) k))

pub trim_right-IsPlain :
    (s : Str)
    → All IsPlain (split newline s)
    → All IsPlain (split newline (trim_right is_line_end s))
trim_right-IsPlain s k =
    let (t, e, h) = trim_right-decompose is_line_end s in
    split-IsPlain (trim_right is_line_end s) t h (subst (λ u. All IsPlain (split newline u)) e k)

newline-IsLineEnd : (t : Str) → All (λ c. is_newline c ≡ true) t → All (λ c. is_line_end c ≡ true) t
newline-IsLineEnd [] h = tt
newline-IsLineEnd (c ∷ t) h = (rw h.0, newline-IsLineEnd t h.1)

pub trim_newlines-IsPlain :
    (s : Str)
    → All IsPlain (split newline s)
    → All IsPlain (split newline (trim_right is_newline s))
trim_newlines-IsPlain s k =
    let (t, e, h) = trim_right-decompose is_newline s in
    split-IsPlain (trim_right is_newline s) t (newline-IsLineEnd t h)
      (subst (λ u. All IsPlain (split newline u)) e k)

-- A line that begins with a digit is no marker.
pub address-IsPlain : (name : Str) → IsPlain (b'1' ∷ name)
unfolding mark
address-IsPlain name = rw (trim_space_kept b'1' name (unfold is_space in refl)) (ground arith)
