-- ===== src/Str/Cuts.antt =====
-- `strings.Index` and `strings.LastIndex` for one character, with the slices that are taken at them.
use caddy_dev_local.Base.{
  ℕ, ◌≡◌, ◌≢◌, refl, true, false, [], ◌∷◌, ◌++◌, ◌==◌, nat_eq, nat_dec, if◌then◌else◌, contains,
  arith,
}
use caddy_dev_local.Base.Distinct.{contains-append}
use caddy_dev_local.Str.{Str}

-- `if i := strings.Index(s, sep); i >= 0 { s = s[:i] }`
unfoldable pub before_first : ℕ → Str → Str
unfolding nat_dec
before_first sep [] = []
before_first sep (c ∷ s) = if c == sep then [] else c ∷ before_first sep s

-- `if i := strings.LastIndex(s, sep); i >= 0 { s = s[:i] }`
unfoldable pub before_last : ℕ → Str → Str
unfolding nat_dec
before_last sep [] = []
before_last sep (c ∷ s) =
    let rest = before_last sep s in
    if contains s sep then c ∷ rest else if c == sep then [] else c ∷ s

-- `if i := strings.LastIndex(s, sep); i >= 0 { s = s[i+1:] }`
unfoldable pub after_last : ℕ → Str → Str
unfolding nat_dec
after_last sep [] = []
after_last sep (c ∷ s) =
    let rest = after_last sep s in if contains s sep then rest else if c == sep then s else c ∷ s

pub before_first_lacking : (sep : ℕ) (s : Str) → contains s sep ≡ false → before_first sep s ≡ s
unfolding before_first
before_first_lacking sep [] h = refl
before_first_lacking sep (c ∷ s) h = ground (arith, before_first_lacking sep s)

pub before_first-append :
    (sep : ℕ) (p q : Str) → contains p sep ≡ false → before_first sep (p ++ (sep ∷ q)) ≡ p
unfolding before_first
before_first-append sep [] q h = ground arith
before_first-append sep (c ∷ p) q h = ground (arith, before_first-append sep p q)

pub before_last_lacking : (sep : ℕ) (s : Str) → contains s sep ≡ false → before_last sep s ≡ s
unfolding before_last
before_last_lacking sep [] h = refl
before_last_lacking sep (c ∷ s) h = ground arith

pub before_last-append :
    (sep : ℕ) (p q : Str) → contains q sep ≡ false → before_last sep (p ++ (sep ∷ q)) ≡ p
unfolding before_last
before_last-append sep [] q h = ground arith
before_last-append sep (c ∷ p) q h =
    ground (arith, before_last-append sep p q h, contains-append sep p (sep ∷ q))

pub after_last_lacking : (sep : ℕ) (s : Str) → contains s sep ≡ false → after_last sep s ≡ s
unfolding after_last
after_last_lacking sep [] h = refl
after_last_lacking sep (c ∷ s) h = ground arith

pub after_last-append :
    (sep : ℕ) (p q : Str) → contains q sep ≡ false → after_last sep (p ++ (sep ∷ q)) ≡ q
unfolding after_last
after_last-append sep [] q h = ground arith
after_last-append sep (c ∷ p) q h =
    ground (arith, after_last-append sep p q h, contains-append sep p (sep ∷ q))

-- What stands behind the last separator grows with the text.
pub after_last-append_lacking :
    (sep : ℕ) (s t : Str) → contains t sep ≡ false → after_last sep (s ++ t) ≡ after_last sep s ++ t
unfolding after_last
after_last-append_lacking sep [] t h = after_last_lacking sep t h
after_last-append_lacking sep (c ∷ s) t h =
    ground (arith, after_last-append_lacking sep s t h, contains-append sep s t)

pub contains-after_last :
    (sep : ℕ) (s : Str) (a : ℕ) → contains s a ≡ false → contains (after_last sep s) a ≡ false
unfolding after_last
contains-after_last sep [] a h = refl
contains-after_last sep (c ∷ s) a h = ground (arith, contains-after_last sep s a)

-- Of two separators that both stand in a text, one is the last.
pub after_last_order :
    (a b : ℕ) (s : Str)
    → a ≢ b
    → contains (after_last a s) b ≡ false
    → contains s b ≡ true
    → contains (after_last b s) a ≡ true
unfolding after_last
after_last_order a b [] n h k = cc
after_last_order a b (c ∷ s) n h k = ground (arith, after_last_order a b s n)
