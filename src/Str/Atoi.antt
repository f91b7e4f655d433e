-- ===== src/Str/Atoi.antt =====
-- `strconv.Atoi`, into 64-bit numbers, and the order of its results.
use caddy_dev_local.Base.{
  ℕ, suc, zero, Bool, true, false, Option, none, some, [], ◌∷◌, ◌==◌, nat_eq, nat_dec, ◌&&◌, ltb,
  leb, if◌then◌else◌,
}
use caddy_dev_local.Base.Int.{ℤ, pos, negsuc}
use caddy_dev_local.Str.{Str, is_digit, decimal_value}

unfoldable pub all_digits : Str → Bool
unfolding is_digit
all_digits [] = true
all_digits (c ∷ s) = is_digit c && all_digits s

-- The digits of a number, at least one.
unfoldable pub unsigned : Str → Option ℕ
unfolding all_digits decimal_value
unsigned [] = none
unsigned (c ∷ s) = if all_digits (c ∷ s) then some (decimal_value 0 (c ∷ s)) else none

abbrev pub int_limit : ℕ
int_limit = 0x8000000000000000

unfoldable pub nonnegative : Option ℕ → Option ℤ
nonnegative none = none
nonnegative (some n) = if ltb n int_limit then some (pos n) else none

unfoldable pub negative : ℕ → ℤ
negative zero = pos 0
negative (suc n) = negsuc n

unfoldable pub negated : Option ℕ → Option ℤ
unfolding negative
negated none = none
negated (some n) = if ltb int_limit n then none else some (negative n)

-- Both errors, of syntax and of range, are `none`.
unfoldable pub atoi : Str → Option ℤ
unfolding unsigned nonnegative negated nat_dec
atoi [] = none
atoi (c ∷ s) =
    if c == b'-'
    then negated (unsigned s)
    else if c == b'+'
    then nonnegative (unsigned s)
    else nonnegative (unsigned (c ∷ s))

-- `a <= b`
unfoldable pub int_le : ℤ → ℤ → Bool
int_le (pos a) (pos b) = leb a b
int_le (pos a) (negsuc b) = false
int_le (negsuc a) (pos b) = true
int_le (negsuc a) (negsuc b) = leb b a
