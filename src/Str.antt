-- ===== src/Str.antt =====
-- Go strings, and what the program uses of `strings`, `slices` on strings, `fmt` and `strconv`.
-- A string is the list of its code points. A byte that is part of no UTF-8 character stands for
-- itself, as a number beyond the code points, so no byte of a file is lost. Comparing code points
-- orders UTF-8 strings as comparing their bytes does.
pub mod Order
pub mod Lines
pub mod Trim
pub mod Decimal
pub mod Atoi
pub mod Cuts
use Prim.Native.Char.{code}
use Prim.Native.String.{String}
use caddy_dev_local.Base.{
  ℕ, zero, suc, ◌+◌, ◌-◌, ◌*◌, ◌/◌, ◌%◌, Bool, true, false, ◌&&◌, ◌||◌, Option, none, some, List,
  [], ◌∷◌, ◌++◌, ltb, leb, if◌then◌else◌, ◌==◌, nat_eq, list_eq, nat_dec, list_dec, All, ◌≢◌, map,
}

abbrev pub Str : Type 0
Str = List ℕ

abbrev pub codes : String → Str
codes String.[] = []
codes (String.◌∷◌ c s) = code c ∷ codes s

abbrev pub newline : ℕ
newline = 10

abbrev pub Lacks : ℕ → Str → Type 0
Lacks b = All (λ c. c ≢ b)

-- `unicode.IsSpace`
unfoldable pub is_space : ℕ → Bool
is_space c =
    (leb 9 c && leb c 13)
    || ltb c 33 && ltb 31 c
    || ltb c 0x86 && ltb 0x84 c
    || ltb c 0xA1 && ltb 0x9F c
    || ltb c 0x1681 && ltb 0x167F c
    || leb 0x2000 c && leb c 0x200A
    || leb 0x2028 c && leb c 0x2029
    || ltb c 0x2030 && ltb 0x202E c
    || ltb c 0x2060 && ltb 0x205E c
    || ltb c 0x3001 && ltb 0x2FFF c

module _ (drops : ℕ → Bool) where
  unfoldable pub trim_left : Str → Str
  trim_left [] = []
  trim_left (c ∷ s) = if drops c then trim_left s else c ∷ s

  -- A character goes if it is dropped and nothing behind it was kept.
  unfoldable pub keep_before : ℕ → Str → Str
  keep_before c [] = if drops c then [] else c ∷ []
  keep_before c (d ∷ s) = c ∷ d ∷ s

  -- `strings.TrimRight`
  unfoldable pub trim_right : Str → Str
  unfolding keep_before
  trim_right [] = []
  trim_right (c ∷ s) = keep_before c (trim_right s)

-- `strings.TrimSpace`
unfoldable pub trim_space : Str → Str
unfolding trim_left trim_right is_space
trim_space s = trim_right is_space (trim_left is_space s)

unfoldable pub push : ℕ → List Str → List Str
push c [] = (c ∷ []) ∷ []
push c (p ∷ ps) = (c ∷ p) ∷ ps

-- `strings.Split(s, sep)` for a separator of one character
unfoldable pub split : ℕ → Str → List Str
unfolding push nat_dec
split sep [] = [] ∷ []
split sep (c ∷ s) = if c == sep then [] ∷ split sep s else push c (split sep s)

-- `strings.Join(parts, sep)` for a separator of one character
unfoldable pub join : ℕ → List Str → Str
join sep [] = []
join sep (p ∷ []) = p
join sep (p ∷ q ∷ ps) = p ++ (sep ∷ join sep (q ∷ ps))

unfoldable pub prepend : ℕ → Option (Str × Str) → Option (Str × Str)
prepend c none = none
prepend c (some (p, q)) = some (c ∷ p, q)

-- `strings.SplitN(s, sep, 2)`: two parts, or one if the separator is missing
unfoldable pub split_two : ℕ → Str → Option (Str × Str)
unfolding prepend nat_dec
split_two sep [] = none
split_two sep (c ∷ s) = if c == sep then some ([], s) else prepend c (split_two sep s)

-- `strings.HasPrefix(s, prefix)`
unfoldable pub has_prefix : Str → Str → Bool
unfolding nat_dec
has_prefix s [] = true
has_prefix [] (p ∷ ps) = false
has_prefix (c ∷ s) (p ∷ ps) = c == p && has_prefix s ps

-- `strings.HasSuffix(s, suffix)`
unfoldable pub has_suffix : Str → Str → Bool
unfolding nat_dec list_dec
has_suffix [] t = [] == t
has_suffix (c ∷ s) t = (c ∷ s) == t || has_suffix s t

-- `unicode.ToLower` on ASCII, and on the only two other letters whose lower case is ASCII. The
-- program compares lower-case text with ASCII constants only.
unfoldable pub lower : ℕ → ℕ
lower c =
    if leb b'A' c && leb c b'Z'
    then c + 32
    else if ltb c 0x131 && ltb 0x12F c
    then b'i'
    else if ltb c 0x212B && ltb 0x2129 c
    then b'k'
    else c

-- `strings.ToLower`
unfoldable pub to_lower : Str → Str
unfolding lower
to_lower = map lower

-- Simple case folding on the letters that fold to ASCII.
unfoldable pub fold : ℕ → ℕ
fold c =
    if leb b'A' c && leb c b'Z'
    then c + 32
    else if ltb c 0x180 && ltb 0x17E c
    then b's'
    else if ltb c 0x212B && ltb 0x2129 c
    then b'k'
    else c

-- `strings.EqualFold(s, t)`, where `t` is ASCII
unfoldable pub equal_fold : Str → Str → Bool
unfolding fold list_dec nat_dec
equal_fold s t = map fold s == map fold t

-- `a <= b` on strings
unfoldable pub str_le : Str → Str → Bool
str_le [] t = true
str_le (x ∷ s) [] = false
str_le (x ∷ s) (y ∷ t) = if ltb x y then true else if ltb y x then false else str_le s t

-- The decimal digits of `n` in front of `acc`; fuel above `n` is enough.
unfoldable pub digits : ℕ → ℕ → Str → Str
digits zero n acc = acc
digits (suc fuel) n acc =
    let rest = digits fuel (n / 10) ((b'0' + n % 10) ∷ acc) in
    if ltb n 10 then (b'0' + n) ∷ acc else rest

-- `%d` and `strconv.FormatUint(n, 10)`
unfoldable pub format_uint : ℕ → Str
unfolding digits
format_uint n = digits (suc n) n []

unfoldable pub is_digit : ℕ → Bool
is_digit c = leb b'0' c && leb c b'9'

-- The digits that a text begins with.
unfoldable pub digit_prefix : Str → Str
unfolding is_digit
digit_prefix [] = []
digit_prefix (c ∷ s) = if is_digit c then c ∷ digit_prefix s else []

unfoldable pub decimal_value : ℕ → Str → ℕ
decimal_value n [] = n
decimal_value n (c ∷ s) = decimal_value (n * 10 + (c - b'0')) s

unfoldable pub in_uint16 : Str → Option ℕ
unfolding decimal_value
in_uint16 [] = none
in_uint16 (c ∷ s) =
    if ltb 65535 (decimal_value 0 (c ∷ s)) then none else some (decimal_value 0 (c ∷ s))

-- `fmt.Sscanf(s, "%d", &n)` into a `uint16`, for a text that does not begin with white space: the
-- leading digits are read, what follows is not looked at, and a value that does not fit is an error.
unfoldable pub scan_uint16 : Str → Option ℕ
unfolding in_uint16 digit_prefix
scan_uint16 s = in_uint16 (digit_prefix s)
