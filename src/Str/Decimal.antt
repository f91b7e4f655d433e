-- ===== src/Str/Decimal.antt =====
-- Printing and reading port numbers.
use caddy_dev_local.Base.{
  ℕ, zero, suc, ◌+◌, ◌/◌, ◌%◌, ◌≤◌, ◌<◌, ◌≡◌, ◌≢◌, refl, ap, ◌∙◌, true, false, [], ◌∷◌, ◌++◌, arith,
  All, some,
}
use caddy_dev_local.Str.{
  Str, digits, format_uint, is_digit, digit_prefix, decimal_value, in_uint16, scan_uint16,
}

digits_value :
    (fuel n : ℕ) (acc : Str) → n < fuel → decimal_value 0 (digits fuel n acc) ≡ decimal_value n acc
unfolding digits decimal_value
digits_value zero n acc h = elim h [ ]
digits_value (suc fuel) n acc h = ground (arith, digits_value fuel (n / 10) ((b'0' + n % 10) ∷ acc))

digits-All :
    (fuel n : ℕ) (acc : Str)
    → All (λ c. is_digit c ≡ true) acc
    → All (λ c. is_digit c ≡ true) (digits fuel n acc)
unfolding digits is_digit
digits-All zero n acc h = h
digits-All (suc fuel) n acc h = ground (arith, digits-All fuel (n / 10) ((b'0' + n % 10) ∷ acc))

pub digits-ne-nil : (fuel n : ℕ) (acc : Str) → n < fuel → digits fuel n acc ≢ []
unfolding digits
digits-ne-nil zero n acc h = elim h [ ]
digits-ne-nil (suc fuel) n acc h =
    ground (arith, digits-ne-nil fuel (n / 10) ((b'0' + n % 10) ∷ acc))

-- A printed number has digits only.
pub format_uint-All : (n : ℕ) → All (λ c. is_digit c ≡ true) (format_uint n)
unfolding format_uint
format_uint-All n = digits-All (suc n) n [] tt

digit_prefix-append :
    (s : Str) (c : ℕ) (rest : Str)
    → All (λ d. is_digit d ≡ true) s
    → is_digit c ≡ false
    → digit_prefix (s ++ (c ∷ rest)) ≡ s
unfolding digit_prefix
digit_prefix-append [] c rest h k = ground arith
digit_prefix-append (d ∷ s) c rest h k = rw (h.0, digit_prefix-append s c rest h.1 k)

digit_prefix-All : (s : Str) → All (λ d. is_digit d ≡ true) s → digit_prefix s ≡ s
unfolding digit_prefix
digit_prefix-All [] h = refl
digit_prefix-All (d ∷ s) h = rw (h.0, digit_prefix-All s h.1)

in_uint16_fits :
    (s : Str) → s ≢ [] → decimal_value 0 s ≤ 65535 → in_uint16 s ≡ some (decimal_value 0 s)
unfolding in_uint16
in_uint16_fits [] h k = absurd (h refl)
in_uint16_fits (c ∷ s) h k = ground arith

pub decimal_value-format_uint : (n : ℕ) → decimal_value 0 (format_uint n) ≡ n
unfolding format_uint
decimal_value-format_uint n = digits_value (suc n) n [] (omega arith) ∙ unfold decimal_value in refl

pub format_uint-ne-nil : (n : ℕ) → format_uint n ≢ []
unfolding format_uint
format_uint-ne-nil n = digits-ne-nil (suc n) n [] (omega arith)

-- A printed port number is read back.
pub scan_uint16-format_uint : (n : ℕ) → n ≤ 65535 → scan_uint16 (format_uint n) ≡ some n
unfolding scan_uint16
scan_uint16-format_uint n h = rw (digit_prefix-All (format_uint n) (format_uint-All n)) (
    in_uint16_fits (format_uint n) (format_uint-ne-nil n) (rw (decimal_value-format_uint n) h)
    ∙ ap some (decimal_value-format_uint n))

-- Only a 16-bit number is read.
pub scan_uint16-le : (s : Str) (n : ℕ) → scan_uint16 s ≡ some n → n ≤ 65535
unfolding scan_uint16
scan_uint16-le s n h = go (digit_prefix s) h
  where
    go : (t : Str) → in_uint16 t ≡ some n → n ≤ 65535
    go [] e = cc
    go (c ∷ t) e = ground arith
