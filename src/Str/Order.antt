-- ===== src/Str/Order.antt =====
-- The order of strings is linear.
use caddy_dev_local.Base.{ℕ, ◌≡◌, refl, true, false, [], ◌∷◌, arith, leb}
use caddy_dev_local.Base.Sort.{IsLinear}
use caddy_dev_local.Str.{Str, str_le}

str_le_total : (a b : Str) → str_le a b ≡ false → str_le b a ≡ true
unfolding str_le
str_le_total [] b h = cc
str_le_total (x ∷ a) [] h = refl
str_le_total (x ∷ a) (y ∷ b) h = ground (arith, str_le_total a b)

str_le_trans : (a b c : Str) → str_le a b ≡ true → str_le b c ≡ true → str_le a c ≡ true
unfolding str_le
str_le_trans [] b c h k = refl
str_le_trans (x ∷ a) [] c h k = cc
str_le_trans (x ∷ a) (y ∷ b) [] h k = cc
str_le_trans (x ∷ a) (y ∷ b) (z ∷ c) h k = ground (arith, str_le_trans a b c)

str_le_antisym : (a b : Str) → str_le a b ≡ true → str_le b a ≡ true → a ≡ b
unfolding str_le
str_le_antisym [] [] h k = refl
str_le_antisym [] (y ∷ b) h k = cc
str_le_antisym (x ∷ a) [] h k = cc
str_le_antisym (x ∷ a) (y ∷ b) h k = ground (arith, str_le_antisym a b)

pub str_le-IsLinear : IsLinear str_le
str_le-IsLinear = record { total = str_le_total; trans = str_le_trans; antisym = str_le_antisym }

nat_le_total : (a b : ℕ) → leb a b ≡ false → leb b a ≡ true
nat_le_total a b h = ground arith

nat_le_trans : (a b c : ℕ) → leb a b ≡ true → leb b c ≡ true → leb a c ≡ true
nat_le_trans a b c h k = ground arith

nat_le_antisym : (a b : ℕ) → leb a b ≡ true → leb b a ≡ true → a ≡ b
nat_le_antisym a b h k = ground arith

-- The order of port numbers.
pub nat_le-IsLinear : IsLinear leb
nat_le-IsLinear = record { total = nat_le_total; trans = nat_le_trans; antisym = nat_le_antisym }
