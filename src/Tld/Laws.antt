-- ===== src/Tld/Laws.antt =====
-- The `.localhost` alias of a TLD.
use caddy_dev_local.Base.{
  ◌≡◌, refl, sym, ap, ◌∙◌, true, [], ◌∷◌, ◌++◌, ==_refl, list_eq, nat_eq, ◌||◌, arith, Bool-cases,
  inl, inr, ◌⊎◌,
}
use caddy_dev_local.Str.{Str, split, equal_fold, to_lower, lower, has_suffix}
use caddy_dev_local.Tld.{localhost_name, localhost_suffix, first_part, tld_localhost}

lower-append : (s t : Str) → to_lower (s ++ t) ≡ to_lower s ++ to_lower t
unfolding to_lower
lower-append [] t = refl
lower-append (c ∷ s) t = ap (◌∷◌ (lower c)) (lower-append s t)

lower-suffix : to_lower localhost_suffix ≡ localhost_suffix
unfolding to_lower lower
lower-suffix = refl

has_suffix-append : (s t : Str) → has_suffix (s ++ t) t ≡ true
unfolding has_suffix
has_suffix-append [] [] = ground arith
has_suffix-append [] (c ∷ t) = ground (arith, ==_refl (c ∷ t))
has_suffix-append (c ∷ s) t = ground (arith, has_suffix-append s t)

suffixed_alias : (s : Str) → tld_localhost (s ++ localhost_suffix) ≡ s ++ localhost_suffix
unfolding tld_localhost
suffixed_alias s = ground (
  arith,
  ap (λ l. has_suffix l localhost_suffix)
        (lower-append s localhost_suffix ∙ ap (λ l. to_lower s ++ l) lower-suffix)
      ∙ has_suffix-append (to_lower s) localhost_suffix,
)

pub tld_localhost_cases :
    (tld : Str)
    → (tld_localhost tld ≡ tld)
      ⊎ (tld_localhost tld ≡ first_part (split b'.' tld) ++ localhost_suffix)
unfolding tld_localhost
tld_localhost_cases tld =
    elim (Bool-cases
      (equal_fold tld localhost_name || has_suffix (to_lower tld) localhost_suffix)) [
        | inl e ↦ inl (rw e)
        | inr e ↦ inr (rw e)
      ]

-- The alias of an alias is itself.
pub tld_localhost_idem : (tld : Str) → tld_localhost (tld_localhost tld) ≡ tld_localhost tld
tld_localhost_idem tld = by_cases (tld_localhost_cases tld)
  where
    by_cases :
        (tld_localhost tld ≡ tld)
          ⊎ (tld_localhost tld ≡ first_part (split b'.' tld) ++ localhost_suffix)
        → tld_localhost (tld_localhost tld) ≡ tld_localhost tld
    by_cases (inl e) = ap tld_localhost e
    by_cases (inr e) = ap tld_localhost e ∙ (suffixed_alias (first_part (split b'.' tld)) ∙ sym e)
