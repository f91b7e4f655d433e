-- ===== src/Generator/Custom/RoundTrip.antt =====
-- The label of custom domains: what is printed is read back.
use mathlib.Core.Path.{subst}
use mathlib.Core.List.{cons-ne-nil}
use caddy_dev_local.Base.{
  ℕ, ◌≡◌, ◌≢◌, refl, sym, ap, ◌∙◌, true, false, some, List, [], ◌∷◌, ◌++◌, nat_eq, arith, All,
  All-append,
}
use caddy_dev_local.Str.{
  Str, Lacks, is_space, is_digit, trim_left, trim_right, trim_space, keep_before, split, split_two,
  prepend, join, format_uint, scan_uint16,
}
use caddy_dev_local.Str.Lines.{split-join, append-ne-nil}
use caddy_dev_local.Str.Trim.{
  trim_right_idem, trim_right-append_kept, keep_before_kept, trim_space_kept,
}
use caddy_dev_local.Str.Decimal.{format_uint-All, format_uint-ne-nil, scan_uint16-format_uint}
use caddy_dev_local.Generator.{CustomDomain}
use caddy_dev_local.Generator.Custom.{
  with_domain, with_port, parse_parts, parse_entry, append_entry, parse_entries, parse_label,
}
use caddy_dev_local.Generator.Custom.Laws.{IsUsable}

-- An entry of the label for a custom domain.
abbrev pub print_entry : CustomDomain → Str
print_entry cd = format_uint cd.port ++ (b':' ∷ cd.domain)

abbrev pub print_entries : List CustomDomain → List Str
print_entries [] = []
print_entries (cd ∷ cds) = print_entry cd ∷ print_entries cds

-- A custom domain that an entry can hold.
pub record IsPrintable (cd : CustomDomain) : Type 0 where
  pub usable : IsUsable cd
  pub no_separator : Lacks b';' cd.domain
  pub is_trimmed : trim_space cd.domain ≡ cd.domain

split_two-append :
    (sep : ℕ) (p s : Str) → Lacks sep p → split_two sep (p ++ (sep ∷ s)) ≡ some (p, s)
unfolding split_two prepend
split_two-append sep [] s h = ground arith
split_two-append sep (c ∷ p) s h = rw (split_two-append sep p s h.1) (ground (arith, h.0))

digits-Lacks :
    (sep : ℕ) (p : Str) → is_digit sep ≡ false → All (λ c. is_digit c ≡ true) p → Lacks sep p
digits-Lacks sep [] h k = tt
digits-Lacks sep (c ∷ p) h k = (ground (arith, h, k.0), digits-Lacks sep p h k.1)

trim_right_of_trimmed : (s : Str) → trim_space s ≡ s → trim_right is_space s ≡ s
unfolding trim_space
trim_right_of_trimmed s h =
    ap (trim_right is_space) (sym h) ∙ (trim_right_idem is_space (trim_left is_space s) ∙ h)

colon-kept : (s : Str) → trim_right is_space s ≡ s → trim_right is_space (b':' ∷ s) ≡ b':' ∷ s
unfolding trim_right is_space
colon-kept s h = ap (keep_before is_space b':') h ∙ keep_before_kept is_space b':' s (ground arith)

digit-ne-space : (c : ℕ) → is_digit c ≡ true → is_space c ≡ false
unfolding is_digit is_space
digit-ne-space c h = ground arith

trim_space_entry :
    (p s : Str)
    → p ≢ []
    → All (λ c. is_digit c ≡ true) p
    → trim_right is_space s ≡ s
    → trim_space (p ++ (b':' ∷ s)) ≡ p ++ (b':' ∷ s)
trim_space_entry [] s n h t = absurd (n refl)
trim_space_entry (c ∷ p) s n h t =
    trim_space_kept c (p ++ (b':' ∷ s)) (digit-ne-space c h.0)
    ∙ ap (◌∷◌ c) (
        trim_right-append_kept is_space p (b':' ∷ s)
          (subst (λ l. l ≢ []) (sym (colon-kept s t)) (cons-ne-nil b':' s))
        ∙ ap (λ l. p ++ l) (colon-kept s t))

with_port_usable :
    (cd : CustomDomain) (domain : Str)
    → IsUsable cd
    → domain ≡ cd.domain
    → with_port (some cd.port) domain ≡ some cd
unfolding with_port with_domain
with_port_usable cd [] h e = absurd (h.1.1 (sym e))
with_port_usable cd (c ∷ domain) h e = ground (arith, h.0, e)

parse_entry-cons : (s : Str) → s ≢ [] → parse_entry s ≡ parse_parts (split_two b':' s)
unfolding parse_entry
parse_entry-cons [] h = absurd (h refl)
parse_entry-cons (c ∷ s) h = refl

parse_parts-some :
    (port domain : Str)
    → parse_parts (some (port, domain)) ≡ with_port (scan_uint16 port) (trim_space domain)
unfolding parse_parts
parse_parts-some port domain = refl

module _ (cd : CustomDomain) (h : IsPrintable cd) where
  trim_space-print_entry : trim_space (print_entry cd) ≡ print_entry cd
  trim_space-print_entry =
      trim_space_entry (format_uint cd.port) cd.domain (format_uint-ne-nil cd.port)
        (format_uint-All cd.port) (trim_right_of_trimmed cd.domain h.is_trimmed)

  split_two-print_entry : split_two b':' (print_entry cd) ≡ some (format_uint cd.port, cd.domain)
  split_two-print_entry =
      split_two-append b':' (format_uint cd.port) cd.domain (
        digits-Lacks b':' (format_uint cd.port) (unfold is_digit in refl) (format_uint-All cd.port))

  parse_entry-print_entry : parse_entry (trim_space (print_entry cd)) ≡ some cd
  parse_entry-print_entry =
      ap parse_entry trim_space-print_entry
      ∙ (parse_entry-cons (print_entry cd)
            (append-ne-nil (format_uint cd.port) (b':' ∷ cd.domain) (cons-ne-nil b':' cd.domain))
          ∙ (ap parse_parts split_two-print_entry
              ∙ (parse_parts-some (format_uint cd.port) cd.domain
                  ∙ (ap (λ o. with_port o (trim_space cd.domain))
                        (scan_uint16-format_uint cd.port h.usable.1.0)
                      ∙ with_port_usable cd (trim_space cd.domain) h.usable h.is_trimmed))))

  print_entry-Lacks : Lacks b';' (print_entry cd)
  print_entry-Lacks =
      All-append (λ c. c ≢ b';') (format_uint cd.port) (b':' ∷ cd.domain)
        (digits-Lacks b';' (format_uint cd.port) (unfold is_digit in refl)
          (format_uint-All cd.port))
        (omega arith, h.no_separator)

parse_entries-print_entries :
    (cds : List CustomDomain)
    → All (λ cd. IsPrintable cd) cds
    → parse_entries (print_entries cds) ≡ cds
unfolding parse_entries append_entry
parse_entries-print_entries [] h = refl
parse_entries-print_entries (cd ∷ cds) h =
    rw (parse_entry-print_entry cd h.0, parse_entries-print_entries cds h.1) refl

print_entries-Lacks :
    (cds : List CustomDomain)
    → All (λ cd. IsPrintable cd) cds
    → All (Lacks b';') (print_entries cds)
print_entries-Lacks [] h = tt
print_entries-Lacks (cd ∷ cds) h = (print_entry-Lacks cd h.0, print_entries-Lacks cds h.1)

parse_label-eq : (label : Str) → parse_label label ≡ parse_entries (split b';' label)
unfolding parse_label
parse_label-eq [] =
    unfold split parse_entries parse_entry append_entry trim_space trim_left trim_right in refl
parse_label-eq (c ∷ label) = refl

-- The custom domains that are printed as a label, port and name by a colon and the entries by
-- semicolons, are read back. The ports are from 1 to 65535, and the names are not empty, begin and
-- end with no white space, and have no semicolon.
pub parse_label-print_entries :
    (cds : List CustomDomain)
    → All (λ cd. IsPrintable cd) cds
    → parse_label (join b';' (print_entries cds)) ≡ cds
parse_label-print_entries [] h = unfold join parse_label in refl
parse_label-print_entries (cd ∷ cds) h =
    parse_label-eq (join b';' (print_entries (cd ∷ cds)))
    ∙ (ap parse_entries (
          split-join b';' (print_entries (cd ∷ cds))
            (cons-ne-nil (print_entry cd) (print_entries cds)) (print_entries-Lacks (cd ∷ cds) h))
        ∙ parse_entries-print_entries (cd ∷ cds) h)
