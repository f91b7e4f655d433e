-- ===== src/Generator/Custom/Laws.antt =====
-- The label of custom domains: what is read is well formed.
use mathlib.Core.List.{cons-ne-nil}
use caddy_dev_local.Base.{
  ℕ, ◌≤◌, ◌≡◌, ◌≢◌, refl, Option, none, some, List, [], ◌∷◌, ◌==◌, nat_eq, arith, All, inl, inr,
  Bool-cases,
}
use caddy_dev_local.Base.Dict.{Dict}
use caddy_dev_local.Str.{Str, trim_space, split, split_two, scan_uint16}
use caddy_dev_local.Str.Decimal.{scan_uint16-le}
use caddy_dev_local.Docker.{get_label}
use caddy_dev_local.Generator.{CustomDomain}
use caddy_dev_local.Generator.Custom.{
  domains_label, with_domain, with_port, parse_parts, parse_entry, append_entry, parse_entries,
  parse_label, parse_custom_domains,
}

-- A port number of 16 bits that is not 0, and a domain that is not empty.
abbrev pub IsUsable : CustomDomain → Type 0
IsUsable cd = (cd.port ≢ 0) × ((cd.port ≤ 65535) × (cd.domain ≢ []))

abbrev pub IsUsableIfRead : Option CustomDomain → Type 0
IsUsableIfRead none = Unit
IsUsableIfRead (some cd) = IsUsable cd

with_port-IsUsable :
    (o : Option ℕ) (domain : Str)
    → ((n : ℕ) → o ≡ some n → n ≤ 65535)
    → IsUsableIfRead (with_port o domain)
unfolding with_port with_domain
with_port-IsUsable none domain h = tt
with_port-IsUsable (some n) [] h = elim (Bool-cases (n == 0)) [ inl e ↦ rw e tt | inr e ↦ rw e tt ]
with_port-IsUsable (some n) (c ∷ domain) h = elim (Bool-cases (n == 0)) [
  | inl e ↦ rw e tt
  | inr e ↦ rw e (ground (arith, e), (h n refl, cons-ne-nil c domain))
]

parse_parts-IsUsable : (o : Option (Str × Str)) → IsUsableIfRead (parse_parts o)
unfolding parse_parts
parse_parts-IsUsable none = tt
parse_parts-IsUsable (some (port, domain)) =
    with_port-IsUsable (scan_uint16 port) (trim_space domain) (scan_uint16-le port)

parse_entry-IsUsable : (entry : Str) → IsUsableIfRead (parse_entry entry)
unfolding parse_entry
parse_entry-IsUsable [] = tt
parse_entry-IsUsable (c ∷ entry) = parse_parts-IsUsable (split_two b':' (c ∷ entry))

append_entry-All :
    (o : Option CustomDomain) (cds : List CustomDomain)
    → IsUsableIfRead o
    → All IsUsable cds
    → All IsUsable (append_entry o cds)
unfolding append_entry
append_entry-All none cds h k = k
append_entry-All (some cd) cds h k = (h, k)

parse_entries-All : (es : List Str) → All IsUsable (parse_entries es)
unfolding parse_entries
parse_entries-All [] = tt
parse_entries-All (e ∷ es) =
    append_entry-All (parse_entry (trim_space e)) (parse_entries es)
      (parse_entry-IsUsable (trim_space e)) (parse_entries-All es)

parse_label-All : (label : Str) → All IsUsable (parse_label label)
unfolding parse_label
parse_label-All [] = tt
parse_label-All (c ∷ label) = parse_entries-All (split b';' (c ∷ label))

-- Whatever the label holds, each custom domain that is read has a port from 1 to 65535 and a name
-- that is not empty.
pub parse_custom_domains-All :
    (labels : Option (Dict Str Str)) → All IsUsable (parse_custom_domains labels)
unfolding parse_custom_domains
parse_custom_domains-All labels = parse_label-All (get_label labels domains_label)
