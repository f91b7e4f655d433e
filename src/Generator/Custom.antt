-- ===== src/Generator/Custom.antt =====
-- `parseCustomDomains` of generator/generator.go.
pub mod Laws
pub mod RoundTrip
mod Tests
use caddy_dev_local.Base.{
  ℕ, Bool, true, false, Option, none, some, List, [], ◌∷◌, ◌==◌, nat_eq, nat_dec, if◌then◌else◌,
}
use caddy_dev_local.Base.Dict.{Dict}
use caddy_dev_local.Str.{Str, codes, trim_space, split, split_two, scan_uint16}
use caddy_dev_local.Docker.{get_label}
use caddy_dev_local.Generator.{CustomDomain}

abbrev pub domains_label : Str
domains_label = codes "dev.local.domains"

-- The last test of the loop body, on the trimmed domain.
unfoldable pub with_domain : ℕ → Str → Option CustomDomain
with_domain port [] = none
with_domain port (c ∷ domain) = some (record { port = port; domain = c ∷ domain })

-- The port stays 0 where no number can be read.
unfoldable pub with_port : Option ℕ → Str → Option CustomDomain
with_port none domain = none
with_port (some port) domain = if port == 0 then none else with_domain port domain

unfoldable pub parse_parts : Option (Str × Str) → Option CustomDomain
parse_parts none = none
parse_parts (some (port, domain)) = with_port (scan_uint16 port) (trim_space domain)

-- The loop body on the trimmed entry; `none` is `continue`.
unfoldable pub parse_entry : Str → Option CustomDomain
parse_entry [] = none
parse_entry (c ∷ entry) = parse_parts (split_two b':' (c ∷ entry))

unfoldable pub append_entry : Option CustomDomain → List CustomDomain → List CustomDomain
append_entry none domains = domains
append_entry (some d) domains = d ∷ domains

unfoldable pub parse_entries : List Str → List CustomDomain
parse_entries [] = []
parse_entries (e ∷ es) = append_entry (parse_entry (trim_space e)) (parse_entries es)

-- The empty label is the one entry that is empty, so the test for it needs no branch of its own
-- here: it returns no domain.
unfoldable pub parse_label : Str → List CustomDomain
parse_label [] = []
parse_label (c ∷ label) = parse_entries (split b';' (c ∷ label))

unfoldable pub parse_custom_domains : Option (Dict Str Str) → List CustomDomain
parse_custom_domains labels = parse_label (get_label labels domains_label)
