-- ===== src/Generator/Custom/Tests.antt =====
-- The theorems on the label of custom domains at a label.
use caddy_dev_local.Base.{◌≡◌, refl, Option, some, All, [], ◌∷◌, arith, nat_eq, list_eq}
use mathlib.Core.List.{cons-ne-nil}
use caddy_dev_local.Base.Dict.{Dict}
use caddy_dev_local.Str.{Str, codes, join, trim_space}
use caddy_dev_local.Generator.{CustomDomain}
use caddy_dev_local.Generator.Custom.{domains_label, parse_label, parse_custom_domains}
use caddy_dev_local.Generator.Custom.Laws.{IsUsable, parse_custom_domains-All}
use caddy_dev_local.Generator.Custom.RoundTrip.{
  IsPrintable, print_entries, parse_label-print_entries,
}

abbrev labels : Option (Dict Str Str)
labels = some ((domains_label, codes "80:a.x;0:b;x;70000:c; 81 : d ") ∷ [])

parse_custom_domains-All_example : All IsUsable (parse_custom_domains labels)
parse_custom_domains-All_example = parse_custom_domains-All labels

abbrev api : CustomDomain
api = record { port = 3000; domain = codes "a.x" }

abbrev web : CustomDomain
web = record { port = 80; domain = codes "w" }

api-IsPrintable : IsPrintable api
unfolding trim_space
api-IsPrintable = record {
  usable = (omega arith, (omega arith, cons-ne-nil _ _));
  no_separator = omega arith;
  is_trimmed = refl;
}

web-IsPrintable : IsPrintable web
unfolding trim_space
web-IsPrintable = record {
  usable = (omega arith, (omega arith, cons-ne-nil _ _));
  no_separator = omega arith;
  is_trimmed = refl;
}

parse_label-print_entries_example :
    parse_label (join b';' (print_entries (api ∷ web ∷ []))) ≡ api ∷ web ∷ []
parse_label-print_entries_example =
    parse_label-print_entries (api ∷ web ∷ []) (api-IsPrintable, (web-IsPrintable, tt))
