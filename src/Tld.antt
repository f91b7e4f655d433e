-- ===== src/Tld.antt =====
-- The names under `.localhost`: the constants and `TLDLocalhost` of generator/generator.go.
pub mod Laws
use caddy_dev_local.Base.{List, [], ◌∷◌, ◌++◌, ◌||◌, if◌then◌else◌}
use caddy_dev_local.Str.{Str, codes, split, equal_fold, to_lower, has_suffix}

abbrev pub localhost_name : Str
localhost_name = codes "localhost"

abbrev pub localhost_suffix : Str
localhost_suffix = codes ".localhost"

-- `strings.Split(tld, ".")[0]`: a split has at least one part.
unfoldable pub first_part : List Str → Str
first_part [] = []
first_part (p ∷ ps) = p

unfoldable pub tld_localhost : Str → Str
unfolding equal_fold to_lower has_suffix split first_part
tld_localhost tld =
    if equal_fold tld localhost_name || has_suffix (to_lower tld) localhost_suffix
    then tld
    else first_part (split b'.' tld) ++ localhost_suffix
