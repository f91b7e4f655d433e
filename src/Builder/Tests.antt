-- ===== src/Builder/Tests.antt =====
-- The theorems on the configuration at two domains that share a route ID.
use mathlib.Core.Option.{some-ne-none}
use caddy_dev_local.Base.{
  ◌≡◌, ◌≢◌, refl, true, Option, none, some, List, [], ◌∷◌, ◌↔◌, nat_eq, list_eq, nat_dec,
}
use caddy_dev_local.Base.Dict.{Dict, lookup, keys, NodupKeys}
use caddy_dev_local.Base.Sort.{sort}
use caddy_dev_local.Str.{Str, codes, str_le}
use caddy_dev_local.Builder.{Json, DevlocalConfig, route_id, replace_dot, build_devlocal_config}
use caddy_dev_local.Builder.Laws.{last_route, build_devlocal_config-IsTable}

-- A stand-in for the encoder.
abbrev marshal : Json → Option Str
marshal j = some (codes "json")

marshal_total : (j : Json) → marshal j ≢ none
marshal_total j = some-ne-none (codes "json")

abbrev sharing : Dict Str (List Str)
sharing = (codes "a.b", codes "x:1" ∷ []) ∷ (codes "a-b", codes "y:2" ∷ []) ∷ []

build_devlocal_config-IsTable_example :
    (c : DevlocalConfig) × (build_devlocal_config marshal (codes "t") (codes "/d") sharing true
      ≡ some c)
    × NodupKeys c.routes
    × ((id : Str)
        → lookup id c.routes ≡ last_route marshal sharing true id (sort str_le (keys sharing)) none)
    × ((sort str_le (keys sharing) ≡ []) ↔ (c.policies ≡ []))
build_devlocal_config-IsTable_example =
    build_devlocal_config-IsTable marshal sharing true (codes "t") (codes "/d") marshal_total

-- Both domains have one ID.
shared_id : route_id (codes "a.b") ≡ route_id (codes "a-b")
unfolding route_id replace_dot nat_dec
shared_id = refl

abbrev apart : Dict Str (List Str)
apart = (codes "a.b", codes "x:1" ∷ []) ∷ (codes "c", codes "y:2" ∷ []) ∷ []
