-- ===== src/Docker.antt =====
-- docker/client.go: what is read of a container that the Docker API lists.
-- The records hold the fields of `container.Summary` that the program reads. A Go map is a list of
-- entries in the order of iteration, and a nil map or pointer is `none`.
use caddy_dev_local.Base.{
  ℕ, Option, none, some, List, [], ◌∷◌, ◌==◌, list_eq, nat_eq, list_dec, nat_dec, length, take, leb,
  if◌then◌else◌,
}
use caddy_dev_local.Base.Dict.{Dict, lookup}
use caddy_dev_local.Str.{Str, codes}

pub record Port : Type 0 where
  pub private_port : ℕ
  pub public_port : ℕ

-- An address that is not valid is `none`.
pub record Endpoint : Type 0 where
  pub gateway : Option Str
  pub ip_address : Option Str

pub record Summary : Type 0 where
  pub id : Str
  pub names : List Str
  pub image : Str
  pub labels : Option (Dict Str Str)
  pub ports : List Port
  pub state : Str
  pub created : ℕ
  pub health : Option Str
  pub networks : Option (Dict Str Endpoint)

-- `m[key]`, where a missing key gives the empty text
unfoldable pub value_or_empty : Option Str → Str
value_or_empty none = []
value_or_empty (some v) = v

-- A label of a map that may be nil. `getLabel` of generator/generator.go is the same code.
unfoldable pub get_label : Option (Dict Str Str) → Str → Str
unfolding value_or_empty lookup nat_dec list_dec
get_label none key = []
get_label (some labels) key = value_or_empty (lookup key labels)

unfoldable pub label_value : Summary → Str → Str
unfolding get_label
label_value c key = get_label c.labels key

unfoldable pub compose_project : Summary → Str
unfolding label_value
compose_project c = label_value c (codes "com.docker.compose.project")

unfoldable pub compose_service : Summary → Str
unfolding label_value
compose_service c = label_value c (codes "com.docker.compose.service")

-- `if n[0] == '/' { n = n[1:] }`
unfoldable pub drop_slash : ℕ → Str → Str
unfolding nat_dec
drop_slash c n = if c == b'/' then n else c ∷ n

-- The loop over the names, and the end of the function where it finds none: `c.ID[:12]`, which
-- panics (`none`) where the ID is shorter.
unfoldable pub first_name : Str → List Str → Option Str
unfolding drop_slash
first_name id [] = if leb 12 (length id) then some (take 12 id) else none
first_name id ([] ∷ names) = first_name id names
first_name id ((c ∷ n) ∷ names) = some (drop_slash c n)

unfoldable pub container_name : Summary → Option Str
unfolding first_name
container_name c = first_name c.id c.names
