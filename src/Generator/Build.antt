-- ===== src/Generator/Build.antt =====
-- `discoverSelf`, `reachability` and `buildContainerInfo` of generator/generator.go: from what Docker
-- lists to what is kept. `none` is a panic, which ends the process.
pub mod Laws
use caddy_dev_local.Base.{
  ℕ, Bool, true, false, Option, none, some, List, [], ◌∷◌, ◌++◌, ◌==◌, list_eq, nat_eq, list_dec,
  nat_dec, not, ◌&&◌, ◌||◌, leb, if◌then◌else◌, contains, ◌>>=◌, ◌*◌,
}
use caddy_dev_local.Base.Dict.{Dict, lookup, insert, keys}
use caddy_dev_local.Base.Sort.{sort}
use caddy_dev_local.Str.{Str, codes, has_prefix, to_lower, str_le}
use caddy_dev_local.Config.{Config}
use caddy_dev_local.Docker.{
  Port, Endpoint, Summary, value_or_empty, label_value, compose_project, compose_service,
  container_name,
}
use caddy_dev_local.Generator.{ContainerInfo, TargetKind, unreachable, dns, gateway, not_empty}
use caddy_dev_local.Generator.Custom.{parse_custom_domains}

pub record SelfInfo : Type 0 where
  pub id : Str
  pub networks : List Str
  pub gateway : Str

abbrev pub host_internal : Str
host_internal = codes "host.docker.internal"

unfoldable pub should_skip : Summary → Bool
unfolding label_value to_lower nat_dec list_dec
should_skip c =
    let val = to_lower (label_value c (codes "dev.local")) in
    val == codes "false" || val == codes "0" || val == codes "no"

unfoldable pub matches_hostname : Summary → Str → Option Str → Option Bool
matches_hostname c hostname none = none
matches_hostname c hostname (some name) =
    some (name == hostname || has_prefix c.id hostname || has_prefix hostname c.id)

unfoldable pub is_self_container : Summary → Str → Option Bool
unfolding not_empty
is_self_container c hostname =
    if not (not_empty hostname)
    then some false
    else if c.id == hostname
    then some true
    else matches_hostname c hostname (container_name c)

-- The gateway of the first network that has one.
unfoldable pub self_gateway : Str → Dict Str Endpoint → Str
unfolding nat_dec list_dec
self_gateway found [] = found
self_gateway found ((name, ep) ∷ networks) =
    self_gateway
      (if found == host_internal then elim ep.gateway [ none ↦ found | some g ↦ g ] else found)
      networks

unfoldable pub self_info : Summary → SelfInfo
unfolding self_gateway
self_info c = elim c.networks [
  | none ↦ record { id = c.id; networks = []; gateway = host_internal }
  | some networks ↦ record {
    id = c.id;
    networks = keys networks;
    gateway = self_gateway host_internal networks;
  }
]

abbrev pub no_self : SelfInfo
no_self = record { id = []; networks = []; gateway = host_internal }

-- The loop stops at the first container that is the program's own.
unfoldable pub find_self : Str → List Summary → Option SelfInfo
find_self hostname [] = some no_self
find_self hostname (c ∷ cs) = elim (is_self_container c hostname) [
  | none ↦ none
  | some own ↦ elim own [ true ↦ some (self_info c) | false ↦ find_self hostname cs ]
]

unfoldable pub discover_self : Str → List Summary → Option SelfInfo
unfolding find_self
discover_self [] containers = some no_self
discover_self (h ∷ hostname) containers = find_self (h ∷ hostname) containers

unfoldable pub shares_network : SelfInfo → Dict Str Endpoint → Bool
unfolding nat_dec list_dec
shares_network self [] = false
shares_network self ((name, ep) ∷ networks) =
    contains self.networks name || shares_network self networks

unfoldable pub on_shared_network : SelfInfo → Option (Dict Str Endpoint) → Bool
unfolding shares_network
on_shared_network self none = false
on_shared_network self (some networks) = shares_network self networks

unfoldable pub has_published : List Port → Bool
unfolding nat_dec
has_published [] = false
has_published (p ∷ ps) = not (p.public_port == 0) || has_published ps

unfoldable pub reachability : Config → Summary → SelfInfo → TargetKind
unfolding on_shared_network has_published
reachability cfg c self =
    if cfg.standalone
    then gateway
    else if on_shared_network self c.networks
    then dns
    else if has_published c.ports
    then gateway
    else unreachable

-- `netip.Addr.String` of an address that is not valid is "invalid IP".
unfoldable pub addr_string : Option Str → Str
addr_string none = codes "invalid IP"
addr_string (some a) = a

unfoldable pub first_ip : Dict Str Endpoint → Str
first_ip [] = []
first_ip ((name, ep) ∷ networks) = elim ep.ip_address [ none ↦ first_ip networks | some a ↦ a ]

unfoldable pub first_network_ip : Option (Dict Str Endpoint) → Str
unfolding first_ip
first_network_ip none = []
first_network_ip (some networks) = first_ip networks

-- The address on the first network that the program shares.
unfoldable pub shared_ip : SelfInfo → Dict Str Endpoint → Str
unfolding addr_string nat_dec list_dec
shared_ip self [] = []
shared_ip self ((name, ep) ∷ networks) =
    if contains self.networks name then addr_string ep.ip_address else shared_ip self networks

unfoldable pub ip_for : TargetKind → SelfInfo → Option (Dict Str Endpoint) → Str
unfolding shared_ip first_network_ip
ip_for dns self none = []
ip_for dns self (some networks) = shared_ip self networks
ip_for gateway self networks = first_network_ip networks
ip_for unreachable self networks = []

-- The loop over the ports; the list holds the ports that were seen, in order.
unfoldable pub distinct_ports : List ℕ → List Port → List ℕ
unfolding nat_dec
distinct_ports seen [] = seen
distinct_ports seen (p ∷ ps) =
    distinct_ports (if contains seen p.private_port then seen else seen ++ p.private_port ∷ []) ps

unfoldable pub extract_ports : Summary → List ℕ
unfolding distinct_ports sort
extract_ports c = sort leb (distinct_ports [] c.ports)

unfoldable pub published : Dict ℕ ℕ → List Port → Dict ℕ ℕ
unfolding insert nat_dec
published m [] = m
published m (p ∷ ps) =
    published (if p.public_port == 0 then m else insert p.private_port p.public_port m) ps

unfoldable pub network_names : Option (Dict Str Endpoint) → List Str
unfolding sort
network_names none = []
network_names (some networks) = sort str_le (keys networks)

-- The literal at the end; what it does not mention has its zero value. Docker counts in seconds.
unfoldable pub built : Config → Summary → SelfInfo → Str → ContainerInfo
unfolding compose_project compose_service not_empty extract_ports published reachability ip_for
    value_or_empty network_names parse_custom_domains
built cfg c self name = record {
  container_id = c.id;
  container_name = name;
  image = c.image;
  project = compose_project c;
  service = compose_service c;
  ip_address = ip_for (reachability cfg c self) self c.networks;
  ports = extract_ports c;
  published_ports = published [] c.ports;
  selected_port = 0;
  target_kind = reachability cfg c self;
  gateway_host = self.gateway;
  is_compose = not_empty (compose_project c) && not_empty (compose_service c);
  is_running = false;
  last_stopped = none;
  created = c.created * 1_000_000_000;
  labels = c.labels;
  custom_domains = parse_custom_domains c.labels;
  health = value_or_empty c.health;
  networks = network_names c.networks;
}

-- The inner `none` is the nil pointer that is returned for a container to skip.
unfoldable pub build_container_info : Config → Summary → SelfInfo → Option (Option ContainerInfo)
build_container_info cfg c self =
    if should_skip c
    then some none
    else do name ← container_name c; some (some (built cfg c self name))
