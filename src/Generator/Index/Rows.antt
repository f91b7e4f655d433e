-- ===== src/Generator/Index/Rows.antt =====
-- The row of a container: the loop over the containers in `GenerateIndexPage` of generator/index.go.
use caddy_dev_local.Base.{
  ℕ, ◌/◌, Bool, Option, none, some, List, [], ◌∷◌, ◌++◌, nat_eq, list_eq, ◌&&◌, ◌||◌, not, ltb, leb,
  if◌then◌else◌, map, take, length,
}
use caddy_dev_local.Base.Dict.{Dict, lookup, keys, keep_if}
use caddy_dev_local.Base.Sort.{sort}
use caddy_dev_local.Str.{Str, codes, format_uint, has_prefix, join}
use caddy_dev_local.Generator.{CustomDomain, ContainerInfo, effective_port, not_empty}
use caddy_dev_local.Generator.Icons.{icon_for_container}
use caddy_dev_local.Generator.Index.Chips.{
  DomainEntry, chip, build_domain_entry, sort_domain_entries,
}

pub record PublishedPort : Type 0 where
  pub private : Str
  pub public : Str

pub record IndexRow : Type 0 where
  pub domains : List DomainEntry
  pub container_name : Str
  pub container_id : Str
  pub container_id_short : Str
  pub image : Str
  pub icon : Str
  pub ip_address : Str
  pub compose_project : Str
  pub compose_service : Str
  pub is_running : Bool
  pub no_ports : Bool
  pub started_unix : ℕ
  pub started_abs : Str
  pub stopped_unix : ℕ
  pub stopped_abs : Str
  pub health : Str
  pub networks : List Str
  pub published_port_pairs : List PublishedPort
  pub labels_json : Str
  pub domains_flat : Str
  pub docker_desktop_url : Str

unfoldable pub container_desktop_url : Str → Str
container_desktop_url id = codes "docker-desktop://dashboard/logs?containerIds=" ++ id

unfoldable pub has_shown_prefix : Str → Bool
unfolding has_prefix
has_shown_prefix k =
    has_prefix k (codes "dev.local.")
    || has_prefix k (codes "com.docker.compose.")
    || has_prefix k (codes "org.opencontainers.image.")
    || has_prefix k (codes "com.docker.extension.")

unfoldable pub filtered_labels : Option (Dict Str Str) → Dict Str Str
unfolding has_shown_prefix keep_if
filtered_labels none = []
filtered_labels (some labels) = keep_if (λ k v. has_shown_prefix k) labels

-- `"https://" + domain` under a condition, else no URL
unfoldable pub url_if : Bool → Str → Str
url_if b domain = if b then codes "https://" ++ domain else []

unfoldable pub custom_entry : ContainerInfo → CustomDomain → DomainEntry
unfolding format_uint effective_port chip url_if
custom_entry info cd = record {
  domain = cd.domain;
  chips = chip cd.domain (format_uint (effective_port info cd.port)) ∷ [];
  url = url_if info.is_running cd.domain;
}

unfoldable pub own_domain : ContainerInfo → Str → Str
own_domain info tld =
    if info.is_compose
    then info.project ++ (b'.' ∷ (info.service ++ (b'.' ∷ tld)))
    else info.container_name ++ (b'.' ∷ tld)

unfoldable pub own_localhost_domain : ContainerInfo → Str
own_localhost_domain info =
    if info.is_compose
    then info.project ++ (b'.' ∷ (info.service ++ codes ".localhost"))
    else info.container_name ++ codes ".localhost"

unfoldable pub port_strs : ContainerInfo → List Str
unfolding format_uint effective_port
port_strs info = map (λ p. format_uint (effective_port info p)) info.ports

unfoldable pub own_entry : ContainerInfo → Str → DomainEntry
unfolding build_domain_entry port_strs url_if
own_entry info domain =
    build_domain_entry domain (port_strs info)
      (url_if (info.is_running && ltb 0 info.selected_port) domain)

unfoldable pub entries_by : List CustomDomain → Str → ContainerInfo → List DomainEntry
unfolding custom_entry own_entry own_domain own_localhost_domain not_empty
entries_by [] tld info =
    if not_empty info.ports
    then own_entry info (own_domain info tld) ∷ own_entry info (own_localhost_domain info) ∷ []
    else []
entries_by (cd ∷ cds) tld info = map (custom_entry info) (cd ∷ cds)

unfoldable pub http_port_str : ContainerInfo → Str
unfolding format_uint
http_port_str info = if ltb 0 info.selected_port then format_uint info.selected_port else []

unfoldable pub row_entries : Str → ContainerInfo → List DomainEntry
unfolding entries_by http_port_str sort_domain_entries
row_entries tld info =
    sort_domain_entries (http_port_str info) (entries_by info.custom_domains tld info)

unfoldable pub port_or_zero : Option ℕ → ℕ
port_or_zero none = 0
port_or_zero (some p) = p

unfoldable pub published_pair : Dict ℕ ℕ → ℕ → PublishedPort
unfolding format_uint port_or_zero lookup
published_pair ports private = record {
  private = format_uint private;
  public = format_uint (port_or_zero (lookup private ports));
}

unfoldable pub published_pairs : Dict ℕ ℕ → List PublishedPort
unfolding published_pair sort
published_pairs ports = map (published_pair ports) (sort leb (keys ports))

unfoldable pub short_id : Str → Str
short_id id = if ltb 12 (length id) then take 12 id else id

-- `t.Unix()`, for a time in nanoseconds after 1970
unfoldable pub unix : ℕ → ℕ
unix t = t / 1_000_000_000

-- When a container that does not run was stopped; none where it runs or where that is not known.
unfoldable pub stopped_at : ContainerInfo → Option ℕ
stopped_at info = if info.is_running then none else info.last_stopped

unfoldable pub or_braces : Option Str → Str
or_braces none = codes "{}"
or_braces (some b) = b

unfoldable pub labels_json : (Dict Str Str → Option Str) → Dict Str Str → Str
unfolding or_braces
labels_json marshal [] = codes "{}"
labels_json marshal (l ∷ ls) = or_braces (marshal (l ∷ ls))

unfoldable pub format_or_empty : (ℕ → Str) → Option ℕ → Str
format_or_empty format_time none = []
format_or_empty format_time (some t) = format_time t

unfoldable pub unix_or_none : Option ℕ → ℕ
unfolding unix
unix_or_none none = 0
unix_or_none (some t) = unix t

module _ (format_time : ℕ → Str) (marshal : Dict Str Str → Option Str) (tld : Str)
    (standalone : Bool) where
  unfoldable pub index_row : ContainerInfo → IndexRow
  unfolding row_entries short_id icon_for_container not_empty unix stopped_at published_pairs
      labels_json filtered_labels join container_desktop_url format_or_empty unix_or_none
  index_row info = record {
    domains = row_entries tld info;
    container_name = info.container_name;
    container_id = info.container_id;
    container_id_short = short_id info.container_id;
    image = info.image;
    icon = icon_for_container info.image info.labels;
    ip_address = if standalone then [] else info.ip_address;
    compose_project = if info.is_compose then info.project else [];
    compose_service = if info.is_compose then info.service else [];
    is_running = info.is_running;
    no_ports = not (not_empty info.ports) && not (not_empty info.custom_domains);
    started_unix = unix info.created;
    started_abs = format_time info.created;
    stopped_unix = unix_or_none (stopped_at info);
    stopped_abs = format_or_empty format_time (stopped_at info);
    health = info.health;
    networks = info.networks;
    published_port_pairs = published_pairs info.published_ports;
    labels_json = labels_json marshal (filtered_labels info.labels);
    domains_flat = join b' ' (map (λ e. e.domain) (row_entries tld info));
    docker_desktop_url = container_desktop_url info.container_id;
  }
