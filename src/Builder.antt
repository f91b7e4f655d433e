-- ===== src/Builder.antt =====
-- builder.go: the routes, the index route and the TLS policy for the domains that are proxied.
-- The values that the code builds are data here; `json.Marshal`, which turns them into text or fails,
-- is the argument `marshal`. A Go map is an object whose fields stand in the order of the source.
pub mod Reading
pub mod Laws
mod Tests
use caddy_dev_local.Base.{
  ℕ, Bool, true, false, Option, none, some, List, [], ◌∷◌, ◌++◌, ◌==◌, nat_eq, list_eq, not,
  if◌then◌else◌, contains, map, ◌>>=◌,
}
use caddy_dev_local.Base.Dict.{Dict, lookup, insert, keys}
use caddy_dev_local.Base.Int.{ℤ}
use caddy_dev_local.Base.Sort.{sort}
use caddy_dev_local.Str.{Str, codes, str_le}
use caddy_dev_local.Tld.{tld_localhost}

mutual
  pub data Json : Type 0 where
    null : Json
    text : Str → Json
    flag : Bool → Json
    number : ℤ → Json
    array : Items → Json
    object : Fields → Json

  pub data Items : Type 0 where
    no_items : Items
    item : Json → Items → Items

  pub data Fields : Type 0 where
    no_fields : Fields
    field : Str → Json → Fields → Fields

abbrev pub one : Json → Json
one j = array (item j no_items)

abbrev pub tls_policy_id : Str
tls_policy_id = codes "devlocal-tls"

unfoldable pub replace_dot : ℕ → ℕ
replace_dot c = if c == b'.' then b'-' else c

-- `devlocalRouteID`
unfoldable pub route_id : Str → Str
route_id host = codes "devlocal-route-" ++ map replace_dot host

unfoldable pub upstreams : List Str → Items
upstreams [] = no_items
upstreams (t ∷ ts) = item (object (field (codes "dial") (text t) no_fields)) (upstreams ts)

unfoldable pub texts : List Str → Items
texts [] = no_items
texts (d ∷ ds) = item (text d) (texts ds)

unfoldable pub proxy_handler : List Str → Json
proxy_handler targets = object (
    field (codes "handler") (text (codes "reverse_proxy"))
      (field (codes "upstreams") (array (upstreams targets)) no_fields))

-- A handler with one route, which has the given handlers.
unfoldable pub subroute : Items → Json
subroute handlers = object (
    field (codes "handler") (text (codes "subroute")) (
      field (codes "routes") (one (object (field (codes "handle") (array handlers) no_fields)))
        no_fields))

unfoldable pub tracing_handler : Json
tracing_handler = object (
    field (codes "handler") (text (codes "tracing"))
      (field (codes "span") (text (codes "{http.request.method} {http.request.host}")) no_fields))

unfoldable pub handlers : Bool → Json → Items
handlers true subrouted = item tracing_handler (item subrouted no_items)
handlers false subrouted = item subrouted no_items

unfoldable pub reverse_proxy_route : Str → List Str → Bool → Json
reverse_proxy_route host targets tracing = object (
    field (codes "@id") (text (route_id host)) (
      field (codes "handle")
        (array (handlers tracing (subroute (item (proxy_handler targets) no_items))))
        (field (codes "match") (one (object (field (codes "host") (one (text host)) no_fields)))
          (field (codes "terminal") (flag true) no_fields))))

-- `hosts`, a slice that is nil where a container has the name; a nil slice is `null` in JSON.
unfoldable pub index_hosts : Str → List Str → Json
index_hosts tld domains =
    if contains domains (tld_localhost tld) then null else one (text (tld_localhost tld))

unfoldable pub index_handlers : Str → Items
index_handlers index_dir =
    item
      (object (
        field (codes "handler") (text (codes "vars"))
          (field (codes "root") (text index_dir) no_fields)))
      (item
        (object (
          field (codes "handler") (text (codes "file_server")) (
            field (codes "hide")
              (array (
                item (text (codes "./Caddyfile")) (item (text (codes "./devlocal.json")) no_items)))
              no_fields)))
        no_items)

unfoldable pub index_route : Str → Str → List Str → Json
index_route tld index_dir domains = object (
    field (codes "handle") (one (subroute (index_handlers index_dir))) (
      field (codes "match")
        (one (object (field (codes "host") (index_hosts tld domains) no_fields)))
        (field (codes "terminal") (flag true) no_fields)))

unfoldable pub tls_policy : List Str → Json
tls_policy domains = object (
    field (codes "@id") (text tls_policy_id) (
      field (codes "issuers")
        (one (object (field (codes "module") (text (codes "internal")) no_fields)))
        (field (codes "subjects") (array (texts (sort str_le domains))) no_fields)))

pub record DevlocalConfig : Type 0 where
  pub routes : Dict Str Str
  pub policies : Dict Str Str
  pub index_route : Str

unfoldable pub or_nil : Option (List Str) → List Str
or_nil none = []
or_nil (some ts) = ts

module _ (marshal : Json → Option Str) where
  -- The loop over the sorted domains; `subjects` is the list of the domains again.
  unfoldable pub add_routes :
      Dict Str (List Str) → Bool → List Str → Dict Str Str → Option (Dict Str Str)
  add_routes targets tracing [] routes = some routes
  add_routes targets tracing (host ∷ hosts) routes =
      elim (marshal
        (reverse_proxy_route host (sort str_le (or_nil (lookup host targets))) tracing)) [
          | none ↦ none
          | some route ↦ add_routes targets tracing hosts (insert (route_id host) route routes)
        ]

  unfoldable pub build_policies : List Str → Option (Dict Str Str)
  build_policies [] = some []
  build_policies (d ∷ subjects) = do
    policy ← marshal (tls_policy (d ∷ subjects))
    some ((tls_policy_id, policy) ∷ [])

  unfoldable pub with_index_route :
      Dict Str (List Str) → Bool → List Str → Str → Option DevlocalConfig
  with_index_route targets tracing domains index = do
    routes ← add_routes targets tracing domains []
    policies ← build_policies domains
    some (record { routes = routes; policies = policies; index_route = index })

  unfoldable pub build_devlocal_config :
      Str → Str → Dict Str (List Str) → Bool → Option DevlocalConfig
  build_devlocal_config tld index_dir targets tracing = do
    index ← marshal (index_route tld index_dir (sort str_le (keys targets)))
    with_index_route targets tracing (sort str_le (keys targets)) index
