-- ===== src/Caddy/UserConfig.antt =====
-- caddy.go: the user's configuration: the ports of a Caddyfile, the adapter to JSON, and the ports
-- that are put into it. The parser of Caddyfiles, the adapters and the JSON codec are arguments.
pub mod Laws
mod Tests
use caddy_dev_local.Base.{
  ℕ, zero, suc, Bool, true, false, Option, none, some, List, [], ◌∷◌, ◌==◌, nat_eq, list_eq,
  nat_dec, list_dec, ◌||◌, ◌&&◌, if◌then◌else◌,
}
use caddy_dev_local.Base.Int.{ℤ, pos, negsuc}
use caddy_dev_local.Str.{Str, codes, trim_space}
use caddy_dev_local.Str.Atoi.{atoi}
use caddy_dev_local.Builder.{
  Json, null, text, flag, number, array, object, Fields, no_fields, field,
}

-- A segment as a new dispenser reads it: the value of its first token, if there is one, and the single
-- argument behind it, if there is just one.
pub record Segment : Type 0 where
  pub directive : Option Str
  pub single_arg : Option Str

pub record Block : Type 0 where
  pub keys : List Str
  pub segments : List Segment

-- `parsePortOption`; both errors are `none`.
unfoldable pub parse_port_option : Segment → Option ℤ
unfolding atoi
parse_port_option seg = elim seg.single_arg [ none ↦ none | some arg ↦ atoi arg ]

pub record Ports : Type 0 where
  pub http : ℤ
  pub https : ℤ

unfoldable pub with_http : Option ℤ → Ports → Option Ports
with_http none ports = none
with_http (some p) ports = some (record ports { http = p })

unfoldable pub with_https : Option ℤ → Ports → Option Ports
with_https none ports = none
with_https (some p) ports = some (record ports { https = p })

-- The body of the loop over the segments.
unfoldable pub read_segment : Segment → Ports → Option Ports
unfolding parse_port_option with_http with_https nat_dec list_dec
read_segment seg ports = elim seg.directive [
  | none ↦ some ports
  | some name ↦
      if name == codes "http_port"
      then with_http (parse_port_option seg) ports
      else if name == codes "https_port"
      then with_https (parse_port_option seg) ports
      else some ports
]

unfoldable pub read_segments : List Segment → Ports → Option Ports
unfolding read_segment
read_segments [] ports = some ports
read_segments (seg ∷ segs) ports = elim (read_segment seg ports) [
  | none ↦ none
  | some ports' ↦ read_segments segs ports'
]

abbrev pub zero_ports : Ports
zero_ports = record { http = pos 0; https = pos 0 }

-- Only a first block without keys holds global options.
unfoldable pub read_blocks : Option (List Block) → Option Ports
unfolding read_segments
read_blocks none = none
read_blocks (some []) = some zero_ports
read_blocks (some (b ∷ bs)) = elim b.keys [
  | [] ↦ read_segments b.segments zero_ports
  | k ∷ ks ↦ some zero_ports
]

unfoldable pub is_blank : Str → Bool
unfolding trim_space nat_dec list_dec
is_blank source = trim_space source == []

-- `parseCaddyfileListenPorts`; the flag that it also returns is `is_set` of the ports.
unfoldable pub parse_caddyfile_listen_ports : (Str → Option (List Block)) → Str → Option Ports
unfolding is_blank read_blocks
parse_caddyfile_listen_ports parse source =
    if is_blank source then some zero_ports else read_blocks (parse source)

unfoldable pub is_positive : ℤ → Bool
is_positive (pos zero) = false
is_positive (pos (suc n)) = true
is_positive (negsuc n) = false

unfoldable pub is_set : Ports → Bool
unfolding is_positive
is_set ports = is_positive ports.http || is_positive ports.https

-- What an adapter is: missing, or a function that may fail.
abbrev pub Adapters : Type 0
Adapters = Str → Option (Str → Option Str)

unfoldable pub run_adapter : Option (Str → Option Str) → Str → Option Str
run_adapter none source = none
run_adapter (some adapt) source = adapt source

unfoldable pub adapt_user_config : Adapters → Str → Str → Option Str
unfolding is_blank run_adapter nat_dec list_dec
adapt_user_config adapters source adapter_name =
    if adapter_name == codes "json"
    then some source
    else if adapter_name == codes "caddyfile" && is_blank source
    then some (codes "{}")
    else run_adapter (adapters adapter_name) source

-- `m[key]`
unfoldable pub get_field : Str → Fields → Option Json
unfolding nat_dec list_dec
get_field key no_fields = none
get_field key (field k v m) = if key == k then some v else get_field key m

-- `m[key] = v`
unfoldable pub set_field : Str → Json → Fields → Fields
unfolding nat_dec list_dec
set_field key v no_fields = field key v no_fields
set_field key v (field k w m) = if key == k then field key v m else field k w (set_field key v m)

-- `v.(map[string]any)`
unfoldable pub as_object : Option Json → Option Fields
as_object none = none
as_object (some null) = none
as_object (some (text s)) = none
as_object (some (flag b)) = none
as_object (some (number n)) = none
as_object (some (array xs)) = none
as_object (some (object m)) = some m

-- A nil map reads as an empty one.
unfoldable pub or_no_fields : Option Fields → Fields
or_no_fields none = no_fields
or_no_fields (some m) = m

-- `m, _ := v[key].(map[string]any)`
unfoldable pub sub_object : Str → Fields → Fields
unfolding get_field as_object or_no_fields
sub_object key m = or_no_fields (as_object (get_field key m))

-- `if _, ok := m[key]; !ok { m[key] = v }`
unfoldable pub default_field : Str → Json → Fields → Fields
unfolding get_field set_field
default_field key v m = elim (get_field key m) [ none ↦ set_field key v m | some w ↦ m ]

unfoldable pub has_fields : Fields → Bool
has_fields no_fields = false
has_fields (field k v m) = true

unfoldable pub http_app : Fields → Fields
unfolding sub_object
http_app cfg = sub_object (codes "http") (sub_object (codes "apps") cfg)

unfoldable pub with_ports : ℤ → ℤ → Fields → Fields
unfolding default_field
with_ports http https app =
    default_field (codes "https_port") (number https)
      (default_field (codes "http_port") (number http) app)

-- The configuration with the ports in its `http` app. A Go map is shared, so writing to the app
-- changes the configuration.
unfoldable pub ports_injected : ℤ → ℤ → Fields → Fields
unfolding http_app with_ports set_field sub_object
ports_injected http https cfg =
    set_field (codes "apps")
      (object (
        set_field (codes "http") (object (with_ports http https (http_app cfg)))
          (sub_object (codes "apps") cfg)))
      cfg

-- An error, a write to a nil map, or the configuration to load.
pub data Injected : Type 0 where
  codec_error nil_map : Injected
  injected : Str → Injected

unfoldable pub encoded : Option Str → Injected
encoded none = codec_error
encoded (some s) = injected s

-- `decode` gives an error, a nil map for the text `null`, or an object.
unfoldable pub inject_listen_ports :
    (Str → Option (Option Fields)) → (Fields → Option Str) → Str → ℤ → ℤ → Injected
unfolding has_fields http_app sub_object ports_injected encoded
inject_listen_ports decode encode user_json http https = elim (decode user_json) [
  | none ↦ codec_error
  | some m ↦ elim m [
    | none ↦ nil_map
    | some cfg ↦
        if has_fields (sub_object (codes "servers") (http_app cfg))
        then injected user_json
        else encoded (encode (ports_injected http https cfg))
  ]
]
