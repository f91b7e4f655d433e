-- ===== src/Caddy/UserConfig/Tests.antt =====
-- The theorems on the user's configuration at small inputs.
use caddy_dev_local.Base.{Option, ◌≡◌, refl, nat_eq, list_eq, none, some, [], ◌∷◌}
use caddy_dev_local.Str.{Str, codes}
use caddy_dev_local.Base.Int.{pos}
use caddy_dev_local.Builder.{text, number, object, Fields, no_fields, field}
use caddy_dev_local.Caddy.UserConfig.{
  Block, nil_map, parse_caddyfile_listen_ports, ports_injected, inject_listen_ports,
}

-- A configuration with an admin section, and an HTTPS port.
abbrev user : Fields
user = field (codes "admin") (text (codes "off")) (
    field (codes "apps")
      (object (
        field (codes "http") (object (field (codes "https_port") (number (pos 444)) no_fields))
          no_fields))
      no_fields)

injected_user :
    ports_injected (pos 80) (pos 443) user
    ≡ field (codes "admin") (text (codes "off")) (
        field
          (codes "apps")
          (object (
            field
              (codes "http")
              (object (
                field
                  (codes "https_port")
                  (number (pos 444))
                  (field (codes "http_port") (number (pos 80)) no_fields)))
              no_fields))
          no_fields)
unfolding ports_injected
injected_user = refl

-- A stand-in for the codec.
abbrev decode : Str → Option (Option Fields)
decode s = some (some user)

abbrev encode : Fields → Option Str
encode m = some (codes "{}")

-- A user's configuration that is the JSON text `null`.
null_config :
    inject_listen_ports (λ s. some none) (λ m. none) (codes "null") (pos 80) (pos 443) ≡ nil_map
unfolding inject_listen_ports
null_config = refl

-- The global options of a Caddyfile.
abbrev options : Block
options = record {
  keys = [];
  segments =
      record { directive = some (codes "http_port"); single_arg = some (codes "8080") }
      ∷ record { directive = some (codes "email"); single_arg = some (codes "a") }
      ∷ [];
}

caddyfile_ports :
    parse_caddyfile_listen_ports (λ s. some (options ∷ [])) (codes "{")
    ≡ some (record { http = pos 8080; https = pos 0 })
unfolding parse_caddyfile_listen_ports
caddyfile_ports = refl
