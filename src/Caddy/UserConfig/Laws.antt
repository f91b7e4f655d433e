-- ===== src/Caddy/UserConfig/Laws.antt =====
-- What `injectListenPorts` of caddy.go changes of a configuration.
use mathlib.Core.Path.{subst}
use caddy_dev_local.Base.{
  ◌≡◌, refl, sym, ap, ◌∙◌, Option, none, some, ◌==◌, nat_eq, list_eq, nat_dec, list_dec,
  if◌then◌else◌, arith,
}
use caddy_dev_local.Base.Int.{ℤ}
use caddy_dev_local.Str.{Str, codes}
use caddy_dev_local.Builder.{Json, object, number, Fields, no_fields, field}
use caddy_dev_local.Caddy.UserConfig.{
  get_field, set_field, sub_object, as_object, or_no_fields, default_field, http_app, with_ports,
  ports_injected,
}

-- The first of two values.
abbrev pub first_of : Option Json → Option Json → Option Json
first_of none o = o
first_of (some v) o = some v

abbrev pub default_port : ℤ → ℤ → Str → Option Json
default_port http https key =
    if key == codes "http_port"
    then some (number http)
    else if key == codes "https_port"
    then some (number https)
    else none

get_field-set_field :
    (j k : Str) (v : Json) (m : Fields)
    → get_field j (set_field k v m) ≡ (if j == k then some v else get_field j m)
unfolding get_field set_field
get_field-set_field j k v no_fields = refl
get_field-set_field j k v (field i w m) = ground (arith, get_field-set_field j k v m)

get_field-set_field_self :
    (k : Str) (v : Json) (m : Fields) → get_field k (set_field k v m) ≡ some v
get_field-set_field_self k v m = ground (arith, get_field-set_field k k v m)

set_field_same : (k : Str) (v : Json) (m : Fields) → get_field k m ≡ some v → set_field k v m ≡ m
unfolding get_field set_field
set_field_same k v no_fields h = cc
set_field_same k v (field i w m) h = ground (arith, set_field_same k v m, h)

abbrev IsFound : Option Json → Type 0
IsFound none = ⊥
IsFound (some v) = Unit

default_field_set :
    (k : Str) (v : Json) (m : Fields) → IsFound (get_field k m) → default_field k v m ≡ m
unfolding default_field
default_field_set k v m h = ground (arith, h)

with_ports_set :
    (http https : ℤ) (app : Fields)
    → IsFound (get_field (codes "http_port") app)
    → IsFound (get_field (codes "https_port") app)
    → with_ports http https app ≡ app
unfolding with_ports
with_ports_set http https app h k =
    ap (default_field (codes "https_port") (number https))
      (default_field_set (codes "http_port") (number http) app h)
    ∙ default_field_set (codes "https_port") (number https) app k

first_of-IsFound : (o : Option Json) (v : Json) → IsFound (first_of o (some v))
first_of-IsFound none v = tt
first_of-IsFound (some w) v = tt

get_field-default_field :
    (j k : Str) (v : Json) (m : Fields)
    → get_field j (default_field k v m) ≡ first_of (get_field j m) (if j == k then some v else none)
unfolding default_field
get_field-default_field j k v m = ground (arith, get_field-set_field j k v m)

sub_object-set_field : (k : Str) (n m : Fields) → sub_object k (set_field k (object n) m) ≡ n
unfolding sub_object as_object or_no_fields
sub_object-set_field k n m = ground (arith, get_field-set_field k k (object n) m)

get_field-with_ports :
    (key : Str) (http https : ℤ) (app : Fields)
    → get_field key (with_ports http https app)
      ≡ first_of (get_field key app) (default_port http https key)
unfolding with_ports
get_field-with_ports key http https app = ground (
  arith,
  get_field-default_field key (codes "https_port") (number https)
      (default_field (codes "http_port") (number http) app),
  get_field-default_field key (codes "http_port") (number http) app,
)

-- A configuration that has the ports is left as it is.
ports_injected_set :
    (http https : ℤ) (cfg app apps : Fields)
    → with_ports http https (http_app cfg) ≡ app
    → sub_object (codes "apps") cfg ≡ apps
    → get_field (codes "http") apps ≡ some (object app)
    → get_field (codes "apps") cfg ≡ some (object apps)
    → ports_injected http https cfg ≡ cfg
unfolding ports_injected
ports_injected_set http https cfg app apps e f h k =
    rw (e, f, set_field_same (codes "http") (object app) apps h)
      (set_field_same (codes "apps") (object apps) cfg k)

module _ (http https : ℤ) (cfg : Fields) where
  sub_object-ports_injected :
      sub_object (codes "apps") (ports_injected http https cfg)
      ≡ set_field
          (codes "http")
          (object (with_ports http https (http_app cfg)))
          (sub_object (codes "apps") cfg)
  unfolding ports_injected
  sub_object-ports_injected = sub_object-set_field (codes "apps") _ cfg

  http_app-ports_injected :
      http_app (ports_injected http https cfg) ≡ with_ports http https (http_app cfg)
  unfolding http_app
  http_app-ports_injected =
      ap (sub_object (codes "http")) sub_object-ports_injected
      ∙ sub_object-set_field (codes "http") _ (sub_object (codes "apps") cfg)

  -- The configuration with the ports has, in its http app, the ports that the user's configuration
  -- sets there and the given ports where it sets none. Every other setting of the app, every other
  -- app and everything else is what it was.
  pub get_field-ports_injected :
      (key : Str)
      → (get_field key (http_app (ports_injected http https cfg))
          ≡ first_of (get_field key (http_app cfg)) (default_port http https key))
        × (get_field key (sub_object (codes "apps") (ports_injected http https cfg)) ≡ (
            if key == codes "http"
            then some (object (http_app (ports_injected http https cfg)))
            else get_field key (sub_object (codes "apps") cfg)))
        × (get_field key (ports_injected http https cfg) ≡ (
            if key == codes "apps"
            then some (object (sub_object (codes "apps") (ports_injected http https cfg)))
            else get_field key cfg))
  get_field-ports_injected key = (
    ap (get_field key) http_app-ports_injected ∙ get_field-with_ports key http https (http_app cfg),
    rw (http_app-ports_injected, sub_object-ports_injected)
        (get_field-set_field key (codes "http") (object (with_ports http https (http_app cfg)))
          (sub_object (codes "apps") cfg)),
    rw sub_object-ports_injected
        (unfold ports_injected in get_field-set_field key (codes "apps") _ cfg),
  )

  http_port-IsFound : IsFound (get_field (codes "http_port") (with_ports http https (http_app cfg)))
  unfolding nat_dec list_dec
  http_port-IsFound =
      subst IsFound (sym (get_field-with_ports (codes "http_port") http https (http_app cfg)))
        (first_of-IsFound (get_field (codes "http_port") (http_app cfg)) (number http))

  https_port-IsFound :
      IsFound (get_field (codes "https_port") (with_ports http https (http_app cfg)))
  unfolding nat_dec list_dec
  https_port-IsFound =
      subst IsFound (sym (get_field-with_ports (codes "https_port") http https (http_app cfg)))
        (first_of-IsFound (get_field (codes "https_port") (http_app cfg)) (number https))

  get_apps :
      get_field (codes "apps") (ports_injected http https cfg)
      ≡ some (
          object (
            set_field
              (codes "http")
              (object (with_ports http https (http_app cfg)))
              (sub_object (codes "apps") cfg)))
  unfolding ports_injected
  get_apps = get_field-set_field_self (codes "apps") _ cfg

  -- Putting ports in a second time changes nothing, whichever ports they are.
  pub ports_injected_twice :
      (http' https' : ℤ)
      → ports_injected http' https' (ports_injected http https cfg) ≡ ports_injected http https cfg
  ports_injected_twice http' https' =
      ports_injected_set http' https' (ports_injected http https cfg)
        (with_ports http https (http_app cfg))
        (sub_object (codes "apps") (ports_injected http https cfg))
        (ap (with_ports http' https') http_app-ports_injected
          ∙ with_ports_set http' https' (with_ports http https (http_app cfg)) http_port-IsFound
              https_port-IsFound)
        refl
        (ap (get_field (codes "http")) sub_object-ports_injected
          ∙ get_field-set_field_self (codes "http") (object (with_ports http https (http_app cfg)))
              (sub_object (codes "apps") cfg))
        (get_apps ∙ ap (λ m. some (object m)) (sym sub_object-ports_injected))
