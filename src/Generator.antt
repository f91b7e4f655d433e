-- ===== src/Generator.antt =====
-- generator/generator.go: what the generator knows of the containers, and the small functions on it.
pub mod Custom
pub mod Build
pub mod Refresh
pub mod Select
pub mod Domains
pub mod Icons
pub mod Index
pub mod Samples
mod Tests
use caddy_dev_local.Base.{
  ℕ, Bool, true, false, Option, none, some, List, [], ◌∷◌, ◌++◌, ◌==◌, list_eq, nat_eq, list_dec,
  nat_dec, not, ◌&&◌, ◌||◌, ltb, if◌then◌else◌, contains,
}
use caddy_dev_local.Base.Dict.{Dict, lookup}
use caddy_dev_local.Base.Int.{exceeds}
use caddy_dev_local.Str.{Str, codes, format_uint}
use caddy_dev_local.Config.{Config}
use caddy_dev_local.Tld.{localhost_name, localhost_suffix}

pub record CustomDomain : Type 0 where
  pub port : ℕ
  pub domain : Str

pub data TargetKind : Type 0 where
  unreachable dns gateway : TargetKind

-- Points in time are counted in nanoseconds; `none` is the zero time.
pub record ContainerInfo : Type 0 where
  pub container_id : Str
  pub container_name : Str
  pub image : Str
  pub project : Str
  pub service : Str
  pub ip_address : Str
  pub ports : List ℕ
  pub published_ports : Dict ℕ ℕ
  pub selected_port : ℕ
  pub target_kind : TargetKind
  pub gateway_host : Str
  pub is_compose : Bool
  pub is_running : Bool
  pub last_stopped : Option ℕ
  pub created : ℕ
  pub labels : Option (Dict Str Str)
  pub custom_domains : List CustomDomain
  pub health : Str
  pub networks : List Str

-- `g.containers`
abbrev pub Containers : Type 0
Containers = Dict Str ContainerInfo

unfoldable pub not_empty {ℓ} : {A : Type ℓ} → List A → Bool
not_empty [] = false
not_empty (x ∷ xs) = true

unfoldable pub or_private : Option ℕ → ℕ → ℕ
or_private none private = private
or_private (some public) private = public

unfoldable pub effective_port : ContainerInfo → ℕ → ℕ
unfolding or_private lookup nat_dec
effective_port info private = elim info.target_kind [
  | gateway ↦ or_private (lookup private info.published_ports) private
  | unreachable ↦ private
  | dns ↦ private
]

unfoldable pub has_reachable_port : ContainerInfo → Bool
unfolding not_empty
has_reachable_port info =
    if ltb 0 info.selected_port || not_empty info.custom_domains
    then true
    else elim info.target_kind [
      | dns ↦ not_empty info.ports
      | gateway ↦ not_empty info.published_ports
      | unreachable ↦ false
    ]

unfoldable pub host_for : Config → ContainerInfo → Str
host_for cfg info = if cfg.standalone then localhost_name else elim info.target_kind [
  | gateway ↦ info.gateway_host
  | unreachable ↦ info.container_name
  | dns ↦ info.container_name
]

unfoldable pub domain_for_container : Config → ContainerInfo → Str
domain_for_container cfg info =
    if info.is_compose
    then info.project ++ (b'.' ∷ (info.service ++ (b'.' ∷ cfg.tld)))
    else info.container_name ++ (b'.' ∷ cfg.tld)

unfoldable pub domain_for_container_localhost : ContainerInfo → Str
domain_for_container_localhost info =
    if info.is_compose
    then info.project ++ (b'.' ∷ (info.service ++ localhost_suffix))
    else info.container_name ++ localhost_suffix

-- `fmt.Sprintf("%s:%d", host, port)`
unfoldable pub host_port : Str → ℕ → Str
unfolding format_uint
host_port host port = host ++ (b':' ∷ format_uint port)

-- `!info.LastStopped.IsZero() && now.Sub(info.LastStopped) > g.cfg.StaleTTL`
unfoldable pub is_expired : Config → ℕ → ContainerInfo → Bool
is_expired cfg now info = elim info.last_stopped [
  | none ↦ false
  | some stopped ↦ exceeds now stopped cfg.stale_ttl
]
