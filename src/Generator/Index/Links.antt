-- ===== src/Generator/Index/Links.antt =====
-- The links of the page of generator/index.go, and the domains that `DomainTargets` of
-- generator/generator.go proxies.
use caddy_dev_local.Base.{◌≡◌, true, list_eq, nat_eq, ◌⊎◌}
use caddy_dev_local.Str.{Str}
use caddy_dev_local.Config.{Config}
use caddy_dev_local.Generator.{ContainerInfo, not_empty}

-- A selected port is one of some port.
abbrev pub HasPorts : ContainerInfo → Type 0
HasPorts info = (info.selected_port ≡ 0) ⊎ (not_empty info.ports ≡ true)
