-- ===== src/Generator/Select/Tests.antt =====
-- The theorems on the probe and the selection of ports at a container.
use caddy_dev_local.Base.{
  ℕ, ◌≡◌, refl, Bool, true, false, Option, none, some, List, [], ◌∷◌, contains, arith, nat_eq,
  list_eq, ◌==◌,
}
use caddy_dev_local.Str.{Str, codes}
use caddy_dev_local.Generator.{ContainerInfo, Containers}
use caddy_dev_local.Generator.Samples.{cfg, served}
use caddy_dev_local.Generator.Select.{
  common_http_ports, probe_http_port, select_one, select_ports_locked,
}
use caddy_dev_local.Generator.Select.Laws.{IsSelection, select_one-IsSelection}

-- Something responds at the ports 3000 and 8080 of every host.
abbrev responds : Str → ℕ → Bool
responds host port = contains (3000 ∷ 8080 ∷ []) port

abbrev ports : List ℕ
ports = 3000 ∷ 8080 ∷ 9 ∷ []

probed : probe_http_port responds (codes "h") ports ≡ some 8080
unfolding probe_http_port caddy_dev_local.Generator.Select.first_responding
    caddy_dev_local.Generator.Select.prefer_ports caddy_dev_local.Generator.Select.kept_of
    caddy_dev_local.Base.nat_dec
probed = refl

common_is_listed : contains ports 8080 ≡ true
common_is_listed = ground arith

is_common : contains common_http_ports 8080 ≡ true
is_common = ground arith

common_responds : responds (codes "h") 8080 ≡ true
common_responds = ground arith

select_one-IsSelection_example :
    IsSelection cfg responds served (select_one cfg (probe_http_port responds) served)
select_one-IsSelection_example = select_one-IsSelection cfg responds served
