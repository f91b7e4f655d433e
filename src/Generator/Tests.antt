-- ===== src/Generator/Tests.antt =====
-- The theorems on generator/generator.go at small inputs.
use mathlib.Core.Option.{some-ne-none}
use caddy_dev_local.Base.{
  ◌==◌, ◌≢◌, ℕ, ◌≡◌, ◌≢◌, refl, Bool, true, false, Option, none, some, List, [], ◌∷◌, All, nat_eq,
  list_eq, leb, contains,
}
use caddy_dev_local.Base.Int.{pos}
use caddy_dev_local.Base.Dict.{Dict, lookup, NodupKeys}
use caddy_dev_local.Str.{Str, codes}
use caddy_dev_local.Config.{FlagOverrides}
use caddy_dev_local.Docker.{Summary, Port, container_name}
use caddy_dev_local.Generator.{ContainerInfo, Containers, TargetKind}
use caddy_dev_local.Generator.Samples.{cfg, web, old, known, served}
use caddy_dev_local.Generator.Build.{SelfInfo, discover_self, extract_ports, published}
use caddy_dev_local.Generator.Refresh.{refreshed, refresh_locked, stale_cleanup}
use caddy_dev_local.Generator.Refresh.Laws.{DistinctIds, IsNamed, listed, entry_after}
use caddy_dev_local.Generator.Refresh.Map.{refresh_locked-map}
use caddy_dev_local.Generator.Refresh.Safety.{IsServed, running_entry-IsServed}
use caddy_dev_local.Generator.Select.{probe_http_port, refresh_and_select}
use caddy_dev_local.Generator.Select.Safety.{IsProbed, refresh_and_select-IsProbed}

web-IsNamed : All IsNamed (web ∷ [])
unfolding container_name
web-IsNamed = (some-ne-none _, tt)

web-DistinctIds : DistinctIds (web ∷ [])
web-DistinctIds = (refl, tt)

known-NodupKeys : NodupKeys known
unfolding lookup
known-NodupKeys = (refl, tt)

refresh_locked-map_example :
    (self : SelfInfo) × (m' : Containers) × (discover_self [] (web ∷ []) ≡ some self)
    × (refresh_locked cfg 100 [] (web ∷ []) known ≡ some m')
    × NodupKeys m'
    × ((id : Str)
        → lookup id m'
          ≡ entry_after cfg 100 self (listed cfg 100 self id (web ∷ [])) (lookup id known))
refresh_locked-map_example =
    refresh_locked-map cfg 100 [] (web ∷ []) known web-IsNamed web-DistinctIds known-NodupKeys

abbrev refreshed_map : Containers
refreshed_map = (codes "o1", old) ∷ (codes "w1", served) ∷ []

refresh_known : refresh_locked cfg 100 [] (web ∷ []) known ≡ some refreshed_map
unfolding refresh_locked discover_self caddy_dev_local.Generator.Refresh.refresh_from
    caddy_dev_local.Generator.Refresh.refresh_loop caddy_dev_local.Generator.Refresh.refresh_one
    caddy_dev_local.Generator.Refresh.passed_over caddy_dev_local.Generator.Build.should_skip
    caddy_dev_local.Generator.Build.build_container_info container_name
    caddy_dev_local.Base.Dict.keep_if caddy_dev_local.Generator.Refresh.absorb
    caddy_dev_local.Base.Dict.insert caddy_dev_local.Generator.Build.built
    caddy_dev_local.Generator.Refresh.survives caddy_dev_local.Generator.is_expired
    caddy_dev_local.Generator.Refresh.with_state caddy_dev_local.Generator.Custom.parse_label
    caddy_dev_local.Generator.Custom.parse_custom_domains caddy_dev_local.Docker.get_label
refresh_known = refl

served_is_held : lookup (codes "w1") refreshed_map ≡ some served
unfolding lookup caddy_dev_local.Base.list_dec caddy_dev_local.Base.nat_dec
served_is_held = refl

running_entry-IsServed_example : IsServed cfg 100 (web ∷ []) (codes "w1")
running_entry-IsServed_example =
    running_entry-IsServed cfg 100 [] (web ∷ []) known refreshed_map (codes "w1") served web-IsNamed
      web-DistinctIds known-NodupKeys refresh_known served_is_held refl

abbrev two_ports : Summary
two_ports = record web {
  ports =
      record { private_port = 90; public_port = 0 }
      ∷ record { private_port = 80; public_port = 8080 }
      ∷ record { private_port = 80; public_port = 8081 }
      ∷ [];
}

abbrev no_ports : Dict ℕ ℕ
no_ports = []

abbrev tld_only : FlagOverrides
tld_only = record {
  tld = some (codes "x");
  stale_ttl = none;
  probe_timeout = none;
  hosts_file = some false;
  tracing = none;
  poll_interval = none;
}

abbrev ttl_only : FlagOverrides
ttl_only = record tld_only { tld = some (codes "y"); stale_ttl = some (pos 2); hosts_file = none }

-- Something responds at port 8080 of every host.
abbrev responds : Str → ℕ → Bool
responds host port = port == 8080

refresh_and_select-IsProbed_example :
    (m' : Containers) × (refresh_and_select cfg
        (probe_http_port responds)
        100
        []
        (some (web ∷ []))
        known
      ≡ refreshed m')
    × ((id : Str) (info : ContainerInfo)
        → lookup id m' ≡ some info
        → info.is_running ≡ true
        → info.selected_port ≢ 0
        → IsProbed cfg 100 responds info)
refresh_and_select-IsProbed_example =
    refresh_and_select-IsProbed cfg 100 responds [] (web ∷ []) known web-IsNamed web-DistinctIds
      known-NodupKeys
