-- ===== src/Cmd/HostsOnly/Tests.antt =====
-- The command that touches only the hosts file, at one listed container.
use caddy_dev_local.Base.{◌≡◌, refl, true, some, List, [], ◌∷◌, nat_eq, list_eq, nat_dec, list_dec}
use caddy_dev_local.Str.{Str, codes}
use caddy_dev_local.Config.{Config, missing}
use caddy_dev_local.Generator.Samples.{cfg, web}
use caddy_dev_local.Generator.{Containers}
use caddy_dev_local.Cmd.Clean.{
  Ended, Parsed, parsed, Surroundings, main, clean, exited, watching, crashed,
}
use caddy_dev_local.Cmd.Samples.{hosts_faults, flags, zero_only, app}
use caddy_dev_local.Hosts.{Disk}

abbrev parse : List Str → List Str → Parsed (List Str)
parse args fs = parsed fs

abbrev surroundings : Surroundings
surroundings = record {
  env = λ name. [];
  parse_duration = zero_only;
  dockerenv = missing;
  can_write = true;
  docker_ok = true;
  now = 0;
  hostname = codes "h";
  answer = some (web ∷ []);
  faults = hosts_faults;
}

cleans :
    main flags parse surroundings (codes "clean" ∷ []) [] app.disk ≡ clean hosts_faults app.disk
unfolding main nat_dec list_dec
cleans = refl

abbrev end : Ended
end = main flags parse surroundings [] [] app.disk

abbrev settings_of : Ended → Config
settings_of (exited _ _) = cfg
settings_of (watching c _ _) = c
settings_of (crashed _) = cfg

abbrev containers_of : Ended → Containers
containers_of (exited _ _) = []
containers_of (watching _ m _) = m
containers_of (crashed _) = []

abbrev disk_of : Ended → Disk
disk_of (exited _ d) = d
disk_of (watching _ _ d) = d
disk_of (crashed d) = d
