-- ===== src/Cmd/HostsOnly.antt =====
-- How the command of cmd/devlocal-hosts/main.go ends, and what it does to the hosts file.
mod Tests
use caddy_dev_local.Base.{◌∷◌, ◌==◌, nat_eq, list_eq, arith, ◌≡◌, Bool, true, false, List, []}
use caddy_dev_local.Str.{Str, codes}
use caddy_dev_local.Config.{Config}
use caddy_dev_local.Generator.Domains.{domains}
use caddy_dev_local.Cmd.Clean.{Ended, exited, watching, crashed, Surroundings}
use caddy_dev_local.Hosts
use caddy_dev_local.Hosts.{Disk, sync_to_file}

-- An end leaves the disk as it was. A command that follows Docker could write the hosts file and reach
-- Docker, manages the hosts file, and has synced it for the containers that it knows.
abbrev Follows : Surroundings → Disk → Ended → Type 0
Follows s d (exited code d') = d' ≡ d
Follows s d (crashed d') = d' ≡ d
Follows s d (watching cfg m d') =
    (s.can_write ≡ true)
    × (s.docker_ok ≡ true)
    × (cfg.hosts_file ≡ true)
    × (d' ≡ (sync_to_file s.faults cfg.tld (domains cfg m) d).1)

-- Where the command ends, the disk is as it was.
abbrev pub Untouched : Disk → Ended → Type 0
Untouched d (exited code d') = d' ≡ d
Untouched d (crashed d') = d' ≡ d
Untouched d (watching cfg m d') = Unit

-- The arguments ask for the removal of the block.
abbrev pub asks_clean : List Str → Bool
asks_clean [] = false
asks_clean (arg ∷ args) = arg == codes "clean"
