-- ===== src/Cmd/Clean.antt =====
-- `cleanFunc` of cmd.go, and cmd/devlocal-hosts/main.go: the commands that touch only the hosts file.
-- What the packages of flags and of Docker answer is an argument. A command that runs on watches
-- Docker until it is stopped.
use caddy_dev_local.Base.{
  ℕ, Bool, true, false, Option, none, some, List, [], ◌∷◌, ◌==◌, nat_eq, list_eq, not,
  if◌then◌else◌,
}
use caddy_dev_local.Base.Int.{ℤ}
use caddy_dev_local.Str.{Str, codes}
use caddy_dev_local.Config.{Config, Stat}
use caddy_dev_local.Config.Flags.{FlagSet, register_shared_flags, resolve}
use caddy_dev_local.Docker.{Summary}
use caddy_dev_local.Generator.{Containers}
use caddy_dev_local.Generator.Domains.{domains}
use caddy_dev_local.Generator.Refresh.{Refreshed, panicked, list_error, refreshed, refresh}
use caddy_dev_local.Hosts
use caddy_dev_local.Hosts.{
  Disk, done, read_error, write_error, rename_error, sync_to_file, remove_from_file,
}

-- How a command ends or goes on.
pub data Ended : Type 0 where
  exited : ℕ → Disk → Ended
  watching : Config → Containers → Disk → Ended
  crashed : Disk → Ended

unfoldable pub is_done : Hosts.Status → Bool
is_done done = true
is_done read_error = false
is_done write_error = false
is_done rename_error = false

unfoldable pub clean_exit : Hosts.Status × Disk → Ended
unfolding is_done
clean_exit (s, d) = exited (if is_done s then 0 else 1) d

-- `cleanFunc`, and the command `clean` of devlocal-hosts
unfoldable pub clean : Hosts.Faults → Disk → Ended
unfolding clean_exit
clean f d = clean_exit (remove_from_file f d)

-- What `fs.Parse` returns.
pub data Parsed (FS : Type 0) : Type 0 where
  help parse_error : Parsed FS
  parsed : FS → Parsed FS

-- What the command meets.
pub record Surroundings : Type 0 where
  pub env : Str → Str
  pub parse_duration : Str → Option ℤ
  pub dockerenv : Stat
  pub can_write : Bool
  pub docker_ok : Bool
  pub now : ℕ
  pub hostname : Str
  pub answer : Option (List Summary)
  pub faults : Hosts.Faults

-- `apply`: the lock makes it wait for another one, so it is always made.
unfoldable pub apply_hosts : Hosts.Faults → Config → Containers → Disk → Disk
apply_hosts f cfg m d = (sync_to_file f cfg.tld (domains cfg m) d).1

-- From the first refresh on; an error of it is logged only.
unfoldable pub after_first_refresh : Hosts.Faults → Config → Refreshed → Disk → Ended
after_first_refresh f cfg panicked d = crashed d
after_first_refresh f cfg (list_error m) d = watching cfg m (apply_hosts f cfg m d)
after_first_refresh f cfg (refreshed m) d = watching cfg m (apply_hosts f cfg m d)

-- From the settings on.
unfoldable pub run_with : Surroundings → Config → Disk → Ended
run_with s cfg d =
    if not s.can_write
    then exited 1 d
    else if not s.docker_ok
    then exited 1 d
    else after_first_refresh s.faults cfg (refresh cfg s.now s.hostname s.answer []) d

module _ {FS : Type 0} (flags : FlagSet FS) (parse : List Str → FS → Parsed FS) where
  unfoldable pub run_parsed : Surroundings → Parsed FS → Disk → Ended
  run_parsed s help d = exited 0 d
  run_parsed s parse_error d = exited 1 d
  run_parsed s (parsed fs) d =
      run_with s
        (record (resolve flags s.env s.parse_duration s.dockerenv fs) { hosts_file = true }) d

  unfoldable pub run_registered : Surroundings → List Str → Option FS → Disk → Ended
  run_registered s args none d = crashed d
  run_registered s args (some fs) d = run_parsed s (parse args fs) d

  -- `run`, on a new flag set
  unfoldable pub run : Surroundings → List Str → FS → Disk → Ended
  run s args fs d = run_registered s args (register_shared_flags flags s.parse_duration fs) d

  -- `main`, on the arguments behind the name of the program
  unfoldable pub main : Surroundings → List Str → FS → Disk → Ended
  main s [] fs d = run s [] fs d
  main s (arg ∷ args) fs d =
      if arg == codes "clean" then clean s.faults d else run s (arg ∷ args) fs d
