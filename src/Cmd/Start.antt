-- ===== src/Cmd/Start.antt =====
-- `cmdFunc` of cmd.go: from the flags to the first state that is applied.
mod Tests
use caddy_dev_local.Base.{
  ℕ, Bool, true, false, Option, none, some, List, [], ◌∷◌, not, if◌then◌else◌,
}
use caddy_dev_local.Base.Int.{ℤ}
use caddy_dev_local.Str.{Str, codes}
use caddy_dev_local.Config.{Config, Stat, default_config}
use caddy_dev_local.Config.Flags.{FlagSet, resolve_standalone}
use caddy_dev_local.Docker.{Summary}
use caddy_dev_local.Generator.{Containers}
use caddy_dev_local.Generator.Domains.{domain_targets}
use caddy_dev_local.Generator.Refresh.{Refreshed, panicked, list_error, refreshed}
use caddy_dev_local.Generator.Select.{refresh_and_select}
use caddy_dev_local.Discovery.{Status}
use caddy_dev_local.Caddy.{Api}
use caddy_dev_local.Caddy.Startup.{
  Tools, Started, init_failed, init_done, init_panicked, init_caddy_config,
}
use caddy_dev_local.Cmd.{
  Env, App, Weather, apply_command_flags, state_fingerprint, state_page, sync_hosts,
}
use caddy_dev_local.Cmd.Adapter.{config_path}
use caddy_dev_local.Hosts
use caddy_dev_local.Hosts.{Disk}

-- What the command meets.
pub record Around : Type 0 where
  pub env : Str → Str
  pub parse_duration : Str → Option ℤ
  pub dockerenv : Stat
  pub is_file : Str → Bool
  pub can_write : Bool
  pub docker_ok : Bool
  pub cache_dir_ok : Bool
  pub mkdir_ok : Bool
  pub hostname : Str
  pub answer : Option (List Summary)
  pub probe : Str → List ℕ → Option ℕ
  pub tools : Tools
  pub weather : Weather

-- An exit with code 1, a panic, or a program that runs.
pub data Launched : Type 0 where
  exited crashed : Launched
  runs : Config → Bool → App → Launched

abbrev pub no_status : Status
no_status = record { last_error = []; last_error_at = none; last_refresh = none }

-- `hostsOK`
unfoldable pub hosts_writable : Config → Bool → Bool
hosts_writable cfg can_write = if cfg.hosts_file then can_write else true

module _ (e : Env) (a : Around) where
  -- From `initCaddyConfig` on; an error of the hosts file is logged only.
  unfoldable pub after_init : Config → Containers → Disk → Started → Launched
  after_init cfg m d init_panicked = crashed
  after_init cfg m d (init_failed api) = exited
  after_init cfg m d (init_done api) = runs cfg (hosts_writable cfg a.can_write) (record {
    containers = m;
    status = no_status;
    api = api;
    busy = false;
    disk = (sync_hosts e cfg a.weather.hosts_faults (hosts_writable cfg a.can_write) m d).1;
  })

  unfoldable pub init_state : Config → Str → Containers → Api → Started
  init_state cfg path m api =
      init_caddy_config e.server e.codec e.marshal a.tools (state_page e cfg a.weather m no_status)
        (state_fingerprint e cfg m no_status) path cfg.tld e.index_dir (domain_targets cfg m)
        cfg.tracing api

  -- From the first refresh on; an error of it is logged only.
  unfoldable pub after_refresh : Config → Str → Api → Disk → Refreshed → Launched
  after_refresh cfg path api d panicked = crashed
  after_refresh cfg path api d (list_error m) = after_init cfg m d (init_state cfg path m api)
  after_refresh cfg path api d (refreshed m) = after_init cfg m d (init_state cfg path m api)

  -- From the settings on.
  unfoldable pub launch : Config → Str → Api → Disk → Launched
  launch cfg path api d =
      if not a.docker_ok
      then exited
      else if not a.cache_dir_ok
      then exited
      else if not a.mkdir_ok
      then exited
      else after_refresh cfg path api d
          (refresh_and_select cfg a.probe a.weather.now a.hostname a.answer [])

  module _ {FS : Type 0} (flags : FlagSet FS) (get_bool : FS → Str → Bool) where
    unfoldable pub command_config : FS → Config
    command_config fs =
        resolve_standalone a.dockerenv
          (apply_command_flags flags get_bool fs (default_config a.env a.parse_duration))

    -- `cmdFunc`, on a new admin API
    unfoldable pub cmd_func : FS → Api → Disk → Launched
    cmd_func fs api d =
        launch (command_config fs)
          (config_path (flags.get_string fs (codes "config")) (a.env (codes "DEVLOCAL_CONFIG"))
            a.is_file)
          api d
