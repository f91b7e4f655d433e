-- ===== src/Cmd.antt =====
-- cmd.go: the command that runs Caddy with the proxy, from its flags to the application of a state.
-- What the parts take as arguments is collected in the record `Env`.
pub mod Adapter
pub mod Start
pub mod Clean
pub mod Laws
pub mod Launch
pub mod HostsOnly
pub mod Turns
mod Samples
mod Tests
use caddy_dev_local.Base.{
  ℕ, Bool, true, false, Option, none, some, List, [], ◌∷◌, not, ◌||◌, if◌then◌else◌, ◌⊎◌,
}
use caddy_dev_local.Base.Dict.{Dict}
use caddy_dev_local.Str.{Str, codes}
use caddy_dev_local.Config.{Config, FlagOverrides, apply_flags}
use caddy_dev_local.Config.Flags.{FlagSet, if_changed, shared_overrides}
use caddy_dev_local.Generator.{ContainerInfo, Containers}
use caddy_dev_local.Generator.Domains.{domain_targets, domains, containers}
use caddy_dev_local.Generator.Index.{IndexData, generate_index_page}
use caddy_dev_local.Discovery.{Status}
use caddy_dev_local.Builder.{Json, DevlocalConfig}
use caddy_dev_local.Admin.{Server, Codec}
use caddy_dev_local.Caddy.{Api, Page, Reloaded, fingerprint_state, reload_caddy_config}
use caddy_dev_local.Caddy.Files.{Faults, unix_or_zero}
use caddy_dev_local.Hosts
use caddy_dev_local.Hosts.{Disk, done, sync_to_file}

module _ {FS : Type 0} (flags : FlagSet FS) (get_bool : FS → Str → Bool) where
  unfoldable pub command_overrides : FS → FlagOverrides
  command_overrides fs = record (shared_overrides flags fs) {
    hosts_file = if_changed flags fs (codes "hosts-file") (get_bool fs (codes "hosts-file"));
    tracing = if_changed flags fs (codes "no-tracing") (not (get_bool fs (codes "no-tracing")));
  }

  unfoldable pub apply_command_flags : FS → Config → Config
  apply_command_flags fs cfg = apply_flags (command_overrides fs) cfg

pub record Env : Type 0 where
  pub server : Server
  pub codec : Codec
  pub marshal : Json → Option Str
  pub hash : Str → Str
  pub encode_containers : List ContainerInfo → Option Str
  pub format_time : ℕ → Str
  pub marshal_labels : Dict Str Str → Option Str
  pub recode : Str → Option Str
  pub execute : IndexData → Str ⊎ Str
  pub indent : Str → Option Str
  pub css : Str
  pub encode_version : Str → ℕ → Option Str
  pub encode_autosave : DevlocalConfig → Option Str
  pub index_dir : Str

-- The state that an application reads and writes. `busy` is the lock `applyMu` of the admin API.
pub record App : Type 0 where
  pub containers : Containers
  pub status : Status
  pub api : Api
  pub busy : Bool
  pub disk : Disk

-- What an application meets: the time, and which calls on files fail.
pub record Weather : Type 0 where
  pub now : ℕ
  pub page_faults : Faults
  pub hosts_faults : Hosts.Faults

module _ (env : Env) (cfg : Config) where
  -- `fingerprintState` of the state
  unfoldable pub state_fingerprint : Containers → Status → Str
  state_fingerprint m st =
      fingerprint_state env.hash env.encode_containers (domain_targets cfg m) (containers cfg m)
        st.last_error

  -- `GenerateIndexPage` of the state, from the running configuration
  unfoldable pub state_page : Weather → Containers → Status → Page
  state_page w m st = record {
    render = λ config.
        generate_index_page env.format_time env.marshal_labels env.recode env.execute cfg.tld
          cfg.standalone (containers cfg m) config st.last_error (unix_or_zero st.last_refresh);
    indent = env.indent;
    css = env.css;
    encode_version = env.encode_version;
    encode_autosave = env.encode_autosave;
    now = w.now;
    faults = w.page_faults;
  }

  unfoldable pub reload_state : Weather → Containers → Status → Api → Reloaded × Api
  reload_state w m st api =
      reload_caddy_config env.server env.codec env.marshal (state_page w m st)
        (state_fingerprint m st) cfg.tld env.index_dir (domain_targets cfg m) cfg.tracing api

  unfoldable pub sync_hosts : Hosts.Faults → Bool → Containers → Disk → Hosts.Status × Disk
  sync_hosts f hosts_ok m d =
      if not cfg.hosts_file || not hosts_ok
      then (done, d)
      else sync_to_file f cfg.tld (domains cfg m) d

  -- `applyDevlocal`: nothing while another application holds the lock. Its errors are logged only.
  unfoldable pub apply_devlocal : Weather → Bool → App → App
  apply_devlocal w hosts_ok app = if app.busy then app else record app {
    api = (reload_state w app.containers app.status app.api).1;
    disk = (sync_hosts w.hosts_faults hosts_ok app.containers app.disk).1;
  }
