-- ===== src/Cmd/Launch.antt =====
-- The state with which `cmdFunc` of cmd.go starts to follow Docker.
use mathlib.Core.Path.{subst}
use caddy_dev_local.Base.{◌≡◌, refl, ap, ◌∙◌, Bool, true, false, some, [], not, if◌then◌else◌}
use caddy_dev_local.Str.{Str, codes}
use caddy_dev_local.Config.{Config}
use caddy_dev_local.Config.Flags.{FlagSet}
use caddy_dev_local.Generator.{Containers}
use caddy_dev_local.Generator.Refresh.{Refreshed, panicked, list_error, refreshed}
use caddy_dev_local.Generator.Select.{refresh_and_select}
use caddy_dev_local.Generator.Domains.{domain_targets}
use caddy_dev_local.Builder.{DevlocalConfig, build_devlocal_config}
use caddy_dev_local.Caddy.{Api, unchanged}
use caddy_dev_local.Caddy.Reload.{reload_same}
use caddy_dev_local.Caddy.Startup.{Started, init_failed, init_done, init_panicked}
use caddy_dev_local.Caddy.Startup.Sent.{AllSent, init_caddy_config-Sent}
use caddy_dev_local.Caddy.Startup.Laws.{Settled, init_caddy_config-Settled}
use caddy_dev_local.Cmd.{
  Env, App, Weather, state_fingerprint, state_page, reload_state, apply_devlocal,
}
use caddy_dev_local.Cmd.Adapter.{config_path}
use caddy_dev_local.Cmd.Laws.{apply_idle}
use caddy_dev_local.Cmd.Start.{
  Around, Launched, exited, crashed, runs, no_status, init_state, after_init, after_refresh, launch,
  command_config, cmd_func,
}
use caddy_dev_local.Hosts.{Disk}

module _ (e : Env) where
  -- What the client notes as sent is the configuration that is built for the state, under the
  -- fingerprint of the state.
  abbrev pub InStep : Config → App → Type 0
  InStep cfg app =
      Settled (state_fingerprint e cfg app.containers app.status)
        (build_devlocal_config e.marshal cfg.tld e.index_dir (domain_targets cfg app.containers)
          cfg.tracing)
        app.api
      × (app.busy ≡ false)

  -- The server has accepted a POST of each route that is built for the state.
  abbrev pub AreSent : Config → App → Type 0
  AreSent cfg app =
      (devlocal : DevlocalConfig)
      → build_devlocal_config e.marshal cfg.tld e.index_dir (domain_targets cfg app.containers)
          cfg.tracing
        ≡ some devlocal
      → AllSent e.server devlocal app.api.log

  abbrev StartsInStep : Launched → Type 0
  StartsInStep exited = Unit
  StartsInStep crashed = Unit
  StartsInStep (runs cfg hosts_ok app) = InStep cfg app × AreSent cfg app

  exit_unless :
      (b : Bool) (l : Launched) → StartsInStep l → StartsInStep (if not b then exited else l)
  exit_unless true l h = h
  exit_unless false l h = tt

  module _ (a : Around) where
    after_init-StartsInStep :
        (cfg : Config) (path : Str) (m : Containers) (api : Api) (d : Disk) (s : Started)
        → api.known.routes ≡ []
        → init_state e a cfg path m api ≡ s
        → StartsInStep (after_init e a cfg m d s)
    unfolding after_init init_state
    after_init-StartsInStep cfg path m api d (init_failed api') new h = tt
    after_init-StartsInStep cfg path m api d init_panicked new h = tt
    after_init-StartsInStep cfg path m api d (init_done api') new h = (
      (
        init_caddy_config-Settled e.server e.codec e.marshal a.tools
            (state_page e cfg a.weather m no_status) (state_fingerprint e cfg m no_status) path
            cfg.tld e.index_dir (domain_targets cfg m) cfg.tracing api api' h,
        refl,
      ),
      init_caddy_config-Sent e.server e.codec e.marshal a.tools
          (state_page e cfg a.weather m no_status) (state_fingerprint e cfg m no_status) path
          cfg.tld e.index_dir (domain_targets cfg m) cfg.tracing api api' new h,
    )

    after_refresh-StartsInStep :
        (cfg : Config) (path : Str) (api : Api) (d : Disk) (r : Refreshed)
        → api.known.routes ≡ []
        → StartsInStep (after_refresh e a cfg path api d r)
    unfolding after_refresh
    after_refresh-StartsInStep cfg path api d panicked new = tt
    after_refresh-StartsInStep cfg path api d (list_error m) new =
        after_init-StartsInStep cfg path m api d (init_state e a cfg path m api) new refl
    after_refresh-StartsInStep cfg path api d (refreshed m) new =
        after_init-StartsInStep cfg path m api d (init_state e a cfg path m api) new refl

    launch-StartsInStep :
        (cfg : Config) (path : Str) (api : Api) (d : Disk)
        → api.known.routes ≡ []
        → StartsInStep (launch e a cfg path api d)
    unfolding launch
    launch-StartsInStep cfg path api d new = exit_unless a.docker_ok _ (
        exit_unless a.cache_dir_ok _ (
          exit_unless a.mkdir_ok _ (
            after_refresh-StartsInStep cfg path api d
              (refresh_and_select cfg a.probe a.weather.now a.hostname a.answer []) new)))

    module _ {FS : Type 0} (flags : FlagSet FS) (get_bool : FS → Str → Bool) where
      -- Suppose that no route is noted as sent yet. If the command starts to follow Docker, the server
      -- has accepted a POST of each route that is built for the domains of the containers, whatever
      -- the server answers otherwise and whatever the flags, the environment, the user's
      -- configuration and the first answers of Docker are. The client notes the routes and the policy
      -- that are built as sent, and it has the fingerprint of that state.
      pub cmd_func-InStep :
          (fs : FS) (api : Api) (d : Disk) (cfg : Config) (hosts_ok : Bool) (app : App)
          → api.known.routes ≡ []
          → cmd_func e a flags get_bool fs api d ≡ runs cfg hosts_ok app
          → InStep cfg app × AreSent cfg app
      unfolding cmd_func
      cmd_func-InStep fs api d cfg hosts_ok app new h = subst StartsInStep h (
          launch-StartsInStep (command_config e a flags get_bool fs)
            (config_path (flags.get_string fs (codes "config")) (a.env (codes "DEVLOCAL_CONFIG"))
              a.is_file)
            api d new)

  reload-InStep :
      (cfg : Config) (w : Weather) (app : App)
      → InStep cfg app
      → reload_state e cfg w app.containers app.status app.api ≡ (unchanged, app.api)
  unfolding reload_state
  reload-InStep cfg w app h =
      reload_same e.server e.codec e.marshal cfg.tld e.index_dir (domain_targets cfg app.containers)
        cfg.tracing (state_page e cfg w app.containers app.status)
        (state_fingerprint e cfg app.containers app.status) app.api h.0.0

  -- While nothing changes, an application of such a state sends nothing to the API.
  pub apply-InStep :
      (cfg : Config) (w : Weather) (hosts_ok : Bool) (app : App)
      → InStep cfg app
      → (apply_devlocal e cfg w hosts_ok app).api ≡ app.api
  apply-InStep cfg w hosts_ok app h =
      ap (λ x. x.api) (apply_idle e cfg w hosts_ok app h.1)
      ∙ ap (λ r. r.1) (reload-InStep cfg w app h)
