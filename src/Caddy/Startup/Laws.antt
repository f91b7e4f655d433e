-- ===== src/Caddy/Startup/Laws.antt =====
-- What `initCaddyConfig` of caddy.go leaves when it succeeds.
use mathlib.Core.Path.{subst}
use caddy_dev_local.Base.{
  ◌≡◌, refl, Bool, true, false, Option, none, some, List, Bool-cases, inl, inr,
}
use caddy_dev_local.Base.Dict.{Dict}
use caddy_dev_local.Str.{Str}
use caddy_dev_local.Builder.{Json, DevlocalConfig, build_devlocal_config}
use caddy_dev_local.Admin.{Server, Codec, Log, Outcome, and_then, ensure_server, post_route}
use caddy_dev_local.Admin.Reconcile.{Known, remember, send_all, reconcile_devlocal}
use caddy_dev_local.Caddy.{Api, Page, publish}
use caddy_dev_local.Caddy.Files.{Store}
use caddy_dev_local.Caddy.UserConfig.{
  Ports, Injected, codec_error, nil_map, injected, inject_listen_ports,
}
use caddy_dev_local.Caddy.Startup.{
  Tools, Started, init_failed, init_done, init_panicked, user_config, reconcile_after,
  post_devlocal_via_api, settle_init, finish_init, load_and_post, init_with, init_from,
  init_caddy_config,
}

abbrev pub known_of : DevlocalConfig → Known
known_of devlocal = record { routes = devlocal.routes; policies = devlocal.policies }

-- A reconciliation that succeeds knows the configuration.
abbrev pub Knows : DevlocalConfig → Bool × (Known × Log) → Type 0
Knows devlocal (false, (known, log)) = Unit
Knows devlocal (true, (known, log)) = known ≡ known_of devlocal

-- The fingerprint is set, and what is known is a configuration that was built.
abbrev pub Settled : Str → Option DevlocalConfig → Api → Type 0
Settled fp built api =
    (api.fingerprint ≡ fp)
    × ((devlocal : DevlocalConfig) × (built ≡ some devlocal) × (api.known ≡ known_of devlocal))

abbrev Settles : Str → Option DevlocalConfig → Started → Type 0
Settles fp built (init_failed api) = Unit
Settles fp built init_panicked = Unit
Settles fp built (init_done api) = Settled fp built api

module _ (server : Server) (codec : Codec) where
  pub remember-Knows :
      (devlocal : DevlocalConfig) (known : Known) (o : Outcome Unit)
      → Knows devlocal (remember server codec devlocal.routes devlocal.policies known o)
  unfolding remember
  remember-Knows devlocal known (none, log) = tt
  remember-Knows devlocal known (some u, log) = refl

  reconcile_after-Knows :
      (known : Known) (devlocal : DevlocalConfig) (o : Outcome Unit)
      → Knows devlocal (reconcile_after server codec known devlocal o)
  unfolding reconcile_after reconcile_devlocal
  reconcile_after-Knows known devlocal (none, log) = tt
  reconcile_after-Knows known devlocal (some u, log) =
      remember-Knows devlocal known
        (send_all server codec known devlocal.routes devlocal.policies log)

  settle_init-Settles :
      (page : Page) (fp : Str) (devlocal : DevlocalConfig) (api : Api) (o : Bool × (Log × Store))
      → api.known ≡ known_of devlocal
      → Settles fp (some devlocal) (settle_init server codec page fp devlocal api o)
  unfolding settle_init
  settle_init-Settles page fp devlocal api (false, (log, st)) k = tt
  settle_init-Settles page fp devlocal api (true, (log, st)) k = (refl, (devlocal, refl, k))

  finish_init-Settles :
      (page : Page) (fp : Str) (devlocal : DevlocalConfig) (api : Api) (o : Bool × (Known × Log))
      → Knows devlocal o
      → Settles fp (some devlocal) (finish_init server codec page fp devlocal api o)
  unfolding finish_init
  finish_init-Settles page fp devlocal api (false, (known, log)) k = tt
  finish_init-Settles page fp devlocal api (true, (known, log)) k =
      settle_init-Settles page fp devlocal (record api { known = known; log = log })
        (publish server codec page fp log api.store) k

  load_and_post-Settles :
      (tools : Tools) (page : Page) (fp user_json : Str) (devlocal : DevlocalConfig) (api : Api)
      → Settles fp (some devlocal) (load_and_post server codec tools page fp user_json devlocal api)
  unfolding load_and_post post_devlocal_via_api
  load_and_post-Settles tools page fp user_json devlocal api =
      elim (Bool-cases (tools.load user_json)) [
        | inl e ↦ rw e (
            finish_init-Settles page fp devlocal api
              (post_devlocal_via_api server codec devlocal api.known api.log)
              (reconcile_after-Knows api.known devlocal (
                and_then (ensure_server server codec api.log)
                  (λ _ log'. post_route server devlocal.index_route log'))))
        | inr e ↦ rw e tt
      ]

  init_with-Settles :
      (tools : Tools) (page : Page) (fp : Str) (o : Option DevlocalConfig) (api : Api)
      (i : Injected)
      → Settles fp o (init_with server codec tools page fp o api i)
  unfolding init_with
  init_with-Settles tools page fp o api codec_error = tt
  init_with-Settles tools page fp o api nil_map = tt
  init_with-Settles tools page fp none api (injected user_json) = tt
  init_with-Settles tools page fp (some devlocal) api (injected user_json) =
      load_and_post-Settles tools page fp user_json devlocal api

  init_from-Settles :
      (tools : Tools) (page : Page) (fp : Str) (o : Option DevlocalConfig) (api : Api)
      (u : Option (Str × Ports))
      → Settles fp o (init_from server codec tools page fp o api u)
  unfolding init_from
  init_from-Settles tools page fp o api none = tt
  init_from-Settles tools page fp o api (some (user_json, ports)) =
      init_with-Settles tools page fp o api
        (inject_listen_ports tools.decode tools.encode user_json ports.http ports.https)

  -- After a start that succeeds, the fingerprint is that of the state, and the routes and the policy
  -- that the API is known to have are those that are built for the domains.
  pub init_caddy_config-Settled :
      (marshal : Json → Option Str) (tools : Tools) (page : Page) (fp user_path tld index_dir : Str)
      (targets : Dict Str (List Str)) (tracing : Bool) (api api' : Api)
      → init_caddy_config server codec marshal tools page fp user_path tld index_dir targets tracing
          api
        ≡ init_done api'
      → Settled fp (build_devlocal_config marshal tld index_dir targets tracing) api'
  unfolding init_caddy_config
  init_caddy_config-Settled marshal tools page fp user_path tld index_dir targets tracing api api'
        e =
      subst (Settles fp (build_devlocal_config marshal tld index_dir targets tracing)) e (
        init_from-Settles tools page fp
          (build_devlocal_config marshal tld index_dir targets tracing) api
          (user_config tools user_path))
