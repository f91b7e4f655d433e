-- ===== src/Caddy/Startup/Sent.antt =====
-- The routes that `initCaddyConfig` of caddy.go has sent when it succeeds.
use mathlib.Core.Path.{subst}
use mathlib.Core.Option.{some-injective}
use caddy_dev_local.Base.{
  ℕ, arith, ◌≡◌, refl, sym, ◌∙◌, true, false, Option, none, some, List, [], Bool, Bool-cases, inl,
  inr, nat_eq, list_eq,
}
use caddy_dev_local.Base.Dict.{Dict, lookup}
use caddy_dev_local.Str.{Str, codes}
use caddy_dev_local.Builder.{Json, DevlocalConfig, build_devlocal_config}
use caddy_dev_local.Admin.{
  Server, Codec, Log, Outcome, get, do_request, and_then, get_config, ensure_server, post_route,
}
use caddy_dev_local.Admin.Reconcile.{Known, remember, send_all, reconcile_devlocal}
use caddy_dev_local.Admin.Sent.{IsSent, Adds, Keeps-do_request}
use caddy_dev_local.Admin.Sent.Patches.{Adds-send_all}
use caddy_dev_local.Caddy.{Api, Page, write_page, publish}
use caddy_dev_local.Caddy.Files.{Store, indented, running_config, fetch_running_config}
use caddy_dev_local.Caddy.UserConfig.{
  Ports, Injected, codec_error, nil_map, injected, inject_listen_ports,
}
use caddy_dev_local.Caddy.Startup.{
  Tools, Started, init_failed, init_done, init_panicked, user_config, reconcile_after,
  post_devlocal_via_api, settle_init, finish_init, load_and_post, init_with, init_from,
  init_caddy_config,
}

module _ (server : Server) where
  -- Each route of the configuration is among the requests, and the server accepted it.
  abbrev pub AllSent : DevlocalConfig → Log → Type 0
  AllSent devlocal log =
      (id obj : Str) → lookup id devlocal.routes ≡ some obj → IsSent server obj log

  abbrev SentAfter : DevlocalConfig → Bool × (Known × Log) → Type 0
  SentAfter devlocal (false, (known, log)) = Unit
  SentAfter devlocal (true, (known, log)) = AllSent devlocal log

  abbrev StartsSent : Option DevlocalConfig → Started → Type 0
  StartsSent built (init_failed api) = Unit
  StartsSent built init_panicked = Unit
  StartsSent built (init_done api) =
      (devlocal : DevlocalConfig) → built ≡ some devlocal → AllSent devlocal api.log

  module _ (codec : Codec) where
    remember-Sent :
        (devlocal : DevlocalConfig) (known : Known) (o : Outcome Unit)
        → ((id obj : Str) → lookup id devlocal.routes ≡ some obj → Adds server obj o)
        → SentAfter devlocal (remember server codec devlocal.routes devlocal.policies known o)
    unfolding remember
    remember-Sent devlocal known (none, log) h = tt
    remember-Sent devlocal known (some u, log) h = h

    reconcile_after-Sent :
        (known : Known) (devlocal : DevlocalConfig) (o : Outcome Unit)
        → known.routes ≡ []
        → SentAfter devlocal (reconcile_after server codec known devlocal o)
    unfolding reconcile_after reconcile_devlocal
    reconcile_after-Sent known devlocal (none, log) new = tt
    reconcile_after-Sent known devlocal (some u, log) new =
        remember-Sent devlocal known
          (send_all server codec known devlocal.routes devlocal.policies log)
          (λ id obj e.
            Adds-send_all server obj devlocal.routes id e codec known devlocal.policies log new)

    indented-log :
        (o : Option Str) (body : Str) (log : Log) (st : Store) → (indented o body log st).1.0 ≡ log
    unfolding indented
    indented-log none body log st = refl
    indented-log (some s) body log st = refl

    running_config-log :
        (indent : Str → Option Str) (o : Outcome (ℕ × Str)) (st : Store)
        → (running_config indent o st).1.0 ≡ o.1
    unfolding running_config
    running_config-log indent (none, log) st = refl
    running_config-log indent (some (status, body), log) st =
        ground (arith, indented-log (indent body) body log st)

    write_page-log :
        (page : Page) (fp : Str) (o : Str × (Log × Store))
        → (write_page server codec page fp o).1.0 ≡ o.1.0
    unfolding write_page
    write_page-log page fp (config, (log, st)) = refl

    -- The page is made with a GET of the configuration, which keeps what was sent.
    publish-Keeps :
        (obj : Str) (page : Page) (fp : Str) (log : Log) (st : Store)
        → IsSent server obj log
        → IsSent server obj (publish server codec page fp log st).1.0
    unfolding publish fetch_running_config get_config
    publish-Keeps obj page fp log st s =
        subst (IsSent server obj)
          (sym (
            write_page-log page fp _
            ∙ running_config-log page.indent (do_request server get (codes "/config/") none log)
                st))
          (Keeps-do_request server obj get (codes "/config/") none log s)

    settle_init-Sent :
        (page : Page) (fp : Str) (devlocal : DevlocalConfig) (api : Api) (o : Bool × (Log × Store))
        → AllSent devlocal o.1.0
        → StartsSent (some devlocal) (settle_init server codec page fp devlocal api o)
    unfolding settle_init
    settle_init-Sent page fp devlocal api (false, (log, st)) s = tt
    settle_init-Sent page fp devlocal api (true, (log, st)) s =
        λ c e. subst (λ c'. AllSent c' log) (some-injective devlocal c e) s

    finish_init-Sent :
        (page : Page) (fp : Str) (devlocal : DevlocalConfig) (api : Api) (o : Bool × (Known × Log))
        → SentAfter devlocal o
        → StartsSent (some devlocal) (finish_init server codec page fp devlocal api o)
    unfolding finish_init
    finish_init-Sent page fp devlocal api (false, (known, log)) s = tt
    finish_init-Sent page fp devlocal api (true, (known, log)) s =
        settle_init-Sent page fp devlocal (record api { known = known; log = log })
          (publish server codec page fp log api.store)
          (λ id obj e. publish-Keeps obj page fp log api.store (s id obj e))

    load_and_post-Sent :
        (tools : Tools) (page : Page) (fp user_json : Str) (devlocal : DevlocalConfig) (api : Api)
        → api.known.routes ≡ []
        → StartsSent
            (some devlocal)
            (load_and_post server codec tools page fp user_json devlocal api)
    unfolding load_and_post post_devlocal_via_api
    load_and_post-Sent tools page fp user_json devlocal api new =
        elim (Bool-cases (tools.load user_json)) [
          | inl e ↦ rw e (
              finish_init-Sent page fp devlocal api
                (post_devlocal_via_api server codec devlocal api.known api.log)
                (reconcile_after-Sent api.known devlocal
                  (and_then (ensure_server server codec api.log)
                    (λ _ log'. post_route server devlocal.index_route log'))
                  new))
          | inr e ↦ rw e tt
        ]

    init_with-Sent :
        (tools : Tools) (page : Page) (fp : Str) (o : Option DevlocalConfig) (api : Api)
        (i : Injected)
        → api.known.routes ≡ []
        → StartsSent o (init_with server codec tools page fp o api i)
    unfolding init_with
    init_with-Sent tools page fp o api codec_error new = tt
    init_with-Sent tools page fp o api nil_map new = tt
    init_with-Sent tools page fp none api (injected user_json) new = tt
    init_with-Sent tools page fp (some devlocal) api (injected user_json) new =
        load_and_post-Sent tools page fp user_json devlocal api new

    init_from-Sent :
        (tools : Tools) (page : Page) (fp : Str) (o : Option DevlocalConfig) (api : Api)
        (u : Option (Str × Ports))
        → api.known.routes ≡ []
        → StartsSent o (init_from server codec tools page fp o api u)
    unfolding init_from
    init_from-Sent tools page fp o api none new = tt
    init_from-Sent tools page fp o api (some (user_json, ports)) new =
        init_with-Sent tools page fp o api
          (inject_listen_ports tools.decode tools.encode user_json ports.http ports.https) new

    -- After the first start, if it succeeds, each route that is built is sent.
    pub init_caddy_config-Sent :
        (marshal : Json → Option Str) (tools : Tools) (page : Page)
        (fp user_path tld index_dir : Str) (targets : Dict Str (List Str)) (tracing : Bool)
        (api api' : Api)
        → api.known.routes ≡ []
        → init_caddy_config server codec marshal tools page fp user_path tld index_dir targets
            tracing api
          ≡ init_done api'
        → (devlocal : DevlocalConfig)
        → build_devlocal_config marshal tld index_dir targets tracing ≡ some devlocal
        → AllSent devlocal api'.log
    unfolding init_caddy_config
    init_caddy_config-Sent marshal tools page fp user_path tld index_dir targets tracing api api'
          new e =
        subst (StartsSent (build_devlocal_config marshal tld index_dir targets tracing)) e (
          init_from-Sent tools page fp (build_devlocal_config marshal tld index_dir targets tracing)
            api (user_config tools user_path) new)
