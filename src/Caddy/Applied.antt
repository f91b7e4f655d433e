-- ===== src/Caddy/Applied.antt =====
-- What a reload of caddy.go leaves when it applies a configuration.
use mathlib.Core.Path.{subst}
use caddy_dev_local.Base.{
  ◌≡◌, ◌≢◌, refl, sym, Bool, true, false, Option, none, some, List, ◌==◌, ==_iff, nat_eq, list_eq,
  Bool-cases, inl, inr,
}
use caddy_dev_local.Base.Dict.{Dict}
use caddy_dev_local.Str.{Str}
use caddy_dev_local.Builder.{Json, DevlocalConfig, build_devlocal_config}
use caddy_dev_local.Admin.{Server, Codec, Log}
use caddy_dev_local.Admin.Reconcile.{Known, send_all, reconcile_devlocal}
use caddy_dev_local.Caddy.{
  Api, Page, settle_reload, publish, Reloaded, unchanged, failed, applied, finish_reload,
  reload_with, reload_caddy_config,
}
use caddy_dev_local.Caddy.Files.{Store}
use caddy_dev_local.Caddy.Reload.{reload_same, reload_other}
use caddy_dev_local.Caddy.Startup.Laws.{known_of, Knows, Settled, remember-Knows}

-- A reload that fails promises nothing; one that changes nothing leaves the API as it was, with the
-- fingerprint asked for.
abbrev pub Reloads : Str → Option DevlocalConfig → Api → Reloaded × Api → Type 0
Reloads fp built old (unchanged, api) = (api ≡ old) × (old.fingerprint ≡ fp)
Reloads fp built old (failed, api) = Unit
Reloads fp built old (applied, api) = Settled fp built api

module _ (server : Server) (codec : Codec) where
  settle_reload-Reloads :
      (page : Page) (fp : Str) (devlocal : DevlocalConfig) (api old : Api)
      (o : Bool × (Log × Store))
      → api.known ≡ known_of devlocal
      → Reloads fp (some devlocal) old (settle_reload server codec page fp devlocal true api o)
  unfolding settle_reload
  settle_reload-Reloads page fp devlocal api old (false, (log, st)) k = tt
  settle_reload-Reloads page fp devlocal api old (true, (log, st)) k = (refl, (devlocal, refl, k))

  settle_reload-failed :
      (page : Page) (fp : Str) (devlocal : DevlocalConfig) (api old : Api)
      (o : Bool × (Log × Store))
      → Reloads fp (some devlocal) old (settle_reload server codec page fp devlocal false api o)
  unfolding settle_reload
  settle_reload-failed page fp devlocal api old (written, (log, st)) = tt

  finish_reload-Reloads :
      (page : Page) (fp : Str) (devlocal : DevlocalConfig) (api old : Api)
      (o : Bool × (Known × Log))
      → Knows devlocal o
      → Reloads fp (some devlocal) old (finish_reload server codec page fp devlocal api o)
  unfolding finish_reload
  finish_reload-Reloads page fp devlocal api old (false, (known, log)) k =
      settle_reload-failed page fp devlocal (record api { known = known; log = log }) old
        (publish server codec page fp log api.store)
  finish_reload-Reloads page fp devlocal api old (true, (known, log)) k =
      settle_reload-Reloads page fp devlocal (record api { known = known; log = log }) old
        (publish server codec page fp log api.store) k

  reload_with-Reloads :
      (page : Page) (fp : Str) (o : Option DevlocalConfig) (api : Api)
      → Reloads fp o api (reload_with server codec page fp o api)
  unfolding reload_with reconcile_devlocal
  reload_with-Reloads page fp none api = tt
  reload_with-Reloads page fp (some c) api =
      finish_reload-Reloads page fp c api api
        (reconcile_devlocal server codec c.routes c.policies api.known api.log)
        (remember-Knows server codec c api.known
          (send_all server codec api.known c.routes c.policies api.log))

  pub reload-Reloads :
      (marshal : Json → Option Str) (page : Page) (fp tld index_dir : Str)
      (targets : Dict Str (List Str)) (tracing : Bool) (api : Api)
      → Reloads fp
          (build_devlocal_config marshal tld index_dir targets tracing)
          api
          (reload_caddy_config server codec marshal page fp tld index_dir targets tracing api)
  reload-Reloads marshal page fp tld index_dir targets tracing api =
      elim (Bool-cases (api.fingerprint == fp)) [
        | inl e ↦
            let same : api.fingerprint ≡ fp = (==_iff api.fingerprint fp).0 e in
            subst (Reloads fp (build_devlocal_config marshal tld index_dir targets tracing) api)
              (sym
                (reload_same server codec marshal tld index_dir targets tracing page fp api same))
              (refl, same)
        | inr e ↦
            let other : api.fingerprint ≢ fp = λ h. cc (e, (==_iff api.fingerprint fp).1 h) in
            subst (Reloads fp (build_devlocal_config marshal tld index_dir targets tracing) api)
              (sym
                (reload_other server codec marshal tld index_dir targets tracing page fp api other))
              (reload_with-Reloads page fp
                (build_devlocal_config marshal tld index_dir targets tracing) api)
      ]
