-- ===== src/Caddy/Reload.antt =====
-- What a reload of caddy.go leaves for the next one.
use mathlib.Core.Path.{subst}
use caddy_dev_local.Base.{
  ◌≡◌, ◌≢◌, refl, sym, ◌∙◌, Bool, true, false, Option, none, some, List, ◌==◌, ==_iff, nat_eq,
  list_eq, arith, Bool-cases, inl, inr,
}
use caddy_dev_local.Base.Dict.{Dict}
use caddy_dev_local.Str.{Str}
use caddy_dev_local.Builder.{Json, DevlocalConfig, build_devlocal_config}
use caddy_dev_local.Admin.{Server, Codec, Log}
use caddy_dev_local.Admin.Reconcile.{Known, reconcile_devlocal}
use caddy_dev_local.Caddy.Files.{Store}
use caddy_dev_local.Caddy.{
  Api, Page, settle_reload, publish, Reloaded, unchanged, failed, applied, finish_reload,
  reload_with, reload_caddy_config,
}

-- What a reload that goes on may return: an error with the old fingerprint, or the new one.
abbrev pub Settles : Str → Str → Reloaded × Api → Type 0
Settles old fp (unchanged, api) = ⊥
Settles old fp (failed, api) = api.fingerprint ≡ old
Settles old fp (applied, api) = api.fingerprint ≡ fp

unchanged-ne-failed : unchanged ≢ failed
unchanged-ne-failed h = cc

true-ne-false : true ≢ false
true-ne-false h = cc

failed-ne-applied : applied ≢ failed
failed-ne-applied h = cc

Settles-ne-unchanged : (old fp : Str) (o : Reloaded × Api) → Settles old fp o → o.0 ≢ unchanged
Settles-ne-unchanged old fp (unchanged, api) s h = s
Settles-ne-unchanged old fp (failed, api) s h = cc
Settles-ne-unchanged old fp (applied, api) s h = cc

module _ (server : Server) (codec : Codec) where
  settle_reload-Settles :
      (page : Page) (fp : Str) (devlocal : DevlocalConfig) (ok : Bool) (api : Api)
      (o : Bool × (Log × Store))
      → Settles api.fingerprint fp (settle_reload server codec page fp devlocal ok api o)
  unfolding settle_reload
  settle_reload-Settles page fp devlocal false api (written, (log, st)) = refl
  settle_reload-Settles page fp devlocal true api (false, (log, st)) = refl
  settle_reload-Settles page fp devlocal true api (true, (log, st)) = refl

  finish_reload-Settles :
      (page : Page) (fp : Str) (devlocal : DevlocalConfig) (api : Api) (o : Bool × (Known × Log))
      → Settles api.fingerprint fp (finish_reload server codec page fp devlocal api o)
  unfolding finish_reload
  finish_reload-Settles page fp devlocal api (ok, (known, log)) =
      settle_reload-Settles page fp devlocal ok (record api { known = known; log = log })
        (publish server codec page fp log api.store)

  reload_with-Settles :
      (page : Page) (fp : Str) (o : Option DevlocalConfig) (api : Api)
      → Settles api.fingerprint fp (reload_with server codec page fp o api)
  unfolding reload_with
  reload_with-Settles page fp none api = refl
  reload_with-Settles page fp (some c) api =
      finish_reload-Settles page fp c api
        (reconcile_devlocal server codec c.routes c.policies api.known api.log)

  module _ (marshal : Json → Option Str) (tld index_dir : Str) (targets : Dict Str (List Str))
      (tracing : Bool) where
    pub reload_same :
        (page : Page) (fp : Str) (api : Api)
        → api.fingerprint ≡ fp
        → reload_caddy_config server codec marshal page fp tld index_dir targets tracing api
          ≡ (unchanged, api)
    unfolding reload_caddy_config
    reload_same page fp api e = ground (arith, e)

    pub reload_other :
        (page : Page) (fp : Str) (api : Api)
        → api.fingerprint ≢ fp
        → reload_caddy_config server codec marshal page fp tld index_dir targets tracing api
          ≡ reload_with server codec page fp
              (build_devlocal_config marshal tld index_dir targets tracing)
              api
    unfolding reload_caddy_config
    reload_other page fp api h = ground (arith, h)

    -- What a second reload should do after the first one's outcome.
    abbrev pub RunsAgain : Page → Str → Reloaded × Api → Type 0
    RunsAgain page fp o =
        (o.0 ≡ failed
          → (reload_caddy_config server codec marshal page fp tld index_dir targets tracing o.1).0
            ≢ unchanged)
        × (o.0 ≢ failed
            → reload_caddy_config server codec marshal page fp tld index_dir targets tracing o.1
              ≡ (unchanged, o.1))

    again :
        (page : Page) (old fp : Str) (o : Reloaded × Api)
        → old ≢ fp
        → Settles old fp o
        → RunsAgain page fp o
    again page old fp (unchanged, api) n s = absurd s
    again page old fp (failed, api) n s = (
      λ _.
          subst (λ r. r.0 ≢ unchanged) (sym (reload_other page fp api (λ e. n (sym s ∙ e))))
            (Settles-ne-unchanged api.fingerprint fp _ (
              reload_with-Settles page fp
                (build_devlocal_config marshal tld index_dir targets tracing) api)),
      λ h. absurd (h refl),
    )
    again page old fp (applied, api) n s =
        (λ h. absurd (failed-ne-applied h), λ _. reload_same page fp api s)

    -- A reload that fails, whichever step of it fails, is tried again by the next reload for the same
    -- fingerprint; after one that does not fail, the next reload for the same fingerprint changes
    -- nothing and sends nothing.
    pub reload-RunsAgain :
        (first second : Page) (fp : Str) (api : Api)
        → RunsAgain second fp
            (reload_caddy_config server codec marshal first fp tld index_dir targets tracing api)
    reload-RunsAgain first second fp api = elim (Bool-cases (api.fingerprint == fp)) [
      | inl e ↦
          let same : api.fingerprint ≡ fp = (==_iff api.fingerprint fp).0 e in
          subst (RunsAgain second fp) (sym (reload_same first fp api same))
            (λ h. absurd (unchanged-ne-failed h), λ _. reload_same second fp api same)
      | inr e ↦
          let other : api.fingerprint ≢ fp =
            λ h. true-ne-false (sym ((==_iff api.fingerprint fp).1 h) ∙ e) in
          subst (RunsAgain second fp) (sym (reload_other first fp api other)) (
            again second api.fingerprint fp _ other (
              reload_with-Settles first fp
                (build_devlocal_config marshal tld index_dir targets tracing) api))
    ]

  after_failure :
      (old fp : Str) (o : Reloaded × Api) → Settles old fp o → o.0 ≡ failed → o.1.fingerprint ≡ old
  after_failure old fp (unchanged, api) s h = absurd s
  after_failure old fp (failed, api) s h = s
  after_failure old fp (applied, api) s h = absurd (failed-ne-applied h)

  -- When a reload for a new state fails, a reload for the state before it changes and sends nothing,
  -- whatever the failed one has already sent to the server and has noted as known.
  pub reload_back :
      (marshal : Json → Option Str) (first second : Page) (fp tld index_dir : Str)
      (targets before : Dict Str (List Str)) (tracing : Bool) (api : Api)
      → api.fingerprint ≢ fp
      → (reload_caddy_config server codec marshal first fp tld index_dir targets tracing api).0
        ≡ failed
      → reload_caddy_config server codec marshal second api.fingerprint tld index_dir before tracing
          (reload_caddy_config server codec marshal first fp tld index_dir targets tracing api).1
        ≡ (
          unchanged,
          (reload_caddy_config server codec marshal first fp tld index_dir targets tracing api).1,
        )
  reload_back marshal first second fp tld index_dir targets before tracing api n h =
      reload_same marshal tld index_dir before tracing second api.fingerprint _ (
        after_failure api.fingerprint fp _
          (subst (Settles api.fingerprint fp)
            (sym (reload_other marshal tld index_dir targets tracing first fp api n))
            (reload_with-Settles first fp
              (build_devlocal_config marshal tld index_dir targets tracing) api))
          h)
