-- ===== src/Cmd/Turns/Tracks.antt =====
-- What the admin API is known to have over the turns of the command.
mod Tests
use mathlib.Core.Path.{subst}
use caddy_dev_local.Base.{
  ℕ, ◌≡◌, ◌≢◌, refl, sym, ap, ◌∙◌, Bool, true, false, Option, none, some, List, [], ◌∷◌,
}
use caddy_dev_local.Str.{Str}
use caddy_dev_local.Config.{Config}
use caddy_dev_local.Generator.{Containers}
use caddy_dev_local.Generator.Domains.{domain_targets}
use caddy_dev_local.Generator.Refresh.{Refreshed, panicked, list_error, refreshed}
use caddy_dev_local.Discovery.{Status}
use caddy_dev_local.Builder.{DevlocalConfig, build_devlocal_config}
use caddy_dev_local.Caddy.{Api, Reloaded, unchanged, failed, applied}
use caddy_dev_local.Caddy.Applied.{Reloads, reload-Reloads}
use caddy_dev_local.Caddy.Startup.Laws.{known_of, Settled}
use caddy_dev_local.Cmd.{
  Env, App, Weather, state_fingerprint, state_page, reload_state, apply_devlocal,
}
use caddy_dev_local.Cmd.Laws.{apply_idle}
use caddy_dev_local.Cmd.Turns.{
  Turn, refresh_turn, cleanup_turn, weather_of, settle_refresh, run_refresh_and_select,
  before_apply, apply_after, turn, turns,
}

module _ (env : Env) (cfg : Config) where
  abbrev pub Built : Containers → DevlocalConfig → Type 0
  Built m devlocal =
      build_devlocal_config env.marshal cfg.tld env.index_dir (domain_targets cfg m) cfg.tracing
      ≡ some devlocal

  -- The API is known to have the configuration that is built for a state with this fingerprint.
  abbrev pub Shows : Str → Api → Type 0
  Shows fp api =
      (m : Containers) × (st : Status) × (devlocal : DevlocalConfig) × (state_fingerprint env cfg m
          st
        ≡ fp)
      × Built m devlocal
      × (api.known ≡ known_of devlocal)

  abbrev pub Tracks : App → Type 0
  Tracks app =
      (app.busy ≡ false)
      × (app.api.fingerprint ≡ state_fingerprint env cfg app.containers app.status)
      × Shows app.api.fingerprint app.api

  abbrev pub Idle : App → Type 0
  Idle app = (app.busy ≡ false) × Shows app.api.fingerprint app.api

  abbrev IdleIfSome : Option App → Type 0
  IdleIfSome none = Unit
  IdleIfSome (some app) = Idle app

  abbrev TracksIfSome : Option App → Type 0
  TracksIfSome none = Unit
  TracksIfSome (some app) = Tracks app

  abbrev pub ReloadsIfSome : Weather → Option App → Type 0
  ReloadsIfSome w none = Unit
  ReloadsIfSome w (some app) = (reload_state env cfg w app.containers app.status app.api).0 ≢ failed

  -- No reload of these turns fails.
  abbrev pub NoFailure : Bool → List Turn → Option App → Type 0
  NoFailure hosts_ok [] o = Unit
  NoFailure hosts_ok (t ∷ ts) none = Unit
  NoFailure hosts_ok (t ∷ ts) (some app) =
      ReloadsIfSome (weather_of t) (before_apply cfg t app)
      × NoFailure hosts_ok ts (turn env cfg hosts_ok t app)

  reloaded-Shows :
      (m : Containers) (st : Status) (api : Api) (o : Reloaded × Api)
      → Reloads
          (state_fingerprint env cfg m st)
          (build_devlocal_config env.marshal cfg.tld env.index_dir
            (domain_targets cfg m)
            cfg.tracing)
          api
          o
      → o.0 ≢ failed
      → Shows api.fingerprint api
      → (o.1.fingerprint ≡ state_fingerprint env cfg m st) × Shows o.1.fingerprint o.1
  reloaded-Shows m st api (unchanged, api') (same, fp) h shown =
      subst (λ a. (a.fingerprint ≡ state_fingerprint env cfg m st) × Shows a.fingerprint a)
        (sym same) (fp, shown)
  reloaded-Shows m st api (failed, api') r h shown = absurd (h refl)
  reloaded-Shows m st api (applied, api') (fp, (devlocal, built, known)) h shown =
      (fp, (m, st, devlocal, sym fp, built, known))

  apply-Tracks :
      (w : Weather) (hosts_ok : Bool) (app : App)
      → (reload_state env cfg w app.containers app.status app.api).0 ≢ failed
      → Idle app
      → Tracks (apply_devlocal env cfg w hosts_ok app)
  unfolding reload_state
  apply-Tracks w hosts_ok app h (idle, shown) =
      let (fp, shown') =
        reloaded-Shows app.containers app.status app.api
          (reload_state env cfg w app.containers app.status app.api)
          (reload-Reloads env.server env.codec env.marshal
            (state_page env cfg w app.containers app.status)
            (state_fingerprint env cfg app.containers app.status) cfg.tld env.index_dir
            (domain_targets cfg app.containers) cfg.tracing app.api)
          h shown in
      subst Tracks (sym (apply_idle env cfg w hosts_ok app idle)) (idle, fp, shown')

  apply_after-Tracks :
      (w : Weather) (hosts_ok : Bool) (o : Option App)
      → ReloadsIfSome w o
      → IdleIfSome o
      → TracksIfSome (apply_after env cfg hosts_ok w o)
  unfolding apply_after
  apply_after-Tracks w hosts_ok none h i = tt
  apply_after-Tracks w hosts_ok (some app) h i = apply-Tracks w hosts_ok app h i

  settle_refresh-Idle :
      (now : ℕ) (err : Option Str) (r : Refreshed) (app : App)
      → Idle app
      → IdleIfSome (settle_refresh now err r app)
  unfolding settle_refresh
  settle_refresh-Idle now err panicked app h = tt
  settle_refresh-Idle now err (list_error m) app h = h
  settle_refresh-Idle now err (refreshed m) app h = h

  before_apply-Idle : (t : Turn) (app : App) → Idle app → IdleIfSome (before_apply cfg t app)
  unfolding before_apply run_refresh_and_select
  before_apply-Idle (refresh_turn v w) app i = settle_refresh-Idle _ _ _ app i
  before_apply-Idle (cleanup_turn now w) app i = i

  turn-Tracks :
      (t : Turn) (hosts_ok : Bool) (app : App)
      → ReloadsIfSome (weather_of t) (before_apply cfg t app)
      → Idle app
      → TracksIfSome (turn env cfg hosts_ok t app)
  unfolding turn
  turn-Tracks t hosts_ok app h i =
      apply_after-Tracks (weather_of t) hosts_ok (before_apply cfg t app) h
        (before_apply-Idle t app i)

  turns-Track :
      (hosts_ok : Bool) (ts : List Turn) (o : Option App)
      → NoFailure hosts_ok ts o
      → TracksIfSome o
      → TracksIfSome (turns env cfg hosts_ok ts o)
  unfolding turns
  turns-Track hosts_ok [] o n h = h
  turns-Track hosts_ok (t ∷ ts) none n h = tt
  turns-Track hosts_ok (t ∷ ts) (some app) n h =
      turns-Track hosts_ok ts (turn env cfg hosts_ok t app) n.1
        (turn-Tracks t hosts_ok app n.0 (h.0, h.2))

  -- As long as no reload fails and nothing panics, over any sequence of refreshes and cleanups with
  -- their applications the API keeps the fingerprint of the state at the time, and is known to have the
  -- routes and the policy that are built for a state with this fingerprint, if it had them at the start.
  -- It holds whatever happens to the hosts file.
  pub turns-Tracks :
      (hosts_ok : Bool) (ts : List Turn) (app app' : App)
      → NoFailure hosts_ok ts (some app)
      → Tracks app
      → turns env cfg hosts_ok ts (some app) ≡ some app'
      → Tracks app'
  turns-Tracks hosts_ok ts app app' n h e =
      subst TracksIfSome e (turns-Track hosts_ok ts (some app) n h)
