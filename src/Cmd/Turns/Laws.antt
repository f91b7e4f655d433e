-- ===== src/Cmd/Turns/Laws.antt =====
-- What the turns of the command keep.
use mathlib.Core.Path.{subst}
use caddy_dev_local.Base.{ℕ, ◌≡◌, sym, ap, true, false, Option, none, some, List, [], ◌∷◌}
use caddy_dev_local.Str.{Str}
use caddy_dev_local.Config.{Config}
use caddy_dev_local.Generator.Domains.{domains}
use caddy_dev_local.Generator.Refresh.{Refreshed, panicked, list_error, refreshed}
use caddy_dev_local.Cmd.{Env, App, Weather, apply_devlocal}
use caddy_dev_local.Cmd.Laws.{IsNamed, apply_idle, synced, sync_on}
use caddy_dev_local.Cmd.Turns.{
  Turn, refresh_turn, cleanup_turn, settle_refresh, run_refresh_and_select, apply_after,
  before_apply, weather_of, turn, turns,
}
use caddy_dev_local.Hosts.{build_block, block_of}
use caddy_dev_local.Hosts.Calls.{stored, Works}
use caddy_dev_local.Hosts.Sync.{IsManaged}
use caddy_dev_local.Hosts.Managed.{sync_to_file-IsManaged}

module _ (env : Env) (cfg : Config) where
  -- The hosts file has the block of the domains and can be synced again, and no application holds the
  -- lock.
  abbrev pub IsSynced : App → Type 0
  IsSynced app =
      (app.busy ≡ false)
      × IsManaged (stored app.disk)
      × (block_of (stored app.disk) ≡ build_block cfg.tld (domains cfg app.containers))

  abbrev pub IsReady : App → Type 0
  IsReady app = (app.busy ≡ false) × IsManaged (stored app.disk)

  abbrev ReadyIfSome : Option App → Type 0
  ReadyIfSome none = Unit
  ReadyIfSome (some app) = IsReady app

  abbrev SyncedIfSome : Option App → Type 0
  SyncedIfSome none = Unit
  SyncedIfSome (some app) = IsSynced app

  abbrev pub NamedIfSome : Option App → Type 0
  NamedIfSome none = Unit
  NamedIfSome (some app) = IsNamed env cfg app.containers

  -- In no turn a call on the hosts file fails, and the names that a turn leaves are one line each.
  abbrev pub GoesWell : List Turn → Option App → Type 0
  GoesWell [] o = Unit
  GoesWell (t ∷ ts) none = Unit
  GoesWell (t ∷ ts) (some app) =
      Works (weather_of t).hosts_faults
      × (NamedIfSome (turn env cfg true t app) × GoesWell ts (turn env cfg true t app))

  apply-IsSynced :
      (w : Weather) (app : App)
      → cfg.hosts_file ≡ true
      → IsNamed env cfg app.containers
      → Works w.hosts_faults
      → IsReady app
      → IsSynced (apply_devlocal env cfg w true app)
  apply-IsSynced w app on n f r = subst IsSynced (sym (apply_idle env cfg w true app r.0)) (
    r.0,
    subst (λ o. IsManaged (stored o.1))
        (sym (sync_on env cfg w.hosts_faults app.containers app.disk on))
        (sync_to_file-IsManaged cfg.tld (domains cfg app.containers) n.0 n.1 w.hosts_faults app.disk
          f r.1),
    synced env cfg w.hosts_faults app.containers app.disk on n f r.1,
  )

  apply_after-Synced :
      (w : Weather) (o : Option App)
      → cfg.hosts_file ≡ true
      → NamedIfSome (apply_after env cfg true w o)
      → Works w.hosts_faults
      → ReadyIfSome o
      → SyncedIfSome (apply_after env cfg true w o)
  unfolding apply_after
  apply_after-Synced w none on n f r = tt
  apply_after-Synced w (some app) on n f r =
      apply-IsSynced w app on
        (subst (IsNamed env cfg) (ap (λ a. a.containers) (apply_idle env cfg w true app r.0)) n) f r

  settle_refresh-Ready :
      (now : ℕ) (err : Option Str) (r : Refreshed) (app : App)
      → IsReady app
      → ReadyIfSome (settle_refresh now err r app)
  unfolding settle_refresh
  settle_refresh-Ready now err panicked app h = tt
  settle_refresh-Ready now err (list_error m) app h = h
  settle_refresh-Ready now err (refreshed m) app h = h

  before_apply-Ready : (t : Turn) (app : App) → IsReady app → ReadyIfSome (before_apply cfg t app)
  unfolding before_apply run_refresh_and_select
  before_apply-Ready (refresh_turn v w) app r = settle_refresh-Ready _ _ _ app r
  before_apply-Ready (cleanup_turn now w) app r = r

  turn-Synced :
      (t : Turn) (app : App)
      → cfg.hosts_file ≡ true
      → NamedIfSome (turn env cfg true t app)
      → Works (weather_of t).hosts_faults
      → IsReady app
      → SyncedIfSome (turn env cfg true t app)
  unfolding turn
  turn-Synced t app on n f r =
      apply_after-Synced (weather_of t) (before_apply cfg t app) on n f (before_apply-Ready t app r)

  turns-Synced :
      (ts : List Turn) (o : Option App)
      → cfg.hosts_file ≡ true
      → GoesWell ts o
      → SyncedIfSome o
      → SyncedIfSome (turns env cfg true ts o)
  unfolding turns
  turns-Synced [] o on g h = h
  turns-Synced (t ∷ ts) none on g h = tt
  turns-Synced (t ∷ ts) (some app) on g h =
      turns-Synced ts (turn env cfg true t app) on g.1.1 (turn-Synced t app on g.1.0 g.0 (h.0, h.1))

  -- Suppose that the hosts file is to be managed and was writable when the command started. After any
  -- sequence of refreshes and cleanups with their applications, at least one and none of which panics,
  -- the hosts file has the block of the domains that the containers have at the time, and no other. At
  -- the start the hosts file has no marker or one block and no application is in flight. In no turn a
  -- call on the hosts file fails, and the names are one line each.
  pub turns-IsSynced :
      (t : Turn) (ts : List Turn) (app app' : App)
      → cfg.hosts_file ≡ true
      → GoesWell (t ∷ ts) (some app)
      → IsReady app
      → turns env cfg true (t ∷ ts) (some app) ≡ some app'
      → IsSynced app'
  unfolding turns
  turns-IsSynced t ts app app' on g h e =
      subst SyncedIfSome e
        (turns-Synced ts (turn env cfg true t app) on g.1.1 (turn-Synced t app on g.1.0 g.0 h))
