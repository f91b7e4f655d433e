-- ===== src/Cmd/Turns.antt =====
-- What the running command does: the turns of the loops of discovery/discovery.go, each a refresh or a
-- cleanup of the generator and then the application of cmd.go.
-- A turn ends before the next one begins.
pub mod Laws
pub mod Tracks
mod Tests
use caddy_dev_local.Base.{
  ℕ, Bool, true, false, Option, none, some, List, [], ◌∷◌, ◌++◌, ◌⊎◌, inl, inr,
}
use caddy_dev_local.Str.{Str, codes}
use caddy_dev_local.Config.{Config}
use caddy_dev_local.Docker.{Summary}
use caddy_dev_local.Generator.{Containers}
use caddy_dev_local.Generator.Refresh.{Refreshed, panicked, list_error, refreshed}
use caddy_dev_local.Generator.Select.{refresh_and_select}
use caddy_dev_local.Discovery.{cleanup, run_refresh}
use caddy_dev_local.Cmd.{Env, App, Weather, apply_devlocal}

-- What a refresh meets: the error of Docker or its list, and which ports respond.
pub record Visit : Type 0 where
  pub now : ℕ
  pub hostname : Str
  pub answer : Str ⊎ List Summary
  pub probe : Str → List ℕ → Option ℕ

-- A tick of the timer of the event loop or of the poll loop, or one of the cleanup loop.
pub data Turn : Type 0 where
  refresh_turn : Visit → Weather → Turn
  cleanup_turn : ℕ → Weather → Turn

abbrev pub list_of : Str ⊎ List Summary → Option (List Summary)
list_of (inl err) = none
list_of (inr listed) = some listed

-- The error that `RefreshAndSelect` returns.
unfoldable pub refresh_error : Str ⊎ List Summary → Option Str
refresh_error (inl err) = some (codes "listing containers: " ++ err)
refresh_error (inr listed) = none

-- The containers of the generator, and the status of the controller; `none` is a panic.
unfoldable pub settle_refresh : ℕ → Option Str → Refreshed → App → Option App
settle_refresh now err panicked app = none
settle_refresh now err (list_error m) app =
    some (record app { containers = m; status = run_refresh now err app.status })
settle_refresh now err (refreshed m) app =
    some (record app { containers = m; status = run_refresh now err app.status })

-- `runRefresh` with `RefreshAndSelect`
unfoldable pub run_refresh_and_select : Config → Visit → App → Option App
run_refresh_and_select cfg v app =
    settle_refresh v.now (refresh_error v.answer)
      (refresh_and_select cfg v.probe v.now v.hostname (list_of v.answer) app.containers) app

abbrev pub weather_of : Turn → Weather
weather_of (refresh_turn v w) = w
weather_of (cleanup_turn now w) = w

-- The state that the application reads.
unfoldable pub before_apply : Config → Turn → App → Option App
before_apply cfg (refresh_turn v w) app = run_refresh_and_select cfg v app
before_apply cfg (cleanup_turn now w) app =
    some (record app { containers = cleanup cfg now app.containers })

module _ (env : Env) (cfg : Config) (hosts_ok : Bool) where
  unfoldable pub apply_after : Weather → Option App → Option App
  apply_after w none = none
  apply_after w (some app) = some (apply_devlocal env cfg w hosts_ok app)

  -- `runRefresh` or `StaleCleanup`, and then `apply`
  unfoldable pub turn : Turn → App → Option App
  turn t app = apply_after (weather_of t) (before_apply cfg t app)

  unfoldable pub turns : List Turn → Option App → Option App
  turns [] o = o
  turns (t ∷ ts) none = none
  turns (t ∷ ts) (some app) = turns ts (turn t app)
