-- ===== src/Cmd/Turns/Tests.antt =====
-- A cleanup and a refresh that fails, from a state with one container.
use caddy_dev_local.Base.{◌≡◌, refl, true, Option, none, some, List, [], ◌∷◌, inl}
use caddy_dev_local.Base.Dict.{keep_if}
use caddy_dev_local.Str.{codes}
use caddy_dev_local.Generator.{is_expired}
use caddy_dev_local.Generator.Refresh.{stale_cleanup, keeps_entry}
use caddy_dev_local.Generator.Samples.{cfg}
use caddy_dev_local.Generator.Select.{refresh_and_select}
use caddy_dev_local.Discovery.{cleanup}
use caddy_dev_local.Cmd.{App, apply_devlocal}
use caddy_dev_local.Cmd.Samples.{env, weather, app, app-IsNamed, hosts_faults-Works, app-NoMarker}
use caddy_dev_local.Cmd.Turns.{
  Turn, refresh_turn, cleanup_turn, refresh_error, settle_refresh, run_refresh_and_select,
  before_apply, apply_after, turn, turns,
}
use caddy_dev_local.Cmd.Turns.Laws.{GoesWell, IsSynced, turns-IsSynced}

abbrev later : List Turn
later =
    refresh_turn
      (record { now = 1; hostname = []; answer = inl (codes "down"); probe = λ host ports. none })
      weather
    ∷ []

abbrev or_start : Option App → App
or_start none = app
or_start (some a) = a

abbrev end : App
end = or_start (turns env cfg true (cleanup_turn 0 weather ∷ later) (some app))

later-GoesWell : GoesWell env cfg (cleanup_turn 0 weather ∷ later) (some app)
unfolding turn before_apply apply_after apply_devlocal cleanup stale_cleanup keep_if is_expired
    keeps_entry run_refresh_and_select settle_refresh refresh_error refresh_and_select
later-GoesWell = (hosts_faults-Works, (app-IsNamed, (hosts_faults-Works, (app-IsNamed, tt))))

later-ends : turns env cfg true (cleanup_turn 0 weather ∷ later) (some app) ≡ some end
unfolding turns turn before_apply apply_after apply_devlocal cleanup run_refresh_and_select
    settle_refresh refresh_error refresh_and_select
later-ends = refl

turns-IsSynced_example : IsSynced env cfg end
turns-IsSynced_example =
    turns-IsSynced env cfg (cleanup_turn 0 weather) later app end refl later-GoesWell
      (refl, inl app-NoMarker) later-ends
