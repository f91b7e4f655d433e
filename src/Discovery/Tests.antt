-- ===== src/Discovery/Tests.antt =====
-- The theorems on the event loop at short sequences of events.
use caddy_dev_local.Base.{ℕ, ◌≡◌, refl, true, false, none, some, List, [], ◌∷◌, ◌++◌, All}
use caddy_dev_local.Str.{codes}
use caddy_dev_local.Discovery.{
  Status, container_type, network_type, start, die, connect, should_refresh, network_action,
  container_action, Loop, Received, event, stream_error, errors_closed, tick, running, note_event,
  step, start_loop, run_loop,
}
use caddy_dev_local.Discovery.Machine.{Reached, at_start, by_step, Reached-IsWatched}
use caddy_dev_local.Discovery.Laws.{
  IsQuiet, refreshed_once, run_loop_burst, first_end, EndsAs, run_loop-EndsAs,
}

abbrev fresh : Status
fresh = record { last_error = []; last_error_at = none; last_refresh = none }

abbrev noted : Loop
noted = record { pending = true; armed = true; status = fresh; refreshes = 0 }

noted-Reached : Reached fresh noted
unfolding start_loop step note_event should_refresh container_action
noted-Reached = by_step 1 (event container_type start) (start_loop fresh) noted at_start tt refl

Reached-IsWatched_example : noted.armed ≡ true
Reached-IsWatched_example = Reached-IsWatched fresh noted noted-Reached refl

abbrev quiet : List (ℕ × Received)
quiet = (2, event container_type die) ∷ (3, stream_error none) ∷ []

quiet-IsQuiet : All IsQuiet quiet
quiet-IsQuiet = (tt, (tt, tt))

abbrev idle : Loop
idle = record { pending = false; armed = false; status = fresh; refreshes = 4 }

idle_not_pending : idle.pending ≡ true → idle.armed ≡ true
idle_not_pending h = cc

wants_refresh : should_refresh network_type connect ≡ true
unfolding should_refresh network_action
wants_refresh = refl

run_loop_burst_example :
    run_loop ((1, event network_type connect) ∷ (quiet ++ (9, tick none) ∷ [])) idle
    ≡ running (refreshed_once 9 none fresh 4)
run_loop_burst_example =
    run_loop_burst quiet 1 9 network_type connect none idle idle_not_pending wants_refresh
      quiet-IsQuiet

abbrev ending : List (ℕ × Received)
ending =
    (1, event container_type start)
    ∷ (2, stream_error (some (codes "eof")))
    ∷ (3, errors_closed)
    ∷ []

run_loop-EndsAs_example : EndsAs (first_end ending) (run_loop ending idle)
run_loop-EndsAs_example = run_loop-EndsAs ending idle
