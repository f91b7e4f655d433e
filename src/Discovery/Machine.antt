-- ===== src/Discovery/Machine.antt =====
-- The loop of discovery/discovery.go as a step relation, and an invariant of all states it reaches.
use mathlib.Core.Path.{subst}
use caddy_dev_local.Base.{ℕ, ◌≡◌, refl, Bool, true, false, Option, none, some, arith}
use caddy_dev_local.Str.{Str}
use caddy_dev_local.Discovery.{
  Status, should_refresh, Loop, Received, cancelled, event, messages_closed, stream_error,
  errors_closed, tick, Next, running, returned, panicked, note_event, after_tick, step, start_loop,
}

-- A tick is received only while the timer runs.
abbrev pub CanReceive : Received → Loop → Type 0
CanReceive cancelled s = Unit
CanReceive (event t a) s = Unit
CanReceive messages_closed s = Unit
CanReceive (stream_error e) s = Unit
CanReceive errors_closed s = Unit
CanReceive (tick answer) s = s.armed ≡ true

-- The states that the loop reaches from its start.
pub data Reached (st : Status) : Loop → Type 0 where
  at_start : Reached st (start_loop st)
  by_step :
      (now : ℕ) (r : Received) (s s' : Loop)
      → Reached st s
      → CanReceive r s
      → step now r s ≡ running s'
      → Reached st s'

abbrev pub IsWatched : Loop → Type 0
IsWatched s = s.pending ≡ true → s.armed ≡ true

abbrev pub IsWatchedNext : Next → Type 0
IsWatchedNext (running s) = IsWatched s
IsWatchedNext (returned st) = Unit
IsWatchedNext panicked = Unit

note_event-IsWatched : (wanted : Bool) (s : Loop) → IsWatched s → IsWatched (note_event wanted s)
unfolding note_event
note_event-IsWatched true s h = ground (arith, h)
note_event-IsWatched false s h = h

after_tick-IsWatched :
    (now : ℕ) (answer : Option Str) (s : Loop) → IsWatched (after_tick now answer s)
unfolding after_tick
after_tick-IsWatched now answer s = ground arith

step-IsWatched : (now : ℕ) (r : Received) (s : Loop) → IsWatched s → IsWatchedNext (step now r s)
unfolding step
step-IsWatched now cancelled s h = tt
step-IsWatched now (event t a) s h = note_event-IsWatched (should_refresh t a) s h
step-IsWatched now messages_closed s h = tt
step-IsWatched now (stream_error none) s h = h
step-IsWatched now (stream_error (some msg)) s h = tt
step-IsWatched now errors_closed s h = tt
step-IsWatched now (tick answer) s h = after_tick-IsWatched now answer s

start_loop-IsWatched : (st : Status) → IsWatched (start_loop st)
unfolding start_loop
start_loop-IsWatched st h = refl

-- In every state that the loop reaches, the timer runs while a refresh is pending.
pub Reached-IsWatched : (st : Status) (s : Loop) → Reached st s → IsWatched s
Reached-IsWatched st _ at_start = start_loop-IsWatched st
Reached-IsWatched st _ (by_step now r s s' h c e) =
    subst IsWatchedNext e (step-IsWatched now r s (Reached-IsWatched st s h))
