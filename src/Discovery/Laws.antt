-- ===== src/Discovery/Laws.antt =====
-- What the event loop of discovery/discovery.go does over a sequence of received values.
use caddy_dev_local.Base.{
  ℕ, suc, ◌+◌, ◌≤◌, ◌≡◌, refl, ap, ◌∙◌, Bool, true, false, Option, none, some, List, [], ◌∷◌, ◌++◌,
  arith, if◌then◌else◌, All,
}
use caddy_dev_local.Str.{Str, codes}
use caddy_dev_local.Discovery.{
  Status, set_error, run_refresh, EventType, Action, should_refresh, Loop, Received, cancelled,
  event, messages_closed, stream_error, errors_closed, tick, Next, running, returned, panicked,
  note_event, after_tick, step, start_loop, run_loop, stream_events,
}

-- An event or a nil error, after which the loop goes on without a refresh.
abbrev pub IsQuiet : ℕ × Received → Type 0
IsQuiet (now, cancelled) = ⊥
IsQuiet (now, event t a) = Unit
IsQuiet (now, messages_closed) = ⊥
IsQuiet (now, stream_error none) = Unit
IsQuiet (now, stream_error (some msg)) = ⊥
IsQuiet (now, errors_closed) = ⊥
IsQuiet (now, tick answer) = ⊥

-- A refresh is pending, and the timer runs.
abbrev pub waiting : Status → ℕ → Loop
waiting st n = record { pending = true; armed = true; status = st; refreshes = n }

abbrev pub refreshed_once : ℕ → Option Str → Status → ℕ → Loop
refreshed_once now answer st n = record {
  pending = false;
  armed = false;
  status = run_refresh now answer st;
  refreshes = suc n;
}

note_event-waiting :
    (wanted : Bool) (st : Status) (n : ℕ) → note_event wanted (waiting st n) ≡ waiting st n
unfolding note_event
note_event-waiting true st n = refl
note_event-waiting false st n = refl

run_loop-waiting :
    (rs : List (ℕ × Received)) (now : ℕ) (answer : Option Str) (st : Status) (n : ℕ)
    → All IsQuiet rs
    → run_loop (rs ++ (now, tick answer) ∷ []) (waiting st n)
      ≡ running (refreshed_once now answer st n)
unfolding run_loop step after_tick
run_loop-waiting [] now answer st n h = refl
run_loop-waiting ((u, cancelled) ∷ rs) now answer st n h = absurd h.0
run_loop-waiting ((u, event t a) ∷ rs) now answer st n h =
    ap (run_loop (rs ++ (now, tick answer) ∷ [])) (note_event-waiting (should_refresh t a) st n)
    ∙ run_loop-waiting rs now answer st n h.1
run_loop-waiting ((u, messages_closed) ∷ rs) now answer st n h = absurd h.0
run_loop-waiting ((u, stream_error none) ∷ rs) now answer st n h =
    run_loop-waiting rs now answer st n h.1
run_loop-waiting ((u, stream_error (some msg)) ∷ rs) now answer st n h = absurd h.0
run_loop-waiting ((u, errors_closed) ∷ rs) now answer st n h = absurd h.0
run_loop-waiting ((u, tick answer₁) ∷ rs) now answer st n h = absurd h.0

note_event-fresh :
    (p a : Bool) (st : Status) (n : ℕ)
    → (p ≡ true → a ≡ true)
    → note_event true (record { pending = p; armed = a; status = st; refreshes = n }) ≡ waiting st n
unfolding note_event
note_event-fresh true true st n h = refl
note_event-fresh true false st n h = absurd (ground (arith, h refl))
note_event-fresh false a st n h = refl

-- Suppose that the timer runs if a refresh is pending. An event that asks for a refresh, then any
-- number of other events and nil errors, then a tick: however many events there are, the loop
-- refreshes once, with the answer at the tick, and nothing is pending afterwards.
pub run_loop_burst :
    (rs : List (ℕ × Received)) (u now : ℕ) (t : EventType) (a : Action) (answer : Option Str)
    (s : Loop)
    → (s.pending ≡ true → s.armed ≡ true)
    → should_refresh t a ≡ true
    → All IsQuiet rs
    → run_loop ((u, event t a) ∷ (rs ++ (now, tick answer) ∷ [])) s
      ≡ running (refreshed_once now answer s.status s.refreshes)
unfolding run_loop step
run_loop_burst rs u now t a answer s w h q =
    ap (λ b. run_loop (rs ++ (now, tick answer) ∷ []) (note_event b s)) h
    ∙ (ap (run_loop (rs ++ (now, tick answer) ∷ []))
          (note_event-fresh s.pending s.armed s.status s.refreshes w)
        ∙ run_loop-waiting rs now answer s.status s.refreshes q)

-- How many of the received values are events that ask for a refresh.
abbrev pub wanted : List (ℕ × Received) → ℕ
wanted [] = 0
wanted ((now, cancelled) ∷ rs) = wanted rs
wanted ((now, event t a) ∷ rs) = if should_refresh t a then suc (wanted rs) else wanted rs
wanted ((now, messages_closed) ∷ rs) = wanted rs
wanted ((now, stream_error e) ∷ rs) = wanted rs
wanted ((now, errors_closed) ∷ rs) = wanted rs
wanted ((now, tick answer) ∷ rs) = wanted rs

-- The refreshes that the loop made, and the one that is pending.
abbrev pub owed : Loop → ℕ
owed s = if s.pending then suc s.refreshes else s.refreshes

abbrev pub owed_after : Next → ℕ
owed_after (running s) = owed s
owed_after (returned st) = 0
owed_after panicked = 0

note_event-owed :
    (b : Bool) (s : Loop) → owed (note_event b s) ≤ (if b then suc (owed s) else owed s)
unfolding note_event
note_event-owed true s = ground arith
note_event-owed false s = omega arith

after_tick-owed :
    (now : ℕ) (answer : Option Str) (s : Loop) → owed (after_tick now answer s) ≤ owed s
unfolding after_tick
after_tick-owed now answer s = ground arith

run_loop-owed :
    (rs : List (ℕ × Received)) (s : Loop) → owed_after (run_loop rs s) ≤ owed s + wanted rs
unfolding run_loop step
run_loop-owed [] s = omega arith
run_loop-owed ((now, cancelled) ∷ rs) s = omega arith
run_loop-owed ((now, event t a) ∷ rs) s = ground (
  arith,
  run_loop-owed rs (note_event (should_refresh t a) s),
  note_event-owed (should_refresh t a) s,
)
run_loop-owed ((now, messages_closed) ∷ rs) s = omega arith
run_loop-owed ((now, stream_error none) ∷ rs) s = run_loop-owed rs s
run_loop-owed ((now, stream_error (some msg)) ∷ rs) s = omega arith
run_loop-owed ((now, errors_closed) ∷ rs) s = omega arith
run_loop-owed ((now, tick answer) ∷ rs) s =
    omega (arith, run_loop-owed rs (after_tick now answer s), after_tick-owed now answer s)

owed-start_loop : (st : Status) → owed (start_loop st) ≡ 0
unfolding start_loop
owed-start_loop st = refl

-- While a stream is followed, the loop has refreshed at most once for each event that asks for it,
-- the pending refresh counted.
pub stream_events-owed :
    (rs : List (ℕ × Received)) (st : Status) → owed_after (stream_events rs st) ≤ wanted rs
unfolding stream_events
stream_events-owed rs st = omega (arith, run_loop-owed rs (start_loop st), owed-start_loop st)

-- The first received value that ends the loop.
abbrev pub first_end : List (ℕ × Received) → Option (ℕ × Received)
first_end [] = none
first_end ((now, cancelled) ∷ rs) = some (now, cancelled)
first_end ((now, event t a) ∷ rs) = first_end rs
first_end ((now, messages_closed) ∷ rs) = some (now, messages_closed)
first_end ((now, stream_error none) ∷ rs) = first_end rs
first_end ((now, stream_error (some msg)) ∷ rs) = some (now, stream_error (some msg))
first_end ((now, errors_closed) ∷ rs) = some (now, errors_closed)
first_end ((now, tick answer) ∷ rs) = first_end rs

abbrev pub Ended : Next → (Status → Type 0) → Type 0
Ended (running s) P = ⊥
Ended (returned st) P = P st
Ended panicked P = ⊥

abbrev pub IsRunning : Next → Type 0
IsRunning (running s) = Unit
IsRunning (returned st) = ⊥
IsRunning panicked = ⊥

-- How the loop should end, from the value that ends it.
abbrev pub EndsAs : Option (ℕ × Received) → Next → Type 0
EndsAs none n = IsRunning n
EndsAs (some (now, cancelled)) n = Ended n (λ st. Unit)
EndsAs (some (now, event t a)) n = ⊥
EndsAs (some (now, messages_closed)) n = Ended n (λ st.
    (st.last_error ≡ codes "Docker event stream closed, reconnecting")
    × (st.last_error_at ≡ some now))
EndsAs (some (now, stream_error none)) n = ⊥
EndsAs (some (now, stream_error (some msg))) n = Ended n (λ st.
    (st.last_error ≡ codes "Docker event stream error: " ++ msg) × (st.last_error_at ≡ some now))
EndsAs (some (now, errors_closed)) n = n ≡ panicked
EndsAs (some (now, tick answer)) n = ⊥

-- The loop ends at the first value that ends it and at no other: a cancelled context ends it, a
-- closed stream or an error of the stream ends it and leaves its message and time in the status, and
-- a closed channel of errors ends the program by a panic.
pub run_loop-EndsAs : (rs : List (ℕ × Received)) (s : Loop) → EndsAs (first_end rs) (run_loop rs s)
unfolding run_loop step set_error
run_loop-EndsAs [] s = tt
run_loop-EndsAs ((now, cancelled) ∷ rs) s = tt
run_loop-EndsAs ((now, event t a) ∷ rs) s = run_loop-EndsAs rs (note_event (should_refresh t a) s)
run_loop-EndsAs ((now, messages_closed) ∷ rs) s = (refl, refl)
run_loop-EndsAs ((now, stream_error none) ∷ rs) s = run_loop-EndsAs rs s
run_loop-EndsAs ((now, stream_error (some msg)) ∷ rs) s = (refl, refl)
run_loop-EndsAs ((now, errors_closed) ∷ rs) s = refl
run_loop-EndsAs ((now, tick answer) ∷ rs) s = run_loop-EndsAs rs (after_tick now answer s)
