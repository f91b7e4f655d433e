-- ===== src/Discovery.antt =====
-- discovery/discovery.go: the controller that follows the events of Docker.
-- The loop of `streamEvents` is a machine that takes one step for what the `select` statement
-- receives. A received value carries the time that the step reads and, for a tick of the timer, what
-- the refresh answers. With the Go version of go.mod a timer that is reset has no old tick left, so a
-- timer is running or not.
pub mod Machine
pub mod Laws
mod Tests
use caddy_dev_local.Base.{
  ℕ, suc, Bool, true, false, Option, none, some, List, [], ◌∷◌, ◌++◌, not, if◌then◌else◌,
}
use caddy_dev_local.Base.Int.{ℤ, exceeds}
use caddy_dev_local.Str.{Str, codes}
use caddy_dev_local.Config.{Config}
use caddy_dev_local.Generator.{Containers}
use caddy_dev_local.Generator.Refresh.{stale_cleanup}

-- A point in time that is zero is `none`.
pub record Status : Type 0 where
  pub last_error : Str
  pub last_error_at : Option ℕ
  pub last_refresh : Option ℕ

unfoldable pub set_error : ℕ → Str → Status → Status
set_error now msg st = record st { last_error = msg; last_error_at = some now }

unfoldable pub clear_error : ℕ → Status → Status
clear_error now st = record { last_error = []; last_error_at = none; last_refresh = some now }

-- `runRefresh`, from the error that the refresh returns
unfoldable pub run_refresh : ℕ → Option Str → Status → Status
run_refresh now none st = clear_error now st
run_refresh now (some msg) st = set_error now msg st

-- The types and actions that the program names; any other is `other_type` and `other_action`.
pub data EventType : Type 0 where
  container_type network_type other_type : EventType

pub data Action : Type 0 where
  start stop die destroy create connect disconnect other_action : Action

unfoldable pub container_action : Action → Bool
container_action start = true
container_action stop = true
container_action die = true
container_action destroy = true
container_action create = true
container_action connect = false
container_action disconnect = false
container_action other_action = false

unfoldable pub network_action : Action → Bool
network_action start = false
network_action stop = false
network_action die = false
network_action destroy = false
network_action create = false
network_action connect = true
network_action disconnect = true
network_action other_action = false

unfoldable pub should_refresh : EventType → Action → Bool
should_refresh container_type a = container_action a
should_refresh network_type a = network_action a
should_refresh other_type a = false

-- What the loop holds: its two variables, the status of the controller, and how often it called
-- `runRefresh` and `apply`.
pub record Loop : Type 0 where
  pub pending : Bool
  pub armed : Bool
  pub status : Status
  pub refreshes : ℕ

pub data Received : Type 0 where
  cancelled : Received
  event : EventType → Action → Received
  messages_closed : Received
  stream_error : Option Str → Received
  errors_closed : Received
  tick : Option Str → Received

-- `panicked` is the call of a method on a nil error.
pub data Next : Type 0 where
  running : Loop → Next
  returned : Status → Next
  panicked : Next

unfoldable pub note_event : Bool → Loop → Loop
note_event wanted s =
    if wanted then (if not s.pending then record s { pending = true; armed = true } else s) else s

unfoldable pub after_tick : ℕ → Option Str → Loop → Loop
after_tick now answer s =
    if s.pending
    then record {
      pending = false;
      armed = false;
      status = run_refresh now answer s.status;
      refreshes = suc s.refreshes;
    }
    else record s { armed = false }

unfoldable pub step : ℕ → Received → Loop → Next
step now cancelled s = returned s.status
step now (event t a) s = running (note_event (should_refresh t a) s)
step now messages_closed s =
    returned (set_error now (codes "Docker event stream closed, reconnecting") s.status)
step now (stream_error none) s = running s
step now (stream_error (some msg)) s =
    returned (set_error now (codes "Docker event stream error: " ++ msg) s.status)
step now errors_closed s = panicked
step now (tick answer) s = running (after_tick now answer s)

unfoldable pub start_loop : Status → Loop
start_loop st = record { pending = false; armed = true; status = st; refreshes = 0 }

-- The loop over a sequence of received values.
unfoldable pub run_loop : List (ℕ × Received) → Loop → Next
run_loop [] s = running s
run_loop ((now, r) ∷ rs) s = elim (step now r s) [
  | running s' ↦ run_loop rs s'
  | returned st ↦ returned st
  | panicked ↦ panicked
]

-- `streamEvents`
unfoldable pub stream_events : List (ℕ × Received) → Status → Next
stream_events rs st = run_loop rs (start_loop st)

-- `watchEvents`: one list of received values for each stream that is opened.
unfoldable pub watch_events : List (List (ℕ × Received)) → Status → Next
watch_events [] st = returned st
watch_events (rs ∷ streams) st = elim (stream_events rs st) [
  | running s ↦ running s
  | returned st' ↦ watch_events streams st'
  | panicked ↦ panicked
]

-- One round of `pollLoop`
unfoldable pub poll : ℕ → Option Str → Status → Status
poll now answer st = run_refresh now answer st

-- One round of the loop `staleCleanup`
unfoldable pub cleanup : Config → ℕ → Containers → Containers
cleanup cfg now m = stale_cleanup cfg now m
