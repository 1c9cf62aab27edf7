-- ===== src/Services/Manager.antt =====
-- services/manager.go: the state of a group of services, which their listeners report.
use dskit.Base.{
  Bool, List, Option, [], false, if◌then◌else◌, length, ltb, nat_beq, nat_eq, none, not, some,
  string_eq, true, ℕ, ◌&&◌, ◌++◌, ◌+◌, ◌==◌, ◌||◌, ◌∷◌,
}
pub mod Counts
pub mod Reach
pub mod Contract
mod Examples
use dskit.Services.Basic.{State, new, running, stopping, terminated, failed, state_eq}

-- `managerState`
pub data ManagerState : Type 0 where
  unknown healthy stopped : ManagerState

abbrev pub manager_state_number : ManagerState → ℕ
manager_state_number unknown = 0
manager_state_number healthy = 1
manager_state_number stopped = 2

-- The calls of a `ManagerListener`, on a service by its number.
pub data Event : Type 0 where
  to_healthy to_stopped : Event
  failure : (service : ℕ) → Event

-- The channel of a listener: what was sent to it, and how often it was closed.
pub record ListenerChannel : Type 0 where
  pub sent : List Event
  pub closes : ℕ

-- `Manager`: how often each of its channels was closed; a second time panics.
pub record Manager : Type 0 where
  pub services : List ℕ
  pub healthy_closes : ℕ
  pub stopped_closes : ℕ
  pub state : ManagerState
  pub by_state : State → List ℕ
  pub healthy_closed : Bool
  pub listeners : List ListenerChannel

-- `byState` with one list replaced; a state with no services and one that is missing read alike.
unfoldable pub with_services : State → List ℕ → (State → List ℕ) → State → List ℕ
with_services s ids by_state t = if state_eq s t then ids else by_state t

-- `NewManager`: none without services, or if one is not New
unfoldable pub all_new : (ℕ → State) → List ℕ → Bool
all_new state_of [] = true
all_new state_of (s ∷ rest) =
    let others = all_new state_of rest in if state_eq (state_of s) new then others else false

unfoldable pub new_manager : (ℕ → State) → List ℕ → Option Manager
unfolding all_new with_services
new_manager state_of [] = none
new_manager state_of (s ∷ rest) =
    if all_new state_of (s ∷ rest)
    then some (record {
      services = s ∷ rest;
      healthy_closes = 0;
      stopped_closes = 0;
      state = unknown;
      by_state = with_services new (s ∷ rest) (λ t. []);
      healthy_closed = false;
      listeners = [];
    })
    else none

-- `notifyListeners`
unfoldable pub notify_listeners : Event → Bool → List ListenerChannel → List ListenerChannel
notify_listeners event close_chan [] = []
notify_listeners event close_chan (l ∷ rest) =
    record { sent = l.sent ++ event ∷ []; closes = if close_chan then l.closes + 1 else l.closes }
    ∷ notify_listeners event close_chan rest

-- the search for the service in the list of its last state
unfoldable pub without_service : ℕ → List ℕ → List ℕ
without_service s [] = []
without_service s (x ∷ xs) = let rest = without_service s xs in if s == x then xs else x ∷ rest

-- `serviceStateChanged` up to the counts: the service moves, and a failure is told
unfoldable pub moved : ℕ → State → State → Manager → Manager
unfolding with_services without_service notify_listeners
moved s from to m =
    let taken = with_services from (without_service s (m.by_state from)) m.by_state in
    record m {
      by_state = with_services to (taken to ++ s ∷ []) taken;
      listeners =
          if state_eq to failed
          then notify_listeners (failure s) false m.listeners
          else m.listeners;
    }

-- the three cases of the `switch`
unfoldable pub become_healthy : Manager → Manager
unfolding notify_listeners
become_healthy m = record m {
  healthy_closes = m.healthy_closes + 1;
  state = healthy;
  healthy_closed = true;
  listeners = notify_listeners to_healthy false m.listeners;
}

unfoldable pub become_stopped : Manager → Manager
unfolding notify_listeners
become_stopped m = record m {
  healthy_closes = if m.healthy_closed then m.healthy_closes else m.healthy_closes + 1;
  healthy_closed = true;
  stopped_closes = m.stopped_closes + 1;
  state = stopped;
  listeners = notify_listeners to_stopped true m.listeners;
}

unfoldable pub become_unknown : Bool → Manager → Manager
become_unknown some_left m =
    let hopeless = not m.healthy_closed && some_left in
    record m {
      healthy_closes = if hopeless then m.healthy_closes + 1 else m.healthy_closes;
      healthy_closed = if hopeless then true else m.healthy_closed;
      state = unknown;
    }

abbrev pub running_count : Manager → ℕ
running_count m = length (m.by_state running)

abbrev pub stopping_count : Manager → ℕ
stopping_count m = length (m.by_state stopping)

abbrev pub done_count : Manager → ℕ
done_count m = length (m.by_state terminated) + length (m.by_state failed)

unfoldable pub switch_counts : Manager → Manager
unfolding become_healthy become_stopped become_unknown
switch_counts m =
    if running_count m == length m.services
    then become_healthy m
    else if done_count m == length m.services
    then become_stopped m
    else become_unknown (ltb 0 (done_count m) || ltb 0 (stopping_count m)) m

-- `serviceStateChanged`
unfoldable pub service_state_changed : ℕ → State → State → Manager → Manager
unfolding moved switch_counts
service_state_changed s from to m = switch_counts (moved s from to m)

-- `AddListener`
unfoldable pub add_listener : Manager → Manager
add_listener m =
    if nat_beq (manager_state_number m.state) (manager_state_number stopped)
    then m
    else record m { listeners = m.listeners ++ record { sent = []; closes = 0 } ∷ [] }

-- `IsHealthy` and `IsStopped`
unfoldable pub is_healthy : Manager → Bool
is_healthy m = nat_beq (manager_state_number m.state) (manager_state_number healthy)

unfoldable pub is_stopped : Manager → Bool
is_stopped m = nat_beq (manager_state_number m.state) (manager_state_number stopped)

-- What `AwaitHealthy` returns once its channel is closed: nil, or the numbers of services that
-- terminated and that failed.
pub data AwaitResult : Type 0 where
  ok blocked : AwaitResult
  not_healthy : (terminated_count failed_count : ℕ) → AwaitResult

unfoldable pub await_healthy : Manager → AwaitResult
unfolding is_healthy
await_healthy m =
    if m.healthy_closes == 0
    then blocked
    else if is_healthy m
    then ok
    else not_healthy (length (m.by_state terminated)) (length (m.by_state failed))

unfoldable pub await_stopped : Manager → AwaitResult
await_stopped m = if m.stopped_closes == 0 then blocked else ok
