-- ===== src/Services/Basic.antt =====
-- services/service.go and services/basic_service.go: a service and its lifecycle. The goroutine of
-- `main` is a program counter, so that calls from outside run between any two of its steps.
use dskit.Base.{
  Bool, List, Option, [], false, if◌then◌else◌, nat_beq, none, some, true, ℕ, ◌++◌, ◌+◌, ◌-◌, ◌<◌,
  ◌||◌, ◌∷◌,
}
pub mod Lifecycle
pub mod Contract
pub mod Stops

-- `State`
pub data State : Type 0 where
  new starting running stopping terminated failed : State

abbrev pub state_number : State → ℕ
state_number new = 0
state_number starting = 1
state_number running = 2
state_number stopping = 3
state_number terminated = 4
state_number failed = 5

abbrev pub state_eq : State → State → Bool
state_eq s t = nat_beq (state_number s) (state_number t)

-- The calls of a `Listener`.
pub data Notice (E : Type 0) : Type 0 where
  to_starting to_running : Notice E
  to_stopping to_terminated : (from : State) → Notice E
  to_failed : (from : State) (failure : E) → Notice E

-- Where `main` is. The functions of the service return with a result, `none` for a nil error; a
-- function that is nil is one that returns nil at once.
pub data Main (E : Type 0) : Type 0 where
  idle calling_start checking_context entering_running calling_running returned : Main E
  entering_stopping : (stopping_from : State) (err : Option E) → Main E
  cancelling calling_stopping ending : (failure : Option E) → Main E

-- `BasicService`: how often each channel was closed (a second time panics), the context, if there
-- is one, and whether it is canceled, what was sent to the listeners, the calls of StopAsync that
-- are past their first test, and the two panics of the code.
pub record BasicService (E : Type 0) : Type 0 where
  pub state : State
  pub failure_case : Option E
  pub running_closes : ℕ
  pub terminated_closes : ℕ
  pub listener_closes : ℕ
  pub context : Option Bool
  pub notices : List (Notice E)
  pub main : Main E
  pub stop_calls : ℕ
  pub switch_failed : Bool
  pub nil_cancel : Bool

-- A context that there is becomes a canceled one.
abbrev pub canceled_context : Option Bool → Option Bool
canceled_context none = none
canceled_context (some _) = some true

module _ {E : Type 0} where
  -- `NewBasicService`
  unfoldable pub new_basic_service : BasicService E
  new_basic_service = record {
    state = new;
    failure_case = none;
    running_closes = 0;
    terminated_closes = 0;
    listener_closes = 0;
    context = none;
    notices = [];
    main = idle;
    stop_calls = 0;
    switch_failed = false;
    nil_cancel = false;
  }

  -- `switchState`
  unfoldable pub switch_state :
      State → State → (BasicService E → BasicService E) → BasicService E → BasicService E × Bool
  switch_state from to state_fn b =
      if state_eq b.state from then (state_fn (record b { state = to }), true) else (b, false)

  -- `mustSwitchState`, with where `main` goes on
  unfoldable pub must_switch_state :
      State → State → (BasicService E → BasicService E) → BasicService E → BasicService E
  unfolding switch_state
  must_switch_state from to state_fn b =
      let (after, ok) = switch_state from to state_fn b in
      if ok then after else record b { switch_failed = true; main = returned }

  abbrev pub notify_listeners : Notice E → BasicService E → BasicService E
  notify_listeners n b = record b { notices = b.notices ++ n ∷ [] }

  -- `notifyListeners` with `closeChan`
  abbrev pub notify_last : Notice E → BasicService E → BasicService E
  notify_last n b = record b {
    notices = b.notices ++ n ∷ [];
    listener_closes = b.listener_closes + 1;
  }

  abbrev pub close_running : BasicService E → BasicService E
  close_running b = record b { running_closes = b.running_closes + 1 }

  abbrev pub close_terminated : BasicService E → BasicService E
  close_terminated b = record b { terminated_closes = b.terminated_closes + 1 }

  -- `b.serviceCancel()`, which is nil as long as there is no context
  abbrev pub service_cancel : BasicService E → BasicService E
  service_cancel b = record b {
    context = canceled_context b.context;
    nil_cancel = elim b.context [ none ↦ true | some _ ↦ b.nil_cancel ];
  }

  abbrev pub go_to : Main E → BasicService E → BasicService E
  go_to m b = record b { main = m }

  -- `StartAsync`, with whether the parent's context is canceled already
  unfoldable pub start_async : Bool → BasicService E → BasicService E × Bool
  unfolding switch_state
  start_async canceled = switch_state new starting (λ b.
      go_to calling_start (notify_listeners to_starting (record b { context = some canceled })))

  -- the first test of `StopAsync`, made with the state read on its own
  unfoldable pub stop_async_test : BasicService E → BasicService E
  stop_async_test b =
      if state_eq b.state stopping || (state_eq b.state terminated || state_eq b.state failed)
      then b
      else record b { stop_calls = b.stop_calls + 1 }

  -- the rest of `StopAsync`
  unfoldable pub stop_async_rest : BasicService E → BasicService E
  unfolding switch_state
  stop_async_rest b =
      let (after, switched) =
        switch_state new terminated
          (λ c. notify_last (to_terminated new) (close_terminated (close_running c)))
          (record b { stop_calls = b.stop_calls - 1 }) in
      if switched then after else service_cancel after

  -- the parent's context is canceled from outside
  unfoldable pub cancel_from_outside : BasicService E → BasicService E
  cancel_from_outside b = record b { context = canceled_context b.context }

  -- `if failure == nil { failure = err }`
  abbrev pub or_else : Option E → Option E → Option E
  or_else none err = err
  or_else (some failure) err = some failure

  -- Where `main` goes on once it has read `serviceContext.Err()`.
  abbrev pub after_check : Option Bool → Main E
  after_check (some true) = entering_stopping starting none
  after_check (some false) = entering_running
  after_check none = entering_running

  -- The next step of `main`, where a call of one of the three functions returns `result`.
  unfoldable pub main_at : Main E → Option E → BasicService E → BasicService E
  unfolding must_switch_state
  main_at idle result b = b
  main_at calling_start none b = go_to checking_context b
  main_at calling_start (some err) b =
      must_switch_state starting failed
        (λ c. go_to returned (
          notify_last (to_failed starting err) (
            close_terminated
              (close_running (service_cancel (record c { failure_case = some err }))))))
        b
  main_at checking_context result b = go_to (after_check b.context) b
  main_at entering_running result b =
      must_switch_state starting running
        (λ c. go_to calling_running (notify_listeners to_running (close_running c))) b
  main_at calling_running result b = go_to (entering_stopping running result) b
  main_at (entering_stopping stopping_from err) result b =
      must_switch_state stopping_from stopping
        (λ c. go_to (cancelling err) (
          notify_listeners (to_stopping stopping_from)
            (if state_eq stopping_from starting then close_running c else c)))
        b
  main_at (cancelling failure) result b = go_to (calling_stopping failure) (service_cancel b)
  main_at (calling_stopping failure) result b = go_to (ending (or_else failure result)) b
  main_at (ending (some failure)) result b =
      must_switch_state stopping failed
        (λ c. go_to returned (
          notify_last (to_failed stopping failure)
            (close_terminated (record c { failure_case = some failure }))))
        b
  main_at (ending none) result b =
      must_switch_state stopping terminated
        (λ c. go_to returned (notify_last (to_terminated stopping) (close_terminated c))) b
  main_at returned result b = b

  unfoldable pub main_step : Option E → BasicService E → BasicService E
  unfolding main_at
  main_step result b = main_at b.main result b

  -- One atomic step of the service or of a caller.
  infix 10 ◌⟶◌
  pub data ◌⟶◌ (b : BasicService E) : BasicService E → Type 0 where
    by_start : (canceled : Bool) → b ⟶ (start_async canceled b).0
    by_stop_test : b ⟶ stop_async_test b
    by_stop_rest : (0 < b.stop_calls) → b ⟶ stop_async_rest b
    by_parent : b ⟶ cancel_from_outside b
    by_main : (result : Option E) → b ⟶ main_step result b

  -- The states that a new service can get into.
  pub data Reachable : BasicService E → Type 0 where
    at_first : Reachable new_basic_service
    later : {b c : BasicService E} → Reachable b → b ⟶ c → Reachable c

-- What `AwaitRunning` and `AwaitTerminated` return once their channel is closed.
pub data AwaitError (E : Type 0) : Type 0 where
  invalid_service_state : (state expected : State) → AwaitError E
  invalid_service_state_with_failure : (state expected : State) (failure : E) → AwaitError E

-- `awaitState` behind its channel, `none` for nil
unfoldable pub await_state : {E : Type 0} → State → BasicService E → Option (AwaitError E)
await_state expected b = if state_eq b.state expected then none else elim b.failure_case [
  | some failure ↦ some (invalid_service_state_with_failure b.state expected failure)
  | none ↦ some (invalid_service_state b.state expected)
]

-- `ServiceContext`, `none` for nil
unfoldable pub service_context : {E : Type 0} → BasicService E → Option Bool
service_context b = if state_eq b.state new then none else b.context
