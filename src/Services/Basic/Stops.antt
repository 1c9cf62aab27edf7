-- ===== src/Services/Basic/Stops.antt =====
-- StopAsync of services/basic_service.go when several callers run it at once.
use dskit.Base.{
  Bool, Bool-cases, Option, Option-cases, ap, arith, false, if◌then◌else◌, inl, inr, none, refl,
  some, subst, sym, true, ◌-◌, ◌||◌, ◌≡◌,
}
use dskit.Services.Basic.{
  State, new, starting, running, stopping, terminated, failed, state_eq, Main, idle, calling_start,
  checking_context, entering_running, calling_running, returned, entering_stopping, cancelling,
  calling_stopping, ending, BasicService, new_basic_service, canceled_context, service_cancel,
  notify_last, close_terminated, close_running, to_terminated, switch_state, must_switch_state,
  start_async, stop_async_test, stop_async_rest, cancel_from_outside, main_at, main_step, ◌⟶◌,
  by_start, by_stop_test, by_stop_rest, by_parent, by_main, Reachable, at_first, later,
}
use dskit.Services.Basic.Lifecycle.{Started, At, is_some, reach-At, same_test}

module _ {E : Type 0} where
  abbrev pub Safe : BasicService E → Type 0
  Safe b = b.nil_cancel ≡ true → (b.state ≡ terminated) × (b.context ≡ none)

  no_context :
      (m : Main E) (b : BasicService E)
      → At m b
      → b.context ≡ none
      → state_eq b.state new ≡ false
      → b.state ≡ terminated
  no_context idle b (inl l, c) e old = ground arith
  no_context idle b (inr l, c) e old = l.0
  no_context calling_start b (l, c) e old = ground arith
  no_context checking_context b (l, c) e old = ground arith
  no_context entering_running b (l, c) e old = ground arith
  no_context calling_running b (l, c) e old = ground arith
  no_context returned b (l, c) e old = ground arith
  no_context (entering_stopping from err) b (l, c) e old = ground arith
  no_context (cancelling f) b (l, c) e old = ground arith
  no_context (calling_stopping f) b (l, c) e old = ground arith
  no_context (ending f) b (l, c) e old = ground arith

  start-Safe : (canceled : Bool) (b : BasicService E) → Safe b → Safe (start_async canceled b).0
  unfolding start_async switch_state
  start-Safe canceled b safe = elim (Bool-cases (state_eq b.state new)) [
    | inl fresh ↦ rw fresh (λ hit. ground (arith, safe hit))
    | inr other ↦ rw other safe
  ]

  test-Safe : (b : BasicService E) → Safe b → Safe (stop_async_test b)
  unfolding stop_async_test
  test-Safe b safe =
      elim (Bool-cases
        (state_eq b.state stopping || (state_eq b.state terminated || state_eq b.state failed))) [
          | inl over ↦ rw over safe
          | inr going ↦ rw going safe
        ]

  not_switched :
      (from to : State) (state_fn : BasicService E → BasicService E) (b : BasicService E)
      → state_eq b.state from ≡ false
      → switch_state from to state_fn b ≡ (b, false)
  unfolding switch_state
  not_switched from to state_fn b other = rw other refl

  rest-cancel :
      (b : BasicService E)
      → state_eq b.state new ≡ false
      → stop_async_rest b ≡ service_cancel (record b { stop_calls = b.stop_calls - 1 })
  unfolding stop_async_rest
  rest-cancel b other =
      ap (λ ((c, switched) : BasicService E × Bool). if switched then c else service_cancel c)
        (not_switched new terminated
          (λ c. notify_last (to_terminated new) (close_terminated (close_running c)))
          (record b { stop_calls = b.stop_calls - 1 }) other)

  cancel-Safe :
      (b : BasicService E)
      → (b.context ≡ none → b.state ≡ terminated)
      → Safe b
      → Safe (service_cancel b)
  cancel-Safe b ended safe = go b.context refl
    where
      go :
          (o : Option Bool)
          → b.context ≡ o
          → (elim o [ none ↦ true | some _ ↦ b.nil_cancel ]) ≡ true
          → (b.state ≡ terminated) × (canceled_context o ≡ none)
      go none e hit = (ended e, refl)
      go (some c) e hit = ground (arith, safe hit)

  ended-Safe :
      (b : BasicService E) → Safe b → state_eq b.state new ≡ true → Safe (stop_async_rest b)
  unfolding stop_async_rest switch_state
  ended-Safe b safe fresh = rw fresh (λ hit. (refl, (safe hit).1))

  rest-Safe : (b : BasicService E) → At b.main b → Safe b → Safe (stop_async_rest b)
  rest-Safe b h safe = elim (Bool-cases (state_eq b.state new)) [
    | inl fresh ↦ ended-Safe b safe fresh
    | inr other ↦ subst Safe (sym (rest-cancel b other)) (
        cancel-Safe (record b { stop_calls = b.stop_calls - 1 })
          (λ e. no_context b.main b h e other) safe)
  ]

  main_at-nil :
      (m : Main E) (result : Option E) (b : BasicService E)
      → At m b
      → Started b
      → (main_at m result b).nil_cancel ≡ b.nil_cancel
  unfolding main_at must_switch_state switch_state
  main_at-nil idle result b h up = refl
  main_at-nil calling_start none b h up = refl
  main_at-nil calling_start (some err) b (l, c) up = rw (same_test l.0) (ground arith)
  main_at-nil checking_context result b h up = refl
  main_at-nil entering_running result b (l, c) up = rw (same_test l.0) refl
  main_at-nil calling_running result b h up = refl
  main_at-nil (entering_stopping starting err) result b (inl (same, l), c) up =
      rw (same_test l.0) refl
  main_at-nil (entering_stopping running err) result b (inr (same, l), c) up =
      rw (same_test l.0) refl
  main_at-nil (entering_stopping from err) result b (inl (same, l), c) up = absurd (cc)
  main_at-nil (entering_stopping from err) result b (inr (same, l), c) up = absurd (cc)
  main_at-nil (cancelling failure) result b h up = ground arith
  main_at-nil (calling_stopping failure) result b h up = refl
  main_at-nil (ending none) result b ((ran, l), c) up = rw (same_test l.0) refl
  main_at-nil (ending (some err)) result b ((ran, l), c) up = rw (same_test l.0) refl
  main_at-nil returned result b h up = refl

  no_main : (m : Main E) (b : BasicService E) → At m b → b.context ≡ none → m ≡ idle
  no_main idle b h e = refl
  no_main calling_start b (l, c) e = ground arith
  no_main checking_context b (l, c) e = ground arith
  no_main entering_running b (l, c) e = ground arith
  no_main calling_running b (l, c) e = ground arith
  no_main returned b (l, c) e = ground arith
  no_main (entering_stopping from err) b (l, c) e = ground arith
  no_main (cancelling f) b (l, c) e = ground arith
  no_main (calling_stopping f) b (l, c) e = ground arith
  no_main (ending f) b (l, c) e = ground arith

  idle_step :
      (m : Main E) (result : Option E) (b : BasicService E) → m ≡ idle → main_at m result b ≡ b
  unfolding main_at
  idle_step m result b e = rw e refl

  main-Safe :
      (result : Option E) (b : BasicService E) → At b.main b → Safe b → Safe (main_step result b)
  unfolding main_step
  main-Safe result b h safe = elim (Option-cases b.context) [
    | inl e ↦ subst Safe (sym (idle_step b.main result b (no_main b.main b h e))) safe
    | inr (c, e) ↦ λ hit. ground (arith, main_at-nil b.main result b h (ap is_some e), safe)
  ]

  step-Safe : {b c : BasicService E} → b ⟶ c → At b.main b → Safe b → Safe c
  unfolding cancel_from_outside
  step-Safe {b} (by_start canceled) h safe = start-Safe canceled b safe
  step-Safe {b} by_stop_test h safe = test-Safe b safe
  step-Safe {b} (by_stop_rest some_call) h safe = rest-Safe b h safe
  step-Safe {b} by_parent h safe = λ hit. ((safe hit).0, ap canceled_context (safe hit).1)
  step-Safe {b} (by_main result) h safe = main-Safe result b h safe

  -- StopAsync calls a nil cancel function, and panics, at most in a service that was stopped before
  -- it was ever started: the service is Terminated and has no context. In particular every call of
  -- StopAsync after a start is safe, whatever runs at the same time.
  pub nil_cancel-stopped :
      {b : BasicService E}
      → Reachable b
      → b.nil_cancel ≡ true
      → (b.state ≡ terminated) × (b.context ≡ none)
  unfolding new_basic_service
  nil_cancel-stopped at_first hit = cc
  nil_cancel-stopped (later before step) hit =
      step-Safe step (reach-At before) (nil_cancel-stopped before) hit
