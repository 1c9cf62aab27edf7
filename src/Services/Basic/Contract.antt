-- ===== src/Services/Basic/Contract.antt =====
-- What BasicService promises to its callers and listeners.
use dskit.Base.{
  Bool, List, Option, [], ap, arith, false, if◌then◌else◌, inl, inr, length, none, not, refl, some,
  subst, sym, true, ℕ, ◌-◌, ◌||◌, ◌∙◌, ◌∷◌, ◌≡◌, ◌≤◌, ◌⊎◌,
}
use dskit.Services.Basic.{
  State, new, starting, running, stopping, terminated, failed, state_eq, Notice, to_starting,
  to_running, to_stopping, to_terminated, to_failed, Main, idle, calling_start, checking_context,
  entering_running, calling_running, returned, entering_stopping, cancelling, calling_stopping,
  ending, BasicService, main_step, main_at, after_check, must_switch_state, switch_state, Reachable,
  later, by_main, await_state, invalid_service_state_with_failure,
}
use dskit.Services.Basic.Lifecycle.{
  is_some, Looks, Started, trail, At, reach-At, same_test, cancel-some,
}

-- the channels that a service in a state has closed
abbrev pub is_terminal : State → Bool
is_terminal s = state_eq s terminated || state_eq s failed

abbrev pub is_past_starting : State → Bool
is_past_starting s = not (state_eq s new || state_eq s starting)

abbrev pub once : Bool → ℕ
once b = if b then 1 else 0

module _ {E : Type 0} where
  -- the state that a notice tells of
  abbrev pub target : Notice E → State
  target to_starting = starting
  target to_running = running
  target (to_stopping from) = stopping
  target (to_terminated from) = terminated
  target (to_failed from err) = failed

  -- The transitions of services/service.go, and the state that a notice says was left.
  abbrev pub Leaves : State → Notice E → Type 0
  Leaves s to_starting = s ≡ new
  Leaves s to_running = s ≡ starting
  Leaves s (to_stopping from) = (s ≡ from) × ((from ≡ starting) ⊎ (from ≡ running))
  Leaves s (to_terminated from) = (s ≡ from) × ((from ≡ new) ⊎ (from ≡ stopping))
  Leaves s (to_failed from err) = (s ≡ from) × ((from ≡ starting) ⊎ (from ≡ stopping))

  -- The notices tell of each transition from one state to another, in order.
  abbrev pub IsPath : State → List (Notice E) → State → Type 0
  IsPath s [] t = s ≡ t
  IsPath s (n ∷ ns) t = Leaves s n × IsPath (target n) ns t

  pub record Contract (b : BasicService E) : Type 0 where
    pub told : IsPath new b.notices b.state
    pub room : length b.notices ≤ 4
    pub running_closed : b.running_closes ≡ once (is_past_starting b.state)
    pub terminated_closed : b.terminated_closes ≡ once (is_terminal b.state)
    pub listeners_closed : b.listener_closes ≡ once (is_terminal b.state)
    pub failure : is_some b.failure_case ≡ state_eq b.state failed
    pub switches : b.switch_failed ≡ false

  Looks-Contract :
      (b : BasicService E) {s : State} {ns : List (Notice E)} {f : Option E}
      → Looks s (once (is_past_starting s)) (once (is_terminal s)) ns f b
      → IsPath new ns s
      → length ns ≤ 4
      → is_some f ≡ state_eq s failed
      → Contract b
  Looks-Contract b {s} {ns} {f} (state, run, term, listen, notices, fails, ok) path few has =
      record {
        told =
            subst (λ ms. IsPath new ms b.state) (sym notices)
              (subst (IsPath new ns) (sym state) path);
        room = subst (λ ms. length ms ≤ 4) (sym notices) few;
        running_closed = run ∙ ap (λ t. once (is_past_starting t)) (sym state);
        terminated_closed = term ∙ ap (λ t. once (is_terminal t)) (sym state);
        listeners_closed = listen ∙ ap (λ t. once (is_terminal t)) (sym state);
        failure = ap is_some fails ∙ has ∙ ap (λ t. state_eq t failed) (sym state);
        switches = ok;
      }

  stopping-Contract :
      (b : BasicService E) (ran : Bool) → Looks stopping 1 0 (trail ran) none b → Contract b
  stopping-Contract b true l =
      Looks-Contract b l (refl, (refl, ((refl, inr refl), refl))) (omega arith) refl
  stopping-Contract b false l =
      Looks-Contract b l (refl, ((refl, inl refl), refl)) (omega arith) refl

  At-Contract : (m : Main E) (b : BasicService E) → At m b → Contract b
  At-Contract idle b (inl l, c) = Looks-Contract b l refl (omega arith) refl
  At-Contract idle b (inr l, c) = Looks-Contract b l ((refl, inl refl), refl) (omega arith) refl
  At-Contract calling_start b (l, c) = Looks-Contract b l (refl, refl) (omega arith) refl
  At-Contract checking_context b (l, c) = Looks-Contract b l (refl, refl) (omega arith) refl
  At-Contract entering_running b (l, c) = Looks-Contract b l (refl, refl) (omega arith) refl
  At-Contract calling_running b (l, c) = Looks-Contract b l (refl, (refl, refl)) (omega arith) refl
  At-Contract (entering_stopping from err) b (inl (e, l), c) =
      Looks-Contract b l (refl, refl) (omega arith) refl
  At-Contract (entering_stopping from err) b (inr (e, l), c) =
      Looks-Contract b l (refl, (refl, refl)) (omega arith) refl
  At-Contract (cancelling f) b ((ran, l), c) = stopping-Contract b ran l
  At-Contract (calling_stopping f) b ((ran, l), c) = stopping-Contract b ran l
  At-Contract (ending f) b ((ran, l), c) = stopping-Contract b ran l
  At-Contract returned b (inl (err, l), c) =
      Looks-Contract b l (refl, ((refl, inl refl), refl)) (omega arith) refl
  At-Contract returned b (inr (true, inl l), c) =
      Looks-Contract b l (refl, (refl, ((refl, inr refl), ((refl, inr refl), refl)))) (omega arith)
        refl
  At-Contract returned b (inr (false, inl l), c) =
      Looks-Contract b l (refl, ((refl, inl refl), ((refl, inr refl), refl))) (omega arith) refl
  At-Contract returned b (inr (true, inr (err, l)), c) =
      Looks-Contract b l (refl, (refl, ((refl, inr refl), ((refl, inr refl), refl)))) (omega arith)
        refl
  At-Contract returned b (inr (false, inr (err, l)), c) =
      Looks-Contract b l (refl, ((refl, inl refl), ((refl, inr refl), refl))) (omega arith) refl

  -- A service that calls of any order and the steps of `main` have led to has told its listeners of
  -- each of its transitions, in order and with the state that it left; they are at most the four
  -- that a listener's channel has room for; each channel is closed exactly once, when its state is
  -- reached or cannot be; a failure is kept exactly in Failed; and no switch of `main` has failed.
  pub reach-Contract : {b : BasicService E} → Reachable b → Contract b
  reach-Contract {b} r = At-Contract b.main b (reach-At r)

  -- Once the channel of AwaitTerminated is closed, it returns nil if the service is Terminated, and
  -- otherwise the service is Failed and it returns an error with the failure that was kept.
  pub await_terminated :
      {b : BasicService E}
      → Reachable b
      → b.terminated_closes ≡ 1
      → ((b.state ≡ terminated) × (await_state terminated b ≡ none))
        ⊎ ((err : E) × (b.state ≡ failed)
            × (b.failure_case ≡ some err)
            × (await_state terminated b
                ≡ some (invalid_service_state_with_failure failed terminated err)))
  unfolding await_state
  await_terminated {b} r closed = go b.state refl b.failure_case refl
    where
      keeps : Contract b
      keeps = reach-Contract r

      go :
          (s : State)
          → b.state ≡ s
          → (f : Option E) → b.failure_case ≡ f
          → ((b.state ≡ terminated) × (await_state terminated b ≡ none))
            ⊎ ((err : E) × (b.state ≡ failed)
                × (b.failure_case ≡ some err)
                × (await_state terminated b
                    ≡ some (invalid_service_state_with_failure failed terminated err)))
      go terminated e f g = inl (e, rw e refl)
      go failed e (some err) g = inr (err, e, g, rw g (rw e refl))
      go failed e none g = ground (arith, keeps.failure)
      go s e f g = ground (arith, keeps.terminated_closed)

  -- The steps of `main` that are left at most.
  abbrev pub steps_left : Main E → ℕ
  steps_left calling_start = 8
  steps_left checking_context = 7
  steps_left entering_running = 6
  steps_left calling_running = 5
  steps_left (entering_stopping from err) = 4
  steps_left (cancelling f) = 3
  steps_left (calling_stopping f) = 2
  steps_left (ending f) = 1
  steps_left m = 0

  -- `main` goes on, where the calls return these results.
  abbrev pub run_main : List (Option E) → BasicService E → BasicService E
  run_main [] b = b
  run_main (result ∷ results) b = run_main results (main_step result b)

  main_at-less :
      (m : Main E) (result : Option E) (b : BasicService E)
      → At m b
      → Started b
      → b.main ≡ m
      → Started (main_at m result b) × (steps_left (main_at m result b).main ≤ steps_left m - 1)
  unfolding main_at must_switch_state switch_state
  main_at-less idle result b h up e = ground arith
  main_at-less calling_start none b h up e = (up, omega arith)
  main_at-less calling_start (some err) b (l, c) up e =
      rw (same_test l.0) (cancel-some b.context ∙ up, omega arith)
  main_at-less checking_context result b h up e = go b.context
    where
      go : (o : Option Bool) → Started b × (steps_left (after_check {E = E} o) ≤ 6)
      go none = (up, omega arith)
      go (some true) = (up, omega arith)
      go (some false) = (up, omega arith)
  main_at-less entering_running result b (l, c) up e = rw (same_test l.0) (up, omega arith)
  main_at-less calling_running result b h up e = (up, omega arith)
  main_at-less (entering_stopping starting err) result b (inl (same, l), c) up e =
      rw (same_test l.0) (up, omega arith)
  main_at-less (entering_stopping running err) result b (inr (same, l), c) up e =
      rw (same_test l.0) (up, omega arith)
  main_at-less (entering_stopping from err) result b (inl (same, l), c) up e = absurd (cc)
  main_at-less (entering_stopping from err) result b (inr (same, l), c) up e = absurd (cc)
  main_at-less (cancelling failure) result b h up e = (cancel-some b.context ∙ up, omega arith)
  main_at-less (calling_stopping failure) result b h up e = (up, omega arith)
  main_at-less (ending none) result b ((ran, l), c) up e = rw (same_test l.0) (up, omega arith)
  main_at-less (ending (some err)) result b ((ran, l), c) up e =
      rw (same_test l.0) (up, omega arith)
  main_at-less returned result b h up e = ground arith

  main_step-less :
      (result : Option E) (b : BasicService E)
      → Reachable b
      → Started b
      → Started (main_step result b)
        × (steps_left (main_step result b).main ≤ steps_left b.main - 1)
  unfolding main_step
  main_step-less result b r up = main_at-less b.main result b (reach-At r) up refl

  over-terminal :
      (m : Main E) (b : BasicService E)
      → At m b
      → Started b
      → steps_left m ≤ 0
      → is_terminal b.state ≡ true
  over-terminal idle b (l, c) up few = ground arith
  over-terminal returned b (inl (err, l), c) up few = ground arith
  over-terminal returned b (inr (ran, inl l), c) up few = ground arith
  over-terminal returned b (inr (ran, inr (err, l)), c) up few = ground arith
  over-terminal m b h up few = absurd (omega arith)

  -- Whatever the three functions return, the goroutine of a service that was started ends after at
  -- most eight steps, in Terminated or Failed.
  pub run_main-ends :
      (results : List (Option E)) (b : BasicService E)
      → Reachable b
      → Started b
      → 8 ≤ length results
      → is_terminal (run_main results b).state ≡ true
  run_main-ends results b r up few = go results b r up (omega (arith, few_left b.main))
    where
      few_left : (m : Main E) → steps_left m ≤ 8
      few_left m = ground arith

      go :
          (results : List (Option E)) (b : BasicService E)
          → Reachable b
          → Started b
          → steps_left b.main ≤ length results
          → is_terminal (run_main results b).state ≡ true
      go [] b r up few = over-terminal b.main b (reach-At r) up few
      go (result ∷ results) b r up few =
          let (up', less) = main_step-less result b r up in
          go results (main_step result b) (later r (by_main result)) up' (omega (arith, less, few))
