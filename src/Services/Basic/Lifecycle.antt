-- ===== src/Services/Basic/Lifecycle.antt =====
-- The lifecycle of a BasicService: its invariant.
use dskit.Base.{
  Bool, Bool-cases, List, Option, [], arith, false, if◌then◌else◌, inl, inr, none, refl, some,
  subst, sym, true, ℕ, ◌++◌, ◌+◌, ◌||◌, ◌∙◌, ◌∷◌, ◌≡◌, ◌⊎◌,
}
use dskit.Services.Basic.{
  State, new, starting, running, stopping, terminated, failed, state_eq, Notice, to_starting,
  to_running, to_stopping, to_terminated, to_failed, Main, idle, calling_start, checking_context,
  entering_running, calling_running, returned, entering_stopping, cancelling, calling_stopping,
  ending, BasicService, canceled_context, new_basic_service, after_check, switch_state,
  must_switch_state, start_async, stop_async_test, stop_async_rest, cancel_from_outside, main_at,
  main_step, ◌⟶◌, by_start, by_stop_test, by_stop_rest, by_parent, by_main, Reachable, at_first,
  later,
}

abbrev pub is_some {ℓ} : {A : Type ℓ} → Option A → Bool
is_some none = false
is_some (some a) = true

state_same : (s t : State) → state_eq s t ≡ true → s ≡ t
state_same s t e = ground arith

pub same_test : {s t : State} → s ≡ t → state_eq s t ≡ true
same_test e = ground arith

pub cancel-some : (o : Option Bool) → is_some (canceled_context o) ≡ is_some o
cancel-some none = refl
cancel-some (some c) = refl

module _ {E : Type 0} where
  -- What a service looks like: its state, the closes of its channels, its notices and its failure.
  abbrev pub Looks : State → ℕ → ℕ → List (Notice E) → Option E → BasicService E → Type 0
  Looks state running_closes terminated_closes notices failure b =
      (b.state ≡ state)
      × (b.running_closes ≡ running_closes)
      × (b.terminated_closes ≡ terminated_closes)
      × (b.listener_closes ≡ terminated_closes)
      × (b.notices ≡ notices)
      × (b.failure_case ≡ failure)
      × (b.switch_failed ≡ false)

  abbrev pub Started : BasicService E → Type 0
  Started b = is_some b.context ≡ true

  abbrev pub trail : Bool → List (Notice E)
  trail ran =
      if ran
      then to_starting ∷ to_running ∷ to_stopping running ∷ []
      else to_starting ∷ to_stopping starting ∷ []

  abbrev pub At : Main E → BasicService E → Type 0
  At idle b =
      (Looks new 0 0 [] none b ⊎ Looks terminated 1 1 (to_terminated new ∷ []) none b)
      × (b.context ≡ none)
  At calling_start b = Looks starting 0 0 (to_starting ∷ []) none b × Started b
  At checking_context b = Looks starting 0 0 (to_starting ∷ []) none b × Started b
  At entering_running b = Looks starting 0 0 (to_starting ∷ []) none b × Started b
  At calling_running b = Looks running 1 0 (to_starting ∷ to_running ∷ []) none b × Started b
  At (entering_stopping from err) b =
      (((from ≡ starting) × Looks starting 0 0 (to_starting ∷ []) none b)
        ⊎ ((from ≡ running) × Looks running 1 0 (to_starting ∷ to_running ∷ []) none b))
      × Started b
  At (cancelling failure) b = ((ran : Bool) × Looks stopping 1 0 (trail ran) none b) × Started b
  At (calling_stopping failure) b =
      ((ran : Bool) × Looks stopping 1 0 (trail ran) none b) × Started b
  At (ending failure) b = ((ran : Bool) × Looks stopping 1 0 (trail ran) none b) × Started b
  At returned b =
      (((err : E) × Looks failed 1 1 (to_starting ∷ to_failed starting err ∷ []) (some err) b)
        ⊎ ((ran : Bool) × (Looks terminated 1 1 (trail ran ++ to_terminated stopping ∷ []) none b
              ⊎ ((err : E) × Looks failed 1 1 (trail ran ++ to_failed stopping err ∷ []) (some err)
                    b))))
      × Started b

  first-At : At idle (new_basic_service {E = E})
  unfolding new_basic_service
  first-At = (inl (refl, refl, refl, refl, refl, refl, refl), refl)

  -- Only a service whose `main` does not run yet is New.
  new_idle :
      (m : Main E) (b : BasicService E)
      → At m b
      → state_eq b.state new ≡ true
      → (m ≡ idle) × Looks new 0 0 [] none b × (b.context ≡ none)
  new_idle idle b (inl l, c) e = (refl, l, c)
  new_idle idle b (inr l, c) e = ground arith
  new_idle m b h e = ground arith

  -- Canceling a context, and what is left of StopAsync, change nothing of that.
  context-At :
      (m : Main E) (b : BasicService E) (context : Option Bool) (stop_calls : ℕ) (nil_cancel : Bool)
      → is_some context ≡ is_some b.context
      → At m b
      → At m (record b { context = context; stop_calls = stop_calls; nil_cancel = nil_cancel })
  context-At idle b none n x e (l, c) = (l, refl)
  context-At idle b (some o) n x e (l, c) = ground arith
  context-At calling_start b o n x e (l, c) = (l, e ∙ c)
  context-At checking_context b o n x e (l, c) = (l, e ∙ c)
  context-At entering_running b o n x e (l, c) = (l, e ∙ c)
  context-At calling_running b o n x e (l, c) = (l, e ∙ c)
  context-At (entering_stopping from err) b o n x e (l, c) = (l, e ∙ c)
  context-At (cancelling failure) b o n x e (l, c) = (l, e ∙ c)
  context-At (calling_stopping failure) b o n x e (l, c) = (l, e ∙ c)
  context-At (ending failure) b o n x e (l, c) = (l, e ∙ c)
  context-At returned b o n x e (l, c) = (l, e ∙ c)

  start-At :
      (canceled : Bool) (b : BasicService E)
      → At b.main b
      → At (start_async canceled b).0.main (start_async canceled b).0
  unfolding start_async switch_state
  start-At canceled b h = elim (Bool-cases (state_eq b.state new)) [
    | inl fresh ↦ let (at_idle, l, c) = new_idle b.main b h fresh in rw fresh (ground arith)
    | inr other ↦ rw other h
  ]

  rest-At : (b : BasicService E) → At b.main b → At (stop_async_rest b).main (stop_async_rest b)
  unfolding stop_async_rest switch_state
  rest-At b h = elim (Bool-cases (state_eq b.state new)) [
    | inl fresh ↦
        let (at_idle, l, c) = new_idle b.main b h fresh in
        rw fresh (rw at_idle (inr (ground arith), c))
    | inr other ↦ rw other (context-At b.main b _ _ _ (cancel-some b.context) h)
  ]

  main-At :
      (m : Main E) (result : Option E) (b : BasicService E)
      → b.main ≡ m
      → At m b
      → At (main_at m result b).main (main_at m result b)
  unfolding main_at must_switch_state switch_state
  main-At idle result b e h = subst (λ x. At x b) (sym e) h
  main-At calling_start none b e h = h
  main-At calling_start (some err) b e (l, c) =
      rw (same_test l.0) (ground (arith, cancel-some b.context))
  main-At checking_context result b e (l, c) = go b.context c
    where
      go :
          (o : Option Bool)
          → is_some o ≡ true
          → At (after_check o) (record b { main = after_check o })
      go none started = ground arith
      go (some true) started = (inl (refl, l), c)
      go (some false) started = (l, c)
  main-At entering_running result b e (l, c) = rw (same_test l.0) (ground arith)
  main-At calling_running result b e h = (inr (refl, h.0), h.1)
  main-At (entering_stopping starting err) result b e (inl (same, l), c) =
      rw (same_test l.0) ((false, ground arith), c)
  main-At (entering_stopping running err) result b e (inr (same, l), c) =
      rw (same_test l.0) ((true, ground arith), c)
  main-At (entering_stopping from err) result b e (inl (same, l), c) = absurd (cc)
  main-At (entering_stopping from err) result b e (inr (same, l), c) = absurd (cc)
  main-At (cancelling failure) result b e (l, c) = (l, cancel-some b.context ∙ c)
  main-At (calling_stopping failure) result b e h = h
  main-At (ending none) result b e ((ran, l), c) =
      rw (same_test l.0) (inr (ran, inl (ground arith)), c)
  main-At (ending (some err)) result b e ((ran, l), c) =
      rw (same_test l.0) (inr (ran, inr (err, ground arith)), c)
  main-At returned result b e h = subst (λ x. At x b) (sym e) h

  test-At : (b : BasicService E) → At b.main b → At (stop_async_test b).main (stop_async_test b)
  unfolding stop_async_test
  test-At b h =
      elim (Bool-cases
        (state_eq b.state stopping || (state_eq b.state terminated || state_eq b.state failed))) [
          | inl over ↦ rw over h
          | inr going ↦
              rw going (context-At b.main b b.context (b.stop_calls + 1) b.nil_cancel refl h)
        ]

  step-At : {b c : BasicService E} → b ⟶ c → At b.main b → At c.main c
  unfolding main_step cancel_from_outside
  step-At {b} (by_start canceled) h = start-At canceled b h
  step-At {b} by_stop_test h = test-At b h
  step-At {b} (by_stop_rest some_call) h = rest-At b h
  step-At {b} by_parent h =
      context-At b.main b (canceled_context b.context) b.stop_calls b.nil_cancel
        (cancel-some b.context) h
  step-At {b} (by_main result) h = main-At b.main result b refl h

  pub reach-At : {b : BasicService E} → Reachable b → At b.main b
  unfolding new_basic_service
  reach-At at_first = first-At
  reach-At (later before step) = step-At step (reach-At before)
