-- ===== src/Ring/Do/Answers.antt =====
-- What ReplicationSet.Do returns once every instance has answered.
use dskit.Base.{
  All, Bool, Bool-cases, List, [], arith, count_if, count_if-le-length, false, inl, inr, leb,
  length, length-append, ltb, refl, true, ℕ, ◌++◌, ◌+◌, ◌-◌, ◌<◌, ◌∷◌, ◌≡◌, ◌≤◌,
}
use dskit.Ring.Types.{InstanceDesc}
use dskit.Ring.State.{ReplicationSet}
use dskit.Ring.Do.{
  default_result_tracker, Event, result, failure, canceled, Outcome, returned, failed_with,
  context_error, waiting, collect, do_all,
}

module _ {V E : Type 0} where
  abbrev pub is_failure : Event V E → Bool
  is_failure (result from v) = false
  is_failure (failure from e) = true
  is_failure canceled = false

  abbrev pub is_answer : Event V E → Bool
  is_answer (result from v) = true
  is_answer (failure from e) = true
  is_answer canceled = false

  -- The outcome that answers of any order lead to.
  abbrev pub Decides : ℕ → ℕ → ℕ → Outcome V E → Type 0
  Decides failures max_errors enough (returned results) =
      (failures ≤ max_errors) × (enough ≤ length results + max_errors)
  Decides failures max_errors enough (failed_with e) = max_errors < failures
  Decides failures max_errors enough context_error = ⊥
  Decides failures max_errors enough waiting = ⊥

  collect-Decides :
      (instances : List InstanceDesc) (max_errors n s f : ℕ) (results : List V)
      (events : List (Event V E))
      → All (λ e. is_answer e ≡ true) events
      → s + f + length events ≡ length instances
      → f ≤ max_errors
      → n ≡ f + count_if is_failure events
      → s ≡ length results
      → Decides n max_errors (length instances) (
          collect
            (default_result_tracker instances max_errors)
            (record {
              min_succeeded = length instances - max_errors;
              num_succeeded = s;
              num_errors = f;
              max_errors = max_errors;
            })
            results
            events)
  unfolding collect
  collect-Decides instances max_errors n s f results [] all_answer total few tally same =
      elim (Bool-cases (leb (length instances - max_errors) s)) [
        | inl enough ↦ rw enough (ground arith, ground arith)
        | inr short ↦ absurd (ground arith)
      ]
  collect-Decides instances max_errors n s f results (result i v ∷ events) all_answer total few
        tally same =
      let rest =
        collect-Decides instances max_errors n (s + 1) f (results ++ v ∷ []) events all_answer.1
          (omega (arith, total)) few tally (omega (arith, same, length-append results (v ∷ []))) in
      elim (Bool-cases (leb (length instances - max_errors) s)) [
        | inl enough ↦
            rw enough (ground (arith, count_if-le-length is_failure events), ground arith)
        | inr short ↦ rw short rest
      ]
  collect-Decides instances max_errors n s f results (failure i e ∷ events) all_answer total few
        tally same =
      elim (Bool-cases (leb (length instances - max_errors) s)) [
        | inl enough ↦
            rw enough (ground (arith, count_if-le-length is_failure events), ground arith)
        | inr short ↦ rw short (elim (Bool-cases (ltb max_errors (f + 1))) [
          | inl over ↦ rw over (ground arith)
          | inr under ↦ rw under (
              collect-Decides instances max_errors n s (f + 1) results events all_answer.1
                (omega (arith, total)) (ground arith) (omega (arith, tally)) same)
        ])
      ]
  collect-Decides instances max_errors n s f results (canceled ∷ events) all_answer total few tally
        same =
      absurd (ground arith)

  -- Without zone awareness, and when every instance of the set answers, `Do` ends, whatever the
  -- order of the answers: with the results of at least all but `max_errors` instances if at most
  -- `max_errors` of them failed, and with an error if more did.
  pub do_all-Decides :
      (set : ReplicationSet) (events : List (Event V E))
      → set.max_unavailable_zones ≡ 0
      → All (λ e. is_answer e ≡ true) events
      → length events ≡ length set.instances
      → Decides
          (count_if is_failure events)
          set.max_errors
          (length set.instances)
          (do_all set events)
  unfolding do_all
  do_all-Decides set events plain all_answer total = rw plain (
      collect-Decides set.instances set.max_errors (count_if is_failure events) 0 0 [] events
        all_answer (omega (arith, total)) (omega arith) (omega arith) refl)
