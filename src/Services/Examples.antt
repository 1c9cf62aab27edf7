-- ===== src/Services/Examples.antt =====
-- The theorems on services at concrete lives, and tests of their operations.
use dskit.Base.{List, Option, [], arith, false, none, refl, some, true, ℕ, ◌∷◌, ◌≡◌}
use dskit.Services.Basic.{
  terminated, BasicService, new_basic_service, start_async, stop_async_test, stop_async_rest,
  main_step, Reachable, at_first, later, by_start, by_main, by_stop_test, by_stop_rest,
}
use dskit.Services.Basic.Contract.{Contract, reach-Contract, run_main, run_main-ends, is_terminal}
use dskit.Services.Basic.Stops.{nil_cancel-stopped}

abbrev started : BasicService ℕ
started = (start_async false new_basic_service).0

started-Reachable : Reachable started
started-Reachable = later at_first (by_start false)

abbrev broken : BasicService ℕ
broken = main_step (some 7) started

broken-Reachable : Reachable broken
broken-Reachable = later started-Reachable (by_main (some 7))

reach-Contract_example : Contract broken
reach-Contract_example = reach-Contract broken-Reachable

abbrev results : List (Option ℕ)
results = none ∷ none ∷ none ∷ some 3 ∷ none ∷ none ∷ none ∷ none ∷ []

run_main-ends_example : is_terminal (run_main results started).state ≡ true
unfolding start_async new_basic_service
run_main-ends_example = run_main-ends results started started-Reachable refl (omega arith)

-- Two callers stop a new service at once: both pass the first test before one of them ends it, and
-- the other then calls a cancel function that there is none of.
abbrev stopped_twice : BasicService ℕ
stopped_twice =
    stop_async_rest (stop_async_rest (stop_async_test (stop_async_test new_basic_service)))

stopped_twice-Reachable : Reachable stopped_twice
unfolding stop_async_test new_basic_service stop_async_rest
stopped_twice-Reachable =
    later (later (later (later at_first by_stop_test) by_stop_test) (by_stop_rest (omega arith)))
      (by_stop_rest (omega arith))

stopped_twice_panics : stopped_twice.nil_cancel ≡ true
unfolding stop_async_rest stop_async_test new_basic_service
stopped_twice_panics = refl

nil_cancel-stopped_example : (stopped_twice.state ≡ terminated) × (stopped_twice.context ≡ none)
nil_cancel-stopped_example = nil_cancel-stopped stopped_twice-Reachable stopped_twice_panics
