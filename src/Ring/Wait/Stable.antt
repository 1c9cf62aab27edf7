-- ===== src/Ring/Wait/Stable.antt =====
-- ring/util.go: when waitStability returns without an error.
use dskit.Base.{
  Bool, Bool-cases, List, [], arith, false, inl, inr, leb, true, ℕ, ◌-◌, ◌∷◌, ◌≡◌, ◌≤◌, ◌⊎◌,
}
use dskit.Ring.State.{ReplicationSet}
use dskit.Ring.Wait.{Poll, wait_loop, wait_stability}

-- The first polls find no change from a state, up to one that comes the minimum time after `since`.
pub data StaysFor (is_changed : ReplicationSet → ReplicationSet → Bool) (min_stability : ℕ)
    (state : ReplicationSet) (since : ℕ) : List Poll → Type 0 where
  long_enough :
      (now : ℕ) (curr : ReplicationSet) (polls : List Poll)
      → is_changed state curr ≡ false
      → min_stability ≤ now - since
      → StaysFor is_changed min_stability state since ((now, curr) ∷ polls)
  no_change :
      (now : ℕ) (curr : ReplicationSet) (polls : List Poll)
      → is_changed state curr ≡ false
      → StaysFor is_changed min_stability state since polls
      → StaysFor is_changed min_stability state since ((now, curr) ∷ polls)

-- From the state of some poll on, the polls find no change for the minimum time.
pub data IsStable (is_changed : ReplicationSet → ReplicationSet → Bool) (min_stability : ℕ)
    : List Poll → Type 0 where
  from_poll :
      (now : ℕ) (state : ReplicationSet) (polls : List Poll)
      → StaysFor is_changed min_stability state now polls
      → IsStable is_changed min_stability ((now, state) ∷ polls)
  from_later :
      (poll : Poll) (polls : List Poll)
      → IsStable is_changed min_stability polls
      → IsStable is_changed min_stability (poll ∷ polls)

module _ (is_changed : ReplicationSet → ReplicationSet → Bool) (min_stability : ℕ) where
  wait_loop-IsStable :
      (state : ReplicationSet) (since : ℕ) (polls : List Poll)
      → wait_loop is_changed min_stability state since polls ≡ true
      → StaysFor is_changed min_stability state since polls
        ⊎ IsStable is_changed min_stability polls
  unfolding wait_loop
  wait_loop-IsStable state since [] h = cc
  wait_loop-IsStable state since ((now, curr) ∷ polls) h =
      elim (Bool-cases (is_changed state curr)) [
        | inl changed ↦ elim (wait_loop-IsStable curr now polls (ground arith)) [
          | inl stays ↦ inr (from_poll now curr polls stays)
          | inr stable ↦ inr (from_later (now, curr) polls stable)
        ]
        | inr same ↦ elim (Bool-cases (leb min_stability (now - since))) [
          | inl long ↦ inl (long_enough now curr polls same (ground arith))
          | inr short ↦ elim (wait_loop-IsStable state since polls (ground arith)) [
            | inl stays ↦ inl (no_change now curr polls same stays)
            | inr stable ↦ inr (from_later (now, curr) polls stable)
          ]
        ]
      ]

  -- `wait_stability` returns nil only after the ring has stayed as some poll found it, without a
  -- change that the test tells, for the minimum time.
  pub wait_stability-IsStable :
      (first : Poll) (polls : List Poll)
      → wait_stability is_changed min_stability first polls ≡ true
      → IsStable is_changed min_stability (first ∷ polls)
  unfolding wait_stability
  wait_stability-IsStable (now, state) polls h = elim (wait_loop-IsStable state now polls h) [
    | inl stays ↦ from_poll now state polls stays
    | inr stable ↦ from_later (now, state) polls stable
  ]
