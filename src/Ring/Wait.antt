-- ===== src/Ring/Wait.antt =====
-- ring/util.go: WaitInstanceState and waitStability, over what their polls find. When the polls are
-- over, the context is done.
use dskit.Base.{Bool, List, Option, [], false, if◌then◌else◌, leb, none, some, true, ℕ, ◌-◌, ◌∷◌}
use dskit.Ring.Types.{InstanceState, state_eq}
use dskit.Ring.State.{ReplicationSet}
mod Stable
mod Examples

-- `WaitInstanceState`, over the states that GetInstanceState returns, `none` for its errors; whether
-- it returns nil
unfoldable pub wait_instance_state : InstanceState → List (Option InstanceState) → Bool
wait_instance_state state [] = false
wait_instance_state state (none ∷ polls) = wait_instance_state state polls
wait_instance_state state (some actual_state ∷ polls) =
    if state_eq actual_state state then true else wait_instance_state state polls

-- A poll of GetAllHealthy: the clock, and the set that it returns, which is empty on an error.
abbrev pub Poll : Type 0
Poll = ℕ × ReplicationSet

module _ (is_changed : ReplicationSet → ReplicationSet → Bool) (min_stability : ℕ) where
  -- the loop of `waitStability`, with the last state and its time; whether it returns nil
  unfoldable pub wait_loop : ReplicationSet → ℕ → List Poll → Bool
  wait_loop ring_last_state ring_last_state_ts [] = false
  wait_loop ring_last_state ring_last_state_ts ((now, curr_ring_state) ∷ polls) =
      let changed = wait_loop curr_ring_state now polls in
      let unchanged = wait_loop ring_last_state ring_last_state_ts polls in
      if is_changed ring_last_state curr_ring_state
      then changed
      else if leb min_stability (now - ring_last_state_ts)
      then true
      else unchanged

  -- `waitStability`, whose first poll is at once
  unfoldable pub wait_stability : Poll → List Poll → Bool
  unfolding wait_loop
  wait_stability (now, ring_last_state) polls = wait_loop ring_last_state now polls
