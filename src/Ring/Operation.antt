-- ===== src/Ring/Operation.antt =====
-- ring/ring.go: an Operation is a bitmap, the healthy states in its lower and the states that extend
-- the replica set in its upper 16 bits.
use dskit.Base.{Bool, List, Option, [], if◌then◌else◌, ltb, none, not, some, ℕ, ◌&&◌, ◌*◌, ◌^◌, ◌∷◌}
pub mod Bits
use Prim.Native.Nat.{bit_and, bit_or}
use dskit.Ring.Types.{
  InstanceState, active, leaving, pending, joining, left, state_number, state_eq,
}

-- the loop over `healthyStates`
unfoldable pub add_healthy : List InstanceState → ℕ → ℕ
add_healthy [] op = op
add_healthy (s ∷ rest) op = add_healthy rest (bit_or op (2 ^ state_number s))

-- the loop over the states that may extend the replica set
unfoldable pub add_extending : (InstanceState → Bool) → List InstanceState → ℕ → ℕ
add_extending f [] op = op
add_extending f (s ∷ rest) op =
    add_extending f rest (if f s then bit_or op (0x10000 * 2 ^ state_number s) else op)

-- `NewOp`; the function may be nil
unfoldable pub new_op : List InstanceState → Option (InstanceState → Bool) → ℕ
unfolding add_healthy add_extending
new_op healthy_states none = add_healthy healthy_states 0
new_op healthy_states (some f) =
    add_extending f (active ∷ leaving ∷ pending ∷ joining ∷ leaving ∷ left ∷ [])
      (add_healthy healthy_states 0)

unfoldable pub is_instance_in_state_healthy : ℕ → InstanceState → Bool
is_instance_in_state_healthy op s = ltb 0 (bit_and op (2 ^ state_number s))

unfoldable pub should_extend_replica_set_on_state : ℕ → InstanceState → Bool
should_extend_replica_set_on_state op s = ltb 0 (bit_and op (0x10000 * 2 ^ state_number s))

unfoldable pub write : ℕ
unfolding new_op
write = new_op (active ∷ []) (some (λ s. not (state_eq s active)))

unfoldable pub write_no_extend : ℕ
unfolding new_op
write_no_extend = new_op (active ∷ []) none

unfoldable pub read : ℕ
unfolding new_op
read =
    new_op (active ∷ pending ∷ leaving ∷ [])
      (some (λ s. not (state_eq s active) && not (state_eq s leaving)))

-- `Reporting`, `allStatesRingOperation`
unfoldable pub reporting : ℕ
reporting = 0x0000ffff
