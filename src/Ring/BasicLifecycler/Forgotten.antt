-- ===== src/Ring/BasicLifecycler/Forgotten.antt =====
-- ring/basic_lifecycler_delegates.go: what AutoForgetDelegate removes.
use dskit.Base.{
  ==_iff, Bool, Bool-cases, Option, Option-cases, String, [], arith, false, if◌then◌else◌, inl, inr,
  nat_eq, none, refl, some, string_eq, ℕ, ◌*◌, ◌+◌, ◌==◌, ◌↔◌, ◌∷◌, ◌≡◌, ◌≤◌,
}
use dskit.Base.Maps.{IsMap, Map, lookup, lookup-delete}
use dskit.Ring.Types.{Desc, InstanceDesc}
use dskit.Ring.Desc.{remove_ingester}
use dskit.Ring.BasicLifecycler.Delegates.{forget_loop, is_forgotten}

abbrev is_stale : ℕ → ℕ → Option InstanceDesc → Bool
is_stale forget_period now_ns none = false
is_stale forget_period now_ns (some i) = is_forgotten forget_period now_ns i

lookup-remove :
    (id key : String) (d : Desc)
    → lookup id (remove_ingester d key).ingesters
      ≡ (if key == id then none else lookup id d.ingesters)
unfolding remove_ingester
lookup-remove id key d = lookup-delete key id d.ingesters

lookup-forget_loop :
    (forget_period now_ns : ℕ) (id : String) (m : Map String InstanceDesc) (d : Desc)
    → IsMap m
    → lookup id (forget_loop forget_period now_ns m d).ingesters
      ≡ (if is_stale forget_period now_ns (lookup id m) then none else lookup id d.ingesters)
unfolding forget_loop lookup
lookup-forget_loop forget_period now_ns id [] d h = refl
lookup-forget_loop forget_period now_ns id ((key, i) ∷ m) d h =
    elim (Bool-cases (is_forgotten forget_period now_ns i)) [
      | inl old ↦ ground (
        arith,
        lookup-forget_loop forget_period now_ns id m (remove_ingester d key) h.1,
        lookup-remove id key d,
        ==_iff key id,
      )
      | inr recent ↦
          ground (arith, lookup-forget_loop forget_period now_ns id m d h.1, ==_iff key id)
    ]

-- An instance is in the ring that `forget_loop` leaves exactly when it was in the ring before and its
-- heartbeat, in nanoseconds, is at most the forget period older than now; in whatever order the loop
-- ranges over the instances.
pub forget_loop_lem :
    (forget_period now_ns : ℕ) (d : Desc) (id : String) (i : InstanceDesc)
    → IsMap d.ingesters
    → (lookup id (forget_loop forget_period now_ns d.ingesters d).ingesters ≡ some i)
      ↔ ((lookup id d.ingesters ≡ some i) × (now_ns ≤ i.timestamp * 1_000_000_000 + forget_period))
forget_loop_lem forget_period now_ns d id i h = elim (Option-cases (lookup id d.ingesters)) [
  | inl missing ↦
      unfold is_forgotten in
      ground (arith, lookup-forget_loop forget_period now_ns id d.ingesters d h)
  | inr (found, is_found) ↦
      unfold is_forgotten in
      ground (arith, lookup-forget_loop forget_period now_ns id d.ingesters d h)
]
