-- ===== src/Ring/Wait/Examples.antt =====
-- The theorem on waitStability at a concrete run, and tests.
use dskit.Base.{List, [], none, refl, some, true, ◌∷◌, ◌≡◌}
use dskit.Ring.Types.{joining, pending, zero_instance}
use dskit.Ring.State.{ReplicationSet}
use dskit.Ring.Changes.{has_replication_set_changed}
use dskit.Ring.Wait.{Poll, wait_instance_state, wait_stability}
use dskit.Ring.Wait.Stable.{IsStable, wait_stability-IsStable}

abbrev empty_set : ReplicationSet
empty_set = record { instances = []; max_errors = 0; max_unavailable_zones = 0 }

abbrev one_set : ReplicationSet
one_set = record { instances = zero_instance ∷ []; max_errors = 0; max_unavailable_zones = 0 }

abbrev polls : List Poll
polls = (1, one_set) ∷ (2, one_set) ∷ (4, one_set) ∷ []

is_stable : wait_stability has_replication_set_changed 3 (0, empty_set) polls ≡ true
unfolding wait_stability has_replication_set_changed
is_stable = refl

wait_stability-IsStable_example : IsStable has_replication_set_changed 3 ((0, empty_set) ∷ polls)
wait_stability-IsStable_example =
    wait_stability-IsStable has_replication_set_changed 3 (0, empty_set) polls is_stable

appears : wait_instance_state joining (none ∷ some pending ∷ some joining ∷ []) ≡ true
unfolding wait_instance_state
appears = refl
