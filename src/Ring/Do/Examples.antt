-- ===== src/Ring/Do/Examples.antt =====
-- The theorem on ReplicationSet.Do at two instances of three that answer, and tests.
use dskit.Base.{List, String, [], count_if, false, nat_eq, refl, string_eq, true, ℕ, ◌∷◌, ◌≡◌}
use dskit.Base.Maps.{insert, lookup}
use dskit.Ring.Types.{InstanceDesc, leaving, zero_instance}
use dskit.Ring.State.{ReplicationSet}
use dskit.Ring.Do.{Event, result, failure, returned, failed_with, do_all, get_addresses_without}
use dskit.Ring.Changes.{has_replication_set_changed, has_replication_set_changed_without_state}
use dskit.Ring.Do.Answers.{is_failure, Decides, do_all-Decides}

abbrev one : InstanceDesc
one = record zero_instance { addr = "10.0.0.1"; zone = "a" }

abbrev two : InstanceDesc
two = record zero_instance { addr = "10.0.0.2"; zone = "b" }

abbrev three : InstanceDesc
three = record zero_instance { addr = "10.0.0.3"; zone = "c" }

abbrev set : ReplicationSet
set = record { instances = one ∷ two ∷ three ∷ []; max_errors = 1; max_unavailable_zones = 0 }

abbrev answers : List (Event ℕ String)
answers = failure two "down" ∷ result three 3 ∷ result one 1 ∷ []

do_all-Decides_example : Decides (count_if is_failure answers) 1 3 (do_all set answers)
do_all-Decides_example = do_all-Decides set answers refl (refl, (refl, (refl, tt))) refl

do_all_test : do_all set answers ≡ returned (3 ∷ 1 ∷ [])
unfolding do_all
do_all_test = refl

zones_test :
    do_all (record set { max_errors = 0; max_unavailable_zones = 1 }) answers
    ≡ returned (3 ∷ 1 ∷ [])
unfolding do_all dskit.Base.Maps.insert dskit.Base.Maps.lookup
zones_test = refl

abbrev outage : List (Event ℕ String)
outage = failure one "down" ∷ failure two "gone" ∷ []

zones_fail_test :
    do_all (record set { max_errors = 0; max_unavailable_zones = 1 }) outage ≡ failed_with "gone"
unfolding do_all insert lookup
zones_fail_test = refl

addresses_test : get_addresses_without set "10.0.0.2" ≡ "10.0.0.1" ∷ "10.0.0.3" ∷ []
unfolding get_addresses_without
addresses_test = refl

-- A later heartbeat is no change, another state is one; without states it is none.
abbrev later : ReplicationSet
later = record set { instances = three ∷ one ∷ record two { timestamp = 5 } ∷ [] }

abbrev moved : ReplicationSet
moved = record set { instances = three ∷ one ∷ record two { state = leaving } ∷ [] }

unchanged_test : has_replication_set_changed set later ≡ false
unfolding has_replication_set_changed
unchanged_test = refl

changed_test : has_replication_set_changed set moved ≡ true
unfolding has_replication_set_changed
changed_test = refl

same_but_state_test : has_replication_set_changed_without_state set moved ≡ false
unfolding has_replication_set_changed_without_state
same_but_state_test = refl
