-- ===== src/Ring/Batch/Examples.antt =====
-- The theorems on batches at a concrete batch of two keys.
use dskit.Base.{
  All, List, String, [], arith, count_if, length, map, nat_eq, refl, string_eq, ℕ, ◌<◌, ◌∷◌, ◌≡◌,
  ◌≤◌, ◌⊎◌,
}
use dskit.Base.Maps.{insert, lookup}
use dskit.Ring.Types.{InstanceDesc, zero_instance}
use dskit.Ring.State.{ReplicationSet, Result, ok}
use dskit.Ring.Batch.{
  ItemTracker, BatchInstance, Batch, tracker_of, started, do_batch_start, BatchTracker, new_tracker,
  record_success, record_failure, finish, Reachable, at_first, later, succeeds, fails, finishes,
}
use dskit.Ring.Batch.Counts.{is_broken, limits}
use dskit.Ring.Batch.Outcome.{batch_sends, batch_returns}

abbrev named : String → InstanceDesc
named addr = record zero_instance { addr = addr }

abbrev three : ReplicationSet
three = record {
  instances = named "a" ∷ named "b" ∷ named "c" ∷ [];
  max_errors = 1;
  max_unavailable_zones = 0;
}

abbrev get_three : ℕ → Result ReplicationSet
get_three key = ok three

abbrev two_keys : List ℕ
two_keys = 10 ∷ 20 ∷ []

abbrev both : String → BatchInstance
both addr = record { desc = named addr; indexes = 0 ∷ 1 ∷ [] }

abbrev planned : Batch
planned = record {
  item_trackers = tracker_of three ∷ tracker_of three ∷ [];
  instances = ("a", both "a") ∷ ("b", both "b") ∷ ("c", both "c") ∷ [];
}

is_planned : do_batch_start 3 get_three two_keys ≡ started planned
unfolding do_batch_start dskit.Base.Maps.insert dskit.Base.Maps.lookup
is_planned = refl

abbrev one_item : List ItemTracker
one_item = tracker_of three ∷ []

abbrev answered : BatchTracker ℕ
answered = finish (record_success 0 (record_failure 0 7 (record_success 0 (new_tracker one_item))))

answered-Reachable : Reachable one_item answered
unfolding record_success record_failure new_tracker
answered-Reachable =
    later
      (later (later (later at_first (succeeds _ 0 (omega arith))) (fails _ 0 7 (omega arith)))
        (succeeds _ 0 (omega arith)))
      (finishes _ (omega arith))

batch_sends_example :
    (map limits answered.items ≡ map limits one_item)
    × (answered.done_sent ≤ 1)
    × (length answered.errors_sent ≤ 1)
    × (0 < answered.done_sent → All (λ t. t.min_success ≤ t.succeeded) answered.items)
    × (0 < length answered.errors_sent → 0 < count_if is_broken answered.items)
batch_sends_example = batch_sends one_item (omega arith) refl refl answered-Reachable

batch_returns_example : (0 < answered.done_sent) ⊎ (0 < length answered.errors_sent)
unfolding record_success record_failure new_tracker finish
batch_returns_example =
    batch_returns one_item (omega arith) refl refl answered-Reachable refl refl (omega arith)

told : answered.done_sent ≡ 1
unfolding finish record_success record_failure new_tracker
told = refl
