-- ===== src/Ring/Update/Examples.antt =====
-- The theorems on the tokens of a ring at concrete lists, on RingCompare, and tests.
use dskit.Base.{All, List, [], arith, false, refl, ℕ, ◌∷◌, ◌≡◌}
use dskit.Base.Sort.{IsSorted, ensure_sorted}
use dskit.Ring.Types.{Desc, leaving, zero_instance}
use dskit.Ring.State.{Ring}
use dskit.Ring.Compare.{ring_compare}
use dskit.Ring.Update.{merge_tokens, update_ring_state}
use dskit.Ring.Update.Sorted.{update_ring_state-IsSorted}

abbrev lists : List (List ℕ)
lists = (1 ∷ 7 ∷ []) ∷ [] ∷ (3 ∷ []) ∷ (2 ∷ 3 ∷ 9 ∷ []) ∷ []

lists-AllSorted : All IsSorted lists
lists-AllSorted = ground arith

merge_tokens_test : merge_tokens lists ≡ 1 ∷ 2 ∷ 3 ∷ 3 ∷ 7 ∷ 9 ∷ []
unfolding merge_tokens
merge_tokens_test = refl

abbrev before : Desc
before = record {
  ingesters =
      ("a", record zero_instance { addr = "10.0.0.1"; zone = "z"; tokens = 5 ∷ 2 ∷ [] }) ∷ [];
}

abbrev after : Desc
after = record {
  ingesters =
      (
        "a",
        record zero_instance {
          addr = "10.0.0.1";
          zone = "z";
          tokens = 5 ∷ 2 ∷ [];
          state = leaving;
        },
      )
      ∷ [];
}

abbrev r : Ring
r = record {
  replication_factor = 3;
  heartbeat_timeout = 60000000000;
  zone_awareness_enabled = false;
  excluded_zones = "x" ∷ [];
  ring_desc = record { ingesters = [] };
  ring_tokens = [];
  ring_tokens_by_zone = [];
  ring_instance_by_token = [];
  ring_zones = [];
  last_topology_change = 0;
}

update_ring_state-IsSorted_example : IsSorted (update_ring_state r before 7).ring_tokens
update_ring_state-IsSorted_example = update_ring_state-IsSorted r before 7 tt

update_test : (update_ring_state r before 7).ring_tokens ≡ 2 ∷ 5 ∷ []
unfolding update_ring_state ring_compare dskit.Base.Sort.ensure_sorted
update_test = refl
