-- ===== src/Ring/Examples.antt =====
-- The theorems on the ring at a small ring of three instances, and tests of its operations.
use dskit.Base.{
  All, Bool, String, [], arith, false, get_elem?, length, max, min, nat_eq, not, refl, some,
  string_eq, true, ℕ, ◌&&◌, ◌+◌, ◌/◌, ◌==◌, ◌↔◌, ◌∷◌, ◌≡◌, ◌⊎◌,
}
use dskit.Base.Int.{int_eq, pos}
use dskit.Base.Sort.{IsSorted}
use dskit.Base.Maps.{IsMap, lookup}
use dskit.Ring.Types.{Desc, InstanceDesc, active, leaving, left}
use dskit.Ring.State.{Ring, ReplicationSet, ok}
use dskit.Ring.Operation.{
  is_instance_in_state_healthy, should_extend_replica_set_on_state, write, read,
}
use dskit.Ring.Conflicts.{resolve_conflicts}
use dskit.Ring.Conflicts.Claiming.{beats}
use dskit.Ring.Conflicts.Resolve.{claims, holds, resolve_conflicts-holds_iff}
use dskit.Ring.Merge.Result.{receive, rank_in, receive-rank}
use dskit.Ring.Merge.Gossip.{receive_all, receive_all-converges}
use dskit.Ring.Merge.Missing.{replace, departed, replace-missing}
use dskit.Ring.Search.{search_token}
use dskit.Ring.Strategy.{default_filter}
use dskit.Ring.Desc.{is_healthy}
use mathlib.Core.List.Perm
use dskit.Ring.Strategy.Quorum.{default_filter-quorums_meet}
use dskit.Ring.Get.{get}
use dskit.Ring.Get.Found.{IsFound, get-IsFound}
use dskit.Ring.ReadAll.{live, values, zone_failures, get_replication_set_for_operation}
use dskit.Ring.ReadAll.Quorum.{read_meets_write, zone_read-IsWhole}

abbrev one : InstanceDesc
one = record {
  addr = "10.0.0.1";
  timestamp = 100;
  state = active;
  tokens = 10 ∷ 30 ∷ [];
  zone = "a";
  registered_timestamp = pos 0;
}

abbrev two : InstanceDesc
two = record one { addr = "10.0.0.2"; zone = "b"; tokens = 20 ∷ 30 ∷ [] }

abbrev three : InstanceDesc
three = record one { addr = "10.0.0.3"; zone = "c"; tokens = 40 ∷ []; state = leaving }

abbrev desc : Desc
desc = record { ingesters = ("one", one) ∷ ("two", two) ∷ ("three", three) ∷ [] }

abbrev gone : Desc
gone = record { ingesters = ("two", record two { state = left; tokens = [] }) ∷ [] }

desc-IsMap : IsMap desc.ingesters
unfolding lookup
desc-IsMap = (refl, (refl, (refl, tt)))

gone-IsMap : IsMap gone.ingesters
unfolding lookup
gone-IsMap = (refl, tt)

abbrev r : Ring
r = record {
  replication_factor = 3;
  heartbeat_timeout = 60000000000;
  zone_awareness_enabled = false;
  excluded_zones = [];
  ring_desc = desc;
  ring_tokens = 10 ∷ 20 ∷ 30 ∷ 40 ∷ [];
  ring_tokens_by_zone = ("a", 10 ∷ 30 ∷ []) ∷ ("b", 20 ∷ []) ∷ ("c", 40 ∷ []) ∷ [];
  ring_instance_by_token =
      (10, record { instance_id = "one"; zone = "a" })
      ∷ (20, record { instance_id = "two"; zone = "b" })
      ∷ (30, record { instance_id = "one"; zone = "a" })
      ∷ (40, record { instance_id = "three"; zone = "c" })
      ∷ [];
  ring_zones = "a" ∷ "b" ∷ "c" ∷ [];
  last_topology_change = 0;
}

r-IsSorted : IsSorted r.ring_tokens
r-IsSorted = ground arith

resolve_conflicts-holds_iff_example :
    (holds (lookup "one" (resolve_conflicts desc.ingesters)) 30 ≡ true) ↔ (
      (claims (lookup "one" desc.ingesters) 30 ≡ true)
      × ((j : String)
          → claims (lookup j desc.ingesters) 30 ≡ true
          → (j ≡ "one") ⊎ (beats desc.ingesters "one" j ≡ true)))
resolve_conflicts-holds_iff_example = resolve_conflicts-holds_iff desc.ingesters desc-IsMap "one" 30

receive-rank_example :
    rank_in "two" (receive 200 desc gone) ≡ max (rank_in "two" desc) (rank_in "two" gone)
receive-rank_example = receive-rank 200 desc gone "two" desc-IsMap gone-IsMap

receive_all-converges_example :
    rank_in "two" (receive_all desc ((200, gone) ∷ (201, desc) ∷ []))
    ≡ rank_in "two" (receive_all desc ((201, desc) ∷ (200, gone) ∷ []))
receive_all-converges_example =
    receive_all-converges desc ((200, gone) ∷ (201, desc) ∷ []) ((201, desc) ∷ (200, gone) ∷ [])
      "two" (Perm.swap (201, desc) (200, gone) []) desc-IsMap (gone-IsMap, (desc-IsMap, tt))
      (desc-IsMap, (gone-IsMap, tt))

replace-missing_example : lookup "one" (replace 200 desc gone).ingesters ≡ some (departed 200 one)
unfolding lookup
replace-missing_example =
    replace-missing 200 desc gone "one" {t = one} desc-IsMap gone-IsMap refl refl
      (λ gone_already. cc)

trio_filtered :
    default_filter read 60000000000 130000000000 (one ∷ two ∷ three ∷ []) 3 false
    ≡ ok (one ∷ two ∷ three ∷ [], 1)
unfolding default_filter is_healthy is_instance_in_state_healthy read
    dskit.Ring.Desc.is_heartbeat_healthy
trio_filtered = refl

default_filter-quorums_meet_example :
    (i : ℕ) × (x : InstanceDesc) × (get_elem? (one ∷ two ∷ three ∷ []) i ≡ some x)
    × (not (x.zone == "a") ≡ true)
    × (not (x.zone == "c") ≡ true)
default_filter-quorums_meet_example =
    default_filter-quorums_meet read 60000000000 130000000000 (one ∷ two ∷ three ∷ []) 3 false
      (one ∷ two ∷ three ∷ []) 1 (λ x. not (x.zone == "a")) (λ x. not (x.zone == "c")) trio_filtered
      (omega arith) (omega arith)

key_found :
    get r read 130000000000 25
    ≡ ok (record { instances = one ∷ three ∷ two ∷ []; max_errors = 1; max_unavailable_zones = 0 })
unfolding get lookup search_token should_extend_replica_set_on_state read default_filter is_healthy
    is_instance_in_state_healthy dskit.Ring.Desc.is_heartbeat_healthy
key_found = refl

get-IsFound_example :
    IsFound r read 130000000000 25
      (record { instances = one ∷ three ∷ two ∷ []; max_errors = 1; max_unavailable_zones = 0 })
get-IsFound_example = get-IsFound r read 130000000000 25 _ r-IsSorted key_found

abbrev heard : InstanceDesc → Bool
heard x = not (x.zone == "a")

abbrev stored : InstanceDesc → Bool
stored x = not (x.zone == "c")

abbrev whole : ReplicationSet
whole = record { instances = one ∷ two ∷ three ∷ []; max_errors = 1; max_unavailable_zones = 0 }

r_read : get_replication_set_for_operation r read 130000000000 ≡ ok whole
unfolding get_replication_set_for_operation is_healthy is_instance_in_state_healthy read
    dskit.Ring.Desc.is_heartbeat_healthy
r_read = refl

read_meets_write_example :
    (i : ℕ) × (x : InstanceDesc) × (get_elem? (values r.ring_desc.ingesters) i ≡ some x)
    × (live r read 130000000000 x && heard x ≡ true)
    × (stored x ≡ true)
read_meets_write_example =
    read_meets_write r read 130000000000 whole heard stored refl r_read (omega arith) (omega arith)

abbrev zoned : Ring
zoned = record r { zone_awareness_enabled = true }

abbrev written : ReplicationSet
written = record { instances = one ∷ two ∷ []; max_errors = 0; max_unavailable_zones = 0 }

zoned_read : get_replication_set_for_operation zoned write 130000000000 ≡ ok written
unfolding get_replication_set_for_operation is_healthy is_instance_in_state_healthy write
    dskit.Ring.Desc.is_heartbeat_healthy
zoned_read = refl

zone_read-IsWhole_example :
    All
      (λ x.
        (live zoned write 130000000000 x ≡ true)
        × All
            (λ y. x.zone ≡ y.zone → live zoned write 130000000000 y ≡ true)
            (values zoned.ring_desc.ingesters))
      written.instances
    × (written.max_unavailable_zones
          + length
              (zone_failures (live zoned write 130000000000) (values zoned.ring_desc.ingesters))
        ≡ min (length zoned.ring_zones) zoned.replication_factor / 2)
zone_read-IsWhole_example = zone_read-IsWhole zoned write 130000000000 written refl zoned_read
