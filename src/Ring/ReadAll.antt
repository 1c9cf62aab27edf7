-- ===== src/Ring/ReadAll.antt =====
-- ring/ring.go: GetAllHealthy, GetReplicationSetForOperation and the lookups of one instance.
pub mod Quorum
use dskit.Base.{
  Bool, List, String, [], contains, false, if◌then◌else◌, keep, length, ltb, map, min, nat_eq, none,
  not, some, string_eq, true, ℕ, ◌+◌, ◌-◌, ◌/◌, ◌∷◌,
}
use dskit.Base.Maps.{Map, lookup}
use dskit.Ring.Types.{InstanceDesc, InstanceState}
use dskit.Ring.Desc.{is_healthy}
use dskit.Ring.State.{
  Ring, ReplicationSet, RingError, empty_ring, instance_not_found, too_many_unhealthy_instances,
  Result, ok, err,
}

-- the instances of a ring in the order of a `range` loop
abbrev pub values : Map String InstanceDesc → List InstanceDesc
values = map (λ ((id, i) : String × InstanceDesc). i)

-- the zones with an unhealthy instance, as the keys of a Go map
unfoldable pub zone_failures : (InstanceDesc → Bool) → List InstanceDesc → List String
zone_failures healthy [] = []
zone_failures healthy (i ∷ rest) =
    let zones = zone_failures healthy rest in
    if healthy i then zones else if contains zones i.zone then zones else i.zone ∷ zones

module _ (r : Ring) (op now_ns : ℕ) where
  abbrev pub live : InstanceDesc → Bool
  live i = is_healthy i op r.heartbeat_timeout now_ns

  -- `GetAllHealthy`
  unfoldable pub get_all_healthy : Result ReplicationSet
  get_all_healthy = elim r.ring_desc.ingesters [
    | [] ↦ err empty_ring
    | _ ∷ _ ↦ ok (record {
      instances = keep live (values r.ring_desc.ingesters);
      max_errors = 0;
      max_unavailable_zones = 0;
    })
  ]

  -- `maxUnavailableZones` before the failing zones are taken off
  abbrev pub tolerated_zones : ℕ
  tolerated_zones = min (length r.ring_zones) r.replication_factor / 2 + 1 - 1

  -- the zone-aware half of `GetReplicationSetForOperation`
  unfoldable pub zone_aware_set : Result ReplicationSet
  unfolding zone_failures
  zone_aware_set =
      let instances = values r.ring_desc.ingesters in
      let failures = zone_failures live instances in
      if ltb tolerated_zones (length failures)
      then err too_many_unhealthy_instances
      else ok (record {
        instances =
            if ltb 0 (length failures)
            then keep (λ i. not (contains failures i.zone)) (keep live instances)
            else keep live instances;
        max_errors = 0;
        max_unavailable_zones = tolerated_zones - length failures;
      })

  -- `numRequired`
  abbrev pub num_required : ℕ
  num_required =
      let n = length (values r.ring_desc.ingesters) in
      (if ltb n r.replication_factor then r.replication_factor else n) - r.replication_factor / 2

  -- the other half
  unfoldable pub plain_set : Result ReplicationSet
  plain_set =
      let healthy = keep live (values r.ring_desc.ingesters) in
      if ltb (length healthy) num_required
      then err too_many_unhealthy_instances
      else ok (record {
        instances = healthy;
        max_errors = length healthy - num_required;
        max_unavailable_zones = 0;
      })

  -- `GetReplicationSetForOperation`
  unfoldable pub get_replication_set_for_operation : Result ReplicationSet
  unfolding zone_aware_set plain_set
  get_replication_set_for_operation = elim r.ring_tokens [
    | [] ↦ err empty_ring
    | _ ∷ _ ↦ if r.zone_awareness_enabled then zone_aware_set else plain_set
  ]

-- `GetInstanceState`
unfoldable pub get_instance_state : Ring → String → Result InstanceState
get_instance_state r id = elim (lookup id r.ring_desc.ingesters) [
  | none ↦ err instance_not_found
  | some i ↦ ok i.state
]

-- `HasInstance`
unfoldable pub has_instance : Ring → String → Bool
has_instance r id = elim (lookup id r.ring_desc.ingesters) [ none ↦ false | some _ ↦ true ]

-- `InstancesCount`
unfoldable pub instances_count : Ring → ℕ
instances_count r = length r.ring_desc.ingesters
