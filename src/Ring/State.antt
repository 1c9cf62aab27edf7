-- ===== src/Ring/State.antt =====
-- ring/ring.go: the in-memory ring and what it reads from the store.
use dskit.Base.{Bool, List, String, nat_eq, string_eq, ℕ}
use dskit.Base.Maps.{Map}
use dskit.Ring.Types.{Desc, InstanceDesc}

-- `instanceInfo`
pub record InstanceInfo : Type 0 where
  pub instance_id : String
  pub zone : String

-- The fields of `Ring` (and of its `Config`) that its operations read.
pub record Ring : Type 0 where
  pub replication_factor : ℕ
  pub heartbeat_timeout : ℕ
  pub zone_awareness_enabled : Bool
  pub excluded_zones : List String
  pub ring_desc : Desc
  pub ring_tokens : List ℕ
  pub ring_tokens_by_zone : Map String (List ℕ)
  pub ring_instance_by_token : Map ℕ InstanceInfo
  pub ring_zones : List String
  pub last_topology_change : ℕ

-- `ReplicationSet`
pub record ReplicationSet : Type 0 where
  pub instances : List InstanceDesc
  pub max_errors : ℕ
  pub max_unavailable_zones : ℕ

pub data RingError : Type 0 where
  empty_ring : RingError
  instance_not_found : RingError
  too_many_unhealthy_instances : RingError
  inconsistent_tokens_info : RingError
  -- the errors of the replication strategies, with the numbers that their texts give
  too_few_live_replicas :
      (min_success found : ℕ) (unhealthy : List String) (zones : Bool) → RingError
  no_healthy_replica : (unhealthy : List String) → RingError

pub data Result (A : Type 0) : Type 0 where
  ok : A → Result A
  err : RingError → Result A
