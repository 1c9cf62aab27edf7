-- ===== src/Ring/Do.antt =====
-- ring/replication_set_tracker.go, and ReplicationSet.Do and the lookups of addresses of
-- ring/replication_set.go. The answers of the instances are a sequence of events in the order in
-- which they come in; the delayed start of some requests only changes that order.
use dskit.Base.{
  Bool, List, String, [], contains, false, if◌then◌else◌, keep, leb, length, ltb, nat_beq, nat_eq,
  none, not, some, string_eq, true, ℕ, ◌&&◌, ◌++◌, ◌+◌, ◌-◌, ◌==◌, ◌∷◌,
}
use dskit.Base.Int.{decrement, increment, is_zero, pos, ℤ}
use dskit.Base.Maps.{Map, insert, lookup}
use dskit.Ring.Types.{InstanceDesc}
pub mod Answers
mod Examples
use dskit.Ring.State.{ReplicationSet}
use dskit.Ring.Strategy.{addresses}

-- `replicationSetResultTracker`
pub record ResultTracker : Type 1 where
  pub Tracker : Type 0
  pub first : Tracker
  pub done : InstanceDesc → Bool → Tracker → Tracker
  pub succeeded : Tracker → Bool
  pub failed : Tracker → Bool

-- `defaultResultTracker`: a negative minSucceeded is met like 0, so the subtraction may stop there
pub record DefaultResultTracker : Type 0 where
  pub min_succeeded : ℕ
  pub num_succeeded : ℕ
  pub num_errors : ℕ
  pub max_errors : ℕ

abbrev pub default_done : InstanceDesc → Bool → DefaultResultTracker → DefaultResultTracker
default_done instance_desc is_err t =
    if is_err
    then record t { num_errors = t.num_errors + 1 }
    else record t { num_succeeded = t.num_succeeded + 1 }

-- `newDefaultResultTracker`
abbrev pub default_result_tracker : List InstanceDesc → ℕ → ResultTracker
default_result_tracker instances max_errors = record {
  Tracker = DefaultResultTracker;
  first = record {
    min_succeeded = length instances - max_errors;
    num_succeeded = 0;
    num_errors = 0;
    max_errors = max_errors;
  };
  done = default_done;
  succeeded = λ t. leb t.min_succeeded t.num_succeeded;
  failed = λ t. ltb t.max_errors t.num_errors;
}

-- `zoneAwareResultTracker`
pub record ZoneAwareResultTracker : Type 0 where
  pub waiting_by_zone : Map String ℤ
  pub failures_by_zone : Map String ℕ
  pub min_successful_zones : ℕ
  pub max_unavailable_zones : ℕ

abbrev pub waiting_at : String → Map String ℤ → ℤ
waiting_at zone m = elim (lookup zone m) [ none ↦ pos 0 | some n ↦ n ]

abbrev pub failures_at : String → Map String ℕ → ℕ
failures_at zone m = elim (lookup zone m) [ none ↦ 0 | some n ↦ n ]

-- the loop of `newZoneAwareResultTracker`
unfoldable pub count_waiting : List InstanceDesc → Map String ℤ → Map String ℤ
count_waiting [] m = m
count_waiting (i ∷ rest) m = count_waiting rest (insert i.zone (increment (waiting_at i.zone m)) m)

unfoldable pub zone_done : InstanceDesc → Bool → ZoneAwareResultTracker → ZoneAwareResultTracker
zone_done i is_err t = record t {
  waiting_by_zone =
      insert i.zone (decrement (waiting_at i.zone t.waiting_by_zone)) t.waiting_by_zone;
  failures_by_zone =
      if is_err
      then insert i.zone (failures_at i.zone t.failures_by_zone + 1) t.failures_by_zone
      else t.failures_by_zone;
}

-- the loop of `succeeded`
unfoldable pub successful_zones : Map String ℕ → Map String ℤ → ℕ
successful_zones failures [] = 0
successful_zones failures ((zone, waiting) ∷ rest) =
    let others = successful_zones failures rest in
    if is_zero waiting && nat_beq (failures_at zone failures) 0 then others + 1 else others

-- `newZoneAwareResultTracker`
unfoldable pub zone_aware_result_tracker : List InstanceDesc → ℕ → ResultTracker
unfolding count_waiting zone_done successful_zones
zone_aware_result_tracker instances max_unavailable_zones =
    let waiting = count_waiting instances [] in
    record {
      Tracker = ZoneAwareResultTracker;
      first = record {
        waiting_by_zone = waiting;
        failures_by_zone = [];
        min_successful_zones = length waiting - max_unavailable_zones;
        max_unavailable_zones = max_unavailable_zones;
      };
      done = zone_done;
      succeeded =
          λ t. leb t.min_successful_zones (successful_zones t.failures_by_zone t.waiting_by_zone);
      failed = λ t. ltb t.max_unavailable_zones (length t.failures_by_zone);
    }

-- What the loop of `Do` receives: an answer of an instance, or the end of its context.
pub data Event (V E : Type 0) : Type 0 where
  result : (from : InstanceDesc) → V → Event V E
  failure : (from : InstanceDesc) → E → Event V E
  canceled : Event V E

-- What `Do` returns; it still waits when the events end before.
pub data Outcome (V E : Type 0) : Type 0 where
  returned : List V → Outcome V E
  failed_with : E → Outcome V E
  context_error : Outcome V E
  waiting : Outcome V E

module _ {V E : Type 0} where
  -- the loop of `Do`
  unfoldable pub collect : (r : ResultTracker) → r.Tracker → List V → List (Event V E) → Outcome V E
  collect r t results [] = if r.succeeded t then returned results else waiting
  collect r t results (result i v ∷ events) =
      let rest = collect r (r.done i false t) (results ++ v ∷ []) events in
      if r.succeeded t then returned results else rest
  collect r t results (failure i e ∷ events) =
      let rest = collect r (r.done i true t) results events in
      if r.succeeded t
      then returned results
      else if r.failed (r.done i true t)
      then failed_with e
      else rest
  collect r t results (canceled ∷ events) =
      if r.succeeded t then returned results else context_error

  -- `Do`
  unfoldable pub do_all : ReplicationSet → List (Event V E) → Outcome V E
  unfolding collect zone_aware_result_tracker
  do_all set events =
      if ltb 0 set.max_unavailable_zones
      then (let r = zone_aware_result_tracker set.instances set.max_unavailable_zones in
          collect r r.first [] events)
      else (let r = default_result_tracker set.instances set.max_errors in
          collect r r.first [] events)

-- `Includes`
unfoldable pub includes : ReplicationSet → String → Bool
includes set addr = contains (addresses set.instances) addr

-- `GetAddresses`
unfoldable pub get_addresses : ReplicationSet → List String
get_addresses set = addresses set.instances

-- `GetAddressesWithout`
unfoldable pub get_addresses_without : ReplicationSet → String → List String
get_addresses_without set exclude = addresses (keep (λ i. not (i.addr == exclude)) set.instances)
