-- ===== src/Ring/Get.antt =====
-- ring/ring.go: Get, which walks the ring from the key's token.
use dskit.Base.{
  Bool, List, Option, String, [], contains, false, get_or, if◌then◌else◌, length, ltb, nat_eq, none,
  not, some, string_eq, suc, true, zero, ℕ, ◌%◌, ◌&&◌, ◌++◌, ◌+◌, ◌==◌, ◌∷◌,
}
use dskit.Base.Maps.{lookup}
use dskit.Ring.Types.{InstanceDesc, instance_at}
pub mod Steps
pub mod Distinct
pub mod Round
pub mod Gathered
pub mod Found
use dskit.Ring.State.{
  InstanceInfo, Ring, ReplicationSet, RingError, empty_ring, inconsistent_tokens_info, Result, ok,
  err,
}
use dskit.Ring.Operation.{should_extend_replica_set_on_state}
use dskit.Ring.Search.{search_token}
use dskit.Ring.Strategy.{default_filter}

-- The variables of the loop of `Get`: `n`, `instances`, `distinctHosts` and `distinctZones`.
pub record Walk : Type 0 where
  pub n : ℕ
  pub instances : List InstanceDesc
  pub hosts : List String
  pub zones : List String

module _ (r : Ring) (op : ℕ) where
  -- Zones count where the ring is zone-aware and the instance has one.
  abbrev pub zone_counts : InstanceInfo → Bool
  zone_counts info = r.zone_awareness_enabled && not (info.zone == "")

  -- the body of the loop, once the token's instance is known
  unfoldable pub consider : InstanceInfo → Walk → Walk
  consider info w =
      if contains w.hosts info.instance_id
      then w
      else if zone_counts info && contains w.zones info.zone
      then w
      else let instance_desc = instance_at info.instance_id r.ring_desc.ingesters in
        let extends = should_extend_replica_set_on_state op instance_desc.state in
        record {
          n = if extends then w.n + 1 else w.n;
          instances = w.instances ++ instance_desc ∷ [];
          hosts = w.hosts ++ info.instance_id ∷ [];
          zones =
              if extends
              then w.zones
              else if zone_counts info
              then w.zones ++ info.zone ∷ []
              else w.zones;
        }

  -- the loop, with the iterations that are left; `none` is ErrInconsistentTokensInfo
  unfoldable pub walk : ℕ → ℕ → Walk → Option Walk
  unfolding consider
  walk zero i w = some w
  walk (suc left_over) i w = elim (ltb (length w.hosts) w.n) [
    | false ↦ some w
    | true ↦
        let j = i % length r.ring_tokens in
        elim (lookup (get_or r.ring_tokens j 0) r.ring_instance_by_token) [
          | none ↦ none
          | some info ↦ walk left_over (j + 1) (consider info w)
        ]
  ]

  abbrev pub start : Walk
  start = record { n = r.replication_factor; instances = []; hosts = []; zones = [] }

  -- what `Get` does with the instances: the strategy decides
  unfoldable pub select :
      (List InstanceDesc → Result (List InstanceDesc × ℕ)) → Option Walk → Result ReplicationSet
  select filter none = err inconsistent_tokens_info
  select filter (some w) = elim (filter w.instances) [
    | err e ↦ err e
    | ok (healthy, max_failure) ↦
        ok (record { instances = healthy; max_errors = max_failure; max_unavailable_zones = 0 })
  ]

  -- `Get`, with the strategy's `Filter` applied to all but the instances
  unfoldable pub get_with :
      (List InstanceDesc → Result (List InstanceDesc × ℕ)) → ℕ → Result ReplicationSet
  unfolding walk select
  get_with filter key = elim r.ring_tokens [
    | [] ↦ err empty_ring
    | _ ∷ _ ↦ select filter (walk (length r.ring_tokens) (search_token r.ring_tokens key) start)
  ]

  -- `Get` with the default strategy
  unfoldable pub get : ℕ → ℕ → Result ReplicationSet
  unfolding get_with
  get now_ns = get_with (λ instances.
      default_filter op r.heartbeat_timeout now_ns instances r.replication_factor
        r.zone_awareness_enabled)
