-- ===== src/Ring/Strategy.antt =====
-- ring/replication_strategy.go: which instances are asked, and how many may fail.
pub mod Quorum
use dskit.Base.{
  Bool, List, String, if◌then◌else◌, keep, length, ltb, map, nat_eq, not, string_eq, ℕ, ◌+◌, ◌-◌,
  ◌/◌, ◌==◌,
}
use dskit.Ring.Types.{InstanceDesc}
use dskit.Ring.Desc.{is_healthy}
use dskit.Ring.State.{Result, ok, err, too_few_live_replicas, no_healthy_replica}

-- the addresses that the loop of `Filter` notes
abbrev pub addresses : List InstanceDesc → List String
addresses = map (λ i. i.addr)

module _ (op heartbeat_timeout now_ns : ℕ) where
  -- the loop of `Filter` removes the unhealthy instances in place
  unfoldable pub healthy_instances : List InstanceDesc → List InstanceDesc
  healthy_instances = keep (λ i. is_healthy i op heartbeat_timeout now_ns)

  unfoldable pub unhealthy_instances : List InstanceDesc → List InstanceDesc
  unhealthy_instances = keep (λ i. not (is_healthy i op heartbeat_timeout now_ns))

  -- `minSuccess`: a quorum of the replication factor, or of the instances if they are more
  unfoldable pub min_success : List InstanceDesc → ℕ → ℕ
  min_success instances replication_factor =
      let factor =
        if ltb replication_factor (length instances)
        then length instances
        else replication_factor in
      factor / 2 + 1

  -- `defaultReplicationStrategy.Filter`: the instances and the number that may fail
  unfoldable pub default_filter : List InstanceDesc → ℕ → Bool → Result (List InstanceDesc × ℕ)
  unfolding healthy_instances unhealthy_instances min_success
  default_filter instances replication_factor zones =
      let needed = min_success instances replication_factor in
      let live = healthy_instances instances in
      if ltb (length live) needed
      then err (
          too_few_live_replicas needed (length live) (addresses (unhealthy_instances instances))
            zones)
      else ok (live, length live - needed)

  -- `ignoreUnhealthyInstancesReplicationStrategy.Filter`
  unfoldable pub ignore_unhealthy_filter : List InstanceDesc → Result (List InstanceDesc × ℕ)
  unfolding healthy_instances unhealthy_instances
  ignore_unhealthy_filter instances =
      let live = healthy_instances instances in
      if length live == 0
      then err (no_healthy_replica (addresses (unhealthy_instances instances)))
      else ok (live, length live - 1)
