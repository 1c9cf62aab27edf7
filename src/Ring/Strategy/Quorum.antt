-- ===== src/Ring/Strategy/Quorum.antt =====
-- The default strategy leaves a quorum that meets every other quorum.
use dskit.Base.{
  Bool, Bool-cases, List, ap, arith, common_element, count_if, get_elem?, inl, inr, keep, length,
  length-keep-le, ltb, max, not, some, sym, true, ℕ, ◌*◌, ◌+◌, ◌-◌, ◌/◌, ◌<◌, ◌∙◌, ◌≡◌, ◌≤◌, ◌⊎◌,
}
use dskit.Ring.Types.{InstanceDesc}
use dskit.Ring.Desc.{is_healthy}
use dskit.Ring.State.{Result, ok, err, too_few_live_replicas}
use dskit.Ring.Strategy.{min_success, default_filter, addresses}

module _ (op heartbeat_timeout now_ns : ℕ) (instances : List InstanceDesc) (replication_factor : ℕ)
    (zones : Bool) where
  abbrev pub filtered : Result (List InstanceDesc × ℕ)
  filtered = default_filter op heartbeat_timeout now_ns instances replication_factor zones

  min_success-majority :
      (max replication_factor (length instances)
        < 2 * min_success op heartbeat_timeout now_ns instances replication_factor)
  unfolding min_success
  min_success-majority = ground arith

  -- The strategy succeeds exactly with a quorum of healthy instances: more than half of the
  -- replication factor, or of the instances if they are more. It then returns the healthy instances
  -- in their order, and lets fail all but a quorum; otherwise it reports what is missing.
  pub default_filter-cases :
      let live = keep (λ i. is_healthy i op heartbeat_timeout now_ns) instances in
      let needed = max replication_factor (length instances) / 2 + 1 in
      ((needed ≤ length live) × (filtered ≡ ok (live, length live - needed)))
      ⊎ ((length live < needed)
          × (filtered
              ≡ err (
                  too_few_live_replicas needed
                    (length live)
                    (addresses
                      (keep (λ i. not (is_healthy i op heartbeat_timeout now_ns)) instances))
                    zones)))
  unfolding default_filter
  default_filter-cases = elim (Bool-cases enough) [
    | inl few ↦ inr (ground arith, ground arith)
    | inr many ↦ inl (ground arith, ground arith)
  ]
    where
      enough : Bool
      enough =
          ltb (length (keep (λ i. is_healthy i op heartbeat_timeout now_ns) instances))
            (min_success op heartbeat_timeout now_ns instances replication_factor)

  -- Any two sets of answers that the returned number of failures allows have an instance in common.
  pub default_filter-quorums_meet :
      (live : List InstanceDesc) (max_failures : ℕ) (p q : InstanceDesc → Bool)
      → filtered ≡ ok (live, max_failures)
      → length live ≤ count_if p live + max_failures
      → length live ≤ count_if q live + max_failures
      → (i : ℕ) × (x : InstanceDesc) × (get_elem? live i ≡ some x) × (p x ≡ true) × (q x ≡ true)
  default_filter-quorums_meet live max_failures p q e hp hq =
      common_element p q live (elim default_filter-cases [
        | inl (enough, done) ↦
            let same : ok (live, max_failures)
                ≡ ok (keep healthy instances, length (keep healthy instances) - needed) =
              sym e ∙ done in
            let whole : live ≡ keep healthy instances = ground arith in
            let spare : max_failures ≡ length (keep healthy instances) - needed = ground arith in
            omega (arith, ap length whole, spare, length-keep-le healthy instances)
        | inr (few, failed) ↦ cc
      ])
    where
      healthy : InstanceDesc → Bool
      healthy = λ i. is_healthy i op heartbeat_timeout now_ns

      needed : ℕ
      needed = max replication_factor (length instances) / 2 + 1
