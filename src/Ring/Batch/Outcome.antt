-- ===== src/Ring/Batch/Outcome.antt =====
-- What DoBatch is told, and that it is told at all.
use dskit.Base.{
  All, Bool-cases, List, [], ap, arith, count_if, count_if-le-length, inl, inr, length, ltb, map,
  refl, ◌+◌, ◌<◌, ◌∷◌, ◌≡◌, ◌≤◌, ◌⊎◌,
}
use dskit.Ring.Batch.{ItemTracker, BatchTracker, Reachable}
use dskit.Ring.Batch.Counts.{is_met, is_broken, limits, Reachable-IsTracking}

All-met :
    (ts : List ItemTracker)
    → count_if is_met ts ≡ length ts
    → All (λ t. t.min_success ≤ t.succeeded) ts
All-met [] h = tt
All-met (t ∷ ts) h = elim (Bool-cases (is_met t)) [
  | inl met ↦ (ground arith, All-met ts (ground arith))
  | inr unmet ↦ absurd (ground (arith, count_if-le-length is_met ts))
]

-- Once the calls for an item are over, it has its successes or too many failures.
met_of_unbroken :
    (ts : List ItemTracker)
    → All (λ t. t.succeeded + t.failed ≡ t.min_success + t.max_failures) ts
    → count_if is_broken ts ≡ 0
    → count_if is_met ts ≡ length ts
met_of_unbroken [] h e = refl
met_of_unbroken (t ∷ ts) h e = ground (arith, met_of_unbroken ts h.1)

module _ {E : Type 0} (items : List ItemTracker) (some_items : 0 < length items)
    (none_met : count_if is_met items ≡ 0) (none_broken : count_if is_broken items ≡ 0) where
  -- In whatever order the calls of a batch report, where there are items and each needs a success:
  -- the limits of the items stay, `done` and `err` are each sent to at most once, `done` only when
  -- every item has the successes that it needs, and `err` only when an item has more failures than
  -- it may have.
  pub batch_sends :
      {b : BatchTracker E}
      → Reachable items b
      → (map limits b.items ≡ map limits items)
        × (b.done_sent ≤ 1)
        × (length b.errors_sent ≤ 1)
        × (0 < b.done_sent → All (λ t. t.min_success ≤ t.succeeded) b.items)
        × (0 < length b.errors_sent → 0 < count_if is_broken b.items)
  batch_sends {b} r =
      let t = Reachable-IsTracking items some_items none_met none_broken r in
      (
        t.counted.same_limits,
        ground (arith, t.done),
        ground (arith, t.errors),
        λ sent. All-met b.items (ground (arith, t.done, t.met, count_if-le-length is_met b.items)),
        λ sent. ground (arith, t.errors, t.broken),
      )

  -- When no goroutine is between its two operations any more and each item had as many calls as its
  -- successes needed and failures allowed, `done` or `err` was sent to: DoBatch returns.
  pub batch_returns :
      {b : BatchTracker E}
      → Reachable items b
      → b.finishing ≡ 0
      → b.failing ≡ []
      → All (λ t. t.succeeded + t.failed ≡ t.min_success + t.max_failures) b.items
      → (0 < b.done_sent) ⊎ (0 < length b.errors_sent)
  batch_returns {b} r finished sent over =
      let t = Reachable-IsTracking items some_items none_met none_broken r in
      elim (Bool-cases (ltb 0 (count_if is_broken b.items))) [
        | inl broken ↦ inr (ground (arith, t.errors, t.broken, ap length sent))
        | inr unbroken ↦ inl (ground (arith, t.done, t.met, met_of_unbroken b.items over))
      ]
