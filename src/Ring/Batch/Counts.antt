-- ===== src/Ring/Batch/Counts.antt =====
-- How the items of a batch stand: how many have their successes, how many too many failures.
use dskit.Base.{
  Bool, List, [], ap, arith, count_if, count_if-le-length, if◌then◌else◌, leb, length,
  length-append, ltb, map, nat_beq, refl, suc, zero, ℕ, ◌+◌, ◌-◌, ◌<◌, ◌||◌, ◌∙◌, ◌∷◌, ◌≡◌,
}
use dskit.Base.Int.{decrement, pos}
use dskit.Ring.Batch.{
  ItemTracker, BatchTracker, new_tracker, count_success, count_failure, record_success,
  record_failure, finish, fail, Step, succeeds, fails, finishes, sends, Reachable, at_first, later,
}

abbrev pub is_met : ItemTracker → Bool
is_met t = leb t.min_success t.succeeded

abbrev pub is_broken : ItemTracker → Bool
is_broken t = ltb t.max_failures t.failed

abbrev pub limits : ItemTracker → ℕ × ℕ
limits t = (t.min_success, t.max_failures)

pub record Counted (before after : List ItemTracker) : Type 0 where
  pub size : length after ≡ length before
  pub same_limits : map limits after ≡ map limits before

success_met :
    (i : ℕ) (ts : List ItemTracker)
    → let (after, goes_on) = count_success i ts in
      count_if is_met after ≡ count_if is_met ts + (if goes_on then 1 else 0)
unfolding count_success
success_met i [] = omega arith
success_met zero (t ∷ ts) = ground arith
success_met (suc i) (t ∷ ts) = ground (arith, success_met i ts)

success_broken :
    (i : ℕ) (ts : List ItemTracker)
    → count_if is_broken (count_success i ts).0 ≡ count_if is_broken ts
unfolding count_success
success_broken i [] = refl
success_broken zero (t ∷ ts) = refl
success_broken (suc i) (t ∷ ts) = ground (arith, success_broken i ts)

success-Counted : (i : ℕ) (ts : List ItemTracker) → Counted ts (count_success i ts).0
unfolding count_success
success-Counted i [] = record { size = refl; same_limits = refl }
success-Counted zero (t ∷ ts) = record { size = refl; same_limits = refl }
success-Counted (suc i) (t ∷ ts) =
    let rest = success-Counted i ts in
    record { size = ap suc rest.size; same_limits = ap (λ l. limits t ∷ l) rest.same_limits }

failure_met :
    (i : ℕ) (ts : List ItemTracker) → count_if is_met (count_failure i ts).0 ≡ count_if is_met ts
unfolding count_failure
failure_met i [] = refl
failure_met zero (t ∷ ts) = refl
failure_met (suc i) (t ∷ ts) = ground (arith, failure_met i ts)

-- A failure goes on exactly if its item is broken after it.
failure_broken :
    (i : ℕ) (ts : List ItemTracker)
    → let (after, goes_on) = count_failure i ts in
      ltb 0 (count_if is_broken after) ≡ (ltb 0 (count_if is_broken ts) || goes_on)
unfolding count_failure
failure_broken i [] = refl
failure_broken zero (t ∷ ts) = ground arith
failure_broken (suc i) (t ∷ ts) = ground (arith, failure_broken i ts)

failure-Counted : (i : ℕ) (ts : List ItemTracker) → Counted ts (count_failure i ts).0
unfolding count_failure
failure-Counted i [] = record { size = refl; same_limits = refl }
failure-Counted zero (t ∷ ts) = record { size = refl; same_limits = refl }
failure-Counted (suc i) (t ∷ ts) =
    let rest = failure-Counted i ts in
    record { size = ap suc rest.size; same_limits = ap (λ l. limits t ∷ l) rest.same_limits }

-- The state of the tracker in terms of its items.
pub record IsTracking {E : Type 0} (items : List ItemTracker) (b : BatchTracker E) : Type 0 where
  pub counted : Counted items b.items
  pub left : ℕ
  pub pending : b.rpcs_pending ≡ pos left
  pub met : left + count_if is_met b.items ≡ length b.items + b.finishing
  pub done : b.done_sent ≡ (if nat_beq left 0 then 1 else 0)
  pub broken : ltb 0 (count_if is_broken b.items) ≡ ltb 0 (b.rpcs_failed + length b.failing)
  pub errors : length b.errors_sent ≡ (if ltb 0 b.rpcs_failed then 1 else 0)

module _ {E : Type 0} (items : List ItemTracker) (some_items : 0 < length items)
    (none_met : count_if is_met items ≡ 0) (none_broken : count_if is_broken items ≡ 0) where
  new-IsTracking : IsTracking items (new_tracker {E = E} items)
  unfolding new_tracker
  new-IsTracking = record {
    counted = record { size = refl; same_limits = refl };
    left = length items;
    pending = refl;
    met = omega (arith, none_met);
    done = ground arith;
    broken = ground arith;
    errors = refl;
  }

  Step-IsTracking : {b c : BatchTracker E} → Step b c → IsTracking items b → IsTracking items c
  unfolding record_success record_failure finish fail
  Step-IsTracking (succeeds b i h) t =
      let c = success-Counted i b.items in
      record {
        counted = record {
          size = c.size ∙ t.counted.size;
          same_limits = c.same_limits ∙ t.counted.same_limits;
        };
        left = t.left;
        pending = t.pending;
        met = ground (arith, success_met i b.items, t.met, c.size);
        done = t.done;
        broken = ground (arith, success_broken i b.items, t.broken);
        errors = t.errors;
      }
  Step-IsTracking (fails b i e h) t =
      let c = failure-Counted i b.items in
      record {
        counted = record {
          size = c.size ∙ t.counted.size;
          same_limits = c.same_limits ∙ t.counted.same_limits;
        };
        left = t.left;
        pending = t.pending;
        met = ground (arith, failure_met i b.items, t.met, c.size);
        done = t.done;
        broken = ground (arith, failure_broken i b.items, t.broken);
        errors = t.errors;
      }
  Step-IsTracking (finishes b h) t =
      let more : 0 < t.left = omega (arith, t.met, count_if-le-length is_met b.items) in
      let one : t.left ≡ suc (t.left - 1) = omega arith in
      let pending' : decrement b.rpcs_pending ≡ pos (t.left - 1) =
        ap decrement (t.pending ∙ ap pos one) in
      record {
        counted = t.counted;
        left = t.left - 1;
        pending = pending';
        met = omega (arith, t.met);
        done = ground (arith, pending', t.done);
        broken = t.broken;
        errors = t.errors;
      }
  Step-IsTracking (sends b e before after h) t =
      let size = ap length h ∙ length-append before (e ∷ after) in
      record {
        counted = t.counted;
        left = t.left;
        pending = t.pending;
        met = t.met;
        done = t.done;
        broken = ground (arith, t.broken, size, length-append before after);
        errors = ground (arith, t.errors, length-append b.errors_sent (e ∷ []));
      }

  pub Reachable-IsTracking : {b : BatchTracker E} → Reachable items b → IsTracking items b
  Reachable-IsTracking at_first = new-IsTracking
  Reachable-IsTracking (later r s) = Step-IsTracking s (Reachable-IsTracking r)
