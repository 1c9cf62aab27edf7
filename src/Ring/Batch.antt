-- ===== src/Ring/Batch.antt =====
-- ring/batch.go: DoBatch, which sends the items of a batch to the instances of their keys.
use dskit.Base.{
  Bool, List, String, [], false, if◌then◌else◌, leb, length, nat_eq, none, not, some, string_eq,
  suc, zero, ℕ, ◌++◌, ◌+◌, ◌-◌, ◌<◌, ◌==◌, ◌∷◌, ◌≡◌,
}
use dskit.Base.Int.{decrement, is_zero, pos, ℤ}
use dskit.Base.Maps.{Map, insert, lookup}
use dskit.Ring.Types.{InstanceDesc, pending}
pub mod Counts
pub mod Outcome
pub mod Plan
mod Examples
use dskit.Ring.State.{ReplicationSet, RingError, Result, ok, err}

-- `itemTracker`. The successes needed are compared with counts from 1 up, so that 0 stands for
-- what is not positive.
pub record ItemTracker : Type 0 where
  pub min_success : ℕ
  pub max_failures : ℕ
  pub succeeded : ℕ
  pub failed : ℕ

-- `instance`: the trackers are those of the indexes.
pub record BatchInstance : Type 0 where
  pub desc : InstanceDesc
  pub indexes : List ℕ

-- the body of the loop over a replication set
unfoldable pub add_item :
    ℕ → List InstanceDesc → Map String BatchInstance → Map String BatchInstance
add_item i [] instances = instances
add_item i (desc ∷ rest) instances =
    let indexes : List ℕ = elim (lookup desc.addr instances) [
      | none ↦ []
      | some curr ↦ curr.indexes
    ] in
    add_item i rest
      (insert desc.addr (record { desc = desc; indexes = indexes ++ i ∷ [] }) instances)

-- What is known before the calls start: the trackers of the items and the calls to make.
pub record Batch : Type 0 where
  pub item_trackers : List ItemTracker
  pub instances : Map String BatchInstance

abbrev pub tracker_of : ReplicationSet → ItemTracker
tracker_of set = record {
  min_success = length set.instances - set.max_errors;
  max_failures = set.max_errors;
  succeeded = 0;
  failed = 0;
}

-- the loop over the keys, from the index `i` on, with `get` for `Get` of the ring
unfoldable pub add_keys : (ℕ → Result ReplicationSet) → ℕ → List ℕ → Batch → Result Batch
unfolding add_item
add_keys get i [] b = ok b
add_keys get i (key ∷ keys) b = elim (get key) [
  | err e ↦ err e
  | ok set ↦ add_keys get (i + 1) keys (record {
    item_trackers = b.item_trackers ++ tracker_of set ∷ [];
    instances = add_item i set.instances b.instances;
  })
]

-- Whether there are instances at all comes first, as an error of its own.
pub data Start : Type 0 where
  no_instances : Start
  get_error : RingError → Start
  started : Batch → Start

-- `DoBatch` up to the calls
unfoldable pub do_batch_start : ℕ → (ℕ → Result ReplicationSet) → List ℕ → Start
unfolding add_keys
do_batch_start instances_count get keys =
    if instances_count == 0
    then no_instances
    else elim (add_keys get 0 keys (record { item_trackers = []; instances = [] })) [
      | err e ↦ get_error e
      | ok b ↦ started b
    ]

-- `batchTracker` with the trackers of the items, while the calls report. Each atomic operation is a
-- step; the goroutines that are between the two operations of `record` are counted, or kept with
-- their error.
pub record BatchTracker (E : Type 0) : Type 0 where
  pub items : List ItemTracker
  pub rpcs_pending : ℤ
  pub rpcs_failed : ℕ
  pub done_sent : ℕ
  pub errors_sent : List E
  pub finishing : ℕ
  pub failing : List E

-- The trackers with the atomic increment of one of them, and whether `record` goes on after it.
unfoldable pub count_success : ℕ → List ItemTracker → List ItemTracker × Bool
count_success i [] = ([], false)
count_success zero (t ∷ ts) =
    let t' = record t { succeeded = t.succeeded + 1 } in (t' ∷ ts, t'.succeeded == t'.min_success)
count_success (suc i) (t ∷ ts) = let (rest, goes_on) = count_success i ts in (t ∷ rest, goes_on)

unfoldable pub count_failure : ℕ → List ItemTracker → List ItemTracker × Bool
count_failure i [] = ([], false)
count_failure zero (t ∷ ts) =
    let t' = record t { failed = t.failed + 1 } in (t' ∷ ts, not (leb t'.failed t'.max_failures))
count_failure (suc i) (t ∷ ts) = let (rest, goes_on) = count_failure i ts in (t ∷ rest, goes_on)

module _ {E : Type 0} where
  -- the trackers at the start of the calls
  unfoldable pub new_tracker : List ItemTracker → BatchTracker E
  new_tracker items = record {
    items = items;
    rpcs_pending = pos (length items);
    rpcs_failed = 0;
    done_sent = 0;
    errors_sent = [];
    finishing = 0;
    failing = [];
  }

  -- `record` of one item: the increment of its tracker
  unfoldable pub record_success : ℕ → BatchTracker E → BatchTracker E
  unfolding count_success
  record_success i b =
      let (items, goes_on) = count_success i b.items in
      record b { items = items; finishing = if goes_on then b.finishing + 1 else b.finishing }

  unfoldable pub record_failure : ℕ → E → BatchTracker E → BatchTracker E
  unfolding count_failure
  record_failure i e b =
      let (items, goes_on) = count_failure i b.items in
      record b { items = items; failing = if goes_on then e ∷ b.failing else b.failing }

  -- the second atomic operation of `record`, with the send
  unfoldable pub finish : BatchTracker E → BatchTracker E
  finish b =
      let pending = decrement b.rpcs_pending in
      record b {
        finishing = b.finishing - 1;
        rpcs_pending = pending;
        done_sent = if is_zero pending then b.done_sent + 1 else b.done_sent;
      }

  unfoldable pub fail : E → List E → List E → BatchTracker E → BatchTracker E
  fail e before after b = record b {
    failing = before ++ after;
    rpcs_failed = b.rpcs_failed + 1;
    errors_sent = if b.rpcs_failed + 1 == 1 then b.errors_sent ++ e ∷ [] else b.errors_sent;
  }

  -- What the goroutines of the calls do to the trackers, in any order.
  pub data Step : BatchTracker E → BatchTracker E → Type 0 where
    succeeds : (b : BatchTracker E) (i : ℕ) → i < length b.items → Step b (record_success i b)
    fails :
        (b : BatchTracker E) (i : ℕ) (e : E) → i < length b.items → Step b (record_failure i e b)
    finishes : (b : BatchTracker E) → 0 < b.finishing → Step b (finish b)
    sends :
        (b : BatchTracker E) (e : E) (before after : List E)
        → b.failing ≡ before ++ e ∷ after
        → Step b (fail e before after b)

  pub data Reachable (items : List ItemTracker) : BatchTracker E → Type 0 where
    at_first : Reachable items (new_tracker items)
    later : {b c : BatchTracker E} → Reachable items b → Step b c → Reachable items c
