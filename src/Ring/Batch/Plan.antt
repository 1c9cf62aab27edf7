-- ===== src/Ring/Batch/Plan.antt =====
-- Which calls DoBatch makes: each item goes to the instances of its key's replication set.
use dskit.Base.{
  List, String, [], ap, arith, count_if, count_if-append, get_elem?, if◌then◌else◌, length,
  length-append, nat_eq, none, refl, some, string_eq, suc, sym, zero, ℕ, ◌++◌, ◌+◌, ◌<◌, ◌==◌, ◌∙◌,
  ◌∷◌, ◌≡◌,
}
use dskit.Base.Maps.{Map, insert, lookup}
use dskit.Ring.Types.{InstanceDesc}
use dskit.Ring.State.{ReplicationSet, Result, ok, err}
use dskit.Ring.Batch.{BatchInstance, add_item, Batch, tracker_of, add_keys, started, do_batch_start}

-- How often an item stands in the calls.
abbrev pub times : ℕ → List ℕ → ℕ
times j indexes = count_if (λ i. i == j) indexes

abbrev pub calls_of : ℕ → Map String BatchInstance → ℕ
calls_of j [] = 0
calls_of j ((addr, inst) ∷ rest) = times j inst.indexes + calls_of j rest

abbrev indexes_at : String → Map String BatchInstance → List ℕ
indexes_at addr m = elim (lookup addr m) [ none ↦ [] | some curr ↦ curr.indexes ]

calls_of-insert :
    (j : ℕ) (addr : String) (inst : BatchInstance) (m : Map String BatchInstance)
    → calls_of j (insert addr inst m) + times j (indexes_at addr m)
      ≡ calls_of j m + times j inst.indexes
unfolding insert lookup
calls_of-insert j addr inst [] = omega arith
calls_of-insert j addr inst ((k, old) ∷ m) = ground (arith, calls_of-insert j addr inst m)

calls_of-add_item :
    (j i : ℕ) (set : List InstanceDesc) (m : Map String BatchInstance)
    → calls_of j (add_item i set m) ≡ calls_of j m + (if i == j then length set else 0)
unfolding add_item
calls_of-add_item j i [] m = ground arith
calls_of-add_item j i (desc ∷ rest) m =
    let indexes = indexes_at desc.addr m in
    let inst : BatchInstance = record { desc = desc; indexes = indexes ++ i ∷ [] } in
    ground (
      arith,
      calls_of-add_item j i rest (insert desc.addr inst m),
      calls_of-insert j desc.addr inst m,
      count_if-append (λ n. n == j) indexes (i ∷ []),
    )

get_elem?-append_left {ℓ} :
    {A : Type ℓ} (xs ys : List A) (j : ℕ) → j < length xs → get_elem? (xs ++ ys) j ≡ get_elem? xs j
get_elem?-append_left [] ys j h = absurd (omega arith)
get_elem?-append_left (x ∷ xs) ys zero h = refl
get_elem?-append_left (x ∷ xs) ys (suc j) h = get_elem?-append_left xs ys j (omega arith)

get_elem?-append_length {ℓ} :
    {A : Type ℓ} (xs : List A) (y : A) → get_elem? (xs ++ y ∷ []) (length xs) ≡ some y
get_elem?-append_length [] y = refl
get_elem?-append_length (x ∷ xs) y = get_elem?-append_length xs y

abbrev add_set : ReplicationSet → ℕ → Batch → Batch
add_set set i b = record {
  item_trackers = b.item_trackers ++ tracker_of set ∷ [];
  instances = add_item i set.instances b.instances;
}

module _ (get : ℕ → Result ReplicationSet) where
  ok_parts :
      (i key : ℕ) (keys : List ℕ) (b c : Batch)
      → add_keys get i (key ∷ keys) b ≡ ok c
      → (set : ReplicationSet) × (get key ≡ ok set)
        × (add_keys get (i + 1) keys (add_set set i b) ≡ ok c)
  unfolding add_keys
  ok_parts i key keys b c e = by_result (get key) refl e
    where
      by_result :
          (r : Result ReplicationSet)
          → get key ≡ r
          → ◌≡◌ {A = Result Batch}
              (elim r [ err x ↦ err x | ok set ↦ add_keys get (i + 1) keys (add_set set i b) ])
              (ok c)
          → (set : ReplicationSet) × (get key ≡ ok set)
            × (add_keys get (i + 1) keys (add_set set i b) ≡ ok c)
      by_result (err x) r h = cc
      by_result (ok set) r h = (set, r, h)

  -- The items before stay as they are.
  add_keys-before :
      (i : ℕ) (keys : List ℕ) (b c : Batch) (j : ℕ)
      → add_keys get i keys b ≡ ok c
      → j < i
      → i ≡ length b.item_trackers
      → (calls_of j c.instances ≡ calls_of j b.instances)
        × (get_elem? c.item_trackers j ≡ get_elem? b.item_trackers j)
  unfolding add_keys
  add_keys-before i [] b c j e h size = (ground arith, ground arith)
  add_keys-before i (key ∷ keys) b c j e h size =
      let (set, at, rest) = ok_parts i key keys b c e in
      let next =
        add_keys-before (i + 1) keys (add_set set i b) c j rest (omega arith)
          (omega (arith, length-append b.item_trackers (tracker_of set ∷ []))) in
      (
        ground (arith, next.0, calls_of-add_item j i set.instances b.instances),
        next.1 ∙ get_elem?-append_left b.item_trackers (tracker_of set ∷ []) j (omega arith),
      )

  add_keys-at :
      (i : ℕ) (keys : List ℕ) (b c : Batch) (j key : ℕ)
      → add_keys get i keys b ≡ ok c
      → get_elem? keys j ≡ some key
      → i ≡ length b.item_trackers
      → (set : ReplicationSet) × (get key ≡ ok set)
        × (get_elem? c.item_trackers (i + j) ≡ some (tracker_of set))
        × (calls_of (i + j) c.instances ≡ calls_of (i + j) b.instances + length set.instances)
  add_keys-at i [] b c j key e at size = cc
  add_keys-at i (k ∷ keys) b c zero key e at size =
      let (set, is_set, rest) = ok_parts i k keys b c e in
      let longer : i + 1 ≡ length (b.item_trackers ++ tracker_of set ∷ []) =
        omega (arith, length-append b.item_trackers (tracker_of set ∷ [])) in
      let same =
        add_keys-before (i + 1) keys (add_set set i b) c (i + 0) rest (omega arith) longer in
      let own = calls_of-add_item (i + 0) i set.instances b.instances in
      (
        set,
        ap get (ground arith) ∙ is_set,
        same.1
            ∙ ap (get_elem? (b.item_trackers ++ tracker_of set ∷ [])) (omega (arith, size))
            ∙ get_elem?-append_length b.item_trackers (tracker_of set),
        ground (arith, same.0, own),
      )
  add_keys-at i (k ∷ keys) b c (suc j) key e at size =
      let (set, is_set, rest) = ok_parts i k keys b c e in
      let (set', got, tracker, calls) =
        add_keys-at (i + 1) keys (add_set set i b) c j key rest at
          (omega (arith, length-append b.item_trackers (tracker_of set ∷ []))) in
      let shift : i + 1 + j ≡ i + suc j = omega arith in
      let own = calls_of-add_item (i + suc j) i set.instances b.instances in
      let at_shift = ap (λ n. calls_of n c.instances) shift in
      let from_shift = ap (λ n. calls_of n (add_set set i b).instances) shift in
      (
        set',
        got,
        ap (get_elem? c.item_trackers) (sym shift) ∙ tracker,
        ground (arith, calls, own, at_shift, from_shift),
      )

started_parts :
    (get : ℕ → Result ReplicationSet) (instances_count : ℕ) (keys : List ℕ) (b : Batch)
    → do_batch_start instances_count get keys ≡ started b
    → add_keys get 0 keys (record { item_trackers = []; instances = [] }) ≡ ok b
unfolding do_batch_start
started_parts get instances_count keys b e = ground arith

-- If DoBatch starts, then `Get` gave a replication set for each key, whose item needs as many
-- successes as the set has instances without the errors allowed, and may fail as often as these;
-- the calls have the item's index as often as the set has instances.
pub do_batch_start-calls :
    (get : ℕ → Result ReplicationSet) (instances_count : ℕ) (keys : List ℕ) (b : Batch) (j key : ℕ)
    → do_batch_start instances_count get keys ≡ started b
    → get_elem? keys j ≡ some key
    → (set : ReplicationSet) × (get key ≡ ok set)
      × (get_elem? b.item_trackers j ≡ some (tracker_of set))
      × (calls_of j b.instances ≡ length set.instances)
do_batch_start-calls get instances_count keys b j key e at =
    let (set, got, tracker, calls) =
      add_keys-at get 0 keys (record { item_trackers = []; instances = [] }) b j key
        (started_parts get instances_count keys b e) at refl in
    let same : 0 + j ≡ j = omega arith in
    (
      set,
      got,
      ap (get_elem? b.item_trackers) (sym same) ∙ tracker,
      omega (arith, ap (λ n. calls_of n b.instances) same, calls),
    )
