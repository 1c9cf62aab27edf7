-- ===== src/Ring/Merge.antt =====
-- ring/model.go: Merge, and normalizeIngestersMap which prepares its argument.
use dskit.Base.{
  Bool, List, Option, String, [], false, if◌then◌else◌, ltb, nat_eq, none, not, some, string_eq,
  true, ℕ, ◌&&◌, ◌++◌, ◌==◌, ◌||◌, ◌∷◌,
}
use dskit.Base.Sort.{ensure_sorted}
use dskit.Base.Maps.{Map, insert, lookup}
use dskit.Ring.Types.{Desc, InstanceDesc, instance_at, left, state_eq}
pub mod Normalize
pub mod Newest
pub mod Result
pub mod Missing
pub mod Gossip
use dskit.Ring.Conflicts.{conflicting_tokens_exist, resolve_conflicts}

-- the loop that drops repeated neighbours, from the second token on
unfoldable pub dedupe_from : ℕ → List ℕ → List ℕ
dedupe_from prev [] = []
dedupe_from prev (t ∷ ts) =
    let same = dedupe_from prev ts in
    let new = t ∷ dedupe_from t ts in if t == prev then same else new

-- sorted, and without repetitions
unfoldable pub normalize_tokens : List ℕ → List ℕ
unfolding dedupe_from
normalize_tokens tokens = elim (ensure_sorted tokens) [ [] ↦ [] | t ∷ ts ↦ t ∷ dedupe_from t ts ]

-- the body of the loop of `normalizeIngestersMap`
unfoldable pub normalize_instance : InstanceDesc → InstanceDesc
unfolding normalize_tokens
normalize_instance ing =
    if state_eq ing.state left
    then record ing { tokens = [] }
    else record ing { tokens = normalize_tokens ing.tokens }

-- `normalizeIngestersMap`
unfoldable pub normalize_ingesters_map : Map String InstanceDesc → Map String InstanceDesc
unfolding normalize_instance
normalize_ingesters_map [] = []
normalize_ingesters_map ((n, ing) ∷ m) = (n, normalize_instance ing) ∷ normalize_ingesters_map m

-- `tokensEqual`
unfoldable pub tokens_equal : List ℕ → List ℕ → Bool
tokens_equal [] [] = true
tokens_equal (x ∷ xs) (y ∷ ys) = x == y && tokens_equal xs ys
tokens_equal _ _ = false

-- The variables of the first loop of `mergeWithTime`.
pub record Merging : Type 0 where
  pub this : Map String InstanceDesc
  pub updated : List String
  pub tokens_changed : Bool

-- the body of the first loop
unfoldable pub merge_entry : String → InstanceDesc → Merging → Merging
unfolding tokens_equal
merge_entry name oing s =
    let ting = instance_at name s.this in
    if ltb ting.timestamp oing.timestamp
    then record {
      this = insert name oing s.this;
      updated = s.updated ++ name ∷ [];
      tokens_changed = s.tokens_changed || not (tokens_equal ting.tokens oing.tokens);
    }
    else if oing.timestamp == ting.timestamp
        && (not (state_eq ting.state left) && state_eq oing.state left)
    then record s { this = insert name oing s.this; updated = s.updated ++ name ∷ [] }
    else s

-- the first loop
unfoldable pub merge_entries : Map String InstanceDesc → Merging → Merging
unfolding merge_entry
merge_entries [] s = s
merge_entries ((name, oing) ∷ m) s = merge_entries m (merge_entry name oing s)

-- the second loop: instances that the other ring lacks become LEFT, as of now
unfoldable pub mark_missing :
    ℕ → Map String InstanceDesc → Map String InstanceDesc → Map String InstanceDesc × List String
mark_missing now other [] = ([], [])
mark_missing now other ((name, ting) ∷ m) =
    let (rest, names) = mark_missing now other m in
    elim (lookup name other) [
      | some _ ↦ ((name, ting) ∷ rest, names)
      | none ↦ if state_eq ting.state left then ((name, ting) ∷ rest, names) else (
        (name, record ting { state = left; tokens = []; timestamp = now }) ∷ rest,
        name ∷ names,
      )
    ]

-- both loops
unfoldable pub merge_loops : Bool → ℕ → Map String InstanceDesc → Map String InstanceDesc → Merging
unfolding merge_entries mark_missing
merge_loops local_cas now other this =
    let s = merge_entries other (record { this = this; updated = []; tokens_changed = false }) in
    let (marked, names) = mark_missing now other s.this in
    if local_cas then record s { this = marked; updated = s.updated ++ names } else s

-- the change that is returned: the updated entries
unfoldable pub build_change : List String → Map String InstanceDesc → Map String InstanceDesc
build_change [] m = []
build_change (u ∷ us) m = insert u (instance_at u m) (build_change us m)

-- what follows the loops: the receiver's map, and the change if there is one
unfoldable pub finish_merge :
    Map String InstanceDesc → Merging → Map String InstanceDesc × Option Desc
unfolding build_change
finish_merge this s = elim s.updated [
  | [] ↦ (this, none)
  | _ ∷ _ ↦
      let m =
        if s.tokens_changed && conflicting_tokens_exist s.this
        then resolve_conflicts s.this
        else s.this in
      (m, some (record { ingesters = build_change s.updated m }))
]

-- What the interface value `Mergeable` may be: nil, of another type, or a pointer to a ring.
pub data Mergeable : Type 0 where
  nil : Mergeable
  other_type : Mergeable
  ring : Option Desc → Mergeable

-- The receiver after the call and the change, or the error about the type.
pub data MergeResult : Type 0 where
  merged : Desc → Option Desc → MergeResult
  wrong_type : MergeResult

-- `mergeWithTime`
unfoldable pub merge_with_time : Desc → Mergeable → Bool → ℕ → MergeResult
unfolding normalize_ingesters_map merge_loops finish_merge
merge_with_time d nil local_cas now = merged d none
merge_with_time d other_type local_cas now = wrong_type
merge_with_time d (ring none) local_cas now = merged d none
merge_with_time d (ring (some other)) local_cas now =
    let (m, change) =
      finish_merge d.ingesters
        (merge_loops local_cas now (normalize_ingesters_map other.ingesters) d.ingesters) in
    merged (record { ingesters = m }) change
