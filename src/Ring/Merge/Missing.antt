-- ===== src/Ring/Merge/Missing.antt =====
-- With localCAS the argument is the whole state: what it lacks has left the ring.
use dskit.Base.{
  ==_iff, Bool, List, Option, String, [], ap, arith, contains, false, if◌then◌else◌, nat_eq, none,
  not, refl, some, string_eq, true, ℕ, ◌++◌, ◌∙◌, ◌∷◌, ◌≡◌,
}
use dskit.Base.Maps.{IsMap, Map, lookup}
use dskit.Ring.Types.{Desc, InstanceDesc, left, state_eq}
use dskit.Ring.Merge.{
  Merging, mark_missing, merge_loops, finish_merge, merge_with_time, ring, normalize_ingesters_map,
  merge_entries,
}
use dskit.Ring.Merge.Normalize.{lookup-normalize, normalize-IsMap}
use dskit.Ring.Merge.Newest.{merge_entries-lookup, merge_entries-IsMap}
use dskit.Ring.Conflicts.Resolve.{resolve_conflicts-left}
use dskit.Ring.Merge.Result.{after}

-- What the second loop does to an entry.
abbrev pub marked : ℕ → Option InstanceDesc → Option InstanceDesc → Option InstanceDesc
marked now (some _) t = t
marked now none none = none
marked now none (some t) =
    if state_eq t.state left
    then some t
    else some (record t { state = left; tokens = []; timestamp = now })

pub lookup-mark_missing :
    (now : ℕ) (other m : Map String InstanceDesc) (k : String)
    → lookup k (mark_missing now other m).0 ≡ marked now (lookup k other) (lookup k m)
unfolding mark_missing lookup
lookup-mark_missing now other [] k = ground arith
lookup-mark_missing now other ((name, t) ∷ m) k =
    ground (arith, ==_iff name k, lookup-mark_missing now other m k)

abbrev pub must_mark : Option InstanceDesc → Option InstanceDesc → Bool
must_mark (some _) t = false
must_mark none none = false
must_mark none (some t) = not (state_eq t.state left)

mark_missing-names :
    (now : ℕ) (other m : Map String InstanceDesc) (k : String)
    → IsMap m
    → contains (mark_missing now other m).1 k ≡ must_mark (lookup k other) (lookup k m)
unfolding mark_missing lookup
mark_missing-names now other [] k h = ground arith
mark_missing-names now other ((name, t) ∷ m) k h =
    ground (arith, ==_iff name k, ==_iff k name, mark_missing-names now other m k h.1)

-- The receiver after a merge of the whole local state.
abbrev pub replace : ℕ → Desc → Desc → Desc
replace now d other = after (merge_with_time d (ring (some other)) true now) d

-- The variables after both loops.
local_loops : ℕ → Desc → Desc → Merging
local_loops now d other = merge_loops true now (normalize_ingesters_map other.ingesters) d.ingesters

replace_lem :
    (now : ℕ) (d other : Desc)
    → (replace now d other).ingesters ≡ (finish_merge d.ingesters (local_loops now d other)).0
unfolding merge_with_time local_loops
replace_lem now d other = refl

mark_missing-IsMap :
    (now : ℕ) (other m : Map String InstanceDesc) → IsMap m → IsMap (mark_missing now other m).0
unfolding mark_missing
mark_missing-IsMap now other [] h = tt
mark_missing-IsMap now other ((name, t) ∷ m) h =
    ground (arith, mark_missing-IsMap now other m h.1, lookup-mark_missing now other m name)

append_nil_right : (xs ys : List String) → xs ++ ys ≡ [] → ys ≡ []
append_nil_right [] ys e = e
append_nil_right (x ∷ xs) ys e = cc

-- What an instance that the new state lacks becomes.
abbrev pub departed : ℕ → InstanceDesc → InstanceDesc
departed now t =
    if state_eq t.state left then t else record t { state = left; tokens = []; timestamp = now }

module _ (now : ℕ) (d other : Desc) (name : String) {t : InstanceDesc} (h : IsMap d.ingesters)
    (k : IsMap other.ingesters) (lacks : lookup name other.ingesters ≡ none)
    (had : lookup name d.ingesters ≡ some t)
    (clean : state_eq t.state left ≡ true → t.tokens ≡ []) where
  abbrev first : Merging
  first =
      merge_entries (normalize_ingesters_map other.ingesters)
        (record { this = d.ingesters; updated = []; tokens_changed = false })

  normal_lacks : lookup name (normalize_ingesters_map other.ingesters) ≡ none
  normal_lacks = ground (arith, lookup-normalize name other.ingesters)

  first-lookup : lookup name first.this ≡ some t
  first-lookup =
      merge_entries-lookup name (normalize_ingesters_map other.ingesters)
        (record { this = d.ingesters; updated = []; tokens_changed = false })
        (normalize-IsMap other.ingesters k)
      ∙ ground (arith, normal_lacks)

  local_loops-lookup : lookup name (local_loops now d other).this ≡ some (departed now t)
  unfolding local_loops merge_loops
  local_loops-lookup =
      lookup-mark_missing now (normalize_ingesters_map other.ingesters) first.this name
      ∙ ground (arith, normal_lacks, first-lookup)

  local_loops-IsMap : IsMap (local_loops now d other).this
  unfolding local_loops merge_loops
  local_loops-IsMap = mark_missing-IsMap now (normalize_ingesters_map other.ingesters) first.this (
      merge_entries-IsMap (normalize_ingesters_map other.ingesters)
        (record { this = d.ingesters; updated = []; tokens_changed = false }) h)

  -- If nothing was updated the instance had left before.
  quiet_left : (local_loops now d other).updated ≡ [] → state_eq t.state left ≡ true
  unfolding local_loops merge_loops
  quiet_left e = ground (
    arith,
    append_nil_right first.updated _ e,
    normal_lacks,
    first-lookup,
    mark_missing-names now (normalize_ingesters_map other.ingesters) first.this name (
        merge_entries-IsMap (normalize_ingesters_map other.ingesters)
          (record { this = d.ingesters; updated = []; tokens_changed = false }) h),
  )

  departed_left : state_eq (departed now t).state left ≡ true
  departed_left = ground arith

  departed_empty : (departed now t) ≡ record (departed now t) { tokens = [] }
  departed_empty = ground arith

  -- An instance of the receiver that the new state lacks ends LEFT, without tokens and with the time
  -- of the call as its timestamp, unless it was LEFT already: then it stays as it was (a LEFT
  -- instance is taken to have no tokens, as a normalised ring has it).
  pub replace-missing : lookup name (replace now d other).ingesters ≡ some (departed now t)
  unfolding finish_merge
  replace-missing =
      ap (lookup name) (replace_lem now d other)
      ∙ ground (
        arith,
        quiet_left,
        local_loops-lookup,
        departed_empty,
        resolve_conflicts-left (local_loops now d other).this local_loops-IsMap name
            local_loops-lookup departed_left,
      )
