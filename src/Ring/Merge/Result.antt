-- ===== src/Ring/Merge/Result.antt =====
-- The result of a merge: the receiver's ring after it, and the change that is sent out.
use dskit.Base.{
  All, All-map, String, [], ap, arith, false, max, nat_eq, none, refl, some, string_eq, subst, sym,
  ℕ, ◌∙◌, ◌≡◌, ◌≤◌,
}
use dskit.Base.Maps.{IsMap, Map, entries_found, lookup}
use dskit.Ring.Types.{Desc, InstanceDesc}
use dskit.Ring.Conflicts.{resolve_conflicts}
use dskit.Ring.Conflicts.Resolve.{resolve_conflicts-lookup, resolve_conflicts-IsMap}
use dskit.Ring.Merge.{
  Merging, ring, MergeResult, merged, wrong_type, normalize_instance, normalize_ingesters_map,
  merge_entries, merge_loops, finish_merge, merge_with_time,
}
use dskit.Ring.Merge.Normalize.{lookup-normalize, normalize-IsMap}
use dskit.Ring.Merge.Newest.{
  rank, rank_of, newer-rank, merge_entries-lookup, merge_entries-IsMap, merge_entries_none_newer,
  merge_entries_quiet,
}

-- The receiver after a call.
abbrev pub after : MergeResult → Desc → Desc
after (merged d change) _ = d
after wrong_type d = d

-- A gossip message that arrives: a merge of another ring, not of the whole local state.
abbrev pub receive : ℕ → Desc → Desc → Desc
receive now d other = after (merge_with_time d (ring (some other)) false now) d

-- The rank of an instance of a ring.
abbrev pub rank_in : String → Desc → ℕ
rank_in name d = rank_of (lookup name d.ingesters)

start : Desc → Merging
start d = record { this = d.ingesters; updated = []; tokens_changed = false }

-- The rings of a merge before conflicts are resolved.
loops : Desc → Desc → Merging
loops d other = merge_entries (normalize_ingesters_map other.ingesters) (start d)

resolve-rank :
    (m : Map String InstanceDesc) (name : String)
    → IsMap m
    → rank_of (lookup name (resolve_conflicts m)) ≡ rank_of (lookup name m)
resolve-rank m name h = ground (arith, resolve_conflicts-lookup m h name)

finish-rank :
    (this : Map String InstanceDesc) (s : Merging) (name : String)
    → IsMap s.this
    → (s.updated ≡ [] → s.this ≡ this)
    → rank_of (lookup name (finish_merge this s).0) ≡ rank_of (lookup name s.this)
unfolding finish_merge
finish-rank this s name h same = ground (arith, resolve-rank s.this name h)

normalize-rank :
    (name : String) (m : Map String InstanceDesc)
    → rank_of (lookup name (normalize_ingesters_map m)) ≡ rank_of (lookup name m)
unfolding normalize_instance
normalize-rank name m = ground (arith, lookup-normalize name m)

receive_lem :
    (now : ℕ) (d other : Desc)
    → (receive now d other).ingesters ≡ (finish_merge d.ingesters (loops d other)).0
unfolding merge_with_time merge_loops loops start
receive_lem now d other = refl

loops-IsMap : (d other : Desc) → IsMap d.ingesters → IsMap (loops d other).this
unfolding loops start
loops-IsMap d other h = merge_entries-IsMap (normalize_ingesters_map other.ingesters) (start d) h

loops-rank :
    (d other : Desc) (name : String)
    → IsMap other.ingesters
    → rank_of (lookup name (loops d other).this) ≡ max (rank_in name d) (rank_in name other)
unfolding loops start
loops-rank d other name k =
    ap rank_of (
      merge_entries-lookup name (normalize_ingesters_map other.ingesters) (start d)
        (normalize-IsMap other.ingesters k))
    ∙ newer-rank (lookup name d.ingesters) (lookup name (normalize_ingesters_map other.ingesters))
    ∙ ap (max (rank_in name d)) (normalize-rank name other.ingesters)

loops_quiet : (d other : Desc) → (loops d other).updated ≡ [] → (loops d other).this ≡ d.ingesters
unfolding loops start
loops_quiet d other e =
    ap (λ s. s.this) (merge_entries_quiet (normalize_ingesters_map other.ingesters) (start d) e)

-- In a ring that is received, each instance ends with the greater of its two ranks: the later
-- timestamp, and LEFT before other states at the same timestamp.
pub receive-rank :
    (now : ℕ) (d other : Desc) (name : String)
    → IsMap d.ingesters
    → IsMap other.ingesters
    → rank_in name (receive now d other) ≡ max (rank_in name d) (rank_in name other)
receive-rank now d other name h k =
    ap (λ m. rank_of (lookup name m)) (receive_lem now d other)
    ∙ finish-rank d.ingesters (loops d other) name (loops-IsMap d other h) (loops_quiet d other)
    ∙ loops-rank d other name k

finish-IsMap :
    (this : Map String InstanceDesc) (s : Merging)
    → IsMap this
    → IsMap s.this
    → IsMap (finish_merge this s).0
unfolding finish_merge
finish-IsMap this s h k = ground (arith, resolve_conflicts-IsMap s.this k)

pub receive-IsMap :
    (now : ℕ) (d other : Desc) → IsMap d.ingesters → IsMap (receive now d other).ingesters
receive-IsMap now d other h =
    subst IsMap (sym (receive_lem now d other))
      (finish-IsMap d.ingesters (loops d other) h (loops-IsMap d other h))

-- A merge that updates nothing returns the receiver as it was, and no change.
merge_quiet :
    (later : ℕ) (d other : Desc)
    → loops d other ≡ start d
    → merge_with_time d (ring (some other)) false later ≡ merged d none
unfolding merge_with_time merge_loops loops start
merge_quiet later d other e =
    ap
      (λ s.
        let (m, change) = finish_merge d.ingesters s in merged (record { ingesters = m }) change)
      e

-- Merging a ring that was merged before changes nothing and sends nothing, at any later time.
pub receive_again :
    (now later : ℕ) (d other : Desc)
    → IsMap d.ingesters
    → IsMap other.ingesters
    → merge_with_time (receive now d other) (ring (some other)) false later
      ≡ merged (receive now d other) none
receive_again now later d other h k = merge_quiet later (receive now d other) other (
    unfold loops start in
    merge_entries_none_newer (normalize_ingesters_map other.ingesters) (start (receive now d other))
      (unfold start in not_newer))
  where
    not_newer :
        All
          (λ ((name, o) : String × InstanceDesc).
            rank o ≤ rank_of (lookup name (receive now d other).ingesters))
          (normalize_ingesters_map other.ingesters)
    not_newer =
        All-map
          (λ ((name, o) : String × InstanceDesc).
            lookup name (normalize_ingesters_map other.ingesters) ≡ some o)
          (λ ((name, o) : String × InstanceDesc).
            rank o ≤ rank_of (lookup name (receive now d other).ingesters))
          (λ (name, o) found. omega (
            arith,
            receive-rank now d other name h k,
            normalize-rank name other.ingesters,
            ap rank_of found,
          ))
          (normalize_ingesters_map other.ingesters)
          (entries_found (normalize_ingesters_map other.ingesters)
            (normalize-IsMap other.ingesters k))
