-- ===== src/Ring/Merge/Newest.antt =====
-- The loop over the other ring's instances keeps the newest entry of each.
use dskit.Base.{
  ==_iff, All, Bool, List, Option, String, [], ap, arith, contains, contains-append, false,
  if◌then◌else◌, ltb, max, nat_eq, none, refl, some, string_eq, sym, ℕ, ◌&&◌, ◌*◌, ◌++◌, ◌+◌, ◌==◌,
  ◌||◌, ◌∙◌, ◌∷◌, ◌≡◌, ◌≢◌, ◌≤◌,
}
use dskit.Base.Maps.{IsMap, Map, insert-IsMap, lookup, lookup-insert}
use dskit.Ring.Types.{InstanceDesc, left, state_eq, zero_instance}
use dskit.Ring.Merge.{Merging, merge_entry, merge_entries}

-- Entries are ordered by their timestamps, and at the same timestamp LEFT comes after the rest.
abbrev pub rank : InstanceDesc → ℕ
rank i = if state_eq i.state left then 2 * i.timestamp + 1 else 2 * i.timestamp

abbrev pub or_zero : Option InstanceDesc → InstanceDesc
or_zero none = zero_instance
or_zero (some i) = i

-- The entry that a merge leaves: the other ring's if that is newer.
abbrev pub newer : Option InstanceDesc → Option InstanceDesc → Option InstanceDesc
newer t none = t
newer t (some o) = if ltb (rank (or_zero t)) (rank o) then some o else t

-- The rank of an instance in a ring; a missing one has that of the zero value.
abbrev pub rank_of : Option InstanceDesc → ℕ
rank_of o = rank (or_zero o)

merge_entry-lookup :
    (name k : String) (o : InstanceDesc) (s : Merging)
    → lookup k (merge_entry name o s).this
      ≡ (if name == k then newer (lookup name s.this) (some o) else lookup k s.this)
unfolding merge_entry
merge_entry-lookup name k o s = ground (arith, ==_iff name k, lookup-insert name k o s.this)

pub merge_entries-lookup :
    (k : String) (m : Map String InstanceDesc) (s : Merging)
    → IsMap m
    → lookup k (merge_entries m s).this ≡ newer (lookup k s.this) (lookup k m)
unfolding merge_entries lookup
merge_entries-lookup k [] s h = refl
merge_entries-lookup k ((name, o) ∷ m) s h =
    merge_entries-lookup k m (merge_entry name o s) h.1
    ∙ ground (arith, merge_entry-lookup name k o s, ==_iff name k)

pub newer-rank : (t o : Option InstanceDesc) → rank_of (newer t o) ≡ max (rank_of t) (rank_of o)
newer-rank t none = ground arith
newer-rank t (some o) = ground arith

entry_IsMap :
    (name : String) (o : InstanceDesc) (s : Merging)
    → IsMap s.this
    → IsMap (merge_entry name o s).this
unfolding merge_entry
entry_IsMap name o s h = ground (arith, insert-IsMap name o s.this h)

-- A pass over entries none of which is newer changes nothing.
pub merge_entries_none_newer :
    (m : Map String InstanceDesc) (s : Merging)
    → All (λ ((name, o) : String × InstanceDesc). rank o ≤ rank_of (lookup name s.this)) m
    → merge_entries m s ≡ s
unfolding merge_entries
merge_entries_none_newer [] s h = refl
merge_entries_none_newer ((name, o) ∷ m) s h =
    rw (unchanged name o s h.0) (merge_entries_none_newer m s h.1)
  where
    unchanged :
        (name : String) (o : InstanceDesc) (s : Merging)
        → rank o ≤ rank_of (lookup name s.this)
        → merge_entry name o s ≡ s
    unchanged name o s h = ground arith

-- The updated names are those whose entry in the other ring is newer.
abbrev pub is_newer : Option InstanceDesc → Option InstanceDesc → Bool
is_newer t none = false
is_newer t (some o) = ltb (rank (or_zero t)) (rank o)

merge_entry-updated :
    (name k : String) (o : InstanceDesc) (s : Merging)
    → contains (merge_entry name o s).updated k
      ≡ (contains s.updated k || (name == k && is_newer (lookup k s.this) (some o)))
unfolding merge_entry
merge_entry-updated name k o s =
    ground (arith, ==_iff name k, ==_iff k name, contains-append s.updated (name ∷ []) k)

pub merge_entries-updated :
    (k : String) (m : Map String InstanceDesc) (s : Merging)
    → IsMap m
    → contains (merge_entries m s).updated k
      ≡ (contains s.updated k || is_newer (lookup k s.this) (lookup k m))
unfolding merge_entries lookup
merge_entries-updated k [] s h = ground arith
merge_entries-updated k ((name, o) ∷ m) s h =
    merge_entries-updated k m (merge_entry name o s) h.1
    ∙ ground (arith, merge_entry-lookup name k o s, merge_entry-updated name k o s, ==_iff name k)

pub merge_entries-IsMap :
    (m : Map String InstanceDesc) (s : Merging) → IsMap s.this → IsMap (merge_entries m s).this
unfolding merge_entries
merge_entries-IsMap [] s h = h
merge_entries-IsMap ((name, o) ∷ m) s h =
    merge_entries-IsMap m (merge_entry name o s) (entry_IsMap name o s h)

-- If no name is noted as updated, nothing was changed.
snoc-ne-nil : (xs : List String) (x : String) → xs ++ x ∷ [] ≢ []
snoc-ne-nil [] x e = cc
snoc-ne-nil (y ∷ xs) x e = cc

entry_quiet :
    (name : String) (o : InstanceDesc) (s : Merging)
    → (merge_entry name o s).updated ≡ []
    → merge_entry name o s ≡ s
unfolding merge_entry
entry_quiet name o s h = ground (arith, snoc-ne-nil s.updated name)

pub merge_entries_quiet :
    (m : Map String InstanceDesc) (s : Merging)
    → (merge_entries m s).updated ≡ []
    → merge_entries m s ≡ s
unfolding merge_entries
merge_entries_quiet [] s h = refl
merge_entries_quiet ((name, o) ∷ m) s h =
    let rest = merge_entries_quiet m (merge_entry name o s) h in
    rest ∙ entry_quiet name o s (ap (λ r. r.updated) (sym rest) ∙ h)
