-- ===== src/Ring/Conflicts/Rebuild.antt =====
-- The second half of resolveConflicts gives each instance the tokens that it owns.
use dskit.Base.{
  ==_iff, All, Bool-cases, List, Option, String, [], ap, append-nil, append_assoc, arith, false,
  inl, inr, keep, nat_eq, none, refl, some, string_eq, sym, true, ℕ, ◌++◌, ◌==◌, ◌∙◌, ◌∷◌, ◌≡◌,
}
use dskit.Base.Maps.{IsMap, Map, insert, insert-IsMap, lookup, lookup-insert}
use dskit.Ring.Types.{InstanceDesc, instance_at}
use dskit.Ring.Conflicts.{empty_lists, list_at, owner_of, assign, write_back}

-- The tokens that an owner map gives to an instance.
abbrev pub owned : Map ℕ String → String → List ℕ → List ℕ
owned owner key = keep (λ t. owner_of owner t == key)

-- What to do with the entry of a key.
abbrev pub on_entry {ℓ κ} : {A : Type ℓ} {B : Type κ} → (A → B) → Option A → Option B
on_entry f none = none
on_entry f (some a) = some (f a)

lookup-empty_lists :
    (k : String) (m : Map String InstanceDesc)
    → lookup k (empty_lists m) ≡ on_entry (λ _. []) (lookup k m)
unfolding empty_lists lookup
lookup-empty_lists k [] = refl
lookup-empty_lists k ((j, i) ∷ m) =
    ground (arith, lookup-insert j k [] (empty_lists m), lookup-empty_lists k m)

empty_lists-IsMap : (m : Map String InstanceDesc) → IsMap (empty_lists m)
unfolding empty_lists
empty_lists-IsMap [] = tt
empty_lists-IsMap ((j, i) ∷ m) = insert-IsMap j [] (empty_lists m) (empty_lists-IsMap m)

assign-IsMap :
    (owner : Map ℕ String) (ts : List ℕ) (lists : Map String (List ℕ))
    → IsMap lists
    → IsMap (assign owner ts lists)
unfolding assign
assign-IsMap owner [] lists h = h
assign-IsMap owner (t ∷ ts) lists h =
    let key = owner_of owner t in
    assign-IsMap owner ts (insert key (list_at key lists ++ t ∷ []) lists)
      (insert-IsMap key (list_at key lists ++ t ∷ []) lists h)

-- `assign` appends to each list the tokens of its owner, in their order.
lookup-assign :
    (k : String) (owner : Map ℕ String) (ts : List ℕ) (lists : Map String (List ℕ)) (l : List ℕ)
    → lookup k lists ≡ some l
    → lookup k (assign owner ts lists) ≡ some (l ++ owned owner k ts)
unfolding assign
lookup-assign k owner [] lists l h = h ∙ ap some (sym (append-nil l))
lookup-assign k owner (t ∷ ts) lists l h = elim (Bool-cases (owner_of owner t == k)) [
  | inl mine ↦ rw mine (
      lookup-assign k owner ts _ (l ++ t ∷ []) (step mine)
      ∙ ap some (append_assoc l (t ∷ []) (owned owner k ts)))
  | inr other ↦ rw other (lookup-assign k owner ts _ l (skip other))
]
  where
    step :
        (owner_of owner t == k) ≡ true
        → lookup k (insert (owner_of owner t) (list_at (owner_of owner t) lists ++ t ∷ []) lists)
          ≡ some (l ++ t ∷ [])
    step mine =
        lookup-insert (owner_of owner t) k (list_at (owner_of owner t) lists ++ t ∷ []) lists
        ∙ ground (arith, ==_iff (owner_of owner t) k)

    skip :
        (owner_of owner t == k) ≡ false
        → lookup k (insert (owner_of owner t) (list_at (owner_of owner t) lists ++ t ∷ []) lists)
          ≡ some l
    skip other =
        lookup-insert (owner_of owner t) k (list_at (owner_of owner t) lists ++ t ∷ []) lists
        ∙ rw other h

-- It makes no list for a key that owns none of the tokens.
lookup-assign-none :
    (k : String) (owner : Map ℕ String) (ts : List ℕ) (lists : Map String (List ℕ))
    → lookup k lists ≡ none
    → All (λ t. (owner_of owner t == k) ≡ false) ts
    → lookup k (assign owner ts lists) ≡ none
unfolding assign
lookup-assign-none k owner [] lists h a = h
lookup-assign-none k owner (t ∷ ts) lists h a =
    lookup-assign-none k owner ts _
      (lookup-insert (owner_of owner t) k (list_at (owner_of owner t) lists ++ t ∷ []) lists
        ∙ rw a.0 h)
      a.1

-- `write_back` replaces the tokens of the instances that have a list.
lookup-write_back :
    (k : String) (lists : Map String (List ℕ)) (m : Map String InstanceDesc)
    → IsMap lists
    → lookup k (write_back lists m) ≡ elim (lookup k lists) [
      | none ↦ lookup k m
      | some ts ↦ some (record (instance_at k m) { tokens = ts })
    ]
unfolding write_back lookup
lookup-write_back k [] m h = refl
lookup-write_back k ((j, ts) ∷ lists) m h =
    lookup-write_back k lists (insert j (record (instance_at j m) { tokens = ts }) m) h.1
    ∙ ground (arith, lookup-insert j k (record (instance_at j m) { tokens = ts }) m, ==_iff j k)

write_back-IsMap :
    (lists : Map String (List ℕ)) (m : Map String InstanceDesc)
    → IsMap m
    → IsMap (write_back lists m)
unfolding write_back
write_back-IsMap [] m h = h
write_back-IsMap ((j, ts) ∷ lists) m h =
    write_back-IsMap lists _ (insert-IsMap j (record (instance_at j m) { tokens = ts }) m h)

module _ (m : Map String InstanceDesc) (owner : Map ℕ String) (ts : List ℕ) where
  unfoldable pub rebuild : Map String InstanceDesc
  rebuild = write_back (assign owner ts (empty_lists m)) m

  -- An instance keeps all but its tokens, which become those that it owns.
  pub lookup-rebuild :
      (k : String) {i : InstanceDesc}
      → lookup k m ≡ some i
      → lookup k rebuild ≡ some (record i { tokens = owned owner k ts })
  unfolding rebuild
  lookup-rebuild k {i} h =
      lookup-write_back k (assign owner ts (empty_lists m)) m
        (assign-IsMap owner ts (empty_lists m) (empty_lists-IsMap m))
      ∙ ground
          (arith, lookup-assign k owner ts (empty_lists m) [] (lookup-empty_lists k m ∙ rw h refl))

  pub lookup-rebuild-none :
      (k : String)
      → lookup k m ≡ none
      → All (λ t. (owner_of owner t == k) ≡ false) ts
      → lookup k rebuild ≡ none
  unfolding rebuild
  lookup-rebuild-none k h a =
      lookup-write_back k (assign owner ts (empty_lists m)) m
        (assign-IsMap owner ts (empty_lists m) (empty_lists-IsMap m))
      ∙ ground (
        arith,
        lookup-assign-none k owner ts (empty_lists m) (lookup-empty_lists k m ∙ rw h refl) a,
      )

  pub rebuild-IsMap : IsMap m → IsMap rebuild
  unfolding rebuild
  rebuild-IsMap h = write_back-IsMap (assign owner ts (empty_lists m)) m h
