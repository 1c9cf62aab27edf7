-- ===== src/Ring/Conflicts/Resolve.antt =====
-- What resolveConflicts does to the tokens of each instance.
use dskit.Base.{
  ==_iff, ==_refl, All, All-contains, Bool, List, Option, Option-cases, String, [], ap, arith,
  contains, contains-keep, false, inl, inr, nat_eq, nil_of_contains, none, not, refl, some,
  string_eq, subst, sym, true, ℕ, ◌&&◌, ◌==◌, ◌||◌, ◌↔◌, ◌∙◌, ◌∷◌, ◌≡◌, ◌⊎◌,
}
use dskit.Base.Sort.{contains-sort, sort}
use dskit.Base.Maps.{IsMap, Map, entries_found, lookup}
use dskit.Base.Texts.{str_ltb_irrefl}
use dskit.Ring.Types.{InstanceDesc, left, state_eq}
use dskit.Ring.Conflicts.{Claims, claim_instances, owner_of, resolve_conflicts}
use dskit.Ring.Conflicts.Rebuild.{
  owned, rebuild, lookup-rebuild, lookup-rebuild-none, rebuild-IsMap, on_entry,
}
use dskit.Ring.Conflicts.Claiming.{
  has_pair, beats, beats_trans, Inv, claim_instances-Inv, add_pairs, all_pairs,
}

-- Whether an instance claims a token: it is in the map, is not LEFT, and lists it.
abbrev pub claims : Option InstanceDesc → ℕ → Bool
claims none t = false
claims (some i) t = not (state_eq i.state left) && contains i.tokens t

has_pair-add_pairs :
    (key k : String) (t : ℕ) (ts : List ℕ) (done : List (String × ℕ))
    → has_pair (add_pairs key ts done) k t ≡ ((key == k && contains ts t) || has_pair done k t)
has_pair-add_pairs key k t [] done = ground arith
has_pair-add_pairs key k t (u ∷ ts) done =
    has_pair-add_pairs key k t ts ((key, u) ∷ done) ∙ ground (arith, ==_iff u t, ==_iff t u)

has_pair-all_pairs :
    (k : String) (t : ℕ) (l : Map String InstanceDesc) (done : List (String × ℕ))
    → IsMap l
    → has_pair (all_pairs l done) k t ≡ (claims (lookup k l) t || has_pair done k t)
unfolding lookup
has_pair-all_pairs k t [] done h = ground arith
has_pair-all_pairs k t ((key, i) ∷ l) done h =
    has_pair-all_pairs k t l _ h.1
    ∙ ground (arith, ==_iff key k, has_pair-add_pairs key k t i.tokens done)

abbrev pub with_tokens : List ℕ → InstanceDesc → InstanceDesc
with_tokens ts i = record i { tokens = ts }

-- Whether an instance is in a map and lists a token.
abbrev pub holds : Option InstanceDesc → ℕ → Bool
holds none t = false
holds (some i) t = contains i.tokens t

module _ (m : Map String InstanceDesc) (h : IsMap m) where
  pub claimed : Claims
  claimed = claim_instances m m (record { tokens = []; owner = [] })

  claimed-Inv : Inv m (all_pairs m []) claimed
  unfolding claimed lookup
  claimed-Inv =
      claim_instances-Inv m m [] (record { tokens = []; owner = [] }) (entries_found m h)
        (λ t. inl (refl, refl, λ k. refl))

  -- Whether instance `k` claims token `t` in the map.
  pair_claims : (k : String) (t : ℕ) → has_pair (all_pairs m []) k t ≡ claims (lookup k m) t
  pair_claims k t = has_pair-all_pairs k t m [] h ∙ ground arith

  beats_asym : (j k : String) → beats m j k ≡ true → beats m k j ≡ true → ⊥
  beats_asym j k h l = ground (arith, beats_trans m j k j h l, str_ltb_irrefl j)

  owner_claims :
      (t : ℕ) (j : String)
      → lookup t claimed.owner ≡ some j
      → (claims (lookup j m) t ≡ true)
        × ((k : String) → claims (lookup k m) t ≡ true → (k ≡ j) ⊎ (beats m j k ≡ true))
  owner_claims t j owner = elim (claimed-Inv t) [
    | inl (unowned, _, _) ↦ cc
    | inr (j', owner', present, held, best) ↦
        let same : j' ≡ j = ground arith in
        (rw (← same, ← pair_claims j' t) held, λ k c. rw (← same) (best k (pair_claims k t ∙ c)))
  ]

  resolve_conflicts-rebuild : resolve_conflicts m ≡ rebuild m claimed.owner (sort claimed.tokens)
  unfolding resolve_conflicts rebuild claimed
  resolve_conflicts-rebuild = refl

  -- A token in the list has an owner, which claims it.
  listed_owner :
      (t : ℕ)
      → contains (sort claimed.tokens) t ≡ true
      → (j : String) × (lookup t claimed.owner ≡ some j) × (claims (lookup j m) t ≡ true)
  listed_owner t here = elim (claimed-Inv t) [
    | inl (_, absent, _) ↦ cc (contains-sort t claimed.tokens)
    | inr (j, owner, _, held, _) ↦ (j, owner, sym (pair_claims j t) ∙ held)
  ]

  pub resolve_conflicts-IsMap : IsMap (resolve_conflicts m)
  resolve_conflicts-IsMap =
      subst IsMap (sym resolve_conflicts-rebuild)
        (rebuild-IsMap m claimed.owner (sort claimed.tokens) h)

  -- Resolving conflicts changes nothing of an instance but its tokens, and adds or drops none.
  pub resolve_conflicts-lookup :
      (k : String)
      → lookup k (resolve_conflicts m)
        ≡ on_entry (with_tokens (owned claimed.owner k (sort claimed.tokens))) (lookup k m)
  resolve_conflicts-lookup k =
      ap (lookup k) resolve_conflicts-rebuild ∙ elim (Option-cases (lookup k m)) [
        | inl missing ↦
            lookup-rebuild-none m claimed.owner (sort claimed.tokens) k missing (strangers missing)
            ∙ rw missing refl
        | inr (i, found) ↦
            lookup-rebuild m claimed.owner (sort claimed.tokens) k found ∙ rw found refl
      ]
    where
      strangers :
          lookup k m ≡ none
          → All (λ t. (owner_of claimed.owner t == k) ≡ false) (sort claimed.tokens)
      strangers missing =
          All-contains (λ t. (owner_of claimed.owner t == k) ≡ false) (sort claimed.tokens)
            (λ t here. let (j, owner, held) = listed_owner t here in ground (arith, ==_iff j k))

  -- After it, an instance holds just the listed tokens that it owns.
  holds_owned :
      (k : String) (t : ℕ)
      → holds (lookup k (resolve_conflicts m)) t ≡ true
      → (lookup t claimed.owner ≡ some k) × (claims (lookup k m) t ≡ true)
  holds_owned k t here = elim (Option-cases (lookup k m)) [
    | inl missing ↦ cc (resolve_conflicts-lookup k ∙ ap (on_entry _) missing)
    | inr (i, found) ↦
        let kept : contains (owned claimed.owner k (sort claimed.tokens)) t ≡ true =
          ground (arith, resolve_conflicts-lookup k) in
        let split =
          sym (contains-keep (λ t. owner_of claimed.owner t == k) (sort claimed.tokens) t) ∙ kept in
        let (j, owner, held) = listed_owner t (ground arith) in
        let same : j ≡ k = ground (arith, ==_iff j k) in
        (owner ∙ ap some same, subst (λ x. claims (lookup x m) t ≡ true) same held)
  ]

  owned_holds :
      (k : String) (t : ℕ)
      → lookup t claimed.owner ≡ some k
      → holds (lookup k (resolve_conflicts m)) t ≡ true
  owned_holds k t owner = elim (claimed-Inv t) [
    | inl (unowned, _, _) ↦ cc
    | inr (j, owner', present, _, _) ↦ elim (Option-cases (lookup k m)) [
      | inl missing ↦ ground (arith, owner_claims t k owner)
      | inr (i, found) ↦
          let both = contains-keep (λ u. owner_of claimed.owner u == k) (sort claimed.tokens) t in
          ground
            (arith, resolve_conflicts-lookup k, both, contains-sort t claimed.tokens, ==_refl k)
    ]
  ]

  agree : (j k : String) → (k ≡ j) ⊎ (beats m j k ≡ true) → (j ≡ k) ⊎ (beats m k j ≡ true) → j ≡ k
  agree j k (inl same) b = sym same
  agree j k (inr over) (inl same) = same
  agree j k (inr over) (inr under) = absurd (beats_asym j k over under)

  -- After conflicts are resolved, an instance holds a token exactly when it claimed the token (it is
  -- not LEFT and lists it) and wins against every other instance that claimed it: the others are
  -- LEAVING where it is not, or neither or both are and its name is the lower one.
  pub resolve_conflicts-holds_iff :
      (k : String) (t : ℕ)
      → (holds (lookup k (resolve_conflicts m)) t ≡ true) ↔ (
          (claims (lookup k m) t ≡ true)
          × ((j : String) → claims (lookup j m) t ≡ true → (j ≡ k) ⊎ (beats m k j ≡ true)))
  resolve_conflicts-holds_iff k t = (
    λ here. let (owner, held) = holds_owned k t here in (held, (owner_claims t k owner).1),
    λ (held, best). elim (claimed-Inv t) [
      | inl (_, _, nobody) ↦ ground (arith, nobody k, pair_claims k t)
      | inr (j, owner, _, other, top) ↦ owned_holds k t (
          owner
          ∙ ap some
              (agree j k (top k (pair_claims k t ∙ held)) (best j (sym (pair_claims j t) ∙ other))))
    ],
  )

  -- No claimed token is lost: some instance holds it after conflicts are resolved.
  pub resolve_conflicts-keeps :
      (j : String) (t : ℕ)
      → claims (lookup j m) t ≡ true
      → (k : String) × (holds (lookup k (resolve_conflicts m)) t ≡ true)
  resolve_conflicts-keeps j t held = elim (claimed-Inv t) [
    | inl (_, _, nobody) ↦ ground (arith, nobody j, pair_claims j t)
    | inr (k, owner, _, _, _) ↦ (k, owned_holds k t owner)
  ]

  -- A LEFT instance is left with no tokens.
  pub resolve_conflicts-left :
      (k : String) {i : InstanceDesc}
      → lookup k m ≡ some i
      → state_eq i.state left ≡ true
      → lookup k (resolve_conflicts m) ≡ some (record i { tokens = [] })
  resolve_conflicts-left k {i} found gone =
      resolve_conflicts-lookup k
      ∙ ap (on_entry (with_tokens (owned claimed.owner k (sort claimed.tokens)))) found
      ∙ ap (λ ts. some (with_tokens ts i))
          (nil_of_contains (owned claimed.owner k (sort claimed.tokens)) (λ t here.
            let held = (holds_owned k t (ground (arith, resolve_conflicts-lookup k))).1 in
            ground arith))
