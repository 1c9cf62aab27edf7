-- ===== src/Ring/Conflicts/Claiming.antt =====
-- The first half of resolveConflicts finds, for each token, the instance that wins it.
use dskit.Base.{
  ==_iff, ==_refl, All, Bool, Bool-cases, List, Option-cases, String, [], ap, arith, contains,
  contains-append, false, if◌then◌else◌, inl, inr, nat_eq, none, not, refl, some, str_ltb,
  string_eq, subst, sym, true, ℕ, ◌&&◌, ◌++◌, ◌==◌, ◌||◌, ◌∙◌, ◌∷◌, ◌≡◌, ◌⊎◌,
}
use dskit.Base.Maps.{Map, insert, lookup, lookup-insert}
use dskit.Base.Texts.{str_ltb_total, str_ltb_trans}
use dskit.Ring.Types.{InstanceDesc, instance_at, leaving, left, state_eq}
use dskit.Ring.Conflicts.{Claims, winner, claim_token, claim_tokens, claim_instances}

abbrev pub is_leaving : InstanceDesc → Bool
is_leaving i = state_eq i.state leaving

-- The rule: one that is not LEAVING wins against one that is; otherwise the lower name wins.
abbrev pub wins : InstanceDesc → String → InstanceDesc → String → Bool
wins a j b k =
    if is_leaving b && not (is_leaving a)
    then true
    else if is_leaving a && not (is_leaving b)
    then false
    else str_ltb j k

-- Whether a list of claims has one.
abbrev pub has_pair : List (String × ℕ) → String → ℕ → Bool
has_pair [] k t = false
has_pair ((j, u) ∷ done) k t = (j == k && u == t) || has_pair done k t

-- The claims in the order in which the loops make them.
abbrev pub add_pairs : String → List ℕ → List (String × ℕ) → List (String × ℕ)
add_pairs key [] done = done
add_pairs key (t ∷ ts) done = add_pairs key ts ((key, t) ∷ done)

abbrev pub all_pairs : Map String InstanceDesc → List (String × ℕ) → List (String × ℕ)
all_pairs [] done = done
all_pairs ((key, i) ∷ l) done =
    all_pairs l (if state_eq i.state left then done else add_pairs key i.tokens done)

-- A claim of the longer list is the new one or an older one.
has_pair_cases :
    (key k : String) (token t : ℕ) (done : List (String × ℕ))
    → has_pair ((key, token) ∷ done) k t ≡ true
    → (k ≡ key) ⊎ (has_pair done k t ≡ true)
has_pair_cases key k token t done h = ground (arith, ==_iff key k)

module _ (m : Map String InstanceDesc) where
  abbrev pub beats : String → String → Bool
  beats j k = wins (instance_at j m) j (instance_at k m) k

  pub beats_trans : (i j k : String) → beats i j ≡ true → beats j k ≡ true → beats i k ≡ true
  beats_trans i j k h l = ground (arith, str_ltb_trans i j k)

  winner_cases :
      (key prev : String)
      → let w = winner key (instance_at key m) prev (instance_at prev m) in
        ((w ≡ key) × ((prev ≡ key) ⊎ (beats key prev ≡ true)))
        ⊎ ((w ≡ prev) × (beats prev key ≡ true))
  unfolding winner
  winner_cases key prev = ground (arith, str_ltb_total key prev)

  -- The new claimant takes the place of the former owner at the head of the order.
  beats_over :
      (key j k : String)
      → (j ≡ key) ⊎ (beats key j ≡ true)
      → (k ≡ j) ⊎ (beats j k ≡ true)
      → (k ≡ key) ⊎ (beats key k ≡ true)
  beats_over key j k (inl same) (inl e) = inl (e ∙ same)
  beats_over key j k (inl same) (inr b) = inr (subst (λ x. beats x k ≡ true) same b)
  beats_over key j k (inr b) (inl e) = inr (subst (λ x. beats key x ≡ true) (sym e) b)
  beats_over key j k (inr b) (inr b') = inr (beats_trans key j k b b')

  -- What is known of a token after some claims: nobody claimed it, or its owner did and beats the
  -- others that did.
  abbrev pub Unclaimed : List (String × ℕ) → Claims → ℕ → Type 0
  Unclaimed done c t =
      (lookup t c.owner ≡ none)
      × (contains c.tokens t ≡ false)
      × ((k : String) → has_pair done k t ≡ false)

  abbrev pub Claimed : List (String × ℕ) → Claims → ℕ → Type 0
  Claimed done c t =
      (j : String) × (lookup t c.owner ≡ some j)
      × (contains c.tokens t ≡ true)
      × (has_pair done j t ≡ true)
      × ((k : String) → has_pair done k t ≡ true → (k ≡ j) ⊎ (beats j k ≡ true))

  abbrev pub Inv : List (String × ℕ) → Claims → Type 0
  Inv done c = (t : ℕ) → Unclaimed done c t ⊎ Claimed done c t

  module _ (key : String) (token : ℕ) (done : List (String × ℕ)) (c : Claims) where
    abbrev ing : InstanceDesc
    ing = instance_at key m

    abbrev next : Claims
    next = claim_token m key ing token c

    next_free :
        lookup token c.owner ≡ none
        → next ≡ record { tokens = c.tokens ++ token ∷ []; owner = insert token key c.owner }
    unfolding claim_token
    next_free h = ground arith

    next_taken :
        (j : String)
        → lookup token c.owner ≡ some j
        → next ≡ record {
          tokens = c.tokens;
          owner = insert token (winner key ing j (instance_at j m)) c.owner;
        }
    unfolding claim_token
    next_taken j h = ground arith

    -- A claim leaves the other tokens alone.
    other_owner : (t : ℕ) → (token == t) ≡ false → lookup t next.owner ≡ lookup t c.owner
    other_owner t other = elim (Option-cases (lookup token c.owner)) [
      | inl free ↦ rw (next_free free) (lookup-insert token t key c.owner ∙ rw other refl)
      | inr (j, taken) ↦ rw (next_taken j taken) (lookup-insert token t _ c.owner ∙ rw other refl)
    ]

    other_tokens : (t : ℕ) → (token == t) ≡ false → contains next.tokens t ≡ contains c.tokens t
    other_tokens t other = elim (Option-cases (lookup token c.owner)) [
      | inl free ↦
          rw (next_free free) (
            contains-append c.tokens (token ∷ []) t
            ∙ ground (arith, ==_iff token t, ==_iff t token))
      | inr (j, taken) ↦ rw (next_taken j taken) refl
    ]

    claim_other :
        (t : ℕ)
        → (token == t) ≡ false
        → Unclaimed done c t ⊎ Claimed done c t
        → Unclaimed ((key, token) ∷ done) next t ⊎ Claimed ((key, token) ∷ done) next t
    claim_other t other (inl (unowned, absent, nobody)) = inl (
      other_owner t other ∙ unowned,
      other_tokens t other ∙ absent,
      λ k. ground (arith, nobody k),
    )
    claim_other t other (inr (j, owner, present, held, best)) = inr (
      j,
      other_owner t other ∙ owner,
      other_tokens t other ∙ present,
      ground arith,
      λ k h. best k (ground arith),
    )

    claim_first : Unclaimed done c token → Claimed ((key, token) ∷ done) next token
    claim_first (unowned, absent, nobody) = rw (next_free unowned) (
      key,
      lookup-insert token token key c.owner ∙ rw (==_refl token) refl,
      contains-append c.tokens (token ∷ []) token ∙ ground (arith, ==_refl token),
      ground (arith, ==_refl token, ==_refl key),
      λ k h. inl (ground (arith, ==_iff key k, nobody k)),
    )

    claim_again : Claimed done c token → Claimed ((key, token) ∷ done) next token
    claim_again (j, owner, present, held, best) =
        rw (next_taken j owner) (elim (winner_cases key j) [
          | inl (mine, over) ↦ (
            key,
            lookup-insert token token _ c.owner ∙ rw (==_refl token) (ap some mine),
            present,
            ground (arith, ==_refl token, ==_refl key),
            λ k h. elim (has_pair_cases key k token token done h) [
              | inl new ↦ inl new
              | inr old ↦ beats_over key j k over (best k old)
            ],
          )
          | inr (theirs, under) ↦ (
            j,
            lookup-insert token token _ c.owner ∙ rw (==_refl token) (ap some theirs),
            present,
            ground arith,
            λ k h. elim (has_pair_cases key k token token done h) [
              | inl new ↦ inr (subst (λ x. beats j x ≡ true) (sym new) under)
              | inr old ↦ best k old
            ],
          )
        ])

    claim_Inv : Inv done c → Inv ((key, token) ∷ done) next
    claim_Inv inv t = elim (Bool-cases (token == t)) [
      | inr other ↦ claim_other t other (inv t)
      | inl same ↦
          subst (λ u. Unclaimed ((key, token) ∷ done) next u ⊎ Claimed ((key, token) ∷ done) next u)
            ((==_iff token t).0 same)
            (elim (inv token) [
              | inl free ↦ inr (claim_first free)
              | inr held ↦ inr (claim_again held)
            ])
    ]

  claim_tokens-Inv :
      (key : String) (ts : List ℕ) (done : List (String × ℕ)) (c : Claims)
      → Inv done c
      → Inv (add_pairs key ts done) (claim_tokens m key (instance_at key m) ts c)
  unfolding claim_tokens
  claim_tokens-Inv key [] done c inv = inv
  claim_tokens-Inv key (t ∷ ts) done c inv =
      claim_tokens-Inv key ts ((key, t) ∷ done) _ (claim_Inv key t done c inv)

  if_Inv :
      (b : Bool) (d e : List (String × ℕ)) (c c' : Claims)
      → Inv d c
      → Inv e c'
      → Inv (if b then d else e) (if b then c else c')
  if_Inv true d e c c' h k = h
  if_Inv false d e c c' h k = k

  -- The loop runs over entries of the map itself.
  pub claim_instances-Inv :
      (l : Map String InstanceDesc) (done : List (String × ℕ)) (c : Claims)
      → All (λ ((key, i) : String × InstanceDesc). lookup key m ≡ some i) l
      → Inv done c
      → Inv (all_pairs l done) (claim_instances m l c)
  unfolding claim_instances
  claim_instances-Inv [] done c h inv = inv
  claim_instances-Inv ((key, i) ∷ l) done c h inv = claim_instances-Inv l _ _ h.1 (
      if_Inv (state_eq i.state left) done (add_pairs key i.tokens done) c
        (claim_tokens m key i i.tokens c) inv
        (subst (λ x. Inv (add_pairs key x.tokens done) (claim_tokens m key x x.tokens c)) at_key
          (claim_tokens-Inv key (instance_at key m).tokens done c inv)))
    where
      at_key : instance_at key m ≡ i
      at_key = ground arith
