-- ===== src/Ring/Conflicts.antt =====
-- ring/model.go: resolveConflicts and conflictingTokensExist.
use dskit.Base.{
  Bool, List, String, [], contains, false, if◌then◌else◌, nat_eq, none, not, some, str_ltb,
  string_eq, true, ℕ, ◌&&◌, ◌++◌, ◌∷◌,
}
use dskit.Base.Sort.{sort}
use dskit.Base.Maps.{Map, insert, lookup}
use dskit.Ring.Types.{InstanceDesc, instance_at, leaving, left, state_eq}
pub mod Rebuild
pub mod Claiming
pub mod Resolve

-- the inner loop of `conflictingTokensExist`: the tokens seen so far, or that one came twice
unfoldable pub see_tokens : List ℕ → List ℕ → Bool × List ℕ
see_tokens seen [] = (false, seen)
see_tokens seen (t ∷ ts) =
    let rest = see_tokens (t ∷ seen) ts in if contains seen t then (true, seen) else rest

-- the outer loop
unfoldable pub conflict_from : List ℕ → Map String InstanceDesc → Bool
unfolding see_tokens
conflict_from seen [] = false
conflict_from seen ((id, ing) ∷ m) =
    let (found, seen') = see_tokens seen ing.tokens in
    let rest = conflict_from seen' m in if found then true else rest

-- `conflictingTokensExist`
unfoldable pub conflicting_tokens_exist : Map String InstanceDesc → Bool
unfolding conflict_from
conflicting_tokens_exist m = conflict_from [] m

-- `tokens` and `tokenToIngester` of `resolveConflicts`
pub record Claims : Type 0 where
  pub tokens : List ℕ
  pub owner : Map ℕ String

-- the `switch` of `resolveConflicts`
unfoldable pub winner : String → InstanceDesc → String → InstanceDesc → String
winner ing_key ing prev_key prev_ing =
    if state_eq ing.state leaving && not (state_eq prev_ing.state leaving)
    then prev_key
    else if state_eq prev_ing.state leaving && not (state_eq ing.state leaving)
    then ing_key
    else if str_ltb ing_key prev_key
    then ing_key
    else if str_ltb prev_key ing_key
    then prev_key
    else ing_key

module _ (ingesters : Map String InstanceDesc) where
  -- the body of the loop over the tokens of one instance
  unfoldable pub claim_token : String → InstanceDesc → ℕ → Claims → Claims
  unfolding winner
  claim_token ing_key ing token c = elim (lookup token c.owner) [
    | none ↦ record { tokens = c.tokens ++ token ∷ []; owner = insert token ing_key c.owner }
    | some prev_key ↦ record c {
      owner = insert token (winner ing_key ing prev_key (instance_at prev_key ingesters)) c.owner;
    }
  ]

  unfoldable pub claim_tokens : String → InstanceDesc → List ℕ → Claims → Claims
  unfolding claim_token
  claim_tokens ing_key ing [] c = c
  claim_tokens ing_key ing (t ∷ ts) c = claim_tokens ing_key ing ts (claim_token ing_key ing t c)

  -- the loop over the instances: LEFT ones claim nothing
  unfoldable pub claim_instances : Map String InstanceDesc → Claims → Claims
  unfolding claim_tokens
  claim_instances [] c = c
  claim_instances ((ing_key, ing) ∷ m) c =
      claim_instances m
        (if state_eq ing.state left then c else claim_tokens ing_key ing ing.tokens c)

-- `newTokenLists`, with an empty list for each instance
unfoldable pub empty_lists : Map String InstanceDesc → Map String (List ℕ)
empty_lists [] = []
empty_lists ((key, ing) ∷ m) = insert key [] (empty_lists m)

abbrev pub list_at : String → Map String (List ℕ) → List ℕ
list_at key lists = elim (lookup key lists) [ none ↦ [] | some ts ↦ ts ]

abbrev pub owner_of : Map ℕ String → ℕ → String
owner_of owner token = elim (lookup token owner) [ none ↦ "" | some key ↦ key ]

-- the loop over the sorted tokens
unfoldable pub assign : Map ℕ String → List ℕ → Map String (List ℕ) → Map String (List ℕ)
assign owner [] lists = lists
assign owner (t ∷ ts) lists =
    let key = owner_of owner t in assign owner ts (insert key (list_at key lists ++ t ∷ []) lists)

-- the loop that writes the lists back
unfoldable pub write_back : Map String (List ℕ) → Map String InstanceDesc → Map String InstanceDesc
write_back [] m = m
write_back ((key, ts) ∷ lists) m =
    write_back lists (insert key (record (instance_at key m) { tokens = ts }) m)

-- `resolveConflicts`
unfoldable pub resolve_conflicts : Map String InstanceDesc → Map String InstanceDesc
unfolding claim_instances empty_lists assign write_back
resolve_conflicts m =
    let c = claim_instances m m (record { tokens = []; owner = [] }) in
    write_back (assign c.owner (sort c.tokens) (empty_lists m)) m
