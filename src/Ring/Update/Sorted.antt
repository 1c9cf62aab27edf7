-- ===== src/Ring/Update/Sorted.antt =====
-- MergeTokens merges, and updateRingState keeps the tokens of the ring sorted.
use dskit.Base.{
  All, All-map, Bool, Bool-cases, List, String, [], arith, contains, false, inl, inr, leb, leb→le,
  length, map, nat_eq, refl, string_eq, suc, zero, ℕ, ◌+◌, ◌||◌, ◌∙◌, ◌∷◌, ◌≡◌, ◌≤◌,
}
use dskit.Base.Sort.{IsSorted, contains-ensure_sorted, ensure_sorted-IsSorted}
use dskit.Base.Maps.{Map}
use dskit.Ring.Types.{Desc, InstanceDesc}
use dskit.Ring.State.{Ring}
use dskit.Ring.Compare.{
  CompareResult, equal, equal_but_states_and_timestamps, different, ring_compare,
}
use dskit.Ring.Update.{
  heap_insert, heap_init, num_tokens, merge_loop, merge_tokens, sorted_tokens, get_tokens,
  without_excluded, apply_update, update_ring_state,
}

abbrev Above : ℕ → List (List ℕ) → Type 0
Above b = All (λ l. All (λ x. b ≤ x) l)

-- The root of a heap is its lowest token, and so on below it.
abbrev Ordered : List (List ℕ) → Type 0
Ordered [] = Unit
Ordered ([] ∷ h) = ⊥
Ordered ((t ∷ ts) ∷ h) = IsSorted (t ∷ ts) × (Above t h × Ordered h)

lower : (a b : ℕ) (l : List ℕ) → a ≤ b → All (λ x. b ≤ x) l → All (λ x. a ≤ x) l
lower a b l le = All-map (λ x. b ≤ x) (λ x. a ≤ x) (λ x h. omega arith) l

insert-Above :
    (b : ℕ) (l : List ℕ) (h : List (List ℕ))
    → All (λ x. b ≤ x) l
    → Above b h
    → Above b (heap_insert l h)
unfolding heap_insert
insert-Above b [] h low above = above
insert-Above b (t ∷ ts) [] low above = (low, tt)
insert-Above b (t ∷ ts) ([] ∷ h) low above = insert-Above b (t ∷ ts) h low above.1
insert-Above b (t ∷ ts) ((u ∷ us) ∷ h) low above =
    let rest = insert-Above b (t ∷ ts) h low above.1 in
    elim (Bool-cases (leb t u)) [ inl le ↦ rw le (low, above) | inr gt ↦ rw gt (above.0, rest) ]

insert-Ordered :
    (l : List ℕ) (h : List (List ℕ)) → IsSorted l → Ordered h → Ordered (heap_insert l h)
unfolding heap_insert
insert-Ordered [] h sorted ordered = ordered
insert-Ordered (t ∷ ts) [] sorted ordered = (sorted, (tt, tt))
insert-Ordered (t ∷ ts) ([] ∷ h) sorted ordered = absurd ordered
insert-Ordered (t ∷ ts) ((u ∷ us) ∷ h) sorted ordered =
    let rest = insert-Ordered (t ∷ ts) h sorted ordered.1.1 in
    elim (Bool-cases (leb t u)) [
      | inl le ↦
          let below : t ≤ u = leb→le t u le in
          rw le (
            sorted,
            (
              (
                (below, lower t u us below ordered.0.0),
                All-map (λ l. All (λ x. u ≤ x) l) (λ l. All (λ x. t ≤ x) l) (λ l. lower t u l below)
                    h ordered.1.0,
              ),
              ordered,
            ),
          )
      | inr gt ↦
          let above : u ≤ t = ground arith in
          rw gt (
            ordered.0,
            (insert-Above u (t ∷ ts) h (above, lower u t ts above sorted.0) ordered.1.0, rest),
          )
    ]

init-Ordered : (ls : List (List ℕ)) → All IsSorted ls → Ordered (heap_init ls)
unfolding heap_init
init-Ordered [] h = tt
init-Ordered (l ∷ ls) h = insert-Ordered l (heap_init ls) h.0 (init-Ordered ls h.1)

loop-Above : (b n : ℕ) (h : List (List ℕ)) → Above b h → All (λ x. b ≤ x) (merge_loop n h)
unfolding merge_loop
loop-Above b zero h above = tt
loop-Above b (suc n) [] above = tt
loop-Above b (suc n) ([] ∷ h) above = loop-Above b n h above.1
loop-Above b (suc n) ((t ∷ ts) ∷ h) above =
    (above.0.0, loop-Above b n (heap_insert ts h) (insert-Above b ts h above.0.1 above.1))

loop-IsSorted : (n : ℕ) (h : List (List ℕ)) → Ordered h → IsSorted (merge_loop n h)
unfolding merge_loop
loop-IsSorted zero h ordered = tt
loop-IsSorted (suc n) [] ordered = tt
loop-IsSorted (suc n) ([] ∷ h) ordered = absurd ordered
loop-IsSorted (suc n) ((t ∷ ts) ∷ h) ordered = (
  loop-Above t n (heap_insert ts h) (insert-Above t ts h ordered.0.0 ordered.1.0),
  loop-IsSorted n (heap_insert ts h) (insert-Ordered ts h ordered.0.1 ordered.1.1),
)

-- Some list has the token.
abbrev pub any_contains : List (List ℕ) → ℕ → Bool
any_contains [] t = false
any_contains (l ∷ ls) t = contains l t || any_contains ls t

contains-heap_insert :
    (l : List ℕ) (h : List (List ℕ)) (t : ℕ)
    → any_contains (heap_insert l h) t ≡ (contains l t || any_contains h t)
unfolding heap_insert
contains-heap_insert [] h t = refl
contains-heap_insert (x ∷ xs) [] t = refl
contains-heap_insert (x ∷ xs) ([] ∷ h) t = contains-heap_insert (x ∷ xs) h t
contains-heap_insert (x ∷ xs) ((u ∷ us) ∷ h) t = ground (arith, contains-heap_insert (x ∷ xs) h t)

num_tokens-heap_insert :
    (l : List ℕ) (h : List (List ℕ)) → num_tokens (heap_insert l h) ≡ length l + num_tokens h
unfolding heap_insert
num_tokens-heap_insert [] h = omega arith
num_tokens-heap_insert (x ∷ xs) [] = omega arith
num_tokens-heap_insert (x ∷ xs) ([] ∷ h) = omega (arith, num_tokens-heap_insert (x ∷ xs) h)
num_tokens-heap_insert (x ∷ xs) ((u ∷ us) ∷ h) = ground (arith, num_tokens-heap_insert (x ∷ xs) h)

contains-merge_loop :
    (n : ℕ) (h : List (List ℕ)) (t : ℕ)
    → Ordered h
    → num_tokens h ≤ n
    → contains (merge_loop n h) t ≡ any_contains h t
unfolding merge_loop
contains-merge_loop zero [] t ordered enough = refl
contains-merge_loop zero ([] ∷ h) t ordered enough = absurd ordered
contains-merge_loop zero ((x ∷ xs) ∷ h) t ordered enough = absurd (omega arith)
contains-merge_loop (suc n) [] t ordered enough = refl
contains-merge_loop (suc n) ([] ∷ h) t ordered enough = absurd ordered
contains-merge_loop (suc n) ((x ∷ xs) ∷ h) t ordered enough =
    let rest =
      contains-merge_loop n (heap_insert xs h) t (insert-Ordered xs h ordered.0.1 ordered.1.1)
        (omega (arith, num_tokens-heap_insert xs h)) in
    ground (arith, rest, contains-heap_insert xs h t)

init-contains : (ls : List (List ℕ)) (t : ℕ) → any_contains (heap_init ls) t ≡ any_contains ls t
unfolding heap_init
init-contains [] t = refl
init-contains (l ∷ ls) t =
    ground (arith, contains-heap_insert l (heap_init ls) t, init-contains ls t)

init-num_tokens : (ls : List (List ℕ)) → num_tokens (heap_init ls) ≡ num_tokens ls
unfolding heap_init
init-num_tokens [] = refl
init-num_tokens (l ∷ ls) =
    omega (arith, num_tokens-heap_insert l (heap_init ls), init-num_tokens ls)

-- MergeTokens of sorted lists is sorted, and holds exactly the tokens of the lists.
pub merge_tokens-IsSorted :
    (ls : List (List ℕ))
    → All IsSorted ls
    → IsSorted (merge_tokens ls) × ((t : ℕ) → contains (merge_tokens ls) t ≡ any_contains ls t)
unfolding merge_tokens
merge_tokens-IsSorted ls h = (
  loop-IsSorted (num_tokens ls) (heap_init ls) (init-Ordered ls h),
  λ t.
      contains-merge_loop (num_tokens ls) (heap_init ls) t (init-Ordered ls h)
        (omega (arith, init-num_tokens ls))
      ∙ init-contains ls t,
)

sorted_tokens-AllSorted : (m : Map String InstanceDesc) → All IsSorted (sorted_tokens m)
unfolding sorted_tokens
sorted_tokens-AllSorted [] = tt
sorted_tokens-AllSorted ((id, i) ∷ m) = (ensure_sorted-IsSorted i.tokens, sorted_tokens-AllSorted m)

abbrev pub tokens_of : Map String InstanceDesc → List (List ℕ)
tokens_of = map (λ ((id, i) : String × InstanceDesc). i.tokens)

contains-sorted_tokens :
    (m : Map String InstanceDesc) (t : ℕ)
    → any_contains (sorted_tokens m) t ≡ any_contains (tokens_of m) t
unfolding sorted_tokens
contains-sorted_tokens [] t = refl
contains-sorted_tokens ((id, i) ∷ m) t =
    ground (arith, contains-ensure_sorted t i.tokens, contains-sorted_tokens m t)

-- GetTokens is sorted, and holds exactly the tokens of the instances.
pub get_tokens-IsSorted :
    (d : Desc)
    → IsSorted (get_tokens d)
      × ((t : ℕ) → contains (get_tokens d) t ≡ any_contains (tokens_of d.ingesters) t)
unfolding get_tokens
get_tokens-IsSorted d =
    let (sorted, same) =
      merge_tokens-IsSorted (sorted_tokens d.ingesters) (sorted_tokens-AllSorted d.ingesters) in
    (sorted, λ t. same t ∙ contains-sorted_tokens d.ingesters t)

apply_update-IsSorted :
    (c : CompareResult) (r : Ring) (ring_desc : Desc) (now : ℕ)
    → IsSorted r.ring_tokens
    → IsSorted (apply_update c r ring_desc now).ring_tokens
unfolding apply_update get_tokens
apply_update-IsSorted equal r d now h = h
apply_update-IsSorted equal_but_states_and_timestamps r d now h = h
apply_update-IsSorted different r d now h =
    (merge_tokens-IsSorted (sorted_tokens d.ingesters) (sorted_tokens-AllSorted d.ingesters)).0

-- The tokens of the ring stay sorted, as Get needs them, whatever ring is received.
pub update_ring_state-IsSorted :
    (r : Ring) (received : Desc) (now : ℕ)
    → IsSorted r.ring_tokens
    → IsSorted (update_ring_state r received now).ring_tokens
unfolding update_ring_state
update_ring_state-IsSorted r received now =
    let d : Desc = record { ingesters = without_excluded r.excluded_zones received.ingesters } in
    apply_update-IsSorted (ring_compare r.ring_desc d) r d now
