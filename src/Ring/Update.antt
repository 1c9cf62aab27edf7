-- ===== src/Ring/Update.antt =====
-- ring/model.go: GetTokens, getTokensByZone, getTokensInfo and MergeTokens; ring/ring.go:
-- updateRingState. The library's heap is a list of token lists in the order of their first tokens:
-- its root is the first of them, as for any heap.
use dskit.Base.{
  List, String, [], contains, if◌then◌else◌, keep, leb, length, map, nat_eq, none, not, some,
  str_ltb, string_eq, suc, zero, ℕ, ◌++◌, ◌+◌, ◌∷◌,
}
use dskit.Base.Sort.{ensure_sorted}
use dskit.Base.Maps.{Map, insert, lookup}
use dskit.Ring.Types.{Desc, InstanceDesc, instance_at}
pub mod Sorted
pub mod Named
mod Examples
use dskit.Ring.State.{Ring, InstanceInfo}
use dskit.Ring.Compare.{
  CompareResult, equal, equal_but_states_and_timestamps, different, ring_compare,
}

-- `heap.Push` of tokens that are not empty, and `heap.Fix` of the root
unfoldable pub heap_insert : List ℕ → List (List ℕ) → List (List ℕ)
heap_insert [] h = h
heap_insert (t ∷ ts) [] = (t ∷ ts) ∷ []
heap_insert (t ∷ ts) ([] ∷ h) = heap_insert (t ∷ ts) h
heap_insert (t ∷ ts) ((u ∷ us) ∷ h) =
    let rest = heap_insert (t ∷ ts) h in
    if leb t u then (t ∷ ts) ∷ (u ∷ us) ∷ h else (u ∷ us) ∷ rest

-- the first loop of `MergeTokens`, with `heap.Init`
unfoldable pub heap_init : List (List ℕ) → List (List ℕ)
unfolding heap_insert
heap_init [] = []
heap_init (tokens ∷ rest) = heap_insert tokens (heap_init rest)

abbrev pub num_tokens : List (List ℕ) → ℕ
num_tokens [] = 0
num_tokens (tokens ∷ rest) = length tokens + num_tokens rest

-- its second loop, which takes the lowest token from the root, then fixes or removes it
unfoldable pub merge_loop : ℕ → List (List ℕ) → List ℕ
unfolding heap_insert
merge_loop zero h = []
merge_loop (suc n) [] = []
merge_loop (suc n) ([] ∷ h) = merge_loop n h
merge_loop (suc n) ((lowest ∷ ts) ∷ h) = lowest ∷ merge_loop n (heap_insert ts h)

-- `MergeTokens`
unfoldable pub merge_tokens : List (List ℕ) → List ℕ
unfolding merge_loop heap_init
merge_tokens instances = merge_loop (num_tokens instances) (heap_init instances)

-- the tokens of each instance, sorted
unfoldable pub sorted_tokens : Map String InstanceDesc → List (List ℕ)
sorted_tokens = map (λ ((id, i) : String × InstanceDesc). ensure_sorted i.tokens)

-- `GetTokens`
unfoldable pub get_tokens : Desc → List ℕ
unfolding merge_tokens sorted_tokens
get_tokens d = merge_tokens (sorted_tokens d.ingesters)

abbrev pub lists_at : String → Map String (List (List ℕ)) → List (List ℕ)
lists_at zone m = elim (lookup zone m) [ none ↦ [] | some ls ↦ ls ]

-- the loop of `getTokensByZone`
unfoldable pub group_by_zone :
    Map String InstanceDesc → Map String (List (List ℕ)) → Map String (List (List ℕ))
group_by_zone [] zones = zones
group_by_zone ((id, i) ∷ rest) zones =
    group_by_zone rest (insert i.zone (lists_at i.zone zones ++ ensure_sorted i.tokens ∷ []) zones)

-- `MergeTokensByZone`
unfoldable pub merge_tokens_by_zone : Map String (List (List ℕ)) → Map String (List ℕ)
unfolding merge_tokens
merge_tokens_by_zone = map (λ ((zone, ts) : String × List (List ℕ)). (zone, merge_tokens ts))

-- `getTokensByZone`
unfoldable pub get_tokens_by_zone : Desc → Map String (List ℕ)
unfolding group_by_zone merge_tokens_by_zone
get_tokens_by_zone d = merge_tokens_by_zone (group_by_zone d.ingesters [])

-- the inner loop of `getTokensInfo`
unfoldable pub set_info : InstanceInfo → List ℕ → Map ℕ InstanceInfo → Map ℕ InstanceInfo
set_info info [] out = out
set_info info (token ∷ rest) out = set_info info rest (insert token info out)

unfoldable pub info_from : Map String InstanceDesc → Map ℕ InstanceInfo → Map ℕ InstanceInfo
unfolding set_info
info_from [] out = out
info_from ((id, i) ∷ rest) out =
    info_from rest (set_info (record { instance_id = id; zone = i.zone }) i.tokens out)

-- `getTokensInfo`
unfoldable pub get_tokens_info : Desc → Map ℕ InstanceInfo
unfolding info_from
get_tokens_info d = info_from d.ingesters []

-- `sort.Strings`
unfoldable pub insert_string : String → List String → List String
insert_string s [] = s ∷ []
insert_string s (t ∷ ts) =
    let rest = insert_string s ts in if str_ltb t s then t ∷ rest else s ∷ t ∷ ts

-- `getZones`
unfoldable pub get_zones : Map String (List ℕ) → List String
unfolding insert_string
get_zones [] = []
get_zones ((zone, ts) ∷ rest) = insert_string zone (get_zones rest)

-- the first step of `updateRingState`
unfoldable pub without_excluded : List String → Map String InstanceDesc → Map String InstanceDesc
without_excluded [] m = m
without_excluded (z ∷ zs) m =
    keep (λ ((id, i) : String × InstanceDesc). not (contains (z ∷ zs) i.zone)) m

-- Sorting the tokens sorts them in the ring itself, whose slices they are.
unfoldable pub sort_in_place : Map String InstanceDesc → Map String InstanceDesc
sort_in_place =
    map (λ ((id, i) : String × InstanceDesc). (id, record i { tokens = ensure_sorted i.tokens }))

-- `TokensFor`, which reads the tokens after they are sorted in place
unfoldable pub tokens_for : Desc → String → List ℕ × List ℕ
unfolding sort_in_place get_tokens
tokens_for d id = ((instance_at id (sort_in_place d.ingesters)).tokens, get_tokens d)

-- what `updateRingState` stores once the rings are compared
unfoldable pub apply_update : CompareResult → Ring → Desc → ℕ → Ring
unfolding sort_in_place get_tokens get_tokens_by_zone get_tokens_info get_zones
apply_update equal r ring_desc now = record r { ring_desc = ring_desc }
apply_update equal_but_states_and_timestamps r ring_desc now = record r { ring_desc = ring_desc }
apply_update different r ring_desc now =
    let sorted : Desc = record { ingesters = sort_in_place ring_desc.ingesters } in
    record r {
      ring_desc = sorted;
      ring_tokens = get_tokens ring_desc;
      ring_tokens_by_zone = get_tokens_by_zone ring_desc;
      ring_instance_by_token = get_tokens_info sorted;
      ring_zones = get_zones (get_tokens_by_zone ring_desc);
      last_topology_change = now;
    }

-- `updateRingState`; its cache of subrings is not a part of Ring here
unfoldable pub update_ring_state : Ring → Desc → ℕ → Ring
unfolding without_excluded apply_update
update_ring_state r received now =
    let ring_desc : Desc = record {
      ingesters = without_excluded r.excluded_zones received.ingesters;
    } in
    apply_update (ring_compare r.ring_desc ring_desc) r ring_desc now
