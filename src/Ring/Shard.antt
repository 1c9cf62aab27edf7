-- ===== src/Ring/Shard.antt =====
-- ring/ring.go: shuffle shards, their cache and the counts of tokens; ring/shard/shard.go. The
-- pseudo-random generator, which is seeded by a hash of the identifier and the zone, is a parameter:
-- the numbers that it gives in turn.
use dskit.Base.{
  Bool, List, Option, String, [], false, get_or, if◌then◌else◌, keep, leb, length, ltb, map, nat_eq,
  none, not, some, string_eq, suc, true, zero, ℕ, ◌%◌, ◌&&◌, ◌*◌, ◌+◌, ◌-◌, ◌/◌, ◌==◌, ◌^◌, ◌||◌,
  ◌∷◌,
}
use dskit.Base.Int.{at_most, int_eq}
use dskit.Base.Maps.{Map, insert, lookup}
use dskit.Ring.Types.{Desc, InstanceDesc, instance_at}
pub mod Rounds
pub mod Full
pub mod Choices
pub mod Within
mod Examples
use mathlib.Core.Option
use dskit.Ring.Search.{search_token}
use dskit.Ring.State.{Ring, InstanceInfo}
use dskit.Ring.Update.{get_tokens, get_tokens_by_zone, get_zones}

-- `ShuffleShardExpectedInstancesPerZone`; the quotient of floats is rounded up, and is exact for
-- numbers of instances and zones below 2^31
unfoldable pub expected_instances_per_zone : ℕ → ℕ → ℕ
expected_instances_per_zone shard_size num_zones = (shard_size + num_zones - 1) / num_zones

-- `ShuffleShardExpectedInstances`
unfoldable pub expected_instances : ℕ → ℕ → ℕ
unfolding expected_instances_per_zone
expected_instances shard_size num_zones =
    expected_instances_per_zone shard_size num_zones * num_zones

-- The instances of a shard so far, and whether the last round found one more; `none` is a panic.
abbrev pub Picked : Type 0
Picked = Option (Map String InstanceDesc × Bool)

module _ (r : Ring) (lookback_period lookback_until : ℕ) where
  -- Whether an instance is taken in addition, because it was registered in the lookback period.
  unfoldable pub in_lookback : InstanceDesc → Bool
  in_lookback i = ltb 0 lookback_period && at_most lookback_until i.registered_timestamp

  -- the loop over the tokens, with the iterations left, from the position `p` on
  unfoldable pub pick : List ℕ → ℕ → ℕ → Map String InstanceDesc → Picked
  unfolding in_lookback
  pick tokens zero p shard = some (shard, false)
  pick tokens (suc iterations) p shard =
      let at = p % length tokens in
      elim (lookup (get_or tokens at 0) r.ring_instance_by_token) [
        | none ↦ none
        | some info ↦ elim (lookup info.instance_id shard) [
          | some _ ↦ pick tokens iterations (at + 1) shard
          | none ↦
              let instance' = instance_at info.instance_id r.ring_desc.ingesters in
              let shard' = insert info.instance_id instance' shard in
              elim (in_lookback instance') [
                | true ↦ pick tokens iterations (at + 1) shard'
                | false ↦ some (shard', true)
              ]
        ]
      ]

  -- the loop over the instances of a zone, with the instances left
  unfoldable pub pick_instances :
      (ℕ → ℕ) → List ℕ → ℕ → ℕ → Map String InstanceDesc → Option (Map String InstanceDesc)
  unfolding pick
  pick_instances random tokens zero i shard = some shard
  pick_instances random tokens (suc remaining) i shard =
      elim (pick tokens (length tokens) (search_token tokens (random i)) shard) [
        | none ↦ none
        | some (shard', true) ↦ pick_instances random tokens remaining (i + 1) shard'
        | some (shard', false) ↦ some shard'
      ]

  -- the loop over the zones
  unfoldable pub pick_zones :
      (String → ℕ → ℕ)
      → ℕ
      → (String → List ℕ)
      → List String
      → Map String InstanceDesc
      → Option (Map String InstanceDesc)
  unfolding pick_instances
  pick_zones random per_zone tokens_of [] shard = some shard
  pick_zones random per_zone tokens_of (zone ∷ zones) shard =
      elim (pick_instances (random zone) (tokens_of zone) per_zone 0 shard) [
        | none ↦ none
        | some shard' ↦ pick_zones random per_zone tokens_of zones shard'
      ]

-- The random numbers for an identifier and a zone, in turn.
abbrev pub Random : Type 0
Random = String → String → ℕ → ℕ

-- `ringTokensByZone[zone]`
abbrev pub zone_tokens : Ring → String → List ℕ
zone_tokens r zone = elim (lookup zone r.ring_tokens_by_zone) [ none ↦ [] | some tokens ↦ tokens ]

-- `shuffleShard` up to the ring that is built; `now` is in seconds
unfoldable pub shard_instances :
    Random → String → ℕ → ℕ → ℕ → Ring → Option (Map String InstanceDesc)
unfolding pick_zones expected_instances_per_zone
shard_instances random identifier size lookback_period now r =
    let lookback_until = now - lookback_period in
    if r.zone_awareness_enabled
    then pick_zones r lookback_period lookback_until (random identifier)
        (expected_instances_per_zone size (length r.ring_zones)) (zone_tokens r) r.ring_zones []
    else pick_zones r lookback_period lookback_until (random identifier) size
        (λ zone. r.ring_tokens) ("" ∷ []) []

-- The ring of a shard.
unfoldable pub shard_ring : Ring → Map String InstanceDesc → Ring
unfolding get_tokens get_tokens_by_zone get_zones
shard_ring r shard =
    let desc : Desc = record { ingesters = shard } in
    let by_zone = get_tokens_by_zone desc in
    record r {
      ring_desc = desc;
      ring_tokens = get_tokens desc;
      ring_tokens_by_zone = by_zone;
      ring_zones = get_zones by_zone;
    }

-- `shuffleShard`
unfoldable pub shuffle_shard_from : Random → String → ℕ → ℕ → ℕ → Ring → Option Ring
unfolding shard_instances shard_ring
shuffle_shard_from random identifier size lookback_period now r =
    Option.map (shard_ring r) (shard_instances random identifier size lookback_period now r)

-- `ShuffleShardWithLookback`
unfoldable pub shuffle_shard_with_lookback : Random → String → ℕ → ℕ → ℕ → Ring → Option Ring
unfolding shuffle_shard_from
shuffle_shard_with_lookback random identifier size lookback_period now r =
    if size == 0 || leb (length r.ring_desc.ingesters) size
    then some r
    else shuffle_shard_from random identifier size lookback_period now r

-- An entry of `shuffledSubringCache`.
pub record CachedSubring : Type 0 where
  pub identifier : String
  pub shard_size : ℕ
  pub subring : Ring

abbrev pub is_entry : String → ℕ → CachedSubring → Bool
is_entry identifier size c = c.identifier == identifier && c.shard_size == size

unfoldable pub find_cached : String → ℕ → List CachedSubring → Option Ring
find_cached identifier size [] = none
find_cached identifier size (c ∷ rest) =
    let next = find_cached identifier size rest in
    if is_entry identifier size c then some c.subring else next

unfoldable pub store_cached : CachedSubring → List CachedSubring → List CachedSubring
store_cached c [] = c ∷ []
store_cached c (d ∷ rest) =
    let next = store_cached c rest in
    if is_entry c.identifier c.shard_size d then c ∷ rest else d ∷ next

-- the update of states and timestamps in `getCachedShuffledSubring`
unfoldable pub refreshed :
    Map String InstanceDesc → Map String InstanceDesc → Map String InstanceDesc
refreshed current [] = []
refreshed current ((name, i) ∷ rest) =
    let now = instance_at name current in
    (name, record i { state = now.state; timestamp = now.timestamp }) ∷ refreshed current rest

-- `getCachedShuffledSubring`, which updates the subring in the cache
unfoldable pub get_cached_shuffled_subring :
    Bool → String → ℕ → Ring → List CachedSubring → Option Ring × List CachedSubring
unfolding find_cached store_cached refreshed
get_cached_shuffled_subring cache_disabled identifier size r cache =
    if cache_disabled then (none, cache) else elim (find_cached identifier size cache) [
      | none ↦ (none, cache)
      | some cached ↦
          let subring : Ring = record cached {
            ring_desc = record {
              ingesters = refreshed r.ring_desc.ingesters cached.ring_desc.ingesters;
            };
          } in
          (
            some subring,
            store_cached (record { identifier = identifier; shard_size = size; subring = subring })
                cache,
          )
    ]

-- `setCachedShuffledSubring`, with the ring as it is when the lock is taken
unfoldable pub set_cached_shuffled_subring :
    Bool → String → ℕ → Ring → Ring → List CachedSubring → List CachedSubring
unfolding store_cached
set_cached_shuffled_subring cache_disabled identifier size subring r cache =
    if cache_disabled
    then cache
    else if r.last_topology_change == subring.last_topology_change
    then store_cached (record { identifier = identifier; shard_size = size; subring = subring })
        cache
    else cache

-- `CleanupShuffleShardCache`
unfoldable pub cleanup_shuffle_shard_cache : Bool → String → List CachedSubring → List CachedSubring
cleanup_shuffle_shard_cache cache_disabled identifier cache =
    if cache_disabled then cache else keep (λ c. not (c.identifier == identifier)) cache

-- `ShuffleShard`, where `later` is the ring when the result is stored
unfoldable pub shuffle_shard :
    Bool
    → Random
    → String
    → ℕ
    → ℕ
    → Ring
    → Ring
    → List CachedSubring
    → Option Ring × List CachedSubring
unfolding get_cached_shuffled_subring shuffle_shard_from set_cached_shuffled_subring
shuffle_shard cache_disabled random identifier size now r later cache =
    if size == 0 || leb (length r.ring_desc.ingesters) size
    then (some r, cache)
    else (let (cached, cache') =
          get_cached_shuffled_subring cache_disabled identifier size r cache in
        elim cached [
          | some subring ↦ (some subring, cache')
          | none ↦ elim (shuffle_shard_from random identifier size 0 now r) [
            | none ↦ (none, cache')
            | some result ↦ (
              some result,
              set_cached_shuffled_subring cache_disabled identifier size result later cache',
            )
          ]
        ])

-- `countTokens`: the tokens of each instance, and the length of its ranges, in the arithmetic of
-- uint32
pub record TokenCounts : Type 0 where
  pub num_tokens : Map String ℕ
  pub owned : Map String ℕ

-- `m[id]` of a map of numbers
abbrev pub get_or_zero : String → Map String ℕ → ℕ
get_or_zero id m = elim (lookup id m) [ none ↦ 0 | some n ↦ n ]

unfoldable pub count_from : Ring → ℕ → List ℕ → TokenCounts → TokenCounts
count_from r first [] c = c
count_from r first (token ∷ rest) c =
    let next : ℕ = elim rest [
      | [] ↦ 2 ^ 32 - 1 - token + first
      | following ∷ _ ↦ following + 2 ^ 32 - token
    ] in
    let id : String = elim (lookup token r.ring_instance_by_token) [
      | none ↦ ""
      | some info ↦ info.instance_id
    ] in
    count_from r first rest (record {
      num_tokens = insert id ((get_or_zero id c.num_tokens + 1) % 2 ^ 32) c.num_tokens;
      owned = insert id ((get_or_zero id c.owned + next) % 2 ^ 32) c.owned;
    })

unfoldable pub with_zeros : Map String InstanceDesc → TokenCounts → TokenCounts
with_zeros [] c = c
with_zeros ((id, i) ∷ rest) c = with_zeros rest (elim (lookup id c.owned) [
  | some _ ↦ c
  | none ↦ record { num_tokens = insert id 0 c.num_tokens; owned = insert id 0 c.owned }
])

unfoldable pub count_tokens : Ring → TokenCounts
unfolding count_from with_zeros
count_tokens r =
    with_zeros r.ring_desc.ingesters (
      count_from r (get_or r.ring_tokens 0 0) r.ring_tokens
        (record { num_tokens = []; owned = [] }))
