-- ===== src/Ring/Shard/Choices.antt =====
-- The choices for a shard add instances of the ring, and at most one each.
use dskit.Base.{
  ==_iff, Bool, Bool-cases, List, Option-cases, String, [], arith, false, get_or, if◌then◌else◌,
  inl, inr, length, nat_beq, nat_eq, none, some, string_eq, subst, suc, true, zero, ℕ, ◌%◌, ◌*◌,
  ◌+◌, ◌-◌, ◌∷◌, ◌≡◌, ◌≢◌, ◌≤◌,
}
use dskit.Base.Maps.{IsMap, Map, insert, insert-IsMap, lookup, lookup-insert}
use dskit.Ring.Types.{InstanceDesc, instance_at}
use dskit.Ring.Search.{search_token}
use dskit.Ring.State.{Ring}
use dskit.Ring.Update.Named.{IsNamed}
use dskit.Ring.Update.Sorted.{tokens_of}
use dskit.Ring.Shard.Rounds.{length-insert}
use dskit.Ring.Shard.{
  in_lookback, pick, pick_instances, pick_zones, Random, expected_instances_per_zone, zone_tokens,
  shard_instances,
}

-- The entries of a shard are those of the ring, and no instance has two.
pub record IsShard (ingesters shard : Map String InstanceDesc) : Type 0 where
  pub distinct : IsMap shard
  pub entries :
      (id : String) (i : InstanceDesc) → lookup id shard ≡ some i → lookup id ingesters ≡ some i

-- What a round of choices does: it keeps what there is, and adds at most some number.
pub record Grows (ingesters before after : Map String InstanceDesc) (most : ℕ) (bounded : Bool)
    : Type 0 where
  pub shard : IsShard ingesters after
  pub kept : (id : String) (i : InstanceDesc) → lookup id before ≡ some i → lookup id after ≡ some i
  pub size : bounded ≡ true → length after ≤ length before + most

module _ (r : Ring) (lookback_period lookback_until : ℕ)
    (named : IsNamed r.ring_desc.ingesters r.ring_instance_by_token) where
  abbrev ingesters : Map String InstanceDesc
  ingesters = r.ring_desc.ingesters

  -- Without a lookback a round adds at most one instance.
  abbrev bounded : Bool
  bounded = nat_beq lookback_period 0

  added-IsShard :
      (id : String) (shard : Map String InstanceDesc)
      → lookup id ingesters ≢ none
      → IsShard ingesters shard
      → IsShard ingesters (insert id (instance_at id ingesters) shard)
  added-IsShard id shard there s = record {
    distinct = insert-IsMap id _ shard s.distinct;
    entries = λ j i h.
        ground
          (arith, lookup-insert id j (instance_at id ingesters) shard, ==_iff id j, s.entries j i);
  }

  added-kept :
      (id : String) (new : InstanceDesc) (shard : Map String InstanceDesc) (j : String)
      (i : InstanceDesc)
      → lookup id shard ≡ none
      → lookup j shard ≡ some i
      → lookup j (insert id new shard) ≡ some i
  added-kept id new shard j i absent h = ground (arith, lookup-insert id j new shard, ==_iff id j)

  unchanged-Grows :
      (shard : Map String InstanceDesc) (most : ℕ)
      → IsShard ingesters shard
      → Grows ingesters shard shard most bounded
  unchanged-Grows shard most s = record { shard = s; kept = λ id i h. h; size = λ h. omega arith }

  pick-Grows :
      (tokens : List ℕ) (iterations p : ℕ) (shard after : Map String InstanceDesc) (found : Bool)
      → IsShard ingesters shard
      → pick r lookback_period lookback_until tokens iterations p shard ≡ some (after, found)
      → Grows ingesters shard after 1 bounded
  unfolding pick
  pick-Grows tokens zero p shard after found s e =
      subst (λ m. Grows ingesters shard m 1 bounded) (ground arith) (unchanged-Grows shard 1 s)
  pick-Grows tokens (suc iterations) p shard after found s e =
      let at = p % length tokens in
      elim (Option-cases (lookup (get_or tokens at 0) r.ring_instance_by_token)) [
        | inl panics ↦ absurd (ground arith)
        | inr (info, is_info) ↦
            let id = info.instance_id in
            let new = instance_at id ingesters in
            elim (Option-cases (lookup id shard)) [
              | inr (old, there) ↦
                  pick-Grows tokens iterations (at + 1) shard after found s (ground arith)
              | inl absent ↦
                  let added = added-IsShard id shard (named _ info is_info) s in
                  elim (Bool-cases (in_lookback r lookback_period lookback_until new)) [
                    | inl more ↦
                        let rest =
                          pick-Grows tokens iterations (at + 1) (insert id new shard) after found
                            added (ground arith) in
                        record {
                          shard = rest.shard;
                          kept = λ j i h. rest.kept j i (added-kept id new shard j i absent h);
                          size = λ zero_period. absurd (unfold in_lookback in ground arith);
                        }
                    | inr last ↦
                        let same : insert id new shard ≡ after = ground arith in
                        subst (λ m. Grows ingesters shard m 1 bounded) same
                          (record {
                            shard = added;
                            kept = λ j i h. added-kept id new shard j i absent h;
                            size = λ zero_period. omega (arith, length-insert id new shard absent);
                          })
                  ]
            ]
      ]

  -- One round after another.
  Grows-trans :
      {before between after : Map String InstanceDesc} (one more : ℕ)
      → Grows ingesters before between one bounded
      → Grows ingesters between after more bounded
      → Grows ingesters before after (one + more) bounded
  Grows-trans one more g h = record {
    shard = h.shard;
    kept = λ id i there. h.kept id i (g.kept id i there);
    size = λ zero_period. omega (arith, g.size zero_period, h.size zero_period);
  }

  Grows-le :
      {before after : Map String InstanceDesc} (one more : ℕ)
      → one ≤ more
      → Grows ingesters before after one bounded
      → Grows ingesters before after more bounded
  Grows-le one more le g = record {
    shard = g.shard;
    kept = g.kept;
    size = λ z. omega (arith, g.size z);
  }

  pick_instances-Grows :
      (random : ℕ → ℕ) (tokens : List ℕ) (remaining i : ℕ) (shard after : Map String InstanceDesc)
      → IsShard ingesters shard
      → pick_instances r lookback_period lookback_until random tokens remaining i shard ≡ some after
      → Grows ingesters shard after remaining bounded
  unfolding pick_instances
  pick_instances-Grows random tokens zero i shard after s e =
      subst (λ m. Grows ingesters shard m 0 bounded) (ground arith) (unchanged-Grows shard 0 s)
  pick_instances-Grows random tokens (suc remaining) i shard after s e =
      elim (Option-cases (
        pick r lookback_period lookback_until tokens (length tokens)
          (search_token tokens (random i)) shard)) [
            | inl panics ↦ absurd (ground arith)
            | inr ((shard', true), found) ↦
                let one =
                  pick-Grows tokens (length tokens) (search_token tokens (random i)) shard shard'
                    true s found in
                let rest =
                  pick_instances-Grows random tokens remaining (i + 1) shard' after one.shard
                    (ground arith) in
                Grows-le (1 + remaining) (suc remaining) (omega arith)
                  (Grows-trans 1 remaining one rest)
            | inr ((shard', false), ended) ↦
                let one =
                  pick-Grows tokens (length tokens) (search_token tokens (random i)) shard shard'
                    false s ended in
                subst (λ m. Grows ingesters shard m (suc remaining) bounded) (ground arith)
                  (Grows-le 1 (suc remaining) (omega arith) one)
          ]

  pick_zones-Grows :
      (random : String → ℕ → ℕ) (per_zone : ℕ) (tokens_of : String → List ℕ) (zones : List String)
      (shard after : Map String InstanceDesc)
      → IsShard ingesters shard
      → pick_zones r lookback_period lookback_until random per_zone tokens_of zones shard
        ≡ some after
      → Grows ingesters shard after (length zones * per_zone) bounded
  unfolding pick_zones
  pick_zones-Grows random per_zone tokens_of [] shard after s e =
      subst (λ m. Grows ingesters shard m (0 * per_zone) bounded) (ground arith)
        (unchanged-Grows shard (0 * per_zone) s)
  pick_zones-Grows random per_zone tokens_of (zone ∷ zones) shard after s e =
      elim (Option-cases (
        pick_instances r lookback_period lookback_until (random zone) (tokens_of zone) per_zone 0
          shard)) [
            | inl panics ↦ absurd (ground arith)
            | inr (shard', found) ↦
                let one =
                  pick_instances-Grows (random zone) (tokens_of zone) per_zone 0 shard shard' s
                    found in
                let rest =
                  pick_zones-Grows random per_zone tokens_of zones shard' after one.shard
                    (ground arith) in
                Grows-le (per_zone + length zones * per_zone) (suc (length zones) * per_zone)
                  (grind arith) (Grows-trans per_zone (length zones * per_zone) one rest)
          ]

-- How many instances a shard of a size may have.
abbrev pub most_instances : Ring → ℕ → ℕ
most_instances r size =
    if r.zone_awareness_enabled
    then length r.ring_zones * expected_instances_per_zone size (length r.ring_zones)
    else size

pub shard_instances-Grows :
    (random : Random) (identifier : String) (size period now : ℕ) (r : Ring)
    (after : Map String InstanceDesc)
    → IsNamed r.ring_desc.ingesters r.ring_instance_by_token
    → shard_instances random identifier size period now r ≡ some after
    → Grows r.ring_desc.ingesters [] after (most_instances r size) (nat_beq period 0)
unfolding shard_instances
shard_instances-Grows random identifier size period now r after named e =
    let none_yet : IsShard r.ring_desc.ingesters [] = record {
      distinct = tt;
      entries = λ id i h. unfold lookup in ground arith;
    } in
    let until = now - period in
    let per_zone = expected_instances_per_zone size (length r.ring_zones) in
    elim (Bool-cases r.zone_awareness_enabled) [
      | inl aware ↦
          let picked : pick_zones r period until (random identifier) per_zone (zone_tokens r)
                r.ring_zones []
              ≡ some after =
            ground arith in
          Grows-le r period until named (length r.ring_zones * per_zone) (most_instances r size)
            (ground arith)
            (pick_zones-Grows r period until named (random identifier) per_zone (zone_tokens r)
              r.ring_zones [] after none_yet picked)
      | inr plain ↦
          let picked : pick_zones r period until (random identifier) size (λ zone. r.ring_tokens)
                ("" ∷ []) []
              ≡ some after =
            ground arith in
          Grows-le r period until named (1 * size) (most_instances r size) (ground arith) (
            pick_zones-Grows r period until named (random identifier) size (λ zone. r.ring_tokens)
              ("" ∷ []) [] after none_yet picked)
    ]
