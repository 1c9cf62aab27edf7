-- ===== src/Ring/Shard/Within.antt =====
-- A shard is a part of the ring, of a bounded size.
use dskit.Base.{
  Bool-cases, Option-cases, String, arith, contains, inl, inr, length, nat_eq, none, refl, some,
  string_eq, subst, ℕ, ◌*◌, ◌≡◌, ◌≢◌, ◌≤◌, ◌⊎◌,
}
use dskit.Base.Sort.{IsSorted}
use dskit.Ring.State.{Ring}
use dskit.Ring.Update.Named.{IsNamed}
use dskit.Ring.Update.Sorted.{any_contains, get_tokens-IsSorted, tokens_of}
use dskit.Ring.Shard.Rounds.{HasZone}
use dskit.Ring.Shard.Full.{per_zone, shard_instances-full, shard_tokens, shard_zones}
use dskit.Ring.Shard.{Random, shard_instances, shard_ring, shuffle_shard_from}
use dskit.Ring.Shard.Choices.{IsShard, most_instances, shard_instances-Grows}

most_instances-full :
    (r : Ring) (size : ℕ) → most_instances r size ≡ length (shard_zones r) * per_zone r size
most_instances-full r size = elim (Bool-cases r.zone_awareness_enabled) [
  | inl aware ↦ rw aware refl
  | inr plain ↦ rw plain (omega arith)
]

-- A subring is a shard of a ring: it has only instances of the ring, as the ring has them, and none
-- twice; its tokens are sorted, and are exactly the tokens of these instances; and it has as many
-- instances as are asked for, or all those of some zone.
pub record IsSubring (r : Ring) (size : ℕ) (result : Ring) : Type 0 where
  pub shard : IsShard r.ring_desc.ingesters result.ring_desc.ingesters
  pub sorted : IsSorted result.ring_tokens
  pub same_tokens :
      (t : ℕ)
      → contains result.ring_tokens t ≡ any_contains (tokens_of result.ring_desc.ingesters) t
  pub full :
      (most_instances r size ≤ length result.ring_desc.ingesters)
      ⊎ HasZone r (shard_tokens r) (shard_zones r) result.ring_desc.ingesters

-- The subring that is built for an identifier, of a ring whose tokens name instances of it, has only
-- instances of the ring, as the ring has them, and none twice. Its tokens are sorted, and are exactly
-- the tokens of these instances. It has as many instances as are asked for, with zone awareness the
-- zones times what is expected of each and else `size`; or it has those of all tokens of some zone,
-- without zone awareness of all tokens of the ring. Without a lookback period it has no more than are
-- asked for.
pub shuffle_shard_from-IsShard :
    (random : Random) (identifier : String) (size period now : ℕ) (r result : Ring)
    → IsNamed r.ring_desc.ingesters r.ring_instance_by_token
    → shuffle_shard_from random identifier size period now r ≡ some result
    → IsSubring r size result
      × (period ≡ 0 → length result.ring_desc.ingesters ≤ most_instances r size)
unfolding shuffle_shard_from
shuffle_shard_from-IsShard random identifier size period now r result named e =
    elim (Option-cases (shard_instances random identifier size period now r)) [
      | inl panics ↦ absurd (none-ne-some (rw panics at e))
      | inr (after, found) ↦
          let is_result : shard_ring r after ≡ result = some-inj (rw found at e) in
          let g = shard_instances-Grows random identifier size period now r after named found in
          let tokens = get_tokens-IsSorted (record { ingesters = after }) in
          subst
            (λ (q : Ring).
              IsSubring r size q
              × (period ≡ 0 → length q.ring_desc.ingesters ≤ most_instances r size))
            is_result
            (unfold shard_ring in
              (
                record {
                  shard = g.shard;
                  sorted = tokens.0;
                  same_tokens = tokens.1;
                  full =
                      rw (most_instances-full r size)
                        (shard_instances-full random identifier size period now r after found);
                },
                λ z. omega (arith, g.size (ground arith)),
              ))
    ]
  where
    none-ne-some : {x : Ring} → none ≢ some x
    none-ne-some h = cc

    some-inj : {x y : Ring} → some x ≡ some y → x ≡ y
    some-inj h = cc
