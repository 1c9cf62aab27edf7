-- ===== src/Ring/Shard/Full.antt =====
-- A shard is as large as asked for, or has every instance of some zone.
use dskit.Base.{
  ==_iff, Bool-cases, List, Option-cases, String, [], arith, false, if◌then◌else◌, inl, inr, length,
  nat_eq, refl, some, string_eq, subst, suc, sym, true, zero, ℕ, ◌%◌, ◌*◌, ◌+◌, ◌-◌, ◌∙◌, ◌∷◌, ◌≡◌,
  ◌≤◌, ◌⊎◌,
}
use dskit.Base.Maps.{Map}
use dskit.Ring.Types.{InstanceDesc}
use dskit.Ring.State.{Ring}
use dskit.Ring.Search.{search_token}
use dskit.Ring.Shard.{
  pick, pick_instances, pick_zones, Random, expected_instances_per_zone, zone_tokens,
  shard_instances,
}
use native.Mathlib.Nat.{mod-add-mod, mod-lt}
use dskit.Ring.Shard.Rounds.{
  HasAll, HasPlace, HasZone, Kept, Kept-refl, Kept-trans, Picks, pick-Picks, reach,
}

module _ (r : Ring) (lookback_period lookback_until : ℕ) where
  -- The outcome of the rounds for some tokens: as many instances more as wanted, or all.
  record Fills (tokens : List ℕ) (wanted : ℕ) (before after : Map String InstanceDesc)
      : Type 0 where
    kept : Kept before after
    full : (length before + wanted ≤ length after) ⊎ HasAll r tokens after

  ended :
      (tokens : List ℕ) (p : ℕ) (before after : Map String InstanceDesc)
      → Picks r lookback_period lookback_until tokens (length tokens) p before after false
      → HasAll r tokens after
  ended tokens p before after picks place lt =
      let len = length tokens in
      let (k, small, there) = reach len (p % len) place (mod-lt p {m = len} (omega arith)) lt in
      subst (λ x. HasPlace r tokens x after) (sym (mod-add-mod p len k) ∙ there)
        (picks.all refl k small)

  HasAll-Kept :
      (tokens : List ℕ) (before after : Map String InstanceDesc)
      → Kept before after
      → HasAll r tokens before
      → HasAll r tokens after
  HasAll-Kept tokens before after kept all place lt info is_info =
      kept.here info.instance_id (all place lt info is_info)

  pick_instances-Fills :
      (random : ℕ → ℕ) (tokens : List ℕ) (remaining i : ℕ) (shard after : Map String InstanceDesc)
      → pick_instances r lookback_period lookback_until random tokens remaining i shard ≡ some after
      → Fills tokens remaining shard after
  unfolding pick_instances
  pick_instances-Fills random tokens zero i shard after e =
      subst (Fills tokens 0 shard) {x = shard} (ground arith)
        (record { kept = Kept-refl shard; full = inl (omega arith) })
  pick_instances-Fills random tokens (suc remaining) i shard after e =
      let p = search_token tokens (random i) in
      elim (Option-cases (pick r lookback_period lookback_until tokens (length tokens) p shard)) [
        | inl panics ↦ absurd (ground arith)
        | inr ((shard', true), found) ↦
            let one =
              pick-Picks r lookback_period lookback_until tokens (length tokens) p shard shard' true
                found in
            let rest =
              pick_instances-Fills random tokens remaining (i + 1) shard' after (ground arith) in
            record {
              kept = Kept-trans shard shard' after one.kept rest.kept;
              full = elim rest.full [
                | inl many ↦ inl (omega (arith, one.more refl, many))
                | inr all ↦ inr all
              ];
            }
        | inr ((shard', false), found) ↦
            let one =
              pick-Picks r lookback_period lookback_until tokens (length tokens) p shard shard'
                false found in
            subst (Fills tokens (suc remaining) shard) {x = shard'} (ground arith)
              (record { kept = one.kept; full = inr (ended tokens p shard shard' one) })
      ]

  pub record ZonesFill (tokens_of : String → List ℕ) (zones : List String) (wanted : ℕ)
      (before after : Map String InstanceDesc) : Type 0 where
    kept : Kept before after
    pub full :
        (length before + length zones * wanted ≤ length after) ⊎ HasZone r tokens_of zones after

  pub pick_zones-ZonesFill :
      (random : String → ℕ → ℕ) (per_zone : ℕ) (tokens_of : String → List ℕ) (zones : List String)
      (shard after : Map String InstanceDesc)
      → pick_zones r lookback_period lookback_until random per_zone tokens_of zones shard
        ≡ some after
      → ZonesFill tokens_of zones per_zone shard after
  unfolding pick_zones
  pick_zones-ZonesFill random per_zone tokens_of [] shard after e =
      subst (ZonesFill tokens_of [] per_zone shard) {x = shard} (ground arith)
        (record { kept = Kept-refl shard; full = inl (grind arith) })
  pick_zones-ZonesFill random per_zone tokens_of (zone ∷ zones) shard after e =
      elim (Option-cases (
        pick_instances r lookback_period lookback_until (random zone) (tokens_of zone) per_zone 0
          shard)) [
            | inl panics ↦ absurd (ground arith)
            | inr (shard', found) ↦
                let one =
                  pick_instances-Fills (random zone) (tokens_of zone) per_zone 0 shard shard'
                    found in
                let rest =
                  pick_zones-ZonesFill random per_zone tokens_of zones shard' after
                    (ground arith) in
                record {
                  kept = Kept-trans shard shard' after one.kept rest.kept;
                  full = elim one.full [
                    | inr all ↦ inr (
                      zone,
                      (
                        ground (arith, ==_iff zone zone),
                        HasAll-Kept (tokens_of zone) shard' after rest.kept all,
                      ),
                    )
                    | inl some_more ↦ elim rest.full [
                      | inl many ↦ inl (grind (arith, some_more, many))
                      | inr (other, (there, all)) ↦ inr (other, (ground (arith, there), all))
                    ]
                  ];
                }
          ]

-- the zones that a shard is chosen from, and the tokens of each
abbrev pub shard_zones : Ring → List String
shard_zones r = if r.zone_awareness_enabled then r.ring_zones else "" ∷ []

abbrev pub shard_tokens : Ring → String → List ℕ
shard_tokens r zone = if r.zone_awareness_enabled then zone_tokens r zone else r.ring_tokens

-- how many instances are asked for of each of them
abbrev pub per_zone : Ring → ℕ → ℕ
per_zone r size =
    if r.zone_awareness_enabled
    then expected_instances_per_zone size (length r.ring_zones)
    else size

-- A shard has as many instances as are asked for, or has all of some zone.
pub shard_instances-full :
    (random : Random) (identifier : String) (size period now : ℕ) (r : Ring)
    (after : Map String InstanceDesc)
    → shard_instances random identifier size period now r ≡ some after
    → (length (shard_zones r) * per_zone r size ≤ length after)
      ⊎ HasZone r (shard_tokens r) (shard_zones r) after
unfolding shard_instances
shard_instances-full random identifier size period now r after e =
    let until = now - period in
    let picked : pick_zones r period until (random identifier) (per_zone r size) (shard_tokens r)
          (shard_zones r) []
        ≡ some after =
      elim (Bool-cases r.zone_awareness_enabled) [
        | inl aware ↦ rw aware (rw aware at e)
        | inr plain ↦ rw plain (rw plain at e)
      ] in
    elim (pick_zones-ZonesFill r period until (random identifier) (per_zone r size) (shard_tokens r)
      (shard_zones r) [] after picked).full [ inl many ↦ inl (omega arith) | inr zone ↦ inr zone ]
