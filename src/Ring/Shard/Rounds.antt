-- ===== src/Ring/Shard/Rounds.antt =====
-- One choice of an instance for a shard finds one more, or has seen all tokens.
use dskit.Base.{
  ==_iff, Bool, Bool-cases, List, Option-cases, String, [], ap, arith, contains, false, get_or, inl,
  inr, leb, length, nat_eq, none, refl, some, string_eq, subst, suc, sym, true, zero, ℕ, ◌%◌, ◌+◌,
  ◌-◌, ◌<◌, ◌∙◌, ◌∷◌, ◌≡◌, ◌≢◌, ◌≤◌,
}
use dskit.Base.Maps.{Map, insert, lookup, lookup-insert}
use dskit.Ring.Types.{InstanceDesc, instance_at}
use dskit.Ring.State.{Ring, InstanceInfo}
use dskit.Ring.Shard.{in_lookback, pick}
use native.Mathlib.Nat.{mod-add-mod, mod-eq_of_lt, add-mod_right, add-zero}

pub length-insert :
    (key : String) (new : InstanceDesc) (m : Map String InstanceDesc)
    → lookup key m ≡ none
    → length (insert key new m) ≡ suc (length m)
unfolding insert lookup
length-insert key new [] h = refl
length-insert key new ((j, old) ∷ rest) h = ground (arith, length-insert key new rest)

-- A place of the ring is reached from any other by going round.
pub reach :
    (len from place : ℕ)
    → from < len
    → place < len
    → (k : ℕ) × (k < len) × ((from + k) % len ≡ place)
reach len from place f p = elim (Bool-cases (leb from place)) [
  | inl on ↦ (place - from, omega arith, ap (λ x. x % len) (ground arith) ∙ mod-eq_of_lt p)
  | inr back ↦ (
    place + len - from,
    ground arith,
    ap (λ x. x % len) (ground arith) ∙ add-mod_right place len ∙ mod-eq_of_lt p,
  )
]

-- What a round of choices leaves: it keeps what there is.
pub record Kept (before after : Map String InstanceDesc) : Type 0 where
  pub here : (id : String) → lookup id before ≢ none → lookup id after ≢ none
  pub size : length before ≤ length after

pub Kept-refl : (shard : Map String InstanceDesc) → Kept shard shard
Kept-refl shard = record { here = λ id h. h; size = omega arith }

pub Kept-trans :
    (before between after : Map String InstanceDesc)
    → Kept before between
    → Kept between after
    → Kept before after
Kept-trans before between after g h = record {
  here = λ id there. h.here id (g.here id there);
  size = omega (arith, g.size, h.size);
}

insert-Kept :
    (id : String) (new : InstanceDesc) (shard : Map String InstanceDesc)
    → lookup id shard ≡ none
    → Kept shard (insert id new shard)
insert-Kept id new shard absent = record {
  here = λ j h. ground (arith, lookup-insert id j new shard, h);
  size = omega (arith, length-insert id new shard absent);
}

same_info : {x y : InstanceInfo} → some x ≡ some y → x ≡ y
same_info h = cc

module _ (r : Ring) where
  -- The instance of a token is in the shard.
  abbrev pub HasPlace : List ℕ → ℕ → Map String InstanceDesc → Type 0
  HasPlace tokens place shard =
      (info : InstanceInfo)
      → lookup (get_or tokens place 0) r.ring_instance_by_token ≡ some info
      → lookup info.instance_id shard ≢ none

  abbrev pub HasAll : List ℕ → Map String InstanceDesc → Type 0
  HasAll tokens shard = (place : ℕ) → place < length tokens → HasPlace tokens place shard

  -- The shard has all instances of some zone.
  abbrev pub HasZone : (String → List ℕ) → List String → Map String InstanceDesc → Type 0
  HasZone tokens_of zones shard =
      (zone : String) × ((contains zones zone ≡ true) × HasAll (tokens_of zone) shard)

module _ (r : Ring) (lookback_period lookback_until : ℕ) where
  pub record Picks (tokens : List ℕ) (iterations p : ℕ) (before after : Map String InstanceDesc)
      (found : Bool) : Type 0 where
    pub kept : Kept before after
    pub more : found ≡ true → length before < length after
    pub all :
        found ≡ false → (k : ℕ) → k < iterations → HasPlace r tokens ((p + k) % length tokens) after

  pub pick-Picks :
      (tokens : List ℕ) (iterations p : ℕ) (shard after : Map String InstanceDesc) (found : Bool)
      → pick r lookback_period lookback_until tokens iterations p shard ≡ some (after, found)
      → Picks tokens iterations p shard after found
  unfolding pick
  pick-Picks tokens zero p shard after found e =
      let same : shard ≡ after = ground arith in
      record {
        kept = subst (Kept shard) same (Kept-refl shard);
        more = λ h. ground arith;
        all = λ h k lt. absurd (omega arith);
      }
  pick-Picks tokens (suc iterations) p shard after found e =
      let at = p % length tokens in
      elim (Option-cases (lookup (get_or tokens at 0) r.ring_instance_by_token)) [
        | inl panics ↦ absurd (ground arith)
        | inr (info, is_info) ↦
            let id = info.instance_id in
            let new = instance_at id r.ring_desc.ingesters in
            elim (Option-cases (lookup id shard)) [
              | inr (old, there) ↦
                  let rest =
                    pick-Picks tokens iterations (at + 1) shard after found (ground arith) in
                  next info is_info shard (Kept-refl shard) rest (rest.kept.here id (ground arith))
              | inl absent ↦
                  let kept = insert-Kept id new shard absent in
                  let inside : lookup id (insert id new shard) ≢ none =
                    ground (arith, lookup-insert id id new shard, ==_iff id id) in
                  elim (Bool-cases (in_lookback r lookback_period lookback_until new)) [
                    | inl further ↦
                        let rest =
                          pick-Picks tokens iterations (at + 1) (insert id new shard) after found
                            (ground arith) in
                        next info is_info (insert id new shard) kept rest (rest.kept.here id inside)
                    | inr last ↦
                        let same : insert id new shard ≡ after = ground arith in
                        record {
                          kept = subst (Kept shard) same kept;
                          more = λ h.
                              subst (λ m. length shard < length m) same
                                (omega (arith, length-insert id new shard absent));
                          all = λ h k lt. absurd (ground arith);
                        }
                  ]
            ]
      ]
    where
      next :
          (info : InstanceInfo)
          → lookup (get_or tokens (p % length tokens) 0) r.ring_instance_by_token ≡ some info
          → (between : Map String InstanceDesc) → Kept shard between
          → Picks tokens iterations (p % length tokens + 1) between after found
          → lookup info.instance_id after ≢ none
          → Picks tokens (suc iterations) p shard after found
      next info is_info between kept rest inside = record {
        kept = Kept-trans shard between after kept rest.kept;
        more = λ h. omega (arith, kept.size, rest.more h);
        all = λ h k lt. at_place h k lt;
      }
        where
          at_place :
              found ≡ false
              → (k : ℕ) → k < suc iterations
              → HasPlace r tokens ((p + k) % length tokens) after
          at_place h zero lt =
              subst (λ place. HasPlace r tokens (place % length tokens) after) (sym (add-zero p))
                (λ seen is_seen.
                  subst (λ (i : InstanceInfo). lookup i.instance_id after ≢ none)
                    (same_info (sym is_info ∙ is_seen)) inside)
          at_place h (suc k) lt =
              subst (λ place. HasPlace r tokens place after)
                (ap (λ x. x % length tokens) (omega arith) ∙ mod-add-mod p (length tokens) (suc k))
                (rest.all h k (omega arith))
