-- ===== src/Ring/Get/Round.antt =====
-- The instances that the walk of Get takes, told by their places round the ring.
use dskit.Base.{
  ==_iff, All, All-append, Bool, List, Option, String, [], ap, arith, contains, false, get_or,
  if◌then◌else◌, length, ltb, nat_eq, not, refl, string_eq, ℕ, ◌%◌, ◌&&◌, ◌++◌, ◌<◌, ◌==◌, ◌||◌,
  ◌∷◌, ◌≡◌,
}
use dskit.Base.Maps.{lookup}
use dskit.Ring.Types.{instance_at}
use dskit.Ring.State.{InstanceInfo, Ring}
use dskit.Ring.Get.{zone_counts}
use dskit.Ring.Get.Steps.{extends}

-- Instances of tokens, each with the number of tokens from the start to its own.
abbrev pub Places : Type 0
Places = List (ℕ × InstanceInfo)

abbrev pub hosts_of : Places → List String
hosts_of [] = []
hosts_of ((place, info) ∷ rest) = info.instance_id ∷ hosts_of rest

-- Every place is before those behind it.
abbrev pub IsInOrder : Places → Type 0
IsInOrder [] = Unit
IsInOrder ((place, info) ∷ rest) =
    All (λ ((p, _) : ℕ × InstanceInfo). place < p) rest × IsInOrder rest

abbrev pub is_taken : ℕ → Places → Bool
is_taken place [] = false
is_taken place ((p, info) ∷ rest) = place == p || is_taken place rest

pub hosts-append : (xs ys : Places) → hosts_of (xs ++ ys) ≡ hosts_of xs ++ hosts_of ys
hosts-append [] ys = refl
hosts-append ((p, info) ∷ xs) ys = ap (λ hs. info.instance_id ∷ hs) (hosts-append xs ys)

pub taken-append :
    (place : ℕ) (xs ys : Places)
    → is_taken place (xs ++ ys) ≡ (is_taken place xs || is_taken place ys)
taken-append place [] ys = refl
taken-append place ((p, info) ∷ xs) ys = ground (arith, taken-append place xs ys)

pub taken_past :
    (place : ℕ) (xs : Places)
    → All (λ ((p, _) : ℕ × InstanceInfo). p < place) xs
    → is_taken place xs ≡ false
taken_past place [] h = refl
taken_past place ((p, info) ∷ xs) h = ground (arith, h.0, taken_past place xs h.1, ==_iff place p)

pub IsInOrder-snoc :
    (place : ℕ) (info : InstanceInfo) (xs : Places)
    → IsInOrder xs
    → All (λ ((p, _) : ℕ × InstanceInfo). p < place) xs
    → IsInOrder (xs ++ (place, info) ∷ [])
IsInOrder-snoc place info [] h past = (tt, tt)
IsInOrder-snoc place info ((p, i) ∷ xs) h past = (
  All-append (λ ((q, _) : ℕ × InstanceInfo). p < q) xs ((place, info) ∷ []) h.0 (past.0, tt),
  IsInOrder-snoc place info xs h.1 past.1,
)

module _ (r : Ring) (op : ℕ) where
  -- the instance of the token at a position, counted round and round
  abbrev pub info_at : ℕ → Option InstanceInfo
  info_at i = lookup (get_or r.ring_tokens (i % length r.ring_tokens) 0) r.ring_instance_by_token

  -- Whether an instance that is taken keeps out the others of its zone.
  abbrev pub limits : InstanceInfo → Bool
  limits info =
      zone_counts r op info
      && not (extends r op (instance_at info.instance_id r.ring_desc.ingesters))

  abbrev pub zones_of : Places → List String
  zones_of [] = []
  zones_of ((place, info) ∷ rest) = if limits info then info.zone ∷ zones_of rest else zones_of rest

  -- Whether an instance taken at an earlier place keeps an instance out: it is the same one, or keeps
  -- out its zone.
  abbrev pub in_way : ℕ → InstanceInfo → Places → Bool
  in_way place info [] = false
  in_way place info ((p, taken) ∷ rest) =
      (ltb p place
        && (info.instance_id == taken.instance_id
            || (zone_counts r op info && (limits taken && info.zone == taken.zone))))
      || in_way place info rest

  pub zones-append : (xs ys : Places) → zones_of (xs ++ ys) ≡ zones_of xs ++ zones_of ys
  zones-append [] ys = refl
  zones-append ((p, info) ∷ xs) ys = ground (arith, zones-append xs ys)

  pub in_way-append :
      (place : ℕ) (info : InstanceInfo) (xs ys : Places)
      → in_way place info (xs ++ ys) ≡ (in_way place info xs || in_way place info ys)
  in_way-append place info [] ys = refl
  in_way-append place info ((p, t) ∷ xs) ys = ground (arith, in_way-append place info xs ys)

  -- At a place behind all that are taken, it is what the walk tests.
  pub in_way_past :
      (place : ℕ) (info : InstanceInfo) (xs : Places)
      → All (λ ((p, _) : ℕ × InstanceInfo). p < place) xs
      → in_way place info xs ≡ (
          contains (hosts_of xs) info.instance_id
          || (zone_counts r op info && contains (zones_of xs) info.zone))
  in_way_past place info [] h = ground arith
  in_way_past place info ((p, t) ∷ xs) h = ground (arith, h.0, in_way_past place info xs h.1)
