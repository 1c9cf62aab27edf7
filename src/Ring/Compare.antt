-- ===== src/Ring/Compare.antt =====
-- ring/model.go: RingCompare, and what tells two rings apart.
use dskit.Base.{
  ==_iff, All, Bool, List, Option-cases, String, [], ap, arith, false, if◌then◌else◌, inl, inr,
  length, nat_beq, nat_eq, none, refl, some, string_eq, sym, true, ℕ, ◌&&◌, ◌==◌, ◌↔◌, ◌∙◌, ◌∷◌,
  ◌≡◌,
}
use dskit.Base.Int.{int_eq}
use dskit.Base.Maps.{Map, lookup}
use dskit.Ring.Types.{Desc, InstanceDesc, active, state_eq, state_eq_iff}
use dskit.Ring.Merge.{tokens_equal}

-- `CompareResult`
pub data CompareResult : Type 0 where
  equal equal_but_states_and_timestamps different : CompareResult

-- the tests of the loop that end it with Different
unfoldable pub same_instance : InstanceDesc → InstanceDesc → Bool
unfolding tokens_equal
same_instance ing oing =
    ing.addr == oing.addr
    && (ing.zone == oing.zone
        && (ing.registered_timestamp == oing.registered_timestamp
            && tokens_equal ing.tokens oing.tokens))

-- the tests at its end
unfoldable pub same_state_and_timestamp : InstanceDesc → InstanceDesc → Bool
same_state_and_timestamp ing oing = ing.timestamp == oing.timestamp && state_eq ing.state oing.state

-- the loop, with `equalStatesAndTimestamps`
unfoldable pub compare_from :
    Bool → Map String InstanceDesc → Map String InstanceDesc → CompareResult
unfolding same_instance same_state_and_timestamp
compare_from equal_states others [] =
    if equal_states then equal else equal_but_states_and_timestamps
compare_from equal_states others ((name, ing) ∷ rest) = elim (lookup name others) [
  | none ↦ different
  | some oing ↦
      let next = compare_from (equal_states && same_state_and_timestamp ing oing) others rest in
      if same_instance ing oing then next else different
]

-- `RingCompare` of two rings that are not nil
unfoldable pub ring_compare : Desc → Desc → CompareResult
unfolding compare_from
ring_compare d o =
    if nat_beq (length d.ingesters) (length o.ingesters)
    then compare_from true o.ingesters d.ingesters
    else different

-- An instance but for its state and its timestamp.
abbrev pub static : InstanceDesc → InstanceDesc
static i = record i { timestamp = 0; state = active }

tokens_equal_iff : (xs ys : List ℕ) → (tokens_equal xs ys ≡ true) ↔ (xs ≡ ys)
unfolding tokens_equal
tokens_equal_iff [] [] = ground arith
tokens_equal_iff [] (y ∷ ys) = ground arith
tokens_equal_iff (x ∷ xs) [] = ground arith
tokens_equal_iff (x ∷ xs) (y ∷ ys) = ground (arith, tokens_equal_iff xs ys, ==_iff x y)

same_instance_iff : (i j : InstanceDesc) → (same_instance i j ≡ true) ↔ (static i ≡ static j)
unfolding same_instance
same_instance_iff i j = ground (
  arith,
  tokens_equal_iff i.tokens j.tokens,
  ==_iff i.addr j.addr,
  ==_iff i.zone j.zone,
  ==_iff i.registered_timestamp j.registered_timestamp,
)

same_both :
    (i j : InstanceDesc) → same_instance i j ≡ true → same_state_and_timestamp i j ≡ true → i ≡ j
unfolding same_instance same_state_and_timestamp
same_both i j e f = ground (
  arith,
  tokens_equal_iff i.tokens j.tokens,
  ==_iff i.addr j.addr,
  ==_iff i.zone j.zone,
  state_eq_iff i.state j.state,
)

same_self : (i : InstanceDesc) → (same_instance i i ≡ true) × (same_state_and_timestamp i i ≡ true)
unfolding same_instance same_state_and_timestamp
same_self i = ground (
  arith,
  tokens_equal_iff i.tokens i.tokens,
  ==_iff i.addr i.addr,
  ==_iff i.zone i.zone,
  state_eq_iff i.state i.state,
)

-- The instances of a map are those of another one.
abbrev pub AllIn : Map String InstanceDesc → Map String InstanceDesc → Type 0
AllIn others = All (λ ((name, i) : String × InstanceDesc). lookup name others ≡ some i)

-- They are but for states and timestamps.
abbrev pub AllAlike : Map String InstanceDesc → Map String InstanceDesc → Type 0
AllAlike others = All (λ ((name, i) : String × InstanceDesc).
    (j : InstanceDesc) × (lookup name others ≡ some j) × (static i ≡ static j))

-- Not Different.
abbrev pub is_alike : CompareResult → Bool
is_alike equal = true
is_alike equal_but_states_and_timestamps = true
is_alike different = false

module _ (others : Map String InstanceDesc) where
  compare_from-equal :
      (equal_states : Bool) (m : Map String InstanceDesc)
      → (compare_from equal_states others m ≡ equal) ↔ ((equal_states ≡ true) × AllIn others m)
  unfolding compare_from
  compare_from-equal e [] = (λ same. ground arith, λ (on, _). ground arith)
  compare_from-equal e ((name, i) ∷ m) = elim (Option-cases (lookup name others)) [
    | inl missing ↦ (λ same. ground arith, λ (on, (found, rest)). ground arith)
    | inr (j, found) ↦
        let rest = compare_from-equal (e && same_state_and_timestamp i j) m in
        (
          λ same.
              let alike : same_instance i j ≡ true = ground arith in
              let (both, found_rest) = rest.0 (ground arith) in
              let whole : i ≡ j = same_both i j alike (ground arith) in
              (ground arith, (found ∙ ap some (sym whole), found_rest)),
          λ (on, (here, there)).
              let whole : i ≡ j = ground arith in
              let (alike, states) = same_self i in
              let next = rest.1 (ground arith, there) in ground arith,
        )
  ]

  compare_from-alike :
      (equal_states : Bool) (m : Map String InstanceDesc)
      → (is_alike (compare_from equal_states others m) ≡ true) ↔ AllAlike others m
  unfolding compare_from
  compare_from-alike e [] = (λ _. tt, λ _. ground arith)
  compare_from-alike e ((name, i) ∷ m) = elim (Option-cases (lookup name others)) [
    | inl missing ↦ (λ alike. ground arith, λ ((j, here, same), rest). ground arith)
    | inr (j, found) ↦
        let rest = compare_from-alike (e && same_state_and_timestamp i j) m in
        (
          λ alike.
              let here : same_instance i j ≡ true = ground arith in
              ((j, found, (same_instance_iff i j).0 here), rest.0 (ground arith)),
          λ ((k, here, same), there).
              let whole : k ≡ j = ground arith in
              let alike : same_instance i j ≡ true =
                (same_instance_iff i j).1 (same ∙ ap static whole) in
              let next = rest.1 there in ground arith,
        )
  ]

-- RingCompare returns Equal exactly when the rings have as many instances and each of the first is
-- the same in the second; and does not return Different exactly when they have as many instances and
-- each of the first is in the second with the same data except state and timestamp.
pub ring_compare_iff :
    (d o : Desc)
    → ((ring_compare d o ≡ equal)
        ↔ ((length d.ingesters ≡ length o.ingesters) × AllIn o.ingesters d.ingesters))
      × ((is_alike (ring_compare d o) ≡ true)
          ↔ ((length d.ingesters ≡ length o.ingesters) × AllAlike o.ingesters d.ingesters))
unfolding ring_compare
ring_compare_iff d o =
    let same = compare_from-equal o.ingesters true d.ingesters in
    let alike = compare_from-alike o.ingesters true d.ingesters in
    (
      (
        λ h. (ground arith, (same.0 (ground arith)).1),
        λ (sizes, all). let e = same.1 (refl, all) in ground arith,
      ),
      (
        λ h. (ground arith, alike.0 (ground arith)),
        λ (sizes, all). let e = alike.1 all in ground arith,
      ),
    )
