-- ===== src/Ring/Operation/Bits.antt =====
-- The bitmap of an Operation has one bit for each state in each half.
use dskit.Base.{
  Bool, Bool-cases, List, Option, [], all_below, all_below_sound, ap, arith, false, inl, inr, ltb,
  nat_beq, none, not, refl, some, true, ℕ, ◌&&◌, ◌*◌, ◌+◌, ◌<◌, ◌^◌, ◌||◌, ◌∙◌, ◌∷◌, ◌≡◌,
}
use Prim.Native.Nat.{bit_and, bit_or}
use dskit.Ring.Types.{
  InstanceState, active, leaving, pending, joining, left, state_number, state_eq,
}
use dskit.Ring.Operation.{
  add_healthy, add_extending, new_op, is_instance_in_state_healthy,
  should_extend_replica_set_on_state,
}

abbrev same : Bool → Bool → Bool
same true b = b
same false b = not b

same→eq : (a b : Bool) → same a b ≡ true → a ≡ b
same→eq a b h = ground arith

-- bit `t` of the lower half, and of the upper half
abbrev low_bit : ℕ → ℕ → Bool
low_bit op t = ltb 0 (bit_and op (2 ^ t))

abbrev high_bit : ℕ → ℕ → Bool
high_bit op t = ltb 0 (bit_and op (0x10000 * 2 ^ t))

-- What setting bit `s` of the lower half does to bit `t`, at the bitmap `lo + 0x10000 * hi`.
set_low : ℕ → ℕ → ℕ → ℕ → Bool
set_low lo hi s t =
    let op = lo + 0x10000 * hi in
    let new = bit_or op (2 ^ s) in
    nat_beq new (bit_or lo (2 ^ s) + 0x10000 * hi)
    && (ltb (bit_or lo (2 ^ s)) 32
        && (same (low_bit new t) (nat_beq s t || low_bit op t)
            && same (high_bit new t) (high_bit op t)))

-- The same for the upper half.
set_high : ℕ → ℕ → ℕ → ℕ → Bool
set_high lo hi s t =
    let op = lo + 0x10000 * hi in
    let new = bit_or op (0x10000 * 2 ^ s) in
    nat_beq new (lo + 0x10000 * bit_or hi (2 ^ s))
    && (ltb (bit_or hi (2 ^ s)) 32
        && (same (high_bit new t) (nat_beq s t || high_bit op t)
            && same (low_bit new t) (low_bit op t)))

abbrev in_range : (ℕ → ℕ → ℕ → ℕ → Bool) → Bool
in_range p = all_below 32 (λ lo. all_below 32 (λ hi. all_below 5 (λ s. all_below 5 (p lo hi s))))

low_table : in_range set_low ≡ true
unfolding all_below set_low
low_table = refl

high_table : in_range set_high ≡ true
unfolding all_below set_high
high_table = refl

in_range_sound :
    (p : ℕ → ℕ → ℕ → ℕ → Bool) (lo hi s t : ℕ)
    → in_range p ≡ true
    → lo < 32
    → hi < 32
    → s < 5
    → t < 5
    → p lo hi s t ≡ true
in_range_sound p lo hi s t h a b c d =
    all_below_sound 5 (p lo hi s) t
      (all_below_sound 5 (λ s. all_below 5 (p lo hi s)) s
        (all_below_sound 32 (λ hi. all_below 5 (λ s. all_below 5 (p lo hi s))) hi
          (all_below_sound 32
            (λ lo. all_below 32 (λ hi. all_below 5 (λ s. all_below 5 (p lo hi s)))) lo h a)
          b)
        c)
      d

-- A bitmap with nothing but the five bits of each half.
record Halves (op : ℕ) : Type 0 where
  lo : ℕ
  hi : ℕ
  lo_small : lo < 32
  hi_small : hi < 32
  sum : op ≡ lo + 0x10000 * hi

state_number_lt : (s : InstanceState) → state_number s < 5
state_number_lt active = omega arith
state_number_lt leaving = omega arith
state_number_lt pending = omega arith
state_number_lt joining = omega arith
state_number_lt left = omega arith

module _ (s t : InstanceState) {op : ℕ} (h : Halves op) where
  low_facts :
      (bit_or op (2 ^ state_number s) ≡ bit_or h.lo (2 ^ state_number s) + 0x10000 * h.hi)
      × (bit_or h.lo (2 ^ state_number s) < 32)
      × (low_bit (bit_or op (2 ^ state_number s)) (state_number t)
          ≡ (state_eq s t || low_bit op (state_number t)))
      × (high_bit (bit_or op (2 ^ state_number s)) (state_number t) ≡ high_bit op (state_number t))
  unfolding set_low
  low_facts = ground (
    arith,
    in_range_sound set_low h.lo h.hi (state_number s) (state_number t) low_table h.lo_small
        h.hi_small (state_number_lt s) (state_number_lt t),
  )

  high_facts :
      (bit_or op (0x10000 * 2 ^ state_number s) ≡ h.lo + 0x10000 * bit_or h.hi (2 ^ state_number s))
      × (bit_or h.hi (2 ^ state_number s) < 32)
      × (high_bit (bit_or op (0x10000 * 2 ^ state_number s)) (state_number t)
          ≡ (state_eq s t || high_bit op (state_number t)))
      × (low_bit (bit_or op (0x10000 * 2 ^ state_number s)) (state_number t)
          ≡ low_bit op (state_number t))
  unfolding set_high
  high_facts = ground (
    arith,
    in_range_sound set_high h.lo h.hi (state_number s) (state_number t) high_table h.lo_small
        h.hi_small (state_number_lt s) (state_number_lt t),
  )

set_low-Halves : (s : InstanceState) {op : ℕ} → Halves op → Halves (bit_or op (2 ^ state_number s))
set_low-Halves s {op} h =
    let (new, small, _, _) = low_facts s s h in
    record {
      lo = bit_or h.lo (2 ^ state_number s);
      hi = h.hi;
      lo_small = small;
      hi_small = h.hi_small;
      sum = new;
    }

set_high-Halves :
    (s : InstanceState) {op : ℕ} → Halves op → Halves (bit_or op (0x10000 * 2 ^ state_number s))
set_high-Halves s {op} h =
    let (new, small, _, _) = high_facts s s h in
    record {
      lo = h.lo;
      hi = bit_or h.hi (2 ^ state_number s);
      lo_small = h.lo_small;
      hi_small = small;
      sum = new;
    }

abbrev healthy : ℕ → InstanceState → Bool
healthy op t = is_instance_in_state_healthy op t

abbrev extends : ℕ → InstanceState → Bool
extends op t = should_extend_replica_set_on_state op t

set_low_lem :
    (s t : InstanceState) {op : ℕ}
    → Halves op
    → let new = bit_or op (2 ^ state_number s) in
      (healthy new t ≡ (state_eq s t || healthy op t)) × (extends new t ≡ extends op t)
unfolding is_instance_in_state_healthy should_extend_replica_set_on_state
set_low_lem s t {op} h = let (_, _, low, high) = low_facts s t h in (low, high)

set_high_lem :
    (s t : InstanceState) {op : ℕ}
    → Halves op
    → let new = bit_or op (0x10000 * 2 ^ state_number s) in
      (healthy new t ≡ healthy op t) × (extends new t ≡ (state_eq s t || extends op t))
unfolding is_instance_in_state_healthy should_extend_replica_set_on_state
set_high_lem s t {op} h = let (_, _, high, low) = high_facts s t h in (low, high)

-- Whether a list of states has a state.
abbrev pub has_state : List InstanceState → InstanceState → Bool
has_state [] t = false
has_state (s ∷ rest) t = state_eq s t || has_state rest t

add_healthy_lem :
    (states : List InstanceState) (t : InstanceState) {op : ℕ}
    → Halves op
    → let new = add_healthy states op in
      Halves new
      × (healthy new t ≡ (has_state states t || healthy op t))
      × (extends new t ≡ extends op t)
unfolding add_healthy
add_healthy_lem [] t h = (h, refl, refl)
add_healthy_lem (s ∷ rest) t {op} h =
    let (halves, low, high) = add_healthy_lem rest t (set_low-Halves s h) in
    let (set, kept) = set_low_lem s t h in (halves, ground arith, high ∙ kept)

-- Which of the listed states the function selects.
abbrev selected : (InstanceState → Bool) → List InstanceState → InstanceState → Bool
selected f [] t = false
selected f (s ∷ rest) t = f s && state_eq s t || selected f rest t

add_extending_lem :
    (f : InstanceState → Bool) (states : List InstanceState) (t : InstanceState) {op : ℕ}
    → Halves op
    → let new = add_extending f states op in
      (healthy new t ≡ healthy op t) × (extends new t ≡ (selected f states t || extends op t))
unfolding add_extending
add_extending_lem f [] t h = (refl, refl)
add_extending_lem f (s ∷ rest) t {op} h = elim (Bool-cases (f s)) [
  | inl yes_f ↦
      let (low, high) = add_extending_lem f rest t (set_high-Halves s h) in
      let (kept, set) = set_high_lem s t h in rw yes_f (low ∙ kept, ground arith)
  | inr no_f ↦ rw no_f (add_extending_lem f rest t h)
]

zero-Halves : Halves 0
zero-Halves = record { lo = 0; hi = 0; lo_small = omega arith; hi_small = omega arith; sum = refl }

zero_bits : (t : InstanceState) → (healthy 0 t ≡ false) × (extends 0 t ≡ false)
unfolding is_instance_in_state_healthy should_extend_replica_set_on_state
zero_bits active = (refl, refl)
zero_bits leaving = (refl, refl)
zero_bits pending = (refl, refl)
zero_bits joining = (refl, refl)
zero_bits left = (refl, refl)

abbrev pub extends_by : Option (InstanceState → Bool) → InstanceState → Bool
extends_by none t = false
extends_by (some f) t = f t

selected_all :
    (f : InstanceState → Bool) (t : InstanceState)
    → selected f (active ∷ leaving ∷ pending ∷ joining ∷ leaving ∷ left ∷ []) t ≡ f t
selected_all f active = ground arith
selected_all f leaving = ground arith
selected_all f pending = ground arith
selected_all f joining = ground arith
selected_all f left = ground arith

or_false : (b : Bool) → (b || false) ≡ b
or_false b = ground arith

-- An Operation made by NewOp, from any list of healthy states and any function (or nil), finds a
-- state healthy exactly when the state is in the list, and extends the replica set on a state
-- exactly when the function says so (never, for nil).
pub new_op-bits :
    (healthy_states : List InstanceState) (f : Option (InstanceState → Bool)) (t : InstanceState)
    → (is_instance_in_state_healthy (new_op healthy_states f) t ≡ has_state healthy_states t)
      × (should_extend_replica_set_on_state (new_op healthy_states f) t ≡ extends_by f t)
unfolding new_op
new_op-bits states none t =
    let (_, low, high) = add_healthy_lem states t zero-Halves in
    let (low0, high0) = zero_bits t in
    (low ∙ ap (λ b. has_state states t || b) low0 ∙ or_false _, high ∙ high0)
new_op-bits states (some f) t =
    let (halves, low, high) = add_healthy_lem states t zero-Halves in
    let (low0, high0) = zero_bits t in
    let all = active ∷ leaving ∷ pending ∷ joining ∷ leaving ∷ left ∷ [] in
    let (low', high') = add_extending_lem f all t halves in
    (
      low' ∙ low ∙ ap (λ b. has_state states t || b) low0 ∙ or_false _,
      high' ∙ ap (λ b. selected f all t || b) (high ∙ high0) ∙ or_false _ ∙ selected_all f t,
    )
