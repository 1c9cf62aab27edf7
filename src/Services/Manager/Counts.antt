-- ===== src/Services/Manager/Counts.antt =====
-- How many services are in each state, before and after one of them changes its state.
use dskit.Base.{
  Bool, List, [], ap, arith, contains, false, if◌then◌else◌, length, length-append, ltb, nat_eq,
  not, refl, string_eq, true, ℕ, ◌&&◌, ◌+◌, ◌<◌, ◌∷◌, ◌≡◌,
}
use dskit.Services.Basic.{
  State, new, starting, running, stopping, terminated, failed, state_eq, state_number,
}
use dskit.Services.Manager.{
  Manager, with_services, without_service, moved, running_count, stopping_count, done_count,
}

-- The changes that a service can make: forward, and from no terminal state.
abbrev pub is_forward : State → State → Bool
is_forward from to = ltb (state_number from) (state_number to) && not (state_eq from terminated)

abbrev pub one_if : Bool → ℕ
one_if b = if b then 1 else 0

length-without_service :
    (s : ℕ) (xs : List ℕ) → contains xs s ≡ true → length (without_service s xs) + 1 ≡ length xs
unfolding without_service
length-without_service s [] h = cc
length-without_service s (x ∷ xs) h = ground (arith, length-without_service s xs)

state_eq-subst :
    (by_state : State → List ℕ) (s t : State)
    → state_eq s t ≡ true
    → length (by_state s) ≡ length (by_state t)
state_eq-subst by_state s t e = ap (λ x. length (by_state x)) (same s t e)
  where
    same : (s t : State) → state_eq s t ≡ true → s ≡ t
    same new new h = refl
    same starting starting h = refl
    same running running h = refl
    same stopping stopping h = refl
    same terminated terminated h = refl
    same failed failed h = refl
    same _ _ h = cc

-- The list of the old state is one shorter, that of the new state one longer.
pub length-moved :
    (s : ℕ) (from to : State) (m : Manager) (t : State)
    → state_eq from to ≡ false
    → contains (m.by_state from) s ≡ true
    → length ((moved s from to m).by_state t) + one_if (state_eq from t)
      ≡ length (m.by_state t) + one_if (state_eq to t)
unfolding moved with_services
length-moved s from to m t other there = ground (
  arith,
  length-without_service s (m.by_state from) there,
  state_eq-subst m.by_state from t,
  state_eq-subst m.by_state to t,
  length-append (m.by_state to) (s ∷ []),
)

abbrev pub total_count : Manager → ℕ
total_count m =
    length (m.by_state new)
    + length (m.by_state starting)
    + running_count m
    + stopping_count m
    + done_count m

-- What one change does to the numbers that the manager looks at.
pub record Moves (m after : Manager) (to : State) : Type 0 where
  pub total : total_count after ≡ total_count m
  pub not_done : done_count m < total_count m
  pub no_return : 0 < stopping_count m + done_count m → 0 < stopping_count after + done_count after
  pub leaves : running_count m ≡ total_count m → 0 < stopping_count after + done_count after
  pub failures :
      length (after.by_state failed) ≡ length (m.by_state failed) + one_if (state_eq to failed)

-- One service of the state `from` is in the state `to` now.
abbrev Shifts : State → State → Manager → Manager → Type 0
Shifts from to m after =
    (t : State)
    → length (after.by_state t) + one_if (state_eq from t)
      ≡ length (m.by_state t) + one_if (state_eq to t)

Shifts-Moves :
    (from to : State) (m after : Manager)
    → is_forward from to ≡ true
    → Shifts from to m after
    → Moves m after to
Shifts-Moves new starting m after f h =
    ground (arith, h new, h starting, h running, h stopping, h terminated, h failed)
Shifts-Moves _ _ m after f h =
    ground (arith, h new, h starting, h running, h stopping, h terminated, h failed)

pub moved-Moves :
    (s : ℕ) (from to : State) (m : Manager)
    → is_forward from to ≡ true
    → contains (m.by_state from) s ≡ true
    → Moves m (moved s from to m) to
moved-Moves s from to m forward there =
    Shifts-Moves from to m (moved s from to m) forward
      (λ t. length-moved s from to m t (ground arith) there)
