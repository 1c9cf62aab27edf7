-- ===== src/Services/Manager/Reach.antt =====
-- A manager whose services go forward: what its state, its channels and its listeners say.
use dskit.Base.{
  All, All-append, All-map, Bool, Bool-cases, List, [], arith, contains, false, if◌then◌else◌, inl,
  inr, length, length-append, ltb, nat_eq, refl, some, string_eq, true, ℕ, ◌+◌, ◌<◌, ◌==◌, ◌||◌,
  ◌∙◌, ◌∷◌, ◌≡◌, ◌≤◌,
}
use dskit.Services.Basic.{State, failed, state_eq}
use dskit.Services.Manager.{
  unknown, healthy, stopped, ManagerState, Event, to_healthy, to_stopped, failure, ListenerChannel,
  Manager, with_services, new_manager, notify_listeners, moved, become_healthy, become_stopped,
  become_unknown, running_count, stopping_count, done_count, switch_counts, service_state_changed,
  add_listener, is_stopped,
}
use dskit.Services.Manager.Counts.{is_forward, one_if, total_count, moved-Moves}

-- The managers that `NewManager` and the notices of its services lead to. A service changes its state
-- forward, from the state in which the manager has it.
pub data Reachable : Manager → Type 0 where
  created :
      {m : Manager} (state_of : ℕ → State) (services : List ℕ)
      → new_manager state_of services ≡ some m
      → Reachable m
  changed :
      {m : Manager} (s : ℕ) (from to : State)
      → Reachable m
      → is_forward from to ≡ true
      → contains (m.by_state from) s ≡ true
      → Reachable (service_state_changed s from to m)
  listened : {m : Manager} → Reachable m → Reachable (add_listener m)

abbrev pub all_running : Manager → Bool
all_running m = running_count m == length m.services

abbrev pub all_done : Manager → Bool
all_done m = done_count m == length m.services

-- Whether the manager is healthy or cannot become so.
abbrev pub settled : Manager → Bool
settled m = all_running m || ltb 0 (stopping_count m + done_count m)

abbrev pub expected_state : Manager → ManagerState
expected_state m = if all_running m then healthy else if all_done m then stopped else unknown

-- A listener was sent as many events as there are failures and closed channels, at most, and its
-- channel was closed with that of `AwaitStopped`.
abbrev pub IsServed : ℕ → ℕ → ListenerChannel → Type 0
IsServed events closes l = (length l.sent ≤ events) × (l.closes ≤ closes)

pub record IsConsistent (m : Manager) : Type 0 where
  pub some_services : 0 < length m.services
  pub total : total_count m ≡ length m.services
  pub state_right : m.state ≡ expected_state m
  pub flag_right : m.healthy_closed ≡ settled m
  pub healthy_once : m.healthy_closes ≡ one_if (settled m)
  pub stopped_once : m.stopped_closes ≡ one_if (all_done m)
  pub served :
      All
        (IsServed
          (length (m.by_state failed) + m.healthy_closes + m.stopped_closes)
          m.stopped_closes)
        m.listeners

notify_listeners-IsServed :
    (event : Event) (close_chan : Bool) (events closes : ℕ) (ls : List ListenerChannel)
    → All (IsServed events closes) ls
    → All
        (IsServed (events + 1) (closes + one_if close_chan))
        (notify_listeners event close_chan ls)
unfolding notify_listeners
notify_listeners-IsServed event close_chan events closes [] h = tt
notify_listeners-IsServed event close_chan events closes (l ∷ ls) h = (
  ground (arith, h.0, length-append l.sent (event ∷ [])),
  notify_listeners-IsServed event close_chan events closes ls h.1,
)

IsServed-mono :
    {events more closes other : ℕ} (ls : List ListenerChannel)
    → events ≤ more
    → closes ≤ other
    → All (IsServed events closes) ls
    → All (IsServed more other) ls
IsServed-mono ls le le' =
    All-map (IsServed _ _) (IsServed _ _) (λ l (p, q). (omega arith, omega arith)) ls

tell-IsServed :
    (told : Bool) (event : Event) (events closes : ℕ) (ls : List ListenerChannel)
    → All (IsServed events closes) ls
    → All
        (IsServed (events + one_if told) closes)
        (if told then notify_listeners event false ls else ls)
tell-IsServed true event events closes ls h =
    IsServed-mono (notify_listeners event false ls) (omega arith) (omega arith)
      (notify_listeners-IsServed event false events closes ls h)
tell-IsServed false event events closes ls h = IsServed-mono ls (omega arith) (omega arith) h

-- The move alone, before the counts are looked at.
pub record IsMoved (m after : Manager) : Type 0 where
  pub kept : m.services ≡ after.services
  pub some_services : 0 < length after.services
  pub total : total_count after ≡ length after.services
  pub flag : after.healthy_closed ≡ settled m
  pub healthy_closes : after.healthy_closes ≡ one_if (settled m)
  pub not_stopped : after.stopped_closes ≡ 0
  pub settles : settled m ≡ true → 0 < stopping_count after + done_count after
  pub served :
      All (IsServed (length (after.by_state failed) + after.healthy_closes) 0) after.listeners

moved-IsMoved :
    (s : ℕ) (from to : State) (m : Manager)
    → is_forward from to ≡ true
    → contains (m.by_state from) s ≡ true
    → IsConsistent m
    → IsMoved m (moved s from to m)
moved-IsMoved s from to m f there c =
    let moves = moved-Moves s from to m f there in
    record {
      kept = unfold moved in refl;
      some_services = unfold moved in c.some_services;
      total = unfold moved in (moves.total ∙ c.total);
      flag = unfold moved in c.flag_right;
      healthy_closes = unfold moved in c.healthy_once;
      not_stopped = unfold moved in ground (arith, c.stopped_once, moves.not_done, c.total);
      settles = λ h. ground (arith, moves.no_return, moves.leaves, c.total);
      served =
          let le : length (m.by_state failed)
                + m.healthy_closes
                + m.stopped_closes
                + one_if (state_eq to failed)
              ≤ length ((moved s from to m).by_state failed) + m.healthy_closes =
            ground (arith, moves.failures, c.stopped_once, moves.not_done, c.total) in
          let none_closed : m.stopped_closes ≤ 0 =
            ground (arith, c.stopped_once, moves.not_done, c.total) in
          unfold moved in
          IsServed-mono _ (unfold moved in le) none_closed
            (tell-IsServed (state_eq to failed) (failure s) _ _ m.listeners c.served);
    }

become_healthy-IsConsistent :
    (m after : Manager)
    → IsMoved m after
    → all_running after ≡ true
    → IsConsistent (become_healthy after)
unfolding become_healthy
become_healthy-IsConsistent m after h e = record {
  some_services = h.some_services;
  total = h.total;
  state_right = ground arith;
  flag_right = ground arith;
  healthy_once = ground (arith, h.settles, h.total, h.healthy_closes);
  stopped_once = ground (arith, h.not_stopped, h.total, h.some_services);
  served =
      IsServed-mono _ (ground (arith, h.not_stopped)) (ground (arith, h.not_stopped))
        (notify_listeners-IsServed to_healthy false _ _ after.listeners h.served);
}

become_stopped-IsConsistent :
    (m after : Manager)
    → IsMoved m after
    → all_running after ≡ false
    → all_done after ≡ true
    → IsConsistent (become_stopped after)
unfolding become_stopped
become_stopped-IsConsistent m after h e d = record {
  some_services = h.some_services;
  total = h.total;
  state_right = ground arith;
  flag_right = ground (arith, h.some_services);
  healthy_once = ground (arith, h.healthy_closes, h.flag, h.some_services);
  stopped_once = ground (arith, h.not_stopped);
  served =
      IsServed-mono _ (ground (arith, h.not_stopped)) (ground (arith, h.not_stopped))
        (notify_listeners-IsServed to_stopped true _ _ after.listeners h.served);
}

become_unknown-IsConsistent :
    (m after : Manager)
    → IsMoved m after
    → all_running after ≡ false
    → all_done after ≡ false
    → IsConsistent (become_unknown (ltb 0 (done_count after) || ltb 0 (stopping_count after)) after)
unfolding become_unknown
become_unknown-IsConsistent m after h e d = record {
  some_services = h.some_services;
  total = h.total;
  state_right = ground arith;
  flag_right = ground (arith, h.flag, h.settles);
  healthy_once = ground (arith, h.healthy_closes, h.flag, h.settles);
  stopped_once = ground (arith, h.not_stopped);
  served = IsServed-mono _ (ground (arith, h.not_stopped)) (ground (arith, h.not_stopped)) h.served;
}

changed-IsConsistent :
    (s : ℕ) (from to : State) (m : Manager)
    → is_forward from to ≡ true
    → contains (m.by_state from) s ≡ true
    → IsConsistent m
    → IsConsistent (service_state_changed s from to m)
unfolding service_state_changed switch_counts
changed-IsConsistent s from to m f there c =
    let after = moved s from to m in
    let h = moved-IsMoved s from to m f there c in
    elim (Bool-cases (all_running after)) [
      | inl e ↦ rw e (become_healthy-IsConsistent m after h e)
      | inr e ↦ rw e (elim (Bool-cases (all_done after)) [
        | inl d ↦ rw d (become_stopped-IsConsistent m after h e d)
        | inr d ↦ rw d (become_unknown-IsConsistent m after h e d)
      ])
    ]

add_listener-IsConsistent : (m : Manager) → IsConsistent m → IsConsistent (add_listener m)
unfolding add_listener
add_listener-IsConsistent m c = elim (Bool-cases (is_stopped m)) [
  | inl e ↦ unfold is_stopped in rw e c
  | inr e ↦
      unfold is_stopped in
      rw e (record {
        some_services = c.some_services;
        total = c.total;
        state_right = c.state_right;
        flag_right = c.flag_right;
        healthy_once = c.healthy_once;
        stopped_once = c.stopped_once;
        served =
            All-append (IsServed _ _) m.listeners (record { sent = []; closes = 0 } ∷ []) c.served
              ((omega arith, omega arith), tt);
      })
]

new_manager-IsConsistent :
    (state_of : ℕ → State) (services : List ℕ) {m : Manager}
    → new_manager state_of services ≡ some m
    → IsConsistent m
unfolding new_manager with_services
new_manager-IsConsistent state_of [] e = cc
new_manager-IsConsistent state_of (s ∷ rest) e = ground arith

pub Reachable-IsConsistent : {m : Manager} → Reachable m → IsConsistent m
Reachable-IsConsistent (created state_of services e) = new_manager-IsConsistent state_of services e
Reachable-IsConsistent (changed s from to r f there) =
    changed-IsConsistent s from to _ f there (Reachable-IsConsistent r)
Reachable-IsConsistent (listened r) = add_listener-IsConsistent _ (Reachable-IsConsistent r)
