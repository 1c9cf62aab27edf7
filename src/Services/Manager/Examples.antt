-- ===== src/Services/Manager/Examples.antt =====
-- The theorems on managers at a concrete life of two services.
use dskit.Base.{All, [], false, length, refl, true, ◌+◌, ◌↔◌, ◌∷◌, ◌≡◌, ◌≢◌, ◌≤◌}
use dskit.Services.Basic.{new, starting, running, failed}
use dskit.Services.Manager.{
  Manager, is_healthy, is_stopped, running_count, stopping_count, done_count, service_state_changed,
  add_listener, new_manager, with_services, blocked, ok, not_healthy, await_healthy, await_stopped,
  unknown,
}
use dskit.Services.Manager.Contract.{manager_contract, await_lem}
use dskit.Services.Manager.Reach.{Reachable, created, changed, listened}

abbrev at_first : Manager
at_first = record {
  services = 1 ∷ 2 ∷ [];
  healthy_closes = 0;
  stopped_closes = 0;
  state = unknown;
  by_state = with_services new (1 ∷ 2 ∷ []) (λ t. []);
  healthy_closed = false;
  listeners = [];
}

at_first-Reachable : Reachable at_first
unfolding new_manager
at_first-Reachable = created (λ s. new) (1 ∷ 2 ∷ []) refl

abbrev watched : Manager
watched = add_listener at_first

abbrev one_failed : Manager
one_failed =
    service_state_changed 2 new failed
      (service_state_changed 1 starting running (service_state_changed 1 new starting watched))

one_failed-Reachable : Reachable one_failed
unfolding service_state_changed add_listener
one_failed-Reachable =
    changed 2 new failed
      (changed 1 starting running (changed 1 new starting (listened at_first-Reachable) refl refl)
        refl refl)
      refl refl

manager_contract_example :
    ((is_healthy one_failed ≡ true) ↔ (running_count one_failed ≡ 2))
    × ((is_stopped one_failed ≡ true) ↔ (done_count one_failed ≡ 2))
    × (one_failed.healthy_closes ≤ 1)
    × (one_failed.stopped_closes ≤ 1)
    × All (λ l. (length l.sent ≤ 4) × (l.closes ≤ 1)) one_failed.listeners
unfolding service_state_changed add_listener
manager_contract_example = manager_contract one_failed-Reachable

await_lem_example :
    ((await_healthy one_failed ≡ blocked)
      ↔ ((stopping_count one_failed + done_count one_failed ≡ 0) × (running_count one_failed ≢ 2)))
    × ((await_healthy one_failed ≡ ok) ↔ (running_count one_failed ≡ 2))
    × ((await_stopped one_failed ≡ blocked) ↔ (done_count one_failed ≢ 2))
    × ((await_stopped one_failed ≡ ok) ↔ (done_count one_failed ≡ 2))
unfolding service_state_changed add_listener
await_lem_example = await_lem one_failed-Reachable

hopeless : await_healthy one_failed ≡ not_healthy 0 1
unfolding await_healthy service_state_changed add_listener
hopeless = refl
