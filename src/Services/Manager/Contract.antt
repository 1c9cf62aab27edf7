-- ===== src/Services/Manager/Contract.antt =====
-- What a manager promises to those who ask, wait and listen.
use dskit.Base.{All, All-map, ap, arith, length, true, ◌+◌, ◌↔◌, ◌≡◌, ◌≢◌, ◌≤◌}
use dskit.Services.Manager.{
  manager_state_number, Manager, running_count, stopping_count, done_count, is_healthy, is_stopped,
  ok, blocked, await_healthy, await_stopped,
}
use dskit.Services.Manager.Reach.{Reachable, IsServed, Reachable-IsConsistent}

-- Of the services of a manager, each of which changes its state forward from the state in which the
-- manager has it, at any time and in any order: the manager is healthy exactly if all of them are
-- running, and stopped exactly if all have terminated or failed. Neither of its channels is closed
-- twice, nor is the channel of a listener, and a listener is never sent more events than its buffer
-- holds, one for each service and two more.
pub manager_contract :
    {m : Manager}
    → Reachable m
    → ((is_healthy m ≡ true) ↔ (running_count m ≡ length m.services))
      × ((is_stopped m ≡ true) ↔ (done_count m ≡ length m.services))
      × (m.healthy_closes ≤ 1)
      × (m.stopped_closes ≤ 1)
      × All (λ l. (length l.sent ≤ length m.services + 2) × (l.closes ≤ 1)) m.listeners
unfolding is_healthy is_stopped
manager_contract {m} r =
    let c = Reachable-IsConsistent r in
    let h = ap manager_state_number c.state_right in
    (
      (λ e. ground arith, λ e. ground arith),
      (λ e. ground arith, λ e. ground (arith, c.some_services, c.total)),
      ground (arith, c.healthy_once),
      ground (arith, c.stopped_once),
      All-map (IsServed _ _) (λ l. (length l.sent ≤ length m.services + 2) × (l.closes ≤ 1))
          (λ l (p, q). (
            ground (arith, c.healthy_once, c.stopped_once, c.total),
            ground (arith, c.stopped_once),
          ))
          m.listeners c.served,
    )

-- What an awaiting goroutine learns, at any time: AwaitHealthy waits exactly while no service is
-- stopping, terminated or failed and not all are running; it returns nil exactly if all are running.
-- AwaitStopped waits exactly until all services have terminated or failed, and returns nil then.
pub await_lem :
    {m : Manager}
    → Reachable m
    → ((await_healthy m ≡ blocked)
        ↔ ((stopping_count m + done_count m ≡ 0) × (running_count m ≢ length m.services)))
      × ((await_healthy m ≡ ok) ↔ (running_count m ≡ length m.services))
      × ((await_stopped m ≡ blocked) ↔ (done_count m ≢ length m.services))
      × ((await_stopped m ≡ ok) ↔ (done_count m ≡ length m.services))
unfolding await_healthy await_stopped is_healthy
await_lem {m} r =
    let c = Reachable-IsConsistent r in
    let h = ap manager_state_number c.state_right in
    (
      (
        λ e. (ground (arith, c.healthy_once), λ all. ground (arith, c.healthy_once)),
        λ (e, d). ground (arith, c.healthy_once),
      ),
      (λ e. ground arith, λ e. ground (arith, c.healthy_once)),
      (λ e d. ground (arith, c.stopped_once), λ e. ground (arith, c.stopped_once)),
      (λ e. ground (arith, c.stopped_once), λ e. ground (arith, c.stopped_once)),
    )
