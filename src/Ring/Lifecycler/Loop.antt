-- ===== src/Ring/Lifecycler/Loop.antt =====
-- ring/lifecycler.go: loop and stopping, as steps that the timers, the requests and the other
-- writers of the ring choose.
use dskit.Base.{
  Bool, List, Option, String, [], false, if◌then◌else◌, ltb, none, some, true, ℕ, ◌||◌, ◌∷◌, ◌≡◌,
}
use dskit.Ring.Types.{Desc, InstanceState, active, joining, leaving, pending, state_eq}
use mathlib.Core.Option
use dskit.Ring.Lifecycler.{Lifecycler, LifecyclerConfig}
use dskit.Ring.Lifecycler.Callbacks.{
  RingOutcome, RingRun, auto_join, change_state, claim_tokens_for, init_ring, unregister,
  update_consul, verify_tokens,
}

-- The lifecycler and the ring, with the channels of the loop: whether JoinAfter can still expire,
-- whether `observeChan` is not nil, and whether the loop goes on.
pub record World : Type 0 where
  pub lifecycler : Lifecycler
  pub ring : Option Desc
  pub join_timer : Bool
  pub observing : Bool
  pub in_loop : Bool

-- What the loop selects, with the CAS that the case runs and the clock after it; `others_write` is
-- what the other users of the ring do meanwhile.
pub data Event : Type 0 where
  join_after_expired : RingRun → ℕ → Event
  observe_expired : RingRun → RingRun → ℕ → Event
  heartbeat_tick : RingRun → ℕ → Event
  change_request : InstanceState → RingRun → ℕ → Event
  claim_request : String → RingRun → Event
  others_write : Option Desc → Event

-- the world after an operation whose error is only logged
unfoldable pub after_op : World → RingOutcome → World
after_op w o = record w { lifecycler = o.lifecycler; ring = o.ring }

-- the world after `autoJoin`, whose error ends the loop
unfoldable pub after_join : Bool → World → RingOutcome → World
after_join observe w o = record w {
  lifecycler = o.lifecycler;
  ring = o.ring;
  join_timer = false;
  observing = if o.no_error then observe || w.observing else w.observing;
  in_loop = o.no_error;
}

-- the case of `autoJoinAfter`
unfoldable pub join_step : LifecyclerConfig → RingRun → ℕ → World → Option World
unfolding after_join auto_join
join_step cfg run now_ns w =
    if state_eq w.lifecycler.state pending
    then if ltb 0 cfg.observe_period
      then Option.map (after_join true w) (auto_join cfg joining run now_ns w.ring w.lifecycler)
      else Option.map (after_join false w) (auto_join cfg active run now_ns w.ring w.lifecycler)
    else some (record w { join_timer = false })

-- the case of `observeChan`, once the tokens are verified
unfoldable pub observed : LifecyclerConfig → RingRun → ℕ → World → RingOutcome × Bool → Option World
unfolding after_op change_state
observed cfg change_run now_ns w (o, true) =
    Option.map (after_op (record w { observing = false }))
      (change_state cfg active change_run now_ns o.ring o.lifecycler)
observed cfg change_run now_ns w (o, false) = some (after_op (record w { observing = true }) o)

-- the case of `observeChan`
unfoldable pub observe_step : LifecyclerConfig → RingRun → RingRun → ℕ → World → Option World
unfolding observed verify_tokens
observe_step cfg verify_run change_run now_ns w =
    elim (verify_tokens cfg verify_run w.ring w.lifecycler) [
      | none ↦ none
      | some r ↦ observed cfg change_run now_ns w r
    ]

-- one round of `loop`
unfoldable pub select_case : LifecyclerConfig → Event → World → Option World
unfolding join_step observe_step after_op update_consul change_state claim_tokens_for
select_case cfg (join_after_expired run now_ns) w =
    if w.join_timer then join_step cfg run now_ns w else some w
select_case cfg (observe_expired verify_run change_run now_ns) w =
    if w.observing then observe_step cfg verify_run change_run now_ns w else some w
select_case cfg (heartbeat_tick run now_ns) w =
    Option.map (after_op w) (update_consul cfg run now_ns w.ring w.lifecycler)
select_case cfg (change_request state run now_ns) w =
    Option.map (after_op w) (change_state cfg state run now_ns w.ring w.lifecycler)
select_case cfg (claim_request from run) w =
    Option.map (after_op w) (claim_tokens_for cfg from run w.ring w.lifecycler)
select_case cfg (others_write ring) w = some (record w { ring = ring })

-- an event while the loop runs; afterwards only the others write
unfoldable pub loop_step : LifecyclerConfig → Event → World → Option World
unfolding select_case
loop_step cfg event w = if w.in_loop then select_case cfg event w else some w

-- `loop`, up to its first round
unfoldable pub start_loop :
    LifecyclerConfig → List ℕ → RingRun → ℕ → Option Desc → Lifecycler → Option World
unfolding init_ring
start_loop cfg tokens_from_file run now_ns ring l =
    elim (init_ring cfg tokens_from_file run now_ns ring l) [
      | none ↦ none
      | some o ↦ some (record {
        lifecycler = o.lifecycler;
        ring = o.ring;
        join_timer = true;
        observing = false;
        in_loop = o.no_error;
      })
    ]

-- the worlds that events lead to
pub data Reach (cfg : LifecyclerConfig) (w : World) : World → Type 0 where
  here : Reach cfg w w
  next :
      {v u : World}
      → Reach cfg w v
      → (event : Event) → loop_step cfg event v ≡ some u
      → Reach cfg w u

-- What happens in `stopping` until processShutdown is done.
pub data StopEvent : Type 0 where
  beat : RingRun → ℕ → StopEvent
  others : Option Desc → StopEvent

unfoldable pub stop_step : LifecyclerConfig → StopEvent → RingOutcome → Option RingOutcome
unfolding update_consul
stop_step cfg (beat run now_ns) o = update_consul cfg run now_ns o.ring o.lifecycler
stop_step cfg (others ring) o = some (record o { ring = ring })

unfoldable pub heartbeat_loop : LifecyclerConfig → List StopEvent → RingOutcome → Option RingOutcome
unfolding stop_step
heartbeat_loop cfg [] o = some o
heartbeat_loop cfg (e ∷ events) o = elim (stop_step cfg e o) [
  | none ↦ none
  | some o' ↦ heartbeat_loop cfg events o'
]

-- the end of `stopping`
unfoldable pub maybe_unregister : LifecyclerConfig → RingRun → RingOutcome → Option RingOutcome
unfolding unregister
maybe_unregister cfg run o =
    if o.lifecycler.unregister_on_shutdown
    then Option.map
        (λ ((ring, no_error) : Option Desc × Bool). record {
          lifecycler = o.lifecycler;
          ring = ring;
          no_error = no_error;
        })
        (unregister cfg run o.ring)
    else some (record o { no_error = true })

-- `stopping` when the loop ended without an error
unfoldable pub stopping :
    LifecyclerConfig
    → RingRun
    → ℕ
    → List StopEvent
    → RingRun
    → Option Desc
    → Lifecycler
    → Option RingOutcome
unfolding change_state heartbeat_loop maybe_unregister
stopping cfg leave_run now_ns events unregister_run ring l =
    elim (change_state cfg leaving leave_run now_ns ring l) [
      | none ↦ none
      | some o ↦ elim (heartbeat_loop cfg events o) [
        | none ↦ none
        | some o' ↦ maybe_unregister cfg unregister_run o'
      ]
    ]
