-- ===== src/Ring/BasicLifecycler/Phases.antt =====
-- ring/basic_lifecycler.go: the operations on the entry, and starting, running and stopping as steps
-- that the timers, the requests and the other writers of the ring choose.
use dskit.Base.{
  Bool, List, Option, [], false, if◌then◌else◌, length, ltb, none, some, true, ℕ, ◌&&◌, ◌∷◌,
}
use dskit.Ring.Types.{Desc, InstanceState}
use mathlib.Core.Option
use dskit.Kv.{CasEnd, CasOut, kv_cas, refuse, store}
use dskit.Ring.Desc.{remove_ingester}
use dskit.Ring.Lifecycler.{CallEnv}
use dskit.Ring.Lifecycler.Callbacks.{RingRun}
use dskit.Ring.BasicLifecycler.{
  BasicConfig, Current, Delegate, InstanceOutcome, change_state_fn, current_tokens, heartbeat_fn,
  register_instance, update_instance, verify_fn,
}

-- `verifyTokens`, whose result is that of the outcome
unfoldable pub verify_tokens :
    BasicConfig → RingRun → Option Desc → Current → Option InstanceOutcome
unfolding update_instance verify_fn
verify_tokens cfg = update_instance cfg (verify_fn cfg)

-- `heartbeat`
unfoldable pub heartbeat :
    BasicConfig → Delegate → RingRun → Option Desc → Current → Option InstanceOutcome
unfolding update_instance heartbeat_fn
heartbeat cfg delegate = update_instance cfg (heartbeat_fn delegate)

-- `changeState`
unfoldable pub change_state :
    BasicConfig → InstanceState → RingRun → Option Desc → Current → Option InstanceOutcome
unfolding update_instance change_state_fn
change_state cfg state = update_instance cfg (change_state_fn state)

-- the callback of `unregisterInstance`
unfoldable pub unregister_call :
    BasicConfig → CallEnv → Option Desc → Unit {0} → Option (Unit {0} × CasOut Desc)
unfolding remove_ingester
unregister_call cfg env none u = some (u, refuse)
unregister_call cfg env (some d) u = some (u, store (remove_ingester d cfg.id))

-- the last lines of `unregisterInstance`
unfoldable pub forget_instance : Current → CasEnd (Unit {0}) Desc → InstanceOutcome
forget_instance current e = record {
  current = if e.no_error then none else current;
  ring = e.value;
  no_error = e.no_error;
  result = false;
}

-- `unregisterInstance`
unfoldable pub unregister_instance :
    BasicConfig → RingRun → Option Desc → Current → Option InstanceOutcome
unfolding unregister_call forget_instance kv_cas
unregister_instance cfg run ring current =
    Option.map (forget_instance current) (kv_cas (unregister_call cfg) run ring tt)

-- What the three loops select: the observe period, a heartbeat, a request to change the state (or the
-- delegate that does so), or what others write to the ring meanwhile.
pub data Event : Type 0 where
  observe : RingRun → Event
  beat : RingRun → Event
  change : InstanceState → RingRun → Event
  others_write : Option Desc → Event

-- the world of the lifecycler
pub record World : Type 0 where
  pub current : Current
  pub ring : Option Desc

abbrev pub world_of : InstanceOutcome → World
world_of o = record { current = o.current; ring = o.ring }

-- What a round of `waitStableTokens` comes to: it goes on, or the tokens are verified.
abbrev pub Waiting : Type 0
Waiting = World × Bool

-- the cases that the loops share
unfoldable pub loop_case : BasicConfig → Delegate → Event → World → Option World
unfolding heartbeat change_state
loop_case cfg delegate (observe run) w = some w
loop_case cfg delegate (beat run) w =
    Option.map world_of (heartbeat cfg delegate run w.ring w.current)
loop_case cfg delegate (change state run) w =
    Option.map world_of (change_state cfg state run w.ring w.current)
loop_case cfg delegate (others_write ring) w = some (record w { ring = ring })

-- a round of `waitStableTokens`
unfoldable pub wait_case : BasicConfig → Delegate → Event → World → Option Waiting
unfolding verify_tokens loop_case
wait_case cfg delegate (observe run) w =
    Option.map (λ (o : InstanceOutcome). (world_of o, o.result))
      (verify_tokens cfg run w.ring w.current)
wait_case cfg delegate (beat run) w =
    Option.map (λ (v : World). (v, false)) (loop_case cfg delegate (beat run) w)
wait_case cfg delegate (change state run) w = some (w, false)
wait_case cfg delegate (others_write ring) w = some (record w { ring = ring }, false)

-- `waitStableTokens`; when the events are over, the context is cancelled
unfoldable pub wait_stable_tokens : BasicConfig → Delegate → List Event → World → Option Waiting
unfolding wait_case
wait_stable_tokens cfg delegate [] w = some (w, false)
wait_stable_tokens cfg delegate (e ∷ events) w = elim (wait_case cfg delegate e w) [
  | none ↦ none
  | some (v, true) ↦ some (v, true)
  | some (v, false) ↦ wait_stable_tokens cfg delegate events v
]

-- What `starting` leaves: the world, the tokens that the delegate is told of, and whether there was
-- no error.
pub record Started : Type 0 where
  pub world : World
  pub told : List ℕ
  pub no_error : Bool

-- the second half of `starting`
unfoldable pub wait_if_needed : BasicConfig → Delegate → List Event → World → Option Waiting
unfolding wait_stable_tokens current_tokens
wait_if_needed cfg delegate events w =
    let waited = wait_stable_tokens cfg delegate events w in
    if ltb 0 (length (current_tokens w.current)) && ltb 0 cfg.tokens_observe_period
    then waited
    else some (w, true)

-- its end, which tells the delegate the tokens if there are some
unfoldable pub tell_tokens : Waiting → Started
unfolding current_tokens
tell_tokens (w, true) = record { world = w; told = current_tokens w.current; no_error = true }
tell_tokens (w, false) = record { world = w; told = []; no_error = false }

unfoldable pub after_register :
    BasicConfig → Delegate → List Event → InstanceOutcome → Option Started
unfolding wait_if_needed tell_tokens
after_register cfg delegate events o =
    if o.no_error
    then Option.map tell_tokens (wait_if_needed cfg delegate events (world_of o))
    else some (record { world = world_of o; told = []; no_error = false })

-- `starting`
unfoldable pub starting :
    BasicConfig → Delegate → RingRun → List Event → Option Desc → Option Started
unfolding register_instance after_register
starting cfg delegate run events ring = elim (register_instance cfg delegate run ring none) [
  | none ↦ none
  | some o ↦ after_register cfg delegate events o
]

-- `running`, and the heartbeats of `stopping` with the changes that the delegate makes meanwhile
unfoldable pub run_loop : BasicConfig → Delegate → List Event → World → Option World
unfolding loop_case
run_loop cfg delegate [] w = some w
run_loop cfg delegate (e ∷ events) w = elim (loop_case cfg delegate e w) [
  | none ↦ none
  | some v ↦ run_loop cfg delegate events v
]

-- `stopping` of a lifecycler that ran without an error
unfoldable pub stopping :
    BasicConfig → Delegate → List Event → RingRun → World → Option (World × Bool)
unfolding run_loop unregister_instance
stopping cfg delegate events run w = elim (run_loop cfg delegate events w) [
  | none ↦ none
  | some v ↦
      if cfg.keep_instance_in_the_ring_on_shutdown
      then some (v, true)
      else Option.map (λ (o : InstanceOutcome). (world_of o, o.no_error))
          (unregister_instance cfg run v.ring v.current)
]
