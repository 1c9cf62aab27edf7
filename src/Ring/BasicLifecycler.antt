-- ===== src/Ring/BasicLifecycler.antt =====
-- ring/basic_lifecycler.go: BasicLifecycler, which leaves the choice of states and tokens to a
-- delegate. An operation is a CAS on the key of the ring, whose callback changes the variables below.
use dskit.Base.{
  Bool, List, Option, String, [], false, if◌then◌else◌, map, nat_eq, none, not, some, string_eq,
  true, ℕ, ◌&&◌, ◌==◌,
}
use dskit.Base.Int.{pos, ℤ}
use dskit.Base.Sort.{sort}
use dskit.Base.Maps.{insert, lookup}
use dskit.Ring.Types.{
  Desc, InstanceDesc, InstanceState, instance_at, pending, state_eq, zero_instance,
}
use mathlib.Core.Option
pub mod Phases
pub mod Delegates
mod Updated
mod Forgotten
mod Examples
use dskit.Kv.{CasEnd, CasOut, kv_cas, keep_value, store}
use dskit.Ring.Desc.{add_ingester, get_registered_at, zero_time}
use dskit.Ring.Update.{tokens_for}
use dskit.Ring.Tokens.{tokens_equals}
use dskit.Ring.Lifecycler.{CallEnv, ring_of, sorted_ring, unix}
use dskit.Ring.Lifecycler.Callbacks.{RingRun, with_new_tokens}

-- `BasicLifecyclerConfig`
pub record BasicConfig : Type 0 where
  pub id : String
  pub addr : String
  pub zone : String
  pub heartbeat_period : ℕ
  pub tokens_observe_period : ℕ
  pub num_tokens : ℕ
  pub keep_instance_in_the_ring_on_shutdown : Bool

-- The state of `BasicLifecycler`: `currInstanceDesc`, or `none` for nil.
abbrev pub Current : Type 0
Current = Option InstanceDesc

-- `GetState`
unfoldable pub current_state : Current → InstanceState
current_state none = pending
current_state (some i) = i.state

-- `GetTokens`
unfoldable pub current_tokens : Current → List ℕ
current_tokens none = []
current_tokens (some i) = i.tokens

-- `GetRegisteredAt`
unfoldable pub current_registered_at : Current → ℤ
unfolding get_registered_at
current_registered_at none = zero_time
current_registered_at (some i) = get_registered_at i

-- `IsRegistered`
unfoldable pub is_registered : Current → Bool
is_registered none = false
is_registered (some i) = true

-- `BasicLifecyclerDelegate`: what its methods compute. `on_tokens` lists the files that it stores,
-- with their tokens, and `on_stopping` the states that it changes to.
pub record Delegate : Type 0 where
  pub on_register : Current → Desc → Bool → String → InstanceDesc → InstanceState × List ℕ
  pub on_tokens : List ℕ → List (String × List ℕ)
  pub on_stopping : List InstanceState
  pub on_heartbeat : ℕ → Desc → InstanceDesc → Desc × InstanceDesc

-- The variables of an operation: the lifecycler, `instanceDesc`, and the `result` of verifyTokens.
pub record Vars : Type 0 where
  pub current : Current
  pub instance_desc : InstanceDesc
  pub result : Bool

abbrev pub Called : Type 0
Called = Vars × CasOut Desc

-- The lifecycler and the ring after an operation, and its two results.
pub record InstanceOutcome : Type 0 where
  pub current : Current
  pub ring : Option Desc
  pub no_error : Bool
  pub result : Bool

-- the time of registration that `registerInstance` keeps or sets
unfoldable pub registration : CallEnv → Option InstanceDesc → ℤ
unfolding get_registered_at
registration env none = pos (unix env)
registration env (some i) = get_registered_at i

-- the callback of `registerInstance`
unfoldable pub register_call : BasicConfig → Delegate → CallEnv → Option Desc → Vars → Option Called
unfolding registration is_registered
register_call cfg delegate env seen v =
    let d = ring_of seen in
    let existing = lookup cfg.id d.ingesters in
    let (state, tokens) =
      delegate.on_register v.current d (is_registered existing) cfg.id
        (instance_at cfg.id d.ingesters) in
    let (d', i) =
      add_ingester (unix env) d cfg.id cfg.addr cfg.zone (sort tokens) state
        (registration env existing) in
    some (record v { instance_desc = i }, store d')

-- What the function that `updateInstance` is given leaves: the ring, the variables, and its result.
abbrev pub Changed : Type 0
Changed = Desc × Vars × Bool

abbrev pub UpdateFn : Type 0
UpdateFn = CallEnv → Desc → Vars → Option Changed

-- the end of the callback of `updateInstance`
unfoldable pub finish_update : BasicConfig → CallEnv → Bool → ℕ → Changed → Called
finish_update cfg env ok prev_timestamp (d, v, changed) =
    let i = v.instance_desc in
    let i' : InstanceDesc =
      if i.timestamp == prev_timestamp then record i { timestamp = unix env } else i in
    if ok && not changed then (v, keep_value) else (
      record v { instance_desc = i' },
      store (record { ingesters = insert cfg.id i' d.ingesters }),
    )

-- the entry that `updateInstance` starts from, in a ring that has it
unfoldable pub entry_or_added :
    BasicConfig → CallEnv → Desc → Current → Option InstanceDesc → Desc × InstanceDesc
unfolding current_tokens current_state current_registered_at
entry_or_added cfg env d current (some i) = (d, i)
entry_or_added cfg env d current none =
    add_ingester (unix env) d cfg.id cfg.addr cfg.zone (current_tokens current)
      (current_state current) (current_registered_at current)

-- the callback of `updateInstance`
unfoldable pub update_call : BasicConfig → UpdateFn → CallEnv → Option Desc → Vars → Option Called
unfolding entry_or_added finish_update is_registered
update_call cfg update env seen v =
    let d = ring_of seen in
    let existing = lookup cfg.id d.ingesters in
    let (d1, i) = entry_or_added cfg env d v.current existing in
    Option.map (finish_update cfg env (is_registered existing) i.timestamp)
      (update env d1 (record v { instance_desc = i }))

-- the last lines of `registerInstance` and `updateInstance`
unfoldable pub keep_instance : CasEnd Vars Desc → InstanceOutcome
keep_instance e = record {
  current = if e.no_error then some e.caller.instance_desc else e.caller.current;
  ring = e.value;
  no_error = e.no_error;
  result = e.no_error && e.caller.result;
}

abbrev pub start_vars : Current → Vars
start_vars current = record { current = current; instance_desc = zero_instance; result = false }

-- `registerInstance`
unfoldable pub register_instance :
    BasicConfig → Delegate → RingRun → Option Desc → Current → Option InstanceOutcome
unfolding register_call keep_instance kv_cas
register_instance cfg delegate run ring current =
    Option.map keep_instance (kv_cas (register_call cfg delegate) run ring (start_vars current))

-- `updateInstance`
unfoldable pub update_instance :
    BasicConfig → UpdateFn → RingRun → Option Desc → Current → Option InstanceOutcome
unfolding update_call keep_instance kv_cas
update_instance cfg update run ring current =
    Option.map keep_instance (kv_cas (update_call cfg update) run ring (start_vars current))

-- the function of `heartbeat`
unfoldable pub heartbeat_fn : Delegate → UpdateFn
heartbeat_fn delegate env d v =
    let (d', i) = delegate.on_heartbeat env.now_ns d v.instance_desc in
    some (d', record v { instance_desc = record i { timestamp = unix env } }, true)

-- the function of `changeState`
unfoldable pub change_state_fn : InstanceState → UpdateFn
change_state_fn state env d v =
    if state_eq v.instance_desc.state state
    then some (d, v, false)
    else some (d, record v { instance_desc = record v.instance_desc { state = state } }, true)

-- the lifecycler's tokens, which Equals sorts in place
abbrev pub with_tokens : List ℕ → Current → Current
with_tokens tokens = Option.map (λ (i : InstanceDesc). record i { tokens = tokens })

-- the function of `verifyTokens`; reading the tokens sorts them in the ring and in `instanceDesc`
unfoldable pub verify_fn : BasicConfig → UpdateFn
unfolding with_new_tokens tokens_for tokens_equals current_tokens
verify_fn cfg env d v =
    let (actual, taken) = tokens_for d cfg.id in
    let (same, actual', mine) = tokens_equals actual (current_tokens v.current) in
    let current' = with_tokens mine v.current in
    if same
    then some (
      sorted_ring d,
      record {
        current = current';
        instance_desc = record v.instance_desc { tokens = actual' };
        result = true;
      },
      false,
    )
    else Option.map
        (λ (tokens : List ℕ). (
          sorted_ring d,
          record v {
            current = current';
            instance_desc = record v.instance_desc { tokens = tokens };
          },
          true,
        ))
        (with_new_tokens cfg.num_tokens actual' taken env.drawn)
