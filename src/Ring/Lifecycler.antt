-- ===== src/Ring/Lifecycler.antt =====
-- ring/lifecycler.go: Lifecycler, and the callbacks by which it changes its entry of the ring.
-- A callback is a function of its environment (the clock, and what Uint32 draws), of the ring that
-- it is given, and of the variables of the lifecycler. Its result is `none` while GenerateTokens is
-- still drawing.
use dskit.Base.{
  Bool, List, Option, String, [], contains, count_if, false, if◌then◌else◌, leb, length, nat_eq,
  none, not, some, string_eq, ℕ, ◌&&◌, ◌/◌, ◌==◌, ◌∷◌,
}
use dskit.Base.Int.{int_eq, pos, ℤ}
use dskit.Base.Maps.{Map, insert, lookup}
use dskit.Ring.Types.{
  Desc, InstanceDesc, InstanceState, active, instance_at, joining, leaving, pending, state_eq,
}
use mathlib.Core.Option
pub mod Callbacks
pub mod Ready
pub mod Loop
mod Transitions
mod States
mod Heartbeat
mod Ownership
mod Claim
mod Latch
mod Shutdown
mod Init
mod Examples
use dskit.Kv.{CasOut, keep_value, store, refuse}
use dskit.Ring.Operation.{write}
use dskit.Ring.Desc.{
  zero_time, new_desc, add_ingester, remove_ingester, claim_tokens, get_registered_at, is_healthy,
}
use dskit.Ring.Update.{sort_in_place, tokens_for}
use dskit.Ring.Merge.{tokens_equal}
use dskit.Ring.Tokens.{generate_tokens, same_elements}

-- the fields of `LifecyclerConfig` and of `Lifecycler` that never change
pub record LifecyclerConfig : Type 0 where
  pub id : String
  pub addr : String
  pub zone : String
  pub num_tokens : ℕ
  pub heartbeat_period : ℕ
  pub observe_period : ℕ
  pub heartbeat_timeout : ℕ
  pub min_ready_duration : ℕ
  pub readiness_check_ring_health : Bool

-- `Lifecycler`; `ready_since` is `none` for the zero time
pub record Lifecycler : Type 0 where
  pub state : InstanceState
  pub tokens : List ℕ
  pub registered_at : ℤ
  pub ready : Bool
  pub ready_since : Option ℕ
  pub healthy_instances_count : ℕ
  pub zones_count : ℕ
  pub flush_on_shutdown : Bool
  pub unregister_on_shutdown : Bool

-- `NewLifecycler`
unfoldable pub new_lifecycler : Bool → Bool → Lifecycler
new_lifecycler flush_on_shutdown unregister_on_shutdown = record {
  state = pending;
  tokens = [];
  registered_at = zero_time;
  ready = false;
  ready_since = none;
  healthy_instances_count = 0;
  zones_count = 0;
  flush_on_shutdown = flush_on_shutdown;
  unregister_on_shutdown = unregister_on_shutdown;
}

-- The environment of a call: the clock in nanoseconds, and the numbers that are drawn.
pub record CallEnv : Type 0 where
  pub now_ns : ℕ
  pub drawn : List ℕ

-- `time.Now().Unix()`
abbrev pub unix : CallEnv → ℕ
unix env = env.now_ns / 1_000_000_000

-- the start of every callback: `in`, or a new ring
abbrev pub ring_of : Option Desc → Desc
ring_of none = record { ingesters = [] }
ring_of (some d) = d

-- Sorting tokens in place, as GetTokens does, sorts them in the ring.
abbrev pub sorted_ring : Desc → Desc
sorted_ring d = record { ingesters = sort_in_place d.ingesters }

-- the keys of the map `zones` of `updateCounters`
unfoldable pub zones_in : Map String InstanceDesc → List String
zones_in [] = []
zones_in ((id, i) ∷ m) =
    let rest = zones_in m in if contains rest i.zone then rest else i.zone ∷ rest

-- `updateCounters`
unfoldable pub update_counters : LifecyclerConfig → ℕ → Desc → Lifecycler → Lifecycler
unfolding zones_in is_healthy write
update_counters cfg now_ns d l = record l {
  healthy_instances_count =
      count_if
        (λ ((id, i) : String × InstanceDesc). is_healthy i write cfg.heartbeat_timeout now_ns)
        d.ingesters;
  zones_count = length (zones_in d.ingesters);
}

-- `InstanceDesc.Equal`, which the protobuf compiler writes
unfoldable pub instance_equal : InstanceDesc → InstanceDesc → Bool
unfolding tokens_equal
instance_equal i j =
    i.addr == j.addr
    && (i.timestamp == j.timestamp
        && (state_eq i.state j.state
            && (tokens_equal i.tokens j.tokens
                && (i.zone == j.zone && i.registered_timestamp == j.registered_timestamp))))

-- the entry that the lifecycler adds with its own state and tokens
abbrev pub add_self : LifecyclerConfig → CallEnv → Desc → Lifecycler → Desc
add_self cfg env d l =
    (add_ingester (unix env) d cfg.id cfg.addr cfg.zone l.tokens l.state l.registered_at).0

-- What a callback leaves: the lifecycler, the variable `ringDesc`, and what it returns.
abbrev pub Called : Type 0
Called = (Lifecycler × Desc) × CasOut Desc

-- `initRing` for an instance that is not in the ring
unfoldable pub init_missing : LifecyclerConfig → List ℕ → CallEnv → Desc → Lifecycler → Called
init_missing cfg [] env d l =
    let l1 = record l { registered_at = pos (unix env) } in
    let d' = (add_ingester (unix env) d cfg.id cfg.addr cfg.zone [] l1.state (pos (unix env))).0 in
    ((l1, d'), store d')
init_missing cfg (t ∷ tokens_from_file) env d l =
    let enough = leb cfg.num_tokens (length (t ∷ tokens_from_file)) in
    let l1 = record l {
      registered_at = pos (unix env);
      state = if enough then active else l.state;
      tokens = t ∷ tokens_from_file;
    } in
    let d' = add_self cfg env d l1 in ((l1, d'), store d')

-- the state that `initRing` takes over from an entry
unfoldable pub state_found : LifecyclerConfig → InstanceDesc → InstanceState
state_found cfg i =
    if state_eq i.state leaving && length i.tokens == cfg.num_tokens then active else i.state

-- `initRing` for an instance that is in the ring
unfoldable pub init_found : LifecyclerConfig → CallEnv → Desc → InstanceDesc → Lifecycler → Called
unfolding state_found instance_equal
init_found cfg env d i l =
    let l1 = record l { registered_at = get_registered_at i } in
    let entry = instance_at cfg.id (sort_in_place d.ingesters) in
    let i' = record entry { state = state_found cfg i } in
    let l2 = record l1 { state = state_found cfg i; tokens = (tokens_for d cfg.id).0 } in
    let d' : Desc = record {
      ingesters = insert cfg.id (record i' { timestamp = unix env }) (sort_in_place d.ingesters);
    } in
    if state_eq i.state joining
    then ((l1, d), store d)
    else if cfg.heartbeat_period == 0 && not (instance_equal i' entry)
    then ((l2, d'), store d')
    else ((l2, sorted_ring d), keep_value)

-- the callback of `initRing`
unfoldable pub init_ring_call :
    LifecyclerConfig → List ℕ → CallEnv → Option Desc → Lifecycler × Desc → Option Called
unfolding init_missing init_found
init_ring_call cfg tokens_from_file env seen (l, old) =
    let d = ring_of seen in
    some (elim (lookup cfg.id d.ingesters) [
      | none ↦ init_missing cfg tokens_from_file env d l
      | some i ↦ init_found cfg env d i l
    ])
