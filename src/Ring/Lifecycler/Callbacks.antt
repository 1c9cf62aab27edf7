-- ===== src/Ring/Lifecycler/Callbacks.antt =====
-- ring/lifecycler.go: verifyTokens, compareTokens, autoJoin, updateConsul, changeState,
-- ClaimTokensFor and unregister, each as the callback that it passes to CAS and as the whole call.
use dskit.Base.{
  Bool, List, Option, String, [], false, if◌then◌else◌, length, nat_eq, none, some, string_eq, true,
  ℕ, ◌&&◌, ◌++◌, ◌-◌, ◌==◌,
}
use dskit.Base.Int.{int_eq}
use dskit.Base.Sort.{sort}
use dskit.Base.Maps.{insert, lookup}
use dskit.Ring.Types.{Desc, InstanceState, active, instance_at, joining, leaving, pending}
use mathlib.Core.Option
use dskit.Kv.{CasOut, CasRun, CasEnd, keep_value, store, refuse, kv_cas}
use dskit.Ring.Desc.{remove_ingester, claim_tokens}
use dskit.Ring.Update.{tokens_for}
use dskit.Ring.Tokens.{generate_tokens, same_elements}
use dskit.Ring.Lifecycler.{
  CallEnv, Called, Lifecycler, LifecyclerConfig, add_self, init_ring_call, ring_of, sorted_ring,
  unix, update_counters,
}

-- A CAS on the key of the ring as it ran.
abbrev pub RingRun : Type 0
RingRun = CasRun CallEnv Desc

-- The lifecycler and the ring after an operation, and whether it returned no error.
pub record RingOutcome : Type 0 where
  pub lifecycler : Lifecycler
  pub ring : Option Desc
  pub no_error : Bool

-- the last lines of `initRing`, `autoJoin` and `updateConsul`
unfoldable pub then_update_counters :
    LifecyclerConfig → ℕ → CasEnd (Lifecycler × Desc) Desc → RingOutcome
unfolding update_counters
then_update_counters cfg now_ns e = record {
  lifecycler = if e.no_error then update_counters cfg now_ns e.caller.1 e.caller.0 else e.caller.0;
  ring = e.value;
  no_error = e.no_error;
}

-- A CAS whose callback keeps the variable `ringDesc`, and the counters after it.
unfoldable pub cas_and_count :
    LifecyclerConfig
    → (CallEnv → Option Desc → Lifecycler × Desc → Option Called)
    → RingRun
    → ℕ
    → Option Desc
    → Lifecycler
    → Option RingOutcome
unfolding then_update_counters kv_cas
cas_and_count cfg callback run now_ns ring l =
    Option.map (then_update_counters cfg now_ns) (kv_cas callback run ring (l, ring_of none))

-- `initRing`
unfoldable pub init_ring :
    LifecyclerConfig → List ℕ → RingRun → ℕ → Option Desc → Lifecycler → Option RingOutcome
unfolding cas_and_count init_ring_call
init_ring cfg tokens_from_file = cas_and_count cfg (init_ring_call cfg tokens_from_file)

-- the callback of `updateConsul`
unfoldable pub update_consul_call :
    LifecyclerConfig → CallEnv → Option Desc → Lifecycler × Desc → Option Called
update_consul_call cfg env seen (l, old) =
    let d = ring_of seen in
    let d' : Desc = elim (lookup cfg.id d.ingesters) [
      | none ↦ add_self cfg env d l
      | some i ↦ record {
        ingesters =
            insert cfg.id
              (record i {
                timestamp = unix env;
                state = l.state;
                addr = cfg.addr;
                zone = cfg.zone;
                registered_timestamp = l.registered_at;
              })
              d.ingesters;
      }
    ] in
    some ((l, d'), store d')

-- `updateConsul`, which is the heartbeat
unfoldable pub update_consul :
    LifecyclerConfig → RingRun → ℕ → Option Desc → Lifecycler → Option RingOutcome
unfolding cas_and_count update_consul_call
update_consul cfg = cas_and_count cfg (update_consul_call cfg)

-- the transitions that `changeState` lets through
unfoldable pub can_change : InstanceState → InstanceState → Bool
can_change pending joining = true
can_change joining pending = true
can_change joining active = true
can_change pending active = true
can_change active leaving = true
can_change _ _ = false

-- `changeState`
unfoldable pub change_state :
    LifecyclerConfig → InstanceState → RingRun → ℕ → Option Desc → Lifecycler → Option RingOutcome
unfolding can_change update_consul
change_state cfg state run now_ns ring l =
    if can_change l.state state
    then update_consul cfg run now_ns ring (record l { state = state })
    else some (record { lifecycler = l; ring = ring; no_error = false })

-- the tokens that `verifyTokens` and `autoJoin` register: those of the ring, and new ones
unfoldable pub with_new_tokens : ℕ → List ℕ → List ℕ → List ℕ → Option (List ℕ)
unfolding generate_tokens
with_new_tokens num_tokens ring_tokens taken_tokens drawn =
    Option.map (λ new_tokens. sort (ring_tokens ++ new_tokens))
      (generate_tokens (num_tokens - length ring_tokens) taken_tokens drawn)

-- the callback of `autoJoin`
unfoldable pub auto_join_call :
    LifecyclerConfig → InstanceState → CallEnv → Option Desc → Lifecycler × Desc → Option Called
unfolding with_new_tokens tokens_for
auto_join_call cfg target_state env seen (l, old) =
    let d = ring_of seen in
    let (my_tokens, taken_tokens) = tokens_for d cfg.id in
    elim (with_new_tokens cfg.num_tokens my_tokens taken_tokens env.drawn) [
      | none ↦ none
      | some my_tokens' ↦
          let l' = record l { state = target_state; tokens = my_tokens' } in
          let d' = add_self cfg env (sorted_ring d) l' in some ((l', d'), store d')
    ]

-- `autoJoin`
unfoldable pub auto_join :
    LifecyclerConfig → InstanceState → RingRun → ℕ → Option Desc → Lifecycler → Option RingOutcome
unfolding cas_and_count auto_join_call
auto_join cfg target_state = cas_and_count cfg (auto_join_call cfg target_state)

-- `compareTokens`, which sorts the lifecycler's tokens in place
unfoldable pub compare_tokens : List ℕ → Lifecycler → Lifecycler × Bool
unfolding same_elements
compare_tokens from_ring l = (
  record l { tokens = sort l.tokens },
  length l.tokens == length from_ring && same_elements (sort l.tokens) (sort from_ring),
)

-- the callback of `verifyTokens`, which keeps the variable `result`
unfoldable pub verify_tokens_call :
    LifecyclerConfig
    → CallEnv
    → Option Desc
    → Lifecycler × Bool
    → Option ((Lifecycler × Bool) × CasOut Desc)
unfolding compare_tokens with_new_tokens tokens_for
verify_tokens_call cfg env seen (l, result) =
    let d = ring_of seen in
    let (ring_tokens, taken_tokens) = tokens_for d cfg.id in
    let (l1, owned) = compare_tokens ring_tokens l in
    if owned
    then some ((l1, true), keep_value)
    else elim (with_new_tokens cfg.num_tokens ring_tokens taken_tokens env.drawn) [
      | none ↦ none
      | some ring_tokens' ↦
          let l2 = record l1 { tokens = ring_tokens' } in
          some ((l2, result), store (add_self cfg env (sorted_ring d) l2))
    ]

-- the last lines of `verifyTokens`: the outcome, and its result
unfoldable pub verified : CasEnd (Lifecycler × Bool) Desc → RingOutcome × Bool
verified e = (
  record { lifecycler = e.caller.0; ring = e.value; no_error = e.no_error },
  e.no_error && e.caller.1,
)

-- `verifyTokens`
unfoldable pub verify_tokens :
    LifecyclerConfig → RingRun → Option Desc → Lifecycler → Option (RingOutcome × Bool)
unfolding verify_tokens_call verified kv_cas
verify_tokens cfg run ring l =
    Option.map verified (kv_cas (verify_tokens_call cfg) run ring (l, false))

-- the callback of `ClaimTokensFor`, which keeps the variable `tokens`; sorting it sorts them in the
-- ring too
unfoldable pub claim_tokens_call :
    LifecyclerConfig → String → CallEnv → Option Desc → List ℕ → Option (List ℕ × CasOut Desc)
unfolding claim_tokens
claim_tokens_call cfg from env none tokens = some (tokens, refuse)
claim_tokens_call cfg from env (some d) tokens =
    let (d', claimed) = claim_tokens d from cfg.id in
    let ing = record (instance_at cfg.id d'.ingesters) {
      timestamp = unix env;
      tokens = sort claimed;
    } in
    some (sort claimed, store (record { ingesters = insert cfg.id ing d'.ingesters }))

-- the last lines of `ClaimTokensFor`, which keep what the last call claimed, and return no error
unfoldable pub claimed_by : Lifecycler → CasEnd (List ℕ) Desc → RingOutcome
claimed_by l e = record {
  lifecycler = record l { tokens = e.caller };
  ring = e.value;
  no_error = true;
}

-- `ClaimTokensFor`
unfoldable pub claim_tokens_for :
    LifecyclerConfig → String → RingRun → Option Desc → Lifecycler → Option RingOutcome
unfolding claim_tokens_call claimed_by kv_cas
claim_tokens_for cfg from run ring l =
    Option.map (claimed_by l) (kv_cas (claim_tokens_call cfg from) run ring [])

-- the callback of `unregister`
unfoldable pub unregister_call :
    LifecyclerConfig → CallEnv → Option Desc → Unit {0} → Option (Unit {0} × CasOut Desc)
unfolding remove_ingester
unregister_call cfg env none u = some (u, refuse)
unregister_call cfg env (some d) u = some (u, store (remove_ingester d cfg.id))

-- `unregister`: the ring after it, and whether there was no error
unfoldable pub unregister : LifecyclerConfig → RingRun → Option Desc → Option (Option Desc × Bool)
unfolding unregister_call kv_cas
unregister cfg run ring =
    Option.map (λ (e : CasEnd (Unit {0}) Desc). (e.value, e.no_error))
      (kv_cas (unregister_call cfg) run ring tt)
