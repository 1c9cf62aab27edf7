-- ===== src/Ring/Lifecycler/Transitions.antt =====
-- ring/lifecycler.go: how each operation changes the state of the lifecycler, however its CAS ends.
use dskit.Base.{
  Bool, Bool-cases, Option, Option-cases, arith, false, inl, inr, none, refl, some, subst, true, ℕ,
  ◌∙◌, ◌≡◌, ◌⊎◌,
}
use dskit.Ring.Types.{Desc, InstanceState}
use dskit.Kv.{CasEnd, CasOut, kv_cas}
use dskit.Kv.Calls.{kv_cas-keeps}
use dskit.Ring.Update.{tokens_for}
use dskit.Ring.Lifecycler.{CallEnv, Called, Lifecycler, LifecyclerConfig, ring_of, update_counters}
use dskit.Ring.Lifecycler.Callbacks.{
  RingOutcome, RingRun, auto_join, auto_join_call, can_change, cas_and_count, change_state,
  compare_tokens, then_update_counters, update_consul, update_consul_call, verified, verify_tokens,
  verify_tokens_call, with_new_tokens,
}

-- A state stays, or a transition leads to the next.
abbrev pub Follows : InstanceState → InstanceState → Type 0
Follows s t = (s ≡ t) ⊎ (can_change s t ≡ true)

counted_state :
    (cfg : LifecyclerConfig) (now_ns : ℕ) (d : Desc) (l : Lifecycler)
    → (update_counters cfg now_ns d l).state ≡ l.state
unfolding update_counters
counted_state cfg now_ns d l = refl

module _ (cfg : LifecyclerConfig)
    (callback : CallEnv → Option Desc → Lifecycler × Desc → Option Called)
    (P : InstanceState → Type 0)
    (keeps : (e : CallEnv) (seen : Option Desc) (s s' : Lifecycler × Desc) (out : CasOut Desc)
      → P s.0.state
      → callback e seen s ≡ some (s', out)
      → P s'.0.state) where
  then_counters_state :
      (now_ns : ℕ) (e : CasEnd (Lifecycler × Desc) Desc) (o : RingOutcome)
      → then_update_counters cfg now_ns e ≡ o
      → P e.caller.0.state
      → P o.lifecycler.state
  unfolding then_update_counters
  then_counters_state now_ns e o h p =
      let same : e.caller.0.state ≡ o.lifecycler.state =
        ground (arith, counted_state cfg now_ns e.caller.1 e.caller.0) in
      subst P same p

  cas_and_count-keeps :
      (run : RingRun) (now_ns : ℕ) (ring : Option Desc) (l : Lifecycler) (o : RingOutcome)
      → P l.state
      → cas_and_count cfg callback run now_ns ring l ≡ some o
      → P o.lifecycler.state
  unfolding cas_and_count
  cas_and_count-keeps run now_ns ring l o p h =
      elim (Option-cases (kv_cas callback run ring (l, ring_of none))) [
        | inl out ↦ ground arith
        | inr (e, ran) ↦
            then_counters_state now_ns e o (ground arith)
              (kv_cas-keeps callback (λ s. P s.0.state) keeps run ring (l, ring_of none) e p ran)
      ]

pub update_consul_state :
    (cfg : LifecyclerConfig) (run : RingRun) (now_ns : ℕ) (ring : Option Desc) (l : Lifecycler)
    (o : RingOutcome)
    → update_consul cfg run now_ns ring l ≡ some o
    → o.lifecycler.state ≡ l.state
unfolding update_consul
update_consul_state cfg run now_ns ring l o h =
    cas_and_count-keeps cfg (update_consul_call cfg) (λ s. s ≡ l.state)
      (λ e seen (l1, old) (l2, d) out p r. unfold update_consul_call in ground arith) run now_ns
      ring l o refl h

pub change_state-Follows :
    (cfg : LifecyclerConfig) (state : InstanceState) (run : RingRun) (now_ns : ℕ)
    (ring : Option Desc) (l : Lifecycler) (o : RingOutcome)
    → change_state cfg state run now_ns ring l ≡ some o
    → Follows l.state o.lifecycler.state
unfolding change_state
change_state-Follows cfg state run now_ns ring l o h =
    elim (Bool-cases (can_change l.state state)) [
      | inl allowed ↦
          let e : o.lifecycler.state ≡ state =
            update_consul_state cfg run now_ns ring (record l { state = state }) o (ground arith) in
          inr (rw e allowed)
      | inr refused ↦ inl (ground arith)
    ]

auto_join_call_state :
    (cfg : LifecyclerConfig) (target : InstanceState) (env : CallEnv) (seen : Option Desc)
    (s s' : Lifecycler × Desc) (out : CasOut Desc)
    → auto_join_call cfg target env seen s ≡ some (s', out)
    → s'.0.state ≡ target
unfolding auto_join_call
auto_join_call_state cfg target env seen (l, old) (l', d') out h =
    let (mine, taken) = tokens_for (ring_of seen) cfg.id in
    elim (Option-cases (with_new_tokens cfg.num_tokens mine taken env.drawn)) [
      | inl drawing ↦ ground arith
      | inr (tokens, drawn) ↦ ground arith
    ]

pub auto_join_state :
    (cfg : LifecyclerConfig) (target : InstanceState) (run : RingRun) (now_ns : ℕ)
    (ring : Option Desc) (l : Lifecycler) (o : RingOutcome)
    → auto_join cfg target run now_ns ring l ≡ some o
    → (l.state ≡ o.lifecycler.state) ⊎ (o.lifecycler.state ≡ target)
unfolding auto_join
auto_join_state cfg target run now_ns ring l o h =
    cas_and_count-keeps cfg (auto_join_call cfg target) (λ s. (l.state ≡ s) ⊎ (s ≡ target))
      (λ e seen s s' out p r. inr (auto_join_call_state cfg target e seen s s' out r)) run now_ns
      ring l o (inl refl) h

verify_tokens_call_state :
    (cfg : LifecyclerConfig) (env : CallEnv) (seen : Option Desc) (s s' : Lifecycler × Bool)
    (out : CasOut Desc)
    → verify_tokens_call cfg env seen s ≡ some (s', out)
    → s'.0.state ≡ s.0.state
unfolding verify_tokens_call
verify_tokens_call_state cfg env seen (l, old) (l', result) out h =
    let (mine, taken) = tokens_for (ring_of seen) cfg.id in
    elim (Bool-cases (compare_tokens mine l).1) [
      | inl owned ↦ unfold compare_tokens in ground arith
      | inr lost ↦ elim (Option-cases (with_new_tokens cfg.num_tokens mine taken env.drawn)) [
        | inl drawing ↦ unfold compare_tokens in ground arith
        | inr (tokens, drawn) ↦ unfold compare_tokens in ground arith
      ]
    ]

pub verify_tokens_state :
    (cfg : LifecyclerConfig) (run : RingRun) (ring : Option Desc) (l : Lifecycler) (o : RingOutcome)
    (result : Bool)
    → verify_tokens cfg run ring l ≡ some (o, result)
    → o.lifecycler.state ≡ l.state
unfolding verify_tokens verified
verify_tokens_state cfg run ring l o result h =
    elim (Option-cases (kv_cas (verify_tokens_call cfg) run ring (l, false))) [
      | inl out ↦ ground arith
      | inr (e, ran) ↦
          let same : e.caller.0.state ≡ l.state =
            kv_cas-keeps (verify_tokens_call cfg) (λ s. s.0.state ≡ l.state)
              (λ env seen s s' out p r. verify_tokens_call_state cfg env seen s s' out r ∙ p) run
              ring (l, false) e refl ran in
          ground arith
    ]
