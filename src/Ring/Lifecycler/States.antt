-- ===== src/Ring/Lifecycler/States.antt =====
-- ring/lifecycler.go: how the state of the lifecycler can change while its loop runs.
use dskit.Base.{
  Bool, Bool-cases, Option, Option-cases, String, [], arith, false, inl, inr, ltb, none, refl, some,
  subst, sym, true, ℕ, ◌∙◌, ◌≡◌,
}
use dskit.Ring.Types.{
  Desc, InstanceState, active, joining, leaving, left, pending, state_eq, state_eq_iff,
}
use mathlib.Core.Option
use dskit.Kv.{kv_cas}
use dskit.Ring.Lifecycler.{Lifecycler, LifecyclerConfig}
use dskit.Ring.Lifecycler.Callbacks.{
  RingOutcome, RingRun, auto_join, can_change, change_state, claim_tokens_call, claim_tokens_for,
  claimed_by, update_consul, verify_tokens,
}
use dskit.Ring.Lifecycler.Loop.{
  Event, Reach, World, after_join, after_op, change_request, claim_request, heartbeat_tick, here,
  join_after_expired, join_step, loop_step, next, observe_expired, observe_step, observed,
  others_write, select_case,
}
use dskit.Ring.Lifecycler.Transitions.{
  Follows, auto_join_state, change_state-Follows, update_consul_state, verify_tokens_state,
}

joined-Follows :
    (cfg : LifecyclerConfig) (target : InstanceState) (observe : Bool) (run : RingRun) (now_ns : ℕ)
    (w u : World)
    → w.lifecycler.state ≡ pending
    → can_change pending target ≡ true
    → Option.map (after_join observe w) (auto_join cfg target run now_ns w.ring w.lifecycler)
      ≡ some u
    → Follows w.lifecycler.state u.lifecycler.state
unfolding after_join
joined-Follows cfg target observe run now_ns w u p allowed h =
    elim (Option-cases (auto_join cfg target run now_ns w.ring w.lifecycler)) [
      | inl out ↦ ground arith
      | inr (o, ran) ↦
          let same : u.lifecycler.state ≡ o.lifecycler.state = ground arith in
          elim (auto_join_state cfg target run now_ns w.ring w.lifecycler o ran) [
            | inl kept ↦ inl (kept ∙ sym same)
            | inr joined ↦ inr (rw (same, joined, p) allowed)
          ]
    ]

join_step-Follows :
    (cfg : LifecyclerConfig) (run : RingRun) (now_ns : ℕ) (w u : World)
    → join_step cfg run now_ns w ≡ some u
    → Follows w.lifecycler.state u.lifecycler.state
unfolding join_step
join_step-Follows cfg run now_ns w u h = elim (Bool-cases (state_eq w.lifecycler.state pending)) [
  | inr other ↦ inl (ground arith)
  | inl e ↦
      let p : w.lifecycler.state ≡ pending = (state_eq_iff w.lifecycler.state pending).0 e in
      elim (Bool-cases (ltb 0 cfg.observe_period)) [
        | inl long ↦
            joined-Follows cfg joining true run now_ns w u p (unfold can_change in refl)
              (ground arith)
        | inr short ↦
            joined-Follows cfg active false run now_ns w u p (unfold can_change in refl)
              (ground arith)
      ]
]

after_op-Follows :
    (w u : World) (o : Option RingOutcome)
    → ((r : RingOutcome) → o ≡ some r → Follows w.lifecycler.state r.lifecycler.state)
    → Option.map (after_op w) o ≡ some u
    → Follows w.lifecycler.state u.lifecycler.state
unfolding after_op
after_op-Follows w u none f h = absurd (ground arith)
after_op-Follows w u (some r) f h =
    let same : r.lifecycler.state ≡ u.lifecycler.state = ground arith in
    subst (Follows w.lifecycler.state) same (f r refl)

observed-Follows :
    (cfg : LifecyclerConfig) (run : RingRun) (now_ns : ℕ) (w u : World) (o : RingOutcome)
    (result : Bool)
    → o.lifecycler.state ≡ w.lifecycler.state
    → observed cfg run now_ns w (o, result) ≡ some u
    → Follows w.lifecycler.state u.lifecycler.state
unfolding observed
observed-Follows cfg run now_ns w u o true e h =
    after_op-Follows (record w { observing = false }) u
      (change_state cfg active run now_ns o.ring o.lifecycler)
      (λ r ran.
        subst (λ s. Follows s r.lifecycler.state) e
          (change_state-Follows cfg active run now_ns o.ring o.lifecycler r ran))
      h
observed-Follows cfg run now_ns w u o false e h = inl (unfold after_op in ground arith)

observe_step-Follows :
    (cfg : LifecyclerConfig) (verify_run change_run : RingRun) (now_ns : ℕ) (w u : World)
    → observe_step cfg verify_run change_run now_ns w ≡ some u
    → Follows w.lifecycler.state u.lifecycler.state
unfolding observe_step
observe_step-Follows cfg verify_run change_run now_ns w u h =
    elim (Option-cases (verify_tokens cfg verify_run w.ring w.lifecycler)) [
      | inl out ↦ ground arith
      | inr ((o, result), ran) ↦
          observed-Follows cfg change_run now_ns w u o result
            (verify_tokens_state cfg verify_run w.ring w.lifecycler o result ran) (ground arith)
    ]

claim_tokens_for_state :
    (cfg : LifecyclerConfig) (from : String) (run : RingRun) (ring : Option Desc) (l : Lifecycler)
    (o : RingOutcome)
    → claim_tokens_for cfg from run ring l ≡ some o
    → l.state ≡ o.lifecycler.state
unfolding claim_tokens_for claimed_by
claim_tokens_for_state cfg from run ring l o h =
    elim (Option-cases (kv_cas (claim_tokens_call cfg from) run ring [])) [
      | inl out ↦ ground arith
      | inr (e, ran) ↦ ground arith
    ]

select_case-Follows :
    (cfg : LifecyclerConfig) (event : Event) (w u : World)
    → select_case cfg event w ≡ some u
    → Follows w.lifecycler.state u.lifecycler.state
unfolding select_case
select_case-Follows cfg (join_after_expired run now_ns) w u h = elim (Bool-cases w.join_timer) [
  | inl expires ↦ join_step-Follows cfg run now_ns w u (ground arith)
  | inr expired ↦ inl (ground arith)
]
select_case-Follows cfg (observe_expired run change_run now_ns) w u h =
    elim (Bool-cases w.observing) [
      | inl expires ↦ observe_step-Follows cfg run change_run now_ns w u (ground arith)
      | inr nil ↦ inl (ground arith)
    ]
select_case-Follows cfg (heartbeat_tick run now_ns) w u h =
    after_op-Follows w u (update_consul cfg run now_ns w.ring w.lifecycler)
      (λ r ran. inl (sym (update_consul_state cfg run now_ns w.ring w.lifecycler r ran))) h
select_case-Follows cfg (change_request state run now_ns) w u h =
    after_op-Follows w u (change_state cfg state run now_ns w.ring w.lifecycler)
      (λ r ran. change_state-Follows cfg state run now_ns w.ring w.lifecycler r ran) h
select_case-Follows cfg (claim_request from run) w u h =
    after_op-Follows w u (claim_tokens_for cfg from run w.ring w.lifecycler)
      (λ r ran. inl (claim_tokens_for_state cfg from run w.ring w.lifecycler r ran)) h
select_case-Follows cfg (others_write ring) w u h = inl (ground arith)

-- Whatever the loop selects next, and however its CAS ends, the state stays or changes by one of
-- the transitions of `can_change`.
pub loop_step-Follows :
    (cfg : LifecyclerConfig) (event : Event) (w u : World)
    → loop_step cfg event w ≡ some u
    → Follows w.lifecycler.state u.lifecycler.state
unfolding loop_step
loop_step-Follows cfg event w u h = elim (Bool-cases w.in_loop) [
  | inl runs ↦ select_case-Follows cfg event w u (ground arith)
  | inr ended ↦ inl (ground arith)
]

leaving_stays : (s t : InstanceState) → Follows s t → s ≡ leaving → t ≡ leaving
unfolding can_change
leaving_stays s t (inl same) e = sym same ∙ e
leaving_stays leaving t (inr change) e = ground arith
leaving_stays active t (inr change) e = cc
leaving_stays pending t (inr change) e = cc
leaving_stays joining t (inr change) e = cc
leaving_stays left t (inr change) e = cc

-- Once LEAVING, the lifecycler stays so, whatever its loop selects.
pub Reach-leaving :
    (cfg : LifecyclerConfig) (w u : World)
    → Reach cfg w u
    → w.lifecycler.state ≡ leaving
    → u.lifecycler.state ≡ leaving
Reach-leaving cfg w u here e = e
Reach-leaving cfg w u (next {v} r event step) e =
    leaving_stays v.lifecycler.state u.lifecycler.state (loop_step-Follows cfg event v u step)
      (Reach-leaving cfg w v r e)
