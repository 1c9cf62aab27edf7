-- ===== src/Ring/Lifecycler/Shutdown.antt =====
-- ring/lifecycler.go: what stopping leaves of an instance.
use dskit.Base.{
  ==_iff, Bool, List, Option, Option-cases, [], arith, false, inl, inr, nat_eq, none, refl, some,
  string_eq, subst, sym, true, ℕ, ◌∷◌, ◌≡◌,
}
use dskit.Base.Maps.{lookup, lookup-delete}
use dskit.Ring.Types.{Desc, active, leaving}
use dskit.Kv.{CasEnd, attempt_all, kv_cas, end_cas, last_attempt}
use dskit.Kv.Calls.{kv_cas_failed}
use dskit.Ring.Desc.{remove_ingester}
use dskit.Ring.Lifecycler.{CallEnv, Lifecycler, LifecyclerConfig, ring_of, update_counters}
use dskit.Ring.Lifecycler.Callbacks.{
  RingOutcome, RingRun, can_change, change_state, unregister, unregister_call, update_consul,
}
use dskit.Ring.Lifecycler.Heartbeat.{update_consul_cases}
use dskit.Ring.Lifecycler.Loop.{
  StopEvent, beat, heartbeat_loop, maybe_unregister, others, stop_step, stopping,
}

-- What an instance that stops keeps to: the state LEAVING, and the flag that it began with.
abbrev Leaves : Bool → Lifecycler → Type 0
Leaves flag l = (l.state ≡ leaving) × (l.unregister_on_shutdown ≡ flag)

counted-Leaves :
    (cfg : LifecyclerConfig) (now_ns : ℕ) (d : Desc) (flag : Bool) (l : Lifecycler)
    → Leaves flag l
    → Leaves flag (update_counters cfg now_ns d l)
unfolding update_counters
counted-Leaves cfg now_ns d flag l h = h

beat-Leaves :
    (cfg : LifecyclerConfig) (run : RingRun) (now_ns : ℕ) (ring : Option Desc) (flag : Bool)
    (l : Lifecycler) (o : RingOutcome)
    → Leaves flag l
    → update_consul cfg run now_ns ring l ≡ some o
    → Leaves flag o.lifecycler
beat-Leaves cfg run now_ns ring flag l o h r =
    elim (update_consul_cases cfg run now_ns ring l o r) [
      | inl same ↦ subst (Leaves flag) (sym same) h
      | inr (d, same) ↦ subst (Leaves flag) (sym same) (counted-Leaves cfg now_ns d flag l h)
    ]

stop_step-Leaves :
    (cfg : LifecyclerConfig) (e : StopEvent) (flag : Bool) (o u : RingOutcome)
    → Leaves flag o.lifecycler
    → stop_step cfg e o ≡ some u
    → Leaves flag u.lifecycler
unfolding stop_step
stop_step-Leaves cfg (beat run now_ns) flag o u h r =
    beat-Leaves cfg run now_ns o.ring flag o.lifecycler u h r
stop_step-Leaves cfg (others ring) flag o u h r = (ground arith, ground arith)

heartbeat_loop-Leaves :
    (cfg : LifecyclerConfig) (events : List StopEvent) (flag : Bool) (o u : RingOutcome)
    → Leaves flag o.lifecycler
    → heartbeat_loop cfg events o ≡ some u
    → Leaves flag u.lifecycler
unfolding heartbeat_loop
heartbeat_loop-Leaves cfg [] flag o u h r = (ground arith, ground arith)
heartbeat_loop-Leaves cfg (e ∷ events) flag o u h r = elim (Option-cases (stop_step cfg e o)) [
  | inl out ↦ absurd (ground arith)
  | inr (o', ran) ↦
      heartbeat_loop-Leaves cfg events flag o' u (stop_step-Leaves cfg e flag o o' h ran)
        (ground arith)
]

removed :
    (cfg : LifecyclerConfig) (d : Desc) → lookup cfg.id (remove_ingester d cfg.id).ingesters ≡ none
unfolding remove_ingester
removed cfg d = ground (arith, lookup-delete cfg.id cfg.id d.ingesters, ==_iff cfg.id cfg.id)

last_removes :
    (cfg : LifecyclerConfig) (env : CallEnv) (ring : Option Desc) (u : Unit {0})
    (e : CasEnd (Unit {0}) Desc)
    → last_attempt (unregister_call cfg) (some env) ring u ≡ some e
    → e.no_error ≡ true
    → lookup cfg.id (ring_of e.value).ingesters ≡ none
unfolding last_attempt end_cas unregister_call
last_removes cfg env none u e h fine = absurd (ground arith)
last_removes cfg env (some d) u e h fine =
    let same : some (remove_ingester d cfg.id) ≡ e.value = ground arith in
    subst (λ v. lookup cfg.id (ring_of v).ingesters ≡ none) same (removed cfg d)

cas_removes :
    (cfg : LifecyclerConfig) (attempts : List (CallEnv × Option Desc)) (last : Option CallEnv)
    (ring : Option Desc) (e : CasEnd (Unit {0}) Desc)
    → kv_cas (unregister_call cfg) (record { attempts = attempts; last_call = last }) ring tt
      ≡ some e
    → e.no_error ≡ true
    → lookup cfg.id (ring_of e.value).ingesters ≡ none
unfolding kv_cas
cas_removes cfg attempts none ring e h fine =
    let (kept, failed) = kv_cas_failed (unregister_call cfg) attempts ring tt e h in cc
cas_removes cfg attempts (some env) ring e h fine =
    elim (Option-cases (attempt_all (unregister_call cfg) attempts tt)) [
      | inl out ↦ absurd (ground arith)
      | inr (u, ran) ↦ last_removes cfg env ring u e (ground arith) fine
    ]

-- `unregister` that returns no error leaves a ring without the instance.
unregister_lem :
    (cfg : LifecyclerConfig) (run : RingRun) (ring after : Option Desc)
    → unregister cfg run ring ≡ some (after, true)
    → lookup cfg.id (ring_of after).ingesters ≡ none
unfolding unregister
unregister_lem cfg run ring after h =
    elim (Option-cases (kv_cas (unregister_call cfg) run ring tt)) [
      | inl out ↦ absurd (ground arith)
      | inr (e, ran) ↦
          let same : e.value ≡ after = ground arith in
          subst (λ v. lookup cfg.id (ring_of v).ingesters ≡ none) same
            (cas_removes cfg run.attempts run.last_call ring e ran (ground arith))
    ]

maybe_unregister_lem :
    (cfg : LifecyclerConfig) (run : RingRun) (flag : Bool) (o u : RingOutcome)
    → Leaves flag o.lifecycler
    → maybe_unregister cfg run o ≡ some u
    → (u.lifecycler.state ≡ leaving)
      × (flag ≡ true → u.no_error ≡ true → lookup cfg.id (ring_of u.ring).ingesters ≡ none)
      × (flag ≡ false → u.ring ≡ o.ring)
unfolding maybe_unregister
maybe_unregister_lem cfg run true o u h r = elim (Option-cases (unregister cfg run o.ring)) [
  | inl out ↦ absurd (ground arith)
  | inr ((ring, fine), ran) ↦ (
    ground arith,
    λ on no_error.
        let same : ring ≡ u.ring = ground arith in
        let ok_ring : unregister cfg run o.ring ≡ some (ring, true) = ground arith in
        subst (λ v. lookup cfg.id (ring_of v).ingesters ≡ none) same
          (unregister_lem cfg run o.ring ring ok_ring),
    λ off. cc,
  )
]
maybe_unregister_lem cfg run false o u h r = (ground arith, λ on. cc, λ off. ground arith)

-- what `stopping` does once it has left: its outcome, from one that keeps to LEAVING and to the flag
stopping_cases :
    (cfg : LifecyclerConfig) (leave_run : RingRun) (now_ns : ℕ) (events : List StopEvent)
    (unregister_run : RingRun) (ring : Option Desc) (l : Lifecycler) (u : RingOutcome)
    → stopping cfg leave_run now_ns events unregister_run ring l ≡ some u
    → l.state ≡ active
    → (o : RingOutcome) × Leaves l.unregister_on_shutdown o.lifecycler
      × (maybe_unregister cfg unregister_run o ≡ some u)
unfolding stopping
stopping_cases cfg leave_run now_ns events unregister_run ring l u h is_active =
    let flag = l.unregister_on_shutdown in
    let allowed : can_change l.state leaving ≡ true = rw is_active (unfold can_change in refl) in
    elim (Option-cases (change_state cfg leaving leave_run now_ns ring l)) [
      | inl out ↦ absurd (ground arith)
      | inr (o, left_it) ↦
          let beats : update_consul cfg leave_run now_ns ring (record l { state = leaving })
              ≡ some o =
            unfold change_state in ground arith in
          let leaves : Leaves flag o.lifecycler =
            beat-Leaves cfg leave_run now_ns ring flag (record l { state = leaving }) o (refl, refl)
              beats in
          elim (Option-cases (heartbeat_loop cfg events o)) [
            | inl out ↦ absurd (ground arith)
            | inr (o', looped) ↦
                (o', heartbeat_loop-Leaves cfg events flag o o' leaves looped, ground arith)
          ]
    ]

-- An ACTIVE instance that stops ends LEAVING, whatever comes of its heartbeats and whatever others
-- write meanwhile.
pub stopping-leaving :
    (cfg : LifecyclerConfig) (leave_run : RingRun) (now_ns : ℕ) (events : List StopEvent)
    (unregister_run : RingRun) (ring : Option Desc) (l : Lifecycler) (u : RingOutcome)
    → stopping cfg leave_run now_ns events unregister_run ring l ≡ some u
    → l.state ≡ active
    → u.lifecycler.state ≡ leaving
stopping-leaving cfg leave_run now_ns events unregister_run ring l u h is_active =
    let (o, leaves, ends) =
      stopping_cases cfg leave_run now_ns events unregister_run ring l u h is_active in
    (maybe_unregister_lem cfg unregister_run l.unregister_on_shutdown o u leaves ends).0

-- An ACTIVE instance that is to unregister, and stops without an error, has no entry in the ring
-- afterwards, whatever came of its heartbeats and whatever others wrote meanwhile.
pub stopping-unregistered :
    (cfg : LifecyclerConfig) (leave_run : RingRun) (now_ns : ℕ) (events : List StopEvent)
    (unregister_run : RingRun) (ring : Option Desc) (l : Lifecycler) (u : RingOutcome)
    → stopping cfg leave_run now_ns events unregister_run ring l ≡ some u
    → l.state ≡ active
    → l.unregister_on_shutdown ≡ true
    → u.no_error ≡ true
    → lookup cfg.id (ring_of u.ring).ingesters ≡ none
stopping-unregistered cfg leave_run now_ns events unregister_run ring l u h is_active on fine =
    let (o, leaves, ends) =
      stopping_cases cfg leave_run now_ns events unregister_run ring l u h is_active in
    (maybe_unregister_lem cfg unregister_run l.unregister_on_shutdown o u leaves ends).1 on fine
