-- ===== src/Ring/Lifecycler/Heartbeat.antt =====
-- ring/lifecycler.go: what updateConsul, changeState and unregister leave in the ring.
use dskit.Base.{
  ==_iff, Bool-cases, List, Option, Option-cases, String, [], arith, if◌then◌else◌, inl, inr,
  nat_eq, none, refl, some, string_eq, true, ℕ, ◌==◌, ◌∙◌, ◌∷◌, ◌≡◌, ◌≢◌, ◌⊎◌,
}
use dskit.Base.Int.{int_eq, pos}
use dskit.Base.Maps.{insert, lookup, lookup-insert}
use dskit.Ring.Types.{Desc, InstanceDesc}
use dskit.Kv.{CasEnd, attempt_all, kv_cas, end_cas, store}
use dskit.Kv.Calls.{attempt_all-cons, kv_cas_lem, kv_cas-keeps}
use dskit.Ring.Desc.{add_ingester, get_registered_at, zero_time}
use dskit.Ring.Lifecycler.{
  CallEnv, Lifecycler, LifecyclerConfig, add_self, ring_of, unix, update_counters,
}
use dskit.Ring.Lifecycler.Callbacks.{
  RingOutcome, RingRun, cas_and_count, then_update_counters, update_consul, update_consul_call,
}

-- An entry that says of an instance what the lifecycler knows of it.
pub record Tells (cfg : LifecyclerConfig) (env : CallEnv) (l : Lifecycler) (i : InstanceDesc)
    : Type 0 where
  pub its_state : i.state ≡ l.state
  pub its_addr : i.addr ≡ cfg.addr
  pub its_zone : i.zone ≡ cfg.zone
  pub its_time : i.timestamp ≡ unix env

-- the ring that a call of the heartbeat's callback stores
heartbeat_ring : LifecyclerConfig → CallEnv → Desc → Lifecycler → Desc
heartbeat_ring cfg env d l = elim (lookup cfg.id d.ingesters) [
  | none ↦ add_self cfg env d l
  | some i ↦ record {
    ingesters =
        insert cfg.id
          (record i {
            timestamp = unix env;
            state = l.state;
            addr = cfg.addr;
            zone = cfg.zone;
            registered_timestamp = l.registered_at;
          })
          d.ingesters;
  }
]

-- the tokens of its entry before it, or the lifecycler's if it has none
abbrev pub tokens_before : LifecyclerConfig → Desc → Lifecycler → List ℕ
tokens_before cfg d l = elim (lookup cfg.id d.ingesters) [ none ↦ l.tokens | some i ↦ i.tokens ]

heartbeat_ring-lookup :
    (cfg : LifecyclerConfig) (env : CallEnv) (d : Desc) (l : Lifecycler)
    → l.registered_at ≢ pos 0
    → (i : InstanceDesc) × (Tells cfg env l i)
      × (get_registered_at i ≡ l.registered_at)
      × (i.tokens ≡ tokens_before cfg d l)
      × ((id : String)
          → lookup id (heartbeat_ring cfg env d l).ingesters
            ≡ (if cfg.id == id then some i else lookup id d.ingesters))
unfolding heartbeat_ring add_ingester get_registered_at
heartbeat_ring-lookup cfg env d l known = elim (Option-cases (lookup cfg.id d.ingesters)) [
  | inl missing ↦ (
    (add_ingester (unix env) d cfg.id cfg.addr cfg.zone l.tokens l.state l.registered_at).1,
    record { its_state = refl; its_addr = refl; its_zone = refl; its_time = refl },
    ground (arith, ==_iff l.registered_at zero_time, ==_iff l.registered_at (pos 0)),
    ground arith,
    λ id. ground (
      arith,
      lookup-insert cfg.id id
          (add_ingester (unix env) d cfg.id cfg.addr cfg.zone l.tokens l.state l.registered_at).1
          d.ingesters,
    ),
  )
  | inr (i, found) ↦
      let i' : InstanceDesc = record i {
        timestamp = unix env;
        state = l.state;
        addr = cfg.addr;
        zone = cfg.zone;
        registered_timestamp = l.registered_at;
      } in
      (
        i',
        record { its_state = refl; its_addr = refl; its_zone = refl; its_time = refl },
        ground (arith, ==_iff l.registered_at (pos 0)),
        ground arith,
        λ id. ground (arith, lookup-insert cfg.id id i' d.ingesters),
      )
]

update_consul_call_lem :
    (cfg : LifecyclerConfig) (env : CallEnv) (seen : Option Desc) (l : Lifecycler) (old : Desc)
    → let d = heartbeat_ring cfg env (ring_of seen) l in
      update_consul_call cfg env seen (l, old) ≡ some ((l, d), store d)
unfolding update_consul_call heartbeat_ring
update_consul_call_lem cfg env seen l old = refl

attempts_keep_lifecycler :
    (cfg : LifecyclerConfig) (attempts : List (CallEnv × Option Desc)) (l : Lifecycler) (d : Desc)
    → (d' : Desc) × (attempt_all (update_consul_call cfg) attempts (l, d) ≡ some (l, d'))
unfolding attempt_all
attempts_keep_lifecycler cfg [] l d = (d, refl)
attempts_keep_lifecycler cfg ((env, seen) ∷ attempts) l d =
    let d1 = heartbeat_ring cfg env (ring_of seen) l in
    let (d', ran) = attempts_keep_lifecycler cfg attempts l d1 in
    (
      d',
      attempt_all-cons (update_consul_call cfg) env seen attempts (l, d) (l, d1) (store d1)
            (update_consul_call_lem cfg env seen l d)
          ∙ ran,
    )

update_consul_stores :
    (cfg : LifecyclerConfig) (attempts : List (CallEnv × Option Desc)) (env : CallEnv) (now_ns : ℕ)
    (ring : Option Desc) (l : Lifecycler)
    → let d = heartbeat_ring cfg env (ring_of ring) l in
      update_consul cfg (record { attempts = attempts; last_call = some env }) now_ns ring l
      ≡ some
          (record { lifecycler = update_counters cfg now_ns d l; ring = some d; no_error = true })
unfolding update_consul cas_and_count
update_consul_stores cfg attempts env now_ns ring l =
    let (d', ran) = attempts_keep_lifecycler cfg attempts l (ring_of none) in
    let d = heartbeat_ring cfg env (ring_of ring) l in
    rw
      (kv_cas_lem (update_consul_call cfg) attempts env ring (l, ring_of none) (l, d') (l, d)
        (store d) ran (update_consul_call_lem cfg env ring l d'))
      (unfold then_update_counters in unfold end_cas in refl)

-- A heartbeat that the store commits, of an instance that did not register in the second 1970 began
-- with, returns no error and leaves an entry that tells the lifecycler's state, address, zone and
-- time of registration and the time of the last call. It has the tokens of the entry before it, or
-- the lifecycler's if there was none. No other entry changes, and the counters are those of the new
-- ring.
pub update_consul_lem :
    (cfg : LifecyclerConfig) (attempts : List (CallEnv × Option Desc)) (env : CallEnv) (now_ns : ℕ)
    (ring : Option Desc) (l : Lifecycler)
    → l.registered_at ≢ pos 0
    → (d : Desc) × (i : InstanceDesc) × (update_consul cfg
          (record { attempts = attempts; last_call = some env })
          now_ns
          ring
          l
        ≡ some (record {
          lifecycler = update_counters cfg now_ns d l;
          ring = some d;
          no_error = true;
        }))
      × Tells cfg env l i
      × (get_registered_at i ≡ l.registered_at)
      × (i.tokens ≡ tokens_before cfg (ring_of ring) l)
      × ((id : String)
          → lookup id d.ingesters
            ≡ (if cfg.id == id then some i else lookup id (ring_of ring).ingesters))
update_consul_lem cfg attempts env now_ns ring l known =
    let (i, tells, registered, its_tokens, others) =
      heartbeat_ring-lookup cfg env (ring_of ring) l known in
    (
      heartbeat_ring cfg env (ring_of ring) l,
      i,
      update_consul_stores cfg attempts env now_ns ring l,
      tells,
      registered,
      its_tokens,
      others,
    )

then_update_counters_cases :
    (cfg : LifecyclerConfig) (now_ns : ℕ) (e : CasEnd (Lifecycler × Desc) Desc) (l : Lifecycler)
    → e.caller.0 ≡ l
    → let o = then_update_counters cfg now_ns e in
      (o.lifecycler ≡ l) ⊎ ((d : Desc) × (o.lifecycler ≡ update_counters cfg now_ns d l))
unfolding then_update_counters
then_update_counters_cases cfg now_ns e l same = elim (Bool-cases e.no_error) [
  | inl fine ↦ inr (e.caller.1, rw (fine, same))
  | inr error ↦ inl (rw (error, same))
]

-- However a heartbeat ends, the lifecycler is the same but for its counters.
pub update_consul_cases :
    (cfg : LifecyclerConfig) (run : RingRun) (now_ns : ℕ) (ring : Option Desc) (l : Lifecycler)
    (o : RingOutcome)
    → update_consul cfg run now_ns ring l ≡ some o
    → (o.lifecycler ≡ l) ⊎ ((d : Desc) × (o.lifecycler ≡ update_counters cfg now_ns d l))
unfolding update_consul cas_and_count
update_consul_cases cfg run now_ns ring l o h =
    elim (Option-cases (kv_cas (update_consul_call cfg) run ring (l, ring_of none))) [
      | inl out ↦ ground arith
      | inr (e, ran) ↦
          let same : e.caller.0 ≡ l =
            kv_cas-keeps (update_consul_call cfg) (λ s. s.0 ≡ l)
              (λ env seen (l1, old) s' out p r.
                ground (arith, update_consul_call_lem cfg env seen l1 old))
              run ring (l, ring_of none) e refl ran in
          let o_is : then_update_counters cfg now_ns e ≡ o = ground arith in
          rw (← o_is) (then_update_counters_cases cfg now_ns e l same)
    ]
