-- ===== src/Ring/BasicLifecycler/Updated.antt =====
-- ring/basic_lifecycler.go: the lifecycler and its entry after a heartbeat.
use dskit.Base.{
  ==_iff, Bool, List, Option, [], ap, arith, nat_eq, refl, some, string_eq, true, ℕ, ◌∙◌, ◌∷◌, ◌≡◌,
}
use dskit.Base.Maps.{insert, lookup, lookup-insert}
use dskit.Ring.Types.{Desc, InstanceDesc}
use mathlib.Core.Option
use dskit.Kv.{attempt_all, end_cas, store}
use dskit.Kv.Calls.{attempt_all-cons, kv_cas_lem}
use dskit.Ring.Lifecycler.{CallEnv, ring_of, unix}
use dskit.Ring.BasicLifecycler.{
  BasicConfig, Current, Delegate, InstanceOutcome, Vars, entry_or_added, finish_update,
  heartbeat_fn, is_registered, keep_instance, start_vars, update_call,
}
use dskit.Ring.BasicLifecycler.Phases.{heartbeat}

-- The end of a callback that has changed its entry stores the entry that it keeps.
finish_update_stores :
    (cfg : BasicConfig) (env : CallEnv) (ok : Bool) (prev_timestamp : ℕ) (d : Desc) (v : Vars)
    → v.instance_desc.timestamp ≡ unix env
    → (d' : Desc) × (finish_update cfg env ok prev_timestamp (d, v, true) ≡ (v, store d'))
      × (lookup cfg.id d'.ingesters ≡ some v.instance_desc)
unfolding finish_update
finish_update_stores cfg env ok prev_timestamp d v h = (
  record { ingesters = insert cfg.id v.instance_desc d.ingesters },
  ground arith,
  ground (arith, lookup-insert cfg.id cfg.id v.instance_desc d.ingesters, ==_iff cfg.id cfg.id),
)

-- A call of the heartbeat's callback stores the entry that it keeps, with the time of the call.
heartbeat_call_stores :
    (cfg : BasicConfig) (delegate : Delegate) (env : CallEnv) (seen : Option Desc) (v : Vars)
    → (v' : Vars) × (d' : Desc) × (update_call cfg (heartbeat_fn delegate) env seen v
        ≡ some (v', store d'))
      × (lookup cfg.id d'.ingesters ≡ some v'.instance_desc)
      × (v'.instance_desc.timestamp ≡ unix env)
unfolding update_call heartbeat_fn
heartbeat_call_stores cfg delegate env seen v =
    let d = ring_of seen in
    let existing = lookup cfg.id d.ingesters in
    let (d1, i) = entry_or_added cfg env d v.current existing in
    let (d2, j) = delegate.on_heartbeat env.now_ns d1 i in
    let v' : Vars = record v { instance_desc = record j { timestamp = unix env } } in
    let (d', ends, found) =
      finish_update_stores cfg env (is_registered existing) i.timestamp d2 v' refl in
    (v', d', ap some ends, found, refl)

heartbeat_attempts :
    (cfg : BasicConfig) (delegate : Delegate) (attempts : List (CallEnv × Option Desc)) (v : Vars)
    → (v' : Vars) × (attempt_all (update_call cfg (heartbeat_fn delegate)) attempts v ≡ some v')
unfolding attempt_all
heartbeat_attempts cfg delegate [] v = (v, refl)
heartbeat_attempts cfg delegate ((env, seen) ∷ attempts) v =
    let (v1, d1, ran, found, time) = heartbeat_call_stores cfg delegate env seen v in
    let (v', rest) = heartbeat_attempts cfg delegate attempts v1 in
    (
      v',
      attempt_all-cons (update_call cfg (heartbeat_fn delegate)) env seen attempts v v1 (store d1)
            ran
          ∙ rest,
    )

-- A heartbeat that the store commits returns no error, whether the ring still had the instance or
-- not; the lifecycler's instance is then its entry in the ring, with the time of the last call,
-- whatever the delegate does to the two.
pub heartbeat_lem :
    (cfg : BasicConfig) (delegate : Delegate) (attempts : List (CallEnv × Option Desc))
    (env : CallEnv) (ring : Option Desc) (current : Current)
    → (o : InstanceOutcome) × (i : InstanceDesc) × (heartbeat cfg delegate
          (record { attempts = attempts; last_call = some env })
          ring
          current
        ≡ some o)
      × (o.no_error ≡ true)
      × (o.current ≡ some i)
      × (lookup cfg.id (ring_of o.ring).ingesters ≡ some i)
      × (i.timestamp ≡ unix env)
unfolding heartbeat
heartbeat_lem cfg delegate attempts env ring current =
    let f = update_call cfg (heartbeat_fn delegate) in
    let (v1, tried) = heartbeat_attempts cfg delegate attempts (start_vars current) in
    let (v', d', ran, found, time) = heartbeat_call_stores cfg delegate env ring v1 in
    (
      keep_instance (end_cas ring v' (store d')),
      v'.instance_desc,
      ap (Option.map keep_instance)
          (kv_cas_lem f attempts env ring (start_vars current) v1 v' (store d') tried ran),
      unfold keep_instance in unfold end_cas in refl,
      unfold keep_instance in unfold end_cas in refl,
      unfold keep_instance in unfold end_cas in found,
      time,
    )
