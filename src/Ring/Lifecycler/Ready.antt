-- ===== src/Ring/Lifecycler/Ready.antt =====
-- ring/lifecycler.go: CheckReady, checkRingHealthForReadiness and the two flags of a shutdown.
use dskit.Base.{
  Bool, List, Option, [], if◌then◌else◌, length, ltb, nat_eq, none, some, string_eq, true, ℕ, ◌&&◌,
  ◌-◌, ◌==◌, ◌∷◌,
}
use dskit.Base.Maps.{lookup}
use dskit.Ring.Types.{Desc}
use mathlib.Core.Option
use dskit.Ring.Desc.{NotReady, instance_is_ready, is_ready}
use dskit.Ring.Lifecycler.{Lifecycler, LifecyclerConfig}

-- The errors of `CheckReady`, without their texts.
pub data ReadyError : Type 0 where
  owns_no_tokens store_error no_ring not_in_ring waiting : ReadyError
  not_ready : NotReady → ReadyError

-- What `KVStore.Get` returns: an error, or a value that may be missing.
pub data Got : Type 0 where
  get_error : Got
  got : Option Desc → Got

-- the end of `checkRingHealthForReadiness`
unfoldable pub check_ring : LifecyclerConfig → ℕ → Desc → Option ReadyError
unfolding instance_is_ready is_ready
check_ring cfg now_ns ring_desc =
    if cfg.readiness_check_ring_health
    then Option.map not_ready (is_ready ring_desc now_ns cfg.heartbeat_timeout)
    else elim (lookup cfg.id ring_desc.ingesters) [
      | none ↦ some not_in_ring
      | some i ↦ Option.map not_ready (instance_is_ready i now_ns cfg.heartbeat_timeout)
    ]

unfoldable pub check_got : LifecyclerConfig → ℕ → Got → Option ReadyError
unfolding check_ring
check_got cfg now_ns get_error = some store_error
check_got cfg now_ns (got none) = some no_ring
check_got cfg now_ns (got (some ring_desc)) = check_ring cfg now_ns ring_desc

-- `checkRingHealthForReadiness`; `none` is no error
unfoldable pub check_ring_health : LifecyclerConfig → ℕ → Got → Lifecycler → Option ReadyError
unfolding check_got
check_ring_health cfg now_ns g l =
    if length l.tokens == 0 then some owns_no_tokens else check_got cfg now_ns g

-- `CheckReady` once the checks have passed; the clock that is read twice in it stands still
unfoldable pub check_duration : LifecyclerConfig → ℕ → Lifecycler → Lifecycler × Option ReadyError
check_duration cfg now_ns l =
    let since : ℕ = elim l.ready_since [ none ↦ now_ns | some t ↦ t ] in
    let l1 = record l { ready_since = some since } in
    if ltb (now_ns - since) cfg.min_ready_duration
    then (l1, some waiting)
    else (record l1 { ready = true }, none)

-- `CheckReady`
unfoldable pub check_ready :
    LifecyclerConfig → ℕ → Got → Lifecycler → Lifecycler × Option ReadyError
unfolding check_ring_health check_duration
check_ready cfg now_ns g l =
    if l.ready then (l, none) else elim (check_ring_health cfg now_ns g l) [
      | some e ↦ (record l { ready_since = none }, some e)
      | none ↦ check_duration cfg now_ns l
    ]

-- `SetFlushOnShutdown`
unfoldable pub set_flush_on_shutdown : Bool → Lifecycler → Lifecycler
set_flush_on_shutdown flush l = record l { flush_on_shutdown = flush }

-- `SetUnregisterOnShutdown`
unfoldable pub set_unregister_on_shutdown : Bool → Lifecycler → Lifecycler
set_unregister_on_shutdown enabled l = record l { unregister_on_shutdown = enabled }

-- `processShutdown`: whether it calls Flush, if TransferOut returned an error or not
unfoldable pub process_shutdown : Bool → Lifecycler → Bool
process_shutdown transfer_failed l = transfer_failed && l.flush_on_shutdown

-- A call of CheckReady: the clock, and what the store returns for the ring.
abbrev pub ReadyCall : Type 0
ReadyCall = ℕ × Got

-- the lifecycler after a sequence of calls
unfoldable pub check_all : LifecyclerConfig → List ReadyCall → Lifecycler → Lifecycler
unfolding check_ready
check_all cfg [] l = l
check_all cfg ((now_ns, g) ∷ calls) l = check_all cfg calls (check_ready cfg now_ns g l).0
