-- ===== src/Memberlist/Client/Cas.antt =====
-- kv/memberlist/memberlist_client.go: `CAS`. What differs from attempt to attempt is given by a
-- function on the number of attempts left: the clock, the function's reply, what other goroutines
-- do while it runs, and whether the context is done before the wait for a change is over.
use dskit.Base.{
  ==_iff, Bool, Bool-cases, Option, String, arith, false, if◌then◌else◌, inl, inr, nat_eq, none,
  refl, some, string_eq, subst, suc, sym, true, zero, ℕ, ◌&&◌, ◌<◌, ◌==◌, ◌≡◌,
}
use dskit.Memberlist.Interface.{Mergeable}
use dskit.Memberlist.Store.{
  CasError, too_many_retries, context_done, mismatch, no_change_detected, Reply, Attempt,
  not_needed, succeeded, failed, try_single_cas,
}
use dskit.Memberlist.Wire.{Codec, Wire}
use dskit.Memberlist.Client.{Kv, KvConfig, notify_watchers, broadcast_new_value}

pub record Round (V : Type 0) : Type 0 where
  pub now : ℕ
  pub f : Option V → Reply V
  pub others : Kv V → Kv V
  pub done : Bool

-- What CAS returns: nil, or an error about the last error, if there was an attempt.
pub data CasResult : Type 0 where
  cas_done : CasResult
  cas_failed : (last_error : Option CasError) → CasResult

-- the error that is reported
unfoldable pub reported : Option CasError → Option CasError
reported (some mismatch) = some too_many_retries
reported last_error = last_error

-- Whether the next attempt waits first.
unfoldable pub waits : Option CasError → Bool
waits (some no_change_detected) = true
waits last_error = false

module _ (M : Mergeable) (cfg : KvConfig) (w : Wire M.Value) where
  open M use {Value}

  -- One call of `trySingleCas` on the whole state.
  unfoldable pub attempt : String → Codec Value → Round Value → Kv Value → Attempt Value × Kv Value
  unfolding try_single_cas
  attempt key codec round kv =
      let kv' = round.others kv in
      let (result, store) =
        try_single_cas M cfg.left_ingesters_timeout round.now key codec.codec_id round.f
          (λ _. kv'.store) kv.store in
      (result, record kv' { store = store })

  -- What CAS does after a change.
  unfoldable pub publish : ℕ → String → Codec Value → Value → ℕ → Kv Value → Kv Value
  unfolding notify_watchers broadcast_new_value
  publish now key codec change version kv =
      let kv' = notify_watchers key kv in
      if kv'.running then broadcast_new_value M cfg w now key change version codec kv' else kv'

  -- What CAS does after an attempt: it ends, or it goes on.
  unfoldable pub conclude :
      ℕ
      → String
      → Codec Value
      → (Option CasError → Kv Value → CasResult × Kv Value)
      → Attempt Value
      → Kv Value
      → CasResult × Kv Value
  unfolding publish reported
  conclude now key codec again not_needed kv = (cas_done, kv)
  conclude now key codec again (succeeded change version) kv =
      (cas_done, publish now key codec change version kv)
  conclude now key codec again (failed err true) kv = again (some err) kv
  conclude now key codec again (failed err false) kv = (cas_failed (reported (some err)), kv)

  -- the loop of `CAS`
  unfoldable pub cas_attempts :
      String
      → Codec Value
      → (ℕ → Round Value)
      → ℕ
      → Option CasError
      → Kv Value
      → CasResult × Kv Value
  unfolding attempt conclude reported waits
  cas_attempts key codec rounds zero last_error kv = (cas_failed (reported last_error), kv)
  cas_attempts key codec rounds (suc retries) last_error kv =
      let round = rounds retries in
      elim (waits last_error && round.done) [
        | true ↦ (cas_failed (some context_done), kv)
        | false ↦
            let (result, kv') = attempt key codec round kv in
            conclude round.now key codec (cas_attempts key codec rounds retries) result kv'
      ]

  -- `CAS`, with `maxCasRetries`
  unfoldable pub cas :
      ℕ → String → Codec Value → (ℕ → Round Value) → Kv Value → CasResult × Kv Value
  unfolding cas_attempts
  cas max_cas_retries key codec rounds kv = cas_attempts key codec rounds max_cas_retries none kv

  -- An attempt that ends CAS without an error, and one that does not end it with one.
  abbrev pub Ends : Attempt Value → Type 0
  Ends (failed err retry) = ⊥
  Ends other = Unit

  abbrev pub GoesOn : Attempt Value → Type 0
  GoesOn (failed err retry) = retry ≡ true
  GoesOn other = Unit

  module _ (key : String) (codec : Codec Value) where
    conclude-Ends :
        (now : ℕ) (again : Option CasError → Kv Value → CasResult × Kv Value)
        (result : Attempt Value) (kv : Kv Value)
        → Ends result
        → (conclude now key codec again result kv).0 ≡ cas_done
    unfolding conclude
    conclude-Ends now again not_needed kv ends = refl
    conclude-Ends now again (succeeded change version) kv ends = refl
    conclude-Ends now again (failed err retry) kv ends = absurd ends

    conclude-GoesOn :
        (now : ℕ) (again : Option CasError → Kv Value → CasResult × Kv Value)
        (result : Attempt Value) (kv : Kv Value)
        → GoesOn result
        → ((last : Option CasError) (kv' : Kv Value) → (again last kv').0 ≡ cas_done)
        → (conclude now key codec again result kv).0 ≡ cas_done
    unfolding conclude
    conclude-GoesOn now again not_needed kv on h = refl
    conclude-GoesOn now again (succeeded change version) kv on h = refl
    conclude-GoesOn now again (failed err true) kv on h = h (some err) kv
    conclude-GoesOn now again (failed err false) kv on h = cc

    module _ (rounds : ℕ → Round Value) (alive : (k : ℕ) → (rounds k).done ≡ false)
        (retried : (k : ℕ) (kv : Kv Value) → GoesOn (attempt key codec (rounds k) kv).0) where
      alive_lem : (k : ℕ) (last : Option CasError) → (waits last && (rounds k).done) ≡ false
      alive_lem k last = elim (Bool-cases (waits last)) [ inl e ↦ rw e (alive k) | inr e ↦ rw e ]

      cas_attempts-done :
          (good left : ℕ) (last : Option CasError) (kv : Kv Value)
          → ((kv' : Kv Value) → Ends (attempt key codec (rounds good) kv').0)
          → good < left
          → (cas_attempts key codec rounds left last kv).0 ≡ cas_done
      unfolding cas_attempts
      cas_attempts-done good zero last kv ends h = absurd (omega arith)
      cas_attempts-done good (suc left) last kv ends h =
          let round = rounds left in
          let again = cas_attempts key codec rounds left in
          let (result, kv') = attempt key codec round kv in
          rw (alive_lem left last, cas_attempts)
            (elim (Bool-cases (left == good)) [
              | inl e ↦
                  let now_good = sym ((==_iff left good).0 e) in
                  let ends' =
                    subst (λ k. Ends (attempt key codec (rounds k) kv).0) now_good (ends kv) in
                  conclude-Ends round.now again result kv' ends'
              | inr e ↦
                  conclude-GoesOn round.now again result kv' (retried left kv)
                    (λ last' next. cas_attempts-done good left last' next ends (ground arith))
            ])

      -- A CAS whose function asks for another attempt after each failure, and whose context stays
      -- alive, ends without an error if one of its attempts would end without one on every state.
      cas-done :
          (max_cas_retries good : ℕ) (kv : Kv Value)
          → good < max_cas_retries
          → ((kv' : Kv Value) → Ends (attempt key codec (rounds good) kv').0)
          → (cas max_cas_retries key codec rounds kv).0 ≡ cas_done
      unfolding cas
      cas-done max_cas_retries good kv h ends =
          cas_attempts-done good max_cas_retries none kv ends h
