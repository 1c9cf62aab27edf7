-- ===== src/Kv/Consul/Loop.antt =====
-- kv/consul/client.go: the loop of CAS refines the CAS of kv/client.go, by induction on its rounds.
use dskit.Base.{
  Bool-cases, Option, Option-cases, String, arith, false, inl, inr, length, nat_eq, refl, some,
  string_eq, subst, suc, true, zero, ℕ, ◌+◌, ◌≡◌, ◌≤◌,
}
use dskit.Base.Maps.{lookup}
use dskit.Kv.{CasOut, end_cas, keep_value, refuse, store, try_again}
use dskit.Kv.Consul.{
  ClientEnd, ValueCodec, Mock, Rest, Round, after_call, apply_writes, call_back, cas_loop,
  cas_retries, client_cas, decode_pair, index_differs, mock_cas, swap, write_pair,
}
use dskit.Kv.Consul.Indices.{InBounds, max_index}
use dskit.Kv.Consul.Atomic.{
  IsCodec, Refines, Refines-after, Refines-attempt, Refines-last, Refines-none, Refines-swap,
  RoundStarts, RoundStarts-writes, index_of, not_written, view, view-none, view-some, writes_left,
}

RoundStarts-index :
    {B : Type 0} (key : String) (steps index : ℕ) (m : Mock B)
    → RoundStarts key steps index m
    → RoundStarts key steps (index_of index (lookup key m.kvps)) m
RoundStarts-index key steps index m h = record {
  bounded = h.bounded;
  unset = λ missing. rw (missing, index_of) (h.unset missing);
  room = h.room;
}

RoundStarts-weaken :
    {B : Type 0} (key : String) (more steps index : ℕ) (m : Mock B)
    → RoundStarts key (more + steps) index m
    → RoundStarts key steps index m
RoundStarts-weaken key more steps index m h =
    let room = h.room in record { bounded = h.bounded; unset = h.unset; room = omega arith }

module _ {E S V B : Type 0} (codec : ValueCodec V B) (law : IsCodec codec) (key : String)
    (f : E → Option V → S → Option (S × CasOut V)) (rounds : ℕ → Round E B) (steps : ℕ)
    (rest : Rest codec key f rounds)
    (good : (index : ℕ) (s : S) (m : Mock B) (u : ClientEnd S B)
      → RoundStarts key steps index m
      → rest index s m ≡ some u
      → Refines codec key f s m u)
    (r : Round E B) where
  -- the round fails after the writes of others
  goes_on :
      (index : ℕ) (s s1 : S) (out : CasOut V) (m : Mock B) (u : ClientEnd S B)
      → RoundStarts key (length r.between + steps) index m
      → f r.env (view codec key m) s ≡ some (s1, out)
      → rest (index_of index (lookup key m.kvps)) s1 (apply_writes r.between m) ≡ some u
      → Refines codec key f s m u
  goes_on index s s1 out m u start ran h =
      Refines-attempt codec key f r.env (view codec key m) s s1 out m u ran (
        Refines-after codec key f r.between s1 m u (
          good (index_of index (lookup key m.kvps)) s1 (apply_writes r.between m) u
            (RoundStarts-writes key r.between steps (index_of index (lookup key m.kvps)) m
              (RoundStarts-index key (length r.between + steps) index m start))
            h))

  swap-Refines :
      (v : V) (b : B) (index : ℕ) (s s1 : S) (m : Mock B) (u : ClientEnd S B)
      → RoundStarts key (length r.between + steps) index m
      → codec.encode v ≡ some b
      → f r.env (view codec key m) s ≡ some (s1, store v)
      → swap codec key f rounds r rest b (index_of index (lookup key m.kvps)) s1 m ≡ some u
      → Refines codec key f s m u
  unfolding swap mock_cas
  swap-Refines v b index s s1 m u start encodes ran h =
      let index' = index_of index (lookup key m.kvps) in
      let m1 = apply_writes r.between m in
      elim (Bool-cases (index_differs index' (lookup key m1.kvps))) [
        | inl differs ↦ goes_on index s s1 (store v) m u start ran (ground arith)
        | inr passes ↦ elim (Bool-cases r.cas_fails) [
          | inl fails ↦ goes_on index s s1 (store v) m u start ran (ground arith)
          | inr fine ↦
              let same : lookup key m1.kvps ≡ lookup key m.kvps =
                not_written key r.between steps index m start passes in
              let sees : view codec key m1 ≡ view codec key m = rw (same, view) refl in
              let u_is : record { caller = s1; mock = write_pair key b m1; no_error = true } ≡ u =
                ground arith in
              Refines-after codec key f r.between s m u (
                subst (Refines codec key f s m1) u_is (
                  Refines-swap codec key f r.env s s1 v b m1 (law.round_trip v b encodes)
                    (rw sees ran)))
        ]
      ]

  -- a round that ends before its CAS, and lets the loop go on
  goes_on_at_once :
      (index : ℕ) (s s1 : S) (out : CasOut V) (m : Mock B) (u : ClientEnd S B)
      → RoundStarts key (length r.between + steps) index m
      → f r.env (view codec key m) s ≡ some (s1, out)
      → rest (index_of index (lookup key m.kvps)) s1 m ≡ some u
      → Refines codec key f s m u
  goes_on_at_once index s s1 out m u start ran h =
      Refines-attempt codec key f r.env (view codec key m) s s1 out m u ran (
        good (index_of index (lookup key m.kvps)) s1 m u
          (RoundStarts-weaken key (length r.between) steps (index_of index (lookup key m.kvps)) m
            (RoundStarts-index key (length r.between + steps) index m start))
          h)

  after_call-Refines :
      (out : CasOut V) (index : ℕ) (s s1 : S) (m : Mock B) (u : ClientEnd S B)
      → RoundStarts key (length r.between + steps) index m
      → f r.env (view codec key m) s ≡ some (s1, out)
      → after_call codec key f rounds r rest (index_of index (lookup key m.kvps)) m s1 out ≡ some u
      → Refines codec key f s m u
  unfolding after_call
  after_call-Refines keep_value index s s1 m u start ran h =
      let u_is : record { caller = s1; mock = m; no_error = true } ≡ u = ground arith in
      subst (Refines codec key f s m) u_is
        (Refines-last codec key f r.env s s1 keep_value m true ran (unfold end_cas in refl))
  after_call-Refines refuse index s s1 m u start ran h =
      let u_is : record { caller = s1; mock = m; no_error = false } ≡ u = ground arith in
      subst (Refines codec key f s m) u_is
        (Refines-last codec key f r.env s s1 refuse m false ran (unfold end_cas in refl))
  after_call-Refines try_again index s s1 m u start ran h =
      goes_on_at_once index s s1 try_again m u start ran h
  after_call-Refines (store v) index s s1 m u start ran h = elim (Option-cases (codec.encode v)) [
    | inl cannot ↦ goes_on_at_once index s s1 (store v) m u start ran (ground arith)
    | inr (b, encodes) ↦ swap-Refines v b index s s1 m u start encodes ran (ground arith)
  ]

  call_back-Refines :
      (index : ℕ) (s : S) (m : Mock B) (u : ClientEnd S B)
      → RoundStarts key (length r.between + steps) index m
      → call_back codec key f rounds r rest
          (index_of index (lookup key m.kvps))
          s
          m
          (view codec key m)
        ≡ some u
      → Refines codec key f s m u
  unfolding call_back
  call_back-Refines index s m u start h = elim (Option-cases (f r.env (view codec key m) s)) [
    | inl out ↦ absurd (ground arith)
    | inr ((s1, out), ran) ↦ after_call-Refines out index s s1 m u start ran (ground arith)
  ]

  decode_pair-Refines :
      (index : ℕ) (s : S) (m : Mock B) (u : ClientEnd S B)
      → RoundStarts key (length r.between + steps) index m
      → decode_pair codec key f rounds r rest index s m (lookup key m.kvps) ≡ some u
      → Refines codec key f s m u
  unfolding decode_pair
  decode_pair-Refines index s m u start h = elim (Option-cases (lookup key m.kvps)) [
    | inl missing ↦
        call_back-Refines index s m u start (ground (arith, view-none codec key f m missing))
    | inr (p, found) ↦ elim (Option-cases (codec.decode p.value)) [
      | inl cannot ↦
          good index s m u (RoundStarts-weaken key (length r.between) steps index m start)
            (ground arith)
      | inr (v, decodes) ↦
          call_back-Refines index s m u start (ground (arith, view-some codec key f p m found))
    ]
  ]

module _ {E S V B : Type 0} (codec : ValueCodec V B) (law : IsCodec codec) (key : String)
    (f : E → Option V → S → Option (S × CasOut V)) (rounds : ℕ → Round E B) where
  cas_loop-Refines :
      (n i index : ℕ) (s : S) (m : Mock B) (u : ClientEnd S B)
      → RoundStarts key (writes_left rounds n i) index m
      → cas_loop codec key f rounds n i index s m ≡ some u
      → Refines codec key f s m u
  unfolding cas_loop
  cas_loop-Refines zero i index s m u start h =
      let u_is : record { caller = s; mock = m; no_error = false } ≡ u = ground arith in
      subst (Refines codec key f s m) u_is (Refines-none codec key f s m)
  cas_loop-Refines (suc n) i index s m u start h =
      let r = rounds i in
      let m1 = apply_writes r.before m in
      let steps = writes_left rounds n (i + 1) in
      let rest : Rest codec key f rounds =
        λ index' s' m'. cas_loop codec key f rounds n (i + 1) index' s' m' in
      let start' : RoundStarts key (length r.before + (length r.between + steps)) index m = record {
        bounded = start.bounded;
        unset = start.unset;
        room = let room = start.room in omega arith;
      } in
      let start1 : RoundStarts key (length r.between + steps) index m1 =
        RoundStarts-writes key r.before (length r.between + steps) index m start' in
      Refines-after codec key f r.before s m u (elim (Bool-cases r.get_fails) [
        | inl fails ↦
            cas_loop-Refines n (i + 1) index s m1 u
              (RoundStarts-weaken key (length r.between) steps index m1 start1) (ground arith)
        | inr fine ↦
            decode_pair-Refines codec law key f rounds steps rest
              (λ index' s' m' u' start'' h'. cas_loop-Refines n (i + 1) index' s' m' u' start'' h')
              r index s m1 u start1 (ground arith)
      ])

  -- Over a store whose indices are in bounds, and with fewer writes of others to come than a uint64
  -- can count, `client_cas` that returns has done this, whatever the others write to any key between
  -- its requests and whichever of these fail: after some of their writes, one CAS of the interface on
  -- the value of the key at that moment, with the same end, and no change to another key.
  pub client_cas-Refines :
      (max_cas_retries : ℕ) (s : S) (m : Mock B) (u : ClientEnd S B)
      → InBounds m
      → m.current + writes_left rounds (cas_retries max_cas_retries) 0 ≤ max_index
      → client_cas codec key f rounds max_cas_retries s m ≡ some u
      → Refines codec key f s m u
  unfolding client_cas
  client_cas-Refines max_cas_retries s m u bounded room h =
      cas_loop-Refines (cas_retries max_cas_retries) 0 0 s m u
        (record { bounded = bounded; unset = λ missing. refl; room = room }) h
