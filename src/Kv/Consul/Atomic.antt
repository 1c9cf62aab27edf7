-- ===== src/Kv/Consul/Atomic.antt =====
-- kv/consul/client.go: the CAS loop over the store in memory implements the CAS of kv/client.go.
use dskit.Base.{
  ==_iff, Bool, List, Option, Option-cases, String, [], ap, arith, false, inl, inr, length, nat_eq,
  none, refl, some, string_eq, suc, sym, true, zero, ℕ, ◌++◌, ◌+◌, ◌==◌, ◌∙◌, ◌∷◌, ◌≡◌, ◌≤◌,
}
use dskit.Base.Maps.{lookup}
use dskit.Kv.{attempt_all, CasOut, CasRun, kv_cas, end_cas, last_attempt, store}
use dskit.Kv.Calls.{kv_cas_lem, kv_cas-cons}
use dskit.Kv.Consul.{
  ClientEnd, ValueCodec, Mock, Pair, Round, Write, apply_write, apply_writes, index_differs,
  next_index, write_pair, written_pair,
}
use dskit.Kv.Consul.Indices.{InBounds, apply_writes-Kept, lookup-write_pair, max_index}

-- What a codec promises: it decodes what it encoded.
pub record IsCodec {V B : Type 0} (codec : ValueCodec V B) : Type 0 where
  pub round_trip : (v : V) (b : B) → codec.encode v ≡ some b → codec.decode b ≡ some v

-- the number of writes of others in `n` rounds from round `i` on
abbrev pub writes_left : {E B : Type 0} → (ℕ → Round E B) → ℕ → ℕ → ℕ
writes_left rounds zero i = 0
writes_left rounds (suc n) i =
    length (rounds i).before + length (rounds i).between + writes_left rounds n (i + 1)

-- The value of a key, as a client reads it.
abbrev pub view : {V B : Type 0} → ValueCodec V B → String → Mock B → Option V
view codec key m = elim (lookup key m.kvps) [ none ↦ none | some p ↦ codec.decode p.value ]

-- The whole loop is what others write, and then one CAS of the interface on the value of the key at
-- that moment; the other keys are as the others left them.
pub record Refines {E S V B : Type 0} (codec : ValueCodec V B) (key : String)
    (f : E → Option V → S → Option (S × CasOut V)) (s : S) (m : Mock B) (r : ClientEnd S B)
    : Type 0 where
  pub others : List (Write B)
  pub run : CasRun E V
  pub atomic :
      kv_cas f run (view codec key (apply_writes others m)) s
      ≡ some (record { caller = r.caller; value = view codec key r.mock; no_error = r.no_error })
  pub elsewhere :
      (k : String)
      → (key == k) ≡ false
      → lookup k r.mock.kvps ≡ lookup k (apply_writes others m).kvps

apply_writes-append :
    {B : Type 0} (ws us : List (Write B)) (m : Mock B)
    → apply_writes (ws ++ us) m ≡ apply_writes us (apply_writes ws m)
unfolding apply_writes
apply_writes-append [] us m = refl
apply_writes-append (w ∷ ws) us m = apply_writes-append ws us (apply_write w m)

module _ {E S V B : Type 0} (codec : ValueCodec V B) (key : String)
    (f : E → Option V → S → Option (S × CasOut V)) where
  -- what others write first
  pub Refines-after :
      (ws : List (Write B)) (s : S) (m : Mock B) (r : ClientEnd S B)
      → Refines codec key f s (apply_writes ws m) r
      → Refines codec key f s m r
  Refines-after ws s m r h =
      let e : apply_writes (ws ++ h.others) m ≡ apply_writes h.others (apply_writes ws m) =
        apply_writes-append ws h.others m in
      record {
        others = ws ++ h.others;
        run = h.run;
        atomic = rw e h.atomic;
        elsewhere = λ k apart. rw e (h.elsewhere k apart);
      }

  -- a call of the callback whose result was not stored
  pub Refines-attempt :
      (e : E) (seen : Option V) (s s1 : S) (out : CasOut V) (m : Mock B) (r : ClientEnd S B)
      → f e seen s ≡ some (s1, out)
      → Refines codec key f s1 m r
      → Refines codec key f s m r
  Refines-attempt e seen s s1 out m r ran h = record {
    others = h.others;
    run = record { attempts = (e, seen) ∷ h.run.attempts; last_call = h.run.last_call };
    atomic =
        kv_cas-cons f e seen (view codec key (apply_writes h.others m)) h.run.attempts
          h.run.last_call s s1 out ran
        ∙ h.atomic;
    elsewhere = h.elsewhere;
  }

  -- a call of the callback after which the loop ends and the store is as it was
  pub Refines-last :
      (e : E) (s s1 : S) (out : CasOut V) (m : Mock B) (flag : Bool)
      → f e (view codec key m) s ≡ some (s1, out)
      → end_cas (view codec key m) s1 out
        ≡ record { caller = s1; value = view codec key m; no_error = flag }
      → Refines codec key f s m (record { caller = s1; mock = m; no_error = flag })
  unfolding apply_writes
  Refines-last e s s1 out m flag ran ends = record {
    others = [];
    run = record { attempts = []; last_call = some e };
    atomic =
        kv_cas_lem f [] e (view codec key m) s s s1 out (unfold attempt_all in refl) ran
        ∙ ap some ends;
    elsewhere = λ k apart. refl;
  }

  -- a loop whose rounds are over
  pub Refines-none :
      (s : S) (m : Mock B)
      → Refines codec key f s m (record { caller = s; mock = m; no_error = false })
  unfolding apply_writes
  Refines-none s m = record {
    others = [];
    run = record { attempts = []; last_call = none };
    atomic = unfold kv_cas in unfold last_attempt in unfold attempt_all in refl;
    elsewhere = λ k apart. refl;
  }

  written_value : (index : ℕ) (b : B) (old : Option (Pair B)) → (written_pair index b old).value ≡ b
  unfolding written_pair
  written_value index b none = refl
  written_value index b (some p) = refl

  pub view-some :
      (p : Pair B) (m : Mock B)
      → lookup key m.kvps ≡ some p
      → view codec key m ≡ codec.decode p.value
  view-some p m found = ground arith

  pub view-none : (m : Mock B) → lookup key m.kvps ≡ none → view codec key m ≡ none
  view-none m missing = ground arith

  view-write_pair : (b : B) (m : Mock B) → view codec key (write_pair key b m) ≡ codec.decode b
  view-write_pair b m =
      let p = written_pair (next_index m) b (lookup key m.kvps) in
      view-some p (write_pair key b m)
        (ground (arith, lookup-write_pair key key b m, ==_iff key key))
      ∙ ap codec.decode (written_value (next_index m) b (lookup key m.kvps))

  -- a call of the callback whose result was swapped in
  pub Refines-swap :
      (e : E) (s s1 : S) (v : V) (b : B) (m : Mock B)
      → codec.decode b ≡ some v
      → f e (view codec key m) s ≡ some (s1, store v)
      → Refines codec key f s m (record { caller = s1; mock = write_pair key b m; no_error = true })
  unfolding apply_writes
  Refines-swap e s s1 v b m decodes ran = record {
    others = [];
    run = record { attempts = []; last_call = some e };
    atomic =
        kv_cas_lem f [] e (view codec key m) s s s1 (store v) (unfold attempt_all in refl) ran
        ∙ ap some (unfold end_cas in rw (view-write_pair b m ∙ decodes) refl);
    elsewhere = λ k apart. ground (arith, lookup-write_pair key k b m);
  }

-- What is known of the store and of `index` when a round begins, with `steps` writes of others to come.
pub record RoundStarts {B : Type 0} (key : String) (steps index : ℕ) (m : Mock B) : Type 0 where
  pub bounded : InBounds m
  pub unset : lookup key m.kvps ≡ none → index ≡ 0
  pub room : m.current + steps ≤ max_index

pub RoundStarts-writes :
    {B : Type 0} (key : String) (ws : List (Write B)) (steps index : ℕ) (m : Mock B)
    → RoundStarts key (length ws + steps) index m
    → RoundStarts key steps index (apply_writes ws m)
RoundStarts-writes key ws steps index m h =
    let room = h.room in
    let (bounded, grown, le) = apply_writes-Kept ws m (omega arith) h.bounded in
    record {
      bounded = bounded;
      unset = λ missing. elim (grown key).1 [
        | inl same ↦ h.unset (sym same ∙ missing)
        | inr (q, found, lt) ↦ absurd (ground arith)
      ];
      room = omega arith;
    }

-- the index that a round of the loop swaps against
abbrev pub index_of : {B : Type 0} → ℕ → Option (Pair B) → ℕ
index_of index none = index
index_of index (some p) = p.modify_index

-- If the test of the mock passes after the writes of others, these have not written the key.
pub not_written :
    {B : Type 0} (key : String) (ws : List (Write B)) (steps index : ℕ) (m : Mock B)
    → RoundStarts key (length ws + steps) index m
    → index_differs (index_of index (lookup key m.kvps)) (lookup key (apply_writes ws m).kvps)
      ≡ false
    → lookup key (apply_writes ws m).kvps ≡ lookup key m.kvps
unfolding index_differs
not_written key ws steps index m h passes =
    let room = h.room in
    let (bounded, grown, le) = apply_writes-Kept ws m (omega arith) h.bounded in
    elim (grown key).1 [
      | inl same ↦ same
      | inr (q, found, lt) ↦ elim (Option-cases (lookup key m.kvps)) [
        | inl missing ↦ absurd (ground (arith, h.unset missing, ==_iff q.modify_index index))
        | inr (p, before) ↦
            let (low, high) = h.bounded key p before in
            absurd (ground (arith, ==_iff q.modify_index p.modify_index))
      ]
    ]
