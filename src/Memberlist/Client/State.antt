-- ===== src/Memberlist/Client/State.antt =====
-- The push and pull of full states: what `MergeRemoteState` does with what `LocalState` wrote.
use dskit.Base.{
  List, Option-cases, String, [], ap, arith, inl, inr, length, length-append, none, refl, some, suc,
  sym, zero, ℕ, ◌++◌, ◌+◌, ◌-◌, ◌<◌, ◌^◌, ◌∙◌, ◌∷◌, ◌≡◌, ◌≤◌,
}
use dskit.Memberlist.Interface.{Mergeable}
use dskit.Memberlist.Messages.{KeyValuePair, Message, Buffers, add_sent_message}
use dskit.Memberlist.Store.{ValueDesc, Store}
use dskit.Memberlist.Wire.{Wire, put_uint32}
use dskit.Memberlist.Wire.Framing.{next_pair-frame}
use dskit.Memberlist.Client.{
  Kv, KvConfig, receive_if_known, merge_remote_pairs, merge_remote_state, local_pair, local_pairs,
  local_state,
}

module _ (M : Mergeable) (cfg : KvConfig) (w : Wire M.Value) where
  open M use {Value}

  -- The entries of a store that are sent, each as a pair with its encoding.
  abbrev pub sent_pairs : Store Value → List (KeyValuePair × List ℕ)
  sent_pairs [] = []
  sent_pairs ((key, val) ∷ rest) = elim (local_pair M cfg w key val) [
    | none ↦ sent_pairs rest
    | some p ↦ p ∷ sent_pairs rest
  ]

  -- The merges of some pairs, one after the other.
  abbrev pub receive_pairs : ℕ → List (KeyValuePair × List ℕ) → Kv Value → Kv Value
  receive_pairs now [] kv = kv
  receive_pairs now ((pair, ser) ∷ rest) kv =
      receive_pairs now rest (receive_if_known M cfg w now (length ser) pair kv)

  local_pair_lem :
      (key : String) (val : ValueDesc Value) (pair : KeyValuePair) (ser : List ℕ)
      → local_pair M cfg w key val ≡ some (pair, ser)
      → (w.marshal pair ≡ some ser) × (length ser < 2 ^ 32)
  unfolding local_pair
  local_pair_lem key val pair ser e = ground arith

  -- A frame in front is one merge more.
  merge_remote_pairs-frame :
      (now fuel : ℕ) (pair : KeyValuePair) (ser rest : List ℕ) (kv : Kv Value)
      → w.unmarshal ser ≡ some pair
      → length ser < 2 ^ 32
      → 0 < fuel
      → merge_remote_pairs M cfg w now fuel (put_uint32 (length ser) ++ (ser ++ rest)) kv
        ≡ merge_remote_pairs M cfg w now
            (fuel - 1)
            rest
            (receive_if_known M cfg w now (length ser) pair kv)
  unfolding merge_remote_pairs put_uint32
  merge_remote_pairs-frame now zero pair ser rest kv read short h = absurd (omega arith)
  merge_remote_pairs-frame now (suc fuel) pair ser rest kv read short h =
      rw (next_pair-frame w pair ser rest read short, merge_remote_pairs)
        (ap
          (λ n.
            merge_remote_pairs M cfg w now n rest
              (receive_if_known M cfg w now (length ser) pair kv))
          (omega arith))

  -- What one entry adds to the state that is written.
  local_pairs-skipped :
      (sent : ℕ) (key : String) (val : ValueDesc Value) (store : Store Value) (buffers : Buffers)
      → local_pair M cfg w key val ≡ none
      → local_pairs M cfg w sent ((key, val) ∷ store) buffers
        ≡ local_pairs M cfg w sent store buffers
  unfolding local_pairs
  local_pairs-skipped sent key val store buffers e = rw (e, local_pairs)

  local_pairs-sent :
      (sent : ℕ) (key : String) (val : ValueDesc Value) (store : Store Value) (buffers : Buffers)
      {pair : KeyValuePair} {ser : List ℕ}
      → local_pair M cfg w key val ≡ some (pair, ser)
      → (after : Buffers) × ((local_pairs M cfg w sent ((key, val) ∷ store) buffers).0
          ≡ put_uint32 (length ser) ++ (ser ++ (local_pairs M cfg w sent store after).0))
  unfolding local_pairs
  local_pairs-sent sent key val store buffers {pair} {ser} e =
      let msg : Message = record {
        id = 0;
        time = sent;
        size = length ser;
        pair = pair;
        version = val.version;
        changes = [];
      } in
      (add_sent_message cfg.message_history_buffer_bytes msg buffers, rw (e, local_pairs))

  -- What one entry adds to the merges.
  receive_pairs-skipped :
      (now : ℕ) (key : String) (val : ValueDesc Value) (store : Store Value) (kv : Kv Value)
      → local_pair M cfg w key val ≡ none
      → receive_pairs now (sent_pairs ((key, val) ∷ store)) kv
        ≡ receive_pairs now (sent_pairs store) kv
  receive_pairs-skipped now key val store kv e =
      let entry : sent_pairs ((key, val) ∷ store) ≡ sent_pairs store = rw (e, sent_pairs) in
      ap (λ pairs. receive_pairs now pairs kv) entry

  receive_pairs-sent :
      (now : ℕ) (key : String) (val : ValueDesc Value) (store : Store Value) (kv : Kv Value)
      {pair : KeyValuePair} {ser : List ℕ}
      → local_pair M cfg w key val ≡ some (pair, ser)
      → receive_pairs now (sent_pairs ((key, val) ∷ store)) kv
        ≡ receive_pairs now (sent_pairs store) (receive_if_known M cfg w now (length ser) pair kv)
  receive_pairs-sent now key val store kv {pair} {ser} e =
      let entry : sent_pairs ((key, val) ∷ store) ≡ (pair, ser) ∷ sent_pairs store =
        rw (e, sent_pairs) in
      ap (λ pairs. receive_pairs now pairs kv) entry

  module _
      (marshalled : (pair : KeyValuePair) (ser : List ℕ)
        → w.marshal pair ≡ some ser
        → w.unmarshal ser ≡ some pair) where
    merge_remote_pairs-local_pairs :
        (now sent fuel : ℕ) (store : Store Value) (buffers : Buffers) (kv : Kv Value)
        → length (local_pairs M cfg w sent store buffers).0 ≤ fuel
        → merge_remote_pairs M cfg w now fuel (local_pairs M cfg w sent store buffers).0 kv
          ≡ receive_pairs now (sent_pairs store) kv
    merge_remote_pairs-local_pairs now sent zero [] buffers kv h =
        unfold local_pairs merge_remote_pairs in refl
    merge_remote_pairs-local_pairs now sent (suc fuel) [] buffers kv h =
        unfold local_pairs merge_remote_pairs in refl
    merge_remote_pairs-local_pairs now sent fuel ((key, val) ∷ store) buffers kv h =
        elim (Option-cases (local_pair M cfg w key val)) [
          | inl skipped ↦
              let input = ap (λ r. r.0) (local_pairs-skipped sent key val store buffers skipped) in
              ap (λ bytes. merge_remote_pairs M cfg w now fuel bytes kv) input
              ∙ merge_remote_pairs-local_pairs now sent fuel store buffers kv
                  (omega (arith, ap length input))
              ∙ sym (receive_pairs-skipped now key val store kv skipped)
          | inr ((pair, ser), e) ↦
              let read = local_pair_lem key val pair ser e in
              let (after, input) = local_pairs-sent sent key val store buffers e in
              let bytes = (local_pairs M cfg w sent store after).0 in
              let size : length (put_uint32 (length ser) ++ (ser ++ bytes))
                  ≡ 4 + length ser + length bytes =
                unfold put_uint32 in omega (arith, length-append ser bytes) in
              ap (λ bytes. merge_remote_pairs M cfg w now fuel bytes kv) input
              ∙ merge_remote_pairs-frame now fuel pair ser bytes kv (marshalled pair ser read.0)
                  read.1 (omega (arith, ap length input, size))
              ∙ merge_remote_pairs-local_pairs now sent (fuel - 1) store after _
                  (omega (arith, ap length input, size))
              ∙ sym (receive_pairs-sent now key val store kv e)
        ]

    -- Where a marshalled pair is unmarshalled to itself, a node that merges the full state that
    -- another node wrote does what it would do with the pairs of that node's entries one by one, in
    -- their order: the entries with a value, of a known codec, that can be encoded in less than 2^32
    -- bytes. The node that wrote keeps its store, its watchers and its broadcasts.
    pub merge_remote_state-local_state :
        (now sent : ℕ) (sender kv : Kv Value)
        → let (bytes, sender') = local_state M cfg w sent sender in
          (merge_remote_state M cfg w now bytes kv ≡ receive_pairs now (sent_pairs sender.store) kv)
          × (sender' ≡ record sender { buffers = sender'.buffers })
    unfolding local_state merge_remote_state
    merge_remote_state-local_state now sent sender kv = (
      merge_remote_pairs-local_pairs now sent _ sender.store sender.buffers kv (omega arith),
      refl,
    )
