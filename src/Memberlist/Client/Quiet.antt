-- ===== src/Memberlist/Client/Quiet.antt =====
-- A pair that arrives again: of values whose merge is idempotent nothing more is announced.
use dskit.Base.{
  ==_refl, List, Option, String, [], ap, arith, false, nat_eq, none, some, string_eq, ℕ, ◌%◌, ◌+◌,
  ◌/◌, ◌^◌, ◌∙◌, ◌∷◌, ◌≡◌,
}
use dskit.Base.Maps.{lookup-insert}
use dskit.Memberlist.Interface.{merged, Mergeable, IsIdempotent}
use dskit.Memberlist.Messages.{KeyValuePair, add_received_message}
use dskit.Memberlist.Store.{
  Store, value_at, MergeOutcome, no_change, compute_new_value, merged_in_place, store_change,
  unless_empty, keep_change, merge_result, merge_value_for_key,
}
use dskit.Memberlist.Wire.{Codec, Wire}
use dskit.Memberlist.Client.{
  Kv, KvConfig, notify_watchers, broadcast_new_value, merge_bytes_value_for_key, announce,
  received_message, receive_pair,
}

module _ (M : Mergeable) where
  open M use {Value, merge}

  -- The key has the value.
  abbrev pub Holds : String → Value → Store Value → Type 0
  Holds key v store = (value_at key store).value ≡ some v

  Holds-in_place :
      (key : String) (old result : Value) (store : Store Value)
      → Holds key old store
      → Holds key result (merged_in_place M 0 key (value_at key store) result store)
  unfolding merged_in_place
  Holds-in_place key old result store h = ground (
    arith,
    ==_refl key,
    lookup-insert key key (record (value_at key store) { value = some result }) store,
  )

  Holds-store_change :
      (key codec_id : String) (result change : Value) (store : Store Value)
      → Holds key result (store_change M 0 key (value_at key store) codec_id result change store).1
  unfolding store_change
  Holds-store_change key codec_id result change store =
      let version = ((value_at key store).version + 1) % 2 ^ 64 in
      ground (
        arith,
        ==_refl key,
        lookup-insert key key
            (record { value = some result; version = version; codec_id = codec_id }) store,
      )

  Holds-unless_empty :
      (key : String) (old result change : Value) (go_on : MergeOutcome Value × Store Value)
      (store : Store Value)
      → Holds key old store
      → Holds key result go_on.1
      → Holds key result (unless_empty M 0 change key (value_at key store) result go_on store).1
  unfolding unless_empty
  Holds-unless_empty key old result change go_on store h k =
      let in_place = Holds-in_place key old result store h in
      elim (M.merge_content change)
        as (λ (content : List String).
          let r : MergeOutcome Value × Store Value = elim content [
            | [] ↦ (no_change, merged_in_place M 0 key (value_at key store) result store)
            | _ ∷ _ ↦ go_on
          ] in
          Holds key result r.1) [ [] ↦ in_place | _ ∷ _ ↦ k ]

  Holds-merge_result :
      (now : ℕ) (key codec_id : String) (old result : Value) (change : Option Value)
      (store : Store Value)
      → Holds key old store
      → Holds key result (merge_result M 0 now key codec_id (merged result change) store).1
  unfolding merge_result keep_change
  Holds-merge_result now key codec_id old result none store h =
      Holds-in_place key old result store h
  Holds-merge_result now key codec_id old result (some change) store h =
      Holds-unless_empty key old result change _ store h
        (Holds-store_change key codec_id result change store)

  -- A merge of another value, into a key with a value.
  merge_held :
      (now : ℕ) (key : String) (incoming : Value) (codec_id : String) (old : Value)
      (store : Store Value)
      → Holds key old store
      → merge_value_for_key M 0 now key incoming 0 codec_id store
        ≡ merge_result M 0 now key codec_id (merge old incoming false (now / 1_000_000_000)) store
  unfolding merge_value_for_key compute_new_value
  merge_held now key incoming codec_id old store h = rw (h, compute_new_value)

  module _ (I : IsIdempotent M) where
    merge_value_for_key-again :
        (now later : ℕ) (key codec_id : String) (old incoming result : Value)
        (change : Option Value) (store : Store Value)
        → Holds key old store
        → I.IsProper old
        → I.IsProper incoming
        → merge old incoming false (now / 1_000_000_000) ≡ merged result change
        → (merge_value_for_key M 0 later key incoming 0 codec_id
            (merge_value_for_key M 0 now key incoming 0 codec_id store).1).0
          ≡ no_change
    unfolding merge_result
    merge_value_for_key-again now later key codec_id old incoming result change store h p q e =
        let first : merge_value_for_key M 0 now key incoming 0 codec_id store
            ≡ merge_result M 0 now key codec_id (merged result change) store =
          merge_held now key incoming codec_id old store h
          ∙ ap (λ r. merge_result M 0 now key codec_id r store) e in
        let held = Holds-merge_result now key codec_id old result change store h in
        let store' = (merge_result M 0 now key codec_id (merged result change) store).1 in
        let again =
          I.merge_again (now / 1_000_000_000) (later / 1_000_000_000) old incoming p q e in
        let second : (merge_value_for_key M 0 later key incoming 0 codec_id store').0 ≡ no_change =
          ap (λ r. r.0)
            (merge_held later key incoming codec_id result store' held
              ∙ ap (λ r. merge_result M 0 later key codec_id r store') again) in
        ap
          (λ (r : MergeOutcome Value × Store Value).
            (merge_value_for_key M 0 later key incoming 0 codec_id r.1).0)
          first
        ∙ second

-- A configuration that keeps the tombstones.
abbrev pub keeping : ℕ → KvConfig
keeping history = record { left_ingesters_timeout = 0; message_history_buffer_bytes = history }

module _ (M : Mergeable) (I : IsIdempotent M) (w : Wire M.Value) (history : ℕ) where
  open M use {Value, merge}

  announce-no_change :
      (now : ℕ) (pair : KeyValuePair) (codec : Codec Value) (outcome : MergeOutcome Value)
      (kv : Kv Value)
      → outcome ≡ no_change
      → announce M (keeping history) w now pair codec outcome kv ≡ kv
  unfolding announce
  announce-no_change now pair codec outcome kv e = rw (e, announce)

  announce-store :
      (now : ℕ) (pair : KeyValuePair) (codec : Codec Value) (outcome : MergeOutcome Value)
      (kv : Kv Value)
      → (announce M (keeping history) w now pair codec outcome kv).store ≡ kv.store
  unfolding announce broadcast_new_value notify_watchers
  announce-store now pair codec outcome kv = ground arith

  merge_bytes_known :
      (now : ℕ) (pair : KeyValuePair) (codec : Codec Value) (incoming : Value) (store : Store Value)
      → codec.decode pair.value ≡ some (some incoming)
      → merge_bytes_value_for_key M (keeping history) w now pair.key pair.value codec store
        ≡ merge_value_for_key M 0 now pair.key incoming 0 codec.codec_id store
  unfolding merge_bytes_value_for_key
  merge_bytes_known now pair codec incoming store e = rw (e, merge_bytes_value_for_key)

  receive_pair-store :
      (now size : ℕ) (pair : KeyValuePair) (codec : Codec Value) (kv : Kv Value)
      → (receive_pair M (keeping history) w now size pair codec kv).store
        ≡ (merge_bytes_value_for_key M (keeping history) w now pair.key pair.value codec kv.store).1
  unfolding receive_pair
  receive_pair-store now size pair codec kv =
      let (outcome, store) =
        merge_bytes_value_for_key M (keeping history) w now pair.key pair.value codec kv.store in
      let msg = received_message M (keeping history) w now size pair outcome in
      announce-store now pair codec outcome
        (record kv { store = store; buffers = add_received_message history msg kv.buffers })

  receive_pair-no_change :
      (now size : ℕ) (pair : KeyValuePair) (codec : Codec Value) (kv : Kv Value)
      → (merge_bytes_value_for_key M (keeping history) w now pair.key pair.value codec kv.store).0
        ≡ no_change
      → let after = receive_pair M (keeping history) w now size pair codec kv in
        (after.watchers ≡ kv.watchers)
        × (after.prefix_watchers ≡ kv.prefix_watchers)
        × (after.broadcasts ≡ kv.broadcasts)
  unfolding receive_pair
  receive_pair-no_change now size pair codec kv e =
      let quiet = announce-no_change now pair codec _ _ e in
      (
        ap (λ (s : Kv Value). s.watchers) quiet,
        ap (λ (s : Kv Value). s.prefix_watchers) quiet,
        ap (λ (s : Kv Value). s.broadcasts) quiet,
      )

  pub receive_pair-again :
      (now later size : ℕ) (pair : KeyValuePair) (codec : Codec Value) (old incoming result : Value)
      (change : Option Value) (kv : Kv Value)
      → codec.decode pair.value ≡ some (some incoming)
      → Holds M pair.key old kv.store
      → I.IsProper old
      → I.IsProper incoming
      → merge old incoming false (now / 1_000_000_000) ≡ merged result change
      → let first = receive_pair M (keeping history) w now size pair codec kv in
        let second = receive_pair M (keeping history) w later size pair codec first in
        (second.watchers ≡ first.watchers)
        × (second.prefix_watchers ≡ first.prefix_watchers)
        × (second.broadcasts ≡ first.broadcasts)
  receive_pair-again now later size pair codec old incoming result change kv e h p q m =
      let merged_first = merge_bytes_known now pair codec incoming kv.store e in
      let first = receive_pair M (keeping history) w now size pair codec kv in
      let store : first.store ≡ _ =
        receive_pair-store now size pair codec kv ∙ ap (λ r. r.1) merged_first in
      let again =
        merge_value_for_key-again M I now later pair.key codec.codec_id old incoming result change
          kv.store h p q m in
      receive_pair-no_change later size pair codec first (
        ap (λ r. r.0) (merge_bytes_known later pair codec incoming first.store e)
        ∙ ap (λ s. (merge_value_for_key M 0 later pair.key incoming 0 codec.codec_id s).0) store
        ∙ again)
