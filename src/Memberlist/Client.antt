-- ===== src/Memberlist/Client.antt =====
-- kv/memberlist/memberlist_client.go: `KV` with its store, watchers, messages and broadcasts.
-- A method is one step on the state: the mutexes are held one after the other in the source.
use dskit.Base.{
  Bool, List, Option, String, [], if◌then◌else◌, length, ltb, nat_eq, none, some, string_eq, suc,
  zero, ℕ, ◌++◌, ◌-◌, ◌==◌, ◌^◌, ◌∷◌,
}
pub mod Cas
pub mod State
pub mod Quiet
pub mod RingValue
pub mod Examples
use mathlib.Core.Option
use dskit.Memberlist.Broadcast.{RingBroadcast}
use dskit.Memberlist.Interface.{Mergeable}
use dskit.Memberlist.Messages.{
  KeyValuePair, Message, Buffers, add_sent_message, add_received_message,
}
use dskit.Memberlist.Store.{
  ValueDesc, Store, MergeOutcome, merge_error, changed, merge_value_for_key,
}
use dskit.Memberlist.Watchers.{Watchers, notify_key, notify_prefixes}
use dskit.Memberlist.Wire.{Codec, Wire, put_uint32, next_pair}

-- `KV`. What is handed to the library's queue of broadcasts is kept as a list, in order.
pub record Kv (V : Type 0) : Type 0 where
  pub store : Store V
  pub watchers : Watchers
  pub prefix_watchers : Watchers
  pub buffers : Buffers
  pub broadcasts : List RingBroadcast
  pub running : Bool

-- What `KVConfig` sets.
pub record KvConfig : Type 0 where
  pub left_ingesters_timeout : ℕ
  pub message_history_buffer_bytes : ℕ

-- `notifyWatchers`
unfoldable pub notify_watchers : {V : Type 0} → String → Kv V → Kv V
notify_watchers key kv = record kv {
  watchers = notify_key key kv.watchers;
  prefix_watchers = notify_prefixes key kv.prefix_watchers;
}

module _ (M : Mergeable) (cfg : KvConfig) (w : Wire M.Value) where
  open M use {Value, merge_content}

  -- `broadcastNewValue`, with `queueBroadcast`
  unfoldable pub broadcast_new_value : ℕ → String → Value → ℕ → Codec Value → Kv Value → Kv Value
  broadcast_new_value now key change version codec kv = elim (codec.encode change) [
    | none ↦ kv
    | some encoded ↦
        let pair : KeyValuePair = record { key = key; value = encoded; codec = codec.codec_id } in
        elim (w.marshal pair) [
          | none ↦ kv
          | some pair_data ↦
              let content = merge_content change in
              let msg : Message = record {
                id = 0;
                time = now;
                size = length pair_data;
                pair = pair;
                version = version;
                changes = content;
              } in
              let b : RingBroadcast = record {
                key = key;
                content = content;
                version = version;
                msg = pair_data;
              } in
              record kv {
                buffers = add_sent_message cfg.message_history_buffer_bytes msg kv.buffers;
                broadcasts = kv.broadcasts ++ b ∷ [];
              }
        ]
  ]

  -- `mergeBytesValueForKey`; an error of the codec is an error of the merge here
  unfoldable pub merge_bytes_value_for_key :
      ℕ → String → List ℕ → Codec Value → Store Value → MergeOutcome Value × Store Value
  merge_bytes_value_for_key now key incoming_data codec store = elim (codec.decode incoming_data) [
    | none ↦ (merge_error, store)
    | some none ↦ (merge_error, store)
    | some (some incoming) ↦
        merge_value_for_key M cfg.left_ingesters_timeout now key incoming 0 codec.codec_id store
  ]

  -- The message that is kept of a pair received.
  unfoldable pub received_message : ℕ → ℕ → KeyValuePair → MergeOutcome Value → Message
  received_message now size pair outcome = elim outcome [
    | changed change version ↦ record {
      id = 0;
      time = now;
      size = size;
      pair = pair;
      version = version;
      changes = merge_content change;
    }
    | _ ↦ record { id = 0; time = now; size = size; pair = pair; version = 0; changes = [] }
  ]

  -- the end of `NotifyMsg`, and of the loop of `MergeRemoteState`: only a change goes further
  unfoldable pub announce :
      ℕ → KeyValuePair → Codec Value → MergeOutcome Value → Kv Value → Kv Value
  unfolding notify_watchers broadcast_new_value
  announce now pair codec outcome kv = elim outcome [
    | changed change version ↦
        if ltb 0 version
        then broadcast_new_value now pair.key change version codec (notify_watchers pair.key kv)
        else kv
    | _ ↦ kv
  ]

  -- What both do with a pair whose codec is known.
  unfoldable pub receive_pair : ℕ → ℕ → KeyValuePair → Codec Value → Kv Value → Kv Value
  unfolding merge_bytes_value_for_key received_message announce
  receive_pair now size pair codec kv =
      let (outcome, store) = merge_bytes_value_for_key now pair.key pair.value codec kv.store in
      let msg = received_message now size pair outcome in
      announce now pair codec outcome (record kv {
        store = store;
        buffers = add_received_message cfg.message_history_buffer_bytes msg kv.buffers;
      })

  -- A pair of an unknown codec is skipped.
  unfoldable pub receive_if_known : ℕ → ℕ → KeyValuePair → Kv Value → Kv Value
  unfolding receive_pair
  receive_if_known now size pair kv = elim (w.codecs pair.codec) [
    | none ↦ kv
    | some codec ↦ receive_pair now size pair codec kv
  ]

  -- `NotifyMsg`
  unfoldable pub notify_msg : ℕ → List ℕ → Kv Value → Kv Value
  unfolding receive_if_known
  notify_msg now msg kv = elim (w.unmarshal msg) [
    | none ↦ kv
    | some pair ↦ if pair.key == "" then kv else receive_if_known now (length msg) pair kv
  ]

  -- the loop of `MergeRemoteState`, on fuel
  unfoldable pub merge_remote_pairs : ℕ → ℕ → List ℕ → Kv Value → Kv Value
  unfolding next_pair receive_if_known
  merge_remote_pairs now zero input kv = kv
  merge_remote_pairs now (suc fuel) [] kv = kv
  merge_remote_pairs now (suc fuel) (b ∷ bytes) kv = elim (next_pair w (b ∷ bytes)) [
    | none ↦ kv
    | some (pair, pair_length, rest) ↦
        merge_remote_pairs now fuel rest (receive_if_known now pair_length pair kv)
  ]

  -- `MergeRemoteState`; each pair takes four bytes at least
  unfoldable pub merge_remote_state : ℕ → List ℕ → Kv Value → Kv Value
  unfolding merge_remote_pairs
  merge_remote_state now input kv = merge_remote_pairs now (length input) input kv

  -- The body of the loop of `LocalState`: the pair of an entry and its encoding, `none` where the
  -- entry is skipped.
  unfoldable pub local_pair : String → ValueDesc Value → Option (KeyValuePair × List ℕ)
  local_pair key val = elim val.value [
    | none ↦ none
    | some v ↦ elim (w.codecs val.codec_id) [
      | none ↦ none
      | some codec ↦ elim (codec.encode v) [
        | none ↦ none
        | some encoded ↦
            let pair : KeyValuePair = record { key = key; value = encoded; codec = val.codec_id } in
            elim (w.marshal pair) [
              | none ↦ none
              | some ser ↦ if ltb (2 ^ 32 - 1) (length ser) then none else some (pair, ser)
            ]
      ]
    ]
  ]

  -- the loop of `LocalState`: what it writes, and the messages that it keeps
  unfoldable pub local_pairs : ℕ → Store Value → Buffers → List ℕ × Buffers
  unfolding local_pair
  local_pairs sent [] buffers = ([], buffers)
  local_pairs sent ((key, val) ∷ rest) buffers = elim (local_pair key val) [
    | none ↦ local_pairs sent rest buffers
    | some (pair, ser) ↦
        let msg : Message = record {
          id = 0;
          time = sent;
          size = length ser;
          pair = pair;
          version = val.version;
          changes = [];
        } in
        let (bytes, after) =
          local_pairs sent rest (add_sent_message cfg.message_history_buffer_bytes msg buffers) in
        (put_uint32 (length ser) ++ (ser ++ bytes), after)
  ]

  -- `LocalState`
  unfoldable pub local_state : ℕ → Kv Value → List ℕ × Kv Value
  unfolding local_pairs
  local_state sent kv =
      let (bytes, buffers) = local_pairs sent kv.store kv.buffers in
      (bytes, record kv { buffers = buffers })
