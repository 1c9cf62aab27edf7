-- ===== src/Memberlist/Messages.antt =====
-- kv/memberlist/memberlist_client.go: the buffers with the messages sent and received.
use dskit.Base.{
  Bool-cases, List, String, [], ap, arith, if◌then◌else◌, inl, inr, ltb, nat_eq, refl, string_eq,
  sym, ℕ, ◌++◌, ◌+◌, ◌-◌, ◌<◌, ◌==◌, ◌∙◌, ◌∷◌, ◌≡◌, ◌≤◌,
}

-- `KeyValuePair`; a byte is a number.
pub record KeyValuePair : Type 0 where
  pub key : String
  pub value : List ℕ
  pub codec : String

-- `message`
pub record Message : Type 0 where
  pub id : ℕ
  pub time : ℕ
  pub size : ℕ
  pub pair : KeyValuePair
  pub version : ℕ
  pub changes : List String

-- The fields of `KV` that hold messages.
pub record Buffers : Type 0 where
  pub sent_messages : List Message
  pub sent_messages_size : ℕ
  pub received_messages : List Message
  pub received_messages_size : ℕ
  pub message_counter : ℕ

-- the loop of `addMessageToBuffer`
unfoldable pub drop_oldest : ℕ → List Message → ℕ → List Message × ℕ
drop_oldest limit [] size = ([], size)
drop_oldest limit (m ∷ msgs) size =
    let rest = drop_oldest limit msgs (size - m.size) in
    if ltb limit size then rest else (m ∷ msgs, size)

-- `addMessageToBuffer`
unfoldable pub add_message_to_buffer : List Message → ℕ → ℕ → Message → List Message × ℕ
unfolding drop_oldest
add_message_to_buffer msgs size limit msg = drop_oldest limit (msgs ++ msg ∷ []) (size + msg.size)

-- `addReceivedMessage`, where `limit` is `MessageHistoryBufferBytes`
unfoldable pub add_received_message : ℕ → Message → Buffers → Buffers
unfolding add_message_to_buffer
add_received_message limit msg b =
    if limit == 0
    then b
    else (let counter = b.message_counter + 1 in
        let (msgs, size) =
          add_message_to_buffer b.received_messages b.received_messages_size limit
            (record msg { id = counter }) in
        record b {
          received_messages = msgs;
          received_messages_size = size;
          message_counter = counter;
        })

-- `addSentMessage`
unfoldable pub add_sent_message : ℕ → Message → Buffers → Buffers
unfolding add_message_to_buffer
add_sent_message limit msg b =
    if limit == 0
    then b
    else (let counter = b.message_counter + 1 in
        let (msgs, size) =
          add_message_to_buffer b.sent_messages b.sent_messages_size limit
            (record msg { id = counter }) in
        record b { sent_messages = msgs; sent_messages_size = size; message_counter = counter })

-- `getSentAndReceivedMessages`
abbrev pub sent_and_received_messages : Buffers → List Message × List Message
sent_and_received_messages b = (b.sent_messages, b.received_messages)

-- `deleteSentReceivedMessages`
abbrev pub delete_sent_received_messages : Buffers → Buffers
delete_sent_received_messages b = record b {
  sent_messages = [];
  sent_messages_size = 0;
  received_messages = [];
  received_messages_size = 0;
}

abbrev pub total_size : List Message → ℕ
total_size [] = 0
total_size (m ∷ msgs) = m.size + total_size msgs

total_size-append : (xs ys : List Message) → total_size (xs ++ ys) ≡ total_size xs + total_size ys
total_size-append [] ys = omega arith
total_size-append (x ∷ xs) ys = omega (arith, total_size-append xs ys)

-- With the messages of the size `kept_size`, each suffix of a list of messages is over the limit.
abbrev pub EachIsOver : ℕ → ℕ → List Message → Type 0
EachIsOver limit kept_size [] = Unit
EachIsOver limit kept_size (m ∷ rest) =
    (limit < m.size + total_size rest + kept_size) × EachIsOver limit kept_size rest

-- What a buffer of a size limit keeps of a list of messages: the longest suffix that fits, with its
-- size.
pub record IsLongestSuffix (limit : ℕ) (msgs kept : List Message) (size : ℕ) : Type 0 where
  pub dropped : List Message
  pub parts : dropped ++ kept ≡ msgs
  pub sized : size ≡ total_size kept
  pub fits : size ≤ limit
  pub longest : EachIsOver limit size dropped

one_dropped :
    {limit : ℕ} (x : Message) {msgs kept : List Message} {size : ℕ}
    → limit < total_size (x ∷ msgs)
    → IsLongestSuffix limit msgs kept size
    → IsLongestSuffix limit (x ∷ msgs) kept size
one_dropped {limit} x {msgs} {kept} {size} over s =
    let whole : total_size s.dropped + total_size kept ≡ total_size msgs =
      sym (total_size-append s.dropped kept) ∙ ap total_size s.parts in
    record {
      dropped = x ∷ s.dropped;
      parts = ap (λ rest. x ∷ rest) s.parts;
      sized = s.sized;
      fits = s.fits;
      longest = (omega (arith, whole, s.sized), s.longest);
    }

drop_oldest_lem :
    (limit : ℕ) (msgs : List Message) (size : ℕ)
    → size ≡ total_size msgs
    → let (kept, left) = drop_oldest limit msgs size in IsLongestSuffix limit msgs kept left
unfolding drop_oldest
drop_oldest_lem limit [] size e = record {
  dropped = [];
  parts = refl;
  sized = e;
  fits = omega arith;
  longest = tt;
}
drop_oldest_lem limit (x ∷ msgs) size e = elim (Bool-cases (ltb limit size)) [
  | inl over ↦
      rw over
        (one_dropped x (ground arith) (drop_oldest_lem limit msgs (size - x.size) (omega arith)))
  | inr within ↦
      rw within
        (record { dropped = []; parts = refl; sized = e; fits = ground arith; longest = tt })
]

-- A buffer whose size is right for its messages keeps, of these and a message that is added, the
-- longest suffix within the limit, and its size is right again.
pub add_message_to_buffer-IsLongestSuffix :
    (msgs : List Message) (size limit : ℕ) (msg : Message)
    → size ≡ total_size msgs
    → let (kept, left) = add_message_to_buffer msgs size limit msg in
      IsLongestSuffix limit (msgs ++ msg ∷ []) kept left
unfolding add_message_to_buffer
add_message_to_buffer-IsLongestSuffix msgs size limit msg e =
    drop_oldest_lem limit (msgs ++ msg ∷ []) (size + msg.size)
      (omega (arith, total_size-append msgs (msg ∷ [])))
