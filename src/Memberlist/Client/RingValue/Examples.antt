-- ===== src/Memberlist/Client/RingValue/Examples.antt =====
-- A message with a ring that arrives twice, at a concrete store.
use dskit.Base.{[], length, nat_eq, none, refl, some, string_eq, true, ℕ, ◌∷◌, ◌≡◌}
use dskit.Base.Maps.{insert, lookup}
use dskit.Ring.Types.{Desc, zero_instance}
use dskit.Memberlist.Messages.{KeyValuePair}
use dskit.Memberlist.Wire.{Codec, Wire}
use dskit.Memberlist.Client.{Kv, receive_pair}
use dskit.Memberlist.Client.Quiet.{keeping}
use dskit.Memberlist.Client.RingValue.{ring_mergeable, receive_ring-again}

abbrev seen_at : ℕ → Desc
seen_at time = record {
  ingesters = ("a", record zero_instance { addr = "a:1"; timestamp = time }) ∷ [];
}

abbrev ring_codec : Codec Desc
ring_codec = record {
  codec_id = "ring";
  encode = λ d. some [];
  decode = λ bytes. some (some (seen_at 20));
}

abbrev ring_wire : Wire Desc
ring_wire = record {
  codecs = λ id. some ring_codec;
  marshal = λ pair. some [];
  unmarshal = λ ser. none;
}

abbrev ring_pair : KeyValuePair
ring_pair = record { key = "ring"; value = []; codec = "ring" }

abbrev ring_kv : Kv Desc
ring_kv = record {
  store = ("ring", record { value = some (seen_at 10); version = 1; codec_id = "ring" }) ∷ [];
  watchers = ("ring", record { id = 1; pending = [] } ∷ []) ∷ [];
  prefix_watchers = [];
  buffers = record {
    sent_messages = [];
    sent_messages_size = 0;
    received_messages = [];
    received_messages_size = 0;
    message_counter = 0;
  };
  broadcasts = [];
  running = true;
}

receive_ring-again_example :
    let first =
      receive_pair ring_mergeable
        (keeping 0)
        ring_wire
        30_000_000_000
        9
        ring_pair
        ring_codec
        ring_kv in
    let second =
      receive_pair ring_mergeable
        (keeping 0)
        ring_wire
        40_000_000_000
        9
        ring_pair
        ring_codec
        first in
    (second.watchers ≡ first.watchers)
    × (second.prefix_watchers ≡ first.prefix_watchers)
    × (second.broadcasts ≡ first.broadcasts)
unfolding dskit.Base.Maps.lookup
receive_ring-again_example =
    receive_ring-again ring_wire 0 30_000_000_000 40_000_000_000 9 ring_pair ring_codec (seen_at 10)
      (seen_at 20) ring_kv refl refl (refl, tt) (refl, tt)

-- The first time it is announced.
announced :
    length
      (receive_pair ring_mergeable
        (keeping 0)
        ring_wire
        30_000_000_000
        9
        ring_pair
        ring_codec
        ring_kv).broadcasts
    ≡ 1
unfolding receive_pair dskit.Memberlist.Store.merge_value_for_key dskit.Base.Maps.lookup
    dskit.Memberlist.Client.RingValue.merge dskit.Memberlist.Client.RingValue.merge_content
    dskit.Base.Maps.insert
announced = refl
