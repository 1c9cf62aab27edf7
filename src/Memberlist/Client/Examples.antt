-- ===== src/Memberlist/Client/Examples.antt =====
-- The theorems on the gossip store at concrete stores, and tests of its operations.
use dskit.Base.{
  ==_iff, All, List, Option, String, [], arith, false, if◌then◌else◌, length, ltb, nat_eq, none,
  refl, some, starts_with, string_eq, true, ℕ, ◌%◌, ◌&&◌, ◌+◌, ◌==◌, ◌^◌, ◌∷◌, ◌≡◌, ◌≢◌,
}
use dskit.Base.Maps.{insert, lookup}
use dskit.Memberlist.Broadcast.{RingBroadcast}
use dskit.Memberlist.Interface.{merged, Mergeable}
use dskit.Memberlist.Messages.{
  KeyValuePair, Message, Buffers, IsLongestSuffix, add_message_to_buffer,
  add_message_to_buffer-IsLongestSuffix,
}
use dskit.Memberlist.Store.{
  ValueDesc, Store, changed, new_value, Reply, merge_value_for_key, try_single_cas,
}
use dskit.Memberlist.Store.Versions.{
  version_at, IsVersioned, merge_value_for_key-IsVersioned, try_single_cas-succeeded,
}
use dskit.Memberlist.Watchers.{
  Watchers, Wakes, watchers_of, notify_key, notify_prefixes, notify_watchers_lem,
}
use dskit.Memberlist.Wire.{Codec, Wire}
use dskit.Memberlist.Client.{Kv, KvConfig, merge_remote_state, local_state}
use dskit.Memberlist.Client.Cas.{Round, cas_done, cas}
use dskit.Memberlist.Client.State.{receive_pairs, sent_pairs, merge_remote_state-local_state}

-- Values that are numbers; a merge takes the greater one.
abbrev numbers : Mergeable
numbers = record {
  Value = ℕ;
  merge = λ old incoming cas now.
      if ltb old incoming then merged incoming (some incoming) else merged old none;
  merge_content = λ n. "n" ∷ [];
  remove_tombstones = λ limit n. n;
}

abbrev stored : ℕ → ℕ → ValueDesc ℕ
stored n version = record { value = some n; version = version; codec_id = "c" }

abbrev two_keys : Store ℕ
two_keys = ("k", stored 5 3) ∷ ("other", stored 1 1) ∷ []

merge_value_for_key-IsVersioned_example :
    let r = merge_value_for_key numbers 60 1000 "k" 8 3 "c" two_keys in
    IsVersioned "k" two_keys r.1 r.0
merge_value_for_key-IsVersioned_example =
    merge_value_for_key-IsVersioned numbers 60 1000 "k" 8 3 "c" two_keys

merge_of_a_greater_value :
    merge_value_for_key numbers 60 1000 "k" 8 3 "c" two_keys
    ≡ (changed 8 4, ("k", stored 8 4) ∷ ("other", stored 1 1) ∷ [])
unfolding merge_value_for_key dskit.Base.Maps.lookup dskit.Base.Maps.insert
merge_of_a_greater_value = refl

abbrev set_to_nine : Option ℕ → Reply ℕ
set_to_nine old = record { out = new_value 9; retry = true; err = false }

try_single_cas-succeeded_example :
    (version_at "k" two_keys ≡ version_at "k" two_keys)
    × (◌≡◌ {A = ℕ} 4 ((version_at "k" two_keys + 1) % 2 ^ 64))
    × (version_at "k" (try_single_cas numbers 60 1000 "k" "c" set_to_nine (λ s. s) two_keys).1 ≡ 4)
unfolding try_single_cas dskit.Base.Maps.lookup
try_single_cas-succeeded_example =
    try_single_cas-succeeded numbers 60 1000 "k" "c" set_to_nine (λ s. s) two_keys (omega arith)
      refl

abbrev no_messages : Buffers
no_messages = record {
  sent_messages = [];
  sent_messages_size = 0;
  received_messages = [];
  received_messages_size = 0;
  message_counter = 0;
}

abbrev a_pair : KeyValuePair
a_pair = record { key = "k"; value = 8 ∷ []; codec = "c" }

abbrev sized : ℕ → Message
sized n = record { id = 0; time = 0; size = n; pair = a_pair; version = 0; changes = [] }

add_message_to_buffer-IsLongestSuffix_example :
    let r = add_message_to_buffer (sized 4 ∷ sized 5 ∷ []) 9 10 (sized 3) in
    IsLongestSuffix 10 (sized 4 ∷ sized 5 ∷ sized 3 ∷ []) r.0 r.1
add_message_to_buffer-IsLongestSuffix_example =
    add_message_to_buffer-IsLongestSuffix (sized 4 ∷ sized 5 ∷ []) 9 10 (sized 3) refl

oldest_dropped :
    add_message_to_buffer (sized 4 ∷ sized 5 ∷ []) 9 10 (sized 3) ≡ (sized 5 ∷ sized 3 ∷ [], 8)
unfolding add_message_to_buffer
oldest_dropped = refl

abbrev watched : Watchers
watched = ("k", record { id = 1; pending = [] } ∷ []) ∷ []

notify_watchers_lem_example :
    All (Wakes 1 "k") (watchers_of "k" (notify_key "k" watched))
    × ((p : String)
        → starts_with "k" p ≡ true
        → All (Wakes 16 "k") (watchers_of p (notify_prefixes "k" watched)))
    × ((j : String) → j ≢ "k" → watchers_of j (notify_key "k" watched) ≡ watchers_of j watched)
    × ((p : String)
        → starts_with "k" p ≡ false
        → watchers_of p (notify_prefixes "k" watched) ≡ watchers_of p watched)
notify_watchers_lem_example = notify_watchers_lem "k" watched watched

-- A codec of numbers, and an encoding of the pairs of one key.
abbrev number_codec : Codec ℕ
number_codec = record {
  codec_id = "c";
  encode = λ n. some (n ∷ []);
  decode = λ bytes. elim bytes [ [] ↦ none | n ∷ _ ↦ some (some n) ];
}

abbrev number_wire : Wire ℕ
number_wire = record {
  codecs = λ id. if id == "c" then some number_codec else none;
  marshal = λ pair. if pair.key == "k" && pair.codec == "c" then some pair.value else none;
  unmarshal = λ ser. some (record { key = "k"; value = ser; codec = "c" });
}

abbrev config : KvConfig
config = record { left_ingesters_timeout = 60; message_history_buffer_bytes = 100 }

abbrev holding : Store ℕ → Kv ℕ
holding store = record {
  store = store;
  watchers = watched;
  prefix_watchers = [];
  buffers = no_messages;
  broadcasts = [];
  running = true;
}

number_wire-marshalled :
    (pair : KeyValuePair) (ser : List ℕ)
    → number_wire.marshal pair ≡ some ser
    → number_wire.unmarshal ser ≡ some pair
number_wire-marshalled pair ser e = ground (arith, ==_iff pair.key "k", ==_iff pair.codec "c")

abbrev older : Kv ℕ
older = holding (("k", stored 2 7) ∷ [])

merge_remote_state-local_state_example :
    let (bytes, sender) = local_state numbers config number_wire 1 (holding two_keys) in
    (merge_remote_state numbers config number_wire 2 bytes older
      ≡ receive_pairs numbers config number_wire 2
          (sent_pairs numbers config number_wire two_keys)
          older)
    × (sender ≡ record (holding two_keys) { buffers = sender.buffers })
merge_remote_state-local_state_example =
    merge_remote_state-local_state numbers config number_wire number_wire-marshalled 2 1
      (holding two_keys) older

pulled :
    version_at "k"
      (merge_remote_state numbers config number_wire 2
        (local_state numbers config number_wire 1 (holding two_keys)).0
        older).store
    ≡ 8
unfolding dskit.Base.Maps.lookup merge_remote_state local_state dskit.Memberlist.Wire.put_uint32
    merge_value_for_key dskit.Base.Maps.insert
pulled = refl

-- A CAS whose function fails until one attempt is left.
abbrev rounds : ℕ → Round ℕ
rounds k = record {
  now = 1000;
  f = λ old. record { out = new_value 9; retry = true; err = ltb 0 k };
  others = λ kv. kv;
  done = false;
}

at_last : (cas numbers config number_wire 10 "k" number_codec rounds older).0 ≡ cas_done
unfolding cas lookup
at_last = refl

announced :
    length (cas numbers config number_wire 10 "k" number_codec rounds older).1.broadcasts ≡ 1
unfolding cas lookup
announced = refl

abbrev gossip : List String → ℕ → RingBroadcast
gossip content version = record { key = "k"; content = content; version = version; msg = [] }

abbrev newer_gossip : RingBroadcast
newer_gossip = gossip ("a" ∷ "b" ∷ []) 4
