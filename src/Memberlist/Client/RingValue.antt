-- ===== src/Memberlist/Client/RingValue.antt =====
-- ring/model.go as a value of the store in kv/memberlist: `Merge`, `MergeContent` and
-- `RemoveTombstones` of `Desc`.
use dskit.Base.{
  Bool, List, Option, String, ap, arith, false, map, nat_eq, none, refl, some, string_eq, subst, ℕ,
  ◌/◌, ◌≡◌,
}
use dskit.Base.Maps.{IsMap}
use dskit.Ring.Types.{Desc, InstanceDesc}
mod Examples
use dskit.Memberlist.Interface.{Merged, merged, merge_failed, Mergeable, IsIdempotent}
use dskit.Memberlist.Messages.{KeyValuePair}
use dskit.Memberlist.Wire.{Codec, Wire}
use dskit.Memberlist.Client.{Kv, receive_pair}
use dskit.Memberlist.Client.Quiet.{Holds, keeping, receive_pair-again}
use dskit.Ring.Desc.{remove_tombstones}
use dskit.Ring.Merge
use dskit.Ring.Merge.{MergeResult, merge_with_time}
use dskit.Ring.Merge.Result.{receive, receive_again}

abbrev from_result : MergeResult → Merged Desc
from_result (Merge.merged d change) = merged d change
from_result Merge.wrong_type = merge_failed

-- `Merge`, which gives the change as an interface value
unfoldable pub merge : Desc → Desc → Bool → ℕ → Merged Desc
unfolding merge_with_time
merge d other local_cas now =
    from_result (merge_with_time d (Merge.ring (some other)) local_cas now)

-- `MergeContent`
unfoldable pub merge_content : Desc → List String
merge_content d = map (λ ((name, i) : String × InstanceDesc). name) d.ingesters

abbrev pub ring_mergeable : Mergeable
ring_mergeable = record {
  Value = Desc;
  merge = merge;
  merge_content = merge_content;
  remove_tombstones = λ limit d. record { ingesters = (remove_tombstones limit d.ingesters).0 };
}

merged-result : {r s : Desc} {c e : Option Desc} → merged r c ≡ merged s e → r ≡ s
merged-result e = ground arith

merge-receive :
    (now : ℕ) (d other : Desc) {result : Desc} {change : Option Desc}
    → merge d other false now ≡ merged result change
    → receive now d other ≡ result
unfolding merge merge_with_time
merge-receive now d other e = merged-result e

pub merge_again :
    (now later : ℕ) (d other : Desc) {result : Desc} {change : Option Desc}
    → IsMap d.ingesters
    → IsMap other.ingesters
    → merge d other false now ≡ merged result change
    → merge result other false later ≡ merged result none
merge_again now later d other {result} {change} h k e =
    let same = merge-receive now d other e in
    subst (λ r. merge r other false later ≡ merged r none) same
      (unfold merge in ap from_result (receive_again now later d other h k))

abbrev pub ring_idempotent : IsIdempotent ring_mergeable
ring_idempotent = record { IsProper = λ d. IsMap d.ingesters; merge_again = merge_again }

merge_total :
    (now : ℕ) (d other : Desc)
    → (result : Desc) × (change : Option Desc) × (merge d other false now ≡ merged result change)
unfolding merge merge_with_time
merge_total now d other = (_, _, refl)

-- A message with a ring that arrives again, at any later time, wakes no watcher and queues no
-- broadcast: these stay as the first time left them. The key has a ring, the two rings are maps,
-- and no tombstones are dropped.
pub receive_ring-again :
    (w : Wire Desc) (history now later size : ℕ) (pair : KeyValuePair) (codec : Codec Desc)
    (old incoming : Desc) (kv : Kv Desc)
    → codec.decode pair.value ≡ some (some incoming)
    → Holds ring_mergeable pair.key old kv.store
    → IsMap old.ingesters
    → IsMap incoming.ingesters
    → let cfg = keeping history in
      let first = receive_pair ring_mergeable cfg w now size pair codec kv in
      let second = receive_pair ring_mergeable cfg w later size pair codec first in
      (second.watchers ≡ first.watchers)
      × (second.prefix_watchers ≡ first.prefix_watchers)
      × (second.broadcasts ≡ first.broadcasts)
receive_ring-again w history now later size pair codec old incoming kv e h p q =
    let (result, change, m) = merge_total (now / 1_000_000_000) old incoming in
    receive_pair-again ring_mergeable ring_idempotent w history now later size pair codec old
      incoming result change kv e h p q m
