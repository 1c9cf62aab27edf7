-- ===== src/Ring/Changes.antt =====
-- ring/replication_set.go: HasReplicationSetChanged and HasReplicationSetChangedWithoutState.
use dskit.Base.{Bool, List, [], false, if◌then◌else◌, length, nat_beq, str_ltb, true, ◌&&◌, ◌∷◌}
use dskit.Ring.Types.{InstanceDesc, pending}
use dskit.Ring.State.{ReplicationSet}
use dskit.Ring.Compare.{same_instance, same_state_and_timestamp}

-- `sort.Sort(ByAddr(...))`
unfoldable pub insert_by_addr : InstanceDesc → List InstanceDesc → List InstanceDesc
insert_by_addr i [] = i ∷ []
insert_by_addr i (j ∷ js) =
    let rest = insert_by_addr i js in if str_ltb j.addr i.addr then j ∷ rest else i ∷ j ∷ js

unfoldable pub sort_by_addr : List InstanceDesc → List InstanceDesc
unfolding insert_by_addr
sort_by_addr [] = []
sort_by_addr (i ∷ is) = insert_by_addr i (sort_by_addr is)

-- the loop over both sets, where `exclude` resets what must not count
unfoldable pub differ : (InstanceDesc → InstanceDesc) → List InstanceDesc → List InstanceDesc → Bool
unfolding same_instance same_state_and_timestamp
differ exclude [] others = false
differ exclude (b ∷ bs) [] = false
differ exclude (b ∷ bs) (a ∷ others) =
    let rest = differ exclude bs others in
    if same_instance (exclude b) (exclude a) && same_state_and_timestamp (exclude b) (exclude a)
    then rest
    else true

-- `hasReplicationSetChangedExcluding`
unfoldable pub has_changed_excluding :
    ReplicationSet → ReplicationSet → (InstanceDesc → InstanceDesc) → Bool
unfolding sort_by_addr differ
has_changed_excluding before after exclude =
    if nat_beq (length before.instances) (length after.instances)
    then differ exclude (sort_by_addr before.instances) (sort_by_addr after.instances)
    else true

-- `HasReplicationSetChanged`
unfoldable pub has_replication_set_changed : ReplicationSet → ReplicationSet → Bool
unfolding has_changed_excluding
has_replication_set_changed before after =
    has_changed_excluding before after (λ i. record i { timestamp = 0 })

-- `HasReplicationSetChangedWithoutState`
unfoldable pub has_replication_set_changed_without_state : ReplicationSet → ReplicationSet → Bool
unfolding has_changed_excluding
has_replication_set_changed_without_state before after =
    has_changed_excluding before after (λ i. record i { timestamp = 0; state = pending })
