-- ===== src/Ring/Desc.antt =====
-- ring/model.go: the operations on Desc but merging and comparing. `now` is the clock in seconds
-- where the code uses Unix seconds, and in nanoseconds (`now_ns`) for heartbeats.
use dskit.Base.{
  Bool, List, Option, String, [], if◌then◌else◌, leb, length, ltb, nat_eq, none, not, some,
  string_eq, true, ℕ, ◌&&◌, ◌*◌, ◌+◌, ◌-◌, ◌==◌, ◌∷◌,
}
use dskit.Base.Int.{int_eq, negsuc, pos, ℤ}
use dskit.Base.Maps.{Map, delete, insert, lookup}
use dskit.Ring.Types.{Desc, InstanceDesc, InstanceState, active, instance_at, left, state_eq}
use dskit.Ring.Operation.{is_instance_in_state_healthy}

-- `NewDesc`
unfoldable pub new_desc : Desc
new_desc = record { ingesters = [] }

-- the Unix time of Go's zero time, 1 January of the year 1
abbrev pub zero_time : ℤ
zero_time = negsuc 62_135_596_799

-- `AddIngester`; `registered_at` is the time by its Unix seconds
unfoldable pub add_ingester :
    ℕ → Desc → String → String → String → List ℕ → InstanceState → ℤ → Desc × InstanceDesc
add_ingester now d id addr zone tokens state registered_at =
    let ingester : InstanceDesc = record {
      addr = addr;
      timestamp = now;
      state = state;
      tokens = tokens;
      zone = zone;
      registered_timestamp = if registered_at == zero_time then pos 0 else registered_at;
    } in
    (record { ingesters = insert id ingester d.ingesters }, ingester)

-- `RemoveIngester`
unfoldable pub remove_ingester : Desc → String → Desc
remove_ingester d id = record { ingesters = delete id d.ingesters }

-- the first half of `ClaimTokens`: the tokens taken, and the map without them
unfoldable pub take_tokens :
    Map String InstanceDesc → String → Option InstanceDesc → List ℕ × Map String InstanceDesc
take_tokens m from none = ([], m)
take_tokens m from (some i) = (i.tokens, insert from (record i { tokens = [] }) m)

-- `ClaimTokens`
unfoldable pub claim_tokens : Desc → String → String → Desc × List ℕ
unfolding take_tokens
claim_tokens d from to =
    let (result, m) = take_tokens d.ingesters from (lookup from d.ingesters) in
    (record { ingesters = insert to (record (instance_at to m) { tokens = result }) m }, result)

-- `FindIngestersByState`
unfoldable pub find_ingesters_by_state : InstanceState → Map String InstanceDesc → List InstanceDesc
find_ingesters_by_state state [] = []
find_ingesters_by_state state ((id, ing) ∷ m) =
    let rest = find_ingesters_by_state state m in
    if state_eq ing.state state then ing ∷ rest else rest

-- `IsHeartbeatHealthy`; timeouts are not negative, so a clock behind the heartbeat is in time
unfoldable pub is_heartbeat_healthy : InstanceDesc → ℕ → ℕ → Bool
is_heartbeat_healthy i timeout now_ns =
    if timeout == 0 then true else leb (now_ns - i.timestamp * 1_000_000_000) timeout

-- `InstanceDesc.IsHealthy`
unfoldable pub is_healthy : InstanceDesc → ℕ → ℕ → ℕ → Bool
is_healthy i op timeout now_ns =
    is_instance_in_state_healthy op i.state && is_heartbeat_healthy i timeout now_ns

-- The errors of `IsReady`, without their texts.
pub data NotReady : Type 0 where
  past_heartbeat : (addr : String) → NotReady
  in_state : (addr : String) (state : InstanceState) → NotReady
  no_tokens : NotReady

-- `InstanceDesc.IsReady`: `none` is no error
unfoldable pub instance_is_ready : InstanceDesc → ℕ → ℕ → Option NotReady
instance_is_ready i now_ns timeout =
    if not (is_heartbeat_healthy i timeout now_ns)
    then some (past_heartbeat i.addr)
    else if not (state_eq i.state active)
    then some (in_state i.addr i.state)
    else none

-- the loop of `Desc.IsReady`, with the number of tokens so far
unfoldable pub ready_from : ℕ → ℕ → ℕ → Map String InstanceDesc → Option NotReady
ready_from now_ns timeout num_tokens [] = if num_tokens == 0 then some no_tokens else none
ready_from now_ns timeout num_tokens ((id, i) ∷ m) =
    let rest = ready_from now_ns timeout (num_tokens + length i.tokens) m in
    elim (instance_is_ready i now_ns timeout) [ some e ↦ some e | none ↦ rest ]

-- `Desc.IsReady`
unfoldable pub is_ready : Desc → ℕ → ℕ → Option NotReady
unfolding ready_from
is_ready d now_ns timeout = ready_from now_ns timeout 0 d.ingesters

-- whether `RemoveTombstones` deletes an entry; the limit is in
-- nanoseconds, `none` for the zero time
unfoldable pub is_expired_tombstone : Option ℕ → InstanceDesc → Bool
is_expired_tombstone none i = state_eq i.state left
is_expired_tombstone (some limit_ns) i =
    state_eq i.state left && ltb (i.timestamp * 1_000_000_000) limit_ns

-- `RemoveTombstones`: the map left, and the numbers of LEFT instances kept and removed
unfoldable pub remove_tombstones :
    Option ℕ → Map String InstanceDesc → Map String InstanceDesc × ℕ × ℕ
remove_tombstones limit [] = ([], 0, 0)
remove_tombstones limit ((id, i) ∷ m) =
    let (kept, total, removed) = remove_tombstones limit m in
    if is_expired_tombstone limit i
    then (kept, total, removed + 1)
    else ((id, i) ∷ kept, if state_eq i.state left then total + 1 else total, removed)

-- `GetRegisteredAt`, by its Unix seconds
unfoldable pub get_registered_at : InstanceDesc → ℤ
get_registered_at i = if i.registered_timestamp == pos 0 then zero_time else i.registered_timestamp
