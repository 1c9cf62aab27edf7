-- ===== src/Kv/Consul/Watch.antt =====
-- kv/consul/client.go: Get, List, Put, Delete, checkLastIndex, WatchKey and WatchPrefix; and the Get,
-- List and Delete of kv/consul/mock.go where they need not wait.
use dskit.Base.{
  ==_iff, Bool, List, Option, String, [], arith, false, if◌then◌else◌, keep, leb, ltb, map, nat_eq,
  none, some, starts_with, string_eq, suc, true, zero, ℕ, ◌&&◌, ◌<◌, ◌==◌, ◌∷◌, ◌≡◌,
}
use dskit.Base.Maps.{Map, delete}
use dskit.Kv.Consul.{ValueCodec, Mock, Pair, write_pair}

-- the errors of `Get`, and of the other requests
pub data GetResult {ℓ} (V : Type ℓ) : Type ℓ where
  got : Option V → GetResult V
  get_error : GetResult V

module _ {V B : Type 0} (codec : ValueCodec V B) where
  -- `Client.Get`, of what the store answers; `none` is its error
  unfoldable pub client_get : Option (Option (Pair B)) → GetResult V
  client_get none = get_error
  client_get (some none) = got none
  client_get (some (some p)) = elim (codec.decode p.value) [
    | none ↦ get_error
    | some v ↦ got (some v)
  ]

  -- `Client.Put` on the mock; whether there was no error, and the store
  unfoldable pub client_put : String → V → Mock B → Bool × Mock B
  unfolding write_pair
  client_put key v m = elim (codec.encode v) [
    | none ↦ (false, m)
    | some b ↦ (true, write_pair key b m)
  ]

-- `mockKV.List` with no index to wait for
unfoldable pub mock_list : {B : Type 0} → String → Mock B → Map String (Pair B)
mock_list prefix m = keep (λ ((key, p) : String × Pair _). starts_with key prefix) m.kvps

-- `Client.List` on the mock
unfoldable pub client_list : {B : Type 0} → String → Mock B → List String
unfolding mock_list
client_list prefix m = map (λ ((key, p) : String × Pair _). key) (mock_list prefix m)

-- `mockKV.Delete`
unfoldable pub mock_delete : {B : Type 0} → String → Mock B → Mock B
mock_delete key m = record m { kvps = delete key m.kvps }

-- `checkLastIndex`: the index to wait for next, and whether to skip the answer
unfoldable pub check_last_index : ℕ → ℕ → ℕ × Bool
check_last_index index zero = (1, false)
check_last_index index (suc last) =
    if ltb (suc last) index
    then (0, false)
    else if index == suc last
    then (suc last, true)
    else (suc last, false)

-- What a long poll answers: an error, or a pair if there is one, and the last index.
pub data Answer (B : Type 0) : Type 0 where
  poll_error : Answer B
  answer : Option B → ℕ → Answer B

module _ {V B : Type 0} (codec : ValueCodec V B) (f : V → Bool) where
  -- the value of an answer that is not skipped
  unfoldable pub new_value : Bool → Option B → Option V
  new_value true b = none
  new_value false none = none
  new_value false (some b) = codec.decode b

  -- the loop of `WatchKey` over the answers of its polls, from an index: the values that it reports
  unfoldable pub watch_key : List (Answer B) → ℕ → List V
  unfolding new_value check_last_index
  watch_key [] index = []
  watch_key (poll_error ∷ answers) index = watch_key answers index
  watch_key (answer b last ∷ answers) index =
      let (index', skip) = check_last_index index last in
      let rest = watch_key answers index' in
      elim (new_value skip b) [ none ↦ rest | some v ↦ if f v then v ∷ rest else v ∷ [] ]

-- the test of `WatchPrefix` that passes over pairs that have not changed
unfoldable pub is_old : {B : Type 0} → ℕ → Pair B → Bool
is_old index p = ltb 0 index && (leb p.modify_index index && leb p.create_index index)

-- A value that was read at the last index is not reported again.
pub watch_key-same_index :
    {V B : Type 0} (codec : ValueCodec V B) (f : V → Bool) (b : Option B)
    (answers : List (Answer B)) (index : ℕ)
    → 0 < index
    → watch_key codec f (answer b index ∷ answers) index ≡ watch_key codec f answers index
unfolding watch_key
watch_key-same_index codec f b answers zero h = absurd (omega arith)
watch_key-same_index codec f b answers (suc n) h = ground (arith, ==_iff (suc n) (suc n))
