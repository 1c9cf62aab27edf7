-- ===== src/Kv/Consul.antt =====
-- kv/consul/client.go: the loop of CAS, and kv/consul/mock.go: the store in memory that stands for
-- Consul. The mock's calls run under its lock, so each is one step; others write between them.
use dskit.Base.{
  Bool, List, Option, String, [], false, if◌then◌else◌, nat_eq, none, not, some, string_eq, suc,
  true, zero, ℕ, ◌%◌, ◌+◌, ◌==◌, ◌||◌, ◌∷◌,
}
use dskit.Base.Maps.{Map, insert, lookup}
use mathlib.Core.Option
use dskit.Kv.{CasOut, keep_value, refuse, store, try_again}
mod Indices
mod Atomic
mod Loop
pub mod Watch
mod Examples

-- `KVPair`, over the type of the values' bytes
pub record Pair (B : Type 0) : Type 0 where
  pub value : B
  pub create_index : ℕ
  pub modify_index : ℕ

-- `mockKV`
pub record Mock (B : Type 0) : Type 0 where
  pub kvps : Map String (Pair B)
  pub current : ℕ

-- The codec, whose functions may fail.
pub record ValueCodec (V B : Type 0) : Type 0 where
  pub encode : V → Option B
  pub decode : B → Option V

-- A write of another client.
pub data Write (B : Type 0) : Type 0 where
  other_put : String → B → Write B
  other_cas : String → B → ℕ → Write B

-- What happens around a round of the loop: the environment of the callback, what others write before
-- the Get and between it and the CAS, and whether these two requests fail before the store runs them.
pub record Round (E B : Type 0) : Type 0 where
  pub env : E
  pub before : List (Write B)
  pub between : List (Write B)
  pub get_fails : Bool
  pub cas_fails : Bool

module _ {B : Type 0} where
  -- `m.current++` of a uint64
  abbrev pub next_index : Mock B → ℕ
  next_index m = (m.current + 1) % 18_446_744_073_709_551_616

  -- the pair that a write leaves
  unfoldable pub written_pair : ℕ → B → Option (Pair B) → Pair B
  written_pair index b none = record { value = b; create_index = index; modify_index = index }
  written_pair index b (some existing) = record existing { value = b; modify_index = index }

  -- the second half of `mockKV.Put` and of `mockKV.CAS`
  unfoldable pub write_pair : String → B → Mock B → Mock B
  unfolding written_pair
  write_pair key b m = record {
    kvps = insert key (written_pair (next_index m) b (lookup key m.kvps)) m.kvps;
    current = next_index m;
  }

  -- the test of `mockKV.CAS`
  unfoldable pub index_differs : ℕ → Option (Pair B) → Bool
  index_differs index none = false
  index_differs index (some existing) = not (existing.modify_index == index)

  -- `mockKV.CAS`
  unfoldable pub mock_cas : String → B → ℕ → Mock B → Bool × Mock B
  unfolding index_differs write_pair
  mock_cas key b index m =
      if index_differs index (lookup key m.kvps) then (false, m) else (true, write_pair key b m)

  unfoldable pub apply_write : Write B → Mock B → Mock B
  unfolding write_pair mock_cas
  apply_write (other_put key b) m = write_pair key b m
  apply_write (other_cas key b index) m = (mock_cas key b index m).1

  unfoldable pub apply_writes : List (Write B) → Mock B → Mock B
  unfolding apply_write
  apply_writes [] m = m
  apply_writes (w ∷ ws) m = apply_writes ws (apply_write w m)

-- `retries` of `cas`
unfoldable pub cas_retries : ℕ → ℕ
cas_retries max_cas_retries = if max_cas_retries == 0 then 10 else max_cas_retries

-- The end of `cas`: the caller's variables, the store, and whether there was no error.
pub record ClientEnd (S B : Type 0) : Type 0 where
  pub caller : S
  pub mock : Mock B
  pub no_error : Bool

module _ {E S V B : Type 0} (codec : ValueCodec V B) (key : String)
    (f : E → Option V → S → Option (S × CasOut V)) (rounds : ℕ → Round E B) where
  -- How the rest of the loop goes on, from an index, the caller's variables and the store; `none`
  -- while a callback has not returned.
  abbrev pub Rest : Type 0
  Rest = ℕ → S → Mock B → Option (ClientEnd S B)

  -- the end of a round, once the value is encoded
  unfoldable pub swap : Round E B → Rest → B → ℕ → S → Mock B → Option (ClientEnd S B)
  unfolding mock_cas apply_writes
  swap r rest b index s m =
      let m1 = apply_writes r.between m in
      let (swapped, m2) = mock_cas key b index m1 in
      let again = rest index s m1 in
      if r.cas_fails || not swapped
      then again
      else some (record { caller = s; mock = m2; no_error = true })

  -- what a round makes of the callback's result
  unfoldable pub after_call : Round E B → Rest → ℕ → Mock B → S → CasOut V → Option (ClientEnd S B)
  unfolding swap
  after_call r rest index m s keep_value = some (record { caller = s; mock = m; no_error = true })
  after_call r rest index m s refuse = some (record { caller = s; mock = m; no_error = false })
  after_call r rest index m s try_again = rest index s m
  after_call r rest index m s (store v) = elim (codec.encode v) [
    | none ↦ rest index s m
    | some b ↦ swap r rest b index s m
  ]

  unfoldable pub call_back : Round E B → Rest → ℕ → S → Mock B → Option V → Option (ClientEnd S B)
  unfolding after_call
  call_back r rest index s m intermediate = elim (f r.env intermediate s) [
    | none ↦ none
    | some (s', out) ↦ after_call r rest index m s' out
  ]

  -- a round after its Get, which decodes what it found
  unfoldable pub decode_pair :
      Round E B → Rest → ℕ → S → Mock B → Option (Pair B) → Option (ClientEnd S B)
  unfolding call_back
  decode_pair r rest index s m none = call_back r rest index s m none
  decode_pair r rest index s m (some p) = elim (codec.decode p.value) [
    | none ↦ rest index s m
    | some v ↦ call_back r rest p.modify_index s m (some v)
  ]

  -- the loop of `cas`, with the rounds left and the number of the round
  unfoldable pub cas_loop : ℕ → ℕ → Rest
  unfolding decode_pair apply_writes
  cas_loop zero i index s m = some (record { caller = s; mock = m; no_error = false })
  cas_loop (suc n) i index s m =
      let r = rounds i in
      let m1 = apply_writes r.before m in
      let rest : Rest = λ index' s' m'. cas_loop n (i + 1) index' s' m' in
      if r.get_fails then rest index s m1 else decode_pair r rest index s m1 (lookup key m1.kvps)

  -- `cas`, which is `CAS`
  unfoldable pub client_cas : ℕ → S → Mock B → Option (ClientEnd S B)
  unfolding cas_loop cas_retries
  client_cas max_cas_retries s m = cas_loop (cas_retries max_cas_retries) 0 0 s m
