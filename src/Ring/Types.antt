-- ===== src/Ring/Types.antt =====
-- ring/ring.pb.go and ring/ring.go: the data that the ring keeps.
-- A heartbeat's timestamp (int64) is a natural number of seconds. The time of registration, also
-- int64, may be negative; 0 stands for "unknown", as in the code.
use dskit.Base.{
  Bool, List, String, [], arith, nat_beq, nat_eq, none, some, string_eq, true, ℕ, ◌↔◌, ◌≡◌,
}
use dskit.Base.Int.{int_eq, pos, ℤ}
use dskit.Base.Maps.{Map, lookup}

pub data InstanceState : Type 0 where
  active leaving pending joining left : InstanceState

-- The number that the protobuf enum gives to a state.
abbrev pub state_number : InstanceState → ℕ
state_number active = 0
state_number leaving = 1
state_number pending = 2
state_number joining = 3
state_number left = 4

abbrev pub state_eq : InstanceState → InstanceState → Bool
state_eq s t = nat_beq (state_number s) (state_number t)

pub record InstanceDesc : Type 0 where
  pub addr : String
  pub timestamp : ℕ
  pub state : InstanceState
  pub tokens : List ℕ
  pub zone : String
  pub registered_timestamp : ℤ

-- Go's zero value, which a map returns for a missing key.
abbrev pub zero_instance : InstanceDesc
zero_instance = record {
  addr = "";
  timestamp = 0;
  state = active;
  tokens = [];
  zone = "";
  registered_timestamp = pos 0;
}

pub record Desc : Type 0 where
  pub ingesters : Map String InstanceDesc

-- `ingesters[id]`, with the zero value for a missing key.
abbrev pub instance_at : String → Map String InstanceDesc → InstanceDesc
instance_at id m = elim (lookup id m) [ none ↦ zero_instance | some i ↦ i ]

pub state_eq_iff : (s t : InstanceState) → (state_eq s t ≡ true) ↔ (s ≡ t)
state_eq_iff s t = ground arith
