-- ===== src/Kv/Consul/Examples.antt =====
-- The theorem on the CAS loop at a concrete store that another client writes to, and tests.
use dskit.Base.{
  Bool-cases, Option, [], arith, false, if◌then◌else◌, inl, inr, nat_eq, none, not, refl, some,
  string_eq, sym, true, ℕ, ◌+◌, ◌==◌, ◌∷◌, ◌≡◌, ◌≤◌,
}
use dskit.Base.Maps.{insert, lookup}
use dskit.Kv.{CasOut, store}
use dskit.Kv.Consul.{ClientEnd, ValueCodec, Mock, Pair, Round, cas_retries, client_cas, other_put}
use dskit.Kv.Consul.Atomic.{IsCodec, Refines, writes_left}
use dskit.Kv.Consul.Indices.{InBounds, max_index}
use dskit.Kv.Consul.Loop.{client_cas-Refines}
use dskit.Kv.Consul.Watch.{answer, poll_error, watch_key}

-- Numbers that are stored as they are.
abbrev plain : ValueCodec ℕ ℕ
plain = record { encode = λ n. some n; decode = λ n. some n }

plain_round_trip : (v b : ℕ) → some v ≡ some b → some b ≡ some v
plain_round_trip v b h = sym h

plain-IsCodec : IsCodec plain
plain-IsCodec = record { round_trip = plain_round_trip }

-- A callback that adds one.
add_one : ℕ → Option ℕ → Unit {0} → Option (Unit {0} × CasOut ℕ)
add_one e none u = some (u, store 1)
add_one e (some n) u = some (u, store (n + 1))

abbrev five : Pair ℕ
five = record { value = 5; create_index = 1; modify_index = 1 }

abbrev counter : Mock ℕ
counter = record { kvps = ("n", five) ∷ []; current = 1 }

-- Another client writes between the first Get and CAS.
abbrev disturbed : ℕ → Round ℕ ℕ
disturbed i = record {
  env = 0;
  before = [];
  between = if i == 0 then other_put "n" 40 ∷ [] else [];
  get_fails = false;
  cas_fails = false;
}

abbrev counted : ClientEnd (Unit {0}) ℕ
counted = record {
  caller = tt;
  mock = record {
    kvps = ("n", record { value = 41; create_index = 1; modify_index = 3 }) ∷ [];
    current = 3;
  };
  no_error = true;
}

-- The second round adds to the other client's value.
is_counted : client_cas plain "n" add_one disturbed 2 tt counter ≡ some counted
unfolding client_cas add_one lookup dskit.Base.Maps.insert
is_counted = refl

counter-InBounds : InBounds counter
unfolding lookup
counter-InBounds key p found = elim (Bool-cases ("n" == key)) [
  | inl same ↦ let is_five : five ≡ p = ground arith in rw (← is_five) (omega arith, omega arith)
  | inr other ↦ absurd (ground arith)
]

room : counter.current + writes_left disturbed (cas_retries 2) 0 ≤ max_index
unfolding cas_retries
room = omega arith

client_cas-Refines_example : Refines plain "n" add_one tt counter counted
client_cas-Refines_example =
    client_cas-Refines plain plain-IsCodec "n" add_one disturbed 2 tt counter counted
      counter-InBounds room is_counted

-- The poll that finds the index as it was reports nothing.
watched :
    watch_key plain
      (λ n. not (n == 9))
      (answer (some 5) 1
        ∷ answer (some 5) 1
        ∷ poll_error
        ∷ answer (some 9) 2
        ∷ answer (some 3) 4
        ∷ [])
      0
    ≡ 5 ∷ 9 ∷ []
unfolding watch_key
watched = refl
