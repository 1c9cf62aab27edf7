-- ===== src/Kv.antt =====
-- kv/client.go: what Client promises of CAS to its callers, over a key that others write too.
use dskit.Base.{Bool, List, Option, [], false, none, some, true, ◌∷◌}
use mathlib.Core.Option
pub mod Calls
pub mod Consul
pub mod Prefix

-- What a callback returns: nil, a value to store, or an error, with `retry` or without.
pub data CasOut {ℓ} (V : Type ℓ) : Type ℓ where
  keep_value : CasOut V
  store : V → CasOut V
  refuse : CasOut V
  try_again : CasOut V

-- One CAS as it ran: the calls of the callback whose result was not stored, each with its
-- environment and the value that it saw; then the last call, at the current value, or the error that
-- ended the CAS before it.
pub record CasRun {ℓ κ} (E : Type ℓ) (V : Type κ) : Type (ℓ ⊔ κ) where
  pub attempts : List (E × Option V)
  pub last_call : Option E

-- What the variables of the caller and the key hold afterwards, and whether there was no error.
pub record CasEnd {ℓ κ} (S : Type ℓ) (V : Type κ) : Type (ℓ ⊔ κ) where
  pub caller : S
  pub value : Option V
  pub no_error : Bool

-- What a call's result does to the key.
unfoldable pub end_cas {ℓ κ} : {S : Type ℓ} {V : Type κ} → Option V → S → CasOut V → CasEnd S V
end_cas current s keep_value = record { caller = s; value = current; no_error = true }
end_cas current s (store v) = record { caller = s; value = some v; no_error = true }
end_cas current s refuse = record { caller = s; value = current; no_error = false }
end_cas current s try_again = record { caller = s; value = current; no_error = false }

module _ {E S V : Type 0} (f : E → Option V → S → Option (S × CasOut V)) where
  -- The variables of the caller after the calls that came to nothing; `none` if one did not return.
  unfoldable pub attempt_all : List (E × Option V) → S → Option S
  attempt_all [] s = some s
  attempt_all ((e, seen) ∷ attempts) s = elim (f e seen s) [
    | none ↦ none
    | some (s', out) ↦ attempt_all attempts s'
  ]

  unfoldable pub last_attempt : Option E → Option V → S → Option (CasEnd S V)
  unfolding end_cas
  last_attempt none current s = some (record { caller = s; value = current; no_error = false })
  last_attempt (some e) current s = elim (f e current s) [
    | none ↦ none
    | some (s', out) ↦ some (end_cas current s' out)
  ]

  -- `CAS` of the interface Client: every call of the callback changes the caller's variables, and
  -- the last one swaps the value that it saw for the one that it returned.
  unfoldable pub kv_cas : CasRun E V → Option V → S → Option (CasEnd S V)
  unfolding attempt_all last_attempt
  kv_cas run current s = elim (attempt_all run.attempts s) [
    | none ↦ none
    | some s' ↦ last_attempt run.last_call current s'
  ]
