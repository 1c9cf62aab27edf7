-- ===== src/Memberlist/Interface.antt =====
-- kv/memberlist/mergeable.go: what the store needs of the values in it.
use dskit.Base.{Bool, List, Option, String, false, none, ℕ, ◌≡◌}

-- What `Merge` leaves: the receiver after it and the change, `none` for nil, or an error.
pub data Merged {ℓ} (V : Type ℓ) : Type ℓ where
  merged : (result : V) (change : Option V) → Merged V
  merge_failed : Merged V

-- `Mergeable`. `Merge` reads the clock in seconds; the limit of `RemoveTombstones` is in
-- nanoseconds, `none` for the zero time. A clone is the value itself, since values are not shared.
pub record Mergeable : Type 1 where
  pub Value : Type 0
  pub merge : Value → Value → Bool → ℕ → Merged Value
  pub merge_content : Value → List String
  pub remove_tombstones : Option ℕ → Value → Value

-- The idempotency that mergeable.go asks for, for the values that it holds of: merging what was
-- merged before, at any later time, changes nothing and gives no change.
pub record IsIdempotent (M : Mergeable) : Type 1 where
  pub IsProper : M.Value → Type 0
  pub merge_again :
      (now later : ℕ) (old incoming : M.Value) {result : M.Value} {change : Option M.Value}
      → IsProper old
      → IsProper incoming
      → M.merge old incoming false now ≡ merged result change
      → M.merge result incoming false later ≡ merged result none
