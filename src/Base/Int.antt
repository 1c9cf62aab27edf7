-- ===== src/Base/Int.antt =====
-- Signed integers over the native numbers, for counters that the code decrements.
use dskit.Base.{Eq, leb, nat_beq, nat_beq_iff}
use Prim.Native.Nat.{ℕ, zero, suc}
use mathlib.Core.Bool.{Bool, true, false}
use mathlib.Core.Path.{◌≡◌}
use mathlib.Core.Logic.{◌↔◌}
use native.Mathlib.Omega.{arith}

pub data ℤ : Type 0 where
  pos : ℕ → ℤ
  negsuc : ℕ → ℤ

-- `x--`
abbrev pub decrement : ℤ → ℤ
decrement (pos zero) = negsuc 0
decrement (pos (suc n)) = pos n
decrement (negsuc n) = negsuc (suc n)

-- `x++`
abbrev pub increment : ℤ → ℤ
increment (pos n) = pos (suc n)
increment (negsuc zero) = pos 0
increment (negsuc (suc n)) = negsuc n

abbrev pub is_zero : ℤ → Bool
is_zero (pos zero) = true
is_zero (pos (suc n)) = false
is_zero (negsuc n) = false

-- Equality and order of signed integers.
abbrev pub int_beq : ℤ → ℤ → Bool
int_beq (pos n) (pos m) = nat_beq n m
int_beq (negsuc n) (negsuc m) = nat_beq n m
int_beq _ _ = false

pub int_beq_iff : (a b : ℤ) → (int_beq a b ≡ true) ↔ (a ≡ b)
int_beq_iff (pos n) (pos m) = ground (arith, nat_beq_iff n m)
int_beq_iff (negsuc n) (negsuc m) = ground (arith, nat_beq_iff n m)
int_beq_iff (pos n) (negsuc m) = ground arith
int_beq_iff (negsuc n) (pos m) = ground arith

instance abbrev pub int_eq : Eq ℤ
int_eq = record { same_key = int_beq; same_key_iff = int_beq_iff }

-- `n <= i` for a number that is not negative
abbrev pub at_most : ℕ → ℤ → Bool
at_most n (pos m) = leb n m
at_most n (negsuc m) = false
