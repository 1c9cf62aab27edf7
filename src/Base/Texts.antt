-- ===== src/Base/Texts.antt =====
-- Go's order on strings is strict and total.
use dskit.Base.{Bool, String, arith, false, str_ltb, true, ◌≡◌}
use Prim.Native.Nat.{Ordering}
use Prim.Native.Nat
use Prim.Native.Char.{Char, code}
use Prim.Native.String
use Prim.Native.String.compare
use text.Mathlib.TextEquality.{path_by_compare}
use text.Mathlib.TextPositions.{compare_refl}

abbrev is_lt : Ordering → Bool
is_lt Ordering.lt = true
is_lt _ = false

str_ltb-is_lt : (s t : String) → str_ltb s t ≡ is_lt (String.compare s t)
str_ltb-is_lt s t = ground arith

compare-cons :
    (c d : Char) (s t : String)
    → String.compare (String.◌∷◌ c s) (String.◌∷◌ d t)
      ≡ String.then (Nat.compare (code c) (code d)) (String.compare s t)
compare-cons c d s t = λ i. compare.cons-cons c d s t i

nil_lt : (d : Char) (t : String) → String.compare String.[] (String.◌∷◌ d t) ≡ Ordering.lt
nil_lt d t = λ i. compare.nil-cons d t i

cons_gt : (d : Char) (t : String) → String.compare (String.◌∷◌ d t) String.[] ≡ Ordering.gt
cons_gt d t = λ i. compare.cons-nil d t i

nil_eq : String.compare String.[] String.[] ≡ Ordering.eq
nil_eq = λ i. compare.nil-nil i

lt_trans :
    (s t u : String)
    → String.compare s t ≡ Ordering.lt
    → String.compare t u ≡ Ordering.lt
    → String.compare s u ≡ Ordering.lt
lt_trans String.[] String.[] u h k = k
lt_trans String.[] (String.◌∷◌ d t) String.[] h k = cc (cons_gt d t)
lt_trans String.[] (String.◌∷◌ d t) (String.◌∷◌ e u) h k = nil_lt e u
lt_trans (String.◌∷◌ c s) String.[] u h k = cc (cons_gt c s)
lt_trans (String.◌∷◌ c s) (String.◌∷◌ d t) String.[] h k = cc (cons_gt d t)
lt_trans (String.◌∷◌ c s) (String.◌∷◌ d t) (String.◌∷◌ e u) h k = ground (
  arith,
  compare-cons c d s t,
  compare-cons d e t u,
  compare-cons c e s u,
  lt_trans s t u,
  path_by_compare s t,
)

gt_lt : (s t : String) → String.compare s t ≡ Ordering.gt → String.compare t s ≡ Ordering.lt
gt_lt String.[] String.[] h = cc nil_eq
gt_lt String.[] (String.◌∷◌ d t) h = cc (nil_lt d t)
gt_lt (String.◌∷◌ c s) String.[] h = nil_lt c s
gt_lt (String.◌∷◌ c s) (String.◌∷◌ d t) h =
    ground (arith, compare-cons c d s t, compare-cons d c t s, gt_lt s t)

pub str_ltb_trans : (s t u : String) → str_ltb s t ≡ true → str_ltb t u ≡ true → str_ltb s u ≡ true
str_ltb_trans s t u h k = ground (arith, lt_trans s t u)

-- Of two different strings one comes first.
pub str_ltb_total : (s t : String) → str_ltb s t ≡ false → str_ltb t s ≡ false → s ≡ t
str_ltb_total s t h k = ground (arith, gt_lt s t, path_by_compare s t)

pub str_ltb_irrefl : (s : String) → str_ltb s s ≡ false
str_ltb_irrefl s = ground (arith, compare_refl s)
