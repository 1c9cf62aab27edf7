-- ===== src/Memberlist/Wire/Framing.antt =====
-- The frames of a full state are read back.
use dskit.Base.{
  List, [], ap, arith, drop, false, length, length-append, ltb, refl, some, take, ℕ, ◌++◌, ◌<◌, ◌^◌,
  ◌∷◌, ◌≡◌,
}
use dskit.Memberlist.Messages.{KeyValuePair}
use dskit.Memberlist.Wire.{Wire, put_uint32, get_uint32, next_pair}

take-append {ℓ} : {A : Type ℓ} (xs ys : List A) → take (length xs) (xs ++ ys) ≡ xs
take-append [] ys = refl
take-append (x ∷ xs) ys = ap (λ rest. x ∷ rest) (take-append xs ys)

drop-append {ℓ} : {A : Type ℓ} (xs ys : List A) → drop (length xs) (xs ++ ys) ≡ ys
drop-append [] ys = refl
drop-append (x ∷ xs) ys = drop-append xs ys

get_uint32-put_uint32 : (n : ℕ) (rest : List ℕ) → n < 2 ^ 32 → get_uint32 (put_uint32 n ++ rest) ≡ n
unfolding get_uint32 put_uint32
get_uint32-put_uint32 n rest h = omega arith

-- A frame in front of any data is read as its pair, with the length of its encoding, and leaves
-- the data behind it.
pub next_pair-frame :
    {V : Type 0} (w : Wire V) (pair : KeyValuePair) (ser rest : List ℕ)
    → w.unmarshal ser ≡ some pair
    → length ser < 2 ^ 32
    → next_pair w (put_uint32 (length ser) ++ (ser ++ rest)) ≡ some (pair, length ser, rest)
unfolding next_pair put_uint32
next_pair-frame w pair ser rest read short =
    let number = get_uint32-put_uint32 (length ser) (ser ++ rest) short in
    let fits : ltb (length (ser ++ rest)) (length ser) ≡ false =
      ground (arith, length-append ser rest) in
    ground (arith, number, fits, take-append ser rest, drop-append ser rest)
