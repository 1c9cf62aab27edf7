-- ===== src/Base/Sort.antt =====
-- `sort.Sort` and `sort.IsSorted` on tokens. The order of equal numbers cannot be seen, so an
-- insertion sort stands for the library's algorithm.
use dskit.Base.{
  All, Bool, Bool-cases, List, [], ap, arith, contains, if◌then◌else◌, inl, inr, leb, leb→le,
  nat_eq, refl, string_eq, true, ℕ, ◌&&◌, ◌<◌, ◌==◌, ◌||◌, ◌∙◌, ◌∷◌, ◌≡◌, ◌≤◌,
}

-- the place of an element in a sorted list
unfoldable pub insert_sorted : ℕ → List ℕ → List ℕ
insert_sorted x [] = x ∷ []
insert_sorted x (y ∷ ys) = if leb x y then x ∷ y ∷ ys else y ∷ insert_sorted x ys

unfoldable pub sort : List ℕ → List ℕ
unfolding insert_sorted
sort [] = []
sort (x ∷ xs) = insert_sorted x (sort xs)

unfoldable pub is_sorted : List ℕ → Bool
is_sorted [] = true
is_sorted (x ∷ []) = true
is_sorted (x ∷ y ∷ rest) = leb x y && is_sorted (y ∷ rest)

-- `if !sort.IsSorted(t) { sort.Sort(t) }`
unfoldable pub ensure_sorted : List ℕ → List ℕ
unfolding sort is_sorted
ensure_sorted xs = if is_sorted xs then xs else sort xs

-- Every element is at most those behind it.
abbrev pub IsSorted : List ℕ → Type 0
IsSorted [] = Unit
IsSorted (x ∷ xs) = All (λ y. x ≤ y) xs × IsSorted xs

-- Every element is below those behind it, so none occurs twice.
abbrev pub IsIncreasing : List ℕ → Type 0
IsIncreasing [] = Unit
IsIncreasing (x ∷ xs) = All (λ y. x < y) xs × IsIncreasing xs

All-insert_sorted :
    (n x : ℕ) (xs : List ℕ) → n ≤ x → All (λ y. n ≤ y) xs → All (λ y. n ≤ y) (insert_sorted x xs)
unfolding insert_sorted
All-insert_sorted n x [] h a = (h, tt)
All-insert_sorted n x (y ∷ ys) h a = ground (arith, All-insert_sorted n x ys h a.1)

All-le_trans : (n m : ℕ) (xs : List ℕ) → n ≤ m → All (λ y. m ≤ y) xs → All (λ y. n ≤ y) xs
All-le_trans n m [] h a = tt
All-le_trans n m (x ∷ xs) h a = (omega arith, All-le_trans n m xs h a.1)

insert_sorted-IsSorted : (x : ℕ) (xs : List ℕ) → IsSorted xs → IsSorted (insert_sorted x xs)
unfolding insert_sorted
insert_sorted-IsSorted x [] h = (tt, tt)
insert_sorted-IsSorted x (y ∷ ys) h = elim (Bool-cases (leb x y)) [
  | inl le ↦ rw le ((leb→le x y le, All-le_trans x y ys (leb→le x y le) h.0), h)
  | inr gt ↦ rw gt (All-insert_sorted y x ys (ground arith) h.0, insert_sorted-IsSorted x ys h.1)
]

pub sort-IsSorted : (xs : List ℕ) → IsSorted (sort xs)
unfolding sort
sort-IsSorted [] = tt
sort-IsSorted (x ∷ xs) = insert_sorted-IsSorted x (sort xs) (sort-IsSorted xs)

is_sorted-IsSorted : (xs : List ℕ) → is_sorted xs ≡ true → IsSorted xs
unfolding is_sorted
is_sorted-IsSorted [] h = tt
is_sorted-IsSorted (x ∷ []) h = (tt, tt)
is_sorted-IsSorted (x ∷ y ∷ rest) h =
    let tail : IsSorted (y ∷ rest) = is_sorted-IsSorted (y ∷ rest) (ground arith) in
    let le : x ≤ y = ground arith in ((le, All-le_trans x y rest le tail.0), tail)

pub ensure_sorted-IsSorted : (xs : List ℕ) → IsSorted (ensure_sorted xs)
unfolding ensure_sorted
ensure_sorted-IsSorted xs = elim (Bool-cases (is_sorted xs)) [
  | inl done ↦ rw done (is_sorted-IsSorted xs done)
  | inr more ↦ rw more (sort-IsSorted xs)
]

pub contains-insert_sorted :
    (x t : ℕ) (xs : List ℕ) → contains (insert_sorted x xs) t ≡ (t == x || contains xs t)
unfolding insert_sorted
contains-insert_sorted x t [] = refl
contains-insert_sorted x t (y ∷ ys) = ground (arith, contains-insert_sorted x t ys)

pub contains-sort : (t : ℕ) (xs : List ℕ) → contains (sort xs) t ≡ contains xs t
unfolding sort
contains-sort t [] = refl
contains-sort t (x ∷ xs) =
    contains-insert_sorted x t (sort xs) ∙ ap (λ b. t == x || b) (contains-sort t xs)

pub contains-ensure_sorted : (t : ℕ) (xs : List ℕ) → contains (ensure_sorted xs) t ≡ contains xs t
unfolding ensure_sorted
contains-ensure_sorted t xs = ground (arith, contains-sort t xs)
