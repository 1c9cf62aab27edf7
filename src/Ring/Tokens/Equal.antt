-- ===== src/Ring/Tokens/Equal.antt =====
-- ring/tokens.go: what Equals tells.
use dskit.Base.{
  ==_iff, All, Bool-cases, List, [], ap, arith, count_if, inl, inr, length, nat_eq, refl, string_eq,
  sym, true, ℕ, ◌<◌, ◌==◌, ◌↔◌, ◌∙◌, ◌∷◌, ◌≡◌, ◌≤◌,
}
use dskit.Base.Sort.{IsSorted, insert_sorted, sort, sort-IsSorted}
use dskit.Ring.Tokens.Generated.{length-sort}
use dskit.Ring.Tokens.{same_elements, tokens_equals}

-- how often a token occurs
abbrev pub times : ℕ → List ℕ → ℕ
times t = count_if (λ u. u == t)

times-insert_sorted : (t x : ℕ) (xs : List ℕ) → times t (insert_sorted x xs) ≡ times t (x ∷ xs)
unfolding insert_sorted
times-insert_sorted t x [] = refl
times-insert_sorted t x (y ∷ ys) = ground (arith, times-insert_sorted t x ys)

times-cons :
    (t x : ℕ) (xs ys : List ℕ) → times t xs ≡ times t ys → times t (x ∷ xs) ≡ times t (x ∷ ys)
times-cons t x xs ys e = ground arith

pub times-sort : (t : ℕ) (xs : List ℕ) → times t (sort xs) ≡ times t xs
unfolding sort
times-sort t [] = refl
times-sort t (x ∷ xs) =
    times-insert_sorted t x (sort xs) ∙ times-cons t x (sort xs) xs (times-sort t xs)

le_of_times : (x t : ℕ) (xs : List ℕ) → All (λ y. x ≤ y) xs → 0 < times t xs → x ≤ t
le_of_times x t [] a h = absurd (omega arith)
le_of_times x t (y ∷ ys) a h = elim (Bool-cases (y == t)) [
  | inl same ↦ rw (← (==_iff y t).0 same) a.0
  | inr other ↦ le_of_times x t ys a.1 (ground arith)
]

times_self : (x : ℕ) (xs : List ℕ) → 0 < times x (x ∷ xs)
times_self x xs = ground (arith, ==_iff x x)

head_le : (x y : ℕ) (xs ys : List ℕ) → IsSorted (x ∷ xs) → 0 < times y (x ∷ xs) → x ≤ y
head_le x y xs ys s h = le_of_times x y (x ∷ xs) (omega arith, s.0) h

times_tail :
    (t x y : ℕ) (xs ys : List ℕ)
    → x ≡ y
    → times t (x ∷ xs) ≡ times t (y ∷ ys)
    → times t xs ≡ times t ys
times_tail t x y xs ys e h = ground arith

-- Two sorted lists with the same numbers are the same.
sorted_unique :
    (xs ys : List ℕ) → IsSorted xs → IsSorted ys → ((t : ℕ) → times t xs ≡ times t ys) → xs ≡ ys
sorted_unique [] [] s r h = refl
sorted_unique [] (y ∷ ys) s r h = absurd (omega (arith, h y, times_self y ys))
sorted_unique (x ∷ xs) [] s r h = absurd (omega (arith, h x, times_self x xs))
sorted_unique (x ∷ xs) (y ∷ ys) s r h =
    let x_le : x ≤ y = head_le x y xs ys s (rw (h y) (times_self y ys)) in
    let y_le : y ≤ x = head_le y x ys xs r (rw (← h x) (times_self x xs)) in
    let e : x ≡ y = omega arith in
    rw e (
      ap (λ (l : List ℕ). y ∷ l)
        (sorted_unique xs ys s.1 r.1 (λ t. times_tail t x y xs ys e (h t))))

pub same_elements_iff :
    (xs ys : List ℕ) → length xs ≡ length ys → (same_elements xs ys ≡ true) ↔ (xs ≡ ys)
unfolding same_elements
same_elements_iff [] [] e = ground arith
same_elements_iff [] (y ∷ ys) e = absurd (omega arith)
same_elements_iff (x ∷ xs) [] e = absurd (omega arith)
same_elements_iff (x ∷ xs) (y ∷ ys) e =
    ground (arith, ==_iff x y, same_elements_iff xs ys (omega arith))

times-eq_of_sort : (t : ℕ) (xs ys : List ℕ) → sort xs ≡ sort ys → times t xs ≡ times t ys
times-eq_of_sort t xs ys e = sym (times-sort t xs) ∙ ap (times t) e ∙ times-sort t ys

length_of_times : (xs ys : List ℕ) → ((t : ℕ) → times t xs ≡ times t ys) → length xs ≡ length ys
length_of_times xs ys h =
    sym (length-sort xs)
    ∙ ap length (
        sorted_unique (sort xs) (sort ys) (sort-IsSorted xs) (sort-IsSorted ys)
          (λ t. times-sort t xs ∙ h t ∙ sym (times-sort t ys)))
    ∙ length-sort ys

-- `Equals` tells whether the tokens are the same up to their order, each as often.
pub tokens_equals_iff :
    (mine other : List ℕ)
    → ((tokens_equals mine other).0 ≡ true) ↔ ((t : ℕ) → times t mine ≡ times t other)
unfolding tokens_equals
tokens_equals_iff mine other = (
  λ h. elim (Bool-cases (length mine == length other)) [
    | inl same ↦
        let sorted : sort mine ≡ sort other =
          (same_elements_iff (sort mine) (sort other)
              (length-sort mine ∙ (==_iff _ _).0 same ∙ sym (length-sort other))).0
            (ground arith) in
        λ t. times-eq_of_sort t mine other sorted
    | inr apart ↦ absurd (ground arith)
  ],
  λ h.
      let len : length mine ≡ length other = length_of_times mine other h in
      let sorted : sort mine ≡ sort other =
        sorted_unique (sort mine) (sort other) (sort-IsSorted mine) (sort-IsSorted other)
          (λ t. times-sort t mine ∙ h t ∙ sym (times-sort t other)) in
      let same : same_elements (sort mine) (sort other) ≡ true =
        (same_elements_iff (sort mine) (sort other)
            (length-sort mine ∙ len ∙ sym (length-sort other))).1
          sorted in
      ground (arith, ==_iff (length mine) (length other)),
)
