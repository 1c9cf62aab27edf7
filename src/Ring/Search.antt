-- ===== src/Ring/Search.antt =====
-- ring/util.go: searchToken, with sort.Search which it calls.
use dskit.Base.{
  All, Bool, Bool-cases, List, [], arith, false, get_or, if◌then◌else◌, inl, inr, leb, length, ltb,
  ltb→lt, refl, suc, true, zero, ℕ, ◌+◌, ◌-◌, ◌/◌, ◌<◌, ◌∷◌, ◌≡◌, ◌≤◌, ◌⊎◌,
}
use dskit.Base.Sort.{IsSorted}

-- `sort.Search`'s loop over the interval from `i` to `j`. It halves the interval, so its length is
-- fuel enough.
unfoldable pub search_loop : ℕ → (ℕ → Bool) → ℕ → ℕ → ℕ
search_loop zero f i j = i
search_loop (suc fuel) f i j =
    let h = (i + j) / 2 in
    let below = search_loop fuel f i h in
    let above = search_loop fuel f (h + 1) j in
    if ltb i j then (if f h then below else above) else i

-- `sort.Search(n, f)`
unfoldable pub sort_search : ℕ → (ℕ → Bool) → ℕ
unfolding search_loop
sort_search n f = search_loop n f 0 n

-- `searchToken`
unfoldable pub search_token : List ℕ → ℕ → ℕ
unfolding sort_search
search_token tokens key =
    let i = sort_search (length tokens) (λ x. ltb key (get_or tokens x 0)) in
    if leb (length tokens) i then 0 else i

-- The test is false below `r` and true from `r` on.
record Turns (f : ℕ → Bool) (n r : ℕ) : Type 0 where
  before : (x : ℕ) → x < r → f x ≡ false
  behind : (x : ℕ) → r ≤ x → x < n → f x ≡ true

module _ (f : ℕ → Bool) (n : ℕ) (rises : (x y : ℕ) → x ≤ y → y < n → f x ≡ true → f y ≡ true) where
  search_loop-Turns :
      (fuel i j : ℕ)
      → j - i ≤ fuel
      → i ≤ j
      → j ≤ n
      → ((x : ℕ) → x < i → f x ≡ false)
      → ((x : ℕ) → j ≤ x → x < n → f x ≡ true)
      → Turns f n (search_loop fuel f i j) × (search_loop fuel f i j ≤ n)
  unfolding search_loop
  search_loop-Turns zero i j enough ij jn low high =
      (record { before = low; behind = λ x h. high x (omega arith) }, omega arith)
  search_loop-Turns (suc fuel) i j enough ij jn low high = elim (Bool-cases (ltb i j)) [
    | inr stop ↦
        rw stop (record { before = low; behind = λ x h. high x (ground arith) }, omega arith)
    | inl go ↦
        let h = (i + j) / 2 in
        let lt : i < j = ltb→lt i j go in
        rw go (elim (Bool-cases (f h)) [
          | inl yes_h ↦ rw yes_h (
              search_loop-Turns fuel i h (omega arith) (omega arith) (omega arith) low
                (λ x hx xn. rises h x hx xn yes_h))
          | inr no_h ↦ rw no_h (
              search_loop-Turns fuel (h + 1) j (omega arith) (omega arith) jn
                (λ x hx. elim (Bool-cases (f x)) [
                  | inr no_x ↦ no_x
                  | inl yes_x ↦ cc (rises x h (omega arith) (omega arith) yes_x)
                ])
                high)
        ])
  ]

  sort_search-Turns : Turns f n (sort_search n f) × (sort_search n f ≤ n)
  unfolding sort_search
  sort_search-Turns =
      search_loop-Turns n 0 n (omega arith) (omega arith) (omega arith)
        (λ x h. absurd (omega arith)) (λ x h l. absurd (omega arith))

IsSorted-get_or :
    (xs : List ℕ) (i j : ℕ) → IsSorted xs → i ≤ j → j < length xs → get_or xs i 0 ≤ get_or xs j 0
IsSorted-get_or [] i j h le lt = absurd (omega arith)
IsSorted-get_or (x ∷ xs) zero zero h le lt = omega arith
IsSorted-get_or (x ∷ xs) zero (suc j) h le lt = head_le x xs j h.0 (omega arith)
  where
    head_le :
        (x : ℕ) (ys : List ℕ) (j : ℕ) → All (λ y. x ≤ y) ys → j < length ys → x ≤ get_or ys j 0
    head_le x [] j a lt = absurd (omega arith)
    head_le x (y ∷ ys) zero a lt = a.0
    head_le x (y ∷ ys) (suc j) a lt = head_le x ys j a.1 (omega arith)
IsSorted-get_or (x ∷ xs) (suc i) zero h le lt = absurd (omega arith)
IsSorted-get_or (x ∷ xs) (suc i) (suc j) h le lt =
    IsSorted-get_or xs i j h.1 (omega arith) (omega arith)

-- Where the token that owns a key stands in the sorted ring.
abbrev pub Covers : List ℕ → ℕ → ℕ → Type 0
Covers tokens key i =
    ((i < length tokens) × (key < get_or tokens i 0) × ((x : ℕ) → x < i → get_or tokens x 0 ≤ key))
    ⊎ ((i ≡ 0) × ((x : ℕ) → x < length tokens → get_or tokens x 0 ≤ key))

-- In sorted tokens the binary search finds the first token greater than the key, or wraps around to
-- the first token of all if no token is greater.
pub search_token-Covers :
    (tokens : List ℕ) (key : ℕ) → IsSorted tokens → Covers tokens key (search_token tokens key)
unfolding search_token
search_token-Covers tokens key sorted =
    elim (Bool-cases (leb (length tokens) (sort_search (length tokens) test))) [
      | inl past ↦ rw past (inr (refl, λ x h. not_above x (turns.0.before x (ground arith))))
      | inr found ↦ rw found (
          inl (
            ground arith,
            above _ (turns.0.behind _ (omega arith) (ground arith)),
            λ x h. not_above x (turns.0.before x h),
          ))
    ]
  where
    test : ℕ → Bool
    test = λ x. ltb key (get_or tokens x 0)

    above : (x : ℕ) → test x ≡ true → key < get_or tokens x 0
    above x h = ltb→lt _ _ h

    not_above : (x : ℕ) → test x ≡ false → get_or tokens x 0 ≤ key
    not_above x h = ground arith

    turns :
        Turns test (length tokens) (sort_search (length tokens) test)
        × (sort_search (length tokens) test ≤ length tokens)
    turns =
        sort_search-Turns test (length tokens)
          (λ x y le lt h. ground (arith, IsSorted-get_or tokens x y sorted le lt))
