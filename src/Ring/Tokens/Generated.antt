-- ===== src/Ring/Tokens/Generated.antt =====
-- ring/util.go: what GenerateTokens returns, and when it returns.
use dskit.Base.{
  ==_iff, All, Bool-cases, IsDistinct, List, Option-cases, [], ap, arith, contains, contains-keep,
  false, inl, inr, keep, leb, length, nat_eq, not, refl, some, string_eq, suc, sym, true, zero, ℕ,
  ◌==◌, ◌∙◌, ◌∷◌, ◌≡◌, ◌≤◌,
}
use dskit.Base.Sort.{
  IsSorted, contains-insert_sorted, contains-sort, insert_sorted, sort, sort-IsSorted,
}
use dskit.Ring.Tokens.{draw_tokens, generate_tokens}

-- What holds of drawn tokens: their number, and that they are new.
abbrev AreFresh : ℕ → List ℕ → List ℕ → Type 0
AreFresh num used tokens =
    (length tokens ≡ num)
    × IsDistinct tokens
    × ((t : ℕ) → contains tokens t ≡ true → contains used t ≡ false)

AreFresh-cons :
    (num c : ℕ) (used rest : List ℕ)
    → contains used c ≡ false
    → AreFresh num (c ∷ used) rest
    → AreFresh (suc num) used (c ∷ rest)
AreFresh-cons num c used rest unused (len, distinct, fresh) =
    let c_new : contains rest c ≡ false = elim (Bool-cases (contains rest c)) [
      | inl there ↦ ground (arith, fresh c there, ==_iff c c)
      | inr gone ↦ gone
    ] in
    (
      omega arith,
      (c_new, distinct),
      λ t there. elim (Bool-cases (t == c)) [
        | inl same ↦ rw ((==_iff t c).0 same) unused
        | inr other ↦
            let in_rest : contains rest t ≡ true = ground arith in ground (arith, fresh t in_rest)
      ],
    )

draw_tokens-AreFresh :
    (num : ℕ) (drawn used tokens : List ℕ)
    → draw_tokens num drawn used ≡ some tokens
    → AreFresh num used tokens
unfolding draw_tokens
draw_tokens-AreFresh zero drawn used tokens h =
    let nil : [] ≡ tokens = cc in rw (← nil) (refl, tt, λ t there. ground arith)
draw_tokens-AreFresh (suc i) [] used tokens h = cc
draw_tokens-AreFresh (suc i) (c ∷ drawn) used tokens h = elim (Bool-cases (contains used c)) [
  | inl taken ↦ draw_tokens-AreFresh (suc i) drawn used tokens (ground arith)
  | inr unused ↦ elim (Option-cases (draw_tokens i drawn (c ∷ used))) [
    | inl out ↦ ground arith
    | inr (rest, found) ↦
        let same : (c ∷ rest) ≡ tokens = ground arith in
        rw (← same)
          (AreFresh-cons i c used rest unused (draw_tokens-AreFresh i drawn (c ∷ used) rest found))
  ]
]

-- Tokens that are still to come, and not taken.
abbrev AreToCome : List ℕ → List ℕ → List ℕ → Type 0
AreToCome drawn used = All (λ t. (contains drawn t ≡ true) × (contains used t ≡ false))

abbrev others : ℕ → List ℕ → List ℕ
others c = keep (λ t. not (t == c))

others_all : (c : ℕ) (fresh : List ℕ) → contains fresh c ≡ false → others c fresh ≡ fresh
others_all c [] h = refl
others_all c (t ∷ fresh) h = ground (arith, others_all c fresh, ==_iff t c, ==_iff c t)

length-others :
    (c : ℕ) (fresh : List ℕ) → IsDistinct fresh → length fresh ≤ suc (length (others c fresh))
length-others c [] d = omega arith
length-others c (t ∷ fresh) d = elim (Bool-cases (t == c)) [
  | inl same ↦
      let gone : contains fresh c ≡ false = rw (← (==_iff t c).0 same) d.0 in
      ground (arith, ap length (others_all c fresh gone))
  | inr other ↦ ground (arith, length-others c fresh d.1)
]

others-IsDistinct : (c : ℕ) (fresh : List ℕ) → IsDistinct fresh → IsDistinct (others c fresh)
others-IsDistinct c [] d = tt
others-IsDistinct c (t ∷ fresh) d = elim (Bool-cases (t == c)) [
  | inl same ↦ rw same (others-IsDistinct c fresh d.1)
  | inr other ↦
      rw other
        (ground (arith, contains-keep (λ u. not (u == c)) fresh t), others-IsDistinct c fresh d.1)
]

others-AreToCome :
    (c : ℕ) (drawn used fresh : List ℕ)
    → AreToCome (c ∷ drawn) used fresh
    → AreToCome drawn (c ∷ used) (others c fresh)
others-AreToCome c drawn used [] h = tt
others-AreToCome c drawn used (t ∷ fresh) h = elim (Bool-cases (t == c)) [
  | inl same ↦ rw same (others-AreToCome c drawn used fresh h.1)
  | inr other ↦ rw other ((ground arith, ground arith), others-AreToCome c drawn used fresh h.1)
]

past_taken :
    (c : ℕ) (drawn used fresh : List ℕ)
    → contains used c ≡ true
    → AreToCome (c ∷ drawn) used fresh
    → AreToCome drawn used fresh
past_taken c drawn used [] taken h = tt
past_taken c drawn used (t ∷ fresh) taken h =
    ((ground (arith, ==_iff t c), ground arith), past_taken c drawn used fresh taken h.1)

draw_tokens_total :
    (num : ℕ) (drawn used fresh : List ℕ)
    → num ≤ length fresh
    → IsDistinct fresh
    → AreToCome drawn used fresh
    → (tokens : List ℕ) × (draw_tokens num drawn used ≡ some tokens)
unfolding draw_tokens
draw_tokens_total zero drawn used fresh h d to_come = ([], refl)
draw_tokens_total (suc i) [] used [] h d to_come = absurd (omega arith)
draw_tokens_total (suc i) [] used (t ∷ fresh) h d to_come = cc
draw_tokens_total (suc i) (c ∷ drawn) used fresh h d to_come = elim (Bool-cases (contains used c)) [
  | inl taken ↦
      rw taken (
        draw_tokens_total (suc i) drawn used fresh h d
          (past_taken c drawn used fresh taken to_come))
  | inr unused ↦
      let (rest, found) =
        draw_tokens_total i drawn (c ∷ used) (others c fresh)
          (omega (arith, length-others c fresh d)) (others-IsDistinct c fresh d)
          (others-AreToCome c drawn used fresh to_come) in
      (c ∷ rest, rw (unused, found))
]

length-insert_sorted : (x : ℕ) (xs : List ℕ) → length (insert_sorted x xs) ≡ suc (length xs)
unfolding insert_sorted
length-insert_sorted x [] = refl
length-insert_sorted x (y ∷ ys) = ground (arith, length-insert_sorted x ys)

pub length-sort : (xs : List ℕ) → length (sort xs) ≡ length xs
unfolding sort
length-sort [] = refl
length-sort (x ∷ xs) = length-insert_sorted x (sort xs) ∙ ap suc (length-sort xs)

insert_sorted-IsDistinct :
    (x : ℕ) (xs : List ℕ) → contains xs x ≡ false → IsDistinct xs → IsDistinct (insert_sorted x xs)
unfolding insert_sorted
insert_sorted-IsDistinct x [] n d = (refl, tt)
insert_sorted-IsDistinct x (y ∷ ys) n d = elim (Bool-cases (leb x y)) [
  | inl le ↦ rw le (n, d)
  | inr gt ↦ rw gt (
    ground (arith, contains-insert_sorted x y ys, ==_iff x y, ==_iff y x),
    insert_sorted-IsDistinct x ys (ground arith) d.1,
  )
]

pub sort-IsDistinct : (xs : List ℕ) → IsDistinct xs → IsDistinct (sort xs)
unfolding sort
sort-IsDistinct [] d = tt
sort-IsDistinct (x ∷ xs) d =
    insert_sorted-IsDistinct x (sort xs) (contains-sort x xs ∙ d.0) (sort-IsDistinct xs d.1)

-- `generate_tokens` returns as many tokens as it was asked for, sorted, each once, and none of those
-- taken.
pub generate_tokens-AreFresh :
    (num : ℕ) (taken drawn tokens : List ℕ)
    → generate_tokens num taken drawn ≡ some tokens
    → (length tokens ≡ num)
      × IsSorted tokens
      × IsDistinct tokens
      × ((t : ℕ) → contains tokens t ≡ true → contains taken t ≡ false)
unfolding generate_tokens
generate_tokens-AreFresh num taken drawn tokens h =
    elim (Option-cases (draw_tokens num drawn taken)) [
      | inl out ↦ ground arith
      | inr (found, e) ↦
          let same : sort found ≡ tokens = ground arith in
          let (len, distinct, fresh) = draw_tokens-AreFresh num drawn taken found e in
          rw (← same) (
            length-sort found ∙ len,
            sort-IsSorted found,
            sort-IsDistinct found distinct,
            λ t there. fresh t (sym (contains-sort t found) ∙ there),
          )
    ]

-- `generate_tokens` returns as soon as the numbers drawn hold enough different ones that are not
-- taken.
pub generate_tokens_total :
    (num : ℕ) (taken drawn fresh : List ℕ)
    → num ≤ length fresh
    → IsDistinct fresh
    → All (λ t. (contains drawn t ≡ true) × (contains taken t ≡ false)) fresh
    → (tokens : List ℕ) × (generate_tokens num taken drawn ≡ some tokens)
unfolding generate_tokens
generate_tokens_total num taken drawn fresh h d to_come =
    let (found, e) = draw_tokens_total num drawn taken fresh h d to_come in (sort found, rw e)
