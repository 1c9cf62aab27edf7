-- ===== src/Modules/Ordered.antt =====
-- The order of the dependencies of a module: that it is one, and that it is found.
use dskit.Base.{
  ==_iff, ==_refl, Bool-cases, IsDistinct, IsDistinct-snoc, List, String, [], append-nil,
  append_assoc, arith, contains, contains-append, contains-keep, inl, inr, keep, length,
  length-keep-le, ltb, nat_eq, not, some, string_eq, subst, suc, sym, true, zero, ℕ, ◌++◌, ◌<◌,
  ◌==◌, ◌∙◌, ◌∷◌, ◌≡◌, ◌≤◌,
}
use dskit.Modules.{all_added, add_if_ready, pass, order_loop}

-- What is added to `seen`, each after all its dependencies.
abbrev pub IsOrdered : (String → List String) → List String → List String → Type 0
IsOrdered deps seen [] = Unit
IsOrdered deps seen (n ∷ ns) =
    ((d : String) → contains (deps n) d ≡ true → contains seen d ≡ true)
    × IsOrdered deps (seen ++ n ∷ []) ns

contains_of_all_added :
    (added ds : List String)
    → all_added added ds ≡ true
    → (d : String) → contains ds d ≡ true
    → contains added d ≡ true
unfolding all_added
contains_of_all_added added [] h d there = absurd (ground arith)
contains_of_all_added added (x ∷ ds) h d there =
    ground (arith, ==_iff d x, contains_of_all_added added ds (ground arith) d)

IsOrdered-snoc :
    (deps : String → List String) (seen ns : List String) (n : String)
    → IsOrdered deps seen ns
    → ((d : String) → contains (deps n) d ≡ true → contains (seen ++ ns) d ≡ true)
    → IsOrdered deps seen (ns ++ n ∷ [])
IsOrdered-snoc deps seen [] n h k =
    (λ d there. subst (λ s. contains s d ≡ true) (append-nil seen) (k d there), tt)
IsOrdered-snoc deps seen (m ∷ ns) n h k = (
  h.0,
  IsOrdered-snoc deps (seen ++ m ∷ []) ns n h.1 (λ d there.
      subst (λ s. contains s d ≡ true) (sym (append_assoc seen (m ∷ []) ns)) (k d there)),
)

-- Distinct elements of a list are not more than the list has.
pub length-le_of_contains :
    (us xs : List String)
    → IsDistinct us
    → ((a : String) → contains us a ≡ true → contains xs a ≡ true)
    → length us ≤ length xs
length-le_of_contains [] xs h f = omega arith
length-le_of_contains (u ∷ us) xs h f =
    let others = keep (λ x. not (x == u)) xs in
    let fewer : length others < length xs = shorter u xs (f u (ground (arith, ==_refl u))) in
    let rest =
      length-le_of_contains us others h.1
        (λ a there. ground (arith, contains-keep (λ x. not (x == u)) xs a, f a, ==_iff a u, h.0)) in
    omega arith
  where
    shorter :
        (u : String) (xs : List String)
        → contains xs u ≡ true
        → length (keep (λ x. not (x == u)) xs) < length xs
    shorter u [] c = cc
    shorter u (x ∷ xs) c =
        ground (arith, ==_iff u x, ==_iff x u, length-keep-le (λ y. not (y == u)) xs, shorter u xs)

-- The state of the loops.
pub record IsProgress (deps : String → List String) (names result : List String) : Type 0 where
  pub ordered : IsOrdered deps [] result
  pub distinct : IsDistinct result
  pub within : (n : String) → contains result n ≡ true → contains names n ≡ true

module _ (deps : String → List String) (names : List String) where
  add_if_ready-IsProgress :
      (n : String) (result : List String)
      → contains names n ≡ true
      → IsProgress deps names result
      → IsProgress deps names (add_if_ready deps n result)
  unfolding add_if_ready
  add_if_ready-IsProgress n result known p = elim (Bool-cases (contains result n)) [
    | inl old ↦ rw old p
    | inr fresh ↦ rw fresh (elim (Bool-cases (all_added result (deps n))) [
      | inr waits ↦ rw waits p
      | inl ready ↦ rw ready (record {
        ordered =
            IsOrdered-snoc deps [] result n p.ordered (contains_of_all_added result (deps n) ready);
        distinct = IsDistinct-snoc result n p.distinct fresh;
        within = λ m h. ground (arith, contains-append result (n ∷ []) m, p.within m, ==_iff m n);
      })
    ])
  ]

  pass-IsProgress :
      (ns result : List String)
      → ((n : String) → contains ns n ≡ true → contains names n ≡ true)
      → IsProgress deps names result
      → IsProgress deps names (pass deps ns result)
  unfolding pass
  pass-IsProgress [] result known p = p
  pass-IsProgress (n ∷ ns) result known p =
      pass-IsProgress ns (add_if_ready deps n result) (λ m h. known m (ground arith))
        (add_if_ready-IsProgress n result (known n (ground (arith, ==_refl n))) p)

  order_loop-IsProgress :
      (order : ℕ → List String) (fuel : ℕ) (result final : List String)
      → ((k : ℕ) (n : String) → contains (order k) n ≡ true → contains names n ≡ true)
      → IsProgress deps names result
      → order_loop deps (length names) order fuel result ≡ some final
      → IsProgress deps names final × (length names ≤ length final)
  unfolding order_loop
  order_loop-IsProgress order zero result final known p e = cc
  order_loop-IsProgress order (suc fuel) result final known p e =
      elim (Bool-cases (ltb (length result) (length names))) [
        | inl more ↦
            order_loop-IsProgress order fuel (pass deps (order fuel) result) final known
              (pass-IsProgress (order fuel) result (known fuel) p) (rw more at e)
        | inr enough ↦
            let same : result ≡ final = ground arith in
            subst (λ r. IsProgress deps names r × (length names ≤ length r)) same (p, ground arith)
      ]

  -- When the loop of orderedDeps ends, the result has every name of the map, each once, and each
  -- after all its dependencies, whatever the order of the map in each pass.
  pub order_loop-IsOrdered :
      (order : ℕ → List String) (fuel : ℕ) (final : List String)
      → ((k : ℕ) (n : String) → contains (order k) n ≡ true → contains names n ≡ true)
      → order_loop deps (length names) order fuel [] ≡ some final
      → IsOrdered deps [] final
        × IsDistinct final
        × ((n : String) → contains final n ≡ contains names n)
  order_loop-IsOrdered order fuel final known e =
      let (p, all) =
        order_loop-IsProgress order fuel [] final known
          (record { ordered = tt; distinct = tt; within = λ n h. cc }) e in
      (
        p.ordered,
        p.distinct,
        λ n. elim (Bool-cases (contains final n)) [
          | inl there ↦ there ∙ sym (p.within n there)
          | inr missing ↦ elim (Bool-cases (contains names n)) [
            | inr unknown ↦ missing ∙ sym unknown
            | inl known_name ↦
                let too_many =
                  length-le_of_contains (n ∷ final) names (missing, p.distinct)
                    (λ a h. ground (arith, ==_iff a n, p.within a)) in
                absurd (omega (arith, too_many, all))
          ]
        ],
      )
