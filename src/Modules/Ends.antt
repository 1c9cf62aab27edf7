-- ===== src/Modules/Ends.antt =====
-- The loop of orderedDeps ends for modules that do not depend on themselves.
use dskit.Base.{
  ==_iff, ==_refl, Bool-cases, IsDistinct, List, String, [], arith, contains, contains-append, inl,
  inr, length, ltb, nat_eq, refl, some, string_eq, subst, suc, true, zero, ℕ, ◌+◌, ◌<◌, ◌==◌, ◌∷◌,
  ◌≡◌, ◌≤◌,
}
use dskit.Modules.{all_added, add_if_ready, pass, order_loop}
use dskit.Modules.Ordered.{length-le_of_contains}

all_added-more :
    (xs ys ds : List String)
    → ((a : String) → contains xs a ≡ true → contains ys a ≡ true)
    → all_added xs ds ≡ true
    → all_added ys ds ≡ true
unfolding all_added
all_added-more xs ys [] f h = refl
all_added-more xs ys (d ∷ ds) f h = ground (arith, f d, all_added-more xs ys ds f)

all_added_of :
    (xs ds : List String)
    → ((d : String) → contains ds d ≡ true → contains xs d ≡ true)
    → all_added xs ds ≡ true
unfolding all_added
all_added_of xs [] f = refl
all_added_of xs (d ∷ ds) f =
    let head = f d (ground (arith, ==_refl d)) in
    let tail = all_added_of xs ds (λ a h. f a (ground arith)) in ground arith

module _ (deps : String → List String) where
  add_if_ready-keeps :
      (n : String) (result : List String) (a : String)
      → contains result a ≡ true
      → contains (add_if_ready deps n result) a ≡ true
  unfolding add_if_ready
  add_if_ready-keeps n result a h = ground (arith, contains-append result (n ∷ []) a)

  pass-keeps :
      (ns result : List String) (a : String)
      → contains result a ≡ true
      → contains (pass deps ns result) a ≡ true
  unfolding pass
  pass-keeps [] result a h = h
  pass-keeps (n ∷ ns) result a h =
      pass-keeps ns (add_if_ready deps n result) a (add_if_ready-keeps n result a h)

  add_if_ready-adds :
      (n : String) (result : List String)
      → all_added result (deps n) ≡ true
      → contains (add_if_ready deps n result) n ≡ true
  unfolding add_if_ready
  add_if_ready-adds n result ready = ground (arith, contains-append result (n ∷ []) n, ==_refl n)

  pass-adds :
      (ns result : List String) (n : String)
      → contains ns n ≡ true
      → all_added result (deps n) ≡ true
      → contains (pass deps ns result) n ≡ true
  unfolding pass
  pass-adds [] result n h ready = cc
  pass-adds (m ∷ ns) result n h ready = elim (Bool-cases (n == m)) [
    | inl same ↦
        let at_m = (==_iff n m).0 same in
        pass-keeps ns (add_if_ready deps m result) n (
          subst (λ x. contains (add_if_ready deps x result) n ≡ true) at_m
            (add_if_ready-adds n result ready))
    | inr other ↦ pass-adds ns (add_if_ready deps m result) n (ground arith) (
        all_added-more result (add_if_ready deps m result) (deps n) (add_if_ready-keeps m result)
          ready)
  ]

  module _ (names : List String) (distinct : IsDistinct names) (rank : String → ℕ)
      (order : ℕ → List String)
      (acyclic : (n d : String)
        → contains names n ≡ true
        → contains (deps n) d ≡ true
        → (contains names d ≡ true) × (rank d < rank n))
      (visits : (k : ℕ) (n : String) → contains names n ≡ true → contains (order k) n ≡ true) where
    -- The names up to a rank are there.
    abbrev HasBelow : ℕ → List String → Type 0
    HasBelow k result =
        (n : String) → contains names n ≡ true → rank n < k → contains result n ≡ true

    pass-HasBelow :
        (k i : ℕ) (result : List String)
        → HasBelow k result
        → HasBelow (k + 1) (pass deps (order i) result)
    pass-HasBelow k i result h n known low = pass-adds (order i) result n (visits i n known) (
        all_added_of result (deps n)
          (λ d there. let (known_d, lower) = acyclic n d known there in h d known_d (omega arith)))

    order_loop-ends_from :
        (bound : ℕ)
        → ((n : String) → contains names n ≡ true → rank n < bound)
        → (fuel k : ℕ) (result : List String) → HasBelow k result
        → bound ≤ k + fuel
        → (final : List String) × (order_loop deps (length names) order (suc fuel) result
            ≡ some final)
    unfolding order_loop
    order_loop-ends_from bound low zero k result h le =
        let all =
          length-le_of_contains names result distinct
            (λ a known. h a known (omega (arith, low a known))) in
        (result, ground arith)
    order_loop-ends_from bound low (suc fuel) k result h le =
        elim (Bool-cases (ltb (length result) (length names))) [
          | inr enough ↦ (result, rw enough)
          | inl more ↦ rw more (
              order_loop-ends_from bound low fuel (k + 1) (pass deps (order (suc fuel)) result)
                (pass-HasBelow k (suc fuel) result h) (omega arith))
        ]

    -- Where each name of the map depends only on names of the map with a lower rank, all ranks are
    -- below a bound, and each pass visits all names, the loop of orderedDeps ends after as many passes
    -- as the bound, and finds a result.
    pub order_loop-ends :
        (bound : ℕ)
        → ((n : String) → contains names n ≡ true → rank n < bound)
        → (final : List String) × (order_loop deps (length names) order (suc bound) [] ≡ some final)
    order_loop-ends bound low =
        order_loop-ends_from bound low bound 0 [] (λ n known h. absurd (omega arith)) (omega arith)
