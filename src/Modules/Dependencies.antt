-- ===== src/Modules/Dependencies.antt =====
-- orderedDeps as a whole: the dependencies of a module are found and put in order.
use dskit.Base.{
  ==_iff, ==_refl, Bool-cases, IsDistinct, List, Option, String, [], ap, arith, contains,
  contains-append, inl, inr, nat_eq, refl, some, string_eq, subst, suc, sym, true, zero, ℕ, ◌++◌,
  ◌<◌, ◌==◌, ◌∙◌, ◌∷◌, ◌≡◌,
}
use dskit.Base.Maps.{lookup}
use dskit.Modules.{Module, Modules, deps_of, append_all, list_deps, unique, ordered_deps}
use dskit.Modules.Ordered.{IsOrdered, order_loop-IsOrdered}
use dskit.Modules.Ends.{order_loop-ends}

some-inj {ℓ} : {A : Type ℓ} {x y : A} → some x ≡ some y → x ≡ y
some-inj e = cc

contains-unique : (ns : List String) (a : String) → contains (unique ns) a ≡ contains ns a
unfolding unique
contains-unique [] a = refl
contains-unique (n ∷ ns) a = ground (arith, contains-unique ns a, contains-unique ns n, ==_iff a n)

unique-IsDistinct : (ns : List String) → IsDistinct (unique ns)
unfolding unique
unique-IsDistinct [] = tt
unique-IsDistinct (n ∷ ns) = elim (Bool-cases (contains (unique ns) n)) [
  | inl old ↦ rw old (unique-IsDistinct ns)
  | inr fresh ↦ rw fresh (fresh, unique-IsDistinct ns)
]

-- Where every call gives a list, so do all of them, and what is in it comes from one of them.
append_all-some :
    (f : String → Option (List String)) (ds : List String)
    → ((d : String) → contains ds d ≡ true → (xs : List String) × (f d ≡ some xs))
    → (xs : List String) × (append_all f ds ≡ some xs)
      × ((d a : String) (ys : List String)
          → contains ds d ≡ true
          → f d ≡ some ys
          → contains ys a ≡ true
          → contains xs a ≡ true)
      × ((a : String)
          → contains xs a ≡ true
          → (d : String) × (contains ds d ≡ true)
            × (ys : List String) × (f d ≡ some ys)
            × (contains ys a ≡ true))
append_all-some f [] h = ([], refl, λ d a ys there e c. cc, λ a c. absurd (ground arith))
append_all-some f (x ∷ ds) h =
    let (ys, is_ys) = h x (ground (arith, ==_refl x)) in
    let (rest, is_rest, into, from) = append_all-some f ds (λ d there. h d (ground arith)) in
    (
      ys ++ rest,
      rw (is_ys, is_rest, append_all),
      λ d a zs there e c. elim (Bool-cases (d == x)) [
        | inl same ↦
            let e' : some zs ≡ some ys = sym e ∙ ap f ((==_iff d x).0 same) ∙ is_ys in
            ground (arith, contains-append ys rest a)
        | inr other ↦ ground (arith, contains-append ys rest a, into d a zs (ground arith) e c)
      ],
      λ a c. elim (Bool-cases (contains ys a)) [
        | inl here ↦ (x, ground (arith, ==_refl x), ys, is_ys, here)
        | inr later ↦
            let (d, there, zs, is_zs, c') = from a (ground (arith, contains-append ys rest a)) in
            (d, ground arith, zs, is_zs, c')
      ],
    )

module _ (mods : Modules) (rank : String → ℕ)
    (acyclic : (n : String) (m : Module)
      → lookup n mods ≡ some m
      → (d : String) → contains m.deps d ≡ true
      → (rank d < rank n) × (m' : Module) × (lookup d mods ≡ some m')) where
  -- The dependencies of a module are found, are registered, are of a lower rank, and are closed.
  list_deps-some :
      (depth : ℕ) (name : String) (m : Module)
      → lookup name mods ≡ some m
      → rank name < depth
      → (ds : List String) × (list_deps depth mods name ≡ some ds)
        × ((d : String) → contains m.deps d ≡ true → contains ds d ≡ true)
        × ((n : String)
            → contains ds n ≡ true
            → (rank n < rank name)
              × ((d : String)
                  → contains (deps_of mods n) d ≡ true
                  → (contains ds d ≡ true) × (rank d < rank n)))
  unfolding list_deps
  list_deps-some zero name m e h = absurd (omega arith)
  list_deps-some (suc depth) name m e h =
      let own = λ (d : String) (there : contains m.deps d ≡ true).
        (let (lower, m', e') = acyclic name m e d there in
          list_deps-some depth d m' e' (omega arith)) in
      let (rest, is_rest, into, from) =
        append_all-some (list_deps depth mods) m.deps
          (λ d there. ((own d there).0, (own d there).1)) in
      (
        m.deps ++ rest,
        rw (e, list_deps, is_rest),
        λ d there. ground (arith, contains-append m.deps rest d),
        λ n c. elim (Bool-cases (contains m.deps n)) [
          | inl here ↦
              let (lower, m', e') = acyclic name m e n here in
              let (ys, is_ys, direct, props) = list_deps-some depth n m' e' (omega arith) in
              let is_deps : deps_of mods n ≡ m'.deps = rw (e', deps_of) in
              (
                lower,
                λ d c'.
                    let c'' : contains m'.deps d ≡ true =
                      subst (λ l. contains l d ≡ true) is_deps c' in
                    (
                      ground (
                        arith,
                        contains-append m.deps rest d,
                        into n d ys here is_ys (direct d c''),
                      ),
                      (acyclic n m' e' d c'').0,
                    ),
              )
          | inr later ↦
              let (x, there, zs, is_zs, c') =
                from n (ground (arith, contains-append m.deps rest n)) in
              let (lower, m', e') = acyclic name m e x there in
              let (ys, is_ys, direct, props) = list_deps-some depth x m' e' (omega arith) in
              let same : zs ≡ ys = some-inj (sym is_zs ∙ is_ys) in
              let (low, closed) = props n (subst (λ l. contains l n ≡ true) same c') in
              (
                omega arith,
                λ d c2.
                    let (in_ys, low2) = closed d c2 in
                    (
                      ground (arith, contains-append m.deps rest d, into x d ys there is_ys in_ys),
                      low2,
                    ),
              )
        ],
      )

  -- Where every dependency that is named is registered, and has a lower rank than the module that
  -- names it, orderedDeps ends with the dependencies of a registered module: each of them once, each
  -- after all of its own dependencies, in whatever order the map gives its names in each pass. What it
  -- has are exactly the dependencies that listDeps finds. As many levels and passes as the rank of the
  -- module, and one more, are enough.
  pub ordered_deps-IsOrdered :
      (order : List String → ℕ → List String)
      → ((names : List String) (k : ℕ) (n : String) → contains (order names k) n ≡ contains names n)
      → (name : String) (m : Module) → lookup name mods ≡ some m
      → (deps : List String) × (final : List String) × (list_deps (suc (rank name)) mods name
          ≡ some deps)
        × (ordered_deps (suc (rank name)) (suc (rank name)) order mods name ≡ some final)
        × IsOrdered (deps_of mods) [] final
        × IsDistinct final
        × ((n : String) → contains final n ≡ contains deps n)
  unfolding ordered_deps
  ordered_deps-IsOrdered order visits name m e =
      let (deps, is_deps, direct, props) =
        list_deps-some (suc (rank name)) name m e (omega arith) in
      let names = unique deps in
      let known =
        λ (n : String) (c : contains names n ≡ true). props n (sym (contains-unique deps n) ∙ c) in
      let (final, ends) =
        order_loop-ends (deps_of mods) names (unique-IsDistinct deps) rank (order names)
          (λ n d c there.
            (contains-unique deps d ∙ ((known n c).1 d there).0, ((known n c).1 d there).1))
          (λ k n c. visits names k n ∙ c) (rank name) (λ n c. (known n c).0) in
      let (ordered, distinct, same) =
        order_loop-IsOrdered (deps_of mods) names (order names) (suc (rank name)) final
          (λ k n c. sym (visits names k n) ∙ c) ends in
      (
        deps,
        final,
        is_deps,
        rw (is_deps, ordered_deps) ends,
        ordered,
        distinct,
        λ n. same n ∙ contains-unique deps n,
      )
