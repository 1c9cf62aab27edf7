-- ===== src/Modules/Examples.antt =====
-- The order of the dependencies of concrete modules.
use dskit.Base.{
  ==_iff, Bool-cases, IsDistinct, List, String, [], ap, arith, contains, if◌then◌else◌, inl, inr,
  nat_eq, none, refl, some, string_eq, subst, sym, true, ℕ, ◌<◌, ◌==◌, ◌∷◌, ◌≡◌,
}
use dskit.Base.Maps.{lookup}
use dskit.Modules.{
  Module, Modules, deps_of, list_deps, ordered_deps, find_inverse_dependencies,
  dependencies_for_module,
}
use dskit.Modules.Ordered.{IsOrdered}
use dskit.Modules.Dependencies.{ordered_deps-IsOrdered}

abbrev on : List String → Module
on deps = record { deps = deps; init_fn = none; user_visible = true }

abbrev two : Modules
two = ("app", on ("log" ∷ [])) ∷ ("log", on []) ∷ []

abbrev rank : String → ℕ
rank n = if n == "app" then 1 else 0

acyclic :
    (n : String) (m : Module)
    → lookup n two ≡ some m
    → (d : String) → contains m.deps d ≡ true
    → (rank d < rank n) × (m' : Module) × (lookup d two ≡ some m')
unfolding lookup
acyclic n m e d there = elim (Bool-cases ("app" == n)) [
  | inl at_app ↦
      let is_on : on ("log" ∷ []) ≡ m = ground (arith, ==_iff "app" n) in
      let here : contains ("log" ∷ []) d ≡ true =
        subst (λ (x : Module). contains x.deps d ≡ true) (sym is_on) there in
      let is_log : d ≡ "log" = ground (arith, ==_iff d "log") in
      let at_n = (==_iff "app" n).0 at_app in
      (
        subst (λ x. rank d < rank x) at_n
            (subst (λ x. rank x < rank "app") (sym is_log) (omega arith)),
        on [],
        ap (λ x. lookup x two) is_log,
      )
  | inr other ↦
      let is_on : on [] ≡ m = ground (arith, ==_iff "app" n, ==_iff "log" n) in
      absurd (none_there (subst (λ (x : Module). contains x.deps d ≡ true) (sym is_on) there))
]
  where
    none_there : contains {A = String} [] d ≡ true → ⊥
    none_there h = cc

abbrev as_given : List String → ℕ → List String
as_given names k = names

ordered_deps-IsOrdered_example :
    (deps : List String) × (final : List String) × (list_deps 2 two "app" ≡ some deps)
    × (ordered_deps 2 2 as_given two "app" ≡ some final)
    × IsOrdered (deps_of two) [] final
    × IsDistinct final
    × ((n : String) → contains final n ≡ contains deps n)
unfolding lookup
ordered_deps-IsOrdered_example =
    ordered_deps-IsOrdered two rank acyclic as_given (λ names k n. refl) "app" (on ("log" ∷ []))
      refl

abbrev three : Modules
three = ("a", on ("b" ∷ "c" ∷ [])) ∷ ("b", on ("c" ∷ [])) ∷ ("c", on []) ∷ []

in_order : ordered_deps 3 3 as_given three "a" ≡ some ("c" ∷ "b" ∷ [])
unfolding ordered_deps lookup
in_order = refl

inverse : find_inverse_dependencies three "c" ("b" ∷ "a" ∷ []) ≡ "b" ∷ "a" ∷ []
unfolding find_inverse_dependencies lookup
inverse = refl

sorted : dependencies_for_module 3 three "a" ≡ some ("b" ∷ "c" ∷ [])
unfolding dependencies_for_module lookup
sorted = refl
