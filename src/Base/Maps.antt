-- ===== src/Base/Maps.antt =====
-- Go maps, as lists of entries in the order in which a `range` loop happens to visit them: what is
-- proved for every list is proved for every order of iteration.
use dskit.Base.{==_refl, All, All-map, Bool-cases, inl, inr, nat_eq, string_eq, subst, ◌∙◌}
use mathlib.Core.Path.{◌≡◌, refl}
use mathlib.Core.List.{List, [], ◌∷◌}
use mathlib.Core.Option.{Option, none, some}
use native.Mathlib.Omega.{arith}
use package.dskit.Base.Tests.{Eq, ◌==◌, ==_iff, if◌then◌else◌}

abbrev pub Map {ℓ κ} : Type ℓ → Type κ → Type (ℓ ⊔ κ)
Map K V = List (K × V)

module _ {ℓ κ} {K : Type ℓ} {V : Type κ} ⦃e : Eq K⦄ where
  -- `v, ok := m[k]`
  unfoldable pub lookup : K → Map K V → Option V
  lookup key [] = none
  lookup key ((j, new) ∷ rest) = if j == key then some new else lookup key rest

  -- `m[k] = v`
  unfoldable pub insert : K → V → Map K V → Map K V
  insert key new [] = (key, new) ∷ []
  insert key new ((j, old) ∷ rest) =
      if j == key then (key, new) ∷ rest else (j, old) ∷ insert key new rest

  -- `delete(m, k)`
  unfoldable pub delete : K → Map K V → Map K V
  delete key [] = []
  delete key ((j, old) ∷ rest) =
      let others = delete key rest in if j == key then others else (j, old) ∷ others

  -- No key has two entries.
  abbrev pub IsMap : Map K V → Type κ
  IsMap [] = Unit
  IsMap ((key, new) ∷ rest) = (lookup key rest ≡ none) × IsMap rest

  pub lookup-insert :
      (key j : K) (new : V) (rest : Map K V)
      → lookup j (insert key new rest) ≡ (if key == j then some new else lookup j rest)
  unfolding lookup insert
  lookup-insert key j new [] = refl
  lookup-insert key j new ((i, old) ∷ rest) =
      ground (arith, ==_iff key j, ==_iff i key, ==_iff i j, lookup-insert key j new rest)

  pub lookup-delete :
      (key j : K) (rest : Map K V)
      → lookup j (delete key rest) ≡ (if key == j then none else lookup j rest)
  unfolding lookup delete
  lookup-delete key j [] = ground arith
  lookup-delete key j ((i, old) ∷ rest) =
      ground (arith, ==_iff key j, ==_iff i key, ==_iff i j, lookup-delete key j rest)

  pub insert-IsMap : (key : K) (new : V) (rest : Map K V) → IsMap rest → IsMap (insert key new rest)
  unfolding insert lookup
  insert-IsMap key new [] h = (refl, tt)
  insert-IsMap key new ((j, old) ∷ rest) h = elim (Bool-cases (j == key)) [
    | inl same ↦ rw same (subst (λ x. lookup x rest ≡ none) ((==_iff j key).0 same) h.0, h.1)
    | inr other ↦ rw other (
      lookup-insert key j new rest ∙ ground (arith, ==_iff key j, ==_iff j key),
      insert-IsMap key new rest h.1,
    )
  ]

  pub delete-IsMap : (key : K) (rest : Map K V) → IsMap rest → IsMap (delete key rest)
  unfolding delete lookup
  delete-IsMap key [] h = tt
  delete-IsMap key ((j, old) ∷ rest) h = elim (Bool-cases (j == key)) [
    | inl same ↦ rw same (delete-IsMap key rest h.1)
    | inr other ↦ rw other (
      lookup-delete key j rest ∙ ground (arith, ==_iff key j, ==_iff j key),
      delete-IsMap key rest h.1,
    )
  ]

  -- The entries of a map are found in it.
  pub entries_found : (m : Map K V) → IsMap m → All (λ ((k, v) : K × V). lookup k m ≡ some v) m
  unfolding lookup
  entries_found [] h = tt
  entries_found ((k, v) ∷ m) h = (
    rw (==_refl k) refl,
    All-map (λ ((j, w) : K × V). lookup j m ≡ some w)
        (λ ((j, w) : K × V). (if k == j then some v else lookup j m) ≡ some w)
        (λ (j, w) found. ground (arith, ==_iff k j)) m (entries_found m h.1),
  )
