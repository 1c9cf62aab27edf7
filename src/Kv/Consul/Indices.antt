-- ===== src/Kv/Consul/Indices.antt =====
-- kv/consul/mock.go: how the indices of the pairs grow while clients write.
use dskit.Base.{
  Bool-cases, List, Option, String, [], ap, arith, if◌then◌else◌, inl, inr, length, nat_eq, none,
  refl, some, string_eq, subst, sym, ℕ, ◌+◌, ◌<◌, ◌==◌, ◌∙◌, ◌∷◌, ◌≡◌, ◌≤◌, ◌⊎◌,
}
use dskit.Base.Maps.{lookup, lookup-insert}
use dskit.Kv.Consul.{
  Mock, Pair, Write, apply_write, apply_writes, index_differs, mock_cas, next_index, other_cas,
  other_put, write_pair, written_pair,
}

-- The largest number of a uint64.
abbrev pub max_index : ℕ
max_index = 18_446_744_073_709_551_615

module _ {B : Type 0} where
  -- Every index is at least 1 and at most `current`.
  abbrev pub InBounds : Mock B → Type 0
  InBounds m =
      (key : String) (p : Pair B)
      → lookup key m.kvps ≡ some p
      → (1 ≤ p.modify_index) × (p.modify_index ≤ m.current)

  -- A pair is as it was, or has an index that is new.
  abbrev pub Grown : String → Mock B → Mock B → Type 0
  Grown key m n =
      (m.current ≤ n.current)
      × ((lookup key n.kvps ≡ lookup key m.kvps)
          ⊎ ((q : Pair B) × (lookup key n.kvps ≡ some q) × (m.current < q.modify_index)))

  next_index_lem : (m : Mock B) → m.current < max_index → next_index m ≡ m.current + 1
  next_index_lem m h = omega arith

  written_index :
      (index : ℕ) (b : B) (old : Option (Pair B)) → (written_pair index b old).modify_index ≡ index
  unfolding written_pair
  written_index index b none = refl
  written_index index b (some p) = refl

  pub lookup-write_pair :
      (key other : String) (b : B) (m : Mock B)
      → lookup other (write_pair key b m).kvps ≡ (
          if key == other
          then some (written_pair (next_index m) b (lookup key m.kvps))
          else lookup other m.kvps)
  unfolding write_pair
  lookup-write_pair key other b m = lookup-insert key other _ m.kvps

  write_pair_current :
      (key : String) (b : B) (m : Mock B)
      → m.current < max_index
      → (write_pair key b m).current ≡ m.current + 1
  unfolding write_pair
  write_pair_current key b m h = next_index_lem m h

  pub write_pair-InBounds :
      (key : String) (b : B) (m : Mock B)
      → m.current < max_index
      → InBounds m
      → InBounds (write_pair key b m)
  write_pair-InBounds key b m room h other p found = elim (Bool-cases (key == other)) [
    | inl same ↦
        let p_is : written_pair (next_index m) b (lookup key m.kvps) ≡ p =
          ground (arith, lookup-write_pair key other b m) in
        let index : p.modify_index ≡ m.current + 1 =
          ap (λ (q : Pair B). q.modify_index) (sym p_is)
          ∙ written_index (next_index m) b (lookup key m.kvps)
          ∙ next_index_lem m room in
        (omega arith, omega (arith, write_pair_current key b m room))
    | inr apart ↦
        let (low, high) = h other p (ground (arith, lookup-write_pair key other b m)) in
        (low, omega (arith, write_pair_current key b m room))
  ]

  pub write_pair-Grown :
      (key other : String) (b : B) (m : Mock B)
      → m.current < max_index
      → Grown other m (write_pair key b m)
  write_pair-Grown key other b m room = (
    omega (arith, write_pair_current key b m room),
    elim (Bool-cases (key == other)) [
      | inl same ↦ inr (
        written_pair (next_index m) b (lookup key m.kvps),
        ground (arith, lookup-write_pair key other b m),
        omega (arith, written_index (next_index m) b (lookup key m.kvps), next_index_lem m room),
      )
      | inr apart ↦ inl (ground (arith, lookup-write_pair key other b m))
    ],
  )

  -- What a write keeps: the bounds, the growth of each pair, and one step of `current` at most.
  abbrev Kept : Mock B → ℕ → Mock B → Type 0
  Kept m steps n = InBounds n × ((key : String) → Grown key m n) × (n.current ≤ m.current + steps)

  write_pair-Kept :
      (key : String) (b : B) (m : Mock B)
      → m.current < max_index
      → InBounds m
      → Kept m 1 (write_pair key b m)
  write_pair-Kept key b m room h = (
    write_pair-InBounds key b m room h,
    λ other. write_pair-Grown key other b m room,
    omega (arith, write_pair_current key b m room),
  )

  apply_write-Kept :
      (w : Write B) (m : Mock B) → m.current < max_index → InBounds m → Kept m 1 (apply_write w m)
  unfolding apply_write mock_cas
  apply_write-Kept (other_put key b) m room h = write_pair-Kept key b m room h
  apply_write-Kept (other_cas key b index) m room h =
      elim (Bool-cases (index_differs index (lookup key m.kvps))) [
        | inl differs ↦
            let kept : m ≡ apply_write (other_cas key b index) m = ground arith in
            subst (Kept m 1) kept (h, λ other. (omega arith, inl refl), omega arith)
        | inr same ↦
            let wrote : write_pair key b m ≡ apply_write (other_cas key b index) m = ground arith in
            subst (Kept m 1) wrote (write_pair-Kept key b m room h)
      ]

  Grown-trans : (key : String) (m n k : Mock B) → Grown key m n → Grown key n k → Grown key m k
  Grown-trans key m n k (le, inl same) (le', inl same') = (omega arith, inl (same' ∙ same))
  Grown-trans key m n k (le, inr (q, found, lt)) (le', inl same') =
      (omega arith, inr (q, same' ∙ found, lt))
  Grown-trans key m n k (le, _) (le', inr (q, found, lt)) =
      (omega arith, inr (q, found, omega arith))

  -- The writes of others keep the indices in bounds, and give each pair that they change a new one.
  pub apply_writes-Kept :
      (ws : List (Write B)) (m : Mock B)
      → m.current + length ws ≤ max_index
      → InBounds m
      → Kept m (length ws) (apply_writes ws m)
  unfolding apply_writes
  apply_writes-Kept [] m room h = (h, λ key. (omega arith, inl refl), omega arith)
  apply_writes-Kept (w ∷ ws) m room h =
      let (h1, grown1, le1) = apply_write-Kept w m (omega arith) h in
      let (h2, grown2, le2) = apply_writes-Kept ws (apply_write w m) (omega arith) h1 in
      (
        h2,
        λ key.
            Grown-trans key m (apply_write w m) (apply_writes ws (apply_write w m)) (grown1 key)
              (grown2 key),
        omega arith,
      )
