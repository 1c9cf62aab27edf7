-- ===== src/Ring/ReadAll/Quorum.antt =====
-- The instances that a read of the whole ring asks.
use dskit.Base.{
  ==_iff, All, All-map, Bool, Bool-cases, List, String, [], ap, arith, common_element, contains,
  count_if, count_if-keep, false, get_elem?, inl, inr, keep, length, min, nat_eq, not, refl, some,
  string_eq, subst, sym, true, ℕ, ◌&&◌, ◌+◌, ◌/◌, ◌∷◌, ◌≡◌, ◌≤◌, ◌⊎◌,
}
use dskit.Ring.Types.{InstanceDesc}
use dskit.Ring.State.{Ring, ReplicationSet, ok}
use dskit.Ring.ReadAll.{
  values, zone_failures, live, plain_set, zone_aware_set, get_replication_set_for_operation,
  num_required, tolerated_zones,
}

keep_all : (xs : List InstanceDesc) → xs ≡ keep (λ i. not (contains {A = String} [] i.zone)) xs
keep_all [] = refl
keep_all (x ∷ xs) = ap (λ t. x ∷ t) (keep_all xs)

failing :
    (healthy : InstanceDesc → Bool) (xs : List InstanceDesc)
    → All (λ x. (healthy x ≡ true) ⊎ (contains (zone_failures healthy xs) x.zone ≡ true)) xs
unfolding zone_failures
failing healthy [] = tt
failing healthy (x ∷ xs) = (
  ground (arith, ==_iff x.zone x.zone),
  All-map (λ y. (healthy y ≡ true) ⊎ (contains (zone_failures healthy xs) y.zone ≡ true)) _
      (λ y h. ground arith) xs (failing healthy xs),
)

unique_zone :
    (healthy : InstanceDesc → Bool) (fs : List String) (ys : List InstanceDesc) (z : String)
    → contains fs z ≡ false
    → All (λ y. (healthy y ≡ true) ⊎ (contains fs y.zone ≡ true)) ys
    → All (λ y. z ≡ y.zone → healthy y ≡ true) ys
unique_zone healthy fs [] z out h = tt
unique_zone healthy fs (y ∷ ys) z out h =
    (λ same. ground (arith, ap (contains fs) same), unique_zone healthy fs ys z out h.1)

in_whole_zones :
    (healthy : InstanceDesc → Bool) (fs : List String) (ys xs : List InstanceDesc)
    → All (λ y. (healthy y ≡ true) ⊎ (contains fs y.zone ≡ true)) ys
    → All
        (λ x. (healthy x ≡ true) × All (λ y. x.zone ≡ y.zone → healthy y ≡ true) ys)
        (keep (λ i. not (contains fs i.zone)) (keep healthy xs))
in_whole_zones healthy fs ys [] h = tt
in_whole_zones healthy fs ys (x ∷ xs) h =
    let rest = in_whole_zones healthy fs ys xs h in
    elim (Bool-cases (healthy x)) [
      | inl up ↦ elim (Bool-cases (contains fs x.zone)) [
        | inl out ↦ ground arith
        | inr out ↦ let whole = unique_zone healthy fs ys x.zone out h in ground arith
      ]
      | inr down ↦ ground arith
    ]

module _ (r : Ring) (op now_ns : ℕ) where
  abbrev everyone : List InstanceDesc
  everyone = values r.ring_desc.ingesters

  plain_cases :
      (set : ReplicationSet)
      → r.zone_awareness_enabled ≡ false
      → get_replication_set_for_operation r op now_ns ≡ ok set
      → (set.instances ≡ keep (live r op now_ns) everyone)
        × (set.max_errors + num_required r op now_ns ≡ length (keep (live r op now_ns) everyone))
  unfolding get_replication_set_for_operation plain_set
  plain_cases set off e = go r.ring_tokens refl
    where
      go :
          (ts : List ℕ)
          → r.ring_tokens ≡ ts
          → (set.instances ≡ keep (live r op now_ns) everyone)
            × (set.max_errors + num_required r op now_ns
                ≡ length (keep (live r op now_ns) everyone))
      go [] same = ground arith
      go (t ∷ ts) same = ground arith

  -- Without zone awareness a read of the whole ring meets every quorum write: whichever answers come
  -- in, with at most the returned number of errors, one of them is from an instance of any given set
  -- of more than half the replication factor's instances.
  pub read_meets_write :
      (set : ReplicationSet) (answered wrote : InstanceDesc → Bool)
      → r.zone_awareness_enabled ≡ false
      → get_replication_set_for_operation r op now_ns ≡ ok set
      → length set.instances ≤ count_if answered set.instances + set.max_errors
      → r.replication_factor / 2 + 1 ≤ count_if wrote everyone
      → (i : ℕ) × (x : InstanceDesc) × (get_elem? everyone i ≡ some x)
        × (live r op now_ns x && answered x ≡ true)
        × (wrote x ≡ true)
  read_meets_write set answered wrote off e asked half =
      let (same, spare) = plain_cases set off e in
      common_element (λ x. live r op now_ns x && answered x) wrote everyone
        (ground (
          arith,
          ap length same,
          ap (count_if answered) same,
          count_if-keep answered (live r op now_ns) everyone,
        ))

  zone_cases :
      (set : ReplicationSet)
      → r.zone_awareness_enabled ≡ true
      → get_replication_set_for_operation r op now_ns ≡ ok set
      → (set.instances
          ≡ keep
              (λ i. not (contains (zone_failures (live r op now_ns) everyone) i.zone))
              (keep (live r op now_ns) everyone))
        × (set.max_unavailable_zones + length (zone_failures (live r op now_ns) everyone)
            ≡ tolerated_zones r op now_ns)
  unfolding get_replication_set_for_operation zone_aware_set
  zone_cases set on e = go r.ring_tokens refl (zone_failures (live r op now_ns) everyone) refl
    where
      go :
          (ts : List ℕ)
          → r.ring_tokens ≡ ts
          → (fs : List String) → zone_failures (live r op now_ns) everyone ≡ fs
          → (set.instances
              ≡ keep (λ i. not (contains fs i.zone)) (keep (live r op now_ns) everyone))
            × (set.max_unavailable_zones + length fs ≡ tolerated_zones r op now_ns)
      go [] same fs same_fs = ground arith
      go (t ∷ ts) same [] same_fs = ground (arith, keep_all (keep (live r op now_ns) everyone))
      go (t ∷ ts) same (f ∷ fs) same_fs = ground arith

  -- With zone awareness, a read of the whole ring asks only healthy instances, and of each zone that
  -- it asks every instance is healthy; the zones left out and the failures still allowed in the
  -- others add up to what the replication factor, or the number of zones when that is less,
  -- tolerates.
  pub zone_read-IsWhole :
      (set : ReplicationSet)
      → r.zone_awareness_enabled ≡ true
      → get_replication_set_for_operation r op now_ns ≡ ok set
      → All
          (λ x.
            (live r op now_ns x ≡ true)
            × All (λ y. x.zone ≡ y.zone → live r op now_ns y ≡ true) everyone)
          set.instances
        × (set.max_unavailable_zones + length (zone_failures (live r op now_ns) everyone)
            ≡ min (length r.ring_zones) r.replication_factor / 2)
  zone_read-IsWhole set on e =
      let (same, spare) = zone_cases set on e in
      (
        subst (All _) (sym same) (
            in_whole_zones (live r op now_ns) _ everyone everyone
              (failing (live r op now_ns) everyone)),
        omega (arith, spare),
      )
