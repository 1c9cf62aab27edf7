-- ===== src/Ring/Get/Distinct.antt =====
-- The walk of Get gathers distinct instances.
use dskit.Base.{
  Bool-cases, IsDistinct, IsDistinct-snoc, [], ap, arith, count_if, count_if-append, false, inl,
  inr, length, length-append, map, map-append, nat_eq, refl, some, string_eq, sym, ℕ, ◌++◌, ◌+◌,
  ◌<◌, ◌∙◌, ◌∷◌, ◌≡◌, ◌≤◌,
}
use dskit.Ring.Types.{instance_at}
use dskit.Ring.State.{InstanceInfo, Ring}
use dskit.Ring.Get.{Walk, consider, walk, start}
use dskit.Ring.Get.Steps.{extends, added, passed_over, consider_lem, walk_ind}

module _ (r : Ring) (op : ℕ) where
  -- What the walk keeps: distinct instances, each of them read from the ring, and a bound that
  -- grows by one with each instance that extends r op the set.
  pub record Inv (w : Walk) : Type 0 where
    pub distinct : IsDistinct w.hosts
    pub read : w.instances ≡ map (λ id. instance_at id r.ring_desc.ingesters) w.hosts
    pub bound : w.n ≡ r.replication_factor + count_if (extends r op) w.instances
    pub zones_distinct : IsDistinct w.zones

  added-Inv :
      (info : InstanceInfo) (w : Walk)
      → passed_over r op info w ≡ false
      → Inv w
      → Inv (added r op info w)
  added-Inv info w new h = record {
    distinct = IsDistinct-snoc w.hosts info.instance_id h.distinct (ground arith);
    read =
        ap (λ is. is ++ instance_at info.instance_id r.ring_desc.ingesters ∷ []) h.read
        ∙ sym (
            map-append (λ id. instance_at id r.ring_desc.ingesters) w.hosts
              (info.instance_id ∷ []));
    bound = ground (
      arith,
      h.bound,
      count_if-append (extends r op) w.instances
          (instance_at info.instance_id r.ring_desc.ingesters ∷ []),
    );
    zones_distinct = ground (arith, IsDistinct-snoc w.zones info.zone h.zones_distinct);
  }

  consider-Inv : (info : InstanceInfo) (w : Walk) → Inv w → Inv (consider r op info w)
  consider-Inv info w h =
      rw (consider_lem r op info w) (elim (Bool-cases (passed_over r op info w)) [
        | inl over ↦ rw over h
        | inr new ↦ rw new (added-Inv info w new h)
      ])

  consider_bound :
      (info : InstanceInfo) (w : Walk)
      → length w.hosts < w.n
      → length (consider r op info w).hosts ≤ (consider r op info w).n
  consider_bound info w more =
      rw (consider_lem r op info w) (ground (arith, length-append w.hosts (info.instance_id ∷ [])))

  start-Inv : Inv (start r op)
  start-Inv = record { distinct = tt; read = refl; bound = omega arith; zones_distinct = tt }

  pub walk-Inv :
      (left_over i : ℕ) (w : Walk)
      → walk r op left_over i (start r op) ≡ some w
      → Inv w × (length w.hosts ≤ w.n)
  walk-Inv left_over i w e =
      walk_ind r op (λ x. Inv x × (length x.hosts ≤ x.n))
        (λ info x more h. (consider-Inv info x h.0, consider_bound info x more)) left_over i
        (start r op) w e (start-Inv, omega arith)
