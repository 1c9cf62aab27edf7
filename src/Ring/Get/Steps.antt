-- ===== src/Ring/Get/Steps.antt =====
-- One iteration of the walk of Get, and a rule for all of them.
use dskit.Base.{
  Bool, Bool-cases, Option-cases, [], arith, contains, get_or, if◌then◌else◌, inl, inr, length, ltb,
  ltb→lt, nat_eq, some, string_eq, subst, suc, zero, ℕ, ◌%◌, ◌&&◌, ◌++◌, ◌+◌, ◌<◌, ◌||◌, ◌∷◌, ◌≡◌,
  ◌≤◌, ◌⊎◌,
}
use dskit.Base.Maps.{lookup}
use dskit.Ring.Types.{InstanceDesc, instance_at}
use dskit.Ring.State.{InstanceInfo, Ring}
use dskit.Ring.Operation.{should_extend_replica_set_on_state}
use dskit.Ring.Get.{Walk, zone_counts, consider, walk}

module _ (r : Ring) (op : ℕ) where
  abbrev pub extends : InstanceDesc → Bool
  extends i = should_extend_replica_set_on_state op i.state

  -- The instance of a token, with what adding it makes of the walk.
  abbrev pub added : InstanceInfo → Walk → Walk
  added info w =
      let instance_desc = instance_at info.instance_id r.ring_desc.ingesters in
      record {
        n = if extends instance_desc then w.n + 1 else w.n;
        instances = w.instances ++ instance_desc ∷ [];
        hosts = w.hosts ++ info.instance_id ∷ [];
        zones =
            if extends instance_desc
            then w.zones
            else if zone_counts r op info
            then w.zones ++ info.zone ∷ []
            else w.zones;
      }

  -- Whether the walk passes over an instance: it has it, or has another of its zone.
  abbrev pub passed_over : InstanceInfo → Walk → Bool
  passed_over info w =
      contains w.hosts info.instance_id || (zone_counts r op info && contains w.zones info.zone)

  pub consider_lem :
      (info : InstanceInfo) (w : Walk)
      → consider r op info w ≡ (if passed_over info w then w else added info w)
  unfolding consider
  consider_lem info w = ground arith

  -- What an iteration does.
  pub walk_step :
      (left_over i : ℕ) (w w' : Walk)
      → walk r op (suc left_over) i w ≡ some w'
      → ((w.n ≤ length w.hosts) × (w ≡ w'))
        ⊎ ((info : InstanceInfo) × (length w.hosts < w.n)
            × (lookup (get_or r.ring_tokens (i % length r.ring_tokens) 0) r.ring_instance_by_token
                ≡ some info)
            × (walk r op left_over (i % length r.ring_tokens + 1) (consider r op info w) ≡ some w'))
  unfolding walk
  walk_step left_over i w w' e = elim (Bool-cases (ltb (length w.hosts) w.n)) [
    | inr stop ↦ inl (ground arith, ground arith)
    | inl go ↦
        elim (Option-cases
          (lookup (get_or r.ring_tokens (i % length r.ring_tokens) 0) r.ring_instance_by_token)) [
            | inl missing ↦ ground arith
            | inr (info, found) ↦ inr (info, ltb→lt _ _ go, found, ground arith)
          ]
  ]

  -- A rule for what the iterations keep.
  pub walk_ind :
      (P : Walk → Type 0)
      → ((info : InstanceInfo) (w : Walk) → length w.hosts < w.n → P w → P (consider r op info w))
      → (left_over i : ℕ) (w w' : Walk) → walk r op left_over i w ≡ some w'
      → P w
      → P w'
  unfolding walk
  walk_ind P step zero i w w' e h = subst P (cc) h
  walk_ind P step (suc left_over) i w w' e h = elim (walk_step left_over i w w' e) [
    | inl (_, same) ↦ subst P same h
    | inr (info, more, _, rest) ↦ walk_ind P step left_over _ _ w' rest (step info w more h)
  ]
