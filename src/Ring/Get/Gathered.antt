-- ===== src/Ring/Get/Gathered.antt =====
-- The walk of Get takes the instance of each token that no earlier one keeps out.
use dskit.Base.{
  ==_iff, All, All-append, All-map, Bool-cases, [], ap, arith, false, get_or, inl, inr, length, ltb,
  nat_eq, not, refl, some, string_eq, subst, suc, sym, true, zero, ℕ, ◌%◌, ◌++◌, ◌+◌, ◌<◌, ◌∙◌, ◌∷◌,
  ◌≡◌, ◌≤◌, ◌⊎◌,
}
use dskit.Base.Maps.{lookup}
use mathlib.Core.List.{append-nil}
use native.Mathlib.Nat.{mod-add-mod}
use dskit.Ring.State.{InstanceInfo, Ring}
use dskit.Ring.Get.{Walk, start, walk}
use dskit.Ring.Get.Steps.{added, consider_lem, passed_over, walk_step}
use dskit.Ring.Get.Round.{
  IsInOrder, IsInOrder-snoc, Places, hosts-append, hosts_of, in_way, in_way-append, in_way_past,
  info_at, is_taken, taken-append, taken_past, zones-append, zones_of,
}

same_info : {x y : InstanceInfo} → some x ≡ some y → x ≡ y
same_info h = cc

module _ (r : Ring) (op from : ℕ) where
  -- The instances that are taken from the first `steps` tokens, from a position on: those that none
  -- taken earlier keeps out.
  pub record Gathers (steps : ℕ) (taken : Places) : Type 0 where
    pub in_order : IsInOrder taken
    pub placed :
        All
          (λ ((place, info) : ℕ × InstanceInfo).
            (place < steps) × (info_at r op (from + place) ≡ some info))
          taken
    pub chosen :
        (place : ℕ) (info : InstanceInfo)
        → place < steps
        → info_at r op (from + place) ≡ some info
        → is_taken place taken ≡ not (in_way r op place info taken)

  record Holds (taken : Places) (w : Walk) : Type 0 where
    same_hosts : w.hosts ≡ hosts_of taken
    same_zones : w.zones ≡ zones_of r op taken

  past :
      (steps : ℕ) (taken : Places)
      → Gathers steps taken
      → All (λ ((p, _) : ℕ × InstanceInfo). p < steps) taken
  past steps taken g = All-map _ _ (λ ((p, i) : ℕ × InstanceInfo) h. h.0) taken g.placed

  passes :
      (steps : ℕ) (taken : Places) (info : InstanceInfo)
      → Gathers steps taken
      → info_at r op (from + steps) ≡ some info
      → in_way r op steps info taken ≡ true
      → Gathers (suc steps) taken
  passes steps taken info g here out = record {
    in_order = g.in_order;
    placed =
        All-map _ _ (λ ((p, i) : ℕ × InstanceInfo) h. (omega (arith, h.0), h.1)) taken g.placed;
    chosen = λ place seen lt at. elim (Bool-cases (ltb place steps)) [
      | inl before ↦ g.chosen place seen (ground arith) at
      | inr last ↦
          let is_last : place ≡ steps = ground arith in
          let same : seen ≡ info =
            same_info (sym at ∙ ap (λ p. info_at r op (from + p)) is_last ∙ here) in
          rw (is_last, same, taken_past steps taken (past steps taken g), out) refl
    ];
  }

  takes :
      (steps : ℕ) (taken : Places) (info : InstanceInfo)
      → Gathers steps taken
      → info_at r op (from + steps) ≡ some info
      → in_way r op steps info taken ≡ false
      → Gathers (suc steps) (taken ++ (steps, info) ∷ [])
  takes steps taken info g here free = record {
    in_order = IsInOrder-snoc steps info taken g.in_order (past steps taken g);
    placed =
        All-append _ taken ((steps, info) ∷ [])
          (All-map _ _ (λ ((p, i) : ℕ × InstanceInfo) h. (omega (arith, h.0), h.1)) taken g.placed)
          ((omega arith, here), tt);
    chosen = λ place seen lt at. elim (Bool-cases (ltb place steps)) [
      | inl before ↦ ground (
        arith,
        g.chosen place seen (ground arith) at,
        taken-append place taken ((steps, info) ∷ []),
        in_way-append r op place seen taken ((steps, info) ∷ []),
        ==_iff place steps,
      )
      | inr last ↦
          let is_last : place ≡ steps = ground arith in
          let same : seen ≡ info =
            same_info (sym at ∙ ap (λ p. info_at r op (from + p)) is_last ∙ here) in
          rw (is_last, same)
            (ground (
              arith,
              taken-append steps taken ((steps, info) ∷ []),
              in_way-append r op steps info taken ((steps, info) ∷ []),
              ==_iff steps steps,
              free,
            ))
    ];
  }

  -- What a walk has taken when it stops.
  pub record Took (left_over steps : ℕ) (w : Walk) : Type 0 where
    pub taken : Places
    pub seen : ℕ
    pub gathers : Gathers seen taken
    pub same_hosts : w.hosts ≡ hosts_of taken
    pub same_zones : w.zones ≡ zones_of r op taken
    pub seen_le : seen ≤ steps + left_over
    pub stops : (w.n ≤ length w.hosts) ⊎ (seen ≡ steps + left_over)

  consider-passes :
      (steps : ℕ) (taken : Places) (info : InstanceInfo) (w : Walk)
      → Gathers steps taken
      → Holds taken w
      → passed_over r op info w ≡ in_way r op steps info taken
  consider-passes steps taken info w g h =
      rw (h.same_hosts, h.same_zones) (sym (in_way_past r op steps info taken (past steps taken g)))

  added-Holds :
      (steps : ℕ) (taken : Places) (info : InstanceInfo) (w : Walk)
      → Holds taken w
      → Holds (taken ++ (steps, info) ∷ []) (added r op info w)
  added-Holds steps taken info w h = record {
    same_hosts =
        ap (λ hs. hs ++ info.instance_id ∷ []) h.same_hosts
        ∙ sym (hosts-append taken ((steps, info) ∷ []));
    same_zones = ground (
      arith,
      h.same_zones,
      zones-append r op taken ((steps, info) ∷ []),
      append-nil (zones_of r op taken),
    );
  }

  walk-Took :
      (left_over i steps : ℕ) (taken : Places) (w w' : Walk)
      → walk r op left_over i w ≡ some w'
      → i % length r.ring_tokens ≡ (from + steps) % length r.ring_tokens
      → Gathers steps taken
      → Holds taken w
      → Took left_over steps w'
  unfolding walk
  walk-Took zero i steps taken w w' e at g h = subst (Took zero steps) {x = w} (cc) (record {
    taken = taken;
    seen = steps;
    gathers = g;
    same_hosts = h.same_hosts;
    same_zones = h.same_zones;
    seen_le = omega arith;
    stops = inr (omega arith);
  })
  walk-Took (suc left_over) i steps taken w w' e at g h = elim (walk_step r op left_over i w w' e) [
    | inl (full, same) ↦ subst (Took (suc left_over) steps) same (record {
      taken = taken;
      seen = steps;
      gathers = g;
      same_hosts = h.same_hosts;
      same_zones = h.same_zones;
      seen_le = omega arith;
      stops = inl full;
    })
    | inr (info, more, found, rest) ↦
        let here : info_at r op (from + steps) ≡ some info =
          subst (λ p. lookup (get_or r.ring_tokens p 0) r.ring_instance_by_token ≡ some info) at
            found in
        let next = (i % length r.ring_tokens + 1) in
        let at' : next % length r.ring_tokens ≡ (from + suc steps) % length r.ring_tokens =
          ap (λ p. (p + 1) % length r.ring_tokens) at
          ∙ mod-add-mod (from + steps) (length r.ring_tokens) 1
          ∙ ap (λ p. p % length r.ring_tokens) (omega arith) in
        let tests = consider-passes steps taken info w g h in
        elim (Bool-cases (passed_over r op info w)) [
          | inl over ↦ further info (
              walk-Took left_over next (suc steps) taken w w'
                (subst (λ x. walk r op left_over next x ≡ some w')
                  (consider_lem r op info w ∙ rw over refl) rest)
                at' (passes steps taken info g here (sym tests ∙ over)) h)
          | inr fresh ↦ further info (
              walk-Took left_over next (suc steps) (taken ++ (steps, info) ∷ []) (added r op info w)
                w'
                (subst (λ x. walk r op left_over next x ≡ some w')
                  (consider_lem r op info w ∙ rw fresh refl) rest)
                at' (takes steps taken info g here (sym tests ∙ fresh))
                (added-Holds steps taken info w h))
        ]
  ]
    where
      further :
          (info : InstanceInfo) → Took left_over (suc steps) w' → Took (suc left_over) steps w'
      further info t = record {
        taken = t.taken;
        seen = t.seen;
        gathers = t.gathers;
        same_hosts = t.same_hosts;
        same_zones = t.same_zones;
        seen_le = omega (arith, t.seen_le);
        stops = elim t.stops [ inl full ↦ inl full | inr all ↦ inr (omega (arith, all)) ];
      }

  -- A walk of as many iterations as the ring has tokens.
  pub walk_takes :
      (w : Walk)
      → walk r op (length r.ring_tokens) from (start r op) ≡ some w
      → Took (length r.ring_tokens) 0 w
  walk_takes w e =
      walk-Took (length r.ring_tokens) from 0 [] (start r op) w e
        (ap (λ p. p % length r.ring_tokens) (omega arith))
        (record { in_order = tt; placed = tt; chosen = λ place info lt at. absurd (omega arith) })
        (record { same_hosts = refl; same_zones = refl })
