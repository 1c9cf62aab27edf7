-- ===== src/Ring/Lifecycler/Init.antt =====
-- ring/lifecycler.go: what initRing leaves to the lifecycler and in the ring.
use dskit.Base.{
  ==_iff, Bool-cases, List, Option, Option-cases, String, [], ap, arith, false, if◌then◌else◌, inl,
  inr, leb, length, nat_eq, not, refl, some, string_eq, subst, sym, ℕ, ◌&&◌, ◌<◌, ◌==◌, ◌∙◌, ◌∷◌,
  ◌≡◌, ◌≢◌, ◌⊎◌,
}
use dskit.Base.Int.{int_eq, pos, ℤ}
use dskit.Base.Sort.{ensure_sorted}
use dskit.Base.Maps.{Map, insert, lookup, lookup-insert}
use dskit.Ring.Types.{
  Desc, InstanceDesc, active, instance_at, joining, leaving, state_eq, state_eq_iff,
}
use mathlib.Core.Option
use dskit.Kv.{CasOut, keep_value, store}
use dskit.Ring.Desc.{add_ingester, get_registered_at, zero_time}
use dskit.Ring.Update.{sort_in_place, tokens_for}
use dskit.Ring.Lifecycler.{
  CallEnv, Called, Lifecycler, LifecyclerConfig, add_self, init_found, init_missing, init_ring_call,
  instance_equal, ring_of, sorted_ring, state_found, unix,
}

lookup-sort_in_place :
    (id : String) (m : Map String InstanceDesc)
    → lookup id (sort_in_place m)
      ≡ Option.map
          (λ (i : InstanceDesc). record i { tokens = ensure_sorted i.tokens })
          (lookup id m)
unfolding sort_in_place lookup
lookup-sort_in_place id [] = refl
lookup-sort_in_place id ((j, i) ∷ m) = ground (arith, lookup-sort_in_place id m)

-- The lifecycler and its entry of the ring agree, but for a state LEAVING that the next heartbeat
-- will overwrite.
pub record Agrees (cfg : LifecyclerConfig) (l : Lifecycler) (d : Desc) : Type 0 where
  pub entry : InstanceDesc
  pub in_ring : lookup cfg.id d.ingesters ≡ some entry
  pub same_tokens : entry.tokens ≡ l.tokens
  pub same_time : get_registered_at entry ≡ l.registered_at
  pub same_state :
      (entry.state ≡ l.state)
      ⊎ ((entry.state ≡ leaving) × (l.state ≡ active) × (0 < cfg.heartbeat_period))

registered_now :
    (n : ℕ) (i : InstanceDesc)
    → 0 < n
    → i.registered_timestamp ≡ (if pos n == zero_time then pos 0 else pos n)
    → get_registered_at i ≡ pos n
unfolding get_registered_at
registered_now n i h e = ground (arith, ==_iff i.registered_timestamp (pos 0))

added-Agrees :
    (cfg : LifecyclerConfig) (env : CallEnv) (d : Desc) (l : Lifecycler)
    → 0 < unix env
    → l.registered_at ≡ pos (unix env)
    → Agrees cfg l (add_self cfg env d l)
unfolding add_ingester
added-Agrees cfg env d l h e =
    let i =
      (add_ingester (unix env) d cfg.id cfg.addr cfg.zone l.tokens l.state l.registered_at).1 in
    record {
      entry = i;
      in_ring = ground (arith, lookup-insert cfg.id cfg.id i d.ingesters, ==_iff cfg.id cfg.id);
      same_tokens = refl;
      same_time =
          registered_now (unix env) i h (ap (λ (r : ℤ). if r == zero_time then pos 0 else r) e)
          ∙ sym e;
      same_state = inl refl;
    }

missing-Agrees :
    (cfg : LifecyclerConfig) (tokens_from_file : List ℕ) (env : CallEnv) (d : Desc) (l : Lifecycler)
    → 0 < unix env
    → l.tokens ≡ []
    → let r = init_missing cfg tokens_from_file env d l in Agrees cfg r.0.0 r.0.1
unfolding init_missing
missing-Agrees cfg [] env d l h empty =
    let l1 : Lifecycler = record l { registered_at = pos (unix env) } in
    let same : add_self cfg env d l1 ≡ (init_missing cfg [] env d l).0.1 = rw empty refl in
    subst (Agrees cfg l1) same (added-Agrees cfg env d l1 h refl)
missing-Agrees cfg (t ∷ ts) env d l h empty =
    let l1 : Lifecycler = record l {
      registered_at = pos (unix env);
      state = if leb cfg.num_tokens (length (t ∷ ts)) then active else l.state;
      tokens = t ∷ ts;
    } in
    added-Agrees cfg env d l1 h refl

-- an entry as `initRing` reads it, with its tokens sorted
abbrev sorted_entry : InstanceDesc → InstanceDesc
sorted_entry i = record i { tokens = ensure_sorted i.tokens }

entry_sorted :
    (id : String) (d : Desc) (i : InstanceDesc)
    → lookup id d.ingesters ≡ some i
    → lookup id (sort_in_place d.ingesters) ≡ some (sorted_entry i)
entry_sorted id d i found = lookup-sort_in_place id d.ingesters ∙ rw found refl

-- the state that is taken over, when nothing is written
same_or_leaving :
    (cfg : LifecyclerConfig) (i : InstanceDesc)
    → (cfg.heartbeat_period == 0
        && not (
            instance_equal
              (record (sorted_entry i) { state = state_found cfg i })
              (sorted_entry i)))
      ≡ false
    → (i.state ≡ state_found cfg i)
      ⊎ ((i.state ≡ leaving) × (state_found cfg i ≡ active) × (0 < cfg.heartbeat_period))
unfolding state_found instance_equal
same_or_leaving cfg i h =
    elim (Bool-cases (state_eq i.state leaving && length i.tokens == cfg.num_tokens)) [
      | inr other ↦ inl (rw other refl)
      | inl full ↦ elim (Bool-cases (cfg.heartbeat_period == 0)) [
        | inr beats ↦ inr (ground arith, ground arith, ground arith)
        | inl silent ↦ inl (ground arith)
      ]
    ]

-- the lifecycler with what its entry says
abbrev adopted : LifecyclerConfig → InstanceDesc → Lifecycler → Lifecycler
adopted cfg i l = record l {
  registered_at = get_registered_at i;
  state = state_found cfg i;
  tokens = ensure_sorted i.tokens;
}

quiet-Agrees :
    (cfg : LifecyclerConfig) (d : Desc) (i : InstanceDesc) (l : Lifecycler)
    → lookup cfg.id d.ingesters ≡ some i
    → (cfg.heartbeat_period == 0
        && not (
            instance_equal
              (record (sorted_entry i) { state = state_found cfg i })
              (sorted_entry i)))
      ≡ false
    → Agrees cfg (adopted cfg i l) (sorted_ring d)
quiet-Agrees cfg d i l found quiet = record {
  entry = sorted_entry i;
  in_ring = entry_sorted cfg.id d i found;
  same_tokens = refl;
  same_time = unfold get_registered_at in refl;
  same_state = same_or_leaving cfg i quiet;
}

-- the ring that `initRing` writes for an entry that it changed
abbrev rewritten : LifecyclerConfig → CallEnv → Desc → InstanceDesc → Desc
rewritten cfg env d i = record {
  ingesters =
      insert cfg.id (record (sorted_entry i) { state = state_found cfg i; timestamp = unix env })
        (sort_in_place d.ingesters);
}

written-Agrees :
    (cfg : LifecyclerConfig) (env : CallEnv) (d : Desc) (i : InstanceDesc) (l : Lifecycler)
    → Agrees cfg (adopted cfg i l) (rewritten cfg env d i)
written-Agrees cfg env d i l =
    let i' : InstanceDesc = record (sorted_entry i) {
      state = state_found cfg i;
      timestamp = unix env;
    } in
    record {
      entry = i';
      in_ring =
          ground (
            arith,
            lookup-insert cfg.id cfg.id i' (sort_in_place d.ingesters),
            ==_iff cfg.id cfg.id,
          );
      same_tokens = refl;
      same_time = unfold get_registered_at in refl;
      same_state = inl refl;
    }

-- The ring that the callback leaves to the lifecycler is the one that the key then holds: it is
-- stored or, where nothing is written, it is the ring that was read, with the tokens put in order.
abbrev pub IsHeld : (seen : Option Desc) (d' : Desc) (out : CasOut Desc) → Type 0
IsHeld seen d' out = (out ≡ store d') ⊎ ((out ≡ keep_value) × (d' ≡ sorted_ring (ring_of seen)))

missing-IsHeld :
    (cfg : LifecyclerConfig) (tokens_from_file : List ℕ) (env : CallEnv) (d : Desc) (l : Lifecycler)
    → let r = init_missing cfg tokens_from_file env d l in r.1 ≡ store r.0.1
unfolding init_missing
missing-IsHeld cfg [] env d l = refl
missing-IsHeld cfg (t ∷ ts) env d l = refl

found-Agrees :
    (cfg : LifecyclerConfig) (env : CallEnv) (seen : Option Desc) (i : InstanceDesc)
    (l l' : Lifecycler) (d' : Desc) (out : CasOut Desc)
    → lookup cfg.id (ring_of seen).ingesters ≡ some i
    → i.state ≢ joining
    → init_found cfg env (ring_of seen) i l ≡ ((l', d'), out)
    → Agrees cfg l' d' × IsHeld seen d' out
unfolding init_found tokens_for
found-Agrees cfg env seen i l l' d' out found not_joining h =
    let d = ring_of seen in
    let at_id : instance_at cfg.id (sort_in_place d.ingesters) ≡ sorted_entry i =
      rw (entry_sorted cfg.id d i found, instance_at) refl in
    let other : state_eq i.state joining ≡ false = ground (arith, state_eq_iff i.state joining) in
    elim (Bool-cases (
      cfg.heartbeat_period == 0
      && not (
          instance_equal (record (sorted_entry i) { state = state_found cfg i })
            (sorted_entry i)))) [
              | inr quiet ↦
                  let l_is : adopted cfg i l ≡ l' = ground arith in
                  let d_is : sorted_ring d ≡ d' = ground arith in
                  (
                    subst (λ m. Agrees cfg m d') l_is
                        (subst (Agrees cfg (adopted cfg i l)) d_is
                          (quiet-Agrees cfg d i l found quiet)),
                    inr (ground arith, sym d_is),
                  )
              | inl writes ↦
                  let l_is : adopted cfg i l ≡ l' = ground arith in
                  let d_is : rewritten cfg env d i ≡ d' = ground arith in
                  (
                    subst (λ m. Agrees cfg m d') l_is
                        (subst (Agrees cfg (adopted cfg i l)) d_is (written-Agrees cfg env d i l)),
                    inl (ground arith),
                  )
            ]

-- A call of the callback of `init_ring` by a lifecycler without tokens, for an instance that the ring
-- does not hold as JOINING, leaves a ring whose entry for the instance has the lifecycler's tokens,
-- registration time and state; a state LEAVING that the lifecycler takes for ACTIVE is left there only
-- if heartbeats are on. This ring is stored, or nothing is written and it is the ring that was read,
-- but for the order of tokens.
pub init_ring_call-Agrees :
    (cfg : LifecyclerConfig) (tokens_from_file : List ℕ) (env : CallEnv) (seen : Option Desc)
    (l l' : Lifecycler) (old d' : Desc) (out : CasOut Desc)
    → 0 < unix env
    → l.tokens ≡ []
    → (instance_at cfg.id (ring_of seen).ingesters).state ≢ joining
    → init_ring_call cfg tokens_from_file env seen (l, old) ≡ some ((l', d'), out)
    → Agrees cfg l' d' × IsHeld seen d' out
unfolding init_ring_call
init_ring_call-Agrees cfg tokens_from_file env seen l l' old d' out h empty not_joining r =
    elim (Option-cases (lookup cfg.id (ring_of seen).ingesters)) [
      | inl missing ↦
          let m = init_missing cfg tokens_from_file env (ring_of seen) l in
          let same : m ≡ ((l', d'), out) = ground arith in
          subst (λ (c : Called). Agrees cfg c.0.0 c.0.1 × IsHeld seen c.0.1 c.1) same
            (
              missing-Agrees cfg tokens_from_file env (ring_of seen) l h empty,
              inl (missing-IsHeld cfg tokens_from_file env (ring_of seen) l),
            )
      | inr (i, found) ↦
          found-Agrees cfg env seen i l l' d' out found
            (λ joins. not_joining (rw (found, instance_at) joins)) (ground arith)
    ]
