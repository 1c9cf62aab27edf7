-- ===== src/Ring/Get/Found.antt =====
-- What Get returns.
use dskit.Base.{
  IsDistinct, List, Option, [], ap, arith, count_if, inl, inr, keep, length, map, max, nat_eq, none,
  refl, some, string_eq, subst, suc, ℕ, ◌+◌, ◌/◌, ◌<◌, ◌∙◌, ◌∷◌, ◌≡◌, ◌≤◌, ◌⊎◌,
}
use dskit.Base.Sort.{IsSorted}
use dskit.Ring.Types.{Desc, InstanceDesc, instance_at}
use dskit.Ring.Desc.{is_healthy}
use dskit.Ring.State.{Ring, ReplicationSet, Result, ok}
use dskit.Ring.Strategy.{default_filter}
use dskit.Ring.Strategy.Quorum.{default_filter-cases}
use dskit.Ring.Search.{search_token, search_token-Covers, Covers}
use dskit.Ring.Get.{Walk, walk, start, select, get_with, get}
use dskit.Ring.Get.Steps.{extends}
use dskit.Ring.Get.Distinct.{walk-Inv}
use dskit.Ring.Get.Round.{Places, hosts_of, zones_of}
use dskit.Ring.Get.Gathered.{Gathers, walk_takes}

abbrev pub instances_of : Desc → Places → List InstanceDesc
instances_of d taken = map (λ id. instance_at id d.ingesters) (hosts_of taken)

length-hosts_of : (taken : Places) → length (hosts_of taken) ≡ length taken
length-hosts_of [] = refl
length-hosts_of ((place, info) ∷ rest) = ap suc (length-hosts_of rest)

length-instances_of : (d : Desc) (taken : Places) → length (instances_of d taken) ≡ length taken
length-instances_of d [] = refl
length-instances_of d ((place, info) ∷ rest) = ap suc (length-instances_of d rest)

-- What Get gathers round the ring for a key, and the set that it makes of it. An instance that
-- extends the set is one for which another one is taken in addition.
pub record IsFound (r : Ring) (op now_ns key : ℕ) (set : ReplicationSet) : Type 0 where
  pub from : ℕ
  pub covers : Covers r.ring_tokens key from
  pub seen : ℕ
  pub seen_le : seen ≤ length r.ring_tokens
  pub taken : Places
  pub gathers : Gathers r op from seen taken
  pub hosts_distinct : IsDistinct (hosts_of taken)
  pub zones_distinct : IsDistinct (zones_of r op taken)
  pub few :
      length taken ≤ r.replication_factor + count_if (extends r op) (instances_of r.ring_desc taken)
  pub enough :
      (length taken
        ≡ r.replication_factor + count_if (extends r op) (instances_of r.ring_desc taken))
      ⊎ (seen ≡ length r.ring_tokens)
  pub healthy :
      set.instances
      ≡ keep (λ i. is_healthy i op r.heartbeat_timeout now_ns) (instances_of r.ring_desc taken)
  pub quorum :
      length set.instances ≡ max r.replication_factor (length taken) / 2 + 1 + set.max_errors

module _ (r : Ring) (op now_ns key : ℕ) where
  abbrev strategy : List InstanceDesc → Result (List InstanceDesc × ℕ)
  strategy = λ instances.
      default_filter op r.heartbeat_timeout now_ns instances r.replication_factor
        r.zone_awareness_enabled

  abbrev walk_result : Option Walk
  walk_result = walk r op (length r.ring_tokens) (search_token r.ring_tokens key) (start r op)

  get_walk :
      (set : ReplicationSet)
      → get r op now_ns key ≡ ok set
      → (0 < length r.ring_tokens) × (select r op strategy walk_result ≡ ok set)
  unfolding get get_with
  get_walk set e = go r.ring_tokens refl
    where
      go :
          (ts : List ℕ)
          → r.ring_tokens ≡ ts
          → (0 < length r.ring_tokens) × (select r op strategy walk_result ≡ ok set)
      go [] same = ground arith
      go (t ∷ ts) same = (rw same (omega arith), ground arith)

  select_ok :
      (o : Option Walk) (set : ReplicationSet)
      → select r op strategy o ≡ ok set
      → (w : Walk) × (o ≡ some w) × (strategy w.instances ≡ ok (set.instances, set.max_errors))
  unfolding select
  select_ok none set e = cc
  select_ok (some w) set e = (w, refl, ground arith)

  -- In a ring whose tokens are sorted, the set that Get returns for a key comes from a number of
  -- tokens round the ring, from the first token above the key on, or the first of all where none is
  -- above it. The instance of a token is taken just where no instance taken earlier is the same or,
  -- in a zone-aware ring, has its zone and does not extend the set; so all that are taken are
  -- distinct, and so are the zones of those that do not extend it. They are as many as the
  -- replication factor and one more for each that extends the set, or fewer, and then every token
  -- was seen. The set holds the healthy ones of them, of which all but a quorum may fail.
  pub get-IsFound :
      (set : ReplicationSet)
      → IsSorted r.ring_tokens
      → get r op now_ns key ≡ ok set
      → IsFound r op now_ns key set
  get-IsFound set sorted e =
      let (some_tokens, selected) = get_walk set e in
      let (w, walked, filtered) = select_ok walk_result set selected in
      let from = search_token r.ring_tokens key in
      let (inv, le) = walk-Inv r op (length r.ring_tokens) from w walked in
      let t = walk_takes r op from w walked in
      let read : w.instances ≡ instances_of r.ring_desc t.taken =
        inv.read ∙ ap (λ hs. map (λ id. instance_at id r.ring_desc.ingesters) hs) t.same_hosts in
      let hosts_count : length w.hosts ≡ length t.taken =
        ap length t.same_hosts ∙ length-hosts_of t.taken in
      let size : length w.instances ≡ length t.taken =
        ap length read ∙ length-instances_of r.ring_desc t.taken in
      let bound : w.n
          ≡ r.replication_factor + count_if (extends r op) (instances_of r.ring_desc t.taken) =
        inv.bound ∙ ap (λ is. r.replication_factor + count_if (extends r op) is) read in
      elim (default_filter-cases op r.heartbeat_timeout now_ns w.instances r.replication_factor
        r.zone_awareness_enabled) [
          | inr (few, failed) ↦ absurd (cc)
          | inl (many, done) ↦ record {
            from = from;
            covers = search_token-Covers r.ring_tokens key sorted;
            seen = t.seen;
            seen_le = omega (arith, t.seen_le);
            taken = t.taken;
            gathers = t.gathers;
            hosts_distinct = subst IsDistinct t.same_hosts inv.distinct;
            zones_distinct = subst IsDistinct t.same_zones inv.zones_distinct;
            few = omega arith;
            enough = elim t.stops [ inl full ↦ inl (omega arith) | inr all ↦ inr (omega arith) ];
            healthy =
                subst
                  (λ is. set.instances ≡ keep (λ i. is_healthy i op r.heartbeat_timeout now_ns) is)
                  read (ground arith);
            quorum =
                subst
                  (λ n. length set.instances ≡ max r.replication_factor n / 2 + 1 + set.max_errors)
                  size (ground arith);
          }
        ]
