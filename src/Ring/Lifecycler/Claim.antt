-- ===== src/Ring/Lifecycler/Claim.antt =====
-- ring/lifecycler.go and ring/model.go: what ClaimTokensFor moves from one entry of the ring to
-- another.
use dskit.Base.{
  ==_iff, List, Option-cases, String, [], arith, false, if◌then◌else◌, inl, inr, nat_eq, refl, some,
  string_eq, ℕ, ◌==◌, ◌≡◌,
}
use dskit.Base.Sort.{sort}
use dskit.Base.Maps.{Map, insert, lookup, lookup-insert}
use dskit.Ring.Types.{Desc, InstanceDesc, instance_at}
use dskit.Kv.{store}
use dskit.Ring.Desc.{claim_tokens, take_tokens}
use dskit.Ring.Lifecycler.{CallEnv, LifecyclerConfig, unix}
use dskit.Ring.Lifecycler.Callbacks.{claim_tokens_call}

-- the tokens of an instance, if it is in the ring
abbrev pub tokens_at : String → Desc → List ℕ
tokens_at id d = (instance_at id d.ingesters).tokens

take_tokens_lem :
    (m : Map String InstanceDesc) (from : String)
    → let (claimed, m') = take_tokens m from (lookup from m) in
      (claimed ≡ (instance_at from m).tokens)
      × ((instance_at from m').tokens ≡ [])
      × ((id : String) → (from == id) ≡ false → lookup id m' ≡ lookup id m)
unfolding take_tokens
take_tokens_lem m from = elim (Option-cases (lookup from m)) [
  | inl missing ↦ rw missing (ground arith, ground arith, λ id other. refl)
  | inr (i, found) ↦
      let taken : InstanceDesc = record i { tokens = [] } in
      rw found (
        ground arith,
        ground (arith, lookup-insert from from taken m, ==_iff from from),
        λ id other. ground (arith, lookup-insert from id taken m),
      )
]

-- A call of the callback of `claim_tokens_for` at a ring stores one in which the lifecycler's entry has
-- the tokens of the other instance, sorted, and the time of the call; the other entry has none, and the
-- rest of the ring is as it was. The call keeps the same tokens for the lifecycler.
pub claim_tokens_call_lem :
    (cfg : LifecyclerConfig) (from : String) (env : CallEnv) (d : Desc) (old : List ℕ)
    → (from == cfg.id) ≡ false
    → (d' : Desc) × (claim_tokens_call cfg from env (some d) old
        ≡ some (sort (tokens_at from d), store d'))
      × (tokens_at cfg.id d' ≡ sort (tokens_at from d))
      × ((instance_at cfg.id d'.ingesters).timestamp ≡ unix env)
      × (tokens_at from d' ≡ [])
      × ((id : String)
          → (from == id) ≡ false
          → (cfg.id == id) ≡ false
          → lookup id d'.ingesters ≡ lookup id d.ingesters)
unfolding claim_tokens_call claim_tokens
claim_tokens_call_lem cfg from env d old other =
    let (claimed, m) = take_tokens d.ingesters from (lookup from d.ingesters) in
    let (claims, empties, rest) = take_tokens_lem d.ingesters from in
    let own1 : InstanceDesc = record (instance_at cfg.id m) { tokens = claimed } in
    let m1 = insert cfg.id own1 m in
    let own2 : InstanceDesc = record (instance_at cfg.id m1) {
      timestamp = unix env;
      tokens = sort claimed;
    } in
    let at_own : (id : String)
        → lookup id (insert cfg.id own2 m1) ≡ (if cfg.id == id then some own2 else lookup id m) =
      λ id. ground (arith, lookup-insert cfg.id id own2 m1, lookup-insert cfg.id id own1 m) in
    let apart : (cfg.id == from) ≡ false = ground (arith, ==_iff cfg.id from, ==_iff from cfg.id) in
    (
      record { ingesters = insert cfg.id own2 m1 },
      rw claims refl,
      ground (arith, at_own cfg.id, ==_iff cfg.id cfg.id, claims),
      ground (arith, at_own cfg.id, ==_iff cfg.id cfg.id),
      ground (arith, at_own from),
      λ id not_from not_own. rw (at_own id, not_own) (rest id not_from),
    )
