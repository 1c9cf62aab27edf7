-- ===== src/Ring/Lifecycler/Ownership.antt =====
-- ring/lifecycler.go: which tokens verifyTokens and autoJoin leave to the lifecycler and to its entry
-- in the ring.
use dskit.Base.{
  ==_iff, Bool, Bool-cases, List, Option, Option-cases, ap, arith, contains, contains-append, false,
  inl, inr, length, length-append, nat_eq, refl, some, string_eq, subst, sym, true, ℕ, ◌++◌, ◌+◌,
  ◌-◌, ◌∙◌, ◌≡◌, ◌⊎◌,
}
use dskit.Base.Int.{int_eq}
use dskit.Base.Sort.{IsSorted, contains-sort, sort, sort-IsSorted}
use dskit.Base.Maps.{lookup, lookup-insert}
use dskit.Ring.Types.{Desc, InstanceDesc, InstanceState}
use dskit.Kv.{CasOut, keep_value, store}
use dskit.Ring.Desc.{add_ingester}
use dskit.Ring.Update.{tokens_for}
use dskit.Ring.Tokens.{generate_tokens, tokens_equals}
use dskit.Ring.Tokens.Generated.{generate_tokens-AreFresh, length-sort}
use dskit.Ring.Tokens.Equal.{times, times-sort, tokens_equals_iff}
use dskit.Ring.Lifecycler.{
  CallEnv, Lifecycler, LifecyclerConfig, add_self, ring_of, sorted_ring, unix,
}
use dskit.Ring.Lifecycler.Callbacks.{
  auto_join_call, compare_tokens, verify_tokens_call, with_new_tokens,
}

-- The tokens of an entry that was short of some: those that it had, and new ones that are not taken.
pub record AreFilled (num : ℕ) (mine taken tokens : List ℕ) : Type 0 where
  pub sorted : IsSorted tokens
  pub enough : length tokens ≡ length mine + (num - length mine)
  pub kept : (t : ℕ) → contains mine t ≡ true → contains tokens t ≡ true
  pub fresh :
      (t : ℕ) → contains tokens t ≡ true → (contains mine t ≡ true) ⊎ (contains taken t ≡ false)

with_new_tokens-AreFilled :
    (num : ℕ) (mine taken drawn tokens : List ℕ)
    → with_new_tokens num mine taken drawn ≡ some tokens
    → AreFilled num mine taken tokens
unfolding with_new_tokens
with_new_tokens-AreFilled num mine taken drawn tokens h =
    elim (Option-cases (generate_tokens (num - length mine) taken drawn)) [
      | inl drawing ↦ absurd (ground arith)
      | inr (more, e) ↦
          let same : sort (mine ++ more) ≡ tokens = ground arith in
          let (len, order, distinct, new_ones) =
            generate_tokens-AreFresh (num - length mine) taken drawn more e in
          subst (AreFilled num mine taken) same (record {
            sorted = sort-IsSorted (mine ++ more);
            enough = length-sort (mine ++ more) ∙ length-append mine more ∙ omega arith;
            kept = λ t there.
                contains-sort t (mine ++ more) ∙ contains-append mine more t ∙ ground arith;
            fresh = λ t there. elim (Bool-cases (contains mine t)) [
              | inl old ↦ inl old
              | inr other ↦ inr (
                  new_ones t
                    (ground (arith, contains-sort t (mine ++ more), contains-append mine more t)))
            ];
          })
    ]

compare_tokens_equals :
    (from_ring : List ℕ) (l : Lifecycler)
    → (compare_tokens from_ring l).1 ≡ (tokens_equals l.tokens from_ring).0
unfolding compare_tokens tokens_equals
compare_tokens_equals from_ring l = ground arith

add_self-lookup :
    (cfg : LifecyclerConfig) (env : CallEnv) (d : Desc) (l : Lifecycler)
    → (i : InstanceDesc) × (lookup cfg.id (add_self cfg env d l).ingesters ≡ some i)
      × (i.tokens ≡ l.tokens)
      × (i.state ≡ l.state)
unfolding add_ingester
add_self-lookup cfg env d l =
    let i =
      (add_ingester (unix env) d cfg.id cfg.addr cfg.zone l.tokens l.state l.registered_at).1 in
    (i, ground (arith, lookup-insert cfg.id cfg.id i d.ingesters, ==_iff cfg.id cfg.id), refl, refl)

-- What a call of the callback of verifyTokens may come to.
pub record StillOwned (l' : Lifecycler) (mine : List ℕ) (result' : Bool) (out : CasOut Desc)
    : Type 0 where
  pub no_write : out ≡ keep_value
  pub verified : result' ≡ true
  pub same_tokens : (t : ℕ) → times t l'.tokens ≡ times t mine

pub record Replaced (cfg : LifecyclerConfig) (l' : Lifecycler) (mine taken : List ℕ)
    (result result' : Bool) (out : CasOut Desc) : Type 0 where
  pub result_stays : result' ≡ result
  pub filled : AreFilled cfg.num_tokens mine taken l'.tokens
  pub written :
      (d' : Desc) × (i : InstanceDesc) × (out ≡ store d')
      × (lookup cfg.id d'.ingesters ≡ some i)
      × (i.tokens ≡ l'.tokens)
      × (i.state ≡ l'.state)

-- A call of the callback of `verify_tokens` that returns either finds that the lifecycler's tokens
-- are those of its entry and writes nothing, or gives the entry and the lifecycler the same tokens:
-- sorted, up to NumTokens, the entry's old ones among them and no new one that the ring had.
pub verify_tokens_call_lem :
    (cfg : LifecyclerConfig) (env : CallEnv) (seen : Option Desc) (l l' : Lifecycler)
    (result result' : Bool) (out : CasOut Desc)
    → verify_tokens_call cfg env seen (l, result) ≡ some ((l', result'), out)
    → let mine = (tokens_for (ring_of seen) cfg.id).0 in
      let taken = (tokens_for (ring_of seen) cfg.id).1 in
      StillOwned l' mine result' out ⊎ Replaced cfg l' mine taken result result' out
unfolding verify_tokens_call
verify_tokens_call_lem cfg env seen l l' result result' out h =
    let (mine, taken) = tokens_for (ring_of seen) cfg.id in
    elim (Bool-cases (compare_tokens mine l).1) [
      | inl owned ↦
          let same : (t : ℕ) → times t l.tokens ≡ times t mine =
            (tokens_equals_iff l.tokens mine).0 (sym (compare_tokens_equals mine l) ∙ owned) in
          let sorted : l'.tokens ≡ sort l.tokens = unfold compare_tokens in ground arith in
          inl (record {
            no_write = ground arith;
            verified = ground arith;
            same_tokens = λ t. rw sorted (times-sort t l.tokens ∙ same t);
          })
      | inr lost ↦ elim (Option-cases (with_new_tokens cfg.num_tokens mine taken env.drawn)) [
        | inl drawing ↦ absurd (ground arith)
        | inr (tokens, filled) ↦
            let l2 : Lifecycler = record ((compare_tokens mine l).0) { tokens = tokens } in
            let l_is : l2 ≡ l' = ground arith in
            let d' = add_self cfg env (sorted_ring (ring_of seen)) l2 in
            let (i, found, its_tokens, its_state) =
              add_self-lookup cfg env (sorted_ring (ring_of seen)) l2 in
            let all : AreFilled cfg.num_tokens mine taken tokens =
              with_new_tokens-AreFilled cfg.num_tokens mine taken env.drawn tokens filled in
            inr (
              subst (λ m. Replaced cfg m mine taken result result' out) l_is
                (record {
                  result_stays = ground arith;
                  filled = all;
                  written = (d', i, ground arith, found, its_tokens, its_state);
                }))
      ]
    ]

-- A call of the callback of `auto_join` that returns gives the lifecycler the target state, and stores
-- its entry with that state and with its tokens: sorted, up to NumTokens, those that the ring had for
-- it among them and no new one that the ring had.
pub auto_join_call_lem :
    (cfg : LifecyclerConfig) (target : InstanceState) (env : CallEnv) (seen : Option Desc)
    (l l' : Lifecycler) (old d' : Desc) (out : CasOut Desc)
    → auto_join_call cfg target env seen (l, old) ≡ some ((l', d'), out)
    → AreFilled cfg.num_tokens
        (tokens_for (ring_of seen) cfg.id).0
        (tokens_for (ring_of seen) cfg.id).1
        l'.tokens
      × (l'.state ≡ target)
      × (out ≡ store d')
      × (i : InstanceDesc) × (lookup cfg.id d'.ingesters ≡ some i)
      × (i.tokens ≡ l'.tokens)
      × (i.state ≡ target)
unfolding auto_join_call
auto_join_call_lem cfg target env seen l l' old d' out h =
    let (mine, taken) = tokens_for (ring_of seen) cfg.id in
    elim (Option-cases (with_new_tokens cfg.num_tokens mine taken env.drawn)) [
      | inl drawing ↦ absurd (ground arith)
      | inr (tokens, filled) ↦
          let l2 : Lifecycler = record l { state = target; tokens = tokens } in
          let ring = sorted_ring (ring_of seen) in
          let all : AreFilled cfg.num_tokens mine taken tokens =
            with_new_tokens-AreFilled cfg.num_tokens mine taken env.drawn tokens filled in
          let (i, found, its_tokens, its_state) = add_self-lookup cfg env ring l2 in
          let l_is : l2 ≡ l' = ground arith in
          let d_is : add_self cfg env ring l2 ≡ d' = ground arith in
          let tokens_is : tokens ≡ l'.tokens = ap (λ (m : Lifecycler). m.tokens) l_is in
          (
            subst (AreFilled cfg.num_tokens mine taken) tokens_is all,
            sym (ap (λ (m : Lifecycler). m.state) l_is),
            ground arith,
            i,
            subst (λ (d : Desc). lookup cfg.id d.ingesters ≡ some i) d_is found,
            its_tokens ∙ tokens_is,
            its_state,
          )
    ]
