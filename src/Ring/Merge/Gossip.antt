-- ===== src/Ring/Merge/Gossip.antt =====
-- Replicas that receive the same rings agree, in whatever order the rings arrive.
use dskit.Base.{
  All, List, String, [], ap, arith, foldr, max, nat_eq, refl, string_eq, sym, ℕ, ◌∙◌, ◌∷◌, ◌≡◌,
}
use dskit.Base.Maps.{IsMap}
use dskit.Ring.Types.{Desc}
use mathlib.Core.List.{Perm}
use mathlib.Core.List.Perm
use native.Mathlib.Nat.{ℕ_set}
use dskit.Ring.Merge.Result.{receive, rank_in, receive-rank, receive-IsMap}

-- A sequence of messages, each received at its own time.
abbrev pub receive_all : Desc → List (ℕ × Desc) → Desc
receive_all d [] = d
receive_all d ((now, o) ∷ os) = receive_all (receive now d o) os

-- The greatest rank that an instance has in any of the messages, or `r`.
abbrev pub top_rank : String → ℕ → List (ℕ × Desc) → ℕ
top_rank name r os = foldr (λ ((now, o) : ℕ × Desc) n. max (rank_in name o) n) r os

receive_all-rank :
    (d : Desc) (name : String) (os : List (ℕ × Desc))
    → IsMap d.ingesters
    → All (λ ((now, o) : ℕ × Desc). IsMap o.ingesters) os
    → rank_in name (receive_all d os) ≡ top_rank name (rank_in name d) os
receive_all-rank d name [] h k = refl
receive_all-rank d name ((now, o) ∷ os) h k =
    receive_all-rank (receive now d o) name os (receive-IsMap now d o h) k.1
    ∙ ap (λ r. top_rank name r os) (receive-rank now d o name h k.0)
    ∙ max_out (rank_in name d) (rank_in name o) os
  where
    max_out :
        (a b : ℕ) (l : List (ℕ × Desc)) → top_rank name (max a b) l ≡ max b (top_rank name a l)
    max_out a b [] = omega arith
    max_out a b ((t, p) ∷ l) = omega (arith, max_out a b l)

-- Two replicas with the same ring that receive the same rings, in different orders, agree on the
-- rank of every instance: on its timestamp, and on whether it is LEFT.
pub receive_all-converges :
    (d : Desc) (os ps : List (ℕ × Desc)) (name : String)
    → Perm os ps
    → IsMap d.ingesters
    → All (λ ((now, o) : ℕ × Desc). IsMap o.ingesters) os
    → All (λ ((now, o) : ℕ × Desc). IsMap o.ingesters) ps
    → rank_in name (receive_all d os) ≡ rank_in name (receive_all d ps)
receive_all-converges d os ps name same h k l =
    receive_all-rank d name os h k
    ∙ Perm.foldr-eq ℕ_set (λ ((now, o) : ℕ × Desc) (n : ℕ). max (rank_in name o) n)
        (λ (now, o) (later, p) n. omega arith) same (rank_in name d)
    ∙ sym (receive_all-rank d name ps h l)
