-- ===== src/Ring/Merge/Normalize.antt =====
-- What normalizeIngestersMap does to the token lists.
use dskit.Base.{
  All, Bool-cases, List, Option-cases, String, [], arith, contains, inl, inr, nat_eq, none, refl,
  some, string_eq, ℕ, ◌<◌, ◌==◌, ◌∙◌, ◌∷◌, ◌≡◌, ◌≢◌, ◌⊎◌,
}
use dskit.Base.Sort.{
  IsIncreasing, IsSorted, contains-ensure_sorted, ensure_sorted, ensure_sorted-IsSorted,
}
use dskit.Base.Maps.{IsMap, Map, lookup}
use dskit.Ring.Types.{InstanceDesc, left, state_eq, state_eq_iff}
use dskit.Ring.Merge.{dedupe_from, normalize_tokens, normalize_instance, normalize_ingesters_map}

dedupe_from-IsIncreasing :
    (prev : ℕ) (xs : List ℕ) → IsSorted (prev ∷ xs) → IsIncreasing (prev ∷ dedupe_from prev xs)
unfolding dedupe_from
dedupe_from-IsIncreasing prev [] h = (tt, tt)
dedupe_from-IsIncreasing prev (x ∷ xs) h = elim (Bool-cases (x == prev)) [
  | inl same ↦ rw same (dedupe_from-IsIncreasing prev xs (h.0.1, h.1.1))
  | inr new ↦
      let tail : IsIncreasing (x ∷ dedupe_from x xs) = dedupe_from-IsIncreasing x xs h.1 in
      let lt : prev < x = ground arith in
      rw new ((lt, All-lt_trans prev x (dedupe_from x xs) lt tail.0), tail)
]
  where
    All-lt_trans : (n m : ℕ) (ys : List ℕ) → n < m → All (λ y. m < y) ys → All (λ y. n < y) ys
    All-lt_trans n m [] lt a = tt
    All-lt_trans n m (y ∷ ys) lt a = (omega arith, All-lt_trans n m ys lt a.1)

contains-dedupe_from :
    (t prev : ℕ) (xs : List ℕ) → contains (prev ∷ dedupe_from prev xs) t ≡ contains (prev ∷ xs) t
unfolding dedupe_from
contains-dedupe_from t prev [] = refl
contains-dedupe_from t prev (x ∷ xs) =
    ground (arith, contains-dedupe_from t prev xs, contains-dedupe_from t x xs)

pub normalize_tokens-IsIncreasing : (ts : List ℕ) → IsIncreasing (normalize_tokens ts)
unfolding normalize_tokens
normalize_tokens-IsIncreasing ts = go (ensure_sorted ts) (ensure_sorted-IsSorted ts)
  where
    go :
        (xs : List ℕ)
        → IsSorted xs
        → IsIncreasing (elim xs [ [] ↦ [] | x ∷ rest ↦ x ∷ dedupe_from x rest ])
    go [] h = tt
    go (x ∷ rest) h = dedupe_from-IsIncreasing x rest h

pub contains-normalize_tokens :
    (t : ℕ) (ts : List ℕ) → contains (normalize_tokens ts) t ≡ contains ts t
unfolding normalize_tokens
contains-normalize_tokens t ts = go (ensure_sorted ts) ∙ contains-ensure_sorted t ts
  where
    go :
        (xs : List ℕ)
        → contains (elim xs [ [] ↦ [] | x ∷ rest ↦ x ∷ dedupe_from x rest ]) t ≡ contains xs t
    go [] = refl
    go (x ∷ rest) = contains-dedupe_from t x rest

pub lookup-normalize :
    (name : String) (m : Map String InstanceDesc)
    → lookup name (normalize_ingesters_map m)
      ≡ elim (lookup name m) [ none ↦ none | some i ↦ some (normalize_instance i) ]
unfolding normalize_ingesters_map lookup
lookup-normalize name [] = refl
lookup-normalize name ((j, i) ∷ m) = ground (arith, lookup-normalize name m)

pub normalize-IsMap : (m : Map String InstanceDesc) → IsMap m → IsMap (normalize_ingesters_map m)
unfolding normalize_ingesters_map
normalize-IsMap [] h = tt
normalize-IsMap ((j, i) ∷ m) h = (lookup-normalize j m ∙ rw h.0 refl, normalize-IsMap m h.1)

-- What a normalised instance looks like beside the one it was made from.
pub record IsNormal (i n : InstanceDesc) : Type 0 where
  pub increasing : IsIncreasing n.tokens
  pub left_empty : i.state ≡ left → n.tokens ≡ []
  pub same_tokens : i.state ≢ left → (t : ℕ) → contains n.tokens t ≡ contains i.tokens t
  pub rest : n ≡ record i { tokens = n.tokens }

pub normalize_instance-IsNormal : (i : InstanceDesc) → IsNormal i (normalize_instance i)
unfolding normalize_instance
normalize_instance-IsNormal i = elim (Bool-cases (state_eq i.state left)) [
  | inl gone ↦ rw gone (record {
    increasing = tt;
    left_empty = λ _. refl;
    same_tokens = λ here. absurd (here ((state_eq_iff i.state left).0 gone));
    rest = refl;
  })
  | inr here ↦ rw here (record {
    increasing = normalize_tokens-IsIncreasing i.tokens;
    left_empty = λ gone. cc ((state_eq_iff i.state left).1 gone);
    same_tokens = λ _ t. contains-normalize_tokens t i.tokens;
    rest = refl;
  })
]

-- Normalising keeps every instance of the ring, adds none, and makes each normal: its tokens become
-- strictly increasing, are the same set as before, or none if the state is LEFT; nothing else of
-- the instance changes.
pub normalize_ingesters_map-IsNormal :
    (m : Map String InstanceDesc) (name : String)
    → ((lookup name m ≡ none) × (lookup name (normalize_ingesters_map m) ≡ none))
      ⊎ ((i n : InstanceDesc) × (lookup name m ≡ some i)
          × (lookup name (normalize_ingesters_map m) ≡ some n)
          × IsNormal i n)
normalize_ingesters_map-IsNormal m name = elim (Option-cases (lookup name m)) [
  | inl missing ↦ inl (missing, lookup-normalize name m ∙ rw missing refl)
  | inr (i, found) ↦ inr (
    i,
    normalize_instance i,
    found,
    lookup-normalize name m ∙ rw found refl,
    normalize_instance-IsNormal i,
  )
]
