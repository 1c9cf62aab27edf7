-- ===== src/Memberlist/Broadcast.antt =====
-- kv/memberlist/broadcast.go: which queued broadcasts a new one replaces.
use dskit.Base.{
  ==_iff, ==_refl, Bool, Bool-cases, List, String, [], arith, contains, false, if◌then◌else◌, inl,
  inr, leb, nat_eq, not, refl, string_eq, subst, sym, true, ℕ, ◌==◌, ◌↔◌, ◌∷◌, ◌≡◌, ◌≤◌,
}

-- `ringBroadcast`
pub record RingBroadcast : Type 0 where
  pub key : String
  pub content : List String
  pub version : ℕ
  pub msg : List ℕ

-- the two loops of `Invalidates`
unfoldable pub covers : List String → List String → Bool
covers new_content [] = true
covers new_content (old_name ∷ rest) =
    let others = covers new_content rest in if contains new_content old_name then others else false

-- `Invalidates`
unfoldable pub invalidates : RingBroadcast → RingBroadcast → Bool
unfolding covers
invalidates r old =
    if not (r.key == old.key)
    then false
    else if not (covers r.content old.content)
    then false
    else leb old.version r.version

covers_iff :
    (new_content names : List String)
    → (covers new_content names ≡ true)
      ↔ ((name : String) → contains names name ≡ true → contains new_content name ≡ true)
unfolding covers
covers_iff new_content [] = (λ e name h. ground arith, λ h. refl)
covers_iff new_content (x ∷ xs) =
    let rest = covers_iff new_content xs in
    (
      λ e name h.
          let head : contains new_content x ≡ true = ground arith in
          let tail : covers new_content xs ≡ true = ground arith in
          elim (Bool-cases (name == x)) [
            | inl same ↦
                subst (λ n. contains new_content n ≡ true) (sym ((==_iff name x).0 same)) head
            | inr other ↦ rest.0 tail name (ground arith)
          ],
      λ h.
          let tail = rest.1 (λ name there. h name (ground arith)) in
          let head = h x (ground (arith, ==_refl x)) in ground arith,
    )

-- A broadcast replaces a queued one exactly if both are about the same key, every name of the old
-- content is in the new one, and the new version is not lower.
pub invalidates_iff :
    (r old : RingBroadcast)
    → (invalidates r old ≡ true) ↔ (
        (r.key ≡ old.key)
        × ((name : String) → contains old.content name ≡ true → contains r.content name ≡ true)
        × (old.version ≤ r.version))
unfolding invalidates
invalidates_iff r old =
    let cover = covers_iff r.content old.content in
    (
      λ e. (ground (arith, ==_iff r.key old.key), cover.0 (ground arith), ground arith),
      λ (same, within, newer). let covered = cover.1 within in ground (arith, ==_iff r.key old.key),
    )
