-- ===== src/Kv/Calls.antt =====
-- kv/client.go: what holds of the caller's variables after a CAS if every call keeps it.
use dskit.Base.{List, Option, Option-cases, [], arith, false, inl, inr, none, some, subst, ◌∷◌, ◌≡◌}
use dskit.Kv.{CasEnd, CasOut, CasRun, attempt_all, kv_cas, end_cas, last_attempt}

module _ {E S V : Type 0} (f : E → Option V → S → Option (S × CasOut V)) (P : S → Type 0)
    (keeps : (e : E) (seen : Option V) (s s' : S) (out : CasOut V)
      → P s
      → f e seen s ≡ some (s', out)
      → P s') where
  pub attempt_all-keeps :
      (attempts : List (E × Option V)) (s s' : S) → P s → attempt_all f attempts s ≡ some s' → P s'
  unfolding attempt_all
  attempt_all-keeps [] s s' p h = let e : s ≡ s' = cc in subst P e p
  attempt_all-keeps ((e, seen) ∷ attempts) s s' p h = elim (Option-cases (f e seen s)) [
    | inl out ↦ ground arith
    | inr ((s1, o), ran) ↦
        attempt_all-keeps attempts s1 s' (keeps e seen s s1 o p ran) (ground arith)
  ]

  end_cas_caller :
      (current : Option V) (s : S) (out : CasOut V) → (end_cas current s out).caller ≡ s
  unfolding end_cas
  end_cas_caller current s out = ground arith

  last_attempt-keeps :
      (last : Option E) (current : Option V) (s : S) (r : CasEnd S V)
      → P s
      → last_attempt f last current s ≡ some r
      → P r.caller
  unfolding last_attempt
  last_attempt-keeps none current s r p h = let e : s ≡ r.caller = ground arith in subst P e p
  last_attempt-keeps (some e) current s r p h = elim (Option-cases (f e current s)) [
    | inl out ↦ ground arith
    | inr ((s1, o), ran) ↦
        let same : s1 ≡ r.caller = ground (arith, end_cas_caller current s1 o) in
        subst P same (keeps e current s s1 o p ran)
  ]

  -- What every call of the callback keeps holds after the CAS, however it ended.
  pub kv_cas-keeps :
      (run : CasRun E V) (current : Option V) (s : S) (r : CasEnd S V)
      → P s
      → kv_cas f run current s ≡ some r
      → P r.caller
  unfolding kv_cas
  kv_cas-keeps run current s r p h = elim (Option-cases (attempt_all f run.attempts s)) [
    | inl out ↦ ground arith
    | inr (s1, ran) ↦
        last_attempt-keeps run.last_call current s1 r (attempt_all-keeps run.attempts s s1 p ran)
          (ground arith)
  ]

module _ {E S V : Type 0} (f : E → Option V → S → Option (S × CasOut V)) where
  -- The calls after one that returned.
  pub attempt_all-cons :
      (e : E) (seen : Option V) (attempts : List (E × Option V)) (s s1 : S) (out : CasOut V)
      → f e seen s ≡ some (s1, out)
      → attempt_all f ((e, seen) ∷ attempts) s ≡ attempt_all f attempts s1
  unfolding attempt_all
  attempt_all-cons e seen attempts s s1 out ran = ground arith

  -- A CAS whose last call is made at the current value.
  pub kv_cas_lem :
      (attempts : List (E × Option V)) (e : E) (current : Option V) (s s1 s2 : S) (out : CasOut V)
      → attempt_all f attempts s ≡ some s1
      → f e current s1 ≡ some (s2, out)
      → kv_cas f (record { attempts = attempts; last_call = some e }) current s
        ≡ some (end_cas current s2 out)
  unfolding kv_cas last_attempt
  kv_cas_lem attempts e current s s1 s2 out ran last = ground arith

  -- A CAS that an error ended before a last call leaves the key alone.
  pub kv_cas_failed :
      (attempts : List (E × Option V)) (current : Option V) (s : S) (r : CasEnd S V)
      → kv_cas f (record { attempts = attempts; last_call = none }) current s ≡ some r
      → (r.value ≡ current) × (r.no_error ≡ false)
  unfolding kv_cas last_attempt
  kv_cas_failed attempts current s r h = elim (Option-cases (attempt_all f attempts s)) [
    | inl out ↦ (ground arith, ground arith)
    | inr (s1, ran) ↦ (ground arith, ground arith)
  ]

  -- The first call that came to nothing, taken off a CAS.
  pub kv_cas-cons :
      (e : E) (seen current : Option V) (attempts : List (E × Option V)) (last : Option E)
      (s s1 : S) (out : CasOut V)
      → f e seen s ≡ some (s1, out)
      → kv_cas f (record { attempts = (e, seen) ∷ attempts; last_call = last }) current s
        ≡ kv_cas f (record { attempts = attempts; last_call = last }) current s1
  unfolding kv_cas
  kv_cas-cons e seen current attempts last s s1 out ran =
      ground (arith, attempt_all-cons e seen attempts s s1 out ran)
