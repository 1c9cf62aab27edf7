-- ===== src/Ring/Lifecycler/Latch.antt =====
-- ring/lifecycler.go: when CheckReady starts to report that the instance is ready.
use dskit.Base.{
  Bool-cases, List, Option, Option-cases, [], ap, arith, false, inl, inr, ltb, none, refl, some,
  subst, sym, true, ℕ, ◌-◌, ◌∙◌, ◌∷◌, ◌≡◌, ◌≤◌, ◌⊎◌,
}
use dskit.Ring.Lifecycler.{Lifecycler, LifecyclerConfig}
use dskit.Ring.Lifecycler.Ready.{
  Got, ReadyCall, check_all, check_duration, check_ready, check_ring_health,
}

-- The first calls pass, up to one that comes the minimum duration after `start`.
pub data Held (cfg : LifecyclerConfig) (l : Lifecycler) (start : ℕ) : List ReadyCall → Type 0 where
  enough :
      (now_ns : ℕ) (g : Got) (calls : List ReadyCall)
      → check_ring_health cfg now_ns g l ≡ none
      → cfg.min_ready_duration ≤ now_ns - start
      → Held cfg l start ((now_ns, g) ∷ calls)
  hold :
      (now_ns : ℕ) (g : Got) (calls : List ReadyCall)
      → check_ring_health cfg now_ns g l ≡ none
      → Held cfg l start calls
      → Held cfg l start ((now_ns, g) ∷ calls)

-- From some call on they pass, up to one that comes the minimum duration after it.
pub data HeldLong (cfg : LifecyclerConfig) (l : Lifecycler) : List ReadyCall → Type 0 where
  from_here :
      (now_ns : ℕ) (g : Got) (calls : List ReadyCall)
      → Held cfg l now_ns ((now_ns, g) ∷ calls)
      → HeldLong cfg l ((now_ns, g) ∷ calls)
  later :
      (call : ReadyCall) (calls : List ReadyCall)
      → HeldLong cfg l calls
      → HeldLong cfg l (call ∷ calls)

health_of_tokens :
    (cfg : LifecyclerConfig) (now_ns : ℕ) (g : Got) (l k : Lifecycler)
    → l.tokens ≡ k.tokens
    → check_ring_health cfg now_ns g l ≡ check_ring_health cfg now_ns g k
unfolding check_ring_health
health_of_tokens cfg now_ns g l k e = rw e

-- What is to be shown, given `ready_since`.
abbrev Due : LifecyclerConfig → Lifecycler → Option ℕ → List ReadyCall → Type 0
Due cfg l none calls = HeldLong cfg l calls
Due cfg l (some start) calls = Held cfg l start calls ⊎ HeldLong cfg l calls

failed_call :
    (cfg : LifecyclerConfig) (l : Lifecycler) (since : Option ℕ) (call : ReadyCall)
    (calls : List ReadyCall)
    → HeldLong cfg l calls
    → Due cfg l since (call ∷ calls)
failed_call cfg l none call calls h = later call calls h
failed_call cfg l (some start) call calls h = inr (later call calls h)

-- the start that a passing call leaves
abbrev started : ℕ → Option ℕ → ℕ
started now_ns since = elim since [ none ↦ now_ns | some t ↦ t ]

passing_call :
    (cfg : LifecyclerConfig) (l : Lifecycler) (since : Option ℕ) (now_ns : ℕ) (g : Got)
    (calls : List ReadyCall)
    → check_ring_health cfg now_ns g l ≡ none
    → Held cfg l (started now_ns since) calls ⊎ HeldLong cfg l calls
    → Due cfg l since ((now_ns, g) ∷ calls)
passing_call cfg l none now_ns g calls p (inl h) =
    from_here now_ns g calls (hold now_ns g calls p h)
passing_call cfg l none now_ns g calls p (inr h) = later (now_ns, g) calls h
passing_call cfg l (some t) now_ns g calls p (inl h) = inl (hold now_ns g calls p h)
passing_call cfg l (some t) now_ns g calls p (inr h) = inr (later (now_ns, g) calls h)

last_call :
    (cfg : LifecyclerConfig) (l : Lifecycler) (since : Option ℕ) (now_ns : ℕ) (g : Got)
    (calls : List ReadyCall)
    → check_ring_health cfg now_ns g l ≡ none
    → cfg.min_ready_duration ≤ now_ns - started now_ns since
    → Due cfg l since ((now_ns, g) ∷ calls)
last_call cfg l none now_ns g calls p le = from_here now_ns g calls (enough now_ns g calls p le)
last_call cfg l (some t) now_ns g calls p le = inl (enough now_ns g calls p le)

ready_due :
    (cfg : LifecyclerConfig) (l k : Lifecycler) (calls : List ReadyCall)
    → k.tokens ≡ l.tokens
    → k.ready ≡ false
    → (check_all cfg calls k).ready ≡ true
    → Due cfg l k.ready_since calls
unfolding check_all
ready_due cfg l k [] t r h = absurd (ground arith)
ready_due cfg l k ((now_ns, g) ∷ calls) t r h =
    elim (Option-cases (check_ring_health cfg now_ns g k)) [
      | inr (e, failed) ↦
          let next : (check_ready cfg now_ns g k).0 ≡ record k { ready_since = none } =
            unfold check_ready in ground arith in
          failed_call cfg l k.ready_since (now_ns, g) calls
            (ready_due cfg l (record k { ready_since = none }) calls t r
              (subst (λ m. (check_all cfg calls m).ready ≡ true) next h))
      | inl passed ↦
          let p : check_ring_health cfg now_ns g l ≡ none =
            sym (health_of_tokens cfg now_ns g k l t) ∙ passed in
          let since = started now_ns k.ready_since in
          let k' : Lifecycler = record k { ready_since = some since } in
          elim (Bool-cases (ltb (now_ns - since) cfg.min_ready_duration)) [
            | inl short ↦
                let next : (check_ready cfg now_ns g k).0 ≡ k' =
                  unfold check_ready in unfold check_duration in ground arith in
                passing_call cfg l k.ready_since now_ns g calls p (
                  ready_due cfg l k' calls t r
                    (subst (λ m. (check_all cfg calls m).ready ≡ true) next h))
            | inr long ↦ last_call cfg l k.ready_since now_ns g calls p (ground arith)
          ]
    ]

-- If a fresh lifecycler is ready after some calls of `check_ready`, then among them is a stretch
-- without a failing check whose last call comes the minimum duration after its first.
pub check_all-HeldLong :
    (cfg : LifecyclerConfig) (l : Lifecycler) (calls : List ReadyCall)
    → l.ready ≡ false
    → l.ready_since ≡ none
    → (check_all cfg calls l).ready ≡ true
    → HeldLong cfg l calls
check_all-HeldLong cfg l calls unready unset h =
    subst (λ since. Due cfg l since calls) unset (ready_due cfg l l calls refl unready h)

-- Once ready, the lifecycler stays so, whatever the checks would say.
pub check_all_latches :
    (cfg : LifecyclerConfig) (l : Lifecycler) (calls : List ReadyCall)
    → l.ready ≡ true
    → check_all cfg calls l ≡ l
unfolding check_all check_ready
check_all_latches cfg l [] r = refl
check_all_latches cfg l ((now_ns, g) ∷ calls) r =
    let same : (check_ready cfg now_ns g l).0 ≡ l = ground arith in
    ap (check_all cfg calls) same ∙ check_all_latches cfg l calls r
