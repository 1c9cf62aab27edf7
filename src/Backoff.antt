-- ===== src/Backoff.antt =====
-- backoff/backoff.go: delays between retries. A duration is the 64-bit pattern of its int64, so
-- that doubling wraps around as it does in the code.
use dskit.Base.{
  All, Bool, Bool-cases, List, Option, [], arith, if◌then◌else◌, inl, inr, leb, ltb, max, min,
  nat_beq, none, not, refl, some, subst, suc, sym, true, zero, ℕ, ◌%◌, ◌&&◌, ◌*◌, ◌+◌, ◌-◌, ◌<◌,
  ◌^◌, ◌||◌, ◌↔◌, ◌∙◌, ◌∷◌, ◌≡◌, ◌≤◌,
}
mod Examples

-- `<=` on int64
abbrev pub signed_leb : ℕ → ℕ → Bool
signed_leb a b = leb ((a + 2 ^ 63) % 2 ^ 64) ((b + 2 ^ 63) % 2 ^ 64)

-- `<` on int64
abbrev pub signed_ltb : ℕ → ℕ → Bool
signed_ltb a b = ltb ((a + 2 ^ 63) % 2 ^ 64) ((b + 2 ^ 63) % 2 ^ 64)

-- `Config`
pub record Config : Type 0 where
  pub min_backoff : ℕ
  pub max_backoff : ℕ
  pub max_retries : ℕ

-- `Backoff`, with whether its context has an error
pub record Backoff : Type 0 where
  pub cfg : Config
  pub ctx_err : Bool
  pub num_retries : ℕ
  pub next_delay_min : ℕ
  pub next_delay_max : ℕ

unfoldable pub double_duration : ℕ → ℕ → ℕ
double_duration value max =
    let twice = value * 2 % 2 ^ 64 in if signed_leb twice max then twice else max

-- `New`
unfoldable pub new : Bool → Config → Backoff
unfolding double_duration
new ctx_err cfg = record {
  cfg = cfg;
  ctx_err = ctx_err;
  num_retries = 0;
  next_delay_min = cfg.min_backoff;
  next_delay_max = double_duration cfg.min_backoff cfg.max_backoff;
}

unfoldable pub reset : Backoff → Backoff
unfolding double_duration
reset b = record b {
  num_retries = 0;
  next_delay_min = b.cfg.min_backoff;
  next_delay_max = double_duration b.cfg.min_backoff b.cfg.max_backoff;
}

unfoldable pub ongoing : Backoff → Bool
ongoing b = not b.ctx_err && (nat_beq b.cfg.max_retries 0 || ltb b.num_retries b.cfg.max_retries)

pub data BackoffError : Type 0 where
  context_error : BackoffError
  terminated_after : (retries : ℕ) → BackoffError

-- `Err`, `none` for nil
unfoldable pub backoff_err : Backoff → Option BackoffError
backoff_err b =
    if b.ctx_err
    then some context_error
    else if not (nat_beq b.cfg.max_retries 0) && leb b.cfg.max_retries b.num_retries
    then some (terminated_after b.num_retries)
    else none

-- `NextDelay`: the delay and the state after it, where `draw n` is what `rand.Int63n(n)` returns
unfoldable pub next_delay : (ℕ → ℕ) → Backoff → ℕ × Backoff
unfolding double_duration
next_delay draw b =
    let counted = record b { num_retries = b.num_retries + 1 } in
    if signed_leb b.next_delay_max b.next_delay_min
    then (b.next_delay_min, counted)
    else let range = (b.next_delay_max + 2 ^ 64 - b.next_delay_min) % 2 ^ 64 in
      let sleep_time = (b.next_delay_min + draw range) % 2 ^ 64 in
      if signed_ltb b.next_delay_max b.cfg.max_backoff
      then (
        sleep_time,
        record counted {
          next_delay_min = double_duration b.next_delay_min b.cfg.max_backoff;
          next_delay_max = double_duration b.next_delay_max b.cfg.max_backoff;
        },
      )
      else (sleep_time, counted)

-- The delays of a number of retries.
abbrev pub delays : (ℕ → ℕ) → ℕ → Backoff → List ℕ
delays draw zero b = []
delays draw (suc n) b = let (delay, after) = next_delay draw b in delay ∷ delays draw n after

-- Below half of the range nothing wraps around.
double_duration_lem :
    (value max : ℕ) → value ≤ max → max < 2 ^ 62 → double_duration value max ≡ min (value * 2) max
unfolding double_duration
double_duration_lem value max le small = ground arith

-- Its delays stay in between.
abbrev pub InBounds : Backoff → Type 0
InBounds b =
    (b.cfg.min_backoff ≤ b.next_delay_min)
    × (b.next_delay_min ≤ b.next_delay_max)
    × (b.next_delay_max ≤ b.cfg.max_backoff)

next_delay-InBounds :
    (draw : ℕ → ℕ) (b : Backoff)
    → ((n : ℕ) → 0 < n → draw n < n)
    → b.cfg.max_backoff < 2 ^ 62
    → InBounds b
    → ((b.cfg.min_backoff ≤ (next_delay draw b).0) × ((next_delay draw b).0 ≤ b.cfg.max_backoff))
      × InBounds (next_delay draw b).1
      × ((next_delay draw b).1.cfg ≡ b.cfg)
unfolding next_delay
next_delay-InBounds draw b fair small h =
    elim (Bool-cases (signed_leb b.next_delay_max b.next_delay_min)) [
      | inl equal ↦ rw equal ((ground arith, ground arith), h, refl)
      | inr apart ↦
          let range : ℕ = (b.next_delay_max + 2 ^ 64 - b.next_delay_min) % 2 ^ 64 in
          let width : range + b.next_delay_min ≡ b.next_delay_max = ground arith in
          let below : draw range < range = fair range (ground arith) in
          let in_range = between range (draw range) width below in
          rw apart (elim (Bool-cases (signed_ltb b.next_delay_max b.cfg.max_backoff)) [
            | inl more ↦ rw more (in_range, doubled, refl)
            | inr last ↦ rw last (in_range, h, refl)
          ])
    ]
  where
    between :
        (range d : ℕ)
        → range + b.next_delay_min ≡ b.next_delay_max
        → d < range
        → (b.cfg.min_backoff ≤ (b.next_delay_min + d) % 2 ^ 64)
          × ((b.next_delay_min + d) % 2 ^ 64 ≤ b.cfg.max_backoff)
    between range d width below = (omega arith, omega arith)

    doubled :
        (b.cfg.min_backoff ≤ double_duration b.next_delay_min b.cfg.max_backoff)
        × (double_duration b.next_delay_min b.cfg.max_backoff
            ≤ double_duration b.next_delay_max b.cfg.max_backoff)
        × (double_duration b.next_delay_max b.cfg.max_backoff ≤ b.cfg.max_backoff)
    doubled =
        let low = double_duration_lem b.next_delay_min b.cfg.max_backoff (omega arith) small in
        let high = double_duration_lem b.next_delay_max b.cfg.max_backoff (omega arith) small in
        (omega (arith, low), omega (arith, low, high), omega (arith, high))

new-InBounds :
    (ctx_err : Bool) (cfg : Config)
    → cfg.min_backoff ≤ cfg.max_backoff
    → cfg.max_backoff < 2 ^ 62
    → InBounds (new ctx_err cfg) × ((new ctx_err cfg).cfg ≡ cfg)
unfolding new
new-InBounds ctx_err cfg le small =
    let doubled = double_duration_lem cfg.min_backoff cfg.max_backoff le small in
    ((omega arith, omega (arith, doubled), omega (arith, doubled)), refl)

-- Every delay of a backoff lies between the configured minimum and maximum, however many retries
-- are made and whatever the random numbers are, if the minimum is at most the maximum and the
-- maximum is below half of the range of an int64 (or doubling would overflow).
pub delays-bounds :
    (draw : ℕ → ℕ) (n : ℕ) (ctx_err : Bool) (cfg : Config)
    → ((k : ℕ) → 0 < k → draw k < k)
    → cfg.min_backoff ≤ cfg.max_backoff
    → cfg.max_backoff < 2 ^ 62
    → All (λ d. (cfg.min_backoff ≤ d) × (d ≤ cfg.max_backoff)) (delays draw n (new ctx_err cfg))
delays-bounds draw n ctx_err cfg fair le small =
    let (bounds, same) = new-InBounds ctx_err cfg le small in go n (new ctx_err cfg) bounds same
  where
    go :
        (n : ℕ) (b : Backoff)
        → InBounds b
        → b.cfg ≡ cfg
        → All (λ d. (cfg.min_backoff ≤ d) × (d ≤ cfg.max_backoff)) (delays draw n b)
    go zero b h same = tt
    go (suc n) b h same =
        let ((low, high), next, kept) =
          next_delay-InBounds draw b fair (subst (λ c. c.max_backoff < 2 ^ 62) (sym same) small)
            h in
        (
          (
            subst (λ c. c.min_backoff ≤ (next_delay draw b).0) same low,
            subst (λ c. (next_delay draw b).0 ≤ c.max_backoff) same high,
          ),
          go n (next_delay draw b).1 next (kept ∙ same),
        )

-- `Ongoing` is true exactly as long as `Err` gives no reason to end.
pub ongoing_iff : (b : Backoff) → (ongoing b ≡ true) ↔ (backoff_err b ≡ none)
unfolding ongoing backoff_err
ongoing_iff b = (λ going. ground arith, λ no_reason. ground arith)
