-- ===== src/Scheduler/Preempt/Bounds.antt =====
-- fifo.go, tryPreempt: how many requests it boots, and which.
use llama_swap_macos_extende.Prelude.{
  ℕ, suc, ◌+◌, ◌≤◌, ◌<◌, ◌≡◌, refl, true, false, List, [], ◌∷◌, String, arith, All, inl, inr,
  Bool-cases,
}
use llama_swap_macos_extende.Scheduler.Types.{HandlerReq, GrantedReq, Fifo, Effect, preempt}
use llama_swap_macos_extende.Scheduler.Park.{emit}
use llama_swap_macos_extende.Scheduler.Preempt.{
  can_preempt, limit_reached, boot_victims, boot_models, try_preempt,
}

abbrev is_preempt : Effect → ℕ
is_preempt (preempt i) = 1
is_preempt _ = 0

-- How many boots the log holds.
abbrev pub boots : List Effect → ℕ
boots [] = 0
boots (e ∷ es) = is_preempt e + boots es

-- The count of the loop is the number of boots, and stays within the limit.
record Counts (limit booted : ℕ) (s : Fifo) (p : ℕ × Fifo) : Type 0 where
  counted : boots p.1.effects + booted ≡ boots s.effects + p.0
  bounded : booted ≤ limit → p.0 ≤ limit

boot_victims-Counts :
    (r : HandlerReq) (limit : ℕ) (vs : List GrantedReq) (booted : ℕ) (s : Fifo)
    → 0 < limit
    → Counts limit booted s (boot_victims r limit vs (booted, s))
unfolding boot_victims
boot_victims-Counts r limit [] booted s h = record { counted = refl; bounded = λ b. b }
boot_victims-Counts r limit (v ∷ vs) booted s h = elim (Bool-cases (limit_reached limit booted)) [
  | inl e ↦ rw e (record { counted = refl; bounded = λ b. b })
  | inr e ↦ elim (Bool-cases (can_preempt v.tier r.tier)) [
    | inl c ↦
        let rest = boot_victims-Counts r limit vs (suc booted) (emit (preempt v.id) s) h in
        rw (e, c)
          (record {
            counted = omega (arith, rest.counted);
            bounded = λ b. rest.bounded (ground arith);
          })
    | inr c ↦ rw (e, c) (boot_victims-Counts r limit vs booted s h)
  ]
]

boot_models-Counts :
    (r : HandlerReq) (limit : ℕ) (ms : List String) (booted : ℕ) (s : Fifo)
    → 0 < limit
    → Counts limit booted s (boot_models r limit ms (booted, s))
unfolding boot_models
boot_models-Counts r limit [] booted s h = record { counted = refl; bounded = λ b. b }
boot_models-Counts r limit (m ∷ ms) booted s h =
    let p = boot_victims r limit (s.granted m) (booted, s) in
    let here = boot_victims-Counts r limit (s.granted m) booted s h in
    let rest = boot_models-Counts r limit ms p.0 p.1 h in
    record {
      counted = omega (arith, here.counted, rest.counted);
      bounded = λ b. rest.bounded (here.bounded b);
    }

-- A preemption with a positive limit boots at most that many requests, and reports a boot exactly
-- if there was one.
pub try_preempt-boots :
    (r : HandlerReq) (evict : List String) (limit : ℕ) (s : Fifo)
    → 0 < limit
    → let p = try_preempt r evict limit s in
      (boots p.1.effects ≤ boots s.effects + limit)
      × (p.0 ≡ false → boots p.1.effects ≡ boots s.effects)
      × (p.0 ≡ true → boots s.effects < boots p.1.effects)
unfolding try_preempt
try_preempt-boots r evict limit s h =
    let c = boot_models-Counts r limit evict 0 s h in
    let within = c.bounded (omega arith) in
    (
      omega (arith, c.counted, within),
      λ e. ground (arith, c.counted),
      λ e. ground (arith, c.counted),
    )

-- A granted request that the arrival may not boot: it ranks at least as high, or neither tier
-- allows the boot.
abbrev pub Kept : HandlerReq → GrantedReq → Type 0
Kept r v = can_preempt v.tier r.tier ≡ false

boot_victims-Kept :
    (r : HandlerReq) (limit : ℕ) (vs : List GrantedReq) (booted : ℕ) (s : Fifo)
    → All (Kept r) vs
    → boot_victims r limit vs (booted, s) ≡ (booted, s)
unfolding boot_victims
boot_victims-Kept r limit [] booted s h = refl
boot_victims-Kept r limit (v ∷ vs) booted s h = elim (Bool-cases (limit_reached limit booted)) [
  | inl e ↦ rw e
  | inr e ↦ rw (e, h.0) (boot_victims-Kept r limit vs booted s h.1)
]

boot_models-Kept :
    (r : HandlerReq) (limit : ℕ) (ms : List String) (booted : ℕ) (s : Fifo)
    → All (λ m. All (Kept r) (s.granted m)) ms
    → boot_models r limit ms (booted, s) ≡ (booted, s)
unfolding boot_models
boot_models-Kept r limit [] booted s h = refl
boot_models-Kept r limit (m ∷ ms) booted s h =
    rw (boot_victims-Kept r limit (s.granted m) booted s h.0)
      (boot_models-Kept r limit ms booted s h.1)

-- If the arrival may boot none of the requests granted on the models, preemption leaves the
-- scheduler as it was and reports no boot.
pub try_preempt-Kept :
    (r : HandlerReq) (evict : List String) (limit : ℕ) (s : Fifo)
    → All (λ m. All (Kept r) (s.granted m)) evict
    → try_preempt r evict limit s ≡ (false, s)
unfolding try_preempt
try_preempt-Kept r evict limit s h = rw (boot_models-Kept r limit evict 0 s h)
