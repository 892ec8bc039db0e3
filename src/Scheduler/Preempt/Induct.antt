-- ===== src/Scheduler/Preempt/Induct.antt =====
-- fifo.go, tryPreempt: induction over its boots.
use llama_swap_macos_extende.Prelude.{ℕ, suc, List, [], ◌∷◌, String, Option, inl, inr, Bool-cases}
use llama_swap_macos_extende.Scheduler.Types.{HandlerReq, GrantedReq, Fifo, preempt}
use llama_swap_macos_extende.Scheduler.Park.{emit}
use llama_swap_macos_extende.Scheduler.Preempt.{
  can_preempt, limit_reached, boot_victims, boot_models, try_preempt,
}

module _ {ℓ} (P : Fifo → Type ℓ)
    (keep : (i : Option ℕ) (s : Fifo) → P s → P (emit (preempt i) s)) where
  boot_victims_induct :
      (r : HandlerReq) (limit : ℕ) (vs : List GrantedReq) (booted : ℕ) (s : Fifo)
      → P s
      → P (boot_victims r limit vs (booted, s)).1
  unfolding boot_victims
  boot_victims_induct r limit [] booted s h = h
  boot_victims_induct r limit (v ∷ vs) booted s h = elim (Bool-cases (limit_reached limit booted)) [
    | inl e ↦ rw e h
    | inr e ↦ elim (Bool-cases (can_preempt v.tier r.tier)) [
      | inl c ↦
          rw (e, c)
            (boot_victims_induct r limit vs (suc booted) (emit (preempt v.id) s) (keep v.id s h))
      | inr c ↦ rw (e, c) (boot_victims_induct r limit vs booted s h)
    ]
  ]

  boot_models_induct :
      (r : HandlerReq) (limit : ℕ) (ms : List String) (booted : ℕ) (s : Fifo)
      → P s
      → P (boot_models r limit ms (booted, s)).1
  unfolding boot_models
  boot_models_induct r limit [] booted s h = h
  boot_models_induct r limit (m ∷ ms) booted s h =
      boot_models_induct r limit ms (boot_victims r limit (s.granted m) (booted, s)).0
        (boot_victims r limit (s.granted m) (booted, s)).1
        (boot_victims_induct r limit (s.granted m) booted s h)

  pub try_preempt_induct :
      (r : HandlerReq) (evict : List String) (limit : ℕ) (s : Fifo)
      → P s
      → P (try_preempt r evict limit s).1
  unfolding try_preempt
  try_preempt_induct r evict limit s h = boot_models_induct r limit evict 0 s h
