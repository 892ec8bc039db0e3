-- ===== src/Scheduler/Preempt.antt =====
-- fifo.go: tryPreempt and dropGranted; internal/swaputil/preempt.go: CanPreempt.
pub mod Induct
pub mod Bounds
use llama_swap_macos_extende.Prelude.{
  ℕ, suc, ltb, leb, ◌==◌, Bool, true, false, ◌&&◌, ◌||◌, not, String, List, [], ◌∷◌, Option, none,
  some, if◌then◌else◌, update,
}
use llama_swap_macos_extende.Prelude.Int.{ltb_ℤ}
use llama_swap_macos_extende.Scheduler.Types.{Tier, HandlerReq, GrantedReq, Fifo, preempt}
use llama_swap_macos_extende.Scheduler.Park.{emit}

unfoldable pub can_preempt : Tier → Tier → Bool
can_preempt victim arrival =
    if not (ltb_ℤ victim.rank arrival.rank) then false else victim.preemptible || arrival.preempts

-- `limit > 0 && booted >= limit`.
abbrev pub limit_reached : ℕ → ℕ → Bool
limit_reached limit booted = ltb 0 limit && leb limit booted

-- The inner loop over one model's granted requests, from a count of those booted so far.
unfoldable pub boot_victims : HandlerReq → ℕ → List GrantedReq → ℕ × Fifo → ℕ × Fifo
unfolding can_preempt
boot_victims r limit [] (booted, s) = (booted, s)
boot_victims r limit (v ∷ vs) (booted, s) =
    if limit_reached limit booted
    then (booted, s)
    else boot_victims r limit vs
        (if can_preempt v.tier r.tier then (suc booted, emit (preempt v.id) s) else (booted, s))

-- The outer loop over the evicted models.
unfoldable pub boot_models : HandlerReq → ℕ → List String → ℕ × Fifo → ℕ × Fifo
unfolding boot_victims
boot_models r limit [] p = p
boot_models r limit (m ∷ ms) (booted, s) =
    boot_models r limit ms (boot_victims r limit (s.granted m) (booted, s))

unfoldable pub try_preempt : HandlerReq → List String → ℕ → Fifo → Bool × Fifo
unfolding boot_models
try_preempt r evict limit s =
    let (booted, s') = boot_models r limit evict (0, s) in (ltb 0 booted, s')

abbrev same_id : Option ℕ → Option ℕ → Bool
same_id (some a) (some b) = a == b
same_id none none = true
same_id _ _ = false

drop_by_id : ℕ → List GrantedReq → List GrantedReq
drop_by_id i [] = []
drop_by_id i (g ∷ gs) = if same_id g.id (some i) then gs else g ∷ drop_by_id i gs

drop_last : List GrantedReq → List GrantedReq
drop_last [] = []
drop_last (g ∷ []) = []
drop_last (g ∷ h ∷ gs) = g ∷ drop_last (h ∷ gs)

-- By identity, or the last entry if the finished request carries none.
abbrev drop_entry : Option ℕ → List GrantedReq → List GrantedReq
drop_entry (some i) gs = drop_by_id i gs
drop_entry none gs = drop_last gs

unfoldable pub drop_granted : String → Option ℕ → Fifo → Fifo
unfolding drop_by_id drop_last
drop_granted m id s = record s { granted = update s.granted m (drop_entry id (s.granted m)) }
