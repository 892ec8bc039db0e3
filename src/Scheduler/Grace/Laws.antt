-- ===== src/Scheduler/Grace/Laws.antt =====
-- fifo.go, deferredByGrace and FinishCooldown: when a swap waits for the grace.
use llama_swap_macos_extende.Prelude.{◌≡◌, ℕ, ◌+◌, ◌<◌, some, true, false, List, String, arith}
use llama_swap_macos_extende.Prelude.Int.{ltb_ℤ}
use llama_swap_macos_extende.Scheduler.Types.{HandlerReq, World, Fifo, Tier}
use llama_swap_macos_extende.Scheduler.Grace.{
  within_grace, breaks_grace, deferred_by_grace, finish_cooldown,
}

-- The model has been idle for less than its grace, and it has one.
abbrev pub InGrace : World → Fifo → String → Type 0
InGrace w s m =
    (since : ℕ) × (s.idle_since m ≡ some since) × (0 < s.grace m) × (w.now < since + s.grace m)

-- The model last served a tier of a lower rank, and the tier of the request boots lower ranks.
abbrev pub IsOutranked : HandlerReq → Fifo → String → Type 0
IsOutranked r s m =
    (t : Tier) × (s.last_served_tier m ≡ some t)
    × (ltb_ℤ t.rank r.tier.rank ≡ true)
    × (r.tier.preempts ≡ true)

-- After a manual finish, a swap that meets a running grace proceeds, and the next swap that meets
-- a running grace which its tier does not break is deferred.
pub finish_cooldown-deferred :
    (w v : World) (r q : HandlerReq) (evict others : List String) (s : Fifo)
    → within_grace w evict s ≡ true
    → within_grace v others s ≡ true
    → breaks_grace q others s ≡ false
    → let first = deferred_by_grace w r evict (finish_cooldown s) in
      (first.0 ≡ false) × ((deferred_by_grace v q others first.1).0 ≡ true)
unfolding deferred_by_grace finish_cooldown
finish_cooldown-deferred w v r q evict others s h k b = ground arith
