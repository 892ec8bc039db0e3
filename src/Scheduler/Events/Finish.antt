-- ===== src/Scheduler/Events/Finish.antt =====
-- fifo.go: a manual finish of the cooldown, as the timer sees it.
use llama_swap_macos_extende.Prelude.{◌≡◌, refl, true, false, List, [], ◌∷◌, String, arith, All}
use llama_swap_macos_extende.Scheduler.Types.{World, Fifo}
use llama_swap_macos_extende.Scheduler.Swaps.{being_evicted}
use llama_swap_macos_extende.Scheduler.Grace.{within_grace}
use llama_swap_macos_extende.Scheduler.Events.{expire_forced_grace}

-- A model that serves nothing and that no swap is stopping.
abbrev pub IsIdle : Fifo → String → Type 0
IsIdle s m = (s.in_flight m ≡ 0) × (being_evicted m s.active ≡ false)

-- With a manual finish pending, the expiry ends the grace of every set of models that serve
-- nothing and that no swap is stopping.
pub within_grace-expire :
    (w : World) (evict : List String) (s : Fifo)
    → s.grace_expired_forced ≡ true
    → All (IsIdle s) evict
    → within_grace w evict (expire_forced_grace w s) ≡ false
unfolding within_grace expire_forced_grace
within_grace-expire w [] s f h = refl
within_grace-expire w (m ∷ ms) s f h = ground (arith, within_grace-expire w ms s f h.1)
