-- ===== src/Scheduler/Queue/Words.antt =====
-- fifo.go: the order of the queue in words, for one arrival and for whole histories.
use llama_swap_macos_extende.Prelude.{
  ◌≤◌, ◌≡◌, ◌⊎◌, false, String, List, [], ◌∷◌, All, All-map, arith,
}
use llama_swap_macos_extende.Prelude.Int.{ℤ, ◌≤ℤ◌, ◌<ℤ◌}
use llama_swap_macos_extende.Scheduler.Types.{HandlerReq, World, Fifo, FifoConfig}
use llama_swap_macos_extende.Scheduler.Queue.{goes_before, enqueue}
use llama_swap_macos_extende.Scheduler.Setup.{ModelConfig, Event, new_fifo, run}
use llama_swap_macos_extende.Scheduler.Queue.Order.{IsSorted, enqueue-IsSorted}
use llama_swap_macos_extende.Scheduler.Queue.Histories.{run-new_fifo-IsSorted}

-- `q` may stand ahead of `x`: it ranks higher; or as high, and its model has the higher priority;
-- or the same priority, and it arrived no later.
abbrev pub Precedes : (String → ℤ) → HandlerReq → HandlerReq → Type 0
Precedes p q x =
    (x.tier.rank <ℤ q.tier.rank)
    ⊎ ((x.tier.rank ≤ℤ q.tier.rank)
        × (q.tier.rank ≤ℤ x.tier.rank)
        × ((p x.model <ℤ p q.model)
            ⊎ ((p x.model ≤ℤ p q.model)
                × (p q.model ≤ℤ p x.model)
                × (q.arrival_seq ≤ x.arrival_seq))))

-- Every request may stand ahead of all those behind it.
abbrev pub InOrder : (String → ℤ) → List HandlerReq → Type 0
InOrder p [] = Unit
InOrder p (q ∷ qs) = All (Precedes p q) qs × InOrder p qs

goes_before-Precedes :
    (p : String → ℤ) (x q : HandlerReq) → goes_before p x q ≡ false → Precedes p q x
unfolding goes_before
goes_before-Precedes p x q h = ground arith

Precedes-goes_before :
    (p : String → ℤ) (x q : HandlerReq) → Precedes p q x → goes_before p x q ≡ false
unfolding goes_before
Precedes-goes_before p x q h = ground arith

IsSorted-InOrder : (p : String → ℤ) (rs : List HandlerReq) → IsSorted p rs → InOrder p rs
IsSorted-InOrder p [] h = tt
IsSorted-InOrder p (q ∷ qs) h = (
  All-map (λ x. goes_before p x q ≡ false) (Precedes p q) (λ x. goes_before-Precedes p x q) qs h.0,
  IsSorted-InOrder p qs h.1,
)

InOrder-IsSorted : (p : String → ℤ) (rs : List HandlerReq) → InOrder p rs → IsSorted p rs
InOrder-IsSorted p [] h = tt
InOrder-IsSorted p (q ∷ qs) h = (
  All-map (Precedes p q) (λ x. goes_before p x q ≡ false) (λ x. Precedes-goes_before p x q) qs h.0,
  InOrder-IsSorted p qs h.1,
)

-- Queuing a request keeps a queue in order that was in order (by rank, then priority of the model,
-- then arrival), also for a request that arrived earlier than others and is queued again.
pub enqueue-InOrder :
    (r : HandlerReq) (s : Fifo)
    → InOrder s.cfg.priority s.queued
    → InOrder s.cfg.priority (enqueue r s).queued
enqueue-InOrder r s h =
    IsSorted-InOrder s.cfg.priority _
      (enqueue-IsSorted r s (InOrder-IsSorted s.cfg.priority s.queued h))

-- After any history of events the queue is in order: by rank, then by the configured priority of
-- the model, then by arrival.
pub run-new_fifo-InOrder :
    (cfg : FifoConfig) (models : List (String × ModelConfig)) (es : List (World × Event))
    → InOrder cfg.priority (run es (new_fifo cfg models)).queued
run-new_fifo-InOrder cfg models es =
    IsSorted-InOrder cfg.priority _ (run-new_fifo-IsSorted cfg models es)
