-- ===== src/Scheduler/Queue.antt =====
-- fifo.go: enqueue and the rank barrier.
pub mod Order
pub mod Lines
pub mod Decide
pub mod Passes
pub mod Arrivals
pub mod Histories
pub mod Words
use llama_swap_macos_extende.Prelude.{
  ltb, ◌==◌, Bool, true, false, ◌&&◌, not, String, List, [], ◌∷◌, if◌then◌else◌, any,
}
use llama_swap_macos_extende.Prelude.Int.{ℤ, ltb_ℤ}
use llama_swap_macos_extende.Scheduler.Types.{HandlerReq, Fifo}

-- The queue's order: higher rank, then higher priority of the model, then earlier arrival. `goes_before p r q` is the
-- loop's test: `r` is put just before the first `q` with a lower key, or with the same key and a
-- later arrival.
unfoldable pub goes_before : (String → ℤ) → HandlerReq → HandlerReq → Bool
goes_before priority r q =
    if ltb_ℤ q.tier.rank r.tier.rank
    then true
    else if ltb_ℤ r.tier.rank q.tier.rank
    then false
    else if ltb_ℤ (priority q.model) (priority r.model)
    then true
    else if ltb_ℤ (priority r.model) (priority q.model)
    then false
    else ltb r.arrival_seq q.arrival_seq

unfoldable pub insert_request : (String → ℤ) → HandlerReq → List HandlerReq → List HandlerReq
insert_request priority r [] = r ∷ []
insert_request priority r (q ∷ qs) =
    if goes_before priority r q then r ∷ q ∷ qs else q ∷ insert_request priority r qs

unfoldable pub enqueue : HandlerReq → Fifo → Fifo
enqueue r s = record s { queued = insert_request s.cfg.priority r s.queued }

-- A request does not block itself.
unfoldable pub outranks : HandlerReq → HandlerReq → Bool
outranks r q = not (q.respond == r.respond) && ltb_ℤ r.tier.rank q.tier.rank

unfoldable pub blocked_by_rank_barrier : HandlerReq → Fifo → Bool
blocked_by_rank_barrier r s = any (outranks r) s.queued
