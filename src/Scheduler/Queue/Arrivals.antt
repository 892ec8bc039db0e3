-- ===== src/Scheduler/Queue/Arrivals.antt =====
-- fifo.go, OnRequest: an arrival and the order of the queue.
use llama_swap_macos_extende.Prelude.{
  sym, subst, String, Option, none, some, not, ◌&&◌, arith, if_cases, inl, inr, Option-cases,
}
use llama_swap_macos_extende.Prelude.Int.{ℤ}
use llama_swap_macos_extende.Scheduler.Types.{
  HandlerReq, World, Fifo, ProcessState, Error, penalized, rank_barrier, model_not_found,
  model_not_loaded,
}
use llama_swap_macos_extende.Scheduler.Park.{mark_parked}
use llama_swap_macos_extende.Scheduler.Swaps.{is_active}
use llama_swap_macos_extende.Scheduler.Admission.{admit, reject_admission, send_admission}
use llama_swap_macos_extende.Scheduler.Grant.{Decision, stuck, settled, is_ready, route}
use llama_swap_macos_extende.Scheduler.Queue.{enqueue, blocked_by_rank_barrier}
use llama_swap_macos_extende.Scheduler.Events.{
  penalty_held, place, queue_stuck, on_known_request, on_request,
}
use llama_swap_macos_extende.Scheduler.Queue.Order.{IsSorted, enqueue-IsSorted}
use llama_swap_macos_extende.Scheduler.Queue.Lines.{
  Lines, SortedBy, SortedBy-Lines, mark_parked-Filed,
}
use llama_swap_macos_extende.Scheduler.Queue.Decide.{Files, route-Files}

pub enqueue-SortedBy :
    (p : String → ℤ) (r : HandlerReq) (s : Fifo) → SortedBy p s → SortedBy p (enqueue r s)
unfolding enqueue
enqueue-SortedBy p r s h = (
  h.0,
  subst (λ q. IsSorted q (enqueue r s).queued) h.0
      (enqueue-IsSorted r s (subst (λ q. IsSorted q s.queued) (sym h.0) h.1)),
)

queue_stuck-SortedBy :
    (p : String → ℤ) (r : HandlerReq) (s : Fifo) (d : Decision)
    → Files r s d
    → SortedBy p s
    → SortedBy p (queue_stuck d)
queue_stuck-SortedBy p r s (stuck q) f h =
    enqueue-SortedBy p q.0 q.1 (SortedBy-Lines p s q.1 f.lines h)
queue_stuck-SortedBy p r s (settled t) f h = SortedBy-Lines p s t f h

place-SortedBy :
    (p : String → ℤ) (w : World) (state : ProcessState) (r : HandlerReq) (s : Fifo)
    → SortedBy p s
    → SortedBy p (place w state r s)
unfolding place
place-SortedBy p w state r s h =
    let marked = (mark_parked-Filed penalized (r, s)).lines in
    if_cases (SortedBy p) (penalty_held w r s) _ _
      (λ _. SortedBy-Lines p s (mark_parked penalized (r, s)).1 marked h)
      (λ _.
        if_cases (SortedBy p) (blocked_by_rank_barrier r s) _ _
          (λ _.
            queue_stuck-SortedBy p r s (stuck (mark_parked rank_barrier (r, s)))
              (mark_parked-Filed rank_barrier (r, s)) h)
          (λ _. queue_stuck-SortedBy p r s (route w state r s) (route-Files w state r s) h))

send_admission-Lines :
    (w : World) (r : HandlerReq) (err : Option Error) (s : Fifo)
    → Lines s (send_admission w r err s).1
unfolding send_admission
send_admission-Lines w r err s = ground arith

pub on_request-SortedBy :
    (p : String → ℤ) (w : World) (r : HandlerReq) (s : Fifo)
    → SortedBy p s
    → SortedBy p (on_request w r s)
unfolding on_request on_known_request reject_admission admit
on_request-SortedBy p w r s h = elim (Option-cases (w.model_state r.model)) [
  | inl e ↦
      rw (e, on_request)
        (SortedBy-Lines p s _ (send_admission-Lines w r (some model_not_found) s) h)
  | inr (state, e) ↦
      rw (e, on_request)
        (let admitted = SortedBy-Lines p s _ (send_admission-Lines w r none s) h in
          if_cases (SortedBy p)
            (r.status_read && not (is_ready state) && not (is_active r.model s.active)) _ _
            (λ _. SortedBy-Lines p s _ (send_admission-Lines w r (some model_not_loaded) s) h)
            (λ _.
              if_cases (SortedBy p) (not (admit w r s).0) _ _ (λ _. admitted)
                (λ _. place-SortedBy p w state _ _ admitted)))
]
