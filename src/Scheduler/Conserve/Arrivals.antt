-- ===== src/Scheduler/Conserve/Arrivals.antt =====
-- fifo.go, OnRequest: an arrival and the places of a request.
use llama_swap_macos_extende.Prelude.{
  ℕ, ◌+◌, ◌≡◌, ap, true, ◌&&◌, not, [], ◌∷◌, Option, none, some, arith, inl, inr, Bool-cases,
  Option-cases,
}
use llama_swap_macos_extende.Scheduler.Types.{
  HandlerReq, World, Fifo, ProcessState, Error, penalized, rank_barrier, admission, model_not_found,
  model_not_loaded,
}
use llama_swap_macos_extende.Scheduler.Park.{emit, mark_parked}
use llama_swap_macos_extende.Scheduler.Queue.{blocked_by_rank_barrier}
use llama_swap_macos_extende.Scheduler.Swaps.{is_active}
use llama_swap_macos_extende.Scheduler.Admission.{admit, reject_admission, send_admission}
use llama_swap_macos_extende.Scheduler.Grant.{Decision, stuck, settled, route, is_ready}
use llama_swap_macos_extende.Scheduler.Events.{
  penalty_held, place, queue_stuck, on_known_request, on_request,
}
use llama_swap_macos_extende.Scheduler.Conserve.{
  one, occurs, places, Quiet, mark_parked-Stamped, elsewhere-Quiet,
}
use llama_swap_macos_extende.Scheduler.Conserve.Lists.{
  occurs-append, occurs-enqueue, elsewhere-enqueue,
}
use llama_swap_macos_extende.Scheduler.Conserve.Route.{Keeps, route-Keeps}

pub places-Quiet : (id : ℕ) (s t : Fifo) → Quiet s t → places id t ≡ places id s
places-Quiet id s t q = omega (arith, ap (occurs id) q.queued, elsewhere-Quiet id s t q)

-- A decision on an arrival puts it in exactly one more place.
pub queue_stuck-places :
    (id : ℕ) (r : HandlerReq) (s : Fifo) (d : Decision)
    → Keeps id r s d
    → places id (queue_stuck d) ≡ one id r.respond + places id s
queue_stuck-places id r s (stuck p) k = omega (
  arith,
  occurs-enqueue id p.0 p.1,
  elsewhere-enqueue id p.0 p.1,
  places-Quiet id s p.1 k.quiet,
  ap (one id) k.respond,
)
queue_stuck-places id r s (settled t) k = omega (arith, k.gained, ap (occurs id) k.queued)

pub place-places :
    (id : ℕ) (w : World) (state : ProcessState) (r : HandlerReq) (s : Fifo)
    → places id (place w state r s) ≡ one id r.respond + places id s
unfolding place
place-places id w state r s = elim (Bool-cases (penalty_held w r s)) [
  | inl h ↦
      let p = mark_parked penalized (r, s) in
      let marked = mark_parked-Stamped penalized (r, s) in
      rw h (
        omega (
          arith,
          occurs-append id p.1.penalized_reqs (p.0 ∷ []),
          places-Quiet id s p.1 marked.quiet,
          ap (one id) marked.respond,
        ))
  | inr h ↦ elim (Bool-cases (blocked_by_rank_barrier r s)) [
    | inl b ↦
        rw (h, b)
          (queue_stuck-places id r s (stuck (mark_parked rank_barrier (r, s)))
            (mark_parked-Stamped rank_barrier (r, s)))
    | inr b ↦ rw (h, b) (queue_stuck-places id r s (route w state r s) (route-Keeps id w state r s))
  ]
]

module _ (id : ℕ) (w : World) (r : HandlerReq) (s : Fifo) (channel : r.has_admit ≡ true)
    (taken : w.takes_admission r.respond ≡ true) where
  send-eq :
      (err : Option Error) → send_admission w r err s ≡ (true, emit (admission r.respond err) s)
  unfolding send_admission
  send-eq err = simp (channel, taken)

  reject-eq : (e : Error) → reject_admission w r e s ≡ emit (admission r.respond (some e)) s
  unfolding reject_admission
  reject-eq e = ap (λ p. p.1) (send-eq (some e))

  admit-eq : admit w r s ≡ (true, emit (admission r.respond none) s)
  unfolding admit
  admit-eq = send-eq none

  reject-places :
      (e : Error) → places id (reject_admission w r e s) ≡ one id r.respond + places id s
  reject-places e = rw (reject-eq e) (omega arith)

  on_known_request-places :
      (state : ProcessState)
      → places id (on_known_request w state r s) ≡ one id r.respond + places id s
  unfolding on_known_request
  on_known_request-places state =
      elim (Bool-cases
        (r.status_read && not (is_ready state) && not (is_active r.model s.active))) [
          | inl e ↦ rw e (reject-places model_not_loaded)
          | inr e ↦ rw (e, admit-eq) (place-places id w state _ _)
        ]

  -- An arrival whose caller takes the answer to the admission handshake ends up in exactly one
  -- more place: answered, queued, held, or among the waiters of a swap; every other request stays
  -- in as many places as before.
  pub on_request-places : places id (on_request w r s) ≡ one id r.respond + places id s
  unfolding on_request
  on_request-places = elim (Option-cases (w.model_state r.model)) [
    | inl e ↦ rw (e, on_request) (reject-places model_not_found)
    | inr (state, e) ↦ rw (e, on_request) (on_known_request-places state)
  ]
