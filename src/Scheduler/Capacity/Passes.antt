-- ===== src/Scheduler/Capacity/Passes.antt =====
-- fifo.go, OnRequest and drainQueue: arrivals, passes over the queue, and the limits.
use llama_swap_macos_extende.Prelude.{
  ◌∙◌, Bool, not, ◌&&◌, String, List, [], ◌∷◌, Option, none, some, All, All-append, if_cases, inl,
  inr, Option-cases, if◌then◌else◌,
}
use llama_swap_macos_extende.Prelude.Int.{ℤ}
use llama_swap_macos_extende.Scheduler.Types.{
  HandlerReq, World, Fifo, ProcessState, Error, penalized, rank_barrier, model_not_found,
  model_not_loaded,
}
use llama_swap_macos_extende.Scheduler.Park.{mark_parked}
use llama_swap_macos_extende.Scheduler.Queue.{
  goes_before, insert_request, enqueue, blocked_by_rank_barrier,
}
use llama_swap_macos_extende.Scheduler.Swaps.{is_active}
use llama_swap_macos_extende.Scheduler.Admission.{limit, admit, reject_admission, send_admission}
use llama_swap_macos_extende.Scheduler.KvWarm.{kv_warm_prune}
use llama_swap_macos_extende.Scheduler.Grant.{Decision, stuck, settled, is_ready, route}
use llama_swap_macos_extende.Scheduler.Drain.{
  decide, decided, below_barrier, barrier_after, state_after, keep_stuck, drain_loop, drain_all,
  drain_queue,
}
use llama_swap_macos_extende.Scheduler.Events.{
  penalty_held, place, queue_stuck, on_known_request, on_request,
}
use llama_swap_macos_extende.Scheduler.Capacity.{Ordinary, Capped, Capped-Calm, mark_parked-Steady}
use llama_swap_macos_extende.Scheduler.Capacity.Decide.{Caps, route-Caps}

insert-Ordinary :
    (p : String → ℤ) (r : HandlerReq) (rs : List HandlerReq)
    → Ordinary r
    → All Ordinary rs
    → All Ordinary (insert_request p r rs)
unfolding insert_request
insert-Ordinary p r [] o h = (o, tt)
insert-Ordinary p r (q ∷ qs) o h =
    if_cases (All Ordinary) (goes_before p r q) _ (q ∷ insert_request p r qs) (λ _. (o, h))
      (λ _. (h.0, insert-Ordinary p r qs o h.1))

pub enqueue-Capped : (r : HandlerReq) (s : Fifo) → Ordinary r → Capped s → Capped (enqueue r s)
unfolding enqueue limit
enqueue-Capped r s o h = record {
  cap = h.cap;
  queued = insert-Ordinary s.cfg.priority r s.queued o h.queued;
  held = h.held;
  swaps = h.swaps;
}

queue_stuck-Capped :
    (r : HandlerReq) (s : Fifo) (d : Decision)
    → Ordinary r
    → Caps r s d
    → Capped s
    → Capped (queue_stuck d)
queue_stuck-Capped r s (stuck p) o k h =
    enqueue-Capped p.0 p.1 (k.exempt ∙ o) (Capped-Calm s p.1 k.calm h)
queue_stuck-Capped r s (settled t) o k h = k

place-Capped :
    (w : World) (state : ProcessState) (r : HandlerReq) (s : Fifo)
    → Ordinary r
    → Capped s
    → Capped (place w state r s)
unfolding place limit
place-Capped w state r s o h =
    let p = mark_parked penalized (r, s) in
    let marked = mark_parked-Steady penalized (r, s) in
    let h1 = Capped-Calm s p.1 marked.calm h in
    if_cases Capped (penalty_held w r s) _ _
      (λ _. record {
        cap = h1.cap;
        queued = h1.queued;
        held = All-append Ordinary p.1.penalized_reqs (p.0 ∷ []) h1.held (marked.exempt ∙ o, tt);
        swaps = h1.swaps;
      })
      (λ _.
        if_cases Capped (blocked_by_rank_barrier r s) _ _
          (λ _.
            queue_stuck-Capped r s (stuck (mark_parked rank_barrier (r, s))) o
              (mark_parked-Steady rank_barrier (r, s)) h)
          (λ _. queue_stuck-Capped r s (route w state r s) o (route-Caps w state r s o h) h))

send_admission-Capped :
    (w : World) (r : HandlerReq) (err : Option Error) (s : Fifo)
    → Capped s
    → Capped (send_admission w r err s).1
unfolding send_admission limit
send_admission-Capped w r err s h =
    let still : (e : Option Error) → Capped (send_admission w r e s).1 = λ e.
      if_cases (λ (p : Bool × Fifo). Capped p.1) (not r.has_admit) _ _ (λ _. h)
        (λ _.
          if_cases (λ (p : Bool × Fifo). Capped p.1) (w.takes_admission r.respond) _ _
            (λ _. record { cap = h.cap; queued = h.queued; held = h.held; swaps = h.swaps })
            (λ _. h)) in
    still err

pub on_request-Capped :
    (w : World) (r : HandlerReq) (s : Fifo) → Ordinary r → Capped s → Capped (on_request w r s)
unfolding on_request on_known_request reject_admission admit limit
on_request-Capped w r s o h = elim (Option-cases (w.model_state r.model)) [
  | inl e ↦ rw (e, on_request) (send_admission-Capped w r (some model_not_found) s h)
  | inr (state, e) ↦
      rw (e, on_request)
        (let admitted = send_admission-Capped w r none s h in
          if_cases Capped
            (r.status_read && not (is_ready state) && not (is_active r.model s.active)) _ _
            (λ _. send_admission-Capped w r (some model_not_loaded) s h)
            (λ _.
              if_cases Capped (not (admit w r s).0) _ _ (λ _. admitted)
                (λ _. place-Capped w state _ _ o (record {
                  cap = admitted.cap;
                  queued = admitted.queued;
                  held = admitted.held;
                  swaps = admitted.swaps;
                }))))
]

decided-Caps :
    (w : World) (barrier : Option ℤ) (r : HandlerReq) (s : Fifo)
    → Ordinary r
    → Capped s
    → Caps r s (decided w barrier r s)
unfolding decide limit
decided-Caps w barrier r s o h =
    if_cases (Caps r s) (below_barrier barrier r) _ _ (λ _. mark_parked-Steady rank_barrier (r, s))
      (λ _. elim (Option-cases (w.model_state r.model)) [
        | inl e ↦
            rw (e, decide)
              (record { cap = h.cap; queued = h.queued; held = h.held; swaps = h.swaps })
        | inr (state, e) ↦ rw (e, decide) (route-Caps w state r s o h)
      ])

state_after-Capped :
    (r : HandlerReq) (s : Fifo) (d : Decision) → Caps r s d → Capped s → Capped (state_after d)
state_after-Capped r s (stuck p) k h = Capped-Calm s p.1 k.calm h
state_after-Capped r s (settled t) k h = k

keep_stuck-Ordinary :
    (r : HandlerReq) (s : Fifo) (d : Decision) (rest : List HandlerReq)
    → Ordinary r
    → Caps r s d
    → All Ordinary rest
    → All Ordinary (keep_stuck d rest)
keep_stuck-Ordinary r s (stuck p) rest o k h = (k.exempt ∙ o, h)
keep_stuck-Ordinary r s (settled t) rest o k h = h

drain_loop-Capped :
    (w : World) (rs : List HandlerReq) (barrier : Option ℤ) (s : Fifo)
    → All Ordinary rs
    → Capped s
    → All Ordinary (drain_loop w rs barrier s).0 × Capped (drain_loop w rs barrier s).1
unfolding drain_loop
drain_loop-Capped w [] barrier s o h = (tt, h)
drain_loop-Capped w (r ∷ rs) barrier s o h =
    let d = decided w barrier r s in
    let k = decided-Caps w barrier r s o.0 h in
    let rest =
      drain_loop-Capped w rs (if below_barrier barrier r then barrier else barrier_after barrier d)
        (state_after d) o.1 (state_after-Capped r s d k h) in
    (keep_stuck-Ordinary r s d _ o.0 k rest.0, rest.1)

drain_all-Capped :
    (w : World) (rs : List HandlerReq) (s : Fifo)
    → All Ordinary rs
    → Capped s
    → Capped (drain_all w rs s)
unfolding drain_all kv_warm_prune limit
drain_all-Capped w [] s o h = h
drain_all-Capped w (r ∷ rs) s o h =
    let k = drain_loop-Capped w (r ∷ rs) none s o h in
    record { cap = k.1.cap; queued = k.0; held = k.1.held; swaps = k.1.swaps }

-- A pass over the queue keeps within the limits.
pub drain_queue-Capped : (w : World) (s : Fifo) → Capped s → Capped (drain_queue w s)
unfolding drain_queue
drain_queue-Capped w s h = drain_all-Capped w s.queued s h.queued h
