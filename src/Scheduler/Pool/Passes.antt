-- ===== src/Scheduler/Pool/Passes.antt =====
-- fifo.go, OnRequest and drainQueue: arrivals, passes over the queue, and the KV pool.
use llama_swap_macos_extende.Prelude.{
  ℕ, Bool, not, ◌&&◌, String, List, [], ◌∷◌, Option, none, some, All, All-append, if_cases, inl,
  inr, Option-cases, if◌then◌else◌,
}
use llama_swap_macos_extende.Prelude.Int.{ℤ}
use llama_swap_macos_extende.Scheduler.Types.{
  HandlerReq, World, Fifo, ProcessState, Error, penalized, rank_barrier, model_not_found,
  model_not_loaded,
}
use llama_swap_macos_extende.Scheduler.Park.{mark_parked}
use llama_swap_macos_extende.Scheduler.Queue.{
  goes_before, insert_request, enqueue, blocked_by_rank_barrier,
}
use llama_swap_macos_extende.Scheduler.Swaps.{is_active}
use llama_swap_macos_extende.Scheduler.Admission.{admit, reject_admission, send_admission}
use llama_swap_macos_extende.Scheduler.KvWarm.{kv_warm_prune}
use llama_swap_macos_extende.Scheduler.Grant.{Decision, stuck, settled, is_ready, route}
use llama_swap_macos_extende.Scheduler.Drain.{
  decide, decided, below_barrier, barrier_after, state_after, keep_stuck, drain_loop, drain_all,
  drain_queue,
}
use llama_swap_macos_extende.Scheduler.Events.{
  penalty_held, place, queue_stuck, on_known_request, on_request,
}
use llama_swap_macos_extende.Scheduler.Pool.{
  within, IsWithin, Pooled, Pooled-Calm, mark_parked-Steady,
}
use llama_swap_macos_extende.Scheduler.Pool.Decide.{Pools, route-Pools}

insert-IsWithin :
    (most : ℕ) (p : String → ℤ) (r : HandlerReq) (rs : List HandlerReq)
    → IsWithin most r
    → All (IsWithin most) rs
    → All (IsWithin most) (insert_request p r rs)
unfolding insert_request
insert-IsWithin most p r [] o h = (o, tt)
insert-IsWithin most p r (q ∷ qs) o h =
    if_cases (All (IsWithin most)) (goes_before p r q) _ (q ∷ insert_request p r qs) (λ _. (o, h))
      (λ _. (h.0, insert-IsWithin most p r qs o h.1))

pub enqueue-Pooled :
    (most : ℕ) (r : HandlerReq) (s : Fifo)
    → IsWithin most r
    → Pooled most s
    → Pooled most (enqueue r s)
unfolding enqueue
enqueue-Pooled most r s o h = record {
  bound = h.bound;
  queued = insert-IsWithin most s.cfg.priority r s.queued o h.queued;
  held = h.held;
  swaps = h.swaps;
}

queue_stuck-Pooled :
    (most : ℕ) (r : HandlerReq) (s : Fifo) (d : Decision)
    → IsWithin most r
    → Pools most r s d
    → Pooled most s
    → Pooled most (queue_stuck d)
queue_stuck-Pooled most r s (stuck p) o k h =
    enqueue-Pooled most p.0 p.1 (within most k.estimate o) (Pooled-Calm most s p.1 k.calm h)
queue_stuck-Pooled most r s (settled t) o k h = k

place-Pooled :
    (most : ℕ) (w : World) (state : ProcessState) (r : HandlerReq) (s : Fifo)
    → IsWithin most r
    → Pooled most s
    → Pooled most (place w state r s)
unfolding place
place-Pooled most w state r s o h =
    let p = mark_parked penalized (r, s) in
    let marked = mark_parked-Steady penalized (r, s) in
    let h1 = Pooled-Calm most s p.1 marked.calm h in
    if_cases (Pooled most) (penalty_held w r s) _ _
      (λ _. record {
        bound = h1.bound;
        queued = h1.queued;
        held =
            All-append (IsWithin most) p.1.penalized_reqs (p.0 ∷ []) h1.held
              (within most marked.estimate o, tt);
        swaps = h1.swaps;
      })
      (λ _.
        if_cases (Pooled most) (blocked_by_rank_barrier r s) _ _
          (λ _.
            queue_stuck-Pooled most r s (stuck (mark_parked rank_barrier (r, s))) o
              (mark_parked-Steady rank_barrier (r, s)) h)
          (λ _.
            queue_stuck-Pooled most r s (route w state r s) o (route-Pools most w state r s o h) h))

send_admission-Pooled :
    (most : ℕ) (w : World) (r : HandlerReq) (err : Option Error) (s : Fifo)
    → Pooled most s
    → Pooled most (send_admission w r err s).1
unfolding send_admission
send_admission-Pooled most w r err s h =
    let still : (e : Option Error) → Pooled most (send_admission w r e s).1 = λ e.
      if_cases (λ (p : Bool × Fifo). (Pooled most) p.1) (not r.has_admit) _ _ (λ _. h)
        (λ _.
          if_cases (λ (p : Bool × Fifo). (Pooled most) p.1) (w.takes_admission r.respond) _ _
            (λ _. record { bound = h.bound; queued = h.queued; held = h.held; swaps = h.swaps })
            (λ _. h)) in
    still err

pub on_request-Pooled :
    (most : ℕ) (w : World) (r : HandlerReq) (s : Fifo)
    → IsWithin most r
    → Pooled most s
    → Pooled most (on_request w r s)
unfolding on_request on_known_request reject_admission admit
on_request-Pooled most w r s o h = elim (Option-cases (w.model_state r.model)) [
  | inl e ↦ rw (e, on_request) (send_admission-Pooled most w r (some model_not_found) s h)
  | inr (state, e) ↦
      rw (e, on_request)
        (let admitted = send_admission-Pooled most w r none s h in
          if_cases (Pooled most)
            (r.status_read && not (is_ready state) && not (is_active r.model s.active)) _ _
            (λ _. send_admission-Pooled most w r (some model_not_loaded) s h)
            (λ _.
              if_cases (Pooled most) (not (admit w r s).0) _ _ (λ _. admitted)
                (λ _. place-Pooled most w state _ _ o (record {
                  bound = admitted.bound;
                  queued = admitted.queued;
                  held = admitted.held;
                  swaps = admitted.swaps;
                }))))
]

decided-Pools :
    (most : ℕ) (w : World) (barrier : Option ℤ) (r : HandlerReq) (s : Fifo)
    → IsWithin most r
    → Pooled most s
    → Pools most r s (decided w barrier r s)
unfolding decide
decided-Pools most w barrier r s o h =
    if_cases ((Pools most) r s) (below_barrier barrier r) _ _
      (λ _. mark_parked-Steady rank_barrier (r, s))
      (λ _. elim (Option-cases (w.model_state r.model)) [
        | inl e ↦
            rw (e, decide)
              (record { bound = h.bound; queued = h.queued; held = h.held; swaps = h.swaps })
        | inr (state, e) ↦ rw (e, decide) (route-Pools most w state r s o h)
      ])

state_after-Pooled :
    (most : ℕ) (r : HandlerReq) (s : Fifo) (d : Decision)
    → Pools most r s d
    → Pooled most s
    → Pooled most (state_after d)
state_after-Pooled most r s (stuck p) k h = Pooled-Calm most s p.1 k.calm h
state_after-Pooled most r s (settled t) k h = k

keep_stuck-IsWithin :
    (most : ℕ) (r : HandlerReq) (s : Fifo) (d : Decision) (rest : List HandlerReq)
    → IsWithin most r
    → Pools most r s d
    → All (IsWithin most) rest
    → All (IsWithin most) (keep_stuck d rest)
keep_stuck-IsWithin most r s (stuck p) rest o k h = (within most k.estimate o, h)
keep_stuck-IsWithin most r s (settled t) rest o k h = h

drain_loop-Pooled :
    (most : ℕ) (w : World) (rs : List HandlerReq) (barrier : Option ℤ) (s : Fifo)
    → All (IsWithin most) rs
    → Pooled most s
    → All (IsWithin most) (drain_loop w rs barrier s).0 × Pooled most (drain_loop w rs barrier s).1
unfolding drain_loop
drain_loop-Pooled most w [] barrier s o h = (tt, h)
drain_loop-Pooled most w (r ∷ rs) barrier s o h =
    let d = decided w barrier r s in
    let k = decided-Pools most w barrier r s o.0 h in
    let rest =
      drain_loop-Pooled most w rs
        (if below_barrier barrier r then barrier else barrier_after barrier d) (state_after d) o.1
        (state_after-Pooled most r s d k h) in
    (keep_stuck-IsWithin most r s d _ o.0 k rest.0, rest.1)

drain_all-Pooled :
    (most : ℕ) (w : World) (rs : List HandlerReq) (s : Fifo)
    → All (IsWithin most) rs
    → Pooled most s
    → Pooled most (drain_all w rs s)
unfolding drain_all kv_warm_prune
drain_all-Pooled most w [] s o h = h
drain_all-Pooled most w (r ∷ rs) s o h =
    let k = drain_loop-Pooled most w (r ∷ rs) none s o h in
    record { bound = k.1.bound; queued = k.0; held = k.1.held; swaps = k.1.swaps }

-- A pass over the queue keeps within the bound.
pub drain_queue-Pooled :
    (most : ℕ) (w : World) (s : Fifo) → Pooled most s → Pooled most (drain_queue w s)
unfolding drain_queue
drain_queue-Pooled most w s h = drain_all-Pooled most w s.queued s h.queued h
