-- ===== src/Scheduler/Safety/Events.antt =====
-- fifo.go: passes over the queue, arrivals, and the active swaps.
use llama_swap_macos_extende.Prelude.{
  ℕ, ◌≡◌, Bool, false, ◌&&◌, not, String, List, [], ◌∷◌, Option, none, some, arith, if_cases, inl,
  inr, Option-cases, if◌then◌else◌, keep, map, All,
}
use llama_swap_macos_extende.Prelude.Int.{ℤ}
use llama_swap_macos_extende.Scheduler.Types.{
  HandlerReq, World, Fifo, ActiveSwap, ProcessState, Error, penalized, rank_barrier,
  model_not_found, model_not_loaded,
}
use llama_swap_macos_extende.Scheduler.Park.{mark_parked}
use llama_swap_macos_extende.Scheduler.Queue.{enqueue, blocked_by_rank_barrier}
use llama_swap_macos_extende.Scheduler.Swaps.{is_active, conflicts_with_in_flight}
use llama_swap_macos_extende.Scheduler.Admission.{admit, reject_admission, send_admission}
use llama_swap_macos_extende.Scheduler.KvWarm.{kv_warm_prune}
use llama_swap_macos_extende.Scheduler.Grant.{Decision, stuck, settled, route, is_ready}
use llama_swap_macos_extende.Scheduler.Drain.{
  decide, below_barrier, barrier_after, state_after, drain_loop, drain_all, drain_queue,
}
use llama_swap_macos_extende.Scheduler.Events.{
  penalty_held, place, queue_stuck, on_known_request, on_request, without_waiter,
}
use llama_swap_macos_extende.Scheduler.Safety.{
  Safe, SafeSwaps, SwapsApart, Idle, Apart, Still, Safe-Still, mark_parked-Still,
}
use llama_swap_macos_extende.Scheduler.Safety.Route.{route-Safe}

pub decide-Safe :
    (w : World) (r : HandlerReq) (s : Fifo) → Safe s → Safe (state_after (decide w r s))
unfolding decide
decide-Safe w r s h = elim (Option-cases (w.model_state r.model)) [
  | inl e ↦ simp (e, decide) (record { idle = h.idle; apart = h.apart })
  | inr (state, e) ↦ rw (e, decide) (route-Safe w state r s h)
]

drain_loop-Safe :
    (w : World) (rs : List HandlerReq) (barrier : Option ℤ) (s : Fifo)
    → Safe s
    → Safe (drain_loop w rs barrier s).1
unfolding drain_loop
drain_loop-Safe w [] barrier s h = h
drain_loop-Safe w (r ∷ rs) barrier s h =
    let d : Decision =
      if below_barrier barrier r then stuck (mark_parked rank_barrier (r, s)) else decide w r s in
    drain_loop-Safe w rs (if below_barrier barrier r then barrier else barrier_after barrier d)
      (state_after d)
      (if_cases (λ x. Safe (state_after x)) (below_barrier barrier r)
        (stuck (mark_parked rank_barrier (r, s))) (decide w r s)
        (λ _. Safe-Still s _ (mark_parked-Still rank_barrier (r, s)) h) (λ _. decide-Safe w r s h))

drain_all-Safe : (w : World) (rs : List HandlerReq) (s : Fifo) → Safe s → Safe (drain_all w rs s)
unfolding drain_all kv_warm_prune
drain_all-Safe w [] s h = h
drain_all-Safe w (r ∷ rs) s h = drain_loop-Safe w (r ∷ rs) none s h

pub drain_queue-Safe : (w : World) (s : Fifo) → Safe s → Safe (drain_queue w s)
unfolding drain_queue
drain_queue-Safe w s h = drain_all-Safe w s.queued s h

queue_stuck-Safe : (d : Decision) → Safe (state_after d) → Safe (queue_stuck d)
unfolding enqueue
queue_stuck-Safe (stuck p) h = h
queue_stuck-Safe (settled s) h = h

pub reject-Still :
    (w : World) (r : HandlerReq) (e : Option Error) (s : Fifo) → Still s (send_admission w r e s).1
unfolding send_admission
reject-Still w r e s = ground arith

place-Safe :
    (w : World) (state : ProcessState) (r : HandlerReq) (s : Fifo)
    → Safe s
    → Safe (place w state r s)
unfolding place
place-Safe w state r s h =
    if_cases Safe (penalty_held w r s) _ _
      (λ _. Safe-Still s (mark_parked penalized (r, s)).1 (mark_parked-Still penalized (r, s)) h)
      (λ _.
        if_cases Safe (blocked_by_rank_barrier r s) _ _
          (λ _.
            queue_stuck-Safe (stuck (mark_parked rank_barrier (r, s)))
              (Safe-Still s _ (mark_parked-Still rank_barrier (r, s)) h))
          (λ _. queue_stuck-Safe (route w state r s) (route-Safe w state r s h)))

on_known_request-Safe :
    (w : World) (state : ProcessState) (r : HandlerReq) (s : Fifo)
    → Safe s
    → Safe (on_known_request w state r s)
unfolding on_known_request admit reject_admission
on_known_request-Safe w state r s h =
    let admitted = Safe-Still s _ (reject-Still w r none s) h in
    if_cases Safe (r.status_read && not (is_ready state) && not (is_active r.model s.active)) _ _
      (λ _. Safe-Still s _ (reject-Still w r (some model_not_loaded) s) h)
      (λ _.
        if_cases Safe (not (admit w r s).0) _ _ (λ _. admitted)
          (λ _. place-Safe w state _ _ admitted))

pub on_request-Safe : (w : World) (r : HandlerReq) (s : Fifo) → Safe s → Safe (on_request w r s)
unfolding on_request reject_admission
on_request-Safe w r s h = elim (Option-cases (w.model_state r.model)) [
  | inl e ↦ rw (e, on_request) (Safe-Still s _ (reject-Still w r (some model_not_found) s) h)
  | inr (state, e) ↦ rw (e, on_request) (on_known_request-Safe w state r s h)
]

pub SafeSwaps-cancel :
    (r : HandlerReq) (f : String → ℕ) (active : List ActiveSwap)
    → SafeSwaps f active
    → SafeSwaps f (map (without_waiter r) active)
SafeSwaps-cancel r f active h = record { idle = idles active h.idle; apart = aparts active h.apart }
  where
    idles : (a : List ActiveSwap) → Idle f a → Idle f (map (without_waiter r) a)
    idles [] i = tt
    idles (sw ∷ rest) i = (i.0, idles rest i.1)

    each :
        (x : ActiveSwap) (a : List ActiveSwap)
        → All (SwapsApart x) a
        → All (SwapsApart x) (map (without_waiter r) a)
    each x [] i = tt
    each x (sw ∷ rest) i = (i.0, each x rest i.1)

    aparts : (a : List ActiveSwap) → Apart a → Apart (map (without_waiter r) a)
    aparts [] i = tt
    aparts (sw ∷ rest) i = (each sw rest i.0, aparts rest i.1)

pub SafeSwaps-keep :
    (p : ActiveSwap → Bool) (f : String → ℕ) (active : List ActiveSwap)
    → SafeSwaps f active
    → SafeSwaps f (keep p active)
SafeSwaps-keep p f active h = record {
  idle = each (λ sw. conflicts_with_in_flight sw.evict f ≡ false) active h.idle;
  apart = aparts active h.apart;
}
  where
    each : (P : ActiveSwap → Type 0) (a : List ActiveSwap) → All P a → All P (keep p a)
    each P [] i = tt
    each P (sw ∷ rest) i =
        if_cases (All P) (p sw) (sw ∷ keep p rest) (keep p rest) (λ _. (i.0, each P rest i.1))
          (λ _. each P rest i.1)

    aparts : (a : List ActiveSwap) → Apart a → Apart (keep p a)
    aparts [] i = tt
    aparts (sw ∷ rest) i =
        if_cases Apart (p sw) (sw ∷ keep p rest) (keep p rest)
          (λ _. (each (SwapsApart sw) rest i.0, aparts rest i.1)) (λ _. aparts rest i.1)
