-- ===== src/Scheduler/Queue/Histories.antt =====
-- fifo.go: the other handlers, whole histories, and the order of the queue.
use llama_swap_macos_extende.Prelude.{
  ◌≡◌, refl, List, [], ◌∷◌, String, Bool, false, not, if_cases, inl, inr, Option-cases, keep,
  All-keep,
}
use llama_swap_macos_extende.Prelude.Int.{ℤ}
use llama_swap_macos_extende.Scheduler.Types.{
  HandlerReq, World, Fifo, FifoConfig, SwapDone, ServeDoneEvent, Error, grant_error, kv, cap,
}
use llama_swap_macos_extende.Scheduler.Park.{emit, mark_kv_parked}
use llama_swap_macos_extende.Scheduler.Swaps.{find_swap}
use llama_swap_macos_extende.Scheduler.Admission.{at_capacity, kv_admit, release_kv}
use llama_swap_macos_extende.Scheduler.Grace.{
  consume_forced, consume_grace_expired_forced, finish_cooldown,
}
use llama_swap_macos_extende.Scheduler.KvWarm.{
  kv_warm_end_cooldowns, kv_warm_forget, end_slot_cooldown,
}
use llama_swap_macos_extende.Scheduler.Queue.{goes_before}
use llama_swap_macos_extende.Scheduler.Events.{
  contended, penalty_held_under, on_cancel, release_waiter, is_nil, release_waiters, on_swap_done,
  serve_done_count, on_serve_done, release_loop, release_penalized, on_tick, on_unload, on_shutdown,
  grant_errors, waiters_of,
}
use llama_swap_macos_extende.Scheduler.Setup.{
  Event, request, cancel, swap_done, serve_done, tick, unload, shutdown, finish, end_slot, step,
  run, new_fifo, ModelConfig,
}
use llama_swap_macos_extende.Scheduler.Queue.Order.{IsSorted}
use llama_swap_macos_extende.Scheduler.Queue.Lines.{
  Lines, Lines-refl, Lines-trans, SortedBy, SortedBy-Lines, mark_parked-Filed, mark_kv_parked-Filed,
  Filed-trans, release_kv-Lines, serve_done_count-Lines, kv_warm_on_done-Lines,
  expire_forced_grace-Lines,
}
use llama_swap_macos_extende.Scheduler.Queue.Decide.{grant_handler-Lines}
use llama_swap_macos_extende.Scheduler.Queue.Passes.{drain_queue-SortedBy}
use llama_swap_macos_extende.Scheduler.Queue.Arrivals.{enqueue-SortedBy, on_request-SortedBy}

release_waiter-SortedBy :
    (p : String → ℤ) (w : World) (ev : SwapDone) (r : HandlerReq) (s : Fifo)
    → SortedBy p s
    → SortedBy p (release_waiter w ev r s)
unfolding release_waiter
release_waiter-SortedBy p w ev r s h = elim (Option-cases ev.err) [
  | inr (e, y) ↦ rw (y, release_waiter) h
  | inl n ↦
      let capped = (mark_parked-Filed cap (r, s)).lines in
      let parked =
        Filed-trans (mark_kv_parked-Filed (r, s)) (mark_parked-Filed kv (mark_kv_parked (r, s))) in
      rw (n, release_waiter)
        (if_cases (SortedBy p) (at_capacity r s) _ _
          (λ _. enqueue-SortedBy p _ _ (SortedBy-Lines p s _ capped h))
          (λ _.
            if_cases (SortedBy p) (not (kv_admit r.model r.estimated_tokens s)) _ _
              (λ _. enqueue-SortedBy p _ _ (SortedBy-Lines p s _ parked.lines h))
              (λ _. SortedBy-Lines p s _ (grant_handler-Lines w r ev.model_id s) h)))
]

release_waiters-SortedBy :
    (p : String → ℤ) (w : World) (ev : SwapDone) (rs : List HandlerReq) (s : Fifo)
    → SortedBy p s
    → SortedBy p (release_waiters w ev rs s)
unfolding release_waiters
release_waiters-SortedBy p w ev [] s h = h
release_waiters-SortedBy p w ev (r ∷ rs) s h =
    release_waiters-SortedBy p w ev rs (release_waiter w ev r s)
      (release_waiter-SortedBy p w ev r s h)

on_swap_done-SortedBy :
    (p : String → ℤ) (w : World) (ev : SwapDone) (s : Fifo)
    → SortedBy p s
    → SortedBy p (on_swap_done w ev s)
unfolding on_swap_done
on_swap_done-SortedBy p w ev s h = elim (Option-cases (find_swap ev.model_id s.active)) [
  | inl e ↦ rw (e, on_swap_done) h
  | inr (sw, e) ↦
      rw (e, on_swap_done)
        (drain_queue-SortedBy p w _ (release_waiters-SortedBy p w ev sw.waiters _ h))
]

on_serve_done-SortedBy :
    (p : String → ℤ) (w : World) (ev : ServeDoneEvent) (s : Fifo)
    → SortedBy p s
    → SortedBy p (on_serve_done w ev s)
unfolding on_serve_done
on_serve_done-SortedBy p w ev s h =
    let s1 = serve_done_count w ev s in
    let s2 = (release_kv ev.model_id ev.estimated_tokens ev.ctx s1).1 in
    if_cases (SortedBy p) ev.status_read _ _ (λ _. h)
      (λ _.
        if_cases (SortedBy p) ev.cap_release_only _ _ (λ _. drain_queue-SortedBy p w _ h)
          (λ _. drain_queue-SortedBy p w _ (
            SortedBy-Lines p s _
              (Lines-trans (serve_done_count-Lines w ev s) (
                Lines-trans (release_kv-Lines ev.model_id ev.estimated_tokens ev.ctx s1)
                  (kv_warm_on_done-Lines w ev s2)))
              h)))

release_loop-SortedBy :
    (p : String → ℤ) (w : World) (c : Bool) (rs : List HandlerReq) (s : Fifo)
    → SortedBy p s
    → SortedBy p (release_loop w c rs s).1
unfolding release_loop
release_loop-SortedBy p w c [] s h = h
release_loop-SortedBy p w c (r ∷ rs) s h = release_loop-SortedBy p w c rs _ (
    if_cases (SortedBy p) (penalty_held_under w c r s) _ _ (λ _. h) (λ _. enqueue-SortedBy p r s h))

on_tick-SortedBy : (p : String → ℤ) (w : World) (s : Fifo) → SortedBy p s → SortedBy p (on_tick w s)
unfolding on_tick release_penalized consume_forced consume_grace_expired_forced
    kv_warm_end_cooldowns
on_tick-SortedBy p w s h =
    let s1 = release_penalized w s in
    let h1 : SortedBy p s1 = release_loop-SortedBy p w (contended s) s.penalized_reqs s h in
    drain_queue-SortedBy p w _ (
      if_cases (SortedBy p) (is_nil s1.queued) _ _
        (λ _.
          SortedBy-Lines p (record s1 { cooldown_forced = false }) _ (expire_forced_grace-Lines w _)
            h1)
        (λ _. if_cases (SortedBy p) s1.grace_expired_forced _ _ (λ _. h1) (λ _. h1)))

keep-IsSorted :
    (p : String → ℤ) (f : HandlerReq → Bool) (rs : List HandlerReq)
    → IsSorted p rs
    → IsSorted p (keep f rs)
keep-IsSorted p f [] h = tt
keep-IsSorted p f (r ∷ rs) h =
    if_cases (IsSorted p) (f r) (r ∷ keep f rs) (keep f rs)
      (λ _. (All-keep (λ x. goes_before p x r ≡ false) f rs h.0, keep-IsSorted p f rs h.1))
      (λ _. keep-IsSorted p f rs h.1)

grant_errors-Lines : (e : Error) (rs : List HandlerReq) (s : Fifo) → Lines s (grant_errors e rs s)
unfolding grant_errors
grant_errors-Lines e [] s = Lines-refl s
grant_errors-Lines e (r ∷ rs) s =
    let rest = grant_errors-Lines e rs (emit (grant_error r.respond e) s) in
    record { priority = rest.priority; queued = rest.queued }

grant_errors-SortedBy :
    (p : String → ℤ) (e : Error) (rs : List HandlerReq) (s : Fifo)
    → SortedBy p s
    → SortedBy p (grant_errors e rs s)
grant_errors-SortedBy p e rs s h = SortedBy-Lines p s _ (grant_errors-Lines e rs s) h

on_unload-SortedBy :
    (p : String → ℤ) (w : World) (targets : List String) (s : Fifo)
    → SortedBy p s
    → SortedBy p (on_unload w targets s)
unfolding on_unload kv_warm_forget
on_unload-SortedBy p w targets s h =
    let s4 =
      grant_errors-SortedBy p _ _ _
        (grant_errors-SortedBy p _ _ _ (grant_errors-SortedBy p _ _ _ h)) in
    drain_queue-SortedBy p w _ (s4.0, keep-IsSorted p _ _ s4.1)

step-SortedBy :
    (p : String → ℤ) (w : World) (e : Event) (s : Fifo) → SortedBy p s → SortedBy p (step w e s)
unfolding step on_cancel finish_cooldown end_slot_cooldown on_shutdown
step-SortedBy p w (request r) s h = on_request-SortedBy p w r s h
step-SortedBy p w (cancel r) s h = (h.0, keep-IsSorted p _ s.queued h.1)
step-SortedBy p w (swap_done ev) s h = on_swap_done-SortedBy p w ev s h
step-SortedBy p w (serve_done ev) s h = on_serve_done-SortedBy p w ev s h
step-SortedBy p w tick s h = on_tick-SortedBy p w s h
step-SortedBy p w (unload targets) s h = on_unload-SortedBy p w targets s h
step-SortedBy p w (shutdown e) s h =
    grant_errors-SortedBy p e _ _
      (grant_errors-SortedBy p e _ _ (grant_errors-SortedBy p e (waiters_of s.active) s h))
step-SortedBy p w finish s h = h
step-SortedBy p w (end_slot session) s h = h

run-SortedBy :
    (p : String → ℤ) (es : List (World × Event)) (s : Fifo) → SortedBy p s → SortedBy p (run es s)
unfolding run
run-SortedBy p [] s h = h
run-SortedBy p ((w, e) ∷ es) s h = run-SortedBy p es (step w e s) (step-SortedBy p w e s h)

-- After any history of events the queue is sorted by rank, then by the configured priority of the
-- model, then by arrival.
pub run-new_fifo-IsSorted :
    (cfg : FifoConfig) (models : List (String × ModelConfig)) (es : List (World × Event))
    → IsSorted cfg.priority (run es (new_fifo cfg models)).queued
unfolding new_fifo
run-new_fifo-IsSorted cfg models es =
    (run-SortedBy cfg.priority es (new_fifo cfg models) (refl, tt)).1
