-- ===== src/Scheduler/Safety/Steps.antt =====
-- fifo.go: the remaining handlers, whole histories, and the active swaps.
use llama_swap_macos_extende.Prelude.{
  ℕ, ◌-◌, ◌≡◌, refl, Bool, false, String, List, [], ◌∷◌, arith, if_cases, inl, inr, Bool-cases,
  Option-cases, update, if◌then◌else◌,
}
use llama_swap_macos_extende.Scheduler.Types.{
  HandlerReq, World, Fifo, FifoConfig, SwapDone, ServeDoneEvent, Error, kv, cap, grant_error,
}
use llama_swap_macos_extende.Scheduler.Park.{emit, mark_kv_parked}
use llama_swap_macos_extende.Scheduler.Queue.{enqueue}
use llama_swap_macos_extende.Scheduler.Swaps.{find_swap}
use llama_swap_macos_extende.Scheduler.Admission.{at_capacity, kv_admit, release_kv}
use llama_swap_macos_extende.Scheduler.Grace.{
  consume_forced, consume_grace_expired_forced, finish_cooldown,
}
use llama_swap_macos_extende.Scheduler.KvWarm.{
  kv_warm_on_done, kv_warm_end_cooldowns, kv_warm_forget, end_slot_cooldown,
}
use llama_swap_macos_extende.Scheduler.Events.{
  contended, penalty_held_under, on_cancel, release_waiter, is_nil, release_waiters, on_swap_done,
  serve_done_count, on_serve_done, release_loop, release_penalized, expire_forced_grace, on_tick,
  on_unload, on_shutdown, grant_errors, waiters_of,
}
use llama_swap_macos_extende.Scheduler.Setup.{
  Event, request, cancel, swap_done, serve_done, tick, unload, shutdown, finish, end_slot, step,
  run, new_fifo, ModelConfig,
}
use llama_swap_macos_extende.Scheduler.Safety.{
  Safe, Still, Still-trans, Safe-Still, mark_parked-Still, mark_kv_parked-Still,
}
use llama_swap_macos_extende.Scheduler.Safety.Tables.{
  Spared, Idle-lower, Spared-delete, SafeSwaps-delete,
}
use llama_swap_macos_extende.Scheduler.Safety.Route.{grant_handler-Granted, Granted-Safe}
use llama_swap_macos_extende.Scheduler.Safety.Events.{
  drain_queue-Safe, on_request-Safe, SafeSwaps-cancel, SafeSwaps-keep,
}

-- While waiters are released, no other swap evicts their model.
abbrev SparedSafe : String → Fifo → Type 0
SparedSafe m s = Safe s × Spared m s.active

SparedSafe-Still : (m : String) (s t : Fifo) → Still s t → SparedSafe m s → SparedSafe m t
SparedSafe-Still m s t q h = rw (q.in_flight, q.active) h

release_waiter-SparedSafe :
    (w : World) (ev : SwapDone) (r : HandlerReq) (s : Fifo)
    → SparedSafe ev.model_id s
    → SparedSafe ev.model_id (release_waiter w ev r s)
unfolding release_waiter enqueue
release_waiter-SparedSafe w ev r s h = elim (Option-cases ev.err) [
  | inr (e, y) ↦ rw (y, release_waiter) h
  | inl n ↦ elim (Bool-cases (at_capacity r s)) [
    | inl c ↦
        rw (n, release_waiter, c)
          (SparedSafe-Still ev.model_id s _ (mark_parked-Still cap (r, s)) h)
    | inr c ↦ elim (Bool-cases (kv_admit r.model r.estimated_tokens s)) [
      | inr k ↦
          rw (n, release_waiter, c, k)
            (SparedSafe-Still ev.model_id s _
              (Still-trans (mark_kv_parked-Still (r, s))
                (mark_parked-Still kv (mark_kv_parked (r, s))))
              h)
      | inl k ↦
          let g = grant_handler-Granted w r ev.model_id s in
          rw (n, release_waiter, c, k) (Granted-Safe ev.model_id s _ g h.1 h.0, rw g.active h.1)
    ]
  ]
]

release_waiters-Safe :
    (w : World) (ev : SwapDone) (rs : List HandlerReq) (s : Fifo)
    → SparedSafe ev.model_id s
    → Safe (release_waiters w ev rs s)
unfolding release_waiters
release_waiters-Safe w ev [] s h = h.0
release_waiters-Safe w ev (r ∷ rs) s h =
    release_waiters-Safe w ev rs (release_waiter w ev r s) (release_waiter-SparedSafe w ev r s h)

on_swap_done-Safe : (w : World) (ev : SwapDone) (s : Fifo) → Safe s → Safe (on_swap_done w ev s)
unfolding on_swap_done
on_swap_done-Safe w ev s h = elim (Option-cases (find_swap ev.model_id s.active)) [
  | inl e ↦ rw (e, on_swap_done) h
  | inr (sw, e) ↦
      rw (e, on_swap_done)
        (drain_queue-Safe w _ (
          release_waiters-Safe w ev sw.waiters _ (
            SafeSwaps-delete ev.model_id s.in_flight s.active h,
            Spared-delete ev.model_id s.active sw e h.apart,
          )))
]

pub serve_done_count-tables :
    (w : World) (ev : ServeDoneEvent) (s : Fifo)
    → ((serve_done_count w ev s).active ≡ s.active)
      × ((serve_done_count w ev s).in_flight
          ≡ update s.in_flight ev.model_id
              (if ev.cap_released then s.in_flight ev.model_id else s.in_flight ev.model_id - 1))
unfolding serve_done_count
serve_done_count-tables w ev s = ground arith

-- A completion lowers a count, or leaves it.
serve_done_count-Safe :
    (w : World) (ev : ServeDoneEvent) (s : Fifo) → Safe s → Safe (serve_done_count w ev s)
serve_done_count-Safe w ev s h =
    let (active, in_flight) = serve_done_count-tables w ev s in
    rw (active, in_flight)
      (record {
        idle = Idle-lower ev.model_id _ s.in_flight s.active (ground arith) h.idle;
        apart = h.apart;
      })

pub release_kv-Still :
    (m : String) (estimate c : ℕ) (s : Fifo) → Still s (release_kv m estimate c s).1
unfolding release_kv
release_kv-Still m estimate c s = ground arith

pub kv_warm_on_done-Still :
    (w : World) (ev : ServeDoneEvent) (s : Fifo) → Still s (kv_warm_on_done w ev s)
unfolding kv_warm_on_done
kv_warm_on_done-Still w ev s = ground arith

on_serve_done-Safe :
    (w : World) (ev : ServeDoneEvent) (s : Fifo) → Safe s → Safe (on_serve_done w ev s)
unfolding on_serve_done
on_serve_done-Safe w ev s h =
    let s1 = serve_done_count w ev s in
    let s2 = (release_kv ev.model_id ev.estimated_tokens ev.ctx s1).1 in
    if_cases Safe ev.status_read _ _ (λ _. h)
      (λ _.
        if_cases Safe ev.cap_release_only _ _
          (λ _. drain_queue-Safe w _ (record {
            idle = Idle-lower ev.model_id _ s.in_flight s.active (omega arith) h.idle;
            apart = h.apart;
          }))
          (λ _. drain_queue-Safe w _ (
            Safe-Still s1 _
              (Still-trans (release_kv-Still ev.model_id ev.estimated_tokens ev.ctx s1)
                (kv_warm_on_done-Still w ev s2))
              (serve_done_count-Safe w ev s h))))

release_loop-Still :
    (w : World) (c : Bool) (rs : List HandlerReq) (s : Fifo) → Still s (release_loop w c rs s).1
unfolding release_loop enqueue
release_loop-Still w c [] s = record { in_flight = refl; active = refl; limits = refl }
release_loop-Still w c (r ∷ rs) s = elim (Bool-cases (penalty_held_under w c r s)) [
  | inl h ↦ rw h (release_loop-Still w c rs s)
  | inr h ↦
      let rest = release_loop-Still w c rs (enqueue r s) in
      rw h (record { in_flight = rest.in_flight; active = rest.active; limits = rest.limits })
]

pub expire_forced_grace-Still : (w : World) (s : Fifo) → Still s (expire_forced_grace w s)
unfolding expire_forced_grace
expire_forced_grace-Still w s = ground arith

on_tick-Safe : (w : World) (s : Fifo) → Safe s → Safe (on_tick w s)
unfolding on_tick release_penalized consume_forced consume_grace_expired_forced
    kv_warm_end_cooldowns
on_tick-Safe w s h =
    let s1 = release_penalized w s in
    let h1 : Safe s1 = Safe-Still s _ (release_loop-Still w (contended s) s.penalized_reqs s) h in
    drain_queue-Safe w _ (
      if_cases Safe (is_nil s1.queued) _ _
        (λ _.
          Safe-Still (record s1 { cooldown_forced = false }) _ (expire_forced_grace-Still w _) h1)
        (λ _. if_cases Safe s1.grace_expired_forced _ _ (λ _. h1) (λ _. h1)))

grant_errors-Still : (e : Error) (rs : List HandlerReq) (s : Fifo) → Still s (grant_errors e rs s)
unfolding grant_errors
grant_errors-Still e [] s = record { in_flight = refl; active = refl; limits = refl }
grant_errors-Still e (r ∷ rs) s =
    let rest = grant_errors-Still e rs (emit (grant_error r.respond e) s) in
    record { in_flight = rest.in_flight; active = rest.active; limits = rest.limits }

grant_errors-Safe :
    (e : Error) (rs : List HandlerReq) (s : Fifo) → Safe s → Safe (grant_errors e rs s)
grant_errors-Safe e rs s h = Safe-Still s _ (grant_errors-Still e rs s) h

on_unload-Safe :
    (w : World) (targets : List String) (s : Fifo) → Safe s → Safe (on_unload w targets s)
unfolding on_unload kv_warm_forget
on_unload-Safe w targets s h = drain_queue-Safe w _ (
    SafeSwaps-keep _ _ _
      (grant_errors-Safe _ _ _ (grant_errors-Safe _ _ _ (grant_errors-Safe _ _ _ h))))

-- Every event keeps the swaps safe, whatever the rest of the program answers.
pub step-Safe : (w : World) (e : Event) (s : Fifo) → Safe s → Safe (step w e s)
unfolding step on_cancel finish_cooldown end_slot_cooldown on_shutdown
step-Safe w (request r) s h = on_request-Safe w r s h
step-Safe w (cancel r) s h = SafeSwaps-cancel r s.in_flight s.active h
step-Safe w (swap_done ev) s h = on_swap_done-Safe w ev s h
step-Safe w (serve_done ev) s h = on_serve_done-Safe w ev s h
step-Safe w tick s h = on_tick-Safe w s h
step-Safe w (unload targets) s h = on_unload-Safe w targets s h
step-Safe w (shutdown e) s h =
    grant_errors-Safe e _ _
      (grant_errors-Safe e _ _ (grant_errors-Safe e (waiters_of s.active) s h))
step-Safe w finish s h = h
step-Safe w (end_slot session) s h = h

run-Safe : (es : List (World × Event)) (s : Fifo) → Safe s → Safe (run es s)
unfolding run
run-Safe [] s h = h
run-Safe ((w, e) ∷ es) s h = run-Safe es (step w e s) (step-Safe w e s h)

-- After any history of events, whatever the planner, the processes and the callers answer, no
-- active swap evicts a model that has counted requests in flight (status reads are not counted),
-- and no active swap evicts the target of another.
pub run-new_fifo-Safe :
    (cfg : FifoConfig) (models : List (String × ModelConfig)) (es : List (World × Event))
    → Safe (run es (new_fifo cfg models))
unfolding new_fifo
run-new_fifo-Safe cfg models es =
    run-Safe es (new_fifo cfg models) (record { idle = tt; apart = tt })
