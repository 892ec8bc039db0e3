-- ===== src/Scheduler/Capacity/Histories.antt =====
-- fifo.go: the other handlers, whole histories, and the limits.
use llama_swap_macos_extende.Prelude.{
  ◌≤◌, Bool, false, String, List, [], ◌∷◌, All, arith, if_cases, if◌then◌else◌, All-keep, map,
}
use llama_swap_macos_extende.Scheduler.Types.{
  HandlerReq, World, Fifo, ActiveSwap, FifoConfig, Error, grant_error,
}
use llama_swap_macos_extende.Scheduler.Park.{emit}
use llama_swap_macos_extende.Scheduler.Queue.{enqueue}
use llama_swap_macos_extende.Scheduler.Admission.{limit}
use llama_swap_macos_extende.Scheduler.Grace.{
  consume_forced, consume_grace_expired_forced, finish_cooldown,
}
use llama_swap_macos_extende.Scheduler.KvWarm.{
  kv_warm_end_cooldowns, kv_warm_forget, end_slot_cooldown,
}
use llama_swap_macos_extende.Scheduler.Events.{
  contended, penalty_held_under, without_waiter, on_cancel, is_nil, release_loop, release_penalized,
  expire_forced_grace, on_tick, on_unload, on_shutdown, grant_errors, waiters_of,
}
use llama_swap_macos_extende.Scheduler.Setup.{
  Event, request, cancel, swap_done, serve_done, tick, unload, shutdown, finish, end_slot, step,
  run, new_fifo, ModelConfig,
}
use llama_swap_macos_extende.Scheduler.Conserve.Effects.{expire_forced_grace-Quiet}
use llama_swap_macos_extende.Scheduler.Safety.Steps.{expire_forced_grace-Still}
use llama_swap_macos_extende.Scheduler.Capacity.{
  Ordinary, Waiter, Waiters, Capped, Calm, Capped-Calm,
}
use llama_swap_macos_extende.Scheduler.Capacity.Passes.{
  enqueue-Capped, on_request-Capped, drain_queue-Capped,
}
use llama_swap_macos_extende.Scheduler.Capacity.Handlers.{on_swap_done-Capped, on_serve_done-Capped}

release_loop-Capped :
    (w : World) (c : Bool) (rs : List HandlerReq) (s : Fifo)
    → All Ordinary rs
    → Capped s
    → All Ordinary (release_loop w c rs s).0 × Capped (release_loop w c rs s).1
unfolding release_loop
release_loop-Capped w c [] s o h = (tt, h)
release_loop-Capped w c (r ∷ rs) s o h =
    let rest =
      release_loop-Capped w c rs (if penalty_held_under w c r s then s else enqueue r s) o.1 (
        if_cases Capped (penalty_held_under w c r s) _ _ (λ _. h)
          (λ _. enqueue-Capped r s o.0 h)) in
    (
      if_cases (All Ordinary) (penalty_held_under w c r s) (r ∷ _) _ (λ _. (o.0, rest.0))
          (λ _. rest.0),
      rest.1,
    )

expire_forced_grace-Calm : (w : World) (s : Fifo) → Calm s (expire_forced_grace w s)
expire_forced_grace-Calm w s = record {
  still = expire_forced_grace-Still w s;
  quiet = expire_forced_grace-Quiet w s;
}

on_tick-Capped : (w : World) (s : Fifo) → Capped s → Capped (on_tick w s)
unfolding on_tick release_penalized consume_forced consume_grace_expired_forced
    kv_warm_end_cooldowns limit
on_tick-Capped w s h =
    let s1 = release_penalized w s in
    let p = release_loop-Capped w (contended s) s.penalized_reqs s h.held h in
    let k = p.1 in
    let h1 : Capped (record s1 { cooldown_forced = false }) = record {
      cap = k.cap;
      queued = k.queued;
      held = p.0;
      swaps = k.swaps;
    } in
    let expired =
      Capped-Calm (record s1 { cooldown_forced = false }) _ (expire_forced_grace-Calm w _) h1 in
    drain_queue-Capped w _ (
      if_cases Capped (is_nil s1.queued) _ _
        (λ _. record {
          cap = expired.cap;
          queued = expired.queued;
          held = expired.held;
          swaps = expired.swaps;
        })
        (λ _.
          if_cases Capped s1.grace_expired_forced _ _
            (λ _. record { cap = k.cap; queued = k.queued; held = p.0; swaps = k.swaps })
            (λ _. record { cap = k.cap; queued = k.queued; held = p.0; swaps = k.swaps })))

on_cancel-Capped : (r : HandlerReq) (s : Fifo) → Capped s → Capped (on_cancel r s)
unfolding on_cancel limit
on_cancel-Capped r s h = record {
  cap = h.cap;
  queued = All-keep Ordinary _ s.queued h.queued;
  held = All-keep Ordinary _ s.penalized_reqs h.held;
  swaps = fewer s.active h.swaps;
}
  where
    fewer :
        (active : List ActiveSwap)
        → All Waiters active
        → All Waiters (map (without_waiter r) active)
    fewer [] k = tt
    fewer (sw ∷ rest) k = (All-keep (Waiter sw.model_id) _ sw.waiters k.0, fewer rest k.1)

grant_errors-Capped :
    (e : Error) (rs : List HandlerReq) (s : Fifo) → Capped s → Capped (grant_errors e rs s)
unfolding grant_errors limit
grant_errors-Capped e [] s h = h
grant_errors-Capped e (r ∷ rs) s h =
    grant_errors-Capped e rs (emit (grant_error r.respond e) s)
      (record { cap = h.cap; queued = h.queued; held = h.held; swaps = h.swaps })

on_unload-Capped :
    (w : World) (targets : List String) (s : Fifo) → Capped s → Capped (on_unload w targets s)
unfolding on_unload kv_warm_forget limit
on_unload-Capped w targets s h =
    let s1 : Capped (kv_warm_forget targets s) = record {
      cap = h.cap;
      queued = h.queued;
      held = h.held;
      swaps = h.swaps;
    } in
    let s4 = grant_errors-Capped _ _ _ (grant_errors-Capped _ _ _ (grant_errors-Capped _ _ _ s1)) in
    drain_queue-Capped w _ (record {
      cap = s4.cap;
      queued = All-keep Ordinary _ _ s4.queued;
      held = All-keep Ordinary _ _ s4.held;
      swaps = All-keep Waiters _ _ s4.swaps;
    })

-- An arrival is not exempt from the limits; other events are free.
abbrev pub Plain : Event → Type 0
Plain (request r) = Ordinary r
Plain _ = Unit

step-Capped : (w : World) (e : Event) (s : Fifo) → Plain e → Capped s → Capped (step w e s)
unfolding step finish_cooldown end_slot_cooldown on_shutdown limit
step-Capped w (request r) s o h = on_request-Capped w r s o h
step-Capped w (cancel r) s o h = on_cancel-Capped r s h
step-Capped w (swap_done ev) s o h = on_swap_done-Capped w ev s h
step-Capped w (serve_done ev) s o h = on_serve_done-Capped w ev s h
step-Capped w tick s o h = on_tick-Capped w s h
step-Capped w (unload targets) s o h = on_unload-Capped w targets s h
step-Capped w (shutdown e) s o h =
    grant_errors-Capped e _ _
      (grant_errors-Capped e _ _ (grant_errors-Capped e (waiters_of s.active) s h))
step-Capped w finish s o h = record {
  cap = h.cap;
  queued = h.queued;
  held = h.held;
  swaps = h.swaps;
}
step-Capped w (end_slot session) s o h = record {
  cap = h.cap;
  queued = h.queued;
  held = h.held;
  swaps = h.swaps;
}

run-Capped :
    (es : List (World × Event)) (s : Fifo)
    → All (λ (p : World × Event). Plain p.1) es
    → Capped s
    → Capped (run es s)
unfolding run
run-Capped [] s o h = h
run-Capped ((w, e) ∷ es) s o h = run-Capped es (step w e s) o.1 (step-Capped w e s o.0 h)

-- After any history whose arrivals are not exempt from the concurrency limits, no model has more
-- counted requests in flight than its limit.
pub run-new_fifo-limit :
    (cfg : FifoConfig) (models : List (String × ModelConfig)) (es : List (World × Event))
    → All (λ (p : World × Event). Plain p.1) es
    → (m : String) → let s = run es (new_fifo cfg models) in s.in_flight m ≤ limit s m
unfolding new_fifo
run-new_fifo-limit cfg models es o m =
    (run-Capped es (new_fifo cfg models) o
        (record { cap = λ n. omega arith; queued = tt; held = tt; swaps = tt })).cap
      m
