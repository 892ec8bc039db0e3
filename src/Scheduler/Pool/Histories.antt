-- ===== src/Scheduler/Pool/Histories.antt =====
-- fifo.go: the other handlers, whole histories, and the KV pool.
use llama_swap_macos_extende.Prelude.{
  ℕ, ◌≡◌, ◌⊎◌, inr, ◌≤◌, Bool, false, String, List, [], ◌∷◌, All, arith, if_cases, if◌then◌else◌,
  All-keep, map,
}
use llama_swap_macos_extende.Scheduler.Types.{
  HandlerReq, World, Fifo, ActiveSwap, FifoConfig, Error, grant_error,
}
use llama_swap_macos_extende.Scheduler.Park.{emit}
use llama_swap_macos_extende.Scheduler.Queue.{enqueue}
use llama_swap_macos_extende.Scheduler.Grace.{
  consume_forced, consume_grace_expired_forced, finish_cooldown,
}
use llama_swap_macos_extende.Scheduler.KvWarm.{
  kv_warm_end_cooldowns, kv_warm_forget, end_slot_cooldown,
}
use llama_swap_macos_extende.Scheduler.Events.{
  contended, penalty_held_under, without_waiter, on_cancel, is_nil, release_loop, release_penalized,
  expire_forced_grace, on_tick, on_unload, on_shutdown, grant_errors, waiters_of,
}
use llama_swap_macos_extende.Scheduler.Setup.{
  Event, request, cancel, swap_done, serve_done, tick, unload, shutdown, finish, end_slot, step,
  run, new_fifo, ModelConfig,
}
use llama_swap_macos_extende.Scheduler.Conserve.Effects.{expire_forced_grace-Quiet}
use llama_swap_macos_extende.Scheduler.Pool.{
  expire_forced_grace-Level, IsWithin, Waiter, Waiters, Pooled, Calm, Pooled-Calm,
}
use llama_swap_macos_extende.Scheduler.Pool.Passes.{
  enqueue-Pooled, on_request-Pooled, drain_queue-Pooled,
}
use llama_swap_macos_extende.Scheduler.Pool.Handlers.{on_swap_done-Pooled, on_serve_done-Pooled}

release_loop-Pooled :
    (most : ℕ) (w : World) (c : Bool) (rs : List HandlerReq) (s : Fifo)
    → All (IsWithin most) rs
    → Pooled most s
    → All (IsWithin most) (release_loop w c rs s).0 × Pooled most (release_loop w c rs s).1
unfolding release_loop
release_loop-Pooled most w c [] s o h = (tt, h)
release_loop-Pooled most w c (r ∷ rs) s o h =
    let rest =
      release_loop-Pooled most w c rs (if penalty_held_under w c r s then s else enqueue r s) o.1 (
        if_cases (Pooled most) (penalty_held_under w c r s) _ _ (λ _. h)
          (λ _. enqueue-Pooled most r s o.0 h)) in
    (
      if_cases (All (IsWithin most)) (penalty_held_under w c r s) (r ∷ _) _ (λ _. (o.0, rest.0))
          (λ _. rest.0),
      rest.1,
    )

expire_forced_grace-Calm : (w : World) (s : Fifo) → Calm s (expire_forced_grace w s)
expire_forced_grace-Calm w s = record {
  level = expire_forced_grace-Level w s;
  quiet = expire_forced_grace-Quiet w s;
}

on_tick-Pooled : (most : ℕ) (w : World) (s : Fifo) → Pooled most s → Pooled most (on_tick w s)
unfolding on_tick release_penalized consume_forced consume_grace_expired_forced
    kv_warm_end_cooldowns
on_tick-Pooled most w s h =
    let s1 = release_penalized w s in
    let p = release_loop-Pooled most w (contended s) s.penalized_reqs s h.held h in
    let k = p.1 in
    let h1 : Pooled most (record s1 { cooldown_forced = false }) = record {
      bound = k.bound;
      queued = k.queued;
      held = p.0;
      swaps = k.swaps;
    } in
    let expired =
      Pooled-Calm most (record s1 { cooldown_forced = false }) _ (expire_forced_grace-Calm w _)
        h1 in
    drain_queue-Pooled most w _ (
      if_cases (Pooled most) (is_nil s1.queued) _ _
        (λ _. record {
          bound = expired.bound;
          queued = expired.queued;
          held = expired.held;
          swaps = expired.swaps;
        })
        (λ _.
          if_cases (Pooled most) s1.grace_expired_forced _ _
            (λ _. record { bound = k.bound; queued = k.queued; held = p.0; swaps = k.swaps })
            (λ _. record { bound = k.bound; queued = k.queued; held = p.0; swaps = k.swaps })))

on_cancel-Pooled :
    (most : ℕ) (r : HandlerReq) (s : Fifo) → Pooled most s → Pooled most (on_cancel r s)
unfolding on_cancel
on_cancel-Pooled most r s h = record {
  bound = h.bound;
  queued = All-keep (IsWithin most) _ s.queued h.queued;
  held = All-keep (IsWithin most) _ s.penalized_reqs h.held;
  swaps = fewer s.active h.swaps;
}
  where
    fewer :
        (active : List ActiveSwap)
        → All (Waiters most) active
        → All (Waiters most) (map (without_waiter r) active)
    fewer [] k = tt
    fewer (sw ∷ rest) k = (All-keep (Waiter most sw.model_id) _ sw.waiters k.0, fewer rest k.1)

grant_errors-Pooled :
    (most : ℕ) (e : Error) (rs : List HandlerReq) (s : Fifo)
    → Pooled most s
    → Pooled most (grant_errors e rs s)
unfolding grant_errors
grant_errors-Pooled most e [] s h = h
grant_errors-Pooled most e (r ∷ rs) s h =
    grant_errors-Pooled most e rs (emit (grant_error r.respond e) s)
      (record { bound = h.bound; queued = h.queued; held = h.held; swaps = h.swaps })

on_unload-Pooled :
    (most : ℕ) (w : World) (targets : List String) (s : Fifo)
    → Pooled most s
    → Pooled most (on_unload w targets s)
unfolding on_unload kv_warm_forget
on_unload-Pooled most w targets s h =
    let s1 : Pooled most (kv_warm_forget targets s) = record {
      bound = h.bound;
      queued = h.queued;
      held = h.held;
      swaps = h.swaps;
    } in
    let s4 =
      grant_errors-Pooled most _ _ _
        (grant_errors-Pooled most _ _ _ (grant_errors-Pooled most _ _ _ s1)) in
    drain_queue-Pooled most w _ (record {
      bound = s4.bound;
      queued = All-keep (IsWithin most) _ _ s4.queued;
      held = All-keep (IsWithin most) _ _ s4.held;
      swaps = All-keep (Waiters most) _ _ s4.swaps;
    })

-- The estimate of an arrival is within the bound; other events are free.
abbrev pub Plain : ℕ → Event → Type 0
Plain most (request r) = IsWithin most r
Plain most _ = Unit

step-Pooled :
    (most : ℕ) (w : World) (e : Event) (s : Fifo)
    → Plain most e
    → Pooled most s
    → Pooled most (step w e s)
unfolding step finish_cooldown end_slot_cooldown on_shutdown
step-Pooled most w (request r) s o h = on_request-Pooled most w r s o h
step-Pooled most w (cancel r) s o h = on_cancel-Pooled most r s h
step-Pooled most w (swap_done ev) s o h = on_swap_done-Pooled most w ev s h
step-Pooled most w (serve_done ev) s o h = on_serve_done-Pooled most w ev s h
step-Pooled most w tick s o h = on_tick-Pooled most w s h
step-Pooled most w (unload targets) s o h = on_unload-Pooled most w targets s h
step-Pooled most w (shutdown e) s o h =
    grant_errors-Pooled most e _ _
      (grant_errors-Pooled most e _ _ (grant_errors-Pooled most e (waiters_of s.active) s h))
step-Pooled most w finish s o h = record {
  bound = h.bound;
  queued = h.queued;
  held = h.held;
  swaps = h.swaps;
}
step-Pooled most w (end_slot session) s o h = record {
  bound = h.bound;
  queued = h.queued;
  held = h.held;
  swaps = h.swaps;
}

run-Pooled :
    (most : ℕ) (es : List (World × Event)) (s : Fifo)
    → All (λ (p : World × Event). Plain most p.1) es
    → Pooled most s
    → Pooled most (run es s)
unfolding run
run-Pooled most [] s o h = h
run-Pooled most ((w, e) ∷ es) s o h =
    run-Pooled most es (step w e s) o.1 (step-Pooled most w e s o.0 h)

-- After any history in which no arrival is estimated at more than a given number of tokens, the KV
-- tokens in flight of a model that has a KV pool are within the pool or within that number.
pub run-new_fifo-kv_in_flight :
    (most : ℕ) (cfg : FifoConfig) (models : List (String × ModelConfig)) (es : List (World × Event))
    → All (λ (p : World × Event). Plain most p.1) es
    → (m : String)
    → let s = run es (new_fifo cfg models) in
      (s.cfg.kv_pool_tokens m ≡ 0)
      ⊎ (s.kv_in_flight m ≤ s.cfg.kv_pool_tokens m)
      ⊎ (s.kv_in_flight m ≤ most)
unfolding new_fifo
run-new_fifo-kv_in_flight most cfg models es o m =
    (run-Pooled most es (new_fifo cfg models) o
        (record { bound = λ n. inr (inr (omega arith)); queued = tt; held = tt; swaps = tt })).bound
      m
