-- ===== src/Scheduler/Pool/Handlers.antt =====
-- fifo.go, OnSwapDone and OnServeDone: the ends of swaps and of requests, and the KV pool.
use llama_swap_macos_extende.Prelude.{
  ℕ, ◌≤◌, ◌≡◌, not, String, List, [], ◌∷◌, Option, none, some, All, arith, if_cases, inl, inr,
  Bool-cases, Option-cases, subst, str_eq, str_eq_iff,
}
use llama_swap_macos_extende.Scheduler.Types.{
  HandlerReq, World, Fifo, ActiveSwap, SwapDone, ServeDoneEvent, kv, cap,
}
use llama_swap_macos_extende.Scheduler.Park.{mark_kv_parked}
use llama_swap_macos_extende.Scheduler.Swaps.{find_swap}
use llama_swap_macos_extende.Scheduler.Admission.{at_capacity, kv_admit, release_kv}
use llama_swap_macos_extende.Scheduler.KvWarm.{kv_warm_on_done}
use llama_swap_macos_extende.Scheduler.Events.{
  release_waiter, release_waiters, on_swap_done, serve_done_count, on_serve_done,
}
use llama_swap_macos_extende.Scheduler.Conserve.Effects.{
  release_kv-Quiet, serve_done_count-Quiet, kv_warm_on_done-Quiet,
}
use llama_swap_macos_extende.Scheduler.Safety.Tables.{All-delete}
use llama_swap_macos_extende.Scheduler.Pool.{
  within, Bounded-le, serve_done_count-Level, kv_warm_on_done-Level, Waiter, Waiters, Pooled, Calm,
  Pooled-Calm, Steady-trans, mark_parked-Steady, mark_kv_parked-Steady,
}
use llama_swap_macos_extende.Scheduler.Pool.Decide.{Room, admitted-Room, grant_handler-Pooled}
use llama_swap_macos_extende.Scheduler.Pool.Passes.{enqueue-Pooled, drain_queue-Pooled}

release_waiter-Pooled :
    (most : ℕ) (w : World) (ev : SwapDone) (r : HandlerReq) (s : Fifo)
    → Waiter most ev.model_id r
    → Pooled most s
    → Pooled most (release_waiter w ev r s)
unfolding release_waiter
release_waiter-Pooled most w ev r s o h = elim (Option-cases ev.err) [
  | inr (e, y) ↦
      rw (y, release_waiter)
        (record { bound = h.bound; queued = h.queued; held = h.held; swaps = h.swaps })
  | inl n ↦
      let capped = mark_parked-Steady cap (r, s) in
      let parked =
        Steady-trans (mark_kv_parked-Steady (r, s))
          (mark_parked-Steady kv (mark_kv_parked (r, s))) in
      rw (n, release_waiter)
        (if_cases (Pooled most) (at_capacity r s) _ _
          (λ _.
            enqueue-Pooled most _ _ (within most capped.estimate o.0)
              (Pooled-Calm most s _ capped.calm h))
          (λ c.
            if_cases (Pooled most) (not (kv_admit r.model r.estimated_tokens s)) _ _
              (λ _.
                enqueue-Pooled most _ _ (within most parked.estimate o.0)
                  (Pooled-Calm most s _ parked.calm h))
              (λ k.
                grant_handler-Pooled most w r ev.model_id s
                  (subst (λ m. Room most r m s) o.1 (admitted-Room most r s o.0 (ground arith)))
                  h)))
]

release_waiters-Pooled :
    (most : ℕ) (w : World) (ev : SwapDone) (rs : List HandlerReq) (s : Fifo)
    → All (Waiter most ev.model_id) rs
    → Pooled most s
    → Pooled most (release_waiters w ev rs s)
unfolding release_waiters
release_waiters-Pooled most w ev [] s o h = h
release_waiters-Pooled most w ev (r ∷ rs) s o h =
    release_waiters-Pooled most w ev rs (release_waiter w ev r s) o.1
      (release_waiter-Pooled most w ev r s o.0 h)

found-Waiters :
    (most : ℕ) (m : String) (active : List ActiveSwap) (sw : ActiveSwap)
    → find_swap m active ≡ some sw
    → All (Waiters most) active
    → All (Waiter most m) sw.waiters
unfolding find_swap
found-Waiters most m [] sw e h = absurd (ground arith)
found-Waiters most m (x ∷ rest) sw e h = elim (Bool-cases (str_eq x.model_id m)) [
  | inl k ↦
      let same : some x ≡ some sw = rw k at e in
      subst (λ (o : Option ActiveSwap). Found m o) same
        (subst (λ n. All (Waiter most n) x.waiters) ((str_eq_iff x.model_id m).0 k) h.0)
  | inr k ↦ found-Waiters most m rest sw (rw k at e) h.1
]
  where
    Found : String → Option ActiveSwap → Type 0
    Found m none = Unit
    Found m (some y) = All (Waiter most m) y.waiters

pub on_swap_done-Pooled :
    (most : ℕ) (w : World) (ev : SwapDone) (s : Fifo)
    → Pooled most s
    → Pooled most (on_swap_done w ev s)
unfolding on_swap_done
on_swap_done-Pooled most w ev s h = elim (Option-cases (find_swap ev.model_id s.active)) [
  | inl e ↦ rw (e, on_swap_done) h
  | inr (sw, e) ↦
      rw (e, on_swap_done)
        (drain_queue-Pooled most w _ (
          release_waiters-Pooled most w ev sw.waiters _
            (found-Waiters most ev.model_id s.active sw e h.swaps)
            (record {
              bound = h.bound;
              queued = h.queued;
              held = h.held;
              swaps = All-delete (Waiters most) ev.model_id s.active h.swaps;
            })))
]

release_kv-fall :
    (m : String) (estimate c : ℕ) (s : Fifo)
    → (n : String) → (release_kv m estimate c s).1.kv_in_flight n ≤ s.kv_in_flight n
unfolding release_kv
release_kv-fall m estimate c s n = ground (arith, str_eq_iff n m)

release_kv-cfg :
    (m : String) (estimate c : ℕ) (s : Fifo) → (release_kv m estimate c s).1.cfg ≡ s.cfg
unfolding release_kv
release_kv-cfg m estimate c s = ground arith

release_kv-Pooled :
    (most : ℕ) (m : String) (estimate c : ℕ) (s : Fifo)
    → Pooled most s
    → Pooled most (release_kv m estimate c s).1
release_kv-Pooled most m estimate c s h =
    let q = release_kv-Quiet m estimate c s in
    record {
      bound = rw (release_kv-cfg m estimate c s) (λ n.
          Bounded-le most (s.cfg.kv_pool_tokens n) (s.kv_in_flight n) _
            (release_kv-fall m estimate c s n) (h.bound n));
      queued = rw q.queued h.queued;
      held = rw q.penalized h.held;
      swaps = rw q.active h.swaps;
    }

serve_done_count-Calm :
    (w : World) (ev : ServeDoneEvent) (s : Fifo) → Calm s (serve_done_count w ev s)
serve_done_count-Calm w ev s = record {
  level = serve_done_count-Level w ev s;
  quiet = serve_done_count-Quiet w ev s;
}

kv_warm_on_done-Calm :
    (w : World) (ev : ServeDoneEvent) (s : Fifo) → Calm s (kv_warm_on_done w ev s)
kv_warm_on_done-Calm w ev s = record {
  level = kv_warm_on_done-Level w ev s;
  quiet = kv_warm_on_done-Quiet w ev s;
}

pub on_serve_done-Pooled :
    (most : ℕ) (w : World) (ev : ServeDoneEvent) (s : Fifo)
    → Pooled most s
    → Pooled most (on_serve_done w ev s)
unfolding on_serve_done
on_serve_done-Pooled most w ev s h =
    let s1 = serve_done_count w ev s in
    let s2 = (release_kv ev.model_id ev.estimated_tokens ev.ctx s1).1 in
    let h1 = Pooled-Calm most s s1 (serve_done_count-Calm w ev s) h in
    let h2 = release_kv-Pooled most ev.model_id ev.estimated_tokens ev.ctx s1 h1 in
    if_cases (Pooled most) ev.status_read _ _ (λ _. h)
      (λ _.
        if_cases (Pooled most) ev.cap_release_only _ _
          (λ _.
            drain_queue-Pooled most w _
              (record { bound = h.bound; queued = h.queued; held = h.held; swaps = h.swaps }))
          (λ _.
            drain_queue-Pooled most w _ (Pooled-Calm most s2 _ (kv_warm_on_done-Calm w ev s2) h2)))
