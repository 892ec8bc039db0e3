-- ===== src/Scheduler/Capacity/Handlers.antt =====
-- fifo.go, OnSwapDone and OnServeDone: the ends of swaps and of requests, and the limits.
use llama_swap_macos_extende.Prelude.{
  ℕ, ◌-◌, ◌≤◌, ◌<◌, ◌≡◌, ◌∙◌, sym, not, String, List, [], ◌∷◌, Option, none, some, All, arith,
  if_cases, inl, inr, Bool-cases, Option-cases, if◌then◌else◌, subst, update, str_eq, str_eq_iff,
}
use llama_swap_macos_extende.Scheduler.Types.{
  HandlerReq, World, Fifo, ActiveSwap, SwapDone, ServeDoneEvent, kv, cap,
}
use llama_swap_macos_extende.Scheduler.Park.{mark_kv_parked}
use llama_swap_macos_extende.Scheduler.Swaps.{find_swap}
use llama_swap_macos_extende.Scheduler.Admission.{limit, at_capacity, kv_admit, release_kv}
use llama_swap_macos_extende.Scheduler.KvWarm.{kv_warm_on_done}
use llama_swap_macos_extende.Scheduler.Events.{
  release_waiter, release_waiters, on_swap_done, serve_done_count, on_serve_done,
}
use llama_swap_macos_extende.Scheduler.Conserve.Effects.{
  release_kv-Quiet, serve_done_count-Quiet, kv_warm_on_done-Quiet,
}
use llama_swap_macos_extende.Scheduler.Safety.Tables.{All-delete}
use llama_swap_macos_extende.Scheduler.Safety.Steps.{
  release_kv-Still, kv_warm_on_done-Still, serve_done_count-tables,
}
use llama_swap_macos_extende.Scheduler.Capacity.{
  Waiter, Waiters, Capped, Calm, Calm-trans, Capped-Calm, Steady-trans, mark_parked-Steady,
  mark_kv_parked-Steady,
}
use llama_swap_macos_extende.Scheduler.Capacity.Decide.{below_limit, grant_handler-Capped}
use llama_swap_macos_extende.Scheduler.Capacity.Passes.{enqueue-Capped, drain_queue-Capped}

release_waiter-Capped :
    (w : World) (ev : SwapDone) (r : HandlerReq) (s : Fifo)
    → Waiter ev.model_id r
    → Capped s
    → Capped (release_waiter w ev r s)
unfolding release_waiter limit
release_waiter-Capped w ev r s o h = elim (Option-cases ev.err) [
  | inr (e, y) ↦
      rw (y, release_waiter)
        (record { cap = h.cap; queued = h.queued; held = h.held; swaps = h.swaps })
  | inl n ↦
      let capped = mark_parked-Steady cap (r, s) in
      let parked =
        Steady-trans (mark_kv_parked-Steady (r, s))
          (mark_parked-Steady kv (mark_kv_parked (r, s))) in
      rw (n, release_waiter)
        (if_cases Capped (at_capacity r s) _ _
          (λ _. enqueue-Capped _ _ (capped.exempt ∙ o.0) (Capped-Calm s _ capped.calm h))
          (λ c.
            if_cases Capped (not (kv_admit r.model r.estimated_tokens s)) _ _
              (λ _. enqueue-Capped _ _ (parked.exempt ∙ o.0) (Capped-Calm s _ parked.calm h))
              (λ _.
                grant_handler-Capped w r ev.model_id s
                  (subst (λ m. s.in_flight m < limit s m) o.1 (below_limit r s o.0 c)) h)))
]

release_waiters-Capped :
    (w : World) (ev : SwapDone) (rs : List HandlerReq) (s : Fifo)
    → All (Waiter ev.model_id) rs
    → Capped s
    → Capped (release_waiters w ev rs s)
unfolding release_waiters
release_waiters-Capped w ev [] s o h = h
release_waiters-Capped w ev (r ∷ rs) s o h =
    release_waiters-Capped w ev rs (release_waiter w ev r s) o.1
      (release_waiter-Capped w ev r s o.0 h)

found-Waiters :
    (m : String) (active : List ActiveSwap) (sw : ActiveSwap)
    → find_swap m active ≡ some sw
    → All Waiters active
    → All (Waiter m) sw.waiters
unfolding find_swap
found-Waiters m [] sw e h = absurd (ground arith)
found-Waiters m (x ∷ rest) sw e h = elim (Bool-cases (str_eq x.model_id m)) [
  | inl k ↦
      let same : some x ≡ some sw = rw k at e in
      subst (λ (o : Option ActiveSwap). Found m o) same
        (subst (λ n. All (Waiter n) x.waiters) ((str_eq_iff x.model_id m).0 k) h.0)
  | inr k ↦ found-Waiters m rest sw (rw k at e) h.1
]
  where
    Found : String → Option ActiveSwap → Type 0
    Found m none = Unit
    Found m (some y) = All (Waiter m) y.waiters

pub on_swap_done-Capped :
    (w : World) (ev : SwapDone) (s : Fifo) → Capped s → Capped (on_swap_done w ev s)
unfolding on_swap_done limit
on_swap_done-Capped w ev s h = elim (Option-cases (find_swap ev.model_id s.active)) [
  | inl e ↦ rw (e, on_swap_done) h
  | inr (sw, e) ↦
      rw (e, on_swap_done)
        (drain_queue-Capped w _ (
          release_waiters-Capped w ev sw.waiters _ (found-Waiters ev.model_id s.active sw e h.swaps)
            (record {
              cap = h.cap;
              queued = h.queued;
              held = h.held;
              swaps = All-delete Waiters ev.model_id s.active h.swaps;
            })))
]

lowered : (f : String → ℕ) (m : String) (k : ℕ) → k ≤ f m → (n : String) → update f m k n ≤ f n
lowered f m k le n =
    if_cases (λ (x : ℕ). x ≤ f n) (str_eq n m) k (f n)
      (λ e. subst (λ j. k ≤ f j) (sym ((str_eq_iff n m).0 e)) le) (λ _. omega arith)

serve_done_count-limits :
    (w : World) (ev : ServeDoneEvent) (s : Fifo) → (serve_done_count w ev s).limits ≡ s.limits
unfolding serve_done_count
serve_done_count-limits w ev s = ground arith

serve_done_count-Capped :
    (w : World) (ev : ServeDoneEvent) (s : Fifo) → Capped s → Capped (serve_done_count w ev s)
unfolding limit
serve_done_count-Capped w ev s h =
    let q = serve_done_count-Quiet w ev s in
    let fall =
      lowered s.in_flight ev.model_id
        (if ev.cap_released then s.in_flight ev.model_id else s.in_flight ev.model_id - 1)
        (ground arith) in
    record {
      cap =
          rw ((serve_done_count-tables w ev s).1, serve_done_count-limits w ev s)
            (λ n. omega (arith, fall n, h.cap n));
      queued = rw q.queued h.queued;
      held = rw q.penalized h.held;
      swaps = rw q.active h.swaps;
    }

pub on_serve_done-Capped :
    (w : World) (ev : ServeDoneEvent) (s : Fifo) → Capped s → Capped (on_serve_done w ev s)
unfolding on_serve_done limit
on_serve_done-Capped w ev s h =
    let s1 = serve_done_count w ev s in
    let s2 = (release_kv ev.model_id ev.estimated_tokens ev.ctx s1).1 in
    let fall = lowered s.in_flight ev.model_id (s.in_flight ev.model_id - 1) (omega arith) in
    let released : Calm s1 s2 = record {
      still = release_kv-Still ev.model_id ev.estimated_tokens ev.ctx s1;
      quiet = release_kv-Quiet ev.model_id ev.estimated_tokens ev.ctx s1;
    } in
    let warmed : Calm s2 (kv_warm_on_done w ev s2) = record {
      still = kv_warm_on_done-Still w ev s2;
      quiet = kv_warm_on_done-Quiet w ev s2;
    } in
    if_cases Capped ev.status_read _ _ (λ _. h)
      (λ _.
        if_cases Capped ev.cap_release_only _ _
          (λ _. drain_queue-Capped w _ (record {
            cap = λ n. omega (arith, fall n, h.cap n);
            queued = h.queued;
            held = h.held;
            swaps = h.swaps;
          }))
          (λ _.
            drain_queue-Capped w _
              (Capped-Calm s1 _ (Calm-trans released warmed) (serve_done_count-Capped w ev s h))))
