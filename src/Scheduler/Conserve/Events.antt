-- ===== src/Scheduler/Conserve/Events.antt =====
-- fifo.go: the other event handlers and the places of a request.
use llama_swap_macos_extende.Prelude.{
  ℕ, ◌+◌, ◌≡◌, refl, ap, Bool, false, ◌==◌, List, [], ◌∷◌, arith, if◌then◌else◌, inl, inr,
  Bool-cases, Option-cases,
}
use llama_swap_macos_extende.Scheduler.Types.{
  HandlerReq, World, Fifo, SwapDone, ServeDoneEvent, kv, cap,
}
use llama_swap_macos_extende.Scheduler.Park.{mark_parked, mark_kv_parked}
use llama_swap_macos_extende.Scheduler.Queue.{enqueue}
use llama_swap_macos_extende.Scheduler.Swaps.{find_swap, delete_swap}
use llama_swap_macos_extende.Scheduler.Admission.{at_capacity, kv_admit, release_kv}
use llama_swap_macos_extende.Scheduler.Grace.{consume_forced, consume_grace_expired_forced}
use llama_swap_macos_extende.Scheduler.KvWarm.{kv_warm_on_done, kv_warm_end_cooldowns}
use llama_swap_macos_extende.Scheduler.Grant.{stuck, settled, grant_handler}
use llama_swap_macos_extende.Scheduler.Events.{
  contended, penalty_held_under, on_cancel, release_waiter, is_nil, release_waiters, on_swap_done,
  start_idle, serve_done_count, on_serve_done, release_loop, release_penalized, expire_forced_grace,
  on_tick,
}
use llama_swap_macos_extende.Scheduler.Conserve.{
  one, occurs, count, answered, places, Stamped-trans, mark_parked-Stamped, mark_kv_parked-Stamped,
}
use llama_swap_macos_extende.Scheduler.Conserve.Effects.{
  release_kv-Quiet, serve_done_count-Quiet, kv_warm_on_done-Quiet, expire_forced_grace-Quiet,
}
use llama_swap_macos_extende.Scheduler.Conserve.Lists.{
  occurs-enqueue, elsewhere-enqueue, waiting-delete, occurs-others, waiting-others,
}
use llama_swap_macos_extende.Scheduler.Conserve.Route.{grant_handler-Placed}
use llama_swap_macos_extende.Scheduler.Conserve.Drain.{drain_queue-places}
use llama_swap_macos_extende.Scheduler.Conserve.Arrivals.{places-Quiet, queue_stuck-places}

-- A cancelled request waits nowhere afterwards, with its answers as they were, and every other
-- request keeps its number of places.
pub on_cancel-places :
    (id : ℕ) (r : HandlerReq) (s : Fifo)
    → places id (on_cancel r s)
      ≡ (if r.respond == id then count id (answered s.effects) else places id s)
unfolding on_cancel
on_cancel-places id r s = ground (
  arith,
  occurs-others id r s.queued,
  occurs-others id r s.penalized_reqs,
  waiting-others id r s.active,
)

release_waiter-places :
    (id : ℕ) (w : World) (ev : SwapDone) (r : HandlerReq) (s : Fifo)
    → places id (release_waiter w ev r s) ≡ one id r.respond + places id s
unfolding release_waiter
release_waiter-places id w ev r s = elim (Option-cases ev.err) [
  | inr (e, y) ↦ rw (y, release_waiter) (omega arith)
  | inl n ↦ elim (Bool-cases (at_capacity r s)) [
    | inl c ↦
        rw (n, release_waiter, c)
          (queue_stuck-places id r s (stuck (mark_parked cap (r, s)))
            (mark_parked-Stamped cap (r, s)))
    | inr c ↦ elim (Bool-cases (kv_admit r.model r.estimated_tokens s)) [
      | inr k ↦
          rw (n, release_waiter, c, k)
            (queue_stuck-places id r s (stuck (mark_parked kv (mark_kv_parked (r, s)))) (
              Stamped-trans (mark_kv_parked-Stamped (r, s))
                (mark_parked-Stamped kv (mark_kv_parked (r, s)))))
      | inl k ↦
          rw (n, release_waiter, c, k)
            (queue_stuck-places id r s (settled (grant_handler w r ev.model_id s))
              (grant_handler-Placed id w r ev.model_id s))
    ]
  ]
]

pub release_waiters-places :
    (id : ℕ) (w : World) (ev : SwapDone) (rs : List HandlerReq) (s : Fifo)
    → places id (release_waiters w ev rs s) ≡ occurs id rs + places id s
unfolding release_waiters
release_waiters-places id w ev [] s = omega arith
release_waiters-places id w ev (r ∷ rs) s = omega (
  arith,
  release_waiters-places id w ev rs (release_waiter w ev r s),
  release_waiter-places id w ev r s,
)

-- The end of a swap, successful or not, keeps the number of places of every request.
pub on_swap_done-places :
    (id : ℕ) (w : World) (ev : SwapDone) (s : Fifo) → places id (on_swap_done w ev s) ≡ places id s
unfolding on_swap_done
on_swap_done-places id w ev s = elim (Option-cases (find_swap ev.model_id s.active)) [
  | inl e ↦ rw (e, on_swap_done) refl
  | inr (sw, e) ↦
      let s1 : Fifo = record s {
        active = delete_swap ev.model_id s.active;
        idle_since = start_idle w ev s;
      } in
      rw (e, on_swap_done)
        (omega (
          arith,
          drain_queue-places id w (release_waiters w ev sw.waiters s1),
          release_waiters-places id w ev sw.waiters s1,
          waiting-delete id ev.model_id s.active sw e,
        ))
]

-- A completion, of each kind, keeps the number of places of every request.
pub on_serve_done-places :
    (id : ℕ) (w : World) (ev : ServeDoneEvent) (s : Fifo)
    → places id (on_serve_done w ev s) ≡ places id s
unfolding on_serve_done
on_serve_done-places id w ev s = elim (Bool-cases ev.status_read) [
  | inl e ↦ simp e
  | inr e ↦ elim (Bool-cases ev.cap_release_only) [
    | inl c ↦ simp (e, c) (drain_queue-places id w _)
    | inr c ↦
        let s1 = serve_done_count w ev s in
        let s2 = (release_kv ev.model_id ev.estimated_tokens ev.ctx s1).1 in
        simp (e, c)
          (omega (
            arith,
            drain_queue-places id w (kv_warm_on_done w ev s2),
            places-Quiet id s2 (kv_warm_on_done w ev s2) (kv_warm_on_done-Quiet w ev s2),
            places-Quiet id s1 s2 (release_kv-Quiet ev.model_id ev.estimated_tokens ev.ctx s1),
            places-Quiet id s s1 (serve_done_count-Quiet w ev s),
          ))
  ]
]

-- The loop keeps a held request or queues it.
release_loop-places :
    (id : ℕ) (w : World) (c : Bool) (rs : List HandlerReq) (s : Fifo)
    → occurs id (release_loop w c rs s).0 + places id (release_loop w c rs s).1
      ≡ occurs id rs + places id s
unfolding release_loop
release_loop-places id w c [] s = refl
release_loop-places id w c (r ∷ rs) s = elim (Bool-cases (penalty_held_under w c r s)) [
  | inl h ↦ rw h (omega (arith, release_loop-places id w c rs s))
  | inr h ↦ rw h (
      omega (
        arith,
        release_loop-places id w c rs (enqueue r s),
        occurs-enqueue id r s,
        elsewhere-enqueue id r s,
      ))
]

release_loop-penalized :
    (w : World) (c : Bool) (rs : List HandlerReq) (s : Fifo)
    → (release_loop w c rs s).1.penalized_reqs ≡ s.penalized_reqs
unfolding release_loop enqueue
release_loop-penalized w c [] s = refl
release_loop-penalized w c (r ∷ rs) s = elim (Bool-cases (penalty_held_under w c r s)) [
  | inl h ↦ rw h (release_loop-penalized w c rs s)
  | inr h ↦ rw h (release_loop-penalized w c rs (enqueue r s))
]

release_penalized-places :
    (id : ℕ) (w : World) (s : Fifo) → places id (release_penalized w s) ≡ places id s
unfolding release_penalized
release_penalized-places id w s = omega (
  arith,
  release_loop-places id w (contended s) s.penalized_reqs s,
  ap (occurs id) (release_loop-penalized w (contended s) s.penalized_reqs s),
)

-- A tick keeps the number of places of every request: it moves requests between the held list, the
-- queue, the swaps and the answers.
pub on_tick-places : (id : ℕ) (w : World) (s : Fifo) → places id (on_tick w s) ≡ places id s
unfolding on_tick consume_forced consume_grace_expired_forced kv_warm_end_cooldowns
on_tick-places id w s =
    let s1 = release_penalized w s in
    let s0 : Fifo = record s1 { cooldown_forced = false } in
    let released = release_penalized-places id w s in
    elim (Bool-cases (is_nil s1.queued)) [
      | inl e ↦ rw e (
          omega (
            arith,
            drain_queue-places id w (record (expire_forced_grace w s0) { cooldown_forced = false }),
            places-Quiet id s0 (expire_forced_grace w s0) (expire_forced_grace-Quiet w s0),
            released,
          ))
      | inr e ↦ elim (Bool-cases s1.grace_expired_forced) [
        | inl f ↦
            simp (e, f)
              (omega (
                arith,
                drain_queue-places id w
                    (kv_warm_end_cooldowns (record s1 { grace_expired_forced = false })),
                released,
              ))
        | inr f ↦
            simp (e, f)
              (omega (
                arith,
                drain_queue-places id w (record s1 { grace_expired_forced = false }),
                released,
              ))
      ]
    ]
