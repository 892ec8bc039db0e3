-- ===== src/Scheduler/Conserve/Released.antt =====
-- fifo.go, OnSwapDone: what becomes of the waiters of a swap that ended.
use llama_swap_macos_extende.Prelude.{
  ℕ, ◌+◌, ◌≡◌, ◌≢◌, ◌⊎◌, refl, ap, ◌∙◌, true, String, List, [], ◌∷◌, none, some, arith, inl, inr,
  Bool-cases, Option-cases, str_eq, str_eq_iff,
}
use llama_swap_macos_extende.Scheduler.Types.{
  HandlerReq, World, Fifo, SwapDone, ActiveSwap, Error, grant_serve, set_fifo_priority, unparked,
  kv, cap,
}
use llama_swap_macos_extende.Scheduler.Park.{emit, mark_parked, mark_kv_parked, clear_parked}
use llama_swap_macos_extende.Scheduler.Queue.{enqueue}
use llama_swap_macos_extende.Scheduler.Swaps.{find_swap, delete_swap}
use llama_swap_macos_extende.Scheduler.Admission.{at_capacity, kv_admit}
use llama_swap_macos_extende.Scheduler.Grant.{grant_handler}
use llama_swap_macos_extende.Scheduler.Drain.{drain_queue}
use llama_swap_macos_extende.Scheduler.Events.{
  release_waiter, release_waiters, start_idle, on_swap_done,
}
use llama_swap_macos_extende.Scheduler.Conserve.{
  occurs, waiting, count, answered, places, Stamped-trans, mark_parked-Stamped,
  mark_kv_parked-Stamped,
}
use llama_swap_macos_extende.Scheduler.Conserve.Effects.{count_grant-Quiet}
use llama_swap_macos_extende.Scheduler.Conserve.Lists.{waiting-delete}
use llama_swap_macos_extende.Scheduler.Conserve.Events.{release_waiters-places, on_swap_done-places}

-- The swaps and the held requests are the same in both states.
abbrev IsApart : Fifo → Fifo → Type 0
IsApart s t = (t.active ≡ s.active) × (t.penalized_reqs ≡ s.penalized_reqs)

grant_handler-IsApart :
    (w : World) (r : HandlerReq) (m : String) (s : Fifo) → IsApart s (grant_handler w r m s)
unfolding grant_handler clear_parked
grant_handler-IsApart w r m s =
    let q = (mark_parked-Stamped unparked (r, s)).quiet in
    let offered = emit (grant_serve r.respond m true) (
      emit (set_fifo_priority r.respond (s.cfg.priority r.model))
        (mark_parked unparked (r, s)).1) in
    let counted = count_grant-Quiet (mark_parked unparked (r, s)).0 m offered in
    elim (Bool-cases (w.takes_grant r.respond)) [
      | inl taken ↦ elim (Bool-cases r.status_read) [
        | inl status ↦ simp (taken, status) (q.active, q.penalized)
        | inr work ↦ simp (taken, work) (counted.active ∙ q.active, counted.penalized ∙ q.penalized)
      ]
      | inr gone ↦ rw gone (q.active, q.penalized)
    ]

release_waiter-IsApart :
    (w : World) (ev : SwapDone) (r : HandlerReq) (s : Fifo) → IsApart s (release_waiter w ev r s)
unfolding release_waiter enqueue
release_waiter-IsApart w ev r s = elim (Option-cases ev.err) [
  | inr (e, y) ↦ rw (y, release_waiter) (refl, refl)
  | inl n ↦ elim (Bool-cases (at_capacity r s)) [
    | inl c ↦
        let q = (mark_parked-Stamped cap (r, s)).quiet in
        rw (n, release_waiter, c) (q.active, q.penalized)
    | inr c ↦ elim (Bool-cases (kv_admit r.model r.estimated_tokens s)) [
      | inr k ↦
          let q =
            (Stamped-trans (mark_kv_parked-Stamped (r, s))
              (mark_parked-Stamped kv (mark_kv_parked (r, s)))).quiet in
          rw (n, release_waiter, c, k) (q.active, q.penalized)
      | inl k ↦ rw (n, release_waiter, c, k) (grant_handler-IsApart w r ev.model_id s)
    ]
  ]
]

release_waiters-IsApart :
    (w : World) (ev : SwapDone) (rs : List HandlerReq) (s : Fifo)
    → IsApart s (release_waiters w ev rs s)
unfolding release_waiters
release_waiters-IsApart w ev [] s = (refl, refl)
release_waiters-IsApart w ev (r ∷ rs) s =
    let head = release_waiter-IsApart w ev r s in
    let rest = release_waiters-IsApart w ev rs (release_waiter w ev r s) in
    (rest.0 ∙ head.0, rest.1 ∙ head.1)

-- The waiters of a failed swap are not queued again.
failed-queued :
    (w : World) (ev : SwapDone) (e : Error) (rs : List HandlerReq) (s : Fifo)
    → ev.err ≡ some e
    → (release_waiters w ev rs s).queued ≡ s.queued
unfolding release_waiters release_waiter
failed-queued w ev e [] s h = refl
failed-queued w ev e (r ∷ rs) s h =
    failed-queued w ev e rs (release_waiter w ev r s) h ∙ rw (h, release_waiter) refl

find-delete :
    (m n : String) (active : List ActiveSwap)
    → n ≢ m
    → find_swap n (delete_swap m active) ≡ find_swap n active
unfolding find_swap delete_swap
find-delete m n [] h = refl
find-delete m n (sw ∷ rest) h = elim (Bool-cases (str_eq sw.model_id m)) [
  | inl e ↦ elim (Bool-cases (str_eq sw.model_id n)) [
    | inl k ↦
        let a : sw.model_id ≡ m = (str_eq_iff sw.model_id m).0 e in
        let b : sw.model_id ≡ n = (str_eq_iff sw.model_id n).0 k in absurd (h cc)
    | inr k ↦ ground arith
  ]
  | inr e ↦ ground (arith, find-delete m n rest h)
]

-- `t` is `s` without the swap, with its waiters answered or queued: all of them answered where the
-- swap failed.
abbrev pub IsReleased : ℕ → SwapDone → ActiveSwap → Fifo → Fifo → Type 0
IsReleased id ev sw s t =
    (t.active ≡ delete_swap ev.model_id s.active)
    × (waiting id t.active + occurs id sw.waiters ≡ waiting id s.active)
    × ((m : String) → (m ≡ ev.model_id) ⊎ (find_swap m t.active ≡ find_swap m s.active))
    × (t.penalized_reqs ≡ s.penalized_reqs)
    × (occurs id t.queued + count id (answered t.effects)
        ≡ occurs id s.queued + count id (answered s.effects) + occurs id sw.waiters)
    × ((ev.err ≡ none)
        ⊎ (count id (answered t.effects) ≡ count id (answered s.effects) + occurs id sw.waiters))

release_waiters-IsReleased :
    (id : ℕ) (w : World) (ev : SwapDone) (sw : ActiveSwap) (s : Fifo)
    → find_swap ev.model_id s.active ≡ some sw
    → IsReleased id ev sw s (
        release_waiters w ev sw.waiters
          (record s { active = delete_swap ev.model_id s.active; idle_since = start_idle w ev s }))
release_waiters-IsReleased id w ev sw s e =
    let s1 : Fifo = record s {
      active = delete_swap ev.model_id s.active;
      idle_since = start_idle w ev s;
    } in
    let apart = release_waiters-IsApart w ev sw.waiters s1 in
    let total = release_waiters-places id w ev sw.waiters s1 in
    let held = ap (occurs id) apart.1 in
    let stays = ap (waiting id) apart.0 in
    (
      apart.0,
      omega (arith, stays, waiting-delete id ev.model_id s.active sw e),
      λ m. elim (Bool-cases (str_eq m ev.model_id)) [
        | inl k ↦ inl ((str_eq_iff m ev.model_id).0 k)
        | inr k ↦ inr (
            ap (find_swap m) apart.0
            ∙ find-delete ev.model_id m s.active
                (λ same. absurd (ground (arith, (str_eq_iff m ev.model_id).1 same))))
      ],
      apart.1,
      omega (arith, total, held, stays),
      elim (Option-cases ev.err) [
        | inl n ↦ inl n
        | inr (x, f) ↦ inr (
            omega
              (arith, total, held, stays, ap (occurs id) (failed-queued w ev x sw.waiters s1 f)))
      ],
    )

-- The end of a swap that is not active changes nothing. Otherwise the swap is gone and the others
-- are as they were, each of its waiters is answered or queued again, and answered if the swap
-- failed, the held requests stay; then a pass over the queue follows, and over all the number of
-- places of every request is kept.
pub on_swap_done-IsReleased :
    (id : ℕ) (w : World) (ev : SwapDone) (s : Fifo)
    → ((find_swap ev.model_id s.active ≡ none) × (on_swap_done w ev s ≡ s))
      ⊎ ((sw : ActiveSwap) × (t : Fifo) × (find_swap ev.model_id s.active ≡ some sw)
          × IsReleased id ev sw s t
          × (on_swap_done w ev s ≡ drain_queue w t)
          × (places id (on_swap_done w ev s) ≡ places id s))
unfolding on_swap_done
on_swap_done-IsReleased id w ev s = elim (Option-cases (find_swap ev.model_id s.active)) [
  | inl e ↦ inl (e, rw (e, on_swap_done) refl)
  | inr (sw, e) ↦ inr (
    sw,
    release_waiters w ev sw.waiters
        (record s { active = delete_swap ev.model_id s.active; idle_since = start_idle w ev s }),
    e,
    release_waiters-IsReleased id w ev sw s e,
    rw (e, on_swap_done) refl,
    on_swap_done-places id w ev s,
  )
]
