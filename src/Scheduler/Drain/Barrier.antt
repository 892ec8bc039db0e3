-- ===== src/Scheduler/Drain/Barrier.antt =====
-- fifo.go: the rank barrier, for the pass over the queue and for arrivals.
use llama_swap_macos_extende.Prelude.{
  ℕ, ◌≡◌, refl, ap, sym, ◌∙◌, true, false, not, ◌&&◌, List, [], ◌∷◌, ◌+◌, subst, if_cases, some,
  All, map, arith,
}
use llama_swap_macos_extende.Prelude.Int.{ℤ, ltb_ℤ}
use llama_swap_macos_extende.Scheduler.Types.{HandlerReq, World, Fifo, ProcessState, rank_barrier}
use llama_swap_macos_extende.Scheduler.Park.{mark_parked}
use llama_swap_macos_extende.Scheduler.Queue.{enqueue, outranks, blocked_by_rank_barrier}
use llama_swap_macos_extende.Scheduler.Swaps.{is_active}
use llama_swap_macos_extende.Scheduler.Admission.{admit, send_admission}
use llama_swap_macos_extende.Scheduler.KvWarm.{kv_warm_prune}
use llama_swap_macos_extende.Scheduler.Grant.{stuck, is_ready}
use llama_swap_macos_extende.Scheduler.Drain.{decide, drain_loop, drain_all, drain_queue}
use llama_swap_macos_extende.Scheduler.Events.{penalty_held, place, on_known_request, on_request}
use llama_swap_macos_extende.Scheduler.Conserve.{answered, mark_parked-Stamped}
use llama_swap_macos_extende.Scheduler.Safety.{mark_parked-Still}

abbrev pub ids : List HandlerReq → List ℕ
ids = map (λ r. r.respond)

-- Nothing was granted, answered, joined or held between two states.
pub record Idles (s t : Fifo) : Type 0 where
  pub active : t.active ≡ s.active
  pub penalized : t.penalized_reqs ≡ s.penalized_reqs
  pub answers : answered t.effects ≡ answered s.effects
  pub in_flight : t.in_flight ≡ s.in_flight

Idles-refl : (s : Fifo) → Idles s s
Idles-refl s = record { active = refl; penalized = refl; answers = refl; in_flight = refl }

Idles-trans : {s t u : Fifo} → Idles s t → Idles t u → Idles s u
Idles-trans p q = record {
  active = q.active ∙ p.active;
  penalized = q.penalized ∙ p.penalized;
  answers = q.answers ∙ p.answers;
  in_flight = q.in_flight ∙ p.in_flight;
}

Idles-mark : (r : HandlerReq) (s : Fifo) → Idles s (mark_parked rank_barrier (r, s)).1
Idles-mark r s =
    let quiet = (mark_parked-Stamped rank_barrier (r, s)).quiet in
    record {
      active = quiet.active;
      penalized = quiet.penalized;
      answers = quiet.answers;
      in_flight = (mark_parked-Still rank_barrier (r, s)).in_flight;
    }

-- Requests below the barrier remain in the queue, in their order, and nothing else changes.
drain_loop-barrier :
    (w : World) (rs : List HandlerReq) (k : ℤ) (s : Fifo)
    → All (λ r. ltb_ℤ r.tier.rank k ≡ true) rs
    → (ids (drain_loop w rs (some k) s).0 ≡ ids rs) × Idles s (drain_loop w rs (some k) s).1
unfolding drain_loop
drain_loop-barrier w [] k s h = (refl, Idles-refl s)
drain_loop-barrier w (r ∷ rs) k s h =
    let p = mark_parked rank_barrier (r, s) in
    let rest = drain_loop-barrier w rs k p.1 h.1 in
    rw h.0 (
      cc (rest.0, (mark_parked-Stamped rank_barrier (r, s)).respond),
      Idles-trans (Idles-mark r s) rest.1,
    )

drain_all-barrier :
    (w : World) (s : Fifo) (r : HandlerReq) (rs : List HandlerReq) (p : HandlerReq × Fifo)
    → decide w r s ≡ stuck p
    → All (λ q. ltb_ℤ q.tier.rank p.0.tier.rank ≡ true) rs
    → (ids (drain_all w (r ∷ rs) s).queued ≡ p.0.respond ∷ ids rs)
      × Idles p.1 (drain_all w (r ∷ rs) s)
unfolding drain_all drain_loop kv_warm_prune
drain_all-barrier w s r rs p d h =
    let rest = drain_loop-barrier w rs p.0.tier.rank p.1 h in
    rw d (
      ap (◌∷◌ p.0.respond) rest.0,
      record {
        active = rest.1.active;
        penalized = rest.1.penalized;
        answers = rest.1.answers;
        in_flight = rest.1.in_flight;
      },
    )

-- If the first request of the queue is stuck and the others rank below it, the pass over the queue
-- grants none of them, whatever their models could serve, and the queue keeps them all, in their
-- order.
pub drain_queue-barrier :
    (w : World) (s : Fifo) (r : HandlerReq) (rs : List HandlerReq) (p : HandlerReq × Fifo)
    → s.queued ≡ r ∷ rs
    → decide w r s ≡ stuck p
    → All (λ q. ltb_ℤ q.tier.rank p.0.tier.rank ≡ true) rs
    → (ids (drain_queue w s).queued ≡ p.0.respond ∷ ids rs) × Idles p.1 (drain_queue w s)
unfolding drain_queue
drain_queue-barrier w s r rs p e d h =
    subst (λ q. (ids (drain_all w q s).queued ≡ p.0.respond ∷ ids rs) × Idles p.1 (drain_all w q s))
      (sym e) (drain_all-barrier w s r rs p d h)

admit-Idles :
    (w : World) (r : HandlerReq) (s : Fifo)
    → Idles s (admit w r s).1 × ((admit w r s).1.queued ≡ s.queued)
unfolding admit send_admission
admit-Idles w r s = ground arith

not_held :
    (w : World) (r : HandlerReq) (s : Fifo)
    → w.penalty_held r.respond ≡ false
    → penalty_held w r s ≡ false
unfolding penalty_held
not_held w r s f = ground arith

place-blocked :
    (w : World) (state : ProcessState) (r : HandlerReq) (s : Fifo)
    → penalty_held w r s ≡ false
    → blocked_by_rank_barrier r s ≡ true
    → Idles s (place w state r s)
unfolding place enqueue
place-blocked w state r s f b =
    let i = Idles-mark r s in
    rw (f, b)
      (record {
        active = i.active;
        penalized = i.penalized;
        answers = i.answers;
        in_flight = i.in_flight;
      })

-- While a request of a strictly higher rank is queued, an arrival for a known model that is no
-- status read and is not held by the loop guard is neither granted nor joined to a swap, and
-- starts none.
pub on_request-blocked :
    (w : World) (r : HandlerReq) (s : Fifo) (state : ProcessState)
    → w.model_state r.model ≡ some state
    → r.status_read ≡ false
    → w.penalty_held r.respond ≡ false
    → blocked_by_rank_barrier r s ≡ true
    → Idles s (on_request w r s)
unfolding on_request on_known_request blocked_by_rank_barrier outranks
on_request-blocked w r s state m n f b =
    let (idles, queued) = admit-Idles w r s in
    let s1 = (admit w r s).1 in
    let r' : HandlerReq = record r { arrival_seq = s1.next_arrival_seq + 1 } in
    let s2 : Fifo = record s1 { next_arrival_seq = s1.next_arrival_seq + 1 } in
    let parked = place-blocked w state r' s2 (not_held w r' s2 f) (rw queued b) in
    rw (m, on_request)
      (if_cases (Idles s)
        (r.status_read && not (is_ready state) && not (is_active r.model s.active)) _ _
        (λ e. absurd (ground arith))
        (λ _.
          if_cases (Idles s) (not (admit w r s).0) _ _ (λ _. idles)
            (λ _. record {
              active = parked.active ∙ idles.active;
              penalized = parked.penalized ∙ idles.penalized;
              answers = parked.answers ∙ idles.answers;
              in_flight = parked.in_flight ∙ idles.in_flight;
            })))
