-- ===== src/Scheduler/Conserve/Drain.antt =====
-- fifo.go, drainQueue: a pass over the queue and the places of a request.
use llama_swap_macos_extende.Prelude.{
  ℕ, ◌+◌, ◌≡◌, refl, ap, List, [], ◌∷◌, Option, none, arith, if◌then◌else◌, if_cases, inl, inr,
  Option-cases,
}
use llama_swap_macos_extende.Prelude.Int.{ℤ}
use llama_swap_macos_extende.Scheduler.Types.{HandlerReq, World, Fifo, rank_barrier}
use llama_swap_macos_extende.Scheduler.Park.{mark_parked}
use llama_swap_macos_extende.Scheduler.KvWarm.{kv_warm_prune}
use llama_swap_macos_extende.Scheduler.Grant.{Decision, stuck, settled}
use llama_swap_macos_extende.Scheduler.Drain.{
  decide, below_barrier, barrier_after, state_after, keep_stuck, drain_loop, drain_all, drain_queue,
}
use llama_swap_macos_extende.Scheduler.Conserve.{
  one, occurs, elsewhere, places, mark_parked-Stamped, elsewhere-Quiet,
}
use llama_swap_macos_extende.Scheduler.Conserve.Route.{Keeps, route-Keeps}

decide-Keeps : (id : ℕ) (w : World) (r : HandlerReq) (s : Fifo) → Keeps id r s (decide w r s)
unfolding decide
decide-Keeps id w r s = elim (Option-cases (w.model_state r.model)) [
  | inl e ↦ rw (e, decide) (record { queued = refl; gained = omega arith })
  | inr (state, e) ↦ rw (e, decide) (route-Keeps id w state r s)
]

-- After a decision the request is among those that remain, or elsewhere.
keep_stuck-count :
    (id : ℕ) (r : HandlerReq) (s : Fifo) (d : Decision) (rest : List HandlerReq)
    → Keeps id r s d
    → occurs id (keep_stuck d rest) + elsewhere id (state_after d)
      ≡ one id r.respond + occurs id rest + elsewhere id s
keep_stuck-count id r s (stuck p) rest k =
    omega (arith, ap (one id) k.respond, elsewhere-Quiet id s p.1 k.quiet)
keep_stuck-count id r s (settled t) rest k = omega (arith, k.gained)

drain_loop-count :
    (id : ℕ) (w : World) (rs : List HandlerReq) (barrier : Option ℤ) (s : Fifo)
    → occurs id (drain_loop w rs barrier s).0 + elsewhere id (drain_loop w rs barrier s).1
      ≡ occurs id rs + elsewhere id s
unfolding drain_loop
drain_loop-count id w [] barrier s = refl
drain_loop-count id w (r ∷ rs) barrier s =
    step (λ b t. drain_loop-count id w rs b t) decision kept
      (if below_barrier barrier r then barrier else barrier_after barrier decision)
  where
    decision : Decision
    decision =
        if below_barrier barrier r then stuck (mark_parked rank_barrier (r, s)) else decide w r s

    kept : Keeps id r s decision
    kept =
        if_cases (Keeps id r s) (below_barrier barrier r) (stuck (mark_parked rank_barrier (r, s)))
          (decide w r s) (λ _. mark_parked-Stamped rank_barrier (r, s)) (λ _. decide-Keeps id w r s)

    step :
        ((b : Option ℤ) (t : Fifo)
          → occurs id (drain_loop w rs b t).0 + elsewhere id (drain_loop w rs b t).1
            ≡ occurs id rs + elsewhere id t)
        → (d : Decision) → Keeps id r s d
        → (b : Option ℤ)
        → occurs id (keep_stuck d (drain_loop w rs b (state_after d)).0)
            + elsewhere id (drain_loop w rs b (state_after d)).1
          ≡ one id r.respond + occurs id rs + elsewhere id s
    step ih d k b = omega (
      arith,
      ih b (state_after d),
      keep_stuck-count id r s d (drain_loop w rs b (state_after d)).0 k,
    )

drain_all-places :
    (id : ℕ) (w : World) (rs : List HandlerReq) (s : Fifo)
    → s.queued ≡ rs
    → places id (drain_all w rs s) ≡ places id s
unfolding drain_all kv_warm_prune
drain_all-places id w [] s e = refl
drain_all-places id w (r ∷ rs) s e =
    omega (arith, drain_loop-count id w (r ∷ rs) none s, ap (occurs id) e)

-- A pass over the queue moves requests and loses none.
pub drain_queue-places : (id : ℕ) (w : World) (s : Fifo) → places id (drain_queue w s) ≡ places id s
unfolding drain_queue
drain_queue-places id w s = drain_all-places id w s.queued s refl
