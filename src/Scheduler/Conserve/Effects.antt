-- ===== src/Scheduler/Conserve/Effects.antt =====
-- fifo.go: preemption, the grace, the KV bookkeeping, and the places of a request.
use llama_swap_macos_extende.Prelude.{
  ℕ, List, String, Option, none, some, arith, any, inl, inr, Bool-cases,
}
use llama_swap_macos_extende.Scheduler.Types.{
  HandlerReq, World, Fifo, ServeDoneEvent, ParkReason, busy, cooldown, rfc3339,
}
use llama_swap_macos_extende.Scheduler.Preempt.{try_preempt}
use llama_swap_macos_extende.Scheduler.Preempt.Induct.{try_preempt_induct}
use llama_swap_macos_extende.Scheduler.Grace.{
  starts_later, grace_until, deferred_by_grace, mark_grace_parked,
}
use llama_swap_macos_extende.Scheduler.Park.{mark_parked, mark_waiting_for}
use llama_swap_macos_extende.Scheduler.KvWarm.{kv_warm_on_done}
use llama_swap_macos_extende.Scheduler.Admission.{release_kv}
use llama_swap_macos_extende.Scheduler.Grant.{count_grant}
use llama_swap_macos_extende.Scheduler.Events.{serve_done_count, expire_forced_grace}
use llama_swap_macos_extende.Scheduler.Conserve.{
  Quiet, Quiet-refl, Stamped, Stamped-trans, mark_parked-Stamped, mark_waiting_for-Stamped,
}

pub try_preempt-Quiet :
    (r : HandlerReq) (evict : List String) (limit : ℕ) (s : Fifo)
    → Quiet s (try_preempt r evict limit s).1
try_preempt-Quiet r evict limit s =
    try_preempt_induct (Quiet s)
      (λ i t q. record {
        queued = q.queued;
        active = q.active;
        penalized = q.penalized;
        answers = q.answers;
      })
      r evict limit s (Quiet-refl s)

pub deferred_by_grace-Quiet :
    (w : World) (r : HandlerReq) (evict : List String) (s : Fifo)
    → Quiet s (deferred_by_grace w r evict s).1
unfolding deferred_by_grace
deferred_by_grace-Quiet w r evict s = ground arith

pub mark_grace_parked-Stamped :
    (w : World) (evict : List String) (p : HandlerReq × Fifo)
    → Stamped p (mark_grace_parked w evict p)
unfolding mark_grace_parked
mark_grace_parked-Stamped w evict (r, s) =
    elim (Bool-cases (any (λ m. starts_later w.now (s.idle_since m)) evict)) [
      | inl e ↦ rw e (chain busy none)
      | inr e ↦ rw e (chain cooldown (some (rfc3339 (grace_until w evict s))))
    ]
  where
    chain :
        (reason : ParkReason) (until : Option ℕ)
        → Stamped (r, s) (mark_waiting_for "" until (mark_parked reason (r, s)))
    chain reason until =
        Stamped-trans (mark_parked-Stamped reason (r, s))
          (mark_waiting_for-Stamped "" until (mark_parked reason (r, s)))

pub count_grant-Quiet : (r : HandlerReq) (m : String) (s : Fifo) → Quiet s (count_grant r m s)
unfolding count_grant
count_grant-Quiet r m s = ground arith

pub release_kv-Quiet :
    (m : String) (estimate c : ℕ) (s : Fifo) → Quiet s (release_kv m estimate c s).1
unfolding release_kv
release_kv-Quiet m estimate c s = ground arith

pub serve_done_count-Quiet :
    (w : World) (ev : ServeDoneEvent) (s : Fifo) → Quiet s (serve_done_count w ev s)
unfolding serve_done_count
serve_done_count-Quiet w ev s = ground arith

pub kv_warm_on_done-Quiet :
    (w : World) (ev : ServeDoneEvent) (s : Fifo) → Quiet s (kv_warm_on_done w ev s)
unfolding kv_warm_on_done
kv_warm_on_done-Quiet w ev s = ground arith

pub expire_forced_grace-Quiet : (w : World) (s : Fifo) → Quiet s (expire_forced_grace w s)
unfolding expire_forced_grace
expire_forced_grace-Quiet w s = ground arith
