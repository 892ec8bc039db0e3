-- ===== src/Scheduler/Capacity.antt =====
-- fifo.go: the requests in flight and the concurrency limit of their model.
pub mod Decide
pub mod Passes
pub mod Handlers
pub mod Histories
use llama_swap_macos_extende.Prelude.{
  ℕ, ◌+◌, ◌≤◌, ◌<◌, ◌≡◌, refl, ◌∙◌, subst, sym, Bool, true, false, String, List, [], ◌∷◌, Option,
  none, some, All, arith, leb, if_cases, inl, inr, Bool-cases, update, str_eq, str_eq_iff,
}
use llama_swap_macos_extende.Scheduler.Types.{HandlerReq, World, Fifo, ActiveSwap, ParkReason}
use llama_swap_macos_extende.Scheduler.Park.{mark_parked, mark_waiting_for, mark_kv_parked}
use llama_swap_macos_extende.Scheduler.Preempt.{try_preempt}
use llama_swap_macos_extende.Scheduler.Grace.{deferred_by_grace, mark_grace_parked}
use llama_swap_macos_extende.Scheduler.Admission.{limit, at_capacity}
use llama_swap_macos_extende.Scheduler.Conserve.{
  Quiet, Quiet-trans, Stamped, mark_parked-Stamped, mark_waiting_for-Stamped,
  mark_kv_parked-Stamped,
}
use llama_swap_macos_extende.Scheduler.Conserve.Effects.{
  try_preempt-Quiet, deferred_by_grace-Quiet, mark_grace_parked-Stamped,
}
use llama_swap_macos_extende.Scheduler.Safety.{
  Still, Still-trans, mark_parked-Still, mark_waiting_for-Still, mark_kv_parked-Still,
  try_preempt-Still, deferred_by_grace-Still, mark_grace_parked-Still,
}

-- The concurrency limit counts for the request.
abbrev pub Ordinary : HandlerReq → Type 0
Ordinary r = r.concurrency_exempt ≡ false

abbrev pub Waiter : String → HandlerReq → Type 0
Waiter m r = (r.concurrency_exempt ≡ false) × (r.model ≡ m)

abbrev pub Waiters : ActiveSwap → Type 0
Waiters sw = All (Waiter sw.model_id) sw.waiters

-- No model serves more requests than its limit, and no exempt request waits anywhere.
pub record Capped (s : Fifo) : Type 0 where
  pub cap : (m : String) → s.in_flight m ≤ limit s m
  pub queued : All Ordinary s.queued
  pub held : All Ordinary s.penalized_reqs
  pub swaps : All Waiters s.active

-- `t` has the counts and the waiting requests of `s`.
pub record Calm (s t : Fifo) : Type 0 where
  pub still : Still s t
  pub quiet : Quiet s t

pub Calm-trans : {s t u : Fifo} → Calm s t → Calm t u → Calm s u
Calm-trans p q = record { still = Still-trans p.still q.still; quiet = Quiet-trans p.quiet q.quiet }

pub Capped-Calm : (s t : Fifo) → Calm s t → Capped s → Capped t
unfolding limit
Capped-Calm s t q h = record {
  cap = λ m. rw (q.still.in_flight, q.still.limits) (h.cap m);
  queued = rw q.quiet.queued h.queued;
  held = rw q.quiet.penalized h.held;
  swaps = rw q.quiet.active h.swaps;
}

-- A stamped pair: the same counts and waiting requests, and a request for the same model that is
-- exempt if it was.
pub record Steady (p q : HandlerReq × Fifo) : Type 0 where
  pub exempt : q.0.concurrency_exempt ≡ p.0.concurrency_exempt
  pub model : q.0.model ≡ p.0.model
  pub calm : Calm p.1 q.1

pub Steady-trans : {p q u : HandlerReq × Fifo} → Steady p q → Steady q u → Steady p u
Steady-trans a b = record {
  exempt = b.exempt ∙ a.exempt;
  model = b.model ∙ a.model;
  calm = Calm-trans a.calm b.calm;
}

pub Steady-from :
    {r : HandlerReq} {s t : Fifo} {p : HandlerReq × Fifo}
    → Calm s t
    → Steady (r, t) p
    → Steady (r, s) p
Steady-from q a = record { exempt = a.exempt; model = a.model; calm = Calm-trans q a.calm }

Stamped-Steady :
    {p q : HandlerReq × Fifo}
    → q.0.concurrency_exempt ≡ p.0.concurrency_exempt
    → Stamped p q
    → Still p.1 q.1
    → Steady p q
Stamped-Steady e a b = record {
  exempt = e;
  model = a.model;
  calm = record { still = b; quiet = a.quiet };
}

mark_parked-exempt :
    (reason : ParkReason) (p : HandlerReq × Fifo)
    → (mark_parked reason p).0.concurrency_exempt ≡ p.0.concurrency_exempt
unfolding mark_parked
mark_parked-exempt reason (r, s) = ground arith

mark_waiting_for-exempt :
    (session : String) (until : Option ℕ) (p : HandlerReq × Fifo)
    → (mark_waiting_for session until p).0.concurrency_exempt ≡ p.0.concurrency_exempt
unfolding mark_waiting_for
mark_waiting_for-exempt session until (r, s) = ground arith

pub mark_parked-Steady :
    (reason : ParkReason) (p : HandlerReq × Fifo) → Steady p (mark_parked reason p)
mark_parked-Steady reason p =
    Stamped-Steady (mark_parked-exempt reason p) (mark_parked-Stamped reason p)
      (mark_parked-Still reason p)

pub mark_waiting_for-Steady :
    (session : String) (until : Option ℕ) (p : HandlerReq × Fifo)
    → Steady p (mark_waiting_for session until p)
mark_waiting_for-Steady session until p =
    Stamped-Steady (mark_waiting_for-exempt session until p)
      (mark_waiting_for-Stamped session until p) (mark_waiting_for-Still session until p)

pub mark_kv_parked-Steady : (p : HandlerReq × Fifo) → Steady p (mark_kv_parked p)
unfolding mark_kv_parked
mark_kv_parked-Steady (r, s) =
    Stamped-Steady refl (mark_kv_parked-Stamped (r, s)) (mark_kv_parked-Still (r, s))

mark_grace_parked-exempt :
    (w : World) (evict : List String) (p : HandlerReq × Fifo)
    → (mark_grace_parked w evict p).0.concurrency_exempt ≡ p.0.concurrency_exempt
unfolding mark_grace_parked mark_waiting_for mark_parked
mark_grace_parked-exempt w evict (r, s) = ground arith

pub mark_grace_parked-Steady :
    (w : World) (evict : List String) (p : HandlerReq × Fifo)
    → Steady p (mark_grace_parked w evict p)
mark_grace_parked-Steady w evict p =
    Stamped-Steady (mark_grace_parked-exempt w evict p) (mark_grace_parked-Stamped w evict p)
      (mark_grace_parked-Still w evict p)

pub try_preempt-Calm :
    (r : HandlerReq) (evict : List String) (limit : ℕ) (s : Fifo)
    → Calm s (try_preempt r evict limit s).1
try_preempt-Calm r evict limit s = record {
  still = try_preempt-Still r evict limit s;
  quiet = try_preempt-Quiet r evict limit s;
}

pub deferred_by_grace-Calm :
    (w : World) (r : HandlerReq) (evict : List String) (s : Fifo)
    → Calm s (deferred_by_grace w r evict s).1
deferred_by_grace-Calm w r evict s = record {
  still = deferred_by_grace-Still w r evict s;
  quiet = deferred_by_grace-Quiet w r evict s;
}
