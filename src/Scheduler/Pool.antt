-- ===== src/Scheduler/Pool.antt =====
-- fifo.go: the KV tokens in flight and the pool of their model.
pub mod Decide
pub mod Passes
pub mod Handlers
pub mod Histories
use llama_swap_macos_extende.Prelude.{
  ℕ, ◌+◌, ◌≤◌, ◌≡◌, ◌⊎◌, refl, ◌∙◌, subst, sym, String, List, Option, All, arith, inl, inr,
}
use llama_swap_macos_extende.Scheduler.Types.{
  HandlerReq, World, Fifo, ActiveSwap, ParkReason, ServeDoneEvent,
}
use llama_swap_macos_extende.Scheduler.Park.{mark_parked, mark_waiting_for, mark_kv_parked}
use llama_swap_macos_extende.Scheduler.Preempt.{try_preempt}
use llama_swap_macos_extende.Scheduler.Preempt.Induct.{try_preempt_induct}
use llama_swap_macos_extende.Scheduler.Grace.{deferred_by_grace, mark_grace_parked}
use llama_swap_macos_extende.Scheduler.KvWarm.{kv_warm_on_done}
use llama_swap_macos_extende.Scheduler.Events.{serve_done_count, expire_forced_grace}
use llama_swap_macos_extende.Scheduler.Conserve.{
  Quiet, Quiet-trans, Stamped, mark_parked-Stamped, mark_waiting_for-Stamped,
  mark_kv_parked-Stamped,
}
use llama_swap_macos_extende.Scheduler.Conserve.Effects.{
  try_preempt-Quiet, deferred_by_grace-Quiet, mark_grace_parked-Stamped,
}

-- Without a pool there is no bound; otherwise the tokens are within the pool or within the largest
-- estimate of one request.
abbrev pub Bounded : ℕ → ℕ → ℕ → Type 0
Bounded most pool tokens = (pool ≡ 0) ⊎ (tokens ≤ pool) ⊎ (tokens ≤ most)

pub Bounded-le :
    (most pool tokens fewer : ℕ)
    → fewer ≤ tokens
    → Bounded most pool tokens
    → Bounded most pool fewer
Bounded-le most pool tokens fewer le h = ground arith

abbrev pub IsWithin : ℕ → HandlerReq → Type 0
IsWithin most r = r.estimated_tokens ≤ most

abbrev pub Waiter : ℕ → String → HandlerReq → Type 0
Waiter most m r = (r.estimated_tokens ≤ most) × (r.model ≡ m)

abbrev pub Waiters : ℕ → ActiveSwap → Type 0
Waiters most sw = All (Waiter most sw.model_id) sw.waiters

-- The KV tokens in flight of each model are within their bound, and so are the estimates of all
-- requests that wait.
pub record Pooled (most : ℕ) (s : Fifo) : Type 0 where
  pub bound : (m : String) → Bounded most (s.cfg.kv_pool_tokens m) (s.kv_in_flight m)
  pub queued : All (IsWithin most) s.queued
  pub held : All (IsWithin most) s.penalized_reqs
  pub swaps : All (Waiters most) s.active

-- `t` has the KV tokens and the pools of `s`.
pub record Level (s t : Fifo) : Type 0 where
  pub kv : t.kv_in_flight ≡ s.kv_in_flight
  pub cfg : t.cfg ≡ s.cfg

-- And the same waiting requests.
pub record Calm (s t : Fifo) : Type 0 where
  pub level : Level s t
  pub quiet : Quiet s t

pub Calm-trans : {s t u : Fifo} → Calm s t → Calm t u → Calm s u
Calm-trans p q = record {
  level = record { kv = q.level.kv ∙ p.level.kv; cfg = q.level.cfg ∙ p.level.cfg };
  quiet = Quiet-trans p.quiet q.quiet;
}

pub Pooled-Calm : (most : ℕ) (s t : Fifo) → Calm s t → Pooled most s → Pooled most t
Pooled-Calm most s t q h = record {
  bound = λ m. rw (q.level.kv, q.level.cfg) (h.bound m);
  queued = rw q.quiet.queued h.queued;
  held = rw q.quiet.penalized h.held;
  swaps = rw q.quiet.active h.swaps;
}

pub within : (most : ℕ) {a b : ℕ} → a ≡ b → b ≤ most → a ≤ most
within most e h = omega arith

-- A stamped pair: the same tokens and waiting requests, and a request for the same model with the
-- same estimate.
pub record Steady (p q : HandlerReq × Fifo) : Type 0 where
  pub estimate : q.0.estimated_tokens ≡ p.0.estimated_tokens
  pub model : q.0.model ≡ p.0.model
  pub calm : Calm p.1 q.1

pub Steady-trans : {p q u : HandlerReq × Fifo} → Steady p q → Steady q u → Steady p u
Steady-trans a b = record {
  estimate = b.estimate ∙ a.estimate;
  model = b.model ∙ a.model;
  calm = Calm-trans a.calm b.calm;
}

pub Steady-from :
    {r : HandlerReq} {s t : Fifo} {p : HandlerReq × Fifo}
    → Calm s t
    → Steady (r, t) p
    → Steady (r, s) p
Steady-from q a = record { estimate = a.estimate; model = a.model; calm = Calm-trans q a.calm }

Stamped-Steady :
    {p q : HandlerReq × Fifo}
    → q.0.estimated_tokens ≡ p.0.estimated_tokens
    → Stamped p q
    → Level p.1 q.1
    → Steady p q
Stamped-Steady e a b = record {
  estimate = e;
  model = a.model;
  calm = record { level = b; quiet = a.quiet };
}

mark_waiting_for-Level :
    (session : String) (until : Option ℕ) (p : HandlerReq × Fifo)
    → Level p.1 (mark_waiting_for session until p).1
unfolding mark_waiting_for
mark_waiting_for-Level session until (r, s) = ground arith

mark_kv_parked-Level : (p : HandlerReq × Fifo) → Level p.1 (mark_kv_parked p).1
unfolding mark_kv_parked
mark_kv_parked-Level (r, s) = ground arith

mark_parked-Level :
    (reason : ParkReason) (p : HandlerReq × Fifo) → Level p.1 (mark_parked reason p).1
unfolding mark_parked
mark_parked-Level reason (r, s) = ground arith

mark_grace_parked-Level :
    (w : World) (evict : List String) (p : HandlerReq × Fifo)
    → Level p.1 (mark_grace_parked w evict p).1
unfolding mark_grace_parked mark_waiting_for mark_parked
mark_grace_parked-Level w evict (r, s) = ground arith

deferred_by_grace-Level :
    (w : World) (r : HandlerReq) (evict : List String) (s : Fifo)
    → Level s (deferred_by_grace w r evict s).1
unfolding deferred_by_grace
deferred_by_grace-Level w r evict s = ground arith

pub serve_done_count-Level :
    (w : World) (ev : ServeDoneEvent) (s : Fifo) → Level s (serve_done_count w ev s)
unfolding serve_done_count
serve_done_count-Level w ev s = ground arith

pub kv_warm_on_done-Level :
    (w : World) (ev : ServeDoneEvent) (s : Fifo) → Level s (kv_warm_on_done w ev s)
unfolding kv_warm_on_done
kv_warm_on_done-Level w ev s = ground arith

pub expire_forced_grace-Level : (w : World) (s : Fifo) → Level s (expire_forced_grace w s)
unfolding expire_forced_grace
expire_forced_grace-Level w s = ground arith

try_preempt-Level :
    (r : HandlerReq) (evict : List String) (limit : ℕ) (s : Fifo)
    → Level s (try_preempt r evict limit s).1
try_preempt-Level r evict limit s =
    try_preempt_induct (Level s) (λ i t q. record { kv = q.kv; cfg = q.cfg }) r evict limit s
      (record { kv = refl; cfg = refl })

mark_parked-estimate :
    (reason : ParkReason) (p : HandlerReq × Fifo)
    → (mark_parked reason p).0.estimated_tokens ≡ p.0.estimated_tokens
unfolding mark_parked
mark_parked-estimate reason (r, s) = ground arith

mark_waiting_for-estimate :
    (session : String) (until : Option ℕ) (p : HandlerReq × Fifo)
    → (mark_waiting_for session until p).0.estimated_tokens ≡ p.0.estimated_tokens
unfolding mark_waiting_for
mark_waiting_for-estimate session until (r, s) = ground arith

pub mark_parked-Steady :
    (reason : ParkReason) (p : HandlerReq × Fifo) → Steady p (mark_parked reason p)
mark_parked-Steady reason p =
    Stamped-Steady (mark_parked-estimate reason p) (mark_parked-Stamped reason p)
      (mark_parked-Level reason p)

pub mark_waiting_for-Steady :
    (session : String) (until : Option ℕ) (p : HandlerReq × Fifo)
    → Steady p (mark_waiting_for session until p)
mark_waiting_for-Steady session until p =
    Stamped-Steady (mark_waiting_for-estimate session until p)
      (mark_waiting_for-Stamped session until p) (mark_waiting_for-Level session until p)

pub mark_kv_parked-Steady : (p : HandlerReq × Fifo) → Steady p (mark_kv_parked p)
unfolding mark_kv_parked
mark_kv_parked-Steady (r, s) =
    Stamped-Steady refl (mark_kv_parked-Stamped (r, s)) (mark_kv_parked-Level (r, s))

mark_grace_parked-estimate :
    (w : World) (evict : List String) (p : HandlerReq × Fifo)
    → (mark_grace_parked w evict p).0.estimated_tokens ≡ p.0.estimated_tokens
unfolding mark_grace_parked mark_waiting_for mark_parked
mark_grace_parked-estimate w evict (r, s) = ground arith

pub mark_grace_parked-Steady :
    (w : World) (evict : List String) (p : HandlerReq × Fifo)
    → Steady p (mark_grace_parked w evict p)
mark_grace_parked-Steady w evict p =
    Stamped-Steady (mark_grace_parked-estimate w evict p) (mark_grace_parked-Stamped w evict p)
      (mark_grace_parked-Level w evict p)

pub try_preempt-Calm :
    (r : HandlerReq) (evict : List String) (limit : ℕ) (s : Fifo)
    → Calm s (try_preempt r evict limit s).1
try_preempt-Calm r evict limit s = record {
  level = try_preempt-Level r evict limit s;
  quiet = try_preempt-Quiet r evict limit s;
}

pub deferred_by_grace-Calm :
    (w : World) (r : HandlerReq) (evict : List String) (s : Fifo)
    → Calm s (deferred_by_grace w r evict s).1
deferred_by_grace-Calm w r evict s = record {
  level = deferred_by_grace-Level w r evict s;
  quiet = deferred_by_grace-Quiet w r evict s;
}
