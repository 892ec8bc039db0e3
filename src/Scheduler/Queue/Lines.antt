-- ===== src/Scheduler/Queue/Lines.antt =====
-- fifo.go: the helpers, the queue, and the key of a request.
use llama_swap_macos_extende.Prelude.{
  ℕ, ◌≡◌, refl, ◌∙◌, subst, sym, String, List, Option, none, some, arith, any, if_cases,
}
use llama_swap_macos_extende.Prelude.Int.{ℤ}
use llama_swap_macos_extende.Scheduler.Types.{
  HandlerReq, World, Fifo, ParkReason, ServeDoneEvent, busy, cooldown, rfc3339,
}
use llama_swap_macos_extende.Scheduler.Park.{mark_parked, mark_waiting_for, mark_kv_parked}
use llama_swap_macos_extende.Scheduler.Queue.{goes_before}
use llama_swap_macos_extende.Scheduler.Admission.{release_kv}
use llama_swap_macos_extende.Scheduler.Preempt.{try_preempt}
use llama_swap_macos_extende.Scheduler.Preempt.Induct.{try_preempt_induct}
use llama_swap_macos_extende.Scheduler.Grace.{
  starts_later, grace_until, deferred_by_grace, mark_grace_parked,
}
use llama_swap_macos_extende.Scheduler.KvWarm.{kv_warm_on_done}
use llama_swap_macos_extende.Scheduler.Grant.{count_grant}
use llama_swap_macos_extende.Scheduler.Events.{serve_done_count, expire_forced_grace}
use llama_swap_macos_extende.Scheduler.Queue.Order.{IsSorted}

-- `t` has the queue of `s`, and its priorities.
pub record Lines (s t : Fifo) : Type 0 where
  pub priority : t.cfg.priority ≡ s.cfg.priority
  pub queued : t.queued ≡ s.queued

pub Lines-refl : (s : Fifo) → Lines s s
Lines-refl s = record { priority = refl; queued = refl }

pub Lines-trans : {s t u : Fifo} → Lines s t → Lines t u → Lines s u
Lines-trans p q = record { priority = q.priority ∙ p.priority; queued = q.queued ∙ p.queued }

-- The priorities are `p`, and the queue is sorted by them.
abbrev pub SortedBy : (String → ℤ) → Fifo → Type 0
SortedBy p s = (s.cfg.priority ≡ p) × IsSorted p s.queued

pub SortedBy-Lines : (p : String → ℤ) (s t : Fifo) → Lines s t → SortedBy p s → SortedBy p t
SortedBy-Lines p s t q h = (q.priority ∙ h.0, subst (IsSorted p) (sym q.queued) h.1)

-- The same place in the order.
pub record SameKey (r q : HandlerReq) : Type 0 where
  pub tier : q.tier ≡ r.tier
  pub model : q.model ≡ r.model
  pub arrival : q.arrival_seq ≡ r.arrival_seq

pub SameKey-refl : (r : HandlerReq) → SameKey r r
SameKey-refl r = record { tier = refl; model = refl; arrival = refl }

pub goes_before-SameKey :
    (p : String → ℤ) (r r' q q' : HandlerReq)
    → SameKey r r'
    → SameKey q q'
    → goes_before p r' q' ≡ goes_before p r q
unfolding goes_before
goes_before-SameKey p r r' q q' a b =
    rw (a.tier, a.model, a.arrival, b.tier, b.model, b.arrival) refl

-- A stamped pair: the key of the request and the queue are as before.
pub record Filed (p q : HandlerReq × Fifo) : Type 0 where
  pub key : SameKey p.0 q.0
  pub lines : Lines p.1 q.1

pub Filed-trans : {p q u : HandlerReq × Fifo} → Filed p q → Filed q u → Filed p u
Filed-trans a b = record {
  key = record {
    tier = b.key.tier ∙ a.key.tier;
    model = b.key.model ∙ a.key.model;
    arrival = b.key.arrival ∙ a.key.arrival;
  };
  lines = Lines-trans a.lines b.lines;
}

pub Filed-from :
    {r : HandlerReq} {s t : Fifo} {p : HandlerReq × Fifo}
    → Lines s t
    → Filed (r, t) p
    → Filed (r, s) p
Filed-from q a = record { key = a.key; lines = Lines-trans q a.lines }

pub mark_waiting_for-Filed :
    (session : String) (until : Option ℕ) (p : HandlerReq × Fifo)
    → Filed p (mark_waiting_for session until p)
unfolding mark_waiting_for
mark_waiting_for-Filed session until (r, s) = ground arith

pub mark_kv_parked-Filed : (p : HandlerReq × Fifo) → Filed p (mark_kv_parked p)
unfolding mark_kv_parked
mark_kv_parked-Filed (r, s) = ground arith

pub mark_parked-Filed :
    (reason : ParkReason) (p : HandlerReq × Fifo) → Filed p (mark_parked reason p)
unfolding mark_parked
mark_parked-Filed reason (r, s) = ground arith

pub mark_grace_parked-Filed :
    (w : World) (evict : List String) (p : HandlerReq × Fifo)
    → Filed p (mark_grace_parked w evict p)
unfolding mark_grace_parked
mark_grace_parked-Filed w evict (r, s) =
    if_cases (Filed (r, s)) (any (λ m. starts_later w.now (s.idle_since m)) evict) _ _
      (λ _. both busy none) (λ _. both cooldown (some (rfc3339 (grace_until w evict s))))
  where
    both :
        (reason : ParkReason) (until : Option ℕ)
        → Filed (r, s) (mark_waiting_for "" until (mark_parked reason (r, s)))
    both reason until =
        Filed-trans (mark_parked-Filed reason (r, s))
          (mark_waiting_for-Filed "" until (mark_parked reason (r, s)))

pub try_preempt-Lines :
    (r : HandlerReq) (evict : List String) (limit : ℕ) (s : Fifo)
    → Lines s (try_preempt r evict limit s).1
try_preempt-Lines r evict limit s =
    try_preempt_induct (Lines s) (λ i t q. record { priority = q.priority; queued = q.queued }) r
      evict limit s (Lines-refl s)

pub deferred_by_grace-Lines :
    (w : World) (r : HandlerReq) (evict : List String) (s : Fifo)
    → Lines s (deferred_by_grace w r evict s).1
unfolding deferred_by_grace
deferred_by_grace-Lines w r evict s = ground arith

pub count_grant-Lines : (r : HandlerReq) (m : String) (s : Fifo) → Lines s (count_grant r m s)
unfolding count_grant
count_grant-Lines r m s = ground arith

pub release_kv-Lines :
    (m : String) (estimate c : ℕ) (s : Fifo) → Lines s (release_kv m estimate c s).1
unfolding release_kv
release_kv-Lines m estimate c s = ground arith

pub serve_done_count-Lines :
    (w : World) (ev : ServeDoneEvent) (s : Fifo) → Lines s (serve_done_count w ev s)
unfolding serve_done_count
serve_done_count-Lines w ev s = ground arith

pub kv_warm_on_done-Lines :
    (w : World) (ev : ServeDoneEvent) (s : Fifo) → Lines s (kv_warm_on_done w ev s)
unfolding kv_warm_on_done
kv_warm_on_done-Lines w ev s = ground arith

pub expire_forced_grace-Lines : (w : World) (s : Fifo) → Lines s (expire_forced_grace w s)
unfolding expire_forced_grace
expire_forced_grace-Lines w s = ground arith
