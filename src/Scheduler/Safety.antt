-- ===== src/Scheduler/Safety.antt =====
-- fifo.go: which models the active swaps stop.
pub mod Tables
pub mod Route
pub mod Events
pub mod Steps
use llama_swap_macos_extende.Prelude.{
  ℕ, ◌≡◌, refl, Bool, true, false, String, List, [], ◌∷◌, Option, none, some, All, arith, ◌∙◌,
  contains_string, any, if_cases,
}
use llama_swap_macos_extende.Scheduler.Types.{
  HandlerReq, ActiveSwap, Fifo, ParkReason, World, busy, cooldown, rfc3339,
}
use llama_swap_macos_extende.Scheduler.Park.{mark_parked, mark_waiting_for, mark_kv_parked}
use llama_swap_macos_extende.Scheduler.Preempt.{try_preempt}
use llama_swap_macos_extende.Scheduler.Preempt.Induct.{try_preempt_induct}
use llama_swap_macos_extende.Scheduler.Grace.{
  starts_later, grace_until, deferred_by_grace, mark_grace_parked,
}
use llama_swap_macos_extende.Scheduler.Swaps.{conflicts_with_in_flight}

-- No evicted model of an active swap has a request in flight.
abbrev pub Idle : (String → ℕ) → List ActiveSwap → Type 0
Idle f active = All (λ sw. conflicts_with_in_flight sw.evict f ≡ false) active

abbrev pub SwapsApart : ActiveSwap → ActiveSwap → Type 0
SwapsApart a b =
    (contains_string a.evict b.model_id ≡ false) × (contains_string b.evict a.model_id ≡ false)

-- No active swap evicts the target of another.
abbrev pub Apart : List ActiveSwap → Type 0
Apart [] = Unit {0}
Apart (sw ∷ rest) = All (SwapsApart sw) rest × Apart rest

pub record SafeSwaps (f : String → ℕ) (active : List ActiveSwap) : Type 0 where
  pub idle : Idle f active
  pub apart : Apart active

abbrev pub Safe : Fifo → Type 0
Safe s = SafeSwaps s.in_flight s.active

-- `t` has the counts, the limits and the swaps of `s`.
pub record Still (s t : Fifo) : Type 0 where
  pub in_flight : t.in_flight ≡ s.in_flight
  pub active : t.active ≡ s.active
  pub limits : t.limits ≡ s.limits

pub Still-trans : {s t u : Fifo} → Still s t → Still t u → Still s u
Still-trans p q = record {
  in_flight = q.in_flight ∙ p.in_flight;
  active = q.active ∙ p.active;
  limits = q.limits ∙ p.limits;
}

pub Safe-Still : (s t : Fifo) → Still s t → Safe s → Safe t
Safe-Still s t q h = rw (q.in_flight, q.active) h

pub mark_waiting_for-Still :
    (session : String) (until : Option ℕ) (p : HandlerReq × Fifo)
    → Still p.1 (mark_waiting_for session until p).1
unfolding mark_waiting_for
mark_waiting_for-Still session until (r, s) = ground arith

pub mark_kv_parked-Still : (p : HandlerReq × Fifo) → Still p.1 (mark_kv_parked p).1
unfolding mark_kv_parked
mark_kv_parked-Still (r, s) = ground arith

pub mark_parked-Still :
    (reason : ParkReason) (p : HandlerReq × Fifo) → Still p.1 (mark_parked reason p).1
unfolding mark_parked
mark_parked-Still reason (r, s) = ground arith

pub try_preempt-Still :
    (r : HandlerReq) (evict : List String) (limit : ℕ) (s : Fifo)
    → Still s (try_preempt r evict limit s).1
try_preempt-Still r evict limit s =
    try_preempt_induct (Still s)
      (λ i t q. record { in_flight = q.in_flight; active = q.active; limits = q.limits }) r evict
      limit s (record { in_flight = refl; active = refl; limits = refl })

pub deferred_by_grace-Still :
    (w : World) (r : HandlerReq) (evict : List String) (s : Fifo)
    → Still s (deferred_by_grace w r evict s).1
unfolding deferred_by_grace
deferred_by_grace-Still w r evict s = ground arith

pub mark_grace_parked-Still :
    (w : World) (evict : List String) (p : HandlerReq × Fifo)
    → Still p.1 (mark_grace_parked w evict p).1
unfolding mark_grace_parked
mark_grace_parked-Still w evict (r, s) =
    if_cases (λ (q : HandlerReq × Fifo). Still s q.1)
      (any (λ m. starts_later w.now (s.idle_since m)) evict) _ _ (λ _. chain busy none)
      (λ _. chain cooldown (some (rfc3339 (grace_until w evict s))))
  where
    chain :
        (reason : ParkReason) (until : Option ℕ)
        → Still s (mark_waiting_for "" until (mark_parked reason (r, s))).1
    chain reason until =
        Still-trans (mark_parked-Still reason (r, s))
          (mark_waiting_for-Still "" until (mark_parked reason (r, s)))
