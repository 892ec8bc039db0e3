-- ===== src/Scheduler/Conserve.antt =====
-- fifo.go: where a request is: counts of its identity in the queue, the held list, the waiters of swaps and
-- the answers given; and states that differ in none of these.
pub mod Effects
pub mod Lists
pub mod Route
pub mod Drain
pub mod Arrivals
pub mod Events
pub mod Endings
pub mod Released
pub mod Unloaded
pub mod Histories
use llama_swap_macos_extende.Prelude.{
  ℕ, ◌+◌, ◌==◌, ◌≡◌, refl, ap, ◌∙◌, List, [], ◌∷◌, Option, none, some, if◌then◌else◌, arith, String,
}
use llama_swap_macos_extende.Scheduler.Types.{
  HandlerReq, ActiveSwap, Fifo, Effect, ParkReason, admission, grant_serve, grant_error, swap_start,
  start_swap, stop_processes, preempt, set_park_reason, set_kv_parked, set_waiting_for,
  set_fifo_priority,
}
use llama_swap_macos_extende.Scheduler.Park.{mark_parked, mark_waiting_for, mark_kv_parked}

abbrev pub one : ℕ → ℕ → ℕ
one id n = if n == id then 1 else 0

abbrev pub occurs : ℕ → List HandlerReq → ℕ
occurs id [] = 0
occurs id (r ∷ rs) = one id r.respond + occurs id rs

abbrev pub waiting : ℕ → List ActiveSwap → ℕ
waiting id [] = 0
waiting id (sw ∷ rest) = occurs id sw.waiters + waiting id rest

-- The identities that got a handler, an error or a refusal, the latest first.
abbrev pub answered : List Effect → List ℕ
answered [] = []
answered (admission i (some e) ∷ es) = i ∷ answered es
answered (admission i none ∷ es) = answered es
answered (grant_serve i m b ∷ es) = i ∷ answered es
answered (grant_error i e ∷ es) = i ∷ answered es
answered (swap_start m ms ∷ es) = answered es
answered (start_swap m ms ∷ es) = answered es
answered (stop_processes ms ∷ es) = answered es
answered (preempt i ∷ es) = answered es
answered (set_park_reason i p ∷ es) = answered es
answered (set_kv_parked i ∷ es) = answered es
answered (set_waiting_for i t u ∷ es) = answered es
answered (set_fifo_priority i p ∷ es) = answered es

abbrev pub count : ℕ → List ℕ → ℕ
count id [] = 0
count id (i ∷ is) = one id i + count id is

-- Everywhere but in the queue.
abbrev pub elsewhere : ℕ → Fifo → ℕ
elsewhere id s = occurs id s.penalized_reqs + waiting id s.active + count id (answered s.effects)

abbrev pub places : ℕ → Fifo → ℕ
places id s = occurs id s.queued + elsewhere id s

-- `t` differs from `s` in no place of a request.
pub record Quiet (s t : Fifo) : Type 0 where
  pub queued : t.queued ≡ s.queued
  pub active : t.active ≡ s.active
  pub penalized : t.penalized_reqs ≡ s.penalized_reqs
  pub answers : answered t.effects ≡ answered s.effects

pub Quiet-refl : (s : Fifo) → Quiet s s
Quiet-refl s = record { queued = refl; active = refl; penalized = refl; answers = refl }

pub Quiet-trans : {s t u : Fifo} → Quiet s t → Quiet t u → Quiet s u
Quiet-trans p q = record {
  queued = q.queued ∙ p.queued;
  active = q.active ∙ p.active;
  penalized = q.penalized ∙ p.penalized;
  answers = q.answers ∙ p.answers;
}

pub elsewhere-Quiet : (id : ℕ) (s t : Fifo) → Quiet s t → elsewhere id t ≡ elsewhere id s
elsewhere-Quiet id s t q =
    omega (arith, ap (occurs id) q.penalized, ap (waiting id) q.active, ap (count id) q.answers)

-- A stamped pair: the same request in a state with the same places.
pub record Stamped (p q : HandlerReq × Fifo) : Type 0 where
  pub respond : q.0.respond ≡ p.0.respond
  pub model : q.0.model ≡ p.0.model
  pub quiet : Quiet p.1 q.1

pub Stamped-trans : {p q u : HandlerReq × Fifo} → Stamped p q → Stamped q u → Stamped p u
Stamped-trans a b = record {
  respond = b.respond ∙ a.respond;
  model = b.model ∙ a.model;
  quiet = Quiet-trans a.quiet b.quiet;
}

pub mark_waiting_for-Stamped :
    (session : String) (until : Option ℕ) (p : HandlerReq × Fifo)
    → Stamped p (mark_waiting_for session until p)
unfolding mark_waiting_for
mark_waiting_for-Stamped session until (r, s) = ground arith

pub mark_kv_parked-Stamped : (p : HandlerReq × Fifo) → Stamped p (mark_kv_parked p)
unfolding mark_kv_parked
mark_kv_parked-Stamped (r, s) = ground arith

pub mark_parked-Stamped :
    (reason : ParkReason) (p : HandlerReq × Fifo) → Stamped p (mark_parked reason p)
unfolding mark_parked
mark_parked-Stamped reason (r, s) = ground arith
