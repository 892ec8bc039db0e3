-- ===== src/Scheduler/Conserve/Unloaded.antt =====
-- fifo.go, OnUnload: what becomes of the requests for the unloaded models.
use llama_swap_macos_extende.Prelude.{
  ℕ, ◌+◌, ◌≡◌, refl, ap, ◌∙◌, Bool, true, false, not, List, [], ◌∷◌, String, arith, keep, keep-All,
  All, All-map, contains_string, if◌then◌else◌,
}
use llama_swap_macos_extende.Scheduler.Types.{
  HandlerReq, World, Fifo, ActiveSwap, model_unloaded, stop_processes,
}
use llama_swap_macos_extende.Scheduler.Park.{emit}
use llama_swap_macos_extende.Scheduler.KvWarm.{kv_warm_forget}
use llama_swap_macos_extende.Scheduler.Drain.{drain_queue}
use llama_swap_macos_extende.Scheduler.Events.{on_unload, grant_errors, waiters_of}
use llama_swap_macos_extende.Scheduler.Conserve.{one, occurs, waiting, count, answered, places}
use llama_swap_macos_extende.Scheduler.Conserve.Lists.{
  occurs-append, occurs-partition, waiting-partition,
}
use llama_swap_macos_extende.Scheduler.Conserve.Endings.{
  grant_errors-answers, grant_errors-lists, on_unload-places,
}

-- How often the request is in a list for one of the models.
abbrev pub occurs_for : ℕ → List String → List HandlerReq → ℕ
occurs_for id targets [] = 0
occurs_for id targets (r ∷ rs) =
    if contains_string targets r.model
    then one id r.respond + occurs_for id targets rs
    else occurs_for id targets rs

-- How often it waits for a swap to one of the models.
abbrev pub waiting_for : ℕ → List String → List ActiveSwap → ℕ
waiting_for id targets [] = 0
waiting_for id targets (sw ∷ rest) =
    if contains_string targets sw.model_id
    then occurs id sw.waiters + waiting_for id targets rest
    else waiting_for id targets rest

occurs_for-keep :
    (id : ℕ) (targets : List String) (rs : List HandlerReq)
    → occurs id (keep (λ r. contains_string targets r.model) rs) ≡ occurs_for id targets rs
occurs_for-keep id targets [] = refl
occurs_for-keep id targets (r ∷ rs) = ground (arith, occurs_for-keep id targets rs)

waiting_for-keep :
    (id : ℕ) (targets : List String) (active : List ActiveSwap)
    → occurs id (waiters_of (keep (λ sw. contains_string targets sw.model_id) active))
      ≡ waiting_for id targets active
unfolding waiters_of
waiting_for-keep id targets [] = refl
waiting_for-keep id targets (sw ∷ rest) = ground (
  arith,
  waiting_for-keep id targets rest,
  occurs-append id sw.waiters (waiters_of (keep (λ x. contains_string targets x.model_id) rest)),
)

not_kept {ℓ} :
    {A : Type ℓ} (f : A → Bool) (xs : List A) → All (λ x. f x ≡ false) (keep (λ x. not (f x)) xs)
not_kept f xs =
    All-map (λ x. not (f x) ≡ true) (λ x. f x ≡ false) (λ x h. ground arith)
      (keep (λ x. not (f x)) xs) (keep-All (λ x. not (f x)) xs)

-- `t` is `s` without what waits for the models, all of which is answered.
abbrev pub IsUnloaded : ℕ → List String → Fifo → Fifo → Type 0
IsUnloaded id targets s t =
    All (λ r. contains_string targets r.model ≡ false) t.queued
    × All (λ r. contains_string targets r.model ≡ false) t.penalized_reqs
    × All (λ sw. contains_string targets sw.model_id ≡ false) t.active
    × (occurs id t.queued + occurs_for id targets s.queued ≡ occurs id s.queued)
    × (occurs id t.penalized_reqs + occurs_for id targets s.penalized_reqs
        ≡ occurs id s.penalized_reqs)
    × (waiting id t.active + waiting_for id targets s.active ≡ waiting id s.active)
    × (count id (answered t.effects)
        ≡ count id (answered s.effects)
          + occurs_for id targets s.queued
          + occurs_for id targets s.penalized_reqs
          + waiting_for id targets s.active)

-- Unloading models takes every request that waits for them out of the queue, the held list and the
-- swaps, drops the swaps to them, answers each request once for every place taken, and leaves the
-- other places alone; a pass over the queue follows, and over all the number of places of every
-- request is kept.
pub on_unload-IsUnloaded :
    (id : ℕ) (w : World) (targets : List String) (s : Fifo)
    → (t : Fifo) × IsUnloaded id targets s t
      × (on_unload w targets s ≡ drain_queue w t)
      × (places id (on_unload w targets s) ≡ places id s)
unfolding on_unload kv_warm_forget
on_unload-IsUnloaded id w targets s =
    let gone = λ (r : HandlerReq). contains_string targets r.model in
    let hit = λ (sw : ActiveSwap). contains_string targets sw.model_id in
    let s1 = kv_warm_forget targets s in
    let ws = waiters_of (keep hit s.active) in
    let s2 = grant_errors model_unloaded ws s1 in
    let l2 = grant_errors-lists model_unloaded ws s1 in
    let qs = keep gone s2.queued in
    let s3 = grant_errors model_unloaded qs s2 in
    let l3 = grant_errors-lists model_unloaded qs s2 in
    let ps = keep gone s3.penalized_reqs in
    let s4 = grant_errors model_unloaded ps s3 in
    let l4 = grant_errors-lists model_unloaded ps s3 in
    let left_waiting = λ (a : List ActiveSwap). waiting id (keep (λ sw. not (hit sw)) a) in
    let left = λ (q : List HandlerReq). occurs id (keep (λ r. not (gone r)) q) in
    let lost = λ (q : List HandlerReq). occurs id (keep gone q) in
    let queue_left = ap left (l4.0 ∙ l3.0 ∙ l2.0) in
    let held_left = ap left (l4.2 ∙ l3.2 ∙ l2.2) in
    let queue_lost = occurs_for-keep id targets s.queued in
    let held_lost = occurs_for-keep id targets s.penalized_reqs in
    let waiters_lost = waiting_for-keep id targets s.active in
    (
      emit (stop_processes targets) (record s4 {
        active = keep (λ sw. not (hit sw)) s4.active;
        queued = keep (λ r. not (gone r)) s4.queued;
        penalized_reqs = keep (λ r. not (gone r)) s4.penalized_reqs;
      }),
      (
        not_kept gone s4.queued,
        not_kept gone s4.penalized_reqs,
        not_kept hit s4.active,
        omega (arith, queue_left, queue_lost, occurs-partition id gone s.queued),
        omega (arith, held_left, held_lost, occurs-partition id gone s.penalized_reqs),
        omega (
          arith,
          ap left_waiting (l4.1 ∙ l3.1 ∙ l2.1),
          waiters_lost,
          waiting-partition id hit s.active,
        ),
        omega (
          arith,
          queue_lost,
          held_lost,
          waiters_lost,
          grant_errors-answers id model_unloaded ws s1,
          grant_errors-answers id model_unloaded qs s2,
          grant_errors-answers id model_unloaded ps s3,
          ap lost l2.0,
          ap lost (l3.2 ∙ l2.2),
        ),
      ),
      refl,
      on_unload-places id w targets s,
    )
