-- ===== src/Scheduler/Conserve/Endings.antt =====
-- fifo.go, OnUnload and OnShutdown: the requests that they answer.
use llama_swap_macos_extende.Prelude.{
  ℕ, ◌+◌, ◌≡◌, refl, ap, ◌∙◌, not, List, [], ◌∷◌, String, arith, keep, contains_string,
}
use llama_swap_macos_extende.Scheduler.Types.{
  HandlerReq, World, Fifo, Error, ActiveSwap, model_unloaded, grant_error,
}
use llama_swap_macos_extende.Scheduler.Park.{emit}
use llama_swap_macos_extende.Scheduler.KvWarm.{kv_warm_forget}
use llama_swap_macos_extende.Scheduler.Events.{on_unload, grant_errors, waiters_of}
use llama_swap_macos_extende.Scheduler.Conserve.{occurs, waiting, count, answered, places}
use llama_swap_macos_extende.Scheduler.Conserve.Lists.{occurs-partition, waiting-partition}
use llama_swap_macos_extende.Scheduler.Conserve.Drain.{drain_queue-places}

pub grant_errors-answers :
    (id : ℕ) (e : Error) (rs : List HandlerReq) (s : Fifo)
    → count id (answered (grant_errors e rs s).effects)
      ≡ occurs id rs + count id (answered s.effects)
unfolding grant_errors
grant_errors-answers id e [] s = omega arith
grant_errors-answers id e (r ∷ rs) s =
    omega (arith, grant_errors-answers id e rs (emit (grant_error r.respond e) s))

pub grant_errors-lists :
    (e : Error) (rs : List HandlerReq) (s : Fifo)
    → ((grant_errors e rs s).queued ≡ s.queued)
      × ((grant_errors e rs s).active ≡ s.active)
      × ((grant_errors e rs s).penalized_reqs ≡ s.penalized_reqs)
unfolding grant_errors
grant_errors-lists e [] s = (refl, refl, refl)
grant_errors-lists e (r ∷ rs) s = grant_errors-lists e rs (emit (grant_error r.respond e) s)

-- Unloading models keeps the number of places of every request.
pub on_unload-places :
    (id : ℕ) (w : World) (targets : List String) (s : Fifo)
    → places id (on_unload w targets s) ≡ places id s
unfolding on_unload kv_warm_forget
on_unload-places id w targets s =
    let gone = λ (r : HandlerReq). contains_string targets r.model in
    let hit = λ (sw : ActiveSwap). contains_string targets sw.model_id in
    let s1 = kv_warm_forget targets s in
    let ws = waiters_of (keep hit s.active) in
    let s2 = grant_errors model_unloaded ws s1 in
    let l2 = grant_errors-lists model_unloaded ws s1 in
    let qs = keep gone s2.queued in
    let s3 = grant_errors model_unloaded qs s2 in
    let l3 = grant_errors-lists model_unloaded qs s2 in
    let ps = keep gone s3.penalized_reqs in
    let s4 = grant_errors model_unloaded ps s3 in
    let l4 = grant_errors-lists model_unloaded ps s3 in
    let left_waiting = λ (a : List ActiveSwap). waiting id (keep (λ sw. not (hit sw)) a) in
    let left = λ (q : List HandlerReq). occurs id (keep (λ r. not (gone r)) q) in
    let lost = λ (q : List HandlerReq). occurs id (keep gone q) in
    omega (
      arith,
      drain_queue-places id w _,
      waiting-partition id hit s.active,
      occurs-partition id gone s.queued,
      occurs-partition id gone s.penalized_reqs,
      grant_errors-answers id model_unloaded ws s1,
      grant_errors-answers id model_unloaded qs s2,
      grant_errors-answers id model_unloaded ps s3,
      ap left_waiting (l4.1 ∙ l3.1 ∙ l2.1),
      ap left (l4.0 ∙ l3.0 ∙ l2.0),
      ap left (l4.2 ∙ l3.2 ∙ l2.2),
      ap lost l2.0,
      ap lost (l3.2 ∙ l2.2),
    )
