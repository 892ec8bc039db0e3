-- ===== src/Scheduler/Events.antt =====
-- fifo.go: the event handlers of the Scheduler interface.
pub mod Finish
use llama_swap_macos_extende.Prelude.{
  ℕ, ◌+◌, ◌-◌, ltb, ◌==◌, Bool, true, false, ◌&&◌, ◌||◌, not, String, List, [], ◌∷◌, ◌++◌, Option,
  none, some, if◌then◌else◌, update, contains_string, keep, map,
}
use llama_swap_macos_extende.Scheduler.Types.{
  HandlerReq, World, Fifo, ProcessState, ActiveSwap, SwapDone, ServeDoneEvent, Error, penalized,
  rank_barrier, cap, kv, grant_error, stop_processes, model_not_found, model_not_loaded,
  model_unloaded,
}
use llama_swap_macos_extende.Scheduler.Park.{emit, mark_parked, mark_kv_parked}
use llama_swap_macos_extende.Scheduler.Queue.{enqueue, blocked_by_rank_barrier}
use llama_swap_macos_extende.Scheduler.Swaps.{is_active, find_swap, delete_swap, being_evicted}
use llama_swap_macos_extende.Scheduler.Admission.{
  admit, reject_admission, at_capacity, kv_admit, release_kv,
}
use llama_swap_macos_extende.Scheduler.Preempt.{drop_granted}
use llama_swap_macos_extende.Scheduler.Grace.{
  in_grace, consume_forced, consume_grace_expired_forced, cooldown_delay,
}
use llama_swap_macos_extende.Scheduler.KvWarm.{
  kv_warm_on_done, kv_warm_end_cooldowns, kv_warm_forget,
}
use llama_swap_macos_extende.Scheduler.Grant.{
  Decision, stuck, settled, is_ready, route, grant_handler,
}
use llama_swap_macos_extende.Scheduler.Drain.{drain_queue}

abbrev pub is_nil {ℓ} : {A : Type ℓ} → List A → Bool
is_nil [] = true
is_nil (x ∷ xs) = false

unfoldable pub contended : Fifo → Bool
contended s = not (is_nil s.queued) || not (is_nil s.active)

unfoldable pub penalty_held_under : World → Bool → HandlerReq → Fifo → Bool
penalty_held_under w contention r s =
    if not r.has_gate || r.status_read || r.concurrency_exempt
    then false
    else if not (w.penalty_held r.respond)
    then false
    else if s.hold_only_when_contended && not contention
    then false
    else true

unfoldable pub penalty_held : World → HandlerReq → Fifo → Bool
unfolding contended penalty_held_under
penalty_held w r s = penalty_held_under w (contended s) r s

-- What a decision means for an arrival: a stuck request is queued.
abbrev pub queue_stuck : Decision → Fifo
queue_stuck (stuck (r, s)) = enqueue r s
queue_stuck (settled s) = s

-- (1c) onwards, for a request that was admitted and stamped.
unfoldable pub place : World → ProcessState → HandlerReq → Fifo → Fifo
place w state r s =
    let (held, s1) = mark_parked penalized (r, s) in
    if penalty_held w r s
    then record s1 { penalized_reqs = s1.penalized_reqs ++ held ∷ [] }
    else if blocked_by_rank_barrier r s
    then queue_stuck (stuck (mark_parked rank_barrier (r, s)))
    else queue_stuck (route w state r s)

unfoldable pub on_known_request : World → ProcessState → HandlerReq → Fifo → Fifo
on_known_request w state r s =
    let (admitted, s1) = admit w r s in
    let seq = s1.next_arrival_seq + 1 in
    if r.status_read && not (is_ready state) && not (is_active r.model s.active)
    then reject_admission w r model_not_loaded s
    else if not admitted
    then s1
    else place w state (record r { arrival_seq = seq }) (record s1 { next_arrival_seq = seq })

unfoldable pub on_request : World → HandlerReq → Fifo → Fifo
on_request w r s = elim (w.model_state r.model) [
  | none ↦ reject_admission w r model_not_found s
  | some state ↦ on_known_request w state r s
]

-- Everything but one request.
abbrev pub others : HandlerReq → List HandlerReq → List HandlerReq
others r = keep (λ q. not (q.respond == r.respond))

abbrev pub without_waiter : HandlerReq → ActiveSwap → ActiveSwap
without_waiter r sw = record sw { waiters = others r sw.waiters }

unfoldable pub on_cancel : HandlerReq → Fifo → Fifo
on_cancel r s = record s {
  queued = others r s.queued;
  penalized_reqs = others r s.penalized_reqs;
  active = map (without_waiter r) s.active;
}

-- One waiter of a swap that ended.
unfoldable pub release_waiter : World → SwapDone → HandlerReq → Fifo → Fifo
release_waiter w ev r s = elim ev.err [
  | some e ↦ emit (grant_error r.respond e) s
  | none ↦
      let kv_parked = mark_parked kv (mark_kv_parked (r, s)) in
      let capped = mark_parked cap (r, s) in
      if at_capacity r s
      then enqueue capped.0 capped.1
      else if not (kv_admit r.model r.estimated_tokens s)
      then enqueue kv_parked.0 kv_parked.1
      else grant_handler w r ev.model_id s
]

unfoldable pub release_waiters : World → SwapDone → List HandlerReq → Fifo → Fifo
release_waiters w ev [] s = s
release_waiters w ev (r ∷ rs) s = release_waiters w ev rs (release_waiter w ev r s)

-- The new model's idle clock starts if the swap succeeded.
abbrev pub start_idle : World → SwapDone → Fifo → String → Option ℕ
start_idle w ev s = elim ev.err [
  | none ↦ update s.idle_since ev.model_id (some w.now)
  | some e ↦ s.idle_since
]

unfoldable pub on_swap_done : World → SwapDone → Fifo → Fifo
on_swap_done w ev s = elim (find_swap ev.model_id s.active) [
  | none ↦ s
  | some sw ↦ drain_queue w (
      release_waiters w ev sw.waiters
        (record s { active = delete_swap ev.model_id s.active; idle_since = start_idle w ev s }))
]

-- The idle reference after a completion: a looping session earns no fresh grace.
abbrev pub idle_reference : World → ServeDoneEvent → Fifo → Option ℕ → Option ℕ
idle_reference w ev s (some since) =
    if ev.looping then some since else some (w.now + cooldown_delay s)
idle_reference w ev s none = if ev.looping then some w.now else some (w.now + cooldown_delay s)

-- The count of the model falls, and its idle clock starts when it reaches 0.
unfoldable pub serve_done_count : World → ServeDoneEvent → Fifo → Fifo
unfolding drop_granted cooldown_delay
serve_done_count w ev s =
    let n = if ev.cap_released then s.in_flight ev.model_id else s.in_flight ev.model_id - 1 in
    let s1 : Fifo =
      drop_granted ev.model_id ev.holder
        (record s { in_flight = update s.in_flight ev.model_id n }) in
    if n == 0
    then record s1 {
      idle_since =
          update s1.idle_since ev.model_id (idle_reference w ev s (s1.idle_since ev.model_id));
    }
    else s1

unfoldable pub on_serve_done : World → ServeDoneEvent → Fifo → Fifo
on_serve_done w ev s =
    let s1 = serve_done_count w ev s in
    let (released, s2) = release_kv ev.model_id ev.estimated_tokens ev.ctx s1 in
    if ev.status_read
    then s
    else if ev.cap_release_only
    then drain_queue w
        (record s { in_flight = update s.in_flight ev.model_id (s.in_flight ev.model_id - 1) })
    else drain_queue w (kv_warm_on_done w ev s2)

-- The loop of releasePenalized, over one reading of the contention: those still held, and the
-- state in which the others are queued.
unfoldable pub release_loop : World → Bool → List HandlerReq → Fifo → List HandlerReq × Fifo
release_loop w contention [] s = ([], s)
release_loop w contention (r ∷ rs) s =
    let held = penalty_held_under w contention r s in
    let rest = release_loop w contention rs (if held then s else enqueue r s) in
    (if held then r ∷ rest.0 else rest.0, rest.1)

unfoldable pub release_penalized : World → Fifo → Fifo
release_penalized w s =
    let (kept, s') = release_loop w (contended s) s.penalized_reqs s in
    record s' { penalized_reqs = kept }

-- Every model idle inside its grace loses its idle reference.
unfoldable pub expire_forced_grace : World → Fifo → Fifo
unfolding consume_grace_expired_forced kv_warm_end_cooldowns
expire_forced_grace w s =
    let (forced, s1) = consume_grace_expired_forced s in
    let s2 = kv_warm_end_cooldowns s1 in
    if not forced then s1 else record s2 {
      idle_since = λ m.
          if ltb 0 (s.in_flight m) || being_evicted m s.active
          then s.idle_since m
          else if in_grace w.now (s.grace m) (s.idle_since m)
          then none
          else s.idle_since m;
    }

unfoldable pub on_tick : World → Fifo → Fifo
on_tick w s =
    let s1 = release_penalized w s in
    let (forced, s2) = consume_grace_expired_forced s1 in
    let s3 : Fifo =
      if is_nil s1.queued
      then (consume_forced (expire_forced_grace w (consume_forced s1).1)).1
      else if forced
      then kv_warm_end_cooldowns s2
      else s2 in
    drain_queue w s3

-- An error for each request of the list, in order.
unfoldable pub grant_errors : Error → List HandlerReq → Fifo → Fifo
grant_errors e [] s = s
grant_errors e (r ∷ rs) s = grant_errors e rs (emit (grant_error r.respond e) s)

-- The waiters of the swaps of unloaded models.
unfoldable pub waiters_of : List ActiveSwap → List HandlerReq
waiters_of [] = []
waiters_of (sw ∷ rest) = sw.waiters ++ waiters_of rest

unfoldable pub on_unload : World → List String → Fifo → Fifo
on_unload w targets s =
    let gone = λ (r : HandlerReq). contains_string targets r.model in
    let hit = λ (sw : ActiveSwap). contains_string targets sw.model_id in
    let s1 = kv_warm_forget targets s in
    let s2 = grant_errors model_unloaded (waiters_of (keep hit s1.active)) s1 in
    let s3 = grant_errors model_unloaded (keep gone s2.queued) s2 in
    let s4 = grant_errors model_unloaded (keep gone s3.penalized_reqs) s3 in
    drain_queue w (
      emit (stop_processes targets) (record s4 {
        active = keep (λ sw. not (hit sw)) s4.active;
        queued = keep (λ r. not (gone r)) s4.queued;
        penalized_reqs = keep (λ r. not (gone r)) s4.penalized_reqs;
      }))

unfoldable pub on_shutdown : Error → Fifo → Fifo
on_shutdown e s =
    grant_errors e s.penalized_reqs
      (grant_errors e s.queued (grant_errors e (waiters_of s.active) s))
