-- ===== src/Scheduler/Queue/Decide.antt =====
-- fifo.go: the decision tree, the queue, and the key of a request.
use llama_swap_macos_extende.Prelude.{
  ℕ, refl, String, List, [], ◌∷◌, Option, none, some, not, ◌&&◌, if_cases, inl, inr, Bool-cases,
  Option-cases,
}
use llama_swap_macos_extende.Scheduler.Types.{
  HandlerReq, World, Fifo, ProcessState, ParkReason, kv, kv_warm, cap, busy, loading, unparked,
  swap_collision, rfc3339, grant_serve, set_fifo_priority,
}
use llama_swap_macos_extende.Scheduler.Park.{
  emit, mark_parked, mark_waiting_for, mark_kv_parked, clear_parked,
}
use llama_swap_macos_extende.Scheduler.Swaps.{
  is_active, running_set, collides_with, conflicts_with_in_flight,
}
use llama_swap_macos_extende.Scheduler.Admission.{at_capacity, kv_admit, kv_waiting_session}
use llama_swap_macos_extende.Scheduler.Preempt.{try_preempt}
use llama_swap_macos_extende.Scheduler.Grace.{deferred_by_grace}
use llama_swap_macos_extende.Scheduler.KvWarm.{kv_warm_blocker}
use llama_swap_macos_extende.Scheduler.Grant.{
  Decision, stuck, settled, is_ready, is_empty, count_grant, grant_handler, start_swap, route_ready,
  route_swap, route,
}
use llama_swap_macos_extende.Scheduler.Drain.{decide}
use llama_swap_macos_extende.Scheduler.Queue.Lines.{
  Lines, Lines-trans, Filed, Filed-trans, Filed-from, mark_parked-Filed, mark_waiting_for-Filed,
  mark_kv_parked-Filed, mark_grace_parked-Filed, try_preempt-Lines, deferred_by_grace-Lines,
  count_grant-Lines,
}

-- A decision that leaves the queue alone.
abbrev pub Files : HandlerReq → Fifo → Decision → Type 0
Files r s (stuck p) = Filed (r, s) p
Files r s (settled t) = Lines s t

pub grant_handler-Lines :
    (w : World) (r : HandlerReq) (m : String) (s : Fifo) → Lines s (grant_handler w r m s)
unfolding grant_handler clear_parked
grant_handler-Lines w r m s =
    let p = mark_parked unparked (r, s) in
    let offered : Fifo =
      emit (grant_serve r.respond m (w.takes_grant r.respond))
        (emit (set_fifo_priority r.respond (s.cfg.priority r.model)) p.1) in
    let cleared = mark_parked-Filed unparked (r, s) in
    let still : Lines s offered = record {
      priority = cleared.lines.priority;
      queued = cleared.lines.queued;
    } in
    if_cases (Lines s) (w.takes_grant r.respond) _ offered
      (λ _.
        if_cases (Lines s) r.status_read offered (count_grant p.0 m offered) (λ _. still)
          (λ _. Lines-trans still (count_grant-Lines p.0 m offered)))
      (λ _. still)

held :
    (p : HandlerReq × Fifo) (reason : ParkReason) (session : String) (until : Option ℕ)
    → Filed p (mark_waiting_for session until (mark_parked reason (mark_kv_parked p)))
held p reason session until = Filed-trans (mark_kv_parked-Filed p) (
    Filed-trans (mark_parked-Filed reason (mark_kv_parked p))
      (mark_waiting_for-Filed session until (mark_parked reason (mark_kv_parked p))))

route_ready-Files : (w : World) (r : HandlerReq) (s : Fifo) → Files r s (route_ready w r s)
unfolding route_ready
route_ready-Files w r s = elim (Bool-cases (kv_admit r.model r.estimated_tokens s)) [
  | inl e ↦ elim (Option-cases (kv_warm_blocker w r s)) [
    | inl n ↦ rw (e, n) (grant_handler-Lines w r r.model s)
    | inr (b, y) ↦ rw (e, y) (held (r, s) kv_warm b.session (some (rfc3339 b.warm_until)))
  ]
  | inr e ↦
      let s1 = (try_preempt r (r.model ∷ []) 1 s).1 in
      rw e (
        Filed-from (try_preempt-Lines r (r.model ∷ []) 1 s)
          (held (r, s1) kv (kv_waiting_session s1 r.model) none))
]

start_swap-Lines :
    (r : HandlerReq) (evict running : List String) (s : Fifo)
    → Lines s (start_swap r evict running s)
unfolding start_swap
start_swap-Lines r evict running s = record { priority = refl; queued = refl }

route_swap-Files :
    (w : World) (r : HandlerReq) (evict running : List String) (s : Fifo)
    → Files r s (route_swap w r evict running s)
unfolding route_swap
route_swap-Files w r evict running s =
    let (deferred, s2) = deferred_by_grace w r evict s in
    let graced = deferred_by_grace-Lines w r evict s in
    let (r', s3) = mark_parked loading (r, s2) in
    let loaded = Filed-from graced (mark_parked-Filed loading (r, s2)) in
    if_cases (Files r s) (collides_with r.model evict s.active) _ _
      (λ _. mark_parked-Filed swap_collision (r, s))
      (λ _.
        if_cases (Files r s) (conflicts_with_in_flight evict s.in_flight) _ _
          (λ _. Filed-from (try_preempt-Lines r evict 0 s) (mark_parked-Filed busy _))
          (λ _.
            if_cases (Files r s) deferred _ _
              (λ _. Filed-from graced (mark_grace_parked-Filed w evict (r, s2)))
              (λ _. Lines-trans loaded.lines (start_swap-Lines r' evict running s3))))

pub route-Files :
    (w : World) (state : ProcessState) (r : HandlerReq) (s : Fifo) → Files r s (route w state r s)
unfolding route
route-Files w state r s =
    let running = running_set w.running_models s.active r.model in
    let evict = w.eviction_for r.model running in
    let loaded = (mark_parked-Filed loading (r, s)).lines in
    if_cases (Files r s) (is_active r.model s.active) _ _
      (λ _. record { priority = loaded.priority; queued = loaded.queued })
      (λ _.
        if_cases (Files r s) (at_capacity r s) _ _
          (λ _. Filed-from (try_preempt-Lines r (r.model ∷ []) 1 s) (mark_parked-Filed cap _))
          (λ _.
            if_cases (Files r s)
              (is_ready state && is_empty evict && not (collides_with r.model evict s.active)) _ _
              (λ _. route_ready-Files w r s) (λ _. route_swap-Files w r evict running s)))

pub decide-Files : (w : World) (r : HandlerReq) (s : Fifo) → Files r s (decide w r s)
unfolding decide
decide-Files w r s = elim (Option-cases (w.model_state r.model)) [
  | inl e ↦ rw (e, decide) (record { priority = refl; queued = refl })
  | inr (state, e) ↦ rw (e, decide) (route-Files w state r s)
]
