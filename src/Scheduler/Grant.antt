-- ===== src/Scheduler/Grant.antt =====
-- fifo.go: grantHandler, startSwap and the decision tree that OnRequest and drainQueue share.
use llama_swap_macos_extende.Prelude.{
  ◌+◌, Bool, true, false, ◌&&◌, not, String, List, [], ◌∷◌, ◌++◌, none, some, if◌then◌else◌, update,
}
use llama_swap_macos_extende.Scheduler.Types.{
  HandlerReq, World, Fifo, ProcessState, ready, KvResident, loading, cap, kv, kv_warm, busy,
  swap_collision, rfc3339, grant_serve, swap_start, start_swap as start_swap_effect,
  set_fifo_priority,
}
use llama_swap_macos_extende.Scheduler.Park.{
  emit, mark_parked, mark_waiting_for, mark_kv_parked, clear_parked,
}
use llama_swap_macos_extende.Scheduler.Swaps.{
  is_active, join_swap, delete_swap, running_set, collides_with, conflicts_with_in_flight,
}
use llama_swap_macos_extende.Scheduler.Admission.{
  at_capacity, kv_admit, kv_waiting_session, reserve_kv,
}
use llama_swap_macos_extende.Scheduler.Preempt.{try_preempt}
use llama_swap_macos_extende.Scheduler.Grace.{deferred_by_grace, mark_grace_parked}
use llama_swap_macos_extende.Scheduler.KvWarm.{kv_warm_blocker, kv_warm_on_grant, kv_warm_forget}

-- The bookkeeping of a grant that the caller took.
unfoldable pub count_grant : HandlerReq → String → Fifo → Fifo
unfolding reserve_kv kv_warm_on_grant
count_grant r m s =
    let s1 : Fifo =
      reserve_kv r m (record s { in_flight = update s.in_flight m (s.in_flight m + 1) }) in
    let s2 = kv_warm_on_grant r m s1 in
    let s3 : Fifo =
      if r.has_preempt
      then record s2 {
        granted =
            update s2.granted m (s2.granted m ++ record { tier = r.tier; id = r.preempted } ∷ []);
      }
      else s2 in
    record s3 { last_served_tier = update s3.last_served_tier m (some r.tier) }

unfoldable pub grant_handler : World → HandlerReq → String → Fifo → Fifo
grant_handler w r m s =
    let (r', s1) = clear_parked (r, s) in
    let s2 : Fifo = emit (set_fifo_priority r.respond (s.cfg.priority r.model)) s1 in
    let s3 : Fifo = emit (grant_serve r.respond m (w.takes_grant r.respond)) s2 in
    if w.takes_grant r.respond then (if r.status_read then s3 else count_grant r' m s3) else s3

unfoldable pub start_swap : HandlerReq → List String → List String → Fifo → Fifo
unfolding kv_warm_forget
start_swap r evict running s =
    let s1 = kv_warm_forget evict (kv_warm_forget (r.model ∷ []) s) in
    emit (start_swap_effect r.model evict) (
      emit (swap_start r.model running) (record s1 {
        active =
            record { model_id = r.model; evict = evict; waiters = r ∷ [] }
            ∷ delete_swap r.model s1.active;
      }))

-- What one pass of the decision tree makes of a request: it waits on, or it is dealt with.
pub data Decision : Type 0 where
  stuck : HandlerReq × Fifo → Decision
  settled : Fifo → Decision

abbrev pub is_ready : ProcessState → Bool
is_ready ready = true
is_ready _ = false

abbrev pub is_empty : List String → Bool
is_empty [] = true
is_empty (x ∷ xs) = false

-- (4) The model is ready: KV admission, then the slot cooldown, then the grant.
unfoldable pub route_ready : World → HandlerReq → Fifo → Decision
route_ready w r s =
    let hold = λ (b : KvResident). stuck (
      mark_waiting_for b.session (some (rfc3339 b.warm_until))
        (mark_parked kv_warm (mark_kv_parked (r, s)))) in
    let serve : Decision = elim (kv_warm_blocker w r s) [
      | none ↦ settled (grant_handler w r r.model s)
      | some b ↦ hold b
    ] in
    let s1 = (try_preempt r (r.model ∷ []) 1 s).1 in
    if kv_admit r.model r.estimated_tokens s
    then serve
    else stuck (
        mark_waiting_for (kv_waiting_session s1 r.model) none
          (mark_parked kv (mark_kv_parked (r, s1))))

-- (5) to (7): a swap has to be started for the model.
unfoldable pub route_swap : World → HandlerReq → List String → List String → Fifo → Decision
route_swap w r evict running s =
    let s1 = (try_preempt r evict 0 s).1 in
    let (deferred, s2) = deferred_by_grace w r evict s in
    if collides_with r.model evict s.active
    then stuck (mark_parked swap_collision (r, s))
    else if conflicts_with_in_flight evict s.in_flight
    then stuck (mark_parked busy (r, s1))
    else if deferred
    then stuck (mark_grace_parked w evict (r, s2))
    else (let (r', s3) = mark_parked loading (r, s2) in settled (start_swap r' evict running s3))

-- (3) onwards: join a swap, wait at the concurrency cap, be served, or swap.
unfoldable pub route : World → ProcessState → HandlerReq → Fifo → Decision
route w state r s =
    let (r', s1) = mark_parked loading (r, s) in
    let running = running_set w.running_models s.active r.model in
    let evict = w.eviction_for r.model running in
    let s2 = (try_preempt r (r.model ∷ []) 1 s).1 in
    if is_active r.model s.active
    then settled (record s1 { active = join_swap r' s1.active })
    else if at_capacity r s
    then stuck (mark_parked cap (r, s2))
    else if is_ready state && is_empty evict && not (collides_with r.model evict s.active)
    then route_ready w r s
    else route_swap w r evict running s
