-- ===== src/Scheduler/Safety/Route.antt =====
-- fifo.go: the decision tree and the active swaps.
use llama_swap_macos_extende.Prelude.{
  ℕ, ◌+◌, ◌≡◌, ◌⊎◌, Bool, true, false, ◌&&◌, not, String, List, [], ◌∷◌, Option, none, some, ◌∙◌,
  ap, arith, if_cases, inl, inr, Bool-cases, Option-cases, update,
}
use llama_swap_macos_extende.Scheduler.Types.{
  HandlerReq, World, Fifo, ActiveSwap, ProcessState, ParkReason, unparked, loading, kv, kv_warm,
  cap, busy, swap_collision, rfc3339,
}
use llama_swap_macos_extende.Scheduler.Park.{
  mark_parked, mark_waiting_for, mark_kv_parked, clear_parked,
}
use llama_swap_macos_extende.Scheduler.Swaps.{
  is_active, running_set, collides_with, conflicts_with_in_flight,
}
use llama_swap_macos_extende.Scheduler.Admission.{at_capacity, kv_admit, kv_waiting_session}
use llama_swap_macos_extende.Scheduler.Preempt.{try_preempt}
use llama_swap_macos_extende.Scheduler.Grace.{deferred_by_grace}
use llama_swap_macos_extende.Scheduler.KvWarm.{kv_warm_blocker}
use llama_swap_macos_extende.Scheduler.Grant.{
  is_ready, is_empty, count_grant, grant_handler, start_swap, route_ready, route_swap, route,
}
use llama_swap_macos_extende.Scheduler.Drain.{state_after}
use llama_swap_macos_extende.Scheduler.Conserve.{mark_parked-Stamped}
use llama_swap_macos_extende.Scheduler.Conserve.Lists.{delete-inactive}
use llama_swap_macos_extende.Scheduler.Safety.{
  Safe, Still, Still-trans, Safe-Still, mark_parked-Still, mark_waiting_for-Still,
  mark_kv_parked-Still, try_preempt-Still, deferred_by_grace-Still, mark_grace_parked-Still,
}
use llama_swap_macos_extende.Scheduler.Safety.Tables.{
  Spared, Idle-raise, SafeSwaps-join, SafeSwaps-start, Spared-serve,
}

count_grant-active :
    (r : HandlerReq) (m : String) (s : Fifo) → (count_grant r m s).active ≡ s.active
unfolding count_grant
count_grant-active r m s = ground arith

pub count_grant-in_flight :
    (r : HandlerReq) (m : String) (s : Fifo)
    → (count_grant r m s).in_flight ≡ update s.in_flight m (s.in_flight m + 1)
unfolding count_grant
count_grant-in_flight r m s = ground arith

-- A grant counts one more request in flight, or none.
pub record Granted (m : String) (s t : Fifo) : Type 0 where
  pub active : t.active ≡ s.active
  pub in_flight :
      (t.in_flight ≡ s.in_flight) ⊎ (t.in_flight ≡ update s.in_flight m (s.in_flight m + 1))

pub grant_handler-Granted :
    (w : World) (r : HandlerReq) (m : String) (s : Fifo) → Granted m s (grant_handler w r m s)
unfolding grant_handler clear_parked
grant_handler-Granted w r m s =
    let cleared = mark_parked-Still unparked (r, s) in
    if_cases (Granted m s) (w.takes_grant r.respond) _ _
      (λ _.
        if_cases (Granted m s) r.status_read _ _
          (λ _. record { active = cleared.active; in_flight = inl cleared.in_flight })
          (λ _. record {
            active = count_grant-active _ m _ ∙ cleared.active;
            in_flight = inr (
                count_grant-in_flight _ m _
                ∙ ap (λ (f : String → ℕ). update f m (f m + 1)) cleared.in_flight);
          }))
      (λ _. record { active = cleared.active; in_flight = inl cleared.in_flight })

pub Granted-Safe : (m : String) (s t : Fifo) → Granted m s t → Spared m s.active → Safe s → Safe t
Granted-Safe m s t g sp h = raise g.in_flight
  where
    raise :
        (t.in_flight ≡ s.in_flight) ⊎ (t.in_flight ≡ update s.in_flight m (s.in_flight m + 1))
        → Safe t
    raise (inl e) = rw (e, g.active) h
    raise (inr e) =
        rw (e, g.active)
          (record {
            idle = Idle-raise m (s.in_flight m + 1) s.in_flight s.active sp h.idle;
            apart = h.apart;
          })

route_ready-Safe :
    (w : World) (r : HandlerReq) (s : Fifo)
    → Spared r.model s.active
    → Safe s
    → Safe (state_after (route_ready w r s))
unfolding route_ready
route_ready-Safe w r s sp h = elim (Bool-cases (kv_admit r.model r.estimated_tokens s)) [
  | inl e ↦ elim (Option-cases (kv_warm_blocker w r s)) [
    | inl n ↦ simp (e, n) (Granted-Safe r.model s _ (grant_handler-Granted w r r.model s) sp h)
    | inr (b, y) ↦
        simp (e, y) (Safe-Still s _ (held (r, s) kv_warm b.session (some (rfc3339 b.warm_until))) h)
  ]
  | inr e ↦
      let s1 = (try_preempt r (r.model ∷ []) 1 s).1 in
      simp e (
        Safe-Still s _
          (Still-trans (try_preempt-Still r (r.model ∷ []) 1 s)
            (held (r, s1) kv (kv_waiting_session s1 r.model) none))
          h)
]
  where
    held :
        (p : HandlerReq × Fifo) (reason : ParkReason) (session : String) (until : Option ℕ)
        → Still p.1 (mark_waiting_for session until (mark_parked reason (mark_kv_parked p))).1
    held p reason session until = Still-trans (mark_kv_parked-Still p) (
        Still-trans (mark_parked-Still reason (mark_kv_parked p))
          (mark_waiting_for-Still session until (mark_parked reason (mark_kv_parked p))))

start_swap-Safe :
    (r : HandlerReq) (evict running : List String) (s : Fifo)
    → is_active r.model s.active ≡ false
    → collides_with r.model evict s.active ≡ false
    → conflicts_with_in_flight evict s.in_flight ≡ false
    → Safe s
    → Safe (start_swap r evict running s)
unfolding start_swap
start_swap-Safe r evict running s a c b h =
    rw (delete-inactive r.model s.active a)
      (SafeSwaps-start r.model evict (r ∷ []) s.in_flight s.active a c b h)

route_swap-Safe :
    (w : World) (r : HandlerReq) (evict running : List String) (s : Fifo)
    → is_active r.model s.active ≡ false
    → Safe s
    → Safe (state_after (route_swap w r evict running s))
unfolding route_swap
route_swap-Safe w r evict running s a h = elim (Bool-cases (collides_with r.model evict s.active)) [
  | inl c ↦ simp c (Safe-Still s _ (mark_parked-Still swap_collision (r, s)) h)
  | inr c ↦ elim (Bool-cases (conflicts_with_in_flight evict s.in_flight)) [
    | inl b ↦
        simp (c, b)
          (Safe-Still s _ (Still-trans (try_preempt-Still r evict 0 s) (mark_parked-Still busy _))
            h)
    | inr b ↦
        let (deferred, s2) = deferred_by_grace w r evict s in
        let graced = deferred_by_grace-Still w r evict s in
        let (r', s3) = mark_parked loading (r, s2) in
        let model = (mark_parked-Stamped loading (r, s2)).model in
        let still = Still-trans graced (mark_parked-Still loading (r, s2)) in
        elim (Bool-cases deferred) [
          | inl d ↦
              simp (c, b, d)
                (Safe-Still s _ (Still-trans graced (mark_grace_parked-Still w evict (r, s2))) h)
          | inr d ↦
              simp (c, b, d)
                (start_swap-Safe r' evict running s3 (rw (model, still.active) a)
                  (rw (model, still.active) c) (rw still.in_flight b) (Safe-Still s s3 still h))
        ]
  ]
]

-- The test of the fast path: the model is evicted by no swap.
serve-Spared :
    (b : Bool) (m : String) (evict : List String) (active : List ActiveSwap)
    → (b && is_empty evict && not (collides_with m evict active)) ≡ true
    → is_active m active ≡ false
    → Spared m active
serve-Spared b m [] active h a = Spared-serve m active a (ground arith)
serve-Spared b m (x ∷ xs) active h a = absurd (ground arith)

-- The decision tree keeps the swaps safe, whatever the planner answers.
pub route-Safe :
    (w : World) (state : ProcessState) (r : HandlerReq) (s : Fifo)
    → Safe s
    → Safe (state_after (route w state r s))
unfolding route
route-Safe w state r s h = elim (Bool-cases (is_active r.model s.active)) [
  | inl a ↦
      let p = mark_parked loading (r, s) in
      simp a (
        SafeSwaps-join p.0 p.1.in_flight p.1.active
          (Safe-Still s p.1 (mark_parked-Still loading (r, s)) h))
  | inr a ↦ elim (Bool-cases (at_capacity r s)) [
    | inl c ↦
        simp (a, c)
          (Safe-Still s _
            (Still-trans (try_preempt-Still r (r.model ∷ []) 1 s) (mark_parked-Still cap _)) h)
    | inr c ↦
        let running = running_set w.running_models s.active r.model in
        let evict = w.eviction_for r.model running in
        elim (Bool-cases
          (is_ready state && is_empty evict && not (collides_with r.model evict s.active))) [
            | inl ok ↦
                simp (a, c, ok)
                  (route_ready-Safe w r s
                    (serve-Spared (is_ready state) r.model evict s.active ok a) h)
            | inr n ↦ simp (a, c, n) (route_swap-Safe w r evict running s a h)
          ]
  ]
]
