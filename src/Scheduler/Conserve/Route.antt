-- ===== src/Scheduler/Conserve/Route.antt =====
-- fifo.go: grants, swaps, the decision tree, and the places of a request.
use llama_swap_macos_extende.Prelude.{
  ℕ, ◌+◌, ◌≡◌, ap, ◌∙◌, Bool, true, false, ◌&&◌, not, String, List, [], ◌∷◌, Option, none, some,
  arith, inl, inr, Bool-cases, Option-cases,
}
use llama_swap_macos_extende.Scheduler.Types.{
  HandlerReq, World, Fifo, ProcessState, ParkReason, grant_serve, set_fifo_priority, unparked,
  loading, kv, kv_warm, cap, busy, swap_collision, rfc3339,
}
use llama_swap_macos_extende.Scheduler.Park.{
  emit, mark_parked, mark_waiting_for, mark_kv_parked, clear_parked,
}
use llama_swap_macos_extende.Scheduler.Swaps.{
  is_active, running_set, collides_with, conflicts_with_in_flight,
}
use llama_swap_macos_extende.Scheduler.Admission.{at_capacity, kv_admit, kv_waiting_session}
use llama_swap_macos_extende.Scheduler.Preempt.{try_preempt}
use llama_swap_macos_extende.Scheduler.Grace.{deferred_by_grace}
use llama_swap_macos_extende.Scheduler.KvWarm.{kv_warm_blocker}
use llama_swap_macos_extende.Scheduler.Grant.{
  Decision, stuck, settled, is_ready, is_empty, grant_handler, start_swap, route_ready, route_swap,
  route,
}
use llama_swap_macos_extende.Scheduler.Conserve.{
  one, elsewhere, Quiet, Stamped, Stamped-trans, Quiet-trans, mark_parked-Stamped,
  mark_waiting_for-Stamped, mark_kv_parked-Stamped, elsewhere-Quiet,
}
use llama_swap_macos_extende.Scheduler.Conserve.Effects.{
  try_preempt-Quiet, deferred_by_grace-Quiet, mark_grace_parked-Stamped, count_grant-Quiet,
}
use llama_swap_macos_extende.Scheduler.Conserve.Lists.{waiting-join, delete-inactive}

-- The queue is left alone, and the request is one more time elsewhere.
pub record Placed (id : ℕ) (r : HandlerReq) (s t : Fifo) : Type 0 where
  pub queued : t.queued ≡ s.queued
  pub gained : elsewhere id t ≡ one id r.respond + elsewhere id s

-- A decision keeps the request: it is stuck and nothing moved, or it is settled.
abbrev pub Keeps : ℕ → HandlerReq → Fifo → Decision → Type 0
Keeps id r s (stuck p) = Stamped (r, s) p
Keeps id r s (settled t) = Placed id r s t

Placed-Quiet :
    {id : ℕ} {r : HandlerReq} {s t u : Fifo} → Placed id r s t → Quiet t u → Placed id r s u
Placed-Quiet {id} {r} {s} {t} {u} p q = record {
  queued = q.queued ∙ p.queued;
  gained = elsewhere-Quiet id t u q ∙ p.gained;
}

pub grant_handler-Placed :
    (id : ℕ) (w : World) (r : HandlerReq) (m : String) (s : Fifo)
    → Placed id r s (grant_handler w r m s)
unfolding grant_handler clear_parked
grant_handler-Placed id w r m s = elim (Bool-cases (w.takes_grant r.respond)) [
  | inl taken ↦ elim (Bool-cases r.status_read) [
    | inl status ↦ simp (taken, status) (offered true)
    | inr work ↦
        simp (taken, work)
          (Placed-Quiet (offered true) (count_grant-Quiet (mark_parked unparked (r, s)).0 m _))
  ]
  | inr gone ↦ rw gone (offered false)
]
  where
    cleared : Stamped (r, s) (mark_parked unparked (r, s))
    cleared = mark_parked-Stamped unparked (r, s)

    offered :
        (b : Bool)
        → Placed id r s (
            emit (grant_serve r.respond m b) (
              emit
                (set_fifo_priority r.respond (s.cfg.priority r.model))
                (mark_parked unparked (r, s)).1))
    offered b = record {
      queued = cleared.quiet.queued;
      gained = omega (arith, elsewhere-Quiet id s (mark_parked unparked (r, s)).1 cleared.quiet);
    }

start_swap-Placed :
    (id : ℕ) (r r' : HandlerReq) (evict running : List String) (s t : Fifo)
    → is_active r'.model t.active ≡ false
    → r'.respond ≡ r.respond
    → Quiet s t
    → Placed id r s (start_swap r' evict running t)
unfolding start_swap
start_swap-Placed id r r' evict running s t h e q = record {
  queued = q.queued;
  gained =
      rw (delete-inactive r'.model t.active h)
        (omega (arith, ap (one id) e, elsewhere-Quiet id s t q));
}

Stamped-from :
    {r : HandlerReq} {s t : Fifo} {p : HandlerReq × Fifo}
    → Quiet s t
    → Stamped (r, t) p
    → Stamped (r, s) p
Stamped-from q a = record { respond = a.respond; model = a.model; quiet = Quiet-trans q a.quiet }

held :
    (p : HandlerReq × Fifo) (reason : ParkReason) (session : String) (until : Option ℕ)
    → Stamped p (mark_waiting_for session until (mark_parked reason (mark_kv_parked p)))
held p reason session until = Stamped-trans (mark_kv_parked-Stamped p) (
    Stamped-trans (mark_parked-Stamped reason (mark_kv_parked p))
      (mark_waiting_for-Stamped session until (mark_parked reason (mark_kv_parked p))))

route_ready-Keeps :
    (id : ℕ) (w : World) (r : HandlerReq) (s : Fifo) → Keeps id r s (route_ready w r s)
unfolding route_ready
route_ready-Keeps id w r s = elim (Bool-cases (kv_admit r.model r.estimated_tokens s)) [
  | inl e ↦ elim (Option-cases (kv_warm_blocker w r s)) [
    | inl n ↦ rw (e, n) (grant_handler-Placed id w r r.model s)
    | inr (b, y) ↦ rw (e, y) (held (r, s) kv_warm b.session (some (rfc3339 b.warm_until)))
  ]
  | inr e ↦
      let s1 = (try_preempt r (r.model ∷ []) 1 s).1 in
      rw e (
        Stamped-from (try_preempt-Quiet r (r.model ∷ []) 1 s)
          (held (r, s1) kv (kv_waiting_session s1 r.model) none))
]

route_swap-Keeps :
    (id : ℕ) (w : World) (r : HandlerReq) (evict running : List String) (s : Fifo)
    → is_active r.model s.active ≡ false
    → Keeps id r s (route_swap w r evict running s)
unfolding route_swap
route_swap-Keeps id w r evict running s h =
    elim (Bool-cases (collides_with r.model evict s.active)) [
      | inl c ↦ rw c (mark_parked-Stamped swap_collision (r, s))
      | inr c ↦ elim (Bool-cases (conflicts_with_in_flight evict s.in_flight)) [
        | inl b ↦
            rw (c, b) (Stamped-from (try_preempt-Quiet r evict 0 s) (mark_parked-Stamped busy _))
        | inr b ↦
            let (deferred, s2) = deferred_by_grace w r evict s in
            let graced = deferred_by_grace-Quiet w r evict s in
            let loaded = Stamped-from graced (mark_parked-Stamped loading (r, s2)) in
            let (r', s3) = mark_parked loading (r, s2) in
            elim (Bool-cases deferred) [
              | inl d ↦
                  rw (c, b, d) (Stamped-from graced (mark_grace_parked-Stamped w evict (r, s2)))
              | inr d ↦
                  rw (c, b, d)
                    (start_swap-Placed id r r' evict running s s3
                      (rw (loaded.model, loaded.quiet.active) h) loaded.respond loaded.quiet)
            ]
      ]
    ]

-- Every branch of the decision tree keeps the request.
pub route-Keeps :
    (id : ℕ) (w : World) (state : ProcessState) (r : HandlerReq) (s : Fifo)
    → Keeps id r s (route w state r s)
unfolding route
route-Keeps id w state r s = elim (Bool-cases (is_active r.model s.active)) [
  | inl a ↦
      let p = mark_parked loading (r, s) in
      let loaded = mark_parked-Stamped loading (r, s) in
      rw a (record {
        queued = loaded.quiet.queued;
        gained = omega (
          arith,
          waiting-join id p.0 p.1.active (rw (loaded.model, loaded.quiet.active) a),
          ap (one id) loaded.respond,
          elsewhere-Quiet id s p.1 loaded.quiet,
        );
      })
  | inr a ↦ elim (Bool-cases (at_capacity r s)) [
    | inl c ↦
        rw (a, c)
          (Stamped-from (try_preempt-Quiet r (r.model ∷ []) 1 s) (mark_parked-Stamped cap _))
    | inr c ↦
        let running = running_set w.running_models s.active r.model in
        let evict = w.eviction_for r.model running in
        elim (Bool-cases
          (is_ready state && is_empty evict && not (collides_with r.model evict s.active))) [
            | inl ok ↦ rw (a, c, ok) (route_ready-Keeps id w r s)
            | inr no_serve ↦ rw (a, c, no_serve) (route_swap-Keeps id w r evict running s a)
          ]
  ]
]
