-- ===== src/Scheduler/Capacity/Decide.antt =====
-- fifo.go: grants, swaps, the decision tree, and the limits.
use llama_swap_macos_extende.Prelude.{
  ℕ, ◌+◌, ◌≤◌, ◌<◌, ◌≡◌, refl, ◌∙◌, subst, sym, false, not, ◌&&◌, String, List, [], ◌∷◌, Option,
  none, some, All, All-append, arith, if_cases, inl, inr, Bool-cases, Option-cases, update, str_eq,
  str_eq_iff,
}
use llama_swap_macos_extende.Scheduler.Types.{
  HandlerReq, World, Fifo, ActiveSwap, ProcessState, ParkReason, kv, kv_warm, cap, busy, loading,
  unparked, swap_collision, rfc3339, grant_serve, set_fifo_priority,
}
use llama_swap_macos_extende.Scheduler.Park.{
  emit, mark_parked, mark_waiting_for, mark_kv_parked, clear_parked,
}
use llama_swap_macos_extende.Scheduler.Swaps.{
  is_active, join_swap, running_set, collides_with, conflicts_with_in_flight,
}
use llama_swap_macos_extende.Scheduler.Admission.{limit, at_capacity, kv_admit, kv_waiting_session}
use llama_swap_macos_extende.Scheduler.Preempt.{try_preempt}
use llama_swap_macos_extende.Scheduler.Grace.{deferred_by_grace}
use llama_swap_macos_extende.Scheduler.KvWarm.{kv_warm_blocker}
use llama_swap_macos_extende.Scheduler.Grant.{
  Decision, stuck, settled, is_ready, is_empty, count_grant, grant_handler, start_swap, route_ready,
  route_swap, route,
}
use llama_swap_macos_extende.Scheduler.Conserve.Effects.{count_grant-Quiet}
use llama_swap_macos_extende.Scheduler.Safety.Tables.{All-delete}
use llama_swap_macos_extende.Scheduler.Safety.Route.{count_grant-in_flight}
use llama_swap_macos_extende.Scheduler.Capacity.{
  Ordinary, Waiter, Waiters, Capped, Capped-Calm, Steady, Steady-trans, Steady-from,
  mark_parked-Steady, mark_waiting_for-Steady, mark_kv_parked-Steady, mark_grace_parked-Steady,
  try_preempt-Calm, deferred_by_grace-Calm,
}

count_grant-limits :
    (r : HandlerReq) (m : String) (s : Fifo) → (count_grant r m s).limits ≡ s.limits
unfolding count_grant
count_grant-limits r m s = ground arith

-- A count below its bound may rise by one.
update-le :
    (f g : String → ℕ) (m : String)
    → ((n : String) → f n ≤ g n)
    → f m < g m
    → (n : String) → update f m (f m + 1) n ≤ g n
update-le f g m h lt n =
    if_cases (λ (x : ℕ). x ≤ g n) (str_eq n m) (f m + 1) (f n)
      (λ e. subst (λ k. f m + 1 ≤ g k) (sym ((str_eq_iff n m).0 e)) (omega arith)) (λ _. h n)

count_grant-Capped :
    (r : HandlerReq) (m : String) (s : Fifo)
    → s.in_flight m < limit s m
    → Capped s
    → Capped (count_grant r m s)
unfolding limit
count_grant-Capped r m s lt h =
    let q = count_grant-Quiet r m s in
    record {
      cap =
          rw (count_grant-in_flight r m s, count_grant-limits r m s)
            (update-le s.in_flight (limit s) m h.cap lt);
      queued = rw q.queued h.queued;
      held = rw q.penalized h.held;
      swaps = rw q.active h.swaps;
    }

pub grant_handler-Capped :
    (w : World) (r : HandlerReq) (m : String) (s : Fifo)
    → s.in_flight m < limit s m
    → Capped s
    → Capped (grant_handler w r m s)
unfolding grant_handler clear_parked limit
grant_handler-Capped w r m s lt h =
    let p = mark_parked unparked (r, s) in
    let q = (mark_parked-Steady unparked (r, s)).calm in
    let offered : Fifo =
      emit (grant_serve r.respond m (w.takes_grant r.respond))
        (emit (set_fifo_priority r.respond (s.cfg.priority r.model)) p.1) in
    let cleared = Capped-Calm s p.1 q h in
    let still : Capped offered = record {
      cap = cleared.cap;
      queued = cleared.queued;
      held = cleared.held;
      swaps = cleared.swaps;
    } in
    if_cases Capped (w.takes_grant r.respond) _ offered
      (λ _.
        if_cases Capped r.status_read offered (count_grant p.0 m offered) (λ _. still)
          (λ _. count_grant-Capped p.0 m offered (rw (q.still.in_flight, q.still.limits) lt) still))
      (λ _. still)

-- A decision that keeps within the limits.
abbrev pub Caps : HandlerReq → Fifo → Decision → Type 0
Caps r s (stuck p) = Steady (r, s) p
Caps r s (settled t) = Capped t

held :
    (p : HandlerReq × Fifo) (reason : ParkReason) (session : String) (until : Option ℕ)
    → Steady p (mark_waiting_for session until (mark_parked reason (mark_kv_parked p)))
held p reason session until = Steady-trans (mark_kv_parked-Steady p) (
    Steady-trans (mark_parked-Steady reason (mark_kv_parked p))
      (mark_waiting_for-Steady session until (mark_parked reason (mark_kv_parked p))))

route_ready-Caps :
    (w : World) (r : HandlerReq) (s : Fifo)
    → s.in_flight r.model < limit s r.model
    → Capped s
    → Caps r s (route_ready w r s)
unfolding route_ready
route_ready-Caps w r s lt h = elim (Bool-cases (kv_admit r.model r.estimated_tokens s)) [
  | inl e ↦ elim (Option-cases (kv_warm_blocker w r s)) [
    | inl n ↦ rw (e, n) (grant_handler-Capped w r r.model s lt h)
    | inr (b, y) ↦ rw (e, y) (held (r, s) kv_warm b.session (some (rfc3339 b.warm_until)))
  ]
  | inr e ↦
      let s1 = (try_preempt r (r.model ∷ []) 1 s).1 in
      rw e (
        Steady-from (try_preempt-Calm r (r.model ∷ []) 1 s)
          (held (r, s1) kv (kv_waiting_session s1 r.model) none))
]

start_swap-Capped :
    (r : HandlerReq) (evict running : List String) (s : Fifo)
    → Ordinary r
    → Capped s
    → Capped (start_swap r evict running s)
unfolding start_swap limit
start_swap-Capped r evict running s o h = record {
  cap = h.cap;
  queued = h.queued;
  held = h.held;
  swaps = (((o, refl), tt), All-delete Waiters r.model s.active h.swaps);
}

route_swap-Caps :
    (w : World) (r : HandlerReq) (evict running : List String) (s : Fifo)
    → Ordinary r
    → Capped s
    → Caps r s (route_swap w r evict running s)
unfolding route_swap
route_swap-Caps w r evict running s o h =
    let (deferred, s2) = deferred_by_grace w r evict s in
    let graced = deferred_by_grace-Calm w r evict s in
    let (r', s3) = mark_parked loading (r, s2) in
    let loaded = Steady-from graced (mark_parked-Steady loading (r, s2)) in
    if_cases (Caps r s) (collides_with r.model evict s.active) _ _
      (λ _. mark_parked-Steady swap_collision (r, s))
      (λ _.
        if_cases (Caps r s) (conflicts_with_in_flight evict s.in_flight) _ _
          (λ _. Steady-from (try_preempt-Calm r evict 0 s) (mark_parked-Steady busy _))
          (λ _.
            if_cases (Caps r s) deferred _ _
              (λ _. Steady-from graced (mark_grace_parked-Steady w evict (r, s2)))
              (λ _.
                start_swap-Capped r' evict running s3 (loaded.exempt ∙ o)
                  (Capped-Calm s s3 loaded.calm h))))

join_swap-Waiters :
    (r : HandlerReq) (active : List ActiveSwap)
    → Ordinary r
    → All Waiters active
    → All Waiters (join_swap r active)
unfolding join_swap
join_swap-Waiters r [] o h = tt
join_swap-Waiters r (sw ∷ rest) o h =
    if_cases (All Waiters) (str_eq sw.model_id r.model) _ (sw ∷ join_swap r rest)
      (λ e. (
        All-append (Waiter sw.model_id) sw.waiters (r ∷ []) h.0
            ((o, sym ((str_eq_iff sw.model_id r.model).0 e)), tt),
        h.1,
      ))
      (λ _. (h.0, join_swap-Waiters r rest o h.1))

pub below_limit :
    (r : HandlerReq) (s : Fifo)
    → Ordinary r
    → at_capacity r s ≡ false
    → s.in_flight r.model < limit s r.model
unfolding at_capacity
below_limit r s o c = ground arith

-- The decision tree keeps the counts within the limits, for a request that is not exempt.
pub route-Caps :
    (w : World) (state : ProcessState) (r : HandlerReq) (s : Fifo)
    → Ordinary r
    → Capped s
    → Caps r s (route w state r s)
unfolding route limit
route-Caps w state r s o h =
    let running = running_set w.running_models s.active r.model in
    let evict = w.eviction_for r.model running in
    let loaded = mark_parked-Steady loading (r, s) in
    let joined = Capped-Calm s _ loaded.calm h in
    if_cases (Caps r s) (is_active r.model s.active) _ _
      (λ _. record {
        cap = joined.cap;
        queued = joined.queued;
        held = joined.held;
        swaps = join_swap-Waiters (mark_parked loading (r, s)).0 _ (loaded.exempt ∙ o) joined.swaps;
      })
      (λ _.
        if_cases (Caps r s) (at_capacity r s) _ _
          (λ _. Steady-from (try_preempt-Calm r (r.model ∷ []) 1 s) (mark_parked-Steady cap _))
          (λ c.
            if_cases (Caps r s)
              (is_ready state && is_empty evict && not (collides_with r.model evict s.active)) _ _
              (λ _. route_ready-Caps w r s (below_limit r s o c) h)
              (λ _. route_swap-Caps w r evict running s o h)))
