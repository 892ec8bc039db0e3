-- ===== src/Scheduler/Pool/Decide.antt =====
-- fifo.go: grants, swaps, the decision tree, and the KV pool.
use llama_swap_macos_extende.Prelude.{
  true, ltb, if◌then◌else◌, ℕ, ◌+◌, ◌≡◌, refl, subst, sym, not, ◌&&◌, String, List, [], ◌∷◌, Option,
  none, some, All, All-append, arith, if_cases, inl, inr, Bool-cases, Option-cases, update, str_eq,
  str_eq_iff,
}
use llama_swap_macos_extende.Scheduler.Types.{
  HandlerReq, World, Fifo, ActiveSwap, ProcessState, ParkReason, kv, kv_warm, cap, busy, loading,
  unparked, swap_collision, rfc3339, grant_serve, set_fifo_priority,
}
use llama_swap_macos_extende.Scheduler.Park.{
  emit, mark_parked, mark_waiting_for, mark_kv_parked, clear_parked,
}
use llama_swap_macos_extende.Scheduler.Swaps.{
  is_active, join_swap, running_set, collides_with, conflicts_with_in_flight,
}
use llama_swap_macos_extende.Scheduler.Admission.{at_capacity, kv_admit, kv_waiting_session}
use llama_swap_macos_extende.Scheduler.Preempt.{try_preempt}
use llama_swap_macos_extende.Scheduler.Grace.{deferred_by_grace}
use llama_swap_macos_extende.Scheduler.KvWarm.{kv_warm_blocker}
use llama_swap_macos_extende.Scheduler.Grant.{
  Decision, stuck, settled, is_ready, is_empty, count_grant, grant_handler, start_swap, route_ready,
  route_swap, route,
}
use llama_swap_macos_extende.Scheduler.Conserve.Effects.{count_grant-Quiet}
use llama_swap_macos_extende.Scheduler.Safety.Tables.{All-delete}
use llama_swap_macos_extende.Scheduler.Pool.{
  Bounded, within, IsWithin, Waiter, Waiters, Pooled, Pooled-Calm, Steady, Steady-trans,
  Steady-from, mark_parked-Steady, mark_waiting_for-Steady, mark_kv_parked-Steady,
  mark_grace_parked-Steady, try_preempt-Calm, deferred_by_grace-Calm,
}

-- What the KV admission of a request leaves room for.
abbrev pub Room : ℕ → HandlerReq → String → Fifo → Type 0
Room most r m s = Bounded most (s.cfg.kv_pool_tokens m) (s.kv_in_flight m + r.estimated_tokens)

pub admitted-Room :
    (most : ℕ) (r : HandlerReq) (s : Fifo)
    → IsWithin most r
    → kv_admit r.model r.estimated_tokens s ≡ true
    → Room most r r.model s
unfolding kv_admit
admitted-Room most r s o e = ground arith

count_grant-kv :
    (r : HandlerReq) (m : String) (s : Fifo)
    → (count_grant r m s).kv_in_flight ≡ (
        if ltb 0 r.estimated_tokens
        then update s.kv_in_flight m (s.kv_in_flight m + r.estimated_tokens)
        else s.kv_in_flight)
unfolding count_grant
count_grant-kv r m s = ground arith

count_grant-cfg : (r : HandlerReq) (m : String) (s : Fifo) → (count_grant r m s).cfg ≡ s.cfg
unfolding count_grant
count_grant-cfg r m s = ground arith

update-Bounded :
    (most k : ℕ) (f g : String → ℕ) (m : String)
    → ((n : String) → Bounded most (g n) (f n))
    → Bounded most (g m) k
    → (n : String) → Bounded most (g n) (update f m k n)
update-Bounded most k f g m h b n =
    if_cases (Bounded most (g n)) (str_eq n m) k (f n)
      (λ e. subst (λ j. Bounded most (g j) k) (sym ((str_eq_iff n m).0 e)) b) (λ _. h n)

count_grant-Pooled :
    (most : ℕ) (r : HandlerReq) (m : String) (s : Fifo)
    → Room most r m s
    → Pooled most s
    → Pooled most (count_grant r m s)
count_grant-Pooled most r m s room h =
    let q = count_grant-Quiet r m s in
    record {
      bound =
          rw (count_grant-kv r m s, count_grant-cfg r m s)
            (if_cases
              (λ (f : String → ℕ). (n : String) → Bounded most (s.cfg.kv_pool_tokens n) (f n))
              (ltb 0 r.estimated_tokens) _ _
              (λ _.
                update-Bounded most (s.kv_in_flight m + r.estimated_tokens) s.kv_in_flight
                  s.cfg.kv_pool_tokens m h.bound room)
              (λ _. h.bound));
      queued = rw q.queued h.queued;
      held = rw q.penalized h.held;
      swaps = rw q.active h.swaps;
    }

pub grant_handler-Pooled :
    (most : ℕ) (w : World) (r : HandlerReq) (m : String) (s : Fifo)
    → Room most r m s
    → Pooled most s
    → Pooled most (grant_handler w r m s)
unfolding grant_handler clear_parked
grant_handler-Pooled most w r m s room h =
    let p = mark_parked unparked (r, s) in
    let stamped = mark_parked-Steady unparked (r, s) in
    let q = stamped.calm in
    let offered : Fifo =
      emit (grant_serve r.respond m (w.takes_grant r.respond))
        (emit (set_fifo_priority r.respond (s.cfg.priority r.model)) p.1) in
    let cleared = Pooled-Calm most s p.1 q h in
    let still : Pooled most offered = record {
      bound = cleared.bound;
      queued = cleared.queued;
      held = cleared.held;
      swaps = cleared.swaps;
    } in
    if_cases (Pooled most) (w.takes_grant r.respond) _ offered
      (λ _.
        if_cases (Pooled most) r.status_read offered (count_grant p.0 m offered) (λ _. still)
          (λ _.
            count_grant-Pooled most p.0 m offered
              (kept p.0 p.1 stamped.estimate q.level.kv q.level.cfg) still))
      (λ _. still)
  where
    kept :
        (r' : HandlerReq) (s' : Fifo)
        → r'.estimated_tokens ≡ r.estimated_tokens
        → s'.kv_in_flight ≡ s.kv_in_flight
        → s'.cfg ≡ s.cfg
        → Room most r' m s'
    kept r' s' e k c = rw (e, k, c) room

-- A decision that keeps within the bound.
abbrev pub Pools : ℕ → HandlerReq → Fifo → Decision → Type 0
(Pools most) r s (stuck p) = Steady (r, s) p
(Pools most) r s (settled t) = Pooled most t

held :
    (p : HandlerReq × Fifo) (reason : ParkReason) (session : String) (until : Option ℕ)
    → Steady p (mark_waiting_for session until (mark_parked reason (mark_kv_parked p)))
held p reason session until = Steady-trans (mark_kv_parked-Steady p) (
    Steady-trans (mark_parked-Steady reason (mark_kv_parked p))
      (mark_waiting_for-Steady session until (mark_parked reason (mark_kv_parked p))))

route_ready-Pools :
    (most : ℕ) (w : World) (r : HandlerReq) (s : Fifo)
    → IsWithin most r
    → Pooled most s
    → Pools most r s (route_ready w r s)
unfolding route_ready
route_ready-Pools most w r s o h = elim (Bool-cases (kv_admit r.model r.estimated_tokens s)) [
  | inl e ↦ elim (Option-cases (kv_warm_blocker w r s)) [
    | inl n ↦ rw (e, n) (grant_handler-Pooled most w r r.model s (admitted-Room most r s o e) h)
    | inr (b, y) ↦ rw (e, y) (held (r, s) kv_warm b.session (some (rfc3339 b.warm_until)))
  ]
  | inr e ↦
      let s1 = (try_preempt r (r.model ∷ []) 1 s).1 in
      rw e (
        Steady-from (try_preempt-Calm r (r.model ∷ []) 1 s)
          (held (r, s1) kv (kv_waiting_session s1 r.model) none))
]

start_swap-Pooled :
    (most : ℕ) (r : HandlerReq) (evict running : List String) (s : Fifo)
    → IsWithin most r
    → Pooled most s
    → Pooled most (start_swap r evict running s)
unfolding start_swap
start_swap-Pooled most r evict running s o h = record {
  bound = h.bound;
  queued = h.queued;
  held = h.held;
  swaps = (((o, refl), tt), All-delete (Waiters most) r.model s.active h.swaps);
}

route_swap-Pools :
    (most : ℕ) (w : World) (r : HandlerReq) (evict running : List String) (s : Fifo)
    → IsWithin most r
    → Pooled most s
    → Pools most r s (route_swap w r evict running s)
unfolding route_swap
route_swap-Pools most w r evict running s o h =
    let (deferred, s2) = deferred_by_grace w r evict s in
    let graced = deferred_by_grace-Calm w r evict s in
    let (r', s3) = mark_parked loading (r, s2) in
    let loaded = Steady-from graced (mark_parked-Steady loading (r, s2)) in
    if_cases ((Pools most) r s) (collides_with r.model evict s.active) _ _
      (λ _. mark_parked-Steady swap_collision (r, s))
      (λ _.
        if_cases ((Pools most) r s) (conflicts_with_in_flight evict s.in_flight) _ _
          (λ _. Steady-from (try_preempt-Calm r evict 0 s) (mark_parked-Steady busy _))
          (λ _.
            if_cases ((Pools most) r s) deferred _ _
              (λ _. Steady-from graced (mark_grace_parked-Steady w evict (r, s2)))
              (λ _.
                start_swap-Pooled most r' evict running s3 (within most loaded.estimate o)
                  (Pooled-Calm most s s3 loaded.calm h))))

join_swap-Waiters :
    (most : ℕ) (r : HandlerReq) (active : List ActiveSwap)
    → IsWithin most r
    → All (Waiters most) active
    → All (Waiters most) (join_swap r active)
unfolding join_swap
join_swap-Waiters most r [] o h = tt
join_swap-Waiters most r (sw ∷ rest) o h =
    if_cases (All (Waiters most)) (str_eq sw.model_id r.model) _ (sw ∷ join_swap r rest)
      (λ e. (
        All-append (Waiter most sw.model_id) sw.waiters (r ∷ []) h.0
            ((o, sym ((str_eq_iff sw.model_id r.model).0 e)), tt),
        h.1,
      ))
      (λ _. (h.0, join_swap-Waiters most r rest o h.1))

-- The decision tree keeps the KV tokens within their bound, for a request whose estimate is.
pub route-Pools :
    (most : ℕ) (w : World) (state : ProcessState) (r : HandlerReq) (s : Fifo)
    → IsWithin most r
    → Pooled most s
    → Pools most r s (route w state r s)
unfolding route
route-Pools most w state r s o h =
    let running = running_set w.running_models s.active r.model in
    let evict = w.eviction_for r.model running in
    let loaded = mark_parked-Steady loading (r, s) in
    let joined = Pooled-Calm most s _ loaded.calm h in
    if_cases ((Pools most) r s) (is_active r.model s.active) _ _
      (λ _. record {
        bound = joined.bound;
        queued = joined.queued;
        held = joined.held;
        swaps =
            join_swap-Waiters most (mark_parked loading (r, s)).0 _ (within most loaded.estimate o)
              joined.swaps;
      })
      (λ _.
        if_cases ((Pools most) r s) (at_capacity r s) _ _
          (λ _. Steady-from (try_preempt-Calm r (r.model ∷ []) 1 s) (mark_parked-Steady cap _))
          (λ c.
            if_cases ((Pools most) r s)
              (is_ready state && is_empty evict && not (collides_with r.model evict s.active)) _ _
              (λ _. route_ready-Pools most w r s o h)
              (λ _. route_swap-Pools most w r evict running s o h)))
