-- ===== src/Scheduler/Admission.antt =====
-- fifo.go: the admission handshake, the concurrency cap and the KV-pool admission.
pub mod Laws
use llama_swap_macos_extende.Prelude.{
  ℕ, ◌+◌, ◌-◌, ltb, leb, ◌==◌, Bool, true, false, ◌&&◌, ◌||◌, not, String, List, [], ◌∷◌, ◌++◌,
  Option, none, some, if◌then◌else◌, update,
}
use llama_swap_macos_extende.Scheduler.Types.{HandlerReq, World, Fifo, Error, admission}
use llama_swap_macos_extende.Scheduler.Park.{emit}

abbrev pub default_concurrency_limit : ℕ
default_concurrency_limit = 10

abbrev pub large_prefill_threshold : ℕ
large_prefill_threshold = 8192

abbrev pub default_max_parallel_large_prefill : ℕ
default_max_parallel_large_prefill = 1

-- Whether the caller took the answer; without a channel there is nobody to ask.
unfoldable pub send_admission : World → HandlerReq → Option Error → Fifo → Bool × Fifo
send_admission w r err s =
    if not r.has_admit
    then (true, s)
    else if w.takes_admission r.respond
    then (true, emit (admission r.respond err) s)
    else (false, s)

unfoldable pub admit : World → HandlerReq → Fifo → Bool × Fifo
unfolding send_admission
admit w r s = send_admission w r none s

unfoldable pub reject_admission : World → HandlerReq → Error → Fifo → Fifo
unfolding send_admission
reject_admission w r e s = (send_admission w r (some e) s).1

abbrev or_default {ℓ} : {A : Type ℓ} → Option A → A → A
or_default none d = d
or_default (some a) d = a

unfoldable pub limit : Fifo → String → ℕ
limit s m = or_default (s.limits m) default_concurrency_limit

unfoldable pub at_capacity : HandlerReq → Fifo → Bool
at_capacity r s =
    if r.concurrency_exempt then false else leb (limit s r.model) (s.in_flight r.model)

unfoldable pub max_large_for : Fifo → String → ℕ
max_large_for s m = or_default (s.max_large m) default_max_parallel_large_prefill

abbrev is_large : ℕ → Bool
is_large estimate = leb large_prefill_threshold estimate

unfoldable pub kv_admit : String → ℕ → Fifo → Bool
kv_admit m estimate s =
    if s.cfg.kv_pool_tokens m == 0
    then true
    else if s.kv_in_flight m == 0
    then true
    else if ltb 0 (max_large_for s m)
        && is_large estimate
        && leb (max_large_for s m) (s.kv_large_in_flight m)
    then false
    else leb (s.kv_in_flight m + estimate) (s.cfg.kv_pool_tokens m)

-- The first entry of the grant order that is still in the table.
first_session : (ℕ → Option HandlerReq) → List ℕ → String
first_session by_id [] = ""
first_session by_id (c ∷ cs) = elim (by_id c) [ none ↦ first_session by_id cs | some r ↦ r.session ]

unfoldable pub kv_waiting_session : Fifo → String → String
unfolding first_session
kv_waiting_session s m = first_session (s.kv_large_by_id m) (s.kv_large_order m)

-- `append(ids[:i], ids[i+1:]...)` at the first match.
unfoldable pub drop_first : ℕ → List ℕ → List ℕ
drop_first c [] = []
drop_first c (d ∷ ds) = if d == c then ds else d ∷ drop_first c ds

unfoldable pub release_kv : String → ℕ → ℕ → Fifo → Bool × Fifo
unfolding drop_first
release_kv m estimate c s = if estimate == 0 || s.kv_in_flight m == 0 then (false, s) else (
  true,
  record s {
    kv_in_flight = update s.kv_in_flight m (s.kv_in_flight m - estimate);
    kv_large_in_flight =
        if is_large estimate && ltb 0 (s.kv_large_in_flight m)
        then update s.kv_large_in_flight m (s.kv_large_in_flight m - 1)
        else s.kv_large_in_flight;
    kv_large_order = update s.kv_large_order m (drop_first c (s.kv_large_order m));
    kv_large_by_id = update s.kv_large_by_id m (λ d. if d == c then none else s.kv_large_by_id m d);
  },
)

-- grantHandler's KV reservation.
unfoldable pub reserve_kv : HandlerReq → String → Fifo → Fifo
reserve_kv r m s =
    if ltb 0 r.estimated_tokens
    then record s {
      kv_in_flight = update s.kv_in_flight m (s.kv_in_flight m + r.estimated_tokens);
      kv_large_in_flight =
          if is_large r.estimated_tokens
          then update s.kv_large_in_flight m (s.kv_large_in_flight m + 1)
          else s.kv_large_in_flight;
      kv_large_order =
          if is_large r.estimated_tokens
          then update s.kv_large_order m (s.kv_large_order m ++ r.ctx ∷ [])
          else s.kv_large_order;
      kv_large_by_id =
          if is_large r.estimated_tokens
          then update s.kv_large_by_id m (λ d. if d == r.ctx then some r else s.kv_large_by_id m d)
          else s.kv_large_by_id;
    }
    else s
