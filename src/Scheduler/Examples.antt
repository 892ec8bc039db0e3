-- ===== src/Scheduler/Examples.antt =====
-- fifo.go and kvwarm.go: concrete requests, schedulers and histories.
mod Moves
mod Guards
use llama_swap_macos_extende.Prelude.{
  ℕ, ◌+◌, ◌≤◌, ◌<◌, ◌≡◌, refl, ◌⊎◌, Bool, true, false, ◌&&◌, not, String, List, [], ◌∷◌, Option,
  none, some, All, arith, length, if◌then◌else◌, ◌==◌, str_eq,
}
use llama_swap_macos_extende.Prelude.Int.{ℤ, pos, negsuc, ltb_ℤ}
use llama_swap_macos_extende.Scheduler.Types.{
  Tier, HandlerReq, World, Fifo, FifoConfig, ActiveSwap, GrantedReq, KvResident, SwapDone,
  ServeDoneEvent, Error, ProcessState, ready, stopped, unparked, cap, swap_failed, shutting_down,
}
use llama_swap_macos_extende.Scheduler.Park.{ParkReason-discrete, mark_parked, mark_waiting_for}
use llama_swap_macos_extende.Scheduler.Queue.{
  enqueue, goes_before, insert_request, outranks, blocked_by_rank_barrier,
}
use llama_swap_macos_extende.Scheduler.Swaps.{is_active, being_evicted, find_swap}
use llama_swap_macos_extende.Scheduler.Admission.{
  limit, at_capacity, max_large_for, kv_admit, release_kv, reserve_kv,
}
use llama_swap_macos_extende.Scheduler.Preempt.{can_preempt, boot_victims, boot_models, try_preempt}
use llama_swap_macos_extende.Scheduler.Grace.{
  within_grace, breaks_grace, finish_cooldown, deferred_by_grace,
}
use llama_swap_macos_extende.Scheduler.KvWarm.{
  session_root, kv_warm_cooling, sort_residents, kv_warm_sorted, kv_warm_skips, total_tokens,
  largest, kv_warm_overflows, kv_warm_blocker, displaced,
}
use llama_swap_macos_extende.Scheduler.Grant.{stuck, route}
use llama_swap_macos_extende.Scheduler.Drain.{decide, drain_queue}
use llama_swap_macos_extende.Scheduler.Events.{
  on_request, on_cancel, on_swap_done, on_serve_done, on_tick, on_unload, on_shutdown,
  expire_forced_grace,
}
use llama_swap_macos_extende.Scheduler.Setup.{
  ModelConfig, Event, request, cancel, swap_done, serve_done, tick, shutdown, finish, new_fifo, run,
}
use llama_swap_macos_extende.Scheduler.Conserve.{one, count, answered, places}
use llama_swap_macos_extende.Scheduler.Conserve.Drain.{drain_queue-places}
use llama_swap_macos_extende.Scheduler.Conserve.Arrivals.{on_request-places}
use llama_swap_macos_extende.Scheduler.Conserve.Events.{
  on_cancel-places, on_swap_done-places, on_serve_done-places, on_tick-places,
}
use llama_swap_macos_extende.Scheduler.Conserve.Endings.{on_unload-places}
use llama_swap_macos_extende.Scheduler.Conserve.Histories.{arrivals, Runs, run-new_fifo-places}
use llama_swap_macos_extende.Scheduler.Safety.{Safe}
use llama_swap_macos_extende.Scheduler.Safety.Steps.{run-new_fifo-Safe}
use llama_swap_macos_extende.Scheduler.Queue.Order.{IsSorted, enqueue-IsSorted}
use llama_swap_macos_extende.Scheduler.Drain.Barrier.{
  ids, Idles, drain_queue-barrier, on_request-blocked,
}
use llama_swap_macos_extende.Scheduler.Admission.Laws.{release_kv-reserve_kv}
use llama_swap_macos_extende.Scheduler.Preempt.Bounds.{boots, try_preempt-boots, try_preempt-Kept}
use llama_swap_macos_extende.Scheduler.Grace.Laws.{finish_cooldown-deferred}
use llama_swap_macos_extende.Scheduler.KvWarm.Laws.{kv_warm_blocker-cooling}
use llama_swap_macos_extende.Scheduler.Events.Finish.{within_grace-expire}

-- An interactive tier above a batch tier.
abbrev pub chat : Tier
chat = record { name = "chat"; rank = pos 5; preempts = true; preemptible = false }

abbrev pub batch : Tier
batch = record { name = "batch"; rank = negsuc 0; preempts = false; preemptible = true }

abbrev pub req : ℕ → String → Tier → HandlerReq
req i m t = record {
  model = m;
  ctx = i;
  respond = i;
  has_admit = true;
  estimated_tokens = 9000;
  session = "root/lane";
  tier = t;
  concurrency_exempt = false;
  status_read = false;
  has_gate = false;
  has_preempt = true;
  has_setter = true;
  preempted = some i;
  park_reason = unparked;
  waiting_for_session = "";
  waiting_for_until = none;
  arrival_seq = i;
}

-- "big" and "small" cannot run together; "small" is loaded.
abbrev pub world : World
world = record {
  now = 5000000000;
  model_state = λ m. some (if str_eq m "small" then ready else stopped);
  running_models = "small" ∷ [];
  eviction_for = λ m running. if str_eq m "big" then "small" ∷ [] else [];
  takes_admission = λ i. true;
  takes_grant = λ i. true;
  penalty_held = λ i. false;
}

abbrev pub cfg : FifoConfig
cfg = record { priority = λ m. pos 0; kv_pool_tokens = λ m. 20000; decode_retention_seconds = 2 }

abbrev pub models : List (String × ModelConfig)
models =
    (
      "small",
      record { concurrency_limit = 1; swap_grace_seconds = 10; max_parallel_large_prefill = 2 },
    )
    ∷ (
      "big",
      record { concurrency_limit = 2; swap_grace_seconds = 0; max_parallel_large_prefill = 1 },
    )
    ∷ []

abbrev pub slot : String → ℕ → KvResident
slot id tokens = record {
  session = id;
  tokens = tokens;
  busy_count = 0;
  last_end = tokens;
  warm_until = 9000000000;
  tier_rank = pos 5;
}

-- "small" serves a batch request and has a cooling slot; it went idle two seconds ago as far as
-- its grace is concerned.
abbrev pub loaded : Fifo
loaded = record {
  cfg = cfg;
  limits = λ m. some 1;
  max_large = λ m. some 2;
  slot_count = λ m. 2;
  grace = λ m. 10000000000;
  active = [];
  in_flight = λ m. if str_eq m "small" then 1 else 0;
  queued = [];
  penalized_reqs = [];
  hold_only_when_contended = true;
  granted = λ m. if str_eq m "small" then record { tier = batch; id = some 1 } ∷ [] else [];
  kv_in_flight = λ m. if str_eq m "small" then 9000 else 0;
  kv_large_in_flight = λ m. if str_eq m "small" then 1 else 0;
  kv_large_order = λ m. if str_eq m "small" then 1 ∷ [] else [];
  kv_large_by_id = λ m c. none;
  kv_residents = λ m. if str_eq m "small" then slot "other/lane" 8000 ∷ [] else [];
  idle_since = λ m. some 3000000000;
  cooldown_forced = false;
  grace_expired_forced = false;
  next_arrival_seq = 1;
  last_served_tier = λ m. some chat;
  effects = [];
}

-- A swap to "big" under way, with a waiter.
abbrev pub swapping : Fifo
swapping = record loaded {
  in_flight = λ m. 0;
  active = record { model_id = "big"; evict = "small" ∷ []; waiters = req 2 "big" chat ∷ [] } ∷ [];
  queued = req 3 "small" chat ∷ req 4 "small" batch ∷ [];
  penalized_reqs = req 5 "small" batch ∷ [];
}

abbrev pub done : ServeDoneEvent
done = record {
  model_id = "small";
  status_read = false;
  looping = false;
  estimated_tokens = 9000;
  ctx = 1;
  session = "root/lane";
  tier = batch;
  slot_cooldown_off = false;
  holder = some 1;
  cap_release_only = false;
  cap_released = false;
}

-- Two requests for the two models, the end of the first, the swap and its end.
abbrev pub history : List (World × Event)
history =
    (world, request (req 1 "small" batch))
    ∷ (world, request (req 2 "big" chat))
    ∷ (world, tick)
    ∷ (world, serve_done done)
    ∷ (world, finish)
    ∷ (world, tick)
    ∷ (world, swap_done (record { model_id = "big"; err = none }))
    ∷ (world, cancel (req 2 "big" chat))
    ∷ []

-- "small" is at its cap: the first request is stuck and raises the barrier for the second.
abbrev pub capped : Fifo
capped = record loaded { queued = req 3 "small" chat ∷ req 4 "big" batch ∷ [] }
