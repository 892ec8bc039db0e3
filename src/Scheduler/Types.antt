-- ===== src/Scheduler/Types.antt =====
-- internal/router/scheduler/scheduler.go, the state of fifo.go, internal/swaputil/tier.go.
-- Times are nanoseconds; a request is identified by its Respond channel, `respond`.
use llama_swap_macos_extende.Prelude.{ℕ, ◌/◌, Bool, String, List, Option}
use llama_swap_macos_extende.Prelude.Int.{ℤ}

-- swaputil.Tier.
pub record Tier : Type 0 where
  pub name : String
  pub rank : ℤ
  pub preempts : Bool
  pub preemptible : Bool

pub data ProcessState : Type 0 where
  stopped starting ready stopping shutdown : ProcessState

-- The Park constants; `unparked` is the empty string.
pub data ParkReason : Type 0 where
  unparked cap kv busy cooldown loading rank_barrier swap_collision penalized kv_warm : ParkReason

pub data Error : Type 0 where
  model_not_found model_not_loaded model_unloaded shutting_down : Error
  swap_failed : ℕ → Error

-- `waiting_for_until` is a time formatted to the second, `none` the empty string. `ctx` is the
-- identity of the request's context, `preempted` that of its preemption flag, and the Booleans
-- `has_admit`, `has_gate`, `has_preempt` and `has_setter` say whether the channel, the penalty
-- gate, the cancel function and the metadata setter are there.
pub record HandlerReq : Type 0 where
  pub model : String
  pub ctx : ℕ
  pub respond : ℕ
  pub has_admit : Bool
  pub estimated_tokens : ℕ
  pub session : String
  pub tier : Tier
  pub concurrency_exempt : Bool
  pub status_read : Bool
  pub has_gate : Bool
  pub has_preempt : Bool
  pub has_setter : Bool
  pub preempted : Option ℕ
  pub park_reason : ParkReason
  pub waiting_for_session : String
  pub waiting_for_until : Option ℕ
  pub arrival_seq : ℕ

-- time.Format(time.RFC3339) tells two times apart by the second only.
abbrev pub nanoseconds : ℕ
nanoseconds = 1000000000

abbrev pub rfc3339 : ℕ → ℕ
rfc3339 t = t / nanoseconds

pub record SwapDone : Type 0 where
  pub model_id : String
  pub err : Option Error

pub record ServeDoneEvent : Type 0 where
  pub model_id : String
  pub status_read : Bool
  pub looping : Bool
  pub estimated_tokens : ℕ
  pub ctx : ℕ
  pub session : String
  pub tier : Tier
  pub slot_cooldown_off : Bool
  pub holder : Option ℕ
  pub cap_release_only : Bool
  pub cap_released : Bool

-- What the scheduler does to the rest of the program.
pub data Effect : Type 0 where
  admission : ℕ → Option Error → Effect
  grant_serve : ℕ → String → Bool → Effect
  grant_error : ℕ → Error → Effect
  swap_start : String → List String → Effect
  start_swap : String → List String → Effect
  stop_processes : List String → Effect
  preempt : Option ℕ → Effect
  set_park_reason : ℕ → ParkReason → Effect
  set_kv_parked : ℕ → Effect
  set_waiting_for : ℕ → String → Option ℕ → Effect
  set_fifo_priority : ℕ → ℤ → Effect

-- What the rest of the program answers while one event is handled: the clock, the processes, the
-- planner, and for each request whether its caller still takes an answer and whether the loop
-- guard holds its session.
pub record World : Type 0 where
  pub now : ℕ
  pub model_state : String → Option ProcessState
  pub running_models : List String
  pub eviction_for : String → List String → List String
  pub takes_admission : ℕ → Bool
  pub takes_grant : ℕ → Bool
  pub penalty_held : ℕ → Bool

pub record GrantedReq : Type 0 where
  pub tier : Tier
  pub id : Option ℕ

pub record ActiveSwap : Type 0 where
  pub model_id : String
  pub evict : List String
  pub waiters : List HandlerReq

pub record KvResident : Type 0 where
  pub session : String
  pub tokens : ℕ
  pub busy_count : ℕ
  pub last_end : ℕ
  pub warm_until : ℕ
  pub tier_rank : ℤ

pub record FifoConfig : Type 0 where
  pub priority : String → ℤ
  pub kv_pool_tokens : String → ℕ
  pub decode_retention_seconds : ℕ

-- The FIFO struct. `effects` is the log of what it did, the latest first.
pub record Fifo : Type 0 where
  pub cfg : FifoConfig
  pub limits : String → Option ℕ
  pub max_large : String → Option ℕ
  pub slot_count : String → ℕ
  pub grace : String → ℕ
  pub active : List ActiveSwap
  pub in_flight : String → ℕ
  pub queued : List HandlerReq
  pub penalized_reqs : List HandlerReq
  pub hold_only_when_contended : Bool
  pub granted : String → List GrantedReq
  pub kv_in_flight : String → ℕ
  pub kv_large_in_flight : String → ℕ
  pub kv_large_order : String → List ℕ
  pub kv_large_by_id : String → ℕ → Option HandlerReq
  pub kv_residents : String → List KvResident
  pub idle_since : String → Option ℕ
  pub cooldown_forced : Bool
  pub grace_expired_forced : Bool
  pub next_arrival_seq : ℕ
  pub last_served_tier : String → Option Tier
  pub effects : List Effect
