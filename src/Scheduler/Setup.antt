-- ===== src/Scheduler/Setup.antt =====
-- fifo.go: NewFIFO and SetHoldOnlyWhenContended; the events that the router's run loop hands to
-- the scheduler, one at a time.
use llama_swap_macos_extende.Prelude.{
  ℕ, ◌*◌, ltb, Bool, true, false, String, List, [], ◌∷◌, none, some, if◌then◌else◌, str_eq,
}
use llama_swap_macos_extende.Scheduler.Types.{
  HandlerReq, World, Fifo, FifoConfig, SwapDone, ServeDoneEvent, Error, nanoseconds,
}
use llama_swap_macos_extende.Scheduler.Admission.{default_concurrency_limit}
use llama_swap_macos_extende.Scheduler.Grace.{finish_cooldown}
use llama_swap_macos_extende.Scheduler.KvWarm.{end_slot_cooldown}
use llama_swap_macos_extende.Scheduler.Events.{
  on_request, on_cancel, on_swap_done, on_serve_done, on_tick, on_unload, on_shutdown,
}

-- The parts of config.ModelConfig that the scheduler reads.
pub record ModelConfig : Type 0 where
  pub concurrency_limit : ℕ
  pub swap_grace_seconds : ℕ
  pub max_parallel_large_prefill : ℕ

-- A table made by the loop over `models`.
table {ℓ} : {V : Type ℓ} → V → (ModelConfig → V) → List (String × ModelConfig) → String → V
table absent f [] m = absent
table absent f ((id, mc) ∷ rest) m = if str_eq id m then f mc else table absent f rest m

unfoldable pub new_fifo : FifoConfig → List (String × ModelConfig) → Fifo
unfolding table
new_fifo cfg models = record {
  cfg = cfg;
  limits =
      table none
        (λ mc.
          some (
            if ltb 0 mc.concurrency_limit then mc.concurrency_limit else default_concurrency_limit))
        models;
  max_large = table none (λ mc. some mc.max_parallel_large_prefill) models;
  slot_count = table 0 (λ mc. mc.concurrency_limit) models;
  grace = table 0 (λ mc. mc.swap_grace_seconds * nanoseconds) models;
  active = [];
  in_flight = λ m. 0;
  queued = [];
  penalized_reqs = [];
  hold_only_when_contended = true;
  granted = λ m. [];
  kv_in_flight = λ m. 0;
  kv_large_in_flight = λ m. 0;
  kv_large_order = λ m. [];
  kv_large_by_id = λ m c. none;
  kv_residents = λ m. [];
  idle_since = λ m. none;
  cooldown_forced = false;
  grace_expired_forced = false;
  next_arrival_seq = 0;
  last_served_tier = λ m. none;
  effects = [];
}

unfoldable pub set_hold_only_when_contended : Bool → Fifo → Fifo
set_hold_only_when_contended on s = record s { hold_only_when_contended = on }

pub data Event : Type 0 where
  request : HandlerReq → Event
  cancel : HandlerReq → Event
  swap_done : SwapDone → Event
  serve_done : ServeDoneEvent → Event
  tick : Event
  unload : List String → Event
  shutdown : Error → Event
  finish : Event
  end_slot : String → Event

unfoldable pub step : World → Event → Fifo → Fifo
step w (request r) s = on_request w r s
step w (cancel r) s = on_cancel r s
step w (swap_done ev) s = on_swap_done w ev s
step w (serve_done ev) s = on_serve_done w ev s
step w tick s = on_tick w s
step w (unload targets) s = on_unload w targets s
step w (shutdown e) s = on_shutdown e s
step w finish s = finish_cooldown s
step w (end_slot session) s = end_slot_cooldown w session s

-- A history: each event with what the rest of the program answers meanwhile.
unfoldable pub run : List (World × Event) → Fifo → Fifo
run [] s = s
run ((w, e) ∷ es) s = run es (step w e s)
