-- ===== src/Scheduler/Drain.antt =====
-- fifo.go: drainQueue.
pub mod Barrier
use llama_swap_macos_extende.Prelude.{Bool, false, List, [], ◌∷◌, Option, none, some, if◌then◌else◌}
use llama_swap_macos_extende.Prelude.Int.{ℤ, ltb_ℤ}
use llama_swap_macos_extende.Scheduler.Types.{
  HandlerReq, World, Fifo, rank_barrier, grant_error, model_not_found,
}
use llama_swap_macos_extende.Scheduler.Park.{emit, mark_parked}
use llama_swap_macos_extende.Scheduler.KvWarm.{kv_warm_prune}
use llama_swap_macos_extende.Scheduler.Grant.{Decision, stuck, settled, route}

-- A request of a model that this router does not handle gets an error.
unfoldable pub decide : World → HandlerReq → Fifo → Decision
decide w r s = elim (w.model_state r.model) [
  | none ↦ settled (emit (grant_error r.respond model_not_found) s)
  | some state ↦ route w state r s
]

-- barrierArmed and barrierRank: `none` is a barrier that is not armed.
abbrev pub below_barrier : Option ℤ → HandlerReq → Bool
below_barrier none r = false
below_barrier (some rank) r = ltb_ℤ r.tier.rank rank

abbrev pub raise_barrier : Option ℤ → HandlerReq → Option ℤ
raise_barrier none r = some r.tier.rank
raise_barrier (some rank) r = some (if ltb_ℤ rank r.tier.rank then r.tier.rank else rank)

abbrev pub barrier_after : Option ℤ → Decision → Option ℤ
barrier_after b (stuck (r, s)) = raise_barrier b r
barrier_after b (settled s) = b

abbrev pub state_after : Decision → Fifo
state_after (stuck (r, s)) = s
state_after (settled s) = s

abbrev pub keep_stuck : Decision → List HandlerReq → List HandlerReq
keep_stuck (stuck (r, s)) rest = r ∷ rest
keep_stuck (settled s) rest = rest

-- What the loop decides for one request: below the barrier it is stuck untried.
abbrev pub decided : World → Option ℤ → HandlerReq → Fifo → Decision
decided w barrier r s =
    if below_barrier barrier r then stuck (mark_parked rank_barrier (r, s)) else decide w r s

-- The loop over the pending requests: those that remain, and the state.
unfoldable pub drain_loop : World → List HandlerReq → Option ℤ → Fifo → List HandlerReq × Fifo
drain_loop w [] barrier s = ([], s)
drain_loop w (r ∷ rs) barrier s =
    let d = decided w barrier r s in
    let b : Option ℤ = if below_barrier barrier r then barrier else barrier_after barrier d in
    let rest = drain_loop w rs b (state_after d) in (keep_stuck d rest.0, rest.1)

-- An empty queue returns at once, with nothing pruned.
unfoldable pub drain_all : World → List HandlerReq → Fifo → Fifo
drain_all w [] s = s
drain_all w (r ∷ rs) s =
    let (remaining, s') = drain_loop w (r ∷ rs) none s in
    kv_warm_prune w (record s' { queued = remaining })

unfoldable pub drain_queue : World → Fifo → Fifo
drain_queue w s = drain_all w s.queued s
