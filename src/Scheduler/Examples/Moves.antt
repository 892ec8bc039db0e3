-- ===== src/Scheduler/Examples/Moves.antt =====
-- fifo.go: concrete events, and the theorems on where their requests go.
use llama_swap_macos_extende.Prelude.{◌+◌, ◌≤◌, ◌≡◌, refl, [], ◌∷◌, none, some, ◌⊎◌}
use llama_swap_macos_extende.Scheduler.Types.{Fifo, SwapDone, ActiveSwap, ready, cap, shutting_down}
use llama_swap_macos_extende.Scheduler.Park.{ParkReason-discrete, mark_parked, mark_waiting_for}
use llama_swap_macos_extende.Scheduler.Queue.{outranks, blocked_by_rank_barrier}
use llama_swap_macos_extende.Scheduler.Swaps.{is_active, find_swap}
use llama_swap_macos_extende.Scheduler.Admission.{limit, at_capacity}
use llama_swap_macos_extende.Scheduler.Preempt.{try_preempt}
use llama_swap_macos_extende.Scheduler.Grant.{route}
use llama_swap_macos_extende.Scheduler.Drain.{decide, drain_queue}
use llama_swap_macos_extende.Scheduler.Events.{
  on_request, on_cancel, on_swap_done, on_serve_done, on_tick, on_unload,
}
use llama_swap_macos_extende.Scheduler.Setup.{new_fifo, run}
use llama_swap_macos_extende.Scheduler.Conserve.{places}
use llama_swap_macos_extende.Scheduler.Conserve.Drain.{drain_queue-places}
use llama_swap_macos_extende.Scheduler.Conserve.Arrivals.{on_request-places}
use llama_swap_macos_extende.Scheduler.Conserve.Events.{
  on_cancel-places, on_serve_done-places, on_tick-places,
}
use llama_swap_macos_extende.Scheduler.Conserve.Released.{IsReleased, on_swap_done-IsReleased}
use llama_swap_macos_extende.Scheduler.Conserve.Unloaded.{IsUnloaded, on_unload-IsUnloaded}
use llama_swap_macos_extende.Scheduler.Conserve.Histories.{arrivals, run-new_fifo-places}
use llama_swap_macos_extende.Scheduler.Safety.{Safe}
use llama_swap_macos_extende.Scheduler.Safety.Steps.{run-new_fifo-Safe}
use llama_swap_macos_extende.Scheduler.Drain.Barrier.{
  ids, Idles, drain_queue-barrier, on_request-blocked,
}
use llama_swap_macos_extende.Scheduler.Queue.Words.{InOrder, run-new_fifo-InOrder}
use llama_swap_macos_extende.Prelude.{arith}
use llama_swap_macos_extende.Scheduler.Pool.Histories.{run-new_fifo-kv_in_flight}
use llama_swap_macos_extende.Scheduler.Capacity.Histories.{run-new_fifo-limit}
use llama_swap_macos_extende.Scheduler.Examples.{
  chat, batch, req, world, cfg, models, loaded, swapping, done, history, capped,
}

run-new_fifo-Safe_example : Safe (run history (new_fifo cfg models))
run-new_fifo-Safe_example = run-new_fifo-Safe cfg models history

run-new_fifo-limit_example :
    let s = run history (new_fifo cfg models) in s.in_flight "small" ≤ limit s "small"
run-new_fifo-limit_example =
    run-new_fifo-limit cfg models history (refl, (refl, (tt, (tt, (tt, (tt, (tt, (tt, tt))))))))
      "small"

run-new_fifo-kv_in_flight_example :
    let s = run history (new_fifo cfg models) in
    (s.cfg.kv_pool_tokens "small" ≡ 0)
    ⊎ (s.kv_in_flight "small" ≤ s.cfg.kv_pool_tokens "small")
    ⊎ (s.kv_in_flight "small" ≤ 9000)
run-new_fifo-kv_in_flight_example =
    run-new_fifo-kv_in_flight 9000 cfg models history
      (omega arith, (omega arith, (tt, (tt, (tt, (tt, (tt, (tt, tt)))))))) "small"

run-new_fifo-InOrder_example : InOrder cfg.priority (run history (new_fifo cfg models)).queued
run-new_fifo-InOrder_example = run-new_fifo-InOrder cfg models history

run-new_fifo-places_example : places 2 (run history (new_fifo cfg models)) ≤ arrivals 2 history
run-new_fifo-places_example =
    run-new_fifo-places 2 cfg models history
      (refl, (refl, (refl, (refl, (refl, (refl, (refl, (refl, tt))))))))

on_request-places_example :
    places 2 (on_request world (req 2 "big" chat) loaded) ≡ 1 + places 2 loaded
on_request-places_example = on_request-places 2 world (req 2 "big" chat) loaded refl refl

-- The swap fails: its waiter gets the error.
abbrev failed : SwapDone
failed = record { model_id = "big"; err = some shutting_down }

on_swap_done-IsReleased_example :
    ((find_swap "big" swapping.active ≡ none) × (on_swap_done world failed swapping ≡ swapping))
    ⊎ ((sw : ActiveSwap) × (t : Fifo) × (find_swap "big" swapping.active ≡ some sw)
        × IsReleased 2 failed sw swapping t
        × (on_swap_done world failed swapping ≡ drain_queue world t)
        × (places 2 (on_swap_done world failed swapping) ≡ places 2 swapping))
on_swap_done-IsReleased_example = on_swap_done-IsReleased 2 world failed swapping

on_tick-places_example : places 5 (on_tick world swapping) ≡ places 5 swapping
on_tick-places_example = on_tick-places 5 world swapping

on_unload-IsUnloaded_example :
    (t : Fifo) × IsUnloaded 3 ("small" ∷ []) swapping t
    × (on_unload world ("small" ∷ []) swapping ≡ drain_queue world t)
    × (places 3 (on_unload world ("small" ∷ []) swapping) ≡ places 3 swapping)
on_unload-IsUnloaded_example = on_unload-IsUnloaded 3 world ("small" ∷ []) swapping

on_cancel-places_example : places 4 (on_cancel (req 3 "small" chat) swapping) ≡ places 4 swapping
on_cancel-places_example = on_cancel-places 4 (req 3 "small" chat) swapping

on_serve_done-places_example : places 1 (on_serve_done world done loaded) ≡ places 1 loaded
on_serve_done-places_example = on_serve_done-places 1 world done loaded

drain_queue-places_example : places 3 (drain_queue world swapping) ≡ places 3 swapping
drain_queue-places_example = drain_queue-places 3 world swapping

drain_queue-barrier_example :
    let p =
      mark_parked cap
        (req 3 "small" chat, (try_preempt (req 3 "small" chat) ("small" ∷ []) 1 capped).1) in
    (ids (drain_queue world capped).queued ≡ p.0.respond ∷ 4 ∷ [])
    × Idles p.1 (drain_queue world capped)
unfolding decide route is_active at_capacity limit mark_parked mark_waiting_for ParkReason-discrete
drain_queue-barrier_example =
    drain_queue-barrier world capped (req 3 "small" chat) (req 4 "big" batch ∷ [])
      (mark_parked cap
        (req 3 "small" chat, (try_preempt (req 3 "small" chat) ("small" ∷ []) 1 capped).1))
      refl refl (refl, tt)

on_request-blocked_example : Idles capped (on_request world (req 6 "small" batch) capped)
unfolding blocked_by_rank_barrier outranks
on_request-blocked_example =
    on_request-blocked world (req 6 "small" batch) capped ready refl refl refl refl
