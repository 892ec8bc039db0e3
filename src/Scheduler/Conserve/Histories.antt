-- ===== src/Scheduler/Conserve/Histories.antt =====
-- fifo.go: whole histories of events and the places of a request.
use llama_swap_macos_extende.Prelude.{
  ℕ, ◌+◌, ◌≤◌, ◌≡◌, Bool, true, false, not, ◌&&◌, String, List, [], ◌∷◌, Option, some, arith,
  if_cases, inl, inr, Option-cases,
}
use llama_swap_macos_extende.Scheduler.Types.{
  HandlerReq, World, Fifo, FifoConfig, ProcessState, Error, model_not_found, model_not_loaded,
}
use llama_swap_macos_extende.Scheduler.Swaps.{is_active}
use llama_swap_macos_extende.Scheduler.Grant.{is_ready}
use llama_swap_macos_extende.Scheduler.Grace.{finish_cooldown}
use llama_swap_macos_extende.Scheduler.KvWarm.{end_slot_cooldown}
use llama_swap_macos_extende.Scheduler.Admission.{admit, reject_admission, send_admission}
use llama_swap_macos_extende.Scheduler.Events.{on_known_request, on_request}
use llama_swap_macos_extende.Scheduler.Setup.{
  Event, request, cancel, swap_done, serve_done, tick, unload, shutdown, finish, end_slot, step,
  run, new_fifo, ModelConfig,
}
use llama_swap_macos_extende.Scheduler.Conserve.{one, places}
use llama_swap_macos_extende.Scheduler.Conserve.Arrivals.{place-places}
use llama_swap_macos_extende.Scheduler.Conserve.Events.{
  on_cancel-places, on_swap_done-places, on_serve_done-places, on_tick-places,
}
use llama_swap_macos_extende.Scheduler.Conserve.Endings.{on_unload-places}

module _ (id : ℕ) (w : World) (r : HandlerReq) (s : Fifo) where
  send-places :
      (err : Option Error) → places id (send_admission w r err s).1 ≤ one id r.respond + places id s
  unfolding send_admission
  send-places err = ground arith

  admit-places : places id (admit w r s).1 ≡ places id s
  unfolding admit send_admission
  admit-places = ground arith

  on_known_request-le :
      (state : ProcessState)
      → places id (on_known_request w state r s) ≤ one id r.respond + places id s
  unfolding on_known_request reject_admission
  on_known_request-le state =
      if_cases (λ t. places id t ≤ one id r.respond + places id s)
        (r.status_read && not (is_ready state) && not (is_active r.model s.active)) _ _
        (λ _. send-places (some model_not_loaded))
        (λ _.
          if_cases (λ t. places id t ≤ one id r.respond + places id s) (not (admit w r s).0) _ _
            (λ _. omega (arith, admit-places))
            (λ _. omega (arith, admit-places, place-places id w state _ _)))

  -- An arrival takes at most one more place, whatever becomes of its caller.
  pub on_request-le : places id (on_request w r s) ≤ one id r.respond + places id s
  unfolding on_request reject_admission
  on_request-le = elim (Option-cases (w.model_state r.model)) [
    | inl e ↦ rw (e, on_request) (send-places (some model_not_found))
    | inr (state, e) ↦ rw (e, on_request) (on_known_request-le state)
  ]

-- How often a request arrives in a history.
abbrev pub arrivals : ℕ → List (World × Event) → ℕ
arrivals id [] = 0
arrivals id ((w, request r) ∷ es) = one id r.respond + arrivals id es
arrivals id ((w, cancel r) ∷ es) = arrivals id es
arrivals id ((w, swap_done ev) ∷ es) = arrivals id es
arrivals id ((w, serve_done ev) ∷ es) = arrivals id es
arrivals id ((w, tick) ∷ es) = arrivals id es
arrivals id ((w, unload ts) ∷ es) = arrivals id es
arrivals id ((w, shutdown e) ∷ es) = arrivals id es
arrivals id ((w, finish) ∷ es) = arrivals id es
arrivals id ((w, end_slot t) ∷ es) = arrivals id es

abbrev is_shutdown : Event → Bool
is_shutdown (shutdown e) = true
is_shutdown _ = false

-- The scheduler is still running: no shutdown among the events.
abbrev pub Runs : List (World × Event) → Type 0
Runs [] = Unit
Runs ((w, e) ∷ es) = (is_shutdown e ≡ false) × Runs es

run-places :
    (id : ℕ) (es : List (World × Event)) (s : Fifo)
    → Runs es
    → places id (run es s) ≤ arrivals id es + places id s
unfolding run step finish_cooldown end_slot_cooldown
run-places id [] s h = omega arith
run-places id ((w, request r) ∷ es) s h =
    omega (arith, run-places id es (on_request w r s) h.1, on_request-le id w r s)
run-places id ((w, cancel r) ∷ es) s h =
    ground (arith, run-places id es (step w (cancel r) s) h.1, on_cancel-places id r s)
run-places id ((w, swap_done ev) ∷ es) s h =
    omega (arith, run-places id es (step w (swap_done ev) s) h.1, on_swap_done-places id w ev s)
run-places id ((w, serve_done ev) ∷ es) s h =
    omega (arith, run-places id es (step w (serve_done ev) s) h.1, on_serve_done-places id w ev s)
run-places id ((w, tick) ∷ es) s h =
    omega (arith, run-places id es (step w tick s) h.1, on_tick-places id w s)
run-places id ((w, unload ts) ∷ es) s h =
    omega (arith, run-places id es (step w (unload ts) s) h.1, on_unload-places id w ts s)
run-places id ((w, shutdown e) ∷ es) s h = absurd (ground arith)
run-places id ((w, finish) ∷ es) s h = run-places id es (step w finish s) h.1
run-places id ((w, end_slot t) ∷ es) s h = run-places id es (step w (end_slot t) s) h.1

-- From the start of the scheduler, in a history without a shutdown, the answers to a request and
-- the places in which it waits (queue, held list, waiters of swaps) are together at most its
-- arrivals.
pub run-new_fifo-places :
    (id : ℕ) (cfg : FifoConfig) (models : List (String × ModelConfig)) (es : List (World × Event))
    → Runs es
    → places id (run es (new_fifo cfg models)) ≤ arrivals id es
unfolding new_fifo
run-new_fifo-places id cfg models es h = omega (arith, run-places id es (new_fifo cfg models) h)
