-- ===== src/Scheduler/Park.antt =====
-- fifo.go: the stamps that say why a request waits (markParked, markWaitingFor, markKVParked).
-- Each takes the request and the scheduler's state and returns both, as the code mutates both.
use mathlib.Core.Logic.{ite}
use llama_swap_macos_extende.Prelude.{
  ℕ, ◌==◌, Bool, true, false, ◌&&◌, String, ◌∷◌, Option, none, some, if◌then◌else◌, str_eq,
}
use llama_swap_macos_extende.Scheduler.Types.{
  HandlerReq, ParkReason, Fifo, Effect, unparked, set_park_reason, set_kv_parked, set_waiting_for,
}

unfoldable pub ParkReason-discrete : Discrete ParkReason
ParkReason-discrete = hlevel

abbrev pub emit : Effect → Fifo → Fifo
emit e s = record s { effects = e ∷ s.effects }

-- A metadata setter is called if the request carries one.
unfoldable pub stamp : HandlerReq → Effect → Fifo → Fifo
stamp r e s = if r.has_setter then emit e s else s

abbrev same_until : Option ℕ → Option ℕ → Bool
same_until none none = true
same_until (some a) (some b) = a == b
same_until _ _ = false

unfoldable pub mark_waiting_for : String → Option ℕ → HandlerReq × Fifo → HandlerReq × Fifo
unfolding stamp
mark_waiting_for session until (r, s) =
    let r' : HandlerReq = record r { waiting_for_session = session; waiting_for_until = until } in
    if str_eq r.waiting_for_session session && same_until r.waiting_for_until until
    then (r, s)
    else (r', stamp r' (set_waiting_for r.respond session until) s)

-- The clear of the other pair comes before the stamp of the reason.
abbrev clear_waiting : ParkReason → HandlerReq × Fifo → HandlerReq × Fifo
clear_waiting unparked p = mark_waiting_for "" none p
clear_waiting _ p = p

unfoldable pub mark_parked : ParkReason → HandlerReq × Fifo → HandlerReq × Fifo
unfolding stamp mark_waiting_for
mark_parked reason (r, s) =
    let r' : HandlerReq = record r { park_reason = reason } in
    let (r'', s') = clear_waiting reason (r', s) in
    ite (ParkReason-discrete r.park_reason reason) (r, s)
      (r'', stamp r'' (set_park_reason r.respond reason) s')

unfoldable pub clear_parked : HandlerReq × Fifo → HandlerReq × Fifo
clear_parked p = mark_parked unparked p

unfoldable pub mark_kv_parked : HandlerReq × Fifo → HandlerReq × Fifo
unfolding stamp
mark_kv_parked (r, s) = (r, stamp r (set_kv_parked r.respond) s)
