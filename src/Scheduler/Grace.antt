-- ===== src/Scheduler/Grace.antt =====
-- fifo.go: the swap grace, its one-shot manual finish, and the stamp of a request that it defers.
pub mod Laws
use Prim.Native.Nat.{max}
use llama_swap_macos_extende.Prelude.{
  ℕ, ◌+◌, ◌*◌, ltb, Bool, true, false, ◌&&◌, not, String, List, [], ◌∷◌, Option, none, some,
  if◌then◌else◌, any,
}
use llama_swap_macos_extende.Prelude.Int.{ltb_ℤ}
use llama_swap_macos_extende.Scheduler.Types.{
  HandlerReq, World, Fifo, Tier, busy, cooldown, rfc3339, nanoseconds,
}
use llama_swap_macos_extende.Scheduler.Park.{mark_parked, mark_waiting_for}

-- `now.Sub(since) < g`; an idle reference may lie in the future.
abbrev pub in_grace : ℕ → ℕ → Option ℕ → Bool
in_grace now g none = false
in_grace now g (some since) = ltb 0 g && ltb now (since + g)

unfoldable pub within_grace : World → List String → Fifo → Bool
within_grace w evict s = any (λ m. in_grace w.now (s.grace m) (s.idle_since m)) evict

unfoldable pub cooldown_delay : Fifo → ℕ
cooldown_delay s = s.cfg.decode_retention_seconds * nanoseconds

-- Reads the one-shot flag and clears it.
unfoldable pub consume_forced : Fifo → Bool × Fifo
consume_forced s = (s.cooldown_forced, record s { cooldown_forced = false })

unfoldable pub consume_grace_expired_forced : Fifo → Bool × Fifo
consume_grace_expired_forced s = (s.grace_expired_forced, record s { grace_expired_forced = false })

unfoldable pub finish_cooldown : Fifo → Fifo
finish_cooldown s = record s { cooldown_forced = true; grace_expired_forced = true }

-- The arrival's tier boots lower ranks, and the evictee last served one.
abbrev pub outranks_served : Tier → Option Tier → Bool
outranks_served t none = false
outranks_served t (some served) = ltb_ℤ served.rank t.rank && t.preempts

unfoldable pub breaks_grace : HandlerReq → List String → Fifo → Bool
breaks_grace r evict s = any (λ m. outranks_served r.tier (s.last_served_tier m)) evict

unfoldable pub deferred_by_grace : World → HandlerReq → List String → Fifo → Bool × Fifo
unfolding within_grace consume_forced breaks_grace
deferred_by_grace w r evict s =
    let (forced, s') = consume_forced s in
    if not (within_grace w evict s)
    then (false, s)
    else if forced
    then (false, s')
    else if breaks_grace r evict s'
    then (false, s')
    else (true, s')

-- The latest end of a grace that still runs; 0 is the zero time.
unfoldable pub grace_until : World → List String → Fifo → ℕ
grace_until w [] s = 0
grace_until w (m ∷ ms) s =
    if in_grace w.now (s.grace m) (s.idle_since m)
    then max (end_of (s.idle_since m)) (grace_until w ms s)
    else grace_until w ms s
  where
    end_of : Option ℕ → ℕ
    end_of none = 0
    end_of (some since) = since + s.grace m

-- `now.Before(since)`: the display retention still runs.
abbrev pub starts_later : ℕ → Option ℕ → Bool
starts_later now none = false
starts_later now (some since) = ltb now since

unfoldable pub mark_grace_parked : World → List String → HandlerReq × Fifo → HandlerReq × Fifo
mark_grace_parked w evict (r, s) =
    if any (λ m. starts_later w.now (s.idle_since m)) evict
    then mark_waiting_for "" none (mark_parked busy (r, s))
    else mark_waiting_for "" (some (rfc3339 (grace_until w evict s))) (mark_parked cooldown (r, s))
