-- ===== src/Scheduler/KvWarm.antt =====
-- kvwarm.go: the slot cooldown.
pub mod Laws
pub mod Displace
pub mod Holds
pub mod Oldest
use Prim.Native.Char.{code}
use Prim.Native.String.{compare}
use Prim.Native.Nat.{Ordering}
use llama_swap_macos_extende.Prelude.{
  ℕ, ◌+◌, ◌-◌, ltb, leb, ◌==◌, Bool, true, false, ◌&&◌, ◌||◌, not, String, List, [], ◌∷◌, Option,
  none, some, if◌then◌else◌, update, str_eq, keep, length, contains_string, map,
}
use llama_swap_macos_extende.Prelude.Int.{ltb_ℤ}
use llama_swap_macos_extende.Scheduler.Types.{HandlerReq, KvResident, World, Fifo, ServeDoneEvent}
use llama_swap_macos_extende.Scheduler.Grace.{cooldown_delay}

-- One hour.
abbrev pub kv_resident_forget : ℕ
kv_resident_forget = 3600000000000

-- The part before the first '/'.
unfoldable pub session_root : String → String
session_root String.[] = ""
session_root (String.◌∷◌ c s) = if code c == b'/' then "" else String.◌∷◌ c (session_root s)

unfoldable pub kv_warm_cooling : ℕ → KvResident → Bool
kv_warm_cooling now r = r.busy_count == 0 && ltb now r.warm_until

-- Oldest completion first, the session id as the tie-break.
abbrev comes_before : KvResident → KvResident → Bool
comes_before a b =
    if ltb a.last_end b.last_end
    then true
    else if ltb b.last_end a.last_end
    then false
    else (elim (compare a.session b.session) [ Ordering.lt ↦ true | _ ↦ false ])

unfoldable insert_resident : KvResident → List KvResident → List KvResident
insert_resident r [] = r ∷ []
insert_resident r (q ∷ qs) = if comes_before q r then q ∷ insert_resident r qs else r ∷ q ∷ qs

unfoldable pub sort_residents : List KvResident → List KvResident
unfolding insert_resident
sort_residents [] = []
sort_residents (r ∷ rs) = insert_resident r (sort_residents rs)

unfoldable pub kv_warm_sorted : String → Fifo → List KvResident
unfolding sort_residents
kv_warm_sorted m s = sort_residents (s.kv_residents m)

-- A residency that a request does not displace: a lane of the same session, one that does not
-- cool, or one that the request's tier outranks.
unfoldable pub kv_warm_skips : World → HandlerReq → KvResident → Bool
unfolding session_root kv_warm_cooling
kv_warm_skips w req r =
    if not (str_eq req.session "") && str_eq (session_root r.session) (session_root req.session)
    then true
    else if not (kv_warm_cooling w.now r)
    then true
    else req.tier.preempts && ltb_ℤ r.tier_rank req.tier.rank

unfoldable pub total_tokens : List KvResident → ℕ
total_tokens [] = 0
total_tokens (r ∷ rs) = r.tokens + total_tokens rs

-- The largest residency, the first of equals.
unfoldable pub largest : Option KvResident → List KvResident → Option KvResident
largest best [] = best
largest none (r ∷ rs) = largest (some r) rs
largest (some b) (r ∷ rs) = largest (some (if ltb b.tokens r.tokens then r else b)) rs

-- What is in flight, the cooling prompts and the request do not fit.
unfoldable pub kv_warm_overflows : HandlerReq → List KvResident → Fifo → Bool
unfolding total_tokens
kv_warm_overflows req cooling s =
    (ltb 0 (s.cfg.kv_pool_tokens req.model)
      && ltb (s.cfg.kv_pool_tokens req.model)
          (s.kv_in_flight req.model + total_tokens cooling + req.estimated_tokens))
    || (ltb 0 (s.slot_count req.model)
        && leb (s.slot_count req.model) (s.in_flight req.model + length cooling))

unfoldable pub kv_warm_blocker : World → HandlerReq → Fifo → Option KvResident
kv_warm_blocker w req s =
    let cooling = keep (λ r. not (kv_warm_skips w req r)) (kv_warm_sorted req.model s) in
    if req.status_read || req.concurrency_exempt
    then none
    else if kv_warm_overflows req cooling s
    then largest none cooling
    else none

-- Drops idle residencies, oldest first, until what stays fits: the loop over `idle`, with the
-- running totals of tokens and slots; it returns the sessions that go.
unfoldable pub displaced : ℕ → ℕ → ℕ → ℕ → List KvResident → List String
displaced pool slots tokens count [] = []
displaced pool slots tokens count (r ∷ rs) =
    let rest = displaced pool slots (tokens - r.tokens) (count - 1) rs in
    if (ltb 0 pool && ltb pool tokens) || (ltb 0 slots && ltb slots count)
    then r.session ∷ rest
    else []

abbrev idle_residents : String → Fifo → List KvResident
idle_residents m s = keep (λ r. r.busy_count == 0) (kv_warm_sorted m s)

unfoldable pub kv_warm_displace : String → Fifo → Fifo
unfolding displaced kv_warm_sorted total_tokens
kv_warm_displace m s =
    let idle = idle_residents m s in
    let gone =
      displaced (s.cfg.kv_pool_tokens m) (s.slot_count m) (s.kv_in_flight m + total_tokens idle)
        (s.in_flight m + length idle) idle in
    record s {
      kv_residents =
          update s.kv_residents m
            (keep (λ r. not (contains_string gone r.session)) (s.kv_residents m));
    }

-- The session's record is found or made, and becomes busy; its cooldown is kept.
unfoldable pub make_busy : HandlerReq → List KvResident → List KvResident
make_busy req [] =
    record {
      session = req.session;
      tokens = req.estimated_tokens;
      busy_count = 1;
      last_end = 0;
      warm_until = 0;
      tier_rank = req.tier.rank;
    }
    ∷ []
make_busy req (r ∷ rs) =
    if str_eq r.session req.session
    then record r {
      tokens = req.estimated_tokens;
      busy_count = r.busy_count + 1;
      tier_rank = req.tier.rank;
    }
      ∷ rs
    else r ∷ make_busy req rs

unfoldable pub kv_warm_on_grant : HandlerReq → String → Fifo → Fifo
unfolding make_busy kv_warm_displace
kv_warm_on_grant req m s =
    let s' : Fifo =
      if str_eq req.session ""
      then s
      else record s { kv_residents = update s.kv_residents m (make_busy req (s.kv_residents m)) } in
    if s.grace m == 0 || req.status_read || req.concurrency_exempt then s else kv_warm_displace m s'

-- One residency when a request of its session ends.
unfoldable pub resident_done : World → ServeDoneEvent → ℕ → KvResident → KvResident
resident_done w ev until r =
    if ltb 1 r.busy_count
    then record r { busy_count = r.busy_count - 1 }
    else if ev.slot_cooldown_off
    then record r { busy_count = 0 }
    else record r {
      busy_count = 0;
      tokens = ev.estimated_tokens;
      last_end = w.now;
      tier_rank = ev.tier.rank;
      warm_until = if ev.looping then r.warm_until else until;
    }

unfoldable pub kv_warm_on_done : World → ServeDoneEvent → Fifo → Fifo
unfolding resident_done cooldown_delay
kv_warm_on_done w ev s = if str_eq ev.session "" || s.grace ev.model_id == 0 then s else record s {
  kv_residents = update s.kv_residents ev.model_id (
      map
        (λ r.
          if str_eq r.session ev.session
          then resident_done w ev (w.now + (cooldown_delay s + s.grace ev.model_id)) r
          else r)
        (s.kv_residents ev.model_id));
}

abbrev cold : KvResident → KvResident
cold r = record r { warm_until = 0 }

unfoldable pub end_slot_cooldown : World → String → Fifo → Fifo
unfolding kv_warm_cooling
end_slot_cooldown w session s = record s {
  kv_residents = λ m.
      map (λ r. if str_eq r.session session && kv_warm_cooling w.now r then cold r else r)
        (s.kv_residents m);
}

unfoldable pub kv_warm_end_cooldowns : Fifo → Fifo
kv_warm_end_cooldowns s = record s { kv_residents = λ m. map cold (s.kv_residents m) }

unfoldable pub is_forgotten : ℕ → KvResident → Bool
unfolding kv_warm_cooling
is_forgotten now r =
    r.busy_count == 0
    && not (kv_warm_cooling now r)
    && ltb 0 r.last_end
    && ltb (r.last_end + kv_resident_forget) now

unfoldable pub kv_warm_prune : World → Fifo → Fifo
unfolding is_forgotten
kv_warm_prune w s = record s {
  kv_residents = λ m. keep (λ r. not (is_forgotten w.now r)) (s.kv_residents m);
}

unfoldable pub kv_warm_forget : List String → Fifo → Fifo
kv_warm_forget models s = record s {
  kv_residents = λ m. if contains_string models m then [] else s.kv_residents m;
}
