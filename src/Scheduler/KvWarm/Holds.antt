-- ===== src/Scheduler/KvWarm/Holds.antt =====
-- kvwarm.go, kvWarmBlocker: when a request is held back.
use llama_swap_macos_extende.Prelude.{
  ℕ, ◌+◌, ltb, ◌==◌, ◌≡◌, ◌↔◌, ◌⊎◌, inl, inr, refl, sym, ◌∙◌, Bool, true, false, ◌&&◌, ◌||◌, not,
  List, [], ◌∷◌, none, some, arith, if◌then◌else◌, str_eq, keep, length, Bool-cases,
}
use llama_swap_macos_extende.Prelude.Int.{ltb_ℤ}
use llama_swap_macos_extende.Scheduler.Types.{HandlerReq, KvResident, World, Fifo}
use llama_swap_macos_extende.Scheduler.KvWarm.{
  session_root, kv_warm_cooling, insert_resident, sort_residents, kv_warm_skips, kv_warm_sorted,
  kv_warm_blocker, kv_warm_overflows, total_tokens, largest,
}
use llama_swap_macos_extende.Scheduler.KvWarm.Laws.{Fits}

-- A residency counts against the request: it is of another session (a request without a session has
-- none), serves nothing, is inside its cooldown, and does not give way to the tier of the request.
abbrev pub counts : World → HandlerReq → KvResident → Bool
counts w req r =
    (str_eq req.session "" || not (str_eq (session_root r.session) (session_root req.session)))
    && r.busy_count == 0
    && ltb w.now r.warm_until
    && (not req.tier.preempts || not (ltb_ℤ r.tier_rank req.tier.rank))

-- The tokens of the residencies that count, and how many there are.
abbrev pub held_tokens : World → HandlerReq → List KvResident → ℕ
held_tokens w req [] = 0
held_tokens w req (r ∷ rs) =
    if counts w req r then r.tokens + held_tokens w req rs else held_tokens w req rs

abbrev pub held_count : World → HandlerReq → List KvResident → ℕ
held_count w req [] = 0
held_count w req (r ∷ rs) = if counts w req r then 1 + held_count w req rs else held_count w req rs

-- The filter of the code over a list.
abbrev cooling : World → HandlerReq → List KvResident → List KvResident
cooling w req rs = keep (λ r. not (kv_warm_skips w req r)) rs

not_skips-counts :
    (w : World) (req : HandlerReq) (r : KvResident) → not (kv_warm_skips w req r) ≡ counts w req r
unfolding kv_warm_skips kv_warm_cooling
not_skips-counts w req r = ground arith

total_tokens-cooling :
    (w : World) (req : HandlerReq) (rs : List KvResident)
    → total_tokens (cooling w req rs) ≡ held_tokens w req rs
unfolding total_tokens
total_tokens-cooling w req [] = refl
total_tokens-cooling w req (r ∷ rs) =
    ground (arith, not_skips-counts w req r, total_tokens-cooling w req rs)

length-cooling :
    (w : World) (req : HandlerReq) (rs : List KvResident)
    → length (cooling w req rs) ≡ held_count w req rs
length-cooling w req [] = refl
length-cooling w req (r ∷ rs) = ground (arith, not_skips-counts w req r, length-cooling w req rs)

-- The order of the residencies does not matter to the sums.
held_tokens-insert :
    (w : World) (req : HandlerReq) (r : KvResident) (qs : List KvResident)
    → held_tokens w req (insert_resident r qs) ≡ held_tokens w req (r ∷ qs)
unfolding insert_resident
held_tokens-insert w req r [] = refl
held_tokens-insert w req r (q ∷ qs) = ground (arith, held_tokens-insert w req r qs)

held_count-insert :
    (w : World) (req : HandlerReq) (r : KvResident) (qs : List KvResident)
    → held_count w req (insert_resident r qs) ≡ held_count w req (r ∷ qs)
unfolding insert_resident
held_count-insert w req r [] = refl
held_count-insert w req r (q ∷ qs) = ground (arith, held_count-insert w req r qs)

held_tokens-sort :
    (w : World) (req : HandlerReq) (rs : List KvResident)
    → held_tokens w req (sort_residents rs) ≡ held_tokens w req rs
unfolding sort_residents
held_tokens-sort w req [] = refl
held_tokens-sort w req (r ∷ rs) =
    ground (arith, held_tokens-insert w req r (sort_residents rs), held_tokens-sort w req rs)

held_count-sort :
    (w : World) (req : HandlerReq) (rs : List KvResident)
    → held_count w req (sort_residents rs) ≡ held_count w req rs
unfolding sort_residents
held_count-sort w req [] = refl
held_count-sort w req (r ∷ rs) =
    ground (arith, held_count-insert w req r (sort_residents rs), held_count-sort w req rs)

largest-some_ne_none : (b : KvResident) (rs : List KvResident) → largest (some b) rs ≡ none → ⊥
unfolding largest
largest-some_ne_none b [] e = ground arith
largest-some_ne_none b (r ∷ rs) e =
    largest-some_ne_none (if ltb b.tokens r.tokens then r else b) rs e

-- The largest of a list is missing exactly if the list is empty.
largest-none : (rs : List KvResident) → (largest none rs ≡ none) ↔ (length rs ≡ 0)
unfolding largest
largest-none [] = ((λ _. refl), (λ _. refl))
largest-none (r ∷ rs) = ((λ e. absurd (largest-some_ne_none r rs e)), (λ e. absurd (ground arith)))

overflows-Fits :
    (req : HandlerReq) (rs : List KvResident) (s : Fifo)
    → (kv_warm_overflows req rs s ≡ false)
      ↔ Fits
          (s.cfg.kv_pool_tokens req.model)
          (s.slot_count req.model)
          (s.kv_in_flight req.model + total_tokens rs + req.estimated_tokens)
          (s.in_flight req.model + length rs + 1)
unfolding kv_warm_overflows
overflows-Fits req rs s = ((λ e. ground arith), (λ (a, b). ground arith))

-- The decision of the code, with the sums over the unsorted residencies.
blocker-none :
    (w : World) (req : HandlerReq) (s : Fifo)
    → let rs = cooling w req (kv_warm_sorted req.model s) in
      (kv_warm_blocker w req s ≡ none) ↔ (
        (req.status_read ≡ true)
        ⊎ (req.concurrency_exempt ≡ true)
        ⊎ (length rs ≡ 0)
        ⊎ (kv_warm_overflows req rs s ≡ false))
unfolding kv_warm_blocker
blocker-none w req s =
    let rs = cooling w req (kv_warm_sorted req.model s) in
    let empty = largest-none rs in
    (
      (λ e. elim (Bool-cases req.status_read) [
        | inl a ↦ inl a
        | inr a ↦ elim (Bool-cases req.concurrency_exempt) [
          | inl b ↦ inr (inl b)
          | inr b ↦ elim (Bool-cases (kv_warm_overflows req rs s)) [
            | inl c ↦ inr (inr (inl (empty.0 (ground arith))))
            | inr c ↦ inr (inr (inr c))
          ]
        ]
      ]),
      (λ h. ground (arith, empty.1)),
    )

-- A request is not held back by the slot cooldown exactly if it is a status read or exempt from
-- the cap, or no residency of its model counts against it, or it fits in tokens and in slots
-- beside all that count and what is in flight. A residency counts if it is of another session (a
-- request without a session shares none), serves nothing, is inside its cooldown and is not
-- outranked by a preempting tier of the request.
pub kv_warm_blocker-none :
    (w : World) (req : HandlerReq) (s : Fifo)
    → let tokens = held_tokens w req (s.kv_residents req.model) in
      let count = held_count w req (s.kv_residents req.model) in
      (kv_warm_blocker w req s ≡ none) ↔ (
        (req.status_read ≡ true)
        ⊎ (req.concurrency_exempt ≡ true)
        ⊎ (count ≡ 0)
        ⊎ Fits
            (s.cfg.kv_pool_tokens req.model)
            (s.slot_count req.model)
            (s.kv_in_flight req.model + tokens + req.estimated_tokens)
            (s.in_flight req.model + count + 1))
unfolding kv_warm_sorted
kv_warm_blocker-none w req s =
    let rs = cooling w req (kv_warm_sorted req.model s) in
    let decided = blocker-none w req s in
    let overflow = overflows-Fits req rs s in
    let tokens : total_tokens rs ≡ held_tokens w req (s.kv_residents req.model) =
      total_tokens-cooling w req (kv_warm_sorted req.model s)
      ∙ held_tokens-sort w req (s.kv_residents req.model) in
    let count : length rs ≡ held_count w req (s.kv_residents req.model) =
      length-cooling w req (kv_warm_sorted req.model s)
      ∙ held_count-sort w req (s.kv_residents req.model) in
    rw (sym tokens, sym count)
      (
        (λ e. elim (decided.0 e) [
          | inl a ↦ inl a
          | inr (inl b) ↦ inr (inl b)
          | inr (inr (inl c)) ↦ inr (inr (inl c))
          | inr (inr (inr d)) ↦ inr (inr (inr (overflow.0 d)))
        ]),
        (λ h. elim h [
          | inl a ↦ decided.1 (inl a)
          | inr (inl b) ↦ decided.1 (inr (inl b))
          | inr (inr (inl c)) ↦ decided.1 (inr (inr (inl c)))
          | inr (inr (inr d)) ↦ decided.1 (inr (inr (inr (overflow.1 d))))
        ]),
      )
