-- ===== src/Scheduler/KvWarm/Laws.antt =====
-- kvwarm.go: what the slot cooldown holds back, and what a grant displaces.
use llama_swap_macos_extende.Prelude.{
  ℕ, ◌≤◌, ◌<◌, ltb, ◌≡◌, ◌⊎◌, true, false, ◌&&◌, not, List, [], ◌∷◌, Option, none, some, arith,
  if◌then◌else◌, keep, keep-All, All, if_cases, subst,
}
use llama_swap_macos_extende.Prelude.Int.{ltb_ℤ}
use llama_swap_macos_extende.Scheduler.Types.{HandlerReq, KvResident, World, Fifo}
use llama_swap_macos_extende.Scheduler.KvWarm.{
  kv_warm_skips, kv_warm_sorted, kv_warm_blocker, largest,
}

some_eq : (b x : KvResident) → ◌≡◌ {A = Option KvResident} (some b) (some x) → b ≡ x
some_eq b x e = cc

-- The largest of a list satisfies what all of them do.
largest-All {κ} :
    (P : KvResident → Type κ) (b : KvResident) (rs : List KvResident) (x : KvResident)
    → P b
    → All P rs
    → largest (some b) rs ≡ some x
    → P x
unfolding largest
largest-All P b [] x h a e = subst P (some_eq b x e) h
largest-All P b (r ∷ rs) x h a e =
    largest-All P (if ltb b.tokens r.tokens then r else b) rs x
      (if_cases P (ltb b.tokens r.tokens) r b (λ _. a.0) (λ _. h)) a.1 e

largest_none-All {κ} :
    (P : KvResident → Type κ) (rs : List KvResident) (x : KvResident)
    → All P rs
    → largest none rs ≡ some x
    → P x
unfolding largest
largest_none-All P [] x a e = absurd (ground arith)
largest_none-All P (r ∷ rs) x a e = largest-All P r rs x a.0 a.1 e

-- The residencies that the hold of a request counts.
abbrev pub cooling_for : World → HandlerReq → Fifo → List KvResident
cooling_for w req s = keep (λ r. not (kv_warm_skips w req r)) (kv_warm_sorted req.model s)

blocker-largest :
    (w : World) (req : HandlerReq) (s : Fifo) (b : KvResident)
    → kv_warm_blocker w req s ≡ some b
    → largest none (cooling_for w req s) ≡ some b
unfolding kv_warm_blocker
blocker-largest w req s b e = ground arith

not_skipped :
    (w : World) (req : HandlerReq) (b : KvResident)
    → not (kv_warm_skips w req b) ≡ true
    → (b.busy_count ≡ 0)
      × (w.now < b.warm_until)
      × ((req.tier.preempts && ltb_ℤ b.tier_rank req.tier.rank) ≡ false)
unfolding kv_warm_skips
not_skipped w req b h = ground arith

-- A residency that holds a request back is idle, inside its cooldown, and not outranked by a
-- preempting tier of the request.
pub kv_warm_blocker-cooling :
    (w : World) (req : HandlerReq) (s : Fifo) (b : KvResident)
    → kv_warm_blocker w req s ≡ some b
    → (b.busy_count ≡ 0)
      × (w.now < b.warm_until)
      × ((req.tier.preempts && ltb_ℤ b.tier_rank req.tier.rank) ≡ false)
kv_warm_blocker-cooling w req s b e = not_skipped w req b (
    largest_none-All (λ r. not (kv_warm_skips w req r) ≡ true) (cooling_for w req s) b
      (keep-All (λ r. not (kv_warm_skips w req r)) (kv_warm_sorted req.model s))
      (blocker-largest w req s b e))

-- A limit of 0 is none.
abbrev pub Fits : ℕ → ℕ → ℕ → ℕ → Type 0
Fits pool slots tokens count = ((pool ≡ 0) ⊎ (tokens ≤ pool)) × ((slots ≡ 0) ⊎ (count ≤ slots))
