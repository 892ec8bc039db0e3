-- ===== src/Scheduler/Examples/Guards.antt =====
-- fifo.go and kvwarm.go: concrete decisions of the guards, and the theorems on them.
use llama_swap_macos_extende.Prelude.{
  ◌↔◌, none, List, inl, ◌+◌, ◌≤◌, ◌<◌, ◌≡◌, refl, ◌⊎◌, true, false, ◌&&◌, [], ◌∷◌, arith,
}
use llama_swap_macos_extende.Prelude.Int.{pos, negsuc, ltb_ℤ}
use llama_swap_macos_extende.Scheduler.Queue.{enqueue, goes_before}
use llama_swap_macos_extende.Scheduler.Swaps.{being_evicted}
use llama_swap_macos_extende.Scheduler.Admission.{release_kv, reserve_kv}
use llama_swap_macos_extende.Scheduler.Preempt.{can_preempt, try_preempt}
use llama_swap_macos_extende.Scheduler.Grace.{
  within_grace, breaks_grace, finish_cooldown, deferred_by_grace,
}
use llama_swap_macos_extende.Scheduler.KvWarm.{
  session_root, kv_warm_cooling, sort_residents, kv_warm_sorted, kv_warm_skips, total_tokens,
  largest, kv_warm_overflows, kv_warm_blocker,
}
use llama_swap_macos_extende.Scheduler.Events.{expire_forced_grace}
use llama_swap_macos_extende.Scheduler.Queue.Words.{InOrder, enqueue-InOrder}
use llama_swap_macos_extende.Scheduler.Admission.Laws.{release_kv-reserve_kv}
use llama_swap_macos_extende.Scheduler.Preempt.Bounds.{boots, try_preempt-boots, try_preempt-Kept}
use llama_swap_macos_extende.Scheduler.Grace.Laws.{finish_cooldown-deferred}
use llama_swap_macos_extende.Scheduler.KvWarm.Laws.{Fits, kv_warm_blocker-cooling}
use llama_swap_macos_extende.Scheduler.KvWarm.Holds.{held_tokens, held_count, kv_warm_blocker-none}
use llama_swap_macos_extende.Scheduler.Types.{Fifo}
use llama_swap_macos_extende.Scheduler.Events.Finish.{within_grace-expire}
use llama_swap_macos_extende.Scheduler.Examples.{
  chat, batch, req, world, cfg, slot, loaded, swapping,
}

enqueue-InOrder_example : InOrder cfg.priority (enqueue (req 2 "big" batch) swapping).queued
unfolding goes_before
enqueue-InOrder_example =
    enqueue-InOrder (req 2 "big" batch) swapping ((inl (omega arith), tt), (tt, tt))

release_kv-reserve_kv_example :
    let t = (release_kv "small" 9000 2 (reserve_kv (req 2 "small" chat) "small" loaded)).1 in
    (t.kv_in_flight "small" ≡ 9000) × (t.kv_large_in_flight "small" ≡ 1)
release_kv-reserve_kv_example =
    release_kv-reserve_kv (req 2 "small" chat) "small" "small" loaded (omega arith)

try_preempt-boots_example :
    let p = try_preempt (req 2 "small" chat) ("small" ∷ []) 1 loaded in
    (boots p.1.effects ≤ boots [] + 1)
    × (p.0 ≡ false → boots p.1.effects ≡ boots [])
    × (p.0 ≡ true → boots [] < boots p.1.effects)
try_preempt-boots_example =
    try_preempt-boots (req 2 "small" chat) ("small" ∷ []) 1 loaded (omega arith)

try_preempt-Kept_example :
    try_preempt (req 2 "small" batch) ("small" ∷ []) 1 loaded ≡ (false, loaded)
unfolding can_preempt
try_preempt-Kept_example =
    try_preempt-Kept (req 2 "small" batch) ("small" ∷ []) 1 loaded ((refl, tt), tt)

finish_cooldown-deferred_example :
    let first =
      deferred_by_grace world (req 2 "big" batch) ("small" ∷ []) (finish_cooldown loaded) in
    (first.0 ≡ false)
    × ((deferred_by_grace world (req 3 "big" batch) ("other" ∷ []) first.1).0 ≡ true)
unfolding within_grace breaks_grace
finish_cooldown-deferred_example =
    finish_cooldown-deferred world world (req 2 "big" batch) (req 3 "big" batch) ("small" ∷ [])
      ("other" ∷ []) loaded refl refl refl

within_grace-expire_example :
    within_grace world
      ("big" ∷ [])
      (expire_forced_grace world (record loaded { grace_expired_forced = true }))
    ≡ false
unfolding being_evicted
within_grace-expire_example =
    within_grace-expire world ("big" ∷ []) (record loaded { grace_expired_forced = true }) refl
      ((refl, refl), tt)

-- A batch request does not outrank the cooling slot, and the pool has no room for both.
kv_warm_blocker-cooling_example :
    let b = slot "other/lane" 8000 in
    (b.busy_count ≡ 0) × (world.now < b.warm_until) × ((false && ltb_ℤ (pos 5) (negsuc 0)) ≡ false)
unfolding kv_warm_blocker kv_warm_sorted sort_residents kv_warm_skips session_root kv_warm_cooling
    kv_warm_overflows total_tokens largest
kv_warm_blocker-cooling_example =
    kv_warm_blocker-cooling world (req 2 "small" batch) loaded (slot "other/lane" 8000) refl

kv_warm_blocker-none_example :
    let r = req 2 "small" batch in
    let tokens = held_tokens world r (loaded.kv_residents r.model) in
    let count = held_count world r (loaded.kv_residents r.model) in
    (kv_warm_blocker world r loaded ≡ none) ↔ (
      (r.status_read ≡ true)
      ⊎ (r.concurrency_exempt ≡ true)
      ⊎ (count ≡ 0)
      ⊎ Fits
          (loaded.cfg.kv_pool_tokens r.model)
          (loaded.slot_count r.model)
          (loaded.kv_in_flight r.model + tokens + r.estimated_tokens)
          (loaded.in_flight r.model + count + 1))
kv_warm_blocker-none_example = kv_warm_blocker-none world (req 2 "small" batch) loaded

-- A pool of 20000 tokens with 9000 in flight keeps one of two idle residencies.
abbrev crowded : Fifo
crowded = record loaded { kv_residents = λ m. slot "b" 9000 ∷ slot "a" 8000 ∷ [] }
