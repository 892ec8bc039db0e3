-- ===== src/Scheduler/Admission/Laws.antt =====
-- fifo.go, kvAdmit, releaseKV and grantHandler's reservation.
use llama_swap_macos_extende.Prelude.{ℕ, ◌<◌, ◌≡◌, true, String, arith, str_eq_refl, str_eq_iff}
use llama_swap_macos_extende.Scheduler.Types.{HandlerReq, Fifo}
use llama_swap_macos_extende.Scheduler.Admission.{kv_admit, reserve_kv, release_kv}

-- A request that finds the model idle is admitted whatever its size.
pub kv_admit_alone :
    (m : String) (estimate : ℕ) (s : Fifo) → s.kv_in_flight m ≡ 0 → kv_admit m estimate s ≡ true
unfolding kv_admit
kv_admit_alone m estimate s h = ground arith

-- Releasing what a request with a positive estimate reserved gives back its tokens and its large
-- place, for every model.
pub release_kv-reserve_kv :
    (r : HandlerReq) (m n : String) (s : Fifo)
    → 0 < r.estimated_tokens
    → let t = (release_kv m r.estimated_tokens r.ctx (reserve_kv r m s)).1 in
      (t.kv_in_flight n ≡ s.kv_in_flight n) × (t.kv_large_in_flight n ≡ s.kv_large_in_flight n)
unfolding release_kv reserve_kv
release_kv-reserve_kv r m n s h = ground (arith, str_eq_refl m, str_eq_iff n m)
