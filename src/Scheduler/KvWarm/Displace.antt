-- ===== src/Scheduler/KvWarm/Displace.antt =====
-- kvwarm.go, kvWarmDisplace: which residencies a grant displaces.
use llama_swap_macos_extende.Prelude.{ℕ, ◌+◌, ◌≡◌, ◌⊎◌, List, [], ◌∷◌, ◌++◌, length}
use llama_swap_macos_extende.Scheduler.Types.{KvResident}
use llama_swap_macos_extende.Scheduler.KvWarm.Laws.{Fits}
use llama_swap_macos_extende.Scheduler.KvWarm.Oldest.{Oldest}

-- The tokens of a list of residencies.
abbrev pub tokens_of : List KvResident → ℕ
tokens_of [] = 0
tokens_of (r ∷ rs) = r.tokens + tokens_of rs

-- Before each of the residencies that go went, it and those behind it did not fit.
abbrev pub Needed : ℕ → ℕ → ℕ → ℕ → List KvResident → List KvResident → Type 0
Needed pool slots in_use requests [] stays = Unit
Needed pool slots in_use requests (g ∷ goes) stays =
    (Fits pool slots (in_use + tokens_of (g ∷ goes ++ stays))
        (requests + length (g ∷ goes ++ stays))
      → ⊥)
    × Needed pool slots in_use requests goes stays

-- The residencies are split in those that go, oldest first and no more than needed, and those that
-- stay, which fit unless there are none.
abbrev pub Split :
    (pool slots in_use requests : ℕ) → List KvResident → List KvResident → List KvResident → Type 0
Split pool slots in_use requests rs goes stays =
    (rs ≡ goes ++ stays)
    × ((stays ≡ []) ⊎ Fits pool slots (in_use + tokens_of stays) (requests + length stays))
    × Needed pool slots in_use requests goes stays
