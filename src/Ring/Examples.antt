-- ===== src/Ring/Examples.antt =====
-- internal/ring/buffer.go: a concrete buffer, and the theorems on it.
use llama_swap_macos_extende.Prelude.{
  ℕ, zero, suc, ◌≡◌, ◌%◌, ◌+◌, refl, List, [], ◌∷◌, some, get_elem?, arith, ◌>>=◌,
}
use llama_swap_macos_extende.Ring.{Buffer, new_buffer, push, slice, push_all}
use llama_swap_macos_extende.Ring.Views.{Holds, push-slice}
use llama_swap_macos_extende.Ring.Latest.{new_buffer-slice}

-- A full buffer that has wrapped around.
abbrev wrapped : Buffer ℕ
wrapped = record { buf = 4 ∷ 2 ∷ 3 ∷ []; head = 1; size = 3 }

wrapped-values :
    (i v : ℕ)
    → get_elem? (2 ∷ 3 ∷ 4 ∷ []) i ≡ some v
    → get_elem? (4 ∷ 2 ∷ 3 ∷ []) ((1 + i) % 3) ≡ some v
wrapped-values zero v e = e
wrapped-values (suc zero) v e = e
wrapped-values (suc (suc zero)) v e = e
wrapped-values (suc (suc (suc i))) v e = absurd (ground arith)

wrapped-Holds : Holds wrapped (2 ∷ 3 ∷ 4 ∷ [])
wrapped-Holds = record {
  head = omega arith;
  size = refl;
  room = omega arith;
  values = wrapped-values;
}

push-slice_example : (push 5 wrapped >>= slice) ≡ some (3 ∷ 4 ∷ 5 ∷ [])
push-slice_example = push-slice wrapped (2 ∷ 3 ∷ 4 ∷ []) 5 wrapped-Holds

abbrev samples : List ℕ
samples = 1 ∷ 2 ∷ 3 ∷ 4 ∷ 5 ∷ []

new_buffer-slice_example : (push_all samples (new_buffer 0 3) >>= slice) ≡ some (3 ∷ 4 ∷ 5 ∷ [])
new_buffer-slice_example = new_buffer-slice 0 3 samples
