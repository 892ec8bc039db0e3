-- ===== src/Matrix/Program/Costs.antt =====
-- internal/matrix/program.go, Solve: what a state says of the running models.
use llama_swap_macos_extende.Prelude.{
  ℕ, ◌+◌, ◌≤◌, ◌≡◌, refl, sym, subst, true, not, String, List, [], ◌∷◌, Option, some, keep,
  if◌then◌else◌, contains_string, str_eq_refl, arith, Bool-cases, inl, inr,
}
use llama_swap_macos_extende.Matrix.Masks.{Mask, has}
use llama_swap_macos_extende.Matrix.Evaluate.{Evaluator, bit_of, bit_or_zero}
use llama_swap_macos_extende.Matrix.Evaluate.Registry.{Exact}
use llama_swap_macos_extende.Matrix.Evaluate.Complete.{Above}
use llama_swap_macos_extende.Matrix.Program.{eviction_cost, missing, missing_cost}
use llama_swap_macos_extende.Matrix.Program.Support.{bit_or_zero-bit}

-- What it costs to run exactly the models `ms`: each running model that is not among them.
abbrev pub set_cost : (String → Option ℕ) → List String → List String → ℕ
set_cost costs ms [] = 0
set_cost costs ms (m ∷ running) =
    (if contains_string ms m then 0 else eviction_cost costs m) + set_cost costs ms running

-- Every model of the list has a bit.
abbrev pub Known : Evaluator → List String → Type 0
Known e rs = (m : String) → contains_string rs m ≡ true → (b : ℕ) × (bit_of e.model_bits m ≡ some b)

Known-rest : (e : Evaluator) (m : String) (rs : List String) → Known e (m ∷ rs) → Known e rs
Known-rest e m rs k n c = k n (ground arith)

pub has-Exact :
    (e : Evaluator) (ms : List String) (mask : Mask) (m : String) (b : ℕ)
    → bit_of e.model_bits m ≡ some b
    → Exact e ms mask
    → has mask (bit_or_zero e.model_bits m) ≡ contains_string ms m
has-Exact e ms mask m b at x =
    subst (λ k. has mask k ≡ contains_string ms m) (sym (bit_or_zero-bit e.model_bits m b at))
      (x m b at)

pub missing-Exact :
    (e : Evaluator) (ms : List String) (mask : Mask) (rs : List String)
    → Known e rs
    → Exact e ms mask
    → missing e mask rs ≡ keep (λ m. not (contains_string ms m)) rs
unfolding missing
missing-Exact e ms mask [] k x = refl
missing-Exact e ms mask (m ∷ rs) k x =
    let (b, at) = k m (ground (arith, str_eq_refl m)) in
    let same = has-Exact e ms mask m b at x in
    let rest = missing-Exact e ms mask rs (Known-rest e m rs k) x in simp (same, rest) refl

pub missing_cost-Exact :
    (costs : String → Option ℕ) (e : Evaluator) (ms : List String) (mask : Mask) (rs : List String)
    → Known e rs
    → Exact e ms mask
    → missing_cost costs e mask rs ≡ set_cost costs ms rs
unfolding missing_cost
missing_cost-Exact costs e ms mask [] k x = refl
missing_cost-Exact costs e ms mask (m ∷ rs) k x =
    let (b, at) = k m (ground (arith, str_eq_refl m)) in
    let same = has-Exact e ms mask m b at x in
    let rest = missing_cost-Exact costs e ms mask rs (Known-rest e m rs k) x in
    simp (same, rest) refl

-- A mask above the models of a combination misses no more of the running ones.
pub missing_cost-Above :
    (costs : String → Option ℕ) (e : Evaluator) (ms : List String) (mask : Mask) (rs : List String)
    → Known e rs
    → Above e ms mask
    → missing_cost costs e mask rs ≤ set_cost costs ms rs
unfolding missing_cost
missing_cost-Above costs e ms mask [] k x = omega arith
missing_cost-Above costs e ms mask (m ∷ rs) k x =
    let (b, at) = k m (ground (arith, str_eq_refl m)) in
    let place = bit_or_zero-bit e.model_bits m b at in
    let rest = missing_cost-Above costs e ms mask rs (Known-rest e m rs k) x in
    elim (Bool-cases (contains_string ms m)) [
      | inl c ↦
          let set : has mask (bit_or_zero e.model_bits m) ≡ true =
            subst (λ j. has mask j ≡ true) (sym place) (x m b at c) in
          rw (c, set) (omega (arith, rest))
      | inr c ↦ rw c (elim (Bool-cases (has mask (bit_or_zero e.model_bits m))) [
        | inl s ↦ rw s (omega (arith, rest))
        | inr s ↦ rw s (omega (arith, rest))
      ])
    ]
