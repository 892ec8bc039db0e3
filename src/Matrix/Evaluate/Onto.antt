-- ===== src/Matrix/Evaluate/Onto.antt =====
-- internal/matrix/program.go, newEvaluator and fullMask: every bit is the bit of a model.
use llama_swap_macos_extende.Prelude.{
  ℕ, zero, suc, ◌*◌, ◌<◌, ◌≤◌, ◌≡◌, inl, inr, ap, ◌∙◌, true, false, ◌||◌, ◌==◌, ltb, String, List,
  [], ◌∷◌, ◌++◌, some, length, length-append, contains_string, str_eq_refl, arith, Bool-cases,
  Option-cases, if_cases,
}
use llama_swap_macos_extende.Matrix.Masks.{Mask, has, new_mask}
use llama_swap_macos_extende.Matrix.Masks.Laws.{Shaped, new_mask-Shaped, has-new_mask}
use llama_swap_macos_extende.Matrix.Masks.Bits.{has-set_bit, set_bit-Shaped}
use llama_swap_macos_extende.Matrix.Evaluate.{
  register, bit_of, Evaluator, new_evaluator, set_bits_below, full_mask,
}
use llama_swap_macos_extende.Matrix.Evaluate.Registry.{Sized, contains-append}

-- Every bit below the length belongs to a model of the list.
abbrev Onto : List String → Type 0
Onto bits =
    (b : ℕ)
    → b < length bits
    → (m : String) × (contains_string bits m ≡ true) × (bit_of bits m ≡ some b)

bit_of-keep :
    (bits : List String) (x m : String) (b : ℕ)
    → bit_of bits m ≡ some b
    → bit_of (bits ++ x ∷ []) m ≡ some b
unfolding bit_of
bit_of-keep [] x m b e = absurd (ground arith)
bit_of-keep (y ∷ bits) x m b e = elim (Option-cases (bit_of bits m)) [
  | inl n ↦ ground (arith, n)
  | inr (i, k) ↦ ground (arith, k, bit_of-keep bits x m i k)
]

bit_of-last :
    (bits : List String) (x : String)
    → contains_string bits x ≡ false
    → bit_of (bits ++ x ∷ []) x ≡ some (length bits)
unfolding bit_of
bit_of-last [] x e = rw (str_eq_refl x)
bit_of-last (y ∷ bits) x e = ground (arith, bit_of-last bits x (ground arith))

Onto-append :
    (bits : List String) (x : String)
    → contains_string bits x ≡ false
    → Onto bits
    → Onto (bits ++ x ∷ [])
Onto-append bits x out h b lt =
    let whole = length-append bits (x ∷ []) in
    elim (Bool-cases (ltb b (length bits))) [
      | inl e ↦
          let (m, c, k) = h b (ground arith) in
          (m, ground (arith, contains-append bits (x ∷ []) m), bit_of-keep bits x m b k)
      | inr e ↦
          let same : length bits ≡ b = ground (arith, whole) in
          (
            x,
            ground (arith, str_eq_refl x, contains-append bits (x ∷ []) x),
            bit_of-last bits x out ∙ ap (λ i. some i) same,
          )
    ]

register-Onto : (bits ms : List String) → Onto bits → Onto (register bits ms)
unfolding register
register-Onto bits [] h = h
register-Onto bits (m ∷ ms) h = elim (Bool-cases (contains_string bits m)) [
  | inl e ↦ rw e (register-Onto bits ms h)
  | inr e ↦ rw e (register-Onto (bits ++ m ∷ []) ms (Onto-append bits m e h))
]

register_only :
    (bits ms : List String) (m : String)
    → contains_string (register bits ms) m ≡ true
    → (contains_string bits m || contains_string ms m) ≡ true
unfolding register
register_only bits [] m e = ground arith
register_only bits (n ∷ ms) m e =
    if_cases
      (λ zs.
        contains_string (register zs ms) m ≡ true
        → (contains_string bits m || contains_string (n ∷ ms) m) ≡ true)
      (contains_string bits n) bits (bits ++ n ∷ [])
      (λ _ h. ground (arith, register_only bits ms m h))
      (λ _ h.
        ground (arith, register_only (bits ++ n ∷ []) ms m h, contains-append bits (n ∷ []) m))
      e

-- Every bit of an evaluator belongs to a model that the query is about.
pub new_evaluator-Onto :
    (relevant : List String) (b : ℕ)
    → b < length (new_evaluator relevant).model_bits
    → (m : String) × (contains_string relevant m ≡ true)
      × (bit_of (new_evaluator relevant).model_bits m ≡ some b)
unfolding new_evaluator
new_evaluator-Onto relevant b lt =
    let (m, c, k) = register-Onto [] relevant (λ i l. absurd (omega (arith, l))) b lt in
    (m, ground (arith, register_only [] relevant m c), k)

set_bits_below-Shaped :
    (words n : ℕ) (m : Mask) → Shaped words m → Shaped words (set_bits_below n m)
unfolding set_bits_below
set_bits_below-Shaped words zero m s = s
set_bits_below-Shaped words (suc n) m s =
    set_bit-Shaped words _ n (set_bits_below-Shaped words n m s)

has-set_bits_below :
    (words n b : ℕ) (m : Mask)
    → Shaped words m
    → n ≤ words * 64
    → has (set_bits_below n m) b ≡ (ltb b n || has m b)
unfolding set_bits_below
has-set_bits_below words zero b m s le = ground arith
has-set_bits_below words (suc n) b m s le =
    has-set_bit words (set_bits_below n m) n b (set_bits_below-Shaped words n m s) (ground arith)
    ∙ ap (λ x. (n == b) || x) (has-set_bits_below words n b m s (ground arith))
    ∙ ground arith

pub full_mask-Shaped : (e : Evaluator) → Shaped e.words (full_mask e)
unfolding full_mask
full_mask-Shaped e = set_bits_below-Shaped e.words _ _ (new_mask-Shaped e.words)

pub has-full_mask :
    (e : Evaluator) (b : ℕ) → Sized e → has (full_mask e) b ≡ ltb b (length e.model_bits)
unfolding full_mask
has-full_mask e b sized =
    has-set_bits_below e.words (length e.model_bits) b (new_mask e.words) (new_mask-Shaped e.words)
      (omega (arith, sized))
    ∙ ground (arith, has-new_mask e.words b)
