-- ===== src/Matrix/Evaluate/Registry.antt =====
-- internal/matrix/program.go: the bits of the models that a query is about.
use llama_swap_macos_extende.Prelude.{
  ℕ, zero, suc, ◌*◌, ◌<◌, ◌≡◌, inl, inr, refl, sym, ap, ◌∙◌, subst, true, ◌||◌, ◌==◌, String, List,
  [], ◌∷◌, ◌++◌, none, some, length, contains_string, str_eq, str_eq_iff, arith, Bool-cases,
  Option-cases,
}
use llama_swap_macos_extende.Matrix.Masks.{Mask, has, new_mask}
use llama_swap_macos_extende.Matrix.Masks.Laws.{Shaped, new_mask-Shaped, has-new_mask}
use llama_swap_macos_extende.Matrix.Masks.Bits.{has-set_bit, set_bit-Shaped}
use llama_swap_macos_extende.Matrix.Evaluate.{
  register, bit_of, Evaluator, words_for, new_evaluator, leaf_mask,
}

pub bit_of-lt : (bits : List String) (m : String) (b : ℕ) → bit_of bits m ≡ some b → b < length bits
unfolding bit_of
bit_of-lt [] m b e = absurd (ground arith)
bit_of-lt (x ∷ bits) m b e = elim (Option-cases (bit_of bits m)) [
  | inl n ↦ ground (arith, n)
  | inr (i, k) ↦ ground (arith, k, bit_of-lt bits m i k)
]

-- Two models do not share a bit.
pub bit_of-injective :
    (bits : List String) (m n : String) (b : ℕ)
    → bit_of bits m ≡ some b
    → bit_of bits n ≡ some b
    → m ≡ n
unfolding bit_of
bit_of-injective [] m n b p q = absurd (ground arith)
bit_of-injective (x ∷ bits) m n zero p q =
    let left : str_eq x m ≡ true = first m p in
    let right : str_eq x n ≡ true = first n q in
    sym ((str_eq_iff x m).0 left) ∙ (str_eq_iff x n).0 right
  where
    first : (k : String) → bit_of (x ∷ bits) k ≡ some 0 → str_eq x k ≡ true
    first k e = elim (Option-cases (bit_of bits k)) [
      | inl n ↦ ground (arith, n)
      | inr (i, h) ↦ ground (arith, h)
    ]
bit_of-injective (x ∷ bits) m n (suc b) p q = bit_of-injective bits m n b (later m p) (later n q)
  where
    later : (k : String) → bit_of (x ∷ bits) k ≡ some (suc b) → bit_of bits k ≡ some b
    later k e = elim (Option-cases (bit_of bits k)) [
      | inl n ↦ absurd (ground (arith, n))
      | inr (i, h) ↦ ground (arith, h)
    ]

pub bit_of-contains :
    (bits : List String) (m : String)
    → contains_string bits m ≡ true
    → (b : ℕ) × (bit_of bits m ≡ some b)
unfolding bit_of
bit_of-contains [] m e = absurd (ground arith)
bit_of-contains (x ∷ bits) m e = elim (Bool-cases (str_eq x m)) [
  | inl h ↦ (0, rw h)
  | inr h ↦ let (b, k) = bit_of-contains bits m (ground arith) in (suc b, rw (h, k))
]

pub contains-append :
    (xs ys : List String) (m : String)
    → contains_string (xs ++ ys) m ≡ (contains_string xs m || contains_string ys m)
contains-append [] ys m = refl
contains-append (x ∷ xs) ys m = ground (arith, contains-append xs ys m)

pub register-contains :
    (bits ms : List String) (m : String)
    → (contains_string bits m || contains_string ms m) ≡ true
    → contains_string (register bits ms) m ≡ true
unfolding register
register-contains bits [] m e = ground arith
register-contains bits (x ∷ ms) m e = elim (Bool-cases (contains_string bits x)) [
  | inl h ↦ rw h (
      register-contains bits ms m (elim (Bool-cases (str_eq x m)) [
        | inl k ↦
            let same : x ≡ m = (str_eq_iff x m).0 k in
            let found : contains_string bits m ≡ true =
              subst (λ y. contains_string bits y ≡ true) same h in
            ground arith
        | inr k ↦ ground arith
      ]))
  | inr h ↦
      rw h
        (register-contains (bits ++ x ∷ []) ms m (ground (arith, contains-append bits (x ∷ []) m)))
]

-- Every model that a query is about has a bit.
pub new_evaluator-bit :
    (relevant : List String) (m : String)
    → contains_string relevant m ≡ true
    → (b : ℕ) × (bit_of (new_evaluator relevant).model_bits m ≡ some b)
unfolding new_evaluator
new_evaluator-bit relevant m e =
    bit_of-contains _ m (register-contains [] relevant m (ground arith))

-- The masks of the evaluator have a place for every bit.
abbrev pub Sized : Evaluator → Type 0
Sized e = e.words ≡ words_for (length e.model_bits)

pub new_evaluator-Sized : (relevant : List String) → Sized (new_evaluator relevant)
unfolding new_evaluator
new_evaluator-Sized relevant = refl

-- The mask has the bits of the models in the list, among those that have a bit.
abbrev pub Exact : Evaluator → List String → Mask → Type 0
Exact e ms mask =
    (m : String) (b : ℕ) → bit_of e.model_bits m ≡ some b → has mask b ≡ contains_string ms m

pub leaf_mask-Shaped : (e : Evaluator) (m : String) → Shaped e.words (leaf_mask e m)
unfolding leaf_mask
leaf_mask-Shaped e m = elim (Option-cases (bit_of e.model_bits m)) [
  | inl n ↦ rw (n, leaf_mask) (new_mask-Shaped e.words)
  | inr (b, h) ↦ rw (h, leaf_mask) (set_bit-Shaped e.words _ b (new_mask-Shaped e.words))
]

pub leaf_mask-Exact : (e : Evaluator) (m : String) → Sized e → Exact e (m ∷ []) (leaf_mask e m)
unfolding leaf_mask
leaf_mask-Exact e m sized n c k = elim (Option-cases (bit_of e.model_bits m)) [
  | inl h ↦
      rw (h, leaf_mask)
        (has-new_mask e.words c
          ∙ sym (elim (Bool-cases (str_eq m n)) [
            | inl s ↦
                let same = (str_eq_iff m n).0 s in
                let other : none ≡ some c = sym h ∙ ap (bit_of e.model_bits) same ∙ k in
                absurd (ground arith)
            | inr s ↦ ground arith
          ]))
  | inr (b, h) ↦
      let inside : b < e.words * 64 = omega (arith, sized, bit_of-lt e.model_bits m b h) in
      let split = has-set_bit e.words (new_mask e.words) b c (new_mask-Shaped e.words) inside in
      let clear = has-new_mask e.words c in
      rw (h, leaf_mask)
        (split ∙ (elim (Bool-cases (str_eq m n)) [
          | inl s ↦
              let same = (str_eq_iff m n).0 s in
              let bits : some b ≡ some c = sym h ∙ ap (bit_of e.model_bits) same ∙ k in ground arith
          | inr s ↦ elim (Bool-cases (b == c)) [
            | inl q ↦
                let bits : b ≡ c = ground arith in
                let same : m ≡ n =
                  bit_of-injective e.model_bits m n c (h ∙ ap (λ i. some i) bits) k in
                let yes_same : str_eq m n ≡ true = (str_eq_iff m n).1 same in absurd (ground arith)
            | inr q ↦ ground arith
          ]
        ]))
]
