-- ===== src/Matrix/Masks/Bits.antt =====
-- internal/matrix/program.go: setting one bit of a mask.
use llama_swap_macos_extende.Prelude.{
  ℕ, zero, suc, ◌*◌, ◌/◌, ◌%◌, ◌<◌, ◌≡◌, refl, ap, ◌∙◌, ◌==◌, true, false, ◌||◌, [], ◌∷◌, All,
  length, length-set, set, arith, if◌then◌else◌, Bool-cases, inl, inr,
}
use llama_swap_macos_extende.Matrix.Masks.{Word, Mask, word_bits, bit_at, word_at, has, set_bit}
use llama_swap_macos_extende.Matrix.Masks.Laws.{Shaped}

bit_at-set :
    (w : Word) (j k : ℕ) → j < length w → bit_at (set w j true) k ≡ ((j == k) || bit_at w k)
unfolding bit_at
bit_at-set [] j k h = absurd (omega arith)
bit_at-set (b ∷ w) zero zero h = refl
bit_at-set (b ∷ w) zero (suc k) h = ground arith
bit_at-set (b ∷ w) (suc j) zero h = ground arith
bit_at-set (b ∷ w) (suc j) (suc k) h = ground (arith, bit_at-set w j k)

word_at-set :
    (m : Mask) (v : Word) (i k : ℕ)
    → i < length m
    → word_at (set m i v) k ≡ (if i == k then v else word_at m k)
unfolding word_at
word_at-set [] v i k h = absurd (omega arith)
word_at-set (w ∷ m) v zero zero h = refl
word_at-set (w ∷ m) v zero (suc k) h = ground arith
word_at-set (w ∷ m) v (suc i) zero h = ground arith
word_at-set (w ∷ m) v (suc i) (suc k) h = ground (arith, word_at-set m v i k)

length-word_at :
    (m : Mask) (i : ℕ)
    → i < length m
    → All (λ w. length w ≡ word_bits) m
    → length (word_at m i) ≡ word_bits
unfolding word_at
length-word_at [] i h a = absurd (omega arith)
length-word_at (w ∷ m) zero h a = a.0
length-word_at (w ∷ m) (suc i) h a = length-word_at m i (omega arith) a.1

same_place : (b c : ℕ) → ((b / 64 == c / 64) ≡ true) → ((b % 64 == c % 64) ≡ true) → (b == c) ≡ true
same_place b c p q =
    let e : b / 64 ≡ c / 64 = ground arith in
    let f : b % 64 ≡ c % 64 = ground arith in let g : b ≡ c = omega arith in ground arith

other_word : (b c : ℕ) → ((b / 64 == c / 64) ≡ false) → (b == c) ≡ false
other_word b c p = ground arith

other_bit : (b c : ℕ) → ((b % 64 == c % 64) ≡ false) → (b == c) ≡ false
other_bit b c p = ground arith

pub has-set_bit :
    (words : ℕ) (m : Mask) (b c : ℕ)
    → Shaped words m
    → b < words * 64
    → has (set_bit m b) c ≡ ((b == c) || has m c)
unfolding has set_bit
has-set_bit words m b c s h =
    let inside : b / 64 < length m = omega (arith, s.count) in
    let wide = length-word_at m (b / 64) inside s.wide in
    let narrow : b % 64 < length (word_at m (b / 64)) = omega (arith, wide) in
    let v = set (word_at m (b / 64)) (b % 64) true in
    let word = word_at-set m v (b / 64) (c / 64) inside in
    let bit = bit_at-set (word_at m (b / 64)) (b % 64) (c % 64) narrow in
    elim (Bool-cases (b / 64 == c / 64)) [
      | inl e ↦
          let same : b / 64 ≡ c / 64 = ground arith in
          let here : word_at (set m (b / 64) v) (c / 64) ≡ v = rw e at word in
          ap (λ w. bit_at w (c % 64)) here ∙ bit ∙ (elim (Bool-cases (b % 64 == c % 64)) [
            | inl f ↦ rw (f, same_place b c e f)
            | inr f ↦ rw (f, other_bit b c f, same)
          ])
      | inr e ↦
          let there : word_at (set m (b / 64) v) (c / 64) ≡ word_at m (c / 64) = rw e at word in
          ap (λ w. bit_at w (c % 64)) there ∙ rw (other_word b c e)
    ]

pub set_bit-Shaped : (words : ℕ) (m : Mask) (b : ℕ) → Shaped words m → Shaped words (set_bit m b)
unfolding set_bit word_at
set_bit-Shaped words m b s = record {
  count = length-set m (b / 64) _ ∙ s.count;
  wide = wide m (b / 64) s.wide;
}
  where
    wide :
        (m : Mask) (i : ℕ)
        → All (λ w. length w ≡ word_bits) m
        → All (λ w. length w ≡ word_bits) (set m i (set (word_at m i) (b % 64) true))
    wide [] i a = tt
    wide (w ∷ m) zero a = (length-set w (b % 64) true ∙ a.0, a.1)
    wide (w ∷ m) (suc i) a = (a.0, wide m i a.1)
