-- ===== src/Matrix/Masks/Laws.antt =====
-- internal/matrix/program.go: what the operations on masks make of each bit.
use llama_swap_macos_extende.Prelude.{
  ℕ, zero, suc, ◌+◌, ◌*◌, ◌/◌, ◌%◌, ◌<◌, ◌≡◌, refl, sym, ap, ◌∙◌, true, false, ◌||◌, [], ◌∷◌, All,
  length, length-replicate, replicate, arith,
}
use llama_swap_macos_extende.Matrix.Masks.{
  Word, Mask, word_bits, bit_at, word_at, has, new_mask, word_subset_of, subset_of, word_or,
  union_mask,
}

-- `words` words of 64 bits each.
pub record Shaped (words : ℕ) (m : Mask) : Type 0 where
  pub count : length m ≡ words
  pub wide : All (λ w. length w ≡ word_bits) m

bit_at-replicate : (n i : ℕ) → bit_at (replicate n false) i ≡ false
unfolding bit_at
bit_at-replicate zero i = refl
bit_at-replicate (suc n) zero = refl
bit_at-replicate (suc n) (suc i) = bit_at-replicate n i

pub new_mask-Shaped : (words : ℕ) → Shaped words (new_mask words)
unfolding new_mask
new_mask-Shaped words = record { count = length-replicate words _; wide = wide words }
  where
    wide : (n : ℕ) → All (λ w. length w ≡ word_bits) (replicate n (replicate word_bits false))
    wide zero = tt
    wide (suc n) = (length-replicate word_bits false, wide n)

word_at-new : (n i j : ℕ) → bit_at (word_at (replicate n (replicate word_bits false)) i) j ≡ false
unfolding word_at bit_at
word_at-new zero i j = refl
word_at-new (suc n) zero j = bit_at-replicate word_bits j
word_at-new (suc n) (suc i) j = word_at-new n i j

pub has-new_mask : (words b : ℕ) → has (new_mask words) b ≡ false
unfolding has new_mask
has-new_mask words b = word_at-new words (b / word_bits) (b % word_bits)

word_subset_of-bit :
    (w v : Word) (i : ℕ) → word_subset_of w v ≡ true → bit_at w i ≡ true → bit_at v i ≡ true
unfolding word_subset_of bit_at
word_subset_of-bit [] v i h e = absurd (ground arith)
word_subset_of-bit (b ∷ w) [] zero h e = ground arith
word_subset_of-bit (b ∷ w) [] (suc i) h e = word_subset_of-bit w [] i (ground arith) e
word_subset_of-bit (b ∷ w) (c ∷ v) zero h e = ground arith
word_subset_of-bit (b ∷ w) (c ∷ v) (suc i) h e = word_subset_of-bit w v i (ground arith) e

subset_of-word :
    (m o : Mask) (i j : ℕ)
    → subset_of m o ≡ true
    → bit_at (word_at m i) j ≡ true
    → bit_at (word_at o i) j ≡ true
unfolding subset_of word_at bit_at
subset_of-word [] o i j h e = absurd (ground arith)
subset_of-word (w ∷ m) [] zero j h e = word_subset_of-bit w [] j (ground arith) e
subset_of-word (w ∷ m) [] (suc i) j h e = subset_of-word m [] i j (ground arith) e
subset_of-word (w ∷ m) (v ∷ o) zero j h e = word_subset_of-bit w v j (ground arith) e
subset_of-word (w ∷ m) (v ∷ o) (suc i) j h e = subset_of-word m o i j (ground arith) e

-- A mask that is a subset of another has only bits that the other has.
pub subset_of-has : (m o : Mask) (b : ℕ) → subset_of m o ≡ true → has m b ≡ true → has o b ≡ true
unfolding has
subset_of-has m o b h e = subset_of-word m o (b / word_bits) (b % word_bits) h e

word_subset_of_bits :
    (w v : Word) → ((i : ℕ) → bit_at w i ≡ true → bit_at v i ≡ true) → word_subset_of w v ≡ true
unfolding word_subset_of bit_at
word_subset_of_bits [] v h = refl
word_subset_of_bits (b ∷ w) [] h = ground (arith, h 0, word_subset_of_bits w [] (λ i. h (suc i)))
word_subset_of_bits (b ∷ w) (c ∷ v) h =
    ground (arith, h 0, word_subset_of_bits w v (λ i. h (suc i)))

subset_of_words :
    (m o : Mask)
    → ((i j : ℕ) → bit_at (word_at m i) j ≡ true → bit_at (word_at o i) j ≡ true)
    → subset_of m o ≡ true
unfolding subset_of word_at bit_at
subset_of_words [] o h = refl
subset_of_words (w ∷ m) [] h =
    ground (arith, word_subset_of_bits w [] (λ j. h 0 j), subset_of_words m [] (λ i j. h (suc i) j))
subset_of_words (w ∷ m) (v ∷ o) h =
    ground (arith, word_subset_of_bits w v (λ j. h 0 j), subset_of_words m o (λ i j. h (suc i) j))

bit_at-lt : (w : Word) (j : ℕ) → bit_at w j ≡ true → j < length w
unfolding bit_at
bit_at-lt [] j e = absurd (ground arith)
bit_at-lt (b ∷ w) zero e = omega arith
bit_at-lt (b ∷ w) (suc j) e = omega (arith, bit_at-lt w j e)

word_at-wide :
    (words : ℕ) (m : Mask) (i j : ℕ)
    → All (λ w. length w ≡ word_bits) m
    → bit_at (word_at m i) j ≡ true
    → j < word_bits
unfolding word_at bit_at
word_at-wide words [] i j h e = absurd (ground arith)
word_at-wide words (w ∷ m) zero j h e = omega (arith, bit_at-lt w j e, h.0)
word_at-wide words (w ∷ m) (suc i) j h e = word_at-wide words m i j h.1 e

-- And conversely.
pub subset_of-has' :
    (words : ℕ) (m o : Mask)
    → Shaped words m
    → ((b : ℕ) → has m b ≡ true → has o b ≡ true)
    → subset_of m o ≡ true
unfolding has
subset_of-has' words m o s h = subset_of_words m o (λ i j e.
    let lt = word_at-wide words m i j s.wide e in
    let div : (i * 64 + j) / 64 ≡ i = omega arith in
    let rest : (i * 64 + j) % 64 ≡ j = omega arith in
    let found = h (i * 64 + j) (rw (div, rest) e) in rw (div, rest) at found)

word_or-bit :
    (w v : Word) (i : ℕ) → length w ≡ length v → bit_at (word_or w v) i ≡ (bit_at w i || bit_at v i)
unfolding word_or bit_at
word_or-bit [] [] i e = refl
word_or-bit [] (c ∷ v) i e = absurd (omega arith)
word_or-bit (b ∷ w) [] i e = absurd (omega arith)
word_or-bit (b ∷ w) (c ∷ v) zero e = refl
word_or-bit (b ∷ w) (c ∷ v) (suc i) e = word_or-bit w v i (omega arith)

union_mask-word :
    (l r : Mask) (i j : ℕ)
    → length l ≡ length r
    → All (λ w. length w ≡ word_bits) l
    → All (λ w. length w ≡ word_bits) r
    → bit_at (word_at (union_mask l r) i) j ≡ (bit_at (word_at l i) j || bit_at (word_at r i) j)
unfolding union_mask word_at bit_at
union_mask-word [] [] i j e h k = refl
union_mask-word [] (v ∷ r) i j e h k = absurd (omega arith)
union_mask-word (w ∷ l) [] i j e h k = absurd (omega arith)
union_mask-word (w ∷ l) (v ∷ r) zero j e h k = word_or-bit w v j (h.0 ∙ sym k.0)
union_mask-word (w ∷ l) (v ∷ r) (suc i) j e h k = union_mask-word l r i j (omega arith) h.1 k.1

pub has-union_mask :
    (words : ℕ) (l r : Mask) (b : ℕ)
    → Shaped words l
    → Shaped words r
    → has (union_mask l r) b ≡ (has l b || has r b)
unfolding has
has-union_mask words l r b h k =
    union_mask-word l r (b / word_bits) (b % word_bits) (h.count ∙ sym k.count) h.wide k.wide

length-word_or : (w v : Word) → length w ≡ length v → length (word_or w v) ≡ length w
unfolding word_or
length-word_or [] v e = refl
length-word_or (b ∷ w) [] e = refl
length-word_or (b ∷ w) (c ∷ v) e = ap suc (length-word_or w v (omega arith))

pub union_mask-Shaped :
    (words : ℕ) (l r : Mask) → Shaped words l → Shaped words r → Shaped words (union_mask l r)
unfolding union_mask
union_mask-Shaped words l r h k = record {
  count = count l r ∙ h.count;
  wide = wide l r h.wide k.wide;
}
  where
    count : (l r : Mask) → length (union_mask l r) ≡ length l
    count [] r = refl
    count (w ∷ l) [] = refl
    count (w ∷ l) (v ∷ r) = ap suc (count l r)

    wide :
        (l r : Mask)
        → All (λ w. length w ≡ word_bits) l
        → All (λ w. length w ≡ word_bits) r
        → All (λ w. length w ≡ word_bits) (union_mask l r)
    wide [] r p q = tt
    wide (w ∷ l) [] p q = p
    wide (w ∷ l) (v ∷ r) p q = (length-word_or w v (p.0 ∙ sym q.0) ∙ p.0, wide l r p.1 q.1)
