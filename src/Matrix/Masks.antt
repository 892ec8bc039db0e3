-- ===== src/Matrix/Masks.antt =====
-- internal/matrix/program.go: bitMask, a slice of 64-bit words. A word is the list of its bits, the
-- lowest first.
pub mod Laws
pub mod Bits
use llama_swap_macos_extende.Prelude.{
  ℕ, suc, ◌+◌, ◌/◌, ◌%◌, zero, Bool, true, false, ◌&&◌, ◌||◌, not, List, [], ◌∷◌, set, replicate,
}

abbrev pub Word : Type 0
Word = List Bool

abbrev pub Mask : Type 0
Mask = List Word

abbrev pub word_bits : ℕ
word_bits = 64

-- The bit is clear behind the last one.
unfoldable pub bit_at : Word → ℕ → Bool
bit_at [] i = false
bit_at (b ∷ w) zero = b
bit_at (b ∷ w) (suc i) = bit_at w i

unfoldable pub word_at : Mask → ℕ → Word
word_at [] i = []
word_at (w ∷ m) zero = w
word_at (w ∷ m) (suc i) = word_at m i

unfoldable pub has : Mask → ℕ → Bool
has m bit = bit_at (word_at m (bit / word_bits)) (bit % word_bits)

-- `make(bitMask, words)`.
unfoldable pub new_mask : ℕ → Mask
new_mask words = replicate words (replicate word_bits false)

-- `mask[bit/64] |= uint64(1) << uint(bit%64)`.
unfoldable pub set_bit : Mask → ℕ → Mask
set_bit m bit = set m (bit / word_bits) (set (word_at m (bit / word_bits)) (bit % word_bits) true)

-- `w &^ v == 0`.
unfoldable pub word_subset_of : Word → Word → Bool
word_subset_of [] v = true
word_subset_of (b ∷ w) [] = not b && word_subset_of w []
word_subset_of (b ∷ w) (c ∷ v) = (not b || c) && word_subset_of w v

-- The masks of one evaluator have the same length.
unfoldable pub subset_of : Mask → Mask → Bool
subset_of [] other = true
subset_of (w ∷ m) [] = word_subset_of w [] && subset_of m []
subset_of (w ∷ m) (v ∷ other) = word_subset_of w v && subset_of m other

-- `w | v`, and the loop of unionMask over the words of the left mask.
unfoldable pub word_or : Word → Word → Word
word_or [] v = []
word_or (b ∷ w) [] = b ∷ w
word_or (b ∷ w) (c ∷ v) = (b || c) ∷ word_or w v

unfoldable pub union_mask : Mask → Mask → Mask
union_mask [] right = []
union_mask (w ∷ left) [] = w ∷ left
union_mask (w ∷ left) (v ∷ right) = word_or w v ∷ union_mask left right
