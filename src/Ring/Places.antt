-- ===== src/Ring/Places.antt =====
-- internal/ring/buffer.go: places in the buffer, modulo its capacity, and the values stored there.
use native.Mathlib.Nat.{mod-eq_of_lt, mod-eq-sub-mod}
use llama_swap_macos_extende.Prelude.{
  ℕ, suc, zero, ◌+◌, ◌-◌, ◌%◌, ◌≤◌, ◌<◌, ◌≡◌, refl, ap, ◌∙◌, ◌⊎◌, inl, inr, ltb, List, [], ◌∷◌,
  ◌++◌, some, length, get_elem?, set, arith, Bool-cases,
}

module _ {ℓ} {A : Type ℓ} where
  pub get-set_same :
      (xs : List A) (i : ℕ) (v : A) → i < length xs → get_elem? (set xs i v) i ≡ some v
  get-set_same [] i v h = absurd (omega arith)
  get-set_same (x ∷ xs) zero v h = refl
  get-set_same (x ∷ xs) (suc i) v h = get-set_same xs i v (omega arith)

  pub get-set_other :
      (xs : List A) (i j : ℕ) (v : A) → (i ≡ j → ⊥) → get_elem? (set xs i v) j ≡ get_elem? xs j
  get-set_other [] i j v h = refl
  get-set_other (x ∷ xs) zero zero v h = absurd (h refl)
  get-set_other (x ∷ xs) zero (suc j) v h = refl
  get-set_other (x ∷ xs) (suc i) zero v h = refl
  get-set_other (x ∷ xs) (suc i) (suc j) v h = get-set_other xs i j v (λ e. h (ap suc e))

  pub get-append :
      (xs : List A) (v : A) (i : ℕ) (a : A)
      → get_elem? (xs ++ v ∷ []) i ≡ some a
      → (get_elem? xs i ≡ some a) ⊎ ((i ≡ length xs) × (v ≡ a))
  get-append [] v zero a e = inr (refl, ground arith)
  get-append [] v (suc i) a e = absurd (ground arith)
  get-append (x ∷ xs) v zero a e = inl e
  get-append (x ∷ xs) v (suc i) a e = elim (get-append xs v i a e) [
    | inl k ↦ inl k
    | inr k ↦ inr (ap suc k.0, k.1)
  ]

  pub get-lt : (xs : List A) (i : ℕ) (a : A) → get_elem? xs i ≡ some a → i < length xs
  get-lt [] i a e = absurd (ground arith)
  get-lt (x ∷ xs) zero a e = omega arith
  get-lt (x ∷ xs) (suc i) a e = omega (arith, get-lt xs i a e)

-- A position within two rounds.
pub wrap :
    (x cap : ℕ) → x < cap + cap → ((x < cap) × (x % cap ≡ x)) ⊎ ((cap ≤ x) × (x % cap ≡ x - cap))
wrap x cap h = elim (Bool-cases (ltb x cap)) [
  | inl e ↦ let lt : x < cap = ground arith in inl (lt, mod-eq_of_lt lt)
  | inr e ↦
      let le : cap ≤ x = ground arith in inr (le, mod-eq-sub-mod le ∙ mod-eq_of_lt (omega arith))
]

-- Two places less than a round apart are different.
pub wrap-apart : (h i j cap : ℕ) → h < cap → i < j → j < cap → (h + i) % cap ≡ (h + j) % cap → ⊥
wrap-apart h i j cap lt a b e = elim (wrap (h + i) cap (omega arith)) [
  | inl p ↦ elim (wrap (h + j) cap (omega arith)) [
    | inl q ↦ omega (arith, p.1, q.1, e)
    | inr q ↦ omega (arith, p.1, q.1, e)
  ]
  | inr p ↦ elim (wrap (h + j) cap (omega arith)) [
    | inl q ↦ omega (arith, p.1, q.1, e)
    | inr q ↦ omega (arith, p.1, q.1, e)
  ]
]
