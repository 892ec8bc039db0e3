-- ===== src/Prelude/Lists.antt =====
-- Lists measured by native numbers, Boolean filters and quantifiers, and predicates by recursion.
use Prim.Native.Nat.{ℕ, zero, suc, ◌+◌}
use mathlib.Core.Path.{◌≡◌}
use mathlib.Core.Logic.{◌⊎◌, ◌↔◌, inl, inr}
use mathlib.Core.Bool.{Bool, true, false, ◌||◌}
use mathlib.Core.Option.{Option, none, some}
use mathlib.Core.List.{List, [], ◌∷◌, ◌++◌}
use llama_swap_macos_extende.Prelude.Tests.{if_cases, Bool-cases}
use native.Mathlib.Omega.{arith}
use llama_swap_macos_extende.Prelude.Tests.{if◌then◌else◌}

module _ {ℓ} {A : Type ℓ} where
  abbrev pub length : List A → ℕ
  length [] = 0
  length (x ∷ xs) = suc (length xs)

  abbrev pub get_elem? : List A → ℕ → Option A
  get_elem? [] i = none
  get_elem? (x ∷ xs) zero = some x
  get_elem? (x ∷ xs) (suc i) = get_elem? xs i

  abbrev pub set : List A → ℕ → A → List A
  set [] i v = []
  set (x ∷ xs) zero v = v ∷ xs
  set (x ∷ xs) (suc i) v = x ∷ set xs i v

  abbrev pub replicate : ℕ → A → List A
  replicate zero a = []
  replicate (suc n) a = a ∷ replicate n a

  -- The elements that pass a test, in order.
  abbrev pub keep : (A → Bool) → List A → List A
  keep p [] = []
  keep p (x ∷ xs) = let rest = keep p xs in if p x then x ∷ rest else rest

  -- Some element passes the test.
  abbrev pub any : (A → Bool) → List A → Bool
  any p [] = false
  any p (x ∷ xs) = p x || any p xs

  abbrev pub All {κ} : (A → Type κ) → List A → Type κ
  All P [] = Unit
  All P (x ∷ xs) = P x × All P xs

  -- Some element of the list has the property.
  abbrev pub Some : (A → Type 0) → List A → Type 0
  Some P [] = ⊥
  Some P (x ∷ xs) = P x ⊎ Some P xs

  pub length-append : (xs ys : List A) → length (xs ++ ys) ≡ length xs + length ys
  length-append [] ys = omega arith
  length-append (x ∷ xs) ys = omega (arith, length-append xs ys)

  pub All-append {κ} : (P : A → Type κ) (xs ys : List A) → All P xs → All P ys → All P (xs ++ ys)
  All-append P [] ys hx hy = hy
  All-append P (x ∷ xs) ys hx hy = (hx.0, All-append P xs ys hx.1 hy)

  pub All-map {κ μ} :
      (P : A → Type κ) (Q : A → Type μ) (f : (x : A) → P x → Q x) (xs : List A)
      → All P xs
      → All Q xs
  All-map P Q f [] h = tt
  All-map P Q f (x ∷ xs) h = (f x h.0, All-map P Q f xs h.1)

  pub All-keep {κ} : (P : A → Type κ) (f : A → Bool) (xs : List A) → All P xs → All P (keep f xs)
  All-keep P f [] h = tt
  All-keep P f (x ∷ xs) h =
      if_cases (All P) (f x) (x ∷ keep f xs) (keep f xs) (λ _. (h.0, All-keep P f xs h.1))
        (λ _. All-keep P f xs h.1)

  -- What a filter keeps passes its test.
  pub keep-All : (f : A → Bool) (xs : List A) → All (λ x. f x ≡ true) (keep f xs)
  keep-All f [] = tt
  keep-All f (x ∷ xs) =
      if_cases (All (λ y. f y ≡ true)) (f x) (x ∷ keep f xs) (keep f xs) (λ e. (e, keep-All f xs))
        (λ _. keep-All f xs)

  pub length-set : (xs : List A) (i : ℕ) (v : A) → length (set xs i v) ≡ length xs
  length-set [] i v = omega arith
  length-set (x ∷ xs) zero v = omega arith
  length-set (x ∷ xs) (suc i) v = omega (arith, length-set xs i v)

  pub length-replicate : (n : ℕ) (a : A) → length (replicate n a) ≡ n
  length-replicate zero a = omega arith
  length-replicate (suc n) a = omega (arith, length-replicate n a)

  pub Some-left : (P : A → Type 0) (xs ys : List A) → Some P xs → Some P (xs ++ ys)
  Some-left P [] ys h = absurd h
  Some-left P (x ∷ xs) ys (inl p) = inl p
  Some-left P (x ∷ xs) ys (inr h) = inr (Some-left P xs ys h)

  pub Some-right : (P : A → Type 0) (xs ys : List A) → Some P ys → Some P (xs ++ ys)
  Some-right P [] ys h = h
  Some-right P (x ∷ xs) ys h = inr (Some-right P xs ys h)

  pub Some-map : (P Q : A → Type 0) → ((x : A) → P x → Q x) → (xs : List A) → Some P xs → Some Q xs
  Some-map P Q f [] h = h
  Some-map P Q f (x ∷ xs) (inl p) = inl (f x p)
  Some-map P Q f (x ∷ xs) (inr h) = inr (Some-map P Q f xs h)

  -- A Boolean quantifier is true at some element.
  pub Some-of_any : (f : A → Bool) (xs : List A) → any f xs ≡ true → Some (λ x. f x ≡ true) xs
  Some-of_any f [] e = absurd (ground arith)
  Some-of_any f (x ∷ xs) e = elim (Bool-cases (f x)) [
    | inl p ↦ inl p
    | inr p ↦ inr (Some-of_any f xs (ground arith))
  ]

  -- A Boolean quantifier over a test of a property is the quantifier over the property.
  pub any-Some :
      (f : A → Bool) (P : A → Type 0)
      → ((x : A) → (f x ≡ true) ↔ P x)
      → (xs : List A) → (any f xs ≡ true) ↔ Some P xs
  any-Some f P h [] = ((λ e. absurd (ground arith)), (λ b. absurd b))
  any-Some f P h (x ∷ xs) = (
    (λ e. elim (Bool-cases (f x)) [
      | inl t ↦ inl ((h x).0 t)
      | inr t ↦ inr ((any-Some f P h xs).0 (ground arith))
    ]),
    (λ k. elim k [
      | inl t ↦ ground (arith, (h x).1 t)
      | inr t ↦ ground (arith, (any-Some f P h xs).1 t)
    ]),
  )

  -- An element of a list passes the test and is kept, or fails it.
  pub Some-keep :
      (P : A → Type 0) (f : A → Bool) (xs : List A)
      → Some P xs
      → Some P (keep f xs) ⊎ ((x : A) × P x × (f x ≡ false))
  Some-keep P f [] h = absurd h
  Some-keep P f (x ∷ xs) (inl p) = elim (Bool-cases (f x)) [
    | inl e ↦ rw e (inl (inl p))
    | inr e ↦ inr (x, p, e)
  ]
  Some-keep P f (x ∷ xs) (inr h) = elim (Some-keep P f xs h) [
    | inl k ↦ elim (Bool-cases (f x)) [ inl e ↦ rw e (inl (inr k)) | inr e ↦ rw e (inl k) ]
    | inr k ↦ inr k
  ]
