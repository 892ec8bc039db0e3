-- ===== src/Ring/Latest.antt =====
-- internal/ring/buffer.go: a buffer that is filled from the start.
use llama_swap_macos_extende.Prelude.{
  ℕ, suc, zero, ◌-◌, ◌≤◌, ◌<◌, ◌≡◌, refl, sym, ap, ◌∙◌, subst, inl, inr, ltb, List, [], ◌∷◌, ◌++◌,
  some, if◌then◌else◌, length, arith, Bool-cases, length-append, length-replicate, ◌>>=◌,
}
use llama_swap_macos_extende.Ring.{Buffer, new_buffer, slice, push_all}
use llama_swap_macos_extende.Ring.Views.{recent, Holds, slice-Holds, push-Holds}

-- The capacity that NewBuffer takes.
abbrev pub capacity_of : ℕ → ℕ
capacity_of capacity = if ltb capacity 1 then 1 else capacity

capacity_of-positive : (n : ℕ) → 0 < capacity_of n
capacity_of-positive n = ground arith

module _ {ℓ} {A : Type ℓ} where
  abbrev without : ℕ → List A → List A
  without zero xs = xs
  without (suc n) [] = []
  without (suc n) (x ∷ xs) = without n xs

  -- The last `n` values of a list, or all of a shorter one.
  abbrev pub latest : ℕ → List A → List A
  latest n xs = without (length xs - n) xs

  length-without : (n : ℕ) (xs : List A) → length (without n xs) ≡ length xs - n
  length-without zero xs = omega arith
  length-without (suc n) [] = omega arith
  length-without (suc n) (x ∷ xs) = omega (arith, length-without n xs)

  without-append :
      (n : ℕ) (xs ys : List A) → n ≤ length xs → without n (xs ++ ys) ≡ without n xs ++ ys
  without-append zero xs ys h = refl
  without-append (suc n) [] ys h = absurd (omega (arith, h))
  without-append (suc n) (x ∷ xs) ys h = without-append n xs ys (omega (arith, h))

  abbrev behind : List A → List A
  behind [] = []
  behind (x ∷ xs) = xs

  behind-without : (n : ℕ) (xs : List A) → behind (without n xs) ≡ without (suc n) xs
  behind-without zero [] = refl
  behind-without zero (x ∷ xs) = refl
  behind-without (suc n) [] = refl
  behind-without (suc n) (x ∷ xs) = behind-without n xs

  recent-short : (n : ℕ) (xs : List A) (v : A) → length xs < n → recent n xs v ≡ xs ++ v ∷ []
  recent-short n [] v h = refl
  recent-short n (x ∷ xs) v h = ground arith

  recent-full : (n : ℕ) (xs : List A) (v : A) → n ≤ length xs → recent n xs v ≡ behind xs ++ v ∷ []
  recent-full n [] v h = refl
  recent-full n (x ∷ xs) v h = ground arith

  -- The recent values after the latest ones are the latest ones.
  recent-latest :
      (n : ℕ) (xs : List A) (v : A) → 0 < n → recent n (latest n xs) v ≡ latest n (xs ++ v ∷ [])
  recent-latest n xs v pos = elim (Bool-cases (ltb (length xs) n)) [
    | inl e ↦
        let lt : length xs < n = ground arith in
        let whole : length xs - n ≡ 0 = omega (arith, lt) in
        let still : 0 ≡ length (xs ++ v ∷ []) - n = omega (arith, lt, length-append xs (v ∷ [])) in
        ap (λ k. recent n (without k xs) v) whole
        ∙ recent-short n xs v lt
        ∙ ap (λ k. without k (xs ++ v ∷ [])) still
    | inr e ↦
        let le : n ≤ length xs = ground arith in
        let one_more : suc (length xs - n) ≡ length (xs ++ v ∷ []) - n =
          omega (arith, le, length-append xs (v ∷ [])) in
        recent-full n (latest n xs) v (omega (arith, le, length-without (length xs - n) xs))
        ∙ ap (λ ys. ys ++ v ∷ []) (behind-without (length xs - n) xs)
        ∙ sym (without-append (suc (length xs - n)) xs (v ∷ []) (omega (arith, le, pos)))
        ∙ ap (λ k. without k (xs ++ v ∷ [])) one_more
  ]

  append_assoc : (xs : List A) (v : A) (vs : List A) → (xs ++ v ∷ []) ++ vs ≡ xs ++ v ∷ vs
  append_assoc [] v vs = refl
  append_assoc (x ∷ xs) v vs = ap (λ ys. x ∷ ys) (append_assoc xs v vs)

  append-empty : (xs : List A) → xs ++ [] ≡ xs
  append-empty [] = refl
  append-empty (x ∷ xs) = ap (λ ys. x ∷ ys) (append-empty xs)

  push_all-slice :
      (vs seen : List A) (r : Buffer A)
      → Holds r (latest (length r.buf) seen)
      → (push_all vs r >>= slice) ≡ some (latest (length r.buf) (seen ++ vs))
  unfolding push_all
  push_all-slice [] seen r h =
      slice-Holds r _ h ∙ ap (λ ys. some (latest (length r.buf) ys)) (sym (append-empty seen))
  push_all-slice (v ∷ vs) seen r h =
      let (r', e, k, same) = push-Holds r (latest (length r.buf) seen) v h in
      let k' : Holds r' (latest (length r'.buf) (seen ++ v ∷ [])) =
        subst (Holds r')
          (recent-latest (length r.buf) seen v (omega (arith, h.head))
            ∙ ap (λ n. latest n (seen ++ v ∷ [])) (sym same))
          k in
      simp e (
        push_all-slice vs (seen ++ v ∷ []) r' k'
        ∙ ap some (
            ap (λ n. latest n ((seen ++ v ∷ []) ++ vs)) same
            ∙ ap (latest (length r.buf)) (append_assoc seen v vs)))

  without-empty : (n : ℕ) → [] ≡ without n []
  without-empty zero = refl
  without-empty (suc n) = refl

  new_buffer-Holds : (z : A) (capacity : ℕ) → Holds (new_buffer z capacity) []
  unfolding new_buffer
  new_buffer-Holds z capacity =
      let filled = length-replicate (capacity_of capacity) z in
      record {
        head = omega (arith, filled, capacity_of-positive capacity);
        size = refl;
        room = omega arith;
        values = λ i a e. absurd (ground arith);
      }

  -- A new buffer into which values are pushed one after the other reads as the latest of them, as
  -- many as its capacity (1 for a capacity below 1), or all if there are fewer, in the order of
  -- their arrival; no access is out of range.
  pub new_buffer-slice :
      (z : A) (capacity : ℕ) (vs : List A)
      → (push_all vs (new_buffer z capacity) >>= slice) ≡ some (latest (capacity_of capacity) vs)
  unfolding new_buffer
  new_buffer-slice z capacity vs =
      push_all-slice vs [] (new_buffer z capacity)
        (subst (Holds (new_buffer z capacity)) (without-empty _) (new_buffer-Holds z capacity))
      ∙ ap (λ k. some (latest k vs)) (length-replicate (capacity_of capacity) z)
