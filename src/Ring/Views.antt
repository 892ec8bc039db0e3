-- ===== src/Ring/Views.antt =====
-- internal/ring/buffer.go: what a buffer holds, and what a push makes of it.
use native.Mathlib.Nat.{mod-lt, mod-eq_of_lt, mod-eq-sub-mod, mod-add-mod}
use llama_swap_macos_extende.Prelude.{
  ℕ, suc, ◌+◌, ◌%◌, ◌≤◌, ◌<◌, ◌≡◌, refl, sym, ap, ◌∙◌, subst, inl, inr, ltb, List, [], ◌∷◌, ◌++◌,
  some, if◌then◌else◌, length, get_elem?, set, arith, Bool-cases, true, false, length-append,
  length-set, ◌>>=◌,
}
use llama_swap_macos_extende.Ring.{Buffer, store, push, collect, slice}
use llama_swap_macos_extende.Ring.Places.{
  get-set_same, get-set_other, get-append, get-lt, wrap-apart,
}

module _ {ℓ} {A : Type ℓ} where
  -- All but the first of the values that arrived, if there is no room for one more.
  abbrev pub recent : ℕ → List A → A → List A
  recent cap [] v = v ∷ []
  recent cap (x ∷ xs) v = if ltb (length (x ∷ xs)) cap then (x ∷ xs) ++ v ∷ [] else xs ++ v ∷ []

  -- The buffer holds the values of a list, the oldest at its head.
  pub record Holds (r : Buffer A) (xs : List A) : Type ℓ where
    pub head : r.head < length r.buf
    pub size : r.size ≡ length xs
    pub room : length xs ≤ length r.buf
    pub values :
        (i : ℕ) (v : A)
        → get_elem? xs i ≡ some v
        → get_elem? r.buf ((r.head + i) % length r.buf) ≡ some v

  collect-suffix :
      (r : Buffer A) (i : ℕ) (xs : List A)
      → ((j : ℕ) (v : A)
          → get_elem? xs j ≡ some v
          → get_elem? r.buf ((r.head + (i + j)) % length r.buf) ≡ some v)
      → collect r i (length xs) ≡ some xs
  unfolding collect
  collect-suffix r i [] h = refl
  collect-suffix r i (x ∷ xs) h =
      let first : get_elem? r.buf ((r.head + i) % length r.buf) ≡ some x =
        subst (λ k. get_elem? r.buf ((r.head + k) % length r.buf) ≡ some x) (omega arith)
          (h 0 x refl) in
      let rest : collect r (i + 1) (length xs) ≡ some xs = collect-suffix r (i + 1) xs (λ j v e.
        subst (λ k. get_elem? r.buf ((r.head + k) % length r.buf) ≡ some v) (omega arith)
          (h (suc j) v e)) in
      simp (first, rest) refl

  pub slice-Holds : (r : Buffer A) (xs : List A) → Holds r xs → slice r ≡ some xs
  unfolding slice
  slice-Holds r xs h = simp h.size (
      collect-suffix r 0 xs (λ j v e.
        subst (λ k. get_elem? r.buf ((r.head + k) % length r.buf) ≡ some v) (omega arith)
          (h.values j v e)))

  -- With room for one more, the value is stored behind the others.
  Holds-room :
      (r : Buffer A) (xs : List A) (v : A)
      → Holds r xs
      → length xs < length r.buf
      → Holds
          (record r { buf = set r.buf ((r.head + r.size) % length r.buf) v; size = r.size + 1 })
          (xs ++ v ∷ [])
  Holds-room r xs v h lt =
      let cap = length r.buf in
      let k = (r.head + r.size) % cap in
      let same = length-set r.buf k v in
      let bound : k < cap = mod-lt (r.head + r.size) (omega arith) in
      record {
        head = omega (arith, same, h.head);
        size = omega (arith, h.size, length-append xs (v ∷ []));
        room = omega (arith, same, length-append xs (v ∷ []));
        values = λ i a e.
            let at : ℕ → Type ℓ = λ n. get_elem? (set r.buf k v) ((r.head + i) % n) ≡ some a in
            subst at (sym same) (elim (get-append xs v i a e) [
              | inl p ↦
                  get-set_other r.buf k ((r.head + i) % cap) v (λ q.
                    wrap-apart r.head i r.size cap h.head (omega (arith, h.size, get-lt xs i a p))
                      (omega (arith, h.size)) (sym q))
                  ∙ h.values i a p
              | inr p ↦
                  subst (λ n. get_elem? (set r.buf k v) ((r.head + n) % cap) ≡ some a)
                    (h.size ∙ sym p.0) (get-set_same r.buf k v bound ∙ ap some p.1)
            ]);
      }

  -- Full, the value replaces the oldest, and the next oldest becomes the head.
  Holds-full :
      (r : Buffer A) (x : A) (xs : List A) (v : A)
      → Holds r (x ∷ xs)
      → length (x ∷ xs) ≡ length r.buf
      → Holds
          (record r { buf = set r.buf r.head v; head = (r.head + 1) % length r.buf })
          (xs ++ v ∷ [])
  Holds-full r x xs v h full =
      let cap = length r.buf in
      let same = length-set r.buf r.head v in
      let positive : 0 < cap = omega (arith, h.head) in
      record {
        head = omega (arith, same, mod-lt (r.head + 1) positive);
        size = omega (arith, h.size, length-append xs (v ∷ []));
        room = omega (arith, same, length-append xs (v ∷ []), full);
        values = λ i a e.
            let at : ℕ → Type ℓ =
              λ n. get_elem? (set r.buf r.head v) (((r.head + 1) % cap + i) % n) ≡ some a in
            let place : (((r.head + 1) % cap + i) % cap) ≡ (r.head + suc i) % cap =
              mod-add-mod (r.head + 1) cap i ∙ ap (λ n. n % cap) (omega arith) in
            subst at (sym same) (
              subst (λ n. get_elem? (set r.buf r.head v) n ≡ some a) (sym place)
                (elim (get-append xs v i a e) [
                  | inl p ↦
                      get-set_other r.buf r.head ((r.head + suc i) % cap) v (λ q.
                        wrap-apart r.head 0 (suc i) cap h.head (omega arith)
                          (omega (arith, full, get-lt xs i a p))
                          (ap (λ n. n % cap) (omega arith) ∙ mod-eq_of_lt h.head ∙ q))
                      ∙ h.values (suc i) a p
                  | inr p ↦
                      let round : (r.head + suc i) % cap ≡ r.head =
                        mod-eq-sub-mod (omega (arith, full, p.0))
                        ∙ ap (λ n. n % cap) (omega (arith, full, p.0))
                        ∙ mod-eq_of_lt h.head in
                      subst (λ n. get_elem? (set r.buf r.head v) n ≡ some a) (sym round)
                        (get-set_same r.buf r.head v h.head ∙ ap some p.1)
                ]));
      }

  recent-room : (cap : ℕ) (xs : List A) (v : A) → length xs < cap → recent cap xs v ≡ xs ++ v ∷ []
  recent-room cap [] v h = refl
  recent-room cap (x ∷ xs) v h = ground arith

  push-room :
      (r : Buffer A) (v : A)
      → r.size < length r.buf
      → push v r
        ≡ some
            (record r { buf = set r.buf ((r.head + r.size) % length r.buf) v; size = r.size + 1 })
  unfolding push store
  push-room r v h =
      let room : ltb r.size (length r.buf) ≡ true = ground arith in
      let bound : (r.head + r.size) % length r.buf < length r.buf =
        mod-lt (r.head + r.size) (omega arith) in
      let inside : ltb ((r.head + r.size) % length r.buf) (length r.buf) ≡ true = ground arith in
      simp (room, inside) refl

  push-full :
      (r : Buffer A) (v : A)
      → length r.buf ≤ r.size
      → r.head < length r.buf
      → push v r ≡ some (record r { buf = set r.buf r.head v; head = (r.head + 1) % length r.buf })
  unfolding push store
  push-full r v h lt =
      let full : ltb r.size (length r.buf) ≡ false = ground arith in
      let inside : ltb r.head (length r.buf) ≡ true = ground arith in simp (full, inside) refl

  -- A push does not panic, and the buffer then holds the recent values in as much space.
  abbrev Pushed : Buffer A → List A → A → Type ℓ
  Pushed r xs v =
      (r' : Buffer A) × (push v r ≡ some r')
      × Holds r' (recent (length r.buf) xs v)
      × (length r'.buf ≡ length r.buf)

  pub push-Holds : (r : Buffer A) (xs : List A) (v : A) → Holds r xs → Pushed r xs v
  push-Holds r xs v h = elim (Bool-cases (ltb (length xs) (length r.buf))) [
    | inl e ↦
        let lt : length xs < length r.buf = ground arith in
        (
          _,
          push-room r v (omega (arith, h.size)),
          subst (Holds _) (sym (recent-room (length r.buf) xs v lt)) (Holds-room r xs v h lt),
          length-set r.buf _ v,
        )
    | inr e ↦ full xs h (omega (arith, h.room, not_less e))
  ]
    where
      not_less : ltb (length xs) (length r.buf) ≡ false → length r.buf ≤ length xs
      not_less e = ground arith

      full : (xs : List A) → Holds r xs → length xs ≡ length r.buf → Pushed r xs v
      full [] h k = absurd (omega (arith, h.head))
      full (x ∷ ys) h k =
          let tail : recent (length r.buf) (x ∷ ys) v ≡ ys ++ v ∷ [] = ground arith in
          (
            _,
            push-full r v (omega (arith, h.size)) h.head,
            subst (Holds _) (sym tail) (Holds-full r x ys v h k),
            length-set r.buf r.head v,
          )

  -- If a buffer holds a list of values, then pushing one more and reading gives those values and
  -- the new one, without the oldest if the buffer was full; no access is out of range.
  pub push-slice :
      (r : Buffer A) (xs : List A) (v : A)
      → Holds r xs
      → (push v r >>= slice) ≡ some (recent (length r.buf) xs v)
  push-slice r xs v h =
      let (r', e, k, same) = push-Holds r xs v h in
      simp e (slice-Holds r' (recent (length r.buf) xs v) k)
