-- ===== src/Matrix/Dsl/Parser/Fuel.antt =====
-- internal/matrix/dsl.go: how far each part of the parser gets.
use llama_swap_macos_extende.Prelude.{
  ℕ, zero, suc, ◌+◌, ◌*◌, ◌≤◌, ◌<◌, ◌≡◌, refl, true, false, List, [], ◌∷◌, subst, length, arith,
  inl, inr, Bool-cases,
}
use llama_swap_macos_extende.Matrix.Syntax.{Node}
use llama_swap_macos_extende.Matrix.Dsl.{
  Token, ident, and_token, or_token, left_paren, right_paren, ref_token, eof, Result, failed, done,
  is_fuel, Result-cases,
}
use llama_swap_macos_extende.Matrix.Dsl.Parser.{
  peek, advance, at_or, at_and, close_paren, parse_or_expr, or_children, parse_and_expr,
  and_children, parse_atom,
}

-- A result that is not for want of fuel, with at most `k` tokens left.
abbrev pub Settled : {A : Type 0} → ℕ → Result (A × List Token) → Type 0
Settled k (failed e) = is_fuel e ≡ false
Settled k (done (t, rest)) = length rest ≤ k

length-advance : (ts : List Token) → length (advance ts) ≤ length ts
unfolding advance
length-advance [] = omega arith
length-advance (eof ∷ ts) = omega arith
length-advance (ident n ∷ ts) = omega arith
length-advance (ref_token n ∷ ts) = omega arith
length-advance (and_token ∷ ts) = omega arith
length-advance (or_token ∷ ts) = omega arith
length-advance (left_paren ∷ ts) = omega arith
length-advance (right_paren ∷ ts) = omega arith

-- An operator that is found is taken.
length-at_or : (ts : List Token) → at_or ts ≡ true → suc (length (advance ts)) ≡ length ts
unfolding at_or advance peek
length-at_or [] e = absurd (ground arith)
length-at_or (or_token ∷ ts) e = refl
length-at_or (eof ∷ ts) e = absurd (ground arith)
length-at_or (ident n ∷ ts) e = absurd (ground arith)
length-at_or (ref_token n ∷ ts) e = absurd (ground arith)
length-at_or (and_token ∷ ts) e = absurd (ground arith)
length-at_or (left_paren ∷ ts) e = absurd (ground arith)
length-at_or (right_paren ∷ ts) e = absurd (ground arith)

length-at_and : (ts : List Token) → at_and ts ≡ true → suc (length (advance ts)) ≡ length ts
unfolding at_and advance peek
length-at_and [] e = absurd (ground arith)
length-at_and (or_token ∷ ts) e = absurd (ground arith)
length-at_and (eof ∷ ts) e = absurd (ground arith)
length-at_and (ident n ∷ ts) e = absurd (ground arith)
length-at_and (ref_token n ∷ ts) e = absurd (ground arith)
length-at_and (and_token ∷ ts) e = refl
length-at_and (left_paren ∷ ts) e = absurd (ground arith)
length-at_and (right_paren ∷ ts) e = absurd (ground arith)

close_paren-Settled :
    (k : ℕ) (root : Node) (ts : List Token) → length ts ≤ k → Settled k (close_paren root ts)
unfolding close_paren peek advance
close_paren-Settled k root [] le = refl
close_paren-Settled k root (or_token ∷ ts) le = refl
close_paren-Settled k root (eof ∷ ts) le = refl
close_paren-Settled k root (ident n ∷ ts) le = refl
close_paren-Settled k root (ref_token n ∷ ts) le = refl
close_paren-Settled k root (and_token ∷ ts) le = refl
close_paren-Settled k root (left_paren ∷ ts) le = refl
close_paren-Settled k root (right_paren ∷ ts) le = omega (arith, le)

-- One token less than before.
abbrev pub Shorter : {A : Type 0} → List Token → Result (A × List Token) → Type 0
Shorter ts (failed e) = is_fuel e ≡ false
Shorter ts (done (t, rest)) = length rest < length ts

Shorter-of_Settled :
    {A : Type 0} (ts : List Token) (k : ℕ) (r : Result (A × List Token))
    → k < length ts
    → Settled k r
    → Shorter ts r
Shorter-of_Settled ts k (failed e) lt h = h
Shorter-of_Settled ts k (done (t, rest)) lt h = omega (arith, h, lt)

mutual
  unfolding parse_or_expr or_children parse_and_expr and_children parse_atom peek advance

  pub parse_or_expr-Shorter :
      (n : ℕ) (ts : List Token) → 3 * length ts + 3 ≤ n → Shorter ts (parse_or_expr n ts)
  parse_or_expr-Shorter zero ts le = absurd (omega (arith, le))
  parse_or_expr-Shorter (suc n) ts le =
      let here = parse_and_expr-Shorter n ts (omega (arith, le)) in
      elim (Result-cases (parse_and_expr n ts)) [
        | inl (e, h) ↦ rw (h, parse_or_expr) (subst (Shorter ts) h here)
        | inr ((left, rest), h) ↦
            let lt : length rest < length ts = subst (Shorter ts) h here in
            elim (Bool-cases (at_or rest)) [
              | inr f ↦ rw (h, f, parse_or_expr) lt
              | inl t ↦
                  let more = or_children-Settled n rest (omega (arith, le, lt)) in
                  elim (Result-cases (or_children n rest)) [
                    | inl (e, k) ↦
                        rw (h, t, k, parse_or_expr) (subst (Settled (length rest)) k more)
                    | inr ((children, after), k) ↦
                        let le_rest : length after ≤ length rest =
                          subst (Settled (length rest)) k more in
                        rw (h, t, k, parse_or_expr) (omega (arith, le_rest, lt))
                  ]
            ]
      ]

  or_children-Settled :
      (n : ℕ) (ts : List Token) → 3 * length ts + 1 ≤ n → Settled (length ts) (or_children n ts)
  or_children-Settled zero ts le = absurd (omega (arith, le))
  or_children-Settled (suc n) ts le = elim (Bool-cases (at_or ts)) [
    | inr f ↦ rw (f, or_children) (omega arith)
    | inl t ↦
        let one = length-at_or ts t in
        let here = parse_and_expr-Shorter n (advance ts) (omega (arith, le, one)) in
        elim (Result-cases (parse_and_expr n (advance ts))) [
          | inl (e, h) ↦ rw (t, h, or_children) (subst (Shorter (advance ts)) h here)
          | inr ((right, rest), h) ↦
              let lt : length rest < length (advance ts) = subst (Shorter (advance ts)) h here in
              let more = or_children-Settled n rest (omega (arith, le, lt, one)) in
              elim (Result-cases (or_children n rest)) [
                | inl (e, k) ↦ rw (t, h, k, or_children) (subst (Settled (length rest)) k more)
                | inr ((children, after), k) ↦
                    let le_rest : length after ≤ length rest =
                      subst (Settled (length rest)) k more in
                    rw (t, h, k, or_children) (omega (arith, le_rest, lt, one))
              ]
        ]
  ]

  pub parse_and_expr-Shorter :
      (n : ℕ) (ts : List Token) → 3 * length ts + 2 ≤ n → Shorter ts (parse_and_expr n ts)
  parse_and_expr-Shorter zero ts le = absurd (omega (arith, le))
  parse_and_expr-Shorter (suc n) ts le =
      let here = parse_atom-Shorter n ts (omega (arith, le)) in
      elim (Result-cases (parse_atom n ts)) [
        | inl (e, h) ↦ rw (h, parse_and_expr) (subst (Shorter ts) h here)
        | inr ((left, rest), h) ↦
            let lt : length rest < length ts = subst (Shorter ts) h here in
            elim (Bool-cases (at_and rest)) [
              | inr f ↦ rw (h, f, parse_and_expr) lt
              | inl t ↦
                  let more = and_children-Settled n rest (omega (arith, le, lt)) in
                  elim (Result-cases (and_children n rest)) [
                    | inl (e, k) ↦
                        rw (h, t, k, parse_and_expr) (subst (Settled (length rest)) k more)
                    | inr ((children, after), k) ↦
                        let le_rest : length after ≤ length rest =
                          subst (Settled (length rest)) k more in
                        rw (h, t, k, parse_and_expr) (omega (arith, le_rest, lt))
                  ]
            ]
      ]

  and_children-Settled :
      (n : ℕ) (ts : List Token) → 3 * length ts + 1 ≤ n → Settled (length ts) (and_children n ts)
  and_children-Settled zero ts le = absurd (omega (arith, le))
  and_children-Settled (suc n) ts le = elim (Bool-cases (at_and ts)) [
    | inr f ↦ rw (f, and_children) (omega arith)
    | inl t ↦
        let one = length-at_and ts t in
        let here = parse_atom-Shorter n (advance ts) (omega (arith, le, one)) in
        elim (Result-cases (parse_atom n (advance ts))) [
          | inl (e, h) ↦ rw (t, h, and_children) (subst (Shorter (advance ts)) h here)
          | inr ((right, rest), h) ↦
              let lt : length rest < length (advance ts) = subst (Shorter (advance ts)) h here in
              let more = and_children-Settled n rest (omega (arith, le, lt, one)) in
              elim (Result-cases (and_children n rest)) [
                | inl (e, k) ↦ rw (t, h, k, and_children) (subst (Settled (length rest)) k more)
                | inr ((children, after), k) ↦
                    let le_rest : length after ≤ length rest =
                      subst (Settled (length rest)) k more in
                    rw (t, h, k, and_children) (omega (arith, le_rest, lt, one))
              ]
        ]
  ]

  pub parse_atom-Shorter :
      (n : ℕ) (ts : List Token) → 3 * length ts + 1 ≤ n → Shorter ts (parse_atom n ts)
  parse_atom-Shorter zero ts le = absurd (omega (arith, le))
  parse_atom-Shorter (suc n) [] le = refl
  parse_atom-Shorter (suc n) (ident m ∷ ts) le = omega arith
  parse_atom-Shorter (suc n) (ref_token m ∷ ts) le = omega arith
  parse_atom-Shorter (suc n) (and_token ∷ ts) le = refl
  parse_atom-Shorter (suc n) (or_token ∷ ts) le = refl
  parse_atom-Shorter (suc n) (eof ∷ ts) le = refl
  parse_atom-Shorter (suc n) (right_paren ∷ ts) le = refl
  parse_atom-Shorter (suc n) (left_paren ∷ ts) le =
      let here = parse_or_expr-Shorter n ts (omega (arith, le)) in
      elim (Result-cases (parse_or_expr n ts)) [
        | inl (e, h) ↦ rw (h, parse_atom) (subst (Shorter ts) h here)
        | inr ((root, rest), h) ↦
            let lt : length rest < length ts = subst (Shorter ts) h here in
            rw (h, parse_atom)
              (Shorter-of_Settled (left_paren ∷ ts) (length rest) (close_paren root rest)
                (omega (arith, lt)) (close_paren-Settled (length rest) root rest (omega arith)))
      ]
