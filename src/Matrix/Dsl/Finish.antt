-- ===== src/Matrix/Dsl/Finish.antt =====
-- internal/matrix/dsl.go: the loops of the tokenizer and the parser come to their ends.
use Prim.Native.Char.{Char}
use llama_swap_macos_extende.Prelude.{
  ℕ, zero, suc, ◌+◌, ◌≤◌, ◌≡◌, ◌≢◌, inl, inr, refl, subst, true, false, String, List, [], ◌∷◌,
  length, arith,
}
use llama_swap_macos_extende.Matrix.Syntax.{Node}
use llama_swap_macos_extende.Matrix.Dsl.{
  Unicode, Token, ident, and_token, or_token, left_paren, right_paren, ref_token, eof, out_of_fuel,
  is_fuel, Result, failed, done, Result-cases,
}
use llama_swap_macos_extende.Matrix.Dsl.Tokens.{
  is_ident_char, RuneKind, rune_kind, space, and_sign, or_sign, open_sign, close_sign, plus_sign,
  in_name, other, take_name, drop_name, then_tokens, ref_or_error, tokenize_from, tokenize,
  of_runes, runes, trim_space,
}
use llama_swap_macos_extende.Matrix.Dsl.Parser.{
  peek, parse_or_expr, expect_end, enough, parse_tokens, parse_runes, parse_dsl,
}
use llama_swap_macos_extende.Matrix.Dsl.Parser.Fuel.{Shorter, parse_or_expr-Shorter}

-- A result that is not for want of fuel.
abbrev pub Finished {ℓ} : {A : Type ℓ} → Result A → Type 0
Finished (failed e) = is_fuel e ≡ false
Finished (done a) = Unit

then_tokens-Finished :
    (t : Token) (r : Result (List Token)) → Finished r → Finished (then_tokens t r)
unfolding then_tokens
then_tokens-Finished t (failed e) h = h
then_tokens-Finished t (done ts) h = tt

ref_or_error-Finished :
    (i : ℕ) (name : List Char) (r : Result (List Token))
    → Finished r
    → Finished (ref_or_error i name r)
unfolding ref_or_error
ref_or_error-Finished i [] r h = refl
ref_or_error-Finished i (c ∷ name) r h = then_tokens-Finished _ r h

length-drop_name : (u : Unicode) (cs : List Char) → length (drop_name u cs) ≤ length cs
unfolding drop_name
length-drop_name u [] = omega arith
length-drop_name u (c ∷ cs) = ground (arith, length-drop_name u cs)

rune_kind-in_name : (u : Unicode) (c : Char) → rune_kind u c ≡ in_name → is_ident_char u c ≡ true
unfolding rune_kind
rune_kind-in_name u c e = ground arith

-- A name takes its first character.
length-drop_name-cons :
    (u : Unicode) (c : Char) (cs : List Char)
    → is_ident_char u c ≡ true
    → length (drop_name u (c ∷ cs)) ≤ length cs
unfolding drop_name
length-drop_name-cons u c cs e = rw e (length-drop_name u cs)

tokenize_from-Finished :
    (u : Unicode) (n i : ℕ) (cs : List Char)
    → suc (length cs) ≤ n
    → Finished (tokenize_from u n i cs)
unfolding tokenize_from
tokenize_from-Finished u zero i cs le = absurd (omega (arith, le))
tokenize_from-Finished u (suc n) i [] le = tt
tokenize_from-Finished u (suc n) i (c ∷ cs) le =
    kinds (λ j ds le_ds. tokenize_from-Finished u n j ds (omega (arith, le, le_ds))) (rune_kind u c)
      refl
  where
    kinds :
        ((j : ℕ) (ds : List Char) → length ds ≤ length cs → Finished (tokenize_from u n j ds))
        → (k : RuneKind) → rune_kind u c ≡ k
        → Finished (tokenize_from u (suc n) i (c ∷ cs))
    kinds next space e = rw (e, tokenize_from) (next (i + 1) cs (omega arith))
    kinds next and_sign e =
        rw (e, tokenize_from) (then_tokens-Finished and_token _ (next (i + 1) cs (omega arith)))
    kinds next or_sign e =
        rw (e, tokenize_from) (then_tokens-Finished or_token _ (next (i + 1) cs (omega arith)))
    kinds next open_sign e =
        rw (e, tokenize_from) (then_tokens-Finished left_paren _ (next (i + 1) cs (omega arith)))
    kinds next close_sign e =
        rw (e, tokenize_from) (then_tokens-Finished right_paren _ (next (i + 1) cs (omega arith)))
    kinds next plus_sign e =
        rw (e, tokenize_from)
          (ref_or_error-Finished (i + 1) (take_name u cs) _
            (next (i + 1 + length (take_name u cs)) (drop_name u cs) (length-drop_name u cs)))
    kinds next in_name e =
        rw (e, tokenize_from)
          (then_tokens-Finished (ident (of_runes (take_name u (c ∷ cs)))) _ (
            next (i + length (take_name u (c ∷ cs))) (drop_name u (c ∷ cs))
              (length-drop_name-cons u c cs (rune_kind-in_name u c e))))
    kinds next other e = rw (e, tokenize_from) refl

expect_end-Finished : (t : Node) (ts : List Token) → Finished (expect_end (t, ts))
unfolding expect_end peek
expect_end-Finished t [] = tt
expect_end-Finished t (ident name ∷ ts) = refl
expect_end-Finished t (ref_token name ∷ ts) = refl
expect_end-Finished t (and_token ∷ ts) = refl
expect_end-Finished t (or_token ∷ ts) = refl
expect_end-Finished t (left_paren ∷ ts) = refl
expect_end-Finished t (right_paren ∷ ts) = refl
expect_end-Finished t (eof ∷ ts) = tt

parse_tokens-Finished : (ts : List Token) → Finished (parse_tokens ts)
unfolding parse_tokens
parse_tokens-Finished ts =
    let here = parse_or_expr-Shorter (enough ts) ts (omega arith) in
    elim (Result-cases (parse_or_expr (enough ts) ts)) [
      | inl (e, h) ↦ rw (h, parse_tokens) (subst (Shorter ts) h here)
      | inr ((t, rest), h) ↦ rw (h, parse_tokens) (expect_end-Finished t rest)
    ]

parse_runes-Finished : (u : Unicode) (cs : List Char) → Finished (parse_runes u cs)
unfolding parse_runes tokenize
parse_runes-Finished u [] = refl
parse_runes-Finished u (c ∷ cs) =
    let here = tokenize_from-Finished u (suc (length (c ∷ cs))) 0 (c ∷ cs) (omega arith) in
    elim (Result-cases (tokenize u (c ∷ cs))) [
      | inl (e, h) ↦ rw (h, parse_runes) (subst Finished h here)
      | inr (ts, h) ↦ rw (h, parse_runes) (parse_tokens-Finished ts)
    ]

pub parse_dsl-Finished : (u : Unicode) (input : String) → Finished (parse_dsl u input)
unfolding parse_dsl
parse_dsl-Finished u input = parse_runes-Finished u (trim_space u (runes input))

-- Whatever the input and the classes of characters, the loops of the tokenizer and the parser end
-- within their fuel: the result is a tree or an error of the language.
pub parse_dsl_finishes : (u : Unicode) (input : String) → parse_dsl u input ≢ failed out_of_fuel
parse_dsl_finishes u input e = no_fuel (subst Finished e (parse_dsl-Finished u input))
  where
    no_fuel : true ≡ false → ⊥
    no_fuel q = ground arith
