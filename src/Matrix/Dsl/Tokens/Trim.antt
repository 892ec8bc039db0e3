-- ===== src/Matrix/Dsl/Tokens/Trim.antt =====
-- internal/matrix/dsl.go: strings.TrimSpace on the text of some tokens, which neither begins nor ends with a space.
use Prim.Native.Char.{Char}
use llama_swap_macos_extende.Prelude.{
  ◌≡◌, ◌⊎◌, inl, inr, refl, sym, ap, ◌∙◌, subst, false, String, List, [], ◌∷◌, ◌++◌, All, All-map,
  arith,
}
use llama_swap_macos_extende.Matrix.Dsl.{
  Unicode, Token, ident, and_token, or_token, left_paren, right_paren, ref_token, eof,
}
use llama_swap_macos_extende.Matrix.Dsl.Tokens.{runes, trim_left, trim_last, trim_right, trim_space}
use llama_swap_macos_extende.Matrix.Dsl.Tokens.Spell.{IsLawful, IsName, gap, spell, text_of, Ended}

trim_last-Solid :
    (u : Unicode) (c : Char) (cs : List Char) → u.is_space c ≡ false → trim_last u c cs ≡ c ∷ cs
unfolding trim_last
trim_last-Solid u c [] e = rw e refl
trim_last-Solid u c (d ∷ ds) e = refl

abbrev Solid : Unicode → Char → Type 0
Solid u c = u.is_space c ≡ false

trim_right-gap :
    (u : Unicode) (cs : List Char) → trim_right u cs ≡ cs → trim_right u (gap cs) ≡ gap cs
unfolding trim_right trim_last
trim_right-gap u [] e = refl
trim_right-gap u (c ∷ cs) e = ap (trim_last u " ") e

trim_right-append :
    (u : Unicode) (cs ds : List Char)
    → All (Solid u) cs
    → trim_right u ds ≡ ds
    → trim_right u (cs ++ ds) ≡ cs ++ ds
unfolding trim_right
trim_right-append u [] ds h e = e
trim_right-append u (c ∷ cs) ds h e =
    ap (trim_last u c) (trim_right-append u cs ds h.1 e) ∙ trim_last-Solid u c (cs ++ ds) h.0

module _ (u : Unicode) (laws : IsLawful u) where
  runes-Solid : (name : String) → IsName u name → All (Solid u) (runes name)
  runes-Solid name p = All-map _ (Solid u) (λ c e. laws.name c e) (runes name) p.1

  -- The text of the first token, and the rest.
  text_of-Solid :
      (t : Token) (ts : List Token) → Ended (IsName u) (t ∷ ts) → All (Solid u) (text_of t)
  unfolding text_of Ended
  text_of-Solid (ident name) ts h = runes-Solid name h.0
  text_of-Solid (ref_token name) ts h = ((laws.sign "+" refl).0, runes-Solid name h.0)
  text_of-Solid and_token ts h = ((laws.sign "&" refl).0, tt)
  text_of-Solid or_token ts h = ((laws.sign "|" refl).0, tt)
  text_of-Solid left_paren ts h = ((laws.sign "(" refl).0, tt)
  text_of-Solid right_paren ts h = ((laws.sign ")" refl).0, tt)
  text_of-Solid eof ts h = tt

  trim_right_token :
      (t : Token) (ts : List Token)
      → All (Solid u) (text_of t)
      → trim_right u (spell ts) ≡ spell ts
      → trim_right u (spell (t ∷ ts)) ≡ spell (t ∷ ts)
  unfolding spell
  trim_right_token t ts solid e =
      trim_right-append u (text_of t) (gap (spell ts)) solid (trim_right-gap u (spell ts) e)

  trim_right-spell : (ts : List Token) → Ended (IsName u) ts → trim_right u (spell ts) ≡ spell ts
  unfolding spell Ended trim_right text_of
  trim_right-spell [] h = absurd h
  trim_right-spell (eof ∷ ts) h =
      subst (λ r. trim_right u (gap (spell r)) ≡ gap (spell r)) (sym h) refl
  trim_right-spell (ident name ∷ ts) h =
      trim_right_token (ident name) ts (text_of-Solid (ident name) ts h) (trim_right-spell ts h.1)
  trim_right-spell (ref_token name ∷ ts) h =
      trim_right_token (ref_token name) ts (text_of-Solid (ref_token name) ts h)
        (trim_right-spell ts h.1)
  trim_right-spell (and_token ∷ ts) h =
      trim_right_token and_token ts (text_of-Solid and_token ts h) (trim_right-spell ts h)
  trim_right-spell (or_token ∷ ts) h =
      trim_right_token or_token ts (text_of-Solid or_token ts h) (trim_right-spell ts h)
  trim_right-spell (left_paren ∷ ts) h =
      trim_right_token left_paren ts (text_of-Solid left_paren ts h) (trim_right-spell ts h)
  trim_right-spell (right_paren ∷ ts) h =
      trim_right_token right_paren ts (text_of-Solid right_paren ts h) (trim_right-spell ts h)

  trim_left-Solid :
      (cs ds : List Char) → All (Solid u) cs → (cs ≡ [] → ⊥) → trim_left u (cs ++ ds) ≡ cs ++ ds
  unfolding trim_left
  trim_left-Solid [] ds h f = absurd (f refl)
  trim_left-Solid (c ∷ cs) ds h f = rw h.0 refl

  -- The text of a token is empty only at the end.
  pub text_of_some :
      (t : Token) (ts : List Token) → Ended (IsName u) (t ∷ ts) → (t ≡ eof) ⊎ (text_of t ≡ [] → ⊥)
  unfolding text_of Ended
  text_of_some (ident name) ts h = inr h.0.0
  text_of_some (ref_token name) ts h = inr (λ e. ground arith)
  text_of_some and_token ts h = inr (λ e. ground arith)
  text_of_some or_token ts h = inr (λ e. ground arith)
  text_of_some left_paren ts h = inr (λ e. ground arith)
  text_of_some right_paren ts h = inr (λ e. ground arith)
  text_of_some eof ts h = inl refl

  trim_left-spell :
      (t : Token) (ts : List Token)
      → Ended (IsName u) (t ∷ ts)
      → trim_left u (spell (t ∷ ts)) ≡ spell (t ∷ ts)
  unfolding spell Ended trim_left text_of
  trim_left-spell t ts h = elim (text_of_some t ts h) [
    | inl e ↦
        let last : ts ≡ [] = subst (λ x. Ended (IsName u) (x ∷ ts)) e h in
        subst (λ x. trim_left u (spell (x ∷ ts)) ≡ spell (x ∷ ts)) (sym e)
          (subst (λ r. trim_left u (spell (eof ∷ r)) ≡ spell (eof ∷ r)) (sym last) refl)
    | inr f ↦ trim_left-Solid (text_of t) (gap (spell ts)) (text_of-Solid t ts h) f
  ]

  pub trim_space-spell :
      (t : Token) (ts : List Token)
      → Ended (IsName u) (t ∷ ts)
      → trim_space u (spell (t ∷ ts)) ≡ spell (t ∷ ts)
  unfolding trim_space
  trim_space-spell t ts h = ap (trim_right u) (trim_left-spell t ts h) ∙ trim_right-spell (t ∷ ts) h
