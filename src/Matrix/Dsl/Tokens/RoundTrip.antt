-- ===== src/Matrix/Dsl/Tokens/RoundTrip.antt =====
-- internal/matrix/dsl.go: what tokenize makes of the text of some tokens.
use Prim.Native.Char.{Char}
use llama_swap_macos_extende.Prelude.{
  ℕ, zero, suc, ◌+◌, ◌≤◌, ◌≡◌, refl, sym, ap, ◌∙◌, subst, true, String, List, [], ◌∷◌, ◌++◌, length,
  length-append, arith, All,
}
use llama_swap_macos_extende.Matrix.Dsl.{
  Unicode, Token, ident, and_token, or_token, left_paren, right_paren, ref_token, eof, done,
}
use llama_swap_macos_extende.Matrix.Dsl.Tokens.{
  runes, of_runes, is_ident_char, then_tokens, ref_or_error, tokenize_from, tokenize,
}
use llama_swap_macos_extende.Matrix.Dsl.Tokens.Spell.{
  IsLawful, IsName, of_runes-runes, gap, spell, text_of, Ended, rune_kind_blank, rune_kind_and,
  rune_kind_or, rune_kind_open, rune_kind_close, rune_kind_plus, rune_kind_name, take_name-gap,
}

module _ (u : Unicode) (laws : IsLawful u) where
  -- The loop at a name, which is not empty.
  tokenize_from_name :
      (n i : ℕ) (cs ds : List Char) (ts : List Token)
      → (cs ≡ [] → ⊥)
      → All (λ c. is_ident_char u c ≡ true) cs
      → tokenize_from u n (i + length cs) (gap ds) ≡ done ts
      → tokenize_from u (suc n) i (cs ++ gap ds) ≡ done (ident (of_runes cs) ∷ ts)
  unfolding tokenize_from then_tokens
  tokenize_from_name n i [] ds ts some h e = absurd (some refl)
  tokenize_from_name n i (c ∷ cs) ds ts some h e =
      let (a, b) = take_name-gap u laws (c ∷ cs) ds h in
      rw (rune_kind_name u laws c h.0, tokenize_from)
        (rw (a, b, e, then_tokens) (ap (λ x. done (ident (of_runes x) ∷ ts)) a))

  tokenize_from_ref :
      (n i : ℕ) (cs ds : List Char) (ts : List Token)
      → (cs ≡ [] → ⊥)
      → All (λ c. is_ident_char u c ≡ true) cs
      → tokenize_from u n (i + 1 + length cs) (gap ds) ≡ done ts
      → tokenize_from u (suc n) i ("+" ∷ (cs ++ gap ds)) ≡ done (ref_token (of_runes cs) ∷ ts)
  unfolding tokenize_from then_tokens ref_or_error
  tokenize_from_ref n i [] ds ts some h e = absurd (some refl)
  tokenize_from_ref n i (c ∷ cs) ds ts some h e =
      let (a, b) = take_name-gap u laws (c ∷ cs) ds h in
      rw (rune_kind_plus u laws, tokenize_from) (rw (a, b, e, ref_or_error, then_tokens) refl)

  -- With enough fuel, at any position.
  abbrev Reads : List Char → List Token → Type 0
  Reads cs ts = (n i : ℕ) → suc (length cs) ≤ n → tokenize_from u n i cs ≡ done ts

  gap-Reads : (cs : List Char) (ts : List Token) → Reads cs ts → Reads (gap cs) ts
  unfolding tokenize_from
  gap-Reads [] ts h n i le = h n i le
  gap-Reads (c ∷ cs) ts h zero i le = absurd (omega (arith, le))
  gap-Reads (c ∷ cs) ts h (suc n) i le =
      rw (rune_kind_blank u laws, tokenize_from) (h n (i + 1) (omega (arith, le)))

  ident-Reads :
      (name : String) (ds : List Char) (ts : List Token)
      → IsName u name
      → Reads (gap ds) ts
      → Reads (runes name ++ gap ds) (ident name ∷ ts)
  ident-Reads name ds ts p h zero i le = absurd (omega (arith, le))
  ident-Reads name ds ts p h (suc n) i le =
      let split = length-append (runes name) (gap ds) in
      let some : 1 ≤ length (runes name) = length-some (runes name) p.0 in
      tokenize_from_name n i (runes name) ds ts p.0 p.1
        (h n (i + length (runes name)) (omega (arith, le, split, some)))
      ∙ ap (λ s. done (ident s ∷ ts)) (of_runes-runes name)
    where
      length-some : (cs : List Char) → (cs ≡ [] → ⊥) → 1 ≤ length cs
      length-some [] f = absurd (f refl)
      length-some (c ∷ cs) f = omega arith

  ref_token-Reads :
      (name : String) (ds : List Char) (ts : List Token)
      → IsName u name
      → Reads (gap ds) ts
      → Reads ("+" ∷ (runes name ++ gap ds)) (ref_token name ∷ ts)
  ref_token-Reads name ds ts p h zero i le = absurd (omega (arith, le))
  ref_token-Reads name ds ts p h (suc n) i le =
      let split = length-append (runes name) (gap ds) in
      tokenize_from_ref n i (runes name) ds ts p.0 p.1
        (h n (i + 1 + length (runes name)) (omega (arith, le, split)))
      ∙ ap (λ s. done (ref_token s ∷ ts)) (of_runes-runes name)

  -- A sign of one character.
  Reads-sign :
      (c : Char) (t : Token) (cs : List Char) (ts : List Token)
      → ((n i : ℕ) (rest : List Char)
          → tokenize_from u (suc n) i (c ∷ rest) ≡ then_tokens t (tokenize_from u n (i + 1) rest))
      → Reads cs ts
      → Reads (c ∷ cs) (t ∷ ts)
  unfolding then_tokens
  Reads-sign c t cs ts f h zero i le = absurd (omega (arith, le))
  Reads-sign c t cs ts f h (suc n) i le =
      f n i cs ∙ ap (then_tokens t) (h n (i + 1) (omega (arith, le)))

  eof-Reads : (ts : List Token) → ts ≡ [] → Reads (gap (spell ts)) (eof ∷ ts)
  unfolding spell tokenize_from
  eof-Reads ts h zero i le = absurd (omega (arith, le))
  eof-Reads ts h (suc n) i le =
      subst (λ r. tokenize_from u (suc n) i (gap (spell r)) ≡ done (eof ∷ r)) (sym h) refl

  spell-Reads : (ts : List Token) → Ended (IsName u) ts → Reads (spell ts) ts
  unfolding spell text_of Ended tokenize_from
  spell-Reads [] h = absurd h
  spell-Reads (eof ∷ ts) h = eof-Reads ts h
  spell-Reads (ident name ∷ ts) h =
      ident-Reads name (spell ts) ts h.0 (gap-Reads (spell ts) ts (spell-Reads ts h.1))
  spell-Reads (ref_token name ∷ ts) h =
      ref_token-Reads name (spell ts) ts h.0 (gap-Reads (spell ts) ts (spell-Reads ts h.1))
  spell-Reads (and_token ∷ ts) h =
      Reads-sign "&" and_token (gap (spell ts)) ts
        (λ n i rest. rw (rune_kind_and u laws, tokenize_from) refl)
        (gap-Reads (spell ts) ts (spell-Reads ts h))
  spell-Reads (or_token ∷ ts) h =
      Reads-sign "|" or_token (gap (spell ts)) ts
        (λ n i rest. rw (rune_kind_or u laws, tokenize_from) refl)
        (gap-Reads (spell ts) ts (spell-Reads ts h))
  spell-Reads (left_paren ∷ ts) h =
      Reads-sign "(" left_paren (gap (spell ts)) ts
        (λ n i rest. rw (rune_kind_open u laws, tokenize_from) refl)
        (gap-Reads (spell ts) ts (spell-Reads ts h))
  spell-Reads (right_paren ∷ ts) h =
      Reads-sign ")" right_paren (gap (spell ts)) ts
        (λ n i rest. rw (rune_kind_close u laws, tokenize_from) refl)
        (gap-Reads (spell ts) ts (spell-Reads ts h))

  pub tokenize-spell : (ts : List Token) → Ended (IsName u) ts → tokenize u (spell ts) ≡ done ts
  unfolding tokenize
  tokenize-spell ts h = spell-Reads ts h (suc (length (spell ts))) 0 (omega arith)
