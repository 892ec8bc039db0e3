-- ===== src/Matrix/Dsl/Tokens/Spell.antt =====
-- internal/matrix/dsl.go: how tokens are written, with a space between two of them, and what tokenize
-- makes of that.
use Prim.Native.Char.{Char}
use Prim.Native.String.{[] as empty_text, ◌∷◌ as ◌<:◌}
use llama_swap_macos_extende.Prelude.{
  ◌≡◌, ◌≢◌, inl, inr, refl, ap, Bool, true, false, ◌||◌, String, List, [], ◌∷◌, ◌++◌, arith, All,
  Bool-cases,
}
use llama_swap_macos_extende.Matrix.Dsl.{
  Unicode, Token, ident, and_token, or_token, left_paren, right_paren, ref_token, eof,
}
use llama_swap_macos_extende.Matrix.Dsl.Tokens.{
  same_char, runes, of_runes, is_ident_char, rune_kind, space, and_sign, or_sign, open_sign,
  close_sign, plus_sign, in_name, take_name, drop_name,
}

-- The characters of the switch.
abbrev pub is_sign : Char → Bool
is_sign c =
    same_char c "&" || same_char c "|" || same_char c "(" || same_char c ")" || same_char c "+"

-- What package unicode says of the characters that the tokenizer names: the blank is a space, a sign is
-- neither a space nor a letter nor a digit, and no character of a name is a space.
pub record IsLawful (u : Unicode) : Type 0 where
  pub blank : u.is_space " " ≡ true
  pub sign :
      (c : Char)
      → is_sign c ≡ true
      → (u.is_space c ≡ false) × (u.is_letter c ≡ false) × (u.is_digit c ≡ false)
  pub name : (c : Char) → is_ident_char u c ≡ true → u.is_space c ≡ false

pub runes-of_runes : (cs : List Char) → runes (of_runes cs) ≡ cs
unfolding runes of_runes
runes-of_runes [] = refl
runes-of_runes (c ∷ cs) = ap (λ ds. c ∷ ds) (runes-of_runes cs)

pub of_runes-runes : (s : String) → of_runes (runes s) ≡ s
unfolding runes of_runes
of_runes-runes empty_text = refl
of_runes-runes (c <: s) = ap (λ t. c <: t) (of_runes-runes s)

-- A name has a character, and no others than those of a name.
abbrev pub IsName : Unicode → String → Type 0
IsName u s = (runes s ≢ []) × All (λ c. is_ident_char u c ≡ true) (runes s)

unfoldable pub text_of : Token → List Char
text_of (ident name) = runes name
text_of and_token = "&" ∷ []
text_of or_token = "|" ∷ []
text_of left_paren = "(" ∷ []
text_of right_paren = ")" ∷ []
text_of (ref_token name) = "+" ∷ runes name
text_of eof = []

-- A blank before a text that is not empty.
abbrev pub gap : List Char → List Char
gap [] = []
gap (c ∷ cs) = " " ∷ c ∷ cs

unfoldable pub spell : List Token → List Char
unfolding text_of
spell [] = []
spell (t ∷ ts) = text_of t ++ gap (spell ts)

-- The tokens of a whole input: names with the property, and the end once.
unfoldable pub Ended : (String → Type 0) → List Token → Type 0
Ended P [] = ⊥
Ended P (eof ∷ ts) = ts ≡ []
Ended P (ident name ∷ ts) = P name × Ended P ts
Ended P (ref_token name ∷ ts) = P name × Ended P ts
Ended P (and_token ∷ ts) = Ended P ts
Ended P (or_token ∷ ts) = Ended P ts
Ended P (left_paren ∷ ts) = Ended P ts
Ended P (right_paren ∷ ts) = Ended P ts

module _ (u : Unicode) (laws : IsLawful u) where
  pub rune_kind_blank : rune_kind u " " ≡ space
  unfolding rune_kind
  rune_kind_blank = rw laws.blank refl

  pub rune_kind_and : rune_kind u "&" ≡ and_sign
  unfolding rune_kind
  rune_kind_and = rw ((laws.sign "&" refl).0) refl

  pub rune_kind_or : rune_kind u "|" ≡ or_sign
  unfolding rune_kind
  rune_kind_or = rw ((laws.sign "|" refl).0) refl

  pub rune_kind_open : rune_kind u "(" ≡ open_sign
  unfolding rune_kind
  rune_kind_open = rw ((laws.sign "(" refl).0) refl

  pub rune_kind_close : rune_kind u ")" ≡ close_sign
  unfolding rune_kind
  rune_kind_close = rw ((laws.sign ")" refl).0) refl

  pub rune_kind_plus : rune_kind u "+" ≡ plus_sign
  unfolding rune_kind
  rune_kind_plus = rw ((laws.sign "+" refl).0) refl

  is_sign_name : (c : Char) → is_ident_char u c ≡ true → is_sign c ≡ false
  unfolding is_ident_char
  is_sign_name c e = elim (Bool-cases (is_sign c)) [
    | inl s ↦ let (a, l, d) = laws.sign c s in absurd (ground arith)
    | inr s ↦ s
  ]

  pub rune_kind_name : (c : Char) → is_ident_char u c ≡ true → rune_kind u c ≡ in_name
  unfolding rune_kind
  rune_kind_name c e = let s = is_sign_name c e in let n = laws.name c e in ground arith

  blank-name : is_ident_char u " " ≡ false
  blank-name = elim (Bool-cases (is_ident_char u " ")) [
    | inl e ↦ absurd (ground (arith, laws.blank, laws.name " " e))
    | inr e ↦ e
  ]

  -- A name ends at the gap.
  pub take_name-gap :
      (cs ds : List Char)
      → All (λ c. is_ident_char u c ≡ true) cs
      → (take_name u (cs ++ gap ds) ≡ cs) × (drop_name u (cs ++ gap ds) ≡ gap ds)
  unfolding take_name drop_name
  take_name-gap [] [] h = (refl, refl)
  take_name-gap [] (d ∷ ds) h = (rw blank-name refl, rw blank-name refl)
  take_name-gap (c ∷ cs) ds h =
      let (a, b) = take_name-gap cs ds h.1 in (rw (h.0, a) refl, rw (h.0, b) refl)
