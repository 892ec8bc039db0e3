-- ===== src/Matrix/Dsl/Tokens.antt =====
-- internal/matrix/dsl.go: tokenize. The runes that are left stand for the index into the slice, which
-- is kept for the messages.
pub mod Spell
pub mod RoundTrip
pub mod Trim
use Prim.Native.Char.{Char, code}
use Prim.Native.String.{[] as empty_text, ◌∷◌ as ◌<:◌}
use llama_swap_macos_extende.Prelude.{
  ℕ, zero, suc, ◌+◌, ◌==◌, Bool, true, false, ◌||◌, String, List, [], ◌∷◌, length, if◌then◌else◌,
}
use llama_swap_macos_extende.Matrix.Dsl.{
  Unicode, Token, ident, and_token, or_token, left_paren, right_paren, ref_token, eof, DslError,
  expected_name, unexpected_character, out_of_fuel, Result, failed, done,
}

abbrev pub same_char : Char → Char → Bool
same_char c d = code c == code d

-- The conversions between a string and its runes.
unfoldable pub runes : String → List Char
runes empty_text = []
runes (c <: s) = c ∷ runes s

unfoldable pub of_runes : List Char → String
of_runes [] = empty_text
of_runes (c ∷ cs) = c <: of_runes cs

unfoldable pub is_ident_char : Unicode → Char → Bool
is_ident_char u c =
    u.is_letter c || u.is_digit c || same_char c "_" || same_char c "-" || same_char c "."

-- The cases of the switch, in its order, after the test for a space.
pub data RuneKind : Type 0 where
  space : RuneKind
  and_sign : RuneKind
  or_sign : RuneKind
  open_sign : RuneKind
  close_sign : RuneKind
  plus_sign : RuneKind
  in_name : RuneKind
  other : RuneKind

unfoldable pub rune_kind : Unicode → Char → RuneKind
unfolding is_ident_char
rune_kind u c =
    if u.is_space c
    then space
    else if same_char c "&"
    then and_sign
    else if same_char c "|"
    then or_sign
    else if same_char c "("
    then open_sign
    else if same_char c ")"
    then close_sign
    else if same_char c "+"
    then plus_sign
    else if is_ident_char u c
    then in_name
    else other

-- The loop over the characters of a name: those that it passes, and the rest.
unfoldable pub take_name : Unicode → List Char → List Char
take_name u [] = []
take_name u (c ∷ cs) = if is_ident_char u c then c ∷ take_name u cs else []

unfoldable pub drop_name : Unicode → List Char → List Char
drop_name u [] = []
drop_name u (c ∷ cs) = if is_ident_char u c then drop_name u cs else c ∷ cs

-- `append` of one token before those of the rest.
unfoldable pub then_tokens : Token → Result (List Token) → Result (List Token)
then_tokens t (failed e) = failed e
then_tokens t (done ts) = done (t ∷ ts)

-- The token of a set's name, unless no name follows the sign.
unfoldable pub ref_or_error : ℕ → List Char → Result (List Token) → Result (List Token)
ref_or_error start [] rest = failed (expected_name start)
ref_or_error start (c ∷ name) rest = then_tokens (ref_token (of_runes (c ∷ name))) rest

-- The loop of tokenize, at position `i`.
unfoldable pub tokenize_from : Unicode → ℕ → ℕ → List Char → Result (List Token)
unfolding rune_kind then_tokens ref_or_error take_name drop_name
tokenize_from u zero i cs = failed out_of_fuel
tokenize_from u (suc n) i [] = done (eof ∷ [])
tokenize_from u (suc n) i (c ∷ cs) = elim (rune_kind u c) [
  | space ↦ tokenize_from u n (i + 1) cs
  | and_sign ↦ then_tokens and_token (tokenize_from u n (i + 1) cs)
  | or_sign ↦ then_tokens or_token (tokenize_from u n (i + 1) cs)
  | open_sign ↦ then_tokens left_paren (tokenize_from u n (i + 1) cs)
  | close_sign ↦ then_tokens right_paren (tokenize_from u n (i + 1) cs)
  | plus_sign ↦
      ref_or_error (i + 1) (take_name u cs)
        (tokenize_from u n (i + 1 + length (take_name u cs)) (drop_name u cs))
  | in_name ↦
      then_tokens (ident (of_runes (take_name u (c ∷ cs))))
        (tokenize_from u n (i + length (take_name u (c ∷ cs))) (drop_name u (c ∷ cs)))
  | other ↦ failed (unexpected_character c i)
]

-- One pass of the loop for each rune at most, and one for the end.
unfoldable pub tokenize : Unicode → List Char → Result (List Token)
tokenize u cs = tokenize_from u (suc (length cs)) 0 cs

-- strings.TrimSpace.
unfoldable pub trim_left : Unicode → List Char → List Char
trim_left u [] = []
trim_left u (c ∷ cs) = if u.is_space c then trim_left u cs else c ∷ cs

-- The rune, unless it is a space and nothing is left after it.
unfoldable pub trim_last : Unicode → Char → List Char → List Char
trim_last u c [] = if u.is_space c then [] else c ∷ []
trim_last u c (d ∷ ds) = c ∷ d ∷ ds

unfoldable pub trim_right : Unicode → List Char → List Char
unfolding trim_last
trim_right u [] = []
trim_right u (c ∷ cs) = trim_last u c (trim_right u cs)

unfoldable pub trim_space : Unicode → List Char → List Char
unfolding trim_left trim_right
trim_space u cs = trim_right u (trim_left u cs)
