-- ===== src/Matrix/Dsl.antt =====
-- internal/matrix/dsl.go: the tokens of an expression and the errors of the tokenizer and the parser.
pub mod Tokens
pub mod Parser
pub mod RoundTrip
pub mod Finish
use Prim.Native.Char.{Char}
use llama_swap_macos_extende.Prelude.{ℕ, ◌≡◌, ◌⊎◌, inl, inr, refl, Bool, true, false, String}

-- The classes of package unicode, which is not part of the repository.
pub record Unicode : Type 0 where
  pub is_space : Char → Bool
  pub is_letter : Char → Bool
  pub is_digit : Char → Bool

-- tokEOF and the other kinds, each with its text.
pub data Token : Type 0 where
  ident : String → Token
  and_token : Token
  or_token : Token
  left_paren : Token
  right_paren : Token
  ref_token : String → Token
  eof : Token

-- The messages as values. `out_of_fuel` is no error of the program.
pub data DslError : Type 0 where
  empty_expression : DslError
  expected_name : ℕ → DslError
  unexpected_character : Char → ℕ → DslError
  unexpected_token : String → DslError
  missing_paren : DslError
  unexpected_after : String → DslError
  out_of_fuel : DslError

pub data Result {ℓ} (A : Type ℓ) : Type ℓ where
  failed : DslError → Result A
  done : A → Result A

-- The field `val` of a token.
unfoldable pub val : Token → String
val (ident name) = name
val and_token = "&"
val or_token = "|"
val left_paren = "("
val right_paren = ")"
val (ref_token name) = name
val eof = ""

abbrev pub is_fuel : DslError → Bool
is_fuel out_of_fuel = true
is_fuel _ = false

pub Result-cases {ℓ} :
    {A : Type ℓ} (r : Result A) → ((e : DslError) × (r ≡ failed e)) ⊎ ((a : A) × (r ≡ done a))
Result-cases (failed e) = inl (e, refl)
Result-cases (done a) = inr (a, refl)
