-- ===== src/Matrix/Dsl/Parser.antt =====
-- internal/matrix/dsl.go: the parser. The list of the tokens that are left stands for the position in
-- the slice; each call and each pass of a loop takes one unit of the fuel.
pub mod Fuel
pub mod Print
pub mod Steps
pub mod RoundTrip
use Prim.Native.Char.{Char}
use llama_swap_macos_extende.Prelude.{
  ℕ, zero, suc, Bool, true, false, ◌+◌, ◌*◌, String, List, [], ◌∷◌, length,
}
use llama_swap_macos_extende.Matrix.Syntax.{Node, Nodes, leaf, ref, and_of, or_of, no_nodes, node}
use llama_swap_macos_extende.Matrix.Dsl.{
  Unicode, Token, ident, and_token, or_token, left_paren, right_paren, ref_token, eof, DslError,
  empty_expression, unexpected_token, missing_paren, unexpected_after, out_of_fuel, Result, failed,
  done, val,
}
use llama_swap_macos_extende.Matrix.Dsl.Tokens.{runes, trim_space, tokenize}

unfoldable pub peek : List Token → Token
peek [] = eof
peek (t ∷ ts) = t

-- The tokens after `next`, which does not pass the end.
unfoldable pub advance : List Token → List Token
advance [] = []
advance (eof ∷ ts) = eof ∷ ts
advance (t ∷ ts) = ts

-- The operator whose loop may go on, if it is the next token.
unfoldable pub at_or : List Token → Bool
unfolding peek
at_or ts = elim (peek ts) [ or_token ↦ true | _ ↦ false ]

unfoldable pub at_and : List Token → Bool
unfolding peek
at_and ts = elim (peek ts) [ and_token ↦ true | _ ↦ false ]

-- The end of a parenthesis.
unfoldable pub close_paren : Node → List Token → Result (Node × List Token)
unfolding peek advance
close_paren root ts = elim (peek ts) [
  | right_paren ↦ done (root, advance ts)
  | _ ↦ failed missing_paren
]

unfoldable mutual
  unfolding at_or at_and peek advance close_paren

  pub parse_or_expr : ℕ → List Token → Result (Node × List Token)
  parse_or_expr zero ts = failed out_of_fuel
  parse_or_expr (suc n) ts = elim (parse_and_expr n ts) [
    | failed e ↦ failed e
    | done (left, rest) ↦ elim (at_or rest) [
      | false ↦ done (left, rest)
      | true ↦ elim (or_children n rest) [
        | failed e ↦ failed e
        | done (children, after) ↦ done (or_of (node left children), after)
      ]
    ]
  ]

  -- The loop of parseOrExpr.
  pub or_children : ℕ → List Token → Result (Nodes × List Token)
  or_children zero ts = failed out_of_fuel
  or_children (suc n) ts = elim (at_or ts) [
    | false ↦ done (no_nodes, ts)
    | true ↦ elim (parse_and_expr n (advance ts)) [
      | failed e ↦ failed e
      | done (right, rest) ↦ elim (or_children n rest) [
        | failed e ↦ failed e
        | done (children, after) ↦ done (node right children, after)
      ]
    ]
  ]

  pub parse_and_expr : ℕ → List Token → Result (Node × List Token)
  parse_and_expr zero ts = failed out_of_fuel
  parse_and_expr (suc n) ts = elim (parse_atom n ts) [
    | failed e ↦ failed e
    | done (left, rest) ↦ elim (at_and rest) [
      | false ↦ done (left, rest)
      | true ↦ elim (and_children n rest) [
        | failed e ↦ failed e
        | done (children, after) ↦ done (and_of (node left children), after)
      ]
    ]
  ]

  -- The loop of parseAndExpr.
  pub and_children : ℕ → List Token → Result (Nodes × List Token)
  and_children zero ts = failed out_of_fuel
  and_children (suc n) ts = elim (at_and ts) [
    | false ↦ done (no_nodes, ts)
    | true ↦ elim (parse_atom n (advance ts)) [
      | failed e ↦ failed e
      | done (right, rest) ↦ elim (and_children n rest) [
        | failed e ↦ failed e
        | done (children, after) ↦ done (node right children, after)
      ]
    ]
  ]

  pub parse_atom : ℕ → List Token → Result (Node × List Token)
  parse_atom zero ts = failed out_of_fuel
  parse_atom (suc n) ts = elim (peek ts) [
    | ident name ↦ done (leaf name, advance ts)
    | ref_token name ↦ done (ref name, advance ts)
    | left_paren ↦ elim (parse_or_expr n (advance ts)) [
      | failed e ↦ failed e
      | done (root, rest) ↦ close_paren root rest
    ]
    | _ ↦ failed (unexpected_token (val (peek ts)))
  ]

-- The whole input has to be used.
unfoldable pub expect_end : Node × List Token → Result Node
unfolding peek
expect_end (root, rest) = elim (peek rest) [
  | eof ↦ done root
  | t ↦ failed (unexpected_after (val t))
]

-- Three calls for each token, and three at the end.
abbrev pub enough : List Token → ℕ
enough ts = 3 * length ts + 3

unfoldable pub parse_tokens : List Token → Result Node
unfolding expect_end
parse_tokens ts = elim (parse_or_expr (enough ts) ts) [
  | failed e ↦ failed e
  | done r ↦ expect_end r
]

-- An empty expression is no expression.
unfoldable pub parse_runes : Unicode → List Char → Result Node
unfolding parse_tokens
parse_runes u [] = failed empty_expression
parse_runes u (c ∷ cs) = elim (tokenize u (c ∷ cs)) [
  | failed e ↦ failed e
  | done ts ↦ parse_tokens ts
]

unfoldable pub parse_dsl : Unicode → String → Result Node
unfolding parse_runes
parse_dsl u input = parse_runes u (trim_space u (runes input))
