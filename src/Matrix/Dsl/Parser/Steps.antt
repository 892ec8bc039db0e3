-- ===== src/Matrix/Dsl/Parser/Steps.antt =====
-- internal/matrix/dsl.go: one call of each part of the parser.
use llama_swap_macos_extende.Prelude.{
  ℕ, zero, suc, ◌≤◌, ◌<◌, ◌≡◌, refl, subst, true, false, String, List, ◌∷◌, length, arith,
}
use llama_swap_macos_extende.Matrix.Syntax.{Node, Nodes, leaf, ref, and_of, or_of, no_nodes, node}
use llama_swap_macos_extende.Matrix.Dsl.{
  Token, ident, and_token, or_token, left_paren, right_paren, ref_token, Result, done,
}
use llama_swap_macos_extende.Matrix.Dsl.Parser.{
  peek, advance, at_or, at_and, close_paren, parse_or_expr, or_children, parse_and_expr,
  and_children, parse_atom,
}
use llama_swap_macos_extende.Matrix.Dsl.Parser.Fuel.{Shorter}
use llama_swap_macos_extende.Matrix.Dsl.Parser.Print.{emit_more_alternatives}

-- A successful part leaves less than it was given.
pub done-Shorter :
    {A : Type 0} (ts : List Token) (r : Result (A × List Token)) (t : A) (rest : List Token)
    → r ≡ done (t, rest)
    → Shorter ts r
    → length rest < length ts
done-Shorter ts r t rest e h = subst (Shorter ts) e h

-- The loop that follows an operand, joined to it.
pub parse_or_expr_join :
    (n : ℕ) (ts rest after : List Token) (t : Node) (children : Nodes)
    → parse_and_expr n ts ≡ done (t, rest)
    → at_or rest ≡ true
    → or_children n rest ≡ done (children, after)
    → parse_or_expr (suc n) ts ≡ done (or_of (node t children), after)
unfolding parse_or_expr
parse_or_expr_join n ts rest after t children p q r = rw (p, q, r, parse_or_expr) refl

pub parse_and_expr_join :
    (n : ℕ) (ts rest after : List Token) (t : Node) (children : Nodes)
    → parse_atom n ts ≡ done (t, rest)
    → at_and rest ≡ true
    → and_children n rest ≡ done (children, after)
    → parse_and_expr (suc n) ts ≡ done (and_of (node t children), after)
unfolding parse_and_expr
parse_and_expr_join n ts rest after t children p q r = rw (p, q, r, parse_and_expr) refl

-- One operand alone.
pub parse_or_expr_alone :
    (n : ℕ) (ts rest : List Token) (t : Node)
    → parse_and_expr n ts ≡ done (t, rest)
    → at_or rest ≡ false
    → parse_or_expr (suc n) ts ≡ done (t, rest)
unfolding parse_or_expr
parse_or_expr_alone n ts rest t p q = rw (p, q, parse_or_expr) refl

pub parse_and_expr_alone :
    (n : ℕ) (ts rest : List Token) (t : Node)
    → parse_atom n ts ≡ done (t, rest)
    → at_and rest ≡ false
    → parse_and_expr (suc n) ts ≡ done (t, rest)
unfolding parse_and_expr
parse_and_expr_alone n ts rest t p q = rw (p, q, parse_and_expr) refl

-- One more pass of a loop.
pub or_children_step :
    (n : ℕ) (ts rest after : List Token) (t : Node) (children : Nodes)
    → parse_and_expr n ts ≡ done (t, rest)
    → or_children n rest ≡ done (children, after)
    → or_children (suc n) (or_token ∷ ts) ≡ done (node t children, after)
unfolding or_children at_or peek advance
or_children_step n ts rest after t children p r = rw (p, r, or_children) refl

pub and_children_step :
    (n : ℕ) (ts rest after : List Token) (t : Node) (children : Nodes)
    → parse_atom n ts ≡ done (t, rest)
    → and_children n rest ≡ done (children, after)
    → and_children (suc n) (and_token ∷ ts) ≡ done (node t children, after)
unfolding and_children at_and peek advance
and_children_step n ts rest after t children p r = rw (p, r, and_children) refl

pub parse_atom_paren :
    (n : ℕ) (ts after : List Token) (t : Node)
    → parse_or_expr n ts ≡ done (t, right_paren ∷ after)
    → parse_atom (suc n) (left_paren ∷ ts) ≡ done (t, after)
unfolding parse_atom peek advance close_paren
parse_atom_paren n ts after t p = rw (p, parse_atom) refl

-- A name alone.
pub parse_and_expr-leaf :
    (n : ℕ) (m : String) (after : List Token)
    → at_and after ≡ false
    → 2 ≤ n
    → parse_and_expr n (ident m ∷ after) ≡ done (leaf m, after)
unfolding parse_atom peek advance
parse_and_expr-leaf zero m after a le = absurd (omega (arith, le))
parse_and_expr-leaf (suc zero) m after a le = absurd (omega (arith, le))
parse_and_expr-leaf (suc (suc n)) m after a le =
    parse_and_expr_alone (suc n) (ident m ∷ after) after (leaf m) refl a

pub parse_and_expr-ref :
    (n : ℕ) (m : String) (after : List Token)
    → at_and after ≡ false
    → 2 ≤ n
    → parse_and_expr n (ref_token m ∷ after) ≡ done (ref m, after)
unfolding parse_atom peek advance
parse_and_expr-ref zero m after a le = absurd (omega (arith, le))
parse_and_expr-ref (suc zero) m after a le = absurd (omega (arith, le))
parse_and_expr-ref (suc (suc n)) m after a le =
    parse_and_expr_alone (suc n) (ref_token m ∷ after) after (ref m) refl a

pub at_and-more_alternatives :
    (ts : Nodes) (after : List Token)
    → at_and after ≡ false
    → at_and (emit_more_alternatives ts after) ≡ false
unfolding emit_more_alternatives at_and peek
at_and-more_alternatives no_nodes after e = e
at_and-more_alternatives (node t ts) after e = refl
