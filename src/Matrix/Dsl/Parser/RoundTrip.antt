-- ===== src/Matrix/Dsl/Parser/RoundTrip.antt =====
-- internal/matrix/dsl.go: what the parser makes of the tokens of a tree.
use llama_swap_macos_extende.Prelude.{
  ℕ, zero, suc, ◌+◌, ◌*◌, ◌≤◌, ◌≡◌, refl, false, String, List, [], ◌∷◌, length, arith,
}
use llama_swap_macos_extende.Matrix.Syntax.{Node, Nodes, leaf, ref, and_of, or_of, no_nodes, node}
use llama_swap_macos_extende.Matrix.Dsl.{Token, ident, right_paren, ref_token, eof, done}
use llama_swap_macos_extende.Matrix.Dsl.Parser.{
  peek, advance, at_or, at_and, parse_or_expr, or_children, parse_and_expr, and_children,
  parse_atom, expect_end, enough, parse_tokens,
}
use llama_swap_macos_extende.Matrix.Dsl.Parser.Fuel.{parse_and_expr-Shorter, parse_atom-Shorter}
use llama_swap_macos_extende.Matrix.Dsl.Parser.Print.{
  emit_or, emit_and, emit_atom, emit_alternatives, emit_more_alternatives, emit_factors,
  emit_more_factors, IsTree, AreTrees, HasTwo,
}
use llama_swap_macos_extende.Matrix.Dsl.Parser.Steps.{
  done-Shorter, parse_or_expr_join, parse_and_expr_join, parse_or_expr_alone, parse_and_expr_alone,
  or_children_step, and_children_step, parse_atom_paren, parse_and_expr-leaf, parse_and_expr-ref,
  at_and-more_alternatives,
}

module _ (P : String → Type 0) where
  mutual
    unfolding emit_or IsTree at_or at_and peek advance parse_atom or_children and_children

    pub parse_or_expr-emit :
        (t : Node) (n : ℕ) (after : List Token)
        → IsTree P t
        → at_or after ≡ false
        → at_and after ≡ false
        → 3 * length (emit_or t after) + 3 ≤ n
        → parse_or_expr n (emit_or t after) ≡ done (t, after)
    parse_or_expr-emit t zero after p o a le = absurd (omega (arith, le))
    parse_or_expr-emit (leaf m) (suc n) after p o a le =
        parse_or_expr_alone n (ident m ∷ after) after (leaf m)
          (parse_and_expr-leaf n m after a (omega (arith, le))) o
    parse_or_expr-emit (ref m) (suc n) after p o a le =
        parse_or_expr_alone n (ref_token m ∷ after) after (ref m)
          (parse_and_expr-ref n m after a (omega (arith, le))) o
    parse_or_expr-emit (and_of ts) (suc n) after p o a le =
        parse_or_expr_alone n (emit_factors ts after) after (and_of ts)
          (parse_and_expr-factors ts n after p.0 p.1 a (omega (arith, le))) o
    parse_or_expr-emit (or_of ts) (suc n) after p o a le =
        parse_or_expr-alternatives ts (suc n) after p.0 p.1 o a le

    parse_and_expr-emit :
        (t : Node) (n : ℕ) (after : List Token)
        → IsTree P t
        → at_and after ≡ false
        → 3 * length (emit_and t after) + 2 ≤ n
        → parse_and_expr n (emit_and t after) ≡ done (t, after)
    parse_and_expr-emit t zero after p a le = absurd (omega (arith, le))
    parse_and_expr-emit (leaf m) (suc n) after p a le =
        parse_and_expr-leaf (suc n) m after a (omega (arith, le))
    parse_and_expr-emit (ref m) (suc n) after p a le =
        parse_and_expr-ref (suc n) m after a (omega (arith, le))
    parse_and_expr-emit (and_of ts) (suc n) after p a le =
        parse_and_expr-factors ts (suc n) after p.0 p.1 a le
    parse_and_expr-emit (or_of ts) (suc zero) after p a le = absurd (omega (arith, le))
    parse_and_expr-emit (or_of ts) (suc (suc n)) after p a le =
        parse_and_expr_alone (suc n) (emit_atom (or_of ts) after) after (or_of ts)
          (parse_atom_paren n (emit_alternatives ts (right_paren ∷ after)) after (or_of ts) (
            parse_or_expr-alternatives ts n (right_paren ∷ after) p.0 p.1 refl refl
              (omega (arith, le))))
          a

    parse_atom-emit :
        (t : Node) (n : ℕ) (after : List Token)
        → IsTree P t
        → 3 * length (emit_atom t after) + 1 ≤ n
        → parse_atom n (emit_atom t after) ≡ done (t, after)
    parse_atom-emit t zero after p le = absurd (omega (arith, le))
    parse_atom-emit (leaf m) (suc n) after p le = refl
    parse_atom-emit (ref m) (suc n) after p le = refl
    parse_atom-emit (and_of ts) (suc zero) after p le = absurd (omega (arith, le))
    parse_atom-emit (and_of ts) (suc (suc n)) after p le =
        parse_atom_paren (suc n) (emit_factors ts (right_paren ∷ after)) after (and_of ts) (
          parse_or_expr_alone n (emit_factors ts (right_paren ∷ after)) (right_paren ∷ after)
            (and_of ts)
            (parse_and_expr-factors ts n (right_paren ∷ after) p.0 p.1 refl (omega (arith, le)))
            refl)
    parse_atom-emit (or_of ts) (suc n) after p le =
        parse_atom_paren n (emit_alternatives ts (right_paren ∷ after)) after (or_of ts) (
          parse_or_expr-alternatives ts n (right_paren ∷ after) p.0 p.1 refl refl
            (omega (arith, le)))

    parse_or_expr-alternatives :
        (ts : Nodes) (n : ℕ) (after : List Token)
        → HasTwo ts
        → AreTrees P ts
        → at_or after ≡ false
        → at_and after ≡ false
        → 3 * length (emit_alternatives ts after) + 3 ≤ n
        → parse_or_expr n (emit_alternatives ts after) ≡ done (or_of ts, after)
    parse_or_expr-alternatives no_nodes n after two p o a le = absurd two
    parse_or_expr-alternatives (node t no_nodes) n after two p o a le = absurd two
    parse_or_expr-alternatives (node t (node u us)) zero after two p o a le =
        absurd (omega (arith, le))
    parse_or_expr-alternatives (node t (node u us)) (suc n) after two p o a le =
        let rest = emit_more_alternatives (node u us) after in
        let here = parse_and_expr-emit t n rest p.0 refl (omega (arith, le)) in
        let lt =
          done-Shorter (emit_and t rest) (parse_and_expr n (emit_and t rest)) t rest here
            (parse_and_expr-Shorter n (emit_and t rest) (omega (arith, le))) in
        parse_or_expr_join n (emit_and t rest) rest after t (node u us) here refl
          (or_children-emit (node u us) n after p.1 o a (omega (arith, le, lt)))

    or_children-emit :
        (ts : Nodes) (n : ℕ) (after : List Token)
        → AreTrees P ts
        → at_or after ≡ false
        → at_and after ≡ false
        → 3 * length (emit_more_alternatives ts after) + 1 ≤ n
        → or_children n (emit_more_alternatives ts after) ≡ done (ts, after)
    or_children-emit ts zero after p o a le = absurd (omega (arith, le))
    or_children-emit no_nodes (suc n) after p o a le = rw (o, or_children) refl
    or_children-emit (node t ts) (suc n) after p o a le =
        let rest = emit_more_alternatives ts after in
        let here =
          parse_and_expr-emit t n rest p.0 (at_and-more_alternatives ts after a)
            (omega (arith, le)) in
        let lt =
          done-Shorter (emit_and t rest) (parse_and_expr n (emit_and t rest)) t rest here
            (parse_and_expr-Shorter n (emit_and t rest) (omega (arith, le))) in
        or_children_step n (emit_and t rest) rest after t ts here
          (or_children-emit ts n after p.1 o a (omega (arith, le, lt)))

    parse_and_expr-factors :
        (ts : Nodes) (n : ℕ) (after : List Token)
        → HasTwo ts
        → AreTrees P ts
        → at_and after ≡ false
        → 3 * length (emit_factors ts after) + 2 ≤ n
        → parse_and_expr n (emit_factors ts after) ≡ done (and_of ts, after)
    parse_and_expr-factors no_nodes n after two p a le = absurd two
    parse_and_expr-factors (node t no_nodes) n after two p a le = absurd two
    parse_and_expr-factors (node t (node u us)) zero after two p a le = absurd (omega (arith, le))
    parse_and_expr-factors (node t (node u us)) (suc n) after two p a le =
        let rest = emit_more_factors (node u us) after in
        let here = parse_atom-emit t n rest p.0 (omega (arith, le)) in
        let lt =
          done-Shorter (emit_atom t rest) (parse_atom n (emit_atom t rest)) t rest here
            (parse_atom-Shorter n (emit_atom t rest) (omega (arith, le))) in
        parse_and_expr_join n (emit_atom t rest) rest after t (node u us) here refl
          (and_children-emit (node u us) n after p.1 a (omega (arith, le, lt)))

    and_children-emit :
        (ts : Nodes) (n : ℕ) (after : List Token)
        → AreTrees P ts
        → at_and after ≡ false
        → 3 * length (emit_more_factors ts after) + 1 ≤ n
        → and_children n (emit_more_factors ts after) ≡ done (ts, after)
    and_children-emit ts zero after p a le = absurd (omega (arith, le))
    and_children-emit no_nodes (suc n) after p a le = rw (a, and_children) refl
    and_children-emit (node t ts) (suc n) after p a le =
        let rest = emit_more_factors ts after in
        let here = parse_atom-emit t n rest p.0 (omega (arith, le)) in
        let lt =
          done-Shorter (emit_atom t rest) (parse_atom n (emit_atom t rest)) t rest here
            (parse_atom-Shorter n (emit_atom t rest) (omega (arith, le))) in
        and_children_step n (emit_atom t rest) rest after t ts here
          (and_children-emit ts n after p.1 a (omega (arith, le, lt)))

  -- The tokens of a tree are read as that tree.
  pub parse_tokens-emit : (t : Node) → IsTree P t → parse_tokens (emit_or t (eof ∷ [])) ≡ done t
  unfolding parse_tokens expect_end peek at_or at_and
  parse_tokens-emit t p =
      rw
        (
          parse_or_expr-emit t (enough (emit_or t (eof ∷ []))) (eof ∷ []) p refl refl (omega arith),
          parse_tokens,
        )
        refl
