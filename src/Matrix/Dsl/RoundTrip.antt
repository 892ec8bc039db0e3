-- ===== src/Matrix/Dsl/RoundTrip.antt =====
-- internal/matrix/dsl.go: an expression that is printed and parsed again.
use Prim.Native.Char.{Char}
use llama_swap_macos_extende.Prelude.{
  ◌≡◌, inl, inr, refl, ap, ◌∙◌, subst, String, List, [], ◌∷◌, ◌++◌, arith,
}
use llama_swap_macos_extende.Matrix.Syntax.{Node, Nodes, leaf, ref, and_of, or_of, no_nodes, node}
use llama_swap_macos_extende.Matrix.Dsl.{Unicode, Token, right_paren, eof, done}
use llama_swap_macos_extende.Matrix.Dsl.Tokens.{runes, of_runes, tokenize, trim_space}
use llama_swap_macos_extende.Matrix.Dsl.Tokens.Spell.{
  IsLawful, IsName, Ended, spell, text_of, gap, runes-of_runes,
}
use llama_swap_macos_extende.Matrix.Dsl.Tokens.RoundTrip.{tokenize-spell}
use llama_swap_macos_extende.Matrix.Dsl.Tokens.Trim.{trim_space-spell, text_of_some}
use llama_swap_macos_extende.Matrix.Dsl.Parser.{
  peek, parse_or_expr, parse_tokens, parse_runes, parse_dsl,
}
use llama_swap_macos_extende.Matrix.Dsl.Parser.Print.{
  emit_or, emit_and, emit_atom, emit_alternatives, emit_more_alternatives, emit_factors,
  emit_more_factors, IsTree, AreTrees,
}
use llama_swap_macos_extende.Matrix.Dsl.Parser.RoundTrip.{parse_tokens-emit}

-- The tokens of a tree are names of the tree and operators.
module _ (P : String → Type 0) where
  mutual
    unfolding emit_or IsTree Ended

    emit_or-Ended :
        (t : Node) (after : List Token) → IsTree P t → Ended P after → Ended P (emit_or t after)
    emit_or-Ended (leaf m) after p h = (p, h)
    emit_or-Ended (ref m) after p h = (p, h)
    emit_or-Ended (and_of ts) after p h = emit_factors-Ended ts after p.1 h
    emit_or-Ended (or_of ts) after p h = emit_alternatives-Ended ts after p.1 h

    emit_and-Ended :
        (t : Node) (after : List Token) → IsTree P t → Ended P after → Ended P (emit_and t after)
    emit_and-Ended (leaf m) after p h = (p, h)
    emit_and-Ended (ref m) after p h = (p, h)
    emit_and-Ended (and_of ts) after p h = emit_factors-Ended ts after p.1 h
    emit_and-Ended (or_of ts) after p h = emit_alternatives-Ended ts (right_paren ∷ after) p.1 h

    emit_atom-Ended :
        (t : Node) (after : List Token) → IsTree P t → Ended P after → Ended P (emit_atom t after)
    emit_atom-Ended (leaf m) after p h = (p, h)
    emit_atom-Ended (ref m) after p h = (p, h)
    emit_atom-Ended (and_of ts) after p h = emit_factors-Ended ts (right_paren ∷ after) p.1 h
    emit_atom-Ended (or_of ts) after p h = emit_alternatives-Ended ts (right_paren ∷ after) p.1 h

    emit_alternatives-Ended :
        (ts : Nodes) (after : List Token)
        → AreTrees P ts
        → Ended P after
        → Ended P (emit_alternatives ts after)
    emit_alternatives-Ended no_nodes after p h = h
    emit_alternatives-Ended (node t ts) after p h =
        emit_and-Ended t (emit_more_alternatives ts after) p.0
          (emit_more_alternatives-Ended ts after p.1 h)

    emit_more_alternatives-Ended :
        (ts : Nodes) (after : List Token)
        → AreTrees P ts
        → Ended P after
        → Ended P (emit_more_alternatives ts after)
    emit_more_alternatives-Ended no_nodes after p h = h
    emit_more_alternatives-Ended (node t ts) after p h =
        emit_and-Ended t (emit_more_alternatives ts after) p.0
          (emit_more_alternatives-Ended ts after p.1 h)

    emit_factors-Ended :
        (ts : Nodes) (after : List Token)
        → AreTrees P ts
        → Ended P after
        → Ended P (emit_factors ts after)
    emit_factors-Ended no_nodes after p h = h
    emit_factors-Ended (node t ts) after p h =
        emit_atom-Ended t (emit_more_factors ts after) p.0 (emit_more_factors-Ended ts after p.1 h)

    emit_more_factors-Ended :
        (ts : Nodes) (after : List Token)
        → AreTrees P ts
        → Ended P after
        → Ended P (emit_more_factors ts after)
    emit_more_factors-Ended no_nodes after p h = h
    emit_more_factors-Ended (node t ts) after p h =
        emit_atom-Ended t (emit_more_factors ts after) p.0 (emit_more_factors-Ended ts after p.1 h)

-- The text of a tree.
unfoldable pub print : Node → String
unfolding of_runes spell emit_or
print t = of_runes (spell (emit_or t (eof ∷ [])))

parse_runes-tokens :
    (u : Unicode) (cs : List Char) (ts : List Token) (t : Node)
    → tokenize u cs ≡ done ts
    → parse_tokens ts ≡ done t
    → (cs ≡ [] → ⊥)
    → parse_runes u cs ≡ done t
unfolding parse_runes
parse_runes-tokens u [] ts t e p f = absurd (f refl)
parse_runes-tokens u (c ∷ cs) ts t e p f = rw (e, parse_runes) p

append_some : (cs ds : List Char) → cs ++ ds ≡ [] → cs ≡ []
append_some [] ds e = refl
append_some (c ∷ cs) ds e = absurd (ground arith)

-- Nothing is read from the end alone.
end_alone : (t : Node) → parse_tokens (eof ∷ []) ≡ done t → ⊥
unfolding parse_tokens parse_or_expr peek
end_alone t q = ground arith

spell_some :
    (u : Unicode) (laws : IsLawful u) (ts : List Token) (t : Node)
    → Ended (IsName u) ts
    → parse_tokens ts ≡ done t
    → spell ts ≡ []
    → ⊥
unfolding Ended spell
spell_some u laws [] t h p e = h
spell_some u laws (x ∷ ts) t h p e = elim (text_of_some u laws x ts h) [
  | inl end ↦
      let last : ts ≡ [] = subst (λ y. Ended (IsName u) (y ∷ ts)) end h in
      end_alone t (
        subst (λ r. parse_tokens (eof ∷ r) ≡ done t) last
          (subst (λ y. parse_tokens (y ∷ ts) ≡ done t) end p))
  | inr f ↦ f (append_some (text_of x) (gap (spell ts)) e)
]

closed : (P : String → Type 0) → Ended P (eof ∷ [])
unfolding Ended
closed P = refl

trimmed :
    (u : Unicode)
    → IsLawful u
    → (ts : List Token) → Ended (IsName u) ts
    → trim_space u (spell ts) ≡ spell ts
unfolding Ended
trimmed u laws [] h = absurd h
trimmed u laws (x ∷ ts) h = trim_space-spell u laws x ts h

-- If the classes of package unicode are lawful (the blank is a space, the signs are neither spaces
-- nor letters nor digits, no character of a name is a space), then a tree whose operators have two
-- operands at least and whose names are names of the language is parsed again from its printed
-- text.
pub parse_dsl-print :
    (u : Unicode) → IsLawful u → (t : Node) → IsTree (IsName u) t → parse_dsl u (print t) ≡ done t
unfolding parse_dsl print
parse_dsl-print u laws t p =
    whole (emit_or t (eof ∷ [])) (emit_or-Ended (IsName u) t (eof ∷ []) p (closed (IsName u)))
      (parse_tokens-emit (IsName u) t p)
  where
    whole :
        (ts : List Token)
        → Ended (IsName u) ts
        → parse_tokens ts ≡ done t
        → parse_runes u (trim_space u (runes (of_runes (spell ts)))) ≡ done t
    whole ts h q =
        ap (λ cs. parse_runes u (trim_space u cs)) (runes-of_runes (spell ts))
        ∙ ap (parse_runes u) (trimmed u laws ts h)
        ∙ parse_runes-tokens u (spell ts) ts t (tokenize-spell u laws ts h) q
            (spell_some u laws ts t h q)
