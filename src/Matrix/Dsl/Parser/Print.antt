-- ===== src/Matrix/Dsl/Parser/Print.antt =====
-- internal/matrix/dsl.go: the tokens that a tree is written with, by the precedence of the operators.
use llama_swap_macos_extende.Prelude.{String, List, ◌∷◌}
use llama_swap_macos_extende.Matrix.Syntax.{Node, Nodes, leaf, ref, and_of, or_of, no_nodes, node}
use llama_swap_macos_extende.Matrix.Dsl.{
  Token, ident, and_token, or_token, left_paren, right_paren, ref_token,
}

-- The tokens of a tree in front of others, where an alternative, a factor or an atom may stand.
unfoldable mutual
  pub emit_or : Node → List Token → List Token
  emit_or (leaf m) after = ident m ∷ after
  emit_or (ref m) after = ref_token m ∷ after
  emit_or (and_of ts) after = emit_factors ts after
  emit_or (or_of ts) after = emit_alternatives ts after

  pub emit_and : Node → List Token → List Token
  emit_and (leaf m) after = ident m ∷ after
  emit_and (ref m) after = ref_token m ∷ after
  emit_and (and_of ts) after = emit_factors ts after
  emit_and (or_of ts) after = left_paren ∷ emit_alternatives ts (right_paren ∷ after)

  pub emit_atom : Node → List Token → List Token
  emit_atom (leaf m) after = ident m ∷ after
  emit_atom (ref m) after = ref_token m ∷ after
  emit_atom (and_of ts) after = left_paren ∷ emit_factors ts (right_paren ∷ after)
  emit_atom (or_of ts) after = left_paren ∷ emit_alternatives ts (right_paren ∷ after)

  pub emit_alternatives : Nodes → List Token → List Token
  emit_alternatives no_nodes after = after
  emit_alternatives (node t ts) after = emit_and t (emit_more_alternatives ts after)

  pub emit_more_alternatives : Nodes → List Token → List Token
  emit_more_alternatives no_nodes after = after
  emit_more_alternatives (node t ts) after = or_token ∷ emit_and t (emit_more_alternatives ts after)

  pub emit_factors : Nodes → List Token → List Token
  emit_factors no_nodes after = after
  emit_factors (node t ts) after = emit_atom t (emit_more_factors ts after)

  pub emit_more_factors : Nodes → List Token → List Token
  emit_more_factors no_nodes after = after
  emit_more_factors (node t ts) after = and_token ∷ emit_atom t (emit_more_factors ts after)

-- Every operator has two operands at least, and every name has the property.
unfoldable mutual
  pub IsTree : (String → Type 0) → Node → Type 0
  IsTree P (leaf m) = P m
  IsTree P (ref m) = P m
  IsTree P (and_of ts) = HasTwo ts × AreTrees P ts
  IsTree P (or_of ts) = HasTwo ts × AreTrees P ts

  pub AreTrees : (String → Type 0) → Nodes → Type 0
  AreTrees P no_nodes = Unit
  AreTrees P (node t ts) = IsTree P t × AreTrees P ts

  pub HasTwo : Nodes → Type 0
  HasTwo no_nodes = ⊥
  HasTwo (node t no_nodes) = ⊥
  HasTwo (node t (node u ts)) = Unit
