-- ===== src/Matrix/Evaluate.antt =====
-- internal/matrix/program.go: the evaluator, which projects every combination of an expression onto
-- the models that a query is about. Its memo table holds what was computed before for the same node,
-- and is left out.
pub mod Choices
pub mod Frontier
pub mod Registry
pub mod Sound
pub mod Complete
pub mod Onto
use llama_swap_macos_extende.Prelude.{
  ℕ, zero, suc, ◌+◌, ◌/◌, Bool, true, false, not, String, List, [], ◌∷◌, ◌++◌, Option, none, some,
  if◌then◌else◌, length, any, keep, str_eq, contains_string,
}
use llama_swap_macos_extende.Matrix.Masks.{Mask, new_mask, set_bit, subset_of, union_mask}
use llama_swap_macos_extende.Matrix.Syntax.{
  Linked, Links, model, set_of, every, either, no_links, link,
}

-- The table modelBits as the list of its models in the order of their bits: an unknown model gets
-- the next bit.
unfoldable pub register : List String → List String → List String
register bits [] = bits
register bits (m ∷ ms) = register (if contains_string bits m then bits else bits ++ m ∷ []) ms

unfoldable pub bit_of : List String → String → Option ℕ
bit_of [] m = none
bit_of (x ∷ bits) m =
    if str_eq x m then some 0 else (elim (bit_of bits m) [ none ↦ none | some i ↦ some (suc i) ])

-- An absent key reads as 0.
unfoldable pub bit_or_zero : List String → String → ℕ
bit_or_zero bits m = elim (bit_of bits m) [ none ↦ 0 | some i ↦ i ]

pub record Evaluator : Type 0 where
  pub model_bits : List String
  pub words : ℕ

abbrev pub words_for : ℕ → ℕ
words_for bits = (bits + 63) / 64

unfoldable pub new_evaluator : List String → Evaluator
unfolding register
new_evaluator relevant =
    let bits = register [] relevant in record { model_bits = bits; words = words_for (length bits) }

-- The loop `for bit := range n`.
unfoldable pub set_bits_below : ℕ → Mask → Mask
set_bits_below zero m = m
set_bits_below (suc n) m = set_bit (set_bits_below n m) n

unfoldable pub full_mask : Evaluator → Mask
unfolding set_bits_below
full_mask e = set_bits_below (length e.model_bits) (new_mask e.words)

-- `none_chosen` is the nil pointer; `pair` is a node without a model.
pub data Witness : Type 0 where
  none_chosen : Witness
  chosen : String → Witness
  pair : Witness → Witness → Witness

pub record State : Type 0 where
  pub mask : Mask
  pub witness : Witness

unfoldable pub add_to_frontier : List State → State → List State
add_to_frontier states candidate =
    if any (λ s. subset_of candidate.mask s.mask) states
    then states
    else keep (λ s. not (subset_of s.mask candidate.mask)) states ++ candidate ∷ []

unfoldable pub leaf_mask : Evaluator → String → Mask
leaf_mask e m = elim (bit_of e.model_bits m) [
  | none ↦ new_mask e.words
  | some bit ↦ set_bit (new_mask e.words) bit
]

abbrev pub join_states : State → State → State
join_states left right = record {
  mask = union_mask left.mask right.mask;
  witness = pair left.witness right.witness;
}

-- The inner loop of the conjunction, for one state on the left.
unfoldable pub combine_one : State → List State → List State → List State
combine_one left [] combined = combined
combine_one left (r ∷ rs) combined =
    combine_one left rs (add_to_frontier combined (join_states left r))

unfoldable pub combine : List State → List State → List State → List State
combine [] rights combined = combined
combine (l ∷ ls) rights combined = combine ls rights (combine_one l rights combined)

-- The inner loop of the disjunction.
unfoldable pub add_all : List State → List State → List State
add_all states [] = states
add_all states (s ∷ ss) = add_all (add_to_frontier states s) ss

unfoldable mutual
  pub evaluate : Evaluator → Linked → List State
  evaluate e (model m) = record { mask = leaf_mask e m; witness = chosen m } ∷ []
  evaluate e (set_of t) = evaluate e t
  evaluate e (either ts) = evaluate_either e ts []
  evaluate e (every ts) =
      evaluate_every e ts (record { mask = new_mask e.words; witness = none_chosen } ∷ [])

  pub evaluate_either : Evaluator → Links → List State → List State
  evaluate_either e no_links states = states
  evaluate_either e (link t ts) states = evaluate_either e ts (add_all states (evaluate e t))

  pub evaluate_every : Evaluator → Links → List State → List State
  evaluate_every e no_links states = states
  evaluate_every e (link t ts) states = evaluate_every e ts (combine states (evaluate e t) [])
