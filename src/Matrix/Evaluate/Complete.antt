-- ===== src/Matrix/Evaluate/Complete.antt =====
-- internal/matrix/program.go, evaluate: every combination of the expression is below some state.
use mathlib.Core.List.{append-nil, append_assoc}
use llama_swap_macos_extende.Prelude.{
  ℕ, ◌≡◌, ◌⊎◌, inl, inr, sym, ◌∙◌, subst, true, String, List, [], ◌∷◌, ◌++◌, some, All, All-map,
  Some, contains_string, arith,
}
use llama_swap_macos_extende.Matrix.Masks.{Mask, has}
use llama_swap_macos_extende.Matrix.Masks.Laws.{
  Shaped, new_mask-Shaped, has-union_mask, union_mask-Shaped, subset_of-has,
}
use llama_swap_macos_extende.Matrix.Syntax.{
  Linked, Links, model, set_of, every, either, no_links, link,
}
use llama_swap_macos_extende.Matrix.Evaluate.{
  Evaluator, State, join_states, combine, evaluate, evaluate_either, evaluate_every, bit_of,
}
use llama_swap_macos_extende.Matrix.Evaluate.Choices.{Picks, PicksOne, PicksEach}
use llama_swap_macos_extende.Matrix.Evaluate.Frontier.{
  Upward, Covers, add_all-Covers, combine-Covers, combine-All,
}
use llama_swap_macos_extende.Matrix.Evaluate.Registry.{Sized, leaf_mask-Exact, contains-append}
use llama_swap_macos_extende.Matrix.Evaluate.Sound.{Real, evaluate-Real}

-- The mask has at least the bits of the models in the list, among those that have a bit.
abbrev pub Above : Evaluator → List String → Mask → Type 0
Above e ms mask =
    (m : String) (b : ℕ)
    → bit_of e.model_bits m ≡ some b
    → contains_string ms m ≡ true
    → has mask b ≡ true

Above-up : (e : Evaluator) (ms : List String) → Upward (Above e ms)
Above-up e ms m o sub h n b p c = subset_of-has m o b sub (h n b p c)

-- Some element has one property, and all have another.
Some-All :
    (P Q R : State → Type 0)
    → ((s : State) → P s → Q s → R s)
    → (states : List State) → Some P states
    → All Q states
    → Some R states
Some-All P Q R f [] h k = h
Some-All P Q R f (s ∷ ss) (inl p) k = inl (f s p k.0)
Some-All P Q R f (s ∷ ss) (inr h) k = inr (Some-All P Q R f ss h k.1)

abbrev Shape : Evaluator → State → Type 0
Shape e s = Shaped e.words s.mask

join_states-Above :
    (e : Evaluator) (ms ns : List String) (l r : State)
    → Shape e l
    → Shape e r
    → Above e ms l.mask
    → Above e ns r.mask
    → Above e (ms ++ ns) (join_states l r).mask
join_states-Above e ms ns l r sl sr h k m b p c =
    has-union_mask e.words l.mask r.mask b sl sr
    ∙ ground (arith, h m b p, k m b p, contains-append ms ns m)

combine-Above :
    (e : Evaluator) (ms ns : List String) (lefts rights : List State)
    → All (Shape e) lefts
    → All (Shape e) rights
    → Covers (Above e ms) lefts
    → Covers (Above e ns) rights
    → Covers (Above e (ms ++ ns)) (combine lefts rights [])
combine-Above e ms ns lefts rights sl sr h k =
    combine-Covers (Above e (ms ++ ns)) (Above-up e (ms ++ ns)) lefts rights [] (
      inr (
        Some-All (λ l. Above e ms l.mask) (Shape e) _
          (λ l p q.
            Some-All (λ r. Above e ns r.mask) (Shape e) _
              (λ r u v. join_states-Above e ms ns l r q v p u) rights k sr)
          lefts h sl))

combine-Shape :
    (e : Evaluator) (lefts rights : List State)
    → All (Shape e) lefts
    → All (Shape e) rights
    → All (Shape e) (combine lefts rights [])
combine-Shape e lefts rights h k = combine-All (Shape e) lefts rights [] tt (
    All-map (Shape e) _
      (λ l p. All-map (Shape e) _ (λ r q. union_mask-Shaped e.words l.mask r.mask p q) rights k)
      lefts h)

module _ (e : Evaluator) (sized : Sized e) where
  evaluate-Shape : (t : Linked) → All (Shape e) (evaluate e t)
  evaluate-Shape t =
      All-map (Real e (Picks t)) (Shape e) (λ s r. r.shaped) _ (evaluate-Real e sized t)

  mutual
    unfolding evaluate Picks

    picked_covered :
        (t : Linked) (ms : List String) → Picks t ms → Covers (Above e ms) (evaluate e t)
    picked_covered (model m) ms p =
        subst (λ xs. Covers (Above e xs) (evaluate e (model m))) (sym p)
          (inl (λ n b q c. leaf_mask-Exact e m sized n b q ∙ c))
    picked_covered (set_of t) ms p = picked_covered t ms p
    picked_covered (either ts) ms p = one_covered ts ms [] (inr p)
    picked_covered (every ts) ms p =
        each_covered ts [] ms _ (new_mask-Shaped e.words, tt)
          (inl (λ m b q c. absurd (ground arith))) p

    one_covered :
        (ts : Links) (ms : List String) (states : List State)
        → Covers (Above e ms) states ⊎ PicksOne ts ms
        → Covers (Above e ms) (evaluate_either e ts states)
    one_covered no_links ms states (inl h) = h
    one_covered no_links ms states (inr p) = absurd p
    one_covered (link t ts) ms states (inl h) =
        one_covered ts ms _
          (inl (add_all-Covers (Above e ms) (Above-up e ms) states (evaluate e t) (inl h)))
    one_covered (link t ts) ms states (inr (inl p)) = one_covered ts ms _ (
        inl (
          add_all-Covers (Above e ms) (Above-up e ms) states (evaluate e t)
            (inr (picked_covered t ms p))))
    one_covered (link t ts) ms states (inr (inr p)) = one_covered ts ms _ (inr p)

    each_covered :
        (ts : Links) (ms ns : List String) (states : List State)
        → All (Shape e) states
        → Covers (Above e ms) states
        → PicksEach ts ns
        → Covers (Above e (ms ++ ns)) (evaluate_every e ts states)
    each_covered no_links ms ns states s h p =
        subst (λ xs. Covers (Above e (ms ++ xs)) states) (sym p)
          (subst (λ xs. Covers (Above e xs) states) (sym (append-nil ms)) h)
    each_covered (link t ts) ms ns states s h (a, b, split, p, q) =
        let shape = evaluate-Shape t in
        let next =
          each_covered ts (ms ++ a) b (combine states (evaluate e t) [])
            (combine-Shape e states (evaluate e t) s shape)
            (combine-Above e ms a states (evaluate e t) s shape h (picked_covered t a p)) q in
        subst (λ xs. Covers (Above e (ms ++ xs)) (evaluate_every e (link t ts) states)) (sym split)
          (subst (λ xs. Covers (Above e xs) (evaluate_every e (link t ts) states))
            (append_assoc ms a b) next)

  -- For an evaluator whose masks have room for its bits, every combination of an expression is
  -- represented in the frontier: some state has the bits of all the models of the combination that
  -- the query is about.
  pub evaluate-Above :
      (t : Linked) (ms : List String) → Picks t ms → Covers (Above e ms) (evaluate e t)
  evaluate-Above t ms p = picked_covered t ms p
