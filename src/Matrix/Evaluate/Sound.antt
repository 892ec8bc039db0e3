-- ===== src/Matrix/Evaluate/Sound.antt =====
-- internal/matrix/program.go, evaluate: every state stands for a combination of the expression.
use mathlib.Core.List.{append-nil, append_assoc}
use llama_swap_macos_extende.Prelude.{
  ◌≡◌, inl, inr, refl, sym, ap, ◌∙◌, subst, ◌||◌, String, List, [], ◌∷◌, ◌++◌, All, All-map,
  contains_string,
}
use llama_swap_macos_extende.Matrix.Masks.{has}
use llama_swap_macos_extende.Matrix.Masks.Laws.{
  Shaped, new_mask-Shaped, has-new_mask, has-union_mask, union_mask-Shaped,
}
use llama_swap_macos_extende.Matrix.Syntax.{
  Linked, Links, model, set_of, every, either, no_links, link,
}
use llama_swap_macos_extende.Matrix.Evaluate.{
  Evaluator, Witness, none_chosen, chosen, pair, State, join_states, combine, evaluate,
  evaluate_either, evaluate_every,
}
use llama_swap_macos_extende.Matrix.Evaluate.Choices.{Picks, PicksOne, PicksEach}
use llama_swap_macos_extende.Matrix.Evaluate.Frontier.{add_all-All, combine-All}
use llama_swap_macos_extende.Matrix.Evaluate.Registry.{
  Sized, Exact, leaf_mask-Shaped, leaf_mask-Exact, contains-append,
}

-- The chosen models, in the order of the leaves.
abbrev pub choices : Witness → List String
choices none_chosen = []
choices (chosen m) = m ∷ []
choices (pair left right) = choices left ++ choices right

-- The state's mask is that of its choices, which have the property.
pub record Real (e : Evaluator) (P : List String → Type 0) (s : State) : Type 0 where
  pub shaped : Shaped e.words s.mask
  pub exact : Exact e (choices s.witness) s.mask
  pub picked : P (choices s.witness)

Real-map :
    (e : Evaluator) (P Q : List String → Type 0)
    → ((ms : List String) → P ms → Q ms)
    → (s : State) → Real e P s
    → Real e Q s
Real-map e P Q f s r = record { shaped = r.shaped; exact = r.exact; picked = f _ r.picked }

join_states-Real :
    (e : Evaluator) (P Q R : List String → Type 0)
    → ((ms ns : List String) → P ms → Q ns → R (ms ++ ns))
    → (l r : State) → Real e P l
    → Real e Q r
    → Real e R (join_states l r)
join_states-Real e P Q R f l r h k = record {
  shaped = union_mask-Shaped e.words l.mask r.mask h.shaped k.shaped;
  exact = λ m b p.
      has-union_mask e.words l.mask r.mask b h.shaped k.shaped
      ∙ ap (λ x. x || has r.mask b) (h.exact m b p)
      ∙ ap (λ x. contains_string (choices l.witness) m || x) (k.exact m b p)
      ∙ sym (contains-append (choices l.witness) (choices r.witness) m);
  picked = f _ _ h.picked k.picked;
}

combine-Real :
    (e : Evaluator) (P Q R : List String → Type 0)
    → ((ms ns : List String) → P ms → Q ns → R (ms ++ ns))
    → (lefts rights : List State) → All (Real e P) lefts
    → All (Real e Q) rights
    → All (Real e R) (combine lefts rights [])
combine-Real e P Q R f lefts rights h k = combine-All (Real e R) lefts rights [] tt (
    All-map (Real e P) _
      (λ l p. All-map (Real e Q) _ (λ r q. join_states-Real e P Q R f l r p q) rights k) lefts h)

-- A combination of a part, followed by one of the first of several expressions.
abbrev Then : (List String → Type 0) → Linked → List String → Type 0
Then P t ms =
    (first : List String) × (rest : List String) × (ms ≡ first ++ rest) × P first × Picks t rest

module _ (e : Evaluator) (sized : Sized e) where
  mutual
    unfolding evaluate Picks

    evaluate_states :
        (t : Linked) (P : List String → Type 0)
        → ((ms : List String) → Picks t ms → P ms)
        → All (Real e P) (evaluate e t)
    evaluate_states (model m) P f = (
      record {
        shaped = leaf_mask-Shaped e m;
        exact = leaf_mask-Exact e m sized;
        picked = f (m ∷ []) refl;
      },
      tt,
    )
    evaluate_states (set_of t) P f = evaluate_states t P f
    evaluate_states (either ts) P f = either_states ts P f [] tt
    evaluate_states (every ts) P f =
        every_states ts (λ ms. ms ≡ []) P
          (λ ms ns p q. f (ms ++ ns) (subst (λ xs. PicksEach ts (xs ++ ns)) (sym p) q)) _
          (
            record {
              shaped = new_mask-Shaped e.words;
              exact = λ m b p. has-new_mask e.words b;
              picked = refl;
            },
            tt,
          )

    either_states :
        (ts : Links) (P : List String → Type 0)
        → ((ms : List String) → PicksOne ts ms → P ms)
        → (states : List State) → All (Real e P) states
        → All (Real e P) (evaluate_either e ts states)
    either_states no_links P f states h = h
    either_states (link t ts) P f states h =
        either_states ts P (λ ms p. f ms (inr p)) _
          (add_all-All (Real e P) states _ h (evaluate_states t P (λ ms p. f ms (inl p))))

    every_states :
        (ts : Links) (P Q : List String → Type 0)
        → ((ms ns : List String) → P ms → PicksEach ts ns → Q (ms ++ ns))
        → (states : List State) → All (Real e P) states
        → All (Real e Q) (evaluate_every e ts states)
    every_states no_links P Q f states h =
        All-map (Real e P) (Real e Q)
          (Real-map e P Q (λ ms p. subst Q (append-nil ms) (f ms [] p refl))) states h
    every_states (link t ts) P Q f states h =
        every_states ts (Then P t) Q
          (λ ms ns (a, b, split, p, q) r.
            subst (λ xs. Q (xs ++ ns)) (sym split)
              (subst Q (sym (append_assoc a b ns)) (f a (b ++ ns) p (b, ns, refl, q, r))))
          _
          (combine-Real e P (Picks t) (Then P t) (λ ms ns p q. (ms, ns, refl, p, q)) states _ h
            (evaluate_states t (Picks t) (λ ms p. p)))

  -- For an evaluator whose masks have room for its bits, every state of the frontier is a
  -- combination of the expression: the witness holds its models, and the mask has the bits of
  -- exactly those that the query is about.
  pub evaluate-Real : (t : Linked) → All (Real e (Picks t)) (evaluate e t)
  evaluate-Real t = evaluate_states t (Picks t) (λ ms p. p)
