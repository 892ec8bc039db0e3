-- ===== src/Matrix/Program/Cheapest.antt =====
-- internal/matrix/program.go, Solve: the chosen set, and what it costs.
use llama_swap_macos_extende.Prelude.{
  ℕ, ◌≤◌, ◌≡◌, ◌⊎◌, inl, inr, refl, sym, subst, true, not, String, List, [], ◌∷◌, Option, none,
  some, All, Some, Some-map, if_cases, if◌then◌else◌, contains_string, str_eq_refl, arith,
}
use llama_swap_macos_extende.Matrix.Masks.{has}
use llama_swap_macos_extende.Matrix.Evaluate.{
  Evaluator, State, bit_or_zero, new_evaluator, evaluate,
}
use llama_swap_macos_extende.Matrix.Evaluate.Choices.{Picks}
use llama_swap_macos_extende.Matrix.Evaluate.Registry.{new_evaluator-bit, new_evaluator-Sized}
use llama_swap_macos_extende.Matrix.Evaluate.Sound.{Real, evaluate-Real}
use llama_swap_macos_extende.Matrix.Evaluate.Complete.{Above, evaluate-Above}
use llama_swap_macos_extende.Matrix.Program.{
  CompiledSet, Program, Best, improves, best_state, best_set, missing_cost, supports,
}
use llama_swap_macos_extende.Matrix.Program.Support.{Supported, bit_or_zero-bit}
use llama_swap_macos_extende.Matrix.Program.Costs.{set_cost, Known, missing_cost-Above}

-- There is a choice, and it costs at most `n`.
abbrev pub Within : ℕ → Option Best → Type 0
Within n none = ⊥
Within n (some b) = b.cost ≤ n

module _ (costs : String → Option ℕ) (p : Program) (target : String) (running : List String) where
  abbrev pub query : Evaluator
  query = new_evaluator (target ∷ running)

  abbrev cost_of : State → ℕ
  cost_of s = missing_cost costs query s.mask running

  abbrev Eligible : State → Type 0
  Eligible s = has s.mask (bit_or_zero query.model_bits target) ≡ true

  pub known : Known query (target ∷ running)
  known m c = new_evaluator-bit (target ∷ running) m c

  abbrev Candidate : ℕ → State → Type 0
  Candidate n s = Eligible s × (cost_of s ≤ n)

  -- The choice after one more state.
  abbrev next_best : CompiledSet → State → Option Best → Option Best
  next_best set s best =
      if not (has s.mask (bit_or_zero query.model_bits target))
      then best
      else if improves (cost_of s) best
      then some (record { cost = cost_of s; set = set; state = s })
      else best

  next_best-Within :
      (n : ℕ) (set : CompiledSet) (s : State) (best : Option Best)
      → Within n best
      → Within n (next_best set s best)
  next_best-Within n set s none h = absurd h
  next_best-Within n set s (some b) h =
      if_cases (Within n) (not (has s.mask (bit_or_zero query.model_bits target))) _ _ (λ _. h)
        (λ _. if_cases (Within n) (improves (cost_of s) (some b)) _ _ (λ i. ground arith) (λ _. h))

  next_best-Candidate :
      (n : ℕ) (set : CompiledSet) (s : State) (best : Option Best)
      → Candidate n s
      → Within n (next_best set s best)
  next_best-Candidate n set s none (el, le) = rw el le
  next_best-Candidate n set s (some b) (el, le) =
      rw el (if_cases (Within n) (improves (cost_of s) (some b)) _ _ (λ _. le) (λ i. ground arith))

  best_state-Within :
      (n : ℕ) (set : CompiledSet) (states : List State) (best : Option Best)
      → Within n best ⊎ Some (Candidate n) states
      → Within n (best_state costs query target running set states best)
  unfolding best_state
  best_state-Within n set [] best (inl h) = h
  best_state-Within n set [] best (inr h) = absurd h
  best_state-Within n set (s ∷ ss) best (inl h) =
      best_state-Within n set ss (next_best set s best) (inl (next_best-Within n set s best h))
  best_state-Within n set (s ∷ ss) best (inr (inl c)) =
      best_state-Within n set ss (next_best set s best) (inl (next_best-Candidate n set s best c))
  best_state-Within n set (s ∷ ss) best (inr (inr h)) =
      best_state-Within n set ss (next_best set s best) (inr h)

  abbrev Offers : ℕ → CompiledSet → Type 0
  Offers n set = (supports p set target ≡ true) × Some (Candidate n) (evaluate query set.root)

  best_set-Within :
      (n : ℕ) (sets : List CompiledSet) (best : Option Best)
      → Within n best ⊎ Some (Offers n) sets
      → Within n (best_set costs p query target running sets best)
  unfolding best_set
  best_set-Within n [] best (inl h) = h
  best_set-Within n [] best (inr h) = absurd h
  best_set-Within n (set ∷ sets) best (inl h) = best_set-Within n sets _ (
      inl (
        if_cases (Within n) (supports p set target) _ _
          (λ _. best_state-Within n set (evaluate query set.root) best (inl h)) (λ _. h)))
  best_set-Within n (set ∷ sets) best (inr (inl o)) =
      best_set-Within n sets _
        (inl (rw o.0 (best_state-Within n set (evaluate query set.root) best (inr o.1))))
  best_set-Within n (set ∷ sets) best (inr (inr h)) = best_set-Within n sets _ (inr h)

  -- The loops end with a choice that costs no more than any combination with the target.
  pub best_set_cheapest :
      (sets : List CompiledSet)
      → All (Supported p) sets
      → (best : Option Best)
      → All
          (λ set.
            (ms : List String)
            → Picks set.root ms
            → contains_string ms target ≡ true
            → Within (set_cost costs ms running) (best_set costs p query target running sets best))
          sets
  best_set_cheapest sets sup best = each sets sup (λ n o. best_set-Within n sets best (inr o))
    where
      each :
          (rest : List CompiledSet)
          → All (Supported p) rest
          → ((n : ℕ)
              → Some (Offers n) rest
              → Within n (best_set costs p query target running sets best))
          → All
              (λ set.
                (ms : List String)
                → Picks set.root ms
                → contains_string ms target ≡ true
                → Within
                    (set_cost costs ms running)
                    (best_set costs p query target running sets best))
              rest
      each [] s f = tt
      each (set ∷ rest) s f = (
        λ ms q c.
            let (b, at) = known target (ground (arith, str_eq_refl target)) in
            let place = bit_or_zero-bit query.model_bits target b at in
            f (set_cost costs ms running) (
              inl (
                s.0 ms target q c,
                Some-map (λ t. Above query ms t.mask) (Candidate (set_cost costs ms running))
                    (λ t above. (
                      subst (λ k. has t.mask k ≡ true) (sym place) (above target b at c),
                      missing_cost-Above costs query ms t.mask running
                          (λ m k. known m (ground arith)) above,
                    ))
                    (evaluate query set.root)
                    (evaluate-Above query (new_evaluator-Sized (target ∷ running)) set.root ms q),
              )),
        each rest s.1 (λ n o. f n (inr o)),
      )

  -- A choice that was made for a state with the target, of a set of the list.
  pub record Chosen (sets : List CompiledSet) (b : Best) : Type 0 where
    pub member : Some (λ s. s ≡ b.set) sets
    pub real : Real query (Picks b.set.root) b.state
    pub eligible : Eligible b.state
    pub cost : b.cost ≡ cost_of b.state

  abbrev pub ChosenIf : List CompiledSet → Option Best → Type 0
  ChosenIf sets none = Unit
  ChosenIf sets (some b) = Chosen sets b

  next_best-Chosen :
      (sets : List CompiledSet) (set : CompiledSet) (s : State) (best : Option Best)
      → Some (λ x. x ≡ set) sets
      → Real query (Picks set.root) s
      → ChosenIf sets best
      → ChosenIf sets (next_best set s best)
  next_best-Chosen sets set s best m r h =
      if_cases (ChosenIf sets) (not (has s.mask (bit_or_zero query.model_bits target))) _ _ (λ _. h)
        (λ e.
          if_cases (ChosenIf sets) (improves (cost_of s) best) _ _
            (λ _. record { member = m; real = r; eligible = ground arith; cost = refl }) (λ _. h))

  best_state-Chosen :
      (sets : List CompiledSet) (set : CompiledSet) (states : List State) (best : Option Best)
      → Some (λ x. x ≡ set) sets
      → All (Real query (Picks set.root)) states
      → ChosenIf sets best
      → ChosenIf sets (best_state costs query target running set states best)
  unfolding best_state
  best_state-Chosen sets set [] best m r h = h
  best_state-Chosen sets set (s ∷ ss) best m r h =
      best_state-Chosen sets set ss (next_best set s best) m r.1
        (next_best-Chosen sets set s best m r.0 h)

  pub best_set-Chosen :
      (all sets : List CompiledSet) (best : Option Best)
      → ((s : CompiledSet) → Some (λ x. x ≡ s) sets → Some (λ x. x ≡ s) all)
      → ChosenIf all best
      → ChosenIf all (best_set costs p query target running sets best)
  unfolding best_set
  best_set-Chosen all [] best inside h = h
  best_set-Chosen all (set ∷ sets) best inside h =
      best_set-Chosen all sets _ (λ s m. inside s (inr m))
        (if_cases (ChosenIf all) (supports p set target) _ _
          (λ _.
            best_state-Chosen all set (evaluate query set.root) best (inside set (inl refl))
              (evaluate-Real query (new_evaluator-Sized (target ∷ running)) set.root) h)
          (λ _. h))
