-- ===== src/Matrix/Program/Solve.antt =====
-- internal/matrix/program.go, Solve: the decision for a target that is not running.
use llama_swap_macos_extende.Prelude.{
  ℕ, ◌≤◌, ◌≡◌, ◌⊎◌, inl, inr, refl, sym, ◌∙◌, subst, true, false, not, String, List, [], ◌∷◌,
  Option, none, some, keep, All, All-map, Some, contains_string, arith, Bool-cases, Option-cases,
  str_eq_refl,
}
use llama_swap_macos_extende.Matrix.Evaluate.Choices.{Picks}
use llama_swap_macos_extende.Matrix.Evaluate.Sound.{choices}
use llama_swap_macos_extende.Matrix.Evaluate.{Evaluator}
use llama_swap_macos_extende.Matrix.Program.{
  CompiledSet, Program, Decision, Best, best_set, compute_support, solve,
}
use llama_swap_macos_extende.Matrix.Program.Support.{compute_support-Supported}
use llama_swap_macos_extende.Matrix.Program.Costs.{
  Known, set_cost, missing-Exact, missing_cost-Exact, has-Exact,
}
use llama_swap_macos_extende.Matrix.Program.Cheapest.{
  Within, best_set_cheapest, Chosen, ChosenIf, best_set-Chosen, query, known,
}
use llama_swap_macos_extende.Matrix.Program.Flatten.{named, contains-flatten}

-- The decision is for the combination `ms` of the set.
pub record DecidedBy (costs : String → Option ℕ) (target : String) (running : List String)
    (d : Decision) (set : CompiledSet) (ms : List String) : Type 0 where
  pub picks : Picks set.root ms
  pub has_target : contains_string ms target ≡ true
  pub set_name : d.set_name ≡ set.name
  pub dsl : d.dsl ≡ set.dsl
  pub evict : d.evict ≡ keep (λ m. not (contains_string ms m)) running
  pub total_cost : d.total_cost ≡ set_cost costs ms running
  pub target_set :
      (m : String) → named m ≡ true → contains_string d.target_set m ≡ contains_string ms m

-- No set of the program has a combination with the target.
abbrev pub Alone : Program → String → Type 0
Alone p target =
    All (λ set. (ms : List String) → Picks set.root ms → contains_string ms target ≡ false) p.sets

abbrev pub Decided : (String → Option ℕ) → Program → String → List String → Decision → Type 0
Decided costs p target running d =
    ((set : CompiledSet) × (ms : List String) × Some (λ s. s ≡ set) p.sets
      × DecidedBy costs target running d set ms)
    ⊎ (Alone p target
        × (d.evict ≡ running)
        × (d.target_set ≡ target ∷ [])
        × (d.set_name ≡ "")
        × (d.dsl ≡ "")
        × (d.total_cost ≡ 0))

module _ (costs : String → Option ℕ) (sets : List CompiledSet) (target : String)
    (running : List String) where
  abbrev compiled : Program
  compiled = compute_support sets

  abbrev asked : Evaluator
  asked = query costs compiled target running

  abbrev found : Option Best
  found = best_set costs compiled asked target running compiled.sets none

  found-Chosen : ChosenIf costs compiled target running compiled.sets found
  found-Chosen =
      best_set-Chosen costs compiled target running compiled.sets compiled.sets none (λ s m. m) tt

  found-Within :
      All
        (λ set.
          (ms : List String)
          → Picks set.root ms
          → contains_string ms target ≡ true
          → Within (set_cost costs ms running) found)
        compiled.sets
  found-Within =
      best_set_cheapest costs compiled target running compiled.sets (compute_support-Supported sets)
        none

  -- A target that no set has a combination for.
  Alone-of_none : found ≡ none → Alone compiled target
  Alone-of_none e =
      All-map _ _
        (λ set w ms q. elim (Bool-cases (contains_string ms target)) [
          | inl c ↦ absurd (subst (Within (set_cost costs ms running)) e (w ms q c))
          | inr c ↦ c
        ])
        compiled.sets found-Within

  -- A choice is what the decision reports.
  DecidedBy-of_choice :
      contains_string running target ≡ false
      → (b : Best) → found ≡ some b
      → DecidedBy costs target running
          (solve compiled target running costs)
          b.set
          (choices b.state.witness)
  unfolding solve
  DecidedBy-of_choice out b e =
      let c : Chosen costs compiled target running compiled.sets b =
        subst (ChosenIf costs compiled target running compiled.sets) e found-Chosen in
      let start : Known asked running =
        λ m k. known costs compiled target running m (ground arith) in
      let (bit, at) =
        known costs compiled target running target (ground (arith, str_eq_refl target)) in
      let ms = choices b.state.witness in
      rw (out, e)
        (record {
          picks = c.real.picked;
          has_target =
              sym (has-Exact asked ms b.state.mask target bit at c.real.exact) ∙ c.eligible;
          set_name = refl;
          dsl = refl;
          evict = missing-Exact asked ms b.state.mask running start c.real.exact;
          total_cost =
              c.cost ∙ missing_cost-Exact costs asked ms b.state.mask running start c.real.exact;
          target_set = λ m n. contains-flatten b.state.witness m n;
        })

  -- In a program compiled from sets, for a target that is not running, the decision is for a
  -- combination of one of the sets: the combination has the target, the evicted models are the
  -- running ones that it lacks, the cost is the sum of their costs, and the target set has exactly
  -- its named models; or no set has a combination with the target, and the target runs alone, with
  -- all running models evicted.
  pub solve-Decided :
      contains_string running target ≡ false
      → Decided costs compiled target running (solve compiled target running costs)
  unfolding solve
  solve-Decided out = elim (Option-cases found) [
    | inl e ↦ inr (rw (out, e) (Alone-of_none e, refl, refl, refl, refl, refl))
    | inr (b, e) ↦
        let c : Chosen costs compiled target running compiled.sets b =
          subst (ChosenIf costs compiled target running compiled.sets) e found-Chosen in
        inl (b.set, choices b.state.witness, c.member, DecidedBy-of_choice out b e)
  ]

  -- In a program compiled from sets, for a target that is not running, the decision costs at most
  -- what any combination of any set that has the target would cost: the sum of the eviction costs
  -- of the running models that the combination lacks.
  pub solve_cheapest :
      contains_string running target ≡ false
      → All
          (λ set.
            (ms : List String)
            → Picks set.root ms
            → contains_string ms target ≡ true
            → (solve compiled target running costs).total_cost ≤ set_cost costs ms running)
          compiled.sets
  unfolding solve
  solve_cheapest out =
      All-map _ _
        (λ set w ms q c. elim (Option-cases found) [
          | inl e ↦ absurd (subst (Within (set_cost costs ms running)) e (w ms q c))
          | inr (b, e) ↦ rw (out, e) (subst (Within (set_cost costs ms running)) e (w ms q c))
        ])
        compiled.sets found-Within
