-- ===== src/Matrix/Program/Flatten.antt =====
-- internal/matrix/program.go, flattenWitness: which models the target set has.
use llama_swap_macos_extende.Prelude.{
  ◌≡◌, refl, sym, ap, ◌∙◌, subst, Bool, true, false, ◌||◌, ◌&&◌, not, String, List, [], ◌∷◌,
  if_cases, str_eq, str_eq_iff, contains_string, arith, Bool-cases, inl, inr,
}
use llama_swap_macos_extende.Scheduler.Swaps.{string_lt, insert_string, sort_strings}
use llama_swap_macos_extende.Matrix.Evaluate.{Witness, none_chosen, chosen, pair}
use llama_swap_macos_extende.Matrix.Evaluate.Registry.{contains-append}
use llama_swap_macos_extende.Matrix.Evaluate.Sound.{choices}
use llama_swap_macos_extende.Matrix.Program.{visit, flatten_witness}

contains-insert :
    (x : String) (ys : List String) (m : String)
    → contains_string (insert_string x ys) m ≡ (str_eq x m || contains_string ys m)
unfolding insert_string
contains-insert x [] m = refl
contains-insert x (y ∷ ys) m =
    if_cases (λ zs. contains_string zs m ≡ (str_eq x m || contains_string (y ∷ ys) m))
      (string_lt y x) (y ∷ insert_string x ys) (x ∷ y ∷ ys)
      (λ e. ground (arith, contains-insert x ys m)) (λ e. refl)

contains-sort :
    (xs : List String) (m : String) → contains_string (sort_strings xs) m ≡ contains_string xs m
unfolding sort_strings
contains-sort [] m = refl
contains-sort (x ∷ xs) m =
    contains-insert x (sort_strings xs) m ∙ ap (λ b. str_eq x m || b) (contains-sort xs m)

-- A model that is named.
abbrev pub named : String → Bool
named m = not (str_eq m "")

contains-visit :
    (w : Witness) (models : List String) (m : String)
    → named m ≡ true
    → contains_string (visit w models) m
      ≡ (contains_string models m || contains_string (choices w) m)
unfolding visit
contains-visit none_chosen models m e = ground arith
contains-visit (chosen n) models m e =
    if_cases (λ zs. contains_string zs m ≡ (contains_string models m || contains_string (n ∷ []) m))
      _ _ _ (λ c. contains-append models (n ∷ []) m)
      (λ c. elim (Bool-cases (str_eq n m)) [
        | inl s ↦
            let same : n ≡ m = (str_eq_iff n m).0 s in
            let there : contains_string models m ≡ true =
              subst (λ k. contains_string models k ≡ true) same
                (held n (subst (λ k. named k ≡ true) (sym same) e) c) in
            ground arith
        | inr s ↦ ground arith
      ])
  where
    held :
        (k : String)
        → named k ≡ true
        → (named k && not (contains_string models k)) ≡ false
        → contains_string models k ≡ true
    held k a b = ground arith
contains-visit (pair left right) models m e =
    contains-visit right (visit left models) m e
    ∙ ap (λ b. b || contains_string (choices right) m) (contains-visit left models m e)
    ∙ regroup (contains_string models m) (contains_string (choices left) m)
        (contains_string (choices right) m)
    ∙ ap (λ b. contains_string models m || b)
        (sym (contains-append (choices left) (choices right) m))
  where
    regroup : (a b c : Bool) → ((a || b) || c) ≡ (a || (b || c))
    regroup a b c = ground arith

pub contains-flatten :
    (w : Witness) (m : String)
    → named m ≡ true
    → contains_string (flatten_witness w) m ≡ contains_string (choices w) m
unfolding flatten_witness
contains-flatten w m e = contains-sort (visit w []) m ∙ contains-visit w [] m e
