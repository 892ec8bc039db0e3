-- ===== src/Matrix/Program/Contain.antt =====
-- internal/matrix/program.go, CanContainAll: the question that it answers.
use llama_swap_macos_extende.Prelude.{
  ◌≡◌, ◌↔◌, inl, inr, refl, sym, ◌∙◌, Bool, true, ◌&&◌, String, List, [], ◌∷◌, All, Some, Some-map,
  Some-of_any, any, contains_string, str_eq_refl, arith,
}
use llama_swap_macos_extende.Matrix.Masks.{has, subset_of}
use llama_swap_macos_extende.Matrix.Masks.Laws.{subset_of-has, subset_of-has'}
use llama_swap_macos_extende.Matrix.Evaluate.{State, Evaluator, full_mask, new_evaluator, evaluate}
use llama_swap_macos_extende.Matrix.Evaluate.Choices.{Picks}
use llama_swap_macos_extende.Matrix.Evaluate.Registry.{
  new_evaluator-bit, new_evaluator-Sized, bit_of-lt,
}
use llama_swap_macos_extende.Matrix.Evaluate.Sound.{Real, choices, evaluate-Real}
use llama_swap_macos_extende.Matrix.Evaluate.Complete.{Above, evaluate-Above}
use llama_swap_macos_extende.Matrix.Evaluate.Onto.{
  new_evaluator-Onto, full_mask-Shaped, has-full_mask,
}
use llama_swap_macos_extende.Matrix.Program.{
  CompiledSet, Program, supports_all, holds_all, compute_support, can_contain_all,
}
use llama_swap_macos_extende.Matrix.Program.Support.{Supported, compute_support-Supported}

-- The combination has every model of the list.
abbrev pub HasAll : List String → List String → Type 0
HasAll models ms = (m : String) → contains_string models m ≡ true → contains_string ms m ≡ true

-- The set has a combination with every model of the list.
abbrev pub Contains : List String → CompiledSet → Type 0
Contains models set = (ms : List String) × Picks set.root ms × HasAll models ms

any_of_Some :
    {A : Type 0} (P : A → Type 0) (f : A → Bool)
    → ((x : A) → P x → f x ≡ true)
    → (xs : List A) → Some P xs
    → any f xs ≡ true
any_of_Some P f to [] h = absurd h
any_of_Some P f to (x ∷ xs) (inl h) = rw (to x h)
any_of_Some P f to (x ∷ xs) (inr h) = ground (arith, any_of_Some P f to xs h)

module _ (models : List String) where
  abbrev asked : Evaluator
  asked = new_evaluator models

  HasAll-of_subset :
      (P : List String → Type 0) (s : State)
      → Real asked P s
      → subset_of (full_mask asked) s.mask ≡ true
      → HasAll models (choices s.witness)
  HasAll-of_subset P s r sub m c =
      let (b, at) = new_evaluator-bit models m c in
      let inside : has (full_mask asked) b ≡ true =
        has-full_mask asked b (new_evaluator-Sized models)
        ∙ ground (arith, bit_of-lt asked.model_bits m b at) in
      sym (r.exact m b at) ∙ subset_of-has (full_mask asked) s.mask b sub inside

  subset_of-Above :
      (ms : List String) (s : State)
      → HasAll models ms
      → Above asked ms s.mask
      → subset_of (full_mask asked) s.mask ≡ true
  subset_of-Above ms s all above =
      subset_of-has' asked.words (full_mask asked) s.mask (full_mask-Shaped asked) (λ b h.
        let low = has-full_mask asked b (new_evaluator-Sized models) in
        let (m, c, at) = new_evaluator-Onto models b (ground arith) in above m b at (all m c))

  -- The query holds exactly of the sets that have the combination.
  holds_all-Contains : (set : CompiledSet) → holds_all asked set ≡ true → Contains models set
  unfolding holds_all
  holds_all-Contains set e =
      pick (evaluate asked set.root) (evaluate-Real asked (new_evaluator-Sized models) set.root)
        (Some-of_any (λ s. subset_of (full_mask asked) s.mask) _ e)
    where
      pick :
          (states : List State)
          → All (Real asked (Picks set.root)) states
          → Some (λ s. subset_of (full_mask asked) s.mask ≡ true) states
          → Contains models set
      pick [] r h = absurd h
      pick (s ∷ ss) r (inl h) =
          (choices s.witness, r.0.picked, HasAll-of_subset (Picks set.root) s r.0 h)
      pick (s ∷ ss) r (inr h) = pick ss r.1 h

  holds_all-Contains' : (set : CompiledSet) → Contains models set → holds_all asked set ≡ true
  unfolding holds_all
  holds_all-Contains' set (ms, q, all) =
      any_of_Some (λ s. Above asked ms s.mask) (λ s. subset_of (full_mask asked) s.mask)
        (λ s above. subset_of-Above ms s all above) (evaluate asked set.root)
        (evaluate-Above asked (new_evaluator-Sized models) set.root ms q)

supports_all-Contains :
    (p : Program) (set : CompiledSet) (models : List String)
    → Supported p set
    → Contains models set
    → supports_all p set models ≡ true
unfolding supports_all
supports_all-Contains p set [] sup h = refl
supports_all-Contains p set (m ∷ models) sup (ms, q, all) =
    let here = sup ms m q (all m (ground (arith, str_eq_refl m))) in
    let rest = supports_all-Contains p set models sup (ms, q, λ n c. all n (ground arith)) in
    rw (here, rest)

any_of_Contains :
    (p : Program) (models : List String) (sets : List CompiledSet)
    → All (Supported p) sets
    → Some (Contains models) sets
    → any (λ set. supports_all p set models && holds_all (new_evaluator models) set) sets ≡ true
any_of_Contains p models [] sup h = absurd h
any_of_Contains p models (set ∷ sets) sup (inl h) =
    rw (supports_all-Contains p set models sup.0 h, holds_all-Contains' models set h)
any_of_Contains p models (set ∷ sets) sup (inr h) =
    ground (arith, any_of_Contains p models sets sup.1 h)

-- In a program compiled from sets, for one model or more, the answer of CanContainAll is true
-- exactly if some set has a combination with all the models.
pub can_contain_all-Contains :
    (sets : List CompiledSet) (m : String) (models : List String)
    → (can_contain_all (compute_support sets) (m ∷ models) ≡ true)
      ↔ Some (Contains (m ∷ models)) (compute_support sets).sets
unfolding can_contain_all
can_contain_all-Contains sets m models = (
  λ e.
      Some-map _ (Contains (m ∷ models))
        (λ set h. holds_all-Contains (m ∷ models) set (ground arith)) _ (Some-of_any _ _ e),
  λ h.
      any_of_Contains (compute_support sets) (m ∷ models) (compute_support sets).sets
        (compute_support-Supported sets) h,
)
