-- ===== src/Matrix/Program/Fits.antt =====
-- internal/matrix/program.go, Solve: what runs after the decision was carried out.
use llama_swap_macos_extende.Prelude.{
  ◌≡◌, inl, inr, refl, sym, ap, ◌∙◌, subst, Bool, true, false, ◌&&◌, not, String, List, [], ◌∷◌,
  Option, keep, All, Some, contains_string, str_eq, str_eq_iff, str_eq_refl, arith, Bool-cases, ℕ,
}
use llama_swap_macos_extende.Matrix.Evaluate.Choices.{Picks}
use llama_swap_macos_extende.Matrix.Program.{
  CompiledSet, Decision, compute_support, can_contain_all, solve,
}
use llama_swap_macos_extende.Matrix.Program.Solve.{DecidedBy, solve-Decided}
use llama_swap_macos_extende.Matrix.Program.Contain.{HasAll, Contains, can_contain_all-Contains}

-- The running models that stay.
abbrev pub staying : List String → List String → List String
staying evict running = keep (λ m. not (contains_string evict m)) running

contains-keep :
    (f : String → Bool)
    → (xs : List String) (m : String)
    → contains_string (keep f xs) m ≡ (contains_string xs m && f m)
contains-keep f [] m = refl
contains-keep f (x ∷ xs) m = elim (Bool-cases (str_eq x m)) [
  | inl e ↦
      let same : f x ≡ f m = ap f ((str_eq_iff x m).0 e) in ground (arith, contains-keep f xs m)
  | inr e ↦ ground (arith, contains-keep f xs m)
]

Some-keep_member :
    (P : CompiledSet → Type 0) (set : CompiledSet) (sets : List CompiledSet)
    → Some (λ s. s ≡ set) sets
    → P set
    → Some P sets
Some-keep_member P set [] h p = absurd h
Some-keep_member P set (s ∷ ss) (inl e) p = inl (subst P (sym e) p)
Some-keep_member P set (s ∷ ss) (inr h) p = inr (Some-keep_member P set ss h p)

Alone-Contains :
    (target : String) (sets : List CompiledSet)
    → All (λ set. (ms : List String) → Picks set.root ms → contains_string ms target ≡ false) sets
    → Some (Contains (target ∷ [])) sets
    → ⊥
Alone-Contains target [] a h = h
Alone-Contains target (s ∷ ss) a (inl (ms, q, all)) =
    absurd (ground (arith, a.0 ms q, all target (ground (arith, str_eq_refl target))))
Alone-Contains target (s ∷ ss) a (inr h) = Alone-Contains target ss a.1 h

-- The running models that stay, and the target, are all in the combination.
DecidedBy-HasAll :
    (costs : String → Option ℕ) (target : String) (running : List String) (d : Decision)
    → (set : CompiledSet) (ms : List String) → DecidedBy costs target running d set ms
    → HasAll (target ∷ staying d.evict running) ms
DecidedBy-HasAll costs target running d set ms h m c = elim (Bool-cases (str_eq target m)) [
  | inl e ↦ subst (λ k. contains_string ms k ≡ true) ((str_eq_iff target m).0 e) h.has_target
  | inr e ↦
      let stays = contains-keep (λ k. not (contains_string d.evict k)) running m in
      let gone : contains_string d.evict m
          ≡ (contains_string running m && not (contains_string ms m)) =
        ap (λ xs. contains_string xs m) h.evict
        ∙ contains-keep (λ k. not (contains_string ms k)) running m in
      ground arith
]

-- In a program compiled from sets, for a target that is not running and that some set can hold,
-- the target and the running models that the decision does not evict are together in one
-- combination of a set.
pub solve-can_contain_all :
    (costs : String → Option ℕ) (sets : List CompiledSet) (target : String) (running : List String)
    → contains_string running target ≡ false
    → can_contain_all (compute_support sets) (target ∷ []) ≡ true
    → can_contain_all
        (compute_support sets)
        (target ∷ staying (solve (compute_support sets) target running costs).evict running)
      ≡ true
solve-can_contain_all costs sets target running out known =
    elim (solve-Decided costs sets target running out) [
      | inl (set, ms, member, d) ↦ (can_contain_all-Contains sets target _).1 (
          Some-keep_member _ set _ member
            (ms, d.picks, DecidedBy-HasAll costs target running _ set ms d))
      | inr alone ↦
          absurd
            (Alone-Contains target _ alone.0 ((can_contain_all-Contains sets target []).0 known))
    ]
