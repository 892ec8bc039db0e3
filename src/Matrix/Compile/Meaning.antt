-- ===== src/Matrix/Compile/Meaning.antt =====
-- internal/matrix/program.go, Compile: the sets of the program stand for what their expressions say.
use llama_swap_macos_extende.Prelude.{
  ℕ, ◌≡◌, ◌↔◌, inl, inr, refl, sym, ap, ◌∙◌, subst, String, List, [], ◌∷◌, Option, none, some, All,
  map, length, update, str_eq, str_eq_iff, if_cases, arith, Option-cases,
}
use llama_swap_macos_extende.Matrix.Syntax.{Linked}
use llama_swap_macos_extende.Matrix.Dsl.{Unicode}
use llama_swap_macos_extende.Matrix.Evaluate.Choices.{Picks}
use llama_swap_macos_extende.Matrix.Program.{
  CompiledSet, Program, register_sets, with_support, compute_support,
}
use llama_swap_macos_extende.Matrix.Evaluate.{words_for}
use llama_swap_macos_extende.Matrix.Compile.{
  Definition, CompileError, unlinked, Outcome, error, ok, Parsed, parse_definitions,
  topological_order, deps_of, find_parsed, link_node, link_sets, compile,
}
use llama_swap_macos_extende.Matrix.Compile.Order.Visits.{Outcome-cases}
use llama_swap_macos_extende.Matrix.Compile.Stands.{Stands, RootsStand, LinksTo, link_node-LinksTo}

-- The set is one that was parsed, and its combinations are those of the parsed expression.
abbrev pub SetStands : (String → Option Parsed) → CompiledSet → Type 0
SetStands find set =
    (p : Parsed) × (find set.name ≡ some p)
    × ((ms : List String) → Picks set.root ms ↔ Stands find p.root ms)

RootsStand-update :
    (find : String → Option Parsed) (roots : String → Option Linked) (name : String) (root : Linked)
    (p : Parsed)
    → find name ≡ some p
    → ((ms : List String) → Picks root ms ↔ Stands find p.root ms)
    → RootsStand find roots
    → RootsStand find (update roots name (some root))
RootsStand-update find roots name root p known both r s l =
    if_cases
      (λ o.
        o ≡ some l
        → (q : Parsed) × (find s ≡ some q)
          × ((ms : List String) → Picks l ms ↔ Stands find q.root ms))
      (str_eq s name) (some root) (roots s)
      (λ e h.
        let same : root ≡ l = ap (λ o. elim o [ none ↦ root | some x ↦ x ]) h in
        (
          p,
          ap find ((str_eq_iff s name).0 e) ∙ known,
          λ ms. subst (λ x. Picks x ms ↔ Stands find p.root ms) same (both ms),
        ))
      (λ e h. r s l h)

abbrev AllStand : (String → Option Parsed) → Outcome (List CompiledSet) → Type 0
AllStand find (error e) = Unit
AllStand find (ok sets) = All (SetStands find) sets

-- One more set is linked, or not.
link_sets-none :
    (ps : List Parsed) (roots : String → Option Linked) (name : String) (names : List String)
    → find_parsed ps name ≡ none
    → link_sets ps roots (name ∷ names) ≡ error (unlinked name)
unfolding link_sets
link_sets-none ps roots name names e = rw (e, link_sets) refl

link_sets-error :
    (ps : List Parsed) (roots : String → Option Linked) (name : String) (names : List String)
    → (p : Parsed) (x : CompileError) → find_parsed ps name ≡ some p
    → link_node roots p.root ≡ error x
    → link_sets ps roots (name ∷ names) ≡ error x
unfolding link_sets
link_sets-error ps roots name names p x e h = rw (e, h, link_sets) refl

link_sets-later :
    (ps : List Parsed) (roots : String → Option Linked) (name : String) (names : List String)
    → (p : Parsed) (root : Linked) (x : CompileError) → find_parsed ps name ≡ some p
    → link_node roots p.root ≡ ok root
    → link_sets ps (update roots name (some root)) names ≡ error x
    → link_sets ps roots (name ∷ names) ≡ error x
unfolding link_sets
link_sets-later ps roots name names p root x e h k = rw (e, h, k, link_sets) refl

link_sets-ok :
    (ps : List Parsed) (roots : String → Option Linked) (name : String) (names : List String)
    → (p : Parsed) (root : Linked) (sets : List CompiledSet) → find_parsed ps name ≡ some p
    → link_node roots p.root ≡ ok root
    → link_sets ps (update roots name (some root)) names ≡ ok sets
    → link_sets ps roots (name ∷ names)
      ≡ ok (record { name = name; dsl = p.dsl; root = root; support = [] } ∷ sets)
unfolding link_sets
link_sets-ok ps roots name names p root sets e h k = rw (e, h, k, link_sets) refl

link_sets-AllStand :
    (ps : List Parsed) (order : List String) (roots : String → Option Linked)
    → RootsStand (find_parsed ps) roots
    → AllStand (find_parsed ps) (link_sets ps roots order)
unfolding link_sets
link_sets-AllStand ps [] roots r = tt
link_sets-AllStand ps (name ∷ names) roots r = elim (Option-cases (find_parsed ps name)) [
  | inl e ↦ subst (AllStand (find_parsed ps)) (sym (link_sets-none ps roots name names e)) tt
  | inr (p, e) ↦
      let here = link_node-LinksTo (find_parsed ps) roots r p.root in
      elim (Outcome-cases (link_node roots p.root)) [
        | inl (x, h) ↦
            subst (AllStand (find_parsed ps)) (sym (link_sets-error ps roots name names p x e h)) tt
        | inr (root, h) ↦
            let both = subst (LinksTo (find_parsed ps) roots p.root) h here in
            let rest =
              link_sets-AllStand ps names (update roots name (some root))
                (RootsStand-update (find_parsed ps) roots name root p e both r) in
            elim (Outcome-cases (link_sets ps (update roots name (some root)) names)) [
              | inl (x, k) ↦
                  subst (AllStand (find_parsed ps))
                    (sym (link_sets-later ps roots name names p root x e h k)) tt
              | inr (sets, k) ↦
                  subst (AllStand (find_parsed ps))
                    (sym (link_sets-ok ps roots name names p root sets e h k))
                    ((p, e, both), subst (AllStand (find_parsed ps)) k rest)
            ]
      ]
]

with_support-All :
    (find : String → Option Parsed) (bits : List String) (words : ℕ) (sets : List CompiledSet)
    → All (SetStands find) sets
    → All (SetStands find) (map (with_support bits words) sets)
unfolding with_support
with_support-All find bits words [] h = tt
with_support-All find bits words (s ∷ ss) h = (h.0, with_support-All find bits words ss h.1)

compute_support-All :
    (find : String → Option Parsed) (sets : List CompiledSet)
    → All (SetStands find) sets
    → All (SetStands find) (compute_support sets).sets
unfolding compute_support
compute_support-All find sets h =
    with_support-All find (register_sets [] sets) (words_for (length (register_sets [] sets))) sets
      h

-- What a program that was compiled has to be.
abbrev pub Means : Outcome (List Parsed) → Outcome Program → Type 0
Means parsed (error e) = Unit
Means parsed (ok p) =
    (ps : List Parsed) × (parsed ≡ ok ps) × All (SetStands (find_parsed ps)) p.sets

compile-Means :
    (u : Unicode) (resolve : String → Option String) (ds : List Definition)
    → Means (parse_definitions u resolve (map (λ x. x.name) ds) ds) (compile u resolve ds)
unfolding compile
compile-Means u resolve [] = tt
compile-Means u resolve (d ∷ ds) =
    let names = map (λ x. x.name) (d ∷ ds) in
    let parsed = parse_definitions u resolve names (d ∷ ds) in
    elim (Outcome-cases parsed) [
      | inl (e, h) ↦ rw (h, compile, Means) tt
      | inr (ps, h) ↦ elim (Outcome-cases (topological_order names (deps_of ps))) [
        | inl (e, k) ↦ rw (h, k, compile, Means) tt
        | inr (order, k) ↦
            let stand = link_sets-AllStand ps order (λ _. none) (λ s l e. absurd (ground arith)) in
            elim (Outcome-cases (link_sets ps (λ _. none) order)) [
              | inl (e, j) ↦ rw (h, k, j, compile, Means) tt
              | inr (sets, j) ↦
                  rw (h, k, j, compile, Means)
                    (
                      ps,
                      h,
                      compute_support-All (find_parsed ps) sets
                          (subst (AllStand (find_parsed ps)) j stand),
                    )
            ]
      ]
    ]

-- If the compilation succeeds, the definitions were parsed, and every set of the program is one of
-- them, whose combinations are exactly those that its parsed expression stands for, where a
-- reference stands for the combinations of the set that it names.
pub compile-SetStands :
    (u : Unicode) (resolve : String → Option String) (ds : List Definition) (p : Program)
    → compile u resolve ds ≡ ok p
    → (ps : List Parsed) × (parse_definitions u resolve (map (λ x. x.name) ds) ds ≡ ok ps)
      × All (SetStands (find_parsed ps)) p.sets
compile-SetStands u resolve ds p e =
    subst (Means (parse_definitions u resolve (map (λ x. x.name) ds) ds)) e
      (compile-Means u resolve ds)
