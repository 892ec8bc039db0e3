-- ===== src/Matrix/Compile/Finish.antt =====
-- internal/matrix/program.go, Compile: the references of the sets and their links.
pub mod Refs
use llama_swap_macos_extende.Prelude.{
  ℕ, ◌≡◌, ◌≢◌, ◌⊎◌, inl, inr, refl, sym, ap, ◌∙◌, subst, Bool, true, false, not, String, List, [],
  ◌∷◌, ◌++◌, Option, none, some, map, All, contains_string, str_eq, str_eq_iff, str_eq_refl, update,
  arith, Bool-cases, Option-cases,
}
use llama_swap_macos_extende.Matrix.Evaluate.Registry.{contains-append}
use llama_swap_macos_extende.Matrix.Dsl.{
  Unicode, DslError, Result, failed, done, Result-cases, is_fuel,
}
use llama_swap_macos_extende.Matrix.Dsl.Parser.{parse_dsl}
use llama_swap_macos_extende.Matrix.Dsl.Finish.{Finished, parse_dsl-Finished}
use llama_swap_macos_extende.Matrix.Syntax.{Node, Linked}
use llama_swap_macos_extende.Matrix.Program.{CompiledSet, Program, compute_support}
use llama_swap_macos_extende.Matrix.Compile.{
  Definition, CompileError, no_sets, in_set, unknown_model, undefined_set, circular, unlinked,
  out_of_fuel, Outcome, error, ok, Parsed, resolve_node, add_refs, parse_definition,
  parse_definitions, topological_order, find_parsed, deps_of, link_node, link_sets, compile,
}
use llama_swap_macos_extende.Matrix.Compile.Order.{Ordered}
use llama_swap_macos_extende.Matrix.Compile.Order.Marks.{str_eq_swap}
use llama_swap_macos_extende.Matrix.Compile.Order.Visits.{
  IsCircle, IsOrderOrCircle, Outcome-cases, topological_order_lem,
}
use llama_swap_macos_extende.Matrix.Compile.Finish.Refs.{
  RefsIn, RefsIn-map, WalkError, Resolves, Rooted, resolve_node-RefsIn, add_refs-RefsIn,
  add_refs_only, link_node-IsOk, IsOk,
}

-- An error that the program has.
abbrev pub is_reported : CompileError → Bool
is_reported (in_set name e) = not (is_fuel e)
is_reported (unlinked s) = false
is_reported out_of_fuel = false
is_reported _ = true

abbrev Names : List String → String → Type 0
Names names s = contains_string names s ≡ true

-- The references of a parsed set are those of its expression, and are sets.
record Parses (names : List String) (p : Parsed) : Type 0 where
  refs : RefsIn (Names p.refs) p.root
  sets : (s : String) → Names p.refs s → Names names s

abbrev Reported : {A : Type 0} → (A → Type 0) → Outcome A → Type 0
Reported P (error e) = is_reported e ≡ true
Reported P (ok a) = P a

is_reported-WalkError : (e : CompileError) → WalkError e → is_reported e ≡ true
is_reported-WalkError (unknown_model name m) w = refl
is_reported-WalkError (undefined_set name s) w = refl
is_reported-WalkError no_sets w = refl
is_reported-WalkError (in_set name e) w = absurd w
is_reported-WalkError (circular s) w = refl
is_reported-WalkError (unlinked s) w = absurd w
is_reported-WalkError out_of_fuel w = absurd w

parse_definition-Reported :
    (u : Unicode) (resolve : String → Option String) (names : List String) (d : Definition)
    → Reported (λ p. Parses names p × (p.name ≡ d.name)) (parse_definition u resolve names d)
unfolding parse_definition
parse_definition-Reported u resolve names d =
    let here = parse_dsl-Finished u d.dsl in
    elim (Result-cases (parse_dsl u d.dsl)) [
      | inl (e, h) ↦ rw (h, parse_definition) (ground (arith, subst Finished h here))
      | inr (root, h) ↦ elim (Outcome-cases (resolve_node resolve names d.name root)) [
        | inl (e, k) ↦
            rw (h, k, parse_definition)
              (is_reported-WalkError e (
                subst (Resolves (RefsIn (Names names))) k
                  (resolve_node-RefsIn resolve names d.name root)))
        | inr (t, k) ↦
            rw (h, k, parse_definition)
              (
                record {
                  refs = add_refs-RefsIn (add_refs [] t) [] t (λ s x. x);
                  sets = λ s x.
                      add_refs_only names [] t
                        (subst (Resolves (RefsIn (Names names))) k
                          (resolve_node-RefsIn resolve names d.name root))
                        (λ r y. absurd (ground arith)) s x;
                },
                refl,
              )
      ]
    ]

abbrev ParsedAs : List String → List Definition → List Parsed → Type 0
ParsedAs names ds ps = All (Parses names) ps × (map (λ x. x.name) ps ≡ map (λ x. x.name) ds)

parse_definitions-Reported :
    (u : Unicode) (resolve : String → Option String) (names : List String) (ds : List Definition)
    → Reported (ParsedAs names ds) (parse_definitions u resolve names ds)
unfolding parse_definitions
parse_definitions-Reported u resolve names [] = (tt, refl)
parse_definitions-Reported u resolve names (d ∷ ds) =
    let here = parse_definition-Reported u resolve names d in
    let rest = parse_definitions-Reported u resolve names ds in
    elim (Outcome-cases (parse_definition u resolve names d)) [
      | inl (e, h) ↦
          rw (h, parse_definitions)
            (subst (Reported (λ q. Parses names q × (q.name ≡ d.name))) h here)
      | inr (p, h) ↦ elim (Outcome-cases (parse_definitions u resolve names ds)) [
        | inl (e, k) ↦ rw (h, k, parse_definitions) (subst (Reported (ParsedAs names ds)) k rest)
        | inr (ps, k) ↦
            let one = subst (Reported (λ q. Parses names q × (q.name ≡ d.name))) h here in
            let (all, same) = subst (Reported (ParsedAs names ds)) k rest in
            rw (h, k, parse_definitions)
              ((one.0, all), ap (λ n. n ∷ map (λ x. x.name) ps) one.1 ∙ ap (λ ns. d.name ∷ ns) same)
      ]
    ]

find_parsed-some :
    (ps : List Parsed) (s : String)
    → contains_string (map (λ x. x.name) ps) s ≡ true
    → (p : Parsed) × (find_parsed ps s ≡ some p)
unfolding find_parsed
find_parsed-some [] s e = absurd (ground arith)
find_parsed-some (p ∷ ps) s e = elim (Option-cases (find_parsed ps s)) [
  | inr (q, h) ↦ (q, rw (h, find_parsed) refl)
  | inl h ↦ elim (Bool-cases (str_eq p.name s)) [
    | inl n ↦ (p, rw (h, n, find_parsed) refl)
    | inr n ↦ let (q, k) = find_parsed-some ps s (ground arith) in absurd (ground arith)
  ]
]

find_parsed-All :
    (P : Parsed → Type 0) (ps : List Parsed) (s : String) (p : Parsed)
    → All P ps
    → find_parsed ps s ≡ some p
    → P p
unfolding find_parsed
find_parsed-All P [] s p all e = absurd (ground arith)
find_parsed-All P (q ∷ ps) s p all e = elim (Option-cases (find_parsed ps s)) [
  | inr (r, h) ↦
      let same : r ≡ p = ground (arith, h) in subst P same (find_parsed-All P ps s r all.1 h)
  | inl h ↦ let same : q ≡ p = ground (arith, h) in subst P same all.0
]

link_sets-IsOk :
    (names : List String) (ps : List Parsed)
    → All (Parses names) ps
    → ((s : String) → Names names s → contains_string (map (λ x. x.name) ps) s ≡ true)
    → (order seen : List String) (roots : String → Option Linked) → Ordered (deps_of ps) seen order
    → ((s : String) → contains_string order s ≡ true → Names names s)
    → ((s : String) → contains_string seen s ≡ true → Rooted roots s)
    → IsOk (link_sets ps roots order)
unfolding link_sets deps_of
link_sets-IsOk names ps all total [] seen roots o inside have = tt
link_sets-IsOk names ps all total (x ∷ xs) seen roots o inside have =
    let (p, at) = find_parsed-some ps x (total x (inside x (ground (arith, str_eq_refl x)))) in
    let good = find_parsed-All (Parses names) ps x p all at in
    let deps : deps_of ps x ≡ p.refs = rw (at, deps_of) refl in
    let linked = link_node-IsOk roots p.root (
      RefsIn-map (Names p.refs) (Rooted roots)
        (λ s e. have s (o.0 s (subst (λ rs. contains_string rs s ≡ true) (sym deps) e))) p.root
        good.refs) in
    elim (Outcome-cases (link_node roots p.root)) [
      | inl (e, k) ↦ absurd (subst IsOk k linked)
      | inr (l, k) ↦
          let rest =
            link_sets-IsOk names ps all total xs (seen ++ x ∷ []) (update roots x (some l)) o.2
              (λ s e. inside s (ground arith))
              (λ s e. elim (Bool-cases (str_eq s x)) [
                | inl q ↦ (l, rw q refl)
                | inr q ↦
                    let old =
                      have s (ground (arith, str_eq_swap s x q, contains-append seen (x ∷ []) s)) in
                    (old.0, rw q old.1)
              ]) in
          elim (Outcome-cases (link_sets ps (update roots x (some l)) xs)) [
            | inl (e, j) ↦ absurd (subst IsOk j rest)
            | inr (sets, j) ↦ rw (at, k, j, link_sets, IsOk) tt
          ]
    ]

-- The names that a parsed set depends on are names of sets.
deps_of_closed :
    (names : List String) (ps : List Parsed)
    → All (Parses names) ps
    → (a d : String) → Names names a
    → contains_string (deps_of ps a) d ≡ true
    → Names names d
unfolding deps_of
deps_of_closed names ps all a d known e = elim (Option-cases (find_parsed ps a)) [
  | inl h ↦ absurd (ground (arith, h))
  | inr (p, h) ↦
      (find_parsed-All (Parses names) ps a p all h).sets d
        (subst (λ o. contains_string (elim o [ none ↦ [] | some q ↦ q.refs ]) d ≡ true) h e)
]

is_reported-IsCircle :
    (ps : List Parsed) (names : List String) (e : CompileError)
    → IsCircle (deps_of ps) names e
    → is_reported e ≡ true
is_reported-IsCircle ps names e (x, same, r) = subst (λ c. is_reported c ≡ true) (sym same) refl

abbrev Any : {A : Type 0} → A → Type 0
Any a = Unit

compile-Reported :
    (u : Unicode) (resolve : String → Option String) (ds : List Definition)
    → Reported Any (compile u resolve ds)
unfolding compile
compile-Reported u resolve [] = refl
compile-Reported u resolve (d ∷ ds) =
    let names = map (λ x. x.name) (d ∷ ds) in
    let parsed = parse_definitions-Reported u resolve names (d ∷ ds) in
    elim (Outcome-cases (parse_definitions u resolve names (d ∷ ds))) [
      | inl (e, h) ↦ rw (h, compile) (subst (Reported (ParsedAs names (d ∷ ds))) h parsed)
      | inr (ps, h) ↦
          let (all, same) = subst (Reported (ParsedAs names (d ∷ ds))) h parsed in
          let order = topological_order_lem (deps_of ps) names (deps_of_closed names ps all) in
          elim (Outcome-cases (topological_order names (deps_of ps))) [
            | inl (e, k) ↦
                rw (h, k, compile)
                  (is_reported-IsCircle ps names e
                    (subst (IsOrderOrCircle (deps_of ps) names) k order))
            | inr (xs, k) ↦
                let (sorted, complete, inside) =
                  subst (IsOrderOrCircle (deps_of ps) names) k order in
                let linked =
                  link_sets-IsOk names ps all
                    (λ s e. subst (λ ns. contains_string ns s ≡ true) (sym same) e) xs []
                    (λ _. none) sorted inside (λ s e. absurd (ground arith)) in
                elim (Outcome-cases (link_sets ps (λ _. none) xs)) [
                  | inl (e, j) ↦ absurd (subst IsOk j linked)
                  | inr (sets, j) ↦ rw (h, k, j, compile) tt
                ]
          ]
    ]

-- An error of the compilation is one that the program reports: no loop runs out of fuel, and every
-- reference is linked to a set that was linked before.
pub compile-is_reported :
    (u : Unicode) (resolve : String → Option String) (ds : List Definition) (e : CompileError)
    → compile u resolve ds ≡ error e
    → is_reported e ≡ true
compile-is_reported u resolve ds e h = subst (Reported Any) h (compile-Reported u resolve ds)
