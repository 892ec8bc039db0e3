-- ===== src/Matrix/Compile.antt =====
-- internal/matrix/program.go: Compile, from named expressions to a program, and topologicalOrder.
pub mod Order
pub mod Finish
pub mod Stands
pub mod Meaning
use llama_swap_macos_extende.Prelude.{
  ℕ, zero, suc, Bool, true, false, String, List, [], ◌∷◌, ◌++◌, Option, none, some, if◌then◌else◌,
  length, map, any, str_eq, contains_string, update,
}
use llama_swap_macos_extende.Matrix.Syntax.{
  Node, Nodes, leaf, ref, and_of, or_of, no_nodes, node, Linked, Links, model, set_of, every,
  either, no_links, link,
}
use llama_swap_macos_extende.Matrix.Dsl.{Unicode, DslError, Result, failed, done}
use llama_swap_macos_extende.Matrix.Dsl.Parser.{parse_dsl}
use llama_swap_macos_extende.Matrix.Program.{CompiledSet, Program, compute_support}

pub record Definition : Type 0 where
  pub name : String
  pub dsl : String

-- The messages as values; `unlinked` and `out_of_fuel` are no errors of the program.
pub data CompileError : Type 0 where
  no_sets : CompileError
  in_set : String → DslError → CompileError
  unknown_model : String → String → CompileError
  undefined_set : String → String → CompileError
  circular : String → CompileError
  unlinked : String → CompileError
  out_of_fuel : CompileError

pub data Outcome {ℓ} (A : Type ℓ) : Type ℓ where
  error : CompileError → Outcome A
  ok : A → Outcome A

-- What is kept of a definition: roots, dslByName and deps.
pub record Parsed : Type 0 where
  pub name : String
  pub dsl : String
  pub root : Node
  pub refs : List String

-- The first walk, for the set `name`: a leaf is resolved, a reference has to be to a set.
unfoldable mutual
  pub resolve_node : (String → Option String) → List String → String → Node → Outcome Node
  resolve_node resolve names name (leaf m) = elim (resolve m) [
    | none ↦ error (unknown_model name m)
    | some real ↦ ok (leaf real)
  ]
  resolve_node resolve names name (ref s) =
      if contains_string names s then ok (ref s) else error (undefined_set name s)
  resolve_node resolve names name (and_of ts) = elim (resolve_nodes resolve names name ts) [
    | error e ↦ error e
    | ok us ↦ ok (and_of us)
  ]
  resolve_node resolve names name (or_of ts) = elim (resolve_nodes resolve names name ts) [
    | error e ↦ error e
    | ok us ↦ ok (or_of us)
  ]

  pub resolve_nodes : (String → Option String) → List String → String → Nodes → Outcome Nodes
  resolve_nodes resolve names name no_nodes = ok no_nodes
  resolve_nodes resolve names name (node t ts) = elim (resolve_node resolve names name t) [
    | error e ↦ error e
    | ok u ↦ elim (resolve_nodes resolve names name ts) [
      | error e ↦ error e
      | ok us ↦ ok (node u us)
    ]
  ]

-- The references of the first walk, each once, after those that were seen.
unfoldable mutual
  pub add_refs : List String → Node → List String
  add_refs seen (leaf m) = seen
  add_refs seen (ref s) = if contains_string seen s then seen else seen ++ s ∷ []
  add_refs seen (and_of ts) = add_refs_of seen ts
  add_refs seen (or_of ts) = add_refs_of seen ts

  pub add_refs_of : List String → Nodes → List String
  add_refs_of seen no_nodes = seen
  add_refs_of seen (node t ts) = add_refs_of (add_refs seen t) ts

unfoldable pub parse_definition :
    Unicode → (String → Option String) → List String → Definition → Outcome Parsed
unfolding add_refs
parse_definition u resolve names d = elim (parse_dsl u d.dsl) [
  | failed e ↦ error (in_set d.name e)
  | done root ↦ elim (resolve_node resolve names d.name root) [
    | error e ↦ error e
    | ok resolved ↦
        ok (record { name = d.name; dsl = d.dsl; root = resolved; refs = add_refs [] resolved })
  ]
]

unfoldable pub parse_definitions :
    Unicode → (String → Option String) → List String → List Definition → Outcome (List Parsed)
unfolding parse_definition
parse_definitions u resolve names [] = ok []
parse_definitions u resolve names (d ∷ ds) = elim (parse_definition u resolve names d) [
  | error e ↦ error e
  | ok p ↦ elim (parse_definitions u resolve names ds) [ error e ↦ error e | ok ps ↦ ok (p ∷ ps) ]
]

-- The values 0, 1 and 2 of the map `state`.
pub data Mark : Type 0 where
  unvisited : Mark
  visiting : Mark
  visited : Mark

pub record Walk : Type 0 where
  pub state : String → Mark
  pub order : List String

-- The loop over some names, which ends at the first error.
unfoldable pub visit_each : (Walk → String → Outcome Walk) → Walk → List String → Outcome Walk
visit_each visit w [] = ok w
visit_each visit w (name ∷ names) = elim (visit w name) [
  | error e ↦ error e
  | ok next ↦ visit_each visit next names
]

abbrev pub begin_visit : Walk → String → Walk
begin_visit w name = record w { state = update w.state name visiting }

abbrev pub end_visit : Walk → String → Walk
end_visit w name = record { state = update w.state name visited; order = w.order ++ name ∷ [] }

-- The closure `visit`.
unfoldable pub visit_set : (String → List String) → ℕ → Walk → String → Outcome Walk
unfolding visit_each
visit_set deps zero w name = error out_of_fuel
visit_set deps (suc n) w name = elim (w.state name) [
  | visiting ↦ error (circular name)
  | visited ↦ ok w
  | unvisited ↦ elim (visit_each (visit_set deps n) (begin_visit w name) (deps name)) [
    | error e ↦ error e
    | ok after ↦ ok (end_visit after name)
  ]
]

-- A pass of the loop over the definitions.
unfoldable pub visit_if_unvisited : (String → List String) → ℕ → Walk → String → Outcome Walk
unfolding visit_set
visit_if_unvisited deps n w name = elim (w.state name) [
  | unvisited ↦ visit_set deps n w name
  | _ ↦ ok w
]

abbrev pub fresh_walk : Walk
fresh_walk = record { state = λ _. unvisited; order = [] }

-- One level of calls for each name, and one for a name that was visited.
unfoldable pub topological_order : List String → (String → List String) → Outcome (List String)
unfolding visit_if_unvisited
topological_order names deps =
    elim (visit_each (visit_if_unvisited deps (suc (length names))) fresh_walk names) [
      | error e ↦ error e
      | ok w ↦ ok w.order
    ]

-- A later definition of the same name replaces an earlier one.
unfoldable pub find_parsed : List Parsed → String → Option Parsed
find_parsed [] name = none
find_parsed (p ∷ ps) name = elim (find_parsed ps name) [
  | some q ↦ some q
  | none ↦ if str_eq p.name name then some p else none
]

unfoldable pub deps_of : List Parsed → String → List String
unfolding find_parsed
deps_of ps name = elim (find_parsed ps name) [ none ↦ [] | some p ↦ p.refs ]

-- The second walk: a reference gets the root of its set, which stands earlier in the order.
unfoldable mutual
  pub link_node : (String → Option Linked) → Node → Outcome Linked
  link_node roots (leaf m) = ok (model m)
  link_node roots (ref s) = elim (roots s) [
    | none ↦ error (unlinked s)
    | some root ↦ ok (set_of root)
  ]
  link_node roots (and_of ts) = elim (link_nodes roots ts) [
    | error e ↦ error e
    | ok us ↦ ok (every us)
  ]
  link_node roots (or_of ts) = elim (link_nodes roots ts) [
    | error e ↦ error e
    | ok us ↦ ok (either us)
  ]

  pub link_nodes : (String → Option Linked) → Nodes → Outcome Links
  link_nodes roots no_nodes = ok no_links
  link_nodes roots (node t ts) = elim (link_node roots t) [
    | error e ↦ error e
    | ok u ↦ elim (link_nodes roots ts) [ error e ↦ error e | ok us ↦ ok (link u us) ]
  ]

-- The sets in their order, with the roots that are linked before them.
unfoldable pub link_sets :
    List Parsed → (String → Option Linked) → List String → Outcome (List CompiledSet)
unfolding link_node find_parsed
link_sets ps roots [] = ok []
link_sets ps roots (name ∷ names) = elim (find_parsed ps name) [
  | none ↦ error (unlinked name)
  | some p ↦ elim (link_node roots p.root) [
    | error e ↦ error e
    | ok root ↦ elim (link_sets ps (update roots name (some root)) names) [
      | error e ↦ error e
      | ok sets ↦ ok (record { name = name; dsl = p.dsl; root = root; support = [] } ∷ sets)
    ]
  ]
]

unfoldable pub compile : Unicode → (String → Option String) → List Definition → Outcome Program
unfolding parse_definitions topological_order deps_of link_sets compute_support
compile u resolve [] = error no_sets
compile u resolve (d ∷ ds) =
    let names = map (λ x. x.name) (d ∷ ds) in
    elim (parse_definitions u resolve names (d ∷ ds)) [
      | error e ↦ error e
      | ok ps ↦ elim (topological_order names (deps_of ps)) [
        | error e ↦ error e
        | ok order ↦ elim (link_sets ps (λ _. none) order) [
          | error e ↦ error e
          | ok sets ↦ ok (compute_support sets)
        ]
      ]
    ]
