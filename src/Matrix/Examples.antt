-- ===== src/Matrix/Examples.antt =====
-- internal/matrix: concrete sets, and the theorems on them.
use Prim.Native.Char.{code}
use llama_swap_macos_extende.Prelude.{
  ℕ, ◌≤◌, ◌≡◌, ◌≢◌, ◌↔◌, inl, inr, refl, true, ◌&&◌, leb, String, List, [], ◌∷◌, Option, none, some,
  All, Some, map, contains_string, str_eq, if◌then◌else◌, arith,
}
use llama_swap_macos_extende.Matrix.Syntax.{
  Node, leaf, ref, and_of, or_of, no_nodes, node, Linked, model, set_of, every, either, no_links,
  link,
}
use llama_swap_macos_extende.Matrix.Evaluate.{Evaluator, new_evaluator, evaluate}
use llama_swap_macos_extende.Matrix.Evaluate.Choices.{Picks}
use llama_swap_macos_extende.Matrix.Evaluate.Frontier.{Covers}
use llama_swap_macos_extende.Matrix.Evaluate.Registry.{new_evaluator-Sized}
use llama_swap_macos_extende.Matrix.Evaluate.Complete.{Above, evaluate-Above}
use llama_swap_macos_extende.Matrix.Program.{CompiledSet, compute_support, can_contain_all, solve}
use llama_swap_macos_extende.Matrix.Program.Costs.{set_cost}
use llama_swap_macos_extende.Matrix.Program.Solve.{Decided, solve-Decided, solve_cheapest}
use llama_swap_macos_extende.Matrix.Program.Fits.{staying, solve-can_contain_all}
use llama_swap_macos_extende.Matrix.Program.Contain.{Contains, can_contain_all-Contains}
use llama_swap_macos_extende.Matrix.Dsl.{Unicode, failed, done, out_of_fuel}
use llama_swap_macos_extende.Matrix.Dsl.Tokens.{
  same_char, is_ident_char, runes, of_runes, trim_space, tokenize, tokenize_from,
}
use llama_swap_macos_extende.Matrix.Dsl.Tokens.Spell.{IsLawful, IsName}
use llama_swap_macos_extende.Matrix.Dsl.Parser.{parse_or_expr, parse_dsl}
use llama_swap_macos_extende.Matrix.Dsl.Parser.Print.{IsTree}
use llama_swap_macos_extende.Matrix.Dsl.RoundTrip.{print, parse_dsl-print}
use llama_swap_macos_extende.Matrix.Dsl.Finish.{parse_dsl_finishes}
use llama_swap_macos_extende.Matrix.Compile.{
  Definition, circular, undefined_set, error, resolve_node, ok, Parsed, parse_definitions,
  find_parsed, link_sets, topological_order, compile,
}
use llama_swap_macos_extende.Matrix.Compile.Order.Visits.{IsOrderOrCircle, topological_order_lem}
use llama_swap_macos_extende.Matrix.Compile.Meaning.{SetStands, compile-SetStands}
use llama_swap_macos_extende.Matrix.Compile.Finish.{is_reported, compile-is_reported}

-- a & (b | c)
abbrev pairs : Linked
pairs =
    every (link (model "a") (link (either (link (model "b") (link (model "c") no_links))) no_links))

-- The set above, and d & +pairs.
abbrev sets : List CompiledSet
sets =
    record { name = "pairs"; dsl = "a & (b | c)"; root = pairs; support = [] }
    ∷ record {
      name = "triples";
      dsl = "d & +pairs";
      root = every (link (model "d") (link (set_of pairs) no_links));
      support = [];
    }
    ∷ []

abbrev costs : String → Option ℕ
costs m = if str_eq m "b" then some 5 else none

abbrev started : List String
started = "a" ∷ "b" ∷ []

solve-Decided_example :
    Decided costs
      (compute_support sets)
      "c"
      started
      (solve (compute_support sets) "c" started costs)
solve-Decided_example = solve-Decided costs sets "c" started refl

solve_cheapest_example :
    All
      (λ set.
        (ms : List String)
        → Picks set.root ms
        → contains_string ms "c" ≡ true
        → (solve (compute_support sets) "c" started costs).total_cost ≤ set_cost costs ms started)
      (compute_support sets).sets
solve_cheapest_example = solve_cheapest costs sets "c" started refl

can_contain_all-Contains_example :
    (can_contain_all (compute_support sets) ("d" ∷ "b" ∷ []) ≡ true)
    ↔ Some (Contains ("d" ∷ "b" ∷ [])) (compute_support sets).sets
can_contain_all-Contains_example = can_contain_all-Contains sets "d" ("b" ∷ [])

abbrev asked : Evaluator
asked = new_evaluator ("c" ∷ "a" ∷ "b" ∷ [])

pairs-Picks : Picks pairs ("a" ∷ "c" ∷ [])
unfolding Picks
pairs-Picks = ("a" ∷ [], "c" ∷ [], refl, refl, ("c" ∷ [], [], refl, inr (inl refl), refl))

evaluate-Above_example : Covers (Above asked ("a" ∷ "c" ∷ [])) (evaluate asked pairs)
evaluate-Above_example =
    evaluate-Above asked (new_evaluator-Sized ("c" ∷ "a" ∷ "b" ∷ [])) pairs ("a" ∷ "c" ∷ [])
      pairs-Picks

-- The first set has c.
c-Contains : Some (Contains ("c" ∷ [])) (compute_support sets).sets
unfolding compute_support
c-Contains = inl ("a" ∷ "c" ∷ [], pairs-Picks, λ m e. ground arith)

-- The running b is dearer than a, but only the combination of a and c has the target.
solve-can_contain_all_example :
    can_contain_all
      (compute_support sets)
      ("c" ∷ staying (solve (compute_support sets) "c" started costs).evict started)
    ≡ true
solve-can_contain_all_example =
    solve-can_contain_all costs sets "c" started refl
      ((can_contain_all-Contains sets "c" []).1 c-Contains)

-- The lower case letters, the digits and the blank.
abbrev ascii : Unicode
ascii = record {
  is_space = λ c. same_char c " ";
  is_letter = λ c. leb 97 (code c) && leb (code c) 122;
  is_digit = λ c. leb 48 (code c) && leb (code c) 57;
}

ascii-IsLawful : IsLawful ascii
unfolding is_ident_char
ascii-IsLawful = record {
  blank = refl;
  sign = λ c e. (ground arith, ground arith, ground arith);
  name = λ c e. ground arith;
}

abbrev tree : Node
tree = or_of (node (and_of (node (leaf "a") (node (ref "x1") no_nodes))) (node (leaf "b") no_nodes))

tree-IsTree : IsTree (IsName ascii) tree
unfolding IsTree is_ident_char runes
tree-IsTree = (
  tt,
  (
    (tt, ((λ e. ground arith, (refl, tt)), ((λ e. ground arith, (refl, (refl, tt))), tt))),
    ((λ e. ground arith, (refl, tt)), tt),
  ),
)

parse_dsl-print_example : parse_dsl ascii (print tree) ≡ done tree
parse_dsl-print_example = parse_dsl-print ascii ascii-IsLawful tree tree-IsTree

parse_dsl_finishes_example : parse_dsl ascii "a & (+" ≢ failed out_of_fuel
parse_dsl_finishes_example = parse_dsl_finishes ascii "a & (+"

-- The first set refers to the second.
abbrev refs : String → List String
refs s = if str_eq s "p" then "q" ∷ [] else []

refs-known :
    (a d : String)
    → contains_string ("p" ∷ "q" ∷ []) a ≡ true
    → contains_string (refs a) d ≡ true
    → contains_string ("p" ∷ "q" ∷ []) d ≡ true
refs-known a d k e = ground arith

topological_order_lem_example :
    IsOrderOrCircle refs ("p" ∷ "q" ∷ []) (topological_order ("p" ∷ "q" ∷ []) refs)
topological_order_lem_example = topological_order_lem refs ("p" ∷ "q" ∷ []) refs-known

abbrev circle : List Definition
circle = record { name = "p"; dsl = "a | +q" } ∷ record { name = "q"; dsl = "b & +p" } ∷ []

circle-circular : compile ascii (λ m. some m) circle ≡ error (circular "p")
unfolding compile parse_dsl trim_space runes tokenize tokenize_from parse_or_expr resolve_node
    of_runes
circle-circular = refl

compile-is_reported_example : is_reported (circular "p") ≡ true
compile-is_reported_example =
    compile-is_reported ascii (λ m. some m) circle (circular "p") circle-circular

-- a | +q is refused where q does not exist.
lonely-undefined :
    compile ascii (λ m. some m) (record { name = "p"; dsl = "a | +q" } ∷ [])
    ≡ error (undefined_set "p" "q")
unfolding compile parse_dsl trim_space runes tokenize tokenize_from parse_or_expr resolve_node
    of_runes
lonely-undefined = refl

-- The first set refers to the second, which is linked before it.
abbrev linked : List Definition
linked = record { name = "p"; dsl = "b & +q" } ∷ record { name = "q"; dsl = "a | c" } ∷ []

abbrev choice : Linked
choice = either (link (model "a") (link (model "c") no_links))

abbrev linked_sets : List CompiledSet
linked_sets =
    record { name = "q"; dsl = "a | c"; root = choice; support = [] }
    ∷ record {
      name = "p";
      dsl = "b & +q";
      root = every (link (model "b") (link (set_of choice) no_links));
      support = [];
    }
    ∷ []

linked-ok : compile ascii (λ m. some m) linked ≡ ok (compute_support linked_sets)
unfolding compile parse_dsl trim_space runes tokenize tokenize_from parse_or_expr resolve_node
    of_runes link_sets
linked-ok = refl

compile-SetStands_example :
    (ps : List Parsed) × (parse_definitions ascii (λ m. some m) (map (λ x. x.name) linked) linked
      ≡ ok ps)
    × All (SetStands (find_parsed ps)) (compute_support linked_sets).sets
compile-SetStands_example =
    compile-SetStands ascii (λ m. some m) linked (compute_support linked_sets) linked-ok
