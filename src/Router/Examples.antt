-- ===== src/Router/Examples.antt =====
-- internal/router/matrix.go and group.go: concrete planners, and the theorems on them.
use llama_swap_macos_extende.Prelude.{
  ◌↔◌, ◌≡◌, true, false, String, List, [], ◌∷◌, none, map, if◌then◌else◌, str_eq, contains_string,
  arith,
}
use llama_swap_macos_extende.Matrix.Syntax.{model, either, no_links, link}
use llama_swap_macos_extende.Matrix.Program.{compute_support}
use llama_swap_macos_extende.Router.Planners.{
  MatrixSwapper, GroupSwapper, evictions_for, group_eviction_for,
}
use llama_swap_macos_extende.Router.Groups.{IsEvicted, Distinct, group_eviction_for-IsEvicted}
use llama_swap_macos_extende.Router.Matrix.{fresh, evictions_for-solve}

abbrev planner : MatrixSwapper
planner = record {
  program = compute_support (
      record {
        name = "one";
        dsl = "a | b";
        root = either (link (model "a") (link (model "b") no_links));
        support = [];
      }
      ∷ []);
  evict_costs = λ m. none;
  last = none;
}

abbrev questions : List (String × List String)
questions = ("b", "a" ∷ []) ∷ ("b", "a" ∷ []) ∷ ("a", "b" ∷ []) ∷ []

evictions_for-solve_example :
    evictions_for planner questions ≡ map (λ q. (fresh planner q.0 q.1).evict) questions
evictions_for-solve_example = evictions_for-solve planner questions (λ l e. absurd (ground arith))

-- Two models share a group of one at a time, the third is persistent.
abbrev groups : GroupSwapper
groups = record {
  model_to_group = λ m. if str_eq m "c" then "tools" else "chat";
  groups = λ g.
      if str_eq g "tools"
      then record { swap = false; exclusive = false; persistent = true }
      else record { swap = true; exclusive = true; persistent = false };
}

group_eviction_for-IsEvicted_example :
    Distinct (group_eviction_for groups "a" ("b" ∷ "c" ∷ []))
    × ((m : String)
        → (contains_string (group_eviction_for groups "a" ("b" ∷ "c" ∷ [])) m ≡ true)
          ↔ ((contains_string ("b" ∷ "c" ∷ []) m ≡ true) × IsEvicted groups "a" m))
group_eviction_for-IsEvicted_example = group_eviction_for-IsEvicted groups "a" ("b" ∷ "c" ∷ [])
