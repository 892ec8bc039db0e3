-- ===== src/Router/Planners.antt =====
-- internal/router/matrix.go and group.go: EvictionFor of the two planners.
use llama_swap_macos_extende.Prelude.{
  ℕ, Bool, true, false, ◌&&◌, not, String, List, [], ◌∷◌, ◌++◌, Option, none, some, if◌then◌else◌,
  str_eq, contains_string,
}
use llama_swap_macos_extende.Matrix.Program.{Program, Decision, solve}

-- The last decision, with what it was for, if it is valid.
pub record LastResult : Type 0 where
  pub target : String
  pub running : List String
  pub result : Decision

pub record MatrixSwapper : Type 0 where
  pub program : Program
  pub evict_costs : String → Option ℕ
  pub last : Option LastResult

-- slices.Equal.
unfoldable pub equal_strings : List String → List String → Bool
equal_strings [] [] = true
equal_strings [] (y ∷ ys) = false
equal_strings (x ∷ xs) [] = false
equal_strings (x ∷ xs) (y ∷ ys) = str_eq x y && equal_strings xs ys

unfoldable pub is_last : LastResult → String → List String → Bool
unfolding equal_strings
is_last l target running = str_eq l.target target && equal_strings l.running running

-- The decision afresh, which is kept.
unfoldable pub solve_anew : MatrixSwapper → String → List String → Decision × MatrixSwapper
solve_anew p target running =
    let result = solve p.program target running p.evict_costs in
    (
      result,
      record p { last = some (record { target = target; running = running; result = result }) },
    )

-- The kept decision, if it is for the same question.
unfoldable pub answer_from :
    Option LastResult → MatrixSwapper → String → List String → Decision × MatrixSwapper
unfolding is_last solve_anew
answer_from none p target running = solve_anew p target running
answer_from (some l) p target running =
    if is_last l target running then (l.result, p) else solve_anew p target running

-- The method `solve` of the swapper.
unfoldable pub solve_cached : MatrixSwapper → String → List String → Decision × MatrixSwapper
unfolding answer_from
solve_cached p target running = answer_from p.last p target running

unfoldable pub matrix_eviction_for :
    MatrixSwapper → String → List String → List String × MatrixSwapper
unfolding solve_cached
matrix_eviction_for p target running =
    let (result, next) = solve_cached p target running in (result.evict, next)

-- A planner asked one question after the other.
unfoldable pub evictions_for : MatrixSwapper → List (String × List String) → List (List String)
unfolding matrix_eviction_for
evictions_for p [] = []
evictions_for p (q ∷ qs) =
    let (evict, next) = matrix_eviction_for p q.0 q.1 in evict ∷ evictions_for next qs

-- The fields of config.GroupConfig that the planner reads.
pub record GroupConfig : Type 0 where
  pub swap : Bool
  pub exclusive : Bool
  pub persistent : Bool

-- The maps read as their zero values where a key is absent.
pub record GroupSwapper : Type 0 where
  pub model_to_group : String → String
  pub groups : String → GroupConfig

-- The cases of the switch.
unfoldable pub stops : GroupSwapper → String → String → Bool
stops p target m =
    let tg = p.model_to_group target in
    let og = p.model_to_group m in
    if str_eq og tg
    then (p.groups tg).swap
    else (p.groups tg).exclusive && not (p.groups og).persistent

-- The closure `consider`; `seen` has the models of the result.
unfoldable pub consider : GroupSwapper → String → List String → String → List String
unfolding stops
consider p target result m =
    if str_eq m target
    then result
    else if contains_string result m
    then result
    else if stops p target m
    then result ++ m ∷ []
    else result

unfoldable pub consider_all : GroupSwapper → String → List String → List String → List String
unfolding consider
consider_all p target result [] = result
consider_all p target result (m ∷ ms) = consider_all p target (consider p target result m) ms

unfoldable pub group_eviction_for : GroupSwapper → String → List String → List String
unfolding consider_all
group_eviction_for p target running = consider_all p target [] running
