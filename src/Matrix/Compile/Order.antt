-- ===== src/Matrix/Compile/Order.antt =====
-- internal/matrix/program.go, topologicalOrder: what a visit does to the states and the order.
pub mod Marks
pub mod Visits
use mathlib.Core.List.{append_assoc}
use llama_swap_macos_extende.Prelude.{
  ℕ, zero, suc, ◌+◌, ◌≤◌, ◌<◌, ◌≡◌, ◌⊎◌, inl, inr, refl, sym, ap, ◌∙◌, subst, Bool, true, false,
  ◌||◌, String, List, [], ◌∷◌, ◌++◌, if◌then◌else◌, length, contains_string, str_eq, str_eq_iff,
  str_eq_refl, update, arith, Bool-cases, if_cases,
}
use llama_swap_macos_extende.Matrix.Evaluate.Registry.{contains-append}
use llama_swap_macos_extende.Matrix.Compile.{
  CompileError, circular, Outcome, error, ok, Mark, unvisited, visiting, visited, Walk, begin_visit,
  end_visit, fresh_walk,
}

-- A name depends on another, at once or through others.
pub data Reach (deps : String → List String) (a : String) : String → Type 0 where
  direct : {b : String} → contains_string (deps a) b ≡ true → Reach deps a b
  through : {b c : String} → Reach deps a b → contains_string (deps b) c ≡ true → Reach deps a c

-- Each name of the list comes after the names that it depends on, and once, where `seen` are before.
abbrev pub Ordered : (String → List String) → List String → List String → Type 0
Ordered deps seen [] = Unit
Ordered deps seen (x ∷ xs) =
    ((d : String) → contains_string (deps x) d ≡ true → contains_string seen d ≡ true)
    × (contains_string seen x ≡ false)
    × Ordered deps (seen ++ x ∷ []) xs

pub Ordered-append :
    (deps : String → List String) (seen xs : List String) (x : String)
    → Ordered deps seen xs
    → ((d : String) → contains_string (deps x) d ≡ true → contains_string (seen ++ xs) d ≡ true)
    → contains_string (seen ++ xs) x ≡ false
    → Ordered deps seen (xs ++ x ∷ [])
Ordered-append deps seen [] x h before new = (
  λ d e. ground (arith, before d e, contains-append seen [] d),
  ground (arith, contains-append seen [] x),
  tt,
)
Ordered-append deps seen (y ∷ ys) x h before new =
    let same : (seen ++ y ∷ []) ++ ys ≡ seen ++ y ∷ ys = append_assoc seen (y ∷ []) ys in
    (
      h.0,
      h.1,
      Ordered-append deps (seen ++ y ∷ []) ys x h.2
          (λ d e. subst (λ zs. contains_string zs d ≡ true) (sym same) (before d e))
          (subst (λ zs. contains_string zs x ≡ false) (sym same) new),
    )

-- The order has the names that were visited, all of them names of the program.
pub record Good (deps : String → List String) (names : List String) (w : Walk) : Type 0 where
  pub ordered : Ordered deps [] w.order
  pub listed : (m : String) → w.state m ≡ visited → contains_string w.order m ≡ true
  pub only : (m : String) → contains_string w.order m ≡ true → w.state m ≡ visited
  pub inside : (m : String) → contains_string w.order m ≡ true → contains_string names m ≡ true

-- From one walk to a later one: a visited name stays so, the names that are being visited are the
-- same, and no name is unvisited again.
pub record Later (deps : String → List String) (names : List String) (w v : Walk) : Type 0 where
  pub good : Good deps names v
  pub kept : (m : String) → w.state m ≡ visited → v.state m ≡ visited
  pub still : (m : String) → w.state m ≡ visiting → v.state m ≡ visiting
  pub before : (m : String) → v.state m ≡ visiting → w.state m ≡ visiting
  pub fresh : (m : String) → v.state m ≡ unvisited → w.state m ≡ unvisited

pub Later-refl :
    (deps : String → List String) (names : List String) (w : Walk)
    → Good deps names w
    → Later deps names w w
Later-refl deps names w g = record {
  good = g;
  kept = λ m e. e;
  still = λ m e. e;
  before = λ m e. e;
  fresh = λ m e. e;
}

pub Later-trans :
    (deps : String → List String) (names : List String) (w v x : Walk)
    → Later deps names w v
    → Later deps names v x
    → Later deps names w x
Later-trans deps names w v x h k = record {
  good = k.good;
  kept = λ m e. k.kept m (h.kept m e);
  still = λ m e. k.still m (h.still m e);
  before = λ m e. h.before m (k.before m e);
  fresh = λ m e. h.fresh m (k.fresh m e);
}

-- The names of a list that were not visited.
abbrev pub open_count : Walk → List String → ℕ
open_count w [] = 0
open_count w (m ∷ ms) = (elim (w.state m) [ unvisited ↦ 1 | _ ↦ 0 ]) + open_count w ms

pub Mark-cases : (k : Mark) → (k ≡ unvisited) ⊎ ((k ≡ visiting) ⊎ (k ≡ visited))
Mark-cases unvisited = inl refl
Mark-cases visiting = inr (inl refl)
Mark-cases visited = inr (inr refl)

pub open_count-le :
    (w v : Walk) (names : List String)
    → ((m : String) → v.state m ≡ unvisited → w.state m ≡ unvisited)
    → open_count v names ≤ open_count w names
open_count-le w v [] h = omega arith
open_count-le w v (m ∷ names) h =
    let rest = open_count-le w v names h in
    elim (Mark-cases (v.state m)) [
      | inl e ↦ rw (e, h m e) (omega (arith, rest))
      | inr (inl e) ↦ rw e (omega (arith, rest))
      | inr (inr e) ↦ rw e (omega (arith, rest))
    ]

pub open_count-length : (w : Walk) (names : List String) → open_count w names ≤ length names
open_count-length w [] = omega arith
open_count-length w (m ∷ names) =
    let rest = open_count-length w names in
    elim (Mark-cases (w.state m)) [
      | inl e ↦ rw e (omega (arith, rest))
      | inr (inl e) ↦ rw e (omega (arith, rest))
      | inr (inr e) ↦ rw e (omega (arith, rest))
    ]

begin_visit_fresh :
    (w : Walk) (name m : String) → (begin_visit w name).state m ≡ unvisited → w.state m ≡ unvisited
begin_visit_fresh w name m e = elim (Bool-cases (str_eq m name)) [
  | inl s ↦ absurd (ground arith)
  | inr s ↦ ground arith
]

-- A visit begins with one unvisited name less.
pub open_count-begin_visit :
    (w : Walk) (name : String) (names : List String)
    → contains_string names name ≡ true
    → w.state name ≡ unvisited
    → suc (open_count (begin_visit w name) names) ≤ open_count w names
open_count-begin_visit w name [] c e = absurd (ground arith)
open_count-begin_visit w name (m ∷ names) c e = elim (Bool-cases (str_eq m name)) [
  | inl s ↦
      let same : m ≡ name = (str_eq_iff m name).0 s in
      let here : w.state m ≡ unvisited = ap w.state same ∙ e in
      let rest = open_count-le w (begin_visit w name) names (begin_visit_fresh w name) in
      rw (s, here) (omega (arith, rest))
  | inr s ↦
      let rest = open_count-begin_visit w name names (ground arith) e in rw s (omega (arith, rest))
]
