-- ===== src/Matrix/Program.antt =====
-- internal/matrix/program.go: the compiled program, computeSupport, Solve and CanContainAll.
pub mod Support
pub mod Costs
pub mod Cheapest
pub mod Flatten
pub mod Solve
pub mod Contain
pub mod Fits
use llama_swap_macos_extende.Prelude.{
  ℕ, ◌+◌, ltb, Bool, true, false, ◌&&◌, ◌||◌, not, String, List, [], ◌∷◌, ◌++◌, Option, none, some,
  if◌then◌else◌, length, any, keep, map, str_eq, contains_string,
}
use llama_swap_macos_extende.Scheduler.Swaps.{sort_strings}
use llama_swap_macos_extende.Matrix.Masks.{Mask, has, new_mask, set_bit, subset_of}
use llama_swap_macos_extende.Matrix.Syntax.{
  Linked, Links, model, set_of, every, either, no_links, link,
}
use llama_swap_macos_extende.Matrix.Evaluate.{
  register, bit_of, bit_or_zero, words_for, Evaluator, new_evaluator, full_mask, Witness,
  none_chosen, chosen, pair, State, evaluate,
}

pub record CompiledSet : Type 0 where
  pub name : String
  pub dsl : String
  pub root : Linked
  pub support : Mask

pub record Program : Type 0 where
  pub sets : List CompiledSet
  pub model_bits : List String
  pub words : ℕ

pub record Decision : Type 0 where
  pub evict : List String
  pub target_set : List String
  pub set_name : String
  pub dsl : String
  pub total_cost : ℕ

-- The closure `collect`: the models that the expression mentions. The list stands for the map; a
-- model may be in it more than once, and the order of the map is that of the leaves.
unfoldable mutual
  pub collect_models : Linked → List String
  collect_models (model m) = m ∷ []
  collect_models (set_of t) = collect_models t
  collect_models (every ts) = collect_children ts
  collect_models (either ts) = collect_children ts

  pub collect_children : Links → List String
  collect_children no_links = []
  collect_children (link t ts) = collect_models t ++ collect_children ts

-- The registry over all sets, in their order.
unfoldable pub register_sets : List String → List CompiledSet → List String
register_sets bits [] = bits
register_sets bits (set ∷ sets) = register_sets (register bits (collect_models set.root)) sets

unfoldable pub support_mask : List String → Mask → List String → Mask
support_mask bits mask [] = mask
support_mask bits mask (m ∷ ms) = support_mask bits (set_bit mask (bit_or_zero bits m)) ms

unfoldable pub with_support : List String → ℕ → CompiledSet → CompiledSet
unfolding support_mask
with_support bits words set = record set {
  support = support_mask bits (new_mask words) (collect_models set.root);
}

unfoldable pub compute_support : List CompiledSet → Program
unfolding with_support
compute_support sets =
    let bits = register_sets [] sets in
    let words = words_for (length bits) in
    record { sets = map (with_support bits words) sets; model_bits = bits; words = words }

-- The bit is known and set.
unfoldable pub supports : Program → CompiledSet → String → Bool
supports p set m = elim (bit_of p.model_bits m) [ none ↦ false | some bit ↦ has set.support bit ]

unfoldable pub supports_all : Program → CompiledSet → List String → Bool
unfolding supports
supports_all p set [] = true
supports_all p set (m ∷ ms) = supports p set m && supports_all p set ms

-- The map of costs; an absent model costs 1.
unfoldable pub eviction_cost : (String → Option ℕ) → String → ℕ
eviction_cost costs m = elim (costs m) [ none ↦ 1 | some cost ↦ cost ]

-- The running models that the state lacks, and what it costs to evict them.
unfoldable pub missing : Evaluator → Mask → List String → List String
missing e mask running = keep (λ m. not (has mask (bit_or_zero e.model_bits m))) running

unfoldable pub missing_cost : (String → Option ℕ) → Evaluator → Mask → List String → ℕ
missing_cost costs e mask [] = 0
missing_cost costs e mask (m ∷ ms) =
    (if has mask (bit_or_zero e.model_bits m) then 0 else eviction_cost costs m)
    + missing_cost costs e mask ms

-- bestCost, bestSet and bestState; a cost of -1 is no choice yet.
pub record Best : Type 0 where
  pub cost : ℕ
  pub set : CompiledSet
  pub state : State

-- The first choice, or a cheaper one.
abbrev pub improves : ℕ → Option Best → Bool
improves cost none = true
improves cost (some b) = ltb cost b.cost

-- The inner loop over the states of one set.
unfoldable pub best_state :
    (String → Option ℕ)
    → Evaluator
    → String
    → List String
    → CompiledSet
    → List State
    → Option Best
    → Option Best
best_state costs e target running set [] best = best
best_state costs e target running set (s ∷ ss) best =
    let cost = missing_cost costs e s.mask running in
    best_state costs e target running set ss (
      if not (has s.mask (bit_or_zero e.model_bits target))
      then best
      else if improves cost best
      then some (record { cost = cost; set = set; state = s })
      else best)

unfoldable pub best_set :
    (String → Option ℕ)
    → Program
    → Evaluator
    → String
    → List String
    → List CompiledSet
    → Option Best
    → Option Best
best_set costs p e target running [] best = best
best_set costs p e target running (set ∷ sets) best = best_set costs p e target running sets (
    if supports p set target
    then best_state costs e target running set (evaluate e set.root) best
    else best)

-- The visit of flattenWitness: the models in the order in which they are first met.
unfoldable pub visit : Witness → List String → List String
visit none_chosen models = models
visit (chosen m) models =
    if not (str_eq m "") && not (contains_string models m) then models ++ m ∷ [] else models
visit (pair left right) models = visit right (visit left models)

unfoldable pub flatten_witness : Witness → List String
unfolding visit sort_strings
flatten_witness w = sort_strings (visit w [])

-- Some state of the set has all the models.
unfoldable pub holds_all : Evaluator → CompiledSet → Bool
holds_all e set = any (λ s. subset_of (full_mask e) s.mask) (evaluate e set.root)

unfoldable pub can_contain_all : Program → List String → Bool
can_contain_all p [] = true
can_contain_all p (m ∷ ms) =
    any (λ set. supports_all p set (m ∷ ms) && holds_all (new_evaluator (m ∷ ms)) set) p.sets

-- The name and the expression of the first set that contains the models.
unfoldable pub first_containing : Program → List String → List CompiledSet → String × String
first_containing p models [] = ("", "")
first_containing p models (set ∷ sets) =
    if supports_all p set models && holds_all (new_evaluator models) set
    then (set.name, set.dsl)
    else first_containing p models sets

unfoldable pub find_containing : Program → List String → String × String
find_containing p [] = ("", "")
find_containing p (m ∷ ms) = first_containing p (m ∷ ms) p.sets

unfoldable pub solve : Program → String → List String → (String → Option ℕ) → Decision
unfolding missing
solve p target running costs =
    let found = find_containing p running in
    let e = new_evaluator (target ∷ running) in
    let swap : Decision = elim (best_set costs p e target running p.sets none) [
      | none ↦ record {
        evict = running;
        target_set = target ∷ [];
        set_name = "";
        dsl = "";
        total_cost = 0;
      }
      | some b ↦ record {
        evict = missing e b.state.mask running;
        target_set = flatten_witness b.state.witness;
        set_name = b.set.name;
        dsl = b.set.dsl;
        total_cost = b.cost;
      }
    ] in
    if contains_string running target
    then record {
      evict = [];
      target_set = running;
      set_name = found.0;
      dsl = found.1;
      total_cost = 0;
    }
    else swap
