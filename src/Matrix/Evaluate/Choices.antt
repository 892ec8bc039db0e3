-- ===== src/Matrix/Evaluate/Choices.antt =====
-- internal/matrix: the combinations of models that an expression stands for, and lists in which some
-- element has a property.
use llama_swap_macos_extende.Prelude.{◌≡◌, ◌⊎◌, String, List, [], ◌∷◌, ◌++◌}
use llama_swap_macos_extende.Matrix.Syntax.{
  Linked, Links, model, set_of, every, either, no_links, link,
}

-- `Picks t ms`: the expression stands for the combination `ms`, in the order of its leaves. It is one
-- of the Cartesian product that the program never expands.
unfoldable mutual
  pub Picks : Linked → List String → Type 0
  Picks (model m) ms = ms ≡ m ∷ []
  Picks (set_of t) ms = Picks t ms
  Picks (either ts) ms = PicksOne ts ms
  Picks (every ts) ms = PicksEach ts ms

  pub PicksOne : Links → List String → Type 0
  PicksOne no_links ms = ⊥
  PicksOne (link t ts) ms = Picks t ms ⊎ PicksOne ts ms

  pub PicksEach : Links → List String → Type 0
  PicksEach no_links ms = ms ≡ []
  PicksEach (link t ts) ms =
      (first : List String) × (rest : List String) × (ms ≡ first ++ rest)
      × Picks t first
      × PicksEach ts rest
