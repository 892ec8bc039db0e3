-- ===== src/Cache/Examples.antt =====
-- internal/cache/cache.go: a concrete cache, and the theorem on it.
use llama_swap_macos_extende.Prelude.{
  ◌≡◌, ◌==◌, refl, [], ◌∷◌, none, some, if◌then◌else◌, arith, Bool-cases, inl, inr,
}
use llama_swap_macos_extende.Cache.{Cache, added, add, has_item}
use llama_swap_macos_extende.Cache.Laws.{IsValid}
use llama_swap_macos_extende.Cache.Add.{HasAdded, add-HasAdded}

-- Two items of two bytes, at the limit of five.
abbrev full : Cache
full = record {
  items = λ j. if j == 0 then some (7 ∷ 8 ∷ []) else if j == 1 then some (9 ∷ 9 ∷ []) else none;
  order = 0 ∷ 1 ∷ [];
  size = 4;
  max_size = 5;
}

full-IsValid : IsValid full
unfolding has_item
full-IsValid = record {
  distinct = (refl, (refl, tt));
  listed = λ j. elim (Bool-cases (j == 0)) [
    | inl e ↦ rw (e, has_item) (ground arith)
    | inr e ↦ elim (Bool-cases (j == 1)) [
      | inl h ↦ rw (e, h, has_item) (ground arith)
      | inr h ↦ rw (e, h, has_item) (ground arith)
    ]
  ];
  total = refl;
  bounded = omega arith;
}

add-HasAdded_example :
    (d : Cache) × (add 2 (5 ∷ 5 ∷ 5 ∷ []) full ≡ added d) × HasAdded 2 (5 ∷ 5 ∷ 5 ∷ []) full d
add-HasAdded_example = add-HasAdded 2 (5 ∷ 5 ∷ 5 ∷ []) full full-IsValid (omega arith)
