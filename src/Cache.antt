-- ===== src/Cache.antt =====
-- internal/cache/cache.go: a cache of byte strings, bounded by their total size.
pub mod Laws
pub mod Add
mod Examples
use llama_swap_macos_extende.Prelude.{
  ℕ, ◌+◌, ◌-◌, Bool, true, false, ltb, ◌==◌, List, [], ◌∷◌, ◌++◌, Option, none, some, if◌then◌else◌,
  length,
}

-- The lock is left out: one operation is one step.
pub record Cache : Type 0 where
  pub items : ℕ → Option (List ℕ)
  pub order : List ℕ
  pub size : ℕ
  pub max_size : ℕ

-- ErrExceedsMaxSize, or the cache afterwards.
pub data AddResult : Type 0 where
  exceeds_max_size : AddResult
  added : Cache → AddResult

unfoldable pub new_cache : ℕ → Cache
new_cache max_bytes = record { items = λ _. none; order = []; size = 0; max_size = max_bytes }

-- An assignment to the map, or a deletion.
abbrev pub put : (ℕ → Option (List ℕ)) → ℕ → Option (List ℕ) → ℕ → Option (List ℕ)
put items id value j = if j == id then value else items j

unfoldable pub remove_order : ℕ → List ℕ → List ℕ
remove_order id [] = []
remove_order id (v ∷ order) = if v == id then order else v ∷ remove_order id order

-- The key's old entry leaves the size and the order; the map still has it.
unfoldable pub forget_old : ℕ → Cache → Cache
unfolding remove_order
forget_old id c = elim (c.items id) [
  | none ↦ c
  | some old ↦ record c { order = remove_order id c.order; size = c.size - length old }
]

-- The body of the eviction loop, for the oldest key and the rest of the order.
unfoldable pub evict_oldest : ℕ → List ℕ → Cache → Cache
evict_oldest oldest rest c = elim (c.items oldest) [
  | none ↦ record c { order = rest }
  | some evicted ↦ record c {
    items = put c.items oldest none;
    order = rest;
    size = c.size - length evicted;
  }
]

-- The eviction loop, over the order of the cache.
unfoldable pub make_room : List ℕ → ℕ → Cache → Cache
unfolding evict_oldest
make_room [] data_size c = c
make_room (oldest ∷ rest) data_size c =
    if ltb c.max_size (c.size + data_size)
    then make_room rest data_size (evict_oldest oldest rest c)
    else c

abbrev pub store_item : ℕ → List ℕ → Cache → Cache
store_item id bytes c = record c {
  items = put c.items id (some bytes);
  order = c.order ++ id ∷ [];
  size = c.size + length bytes;
}

unfoldable pub add : ℕ → List ℕ → Cache → AddResult
unfolding forget_old make_room
add id bytes c =
    let old = forget_old id c in
    if ltb c.max_size (length bytes)
    then exceeds_max_size
    else added (store_item id bytes (make_room old.order (length bytes) old))

-- Get; a missing item is ErrNotFound.
unfoldable pub get : ℕ → Cache → Option (List ℕ)
get id c = c.items id

unfoldable pub has_item : ℕ → Cache → Bool
has_item id c = elim (c.items id) [ none ↦ false | some bytes ↦ true ]

unfoldable pub clear : Cache → Cache
clear c = record c { items = λ _. none; order = []; size = 0 }
