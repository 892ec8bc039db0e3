-- ===== src/Cache/Laws.antt =====
-- internal/cache/cache.go: the order of the keys, and the sizes of their items.
use llama_swap_macos_extende.Prelude.{
  ℕ, ◌+◌, ◌≤◌, ◌≡◌, inl, inr, refl, ap, subst, Bool, true, false, ◌&&◌, ◌||◌, not, ◌==◌, List, [],
  ◌∷◌, ◌++◌, Option, none, some, if_cases, length, any, arith, Bool-cases,
}
use llama_swap_macos_extende.Cache.{Cache, put, remove_order, has_item, new_cache, clear}

abbrev pub lists : List ℕ → ℕ → Bool
lists order id = any (λ v. v == id) order

-- No key is twice in the order.
abbrev pub Distinct : List ℕ → Type 0
Distinct [] = Unit
Distinct (v ∷ order) = (lists order v ≡ false) × Distinct order

abbrev pub item_size : Option (List ℕ) → ℕ
item_size none = 0
item_size (some bytes) = length bytes

abbrev pub total_size : (ℕ → Option (List ℕ)) → List ℕ → ℕ
total_size items [] = 0
total_size items (v ∷ order) = item_size (items v) + total_size items order

pub lists-append : (xs : List ℕ) (v id : ℕ) → lists (xs ++ v ∷ []) id ≡ (lists xs id || (v == id))
lists-append [] v id = ground arith
lists-append (x ∷ xs) v id = ground (arith, lists-append xs v id)

pub Distinct-append :
    (xs : List ℕ) (v : ℕ) → lists xs v ≡ false → Distinct xs → Distinct (xs ++ v ∷ [])
Distinct-append [] v e d = (refl, tt)
Distinct-append (x ∷ xs) v e d =
    (ground (arith, lists-append xs v x), Distinct-append xs v (ground arith) d.1)

pub total_size-append :
    (items : ℕ → Option (List ℕ)) (xs : List ℕ) (v : ℕ)
    → total_size items (xs ++ v ∷ []) ≡ total_size items xs + item_size (items v)
total_size-append items [] v = omega arith
total_size-append items (x ∷ xs) v = omega (arith, total_size-append items xs v)

-- A key that is not in the order does not count.
pub total_size-put :
    (items : ℕ → Option (List ℕ)) (xs : List ℕ) (id : ℕ) (value : Option (List ℕ))
    → lists xs id ≡ false
    → total_size (put items id value) xs ≡ total_size items xs
total_size-put items [] id value e = refl
total_size-put items (x ∷ xs) id value e =
    let rest = total_size-put items xs id value (ground arith) in
    let other : (x == id) ≡ false = ground arith in rw other (omega (arith, rest))

pub lists-remove_order :
    (id : ℕ) (xs : List ℕ) (j : ℕ)
    → Distinct xs
    → lists (remove_order id xs) j ≡ (lists xs j && not (j == id))
unfolding remove_order
lists-remove_order id [] j d = refl
lists-remove_order id (x ∷ xs) j d = elim (Bool-cases (x == id)) [
  | inl e ↦ rw e (elim (Bool-cases (j == id)) [
    | inl h ↦
        let gone : lists xs j ≡ false = subst (λ k. lists xs k ≡ false) (ground arith) d.0 in
        ground arith
    | inr h ↦ ground arith
  ])
  | inr e ↦ rw e (ground (arith, lists-remove_order id xs j d.1))
]

pub remove_order-Distinct : (id : ℕ) (xs : List ℕ) → Distinct xs → Distinct (remove_order id xs)
unfolding remove_order
remove_order-Distinct id [] d = tt
remove_order-Distinct id (x ∷ xs) d =
    if_cases Distinct (x == id) xs (x ∷ remove_order id xs) (λ _. d.1)
      (λ _. (ground (arith, d.0, lists-remove_order id xs x d.1), remove_order-Distinct id xs d.1))

pub total_size-remove_order :
    (items : ℕ → Option (List ℕ)) (id : ℕ) (xs : List ℕ)
    → lists xs id ≡ true
    → total_size items (remove_order id xs) + item_size (items id) ≡ total_size items xs
unfolding remove_order
total_size-remove_order items id [] e = absurd (ground arith)
total_size-remove_order items id (x ∷ xs) e = elim (Bool-cases (x == id)) [
  | inl h ↦
      let same : x ≡ id = ground arith in
      let sizes : item_size (items x) ≡ item_size (items id) = ap (λ k. item_size (items k)) same in
      rw h (omega (arith, sizes))
  | inr h ↦
      let rest = total_size-remove_order items id xs (ground arith) in rw h (omega (arith, rest))
]

-- Every key with an item is in the order, once, and the size is that of the items, within the limit.
pub record IsValid (c : Cache) : Type 0 where
  pub distinct : Distinct c.order
  pub listed : (id : ℕ) → lists c.order id ≡ has_item id c
  pub total : c.size ≡ total_size c.items c.order
  pub bounded : c.size ≤ c.max_size

-- An empty cache is valid, a new one and one that was cleared.
new_cache-IsValid : (max_bytes : ℕ) → IsValid (new_cache max_bytes)
unfolding new_cache has_item
new_cache-IsValid max_bytes = record {
  distinct = tt;
  listed = λ id. refl;
  total = refl;
  bounded = omega arith;
}

clear-IsValid : (c : Cache) → IsValid (clear c)
unfolding clear has_item
clear-IsValid c = record { distinct = tt; listed = λ id. refl; total = refl; bounded = omega arith }
