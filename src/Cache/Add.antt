-- ===== src/Cache/Add.antt =====
-- internal/cache/cache.go, Add: what it keeps, and what it evicts.
use llama_swap_macos_extende.Prelude.{
  ℕ, ◌+◌, ◌-◌, ◌≤◌, ◌≡◌, inl, inr, refl, sym, ap, ◌∙◌, subst, true, false, ◌&&◌, ◌||◌, not, ltb,
  ◌==◌, List, [], ◌∷◌, ◌++◌, none, some, if_cases, length, arith, Bool-cases, Option-cases,
}
use llama_swap_macos_extende.Cache.{
  Cache, added, put, remove_order, forget_old, evict_oldest, make_room, store_item, add, get,
  has_item,
}
use llama_swap_macos_extende.Cache.Laws.{
  lists, Distinct, item_size, total_size, lists-append, Distinct-append, total_size-append,
  total_size-put, lists-remove_order, remove_order-Distinct, total_size-remove_order, IsValid,
}

-- The cache while the key `id` is out of the order.
record Between (id : ℕ) (c : Cache) : Type 0 where
  distinct : Distinct c.order
  absent : lists c.order id ≡ false
  listed : (j : ℕ) → (j == id) ≡ false → lists c.order j ≡ has_item j c
  total : c.size ≡ total_size c.items c.order

remove_order-absent : (id : ℕ) (xs : List ℕ) → lists xs id ≡ false → remove_order id xs ≡ xs
unfolding remove_order
remove_order-absent id [] e = refl
remove_order-absent id (x ∷ xs) e =
    let other : (x == id) ≡ false = ground arith in
    rw other (ap (λ ys. x ∷ ys) (remove_order-absent id xs (ground arith)))

-- The cache without its old entry for the key.
record Forgotten (id : ℕ) (c d : Cache) : Type 0 where
  between : Between id d
  order : d.order ≡ remove_order id c.order
  items : d.items ≡ c.items
  max_size : d.max_size ≡ c.max_size

forget_old-Forgotten : (id : ℕ) (c : Cache) → IsValid c → Forgotten id c (forget_old id c)
unfolding forget_old has_item
forget_old-Forgotten id c v = elim (Option-cases (c.items id)) [
  | inl e ↦
      let out : lists c.order id ≡ false = v.listed id ∙ rw (e, has_item) refl in
      rw (e, forget_old)
        (record {
          between = record {
            distinct = v.distinct;
            absent = out;
            listed = λ j h. v.listed j;
            total = v.total;
          };
          order = sym (remove_order-absent id c.order out);
          items = refl;
          max_size = refl;
        })
  | inr (old, e) ↦
      let within : lists c.order id ≡ true = v.listed id ∙ rw (e, has_item) refl in
      let split = total_size-remove_order c.items id c.order within in
      let sized : item_size (c.items id) ≡ length old = ap item_size e in
      rw (e, forget_old)
        (record {
          between = record {
            distinct = remove_order-Distinct id c.order v.distinct;
            absent = ground (arith, lists-remove_order id c.order id v.distinct);
            listed = λ j h. ground (arith, lists-remove_order id c.order j v.distinct, v.listed j);
            total = omega (arith, split, sized, v.total);
          };
          order = refl;
          items = refl;
          max_size = refl;
        })
]

-- The loop leaves the latest keys of the order, with their items, and room for the data.
record Room (id data_size : ℕ) (c d : Cache) : Type 0 where
  between : Between id d
  fits : d.size + data_size ≤ c.max_size
  max_size : d.max_size ≡ c.max_size
  latest : (dropped : List ℕ) × (dropped ++ d.order ≡ c.order)
  kept : (j : ℕ) → lists d.order j ≡ true → d.items j ≡ c.items j

lists-both : (xs ys : List ℕ) (j : ℕ) → lists (xs ++ ys) j ≡ (lists xs j || lists ys j)
lists-both [] ys j = refl
lists-both (x ∷ xs) ys j = ground (arith, lists-both xs ys j)

Room-later :
    (id data_size oldest : ℕ) (c e d : Cache)
    → e.max_size ≡ c.max_size
    → oldest ∷ e.order ≡ c.order
    → ((j : ℕ) → lists e.order j ≡ true → e.items j ≡ c.items j)
    → Room id data_size e d
    → Room id data_size c d
Room-later id data_size oldest c e d m o k r =
    let (dropped, split) = r.latest in
    record {
      between = r.between;
      fits = subst (λ n. d.size + data_size ≤ n) m r.fits;
      max_size = r.max_size ∙ m;
      latest = (oldest ∷ dropped, ap (λ xs. oldest ∷ xs) split ∙ o);
      kept = λ j h.
          r.kept j h
          ∙ k j (
              subst (λ xs. lists xs j ≡ true) split
                (ground (arith, h, lists-both dropped d.order j)));
    }

-- An item that is deleted is gone, and no other.
has_item-put :
    (c : Cache) (oldest n : ℕ) (rest : List ℕ) (j : ℕ)
    → has_item j (record c { items = put c.items oldest none; order = rest; size = n })
      ≡ (not (j == oldest) && has_item j c)
unfolding has_item
has_item-put c oldest n rest j = elim (Bool-cases (j == oldest)) [
  | inl e ↦ rw (e, has_item) refl
  | inr e ↦ rw (e, has_item) refl
]

evict_oldest-Between :
    (id oldest : ℕ) (rest : List ℕ) (c : Cache)
    → oldest ∷ rest ≡ c.order
    → Between id c
    → Between id (evict_oldest oldest rest c)
unfolding evict_oldest has_item
evict_oldest-Between id oldest rest c o b =
    let distinct : Distinct (oldest ∷ rest) = subst Distinct (sym o) b.distinct in
    let absent : lists (oldest ∷ rest) id ≡ false =
      subst (λ xs. lists xs id ≡ false) (sym o) b.absent in
    let listed : (j : ℕ) → (j == id) ≡ false → lists (oldest ∷ rest) j ≡ has_item j c =
      λ j h. subst (λ xs. lists xs j ≡ has_item j c) (sym o) (b.listed j h) in
    let total : c.size ≡ total_size c.items (oldest ∷ rest) =
      subst (λ xs. c.size ≡ total_size c.items xs) (sym o) b.total in
    let here : has_item oldest c ≡ true = ground (arith, listed oldest (ground arith)) in
    elim (Option-cases (c.items oldest)) [
      | inl e ↦ absurd (nothing (sym here ∙ rw (e, has_item) refl))
      | inr (evicted, e) ↦
          let sized : item_size (c.items oldest) ≡ length evicted = ap item_size e in
          let same = total_size-put c.items rest oldest none distinct.0 in
          rw (e, evict_oldest)
            (record {
              distinct = distinct.1;
              absent = ground arith;
              listed = λ j h. elim (Bool-cases (oldest == j)) [
                | inl q ↦
                    let there : lists rest j ≡ false =
                      subst (λ k. lists rest k ≡ false) (ground arith) distinct.0 in
                    there
                    ∙ sym (has_item-put c oldest (c.size - length evicted) rest j ∙ ground arith)
                | inr q ↦
                    ground
                      (arith, has_item-put c oldest (c.size - length evicted) rest j, listed j h)
              ];
              total = omega (arith, sized, same, total);
            })
    ]
  where
    nothing : true ≡ false → ⊥
    nothing q = ground arith

evict_oldest-parts :
    (oldest : ℕ) (rest : List ℕ) (c : Cache)
    → ((evict_oldest oldest rest c).order ≡ rest)
      × ((evict_oldest oldest rest c).max_size ≡ c.max_size)
      × ((j : ℕ) → (j == oldest) ≡ false → (evict_oldest oldest rest c).items j ≡ c.items j)
unfolding evict_oldest
evict_oldest-parts oldest rest c = elim (Option-cases (c.items oldest)) [
  | inl e ↦ rw (e, evict_oldest) (refl, refl, λ j h. refl)
  | inr (evicted, e) ↦ rw (e, evict_oldest) (refl, refl, λ j h. rw h refl)
]

make_room-Room :
    (id : ℕ) (order : List ℕ) (data_size : ℕ) (c : Cache)
    → order ≡ c.order
    → data_size ≤ c.max_size
    → Between id c
    → Room id data_size c (make_room order data_size c)
unfolding make_room
make_room-Room id [] data_size c o le b = record {
  between = b;
  fits =
      let none_left : c.size ≡ 0 = subst (λ xs. c.size ≡ total_size c.items xs) (sym o) b.total in
      omega (arith, none_left, le);
  max_size = refl;
  latest = ([], refl);
  kept = λ j h. refl;
}
make_room-Room id (oldest ∷ rest) data_size c o le b =
    let next = evict_oldest oldest rest c in
    let (order, limit, others) = evict_oldest-parts oldest rest c in
    let ih =
      make_room-Room id rest data_size next (sym order) (subst (λ n. data_size ≤ n) (sym limit) le)
        (evict_oldest-Between id oldest rest c o b) in
    let distinct : Distinct (oldest ∷ rest) = subst Distinct (sym o) b.distinct in
    if_cases (Room id data_size c) (ltb c.max_size (c.size + data_size))
      (make_room rest data_size next) c
      (λ _.
        Room-later id data_size oldest c next (make_room rest data_size next) limit
          (ap (λ xs. oldest ∷ xs) order ∙ o)
          (λ j h. others j (other j (subst (λ xs. lists xs j ≡ true) order h) distinct.0)) ih)
      (λ f. record {
        between = b;
        fits = ground arith;
        max_size = refl;
        latest = ([], refl);
        kept = λ j h. refl;
      })
  where
    other : (j : ℕ) → lists rest j ≡ true → lists rest oldest ≡ false → (j == oldest) ≡ false
    other j h k = elim (Bool-cases (j == oldest)) [
      | inl e ↦
          let same : lists rest j ≡ false = subst (λ n. lists rest n ≡ false) (ground arith) k in
          absurd (ground arith)
      | inr e ↦ e
    ]

-- An addition that succeeded: the cache is valid and has the data; of the earlier keys it has the
-- latest, with their data.
pub record HasAdded (id : ℕ) (bytes : List ℕ) (c d : Cache) : Type 0 where
  pub valid : IsValid d
  pub has : get id d ≡ some bytes
  pub max_size : d.max_size ≡ c.max_size
  pub latest :
      (dropped kept : List ℕ) × (dropped ++ kept ≡ remove_order id c.order)
      × (d.order ≡ kept ++ id ∷ [])
      × ((j : ℕ) → lists kept j ≡ true → get j d ≡ get j c)

store_item-HasAdded :
    (id : ℕ) (bytes : List ℕ) (c f d : Cache)
    → Forgotten id c f
    → Room id (length bytes) f d
    → HasAdded id bytes c (store_item id bytes d)
unfolding get has_item
store_item-HasAdded id bytes c f d fo r =
    let b = r.between in
    let (dropped, split) = r.latest in
    let limit : d.max_size ≡ c.max_size = r.max_size ∙ fo.max_size in
    let own : put d.items id (some bytes) id ≡ some bytes = ground arith in
    let bound : d.size + length bytes ≤ d.max_size =
      subst (λ n. d.size + length bytes ≤ n) (sym r.max_size) r.fits in
    record {
      valid = record {
        distinct = Distinct-append d.order id b.absent b.distinct;
        listed = λ j. lists-append d.order id j ∙ stored j;
        total =
            let before = total_size-put d.items d.order id (some bytes) b.absent in
            let whole = total_size-append (put d.items id (some bytes)) d.order id in
            let sized : item_size (put d.items id (some bytes) id) ≡ length bytes =
              ap item_size own in
            omega (arith, before, whole, sized, b.total);
        bounded = bound;
      };
      has = own;
      max_size = limit;
      latest = (
        dropped,
        d.order,
        split ∙ fo.order,
        refl,
        λ j h.
            let other : (j == id) ≡ false = apart j h b.absent in
            rw other (r.kept j h ∙ ap (λ items. items j) fo.items),
      );
    }
  where
    apart : (j : ℕ) → lists d.order j ≡ true → lists d.order id ≡ false → (j == id) ≡ false
    apart j h k = elim (Bool-cases (j == id)) [
      | inl e ↦
          let same : lists d.order j ≡ false =
            subst (λ n. lists d.order n ≡ false) (ground arith) k in
          absurd (ground arith)
      | inr e ↦ e
    ]

    stored : (j : ℕ) → (lists d.order j || (id == j)) ≡ has_item j (store_item id bytes d)
    stored j = elim (Bool-cases (j == id)) [
      | inl e ↦ rw (e, has_item) (ground arith)
      | inr e ↦ rw (e, has_item) (ground (arith, r.between.listed j e))
    ]

-- Adding data within the size limit to a valid cache (every item listed once in the order, its
-- size the sum of the items and within the limit) succeeds: the cache is valid again and has the
-- data under the key, and of its other keys it keeps the latest, with their data, in their order.
pub add-HasAdded :
    (id : ℕ) (bytes : List ℕ) (c : Cache)
    → IsValid c
    → length bytes ≤ c.max_size
    → (d : Cache) × (add id bytes c ≡ added d) × HasAdded id bytes c d
unfolding add
add-HasAdded id bytes c v le =
    let old = forget_old id c in
    let f = forget_old-Forgotten id c v in
    let small : ltb c.max_size (length bytes) ≡ false = ground arith in
    let d = make_room old.order (length bytes) old in
    (
      store_item id bytes d,
      rw small refl,
      store_item-HasAdded id bytes c old d f (
          make_room-Room id old.order (length bytes) old refl
            (subst (λ n. length bytes ≤ n) (sym f.max_size) le) f.between),
    )
