-- ===== src/Matrix/Program/Support.antt =====
-- internal/matrix/program.go, computeSupport: the sets that a query may skip.
use llama_swap_macos_extende.Prelude.{
  ℕ, ◌*◌, ◌<◌, ◌≡◌, inl, inr, refl, sym, ap, ◌∙◌, subst, true, ◌||◌, ◌==◌, String, List, [], ◌∷◌,
  some, length, map, All, contains_string, str_eq, str_eq_iff, arith, Bool-cases,
}
use llama_swap_macos_extende.Matrix.Masks.{Mask, has, new_mask, set_bit}
use llama_swap_macos_extende.Matrix.Masks.Laws.{Shaped, new_mask-Shaped}
use llama_swap_macos_extende.Matrix.Masks.Bits.{has-set_bit, set_bit-Shaped}
use llama_swap_macos_extende.Matrix.Syntax.{
  Linked, Links, model, set_of, every, either, no_links, link,
}
use llama_swap_macos_extende.Matrix.Evaluate.{register, bit_of, bit_or_zero, words_for}
use llama_swap_macos_extende.Matrix.Evaluate.Choices.{Picks, PicksOne, PicksEach}
use llama_swap_macos_extende.Matrix.Evaluate.Registry.{
  bit_of-lt, bit_of-contains, contains-append, register-contains,
}
use llama_swap_macos_extende.Matrix.Program.{
  CompiledSet, Program, collect_models, collect_children, register_sets, support_mask, with_support,
  compute_support, supports,
}

-- A combination has no other models than the expression mentions.
mutual
  unfolding Picks collect_models

  Picks-collect :
      (t : Linked) (ms : List String) (m : String)
      → Picks t ms
      → contains_string ms m ≡ true
      → contains_string (collect_models t) m ≡ true
  Picks-collect (model n) ms m p c = subst (λ xs. contains_string xs m ≡ true) p c
  Picks-collect (set_of t) ms m p c = Picks-collect t ms m p c
  Picks-collect (every ts) ms m p c = PicksEach-collect ts ms m p c
  Picks-collect (either ts) ms m p c = PicksOne-collect ts ms m p c

  PicksOne-collect :
      (ts : Links) (ms : List String) (m : String)
      → PicksOne ts ms
      → contains_string ms m ≡ true
      → contains_string (collect_children ts) m ≡ true
  PicksOne-collect no_links ms m p c = absurd p
  PicksOne-collect (link t ts) ms m (inl p) c =
      ground (
        arith,
        Picks-collect t ms m p c,
        contains-append (collect_models t) (collect_children ts) m,
      )
  PicksOne-collect (link t ts) ms m (inr p) c = ground (
    arith,
    PicksOne-collect ts ms m p c,
    contains-append (collect_models t) (collect_children ts) m,
  )

  PicksEach-collect :
      (ts : Links) (ms : List String) (m : String)
      → PicksEach ts ms
      → contains_string ms m ≡ true
      → contains_string (collect_children ts) m ≡ true
  PicksEach-collect no_links ms m p c = subst (λ xs. contains_string xs m ≡ true) p c
  PicksEach-collect (link t ts) ms m (a, b, split, p, q) c =
      let both : (contains_string a m || contains_string b m) ≡ true =
        sym (contains-append a b m) ∙ subst (λ xs. contains_string xs m ≡ true) split c in
      let whole = contains-append (collect_models t) (collect_children ts) m in
      elim (Bool-cases (contains_string a m)) [
        | inl e ↦ ground (arith, Picks-collect t a m p e, whole)
        | inr e ↦
            let second : contains_string b m ≡ true = ground arith in
            ground (arith, PicksEach-collect ts b m q second, whole)
      ]

-- The registry only grows.
register_sets-contains :
    (bits : List String) (sets : List CompiledSet) (m : String)
    → contains_string bits m ≡ true
    → contains_string (register_sets bits sets) m ≡ true
unfolding register_sets
register_sets-contains bits [] m e = e
register_sets-contains bits (s ∷ ss) m e =
    register_sets-contains (register bits (collect_models s.root)) ss m
      (register-contains bits (collect_models s.root) m (ground arith))

-- Every model of the list is registered.
abbrev Registered : List String → List String → Type 0
Registered bits ms = (m : String) → contains_string ms m ≡ true → contains_string bits m ≡ true

register_sets-Registered :
    (bits : List String) (sets : List CompiledSet)
    → All (λ s. Registered (register_sets bits sets) (collect_models s.root)) sets
unfolding register_sets
register_sets-Registered bits [] = tt
register_sets-Registered bits (s ∷ ss) = (
  λ m e.
      register_sets-contains (register bits (collect_models s.root)) ss m
        (register-contains bits (collect_models s.root) m (ground arith)),
  register_sets-Registered (register bits (collect_models s.root)) ss,
)

pub bit_or_zero-bit :
    (bits : List String) (m : String) (b : ℕ) → bit_of bits m ≡ some b → bit_or_zero bits m ≡ b
unfolding bit_or_zero
bit_or_zero-bit bits m b e = rw (e, bit_or_zero)

-- A support keeps its bits, and gets those of its models.
support_mask-has :
    (bits : List String) (words : ℕ) (mask : Mask) (ms : List String) (b : ℕ) (m : String)
    → words ≡ words_for (length bits)
    → Shaped words mask
    → Registered bits ms
    → bit_of bits m ≡ some b
    → (has mask b || contains_string ms m) ≡ true
    → has (support_mask bits mask ms) b ≡ true
unfolding support_mask
support_mask-has bits words mask [] b m sized s reg bit h = ground arith
support_mask-has bits words mask (n ∷ ns) b m sized s reg bit h =
    let (c, at) = bit_of-contains bits n (reg n (ground (arith, (str_eq_iff n n).1 refl))) in
    let same = bit_or_zero-bit bits n c at in
    let inside : c < words * 64 = omega (arith, sized, bit_of-lt bits n c at) in
    let split : has (set_bit mask (bit_or_zero bits n)) b ≡ ((c == b) || has mask b) =
      subst (λ k. has (set_bit mask k) b ≡ ((c == b) || has mask b)) (sym same)
        (has-set_bit words mask c b s inside) in
    support_mask-has bits words (set_bit mask (bit_or_zero bits n)) ns b m sized
      (set_bit-Shaped words mask (bit_or_zero bits n) s) (λ k e. reg k (ground arith)) bit
      (elim (Bool-cases (str_eq n m)) [
        | inl e ↦
            let name : n ≡ m = (str_eq_iff n m).0 e in
            let bits_same : some c ≡ some b = sym at ∙ ap (bit_of bits) name ∙ bit in
            ground (arith, split)
        | inr e ↦ ground (arith, split)
      ])

-- A set supports every model of its combinations.
abbrev pub Supported : Program → CompiledSet → Type 0
Supported p set =
    (ms : List String) (m : String)
    → Picks set.root ms
    → contains_string ms m ≡ true
    → supports p set m ≡ true

-- In a program compiled from sets, every model of every combination of a set is supported by the
-- set, so that no query skips a set that it could use.
pub compute_support-Supported :
    (sets : List CompiledSet) → All (Supported (compute_support sets)) (compute_support sets).sets
unfolding compute_support supports with_support
compute_support-Supported sets = each sets (register_sets-Registered [] sets)
  where
    bits : List String
    bits = register_sets [] sets

    each :
        (ss : List CompiledSet)
        → All (λ s. Registered bits (collect_models s.root)) ss
        → All
            (Supported (compute_support sets))
            (map (with_support bits (words_for (length bits))) ss)
    each [] h = tt
    each (s ∷ ss) h = (
      λ ms m p c.
          let mentioned = Picks-collect s.root ms m p c in
          let (b, at) = bit_of-contains bits m (h.0 m mentioned) in
          rw (at, supports)
            (support_mask-has bits (words_for (length bits)) (new_mask (words_for (length bits)))
              (collect_models s.root) b m refl (new_mask-Shaped (words_for (length bits))) h.0 at
              (ground arith)),
      each ss h.1,
    )
