-- ===== src/Matrix/Evaluate/Frontier.antt =====
-- internal/matrix/program.go, addToFrontier: what the frontier keeps of the states that it is offered.
use llama_swap_macos_extende.Prelude.{
  ◌≡◌, ◌⊎◌, inl, inr, true, not, List, [], ◌∷◌, All, Some, any, keep, if_cases, arith, Some-left,
  Some-right, Some-map, Some-of_any, Some-keep, All-append, All-keep,
}
use llama_swap_macos_extende.Matrix.Masks.{Mask, subset_of}
use llama_swap_macos_extende.Matrix.Evaluate.{
  State, add_to_frontier, join_states, combine_one, combine, add_all,
}

-- A property of masks that every larger mask has too.
abbrev pub Upward : (Mask → Type 0) → Type 0
Upward P = (m o : Mask) → subset_of m o ≡ true → P m → P o

abbrev pub Covers : (Mask → Type 0) → List State → Type 0
Covers P states = Some (λ s. P s.mask) states

module _ (P : Mask → Type 0) (up : Upward P) where
  add_to_frontier-Covers :
      (states : List State) (c : State) → Covers P states → Covers P (add_to_frontier states c)
  unfolding add_to_frontier
  add_to_frontier-Covers states c h =
      if_cases (Covers P) (any (λ s. subset_of c.mask s.mask) states) _ _ (λ _. h)
        (λ _. elim (Some-keep (λ s. P s.mask) (λ s. not (subset_of s.mask c.mask)) states h) [
          | inl k ↦ Some-left (λ s. P s.mask) _ (c ∷ []) k
          | inr (s, p, e) ↦
              Some-right (λ s. P s.mask) (keep (λ s. not (subset_of s.mask c.mask)) states) (c ∷ [])
                (inl (up s.mask c.mask (ground arith) p))
        ])

  add_to_frontier-candidate :
      (states : List State) (c : State) → P c.mask → Covers P (add_to_frontier states c)
  unfolding add_to_frontier
  add_to_frontier-candidate states c p =
      if_cases (Covers P) (any (λ s. subset_of c.mask s.mask) states) _ _
        (λ e.
          Some-map (λ s. subset_of c.mask s.mask ≡ true) (λ s. P s.mask)
            (λ s k. up c.mask s.mask k p) states (Some-of_any _ states e))
        (λ _.
          Some-right (λ s. P s.mask) (keep (λ s. not (subset_of s.mask c.mask)) states) (c ∷ [])
            (inl p))

  pub add_all-Covers :
      (states new : List State) → Covers P states ⊎ Covers P new → Covers P (add_all states new)
  unfolding add_all
  add_all-Covers states [] (inl h) = h
  add_all-Covers states [] (inr h) = absurd h
  add_all-Covers states (s ∷ ss) (inl h) =
      add_all-Covers (add_to_frontier states s) ss (inl (add_to_frontier-Covers states s h))
  add_all-Covers states (s ∷ ss) (inr (inl p)) =
      add_all-Covers (add_to_frontier states s) ss (inl (add_to_frontier-candidate states s p))
  add_all-Covers states (s ∷ ss) (inr (inr h)) =
      add_all-Covers (add_to_frontier states s) ss (inr h)

  combine_one-Covers :
      (left : State) (rights out : List State)
      → Covers P out ⊎ Some (λ r. P (join_states left r).mask) rights
      → Covers P (combine_one left rights out)
  unfolding combine_one
  combine_one-Covers left [] out (inl h) = h
  combine_one-Covers left [] out (inr h) = absurd h
  combine_one-Covers left (r ∷ rs) out (inl h) =
      combine_one-Covers left rs _ (inl (add_to_frontier-Covers out (join_states left r) h))
  combine_one-Covers left (r ∷ rs) out (inr (inl p)) =
      combine_one-Covers left rs _ (inl (add_to_frontier-candidate out (join_states left r) p))
  combine_one-Covers left (r ∷ rs) out (inr (inr h)) = combine_one-Covers left rs _ (inr h)

  pub combine-Covers :
      (lefts rights out : List State)
      → Covers P out ⊎ Some (λ l. Some (λ r. P (join_states l r).mask) rights) lefts
      → Covers P (combine lefts rights out)
  unfolding combine
  combine-Covers [] rights out (inl h) = h
  combine-Covers [] rights out (inr h) = absurd h
  combine-Covers (l ∷ ls) rights out (inl h) =
      combine-Covers ls rights _ (inl (combine_one-Covers l rights out (inl h)))
  combine-Covers (l ∷ ls) rights out (inr (inl h)) =
      combine-Covers ls rights _ (inl (combine_one-Covers l rights out (inr h)))
  combine-Covers (l ∷ ls) rights out (inr (inr h)) = combine-Covers ls rights _ (inr h)

-- What all states of the frontier have in common.
module _ (R : State → Type 0) where
  add_to_frontier-All :
      (states : List State) (c : State) → All R states → R c → All R (add_to_frontier states c)
  unfolding add_to_frontier
  add_to_frontier-All states c h k =
      if_cases (All R) (any (λ s. subset_of c.mask s.mask) states) _ _ (λ _. h)
        (λ _.
          All-append R _ (c ∷ []) (All-keep R (λ s. not (subset_of s.mask c.mask)) states h)
            (k, tt))

  pub add_all-All :
      (states new : List State) → All R states → All R new → All R (add_all states new)
  unfolding add_all
  add_all-All states [] h k = h
  add_all-All states (s ∷ ss) h k =
      add_all-All (add_to_frontier states s) ss (add_to_frontier-All states s h k.0) k.1

  combine_one-All :
      (left : State) (rights out : List State)
      → All R out
      → All (λ r. R (join_states left r)) rights
      → All R (combine_one left rights out)
  unfolding combine_one
  combine_one-All left [] out h k = h
  combine_one-All left (r ∷ rs) out h k =
      combine_one-All left rs _ (add_to_frontier-All out (join_states left r) h k.0) k.1

  pub combine-All :
      (lefts rights out : List State)
      → All R out
      → All (λ l. All (λ r. R (join_states l r)) rights) lefts
      → All R (combine lefts rights out)
  unfolding combine
  combine-All [] rights out h k = h
  combine-All (l ∷ ls) rights out h k =
      combine-All ls rights _ (combine_one-All l rights out h k.0) k.1
