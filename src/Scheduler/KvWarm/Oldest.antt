-- ===== src/Scheduler/KvWarm/Oldest.antt =====
-- kvwarm.go: the order in which the residencies of a model are visited.
use mathlib.Core.List.{Perm}
use mathlib.Core.List.Perm as Perms
use llama_swap_macos_extende.Prelude.{
  ◌≤◌, inl, inr, Bool, List, [], ◌∷◌, ◌++◌, arith, All, All-map, All-keep, keep, Bool-cases,
  if_cases,
}
use llama_swap_macos_extende.Scheduler.Types.{KvResident}
use llama_swap_macos_extende.Scheduler.KvWarm.{comes_before, insert_resident, sort_residents}

-- The residency ended its last request no later than the other.
abbrev pub IsOlder : KvResident → KvResident → Type 0
IsOlder a b = a.last_end ≤ b.last_end

abbrev pub Oldest : List KvResident → Type 0
Oldest [] = Unit
Oldest (r ∷ rs) = All (IsOlder r) rs × Oldest rs

keep-cons :
    (f : KvResident → Bool) (r : KvResident) (xs ys : List KvResident)
    → Perm (keep f xs) (keep f ys)
    → Perm (keep f (r ∷ xs)) (keep f (r ∷ ys))
keep-cons f r xs ys h = elim (Bool-cases (f r)) [ inl e ↦ rw e (Perms.cons r h) | inr e ↦ rw e h ]

keep-swap :
    (f : KvResident → Bool) (q r : KvResident) (xs : List KvResident)
    → Perm (keep f (q ∷ r ∷ xs)) (keep f (r ∷ q ∷ xs))
keep-swap f q r xs = elim (Bool-cases (f q)) [
  | inl e ↦ elim (Bool-cases (f r)) [
    | inl k ↦ rw (e, k) (Perms.swap r q (keep f xs))
    | inr k ↦ rw (e, k) (Perms.refl (q ∷ keep f xs))
  ]
  | inr e ↦ rw e (Perms.refl (keep f (r ∷ xs)))
]

keep-insert :
    (f : KvResident → Bool) (r : KvResident) (qs : List KvResident)
    → Perm (keep f (insert_resident r qs)) (keep f (r ∷ qs))
unfolding insert_resident
keep-insert f r [] = Perms.refl (keep f (r ∷ []))
keep-insert f r (q ∷ qs) =
    if_cases (λ l. Perm (keep f l) (keep f (r ∷ q ∷ qs))) (comes_before q r)
      (q ∷ insert_resident r qs) (r ∷ q ∷ qs)
      (λ _.
        Perms.trans (keep-cons f q (insert_resident r qs) (r ∷ qs) (keep-insert f r qs))
          (keep-swap f q r qs))
      (λ _. Perms.refl (keep f (r ∷ q ∷ qs)))

-- The filtered residencies are the same ones, in another order.
pub keep-sort :
    (f : KvResident → Bool) (rs : List KvResident) → Perm (keep f (sort_residents rs)) (keep f rs)
unfolding sort_residents
keep-sort f [] = Perms.refl []
keep-sort f (r ∷ rs) =
    Perms.trans (keep-insert f r (sort_residents rs))
      (keep-cons f r (sort_residents rs) rs (keep-sort f rs))

insert-All :
    (P : KvResident → Type 0) (r : KvResident) (qs : List KvResident)
    → P r
    → All P qs
    → All P (insert_resident r qs)
unfolding insert_resident
insert-All P r [] p h = (p, tt)
insert-All P r (q ∷ qs) p h =
    if_cases (All P) (comes_before q r) (q ∷ insert_resident r qs) (r ∷ q ∷ qs)
      (λ _. (h.0, insert-All P r qs p h.1)) (λ _. (p, h))

insert-Oldest : (r : KvResident) (qs : List KvResident) → Oldest qs → Oldest (insert_resident r qs)
unfolding insert_resident
insert-Oldest r [] h = (tt, tt)
insert-Oldest r (q ∷ qs) h =
    if_cases Oldest (comes_before q r) (q ∷ insert_resident r qs) (r ∷ q ∷ qs)
      (λ e. (insert-All (IsOlder q) r qs (ground arith) h.0, insert-Oldest r qs h.1))
      (λ e.
        let first : IsOlder r q = ground arith in
        ((first, All-map (IsOlder q) (IsOlder r) (λ x k. omega arith) qs h.0), h))

pub sort-Oldest : (rs : List KvResident) → Oldest (sort_residents rs)
unfolding sort_residents
sort-Oldest [] = tt
sort-Oldest (r ∷ rs) = insert-Oldest r (sort_residents rs) (sort-Oldest rs)

pub keep-Oldest : (f : KvResident → Bool) (rs : List KvResident) → Oldest rs → Oldest (keep f rs)
keep-Oldest f [] h = tt
keep-Oldest f (r ∷ rs) h =
    if_cases Oldest (f r) (r ∷ keep f rs) (keep f rs)
      (λ _. (All-keep (IsOlder r) f rs h.0, keep-Oldest f rs h.1)) (λ _. keep-Oldest f rs h.1)

append-right : (P : KvResident → Type 0) (xs ys : List KvResident) → All P (xs ++ ys) → All P ys
append-right P [] ys h = h
append-right P (x ∷ xs) ys h = append-right P xs ys h.1

-- Each of the first part is older than each of the rest.
pub append-Oldest : (xs ys : List KvResident) → Oldest (xs ++ ys) → All (λ x. All (IsOlder x) ys) xs
append-Oldest [] ys h = tt
append-Oldest (x ∷ xs) ys h = (append-right (IsOlder x) xs ys h.0, append-Oldest xs ys h.1)
