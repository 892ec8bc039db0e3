-- ===== src/Router/Groups.antt =====
-- internal/router/group.go: which models the planner of the groups evicts.
use llama_swap_macos_extende.Prelude.{
  ◌≡◌, ◌≢◌, ◌↔◌, ◌⊎◌, true, inl, inr, refl, sym, ◌∙◌, subst, Bool, false, ◌&&◌, ◌||◌, not, String,
  List, [], ◌∷◌, ◌++◌, str_eq, str_eq_iff, str_eq_refl, contains_string, arith, Bool-cases,
  if_cases,
}
use llama_swap_macos_extende.Matrix.Evaluate.Registry.{contains-append}
use llama_swap_macos_extende.Router.Planners.{
  GroupSwapper, stops, consider, consider_all, group_eviction_for,
}

-- Whether the rules evict the model for the target, as the code tests it.
abbrev is_evicted : GroupSwapper → String → String → Bool
is_evicted p target m = not (str_eq m target) && stops p target m

-- No model is twice in the list.
abbrev pub Distinct : List String → Type 0
Distinct [] = Unit
Distinct (m ∷ ms) = (contains_string ms m ≡ false) × Distinct ms

Distinct-append :
    (ms : List String) (m : String)
    → contains_string ms m ≡ false
    → Distinct ms
    → Distinct (ms ++ m ∷ [])
Distinct-append [] m e d = (refl, tt)
Distinct-append (x ∷ xs) m e d = (
  ground (arith, contains-append xs (m ∷ []) x, swapped),
  Distinct-append xs m (ground arith) d.1,
)
  where
    swapped : str_eq m x ≡ false
    swapped = elim (Bool-cases (str_eq m x)) [
      | inl h ↦
          let same : x ≡ m = sym ((str_eq_iff m x).0 h) in
          absurd (ground (arith, (str_eq_iff x m).1 same))
      | inr h ↦ h
    ]

contains-consider :
    (p : GroupSwapper) (target : String) (result : List String) (m k : String)
    → contains_string (consider p target result m) k
      ≡ (contains_string result k || (str_eq m k && is_evicted p target k))
unfolding consider
contains-consider p target result m k = elim (Bool-cases (str_eq m k)) [
  | inl e ↦
      let same : m ≡ k = (str_eq_iff m k).0 e in
      subst
        (λ n.
          contains_string (consider p target result n) k
          ≡ (contains_string result k || (str_eq n k && is_evicted p target k)))
        (sym same) (own k)
  | inr e ↦ ground (arith, contains-append result (m ∷ []) k)
]
  where
    own :
        (n : String)
        → contains_string (consider p target result n) n
          ≡ (contains_string result n || (str_eq n n && is_evicted p target n))
    own n = ground (arith, str_eq_refl n, contains-append result (n ∷ []) n)

consider-Distinct :
    (p : GroupSwapper) (target : String) (result : List String) (m : String)
    → Distinct result
    → Distinct (consider p target result m)
unfolding consider
consider-Distinct p target result m d =
    if_cases Distinct (str_eq m target) _ _ (λ _. d)
      (λ _.
        if_cases Distinct (contains_string result m) _ _ (λ _. d)
          (λ e.
            if_cases Distinct (stops p target m) _ _ (λ _. Distinct-append result m e d) (λ _. d)))

contains-consider_all :
    (p : GroupSwapper) (target : String) (result ms : List String) (k : String)
    → contains_string (consider_all p target result ms) k
      ≡ (contains_string result k || (contains_string ms k && is_evicted p target k))
unfolding consider_all
contains-consider_all p target result [] k = ground arith
contains-consider_all p target result (m ∷ ms) k =
    contains-consider_all p target (consider p target result m) ms k
    ∙ ground (arith, contains-consider p target result m k)

consider_all-Distinct :
    (p : GroupSwapper) (target : String) (result ms : List String)
    → Distinct result
    → Distinct (consider_all p target result ms)
unfolding consider_all
consider_all-Distinct p target result [] d = d
consider_all-Distinct p target result (m ∷ ms) d =
    consider_all-Distinct p target (consider p target result m) ms
      (consider-Distinct p target result m d)

-- The rules of the groups, as relations of the models and the settings of their groups: the model
-- is another one, of the same group where it swaps, or of another group that is not persistent where
-- the group of the target is exclusive.
abbrev pub IsEvicted : GroupSwapper → String → String → Type 0
IsEvicted p target m =
    (m ≢ target)
    × (((p.model_to_group m ≡ p.model_to_group target)
          × ((p.groups (p.model_to_group target)).swap ≡ true))
        ⊎ ((p.model_to_group m ≢ p.model_to_group target)
            × ((p.groups (p.model_to_group target)).exclusive ≡ true)
            × ((p.groups (p.model_to_group m)).persistent ≡ false)))

is_evicted-IsEvicted :
    (p : GroupSwapper) (target m : String) → is_evicted p target m ≡ true → IsEvicted p target m
unfolding stops
is_evicted-IsEvicted p target m h =
    let og = p.model_to_group m in
    let tg = p.model_to_group target in
    (
      λ e. absurd (ground (arith, (str_eq_iff m target).1 e)),
      elim (Bool-cases (str_eq og tg)) [
        | inl e ↦ inl ((str_eq_iff og tg).0 e, ground arith)
        | inr e ↦ inr (
          (λ same. absurd (ground (arith, (str_eq_iff og tg).1 same))),
          ground arith,
          ground arith,
        )
      ],
    )

is_evicted-of_IsEvicted :
    (p : GroupSwapper) (target m : String) → IsEvicted p target m → is_evicted p target m ≡ true
unfolding stops
is_evicted-of_IsEvicted p target m (other, rule) =
    let og = p.model_to_group m in
    let tg = p.model_to_group target in
    elim (Bool-cases (str_eq m target)) [
      | inl e ↦ absurd (other ((str_eq_iff m target).0 e))
      | inr e ↦ elim rule [
        | inl (same, swaps) ↦ ground (arith, (str_eq_iff og tg).1 same)
        | inr (apart, exclusive, volatile) ↦ elim (Bool-cases (str_eq og tg)) [
          | inl g ↦ absurd (apart ((str_eq_iff og tg).0 g))
          | inr g ↦ ground arith
        ]
      ]
    ]

-- The planner of the groups evicts, each once, exactly the running models other than the target
-- that share the group of the target where that group swaps, or that are in another group, which
-- is not persistent, where the group of the target is exclusive.
pub group_eviction_for-IsEvicted :
    (p : GroupSwapper) (target : String) (running : List String)
    → Distinct (group_eviction_for p target running)
      × ((m : String)
          → (contains_string (group_eviction_for p target running) m ≡ true)
            ↔ ((contains_string running m ≡ true) × IsEvicted p target m))
unfolding group_eviction_for
group_eviction_for-IsEvicted p target running = (
  consider_all-Distinct p target [] running tt,
  λ m.
      let members = contains-consider_all p target [] running m in
      (
        (λ h. (ground (arith, members), is_evicted-IsEvicted p target m (ground (arith, members)))),
        (λ (k, e). ground (arith, members, is_evicted-of_IsEvicted p target m e)),
      ),
)
