-- ===== src/Matrix/Compile/Finish/Refs.antt =====
-- internal/matrix/program.go, Compile: the references of one expression.
use llama_swap_macos_extende.Prelude.{
  ◌≡◌, inl, inr, subst, true, String, List, [], ◌∷◌, ◌++◌, Option, some, contains_string, str_eq,
  str_eq_iff, str_eq_refl, arith, Bool-cases, Option-cases, if_cases,
}
use llama_swap_macos_extende.Matrix.Evaluate.Registry.{contains-append}
use llama_swap_macos_extende.Matrix.Syntax.{
  Node, Nodes, leaf, ref, and_of, or_of, no_nodes, node, Linked,
}
use llama_swap_macos_extende.Matrix.Compile.{
  CompileError, unknown_model, undefined_set, Outcome, error, ok, resolve_node, resolve_nodes,
  add_refs, add_refs_of, link_node, link_nodes,
}
use llama_swap_macos_extende.Matrix.Compile.Order.Visits.{Outcome-cases}

-- Every reference of the expression has the property.
unfoldable mutual
  pub RefsIn : (String → Type 0) → Node → Type 0
  RefsIn P (leaf m) = Unit
  RefsIn P (ref s) = P s
  RefsIn P (and_of ts) = AllRefsIn P ts
  RefsIn P (or_of ts) = AllRefsIn P ts

  pub AllRefsIn : (String → Type 0) → Nodes → Type 0
  AllRefsIn P no_nodes = Unit
  AllRefsIn P (node t ts) = RefsIn P t × AllRefsIn P ts

-- A reference that was seen stays.
mutual
  unfolding add_refs

  add_refs_keep :
      (seen : List String) (t : Node) (s : String)
      → contains_string seen s ≡ true
      → contains_string (add_refs seen t) s ≡ true
  add_refs_keep seen (leaf m) s e = e
  add_refs_keep seen (ref r) s e =
      if_cases (λ xs. contains_string xs s ≡ true) (contains_string seen r) seen (seen ++ r ∷ [])
        (λ _. e) (λ _. ground (arith, contains-append seen (r ∷ []) s))
  add_refs_keep seen (and_of ts) s e = add_refs_of_keep seen ts s e
  add_refs_keep seen (or_of ts) s e = add_refs_of_keep seen ts s e

  add_refs_of_keep :
      (seen : List String) (ts : Nodes) (s : String)
      → contains_string seen s ≡ true
      → contains_string (add_refs_of seen ts) s ≡ true
  add_refs_of_keep seen no_nodes s e = e
  add_refs_of_keep seen (node t ts) s e =
      add_refs_of_keep (add_refs seen t) ts s (add_refs_keep seen t s e)

-- The references are all taken up.
mutual
  unfolding add_refs RefsIn

  pub add_refs-RefsIn :
      (out seen : List String) (t : Node)
      → ((s : String) → contains_string (add_refs seen t) s ≡ true → contains_string out s ≡ true)
      → RefsIn (λ s. contains_string out s ≡ true) t
  add_refs-RefsIn out seen (leaf m) h = tt
  add_refs-RefsIn out seen (ref r) h = h r (
      if_cases (λ xs. contains_string xs r ≡ true) (contains_string seen r) seen (seen ++ r ∷ [])
        (λ e. e) (λ _. ground (arith, str_eq_refl r, contains-append seen (r ∷ []) r)))
  add_refs-RefsIn out seen (and_of ts) h = add_refs_of-RefsIn out seen ts h
  add_refs-RefsIn out seen (or_of ts) h = add_refs_of-RefsIn out seen ts h

  add_refs_of-RefsIn :
      (out seen : List String) (ts : Nodes)
      → ((s : String)
          → contains_string (add_refs_of seen ts) s ≡ true
          → contains_string out s ≡ true)
      → AllRefsIn (λ s. contains_string out s ≡ true) ts
  add_refs_of-RefsIn out seen no_nodes h = tt
  add_refs_of-RefsIn out seen (node t ts) h = (
    add_refs-RefsIn out seen t (λ s e. h s (add_refs_of_keep (add_refs seen t) ts s e)),
    add_refs_of-RefsIn out (add_refs seen t) ts h,
  )

-- Nothing else is taken up.
mutual
  unfolding add_refs RefsIn

  pub add_refs_only :
      (names seen : List String) (t : Node)
      → RefsIn (λ s. contains_string names s ≡ true) t
      → ((s : String) → contains_string seen s ≡ true → contains_string names s ≡ true)
      → (s : String) → contains_string (add_refs seen t) s ≡ true
      → contains_string names s ≡ true
  add_refs_only names seen (leaf m) h k s e = k s e
  add_refs_only names seen (ref r) h k s e =
      if_cases (λ xs. contains_string xs s ≡ true → contains_string names s ≡ true)
        (contains_string seen r) seen (seen ++ r ∷ []) (λ _ e2. k s e2)
        (λ _ e2. elim (Bool-cases (str_eq r s)) [
          | inl q ↦ subst (λ x. contains_string names x ≡ true) ((str_eq_iff r s).0 q) h
          | inr q ↦ k s (ground (arith, contains-append seen (r ∷ []) s))
        ])
        e
  add_refs_only names seen (and_of ts) h k s e = add_refs_of_only names seen ts h k s e
  add_refs_only names seen (or_of ts) h k s e = add_refs_of_only names seen ts h k s e

  add_refs_of_only :
      (names seen : List String) (ts : Nodes)
      → AllRefsIn (λ s. contains_string names s ≡ true) ts
      → ((s : String) → contains_string seen s ≡ true → contains_string names s ≡ true)
      → (s : String) → contains_string (add_refs_of seen ts) s ≡ true
      → contains_string names s ≡ true
  add_refs_of_only names seen no_nodes h k s e = k s e
  add_refs_of_only names seen (node t ts) h k s e =
      add_refs_of_only names (add_refs seen t) ts h.1 (add_refs_only names seen t h.0 k) s e

-- An outcome without an error.
abbrev pub IsOk : {A : Type 0} → Outcome A → Type 0
IsOk (error e) = ⊥
IsOk (ok a) = Unit

-- An error of the walk is about a model or a set.
abbrev pub WalkError : CompileError → Type 0
WalkError (unknown_model name m) = Unit
WalkError (undefined_set name s) = Unit
WalkError _ = ⊥

abbrev pub Resolves : {A : Type 0} → (A → Type 0) → Outcome A → Type 0
Resolves P (error e) = WalkError e
Resolves P (ok a) = P a

module _ (resolve : String → Option String) (names : List String) (name : String) where
  abbrev Known : String → Type 0
  Known s = contains_string names s ≡ true

  mutual
    unfolding resolve_node RefsIn

    pub resolve_node-RefsIn :
        (t : Node) → Resolves (RefsIn Known) (resolve_node resolve names name t)
    resolve_node-RefsIn (leaf m) = elim (Option-cases (resolve m)) [
      | inl e ↦ rw (e, resolve_node, Resolves) tt
      | inr (r, e) ↦ rw (e, resolve_node, Resolves) tt
    ]
    resolve_node-RefsIn (ref s) = elim (Bool-cases (contains_string names s)) [
      | inl e ↦ rw (e, resolve_node, Resolves) e
      | inr e ↦ rw (e, resolve_node, Resolves) tt
    ]
    resolve_node-RefsIn (and_of ts) =
        let here = resolve_nodes-RefsIn ts in
        elim (Outcome-cases (resolve_nodes resolve names name ts)) [
          | inl (e, h) ↦ rw (h, resolve_node, Resolves) (subst (Resolves (AllRefsIn Known)) h here)
          | inr (us, h) ↦ rw (h, resolve_node, Resolves) (subst (Resolves (AllRefsIn Known)) h here)
        ]
    resolve_node-RefsIn (or_of ts) =
        let here = resolve_nodes-RefsIn ts in
        elim (Outcome-cases (resolve_nodes resolve names name ts)) [
          | inl (e, h) ↦ rw (h, resolve_node, Resolves) (subst (Resolves (AllRefsIn Known)) h here)
          | inr (us, h) ↦ rw (h, resolve_node, Resolves) (subst (Resolves (AllRefsIn Known)) h here)
        ]

    resolve_nodes-RefsIn :
        (ts : Nodes) → Resolves (AllRefsIn Known) (resolve_nodes resolve names name ts)
    resolve_nodes-RefsIn no_nodes = tt
    resolve_nodes-RefsIn (node t ts) =
        let here = resolve_node-RefsIn t in
        let rest = resolve_nodes-RefsIn ts in
        elim (Outcome-cases (resolve_node resolve names name t)) [
          | inl (e, h) ↦ rw (h, resolve_nodes, Resolves) (subst (Resolves (RefsIn Known)) h here)
          | inr (u, h) ↦ elim (Outcome-cases (resolve_nodes resolve names name ts)) [
            | inl (e, k) ↦
                rw (h, k, resolve_nodes, Resolves) (subst (Resolves (AllRefsIn Known)) k rest)
            | inr (us, k) ↦
                rw (h, k, resolve_nodes, Resolves)
                  (
                    subst (Resolves (RefsIn Known)) h here,
                    subst (Resolves (AllRefsIn Known)) k rest,
                  )
          ]
        ]

-- An expression is linked where its references have roots.
module _ (roots : String → Option Linked) where
  abbrev pub Rooted : String → Type 0
  Rooted s = (l : Linked) × (roots s ≡ some l)

  mutual
    unfolding link_node RefsIn

    pub link_node-IsOk : (t : Node) → RefsIn Rooted t → IsOk (link_node roots t)
    link_node-IsOk (leaf m) h = tt
    link_node-IsOk (ref s) (l, h) = rw (h, link_node, IsOk) tt
    link_node-IsOk (and_of ts) h =
        let here = link_nodes-IsOk ts h in
        elim (Outcome-cases (link_nodes roots ts)) [
          | inl (e, k) ↦ absurd (subst IsOk k here)
          | inr (us, k) ↦ rw (k, link_node, IsOk) tt
        ]
    link_node-IsOk (or_of ts) h =
        let here = link_nodes-IsOk ts h in
        elim (Outcome-cases (link_nodes roots ts)) [
          | inl (e, k) ↦ absurd (subst IsOk k here)
          | inr (us, k) ↦ rw (k, link_node, IsOk) tt
        ]

    link_nodes-IsOk : (ts : Nodes) → AllRefsIn Rooted ts → IsOk (link_nodes roots ts)
    link_nodes-IsOk no_nodes h = tt
    link_nodes-IsOk (node t ts) h =
        let here = link_node-IsOk t h.0 in
        let rest = link_nodes-IsOk ts h.1 in
        elim (Outcome-cases (link_node roots t)) [
          | inl (e, k) ↦ absurd (subst IsOk k here)
          | inr (u, k) ↦ elim (Outcome-cases (link_nodes roots ts)) [
            | inl (e, j) ↦ absurd (subst IsOk j rest)
            | inr (us, j) ↦ rw (k, j, link_nodes, IsOk) tt
          ]
        ]

-- The property may be weakened.
mutual
  unfolding RefsIn

  pub RefsIn-map :
      (P Q : String → Type 0) → ((s : String) → P s → Q s) → (t : Node) → RefsIn P t → RefsIn Q t
  RefsIn-map P Q f (leaf m) h = tt
  RefsIn-map P Q f (ref s) h = f s h
  RefsIn-map P Q f (and_of ts) h = AllRefsIn-map P Q f ts h
  RefsIn-map P Q f (or_of ts) h = AllRefsIn-map P Q f ts h

  AllRefsIn-map :
      (P Q : String → Type 0)
      → ((s : String) → P s → Q s)
      → (ts : Nodes) → AllRefsIn P ts
      → AllRefsIn Q ts
  AllRefsIn-map P Q f no_nodes h = tt
  AllRefsIn-map P Q f (node t ts) h = (RefsIn-map P Q f t h.0, AllRefsIn-map P Q f ts h.1)
