-- ===== src/Matrix/Compile/Stands.antt =====
-- internal/matrix/program.go, Compile: the combinations that a named expression stands for, and its
-- linked form.
use llama_swap_macos_extende.Prelude.{
  ◌≡◌, ◌⊎◌, ◌↔◌, inl, inr, sym, ap, ◌∙◌, subst, String, List, [], ◌∷◌, ◌++◌, Option, none, some,
  Option-cases,
}
use llama_swap_macos_extende.Matrix.Syntax.{
  Node, Nodes, leaf, ref, and_of, or_of, no_nodes, node, Linked, Links,
}
use llama_swap_macos_extende.Matrix.Evaluate.Choices.{Picks, PicksOne, PicksEach}
use llama_swap_macos_extende.Matrix.Compile.{Outcome, error, ok, Parsed, link_node, link_nodes}
use llama_swap_macos_extende.Matrix.Compile.Order.Visits.{Outcome-cases}

-- The combinations of an expression: a reference stands for those of the set that it names.
mutual
  pub data Stands (find : String → Option Parsed) : Node → List String → Type 0 where
    at_leaf : {m : String} {ms : List String} → ms ≡ m ∷ [] → Stands find (leaf m) ms
    at_ref :
        {s : String} {ms : List String}
        → (p : Parsed) → find s ≡ some p
        → Stands find p.root ms
        → Stands find (ref s) ms
    at_and : {ts : Nodes} {ms : List String} → StandsEach find ts ms → Stands find (and_of ts) ms
    at_or : {ts : Nodes} {ms : List String} → StandsOne find ts ms → Stands find (or_of ts) ms

  pub data StandsEach (find : String → Option Parsed) : Nodes → List String → Type 0 where
    each_nil : {ms : List String} → ms ≡ [] → StandsEach find no_nodes ms
    each_node :
        {t : Node} {ts : Nodes} {ms : List String}
        → (first rest : List String) → ms ≡ first ++ rest
        → Stands find t first
        → StandsEach find ts rest
        → StandsEach find (node t ts) ms

  pub data StandsOne (find : String → Option Parsed) : Nodes → List String → Type 0 where
    one_here :
        {t : Node} {ts : Nodes} {ms : List String}
        → Stands find t ms
        → StandsOne find (node t ts) ms
    one_there :
        {t : Node} {ts : Nodes} {ms : List String}
        → StandsOne find ts ms
        → StandsOne find (node t ts) ms

module _ (find : String → Option Parsed) where
  from_leaf : {m : String} {ms : List String} → Stands find (leaf m) ms → ms ≡ m ∷ []
  from_leaf (at_leaf e) = e

  from_ref :
      {s : String} {ms : List String}
      → Stands find (ref s) ms
      → (p : Parsed) × (find s ≡ some p) × Stands find p.root ms
  from_ref (at_ref p e st) = (p, e, st)

  from_and : {ts : Nodes} {ms : List String} → Stands find (and_of ts) ms → StandsEach find ts ms
  from_and (at_and st) = st

  from_or : {ts : Nodes} {ms : List String} → Stands find (or_of ts) ms → StandsOne find ts ms
  from_or (at_or st) = st

  from_nil : {ms : List String} → StandsEach find no_nodes ms → ms ≡ []
  from_nil (each_nil e) = e

  from_each :
      {t : Node} {ts : Nodes} {ms : List String}
      → StandsEach find (node t ts) ms
      → (first rest : List String) × (ms ≡ first ++ rest)
        × Stands find t first
        × StandsEach find ts rest
  from_each (each_node first rest e st sts) = (first, rest, e, st, sts)

  abbrev IsNode : Nodes → Type 0
  IsNode no_nodes = ⊥
  IsNode (node t ts) = Unit

  from_some : {ts : Nodes} {ms : List String} → StandsOne find ts ms → IsNode ts
  from_some (one_here st) = tt
  from_some (one_there st) = tt

  from_one :
      {t : Node} {ts : Nodes} {ms : List String}
      → StandsOne find (node t ts) ms
      → Stands find t ms ⊎ StandsOne find ts ms
  from_one (one_here st) = inl st
  from_one (one_there st) = inr st

module _ (find : String → Option Parsed) (roots : String → Option Linked) where
  -- A root that is linked stands for the set of its name.
  abbrev pub RootsStand : Type 0
  RootsStand =
      (s : String) (l : Linked)
      → roots s ≡ some l
      → (p : Parsed) × (find s ≡ some p) × ((ms : List String) → Picks l ms ↔ Stands find p.root ms)

  abbrev pub LinksTo : Node → Outcome Linked → Type 0
  LinksTo t (error e) = Unit
  LinksTo t (ok l) = (ms : List String) → Picks l ms ↔ Stands find t ms

  abbrev LinksEach : Nodes → Outcome Links → Type 0
  LinksEach ts (error e) = Unit
  LinksEach ts (ok ls) =
      ((ms : List String) → PicksEach ls ms ↔ StandsEach find ts ms)
      × ((ms : List String) → PicksOne ls ms ↔ StandsOne find ts ms)

  mutual
    unfolding link_node Picks

    pub link_node-LinksTo : RootsStand → (t : Node) → LinksTo t (link_node roots t)
    link_node-LinksTo r (leaf m) = λ ms. (λ e. at_leaf e, λ st. from_leaf find st)
    link_node-LinksTo r (ref s) = elim (Option-cases (roots s)) [
      | inl e ↦ rw (e, link_node, LinksTo) tt
      | inr (l, e) ↦
          rw (e, link_node, LinksTo)
            (λ ms.
              let (p, known, both) = r s l e in
              (
                λ q. at_ref p known ((both ms).0 q),
                λ st.
                    let (o, found, inner) = from_ref find st in
                    let same : o ≡ p =
                      ap (λ x. elim x [ none ↦ o | some y ↦ y ]) (sym found ∙ known) in
                    (both ms).1 (subst (λ x. Stands find x.root ms) same inner),
              ))
    ]
    link_node-LinksTo r (and_of ts) =
        let here = link_nodes-LinksEach r ts in
        elim (Outcome-cases (link_nodes roots ts)) [
          | inl (e, h) ↦ rw (h, link_node, LinksTo) tt
          | inr (ls, h) ↦
              let both = subst (LinksEach ts) h here in
              rw (h, link_node, LinksTo)
                (λ ms. (λ q. at_and ((both.0 ms).0 q), λ st. (both.0 ms).1 (from_and find st)))
        ]
    link_node-LinksTo r (or_of ts) =
        let here = link_nodes-LinksEach r ts in
        elim (Outcome-cases (link_nodes roots ts)) [
          | inl (e, h) ↦ rw (h, link_node, LinksTo) tt
          | inr (ls, h) ↦
              let both = subst (LinksEach ts) h here in
              rw (h, link_node, LinksTo)
                (λ ms. (λ q. at_or ((both.1 ms).0 q), λ st. (both.1 ms).1 (from_or find st)))
        ]

    link_nodes-LinksEach : RootsStand → (ts : Nodes) → LinksEach ts (link_nodes roots ts)
    link_nodes-LinksEach r no_nodes = (
      λ ms. (λ e. each_nil e, λ st. from_nil find st),
      λ ms. (λ e. absurd e, λ st. absurd (from_some find st)),
    )
    link_nodes-LinksEach r (node t ts) =
        let here = link_node-LinksTo r t in
        let rest = link_nodes-LinksEach r ts in
        elim (Outcome-cases (link_node roots t)) [
          | inl (e, h) ↦ rw (h, link_nodes, LinksEach) tt
          | inr (l, h) ↦ elim (Outcome-cases (link_nodes roots ts)) [
            | inl (e, k) ↦ rw (h, k, link_nodes, LinksEach) tt
            | inr (ls, k) ↦
                let one = subst (LinksTo t) h here in
                let both = subst (LinksEach ts) k rest in
                rw (h, k, link_nodes, LinksEach)
                  (
                    λ ms. (
                      λ (a, b, e, q, qs). each_node a b e ((one a).0 q) ((both.0 b).0 qs),
                      λ st.
                          let (a, b, e, x, xs) = from_each find st in
                          (a, b, e, (one a).1 x, (both.0 b).1 xs),
                    ),
                    λ ms. (
                      λ o. elim o [
                        | inl q ↦ one_here ((one ms).0 q)
                        | inr qs ↦ one_there ((both.1 ms).0 qs)
                      ],
                      λ st. elim (from_one find st) [
                        | inl x ↦ inl ((one ms).1 x)
                        | inr xs ↦ inr ((both.1 ms).1 xs)
                      ],
                    ),
                  )
          ]
        ]
