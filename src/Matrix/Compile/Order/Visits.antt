-- ===== src/Matrix/Compile/Order/Visits.antt =====
-- internal/matrix/program.go, topologicalOrder: the visit of a name, and the order that it ends with.
use llama_swap_macos_extende.Prelude.{
  ℕ, zero, suc, ◌<◌, ◌≡◌, ◌⊎◌, inl, inr, refl, subst, true, String, List, [], ◌∷◌, length,
  contains_string, str_eq, str_eq_iff, str_eq_refl, arith, Bool-cases,
}
use llama_swap_macos_extende.Matrix.Compile.{
  CompileError, circular, Outcome, error, ok, visiting, visited, Walk, begin_visit, fresh_walk,
  visit_each, visit_set, visit_if_unvisited, topological_order,
}
use llama_swap_macos_extende.Matrix.Compile.Order.{
  Reach, Ordered, Good, Later, Later-refl, Later-trans, open_count, open_count-le,
  open_count-length, open_count-begin_visit, Mark-cases,
}
use llama_swap_macos_extende.Matrix.Compile.Order.Marks.{
  AllVisited, begin_visit-Good, end_visit-Later, Reach-next,
}

pub Outcome-cases {ℓ} :
    {A : Type ℓ} (r : Outcome A) → ((e : CompileError) × (r ≡ error e)) ⊎ ((a : A) × (r ≡ ok a))
Outcome-cases (error e) = inl (e, refl)
Outcome-cases (ok a) = inr (a, refl)

module _ (deps : String → List String) (names : List String) where
  -- An error that a circle of names is the reason of.
  abbrev pub IsCircle : CompileError → Type 0
  IsCircle e = (x : String) × (e ≡ circular x) × Reach deps x x

  -- What an outcome has to be, for a walk that begins at `w`.
  abbrev Spec : Walk → (Walk → Type 0) → Outcome Walk → Type 0
  Spec w P (error e) = IsCircle e
  Spec w P (ok v) = Later deps names w v × P v

  -- The name `d` may be visited: the names that are being visited lead to it, and the fuel is enough.
  record Ready (R : String → String → Type 0) (n : ℕ) (w : Walk) (d : String) : Type 0 where
    good : Good deps names w
    known : contains_string names d ≡ true
    fuel : open_count w names < n
    leads : (m : String) → w.state m ≡ visiting → R m d

  Ready-Later :
      (R : String → String → Type 0) (n : ℕ) (w v : Walk) (d : String)
      → Later deps names w v
      → Ready R n w d
      → Ready R n v d
  Ready-Later R n w v d l r = record {
    good = l.good;
    known = r.known;
    fuel = omega (arith, r.fuel, open_count-le w v names l.fresh);
    leads = λ m e. r.leads m (l.before m e);
  }

  abbrev Steps : (String → String → Type 0) → ℕ → (Walk → String → Outcome Walk) → Type 0
  Steps R n visit =
      (w : Walk) (d : String) → Ready R n w d → Spec w (λ v. v.state d ≡ visited) (visit w d)

  visit_each-Spec :
      (R : String → String → Type 0) (n : ℕ) (visit : Walk → String → Outcome Walk)
      → Steps R n visit
      → (ds : List String) (w : Walk) → Good deps names w
      → ((d : String) → contains_string ds d ≡ true → Ready R n w d)
      → Spec w (AllVisited deps names ds) (visit_each visit w ds)
  unfolding visit_each
  visit_each-Spec R n visit step [] w g r =
      (Later-refl deps names w g, λ d e. absurd (ground arith))
  visit_each-Spec R n visit step (x ∷ ds) w g r =
      let here = step w x (r x (ground (arith, str_eq_refl x))) in
      elim (Outcome-cases (visit w x)) [
        | inl (e, h) ↦ rw (h, visit_each) (subst (Spec w (λ v. v.state x ≡ visited)) h here)
        | inr (v, h) ↦
            let (l, at) = subst (Spec w (λ v. v.state x ≡ visited)) h here in
            let rest =
              visit_each-Spec R n visit step ds v l.good
                (λ d c. Ready-Later R n w v d l (r d (ground arith))) in
            rw (h, visit_each) (join (visit_each visit v ds) v l at rest)
      ]
    where
      join :
          (o : Outcome Walk) (v : Walk)
          → Later deps names w v
          → v.state x ≡ visited
          → Spec v (AllVisited deps names ds) o
          → Spec w (AllVisited deps names (x ∷ ds)) o
      join (error e) v l at s = s
      join (ok z) v l at s = (
        Later-trans deps names w v z l s.0,
        λ d c. elim (Bool-cases (str_eq x d)) [
          | inl q ↦ subst (λ y. z.state y ≡ visited) ((str_eq_iff x d).0 q) (s.0.kept x at)
          | inr q ↦ s.1 d (ground arith)
        ],
      )

  visit_set-Steps :
      (n : ℕ)
      → ((a d : String)
          → contains_string names a ≡ true
          → contains_string (deps a) d ≡ true
          → contains_string names d ≡ true)
      → Steps (Reach deps) n (visit_set deps n)
  unfolding visit_set
  visit_set-Steps zero closed w d r = absurd (omega (arith, r.fuel))
  visit_set-Steps (suc n) closed w d r = elim (Mark-cases (w.state d)) [
    | inr (inl e) ↦ rw (e, visit_set) (d, refl, r.leads d e)
    | inr (inr e) ↦ rw (e, visit_set) (Later-refl deps names w r.good, e)
    | inl e ↦
        let one = open_count-begin_visit w d names r.known e in
        let inner =
          visit_each-Spec (Reach deps) n (visit_set deps n) (visit_set-Steps n closed) (deps d)
            (begin_visit w d) (begin_visit-Good deps names w d e r.good)
            (λ x c. record {
              good = begin_visit-Good deps names w d e r.good;
              known = closed d x r.known c;
              fuel = omega (arith, one, r.fuel);
              leads = λ m h. Reach-next deps names w d m x r.leads c h;
            }) in
        elim (Outcome-cases (visit_each (visit_set deps n) (begin_visit w d) (deps d))) [
          | inl (x, h) ↦
              rw (e, h, visit_set)
                (subst (Spec (begin_visit w d) (AllVisited deps names (deps d))) h inner)
          | inr (v, h) ↦
              let (l, all) =
                subst (Spec (begin_visit w d) (AllVisited deps names (deps d))) h inner in
              rw (e, h, visit_set)
                (end_visit-Later deps names w v d r.known e l all, ground (arith, str_eq_refl d))
        ]
  ]

  -- At the top nothing is being visited.
  abbrev Nothing : String → String → Type 0
  Nothing m d = ⊥

  visit_if_unvisited-Steps :
      (n : ℕ)
      → ((a d : String)
          → contains_string names a ≡ true
          → contains_string (deps a) d ≡ true
          → contains_string names d ≡ true)
      → Steps Nothing n (visit_if_unvisited deps n)
  unfolding visit_if_unvisited
  visit_if_unvisited-Steps n closed w d r = elim (Mark-cases (w.state d)) [
    | inr (inl e) ↦ absurd (r.leads d e)
    | inr (inr e) ↦ rw (e, visit_if_unvisited) (Later-refl deps names w r.good, e)
    | inl e ↦
        rw (e, visit_if_unvisited)
          (visit_set-Steps n closed w d (record {
            good = r.good;
            known = r.known;
            fuel = r.fuel;
            leads = λ m h. absurd (r.leads m h);
          }))
  ]

  -- An order has every name after those that it depends on; an error names a circle.
  abbrev pub IsOrderOrCircle : Outcome (List String) → Type 0
  IsOrderOrCircle (error e) = IsCircle e
  IsOrderOrCircle (ok order) =
      Ordered deps [] order
      × ((d : String) → contains_string names d ≡ true → contains_string order d ≡ true)
      × ((d : String) → contains_string order d ≡ true → contains_string names d ≡ true)

  -- If every name that a set depends on is a name of a set, then the topological order has every
  -- set, only sets, each once and after those that it depends on; or the error names a set that
  -- depends on itself, at once or through others. The fuel is enough.
  pub topological_order_lem :
      ((a d : String)
        → contains_string names a ≡ true
        → contains_string (deps a) d ≡ true
        → contains_string names d ≡ true)
      → IsOrderOrCircle (topological_order names deps)
  unfolding topological_order
  topological_order_lem closed =
      let whole =
        visit_each-Spec Nothing (suc (length names)) _
          (visit_if_unvisited-Steps (suc (length names)) closed) names fresh_walk start
          (λ d c. record {
            good = start;
            known = c;
            fuel = omega (arith, open_count-length fresh_walk names);
            leads = λ m h. ground arith;
          }) in
      elim (Outcome-cases
        (visit_each (visit_if_unvisited deps (suc (length names))) fresh_walk names)) [
          | inl (e, h) ↦
              rw (h, topological_order)
                (subst (Spec fresh_walk (AllVisited deps names names)) h whole)
          | inr (v, h) ↦
              let (l, all) = subst (Spec fresh_walk (AllVisited deps names names)) h whole in
              rw (h, topological_order)
                (l.good.ordered, λ d c. l.good.listed d (all d c), l.good.inside)
        ]
    where
      start : Good deps names fresh_walk
      start = record {
        ordered = tt;
        listed = λ m h. absurd (ground arith);
        inside = λ m h. absurd (ground arith);
        only = λ m h. absurd (ground arith);
      }
