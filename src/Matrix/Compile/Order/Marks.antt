-- ===== src/Matrix/Compile/Order/Marks.antt =====
-- internal/matrix/program.go, topologicalOrder: the begin and the end of a visit.
use llama_swap_macos_extende.Prelude.{
  ◌≡◌, inl, inr, sym, ap, ◌∙◌, subst, true, false, String, List, [], ◌∷◌, ◌++◌, contains_string,
  str_eq, str_eq_iff, str_eq_refl, arith, Bool-cases,
}
use llama_swap_macos_extende.Matrix.Evaluate.Registry.{contains-append}
use llama_swap_macos_extende.Matrix.Compile.{
  unvisited, visiting, visited, Walk, begin_visit, end_visit,
}
use llama_swap_macos_extende.Matrix.Compile.Order.{
  Reach, direct, through, Ordered-append, Good, Later,
}

pub str_eq_swap : (s t : String) → str_eq s t ≡ false → str_eq t s ≡ false
str_eq_swap s t e = elim (Bool-cases (str_eq t s)) [
  | inl h ↦
      absurd (ground (arith, subst (λ k. str_eq k t ≡ true) ((str_eq_iff t s).0 h) (str_eq_refl t)))
  | inr h ↦ h
]

module _ (deps : String → List String) (names : List String) where
  abbrev pub AllVisited : List String → Walk → Type 0
  AllVisited ds v = (d : String) → contains_string ds d ≡ true → v.state d ≡ visited

  -- A name begins to be visited.
  pub begin_visit-Good :
      (w : Walk) (name : String)
      → w.state name ≡ unvisited
      → Good deps names w
      → Good deps names (begin_visit w name)
  begin_visit-Good w name e g = record {
    ordered = g.ordered;
    inside = g.inside;
    listed = λ m h. elim (Bool-cases (str_eq m name)) [
      | inl s ↦ absurd (ground arith)
      | inr s ↦ g.listed m (ground arith)
    ];
    only = λ m h. elim (Bool-cases (str_eq m name)) [
      | inl s ↦
          let same : w.state m ≡ unvisited = ap w.state ((str_eq_iff m name).0 s) ∙ e in
          absurd (ground (arith, g.only m h))
      | inr s ↦ ground (arith, g.only m h)
    ];
  }

  -- The visit of a name ends after those that it depends on.
  pub end_visit-Later :
      (w v : Walk) (name : String)
      → contains_string names name ≡ true
      → w.state name ≡ unvisited
      → Later deps names (begin_visit w name) v
      → AllVisited (deps name) v
      → Later deps names w (end_visit v name)
  end_visit-Later w v name known e l all =
      let here : v.state name ≡ visiting = l.still name (ground (arith, str_eq_refl name)) in
      let out : contains_string v.order name ≡ false =
        elim (Bool-cases (contains_string v.order name)) [
          | inl c ↦ absurd (ground (arith, l.good.only name c))
          | inr c ↦ c
        ] in
      record {
        good = record {
          ordered =
              Ordered-append deps [] v.order name l.good.ordered (λ d c. l.good.listed d (all d c))
                out;
          inside = λ m h. elim (Bool-cases (str_eq name m)) [
            | inl s ↦ subst (λ k. contains_string names k ≡ true) ((str_eq_iff name m).0 s) known
            | inr s ↦ l.good.inside m (ground (arith, contains-append v.order (name ∷ []) m))
          ];
          listed = λ m h. elim (Bool-cases (str_eq m name)) [
            | inl s ↦
                subst (λ y. contains_string (v.order ++ name ∷ []) y ≡ true)
                  (sym ((str_eq_iff m name).0 s))
                  (ground (arith, str_eq_refl name, contains-append v.order (name ∷ []) name))
            | inr s ↦
                let old = l.good.listed m (ground arith) in
                ground (arith, contains-append v.order (name ∷ []) m)
          ];
          only = λ m h. elim (Bool-cases (str_eq m name)) [
            | inl s ↦ ground arith
            | inr s ↦
                let other = str_eq_swap m name s in
                let old = l.good.only m (ground (arith, contains-append v.order (name ∷ []) m)) in
                ground arith
          ];
        };
        kept = λ m h. elim (Bool-cases (str_eq m name)) [
          | inl s ↦ ground arith
          | inr s ↦ let old = l.kept m (ground arith) in ground arith
        ];
        still = λ m h. elim (Bool-cases (str_eq m name)) [
          | inl s ↦
              let same : w.state m ≡ unvisited = ap w.state ((str_eq_iff m name).0 s) ∙ e in
              absurd (ground arith)
          | inr s ↦ let old = l.still m (ground arith) in ground arith
        ];
        before = λ m h. elim (Bool-cases (str_eq m name)) [
          | inl s ↦ absurd (ground arith)
          | inr s ↦ let old = l.before m (ground arith) in ground arith
        ];
        fresh = λ m h. elim (Bool-cases (str_eq m name)) [
          | inl s ↦ absurd (ground arith)
          | inr s ↦ let old = l.fresh m (ground arith) in ground arith
        ];
      }

  -- Whatever is being visited leads to what the name depends on.
  pub Reach-next :
      (w : Walk) (d m x : String)
      → ((k : String) → w.state k ≡ visiting → Reach deps k d)
      → contains_string (deps d) x ≡ true
      → (begin_visit w d).state m ≡ visiting
      → Reach deps m x
  Reach-next w d m x leads c h = elim (Bool-cases (str_eq m d)) [
    | inl s ↦ subst (λ k. Reach deps k x) (sym ((str_eq_iff m d).0 s)) (direct c)
    | inr s ↦ through (leads m (ground arith)) c
  ]
