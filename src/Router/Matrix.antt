-- ===== src/Router/Matrix.antt =====
-- internal/router/matrix.go: the decision that the planner of the matrix keeps.
use llama_swap_macos_extende.Prelude.{
  ◌≡◌, refl, ap, ◌∙◌, subst, true, String, List, [], ◌∷◌, Option, none, some, map, str_eq_iff,
  arith, if_cases,
}
use llama_swap_macos_extende.Matrix.Program.{Decision, solve}
use llama_swap_macos_extende.Router.Planners.{
  LastResult, MatrixSwapper, equal_strings, is_last, solve_anew, answer_from, solve_cached,
  matrix_eviction_for, evictions_for,
}

equal_strings-path : (xs ys : List String) → equal_strings xs ys ≡ true → xs ≡ ys
unfolding equal_strings
equal_strings-path [] [] e = refl
equal_strings-path [] (y ∷ ys) e = absurd (ground arith)
equal_strings-path (x ∷ xs) [] e = absurd (ground arith)
equal_strings-path (x ∷ xs) (y ∷ ys) e =
    let head : x ≡ y = (str_eq_iff x y).0 (ground arith) in
    let tail : xs ≡ ys = equal_strings-path xs ys (ground arith) in
    ap (λ z. z ∷ xs) head ∙ ap (λ zs. y ∷ zs) tail

-- The decision for a question, by the planner's program.
abbrev pub fresh : MatrixSwapper → String → List String → Decision
fresh p target running = solve p.program target running p.evict_costs

-- What is kept is what the program decides for the question that it was kept for.
abbrev pub IsCoherent : MatrixSwapper → Type 0
IsCoherent p = (l : LastResult) → p.last ≡ some l → l.result ≡ fresh p l.target l.running

-- A question to a coherent planner.
record Answered (p : MatrixSwapper) (target : String) (running : List String)
    (r : Decision × MatrixSwapper) : Type 0 where
  same : r.0 ≡ fresh p target running
  coherent : IsCoherent r.1
  program : r.1.program ≡ p.program
  evict_costs : r.1.evict_costs ≡ p.evict_costs

solve_anew-Answered :
    (p : MatrixSwapper) (target : String) (running : List String)
    → Answered p target running (solve_anew p target running)
unfolding solve_anew
solve_anew-Answered p target running = record {
  same = refl;
  coherent = λ l e.
      let kept : LastResult = record {
        target = target;
        running = running;
        result = fresh p target running;
      } in
      let same : kept ≡ l = ap (λ o. elim o [ none ↦ kept | some x ↦ x ]) e in
      subst (λ x. x.result ≡ fresh p x.target x.running) same refl;
  program = refl;
  evict_costs = refl;
}

fresh-is_last :
    (p : MatrixSwapper) (l : LastResult) (target : String) (running : List String)
    → is_last l target running ≡ true
    → fresh p l.target l.running ≡ fresh p target running
unfolding is_last
fresh-is_last p l target running h =
    let a : l.target ≡ target = (str_eq_iff l.target target).0 (ground arith) in
    let b : l.running ≡ running = equal_strings-path l.running running (ground arith) in
    ap (λ t. fresh p t l.running) a ∙ ap (λ rs. fresh p target rs) b

answer_from-Answered :
    (last : Option LastResult) (p : MatrixSwapper) (target : String) (running : List String)
    → IsCoherent p
    → ((l : LastResult) → last ≡ some l → l.result ≡ fresh p l.target l.running)
    → Answered p target running (answer_from last p target running)
unfolding answer_from
answer_from-Answered none p target running c kept = solve_anew-Answered p target running
answer_from-Answered (some l) p target running c kept =
    if_cases (Answered p target running) (is_last l target running) (l.result, p)
      (solve_anew p target running)
      (λ h. record {
        same = kept l refl ∙ fresh-is_last p l target running h;
        coherent = c;
        program = refl;
        evict_costs = refl;
      })
      (λ h. solve_anew-Answered p target running)

solve_cached-Answered :
    (p : MatrixSwapper) (target : String) (running : List String)
    → IsCoherent p
    → Answered p target running (solve_cached p target running)
unfolding solve_cached
solve_cached-Answered p target running c = answer_from-Answered p.last p target running c c

-- A planner of the matrix that is asked any number of questions answers each with the evictions
-- that its program decides afresh, if what it keeps at the start is such a decision for the
-- question that it was kept for.
pub evictions_for-solve :
    (p : MatrixSwapper) (questions : List (String × List String))
    → IsCoherent p
    → evictions_for p questions ≡ map (λ q. (fresh p q.0 q.1).evict) questions
unfolding evictions_for matrix_eviction_for
evictions_for-solve p [] c = refl
evictions_for-solve p (q ∷ qs) c =
    let r = solve_cached-Answered p q.0 q.1 c in
    let next = (solve_cached p q.0 q.1).1 in
    ap (λ d. d.evict ∷ evictions_for next qs) r.same
    ∙ ap (λ es. (fresh p q.0 q.1).evict ∷ es)
        (evictions_for-solve next qs r.coherent
          ∙ ap (λ pr. map (λ k. (solve pr k.0 k.1 next.evict_costs).evict) qs) r.program
          ∙ ap (λ cs. map (λ k. (solve p.program k.0 k.1 cs).evict) qs) r.evict_costs)
