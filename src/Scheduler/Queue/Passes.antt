-- ===== src/Scheduler/Queue/Passes.antt =====
-- fifo.go, drainQueue: a pass and the order of the queue.
use llama_swap_macos_extende.Prelude.{
  ◌≡◌, refl, ◌∙◌, subst, List, [], ◌∷◌, String, Option, none, false, All, if_cases, if◌then◌else◌,
}
use llama_swap_macos_extende.Prelude.Int.{ℤ}
use llama_swap_macos_extende.Scheduler.Types.{HandlerReq, World, Fifo, rank_barrier}
use llama_swap_macos_extende.Scheduler.KvWarm.{kv_warm_prune}
use llama_swap_macos_extende.Scheduler.Grant.{Decision, stuck, settled}
use llama_swap_macos_extende.Scheduler.Queue.{goes_before}
use llama_swap_macos_extende.Scheduler.Drain.{
  decided, below_barrier, barrier_after, state_after, keep_stuck, drain_loop, drain_all,
  drain_queue,
}
use llama_swap_macos_extende.Scheduler.Queue.Order.{IsSorted}
use llama_swap_macos_extende.Scheduler.Queue.Lines.{
  Lines, Lines-refl, Lines-trans, SameKey, SameKey-refl, goes_before-SameKey, SortedBy,
  mark_parked-Filed,
}
use llama_swap_macos_extende.Scheduler.Queue.Decide.{Files, decide-Files}

decided-Files :
    (w : World) (barrier : Option ℤ) (r : HandlerReq) (s : Fifo) → Files r s (decided w barrier r s)
decided-Files w barrier r s =
    if_cases (Files r s) (below_barrier barrier r) _ _ (λ _. mark_parked-Filed rank_barrier (r, s))
      (λ _. decide-Files w r s)

Lines-decision : (r : HandlerReq) (s : Fifo) (d : Decision) → Files r s d → Lines s (state_after d)
Lines-decision r s (stuck p) f = f.lines
Lines-decision r s (settled t) f = f

pub drain_loop-Lines :
    (w : World) (rs : List HandlerReq) (barrier : Option ℤ) (s : Fifo)
    → Lines s (drain_loop w rs barrier s).1
unfolding drain_loop
drain_loop-Lines w [] barrier s = Lines-refl s
drain_loop-Lines w (r ∷ rs) barrier s =
    let d = decided w barrier r s in
    Lines-trans (Lines-decision r s d (decided-Files w barrier r s)) (
      drain_loop-Lines w rs (if below_barrier barrier r then barrier else barrier_after barrier d)
        (state_after d))

-- What holds of all requests and depends on their keys holds of those that remain.
keep_stuck-All :
    (P : HandlerReq → Type 0) (same : (q q' : HandlerReq) → SameKey q q' → P q → P q')
    (r : HandlerReq) (s : Fifo) (d : Decision) (rest : List HandlerReq)
    → Files r s d
    → P r
    → All P rest
    → All P (keep_stuck d rest)
keep_stuck-All P same r s (stuck p) rest f h k = (same r p.0 f.key h, k)
keep_stuck-All P same r s (settled t) rest f h k = k

drain_loop-All :
    (P : HandlerReq → Type 0) (same : (q q' : HandlerReq) → SameKey q q' → P q → P q') (w : World)
    (rs : List HandlerReq) (barrier : Option ℤ) (s : Fifo)
    → All P rs
    → All P (drain_loop w rs barrier s).0
unfolding drain_loop
drain_loop-All P same w [] barrier s h = tt
drain_loop-All P same w (r ∷ rs) barrier s h =
    let d = decided w barrier r s in
    keep_stuck-All P same r s d _ (decided-Files w barrier r s) h.0 (
      drain_loop-All P same w rs
        (if below_barrier barrier r then barrier else barrier_after barrier d) (state_after d) h.1)

keep_stuck-IsSorted :
    (p : String → ℤ) (r : HandlerReq) (s : Fifo) (d : Decision) (rest : List HandlerReq)
    → Files r s d
    → All (λ x. goes_before p x r ≡ false) rest
    → ((q : HandlerReq) → SameKey r q → All (λ x. goes_before p x q ≡ false) rest)
    → IsSorted p rest
    → IsSorted p (keep_stuck d rest)
keep_stuck-IsSorted p r s (stuck q) rest f h k i = (k q.0 f.key, i)
keep_stuck-IsSorted p r s (settled t) rest f h k i = i

drain_loop-IsSorted :
    (p : String → ℤ) (w : World) (rs : List HandlerReq) (barrier : Option ℤ) (s : Fifo)
    → IsSorted p rs
    → IsSorted p (drain_loop w rs barrier s).0
unfolding drain_loop
drain_loop-IsSorted p w [] barrier s h = tt
drain_loop-IsSorted p w (r ∷ rs) barrier s h =
    let d = decided w barrier r s in
    let b = if below_barrier barrier r then barrier else barrier_after barrier d in
    let behind : (q : HandlerReq)
        → SameKey r q
        → All (λ x. goes_before p x q ≡ false) (drain_loop w rs b (state_after d)).0 =
      λ q e.
        drain_loop-All (λ x. goes_before p x q ≡ false)
          (λ x y g k. goes_before-SameKey p x y q q g (SameKey-refl q) ∙ k) w rs b (state_after d)
          (All-key p r q e rs h.0) in
    keep_stuck-IsSorted p r s d _ (decided-Files w barrier r s) (behind r (SameKey-refl r)) behind
      (drain_loop-IsSorted p w rs b (state_after d) h.1)
  where
    All-key :
        (p : String → ℤ) (r q : HandlerReq)
        → SameKey r q
        → (rs : List HandlerReq) → All (λ x. goes_before p x r ≡ false) rs
        → All (λ x. goes_before p x q ≡ false) rs
    All-key p r q e [] h = tt
    All-key p r q e (x ∷ xs) h =
        (goes_before-SameKey p x x r q (SameKey-refl x) e ∙ h.0, All-key p r q e xs h.1)

drain_all-SortedBy :
    (p : String → ℤ) (w : World) (rs : List HandlerReq) (s : Fifo)
    → s.queued ≡ rs
    → SortedBy p s
    → SortedBy p (drain_all w rs s)
unfolding drain_all kv_warm_prune
drain_all-SortedBy p w [] s e h = h
drain_all-SortedBy p w (r ∷ rs) s e h = (
  (drain_loop-Lines w (r ∷ rs) none s).priority ∙ h.0,
  drain_loop-IsSorted p w (r ∷ rs) none s (subst (IsSorted p) e h.1),
)

pub drain_queue-SortedBy :
    (p : String → ℤ) (w : World) (s : Fifo) → SortedBy p s → SortedBy p (drain_queue w s)
unfolding drain_queue
drain_queue-SortedBy p w s h = drain_all-SortedBy p w s.queued s refl h
