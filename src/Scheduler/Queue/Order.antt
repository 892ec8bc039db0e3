-- ===== src/Scheduler/Queue/Order.antt =====
-- fifo.go, enqueue: the order of the queue, by rank, priority and arrival.
use mathlib.Core.Bool.{false≢true}
use llama_swap_macos_extende.Prelude.{
  ◌≡◌, ◌<◌, ◌⊎◌, inl, inr, sym, ◌∙◌, Bool-cases, true, false, String, List, [], ◌∷◌, All, arith,
  if_cases,
}
use llama_swap_macos_extende.Prelude.Int.{ℤ, ◌≤ℤ◌, ◌<ℤ◌}
use llama_swap_macos_extende.Scheduler.Types.{HandlerReq, Fifo}
use llama_swap_macos_extende.Scheduler.Queue.{goes_before, insert_request, enqueue}

-- No request goes before one that stands ahead of it.
abbrev pub IsSorted : (String → ℤ) → List HandlerReq → Type 0
IsSorted p [] = Unit
IsSorted p (q ∷ qs) = All (λ x. goes_before p x q ≡ false) qs × IsSorted p qs

module _ (p : String → ℤ) where
  -- The order in words: rank, then priority, then arrival.
  Before : HandlerReq → HandlerReq → Type 0
  Before r q =
      (q.tier.rank <ℤ r.tier.rank)
      ⊎ ((r.tier.rank ≤ℤ q.tier.rank)
          × (q.tier.rank ≤ℤ r.tier.rank)
          × ((p q.model <ℤ p r.model)
              ⊎ ((p r.model ≤ℤ p q.model)
                  × (p q.model ≤ℤ p r.model)
                  × (r.arrival_seq < q.arrival_seq))))

  Before-of : (r q : HandlerReq) → goes_before p r q ≡ true → Before r q
  unfolding goes_before Before
  Before-of r q h = ground arith

  of_Before : (r q : HandlerReq) → Before r q → goes_before p r q ≡ true
  unfolding goes_before Before
  of_Before r q h = ground arith

  goes_before-false : (r q : HandlerReq) → (Before r q → ⊥) → goes_before p r q ≡ false
  goes_before-false r q h = elim (Bool-cases (goes_before p r q)) [
    | inl e ↦ absurd (h (Before-of r q e))
    | inr e ↦ e
  ]

  Before-asymm : (a b : HandlerReq) → Before a b → Before b a → ⊥
  unfolding Before
  Before-asymm a b h k = omega arith

  Before-trans : (a b c : HandlerReq) → Before a b → Before b c → Before a c
  unfolding Before
  Before-trans a b c h k = omega arith

  goes_before_asymm : (a b : HandlerReq) → goes_before p a b ≡ true → goes_before p b a ≡ false
  goes_before_asymm a b h = goes_before-false b a (Before-asymm a b (Before-of a b h))

  -- What does not go before `q` does not go before a request that does.
  goes_before_trans :
      (r q x : HandlerReq)
      → goes_before p r q ≡ true
      → goes_before p x q ≡ false
      → goes_before p x r ≡ false
  goes_before_trans r q x h k =
      goes_before-false x r
        (λ b. false≢true (sym k ∙ of_Before x q (Before-trans x r q b (Before-of r q h))))

  All-trans :
      (r q : HandlerReq) (qs : List HandlerReq)
      → goes_before p r q ≡ true
      → All (λ x. goes_before p x q ≡ false) qs
      → All (λ x. goes_before p x r ≡ false) qs
  All-trans r q [] h a = tt
  All-trans r q (x ∷ xs) h a = (goes_before_trans r q x h a.0, All-trans r q xs h a.1)

  All-insert :
      (q r : HandlerReq) (qs : List HandlerReq)
      → goes_before p r q ≡ false
      → All (λ x. goes_before p x q ≡ false) qs
      → All (λ x. goes_before p x q ≡ false) (insert_request p r qs)
  unfolding insert_request
  All-insert q r [] h a = (h, tt)
  All-insert q r (x ∷ xs) h a =
      if_cases (All (λ y. goes_before p y q ≡ false)) (goes_before p r x) _ _ (λ _. (h, a))
        (λ _. (a.0, All-insert q r xs h a.1))

  insert-IsSorted :
      (r : HandlerReq) (qs : List HandlerReq) → IsSorted p qs → IsSorted p (insert_request p r qs)
  unfolding insert_request
  insert-IsSorted r [] h = (tt, tt)
  insert-IsSorted r (q ∷ qs) h =
      if_cases (IsSorted p) (goes_before p r q) _ _
        (λ b. ((goes_before_asymm r q b, All-trans r q qs b h.0), h))
        (λ b. (All-insert q r qs b h.0, insert-IsSorted r qs h.1))

-- Queuing a request keeps the queue sorted, also one that arrived earlier and is queued again.
pub enqueue-IsSorted :
    (r : HandlerReq) (s : Fifo)
    → IsSorted s.cfg.priority s.queued
    → IsSorted s.cfg.priority (enqueue r s).queued
unfolding enqueue
enqueue-IsSorted r s h = insert-IsSorted s.cfg.priority r s.queued h
