-- ===== src/Scheduler/Conserve/Lists.antt =====
-- Counts of identities over the lists of the scheduler: the queue, the swaps, filtered lists.
use llama_swap_macos_extende.Prelude.{
  ℕ, ◌+◌, ◌==◌, ◌≡◌, refl, Bool, true, false, not, List, [], ◌∷◌, ◌++◌, some, arith, if◌then◌else◌,
  keep, String, map,
}
use llama_swap_macos_extende.Prelude.Int.{ℤ}
use llama_swap_macos_extende.Scheduler.Types.{HandlerReq, ActiveSwap, Fifo}
use llama_swap_macos_extende.Scheduler.Queue.{insert_request, enqueue}
use llama_swap_macos_extende.Scheduler.Swaps.{is_active, find_swap, delete_swap, join_swap}
use llama_swap_macos_extende.Scheduler.Events.{waiters_of, others, without_waiter}
use llama_swap_macos_extende.Scheduler.Conserve.{one, occurs, waiting, elsewhere}

pub occurs-append :
    (id : ℕ) (xs ys : List HandlerReq) → occurs id (xs ++ ys) ≡ occurs id xs + occurs id ys
occurs-append id [] ys = omega arith
occurs-append id (x ∷ xs) ys = omega (arith, occurs-append id xs ys)

occurs-insert :
    (id : ℕ) (p : String → ℤ) (r : HandlerReq) (qs : List HandlerReq)
    → occurs id (insert_request p r qs) ≡ one id r.respond + occurs id qs
unfolding insert_request
occurs-insert id p r [] = omega arith
occurs-insert id p r (q ∷ qs) = ground (arith, occurs-insert id p r qs)

-- The queue gains exactly the request, and nothing moves elsewhere.
pub occurs-enqueue :
    (id : ℕ) (r : HandlerReq) (s : Fifo)
    → occurs id (enqueue r s).queued ≡ one id r.respond + occurs id s.queued
unfolding enqueue
occurs-enqueue id r s = occurs-insert id s.cfg.priority r s.queued

pub elsewhere-enqueue :
    (id : ℕ) (r : HandlerReq) (s : Fifo) → elsewhere id (enqueue r s) ≡ elsewhere id s
unfolding enqueue
elsewhere-enqueue id r s = refl

pub waiting-join :
    (id : ℕ) (r : HandlerReq) (active : List ActiveSwap)
    → is_active r.model active ≡ true
    → waiting id (join_swap r active) ≡ one id r.respond + waiting id active
unfolding is_active join_swap
waiting-join id r [] h = absurd (ground arith)
waiting-join id r (sw ∷ rest) h =
    ground (arith, waiting-join id r rest, occurs-append id sw.waiters (r ∷ []))

pub delete-inactive :
    (m : String) (active : List ActiveSwap)
    → is_active m active ≡ false
    → delete_swap m active ≡ active
unfolding is_active delete_swap
delete-inactive m [] h = refl
delete-inactive m (sw ∷ rest) h = ground (arith, delete-inactive m rest)

pub waiting-delete :
    (id : ℕ) (m : String) (active : List ActiveSwap) (sw : ActiveSwap)
    → find_swap m active ≡ some sw
    → waiting id active ≡ occurs id sw.waiters + waiting id (delete_swap m active)
unfolding find_swap delete_swap
waiting-delete id m [] sw h = absurd (ground arith)
waiting-delete id m (x ∷ rest) sw h = ground (arith, waiting-delete id m rest sw)

pub occurs-partition :
    (id : ℕ) (p : HandlerReq → Bool) (rs : List HandlerReq)
    → occurs id (keep p rs) + occurs id (keep (λ r. not (p r)) rs) ≡ occurs id rs
occurs-partition id p [] = refl
occurs-partition id p (r ∷ rs) = ground (arith, occurs-partition id p rs)

pub waiting-partition :
    (id : ℕ) (p : ActiveSwap → Bool) (active : List ActiveSwap)
    → occurs id (waiters_of (keep p active)) + waiting id (keep (λ sw. not (p sw)) active)
      ≡ waiting id active
unfolding waiters_of
waiting-partition id p [] = refl
waiting-partition id p (sw ∷ rest) =
    ground
      (arith, waiting-partition id p rest, occurs-append id sw.waiters (waiters_of (keep p rest)))

pub occurs-waiters :
    (id : ℕ) (active : List ActiveSwap) → occurs id (waiters_of active) ≡ waiting id active
unfolding waiters_of
occurs-waiters id [] = refl
occurs-waiters id (sw ∷ rest) =
    omega (arith, occurs-waiters id rest, occurs-append id sw.waiters (waiters_of rest))

-- The cancelled identity is gone, and every other stays as often as before.
pub occurs-others :
    (id : ℕ) (r : HandlerReq) (qs : List HandlerReq)
    → occurs id (others r qs) ≡ (if r.respond == id then 0 else occurs id qs)
occurs-others id r [] = ground arith
occurs-others id r (q ∷ qs) = ground (arith, occurs-others id r qs)

pub waiting-others :
    (id : ℕ) (r : HandlerReq) (active : List ActiveSwap)
    → waiting id (map (without_waiter r) active)
      ≡ (if r.respond == id then 0 else waiting id active)
waiting-others id r [] = ground arith
waiting-others id r (sw ∷ rest) =
    ground (arith, waiting-others id r rest, occurs-others id r sw.waiters)
