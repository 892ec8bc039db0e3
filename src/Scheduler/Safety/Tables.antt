-- ===== src/Scheduler/Safety/Tables.antt =====
-- The tables of counts and of active swaps under the operations of fifo.go.
use llama_swap_macos_extende.Prelude.{
  ℕ, ◌≤◌, ◌≡◌, refl, false, String, List, [], ◌∷◌, some, All, arith, if_cases, inl, inr, Bool-cases,
  update, str_eq, str_eq_iff, contains_string,
}
use llama_swap_macos_extende.Scheduler.Types.{HandlerReq, ActiveSwap}
use llama_swap_macos_extende.Scheduler.Swaps.{
  is_active, find_swap, delete_swap, join_swap, swap_collides, slices_overlap, collides_with,
  conflicts_with_in_flight,
}
use llama_swap_macos_extende.Scheduler.Safety.{Idle, Apart, SwapsApart, SafeSwaps}

-- No active swap evicts the model.
abbrev pub Spared : String → List ActiveSwap → Type 0
Spared m active = All (λ sw. contains_string sw.evict m ≡ false) active

conflicts-raise :
    (m : String) (n : ℕ) (f : String → ℕ) (evict : List String)
    → contains_string evict m ≡ false
    → conflicts_with_in_flight evict f ≡ false
    → conflicts_with_in_flight evict (update f m n) ≡ false
unfolding conflicts_with_in_flight
conflicts-raise m n f [] h c = refl
conflicts-raise m n f (e ∷ es) h c = ground (arith, conflicts-raise m n f es)

conflicts-lower :
    (m : String) (n : ℕ) (f : String → ℕ) (evict : List String)
    → n ≤ f m
    → conflicts_with_in_flight evict f ≡ false
    → conflicts_with_in_flight evict (update f m n) ≡ false
unfolding conflicts_with_in_flight
conflicts-lower m n f [] h c = refl
conflicts-lower m n f (e ∷ es) h c = ground (arith, conflicts-lower m n f es, str_eq_iff e m)

-- A count rises for a model that no swap evicts.
pub Idle-raise :
    (m : String) (n : ℕ) (f : String → ℕ) (active : List ActiveSwap)
    → Spared m active
    → Idle f active
    → Idle (update f m n) active
Idle-raise m n f [] sp h = tt
Idle-raise m n f (sw ∷ rest) sp h =
    (conflicts-raise m n f sw.evict sp.0 h.0, Idle-raise m n f rest sp.1 h.1)

-- A count falls.
pub Idle-lower :
    (m : String) (n : ℕ) (f : String → ℕ) (active : List ActiveSwap)
    → n ≤ f m
    → Idle f active
    → Idle (update f m n) active
Idle-lower m n f [] le h = tt
Idle-lower m n f (sw ∷ rest) le h =
    (conflicts-lower m n f sw.evict le h.0, Idle-lower m n f rest le h.1)

-- The swap that ended evicted nothing of the others' and no other evicts its target.
find-apart :
    (m : String) (x : ActiveSwap) (active : List ActiveSwap) (sw : ActiveSwap)
    → find_swap m active ≡ some sw
    → All (SwapsApart x) active
    → contains_string x.evict m ≡ false
unfolding find_swap
find-apart m x [] sw e h = absurd (ground arith)
find-apart m x (y ∷ rest) sw e h = elim (Bool-cases (str_eq y.model_id m)) [
  | inl k ↦ rw (← (str_eq_iff y.model_id m).0 k) h.0.0
  | inr k ↦ find-apart m x rest sw (rw k at e) h.1
]

Spared-rest :
    (m : String) (x : ActiveSwap) (rest : List ActiveSwap)
    → x.model_id ≡ m
    → All (SwapsApart x) rest
    → Spared m rest
Spared-rest m x [] e h = tt
Spared-rest m x (y ∷ rest) e h = (rw (← e) h.0.1, Spared-rest m x rest e h.1)

pub Spared-delete :
    (m : String) (active : List ActiveSwap) (sw : ActiveSwap)
    → find_swap m active ≡ some sw
    → Apart active
    → Spared m (delete_swap m active)
unfolding find_swap delete_swap
Spared-delete m [] sw e h = tt
Spared-delete m (x ∷ rest) sw e h = elim (Bool-cases (str_eq x.model_id m)) [
  | inl k ↦ rw k (Spared-rest m x rest ((str_eq_iff x.model_id m).0 k) h.0)
  | inr k ↦
      let found : find_swap m rest ≡ some sw = rw k at e in
      rw k (find-apart m x rest sw found h.0, Spared-delete m rest sw found h.1)
]

pub All-delete {κ} :
    (P : ActiveSwap → Type κ) (m : String) (active : List ActiveSwap)
    → All P active
    → All P (delete_swap m active)
unfolding delete_swap
All-delete P m [] h = tt
All-delete P m (sw ∷ rest) h =
    if_cases (All P) (str_eq sw.model_id m) rest (sw ∷ delete_swap m rest) (λ _. h.1)
      (λ _. (h.0, All-delete P m rest h.1))

Apart-delete : (m : String) (active : List ActiveSwap) → Apart active → Apart (delete_swap m active)
unfolding delete_swap
Apart-delete m [] h = tt
Apart-delete m (sw ∷ rest) h =
    if_cases Apart (str_eq sw.model_id m) rest (sw ∷ delete_swap m rest) (λ _. h.1)
      (λ _. (All-delete (SwapsApart sw) m rest h.0, Apart-delete m rest h.1))

Idle-join :
    (r : HandlerReq) (f : String → ℕ) (active : List ActiveSwap)
    → Idle f active
    → Idle f (join_swap r active)
unfolding join_swap
Idle-join r f [] h = tt
Idle-join r f (sw ∷ rest) h =
    if_cases (Idle f) (str_eq sw.model_id r.model) _ (sw ∷ join_swap r rest) (λ _. (h.0, h.1))
      (λ _. (h.0, Idle-join r f rest h.1))

All-apart-join :
    (r : HandlerReq) (x : ActiveSwap) (active : List ActiveSwap)
    → All (SwapsApart x) active
    → All (SwapsApart x) (join_swap r active)
unfolding join_swap
All-apart-join r x [] h = tt
All-apart-join r x (sw ∷ rest) h =
    if_cases (All (SwapsApart x)) (str_eq sw.model_id r.model) _ (sw ∷ join_swap r rest)
      (λ _. (h.0, h.1)) (λ _. (h.0, All-apart-join r x rest h.1))

Apart-join : (r : HandlerReq) (active : List ActiveSwap) → Apart active → Apart (join_swap r active)
unfolding join_swap
Apart-join r [] h = tt
Apart-join r (sw ∷ rest) h =
    if_cases Apart (str_eq sw.model_id r.model) _ (sw ∷ join_swap r rest) (λ _. (h.0, h.1))
      (λ _. (All-apart-join r sw rest h.0, Apart-join r rest h.1))

pub SafeSwaps-delete :
    (m : String) (f : String → ℕ) (active : List ActiveSwap)
    → SafeSwaps f active
    → SafeSwaps f (delete_swap m active)
SafeSwaps-delete m f active h = record {
  idle = All-delete (λ sw. conflicts_with_in_flight sw.evict f ≡ false) m active h.idle;
  apart = Apart-delete m active h.apart;
}

pub SafeSwaps-join :
    (r : HandlerReq) (f : String → ℕ) (active : List ActiveSwap)
    → SafeSwaps f active
    → SafeSwaps f (join_swap r active)
SafeSwaps-join r f active h = record {
  idle = Idle-join r f active h.idle;
  apart = Apart-join r active h.apart;
}

start-apart :
    (m : String) (evict : List String) (waiters : List HandlerReq) (active : List ActiveSwap)
    → is_active m active ≡ false
    → collides_with m evict active ≡ false
    → All (SwapsApart (record { model_id = m; evict = evict; waiters = waiters })) active
unfolding is_active collides_with swap_collides
start-apart m evict waiters [] a c = tt
start-apart m evict waiters (sw ∷ rest) a c =
    ((ground arith, ground arith), start-apart m evict waiters rest (ground arith) (ground arith))

-- A swap that collides with no other, for a model that is not being swapped, joins them safely.
pub SafeSwaps-start :
    (m : String) (evict : List String) (waiters : List HandlerReq) (f : String → ℕ)
    (active : List ActiveSwap)
    → is_active m active ≡ false
    → collides_with m evict active ≡ false
    → conflicts_with_in_flight evict f ≡ false
    → SafeSwaps f active
    → SafeSwaps f (record { model_id = m; evict = evict; waiters = waiters } ∷ active)
SafeSwaps-start m evict waiters f active a c b h = record {
  idle = (b, h.idle);
  apart = (start-apart m evict waiters active a c, h.apart);
}

pub Spared-serve :
    (m : String) (active : List ActiveSwap)
    → is_active m active ≡ false
    → collides_with m [] active ≡ false
    → Spared m active
unfolding is_active collides_with swap_collides slices_overlap
Spared-serve m [] a c = tt
Spared-serve m (sw ∷ rest) a c = (ground arith, Spared-serve m rest (ground arith) (ground arith))
