-- ===== src/Ring.antt =====
-- internal/ring/buffer.go: the ring buffer.
pub mod Places
pub mod Views
pub mod Latest
mod Examples
use llama_swap_macos_extende.Prelude.{
  ℕ, suc, zero, ◌+◌, ◌%◌, ltb, List, [], ◌∷◌, Option, none, some, if◌then◌else◌, length, get_elem?,
  set, replicate, ◌>>=◌,
}

-- `buf` is a slice whose length is the capacity.
pub record Buffer {ℓ} (A : Type ℓ) : Type ℓ where
  pub buf : List A
  pub head : ℕ
  pub size : ℕ

-- NewBuffer; `zero_value` fills what make allocates, and a capacity of 0 stands for every capacity
-- below 1.
unfoldable pub new_buffer {ℓ} : {A : Type ℓ} → A → ℕ → Buffer A
new_buffer zero_value capacity = record {
  buf = replicate (if ltb capacity 1 then 1 else capacity) zero_value;
  head = 0;
  size = 0;
}

-- An assignment to an element; out of range it panics, which is `none`.
unfoldable pub store {ℓ} : {A : Type ℓ} → List A → ℕ → A → Option (List A)
store xs i v = if ltb i (length xs) then some (set xs i v) else none

unfoldable pub push {ℓ} : {A : Type ℓ} → A → Buffer A → Option (Buffer A)
push v r =
    let cap = length r.buf in
    if ltb r.size cap
    then (do
      buf ← store r.buf ((r.head + r.size) % cap) v
      some (record r { buf = buf; size = r.size + 1 }))
    else (do buf ← store r.buf r.head v; some (record r { buf = buf; head = (r.head + 1) % cap }))

-- The loop of Slice over `n` elements from the `i`-th on.
unfoldable pub collect {ℓ} : {A : Type ℓ} → Buffer A → ℕ → ℕ → Option (List A)
collect r i zero = some []
collect r i (suc n) = do
  v ← get_elem? r.buf ((r.head + i) % length r.buf)
  rest ← collect r (i + 1) n
  some (v ∷ rest)

unfoldable pub slice {ℓ} : {A : Type ℓ} → Buffer A → Option (List A)
slice r = collect r 0 r.size

-- One value after the other, the first of the list first.
unfoldable pub push_all {ℓ} : {A : Type ℓ} → List A → Buffer A → Option (Buffer A)
push_all [] r = some r
push_all (v ∷ vs) r = do r' ← push v r; push_all vs r'
