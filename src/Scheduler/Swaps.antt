-- ===== src/Scheduler/Swaps.antt =====
-- fifo.go: the table of active swaps, the running set and the collision tests.
use Prim.Native.String.{compare}
use Prim.Native.Nat.{Ordering}
use llama_swap_macos_extende.Prelude.{
  ℕ, ltb, Bool, true, false, String, List, [], ◌∷◌, ◌++◌, Option, none, some, if◌then◌else◌, str_eq,
  contains_string, any,
}
use llama_swap_macos_extende.Scheduler.Types.{HandlerReq, ActiveSwap}

-- The map `active`, one entry for each model.
unfoldable pub is_active : String → List ActiveSwap → Bool
is_active m active = any (λ sw. str_eq sw.model_id m) active

unfoldable pub find_swap : String → List ActiveSwap → Option ActiveSwap
find_swap m [] = none
find_swap m (sw ∷ rest) = if str_eq sw.model_id m then some sw else find_swap m rest

unfoldable pub delete_swap : String → List ActiveSwap → List ActiveSwap
delete_swap m [] = []
delete_swap m (sw ∷ rest) = if str_eq sw.model_id m then rest else sw ∷ delete_swap m rest

-- `sw.waiters = append(sw.waiters, req)` through the pointer in the map.
unfoldable pub join_swap : HandlerReq → List ActiveSwap → List ActiveSwap
join_swap r [] = []
join_swap r (sw ∷ rest) =
    if str_eq sw.model_id r.model
    then record sw { waiters = sw.waiters ++ r ∷ [] } ∷ rest
    else sw ∷ join_swap r rest

unfoldable pub active_targets : String → List ActiveSwap → List String
active_targets exclude [] = []
active_targets exclude (sw ∷ rest) =
    let targets = active_targets exclude rest in
    if str_eq sw.model_id exclude then targets else sw.model_id ∷ targets

abbrev pub string_lt : String → String → Bool
string_lt a b = elim (compare a b) [ Ordering.lt ↦ true | _ ↦ false ]

-- sort.Strings.
unfoldable pub insert_string : String → List String → List String
insert_string x [] = x ∷ []
insert_string x (y ∷ ys) = if string_lt y x then y ∷ insert_string x ys else x ∷ y ∷ ys

unfoldable pub sort_strings : List String → List String
unfolding insert_string
sort_strings [] = []
sort_strings (x ∷ xs) = insert_string x (sort_strings xs)

-- The closure `add`: an id that was seen is not appended again.
unfoldable pub add_new : List String → List String → List String
add_new out [] = out
add_new out (id ∷ ids) = add_new (if contains_string out id then out else out ++ id ∷ []) ids

unfoldable pub running_set : List String → List ActiveSwap → String → List String
unfolding add_new sort_strings active_targets
running_set running active exclude =
    sort_strings (add_new (add_new [] running) (active_targets exclude active))

unfoldable pub slices_overlap : List String → List String → Bool
slices_overlap xs ys = any (contains_string ys) xs

unfoldable pub swap_collides : String → List String → ActiveSwap → Bool
unfolding slices_overlap
swap_collides target evict sw =
    if str_eq sw.model_id target
    then false
    else if contains_string evict sw.model_id
    then true
    else if contains_string sw.evict target
    then true
    else slices_overlap evict sw.evict

unfoldable pub collides_with : String → List String → List ActiveSwap → Bool
collides_with target evict active = any (swap_collides target evict) active

unfoldable pub conflicts_with_in_flight : List String → (String → ℕ) → Bool
conflicts_with_in_flight evict in_flight = any (λ m. ltb 0 (in_flight m)) evict

unfoldable pub being_evicted : String → List ActiveSwap → Bool
being_evicted m active = any (λ sw. contains_string sw.evict m) active
