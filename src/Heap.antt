-- ===== src/Heap.antt =====
-- Go's container/heap over a slice: Push, Pop, up and down, for any Less.
-- A read is always in bounds, so the default `d` of `get_or` is never seen.
pub mod Order
pub mod Up
pub mod Down
pub mod Pop
pub mod Shuffle
pub mod Appended
use convergent_routing_analy.Prelude.{
  ℕ, zero, suc, ◌+◌, ◌-◌, ◌*◌, ◌/◌, Bool, Option, none, some, List, [], ◌∷◌, ◌++◌, ltb, ◌==◌,
  if◌then◌else◌, length, get_or, set, take,
}

module _ {A : Type 0} (d : A) where
  unfoldable pub swap : List A → ℕ → ℕ → List A
  swap xs i j = set (set xs i (get_or xs j d)) j (get_or xs i d)

  module _ (less : A → A → Bool) where
    abbrev less_at : List A → ℕ → ℕ → Bool
    less_at xs i j = less (get_or xs i d) (get_or xs j d)

    -- `i == j || !h.Less(j, i)` ends the loop. Go's (0-1)/2 is 0, as here.
    unfoldable pub up_loop : ℕ → List A → ℕ → List A
    up_loop zero xs j = xs
    up_loop (suc k) xs j =
        let i = (j - 1) / 2 in
        let rise = up_loop k (swap xs i j) i in
        if i == j then xs else if less_at xs j i then rise else xs

    -- The index halves each round, so `j + 1` rounds are enough.
    unfoldable pub up : List A → ℕ → List A
    up xs j = up_loop (j + 1) xs j

    unfoldable pub smaller_child : List A → ℕ → ℕ → ℕ
    smaller_child xs i n =
        let j1 = 2 * i + 1 in
        let j2 = j1 + 1 in if ltb j2 n then (if less_at xs j2 j1 then j2 else j1) else j1

    unfoldable pub down_loop : ℕ → List A → ℕ → ℕ → List A
    down_loop zero xs i n = xs
    down_loop (suc k) xs i n =
        let j = smaller_child xs i n in
        let sink = down_loop k (swap xs i j) j n in
        if ltb (2 * i + 1) n then (if less_at xs j i then sink else xs) else xs

    -- The index grows each round and stays below n.
    unfoldable pub down : List A → ℕ → ℕ → List A
    down xs i n = down_loop (n + 1) xs i n

    -- heap.Push: append, then `up` from the last index.
    unfoldable pub push : List A → A → List A
    push xs x = up (xs ++ x ∷ []) (length (xs ++ x ∷ []) - 1)

    -- heap.Pop: swap the root with the last element, `down`, then cut the last element off.
    -- `none` on an empty heap, where Go panics.
    unfoldable pub pop : List A → Option (A × List A)
    pop [] = none
    pop (x ∷ xs) =
        let n = length xs in
        let ys = down (swap (x ∷ xs) 0 n) 0 n in some (get_or ys n d, take n ys)
