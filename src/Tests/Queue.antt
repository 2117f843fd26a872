-- ===== src/Tests/Queue.antt =====
-- Pushes and pops on a heap of numbers.
use convergent_routing_analy.Prelude.{ℕ, ◌≡◌, refl, List, [], ◌∷◌, some, ltb}
use convergent_routing_analy.Heap.{push, pop, up, up_loop, down, down_loop, swap, smaller_child}

abbrev three : List ℕ
three = 2 ∷ 5 ∷ 3 ∷ []

push_run : push 0 ltb three 1 ≡ 1 ∷ 2 ∷ 3 ∷ 5 ∷ []
unfolding push up up_loop swap
push_run = refl

pop_run : pop 0 ltb (1 ∷ 2 ∷ 3 ∷ 5 ∷ []) ≡ some (1, 2 ∷ 5 ∷ 3 ∷ [])
unfolding pop down down_loop swap smaller_child
pop_run = refl
