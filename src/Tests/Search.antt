-- ===== src/Tests/Search.antt =====
-- Searches on the small network.
use convergent_routing_analy.Prelude.{◌≡◌, refl, pos, negsuc, [], ◌∷◌, some, none, true, arith}
use convergent_routing_analy.Float.{le, add}
use convergent_routing_analy.Graph.{Edge}
use convergent_routing_analy.Graph.Adjacency.{as_graph, build}
use convergent_routing_analy.Heap.{push, pop, up, up_loop, down, down_loop, swap, smaller_child}
use convergent_routing_analy.Routing.Dijkstra.{
  found, unreachable, dijkstra, shortest_path, Scratch, loop, report, start, round, expand,
  relax_all, relax, relax_edge, improve, HeuristicFunc, slices, walk_back, degree_sum,
}
use convergent_routing_analy.Routing.Dijkstra.Walks.{Solves, NonNegWeight, IsConsistent}
use convergent_routing_analy.Routing.Dijkstra.Correct.{shortest_path-Solves, scratch_irrelevant}
use convergent_routing_analy.Tests.Numbers.{Number, fin, top, numbers, number_laws}
use convergent_routing_analy.Tests.Roads.{town_graph, town-IsGraph}

-- All that a search computes with.
unfoldable pub search_steps : Unit {0}
unfolding shortest_path dijkstra report start loop round expand relax_all relax relax_edge improve
    slices walk_back degree_sum push pop up up_loop down down_loop swap smaller_child as_graph build
search_steps = tt

abbrev pub by_time : Edge → Number
by_time e = e.free_flow_s

dijkstra_run : dijkstra town_graph (pos 0) (pos 2) by_time ≡ found (pos 1 ∷ pos 2 ∷ []) (fin 11)
unfolding search_steps
dijkstra_run = refl

unreachable_run : dijkstra town_graph (pos 0) (pos 3) by_time ≡ unreachable
unfolding search_steps
unreachable_run = refl

pub by_time-nonneg : NonNegWeight town_graph by_time
by_time-nonneg id e h = le_zero e.free_flow_s
  where
    le_zero : (a : Number) → le (fin 0) a ≡ true
    le_zero (fin a) = ground arith
    le_zero top = refl

abbrev toward_two : HeuristicFunc
toward_two v = fin 0

toward_two-IsConsistent : IsConsistent town_graph by_time (pos 0) (some toward_two)
toward_two-IsConsistent = record {
  nonneg = λ v a p. le_add-zero a p;
  mono = λ v a b p q le. number_laws.add_mono a b (fin 0) p refl le;
  reflects = λ v a b p q le. reflect a b le;
  along = λ id e a ed p.
      number_laws.add_mono a (add a (by_time e)) (fin 0) p refl
        (number_laws.le_add a (by_time e) p (by_time-nonneg id e ed));
  start_below = refl;
  start_above = refl;
}
  where
    le_add-zero : (a : Number) → le (fin 0) a ≡ true → le (fin 0) (add a (fin 0)) ≡ true
    le_add-zero (fin a) p = ground arith
    le_add-zero top p = refl

    reflect : (a b : Number) → le (add a (fin 0)) (add b (fin 0)) ≡ true → le a b ≡ true
    reflect (fin a) (fin b) p = ground arith
    reflect (fin a) top p = refl
    reflect top (fin b) p = cc
    reflect top top p = refl

-- A buffer from an earlier search of a larger graph.
abbrev used : Scratch
used = record {
  dist = fin 7 ∷ fin 0 ∷ fin 1 ∷ top ∷ fin 3 ∷ [];
  prev_edge = pos 3 ∷ pos 1 ∷ pos 0 ∷ negsuc 0 ∷ pos 2 ∷ [];
}

shortest_path-Solves_example :
    Solves town_graph by_time
      (pos 0)
      (pos 2)
      (shortest_path town_graph (pos 0) (pos 2) by_time (some toward_two) (some used))
unfolding as_graph build
shortest_path-Solves_example =
    shortest_path-Solves number_laws town_graph town-IsGraph by_time by_time-nonneg
      (some toward_two) (some used) refl 0 2 (omega arith) (omega arith) toward_two-IsConsistent

scratch_irrelevant_example :
    shortest_path town_graph (pos 0) (pos 2) by_time none (some used)
    ≡ shortest_path town_graph (pos 0) (pos 2) by_time none none
scratch_irrelevant_example = scratch_irrelevant town_graph (pos 0) (pos 2) by_time none used refl
