-- ===== src/Tests/Draws.antt =====
-- A batch that is spread over the paths of the small network.
use convergent_routing_analy.Prelude.{ℕ, pos, List, [], ◌∷◌, get_or, refl, arith}
use convergent_routing_analy.Float.{Le}
use convergent_routing_analy.Routing.Multipath.{KPath, proportional_split, raw_weights, sum_from}
use convergent_routing_analy.Routing.Multipath.Ordered.{proportional_split-Le}
use convergent_routing_analy.Cost.{bpr_cost}
use convergent_routing_analy.Routing.Dijkstra.{WeightFunc}
use convergent_routing_analy.Routing.Requests.{RouteRequest}
use convergent_routing_analy.Routing.Split.{
  split_weight, router_k, assign_multipath, multipath_route,
}
use convergent_routing_analy.Routing.Split.Shares.{SpreadsOr}
use convergent_routing_analy.Routing.Split.Result.{assign_multipath-SpreadsOr}
use convergent_routing_analy.Routing.Split.Single.{DrawsPathOr, multipath_route-DrawsPathOr}
use convergent_routing_analy.Tests.Numbers.{
  Number, fin, numbers, number_laws, number_mul_laws, number_div_laws, le_zero,
}
use convergent_routing_analy.Tests.Roads.{town_graph, town-IsGraph}
use convergent_routing_analy.Tests.Batch.{trip, never, town-SnapsToNodes, steep}

abbrev empty_roads : WeightFunc
empty_roads = split_weight (bpr_cost steep)

abbrev three_trips : List RouteRequest
three_trips = trip 0 2 ∷ trip 2 0 ∷ trip 0 2 ∷ []

-- The numbers drawn are 0, 1, 2 and so on.
abbrev rising : ℕ → Number
rising = fin

assign_multipath-SpreadsOr_example :
    SpreadsOr town_graph empty_roads
      (router_k (pos 0))
      rising
      never
      three_trips
      (assign_multipath town_graph empty_roads (router_k (pos 0)) rising never three_trips)
assign_multipath-SpreadsOr_example =
    assign_multipath-SpreadsOr number_laws number_mul_laws town_graph town-IsGraph town-SnapsToNodes
      empty_roads (λ id e p. le_zero (empty_roads e)) (pos 0) rising never three_trips

multipath_route-DrawsPathOr_example :
    DrawsPathOr town_graph empty_roads
      (router_k (pos 2))
      (fin 0)
      never
      (trip 0 2)
      (multipath_route town_graph empty_roads (router_k (pos 2)) rising never (trip 0 2))
multipath_route-DrawsPathOr_example =
    multipath_route-DrawsPathOr number_laws number_mul_laws town_graph town-IsGraph
      town-SnapsToNodes empty_roads (λ id e p. le_zero (empty_roads e)) (pos 2) rising never
      (trip 0 2)

-- Two paths of which the second costs twice the first.
abbrev cheap_and_dear : List KPath
cheap_and_dear =
    record { edges = pos 0 ∷ []; cost = fin 1 } ∷ record { edges = pos 1 ∷ []; cost = fin 2 } ∷ []

proportional_split-Le_example :
    Le
      (get_or (proportional_split cheap_and_dear) 1 (fin 0))
      (get_or (proportional_split cheap_and_dear) 0 (fin 0))
unfolding raw_weights sum_from
proportional_split-Le_example =
    proportional_split-Le number_laws number_mul_laws number_div_laws cheap_and_dear 0 1
      (omega arith) (omega arith) refl refl refl refl
