-- ===== src/Tests/Paths.antt =====
-- A masked search and the k shortest paths.
use convergent_routing_analy.Prelude.{◌≡◌, refl, pos, [], ◌∷◌, arith}
use convergent_routing_analy.Graph.Adjacency.{as_graph, build}
use convergent_routing_analy.Routing.Dijkstra.{dijkstra, found}
use convergent_routing_analy.Routing.Multipath.{masked_weight, is_masked}
use convergent_routing_analy.Routing.Multipath.Masked.{Avoids, dijkstra-Avoids}
use convergent_routing_analy.Routing.Yen.{k_shortest_paths}
use convergent_routing_analy.Routing.Yen.Count.{KAnswers, k_shortest_paths-KAnswers}
use convergent_routing_analy.Routing.Yen.Kept.{AreRoutes}
use convergent_routing_analy.Routing.Yen.Routes.{k_shortest_paths-AreRoutes}
use convergent_routing_analy.Tests.Numbers.{fin, numbers, number_laws, number_mul_laws}
use convergent_routing_analy.Tests.Roads.{town_graph, town-IsGraph}
use convergent_routing_analy.Tests.Search.{by_time, by_time-nonneg, search_steps}

-- With the road 1 masked, the way from 0 to 2 is the longer road 0.
masked_run :
    dijkstra town_graph (pos 0) (pos 2) (masked_weight by_time (pos 1 ∷ []) [])
    ≡ found (pos 0 ∷ []) (fin 20)
unfolding search_steps masked_weight is_masked
masked_run = refl

dijkstra-Avoids_example :
    Avoids number_laws number_mul_laws town_graph town-IsGraph by_time by_time-nonneg
      (pos 1 ∷ [])
      []
      (pos 0 ∷ [])
unfolding as_graph build
dijkstra-Avoids_example =
    dijkstra-Avoids number_laws number_mul_laws town_graph town-IsGraph by_time by_time-nonneg
      (pos 1 ∷ []) [] 0 2 (pos 0 ∷ []) (fin 20) (omega arith) (omega arith) masked_run

k_shortest_paths-KAnswers_example :
    KAnswers number_laws town_graph town-IsGraph by_time by_time-nonneg 0 2 2
      (k_shortest_paths town_graph (pos 0) (pos 2) (pos 3) by_time)
unfolding as_graph build
k_shortest_paths-KAnswers_example =
    k_shortest_paths-KAnswers number_laws town_graph town-IsGraph by_time by_time-nonneg 0 2 2
      (omega arith) (omega arith)

k_shortest_paths-AreRoutes_example :
    AreRoutes town_graph by_time
      (pos 0)
      (pos 2)
      (k_shortest_paths town_graph (pos 0) (pos 2) (pos 3) by_time)
unfolding as_graph build
k_shortest_paths-AreRoutes_example =
    k_shortest_paths-AreRoutes number_laws number_mul_laws town_graph town-IsGraph by_time
      by_time-nonneg (pos 0) (pos 2) (pos 3)
