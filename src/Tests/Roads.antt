-- ===== src/Tests/Roads.antt =====
-- A road network of four nodes: 0 → 1 → 2 is shorter than 0 → 2, and no edge leads to node 3.
use convergent_routing_analy.Prelude.{
  ltb, if◌then◌else◌, ◌*◌, ◌↔◌, arith, ℕ, ◌≡◌, refl, pos, List, [], ◌∷◌, Option, some, none,
}
use convergent_routing_analy.Domain.{LatLon, NodeId}
use convergent_routing_analy.Graph.{Node, Edge, Graph, IsGraph}
use convergent_routing_analy.Graph.Adjacency.{
  AdjacencyGraph, new, ok, err, to_out_of_range, as_graph, build, out_edge_ids,
}
use convergent_routing_analy.Graph.Adjacency.Scatter.{ids_from}
use convergent_routing_analy.Graph.Adjacency.Validate.{DenseNodes, DenseEdges, new_iff}
use convergent_routing_analy.Graph.Adjacency.Port.{new-IsGraph, out_edge_ids-new}
use convergent_routing_analy.Tests.Numbers.{fin, top, numbers}

abbrev pub at_degree : ℕ → LatLon
at_degree d = record { lat = fin d; lon = fin 0 }

abbrev pub crossing : ℕ → Node
crossing i = record { id = pos i; at = at_degree i }

abbrev pub road : ℕ → ℕ → ℕ → ℕ → Edge
road i u v t = record {
  id = pos i;
  segment = "1:0:F";
  from = pos u;
  to = pos v;
  length_m = fin (t * 10);
  free_flow_s = fin t;
  capacity_vph = fin 1000;
}

abbrev pub crossings : List Node
crossings = crossing 0 ∷ crossing 1 ∷ crossing 2 ∷ crossing 3 ∷ []

abbrev pub roads : List Edge
roads = road 0 0 2 20 ∷ road 1 0 1 5 ∷ road 2 1 2 6 ∷ road 3 2 0 1 ∷ []

abbrev pub town : AdjacencyGraph
town = build crossings roads

-- Coordinates are snapped to the node of their latitude.
abbrev pub snap : LatLon → Option NodeId
snap p = elim p.lat [ fin d ↦ (if ltb d 4 then some (pos d) else none) | top ↦ none ]

abbrev pub town_graph : Graph
town_graph = as_graph town snap

pub new-town : new crossings roads ≡ ok town
unfolding new build
new-town = refl

new-bad_edge : new crossings (road 0 0 9 1 ∷ []) ≡ err (to_out_of_range 0)
unfolding new build
new-bad_edge = refl

new-IsGraph_example : IsGraph (as_graph town snap)
new-IsGraph_example = new-IsGraph crossings roads town snap new-town

pub town-IsGraph : IsGraph town_graph
town-IsGraph = new-IsGraph crossings roads town snap new-town

out_edge_ids-new_example : out_edge_ids town (pos 0) ≡ ids_from 0 roads
out_edge_ids-new_example = out_edge_ids-new crossings roads town 0 new-town (omega arith)

out_edge_ids_run : out_edge_ids town (pos 0) ≡ pos 0 ∷ pos 1 ∷ []
unfolding out_edge_ids build
out_edge_ids_run = refl

new_iff_example :
    (new crossings roads ≡ ok town)
    ↔ (DenseNodes 0 crossings × DenseEdges 4 0 roads × (town ≡ build crossings roads))
new_iff_example = new_iff crossings roads town
