-- ===== src/Graph.antt =====
-- engine/internal/graph/graph.go: nodes, directed edges, and the port that the routers read.
pub mod Adjacency
pub mod Connectivity
pub mod Geo
use convergent_routing_analy.Prelude.{
  ℕ, ◌<◌, ◌≡◌, ℤ, pos, List, Option, some, none, length, get_or, negsuc,
}
use convergent_routing_analy.Float.{Float64, Float}
use convergent_routing_analy.Domain.{NodeId, EdgeId, SegmentId, LatLon}
use convergent_routing_analy.Heap.Order.{Has}

module _ ⦃f : Float64⦄ where
  pub record Node : Type 0 where
    pub id : NodeId
    pub at : LatLon

  pub record Edge : Type 0 where
    pub id : EdgeId
    pub segment : SegmentId
    pub from : NodeId
    pub to : NodeId
    pub length_m : Float
    pub free_flow_s : Float
    pub capacity_vph : Float

  -- The port, less NearestEdge, which panics.
  pub record Graph : Type 0 where
    pub neighbors : NodeId → List Edge
    pub out_edge_ids : NodeId → List EdgeId
    pub edge : EdgeId → Option Edge
    pub node : NodeId → Option Node
    pub node_count : ℕ
    pub edge_count : ℕ
    pub nearest_node : LatLon → Option NodeId

  -- What the routers rely on: edges are found by their ids, their endpoints are nodes, and the
  -- out-edges of a node are exactly the edges that leave it.
  pub record IsGraph (g : Graph) : Type 0 where
    pub edge-id : (id : EdgeId) (e : Edge) → g.edge id ≡ some e → e.id ≡ id
    pub source :
        (id : EdgeId) (e : Edge)
        → g.edge id ≡ some e
        → (u : ℕ) × (e.from ≡ pos u) × (u < g.node_count)
    pub target :
        (id : EdgeId) (e : Edge)
        → g.edge id ≡ some e
        → (v : ℕ) × (e.to ≡ pos v) × (v < g.node_count)
    pub out-sound :
        (u : ℕ) (id : EdgeId)
        → u < g.node_count
        → Has (negsuc 0) (g.out_edge_ids (pos u)) id
        → (e : Edge) × (g.edge id ≡ some e) × (e.from ≡ pos u)
    pub out-complete :
        (u : ℕ) (id : EdgeId) (e : Edge)
        → g.edge id ≡ some e
        → e.from ≡ pos u
        → Has (negsuc 0) (g.out_edge_ids (pos u)) id
