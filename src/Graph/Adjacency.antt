-- ===== src/Graph/Adjacency.antt =====
-- engine/internal/graph/adjacency.go: the immutable graph in compressed-sparse-row form.
pub mod Offsets
pub mod Scatter
pub mod Validate
pub mod Port
use convergent_routing_analy.Prelude.{
  ℕ, zero, suc, ◌+◌, ◌-◌, Bool, ℤ, pos, List, [], ◌∷◌, Option, some, none, map, length, get_elem?,
  get_or, set, take, drop, replicate, if◌then◌else◌, ◌==◌, to_index, in_range, eqb_ℤ,
}
use convergent_routing_analy.Float.{Float64}
use convergent_routing_analy.Domain.{NodeId, EdgeId, LatLon}
use convergent_routing_analy.Graph.{Node, Edge, Graph}

-- The error of New, with the index that it names.
pub data NewError : Type 0 where
  nodes_not_dense edges_not_dense from_out_of_range to_out_of_range : ℕ → NewError

pub data Built {ℓ} (A : Type ℓ) : Type ℓ where
  ok : A → Built A
  err : NewError → Built A

module _ ⦃f : Float64⦄ where
  pub record AdjacencyGraph : Type 0 where
    pub nodes : List Node
    pub edges : List Edge
    pub out_offsets : List ℕ
    pub out_edge_ids : List EdgeId

  -- nodes[i].ID == i, from index i on.
  unfoldable pub check_nodes : ℕ → List Node → Option NewError
  check_nodes i [] = none
  check_nodes i (n ∷ ns) =
      let rest = check_nodes (suc i) ns in
      if eqb_ℤ n.id (pos i) then rest else some (nodes_not_dense i)

  -- edges[i].ID == i and both endpoints in range, from index i on.
  unfoldable pub check_edges : ℕ → ℕ → List Edge → Option NewError
  check_edges count i [] = none
  check_edges count i (e ∷ es) =
      if eqb_ℤ e.id (pos i)
      then (elim (in_range e.from count) [
        | none ↦ some (from_out_of_range i)
        | some _ ↦ elim (in_range e.to count) [
          | none ↦ some (to_out_of_range i)
          | some _ ↦ check_edges count (suc i) es
        ]
      ])
      else some (edges_not_dense i)

  -- The out-degree of node n, counted into slot n + 1.
  pub count_out : List Edge → List ℕ → List ℕ
  count_out [] offsets = offsets
  count_out (e ∷ es) offsets =
      let slot = to_index e.from + 1 in count_out es (set offsets slot (get_or offsets slot 0 + 1))

  -- outOffsets[i] += outOffsets[i-1], with `before` the slot on the left.
  pub running_sum : ℕ → List ℕ → List ℕ
  running_sum before [] = []
  running_sum before (x ∷ xs) = (before + x) ∷ running_sum (before + x) xs

  -- outEdgeIDs[cursor[from]] = id; cursor[from]++.
  pub scatter : List Edge → List ℕ → List EdgeId → List EdgeId
  scatter [] cursor out = out
  scatter (e ∷ es) cursor out =
      let from = to_index e.from in
      let slot = get_or cursor from 0 in scatter es (set cursor from (slot + 1)) (set out slot e.id)

  unfoldable pub build : List Node → List Edge → AdjacencyGraph
  unfolding count_out running_sum scatter
  build nodes edges =
      let offsets = running_sum 0 (count_out edges (replicate (length nodes + 1) 0)) in
      record {
        nodes = nodes;
        edges = edges;
        out_offsets = offsets;
        out_edge_ids =
            scatter edges (take (length nodes) offsets) (replicate (length edges) (pos 0));
      }

  -- The k-d tree that New also builds is not in this record.
  unfoldable pub new : List Node → List Edge → Built AdjacencyGraph
  unfolding check_nodes check_edges
  new nodes edges = elim (check_nodes 0 nodes) [
    | some e ↦ err e
    | none ↦ elim (check_edges (length nodes) 0 edges) [
      | some e ↦ err e
      | none ↦ ok (build nodes edges)
    ]
  ]

  -- outEdgeIDs[low:high]; the test `low == high` returns nil, which is an empty slice too.
  unfoldable pub out_edge_ids : AdjacencyGraph → NodeId → List EdgeId
  out_edge_ids graph id = elim (in_range id (length graph.nodes)) [
    | none ↦ []
    | some i ↦
        let low = get_or graph.out_offsets i 0 in
        let high = get_or graph.out_offsets (i + 1) 0 in
        if low == high then [] else take (high - low) (drop low graph.out_edge_ids)
  ]

  unfoldable pub edge : AdjacencyGraph → EdgeId → Option Edge
  edge graph id = elim (in_range id (length graph.edges)) [
    | none ↦ none
    | some i ↦ get_elem? graph.edges i
  ]

  unfoldable pub node : AdjacencyGraph → NodeId → Option Node
  node graph id = elim (in_range id (length graph.nodes)) [
    | none ↦ none
    | some i ↦ get_elem? graph.nodes i
  ]

  -- The edges with these ids, a read out of range (which Go does not survive) left out.
  pub edges_at : AdjacencyGraph → List EdgeId → List Edge
  edges_at graph [] = []
  edges_at graph (id ∷ ids) =
      let rest = edges_at graph ids in
      elim (get_elem? graph.edges (to_index id)) [ none ↦ rest | some e ↦ e ∷ rest ]

  pub neighbors : AdjacencyGraph → NodeId → List Edge
  unfolding edges_at out_edge_ids
  neighbors graph id = edges_at graph (out_edge_ids graph id)

  -- The port, over a nearest-node index.
  unfoldable pub as_graph : AdjacencyGraph → (LatLon → Option NodeId) → Graph
  unfolding out_edge_ids edge node neighbors
  as_graph graph nearest = record {
    neighbors = neighbors graph;
    out_edge_ids = out_edge_ids graph;
    edge = edge graph;
    node = node graph;
    node_count = length graph.nodes;
    edge_count = length graph.edges;
    nearest_node = nearest;
  }
