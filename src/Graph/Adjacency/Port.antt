-- ===== src/Graph/Adjacency/Port.antt =====
-- The accepted graph is a graph in the routers' sense: the CSR arrays answer OutEdgeIDs with exactly
-- the out-edges, in edge order.
use convergent_routing_analy.Prelude.{
  ℕ, zero, suc, ◌+◌, ◌-◌, ◌<◌, ◌≡◌, ◌∙◌, refl, sym, true, pos, negsuc, List, [], ◌∷◌, Option, some,
  length, get_elem?, get_or, take, drop, arith, Bool-cases, inl, inr, in_range, Option-cases,
  in_range-some, in_range-pos, to_index, ap, ap₂, subst, some_inj, if◌then◌else◌, ◌==◌, ==_iff,
  get_elem?-some,
}
use convergent_routing_analy.Float.{Float64}
use convergent_routing_analy.Domain.{NodeId, EdgeId, LatLon}
use convergent_routing_analy.Graph.{Node, Edge, IsGraph}
use convergent_routing_analy.Heap.Order.{Has, Has-cons, Has-here, Has-there}
use convergent_routing_analy.Graph.Adjacency.{
  new, build, ok, AdjacencyGraph, as_graph, out_edge_ids, edge,
}
use convergent_routing_analy.Graph.Adjacency.Offsets.{origin, AllFrom, below, offsets, offsets_lem}
use convergent_routing_analy.Graph.Adjacency.Scatter.{ids_from, run_lem}
use convergent_routing_analy.Graph.Adjacency.Validate.{InRange, DenseEdges, new_iff}

module _ ⦃f : Float64⦄ where
  ids_from_sound :
      (d : EdgeId) (u : ℕ) (es : List Edge) (id : EdgeId)
      → Has d (ids_from u es) id
      → (j : ℕ) × (e : Edge) × (get_elem? es j ≡ some e) × (e.id ≡ id) × (origin e ≡ u)
  unfolding ids_from
  ids_from_sound d u [] id (i, hi, e) = absurd (omega arith)
  ids_from_sound d u (e ∷ es) id has = elim (Bool-cases (origin e == u)) [
    | inl leaves ↦ elim (Has-cons d e.id (ids_from u es) id (rw leaves at has)) [
      | inl first ↦ (0, e, refl, first, (==_iff (origin e) u).0 leaves)
      | inr later ↦
          let (j, e', at, same, from) = ids_from_sound d u es id later in
          (suc j, e', at, same, from)
    ]
    | inr other ↦
        let (j, e', at, same, from) = ids_from_sound d u es id (rw other at has) in
        (suc j, e', at, same, from)
  ]

  ids_from_complete :
      (d : EdgeId) (u : ℕ) (es : List Edge) (j : ℕ) (e : Edge)
      → get_elem? es j ≡ some e
      → origin e ≡ u
      → Has d (ids_from u es) e.id
  unfolding ids_from
  ids_from_complete d u [] j e at from = cc
  ids_from_complete d u (x ∷ es) zero e at from =
      let same : x ≡ e = some_inj at in
      let leaves : (origin x == u) ≡ true = (==_iff (origin x) u).1 (ap origin same ∙ from) in
      rw leaves
        (subst (λ z. Has d (x.id ∷ ids_from u es) z.id) same (Has-here d x.id (ids_from u es)))
  ids_from_complete d u (x ∷ es) (suc j) e at from = elim (Bool-cases (origin x == u)) [
    | inl leaves ↦
        rw leaves (Has-there d x.id (ids_from u es) e.id (ids_from_complete d u es j e at from))
    | inr other ↦ rw other (ids_from_complete d u es j e at from)
  ]

  -- Each edge of a dense list is at its id, and its endpoints are in range.
  DenseEdges-get :
      (count i : ℕ) (es : List Edge) (j : ℕ) (e : Edge)
      → DenseEdges count i es
      → get_elem? es j ≡ some e
      → (e.id ≡ pos (i + j)) × InRange e.from count × InRange e.to count
  DenseEdges-get count i [] j e d at = cc
  DenseEdges-get count i (x ∷ es) zero e d at =
      let same : x ≡ e = some_inj at in
      subst (λ z. (z.id ≡ pos (i + 0)) × InRange z.from count × InRange z.to count) same
        (d.0 ∙ ap pos (omega arith), d.1, d.2)
  DenseEdges-get count i (x ∷ es) (suc j) e d at =
      let (id, from, to) = DenseEdges-get count (suc i) es j e d.3 at in
      (id ∙ ap pos (omega arith), from, to)

  DenseEdges-AllFrom : (count i : ℕ) (es : List Edge) → DenseEdges count i es → AllFrom count es
  DenseEdges-AllFrom count i [] d = tt
  DenseEdges-AllFrom count i (e ∷ es) d =
      let (u, from, hu) = d.1 in
      (subst (λ z. z < count) (sym (ap to_index from)) hu, DenseEdges-AllFrom count (suc i) es d.3)

  module _ (nodes : List Node) (edges : List Edge) where
    abbrev built : AdjacencyGraph
    built = build nodes edges

    abbrev run : ℕ → ℕ → List EdgeId
    run low high = if low == high then [] else take (high - low) (drop low built.out_edge_ids)

    out_edge_ids-run :
        (u : ℕ)
        → u < length nodes
        → out_edge_ids built (pos u)
          ≡ run (get_or built.out_offsets u 0) (get_or built.out_offsets (u + 1) 0)
    unfolding out_edge_ids build
    out_edge_ids-run u hu = rw (in_range-pos u (length nodes) hu, out_edge_ids)

    edge-build : (i : ℕ) → i < length edges → edge built (pos i) ≡ get_elem? edges i
    unfolding edge build
    edge-build i hi = rw (in_range-pos i (length edges) hi, edge)

    edge-some :
        (id : EdgeId) (e : Edge)
        → edge built id ≡ some e
        → (i : ℕ) × (id ≡ pos i) × (get_elem? edges i ≡ some e)
    unfolding edge build
    edge-some id e h = elim (Option-cases (in_range id (length edges))) [
      | inl out ↦ absurd (cc (rw (out, edge) at h))
      | inr (i, inside) ↦ (i, (in_range-some id (length edges) i inside).0, rw (inside, edge) at h)
    ]

    module _ (dense : DenseEdges (length nodes) 0 edges) where
      all : AllFrom (length nodes) edges
      all = DenseEdges-AllFrom (length nodes) 0 edges dense

      offset : (u : ℕ) → u < suc (length nodes) → get_or built.out_offsets u 0 ≡ below u edges
      unfolding build offsets
      offset u hu = offsets_lem (length nodes) edges u all (omega arith)

      run-below :
          (u : ℕ) → u < length nodes → run (below u edges) (below (suc u) edges) ≡ ids_from u edges
      unfolding build offsets
      run-below u hu = elim (Bool-cases (below u edges == below (suc u) edges)) [
        | inl same ↦ rw same (
            ap (λ z. take z (drop (below u edges) built.out_edge_ids))
              (let e : 0 ≡ below (suc u) edges - below u edges = ground arith in e)
            ∙ run_lem (length nodes) edges all u hu)
        | inr other ↦ rw other (run_lem (length nodes) edges all u hu)
      ]

      -- OutEdgeIDs of a known node: the ids of its out-edges, in increasing order.
      pub out_edge_ids-build :
          (u : ℕ) → u < length nodes → out_edge_ids built (pos u) ≡ ids_from u edges
      out_edge_ids-build u hu =
          out_edge_ids-run u hu
          ∙ ap₂ run (offset u (omega arith))
              (offset (u + 1) (omega arith) ∙ ap (λ z. below z edges) (omega arith))
          ∙ run-below u hu

      out_edges :
          (u : ℕ) (id : EdgeId)
          → u < length nodes
          → Has (negsuc 0) (out_edge_ids built (pos u)) id
          → (e : Edge) × (edge built id ≡ some e) × (e.from ≡ pos u)
      out_edges u id hu has =
          let (j, e, at, same, from) =
            ids_from_sound (negsuc 0) u edges id
              (subst (λ z. Has (negsuc 0) z id) (out_edge_ids-build u hu) has) in
          let (own, (v, from', hv), _) = DenseEdges-get (length nodes) 0 edges j e dense at in
          let here : pos j ≡ id = sym (own ∙ ap pos (omega arith)) ∙ same in
          (
            e,
            subst (λ z. edge built z ≡ some e) here (edge-build j (get_elem?-some edges j at) ∙ at),
            from' ∙ ap pos (sym (ap to_index from') ∙ from),
          )

      -- The port's laws hold.
      pub IsGraph-build : (nearest : LatLon → Option NodeId) → IsGraph (as_graph built nearest)
      unfolding as_graph build
      IsGraph-build nearest = record {
        edge-id = λ id e h.
            let (i, same, at) = edge-some id e h in
            (DenseEdges-get (length nodes) 0 edges i e dense at).0
            ∙ ap pos (omega arith)
            ∙ sym same;
        source = λ id e h.
            let (i, same, at) = edge-some id e h in
            (DenseEdges-get (length nodes) 0 edges i e dense at).1;
        target = λ id e h.
            let (i, same, at) = edge-some id e h in
            (DenseEdges-get (length nodes) 0 edges i e dense at).2;
        out-sound = λ u id hu has. out_edges u id hu has;
        out-complete = λ u id e h from.
            let (i, same, at) = edge-some id e h in
            let (own, (v, from', hv), _) = DenseEdges-get (length nodes) 0 edges i e dense at in
            let hu : u < length nodes = ground arith in
            let id' : e.id ≡ id = own ∙ ap pos (omega arith) ∙ sym same in
            subst (λ z. Has (negsuc 0) z id) (sym (out_edge_ids-build u hu))
              (subst (Has (negsuc 0) (ids_from u edges)) id'
                (ids_from_complete (negsuc 0) u edges i e at (ap to_index from)));
      }

  -- What New returns satisfies the laws of the Graph port, whatever answers NearestNode: an edge is
  -- found exactly under its own id, its endpoints are nodes, and OutEdgeIDs of a node holds exactly
  -- the ids of the edges that leave it.
  pub new-IsGraph :
      (nodes : List Node) (edges : List Edge) (g : AdjacencyGraph)
      (nearest : LatLon → Option NodeId)
      → new nodes edges ≡ ok g
      → IsGraph (as_graph g nearest)
  new-IsGraph nodes edges g nearest h =
      let (_, dense, same) = (new_iff nodes edges g).0 h in
      subst (λ z. IsGraph (as_graph z nearest)) (sym same) (IsGraph-build nodes edges dense nearest)

  -- OutEdgeIDs of a graph that New returned: for a node, the ids of the edges that leave it, in the
  -- order of the edge list.
  pub out_edge_ids-new :
      (nodes : List Node) (edges : List Edge) (g : AdjacencyGraph) (u : ℕ)
      → new nodes edges ≡ ok g
      → u < length nodes
      → out_edge_ids g (pos u) ≡ ids_from u edges
  out_edge_ids-new nodes edges g u h hu =
      let (_, dense, same) = (new_iff nodes edges g).0 h in
      ap (λ z. out_edge_ids z (pos u)) same ∙ out_edge_ids-build nodes edges dense u hu
