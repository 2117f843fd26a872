-- ===== src/Graph/Adjacency/Validate.antt =====
-- What New accepts.
use convergent_routing_analy.Prelude.{
  ℕ, suc, ◌<◌, ◌≡◌, ◌↔◌, ◌∙◌, refl, sym, true, ℤ, pos, List, [], ◌∷◌, none, some, length, arith,
  Bool-cases, inl, inr, eqb_ℤ, eqb_ℤ_iff, in_range, Option-cases, in_range-some, in_range-pos, ap,
}
use convergent_routing_analy.Float.{Float64}
use convergent_routing_analy.Graph.{Node, Edge}
use convergent_routing_analy.Graph.Adjacency.{
  check_nodes, check_edges, new, build, ok, AdjacencyGraph,
}

abbrev pub InRange : ℤ → ℕ → Type 0
InRange z n = (u : ℕ) × (z ≡ pos u) × (u < n)

module _ ⦃f : Float64⦄ where
  -- From index i on, the ids are the positions.
  abbrev pub DenseNodes : ℕ → List Node → Type 0
  DenseNodes i [] = Unit
  DenseNodes i (n ∷ ns) = (n.id ≡ pos i) × DenseNodes (suc i) ns

  -- From index i on, the ids are the positions and the endpoints are below count.
  abbrev pub DenseEdges : ℕ → ℕ → List Edge → Type 0
  DenseEdges count i [] = Unit
  DenseEdges count i (e ∷ es) =
      (e.id ≡ pos i) × InRange e.from count × InRange e.to count × DenseEdges count (suc i) es

  check_nodes_iff : (i : ℕ) (ns : List Node) → (check_nodes i ns ≡ none) ↔ DenseNodes i ns
  unfolding check_nodes
  check_nodes_iff i [] = (λ e. tt, λ d. refl)
  check_nodes_iff i (n ∷ ns) = ground (arith, eqb_ℤ_iff n.id (pos i), check_nodes_iff (suc i) ns)

  check_edges_sound :
      (count i : ℕ) (es : List Edge) → check_edges count i es ≡ none → DenseEdges count i es
  unfolding check_edges
  check_edges_sound count i [] h = tt
  check_edges_sound count i (e ∷ es) h = elim (Bool-cases (eqb_ℤ e.id (pos i))) [
    | inl dense ↦ elim (Option-cases (in_range e.from count)) [
      | inl out ↦ absurd (cc (rw (dense, out) at h))
      | inr (u, from) ↦ elim (Option-cases (in_range e.to count)) [
        | inl out ↦ absurd (cc (rw (dense, from, out) at h))
        | inr (v, to) ↦ (
          (eqb_ℤ_iff e.id (pos i)).0 dense,
          (u, (in_range-some e.from count u from).0, (in_range-some e.from count u from).1),
          (v, (in_range-some e.to count v to).0, (in_range-some e.to count v to).1),
          check_edges_sound count (suc i) es (rw (dense, from, to) at h),
        )
      ]
    ]
    | inr sparse ↦ absurd (cc (rw sparse at h))
  ]

  check_edges_complete :
      (count i : ℕ) (es : List Edge) → DenseEdges count i es → check_edges count i es ≡ none
  unfolding check_edges
  check_edges_complete count i [] d = refl
  check_edges_complete count i (e ∷ es) (id, (u, from, hu), (v, to, hv), rest) =
      let same : eqb_ℤ e.id (pos i) ≡ true = (eqb_ℤ_iff e.id (pos i)).1 id in
      let from' : in_range e.from count ≡ some u =
        ap (λ z. in_range z count) from ∙ in_range-pos u count hu in
      let to' : in_range e.to count ≡ some v =
        ap (λ z. in_range z count) to ∙ in_range-pos v count hv in
      rw (same, from', to') (check_edges_complete count (suc i) es rest)

  -- New returns a graph exactly if the node ids and the edge ids are their positions and every
  -- endpoint is a node, and the graph is then the one that the counting sort builds.
  pub new_iff :
      (nodes : List Node) (edges : List Edge) (g : AdjacencyGraph)
      → (new nodes edges ≡ ok g)
        ↔ (DenseNodes 0 nodes × DenseEdges (length nodes) 0 edges × (g ≡ build nodes edges))
  unfolding new
  new_iff nodes edges g = elim (Option-cases (check_nodes 0 nodes)) [
    | inr (e, bad) ↦ (
      λ h. absurd (cc (rw (bad, new) at h)),
      λ (dense, _, _). absurd (cc ((check_nodes_iff 0 nodes).1 dense)),
    )
    | inl fine ↦ elim (Option-cases (check_edges (length nodes) 0 edges)) [
      | inr (e, bad) ↦ (
        λ h. absurd (cc (rw (fine, bad, new) at h)),
        λ (_, dense, _). absurd (cc (check_edges_complete (length nodes) 0 edges dense)),
      )
      | inl good ↦ (
        λ h. (
          (check_nodes_iff 0 nodes).0 fine,
          check_edges_sound (length nodes) 0 edges good,
          let built : ok (build nodes edges) ≡ ok g = rw (fine, good, new) at h in cc,
        ),
        λ (_, _, same). rw (fine, good, new) (ap ok (sym same)),
      )
    ]
  ]
