-- ===== src/Routing/Dijkstra/Frontier.antt =====
-- Between two rounds every walk either costs no less than what is recorded at its end, or leaves
-- the settled nodes through an entry of the frontier whose key is no greater.
use convergent_routing_analy.Prelude.{
  ℕ, ◌<◌, ◌≡◌, ◌∙◌, ◌⊎◌, inl, inr, sym, Bool, pos, List, some, Option, arith, subst, Bool-cases,
}
use convergent_routing_analy.Float.{Float64, Laws, Float, of_nat, add, Le, NonNeg}
use convergent_routing_analy.Domain.{NodeId, EdgeId}
use convergent_routing_analy.Graph.{Graph, Edge, IsGraph}
use convergent_routing_analy.Heap.Order.{Has}
use convergent_routing_analy.Routing.Dijkstra.{
  WeightFunc, HeuristicFunc, PqItem, no_item, Search, priority_of,
}
use convergent_routing_analy.Routing.Dijkstra.Walks.{
  Walk, here, step, is_settled, IsConsistent, NonNegWeight,
}
use convergent_routing_analy.Routing.Dijkstra.Invariant.{at, key, Inv}

module _ ⦃f : Float64⦄ (laws : Laws f) (g : Graph) (ok : IsGraph g) (weight : WeightFunc)
    (w : NonNegWeight g weight) where
  -- The cost of a walk is not negative.
  pub Walk-nonneg :
      (src : NodeId) {v : NodeId} {p : List EdgeId} {c : Float} → Walk g weight src v p c → NonNeg c
  Walk-nonneg src here = laws.zero_le
  Walk-nonneg src (step {p} {c} id e t ed from) =
      laws.le_trans _ _ _ (Walk-nonneg src t) (laws.le_add _ _ (Walk-nonneg src t) (w id e ed))

  module _ (h : Option HeuristicFunc) (src : ℕ) (src_in : src < g.node_count)
      (k : IsConsistent g weight (pos src) h) (seen : List Bool) (s : Search)
      (inv : Inv g weight h src seen s) where
    -- The walk leaves the settled nodes through an entry whose key is no greater than its own.
    abbrev pub IsOpen : ℕ → Float → Type 0
    IsOpen x c = (y : PqItem) × Has no_item s.queue y × Le y.priority (key g weight h src x c)

    -- A cost at x is carried over the edge e to v.
    carry :
        (id : EdgeId) (e : Edge) (x v : ℕ) (c : Float)
        → g.edge id ≡ some e
        → e.from ≡ pos x
        → e.to ≡ pos v
        → NonNeg c
        → Le (key g weight h src x c) (key g weight h src v (add c (weight e)))
    carry id e x v c ed from to nn =
        subst (λ z. Le (priority_of h z c) (key g weight h src v (add c (weight e)))) from
          (subst (λ z. Le (priority_of h e.from c) (priority_of h z (add c (weight e)))) to
            (k.along id e c ed nn))

    -- One more edge.
    extend :
        (id : EdgeId) (e : Edge) (x v : ℕ) (c : Float)
        → x < g.node_count
        → v < g.node_count
        → g.edge id ≡ some e
        → e.from ≡ pos x
        → e.to ≡ pos v
        → NonNeg c
        → Le (at s x) c ⊎ IsOpen x c
        → Le (at s v) (add c (weight e)) ⊎ IsOpen v (add c (weight e))
    extend id e x v c hx hv ed from to nn (inr (y, q, le)) =
        inr (y, q, laws.le_trans _ _ _ le (carry id e x v c ed from to nn))
    extend id e x v c hx hv ed from to nn (inl le) =
        elim (Bool-cases (is_settled g weight seen x)) [
          | inl done ↦ inl (
              laws.le_trans _ _ _ (inv.relaxed x hx done id e v ed from to)
                (laws.add_mono _ _ _ (inv.base.nonneg x hx) (w id e ed) le))
          | inr fresh ↦ elim (inv.base.queued x hx fresh) [
            | inl none_yet ↦ inl (
                laws.le_trans _ _ _ (laws.le_inf _ (inv.base.nonneg v hv)) (
                  laws.le_trans _ _ _ (subst (λ z. Le z c) none_yet le)
                    (laws.le_add _ _ nn (w id e ed))))
            | inr (y, q, node, cost) ↦
                let (u, i) = inv.base.items y q in
                let same : u ≡ x = ground (arith, i.node, node) in
                inr (
                  y,
                  q,
                  laws.le_trans _ _ _ i.key_above (
                      laws.le_trans _ _ _
                        (subst (λ z. Le (key g weight h src u y.g) (key g weight h src z c)) same
                          (k.mono (pos u) y.g c i.g_nonneg nn (subst (λ z. Le z c) (sym cost) le)))
                        (carry id e x v c ed from to nn)),
                )
          ]
        ]

    pub frontier :
        {z : NodeId} {p : List EdgeId} {c : Float}
        → Walk g weight (pos src) z p c
        → (x : ℕ) → z ≡ pos x
        → Le (at s x) c ⊎ IsOpen x c
    frontier here x e = inl (
        subst (λ y. Le (at s y) (of_nat 0)) (let r : src ≡ x = ground arith in r)
          (subst (λ y. Le y (of_nat 0)) (sym inv.base.src_zero) laws.zero_le))
    frontier (step {p} {c} {u} id e t ed from) x to =
        let (n, src_e, hn) = ok.source id e ed in
        let (v, to_e, hv) = ok.target id e ed in
        let same : v ≡ x = ground arith in
        subst (λ y. Le (at s y) (add c (weight e)) ⊎ IsOpen y (add c (weight e))) same
          (extend id e n v c hn hv ed src_e to_e (Walk-nonneg (pos src) t)
            (frontier t n (sym from ∙ src_e)))
