-- ===== src/Routing/Dijkstra/Relax.antt =====
-- The inner loop: relaxing all edges out of the node settled last.
use convergent_routing_analy.Prelude.{
  ℕ, suc, ◌+◌, ◌≤◌, ◌<◌, ◌≡◌, ◌∙◌, inl, inr, refl, sym, Bool, pos, List, [], ◌∷◌, some, length,
  Option, arith, ap, subst, Bool-cases, if◌then◌else◌, some_inj,
}
use convergent_routing_analy.Float.{Float64, Laws, add, lt, Le}
use convergent_routing_analy.Domain.{NodeId, EdgeId}
use convergent_routing_analy.Graph.{Graph, Edge, IsGraph}
use convergent_routing_analy.Heap.Order.{Has, Has-cons}
use convergent_routing_analy.Routing.Dijkstra.{
  WeightFunc, HeuristicFunc, Search, relax_edge, relax, relax_all, improve, dist_at, no_edge,
}
use convergent_routing_analy.Routing.Dijkstra.Walks.{IsConsistent, NonNegWeight}
use convergent_routing_analy.Routing.Dijkstra.Invariant.{at, Scan}
use convergent_routing_analy.Routing.Dijkstra.Improve.{
  lower, Scan-improve, improved_le, improved_same, improved_size,
}

module _ ⦃f : Float64⦄ (laws : Laws f) (g : Graph) (ok : IsGraph g) (weight : WeightFunc)
    (h : Option HeuristicFunc) (src : ℕ) (src_in : src < g.node_count) (w : NonNegWeight g weight)
    (k : IsConsistent g weight (pos src) h) (seen : List Bool) (u : ℕ) where
  -- What relaxing m edges keeps.
  pub record Kept (m : ℕ) (s s' : Search) : Type 0 where
    pub scan : Scan g weight h src seen u s'
    pub lowers : (x : ℕ) → x < g.node_count → Le (at s' x) (at s x)
    pub same : at s' u ≡ at s u
    pub size : length s'.queue ≤ length s.queue + m

  Kept-refl : (m : ℕ) (s : Search) → Scan g weight h src seen u s → Kept m s s
  Kept-refl m s inv = record {
    scan = inv;
    lowers = λ x hx. laws.le_refl _ (inv.base.nonneg x hx);
    same = refl;
    size = omega arith;
  }

  Kept-trans : (m : ℕ) {s t r : Search} → Kept 1 s t → Kept m t r → Kept (suc m) s r
  Kept-trans m p q = record {
    scan = q.scan;
    lowers = λ x hx. laws.le_trans _ _ _ (q.lowers x hx) (p.lowers x hx);
    same = q.same ∙ p.same;
    size = omega (arith, p.size, q.size);
  }

  target_in : (y : ℕ) (i : EdgeId) (d : Edge) → g.edge i ≡ some d → d.to ≡ pos y → y < g.node_count
  target_in y i d ed to = let (v, e, hv) = ok.target i d ed in ground arith

  abbrev choose : Search → Edge → NodeId → EdgeId → Search
  choose s e z i =
      if lt (add (at s u) (weight e)) (dist_at s z)
      then improve g weight h s z (add (at s u) (weight e)) i
      else s

  relax_edge-eq :
      (s : Search) (id : EdgeId) (e : Edge) (v : ℕ)
      → e.id ≡ id
      → e.to ≡ pos v
      → relax_edge g weight h (pos u) s e ≡ choose s e (pos v) id
  unfolding relax_edge
  relax_edge-eq s id e v eid to = ap (λ z. choose s e z e.id) to ∙ ap (choose s e (pos v)) eid

  abbrev Eased : Search → Edge → ℕ → Search → Type 0
  Eased s e v t = Kept 1 s t × Le (at t v) (add (at t u) (weight e))

  -- One edge e, to v: afterwards v costs at most the cost of u and of the edge.
  relax_edge_lem :
      (s : Search) (id : EdgeId) (e : Edge) (v : ℕ)
      → Scan g weight h src seen u s
      → g.edge id ≡ some e
      → e.from ≡ pos u
      → e.to ≡ pos v
      → Eased s e v (relax_edge g weight h (pos u) s e)
  relax_edge_lem s id e v inv ed from to =
      let hv = target_in v id e ed to in
      let sum = add (at s u) (weight e) in
      subst (Eased s e v) (sym (relax_edge-eq s id e v (ok.edge-id id e ed) to))
        (elim (Bool-cases (lt sum (at s v))) [
          | inl better ↦
              let t = improve g weight h s (pos v) sum id in
              rw better (
                record {
                  scan =
                      Scan-improve laws g weight h src src_in w k seen u v s inv id e ed from to hv
                        target_in better;
                  lowers =
                      lower laws g weight h src src_in w k seen u v s inv id e ed from to hv
                        target_in better;
                  same =
                      improved_same laws g weight h src src_in w k seen u v s inv id e ed from to hv
                        target_in better;
                  size = omega (
                    arith,
                    improved_size laws g weight h src src_in w k seen u v s inv id e ed from to hv
                        target_in better,
                  );
                },
                improved_le laws g weight h src src_in w k seen u v s inv id e ed from to hv
                    target_in better,
              )
          | inr no_gain ↦ rw no_gain (
            Kept-refl 1 s inv,
            laws.le_of_not_lt _ _
                (laws.le_trans _ _ _ (inv.base.nonneg u inv.here)
                  (laws.le_add _ _ (inv.base.nonneg u inv.here) (w id e ed)))
                (inv.base.nonneg v hv) no_gain,
          )
        ])

  pub relax-some :
      (s : Search) (id : EdgeId) (e : Edge)
      → g.edge id ≡ some e
      → relax g weight h (pos u) s id ≡ relax_edge g weight h (pos u) s e
  unfolding relax
  relax-some s id e ed = rw (ed, relax)

  -- `t` is `s` with all edges of the list relaxed.
  abbrev pub AllEased : List EdgeId → Search → Search → Type 0
  AllEased ids s t =
      Kept (length ids) s t
      × ((id : EdgeId) (e : Edge) (v : ℕ)
          → Has no_edge ids id
          → g.edge id ≡ some e
          → e.to ≡ pos v
          → Le (at t v) (add (at t u) (weight e)))

  -- All edges of the list, each of which leaves u.
  pub relax_all_lem :
      (ids : List EdgeId) (s : Search)
      → Scan g weight h src seen u s
      → ((id : EdgeId) → Has no_edge ids id → (e : Edge) × (g.edge id ≡ some e) × (e.from ≡ pos u))
      → AllEased ids s (relax_all g weight h (pos u) s ids)
  unfolding relax_all
  relax_all_lem [] s inv out = (Kept-refl 0 s inv, λ id e v (i, hi, eq). absurd (omega arith))
  relax_all_lem (id ∷ ids) s inv out =
      let (e, ed, from) = out id (0, omega arith, refl) in
      let (v, to, hv) = ok.target id e ed in
      let t = relax_edge g weight h (pos u) s e in
      let r = relax_all g weight h (pos u) t ids in
      let (one, short) = relax_edge_lem s id e v inv ed from to in
      let (rest, shorts) =
        relax_all_lem ids t one.scan (λ x (i, hi, eq). out x (suc i, omega arith, eq)) in
      subst (λ z. AllEased (id ∷ ids) s (relax_all g weight h (pos u) z ids))
        (sym (relax-some s id e ed))
        (
          Kept-trans (length ids) one rest,
          λ id' e' v' q ed' to'. elim (Has-cons no_edge id ids id' q) [
            | inl first ↦
                let same_edge : e ≡ e' = some_inj (sym ed ∙ ap g.edge first ∙ ed') in
                let same_node : v ≡ v' = ground arith in
                subst (λ z. Le (at r v') (add (at r u) (weight z))) same_edge
                  (subst (λ z. Le (at r z) (add (at r u) (weight e))) same_node
                    (laws.le_trans _ _ _ (rest.lowers v hv)
                      (subst (λ z. Le (at t v) (add z (weight e))) (sym rest.same) short)))
            | inr later ↦ shorts id' e' v' later ed' to'
          ],
        )
