-- ===== src/Routing/Dijkstra/Loop.antt =====
-- The loop ends within its fuel, and at its end the destination's cost is that of a least walk.
use convergent_routing_analy.Prelude.{
  ℕ, zero, suc, ◌+◌, ◌<◌, ◌≡◌, ◌∙◌, ◌⊎◌, inl, inr, refl, sym, true, false, Bool, pos, List, [], ◌∷◌,
  some, none, length, set, Option, arith, ap, subst, Bool-cases, ℕ_discrete, if◌then◌else◌, ◌==◌,
  ==_iff, eqb_ℤ,
}
use convergent_routing_analy.Float.{Float64, Laws, Float, inf, add, lt, Le, NonNeg}
use convergent_routing_analy.Domain.{NodeId, EdgeId}
use convergent_routing_analy.Graph.{Graph, Edge, IsGraph}
use convergent_routing_analy.Heap.{pop}
use convergent_routing_analy.Heap.Order.{Has}
use convergent_routing_analy.Heap.Pop.{Popped, pop_restores}
use convergent_routing_analy.Routing.Dijkstra.{
  WeightFunc, HeuristicFunc, PqItem, no_item, no_edge, pq_less, Search, relax_edge, relax,
  relax_all, dist_at, expand, round, loop, Verdict, finished, again,
}
use convergent_routing_analy.Routing.Dijkstra.Walks.{Walk, is_settled, IsConsistent, NonNegWeight}
use convergent_routing_analy.Routing.Dijkstra.Invariant.{
  pq_rel, pq-IsOrder, NonNegItem, at, key, IsItem, IsTraced, IsRelaxed, Inv,
}
use convergent_routing_analy.Routing.Dijkstra.Relax.{relax_all_lem}
use convergent_routing_analy.Routing.Dijkstra.Frontier.{frontier, Walk-nonneg}
use convergent_routing_analy.Routing.Dijkstra.Settle.{Inv-stale, Inv-settled, Scan-settle}
use convergent_routing_analy.Routing.Dijkstra.Measure.{open_degree, open_degree-set}

module _ ⦃f : Float64⦄ (laws : Laws f) (g : Graph) (ok : IsGraph g) (weight : WeightFunc)
    (h : Option HeuristicFunc) (src dst : ℕ) (src_in : src < g.node_count)
    (dst_in : dst < g.node_count) (w : NonNegWeight g weight)
    (k : IsConsistent g weight (pos src) h) where
  -- What holds when the loop ends.
  pub record Final (t : Search) : Type 0 where
    pub seen : List Bool
    pub seen_size : length seen ≡ g.node_count
    pub traced : (at t dst ≡ inf) ⊎ IsTraced g weight h src seen t.prev_edge dst (at t dst)
    pub nonneg : NonNeg (at t dst)
    pub best :
        (q : List EdgeId) (c : Float) → Walk g weight (pos src) (pos dst) q c → Le (at t dst) c

  -- What is still to be done: entries, and out-edges of open nodes.
  abbrev work : List Bool → Search → ℕ
  work seen s = open_degree g weight seen g.node_count + length s.queue

  -- A round ends the loop, or goes on with less to do.
  abbrev Progress : ℕ → Verdict g weight h → Type 0
  Progress m (finished t) = Final t
  Progress m (again t) = (seen : List Bool) × Inv g weight h src seen t × (work seen t < m)

  relax_same :
      (u : NodeId) (s : Search) (id : EdgeId) (e : Edge)
      → g.edge id ≡ some e
      → lt (add (dist_at s u) (weight e)) (dist_at s e.to) ≡ false
      → relax g weight h u s id ≡ s
  unfolding relax relax_edge
  relax_same u s id e ed no_gain = rw (ed, relax) (rw no_gain)

  -- Nothing changes if no edge would improve a cost.
  relax_all_same :
      (u : ℕ) (ids : List EdgeId) (s : Search)
      → IsRelaxed g weight h src s u
      → ((id : EdgeId) → Has no_edge ids id → (e : Edge) × (g.edge id ≡ some e) × (e.from ≡ pos u))
      → relax_all g weight h (pos u) s ids ≡ s
  unfolding relax_all
  relax_all_same u [] s eased out = refl
  relax_all_same u (id ∷ ids) s eased out =
      let (e, ed, from) = out id (0, omega arith, refl) in
      let (v, to, hv) = ok.target id e ed in
      let no_gain : lt (add (at s u) (weight e)) (dist_at s e.to) ≡ false =
        subst (λ z. lt (add (at s u) (weight e)) (dist_at s z) ≡ false) (sym to)
          (laws.not_lt_of_le _ _ (eased id e v ed from to)) in
      ap (λ z. relax_all g weight h (pos u) z ids) (relax_same (pos u) s id e ed no_gain)
      ∙ relax_all_same u ids s eased (λ x (i, hi, eq). out x (suc i, omega arith, eq))

  module _ (seen : List Bool) (s : Search) (inv : Inv g weight h src seen s) where
    -- With no entry left every walk's cost is recorded.
    Final-empty : s.queue ≡ [] → Final s
    Final-empty e = record {
      seen = seen;
      seen_size = inv.base.seen_size;
      traced = inv.base.reached dst dst_in;
      nonneg = inv.base.nonneg dst dst_in;
      best = λ q c t. elim (frontier laws g ok weight w h src src_in k seen s inv t dst refl) [
        | inl le ↦ le
        | inr (y, (i, hi, _), _) ↦ absurd (omega (arith, ap length e))
      ];
    }

    module _ (cur : PqItem) (rest : List PqItem)
        (out : Popped no_item pq_less pq_rel s.queue cur rest) (u : ℕ)
        (item : IsItem g weight h src s cur u) where
      abbrev t : Search
      t = record s { queue = rest }

      -- The destination's own entry is a least one.
      Final-popped : u ≡ dst → Final t
      Final-popped same = record {
        seen = seen;
        seen_size = inv.base.seen_size;
        traced = inv.base.reached dst dst_in;
        nonneg = inv.base.nonneg dst dst_in;
        best = λ q c walk.
            elim (frontier laws g ok weight w h src src_in k seen s inv walk dst refl) [
              | inl le ↦ le
              | inr (y, has, le) ↦
                  laws.le_trans _ _ _ (subst (λ z. Le (at s z) cur.g) same item.fresh) (
                    k.reflects (pos dst) cur.g c item.g_nonneg
                      (Walk-nonneg laws g ok weight w (pos src) walk)
                      (laws.le_trans _ _ _
                        (subst (λ z. Le (key g weight h src z cur.g) cur.priority) same
                          item.key_below)
                        (laws.le_trans _ _ _ (out.least y has) le)))
            ];
      }

      -- The edges out of u.
      leaves :
          (id : EdgeId)
          → Has no_edge (g.out_edge_ids (pos u)) id
          → (e : Edge) × (g.edge id ≡ some e) × (e.from ≡ pos u)
      leaves id has = ok.out-sound u id item.in_range has

      abbrev after : Search
      after = relax_all g weight h (pos u) t (g.out_edge_ids (pos u))

      -- Relaxing the out-edges of u.
      relax-Progress : lt (at s u) cur.g ≡ false → Progress (work seen s) (again after)
      relax-Progress live = elim (Bool-cases (is_settled g weight seen u)) [
        | inl done ↦
            subst (λ z. Progress (work seen s) (again z))
              (sym (
                relax_all_same u (g.out_edge_ids (pos u)) t (inv.relaxed u item.in_range done)
                  leaves))
              (
                seen,
                Inv-settled laws g weight h src seen s inv cur rest out u item done,
                omega (arith, out.size),
              )
        | inr fresh ↦
            let now = set seen u true in
            let scan =
              Scan-settle laws g weight h src seen s inv cur rest out u item k live fresh in
            let (kept, eased) =
              relax_all_lem laws g ok weight h src src_in w k now u (g.out_edge_ids (pos u)) t scan
                leaves in
            (
              now,
              record {
                base = kept.scan.base;
                relaxed = λ v hv done. elim (ℕ_discrete v u) [
                  | yes same ↦
                      subst (IsRelaxed g weight h src after) (sym same)
                        (λ id e x ed from to. eased id e x (ok.out-complete u id e ed from) ed to)
                  | no other ↦ kept.scan.others v hv done other
                ];
                bound = λ v x hv done has.
                    laws.le_trans _ _ _ (kept.scan.low v hv done) (kept.scan.high x has);
              },
              omega (
                arith,
                kept.size,
                out.size,
                open_degree-set g weight seen u g.node_count
                    (subst (λ n. u < n) (sym inv.base.seen_size) item.in_range) fresh item.in_range,
              ),
            )
      ]

      abbrev decide : NodeId → Verdict g weight h
      decide z =
          if lt (dist_at t z) cur.g
          then again t
          else if eqb_ℤ z (pos dst)
          then finished t
          else again (relax_all g weight h z t (g.out_edge_ids z))

      expand-Progress : Progress (work seen s) (expand g weight h (pos dst) cur t)
      unfolding expand
      expand-Progress =
          subst (λ z. Progress (work seen s) (decide z)) (sym item.node)
            (elim (Bool-cases (lt (at s u) cur.g)) [
              | inl stale ↦ rw stale (
                seen,
                Inv-stale laws g weight h src seen s inv cur rest out u item stale,
                omega (arith, out.size),
              )
              | inr live ↦ rw live (elim (Bool-cases (u == dst)) [
                | inl goal ↦ rw goal (Final-popped ((==_iff u dst).0 goal))
                | inr other ↦ rw other (relax-Progress live)
              ])
            ])

    round-pop :
        (cur : PqItem) (rest : List PqItem)
        → pop no_item pq_less s.queue ≡ some (cur, rest)
        → round g weight h (pos dst) s ≡ expand g weight h (pos dst) cur (record s { queue = rest })
    unfolding round
    round-pop cur rest e = rw (e, round)

    pop-empty : s.queue ≡ [] → pop no_item pq_less s.queue ≡ none
    unfolding pop
    pop-empty e = ap (pop no_item pq_less) e

    round-empty : s.queue ≡ [] → round g weight h (pos dst) s ≡ finished s
    unfolding round
    round-empty e = rw (pop-empty e, round)

    -- One round ends the search or leaves less to do.
    round-Progress : Progress (work seen s) (round g weight h (pos dst) s)
    round-Progress = elim (ℕ_discrete (length s.queue) 0) [
      | yes empty ↦
          let nil : s.queue ≡ [] = grind arith in
          subst (Progress (work seen s)) (sym (round-empty nil)) (Final-empty nil)
      | no some_left ↦
          let (cur, rest, e, out) =
            pop_restores no_item pq_less pq_rel NonNegItem (pq-IsOrder laws) s.queue (omega arith)
              (λ y q. (inv.base.items y q).1.nonneg) inv.base.heap in
          let (u, item) = inv.base.items cur out.member in
          subst (Progress (work seen s)) (sym (round-pop cur rest e))
            (expand-Progress cur rest out u item)
    ]

  Verdict-cases :
      (v : Verdict g weight h) → ((t : Search) × (v ≡ finished t)) ⊎ ((t : Search) × (v ≡ again t))
  Verdict-cases (finished t) = inl (t, refl)
  Verdict-cases (again t) = inr (t, refl)

  -- With more fuel than work the loop ends.
  pub loop_ends :
      (fuel : ℕ) (seen : List Bool) (s : Search)
      → Inv g weight h src seen s
      → work seen s < fuel
      → (t : Search) × (loop g weight h (pos dst) fuel s ≡ some t) × Final t
  unfolding loop
  loop_ends zero seen s inv less = elim less [ ]
  loop_ends (suc fuel) seen s inv less =
      let progress = round-Progress seen s inv in
      elim (Verdict-cases (round g weight h (pos dst) s)) [
        | inl (t, e) ↦ (t, rw (e, loop), subst (Progress (work seen s)) e progress)
        | inr (t, e) ↦
            let (now, kept, fewer) = subst (Progress (work seen s)) e progress in
            let (r, ends, final) = loop_ends fuel now t kept (omega arith) in
            (r, rw (e, loop) ends, final)
      ]
