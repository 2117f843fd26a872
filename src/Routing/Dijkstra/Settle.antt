-- ===== src/Routing/Dijkstra/Settle.antt =====
-- One round of the loop: a pop, and what becomes of the invariant when the entry is stale, when its
-- node is settled already, and when it is settled now.
use convergent_routing_analy.Prelude.{
  ℕ, ◌<◌, ◌≡◌, ◌∙◌, ◌⊎◌, inl, inr, sym, true, false, Bool, pos, List, length, set, Option, arith,
  ap, subst, ℕ_discrete, length-set, if◌then◌else◌, ◌==◌,
}
use convergent_routing_analy.Float.{Float64, Laws, inf, lt, Le}
use convergent_routing_analy.Graph.{Graph}
use convergent_routing_analy.Heap.Pop.{Popped}
use convergent_routing_analy.Routing.Dijkstra.{
  WeightFunc, HeuristicFunc, PqItem, no_item, pq_less, Search,
}
use convergent_routing_analy.Routing.Dijkstra.Walks.{is_settled, IsConsistent}
use convergent_routing_analy.Routing.Dijkstra.Traces.{
  count_settled-set, is_settled-set, Traced-settle,
}
use convergent_routing_analy.Routing.Dijkstra.Invariant.{
  pq_rel, at, key, IsItem, IsTraced, Base, Inv, Scan,
}

module _ ⦃f : Float64⦄ (laws : Laws f) (g : Graph) (weight : WeightFunc) (h : Option HeuristicFunc)
    (src : ℕ) (seen : List Bool) (s : Search) (inv : Inv g weight h src seen s) (cur : PqItem)
    (rest : List PqItem) (out : Popped no_item pq_less pq_rel s.queue cur rest) where
  -- The search after the pop.
  abbrev pub popped : Search
  popped = record s { queue = rest }

  IsItem-pop : (x : PqItem) (u : ℕ) → IsItem g weight h src s x u → IsItem g weight h src popped x u
  IsItem-pop x u i = record {
    node = i.node;
    in_range = i.in_range;
    g_nonneg = i.g_nonneg;
    nonneg = i.nonneg;
    fresh = i.fresh;
    key_below = i.key_below;
    key_above = i.key_above;
  }

  -- The popped entry carries the current cost of x.
  abbrev IsCurrent : ℕ → Type 0
  IsCurrent x = (cur.node ≡ pos x) × (cur.g ≡ at s x)

  -- After the pop, under new flags that settle what the popped entry carried.
  Base-pop :
      (seen' : List Bool)
      → length seen' ≡ g.node_count
      → ((v : ℕ)
          → v < g.node_count
          → (at s v ≡ inf) ⊎ IsTraced g weight h src seen' s.prev_edge v (at s v))
      → ((v : ℕ)
          → v < g.node_count
          → is_settled g weight seen' v ≡ false
          → (is_settled g weight seen v ≡ false) × ¬ IsCurrent v)
      → Base g weight h src seen' popped
  Base-pop seen' size reached flags = record {
    seen_size = size;
    dist_size = inv.base.dist_size;
    prev_size = inv.base.prev_size;
    src_zero = inv.base.src_zero;
    nonneg = inv.base.nonneg;
    reached = reached;
    queued = λ v hv un.
        let (open_v, other) = flags v hv un in
        elim (inv.base.queued v hv open_v) [
          | inl none_yet ↦ inl none_yet
          | inr (y, q, node, cost) ↦ elim (out.split y q) [
            | inl eq ↦
                absurd (other (ap (λ z. z.node) (sym eq) ∙ node, ap (λ z. z.g) (sym eq) ∙ cost))
            | inr kept ↦ inr (y, kept, node, cost)
          ]
        ];
    items = λ x q. let (u, i) = inv.base.items x (out.kept x q) in (u, IsItem-pop x u i);
    heap = out.heap;
  }

  -- A pop keeps the invariant if no unsettled node loses its entry.
  Inv-pop :
      ((v : ℕ) → v < g.node_count → is_settled g weight seen v ≡ false → ¬ IsCurrent v)
      → Inv g weight h src seen popped
  Inv-pop other = record {
    base = Base-pop seen inv.base.seen_size inv.base.reached (λ v hv un. (un, other v hv un));
    relaxed = inv.relaxed;
    bound = λ u x hu done q. inv.bound u x hu done (out.kept x q);
  }

  module _ (u : ℕ) (item : IsItem g weight h src s cur u) where
    -- A stale entry is dropped.
    pub Inv-stale : lt (at s u) cur.g ≡ true → Inv g weight h src seen popped
    Inv-stale stale = Inv-pop λ v hv un (node, cost).
        let same : u ≡ v = ground (arith, item.node) in
        let le = laws.le_refl _ (inv.base.nonneg u item.in_range) in
        let none_better = laws.not_lt_of_le _ _ le in
        let cost_u : cur.g ≡ at s u = cost ∙ ap (at s) (sym same) in
        cc (ap (λ z. lt (at s u) z) cost_u)

    -- So is the entry of a node that is settled already.
    pub Inv-settled : is_settled g weight seen u ≡ true → Inv g weight h src seen popped
    Inv-settled done = Inv-pop λ v hv un (node, cost).
        let same : u ≡ v = ground (arith, item.node) in ground (arith, done, un)

    module _ (k : IsConsistent g weight (pos src) h) (live : lt (at s u) cur.g ≡ false) where
      key_u_below : Le (key g weight h src u (at s u)) cur.priority
      key_u_below =
          laws.le_trans _ _ _
            (k.mono (pos u) (at s u) cur.g (inv.base.nonneg u item.in_range) item.g_nonneg
              item.fresh)
            item.key_below

      key_u_above : Le cur.priority (key g weight h src u (at s u))
      key_u_above = laws.le_trans _ _ _ item.key_above (
          k.mono (pos u) cur.g (at s u) item.g_nonneg (inv.base.nonneg u item.in_range)
            (laws.le_of_not_lt _ _ (inv.base.nonneg u item.in_range) item.g_nonneg live))

      -- The node is settled now.
      module _ (fresh : is_settled g weight seen u ≡ false) where
        abbrev pub seen' : List Bool
        seen' = set seen u true

        inside : u < length seen
        inside = subst (λ n. u < n) (sym inv.base.seen_size) item.in_range

        flag :
            (v : ℕ)
            → is_settled g weight seen' v ≡ (if u == v then true else is_settled g weight seen v)
        flag v = is_settled-set g weight seen u v inside

        reached' :
            (v : ℕ)
            → v < g.node_count
            → (at s v ≡ inf) ⊎ IsTraced g weight h src seen' s.prev_edge v (at s v)
        reached' v hv = elim (inv.base.reached v hv) [
          | inl none_yet ↦ inl none_yet
          | inr (p, t, n) ↦ inr (
            p,
            Traced-settle g weight src seen s.prev_edge u inside t,
            ground (arith, flag v, fresh, count_settled-set g weight seen u inside fresh),
          )
        ]

        low' :
            (v : ℕ)
            → v < g.node_count
            → is_settled g weight seen' v ≡ true
            → Le (key g weight h src v (at s v)) (key g weight h src u (at s u))
        low' v hv done = elim (ℕ_discrete u v) [
          | yes same ↦
              subst (λ z. Le (key g weight h src z (at s z)) (key g weight h src u (at s u))) same
                (laws.le_refl _ (k.nonneg (pos u) (at s u) (inv.base.nonneg u item.in_range)))
          | no other ↦
              laws.le_trans _ _ _ (inv.bound v cur hv (ground (arith, flag v)) out.member)
                key_u_above
        ]

        pub Scan-settle : Scan g weight h src seen' u popped
        Scan-settle = record {
          base = Base-pop seen' (length-set seen u true ∙ inv.base.seen_size) reached' (λ v hv un.
              (ground (arith, flag v), λ (node, cost). ground (arith, flag v, item.node)));
          here = item.in_range;
          settled = ground (arith, flag u);
          others = λ v hv done ne. inv.relaxed v hv (ground (arith, flag v));
          low = low';
          high = λ x q. laws.le_trans _ _ _ key_u_below (out.least x (out.kept x q));
        }
