-- ===== src/Routing/Dijkstra/Improve.antt =====
-- The invariant when an edge out of the node u, settled last, improves the cost of a node v.
use convergent_routing_analy.Prelude.{
  ℕ, ◌+◌, ◌<◌, ◌≡◌, ◌≢◌, ◌⊎◌, ◌∙◌, inl, inr, refl, sym, true, false, Bool, pos, List, [], ◌∷◌, ◌++◌,
  some, length, get_or, Option, if◌then◌else◌, ◌==◌, arith, ap, subst, ℕ_discrete, Bool-cases,
  length-set, get_or-set, length-append, ◌↔◌,
}
use convergent_routing_analy.Float.{Float64, Laws, Float, inf, add, lt, Le, NonNeg}
use convergent_routing_analy.Domain.{EdgeId}
use convergent_routing_analy.Graph.{Graph, Edge}
use convergent_routing_analy.Heap.{push}
use convergent_routing_analy.Heap.Order.{Has}
use convergent_routing_analy.Heap.Up.{IsHeap, push_restores}
use convergent_routing_analy.Routing.Dijkstra.{
  WeightFunc, HeuristicFunc, PqItem, no_item, no_edge, pq_less, Search, priority_of, improve,
}
use convergent_routing_analy.Routing.Dijkstra.Walks.{
  is_settled, Traced, hop, IsConsistent, NonNegWeight,
}
use convergent_routing_analy.Routing.Dijkstra.Traces.{Traced-set}
use convergent_routing_analy.Routing.Dijkstra.Invariant.{
  pq_rel, pq-IsOrder, NonNegItem, at, key, IsTraced, IsItem, IsQueued, Base, Scan,
}

module _ ⦃f : Float64⦄ (laws : Laws f) (g : Graph) (weight : WeightFunc) (h : Option HeuristicFunc)
    (src : ℕ) (src_in : src < g.node_count) (w : NonNegWeight g weight)
    (k : IsConsistent g weight (pos src) h) (seen : List Bool) (u v : ℕ) (s : Search)
    (inv : Scan g weight h src seen u s) (id : EdgeId) (e : Edge) (edge : g.edge id ≡ some e)
    (from : e.from ≡ pos u) (to : e.to ≡ pos v) (in_range : v < g.node_count)
    (target : (y : ℕ) (i : EdgeId) (d : Edge)
      → g.edge i ≡ some d
      → d.to ≡ pos y
      → y < g.node_count) where
  abbrev sum : Float
  sum = add (at s u) (weight e)

  sum_nonneg : NonNeg sum
  sum_nonneg =
      laws.le_trans _ _ _ (inv.base.nonneg u inv.here)
        (laws.le_add _ _ (inv.base.nonneg u inv.here) (w id e edge))

  -- The key does not fall along the edge.
  pub key_along : Le (key g weight h src u (at s u)) (key g weight h src v sum)
  key_along =
      subst (λ z. Le (priority_of h z (at s u)) (key g weight h src v sum)) from
        (subst (λ z. Le (priority_of h e.from (at s u)) (priority_of h z sum)) to
          (k.along id e (at s u) edge (inv.base.nonneg u inv.here)))

  -- The edge improves no settled node.
  pub settled_below : is_settled g weight seen v ≡ true → Le (at s v) sum
  settled_below done =
      k.reflects (pos v) (at s v) sum (inv.base.nonneg v in_range) sum_nonneg
        (laws.le_trans _ _ _ (inv.low v in_range done) key_along)

  module _ (better : lt sum (at s v) ≡ true) where
    abbrev s' : Search
    s' = improve g weight h s (pos v) sum id

    abbrev new : PqItem
    new = record { node = pos v; g = sum; priority = key g weight h src v sum }

    contra : Le (at s v) sum → ⊥
    contra p = cc (laws.not_lt_of_le _ _ p)

    open_v : is_settled g weight seen v ≡ false
    open_v = elim (Bool-cases (is_settled g weight seen v)) [
      | inl done ↦ absurd (contra (settled_below done))
      | inr e ↦ e
    ]

    prev_v : get_or (improve g weight h s (pos v) sum id).prev_edge v no_edge ≡ id
    unfolding improve
    prev_v = ground (
      arith,
      get_or-set s.prev_edge v v id no_edge (subst (λ n. v < n) (sym inv.base.prev_size) in_range),
    )

    v-ne-src : v ≢ src
    v-ne-src eq = contra (
        subst (λ z. Le (at s z) sum) (sym eq)
          (subst (λ z. Le z sum) (sym inv.base.src_zero) sum_nonneg))

    read : (x : ℕ) → at s' x ≡ (if v == x then sum else at s x)
    unfolding improve
    read x = get_or-set s.dist v x sum inf (subst (λ n. v < n) (sym inv.base.dist_size) in_range)

    read_ne : (x : ℕ) → v ≢ x → at s' x ≡ at s x
    read_ne x ne = ground (arith, read x)

    read_v : at s' v ≡ sum
    read_v = ground (arith, read v)

    settled_ne : (x : ℕ) → is_settled g weight seen x ≡ true → v ≢ x
    settled_ne x done eq = ground (arith, open_v)

    pub lower : (x : ℕ) → x < g.node_count → Le (at s' x) (at s x)
    lower x h = elim (ℕ_discrete v x) [
      | yes eq ↦
          subst (λ z. Le (at s' z) (at s z)) eq
            (subst (λ z. Le z (at s v)) (sym read_v) (laws.le_of_lt _ _ better))
      | no ne ↦
          subst (λ z. Le z (at s x)) (sym (read_ne x ne)) (laws.le_refl _ (inv.base.nonneg x h))
    ]

    abbrev queue' : List PqItem
    queue' = push no_item pq_less s.queue new

    queue_facts :
        IsHeap no_item pq_less pq_rel queue' (length queue')
        × (length queue' ≡ length s.queue + 1)
        × ((y : PqItem) → Has no_item queue' y ↔ (Has no_item s.queue y ⊎ (y ≡ new)))
    queue_facts =
        push_restores no_item pq_less pq_rel NonNegItem (pq-IsOrder laws) s.queue new
          (λ y q. (inv.base.items y q).1.nonneg) (k.nonneg (pos v) sum sum_nonneg) inv.base.heap

    reached' :
        (x : ℕ)
        → x < g.node_count
        → (at s' x ≡ inf) ⊎ IsTraced g weight h src seen s'.prev_edge x (at s' x)
    unfolding improve
    reached' x hx = elim (ℕ_discrete v x) [
      | yes eq ↦ elim (inv.base.reached u inv.here) [
        | inl none_yet ↦ absurd (
            contra (
              laws.le_trans _ _ _ (laws.le_inf _ (inv.base.nonneg v in_range)) (
                subst (λ z. Le z sum) none_yet
                  (laws.le_add _ _ (inv.base.nonneg u inv.here) (w id e edge)))))
        | inr (p, t, n) ↦ inr (
            subst (λ z. IsTraced g weight h src seen s'.prev_edge z (at s' z)) eq
              (
                p ++ id ∷ [],
                subst (λ z. Traced g weight src seen s'.prev_edge v (p ++ id ∷ []) z) (sym read_v)
                    (hop v id e
                      (Traced-set g weight src seen s.prev_edge v id
                        (subst (λ n. v < n) (sym inv.base.prev_size) in_range) open_v
                        (settled_ne u inv.settled) t)
                      inv.settled v-ne-src prev_v edge from to),
                ground (arith, length-append p (id ∷ []), inv.settled, open_v),
              ))
      ]
      | no ne ↦ elim (inv.base.reached x hx) [
        | inl none_yet ↦ inl (read_ne x ne ∙ none_yet)
        | inr (p, t, n) ↦ inr (
          p,
          subst (λ z. Traced g weight src seen s'.prev_edge x p z) (sym (read_ne x ne))
              (Traced-set g weight src seen s.prev_edge v id
                (subst (λ n. v < n) (sym inv.base.prev_size) in_range) open_v ne t),
          n,
        )
      ]
    ]

    IsItem-keep : (x : PqItem) (y : ℕ) → IsItem g weight h src s x y → IsItem g weight h src s' x y
    IsItem-keep x y i = record {
      node = i.node;
      in_range = i.in_range;
      g_nonneg = i.g_nonneg;
      nonneg = i.nonneg;
      fresh = laws.le_trans _ _ _ (lower y i.in_range) i.fresh;
      key_below = i.key_below;
      key_above = i.key_above;
    }

    key-sum_nonneg : NonNeg (key g weight h src v sum)
    key-sum_nonneg = k.nonneg (pos v) sum sum_nonneg

    IsItem-new : IsItem g weight h src s' new v
    IsItem-new = record {
      node = refl;
      in_range = in_range;
      g_nonneg = sum_nonneg;
      nonneg = key-sum_nonneg;
      fresh = subst (λ z. Le z sum) (sym read_v) (laws.le_refl _ sum_nonneg);
      key_below = laws.le_refl _ key-sum_nonneg;
      key_above = laws.le_refl _ key-sum_nonneg;
    }

    items' : (x : PqItem) → Has no_item s'.queue x → (y : ℕ) × IsItem g weight h src s' x y
    unfolding improve
    items' x q = elim ((queue_facts.2 x).0 q) [
      | inl old ↦ let (y, i) = inv.base.items x old in (y, IsItem-keep x y i)
      | inr eq ↦ (v, subst (λ z. IsItem g weight h src s' z v) (sym eq) IsItem-new)
    ]

    queued' :
        (x : ℕ)
        → x < g.node_count
        → is_settled g weight seen x ≡ false
        → (at s' x ≡ inf) ⊎ IsQueued g weight h src s' x
    unfolding improve
    queued' x hx un = elim (ℕ_discrete v x) [
      | yes eq ↦ inr (new, (queue_facts.2 new).1 (inr refl), ap pos eq, sym read_v ∙ ap (at s') eq)
      | no ne ↦ elim (inv.base.queued x hx un) [
        | inl none_yet ↦ inl (read_ne x ne ∙ none_yet)
        | inr (y, q, node, cost) ↦
            inr (y, (queue_facts.2 y).1 (inl q), node, cost ∙ sym (read_ne x ne))
      ]
    ]

    nonneg' : (x : ℕ) → x < g.node_count → NonNeg (at s' x)
    nonneg' x hx = elim (ℕ_discrete v x) [
      | yes eq ↦ subst (λ z. NonNeg (at s' z)) eq (subst NonNeg (sym read_v) sum_nonneg)
      | no ne ↦ subst NonNeg (sym (read_ne x ne)) (inv.base.nonneg x hx)
    ]

    Base-improve : Base g weight h src seen s'
    unfolding improve
    Base-improve = record {
      seen_size = inv.base.seen_size;
      dist_size = length-set s.dist v sum ∙ inv.base.dist_size;
      prev_size = length-set s.prev_edge v id ∙ inv.base.prev_size;
      src_zero = read_ne src v-ne-src ∙ inv.base.src_zero;
      nonneg = nonneg';
      reached = reached';
      queued = queued';
      items = items';
      heap = queue_facts.0;
    }

    keep_settled : (x : ℕ) → is_settled g weight seen x ≡ true → at s' x ≡ at s x
    keep_settled x done = read_ne x (settled_ne x done)

    -- The invariant of the inner loop holds on, and the edge is relaxed.
    pub Scan-improve : Scan g weight h src seen u s'
    unfolding improve
    Scan-improve = record {
      base = Base-improve;
      here = inv.here;
      settled = inv.settled;
      others = λ x hx done ne i d y ed fr t. laws.le_trans _ _ _ (lower y (target y i d ed t)) (
          subst (λ z. Le (at s y) (add z (weight d))) (sym (keep_settled x done))
            (inv.others x hx done ne i d y ed fr t));
      low = λ x hx done.
          subst (λ z. Le (key g weight h src x z) (key g weight h src u (at s' u)))
            (sym (keep_settled x done))
            (subst (λ z. Le (key g weight h src x (at s x)) (key g weight h src u z))
              (sym (keep_settled u inv.settled)) (inv.low x hx done));
      high = λ x q.
          subst (λ z. Le (key g weight h src u z) x.priority) (sym (keep_settled u inv.settled))
            (elim ((queue_facts.2 x).0 q) [
              | inl old ↦ inv.high x old
              | inr eq ↦
                  subst (λ z. Le (key g weight h src u (at s u)) z.priority) (sym eq) key_along
            ]);
    }

    pub improved_le : Le (at s' v) (add (at s' u) (weight e))
    improved_le =
        subst (λ z. Le (at s' v) (add z (weight e))) (sym (keep_settled u inv.settled))
          (subst (λ z. Le z sum) (sym read_v) (laws.le_refl _ sum_nonneg))

    pub improved_same : at s' u ≡ at s u
    improved_same = keep_settled u inv.settled

    pub improved_size : length s'.queue ≡ length s.queue + 1
    unfolding improve
    improved_size = queue_facts.1
