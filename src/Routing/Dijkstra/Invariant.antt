-- ===== src/Routing/Dijkstra/Invariant.antt =====
-- The invariant of the shortest-path loop, over the flags of the nodes settled so far.
use convergent_routing_analy.Prelude.{
  ℕ, ◌+◌, ◌≤◌, ◌<◌, ◌≡◌, ◌⊎◌, true, false, Bool, pos, List, some, length, get_or, Option,
  if◌then◌else◌,
}
use convergent_routing_analy.Float.{Float64, Laws, Float, of_nat, inf, add, le, Le, NonNeg}
use convergent_routing_analy.Domain.{EdgeId}
use convergent_routing_analy.Graph.{Graph, Edge}
use convergent_routing_analy.Heap.Order.{Has}
use convergent_routing_analy.Heap.Up.{IsHeap, IsOrder}
use convergent_routing_analy.Routing.Dijkstra.{
  WeightFunc, HeuristicFunc, PqItem, no_item, pq_less, Search, priority_of,
}
use convergent_routing_analy.Routing.Dijkstra.Walks.{is_settled, count_settled, Traced}

module _ ⦃f : Float64⦄ where
  abbrev pub pq_rel : PqItem → PqItem → Bool
  pq_rel a b = le a.priority b.priority

  abbrev pub NonNegItem : PqItem → Type 0
  NonNegItem x = NonNeg x.priority

  pub pq-IsOrder : Laws f → IsOrder no_item pq_less NonNegItem pq_rel
  pq-IsOrder laws = record {
    trans = λ a b c p q. laws.le_trans _ _ _ p q;
    reflexive = λ a p. laws.le_refl _ p;
    below = λ a b p. laws.le_of_lt _ _ p;
    settled = λ a b p q e. laws.le_of_not_lt _ _ p q e;
  }

  abbrev pub at : Search → ℕ → Float
  at s u = get_or s.dist u inf

  module _ (g : Graph) (weight : WeightFunc) (h : Option HeuristicFunc) (src : ℕ) where
    abbrev pub key : ℕ → Float → Float
    key u a = priority_of h (pos u) a

    -- A settled node's walk is shorter than the settled nodes are many; another's is no longer.
    abbrev pub margin : List Bool → ℕ → ℕ
    margin seen v = if is_settled g weight seen v then 1 else 0

    abbrev pub IsTraced : List Bool → List EdgeId → ℕ → Float → Type 0
    IsTraced seen prev v c =
        (p : List EdgeId) × Traced g weight src seen prev v p c
        × (length p + margin seen v ≤ count_settled g weight seen)

    -- An entry of the frontier: its cost is no better than the node's, and its key is in order.
    pub record IsItem (s : Search) (x : PqItem) (u : ℕ) : Type 0 where
      pub node : x.node ≡ pos u
      pub in_range : u < g.node_count
      pub g_nonneg : NonNeg x.g
      pub nonneg : NonNeg x.priority
      pub fresh : Le (at s u) x.g
      pub key_below : Le (key u x.g) x.priority
      pub key_above : Le x.priority (key u x.g)

    -- The entry of the frontier that carries the node's cost.
    abbrev pub IsQueued : Search → ℕ → Type 0
    IsQueued s u = (x : PqItem) × Has no_item s.queue x × (x.node ≡ pos u) × (x.g ≡ at s u)

    pub record Base (seen : List Bool) (s : Search) : Type 0 where
      pub seen_size : length seen ≡ g.node_count
      pub dist_size : length s.dist ≡ g.node_count
      pub prev_size : length s.prev_edge ≡ g.node_count
      pub src_zero : at s src ≡ of_nat 0
      pub nonneg : (v : ℕ) → v < g.node_count → NonNeg (at s v)
      pub reached :
          (v : ℕ) → v < g.node_count → (at s v ≡ inf) ⊎ IsTraced seen s.prev_edge v (at s v)
      pub queued :
          (v : ℕ)
          → v < g.node_count
          → is_settled g weight seen v ≡ false
          → (at s v ≡ inf) ⊎ IsQueued s v
      pub items : (x : PqItem) → Has no_item s.queue x → (u : ℕ) × IsItem s x u
      pub heap : IsHeap no_item pq_less pq_rel s.queue (length s.queue)

    -- No edge out of u would improve a cost.
    abbrev pub IsRelaxed : Search → ℕ → Type 0
    IsRelaxed s u =
        (id : EdgeId) (e : Edge) (v : ℕ)
        → g.edge id ≡ some e
        → e.from ≡ pos u
        → e.to ≡ pos v
        → Le (at s v) (add (at s u) (weight e))

    -- Between two rounds.
    pub record Inv (seen : List Bool) (s : Search) : Type 0 where
      pub base : Base seen s
      pub relaxed : (u : ℕ) → u < g.node_count → is_settled g weight seen u ≡ true → IsRelaxed s u
      pub bound :
          (u : ℕ) (x : PqItem)
          → u < g.node_count
          → is_settled g weight seen u ≡ true
          → Has no_item s.queue x
          → Le (key u (at s u)) x.priority

    -- While the edges out of u, the node settled last, are relaxed.
    pub record Scan (seen : List Bool) (u : ℕ) (s : Search) : Type 0 where
      pub base : Base seen s
      pub here : u < g.node_count
      pub settled : is_settled g weight seen u ≡ true
      pub others :
          (v : ℕ)
          → v < g.node_count
          → is_settled g weight seen v ≡ true
          → (v ≡ u → ⊥)
          → IsRelaxed s v
      pub low :
          (v : ℕ)
          → v < g.node_count
          → is_settled g weight seen v ≡ true
          → Le (key v (at s v)) (key u (at s u))
      pub high : (x : PqItem) → Has no_item s.queue x → Le (key u (at s u)) x.priority
