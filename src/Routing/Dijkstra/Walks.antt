-- ===== src/Routing/Dijkstra/Walks.antt =====
-- Walks through a graph with their costs, summed edge by edge in travel order as float64 sums are,
-- and the walks that the predecessors of a search record.
use convergent_routing_analy.Prelude.{
  ℕ, suc, ◌≡◌, ◌≢◌, true, false, Bool, pos, List, [], ◌∷◌, ◌++◌, some, get_or, Option,
}
use convergent_routing_analy.Float.{Float64, Float, of_nat, add, Le, NonNeg, is_inf}
use convergent_routing_analy.Domain.{NodeId, EdgeId}
use convergent_routing_analy.Graph.{Graph, Edge}
use convergent_routing_analy.Routing.Dijkstra.{
  WeightFunc, HeuristicFunc, priority_of, start_priority, no_edge, Answer, found, unreachable,
  exhausted,
}

module _ ⦃f : Float64⦄ (g : Graph) (weight : WeightFunc) where
  -- `Walk src v p c`: the edges p lead from src to v, at cost c.
  pub data Walk (src : NodeId) : NodeId → List EdgeId → Float → Type 0 where
    here : Walk src src [] (of_nat 0)
    step :
        {p : List EdgeId} {c : Float} {u : NodeId} (id : EdgeId) (e : Edge)
        → Walk src u p c
        → g.edge id ≡ some e
        → e.from ≡ u
        → Walk src e.to (p ++ id ∷ []) (add c (weight e))

  -- What a shortest-path query promises: a found path is a walk of the reported cost, which is
  -- finite, and no walk is cheaper; without one, every walk has infinite cost.
  abbrev pub Solves : NodeId → NodeId → Answer → Type 0
  Solves src dst (found p c) =
      Walk src dst p c
      × (is_inf c ≡ false)
      × ((q : List EdgeId) (c' : Float) → Walk src dst q c' → Le c c')
  Solves src dst unreachable = (q : List EdgeId) (c' : Float) → Walk src dst q c' → is_inf c' ≡ true
  Solves src dst exhausted = ⊥

  abbrev pub NonNegWeight : Type 0
  NonNegWeight = (id : EdgeId) (e : Edge) → g.edge id ≡ some e → NonNeg (weight e)

  -- What the search needs of the heap keys: they are monotone in the cost and reflect its order,
  -- and do not fall along an edge. With no heuristic, or one that is zero, this is what float64 sums
  -- give. A positive heuristic keeps it only where no sum in a key is rounded: in float64 two costs
  -- can have one key, so `reflects` fails of the great-circle heuristic.
  pub record IsConsistent (src : NodeId) (h : Option HeuristicFunc) : Type 0 where
    pub nonneg : (v : NodeId) (a : Float) → NonNeg a → NonNeg (priority_of h v a)
    pub mono :
        (v : NodeId) (a b : Float)
        → NonNeg a
        → NonNeg b
        → Le a b
        → Le (priority_of h v a) (priority_of h v b)
    pub reflects :
        (v : NodeId) (a b : Float)
        → NonNeg a
        → NonNeg b
        → Le (priority_of h v a) (priority_of h v b)
        → Le a b
    pub along :
        (id : EdgeId) (e : Edge) (a : Float)
        → g.edge id ≡ some e
        → NonNeg a
        → Le (priority_of h e.from a) (priority_of h e.to (add a (weight e)))
    pub start_below : Le (start_priority h src) (priority_of h src (of_nat 0))
    pub start_above : Le (priority_of h src (of_nat 0)) (start_priority h src)

  -- The flags of the nodes that are settled, and how many are set.
  abbrev pub is_settled : List Bool → ℕ → Bool
  is_settled seen u = get_or seen u false

  abbrev pub count_settled : List Bool → ℕ
  count_settled [] = 0
  count_settled (true ∷ bs) = suc (count_settled bs)
  count_settled (false ∷ bs) = count_settled bs

  -- The walk that the predecessors record: all its nodes before the last are settled.
  pub data Traced (src : ℕ) (seen : List Bool) (prev : List EdgeId)
      : ℕ → List EdgeId → Float → Type 0 where
    root : Traced src seen prev src [] (of_nat 0)
    hop :
        {p : List EdgeId} {c : Float} {u : ℕ} (v : ℕ) (id : EdgeId) (e : Edge)
        → Traced src seen prev u p c
        → is_settled seen u ≡ true
        → v ≢ src
        → get_or prev v no_edge ≡ id
        → g.edge id ≡ some e
        → e.from ≡ pos u
        → e.to ≡ pos v
        → Traced src seen prev v (p ++ id ∷ []) (add c (weight e))
