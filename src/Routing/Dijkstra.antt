-- ===== src/Routing/Dijkstra.antt =====
-- engine/internal/routing/dijkstra.go and scratch.go: the lazy-deletion shortest-path core that
-- Dijkstra and A* share. Inside the search a node id indexes the slices by `to_index`.
pub mod Walks
pub mod Traces
pub mod Invariant
pub mod Improve
pub mod Relax
pub mod Frontier
pub mod Settle
pub mod Measure
pub mod Loop
pub mod Start
pub mod Correct
use convergent_routing_analy.Prelude.{
  ℕ, zero, suc, ◌+◌, ◌≡◌, Bool, true, false, ℤ, pos, negsuc, List, [], ◌∷◌, ◌++◌, Option, some,
  none, map, length, get_or, set, take, replicate, ltb, if◌then◌else◌, to_index, in_range, eqb_ℤ,
}
use mathlib.Core.List.{reverse}
use convergent_routing_analy.Float.{Float64, Float, of_nat, inf, add, lt, is_inf}
use convergent_routing_analy.Domain.{NodeId, EdgeId}
use convergent_routing_analy.Graph.{Graph, Edge}
use convergent_routing_analy.Heap.{push, pop}

-- -1, the mark of a node with no predecessor.
abbrev pub no_edge : EdgeId
no_edge = negsuc 0

module _ ⦃f : Float64⦄ where
  abbrev pub WeightFunc : Type 0
  WeightFunc = Edge → Float

  abbrev pub HeuristicFunc : Type 0
  HeuristicFunc = NodeId → Float

  pub record PqItem : Type 0 where
    pub node : NodeId
    pub g : Float
    pub priority : Float

  abbrev pub no_item : PqItem
  no_item = record { node = negsuc 0; g = inf; priority = inf }

  -- priorityQueue.Less
  abbrev pub pq_less : PqItem → PqItem → Bool
  pq_less a b = lt a.priority b.priority

  pub record Search : Type 0 where
    pub dist : List Float
    pub prev_edge : List EdgeId
    pub queue : List PqItem

  abbrev pub dist_at : Search → NodeId → Float
  dist_at s v = get_or s.dist (to_index v) inf

  -- The heap key of an entry: g with no heuristic, else g + h(node).
  abbrev pub priority_of : Option HeuristicFunc → NodeId → Float → Float
  priority_of none v g = g
  priority_of (some h) v g = add g (h v)

  -- The source's entry: 0 with no heuristic, else h(src).
  abbrev pub start_priority : Option HeuristicFunc → NodeId → Float
  start_priority none v = of_nat 0
  start_priority (some h) v = h v

  -- dijkstraScratchBuffer
  pub record Scratch : Type 0 where
    pub dist : List Float
    pub prev_edge : List EdgeId

  -- A negative nodeCount is treated as zero.
  unfoldable pub new_dijkstra_scratch : ℤ → Scratch
  new_dijkstra_scratch (pos n) = record {
    dist = replicate n (of_nat 0);
    prev_edge = replicate n (pos 0);
  }
  new_dijkstra_scratch (negsuc n) = record { dist = []; prev_edge = [] }

  -- The slices of length `count`, and the buffer afterwards.
  unfoldable pub reset : Scratch → ℕ → Scratch × Scratch
  reset b count =
      let grown =
        if ltb (length b.dist) count
        then record { dist = replicate count (of_nat 0); prev_edge = replicate count (pos 0) }
        else b in
      (record { dist = take count grown.dist; prev_edge = take count grown.prev_edge }, grown)

  -- The slices of a search, before they are filled.
  unfoldable pub slices : Option Scratch → ℕ → Scratch
  unfolding reset
  slices none count = record {
    dist = replicate count (of_nat 0);
    prev_edge = replicate count (pos 0);
  }
  slices (some b) count = (reset b count).0

  -- dist → +Inf, prevEdge → -1, dist[src] = 0, and the source's entry.
  unfoldable pub start : Graph → NodeId → Option HeuristicFunc → Option Scratch → Search
  unfolding slices
  start g src h scratch =
      let b = slices scratch g.node_count in
      record {
        dist = set (map (λ _. inf) b.dist) (to_index src) (of_nat 0);
        prev_edge = map (λ _. no_edge) b.prev_edge;
        queue = record { node = src; g = of_nat 0; priority = start_priority h src } ∷ [];
      }

  module _ (g : Graph) (weight : WeightFunc) (h : Option HeuristicFunc) where
    -- A cheaper way to v, over the edge `id`: its cost, its predecessor and a fresh entry.
    unfoldable pub improve : Search → NodeId → Float → EdgeId → Search
    improve s v relaxed id = record {
      dist = set s.dist (to_index v) relaxed;
      prev_edge = set s.prev_edge (to_index v) id;
      queue =
          push no_item pq_less s.queue
            (record { node = v; g = relaxed; priority = priority_of h v relaxed });
    }

    -- One edge of the inner loop, out of the node u.
    unfoldable pub relax_edge : NodeId → Search → Edge → Search
    unfolding improve
    relax_edge u s e =
        let relaxed = add (dist_at s u) (weight e) in
        if lt relaxed (dist_at s e.to) then improve s e.to relaxed e.id else s

    -- An unknown id is skipped.
    unfoldable pub relax : NodeId → Search → EdgeId → Search
    relax u s id = elim (g.edge id) [ none ↦ s | some e ↦ relax_edge u s e ]

    unfoldable pub relax_all : NodeId → Search → List EdgeId → Search
    relax_all u s [] = s
    relax_all u s (id ∷ ids) = relax_all u (relax u s id) ids

    pub data Verdict : Type 0 where
      finished : Search → Verdict
      again : Search → Verdict

    -- One round of the loop after a pop: skip a stale entry, stop at dst, else relax.
    unfoldable pub expand : NodeId → PqItem → Search → Verdict
    expand dst cur s =
        if lt (dist_at s cur.node) cur.g
        then again s
        else if eqb_ℤ cur.node dst
        then finished s
        else again (relax_all cur.node s (g.out_edge_ids cur.node))

    unfoldable pub round : NodeId → Search → Verdict
    round dst s = elim (pop no_item pq_less s.queue) [
      | none ↦ finished s
      | some (cur, rest) ↦ expand dst cur (record s { queue = rest })
    ]

    -- `none` when the fuel is out.
    unfoldable pub loop : NodeId → ℕ → Search → Option Search
    loop dst zero s = none
    loop dst (suc k) s = elim (round dst s) [ finished t ↦ some t | again t ↦ loop dst k t ]

  pub data Answer : Type 0 where
    found : List EdgeId → Float → Answer
    unreachable : Answer
    -- The fuel ran out.
    exhausted : Answer

  -- Predecessors from dst back to src; `path` holds the edges met so far, and is reversed at the end.
  unfoldable pub walk_back :
      Graph → NodeId → List EdgeId → ℕ → NodeId → List EdgeId → Float → Answer
  walk_back g src prev zero v path cost = exhausted
  walk_back g src prev (suc k) v path cost =
      let eid = get_or prev (to_index v) no_edge in
      let onward : Answer = elim (g.edge eid) [
        | none ↦ unreachable
        | some e ↦ walk_back g src prev k e.from (path ++ eid ∷ []) cost
      ] in
      if eqb_ℤ v src then found (reverse path) cost else onward

  -- The out-edges of the nodes below n.
  unfoldable pub degree_sum : Graph → ℕ → ℕ
  degree_sum g zero = 0
  degree_sum g (suc n) = length (g.out_edge_ids (pos n)) + degree_sum g n

  -- Each node is expanded once, so an entry is pushed at most once for each edge.
  abbrev pub search_fuel : Graph → ℕ
  search_fuel g = degree_sum g g.node_count + 2

  unfoldable pub report : Graph → NodeId → NodeId → Option Search → Answer
  report g src dst none = exhausted
  report g src dst (some s) =
      if is_inf (dist_at s dst)
      then unreachable
      else walk_back g src s.prev_edge (g.node_count + 1) dst [] (dist_at s dst)

  unfoldable pub shortest_path :
      Graph → NodeId → NodeId → WeightFunc → Option HeuristicFunc → Option Scratch → Answer
  unfolding report start loop
  shortest_path g src dst weight h scratch = elim (in_range src g.node_count) [
    | none ↦ unreachable
    | some _ ↦ elim (in_range dst g.node_count) [
      | none ↦ unreachable
      | some _ ↦
          if eqb_ℤ src dst
          then found [] (of_nat 0)
          else report g src dst (loop g weight h dst (search_fuel g) (start g src h scratch))
    ]
  ]

  unfoldable pub dijkstra : Graph → NodeId → NodeId → WeightFunc → Answer
  dijkstra g src dst weight = shortest_path g src dst weight none none

  unfoldable pub dijkstra_scratch : Graph → NodeId → NodeId → WeightFunc → Option Scratch → Answer
  dijkstra_scratch g src dst weight scratch = shortest_path g src dst weight none scratch

  -- What a slice over the front of `old` leaves there after its elements were written.
  unfoldable pub overlay {ℓ} : {A : Type ℓ} → List A → List A → List A
  overlay [] new = []
  overlay (x ∷ old) [] = x ∷ old
  overlay (x ∷ old) (y ∷ new) = y ∷ overlay old new

  -- The buffer after a search that used it. A query that ends before the search leaves it alone.
  unfoldable pub scratch_after : Graph → NodeId → NodeId → WeightFunc → Scratch → Scratch
  unfolding overlay reset start loop
  scratch_after g src dst weight b = elim (in_range src g.node_count) [
    | none ↦ b
    | some _ ↦ elim (in_range dst g.node_count) [
      | none ↦ b
      | some _ ↦
          if eqb_ℤ src dst
          then b
          else (let grown = (reset b g.node_count).1 in
              elim (loop g weight none dst (search_fuel g) (start g src none (some b))) [
                | none ↦ grown
                | some t ↦ record {
                  dist = overlay grown.dist t.dist;
                  prev_edge = overlay grown.prev_edge t.prev_edge;
                }
              ])
    ]
  ]
