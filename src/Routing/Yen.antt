-- ===== src/Routing/Yen.antt =====
-- engine/internal/routing/kshortest.go: Yen's loopless k shortest paths. edgesKey packs an int32 id
-- into four bytes, so two paths have one key exactly if they are equal, and a key is the path here.
pub mod Count
pub mod Parts
pub mod Loopless
pub mod Kept
pub mod Spurs
pub mod Routes
use convergent_routing_analy.Prelude.{
  ℕ, zero, suc, ◌+◌, ◌-◌, Bool, true, false, ◌&&◌, ◌||◌, ℤ, pos, negsuc, List, [], ◌∷◌, ◌++◌,
  Option, none, some, length, get_or, take, map, ltb, leb, eqb_ℤ, if◌then◌else◌, ◌==◌, in_range,
}
use convergent_routing_analy.Float.{Float64, Float, of_nat, add, lt, eq}
use convergent_routing_analy.Domain.{NodeId, EdgeId}
use convergent_routing_analy.Graph.{Graph, Edge}
use convergent_routing_analy.Heap.{push, pop}
use convergent_routing_analy.Routing.Dijkstra.{
  WeightFunc, Scratch, Answer, found, unreachable, exhausted, no_edge, dijkstra_scratch,
  scratch_after, new_dijkstra_scratch,
}
use convergent_routing_analy.Routing.Multipath.{KPath, no_kpath, masked_weight}

unfoldable pub same_edges : List EdgeId → List EdgeId → Bool
same_edges [] [] = true
same_edges [] (y ∷ ys) = false
same_edges (x ∷ xs) [] = false
same_edges (x ∷ xs) (y ∷ ys) = eqb_ℤ x y && same_edges xs ys

-- The path begins with the root.
unfoldable pub same_root : List EdgeId → List EdgeId → Bool
unfolding same_edges
same_root path root = leb (length root) (length path) && same_edges (take (length root) path) root

unfoldable pub is_seen : List (List EdgeId) → List EdgeId → Bool
unfolding same_edges
is_seen [] path = false
is_seen (s ∷ seen) path = same_edges s path || is_seen seen path

module _ ⦃f : Float64⦄ where
  pub record CandidatePath : Type 0 where
    pub edges : List EdgeId
    pub cost : Float
    pub seq : ℕ

  abbrev pub no_candidate : CandidatePath
  no_candidate = record { edges = []; cost = of_nat 0; seq = 0 }

  -- candidateHeap.Less: by cost, then by age.
  abbrev pub candidate_less : CandidatePath → CandidatePath → Bool
  candidate_less a b = if eq a.cost b.cost then ltb a.seq b.seq else lt a.cost b.cost

  unfoldable pub edge_from : Graph → EdgeId → NodeId
  edge_from g id = elim (g.edge id) [ none ↦ negsuc 0 | some e ↦ e.from ]

  -- The next edges of the accepted paths that have the root.
  pub masked_next : List KPath → List EdgeId → ℕ → List EdgeId
  masked_next [] root spur = []
  masked_next (p ∷ ps) root spur =
      let rest = masked_next ps root spur in
      if same_root p.edges root && ltb spur (length p.edges)
      then get_or p.edges spur no_edge ∷ rest
      else rest

  pub record Yen : Type 0 where
    pub seen : List (List EdgeId)
    pub candidates : List CandidatePath
    pub seq : ℕ
    pub scratch : Scratch
    pub root_cost : Float

  -- A path that was not seen becomes a candidate.
  pub offer : List EdgeId → Float → Yen → Yen
  offer path cost y = if is_seen y.seen path then y else record y {
    seen = path ∷ y.seen;
    candidates =
        push no_candidate candidate_less y.candidates
          (record { edges = path; cost = cost; seq = y.seq });
    seq = y.seq + 1;
  }

  module _ (g : Graph) (dst : NodeId) (weight : WeightFunc) (accepted : List KPath)
      (prev : List EdgeId) where
    -- The cost of the root after the edge before the spur node.
    pub root_cost_at : ℕ → Float → Float
    root_cost_at zero cost = cost
    root_cost_at (suc i) cost = elim (g.edge (get_or prev i no_edge)) [
      | none ↦ cost
      | some e ↦ add cost (weight e)
    ]

    pub spur : ℕ → Yen → Yen
    spur i y =
        let cost = root_cost_at i y.root_cost in
        let root = take i prev in
        let node = edge_from g (get_or prev i no_edge) in
        let masked = masked_weight weight (masked_next accepted root i) (map (edge_from g) root) in
        let y' : Yen = record y {
          root_cost = cost;
          scratch = scratch_after g node dst masked y.scratch;
        } in
        elim (dijkstra_scratch g node dst masked (some y.scratch)) [
          | found path spur_cost ↦ offer (root ++ path) (add cost spur_cost) y'
          | unreachable ↦ y'
          | exhausted ↦ y'
        ]

    -- The spurs from the index on, `k` of them.
    pub spurs : ℕ → ℕ → Yen → Yen
    spurs zero i y = y
    spurs (suc k) i y = spurs k (suc i) (spur i y)

  -- The path that was accepted last.
  abbrev pub last_accepted : List KPath → List EdgeId
  last_accepted accepted = (get_or accepted (length accepted - 1) no_kpath).edges

  -- Rounds while fewer than k are accepted, `left` of them.
  unfoldable pub yen_rounds : Graph → NodeId → WeightFunc → ℕ → List KPath → Yen → List KPath
  yen_rounds g dst weight zero accepted y = accepted
  yen_rounds g dst weight (suc left) accepted y =
      let prev = last_accepted accepted in
      let y' =
        spurs g dst weight accepted prev (length prev) 0 (record y { root_cost = of_nat 0 }) in
      elim (pop no_candidate candidate_less y'.candidates) [
        | none ↦ accepted
        | some (best, rest) ↦
            yen_rounds g dst weight left
              (accepted ++ record { edges = best.edges; cost = best.cost } ∷ [])
              (record y' { candidates = rest })
      ]

  -- The paths from the first on.
  unfoldable pub from_first :
      Graph → NodeId → NodeId → WeightFunc → ℕ → Scratch → Answer → List KPath
  unfolding yen_rounds
  from_first g src dst weight k scratch unreachable = []
  from_first g src dst weight k scratch exhausted = []
  from_first g src dst weight k scratch (found path cost) =
      yen_rounds g dst weight k (record { edges = path; cost = cost } ∷ []) (record {
        seen = path ∷ [];
        candidates = [];
        seq = 0;
        scratch = scratch_after g src dst weight scratch;
        root_cost = of_nat 0;
      })

  unfoldable pub k_shortest_paths : Graph → NodeId → NodeId → ℤ → WeightFunc → List KPath
  unfolding from_first
  k_shortest_paths g src dst (negsuc n) weight = []
  k_shortest_paths g src dst (pos zero) weight = []
  k_shortest_paths g src dst (pos (suc k)) weight = elim (in_range src g.node_count) [
    | none ↦ []
    | some _ ↦ elim (in_range dst g.node_count) [
      | none ↦ []
      | some _ ↦
          if eqb_ℤ src dst
          then record { edges = []; cost = of_nat 0 } ∷ []
          else (let scratch = new_dijkstra_scratch (pos g.node_count) in
              from_first g src dst weight k scratch
                (dijkstra_scratch g src dst weight (some scratch)))
    ]
  ]
