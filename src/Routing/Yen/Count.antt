-- ===== src/Routing/Yen/Count.antt =====
-- How many paths Yen's search returns, and which comes first.
use convergent_routing_analy.Prelude.{
  ℕ, zero, suc, ◌≤◌, ◌<◌, ◌≡◌, ◌∙◌, sym, subst, pos, List, [], ◌∷◌, ◌++◌, Option, none, some,
  length, in_range-pos, Bool-cases, inl, inr, arith, ◌==◌, ==_iff,
}
use mathlib.Core.List.{append_assoc, append-nil}
use convergent_routing_analy.Float.{Float64, Laws, of_nat}
use convergent_routing_analy.Domain.{NodeId}
use convergent_routing_analy.Graph.{Graph, IsGraph}
use convergent_routing_analy.Heap.{pop}
use convergent_routing_analy.Routing.Dijkstra.{
  WeightFunc, Scratch, Answer, found, unreachable, exhausted, new_dijkstra_scratch,
}
use convergent_routing_analy.Routing.Dijkstra.Walks.{Walk, here, Solves, NonNegWeight}
use convergent_routing_analy.Routing.Dijkstra.Frontier.{Walk-nonneg}
use convergent_routing_analy.Routing.Dijkstra.Correct.{dijkstra_scratch-Solves}
use convergent_routing_analy.Routing.FanOut.Buffer.{new_dijkstra_scratch-Even}
use convergent_routing_analy.Routing.Multipath.{KPath}
use convergent_routing_analy.Routing.Yen.{
  Yen, CandidatePath, no_candidate, candidate_less, spurs, last_accepted, yen_rounds, from_first,
  k_shortest_paths,
}

module _ ⦃f : Float64⦄ (g : Graph) (dst : NodeId) (weight : WeightFunc) where
  -- The rounds keep what was accepted and add at most one path each.
  yen_rounds_lem :
      (left : ℕ) (accepted : List KPath) (y : Yen)
      → (more : List KPath) × (yen_rounds g dst weight left accepted y ≡ accepted ++ more)
        × (length more ≤ left)
  unfolding yen_rounds
  yen_rounds_lem zero accepted y = ([], sym (append-nil accepted), omega arith)
  yen_rounds_lem (suc left) accepted y =
      after_pop (pop no_candidate candidate_less after.candidates) (λ path rest.
        yen_rounds_lem left (accepted ++ path ∷ []) (record after { candidates = rest }))
    where
      after : Yen
      after =
          spurs g dst weight accepted (last_accepted accepted) (length (last_accepted accepted)) 0
            (record y { root_cost = of_nat 0 })

      after_pop :
          (o : Option (CandidatePath × List CandidatePath))
          → ((path : KPath) (rest : List CandidatePath)
              → (more : List KPath) × (yen_rounds g dst weight left
                    (accepted ++ path ∷ [])
                    (record after { candidates = rest })
                  ≡ (accepted ++ path ∷ []) ++ more)
                × (length more ≤ left))
          → (more : List KPath) × (elim o [
            | none ↦ accepted
            | some (best, rest) ↦
                yen_rounds g dst weight left
                  (accepted ++ record { edges = best.edges; cost = best.cost } ∷ [])
                  (record after { candidates = rest })
          ]
              ≡ accepted ++ more)
            × (length more ≤ suc left)
      after_pop none next = ([], sym (append-nil accepted), omega arith)
      after_pop (some (best, rest)) next =
          let path : KPath = record { edges = best.edges; cost = best.cost } in
          let (more, same, few) = next path rest in
          (path ∷ more, same ∙ append_assoc accepted (path ∷ []) more, omega arith)

module _ ⦃f : Float64⦄ (laws : Laws f) (g : Graph) (ok : IsGraph g) (weight : WeightFunc)
    (w : NonNegWeight g weight) (src dst k : ℕ) where
  -- At most k + 1 paths, the first at least cost, or none where every walk has infinite cost.
  abbrev pub KAnswers : List KPath → Type 0
  KAnswers [] = Solves g weight (pos src) (pos dst) unreachable
  KAnswers (p ∷ ps) = Solves g weight (pos src) (pos dst) (found p.edges p.cost) × (length ps ≤ k)

  from_first_lem :
      (scratch : Scratch) (a : Answer)
      → Solves g weight (pos src) (pos dst) a
      → KAnswers (from_first g (pos src) (pos dst) weight k scratch a)
  unfolding from_first
  from_first_lem scratch unreachable best = best
  from_first_lem scratch exhausted best = elim best [ ]
  from_first_lem scratch (found path cost) best =
      let (more, same, few) = yen_rounds_lem g (pos dst) weight k _ _ in
      subst KAnswers (sym same) (best, few)

  -- Between two nodes of a graph that keeps the port's laws, with non-negative weights:
  -- kShortestPaths of k + 1 paths returns at most that many, of which the first is a walk of exactly
  -- its cost, which is finite and which no walk undercuts; if it returns none, every walk has
  -- infinite cost.
  pub k_shortest_paths-KAnswers :
      src < g.node_count
      → dst < g.node_count
      → KAnswers (k_shortest_paths g (pos src) (pos dst) (pos (suc k)) weight)
  unfolding k_shortest_paths
  k_shortest_paths-KAnswers src_in dst_in = elim (Bool-cases (src == dst)) [
    | inl same ↦
        let e : src ≡ dst = (==_iff src dst).0 same in
        rw
          (
            in_range-pos src g.node_count src_in,
            in_range-pos dst g.node_count dst_in,
            k_shortest_paths,
            same,
          )
          (
            (
              subst (λ z. Walk g weight (pos src) (pos z) [] (of_nat 0)) e here,
              laws.zero-is_inf,
              λ q c walk. Walk-nonneg laws g ok weight w (pos src) walk,
            ),
            omega arith,
          )
    | inr other ↦
        rw
          (
            in_range-pos src g.node_count src_in,
            in_range-pos dst g.node_count dst_in,
            k_shortest_paths,
            other,
          )
          (from_first_lem (new_dijkstra_scratch (pos g.node_count)) _ (
            dijkstra_scratch-Solves laws g ok weight w
              (some (new_dijkstra_scratch (pos g.node_count))) src dst
              (new_dijkstra_scratch-Even g.node_count) src_in dst_in))
  ]
