-- ===== src/Routing/Yen/Spurs.antt =====
-- A spur of Yen's search, and the spurs of a round, keep what its paths are.
use convergent_routing_analy.Prelude.{
  ℕ, zero, suc, ◌+◌, ◌≤◌, ◌<◌, ◌≡◌, refl, sym, ◌∙◌, ap, subst, inl, inr, pos, negsuc, List, ◌++◌,
  some, none, length, get_or, take, map, arith, Bool-cases, NoRepeat, NoRepeat-take,
}
use convergent_routing_analy.Float.{Float64, Laws, MulLaws, Float, add}
use convergent_routing_analy.Domain.{NodeId, EdgeId}
use convergent_routing_analy.Graph.{Graph, IsGraph}
use convergent_routing_analy.Routing.Dijkstra.{
  WeightFunc, Answer, found, unreachable, exhausted, no_edge, dijkstra_scratch, scratch_after,
}
use convergent_routing_analy.Routing.Dijkstra.Walks.{Walk, Solves, NonNegWeight}
use convergent_routing_analy.Routing.Dijkstra.Correct.{dijkstra_scratch-Solves}
use convergent_routing_analy.Routing.FanOut.Buffer.{scratch_after-Even}
use convergent_routing_analy.Routing.Multipath.{KPath, masked_weight}
use convergent_routing_analy.Routing.Multipath.Masked.{
  masked_weight-NonNegWeight, Walk-Avoids, Walk-unmasked,
}
use convergent_routing_analy.Routing.Yen.{
  Yen, is_seen, edge_from, masked_next, offer, root_cost_at, spur, spurs,
}
use convergent_routing_analy.Routing.Yen.Loopless.{
  visited, IsLoopless, NoRepeat-join, Avoids-Apart, dijkstra_scratch-IsLoopless,
}
use convergent_routing_analy.Routing.Yen.Parts.{cost_after, root_sum, Walk-take}
use convergent_routing_analy.Routing.Yen.Kept.{joined, Kept, offer-Kept}

module _ ⦃f : Float64⦄ (laws : Laws f) (m : MulLaws f) (g : Graph) (ok : IsGraph g)
    (weight : WeightFunc) (w : NonNegWeight g weight) (src dst : ℕ)
    (dst_in : dst < g.node_count) where
  module _ (accepted : List KPath) (prev : List EdgeId) where
    -- Before the spur at the index, the loop's cost becomes that of the root.
    abbrev AtRoot : ℕ → Yen → Type 0
    AtRoot i y =
        root_cost_at g (pos dst) weight accepted prev i y.root_cost ≡ root_sum g weight prev i

    abbrev masked_at : ℕ → WeightFunc
    masked_at i =
        masked_weight weight (masked_next accepted (take i prev) i)
          (map (edge_from g) (take i prev))

    abbrev node_at : ℕ → NodeId
    node_at i = edge_from g (get_or prev i no_edge)

    module _ (i : ℕ) (y : Yen) where
      abbrev cost : Float
      cost = root_cost_at g (pos dst) weight accepted prev i y.root_cost

      -- The state that the search leaves.
      abbrev searched : Yen
      searched = record y {
        root_cost = cost;
        scratch = scratch_after g (node_at i) (pos dst) (masked_at i) y.scratch;
      }

      abbrev after_answer : Answer → Yen
      after_answer a = elim a [
        | found path spur_cost ↦ offer (take i prev ++ path) (add cost spur_cost) searched
        | unreachable ↦ searched
        | exhausted ↦ searched
      ]

      -- The paths are kept, and the cost of the root is in the state.
      abbrev KeptAt : Yen → Type 0
      KeptAt y'' = Kept g weight (pos src) (pos dst) accepted y'' × (y''.root_cost ≡ cost)

      searched-Kept :
          Kept g weight (pos src) (pos dst) accepted y
          → Kept g weight (pos src) (pos dst) accepted searched
      searched-Kept kept = record {
        even = scratch_after-Even g (node_at i) (pos dst) (masked_at i) y.scratch kept.even;
        accepted_route = kept.accepted_route;
        accepted_seen = kept.accepted_seen;
        accepted_distinct = kept.accepted_distinct;
        candidate_route = kept.candidate_route;
        candidate_seen = kept.candidate_seen;
        candidate_distinct = kept.candidate_distinct;
        apart = kept.apart;
      }

      offer_cost : (path : List EdgeId) (c : Float) → (offer path c searched).root_cost ≡ cost
      unfolding offer
      offer_cost path c = elim (Bool-cases (is_seen y.seen path)) [
        | inl old ↦ rw old refl
        | inr new ↦ rw new refl
      ]

      after_answer-KeptAt :
          (a : Answer)
          → Walk g weight (pos src) (node_at i) (take i prev) cost
          → Solves g (masked_at i) (node_at i) (pos dst) a
          → IsLoopless g (pos dst) a
          → NoRepeat (visited g prev (pos dst))
          → Kept g weight (pos src) (pos dst) accepted y
          → KeptAt (after_answer a)
      after_answer-KeptAt (found path spur_cost) root (rest, finite, least) simple no_loop kept =
          let edges = masked_next accepted (take i prev) i in
          let nodes = map (edge_from g) (take i prev) in
          let (front, apart) = NoRepeat-take (edge_from g) (pos dst) i prev no_loop in
          let avoids = Walk-Avoids laws m g ok weight w edges nodes rest finite in
          (
            offer-Kept g weight (pos src) (pos dst) accepted searched (take i prev ++ path)
                (add cost spur_cost) (searched-Kept kept)
                (record {
                  priced =
                      joined root (Walk-unmasked laws m g ok weight w edges nodes rest finite)
                        finite;
                  loopless =
                      NoRepeat-join g (pos dst) (take i prev) path front apart
                        (Avoids-Apart laws m g ok weight w edges nodes path avoids) simple;
                }),
            offer_cost (take i prev ++ path) (add cost spur_cost),
          )
      after_answer-KeptAt unreachable root s simple no_loop kept = (searched-Kept kept, refl)
      after_answer-KeptAt exhausted root s simple no_loop kept = elim s [ ]

      spur-KeptAt :
          {c : Float}
          → i < length prev
          → Walk g weight (pos src) (pos dst) prev c
          → NoRepeat (visited g prev (pos dst))
          → AtRoot i y
          → Kept g weight (pos src) (pos dst) accepted y
          → KeptAt (spur g (pos dst) weight accepted prev i y)
      unfolding spur edge_from
      spur-KeptAt h walk no_loop at_root kept =
          let (e, ed, root) = Walk-take g weight i walk h in
          let (u, from, u_in) = ok.source (get_or prev i no_edge) e ed in
          let node : node_at i ≡ e.from =
            ap (λ o. elim o [ none ↦ negsuc 0 | some e ↦ e.from ]) ed in
          let nonneg =
            masked_weight-NonNegWeight laws m g ok weight w (masked_next accepted (take i prev) i)
              (map (edge_from g) (take i prev)) in
          let solves =
            dijkstra_scratch-Solves laws g ok (masked_at i) nonneg (some y.scratch) u dst kept.even
              u_in dst_in in
          let simple =
            dijkstra_scratch-IsLoopless laws g ok (masked_at i) nonneg (some y.scratch) kept.even u
              dst u_in dst_in in
          after_answer-KeptAt
            (dijkstra_scratch g (node_at i) (pos dst) (masked_at i) (some y.scratch))
            (subst (λ z. Walk g weight (pos src) z (take i prev) cost) (sym node)
              (subst (Walk g weight (pos src) e.from (take i prev)) (sym at_root) root))
            (subst
              (λ z.
                Solves g (masked_at i) z (pos dst)
                  (dijkstra_scratch g z (pos dst) (masked_at i) (some y.scratch)))
              (sym (node ∙ from)) solves)
            (subst
              (λ z.
                IsLoopless g (pos dst)
                  (dijkstra_scratch g z (pos dst) (masked_at i) (some y.scratch)))
              (sym (node ∙ from)) simple)
            no_loop kept

    pub spurs-Kept :
        {c : Float} (k i : ℕ) (y : Yen)
        → i + k ≤ length prev
        → Walk g weight (pos src) (pos dst) prev c
        → NoRepeat (visited g prev (pos dst))
        → AtRoot i y
        → Kept g weight (pos src) (pos dst) accepted y
        → Kept g weight (pos src) (pos dst) accepted (spurs g (pos dst) weight accepted prev k i y)
    unfolding spurs root_cost_at
    spurs-Kept zero i y h walk no_loop at_root kept = kept
    spurs-Kept (suc k) i y h walk no_loop at_root kept =
        let (next, cost) = spur-KeptAt i y (omega (arith, h)) walk no_loop at_root kept in
        spurs-Kept k (suc i) (spur g (pos dst) weight accepted prev i y) (omega (arith, h)) walk
          no_loop (ap (cost_after g weight prev i) (cost ∙ at_root)) next
