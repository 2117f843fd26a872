-- ===== src/Routing/Yen/Routes.antt =====
-- The paths that kShortestPaths returns are loopless routes, and no two are the same.
use convergent_routing_analy.Prelude.{
  ℕ, zero, suc, ◌⊎◌, true, ◌-◌, ◌<◌, ◌≡◌, refl, sym, subst, inl, inr, ℤ, pos, negsuc, List, [], ◌∷◌,
  ◌++◌, Option, some, none, length, get_or, arith, length-append, Bool-cases, in_range-pos,
  in_range, in_range-some, Option-cases, ◌==◌, ==_iff,
}
use convergent_routing_analy.Float.{Float64, Laws, MulLaws, of_nat}
use convergent_routing_analy.Domain.{NodeId}
use convergent_routing_analy.Graph.{Graph, IsGraph}
use convergent_routing_analy.Heap.{pop}
use convergent_routing_analy.Heap.Order.{Has}
use convergent_routing_analy.Heap.Shuffle.{IsDistinct, pop-Taken}
use convergent_routing_analy.Routing.Dijkstra.{
  WeightFunc, Scratch, Answer, found, unreachable, exhausted, new_dijkstra_scratch,
}
use convergent_routing_analy.Routing.Dijkstra.Walks.{Walk, here, Solves, NonNegWeight}
use convergent_routing_analy.Routing.Dijkstra.Correct.{dijkstra_scratch-Solves}
use convergent_routing_analy.Routing.FanOut.Buffer.{
  Even, scratch_after-Even, new_dijkstra_scratch-Even,
}
use convergent_routing_analy.Routing.Multipath.{KPath, no_kpath}
use convergent_routing_analy.Routing.Yen.{
  Yen, CandidatePath, no_candidate, candidate_less, is_seen, root_cost_at, spurs, last_accepted,
  yen_rounds, from_first, k_shortest_paths,
}
use convergent_routing_analy.Routing.Yen.Loopless.{IsLoopless, dijkstra_scratch-IsLoopless}
use convergent_routing_analy.Routing.Yen.Kept.{
  whole, Priced-Walk, IsRoute, Kept, AreRoutes, none-AreRoutes, accept-Kept, seen_self,
}
use convergent_routing_analy.Routing.Yen.Spurs.{spurs-Kept}

module _ ⦃f : Float64⦄ (laws : Laws f) (m : MulLaws f) (g : Graph) (ok : IsGraph g)
    (weight : WeightFunc) (w : NonNegWeight g weight) (src dst : ℕ)
    (dst_in : dst < g.node_count) where
  yen_rounds-AreRoutes :
      (left : ℕ) (accepted : List KPath) (y : Yen)
      → 0 < length accepted
      → Kept g weight (pos src) (pos dst) accepted y
      → AreRoutes g weight (pos src) (pos dst) (yen_rounds g (pos dst) weight left accepted y)
  unfolding yen_rounds root_cost_at
  yen_rounds-AreRoutes zero accepted y some_path kept = record {
    routes = kept.accepted_route;
    distinct = kept.accepted_distinct;
  }
  yen_rounds-AreRoutes (suc left) accepted y some_path kept =
      let last = get_or accepted (length accepted - 1) no_kpath in
      let route = kept.accepted_route last (length accepted - 1, omega (arith, some_path), refl) in
      let (c, walk) = Priced-Walk g weight (pos src) (pos dst) route.priced in
      after_pop (pop no_candidate candidate_less after.candidates) refl
        (spurs-Kept laws m g ok weight w src dst dst_in accepted last.edges (length last.edges) 0
          begun (omega arith) walk route.loopless refl
          (record {
            even = kept.even;
            accepted_route = kept.accepted_route;
            accepted_seen = kept.accepted_seen;
            accepted_distinct = kept.accepted_distinct;
            candidate_route = kept.candidate_route;
            candidate_seen = kept.candidate_seen;
            candidate_distinct = kept.candidate_distinct;
            apart = kept.apart;
          }))
        (λ path rest.
          yen_rounds-AreRoutes left (accepted ++ path ∷ []) (record after { candidates = rest })
            (omega (arith, length-append accepted (path ∷ []))))
    where
      begun : Yen
      begun = record y { root_cost = of_nat 0 }

      after : Yen
      after =
          spurs g (pos dst) weight accepted (last_accepted accepted)
            (length (last_accepted accepted)) 0 begun

      after_pop :
          (o : Option (CandidatePath × List CandidatePath))
          → pop no_candidate candidate_less after.candidates ≡ o
          → Kept g weight (pos src) (pos dst) accepted after
          → ((path : KPath) (rest : List CandidatePath)
              → Kept g weight
                  (pos src)
                  (pos dst)
                  (accepted ++ path ∷ [])
                  (record after { candidates = rest })
              → AreRoutes g weight (pos src) (pos dst) (
                  yen_rounds g
                    (pos dst)
                    weight
                    left
                    (accepted ++ path ∷ [])
                    (record after { candidates = rest })))
          → AreRoutes g weight (pos src) (pos dst) (elim o [
            | none ↦ accepted
            | some (best, rest) ↦
                yen_rounds g
                  (pos dst)
                  weight
                  left
                  (accepted ++ record { edges = best.edges; cost = best.cost } ∷ [])
                  (record after { candidates = rest })
          ])
      after_pop none taken kept next = record {
        routes = kept.accepted_route;
        distinct = kept.accepted_distinct;
      }
      after_pop (some (best, rest)) taken kept next =
          next (record { edges = best.edges; cost = best.cost }) rest
            (accept-Kept g weight (pos src) (pos dst) accepted after best rest kept (
              pop-Taken no_candidate (λ x. x.edges) candidate_less after.candidates best rest
                taken))

  one-distinct : (p : KPath) → IsDistinct no_kpath (λ p. p.edges) (p ∷ [])
  one-distinct p i j hi hj e = omega arith

  only : (p q : KPath) → Has no_kpath (p ∷ []) q → p ≡ q
  only p q (zero, hi, e) = e
  only p q (suc i, hi, e) = absurd (omega arith)

  from_first-AreRoutes :
      (k : ℕ) (scratch : Scratch) (a : Answer)
      → Even scratch
      → Solves g weight (pos src) (pos dst) a
      → IsLoopless g (pos dst) a
      → AreRoutes g weight (pos src) (pos dst) (from_first g (pos src) (pos dst) weight k scratch a)
  unfolding from_first
  from_first-AreRoutes k scratch unreachable even s simple =
      none-AreRoutes g weight (pos src) (pos dst)
  from_first-AreRoutes k scratch exhausted even s simple = elim s [ ]
  from_first-AreRoutes k scratch (found path cost) even (walk, finite, least) simple =
      yen_rounds-AreRoutes k (first ∷ []) _ (omega arith) (record {
        even = scratch_after-Even g (pos src) (pos dst) weight scratch even;
        accepted_route = λ p h.
            subst (λ z. IsRoute g weight (pos src) (pos dst) z.edges z.cost) (only first p h)
              (record { priced = whole walk finite; loopless = simple });
        accepted_seen = λ p h.
            subst (λ z. is_seen (path ∷ []) z.edges ≡ true) (only first p h) (seen_self path []);
        accepted_distinct = one-distinct first;
        candidate_route = λ x h. absurd (let (i, hi, e) = h in omega (arith, hi));
        candidate_seen = λ x h. absurd (let (i, hi, e) = h in omega (arith, hi));
        candidate_distinct = λ i j hi hj e. absurd (omega arith);
        apart = λ p x hp h. absurd (let (i, hi, e) = h in omega (arith, hi));
      })
    where
      first : KPath
      first = record { edges = path; cost = cost }

  paths_between-AreRoutes :
      (k : ℤ)
      → src < g.node_count
      → AreRoutes g weight (pos src) (pos dst) (k_shortest_paths g (pos src) (pos dst) k weight)
  unfolding k_shortest_paths
  paths_between-AreRoutes (negsuc n) src_in = none-AreRoutes g weight (pos src) (pos dst)
  paths_between-AreRoutes (pos zero) src_in = none-AreRoutes g weight (pos src) (pos dst)
  paths_between-AreRoutes (pos (suc k)) src_in = elim (Bool-cases (src == dst)) [
    | inl same ↦
        let here_walk : Walk g weight (pos src) (pos dst) [] (of_nat 0) =
          subst (λ z. Walk g weight (pos src) (pos z) [] (of_nat 0)) ((==_iff src dst).0 same)
            here in
        rw
          (
            in_range-pos src g.node_count src_in,
            in_range-pos dst g.node_count dst_in,
            k_shortest_paths,
            same,
          )
          (record {
            routes = λ p h.
                subst (λ z. IsRoute g weight (pos src) (pos dst) z.edges z.cost) (only no_kpath p h)
                  (record { priced = whole here_walk laws.zero-is_inf; loopless = (tt, tt) });
            distinct = one-distinct no_kpath;
          })
    | inr other ↦
        rw
          (
            in_range-pos src g.node_count src_in,
            in_range-pos dst g.node_count dst_in,
            k_shortest_paths,
            other,
          )
          (from_first-AreRoutes k (new_dijkstra_scratch (pos g.node_count)) _
            (new_dijkstra_scratch-Even g.node_count)
            (dijkstra_scratch-Solves laws g ok weight w
              (some (new_dijkstra_scratch (pos g.node_count))) src dst
              (new_dijkstra_scratch-Even g.node_count) src_in dst_in)
            (dijkstra_scratch-IsLoopless laws g ok weight w
              (some (new_dijkstra_scratch (pos g.node_count)))
              (new_dijkstra_scratch-Even g.node_count) src dst src_in dst_in))
  ]

module _ ⦃f : Float64⦄ (laws : Laws f) (m : MulLaws f) (g : Graph) (ok : IsGraph g)
    (weight : WeightFunc) (w : NonNegWeight g weight) (src dst : NodeId) where
  out-AreRoutes :
      (k : ℤ)
      → (in_range src g.node_count ≡ none) ⊎ (in_range dst g.node_count ≡ none)
      → AreRoutes g weight src dst (k_shortest_paths g src dst k weight)
  unfolding k_shortest_paths
  out-AreRoutes (negsuc n) out = none-AreRoutes g weight src dst
  out-AreRoutes (pos zero) out = none-AreRoutes g weight src dst
  out-AreRoutes (pos (suc k)) (inl out) =
      rw (out, k_shortest_paths) (none-AreRoutes g weight src dst)
  out-AreRoutes (pos (suc k)) (inr out) = elim (Option-cases (in_range src g.node_count)) [
    | inl src_out ↦ rw (src_out, k_shortest_paths) (none-AreRoutes g weight src dst)
    | inr (i, inside) ↦ rw (inside, out, k_shortest_paths) (none-AreRoutes g weight src dst)
  ]

  -- On a graph that keeps the port's laws, with non-negative weights, for any two ids and any k: no
  -- two of the paths that kShortestPaths returns have the same edges, and each leads from the one
  -- node to the other, visits no node twice, and states a cost that is the cost of a finite walk, or
  -- the sum of the costs of two walks that follow one another, the second finite.
  pub k_shortest_paths-AreRoutes :
      (k : ℤ) → AreRoutes g weight src dst (k_shortest_paths g src dst k weight)
  k_shortest_paths-AreRoutes k = elim (Option-cases (in_range src g.node_count)) [
    | inl out ↦ out-AreRoutes k (inl out)
    | inr (i, src_in) ↦ elim (Option-cases (in_range dst g.node_count)) [
      | inl out ↦ out-AreRoutes k (inr out)
      | inr (j, dst_in) ↦
          let (src_is, i_lt) = in_range-some src g.node_count i src_in in
          let (dst_is, j_lt) = in_range-some dst g.node_count j dst_in in
          subst (λ z. AreRoutes g weight z dst (k_shortest_paths g z dst k weight)) (sym src_is)
            (subst (λ z. AreRoutes g weight (pos i) z (k_shortest_paths g (pos i) z k weight))
              (sym dst_is) (paths_between-AreRoutes laws m g ok weight w i j j_lt k i_lt))
    ]
  ]
