-- ===== src/Routing/Split/Shares.antt =====
-- What the provenance of AssignMultipath says of a pair, and that its entry says so.
use convergent_routing_analy.Prelude.{
  length-map, get_or-map_in, ℕ, ◌<◌, ◌≡◌, lt→ltb, sym, ◌∙◌, ap₂, subst, inl, inr, ℤ, List, length,
  get_or, ltb, Bool-cases, length-replicate, arith,
}
use convergent_routing_analy.Float.{Float64, Float, of_nat, div}
use convergent_routing_analy.Graph.{Graph}
use convergent_routing_analy.Routing.Dijkstra.{WeightFunc}
use convergent_routing_analy.Routing.Requests.{Context, RouteRequest, Outcome, done, failed}
use convergent_routing_analy.Routing.Multipath.{proportional_split}
use convergent_routing_analy.Routing.SinglePass.Served.{usage, Explained}
use convergent_routing_analy.Routing.Yen.{k_shortest_paths}
use convergent_routing_analy.Routing.Yen.Kept.{AreRoutes}
use convergent_routing_analy.Routing.Split.{
  multipath_name, total_count, OdEntry, no_entry, OdKPaths, realized_of, od_k_paths,
  MultipathResult,
}
use convergent_routing_analy.Routing.Split.Drawn.{IsEntry}
use convergent_routing_analy.Routing.Split.Spread.{uses, slot_uses, AllDrawn}

module _ ⦃f : Float64⦄ where
  length-realized_of : (counts : List ℕ) → length (realized_of counts) ≡ length counts
  unfolding realized_of
  length-realized_of counts = elim (Bool-cases (ltb 0 (total_count counts))) [
    | inl some ↦ rw some (length-map _ counts)
    | inr none ↦ rw none (length-replicate (length counts) (of_nat 0))
  ]

  get_or-realized_of :
      (counts : List ℕ) (j : ℕ)
      → j < length counts
      → 0 < total_count counts
      → get_or (realized_of counts) j (of_nat 0)
        ≡ div (of_nat (get_or counts j 0)) (of_nat (total_count counts))
  unfolding realized_of
  get_or-realized_of counts j h some =
      rw (lt→ltb 0 (total_count counts) some) (get_or-map_in _ counts j 0 (of_nat 0) h)

  -- The K-set of a slot.
  abbrev pub od_at : MultipathResult → ℕ → OdKPaths
  od_at r t = get_or r.provenance.od_paths t (od_k_paths no_entry)

  module _ (g : Graph) (weight : WeightFunc) (k : ℤ) (slots chosen : List ℕ) where
    -- A K-set with the split that was intended and the one that was drawn.
    pub record IsOd (t : ℕ) (od : OdKPaths) : Type 0 where
      pub searched : od.paths ≡ k_shortest_paths g od.src od.dst k weight
      pub some_path : 0 < length od.paths
      pub routes : AreRoutes g weight od.src od.dst od.paths
      pub weighed : od.intended ≡ proportional_split od.paths
      pub request_count : od.request_count ≡ slot_uses t slots
      pub some_request : 0 < od.request_count
      pub size : length od.realized ≡ length od.paths
      pub realized :
          (j : ℕ)
          → j < length od.paths
          → get_or od.realized j (of_nat 0)
            ≡ div (of_nat (uses t j slots chosen)) (of_nat (slot_uses t slots))

  -- Each request has the path of the K-set of its nearest nodes that its own number draws; each pair has one K-set; the flows
  -- are what the routes add up to.
  pub record Spreads (g : Graph) (weight : WeightFunc) (k : ℤ) (draw : ℕ → Float)
      (reqs : List RouteRequest) (r : MultipathResult) : Type 0 where
    pub drawn :
        AllDrawn g
          (length r.provenance.od_paths)
          (od_at r)
          draw
          0
          reqs
          r.result.routes
          r.provenance.chosen_od_index
          r.provenance.chosen_path_index
    pub od_sets :
        (t : ℕ)
        → t < length r.provenance.od_paths
        → IsOd g weight k r.provenance.chosen_od_index r.provenance.chosen_path_index t (od_at r t)
    pub one :
        (s t : ℕ)
        → s < length r.provenance.od_paths
        → t < length r.provenance.od_paths
        → (od_at r s).src ≡ (od_at r t).src
        → (od_at r s).dst ≡ (od_at r t).dst
        → s ≡ t
    pub size : length r.result.final_flows ≡ g.edge_count
    pub load :
        (e : ℕ)
        → e < g.edge_count
        → get_or r.result.final_flows e (of_nat 0) ≡ usage g reqs r.result.routes e (of_nat 0)

  abbrev pub SpreadsOr :
      Graph
      → WeightFunc
      → ℤ
      → (ℕ → Float)
      → Context
      → List RouteRequest
      → Outcome MultipathResult
      → Type 0
  SpreadsOr g weight k draw ctx reqs (done r) = Spreads g weight k draw reqs r
  SpreadsOr g weight k draw ctx reqs (failed e) = Explained g multipath_name weight ctx reqs e

  pub od_k_paths-IsOd :
      (g : Graph) (weight : WeightFunc) (k : ℤ) (slots chosen : List ℕ) (t : ℕ) (e : OdEntry)
      → IsEntry g weight k e
      → AreRoutes g weight e.src e.dst e.paths
      → ((j : ℕ) → get_or e.counts j 0 ≡ uses t j slots chosen)
      → total_count e.counts ≡ slot_uses t slots
      → 0 < slot_uses t slots
      → IsOd g weight k slots chosen t (od_k_paths e)
  unfolding od_k_paths
  od_k_paths-IsOd g weight k slots chosen t e entry routes counts total some = record {
    searched = entry.searched;
    some_path = entry.some_path;
    routes = routes;
    weighed = entry.weighed;
    request_count = total;
    some_request = omega (arith, total, some);
    size = length-realized_of e.counts ∙ entry.counted;
    realized = λ j h.
        get_or-realized_of e.counts j (subst (λ n. j < n) (sym entry.counted) h)
          (omega (arith, total, some))
        ∙ ap₂ (λ n m. div (of_nat n) (of_nat m)) (counts j) total;
  }
