-- ===== src/Routing/Split.antt =====
-- engine/internal/routing/multipath.go: the requests of one origin and destination spread over their
-- k shortest paths. `draw i` is the first number of the stream that requestRNG seeds for the request
-- i, from math/rand; Route draws as the request 0.
pub mod Drawn
pub mod Fresh
pub mod Counted
pub mod Spread
pub mod Slots
pub mod Correct
pub mod Shares
pub mod Result
pub mod Single
use Prim.Native.String.{String}
use convergent_routing_analy.Prelude.{
  ℕ, zero, suc, ◌+◌, Bool, true, false, ◌&&◌, ℤ, pos, negsuc, List, [], ◌∷◌, ◌++◌, Option, none,
  some, length, get_or, set, replicate, map, ltb, eqb_ℤ, if◌then◌else◌,
}
use convergent_routing_analy.Float.{Float64, Float, of_nat, div}
use convergent_routing_analy.Domain.{NodeId}
use convergent_routing_analy.Graph.{Graph}
use convergent_routing_analy.Cost.{CostFunction}
use convergent_routing_analy.Routing.Dijkstra.{WeightFunc}
use convergent_routing_analy.Routing.Requests.{
  Context, at_start, at_request, RouteRequest, Route, AssignResult, cancelled, no_path, panicked,
  Outcome, done, failed, request_weight, OdPair, snap_request, prefetch_od, new_flow_vector,
  add_route_flow,
}
use convergent_routing_analy.Routing.Multipath.{KPath, no_kpath, proportional_split, draw_path}
use convergent_routing_analy.Routing.Yen.{k_shortest_paths}

abbrev pub default_multipath_k : ℤ
default_multipath_k = pos 3

-- NewMultipathRouter: a k that is not positive is the default.
abbrev pub router_k : ℤ → ℤ
router_k (pos zero) = default_multipath_k
router_k (pos (suc n)) = pos (suc n)
router_k (negsuc n) = default_multipath_k

abbrev pub multipath_name : String
multipath_name = "multipath"

-- counts[choice]++
abbrev pub count_one : List ℕ → ℕ → List ℕ
count_one counts choice = set counts choice (get_or counts choice 0 + 1)

abbrev pub total_count : List ℕ → ℕ
total_count [] = 0
total_count (n ∷ ns) = n + total_count ns

module _ ⦃f : Float64⦄ where
  unfoldable pub split_weight : CostFunction → WeightFunc
  split_weight cost_fn edge = cost_fn edge (of_nat 0)

  pub record OdEntry : Type 0 where
    pub paths : List KPath
    pub intended : List Float
    pub counts : List ℕ
    pub src : NodeId
    pub dst : NodeId

  abbrev pub no_entry : OdEntry
  no_entry = record { paths = []; intended = []; counts = []; src = negsuc 0; dst = negsuc 0 }

  abbrev pub new_entry : OdPair → List KPath → OdEntry
  new_entry pair paths = record {
    paths = paths;
    intended = proportional_split paths;
    counts = replicate (length paths) 0;
    src = pair.src;
    dst = pair.dst;
  }

  abbrev pub is_for : OdPair → OdEntry → Bool
  is_for pair e = eqb_ℤ e.src pair.src && eqb_ℤ e.dst pair.dst

  -- odIndexByKey: the map from a pair to its slot is read off the entries, which keep their pairs.
  unfoldable pub slot_of : OdPair → List OdEntry → ℕ → Option ℕ
  slot_of pair [] i = none
  slot_of pair (e ∷ es) i =
      let rest = slot_of pair es (suc i) in if is_for pair e then some i else rest

  -- The slot of a pair that is new, with its entry.
  unfoldable pub add_entry :
      RouteRequest → OdPair → List OdEntry → List KPath → Outcome (ℕ × List OdEntry)
  add_entry req pair entries [] = failed (no_path multipath_name req.id pair.src pair.dst)
  add_entry req pair entries (p ∷ ps) =
      done (length entries, entries ++ new_entry pair (p ∷ ps) ∷ [])

  -- The route along the path that was drawn.
  abbrev pub route_along : RouteRequest → List KPath → ℕ → Route
  route_along req paths choice =
      let path = get_or paths choice no_kpath in
      record { request_id = req.id; edges = path.edges; cost_s = path.cost }

  pub record Split : Type 0 where
    pub entries : List OdEntry
    pub flows : List Float
    pub routes : List Route
    pub slots : List ℕ
    pub chosen : List ℕ

  -- The split of the rest, with a request's draw in front.
  unfoldable pub with_draw : ℕ → ℕ → Route → Outcome Split → Outcome Split
  with_draw slot choice route (failed e) = failed e
  with_draw slot choice route (done s) =
      done
        (record s { routes = route ∷ s.routes; slots = slot ∷ s.slots; chosen = choice ∷ s.chosen })

  -- ProvenancePath mirrors kPath, and is a KPath here.
  pub record OdKPaths : Type 0 where
    pub src : NodeId
    pub dst : NodeId
    pub paths : List KPath
    pub intended : List Float
    pub realized : List Float
    pub request_count : ℕ

  pub record MultipathProvenance : Type 0 where
    pub od_paths : List OdKPaths
    pub chosen_path_index : List ℕ
    pub chosen_od_index : List ℕ

  pub record MultipathResult : Type 0 where
    pub result : AssignResult
    pub provenance : MultipathProvenance

  unfoldable pub realized_of : List ℕ → List Float
  realized_of counts =
      let total = total_count counts in
      if ltb 0 total
      then map (λ count. div (of_nat count) (of_nat total)) counts
      else replicate (length counts) (of_nat 0)

  unfoldable pub od_k_paths : OdEntry → OdKPaths
  unfolding realized_of
  od_k_paths e = record {
    src = e.src;
    dst = e.dst;
    paths = e.paths;
    intended = e.intended;
    realized = realized_of e.counts;
    request_count = total_count e.counts;
  }

  abbrev pub multipath_result : Split → MultipathResult
  multipath_result s = record {
    result = record {
      routes = s.routes;
      final_flows = s.flows;
      gap = of_nat 0;
      iters = 1;
      converged = true;
    };
    provenance = record {
      od_paths = map od_k_paths s.entries;
      chosen_path_index = s.chosen;
      chosen_od_index = s.slots;
    };
  }

  module _ (g : Graph) (weight : WeightFunc) (k : ℤ) (draw : ℕ → Float) (ctx : Context) where
    unfoldable pub slot_for : RouteRequest → OdPair → List OdEntry → Outcome (ℕ × List OdEntry)
    unfolding slot_of add_entry
    slot_for req pair entries = elim (slot_of pair entries 0) [
      | some slot ↦ done (slot, entries)
      | none ↦ add_entry req pair entries (k_shortest_paths g pair.src pair.dst k weight)
    ]

    -- A path of the slot for the request `i`.
    abbrev pub choice_at : ℕ → List OdEntry → ℕ → ℕ
    choice_at i entries slot = draw_path (get_or entries slot no_entry).intended (draw i)

    abbrev pub after_draw : ℕ → List OdEntry → ℕ → List OdEntry
    after_draw i entries slot =
        let entry = get_or entries slot no_entry in
        set entries slot
          (record entry { counts = count_one entry.counts (choice_at i entries slot) })

    abbrev pub route_at : ℕ → RouteRequest → List OdEntry → ℕ → Route
    route_at i req entries slot =
        route_along req (get_or entries slot no_entry).paths (choice_at i entries slot)

    -- The requests from the index i on, after the entries and the flows of those before.
    unfoldable pub split_all :
        ℕ → List RouteRequest → List OdPair → List OdEntry → List Float → Outcome Split
    unfolding slot_for with_draw
    split_all i [] pairs entries flows =
        done (record { entries = entries; flows = flows; routes = []; slots = []; chosen = [] })
    split_all i (req ∷ reqs) [] entries flows =
        if ctx (at_request 1 i) then failed cancelled else failed panicked
    split_all i (req ∷ reqs) (pair ∷ pairs) entries flows =
        if ctx (at_request 1 i) then failed cancelled else elim (slot_for req pair entries) [
          | failed e ↦ failed e
          | done (slot, found) ↦
              let route = route_at i req found slot in
              with_draw slot (choice_at i found slot) route (
                split_all (suc i) reqs pairs (after_draw i found slot)
                  (add_route_flow flows route.edges (request_weight req)))
        ]

    unfoldable pub result_of_split : Outcome Split → Outcome MultipathResult
    result_of_split (failed e) = failed e
    result_of_split (done s) = done (multipath_result s)

    -- AssignMultipath
    unfoldable pub assign_multipath : List RouteRequest → Outcome MultipathResult
    unfolding split_all result_of_split
    assign_multipath reqs = elim (prefetch_od g multipath_name reqs) [
      | failed e ↦ failed e
      | done pairs ↦ result_of_split (split_all 0 reqs pairs [] (new_flow_vector g))
    ]

    -- AssignResult, which drops the provenance.
    pub multipath_assign_result : List RouteRequest → Outcome AssignResult
    multipath_assign_result reqs = elim (assign_multipath reqs) [
      | failed e ↦ failed e
      | done r ↦ done r.result
    ]

    unfoldable pub draw_route : RouteRequest → OdPair → List KPath → Outcome Route
    draw_route req pair [] = failed (no_path multipath_name req.id pair.src pair.dst)
    draw_route req pair (p ∷ ps) =
        done (route_along req (p ∷ ps) (draw_path (proportional_split (p ∷ ps)) (draw 0)))

    -- Route
    unfoldable pub multipath_route : RouteRequest → Outcome Route
    unfolding draw_route
    multipath_route req =
        if ctx at_start then failed cancelled else elim (snap_request g multipath_name req) [
          | failed e ↦ failed e
          | done pair ↦ draw_route req pair (k_shortest_paths g pair.src pair.dst k weight)
        ]
