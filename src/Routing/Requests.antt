-- ===== src/Routing/Requests.antt =====
-- engine/internal/routing/routing.go and assign.go: requests, routes, the outcome of a batch, and
-- the flows that routes place on the edges.
pub mod Flows
use Prim.Native.String.{String}
use convergent_routing_analy.Prelude.{
  ℕ, Bool, true, false, ℤ, pos, negsuc, List, [], ◌∷◌, Option, some, none, length, get_or, set,
  replicate, if◌then◌else◌, in_range,
}
use convergent_routing_analy.Float.{Float64, Float, of_nat, add, lt}
use convergent_routing_analy.Domain.{NodeId, EdgeId, LatLon}
use convergent_routing_analy.Graph.{Graph}
use convergent_routing_analy.Routing.Dijkstra.{
  WeightFunc, HeuristicFunc, Scratch, Answer, found, unreachable, exhausted, shortest_path,
}

-- The moments at which a router asks ctx.Err(): on a single request, before a round of the
-- convergence loop, and before a request of a pass over the batch.
pub data Check : Type 0 where
  at_start : Check
  at_round : ℕ → Check
  at_request : ℕ → ℕ → Check

-- The answer of ctx.Err() at each moment: whether it is an error.
abbrev pub Context : Type 0
Context = Check → Bool

module _ ⦃f : Float64⦄ where
  pub record RouteRequest : Type 0 where
    pub id : String
    pub from : LatLon
    pub to : LatLon
    pub depart_at : Float
    pub weight : Float

  pub record Route : Type 0 where
    pub request_id : String
    pub edges : List EdgeId
    pub cost_s : Float

  pub record AssignResult : Type 0 where
    pub routes : List Route
    pub final_flows : List Float
    pub gap : Float
    pub iters : ℕ
    pub converged : Bool

  -- The errors of the routers: the strategy's name, the request and what was not found.
  pub data RouteError : Type 0 where
    cancelled : RouteError
    no_origin no_destination : String → String → LatLon → RouteError
    no_path : String → String → NodeId → NodeId → RouteError
    -- Go's panic on an index out of range, and the search out of fuel. Neither happens.
    panicked out_of_fuel : RouteError

  pub data Outcome {ℓ} (A : Type ℓ) : Type ℓ where
    done : A → Outcome A
    failed : RouteError → Outcome A

  -- RequestWeight
  unfoldable pub request_weight : RouteRequest → Float
  request_weight req = if lt (of_nat 0) req.weight then req.weight else of_nat 1

  pub record OdPair : Type 0 where
    pub src : NodeId
    pub dst : NodeId

  -- NearestNode of both endpoints, the origin first.
  unfoldable pub snap_request : Graph → String → RouteRequest → Outcome OdPair
  snap_request g strategy req = elim (g.nearest_node req.from) [
    | none ↦ failed (no_origin strategy req.id req.from)
    | some src ↦ elim (g.nearest_node req.to) [
      | none ↦ failed (no_destination strategy req.id req.to)
      | some dst ↦ done (record { src = src; dst = dst })
    ]
  ]

  -- An element and the rest of its list, the first error in the way.
  unfoldable pub cons_done {ℓ} : {A : Type ℓ} → Outcome A → Outcome (List A) → Outcome (List A)
  cons_done (failed e) rest = failed e
  cons_done (done x) (failed e) = failed e
  cons_done (done x) (done xs) = done (x ∷ xs)

  unfoldable pub prefetch_od : Graph → String → List RouteRequest → Outcome (List OdPair)
  prefetch_od g strategy [] = done []
  prefetch_od g strategy (req ∷ reqs) =
      cons_done (snap_request g strategy req) (prefetch_od g strategy reqs)

  unfoldable pub new_flow_vector : Graph → List Float
  new_flow_vector g = replicate g.edge_count (of_nat 0)

  -- An id outside the vector is skipped.
  unfoldable pub add_edge_flow : List Float → EdgeId → Float → List Float
  add_edge_flow flows id weight = elim (in_range id (length flows)) [
    | none ↦ flows
    | some i ↦ set flows i (add (get_or flows i (of_nat 0)) weight)
  ]

  unfoldable pub add_route_flow : List Float → List EdgeId → Float → List Float
  add_route_flow flows [] weight = flows
  add_route_flow flows (id ∷ ids) weight = add_route_flow (add_edge_flow flows id weight) ids weight

  -- The answer of a search as a route of the request, or as an error.
  unfoldable pub to_route : String → RouteRequest → OdPair → Answer → Outcome Route
  to_route strategy req pair (found path cost) =
      done (record { request_id = req.id; edges = path; cost_s = cost })
  to_route strategy req pair unreachable = failed (no_path strategy req.id pair.src pair.dst)
  to_route strategy req pair exhausted = failed out_of_fuel

  unfoldable pub search_route :
      Graph
      → String
      → RouteRequest
      → OdPair
      → WeightFunc
      → Option HeuristicFunc
      → Option Scratch
      → Outcome Route
  unfolding to_route
  search_route g strategy req pair weight h scratch =
      to_route strategy req pair (shortest_path g pair.src pair.dst weight h scratch)

  -- AssignFromResult
  unfoldable pub assign_from_result : Outcome AssignResult → Outcome (List Route)
  assign_from_result (failed e) = failed e
  assign_from_result (done r) = done r.routes
