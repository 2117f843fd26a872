-- ===== src/Routing/SinglePass.antt =====
-- The pass over a batch that engine/internal/routing/naive.go, astar.go and reactive.go share: snap
-- every endpoint, search per request, add up the flows. They differ in name, weight and heuristic.
pub mod Served
pub mod Search
pub mod Correct
use Prim.Native.String.{String}
use convergent_routing_analy.Prelude.{
  ℕ, suc, Bool, true, false, List, [], ◌∷◌, Option, none, if◌then◌else◌,
}
use convergent_routing_analy.Float.{Float64, Float, of_nat}
use convergent_routing_analy.Domain.{NodeId}
use convergent_routing_analy.Graph.{Graph}
use convergent_routing_analy.Routing.Dijkstra.{WeightFunc, HeuristicFunc}
use convergent_routing_analy.Routing.Requests.{
  Context, at_start, at_request, RouteRequest, Route, AssignResult, cancelled, panicked, Outcome,
  done, failed, request_weight, OdPair, snap_request, prefetch_od, new_flow_vector, add_route_flow,
  search_route,
}

module _ ⦃f : Float64⦄ (g : Graph) (name : String) (weight : WeightFunc)
    (heuristic : NodeId → Option HeuristicFunc) where
  -- The rest of a pass, with the route in front of its routes.
  unfoldable pub with_route :
      Route → Outcome (List Route × List Float) → Outcome (List Route × List Float)
  with_route route (failed e) = failed e
  with_route route (done (routes, flows)) = done (route ∷ routes, flows)

  -- One route for each request, and the flows with those routes added.
  unfoldable pub pass :
      Context → ℕ → List RouteRequest → List OdPair → List Float → Outcome (List Route × List Float)
  pass ctx i [] pairs flows = done ([], flows)
  pass ctx i (req ∷ reqs) [] flows =
      if ctx (at_request 1 i) then failed cancelled else failed panicked
  pass ctx i (req ∷ reqs) (pair ∷ pairs) flows =
      if ctx (at_request 1 i)
      then failed cancelled
      else elim (search_route g name req pair weight (heuristic pair.dst) none) [
        | failed e ↦ failed e
        | done route ↦
            with_route route
              (pass ctx (suc i) reqs pairs (add_route_flow flows route.edges (request_weight req)))
      ]

  unfoldable pub single_pass_result : Outcome (List Route × List Float) → Outcome AssignResult
  single_pass_result (failed e) = failed e
  single_pass_result (done (routes, flows)) =
      done (record {
        routes = routes;
        final_flows = flows;
        gap = of_nat 0;
        iters = 1;
        converged = true;
      })

  -- AssignResult
  unfoldable pub assign_result : Context → List RouteRequest → Outcome AssignResult
  unfolding pass
  assign_result ctx reqs = elim (prefetch_od g name reqs) [
    | failed e ↦ failed e
    | done pairs ↦ single_pass_result (pass ctx 0 reqs pairs (new_flow_vector g))
  ]

  -- Route
  unfoldable pub route : Context → RouteRequest → Outcome Route
  route ctx req = if ctx at_start then failed cancelled else elim (snap_request g name req) [
    | failed e ↦ failed e
    | done pair ↦ search_route g name req pair weight (heuristic pair.dst) none
  ]
