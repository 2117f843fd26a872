-- ===== src/Routing/Naive.antt =====
-- engine/internal/routing/naive.go: every request on free-flow times, as if alone.
use convergent_routing_analy.Prelude.{List, none}
use convergent_routing_analy.Float.{Float64}
use convergent_routing_analy.Graph.{Graph}
use convergent_routing_analy.Routing.Dijkstra.{WeightFunc}
use convergent_routing_analy.Routing.Requests.{
  Context, RouteRequest, Route, AssignResult, Outcome, assign_from_result,
}
use convergent_routing_analy.Routing.SinglePass.{assign_result, route}

module _ ⦃f : Float64⦄ where
  abbrev pub free_flow_weight : WeightFunc
  free_flow_weight edge = edge.free_flow_s

  abbrev pub naive_route : Graph → Context → RouteRequest → Outcome Route
  naive_route g = route g "naive" free_flow_weight (λ dst. none)

  abbrev pub naive_assign_result : Graph → Context → List RouteRequest → Outcome AssignResult
  naive_assign_result g = assign_result g "naive" free_flow_weight (λ dst. none)

  pub naive_assign : Graph → Context → List RouteRequest → Outcome (List Route)
  naive_assign g ctx reqs = assign_from_result (naive_assign_result g ctx reqs)
