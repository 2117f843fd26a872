-- ===== src/Routing/Reactive.antt =====
-- engine/internal/routing/reactive.go: the single pass on the costs under one view of the load. A
-- Route reads a View and a batch one Snapshot; both are the loads as a value here.
use convergent_routing_analy.Prelude.{List, none}
use convergent_routing_analy.Float.{Float64}
use convergent_routing_analy.Graph.{Graph}
use convergent_routing_analy.Cost.{CostFunction}
use convergent_routing_analy.Congestion.{LoadSnapshot, load}
use convergent_routing_analy.Routing.Dijkstra.{WeightFunc}
use convergent_routing_analy.Routing.Requests.{Context, RouteRequest, Route, AssignResult, Outcome}
use convergent_routing_analy.Routing.SinglePass.{assign_result, route}

module _ ⦃f : Float64⦄ (g : Graph) (cost : CostFunction) (view : LoadSnapshot) where
  pub congested_weight : WeightFunc
  congested_weight edge = cost edge (load view edge.id)

  pub reactive_route : Context → RouteRequest → Outcome Route
  reactive_route = route g "reactive" congested_weight (λ dst. none)

  pub reactive_assign_result : Context → List RouteRequest → Outcome AssignResult
  reactive_assign_result = assign_result g "reactive" congested_weight (λ dst. none)
