-- ===== src/Routing/AStar.antt =====
-- engine/internal/routing/astar.go: the single pass with a great-circle heuristic.
pub mod Speed
use convergent_routing_analy.Prelude.{
  ℕ, zero, suc, pos, List, Option, none, some, ◌||◌, if◌then◌else◌,
}
use convergent_routing_analy.Float.{Float64, Float, of_nat, div, lt, le}
use convergent_routing_analy.Domain.{NodeId}
use convergent_routing_analy.Graph.{Graph, Edge, Node}
use convergent_routing_analy.Graph.Geo.{great_circle_m}
use convergent_routing_analy.Routing.Dijkstra.{HeuristicFunc}
use convergent_routing_analy.Routing.Requests.{Context, RouteRequest, Route, AssignResult, Outcome}
use convergent_routing_analy.Routing.SinglePass.{assign_result, route}
use convergent_routing_analy.Routing.Naive.{free_flow_weight}

module _ ⦃f : Float64⦄ where
  -- The straight-line distance between the endpoints of an edge, if both are nodes.
  unfoldable pub chord : Graph → Edge → Option Float
  chord g edge = elim (g.node edge.from) [
    | none ↦ none
    | some a ↦ elim (g.node edge.to) [ none ↦ none | some b ↦ some (great_circle_m a.at b.at) ]
  ]

  -- The larger of the speed so far and the chord speed of an edge with a chord.
  unfoldable pub faster : Float → Edge → Float → Float
  faster speed edge c =
      let own = div c edge.free_flow_s in
      if le c (of_nat 0) then speed else if lt speed own then own else speed

  unfoldable pub edge_speed : Graph → Edge → Float → Float
  unfolding faster chord
  edge_speed g edge speed =
      if le edge.free_flow_s (of_nat 0)
      then speed
      else elim (chord g edge) [ none ↦ speed | some c ↦ faster speed edge c ]

  -- The edges from id i on, `k` of them.
  unfoldable pub speed_from : Graph → ℕ → ℕ → Float → Float
  unfolding edge_speed
  speed_from g zero i speed = speed
  speed_from g (suc k) i speed = elim (g.edge (pos i)) [
    | none ↦ speed_from g k (suc i) speed
    | some edge ↦ speed_from g k (suc i) (edge_speed g edge speed)
  ]

  unfoldable pub max_free_flow_speed_ms : Graph → Float
  unfolding speed_from
  max_free_flow_speed_ms g = speed_from g g.edge_count 0 (of_nat 0)

  abbrev pub zero_heuristic : HeuristicFunc
  zero_heuristic v = of_nat 0

  -- The straight line to the target at the speed; an unknown node counts as there.
  pub time_to : Graph → Float → Node → HeuristicFunc
  time_to g max_speed target v = elim (g.node v) [
    | none ↦ of_nat 0
    | some n ↦ div (great_circle_m n.at target.at) max_speed
  ]

  pub astar_heuristic : Graph → Float → NodeId → HeuristicFunc
  astar_heuristic g max_speed dst = elim (g.node dst) [
    | none ↦ zero_heuristic
    | some target ↦ if le max_speed (of_nat 0) then zero_heuristic else time_to g max_speed target
  ]

  pub astar_route : Graph → Context → RouteRequest → Outcome Route
  astar_route g =
      route g "astar" free_flow_weight
        (λ dst. some (astar_heuristic g (max_free_flow_speed_ms g) dst))

  pub astar_assign_result : Graph → Context → List RouteRequest → Outcome AssignResult
  astar_assign_result g =
      assign_result g "astar" free_flow_weight
        (λ dst. some (astar_heuristic g (max_free_flow_speed_ms g) dst))
