-- ===== src/Benchmark.antt =====
-- engine/internal/benchmark/evaluator.go: the measures of a finished assignment.
pub mod Measures
use convergent_routing_analy.Prelude.{
  ℕ, zero, suc, Bool, pos, List, [], ◌∷◌, Option, none, some, length, map, if◌then◌else◌, ◌||◌, not,
}
use convergent_routing_analy.Float.{Float64, Float, of_nat, add, sub, mul, div, lt, le, is_inf, eq}
use convergent_routing_analy.Domain.{EdgeId}
use convergent_routing_analy.Graph.{Graph, Edge}
use convergent_routing_analy.Cost.{Bpr, bpr_cost, floor_load}
use convergent_routing_analy.Routing.Requests.{Route, AssignResult}
use convergent_routing_analy.Routing.Convergence.{load_at}

module _ ⦃f : Float64⦄ where
  -- The cost of the edges under the flows, added to the total so far; an unknown edge adds nothing.
  unfoldable pub realized_from : Graph → Bpr → List Float → List EdgeId → Float → Float
  realized_from g bpr flows [] total = total
  realized_from g bpr flows (id ∷ ids) total = elim (g.edge id) [
    | none ↦ realized_from g bpr flows ids total
    | some e ↦ realized_from g bpr flows ids (add total (bpr_cost bpr e (load_at flows id)))
  ]

  unfoldable pub route_realized_time : Graph → Bpr → Route → List Float → Float
  unfolding realized_from
  route_realized_time g bpr route flows = realized_from g bpr flows route.edges (of_nat 0)

  unfoldable pub realized_times : Graph → Bpr → AssignResult → List Float
  unfolding route_realized_time
  realized_times g bpr result =
      map (λ r. route_realized_time g bpr r result.final_flows) result.routes

  unfoldable pub vc_ratio : Bpr → List Float → EdgeId → Edge → Float
  vc_ratio bpr flows id e =
      let capacity = mul e.capacity_vph bpr.capacity_scale in
      if le capacity (of_nat 0) then of_nat 0 else div (floor_load (load_at flows id)) capacity

  -- The edges from id i on, `k` of them.
  unfoldable pub ratios_from : Graph → Bpr → List Float → ℕ → ℕ → List Float
  unfolding vc_ratio
  ratios_from g bpr flows zero i = []
  ratios_from g bpr flows (suc k) i =
      let rest = ratios_from g bpr flows k (suc i) in
      elim (g.edge (pos i)) [
        | none ↦ of_nat 0 ∷ rest
        | some e ↦ vc_ratio bpr flows (pos i) e ∷ rest
      ]

  unfoldable pub edge_vc_ratios : Graph → Bpr → List Float → List Float
  unfolding ratios_from
  edge_vc_ratios g bpr flows = ratios_from g bpr flows g.edge_count 0

  unfoldable pub max_from : Float → List Float → Float
  max_from m [] = m
  max_from m (v ∷ vs) = max_from (if lt m v then v else m) vs

  unfoldable pub max_of : List Float → Float
  unfolding max_from
  max_of values = max_from (of_nat 0) values
