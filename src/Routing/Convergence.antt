-- ===== src/Routing/Convergence.antt =====
-- engine/internal/routing/iterative.go: the loop that the iterative strategies share, and the
-- measures that it stops on.
pub mod Ends
use convergent_routing_analy.Prelude.{
  ℕ, zero, suc, Bool, true, false, ◌||◌, pos, List, [], Option, none, some, length, get_or,
  if◌then◌else◌, in_range,
}
use convergent_routing_analy.Float.{Float64, Float, of_nat, add, sub, mul, div, lt, le, abs}
use convergent_routing_analy.Domain.{EdgeId}
use convergent_routing_analy.Graph.{Graph}
use convergent_routing_analy.Cost.{Bpr, CostFunction, bpr_cost, marginal_cost}
use convergent_routing_analy.Routing.Dijkstra.{WeightFunc}
use convergent_routing_analy.Routing.Requests.{
  Context, at_round, Route, AssignResult, cancelled, Outcome, done, failed, new_flow_vector,
}

abbrev pub max_iterations : ℕ
max_iterations = 100

module _ ⦃f : Float64⦄ where
  -- 1e-4 is the nearest float64 to 1/10000.
  abbrev pub gap_tolerance : Float
  gap_tolerance = div (of_nat 1) (of_nat 10000)

  -- An id out of range carries no load.
  unfoldable pub load_at : List Float → EdgeId → Float
  load_at flows id = elim (in_range id (length flows)) [
    | none ↦ of_nat 0
    | some i ↦ get_or flows i (of_nat 0)
  ]

  unfoldable pub weight_from_flows : Bpr → List Float → WeightFunc
  weight_from_flows bpr flows edge = bpr_cost bpr edge (load_at flows edge.id)

  unfoldable pub marginal_weight_from_flows : Bpr → List Float → WeightFunc
  marginal_weight_from_flows bpr flows edge = marginal_cost bpr edge (load_at flows edge.id)

  -- The edges from id i on, `k` of them, added to the total so far.
  pub edge_cost_from : Graph → List Float → CostFunction → ℕ → ℕ → Float → Float
  edge_cost_from g flows per_edge zero i total = total
  edge_cost_from g flows per_edge (suc k) i total = elim (g.edge (pos i)) [
    | none ↦ edge_cost_from g flows per_edge k (suc i) total
    | some edge ↦
        let load = load_at flows (pos i) in
        edge_cost_from g flows per_edge k (suc i) (add total (mul load (per_edge edge load)))
  ]

  pub edge_cost_sum : Graph → List Float → CostFunction → Float
  edge_cost_sum g flows per_edge = edge_cost_from g flows per_edge g.edge_count 0 (of_nat 0)

  -- totalSystemCost too
  pub total_network_time : Graph → Bpr → List Float → Float
  total_network_time g bpr flows = edge_cost_sum g flows (bpr_cost bpr)

  pub total_marginal_cost : Graph → Bpr → List Float → Float
  total_marginal_cost g bpr flows = edge_cost_sum g flows (marginal_cost bpr)

  unfoldable pub relative_gap : Float → Float → Float
  relative_gap tstt sptt = if le sptt (of_nat 0) then of_nat 0 else div (abs (sub tstt sptt)) sptt

  -- What an iterationStep returns without an error; `finished` is its `done`.
  pub record StepResult : Type 0 where
    pub next : List Float
    pub routes : List Route
    pub gap : Float
    pub finished : Bool

  -- A step may write into the routes that it returned in the round before, which it holds.
  abbrev pub IterationStep : Type 0
  IterationStep = ℕ → List Route → List Float → Outcome StepResult

  -- The state of the loop after the round k.
  abbrev pub after_round : ℕ → StepResult → AssignResult
  after_round k s = record {
    routes = s.routes;
    final_flows = s.next;
    gap = s.gap;
    iters = k;
    converged = lt s.gap gap_tolerance || s.finished;
  }

  abbrev pub before_rounds : Graph → AssignResult
  before_rounds g = record {
    routes = [];
    final_flows = new_flow_vector g;
    gap = of_nat 0;
    iters = 0;
    converged = false;
  }

  -- The rounds from k on, at most `left` of them, with the routes that the step holds.
  unfoldable pub rounds :
      Context → IterationStep → ℕ → ℕ → List Route → AssignResult → Outcome AssignResult
  rounds ctx step zero k held r = done r
  rounds ctx step (suc left) k held r =
      if ctx (at_round k) then failed cancelled else elim (step k held r.final_flows) [
        | failed e ↦ failed e
        | done s ↦ elim (lt s.gap gap_tolerance || s.finished) [
          | true ↦ done (after_round k s)
          | false ↦ rounds ctx step left (suc k) s.routes (after_round k s)
        ]
      ]

  unfoldable pub run_convergence_loop :
      Context → Graph → IterationStep → List Route → Outcome AssignResult
  unfolding rounds
  run_convergence_loop ctx g step held = rounds ctx step max_iterations 1 held (before_rounds g)
