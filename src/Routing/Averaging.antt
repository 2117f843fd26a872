-- ===== src/Routing/Averaging.antt =====
-- engine/internal/routing/msa.go and systemoptimal.go: the method of successive averages. The two
-- steps differ in the weights that they route on and the total that their gap is measured with.
pub mod Trace
pub mod Correct
use Prim.Native.String.{String}
use convergent_routing_analy.Prelude.{
  ℕ, zero, suc, Bool, true, false, ℤ, pos, List, [], ◌∷◌, none, if◌then◌else◌,
}
use convergent_routing_analy.Float.{Float64, Float, of_nat, add, sub, mul, div}
use convergent_routing_analy.Graph.{Graph}
use convergent_routing_analy.Cost.{Bpr}
use convergent_routing_analy.Routing.Dijkstra.{WeightFunc}
use convergent_routing_analy.Routing.Requests.{
  Context, RouteRequest, Route, AssignResult, Outcome, done, failed, OdPair, prefetch_od,
}
use convergent_routing_analy.Routing.SinglePass.{route}
use convergent_routing_analy.Routing.Naive.{free_flow_weight}
use convergent_routing_analy.Routing.FanOut.{AssignOutcome, assign_aon}
use convergent_routing_analy.Routing.Convergence.{
  load_at, weight_from_flows, marginal_weight_from_flows, total_network_time, total_marginal_cost,
  relative_gap, StepResult, IterationStep, run_convergence_loop,
}

module _ ⦃f : Float64⦄ where
  -- x + stepSize * (y - x) for the edges from i on, `k` of them.
  unfoldable pub blend : Float → List Float → List Float → ℕ → ℕ → List Float
  blend step_size flow target zero i = []
  blend step_size flow target (suc k) i =
      let x = load_at flow (pos i) in
      let y = load_at target (pos i) in
      add x (mul step_size (sub y x)) ∷ blend step_size flow target k (suc i)

  -- The strategy: its name, the weights under a flow, and the total of a flow.
  pub record Strategy : Type 0 where
    pub name : String
    pub weight : List Float → WeightFunc
    pub total : List Float → Float

  pub msa : Graph → Bpr → Strategy
  msa g bpr = record {
    name = "msa";
    weight = weight_from_flows bpr;
    total = total_network_time g bpr;
  }

  pub system_optimal : Graph → Bpr → Strategy
  system_optimal g bpr = record {
    name = "systemoptimal";
    weight = marginal_weight_from_flows bpr;
    total = total_marginal_cost g bpr;
  }

  module _ (g : Graph) (strategy : Strategy) (ctx : Context) (procs : ℤ) (order : ℕ → List ℕ) where
    abbrev pub averaged : ℕ → List Float → AssignOutcome → StepResult
    averaged k flow outcome = record {
      next = blend (div (of_nat 1) (of_nat k)) flow outcome.flows g.edge_count 0;
      routes = outcome.routes;
      gap = relative_gap (strategy.total flow) outcome.total_sp;
      finished = false;
    }

    -- The step of AssignResult; `order k` is the schedule of its workers in the round k.
    unfoldable pub averaging_step : List OdPair → List RouteRequest → IterationStep
    averaging_step pairs reqs k held flow =
        elim (assign_aon g strategy.name (strategy.weight flow) ctx k procs (order k) pairs reqs) [
          | failed e ↦ failed e
          | done outcome ↦ done (averaged k flow outcome)
        ]

    -- AssignResult
    unfoldable pub averaging_result : List RouteRequest → Outcome AssignResult
    unfolding averaging_step
    averaging_result reqs = elim (prefetch_od g strategy.name reqs) [
      | failed e ↦ failed e
      | done pairs ↦ run_convergence_loop ctx g (averaging_step pairs reqs) []
    ]

    -- Route: routeSingleFreeFlow under the strategy's name.
    pub averaging_route : RouteRequest → Outcome Route
    averaging_route = route g strategy.name free_flow_weight (λ dst. none) ctx
