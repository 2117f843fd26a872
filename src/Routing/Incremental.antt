-- ===== src/Routing/Incremental.antt =====
-- engine/internal/routing/incremental.go: a batch of the requests in each round, on the load so far.
pub mod Loads
pub mod Slices
pub mod Filled
pub mod Rounds
pub mod Correct
use Prim.Native.String.{String}
use convergent_routing_analy.Prelude.{
  ℕ, zero, suc, ◌-◌, true, false, ℤ, pos, List, [], ◌∷◌, none, length, get_or, take, drop,
  replicate, ◌==◌, if◌then◌else◌,
}
use convergent_routing_analy.Float.{Float64, Float, of_nat, add}
use convergent_routing_analy.Graph.{Graph}
use convergent_routing_analy.Cost.{Bpr}
use convergent_routing_analy.Routing.Requests.{
  Context, RouteRequest, Route, AssignResult, Outcome, done, failed, OdPair, prefetch_od,
}
use convergent_routing_analy.Routing.SinglePass.{route}
use convergent_routing_analy.Routing.Naive.{free_flow_weight}
use convergent_routing_analy.Routing.FanOut.{AssignOutcome, no_route, assign_aon}
use convergent_routing_analy.Routing.Convergence.{
  load_at, weight_from_flows, total_network_time, relative_gap, StepResult, IterationStep,
  run_convergence_loop,
}
use convergent_routing_analy.Routing.Batches.{BatchRange, incremental_batches, batch_bounds}

module _ {ℓ} {A : Type ℓ} where
  -- xs[lo:hi]
  abbrev pub slice : BatchRange → List A → List A
  slice range xs = take (range.hi - range.lo) (drop range.lo xs)

  -- The values over those from the index `at` on, as far as there are places.
  abbrev pub overwrite : ℕ → List A → List A → List A
  overwrite at values [] = []
  overwrite zero [] (x ∷ xs) = x ∷ xs
  overwrite zero (v ∷ vs) (x ∷ xs) = v ∷ overwrite zero vs xs
  overwrite (suc at) values (x ∷ xs) = x ∷ overwrite at values xs

  -- copy(xs[lo:hi], values)
  abbrev pub copy_range : BatchRange → List A → List A → List A
  copy_range range values xs = overwrite range.lo (take (range.hi - range.lo) values) xs

abbrev pub no_range : BatchRange
no_range = record { lo = 0; hi = 0 }

abbrev pub incremental_name : String
incremental_name = "incremental"

module _ ⦃f : Float64⦄ where
  abbrev pub partial_load_gap : Float
  partial_load_gap = of_nat 1

  -- The loads of two flows for the edges from i on, `k` of them.
  unfoldable pub fold_in : List Float → List Float → ℕ → ℕ → List Float
  fold_in flow batch zero i = []
  fold_in flow batch (suc k) i =
      add (load_at flow (pos i)) (load_at batch (pos i)) ∷ fold_in flow batch k (suc i)

  abbrev pub bounds_of : List RouteRequest → List BatchRange
  bounds_of reqs = batch_bounds (length reqs) incremental_batches

  abbrev pub range_at : List RouteRequest → ℕ → BatchRange
  range_at reqs k = get_or (bounds_of reqs) (k - 1) no_range

  abbrev pub gap_of :
      Graph → Bpr → List Route → List Float → Outcome AssignOutcome → Outcome StepResult
  gap_of g bpr routes next (failed e) = failed e
  gap_of g bpr routes next (done outcome) = done (record {
    next = next;
    routes = routes;
    gap = relative_gap (total_network_time g bpr next) outcome.total_sp;
    finished = true;
  })

  module _ (g : Graph) (bpr : Bpr) (ctx : Context) (procs : ℤ) (order : ℕ → List ℕ) where
    -- The last batch: the gap is that of the whole load. Its pass is over all the requests, and
    -- `order` gives its schedule, and the context its answers, as of the round after k.
    unfoldable pub final_gap :
        List OdPair → List RouteRequest → ℕ → List Route → List Float → Outcome StepResult
    final_gap pairs reqs k routes next = gap_of g bpr routes next (
        assign_aon g incremental_name (weight_from_flows bpr next) ctx (suc k) procs (order (suc k))
          pairs reqs)

    unfoldable pub after_batch :
        List OdPair
        → List RouteRequest
        → ℕ
        → List Route
        → List Float
        → Outcome AssignOutcome
        → Outcome StepResult
    unfolding final_gap fold_in
    after_batch pairs reqs k held flow (failed e) = failed e
    after_batch pairs reqs k held flow (done outcome) =
        let routes = copy_range (range_at reqs k) outcome.routes held in
        let next = fold_in flow outcome.flows g.edge_count 0 in
        if k - 1 == length (bounds_of reqs) - 1
        then final_gap pairs reqs k routes next
        else done
            (record { next = next; routes = routes; gap = partial_load_gap; finished = false })

    -- The step of AssignResult; `order k` is the schedule of its workers in the round k.
    unfoldable pub incremental_step : List OdPair → List RouteRequest → IterationStep
    unfolding after_batch
    incremental_step pairs reqs k held flow = after_batch pairs reqs k held flow (
        assign_aon g incremental_name (weight_from_flows bpr flow) ctx k procs (order k)
          (slice (range_at reqs k) pairs) (slice (range_at reqs k) reqs))

    -- AssignResult
    unfoldable pub incremental_result : List RouteRequest → Outcome AssignResult
    unfolding incremental_step
    incremental_result reqs = elim (prefetch_od g incremental_name reqs) [
      | failed e ↦ failed e
      | done pairs ↦
          run_convergence_loop ctx g (incremental_step pairs reqs)
            (replicate (length reqs) no_route)
    ]

    -- Route: routeSingleFreeFlow under the strategy's name.
    pub incremental_route : RouteRequest → Outcome Route
    incremental_route = route g incremental_name free_flow_weight (λ dst. none) ctx
