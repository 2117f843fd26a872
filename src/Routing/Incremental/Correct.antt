-- ===== src/Routing/Incremental/Correct.antt =====
-- Incremental assignment loads every batch, and answers its requests.
use convergent_routing_analy.Prelude.{
  ℕ, suc, ◌<◌, ◌≡◌, ◌⊎◌, inl, inr, sym, ◌∙◌, ap, ap₂, subst, Bool, true, false, ◌||◌, ℤ, List,
  length, get_or, replicate, arith,
}
use convergent_routing_analy.Float.{Float64, Laws, Float, lt}
use convergent_routing_analy.Graph.{Graph, IsGraph}
use convergent_routing_analy.Cost.{Bpr}
use convergent_routing_analy.Heap.Order.{Has}
use convergent_routing_analy.Routing.Dijkstra.Walks.{NonNegWeight}
use convergent_routing_analy.Routing.Requests.{
  Context, RouteRequest, AssignResult, at_round, Outcome, done, failed, OdPair, prefetch_od,
  new_flow_vector,
}
use convergent_routing_analy.Routing.SinglePass.Served.{SnapsToNodes, Explained}
use convergent_routing_analy.Routing.SinglePass.Search.{AllSnapped, AllSnappedOr, prefetch_od_lem}
use convergent_routing_analy.Routing.FanOut.{workers_for, no_route}
use convergent_routing_analy.Routing.Convergence.{
  gap_tolerance, weight_from_flows, StepResult, after_round, max_iterations, run_convergence_loop,
}
use convergent_routing_analy.Routing.Convergence.Ends.{Ends, run_convergence_loop-Ends}
use convergent_routing_analy.Routing.Incremental.{
  incremental_name, partial_load_gap, range_at, incremental_step, incremental_result,
}
use convergent_routing_analy.Routing.Incremental.Filled.{range_last, BatchServed}
use convergent_routing_analy.Routing.Incremental.Loads.{Loads, Reached-Loads}
use convergent_routing_analy.Routing.Incremental.Rounds.{
  IsGap, Failed, StepAnswers, Before-Slots, incremental_step_lem, or_true, true-ne-false,
}

or_false : (a b : Bool) → a ≡ false → b ≡ false → (a || b) ≡ false
or_false a b h i = ap₂ (λ x y. x || y) h i

module _ ⦃f : Float64⦄ (laws : Laws f) (g : Graph) (ok : IsGraph g) (snaps : SnapsToNodes g)
    (bpr : Bpr) (ctx : Context) (procs : ℤ) (order : ℕ → List ℕ) (reqs : List RouteRequest)
    (complete : (k worker : ℕ) → worker < workers_for procs (length reqs) → Has 0 (order k) worker)
    (w : (pairs : List OdPair) (k : ℕ) (x : List Float)
      → AllSnapped g incremental_name reqs pairs
      → Loads g bpr ctx procs order reqs pairs k x
      → NonNegWeight g (weight_from_flows bpr x))
    (partial : lt partial_load_gap gap_tolerance ≡ false) where
  -- Each request has its route, all four batches were loaded, and the result says so.
  pub record Loaded (pairs : List OdPair) (r : AssignResult) : Type 0 where
    pub count : length r.routes ≡ length reqs
    pub served :
        (i : ℕ)
        → i < length reqs
        → BatchServed g bpr ctx procs order reqs pairs i (get_or r.routes i no_route)
    pub loads : Loads g bpr ctx procs order reqs pairs 4 r.final_flows
    pub gap :
        (all : AllSnapped g incremental_name reqs pairs)
        → IsGap laws g ok snaps bpr ctx procs order reqs complete w pairs all 3 r.final_flows r.gap
    pub rounds : r.iters ≡ 4
    pub converged : r.converged ≡ true

  abbrev pub IncrementalAnswers : Outcome AssignResult → Type 0
  IncrementalAnswers (done r) =
      (pairs : List OdPair) × AllSnapped g incremental_name reqs pairs × Loaded pairs r
  IncrementalAnswers (failed e) =
      Explained g incremental_name (weight_from_flows bpr (new_flow_vector g)) ctx reqs e
      ⊎ Failed laws g ok snaps bpr ctx procs order reqs complete w e

  module _ (pairs : List OdPair) (all : AllSnapped g incremental_name reqs pairs) where
    Stopped-Loaded :
        (k : ℕ) (s : StepResult) (r : AssignResult)
        → r ≡ after_round (suc k) s
        → (r.converged ≡ true) ⊎ ((r.converged ≡ false) × (r.iters ≡ max_iterations))
        → k < 4
        → StepAnswers laws g ok snaps bpr ctx procs order reqs complete w pairs all k (done s)
        → Loaded pairs r
    Stopped-Loaded k s r same reason four (filled, loads, inl (last, finished, gap)) =
        let whole : (range_at reqs (suc k)).hi ≡ length reqs =
          ap (λ z. (range_at reqs (suc z)).hi) last ∙ range_last reqs in
        subst (Loaded pairs) (sym same) (record {
          count = filled.0;
          served = λ i h. filled.1 i (subst (λ n. i < n) (sym whole) h);
          loads = subst (λ z. Loads g bpr ctx procs order reqs pairs (suc z) s.next) last loads;
          gap = λ _.
              subst
                (λ z.
                  IsGap laws g ok snaps bpr ctx procs order reqs complete w pairs all z s.next
                    s.gap)
                last gap;
          rounds = ap suc last;
          converged = or_true (lt s.gap gap_tolerance) s.finished finished;
        })
    Stopped-Loaded k s r same reason four (filled, loads, inr (three, going, gap)) =
        let unmet : (lt s.gap gap_tolerance || s.finished) ≡ false =
          or_false (lt s.gap gap_tolerance) s.finished (ap (λ z. lt z gap_tolerance) gap ∙ partial)
            going in
        elim reason [
          | inl met ↦ absurd (true-ne-false (sym met ∙ ap (λ z. z.converged) same ∙ unmet))
          | inr (unmet', spent) ↦
              let here : r.iters ≡ suc k = ap (λ z. z.iters) same in
              let all_spent : r.iters ≡ 100 = spent in absurd (omega (arith, here, all_spent))
        ]

    Ends-IncrementalAnswers :
        (o : Outcome AssignResult)
        → Ends ctx
            (incremental_step g bpr ctx procs order pairs reqs)
            (replicate (length reqs) no_route)
            (new_flow_vector g)
            o
        → IncrementalAnswers o
    Ends-IncrementalAnswers (done r) ends =
        let (four, slots) =
          Before-Slots laws g ok snaps bpr ctx procs order reqs complete w pairs all ends.reached in
        (
          pairs,
          all,
          Stopped-Loaded ends.k ends.s r ends.result ends.reason four (
              subst
                (StepAnswers laws g ok snaps bpr ctx procs order reqs complete w pairs all ends.k)
                ends.last
                (incremental_step_lem laws g ok snaps bpr ctx procs order reqs complete w pairs all
                  ends.k ends.m ends.x four ends.reached slots)),
        )
    Ends-IncrementalAnswers (failed e) ends =
        let (four, slots) =
          Before-Slots laws g ok snaps bpr ctx procs order reqs complete w pairs all ends.reached in
        elim ends.cause [
          | inl (same, stop) ↦ inr (record {
            pairs = pairs;
            snapped = all;
            k = ends.k;
            load = ends.x;
            loads = Reached-Loads g bpr ctx procs order reqs pairs ends.reached;
            explained = inl (same, (at_round (suc ends.k), stop));
          })
          | inr failure ↦ inr (
              subst
                (StepAnswers laws g ok snaps bpr ctx procs order reqs complete w pairs all ends.k)
                failure
                (incremental_step_lem laws g ok snaps bpr ctx procs order reqs complete w pairs all
                  ends.k ends.m ends.x four ends.reached slots))
        ]

  -- AssignResult of incremental assignment, on a graph that keeps the port's laws and whose
  -- NearestNode answers with nodes, for any number of processors and any schedules in which every
  -- worker occurs, if 1 is not below the gap tolerance, with weights that are non-negative under
  -- each load that its batches lead to: from no load, a batch adds on each edge the load of its own
  -- pass under the weights of the load so far. A result has taken exactly four rounds and says
  -- converged; it has one route per request in the order of the requests, each at least cost under
  -- the weights of the load that the batches before that request's own have left; its flow is the
  -- load after four batches, and its gap is that flow's against a pass over all the requests. An
  -- error is a cancelled context or the true cause of a request's failure, under the load of its
  -- round.
  pub incremental_result-IncrementalAnswers :
      IncrementalAnswers (incremental_result g bpr ctx procs order reqs)
  unfolding incremental_result
  incremental_result-IncrementalAnswers =
      after_snap (prefetch_od g incremental_name reqs)
        (prefetch_od_lem g incremental_name (weight_from_flows bpr (new_flow_vector g)) reqs)
    where
      after_snap :
          (o : Outcome (List OdPair))
          → AllSnappedOr g incremental_name (weight_from_flows bpr (new_flow_vector g)) reqs o
          → IncrementalAnswers (elim o [
            | failed e ↦ failed e
            | done pairs ↦
                run_convergence_loop ctx g
                  (incremental_step g bpr ctx procs order pairs reqs)
                  (replicate (length reqs) no_route)
          ])
      after_snap (failed e) p = inl (inr p)
      after_snap (done pairs) all = Ends-IncrementalAnswers pairs all _ (
          run_convergence_loop-Ends ctx (incremental_step g bpr ctx procs order pairs reqs) g
            (replicate (length reqs) no_route))
