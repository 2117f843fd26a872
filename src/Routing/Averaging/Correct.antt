-- ===== src/Routing/Averaging/Correct.antt =====
-- The averaging strategies answer their batch.
use convergent_routing_analy.Prelude.{
  ℕ, suc, ◌≤◌, ◌<◌, ◌≡◌, ◌⊎◌, inl, inr, refl, sym, ◌∙◌, ap, subst, Bool, true, false, ◌||◌, ℤ, List,
  [], length, arith,
}
use convergent_routing_analy.Float.{Float64, Laws, Float, lt}
use convergent_routing_analy.Graph.{Graph, IsGraph}
use convergent_routing_analy.Heap.Order.{Has}
use convergent_routing_analy.Routing.Dijkstra.Walks.{NonNegWeight}
use convergent_routing_analy.Routing.Requests.{
  Context, RouteRequest, AssignResult, RouteError, at_round, Outcome, done, failed, OdPair,
  prefetch_od, new_flow_vector,
}
use convergent_routing_analy.Routing.SinglePass.Served.{SnapsToNodes, AllServed, Explained}
use convergent_routing_analy.Routing.SinglePass.Search.{AllSnapped, AllSnappedOr, prefetch_od_lem}
use convergent_routing_analy.Routing.FanOut.{AssignOutcome, workers_for}
use convergent_routing_analy.Routing.FanOut.Worker.{AllSnapped-length}
use convergent_routing_analy.Routing.FanOut.Correct.{AonAnswers, assign_aon-AonAnswers}
use convergent_routing_analy.Routing.Convergence.{
  gap_tolerance, relative_gap, max_iterations, run_convergence_loop,
}
use convergent_routing_analy.Routing.Convergence.Ends.{
  Stopped, Broken, Ends, run_convergence_loop-Ends,
}
use convergent_routing_analy.Routing.Averaging.{Strategy, averaging_step, averaging_result}
use convergent_routing_analy.Routing.Averaging.Trace.{
  IsAverage, pass, Averages, Steps, averaging_step-Steps, averaged-IsAverage, Reached-Averages,
}

or_no : (a : Bool) → (a || false) ≡ a
or_no a = ground arith

module _ ⦃f : Float64⦄ (laws : Laws f) (g : Graph) (ok : IsGraph g) (snaps : SnapsToNodes g)
    (strategy : Strategy) (ctx : Context) (procs : ℤ) (order : ℕ → List ℕ)
    (reqs : List RouteRequest)
    (complete : (k worker : ℕ) → worker < workers_for procs (length reqs) → Has 0 (order k) worker)
    (w : (pairs : List OdPair) (k : ℕ) (x : List Float)
      → AllSnapped g strategy.name reqs pairs
      → Averages g strategy ctx procs order reqs pairs k x
      → NonNegWeight g (strategy.weight x)) where
  -- The result is that of the round k + 1, which averaged the load of its pass into the flow x that
  -- the k rounds before it have led to.
  pub record Averaged (pairs : List OdPair) (r : AssignResult) : Type 0 where
    pub k : ℕ
    pub x : List Float
    pub before : Averages g strategy ctx procs order reqs pairs k x
    pub o : AssignOutcome
    pub passed : pass g strategy ctx procs order reqs pairs (suc k) x ≡ done o
    pub served : AllServed g strategy.name (strategy.weight x) reqs r.routes
    pub average : IsAverage g.edge_count (suc k) x o.flows r.final_flows
    pub gap : r.gap ≡ relative_gap (strategy.total x) o.total_sp
    pub rounds : r.iters ≡ suc k
    pub budget : r.iters ≤ max_iterations
    pub met : r.converged ≡ lt r.gap gap_tolerance
    pub reason : (r.converged ≡ true) ⊎ ((r.converged ≡ false) × (r.iters ≡ max_iterations))

  -- The error is explained under the flow that the rounds before it have led to.
  pub record Failed (e : RouteError) : Type 0 where
    pub pairs : List OdPair
    pub snapped : AllSnapped g strategy.name reqs pairs
    pub k : ℕ
    pub x : List Float
    pub before : Averages g strategy ctx procs order reqs pairs k x
    pub explained : Explained g strategy.name (strategy.weight x) ctx reqs e

  abbrev pub AveragingAnswers : Outcome AssignResult → Type 0
  AveragingAnswers (done r) =
      (pairs : List OdPair) × AllSnapped g strategy.name reqs pairs × Averaged pairs r
  AveragingAnswers (failed e) =
      Explained g strategy.name (strategy.weight (new_flow_vector g)) ctx reqs e ⊎ Failed e

  module _ (pairs : List OdPair) (all : AllSnapped g strategy.name reqs pairs) where
    pass-AonAnswers :
        (k : ℕ) (x : List Float) (before : Averages g strategy ctx procs order reqs pairs k x)
        → AonAnswers laws g ok snaps strategy.name
            (strategy.weight x)
            (w pairs k x all before)
            ctx
            (suc k)
            pairs
            reqs
            all
            (pass g strategy ctx procs order reqs pairs (suc k) x)
    pass-AonAnswers k x before =
        assign_aon-AonAnswers laws g ok snaps strategy.name (strategy.weight x)
          (w pairs k x all before) ctx (suc k) pairs reqs all procs (order (suc k))
          (subst (λ n. (worker : ℕ) → worker < workers_for procs n → Has 0 (order (suc k)) worker)
            (AllSnapped-length g strategy.name reqs pairs all) (complete (suc k)))

    Stopped-Averaged :
        (r : AssignResult)
        → Stopped ctx
            (averaging_step g strategy ctx procs order pairs reqs)
            []
            (new_flow_vector g)
            r
        → Averaged pairs r
    Stopped-Averaged r ends =
        let before = Reached-Averages g strategy ctx procs order reqs pairs ends.reached in
        let (o, passed, same) =
          subst (Steps g strategy ctx procs order reqs pairs (suc ends.k) ends.x) ends.last (
            averaging_step-Steps g strategy ctx procs order reqs pairs (suc ends.k) ends.m
              ends.x) in
        let answers =
          subst
            (AonAnswers laws g ok snaps strategy.name (strategy.weight ends.x)
              (w pairs ends.k ends.x all before) ctx (suc ends.k) pairs reqs all)
            passed (pass-AonAnswers ends.k ends.x before) in
        subst (Averaged pairs) (sym ends.result) (record {
          k = ends.k;
          x = ends.x;
          before = before;
          o = o;
          passed = passed;
          served =
              subst (λ z. AllServed g strategy.name (strategy.weight ends.x) reqs z.routes)
                (sym same) (answers.0);
          average = averaged-IsAverage g strategy ctx procs order reqs pairs o ends.s same;
          gap = ap (λ z. z.gap) same;
          rounds = refl;
          budget = ends.budget;
          met =
              ap (λ z. lt ends.s.gap gap_tolerance || z.finished) same
              ∙ or_no (lt ends.s.gap gap_tolerance);
          reason =
              subst
                (λ z. (z.converged ≡ true) ⊎ ((z.converged ≡ false) × (z.iters ≡ max_iterations)))
                ends.result ends.reason;
        })

    Broken-Failed :
        (e : RouteError)
        → Broken ctx (averaging_step g strategy ctx procs order pairs reqs) [] (new_flow_vector g) e
        → Failed e
    Broken-Failed e ends =
        let before = Reached-Averages g strategy ctx procs order reqs pairs ends.reached in
        record {
          pairs = pairs;
          snapped = all;
          k = ends.k;
          x = ends.x;
          before = before;
          explained = elim ends.cause [
            | inl (same, stop) ↦ inl (same, (at_round (suc ends.k), stop))
            | inr failure ↦
                subst
                  (AonAnswers laws g ok snaps strategy.name (strategy.weight ends.x)
                    (w pairs ends.k ends.x all before) ctx (suc ends.k) pairs reqs all)
                  (subst (Steps g strategy ctx procs order reqs pairs (suc ends.k) ends.x) failure (
                    averaging_step-Steps g strategy ctx procs order reqs pairs (suc ends.k) ends.m
                      ends.x))
                  (pass-AonAnswers ends.k ends.x before)
          ];
        }

    Ends-AveragingAnswers :
        (o : Outcome AssignResult)
        → Ends ctx (averaging_step g strategy ctx procs order pairs reqs) [] (new_flow_vector g) o
        → AveragingAnswers o
    Ends-AveragingAnswers (done r) ends = (pairs, all, Stopped-Averaged r ends)
    Ends-AveragingAnswers (failed e) ends = inr (Broken-Failed e ends)

  -- AssignResult of MSA and of system-optimal routing, on a graph that keeps the port's laws and
  -- whose NearestNode answers with nodes, for any number of processors and any schedules in which
  -- every worker occurs, with weights that are non-negative under each flow that its rounds lead to:
  -- from no flow, the round k moves the flow on each edge the k-th part of the way to the load of
  -- its own all-or-nothing pass under the weights of the flow so far. A result has the routes of its
  -- last round, one per request in order, each at least cost under the weights of the flow that this
  -- round started from, and as its flow on each edge the average that this round made; its gap is
  -- that between the total of the starting flow and the pass's, it says converged exactly if the
  -- gap is below the tolerance, and otherwise all 100 rounds are spent. An error is a cancelled
  -- context or the true cause of a request's failure, under the flow of its round.
  pub averaging_result-AveragingAnswers :
      AveragingAnswers (averaging_result g strategy ctx procs order reqs)
  unfolding averaging_result
  averaging_result-AveragingAnswers =
      after_snap (prefetch_od g strategy.name reqs)
        (prefetch_od_lem g strategy.name (strategy.weight (new_flow_vector g)) reqs)
    where
      after_snap :
          (o : Outcome (List OdPair))
          → AllSnappedOr g strategy.name (strategy.weight (new_flow_vector g)) reqs o
          → AveragingAnswers (elim o [
            | failed e ↦ failed e
            | done pairs ↦
                run_convergence_loop ctx g (averaging_step g strategy ctx procs order pairs reqs) []
          ])
      after_snap (failed e) p = inl (inr p)
      after_snap (done pairs) all = Ends-AveragingAnswers pairs all _ (
          run_convergence_loop-Ends ctx (averaging_step g strategy ctx procs order pairs reqs) g [])
