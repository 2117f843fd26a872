-- ===== src/Routing/Incremental/Rounds.antt =====
-- A round of incremental assignment fills the slots of its batch.
use convergent_routing_analy.Prelude.{
  ℕ, suc, ◌-◌, ◌≤◌, ◌<◌, ◌≡◌, ◌≢◌, ◌⊎◌, inl, inr, refl, sym, ◌∙◌, subst, Bool, true, false, ◌||◌, ℤ,
  List, length, replicate, length-replicate, ◌==◌, Bool-cases, arith,
}
use convergent_routing_analy.Float.{Float64, Laws, Float, lt}
use convergent_routing_analy.Graph.{Graph, IsGraph}
use convergent_routing_analy.Cost.{Bpr}
use convergent_routing_analy.Heap.Order.{Has}
use convergent_routing_analy.Routing.Dijkstra.Walks.{NonNegWeight}
use convergent_routing_analy.Routing.Requests.{
  Context, RouteRequest, Route, RouteError, Outcome, done, failed, OdPair, new_flow_vector,
}
use convergent_routing_analy.Routing.SinglePass.Served.{SnapsToNodes, Explained}
use convergent_routing_analy.Routing.SinglePass.Search.{AllSnapped}
use convergent_routing_analy.Routing.FanOut.{AssignOutcome, assign_aon, workers_for, no_route}
use convergent_routing_analy.Routing.FanOut.Worker.{AllSnapped-length}
use convergent_routing_analy.Routing.FanOut.Correct.{AonAnswers, assign_aon-AonAnswers}
use convergent_routing_analy.Routing.Convergence.{
  gap_tolerance, weight_from_flows, total_network_time, relative_gap, StepResult,
}
use convergent_routing_analy.Routing.Convergence.Ends.{Reached, no_rounds, one_round}
use convergent_routing_analy.Routing.Batches.{BatchRange}
use convergent_routing_analy.Routing.Incremental.{
  slice, copy_range, incremental_name, partial_load_gap, fold_in, bounds_of, range_at, final_gap,
  gap_of, after_batch, incremental_step,
}
use convergent_routing_analy.Routing.Incremental.Filled.{
  count_batches, range_first, range_next, workers_for-le, Filled, Filled-copy_range,
}
use convergent_routing_analy.Routing.Incremental.Loads.{
  fold_in-IsSum, batch_pass, Loads, one_batch, Reached-Loads,
}
use convergent_routing_analy.Routing.Incremental.Slices.{
  length-slice-le, AllSnapped-slice, BlamesOne-slice,
}

pub or_true : (a b : Bool) → b ≡ true → (a || b) ≡ true
or_true true b h = refl
or_true false b h = h

pub true-ne-false : true ≢ false
true-ne-false h = cc

module _ ⦃f : Float64⦄ (laws : Laws f) (g : Graph) (ok : IsGraph g) (snaps : SnapsToNodes g)
    (bpr : Bpr) (ctx : Context) (procs : ℤ) (order : ℕ → List ℕ) (reqs : List RouteRequest)
    (complete : (k worker : ℕ) → worker < workers_for procs (length reqs) → Has 0 (order k) worker)
    (w : (pairs : List OdPair) (k : ℕ) (x : List Float)
      → AllSnapped g incremental_name reqs pairs
      → Loads g bpr ctx procs order reqs pairs k x
      → NonNegWeight g (weight_from_flows bpr x)) where
  -- The error is explained under the load that the batches before it have left.
  pub record Failed (e : RouteError) : Type 0 where
    pub pairs : List OdPair
    pub snapped : AllSnapped g incremental_name reqs pairs
    pub k : ℕ
    pub load : List Float
    pub loads : Loads g bpr ctx procs order reqs pairs k load
    pub explained : Explained g incremental_name (weight_from_flows bpr load) ctx reqs e

  module _ (pairs : List OdPair) (all : AllSnapped g incremental_name reqs pairs) where
    abbrev pub Load : ℕ → List Float → Type 0
    Load = Loads g bpr ctx procs order reqs pairs

    abbrev pub Before : ℕ → List Route → List Float → Type 0
    Before =
        Reached ctx (incremental_step g bpr ctx procs order pairs reqs)
          (replicate (length reqs) no_route) (new_flow_vector g)

    abbrev loads_of : {k : ℕ} {m : List Route} {x : List Float} → Before k m x → Load k x
    loads_of reached = Reached-Loads g bpr ctx procs order reqs pairs reached

    abbrev pub Slots : ℕ → List Route → Type 0
    Slots = Filled g bpr ctx procs order reqs pairs

    -- The gap of the load `next` against a pass over all the requests under it.
    abbrev pub IsGap : ℕ → List Float → Float → Type 0
    IsGap k next gap =
        (o : AssignOutcome) × (assign_aon g incremental_name (weight_from_flows bpr next) ctx
            (suc (suc k)) procs (order (suc (suc k))) pairs reqs
          ≡ done o)
        × (gap ≡ relative_gap (total_network_time g bpr next) o.total_sp)

    -- The last batch is the fourth, and says so.
    abbrev pub Says : ℕ → StepResult → Type 0
    Says k s =
        ((k ≡ 3) × (s.finished ≡ true) × IsGap k s.next s.gap)
        ⊎ ((k < 3) × (s.finished ≡ false) × (s.gap ≡ partial_load_gap))

    abbrev pub StepAnswers : ℕ → Outcome StepResult → Type 0
    StepAnswers k (done s) =
        Slots (range_at reqs (suc k)).hi s.routes × Load (suc k) s.next × Says k s
    StepAnswers k (failed e) = Failed e

    final_gap_lem :
        (k : ℕ) (routes : List Route) (next : List Float)
        → k ≡ 3
        → Slots (range_at reqs (suc k)).hi routes
        → Load (suc k) next
        → StepAnswers k (final_gap g bpr ctx procs order pairs reqs (suc k) routes next)
    unfolding final_gap
    final_gap_lem k routes next last slots loads =
        after_pass
          (assign_aon g incremental_name (weight_from_flows bpr next) ctx (suc (suc k)) procs
            (order (suc (suc k))) pairs reqs)
          refl
          (assign_aon-AonAnswers laws g ok snaps incremental_name (weight_from_flows bpr next)
            (w pairs (suc k) next all loads) ctx (suc (suc k)) pairs reqs all procs
            (order (suc (suc k)))
            (subst
              (λ n.
                (worker : ℕ) → worker < workers_for procs n → Has 0 (order (suc (suc k))) worker)
              (AllSnapped-length g incremental_name reqs pairs all) (complete (suc (suc k)))))
      where
        after_pass :
            (o : Outcome AssignOutcome)
            → assign_aon g incremental_name
                (weight_from_flows bpr next)
                ctx
                (suc (suc k))
                procs
                (order (suc (suc k)))
                pairs
                reqs
              ≡ o
            → AonAnswers laws g ok snaps incremental_name
                (weight_from_flows bpr next)
                (w pairs (suc k) next all loads)
                ctx
                (suc (suc k))
                pairs
                reqs
                all
                o
            → StepAnswers k (gap_of g bpr routes next o)
        after_pass (failed e) passed p = record {
          pairs = pairs;
          snapped = all;
          k = suc k;
          load = next;
          loads = loads;
          explained = p;
        }
        after_pass (done o) passed p = (slots, loads, inl (last, refl, (o, passed, refl)))

    after_batch_lem :
        (k : ℕ) (m : List Route) (x : List Float)
        → k < 4
        → (reached : Before k m x) → Slots (range_at reqs (suc k)).lo m
        → (o : Outcome AssignOutcome) → batch_pass g bpr ctx procs order reqs pairs (suc k) x ≡ o
        → AonAnswers laws g ok snaps incremental_name
            (weight_from_flows bpr x)
            (w pairs k x all (loads_of reached))
            ctx
            (suc k)
            (slice (range_at reqs (suc k)) pairs)
            (slice (range_at reqs (suc k)) reqs)
            (AllSnapped-slice g incremental_name (range_at reqs (suc k)) reqs pairs all)
            o
        → StepAnswers k (after_batch g bpr ctx procs order pairs reqs (suc k) m x o)
    unfolding after_batch
    after_batch_lem k m x four reached slots (failed e) passed p = record {
      pairs = pairs;
      snapped = all;
      k = k;
      load = x;
      loads = loads_of reached;
      explained = elim p [
        | inl stopped ↦ inl stopped
        | inr blamed ↦ inr (
            BlamesOne-slice g incremental_name (weight_from_flows bpr x) (range_at reqs (suc k))
              reqs blamed)
      ];
    }
    after_batch_lem k m x four reached slots (done o) passed (served, size) =
        let routes = copy_range (range_at reqs (suc k)) o.routes m in
        let next = fold_in x o.flows g.edge_count 0 in
        let filled =
          Filled-copy_range g bpr ctx procs order reqs pairs k m x o.routes four reached slots
            served in
        let loads : Load (suc k) next =
          one_batch o (loads_of reached) passed (fold_in-IsSum g.edge_count x o.flows) in
        elim (Bool-cases (suc k - 1 == length (bounds_of reqs) - 1)) [
          | inl last ↦
              rw last (
                final_gap_lem k routes next (ground (arith, last, count_batches reqs)) filled loads)
          | inr more ↦
              rw more
                (filled, loads, inr (ground (arith, more, four, count_batches reqs), refl, refl))
        ]

    pub incremental_step_lem :
        (k : ℕ) (m : List Route) (x : List Float)
        → k < 4
        → Before k m x
        → Slots (range_at reqs (suc k)).lo m
        → StepAnswers k (incremental_step g bpr ctx procs order pairs reqs (suc k) m x)
    unfolding incremental_step
    incremental_step_lem k m x four reached slots =
        let r = range_at reqs (suc k) in
        let batch = AllSnapped-slice g incremental_name r reqs pairs all in
        after_batch_lem k m x four reached slots _ refl (
          assign_aon-AonAnswers laws g ok snaps incremental_name (weight_from_flows bpr x)
            (w pairs k x all (loads_of reached)) ctx (suc k) (slice r pairs) (slice r reqs) batch
            procs (order (suc k)) (λ worker h. complete (suc k) worker (within r worker h)))
      where
        within :
            (r : BatchRange) (worker : ℕ)
            → worker < workers_for procs (length (slice r pairs))
            → worker < workers_for procs (length reqs)
        within r worker h =
            let fewer : length (slice r pairs) ≤ length reqs = omega (
              arith,
              length-slice-le r pairs,
              AllSnapped-length g incremental_name reqs pairs all,
            ) in
            omega (arith, workers_for-le procs (length (slice r pairs)) (length reqs) fewer)

    -- Rounds that did not stop are of the first three batches, and their slots are filled.
    pub Before-Slots :
        {k : ℕ} {m : List Route} {x : List Float}
        → Before k m x
        → (k < 4) × Slots (range_at reqs (suc k)).lo m
    Before-Slots no_rounds = (
      omega arith,
      (length-replicate (length reqs) no_route, λ i h. absurd (omega (arith, range_first reqs))),
    )
    Before-Slots (one_round {k} {m} {x} s reached go last onward) =
        let (four, slots) = Before-Slots reached in
        next_slots k s onward
          (subst (StepAnswers k) last (incremental_step_lem k m x four reached slots))
      where
        next_slots :
            (k : ℕ) (s : StepResult)
            → (lt s.gap gap_tolerance || s.finished) ≡ false
            → StepAnswers k (done s)
            → (suc k < 4) × Slots (range_at reqs (suc (suc k))).lo s.routes
        next_slots k s onward (filled, loads, inl (last, finished, _)) =
            absurd
              (true-ne-false (sym (or_true (lt s.gap gap_tolerance) s.finished finished) ∙ onward))
        next_slots k s onward (filled, loads, inr (three, going, gap)) =
            (omega arith, subst (λ n. Slots n s.routes) (sym (range_next reqs k three)) filled)
