-- ===== src/Routing/Incremental/Loads.antt =====
-- The loads that the batches leave, told from their passes alone.
use convergent_routing_analy.Prelude.{
  ℕ, zero, suc, ◌+◌, ◌-◌, ◌<◌, ◌≡◌, inl, inr, refl, ◌∙◌, ap, ap₂, subst, ℤ, pos, List, length, ◌==◌,
  Bool-cases, arith,
}
use convergent_routing_analy.Float.{Float64, Float, add}
use convergent_routing_analy.Graph.{Graph}
use convergent_routing_analy.Cost.{Bpr}
use convergent_routing_analy.Routing.Requests.{
  Context, RouteRequest, Route, Outcome, done, failed, OdPair, new_flow_vector,
}
use convergent_routing_analy.Routing.FanOut.{AssignOutcome, assign_aon}
use convergent_routing_analy.Routing.Convergence.{load_at, weight_from_flows, StepResult}
use convergent_routing_analy.Routing.Convergence.Ends.{Reached, no_rounds, one_round}
use convergent_routing_analy.Routing.Averaging.Trace.{flow_on, load_at-flow_on}
use convergent_routing_analy.Routing.Incremental.{
  slice, incremental_name, fold_in, bounds_of, range_at, final_gap, gap_of, after_batch,
  incremental_step,
}

module _ ⦃f : Float64⦄ where
  pub length-fold_in : (flow batch : List Float) (k i : ℕ) → length (fold_in flow batch k i) ≡ k
  unfolding fold_in
  length-fold_in flow batch zero i = refl
  length-fold_in flow batch (suc k) i = ap suc (length-fold_in flow batch k (suc i))

  flow_on-fold_in :
      (x y : List Float) (k i e : ℕ)
      → e < k
      → flow_on (fold_in x y k i) e ≡ add (load_at x (pos (i + e))) (load_at y (pos (i + e)))
  unfolding fold_in
  flow_on-fold_in x y zero i e h = absurd (omega arith)
  flow_on-fold_in x y (suc k) i zero h =
      ap (λ j. add (load_at x (pos j)) (load_at y (pos j))) {x = i} {y = i + 0} (omega arith)
  flow_on-fold_in x y (suc k) i (suc e) h =
      flow_on-fold_in x y k (suc i) e (omega arith)
      ∙ ap (λ j. add (load_at x (pos j)) (load_at y (pos j))) {x = suc i + e} {y = i + suc e}
          (omega arith)

  -- On each edge the load x and that of the batch y.
  pub record IsSum (edges : ℕ) (x y next : List Float) : Type 0 where
    pub size : length next ≡ edges
    pub added : (e : ℕ) → e < edges → flow_on next e ≡ add (flow_on x e) (flow_on y e)

  pub fold_in-IsSum : (edges : ℕ) (x y : List Float) → IsSum edges x y (fold_in x y edges 0)
  fold_in-IsSum edges x y = record {
    size = length-fold_in x y edges 0;
    added = λ e h.
        flow_on-fold_in x y edges 0 e h
        ∙ ap (λ j. add (load_at x (pos j)) (load_at y (pos j))) {x = 0 + e} {y = e} (omega arith)
        ∙ ap₂ add (load_at-flow_on x e) (load_at-flow_on y e);
  }

  module _ (g : Graph) (bpr : Bpr) (ctx : Context) (procs : ℤ) (order : ℕ → List ℕ)
      (reqs : List RouteRequest) (pairs : List OdPair) where
    -- The pass of the round k over its batch, under the weights of the load x.
    abbrev pub batch_pass : ℕ → List Float → Outcome AssignOutcome
    batch_pass k x =
        assign_aon g incremental_name (weight_from_flows bpr x) ctx k procs (order k)
          (slice (range_at reqs k) pairs) (slice (range_at reqs k) reqs)

    -- `Loads k x`: k batches, each passed under the load of those before it, leave the load x.
    pub data Loads : ℕ → List Float → Type 0 where
      no_load : Loads 0 (new_flow_vector g)
      one_batch :
          {k : ℕ} {x next : List Float} (o : AssignOutcome)
          → Loads k x
          → batch_pass (suc k) x ≡ done o
          → IsSum g.edge_count x o.flows next
          → Loads (suc k) next

    -- A step that succeeds adds the load of its batch.
    abbrev Steps : ℕ → List Float → Outcome StepResult → Type 0
    Steps k x (done s) =
        (o : AssignOutcome) × (batch_pass k x ≡ done o) × IsSum g.edge_count x o.flows s.next
    Steps k x (failed e) = Unit {0}

    incremental_step-Steps :
        (k : ℕ) (m : List Route) (x : List Float)
        → Steps k x (incremental_step g bpr ctx procs order pairs reqs k m x)
    unfolding incremental_step after_batch
    incremental_step-Steps k m x = after_pass (batch_pass k x) refl
      where
        after_gap :
            (o : AssignOutcome) (routes : List Route) (p : Outcome AssignOutcome)
            → batch_pass k x ≡ done o
            → Steps k x (gap_of g bpr routes (fold_in x o.flows g.edge_count 0) p)
        after_gap o routes (failed e) h = tt
        after_gap o routes (done p) h = (o, h, fold_in-IsSum g.edge_count x o.flows)

        after_pass :
            (o : Outcome AssignOutcome)
            → batch_pass k x ≡ o
            → Steps k x (after_batch g bpr ctx procs order pairs reqs k m x o)
        after_pass (failed e) h = tt
        after_pass (done o) h = elim (Bool-cases (k - 1 == length (bounds_of reqs) - 1)) [
          | inl last ↦ rw (last, final_gap) (after_gap o _ _ h)
          | inr more ↦ rw more (o, h, fold_in-IsSum g.edge_count x o.flows)
        ]

    pub Reached-Loads :
        {held : List Route} {k : ℕ} {m : List Route} {x : List Float}
        → Reached ctx
            (incremental_step g bpr ctx procs order pairs reqs)
            held
            (new_flow_vector g)
            k
            m
            x
        → Loads k x
    Reached-Loads no_rounds = no_load
    Reached-Loads (one_round {k} {m} {x} s reached go last onward) =
        let (o, passed, sum) = subst (Steps (suc k) x) last (incremental_step-Steps (suc k) m x) in
        one_batch o (Reached-Loads reached) passed sum
