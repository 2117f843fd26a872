-- ===== src/Routing/Averaging/Trace.antt =====
-- The flows that the rounds of an averaging strategy pass through, told from the passes alone.
use convergent_routing_analy.Prelude.{
  ℕ, zero, suc, ◌+◌, ◌<◌, ◌≡◌, inl, inr, refl, sym, ◌∙◌, ap, subst, ℤ, pos, List, length, get_or,
  get_or_out, ltb, Bool-cases, arith,
}
use convergent_routing_analy.Float.{Float64, Float, of_nat, add, sub, mul, div}
use convergent_routing_analy.Graph.{Graph}
use convergent_routing_analy.Routing.Requests.{
  Context, RouteRequest, Route, Outcome, done, failed, OdPair, new_flow_vector,
}
use convergent_routing_analy.Routing.FanOut.{AssignOutcome, assign_aon}
use convergent_routing_analy.Routing.Convergence.{load_at, StepResult}
use convergent_routing_analy.Routing.Convergence.Ends.{Reached, no_rounds, one_round}
use convergent_routing_analy.Routing.Averaging.{Strategy, blend, averaged, averaging_step}

module _ ⦃f : Float64⦄ where
  abbrev pub flow_on : List Float → ℕ → Float
  flow_on x e = get_or x e (of_nat 0)

  pub load_at-flow_on : (x : List Float) (e : ℕ) → load_at x (pos e) ≡ flow_on x e
  unfolding load_at
  load_at-flow_on x e = elim (Bool-cases (ltb e (length x))) [
    | inl within ↦ rw (within, load_at) refl
    | inr out ↦ rw (out, load_at) (sym (get_or_out x e (of_nat 0) (ground (arith, out))))
  ]

  length-blend :
      (s : Float) (flow target : List Float) (k i : ℕ) → length (blend s flow target k i) ≡ k
  unfolding blend
  length-blend s flow target zero i = refl
  length-blend s flow target (suc k) i = ap suc (length-blend s flow target k (suc i))

  flow_on-blend :
      (s : Float) (x y : List Float) (k i e : ℕ)
      → e < k
      → flow_on (blend s x y k i) e
        ≡ add
            (load_at x (pos (i + e)))
            (mul s (sub (load_at y (pos (i + e))) (load_at x (pos (i + e)))))
  unfolding blend
  flow_on-blend s x y zero i e h = absurd (omega arith)
  flow_on-blend s x y (suc k) i zero h =
      ap (λ j. add (load_at x (pos j)) (mul s (sub (load_at y (pos j)) (load_at x (pos j)))))
        {x = i} {y = i + 0} (omega arith)
  flow_on-blend s x y (suc k) i (suc e) h =
      flow_on-blend s x y k (suc i) e (omega arith)
      ∙ ap (λ j. add (load_at x (pos j)) (mul s (sub (load_at y (pos j)) (load_at x (pos j)))))
          {x = suc i + e} {y = i + suc e} (omega arith)

  -- After the round k, which loaded y on x: on each edge x moved the k-th part of the way to y.
  pub record IsAverage (edges k : ℕ) (x y next : List Float) : Type 0 where
    pub size : length next ≡ edges
    pub moved :
        (e : ℕ)
        → e < edges
        → flow_on next e
          ≡ add (flow_on x e) (mul (div (of_nat 1) (of_nat k)) (sub (flow_on y e) (flow_on x e)))

  blend-IsAverage :
      (edges k : ℕ) (x y : List Float)
      → IsAverage edges k x y (blend (div (of_nat 1) (of_nat k)) x y edges 0)
  blend-IsAverage edges k x y = record {
    size = length-blend (div (of_nat 1) (of_nat k)) x y edges 0;
    moved = λ e h.
        let s = div (of_nat 1) (of_nat k) in
        flow_on-blend s x y edges 0 e h
        ∙ ap (λ j. add (load_at x (pos j)) (mul s (sub (load_at y (pos j)) (load_at x (pos j)))))
            {x = 0 + e} {y = e} (omega arith)
        ∙ ap (λ v. add v (mul s (sub (load_at y (pos e)) v))) (load_at-flow_on x e)
        ∙ ap (λ v. add (flow_on x e) (mul s (sub v (flow_on x e)))) (load_at-flow_on y e);
  }

  module _ (g : Graph) (strategy : Strategy) (ctx : Context) (procs : ℤ) (order : ℕ → List ℕ)
      (reqs : List RouteRequest) (pairs : List OdPair) where
    -- The all-or-nothing pass of the round k, under the weights of x.
    abbrev pub pass : ℕ → List Float → Outcome AssignOutcome
    pass k x = assign_aon g strategy.name (strategy.weight x) ctx k procs (order k) pairs reqs

    -- `Averages k x`: k rounds lead from no flow to x, each averaging the load of its own pass in.
    pub data Averages : ℕ → List Float → Type 0 where
      no_flow : Averages 0 (new_flow_vector g)
      averaged_in :
          {k : ℕ} {x next : List Float} (o : AssignOutcome)
          → Averages k x
          → pass (suc k) x ≡ done o
          → IsAverage g.edge_count (suc k) x o.flows next
          → Averages (suc k) next

    -- What a step of the code returns, in terms of its pass.
    abbrev pub Steps : ℕ → List Float → Outcome StepResult → Type 0
    Steps k x (done s) =
        (o : AssignOutcome) × (pass k x ≡ done o) × (s ≡ averaged g strategy ctx procs order k x o)
    Steps k x (failed e) = pass k x ≡ failed e

    pub averaging_step-Steps :
        (k : ℕ) (m : List Route) (x : List Float)
        → Steps k x (averaging_step g strategy ctx procs order pairs reqs k m x)
    unfolding averaging_step
    averaging_step-Steps k m x = after_pass (pass k x) refl
      where
        after_pass :
            (o : Outcome AssignOutcome)
            → pass k x ≡ o
            → Steps k x (elim o [
              | failed e ↦ failed e
              | done outcome ↦ done (averaged g strategy ctx procs order k x outcome)
            ])
        after_pass (failed e) h = h
        after_pass (done o) h = (o, h, refl)

    pub averaged-IsAverage :
        {k : ℕ} {x : List Float} (o : AssignOutcome) (s : StepResult)
        → s ≡ averaged g strategy ctx procs order k x o
        → IsAverage g.edge_count k x o.flows s.next
    averaged-IsAverage {k} {x} o s same =
        subst (λ (z : StepResult). IsAverage g.edge_count k x o.flows z.next) (sym same)
          (blend-IsAverage g.edge_count k x o.flows)

    -- The rounds of the loop are such a trace.
    pub Reached-Averages :
        {held : List Route} {k : ℕ} {m : List Route} {x : List Float}
        → Reached ctx
            (averaging_step g strategy ctx procs order pairs reqs)
            held
            (new_flow_vector g)
            k
            m
            x
        → Averages k x
    Reached-Averages no_rounds = no_flow
    Reached-Averages (one_round {k} {m} {x} s reached go last onward) =
        let (o, passed, same) = subst (Steps (suc k) x) last (averaging_step-Steps (suc k) m x) in
        averaged_in o (Reached-Averages reached) passed (averaged-IsAverage o s same)
