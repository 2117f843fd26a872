-- ===== src/Routing/Convergence/Ends.antt =====
-- How the convergence loop ends.
use convergent_routing_analy.Prelude.{
  ℕ, zero, suc, ◌+◌, ◌≤◌, ◌≡◌, ◌⊎◌, inl, inr, refl, true, false, ◌||◌, List, Bool-cases, arith,
}
use convergent_routing_analy.Float.{Float64, Float, lt}
use convergent_routing_analy.Graph.{Graph}
use convergent_routing_analy.Routing.Requests.{
  Context, at_round, Route, AssignResult, RouteError, cancelled, Outcome, done, failed,
  new_flow_vector,
}
use convergent_routing_analy.Routing.Convergence.{
  gap_tolerance, max_iterations, StepResult, IterationStep, after_round, before_rounds, rounds,
  run_convergence_loop,
}

module _ ⦃f : Float64⦄ (ctx : Context) (step : IterationStep) where
  -- `Reached held start k m x`: k rounds lead from the routes `held` and the flows `start` to the
  -- routes m and the flows x, each before a check of
  -- the context that passed, and none of them met the stopping criterion.
  pub data Reached (held : List Route) (start : List Float)
      : ℕ → List Route → List Float → Type 0 where
    no_rounds : Reached held start 0 held start
    one_round :
        {k : ℕ} {m : List Route} {x : List Float} (s : StepResult)
        → Reached held start k m x
        → ctx (at_round (suc k)) ≡ false
        → step (suc k) m x ≡ done s
        → (lt s.gap gap_tolerance || s.finished) ≡ false
        → Reached held start (suc k) s.routes s.next

  -- The result is the last round's, within the budget, and the loop stopped because its gap was
  -- below the tolerance or the step was finished, or because the budget was spent.
  pub record Stopped (held : List Route) (start : List Float) (r : AssignResult) : Type 0 where
    pub k : ℕ
    pub m : List Route
    pub x : List Float
    pub s : StepResult
    pub reached : Reached held start k m x
    pub last : step (suc k) m x ≡ done s
    pub result : r ≡ after_round (suc k) s
    pub budget : suc k ≤ max_iterations
    pub reason : (r.converged ≡ true) ⊎ ((r.converged ≡ false) × (r.iters ≡ max_iterations))

  -- The context was cancelled before a round, or the step of a round failed.
  pub record Broken (held : List Route) (start : List Float) (e : RouteError) : Type 0 where
    pub k : ℕ
    pub m : List Route
    pub x : List Float
    pub reached : Reached held start k m x
    pub cause : ((e ≡ cancelled) × (ctx (at_round (suc k)) ≡ true)) ⊎ (step (suc k) m x ≡ failed e)

  abbrev pub Ends : List Route → List Float → Outcome AssignResult → Type 0
  Ends held start (done r) = Stopped held start r
  Ends held start (failed e) = Broken held start e

  -- A round that ran: the loop stops there, or goes on.
  after_step :
      (held : List Route) (start : List Float) (left k : ℕ) (m : List Route) (r : AssignResult)
      (o : Outcome StepResult)
      → Reached held start k m r.final_flows
      → suc k ≤ max_iterations
      → step (suc k) m r.final_flows ≡ o
      → ((s : StepResult)
          → step (suc k) m r.final_flows ≡ done s
          → (lt s.gap gap_tolerance || s.finished) ≡ false
          → Ends held start (rounds ctx step left (suc (suc k)) s.routes (after_round (suc k) s)))
      → Ends held start (elim o [
        | failed e ↦ failed e
        | done s ↦ elim (lt s.gap gap_tolerance || s.finished) [
          | true ↦ done (after_round (suc k) s)
          | false ↦ rounds ctx step left (suc (suc k)) s.routes (after_round (suc k) s)
        ]
      ])
  after_step held start left k m r (failed e) reached h same onward = record {
    k = k;
    m = m;
    x = r.final_flows;
    reached = reached;
    cause = inr same;
  }
  after_step held start left k m r (done s) reached h same onward =
      elim (Bool-cases (lt s.gap gap_tolerance || s.finished)) [
        | inl stop ↦ rw stop (record {
          k = k;
          m = m;
          x = r.final_flows;
          s = s;
          reached = reached;
          last = same;
          result = refl;
          budget = h;
          reason = inl stop;
        })
        | inr go ↦ rw go (onward s same go)
      ]

  -- One round, with what holds of the rounds after it.
  round_lem :
      (held : List Route) (start : List Float) (left k : ℕ) (m : List Route) (r : AssignResult)
      → Reached held start k m r.final_flows
      → suc k ≤ max_iterations
      → ((s : StepResult)
          → step (suc k) m r.final_flows ≡ done s
          → (lt s.gap gap_tolerance || s.finished) ≡ false
          → Reached held start (suc k) s.routes s.next
          → Ends held start (rounds ctx step left (suc (suc k)) s.routes (after_round (suc k) s)))
      → Ends held start (rounds ctx step (suc left) (suc k) m r)
  unfolding rounds
  round_lem held start left k m r reached h onward = elim (Bool-cases (ctx (at_round (suc k)))) [
    | inl stop ↦
        rw (stop, rounds)
          (record { k = k; m = m; x = r.final_flows; reached = reached; cause = inl (refl, stop) })
    | inr go ↦
        rw (go, rounds)
          (after_step held start left k m r (step (suc k) m r.final_flows) reached h refl
            (λ s same more. onward s same more (one_round s reached go same more)))
  ]

  rounds_lem :
      (held : List Route) (start : List Float) (left k : ℕ) (m : List Route) (r : AssignResult)
      → suc k + left ≡ max_iterations
      → Reached held start k m r.final_flows
      → Ends held start (rounds ctx step (suc left) (suc k) m r)
  unfolding rounds
  rounds_lem held start zero k m r h reached =
      round_lem held start zero k m r reached (omega arith) (λ s same more there. spent s same more)
    where
      spent :
          (s : StepResult)
          → step (suc k) m r.final_flows ≡ done s
          → (lt s.gap gap_tolerance || s.finished) ≡ false
          → Ends held start (rounds ctx step zero (suc (suc k)) s.routes (after_round (suc k) s))
      spent s same more = record {
        k = k;
        m = m;
        x = r.final_flows;
        s = s;
        reached = reached;
        last = same;
        result = refl;
        budget = omega arith;
        reason = inr (more, omega arith);
      }
  rounds_lem held start (suc left) k m r h reached =
      round_lem held start (suc left) k m r reached (omega arith) (λ s same more there.
        rounds_lem held start left (suc k) s.routes (after_round (suc k) s) (omega arith) there)

  -- For any graph, context, step and routes that the step starts with: from the zero flow the loop
  -- runs rounds 1, 2, … each on the flows of the one before and holding its routes, while the gap is
  -- not below the tolerance and the step is not finished. A result is that of its last round, which
  -- is at most the hundredth; it says converged if the criterion was met, and otherwise the hundred
  -- rounds are spent. An error is a context that was cancelled before a round, or the step's own.
  pub run_convergence_loop-Ends :
      (g : Graph) (held : List Route)
      → Ends held (new_flow_vector g) (run_convergence_loop ctx g step held)
  unfolding run_convergence_loop
  run_convergence_loop-Ends g held =
      rounds_lem held (new_flow_vector g) 99 0 held (before_rounds g) refl no_rounds
