-- ===== src/Cost.antt =====
-- engine/internal/cost: the volume-delay functions, BPR (bpr.go) and Linear (linear.go).
pub mod Power
pub mod Bounds
use convergent_routing_analy.Prelude.{
  ℕ, zero, suc, ◌/◌, ◌%◌, ◌==◌, ℤ, pos, negsuc, Option, some, none, if◌then◌else◌,
}
use convergent_routing_analy.Float.{Float64, Float, of_nat, add, mul, div, lt, le, pow, to_int, eq}
use convergent_routing_analy.Graph.{Edge}

module _ ⦃f : Float64⦄ where
  -- The CostFunction port: an edge and its load in vehicles per hour to seconds.
  abbrev pub CostFunction : Type 0
  CostFunction = Edge → Float → Float

  pub record Bpr : Type 0 where
    pub alpha : Float
    pub beta : Float
    pub capacity_scale : Float

  pub record Linear : Type 0 where
    pub slope : Float
    pub capacity_scale : Float

  -- NewBPR and NewLinear: `none` where Go panics.
  pub new_bpr : Float → Float → Float → Option Bpr
  new_bpr alpha beta scale =
      if le scale (of_nat 0)
      then none
      else some (record { alpha = alpha; beta = beta; capacity_scale = scale })

  pub new_linear : Float → Float → Option Linear
  new_linear slope scale =
      if le scale (of_nat 0) then none else some (record { slope = slope; capacity_scale = scale })

  -- 0.15 is the nearest float64 to 15/100, which the division rounds to.
  pub default_bpr : Bpr
  default_bpr = record {
    alpha = div (of_nat 15) (of_nat 100);
    beta = of_nat 4;
    capacity_scale = of_nat 1;
  }

  -- A negative load counts as none.
  unfoldable pub floor_load : Float → Float
  floor_load load = if lt load (of_nat 0) then of_nat 0 else load

  -- Exponentiation by squaring. The exponent halves each round.
  unfoldable pub pow_loop : ℕ → Float → Float → ℕ → Float
  pow_loop zero result base exponent = result
  pow_loop (suc k) result base exponent =
      let result' = if exponent % 2 == 1 then mul result base else result in
      let rest = pow_loop k result' (mul base base) (exponent / 2) in
      if exponent == 0 then result else rest

  unfoldable pub pow_beta : Float → Float → Float
  pow_beta base beta = elim (to_int beta) [
    | negsuc n ↦ pow base beta
    | pos n ↦ if eq (of_nat n) beta then pow_loop n (of_nat 1) base n else pow base beta
  ]

  -- BPR.Cost
  unfoldable pub bpr_cost : Bpr → CostFunction
  bpr_cost bpr edge load =
      let capacity = mul edge.capacity_vph bpr.capacity_scale in
      if le capacity (of_nat 0)
      then edge.free_flow_s
      else mul edge.free_flow_s
          (add (of_nat 1) (mul bpr.alpha (pow_beta (div (floor_load load) capacity) bpr.beta)))

  -- BPR.MarginalCost
  unfoldable pub marginal_cost : Bpr → CostFunction
  marginal_cost bpr edge load =
      let capacity = mul edge.capacity_vph bpr.capacity_scale in
      if le capacity (of_nat 0)
      then edge.free_flow_s
      else mul edge.free_flow_s (
          add (of_nat 1) (
            mul (mul bpr.alpha (add bpr.beta (of_nat 1)))
              (pow_beta (div (floor_load load) capacity) bpr.beta)))

  -- Linear.Cost
  unfoldable pub linear_cost : Linear → CostFunction
  linear_cost linear edge load =
      let capacity = mul edge.capacity_vph linear.capacity_scale in
      if le capacity (of_nat 0)
      then edge.free_flow_s
      else mul edge.free_flow_s (add (of_nat 1) (mul linear.slope (div (floor_load load) capacity)))
