-- ===== src/Cost/Bounds.antt =====
-- The cost of an edge never falls below its free-flow time, so routing weights are non-negative.
use convergent_routing_analy.Prelude.{
  ℕ, zero, suc, ◌/◌, ◌%◌, ◌==◌, ◌≡◌, inl, inr, subst, ℤ, pos, negsuc, true, false, Bool-cases,
  if◌then◌else◌,
}
use convergent_routing_analy.Float.{
  Float64, Laws, MulLaws, Float, of_nat, add, mul, div, lt, le, is_inf, pow, to_int, eq, Le, NonNeg,
}
use convergent_routing_analy.Graph.{Edge}
use convergent_routing_analy.Cost.{
  Bpr, Linear, floor_load, pow_loop, pow_beta, bpr_cost, marginal_cost, linear_cost,
}

module _ ⦃f : Float64⦄ where
  -- A positive finite number.
  abbrev pub Positive : Float → Type 0
  Positive a = (lt (of_nat 0) a ≡ true) × (is_inf a ≡ false)

  -- An edge as the loader admits it.
  pub record IsRoad (e : Edge) : Type 0 where
    pub free_flow : Positive e.free_flow_s
    pub capacity : Positive e.capacity_vph

  -- A load that is a number: not NaN, not plus infinity. It may be negative.
  abbrev pub IsLoad : Float → Type 0
  IsLoad a = Le a a × (is_inf a ≡ false)

  -- Coefficients as NewBPR's callers give them; NewBPR itself checks the scale.
  pub record IsBpr (bpr : Bpr) : Type 0 where
    pub alpha : Positive bpr.alpha
    pub beta : NonNeg bpr.beta
    pub scale : Positive bpr.capacity_scale

  module _ (laws : Laws f) (m : MulLaws f) where
    one-nonneg : NonNeg (of_nat 1)
    one-nonneg = m.zero_le_one

    floor_load-nonneg :
        (load : Float) → IsLoad load → NonNeg (floor_load load) × (is_inf (floor_load load) ≡ false)
    unfolding floor_load
    floor_load-nonneg load (num, finite) = elim (Bool-cases (lt load (of_nat 0))) [
      | inl low ↦ rw low (laws.zero_le, laws.zero-is_inf)
      | inr high ↦ rw high (m.nonneg_of_not_lt load num high, finite)
    ]

    -- Squaring keeps to one side of 1.
    pow_loop-small :
        (k : ℕ) (r b : Float) (n : ℕ)
        → NonNeg r
        → Le r (of_nat 1)
        → NonNeg b
        → Le b (of_nat 1)
        → NonNeg (pow_loop k r b n)
    unfolding pow_loop
    pow_loop-small zero r b n r0 r1 b0 b1 = r0
    pow_loop-small (suc k) r b n r0 r1 b0 b1 =
        let (bb0, bb1) = m.mul_small b b b0 b1 b0 b1 in
        let (rb0, rb1) = m.mul_small r b r0 r1 b0 b1 in
        elim (Bool-cases (n == 0)) [
          | inl end ↦ rw end r0
          | inr more ↦ elim (Bool-cases (n % 2 == 1)) [
            | inl odd ↦
                rw (more, odd) (pow_loop-small k (mul r b) (mul b b) (n / 2) rb0 rb1 bb0 bb1)
            | inr even ↦ rw (more, even) (pow_loop-small k r (mul b b) (n / 2) r0 r1 bb0 bb1)
          ]
        ]

    pow_loop-large :
        (k : ℕ) (r b : Float) (n : ℕ)
        → Le (of_nat 1) r
        → Le (of_nat 1) b
        → NonNeg (pow_loop k r b n)
    unfolding pow_loop
    pow_loop-large zero r b n r1 b1 = laws.le_trans _ _ _ one-nonneg r1
    pow_loop-large (suc k) r b n r1 b1 = elim (Bool-cases (n == 0)) [
      | inl end ↦ rw end (laws.le_trans _ _ _ one-nonneg r1)
      | inr more ↦ elim (Bool-cases (n % 2 == 1)) [
        | inl odd ↦
            rw (more, odd)
              (pow_loop-large k (mul r b) (mul b b) (n / 2) (m.mul_large r b r1 b1)
                (m.mul_large b b b1 b1))
        | inr even ↦
            rw (more, even) (pow_loop-large k r (mul b b) (n / 2) r1 (m.mul_large b b b1 b1))
      ]
    ]

    -- No intermediate 0 * Inf: a power of a non-negative ratio is non-negative, even if it
    -- overflows.
    pub pow_beta-nonneg :
        (base beta : Float) → NonNeg base → NonNeg beta → NonNeg (pow_beta base beta)
    unfolding pow_beta
    pow_beta-nonneg base beta b0 e0 = by_int (to_int beta)
      where
        general : NonNeg (pow base beta)
        general = m.pow_nonneg base beta b0 e0

        squares : (n : ℕ) → NonNeg (pow_loop n (of_nat 1) base n)
        squares n = elim (Bool-cases (lt base (of_nat 1))) [
          | inl low ↦
              pow_loop-small n (of_nat 1) base n one-nonneg (laws.le_refl _ one-nonneg) b0
                (laws.le_of_lt base (of_nat 1) low)
          | inr high ↦
              pow_loop-large n (of_nat 1) base n (laws.le_refl _ one-nonneg)
                (laws.le_of_not_lt base (of_nat 1) b0 one-nonneg high)
        ]

        by_int :
            (z : ℤ)
            → NonNeg (elim z [
              | negsuc n ↦ pow base beta
              | pos n ↦ if eq (of_nat n) beta then pow_loop n (of_nat 1) base n else pow base beta
            ])
        by_int (negsuc n) = general
        by_int (pos n) = elim (Bool-cases (eq (of_nat n) beta)) [
          | inl same ↦ rw same (squares n)
          | inr other ↦ rw other general
        ]

    capacity-nonneg :
        (e : Edge) (scale : Float) → IsRoad e → Positive scale → NonNeg (mul e.capacity_vph scale)
    capacity-nonneg e scale road s =
        m.mul_nonneg _ _ (road.capacity.0) (road.capacity.1) (laws.le_of_lt _ _ (s.0))

    -- The load over a positive capacity.
    ratio-nonneg :
        (c load : Float)
        → NonNeg c
        → le c (of_nat 0) ≡ false
        → IsLoad load
        → NonNeg (div (floor_load load) c)
    ratio-nonneg c load c0 usable l =
        let (l0, l1) = floor_load-nonneg load l in
        m.div_nonneg _ _ l0 l1 (m.lt_of_not_le c c0 usable)

    -- A road with positive free-flow time and capacity, under positive coefficients and any load
    -- that is a number, costs at least its free-flow time.
    pub free_flow-bpr_cost :
        (bpr : Bpr) (e : Edge) (load : Float)
        → IsBpr bpr
        → IsRoad e
        → IsLoad load
        → Le e.free_flow_s (bpr_cost bpr e load)
    unfolding bpr_cost
    free_flow-bpr_cost bpr e load b road l =
        let c = mul e.capacity_vph bpr.capacity_scale in
        elim (Bool-cases (le c (of_nat 0))) [
          | inl shut ↦ rw shut (laws.le_refl _ (laws.le_of_lt _ _ (road.free_flow.0)))
          | inr usable ↦ rw usable (
              m.le_mul _ _ (road.free_flow.0) (road.free_flow.1) (
                laws.le_add _ _ one-nonneg (
                  m.mul_nonneg _ _ (b.alpha.0) (b.alpha.1) (
                    pow_beta-nonneg _ _
                      (ratio-nonneg c load (capacity-nonneg e bpr.capacity_scale road b.scale)
                        usable l)
                      b.beta))))
        ]

    -- Under the same conditions, and if alpha * (beta + 1) does not overflow, the marginal cost is at
    -- least the cost.
    pub bpr_cost-marginal_cost :
        (bpr : Bpr) (e : Edge) (load : Float)
        → IsBpr bpr
        → is_inf (mul bpr.alpha (add bpr.beta (of_nat 1))) ≡ false
        → IsRoad e
        → IsLoad load
        → Le (bpr_cost bpr e load) (marginal_cost bpr e load)
    unfolding bpr_cost marginal_cost
    bpr_cost-marginal_cost bpr e load b finite road l =
        let c = mul e.capacity_vph bpr.capacity_scale in
        let steep = mul bpr.alpha (add bpr.beta (of_nat 1)) in
        elim (Bool-cases (le c (of_nat 0))) [
          | inl shut ↦ rw shut (laws.le_refl _ (laws.le_of_lt _ _ (road.free_flow.0)))
          | inr usable ↦
              let ratio =
                ratio-nonneg c load (capacity-nonneg e bpr.capacity_scale road b.scale) usable l in
              let power = pow_beta (div (floor_load load) c) bpr.beta in
              let power0 : NonNeg power = pow_beta-nonneg _ _ ratio b.beta in
              let small0 : NonNeg (mul bpr.alpha power) =
                m.mul_nonneg _ _ (b.alpha.0) (b.alpha.1) power0 in
              let steeper : Le bpr.alpha steep = m.le_mul _ _ (b.alpha.0) (b.alpha.1) (
                subst (λ z. Le (of_nat 1) z) (m.add_comm (of_nat 1) bpr.beta one-nonneg b.beta)
                  (laws.le_add (of_nat 1) bpr.beta one-nonneg b.beta)) in
              let terms : Le (mul bpr.alpha power) (mul steep power) =
                m.mul_mono_left _ _ _ (b.alpha.0) finite steeper power0 in
              rw usable (
                m.mul_mono _ _ _ (road.free_flow.0) (road.free_flow.1)
                  (laws.le_trans _ _ _ one-nonneg (laws.le_add _ _ one-nonneg small0))
                  (one_plus _ _ small0 terms))
        ]
      where
        one_plus : (x y : Float) → NonNeg x → Le x y → Le (add (of_nat 1) x) (add (of_nat 1) y)
        one_plus x y x0 xy =
            subst (λ z. Le z (add (of_nat 1) y)) (m.add_comm x (of_nat 1) x0 one-nonneg)
              (subst (λ z. Le (add x (of_nat 1)) z)
                (m.add_comm y (of_nat 1) (laws.le_trans _ _ _ x0 xy) one-nonneg)
                (laws.add_mono x y (of_nat 1) x0 one-nonneg xy))

    -- The same bound for Linear, with a positive finite slope and scale.
    free_flow-linear_cost :
        (linear : Linear) (e : Edge) (load : Float)
        → Positive linear.slope
        → Positive linear.capacity_scale
        → IsRoad e
        → IsLoad load
        → Le e.free_flow_s (linear_cost linear e load)
    unfolding linear_cost
    free_flow-linear_cost linear e load slope scale road l =
        let c = mul e.capacity_vph linear.capacity_scale in
        elim (Bool-cases (le c (of_nat 0))) [
          | inl shut ↦ rw shut (laws.le_refl _ (laws.le_of_lt _ _ (road.free_flow.0)))
          | inr usable ↦ rw usable (
              m.le_mul _ _ (road.free_flow.0) (road.free_flow.1) (
                laws.le_add _ _ one-nonneg (
                  m.mul_nonneg _ _ (slope.0) (slope.1) (
                    ratio-nonneg c load (capacity-nonneg e linear.capacity_scale road scale) usable
                      l))))
        ]
