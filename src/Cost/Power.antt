-- ===== src/Cost/Power.antt =====
-- The loop of powBeta ends by its own test.
use convergent_routing_analy.Prelude.{ℕ, ◌/◌, ◌%◌, ◌≡◌, ◌≢◌}
use convergent_routing_analy.Float.{Float64, Float, mul}

module _ ⦃f : Float64⦄ where
  -- `Powers r b n s`: from the result r, the base b and the exponent n the rounds of the loop lead
  -- to the result s, where the exponent is 0.
  pub data Powers : Float → Float → ℕ → Float → Type 0 where
    ended : {r b : Float} → Powers r b 0 r
    odd_round :
        {r b s : Float} (n : ℕ) → n % 2 ≡ 1 → Powers (mul r b) (mul b b) (n / 2) s → Powers r b n s
    even_round :
        {r b s : Float} (n : ℕ) → n ≢ 0 → n % 2 ≡ 0 → Powers r (mul b b) (n / 2) s → Powers r b n s
