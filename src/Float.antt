-- ===== src/Float.antt =====
-- float64, as an interface: the carrier, the operations that the engine applies to it, and the laws
-- of IEEE 754 arithmetic (round to nearest, no NaN in range of a law's premises) that its proofs use.
-- No law says that addition is associative or exact.
use convergent_routing_analy.Prelude.{ℕ, suc, ℤ, ◌≡◌, Bool, true, false}

pub record Float64 : Type 1 where
  pub Carrier : Type 0
  -- float64(n)
  pub of_nat : ℕ → Carrier
  -- math.Inf(1)
  pub inf : Carrier
  pub add : Carrier → Carrier → Carrier
  pub sub : Carrier → Carrier → Carrier
  pub mul : Carrier → Carrier → Carrier
  pub div : Carrier → Carrier → Carrier
  -- `a < b`, `a <= b` and math.IsInf(a, 1)
  pub lt : Carrier → Carrier → Bool
  pub le : Carrier → Carrier → Bool
  pub is_inf : Carrier → Bool
  -- math.Abs and math.Pow
  pub abs : Carrier → Carrier
  pub pow : Carrier → Carrier → Carrier
  -- math.Pi, math.Sin, math.Cos, math.Sqrt and math.Atan2
  pub pi : Carrier
  pub sin : Carrier → Carrier
  pub cos : Carrier → Carrier
  pub sqrt : Carrier → Carrier
  pub atan2 : Carrier → Carrier → Carrier
  -- math.Floor, int(a) and `a == b`
  pub floor : Carrier → Carrier
  pub to_int : Carrier → ℤ
  pub eq : Carrier → Carrier → Bool

module _ ⦃f : Float64⦄ where
  abbrev pub Float : Type 0
  Float = f.Carrier

  abbrev pub of_nat : ℕ → Float
  of_nat = f.of_nat

  abbrev pub inf : Float
  inf = f.inf

  abbrev pub add : Float → Float → Float
  add = f.add

  abbrev pub sub : Float → Float → Float
  sub = f.sub

  abbrev pub mul : Float → Float → Float
  mul = f.mul

  abbrev pub div : Float → Float → Float
  div = f.div

  abbrev pub lt : Float → Float → Bool
  lt = f.lt

  abbrev pub le : Float → Float → Bool
  le = f.le

  abbrev pub is_inf : Float → Bool
  is_inf = f.is_inf

  abbrev pub abs : Float → Float
  abs = f.abs

  abbrev pub pow : Float → Float → Float
  pow = f.pow

  abbrev pub pi : Float
  pi = f.pi

  abbrev pub sin : Float → Float
  sin = f.sin

  abbrev pub cos : Float → Float
  cos = f.cos

  abbrev pub sqrt : Float → Float
  sqrt = f.sqrt

  abbrev pub atan2 : Float → Float → Float
  atan2 = f.atan2

  abbrev pub floor : Float → Float
  floor = f.floor

  abbrev pub to_int : Float → ℤ
  to_int = f.to_int

  abbrev pub eq : Float → Float → Bool
  eq = f.eq

  -- `a <= b` as a statement. NaN is below nothing and above nothing.
  abbrev pub Le : Float → Float → Type 0
  Le a b = le a b ≡ true

  -- Not NaN, and not below zero. Plus infinity is non-negative.
  abbrev pub NonNeg : Float → Type 0
  NonNeg a = Le (of_nat 0) a

-- What IEEE 754 promises of comparisons, of infinity, and of a sum of non-negative numbers.
pub record Laws (f : Float64) : Type 0 where
  pub le_trans : (a b c : f.Carrier) → f.le a b ≡ true → f.le b c ≡ true → f.le a c ≡ true
  pub le_refl : (a : f.Carrier) → f.le (f.of_nat 0) a ≡ true → f.le a a ≡ true
  pub le_of_lt : (a b : f.Carrier) → f.lt a b ≡ true → f.le a b ≡ true
  pub not_lt_of_le : (a b : f.Carrier) → f.le a b ≡ true → f.lt b a ≡ false
  pub le_of_not_lt :
      (a b : f.Carrier)
      → f.le (f.of_nat 0) a ≡ true
      → f.le (f.of_nat 0) b ≡ true
      → f.lt a b ≡ false
      → f.le b a ≡ true
  pub zero_le : f.le (f.of_nat 0) (f.of_nat 0) ≡ true
  pub le_inf : (a : f.Carrier) → f.le (f.of_nat 0) a ≡ true → f.le a f.inf ≡ true
  pub zero-is_inf : f.is_inf (f.of_nat 0) ≡ false
  pub inf-is_inf : f.is_inf f.inf ≡ true
  pub is_inf_of_le :
      (a b : f.Carrier)
      → f.le a b ≡ true
      → f.is_inf a ≡ true
      → f.le (f.of_nat 0) a ≡ true
      → f.is_inf b ≡ true
  -- Rounding is monotone.
  pub add_mono :
      (a b w : f.Carrier)
      → f.le (f.of_nat 0) a ≡ true
      → f.le (f.of_nat 0) w ≡ true
      → f.le a b ≡ true
      → f.le (f.add a w) (f.add b w) ≡ true
  pub le_add :
      (a w : f.Carrier)
      → f.le (f.of_nat 0) a ≡ true
      → f.le (f.of_nat 0) w ≡ true
      → f.le a (f.add a w) ≡ true

-- What IEEE 754 promises of products and quotients of the numbers that the cost functions meet:
-- positive finite factors, and non-negative loads. Rounding is monotone and keeps 0 and 1.
pub record MulLaws (f : Float64) : Type 0 where
  pub zero_le_one : f.le (f.of_nat 0) (f.of_nat 1) ≡ true
  pub lt_of_not_le :
      (a : f.Carrier)
      → f.le (f.of_nat 0) a ≡ true
      → f.le a (f.of_nat 0) ≡ false
      → f.lt (f.of_nat 0) a ≡ true
  -- A number that is not NaN and not negative.
  pub nonneg_of_not_lt :
      (a : f.Carrier) → f.le a a ≡ true → f.lt a (f.of_nat 0) ≡ false → f.le (f.of_nat 0) a ≡ true
  pub add_comm :
      (a b : f.Carrier)
      → f.le (f.of_nat 0) a ≡ true
      → f.le (f.of_nat 0) b ≡ true
      → f.add a b ≡ f.add b a
  pub mul_nonneg :
      (a b : f.Carrier)
      → f.lt (f.of_nat 0) a ≡ true
      → f.is_inf a ≡ false
      → f.le (f.of_nat 0) b ≡ true
      → f.le (f.of_nat 0) (f.mul a b) ≡ true
  pub le_mul :
      (a b : f.Carrier)
      → f.lt (f.of_nat 0) a ≡ true
      → f.is_inf a ≡ false
      → f.le (f.of_nat 1) b ≡ true
      → f.le a (f.mul a b) ≡ true
  pub mul_mono :
      (a b c : f.Carrier)
      → f.lt (f.of_nat 0) a ≡ true
      → f.is_inf a ≡ false
      → f.le (f.of_nat 0) b ≡ true
      → f.le b c ≡ true
      → f.le (f.mul a b) (f.mul a c) ≡ true
  pub mul_mono_left :
      (a b c : f.Carrier)
      → f.lt (f.of_nat 0) a ≡ true
      → f.is_inf b ≡ false
      → f.le a b ≡ true
      → f.le (f.of_nat 0) c ≡ true
      → f.le (f.mul a c) (f.mul b c) ≡ true
  pub mul_small :
      (a b : f.Carrier)
      → f.le (f.of_nat 0) a ≡ true
      → f.le a (f.of_nat 1) ≡ true
      → f.le (f.of_nat 0) b ≡ true
      → f.le b (f.of_nat 1) ≡ true
      → (f.le (f.of_nat 0) (f.mul a b) ≡ true) × (f.le (f.mul a b) (f.of_nat 1) ≡ true)
  pub mul_large :
      (a b : f.Carrier)
      → f.le (f.of_nat 1) a ≡ true
      → f.le (f.of_nat 1) b ≡ true
      → f.le (f.of_nat 1) (f.mul a b) ≡ true
  pub div_nonneg :
      (a b : f.Carrier)
      → f.le (f.of_nat 0) a ≡ true
      → f.is_inf a ≡ false
      → f.lt (f.of_nat 0) b ≡ true
      → f.le (f.of_nat 0) (f.div a b) ≡ true
  pub pow_nonneg :
      (a b : f.Carrier)
      → f.le (f.of_nat 0) a ≡ true
      → f.le (f.of_nat 0) b ≡ true
      → f.le (f.of_nat 0) (f.pow a b) ≡ true

-- What IEEE 754 promises of quotients of non-negative numbers: rounding is monotone.
pub record DivLaws (f : Float64) : Type 0 where
  pub one-is_inf : f.is_inf (f.of_nat 1) ≡ false
  pub of_nat_positive : (n : ℕ) → f.lt (f.of_nat 0) (f.of_nat (suc n)) ≡ true
  pub div_mono :
      (a b c : f.Carrier)
      → f.le (f.of_nat 0) a ≡ true
      → f.le a b ≡ true
      → f.lt (f.of_nat 0) c ≡ true
      → f.is_inf c ≡ false
      → f.le (f.div a c) (f.div b c) ≡ true
  pub div_antitone :
      (a b c : f.Carrier)
      → f.le (f.of_nat 0) a ≡ true
      → f.is_inf a ≡ false
      → f.lt (f.of_nat 0) b ≡ true
      → f.le b c ≡ true
      → f.is_inf c ≡ false
      → f.le (f.div a c) (f.div a b) ≡ true
