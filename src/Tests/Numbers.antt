-- ===== src/Tests/Numbers.antt =====
-- A carrier for the float64 interface on which tests run: the natural numbers and infinity.
use convergent_routing_analy.Prelude.{
  suc, ℕ, ◌+◌, ◌-◌, ◌*◌, ◌/◌, ◌≡◌, refl, Bool, true, false, ltb, leb, arith, pos, negsuc, ap, ◌≤◌,
  ◌<◌, ◌&&◌,
}
use native.Mathlib.Nat.{
  mul_comm, mul-div-le, le-div_iff_mul-le, mul-le-mul_left, mul-le-mul_right, mul-le-mul,
}
use convergent_routing_analy.Float.{Float64, Laws, MulLaws, DivLaws}

pub data Number : Type 0 where
  fin : ℕ → Number
  top : Number

abbrev pub lift : (ℕ → ℕ → ℕ) → Number → Number → Number
lift op (fin a) (fin b) = fin (op a b)
lift op (fin a) top = top
lift op top b = top

abbrev pub lt_number : Number → Number → Bool
lt_number (fin a) (fin b) = ltb a b
lt_number (fin a) top = true
lt_number top b = false

abbrev pub le_number : Number → Number → Bool
le_number (fin a) (fin b) = leb a b
le_number (fin a) top = true
le_number top (fin b) = false
le_number top top = true

abbrev pub is_top : Number → Bool
is_top (fin a) = false
is_top top = true

instance abbrev pub numbers : Float64
numbers = record {
  Carrier = Number;
  of_nat = fin;
  inf = top;
  add = lift ◌+◌;
  sub = lift ◌-◌;
  mul = lift ◌*◌;
  div = lift ◌/◌;
  lt = lt_number;
  le = le_number;
  is_inf = is_top;
  abs = λ a. a;
  pow = λ a b. a;
  pi = fin 3;
  sin = λ a. a;
  cos = λ a. a;
  sqrt = λ a. a;
  atan2 = λ a b. a;
  floor = λ a. a;
  to_int = λ a. elim a [ fin n ↦ pos n | top ↦ negsuc 0 ];
  eq = λ a b. le_number a b && le_number b a;
}

le_trans-number :
    (a b c : Number) → le_number a b ≡ true → le_number b c ≡ true → le_number a c ≡ true
le_trans-number (fin a) (fin b) (fin c) p q = ground arith
le_trans-number (fin a) (fin b) top p q = refl
le_trans-number (fin a) top c p q = ground arith
le_trans-number top (fin b) c p q = cc
le_trans-number top top c p q = q

le_refl-number : (a : Number) → le_number a a ≡ true
le_refl-number (fin a) = ground arith
le_refl-number top = refl

le_of_lt-number : (a b : Number) → lt_number a b ≡ true → le_number a b ≡ true
le_of_lt-number (fin a) (fin b) p = ground arith
le_of_lt-number (fin a) top p = refl
le_of_lt-number top b p = cc

not_lt_of_le-number : (a b : Number) → le_number a b ≡ true → lt_number b a ≡ false
not_lt_of_le-number (fin a) (fin b) p = ground arith
not_lt_of_le-number (fin a) top p = refl
not_lt_of_le-number top (fin b) p = cc
not_lt_of_le-number top top p = refl

le_of_not_lt-number : (a b : Number) → lt_number a b ≡ false → le_number b a ≡ true
le_of_not_lt-number (fin a) (fin b) p = ground arith
le_of_not_lt-number (fin a) top p = cc
le_of_not_lt-number top (fin b) p = refl
le_of_not_lt-number top top p = refl

le_top : (a : Number) → le_number a top ≡ true
le_top (fin a) = refl
le_top top = refl

is_top_of_le : (a b : Number) → le_number a b ≡ true → is_top a ≡ true → is_top b ≡ true
is_top_of_le (fin a) b p q = cc
is_top_of_le top (fin b) p q = cc
is_top_of_le top top p q = refl

add_mono-number :
    (a b w : Number) → le_number a b ≡ true → le_number (lift ◌+◌ a w) (lift ◌+◌ b w) ≡ true
add_mono-number (fin a) (fin b) (fin w) p = ground arith
add_mono-number (fin a) (fin b) top p = refl
add_mono-number (fin a) top (fin w) p = refl
add_mono-number (fin a) top top p = refl
add_mono-number top (fin b) w p = cc
add_mono-number top top w p = refl

le_add-number : (a w : Number) → le_number a (lift ◌+◌ a w) ≡ true
le_add-number (fin a) (fin w) = ground arith
le_add-number (fin a) top = refl
le_add-number top w = refl

pub number_laws : Laws numbers
number_laws = record {
  le_trans = le_trans-number;
  le_refl = λ a p. le_refl-number a;
  le_of_lt = le_of_lt-number;
  not_lt_of_le = not_lt_of_le-number;
  le_of_not_lt = λ a b p q. le_of_not_lt-number a b;
  zero_le = refl;
  le_inf = λ a p. le_top a;
  zero-is_inf = refl;
  inf-is_inf = refl;
  is_inf_of_le = λ a b p q r. is_top_of_le a b p q;
  add_mono = λ a b w p q. add_mono-number a b w;
  le_add = λ a w p q. le_add-number a w;
}

le→leb : (a b : ℕ) → a ≤ b → leb a b ≡ true
le→leb a b h = ground arith

pub le_zero : (a : Number) → le_number (fin 0) a ≡ true
le_zero (fin a) = ground arith
le_zero top = refl

lt_of_not_le-number : (a : Number) → le_number a (fin 0) ≡ false → lt_number (fin 0) a ≡ true
lt_of_not_le-number (fin a) p = ground arith
lt_of_not_le-number top p = refl

add_comm-number : (a b : Number) → lift ◌+◌ a b ≡ lift ◌+◌ b a
add_comm-number (fin a) (fin b) = ap fin (omega arith)
add_comm-number (fin a) top = refl
add_comm-number top (fin b) = refl
add_comm-number top top = refl

le_mul-number : (a b : Number) → le_number (fin 1) b ≡ true → le_number a (lift ◌*◌ a b) ≡ true
le_mul-number (fin a) (fin b) p =
    let h : 1 ≤ b = ground arith in
    let k : a * 1 ≤ a * b = mul-le-mul_left a h in le→leb a (a * b) (omega (arith, k))
le_mul-number (fin a) top p = refl
le_mul-number top b p = refl

mul_mono-number :
    (a b c : Number) → le_number b c ≡ true → le_number (lift ◌*◌ a b) (lift ◌*◌ a c) ≡ true
mul_mono-number (fin a) (fin b) (fin c) p =
    let h : b ≤ c = ground arith in le→leb (a * b) (a * c) (mul-le-mul_left a h)
mul_mono-number (fin a) (fin b) top p = refl
mul_mono-number (fin a) top (fin c) p = cc
mul_mono-number (fin a) top top p = refl
mul_mono-number top b c p = refl

mul_mono_left-number :
    (a b c : Number) → le_number a b ≡ true → le_number (lift ◌*◌ a c) (lift ◌*◌ b c) ≡ true
mul_mono_left-number (fin a) (fin b) (fin c) p =
    let h : a ≤ b = ground arith in le→leb (a * c) (b * c) (mul-le-mul_right c h)
mul_mono_left-number (fin a) (fin b) top p = refl
mul_mono_left-number (fin a) top c p = le_top (lift ◌*◌ (fin a) c)
mul_mono_left-number top (fin b) c p = cc
mul_mono_left-number top top c p = refl

mul_small-number :
    (a b : Number)
    → le_number a (fin 1) ≡ true
    → le_number b (fin 1) ≡ true
    → le_number (lift ◌*◌ a b) (fin 1) ≡ true
mul_small-number (fin a) (fin b) p q =
    let h : a ≤ 1 = ground arith in
    let k : b ≤ 1 = ground arith in le→leb (a * b) 1 (mul-le-mul h k)
mul_small-number (fin a) top p q = cc
mul_small-number top b p q = cc

mul_large-number :
    (a b : Number)
    → le_number (fin 1) a ≡ true
    → le_number (fin 1) b ≡ true
    → le_number (fin 1) (lift ◌*◌ a b) ≡ true
mul_large-number (fin a) (fin b) p q =
    let h : 1 ≤ a = ground arith in
    let k : 1 ≤ b = ground arith in le→leb 1 (a * b) (mul-le-mul h k)
mul_large-number (fin a) top p q = refl
mul_large-number top b p q = refl

pub number_mul_laws : MulLaws numbers
number_mul_laws = record {
  zero_le_one = refl;
  lt_of_not_le = λ a p q. lt_of_not_le-number a q;
  nonneg_of_not_lt = λ a p q. le_zero a;
  add_comm = λ a b p q. add_comm-number a b;
  mul_nonneg = λ a b p q r. le_zero (lift ◌*◌ a b);
  le_mul = λ a b p q r. le_mul-number a b r;
  mul_mono = λ a b c p q r s. mul_mono-number a b c s;
  mul_mono_left = λ a b c p q r s. mul_mono_left-number a b c r;
  mul_small = λ a b p q r s. (le_zero (lift ◌*◌ a b), mul_small-number a b q s);
  mul_large = mul_large-number;
  div_nonneg = λ a b p q r. le_zero (lift ◌/◌ a b);
  pow_nonneg = λ a b p q. le_zero a;
}

div_mono_ℕ : (a b c : ℕ) → a ≤ b → 0 < c → a / c ≤ b / c
div_mono_ℕ a b c h p =
    let low : a / c * c ≤ a = omega (arith, mul-div-le a c, mul_comm (a / c) c) in
    (le-div_iff_mul-le p).1 (omega (arith, low, h))

div_antitone_ℕ : (a b c : ℕ) → 0 < b → b ≤ c → a / c ≤ a / b
div_antitone_ℕ a b c p h =
    let less : a / c * b ≤ a / c * c = mul-le-mul_left (a / c) h in
    let low : a / c * c ≤ a = omega (arith, mul-div-le a c, mul_comm (a / c) c) in
    (le-div_iff_mul-le p).1 (omega (arith, less, low))

div_mono-number :
    (a b c : Number)
    → le_number a b ≡ true
    → lt_number (fin 0) c ≡ true
    → is_top c ≡ false
    → le_number (lift ◌/◌ a c) (lift ◌/◌ b c) ≡ true
div_mono-number (fin a) (fin b) (fin c) p q r =
    le→leb (a / c) (b / c) (div_mono_ℕ a b c (ground arith) (ground arith))
div_mono-number (fin a) top (fin c) p q r = refl
div_mono-number top (fin b) (fin c) p q r = cc
div_mono-number top top (fin c) p q r = refl
div_mono-number a b top p q r = absurd (cc r)

div_antitone-number :
    (a b c : Number)
    → is_top a ≡ false
    → lt_number (fin 0) b ≡ true
    → le_number b c ≡ true
    → is_top c ≡ false
    → le_number (lift ◌/◌ a c) (lift ◌/◌ a b) ≡ true
div_antitone-number (fin a) (fin b) (fin c) o p q r =
    le→leb (a / c) (a / b) (div_antitone_ℕ a b c (ground arith) (ground arith))
div_antitone-number (fin a) top (fin c) o p q r = refl
div_antitone-number (fin a) b top o p q r = absurd (cc r)
div_antitone-number top b c o p q r = absurd (cc o)

zero_lt : (n : ℕ) → ltb 0 (suc n) ≡ true
zero_lt n = ground arith

pub number_div_laws : DivLaws numbers
number_div_laws = record {
  one-is_inf = refl;
  of_nat_positive = zero_lt;
  div_mono = λ a b c o p q r. div_mono-number a b c p q r;
  div_antitone = λ a b c n o p q r. div_antitone-number a b c o p q r;
}
