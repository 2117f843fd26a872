-- ===== src/Prelude/Int.antt =====
-- Signed integers over the native numbers: the engine's int32 ids and int counters.
use Prim.Native.Nat.{ℕ, ◌<◌}
use mathlib.Core.Path.{◌≡◌, ap}
use mathlib.Core.Bool.{Bool, true, false}
use mathlib.Core.Logic.{◌↔◌}
use mathlib.Core.Option.{Option, none, some}
use native.Mathlib.Omega.{arith}
use convergent_routing_analy.Prelude.Tests.{ltb, ◌==◌, if◌then◌else◌}

-- `negsuc n` is -(n + 1).
pub data ℤ : Type 0 where
  pos : ℕ → ℤ
  negsuc : ℕ → ℤ

-- A slice index. A negative index never passes the guards in front of a read.
abbrev pub to_index : ℤ → ℕ
to_index (pos n) = n
to_index (negsuc n) = 0

pub pos_inj : {a b : ℕ} → pos a ≡ pos b → a ≡ b
pos_inj h = ap to_index h

-- `id < 0 || id >= n`: `none`, else the index that the id is.
abbrev pub in_range : ℤ → ℕ → Option ℕ
in_range (pos i) n = if ltb i n then some i else none
in_range (negsuc i) n = none

-- `a == b` on ids.
abbrev pub eqb_ℤ : ℤ → ℤ → Bool
eqb_ℤ (pos a) (pos b) = a == b
eqb_ℤ (negsuc a) (negsuc b) = a == b
eqb_ℤ (pos a) (negsuc b) = false
eqb_ℤ (negsuc a) (pos b) = false

pub in_range-some : (z : ℤ) (n i : ℕ) → in_range z n ≡ some i → (z ≡ pos i) × (i < n)
in_range-some (pos j) n i h = ground arith
in_range-some (negsuc j) n i h = ground arith

pub in_range-pos : (i n : ℕ) → i < n → in_range (pos i) n ≡ some i
in_range-pos i n h = ground arith

pub eqb_ℤ_iff : (a b : ℤ) → (eqb_ℤ a b ≡ true) ↔ (a ≡ b)
eqb_ℤ_iff (pos a) (pos b) = ground arith
eqb_ℤ_iff (negsuc a) (negsuc b) = ground arith
eqb_ℤ_iff (pos a) (negsuc b) = ground arith
eqb_ℤ_iff (negsuc a) (pos b) = ground arith
