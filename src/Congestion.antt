-- ===== src/Congestion.antt =====
-- engine/internal/congestion: per-edge load in vehicles per hour. congestion.go and loadstore.go here;
-- the adapters are below.
pub mod Store
pub mod Adapters
pub mod Static
use convergent_routing_analy.Prelude.{
  ℕ, ◌+◌, ◌-◌, Bool, ℤ, pos, negsuc, List, ◌++◌, Option, none, some, length, get_or, set, replicate,
  leb, if◌then◌else◌, in_range,
}
use convergent_routing_analy.Float.{Float64, Float, of_nat}
use convergent_routing_analy.Domain.{EdgeId}

module _ ⦃f : Float64⦄ where
  abbrev pub LoadSnapshot : Type 0
  LoadSnapshot = List Float

  -- LoadSnapshot.Load and LoadStore.Load
  unfoldable pub load : LoadSnapshot → EdgeId → Float
  load loads id = elim (in_range id (length loads)) [
    | none ↦ of_nat 0
    | some i ↦ get_or loads i (of_nat 0)
  ]

  -- A negative count is treated as zero.
  unfoldable pub new_load_store : ℤ → LoadSnapshot
  new_load_store (pos n) = replicate n (of_nat 0)
  new_load_store (negsuc n) = replicate 0 (of_nat 0)

  unfoldable pub grow : LoadSnapshot → ℕ → LoadSnapshot
  grow loads n =
      if leb n (length loads) then loads else loads ++ replicate (n - length loads) (of_nat 0)

  -- LoadStore.Set: a negative id is ignored.
  unfoldable pub set_load : LoadSnapshot → EdgeId → Float → LoadSnapshot
  unfolding grow
  set_load loads (negsuc n) v = loads
  set_load loads (pos i) v = set (grow loads (i + 1)) i v
