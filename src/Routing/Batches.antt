-- ===== src/Routing/Batches.antt =====
-- engine/internal/routing/incremental.go: the split of a batch of requests into ranges.
pub mod Cover
use convergent_routing_analy.Prelude.{
  ℕ, zero, suc, ◌+◌, ◌/◌, ◌%◌, ℤ, pos, negsuc, List, [], ◌∷◌, ltb, if◌then◌else◌,
}

abbrev pub incremental_batches : ℤ
incremental_batches = pos 4

-- [lo, hi)
pub record BatchRange : Type 0 where
  pub lo : ℕ
  pub hi : ℕ

-- Fewer than one batch is one.
abbrev pub batch_count : ℤ → ℕ
batch_count (pos zero) = 1
batch_count (pos (suc b)) = suc b
batch_count (negsuc b) = 1

-- The ranges from the batch i on, `k` of them, from the request `at` on.
unfoldable pub bounds_from : ℕ → ℕ → ℕ → ℕ → ℕ → List BatchRange
bounds_from base remainder zero i at = []
bounds_from base remainder (suc k) i at =
    let size = if ltb i remainder then base + 1 else base in
    record { lo = at; hi = at + size } ∷ bounds_from base remainder k (suc i) (at + size)

unfoldable pub batch_bounds : ℕ → ℤ → List BatchRange
unfolding bounds_from
batch_bounds n batches =
    let count = batch_count batches in bounds_from (n / count) (n % count) count 0 0
