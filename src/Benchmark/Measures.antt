-- ===== src/Benchmark/Measures.antt =====
-- Bounds on the measures.
use convergent_routing_analy.Prelude.{
  ℕ, zero, suc, ◌<◌, inl, inr, List, [], ◌∷◌, length, Bool-cases, arith, get_or,
}
use convergent_routing_analy.Float.{Float64, Laws, Float, of_nat, lt, Le, NonNeg}
use convergent_routing_analy.Benchmark.{max_from, max_of}

module _ ⦃f : Float64⦄ (laws : Laws f) where
  max_from-bounds :
      (vs : List Float) (m : Float)
      → NonNeg m
      → ((i : ℕ) → i < length vs → NonNeg (get_or vs i (of_nat 0)))
      → Le m (max_from m vs)
        × ((i : ℕ) → i < length vs → Le (get_or vs i (of_nat 0)) (max_from m vs))
  unfolding max_from
  max_from-bounds [] m m0 all = (laws.le_refl m m0, λ i h. absurd (omega arith))
  max_from-bounds (v ∷ vs) m m0 all = elim (Bool-cases (lt m v)) [
    | inl up ↦
        let (top, rest) =
          max_from-bounds vs v (all 0 (omega arith)) (λ i h. all (suc i) (omega arith)) in
        rw up (laws.le_trans _ _ _ (laws.le_of_lt m v up) top, λ i h. at v top rest i h)
    | inr down ↦
        let (top, rest) = max_from-bounds vs m m0 (λ i h. all (suc i) (omega arith)) in
        let below = laws.le_of_not_lt m v m0 (all 0 (omega arith)) down in
        rw down (top, λ i h. at m (laws.le_trans _ _ _ below top) rest i h)
  ]
    where
      at :
          (n : Float)
          → Le v (max_from n vs)
          → ((i : ℕ) → i < length vs → Le (get_or vs i (of_nat 0)) (max_from n vs))
          → (i : ℕ) → i < length (v ∷ vs)
          → Le (get_or (v ∷ vs) i (of_nat 0)) (max_from n vs)
      at n own rest zero h = own
      at n own rest (suc i) h = rest i (omega arith)

  -- Of non-negative values, none is above maxOf.
  get_or-max_of :
      (values : List Float) (i : ℕ)
      → ((j : ℕ) → j < length values → NonNeg (get_or values j (of_nat 0)))
      → i < length values
      → Le (get_or values i (of_nat 0)) (max_of values)
  unfolding max_of
  get_or-max_of values i all h = (max_from-bounds values (of_nat 0) laws.zero_le all).1 i h
