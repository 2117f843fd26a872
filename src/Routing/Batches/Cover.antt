-- ===== src/Routing/Batches/Cover.antt =====
-- The ranges of a batch split cover the requests in order, evenly.
use convergent_routing_analy.Prelude.{
  ℕ, zero, suc, ◌+◌, ◌-◌, ◌*◌, ◌/◌, ◌%◌, ◌≤◌, ◌<◌, ◌≡◌, ◌⊎◌, ap, inl, inr, refl, subst, ℤ, pos,
  negsuc, List, [], ◌∷◌, ltb, length, get_or, if◌then◌else◌, Bool-cases, arith,
}
use native.Mathlib.Nat.{mod-lt, div-add-mod}
use convergent_routing_analy.Routing.Batches.{BatchRange, batch_count, bounds_from, batch_bounds}

-- The ranges lie end to end from `at` to `stop`, each of `base` requests or one more.
abbrev pub Covers : ℕ → ℕ → ℕ → List BatchRange → Type 0
Covers base at stop [] = at ≡ stop
Covers base at stop (r ∷ rs) =
    (r.lo ≡ at) × ((r.hi ≡ at + base) ⊎ (r.hi ≡ at + base + 1)) × Covers base r.hi stop rs

length-bounds_from : (base rem k i at : ℕ) → length (bounds_from base rem k i at) ≡ k
unfolding bounds_from
length-bounds_from base rem zero i at = refl
length-bounds_from base rem (suc k) i at =
    ap suc (length-bounds_from base rem k (suc i) (at + (if ltb i rem then base + 1 else base)))

bounds_from-Covers :
    (base rem k i at : ℕ)
    → rem ≤ i + k
    → Covers base at (at + k * base + (rem - i)) (bounds_from base rem k i at)
unfolding bounds_from
bounds_from-Covers base rem zero i at h = omega arith
bounds_from-Covers base rem (suc k) i at h = elim (Bool-cases (ltb i rem)) [
  | inl more ↦
      let stop : at + (base + 1) + k * base + (rem - suc i) ≡ at + suc k * base + (rem - i) =
        ground arith in
      rw more (
        refl,
        inr (omega arith),
        subst
            (λ z.
              Covers base (at + (base + 1)) z (bounds_from base rem k (suc i) (at + (base + 1))))
            stop (bounds_from-Covers base rem k (suc i) (at + (base + 1)) (omega arith)),
      )
  | inr less ↦
      let stop : at + base + k * base + (rem - suc i) ≡ at + suc k * base + (rem - i) =
        ground arith in
      rw less (
        refl,
        inl refl,
        subst (λ z. Covers base (at + base) z (bounds_from base rem k (suc i) (at + base))) stop
            (bounds_from-Covers base rem k (suc i) (at + base) (omega arith)),
      )
]

batch_count_pos : (batches : ℤ) → 1 ≤ batch_count batches
batch_count_pos (pos zero) = omega arith
batch_count_pos (pos (suc b)) = omega arith
batch_count_pos (negsuc b) = omega arith

-- For any number of requests and any number of batches, batchBounds returns as many ranges as
-- batches (one if fewer), which lie end to end from 0 to the number of requests, and each holds the
-- quotient or one more.
pub batch_bounds-Covers :
    (n : ℕ) (batches : ℤ)
    → (length (batch_bounds n batches) ≡ batch_count batches)
      × Covers (n / batch_count batches) 0 n (batch_bounds n batches)
unfolding batch_bounds
batch_bounds-Covers n batches =
    let c = batch_count batches in
    let below : n % c < c = mod-lt n (batch_count_pos batches) in
    let whole : 0 + c * (n / c) + (n % c - 0) ≡ n = omega (arith, div-add-mod n c) in
    (
      length-bounds_from (n / c) (n % c) c 0 0,
      subst (λ z. Covers (n / c) 0 z (bounds_from (n / c) (n % c) c 0 0)) whole
          (bounds_from-Covers (n / c) (n % c) c 0 0 (omega arith)),
    )

module _ (base : ℕ) where
  pub Covers-first :
      (at stop : ℕ) (rs : List BatchRange) (d : BatchRange)
      → 0 < length rs
      → Covers base at stop rs
      → (get_or rs 0 d).lo ≡ at
  Covers-first at stop [] d h c = absurd (omega arith)
  Covers-first at stop (r ∷ rs) d h c = c.0

  -- A range starts where the one before it ends.
  pub Covers-next :
      (k at stop : ℕ) (rs : List BatchRange) (d : BatchRange)
      → suc k < length rs
      → Covers base at stop rs
      → (get_or rs (suc k) d).lo ≡ (get_or rs k d).hi
  Covers-next k at stop [] d h c = absurd (omega arith)
  Covers-next zero at stop (r ∷ rs) d h (a, b, c) = Covers-first r.hi stop rs d (omega arith) c
  Covers-next (suc k) at stop (r ∷ rs) d h (a, b, c) = Covers-next k r.hi stop rs d (omega arith) c

  Covers-le : (at stop : ℕ) (rs : List BatchRange) → Covers base at stop rs → at ≤ stop
  Covers-le at stop [] c = omega arith
  Covers-le at stop (r ∷ rs) (a, b, c) =
      let rest = Covers-le r.hi stop rs c in elim b [ inl e ↦ omega arith | inr e ↦ omega arith ]

  -- A range is in order and within the requests.
  pub Covers-within :
      (k at stop : ℕ) (rs : List BatchRange) (d : BatchRange)
      → k < length rs
      → Covers base at stop rs
      → ((get_or rs k d).lo ≤ (get_or rs k d).hi) × ((get_or rs k d).hi ≤ stop)
  Covers-within k at stop [] d h c = absurd (omega arith)
  Covers-within zero at stop (r ∷ rs) d h (a, b, c) =
      (elim b [ inl e ↦ omega arith | inr e ↦ omega arith ], Covers-le r.hi stop rs c)
  Covers-within (suc k) at stop (r ∷ rs) d h (a, b, c) =
      Covers-within k r.hi stop rs d (omega arith) c

  pub Covers-last :
      (k at stop : ℕ) (rs : List BatchRange) (d : BatchRange)
      → length rs ≡ suc k
      → Covers base at stop rs
      → (get_or rs k d).hi ≡ stop
  Covers-last k at stop [] d h c = absurd (omega arith)
  Covers-last zero at stop (r ∷ []) d h (a, b, c) = c
  Covers-last zero at stop (r ∷ q ∷ rs) d h c = absurd (omega arith)
  Covers-last (suc k) at stop (r ∷ rs) d h (a, b, c) = Covers-last k r.hi stop rs d (omega arith) c
