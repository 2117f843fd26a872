-- ===== src/Routing/Multipath/Ordered.antt =====
-- A cheaper path is given no less of the demand.
use convergent_routing_analy.Prelude.{
  Bool, ℕ, zero, suc, ◌<◌, ◌≡◌, inl, inr, refl, sym, ◌∙◌, ap, true, false, ◌||◌, List, [], ◌∷◌,
  length, get_or, replicate, if◌then◌else◌, Bool-cases, arith, get_or-map_in,
}
use convergent_routing_analy.Float.{
  Float64, Laws, MulLaws, DivLaws, Float, of_nat, add, div, lt, le, is_inf, Le, NonNeg,
}
use convergent_routing_analy.Routing.Multipath.{
  KPath, no_kpath, raw_weights, sum_from, all_zero, proportional_split,
}

module _ ⦃f : Float64⦄ where
  abbrev weight_of : Float → Float
  weight_of cost = if lt (of_nat 0) cost then div (of_nat 1) cost else of_nat 0

  get_or-raw_weights :
      (paths : List KPath) (j : ℕ)
      → j < length paths
      → get_or (raw_weights paths) j (of_nat 0) ≡ weight_of (get_or paths j no_kpath).cost
  unfolding raw_weights
  get_or-raw_weights [] j h = absurd (omega arith)
  get_or-raw_weights (p ∷ ps) zero h = refl
  get_or-raw_weights (p ∷ ps) (suc j) h = get_or-raw_weights ps j (omega arith)

  pub length-raw_weights : (paths : List KPath) → length (raw_weights paths) ≡ length paths
  unfolding raw_weights
  length-raw_weights [] = refl
  length-raw_weights (p ∷ ps) = ap suc (length-raw_weights ps)

  get_or-replicate_in : (n i : ℕ) (x d : Float) → i < n → get_or (replicate n x) i d ≡ x
  get_or-replicate_in zero i x d h = absurd (omega arith)
  get_or-replicate_in (suc n) zero x d h = refl
  get_or-replicate_in (suc n) (suc i) x d h = get_or-replicate_in n i x d (omega arith)

module _ ⦃f : Float64⦄ (laws : Laws f) (m : MulLaws f) (q : DivLaws f) where
  weight_of-NonNeg : (cost : Float) → NonNeg (weight_of cost)
  weight_of-NonNeg cost = elim (Bool-cases (lt (of_nat 0) cost)) [
    | inl some ↦ rw some (m.div_nonneg (of_nat 1) cost m.zero_le_one q.one-is_inf some)
    | inr none ↦ rw none laws.zero_le
  ]

  sum_from-NonNeg :
      (sum : Float) (paths : List KPath) → NonNeg sum → NonNeg (sum_from sum (raw_weights paths))
  unfolding raw_weights sum_from
  sum_from-NonNeg sum [] h = h
  sum_from-NonNeg sum (p ∷ ps) h =
      sum_from-NonNeg (add sum (weight_of p.cost)) ps
        (laws.le_trans _ _ _ h (laws.le_add sum (weight_of p.cost) h (weight_of-NonNeg p.cost)))

  lt_of_lt_le : (a b : Float) → lt (of_nat 0) a ≡ true → Le a b → lt (of_nat 0) b ≡ true
  lt_of_lt_le a b p h = elim (Bool-cases (le b (of_nat 0))) [
    | inl low ↦
        let clash : true ≡ false =
          sym p ∙ laws.not_lt_of_le a (of_nat 0) (laws.le_trans _ _ _ h low) in
        absurd (cc clash)
    | inr high ↦ m.lt_of_not_le b (laws.le_trans _ _ _ (laws.le_of_lt _ _ p) h) high
  ]

  weight_of-Le :
      (a b : Float)
      → lt (of_nat 0) a ≡ true
      → Le a b
      → is_inf b ≡ false
      → Le (weight_of b) (weight_of a)
  weight_of-Le a b p h finite =
      rw (p, lt_of_lt_le a b p h)
        (q.div_antitone (of_nat 1) a b m.zero_le_one q.one-is_inf p h finite)

  module _ (paths : List KPath) (i j : ℕ) (hi : i < length paths) (hj : j < length paths)
      (positive : lt (of_nat 0) (get_or paths i no_kpath).cost ≡ true)
      (cheaper : Le (get_or paths i no_kpath).cost (get_or paths j no_kpath).cost)
      (finite : is_inf (get_or paths j no_kpath).cost ≡ false)
      (finite_sum : is_inf (sum_from (of_nat 0) (raw_weights paths)) ≡ false) where
    abbrev sum : Float
    sum = sum_from (of_nat 0) (raw_weights paths)

    abbrev raw : ℕ → Float
    raw n = get_or (raw_weights paths) n (of_nat 0)

    raw-Le : Le (raw j) (raw i)
    raw-Le =
        rw (get_or-raw_weights paths i hi, get_or-raw_weights paths j hj)
          (weight_of-Le _ _ positive cheaper finite)

    raw-NonNeg : NonNeg (raw j)
    raw-NonNeg = rw (get_or-raw_weights paths j hj) (weight_of-NonNeg _)

    uniform-NonNeg : (n : ℕ) → i < n → NonNeg (div (of_nat 1) (of_nat n))
    uniform-NonNeg zero h = absurd (omega arith)
    uniform-NonNeg (suc n) h =
        m.div_nonneg (of_nat 1) (of_nat (suc n)) m.zero_le_one q.one-is_inf (q.of_nat_positive n)

    -- Of two paths with finite positive costs in proportionalSplit, where the inverses of the costs
    -- do not sum to infinity, the cheaper has at least the mass of the other.
    pub proportional_split-Le :
        Le
          (get_or (proportional_split paths) j (of_nat 0))
          (get_or (proportional_split paths) i (of_nat 0))
    unfolding proportional_split
    proportional_split-Le = elim (Bool-cases (all_zero paths || le sum (of_nat 0))) [
      | inl uniform ↦
          rw
            (
              uniform,
              get_or-replicate_in (length paths) i (div (of_nat 1) (of_nat (length paths)))
                  (of_nat 0) hi,
              get_or-replicate_in (length paths) j (div (of_nat 1) (of_nat (length paths)))
                  (of_nat 0) hj,
            )
            (laws.le_refl _ (uniform-NonNeg (length paths) hi))
      | inr weighed ↦
          rw
            (
              weighed,
              get_or-map_in (λ w. div w sum) (raw_weights paths) i (of_nat 0) (of_nat 0)
                  (omega (arith, length-raw_weights paths, hi)),
              get_or-map_in (λ w. div w sum) (raw_weights paths) j (of_nat 0) (of_nat 0)
                  (omega (arith, length-raw_weights paths, hj)),
            )
            (q.div_mono _ _ sum raw-NonNeg raw-Le (sum_positive (all_zero paths) weighed)
              finite_sum)
    ]
      where
        sum_positive :
            (zeros : Bool) → (zeros || le sum (of_nat 0)) ≡ false → lt (of_nat 0) sum ≡ true
        sum_positive true h = absurd (cc h)
        sum_positive false h = m.lt_of_not_le sum (sum_from-NonNeg (of_nat 0) paths laws.zero_le) h
