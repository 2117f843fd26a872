-- ===== src/Congestion/Adapters/Writes.antt =====
-- What the adapters' writes do to the loads.
use convergent_routing_analy.Prelude.{
  ℕ, zero, suc, ◌≡◌, refl, sym, ◌∙◌, ap, subst, pos, negsuc, List, [], ◌∷◌, length, get_or,
  if◌then◌else◌, eqb_ℤ, Bool-cases, inl, inr,
}
use convergent_routing_analy.Float.{
  Float64, Laws, MulLaws, Float, of_nat, add, mul, lt, le, Le, NonNeg,
}
use convergent_routing_analy.Domain.{EdgeId}
use convergent_routing_analy.Congestion.{LoadSnapshot, load, grow, set_load}
use convergent_routing_analy.Congestion.Store.{load-pos, load-negsuc, get_or-grow, load-set_load}
use convergent_routing_analy.Congestion.Adapters.{
  slots_needed, set_each, set_all, non_negative, inject, Simulator, factor, evolve, evolve_from,
  step, step_n,
}

module _ ⦃f : Float64⦄ where
  -- The value of the last entry of an edge, or else the load before.
  abbrev pub last_entry : List (EdgeId × Float) → EdgeId → Float → Float
  last_entry [] id before = before
  last_entry ((negsuc n, v) ∷ rest) id before = last_entry rest id before
  last_entry ((pos i, v) ∷ rest) id before =
      last_entry rest id (if eqb_ℤ (pos i) id then v else before)

  load-set_each :
      (entries : List (EdgeId × Float)) (loads : LoadSnapshot) (id : EdgeId)
      → load (set_each loads entries) id ≡ last_entry entries id (load loads id)
  unfolding set_each
  load-set_each [] loads id = refl
  load-set_each ((negsuc n, v) ∷ rest) loads id =
      load-set_each rest (set_load loads (negsuc n) v) id
      ∙ ap (last_entry rest id) (load-set_load loads (negsuc n) id v)
  load-set_each ((pos i, v) ∷ rest) loads id =
      load-set_each rest (set_load loads (pos i) v) id
      ∙ ap (last_entry rest id) (load-set_load loads (pos i) id v)

  load-grow : (loads : LoadSnapshot) (n : ℕ) (id : EdgeId) → load (grow loads n) id ≡ load loads id
  load-grow loads n (negsuc k) = load-negsuc (grow loads n) k ∙ sym (load-negsuc loads k)
  load-grow loads n (pos i) =
      load-pos (grow loads n) i ∙ get_or-grow loads n i ∙ sym (load-pos loads i)

  -- After SetAll every id reads the value of its entry, the last one if there are several, and the
  -- load before if it has none; growing the store first changes no load.
  pub load-set_all :
      (entries : List (EdgeId × Float)) (loads : LoadSnapshot) (id : EdgeId)
      → load (set_all loads entries) id ≡ last_entry entries id (load loads id)
  unfolding set_all
  load-set_all entries loads id =
      load-set_each entries (grow loads (slots_needed 0 entries)) id
      ∙ ap (last_entry entries id) (load-grow loads (slots_needed 0 entries) id)

  module _ (laws : Laws f) (m : MulLaws f) where
    -- Every edge's load is non-negative.
    abbrev pub NonNegLoads : LoadSnapshot → Type 0
    NonNegLoads loads = (id : EdgeId) → NonNeg (load loads id)

    non_negative-nonneg : (v : Float) → Le v v → NonNeg (non_negative v)
    unfolding non_negative
    non_negative-nonneg v num = elim (Bool-cases (lt v (of_nat 0))) [
      | inl low ↦ rw low laws.zero_le
      | inr high ↦ rw high (m.nonneg_of_not_lt v num high)
    ]

    NonNegLoads-set_load :
        (loads : LoadSnapshot) (id : EdgeId) (v : Float)
        → NonNegLoads loads
        → NonNeg v
        → NonNegLoads (set_load loads id v)
    NonNegLoads-set_load loads (negsuc n) v all v0 other =
        subst NonNeg (sym (load-set_load loads (negsuc n) other v)) (all other)
    NonNegLoads-set_load loads (pos i) v all v0 other =
        subst NonNeg (sym (load-set_load loads (pos i) other v))
          (elim (Bool-cases (eqb_ℤ (pos i) other)) [
            | inl hit ↦ rw hit v0
            | inr miss ↦ rw miss (all other)
          ])

    -- Inject keeps every load non-negative, for any id and any added load whose sum with the present
    -- load is a number.
    pub inject-NonNegLoads :
        (loads : LoadSnapshot) (id : EdgeId) (v : Float)
        → NonNegLoads loads
        → Le (add (load loads id) v) (add (load loads id) v)
        → NonNegLoads (inject loads id v)
    unfolding inject
    inject-NonNegLoads loads id v all num =
        NonNegLoads-set_load loads id _ all (non_negative-nonneg _ num)

    module _ (random : ℕ → Float)
        (numbers : (a : Float) (n : ℕ)
          → NonNeg a
          → Le (mul a (factor random n)) (mul a (factor random n))) where
      evolve-NonNegLoads :
          (s : Simulator) (index : ℕ)
          → NonNegLoads s.store
          → NonNegLoads ((evolve random s index).store)
      unfolding evolve
      evolve-NonNegLoads s index all =
          elim (Bool-cases (le (get_or s.store index (of_nat 0)) (of_nat 0))) [
            | inl idle ↦ rw idle all
            | inr busy ↦ rw busy (
                NonNegLoads-set_load s.store (pos index) _ all (
                  non_negative-nonneg _
                    (numbers _ s.drawn (subst NonNeg (load-pos s.store index) (all (pos index))))))
          ]

      evolve_from-NonNegLoads :
          (k index : ℕ) (s : Simulator)
          → NonNegLoads s.store
          → NonNegLoads ((evolve_from random k index s).store)
      unfolding evolve_from
      evolve_from-NonNegLoads zero index s all = all
      evolve_from-NonNegLoads (suc k) index s all =
          evolve_from-NonNegLoads k (suc index) (evolve random s index)
            (evolve-NonNegLoads s index all)

      -- Any number of ticks keeps every load non-negative, if the product of a non-negative load and
      -- a drawn factor is a number.
      pub step_n-NonNegLoads :
          (n : ℕ) (s : Simulator) → NonNegLoads s.store → NonNegLoads ((step_n random n s).store)
      unfolding step_n step
      step_n-NonNegLoads zero s all = all
      step_n-NonNegLoads (suc n) s all =
          step_n-NonNegLoads n (step random s) (evolve_from-NonNegLoads (length s.store) 0 s all)
