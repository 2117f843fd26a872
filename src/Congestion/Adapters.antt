-- ===== src/Congestion/Adapters.antt =====
-- engine/internal/congestion/memory and simulator: the write policies over a load store. A Go map is
-- the list of its entries in the order in which the loop meets them.
pub mod Writes
use convergent_routing_analy.Prelude.{
  ℕ, zero, suc, ◌+◌, Bool, true, false, ℤ, pos, negsuc, List, [], ◌∷◌, length, get_or, ltb,
  if◌then◌else◌,
}
use convergent_routing_analy.Float.{Float64, Float, of_nat, add, mul, div, lt, le}
use convergent_routing_analy.Domain.{EdgeId}
use convergent_routing_analy.Congestion.{LoadSnapshot, load, grow, set_load}

module _ ⦃f : Float64⦄ where
  -- The slots that the entries need.
  unfoldable pub slots_needed : ℕ → List (EdgeId × Float) → ℕ
  slots_needed most [] = most
  slots_needed most ((negsuc n, v) ∷ rest) = slots_needed most rest
  slots_needed most ((pos i, v) ∷ rest) =
      slots_needed (if ltb most (i + 1) then i + 1 else most) rest

  unfoldable pub set_each : LoadSnapshot → List (EdgeId × Float) → LoadSnapshot
  set_each loads [] = loads
  set_each loads ((id, v) ∷ rest) = set_each (set_load loads id v) rest

  -- memory.Provider.SetAll
  unfoldable pub set_all : LoadSnapshot → List (EdgeId × Float) → LoadSnapshot
  unfolding set_each slots_needed
  set_all loads entries = set_each (grow loads (slots_needed 0 entries)) entries

  unfoldable pub non_negative : Float → Float
  non_negative v = if lt v (of_nat 0) then of_nat 0 else v

  -- simulator.Inject
  unfoldable pub inject : LoadSnapshot → EdgeId → Float → LoadSnapshot
  inject loads id v = set_load loads id (non_negative (add (load loads id) v))

  pub inject_each : LoadSnapshot → List (EdgeId × Float) → LoadSnapshot
  inject_each loads [] = loads
  inject_each loads ((id, v) ∷ rest) = inject_each (inject loads id v) rest

  -- simulator.InjectAll
  pub inject_all : LoadSnapshot → List (EdgeId × Float) → LoadSnapshot
  inject_all loads entries = inject_each (grow loads (slots_needed 0 entries)) entries

  -- The store, and how many numbers were drawn from the generator.
  pub record Simulator : Type 0 where
    pub store : LoadSnapshot
    pub drawn : ℕ

  module _ (random : ℕ → Float) where
    -- 1 - 0.10 and 2 * 0.10 are constants, exact until they are rounded.
    unfoldable pub factor : ℕ → Float
    factor n = add (div (of_nat 9) (of_nat 10)) (mul (random n) (div (of_nat 2) (of_nat 10)))

    -- The edge at the index, if it is loaded.
    unfoldable pub evolve : Simulator → ℕ → Simulator
    unfolding factor
    evolve s index =
        let current = get_or s.store index (of_nat 0) in
        if le current (of_nat 0) then s else record {
          store = set_load s.store (pos index) (non_negative (mul current (factor s.drawn)));
          drawn = s.drawn + 1;
        }

    -- The edges from the index on, `k` of them.
    unfoldable pub evolve_from : ℕ → ℕ → Simulator → Simulator
    evolve_from zero index s = s
    evolve_from (suc k) index s = evolve_from k (suc index) (evolve s index)

    -- simulator.Step and StepN
    unfoldable pub step : Simulator → Simulator
    unfolding evolve_from
    step s = evolve_from (length s.store) 0 s

    unfoldable pub step_n : ℕ → Simulator → Simulator
    step_n zero s = s
    step_n (suc n) s = step_n n (step s)
