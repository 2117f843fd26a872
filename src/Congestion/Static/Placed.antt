-- ===== src/Congestion/Static/Placed.antt =====
-- What placing the winners gives each edge, and how many it skips.
use convergent_routing_analy.Prelude.{
  ℕ, ◌+◌, ◌<◌, ◌≡◌, refl, sym, ◌∙◌, ap, subst, pos, negsuc, List, [], ◌∷◌, Option, none, some,
  some_inj, if◌then◌else◌, eqb_ℤ, to_index, in_range, ltb, Bool-cases, inl, inr, arith,
}
use convergent_routing_analy.Float.{Float64, Float, of_nat, mul}
use convergent_routing_analy.Domain.{EdgeId}
use convergent_routing_analy.Feed.{Timed}
use convergent_routing_analy.Congestion.{load, set_load}
use convergent_routing_analy.Congestion.Store.{load-set_load}
use convergent_routing_analy.Congestion.Static.{
  SegmentEdgeIndex, find_edge, StaticProvider, edge_of, place_winner, place_winners,
}

module _ ⦃f : Float64⦄ (index : SegmentEdgeIndex) (edge_count : ℕ) where
  -- The segment of the winner is mapped to the edge, which is in range.
  abbrev pub LandsOn : ℕ → Timed → Type 0
  LandsOn i w = (find_edge w.message.segment_id index ≡ some (pos i)) × (i < edge_count)

  -- The last of the winners that land on the edge i.
  pub data LastOn (i : ℕ) : List Timed → Option Timed → Type 0 where
    nobody : LastOn i [] none
    later : {w v : Timed} {ws : List Timed} → LastOn i ws (some v) → LastOn i (w ∷ ws) (some v)
    here :
        {w : Timed} {ws : List Timed} → LandsOn i w → LastOn i ws none → LastOn i (w ∷ ws) (some w)
    past :
        {w : Timed} {ws : List Timed}
        → (LandsOn i w → ⊥)
        → LastOn i ws none
        → LastOn i (w ∷ ws) none

  -- As many of the winners land on no edge.
  pub data Lost : List Timed → ℕ → Type 0 where
    no_winner : Lost [] 0
    landed :
        {w : Timed} {ws : List Timed} {n : ℕ} (i : ℕ) → LandsOn i w → Lost ws n → Lost (w ∷ ws) n
    lost :
        {w : Timed} {ws : List Timed} {n : ℕ}
        → ((i : ℕ) → LandsOn i w → ⊥)
        → Lost ws n
        → Lost (w ∷ ws) (1 + n)

  -- Twelve times the count of the winner, or else what was there.
  abbrev pub hourly : Option Timed → Float → Float
  hourly none before = before
  hourly (some w) before = mul (of_nat (to_index w.message.vehicle_count)) (of_nat 12)

  abbrev Landing : Timed → Option ℕ → Type 0
  Landing w none = (i : ℕ) → LandsOn i w → ⊥
  Landing w (some i) = LandsOn i w

  edge_of-Landing : (w : Timed) → Landing w (edge_of index edge_count w)
  unfolding edge_of
  edge_of-Landing w = found (find_edge w.message.segment_id index) refl
    where
      found :
          (o : Option EdgeId)
          → find_edge w.message.segment_id index ≡ o
          → Landing w (elim o [ none ↦ none | some id ↦ in_range id edge_count ])
      found none h = λ i (there, _). cc
      found (some (negsuc n)) h = λ i (there, _). cc (some_inj (sym h ∙ there))
      found (some (pos j)) h = elim (Bool-cases (ltb j edge_count)) [
        | inl within ↦ rw within (h, ground (arith, within))
        | inr out ↦ rw out (λ i (there, small).
            let same : j ≡ i = ap to_index (some_inj (sym h ∙ there)) in
            ground (arith, out, small, same))
      ]

  abbrev stepped : StaticProvider → Timed → Option ℕ → StaticProvider
  stepped p w o = elim o [
    | none ↦ record p { skipped = p.skipped + 1 }
    | some j ↦ record p {
      store =
          set_load p.store (pos j) (mul (of_nat (to_index w.message.vehicle_count)) (of_nat 12));
    }
  ]

  -- One winner, before winners of which none lands on the edge.
  one_winner :
      (i : ℕ) (p : StaticProvider) (w : Timed) (ws : List Timed)
      → LastOn i ws none
      → (last : Option Timed) × LastOn i (w ∷ ws) last
        × (load ((place_winner index edge_count p w).store) (pos i)
            ≡ hourly last (load p.store (pos i)))
  unfolding place_winner
  one_winner i p w ws none_later = by_edge (edge_of index edge_count w) (edge_of-Landing w)
    where
      by_edge :
          (o : Option ℕ)
          → Landing w o
          → (last : Option Timed) × LastOn i (w ∷ ws) last
            × (load ((stepped p w o).store) (pos i) ≡ hourly last (load p.store (pos i)))
      by_edge none away = (none, past (away i) none_later, refl)
      by_edge (some j) at =
          let rate = mul (of_nat (to_index w.message.vehicle_count)) (of_nat 12) in
          elim (Bool-cases (eqb_ℤ (pos j) (pos i))) [
            | inl same ↦
                let e : j ≡ i = ground (arith, same) in
                (
                  some w,
                  here (subst (λ k. LandsOn k w) e at) none_later,
                  load-set_load p.store (pos j) (pos i) rate
                      ∙ ap (λ b. if b then rate else load p.store (pos i)) same,
                )
            | inr other ↦ (
              none,
              past
                  (λ (there, _).
                    let e : j ≡ i = ap to_index (some_inj (sym at.0 ∙ there)) in
                    ground (arith, other, e))
                  none_later,
              load-set_load p.store (pos j) (pos i) rate
                  ∙ ap (λ b. if b then rate else load p.store (pos i)) other,
            )
          ]

  skipped-place_winner :
      (p : StaticProvider) (w : Timed) (ws : List Timed) (n : ℕ)
      → Lost ws n
      → (m : ℕ) × Lost (w ∷ ws) m
        × ((place_winner index edge_count p w).skipped + n ≡ p.skipped + m)
  unfolding place_winner
  skipped-place_winner p w ws n rest = by_edge (edge_of index edge_count w) (edge_of-Landing w)
    where
      by_edge :
          (o : Option ℕ)
          → Landing w o
          → (m : ℕ) × Lost (w ∷ ws) m × ((stepped p w o).skipped + n ≡ p.skipped + m)
      by_edge none away = (1 + n, lost away rest, omega arith)
      by_edge (some j) at = (n, landed j at rest, refl)

  -- After placing the winners, each edge has twelve times the vehicle count of the last winner whose
  -- segment is mapped to it, if it is in range and there is one, and otherwise the load that it had;
  -- the winners whose segment is mapped to no edge in range are counted as skipped.
  pub place_winners_lem :
      (ws : List Timed) (p : StaticProvider)
      → ((i : ℕ)
          → (last : Option Timed) × LastOn i ws last
            × (load ((place_winners index edge_count p ws).store) (pos i)
                ≡ hourly last (load p.store (pos i))))
        × ((n : ℕ) × Lost ws n × ((place_winners index edge_count p ws).skipped ≡ p.skipped + n))
  unfolding place_winners
  place_winners_lem [] p = (λ i. (none, nobody, refl), (0, no_winner, omega arith))
  place_winners_lem (w ∷ ws) p =
      let (loads, (n, rest, skips)) = place_winners_lem ws (place_winner index edge_count p w) in
      let (m, all, count) = skipped-place_winner p w ws n rest in
      (λ i. on_edge i (loads i), (m, all, skips ∙ count))
    where
      on_edge :
          (i : ℕ)
          → ((last : Option Timed) × LastOn i ws last
              × (load
                    ((place_winners index edge_count (place_winner index edge_count p w) ws).store)
                    (pos i)
                  ≡ hourly last (load ((place_winner index edge_count p w).store) (pos i))))
          → (last : Option Timed) × LastOn i (w ∷ ws) last
            × (load
                  ((place_winners index edge_count (place_winner index edge_count p w) ws).store)
                  (pos i)
                ≡ hourly last (load p.store (pos i)))
      on_edge i (some v, latest, e) = (some v, later latest, e)
      on_edge i (none, latest, e) =
          let (last, is, at) = one_winner i p w ws latest in (last, is, e ∙ at)
