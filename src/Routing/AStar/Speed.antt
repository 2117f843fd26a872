-- ===== src/Routing/AStar/Speed.antt =====
-- The divisor of the heuristic bounds the straight-line speed of every edge.
use convergent_routing_analy.Prelude.{
  ℕ, zero, suc, ◌+◌, ◌≤◌, ◌<◌, ◌≡◌, inl, inr, ap, subst, sym, pos, none, some, false, Bool-cases,
  Option-cases, arith, ℕ_discrete, some_inj, ◌∙◌,
}
use convergent_routing_analy.Float.{
  Float64, Laws, MulLaws, Float, of_nat, div, lt, le, is_inf, Le, NonNeg,
}
use convergent_routing_analy.Graph.{Graph, Edge}
use convergent_routing_analy.Routing.AStar.{
  chord, faster, edge_speed, speed_from, max_free_flow_speed_ms,
}

module _ ⦃f : Float64⦄ (laws : Laws f) (m : MulLaws f) (g : Graph)
    (times : (i : ℕ) (e : Edge) → g.edge (pos i) ≡ some e → NonNeg e.free_flow_s)
    (chords : (e : Edge) (c : Float) → chord g e ≡ some c → NonNeg c × (is_inf c ≡ false)) where
  faster_lem :
      (e : Edge) (speed c : Float)
      → NonNeg speed
      → NonNeg (div c e.free_flow_s)
      → Le speed (faster speed e c)
        × (le c (of_nat 0) ≡ false → Le (div c e.free_flow_s) (faster speed e c))
        × NonNeg (faster speed e c)
  unfolding faster
  faster_lem e speed c s0 own0 = elim (Bool-cases (le c (of_nat 0))) [
    | inl point ↦ rw point (laws.le_refl speed s0, (λ q. absurd (cc q)), s0)
    | inr line ↦ elim (Bool-cases (lt speed (div c e.free_flow_s))) [
      | inl up ↦ rw (line, up) (laws.le_of_lt _ _ up, (λ q. laws.le_refl _ own0), own0)
      | inr down ↦
          rw (line, down) (laws.le_refl speed s0, (λ q. laws.le_of_not_lt _ _ s0 own0 down), s0)
    ]
  ]

  -- What the pass over an edge promises of the speed before and after.
  abbrev Raises : Edge → Float → Float → Type 0
  Raises e before after =
      Le before after
      × ((c : Float)
          → chord g e ≡ some c
          → le e.free_flow_s (of_nat 0) ≡ false
          → le c (of_nat 0) ≡ false
          → Le (div c e.free_flow_s) after)
      × NonNeg after

  -- An edge never lowers the speed, and with positive time and chord brings it to its own at least.
  edge_speed-Raises :
      (e : Edge) (speed : Float)
      → NonNeg speed
      → NonNeg e.free_flow_s
      → Raises e speed (edge_speed g e speed)
  unfolding edge_speed
  edge_speed-Raises e speed s0 t0 = elim (Bool-cases (le e.free_flow_s (of_nat 0))) [
    | inl still ↦ rw still (laws.le_refl speed s0, (λ c p q. absurd (cc q)), s0)
    | inr moves ↦ elim (Option-cases (chord g e)) [
      | inl missing ↦ rw (moves, missing) (laws.le_refl speed s0, (λ c p. absurd (cc p)), s0)
      | inr (d, is) ↦
          let (d0, finite) = chords e d is in
          let own0 = m.div_nonneg d e.free_flow_s d0 finite (m.lt_of_not_le _ t0 moves) in
          let (up, own, keeps) = faster_lem e speed d s0 own0 in
          rw (moves, is)
            (
              up,
              (λ c p q r.
                  subst (λ z. Le (div z e.free_flow_s) (faster speed e d)) (some_inj p)
                    (own (subst (λ z. le z (of_nat 0) ≡ false) (sym (some_inj p)) r))),
              keeps,
            )
    ]
  ]

  speed_from_lem :
      (k i : ℕ) (speed : Float)
      → NonNeg speed
      → Le speed (speed_from g k i speed)
        × ((j : ℕ) (e : Edge) (c : Float)
            → i ≤ j
            → j < i + k
            → g.edge (pos j) ≡ some e
            → chord g e ≡ some c
            → le e.free_flow_s (of_nat 0) ≡ false
            → le c (of_nat 0) ≡ false
            → Le (div c e.free_flow_s) (speed_from g k i speed))
  unfolding speed_from
  speed_from_lem zero i speed s0 = (laws.le_refl speed s0, λ j e c lo hi. absurd (omega arith))
  speed_from_lem (suc k) i speed s0 = elim (Option-cases (g.edge (pos i))) [
    | inl missing ↦
        let (up, own) = speed_from_lem k (suc i) speed s0 in
        rw (missing, speed_from)
          (
            up,
            λ j e c lo hi ed. elim (ℕ_discrete i j) [
              | yes same ↦ absurd (
                  let other : none ≡ some e = sym missing ∙ ap (λ z. g.edge (pos z)) same ∙ ed in
                  cc)
              | no differ ↦ own j e c (omega arith) (omega arith) ed
            ],
          )
    | inr (d, is) ↦
        let (raised, self, keeps) = edge_speed-Raises d speed s0 (times i d is) in
        let (up, own) = speed_from_lem k (suc i) (edge_speed g d speed) keeps in
        rw (is, speed_from)
          (
            laws.le_trans _ _ _ raised up,
            λ j e c lo hi ed ch mv ln. elim (ℕ_discrete i j) [
              | yes same ↦
                  let d_e : d ≡ e = some_inj (sym is ∙ ap (λ z. g.edge (pos z)) same ∙ ed) in
                  laws.le_trans _ _ _
                    (subst
                      (λ z.
                        (c : Float)
                        → chord g z ≡ some c
                        → le z.free_flow_s (of_nat 0) ≡ false
                        → le c (of_nat 0) ≡ false
                        → Le (div c z.free_flow_s) (edge_speed g d speed))
                      d_e self c ch mv ln)
                    up
              | no differ ↦ own j e c (omega arith) (omega arith) ed ch mv ln
            ],
          )
  ]

  -- Where free-flow times are non-negative and chords are non-negative and finite, the speed of
  -- every edge of the graph with positive time and chord, chord over free-flow time, is at most
  -- maxFreeFlowSpeedMS.
  pub chord-max_free_flow_speed_ms :
      (j : ℕ) (e : Edge) (c : Float)
      → j < g.edge_count
      → g.edge (pos j) ≡ some e
      → chord g e ≡ some c
      → le e.free_flow_s (of_nat 0) ≡ false
      → le c (of_nat 0) ≡ false
      → Le (div c e.free_flow_s) (max_free_flow_speed_ms g)
  unfolding max_free_flow_speed_ms
  chord-max_free_flow_speed_ms j e c h =
      (speed_from_lem g.edge_count 0 (of_nat 0) laws.zero_le).1 j e c (omega arith) (omega arith)
