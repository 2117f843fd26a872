-- ===== src/Routing/Multipath/Masked.antt =====
-- A spur search under masks avoids what they mask, and a draw names one of the paths.
use convergent_routing_analy.Prelude.{
  ℕ, suc, ◌+◌, ◌<◌, ◌≡◌, inl, inr, refl, sym, subst, false, ◌||◌, pos, List, [], ◌∷◌, ◌++◌, some,
  length, Bool-cases, arith,
}
use convergent_routing_analy.Float.{
  Float64, Laws, MulLaws, Float, of_nat, inf, add, lt, is_inf, NonNeg,
}
use convergent_routing_analy.Domain.{NodeId, EdgeId}
use convergent_routing_analy.Graph.{Graph, Edge, IsGraph}
use convergent_routing_analy.Routing.Dijkstra.{WeightFunc, found, dijkstra}
use convergent_routing_analy.Routing.Dijkstra.Walks.{Walk, here, step, Solves, NonNegWeight}
use convergent_routing_analy.Routing.Dijkstra.Frontier.{Walk-nonneg}
use convergent_routing_analy.Routing.Dijkstra.Correct.{dijkstra-Solves}
use convergent_routing_analy.Routing.Multipath.{is_masked, masked_weight, draw_from, draw_path}

module _ ⦃f : Float64⦄ where
  draw_from-range :
      (u : Float) (masses : List Float) (index : ℕ) (cumulative : Float)
      → 0 < length masses
      → draw_from u masses index cumulative < index + length masses
  unfolding draw_from
  draw_from-range u [] index cumulative h = elim h [ ]
  draw_from-range u (mass ∷ []) index cumulative h = omega arith
  draw_from-range u (mass ∷ next ∷ rest) index cumulative h =
      let later = draw_from-range u (next ∷ rest) (suc index) (add cumulative mass) (omega arith) in
      elim (Bool-cases (lt u (add cumulative mass))) [
        | inl hit ↦ rw hit (omega arith)
        | inr miss ↦ rw miss (omega (arith, later))
      ]

  -- Whatever the masses and the number drawn, drawPath of a split with at least one mass is an index
  -- of the split.
  pub draw_path_lt :
      (intended : List Float) (u : Float)
      → 0 < length intended
      → draw_path intended u < length intended
  unfolding draw_path
  draw_path_lt intended u h = omega (arith, draw_from-range u intended 0 (of_nat 0) h)

module _ ⦃f : Float64⦄ (laws : Laws f) (m : MulLaws f) (g : Graph) (ok : IsGraph g)
    (base : WeightFunc) (w : NonNegWeight g base) (edges : List EdgeId) (nodes : List NodeId) where
  abbrev masked : WeightFunc
  masked = masked_weight base edges nodes

  inf-nonneg : NonNeg inf
  inf-nonneg = laws.le_inf (of_nat 0) laws.zero_le

  pub masked_weight-NonNegWeight : NonNegWeight g masked
  unfolding masked_weight
  masked_weight-NonNegWeight id e h =
      elim (Bool-cases (is_masked edges e.id || is_masked nodes e.from)) [
        | inl shut ↦ rw shut inf-nonneg
        | inr free ↦ rw free (w id e h)
      ]

  -- Every edge of the path is an edge of the graph that neither mask covers.
  pub data Avoids : List EdgeId → Type 0 where
    nothing : Avoids []
    more :
        {p : List EdgeId} (id : EdgeId) (e : Edge)
        → Avoids p
        → g.edge id ≡ some e
        → (is_masked edges e.id || is_masked nodes e.from) ≡ false
        → Avoids (p ++ id ∷ [])

  finite_before : (a b : Float) → NonNeg a → NonNeg b → is_inf (add a b) ≡ false → is_inf a ≡ false
  finite_before a b a0 b0 h = elim (Bool-cases (is_inf a)) [
    | inl endless ↦
        absurd (let e = laws.is_inf_of_le a (add a b) (laws.le_add a b a0 b0) endless a0 in cc)
    | inr finite ↦ finite
  ]

  -- An edge of a finite walk is masked by neither.
  passable :
      (c : Float) (e : Edge)
      → NonNeg c
      → is_inf (add c (masked e)) ≡ false
      → (is_masked edges e.id || is_masked nodes e.from) ≡ false
  unfolding masked_weight
  passable c e c0 h = elim (Bool-cases (is_masked edges e.id || is_masked nodes e.from)) [
    | inl shut ↦
        let shut_edge : is_inf (add c inf) ≡ false = rw shut at h in
        let swapped : is_inf (add inf c) ≡ false =
          subst (λ z. is_inf z ≡ false) (m.add_comm c inf c0 inf-nonneg) shut_edge in
        absurd
          (let top = finite_before inf c inf-nonneg c0 swapped in let e = laws.inf-is_inf in cc)
    | inr free ↦ free
  ]

  -- A masked edge makes a walk's cost infinite.
  pub Walk-Avoids :
      {src v : NodeId} {p : List EdgeId} {c : Float}
      → Walk g masked src v p c
      → is_inf c ≡ false
      → Avoids p
  Walk-Avoids here h = nothing
  Walk-Avoids {src} (step {p} {c} id e walk ed from) h =
      let c0 = Walk-nonneg laws g ok masked masked_weight-NonNegWeight src walk in
      let e0 = masked_weight-NonNegWeight id e ed in
      more id e (Walk-Avoids walk (finite_before c (masked e) c0 e0 h)) ed (passable c e c0 h)

  -- A finite walk under the masks is one without them, at the same cost.
  pub Walk-unmasked :
      {src v : NodeId} {p : List EdgeId} {c : Float}
      → Walk g masked src v p c
      → is_inf c ≡ false
      → Walk g base src v p c
  unfolding masked_weight
  Walk-unmasked here h = here
  Walk-unmasked {src} (step {p} {c} id e walk ed from) h =
      let c0 = Walk-nonneg laws g ok masked masked_weight-NonNegWeight src walk in
      let e0 = masked_weight-NonNegWeight id e ed in
      subst (λ z. Walk g base src e.to (p ++ id ∷ []) (add c z))
        (sym (unmasked (passable c e c0 h)))
        (step id e (Walk-unmasked walk (finite_before c (masked e) c0 e0 h)) ed from)
    where
      unmasked : (is_masked edges e.id || is_masked nodes e.from) ≡ false → masked e ≡ base e
      unmasked free = rw free refl

  -- On a graph that keeps the port's laws, with non-negative base weights: a path that dijkstra finds
  -- between two nodes under masked weights has no edge of the edge mask and none out of a node of
  -- the node mask.
  pub dijkstra-Avoids :
      (src dst : ℕ) (p : List EdgeId) (c : Float)
      → src < g.node_count
      → dst < g.node_count
      → dijkstra g (pos src) (pos dst) masked ≡ found p c
      → Avoids p
  dijkstra-Avoids src dst p c src_in dst_in h =
      let solves =
        subst (Solves g masked (pos src) (pos dst)) h
          (dijkstra-Solves laws g ok masked masked_weight-NonNegWeight src dst src_in dst_in) in
      Walk-Avoids (solves.0) (solves.1)
