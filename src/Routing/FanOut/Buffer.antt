-- ===== src/Routing/FanOut/Buffer.antt =====
-- A search leaves a buffer with slices of one length.
use convergent_routing_analy.Prelude.{
  ◌≡◌, refl, ap, sym, ◌∙◌, List, [], ◌∷◌, Option, none, some, length, in_range, eqb_ℤ, Bool-cases,
  Option-cases, inl, inr, ltb, length-replicate, pos, ℕ, suc,
}
use convergent_routing_analy.Float.{Float64, of_nat}
use convergent_routing_analy.Domain.{NodeId}
use convergent_routing_analy.Graph.{Graph}
use convergent_routing_analy.Routing.Dijkstra.{
  WeightFunc, Scratch, overlay, reset, loop, start, search_fuel, scratch_after,
  new_dijkstra_scratch, Search,
}

module _ ⦃f : Float64⦄ where
  length-overlay {ℓ} : {A : Type ℓ} (old new : List A) → length (overlay old new) ≡ length old
  unfolding overlay
  length-overlay [] new = refl
  length-overlay (x ∷ old) [] = refl
  length-overlay (x ∷ old) (y ∷ new) = ap suc (length-overlay old new)

  abbrev pub Even : Scratch → Type 0
  Even b = length b.dist ≡ length b.prev_edge

  reset-Even : (b : Scratch) (count : ℕ) → Even b → Even ((reset b count).1)
  unfolding reset
  reset-Even b count even = elim (Bool-cases (ltb (length b.dist) count)) [
    | inl short ↦
        rw (short, reset) (length-replicate count (of_nat 0) ∙ sym (length-replicate count (pos 0)))
    | inr long ↦ rw (long, reset) even
  ]

  pub scratch_after-Even :
      (g : Graph) (src dst : NodeId) (weight : WeightFunc) (b : Scratch)
      → Even b
      → Even (scratch_after g src dst weight b)
  unfolding scratch_after
  scratch_after-Even g src dst weight b even = elim (Option-cases (in_range src g.node_count)) [
    | inl out ↦ rw (out, scratch_after) even
    | inr (i, inside) ↦ elim (Option-cases (in_range dst g.node_count)) [
      | inl out ↦ rw (inside, out, scratch_after) even
      | inr (j, inside') ↦ elim (Bool-cases (eqb_ℤ src dst)) [
        | inl same ↦ rw (inside, inside', same, scratch_after) even
        | inr other ↦
            rw (inside, inside', other, scratch_after)
              (after_loop (loop g weight none dst (search_fuel g) (start g src none (some b))))
      ]
    ]
  ]
    where
      after_loop :
          (o : Option Search)
          → Even (elim o [
            | none ↦ (reset b g.node_count).1
            | some t ↦ record {
              dist = overlay ((reset b g.node_count).1.dist) t.dist;
              prev_edge = overlay ((reset b g.node_count).1.prev_edge) t.prev_edge;
            }
          ])
      after_loop none = reset-Even b g.node_count even
      after_loop (some t) =
          length-overlay _ t.dist
          ∙ reset-Even b g.node_count even
          ∙ sym (length-overlay _ t.prev_edge)

  pub new_dijkstra_scratch-Even : (n : ℕ) → Even (new_dijkstra_scratch (pos n))
  unfolding new_dijkstra_scratch
  new_dijkstra_scratch-Even n = length-replicate n (of_nat 0) ∙ sym (length-replicate n (pos 0))
