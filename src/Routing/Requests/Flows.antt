-- ===== src/Routing/Requests/Flows.antt =====
-- What a route adds to each edge of the flow vector.
use convergent_routing_analy.Prelude.{
  ℕ, ◌≡◌, ◌<◌, refl, sym, ◌∙◌, ap, true, false, pos, negsuc, List, [], ◌∷◌, length, get_or,
  length-set, get_or-set, ◌==◌, if◌then◌else◌, eqb_ℤ, in_range, to_index, in_range-some,
  Option-cases, Bool-cases, inl, inr, arith, subst,
}
use convergent_routing_analy.Float.{Float64, Float, of_nat, add}
use convergent_routing_analy.Domain.{EdgeId}
use convergent_routing_analy.Routing.Requests.{add_edge_flow, add_route_flow}

module _ ⦃f : Float64⦄ where
  -- Adding `weight` to x once for each time that the path meets the edge, in turn.
  abbrev pub with_uses : List EdgeId → ℕ → Float → Float → Float
  with_uses [] e weight x = x
  with_uses (id ∷ ids) e weight x =
      with_uses ids e weight (if eqb_ℤ id (pos e) then add x weight else x)

  length-add_edge_flow :
      (flows : List Float) (id : EdgeId) (weight : Float)
      → length (add_edge_flow flows id weight) ≡ length flows
  unfolding add_edge_flow
  length-add_edge_flow flows id weight = elim (Option-cases (in_range id (length flows))) [
    | inl out ↦ rw (out, add_edge_flow)
    | inr (i, inside) ↦ rw (inside, add_edge_flow) (length-set flows i _)
  ]

  get_or-add_edge_flow :
      (flows : List Float) (id : EdgeId) (weight : Float) (e : ℕ)
      → e < length flows
      → get_or (add_edge_flow flows id weight) e (of_nat 0) ≡ (
          if eqb_ℤ id (pos e)
          then add (get_or flows e (of_nat 0)) weight
          else get_or flows e (of_nat 0))
  unfolding add_edge_flow
  get_or-add_edge_flow flows (negsuc n) weight e h = refl
  get_or-add_edge_flow flows (pos i) weight e h =
      elim (Option-cases (in_range (pos i) (length flows))) [
        | inl out ↦ let other : (i == e) ≡ false = ground arith in rw (out, add_edge_flow, other)
        | inr (j, inside) ↦
            let (same, lt) = in_range-some (pos i) (length flows) j inside in
            let i_j : i ≡ j = ap to_index same in
            rw (inside, add_edge_flow)
              (get_or-set flows j e _ _ lt ∙ elim (Bool-cases (j == e)) [
                | inl hit ↦
                    let at : (i == e) ≡ true = ground arith in
                    let je : j ≡ e = ground arith in rw (hit, at, je)
                | inr miss ↦ let at : (i == e) ≡ false = ground arith in rw (miss, at)
              ])
      ]

  pub length-add_route_flow :
      (flows : List Float) (path : List EdgeId) (weight : Float)
      → length (add_route_flow flows path weight) ≡ length flows
  unfolding add_route_flow
  length-add_route_flow flows [] weight = refl
  length-add_route_flow flows (id ∷ ids) weight =
      length-add_route_flow (add_edge_flow flows id weight) ids weight
      ∙ length-add_edge_flow flows id weight

  -- A route adds its weight to an edge of the vector once for each time that it traverses it, and
  -- leaves the other edges as they are.
  pub get_or-add_route_flow :
      (flows : List Float) (path : List EdgeId) (weight : Float) (e : ℕ)
      → e < length flows
      → get_or (add_route_flow flows path weight) e (of_nat 0)
        ≡ with_uses path e weight (get_or flows e (of_nat 0))
  unfolding add_route_flow
  get_or-add_route_flow flows [] weight e h = refl
  get_or-add_route_flow flows (id ∷ ids) weight e h =
      get_or-add_route_flow (add_edge_flow flows id weight) ids weight e
        (subst (λ n. e < n) (sym (length-add_edge_flow flows id weight)) h)
      ∙ ap (with_uses ids e weight) (get_or-add_edge_flow flows id weight e h)
