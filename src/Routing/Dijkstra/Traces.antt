-- ===== src/Routing/Dijkstra/Traces.antt =====
-- Flags of settled nodes, and the walks that predecessors record under them.
use convergent_routing_analy.Prelude.{
  ℕ, zero, suc, ◌≤◌, ◌<◌, ◌≡◌, ◌≢◌, refl, true, false, Bool, pos, List, [], ◌∷◌, ◌++◌, length, set,
  arith, ap, subst, get_or-set, replicate, if◌then◌else◌, ◌==◌,
}
use convergent_routing_analy.Float.{Float64, Float, add}
use convergent_routing_analy.Domain.{EdgeId}
use convergent_routing_analy.Graph.{Graph}
use convergent_routing_analy.Routing.Dijkstra.{WeightFunc, no_edge}
use convergent_routing_analy.Routing.Dijkstra.Walks.{
  Walk, here, step, is_settled, count_settled, Traced, root, hop,
}

module _ ⦃f : Float64⦄ (g : Graph) (weight : WeightFunc) where
  pub count_settled-le : (seen : List Bool) → count_settled g weight seen ≤ length seen
  count_settled-le [] = omega arith
  count_settled-le (true ∷ bs) = omega (arith, count_settled-le bs)
  count_settled-le (false ∷ bs) = omega (arith, count_settled-le bs)

  pub count_settled-set :
      (seen : List Bool) (u : ℕ)
      → u < length seen
      → is_settled g weight seen u ≡ false
      → count_settled g weight (set seen u true) ≡ suc (count_settled g weight seen)
  count_settled-set [] u h e = elim h [ ]
  count_settled-set (true ∷ bs) zero h e = cc
  count_settled-set (false ∷ bs) zero h e = refl
  count_settled-set (true ∷ bs) (suc u) h e = ap suc (count_settled-set bs u (omega arith) e)
  count_settled-set (false ∷ bs) (suc u) h e = count_settled-set bs u (omega arith) e

  pub is_settled-set :
      (seen : List Bool) (u v : ℕ)
      → u < length seen
      → is_settled g weight (set seen u true) v
        ≡ (if u == v then true else is_settled g weight seen v)
  is_settled-set seen u v h = get_or-set seen u v true false h

  pub count_settled-replicate : (n : ℕ) → count_settled g weight (replicate n false) ≡ 0
  count_settled-replicate zero = refl
  count_settled-replicate (suc n) = count_settled-replicate n

  -- A recorded walk is a walk.
  pub Traced-Walk :
      (src : ℕ) (seen : List Bool) (prev : List EdgeId) {v : ℕ} {p : List EdgeId} {c : Float}
      → Traced g weight src seen prev v p c
      → Walk g weight (pos src) (pos v) p c
  Traced-Walk src seen prev root = here
  Traced-Walk src seen prev (hop {p} {c} {u} v id e t s ne r he from to) =
      subst (λ z. Walk g weight (pos src) z (p ++ id ∷ []) (add c (weight e))) to
        (step id e (Traced-Walk src seen prev t) he from)

  -- Settling one more node keeps the recorded walks.
  pub Traced-settle :
      (src : ℕ) (seen : List Bool) (prev : List EdgeId) (w : ℕ) {v : ℕ} {p : List EdgeId}
      {c : Float}
      → w < length seen
      → Traced g weight src seen prev v p c
      → Traced g weight src (set seen w true) prev v p c
  Traced-settle src seen prev w h root = root
  Traced-settle src seen prev w h (hop {p} {c} {u} v id e t s ne r he from to) =
      hop v id e (Traced-settle src seen prev w h t) (ground (arith, is_settled-set seen w u h)) ne
        r he from to

  -- A new predecessor of an unsettled node w keeps the walks to the other nodes.
  pub Traced-set :
      (src : ℕ) (seen : List Bool) (prev : List EdgeId) (w : ℕ) (x : EdgeId) {v : ℕ}
      {p : List EdgeId} {c : Float}
      → w < length prev
      → is_settled g weight seen w ≡ false
      → w ≢ v
      → Traced g weight src seen prev v p c
      → Traced g weight src seen (set prev w x) v p c
  Traced-set src seen prev w x h un ne root = root
  Traced-set src seen prev w x h un ne (hop {p} {c} {u} v id e t s ns r he from to) =
      hop v id e (Traced-set src seen prev w x h un (λ eq. absurd (ground arith)) t) s ns
        (ground (arith, get_or-set prev w v x no_edge h)) he from to
