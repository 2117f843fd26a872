-- ===== src/Routing/Multipath.antt =====
-- engine/internal/routing/kshortest.go and multipath.go: the masks of Yen's spur searches, the
-- proportional split and the draw of a path. The spur loop is in Routing.Yen.
pub mod Masked
pub mod Ordered
use convergent_routing_analy.Prelude.{
  ℕ, zero, suc, ◌+◌, Bool, true, false, ◌||◌, ℤ, pos, negsuc, List, [], ◌∷◌, Option, none, some,
  length, eqb_ℤ, map, if◌then◌else◌, replicate,
}
use convergent_routing_analy.Float.{Float64, Float, of_nat, inf, add, div, lt, le}
use convergent_routing_analy.Domain.{NodeId, EdgeId}
use convergent_routing_analy.Graph.{Graph, Edge}
use convergent_routing_analy.Routing.Dijkstra.{WeightFunc}

-- Membership in a mask, which is a Go map from ids to true.
unfoldable pub is_masked : List ℤ → ℤ → Bool
is_masked [] id = false
is_masked (m ∷ ms) id = eqb_ℤ m id || is_masked ms id

module _ ⦃f : Float64⦄ where
  pub record KPath : Type 0 where
    pub edges : List EdgeId
    pub cost : Float

  abbrev pub no_kpath : KPath
  no_kpath = record { edges = []; cost = of_nat 0 }

  -- An edge in the mask, or out of a node in the mask, is impassable.
  unfoldable pub masked_weight : WeightFunc → List EdgeId → List NodeId → WeightFunc
  masked_weight base edges nodes edge =
      if is_masked edges edge.id || is_masked nodes edge.from then inf else base edge

  -- The raw weights of the split, with their sum and whether no cost was positive.
  unfoldable pub raw_weights : List KPath → List Float
  raw_weights [] = []
  raw_weights (p ∷ ps) =
      (if lt (of_nat 0) p.cost then div (of_nat 1) p.cost else of_nat 0) ∷ raw_weights ps

  unfoldable pub sum_from : Float → List Float → Float
  sum_from sum [] = sum
  sum_from sum (x ∷ xs) = sum_from (add sum x) xs

  pub all_zero : List KPath → Bool
  all_zero [] = true
  all_zero (p ∷ ps) = if lt (of_nat 0) p.cost then false else all_zero ps

  unfoldable pub proportional_split : List KPath → List Float
  unfolding raw_weights sum_from all_zero
  proportional_split paths =
      let weights = raw_weights paths in
      let sum = sum_from (of_nat 0) weights in
      if all_zero paths || le sum (of_nat 0)
      then replicate (length paths) (div (of_nat 1) (of_nat (length paths)))
      else map (λ w. div w sum) weights

  -- The first index whose cumulative mass is above u, else the last index, from `index` on.
  unfoldable pub draw_from : Float → List Float → ℕ → Float → ℕ
  draw_from u [] index cumulative = index
  draw_from u (mass ∷ []) index cumulative = index
  draw_from u (mass ∷ next ∷ rest) index cumulative =
      let later = draw_from u (next ∷ rest) (suc index) (add cumulative mass) in
      if lt u (add cumulative mass) then index else later

  -- drawPath, with u the number drawn.
  unfoldable pub draw_path : List Float → Float → ℕ
  unfolding draw_from
  draw_path intended u = draw_from u intended 0 (of_nat 0)
