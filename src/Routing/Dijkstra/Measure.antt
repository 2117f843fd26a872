-- ===== src/Routing/Dijkstra/Measure.antt =====
-- The out-edges of the nodes that are not settled: they bound the entries still to be pushed.
use convergent_routing_analy.Prelude.{
  ℕ, zero, suc, ◌+◌, ◌≤◌, ◌<◌, ◌≡◌, refl, true, false, Bool, pos, List, length, set, replicate,
  if◌then◌else◌, arith, get_or-replicate,
}
use convergent_routing_analy.Float.{Float64}
use convergent_routing_analy.Graph.{Graph}
use convergent_routing_analy.Routing.Dijkstra.{WeightFunc, degree_sum}
use convergent_routing_analy.Routing.Dijkstra.Walks.{is_settled}
use convergent_routing_analy.Routing.Dijkstra.Traces.{is_settled-set}

module _ ⦃f : Float64⦄ (g : Graph) (weight : WeightFunc) where
  abbrev pub degree : ℕ → ℕ
  degree u = length (g.out_edge_ids (pos u))

  pub open_degree : List Bool → ℕ → ℕ
  open_degree seen zero = 0
  open_degree seen (suc n) =
      (if is_settled g weight seen n then 0 else degree n) + open_degree seen n

  open_degree-above :
      (seen : List Bool) (u n : ℕ)
      → u < length seen
      → n ≤ u
      → open_degree (set seen u true) n ≡ open_degree seen n
  unfolding open_degree
  open_degree-above seen u zero h le = refl
  open_degree-above seen u (suc n) h le =
      ground (arith, is_settled-set g weight seen u n h, open_degree-above seen u n h)

  -- Settling a node takes its out-edges away.
  pub open_degree-set :
      (seen : List Bool) (u n : ℕ)
      → u < length seen
      → is_settled g weight seen u ≡ false
      → u < n
      → open_degree (set seen u true) n + degree u ≡ open_degree seen n
  unfolding open_degree
  open_degree-set seen u zero h e lt = elim lt [ ]
  open_degree-set seen u (suc n) h e lt = ground (
    arith,
    is_settled-set g weight seen u n h,
    open_degree-set seen u n h e,
    open_degree-above seen u n h,
  )

  pub open_degree-start : (m n : ℕ) → open_degree (replicate m false) n ≡ degree_sum g n
  unfolding open_degree degree_sum
  open_degree-start m zero = refl
  open_degree-start m (suc n) = ground (arith, get_or-replicate m n false, open_degree-start m n)
