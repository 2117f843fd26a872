-- ===== src/Congestion/Static.antt =====
-- engine/internal/congestion/static/static.go: the loads that a batch of messages puts on the edges.
-- The map from segments to edges is an association list, the latest entry first.
pub mod Placed
pub mod Provided
use Prim.Native.String.{String}
use text.Mathlib.Text as Text
use convergent_routing_analy.Prelude.{
  ℕ, zero, suc, ◌+◌, Bool, true, false, ℤ, pos, negsuc, List, [], ◌∷◌, Option, none, some,
  if◌then◌else◌, to_index, in_range,
}
use convergent_routing_analy.Float.{Float64, Float, of_nat, mul}
use convergent_routing_analy.Domain.{EdgeId, SegmentId}
use convergent_routing_analy.Graph.{Graph, Edge}
use convergent_routing_analy.Feed.{
  Clock, FeedError, Checked, valid, invalid, SegmentCongestion, Timed, validate, dedup_keep_latest,
}
use convergent_routing_analy.Congestion.{LoadSnapshot, load, set_load, new_load_store}

abbrev pub annualization_factor : ℕ
annualization_factor = 12

abbrev pub SegmentEdgeIndex : Type 0
SegmentEdgeIndex = List (SegmentId × EdgeId)

unfoldable pub find_edge : SegmentId → SegmentEdgeIndex → Option EdgeId
find_edge segment [] = none
find_edge segment ((s, id) ∷ rest) = if Text.◌==◌ s segment then some id else find_edge segment rest

module _ ⦃f : Float64⦄ where
  -- The edges from id i on, `k` of them, put in front of the index.
  pub index_from : Graph → ℕ → ℕ → SegmentEdgeIndex → SegmentEdgeIndex
  index_from g zero i index = index
  index_from g (suc k) i index = elim (g.edge (pos i)) [
    | none ↦ index_from g k (suc i) index
    | some edge ↦ index_from g k (suc i) ((edge.segment, edge.id) ∷ index)
  ]

  pub build_segment_edge_index : Graph → SegmentEdgeIndex
  build_segment_edge_index g = index_from g g.edge_count 0 []

  pub record StaticProvider : Type 0 where
    pub store : LoadSnapshot
    pub skipped : ℕ

  -- The first message that is out of bounds.
  unfoldable pub validate_all : List SegmentCongestion → Option FeedError
  validate_all [] = none
  validate_all (m ∷ ms) = elim (validate m) [ some e ↦ some e | none ↦ validate_all ms ]

  -- float64(count) of a count that Validate admitted.
  abbrev pub vehicles : ℤ → Float
  vehicles n = of_nat (to_index n)

  -- The edge of a winner, if its segment is known and the edge is in range.
  unfoldable pub edge_of : SegmentEdgeIndex → ℕ → Timed → Option ℕ
  unfolding find_edge
  edge_of index edge_count w = elim (find_edge w.message.segment_id index) [
    | none ↦ none
    | some id ↦ in_range id edge_count
  ]

  unfoldable pub place_winner : SegmentEdgeIndex → ℕ → StaticProvider → Timed → StaticProvider
  unfolding edge_of
  place_winner index edge_count p w = elim (edge_of index edge_count w) [
    | none ↦ record p { skipped = p.skipped + 1 }
    | some i ↦ record p {
      store =
          set_load p.store (pos i)
            (mul (vehicles w.message.vehicle_count) (of_nat annualization_factor));
    }
  ]

  unfoldable pub place_winners : SegmentEdgeIndex → ℕ → StaticProvider → List Timed → StaticProvider
  unfolding place_winner
  place_winners index edge_count p [] = p
  place_winners index edge_count p (w ∷ ws) =
      place_winners index edge_count (place_winner index edge_count p w) ws

  -- NewProvider, with the winners in the order in which the loop meets them. A negative edge count is
  -- zero.
  unfoldable pub new_provider :
      Clock → List SegmentCongestion → SegmentEdgeIndex → ℤ → Checked StaticProvider
  unfolding place_winners validate_all
  new_provider clock messages index edge_count = elim (validate_all messages) [
    | some e ↦ invalid e
    | none ↦ elim (dedup_keep_latest clock messages) [
      | invalid e ↦ invalid e
      | valid winners ↦ valid (
          place_winners index (to_index edge_count)
            (record { store = new_load_store edge_count; skipped = 0 }) winners)
    ]
  ]
