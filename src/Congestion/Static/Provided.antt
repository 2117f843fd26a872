-- ===== src/Congestion/Static/Provided.antt =====
-- What NewProvider gives: messages checked, deduplicated and placed.
use convergent_routing_analy.Prelude.{ℕ, ◌≡◌, ◌⊎◌, ℤ, pos, List, Option, none, some, to_index}
use convergent_routing_analy.Float.{Float64, of_nat}
use convergent_routing_analy.Feed.{
  Clock, FeedError, Checked, valid, invalid, SegmentCongestion, Timed, validate,
  congestion_instants,
}
use convergent_routing_analy.Feed.Winners.{Member, WinnersOf}
use convergent_routing_analy.Congestion.{load, new_load_store}
use convergent_routing_analy.Congestion.Static.{SegmentEdgeIndex, StaticProvider}
use convergent_routing_analy.Congestion.Static.Placed.{LastOn, Lost, hourly}

module _ ⦃f : Float64⦄ where
  -- All messages are in bounds, or one is not, for the reason given.
  abbrev BoundsOr : List SegmentCongestion → Option FeedError → Type 0
  BoundsOr ms none = (m : SegmentCongestion) → Member m ms → validate m ≡ none
  BoundsOr ms (some e) = (m : SegmentCongestion) × Member m ms × (validate m ≡ some e)

  module _ (clock : Clock) (index : SegmentEdgeIndex) (edge_count : ℤ) where
    -- The loads and the count of the provider, from the latest message of each segment.
    pub record Provides (messages : List SegmentCongestion) (p : StaticProvider) : Type 0 where
      pub winners : List Timed
      pub in_bounds : (m : SegmentCongestion) → Member m messages → validate m ≡ none
      pub latest : WinnersOf clock (λ m. Member m messages) winners
      pub loads :
          (i : ℕ)
          → (last : Option Timed) × LastOn index (to_index edge_count) i winners last
            × (load p.store (pos i) ≡ hourly index (to_index edge_count) last (of_nat 0))
      pub skipped : Lost index (to_index edge_count) winners p.skipped

    abbrev pub ProvidesOr : List SegmentCongestion → Checked StaticProvider → Type 0
    ProvidesOr messages (valid p) = Provides messages p
    ProvidesOr messages (invalid e) =
        (m : SegmentCongestion) × Member m messages
        × ((validate m ≡ some e) ⊎ (congestion_instants clock m ≡ invalid e))

    abbrev empty_provider : StaticProvider
    empty_provider = record { store = new_load_store edge_count; skipped = 0 }
