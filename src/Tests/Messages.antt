-- ===== src/Tests/Messages.antt =====
-- Two revisions of one window, and a message of another segment.
use Prim.Native.String.{String}
use text.Mathlib.Text as Text
use convergent_routing_analy.Prelude.{
  ℕ, zero, suc, ◌≡◌, refl, pos, List, [], ◌∷◌, some, none, false, if◌then◌else◌,
}
use convergent_routing_analy.Feed.{
  Clock, SegmentCongestion, dedup_keep_latest, congestion_instants, valid, dedup_from, keep,
  parse_canonical, validate, find_winner, put_winner,
}
use convergent_routing_analy.Feed.Winners.{Member}
use convergent_routing_analy.Feed.Latest.{DedupOr, dedup_keep_latest-DedupOr}
use convergent_routing_analy.Congestion.{new_load_store, set_load}
use convergent_routing_analy.Congestion.Static.{SegmentEdgeIndex, new_provider, place_winner}
use convergent_routing_analy.Tests.Numbers.{fin, numbers}

-- A clock that knows two texts.
abbrev small_clock : Clock
small_clock = record {
  parse =
      λ text. if Text.◌==◌ text "1" then some 1 else if Text.◌==◌ text "2" then some 2 else none;
  format = λ t. elim t [ zero ↦ "0" | suc n ↦ elim n [ zero ↦ "1" | suc k ↦ "2" ] ];
}

abbrev revision : String → String → ℕ → SegmentCongestion
revision segment emitted count = record {
  schema_version = pos 1;
  segment_id = segment;
  window_start = "1";
  window_end = "2";
  vehicle_count = pos count;
  avg_speed_kmh = fin 30;
  sample_pings = pos 4;
  is_final = false;
  emit_time = emitted;
  producer = "p";
}

abbrev messages : List SegmentCongestion
messages = revision "5:0:F" "2" 8 ∷ revision "7:0:R" "1" 3 ∷ revision "5:0:F" "1" 6 ∷ []

dedup_run :
    dedup_keep_latest small_clock messages
    ≡ valid (
        record { message = revision "5:0:F" "2" 8; at = record { window_start = 1; emit_time = 2 } }
        ∷ record {
          message = revision "7:0:R" "1" 3;
          at = record { window_start = 1; emit_time = 1 };
        }
        ∷ [])
unfolding dedup_keep_latest dedup_from keep congestion_instants parse_canonical find_winner
    put_winner
dedup_run = refl

dedup_keep_latest-DedupOr_example :
    DedupOr small_clock (λ m. Member m messages) messages (dedup_keep_latest small_clock messages)
dedup_keep_latest-DedupOr_example = dedup_keep_latest-DedupOr small_clock messages

-- The segment 7:0:R has no edge.
abbrev index : SegmentEdgeIndex
index = ("5:0:F", pos 1) ∷ []

provider_run :
    new_provider small_clock messages index (pos 2)
    ≡ valid (record { store = fin 0 ∷ fin 96 ∷ []; skipped = 1 })
unfolding new_provider new_load_store place_winner set_load dedup_keep_latest validate dedup_from
provider_run = refl
