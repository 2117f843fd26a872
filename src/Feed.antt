-- ===== src/Feed.antt =====
-- engine/internal/domain/segment_congestion.go: segment-congestion messages, their bounds, and the
-- keep-latest rule. Strings are compared whole; the time package is a parameter.
pub mod Winners
pub mod Latest
use Prim.Native.String.{String}
use text.Mathlib.Text as Text
use convergent_routing_analy.Prelude.{
  ℕ, Bool, true, false, ℤ, pos, negsuc, List, [], ◌∷◌, Option, none, some, map, ltb, ◌==◌, eqb_ℤ,
  if◌then◌else◌,
}
use convergent_routing_analy.Float.{Float64, Float, of_nat, le}

-- time.Parse with RFC3339, as an instant, and the UTC format of an instant.
pub record Clock : Type 0 where
  pub parse : String → Option ℕ
  pub format : ℕ → String

pub data FeedError : Type 0 where
  wrong_version negative_count negative_pings not_moving : String → FeedError
  -- The field, the segment and the text.
  not_parseable not_canonical : String → String → String → FeedError

pub data Checked {ℓ} (A : Type ℓ) : Type ℓ where
  valid : A → Checked A
  invalid : FeedError → Checked A

-- The instants of a message, window_start and emit_time.
pub record Instants : Type 0 where
  pub window_start : ℕ
  pub emit_time : ℕ

-- congestionLess
abbrev pub congestion_less : Instants → Instants → Bool
congestion_less a b =
    if a.window_start == b.window_start
    then ltb a.emit_time b.emit_time
    else ltb a.window_start b.window_start

abbrev pub expected_schema_version : ℤ
expected_schema_version = pos 1

module _ ⦃f : Float64⦄ where
  pub record SegmentCongestion : Type 0 where
    pub schema_version : ℤ
    pub segment_id : String
    pub window_start : String
    pub window_end : String
    pub vehicle_count : ℤ
    pub avg_speed_kmh : Float
    pub sample_pings : ℤ
    pub is_final : Bool
    pub emit_time : String
    pub producer : String

  abbrev is_negative : ℤ → Bool
  is_negative (pos n) = false
  is_negative (negsuc n) = true

  unfoldable pub validate : SegmentCongestion → Option FeedError
  validate m =
      if eqb_ℤ m.schema_version expected_schema_version
      then (if is_negative m.vehicle_count
          then some (negative_count m.segment_id)
          else if is_negative m.sample_pings
          then some (negative_pings m.segment_id)
          else if le m.avg_speed_kmh (of_nat 0)
          then some (not_moving m.segment_id)
          else none)
      else some (wrong_version m.segment_id)

  pub record Timed : Type 0 where
    pub message : SegmentCongestion
    pub at : Instants

  -- The map of winners, by segment.
  unfoldable pub find_winner : String → List Timed → Option Timed
  find_winner id [] = none
  find_winner id (t ∷ ts) = if Text.◌==◌ t.message.segment_id id then some t else find_winner id ts

  unfoldable pub put_winner : Timed → List Timed → List Timed
  put_winner w [] = w ∷ []
  put_winner w (t ∷ ts) =
      if Text.◌==◌ t.message.segment_id w.message.segment_id then w ∷ ts else t ∷ put_winner w ts

  module _ (clock : Clock) where
    -- parseCanonicalTimestamp: the text must be what its instant prints as.
    unfoldable pub parse_canonical : String → String → String → Checked ℕ
    parse_canonical field id text = elim (clock.parse text) [
      | none ↦ invalid (not_parseable field id text)
      | some t ↦
          if Text.◌==◌ (clock.format t) text then valid t else invalid (not_canonical field id text)
    ]

    unfoldable pub congestion_instants : SegmentCongestion → Checked Instants
    unfolding parse_canonical
    congestion_instants m = elim (parse_canonical "window_start" m.segment_id m.window_start) [
      | invalid e ↦ invalid e
      | valid start ↦ elim (parse_canonical "emit_time" m.segment_id m.emit_time) [
        | invalid e ↦ invalid e
        | valid emit ↦ valid (record { window_start = start; emit_time = emit })
      ]
    ]

    -- A message against the winner of its segment.
    unfoldable pub keep : List Timed → Timed → List Timed
    unfolding put_winner find_winner
    keep winners t = elim (find_winner t.message.segment_id winners) [
      | none ↦ put_winner t winners
      | some current ↦ if congestion_less current.at t.at then put_winner t winners else winners
    ]

    unfoldable pub dedup_from : List Timed → List SegmentCongestion → Checked (List Timed)
    unfolding keep congestion_instants
    dedup_from winners [] = valid winners
    dedup_from winners (m ∷ ms) = elim (congestion_instants m) [
      | invalid e ↦ invalid e
      | valid at ↦ dedup_from (keep winners (record { message = m; at = at })) ms
    ]

    -- DedupKeepLatest, each winner with its instants.
    unfoldable pub dedup_keep_latest : List SegmentCongestion → Checked (List Timed)
    dedup_keep_latest ms = dedup_from [] ms
