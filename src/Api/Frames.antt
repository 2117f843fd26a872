-- ===== src/Api/Frames.antt =====
-- engine/internal/api/stream.go: the buckets of v/c ratios, and the snapshot and delta frames. The
-- map from edges to segments is the list of its entries in the order of the loop; the map from
-- segments to buckets is an association list, the latest entry first.
pub mod Delta
use Prim.Native.String.{String, compare}
use text.Mathlib.Text as Text
use convergent_routing_analy.Prelude.{
  ℕ, ◌-◌, Bool, true, false, not, ◌||◌, ℤ, pos, negsuc, List, [], ◌∷◌, Option, none, some, length,
  get_or, leb, if◌then◌else◌, in_range, eqb_ℤ,
}
use convergent_routing_analy.Float.{Float64, Float, of_nat, add, div, le, eq, floor, to_int}
use convergent_routing_analy.Domain.{EdgeId, SegmentId}
use convergent_routing_analy.Feed.{Clock}

abbrev pub vc_bucket_count : ℕ
vc_bucket_count = 24

-- segmentByEdge
abbrev pub SegmentByEdge : Type 0
SegmentByEdge = List (EdgeId × SegmentId)

abbrev pub Buckets : Type 0
Buckets = List (SegmentId × ℤ)

unfoldable pub find_bucket : SegmentId → Buckets → Option ℤ
find_bucket id [] = none
find_bucket id ((s, b) ∷ rest) = if Text.◌==◌ s id then some b else find_bucket id rest

module _ ⦃f : Float64⦄ where
  -- 0.1 and 1e-9 are the nearest float64 to 1/10 and 1/1000000000.
  abbrev pub vc_bucket_width : Float
  vc_bucket_width = div (of_nat 1) (of_nat 10)

  abbrev pub bucket_epsilon : Float
  bucket_epsilon = div (of_nat 1) (of_nat 1000000000)

  -- `a != a`
  abbrev pub is_nan : Float → Bool
  is_nan a = not (eq a a)

  -- `b >= n`: the last bucket.
  abbrev saturate : ℤ → ℕ → ℤ
  saturate (negsuc b) n = negsuc b
  saturate (pos b) n = if leb n b then pos (n - 1) else pos b

  unfoldable pub bucket_of : Float → ℤ
  bucket_of vc =
      if le vc (of_nat 0) || is_nan vc
      then pos 0
      else saturate (to_int (floor (add (div vc vc_bucket_width) bucket_epsilon))) vc_bucket_count

  unfoldable pub vc_at : List Float → EdgeId → Float
  vc_at vc id = elim (in_range id (length vc)) [ none ↦ of_nat 0 | some i ↦ get_or vc i (of_nat 0) ]

  pub record SegmentVc : Type 0 where
    pub segment_id : SegmentId
    pub vc : Float
    pub bucket : ℤ

  -- `a.SegmentID < b.SegmentID`
  abbrev segment_lt : SegmentVc → SegmentVc → Bool
  segment_lt a b = Text.is_lt (compare a.segment_id b.segment_id)

  -- sort.Slice by segment id
  unfoldable pub insert_segment : SegmentVc → List SegmentVc → List SegmentVc
  insert_segment x [] = x ∷ []
  insert_segment x (y ∷ ys) = if segment_lt y x then y ∷ insert_segment x ys else x ∷ y ∷ ys

  unfoldable pub sort_segments : List SegmentVc → List SegmentVc
  unfolding insert_segment
  sort_segments [] = []
  sort_segments (x ∷ xs) = insert_segment x (sort_segments xs)

  -- The simulator's TickState, as far as the stream reads it.
  pub record TickState : Type 0 where
    pub tick : ℤ
    pub sim_time : ℕ
    pub in_flight : ℤ
    pub completed : ℤ
    pub vc : List Float

  pub record AlgoTick : Type 0 where
    pub algo : String
    pub state : TickState
    pub compute_nanos : Float
    pub route_median_nanos : ℤ
    pub realized_total_s : Float
    pub static_poa : Float

  pub record AlgoMetrics : Type 0 where
    pub compute_ms : Float
    pub route_median_nanos : ℤ
    pub realized_total_s : Float
    pub poa : Float
    pub in_flight : ℤ
    pub completed : ℤ

  -- float64 of the nanoseconds is the field's value.
  pub metrics_of : AlgoTick → AlgoMetrics
  metrics_of t = record {
    compute_ms = div t.compute_nanos (of_nat 1000000);
    route_median_nanos = t.route_median_nanos;
    realized_total_s = t.realized_total_s;
    poa = t.static_poa;
    in_flight = t.state.in_flight;
    completed = t.state.completed;
  }

  abbrev zero_metrics : AlgoMetrics
  zero_metrics = record {
    compute_ms = of_nat 0;
    route_median_nanos = pos 0;
    realized_total_s = of_nat 0;
    poa = of_nat 0;
    in_flight = pos 0;
    completed = pos 0;
  }

  -- A snapshot has the field `segments` of the source in `shown`, a delta the field `changed`; the
  -- source's field `type` is `is_delta`.
  pub record Frame : Type 0 where
    pub is_delta : Bool
    pub algo : String
    pub tick : ℤ
    pub sim_time : String
    pub shown : List SegmentVc
    pub metrics : AlgoMetrics

  -- The entries of a snapshot, and the buckets that they establish.
  unfoldable pub snapshot_entries : SegmentByEdge → List Float → List SegmentVc
  unfolding bucket_of vc_at
  snapshot_entries [] vc = []
  snapshot_entries ((id, segment) ∷ rest) vc =
      let v = vc_at vc id in
      record { segment_id = segment; vc = v; bucket = bucket_of v } ∷ snapshot_entries rest vc

  unfoldable pub put_buckets : List SegmentVc → Buckets → Buckets
  put_buckets [] buckets = buckets
  put_buckets (e ∷ es) buckets = put_buckets es ((e.segment_id, e.bucket) ∷ buckets)

  abbrev pub empty_snapshot : String → Frame
  empty_snapshot name = record {
    is_delta = false;
    algo = name;
    tick = pos 0;
    sim_time = "";
    shown = [];
    metrics = zero_metrics;
  }

  -- `first` is none where the source's `have` is false.
  unfoldable pub build_snapshot : Clock → SegmentByEdge → String → Option AlgoTick → Buckets × Frame
  unfolding snapshot_entries put_buckets sort_segments
  build_snapshot clock segments name none = ([], empty_snapshot name)
  build_snapshot clock segments name (some first) =
      let entries = snapshot_entries segments first.state.vc in
      (
        put_buckets entries [],
        record {
          is_delta = false;
          algo = name;
          tick = first.state.tick;
          sim_time = clock.format first.state.sim_time;
          shown = sort_segments entries;
          metrics = metrics_of first;
        },
      )

  -- `!ok || prev != b`
  abbrev pub has_changed : Option ℤ → ℤ → Bool
  has_changed none b = true
  has_changed (some prev) b = not (eqb_ℤ prev b)

  -- The changed entries, and the buckets after them.
  unfoldable pub diff : SegmentByEdge → List Float → Buckets → List SegmentVc × Buckets
  unfolding bucket_of vc_at find_bucket
  diff [] vc last = ([], last)
  diff ((id, segment) ∷ rest) vc last =
      let v = vc_at vc id in
      let b = bucket_of v in
      let changed = has_changed (find_bucket segment last) b in
      let (es, after) = diff rest vc (if changed then (segment, b) ∷ last else last) in
      (if changed then record { segment_id = segment; vc = v; bucket = b } ∷ es else es, after)

  -- The frame, and lastBuckets after it.
  unfoldable pub build_delta : Clock → SegmentByEdge → String → AlgoTick → Buckets → Frame × Buckets
  unfolding diff sort_segments
  build_delta clock segments name t last =
      let (changed, after) = diff segments t.state.vc last in
      (
        record {
          is_delta = true;
          algo = name;
          tick = t.state.tick;
          sim_time = clock.format t.state.sim_time;
          shown = sort_segments changed;
          metrics = metrics_of t;
        },
        after,
      )
