-- ===== src/Api/Frames/Delta.antt =====
-- A client's map of buckets under the frames, and the map that the stream diffs against.
use text.Mathlib.Text as Text
use text.Mathlib.TextEquality.{eq_iff}
use text.Mathlib.TextPositions.{compare_refl}
use Prim.Native.String.{compare}
use convergent_routing_analy.Prelude.{
  ◌≡◌, ◌≢◌, refl, ap, ◌∙◌, inl, inr, false, ℤ, List, [], ◌∷◌, Option, none, some, if◌then◌else◌,
  Bool-cases, eqb_ℤ_iff, arith,
}
use convergent_routing_analy.Float.{Float64, Float}
use convergent_routing_analy.Domain.{SegmentId}
use convergent_routing_analy.Api.Frames.{
  SegmentByEdge, Buckets, find_bucket, bucket_of, vc_at, SegmentVc, insert_segment, sort_segments,
  snapshot_entries, put_buckets, has_changed, diff,
}

-- One map reads as the other.
abbrev pub Same : Buckets → Buckets → Type 0
Same m n = (id : SegmentId) → find_bucket id m ≡ find_bucket id n

abbrev pub Absent : SegmentId → SegmentByEdge → Type 0
Absent s [] = Unit {0}
Absent s ((id, t) ∷ rest) = (t ≢ s) × Absent s rest

-- The segments of a map from segments to edges, turned round, are distinct.
abbrev pub IsDistinct : SegmentByEdge → Type 0
IsDistinct [] = Unit {0}
IsDistinct ((id, s) ∷ rest) = Absent s rest × IsDistinct rest

find_bucket_self : (s : SegmentId) (b : ℤ) (m : Buckets) → find_bucket s ((s, b) ∷ m) ≡ some b
unfolding find_bucket
find_bucket_self s b m = ground (arith, eq_iff s s)

find_bucket-other :
    (s t : SegmentId) (b : ℤ) (m : Buckets) → t ≢ s → find_bucket s ((t, b) ∷ m) ≡ find_bucket s m
unfolding find_bucket
find_bucket-other s t b m h = ground (arith, eq_iff t s)

cons-Same : (s : SegmentId) (b : ℤ) (m n : Buckets) → Same m n → Same ((s, b) ∷ m) ((s, b) ∷ n)
unfolding find_bucket
cons-Same s b m n h id = ap (λ z. if Text.◌==◌ s id then some b else z) (h id)

swap-Same :
    (s t : SegmentId) (a b : ℤ) (m : Buckets)
    → s ≢ t
    → Same ((s, a) ∷ (t, b) ∷ m) ((t, b) ∷ (s, a) ∷ m)
unfolding find_bucket
swap-Same s t a b m h id = ground (arith, eq_iff s id, eq_iff t id)

lt_irrefl : (s : SegmentId) → Text.is_lt (compare s s) ≡ false
lt_irrefl s = rw (compare_refl s) refl

module _ ⦃f : Float64⦄ where
  pub put_buckets-Same :
      (es : List SegmentVc) (m n : Buckets) → Same m n → Same (put_buckets es m) (put_buckets es n)
  unfolding put_buckets
  put_buckets-Same [] m n h = h
  put_buckets-Same (e ∷ es) m n h = put_buckets-Same es _ _ (cons-Same e.segment_id e.bucket m n h)

  put_buckets-insert_segment :
      (x : SegmentVc) (es : List SegmentVc) (m : Buckets)
      → Same (put_buckets (insert_segment x es) m) (put_buckets (x ∷ es) m)
  unfolding put_buckets insert_segment
  put_buckets-insert_segment x [] m id = refl
  put_buckets-insert_segment x (y ∷ ys) m id =
      elim (Bool-cases (Text.is_lt (compare y.segment_id x.segment_id))) [
        | inl before ↦ rw before (
            put_buckets-insert_segment x ys ((y.segment_id, y.bucket) ∷ m) id
            ∙ put_buckets-Same ys _ _
                (swap-Same x.segment_id y.segment_id x.bucket y.bucket m (λ e. cc (
                  before,
                  lt_irrefl y.segment_id,
                  ap (λ z. Text.is_lt (compare y.segment_id z)) e,
                )))
                id)
        | inr after ↦ rw after refl
      ]

  -- The order of a frame does not change what the client reads.
  pub put_buckets-sort_segments :
      (es : List SegmentVc) (m : Buckets)
      → Same (put_buckets (sort_segments es) m) (put_buckets es m)
  unfolding put_buckets sort_segments
  put_buckets-sort_segments [] m id = refl
  put_buckets-sort_segments (e ∷ es) m id =
      put_buckets-insert_segment e (sort_segments es) m id
      ∙ put_buckets-sort_segments es ((e.segment_id, e.bucket) ∷ m) id

  -- The map after a diff is the map before it with the changed entries put.
  pub diff-put_buckets :
      (segments : SegmentByEdge) (vc : List Float) (last : Buckets)
      → (diff segments vc last).1 ≡ put_buckets (diff segments vc last).0 last
  unfolding diff put_buckets
  diff-put_buckets [] vc last = refl
  diff-put_buckets ((id, s) ∷ rest) vc last =
      elim (Bool-cases (has_changed (find_bucket s last) (bucket_of (vc_at vc id)))) [
        | inl changed ↦ rw changed (diff-put_buckets rest vc ((s, bucket_of (vc_at vc id)) ∷ last))
        | inr same ↦ rw same (diff-put_buckets rest vc last)
      ]

  -- The map has the bucket of every segment at the ratios.
  abbrev pub Shows : SegmentByEdge → List Float → Buckets → Type 0
  Shows [] vc m = Unit {0}
  Shows ((id, s) ∷ rest) vc m = (find_bucket s m ≡ some (bucket_of (vc_at vc id))) × Shows rest vc m

  pub Shows-Same :
      (segments : SegmentByEdge) (vc : List Float) (m n : Buckets)
      → Same m n
      → Shows segments vc n
      → Shows segments vc m
  Shows-Same [] vc m n h w = tt
  Shows-Same ((id, s) ∷ rest) vc m n h (e, w) = (h s ∙ e, Shows-Same rest vc m n h w)

  diff-Absent :
      (segments : SegmentByEdge) (vc : List Float) (last : Buckets) (s : SegmentId)
      → Absent s segments
      → find_bucket s (diff segments vc last).1 ≡ find_bucket s last
  unfolding diff
  diff-Absent [] vc last s h = refl
  diff-Absent ((id, t) ∷ rest) vc last s (ne, h) =
      elim (Bool-cases (has_changed (find_bucket t last) (bucket_of (vc_at vc id)))) [
        | inl changed ↦ rw changed (
            diff-Absent rest vc ((t, bucket_of (vc_at vc id)) ∷ last) s h
            ∙ find_bucket-other s t (bucket_of (vc_at vc id)) last ne)
        | inr same ↦ rw same (diff-Absent rest vc last s h)
      ]

  unchanged : (o : Option ℤ) (b : ℤ) → has_changed o b ≡ false → o ≡ some b
  unchanged none b h = cc
  unchanged (some prev) b h = ap some ((eqb_ℤ_iff prev b).0 (ground arith))

  pub diff-Shows :
      (segments : SegmentByEdge) (vc : List Float) (last : Buckets)
      → IsDistinct segments
      → Shows segments vc (diff segments vc last).1
  unfolding diff
  diff-Shows [] vc last h = tt
  diff-Shows ((id, s) ∷ rest) vc last (new, h) =
      elim (Bool-cases (has_changed (find_bucket s last) (bucket_of (vc_at vc id)))) [
        | inl changed ↦
            let next = (s, bucket_of (vc_at vc id)) ∷ last in
            rw changed (
              (diff-Absent rest vc next s new ∙ find_bucket_self s (bucket_of (vc_at vc id)) last),
              diff-Shows rest vc next h,
            )
        | inr same ↦ rw same (
          (diff-Absent rest vc last s new ∙ unchanged (find_bucket s last) _ same),
          diff-Shows rest vc last h,
        )
      ]

  put_buckets-Absent :
      (segments : SegmentByEdge) (vc : List Float) (m : Buckets) (s : SegmentId)
      → Absent s segments
      → find_bucket s (put_buckets (snapshot_entries segments vc) m) ≡ find_bucket s m
  unfolding put_buckets snapshot_entries
  put_buckets-Absent [] vc m s h = refl
  put_buckets-Absent ((id, t) ∷ rest) vc m s (ne, h) =
      put_buckets-Absent rest vc ((t, bucket_of (vc_at vc id)) ∷ m) s h
      ∙ find_bucket-other s t (bucket_of (vc_at vc id)) m ne

  pub snapshot_entries-Shows :
      (segments : SegmentByEdge) (vc : List Float) (m : Buckets)
      → IsDistinct segments
      → Shows segments vc (put_buckets (snapshot_entries segments vc) m)
  unfolding put_buckets snapshot_entries
  snapshot_entries-Shows [] vc m h = tt
  snapshot_entries-Shows ((id, s) ∷ rest) vc m (new, h) =
      let next = (s, bucket_of (vc_at vc id)) ∷ m in
      (
        put_buckets-Absent rest vc next s new ∙ find_bucket_self s (bucket_of (vc_at vc id)) m,
        snapshot_entries-Shows rest vc next h,
      )
