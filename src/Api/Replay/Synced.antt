-- ===== src/Api/Replay/Synced.antt =====
-- What the client of the stream holds of each algorithm, and the ticks that were sent.
use Prim.Native.String.{String}
use text.Mathlib.Text as Text
use text.Mathlib.TextEquality.{eq_iff}
use text.Mathlib.TextPositions.{eq_refl}
use mathlib.Core.List.{append-nil, append_assoc}
use convergent_routing_analy.Prelude.{
  ℕ, zero, suc, ◌≤◌, ◌≡◌, ◌≢◌, refl, sym, ap, subst, ◌∙◌, inl, inr, List, [], ◌∷◌, ◌++◌, Option,
  none, some, length, length-append, drop, get_elem?, get_elem?-some, if◌then◌else◌, Bool-cases,
  arith,
}
use convergent_routing_analy.Float.{Float64, Float, lt}
use convergent_routing_analy.Feed.{Clock}
use convergent_routing_analy.Api.Frames.{
  SegmentByEdge, Buckets, AlgoTick, Frame, put_buckets, build_snapshot, build_delta, find_bucket,
  diff, snapshot_entries,
}
use convergent_routing_analy.Api.Frames.Delta.{
  Same, IsDistinct, Shows, put_buckets-Same, put_buckets-sort_segments, diff-put_buckets,
  diff-Shows, snapshot_entries-Shows,
}
use convergent_routing_analy.Api.Replay.{
  LiveBuffers, Event, emit, finish, after_event, after_events, Lane, start_lane, due, send_latest,
  advance_lane,
}

module _ ⦃f : Float64⦄ where
  -- The client's map of one algorithm after the frames: a snapshot starts it, a delta changes it.
  unfoldable pub view : String → List Frame → Buckets → Buckets
  view name [] m = m
  view name (frame ∷ frames) m = view name frames (
      if Text.◌==◌ frame.algo name
      then put_buckets frame.shown (if frame.is_delta then m else [])
      else m)

  pub view-append :
      (name : String) (xs ys : List Frame) (m : Buckets)
      → view name (xs ++ ys) m ≡ view name ys (view name xs m)
  unfolding view
  view-append name [] ys m = refl
  view-append name (x ∷ xs) ys m = view-append name xs ys _

  abbrev pub NotNamed : String → List Frame → Type 0
  NotNamed name [] = Unit {0}
  NotNamed name (frame ∷ frames) = (frame.algo ≢ name) × NotNamed name frames

  pub view-NotNamed :
      (name : String) (frames : List Frame) (m : Buckets)
      → NotNamed name frames
      → view name frames m ≡ m
  unfolding view
  view-NotNamed name [] m h = refl
  view-NotNamed name (frame ∷ frames) m (ne, h) = elim (Bool-cases (Text.◌==◌ frame.algo name)) [
    | inl same ↦ absurd (ne ((eq_iff frame.algo name).0 same))
    | inr other ↦ rw other (view-NotNamed name frames m h)
  ]

  -- The ticks of the algorithm, and more.
  abbrev pub Grown : List AlgoTick → List AlgoTick → Type 0
  Grown xs ys = (more : List AlgoTick) × (ys ≡ xs ++ more)

  pub after_events-Grown :
      (es : List Event) (b : LiveBuffers) (name : String)
      → Grown (b.ticks name) ((after_events es b).ticks name)
  unfolding after_events
  after_events-Grown [] b name = ([], sym (append-nil (b.ticks name)))
  after_events-Grown (finish e ∷ es) b name = after_events-Grown es (after_event (finish e) b) name
  after_events-Grown (emit t ∷ es) b name =
      let (more, e) = after_events-Grown es (after_event (emit t) b) name in
      elim (Bool-cases (Text.◌==◌ t.algo name)) [
        | inl here ↦ (
          t ∷ more,
          e
              ∙ ap (λ z. (if z then b.ticks name ++ t ∷ [] else b.ticks name) ++ more) here
              ∙ append_assoc (b.ticks name) (t ∷ []) more,
        )
        | inr other ↦
            (more, e ∙ ap (λ z. (if z then b.ticks name ++ t ∷ [] else b.ticks name) ++ more) other)
      ]

  get_elem?-append_left :
      (xs ys : List AlgoTick) (i : ℕ) {t : AlgoTick}
      → get_elem? xs i ≡ some t
      → get_elem? (xs ++ ys) i ≡ some t
  get_elem?-append_left [] ys i h = cc
  get_elem?-append_left (x ∷ xs) ys zero h = h
  get_elem?-append_left (x ∷ xs) ys (suc i) h = get_elem?-append_left xs ys i h

  drop-suc :
      (c : ℕ) (xs ys : List AlgoTick) (t : AlgoTick)
      → drop c xs ≡ t ∷ ys
      → (drop (suc c) xs ≡ ys) × (get_elem? xs c ≡ some t)
  drop-suc zero [] ys t h = cc
  drop-suc zero (x ∷ xs) ys t h = (cc, cc)
  drop-suc (suc c) [] ys t h = cc
  drop-suc (suc c) (x ∷ xs) ys t h = drop-suc c xs ys t h

  -- A cursor that did not move, or the last tick before the cursor.
  Passed : List AlgoTick → ℕ → ℕ × Option AlgoTick → Type 0
  Passed ticks start (c, none) = c ≡ start
  Passed ticks start (c, some t) = (k : ℕ) × (c ≡ suc k) × (get_elem? ticks k ≡ some t)

  module _ (clock : Clock) (since : ℕ → ℕ → Float) (zero_time : ℕ) (segments : SegmentByEdge)
      (distinct : IsDistinct segments) where
    -- The last tick sent: the one before the cursor.
    abbrev pub ShowsSent : ℕ → List AlgoTick → Buckets → Type 0
    ShowsSent zero ticks m = Unit {0}
    ShowsSent (suc c) ticks m =
        (t : AlgoTick) × (get_elem? ticks c ≡ some t) × Shows segments t.state.vc m

    -- The client's map reads as lastBuckets, and shows the last tick sent.
    pub record InSync (lane : Lane) (ticks : List AlgoTick) (m : Buckets) : Type 0 where
      pub same : Same m lane.last_buckets
      pub within : lane.cursor ≤ length ticks
      pub shows : ShowsSent lane.cursor ticks lane.last_buckets

    pub start_lane-InSync :
        (name : String) (ticks : List AlgoTick) (m : Buckets)
        → let (lane, frame) = start_lane clock since zero_time segments name ticks in
          (lane.name ≡ name) × (frame.algo ≡ name) × InSync lane ticks (view name (frame ∷ []) m)
    unfolding start_lane build_snapshot view
    start_lane-InSync name [] m = (
      refl,
      refl,
      record { same = λ id. rw (eq_refl name) refl; within = omega arith; shows = tt },
    )
    start_lane-InSync name (t ∷ ticks) m = (
      refl,
      refl,
      record {
        same = λ id.
            rw (eq_refl name)
              (put_buckets-sort_segments (snapshot_entries segments t.state.vc) [] id);
        within = omega arith;
        shows = (t, refl, snapshot_entries-Shows segments t.state.vc [] distinct);
      },
    )

    ShowsSent-Grown :
        (c : ℕ) (xs more : List AlgoTick) (m : Buckets)
        → ShowsSent c xs m
        → ShowsSent c (xs ++ more) m
    ShowsSent-Grown zero xs more m h = tt
    ShowsSent-Grown (suc c) xs more m (t, at, w) = (t, get_elem?-append_left xs more c at, w)

    pub InSync-Grown :
        (lane : Lane) (xs ys : List AlgoTick) (m : Buckets)
        → Grown xs ys
        → InSync lane xs m
        → InSync lane ys m
    InSync-Grown lane xs ys m (more, e) s =
        subst (λ z. InSync lane z m) (sym e)
          (record {
            same = s.same;
            within = omega (arith, length-append xs more, s.within);
            shows = ShowsSent-Grown lane.cursor xs more lane.last_buckets s.shows;
          })

    send_latest-InSync :
        (lane : Lane) (ticks : List AlgoTick) (m : Buckets) (next : ℕ × Option AlgoTick)
        → InSync lane ticks m
        → Passed ticks lane.cursor next
        → let (lane', frames) = send_latest clock since zero_time segments lane next in
          (lane'.name ≡ lane.name) × InSync lane' ticks (view lane.name frames m)
    unfolding send_latest build_delta view Passed
    send_latest-InSync lane ticks m (c, none) s e = (
      refl,
      record {
        same = s.same;
        within = rw e s.within;
        shows = subst (λ z. ShowsSent z ticks lane.last_buckets) (sym e) s.shows;
      },
    )
    send_latest-InSync lane ticks m (c, some t) s (k, e, at) =
        let (changed, after) = diff segments t.state.vc lane.last_buckets in
        (
          refl,
          record {
            same = λ id. rw (eq_refl lane.name) (
                put_buckets-sort_segments changed m id
                ∙ put_buckets-Same changed m lane.last_buckets s.same id
                ∙ ap (find_bucket id)
                    (sym (diff-put_buckets segments t.state.vc lane.last_buckets)));
            within = omega (arith, get_elem?-some ticks k at, e);
            shows =
                subst (λ z. ShowsSent z ticks after) (sym e)
                  (t, at, diff-Shows segments t.state.vc lane.last_buckets distinct);
          },
        )

    due-Passed :
        (elapsed : Float) (first start : ℕ) (ticks rest : List AlgoTick) (c : ℕ)
        (latest : Option AlgoTick)
        → drop c ticks ≡ rest
        → Passed ticks start (c, latest)
        → Passed ticks start (due clock since zero_time segments elapsed first rest c latest)
    unfolding due Passed
    due-Passed elapsed first start ticks [] c latest e h = h
    due-Passed elapsed first start ticks (t ∷ ts) c latest e h =
        elim (Bool-cases (lt elapsed (since t.state.sim_time first))) [
          | inl later ↦ rw later h
          | inr reached ↦
              let (e', at) = drop-suc c ticks ts t e in
              rw reached (due-Passed elapsed first start ticks ts (suc c) (some t) e' (c, refl, at))
        ]

    pub advance_lane-InSync :
        (elapsed : Float) (lane : Lane) (ticks : List AlgoTick) (m : Buckets)
        → InSync lane ticks m
        → let (lane', frames) = advance_lane clock since zero_time segments elapsed lane ticks in
          (lane'.name ≡ lane.name) × InSync lane' ticks (view lane.name frames m)
    unfolding advance_lane Passed
    advance_lane-InSync elapsed lane ticks m s = send_latest-InSync lane ticks m _ s (
        due-Passed elapsed lane.first_sim_time lane.cursor ticks (drop lane.cursor ticks)
          lane.cursor none refl refl)
