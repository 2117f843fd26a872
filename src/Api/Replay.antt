-- ===== src/Api/Replay.antt =====
-- engine/internal/api/stream.go: the buffers that the simulations fill, and the replay that drains
-- them. What the producer does between two holds of the lock is a list of events.
pub mod Synced
pub mod Lanes
pub mod Delivered
pub mod Drains
use Prim.Native.String.{String}
use text.Mathlib.Text as Text
use convergent_routing_analy.Prelude.{
  ℕ, suc, Bool, true, false, not, ◌&&◌, List, [], ◌∷◌, ◌++◌, Option, none, some, length, take, drop,
  ltb, ◌==◌, if◌then◌else◌,
}
use convergent_routing_analy.Float.{Float64, Float, of_nat, add, div, lt}
use convergent_routing_analy.Feed.{Clock}
use convergent_routing_analy.Api.Frames.{
  SegmentByEdge, Buckets, AlgoTick, Frame, build_snapshot, build_delta,
}

abbrev pub router_order : List String
router_order = "naive" ∷ "reactive" ∷ "incremental" ∷ "msa" ∷ "systemoptimal" ∷ "multipath" ∷ []

module _ ⦃f : Float64⦄ where
  -- notify holds at most one signal.
  pub record LiveBuffers : Type 0 where
    pub ticks : String → List AlgoTick
    pub finished : Bool
    pub err : Option String
    pub notified : Bool

  pub new_live_buffers : LiveBuffers
  new_live_buffers = record { ticks = λ name. []; finished = false; err = none; notified = false }

  -- The calls of the producer.
  pub data Event : Type 0 where
    emit : AlgoTick → Event
    finish : Option String → Event

  unfoldable pub after_event : Event → LiveBuffers → LiveBuffers
  after_event (emit t) b = record b {
    ticks = λ name. if Text.◌==◌ t.algo name then b.ticks name ++ t ∷ [] else b.ticks name;
    notified = true;
  }
  after_event (finish e) b = record b { finished = true; err = e; notified = true }

  unfoldable pub after_events : List Event → LiveBuffers → LiveBuffers
  unfolding after_event
  after_events [] b = b
  after_events (e ∷ es) b = after_events es (after_event e b)

  unfoldable pub have_all : List String → LiveBuffers → Bool
  have_all [] b = true
  have_all (name ∷ names) b = not (length (b.ticks name) == 0) && have_all names b

  -- What ends a wait: the context, or a signal that follows the events.
  pub data Wakeup : Type 0 where
    cancel : Wakeup
    signal : List Event → Wakeup

  pub data Waited : Type 0 where
    ready : LiveBuffers → Waited
    ctx_err : Waited
    still_waiting : LiveBuffers → Waited

  unfoldable pub wait_first_ticks : List Wakeup → LiveBuffers → Waited
  unfolding have_all after_events
  wait_first_ticks [] b =
      if have_all router_order b then ready b else if b.finished then ready b else still_waiting b
  wait_first_ticks (cancel ∷ ws) b =
      if have_all router_order b then ready b else if b.finished then ready b else ctx_err
  wait_first_ticks (signal es ∷ ws) b =
      let rest = wait_first_ticks ws (after_events es (record b { notified = false })) in
      if have_all router_order b then ready b else if b.finished then ready b else rest

  pub terminal_err : LiveBuffers → Option String
  terminal_err b = if b.finished then b.err else none

  pub final_err : LiveBuffers → Option String
  final_err b = b.err

  -- The entries of one algorithm in lastBuckets, cursor and firstSimTime.
  pub record Lane : Type 0 where
    pub name : String
    pub cursor : ℕ
    pub first_sim_time : ℕ
    pub last_buckets : Buckets

  pub record ReplayState : Type 0 where
    pub lanes : List Lane
    pub sim_seconds_per_server_tick : Float
    pub elapsed_sim_seconds : Float

  unfoldable pub all_sent : List Lane → LiveBuffers → Bool
  all_sent [] b = true
  all_sent (lane ∷ lanes) b =
      let rest = all_sent lanes b in
      if ltb lane.cursor (length (b.ticks lane.name)) then false else rest

  unfoldable pub is_done : ReplayState → LiveBuffers → Bool
  unfolding all_sent
  is_done s b = if b.finished then all_sent s.lanes b else false

  -- One round of the replay: whether the context is done at its select, what the producer does in
  -- it, and how many writes succeed.
  pub record Round : Type 0 where
    pub cancelled : Bool
    pub gaps : ℕ → List Event
    pub before_done : List Event
    pub writes : ℕ

  pub data ReplayEnd : Type 0 where
    drained ctx_done write_failed running : ReplayEnd

  pub record Replayed : Type 0 where
    pub end : ReplayEnd
    pub sent : List Frame
    pub state : ReplayState
    pub buffers : LiveBuffers

  -- `since a b` is a.Sub(b).Seconds(), of the time package, and zero_time is Go's zero time.
  module _ (clock : Clock) (since : ℕ → ℕ → Float) (zero_time : ℕ) (segments : SegmentByEdge) where
    unfoldable pub start_lane : String → List AlgoTick → Lane × Frame
    start_lane name [] =
        let (buckets, frame) = build_snapshot clock segments name none in
        (
          record { name = name; cursor = 0; first_sim_time = zero_time; last_buckets = buckets },
          frame,
        )
    start_lane name (first ∷ ticks) =
        let (buckets, frame) = build_snapshot clock segments name (some first) in
        (
          record {
            name = name;
            cursor = 1;
            first_sim_time = first.state.sim_time;
            last_buckets = buckets;
          },
          frame,
        )

    unfoldable pub start_lanes : List String → LiveBuffers → List Lane × List Frame
    unfolding start_lane
    start_lanes [] b = ([], [])
    start_lanes (name ∷ names) b =
        let (lane, frame) = start_lane name (b.ticks name) in
        let (lanes, frames) = start_lanes names b in (lane ∷ lanes, frame ∷ frames)

    -- newReplayState, for the replay speed and the server's tick rate.
    unfoldable pub new_replay_state : LiveBuffers → Float → Float → ReplayState × List Frame
    unfolding start_lanes
    new_replay_state b speed tick_hz =
        let (lanes, frames) = start_lanes router_order b in
        (
          record {
            lanes = lanes;
            sim_seconds_per_server_tick = div speed tick_hz;
            elapsed_sim_seconds = of_nat 0;
          },
          frames,
        )

    -- The ticks that are due, from the cursor on: the cursor after them, and the last of them.
    unfoldable pub due : Float → ℕ → List AlgoTick → ℕ → Option AlgoTick → ℕ × Option AlgoTick
    due elapsed first [] cursor latest = (cursor, latest)
    due elapsed first (t ∷ ts) cursor latest =
        let rest = due elapsed first ts (suc cursor) (some t) in
        if lt elapsed (since t.state.sim_time first) then (cursor, latest) else rest

    unfoldable pub send_latest : Lane → ℕ × Option AlgoTick → Lane × List Frame
    send_latest lane (cursor, none) = (record lane { cursor = cursor }, [])
    send_latest lane (cursor, some t) =
        let (frame, buckets) = build_delta clock segments lane.name t lane.last_buckets in
        (record lane { cursor = cursor; last_buckets = buckets }, frame ∷ [])

    unfoldable pub advance_lane : Float → Lane → List AlgoTick → Lane × List Frame
    unfolding due send_latest
    advance_lane elapsed lane ticks =
        send_latest lane (due elapsed lane.first_sim_time (drop lane.cursor ticks) lane.cursor none)

    -- `gaps i` is what the producer does before the read of the lane i.
    unfoldable pub advance_lanes :
        Float
        → (ℕ → List Event)
        → ℕ
        → List Lane
        → LiveBuffers
        → List Lane × List Frame × LiveBuffers
    unfolding advance_lane after_events
    advance_lanes elapsed gaps i [] b = ([], [], b)
    advance_lanes elapsed gaps i (lane ∷ lanes) b =
        let b' = after_events (gaps i) b in
        let (lane', sent) = advance_lane elapsed lane (b'.ticks lane.name) in
        let (lanes', frames, b'') = advance_lanes elapsed gaps (suc i) lanes b' in
        (lane' ∷ lanes', sent ++ frames, b'')

    unfoldable pub advance :
        (ℕ → List Event) → ReplayState → LiveBuffers → ReplayState × List Frame × LiveBuffers
    unfolding advance_lanes
    advance gaps s b =
        let elapsed = add s.elapsed_sim_seconds s.sim_seconds_per_server_tick in
        let (lanes, frames, b') = advance_lanes elapsed gaps 0 s.lanes b in
        (record s { lanes = lanes; elapsed_sim_seconds = elapsed }, frames, b')

    -- The loop of replay, after the frames `sent`.
    unfoldable pub replay_loop : List Round → List Frame → ReplayState → LiveBuffers → Replayed
    unfolding advance is_done after_events
    replay_loop [] sent s b = record { end = running; sent = sent; state = s; buffers = b }
    replay_loop (r ∷ rs) sent s b =
        let (s', frames, b') = advance r.gaps s b in
        let b'' = after_events r.before_done b' in
        let rest = replay_loop rs (sent ++ frames) s' b'' in
        if r.cancelled
        then record { end = ctx_done; sent = sent; state = s; buffers = b }
        else if ltb r.writes (length frames)
        then record {
          end = write_failed;
          sent = sent ++ take r.writes frames;
          state = s';
          buffers = b';
        }
        else if is_done s' b''
        then record { end = drained; sent = sent ++ frames; state = s'; buffers = b'' }
        else rest

    -- `writes` of the snapshots succeed.
    unfoldable pub replay : ℕ → List Round → List Frame → ReplayState → LiveBuffers → Replayed
    unfolding replay_loop
    replay writes rounds snapshots s b =
        if ltb writes (length snapshots)
        then record { end = write_failed; sent = take writes snapshots; state = s; buffers = b }
        else replay_loop rounds snapshots s b
