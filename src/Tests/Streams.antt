-- ===== src/Tests/Streams.antt =====
-- A stream of two ticks of each algorithm, its queries and its slots.
use text.Mathlib.Text as Text
use text.Mathlib.TextEquality.{eq_iff}
use convergent_routing_analy.Prelude.{
  ℕ, ◌-◌, ◌≤◌, ◌≡◌, ◌↔◌, refl, length, Bool, true, pos, List, [], ◌∷◌, none, some, replicate,
  if◌then◌else◌,
}
use convergent_routing_analy.Float.{Float64, Float}
use convergent_routing_analy.Tests.Numbers
use convergent_routing_analy.Tests.Numbers.{fin, top}
use convergent_routing_analy.Feed.{Clock}
use convergent_routing_analy.Api.Frames.{SegmentByEdge, AlgoTick}
use convergent_routing_analy.Api.Frames.Delta.{IsDistinct}
use convergent_routing_analy.Api.Replay.{
  router_order, LiveBuffers, Replayed, new_replay_state, replay, drained,
}
use convergent_routing_analy.Api.Replay.Delivered.{AllShowLast, replay-Delivers}
use convergent_routing_analy.Api.Replay.Drains.{quiet, clock_after, Covers, replay-drains}
use convergent_routing_analy.Api.Params.{
  Query, Readers, StreamParams, parse_stream_params, accepted, default_params, unavailable,
  handle_stream, no_streams, StreamEvent, request, close, streams_after,
}
use convergent_routing_analy.Api.Params.Bounds.{accepted_iff, IsReading}
use convergent_routing_analy.Api.Params.Slots.{streams_after-Le}

-- The natural numbers with a quotient that keeps its dividend, so that a ratio has its own bucket.
instance abbrev units : Float64
units = record Numbers.numbers { div = λ a b. a }

abbrev clock : Clock
clock = record { parse = λ s. none; format = λ t. "then" }

abbrev seconds : ℕ → ℕ → Float
seconds a b = fin (a - b)

abbrev two_segments : SegmentByEdge
two_segments = (pos 0, "1:0:F") ∷ (pos 1, "1:0:R") ∷ []

two_segments-IsDistinct : IsDistinct two_segments
two_segments-IsDistinct = (((λ e. cc ((eq_iff "1:0:R" "1:0:F").1 e)), tt), (tt, tt))

abbrev tick_at : ℕ → List Float → AlgoTick
tick_at t vc = record {
  algo = "naive";
  state = record { tick = pos t; sim_time = t; in_flight = pos 1; completed = pos 0; vc = vc };
  compute_nanos = fin 5;
  route_median_nanos = pos 5;
  realized_total_s = fin 9;
  static_poa = fin 1;
}

abbrev two_ticks : List AlgoTick
two_ticks = tick_at 30 (fin 0 ∷ fin 2 ∷ []) ∷ tick_at 60 (fin 4 ∷ fin 2 ∷ []) ∷ []

abbrev full_buffers : LiveBuffers
full_buffers = record { ticks = λ name. two_ticks; finished = true; err = none; notified = true }

abbrev played : Replayed
played =
    let (s, snapshots) =
      new_replay_state clock seconds 0 two_segments full_buffers (fin 40) (fin 1) in
    replay clock seconds 0 two_segments 6 (replicate 1 quiet) snapshots s full_buffers

all-covered : Covers clock seconds 0 two_segments (fin 40) router_order full_buffers
all-covered = (
  (refl, (refl, tt)),
  (
    (refl, (refl, tt)),
    ((refl, (refl, tt)), ((refl, (refl, tt)), ((refl, (refl, tt)), ((refl, (refl, tt)), tt)))),
  ),
)

-- Both ticks are due after one round of 40 seconds, and one frame covers them.
frames_sent : length played.sent ≡ 12
unfolding new_replay_state replay
frames_sent = refl

replay-drains_example : played.end ≡ drained
unfolding clock_after
replay-drains_example =
    replay-drains clock seconds 0 two_segments full_buffers (fin 40) (fin 1) 0 refl all-covered

replay-Delivers_example :
    (played.buffers.finished ≡ true)
    × AllShowLast clock seconds 0 two_segments two_segments-IsDistinct router_order played.buffers
        played.sent
unfolding clock_after
replay-Delivers_example =
    replay-Delivers clock seconds 0 two_segments two_segments-IsDistinct full_buffers (fin 40)
      (fin 1) 6 (replicate 1 quiet)
      (replay-drains clock seconds 0 two_segments full_buffers (fin 40) (fin 1) 0 refl all-covered)

-- The texts that these readers know.
abbrev readers : Readers
readers = record {
  parse_float = λ s. if Text.◌==◌ s "2" then some (fin 2) else none;
  parse_int = λ s. none;
  atoi = λ s. if Text.◌==◌ s "7" then some (pos 7) else none;
  parse_time = λ s. none;
}

abbrev query : Query
query key =
    if Text.◌==◌ key "speed" then "2" ∷ [] else if Text.◌==◌ key "count" then "7" ∷ [] else []

abbrev seven_at_two : StreamParams
seven_at_two = record (default_params 8) { speed = fin 2; count = pos 7 }

parse_test : parse_stream_params readers 8 query ≡ accepted seven_at_two
unfolding parse_stream_params
parse_test = refl

accepted_iff_example :
    (parse_stream_params readers 8 query ≡ accepted seven_at_two)
    ↔ IsReading readers 8 query seven_at_two
accepted_iff_example = accepted_iff readers 8 query seven_at_two

abbrev ask : StreamEvent
ask = request true query

-- A full house refuses the next connection, and a connection that ends makes room for one.
abbrev nine_asked : List StreamEvent
nine_asked = ask ∷ ask ∷ ask ∷ ask ∷ ask ∷ ask ∷ ask ∷ ask ∷ ask ∷ []

nine_asked_test : streams_after readers 8 no_streams nine_asked ≡ record { taken = 8; running = 8 }
unfolding streams_after
nine_asked_test = refl

streams_after-Le_example :
    let s = streams_after readers 8 no_streams (close ∷ ask ∷ close ∷ nine_asked) in
    (s.running ≤ 8)
    × (s.taken ≡ s.running)
    × ((is_get : Bool) (q : Query)
        → handle_stream readers 8 s.taken is_get q ≡ unavailable
        → s.running ≡ 8)
streams_after-Le_example = streams_after-Le readers 8 (close ∷ ask ∷ close ∷ nine_asked)
