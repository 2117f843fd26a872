-- ===== src/Api/Replay/Drains.antt =====
-- A replay of a finished run ends: once the simulated clock has reached every tick, all are sent.
use Prim.Native.String.{String}
use convergent_routing_analy.Prelude.{
  ℕ, zero, suc, ◌+◌, ◌≤◌, ◌≡◌, refl, ap, ap₂, ◌∙◌, inl, inr, true, false, List, [], ◌∷◌, ◌++◌,
  Option, none, some, length, length-append, length-drop, drop, replicate, if◌then◌else◌,
  Bool-cases, arith, ltb,
}
use convergent_routing_analy.Float.{Float64, Float, of_nat, add, div, lt}
use convergent_routing_analy.Feed.{Clock}
use convergent_routing_analy.Api.Frames.{SegmentByEdge, AlgoTick, Frame}
use convergent_routing_analy.Api.Replay.{
  router_order, LiveBuffers, Lane, ReplayState, start_lane, start_lanes, new_replay_state, due,
  send_latest, advance_lane, advance_lanes, advance, all_sent, is_done, Round, drained, replay_loop,
  replay,
}

module _ ⦃f : Float64⦄ where
  -- A round in which the context lives, the writes succeed and the producer does nothing.
  abbrev pub quiet : Round
  quiet = record { cancelled = false; gaps = λ i. []; before_done = []; writes = 6 }

  -- The simulated clock after the rounds.
  unfoldable pub clock_after : ℕ → Float → Float → Float
  clock_after zero x step = x
  clock_after (suc n) x step = clock_after n (add x step) step

  module _ (clock : Clock) (since : ℕ → ℕ → Float) (zero_time : ℕ) (segments : SegmentByEdge) where
    -- No tick is later than the elapsed time.
    abbrev pub Reached : Float → ℕ → List AlgoTick → Type 0
    Reached elapsed first [] = Unit {0}
    Reached elapsed first (t ∷ ts) =
        (lt elapsed (since t.state.sim_time first) ≡ false) × Reached elapsed first ts

    Reached-drop :
        (elapsed : Float) (first c : ℕ) (ticks : List AlgoTick)
        → Reached elapsed first ticks
        → Reached elapsed first (drop c ticks)
    Reached-drop elapsed first zero ticks h = h
    Reached-drop elapsed first (suc c) [] h = tt
    Reached-drop elapsed first (suc c) (t ∷ ts) (_, h) = Reached-drop elapsed first c ts h

    due-Reached :
        (elapsed : Float) (first : ℕ) (ticks : List AlgoTick) (c : ℕ) (latest : Option AlgoTick)
        → Reached elapsed first ticks
        → (due clock since zero_time segments elapsed first ticks c latest).0 ≡ c + length ticks
    unfolding due
    due-Reached elapsed first [] c latest h = omega arith
    due-Reached elapsed first (t ∷ ts) c latest (now, h) =
        rw now (due-Reached elapsed first ts (suc c) (some t) h ∙ omega arith)

    send_latest_lem :
        (lane : Lane) (next : ℕ × Option AlgoTick)
        → let (lane', frames) = send_latest clock since zero_time segments lane next in
          (lane'.name ≡ lane.name)
          × (lane'.first_sim_time ≡ lane.first_sim_time)
          × (lane'.cursor ≡ next.0)
          × (length frames ≤ 1)
    unfolding send_latest
    send_latest_lem lane (c, none) = (refl, refl, refl, omega arith)
    send_latest_lem lane (c, some t) = (refl, refl, refl, omega arith)

    advance_lane_lem :
        (elapsed : Float) (lane : Lane) (ticks : List AlgoTick)
        → let (lane', frames) = advance_lane clock since zero_time segments elapsed lane ticks in
          (lane'.name ≡ lane.name)
          × (lane'.first_sim_time ≡ lane.first_sim_time)
          × (length frames ≤ 1)
          × (Reached elapsed lane.first_sim_time ticks → length ticks ≤ lane'.cursor)
    unfolding advance_lane
    advance_lane_lem elapsed lane ticks =
        let first = lane.first_sim_time in
        let next =
          due clock since zero_time segments elapsed first (drop lane.cursor ticks) lane.cursor
            none in
        let (named, same, moved, few) = send_latest_lem lane next in
        (
          named,
          same,
          few,
          λ h. omega (
            arith,
            moved,
            due-Reached elapsed first (drop lane.cursor ticks) lane.cursor none
                (Reached-drop elapsed first lane.cursor ticks h),
            length-drop lane.cursor ticks,
          ),
        )

    abbrev AllReached : Float → List Lane → LiveBuffers → Type 0
    AllReached elapsed [] b = Unit {0}
    AllReached elapsed (lane ∷ lanes) b =
        Reached elapsed lane.first_sim_time (b.ticks lane.name) × AllReached elapsed lanes b

    -- A pass in which the producer does nothing.
    advance_lanes_lem :
        (elapsed later : Float) (i : ℕ) (lanes : List Lane) (b : LiveBuffers)
        → AllReached later lanes b
        → let (lanes', frames, b') =
            advance_lanes clock since zero_time segments elapsed (λ j. []) i lanes b in
          (b' ≡ b)
          × (length frames ≤ length lanes)
          × (length lanes' ≡ length lanes)
          × AllReached later lanes' b
    unfolding advance_lanes
    advance_lanes_lem elapsed later i [] b h = (refl, omega arith, refl, tt)
    advance_lanes_lem elapsed later i (lane ∷ lanes) b (r, h) =
        let (named, same, few, _) = advance_lane_lem elapsed lane (b.ticks lane.name) in
        let (lane', sent) =
          advance_lane clock since zero_time segments elapsed lane (b.ticks lane.name) in
        let (e, short, as_many, rest) = advance_lanes_lem elapsed later (suc i) lanes b h in
        (
          e,
          omega (arith, length-append sent _, few, short),
          ap suc as_many,
          (rw (named, same) r, rest),
        )

    advance_lanes-all_sent :
        (elapsed : Float) (i : ℕ) (lanes : List Lane) (b : LiveBuffers)
        → AllReached elapsed lanes b
        → all_sent (advance_lanes clock since zero_time segments elapsed (λ j. []) i lanes b).0 b
          ≡ true
    unfolding advance_lanes all_sent
    advance_lanes-all_sent elapsed i [] b h = refl
    advance_lanes-all_sent elapsed i (lane ∷ lanes) b (r, h) =
        let (named, same, few, passed) = advance_lane_lem elapsed lane (b.ticks lane.name) in
        let rest = advance_lanes-all_sent elapsed (suc i) lanes b h in
        rw named (ground (arith, passed r, rest))

    quiet_round :
        (later : Float) (sent : List Frame) (s : ReplayState) (b : LiveBuffers)
        → b.finished ≡ true
        → length s.lanes ≤ 6
        → AllReached later s.lanes b
        → let (s', frames, b') = advance clock since zero_time segments (λ i. []) s b in
          (b' ≡ b)
          × (ltb 6 (length frames) ≡ false)
          × (length s'.lanes ≤ 6)
          × AllReached later s'.lanes b
          × (s'.elapsed_sim_seconds ≡ add s.elapsed_sim_seconds s.sim_seconds_per_server_tick)
          × (s'.sim_seconds_per_server_tick ≡ s.sim_seconds_per_server_tick)
    unfolding advance
    quiet_round later sent s b ended few h =
        let elapsed = add s.elapsed_sim_seconds s.sim_seconds_per_server_tick in
        let (e, short, as_many, rest) = advance_lanes_lem elapsed later 0 s.lanes b h in
        (e, ground (arith, short, few), omega (arith, as_many, few), rest, refl, refl)

    last_round :
        (s : ReplayState) (b : LiveBuffers)
        → b.finished ≡ true
        → AllReached (add s.elapsed_sim_seconds s.sim_seconds_per_server_tick) s.lanes b
        → is_done (advance clock since zero_time segments (λ i. []) s b).0 b ≡ true
    unfolding advance is_done
    last_round s b ended h =
        ap
          (λ c.
            if c
            then all_sent (advance clock since zero_time segments (λ i. []) s b).0.lanes b
            else false)
          ended
        ∙ advance_lanes-all_sent (add s.elapsed_sim_seconds s.sim_seconds_per_server_tick) 0 s.lanes
            b h

    drains_loop :
        (n : ℕ) (sent : List Frame) (s : ReplayState) (b : LiveBuffers) (x step : Float)
        → b.finished ≡ true
        → length s.lanes ≤ 6
        → s.elapsed_sim_seconds ≡ x
        → s.sim_seconds_per_server_tick ≡ step
        → AllReached (clock_after (suc n) x step) s.lanes b
        → (replay_loop clock since zero_time segments (replicate (suc n) quiet) sent s b).end
          ≡ drained
    unfolding replay_loop clock_after
    drains_loop zero sent s b x step ended few at rate h =
        let (e, short, few', rest, moved, same) = quiet_round (add x step) sent s b ended few h in
        rw (short, e, last_round s b ended (rw (at, rate) h)) refl
    drains_loop (suc n) sent s b x step ended few at rate h =
        let (s', frames, b') = advance clock since zero_time segments (λ i. []) s b in
        let (e, short, few', h', moved, same) =
          quiet_round (clock_after (suc (suc n)) x step) sent s b ended few h in
        elim (Bool-cases (is_done s' b)) [
          | inl over ↦ rw (short, e, over) refl
          | inr more ↦
              rw (short, e, more)
                (drains_loop n (sent ++ frames) s' b (add x step) step ended few'
                  (moved ∙ ap₂ add at rate) (same ∙ rate) h')
        ]

    -- No tick is later, from the first tick, than the elapsed time.
    abbrev pub ReachedAll : Float → List AlgoTick → Type 0
    ReachedAll elapsed [] = Unit {0}
    ReachedAll elapsed (first ∷ ts) = Reached elapsed first.state.sim_time (first ∷ ts)

    -- That for each of the algorithms.
    abbrev pub Covers : Float → List String → LiveBuffers → Type 0
    Covers elapsed [] b = Unit {0}
    Covers elapsed (name ∷ names) b = ReachedAll elapsed (b.ticks name) × Covers elapsed names b

    start_lane-Reached :
        (elapsed : Float) (name : String) (b : LiveBuffers) (ticks : List AlgoTick)
        → b.ticks name ≡ ticks
        → ReachedAll elapsed ticks
        → let lane = (start_lane clock since zero_time segments name ticks).0 in
          Reached elapsed lane.first_sim_time (b.ticks lane.name)
    unfolding start_lane
    start_lane-Reached elapsed name b [] e h = rw e tt
    start_lane-Reached elapsed name b (first ∷ ts) e h = rw e h

    start_lanes-AllReached :
        (elapsed : Float) (order : List String) (b : LiveBuffers)
        → Covers elapsed order b
        → let lanes = (start_lanes clock since zero_time segments order b).0 in
          (length lanes ≡ length order) × AllReached elapsed lanes b
    unfolding start_lanes
    start_lanes-AllReached elapsed [] b h = (refl, tt)
    start_lanes-AllReached elapsed (name ∷ order) b (now, h) =
        let (as_many, rest) = start_lanes-AllReached elapsed order b h in
        (ap suc as_many, (start_lane-Reached elapsed name b (b.ticks name) refl now, rest))

    start-AllReached :
        (elapsed speed tick_hz : Float) (b : LiveBuffers)
        → Covers elapsed router_order b
        → let (s, snapshots) = new_replay_state clock since zero_time segments b speed tick_hz in
          (length s.lanes ≡ 6)
          × AllReached elapsed s.lanes b
          × (length snapshots ≡ 6)
          × (s.elapsed_sim_seconds ≡ of_nat 0)
          × (s.sim_seconds_per_server_tick ≡ div speed tick_hz)
    unfolding new_replay_state
    start-AllReached elapsed speed tick_hz b h =
        let (as_many, rest) = start_lanes-AllReached elapsed router_order b h in
        (as_many, rest, refl, refl, refl)

    -- A replay of buffers whose producer has finished drains within n + 1 rounds in which the
    -- context lives and the writes succeed, if the simulated clock, which each round moves by
    -- speed / tickHz from 0, has then reached every tick of the six algorithms, counted from the
    -- first tick of each.
    pub replay-drains :
        (b : LiveBuffers) (speed tick_hz : Float) (n : ℕ)
        → b.finished ≡ true
        → Covers (clock_after (suc n) (of_nat 0) (div speed tick_hz)) router_order b
        → let (s, snapshots) = new_replay_state clock since zero_time segments b speed tick_hz in
          (replay clock since zero_time segments 6 (replicate (suc n) quiet) snapshots s b).end
          ≡ drained
    unfolding replay
    replay-drains b speed tick_hz n ended h =
        let (s, snapshots) = new_replay_state clock since zero_time segments b speed tick_hz in
        let (as_many, rest, shots, at, rate) = start-AllReached _ speed tick_hz b h in
        let few : ltb 6 (length snapshots) ≡ false = ground (arith, shots) in
        rw few (
          drains_loop n snapshots s b (of_nat 0) (div speed tick_hz) ended (omega (arith, as_many))
            at rate rest)
