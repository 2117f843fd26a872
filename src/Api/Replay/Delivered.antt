-- ===== src/Api/Replay/Delivered.antt =====
-- Every tick that the simulations produce reaches the client by the end of a replay.
use Prim.Native.String.{String}
use text.Mathlib.Text as Text
use text.Mathlib.TextEquality.{eq_iff}
use mathlib.Core.Path.{fun_ext}
use convergent_routing_analy.Prelude.{
  ℕ, suc, ◌≡◌, refl, sym, ap₂, subst, ◌∙◌, inl, inr, Bool, true, false, ◌||◌, List, [], ◌∷◌, ◌++◌,
  some, length, get_elem?, if◌then◌else◌, Bool-cases, arith, ltb,
}
use convergent_routing_analy.Float.{Float64, Float, add}
use convergent_routing_analy.Feed.{Clock}
use convergent_routing_analy.Api.Frames.{SegmentByEdge, Buckets, AlgoTick, Frame}
use convergent_routing_analy.Api.Frames.Delta.{IsDistinct, Shows, Shows-Same}
use convergent_routing_analy.Api.Replay.{
  router_order, LiveBuffers, Event, after_events, Lane, ReplayState, start_lane, start_lanes,
  new_replay_state, advance, advance_lanes, all_sent, is_done, Round, drained, replay_loop, replay,
}
use convergent_routing_analy.Api.Replay.Synced.{
  view, view-append, NotNamed, view-NotNamed, after_events-Grown, InSync, ShowsSent,
  start_lane-InSync,
}
use convergent_routing_analy.Api.Replay.Lanes.{
  NotIn, IsNodup, names, AllInSync, AllInSync-Grown, advance_lanes-Advanced,
}

both : (c x : Bool) → (if c then x else false) ≡ true → (c ≡ true) × (x ≡ true)
both true x h = (refl, h)
both false x h = cc

occurs : String → List String → Bool
occurs name [] = false
occurs name (n ∷ names) = Text.◌==◌ n name || occurs name names

has_repeats : List String → Bool
has_repeats [] = false
has_repeats (n ∷ names) = occurs n names || has_repeats names

neither : (c x : Bool) → (c || x) ≡ false → (c ≡ false) × (x ≡ false)
neither true x h = cc
neither false x h = (refl, h)

occurs-NotIn : (name : String) (names : List String) → occurs name names ≡ false → NotIn name names
unfolding occurs
occurs-NotIn name [] h = tt
occurs-NotIn name (n ∷ names) h =
    let (ne, away) = neither (Text.◌==◌ n name) (occurs name names) h in
    ((λ e. cc (ne, (eq_iff n name).1 e)), occurs-NotIn name names away)

has_repeats-IsNodup : (names : List String) → has_repeats names ≡ false → IsNodup names
unfolding has_repeats
has_repeats-IsNodup [] h = tt
has_repeats-IsNodup (n ∷ names) h =
    let (new, rest) = neither (occurs n names) (has_repeats names) h in
    (occurs-NotIn n names new, has_repeats-IsNodup names rest)

router_order-IsNodup : IsNodup router_order
unfolding has_repeats occurs
router_order-IsNodup = has_repeats-IsNodup router_order refl

module _ ⦃f : Float64⦄ (clock : Clock) (since : ℕ → ℕ → Float) (zero_time : ℕ)
    (segments : SegmentByEdge) (distinct : IsDistinct segments) where
  -- The map shows the last of the ticks, if there is one.
  abbrev pub ShowsLast : List AlgoTick → Buckets → Type 0
  ShowsLast ticks m =
      (k : ℕ) (t : AlgoTick)
      → length ticks ≡ suc k
      → get_elem? ticks k ≡ some t
      → Shows segments t.state.vc m

  abbrev pub AllShowLast : List String → LiveBuffers → List Frame → Type 0
  AllShowLast [] b sent = Unit {0}
  AllShowLast (n ∷ ns) b sent = ShowsLast (b.ticks n) (view n sent []) × AllShowLast ns b sent

  InSync-ShowsLast :
      (lane : Lane) (ticks : List AlgoTick) (m : Buckets)
      → ltb lane.cursor (length ticks) ≡ false
      → InSync clock since zero_time segments distinct lane ticks m
      → ShowsLast ticks m
  InSync-ShowsLast lane ticks m passed s k t len at =
      let e : lane.cursor ≡ suc k = ground (arith, s.within) in
      let (t', at', w) =
        subst (λ c. ShowsSent clock since zero_time segments distinct c ticks lane.last_buckets) e
          s.shows in
      let same : t' ≡ t = cc (at, at') in
      Shows-Same segments t.state.vc m lane.last_buckets s.same
        (subst (λ (z : AlgoTick). Shows segments z.state.vc lane.last_buckets) same w)

  all_sent-AllShowLast :
      (lanes : List Lane) (b : LiveBuffers) (sent : List Frame)
      → all_sent lanes b ≡ true
      → AllInSync clock since zero_time segments distinct lanes b (λ n. view n sent [])
      → AllShowLast (names lanes) b sent
  unfolding all_sent
  all_sent-AllShowLast [] b sent h w = tt
  all_sent-AllShowLast (lane ∷ lanes) b sent h (s, w) =
      elim (Bool-cases (ltb lane.cursor (length (b.ticks lane.name)))) [
        | inl behind ↦ cc (rw behind at h)
        | inr passed ↦ (
          InSync-ShowsLast lane (b.ticks lane.name) (view lane.name sent []) passed s,
          all_sent-AllShowLast lanes b sent (rw passed at h) w,
        )
      ]

  advance_lem :
      (gaps : ℕ → List Event) (s : ReplayState) (b : LiveBuffers) (sent : List Frame)
      → IsNodup (names s.lanes)
      → AllInSync clock since zero_time segments distinct s.lanes b (λ n. view n sent [])
      → let (s', frames, b') = advance clock since zero_time segments gaps s b in
        (names s'.lanes ≡ names s.lanes)
        × AllInSync clock since zero_time segments distinct s'.lanes b'
            (λ n. view n (sent ++ frames) [])
  unfolding advance
  advance_lem gaps s b sent nd h =
      let elapsed = add s.elapsed_sim_seconds s.sim_seconds_per_server_tick in
      let a =
        advance_lanes-Advanced clock since zero_time segments distinct elapsed gaps 0 s.lanes b
          (λ n. view n sent []) nd h in
      let (lanes, frames, b') =
        advance_lanes clock since zero_time segments elapsed gaps 0 s.lanes b in
      (
        a.same-names,
        subst (λ z. AllInSync clock since zero_time segments distinct lanes b' z)
            (fun_ext (λ n. sym (view-append n sent frames []))) a.in_sync,
      )

  done_lem :
      (s : ReplayState) (b : LiveBuffers) (sent : List Frame)
      → is_done s b ≡ true
      → AllInSync clock since zero_time segments distinct s.lanes b (λ n. view n sent [])
      → (b.finished ≡ true) × AllShowLast (names s.lanes) b sent
  unfolding is_done
  done_lem s b sent h w =
      let (ended, sent_all) = both b.finished (all_sent s.lanes b) h in
      (ended, all_sent-AllShowLast s.lanes b sent sent_all w)

  -- What the loop leaves when it drains.
  loop_lem :
      (rounds : List Round) (sent : List Frame) (s : ReplayState) (b : LiveBuffers)
      → IsNodup (names s.lanes)
      → AllInSync clock since zero_time segments distinct s.lanes b (λ n. view n sent [])
      → (replay_loop clock since zero_time segments rounds sent s b).end ≡ drained
      → let r = replay_loop clock since zero_time segments rounds sent s b in
        (r.buffers.finished ≡ true) × AllShowLast (names s.lanes) r.buffers r.sent
  unfolding replay_loop
  loop_lem [] sent s b nd h e = cc
  loop_lem (r ∷ rounds) sent s b nd h e =
      let (s', frames, b') = advance clock since zero_time segments r.gaps s b in
      let b'' = after_events r.before_done b' in
      let (same, w) = advance_lem r.gaps s b sent nd h in
      let w' =
        AllInSync-Grown clock since zero_time segments distinct s'.lanes b' b''
          (λ n. view n (sent ++ frames) []) (after_events-Grown r.before_done b') w in
      elim (Bool-cases r.cancelled) [
        | inl stop ↦ cc (rw stop at e)
        | inr open_ctx ↦ elim (Bool-cases (ltb r.writes (length frames))) [
          | inl failed ↦ cc (rw (open_ctx, failed) at e)
          | inr written ↦ elim (Bool-cases (is_done s' b'')) [
            | inl over ↦
                rw (open_ctx, written, over)
                  (subst (λ z. (b''.finished ≡ true) × AllShowLast z b'' (sent ++ frames)) same
                    (done_lem s' b'' (sent ++ frames) over w'))
            | inr more ↦
                rw (open_ctx, written, more, ← same)
                  (loop_lem rounds (sent ++ frames) s' b'' (rw same nd) w'
                    (rw (open_ctx, written, more) at e))
          ]
        ]
      ]

  -- The snapshots put the client in sync, whatever it held.
  start_lanes-AllInSync :
      (order : List String) (b : LiveBuffers) (maps : String → Buckets)
      → IsNodup order
      → let (lanes, frames) = start_lanes clock since zero_time segments order b in
        (names lanes ≡ order)
        × AllInSync clock since zero_time segments distinct lanes b (λ n. view n frames (maps n))
        × ((n : String) → NotIn n order → NotNamed n frames)
  unfolding start_lanes view
  start_lanes-AllInSync [] b maps nd = (refl, tt, λ n h. tt)
  start_lanes-AllInSync (name ∷ order) b maps (new, nd) =
      let (lane, frame) = start_lane clock since zero_time segments name (b.ticks name) in
      let (named, algo, synced) =
        start_lane-InSync clock since zero_time segments distinct name (b.ticks name) (maps name) in
      let (same, w, others) =
        start_lanes-AllInSync order b (λ n. view n (frame ∷ []) (maps n)) nd in
      let frames = (start_lanes clock since zero_time segments order b).1 in
      (
        ap₂ (λ x xs. x ∷ xs) named same,
        (
          subst
              (λ z.
                InSync clock since zero_time segments distinct lane (b.ticks z)
                  (view z (frame ∷ frames) (maps z)))
              (sym named)
              (subst (λ z. InSync clock since zero_time segments distinct lane (b.ticks name) z)
                (sym (
                  view-NotNamed name frames (view name (frame ∷ []) (maps name)) (others name new)))
                synced),
          w,
        ),
        λ n (ne, away). ((λ e. ne (sym algo ∙ e)), others n away),
      )

  replay_lem :
      (order : List String) (writes : ℕ) (rounds : List Round) (snapshots : List Frame)
      (s : ReplayState) (b : LiveBuffers)
      → IsNodup order
      → names s.lanes ≡ order
      → AllInSync clock since zero_time segments distinct s.lanes b (λ n. view n snapshots [])
      → (replay clock since zero_time segments writes rounds snapshots s b).end ≡ drained
      → let r = replay clock since zero_time segments writes rounds snapshots s b in
        (r.buffers.finished ≡ true) × AllShowLast order r.buffers r.sent
  unfolding replay
  replay_lem order writes rounds snapshots s b nd same w e =
      elim (Bool-cases (ltb writes (length snapshots))) [
        | inl failed ↦ cc (rw failed at e)
        | inr written ↦
            rw (written, ← same) (loop_lem rounds snapshots s b (rw same nd) w (rw written at e))
      ]

  new_replay_state-AllInSync :
      (b : LiveBuffers) (speed tick_hz : Float)
      → IsNodup router_order
      → let (s, snapshots) = new_replay_state clock since zero_time segments b speed tick_hz in
        (names s.lanes ≡ router_order)
        × AllInSync clock since zero_time segments distinct s.lanes b (λ n. view n snapshots [])
  unfolding new_replay_state
  new_replay_state-AllInSync b speed tick_hz nd =
      let (same, w, others) = start_lanes-AllInSync router_order b (λ n. []) nd in (same, w)

  -- A replay that starts from any buffers and drains, whatever the producer adds to them between
  -- any two reads, at any speed and tick rate: the producer has finished, and the client, who puts
  -- the entries of the frames that were sent into a map for each of the six algorithms, holds for
  -- each of them the bucket of every segment at the last tick that the algorithm produced. The
  -- segments of the edges are distinct.
  pub replay-Delivers :
      (b : LiveBuffers) (speed tick_hz : Float) (writes : ℕ) (rounds : List Round)
      → let (s, snapshots) = new_replay_state clock since zero_time segments b speed tick_hz in
        let r = replay clock since zero_time segments writes rounds snapshots s b in
        r.end ≡ drained → (r.buffers.finished ≡ true) × AllShowLast router_order r.buffers r.sent
  replay-Delivers b speed tick_hz writes rounds e =
      let (s, snapshots) = new_replay_state clock since zero_time segments b speed tick_hz in
      let (same, w) = new_replay_state-AllInSync b speed tick_hz router_order-IsNodup in
      replay_lem router_order writes rounds snapshots s b router_order-IsNodup same w e
