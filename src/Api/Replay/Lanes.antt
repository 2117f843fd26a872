-- ===== src/Api/Replay/Lanes.antt =====
-- A pass over the lanes of a replay keeps what the client holds in sync with what was sent.
use Prim.Native.String.{String}
use mathlib.Core.Path.{fun_ext}
use mathlib.Core.List.{append-nil, append_assoc}
use convergent_routing_analy.Prelude.{
  ℕ, suc, ◌≡◌, ◌≢◌, refl, sym, ap, ap₂, subst, ◌∙◌, List, [], ◌∷◌, ◌++◌, Option, none, some, drop,
}
use convergent_routing_analy.Float.{Float64, Float}
use convergent_routing_analy.Feed.{Clock}
use convergent_routing_analy.Api.Frames.{SegmentByEdge, Buckets, AlgoTick, Frame, build_delta}
use convergent_routing_analy.Api.Frames.Delta.{IsDistinct}
use convergent_routing_analy.Api.Replay.{
  LiveBuffers, Event, after_events, Lane, send_latest, due, advance_lane, advance_lanes,
}
use convergent_routing_analy.Api.Replay.Synced.{
  view, view-append, NotNamed, view-NotNamed, Grown, after_events-Grown, InSync, InSync-Grown,
  advance_lane-InSync,
}

abbrev pub NotIn : String → List String → Type 0
NotIn name [] = Unit {0}
NotIn name (n ∷ names) = (n ≢ name) × NotIn name names

abbrev pub IsNodup : List String → Type 0
IsNodup [] = Unit {0}
IsNodup (n ∷ names) = NotIn n names × IsNodup names

module _ ⦃f : Float64⦄ where
  abbrev pub names : List Lane → List String
  names [] = []
  names (lane ∷ lanes) = lane.name ∷ names lanes

  NotNamed-append :
      (name : String) (xs ys : List Frame)
      → NotNamed name xs
      → NotNamed name ys
      → NotNamed name (xs ++ ys)
  NotNamed-append name [] ys h k = k
  NotNamed-append name (x ∷ xs) ys (ne, h) k = (ne, NotNamed-append name xs ys h k)

  Grown-trans : (xs ys zs : List AlgoTick) → Grown xs ys → Grown ys zs → Grown xs zs
  Grown-trans xs ys zs (m, e) (n, d) = (m ++ n, d ∙ ap (λ z. z ++ n) e ∙ append_assoc xs m n)

  module _ (clock : Clock) (since : ℕ → ℕ → Float) (zero_time : ℕ) (segments : SegmentByEdge)
      (distinct : IsDistinct segments) where
    abbrev pub AllInSync : List Lane → LiveBuffers → (String → Buckets) → Type 0
    AllInSync [] b maps = Unit {0}
    AllInSync (lane ∷ lanes) b maps =
        InSync clock since zero_time segments distinct lane (b.ticks lane.name) (maps lane.name)
        × AllInSync lanes b maps

    pub AllInSync-Grown :
        (lanes : List Lane) (b b' : LiveBuffers) (maps : String → Buckets)
        → ((name : String) → Grown (b.ticks name) (b'.ticks name))
        → AllInSync lanes b maps
        → AllInSync lanes b' maps
    AllInSync-Grown [] b b' maps g h = tt
    AllInSync-Grown (lane ∷ lanes) b b' maps g (s, h) = (
      InSync-Grown clock since zero_time segments distinct lane _ _ (maps lane.name) (g lane.name)
          s,
      AllInSync-Grown lanes b b' maps g h,
    )

    -- Frames of another algorithm change no map of these lanes.
    pub AllInSync-view :
        (lanes : List Lane) (b : LiveBuffers) (maps : String → Buckets) (name : String)
        (frames : List Frame)
        → NotIn name (names lanes)
        → ((n : String) → name ≢ n → NotNamed n frames)
        → AllInSync lanes b maps
        → AllInSync lanes b (λ n. view n frames (maps n))
    AllInSync-view [] b maps name frames ne other h = tt
    AllInSync-view (lane ∷ lanes) b maps name frames (ne, away) other (s, h) = (
      rw (view-NotNamed lane.name frames (maps lane.name) (other lane.name (λ e. ne (sym e)))) s,
      AllInSync-view lanes b maps name frames away other h,
    )

    send_latest-NotNamed :
        (lane : Lane) (next : ℕ × Option AlgoTick) (n : String)
        → lane.name ≢ n
        → NotNamed n (send_latest clock since zero_time segments lane next).1
    unfolding send_latest build_delta
    send_latest-NotNamed lane (c, none) n ne = tt
    send_latest-NotNamed lane (c, some t) n ne = (ne, tt)

    advance_lane-NotNamed :
        (elapsed : Float) (lane : Lane) (ticks : List AlgoTick) (n : String)
        → lane.name ≢ n
        → NotNamed n (advance_lane clock since zero_time segments elapsed lane ticks).1
    unfolding advance_lane
    advance_lane-NotNamed elapsed lane ticks n ne =
        send_latest-NotNamed lane
          (due clock since zero_time segments elapsed lane.first_sim_time (drop lane.cursor ticks)
            lane.cursor none)
          n ne

    -- What a pass over lanes keeps, for the maps before it.
    pub record Advanced (lanes : List Lane) (b : LiveBuffers) (maps : String → Buckets)
        (lanes' : List Lane) (frames : List Frame) (b' : LiveBuffers) : Type 0 where
      pub same-names : names lanes' ≡ names lanes
      pub in_sync : AllInSync lanes' b' (λ n. view n frames (maps n))
      pub others : (n : String) → NotIn n (names lanes) → NotNamed n frames
      pub grown : (n : String) → Grown (b.ticks n) (b'.ticks n)

    Advanced-cons :
        (lane lane' : Lane) (lanes lanes' : List Lane) (sent frames : List Frame)
        (b b' b'' : LiveBuffers) (maps : String → Buckets)
        → NotIn lane.name (names lanes)
        → ((n : String) → Grown (b.ticks n) (b'.ticks n))
        → ((n : String) → lane.name ≢ n → NotNamed n sent)
        → lane'.name ≡ lane.name
        → InSync clock since zero_time segments distinct lane'
            (b'.ticks lane.name)
            (view lane.name sent (maps lane.name))
        → Advanced lanes b' (λ n. view n sent (maps n)) lanes' frames b''
        → Advanced (lane ∷ lanes) b maps (lane' ∷ lanes') (sent ++ frames) b''
    Advanced-cons lane lane' lanes lanes' sent frames b b' b'' maps new g own e s a =
        let whole = λ (n : String). view-append n sent frames (maps n) in
        let kept =
          view-NotNamed lane.name frames (view lane.name sent (maps lane.name))
            (a.others lane.name new) in
        let synced =
          InSync-Grown clock since zero_time segments distinct lane' _ (b''.ticks lane.name) _
            (a.grown lane.name) s in
        record {
          same-names = ap₂ (λ x xs. x ∷ xs) e a.same-names;
          in_sync = (
            subst
                (λ z.
                  InSync clock since zero_time segments distinct lane' (b''.ticks z)
                    (view z (sent ++ frames) (maps z)))
                (sym e)
                (subst
                  (λ z.
                    InSync clock since zero_time segments distinct lane' (b''.ticks lane.name) z)
                  (sym (whole lane.name ∙ kept)) synced),
            subst (λ z. AllInSync lanes' b'' z) (fun_ext (λ n. sym (whole n))) a.in_sync,
          );
          others = λ n (ne, away). NotNamed-append n sent frames (own n ne) (a.others n away);
          grown = λ n. Grown-trans _ _ _ (g n) (a.grown n);
        }

    pub advance_lanes-Advanced :
        (elapsed : Float) (gaps : ℕ → List Event) (i : ℕ) (lanes : List Lane) (b : LiveBuffers)
        (maps : String → Buckets)
        → IsNodup (names lanes)
        → AllInSync lanes b maps
        → let (lanes', frames, b') =
            advance_lanes clock since zero_time segments elapsed gaps i lanes b in
          Advanced lanes b maps lanes' frames b'
    unfolding advance_lanes view
    advance_lanes-Advanced elapsed gaps i [] b maps nd h = record {
      same-names = refl;
      in_sync = tt;
      others = λ n w. tt;
      grown = λ n. ([], sym (append-nil _));
    }
    advance_lanes-Advanced elapsed gaps i (lane ∷ lanes) b maps (new, nd) (s, h) =
        let b' = after_events (gaps i) b in
        let g = after_events-Grown (gaps i) b in
        let synced =
          InSync-Grown clock since zero_time segments distinct lane _ (b'.ticks lane.name)
            (maps lane.name) (g lane.name) s in
        let (e, moved) =
          advance_lane-InSync clock since zero_time segments distinct elapsed lane
            (b'.ticks lane.name) (maps lane.name) synced in
        let (lane', sent) =
          advance_lane clock since zero_time segments elapsed lane (b'.ticks lane.name) in
        let own = advance_lane-NotNamed elapsed lane (b'.ticks lane.name) in
        Advanced-cons lane lane' lanes _ sent _ b b' _ maps new g own e moved (
          advance_lanes-Advanced elapsed gaps (suc i) lanes b' (λ n. view n sent (maps n)) nd
            (AllInSync-view lanes b' maps lane.name sent new own
              (AllInSync-Grown lanes b b' maps g h)))
