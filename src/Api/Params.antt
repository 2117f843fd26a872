-- ===== src/Api/Params.antt =====
-- engine/internal/api/stream.go: the query of a stream, and the slots that admit one. strconv and
-- time are parameters; a query is a function from its keys to their values, with none for an absent
-- key.
pub mod Fields
pub mod Bounds
pub mod Slots
use Prim.Native.String.{String}
use text.Mathlib.Text as Text
use convergent_routing_analy.Prelude.{
  ℕ, ◌+◌, ◌-◌, Bool, true, false, ◌||◌, ℤ, pos, negsuc, List, [], ◌∷◌, Option, none, some, ltb,
  if◌then◌else◌, ◌==◌,
}
use convergent_routing_analy.Float.{Float64, Float, of_nat, div, lt, le}

abbrev pub Query : Type 0
Query = String → List String

unfoldable pub get : Query → String → String
get q key = elim (q key) [ [] ↦ "" | v ∷ vs ↦ v ]

abbrev pub max_stream_count : ℕ
max_stream_count = 20000

abbrev pub max_concurrent_streams : ℕ
max_concurrent_streams = 8

abbrev pub default_od_count : ℕ
default_od_count = 1000

pub data ParamError : Type 0 where
  invalid_start invalid_speed invalid_tick_hz invalid_seed invalid_count invalid_cap_scale :
      ParamError

module _ ⦃f : Float64⦄ where
  -- strconv.ParseFloat, ParseInt and Atoi, and time.Parse with RFC3339: none for an error.
  pub record Readers : Type 0 where
    pub parse_float : String → Option Float
    pub parse_int : String → Option ℤ
    pub atoi : String → Option ℤ
    pub parse_time : String → Option ℕ

  pub record StreamParams : Type 0 where
    pub start_time : ℕ
    pub speed : Float
    pub server_tick_hz : Float
    pub seed : ℤ
    pub count : ℤ
    pub capacity_scale : Float

  pub data Parsed : Type 0 where
    accepted : StreamParams → Parsed
    refused : ParamError → Parsed

  infixl 5 ◌>>=◌
  abbrev pub ◌>>=◌ : Parsed → (StreamParams → Parsed) → Parsed
  accepted p >>= k = k p
  refused e >>= k = refused e

  abbrev pub default_replay_speed : Float
  default_replay_speed = of_nat 60

  abbrev pub max_replay_speed : Float
  max_replay_speed = of_nat 100000

  abbrev pub min_server_tick_hz : Float
  min_server_tick_hz = div (of_nat 1) (of_nat 2)

  abbrev pub max_server_tick_hz : Float
  max_server_tick_hz = of_nat 2

  -- The time is 08:00 of the fixed day, an instant of the time package.
  abbrev pub default_params : ℕ → StreamParams
  default_params start = record {
    start_time = start;
    speed = default_replay_speed;
    server_tick_hz = of_nat 1;
    seed = pos 0;
    count = pos default_od_count;
    capacity_scale = of_nat 1;
  }

  abbrev pub bad_speed : Float → Bool
  bad_speed v = le v (of_nat 0) || lt max_replay_speed v

  abbrev pub bad_tick_hz : Float → Bool
  bad_tick_hz v = lt v min_server_tick_hz || lt max_server_tick_hz v

  abbrev pub bad_count : ℤ → Bool
  bad_count (negsuc n) = true
  bad_count (pos n) = ltb max_stream_count n

  abbrev pub bad_cap_scale : Float → Bool
  bad_cap_scale v = le v (of_nat 0)

  -- A value that is read, tested and stored; `text` is empty where the key is absent.
  abbrev pub field {ℓ} :
      {A : Type ℓ}
      → (String → Option A)
      → (A → Bool)
      → ParamError
      → (A → StreamParams)
      → String
      → StreamParams
      → Parsed
  field read bad e store text p = if Text.◌==◌ text "" then accepted p else elim (read text) [
    | none ↦ refused e
    | some v ↦ if bad v then refused e else accepted (store v)
  ]

  -- What a request for a stream gets, with the slots that are then taken.
  pub data Admission : Type 0 where
    method_not_allowed : Admission
    bad_request : ParamError → Admission
    unavailable : Admission
    upgraded : StreamParams → ℕ → Admission

  abbrev pub slots_after : ℕ → Admission → ℕ
  slots_after taken (upgraded p n) = n
  slots_after taken method_not_allowed = taken
  slots_after taken (bad_request e) = taken
  slots_after taken unavailable = taken

  abbrev pub newly_running : Admission → ℕ
  newly_running (upgraded p n) = 1
  newly_running method_not_allowed = 0
  newly_running (bad_request e) = 0
  newly_running unavailable = 0

  -- The slots that are taken, and the connections that hold one.
  pub record Streams : Type 0 where
    pub taken : ℕ
    pub running : ℕ

  abbrev pub no_streams : Streams
  no_streams = record { taken = 0; running = 0 }

  -- A request, or the end of a running connection, also of one whose handshake fails, which
  -- frees its slot.
  pub data StreamEvent : Type 0 where
    request : Bool → Query → StreamEvent
    close : StreamEvent

  module _ (r : Readers) where
    unfoldable pub read_start : String → StreamParams → Parsed
    read_start text p =
        field r.parse_time (λ v. false) invalid_start (λ v. record p { start_time = v }) text p

    unfoldable pub read_speed : String → StreamParams → Parsed
    read_speed text p =
        field r.parse_float bad_speed invalid_speed (λ v. record p { speed = v }) text p

    unfoldable pub read_tick_hz : String → StreamParams → Parsed
    read_tick_hz text p =
        field r.parse_float bad_tick_hz invalid_tick_hz (λ v. record p { server_tick_hz = v }) text
          p

    unfoldable pub read_seed : String → StreamParams → Parsed
    read_seed text p =
        field r.parse_int (λ v. false) invalid_seed (λ v. record p { seed = v }) text p

    unfoldable pub read_count : String → StreamParams → Parsed
    read_count text p = field r.atoi bad_count invalid_count (λ v. record p { count = v }) text p

    unfoldable pub read_cap_scale : String → StreamParams → Parsed
    read_cap_scale text p =
        field r.parse_float bad_cap_scale invalid_cap_scale (λ v. record p { capacity_scale = v })
          text p

    unfoldable pub parse_stream_params : ℕ → Query → Parsed
    unfolding get read_start read_speed read_tick_hz read_seed read_count read_cap_scale
    parse_stream_params start q = do
      p ← read_start (get q "start") (default_params start)
      p ← read_speed (get q "speed") p
      p ← read_tick_hz (get q "tick_hz") p
      p ← read_seed (get q "seed") p
      p ← read_count (get q "count") p
      read_cap_scale (get q "cap_scale") p

    unfoldable pub handle_stream : ℕ → ℕ → Bool → Query → Admission
    unfolding parse_stream_params
    handle_stream start taken is_get q =
        if is_get
        then elim (parse_stream_params start q) [
          | refused e ↦ bad_request e
          | accepted p ↦
              if ltb taken max_concurrent_streams then upgraded p (taken + 1) else unavailable
        ]
        else method_not_allowed

    unfoldable pub stream_step : ℕ → Streams → StreamEvent → Streams
    unfolding handle_stream
    stream_step start s close =
        if s.running == 0 then s else record { taken = s.taken - 1; running = s.running - 1 }
    stream_step start s (request is_get q) =
        let answer = handle_stream start s.taken is_get q in
        record { taken = slots_after s.taken answer; running = s.running + newly_running answer }

    unfoldable pub streams_after : ℕ → Streams → List StreamEvent → Streams
    unfolding stream_step
    streams_after start s [] = s
    streams_after start s (e ∷ es) = streams_after start (stream_step start s e) es
