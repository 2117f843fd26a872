-- ===== src/Api/Params/Bounds.antt =====
-- Which queries are accepted.
use convergent_routing_analy.Prelude.{
  ℕ, ◌≡◌, ◌↔◌, refl, sym, subst, false, ℤ, pos, true, ltb, ◌||◌, negsuc,
}
use convergent_routing_analy.Float.{Float64, Float, of_nat, div, lt, le}
use convergent_routing_analy.Api.Params.{
  Query, get, default_od_count, invalid_start, invalid_speed, invalid_tick_hz, invalid_seed,
  invalid_count, invalid_cap_scale, Readers, StreamParams, Parsed, accepted, ◌>>=◌, default_params,
  bad_speed, bad_tick_hz, bad_count, bad_cap_scale, read_start, read_speed, read_tick_hz, read_seed,
  read_count, read_cap_scale, parse_stream_params,
}
use convergent_routing_analy.Api.Params.Fields.{FieldOf, field_inv, bind_field, field_lem}

module _ ⦃f : Float64⦄ where
  module _ (r : Readers) (day : ℕ) (q : Query) where
    -- Each parameter as the query has it, or the default.
    abbrev pub Start : ℕ → Type 0
    Start = FieldOf r.parse_time (λ v. false) day (get q "start")

    abbrev pub Speed : Float → Type 0
    Speed =
        FieldOf r.parse_float (λ v. le v (of_nat 0) || lt (of_nat 100000) v) (of_nat 60)
          (get q "speed")

    abbrev pub TickHz : Float → Type 0
    TickHz =
        FieldOf r.parse_float (λ v. lt v (div (of_nat 1) (of_nat 2)) || lt (of_nat 2) v) (of_nat 1)
          (get q "tick_hz")

    abbrev pub Seed : ℤ → Type 0
    Seed = FieldOf r.parse_int (λ v. false) (pos 0) (get q "seed")

    abbrev pub Count : ℤ → Type 0
    Count =
        FieldOf r.atoi (λ z. elim z [ negsuc n ↦ true | pos n ↦ ltb 20000 n ]) (pos 1000)
          (get q "count")

    abbrev pub CapScale : Float → Type 0
    CapScale = FieldOf r.parse_float (λ v. le v (of_nat 0)) (of_nat 1) (get q "cap_scale")

    pub record IsReading (p : StreamParams) : Type 0 where
      pub start : Start p.start_time
      pub speed : Speed p.speed
      pub tick_hz : TickHz p.server_tick_hz
      pub seed : Seed p.seed
      pub count : Count p.count
      pub cap_scale : CapScale p.capacity_scale

    -- What parse_stream_params does after each parameter, and the parameters up to it.
    abbrev after_count : StreamParams → Parsed
    after_count p = read_cap_scale r (get q "cap_scale") p

    abbrev after_seed : StreamParams → Parsed
    after_seed p = read_count r (get q "count") p >>= after_count

    abbrev after_tick_hz : StreamParams → Parsed
    after_tick_hz p = read_seed r (get q "seed") p >>= after_seed

    abbrev after_speed : StreamParams → Parsed
    after_speed p = read_tick_hz r (get q "tick_hz") p >>= after_tick_hz

    abbrev after_start : StreamParams → Parsed
    after_start p = read_speed r (get q "speed") p >>= after_speed

    abbrev upto_start : ℕ → StreamParams
    upto_start v1 = record (default_params day) { start_time = v1 }

    abbrev upto_speed : ℕ → Float → StreamParams
    upto_speed v1 v2 = record (upto_start v1) { speed = v2 }

    abbrev upto_tick_hz : ℕ → Float → Float → StreamParams
    upto_tick_hz v1 v2 v3 = record (upto_speed v1 v2) { server_tick_hz = v3 }

    abbrev upto_seed : ℕ → Float → Float → ℤ → StreamParams
    upto_seed v1 v2 v3 v4 = record (upto_tick_hz v1 v2 v3) { seed = v4 }

    abbrev upto_count : ℕ → Float → Float → ℤ → ℤ → StreamParams
    upto_count v1 v2 v3 v4 v5 = record (upto_seed v1 v2 v3 v4) { count = v5 }

    IsReading-cap_scale :
        (p : StreamParams) (v1 : ℕ) (f1 : Start v1) (v2 : Float) (f2 : Speed v2) (v3 : Float)
        (f3 : TickHz v3) (v4 : ℤ) (f4 : Seed v4) (v5 : ℤ) (f5 : Count v5)
        → read_cap_scale r (get q "cap_scale") (upto_count v1 v2 v3 v4 v5) ≡ accepted p
        → IsReading p
    unfolding read_cap_scale
    IsReading-cap_scale p v1 f1 v2 f2 v3 f3 v4 f4 v5 f5 h =
        let (v, same, e) =
          field_inv r.parse_float bad_cap_scale invalid_cap_scale
            (λ v. record (upto_count v1 v2 v3 v4 v5) { capacity_scale = v }) (of_nat 1)
            (get q "cap_scale") (upto_count v1 v2 v3 v4 v5) refl h in
        subst IsReading (sym same)
          (record { start = f1; speed = f2; tick_hz = f3; seed = f4; count = f5; cap_scale = e })

    IsReading-count :
        (p : StreamParams) (v1 : ℕ) (f1 : Start v1) (v2 : Float) (f2 : Speed v2) (v3 : Float)
        (f3 : TickHz v3) (v4 : ℤ) (f4 : Seed v4)
        → (read_count r (get q "count") (upto_seed v1 v2 v3 v4) >>= after_count) ≡ accepted p
        → IsReading p
    unfolding read_count
    IsReading-count p v1 f1 v2 f2 v3 f3 v4 f4 h =
        let (v, e, w) =
          bind_field r.atoi bad_count invalid_count
            (λ v. record (upto_seed v1 v2 v3 v4) { count = v }) (pos default_od_count)
            (get q "count") (upto_seed v1 v2 v3 v4) after_count p refl h in
        IsReading-cap_scale p v1 f1 v2 f2 v3 f3 v4 f4 v e w

    IsReading-seed :
        (p : StreamParams) (v1 : ℕ) (f1 : Start v1) (v2 : Float) (f2 : Speed v2) (v3 : Float)
        (f3 : TickHz v3)
        → (read_seed r (get q "seed") (upto_tick_hz v1 v2 v3) >>= after_seed) ≡ accepted p
        → IsReading p
    unfolding read_seed
    IsReading-seed p v1 f1 v2 f2 v3 f3 h =
        let (v, e, w) =
          bind_field r.parse_int (λ v. false) invalid_seed
            (λ v. record (upto_tick_hz v1 v2 v3) { seed = v }) (pos 0) (get q "seed")
            (upto_tick_hz v1 v2 v3) after_seed p refl h in
        IsReading-count p v1 f1 v2 f2 v3 f3 v e w

    IsReading-tick_hz :
        (p : StreamParams) (v1 : ℕ) (f1 : Start v1) (v2 : Float) (f2 : Speed v2)
        → (read_tick_hz r (get q "tick_hz") (upto_speed v1 v2) >>= after_tick_hz) ≡ accepted p
        → IsReading p
    unfolding read_tick_hz
    IsReading-tick_hz p v1 f1 v2 f2 h =
        let (v, e, w) =
          bind_field r.parse_float bad_tick_hz invalid_tick_hz
            (λ v. record (upto_speed v1 v2) { server_tick_hz = v }) (of_nat 1) (get q "tick_hz")
            (upto_speed v1 v2) after_tick_hz p refl h in
        IsReading-seed p v1 f1 v2 f2 v e w

    IsReading-speed :
        (p : StreamParams) (v1 : ℕ) (f1 : Start v1)
        → (read_speed r (get q "speed") (upto_start v1) >>= after_speed) ≡ accepted p
        → IsReading p
    unfolding read_speed
    IsReading-speed p v1 f1 h =
        let (v, e, w) =
          bind_field r.parse_float bad_speed invalid_speed
            (λ v. record (upto_start v1) { speed = v }) (of_nat 60) (get q "speed") (upto_start v1)
            after_speed p refl h in
        IsReading-tick_hz p v1 f1 v e w

    IsReading-start :
        (p : StreamParams)
        → (read_start r (get q "start") (default_params day) >>= after_start) ≡ accepted p
        → IsReading p
    unfolding read_start
    IsReading-start p h =
        let (v, e, w) =
          bind_field r.parse_time (λ v. false) invalid_start
            (λ v. record (default_params day) { start_time = v }) day (get q "start")
            (default_params day) after_start p refl h in
        IsReading-speed p v e w

    IsReading-accepted : (p : StreamParams) → IsReading p → parse_stream_params r day q ≡ accepted p
    unfolding parse_stream_params
    IsReading-accepted p h =
        let r1 =
          field_lem r.parse_time (λ v. false) invalid_start
            (λ v. record (default_params day) { start_time = v }) day (get q "start")
            (default_params day) p.start_time refl h.start in
        let r2 =
          field_lem r.parse_float bad_speed invalid_speed
            (λ v. record (upto_start p.start_time) { speed = v }) (of_nat 60) (get q "speed")
            (upto_start p.start_time) p.speed refl h.speed in
        let r3 =
          field_lem r.parse_float bad_tick_hz invalid_tick_hz
            (λ v. record (upto_speed p.start_time p.speed) { server_tick_hz = v }) (of_nat 1)
            (get q "tick_hz") (upto_speed p.start_time p.speed) p.server_tick_hz refl h.tick_hz in
        let r4 =
          field_lem r.parse_int (λ v. false) invalid_seed
            (λ v. record (upto_tick_hz p.start_time p.speed p.server_tick_hz) { seed = v }) (pos 0)
            (get q "seed") (upto_tick_hz p.start_time p.speed p.server_tick_hz) p.seed refl
            h.seed in
        let r5 =
          field_lem r.atoi bad_count invalid_count
            (λ v. record (upto_seed p.start_time p.speed p.server_tick_hz p.seed) { count = v })
            (pos default_od_count) (get q "count")
            (upto_seed p.start_time p.speed p.server_tick_hz p.seed) p.count refl h.count in
        let r6 =
          field_lem r.parse_float bad_cap_scale invalid_cap_scale
            (λ v. record (upto_count p.start_time p.speed p.server_tick_hz p.seed p.count) {
              capacity_scale = v;
            })
            (of_nat 1) (get q "cap_scale")
            (upto_count p.start_time p.speed p.server_tick_hz p.seed p.count) p.capacity_scale refl
            h.cap_scale in
        rw (r1, r2, r3, r4, r5, r6) refl

    -- A query is accepted exactly with each parameter as given: read, and with the source's
    -- comparisons against its bounds all false; where a key is absent or empty, the default.
    pub accepted_iff : (p : StreamParams) → (parse_stream_params r day q ≡ accepted p) ↔ IsReading p
    unfolding parse_stream_params
    accepted_iff p = (IsReading-start p, IsReading-accepted p)
