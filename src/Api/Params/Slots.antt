-- ===== src/Api/Params/Slots.antt =====
-- How many streams run.
use convergent_routing_analy.Prelude.{
  ℕ, ◌+◌, ◌≤◌, ◌≡◌, ◌⊎◌, inl, inr, refl, sym, subst, Bool, true, false, List, [], ◌∷◌, ltb, ◌==◌,
  Bool-cases, arith,
}
use convergent_routing_analy.Float.{Float64}
use convergent_routing_analy.Api.Params.{
  Query, ParamError, Readers, StreamParams, Parsed, accepted, refused, parse_stream_params,
  Admission, upgraded, method_not_allowed, bad_request, unavailable, slots_after, handle_stream,
  Streams, no_streams, StreamEvent, request, close, newly_running, stream_step, streams_after,
}

module _ ⦃f : Float64⦄ where
  Parsed-cases :
      (o : Parsed) → ((e : ParamError) × (o ≡ refused e)) ⊎ ((p : StreamParams) × (o ≡ accepted p))
  Parsed-cases (refused e) = inl (e, refl)
  Parsed-cases (accepted p) = inr (p, refl)

  -- No answer but the 503.
  abbrev IsTurnedAway : Admission → Type 0
  IsTurnedAway unavailable = Unit {0}
  IsTurnedAway method_not_allowed = ⊥
  IsTurnedAway (bad_request e) = ⊥
  IsTurnedAway (upgraded p n) = ⊥

  module _ (r : Readers) (day : ℕ) where
    -- Every running stream has a slot, every slot a stream, and there are eight.
    abbrev IsSound : Streams → Type 0
    IsSound s = (s.taken ≡ s.running) × (s.running ≤ 8)

    -- A stream starts exactly when a slot is taken, and only if fewer than eight are.
    admission_lem :
        (taken : ℕ) (is_get : Bool) (q : Query)
        → let answer = handle_stream r day taken is_get q in
          (slots_after taken answer ≡ taken + newly_running answer)
          × (taken ≤ 8 → taken + newly_running answer ≤ 8)
          × (taken ≤ 8 → IsTurnedAway answer → taken ≡ 8)
    unfolding handle_stream
    admission_lem taken false q = (omega arith, λ h. omega arith, λ h turned. absurd turned)
    admission_lem taken true q = elim (Parsed-cases (parse_stream_params r day q)) [
      | inl (e, bad) ↦
          rw (bad, handle_stream) (omega arith, λ h. omega arith, λ h turned. absurd turned)
      | inr (p, fine) ↦ elim (Bool-cases (ltb taken 8)) [
        | inl free ↦
            rw (fine, handle_stream, free)
              (refl, λ h. ground (arith, free), λ h turned. absurd turned)
        | inr full ↦
            rw (fine, handle_stream, full)
              (omega arith, λ h. omega arith, λ h turned. ground (arith, full))
      ]
    ]

    stream_step-IsSound :
        (s : Streams) (e : StreamEvent) → IsSound s → IsSound (stream_step r day s e)
    unfolding stream_step
    stream_step-IsSound s close (same, few) = elim (Bool-cases (s.running == 0)) [
      | inl idle ↦ rw (idle, stream_step) (same, few)
      | inr busy ↦ rw (busy, stream_step) (omega (arith, same), omega arith)
    ]
    stream_step-IsSound s (request is_get q) (same, few) =
        let (slots, fits, _) = admission_lem s.taken is_get q in
        (omega (arith, same, slots), omega (arith, same, fits (omega (arith, same))))

    streams_after-IsSound :
        (s : Streams) (es : List StreamEvent) → IsSound s → IsSound (streams_after r day s es)
    unfolding streams_after
    streams_after-IsSound s [] h = h
    streams_after-IsSound s (e ∷ es) h =
        streams_after-IsSound (stream_step r day s e) es (stream_step-IsSound s e h)

    -- On a new server, whatever requests come and running connections end: at most eight streams
    -- run, the slots that are taken are as many as the running streams, and a request is turned
    -- away for want of a slot only if eight streams run.
    pub streams_after-Le :
        (es : List StreamEvent)
        → let s = streams_after r day no_streams es in
          (s.running ≤ 8)
          × (s.taken ≡ s.running)
          × ((is_get : Bool) (q : Query)
              → handle_stream r day s.taken is_get q ≡ unavailable
              → s.running ≡ 8)
    streams_after-Le es =
        let s = streams_after r day no_streams es in
        let (same, few) = streams_after-IsSound no_streams es (refl, omega arith) in
        (
          few,
          same,
          λ is_get q turned.
              let (_, _, eight) = admission_lem s.taken is_get q in
              omega (arith, same, eight (omega (arith, same)) (subst IsTurnedAway (sym turned) tt)),
        )
