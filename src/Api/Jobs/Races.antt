-- ===== src/Api/Jobs/Races.antt =====
-- What other requests do to a benchmark job: they do not evict it while it runs, but a roll back
-- takes it from a client that was given its id.
use Prim.Native.String.{String}
use convergent_routing_analy.Prelude.{
  ℕ, ◌+◌, if◌then◌else◌, ◌≡◌, ◌≢◌, refl, sym, ap, ◌∙◌, true, false, Option, none, some, ltb, lookup,
  lookup-put_self, lookup-put_other, lookup-erase_self, some_inj,
}
use convergent_routing_analy.Float.{Float64}
use convergent_routing_analy.Api.Tuple.{BenchmarkParams, Formats, with_defaults, validate_tuple}
use convergent_routing_analy.Api.Jobs.{
  running, is_running, Job, JobStore, Got, cache_key, new_job, register, make_room, held_job,
  found_or_new, get_or_create, remove, snapshot, at_capacity, started, Jobs, reserve, with_job,
  with_valid, handle_benchmark, drop_first,
}
use convergent_routing_analy.Api.Jobs.Store.{HasDefaults, none_ne}
use convergent_routing_analy.Api.Jobs.Held.{make_room-Evicts, Evicts-running, delete-by_id}

module _ ⦃f : Float64⦄ (Report : Type 0) (fmt : Formats) where
  held_job-store :
      (o : Option (Job Report)) (st st' : JobStore Report) (got : Got Report)
      → held_job Report fmt o st ≡ some (got, st')
      → st' ≡ st
  unfolding held_job
  held_job-store none st st' got h = absurd (none_ne h)
  held_job-store (some k) st st' got h =
      sym (ap (λ (z : Got Report × JobStore Report). z.1) (some_inj h))

  found_or_new-running :
      (defaults : HasDefaults) (o : Option String) (p : BenchmarkParams) (id i : String)
      (j : Job Report) (st st' : JobStore Report) (got : Got Report)
      → found_or_new Report fmt o p id st ≡ some (got, st')
      → lookup i st.by_id ≡ some j
      → is_running j.status ≡ true
      → id ≢ i
      → lookup i st'.by_id ≡ some j
  unfolding found_or_new register
  found_or_new-running defaults none p id i j st st' got e found runs ne =
      ap (λ (z : Got Report × JobStore Report). lookup i z.1.by_id) (sym (some_inj e))
      ∙ lookup-put_other id i (new_job Report fmt id p) (make_room Report fmt st).by_id ne
      ∙ Evicts-running Report fmt defaults i j (make_room-Evicts Report fmt defaults st) found runs
  found_or_new-running defaults (some existing) p id i j st st' got e found runs ne =
      ap (λ (z : JobStore Report). lookup i z.by_id)
        (held_job-store (lookup existing st.by_id) st st' got e)
      ∙ found

  -- A request under another id, whether it finds a job, registers one or evicts one to make room,
  -- leaves every running job where it is.
  pub get_or_create-running :
      (defaults : HasDefaults) (p : BenchmarkParams) (id i : String) (j : Job Report)
      (st st' : JobStore Report) (got : Got Report)
      → get_or_create Report fmt p id st ≡ some (got, st')
      → lookup i st.by_id ≡ some j
      → is_running j.status ≡ true
      → id ≢ i
      → lookup i st'.by_id ≡ some j
  unfolding get_or_create
  get_or_create-running defaults p id i j st st' got =
      found_or_new-running defaults (lookup (cache_key Report fmt p) st.by_key) p id i j st st' got

  handle_lem :
      (p : BenchmarkParams) (id : String) (s : Jobs Report fmt) (got : Got Report)
      (st : JobStore Report)
      → validate_tuple p ≡ none
      → get_or_create Report fmt p id s.store ≡ some (got, st)
      → handle_benchmark Report fmt true (some p) (some id) (λ z. z) s
        ≡ some (reserve Report fmt got (record s { store = st }))
  unfolding handle_benchmark with_valid with_job
  handle_lem p id s got st valid e =
      ap (λ o. with_valid Report fmt o p (some id) (λ z. z) s) valid
      ∙ ap (λ o. with_job Report fmt o (λ z. z) s) e

  get_or_create-new :
      (p : BenchmarkParams) (id : String) (st : JobStore Report)
      → lookup (cache_key Report fmt p) st.by_key ≡ none
      → get_or_create Report fmt p id st ≡ some (register Report fmt p id (make_room Report fmt st))
  unfolding get_or_create found_or_new
  get_or_create-new p id st new = ap (λ o. found_or_new Report fmt o p id st) new

  get_or_create-registered :
      (p : BenchmarkParams) (id other : String) (st : JobStore Report)
      → let st' = (register Report fmt p id st).1 in
        get_or_create Report fmt p other st'
        ≡ some
            (record { id = id; status = running; params = with_defaults p; created = false }, st')
  unfolding get_or_create found_or_new register held_job
  get_or_create-registered p id other st =
      let st' = (register Report fmt p id st).1 in
      ap (λ o. found_or_new Report fmt o p other st')
        (lookup-put_self (cache_key Report fmt p) id st.by_key)
      ∙ ap (λ o. held_job Report fmt o st') (lookup-put_self id (new_job Report fmt id p) st.by_id)

  remove-snapshot :
      (id : String) (st : JobStore Report) → snapshot Report fmt id (remove Report fmt id st) ≡ none
  unfolding snapshot remove
  remove-snapshot id st =
      ap (lookup id) (
        delete-by_id Report fmt id (lookup id st.by_id)
          (record st { order = drop_first Report id st.order }))
      ∙ lookup-erase_self id st.by_id

  reserve-full :
      (got : Got Report) (s : Jobs Report fmt)
      → got.created ≡ true
      → ltb s.slots 4 ≡ false
      → reserve Report fmt got s
        ≡ (at_capacity, record s { store = remove Report fmt got.id s.store })
  unfolding reserve
  reserve-full got s new full =
      ap
        (λ c.
          if c
          then (if ltb s.slots 4
              then (started got.id got.status got.params, record s { slots = s.slots + 1 })
              else (at_capacity, record s { store = remove Report fmt got.id s.store }))
          else (started got.id got.status got.params, s))
        new
      ∙ ap
          (λ c.
            if c
            then (started got.id got.status got.params, record s { slots = s.slots + 1 })
            else (at_capacity, record s { store = remove Report fmt got.id s.store }))
          full

  -- With all sweep slots taken, a request of a new tuple registers its job and rolls it back. A
  -- request of the same tuple that comes between the two is answered with the id of that job, as
  -- running, and after the roll back no job has this id.
  pub rolled_back_after_started :
      (p : BenchmarkParams) (id other : String) (st : JobStore Report) (slots : ℕ)
      → validate_tuple p ≡ none
      → lookup (cache_key Report fmt p) st.by_key ≡ none
      → ltb slots 4 ≡ false
      → let st' = (register Report fmt p id (make_room Report fmt st)).1 in
        let between : Jobs Report fmt = record { store = st'; slots = slots } in
        let after : Jobs Report fmt = record { store = remove Report fmt id st'; slots = slots } in
        (handle_benchmark Report fmt true (some p) (some other) (λ s. s) between
          ≡ some (started id running (with_defaults p), between))
        × (handle_benchmark Report fmt true
              (some p)
              (some id)
              (λ s. s)
              (record { store = st; slots = slots })
            ≡ some (at_capacity, after))
        × (snapshot Report fmt id after.store ≡ none)
  unfolding reserve register
  rolled_back_after_started p id other st slots valid new full =
      let room = make_room Report fmt st in
      let before : Jobs Report fmt = record { store = st; slots = slots } in
      let got = (register Report fmt p id room).0 in
      let st' = (register Report fmt p id room).1 in
      let between : Jobs Report fmt = record { store = st'; slots = slots } in
      (
        handle_lem p other between _ st' valid (get_or_create-registered p id other room),
        handle_lem p id before got st' valid (get_or_create-new p id st new)
            ∙ ap some (reserve-full got between refl full),
        remove-snapshot id st',
      )
