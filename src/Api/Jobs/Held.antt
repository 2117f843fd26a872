-- ===== src/Api/Jobs/Held.antt =====
-- What a client that posts a benchmark gets, over every history of the store.
use Prim.Native.String.{String}
use convergent_routing_analy.Prelude.{
  ℕ, ◌≡◌, ◌≢◌, refl, sym, ap, subst, ◌∙◌, inl, inr, true, false, List, Option, none, some, length,
  ltb, leb, ◌&&◌, lookup, erase, put, lookup-put_self, lookup-put_other, lookup-erase_other, erased,
  put_cases, string_cases, some_inj, Bool-cases, Option-cases,
}
use convergent_routing_analy.Float.{Float64}
use convergent_routing_analy.Api.Tuple.{BenchmarkParams, Formats, with_defaults}
use convergent_routing_analy.Api.Jobs.{
  completed, crashed, is_running, Job, JobStore, new_job_store, Got, drop_first, cache_key,
  forget_key, delete, new_job, register, make_room, get_or_create, remove, found_or_new, held_job,
  settle, SweepResult, report, failure, complete,
}
use convergent_routing_analy.Api.Jobs.Keys.{IsFormat, cache_key_inj}
use convergent_routing_analy.Api.Jobs.Store.{
  HasDefaults, with_defaults_twice, IsKept, none_ne, cache_key-with_defaults, forget_key_lem,
  delete-IsKept, Evicts, kept, dropped, evict_oldest_done-Evicts, Evicts-IsKept,
}

true_ne : true ≡ false → ⊥
true_ne h = cc

module _ ⦃f : Float64⦄ (Report : Type 0) (fmt : Formats) where
  pub delete-by_id :
      (id : String) (o : Option (Job Report)) (st : JobStore Report)
      → (delete Report fmt id o st).by_id ≡ erase id st.by_id
  unfolding delete
  delete-by_id id none st = refl
  delete-by_id id (some j) st = refl

module _ ⦃f : Float64⦄ (Report : Type 0) (fmt : Formats) (defaults : HasDefaults) where
  abbrev Kept : JobStore Report → Type 0
  Kept = IsKept Report fmt defaults

  pub make_room-Evicts :
      (st : JobStore Report) → Evicts Report fmt defaults st (make_room Report fmt st)
  unfolding make_room
  make_room-Evicts st = elim (Bool-cases (ltb 0 st.max_jobs && leb st.max_jobs (length st.by_id))) [
    | inl full ↦ rw full (evict_oldest_done-Evicts Report fmt defaults st)
    | inr room ↦ rw room kept
  ]

  -- Eviction brings no job.
  Evicts-lookup :
      {st st' : JobStore Report} (id : String) (j : Job Report)
      → Evicts Report fmt defaults st st'
      → lookup id st'.by_id ≡ some j
      → lookup id st.by_id ≡ some j
  Evicts-lookup id j kept h = h
  Evicts-lookup id j (dropped gone order ended e) h =
      (erased gone id _ (
        sym (
          ap (lookup id)
            (ap (λ (z : JobStore Report). z.by_id) e ∙ delete-by_id Report fmt gone _ _))
        ∙ h)).1

  -- Eviction takes no running job.
  pub Evicts-running :
      {st st' : JobStore Report} (id : String) (j : Job Report)
      → Evicts Report fmt defaults st st'
      → lookup id st.by_id ≡ some j
      → is_running j.status ≡ true
      → lookup id st'.by_id ≡ some j
  Evicts-running {st} id j kept h r = h
  Evicts-running {st} id j (dropped gone order ended e) h r =
      ap (lookup id) (ap (λ (z : JobStore Report). z.by_id) e ∙ delete-by_id Report fmt gone _ _)
      ∙ lookup-erase_other gone id _
          (λ same. true_ne (sym r ∙ ended j (ap (λ z. lookup z st.by_id) same ∙ h)))
      ∙ h

  register-IsKept :
      (p : BenchmarkParams) (id : String) (st : JobStore Report)
      → lookup id st.by_id ≡ none
      → Kept st
      → Kept (register Report fmt p id st).1
  unfolding register
  register-IsKept p id st fresh w = record {
    keyed = λ key i h. elim (put_cases (cache_key Report fmt p) key id i st.by_key h) [
      | inl (at, this) ↦ (
        new_job Report fmt id p,
        ap (λ z. lookup z (put id (new_job Report fmt id p) st.by_id)) this
            ∙ lookup-put_self id (new_job Report fmt id p) st.by_id,
        cache_key-with_defaults Report fmt defaults p ∙ at,
      )
      | inr (ne, before) ↦
          let (j, found, same) = w.keyed key i before in
          let away : id ≢ i = λ z. none_ne (sym fresh ∙ ap (λ y. lookup y st.by_id) z ∙ found) in
          (j, lookup-put_other id i (new_job Report fmt id p) st.by_id away ∙ found, same)
    ];
    named = λ i j h. elim (put_cases id i (new_job Report fmt id p) j st.by_id h) [
      | inl (this, same) ↦ (
        ap (λ (z : Job Report). z.id) same ∙ this,
        subst (λ (z : Job Report). with_defaults z.params ≡ z.params) (sym same)
            (with_defaults_twice Report fmt defaults p),
      )
      | inr (ne, before) ↦ w.named i j before
    ];
  }

  -- A job that is written back under its id, with its tuple.
  rewrite-IsKept :
      (id : String) (j j' : Job Report) (st : JobStore Report) (by_key : List (String × String))
      → lookup id st.by_id ≡ some j
      → j'.id ≡ j.id
      → j'.params ≡ j.params
      → ((k i : String) → lookup k by_key ≡ some i → lookup k st.by_key ≡ some i)
      → Kept st
      → Kept (record st { by_id = put id j' st.by_id; by_key = by_key })
  rewrite-IsKept id j j' st by_key found same_id same_tuple fewer w = record {
    keyed = λ key i h.
        let (k, at, same) = w.keyed key i (fewer key i h) in
        elim (string_cases id i) [
          | inl this ↦
              let old : j ≡ k = some_inj (sym found ∙ ap (λ z. lookup z st.by_id) this ∙ at) in
              (
                j',
                ap (λ z. lookup z (put id j' st.by_id)) (sym this) ∙ lookup-put_self id j' st.by_id,
                ap (cache_key Report fmt) (same_tuple ∙ ap (λ (z : Job Report). z.params) old)
                    ∙ same,
              )
          | inr ne ↦ (k, lookup-put_other id i j' st.by_id ne ∙ at, same)
        ];
    named = λ i k h. elim (put_cases id i j' k st.by_id h) [
      | inl (this, same) ↦
          let (id_of, defaulted) = w.named id j found in
          (
            ap (λ (z : Job Report). z.id) same ∙ same_id ∙ id_of ∙ this,
            subst (λ z. with_defaults z ≡ z)
                (sym (ap (λ (z : Job Report). z.params) same ∙ same_tuple)) defaulted,
          )
      | inr (ne, before) ↦ w.named i k before
    ];
  }

  settle-IsKept :
      (o : Option (Job Report)) (id : String) (result : SweepResult Report fmt)
      (st : JobStore Report)
      → lookup id st.by_id ≡ o
      → Kept st
      → Kept (settle Report fmt o id result st)
  unfolding settle
  settle-IsKept none id result st e w = w
  settle-IsKept (some j) id failure st e w =
      rewrite-IsKept id j (record j { status = crashed; err = "benchmark failed" }) st
        (forget_key Report fmt (cache_key Report fmt j.params) id st.by_key) e refl refl
        (λ k i h.
          (forget_key_lem Report fmt defaults (cache_key Report fmt j.params) id k i st.by_key h).0)
        w
  settle-IsKept (some j) id (report r) st e w =
      rewrite-IsKept id j (record j { status = completed; report = some r }) st st.by_key e refl
        refl (λ k i h. h) w

  -- A history of the store: requests under new ids, rollbacks and results, in any order.
  pub data History : JobStore Report → Type 0 where
    fresh : (max_jobs : ℕ) → History (new_job_store Report max_jobs)
    posted :
        {st st' : JobStore Report} (p : BenchmarkParams) (id : String) (got : Got Report)
        → History st
        → lookup id st.by_id ≡ none
        → get_or_create Report fmt p id st ≡ some (got, st')
        → History st'
    rolled_back :
        {st : JobStore Report} (id : String) → History st → History (remove Report fmt id st)
    finished :
        {st : JobStore Report} (id : String) (result : SweepResult Report fmt)
        → History st
        → History (complete Report fmt id result st)

  -- The answer to a request: a job of the same tuple, which the store holds under its id.
  pub record Holds (p : BenchmarkParams) (got : Got Report) (st : JobStore Report) : Type 0 where
    pub job : Job Report
    pub found : lookup got.id st.by_id ≡ some job
    pub same : job.params ≡ with_defaults p

  register-Holds :
      (p : BenchmarkParams) (id : String) (st : JobStore Report)
      → Holds p (register Report fmt p id st).0 (register Report fmt p id st).1
  unfolding register
  register-Holds p id st = record {
    job = new_job Report fmt id p;
    found = lookup-put_self id (new_job Report fmt id p) st.by_id;
    same = refl;
  }

  pub make_room-new :
      (id : String) (st : JobStore Report)
      → lookup id st.by_id ≡ none
      → lookup id (make_room Report fmt st).by_id ≡ none
  make_room-new id st new = elim (Option-cases (lookup id (make_room Report fmt st).by_id)) [
    | inl still ↦ still
    | inr (j, found) ↦ absurd (none_ne (sym new ∙ Evicts-lookup id j (make_room-Evicts st) found))
  ]

  found_or_new-Holds :
      (formats : IsFormat fmt) (o : Option String) (p : BenchmarkParams) (id : String)
      (st : JobStore Report)
      → lookup (cache_key Report fmt p) st.by_key ≡ o
      → lookup id st.by_id ≡ none
      → Kept st
      → (got : Got Report) × (st' : JobStore Report) × (found_or_new Report fmt o p id st
          ≡ some (got, st'))
        × Holds p got st'
        × Kept st'
  unfolding found_or_new held_job
  found_or_new-Holds formats none p id st e new w =
      let room = make_room-Evicts st in
      let st' = make_room Report fmt st in
      (
        (register Report fmt p id st').0,
        (register Report fmt p id st').1,
        refl,
        register-Holds p id st',
        register-IsKept p id st' (make_room-new id st new)
            (Evicts-IsKept Report fmt defaults room w),
      )
  found_or_new-Holds formats (some existing) p id st e new w =
      let (j, found, same) = w.keyed (cache_key Report fmt p) existing e in
      (
        record { id = j.id; status = j.status; params = j.params; created = false },
        st,
        rw found refl,
        record {
          job = j;
          found = ap (λ z. lookup z st.by_id) (w.named existing j found).0 ∙ found;
          same =
              sym (w.named existing j found).1 ∙ cache_key_inj Report fmt formats j.params p same;
        },
        w,
      )

  get_or_create_lem :
      (formats : IsFormat fmt) (p : BenchmarkParams) (id : String) (st : JobStore Report)
      → lookup id st.by_id ≡ none
      → Kept st
      → (got : Got Report) × (st' : JobStore Report) × (get_or_create Report fmt p id st
          ≡ some (got, st'))
        × Holds p got st'
        × Kept st'
  unfolding get_or_create
  get_or_create_lem formats p id st new w =
      found_or_new-Holds formats (lookup (cache_key Report fmt p) st.by_key) p id st refl new w

  new-IsKept : (max_jobs : ℕ) → Kept (new_job_store Report max_jobs)
  unfolding new_job_store lookup
  new-IsKept max_jobs = record {
    keyed = λ key id h. absurd (none_ne h);
    named = λ id j h. absurd (none_ne h);
  }

  remove-IsKept : (id : String) (st : JobStore Report) → Kept st → Kept (remove Report fmt id st)
  unfolding remove
  remove-IsKept id st w = delete-IsKept Report fmt defaults id st (drop_first Report id st.order) w

  History-IsKept : IsFormat fmt → {st : JobStore Report} → History st → Kept st
  unfolding complete
  History-IsKept formats (fresh max_jobs) = new-IsKept max_jobs
  History-IsKept formats (posted p id got h new e) =
      let (got', st', e', _, w) = get_or_create_lem formats p id _ new (History-IsKept formats h) in
      subst Kept (ap (λ (z : Got Report × JobStore Report). z.1) (some_inj (sym e' ∙ e))) w
  History-IsKept formats (rolled_back id h) = remove-IsKept id _ (History-IsKept formats h)
  History-IsKept formats (finished {st} id result h) =
      settle-IsKept (lookup id st.by_id) id result st refl (History-IsKept formats h)

  -- After any history of a store, in which each id is new when it is posted, getOrCreate under a new
  -- id never meets a missing job: it returns the id of a job that the store then holds, and the six
  -- fields of that job's tuple are those of the request with its defaults. The default coefficients
  -- are not zero, and fmt prints different numbers differently and without the character |.
  pub get_or_create-Holds :
      (formats : IsFormat fmt) {st : JobStore Report} (p : BenchmarkParams) (id : String)
      → History st
      → lookup id st.by_id ≡ none
      → (got : Got Report) × (st' : JobStore Report) × (get_or_create Report fmt p id st
          ≡ some (got, st'))
        × Holds p got st'
  get_or_create-Holds formats p id h new =
      let (got, st', e, held, _) =
        get_or_create_lem formats p id _ new (History-IsKept formats h) in
      (got, st', e, held)
