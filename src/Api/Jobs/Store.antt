-- ===== src/Api/Jobs/Store.antt =====
-- The job store stays consistent: a key leads to a job of its tuple, whatever was evicted.
use Prim.Native.String.{String}
use text.Mathlib.Text as Text
use text.Mathlib.TextEquality.{eq_iff}
use convergent_routing_analy.Prelude.{
  ◌≡◌, ◌≢◌, refl, sym, ap, subst, ◌∙◌, inl, inr, false, ℤ, pos, List, [], ◌∷◌, ◌++◌, Option, none,
  some, if◌then◌else◌, lookup, erase, lookup-erase_other, erased, some_inj, Bool-cases,
  Option-cases, eqb_ℤ,
}
use convergent_routing_analy.Float.{Float64, Float, of_nat, div, eq}
use convergent_routing_analy.Api.Tuple.{is_blank, concat, BenchmarkParams, Formats, with_defaults}
use convergent_routing_analy.Api.Jobs.{
  is_running, Job, JobStore, unless_running, cache_key, forget_key, delete, evict_from,
  evict_oldest_done,
}

all_not_blank : is_blank "all" ≡ false
unfolding is_blank
all_not_blank = refl

pub none_ne {ℓ} : {A : Type ℓ} {a : A} → none ≡ some a → ⊥
none_ne h = cc

module _ ⦃f : Float64⦄ where
  -- The defaults are not zero.
  pub record HasDefaults : Type 0 where
    pub alpha : eq (div (of_nat 15) (of_nat 100)) (of_nat 0) ≡ false
    pub beta : eq (of_nat 4) (of_nat 0) ≡ false
    pub capacity : eq (of_nat 1) (of_nat 0) ≡ false

  or_default_twice :
      (v d : Float)
      → eq d (of_nat 0) ≡ false
      → (if eq (if eq v (of_nat 0) then d else v) (of_nat 0)
          then d
          else (if eq v (of_nat 0) then d else v))
        ≡ (if eq v (of_nat 0) then d else v)
  or_default_twice v d h = elim (Bool-cases (eq v (of_nat 0))) [
    | inl zero ↦ rw (zero, h) refl
    | inr other ↦ rw (other, other) refl
  ]

  all_twice :
      (a : String)
      → (if is_blank (if is_blank a then "all" else a)
          then "all"
          else (if is_blank a then "all" else a))
        ≡ (if is_blank a then "all" else a)
  all_twice a = elim (Bool-cases (is_blank a)) [
    | inl blank ↦ rw (blank, all_not_blank) refl
    | inr other ↦ rw (other, other) refl
  ]

  count_twice :
      (n : ℤ)
      → (if eqb_ℤ (if eqb_ℤ n (pos 0) then pos 1000 else n) (pos 0)
          then pos 1000
          else (if eqb_ℤ n (pos 0) then pos 1000 else n))
        ≡ (if eqb_ℤ n (pos 0) then pos 1000 else n)
  count_twice n = elim (Bool-cases (eqb_ℤ n (pos 0))) [
    | inl zero ↦ rw zero refl
    | inr other ↦ rw (other, other) refl
  ]

  module _ (Report : Type 0) (fmt : Formats) (defaults : HasDefaults) where
    pub with_defaults_twice :
        (p : BenchmarkParams) → with_defaults (with_defaults p) ≡ with_defaults p
    unfolding with_defaults is_blank
    with_defaults_twice p = λ i. record {
      algorithm = all_twice p.algorithm i;
      alpha = or_default_twice p.alpha (div (of_nat 15) (of_nat 100)) defaults.alpha i;
      beta = or_default_twice p.beta (of_nat 4) defaults.beta i;
      capacity_scale = or_default_twice p.capacity_scale (of_nat 1) defaults.capacity i;
      request_count = count_twice p.request_count i;
      seed = p.seed;
    }

    pub cache_key-with_defaults :
        (p : BenchmarkParams) → cache_key Report fmt (with_defaults p) ≡ cache_key Report fmt p
    unfolding cache_key
    cache_key-with_defaults p =
        ap
          (λ (d : BenchmarkParams). concat (
            "algo="
            ∷ d.algorithm
            ∷ "|a="
            ∷ fmt.float d.alpha
            ∷ "|b="
            ∷ fmt.float d.beta
            ∷ "|cap="
            ∷ fmt.float d.capacity_scale
            ∷ "|n="
            ∷ fmt.int d.request_count
            ∷ "|seed="
            ∷ fmt.int d.seed
            ∷ []))
          (with_defaults_twice p)

    -- A key leads to a job of its tuple, and a job is found under its own id, with a tuple whose
    -- defaults are filled in.
    pub record IsKept (st : JobStore Report) : Type 0 where
      pub keyed :
          (key id : String)
          → lookup key st.by_key ≡ some id
          → (j : Job Report) × (lookup id st.by_id ≡ some j) × (cache_key Report fmt j.params ≡ key)
      pub named :
          (id : String) (j : Job Report)
          → lookup id st.by_id ≡ some j
          → (j.id ≡ id) × (with_defaults j.params ≡ j.params)

    forget_unknown :
        (key id : String) (m : List (String × String))
        → lookup key m ≡ none
        → forget_key Report fmt key id m ≡ m
    unfolding forget_key
    forget_unknown key id m h = rw (h, forget_key) refl

    forget_known :
        (key id cur : String) (m : List (String × String))
        → lookup key m ≡ some cur
        → forget_key Report fmt key id m ≡ (if Text.◌==◌ cur id then erase key m else m)
    unfolding forget_key
    forget_known key id cur m h = rw (h, forget_key) refl

    pub forget_key_lem :
        (key id k i : String) (m : List (String × String))
        → lookup k (forget_key Report fmt key id m) ≡ some i
        → (lookup k m ≡ some i) × (k ≡ key → i ≢ id)
    forget_key_lem key id k i m h = elim (Option-cases (lookup key m)) [
      | inl unknown ↦
          let same : lookup k m ≡ some i =
            ap (lookup k) (sym (forget_unknown key id m unknown)) ∙ h in
          (same, λ e w. absurd (none_ne (sym unknown ∙ ap (λ z. lookup z m) (sym e) ∙ same)))
      | inr (cur, known) ↦ elim (Bool-cases (Text.◌==◌ cur id)) [
        | inl mine ↦
            let gone = erased key k m (
              ap (lookup k) (
                sym (forget_known key id cur m known ∙ ap (λ z. if z then erase key m else m) mine))
              ∙ h) in
            (gone.1, λ e w. gone.0 (sym e))
        | inr other ↦
            let same : lookup k m ≡ some i =
              ap (lookup k) (
                sym
                  (forget_known key id cur m known ∙ ap (λ z. if z then erase key m else m) other))
              ∙ h in
            (
              same,
              λ e w.
                  let cur_id : cur ≡ id =
                    some_inj (sym known ∙ ap (λ z. lookup z m) (sym e) ∙ same) ∙ w in
                  cc (other, (eq_iff cur id).1 cur_id),
            )
      ]
    ]

    delete_found :
        (id : String) (st : JobStore Report) (order : List String) (o : Option (Job Report))
        → lookup id st.by_id ≡ o
        → IsKept st
        → IsKept (delete Report fmt id o (record st { order = order }))
    unfolding delete
    delete_found id st order none e w = record {
      keyed = λ key i h.
          let (j, found, same) = w.keyed key i h in
          let ne : id ≢ i = λ z. none_ne (sym e ∙ ap (λ y. lookup y st.by_id) z ∙ found) in
          (j, lookup-erase_other id i st.by_id ne ∙ found, same);
      named = λ i j h. w.named i j (erased id i st.by_id h).1;
    }
    delete_found id st order (some gone) e w = record {
      keyed = λ key i h.
          let (before, away) =
            forget_key_lem (cache_key Report fmt gone.params) id key i st.by_key h in
          let (j, found, same) = w.keyed key i before in
          let ne : id ≢ i = λ z.
            let this : gone ≡ j = some_inj (sym e ∙ ap (λ y. lookup y st.by_id) z ∙ found) in
            away (sym same ∙ ap (λ (y : Job Report). cache_key Report fmt y.params) (sym this))
              (sym z) in
          (j, lookup-erase_other id i st.by_id ne ∙ found, same);
      named = λ i j h. w.named i j (erased id i st.by_id h).1;
    }

    pub delete-IsKept :
        (id : String) (st : JobStore Report) (order : List String)
        → IsKept st
        → IsKept (delete Report fmt id (lookup id st.by_id) (record st { order = order }))
    delete-IsKept id st order w = delete_found id st order (lookup id st.by_id) refl w

    -- Eviction leaves the store as it is, or deletes one job that is not running.
    pub data Evicts (st : JobStore Report) : JobStore Report → Type 0 where
      kept : Evicts st st
      dropped :
          {st' : JobStore Report} (id : String) (order : List String)
          → ((j : Job Report) → lookup id st.by_id ≡ some j → is_running j.status ≡ false)
          → st' ≡ delete Report fmt id (lookup id st.by_id) (record st { order = order })
          → Evicts st st'

    choose :
        (id : String) (before ids : List String) (st rest gone : JobStore Report)
        (o : Option (Job Report))
        → lookup id st.by_id ≡ o
        → gone ≡ delete Report fmt id (lookup id st.by_id) (record st { order = before ++ ids })
        → Evicts st rest
        → Evicts st (unless_running Report o rest gone)
    choose id before ids st rest gone none e g r =
        dropped id (before ++ ids) (λ j h. absurd (none_ne (sym e ∙ h))) g
    choose id before ids st rest gone (some j) e g r = elim (Bool-cases (is_running j.status)) [
      | inl runs ↦ rw runs r
      | inr ended ↦ rw ended (
          dropped id (before ++ ids)
            (λ k h.
              ap (λ (z : Job Report). is_running z.status) (sym (some_inj (sym e ∙ h))) ∙ ended)
            g)
    ]

    evict_from-Evicts :
        (before ids : List String) (st : JobStore Report)
        → Evicts st (evict_from Report fmt before ids st)
    unfolding evict_from
    evict_from-Evicts before [] st = kept
    evict_from-Evicts before (id ∷ ids) st =
        let rest = evict_from Report fmt (before ++ id ∷ []) ids st in
        let gone =
          delete Report fmt id (lookup id st.by_id) (record st { order = before ++ ids }) in
        choose id before ids st rest gone (lookup id st.by_id) refl refl
          (evict_from-Evicts (before ++ id ∷ []) ids st)

    pub evict_oldest_done-Evicts :
        (st : JobStore Report) → Evicts st (evict_oldest_done Report fmt st)
    unfolding evict_oldest_done
    evict_oldest_done-Evicts st = evict_from-Evicts [] st.order st

    pub Evicts-IsKept : {st st' : JobStore Report} → Evicts st st' → IsKept st → IsKept st'
    Evicts-IsKept kept w = w
    Evicts-IsKept (dropped id order ended e) w = subst IsKept (sym e) (delete-IsKept id _ order w)
