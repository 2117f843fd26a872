-- ===== src/Tests/Posts.antt =====
-- Benchmark jobs of two tuples.
use Prim.Native.String.{String, []}
use Prim.Native.Char.{code}
use text.Mathlib.TextEquality.{eq_iff}
use convergent_routing_analy.Prelude.{
  ℕ, zero, suc, ◌≡◌, refl, sym, ap, ◌∙◌, ◌⊎◌, inl, inr, true, ℤ, pos, negsuc, none, some, lookup,
  put, arith,
}
use convergent_routing_analy.Float.{Float64}
use convergent_routing_analy.Tests.Numbers
use convergent_routing_analy.Tests.Numbers.{Number, fin, top}
use convergent_routing_analy.Api.Tuple.{BenchmarkParams, Formats, with_defaults, validate_tuple}
use convergent_routing_analy.Api.Jobs.{
  running, Job, JobStore, new_job_store, Got, cache_key, register, make_room, get_or_create, remove,
  complete, report, failure, snapshot, started, at_capacity, handle_benchmark, Jobs,
}
use convergent_routing_analy.Api.Jobs.Keys.{bars, IsFormat}
use convergent_routing_analy.Api.Jobs.Store.{HasDefaults}
use convergent_routing_analy.Api.Jobs.Held.{fresh, posted, Holds, get_or_create-Holds}
use convergent_routing_analy.Api.Jobs.Races.{get_or_create-running, rolled_back_after_started}

-- A quotient that keeps its dividend, so that the default coefficients are not zero.
instance abbrev units : Float64
units = record Numbers.numbers { div = λ a b. a }

defaults : HasDefaults
defaults = record { alpha = refl; beta = refl; capacity = refl }

abbrev naive_tuple : BenchmarkParams
naive_tuple = record {
  algorithm = "naive";
  alpha = fin 0;
  beta = fin 4;
  capacity_scale = fin 1;
  request_count = pos 10;
  seed = pos 0;
}

abbrev msa_tuple : BenchmarkParams
msa_tuple = record naive_tuple { algorithm = "msa" }

-- A number as that many strokes.
abbrev strokes : ℕ → String
strokes zero = []
strokes (suc n) = String.◌∷◌ "I" (strokes n)

abbrev print_number : Number → String
print_number (fin n) = strokes n
print_number top = "inf"

abbrev print_int : ℤ → String
print_int (pos n) = strokes n
print_int (negsuc n) = String.◌∷◌ "-" (strokes n)

abbrev by_strokes : Formats
by_strokes = record { float = print_number; int = print_int }

size : String → ℕ
size [] = 0
size (String.◌∷◌ c s) = suc (size s)

-- The number of the first character.
lead : String → ℕ
lead [] = 0
lead (String.◌∷◌ c s) = code c

size-strokes : (n : ℕ) → size (strokes n) ≡ n
unfolding size
size-strokes zero = refl
size-strokes (suc n) = ap suc (size-strokes n)

strokes_inj : (m n : ℕ) → strokes m ≡ strokes n → m ≡ n
strokes_inj m n e = sym (size-strokes m) ∙ ap size e ∙ size-strokes n

lead-strokes : (n : ℕ) → (lead (strokes n) ≡ 0) ⊎ (lead (strokes n) ≡ 73)
unfolding lead
lead-strokes zero = inl refl
lead-strokes (suc n) = inr refl

strokes-ne : (n k : ℕ) (s : String) → lead s ≡ suc k → (suc k ≡ 73 → ⊥) → strokes n ≡ s → ⊥
strokes-ne n k s first other e = elim (lead-strokes n) [
  | inl none_there ↦ absurd (omega (arith, sym none_there ∙ ap lead e ∙ first))
  | inr stroke ↦ other (sym first ∙ sym (ap lead e) ∙ stroke)
]

bars-strokes : (n : ℕ) → bars (strokes n) ≡ 0
unfolding bars
bars-strokes zero = refl
bars-strokes (suc n) = omega (arith, bars-strokes n)

print_number_inj : (a b : Number) → print_number a ≡ print_number b → a ≡ b
unfolding lead
print_number_inj (fin m) (fin n) e = ap fin (strokes_inj m n e)
print_number_inj (fin m) top e = absurd (strokes-ne m 104 "inf" refl (λ h. omega (arith, h)) e)
print_number_inj top (fin n) e =
    absurd (strokes-ne n 104 "inf" refl (λ h. omega (arith, h)) (sym e))
print_number_inj top top e = refl

print_int_inj : (m n : ℤ) → print_int m ≡ print_int n → m ≡ n
unfolding lead size
print_int_inj (pos m) (pos n) e = ap pos (strokes_inj m n e)
print_int_inj (pos m) (negsuc n) e =
    absurd (strokes-ne m 44 (print_int (negsuc n)) refl (λ h. omega (arith, h)) e)
print_int_inj (negsuc m) (pos n) e =
    absurd (strokes-ne n 44 (print_int (negsuc m)) refl (λ h. omega (arith, h)) (sym e))
print_int_inj (negsuc m) (negsuc n) e =
    let sizes : suc (size (strokes m)) ≡ suc (size (strokes n)) = ap size e in
    ap negsuc (omega (arith, sizes, size-strokes m, size-strokes n))

bars-number : (a : Number) → bars (print_number a) ≡ 0
unfolding bars
bars-number (fin n) = bars-strokes n
bars-number top = refl

bars-int : (n : ℤ) → bars (print_int n) ≡ 0
unfolding bars
bars-int (pos n) = bars-strokes n
bars-int (negsuc n) = omega (arith, bars-strokes n)

by_strokes-IsFormat : IsFormat by_strokes
by_strokes-IsFormat = record {
  float_inj = print_number_inj;
  int_inj = print_int_inj;
  float_plain = bars-number;
  int_plain = bars-int;
}

abbrev empty_store : JobStore ℕ
empty_store = new_job_store ℕ 1

abbrev first : Got ℕ × JobStore ℕ
first = register ℕ by_strokes naive_tuple "a" (make_room ℕ by_strokes empty_store)

first_posted : get_or_create ℕ by_strokes naive_tuple "a" empty_store ≡ some first
unfolding get_or_create new_job_store lookup cache_key
first_posted = refl

get_or_create-Holds_example :
    (got : Got ℕ) × (st : JobStore ℕ) × (get_or_create ℕ by_strokes msa_tuple "b" first.1
      ≡ some (got, st))
    × Holds ℕ by_strokes defaults msa_tuple got st
unfolding register make_room new_job_store lookup put
get_or_create-Holds_example =
    get_or_create-Holds ℕ by_strokes defaults by_strokes-IsFormat msa_tuple "b"
      (posted naive_tuple "a" first.0 (fresh 1) refl first_posted) refl

-- The store is full and its one job runs: the second is stored beside it.
abbrev second : Got ℕ × JobStore ℕ
second = register ℕ by_strokes msa_tuple "b" (make_room ℕ by_strokes first.1)

second_posted : get_or_create ℕ by_strokes msa_tuple "b" first.1 ≡ some second
unfolding get_or_create register make_room new_job_store lookup put cache_key with_defaults
second_posted = refl

abbrev running_job : Job ℕ
running_job = record {
  id = "a";
  params = with_defaults naive_tuple;
  status = running;
  report = none;
  err = "";
}

get_or_create-running_example : lookup "a" second.1.by_id ≡ some running_job
unfolding register lookup put
get_or_create-running_example =
    get_or_create-running ℕ by_strokes defaults msa_tuple "b" "a" running_job first.1 second.1
      second.0 second_posted refl refl (λ e. cc ((eq_iff "b" "a").1 e))

rolled_back_after_started_example :
    let st = first.1 in
    let between : Jobs ℕ by_strokes = record { store = st; slots = 4 } in
    let after : Jobs ℕ by_strokes = record { store = remove ℕ by_strokes "a" st; slots = 4 } in
    (handle_benchmark ℕ by_strokes true (some naive_tuple) (some "c") (λ s. s) between
      ≡ some (started "a" running (with_defaults naive_tuple), between))
    × (handle_benchmark ℕ by_strokes true
          (some naive_tuple)
          (some "a")
          (λ s. s)
          (record { store = empty_store; slots = 4 })
        ≡ some (at_capacity, after))
    × (snapshot ℕ by_strokes "a" after.store ≡ none)
unfolding validate_tuple lookup new_job_store
rolled_back_after_started_example =
    rolled_back_after_started ℕ by_strokes naive_tuple "a" "c" empty_store 4 refl refl refl

-- A job that is done makes room, a failed one can be posted again.
evicted_test :
    lookup "a" (make_room ℕ by_strokes (complete ℕ by_strokes "a" (report 3) first.1)).by_id ≡ none
unfolding register make_room new_job_store complete lookup put cache_key with_defaults
evicted_test = refl

retried_test :
    lookup (cache_key ℕ by_strokes naive_tuple) (complete ℕ by_strokes "a" failure first.1).by_key
    ≡ none
unfolding register make_room new_job_store complete lookup put cache_key with_defaults
retried_test = refl
