-- ===== src/Api/Jobs.antt =====
-- engine/internal/api/benchmark.go: the bounded store of the jobs, and the handler that starts them. A report is a value that the store only keeps.
pub mod Keys
pub mod Store
pub mod Held
pub mod Races
use Prim.Native.String as String
use Prim.Native.String.{String}
use Prim.Native.Char.{code}
use text.Mathlib.Text as Text
use convergent_routing_analy.Prelude.{
  ℕ, ◌+◌, Bool, true, false, not, ◌&&◌, ◌||◌, ℤ, pos, negsuc, List, [], ◌∷◌, ◌++◌, Option, none,
  some, length, ltb, leb, ◌==◌, eqb_ℤ, if◌then◌else◌, lookup, erase, put,
}
use convergent_routing_analy.Float.{Float64, Float, of_nat, div, lt, le, eq}
use convergent_routing_analy.Api.Tuple.{
  max_request_count, is_space, is_blank, concat, is_router_in, TupleError, BenchmarkParams, Formats,
  with_defaults, validate_tuple,
}

abbrev pub max_concurrent_sweeps : ℕ
max_concurrent_sweeps = 4

abbrev pub max_benchmark_jobs : ℕ
max_benchmark_jobs = 256

pub data JobStatus : Type 0 where
  running completed crashed : JobStatus

abbrev pub is_running : JobStatus → Bool
is_running running = true
is_running completed = false
is_running crashed = false

module _ ⦃f : Float64⦄ where
  module _ (Report : Type 0) where
    pub record Job : Type 0 where
      pub id : String
      pub params : BenchmarkParams
      pub status : JobStatus
      pub report : Option Report
      pub err : String

    pub record JobStore : Type 0 where
      pub by_id : List (String × Job)
      pub by_key : List (String × String)
      pub order : List String
      pub max_jobs : ℕ

    unfoldable pub new_job_store : ℕ → JobStore
    new_job_store max_jobs = record { by_id = []; by_key = []; order = []; max_jobs = max_jobs }

    -- What getOrCreate returns.
    pub record Got : Type 0 where
      pub id : String
      pub status : JobStatus
      pub params : BenchmarkParams
      pub created : Bool

    abbrev pub unless_running : Option Job → JobStore → JobStore → JobStore
    unless_running none rest gone = gone
    unless_running (some j) rest gone = if is_running j.status then rest else gone

    -- The first occurrence of an id taken out.
    pub drop_first : String → List String → List String
    drop_first id [] = []
    drop_first id (o ∷ os) = if Text.◌==◌ o id then os else o ∷ drop_first id os

    module _ (fmt : Formats) where
      unfoldable pub cache_key : BenchmarkParams → String
      unfolding with_defaults
      cache_key p =
          let d = with_defaults p in
          concat (
            "algo="
            ∷ d.algorithm
            ∷ "|a="
            ∷ fmt.float d.alpha
            ∷ "|b="
            ∷ fmt.float d.beta
            ∷ "|cap="
            ∷ fmt.float d.capacity_scale
            ∷ "|n="
            ∷ fmt.int d.request_count
            ∷ "|seed="
            ∷ fmt.int d.seed
            ∷ [])

      -- The mapping of the key, if it is to the id.
      unfoldable pub forget_key : String → String → List (String × String) → List (String × String)
      forget_key key id by_key = elim (lookup key by_key) [
        | none ↦ by_key
        | some cur ↦ if Text.◌==◌ cur id then erase key by_key else by_key
      ]

      -- deleteLocked
      unfoldable pub delete : String → Option Job → JobStore → JobStore
      unfolding forget_key
      delete id none st = record st { by_id = erase id st.by_id }
      delete id (some j) st = record st {
        by_id = erase id st.by_id;
        by_key = forget_key (cache_key j.params) id st.by_key;
      }

      -- The loop of evictOldestDoneLocked, past the ids `before`.
      unfoldable pub evict_from : List String → List String → JobStore → JobStore
      unfolding delete
      evict_from before [] st = st
      evict_from before (id ∷ ids) st =
          let rest = evict_from (before ++ id ∷ []) ids st in
          let gone = delete id (lookup id st.by_id) (record st { order = before ++ ids }) in
          unless_running (lookup id st.by_id) rest gone

      unfoldable pub evict_oldest_done : JobStore → JobStore
      unfolding evict_from
      evict_oldest_done st = evict_from [] st.order st

      abbrev pub new_job : String → BenchmarkParams → Job
      new_job id p = record {
        id = id;
        params = with_defaults p;
        status = running;
        report = none;
        err = "";
      }

      unfoldable pub register : BenchmarkParams → String → JobStore → Got × JobStore
      register p id st = (
        record { id = id; status = running; params = with_defaults p; created = true },
        record st {
          by_id = put id (new_job id p) st.by_id;
          by_key = put (cache_key p) id st.by_key;
          order = st.order ++ id ∷ [];
        },
      )

      unfoldable pub make_room : JobStore → JobStore
      unfolding evict_oldest_done
      make_room st =
          if ltb 0 st.max_jobs && leb st.max_jobs (length st.by_id)
          then evict_oldest_done st
          else st

      -- none where the source would read the fields of a nil job.
      unfoldable pub held_job : Option Job → JobStore → Option (Got × JobStore)
      held_job none st = none
      held_job (some j) st =
          some (record { id = j.id; status = j.status; params = j.params; created = false }, st)

      unfoldable pub found_or_new :
          Option String → BenchmarkParams → String → JobStore → Option (Got × JobStore)
      unfolding held_job register make_room
      found_or_new none p id st = some (register p id (make_room st))
      found_or_new (some existing) p id st = held_job (lookup existing st.by_id) st

      unfoldable pub get_or_create : BenchmarkParams → String → JobStore → Option (Got × JobStore)
      unfolding found_or_new
      get_or_create p id st = found_or_new (lookup (cache_key p) st.by_key) p id st

      unfoldable pub remove : String → JobStore → JobStore
      unfolding delete
      remove id st = delete id (lookup id st.by_id) (record st { order = drop_first id st.order })

      -- A report, or the message of a failure; an empty one counts as none.
      pub data SweepResult : Type 0 where
        report : Report → SweepResult
        failure : SweepResult

      unfoldable pub settle : Option Job → String → SweepResult → JobStore → JobStore
      unfolding forget_key
      settle none id result st = st
      settle (some j) id failure st = record st {
        by_id = put id (record j { status = crashed; err = "benchmark failed" }) st.by_id;
        by_key = forget_key (cache_key j.params) id st.by_key;
      }
      settle (some j) id (report r) st = record st {
        by_id = put id (record j { status = completed; report = some r }) st.by_id;
      }

      unfoldable pub complete : String → SweepResult → JobStore → JobStore
      unfolding settle
      complete id result st = settle (lookup id st.by_id) id result st

      unfoldable pub snapshot : String → JobStore → Option Job
      snapshot id st = lookup id st.by_id

      -- What POST /benchmark answers.
      pub data Reply : Type 0 where
        method_not_allowed bad_body no_id at_capacity : Reply
        bad_tuple : TupleError → Reply
        started : String → JobStatus → BenchmarkParams → Reply

      -- The store, and the sweep slots that are taken.
      pub record Jobs : Type 0 where
        pub store : JobStore
        pub slots : ℕ

      unfoldable pub reserve : Got → Jobs → Reply × Jobs
      unfolding remove
      reserve got s =
          if got.created
          then (if ltb s.slots max_concurrent_sweeps
              then (started got.id got.status got.params, record s { slots = s.slots + 1 })
              else (at_capacity, record s { store = remove got.id s.store }))
          else (started got.id got.status got.params, s)

      -- After getOrCreate; `between` is what the other requests do before the slot is tried.
      unfoldable pub with_job :
          Option (Got × JobStore) → (Jobs → Jobs) → Jobs → Option (Reply × Jobs)
      unfolding reserve
      with_job none between s = none
      with_job (some (got, st)) between s = some (reserve got (between (record s { store = st })))

      -- After validate; the id is none where newJobID fails.
      unfoldable pub with_valid :
          Option TupleError
          → BenchmarkParams
          → Option String
          → (Jobs → Jobs)
          → Jobs
          → Option (Reply × Jobs)
      unfolding get_or_create with_job
      with_valid (some e) p id between s = some (bad_tuple e, s)
      with_valid none p none between s = some (no_id, s)
      with_valid none p (some id) between s = with_job (get_or_create p id s.store) between s

      -- handleBenchmark: `params` is none for a body that does not decode.
      unfoldable pub handle_benchmark :
          Bool
          → Option BenchmarkParams
          → Option String
          → (Jobs → Jobs)
          → Jobs
          → Option (Reply × Jobs)
      unfolding with_valid validate_tuple
      handle_benchmark false params id between s = some (method_not_allowed, s)
      handle_benchmark true none id between s = some (bad_body, s)
      handle_benchmark true (some p) id between s = with_valid (validate_tuple p) p id between s
