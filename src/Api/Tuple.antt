-- ===== src/Api/Tuple.antt =====
-- engine/internal/api/benchmark.go: the tuple of a benchmark, its defaults and its check.
use Prim.Native.String as String
use Prim.Native.String.{String}
use Prim.Native.Char.{code}
use text.Mathlib.Text as Text
use convergent_routing_analy.Prelude.{
  ℕ, Bool, true, false, not, ◌&&◌, ◌||◌, ℤ, pos, negsuc, List, [], ◌∷◌, Option, none, some, ltb,
  leb, ◌==◌, eqb_ℤ, if◌then◌else◌,
}
use convergent_routing_analy.Float.{Float64, Float, of_nat, div, lt, le, eq}
use convergent_routing_analy.Api.Replay.{router_order}

abbrev pub max_request_count : ℕ
max_request_count = 100000

-- unicode.IsSpace
unfoldable pub is_space : ℕ → Bool
is_space c =
    (leb 9 c && leb c 13)
    || c == 32
    || c == 133
    || c == 160
    || c == 5760
    || (leb 8192 c && leb c 8202)
    || c == 8232
    || c == 8233
    || c == 8239
    || c == 8287
    || c == 12288

-- strings.TrimSpace(s) == ""
unfoldable pub is_blank : String → Bool
unfolding is_space
is_blank String.[] = true
is_blank (String.◌∷◌ c s) = is_space (code c) && is_blank s

-- The texts in a row.
abbrev pub concat : List String → String
concat [] = ""
concat (s ∷ rest) = String.◌++◌ s (concat rest)

unfoldable pub is_router_in : List String → String → Bool
is_router_in [] name = false
is_router_in (r ∷ rs) name = Text.◌==◌ r name || is_router_in rs name

pub data TupleError : Type 0 where
  unknown_algorithm negative_alpha negative_beta no_capacity negative_count too_many : TupleError

module _ ⦃f : Float64⦄ where
  pub record BenchmarkParams : Type 0 where
    pub algorithm : String
    pub alpha : Float
    pub beta : Float
    pub capacity_scale : Float
    pub request_count : ℤ
    pub seed : ℤ

  -- What fmt prints: a float64 with %g, an integer with %d.
  pub record Formats : Type 0 where
    pub float : Float → String
    pub int : ℤ → String

  abbrev or_default : Float → Float → Float
  or_default v d = if eq v (of_nat 0) then d else v

  -- 0.15 is the nearest float64 to 15/100.
  unfoldable pub with_defaults : BenchmarkParams → BenchmarkParams
  unfolding is_blank
  with_defaults p = record p {
    algorithm = if is_blank p.algorithm then "all" else p.algorithm;
    alpha = or_default p.alpha (div (of_nat 15) (of_nat 100));
    beta = or_default p.beta (of_nat 4);
    capacity_scale = or_default p.capacity_scale (of_nat 1);
    request_count = if eqb_ℤ p.request_count (pos 0) then pos 1000 else p.request_count;
  }

  abbrev bad_count : ℤ → Option TupleError
  bad_count (negsuc n) = some negative_count
  bad_count (pos n) = if ltb max_request_count n then some too_many else none

  unfoldable pub validate_tuple : BenchmarkParams → Option TupleError
  unfolding with_defaults is_router_in
  validate_tuple p =
      let d = with_defaults p in
      if not (Text.◌==◌ d.algorithm "all") && not (is_router_in router_order d.algorithm)
      then some unknown_algorithm
      else if lt d.alpha (of_nat 0)
      then some negative_alpha
      else if lt d.beta (of_nat 0)
      then some negative_beta
      else if le d.capacity_scale (of_nat 0)
      then some no_capacity
      else bad_count d.request_count
