-- ===== src/Api/Jobs/Keys.antt =====
-- The key of a tuple tells its six fields apart.
use Prim.Native.String.{String, [], ◌∷◌, ◌++◌}
use Prim.Native.Char.{Char, code}
use text.Mathlib.TextLemmas.{nil-append, cons-append, append_cancel_left, append_cancel_right}
use convergent_routing_analy.Prelude.{
  ℕ, suc, ◌+◌, ◌≡◌, refl, sym, ◌∙◌, ap, ℤ, ◌==◌, if◌then◌else◌, arith,
}
use convergent_routing_analy.Float.{Float64, Float}
use convergent_routing_analy.Api.Tuple.{BenchmarkParams, with_defaults, Formats}
use convergent_routing_analy.Api.Jobs.{cache_key}

abbrev bar : Char
bar = "|"

-- How often the character | occurs.
unfoldable pub bars : String → ℕ
bars [] = 0
bars (c ∷ s) = (if code c == 124 then 1 else 0) + bars s

bars-cons : (t : String) → bars (bar ∷ t) ≡ suc (bars t)
unfolding bars
bars-cons t = omega arith

bars-append : (s t : String) → bars (s ++ t) ≡ bars s + bars t
unfolding bars
bars-append [] t = ap bars (nil-append t) ∙ omega arith
bars-append (c ∷ s) t = ap bars (cons-append c s t) ∙ omega (arith, bars-append s t)

bars_cut : (s t : String) → bars (s ++ bar ∷ t) ≡ bars s + suc (bars t)
bars_cut s t = bars-append s (bar ∷ t) ∙ ap (λ n. bars s + n) (bars-cons t)

tail_of : String → String
tail_of [] = []
tail_of (c ∷ s) = s

head_of : String → Char
head_of [] = bar
head_of (c ∷ s) = c

-- Two texts that are cut at a | with the same number of them after it.
cut_inj :
    (s s' t t' : String) → bars t ≡ bars t' → s ++ bar ∷ t ≡ s' ++ bar ∷ t' → (s ≡ s') × (t ≡ t')
unfolding tail_of head_of
cut_inj [] [] t t' h e = (refl, ap tail_of (sym (nil-append (bar ∷ t)) ∙ e ∙ nil-append (bar ∷ t')))
cut_inj [] (c ∷ s') t t' h e =
    let rest : t ≡ s' ++ bar ∷ t' =
      ap tail_of (sym (nil-append (bar ∷ t)) ∙ e ∙ cons-append c s' (bar ∷ t')) in
    absurd (omega (arith, h, ap bars rest, bars_cut s' t'))
cut_inj (c ∷ s) [] t t' h e =
    let rest : s ++ bar ∷ t ≡ t' =
      ap tail_of (sym (cons-append c s (bar ∷ t)) ∙ e ∙ nil-append (bar ∷ t')) in
    absurd (omega (arith, h, ap bars rest, bars_cut s t))
cut_inj (c ∷ s) (c' ∷ s') t t' h e =
    let whole : c ∷ (s ++ bar ∷ t) ≡ c' ∷ (s' ++ bar ∷ t') =
      sym (cons-append c s (bar ∷ t)) ∙ e ∙ cons-append c' s' (bar ∷ t') in
    let (same, rest) = cut_inj s s' t t' h (ap tail_of whole) in
    (λ i. ap head_of whole i ∷ same i, rest)

-- A tag, a field, and after a | what follows: two of them are equal field by field.
field_inj :
    (tag bar_tag next s s' t t' : String)
    → bar_tag ≡ bar ∷ next
    → bars (next ++ t) ≡ bars (next ++ t')
    → tag ++ (s ++ (bar_tag ++ t)) ≡ tag ++ (s' ++ (bar_tag ++ t'))
    → (s ≡ s') × (next ++ t ≡ next ++ t')
field_inj tag bar_tag next s s' t t' same h e =
    cut_inj s s' (next ++ t) (next ++ t') h (sym (cut s t) ∙ inner ∙ cut s' t')
  where
    inner : s ++ (bar_tag ++ t) ≡ s' ++ (bar_tag ++ t')
    inner = append_cancel_left tag (s ++ (bar_tag ++ t)) (s' ++ (bar_tag ++ t')) e

    cut : (a b : String) → a ++ (bar_tag ++ b) ≡ a ++ bar ∷ (next ++ b)
    cut a b = ap (λ z. a ++ z) (ap (λ z. z ++ b) same ∙ cons-append bar next b)

-- A field without a |, and what follows it.
bars-field :
    (n : ℕ) (tag bar_tag next s t : String)
    → bar_tag ≡ bar ∷ next
    → bars tag ≡ 0
    → bars s ≡ 0
    → bars (next ++ t) ≡ n
    → bars (tag ++ (s ++ (bar_tag ++ t))) ≡ suc n
bars-field n tag bar_tag next s t same h i j =
    bars-append tag (s ++ (bar_tag ++ t))
    ∙ omega (
      arith,
      h,
      i,
      j,
      bars-append s (bar_tag ++ t),
      ap bars (ap (λ z. z ++ t) same ∙ cons-append bar next t),
      bars-cons (next ++ t),
    )

module _ ⦃f : Float64⦄ where
  -- What fmt prints of two different numbers differs, and has no |.
  pub record IsFormat (fmt : Formats) : Type 0 where
    pub float_inj : (a b : Float) → fmt.float a ≡ fmt.float b → a ≡ b
    pub int_inj : (m n : ℤ) → fmt.int m ≡ fmt.int n → m ≡ n
    pub float_plain : (a : Float) → bars (fmt.float a) ≡ 0
    pub int_plain : (n : ℤ) → bars (fmt.int n) ≡ 0

  module _ (Report : Type 0) (fmt : Formats) (formats : IsFormat fmt) where
    -- What follows the tag of each field but the first.
    abbrev after_seed : BenchmarkParams → String
    after_seed d = fmt.int d.seed ++ ""

    abbrev after_count : BenchmarkParams → String
    after_count d = fmt.int d.request_count ++ ("|seed=" ++ after_seed d)

    abbrev after_capacity : BenchmarkParams → String
    after_capacity d = fmt.float d.capacity_scale ++ ("|n=" ++ after_count d)

    abbrev after_beta : BenchmarkParams → String
    after_beta d = fmt.float d.beta ++ ("|cap=" ++ after_capacity d)

    abbrev after_alpha : BenchmarkParams → String
    after_alpha d = fmt.float d.alpha ++ ("|b=" ++ after_beta d)

    bars_seed : (d : BenchmarkParams) → bars ("seed=" ++ after_seed d) ≡ 0
    unfolding bars
    bars_seed d =
        let tag : bars "seed=" ≡ 0 = refl in
        let end : bars "" ≡ 0 = refl in
        omega (
          arith,
          tag,
          end,
          bars-append "seed=" (after_seed d),
          bars-append (fmt.int d.seed) "",
          formats.int_plain d.seed,
        )

    bars_count : (d : BenchmarkParams) → bars ("n=" ++ after_count d) ≡ 1
    unfolding bars
    bars_count d =
        bars-field 0 "n=" "|seed=" "seed=" (fmt.int d.request_count) (after_seed d) refl refl
          (formats.int_plain d.request_count) (bars_seed d)

    bars_capacity : (d : BenchmarkParams) → bars ("cap=" ++ after_capacity d) ≡ 2
    unfolding bars
    bars_capacity d =
        bars-field 1 "cap=" "|n=" "n=" (fmt.float d.capacity_scale) (after_count d) refl refl
          (formats.float_plain d.capacity_scale) (bars_count d)

    bars_beta : (d : BenchmarkParams) → bars ("b=" ++ after_beta d) ≡ 3
    unfolding bars
    bars_beta d =
        bars-field 2 "b=" "|cap=" "cap=" (fmt.float d.beta) (after_capacity d) refl refl
          (formats.float_plain d.beta) (bars_capacity d)

    bars_alpha : (d : BenchmarkParams) → bars ("a=" ++ after_alpha d) ≡ 4
    unfolding bars
    bars_alpha d =
        bars-field 3 "a=" "|b=" "b=" (fmt.float d.alpha) (after_beta d) refl refl
          (formats.float_plain d.alpha) (bars_beta d)

    -- Two tuples of one key have the same six fields, after their defaults.
    pub cache_key_inj :
        (p q : BenchmarkParams)
        → cache_key Report fmt p ≡ cache_key Report fmt q
        → with_defaults p ≡ with_defaults q
    unfolding cache_key
    cache_key_inj p q e =
        let d = with_defaults p in
        let d' = with_defaults q in
        let (algorithm, e1) =
          field_inj "algo=" "|a=" "a=" d.algorithm d'.algorithm (after_alpha d) (after_alpha d')
            refl (bars_alpha d ∙ sym (bars_alpha d')) e in
        let (alpha, e2) =
          field_inj "a=" "|b=" "b=" (fmt.float d.alpha) (fmt.float d'.alpha) (after_beta d)
            (after_beta d') refl (bars_beta d ∙ sym (bars_beta d')) e1 in
        let (beta, e3) =
          field_inj "b=" "|cap=" "cap=" (fmt.float d.beta) (fmt.float d'.beta) (after_capacity d)
            (after_capacity d') refl (bars_capacity d ∙ sym (bars_capacity d')) e2 in
        let (capacity, e4) =
          field_inj "cap=" "|n=" "n=" (fmt.float d.capacity_scale) (fmt.float d'.capacity_scale)
            (after_count d) (after_count d') refl (bars_count d ∙ sym (bars_count d')) e3 in
        let (count, e5) =
          field_inj "n=" "|seed=" "seed=" (fmt.int d.request_count) (fmt.int d'.request_count)
            (after_seed d) (after_seed d') refl (bars_seed d ∙ sym (bars_seed d')) e4 in
        let seed =
          append_cancel_right (fmt.int d.seed) (fmt.int d'.seed) ""
            (append_cancel_left "seed=" (after_seed d) (after_seed d') e5) in
        λ i. record {
          algorithm = algorithm i;
          alpha = formats.float_inj d.alpha d'.alpha alpha i;
          beta = formats.float_inj d.beta d'.beta beta i;
          capacity_scale = formats.float_inj d.capacity_scale d'.capacity_scale capacity i;
          request_count = formats.int_inj d.request_count d'.request_count count i;
          seed = formats.int_inj d.seed d'.seed seed i;
        }
