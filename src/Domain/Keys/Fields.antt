-- ===== src/Domain/Keys/Fields.antt =====
-- The fields of a key between its colons.
use convergent_routing_analy.Prelude.{
  ℕ, zero, suc, ◌≡◌, ◌≢◌, refl, sym, ap, ◌∙◌, inl, inr, false, List, [], ◌∷◌, ◌++◌, ◌==◌,
  Bool-cases, ==_iff, arith,
}
use convergent_routing_analy.Domain.Keys.{Bytes, cons_first, split_colon}
use convergent_routing_analy.Domain.Keys.Decimals.{AllDigits}

abbrev pub NoColon : Bytes → Type 0
NoColon [] = Unit {0}
NoColon (c ∷ s) = ((c == b':') ≡ false) × NoColon s

pub AllDigits-NoColon : (s : Bytes) → AllDigits s → NoColon s
AllDigits-NoColon [] h = tt
AllDigits-NoColon (c ∷ s) (lo, hi, h) = (ground arith, AllDigits-NoColon s h)

-- The first field ends at the first colon.
pub split_colon_first :
    (n : ℕ) (s rest : Bytes)
    → NoColon s
    → split_colon (suc n) (s ++ b':' ∷ rest) ≡ s ∷ split_colon n rest
unfolding split_colon
split_colon_first n [] rest h = refl
split_colon_first n (c ∷ s) rest (plain, h) =
    rw plain (ap (cons_first c) (split_colon_first n s rest h))

-- Text without a colon is one field.
pub split_colon_last : (n : ℕ) (s : Bytes) → NoColon s → split_colon n s ≡ s ∷ []
unfolding split_colon
split_colon_last zero s h = refl
split_colon_last (suc n) [] h = refl
split_colon_last (suc n) (c ∷ s) (plain, h) =
    rw plain (ap (cons_first c) (split_colon_last (suc n) s h))

abbrev pub join_colon : List Bytes → Bytes
join_colon [] = []
join_colon (field ∷ []) = field
join_colon (field ∷ next ∷ fields) = field ++ b':' ∷ join_colon (next ∷ fields)

join_colon-cons_first :
    (c : ℕ) (fields : List Bytes)
    → fields ≢ []
    → join_colon (cons_first c fields) ≡ c ∷ join_colon fields
join_colon-cons_first c [] h = absurd (h refl)
join_colon-cons_first c (field ∷ []) h = refl
join_colon-cons_first c (field ∷ next ∷ fields) h = refl

cons_first-ne_nil : (c : ℕ) (fields : List Bytes) → fields ≢ [] → cons_first c fields ≢ []
cons_first-ne_nil c [] h = h
cons_first-ne_nil c (field ∷ fields) h = λ e. cc

split_colon-ne_nil : (n : ℕ) (s : Bytes) → split_colon n s ≢ []
unfolding split_colon
split_colon-ne_nil zero s = λ e. cc
split_colon-ne_nil (suc n) [] = λ e. cc
split_colon-ne_nil (suc n) (c ∷ s) = elim (Bool-cases (c == b':')) [
  | inl colon ↦ rw colon (λ e. cc)
  | inr plain ↦
      rw plain (cons_first-ne_nil c (split_colon (suc n) s) (split_colon-ne_nil (suc n) s))
]

join_colon-new :
    (s : Bytes) (fields : List Bytes)
    → fields ≢ []
    → join_colon fields ≡ s
    → join_colon ([] ∷ fields) ≡ b':' ∷ s
join_colon-new s [] h e = absurd (h refl)
join_colon-new s (field ∷ fields) h e = ap (λ t. b':' ∷ t) e

-- The fields joined by colons are the text.
pub join_colon-split_colon : (n : ℕ) (s : Bytes) → join_colon (split_colon n s) ≡ s
unfolding split_colon
join_colon-split_colon zero s = refl
join_colon-split_colon (suc n) [] = refl
join_colon-split_colon (suc n) (c ∷ s) = elim (Bool-cases (c == b':')) [
  | inl colon ↦ rw colon (
      join_colon-new s (split_colon n s) (split_colon-ne_nil n s) (join_colon-split_colon n s)
      ∙ ap (λ d. d ∷ s) (sym ((==_iff c b':').0 colon)))
  | inr plain ↦ rw plain (
      join_colon-cons_first c (split_colon (suc n) s) (split_colon-ne_nil (suc n) s)
      ∙ ap (λ t. c ∷ t) (join_colon-split_colon (suc n) s))
]
