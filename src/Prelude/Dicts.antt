-- ===== src/Prelude/Dicts.antt =====
-- Go maps from strings: association lists, with the laws of reading after a write.
use Prim.Native.String.{String}
use text.Mathlib.Text as Text
use text.Mathlib.TextEquality.{eq_iff}
use mathlib.Core.Path.{◌≡◌, refl, sym, ap, ◌∙◌}
use mathlib.Core.Logic.{◌≢◌, ◌⊎◌, inl, inr}
use mathlib.Core.Bool.{false}
use mathlib.Core.List.{List, [], ◌∷◌}
use mathlib.Core.Option.{Option, none, some}
use native.Mathlib.Omega.{arith}
use convergent_routing_analy.Prelude.Tests.{Bool-cases, some_inj, if◌then◌else◌}

module _ {ℓ} {V : Type ℓ} where
  unfoldable pub lookup : String → List (String × V) → Option V
  lookup k [] = none
  lookup k ((j, v) ∷ m) = if Text.◌==◌ j k then some v else lookup k m

  unfoldable pub erase : String → List (String × V) → List (String × V)
  erase k [] = []
  erase k ((j, v) ∷ m) = if Text.◌==◌ j k then erase k m else (j, v) ∷ erase k m

  unfoldable pub put : String → V → List (String × V) → List (String × V)
  unfolding erase
  put k v m = (k, v) ∷ erase k m

  pub lookup-erase :
      (k j : String) (m : List (String × V))
      → lookup j (erase k m) ≡ (if Text.◌==◌ k j then none else lookup j m)
  unfolding lookup erase
  lookup-erase k j [] = ground (arith)
  lookup-erase k j ((i, v) ∷ m) =
      ground (arith, eq_iff i k, eq_iff i j, eq_iff k j, lookup-erase k j m)

  pub lookup-put :
      (k j : String) (v : V) (m : List (String × V))
      → lookup j (put k v m) ≡ (if Text.◌==◌ k j then some v else lookup j m)
  unfolding lookup put
  lookup-put k j v m = ground (arith, lookup-erase k j m)

-- Reading after a write, by cases.
pub lookup-put_self {ℓ} :
    {V : Type ℓ} (k : String) (v : V) (m : List (String × V)) → lookup k (put k v m) ≡ some v
lookup-put_self k v m =
    lookup-put k k v m ∙ ap (λ z. if z then some v else lookup k m) ((eq_iff k k).1 refl)

neq : (j k : String) → j ≢ k → Text.◌==◌ j k ≡ false
neq j k h = elim (Bool-cases (Text.◌==◌ j k)) [
  | inl same ↦ absurd (h ((eq_iff j k).0 same))
  | inr other ↦ other
]

pub lookup-put_other {ℓ} :
    {V : Type ℓ} (j k : String) (v : V) (m : List (String × V))
    → j ≢ k
    → lookup k (put j v m) ≡ lookup k m
lookup-put_other j k v m h =
    lookup-put j k v m ∙ ap (λ z. if z then some v else lookup k m) (neq j k h)

pub lookup-erase_other {ℓ} :
    {V : Type ℓ} (j k : String) (m : List (String × V)) → j ≢ k → lookup k (erase j m) ≡ lookup k m
lookup-erase_other j k m h =
    lookup-erase j k m ∙ ap (λ z. if z then none else lookup k m) (neq j k h)

pub lookup-erase_self {ℓ} :
    {V : Type ℓ} (k : String) (m : List (String × V)) → lookup k (erase k m) ≡ none
lookup-erase_self k m =
    lookup-erase k k m ∙ ap (λ z. if z then none else lookup k m) ((eq_iff k k).1 refl)

pub erased {ℓ} :
    {V : Type ℓ} (j k : String) (m : List (String × V)) {v : V}
    → lookup k (erase j m) ≡ some v
    → (j ≢ k) × (lookup k m ≡ some v)
erased j k m h = elim (Bool-cases (Text.◌==◌ j k)) [
  | inl same ↦ cc (h, lookup-erase j k m, ap (λ z. if z then none else lookup k m) same)
  | inr other ↦ (
    (λ e. cc (other, (eq_iff j k).1 e)),
    sym (ap (λ z. if z then none else lookup k m) other) ∙ sym (lookup-erase j k m) ∙ h,
  )
]

-- What is read after a write is what was written, or was there under another key.
pub put_cases {ℓ} :
    {V : Type ℓ} (j k : String) (w v : V) (m : List (String × V))
    → lookup k (put j w m) ≡ some v
    → ((j ≡ k) × (v ≡ w)) ⊎ ((j ≢ k) × (lookup k m ≡ some v))
put_cases j k w v m h = elim (Bool-cases (Text.◌==◌ j k)) [
  | inl same ↦
      let e : j ≡ k = (eq_iff j k).0 same in
      inl (e, some_inj (sym h ∙ ap (λ z. lookup z (put j w m)) (sym e) ∙ lookup-put_self j w m))
  | inr other ↦
      let ne : j ≢ k = λ e. cc (other, (eq_iff j k).1 e) in
      inr (ne, sym (lookup-put_other j k w m ne) ∙ h)
]

pub string_cases : (j k : String) → (j ≡ k) ⊎ (j ≢ k)
string_cases j k = elim (Bool-cases (Text.◌==◌ j k)) [
  | inl same ↦ inl ((eq_iff j k).0 same)
  | inr other ↦ inr (λ e. cc (other, (eq_iff j k).1 e))
]
