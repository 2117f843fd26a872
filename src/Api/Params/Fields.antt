-- ===== src/Api/Params/Fields.antt =====
-- One parameter of a query: what it is if the query is accepted.
use Prim.Native.String.{String}
use text.Mathlib.Text as Text
use text.Mathlib.TextEquality.{eq_iff}
use convergent_routing_analy.Prelude.{
  ◌≡◌, ◌≢◌, ◌⊎◌, inl, inr, refl, sym, subst, ap, ◌∙◌, Bool, false, Option, some, Bool-cases,
  Option-cases,
}
use convergent_routing_analy.Float.{Float64}
use convergent_routing_analy.Api.Params.{
  ParamError, StreamParams, Parsed, accepted, refused, ◌>>=◌, field,
}

module _ ⦃f : Float64⦄ where
  -- A value that is the default where the text is empty, and else is what is read, if not bad.
  abbrev pub FieldOf {ℓ} : {A : Type ℓ} → (String → Option A) → (A → Bool) → A → String → A → Type ℓ
  FieldOf read bad d text v =
      ((text ≡ "") × (v ≡ d)) ⊎ ((text ≢ "") × (read text ≡ some v) × (bad v ≡ false))

  accepted_inj : {p q : StreamParams} → accepted p ≡ accepted q → p ≡ q
  accepted_inj h = cc

  pub field_inv {ℓ} :
      {A : Type ℓ} (read : String → Option A) (bad : A → Bool) (e : ParamError)
      (store : A → StreamParams) (d : A) (text : String) (p : StreamParams) {p' : StreamParams}
      → store d ≡ p
      → field read bad e store text p ≡ accepted p'
      → (v : A) × (p' ≡ store v) × FieldOf read bad d text v
  field_inv read bad e store d text p same h = elim (Bool-cases (Text.◌==◌ text "")) [
    | inl none_given ↦ (
      d,
      accepted_inj (sym (rw none_given at h)) ∙ sym same,
      inl ((eq_iff text "").0 none_given, refl),
    )
    | inr given ↦ elim (Option-cases (read text)) [
      | inl bad_text ↦ cc (rw (given, bad_text) at h)
      | inr (v, reads) ↦ elim (Bool-cases (bad v)) [
        | inl out ↦ cc (rw (given, reads, out) at h)
        | inr fine ↦ (
          v,
          accepted_inj (sym (rw (given, reads, fine) at h)),
          inr ((λ z. cc (given, (eq_iff text "").1 z)), reads, fine),
        )
      ]
    ]
  ]

  bind_accepted :
      (m : Parsed) (k : StreamParams → Parsed) {b : StreamParams}
      → (m >>= k) ≡ accepted b
      → (a : StreamParams) × (m ≡ accepted a) × (k a ≡ accepted b)
  bind_accepted (accepted a) k h = (a, refl, h)
  bind_accepted (refused e) k h = cc

  pub bind_field {ℓ} :
      {A : Type ℓ} (read : String → Option A) (bad : A → Bool) (e : ParamError)
      (store : A → StreamParams) (d : A) (text : String) (p : StreamParams)
      (k : StreamParams → Parsed) (b : StreamParams)
      → store d ≡ p
      → (field read bad e store text p >>= k) ≡ accepted b
      → (v : A) × FieldOf read bad d text v × (k (store v) ≡ accepted b)
  bind_field read bad e store d text p k b same h =
      let (a, first, rest) = bind_accepted (field read bad e store text p) k h in
      let (v, is, w) = field_inv read bad e store d text p same first in
      (v, w, subst (λ z. k z ≡ accepted b) is rest)

  pub field_lem {ℓ} :
      {A : Type ℓ} (read : String → Option A) (bad : A → Bool) (e : ParamError)
      (store : A → StreamParams) (d : A) (text : String) (p : StreamParams) (v : A)
      → store d ≡ p
      → FieldOf read bad d text v
      → field read bad e store text p ≡ accepted (store v)
  field_lem read bad e store d text p v same (inl (absent, default)) =
      rw ((eq_iff text "").1 absent) (ap accepted (sym same ∙ ap store (sym default)))
  field_lem read bad e store d text p v same (inr (given, reads, fine)) =
      elim (Bool-cases (Text.◌==◌ text "")) [
        | inl none_given ↦ absurd (given ((eq_iff text "").0 none_given))
        | inr other ↦ rw (other, reads, fine) refl
      ]
