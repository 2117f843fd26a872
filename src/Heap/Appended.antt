-- ===== src/Heap/Appended.antt =====
-- What is in a slice after one element was appended.
use convergent_routing_analy.Prelude.{
  ℕ, ◌<◌, ◌≡◌, ◌≢◌, ◌⊎◌, inl, inr, refl, sym, ap, ◌∙◌, List, [], ◌∷◌, ◌++◌, length, get_or, arith,
  length-append, get_or-append, ℕ_discrete, ==_iff, not_==, if◌then◌else◌,
}
use convergent_routing_analy.Heap.Order.{Has}
use convergent_routing_analy.Heap.Shuffle.{IsDistinct}

module _ {A : Type 0} (d : A) (xs : List A) (x : A) where
  -- An old place, or the new one.
  abbrev Placed : ℕ → Type 0
  Placed n =
      ((n < length xs) × (get_or (xs ++ x ∷ []) n d ≡ get_or xs n d))
      ⊎ ((n ≡ length xs) × (get_or (xs ++ x ∷ []) n d ≡ x))

  place : (n : ℕ) → n < length (xs ++ x ∷ []) → Placed n
  place n hn = elim (ℕ_discrete n (length xs)) [
    | yes last ↦ inr (
      last,
      get_or-append xs x n d (omega (arith, last))
          ∙ ap (λ b. if b then x else get_or xs n d) ((==_iff n (length xs)).1 last),
    )
    | no other ↦
        let lt : n < length xs = omega (arith, other, hn, length-append xs (x ∷ [])) in
        inl (
          lt,
          get_or-append xs x n d (omega (arith, lt))
              ∙ ap (λ b. if b then x else get_or xs n d) (not_== n (length xs) lt),
        )
  ]

  pub Has-append_one : (y : A) → Has d (xs ++ x ∷ []) y → Has d xs y ⊎ (x ≡ y)
  Has-append_one y (i, hi, e) = elim (place i hi) [
    | inl (lt, at) ↦ inl (i, lt, sym at ∙ e)
    | inr (last, at) ↦ inr (sym at ∙ e)
  ]

  -- An element with a new key leaves the keys distinct.
  pub IsDistinct-append_one :
      {B : Type 0} (key : A → B)
      → IsDistinct d key xs
      → ((y : A) → Has d xs y → key y ≢ key x)
      → IsDistinct d key (xs ++ x ∷ [])
  IsDistinct-append_one key h new i j hi hj e = elim (place i hi) [
    | inl (li, ei) ↦ elim (place j hj) [
      | inl (lj, ej) ↦ h i j li lj (ap key (sym ei) ∙ e ∙ ap key ej)
      | inr (lj, ej) ↦ absurd (new (get_or xs i d) (i, li, refl) (ap key (sym ei) ∙ e ∙ ap key ej))
    ]
    | inr (li, ei) ↦ elim (place j hj) [
      | inl (lj, ej) ↦
          absurd (new (get_or xs j d) (j, lj, refl) (sym (ap key (sym ei) ∙ e ∙ ap key ej)))
      | inr (lj, ej) ↦ li ∙ sym lj
    ]
  ]
