-- ===== src/Heap/Order.antt =====
-- Swapping elements: lengths, reads, membership.
use convergent_routing_analy.Prelude.{
  zero, suc, ◌⊎◌, inl, inr, ◌∷◌, refl, ℕ, ◌<◌, ◌≡◌, ◌∙◌, List, length, get_or, set, arith, ◌==◌,
  if◌then◌else◌, length-set, get_or-set,
}
use convergent_routing_analy.Heap.{swap}

module _ {A : Type 0} (d : A) where
  -- `y` is an element of the slice.
  abbrev pub Has : List A → A → Type 0
  Has xs y = (i : ℕ) × (i < length xs) × (get_or xs i d ≡ y)

  pub length-swap : (xs : List A) (i j : ℕ) → length (swap d xs i j) ≡ length xs
  unfolding swap
  length-swap xs i j = length-set (set xs i (get_or xs j d)) j _ ∙ length-set xs i _

  pub get_or-swap :
      (xs : List A) (i j k : ℕ)
      → i < length xs
      → j < length xs
      → get_or (swap d xs i j) k d
        ≡ (if k == i then get_or xs j d else if k == j then get_or xs i d else get_or xs k d)
  unfolding swap
  get_or-swap xs i j k hi hj = ground (
    arith,
    length-set xs i (get_or xs j d),
    get_or-set (set xs i (get_or xs j d)) j k (get_or xs i d) d,
    get_or-set xs i k (get_or xs j d) d,
  )

  -- The same elements at other places.
  pub record IsSame (xs ys : List A) : Type 0 where
    pub size : length ys ≡ length xs
    pub kept : (y : A) → Has xs y → Has ys y
    pub from : (y : A) → Has ys y → Has xs y

  pub IsSame-refl : (xs : List A) → IsSame xs xs
  IsSame-refl xs = record { size = omega arith; kept = λ y h. h; from = λ y h. h }

  pub IsSame-trans : {xs ys zs : List A} → IsSame xs ys → IsSame ys zs → IsSame xs zs
  IsSame-trans p q = record {
    size = q.size ∙ p.size;
    kept = λ y h. q.kept y (p.kept y h);
    from = λ y h. p.from y (q.from y h);
  }

  abbrev moved : ℕ → ℕ → ℕ → ℕ
  moved i j k = if k == i then j else if k == j then i else k

  pub IsSame-swap :
      (xs : List A) (i j : ℕ) → i < length xs → j < length xs → IsSame xs (swap d xs i j)
  IsSame-swap xs i j hi hj = record {
    size = length-swap xs i j;
    kept = λ y (k, hk, e). (
      moved i j k,
      ground (arith, length-swap xs i j),
      ground (arith, get_or-swap xs i j (moved i j k)),
    );
    from = λ y (k, hk, e).
        (moved i j k, ground (arith, length-swap xs i j), ground (arith, get_or-swap xs i j k));
  }

  pub Has-cons : (x : A) (xs : List A) (y : A) → Has (x ∷ xs) y → (x ≡ y) ⊎ Has xs y
  Has-cons x xs y (zero, hi, e) = inl e
  Has-cons x xs y (suc i, hi, e) = inr (i, omega arith, e)

  pub Has-here : (x : A) (xs : List A) → Has (x ∷ xs) x
  Has-here x xs = (0, omega arith, refl)

  pub Has-there : (x : A) (xs : List A) (y : A) → Has xs y → Has (x ∷ xs) y
  Has-there x xs y (i, hi, e) = (suc i, omega arith, e)
