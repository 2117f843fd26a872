-- ===== src/Heap/Up.antt =====
-- `up` and Push keep the heap order.
use convergent_routing_analy.Prelude.{
  ℕ, zero, suc, ◌+◌, ◌-◌, ◌/◌, ◌<◌, ◌≡◌, ◌≢◌, ◌↔◌, ◌⊎◌, inl, inr, ◌++◌, refl, Bool, true, false,
  List, [], ◌∷◌, length, get_or, arith, ◌==◌, Bool-cases, length-append, get_or-append, ℕ_discrete,
}
use convergent_routing_analy.Heap.{swap, up_loop, up, push}
use convergent_routing_analy.Heap.Order.{
  Has, length-swap, get_or-swap, IsSame, IsSame-refl, IsSame-trans, IsSame-swap,
}

module _ {A : Type 0} (d : A) (less : A → A → Bool) where
  -- What the heap needs of Less on its elements, which have the property P.
  pub record IsOrder (P : A → Type 0) (rel : A → A → Bool) : Type 0 where
    pub trans : (a b c : A) → rel a b ≡ true → rel b c ≡ true → rel a c ≡ true
    pub reflexive : (a : A) → P a → rel a a ≡ true
    pub below : (a b : A) → less a b ≡ true → rel a b ≡ true
    pub settled : (a b : A) → P a → P b → less a b ≡ false → rel b a ≡ true

  module _ (rel : A → A → Bool) where
    abbrev at : List A → ℕ → A
    at xs i = get_or xs i d

    -- No element of the first n is above its parent.
    abbrev pub IsHeap : List A → ℕ → Type 0
    IsHeap xs n = (c : ℕ) → 0 < c → c < n → rel (at xs ((c - 1) / 2)) (at xs c) ≡ true

    -- Only the edge above j may be out of order.
    record UpInv (xs : List A) (j : ℕ) : Type 0 where
      edges : (c : ℕ) → 0 < c → c < length xs → c ≢ j → rel (at xs ((c - 1) / 2)) (at xs c) ≡ true
      bridged :
          (c : ℕ)
          → 0 < j
          → 0 < c
          → c < length xs
          → (c - 1) / 2 ≡ j
          → rel (at xs ((j - 1) / 2)) (at xs c) ≡ true

    abbrev pub Sifted : List A → List A → Type 0
    Sifted xs ys = IsHeap ys (length xs) × IsSame d xs ys

    settle :
        (xs : List A) (j : ℕ)
        → UpInv xs j
        → (0 < j → rel (at xs ((j - 1) / 2)) (at xs j) ≡ true)
        → Sifted xs xs
    settle xs j v last = (
      λ c p h. elim (ℕ_discrete c j) [
        | yes e ↦ rw e (last (omega arith))
        | no ne ↦ v.edges c p h ne
      ],
      IsSame-refl d xs,
    )

    module _ (P : A → Type 0) (o : IsOrder P rel) where
      swap-UpInv :
          (xs : List A) (j : ℕ)
          → 0 < j
          → j < length xs
          → rel (at xs j) (at xs ((j - 1) / 2)) ≡ true
          → UpInv xs j
          → UpInv (swap d xs ((j - 1) / 2) j) ((j - 1) / 2)
      swap-UpInv xs j pos hj lower v =
          let i = (j - 1) / 2 in
          let read = λ (k : ℕ). get_or-swap d xs i j k (omega arith) hj in
          record {
            edges = λ c p h ne. ground (
              arith,
              length-swap d xs i j,
              read c,
              read ((c - 1) / 2),
              v.edges c,
              v.bridged c,
              o.trans (at xs j) (at xs i) (at xs c),
            );
            bridged = λ c q p h e. ground (
              arith,
              length-swap d xs i j,
              read c,
              read ((i - 1) / 2),
              v.edges c,
              v.edges i,
              o.trans (at xs ((i - 1) / 2)) (at xs i) (at xs c),
            );
          }

      -- The loop ends in a heap of the same elements.
      up_loop_restores :
          (k : ℕ) (xs : List A) (j : ℕ)
          → j < k
          → j < length xs
          → ((y : A) → Has d xs y → P y)
          → UpInv xs j
          → Sifted xs (up_loop d less k xs j)
      unfolding up_loop
      up_loop_restores zero xs j f hj good v = elim f [ ]
      up_loop_restores (suc k) xs j f hj good v = elim (Bool-cases ((j - 1) / 2 == j)) [
        | inl root ↦ rw root (settle xs j v (λ p. absurd (ground arith)))
        | inr inner ↦ elim (Bool-cases (less (at xs j) (at xs ((j - 1) / 2)))) [
          | inl lower ↦
              let same = IsSame-swap d xs ((j - 1) / 2) j (omega arith) hj in
              let (heap, rest) =
                up_loop_restores k (swap d xs ((j - 1) / 2) j) ((j - 1) / 2) (ground arith)
                  (omega (arith, same.size)) (λ y h. good y (same.from y h))
                  (swap-UpInv xs j (ground arith) hj (o.below _ _ lower) v) in
              rw (inner, lower)
                ((λ c p h. heap c p (omega (arith, same.size))), IsSame-trans d same rest)
          | inr stop ↦
              rw (inner, stop)
                (settle xs j v (λ p.
                  o.settled (at xs j) (at xs ((j - 1) / 2)) (good _ (j, hj, refl))
                    (good _ ((j - 1) / 2, omega arith, refl)) stop))
        ]
      ]

      -- With an order that less decides, heap.Push of an element on a heap gives a heap with one
      -- element more: those that were there and the new one.
      pub push_restores :
          (xs : List A) (x : A)
          → ((y : A) → Has d xs y → P y)
          → P x
          → IsHeap xs (length xs)
          → IsHeap (push d less xs x) (length (push d less xs x))
            × (length (push d less xs x) ≡ length xs + 1)
            × ((y : A) → Has d (push d less xs x) y ↔ (Has d xs y ⊎ (y ≡ x)))
      unfolding push up
      push_restores xs x good px heap =
          let size = length-append xs (x ∷ []) in
          let read = λ (i : ℕ). get_or-append xs x i d in
          let split : (y : A) → Has d (xs ++ x ∷ []) y → Has d xs y ⊎ (y ≡ x) = λ y (i, hi, e).
            elim (Bool-cases (i == length xs)) [
              | inl last ↦ inr (ground (arith, read i))
              | inr inside ↦ inl (i, ground (arith, read i), ground (arith, read i))
            ] in
          let start : UpInv (xs ++ x ∷ []) (length (xs ++ x ∷ []) - 1) = record {
            edges = λ c p h ne. ground (arith, size, read c, read ((c - 1) / 2), heap c);
            bridged = λ c q p h e. absurd (omega (arith, size));
          } in
          let (sorted, same) =
            up_loop_restores (length (xs ++ x ∷ []) - 1 + 1) (xs ++ x ∷ [])
              (length (xs ++ x ∷ []) - 1) (omega arith) (omega (arith, size))
              (λ y h. elim (split y h) [ inl old ↦ good y old | inr e ↦ rw e px ]) start in
          (
            λ c p h. sorted c p (omega (arith, same.size)),
            omega (arith, same.size, size),
            λ y. (
              λ h. split y (same.from y h),
              λ h. same.kept y (elim h [
                | inl (i, hi, e) ↦ (i, omega (arith, size), ground (arith, read i))
                | inr e ↦ (length xs, omega (arith, size), ground (arith, read (length xs)))
              ]),
            ),
          )
