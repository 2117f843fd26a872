-- ===== src/Heap/Down.antt =====
-- `down` and Pop keep the heap order.
use convergent_routing_analy.Prelude.{
  ℕ, zero, suc, ◌+◌, ◌-◌, ◌*◌, ◌/◌, ◌≤◌, ◌<◌, ◌≡◌, ◌≢◌, inl, inr, refl, ◌∙◌, Bool, true, List,
  length, get_or, arith, ltb, Bool-cases, ℕ_discrete,
}
use convergent_routing_analy.Heap.{swap, smaller_child, down_loop}
use convergent_routing_analy.Heap.Order.{
  Has, get_or-swap, IsSame, IsSame-refl, IsSame-trans, IsSame-swap,
}
use convergent_routing_analy.Heap.Up.{IsOrder, IsHeap}

module _ {A : Type 0} (d : A) (less : A → A → Bool) (rel : A → A → Bool) where
  abbrev pub at : List A → ℕ → A
  at xs i = get_or xs i d

  -- Among the first n, only the edges below i may be out of order.
  pub record DownInv (xs : List A) (n i : ℕ) : Type 0 where
    pub edges :
        (c : ℕ) → 0 < c → c < n → (c - 1) / 2 ≢ i → rel (at xs ((c - 1) / 2)) (at xs c) ≡ true
    pub bridged :
        (c : ℕ)
        → 0 < i
        → 0 < c
        → c < n
        → (c - 1) / 2 ≡ i
        → rel (at xs ((i - 1) / 2)) (at xs c) ≡ true

  -- The outcome: the first n are a heap, the rest stays in place, and no element is lost.
  pub record Sunk (xs ys : List A) (n : ℕ) : Type 0 where
    pub heap : IsHeap d less rel ys n
    pub same : IsSame d xs ys
    pub fixed : (i : ℕ) → n ≤ i → at ys i ≡ at xs i

  module _ (P : A → Type 0) (o : IsOrder d less P rel) where
    -- The child that `down` compares with is in range, and is below its sibling.
    smaller_child_least :
        (xs : List A) (i n : ℕ)
        → 2 * i + 1 < n
        → n ≤ length xs
        → ((y : A) → Has d xs y → P y)
        → (smaller_child d less xs i n < n)
          × ((smaller_child d less xs i n - 1) / 2 ≡ i)
          × (0 < smaller_child d less xs i n)
          × ((c : ℕ)
              → 0 < c
              → c < n
              → (c - 1) / 2 ≡ i
              → rel (at xs (smaller_child d less xs i n)) (at xs c) ≡ true)
    unfolding smaller_child
    smaller_child_least xs i n h hn good =
        let left = at xs (2 * i + 1) in
        let right = at xs (2 * i + 1 + 1) in
        let p_left : P left = good _ (2 * i + 1, omega arith, refl) in
        elim (Bool-cases (ltb (2 * i + 1 + 1) n)) [
          | inl two ↦
              let p_right : P right = good _ (2 * i + 1 + 1, ground arith, refl) in
              elim (Bool-cases (less right left)) [
                | inl e ↦
                    rw (two, e)
                      (
                        ground arith,
                        omega arith,
                        omega arith,
                        λ c p q r. elim (ℕ_discrete c (2 * i + 1)) [
                          | yes k ↦ rw k (o.below right left e)
                          | no k ↦
                              let k' : c ≡ 2 * i + 1 + 1 = omega arith in
                              rw k' (o.reflexive right p_right)
                        ],
                      )
                | inr e ↦
                    rw (two, e)
                      (
                        ground arith,
                        omega arith,
                        omega arith,
                        λ c p q r. elim (ℕ_discrete c (2 * i + 1)) [
                          | yes k ↦ rw k (o.reflexive left p_left)
                          | no k ↦
                              let k' : c ≡ 2 * i + 1 + 1 = omega arith in
                              rw k' (o.settled right left p_right p_left e)
                        ],
                      )
              ]
          | inr one ↦ rw one (
            h,
            omega arith,
            omega arith,
            λ c p q r. let k : c ≡ 2 * i + 1 = ground arith in rw k (o.reflexive left p_left),
          )
        ]

    swap-DownInv :
        (xs : List A) (n i j : ℕ)
        → n ≤ length xs
        → j < n
        → (j - 1) / 2 ≡ i
        → 0 < j
        → ((c : ℕ) → 0 < c → c < n → (c - 1) / 2 ≡ i → rel (at xs j) (at xs c) ≡ true)
        → rel (at xs j) (at xs i) ≡ true
        → DownInv xs n i
        → DownInv (swap d xs i j) n j
    swap-DownInv xs n i j hn hj e pos least lower v =
        let read = λ (k : ℕ). get_or-swap d xs i j k (omega arith) (omega arith) in
        record {
          edges = λ c p h ne.
              ground
                (arith, read c, read ((c - 1) / 2), v.edges c, v.bridged c, v.bridged j, least c);
          bridged = λ c q p h r. ground (arith, read c, read ((j - 1) / 2), v.edges c);
        }

    pub down_loop_restores :
        (k : ℕ) (xs : List A) (i n : ℕ)
        → n < k + i
        → n ≤ length xs
        → ((y : A) → Has d xs y → P y)
        → DownInv xs n i
        → Sunk xs (down_loop d less k xs i n) n
    unfolding down_loop
    down_loop_restores zero xs i n f hn good v = record {
      heap = λ c p h. v.edges c p h (omega arith);
      same = IsSame-refl d xs;
      fixed = λ k h. refl;
    }
    down_loop_restores (suc k) xs i n f hn good v = elim (Bool-cases (ltb (2 * i + 1) n)) [
      | inl inner ↦
          let j = smaller_child d less xs i n in
          let (hj, parent, pos, least) = smaller_child_least xs i n (ground arith) hn good in
          elim (Bool-cases (less (at xs j) (at xs i))) [
            | inl lower ↦
                let same = IsSame-swap d xs i j (omega arith) (omega arith) in
                let rest =
                  down_loop_restores k (swap d xs i j) j n (omega arith) (omega (arith, same.size))
                    (λ y h. good y (same.from y h))
                    (swap-DownInv xs n i j hn hj parent pos least (o.below _ _ lower) v) in
                rw (inner, lower)
                  (record {
                    heap = rest.heap;
                    same = IsSame-trans d same rest.same;
                    fixed = λ m h.
                        rest.fixed m h
                        ∙ ground (arith, get_or-swap d xs i j m (omega arith) (omega arith));
                  })
            | inr stop ↦
                let top =
                  o.settled (at xs j) (at xs i) (good _ (j, omega arith, refl))
                    (good _ (i, omega arith, refl)) stop in
                rw (inner, stop)
                  (record {
                    heap = λ c p h. elim (ℕ_discrete ((c - 1) / 2) i) [
                      | yes r ↦ rw r (o.trans _ _ _ top (least c p h r))
                      | no r ↦ v.edges c p h r
                    ];
                    same = IsSame-refl d xs;
                    fixed = λ m h. refl;
                  })
          ]
      | inr leaf ↦ rw leaf (record {
        heap = λ c p h. v.edges c p h (λ e. absurd (ground arith));
        same = IsSame-refl d xs;
        fixed = λ m h. refl;
      })
    ]
