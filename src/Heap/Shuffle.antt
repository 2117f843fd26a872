-- ===== src/Heap/Shuffle.antt =====
-- Push and Pop keep what a heap holds, whatever Less is: no element is lost or copied.
use convergent_routing_analy.Prelude.{
  ℕ, zero, suc, ◌+◌, ◌-◌, ◌/◌, ◌*◌, ◌≤◌, ◌<◌, ◌≡◌, ◌≢◌, inl, inr, refl, sym, ap, subst, ◌∙◌, Bool,
  some, List, [], ◌∷◌, ◌++◌, length, get_or, take, ltb, ◌==◌, if◌then◌else◌, arith, length-take,
  get_or-take, length-append, Bool-cases, some_inj,
}
use convergent_routing_analy.Heap.{swap, up_loop, up, smaller_child, down_loop, down, push, pop}
use convergent_routing_analy.Heap.Order.{
  Has, length-swap, get_or-swap, IsSame, IsSame-refl, IsSame-trans, IsSame-swap,
}

module _ {A : Type 0} (d : A) {B : Type 0} (key : A → B) where
  abbrev key_at : List A → ℕ → B
  key_at xs i = key (get_or xs i d)

  -- No two elements have one key.
  abbrev pub IsDistinct : List A → Type 0
  IsDistinct xs = (i j : ℕ) → i < length xs → j < length xs → key_at xs i ≡ key_at xs j → i ≡ j

  -- The same elements at other places, with none twice that was once.
  pub record Shuffled (xs ys : List A) : Type 0 where
    pub same : IsSame d xs ys
    pub distinct : IsDistinct xs → IsDistinct ys

  Shuffled-refl : (xs : List A) → Shuffled xs xs
  Shuffled-refl xs = record { same = IsSame-refl d xs; distinct = λ h. h }

  Shuffled-trans : (xs ys zs : List A) → Shuffled xs ys → Shuffled ys zs → Shuffled xs zs
  Shuffled-trans xs ys zs p q = record {
    same = IsSame-trans d p.same q.same;
    distinct = λ h. q.distinct (p.distinct h);
  }

  abbrev moved : ℕ → ℕ → ℕ → ℕ
  moved i j k = if k == i then j else if k == j then i else k

  at_moved :
      (xs : List A) (i j k : ℕ)
      → i < length xs
      → j < length xs
      → get_or (swap d xs i j) k d ≡ get_or xs (moved i j k) d
  at_moved xs i j k hi hj = ground (arith, get_or-swap d xs i j k hi hj)

  moved_lt : (i j k n : ℕ) → i < n → j < n → k < n → moved i j k < n
  moved_lt i j k n hi hj hk = ground arith

  moved_inj : (i j a b : ℕ) → moved i j a ≡ moved i j b → a ≡ b
  moved_inj i j a b h = ground (arith, h)

  swap-Shuffled :
      (xs : List A) (i j : ℕ) → i < length xs → j < length xs → Shuffled xs (swap d xs i j)
  swap-Shuffled xs i j hi hj = record {
    same = IsSame-swap d xs i j hi hj;
    distinct = λ h a b ha hb e. moved_inj i j a b (
        h (moved i j a) (moved i j b)
          (moved_lt i j a (length xs) hi hj (omega (arith, length-swap d xs i j, ha)))
          (moved_lt i j b (length xs) hi hj (omega (arith, length-swap d xs i j, hb)))
          (ap key (sym (at_moved xs i j a hi hj)) ∙ e ∙ ap key (at_moved xs i j b hi hj)));
  }

  module _ (less : A → A → Bool) where
    up_loop-Shuffled :
        (k : ℕ) (xs : List A) (j : ℕ) → j < length xs → Shuffled xs (up_loop d less k xs j)
    unfolding up_loop
    up_loop-Shuffled zero xs j hj = Shuffled-refl xs
    up_loop-Shuffled (suc k) xs j hj = elim (Bool-cases ((j - 1) / 2 == j)) [
      | inl root ↦ rw root (Shuffled-refl xs)
      | inr inner ↦ elim (Bool-cases (less (get_or xs j d) (get_or xs ((j - 1) / 2) d))) [
        | inl lower ↦
            let first = swap-Shuffled xs ((j - 1) / 2) j (omega arith) hj in
            rw (inner, lower)
              (Shuffled-trans xs _ _ first (
                up_loop-Shuffled k (swap d xs ((j - 1) / 2) j) ((j - 1) / 2)
                  (omega (arith, first.same.size))))
        | inr stop ↦ rw (inner, stop) (Shuffled-refl xs)
      ]
    ]

    smaller_child-lt : (xs : List A) (i n : ℕ) → 2 * i + 1 < n → smaller_child d less xs i n < n
    unfolding smaller_child
    smaller_child-lt xs i n h = elim (Bool-cases (ltb (2 * i + 1 + 1) n)) [
      | inl two ↦ elim (Bool-cases (less (get_or xs (2 * i + 1 + 1) d) (get_or xs (2 * i + 1) d))) [
        | inl right ↦ rw (two, right) (ground arith)
        | inr left ↦ rw (two, left) h
      ]
      | inr one ↦ rw one h
    ]

    down_loop-Shuffled :
        (k : ℕ) (xs : List A) (i n : ℕ) → n ≤ length xs → Shuffled xs (down_loop d less k xs i n)
    unfolding down_loop
    down_loop-Shuffled zero xs i n hn = Shuffled-refl xs
    down_loop-Shuffled (suc k) xs i n hn = elim (Bool-cases (ltb (2 * i + 1) n)) [
      | inl inner ↦
          let j = smaller_child d less xs i n in
          let hj : j < n = smaller_child-lt xs i n (ground arith) in
          elim (Bool-cases (less (get_or xs j d) (get_or xs i d))) [
            | inl lower ↦
                let first = swap-Shuffled xs i j (ground arith) (omega arith) in
                rw (inner, lower)
                  (Shuffled-trans xs _ _ first
                    (down_loop-Shuffled k (swap d xs i j) j n (omega (arith, first.same.size))))
            | inr stop ↦ rw (inner, stop) (Shuffled-refl xs)
          ]
      | inr leaf ↦ rw leaf (Shuffled-refl xs)
    ]

    pub push-Shuffled : (xs : List A) (x : A) → Shuffled (xs ++ x ∷ []) (push d less xs x)
    unfolding push up
    push-Shuffled xs x =
        up_loop-Shuffled _ (xs ++ x ∷ []) (length (xs ++ x ∷ []) - 1)
          (omega (arith, length-append xs (x ∷ [])))

    -- `x` was taken off `xs`, and `rest` is left, without it.
    pub record Taken (xs : List A) (x : A) (rest : List A) : Type 0 where
      pub member : Has d xs x
      pub kept : (y : A) → Has d rest y → Has d xs y
      pub distinct : IsDistinct xs → IsDistinct rest
      pub gone : IsDistinct xs → (i : ℕ) → i < length rest → key_at rest i ≢ key x

    take_last-Taken :
        (xs ys : List A) (n : ℕ)
        → length ys ≡ n + 1
        → Shuffled xs ys
        → Taken xs (get_or ys n d) (take n ys)
    take_last-Taken xs ys n size shuffled =
        let len : length (take n ys) ≡ n = omega (arith, length-take n ys, size) in
        let old =
          λ (i : ℕ) (h : i < length (take n ys)). get_or-take n ys i d (omega (arith, len)) in
        record {
          member = shuffled.same.from _ (n, omega (arith, size), refl);
          kept = λ y (i, hi, e).
              shuffled.same.from y (i, omega (arith, size, len, hi), sym (old i hi) ∙ e);
          distinct = λ h i j hi hj e.
              shuffled.distinct h i j (omega (arith, size, len, hi)) (omega (arith, size, len, hj))
                (ap key (sym (old i hi)) ∙ e ∙ ap key (old j hj));
          gone = λ h i hi e.
              let here : i ≡ n =
                shuffled.distinct h i n (omega (arith, size, len, hi)) (omega (arith, size))
                  (ap key (sym (old i hi)) ∙ e) in
              omega (arith, here, hi, len);
        }

    -- heap.Pop takes one element off.
    pub pop-Taken :
        (xs : List A) (x : A) (rest : List A) → pop d less xs ≡ some (x, rest) → Taken xs x rest
    unfolding pop down
    pop-Taken [] x rest h = absurd (cc h)
    pop-Taken (r ∷ tl) x rest h =
        let n = length tl in
        let swapped = swap-Shuffled (r ∷ tl) 0 n (omega arith) (omega arith) in
        let sunk = Shuffled-trans (r ∷ tl) _ _ swapped (
          down_loop-Shuffled (n + 1) (swap d (r ∷ tl) 0 n) 0 n
            (omega (arith, swapped.same.size))) in
        subst (λ p. Taken (r ∷ tl) (p.0) (p.1)) (some_inj h)
          (take_last-Taken (r ∷ tl) (down d less (swap d (r ∷ tl) 0 n) 0 n) n
            (omega (arith, sunk.same.size)) sunk)
