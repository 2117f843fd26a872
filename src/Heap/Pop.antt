-- ===== src/Heap/Pop.antt =====
-- Pop takes a least element off a heap.
use convergent_routing_analy.Prelude.{
  ℕ, zero, suc, ◌+◌, ◌-◌, ◌/◌, ◌<◌, ◌≡◌, ◌⊎◌, inl, inr, refl, ◌∙◌, Bool, true, some, List, [], ◌∷◌,
  length, get_or, take, arith, length-take, get_or-take, ℕ_discrete,
}
use convergent_routing_analy.Heap.{swap, down, pop}
use convergent_routing_analy.Heap.Order.{Has, get_or-swap, IsSame-trans, IsSame-swap}
use convergent_routing_analy.Heap.Up.{IsOrder, IsHeap}
use convergent_routing_analy.Heap.Down.{DownInv, down_loop_restores}

module _ {A : Type 0} (d : A) (less : A → A → Bool) (rel : A → A → Bool) where
  -- `x` was taken off `xs`, and `rest` is left.
  pub record Popped (xs : List A) (x : A) (rest : List A) : Type 0 where
    pub member : Has d xs x
    pub least : (y : A) → Has d xs y → rel x y ≡ true
    pub heap : IsHeap d less rel rest (length rest)
    pub size : length xs ≡ suc (length rest)
    pub split : (y : A) → Has d xs y → (y ≡ x) ⊎ Has d rest y
    pub kept : (y : A) → Has d rest y → Has d xs y

  module _ (P : A → Type 0) (o : IsOrder d less P rel) where
    root_below :
        (k : ℕ) (xs : List A) (c : ℕ)
        → c < k
        → c < length xs
        → P (get_or xs 0 d)
        → IsHeap d less rel xs (length xs)
        → rel (get_or xs 0 d) (get_or xs c d) ≡ true
    root_below zero xs c f h p heap = elim f [ ]
    root_below (suc k) xs c f h p heap = elim (ℕ_discrete c 0) [
      | yes e ↦ rw e (o.reflexive _ p)
      | no ne ↦
          o.trans _ _ _ (root_below k xs ((c - 1) / 2) (omega arith) (omega arith) p heap)
            (heap c (omega arith) h)
    ]

    -- With an order that less decides, heap.Pop of a non-empty heap returns an element that is
    -- related to all and a heap of the others, one shorter.
    pub pop_restores :
        (xs : List A)
        → 0 < length xs
        → ((y : A) → Has d xs y → P y)
        → IsHeap d less rel xs (length xs)
        → (x : A) × (rest : List A) × (pop d less xs ≡ some (x, rest)) × Popped xs x rest
    unfolding pop down
    pop_restores [] pos good heap = elim pos [ ]
    pop_restores (r ∷ tl) pos good heap =
        let xs = r ∷ tl in
        let n = length tl in
        let zs = swap d xs 0 n in
        let read = λ (k : ℕ). get_or-swap d xs 0 n k pos (omega arith) in
        let swapped = IsSame-swap d xs 0 n pos (omega arith) in
        let start : DownInv d less rel zs n 0 = record {
          edges = λ c p h ne. ground (arith, read c, read ((c - 1) / 2), heap c);
          bridged = λ c q p h e. absurd (omega arith);
        } in
        let sunk =
          down_loop_restores d less rel P o (n + 1) zs 0 n (omega arith)
            (omega (arith, swapped.size)) (λ y h. good y (swapped.from y h)) start in
        let ys = down d less zs 0 n in
        let same = IsSame-trans d swapped sunk.same in
        let top : get_or ys n d ≡ r = sunk.fixed n (omega arith) ∙ ground (arith, read n) in
        let size : length (take n ys) ≡ n = omega (arith, length-take n ys, same.size) in
        let cut = λ (i : ℕ) (h : i < n). get_or-take n ys i d h in
        let kept : (y : A) → Has d (take n ys) y → Has d xs y = λ y (i, hi, e).
          same.from y
            (i, omega (arith, size, same.size), ground (arith, cut i (omega (arith, size)))) in
        (
          get_or ys n d,
          take n ys,
          refl,
          record {
            member = rw top (0, pos, refl);
            least = λ y (i, hi, e).
                rw (top, ← e) (root_below (length xs) xs i hi hi (good r (0, pos, refl)) heap);
            heap = λ c p h.
                rw (cut c (omega (arith, size)), cut ((c - 1) / 2) (omega (arith, size)))
                  (sunk.heap c p (omega (arith, size)));
            size = omega (arith, size);
            split = λ y h.
                let (i, hi, e) = same.kept y h in
                elim (ℕ_discrete i n) [
                  | yes last ↦ inl (ground arith)
                  | no inside ↦
                      let lt : i < n = omega (arith, same.size) in
                      inr (i, omega (arith, size), cut i lt ∙ e)
                ];
            kept = kept;
          },
        )
