-- ===== src/Congestion/Store.antt =====
-- Reading a load store after a write.
use convergent_routing_analy.Prelude.{
  ℕ, zero, suc, ◌+◌, ◌-◌, ◌≤◌, ◌≡◌, refl, sym, ◌∙◌, ap, pos, negsuc, [], ◌∷◌, ◌++◌, length, get_or,
  set, replicate, leb, if◌then◌else◌, ◌==◌, eqb_ℤ, in_range, Option-cases, Bool-cases, inl, inr,
  length-append, length-replicate, get_or-set, get_or-replicate, in_range-some, to_index, arith,
}
use convergent_routing_analy.Float.{Float64, Float, of_nat}
use convergent_routing_analy.Domain.{EdgeId}
use convergent_routing_analy.Congestion.{LoadSnapshot, load, grow, set_load}

module _ ⦃f : Float64⦄ where
  get_or-beyond : (xs : LoadSnapshot) (i : ℕ) → length xs ≤ i → get_or xs i (of_nat 0) ≡ of_nat 0
  get_or-beyond [] i h = refl
  get_or-beyond (x ∷ xs) zero h = absurd (omega arith)
  get_or-beyond (x ∷ xs) (suc i) h = get_or-beyond xs i (omega arith)

  -- A slot out of range reads as zero, which is the default here.
  pub load-pos : (xs : LoadSnapshot) (i : ℕ) → load xs (pos i) ≡ get_or xs i (of_nat 0)
  unfolding load
  load-pos xs i = elim (Option-cases (in_range (pos i) (length xs))) [
    | inl out ↦ rw (out, load) (sym (get_or-beyond xs i (ground arith)))
    | inr (j, inside) ↦
        let (same, h) = in_range-some (pos i) (length xs) j inside in
        let ji : j ≡ i = sym (ap to_index same) in
        rw (inside, load) (ap (λ z. get_or xs z (of_nat 0)) ji)
  ]

  pub load-negsuc : (xs : LoadSnapshot) (n : ℕ) → load xs (negsuc n) ≡ of_nat 0
  unfolding load
  load-negsuc xs n = refl

  get_or-padded :
      (xs : LoadSnapshot) (k i : ℕ)
      → get_or (xs ++ replicate k (of_nat 0)) i (of_nat 0) ≡ get_or xs i (of_nat 0)
  get_or-padded [] k i = get_or-replicate k i (of_nat 0)
  get_or-padded (x ∷ xs) k zero = refl
  get_or-padded (x ∷ xs) k (suc i) = get_or-padded xs k i

  pub get_or-grow :
      (xs : LoadSnapshot) (n i : ℕ) → get_or (grow xs n) i (of_nat 0) ≡ get_or xs i (of_nat 0)
  unfolding grow
  get_or-grow xs n i = elim (Bool-cases (leb n (length xs))) [
    | inl fits ↦ rw (fits, grow)
    | inr short ↦ rw (short, grow) (get_or-padded xs (n - length xs) i)
  ]

  length-grow : (xs : LoadSnapshot) (n : ℕ) → n ≤ length (grow xs n)
  unfolding grow
  length-grow xs n = elim (Bool-cases (leb n (length xs))) [
    | inl fits ↦ rw (fits, grow) (ground arith)
    | inr short ↦
        rw (short, grow)
          (omega (
            arith,
            length-append xs (replicate (n - length xs) (of_nat 0)),
            length-replicate (n - length xs) (of_nat 0),
          ))
  ]

  -- After Set every edge reads as before, but the edge that was set, which reads the new load; a
  -- negative id changes nothing. This holds for every id, in range or not.
  pub load-set_load :
      (xs : LoadSnapshot) (id other : EdgeId) (v : Float)
      → load (set_load xs id v) other ≡ elim id [
        | negsuc n ↦ load xs other
        | pos i ↦ if eqb_ℤ (pos i) other then v else load xs other
      ]
  unfolding set_load
  load-set_load xs (negsuc n) other v = refl
  load-set_load xs (pos i) (negsuc n) v =
      load-negsuc (set (grow xs (i + 1)) i v) n ∙ sym (load-negsuc xs n)
  load-set_load xs (pos i) (pos j) v =
      let room = length-grow xs (i + 1) in
      load-pos (set (grow xs (i + 1)) i v) j
      ∙ get_or-set (grow xs (i + 1)) i j v (of_nat 0) (omega arith)
      ∙ ap (λ z. if i == j then v else z) (get_or-grow xs (i + 1) j ∙ sym (load-pos xs j))
