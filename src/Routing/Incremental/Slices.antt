-- ===== src/Routing/Incremental/Slices.antt =====
-- What holds of all requests holds of those of a batch.
use Prim.Native.String.{String}
use convergent_routing_analy.Prelude.{
  ℕ, zero, suc, ◌+◌, ◌-◌, ◌≤◌, ◌<◌, ◌≡◌, refl, ◌∙◌, ap, List, [], ◌∷◌, length, get_or, take, drop,
  get_or-take, get_or-drop, length-take, length-drop, arith,
}
use convergent_routing_analy.Float.{Float64}
use convergent_routing_analy.Graph.{Graph}
use convergent_routing_analy.Routing.Dijkstra.{WeightFunc}
use convergent_routing_analy.Routing.Requests.{RouteRequest, Route, RouteError, OdPair}
use convergent_routing_analy.Routing.FanOut.{no_request, no_route}
use convergent_routing_analy.Routing.SinglePass.Served.{
  Serves, AllServed, one_more, BlamesOne, at_head, at_tail,
}
use convergent_routing_analy.Routing.SinglePass.Search.{AllSnapped, no_pair, next_pair}
use convergent_routing_analy.Routing.Batches.{BatchRange}
use convergent_routing_analy.Routing.Incremental.{slice, overwrite, copy_range}

module _ {ℓ} {A : Type ℓ} where
  pub length-slice :
      (r : BatchRange) (xs : List A) → r.hi ≤ length xs → length (slice r xs) ≡ r.hi - r.lo
  length-slice r xs h = omega (arith, length-take (r.hi - r.lo) (drop r.lo xs), length-drop r.lo xs)

  pub length-slice-le : (r : BatchRange) (xs : List A) → length (slice r xs) ≤ length xs
  length-slice-le r xs =
      omega (arith, length-take (r.hi - r.lo) (drop r.lo xs), length-drop r.lo xs)

  get_or-slice :
      (r : BatchRange) (xs : List A) (j : ℕ) (d : A)
      → j < r.hi - r.lo
      → get_or (slice r xs) j d ≡ get_or xs (r.lo + j) d
  get_or-slice r xs j d h = get_or-take (r.hi - r.lo) (drop r.lo xs) j d h ∙ get_or-drop r.lo xs j d

  take_all : (n : ℕ) (xs : List A) → length xs ≤ n → take n xs ≡ xs
  take_all zero [] h = refl
  take_all zero (x ∷ xs) h = absurd (omega arith)
  take_all (suc n) [] h = refl
  take_all (suc n) (x ∷ xs) h = ap (λ z. x ∷ z) (take_all n xs (omega arith))

  pub length-overwrite : (at : ℕ) (vs xs : List A) → length (overwrite at vs xs) ≡ length xs
  length-overwrite at vs [] = refl
  length-overwrite zero [] (x ∷ xs) = refl
  length-overwrite zero (v ∷ vs) (x ∷ xs) = ap suc (length-overwrite zero vs xs)
  length-overwrite (suc at) vs (x ∷ xs) = ap suc (length-overwrite at vs xs)

  overwrite_front :
      (vs xs : List A) (j : ℕ) (d : A)
      → j < length vs
      → j < length xs
      → get_or (overwrite 0 vs xs) j d ≡ get_or vs j d
  overwrite_front vs [] j d h k = absurd (omega arith)
  overwrite_front [] (x ∷ xs) j d h k = absurd (omega arith)
  overwrite_front (v ∷ vs) (x ∷ xs) zero d h k = refl
  overwrite_front (v ∷ vs) (x ∷ xs) (suc j) d h k =
      overwrite_front vs xs j d (omega arith) (omega arith)

  -- The values stand from `at` on.
  overwrite_new :
      (at : ℕ) (vs xs : List A) (j : ℕ) (d : A)
      → j < length vs
      → at + j < length xs
      → get_or (overwrite at vs xs) (at + j) d ≡ get_or vs j d
  overwrite_new at vs [] j d h k = absurd (omega arith)
  overwrite_new zero vs (x ∷ xs) j d h k =
      ap (λ z. get_or (overwrite 0 vs (x ∷ xs)) z d) {x = 0 + j} {y = j} (omega arith)
      ∙ overwrite_front vs (x ∷ xs) j d h (omega arith)
  overwrite_new (suc at) vs (x ∷ xs) j d h k =
      ap (λ z. get_or (x ∷ overwrite at vs xs) z d) {x = suc at + j} {y = suc (at + j)}
        (omega arith)
      ∙ overwrite_new at vs xs j d h (omega arith)

  -- What stands before `at` stays.
  overwrite_old :
      (at : ℕ) (vs xs : List A) (i : ℕ) (d : A)
      → i < at
      → get_or (overwrite at vs xs) i d ≡ get_or xs i d
  overwrite_old at vs [] i d h = refl
  overwrite_old zero vs (x ∷ xs) i d h = absurd (omega arith)
  overwrite_old (suc at) vs (x ∷ xs) zero d h = refl
  overwrite_old (suc at) vs (x ∷ xs) (suc i) d h = overwrite_old at vs xs i d (omega arith)

  module _ (r : BatchRange) (xs : List A) (i : ℕ) (d : A) where
    pub slice_at : r.lo ≤ i → i < r.hi → get_or (slice r xs) (i - r.lo) d ≡ get_or xs i d
    slice_at above below =
        get_or-slice r xs (i - r.lo) d (omega arith)
        ∙ ap (λ z. get_or xs z d) {x = r.lo + (i - r.lo)} {y = i} (omega arith)

    pub copy_range_old : (vs : List A) → i < r.lo → get_or (copy_range r vs xs) i d ≡ get_or xs i d
    copy_range_old vs h = overwrite_old r.lo (take (r.hi - r.lo) vs) xs i d h

    pub copy_range_new :
        (vs : List A)
        → length vs ≡ r.hi - r.lo
        → r.hi ≤ length xs
        → r.lo ≤ i
        → i < r.hi
        → get_or (copy_range r vs xs) i d ≡ get_or vs (i - r.lo) d
    copy_range_new vs size fits above below =
        ap (λ ws. get_or (overwrite r.lo ws xs) i d)
          (take_all (r.hi - r.lo) vs (omega (arith, size)))
        ∙ ap (λ z. get_or (overwrite r.lo vs xs) z d) {x = i} {y = r.lo + (i - r.lo)} (omega arith)
        ∙ overwrite_new r.lo vs xs (i - r.lo) d (omega (arith, size)) (omega arith)

module _ ⦃f : Float64⦄ (g : Graph) (name : String) where
  AllSnapped-drop :
      (n : ℕ) (reqs : List RouteRequest) (pairs : List OdPair)
      → AllSnapped g name reqs pairs
      → AllSnapped g name (drop n reqs) (drop n pairs)
  AllSnapped-drop zero reqs pairs s = s
  AllSnapped-drop (suc n) [] [] s = s
  AllSnapped-drop (suc n) [] (p ∷ ps) s = elim s [ ]
  AllSnapped-drop (suc n) (r ∷ rs) [] s = elim s [ ]
  AllSnapped-drop (suc n) (r ∷ rs) (p ∷ ps) (next_pair s rest) = AllSnapped-drop n rs ps rest

  AllSnapped-take :
      (n : ℕ) (reqs : List RouteRequest) (pairs : List OdPair)
      → AllSnapped g name reqs pairs
      → AllSnapped g name (take n reqs) (take n pairs)
  AllSnapped-take zero reqs pairs s = no_pair
  AllSnapped-take (suc n) [] [] s = s
  AllSnapped-take (suc n) [] (p ∷ ps) s = elim s [ ]
  AllSnapped-take (suc n) (r ∷ rs) [] s = elim s [ ]
  AllSnapped-take (suc n) (r ∷ rs) (p ∷ ps) (next_pair s rest) =
      next_pair s (AllSnapped-take n rs ps rest)

  pub AllSnapped-slice :
      (r : BatchRange) (reqs : List RouteRequest) (pairs : List OdPair)
      → AllSnapped g name reqs pairs
      → AllSnapped g name (slice r reqs) (slice r pairs)
  AllSnapped-slice r reqs pairs s =
      AllSnapped-take (r.hi - r.lo) (drop r.lo reqs) (drop r.lo pairs)
        (AllSnapped-drop r.lo reqs pairs s)

  module _ (weight : WeightFunc) where
    BlamesOne-drop :
        (n : ℕ) (reqs : List RouteRequest) {e : RouteError}
        → BlamesOne g name weight (drop n reqs) e
        → BlamesOne g name weight reqs e
    BlamesOne-drop zero reqs b = b
    BlamesOne-drop (suc n) [] b = b
    BlamesOne-drop (suc n) (r ∷ rs) b = at_tail (BlamesOne-drop n rs b)

    BlamesOne-take :
        (n : ℕ) (reqs : List RouteRequest) {e : RouteError}
        → BlamesOne g name weight (take n reqs) e
        → BlamesOne g name weight reqs e
    BlamesOne-take zero reqs b = elim b [ ]
    BlamesOne-take (suc n) [] b = b
    BlamesOne-take (suc n) (r ∷ rs) (at_head b) = at_head b
    BlamesOne-take (suc n) (r ∷ rs) (at_tail b) = at_tail (BlamesOne-take n rs b)

    pub BlamesOne-slice :
        (r : BatchRange) (reqs : List RouteRequest) {e : RouteError}
        → BlamesOne g name weight (slice r reqs) e
        → BlamesOne g name weight reqs e
    BlamesOne-slice r reqs b =
        BlamesOne-drop r.lo reqs (BlamesOne-take (r.hi - r.lo) (drop r.lo reqs) b)

    pub AllServed-length :
        (reqs : List RouteRequest) (routes : List Route)
        → AllServed g name weight reqs routes
        → length reqs ≡ length routes
    AllServed-length [] [] s = refl
    AllServed-length [] (r ∷ rs) s = elim s [ ]
    AllServed-length (q ∷ qs) [] s = elim s [ ]
    AllServed-length (q ∷ qs) (r ∷ rs) (one_more s rest) = ap suc (AllServed-length qs rs rest)

    pub AllServed-at :
        (reqs : List RouteRequest) (routes : List Route) (j : ℕ)
        → AllServed g name weight reqs routes
        → j < length reqs
        → Serves g name weight (get_or reqs j no_request) (get_or routes j no_route)
    AllServed-at [] routes j s h = absurd (omega arith)
    AllServed-at (q ∷ qs) [] j s h = elim s [ ]
    AllServed-at (q ∷ qs) (r ∷ rs) zero (one_more s rest) h = s
    AllServed-at (q ∷ qs) (r ∷ rs) (suc j) (one_more s rest) h =
        AllServed-at qs rs j rest (omega arith)
