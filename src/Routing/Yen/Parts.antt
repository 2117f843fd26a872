-- ===== src/Routing/Yen/Parts.antt =====
-- The root of a spur is a walk, at the cost that the spur loop has added up, and a walk follows on it.
use convergent_routing_analy.Prelude.{
  ℕ, zero, suc, ◌≤◌, ◌<◌, ◌≡◌, refl, sym, ◌∙◌, ap, ap₂, subst, List, [], ◌∷◌, ◌++◌, some, none,
  length, get_or, take, arith, length-append, get_or-append, ==_iff, not_==, if◌then◌else◌,
  ℕ_discrete,
}
use mathlib.Core.List.{append_assoc, append-nil}
use convergent_routing_analy.Float.{Float64, Float, of_nat, add}
use convergent_routing_analy.Domain.{NodeId, EdgeId}
use convergent_routing_analy.Graph.{Graph, Edge}
use convergent_routing_analy.Routing.Dijkstra.{WeightFunc, no_edge}
use convergent_routing_analy.Routing.Dijkstra.Walks.{Walk, here, step}

take-append {ℓ} :
    {A : Type ℓ} (n : ℕ) (xs ys : List A) → n ≤ length xs → take n (xs ++ ys) ≡ take n xs
take-append zero xs ys h = refl
take-append (suc n) [] ys h = absurd (omega arith)
take-append (suc n) (x ∷ xs) ys h = ap (λ t. x ∷ t) (take-append n xs ys (omega arith))

take_all {ℓ} : {A : Type ℓ} (xs : List A) → take (length xs) xs ≡ xs
take_all [] = refl
take_all (x ∷ xs) = ap (λ t. x ∷ t) (take_all xs)

module _ ⦃f : Float64⦄ (g : Graph) (weight : WeightFunc) where
  -- One walk after another.
  pub Walk-append :
      {u v x : NodeId} {p q : List EdgeId} {c c' : Float}
      → Walk g weight u v p c
      → Walk g weight v x q c'
      → (whole : Float) × Walk g weight u x (p ++ q) whole
  Walk-append {u} {v} {p = p} {c = c} first here =
      (c, subst (λ r. Walk g weight u v r c) (sym (append-nil p)) first)
  Walk-append {u} {p = p} first (step {p = q} id e rest ed from) =
      let (c'', walk) = Walk-append first rest in
      (
        add c'' (weight e),
        subst (λ r. Walk g weight u e.to r (add c'' (weight e))) (append_assoc p q (id ∷ []))
            (step id e walk ed from),
      )

  -- The cost of the edge of the path at the index, on top of the cost before.
  abbrev pub cost_after : List EdgeId → ℕ → Float → Float
  cost_after path i cost = elim (g.edge (get_or path i no_edge)) [
    | none ↦ cost
    | some e ↦ add cost (weight e)
  ]

  -- The cost of the first edges of the path, as many as the index.
  abbrev pub root_sum : List EdgeId → ℕ → Float
  root_sum path zero = of_nat 0
  root_sum path (suc i) = cost_after path i (root_sum path i)

  at_old :
      (p : List EdgeId) (id : EdgeId) (i : ℕ)
      → i < length p
      → get_or (p ++ id ∷ []) i no_edge ≡ get_or p i no_edge
  at_old p id i h =
      get_or-append p id i no_edge (omega arith)
      ∙ ap (λ b. if b then id else get_or p i no_edge) (not_== i (length p) h)

  at_new : (p : List EdgeId) (id : EdgeId) → get_or (p ++ id ∷ []) (length p) no_edge ≡ id
  at_new p id =
      get_or-append p id (length p) no_edge (omega arith)
      ∙ ap (λ b. if b then id else get_or p (length p) no_edge)
          ((==_iff (length p) (length p)).1 refl)

  root_sum-append :
      (p : List EdgeId) (id : EdgeId) (i : ℕ)
      → i ≤ length p
      → root_sum (p ++ id ∷ []) i ≡ root_sum p i
  root_sum-append p id zero h = refl
  root_sum-append p id (suc i) h =
      ap₂ (λ c k. elim (g.edge k) [ none ↦ c | some e ↦ add c (weight e) ])
        (root_sum-append p id i (omega arith)) (at_old p id i (omega arith))

  next_sum :
      (p : List EdgeId) (id : EdgeId) (e : Edge)
      → g.edge id ≡ some e
      → root_sum (p ++ id ∷ []) (suc (length p)) ≡ add (root_sum p (length p)) (weight e)
  next_sum p id e ed =
      ap₂ (λ c k. elim k [ none ↦ c | some e ↦ add c (weight e) ])
        (root_sum-append p id (length p) (omega arith)) (ap g.edge (at_new p id) ∙ ed)

  root_sum-Walk :
      {u v : NodeId} {p : List EdgeId} {c : Float}
      → Walk g weight u v p c
      → root_sum p (length p) ≡ c
  root_sum-Walk here = refl
  root_sum-Walk (step {p = p} id e walk ed from) =
      ap (root_sum (p ++ id ∷ [])) {x = length (p ++ id ∷ [])} {y = suc (length p)}
        (omega (arith, length-append p (id ∷ [])))
      ∙ next_sum p id e ed
      ∙ ap (λ c. add c (weight e)) (root_sum-Walk walk)

  -- Before an edge of a walk, the edges are a walk to where the edge begins, at the cost of the
  -- loop.
  pub Walk-take :
      {u v : NodeId} {p : List EdgeId} {c : Float} (i : ℕ)
      → Walk g weight u v p c
      → i < length p
      → (e : Edge) × (g.edge (get_or p i no_edge) ≡ some e)
        × Walk g weight u e.from (take i p) (root_sum p i)
  Walk-take i here h = absurd (omega arith)
  Walk-take {u} i (step {p = p} {c = c} {u = v} id e walk ed from) h =
      elim (ℕ_discrete i (length p)) [
        | yes last ↦ (
          e,
          ap (λ n. g.edge (get_or (p ++ id ∷ []) n no_edge)) last ∙ ap g.edge (at_new p id) ∙ ed,
          at_end last,
        )
        | no inner ↦
            let lt : i < length p = omega (arith, inner, h, length-append p (id ∷ [])) in
            let (e', ed', root) = Walk-take i walk lt in
            (e', ap g.edge (at_old p id i lt) ∙ ed', inside lt e' root)
      ]
    where
      at_end :
          i ≡ length p → Walk g weight u e.from (take i (p ++ id ∷ [])) (root_sum (p ++ id ∷ []) i)
      at_end last =
          let path : take i (p ++ id ∷ []) ≡ p =
            take-append i p (id ∷ []) (omega (arith, last))
            ∙ ap (λ n. take n p) last
            ∙ take_all p in
          let sum : root_sum (p ++ id ∷ []) i ≡ c =
            root_sum-append p id i (omega (arith, last))
            ∙ ap (root_sum p) last
            ∙ root_sum-Walk walk in
          subst (λ z. Walk g weight u z (take i (p ++ id ∷ [])) (root_sum (p ++ id ∷ []) i))
            (sym from)
            (subst (λ z. Walk g weight u v z (root_sum (p ++ id ∷ []) i)) (sym path)
              (subst (λ z. Walk g weight u v p z) (sym sum) walk))

      inside :
          i < length p
          → (e' : Edge) → Walk g weight u e'.from (take i p) (root_sum p i)
          → Walk g weight u e'.from (take i (p ++ id ∷ [])) (root_sum (p ++ id ∷ []) i)
      inside lt e' root =
          subst (λ z. Walk g weight u e'.from z (root_sum (p ++ id ∷ []) i))
            (sym (take-append i p (id ∷ []) (omega (arith, lt))))
            (subst (λ z. Walk g weight u e'.from (take i p) z)
              (sym (root_sum-append p id i (omega (arith, lt)))) root)
