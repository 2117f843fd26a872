-- ===== src/Routing/Yen/Kept.antt =====
-- What the accepted and the candidate paths of Yen's search are, and that an offer and an acceptance
-- keep it.
use convergent_routing_analy.Prelude.{
  ◌+◌, ◌≡◌, ◌≢◌, ◌⊎◌, refl, sym, ◌∙◌, ap, ap₂, subst, inl, inr, Bool, true, false, ◌&&◌, ◌||◌, List,
  [], ◌∷◌, ◌++◌, arith, Bool-cases, eqb_ℤ, eqb_ℤ_iff, NoRepeat,
}
use convergent_routing_analy.Float.{Float64, Float, add, is_inf}
use convergent_routing_analy.Domain.{NodeId, EdgeId}
use convergent_routing_analy.Graph.{Graph}
use convergent_routing_analy.Heap.{push}
use convergent_routing_analy.Heap.Order.{Has}
use convergent_routing_analy.Heap.Appended.{Has-append_one, IsDistinct-append_one}
use convergent_routing_analy.Heap.Shuffle.{IsDistinct, Shuffled, push-Shuffled, Taken}
use convergent_routing_analy.Routing.Dijkstra.{WeightFunc}
use convergent_routing_analy.Routing.Dijkstra.Walks.{Walk}
use convergent_routing_analy.Routing.FanOut.Buffer.{Even}
use convergent_routing_analy.Routing.Multipath.{KPath, no_kpath}
use convergent_routing_analy.Routing.Yen.{
  Yen, CandidatePath, no_candidate, candidate_less, same_edges, is_seen, offer,
}
use convergent_routing_analy.Routing.Yen.Parts.{Walk-append}
use convergent_routing_analy.Routing.Yen.Loopless.{visited}

eqb_ℤ_refl : (x : EdgeId) → eqb_ℤ x x ≡ true
eqb_ℤ_refl x = (eqb_ℤ_iff x x).1 refl

same_edges_refl : (p : List EdgeId) → same_edges p p ≡ true
unfolding same_edges
same_edges_refl [] = refl
same_edges_refl (x ∷ xs) = ap₂ ◌&&◌ (eqb_ℤ_refl x) (same_edges_refl xs)

or_right : (a b : Bool) → b ≡ true → (a || b) ≡ true
or_right true b h = refl
or_right false b h = h

pub seen_self : (p : List EdgeId) (seen : List (List EdgeId)) → is_seen (p ∷ seen) p ≡ true
unfolding is_seen
seen_self p seen = ap (λ b. b || is_seen seen p) (same_edges_refl p)

seen_before :
    (p q : List EdgeId) (seen : List (List EdgeId))
    → is_seen seen q ≡ true
    → is_seen (p ∷ seen) q ≡ true
unfolding is_seen
seen_before p q seen h = or_right (same_edges p q) (is_seen seen q) h

module _ ⦃f : Float64⦄ (g : Graph) (weight : WeightFunc) (src dst : NodeId) where
  -- The edges lead from one node to the other, and the cost is that of the walk, or the sum of the
  -- costs of two walks, of which it is the one after the other; what follows the first is finite.
  pub data Priced : List EdgeId → Float → Type 0 where
    whole :
        {p : List EdgeId} {c : Float} → Walk g weight src dst p c → is_inf c ≡ false → Priced p c
    joined :
        {p q : List EdgeId} {c c' : Float} {u : NodeId}
        → Walk g weight src u p c
        → Walk g weight u dst q c'
        → is_inf c' ≡ false
        → Priced (p ++ q) (add c c')

  pub Priced-Walk :
      {p : List EdgeId} {c : Float} → Priced p c → (c' : Float) × Walk g weight src dst p c'
  Priced-Walk (whole {c = c} walk finite) = (c, walk)
  Priced-Walk (joined first rest finite) = Walk-append g weight first rest

  -- Such a path that visits no node twice.
  pub record IsRoute (p : List EdgeId) (c : Float) : Type 0 where
    pub priced : Priced p c
    pub loopless : NoRepeat (visited g p dst)

  -- The accepted paths and the candidates are routes, each was seen, and none is there twice.
  pub record Kept (accepted : List KPath) (y : Yen) : Type 0 where
    pub even : Even y.scratch
    pub accepted_route : (p : KPath) → Has no_kpath accepted p → IsRoute p.edges p.cost
    pub accepted_seen : (p : KPath) → Has no_kpath accepted p → is_seen y.seen p.edges ≡ true
    pub accepted_distinct : IsDistinct no_kpath (λ p. p.edges) accepted
    pub candidate_route :
        (x : CandidatePath) → Has no_candidate y.candidates x → IsRoute x.edges x.cost
    pub candidate_seen :
        (x : CandidatePath) → Has no_candidate y.candidates x → is_seen y.seen x.edges ≡ true
    pub candidate_distinct : IsDistinct no_candidate (λ x. x.edges) y.candidates
    pub apart :
        (p : KPath) (x : CandidatePath)
        → Has no_kpath accepted p
        → Has no_candidate y.candidates x
        → p.edges ≢ x.edges

  -- Loopless routes from one node to the other, each once.
  pub record AreRoutes (paths : List KPath) : Type 0 where
    pub routes : (p : KPath) → Has no_kpath paths p → IsRoute p.edges p.cost
    pub distinct : IsDistinct no_kpath (λ p. p.edges) paths

  pub none-AreRoutes : AreRoutes []
  none-AreRoutes = record {
    routes = λ p h. absurd (let (i, hi, e) = h in omega (arith, hi));
    distinct = λ i j hi hj e. absurd (omega arith);
  }

  not_seen :
      (seen : List (List EdgeId)) (p q : List EdgeId)
      → is_seen seen p ≡ false
      → is_seen seen q ≡ true
      → p ≢ q
  not_seen seen p q new old e =
      let clash : false ≡ true = sym new ∙ ap (is_seen seen) e ∙ old in cc clash

  pub offer-Kept :
      (accepted : List KPath) (y : Yen) (path : List EdgeId) (cost : Float)
      → Kept accepted y
      → IsRoute path cost
      → Kept accepted (offer path cost y)
  unfolding offer
  offer-Kept accepted y path cost kept route = elim (Bool-cases (is_seen y.seen path)) [
    | inl old ↦ rw old kept
    | inr new ↦ rw new (with_new new)
  ]
    where
      x : CandidatePath
      x = record { edges = path; cost = cost; seq = y.seq }

      pushed : List CandidatePath
      pushed = push no_candidate candidate_less y.candidates x

      shuffled : Shuffled no_candidate (λ x. x.edges) (y.candidates ++ x ∷ []) pushed
      shuffled = push-Shuffled no_candidate (λ x. x.edges) candidate_less y.candidates x

      old_or_new :
          (z : CandidatePath)
          → Has no_candidate pushed z
          → Has no_candidate y.candidates z ⊎ (x ≡ z)
      old_or_new z h = Has-append_one no_candidate y.candidates x z (shuffled.same.from z h)

      with_new :
          is_seen y.seen path ≡ false
          → Kept accepted (record y { seen = path ∷ y.seen; candidates = pushed; seq = y.seq + 1 })
      with_new new = record {
        even = kept.even;
        accepted_route = kept.accepted_route;
        accepted_seen = λ p h. seen_before path p.edges y.seen (kept.accepted_seen p h);
        accepted_distinct = kept.accepted_distinct;
        candidate_route = λ z h. elim (old_or_new z h) [
          | inl old ↦ kept.candidate_route z old
          | inr here ↦ subst (λ z. IsRoute z.edges z.cost) here route
        ];
        candidate_seen = λ z h. elim (old_or_new z h) [
          | inl old ↦ seen_before path z.edges y.seen (kept.candidate_seen z old)
          | inr here ↦
              subst (λ z. is_seen (path ∷ y.seen) z.edges ≡ true) here (seen_self path y.seen)
        ];
        candidate_distinct = shuffled.distinct (
            IsDistinct-append_one no_candidate y.candidates x (λ x. x.edges) kept.candidate_distinct
              (λ z h e. not_seen y.seen path z.edges new (kept.candidate_seen z h) (sym e)));
        apart = λ p z hp hz. elim (old_or_new z hz) [
          | inl old ↦ kept.apart p z hp old
          | inr here ↦ λ e.
              not_seen y.seen path p.edges new (kept.accepted_seen p hp)
                (sym (e ∙ ap (λ z. z.edges) (sym here)))
        ];
      }

  -- A candidate that is taken off the heap is accepted.
  pub accept-Kept :
      (accepted : List KPath) (y : Yen) (best : CandidatePath) (rest : List CandidatePath)
      → Kept accepted y
      → Taken no_candidate (λ x. x.edges) candidate_less y.candidates best rest
      → Kept
          (accepted ++ record { edges = best.edges; cost = best.cost } ∷ [])
          (record y { candidates = rest })
  accept-Kept accepted y best rest kept taken = record {
    even = kept.even;
    accepted_route = λ p h. elim (old_or_new p h) [
      | inl old ↦ kept.accepted_route p old
      | inr here ↦ subst (λ z. IsRoute z.edges z.cost) here (kept.candidate_route best taken.member)
    ];
    accepted_seen = λ p h. elim (old_or_new p h) [
      | inl old ↦ kept.accepted_seen p old
      | inr here ↦
          subst (λ z. is_seen y.seen z.edges ≡ true) here (kept.candidate_seen best taken.member)
    ];
    accepted_distinct =
        IsDistinct-append_one no_kpath accepted path (λ p. p.edges) kept.accepted_distinct
          (λ p h. kept.apart p best h taken.member);
    candidate_route = λ x h. kept.candidate_route x (taken.kept x h);
    candidate_seen = λ x h. kept.candidate_seen x (taken.kept x h);
    candidate_distinct = taken.distinct kept.candidate_distinct;
    apart = λ p x hp hx. elim (old_or_new p hp) [
      | inl old ↦ kept.apart p x old (taken.kept x hx)
      | inr here ↦ λ e. gone x hx (sym (ap (λ p. p.edges) here ∙ e))
    ];
  }
    where
      path : KPath
      path = record { edges = best.edges; cost = best.cost }

      old_or_new :
          (p : KPath)
          → Has no_kpath (accepted ++ path ∷ []) p
          → Has no_kpath accepted p ⊎ (path ≡ p)
      old_or_new p h = Has-append_one no_kpath accepted path p h

      gone : (x : CandidatePath) → Has no_candidate rest x → x.edges ≢ best.edges
      gone x (i, hi, e) same = taken.gone kept.candidate_distinct i hi (ap (λ z. z.edges) e ∙ same)
