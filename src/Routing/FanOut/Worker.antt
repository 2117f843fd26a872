-- ===== src/Routing/FanOut/Worker.antt =====
-- A worker serves the requests of its stride and keeps the slots that are filled.
use Prim.Native.String.{String}
use convergent_routing_analy.Prelude.{
  ℕ, zero, suc, ◌+◌, ◌*◌, ◌≤◌, ◌<◌, ◌≡◌, ◌⊎◌, inl, inr, refl, sym, ◌∙◌, ap, subst, true, List, [],
  ◌∷◌, some, none, length, get_or, set, leb, if◌then◌else◌, Bool-cases, length-set, get_or-set,
  arith, ◌==◌, ==_iff, leb→le,
}
use convergent_routing_analy.Float.{Float64, Laws}
use convergent_routing_analy.Graph.{Graph, IsGraph}
use convergent_routing_analy.Routing.Dijkstra.{WeightFunc}
use convergent_routing_analy.Routing.Dijkstra.Walks.{NonNegWeight}
use convergent_routing_analy.Routing.Dijkstra.Correct.{IsConsistent-none}
use convergent_routing_analy.Routing.Requests.{
  Context, at_request, RouteRequest, Route, RouteError, Outcome, done, failed, OdPair, search_route,
}
use convergent_routing_analy.Routing.SinglePass.Served.{
  SnapsToNodes, Serves, Blames, BlamesOne, at_head, at_tail, Explained,
}
use convergent_routing_analy.Routing.SinglePass.Search.{
  Snapped, AllSnapped, no_pair, next_pair, ServesOr, search_route_lem,
}
use convergent_routing_analy.Routing.FanOut as Fan
use convergent_routing_analy.Routing.FanOut.{Work, no_request, no_route, serve, place}
use convergent_routing_analy.Routing.FanOut.Buffer.{Even, scratch_after-Even}

module _ ⦃f : Float64⦄ (g : Graph) (name : String) where
  pub AllSnapped-length :
      (reqs : List RouteRequest) (pairs : List OdPair)
      → AllSnapped g name reqs pairs
      → length reqs ≡ length pairs
  AllSnapped-length [] [] no_pair = refl
  AllSnapped-length [] (p ∷ ps) s = elim s [ ]
  AllSnapped-length (r ∷ rs) [] s = elim s [ ]
  AllSnapped-length (r ∷ rs) (p ∷ ps) (next_pair s rest) = ap suc (AllSnapped-length rs ps rest)

  AllSnapped-at :
      (reqs : List RouteRequest) (pairs : List OdPair) (i : ℕ)
      → AllSnapped g name reqs pairs
      → i < length pairs
      → Snapped g name (get_or reqs i no_request) (get_or pairs i Fan.no_pair)
  AllSnapped-at [] [] i no_pair h = elim h [ ]
  AllSnapped-at [] (p ∷ ps) i s h = elim s [ ]
  AllSnapped-at (r ∷ rs) [] i s h = elim s [ ]
  AllSnapped-at (r ∷ rs) (p ∷ ps) zero (next_pair s rest) h = s
  AllSnapped-at (r ∷ rs) (p ∷ ps) (suc i) (next_pair s rest) h =
      AllSnapped-at rs ps i rest (omega arith)

  BlamesOne-at :
      (weight : WeightFunc) (reqs : List RouteRequest) (i : ℕ) (e : RouteError)
      → i < length reqs
      → Blames g name weight (get_or reqs i no_request) e
      → BlamesOne g name weight reqs e
  BlamesOne-at weight [] i e h b = elim h [ ]
  BlamesOne-at weight (r ∷ rs) zero e h b = at_head b
  BlamesOne-at weight (r ∷ rs) (suc i) e h b = at_tail (BlamesOne-at weight rs i e (omega arith) b)

module _ ⦃f : Float64⦄ (laws : Laws f) (g : Graph) (ok : IsGraph g) (snaps : SnapsToNodes g)
    (name : String) (weight : WeightFunc) (w : NonNegWeight g weight) (ctx : Context) (round : ℕ)
    (pairs : List OdPair) (reqs : List RouteRequest) (all : AllSnapped g name reqs pairs)
    (count : ℕ) (some_count : 1 ≤ count) where
  -- The slot of the request holds a route that serves it.
  abbrev pub Filled : List Route → ℕ → Type 0
  Filled routes i = Serves g name weight (get_or reqs i no_request) (get_or routes i no_route)

  -- From the index on, the worker fills its stride, and a slot that is filled stays so.
  pub record Strode (index : ℕ) (before after : Work) : Type 0 where
    pub size : length after.routes ≡ length before.routes
    pub filled :
        (m : ℕ) → index + m * count < length pairs → Filled after.routes (index + m * count)
    pub keeps : (i : ℕ) → Filled before.routes i → Filled after.routes i

  abbrev pub StrodeOr : ℕ → Work → Outcome Work → Type 0
  StrodeOr index before (done after) = Strode index before after
  StrodeOr index before (failed e) = Explained g name weight ctx reqs e

  abbrev placed : Work → ℕ → Route → Work
  placed = place g name weight ctx round pairs reqs count

  stride :
      (index : ℕ) (before after : Work) (route : Route)
      → index < length before.routes
      → Serves g name weight (get_or reqs index no_request) route
      → Strode (index + count) (placed before index route) after
      → Strode index before after
  unfolding place
  stride index before after route h serves rest = record {
    size = rest.size ∙ length-set before.routes index route;
    filled = λ m lt. fill m lt;
    keeps = λ i there. rest.keeps i (still i (inr there));
  }
    where
      still :
          (i : ℕ) → (index ≡ i) ⊎ Filled before.routes i → Filled (set before.routes index route) i
      still i there = elim (Bool-cases (index == i)) [
        | inl same ↦
            let at : index ≡ i = (==_iff index i).0 same in
            let holds =
              get_or-set before.routes index i route no_route h
              ∙ ap (λ b. if b then route else get_or before.routes i no_route) same in
            subst (Serves g name weight (get_or reqs i no_request)) (sym holds)
              (subst (λ z. Serves g name weight (get_or reqs z no_request) route) at serves)
        | inr other ↦
            let holds =
              get_or-set before.routes index i route no_route h
              ∙ ap (λ b. if b then route else get_or before.routes i no_route) other in
            elim there [
              | inl same ↦ absurd (let e : (index == i) ≡ true = (==_iff index i).1 same in cc)
              | inr filled ↦
                  subst (Serves g name weight (get_or reqs i no_request)) (sym holds) filled
            ]
      ]

      fill : (m : ℕ) → index + m * count < length pairs → Filled after.routes (index + m * count)
      fill zero lt =
          let at : index ≡ index + 0 * count = omega arith in
          subst (Filled after.routes) at (rest.keeps index (still index (inl refl)))
      fill (suc m) lt =
          let at : index + count + m * count ≡ index + suc m * count = omega arith in
          subst (Filled after.routes) at (rest.filled m (omega (arith, at)))

  pub serve_lem :
      (k index : ℕ) (before : Work)
      → Even before.scratch
      → length before.routes ≡ length pairs
      → length pairs ≤ index + k
      → StrodeOr index before (serve g name weight ctx round pairs reqs count k index before)
  unfolding serve place
  serve_lem zero index before even size h = record {
    size = refl;
    filled = λ m lt. absurd (omega arith);
    keeps = λ i there. there;
  }
  serve_lem (suc k) index before even size h = elim (Bool-cases (leb (length pairs) index)) [
    | inl past ↦
        rw (past, serve)
          (record {
            size = refl;
            filled = λ m lt. absurd (
                let p : length pairs ≤ index = leb→le (length pairs) index past in
                omega (arith, p));
            keeps = λ i there. there;
          })
    | inr inside ↦
        let lt : index < length pairs = ground arith in
        elim (Bool-cases (ctx (at_request round index))) [
          | inl stop ↦ rw (inside, stop, serve) (inl (refl, (at_request round index, stop)))
          | inr go ↦
              rw (inside, go, serve)
                (after_search lt
                  (search_route g name (get_or reqs index no_request)
                    (get_or pairs index Fan.no_pair) weight none (some before.scratch))
                  (λ route.
                    serve_lem k (index + count) (placed before index route)
                      (scratch_after-Even g _ _ weight before.scratch even)
                      (length-set before.routes index route ∙ size) (omega arith))
                  (search_route_lem laws g ok snaps name weight w none (some before.scratch) even
                    (λ src. IsConsistent-none laws g ok weight w src) _ _
                    (AllSnapped-at g name reqs pairs index all lt)))
        ]
  ]
    where
      onward :
          (route : Route) (o : Outcome Work)
          → index < length pairs
          → Serves g name weight (get_or reqs index no_request) route
          → StrodeOr (index + count) (placed before index route) o
          → StrodeOr index before o
      onward route (failed e) lt serves p = p
      onward route (done after) lt serves p =
          stride index before after route (omega (arith, size)) serves p

      after_search :
          index < length pairs
          → (o : Outcome Route)
          → ((route : Route)
              → StrodeOr (index + count) (placed before index route) (
                  serve g name weight ctx round pairs reqs count k
                    (index + count)
                    (placed before index route)))
          → ServesOr g name weight (get_or reqs index no_request) o
          → StrodeOr index before (elim o [
            | failed e ↦ failed e
            | done route ↦
                serve g name weight ctx round pairs reqs count k
                  (index + count)
                  (placed before index route)
          ])
      after_search lt (failed e) rest p = inr (
          BlamesOne-at g name weight reqs index e
            (omega (arith, AllSnapped-length g name reqs pairs all)) p)
      after_search lt (done route) rest p = onward route _ lt p (rest route)
