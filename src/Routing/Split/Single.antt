-- ===== src/Routing/Split/Single.antt =====
-- Route draws one of the k shortest paths for a single request.
use convergent_routing_analy.Prelude.{
  ◌<◌, ◌≡◌, ◌⊎◌, inl, inr, refl, ap, subst, true, sym, ℕ, suc, ℤ, pos, List, [], ◌∷◌, some, length,
  Bool-cases, arith,
}
use convergent_routing_analy.Float.{Float64, Laws, MulLaws, Float}
use convergent_routing_analy.Domain.{NodeId}
use convergent_routing_analy.Graph.{Graph, IsGraph}
use convergent_routing_analy.Routing.Dijkstra.{WeightFunc}
use convergent_routing_analy.Routing.Dijkstra.Walks.{NonNegWeight}
use convergent_routing_analy.Routing.Requests.{
  Context, Check, at_start, RouteRequest, Route, cancelled, Outcome, done, failed, OdPair,
  snap_request,
}
use convergent_routing_analy.Routing.Multipath.{KPath, proportional_split, draw_path}
use convergent_routing_analy.Routing.Multipath.Masked.{draw_path_lt}
use convergent_routing_analy.Routing.SinglePass.Served.{SnapsToNodes, Blames, cut_off}
use convergent_routing_analy.Routing.SinglePass.Search.{Snapped, SnappedOr, snap_request_lem}
use convergent_routing_analy.Routing.Yen.{k_shortest_paths}
use convergent_routing_analy.Routing.Yen.Kept.{AreRoutes}
use convergent_routing_analy.Routing.Yen.Routes.{k_shortest_paths-AreRoutes}
use convergent_routing_analy.Routing.Split.{
  multipath_name, router_k, route_along, draw_route, multipath_route,
}
use convergent_routing_analy.Routing.Split.Slots.{kpaths_lem}
use convergent_routing_analy.Routing.Split.Spread.{length-proportional_split}
use convergent_routing_analy.Routing.Split.Result.{router_k-pos}

module _ ⦃f : Float64⦄ (g : Graph) (weight : WeightFunc) (k : ℤ) (u : Float) where
  -- The route of the request is the one of the k shortest paths between its nearest nodes that u
  -- draws.
  pub record DrawsPath (req : RouteRequest) (route : Route) : Type 0 where
    pub src : NodeId
    pub dst : NodeId
    pub origin : g.nearest_node req.from ≡ some src
    pub destination : g.nearest_node req.to ≡ some dst
    pub choice : ℕ
    pub in_paths : choice < length (k_shortest_paths g src dst k weight)
    pub drawn : choice ≡ draw_path (proportional_split (k_shortest_paths g src dst k weight)) u
    pub along : route ≡ route_along req (k_shortest_paths g src dst k weight) choice
    pub routes : AreRoutes g weight src dst (k_shortest_paths g src dst k weight)

  abbrev pub DrawsPathOr : Context → RouteRequest → Outcome Route → Type 0
  DrawsPathOr ctx req (done route) = DrawsPath req route
  DrawsPathOr ctx req (failed e) =
      ((e ≡ cancelled) × ((c : Check) × (ctx c ≡ true))) ⊎ Blames g multipath_name weight req e

module _ ⦃f : Float64⦄ (laws : Laws f) (m : MulLaws f) (g : Graph) (ok : IsGraph g)
    (snaps : SnapsToNodes g) (weight : WeightFunc) (w : NonNegWeight g weight) where
  module _ (kk : ℕ) (draw : ℕ → Float) (ctx : Context) (req : RouteRequest) where
    abbrev k : ℤ
    k = pos (suc kk)

    draw_route-DrawsPathOr :
        (pair : OdPair) (paths : List KPath)
        → Snapped g multipath_name req pair
        → k_shortest_paths g pair.src pair.dst k weight ≡ paths
        → DrawsPathOr g weight k (draw 0) ctx req (draw_route g weight k draw ctx req pair paths)
    unfolding draw_route
    draw_route-DrawsPathOr pair [] s searched = inr (
        cut_off pair.src pair.dst s.origin s.destination
          (kpaths_lem laws g ok snaps weight w kk req pair s searched))
    draw_route-DrawsPathOr pair (p ∷ ps) s searched =
        let split = proportional_split (p ∷ ps) in
        let size : length split ≡ length (p ∷ ps) = length-proportional_split (p ∷ ps) in
        let lt : draw_path split (draw 0) < length split =
          draw_path_lt split (draw 0) (omega (arith, size)) in
        record {
          src = pair.src;
          dst = pair.dst;
          origin = s.origin;
          destination = s.destination;
          choice = draw_path split (draw 0);
          in_paths =
              subst (λ z. draw_path split (draw 0) < length z) (sym searched)
                (subst (λ n. draw_path split (draw 0) < n) size lt);
          drawn = ap (λ z. draw_path (proportional_split z) (draw 0)) (sym searched);
          along = ap (λ z. route_along req z (draw_path split (draw 0))) (sym searched);
          routes = k_shortest_paths-AreRoutes laws m g ok weight w pair.src pair.dst k;
        }

    multipath_route_lem :
        DrawsPathOr g weight k (draw 0) ctx req (multipath_route g weight k draw ctx req)
    unfolding multipath_route
    multipath_route_lem = elim (Bool-cases (ctx at_start)) [
      | inl stop ↦ rw (stop, multipath_route) (inl (refl, (at_start, stop)))
      | inr go ↦
          rw (go, multipath_route)
            (after_snap (snap_request g multipath_name req)
              (snap_request_lem g multipath_name weight req))
    ]
      where
        after_snap :
            (o : Outcome OdPair)
            → SnappedOr g multipath_name weight req o
            → DrawsPathOr g weight k (draw 0) ctx req (elim o [
              | failed e ↦ failed e
              | done pair ↦
                  draw_route g weight k draw ctx req pair
                    (k_shortest_paths g pair.src pair.dst k weight)
            ])
        after_snap (failed e) p = inr p
        after_snap (done pair) p = draw_route-DrawsPathOr pair _ p refl

  -- Route of the multipath router, with the k configured or the default, under the conditions of
  -- AssignMultipath and whatever the number drawn: the route follows the one that the first number
  -- draws of the k shortest paths between the nearest nodes of the request, which are different and
  -- visit no node twice; or the context was cancelled, or the error says what is true of the
  -- request.
  pub multipath_route-DrawsPathOr :
      (n : ℤ) (draw : ℕ → Float) (ctx : Context) (req : RouteRequest)
      → DrawsPathOr g weight
          (router_k n)
          (draw 0)
          ctx
          req
          (multipath_route g weight (router_k n) draw ctx req)
  multipath_route-DrawsPathOr n draw ctx req =
      let (kk, same) = router_k-pos n in
      subst (λ z. DrawsPathOr g weight z (draw 0) ctx req (multipath_route g weight z draw ctx req))
        (sym same) (multipath_route_lem kk draw ctx req)
