-- ===== src/Routing/SinglePass/Search.antt =====
-- Snapping the endpoints of a request and searching between them serves it or blames it.
use Prim.Native.String.{String}
use convergent_routing_analy.Prelude.{
  ◌≡◌, inl, inr, refl, sym, subst, pos, List, [], ◌∷◌, Option, some, Option-cases,
}
use convergent_routing_analy.Float.{Float64, Laws}
use convergent_routing_analy.Domain.{NodeId}
use convergent_routing_analy.Graph.{Graph, IsGraph}
use convergent_routing_analy.Routing.Dijkstra.{
  WeightFunc, HeuristicFunc, Scratch, Answer, found, unreachable, exhausted, shortest_path,
}
use convergent_routing_analy.Routing.Dijkstra.Walks.{Solves, NonNegWeight, IsConsistent}
use convergent_routing_analy.Routing.Dijkstra.Start.{IsBuffer}
use convergent_routing_analy.Routing.Dijkstra.Correct.{shortest_path-Solves}
use convergent_routing_analy.Routing.Requests.{
  RouteRequest, Route, Outcome, done, failed, OdPair, snap_request, prefetch_od, search_route,
  cons_done, to_route,
}
use convergent_routing_analy.Routing.SinglePass.Served.{
  SnapsToNodes, Serves, Blames, origin_far, destination_far, cut_off, BlamesOne, at_head, at_tail,
}

module _ ⦃f : Float64⦄ (g : Graph) (name : String) where
  -- The pair is what NearestNode answers for the request.
  pub record Snapped (req : RouteRequest) (pair : OdPair) : Type 0 where
    pub origin : g.nearest_node req.from ≡ some pair.src
    pub destination : g.nearest_node req.to ≡ some pair.dst

  pub data AllSnapped : List RouteRequest → List OdPair → Type 0 where
    no_pair : AllSnapped [] []
    next_pair :
        {req : RouteRequest} {reqs : List RouteRequest} {pair : OdPair} {pairs : List OdPair}
        → Snapped req pair
        → AllSnapped reqs pairs
        → AllSnapped (req ∷ reqs) (pair ∷ pairs)

  module _ (weight : WeightFunc) where
    abbrev pub SnappedOr : RouteRequest → Outcome OdPair → Type 0
    SnappedOr req (done pair) = Snapped req pair
    SnappedOr req (failed e) = Blames g name weight req e

    abbrev pub AllSnappedOr : List RouteRequest → Outcome (List OdPair) → Type 0
    AllSnappedOr reqs (done pairs) = AllSnapped reqs pairs
    AllSnappedOr reqs (failed e) = BlamesOne g name weight reqs e

    pub snap_request_lem : (req : RouteRequest) → SnappedOr req (snap_request g name req)
    unfolding snap_request
    snap_request_lem req = elim (Option-cases (g.nearest_node req.from)) [
      | inl far ↦ rw (far, snap_request) (origin_far far)
      | inr (src, near) ↦ elim (Option-cases (g.nearest_node req.to)) [
        | inl far ↦ rw (near, far, snap_request) (destination_far far)
        | inr (dst, near') ↦
            rw (near, near', snap_request) (record { origin = near; destination = near' })
      ]
    ]

    cons_done_lem :
        (req : RouteRequest) (reqs : List RouteRequest) (o : Outcome OdPair)
        (rest : Outcome (List OdPair))
        → SnappedOr req o
        → AllSnappedOr reqs rest
        → AllSnappedOr (req ∷ reqs) (cons_done o rest)
    unfolding cons_done
    cons_done_lem req reqs (failed e) rest p q = at_head p
    cons_done_lem req reqs (done pair) (failed e) p q = at_tail q
    cons_done_lem req reqs (done pair) (done pairs) p q = next_pair p q

    -- Every endpoint has a node, or the first request without one is blamed.
    pub prefetch_od_lem : (reqs : List RouteRequest) → AllSnappedOr reqs (prefetch_od g name reqs)
    unfolding prefetch_od
    prefetch_od_lem [] = no_pair
    prefetch_od_lem (req ∷ reqs) =
        cons_done_lem req reqs _ _ (snap_request_lem req) (prefetch_od_lem reqs)

    abbrev pub ServesOr : RouteRequest → Outcome Route → Type 0
    ServesOr req (done r) = Serves g name weight req r
    ServesOr req (failed e) = Blames g name weight req e

    pub to_route_lem :
        (req : RouteRequest) (pair : OdPair) (a : Answer)
        → Snapped req pair
        → Solves g weight pair.src pair.dst a
        → ServesOr req (to_route name req pair a)
    unfolding to_route
    to_route_lem req pair (found p c) s best = record {
      src = pair.src;
      dst = pair.dst;
      origin = s.origin;
      destination = s.destination;
      same_id = refl;
      best = best;
    }
    to_route_lem req pair unreachable s best = cut_off pair.src pair.dst s.origin s.destination best
    to_route_lem req pair exhausted s best = elim best [ ]

module _ ⦃f : Float64⦄ (laws : Laws f) (g : Graph) (ok : IsGraph g) (snaps : SnapsToNodes g)
    (name : String) (weight : WeightFunc) (w : NonNegWeight g weight) where
  -- Between snapped endpoints the search serves the request or blames it for having no path.
  pub search_route_lem :
      (h : Option HeuristicFunc) (scratch : Option Scratch)
      → IsBuffer scratch
      → ((src : NodeId) → IsConsistent g weight src h)
      → (req : RouteRequest) (pair : OdPair) → Snapped g name req pair
      → ServesOr g name weight req (search_route g name req pair weight h scratch)
  unfolding search_route
  search_route_lem h scratch buffer k req pair snapped =
      let (i, src, src_in) = snaps _ _ snapped.origin in
      let (j, dst, dst_in) = snaps _ _ snapped.destination in
      let solves =
        shortest_path-Solves laws g ok weight w h scratch buffer i j src_in dst_in (k (pos i)) in
      to_route_lem g name weight req pair _ snapped (
        subst (λ z. Solves g weight z pair.dst (shortest_path g z pair.dst weight h scratch))
          (sym src)
          (subst (λ z. Solves g weight (pos i) z (shortest_path g (pos i) z weight h scratch))
            (sym dst) solves))
