-- ===== src/Routing/SinglePass/Correct.antt =====
-- A single pass over a batch answers it.
use Prim.Native.String.{String}
use convergent_routing_analy.Prelude.{
  ℕ, suc, ◌≡◌, ◌<◌, inl, inr, refl, sym, ◌∙◌, ap, subst, List, [], ◌∷◌, Option, none, length,
  get_or, Bool-cases, length-replicate, get_or-replicate,
}
use convergent_routing_analy.Float.{Float64, Laws, Float, of_nat}
use convergent_routing_analy.Domain.{NodeId}
use convergent_routing_analy.Graph.{Graph, IsGraph}
use convergent_routing_analy.Routing.Dijkstra.{WeightFunc, HeuristicFunc}
use convergent_routing_analy.Routing.Dijkstra.Walks.{NonNegWeight, IsConsistent}
use convergent_routing_analy.Routing.Requests.{
  Context, at_start, at_request, RouteRequest, Route, Outcome, done, failed, request_weight, OdPair,
  snap_request, prefetch_od, new_flow_vector, add_route_flow, search_route,
}
use convergent_routing_analy.Routing.Requests.Flows.{length-add_route_flow, get_or-add_route_flow}
use convergent_routing_analy.Routing.SinglePass.{
  pass, assign_result, route, with_route, single_pass_result,
}
use convergent_routing_analy.Routing.SinglePass.Served.{
  SnapsToNodes, usage, Serves, AllServed, none_asked, one_more, at_head, at_tail, Explained,
  Answers, AnswersOne,
}
use convergent_routing_analy.Routing.SinglePass.Search.{
  AllSnapped, no_pair, next_pair, SnappedOr, AllSnappedOr, ServesOr, snap_request_lem,
  prefetch_od_lem, search_route_lem,
}

module _ ⦃f : Float64⦄ (laws : Laws f) (g : Graph) (ok : IsGraph g) (snaps : SnapsToNodes g)
    (name : String) (weight : WeightFunc) (w : NonNegWeight g weight) where
  module _ (heuristic : NodeId → Option HeuristicFunc)
      (k : (src dst : NodeId) → IsConsistent g weight src (heuristic dst)) where
    -- What a pass over the rest of a batch gives: its routes serve, and the flows are those it began
    -- with and the routes' uses.
    abbrev PassOr :
        Context → List RouteRequest → List Float → Outcome (List Route × List Float) → Type 0
    PassOr ctx reqs flows (failed e) = Explained g name weight ctx reqs e
    PassOr ctx reqs flows (done (routes, final)) =
        AllServed g name weight reqs routes
        × (length final ≡ length flows)
        × ((e : ℕ)
            → e < length flows
            → get_or final e (of_nat 0) ≡ usage g reqs routes e (get_or flows e (of_nat 0)))

    with_route_lem :
        (ctx : Context) (req : RouteRequest) (reqs : List RouteRequest) (r : Route)
        (flows : List Float) (o : Outcome (List Route × List Float))
        → Serves g name weight req r
        → PassOr ctx reqs (add_route_flow flows r.edges (request_weight req)) o
        → PassOr ctx (req ∷ reqs) flows (with_route g name weight heuristic r o)
    unfolding with_route
    with_route_lem ctx req reqs r flows (failed e) serves (inl c) = inl c
    with_route_lem ctx req reqs r flows (failed e) serves (inr b) = inr (at_tail b)
    with_route_lem ctx req reqs r flows (done (routes, final)) serves (all, size, load) =
        let same = length-add_route_flow flows r.edges (request_weight req) in
        (
          one_more serves all,
          size ∙ same,
          λ e h.
              load e (subst (λ n. e < n) (sym same) h)
              ∙ ap (usage g reqs routes e)
                  (get_or-add_route_flow flows r.edges (request_weight req) e h),
        )

    pass_lem :
        (ctx : Context) (i : ℕ) (reqs : List RouteRequest) (pairs : List OdPair)
        (flows : List Float)
        → AllSnapped g name reqs pairs
        → PassOr ctx reqs flows (pass g name weight heuristic ctx i reqs pairs flows)
    unfolding pass
    pass_lem ctx i [] [] flows no_pair = (none_asked, refl, λ e h. refl)
    pass_lem ctx i [] (pair ∷ pairs) flows snapped = elim snapped [ ]
    pass_lem ctx i (req ∷ reqs) [] flows snapped = elim snapped [ ]
    pass_lem ctx i (req ∷ reqs) (pair ∷ pairs) flows (next_pair s rest) =
        elim (Bool-cases (ctx (at_request 1 i))) [
          | inl stop ↦ rw (stop, pass) (inl (refl, (at_request 1 i, stop)))
          | inr go ↦
              rw (go, pass)
                (after_search (search_route g name req pair weight (heuristic pair.dst) none)
                  (λ r.
                    pass_lem ctx (suc i) reqs pairs
                      (add_route_flow flows r.edges (request_weight req)) rest)
                  (search_route_lem laws g ok snaps name weight w (heuristic pair.dst) none tt
                    (λ src. k src pair.dst) req pair s))
        ]
      where
        after_search :
            (o : Outcome Route)
            → ((r : Route)
                → PassOr ctx reqs (add_route_flow flows r.edges (request_weight req)) (
                    pass g name weight heuristic ctx
                      (suc i)
                      reqs
                      pairs
                      (add_route_flow flows r.edges (request_weight req))))
            → ServesOr g name weight req o
            → PassOr ctx (req ∷ reqs) flows (elim o [
              | failed e ↦ failed e
              | done r ↦ with_route g name weight heuristic r (
                  pass g name weight heuristic ctx
                    (suc i)
                    reqs
                    pairs
                    (add_route_flow flows r.edges (request_weight req)))
            ])
        after_search (failed e) onward p = inr (at_head p)
        after_search (done r) onward p = with_route_lem ctx req reqs r flows _ p (onward r)

    single_pass_result_lem :
        (ctx : Context) (reqs : List RouteRequest) (o : Outcome (List Route × List Float))
        → PassOr ctx reqs (new_flow_vector g) o
        → Answers g name weight ctx reqs (single_pass_result g name weight heuristic o)
    unfolding single_pass_result new_flow_vector
    single_pass_result_lem ctx reqs (failed e) p = p
    single_pass_result_lem ctx reqs (done (routes, flows)) (all, size, load) =
        let zeros = length-replicate g.edge_count (of_nat 0) in
        record {
          served = all;
          size = size ∙ zeros;
          load = λ e h.
              load e (subst (λ n. e < n) (sym zeros) h)
              ∙ ap (usage g reqs routes e) (get_or-replicate g.edge_count e (of_nat 0));
        }

    -- AssignResult of a single-pass router, on a graph that keeps the port's laws and whose
    -- NearestNode answers with nodes, with non-negative weights and heuristics that are absent or
    -- consistent: either there is one route per request in order, each between the nearest nodes of
    -- its request at least cost, and each edge carries exactly what the routes' uses of it add up
    -- to; or the error is a cancelled context, or says of a request what is true of it: no node near
    -- an endpoint, or no path of finite cost.
    pub assign_result-Answers :
        (ctx : Context) (reqs : List RouteRequest)
        → Answers g name weight ctx reqs (assign_result g name weight heuristic ctx reqs)
    unfolding assign_result
    assign_result-Answers ctx reqs =
        after_snap (prefetch_od g name reqs) (prefetch_od_lem g name weight reqs)
      where
        after_snap :
            (o : Outcome (List OdPair))
            → AllSnappedOr g name weight reqs o
            → Answers g name weight ctx reqs (elim o [
              | failed e ↦ failed e
              | done pairs ↦
                  single_pass_result g name weight heuristic
                    (pass g name weight heuristic ctx 0 reqs pairs (new_flow_vector g))
            ])
        after_snap (failed e) p = inr p
        after_snap (done pairs) p =
            single_pass_result_lem ctx reqs _ (pass_lem ctx 0 reqs pairs (new_flow_vector g) p)

    -- Route of a single-pass router, under the same conditions: the route serves the request, or the
    -- context was cancelled, or the error says what is true of the request.
    pub route-AnswersOne :
        (ctx : Context) (req : RouteRequest)
        → AnswersOne g name weight ctx req (route g name weight heuristic ctx req)
    unfolding route
    route-AnswersOne ctx req = elim (Bool-cases (ctx at_start)) [
      | inl stop ↦ rw (stop, route) (inl (refl, (at_start, stop)))
      | inr go ↦
          rw (go, route) (after_snap (snap_request g name req) (snap_request_lem g name weight req))
    ]
      where
        of_search :
            (o : Outcome Route) → ServesOr g name weight req o → AnswersOne g name weight ctx req o
        of_search (failed e) p = inr p
        of_search (done r) p = p

        after_snap :
            (o : Outcome OdPair)
            → SnappedOr g name weight req o
            → AnswersOne g name weight ctx req (elim o [
              | failed e ↦ failed e
              | done pair ↦ search_route g name req pair weight (heuristic pair.dst) none
            ])
        after_snap (failed e) p = inr p
        after_snap (done pair) p = of_search _ (
            search_route_lem laws g ok snaps name weight w (heuristic pair.dst) none tt
              (λ src. k src pair.dst) req pair p)
