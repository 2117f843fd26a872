-- ===== src/Routing/SinglePass/Served.antt =====
-- What an assignment promises: a least-cost route for each request and the flows that those routes
-- add up to, or an error that names its cause.
use Prim.Native.String.{String}
use convergent_routing_analy.Prelude.{
  ℕ, ◌≡◌, ◌<◌, ◌⊎◌, true, pos, List, [], ◌∷◌, some, none, length, get_or,
}
use convergent_routing_analy.Float.{Float64, Float, of_nat}
use convergent_routing_analy.Domain.{NodeId, LatLon}
use convergent_routing_analy.Graph.{Graph}
use convergent_routing_analy.Routing.Dijkstra.{WeightFunc, found, unreachable}
use convergent_routing_analy.Routing.Dijkstra.Walks.{Solves}
use convergent_routing_analy.Routing.Requests.{
  Context, Check, RouteRequest, Route, AssignResult, RouteError, cancelled, no_origin,
  no_destination, no_path, Outcome, done, failed, request_weight,
}
use convergent_routing_analy.Routing.Requests.Flows.{with_uses}

module _ ⦃f : Float64⦄ (g : Graph) where
  -- NearestNode answers with nodes of the graph.
  abbrev pub SnapsToNodes : Type 0
  SnapsToNodes =
      (p : LatLon) (v : NodeId)
      → g.nearest_node p ≡ some v
      → (i : ℕ) × (v ≡ pos i) × (i < g.node_count)

  -- The load on an edge when each route in turn adds its request's weight for each use.
  abbrev pub usage : List RouteRequest → List Route → ℕ → Float → Float
  usage [] routes e x = x
  usage (req ∷ reqs) [] e x = x
  usage (req ∷ reqs) (route ∷ routes) e x =
      usage reqs routes e (with_uses route.edges e (request_weight req) x)

  module _ (name : String) (weight : WeightFunc) where
    -- The route answers the request: between the nearest nodes of its endpoints, at least cost.
    pub record Serves (req : RouteRequest) (route : Route) : Type 0 where
      pub src : NodeId
      pub dst : NodeId
      pub origin : g.nearest_node req.from ≡ some src
      pub destination : g.nearest_node req.to ≡ some dst
      pub same_id : route.request_id ≡ req.id
      pub best : Solves g weight src dst (found route.edges route.cost_s)

    -- One route per request, in the order of the requests.
    pub data AllServed : List RouteRequest → List Route → Type 0 where
      none_asked : AllServed [] []
      one_more :
          {req : RouteRequest} {reqs : List RouteRequest} {route : Route} {routes : List Route}
          → Serves req route
          → AllServed reqs routes
          → AllServed (req ∷ reqs) (route ∷ routes)

    -- The error is about this request, and is true of it.
    pub data Blames (req : RouteRequest) : RouteError → Type 0 where
      origin_far : g.nearest_node req.from ≡ none → Blames req (no_origin name req.id req.from)
      destination_far :
          g.nearest_node req.to ≡ none → Blames req (no_destination name req.id req.to)
      cut_off :
          (src dst : NodeId)
          → g.nearest_node req.from ≡ some src
          → g.nearest_node req.to ≡ some dst
          → Solves g weight src dst unreachable
          → Blames req (no_path name req.id src dst)

    pub data BlamesOne : List RouteRequest → RouteError → Type 0 where
      at_head :
          {req : RouteRequest} {reqs : List RouteRequest} {e : RouteError}
          → Blames req e
          → BlamesOne (req ∷ reqs) e
      at_tail :
          {req : RouteRequest} {reqs : List RouteRequest} {e : RouteError}
          → BlamesOne reqs e
          → BlamesOne (req ∷ reqs) e

    -- The context was cancelled at some check, or a request has no answer.
    abbrev pub Explained : Context → List RouteRequest → RouteError → Type 0
    Explained ctx reqs e = ((e ≡ cancelled) × ((c : Check) × (ctx c ≡ true))) ⊎ BlamesOne reqs e

    pub record Assigned (reqs : List RouteRequest) (r : AssignResult) : Type 0 where
      pub served : AllServed reqs r.routes
      pub size : length r.final_flows ≡ g.edge_count
      pub load :
          (e : ℕ)
          → e < g.edge_count
          → get_or r.final_flows e (of_nat 0) ≡ usage reqs r.routes e (of_nat 0)

    abbrev pub Answers : Context → List RouteRequest → Outcome AssignResult → Type 0
    Answers ctx reqs (done r) = Assigned reqs r
    Answers ctx reqs (failed e) = Explained ctx reqs e

    abbrev pub AnswersOne : Context → RouteRequest → Outcome Route → Type 0
    AnswersOne ctx req (done route) = Serves req route
    AnswersOne ctx req (failed e) =
        ((e ≡ cancelled) × ((c : Check) × (ctx c ≡ true))) ⊎ Blames req e
