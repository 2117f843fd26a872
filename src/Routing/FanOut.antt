-- ===== src/Routing/FanOut.antt =====
-- engine/internal/routing/iterative.go: the all-or-nothing pass over a batch by concurrent workers.
-- The workers write to distinct slots, so they run one after another here; the schedule is the order
-- in which they end, which decides whose error is the first.
pub mod Buffer
pub mod Worker
pub mod Correct
use Prim.Native.String.{String}
use convergent_routing_analy.Prelude.{
  ℕ, zero, suc, ◌+◌, Bool, true, false, ℤ, pos, negsuc, List, [], ◌∷◌, Option, none, some, length,
  get_or, set, replicate, ltb, leb, if◌then◌else◌,
}
use convergent_routing_analy.Float.{Float64, Float, of_nat, add, mul}
use convergent_routing_analy.Domain.{NodeId, LatLon}
use convergent_routing_analy.Graph.{Graph}
use convergent_routing_analy.Routing.Dijkstra.{
  WeightFunc, Scratch, new_dijkstra_scratch, scratch_after,
}
use convergent_routing_analy.Routing.Requests.{
  Context, at_request, RouteRequest, Route, RouteError, cancelled, Outcome, done, failed,
  request_weight, OdPair, new_flow_vector, add_route_flow, search_route,
}

-- At most the processors and the requests, at least one.
unfoldable pub workers_for : ℤ → ℕ → ℕ
workers_for procs zero = 1
workers_for (pos zero) (suc n) = 1
workers_for (pos (suc p)) (suc n) = if ltb (suc n) (suc p) then suc n else suc p
workers_for (negsuc p) (suc n) = 1

module _ ⦃f : Float64⦄ where
  -- A shard added to the sum, its missing tail as zeros, and what is past the sum's end ignored.
  pub add_shard : List Float → List Float → List Float
  add_shard [] shard = []
  add_shard (x ∷ xs) [] = x ∷ xs
  add_shard (x ∷ xs) (y ∷ ys) = add x y ∷ add_shard xs ys

  pub add_shards : List Float → List (List Float) → List Float
  add_shards sum [] = sum
  add_shards sum (shard ∷ shards) = add_shards (add_shard sum shard) shards

  pub combine_flows : ℕ → List (List Float) → List Float
  combine_flows n shards = add_shards (replicate n (of_nat 0)) shards

  pub record AssignOutcome : Type 0 where
    pub routes : List Route
    pub flows : List Float
    pub total_sp : Float

  -- A worker's own state, and the shared routes, of which it writes its own slots.
  pub record Work : Type 0 where
    pub scratch : Scratch
    pub shard : List Float
    pub total : Float
    pub routes : List Route

  abbrev pub no_pair : OdPair
  no_pair = record { src = negsuc 0; dst = negsuc 0 }

  abbrev pub no_place : LatLon
  no_place = record { lat = of_nat 0; lon = of_nat 0 }

  abbrev pub no_request : RouteRequest
  no_request = record {
    id = "";
    from = no_place;
    to = no_place;
    depart_at = of_nat 0;
    weight = of_nat 0;
  }

  -- Go's zero Route.
  abbrev pub no_route : Route
  no_route = record { request_id = ""; edges = []; cost_s = of_nat 0 }

  -- What the workers share: the routes, the shards and totals by worker, and the first error.
  pub record Shared : Type 0 where
    pub routes : List Route
    pub shards : List (List Float)
    pub totals : List Float
    pub first_err : Option RouteError

  -- The first error stays.
  abbrev pub set_err : Option RouteError → RouteError → Option RouteError
  set_err none e = some e
  set_err (some first) e = some first

  unfoldable pub join : ℕ → Shared → Outcome Work → Shared
  join worker s (failed e) = record s { first_err = set_err s.first_err e }
  join worker s (done w) = record {
    routes = w.routes;
    shards = set s.shards worker w.shard;
    totals = set s.totals worker w.total;
    first_err = s.first_err;
  }

  pub sum_totals : Float → List Float → Float
  sum_totals total [] = total
  sum_totals total (t ∷ ts) = sum_totals (add total t) ts

  unfoldable pub reduce : Graph → Shared → Outcome AssignOutcome
  reduce g s = elim s.first_err [
    | some e ↦ failed e
    | none ↦ done (record {
      routes = s.routes;
      flows = combine_flows g.edge_count s.shards;
      total_sp = sum_totals (of_nat 0) s.totals;
    })
  ]

  abbrev pub no_work : ℕ → ℕ → Shared
  no_work n count = record {
    routes = replicate n no_route;
    shards = replicate count [];
    totals = replicate count (of_nat 0);
    first_err = none;
  }

  module _ (g : Graph) (name : String) (weight : WeightFunc) (ctx : Context) (round : ℕ)
      (pairs : List OdPair) (reqs : List RouteRequest) (count : ℕ) where
    -- The worker's state with a route at the index.
    unfoldable pub place : Work → ℕ → Route → Work
    place w index route =
        let pair = get_or pairs index no_pair in
        let share = request_weight (get_or reqs index no_request) in
        record {
          scratch = scratch_after g pair.src pair.dst weight w.scratch;
          shard = add_route_flow w.shard route.edges share;
          total = add w.total (mul share route.cost_s);
          routes = set w.routes index route;
        }

    -- The requests index, index + count, …; each round of fuel passes one of them.
    unfoldable pub serve : ℕ → ℕ → Work → Outcome Work
    unfolding place
    serve zero index w = done w
    serve (suc k) index w =
        if leb (length pairs) index
        then done w
        else if ctx (at_request round index)
        then failed cancelled
        else elim (search_route g name (get_or reqs index no_request) (get_or pairs index no_pair)
            weight none (some w.scratch)) [
              | failed e ↦ failed e
              | done route ↦ serve k (index + count) (place w index route)
            ]

    abbrev pub fresh : List Route → Work
    fresh routes = record {
      scratch = new_dijkstra_scratch (pos g.node_count);
      shard = new_flow_vector g;
      total = of_nat 0;
      routes = routes;
    }

    unfoldable pub run_workers : List ℕ → Shared → Shared
    unfolding join serve
    run_workers [] s = s
    run_workers (worker ∷ order) s =
        run_workers order (join worker s (serve (length pairs) worker (fresh s.routes)))

  -- assignAONConcurrent, for GOMAXPROCS and a schedule of the workers.
  unfoldable pub assign_aon :
      Graph
      → String
      → WeightFunc
      → Context
      → ℕ
      → ℤ
      → List ℕ
      → List OdPair
      → List RouteRequest
      → Outcome AssignOutcome
  unfolding run_workers reduce
  assign_aon g name weight ctx round procs order pairs reqs =
      let count = workers_for procs (length pairs) in
      reduce g
        (run_workers g name weight ctx round pairs reqs count order (no_work (length pairs) count))
