-- ===== src/Lib.antt =====
-- The road-routing engine of the convergent routing analyzer (engine/internal).
--
-- A Graph is an immutable road network in compressed rows; the routers search it with one
-- shortest-path core, under weights that a cost function derives from the load on each edge. A
-- router answers one request, or assigns a batch: it snaps every endpoint to a node, searches per
-- request and adds up the flows. The iterative strategies repeat such passes in one convergence loop.
--
--   Float        Go's float64 as an interface, with the IEEE facts that the proofs use
--   Heap         container/heap, which the search drives through priorityQueue
--   Domain       engine/internal/domain: node, edge and segment ids, coordinates
--   Graph        engine/internal/graph: the Graph port (graph.go); AdjacencyGraph (adjacency.go) in
--                Graph.Adjacency and the great-circle distance (geo.go) in Graph.Geo
--   Graph.Connectivity
--                engine/internal/graph/connectivity.go: the union-find and the warning about a graph
--                that is not connected
--   Cost         engine/internal/cost: BPR and Linear
--   Domain.Keys  engine/internal/domain/segmentid.go, and Direction of domain.go: the wire key of a
--                segment
--   Feed         engine/internal/domain/segment_congestion.go: messages and the keep-latest rule
--   Congestion   engine/internal/congestion: the load store, its writers in memory and simulator
--                (Congestion.Adapters), and the provider from messages in static (Congestion.Static)
--   Routing.Dijkstra
--                engine/internal/routing/dijkstra.go and scratch.go
--   Routing.Requests
--                routing.go and assign.go: requests, results, prefetchOD and the flow vector
--   Routing.SinglePass
--                the batch and single-request bodies that naive.go, astar.go and reactive.go have, over the
--                name, weight and heuristic in which they differ; Routing.Naive and Routing.AStar
--                give those
--   Routing.Convergence
--                iterative.go: the weights from flows, the network totals, runConvergenceLoop
--   Routing.FanOut
--                iterative.go: assignAONConcurrent, its workers and the reduce
--   Routing.Averaging
--                msa.go and systemoptimal.go: one averaging step over the weights and the total in
--                which they differ
--   Routing.Reactive
--                reactive.go, on Routing.SinglePass
--   Routing.Batches, Routing.Incremental
--                incremental.go: batchBounds; the step, which writes the routes of its batch into
--                those that it returned in the round before
--   Routing.Multipath
--                kshortest.go and multipath.go: the masked weights, the split and the draw
--   Routing.Yen  kshortest.go: the k shortest paths
--   Routing.Split
--                multipath.go: AssignMultipath, which spreads the requests of each pair over its k
--                shortest paths, its provenance, and Route
--   Benchmark    engine/internal/benchmark/evaluator.go: realized times and load ratios
--   Api.Frames   engine/internal/api/stream.go: buckets, snapshot and delta frames
--   Api.Replay   the same file: the live buffers and the replay that drains them
--   Api.Params   the same file: the query of a stream; the slots and running streams of
--                handleStream
--   Api.Tuple, Api.Jobs
--                engine/internal/api/benchmark.go: the tuple; the job store and the handler that posts
--   Tests        runs on concrete networks, and a use of each result
--
-- A float64 is an element of a carrier with Go's operations on it. The laws assumed are order facts
-- and monotonicity of + on non-negative numbers, with no associativity and no exactness, so a
-- walk's cost is the sum in the order in which the search adds it. MulLaws adds what the cost
-- functions use of products and quotients, at arguments that are not negative where float64 needs
-- it (Pow(-0, -1) is -Inf), and DivLaws that a quotient is monotone. Tests.Numbers gives a carrier
-- with the laws. The weights of the iterative strategies need to be non-negative only under the
-- flows that their rounds lead to, which Averages (Routing.Averaging.Trace) and Loads
-- (Routing.Incremental.Loads) tell from the passes alone. A heuristic is consistent
-- (Routing.Dijkstra.Walks) if the heap keys g + h are monotone in g, reflect its order and do not
-- fall along an edge. In float64 this holds of no heuristic and of a zero one; a positive heuristic
-- keeps it only where no sum in a key is rounded, so the results speak of Dijkstra, naive and
-- reactive, and of astar.go's great-circle heuristic only under that condition. A Go slice is a
-- List; an int32 or int index is an integer with the guard that the source tests. Ids are below
-- 2^31 in a loaded graph, so no index arithmetic wraps. A time is parsed and printed by a Clock,
-- which stands for Go's time package; fmt's %g and %d are Formats, which print different numbers
-- differently and without |. A context is a function from the moments at which the code asks
-- ctx.Err() to the answer. The number that a request draws from its own seed is an argument, a
-- function of its index.
--
-- Workers of a concurrent pass write to distinct slots of the routes and to shards of their own, so
-- they run one after another, in the order in which they end: a schedule. It decides which error is
-- recorded first, and the results hold for every schedule in which each worker occurs. A worker keeps
-- one scratch buffer, which holds what the search before it left.
--
-- The search loop runs on fuel: two rounds more than the sum of the out-degrees, since a node is
-- expanded once and each of its edges adds at most one entry to the queue. The walk back along the
-- predecessors has node_count + 1 steps. An answer says exhausted if either runs out, which the
-- results exclude. Exponentiation by squaring has as many rounds as the exponent, which halves. A
-- union-find walk has a round more than the sum of the ranks, which grow on its way. A worker has as
-- many rounds as requests, since its index grows. The convergence loop has the source's own hundred
-- rounds. Yen's loop accepts one path per round, so it needs a round for each path asked for.
--
-- Not modelled: NearestEdge, which panics; the k-d tree behind NearestNode, which is an argument;
-- loading, the simulator and sweeps of the benchmark; the rest of
-- the service (HTTP, WebSocket, JSON, logging, metrics), which is input and output.
pub mod Prelude
pub mod Float
pub mod Heap
pub mod Domain
pub mod Feed
pub mod Graph
pub mod Cost
pub mod Congestion
pub mod Routing
pub mod Benchmark
mod Tests
pub mod Api
