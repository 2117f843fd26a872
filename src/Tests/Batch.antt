-- ===== src/Tests/Batch.antt =====
-- Batches on the small network, and the loop, the ranges, the costs and the loads on small inputs.
use convergent_routing_analy.Prelude.{
  ℕ, ◌≡◌, ◌<◌, refl, sym, subst, true, false, pos, negsuc, [], ◌∷◌, some, none, arith, length,
  get_or, ltb, if◌then◌else◌, Bool-cases, inl, inr, some_inj, to_index,
}
use convergent_routing_analy.Float.{NonNeg, le, mul, Le, is_inf, div}
use convergent_routing_analy.Domain.{LatLon, NodeId}
use convergent_routing_analy.Graph.{Edge, Graph}
use convergent_routing_analy.Graph.Geo.{great_circle_m}
use convergent_routing_analy.Cost.{Bpr, bpr_cost, marginal_cost}
use convergent_routing_analy.Cost.Bounds.{IsRoad, IsBpr, free_flow-bpr_cost, bpr_cost-marginal_cost}
use convergent_routing_analy.Congestion.{load}
use convergent_routing_analy.Congestion.Adapters.{set_all, inject, step_n, factor}
use convergent_routing_analy.Congestion.Adapters.Writes.{
  load-set_all, NonNegLoads, inject-NonNegLoads, step_n-NonNegLoads,
}
use convergent_routing_analy.Routing.Dijkstra.Correct.{IsConsistent-none}
use convergent_routing_analy.Routing.Requests.{
  Context, RouteRequest, done, add_route_flow, new_flow_vector,
}
use convergent_routing_analy.Routing.Requests.Flows.{with_uses, get_or-add_route_flow}
use convergent_routing_analy.Routing.SinglePass.Served.{SnapsToNodes, Answers, AnswersOne}
use convergent_routing_analy.Routing.SinglePass.Correct.{assign_result-Answers, route-AnswersOne}
use convergent_routing_analy.Routing.Naive.{naive_assign_result, naive_route}
use convergent_routing_analy.Routing.AStar.{chord, max_free_flow_speed_ms}
use convergent_routing_analy.Routing.AStar.Speed.{chord-max_free_flow_speed_ms}
use convergent_routing_analy.Graph.Adjacency.{as_graph, build}
use convergent_routing_analy.Routing.Convergence.{IterationStep, run_convergence_loop}
use convergent_routing_analy.Routing.Convergence.Ends.{Ends, run_convergence_loop-Ends}
use convergent_routing_analy.Routing.Batches.{batch_bounds}
use convergent_routing_analy.Routing.Batches.Cover.{Covers, batch_bounds-Covers}
use convergent_routing_analy.Tests.Numbers.{
  Number, fin, top, numbers, number_laws, number_mul_laws, le_zero,
}
use convergent_routing_analy.Tests.Roads.{town_graph, town-IsGraph, snap, at_degree, road, crossing}
use convergent_routing_analy.Tests.Search.{by_time-nonneg, by_time}

snap-node : (p : LatLon) (v : NodeId) → snap p ≡ some v → (i : ℕ) × (v ≡ pos i) × (i < 4)
snap-node p v h = by_latitude p.lat h
  where
    by_latitude :
        (a : Number)
        → (elim a [ fin d ↦ (if ltb d 4 then some (pos d) else none) | top ↦ none ]) ≡ some v
        → (i : ℕ) × (v ≡ pos i) × (i < 4)
    by_latitude (fin d) h = elim (Bool-cases (ltb d 4)) [
      | inl near ↦ (d, sym (some_inj (rw near at h)), ground arith)
      | inr far ↦ absurd (let bad : none ≡ some v = rw far at h in cc)
    ]
    by_latitude top h = absurd (cc h)

pub town-SnapsToNodes : SnapsToNodes town_graph
unfolding as_graph build
town-SnapsToNodes = snap-node

abbrev pub never : Context
never c = false

abbrev pub trip : ℕ → ℕ → RouteRequest
trip u v = record {
  id = "trip";
  from = at_degree u;
  to = at_degree v;
  depart_at = fin 0;
  weight = fin 3;
}

assign_result-Answers_example :
    Answers town_graph "naive" by_time never
      (trip 0 2 ∷ trip 2 0 ∷ [])
      (naive_assign_result town_graph never (trip 0 2 ∷ trip 2 0 ∷ []))
assign_result-Answers_example =
    assign_result-Answers number_laws town_graph town-IsGraph town-SnapsToNodes "naive" by_time
      by_time-nonneg (λ dst. none)
      (λ src dst. IsConsistent-none number_laws town_graph town-IsGraph by_time by_time-nonneg src)
      never (trip 0 2 ∷ trip 2 0 ∷ [])

route-AnswersOne_example :
    AnswersOne town_graph "naive" by_time never (trip 0 2) (naive_route town_graph never (trip 0 2))
route-AnswersOne_example =
    route-AnswersOne number_laws town_graph town-IsGraph town-SnapsToNodes "naive" by_time
      by_time-nonneg (λ dst. none)
      (λ src dst. IsConsistent-none number_laws town_graph town-IsGraph by_time by_time-nonneg src)
      never (trip 0 2)

get_or-add_route_flow_example :
    get_or (add_route_flow (fin 1 ∷ fin 0 ∷ []) (pos 0 ∷ pos 7 ∷ pos 0 ∷ []) (fin 3)) 0 (fin 0)
    ≡ with_uses (pos 0 ∷ pos 7 ∷ pos 0 ∷ []) 0 (fin 3) (fin 1)
get_or-add_route_flow_example =
    get_or-add_route_flow (fin 1 ∷ fin 0 ∷ []) (pos 0 ∷ pos 7 ∷ pos 0 ∷ []) (fin 3) 0 (omega arith)

-- A step that is finished in its third round.
abbrev three_rounds : IterationStep
three_rounds k held flow =
    done (record { next = fin k ∷ []; routes = []; gap = fin 1; finished = ltb 2 k })

run_convergence_loop-Ends_example :
    Ends never three_rounds []
      (new_flow_vector town_graph)
      (run_convergence_loop never town_graph three_rounds [])
run_convergence_loop-Ends_example = run_convergence_loop-Ends never three_rounds town_graph []

batch_bounds-Covers_example :
    (length (batch_bounds 10 (pos 4)) ≡ 4) × Covers 2 0 10 (batch_bounds 10 (pos 4))
batch_bounds-Covers_example = batch_bounds-Covers 10 (pos 4)

abbrev pub steep : Bpr
steep = record { alpha = fin 2; beta = fin 4; capacity_scale = fin 1 }

steep-IsBpr : IsBpr steep
steep-IsBpr = record { alpha = (refl, refl); beta = refl; scale = (refl, refl) }

road-IsRoad : IsRoad (road 0 0 2 20)
road-IsRoad = record { free_flow = (refl, refl); capacity = (refl, refl) }

free_flow-bpr_cost_example : Le (fin 20) (bpr_cost steep (road 0 0 2 20) (fin 3000))
free_flow-bpr_cost_example =
    free_flow-bpr_cost number_laws number_mul_laws steep (road 0 0 2 20) (fin 3000) steep-IsBpr
      road-IsRoad (refl, refl)

bpr_cost-marginal_cost_example :
    Le (bpr_cost steep (road 0 0 2 20) (fin 3000)) (marginal_cost steep (road 0 0 2 20) (fin 3000))
bpr_cost-marginal_cost_example =
    bpr_cost-marginal_cost number_laws number_mul_laws steep (road 0 0 2 20) (fin 3000) steep-IsBpr
      refl road-IsRoad (refl, refl)

load-set_all_example :
    load (set_all (fin 5 ∷ []) ((pos 2, fin 8) ∷ (negsuc 0, fin 1) ∷ [])) (pos 2) ≡ fin 8
load-set_all_example = load-set_all ((pos 2, fin 8) ∷ (negsuc 0, fin 1) ∷ []) (fin 5 ∷ []) (pos 2)

all_nonneg : NonNegLoads number_laws number_mul_laws (fin 5 ∷ fin 0 ∷ [])
all_nonneg id = le_zero (load (fin 5 ∷ fin 0 ∷ []) id)

inject-NonNegLoads_example : NonNeg (load (inject (fin 5 ∷ fin 0 ∷ []) (pos 1) (fin 4)) (pos 1))
unfolding load
inject-NonNegLoads_example =
    inject-NonNegLoads number_laws number_mul_laws (fin 5 ∷ fin 0 ∷ []) (pos 1) (fin 4) all_nonneg
      refl (pos 1)

abbrev coin : ℕ → Number
coin n = fin 1

number_refl : (a : Number) → le a a ≡ true
number_refl a = number_laws.le_refl a (le_zero a)

step_n-NonNegLoads_example :
    NonNeg (load ((step_n coin 2 (record { store = fin 5 ∷ fin 0 ∷ []; drawn = 0 })).store) (pos 0))
step_n-NonNegLoads_example =
    step_n-NonNegLoads number_laws number_mul_laws coin
      (λ a n p. number_refl (mul a (factor coin n))) 2
      (record { store = fin 5 ∷ fin 0 ∷ []; drawn = 0 }) all_nonneg (pos 0)

-- A network with a node at every latitude and long roads.
abbrev wide_graph : Graph
wide_graph = record town_graph {
  node = λ id. some (crossing (to_index id));
  edge = λ id. some (road 1 0 200 5);
}

abbrev line : Edge → Number
line e = great_circle_m (at_degree (to_index e.from)) (at_degree (to_index e.to))

line-finite : (e : Edge) → is_inf (line e) ≡ false
unfolding great_circle_m
line-finite e = refl

wide-chords :
    (e : Edge) (c : Number)
    → chord wide_graph e ≡ some c
    → (le (fin 0) c ≡ true) × (is_inf c ≡ false)
unfolding chord as_graph
wide-chords e c h = (le_zero c, subst (λ z. is_inf z ≡ false) (some_inj h) (line-finite e))

chord-max_free_flow_speed_ms_example :
    Le (div (line (road 1 0 200 5)) (fin 5)) (max_free_flow_speed_ms wide_graph)
unfolding chord as_graph build great_circle_m
chord-max_free_flow_speed_ms_example =
    chord-max_free_flow_speed_ms number_laws number_mul_laws wide_graph
      (λ i e p. le_zero e.free_flow_s) wide-chords 1 (road 1 0 200 5) (line (road 1 0 200 5))
      (omega arith) refl refl refl refl
