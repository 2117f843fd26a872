-- ===== src/Tests/Rounds.antt =====
-- Concurrent passes and averaging on the small network.
use convergent_routing_analy.Prelude.{ℕ, zero, suc, ◌<◌, refl, pos, List, [], ◌∷◌, arith}
use convergent_routing_analy.Graph.Adjacency.{as_graph, build}
use convergent_routing_analy.Heap.Order.{Has}
use convergent_routing_analy.Routing.Requests.{OdPair}
use convergent_routing_analy.Routing.SinglePass.Search.{AllSnapped, no_pair, next_pair}
use convergent_routing_analy.Routing.FanOut.{assign_aon, workers_for}
use convergent_routing_analy.Routing.FanOut.Correct.{AonAnswers, assign_aon-AonAnswers}
use convergent_routing_analy.Routing.Averaging.{averaging_result, msa}
use convergent_routing_analy.Routing.Averaging.Correct.{
  AveragingAnswers, averaging_result-AveragingAnswers,
}
use convergent_routing_analy.Routing.Convergence.{weight_from_flows}
use convergent_routing_analy.Routing.Incremental.{incremental_result}
use convergent_routing_analy.Routing.Incremental.Correct.{
  IncrementalAnswers, incremental_result-IncrementalAnswers,
}
use convergent_routing_analy.Tests.Numbers.{numbers, number_laws, le_zero}
use convergent_routing_analy.Tests.Roads.{town_graph, town-IsGraph}
use convergent_routing_analy.Tests.Search.{by_time, by_time-nonneg}
use convergent_routing_analy.Tests.Batch.{trip, never, town-SnapsToNodes, steep}

abbrev pair_of : ℕ → ℕ → OdPair
pair_of u v = record { src = pos u; dst = pos v }

abbrev two_pairs : List OdPair
two_pairs = pair_of 0 2 ∷ pair_of 2 0 ∷ []

two_pairs-AllSnapped : AllSnapped town_graph "msa" (trip 0 2 ∷ trip 2 0 ∷ []) two_pairs
unfolding as_graph build
two_pairs-AllSnapped =
    next_pair {req = trip 0 2} {pair = pair_of 0 2} (record { origin = refl; destination = refl })
      (next_pair {req = trip 2 0} {pair = pair_of 2 0}
        (record { origin = refl; destination = refl }) no_pair)

-- The second worker ends first.
abbrev backwards : List ℕ
backwards = 1 ∷ 0 ∷ []

backwards-complete : (worker : ℕ) → worker < workers_for (pos 2) 2 → Has 0 backwards worker
unfolding workers_for
backwards-complete zero h = (1, omega arith, refl)
backwards-complete (suc zero) h = (0, omega arith, refl)
backwards-complete (suc (suc n)) h = absurd (omega arith)

assign_aon-AonAnswers_example :
    AonAnswers number_laws town_graph town-IsGraph town-SnapsToNodes "msa" by_time by_time-nonneg
      never 1 two_pairs
      (trip 0 2 ∷ trip 2 0 ∷ [])
      two_pairs-AllSnapped
      (assign_aon town_graph "msa" by_time never 1
        (pos 2)
        backwards
        two_pairs
        (trip 0 2 ∷ trip 2 0 ∷ []))
assign_aon-AonAnswers_example =
    assign_aon-AonAnswers number_laws town_graph town-IsGraph town-SnapsToNodes "msa" by_time
      by_time-nonneg never 1 two_pairs (trip 0 2 ∷ trip 2 0 ∷ []) two_pairs-AllSnapped (pos 2)
      backwards backwards-complete

averaging_result-AveragingAnswers_example :
    AveragingAnswers number_laws town_graph town-IsGraph town-SnapsToNodes
      (msa town_graph steep)
      never
      (pos 2)
      (λ k. backwards)
      (trip 0 2 ∷ trip 2 0 ∷ [])
      (λ k. backwards-complete)
      (λ pairs k x all before id e p. le_zero ((msa town_graph steep).weight x e))
      (averaging_result town_graph
        (msa town_graph steep)
        never
        (pos 2)
        (λ k. backwards)
        (trip 0 2 ∷ trip 2 0 ∷ []))
averaging_result-AveragingAnswers_example =
    averaging_result-AveragingAnswers number_laws town_graph town-IsGraph town-SnapsToNodes
      (msa town_graph steep) never (pos 2) (λ k. backwards) (trip 0 2 ∷ trip 2 0 ∷ [])
      (λ k. backwards-complete)
      (λ pairs k x all before id e p. le_zero ((msa town_graph steep).weight x e))

incremental_result-IncrementalAnswers_example :
    IncrementalAnswers number_laws town_graph town-IsGraph town-SnapsToNodes steep never
      (pos 2)
      (λ k. backwards)
      (trip 0 2 ∷ trip 2 0 ∷ [])
      (λ k. backwards-complete)
      (λ pairs k x all loads id e p. le_zero (weight_from_flows steep x e))
      refl
      (incremental_result town_graph steep never
        (pos 2)
        (λ k. backwards)
        (trip 0 2 ∷ trip 2 0 ∷ []))
incremental_result-IncrementalAnswers_example =
    incremental_result-IncrementalAnswers number_laws town_graph town-IsGraph town-SnapsToNodes
      steep never (pos 2) (λ k. backwards) (trip 0 2 ∷ trip 2 0 ∷ []) (λ k. backwards-complete)
      (λ pairs k x all loads id e p. le_zero (weight_from_flows steep x e)) refl
