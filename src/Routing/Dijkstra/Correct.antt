-- ===== src/Routing/Dijkstra/Correct.antt =====
-- The shortest-path core returns a least-cost walk, or says that there is none of finite cost.
use convergent_routing_analy.Prelude.{
  ℕ, zero, suc, ◌+◌, ◌<◌, ◌≡◌, ◌≢◌, ◌∙◌, inl, inr, refl, sym, true, false, Bool, pos, List, [], ◌∷◌,
  ◌++◌, some, none, length, get_or, Option, arith, ap, ap₂, subst, Bool-cases, Option-cases,
  if◌then◌else◌, ◌==◌, ==_iff, in_range, in_range-some, in_range-pos, replicate, length-append,
}
use mathlib.Core.List.{reverse, reverse-append, append_assoc, append-nil}
use convergent_routing_analy.Float.{Float64, Laws, Float, of_nat, is_inf}
use convergent_routing_analy.Domain.{NodeId, EdgeId}
use convergent_routing_analy.Graph.{Graph, Edge, IsGraph}
use convergent_routing_analy.Routing.Dijkstra.{
  WeightFunc, HeuristicFunc, no_edge, Search, Scratch, found, unreachable, walk_back, start, loop,
  search_fuel, report, shortest_path, dijkstra, dijkstra_scratch,
}
use convergent_routing_analy.Routing.Dijkstra.Walks.{
  Walk, here, Solves, IsConsistent, NonNegWeight, Traced, root, hop,
}
use convergent_routing_analy.Routing.Dijkstra.Traces.{Traced-Walk, count_settled-le}
use convergent_routing_analy.Routing.Dijkstra.Invariant.{at}
use convergent_routing_analy.Routing.Dijkstra.Frontier.{Walk-nonneg}
use convergent_routing_analy.Routing.Dijkstra.Measure.{open_degree-start}
use convergent_routing_analy.Routing.Dijkstra.Loop.{Final, loop_ends}
use convergent_routing_analy.Routing.Dijkstra.Start.{IsBuffer, blank, start-blank, Inv-blank}

module _ ⦃f : Float64⦄ (g : Graph) (weight : WeightFunc) (src : ℕ) (seen : List Bool)
    (prev : List EdgeId) where
  walk_back-src :
      (fuel : ℕ) (acc : List EdgeId) (cost : Float)
      → walk_back g (pos src) prev (suc fuel) (pos src) acc cost ≡ found (reverse acc) cost
  unfolding walk_back
  walk_back-src fuel acc cost = rw ((==_iff src src).1 refl)

  walk_back-hop :
      (v : ℕ) (e : Edge) (fuel : ℕ) (acc : List EdgeId) (cost : Float)
      → v ≢ src
      → g.edge (get_or prev v no_edge) ≡ some e
      → walk_back g (pos src) prev (suc fuel) (pos v) acc cost
        ≡ walk_back g (pos src) prev fuel e.from (acc ++ get_or prev v no_edge ∷ []) cost
  unfolding walk_back
  walk_back-hop v e fuel acc cost ne ed = elim (Bool-cases (v == src)) [
    | inl same ↦ absurd (ne ((==_iff v src).0 same))
    | inr other ↦ rw (other, ed)
  ]

  -- From the end of a recorded walk the predecessors lead back to the source.
  pub walk_back_lem :
      {v : ℕ} {p : List EdgeId} {c : Float}
      → Traced g weight src seen prev v p c
      → (fuel : ℕ) (acc : List EdgeId) (cost : Float) → length p < fuel
      → walk_back g (pos src) prev fuel (pos v) acc cost ≡ found (p ++ reverse acc) cost
  walk_back_lem root zero acc cost h = elim h [ ]
  walk_back_lem root (suc fuel) acc cost h = walk_back-src fuel acc cost
  walk_back_lem (hop {p} v id e t s ne r ed from to) zero acc cost h = elim h [ ]
  walk_back_lem (hop {p} {c} {u} v id e t s ne r ed from to) (suc fuel) acc cost h =
      walk_back-hop v e fuel acc cost ne (ap g.edge r ∙ ed)
      ∙ ap₂ (λ z i. walk_back g (pos src) prev fuel z (acc ++ i ∷ []) cost) from r
      ∙ walk_back_lem t fuel (acc ++ id ∷ []) cost (omega (arith, length-append p (id ∷ [])))
      ∙ ap (λ z. found z cost)
          (ap (λ z. p ++ z) (reverse-append acc (id ∷ []))
            ∙ sym (append_assoc p (id ∷ []) (reverse acc)))

-- The guards of a query.
module _ ⦃f : Float64⦄ (g : Graph) where
  pub answer-src_out :
      (src dst : NodeId) (weight : WeightFunc) (h : Option HeuristicFunc) (scratch : Option Scratch)
      → in_range src g.node_count ≡ none
      → shortest_path g src dst weight h scratch ≡ unreachable
  unfolding shortest_path
  answer-src_out src dst weight h scratch out = rw (out, shortest_path)

  pub answer-dst_out :
      (src dst : NodeId) (weight : WeightFunc) (h : Option HeuristicFunc) (scratch : Option Scratch)
      → in_range dst g.node_count ≡ none
      → shortest_path g src dst weight h scratch ≡ unreachable
  unfolding shortest_path
  answer-dst_out src dst weight h scratch out = elim (Option-cases (in_range src g.node_count)) [
    | inl none_in ↦ rw (none_in, shortest_path)
    | inr (i, inside) ↦ rw (inside, out, shortest_path)
  ]

module _ ⦃f : Float64⦄ (g : Graph) (weight : WeightFunc) (h : Option HeuristicFunc)
    (scratch : Option Scratch) where
  pub answer-in_range :
      (src dst : ℕ)
      → src < g.node_count
      → dst < g.node_count
      → shortest_path g (pos src) (pos dst) weight h scratch ≡ (
          if src == dst
          then found [] (of_nat 0)
          else report g
              (pos src)
              (pos dst)
              (loop g weight h (pos dst) (search_fuel g) (start g (pos src) h scratch)))
  unfolding shortest_path
  answer-in_range src dst src_in dst_in =
      rw (in_range-pos src g.node_count src_in, in_range-pos dst g.node_count dst_in, shortest_path)

module _ ⦃f : Float64⦄ (laws : Laws f) (g : Graph) (ok : IsGraph g) (weight : WeightFunc)
    (w : NonNegWeight g weight) where
  module _ (h : Option HeuristicFunc) (scratch : Option Scratch) (buffer : IsBuffer scratch) where
    report-Solves :
        (src dst : ℕ) (src_in : src < g.node_count) (dst_in : dst < g.node_count)
        (k : IsConsistent g weight (pos src) h) (t : Search)
        → Final laws g ok weight h src dst src_in dst_in w k t
        → Solves g weight (pos src) (pos dst) (report g (pos src) (pos dst) (some t))
    unfolding report
    report-Solves src dst src_in dst_in k t final = elim (Bool-cases (is_inf (at t dst))) [
      | inl endless ↦
          rw endless (λ q c walk. laws.is_inf_of_le _ _ (final.best q c walk) endless final.nonneg)
      | inr finite ↦ elim final.traced [
        | inl none_yet ↦
            absurd (let e : is_inf (at t dst) ≡ true = ap is_inf none_yet ∙ laws.inf-is_inf in cc)
        | inr (p, trace, n) ↦ rw finite (
            subst (Solves g weight (pos src) (pos dst))
              (sym (
                (walk_back_lem g weight src final.seen t.prev_edge trace (g.node_count + 1) []
                  (at t dst) (omega (arith, count_settled-le g weight final.seen, final.seen_size)))
                ∙ ap (λ z. found z (at t dst)) (append-nil p)))
              (Traced-Walk g weight src final.seen t.prev_edge trace, finite, final.best))
      ]
    ]

    -- On a graph that keeps the port's laws, with non-negative weights, a heuristic that is absent or
    -- consistent, and any scratch buffer whose slices have one length: between two nodes of the
    -- graph shortestPath returns a walk whose cost is the reported one, is finite and is at most
    -- that of every walk, or it says unreachable and no walk has finite cost. The fuel never runs
    -- out.
    pub shortest_path-Solves :
        (src dst : ℕ)
        → src < g.node_count
        → dst < g.node_count
        → IsConsistent g weight (pos src) h
        → Solves g weight (pos src) (pos dst) (shortest_path g (pos src) (pos dst) weight h scratch)
    shortest_path-Solves src dst src_in dst_in k =
        rw (answer-in_range g weight h scratch src dst src_in dst_in)
          (elim (Bool-cases (src == dst)) [
            | inl same ↦
                let e : src ≡ dst = (==_iff src dst).0 same in
                rw same (
                  subst (λ z. Walk g weight (pos src) (pos z) [] (of_nat 0)) e here,
                  laws.zero-is_inf,
                  λ q c walk. Walk-nonneg laws g ok weight w (pos src) walk,
                )
            | inr other ↦
                let (t, ends, final) =
                  loop_ends laws g ok weight h src dst src_in dst_in w k (search_fuel g)
                    (replicate g.node_count false) (blank g weight h src)
                    (Inv-blank g weight h src laws src_in k)
                    (omega (arith, open_degree-start g weight g.node_count g.node_count)) in
                rw other (
                  subst (λ z. Solves g weight (pos src) (pos dst) (report g (pos src) (pos dst) z))
                    (sym (
                      ap (loop g weight h (pos dst) (search_fuel g))
                        (start-blank g weight h src scratch buffer)
                      ∙ ends))
                    (report-Solves src dst src_in dst_in k t final))
          ])

  -- With no heuristic the key of an entry is its cost.
  pub IsConsistent-none : (src : NodeId) → IsConsistent g weight src none
  IsConsistent-none src = record {
    nonneg = λ v a p. p;
    mono = λ v a b p q le. le;
    reflects = λ v a b p q le. le;
    along = λ id e a ed p. laws.le_add _ _ p (w id e ed);
    start_below = laws.zero_le;
    start_above = laws.zero_le;
  }

  -- The same for dijkstraScratch, with a buffer or without, and no heuristic.
  pub dijkstra_scratch-Solves :
      (scratch : Option Scratch) (src dst : ℕ)
      → IsBuffer scratch
      → src < g.node_count
      → dst < g.node_count
      → Solves g weight (pos src) (pos dst) (dijkstra_scratch g (pos src) (pos dst) weight scratch)
  unfolding dijkstra_scratch
  dijkstra_scratch-Solves scratch src dst buffer src_in dst_in =
      shortest_path-Solves none scratch buffer src dst src_in dst_in (IsConsistent-none (pos src))

  -- The same for dijkstra: with the port's laws and non-negative weights, between two nodes it
  -- returns a walk of exactly the reported finite cost, which no walk undercuts, or says
  -- unreachable when no walk has finite cost.
  pub dijkstra-Solves :
      (src dst : ℕ)
      → src < g.node_count
      → dst < g.node_count
      → Solves g weight (pos src) (pos dst) (dijkstra g (pos src) (pos dst) weight)
  unfolding dijkstra
  dijkstra-Solves src dst src_in dst_in =
      shortest_path-Solves none none tt src dst src_in dst_in (IsConsistent-none (pos src))

-- A query with a scratch buffer answers as one that allocates its own slices, whatever an earlier
-- query left in the buffer, for any two ids, in range or not. The buffer's two slices have one
-- length.
pub scratch_irrelevant :
    ⦃f : Float64⦄ (g : Graph) (src dst : NodeId) (weight : WeightFunc) (h : Option HeuristicFunc)
    (b : Scratch)
    → length b.dist ≡ length b.prev_edge
    → shortest_path g src dst weight h (some b) ≡ shortest_path g src dst weight h none
scratch_irrelevant g src dst weight h b size = elim (Option-cases (in_range src g.node_count)) [
  | inl out ↦
      answer-src_out g src dst weight h (some b) out
      ∙ sym (answer-src_out g src dst weight h none out)
  | inr (i, inside) ↦ elim (Option-cases (in_range dst g.node_count)) [
    | inl out ↦
        answer-dst_out g src dst weight h (some b) out
        ∙ sym (answer-dst_out g src dst weight h none out)
    | inr (j, inside') ↦
        let (src_eq, src_in) = in_range-some src g.node_count i inside in
        let (dst_eq, dst_in) = in_range-some dst g.node_count j inside' in
        let same =
          answer-in_range g weight h (some b) i j src_in dst_in
          ∙ ap
              (λ z.
                if i == j
                then found [] (of_nat 0)
                else report g (pos i) (pos j) (loop g weight h (pos j) (search_fuel g) z))
              (start-blank g weight h i (some b) size ∙ sym (start-blank g weight h i none tt))
          ∙ sym (answer-in_range g weight h none i j src_in dst_in) in
        subst (λ z. shortest_path g z dst weight h (some b) ≡ shortest_path g z dst weight h none)
          (sym src_eq)
          (subst
            (λ z.
              shortest_path g (pos i) z weight h (some b) ≡ shortest_path g (pos i) z weight h none)
            (sym dst_eq) same)
  ]
]
