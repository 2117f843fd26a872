-- ===== src/Routing/Yen/Loopless.antt =====
-- A path that a search finds visits no node twice, since each node has one predecessor.
use convergent_routing_analy.Prelude.{
  ℕ, ◌+◌, ◌<◌, ◌≡◌, ◌≢◌, inl, inr, refl, sym, ◌∙◌, ap, subst, some_inj, Bool, true, false, ℤ, pos,
  List, [], ◌∷◌, ◌++◌, Option, some, none, length, get_or, map, arith, length-append, Bool-cases,
  ◌==◌, replicate, Apart, NoRepeat, Apart-none, Apart-append, append-Apart, NoRepeat-append,
  map-append, pos_inj, eqb_ℤ, eqb_ℤ_iff, ◌||◌,
}
use mathlib.Core.List.{append-nil, append_assoc}
use convergent_routing_analy.Float.{Float64, Laws, MulLaws, Float, of_nat, is_inf, add}
use convergent_routing_analy.Domain.{NodeId, EdgeId}
use convergent_routing_analy.Graph.{Graph, Edge, IsGraph}
use convergent_routing_analy.Routing.Dijkstra.{
  WeightFunc, HeuristicFunc, Scratch, Search, Answer, found, unreachable, exhausted, no_edge,
  report, loop, search_fuel, shortest_path, dijkstra_scratch,
}
use convergent_routing_analy.Routing.Dijkstra.Walks.{NonNegWeight, IsConsistent, Traced, root, hop}
use convergent_routing_analy.Routing.Dijkstra.Traces.{count_settled-le}
use convergent_routing_analy.Routing.Dijkstra.Invariant.{at}
use convergent_routing_analy.Routing.Dijkstra.Measure.{open_degree-start}
use convergent_routing_analy.Routing.Dijkstra.Loop.{Final, loop_ends}
use convergent_routing_analy.Routing.Dijkstra.Start.{IsBuffer, blank, start-blank, Inv-blank}
use convergent_routing_analy.Routing.Dijkstra.Correct.{
  walk_back_lem, answer-in_range, IsConsistent-none,
}
use convergent_routing_analy.Routing.Multipath.{is_masked}
use convergent_routing_analy.Routing.Multipath.Masked.{Avoids, nothing, more}
use convergent_routing_analy.Routing.Yen.{edge_from}

module _ ⦃f : Float64⦄ (g : Graph) where
  -- The nodes that a path to v visits, in order.
  abbrev pub visited : List EdgeId → NodeId → List NodeId
  visited p v = map (edge_from g) p ++ v ∷ []

  pub edge_from-edge : (id : EdgeId) (e : Edge) → g.edge id ≡ some e → edge_from g id ≡ e.from
  unfolding edge_from
  edge_from-edge id e ed = rw (ed, edge_from) refl

  pub visited-append_one :
      (p : List EdgeId) (id : EdgeId) (e : Edge) (v : NodeId)
      → g.edge id ≡ some e
      → visited (p ++ id ∷ []) v ≡ visited p e.from ++ v ∷ []
  visited-append_one p id e v ed =
      ap (λ z. z ++ v ∷ [])
        (map-append (edge_from g) p (id ∷ [])
          ∙ ap (λ z. map (edge_from g) p ++ z ∷ []) (edge_from-edge id e ed))

  module _ (weight : WeightFunc) (src : ℕ) (seen : List Bool) (prev : List EdgeId) where
    -- The predecessors record one walk for each node.
    length-Traced :
        {v v' : ℕ} {p p' : List EdgeId} {c c' : Float}
        → Traced g weight src seen prev v p c
        → Traced g weight src seen prev v' p' c'
        → v ≡ v'
        → length p ≡ length p'
    length-Traced root root e = refl
    length-Traced root (hop v id edge t s ne r ed from to) e = absurd (ne (sym e))
    length-Traced (hop v id edge t s ne r ed from to) root e = absurd (ne e)
    length-Traced (hop {p = p} {u = u} v id edge t s ne r ed from to)
          (hop {p = p'} {u = u'} v' id' edge' t' s' ne' r' ed' from' to') e =
        let same_id : id ≡ id' = sym r ∙ ap (λ z. get_or prev z no_edge) e ∙ r' in
        let same_edge : edge ≡ edge' = some_inj (sym ed ∙ ap g.edge same_id ∙ ed') in
        let same_from : u ≡ u' = pos_inj (sym from ∙ ap (λ z. z.from) same_edge ∙ from') in
        omega (
          arith,
          length-append p (id ∷ []),
          length-append p' (id' ∷ []),
          length-Traced t t' same_from,
        )

    -- A node whose walk is longer is not on the walk.
    Traced-Apart :
        {u : ℕ} {p : List EdgeId} {c : Float} (v : ℕ)
        → Traced g weight src seen prev u p c
        → ((p' : List EdgeId) (c' : Float)
            → Traced g weight src seen prev v p' c'
            → length p < length p')
        → Apart (visited p (pos u)) (pos v ∷ [])
    Traced-Apart v root longer = (
      (
        (λ e.
            let same : src ≡ v = pos_inj e in
            let less : 0 < 0 =
              longer [] (of_nat 0)
                (subst (λ z. Traced g weight src seen prev z [] (of_nat 0)) same root) in
            omega (arith, less)),
        tt,
      ),
      tt,
    )
    Traced-Apart v (hop {p = p} {c = c} {u = u} x id e t s ne r ed from to) longer =
        subst (λ z. Apart z (pos v ∷ []))
          (sym (visited-append_one p id e (pos x) ed ∙ ap (λ z. visited p z ++ pos x ∷ []) from))
          (append-Apart (visited p (pos u)) (pos x ∷ []) (pos v ∷ [])
            (Traced-Apart v t
              (λ p' c' t'. omega (arith, length-append p (id ∷ []), longer p' c' t')))
            (
              (
                (λ e'.
                    let same : x ≡ v = pos_inj e' in
                    let less : length (p ++ id ∷ []) < length (p ++ id ∷ []) =
                      longer (p ++ id ∷ []) (add c (weight e)) (
                        subst
                          (λ z. Traced g weight src seen prev z (p ++ id ∷ []) (add c (weight e)))
                          same (hop x id e t s ne r ed from to)) in
                    omega (arith, less)),
                tt,
              ),
              tt,
            ))

    pub Traced-NoRepeat :
        {v : ℕ} {p : List EdgeId} {c : Float}
        → Traced g weight src seen prev v p c
        → NoRepeat (visited p (pos v))
    Traced-NoRepeat root = (tt, tt)
    Traced-NoRepeat (hop {p = p} {c = c} {u = u} v id e t s ne r ed from to) =
        subst NoRepeat
          (sym (visited-append_one p id e (pos v) ed ∙ ap (λ z. visited p z ++ pos v ∷ []) from))
          (NoRepeat-append (visited p (pos u)) (pos v ∷ []) (Traced-NoRepeat t) (tt, tt)
            (Traced-Apart v t (λ p' c' t'. omega (
              arith,
              length-append p (id ∷ []),
              length-Traced (hop v id e t s ne r ed from to) t' refl,
            ))))

  -- A found path visits no node twice.
  abbrev pub IsLoopless : NodeId → Answer → Type 0
  IsLoopless dst (found p c) = NoRepeat (visited p dst)
  IsLoopless dst unreachable = Unit
  IsLoopless dst exhausted = Unit

  -- A path after a root that it does not touch.
  pub NoRepeat-join :
      (v : NodeId) (r q : List EdgeId)
      → NoRepeat (map (edge_from g) r)
      → Apart (map (edge_from g) r) (v ∷ [])
      → Apart (map (edge_from g) r) (map (edge_from g) q)
      → NoRepeat (visited q v)
      → NoRepeat (visited (r ++ q) v)
  NoRepeat-join v r q front apart_end apart_path rest =
      let fr = map (edge_from g) r in
      let fq = map (edge_from g) q in
      subst NoRepeat
        (sym (ap (λ z. z ++ v ∷ []) (map-append (edge_from g) r q) ∙ append_assoc fr fq (v ∷ [])))
        (NoRepeat-append fr (visited q v) front rest
          (Apart-append fr fq (v ∷ []) apart_path apart_end))

eqb_ℤ-false : (a b : ℤ) → eqb_ℤ a b ≡ false → a ≢ b
eqb_ℤ-false a b h e = let clash : true ≡ false = sym ((eqb_ℤ_iff a b).1 e) ∙ h in cc clash

or_false : (a b : Bool) → (a || b) ≡ false → (a ≡ false) × (b ≡ false)
or_false true b h = absurd (cc h)
or_false false b h = (refl, h)

pub is_masked-Apart :
    (nodes : List NodeId) (x : NodeId) → is_masked nodes x ≡ false → Apart nodes (x ∷ [])
unfolding is_masked
is_masked-Apart [] x h = tt
is_masked-Apart (n ∷ nodes) x h =
    let (first, rest) = or_false (eqb_ℤ n x) (is_masked nodes x) h in
    ((eqb_ℤ-false n x first, tt), is_masked-Apart nodes x rest)

-- A path that avoids a mask of nodes leaves none of them.
pub Avoids-Apart :
    ⦃f : Float64⦄ (laws : Laws f) (m : MulLaws f) (g : Graph) (ok : IsGraph g) (base : WeightFunc)
    (w : NonNegWeight g base) (edges : List EdgeId) (nodes : List NodeId) (p : List EdgeId)
    → Avoids laws m g ok base w edges nodes p
    → Apart nodes (map (edge_from g) p)
Avoids-Apart laws m g ok base w edges nodes [] nothing = Apart-none nodes
Avoids-Apart laws m g ok base w edges nodes p (more {p = q} id e avoids ed free) =
    subst (Apart nodes)
      (sym (
        map-append (edge_from g) q (id ∷ [])
        ∙ ap (λ z. map (edge_from g) q ++ z ∷ []) (edge_from-edge g id e ed)))
      (Apart-append nodes (map (edge_from g) q) (e.from ∷ [])
        (Avoids-Apart laws m g ok base w edges nodes q avoids)
        (is_masked-Apart nodes e.from
          ((or_false (is_masked edges e.id) (is_masked nodes e.from) free).1)))

module _ ⦃f : Float64⦄ (laws : Laws f) (g : Graph) (ok : IsGraph g) (weight : WeightFunc)
    (w : NonNegWeight g weight) (h : Option HeuristicFunc) (scratch : Option Scratch)
    (buffer : IsBuffer scratch) (src dst : ℕ) (src_in : src < g.node_count)
    (dst_in : dst < g.node_count) (k : IsConsistent g weight (pos src) h) where
  report-IsLoopless :
      (t : Search)
      → Final laws g ok weight h src dst src_in dst_in w k t
      → IsLoopless g (pos dst) (report g (pos src) (pos dst) (some t))
  unfolding report
  report-IsLoopless t final = elim (Bool-cases (is_inf (at t dst))) [
    | inl endless ↦ rw endless tt
    | inr finite ↦ elim final.traced [
      | inl none_yet ↦
          absurd (let e : is_inf (at t dst) ≡ true = ap is_inf none_yet ∙ laws.inf-is_inf in cc)
      | inr (p, trace, n) ↦ rw finite (
          subst (IsLoopless g (pos dst))
            (sym (
              walk_back_lem g weight src final.seen t.prev_edge trace (g.node_count + 1) []
                (at t dst) (omega (arith, count_settled-le g weight final.seen, final.seen_size))
              ∙ ap (λ z. found z (at t dst)) (append-nil p)))
            (Traced-NoRepeat g weight src final.seen t.prev_edge trace))
    ]
  ]

  pub shortest_path-IsLoopless :
      IsLoopless g (pos dst) (shortest_path g (pos src) (pos dst) weight h scratch)
  shortest_path-IsLoopless =
      rw (answer-in_range g weight h scratch src dst src_in dst_in)
        (elim (Bool-cases (src == dst)) [
          | inl same ↦ rw same (tt, tt)
          | inr other ↦
              let (t, ends, final) =
                loop_ends laws g ok weight h src dst src_in dst_in w k (search_fuel g)
                  (replicate g.node_count false) (blank g weight h src)
                  (Inv-blank g weight h src laws src_in k)
                  (omega (arith, open_degree-start g weight g.node_count g.node_count)) in
              rw other (
                subst (λ z. IsLoopless g (pos dst) (report g (pos src) (pos dst) z))
                  (sym (
                    ap (loop g weight h (pos dst) (search_fuel g))
                      (start-blank g weight h src scratch buffer)
                    ∙ ends))
                  (report-IsLoopless t final))
        ])

-- So for dijkstraScratch.
pub dijkstra_scratch-IsLoopless :
    ⦃f : Float64⦄ (laws : Laws f) (g : Graph) (ok : IsGraph g) (weight : WeightFunc)
    (w : NonNegWeight g weight) (scratch : Option Scratch)
    → IsBuffer scratch
    → (src dst : ℕ) → src < g.node_count
    → dst < g.node_count
    → IsLoopless g (pos dst) (dijkstra_scratch g (pos src) (pos dst) weight scratch)
unfolding dijkstra_scratch
dijkstra_scratch-IsLoopless laws g ok weight w scratch buffer src dst src_in dst_in =
    shortest_path-IsLoopless laws g ok weight w none scratch buffer src dst src_in dst_in
      (IsConsistent-none laws g ok weight w (pos src))
