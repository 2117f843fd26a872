-- ===== src/Routing/Split/Slots.antt =====
-- The slot of a pair in the entries of a split: there is one, or its request is blamed.
use convergent_routing_analy.Prelude.{
  ℕ, suc, ◌≡◌, inl, inr, refl, sym, ◌∙◌, ap₂, subst, ℤ, pos, List, [], ◌∷◌, none, Option-cases,
}
use convergent_routing_analy.Float.{Float64, Laws, Float}
use convergent_routing_analy.Graph.{Graph, IsGraph}
use convergent_routing_analy.Routing.Dijkstra.{WeightFunc, unreachable}
use convergent_routing_analy.Routing.Dijkstra.Walks.{Solves, NonNegWeight}
use convergent_routing_analy.Routing.Requests.{Context, RouteRequest, Outcome, done, failed, OdPair}
use convergent_routing_analy.Routing.Multipath.{KPath}
use convergent_routing_analy.Routing.SinglePass.Served.{SnapsToNodes, Blames, cut_off}
use convergent_routing_analy.Routing.SinglePass.Search.{Snapped}
use convergent_routing_analy.Routing.Yen.{k_shortest_paths}
use convergent_routing_analy.Routing.Yen.Count.{KAnswers, k_shortest_paths-KAnswers}
use convergent_routing_analy.Routing.Split.{multipath_name, OdEntry, slot_of, add_entry, slot_for}
use convergent_routing_analy.Routing.Split.Drawn.{Entries, Slotted, slot_of-Slotted}
use convergent_routing_analy.Routing.Split.Fresh.{add_entry-Slotted}

module _ ⦃f : Float64⦄ (laws : Laws f) (g : Graph) (ok : IsGraph g) (snaps : SnapsToNodes g)
    (weight : WeightFunc) (w : NonNegWeight g weight) (kk : ℕ) where
  abbrev k : ℤ
  k = pos (suc kk)

  -- The search for the slot of a pair gives one, or blames the request.
  abbrev pub SlotOr : RouteRequest → OdPair → List OdEntry → Outcome (ℕ × List OdEntry) → Type 0
  SlotOr req pair es (failed e) = Blames g multipath_name weight req e
  SlotOr req pair es (done (slot, fs)) = Slotted g weight k pair es fs slot

  pub kpaths_lem :
      (req : RouteRequest) (pair : OdPair)
      → Snapped g multipath_name req pair
      → k_shortest_paths g pair.src pair.dst k weight ≡ []
      → Solves g weight pair.src pair.dst unreachable
  kpaths_lem req pair s none_found =
      let (i, src, src_in) = snaps _ _ s.origin in
      let (j, dst, dst_in) = snaps _ _ s.destination in
      let same : k_shortest_paths g (pos i) (pos j) k weight ≡ [] =
        ap₂ (λ a b. k_shortest_paths g a b k weight) (sym src) (sym dst) ∙ none_found in
      let best : Solves g weight (pos i) (pos j) unreachable =
        subst (KAnswers laws g ok weight w i j kk) same
          (k_shortest_paths-KAnswers laws g ok weight w i j kk src_in dst_in) in
      subst (λ z. Solves g weight z pair.dst unreachable) (sym src)
        (subst (λ z. Solves g weight (pos i) z unreachable) (sym dst) best)

  add_entry_lem :
      (req : RouteRequest) (pair : OdPair) (es : List OdEntry) (paths : List KPath)
      → Snapped g multipath_name req pair
      → Entries g weight k es
      → slot_of pair es 0 ≡ none
      → k_shortest_paths g pair.src pair.dst k weight ≡ paths
      → SlotOr req pair es (add_entry req pair es paths)
  unfolding add_entry
  add_entry_lem req pair es [] s entries fresh searched =
      cut_off pair.src pair.dst s.origin s.destination (kpaths_lem req pair s searched)
  add_entry_lem req pair es (p ∷ ps) s entries fresh searched =
      add_entry-Slotted g weight k pair es p ps entries fresh searched

  pub slot_for_lem :
      (draw : ℕ → Float) (ctx : Context) (req : RouteRequest) (pair : OdPair) (es : List OdEntry)
      → Snapped g multipath_name req pair
      → Entries g weight k es
      → SlotOr req pair es (slot_for g weight k draw ctx req pair es)
  unfolding slot_for
  slot_for_lem draw ctx req pair es s entries = elim (Option-cases (slot_of pair es 0)) [
    | inl fresh ↦ rw (fresh, slot_for) (add_entry_lem req pair es _ s entries fresh refl)
    | inr (slot, old) ↦ rw (old, slot_for) (slot_of-Slotted g weight k pair es slot entries old)
  ]
