-- ===== src/Routing/Split/Correct.antt =====
-- AssignMultipath spreads the requests over the paths of their pairs.
use convergent_routing_analy.Prelude.{
  ℕ, ◌==◌, ==_iff, ◌⊎◌, if◌then◌else◌, suc, ◌+◌, ◌<◌, ◌≡◌, inl, inr, refl, sym, ◌∙◌, ap, subst, ℤ,
  pos, List, [], ◌∷◌, some, length, get_or, Bool-cases, arith,
}
use convergent_routing_analy.Float.{Float64, Laws, Float, of_nat}
use convergent_routing_analy.Graph.{Graph, IsGraph}
use convergent_routing_analy.Routing.Dijkstra.{WeightFunc}
use convergent_routing_analy.Routing.Dijkstra.Walks.{NonNegWeight}
use convergent_routing_analy.Routing.Requests.{
  Context, at_request, RouteRequest, Route, Outcome, done, failed, OdPair, request_weight,
  add_route_flow,
}
use convergent_routing_analy.Routing.Requests.Flows.{length-add_route_flow, get_or-add_route_flow}
use convergent_routing_analy.Routing.Multipath.{proportional_split, draw_path}
use convergent_routing_analy.Routing.Multipath.Masked.{draw_path_lt}
use convergent_routing_analy.Routing.SinglePass.Served.{
  SnapsToNodes, usage, at_head, at_tail, Explained,
}
use convergent_routing_analy.Routing.SinglePass.Search.{Snapped, AllSnapped, no_pair, next_pair}
use convergent_routing_analy.Routing.Split.{
  multipath_name, OdEntry, route_along, Split, with_draw, slot_for, choice_at, after_draw, route_at,
  split_all, od_k_paths,
}
use convergent_routing_analy.Routing.Split.Drawn.{
  entry_at, Grows, Grows-refl, Grows-trans, Entries, count_at, total_at, Slotted,
}
use convergent_routing_analy.Routing.Split.Counted.{Counted, count_one-Counted}
use convergent_routing_analy.Routing.Split.Slots.{SlotOr, slot_for_lem}
use convergent_routing_analy.Routing.Split.Spread.{
  uses, slot_uses, length-proportional_split, Draws, AllDrawn, none_drawn, one_drawn, od_of,
}

module _ ⦃f : Float64⦄ (laws : Laws f) (g : Graph) (ok : IsGraph g) (snaps : SnapsToNodes g)
    (weight : WeightFunc) (w : NonNegWeight g weight) (kk : ℕ) where
  abbrev k : ℤ
  k = pos (suc kk)

  -- What the split of the rest of the requests adds to the entries and the flows before.
  pub record Splits (draw : ℕ → Float) (i : ℕ) (es : List OdEntry) (flows : List Float)
      (reqs : List RouteRequest) (s : Split) : Type 0 where
    pub entries : Entries g weight k s.entries
    pub grows : Grows es s.entries
    pub drawn :
        AllDrawn g (length s.entries) (od_of s.entries) draw i reqs s.routes s.slots s.chosen
    pub size : length s.flows ≡ length flows
    pub load :
        (e : ℕ)
        → e < length flows
        → get_or s.flows e (of_nat 0) ≡ usage g reqs s.routes e (get_or flows e (of_nat 0))
    pub counts : (t j : ℕ) → count_at s.entries t j ≡ count_at es t j + uses t j s.slots s.chosen
    pub totals : (t : ℕ) → total_at s.entries t ≡ total_at es t + slot_uses t s.slots
    pub used : (t : ℕ) → t < length s.entries → (t < length es) ⊎ (0 < slot_uses t s.slots)

  abbrev pub SplitsOr :
      (ℕ → Float)
      → Context
      → ℕ
      → List RouteRequest
      → List OdEntry
      → List Float
      → Outcome Split
      → Type 0
  SplitsOr draw ctx i reqs es flows (failed e) = Explained g multipath_name weight ctx reqs e
  SplitsOr draw ctx i reqs es flows (done s) = Splits draw i es flows reqs s

  -- The draw of a request from its slot, in front of the split of the rest.
  module _ (draw : ℕ → Float) (ctx : Context) (i : ℕ) (req : RouteRequest)
      (reqs : List RouteRequest) (pair : OdPair) (es fs gs : List OdEntry) (flows : List Float)
      (slot choice : ℕ) (snapped : Snapped g multipath_name req pair)
      (slotted : Slotted g weight k pair es fs slot)
      (in_paths : choice < length (entry_at fs slot).paths)
      (picked : choice ≡ draw_path (entry_at fs slot).intended (draw i))
      (counted : Counted g weight k fs gs slot choice) where
    abbrev route : Route
    route = route_along req (entry_at fs slot).paths choice

    one_Draws :
        (s : List OdEntry)
        → Grows gs s
        → Draws g (length s) (od_of s) (draw i) req route slot choice
    unfolding od_k_paths
    one_Draws s grows =
        let (lt, src, dst, paths) = Grows-trans fs gs s counted.grows grows slot slotted.within in
        let weighed = (slotted.entries.valid slot slotted.within).weighed in
        record {
          in_ods = lt;
          origin = snapped.origin ∙ ap some (sym (src ∙ slotted.src));
          destination = snapped.destination ∙ ap some (sym (dst ∙ slotted.dst));
          in_paths = subst (λ ps. choice < length ps) (sym paths) in_paths;
          drawn =
              picked
              ∙ ap (λ intended. draw_path intended (draw i))
                  (weighed ∙ ap proportional_split (sym paths));
          along = ap (λ ps. route_along req ps choice) (sym paths);
        }

    one_used :
        (n t : ℕ)
        → (t < length gs) ⊎ (0 < n)
        → (t < length es) ⊎ (0 < (if slot == t then 1 else 0) + n)
    one_used n t (inr later) = inr (omega (arith, later))
    one_used n t (inl now) = of_fresh (slotted.fresh t (omega (arith, now, counted.size)))
      where
        of_fresh :
            (t < length es) ⊎ (t ≡ slot) → (t < length es) ⊎ (0 < (if slot == t then 1 else 0) + n)
        of_fresh (inl old) = inl old
        of_fresh (inr here) = inr (rw ((==_iff slot t).1 (sym here)) (omega arith))

    with_draw_lem :
        (o : Outcome Split)
        → SplitsOr draw ctx
            (suc i)
            reqs
            gs
            (add_route_flow flows route.edges (request_weight req))
            o
        → SplitsOr draw ctx i (req ∷ reqs) es flows (with_draw slot choice route o)
    unfolding with_draw
    with_draw_lem (failed e) (inl c) = inl c
    with_draw_lem (failed e) (inr b) = inr (at_tail b)
    with_draw_lem (done s) p =
        let same = length-add_route_flow flows route.edges (request_weight req) in
        record {
          entries = p.entries;
          grows =
              Grows-trans es fs s.entries slotted.grows
                (Grows-trans fs gs s.entries counted.grows p.grows);
          drawn = one_drawn (one_Draws s.entries p.grows) p.drawn;
          size = p.size ∙ same;
          load = λ e h.
              p.load e (subst (λ n. e < n) (sym same) h)
              ∙ ap (usage g reqs s.routes e)
                  (get_or-add_route_flow flows route.edges (request_weight req) e h);
          counts = λ t j. omega (arith, p.counts t j, counted.counts t j, slotted.counts t j);
          totals = λ t. omega (arith, p.totals t, counted.totals t, slotted.totals t);
          used = λ t h. one_used (slot_uses t s.slots) t (p.used t h);
        }

  choice_lt :
      (draw : ℕ → Float) (ctx : Context) (i : ℕ) (pair : OdPair) (es fs : List OdEntry) (slot : ℕ)
      → Slotted g weight k pair es fs slot
      → choice_at g weight k draw ctx i fs slot < length (entry_at fs slot).paths
  choice_lt draw ctx i pair es fs slot slotted =
      let entry = slotted.entries.valid slot slotted.within in
      let size : length (entry_at fs slot).intended ≡ length (entry_at fs slot).paths =
        ap length entry.weighed ∙ length-proportional_split (entry_at fs slot).paths in
      subst (λ n. choice_at g weight k draw ctx i fs slot < n) size
        (draw_path_lt (entry_at fs slot).intended (draw i) (omega (arith, size, entry.some_path)))

  pub split_all_lem :
      (draw : ℕ → Float) (ctx : Context) (i : ℕ) (reqs : List RouteRequest) (pairs : List OdPair)
      (es : List OdEntry) (flows : List Float)
      → AllSnapped g multipath_name reqs pairs
      → Entries g weight k es
      → SplitsOr draw ctx i reqs es flows (split_all g weight k draw ctx i reqs pairs es flows)
  unfolding split_all
  split_all_lem draw ctx i [] [] es flows no_pair entries = record {
    entries = entries;
    grows = Grows-refl es;
    drawn = none_drawn;
    size = refl;
    load = λ e h. refl;
    counts = λ t j. omega arith;
    totals = λ t. omega arith;
    used = λ t h. inl h;
  }
  split_all_lem draw ctx i [] (pair ∷ pairs) es flows snapped entries = elim snapped [ ]
  split_all_lem draw ctx i (req ∷ reqs) [] es flows snapped entries = elim snapped [ ]
  split_all_lem draw ctx i (req ∷ reqs) (pair ∷ pairs) es flows (next_pair s rest) entries =
      elim (Bool-cases (ctx (at_request 1 i))) [
        | inl stop ↦ rw (stop, split_all) (inl (refl, (at_request 1 i, stop)))
        | inr go ↦
            rw (go, split_all)
              (after_slot (slot_for g weight k draw ctx req pair es)
                (λ fs slot h.
                  split_all_lem draw ctx (suc i) reqs pairs
                    (after_draw g weight k draw ctx i fs slot)
                    (add_route_flow flows (route_at g weight k draw ctx i req fs slot).edges
                      (request_weight req))
                    rest h)
                (slot_for_lem laws g ok snaps weight w kk draw ctx req pair es s entries))
      ]
    where
      after_slot :
          (o : Outcome (ℕ × List OdEntry))
          → ((fs : List OdEntry) (slot : ℕ)
              → Entries g weight k (after_draw g weight k draw ctx i fs slot)
              → SplitsOr draw ctx
                  (suc i)
                  reqs
                  (after_draw g weight k draw ctx i fs slot)
                  (add_route_flow flows
                    (route_at g weight k draw ctx i req fs slot).edges
                    (request_weight req))
                  (split_all g weight k draw ctx
                    (suc i)
                    reqs
                    pairs
                    (after_draw g weight k draw ctx i fs slot)
                    (add_route_flow flows
                      (route_at g weight k draw ctx i req fs slot).edges
                      (request_weight req))))
          → SlotOr laws g ok snaps weight w kk req pair es o
          → SplitsOr draw ctx i (req ∷ reqs) es flows (elim o [
            | failed e ↦ failed e
            | done (slot, found) ↦
                let route = route_at g weight k draw ctx i req found slot in
                with_draw slot (choice_at g weight k draw ctx i found slot) route (
                  split_all g weight k draw ctx
                    (suc i)
                    reqs
                    pairs
                    (after_draw g weight k draw ctx i found slot)
                    (add_route_flow flows route.edges (request_weight req)))
          ])
      after_slot (failed e) onward p = inr (at_head p)
      after_slot (done (slot, fs)) onward p =
          let lt = choice_lt draw ctx i pair es fs slot p in
          let counted =
            count_one-Counted g weight k fs slot (choice_at g weight k draw ctx i fs slot) p.entries
              p.within lt in
          with_draw_lem draw ctx i req reqs pair es fs (after_draw g weight k draw ctx i fs slot)
            flows slot (choice_at g weight k draw ctx i fs slot) s p lt refl counted _
            (onward fs slot counted.entries)
