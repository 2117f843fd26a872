-- ===== src/Routing/Split/Result.antt =====
-- The result of AssignMultipath and its provenance are the split of the batch.
use mathlib.Core.Path.{fun_ext}
use convergent_routing_analy.Prelude.{
  length-map, get_or-map, ℕ, zero, suc, ◌<◌, ◌≡◌, ◌⊎◌, refl, sym, ◌∙◌, ap, subst, inl, inr, ℤ, pos,
  negsuc, List, [], length, map, length-replicate, get_or-replicate, arith,
}
use convergent_routing_analy.Float.{Float64, Laws, MulLaws, Float, of_nat}
use convergent_routing_analy.Graph.{Graph, IsGraph}
use convergent_routing_analy.Routing.Dijkstra.{WeightFunc}
use convergent_routing_analy.Routing.Dijkstra.Walks.{NonNegWeight}
use convergent_routing_analy.Routing.Requests.{
  Context, RouteRequest, Outcome, done, failed, OdPair, prefetch_od, new_flow_vector,
}
use convergent_routing_analy.Routing.SinglePass.Served.{SnapsToNodes, usage}
use convergent_routing_analy.Routing.SinglePass.Search.{AllSnappedOr, prefetch_od_lem}
use convergent_routing_analy.Routing.Yen.Kept.{AreRoutes}
use convergent_routing_analy.Routing.Yen.Routes.{k_shortest_paths-AreRoutes}
use convergent_routing_analy.Routing.Split.{
  multipath_name, router_k, OdEntry, no_entry, OdKPaths, Split, od_k_paths, multipath_result,
  split_all, result_of_split, assign_multipath,
}
use convergent_routing_analy.Routing.Split.Drawn.{entry_at, IsEntry, Entries}
use convergent_routing_analy.Routing.Split.Spread.{AllDrawn, od_of}
use convergent_routing_analy.Routing.Split.Correct.{Splits, SplitsOr, split_all_lem}
use convergent_routing_analy.Routing.Split.Shares.{od_at, IsOd, Spreads, SpreadsOr, od_k_paths-IsOd}

module _ ⦃f : Float64⦄ where
  same_src :
      (a b : OdKPaths) (c d : OdEntry)
      → a ≡ od_k_paths c
      → b ≡ od_k_paths d
      → a.src ≡ b.src
      → c.src ≡ d.src
  unfolding od_k_paths
  same_src a b c d p q r = sym (ap (λ z. z.src) p) ∙ r ∙ ap (λ z. z.src) q

  same_dst :
      (a b : OdKPaths) (c d : OdEntry)
      → a ≡ od_k_paths c
      → b ≡ od_k_paths d
      → a.dst ≡ b.dst
      → c.dst ≡ d.dst
  unfolding od_k_paths
  same_dst a b c d p q r = sym (ap (λ z. z.dst) p) ∙ r ∙ ap (λ z. z.dst) q

  no-Entries : (g : Graph) (weight : WeightFunc) (k : ℤ) → Entries g weight k []
  no-Entries g weight k = record {
    valid = λ t h. absurd (omega arith);
    one = λ s t hs ht a b. absurd (omega arith);
  }

-- A configured k, or the default, is positive.
pub router_k-pos : (n : ℤ) → (m : ℕ) × (router_k n ≡ pos (suc m))
router_k-pos (pos zero) = (2, refl)
router_k-pos (pos (suc m)) = (m, refl)
router_k-pos (negsuc m) = (2, refl)

module _ ⦃f : Float64⦄ (laws : Laws f) (m : MulLaws f) (g : Graph) (ok : IsGraph g)
    (snaps : SnapsToNodes g) (weight : WeightFunc) (w : NonNegWeight g weight) where
  not_before : (n t : ℕ) → (t < 0) ⊎ (0 < n) → 0 < n
  not_before n t (inl none) = absurd (omega (arith, none))
  not_before n t (inr some) = some

  entry_routes :
      {k : ℤ} (e : OdEntry) → IsEntry g weight k e → AreRoutes g weight e.src e.dst e.paths
  entry_routes {k} e entry =
      subst (AreRoutes g weight e.src e.dst) (sym entry.searched)
        (k_shortest_paths-AreRoutes laws m g ok weight w e.src e.dst k)

  multipath_result-Spreads :
      (kk : ℕ) (draw : ℕ → Float) (reqs : List RouteRequest) (s : Split)
      → Splits laws g ok snaps weight w kk draw 0 [] (new_flow_vector g) reqs s
      → Spreads g weight (pos (suc kk)) draw reqs (multipath_result s)
  unfolding new_flow_vector
  multipath_result-Spreads kk draw reqs s p =
      let zeros = length-replicate g.edge_count (of_nat 0) in
      let size : length (map od_k_paths s.entries) ≡ length s.entries =
        length-map od_k_paths s.entries in
      let at : (t : ℕ) → od_at (multipath_result s) t ≡ od_of s.entries t =
        λ t. get_or-map od_k_paths s.entries t no_entry in
      record {
        drawn =
            subst
              (λ n. AllDrawn g n (od_at (multipath_result s)) draw 0 reqs s.routes s.slots s.chosen)
              (sym size)
              (subst (λ od. AllDrawn g (length s.entries) od draw 0 reqs s.routes s.slots s.chosen)
                (fun_ext (λ t. sym (at t))) p.drawn);
        od_sets = λ t h. subst (IsOd g weight (pos (suc kk)) s.slots s.chosen t) (sym (at t)) (
            od_k_paths-IsOd g weight (pos (suc kk)) s.slots s.chosen t (entry_at s.entries t)
              (p.entries.valid t (omega (arith, size, h)))
              (entry_routes (entry_at s.entries t) (p.entries.valid t (omega (arith, size, h))))
              (λ j. omega (arith, p.counts t j)) (omega (arith, p.totals t))
              (not_before _ t (p.used t (omega (arith, size, h)))));
        one = λ a b ha hb src dst.
            p.entries.one a b (omega (arith, size, ha)) (omega (arith, size, hb))
              (same_src _ _ _ _ (at a) (at b) src) (same_dst _ _ _ _ (at a) (at b) dst);
        size = p.size ∙ zeros;
        load = λ e h.
            p.load e (subst (λ n. e < n) (sym zeros) h)
            ∙ ap (usage g reqs s.routes e) (get_or-replicate g.edge_count e (of_nat 0));
      }

  result_of_split-SpreadsOr :
      (kk : ℕ) (draw : ℕ → Float) (ctx : Context) (reqs : List RouteRequest) (o : Outcome Split)
      → SplitsOr laws g ok snaps weight w kk draw ctx 0 reqs [] (new_flow_vector g) o
      → SpreadsOr g weight
          (pos (suc kk))
          draw
          ctx
          reqs
          (result_of_split g weight (pos (suc kk)) draw ctx o)
  unfolding result_of_split
  result_of_split-SpreadsOr kk draw ctx reqs (failed e) p = p
  result_of_split-SpreadsOr kk draw ctx reqs (done s) p = multipath_result-Spreads kk draw reqs s p

  assign_multipath_lem :
      (kk : ℕ) (draw : ℕ → Float) (ctx : Context) (reqs : List RouteRequest)
      → SpreadsOr g weight
          (pos (suc kk))
          draw
          ctx
          reqs
          (assign_multipath g weight (pos (suc kk)) draw ctx reqs)
  unfolding assign_multipath
  assign_multipath_lem kk draw ctx reqs =
      after_snap (prefetch_od g multipath_name reqs) (prefetch_od_lem g multipath_name weight reqs)
    where
      after_snap :
          (o : Outcome (List OdPair))
          → AllSnappedOr g multipath_name weight reqs o
          → SpreadsOr g weight (pos (suc kk)) draw ctx reqs (elim o [
            | failed e ↦ failed e
            | done pairs ↦
                result_of_split g weight
                  (pos (suc kk))
                  draw
                  ctx
                  (split_all g weight (pos (suc kk)) draw ctx 0 reqs pairs [] (new_flow_vector g))
          ])
      after_snap (failed e) p = inr p
      after_snap (done pairs) p = result_of_split-SpreadsOr kk draw ctx reqs _ (
          split_all_lem laws g ok snaps weight w kk draw ctx 0 reqs pairs [] (new_flow_vector g) p
            (no-Entries g weight (pos (suc kk))))

  -- AssignMultipath with the k configured, or the default where that is not positive, on a graph that
  -- keeps the port's laws and whose NearestNode answers with nodes, with non-negative weights, and
  -- whatever the numbers drawn: each request in order has a route along the path that the number of
  -- its own index draws from the K-set of its nearest nodes, the set and the path that the
  -- provenance names; there is one K-set for each pair
  -- that is asked for, which holds what kShortestPaths returns, different routes between the two
  -- nodes that visit no node twice, with the proportional split as intended; its count is the number
  -- of requests that chose it, at least one, and the share realized of each path is the number of
  -- those that chose the path over that count; and each edge carries exactly what the routes' uses of
  -- it add up to. Or the error is a cancelled context, or says of a request what is true of it: no
  -- node near an endpoint, or no path of finite cost.
  pub assign_multipath-SpreadsOr :
      (n : ℤ) (draw : ℕ → Float) (ctx : Context) (reqs : List RouteRequest)
      → SpreadsOr g weight
          (router_k n)
          draw
          ctx
          reqs
          (assign_multipath g weight (router_k n) draw ctx reqs)
  assign_multipath-SpreadsOr n draw ctx reqs =
      let (m, same) = router_k-pos n in
      subst (λ z. SpreadsOr g weight z draw ctx reqs (assign_multipath g weight z draw ctx reqs))
        (sym same) (assign_multipath_lem m draw ctx reqs)
