-- ===== src/Routing/Dijkstra/Start.antt =====
-- The search before its first round: the invariant holds, whatever the scratch buffer held.
use convergent_routing_analy.Prelude.{
  ℕ, zero, suc, ◌<◌, ◌≡◌, ◌≢◌, ◌∙◌, ◌⊎◌, inl, inr, refl, sym, false, Bool, pos, List, [], ◌∷◌, some,
  none, length, set, Option, arith, ap, ap₂, subst, Bool-cases, ℕ_discrete, length-set,
  if◌then◌else◌, ◌==◌, replicate, get_or-replicate, get_or-set, length-replicate, map, length-take,
  ltb,
}
use convergent_routing_analy.Float.{Float64, Laws, Float, of_nat, inf, Le, NonNeg}
use convergent_routing_analy.Domain.{EdgeId}
use convergent_routing_analy.Graph.{Graph}
use convergent_routing_analy.Heap.Order.{Has}
use convergent_routing_analy.Routing.Dijkstra.{
  WeightFunc, HeuristicFunc, PqItem, no_item, no_edge, Search, Scratch, reset, slices, start,
  start_priority,
}
use convergent_routing_analy.Routing.Dijkstra.Walks.{is_settled, IsConsistent, Traced, root}
use convergent_routing_analy.Routing.Dijkstra.Invariant.{at, IsItem, IsTraced, IsQueued, Inv}

module _ ⦃f : Float64⦄ where
  map-const : {A B : Type 0} (b : B) (xs : List A) → map (λ _. b) xs ≡ replicate (length xs) b
  map-const b [] = refl
  map-const b (x ∷ xs) = ap (λ z. b ∷ z) (map-const b xs)

  -- The two slices of a buffer are always of one length.
  abbrev pub IsBuffer : Option Scratch → Type 0
  IsBuffer none = Unit
  IsBuffer (some b) = length b.dist ≡ length b.prev_edge

  reset_size :
      (b : Scratch) (n : ℕ)
      → length b.dist ≡ length b.prev_edge
      → (length (reset b n).0.dist ≡ n) × (length (reset b n).0.prev_edge ≡ n)
  unfolding reset
  reset_size b n e = elim (Bool-cases (ltb (length b.dist) n)) [
    | inl small ↦ rw small (
      omega (arith, length-take n (replicate n (of_nat 0)), length-replicate n (of_nat 0)),
      omega (arith, length-take n (replicate n (pos 0)), length-replicate n (pos 0)),
    )
    | inr large ↦
        rw large (ground (arith, length-take n b.dist), ground (arith, length-take n b.prev_edge))
  ]

  slices_size :
      (scratch : Option Scratch) (n : ℕ)
      → IsBuffer scratch
      → (length (slices scratch n).dist ≡ n) × (length (slices scratch n).prev_edge ≡ n)
  unfolding slices
  slices_size none n b = (length-replicate n (of_nat 0), length-replicate n (pos 0))
  slices_size (some b) n e = reset_size b n e

  module _ (g : Graph) (weight : WeightFunc) (h : Option HeuristicFunc) (src : ℕ) where
    -- The start of a search that allocates its slices.
    abbrev pub blank : Search
    blank = record {
      dist = set (replicate g.node_count inf) src (of_nat 0);
      prev_edge = replicate g.node_count no_edge;
      queue = record { node = pos src; g = of_nat 0; priority = start_priority h (pos src) } ∷ [];
    }

    -- What the buffer held does not matter.
    pub start-blank :
        (scratch : Option Scratch) → IsBuffer scratch → start g (pos src) h scratch ≡ blank
    unfolding start
    start-blank scratch b =
        let b' = slices scratch g.node_count in
        let (ds, ps) = slices_size scratch g.node_count b in
        ap₂
          (λ (d : List Float) (p : List EdgeId). record blank {
            dist = set d src (of_nat 0);
            prev_edge = p;
          })
          (map-const inf b'.dist ∙ ap (λ n. replicate n inf) ds)
          (map-const no_edge b'.prev_edge ∙ ap (λ n. replicate n no_edge) ps)

    module _ (laws : Laws f) (src_in : src < g.node_count)
        (k : IsConsistent g weight (pos src) h) where
      abbrev pub none_settled : List Bool
      none_settled = replicate g.node_count false

      read : (v : ℕ) → at blank v ≡ (if src == v then of_nat 0 else inf)
      read v =
          get_or-set (replicate g.node_count inf) src v (of_nat 0) inf
            (subst (λ n. src < n) (sym (length-replicate g.node_count inf)) src_in)
          ∙ ap (λ z. if src == v then of_nat 0 else z) (get_or-replicate g.node_count v inf)

      read_src : at blank src ≡ of_nat 0
      read_src = ground (arith, read src)

      read_ne : (v : ℕ) → src ≢ v → at blank v ≡ inf
      read_ne v ne = ground (arith, read v)

      unsettled : (v : ℕ) → is_settled g weight none_settled v ≡ false
      unsettled v = get_or-replicate g.node_count v false

      abbrev source_item : PqItem
      source_item = record { node = pos src; g = of_nat 0; priority = start_priority h (pos src) }

      IsItem-source : IsItem g weight h src blank source_item src
      IsItem-source = record {
        node = refl;
        in_range = src_in;
        g_nonneg = laws.zero_le;
        nonneg = laws.le_trans _ _ _ (k.nonneg (pos src) (of_nat 0) laws.zero_le) k.start_above;
        fresh = subst (λ z. Le z (of_nat 0)) (sym read_src) laws.zero_le;
        key_below = k.start_above;
        key_above = k.start_below;
      }

      one_item : (x : PqItem) → Has no_item blank.queue x → x ≡ source_item
      one_item x (zero, hi, e) = sym e
      one_item x (suc i, hi, e) = absurd (omega arith)

      nonneg' : (v : ℕ) → v < g.node_count → NonNeg (at blank v)
      nonneg' v hv = elim (ℕ_discrete src v) [
        | yes same ↦
            subst (λ z. NonNeg (at blank z)) same (subst NonNeg (sym read_src) laws.zero_le)
        | no ne ↦ subst NonNeg (sym (read_ne v ne)) (laws.le_inf _ laws.zero_le)
      ]

      reached' :
          (v : ℕ)
          → v < g.node_count
          → (at blank v ≡ inf) ⊎ IsTraced g weight h src none_settled blank.prev_edge v (at blank v)
      reached' v hv = elim (ℕ_discrete src v) [
        | yes same ↦ inr (
            subst (λ z. IsTraced g weight h src none_settled blank.prev_edge z (at blank z)) same
              (
                [],
                subst (λ z. Traced g weight src none_settled blank.prev_edge src [] z)
                    (sym read_src) root,
                ground (arith, unsettled src),
              ))
        | no ne ↦ inl (read_ne v ne)
      ]

      queued' :
          (v : ℕ)
          → v < g.node_count
          → is_settled g weight none_settled v ≡ false
          → (at blank v ≡ inf) ⊎ IsQueued g weight h src blank v
      queued' v hv un = elim (ℕ_discrete src v) [
        | yes same ↦
            inr
              (source_item, (0, omega arith, refl), ap pos same, sym read_src ∙ ap (at blank) same)
        | no ne ↦ inl (read_ne v ne)
      ]

      pub Inv-blank : Inv g weight h src none_settled blank
      Inv-blank = record {
        base = record {
          seen_size = length-replicate g.node_count false;
          dist_size =
              length-set (replicate g.node_count inf) src (of_nat 0)
              ∙ length-replicate g.node_count inf;
          prev_size = length-replicate g.node_count no_edge;
          src_zero = read_src;
          nonneg = nonneg';
          reached = reached';
          queued = queued';
          items = λ x q. (
            src,
            subst (λ z. IsItem g weight h src blank z src) (sym (one_item x q)) IsItem-source,
          );
          heap = λ c p lt. absurd (omega arith);
        };
        relaxed = λ u hu done. absurd (cc (unsettled u));
        bound = λ u x hu done. absurd (cc (unsettled u));
      }
