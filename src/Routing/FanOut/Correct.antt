-- ===== src/Routing/FanOut/Correct.antt =====
-- The concurrent pass answers its batch, whatever the schedule.
use Prim.Native.String.{String}
use convergent_routing_analy.Prelude.{
  ℕ, zero, suc, ◌+◌, ◌*◌, ◌/◌, ◌%◌, ◌≤◌, ◌<◌, ◌≡◌, ◌⊎◌, inl, inr, refl, sym, ◌∙◌, ap, subst, ℤ, pos,
  negsuc, List, [], ◌∷◌, Option, none, some, length, get_or, replicate, length-replicate, arith,
  ltb, Bool-cases, some_inj, Option-cases,
}
use native.Mathlib.Nat.{mod-lt, mod-add-div'}
use convergent_routing_analy.Float.{Float64, Laws, Float, of_nat}
use convergent_routing_analy.Graph.{Graph, IsGraph}
use convergent_routing_analy.Heap.Order.{Has, Has-cons}
use convergent_routing_analy.Routing.Dijkstra.{WeightFunc}
use convergent_routing_analy.Routing.Dijkstra.Walks.{NonNegWeight}
use convergent_routing_analy.Routing.Requests.{
  Context, RouteRequest, Route, RouteError, Outcome, done, failed, OdPair,
}
use convergent_routing_analy.Routing.SinglePass.Served.{
  SnapsToNodes, AllServed, none_asked, one_more, Explained, Serves,
}
use convergent_routing_analy.Routing.SinglePass.Search.{AllSnapped}
use convergent_routing_analy.Routing.FanOut.{
  Work, Shared, set_err, AssignOutcome, no_route, no_request, serve, join, run_workers, reduce,
  assign_aon, workers_for, no_work, fresh, add_shard, add_shards, combine_flows,
}
use convergent_routing_analy.Routing.FanOut.Buffer.{new_dijkstra_scratch-Even}
use convergent_routing_analy.Routing.FanOut.Worker.{Filled, StrodeOr, serve_lem, AllSnapped-length}

workers_for_pos : (procs : ℤ) (n : ℕ) → 1 ≤ workers_for procs n
unfolding workers_for
workers_for_pos procs zero = omega arith
workers_for_pos (pos zero) (suc n) = omega arith
workers_for_pos (pos (suc p)) (suc n) = elim (Bool-cases (ltb (suc n) (suc p))) [
  | inl few ↦ rw few (omega arith)
  | inr many ↦ rw many (omega arith)
]
workers_for_pos (negsuc p) (suc n) = omega arith

module _ ⦃f : Float64⦄ where
  length-add_shard : (xs ys : List Float) → length (add_shard xs ys) ≡ length xs
  unfolding add_shard
  length-add_shard [] ys = refl
  length-add_shard (x ∷ xs) [] = refl
  length-add_shard (x ∷ xs) (y ∷ ys) = ap suc (length-add_shard xs ys)

  length-add_shards :
      (xs : List Float) (shards : List (List Float)) → length (add_shards xs shards) ≡ length xs
  unfolding add_shards
  length-add_shards xs [] = refl
  length-add_shards xs (s ∷ shards) =
      length-add_shards (add_shard xs s) shards ∙ length-add_shard xs s

  length-combine_flows : (n : ℕ) (shards : List (List Float)) → length (combine_flows n shards) ≡ n
  unfolding combine_flows
  length-combine_flows n shards =
      length-add_shards (replicate n (of_nat 0)) shards ∙ length-replicate n (of_nat 0)

  -- Routes of the right number that serve slot by slot serve the batch.
  AllServed-slots :
      (g : Graph) (name : String) (weight : WeightFunc) (reqs : List RouteRequest)
      (routes : List Route)
      → length routes ≡ length reqs
      → ((i : ℕ)
          → i < length reqs
          → Serves g name weight (get_or reqs i no_request) (get_or routes i no_route))
      → AllServed g name weight reqs routes
  AllServed-slots g name weight [] [] h slots = none_asked
  AllServed-slots g name weight [] (r ∷ rs) h slots = absurd (omega arith)
  AllServed-slots g name weight (q ∷ qs) [] h slots = absurd (omega arith)
  AllServed-slots g name weight (q ∷ qs) (r ∷ rs) h slots =
      one_more (slots 0 (omega arith))
        (AllServed-slots g name weight qs rs (omega arith) (λ i lt. slots (suc i) (omega arith)))

module _ ⦃f : Float64⦄ (laws : Laws f) (g : Graph) (ok : IsGraph g) (snaps : SnapsToNodes g)
    (name : String) (weight : WeightFunc) (w : NonNegWeight g weight) (ctx : Context) (round : ℕ)
    (pairs : List OdPair) (reqs : List RouteRequest) (all : AllSnapped g name reqs pairs) where
  module _ (count : ℕ) (some_count : 1 ≤ count) where
    abbrev FilledSlot : List Route → ℕ → Type 0
    FilledSlot = Filled laws g ok snaps name weight w ctx round pairs reqs all count some_count

    -- What the shared state after the workers of an order says of the state before.
    pub record Ran (order : List ℕ) (before after : Shared) : Type 0 where
      pub clean : after.first_err ≡ none → before.first_err ≡ none
      pub size : after.first_err ≡ none → length after.routes ≡ length before.routes
      pub filled :
          after.first_err ≡ none
          → (worker m : ℕ) → Has 0 order worker
          → worker + m * count < length pairs
          → FilledSlot after.routes (worker + m * count)
      pub keeps :
          after.first_err ≡ none → (i : ℕ) → FilledSlot before.routes i → FilledSlot after.routes i
      pub cause :
          (e : RouteError)
          → after.first_err ≡ some e
          → (before.first_err ≡ some e) ⊎ Explained g name weight ctx reqs e

    set_err-some : (o : Option RouteError) (e : RouteError) → set_err o e ≡ none → ⊥
    set_err-some none e h = cc h
    set_err-some (some first) e h = cc h

    set_err-first :
        (o : Option RouteError) (e e' : RouteError)
        → set_err o e ≡ some e'
        → (o ≡ some e') ⊎ (e ≡ e')
    set_err-first none e e' h = inr (some_inj h)
    set_err-first (some first) e e' h = inl h

    one_worker :
        (worker : ℕ) (order : List ℕ) (s after : Shared) (o : Outcome Work)
        → StrodeOr laws g ok snaps name weight w ctx round pairs reqs all count some_count worker
            (fresh g name weight ctx round pairs reqs count s.routes)
            o
        → Ran order (join worker s o) after
        → Ran (worker ∷ order) s after
    unfolding join
    one_worker worker order s after (failed e) p rest =
        let never = λ (c : after.first_err ≡ none). set_err-some s.first_err e (rest.clean c) in
        record {
          clean = λ c. absurd (never c);
          size = λ c. absurd (never c);
          filled = λ c. absurd (never c);
          keeps = λ c. absurd (never c);
          cause = λ e' h. elim (rest.cause e' h) [
            | inl first ↦ elim (set_err-first s.first_err e e' first) [
              | inl before ↦ inl before
              | inr mine ↦ inr (subst (Explained g name weight ctx reqs) mine p)
            ]
            | inr known ↦ inr known
          ];
        }
    one_worker worker order s after (done t) p rest = record {
      clean = rest.clean;
      size = λ c. rest.size c ∙ p.size;
      filled = λ c v m there lt. elim (Has-cons 0 worker order v there) [
        | inl same ↦ rest.keeps c (v + m * count) (
            subst (λ z. FilledSlot t.routes (z + m * count)) same
              (p.filled m (subst (λ z. z + m * count < length pairs) (sym same) lt)))
        | inr later ↦ rest.filled c v m later lt
      ];
      keeps = λ c i there. rest.keeps c i (p.keeps i there);
      cause = rest.cause;
    }

    length-join :
        (worker : ℕ) (s : Shared) (o : Outcome Work)
        → StrodeOr laws g ok snaps name weight w ctx round pairs reqs all count some_count worker
            (fresh g name weight ctx round pairs reqs count s.routes)
            o
        → length (join worker s o).routes ≡ length s.routes
    unfolding join
    length-join worker s (failed e) p = refl
    length-join worker s (done t) p = p.size

    run_workers-Ran :
        (order : List ℕ) (s : Shared)
        → length s.routes ≡ length pairs
        → Ran order s (run_workers g name weight ctx round pairs reqs count order s)
    unfolding run_workers
    run_workers-Ran [] s h = record {
      clean = λ c. c;
      size = λ c. refl;
      filled = λ c v m there. absurd (let lt : there.0 < 0 = there.1 in omega (arith, lt));
      keeps = λ c i there. there;
      cause = λ e same. inl same;
    }
    run_workers-Ran (worker ∷ order) s h =
        let before = fresh g name weight ctx round pairs reqs count s.routes in
        let o = serve g name weight ctx round pairs reqs count (length pairs) worker before in
        let p =
          serve_lem laws g ok snaps name weight w ctx round pairs reqs all count some_count
            (length pairs) worker before (new_dijkstra_scratch-Even g.node_count) h (omega arith) in
        one_worker worker order s
          (run_workers g name weight ctx round pairs reqs count order (join worker s o)) o p
          (run_workers-Ran order (join worker s o) (length-join worker s o p ∙ h))

  -- What the pass promises: the routes serve the requests in order and every edge has its flow's
  -- slot, or the error is explained.
  abbrev pub AonAnswers : Outcome AssignOutcome → Type 0
  AonAnswers (done o) = AllServed g name weight reqs o.routes × (length o.flows ≡ g.edge_count)
  AonAnswers (failed e) = Explained g name weight ctx reqs e

  reduce_lem :
      (count : ℕ) (some_count : 1 ≤ count) (order : List ℕ) (s : Shared)
      → ((worker : ℕ) → worker < count → Has 0 order worker)
      → Ran count some_count order (no_work (length pairs) count) s
      → AonAnswers (reduce g s)
  unfolding reduce
  reduce_lem count some_count order s complete ran = elim (Option-cases s.first_err) [
    | inr (e, failure) ↦
        rw (failure, reduce)
          (elim (ran.cause e failure) [ inl none_yet ↦ absurd (cc none_yet) | inr known ↦ known ])
    | inl clean ↦
        let sizes = AllSnapped-length g name reqs pairs all in
        let size = ran.size clean ∙ length-replicate (length pairs) no_route in
        rw (clean, reduce)
          (
            AllServed-slots g name weight reqs s.routes (size ∙ sym sizes) (λ i lt.
                let at : i % count + i / count * count ≡ i = mod-add-div' i count in
                let here : i < length pairs = omega (arith, sizes) in
                subst (FilledSlot count some_count s.routes) at (
                  ran.filled clean (i % count) (i / count)
                    (complete (i % count) (mod-lt i some_count))
                    (subst (λ z. z < length pairs) (sym at) here))),
            length-combine_flows g.edge_count s.shards,
          )
  ]

  -- On a graph that keeps the port's laws and whose NearestNode answers with nodes, with
  -- non-negative weights and endpoints that are snapped: for any number of processors and any
  -- schedule in which every worker occurs, the concurrent all-or-nothing pass gives one route per
  -- request in order, each at least cost between the nearest nodes of its request, and a flow for
  -- each edge; or its error is a cancelled context or the true cause of a request's failure.
  pub assign_aon-AonAnswers :
      (procs : ℤ) (order : List ℕ)
      → ((worker : ℕ) → worker < workers_for procs (length pairs) → Has 0 order worker)
      → AonAnswers (assign_aon g name weight ctx round procs order pairs reqs)
  unfolding assign_aon
  assign_aon-AonAnswers procs order complete =
      let count = workers_for procs (length pairs) in
      let some_count = workers_for_pos procs (length pairs) in
      reduce_lem count some_count order
        (run_workers g name weight ctx round pairs reqs count order (no_work (length pairs) count))
        complete
        (run_workers-Ran count some_count order (no_work (length pairs) count)
          (length-replicate (length pairs) no_route))
