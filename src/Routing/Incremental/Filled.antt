-- ===== src/Routing/Incremental/Filled.antt =====
-- The slots that a batch fills, and what its round keeps of those before.
use convergent_routing_analy.Prelude.{
  ℕ, zero, suc, negsuc, ◌-◌, ◌/◌, ◌≤◌, ◌<◌, ◌≡◌, inl, inr, sym, ◌∙◌, ap, subst, ℤ, pos, List,
  length, get_or, take, replicate, ltb, Bool-cases, ltb→lt, arith,
}
use convergent_routing_analy.Float.{Float64, Float}
use convergent_routing_analy.Graph.{Graph}
use convergent_routing_analy.Cost.{Bpr}
use convergent_routing_analy.Routing.Requests.{
  Context, RouteRequest, Route, OdPair, new_flow_vector,
}
use convergent_routing_analy.Routing.SinglePass.Served.{Serves, AllServed}
use convergent_routing_analy.Routing.FanOut.{workers_for, no_request, no_route}
use convergent_routing_analy.Routing.Convergence.{weight_from_flows}
use convergent_routing_analy.Routing.Convergence.Ends.{Reached}
use convergent_routing_analy.Routing.Batches.{incremental_batches}
use convergent_routing_analy.Routing.Batches.Cover.{
  Covers, batch_bounds-Covers, Covers-first, Covers-next, Covers-within, Covers-last,
}
use convergent_routing_analy.Routing.Incremental.{
  slice, copy_range, no_range, incremental_name, bounds_of, range_at, incremental_step,
}
use convergent_routing_analy.Routing.Incremental.Loads.{Loads, Reached-Loads}
use convergent_routing_analy.Routing.Incremental.Slices.{
  length-slice, length-overwrite, slice_at, copy_range_old, copy_range_new, AllServed-length,
  AllServed-at,
}

module _ ⦃f : Float64⦄ where
  module _ (reqs : List RouteRequest) where
    pub count_batches : length (bounds_of reqs) ≡ 4
    count_batches = (batch_bounds-Covers (length reqs) incremental_batches).0

    covers : Covers (length reqs / 4) 0 (length reqs) (bounds_of reqs)
    covers = (batch_bounds-Covers (length reqs) incremental_batches).1

    pub range_first : (range_at reqs 1).lo ≡ 0
    range_first =
        Covers-first (length reqs / 4) 0 (length reqs) (bounds_of reqs) no_range
          (omega (arith, count_batches)) covers

    range_suc : (k : ℕ) → range_at reqs (suc k) ≡ get_or (bounds_of reqs) k no_range
    range_suc k = ap (λ z. get_or (bounds_of reqs) z no_range) {x = suc k - 1} {y = k} (omega arith)

    pub range_next : (k : ℕ) → k < 3 → (range_at reqs (suc (suc k))).lo ≡ (range_at reqs (suc k)).hi
    range_next k h =
        ap (λ r. r.lo) (range_suc (suc k))
        ∙ Covers-next (length reqs / 4) k 0 (length reqs) (bounds_of reqs) no_range
            (omega (arith, count_batches)) covers
        ∙ sym (ap (λ r. r.hi) (range_suc k))

    range_within :
        (k : ℕ)
        → k < 4
        → ((range_at reqs (suc k)).lo ≤ (range_at reqs (suc k)).hi)
          × ((range_at reqs (suc k)).hi ≤ length reqs)
    range_within k h =
        subst (λ r. (r.lo ≤ r.hi) × (r.hi ≤ length reqs)) (sym (range_suc k))
          (Covers-within (length reqs / 4) k 0 (length reqs) (bounds_of reqs) no_range
            (omega (arith, count_batches)) covers)

    pub range_last : (range_at reqs 4).hi ≡ length reqs
    range_last =
        Covers-last (length reqs / 4) 3 0 (length reqs) (bounds_of reqs) no_range count_batches
          covers

pub workers_for-le : (procs : ℤ) (m n : ℕ) → m ≤ n → workers_for procs m ≤ workers_for procs n
unfolding workers_for
workers_for-le procs zero zero h = omega arith
workers_for-le (pos zero) zero (suc n) h = omega arith
workers_for-le (pos (suc p)) zero (suc n) h = ground arith
workers_for-le (negsuc p) zero (suc n) h = omega arith
workers_for-le procs (suc m) zero h = absurd (omega arith)
workers_for-le (pos zero) (suc m) (suc n) h = omega arith
workers_for-le (pos (suc p)) (suc m) (suc n) h = ground arith
workers_for-le (negsuc p) (suc m) (suc n) h = omega arith

module _ ⦃f : Float64⦄ (g : Graph) (bpr : Bpr) (ctx : Context) (procs : ℤ) (order : ℕ → List ℕ)
    (reqs : List RouteRequest) (pairs : List OdPair) where
  -- The route of the request i is at least cost under the weights of the load that the batches
  -- before its own have left.
  pub record BatchServed (i : ℕ) (route : Route) : Type 0 where
    pub k : ℕ
    pub held : List Route
    pub load : List Float
    pub reached :
        Reached ctx
          (incremental_step g bpr ctx procs order pairs reqs)
          (replicate (length reqs) no_route)
          (new_flow_vector g)
          k
          held
          load
    pub loads : Loads g bpr ctx procs order reqs pairs k load
    pub from_lo : (range_at reqs (suc k)).lo ≤ i
    pub to_hi : i < (range_at reqs (suc k)).hi
    pub serves :
        Serves g incremental_name (weight_from_flows bpr load) (get_or reqs i no_request) route

  -- The routes have a slot for each request, and those before `stop` are served.
  abbrev pub Filled : ℕ → List Route → Type 0
  Filled stop m =
      (length m ≡ length reqs) × ((i : ℕ) → i < stop → BatchServed i (get_or m i no_route))

  pub Filled-copy_range :
      (k : ℕ) (m : List Route) (x : List Float) (routes : List Route)
      → k < 4
      → Reached ctx
          (incremental_step g bpr ctx procs order pairs reqs)
          (replicate (length reqs) no_route)
          (new_flow_vector g)
          k
          m
          x
      → Filled (range_at reqs (suc k)).lo m
      → AllServed g incremental_name
          (weight_from_flows bpr x)
          (slice (range_at reqs (suc k)) reqs)
          routes
      → Filled (range_at reqs (suc k)).hi (copy_range (range_at reqs (suc k)) routes m)
  Filled-copy_range k m x routes four reached (size, old) served =
      let r = range_at reqs (suc k) in
      let (ordered, fits) = range_within reqs k four in
      let count : length routes ≡ r.hi - r.lo =
        sym (
          AllServed-length g incremental_name (weight_from_flows bpr x) (slice r reqs) routes
            served)
        ∙ length-slice r reqs fits in
      let weight = weight_from_flows bpr x in
      let copied = copy_range r routes m in
      (
        length-overwrite r.lo (take (r.hi - r.lo) routes) m ∙ size,
        λ i h. elim (Bool-cases (ltb i r.lo)) [
          | inl before ↦
              let lt = ltb→lt i r.lo before in
              subst (BatchServed i) (sym (copy_range_old r m i no_route routes lt)) (old i lt)
          | inr within ↦
              let above : r.lo ≤ i = ground (arith, within) in
              record {
                k = k;
                held = m;
                load = x;
                reached = reached;
                loads = Reached-Loads g bpr ctx procs order reqs pairs reached;
                from_lo = above;
                to_hi = h;
                serves =
                    subst (λ q. Serves g incremental_name weight q (get_or copied i no_route))
                      (slice_at r reqs i no_request above h)
                      (subst
                        (Serves g incremental_name weight
                          (get_or (slice r reqs) (i - r.lo) no_request))
                        (sym (
                          copy_range_new r m i no_route routes count (omega (arith, size)) above h))
                        (AllServed-at g incremental_name weight (slice r reqs) routes (i - r.lo)
                          served (omega (arith, length-slice r reqs fits))));
              }
        ],
      )
