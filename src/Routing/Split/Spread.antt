-- ===== src/Routing/Split/Spread.antt =====
-- What a split of the requests over the paths of their pairs is.
use convergent_routing_analy.Prelude.{
  length-map, ℕ, suc, ◌+◌, ◌<◌, ◌≡◌, ◌∙◌, List, [], ◌∷◌, some, length, length-replicate, ◌&&◌, ◌==◌,
  if◌then◌else◌, Bool-cases, inl, inr, ◌||◌,
}
use convergent_routing_analy.Float.{Float64, Float, of_nat, le}
use convergent_routing_analy.Graph.{Graph}
use convergent_routing_analy.Routing.Requests.{RouteRequest, Route}
use convergent_routing_analy.Routing.Multipath.{
  KPath, raw_weights, sum_from, all_zero, proportional_split, draw_path,
}
use convergent_routing_analy.Routing.Multipath.Ordered.{length-raw_weights}
use convergent_routing_analy.Routing.Split.{OdEntry, OdKPaths, od_k_paths, route_along}
use convergent_routing_analy.Routing.Split.Drawn.{entry_at}

-- How many requests drew the path j of the slot t.
abbrev pub uses : ℕ → ℕ → List ℕ → List ℕ → ℕ
uses t j [] chosen = 0
uses t j (s ∷ slots) [] = 0
uses t j (s ∷ slots) (c ∷ chosen) = (if s == t && c == j then 1 else 0) + uses t j slots chosen

abbrev pub slot_uses : ℕ → List ℕ → ℕ
slot_uses t [] = 0
slot_uses t (s ∷ slots) = (if s == t then 1 else 0) + slot_uses t slots

module _ ⦃f : Float64⦄ where
  pub length-proportional_split :
      (paths : List KPath) → length (proportional_split paths) ≡ length paths
  unfolding proportional_split
  length-proportional_split paths =
      elim (Bool-cases
        (all_zero paths || le (sum_from (of_nat 0) (raw_weights paths)) (of_nat 0))) [
          | inl uniform ↦ rw uniform (length-replicate (length paths) _)
          | inr weighed ↦ rw weighed (length-map _ (raw_weights paths) ∙ length-raw_weights paths)
        ]

  -- The route of the request is the path `choice` of the pair in the slot, which joins its nearest
  -- nodes, and u draws it.
  pub record Draws (g : Graph) (n : ℕ) (od : ℕ → OdKPaths) (u : Float) (req : RouteRequest)
      (route : Route) (slot choice : ℕ) : Type 0 where
    pub in_ods : slot < n
    pub origin : g.nearest_node req.from ≡ some (od slot).src
    pub destination : g.nearest_node req.to ≡ some (od slot).dst
    pub in_paths : choice < length (od slot).paths
    pub drawn : choice ≡ draw_path (proportional_split (od slot).paths) u
    pub along : route ≡ route_along req (od slot).paths choice

  -- So for each request in order, with the numbers from the index on.
  pub data AllDrawn (g : Graph) (n : ℕ) (od : ℕ → OdKPaths) (draw : ℕ → Float)
      : ℕ → List RouteRequest → List Route → List ℕ → List ℕ → Type 0 where
    none_drawn : {i : ℕ} → AllDrawn g n od draw i [] [] [] []
    one_drawn :
        {i : ℕ} {req : RouteRequest} {reqs : List RouteRequest} {route : Route}
        {routes : List Route} {slot : ℕ} {slots : List ℕ} {choice : ℕ} {chosen : List ℕ}
        → Draws g n od (draw i) req route slot choice
        → AllDrawn g n od draw (suc i) reqs routes slots chosen
        → AllDrawn g n od draw i (req ∷ reqs) (route ∷ routes) (slot ∷ slots) (choice ∷ chosen)

  abbrev pub od_of : List OdEntry → ℕ → OdKPaths
  od_of es t = od_k_paths (entry_at es t)
