-- ===== src/Graph/Connectivity/Warning.antt =====
-- engine/internal/graph/connectivity.go: warnIfNotWeaklyConnected, whose log line is a value here.
pub mod Tally
pub mod Silent
use convergent_routing_analy.Prelude.{
  ℕ, zero, suc, ◌-◌, List, [], ◌∷◌, ◌++◌, Option, none, some, length, take, ltb, leb, ◌==◌, ◌&&◌,
  ◌||◌, Bool, true, if◌then◌else◌,
}
use convergent_routing_analy.Float.{Float64, Float, of_nat, div}
use convergent_routing_analy.Graph.Connectivity.{
  Link, UnionFind, Found, new_union_find, find, after_find, union_all,
}

abbrev pub connectivity_cap_sample : ℕ
connectivity_cap_sample = 10

-- componentSize and lowestID at a root.
pub record Component : Type 0 where
  pub root : ℕ
  pub size : ℕ
  pub lowest : ℕ

abbrev pub bump : ℕ → Component → Component
bump node c = record {
  root = c.root;
  size = suc c.size;
  lowest = if ltb node c.lowest then node else c.lowest;
}

unfoldable pub tally : ℕ → ℕ → List Component → List Component
tally root node [] = record { root = root; size = 1; lowest = node } ∷ []
tally root node (c ∷ cs) =
    let rest = tally root node cs in if c.root == root then bump node c ∷ cs else c ∷ rest

-- The components so far, and the parents, whose paths each find halves.
pub record Tallied : Type 0 where
  pub uf : UnionFind
  pub components : List Component

-- The nodes from `node` on, `k` of them.
unfoldable pub tally_nodes : ℕ → ℕ → UnionFind → List Component → Tallied
unfolding tally
tally_nodes zero node uf cs = record { uf = uf; components = cs }
tally_nodes (suc k) node uf cs =
    let found = find uf node in
    tally_nodes k (suc node) (after_find uf found) (tally found.root node cs)

-- The larger; of two of one size, the one with the lower node.
abbrev pub is_larger : Component → Option Component → Bool
is_larger c none = true
is_larger c (some best) = ltb best.size c.size || (c.size == best.size && ltb c.lowest best.lowest)

unfoldable pub largest : List Component → Option Component → Option Component
largest [] best = best
largest (c ∷ cs) best = largest cs (if is_larger c best then some c else best)

unfoldable pub outside : ℕ → ℕ → ℕ → UnionFind → List ℕ
outside root zero node uf = []
outside root (suc k) node uf =
    let found = find uf node in
    let rest = outside root k (suc node) (after_find uf found) in
    if found.root == root then rest else node ∷ rest

module _ ⦃f : Float64⦄ where
  pub record Warning : Type 0 where
    pub components : ℕ
    pub largest_component_nodes : ℕ
    pub largest_component_fraction : Float
    pub unreachable_nodes : ℕ
    pub sample_unreachable_nodes : List ℕ

  unfoldable pub warning : ℕ → UnionFind → ℕ → Option Component → Option Warning
  unfolding outside
  warning n uf count none = none
  warning n uf count (some best) = some (record {
    components = count;
    largest_component_nodes = best.size;
    largest_component_fraction = div (of_nat best.size) (of_nat n);
    unreachable_nodes = n - best.size;
    sample_unreachable_nodes = take connectivity_cap_sample (outside best.root n 0 uf);
  })

  -- The Go map of the components is read in some order, which `order` gives.
  unfoldable pub warn_tallied : (List Component → List Component) → ℕ → Tallied → Option Warning
  unfolding largest warning
  warn_tallied order n t =
      if leb (length t.components) 1
      then none
      else warning n t.uf (length t.components) (largest (order t.components) none)

  unfoldable pub warn_if_not_weakly_connected :
      (List Component → List Component) → ℕ → List Link → Option Warning
  unfolding warn_tallied tally_nodes union_all new_union_find
  warn_if_not_weakly_connected order n links =
      if ltb n 2
      then none
      else warn_tallied order n (tally_nodes n 0 (union_all links (new_union_find n)) [])
