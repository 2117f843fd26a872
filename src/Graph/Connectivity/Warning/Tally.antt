-- ===== src/Graph/Connectivity/Warning/Tally.antt =====
-- The tally has one component for each root of the nodes.
use convergent_routing_analy.Prelude.{
  ℕ, zero, suc, ◌+◌, ◌<◌, ◌≡◌, ◌⊎◌, refl, sym, ◌∙◌, subst, inl, inr, List, [], ◌∷◌, ◌==◌,
  Bool-cases, ==_iff, arith,
}
use convergent_routing_analy.Graph.Connectivity.{UnionFind, find, after_find}
use convergent_routing_analy.Graph.Connectivity.Roots.{
  Root, Root_unique, Root_total, Ranked, find-Finds, true-ne-false,
}
use convergent_routing_analy.Graph.Connectivity.Warning.{Component, tally, tally_nodes}

abbrev pub HasRoot : List Component → ℕ → Type 0
HasRoot [] r = ⊥
HasRoot (c ∷ cs) r = (c.root ≡ r) ⊎ HasRoot cs r

abbrev pub Distinct : List Component → Type 0
Distinct [] = Unit {0}
Distinct (c ∷ cs) = ¬ HasRoot cs c.root × Distinct cs

tally_self : (root node : ℕ) (cs : List Component) → HasRoot (tally root node cs) root
unfolding tally
tally_self root node [] = inl refl
tally_self root node (c ∷ cs) = elim (Bool-cases (c.root == root)) [
  | inl same ↦ rw same (inl ((==_iff c.root root).0 same))
  | inr other ↦ rw other (inr (tally_self root node cs))
]

tally_old : (root node r : ℕ) (cs : List Component) → HasRoot cs r → HasRoot (tally root node cs) r
unfolding tally
tally_old root node r [] h = absurd h
tally_old root node r (c ∷ cs) h = elim (Bool-cases (c.root == root)) [
  | inl same ↦ rw same h
  | inr other ↦
      rw other (elim h [ inl one ↦ inl one | inr more ↦ inr (tally_old root node r cs more) ])
]

tally_only :
    (root node r : ℕ) (cs : List Component)
    → HasRoot (tally root node cs) r
    → (root ≡ r) ⊎ HasRoot cs r
unfolding tally
tally_only root node r [] h = h
tally_only root node r (c ∷ cs) h = elim (Bool-cases (c.root == root)) [
  | inl same ↦ inr (rw same at h)
  | inr other ↦ elim (rw other at h) [
    | inl one ↦ inr (inl one)
    | inr more ↦ elim (tally_only root node r cs more) [
      | inl new ↦ inl new
      | inr old ↦ inr (inr old)
    ]
  ]
]

tally-Distinct : (root node : ℕ) (cs : List Component) → Distinct cs → Distinct (tally root node cs)
unfolding tally
tally-Distinct root node [] d = (λ h. h, tt)
tally-Distinct root node (c ∷ cs) (alone, d) = elim (Bool-cases (c.root == root)) [
  | inl same ↦ rw same (alone, d)
  | inr other ↦ rw other (
    λ h. elim (tally_only root node c.root cs h) [
      | inl new ↦ true-ne-false (sym ((==_iff c.root root).1 (sym new)) ∙ other)
      | inr old ↦ alone old
    ],
    tally-Distinct root node cs d,
  )
]

-- The roots of the nodes below `stop`, each once.
pub record Counts (p : List ℕ) (stop : ℕ) (cs : List Component) : Type 0 where
  pub covers : (x r : ℕ) → x < stop → Root p x r → HasRoot cs r
  pub only : (r : ℕ) → HasRoot cs r → (x : ℕ) × (x < stop) × Root p x r
  pub distinct : Distinct cs

tally-Counts :
    (p : List ℕ) (node root : ℕ) (cs : List Component)
    → Root p node root
    → Counts p node cs
    → Counts p (suc node) (tally root node cs)
tally-Counts p node root cs d counts = record {
  covers = λ x r h c. elim (Bool-cases (x == node)) [
    | inl last ↦
        let here = (==_iff x node).0 last in
        subst (HasRoot (tally root node cs)) (Root_unique d (subst (λ z. Root p z r) here c))
          (tally_self root node cs)
    | inr before ↦ tally_old root node r cs (counts.covers x r (ground (arith, before, h)) c)
  ];
  only = λ r h. elim (tally_only root node r cs h) [
    | inl new ↦ (node, omega arith, subst (Root p node) new d)
    | inr old ↦ let (x, lt, c) = counts.only r old in (x, omega (arith, lt), c)
  ];
  distinct = tally-Distinct root node cs counts.distinct;
}

pub tally_nodes-Counts :
    (p rank : List ℕ) (k node : ℕ) (uf : UnionFind) (cs : List Component)
    → Ranked p rank
    → Ranked uf.parent uf.rank
    → ((x r : ℕ) → Root p x r → Root uf.parent x r)
    → Counts p node cs
    → Counts p (node + k) (tally_nodes k node uf cs).components
unfolding tally_nodes
tally_nodes-Counts p rank zero node uf cs ranked ranked' keeps counts =
    subst (λ n. Counts p n cs) {x = node} {y = node + 0} (omega arith) counts
tally_nodes-Counts p rank (suc k) node uf cs ranked ranked' keeps counts =
    let found = find uf node in
    let f = find-Finds uf node ranked' in
    let (r, d) = Root_total ranked node in
    let root = subst (Root p node) (Root_unique (keeps node r d) f.root) d in
    subst (λ n. Counts p n (tally_nodes (suc k) node uf cs).components) {x = suc node + k}
      {y = node + suc k} (omega arith)
      (tally_nodes-Counts p rank k (suc node) (after_find uf found) (tally found.root node cs)
        ranked f.ranked (λ x s c. f.keeps (keeps x s c))
        (tally-Counts p node found.root cs root counts))
