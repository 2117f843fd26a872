-- ===== src/Graph/Connectivity/Warning/Silent.antt =====
-- The warning is given exactly for a graph that is not connected.
use convergent_routing_analy.Prelude.{
  ℕ, ◌+◌, ◌≤◌, ◌<◌, ◌≡◌, ◌≢◌, ◌↔◌, refl, sym, ◌∙◌, ap, subst, inl, inr, List, [], ◌∷◌, length,
  Option, none, some, ltb, leb, ltb→lt, leb→le, if◌then◌else◌, Bool-cases, arith,
}
use convergent_routing_analy.Float.{Float64}
use convergent_routing_analy.Graph.Connectivity.{Link, UnionFind, new_union_find, union_all}
use convergent_routing_analy.Graph.Connectivity.Roots.{Root, Root_unique, Root_total}
use convergent_routing_analy.Graph.Connectivity.Classes.{
  Connected, same_node, LinksWithin, Classes, union_all-Classes,
}
use convergent_routing_analy.Graph.Connectivity.Warning.{
  Component, is_larger, Tallied, tally_nodes, largest, warning, warn_tallied,
  warn_if_not_weakly_connected,
}
use convergent_routing_analy.Graph.Connectivity.Warning.Tally.{
  HasRoot, Distinct, Counts, tally_nodes-Counts,
}

largest-some :
    (cs : List Component) (b : Component) → (c : Component) × (largest cs (some b) ≡ some c)
unfolding largest
largest-some [] b = (b, refl)
largest-some (c ∷ cs) b = elim (Bool-cases (is_larger c (some b))) [
  | inl more ↦
      let (d, e) = largest-some cs c in
      (d, ap (λ t. largest cs (if t then some c else some b)) more ∙ e)
  | inr less ↦
      let (d, e) = largest-some cs b in
      (d, ap (λ t. largest cs (if t then some c else some b)) less ∙ e)
]

some-ne-none : {c : Component} → some c ≢ none
some-ne-none h = cc

largest-ne_none : (cs : List Component) → cs ≢ [] → largest cs none ≢ none
unfolding largest
largest-ne_none [] h = absurd (h refl)
largest-ne_none (c ∷ cs) h = λ e. let (d, e') = largest-some cs c in some-ne-none (sym e' ∙ e)

module _ ⦃f : Float64⦄ where
  warning-ne_none :
      (n : ℕ) (uf : UnionFind) (count : ℕ) (o : Option Component)
      → o ≢ none
      → warning n uf count o ≢ none
  unfolding warning
  warning-ne_none n uf count none h = absurd (h refl)
  warning-ne_none n uf count (some c) h = λ e. cc

many-ne_nil : (cs : List Component) → 1 < length cs → cs ≢ []
many-ne_nil [] more e = absurd (omega arith)
many-ne_nil (c ∷ cs) more e = cc

one_root : (cs : List Component) (r s : ℕ) → length cs ≤ 1 → HasRoot cs r → HasRoot cs s → r ≡ s
one_root [] r s h a b = absurd a
one_root (c ∷ []) r s h (inl a) (inl b) = sym a ∙ b
one_root (c ∷ []) r s h (inl a) (inr b) = absurd b
one_root (c ∷ []) r s h (inr a) b = absurd a
one_root (c ∷ d ∷ cs) r s h a b = absurd (omega arith)

-- If all the roots are one, so is the component.
one_component :
    (cs : List Component)
    → Distinct cs
    → ((r s : ℕ) → HasRoot cs r → HasRoot cs s → r ≡ s)
    → length cs ≤ 1
one_component [] d h = omega arith
one_component (c ∷ []) d h = omega arith
one_component (c ∷ b ∷ cs) (alone, d) h =
    absurd (alone (inl (h b.root c.root (inr (inl refl)) (inl refl))))

few_nodes : (links : List Link) (n : ℕ) → n < 2 → (x y : ℕ) → x < n → y < n → Connected links x y
few_nodes links n h x y hx hy = subst (Connected links x) {x = x} {y = y} (omega arith) same_node

module _ ⦃f : Float64⦄ (order : List Component → List Component)
    (visits : (cs : List Component) → length (order cs) ≡ length cs) (n : ℕ) (links : List Link)
    (uf : UnionFind) (c : Classes n links uf) (t : Tallied)
    (counts : Counts uf.parent n t.components) where
  silent-Connected : length t.components ≤ 1 → (x y : ℕ) → x < n → y < n → Connected links x y
  silent-Connected h x y hx hy =
      let (r, d) = Root_total c.ranked x in
      let (s, e) = Root_total c.ranked y in
      let same = one_root t.components r s h (counts.covers x r hx d) (counts.covers y s hy e) in
      (c.classes x y).0 (r, d, subst (Root uf.parent y) (sym same) e)

  Connected-silent : ((x y : ℕ) → x < n → y < n → Connected links x y) → length t.components ≤ 1
  Connected-silent all = one_component t.components counts.distinct (λ r s hr hs.
      let (x, hx, d) = counts.only r hr in
      let (y, hy, e) = counts.only s hs in
      let (z, d', e') = (c.classes x y).1 (all x y hx hy) in Root_unique d d' ∙ Root_unique e' e)

  warn_tallied_iff :
      (warn_tallied order n t ≡ none) ↔ ((x y : ℕ) → x < n → y < n → Connected links x y)
  unfolding warn_tallied
  warn_tallied_iff = elim (Bool-cases (leb (length t.components) 1)) [
    | inl few ↦ rw few (λ h. silent-Connected (leb→le (length t.components) 1 few), λ all. refl)
    | inr many ↦
        let more : 1 < length t.components = ground (arith, many) in
        rw many (
          λ h. absurd (
              warning-ne_none n t.uf (length t.components) (largest (order t.components) none)
                (largest-ne_none (order t.components)
                  (many-ne_nil (order t.components) (omega (arith, more, visits t.components))))
                h),
          λ all. let few = Connected-silent all in absurd (omega (arith, few, more)),
        )
  ]

module _ ⦃f : Float64⦄ where
  -- For edges whose ends are among the nodes, and any order in which the map of the components is
  -- read, if each of them is read once: the warning is left out exactly if any two nodes are connected
  -- by a chain of edges in either direction.
  pub warn_if_not_weakly_connected_iff :
      (order : List Component → List Component)
      → ((cs : List Component) → length (order cs) ≡ length cs)
      → (n : ℕ) (links : List Link) → LinksWithin n links
      → (warn_if_not_weakly_connected order n links ≡ none)
        ↔ ((x y : ℕ) → x < n → y < n → Connected links x y)
  unfolding warn_if_not_weakly_connected
  warn_if_not_weakly_connected_iff order visits n links within = elim (Bool-cases (ltb n 2)) [
    | inl small ↦ rw small (λ h. few_nodes links n (ltb→lt n 2 small), λ all. refl)
    | inr big ↦
        let uf = union_all links (new_union_find n) in
        let c = union_all-Classes n links within in
        rw big (
          warn_tallied_iff order visits n links uf c (tally_nodes n 0 uf []) (
            subst (λ k. Counts uf.parent k (tally_nodes n 0 uf []).components) {x = 0 + n} {y = n}
              (omega arith)
              (tally_nodes-Counts uf.parent uf.rank n 0 uf [] c.ranked c.ranked (λ x r d. d)
                (record {
                  covers = λ x r h. absurd (omega (arith, h));
                  only = λ r h. absurd h;
                  distinct = tt;
                }))))
  ]
