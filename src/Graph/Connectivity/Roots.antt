-- ===== src/Graph/Connectivity/Roots.antt =====
-- A walk up the parents ends at one root, which halving keeps.
use convergent_routing_analy.Prelude.{
  ℕ, zero, suc, ◌+◌, ◌≤◌, ◌<◌, ◌≡◌, ◌≢◌, refl, sym, ◌∙◌, ap, subst, inl, inr, List, [], ◌∷◌, length,
  set, length-set, get_or_out, get_or-set_self, get_or-set_other, ◌==◌, ltb, ltb→lt, true, false,
  Bool-cases, ==_iff, arith, ℕ_discrete,
}
use convergent_routing_analy.Graph.Connectivity.{
  parent_at, rank_at, Found, halve, find_from, sum, UnionFind, find,
}

pub data Root (p : List ℕ) : ℕ → ℕ → Type 0 where
  here : {r : ℕ} → parent_at p r ≡ r → Root p r r
  up : {x r : ℕ} → Root p (parent_at p x) r → Root p x r

pub Root_fixed : {p : List ℕ} {x r : ℕ} → parent_at p x ≡ x → Root p x r → r ≡ x
Root_fixed h (here e) = refl
Root_fixed {p} h (up d) = Root_fixed (ap (parent_at p) h) d ∙ h

pub Root_unique : {p : List ℕ} {x r s : ℕ} → Root p x r → Root p x s → r ≡ s
Root_unique (here e) d = sym (Root_fixed e d)
Root_unique (up c) (here e) = Root_fixed e (up c)
Root_unique (up c) (up d) = Root_unique c d

pub Root_top : {p : List ℕ} {x r : ℕ} → Root p x r → parent_at p r ≡ r
Root_top (here e) = e
Root_top (up d) = Root_top d

pub parent_at-set_self : (p : List ℕ) (x v : ℕ) → x < length p → parent_at (set p x v) x ≡ v
parent_at-set_self p x v h = get_or-set_self p x v x h

pub parent_at-set_other : (p : List ℕ) (x y v : ℕ) → x ≢ y → parent_at (set p x v) y ≡ parent_at p y
parent_at-set_other p x y v h = get_or-set_other p x y v y h

-- The parents are nodes, and a node's rank is below its parent's.
pub record Ranked (p rank : List ℕ) : Type 0 where
  pub same_length : length rank ≡ length p
  pub closed : (x : ℕ) → x < length p → parent_at p x < length p
  pub grows : (x : ℕ) → parent_at p x ≢ x → rank_at rank x < rank_at rank (parent_at p x)

pub Root-within :
    {p rank : List ℕ} {x r : ℕ} → Ranked p rank → x < length p → Root p x r → r < length p
Root-within ranked h (here e) = h
Root-within {x = x} ranked h (up d) = Root-within ranked (ranked.closed x h) d

pub true-ne-false : true ≢ false
true-ne-false h = cc

rank_at-le-sum : (rank : List ℕ) (x : ℕ) → rank_at rank x ≤ sum rank
unfolding sum
rank_at-le-sum [] x = omega arith
rank_at-le-sum (r ∷ rs) zero = omega arith
rank_at-le-sum (r ∷ rs) (suc x) = omega (arith, rank_at-le-sum rs x)

pub inner_length : (p : List ℕ) (x : ℕ) → parent_at p x ≢ x → x < length p
inner_length p x h = elim (Bool-cases (ltb x (length p))) [
  | inl within ↦ ltb→lt x (length p) within
  | inr out ↦ absurd (h (get_or_out p x x (ground (arith, out))))
]

-- A root exists, as the ranks grow on the way to it.
Root_exists :
    {p rank : List ℕ} (ranked : Ranked p rank) (k x : ℕ)
    → sum rank < k + rank_at rank x
    → (r : ℕ) × Root p x r
Root_exists {rank = rank} ranked zero x h = absurd (omega (arith, rank_at-le-sum rank x))
Root_exists {p = p} ranked (suc k) x h = elim (ℕ_discrete (parent_at p x) x) [
  | yes top ↦ (x, here top)
  | no inner ↦
      let (r, d) = Root_exists ranked k (parent_at p x) (omega (arith, ranked.grows x inner)) in
      (r, up d)
]

pub Root_total : {p rank : List ℕ} → Ranked p rank → (x : ℕ) → (r : ℕ) × Root p x r
Root_total {rank = rank} ranked x = Root_exists ranked (suc (sum rank)) x (omega arith)

module _ (p : List ℕ) (x : ℕ) (inner : parent_at p x ≢ x) where
  halve_self : parent_at (halve p x) x ≡ parent_at p (parent_at p x)
  halve_self = parent_at-set_self p x (parent_at p (parent_at p x)) (inner_length p x inner)

  halve_other : (y : ℕ) → x ≢ y → parent_at (halve p x) y ≡ parent_at p y
  halve_other y h = parent_at-set_other p x y (parent_at p (parent_at p x)) h

  halve_top : (r : ℕ) → parent_at p r ≡ r → Root (halve p x) r r
  halve_top r e =
      here (halve_other r (λ same. inner (subst (λ z. parent_at p z ≡ z) (sym same) e)) ∙ e)

  halve_at : (y : ℕ) → x ≡ y → parent_at (halve p x) y ≡ parent_at p (parent_at p y)
  halve_at y same =
      subst (λ z. parent_at (halve p x) z ≡ parent_at p (parent_at p z)) same halve_self

  pub Root-halve : {y r : ℕ} → Root p y r → Root (halve p x) y r
  Root-halve (here {r} e) = halve_top r e
  Root-halve (up {x = y} (here e)) = elim (ℕ_discrete x y) [
    | no apart ↦ up (
        subst (λ z. Root (halve p x) z (parent_at p y)) (sym (halve_other y apart))
          (halve_top (parent_at p y) e))
    | yes same ↦ up (
        subst (λ z. Root (halve p x) z (parent_at p y)) (sym (halve_at y same ∙ e))
          (halve_top (parent_at p y) e))
  ]
  Root-halve (up {x = y} {r = r} (up d)) = elim (ℕ_discrete x y) [
    | no apart ↦
        up (subst (λ z. Root (halve p x) z r) (sym (halve_other y apart)) (Root-halve (up d)))
    | yes same ↦ up (subst (λ z. Root (halve p x) z r) (sym (halve_at y same)) (Root-halve d))
  ]

  length-halve : length (halve p x) ≡ length p
  length-halve = length-set p x (parent_at p (parent_at p x))

  skip-grows :
      (rank : List ℕ) → Ranked p rank → rank_at rank x < rank_at rank (parent_at p (parent_at p x))
  skip-grows rank ranked = elim (ℕ_discrete (parent_at p (parent_at p x)) (parent_at p x)) [
    | yes top ↦ subst (λ z. rank_at rank x < rank_at rank z) (sym top) (ranked.grows x inner)
    | no deep ↦ omega (arith, ranked.grows x inner, ranked.grows (parent_at p x) deep)
  ]

  Ranked-halve : (rank : List ℕ) → Ranked p rank → Ranked (halve p x) rank
  Ranked-halve rank ranked = record {
    same_length = ranked.same_length ∙ sym length-halve;
    closed = λ y h.
        let within = subst (λ n. y < n) length-halve h in
        subst (λ n. parent_at (halve p x) y < n) (sym length-halve) (closed y within);
    grows = grows;
  }
    where
      closed : (y : ℕ) → y < length p → parent_at (halve p x) y < length p
      closed y h = elim (ℕ_discrete x y) [
        | no apart ↦ subst (λ z. z < length p) (sym (halve_other y apart)) (ranked.closed y h)
        | yes same ↦
            subst (λ z. z < length p) (sym (halve_at y same))
              (ranked.closed (parent_at p y) (ranked.closed y h))
      ]

      grows :
          (y : ℕ)
          → parent_at (halve p x) y ≢ y
          → rank_at rank y < rank_at rank (parent_at (halve p x) y)
      grows y h = elim (ℕ_discrete x y) [
        | no apart ↦
            subst (λ z. rank_at rank y < rank_at rank z) (sym (halve_other y apart))
              (ranked.grows y (λ e. h (halve_other y apart ∙ e)))
        | yes same ↦
            subst (λ z. rank_at rank z < rank_at rank (parent_at (halve p x) z)) same
              (subst (λ z. rank_at rank x < rank_at rank z) (sym halve_self)
                (skip-grows rank ranked))
      ]

-- What find leaves: the root of x, and parents under which every walk ends where it did.
pub record Finds (p rank : List ℕ) (x : ℕ) (found : Found) : Type 0 where
  pub root : Root p x found.root
  pub keeps : {y r : ℕ} → Root p y r → Root found.parent y r
  pub ranked : Ranked found.parent rank
  pub size : length found.parent ≡ length p

halve-Finds :
    (p rank : List ℕ) (x : ℕ) (inner : parent_at p x ≢ x) (found : Found)
    → Ranked p rank
    → Finds (halve p x) rank (parent_at (halve p x) x) found
    → Finds p rank x found
halve-Finds p rank x inner found ranked rest =
    let (r, d) = Root_total ranked x in
    let same = Root_unique (Root-halve p x inner d) (up rest.root) in
    record {
      root = subst (Root p x) same d;
      keeps = λ c. rest.keeps (Root-halve p x inner c);
      ranked = rest.ranked;
      size = rest.size ∙ length-halve p x inner;
    }

find_from-Finds :
    (k : ℕ) (p rank : List ℕ) (x : ℕ)
    → Ranked p rank
    → sum rank < k + rank_at rank x
    → Finds p rank x (find_from k p x)
unfolding find_from
find_from-Finds zero p rank x ranked h = absurd (omega (arith, rank_at-le-sum rank x))
find_from-Finds (suc k) p rank x ranked h = elim (Bool-cases (parent_at p x == x)) [
  | inl top ↦ rw top (record {
    root = here ((==_iff (parent_at p x) x).0 top);
    keeps = λ d. d;
    ranked = ranked;
    size = refl;
  })
  | inr below ↦
      let inner : parent_at p x ≢ x =
        λ e. absurd (true-ne-false (sym ((==_iff (parent_at p x) x).1 e) ∙ below)) in
      let more : sum rank < k + rank_at rank (parent_at (halve p x) x) =
        subst (λ z. sum rank < k + rank_at rank z) (sym (halve_self p x inner))
          (omega (arith, skip-grows p x inner rank ranked)) in
      rw below (
        halve-Finds p rank x inner (find_from k (halve p x) (parent_at (halve p x) x)) ranked (
          find_from-Finds k (halve p x) rank (parent_at (halve p x) x)
            (Ranked-halve p x inner rank ranked) more))
]

-- find ends within its fuel.
pub find-Finds :
    (uf : UnionFind) (x : ℕ) → Ranked uf.parent uf.rank → Finds uf.parent uf.rank x (find uf x)
unfolding find
find-Finds uf x ranked =
    find_from-Finds (suc (sum uf.rank)) uf.parent uf.rank x ranked (omega arith)
