-- ===== src/Graph/Connectivity/Joins.antt =====
-- A union makes the walks that ended at one root end at another.
use convergent_routing_analy.Prelude.{
  ℕ, ◌≤◌, ◌<◌, ◌≡◌, ◌≢◌, ◌⊎◌, refl, sym, ◌∙◌, ap, subst, inl, inr, List, length, set, length-set,
  ◌==◌, if◌then◌else◌, Bool-cases, ==_iff, arith, ℕ_discrete,
}
use convergent_routing_analy.Graph.Connectivity.{parent_at, rank_at}
use convergent_routing_analy.Graph.Connectivity.Roots.{
  Root, here, up, Root_fixed, Ranked, parent_at-set_self, parent_at-set_other,
}

module _ (p : List ℕ) (a b : ℕ) (within : a < length p) (top_a : parent_at p a ≡ a)
    (top_b : parent_at p b ≡ b) (apart : a ≢ b) where
  redirect_top : (r : ℕ) → a ≢ r → parent_at p r ≡ r → Root (set p a b) r r
  redirect_top r h e = here (parent_at-set_other p a r b h ∙ e)

  redirect_a : Root (set p a b) a b
  redirect_a = up (
      subst (λ z. Root (set p a b) z b) (sym (parent_at-set_self p a b within))
        (redirect_top b apart top_b))

  -- A walk that ended at a ends at b, and any other ends where it did.
  Root-redirect :
      {x r : ℕ} → Root p x r → ((r ≡ a) × Root (set p a b) x b) ⊎ ((a ≢ r) × Root (set p a b) x r)
  Root-redirect (here {r} e) = elim (ℕ_discrete a r) [
    | yes same ↦ inl (sym same, subst (λ z. Root (set p a b) z b) same redirect_a)
    | no other ↦ inr (other, redirect_top r other e)
  ]
  Root-redirect (up {x} {r} d) = elim (ℕ_discrete a x) [
    | yes same ↦ inl (
      Root_fixed (subst (λ z. parent_at p z ≡ z) same top_a) (up d) ∙ sym same,
      subst (λ z. Root (set p a b) z b) same redirect_a,
    )
    | no other ↦ elim (Root-redirect d) [
      | inl (ends, c) ↦
          inl (
            ends,
            up (subst (λ z. Root (set p a b) z b) (sym (parent_at-set_other p a x b other)) c),
          )
      | inr (ends, c) ↦
          inr (
            ends,
            up (subst (λ z. Root (set p a b) z r) (sym (parent_at-set_other p a x b other)) c),
          )
    ]
  ]

  -- The rank of b is above that of a, and no rank has shrunk below what a parent needs.
  pub Ranked-redirect :
      (rank rank' : List ℕ)
      → Ranked p rank
      → b < length p
      → length rank' ≡ length p
      → rank_at rank' a < rank_at rank' b
      → ((x : ℕ) → b ≢ x → rank_at rank' x ≡ rank_at rank x)
      → rank_at rank b ≤ rank_at rank' b
      → Ranked (set p a b) rank'
  Ranked-redirect rank rank' ranked within_b size above same more = record {
    same_length = size ∙ sym (length-set p a b);
    closed = λ x h.
        subst (λ n. parent_at (set p a b) x < n) (sym (length-set p a b))
          (closed x (subst (λ n. x < n) (length-set p a b) h));
    grows = grows;
  }
    where
      closed : (x : ℕ) → x < length p → parent_at (set p a b) x < length p
      closed x h = elim (ℕ_discrete a x) [
        | yes mine ↦
            subst (λ z. parent_at (set p a b) z < length p) mine
              (subst (λ z. z < length p) (sym (parent_at-set_self p a b within)) within_b)
        | no other ↦
            subst (λ z. z < length p) (sym (parent_at-set_other p a x b other)) (ranked.closed x h)
      ]

      at_least : (y : ℕ) → rank_at rank y ≤ rank_at rank' y
      at_least y = elim (ℕ_discrete b y) [
        | yes mine ↦ subst (λ z. rank_at rank z ≤ rank_at rank' z) mine more
        | no other ↦ omega (arith, same y other)
      ]

      grows :
          (x : ℕ)
          → parent_at (set p a b) x ≢ x
          → rank_at rank' x < rank_at rank' (parent_at (set p a b) x)
      grows x h = elim (ℕ_discrete a x) [
        | yes mine ↦
            subst (λ z. rank_at rank' z < rank_at rank' (parent_at (set p a b) z)) mine
              (subst (λ z. rank_at rank' a < rank_at rank' z)
                (sym (parent_at-set_self p a b within)) above)
        | no other ↦
            let inner : parent_at p x ≢ x = λ e. h (parent_at-set_other p a x b other ∙ e) in
            let not_b : b ≢ x = λ e. inner (subst (λ z. parent_at p z ≡ z) e top_b) in
            subst (λ z. rank_at rank' x < rank_at rank' z) (sym (parent_at-set_other p a x b other))
              (omega (arith, same x not_b, ranked.grows x inner, at_least (parent_at p x)))
      ]

-- Where the roots go: two of them to one of the two, and any other stays.
pub record Moves (p p' : List ℕ) (a b : ℕ) : Type 0 where
  pub to : ℕ → ℕ
  pub moves : {x r : ℕ} → Root p x r → Root p' x (to r)
  pub meets : to a ≡ to b
  pub near : (r : ℕ) → (to r ≡ r) ⊎ (((r ≡ a) × (to r ≡ b)) ⊎ ((r ≡ b) × (to r ≡ a)))

pub flip-Moves : {p p' : List ℕ} {a b : ℕ} → Moves p p' a b → Moves p p' b a
flip-Moves m = record {
  to = m.to;
  moves = m.moves;
  meets = sym m.meets;
  near = λ r. elim (m.near r) [
    | inl stays ↦ inl stays
    | inr (inl one) ↦ inr (inr one)
    | inr (inr other) ↦ inr (inl other)
  ];
}

pub Moves-redirect :
    (p : List ℕ) (a b : ℕ)
    → a < length p
    → parent_at p a ≡ a
    → parent_at p b ≡ b
    → a ≢ b
    → Moves p (set p a b) a b
Moves-redirect p a b within top_a top_b apart = record {
  to = to;
  moves = λ {x} {r} d. elim (Root-redirect p a b within top_a top_b apart d) [
    | inl (ends, c) ↦ subst (Root (set p a b) x) (sym (ap to ends ∙ to_a)) c
    | inr (other, c) ↦ subst (Root (set p a b) x) (sym (to_other r other)) c
  ];
  meets = to_a ∙ sym (to_other b apart);
  near = λ r. elim (ℕ_discrete a r) [
    | yes same ↦ inr (inl (sym same, ap to (sym same) ∙ to_a))
    | no other ↦ inl (to_other r other)
  ];
}
  where
    to : ℕ → ℕ
    to r = if a == r then b else r

    to_a : to a ≡ b
    to_a = ap (λ t. if t then b else a) ((==_iff a a).1 refl)

    to_other : (r : ℕ) → a ≢ r → to r ≡ r
    to_other r other = elim (Bool-cases (a == r)) [
      | inl same ↦ absurd (other ((==_iff a r).0 same))
      | inr apart ↦ ap (λ t. if t then b else r) apart
    ]
