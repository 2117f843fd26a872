-- ===== src/Graph/Connectivity/Unions.antt =====
-- What union leaves.
use convergent_routing_analy.Prelude.{
  get_or-set_self, get_or-set_other, ℕ, ◌+◌, ◌≤◌, ◌<◌, ◌≡◌, ◌≢◌, refl, sym, ◌∙◌, subst, inl, inr,
  List, length, set, length-set, ◌==◌, ltb, ltb→lt, Bool-cases, ==_iff, arith,
}
use convergent_routing_analy.Graph.Connectivity.{
  parent_at, rank_at, Found, UnionFind, find, join_roots, after_find, union,
}
use convergent_routing_analy.Graph.Connectivity.Roots.{
  Root, Root-within, Root_unique, Root_top, Root_total, Ranked, Finds, find-Finds, true-ne-false,
}
use convergent_routing_analy.Graph.Connectivity.Joins.{
  Moves, flip-Moves, Moves-redirect, Ranked-redirect,
}

pub record Joined (p : List ℕ) (a b : ℕ) (uf : UnionFind) : Type 0 where
  pub moves : Moves p uf.parent a b
  pub ranked : Ranked uf.parent uf.rank
  pub size : length uf.parent ≡ length p

module _ (p rank : List ℕ) (a b : ℕ) (ranked : Ranked p rank) (in_a : a < length p)
    (in_b : b < length p) (top_a : parent_at p a ≡ a) (top_b : parent_at p b ≡ b) where
  same_roots : a ≡ b → Joined p a b (record { parent = p; rank = rank })
  same_roots same = record {
    moves = record { to = λ r. r; moves = λ d. d; meets = same; near = λ r. inl refl };
    ranked = ranked;
    size = refl;
  }

  below_roots :
      a ≢ b
      → rank_at rank a < rank_at rank b
      → Joined p a b (record { parent = set p a b; rank = rank })
  below_roots apart lt = record {
    moves = Moves-redirect p a b in_a top_a top_b apart;
    ranked =
        Ranked-redirect p a b in_a top_a top_b apart rank rank ranked in_b ranked.same_length lt
          (λ x h. refl) (omega arith);
    size = length-set p a b;
  }

  above_roots :
      a ≢ b
      → rank_at rank b < rank_at rank a
      → Joined p a b (record { parent = set p b a; rank = rank })
  above_roots apart lt = record {
    moves = flip-Moves (Moves-redirect p b a in_b top_b top_a (λ e. apart (sym e)));
    ranked =
        Ranked-redirect p b a in_b top_b top_a (λ e. apart (sym e)) rank rank ranked in_a
          ranked.same_length lt (λ x h. refl) (omega arith);
    size = length-set p b a;
  }

  level_roots :
      a ≢ b
      → rank_at rank b ≤ rank_at rank a
      → Joined p a b (record { parent = set p b a; rank = set rank a (rank_at rank a + 1) })
  level_roots apart le =
      let raised : rank_at (set rank a (rank_at rank a + 1)) a ≡ rank_at rank a + 1 =
        get_or-set_self rank a (rank_at rank a + 1) 0 (omega (arith, ranked.same_length)) in
      let kept : rank_at (set rank a (rank_at rank a + 1)) b ≡ rank_at rank b =
        get_or-set_other rank a b (rank_at rank a + 1) 0 apart in
      record {
        moves = flip-Moves (Moves-redirect p b a in_b top_b top_a (λ e. apart (sym e)));
        ranked =
            Ranked-redirect p b a in_b top_b top_a (λ e. apart (sym e)) rank
              (set rank a (rank_at rank a + 1)) ranked in_a
              (length-set rank a (rank_at rank a + 1) ∙ ranked.same_length)
              (omega (arith, raised, kept))
              (λ x h. get_or-set_other rank a x (rank_at rank a + 1) 0 h) (omega (arith, raised));
        size = length-set p b a;
      }

  join_roots-Joined : Joined p a b (join_roots p rank a b)
  unfolding join_roots
  join_roots-Joined = elim (Bool-cases (a == b)) [
    | inl same ↦ rw same (same_roots ((==_iff a b).0 same))
    | inr other ↦
        let apart : a ≢ b = λ e. true-ne-false (sym ((==_iff a b).1 e) ∙ other) in
        elim (Bool-cases (ltb (rank_at rank a) (rank_at rank b))) [
          | inl below ↦ rw (other, below) (below_roots apart (ltb→lt _ _ below))
          | inr not_below ↦ elim (Bool-cases (ltb (rank_at rank b) (rank_at rank a))) [
            | inl above ↦ rw (other, not_below, above) (above_roots apart (ltb→lt _ _ above))
            | inr level ↦
                rw (other, not_below, level) (level_roots apart (ground (arith, not_below)))
          ]
        ]
  ]

-- The roots of the two nodes, and how the roots move.
pub record Unites (uf : UnionFind) (x y : ℕ) (uf' : UnionFind) : Type 0 where
  pub a : ℕ
  pub b : ℕ
  pub root_x : Root uf.parent x a
  pub root_y : Root uf.parent y b
  pub moves : Moves uf.parent uf'.parent a b
  pub ranked : Ranked uf'.parent uf'.rank
  pub size : length uf'.parent ≡ length uf.parent

join_roots-Unites :
    (uf : UnionFind) (x y : ℕ) (in_x in_y : Found)
    → Ranked uf.parent uf.rank
    → x < length uf.parent
    → y < length uf.parent
    → Finds uf.parent uf.rank x in_x
    → Finds in_x.parent uf.rank y in_y
    → Unites uf x y (join_roots in_y.parent uf.rank in_x.root in_y.root)
join_roots-Unites uf x y in_x in_y ranked hx hy fx fy =
    let (s, d) = Root_total ranked y in
    let root_y = subst (Root uf.parent y) (Root_unique (fx.keeps d) fy.root) d in
    let size = fy.size ∙ fx.size in
    let joined =
      join_roots-Joined in_y.parent uf.rank in_x.root in_y.root fy.ranked
        (subst (λ n. in_x.root < n) (sym size) (Root-within ranked hx fx.root))
        (subst (λ n. in_y.root < n) (sym size) (Root-within ranked hy root_y))
        (Root_top (fy.keeps (fx.keeps fx.root))) (Root_top (fy.keeps (fx.keeps root_y))) in
    record {
      a = in_x.root;
      b = in_y.root;
      root_x = fx.root;
      root_y = root_y;
      moves = record {
        to = joined.moves.to;
        moves = λ c. joined.moves.moves (fy.keeps (fx.keeps c));
        meets = joined.moves.meets;
        near = joined.moves.near;
      };
      ranked = joined.ranked;
      size = joined.size ∙ size;
    }

pub union-Unites :
    (uf : UnionFind) (x y : ℕ)
    → Ranked uf.parent uf.rank
    → x < length uf.parent
    → y < length uf.parent
    → Unites uf x y (union uf x y)
unfolding union
union-Unites uf x y ranked hx hy =
    let fx = find-Finds uf x ranked in
    join_roots-Unites uf x y (find uf x) (find (after_find uf (find uf x)) y) ranked hx hy fx
      (find-Finds (after_find uf (find uf x)) y fx.ranked)
