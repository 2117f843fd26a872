-- ===== src/Graph/Connectivity.antt =====
-- engine/internal/graph/connectivity.go: the union-find behind the connectivity warning.
pub mod Roots
pub mod Joins
pub mod Unions
pub mod Classes
pub mod Warning
use convergent_routing_analy.Prelude.{
  ℕ, zero, suc, ◌+◌, List, [], ◌∷◌, get_or, set, replicate, ltb, ◌==◌, if◌then◌else◌,
}

-- The dense ids of the nodes at the ends of an edge, whose direction does not count.
pub record Link : Type 0 where
  pub from : ℕ
  pub to : ℕ

pub record UnionFind : Type 0 where
  pub parent : List ℕ
  pub rank : List ℕ

-- 0, 1, … , `k` of them from i on.
unfoldable pub count_up : ℕ → ℕ → List ℕ
count_up zero i = []
count_up (suc k) i = i ∷ count_up k (suc i)

unfoldable pub new_union_find : ℕ → UnionFind
unfolding count_up
new_union_find n = record { parent = count_up n 0; rank = replicate n 0 }

-- parent[x]; an index out of range does not occur.
abbrev pub parent_at : List ℕ → ℕ → ℕ
parent_at parent x = get_or parent x x

abbrev pub rank_at : List ℕ → ℕ → ℕ
rank_at rank x = get_or rank x 0

-- A root, and the parents with the path to it halved.
pub record Found : Type 0 where
  pub root : ℕ
  pub parent : List ℕ

abbrev pub halve : List ℕ → ℕ → List ℕ
halve parent x = set parent x (parent_at parent (parent_at parent x))

unfoldable pub find_from : ℕ → List ℕ → ℕ → Found
find_from zero parent x = record { root = x; parent = parent }
find_from (suc k) parent x =
    let halved = halve parent x in
    let rest = find_from k halved (parent_at halved x) in
    if parent_at parent x == x then record { root = x; parent = parent } else rest

unfoldable pub sum : List ℕ → ℕ
sum [] = 0
sum (x ∷ xs) = x + sum xs

-- The rank grows on the way to the root, so a round more than the sum of the ranks is enough.
unfoldable pub find : UnionFind → ℕ → Found
unfolding find_from sum
find uf x = find_from (suc (sum uf.rank)) uf.parent x

unfoldable pub join_roots : List ℕ → List ℕ → ℕ → ℕ → UnionFind
join_roots parent rank root_a root_b =
    if root_a == root_b
    then record { parent = parent; rank = rank }
    else if ltb (rank_at rank root_a) (rank_at rank root_b)
    then record { parent = set parent root_a root_b; rank = rank }
    else if ltb (rank_at rank root_b) (rank_at rank root_a)
    then record { parent = set parent root_b root_a; rank = rank }
    else record {
      parent = set parent root_b root_a;
      rank = set rank root_a (rank_at rank root_a + 1);
    }

abbrev pub after_find : UnionFind → Found → UnionFind
after_find uf found = record { parent = found.parent; rank = uf.rank }

unfoldable pub union : UnionFind → ℕ → ℕ → UnionFind
unfolding find join_roots
union uf a b =
    let in_a = find uf a in
    let in_b = find (after_find uf in_a) b in join_roots in_b.parent uf.rank in_a.root in_b.root

unfoldable pub union_all : List Link → UnionFind → UnionFind
unfolding union
union_all [] uf = uf
union_all (link ∷ links) uf = union_all links (union uf link.from link.to)
