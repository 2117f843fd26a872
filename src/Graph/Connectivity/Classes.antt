-- ===== src/Graph/Connectivity/Classes.antt =====
-- After the unions two nodes have one root exactly if a chain of edges connects them.
use convergent_routing_analy.Prelude.{
  get_or_out, ℕ, zero, suc, ◌+◌, ◌<◌, ◌≤◌, ◌≡◌, false, ltb, ltb→lt, Bool-cases, ◌↔◌, refl, sym, ◌∙◌,
  ap, subst, inl, inr, List, [], ◌∷◌, length, get_or, replicate, length-replicate, arith,
}
use convergent_routing_analy.Graph.Connectivity.{
  Link, UnionFind, count_up, new_union_find, parent_at, union, union_all,
}
use convergent_routing_analy.Graph.Connectivity.Roots.{
  Root, Root_fixed, Root_unique, Root_total, Ranked,
}
use convergent_routing_analy.Graph.Connectivity.Joins.{Moves}
use convergent_routing_analy.Graph.Connectivity.Unions.{Unites, union-Unites}

pub data Among (link : Link) : List Link → Type 0 where
  first : {links : List Link} → Among link (link ∷ links)
  later : {other : Link} {links : List Link} → Among link links → Among link (other ∷ links)

-- A chain of edges, in either direction.
pub data Connected (links : List Link) : ℕ → ℕ → Type 0 where
  same_node : {x : ℕ} → Connected links x x
  by_edge : (link : Link) → Among link links → Connected links link.from link.to
  back : {x y : ℕ} → Connected links x y → Connected links y x
  chain : {x y z : ℕ} → Connected links x y → Connected links y z → Connected links x z

-- The ends of every edge are among the nodes.
abbrev pub LinksWithin : ℕ → List Link → Type 0
LinksWithin n [] = Unit {0}
LinksWithin n (link ∷ links) = (link.from < n) × (link.to < n) × LinksWithin n links

abbrev pub SameRoot : List ℕ → ℕ → ℕ → Type 0
SameRoot p x y = (r : ℕ) × Root p x r × Root p y r

-- The walks end only at connected nodes.
abbrev Sound : List Link → List ℕ → Type 0
Sound links p = (x r : ℕ) → Root p x r → Connected links x r

Sound-union :
    (links : List Link) (link : Link) (uf uf' : UnionFind)
    → Among link links
    → Ranked uf.parent uf.rank
    → Unites uf link.from link.to uf'
    → Sound links uf.parent
    → Sound links uf'.parent
Sound-union links link uf uf' among ranked u sound x s d =
    let (r, c) = Root_total ranked x in
    let ends : u.moves.to r ≡ s = Root_unique (u.moves.moves c) d in
    subst (Connected links x) ends (elim (u.moves.near r) [
      | inl stays ↦ subst (Connected links x) (sym stays) (sound x r c)
      | inr (inl (one, other)) ↦ subst (Connected links x) (sym other) (
          chain (sound x u.a (subst (Root uf.parent x) one c)) (
            chain (back (sound link.from u.a u.root_x))
              (chain (by_edge link among) (sound link.to u.b u.root_y))))
      | inr (inr (one, other)) ↦ subst (Connected links x) (sym other) (
          chain (sound x u.b (subst (Root uf.parent x) one c)) (
            chain (back (sound link.to u.b u.root_y))
              (chain (back (by_edge link among)) (sound link.from u.a u.root_x))))
    ])

SameRoot-Moves : {p p' : List ℕ} {a b x y : ℕ} → Moves p p' a b → SameRoot p x y → SameRoot p' x y
SameRoot-Moves m (r, c, d) = (m.to r, m.moves c, m.moves d)

-- What holds after the unions of the rest.
record Unions (links rest : List Link) (uf uf' : UnionFind) : Type 0 where
  pub ranked : Ranked uf'.parent uf'.rank
  pub size : length uf'.parent ≡ length uf.parent
  pub sound : Sound links uf'.parent
  pub keeps : {x y : ℕ} → SameRoot uf.parent x y → SameRoot uf'.parent x y
  pub linked : (link : Link) → Among link rest → SameRoot uf'.parent link.from link.to

linked_first :
    (link : Link) (uf uf' : UnionFind)
    → Unites uf link.from link.to uf'
    → SameRoot uf'.parent link.from link.to
linked_first link uf uf' u = (
  u.moves.to u.a,
  u.moves.moves u.root_x,
  subst (Root uf'.parent link.to) (sym u.moves.meets) (u.moves.moves u.root_y),
)

Among_cases :
    (P : Link → Type 0) {e : Link} {rest : List Link}
    → P e
    → ((link : Link) → Among link rest → P link)
    → (link : Link) → Among link (e ∷ rest)
    → P link
Among_cases P p h link first = p
Among_cases P p h link (later a) = h link a

not_ltb : (a b : ℕ) → ltb a b ≡ false → b ≤ a
not_ltb a b h = ground arith

union_all-Unions :
    (links rest : List Link) (uf : UnionFind)
    → ((link : Link) → Among link rest → Among link links)
    → LinksWithin (length uf.parent) rest
    → Ranked uf.parent uf.rank
    → Sound links uf.parent
    → Unions links rest uf (union_all rest uf)
unfolding union_all
union_all-Unions links [] uf sub within ranked sound = record {
  ranked = ranked;
  size = refl;
  sound = sound;
  keeps = λ s. s;
  linked = λ link a. elim a [ ];
}
union_all-Unions links (e ∷ rest) uf sub (hx, hy, within) ranked sound =
    let u = union-Unites uf e.from e.to ranked hx hy in
    let uf' = union uf e.from e.to in
    let more =
      union_all-Unions links rest uf' (λ link a. sub link (later a))
        (subst (λ n. LinksWithin n rest) (sym u.size) within) u.ranked
        (Sound-union links e uf uf' (sub e first) ranked u sound) in
    record {
      ranked = more.ranked;
      size = more.size ∙ u.size;
      sound = more.sound;
      keeps = λ s. more.keeps (SameRoot-Moves u.moves s);
      linked =
          Among_cases (λ link. SameRoot (union_all rest uf').parent link.from link.to)
            (more.keeps (linked_first e uf uf' u)) more.linked;
    }

get_or-count_up : (k i x d : ℕ) → x < k → get_or (count_up k i) x d ≡ i + x
unfolding count_up
get_or-count_up zero i x d h = absurd (omega arith)
get_or-count_up (suc k) i zero d h = omega arith
get_or-count_up (suc k) i (suc x) d h = omega (arith, get_or-count_up k (suc i) x d (omega arith))

length-count_up : (k i : ℕ) → length (count_up k i) ≡ k
unfolding count_up
length-count_up zero i = refl
length-count_up (suc k) i = ap suc (length-count_up k (suc i))

-- At first every node is its own parent.
parent_at-new : (n x : ℕ) → parent_at (count_up n 0) x ≡ x
parent_at-new n x = elim (Bool-cases (ltb x n)) [
  | inl within ↦ omega (arith, get_or-count_up n 0 x x (ltb→lt x n within))
  | inr out ↦ get_or_out (count_up n 0) x x (omega (arith, length-count_up n 0, not_ltb x n out))
]

new-Ranked : (n : ℕ) → Ranked (count_up n 0) (replicate n 0)
new-Ranked n = record {
  same_length = length-replicate n 0 ∙ sym (length-count_up n 0);
  closed = λ x h. subst (λ z. z < length (count_up n 0)) (sym (parent_at-new n x)) h;
  grows = λ x h. absurd (h (parent_at-new n x));
}

new-Sound : (links : List Link) (n : ℕ) → Sound links (count_up n 0)
new-Sound links n x r d =
    subst (Connected links x) (sym (Root_fixed (parent_at-new n x) d)) same_node

-- The union-find of a graph keeps its ranks and has the nodes' classes.
pub record Classes (n : ℕ) (links : List Link) (uf : UnionFind) : Type 0 where
  pub ranked : Ranked uf.parent uf.rank
  pub size : length uf.parent ≡ n
  pub classes : (x y : ℕ) → SameRoot uf.parent x y ↔ Connected links x y

Connected-SameRoot :
    {links : List Link} {p rank : List ℕ}
    → Ranked p rank
    → ((link : Link) → Among link links → SameRoot p link.from link.to)
    → {x y : ℕ} → Connected links x y
    → SameRoot p x y
Connected-SameRoot ranked linked (same_node {x}) = let (r, d) = Root_total ranked x in (r, d, d)
Connected-SameRoot ranked linked (by_edge link among) = linked link among
Connected-SameRoot ranked linked (back c) =
    let (r, d, e) = Connected-SameRoot ranked linked c in (r, e, d)
Connected-SameRoot {p = p} ranked linked (chain {x} {y} {z} c c') =
    let (r, d, e) = Connected-SameRoot ranked linked c in
    let (s, d', e') = Connected-SameRoot ranked linked c' in
    (s, subst (Root p x) (Root_unique e d') d, e')

pub union_all-Classes :
    (n : ℕ) (links : List Link)
    → LinksWithin n links
    → Classes n links (union_all links (new_union_find n))
unfolding new_union_find
union_all-Classes n links within =
    let u =
      union_all-Unions links links (new_union_find n) (λ link a. a)
        (subst (λ k. LinksWithin k links) (sym (length-count_up n 0)) within) (new-Ranked n)
        (new-Sound links n) in
    record {
      ranked = u.ranked;
      size = u.size ∙ length-count_up n 0;
      classes = λ x y. (
        λ (r, d, e). chain (u.sound x r d) (back (u.sound y r e)),
        Connected-SameRoot u.ranked u.linked,
      );
    }
