-- ===== src/Graph/Adjacency/Scatter.antt =====
-- The scatter loop of New: each node's run of the id array holds its out-edges in edge order.
use convergent_routing_analy.Prelude.{
  ℕ, zero, suc, ◌+◌, ◌-◌, ◌≤◌, ◌<◌, ◌≡◌, ◌∙◌, refl, pos, List, [], ◌∷◌, length, get_or, set, take,
  drop, replicate, ◌==◌, if◌then◌else◌, arith, get_or-set, length-set, length-replicate, ap,
  length-take, length-drop, get_or-take, get_or-drop, List_ext, sym,
}
use convergent_routing_analy.Float.{Float64}
use convergent_routing_analy.Domain.{EdgeId}
use convergent_routing_analy.Graph.{Edge}
use convergent_routing_analy.Graph.Adjacency.{scatter}
use convergent_routing_analy.Graph.Adjacency.Offsets.{
  origin, out_degree, below, AllFrom, below-suc, below-mono, below-le-length, offsets,
  length-offsets, offsets_lem,
}

module _ ⦃f : Float64⦄ where
  -- The ids of the edges that leave u, in the order of the list.
  unfoldable pub ids_from : ℕ → List Edge → List EdgeId
  ids_from u [] = []
  ids_from u (e ∷ es) = let rest = ids_from u es in if origin e == u then e.id ∷ rest else rest

  pub length-ids_from : (u : ℕ) (es : List Edge) → length (ids_from u es) ≡ out_degree u es
  unfolding ids_from out_degree
  length-ids_from u [] = refl
  length-ids_from u (e ∷ es) = ground (arith, length-ids_from u es)

  module _ (d : EdgeId) (n : ℕ) (base : ℕ → ℕ) (mono : (u v : ℕ) → u ≤ v → base u ≤ base v) where
    -- Each node's cursor stands inside its run, and the run has room for the edges to come.
    record Room (es : List Edge) (cursor : List ℕ) (out : List EdgeId) : Type 0 where
      size : length cursor ≡ n
      above : (u : ℕ) → u < n → base u ≤ get_or cursor u 0
      fits : (u : ℕ) → u < n → get_or cursor u 0 + out_degree u es ≤ base (suc u)
      inside : (u : ℕ) → u < n → base (suc u) ≤ length out

    abbrev slot : Edge → List ℕ → ℕ
    slot e cursor = get_or cursor (origin e) 0

    Room-next :
        (e : Edge) (es : List Edge) (cursor : List ℕ) (out : List EdgeId)
        → origin e < n
        → Room (e ∷ es) cursor out
        → Room es (set cursor (origin e) (slot e cursor + 1)) (set out (slot e cursor) e.id)
    unfolding out_degree
    Room-next e es cursor out h r =
        let read =
          λ (u : ℕ). get_or-set cursor (origin e) u (slot e cursor + 1) 0 (omega (arith, r.size)) in
        record {
          size = length-set cursor (origin e) (slot e cursor + 1) ∙ r.size;
          above = λ u hu. ground (arith, read u, r.above u);
          fits = λ u hu. ground (arith, read u, r.fits u);
          inside = λ u hu. omega (arith, length-set out (slot e cursor) e.id, r.inside u hu);
        }

    -- What is written before the cursor stays, and what follows it are the ids to come.
    record Filled (es : List Edge) (cursor : List ℕ) (out out' : List EdgeId) : Type 0 where
      size : length out' ≡ length out
      kept :
          (u p : ℕ) → u < n → base u ≤ p → p < get_or cursor u 0 → get_or out' p d ≡ get_or out p d
      written :
          (u k : ℕ)
          → u < n
          → k < out_degree u es
          → get_or out' (get_or cursor u 0 + k) d ≡ get_or (ids_from u es) k d

    module _ (e : Edge) (es : List Edge) (cursor : List ℕ) (out : List EdgeId) (h : origin e < n)
        (r : Room (e ∷ es) cursor out) where
      abbrev cursor' : List ℕ
      cursor' = set cursor (origin e) (slot e cursor + 1)

      abbrev out' : List EdgeId
      out' = set out (slot e cursor) e.id

      read :
          (u : ℕ)
          → get_or cursor' u 0 ≡ (if origin e == u then slot e cursor + 1 else get_or cursor u 0)
      read u = get_or-set cursor (origin e) u (slot e cursor + 1) 0 (omega (arith, r.size))

      put : (p : ℕ) → get_or out' p d ≡ (if slot e cursor == p then e.id else get_or out p d)
      unfolding out_degree
      put p =
          get_or-set out (slot e cursor) p e.id d
            (ground (arith, r.fits (origin e) h, r.inside (origin e) h))

      module _ (end : List EdgeId) (ih : Filled es cursor' out' end) where
        kept-next :
            (u p : ℕ) → u < n → base u ≤ p → p < get_or cursor u 0 → get_or end p d ≡ get_or out p d
        unfolding out_degree
        kept-next u p hu lo hi = ground (
          arith,
          ih.kept u p,
          read u,
          put p,
          mono (suc u) (origin e),
          mono (suc (origin e)) u,
          r.above u,
          r.above (origin e),
          r.fits u,
          r.fits (origin e),
        )

        written-next :
            (u k : ℕ)
            → u < n
            → k < out_degree u (e ∷ es)
            → get_or end (get_or cursor u 0 + k) d ≡ get_or (ids_from u (e ∷ es)) k d
        unfolding out_degree ids_from
        written-next u zero hu hk = ground (
          arith,
          ih.written u 0,
          ih.kept u (slot e cursor),
          read u,
          put (slot e cursor),
          r.above u,
        )
        written-next u (suc k) hu hk = ground (arith, ih.written u k, ih.written u (suc k), read u)

    scatter_fills :
        (es : List Edge) (cursor : List ℕ) (out : List EdgeId)
        → AllFrom n es
        → Room es cursor out
        → Filled es cursor out (scatter es cursor out)
    unfolding scatter out_degree
    scatter_fills [] cursor out all r = record {
      size = refl;
      kept = λ u p hu lo hi. refl;
      written = λ u k hu hk. absurd (omega arith);
    }
    scatter_fills (e ∷ es) cursor out all r =
        let ih =
          scatter_fills es (cursor' e es cursor out all.0 r) (out' e es cursor out all.0 r) all.1
            (Room-next e es cursor out all.0 r) in
        record {
          size = ih.size ∙ length-set out (slot e cursor) e.id;
          kept = kept-next e es cursor out all.0 r _ ih;
          written = written-next e es cursor out all.0 r _ ih;
        }

  -- The run of u in the id array that New builds.
  module _ (n : ℕ) (es : List Edge) (all : AllFrom n es) where
    abbrev pub run_ids : List EdgeId
    run_ids = scatter es (take n (offsets n es)) (replicate (length es) (pos 0))

    Room-start :
        Room
          (pos 0)
          n
          (λ u. below u es)
          (λ u v. below-mono u v es)
          es
          (take n (offsets n es))
          (replicate (length es) (pos 0))
    Room-start =
        let first = λ (u : ℕ) (hu : u < n).
          get_or-take n (offsets n es) u 0 hu ∙ offsets_lem n es u all (omega arith) in
        record {
          size = omega (arith, length-take n (offsets n es), length-offsets n es);
          above = λ u hu. omega (arith, first u hu);
          fits = λ u hu. omega (arith, first u hu, below-suc u es);
          inside = λ u hu.
              omega (arith, below-le-length (suc u) es, length-replicate (length es) (pos 0));
        }

    pub run_lem :
        (u : ℕ)
        → u < n
        → take (below (suc u) es - below u es) (drop (below u es) run_ids) ≡ ids_from u es
    run_lem u hu =
        let base = λ (v : ℕ). below v es in
        let filled =
          scatter_fills (pos 0) n base (λ v w. below-mono v w es) es (take n (offsets n es))
            (replicate (length es) (pos 0)) all Room-start in
        let first : get_or (take n (offsets n es)) u 0 ≡ below u es =
          get_or-take n (offsets n es) u 0 hu ∙ offsets_lem n es u all (omega arith) in
        let m = below (suc u) es - below u es in
        let cut = drop (below u es) run_ids in
        let size : length (take m cut) ≡ length (ids_from u es) = omega (
          arith,
          length-take m cut,
          length-drop (below u es) run_ids,
          filled.size,
          length-replicate (length es) (pos 0),
          below-le-length (suc u) es,
          below-suc u es,
          length-ids_from u es,
        ) in
        List_ext (take m cut) (ids_from u es) (pos 0) size (λ i hi.
          get_or-take m cut i (pos 0) (omega (arith, length-take m cut))
          ∙ get_or-drop (below u es) run_ids i (pos 0)
          ∙ sym (ap (λ z. get_or run_ids (z + i) (pos 0)) first)
          ∙ filled.written u i hu (omega (arith, length-ids_from u es, size)))
