-- ===== src/Graph/Adjacency/Offsets.antt =====
-- The CSR offsets: slot u holds the number of edges that leave a node below u.
use convergent_routing_analy.Prelude.{
  ℕ, zero, suc, ◌+◌, ◌≤◌, ◌<◌, ◌≡◌, ◌∙◌, refl, List, [], ◌∷◌, length, get_or, set, replicate, ltb,
  ◌==◌, if◌then◌else◌, arith, to_index, get_or-set, length-set, length-replicate, get_or-replicate,
  ap,
}
use convergent_routing_analy.Float.{Float64}
use convergent_routing_analy.Graph.{Edge}
use convergent_routing_analy.Graph.Adjacency.{count_out, running_sum}

module _ ⦃f : Float64⦄ where
  abbrev pub origin : Edge → ℕ
  origin e = to_index e.from

  -- The edges that leave u.
  unfoldable pub out_degree : ℕ → List Edge → ℕ
  out_degree u [] = 0
  out_degree u (e ∷ es) = (if origin e == u then 1 else 0) + out_degree u es

  -- The edges that leave a node below u.
  unfoldable pub below : ℕ → List Edge → ℕ
  below u [] = 0
  below u (e ∷ es) = (if ltb (origin e) u then 1 else 0) + below u es

  abbrev pub AllFrom : ℕ → List Edge → Type 0
  AllFrom n [] = Unit
  AllFrom n (e ∷ es) = (origin e < n) × AllFrom n es

  pub below-zero : (es : List Edge) → below 0 es ≡ 0
  unfolding below
  below-zero [] = refl
  below-zero (e ∷ es) = ground (arith, below-zero es)

  pub below-suc : (u : ℕ) (es : List Edge) → below (suc u) es ≡ below u es + out_degree u es
  unfolding below out_degree
  below-suc u [] = omega arith
  below-suc u (e ∷ es) = ground (arith, below-suc u es)

  pub below-mono : (u v : ℕ) (es : List Edge) → u ≤ v → below u es ≤ below v es
  unfolding below
  below-mono u v [] h = omega arith
  below-mono u v (e ∷ es) h = ground (arith, below-mono u v es)

  pub below-le-length : (u : ℕ) (es : List Edge) → below u es ≤ length es
  unfolding below
  below-le-length u [] = omega arith
  below-le-length u (e ∷ es) = ground (arith, below-le-length u es)

  length-count_out : (es : List Edge) (xs : List ℕ) → length (count_out es xs) ≡ length xs
  unfolding count_out
  length-count_out [] xs = refl
  length-count_out (e ∷ es) xs =
      length-count_out es (set xs (origin e + 1) (get_or xs (origin e + 1) 0 + 1))
      ∙ length-set xs (origin e + 1) (get_or xs (origin e + 1) 0 + 1)

  get_or-count_out :
      (n : ℕ) (es : List Edge) (xs : List ℕ) (v : ℕ)
      → length xs ≡ n + 1
      → AllFrom n es
      → get_or (count_out es xs) (suc v) 0 ≡ get_or xs (suc v) 0 + out_degree v es
  unfolding count_out out_degree
  get_or-count_out n [] xs v size all = omega arith
  get_or-count_out n (e ∷ es) xs v size all =
      let slot = origin e + 1 in
      let count = get_or xs slot 0 + 1 in
      ground (
        arith,
        get_or-count_out n es (set xs slot count) v,
        length-set xs slot count,
        get_or-set xs slot (suc v) count 0,
      )

  get_or-count_out_zero :
      (n : ℕ) (es : List Edge) (xs : List ℕ)
      → length xs ≡ n + 1
      → AllFrom n es
      → get_or (count_out es xs) 0 0 ≡ get_or xs 0 0
  unfolding count_out
  get_or-count_out_zero n [] xs size all = refl
  get_or-count_out_zero n (e ∷ es) xs size all =
      let slot = origin e + 1 in
      let count = get_or xs slot 0 + 1 in
      ground (
        arith,
        get_or-count_out_zero n es (set xs slot count),
        length-set xs slot count,
        get_or-set xs slot 0 count 0,
      )

  pub length-running_sum : (b : ℕ) (xs : List ℕ) → length (running_sum b xs) ≡ length xs
  unfolding running_sum
  length-running_sum b [] = refl
  length-running_sum b (x ∷ xs) = ap suc (length-running_sum (b + x) xs)

  running_sum-zero :
      (b : ℕ) (xs : List ℕ) → 0 < length xs → get_or (running_sum b xs) 0 0 ≡ b + get_or xs 0 0
  unfolding running_sum
  running_sum-zero b [] h = elim h [ ]
  running_sum-zero b (x ∷ xs) h = refl

  running_sum-suc :
      (b : ℕ) (xs : List ℕ) (i : ℕ)
      → suc i < length xs
      → get_or (running_sum b xs) (suc i) 0 ≡ get_or (running_sum b xs) i 0 + get_or xs (suc i) 0
  unfolding running_sum
  running_sum-suc b [] i h = elim h [ ]
  running_sum-suc b (x ∷ []) i h = absurd (omega arith)
  running_sum-suc b (x ∷ y ∷ xs) zero h = refl
  running_sum-suc b (x ∷ y ∷ xs) (suc i) h = running_sum-suc (b + x) (y ∷ xs) i (omega arith)

  -- The offsets of a graph with n nodes.
  unfoldable pub offsets : ℕ → List Edge → List ℕ
  offsets n es = running_sum 0 (count_out es (replicate (n + 1) 0))

  pub length-offsets : (n : ℕ) (es : List Edge) → length (offsets n es) ≡ n + 1
  unfolding offsets
  length-offsets n es =
      length-running_sum 0 (count_out es (replicate (n + 1) 0))
      ∙ length-count_out es (replicate (n + 1) 0)
      ∙ length-replicate (n + 1) 0

  pub offsets_lem :
      (n : ℕ) (es : List Edge) (u : ℕ)
      → AllFrom n es
      → u ≤ n
      → get_or (offsets n es) u 0 ≡ below u es
  unfolding offsets
  offsets_lem n es zero all h =
      let xs : List ℕ = replicate (n + 1) 0 in
      omega (
        arith,
        running_sum-zero 0 (count_out es xs)
            (omega (arith, length-count_out es xs, length-replicate {A = ℕ} (n + 1) 0)),
        get_or-count_out_zero n es xs (length-replicate (n + 1) 0) all,
        get_or-replicate {A = ℕ} (n + 1) 0 0,
        below-zero es,
      )
  offsets_lem n es (suc u) all h =
      let xs : List ℕ = replicate (n + 1) 0 in
      omega (
        arith,
        running_sum-suc 0 (count_out es xs) u
            (omega (arith, length-count_out es xs, length-replicate {A = ℕ} (n + 1) 0)),
        get_or-count_out n es xs u (length-replicate (n + 1) 0) all,
        get_or-replicate {A = ℕ} (n + 1) (suc u) 0,
        offsets_lem n es u all (omega arith),
        below-suc u es,
      )
