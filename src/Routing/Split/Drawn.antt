-- ===== src/Routing/Split/Drawn.antt =====
-- The entries of a split: what they hold, and how a request changes them.
use convergent_routing_analy.Prelude.{
  ℕ, zero, suc, ◌+◌, ◌<◌, ◌≡◌, ◌⊎◌, refl, sym, ◌∙◌, ap₂, some_inj, subst, inl, inr, Bool, true,
  false, ◌&&◌, ℤ, List, [], ◌∷◌, Option, none, some, length, get_or, replicate, get_or-set, ◌==◌,
  if◌then◌else◌, eqb_ℤ, eqb_ℤ_iff, arith,
}
use convergent_routing_analy.Float.{Float64}
use convergent_routing_analy.Graph.{Graph}
use convergent_routing_analy.Routing.Dijkstra.{WeightFunc}
use convergent_routing_analy.Routing.Requests.{OdPair}
use convergent_routing_analy.Routing.Multipath.{proportional_split}
use convergent_routing_analy.Routing.Yen.{k_shortest_paths}
use convergent_routing_analy.Routing.Split.{
  OdEntry, no_entry, is_for, slot_of, count_one, total_count,
}

pub total_count-count_one :
    (counts : List ℕ) (c : ℕ)
    → c < length counts
    → total_count (count_one counts c) ≡ total_count counts + 1
total_count-count_one [] c h = absurd (omega arith)
total_count-count_one (n ∷ ns) zero h = omega arith
total_count-count_one (n ∷ ns) (suc c) h = omega (arith, total_count-count_one ns c (omega arith))

pub get_or-count_one :
    (counts : List ℕ) (c j : ℕ)
    → c < length counts
    → get_or (count_one counts c) j 0 ≡ get_or counts j 0 + (if c == j then 1 else 0)
get_or-count_one counts c j h = ground (arith, get_or-set counts c j (get_or counts c 0 + 1) 0 h)

pub total_count-replicate : (n : ℕ) → total_count (replicate n 0) ≡ 0
total_count-replicate zero = refl
total_count-replicate (suc n) = omega (arith, total_count-replicate n)

module _ ⦃f : Float64⦄ where
  abbrev pub entry_at : List OdEntry → ℕ → OdEntry
  entry_at es t = get_or es t no_entry

  -- The later entries keep the pair and the paths of the earlier.
  abbrev pub Grows : List OdEntry → List OdEntry → Type 0
  Grows es fs =
      (t : ℕ)
      → t < length es
      → (t < length fs)
        × ((entry_at fs t).src ≡ (entry_at es t).src)
        × ((entry_at fs t).dst ≡ (entry_at es t).dst)
        × ((entry_at fs t).paths ≡ (entry_at es t).paths)

  pub Grows-refl : (es : List OdEntry) → Grows es es
  Grows-refl es t h = (h, refl, refl, refl)

  pub Grows-trans : (es fs hs : List OdEntry) → Grows es fs → Grows fs hs → Grows es hs
  Grows-trans es fs hs p q t h =
      let (h', a, b, c) = p t h in let (h'', a', b', c') = q t h' in (h'', a' ∙ a, b' ∙ b, c' ∙ c)

  -- An entry of the split: the paths between its nodes, at least one, with a count for each.
  pub record IsEntry (g : Graph) (weight : WeightFunc) (k : ℤ) (e : OdEntry) : Type 0 where
    pub searched : e.paths ≡ k_shortest_paths g e.src e.dst k weight
    pub some_path : 0 < length e.paths
    pub weighed : e.intended ≡ proportional_split e.paths
    pub counted : length e.counts ≡ length e.paths

  -- Each pair has one entry.
  pub record Entries (g : Graph) (weight : WeightFunc) (k : ℤ) (es : List OdEntry) : Type 0 where
    pub valid : (t : ℕ) → t < length es → IsEntry g weight k (entry_at es t)
    pub one :
        (s t : ℕ)
        → s < length es
        → t < length es
        → (entry_at es s).src ≡ (entry_at es t).src
        → (entry_at es s).dst ≡ (entry_at es t).dst
        → s ≡ t

  abbrev pub count_at : List OdEntry → ℕ → ℕ → ℕ
  count_at es t j = get_or (entry_at es t).counts j 0

  abbrev pub total_at : List OdEntry → ℕ → ℕ
  total_at es t = total_count (entry_at es t).counts

  slot_none :
      (b : Bool) (i : ℕ) (rest : Option ℕ)
      → (if b then some i else rest) ≡ none
      → (b ≡ false) × (rest ≡ none)
  slot_none true i rest h = absurd (cc h)
  slot_none false i rest h = (refl, h)

  slot_some :
      (b : Bool) (i s : ℕ) (rest : Option ℕ)
      → (if b then some i else rest) ≡ some s
      → ((b ≡ true) × (i ≡ s)) ⊎ (rest ≡ some s)
  slot_some true i s rest h = inl (refl, some_inj h)
  slot_some false i s rest h = inr h

  -- No entry is for the pair.
  pub slot_of-none :
      (pair : OdPair) (es : List OdEntry) (i : ℕ)
      → slot_of pair es i ≡ none
      → (t : ℕ) → t < length es
      → is_for pair (entry_at es t) ≡ false
  unfolding slot_of
  slot_of-none pair [] i h t lt = absurd (omega arith)
  slot_of-none pair (e ∷ es) i h zero lt =
      (slot_none (is_for pair e) i (slot_of pair es (suc i)) h).0
  slot_of-none pair (e ∷ es) i h (suc t) lt =
      slot_of-none pair es (suc i) (slot_none (is_for pair e) i (slot_of pair es (suc i)) h).1 t
        (omega arith)

  -- The slot is that of an entry for the pair.
  pub slot_of-some :
      (pair : OdPair) (es : List OdEntry) (i s : ℕ)
      → slot_of pair es i ≡ some s
      → (t : ℕ) × (s ≡ i + t) × (t < length es) × (is_for pair (entry_at es t) ≡ true)
  unfolding slot_of
  slot_of-some pair [] i s h = absurd (cc h)
  slot_of-some pair (e ∷ es) i s h =
      elim (slot_some (is_for pair e) i s (slot_of pair es (suc i)) h) [
        | inl (mine, same) ↦ (0, omega (arith, same), omega arith, mine)
        | inr later ↦
            let (t, same, lt, found) = slot_of-some pair es (suc i) s later in
            (suc t, omega (arith, same), omega (arith, lt), found)
      ]

  and_true : (a b : Bool) → (a && b) ≡ true → (a ≡ true) × (b ≡ true)
  and_true true b h = (refl, h)
  and_true false b h = absurd (cc h)

  pub is_for-eq :
      (pair : OdPair) (e : OdEntry) → is_for pair e ≡ true → (e.src ≡ pair.src) × (e.dst ≡ pair.dst)
  is_for-eq pair e h =
      let (a, b) = and_true (eqb_ℤ e.src pair.src) (eqb_ℤ e.dst pair.dst) h in
      ((eqb_ℤ_iff e.src pair.src).0 a, (eqb_ℤ_iff e.dst pair.dst).0 b)

  pub is_for-other :
      (pair : OdPair) (e : OdEntry)
      → is_for pair e ≡ false
      → e.src ≡ pair.src
      → e.dst ≡ pair.dst
      → ⊥
  is_for-other pair e h a b =
      let both : is_for pair e ≡ true =
        ap₂ ◌&&◌ ((eqb_ℤ_iff e.src pair.src).1 a) ((eqb_ℤ_iff e.dst pair.dst).1 b) in
      let clash : true ≡ false = sym both ∙ h in cc clash

  -- What the search for a slot leaves: the slot of an entry for the pair, and the counts.
  pub record Slotted (g : Graph) (weight : WeightFunc) (k : ℤ) (pair : OdPair)
      (es fs : List OdEntry) (slot : ℕ) : Type 0 where
    pub entries : Entries g weight k fs
    pub grows : Grows es fs
    pub within : slot < length fs
    pub fresh : (t : ℕ) → t < length fs → (t < length es) ⊎ (t ≡ slot)
    pub src : (entry_at fs slot).src ≡ pair.src
    pub dst : (entry_at fs slot).dst ≡ pair.dst
    pub counts : (t j : ℕ) → count_at fs t j ≡ count_at es t j
    pub totals : (t : ℕ) → total_at fs t ≡ total_at es t

  module _ (g : Graph) (weight : WeightFunc) (k : ℤ) where
    -- A slot that was there.
    pub slot_of-Slotted :
        (pair : OdPair) (es : List OdEntry) (slot : ℕ)
        → Entries g weight k es
        → slot_of pair es 0 ≡ some slot
        → Slotted g weight k pair es es slot
    slot_of-Slotted pair es slot entries h =
        let (t, same, lt, mine) = slot_of-some pair es 0 slot h in
        let here : t ≡ slot = omega (arith, same) in
        let (a, b) = is_for-eq pair (entry_at es t) mine in
        record {
          entries = entries;
          grows = Grows-refl es;
          within = subst (λ z. z < length es) here lt;
          fresh = λ t h. inl h;
          src = subst (λ z. (entry_at es z).src ≡ pair.src) here a;
          dst = subst (λ z. (entry_at es z).dst ≡ pair.dst) here b;
          counts = λ t j. refl;
          totals = λ t. refl;
        }
