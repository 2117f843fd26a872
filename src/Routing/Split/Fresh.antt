-- ===== src/Routing/Split/Fresh.antt =====
-- A new pair gets an entry.
use convergent_routing_analy.Prelude.{
  ℕ, ◌+◌, ◌<◌, ◌≡◌, ◌⊎◌, refl, sym, ◌∙◌, ap, subst, inl, inr, ℤ, List, [], ◌∷◌, ◌++◌, none, length,
  get_or, length-append, length-replicate, get_or-append, get_or-replicate, get_or_out, ◌==◌,
  not_==, ltb, ltb→lt, if◌then◌else◌, Bool-cases, ==_iff, arith,
}
use convergent_routing_analy.Float.{Float64}
use convergent_routing_analy.Graph.{Graph}
use convergent_routing_analy.Routing.Dijkstra.{WeightFunc}
use convergent_routing_analy.Routing.Requests.{OdPair}
use convergent_routing_analy.Routing.Multipath.{KPath}
use convergent_routing_analy.Routing.Yen.{k_shortest_paths}
use convergent_routing_analy.Routing.Split.{OdEntry, no_entry, new_entry, slot_of, total_count}
use convergent_routing_analy.Routing.Split.Drawn.{
  total_count-replicate, entry_at, IsEntry, Entries, slot_of-none, is_for-other, Slotted,
}

module _ ⦃f : Float64⦄ (g : Graph) (weight : WeightFunc) (k : ℤ) where
  module _ (pair : OdPair) (es : List OdEntry) (p : KPath) (ps : List KPath)
      (entries : Entries g weight k es) (fresh : slot_of pair es 0 ≡ none)
      (searched : k_shortest_paths g pair.src pair.dst k weight ≡ p ∷ ps) where
    abbrev entry : OdEntry
    entry = new_entry pair (p ∷ ps)

    abbrev es' : List OdEntry
    es' = es ++ entry ∷ []

    length-more : length es' ≡ length es + 1
    length-more = length-append es (entry ∷ [])

    at_old : (t : ℕ) → t < length es → entry_at es' t ≡ entry_at es t
    at_old t h =
        get_or-append es entry t no_entry (omega arith)
        ∙ ap (λ b. if b then entry else entry_at es t) (not_== t (length es) (omega arith))

    at_new : (t : ℕ) → t ≡ length es → entry_at es' t ≡ entry
    at_new t h =
        get_or-append es entry t no_entry (omega (arith, h))
        ∙ ap (λ b. if b then entry else entry_at es t) ((==_iff t (length es)).1 h)

    at_out : (t : ℕ) → length es < t → entry_at es' t ≡ no_entry
    at_out t h = get_or_out es' t no_entry (omega (arith, length-more))

    new-IsEntry : IsEntry g weight k entry
    new-IsEntry = record {
      searched = sym searched;
      some_path = omega arith;
      weighed = refl;
      counted = length-replicate (length (p ∷ ps)) 0;
    }

    -- Below the new length an index is old, or is the new one.
    old_or_new : (t : ℕ) → t < length es' → (t < length es) ⊎ (t ≡ length es)
    old_or_new t h = elim (Bool-cases (ltb t (length es))) [
      | inl old ↦ inl (ltb→lt t (length es) old)
      | inr new ↦ inr (ground (arith, new, h, length-more))
    ]

    no_other :
        (t : ℕ)
        → t < length es
        → (entry_at es t).src ≡ pair.src
        → (entry_at es t).dst ≡ pair.dst
        → ⊥
    no_other t h = is_for-other pair (entry_at es t) (slot_of-none pair es 0 fresh t h)

    one_entry :
        (s t : ℕ)
        → s < length es'
        → t < length es'
        → (entry_at es' s).src ≡ (entry_at es' t).src
        → (entry_at es' s).dst ≡ (entry_at es' t).dst
        → s ≡ t
    one_entry s t hs ht a b = elim (old_or_new s hs) [
      | inl os ↦ elim (old_or_new t ht) [
        | inl ot ↦
            entries.one s t os ot
              (ap (λ e. e.src) (sym (at_old s os)) ∙ a ∙ ap (λ e. e.src) (at_old t ot))
              (ap (λ e. e.dst) (sym (at_old s os)) ∙ b ∙ ap (λ e. e.dst) (at_old t ot))
        | inr nt ↦ absurd (
            no_other s os (ap (λ e. e.src) (sym (at_old s os)) ∙ a ∙ ap (λ e. e.src) (at_new t nt))
              (ap (λ e. e.dst) (sym (at_old s os)) ∙ b ∙ ap (λ e. e.dst) (at_new t nt)))
      ]
      | inr ns ↦ elim (old_or_new t ht) [
        | inl ot ↦ absurd (
            no_other t ot
              (ap (λ e. e.src) (sym (at_old t ot)) ∙ sym a ∙ ap (λ e. e.src) (at_new s ns))
              (ap (λ e. e.dst) (sym (at_old t ot)) ∙ sym b ∙ ap (λ e. e.dst) (at_new s ns)))
        | inr nt ↦ omega (arith, ns, nt)
      ]
    ]

    -- The counts of an entry are those that were there, or all zero where no entry was.
    abbrev SameCounts : ℕ → Type 0
    SameCounts t =
        (entry_at es' t ≡ entry_at es t) ⊎ ((entry_at es' t ≡ entry) × (entry_at es t ≡ no_entry))

    at_any : (t : ℕ) → SameCounts t
    at_any t = elim (Bool-cases (ltb t (length es))) [
      | inl old ↦ inl (at_old t (ltb→lt t (length es) old))
      | inr beyond ↦ elim (Bool-cases (t == length es)) [
        | inl last ↦
            let here = (==_iff t (length es)).0 last in
            inr (at_new t here, get_or_out es t no_entry (omega (arith, here)))
        | inr more ↦
            let out : length es < t = ground (arith, beyond, more) in
            inl (at_out t out ∙ sym (get_or_out es t no_entry (omega (arith, out))))
      ]
    ]

    pub add_entry-Slotted : Slotted g weight k pair es es' (length es)
    add_entry-Slotted = record {
      entries = record {
        valid = λ t h. elim (old_or_new t h) [
          | inl old ↦ subst (IsEntry g weight k) (sym (at_old t old)) (entries.valid t old)
          | inr new ↦ subst (IsEntry g weight k) (sym (at_new t new)) new-IsEntry
        ];
        one = one_entry;
      };
      grows = λ t h. (
        omega (arith, length-more, h),
        ap (λ e. e.src) (at_old t h),
        ap (λ e. e.dst) (at_old t h),
        ap (λ e. e.paths) (at_old t h),
      );
      within = omega (arith, length-more);
      fresh = old_or_new;
      src = ap (λ e. e.src) (at_new (length es) refl);
      dst = ap (λ e. e.dst) (at_new (length es) refl);
      counts = λ t j. elim (at_any t) [
        | inl same ↦ ap (λ e. get_or e.counts j 0) same
        | inr (new, blank) ↦
            ap (λ e. get_or e.counts j 0) new
            ∙ get_or-replicate (length (p ∷ ps)) j 0
            ∙ sym (ap (λ e. get_or e.counts j 0) blank)
      ];
      totals = λ t. elim (at_any t) [
        | inl same ↦ ap (λ e. total_count e.counts) same
        | inr (new, blank) ↦
            ap (λ e. total_count e.counts) new
            ∙ total_count-replicate (length (p ∷ ps))
            ∙ sym (ap (λ e. total_count e.counts) blank)
      ];
    }
