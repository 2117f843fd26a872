-- ===== src/Routing/Split/Counted.antt =====
-- A draw is counted in the entry of its slot.
use convergent_routing_analy.Prelude.{
  ℕ, ◌+◌, ◌<◌, ◌≡◌, ◌≢◌, sym, ◌∙◌, ap, subst, false, ◌&&◌, ℤ, List, length, get_or, set, length-set,
  get_or-set_self, get_or-set_other, ◌==◌, if◌then◌else◌, ==_iff, arith, ℕ_discrete,
}
use convergent_routing_analy.Float.{Float64}
use convergent_routing_analy.Graph.{Graph}
use convergent_routing_analy.Routing.Dijkstra.{WeightFunc}
use convergent_routing_analy.Routing.Split.{OdEntry, no_entry, count_one, total_count}
use convergent_routing_analy.Routing.Split.Drawn.{
  total_count-count_one, get_or-count_one, entry_at, Grows, IsEntry, Entries, count_at, total_at,
}

add_zero : (n : ℕ) → n + 0 ≡ n
add_zero n = omega arith

other_== : (a b : ℕ) → a ≢ b → (a == b) ≡ false
other_== a b h = ground arith

-- What a draw of the path c of a slot changes.
pub record Counted ⦃f : Float64⦄ (g : Graph) (weight : WeightFunc) (k : ℤ) (es fs : List OdEntry)
    (slot c : ℕ) : Type 0 where
  pub entries : Entries g weight k fs
  pub grows : Grows es fs
  pub size : length fs ≡ length es
  pub counts :
      (t j : ℕ) → count_at fs t j ≡ count_at es t j + (if slot == t && c == j then 1 else 0)
  pub totals : (t : ℕ) → total_at fs t ≡ total_at es t + (if slot == t then 1 else 0)

module _ ⦃f : Float64⦄ (g : Graph) (weight : WeightFunc) (k : ℤ) (es : List OdEntry) (slot c : ℕ)
    (entries : Entries g weight k es) (within : slot < length es)
    (in_paths : c < length (entry_at es slot).paths) where
  abbrev drawn : OdEntry
  drawn = record (entry_at es slot) { counts = count_one (entry_at es slot).counts c }

  abbrev fs : List OdEntry
  fs = set es slot drawn

  in_counts : c < length (entry_at es slot).counts
  in_counts = omega (arith, (entries.valid slot within).counted)

  at_slot : (t : ℕ) → slot ≡ t → entry_at fs t ≡ drawn
  at_slot t h = subst (λ z. entry_at fs z ≡ drawn) h (get_or-set_self es slot drawn no_entry within)

  at_other : (t : ℕ) → slot ≢ t → entry_at fs t ≡ entry_at es t
  at_other t h = get_or-set_other es slot t drawn no_entry h

  abbrev Kept : ℕ → Type 0
  Kept t =
      ((entry_at fs t).src ≡ (entry_at es t).src)
      × ((entry_at fs t).dst ≡ (entry_at es t).dst)
      × ((entry_at fs t).paths ≡ (entry_at es t).paths)

  same_paths : (t : ℕ) → Kept t
  same_paths t = elim (ℕ_discrete slot t) [
    | yes h ↦ (
      ap (λ e. e.src) (at_slot t h) ∙ ap (λ z. (entry_at es z).src) h,
      ap (λ e. e.dst) (at_slot t h) ∙ ap (λ z. (entry_at es z).dst) h,
      ap (λ e. e.paths) (at_slot t h) ∙ ap (λ z. (entry_at es z).paths) h,
    )
    | no h ↦ (
      ap (λ e. e.src) (at_other t h),
      ap (λ e. e.dst) (at_other t h),
      ap (λ e. e.paths) (at_other t h),
    )
  ]

  size : length fs ≡ length es
  size = length-set es slot drawn

  drawn-IsEntry : IsEntry g weight k drawn
  drawn-IsEntry =
      let e = entries.valid slot within in
      record {
        searched = e.searched;
        some_path = e.some_path;
        weighed = e.weighed;
        counted = length-set (entry_at es slot).counts c _ ∙ e.counted;
      }

  fs-Entries : Entries g weight k fs
  fs-Entries = record {
    valid = λ t h. elim (ℕ_discrete slot t) [
      | yes here ↦ subst (IsEntry g weight k) (sym (at_slot t here)) drawn-IsEntry
      | no other ↦
          subst (IsEntry g weight k) (sym (at_other t other))
            (entries.valid t (omega (arith, size, h)))
    ];
    one = λ s t hs ht a b.
        let (sa, sb, sc) = same_paths s in
        let (ta, tb, tc) = same_paths t in
        entries.one s t (omega (arith, size, hs)) (omega (arith, size, ht)) (sym sa ∙ a ∙ ta)
          (sym sb ∙ b ∙ tb);
  }

  count_drawn :
      (t j : ℕ) → count_at fs t j ≡ count_at es t j + (if slot == t && c == j then 1 else 0)
  count_drawn t j = elim (ℕ_discrete slot t) [
    | yes here ↦
        ap (λ e. get_or e.counts j 0) (at_slot t here)
        ∙ get_or-count_one (entry_at es slot).counts c j in_counts
        ∙ ap (λ z. count_at es z j + (if c == j then 1 else 0)) here
        ∙ ap (λ b. count_at es t j + (if b && c == j then 1 else 0)) (sym ((==_iff slot t).1 here))
    | no other ↦
        ap (λ e. get_or e.counts j 0) (at_other t other)
        ∙ sym (add_zero (count_at es t j))
        ∙ ap (λ b. count_at es t j + (if b && c == j then 1 else 0)) (sym (other_== slot t other))
  ]

  total_drawn : (t : ℕ) → total_at fs t ≡ total_at es t + (if slot == t then 1 else 0)
  total_drawn t = elim (ℕ_discrete slot t) [
    | yes here ↦
        ap (λ e. total_count e.counts) (at_slot t here)
        ∙ total_count-count_one (entry_at es slot).counts c in_counts
        ∙ ap (λ z. total_at es z + 1) here
        ∙ ap (λ b. total_at es t + (if b then 1 else 0)) (sym ((==_iff slot t).1 here))
    | no other ↦
        ap (λ e. total_count e.counts) (at_other t other)
        ∙ sym (add_zero (total_at es t))
        ∙ ap (λ b. total_at es t + (if b then 1 else 0)) (sym (other_== slot t other))
  ]

  pub count_one-Counted : Counted g weight k es fs slot c
  count_one-Counted = record {
    entries = fs-Entries;
    grows = λ t h. let (a, b, d) = same_paths t in (omega (arith, size, h), a, b, d);
    size = size;
    counts = count_drawn;
    totals = total_drawn;
  }
