-- ===== src/Feed/Latest.antt =====
-- DedupKeepLatest keeps, of each segment, a message that no other of the segment follows.
use convergent_routing_analy.Prelude.{◌≡◌, ◌⊎◌, inl, inr, refl, subst, List, [], ◌∷◌}
use convergent_routing_analy.Float.{Float64}
use convergent_routing_analy.Feed.{
  Clock, Checked, valid, invalid, Instants, SegmentCongestion, Timed, find_winner,
  congestion_instants, keep, dedup_from, dedup_keep_latest,
}
use convergent_routing_analy.Feed.Winners.{
  Member, at_head, at_tail, WinnersOf, KeptOr-iff, WinnersOf-keep,
}

module _ ⦃f : Float64⦄ (clock : Clock) where
  -- The winners after the messages, or a message whose time is not canonical.
  abbrev pub DedupOr :
      (SegmentCongestion → Type 0) → List SegmentCongestion → Checked (List Timed) → Type 0
  DedupOr P ms (valid winners) = WinnersOf clock P winners
  DedupOr P ms (invalid e) =
      (m : SegmentCongestion) × Member m ms × (congestion_instants clock m ≡ invalid e)

  DedupOr-iff :
      (P Q : SegmentCongestion → Type 0) (ms ns : List SegmentCongestion) (o : Checked (List Timed))
      → ((m : SegmentCongestion) → P m → Q m)
      → ((m : SegmentCongestion) → Q m → P m)
      → ((m : SegmentCongestion) → Member m ms → Member m ns)
      → DedupOr P ms o
      → DedupOr Q ns o
  DedupOr-iff P Q ms ns (valid winners) to back more all =
      λ id. KeptOr-iff clock P Q id (find_winner id winners) to back (all id)
  DedupOr-iff P Q ms ns (invalid e) to back more (m, there, bad) = (m, more m there, bad)

  dedup_from_lem :
      (P : SegmentCongestion → Type 0) (ms : List SegmentCongestion) (winners : List Timed)
      → WinnersOf clock P winners
      → DedupOr (λ x. P x ⊎ Member x ms) ms (dedup_from clock winners ms)
  unfolding dedup_from
  dedup_from_lem P [] winners all = λ id.
      KeptOr-iff clock P (λ x. P x ⊎ Member x []) id (find_winner id winners) (λ x p. inl p)
        (λ x q. elim q [ inl p ↦ p | inr never ↦ elim never [ ] ]) (all id)
  dedup_from_lem P (m ∷ ms) winners all = after_parse (congestion_instants clock m) refl (λ at has.
      dedup_from_lem (λ x. P x ⊎ (x ≡ m)) ms (keep clock winners (record { message = m; at = at }))
        (WinnersOf-keep clock P m at has winners all))
    where
      split : (x : SegmentCongestion) → Member x (m ∷ ms) → (P x ⊎ (x ≡ m)) ⊎ Member x ms
      split x at_head = inl (inr refl)
      split x (at_tail there) = inr there

      after_parse :
          (o : Checked Instants)
          → congestion_instants clock m ≡ o
          → ((at : Instants)
              → congestion_instants clock m ≡ valid at
              → DedupOr
                  (λ x. (P x ⊎ (x ≡ m)) ⊎ Member x ms)
                  ms
                  (dedup_from clock (keep clock winners (record { message = m; at = at })) ms))
          → DedupOr
              (λ x. P x ⊎ Member x (m ∷ ms))
              (m ∷ ms)
              (elim o [
                | invalid e ↦ invalid e
                | valid at ↦
                    dedup_from clock (keep clock winners (record { message = m; at = at })) ms
              ])
      after_parse (invalid e) has rest = (m, at_head, has)
      after_parse (valid at) has rest =
          DedupOr-iff (λ x. (P x ⊎ (x ≡ m)) ⊎ Member x ms) (λ x. P x ⊎ Member x (m ∷ ms)) ms
            (m ∷ ms) _
            (λ x q. elim q [
              | inl now ↦ elim now [
                | inl before ↦ inl before
                | inr e ↦ inr (subst (λ z. Member x (z ∷ ms)) e at_head)
              ]
              | inr later ↦ inr (at_tail later)
            ])
            (λ x q. elim q [ inl before ↦ inl (inl before) | inr there ↦ split x there ])
            (λ x there. at_tail there) (rest at has)

  -- For any messages and any clock, DedupKeepLatest has a winner for exactly the segments that
  -- have a message; it is a message of the segment, and all messages of the segment come no later
  -- than it, by window_start and then emit_time. Its error is that of a message whose window_start or
  -- emit_time is not canonical.
  pub dedup_keep_latest-DedupOr :
      (ms : List SegmentCongestion) → DedupOr (λ m. Member m ms) ms (dedup_keep_latest clock ms)
  unfolding dedup_keep_latest find_winner
  dedup_keep_latest-DedupOr ms =
      DedupOr-iff (λ m. ⊥ ⊎ Member m ms) (λ m. Member m ms) ms ms _
        (λ m q. elim q [ inl never ↦ elim never [ ] | inr there ↦ there ]) (λ m there. inr there)
        (λ m there. there) (dedup_from_lem (λ m. ⊥) ms [] (λ id m never. elim never [ ]))
