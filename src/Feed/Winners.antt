-- ===== src/Feed/Winners.antt =====
-- The winners of a set of messages, and what one more message does to them.
use Prim.Native.String.{String}
use text.Mathlib.Text as Text
use text.Mathlib.TextEquality.{eq_iff}
use convergent_routing_analy.Prelude.{
  ◌≡◌, ◌≢◌, ◌⊎◌, inl, inr, refl, sym, ◌∙◌, ap, subst, true, false, List, [], ◌∷◌, Option, none,
  some, if◌then◌else◌, Bool-cases, arith, ◌<◌, ◌≤◌, ◌==◌,
}
use convergent_routing_analy.Float.{Float64}
use convergent_routing_analy.Feed.{
  Clock, valid, Instants, congestion_less, SegmentCongestion, Timed, find_winner, put_winner,
  congestion_instants, keep,
}

-- The instants a come no later than b: by window_start, and then by emit_time.
abbrev pub NotAfter : Instants → Instants → Type 0
NotAfter a b =
    (a.window_start < b.window_start)
    ⊎ ((a.window_start ≡ b.window_start) × (a.emit_time ≤ b.emit_time))

less_false : (a b : Instants) → congestion_less a b ≡ false → NotAfter b a
less_false a b h = elim (Bool-cases (a.window_start == b.window_start)) [
  | inl same ↦ inr (ground (arith, same), ground (arith, same, h))
  | inr other ↦ inl (ground (arith, other, h))
]

less_true : (a b : Instants) → congestion_less a b ≡ true → NotAfter a b
less_true a b h = elim (Bool-cases (a.window_start == b.window_start)) [
  | inl same ↦ inr (ground (arith, same), ground (arith, same, h))
  | inr other ↦ inl (ground (arith, other, h))
]

-- What comes no later than a comes no later than what follows a.
NotAfter-later : (a b c : Instants) → congestion_less a b ≡ true → NotAfter c a → NotAfter c b
NotAfter-later a b c later q = elim (less_true a b later) [
  | inl before ↦ elim q [ inl first ↦ inl (omega arith) | inr (same, few) ↦ inl (omega arith) ]
  | inr (equal, small) ↦ elim q [
    | inl first ↦ inl (omega arith)
    | inr (same, few) ↦ inr (omega arith, omega arith)
  ]
]

NotAfter-self : (a : Instants) → NotAfter a a
NotAfter-self a = inr (refl, omega arith)

module _ ⦃f : Float64⦄ where
  find_winner-put_winner :
      (w : Timed) (ts : List Timed) (id : String)
      → find_winner id (put_winner w ts)
        ≡ (if Text.◌==◌ w.message.segment_id id then some w else find_winner id ts)
  unfolding find_winner put_winner
  find_winner-put_winner w [] id = refl
  find_winner-put_winner w (t ∷ ts) id = ground (
    arith,
    eq_iff t.message.segment_id w.message.segment_id,
    eq_iff w.message.segment_id id,
    eq_iff t.message.segment_id id,
    find_winner-put_winner w ts id,
  )

  -- `Member m ms`: m is one of the messages ms.
  pub data Member (m : SegmentCongestion) : List SegmentCongestion → Type 0 where
    at_head : {ms : List SegmentCongestion} → Member m (m ∷ ms)
    at_tail :
        {n : SegmentCongestion} {ms : List SegmentCongestion} → Member m ms → Member m (n ∷ ms)

  module _ (clock : Clock) where
    -- w is a message of the segment among those that P tells, with its instants, and none of the
    -- segment's follows it.
    pub record Kept (P : SegmentCongestion → Type 0) (id : String) (w : Timed) : Type 0 where
      pub occurs : P w.message
      pub timed : congestion_instants clock w.message ≡ valid w.at
      pub same : w.message.segment_id ≡ id
      pub top :
          (m : SegmentCongestion) (at : Instants)
          → P m
          → m.segment_id ≡ id
          → congestion_instants clock m ≡ valid at
          → NotAfter at w.at

    abbrev pub KeptOr : (SegmentCongestion → Type 0) → String → Option Timed → Type 0
    KeptOr P id (some w) = Kept P id w
    KeptOr P id none = (m : SegmentCongestion) → P m → m.segment_id ≢ id

    -- Every segment that P tells a message of has its winner, and no other has one.
    abbrev pub WinnersOf : (SegmentCongestion → Type 0) → List Timed → Type 0
    WinnersOf P winners = (id : String) → KeptOr P id (find_winner id winners)

    pub KeptOr-iff :
        (P Q : SegmentCongestion → Type 0) (id : String) (o : Option Timed)
        → ((m : SegmentCongestion) → P m → Q m)
        → ((m : SegmentCongestion) → Q m → P m)
        → KeptOr P id o
        → KeptOr Q id o
    KeptOr-iff P Q id none to back p = λ m q. p m (back m q)
    KeptOr-iff P Q id (some w) to back p = record {
      occurs = to _ p.occurs;
      timed = p.timed;
      same = p.same;
      top = λ m at q. p.top m at (back m q);
    }

    module _ (P : SegmentCongestion → Type 0) (m : SegmentCongestion) (at : Instants)
        (has : congestion_instants clock m ≡ valid at) where
      abbrev Grown : SegmentCongestion → Type 0
      Grown x = P x ⊎ (x ≡ m)

      abbrev t : Timed
      t = record { message = m; at = at }

      valid_inj : (a b : Instants) → valid a ≡ valid b → a ≡ b
      valid_inj a b h = cc h

      -- The instants of a message that is m are those of m.
      own_instants :
          (x : SegmentCongestion) (at' : Instants)
          → x ≡ m
          → congestion_instants clock x ≡ valid at'
          → at ≡ at'
      own_instants x at' e h =
          valid_inj at at' (sym has ∙ sym (ap (congestion_instants clock) e) ∙ h)

      other_segment :
          (id : String) (o : Option Timed) → m.segment_id ≢ id → KeptOr P id o → KeptOr Grown id o
      other_segment id none ne p = λ x q same. elim q [
        | inl there ↦ p x there same
        | inr e ↦ ne (ap (λ z. z.segment_id) (sym e) ∙ same)
      ]
      other_segment id (some w) ne p = record {
        occurs = inl p.occurs;
        timed = p.timed;
        same = p.same;
        top = λ x at' q same h. elim q [
          | inl there ↦ p.top x at' there same h
          | inr e ↦ absurd (ne (ap (λ z. z.segment_id) (sym e) ∙ same))
        ];
      }

      new_winner :
          ((x : SegmentCongestion) (at' : Instants)
            → P x
            → x.segment_id ≡ m.segment_id
            → congestion_instants clock x ≡ valid at'
            → NotAfter at' at)
          → Kept Grown m.segment_id t
      new_winner top = record {
        occurs = inr refl;
        timed = has;
        same = refl;
        top = λ x at' q same h. elim q [
          | inl there ↦ top x at' there same h
          | inr e ↦ subst (λ z. NotAfter z at) (own_instants x at' e h) (NotAfter-self at)
        ];
      }

      old_winner :
          (w : Timed) → NotAfter at w.at → Kept P m.segment_id w → Kept Grown m.segment_id w
      old_winner w behind p = record {
        occurs = inl p.occurs;
        timed = p.timed;
        same = p.same;
        top = λ x at' q same h. elim q [
          | inl there ↦ p.top x at' there same h
          | inr e ↦ subst (λ z. NotAfter z w.at) (own_instants x at' e h) behind
        ];
      }

      -- After m is put, its segment's winner is m, and the others' are as before.
      WinnersOf-put_winner :
          (winners : List Timed)
          → WinnersOf P winners
          → Kept Grown m.segment_id t
          → WinnersOf Grown (put_winner t winners)
      WinnersOf-put_winner winners all kept id =
          subst (KeptOr Grown id) (sym (find_winner-put_winner t winners id))
            (elim (Bool-cases (Text.◌==◌ m.segment_id id)) [
              | inl same ↦
                  rw same (subst (λ z. Kept Grown z t) ((eq_iff m.segment_id id).0 same) kept)
              | inr other ↦ rw other (
                  other_segment id (find_winner id winners)
                    (λ e. absurd (let hit = (eq_iff m.segment_id id).1 e in cc)) (all id))
            ])

      pub WinnersOf-keep :
          (winners : List Timed) → WinnersOf P winners → WinnersOf Grown (keep clock winners t)
      unfolding keep
      WinnersOf-keep winners all = against (find_winner m.segment_id winners) refl
        where
          loser :
              (current : Timed)
              → find_winner m.segment_id winners ≡ some current
              → NotAfter at current.at
              → WinnersOf Grown winners
          loser current found behind id = elim (Bool-cases (Text.◌==◌ m.segment_id id)) [
            | inl same ↦
                subst (λ z. KeptOr Grown z (find_winner z winners))
                  ((eq_iff m.segment_id id).0 same)
                  (subst (KeptOr Grown m.segment_id) (sym found) (
                    old_winner current behind
                      (subst (KeptOr P m.segment_id) found (all m.segment_id))))
            | inr other ↦
                other_segment id (find_winner id winners)
                  (λ e. absurd (let hit = (eq_iff m.segment_id id).1 e in cc)) (all id)
          ]

          against :
              (o : Option Timed)
              → find_winner m.segment_id winners ≡ o
              → WinnersOf Grown (elim o [
                | none ↦ put_winner t winners
                | some current ↦
                    if congestion_less current.at t.at then put_winner t winners else winners
              ])
          against none found =
              let nobody = subst (KeptOr P m.segment_id) found (all m.segment_id) in
              WinnersOf-put_winner winners all
                (new_winner (λ x at' there same h. absurd (nobody x there same)))
          against (some current) found =
              let kept = subst (KeptOr P m.segment_id) found (all m.segment_id) in
              elim (Bool-cases (congestion_less current.at at)) [
                | inl later ↦ rw later (
                    WinnersOf-put_winner winners all (
                      new_winner (λ x at' there same h.
                        NotAfter-later current.at at at' later (kept.top x at' there same h))))
                | inr behind ↦ rw behind (loser current found (less_false current.at at behind))
              ]
