-- ===== src/Domain/Keys/RoundTrip.antt =====
-- A segment id and its fields stand for each other.
use convergent_routing_analy.Prelude.{
  ℕ, zero, suc, ◌≤◌, ◌≡◌, ◌≢◌, ◌↔◌, refl, sym, ap, subst, ◌∙◌, inl, inr, true, ℤ, pos, negsuc, List,
  [], ◌∷◌, ◌++◌, lt→ltb, le→not_ltb, ltb→lt, if◌then◌else◌, Bool-cases, arith,
}
use convergent_routing_analy.Domain.Keys.{
  Bytes, Direction, max_int64, forward, reversed, format_nat, format_int, direction_string,
  format_segment_id, eqb_bytes, FieldRead, value, bad, parse_non_neg_int64, split_colon, key,
  refused, KeyError, seq_overflows, bad_direction, not_positive, above, read_dir, read_seq,
  read_way, read_fields, parse_segment_id,
}
use convergent_routing_analy.Domain.Keys.Decimals.{
  format_nat-AllDigits, eqb_bytes_iff, Ranges, Ranges-weaken, parse_non_neg_int64-format_int,
  parse_non_neg_int64_value,
}
use convergent_routing_analy.Domain.Keys.Fields.{
  NoColon, AllDigits-NoColon, split_colon_first, split_colon_last, join_colon,
  join_colon-split_colon,
}

-- The fields of a segment: the way is positive, and the direction has a name.
abbrev pub Wire : ℤ → ℤ → Direction → Type 0
Wire way seq dir = Ranges 1 way × Ranges 0 seq × (dir ≤ reversed)

refused-ne-key : {e : KeyError} {w q : ℤ} {d : Direction} → refused e ≢ key w q d
refused-ne-key h = cc

direction_string-NoColon : (d : Direction) → d ≤ reversed → NoColon (direction_string d)
unfolding direction_string
direction_string-NoColon zero h = (refl, tt)
direction_string-NoColon (suc zero) h = (refl, tt)
direction_string-NoColon (suc (suc d)) h = absurd (omega arith)

read_dir-direction_string :
    (w q : ℤ) (d : Direction) → d ≤ reversed → read_dir w q (direction_string d) ≡ key w q d
unfolding read_dir direction_string eqb_bytes
read_dir-direction_string w q zero h = refl
read_dir-direction_string w q (suc zero) h = refl
read_dir-direction_string w q (suc (suc d)) h = absurd (omega arith)

format_int-NoColon : (v : ℤ) → Ranges 0 v → NoColon (format_int v)
unfolding format_int
format_int-NoColon (pos n) h = AllDigits-NoColon (format_nat n) (format_nat-AllDigits n)
format_int-NoColon (negsuc n) h = absurd h

split_colon-format_segment_id :
    (w q : ℤ) (d : Direction)
    → Wire w q d
    → split_colon 3 (format_segment_id w q d)
      ≡ format_int w ∷ format_int q ∷ direction_string d ∷ []
unfolding format_segment_id
split_colon-format_segment_id w q d (hw, hq, hd) =
    let rest = format_int q ++ b':' ∷ direction_string d in
    split_colon_first 2 (format_int w) rest (format_int-NoColon w (Ranges-weaken w hw))
    ∙ ap (λ l. format_int w ∷ l)
        (split_colon_first 1 (format_int q) (direction_string d) (format_int-NoColon q hq)
          ∙ ap (λ l. format_int q ∷ l)
              (split_colon_last 1 (direction_string d) (direction_string-NoColon d hd)))

read_seq_value :
    (w q : ℤ) (d : Direction)
    → Ranges 0 q
    → d ≤ reversed
    → read_seq w (value q) (direction_string d) ≡ key w q d
unfolding read_seq
read_seq_value w (pos n) d (lo, hi) h =
    ap (λ b. if b then refused seq_overflows else read_dir w (pos n) (direction_string d))
      (le→not_ltb max_int64 n hi)
    ∙ read_dir-direction_string w (pos n) d h
read_seq_value w (negsuc n) d r h = absurd r

read_way_value :
    (w : ℤ) (seq dir : Bytes)
    → Ranges 1 w
    → read_way (value w) seq dir ≡ read_seq w (parse_non_neg_int64 seq) dir
unfolding read_way
read_way_value (pos n) seq dir (lo, hi) =
    ap (λ b. if b then read_seq (pos n) (parse_non_neg_int64 seq) dir else refused not_positive)
      (lt→ltb 0 n lo)
read_way_value (negsuc n) seq dir h = absurd h

parse_segment_id-format_segment_id :
    (w q : ℤ) (d : Direction) → Wire w q d → parse_segment_id (format_segment_id w q d) ≡ key w q d
unfolding parse_segment_id read_fields
parse_segment_id-format_segment_id w q d (hw, hq, hd) =
    ap read_fields (split_colon-format_segment_id w q d (hw, hq, hd))
    ∙ ap (λ f. read_way f (format_int q) (direction_string d))
        (parse_non_neg_int64-format_int w (Ranges-weaken w hw))
    ∙ read_way_value w (format_int q) (direction_string d) hw
    ∙ ap (λ f. read_seq w f (direction_string d)) (parse_non_neg_int64-format_int q hq)
    ∙ read_seq_value w q d hq hd

key-injective :
    {w q v r : ℤ} {d e : Direction} → key w q d ≡ key v r e → (w ≡ v) × (q ≡ r) × (d ≡ e)
key-injective h = (cc, cc, cc)

-- What a key that was read says of its direction.
abbrev Named : ℤ → ℤ → ℤ → ℤ → Direction → Bytes → Type 0
Named w q v r d dir = (w ≡ v) × (q ≡ r) × (d ≤ reversed) × (dir ≡ direction_string d)

key-Named :
    {w q v r : ℤ} {d : Direction} (e : Direction) {dir : Bytes}
    → e ≤ reversed
    → dir ≡ direction_string e
    → key w q e ≡ key v r d
    → Named w q v r d dir
key-Named e h text same =
    let (a, b, c) = key-injective same in
    (a, b, subst (λ x. x ≤ reversed) c h, text ∙ ap direction_string c)

read_dir-key :
    (w q v r : ℤ) (d : Direction) (dir : Bytes) → read_dir w q dir ≡ key v r d → Named w q v r d dir
unfolding read_dir direction_string
read_dir-key w q v r d dir h = elim (Bool-cases (eqb_bytes dir (b'F' ∷ []))) [
  | inl front ↦ key-Named forward (omega arith) ((eqb_bytes_iff dir (b'F' ∷ [])).0 front) (
      sym (λ i.
        if front i
        then key w q forward
        else if eqb_bytes dir (b'R' ∷ [])
        then key w q reversed
        else refused bad_direction)
      ∙ h)
  | inr other ↦ elim (Bool-cases (eqb_bytes dir (b'R' ∷ []))) [
    | inl back ↦ key-Named reversed (omega arith) ((eqb_bytes_iff dir (b'R' ∷ [])).0 back) (
        sym (λ i.
          if other i
          then key w q forward
          else if back i
          then key w q reversed
          else refused bad_direction)
        ∙ h)
    | inr neither ↦ absurd (
        refused-ne-key (
          sym (λ i.
            if other i
            then key w q forward
            else if neither i
            then key w q reversed
            else refused bad_direction)
          ∙ h))
  ]
]

read_seq-key :
    (w : ℤ) (seq : FieldRead) (v r : ℤ) (d : Direction) (dir : Bytes)
    → read_seq w seq dir ≡ key v r d
    → (w ≡ v) × (seq ≡ value r) × (d ≤ reversed) × (dir ≡ direction_string d)
unfolding read_seq
read_seq-key w (bad e) v r d dir h = absurd (refused-ne-key h)
read_seq-key w (value q) v r d dir h = elim (Bool-cases (above max_int64 q)) [
  | inl over ↦ absurd (
      refused-ne-key
        (sym (ap (λ b. if b then refused seq_overflows else read_dir w q dir) over) ∙ h))
  | inr fits ↦
      let (a, b, c, e) =
        read_dir-key w q v r d dir
          (sym (ap (λ b. if b then refused seq_overflows else read_dir w q dir) fits) ∙ h) in
      (a, ap value b, c, e)
]

read_way-key :
    (way : FieldRead) (seq : Bytes) (v r : ℤ) (d : Direction) (dir : Bytes)
    → read_way way seq dir ≡ key v r d
    → (above 0 v ≡ true)
      × (way ≡ value v)
      × (parse_non_neg_int64 seq ≡ value r)
      × (d ≤ reversed)
      × (dir ≡ direction_string d)
unfolding read_way
read_way-key (bad e) seq v r d dir h = absurd (refused-ne-key h)
read_way-key (value w) seq v r d dir h = elim (Bool-cases (above 0 w)) [
  | inl positive ↦
      let (a, b, c, e) = read_seq-key w (parse_non_neg_int64 seq) v r d dir (
        sym (
          ap (λ b. if b then read_seq w (parse_non_neg_int64 seq) dir else refused not_positive)
            positive)
        ∙ h) in
      (ap (above 0) (sym a) ∙ positive, ap value a, b, c, e)
  | inr zero_or_less ↦ absurd (
      refused-ne-key (
        sym (
          ap (λ b. if b then read_seq w (parse_non_neg_int64 seq) dir else refused not_positive)
            zero_or_less)
        ∙ h))
]

Ranges-pos : (n : ℕ) → n ≤ max_int64 → above 0 (pos n) ≡ true → Ranges 1 (pos n)
Ranges-pos n h positive = (ltb→lt 0 n positive, h)

read_in_range :
    (s : Bytes) (v : ℤ)
    → parse_non_neg_int64 s ≡ value v
    → Ranges 0 v × (above 0 v ≡ true → Ranges 1 v) × (s ≡ format_int v)
unfolding format_int
read_in_range s v h =
    let (n, fits, same, text) = parse_non_neg_int64_value s v h in
    (
      subst (Ranges 0) (sym same) (omega arith, fits),
      λ positive.
          subst (Ranges 1) (sym same) (Ranges-pos n fits (sym (ap (above 0) same) ∙ positive)),
      text ∙ ap format_int (sym same),
    )

read_fields-key :
    (fields : List Bytes) (w q : ℤ) (d : Direction)
    → read_fields fields ≡ key w q d
    → Wire w q d × (join_colon fields ≡ format_segment_id w q d)
unfolding read_fields format_segment_id
read_fields-key [] w q d h = absurd (refused-ne-key h)
read_fields-key (way ∷ []) w q d h = absurd (refused-ne-key h)
read_fields-key (way ∷ seq ∷ []) w q d h = absurd (refused-ne-key h)
read_fields-key (way ∷ seq ∷ dir ∷ x ∷ fields) w q d h = absurd (refused-ne-key h)
read_fields-key (way ∷ seq ∷ dir ∷ []) w q d h =
    let (positive, hw, hq, named, hd) = read_way-key (parse_non_neg_int64 way) seq w q d dir h in
    let (_, up, way_text) = read_in_range way w hw in
    let (range, _, seq_text) = read_in_range seq q hq in
    ((up positive, range, named), λ i. way_text i ++ b':' ∷ (seq_text i ++ b':' ∷ hd i))

-- A text is accepted exactly when it is the segment id of the fields that are read from it, of a
-- positive way, of a sequence number that is not negative, both at most the largest int64, and of
-- one of the two named directions.
pub parse_segment_id_iff :
    (text : Bytes) (way seq : ℤ) (dir : Direction)
    → (parse_segment_id text ≡ key way seq dir)
      ↔ (Wire way seq dir × (text ≡ format_segment_id way seq dir))
unfolding parse_segment_id
parse_segment_id_iff text way seq dir = (
  λ h.
      let (wire, same) = read_fields-key (split_colon 3 text) way seq dir h in
      (wire, sym (join_colon-split_colon 3 text) ∙ same),
  λ (wire, same). ap parse_segment_id same ∙ parse_segment_id-format_segment_id way seq dir wire,
)
