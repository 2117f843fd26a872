-- ===== src/Domain/Keys/Decimals.antt =====
-- Decimals are read back from their digits.
use convergent_routing_analy.Prelude.{
  ℕ, zero, suc, ◌+◌, ◌*◌, ◌/◌, ◌%◌, ◌≤◌, ◌<◌, ◌≡◌, ◌≢◌, ◌↔◌, refl, sym, ap, ◌∙◌, inl, inr, true,
  false, ℤ, pos, negsuc, [], ◌∷◌, Option, none, some, ◌==◌, ◌||◌, leb, leb→le, le→leb,
  if◌then◌else◌, Bool-cases, arith,
}
use convergent_routing_analy.Domain.Keys.{
  Bytes, max_int64, format_from, format_nat, format_int, read_digits, within, parse_int, eqb_bytes,
  FieldError, empty_field, signed, not_canonical, value, bad, canonical, parse_non_neg_int64,
}

abbrev pub AllDigits : Bytes → Type 0
AllDigits [] = Unit {0}
AllDigits (c ∷ s) = (b'0' ≤ c) × (c ≤ b'9') × AllDigits s

format_from-AllDigits : (k n : ℕ) (acc : Bytes) → AllDigits acc → AllDigits (format_from k n acc)
unfolding format_from
format_from-AllDigits zero n acc h = h
format_from-AllDigits (suc k) n acc h = elim (Bool-cases (n / 10 == 0)) [
  | inl last ↦ rw last (omega arith, omega arith, h)
  | inr more ↦
      rw more
        (format_from-AllDigits k (n / 10) ((b'0' + n % 10) ∷ acc) (omega arith, omega arith, h))
]

pub format_nat-AllDigits : (n : ℕ) → AllDigits (format_nat n)
unfolding format_nat
format_nat-AllDigits n = format_from-AllDigits (suc n) n [] tt

-- A first byte and the rest.
abbrev Begins : Bytes → Type 0
Begins s = (c : ℕ) × (t : Bytes) × (s ≡ c ∷ t)

format_from-Begins : (k n d : ℕ) (acc : Bytes) → Begins (format_from k n (d ∷ acc))
unfolding format_from
format_from-Begins zero n d acc = (d, acc, refl)
format_from-Begins (suc k) n d acc = elim (Bool-cases (n / 10 == 0)) [
  | inl last ↦ rw last (_, _, refl)
  | inr more ↦ rw more (format_from-Begins k (n / 10) (b'0' + n % 10) (d ∷ acc))
]

format_nat-Begins : (n : ℕ) → Begins (format_nat n)
unfolding format_nat format_from
format_nat-Begins n = elim (Bool-cases (n / 10 == 0)) [
  | inl last ↦ rw last (_, _, refl)
  | inr more ↦ rw more (format_from-Begins n (n / 10) (b'0' + n % 10) [])
]

format_nat-ne_nil : (n : ℕ) → format_nat n ≢ []
format_nat-ne_nil n h = let (c, t, e) = format_nat-Begins n in cc

-- The last digit of n, read after the others.
read_last :
    (n v : ℕ) (acc : Bytes)
    → v * 10 + n % 10 ≡ n
    → read_digits ((b'0' + n % 10) ∷ acc) v ≡ read_digits acc n
unfolding read_digits
read_last n v acc h = ground arith

read_digits-format_from :
    (k n : ℕ) (acc : Bytes) → n < k → read_digits (format_from k n acc) 0 ≡ read_digits acc n
unfolding format_from
read_digits-format_from zero n acc h = absurd (omega arith)
read_digits-format_from (suc k) n acc h = elim (Bool-cases (n / 10 == 0)) [
  | inl last ↦ rw last (read_last n 0 acc (ground arith))
  | inr more ↦ rw more (
      read_digits-format_from k (n / 10) ((b'0' + n % 10) ∷ acc) (ground arith)
      ∙ read_last n (n / 10) acc (omega arith))
]

read_digits-format_nat : (n : ℕ) → read_digits (format_nat n) 0 ≡ some n
unfolding format_nat read_digits
read_digits-format_nat n = read_digits-format_from (suc n) n [] (omega arith)

pub eqb_bytes_iff : (s t : Bytes) → (eqb_bytes s t ≡ true) ↔ (s ≡ t)
unfolding eqb_bytes
eqb_bytes_iff [] [] = (λ h. refl, λ h. refl)
eqb_bytes_iff [] (d ∷ t) = (λ h. cc, λ h. cc)
eqb_bytes_iff (c ∷ s) [] = (λ h. cc, λ h. cc)
eqb_bytes_iff (c ∷ s) (d ∷ t) = ground (arith, eqb_bytes_iff s t)

pub eqb_bytes_self : (s : Bytes) → eqb_bytes s s ≡ true
eqb_bytes_self s = (eqb_bytes_iff s s).1 refl

-- The integers from `low` to the largest int64.
abbrev pub Ranges : ℕ → ℤ → Type 0
Ranges low (pos n) = (low ≤ n) × (n ≤ max_int64)
Ranges low (negsuc n) = ⊥

pub Ranges-weaken : (v : ℤ) → Ranges 1 v → Ranges 0 v
Ranges-weaken (pos n) (lo, hi) = (omega arith, hi)
Ranges-weaken (negsuc n) h = h

parse_int_unsigned :
    (c : ℕ) (s : Bytes)
    → (c == b'+') ≡ false
    → (c == b'-') ≡ false
    → parse_int (c ∷ s) ≡ within max_int64 pos (read_digits (c ∷ s) 0)
unfolding parse_int
parse_int_unsigned c s p m = rw (p, m) refl

parse_non_neg_int64_unsigned :
    (c : ℕ) (s : Bytes)
    → (c == b'+') ≡ false
    → (c == b'-') ≡ false
    → parse_non_neg_int64 (c ∷ s) ≡ canonical (c ∷ s) (within max_int64 pos (read_digits (c ∷ s) 0))
unfolding parse_non_neg_int64
parse_non_neg_int64_unsigned c s p m =
    λ i. if p i || m i then bad signed else canonical (c ∷ s) (parse_int_unsigned c s p m i)

parse_non_neg_int64_signed :
    (c : ℕ) (s : Bytes) → (c == b'+' || c == b'-') ≡ true → parse_non_neg_int64 (c ∷ s) ≡ bad signed
unfolding parse_non_neg_int64
parse_non_neg_int64_signed c s h =
    λ i. if h i then bad signed else canonical (c ∷ s) (parse_int (c ∷ s))

canonical_within :
    (s : Bytes) (n : ℕ)
    → n ≤ max_int64
    → format_nat n ≡ s
    → canonical s (within max_int64 pos (some n)) ≡ value (pos n)
unfolding format_int
canonical_within s n h e =
    ap (λ b. canonical s (if b then some (pos n) else none)) (le→leb n max_int64 h)
    ∙ ap (λ b. if b then value (pos n) else bad not_canonical)
        ((eqb_bytes_iff (format_nat n) s).1 e)

parse_non_neg_int64_digits :
    (s : Bytes) (n : ℕ)
    → AllDigits s
    → s ≢ []
    → read_digits s 0 ≡ some n
    → n ≤ max_int64
    → format_nat n ≡ s
    → parse_non_neg_int64 s ≡ value (pos n)
parse_non_neg_int64_digits [] n a h e f g = absurd (h refl)
parse_non_neg_int64_digits (c ∷ s) n (lo, hi, a) h e f g =
    parse_non_neg_int64_unsigned c s (ground arith) (ground arith)
    ∙ ap (λ o. canonical (c ∷ s) (within max_int64 pos o)) e
    ∙ canonical_within (c ∷ s) n f g

-- A decimal in range is read back.
pub parse_non_neg_int64-format_int :
    (v : ℤ) → Ranges 0 v → parse_non_neg_int64 (format_int v) ≡ value v
unfolding format_int
parse_non_neg_int64-format_int (pos n) (_, h) =
    let a = format_nat-AllDigits n in
    let e = format_nat-ne_nil n in
    parse_non_neg_int64_digits (format_nat n) n a e (read_digits-format_nat n) h refl
parse_non_neg_int64-format_int (negsuc n) h = absurd h

parse_non_neg_int64_empty : parse_non_neg_int64 [] ≡ bad empty_field
unfolding parse_non_neg_int64
parse_non_neg_int64_empty = refl

bad-ne-value : {e : FieldError} {v : ℤ} → bad e ≢ value v
bad-ne-value h = cc

value-injective : {v w : ℤ} → value v ≡ value w → v ≡ w
value-injective h = cc

canonical_value :
    (s : Bytes) (n : ℕ) (v : ℤ)
    → canonical s (some (pos n)) ≡ value v
    → (v ≡ pos n) × (s ≡ format_nat n)
unfolding format_int
canonical_value s n v h = elim (Bool-cases (eqb_bytes (format_nat n) s)) [
  | inl same ↦ (
    value-injective (sym h ∙ ap (λ b. if b then value (pos n) else bad not_canonical) same),
    sym ((eqb_bytes_iff (format_nat n) s).0 same),
  )
  | inr other ↦
      absurd
        (bad-ne-value (sym (ap (λ b. if b then value (pos n) else bad not_canonical) other) ∙ h))
]

within_value :
    (s : Bytes) (o : Option ℕ) (v : ℤ)
    → canonical s (within max_int64 pos o) ≡ value v
    → (n : ℕ) × (n ≤ max_int64) × (v ≡ pos n) × (s ≡ format_nat n)
within_value s none v h = absurd (bad-ne-value h)
within_value s (some n) v h = elim (Bool-cases (leb n max_int64)) [
  | inl fits ↦
      let (same, text) =
        canonical_value s n v
          (sym (ap (λ b. canonical s (if b then some (pos n) else none)) fits) ∙ h) in
      (n, leb→le n max_int64 fits, same, text)
  | inr big ↦
      absurd (bad-ne-value (sym (ap (λ b. canonical s (if b then some (pos n) else none)) big) ∙ h))
]

-- What is read is the decimal of an integer in range.
pub parse_non_neg_int64_value :
    (s : Bytes) (v : ℤ)
    → parse_non_neg_int64 s ≡ value v
    → (n : ℕ) × (n ≤ max_int64) × (v ≡ pos n) × (s ≡ format_nat n)
parse_non_neg_int64_value [] v h = absurd (bad-ne-value (sym parse_non_neg_int64_empty ∙ h))
parse_non_neg_int64_value (c ∷ s) v h = elim (Bool-cases (c == b'+' || c == b'-')) [
  | inl sign ↦ absurd (bad-ne-value (sym (parse_non_neg_int64_signed c s sign) ∙ h))
  | inr plain ↦
      within_value (c ∷ s) (read_digits (c ∷ s) 0) v
        (sym (parse_non_neg_int64_unsigned c s (ground arith) (ground arith)) ∙ h)
]
