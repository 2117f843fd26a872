-- ===== src/Domain/Keys.antt =====
-- engine/internal/domain/segmentid.go: the wire key of a segment, as its bytes. An int has 64 bits.
pub mod Decimals
pub mod Fields
pub mod RoundTrip
use convergent_routing_analy.Prelude.{
  ℕ, zero, suc, ◌+◌, ◌-◌, ◌*◌, ◌/◌, ◌%◌, ◌^◌, Bool, true, false, ◌&&◌, ◌||◌, ℤ, pos, negsuc, List,
  [], ◌∷◌, ◌++◌, Option, none, some, length, ltb, leb, ◌==◌, if◌then◌else◌,
}

abbrev pub Bytes : Type 0
Bytes = List ℕ

-- uint8: Forward, Reverse, and the values that have no name.
abbrev pub Direction : Type 0
Direction = ℕ

abbrev pub forward : Direction
forward = 0

abbrev pub reversed : Direction
reversed = 1

abbrev pub max_int64 : ℕ
max_int64 = 2 ^ 63 - 1

-- The decimal digits of n in front of `acc`; n + 1 rounds are enough.
unfoldable pub format_from : ℕ → ℕ → Bytes → Bytes
format_from zero n acc = acc
format_from (suc k) n acc =
    let next = (b'0' + n % 10) ∷ acc in
    let more = format_from k (n / 10) next in if n / 10 == 0 then next else more

unfoldable pub format_nat : ℕ → Bytes
unfolding format_from
format_nat n = format_from (suc n) n []

-- strconv.FormatInt and Itoa, in base 10.
unfoldable pub format_int : ℤ → Bytes
unfolding format_nat
format_int (pos n) = format_nat n
format_int (negsuc n) = b'-' ∷ format_nat (suc n)

-- Direction.String
unfoldable pub direction_string : Direction → Bytes
unfolding format_nat
direction_string d =
    if d == forward
    then b'F' ∷ []
    else if d == reversed
    then b'R' ∷ []
    else (b'D' ∷ b'i' ∷ b'r' ∷ b'e' ∷ b'c' ∷ b't' ∷ b'i' ∷ b'o' ∷ b'n' ∷ b'(' ∷ [])
      ++ (format_nat d ++ b')' ∷ [])

unfoldable pub format_segment_id : ℤ → ℤ → Direction → Bytes
unfolding format_int direction_string
format_segment_id way seq dir =
    format_int way ++ (b':' ∷ format_int seq ++ (b':' ∷ direction_string dir))

unfoldable pub read_digits : Bytes → ℕ → Option ℕ
read_digits [] n = some n
read_digits (c ∷ s) n =
    if leb b'0' c && leb c b'9' then read_digits s (n * 10 + (c - b'0')) else none

-- A magnitude up to the limit.
abbrev pub within : ℕ → (ℕ → ℤ) → Option ℕ → Option ℤ
within limit sign none = none
within limit sign (some n) = if leb n limit then some (sign n) else none

abbrev pub minus : ℕ → ℤ
minus zero = pos 0
minus (suc n) = negsuc n

abbrev pub some_digits : Bytes → Option ℕ
some_digits [] = none
some_digits (c ∷ s) = read_digits (c ∷ s) 0

-- strconv.ParseInt in base 10 for 64 bits: none for its errors.
unfoldable pub parse_int : Bytes → Option ℤ
unfolding read_digits
parse_int [] = none
parse_int (c ∷ s) =
    if c == b'+'
    then within max_int64 pos (some_digits s)
    else if c == b'-'
    then within (max_int64 + 1) minus (some_digits s)
    else within max_int64 pos (read_digits (c ∷ s) 0)

unfoldable pub eqb_bytes : Bytes → Bytes → Bool
eqb_bytes [] [] = true
eqb_bytes [] (d ∷ t) = false
eqb_bytes (c ∷ s) [] = false
eqb_bytes (c ∷ s) (d ∷ t) = c == d && eqb_bytes s t

pub data FieldError : Type 0 where
  empty_field signed not_integer not_canonical : FieldError

pub data FieldRead : Type 0 where
  value : ℤ → FieldRead
  bad : FieldError → FieldRead

abbrev pub canonical : Bytes → Option ℤ → FieldRead
canonical field none = bad not_integer
canonical field (some v) = if eqb_bytes (format_int v) field then value v else bad not_canonical

unfoldable pub parse_non_neg_int64 : Bytes → FieldRead
unfolding parse_int eqb_bytes format_int
parse_non_neg_int64 [] = bad empty_field
parse_non_neg_int64 (c ∷ s) =
    if c == b'+' || c == b'-' then bad signed else canonical (c ∷ s) (parse_int (c ∷ s))

abbrev pub cons_first : ℕ → List Bytes → List Bytes
cons_first c [] = []
cons_first c (field ∷ fields) = (c ∷ field) ∷ fields

-- strings.SplitN on the colon, into at most n + 1 fields.
unfoldable pub split_colon : ℕ → Bytes → List Bytes
split_colon zero s = s ∷ []
split_colon (suc n) [] = [] ∷ []
split_colon (suc n) (c ∷ s) =
    let next = split_colon n s in
    let same = split_colon (suc n) s in if c == b':' then [] ∷ next else cons_first c same

pub data KeyError : Type 0 where
  wrong_fields : ℕ → KeyError
  way_field seq_field : FieldError → KeyError
  not_positive seq_overflows bad_direction : KeyError

pub data KeyRead : Type 0 where
  key : ℤ → ℤ → Direction → KeyRead
  refused : KeyError → KeyRead

abbrev pub above : ℕ → ℤ → Bool
above n (pos m) = ltb n m
above n (negsuc m) = false

unfoldable pub read_dir : ℤ → ℤ → Bytes → KeyRead
unfolding eqb_bytes
read_dir way seq dir =
    if eqb_bytes dir (b'F' ∷ [])
    then key way seq forward
    else if eqb_bytes dir (b'R' ∷ [])
    then key way seq reversed
    else refused bad_direction

unfoldable pub read_seq : ℤ → FieldRead → Bytes → KeyRead
unfolding read_dir
read_seq way (bad e) dir = refused (seq_field e)
read_seq way (value seq) dir =
    if above max_int64 seq then refused seq_overflows else read_dir way seq dir

unfoldable pub read_way : FieldRead → Bytes → Bytes → KeyRead
unfolding read_seq parse_non_neg_int64
read_way (bad e) seq dir = refused (way_field e)
read_way (value way) seq dir =
    if above 0 way then read_seq way (parse_non_neg_int64 seq) dir else refused not_positive

unfoldable pub read_fields : List Bytes → KeyRead
unfolding read_way parse_non_neg_int64
read_fields (way ∷ seq ∷ dir ∷ []) = read_way (parse_non_neg_int64 way) seq dir
read_fields [] = refused (wrong_fields 0)
read_fields (way ∷ []) = refused (wrong_fields 1)
read_fields (way ∷ seq ∷ []) = refused (wrong_fields 2)
read_fields (way ∷ seq ∷ dir ∷ x ∷ fields) = refused (wrong_fields (4 + length fields))

unfoldable pub parse_segment_id : Bytes → KeyRead
unfolding split_colon read_fields
parse_segment_id text = read_fields (split_colon 3 text)
