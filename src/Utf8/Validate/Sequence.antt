-- ===== src/Utf8/Validate/Sequence.antt =====
-- One round of `bson_utf8_validate`: the verdict on the first sequence, in plain arithmetic.
use libbson.Base.{
  ℕ, zero, suc, ◌+◌, ◌-◌, ◌*◌, ◌/◌, ◌%◌, ◌≤◌, ◌<◌, ◌≡◌, ◌⊎◌, inl, inr, refl, Bool, true, false, not,
  ◌&&◌, ◌||◌, some, List, ◌∷◌, length, All, arith, ltb, leb, ◌==◌, if◌then◌else◌, bit_and,
  Bool-cases, get_elem?_at,
}
use libbson.Base.Words.{IsByte}
use libbson.Utf8.{
  shift_in, continuation, has_null, check_null, in_range, Verdict, rejected, accepted,
  validate_bytes, validate_char,
}
use libbson.Utf8.Arith.{
  sequence_of, sequence_length, masked_first, tag_bits, shift_in_lem, surrogate_bits,
}

abbrev pub verdict : Bool → ℕ → Verdict
verdict ok n = if ok then accepted n else rejected

abbrev pub tail_byte : ℕ → Bool
tail_byte b = b / 64 == 2

check_first :
    (b : ℕ) (rest : List ℕ) (left : ℕ) (allow_null : Bool)
    → IsByte b
    → validate_char (b ∷ rest) left allow_null ≡ (
        if (sequence_of b).0 == 0
        then some rejected
        else if ltb left (sequence_of b).0
        then some rejected
        else validate_bytes
            (sequence_of b).0
            (b % ((sequence_of b).1 + 1))
            (b ∷ rest)
            left
            allow_null)
unfolding validate_char
check_first b rest left allow_null h = rw (sequence_length b h, masked_first b h)

pub check_one :
    (b : ℕ) (rest : List ℕ) (left : ℕ) (allow_null : Bool)
    → b < 128
    → 1 ≤ left
    → validate_char (b ∷ rest) left allow_null ≡ some (verdict (allow_null || not (b == 0)) 1)
unfolding validate_bytes continuation check_null has_null in_range
check_one b rest left true h l = ground (arith, check_first b rest left true, surrogate_bits b)
check_one b rest left false h l = ground (arith, check_first b rest left false, surrogate_bits b)

-- No sequence of a shorter form, no surrogate half, and two bytes for NUL only where it may occur.
abbrev pub two_ok : ℕ → ℕ → Bool → Bool
two_ok b c allow_null = tail_byte c && (leb 194 b || (b == 192 && c == 128 && allow_null))

abbrev pub three_value : ℕ → ℕ → ℕ → ℕ
three_value b c d = (b % 16 * 64 + c % 64) * 64 + d % 64

abbrev pub three_ok : ℕ → ℕ → ℕ → Bool
three_ok b c d =
    tail_byte c
    && tail_byte d
    && leb 0x800 (three_value b c d)
    && not (three_value b c d / 2048 == 27)

abbrev pub four_value : ℕ → ℕ → ℕ → ℕ → ℕ
four_value b c d e = ((b % 8 * 64 + c % 64) * 64 + d % 64) * 64 + e % 64

abbrev pub four_ok : ℕ → ℕ → ℕ → ℕ → Bool
four_ok b c d e =
    tail_byte c
    && tail_byte d
    && tail_byte e
    && leb 0x10000 (four_value b c d e)
    && leb (four_value b c d e) 0x10ffff

-- The parts of a round, for sequences of several bytes.
validate_bytes_tagged :
    (n c : ℕ) (p : List ℕ) (left : ℕ) (allow_null : Bool) (v : ℕ)
    → continuation (n - 1) 1 p c ≡ some (true, v)
    → check_null allow_null n p left ≡ some false
    → validate_bytes n c p left allow_null ≡ some (verdict (in_range n v allow_null) n)
unfolding validate_bytes
validate_bytes_tagged n c p left allow_null v e null = rw (e, null)

validate_bytes_untagged :
    (n c : ℕ) (p : List ℕ) (left : ℕ) (allow_null : Bool) (v : ℕ)
    → continuation (n - 1) 1 p c ≡ some (false, v)
    → validate_bytes n c p left allow_null ≡ some rejected
unfolding validate_bytes
validate_bytes_untagged n c p left allow_null v e = rw e

-- Sequences of two bytes.
in_range_two :
    (v : ℕ) (allow_null : Bool)
    → v < 0x800
    → in_range 2 v allow_null ≡ (leb 0x80 v || (v == 0 && allow_null))
unfolding in_range
in_range_two v allow_null h = ground (arith, surrogate_bits v)

null_two :
    (b c : ℕ) (rest : List ℕ) (left : ℕ) (allow_null : Bool)
    → 2 ≤ left
    → 0 < b
    → 0 < c
    → check_null allow_null 2 (b ∷ c ∷ rest) left ≡ some false
unfolding check_null has_null
null_two b c rest left true l hb hc = refl
null_two b c rest left false l hb hc = ground arith

continuation_two :
    (v b c : ℕ) (rest : List ℕ)
    → v < 32
    → IsByte c
    → (tail_byte c) ≡ true
    → continuation 1 1 (b ∷ c ∷ rest) v ≡ some (true, v * 64 + c % 64)
unfolding continuation
continuation_two v b c rest hv hc ok = ground (arith, tag_bits c, shift_in_lem v c)

stops_two :
    (v b c : ℕ) (rest : List ℕ) (left : ℕ) (allow_null : Bool)
    → IsByte c
    → (tail_byte c) ≡ false
    → validate_bytes 2 v (b ∷ c ∷ rest) left allow_null ≡ some rejected
unfolding validate_bytes continuation
stops_two v b c rest left allow_null hc stops = ground (arith, tag_bits c)

bytes_two :
    (b c : ℕ) (rest : List ℕ) (left : ℕ) (allow_null : Bool)
    → 192 ≤ b
    → b < 224
    → IsByte c
    → 2 ≤ left
    → validate_bytes 2 (b % 32) (b ∷ c ∷ rest) left allow_null
      ≡ some (verdict (two_ok b c allow_null) 2)
bytes_two b c rest left allow_null lo hi hc l = elim (Bool-cases (tail_byte c)) [
  | inl ok ↦ ground (
    arith,
    validate_bytes_tagged 2 (b % 32) (b ∷ c ∷ rest) left allow_null (b % 32 * 64 + c % 64),
    continuation_two (b % 32) b c rest,
    null_two b c rest left allow_null,
    in_range_two (b % 32 * 64 + c % 64) allow_null,
  )
  | inr stops ↦ ground (arith, stops_two (b % 32) b c rest left allow_null)
]

pub check_two :
    (b c : ℕ) (rest : List ℕ) (left : ℕ) (allow_null : Bool)
    → 192 ≤ b
    → b < 224
    → IsByte c
    → 2 ≤ left
    → validate_char (b ∷ c ∷ rest) left allow_null ≡ some (verdict (two_ok b c allow_null) 2)
check_two b c rest left allow_null lo hi hc l =
    ground (arith, check_first b (c ∷ rest) left allow_null, bytes_two b c rest left allow_null)

-- Sequences of three bytes.
in_range_three :
    (v : ℕ) (allow_null : Bool)
    → v < 0x10000
    → in_range 3 v allow_null ≡ (leb 0x800 v && not (v / 2048 == 27))
unfolding in_range
in_range_three v allow_null h = ground (arith, surrogate_bits v)

null_three :
    (b c d : ℕ) (rest : List ℕ) (left : ℕ) (allow_null : Bool)
    → 3 ≤ left
    → 0 < b
    → 0 < c
    → 0 < d
    → check_null allow_null 3 (b ∷ c ∷ d ∷ rest) left ≡ some false
unfolding check_null has_null
null_three b c d rest left true l hb hc hd = refl
null_three b c d rest left false l hb hc hd = ground arith

continuation_three :
    (v b c d : ℕ) (rest : List ℕ)
    → v < 16
    → IsByte c
    → IsByte d
    → (tail_byte c && tail_byte d) ≡ true
    → continuation 2 1 (b ∷ c ∷ d ∷ rest) v ≡ some (true, (v * 64 + c % 64) * 64 + d % 64)
unfolding continuation
continuation_three v b c d rest hv hc hd ok =
    ground (arith, tag_bits c, tag_bits d, shift_in_lem v c, shift_in_lem (v * 64 + c % 64) d)

stops_three :
    (v b c d : ℕ) (rest : List ℕ) (left : ℕ) (allow_null : Bool)
    → IsByte c
    → IsByte d
    → (tail_byte c && tail_byte d) ≡ false
    → validate_bytes 3 v (b ∷ c ∷ d ∷ rest) left allow_null ≡ some rejected
unfolding validate_bytes continuation
stops_three v b c d rest left allow_null hc hd stops = ground (arith, tag_bits c, tag_bits d)

bytes_three :
    (b c d : ℕ) (rest : List ℕ) (left : ℕ) (allow_null : Bool)
    → 224 ≤ b
    → b < 240
    → IsByte c
    → IsByte d
    → 3 ≤ left
    → validate_bytes 3 (b % 16) (b ∷ c ∷ d ∷ rest) left allow_null
      ≡ some (verdict (three_ok b c d) 3)
bytes_three b c d rest left allow_null lo hi hc hd l =
    elim (Bool-cases (tail_byte c && tail_byte d)) [
      | inl ok ↦ ground (
        arith,
        validate_bytes_tagged 3 (b % 16) (b ∷ c ∷ d ∷ rest) left allow_null (three_value b c d),
        continuation_three (b % 16) b c d rest,
        null_three b c d rest left allow_null,
        in_range_three (three_value b c d) allow_null,
      )
      | inr stops ↦ ground (arith, stops_three (b % 16) b c d rest left allow_null)
    ]

pub check_three :
    (b c d : ℕ) (rest : List ℕ) (left : ℕ) (allow_null : Bool)
    → 224 ≤ b
    → b < 240
    → IsByte c
    → IsByte d
    → 3 ≤ left
    → validate_char (b ∷ c ∷ d ∷ rest) left allow_null ≡ some (verdict (three_ok b c d) 3)
check_three b c d rest left allow_null lo hi hc hd l =
    ground
      (arith, check_first b (c ∷ d ∷ rest) left allow_null, bytes_three b c d rest left allow_null)

-- Sequences of four bytes.
in_range_four :
    (v : ℕ) (allow_null : Bool)
    → v < 0x200000
    → in_range 4 v allow_null ≡ (leb 0x10000 v && leb v 0x10ffff)
unfolding in_range
in_range_four v allow_null h = ground (arith, surrogate_bits v)

null_four :
    (b c d e : ℕ) (rest : List ℕ) (left : ℕ) (allow_null : Bool)
    → 4 ≤ left
    → 0 < b
    → 0 < c
    → 0 < d
    → 0 < e
    → check_null allow_null 4 (b ∷ c ∷ d ∷ e ∷ rest) left ≡ some false
unfolding check_null has_null
null_four b c d e rest left true l hb hc hd he = refl
null_four b c d e rest left false l hb hc hd he = ground arith

continuation_four :
    (v b c d e : ℕ) (rest : List ℕ)
    → v < 8
    → IsByte c
    → IsByte d
    → IsByte e
    → (tail_byte c && tail_byte d && tail_byte e) ≡ true
    → continuation 3 1 (b ∷ c ∷ d ∷ e ∷ rest) v
      ≡ some (true, ((v * 64 + c % 64) * 64 + d % 64) * 64 + e % 64)
unfolding continuation
continuation_four v b c d e rest hv hc hd he ok = ground (
  arith,
  tag_bits c,
  tag_bits d,
  tag_bits e,
  shift_in_lem v c,
  shift_in_lem (v * 64 + c % 64) d,
  shift_in_lem ((v * 64 + c % 64) * 64 + d % 64) e,
)

stops_four :
    (v b c d e : ℕ) (rest : List ℕ) (left : ℕ) (allow_null : Bool)
    → IsByte c
    → IsByte d
    → IsByte e
    → (tail_byte c && tail_byte d && tail_byte e) ≡ false
    → validate_bytes 4 v (b ∷ c ∷ d ∷ e ∷ rest) left allow_null ≡ some rejected
unfolding validate_bytes continuation
stops_four v b c d e rest left allow_null hc hd he stops =
    ground (arith, tag_bits c, tag_bits d, tag_bits e)

bytes_four :
    (b c d e : ℕ) (rest : List ℕ) (left : ℕ) (allow_null : Bool)
    → 240 ≤ b
    → b < 248
    → IsByte c
    → IsByte d
    → IsByte e
    → 4 ≤ left
    → validate_bytes 4 (b % 8) (b ∷ c ∷ d ∷ e ∷ rest) left allow_null
      ≡ some (verdict (four_ok b c d e) 4)
bytes_four b c d e rest left allow_null lo hi hc hd he l =
    elim (Bool-cases (tail_byte c && tail_byte d && tail_byte e)) [
      | inl ok ↦ ground (
        arith,
        validate_bytes_tagged 4 (b % 8) (b ∷ c ∷ d ∷ e ∷ rest) left allow_null (four_value b c d e),
        continuation_four (b % 8) b c d e rest,
        null_four b c d e rest left allow_null,
        in_range_four (four_value b c d e) allow_null,
      )
      | inr stops ↦ ground (arith, stops_four (b % 8) b c d e rest left allow_null)
    ]

pub check_four :
    (b c d e : ℕ) (rest : List ℕ) (left : ℕ) (allow_null : Bool)
    → 240 ≤ b
    → b < 248
    → IsByte c
    → IsByte d
    → IsByte e
    → 4 ≤ left
    → validate_char (b ∷ c ∷ d ∷ e ∷ rest) left allow_null ≡ some (verdict (four_ok b c d e) 4)
check_four b c d e rest left allow_null lo hi hc hd he l = ground (
  arith,
  check_first b (c ∷ d ∷ e ∷ rest) left allow_null,
  bytes_four b c d e rest left allow_null,
)

-- The loops read nothing past the sequence.
continuation_total :
    (n j : ℕ) (p : List ℕ) (v : ℕ)
    → All IsByte p
    → j + n ≤ length p
    → (x : Bool × ℕ) × (continuation n j p v ≡ some x)
unfolding continuation
continuation_total zero j p v bytes fits = ((true, v), refl)
continuation_total (suc n) j p v bytes fits =
    let (b, e, hb) = get_elem?_at p j bytes (omega arith) in
    let (x, ex) = continuation_total n (j + 1) p (shift_in v b) bytes (omega arith) in
    rw e (elim (Bool-cases (bit_and b 0xc0 == 0x80)) [
      | inl t ↦ rw t (x, ex)
      | inr t ↦ rw t ((false, shift_in v b), refl)
    ])

has_null_total :
    (n j : ℕ) (p : List ℕ) (left : ℕ)
    → All IsByte p
    → j + n ≤ length p
    → (x : Bool) × (has_null n j p left ≡ some x)
unfolding has_null
has_null_total zero j p left bytes fits = (false, refl)
has_null_total (suc n) j p left bytes fits =
    let (b, e, hb) = get_elem?_at p j bytes (omega arith) in
    let (x, ex) = has_null_total n (j + 1) p left bytes (omega arith) in
    rw e (elim (Bool-cases (ltb left j || b == 0)) [
      | inl t ↦ rw t (true, refl)
      | inr t ↦ rw t (x, ex)
    ])

check_null_total :
    (allow_null : Bool) (n : ℕ) (p : List ℕ) (left : ℕ)
    → All IsByte p
    → n ≤ length p
    → (x : Bool) × (check_null allow_null n p left ≡ some x)
unfolding check_null
check_null_total true n p left bytes fits = (false, refl)
check_null_total false n p left bytes fits = has_null_total n 0 p left bytes (omega arith)

-- Sequences of five and six bytes are rejected whatever they hold.
bytes_long :
    (n v : ℕ) (p : List ℕ) (left : ℕ) (allow_null : Bool)
    → 5 ≤ n
    → All IsByte p
    → n ≤ length p
    → validate_bytes n v p left allow_null ≡ some rejected
unfolding validate_bytes in_range
bytes_long n v p left allow_null h bytes fits =
    let (x, e) = continuation_total (n - 1) 1 p v bytes (omega arith) in
    let (null, e') = check_null_total allow_null n p left bytes fits in ground arith

-- The first byte is no first byte, or its sequence has five bytes or more.
pub check_bad :
    (b : ℕ) (rest : List ℕ) (left : ℕ) (allow_null : Bool)
    → IsByte b
    → All IsByte rest
    → left ≤ suc (length rest)
    → ((128 ≤ b) × (b < 192)) ⊎ (248 ≤ b)
    → validate_char (b ∷ rest) left allow_null ≡ some rejected
check_bad b rest left allow_null hb bytes fits bad = ground (
  arith,
  check_first b rest left allow_null,
  bytes_long 5 (b % 4) (b ∷ rest) left allow_null,
  bytes_long 6 (b % 2) (b ∷ rest) left allow_null,
)

-- The sequence does not fit into the bytes left.
pub check_short :
    (b : ℕ) (rest : List ℕ) (left : ℕ) (allow_null : Bool)
    → IsByte b
    → left < (sequence_of b).0
    → validate_char (b ∷ rest) left allow_null ≡ some rejected
check_short b rest left allow_null hb short = ground (arith, check_first b rest left allow_null)
