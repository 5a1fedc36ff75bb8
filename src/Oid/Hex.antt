-- ===== src/Oid/Hex.antt =====
-- Object ids as text: digits and back.
use libbson.Base.{
  ℕ, zero, suc, ◌+◌, ◌-◌, ◌*◌, ◌/◌, ◌%◌, ◌^◌, ◌<◌, ◌≡◌, refl, sym, ap, ◌∙◌, bit_or, Bool, true,
  false, ◌&&◌, some, List, [], ◌∷◌, length, take, All, arith, ltb, leb, ◌==◌, if◌then◌else◌,
}
use libbson.Base.Bits.{all_below, all_below_sound, bit_or_fields}
use libbson.Base.Words.{IsByte, le_bytes}
use libbson.Oid.{
  parse_hex_char, parse_pairs, init_from_string, hex_pair, to_string, is_hex_char, all_hex,
  is_valid,
}

digit : ℕ → ℕ
digit n = if ltb n 10 then n + b'0' else n - 10 + b'a'

pair_eq : List ℕ → ℕ → ℕ → Bool
pair_eq (x ∷ y ∷ []) a b = x == a && y == b
pair_eq other a b = false

pair_table : all_below 256 (λ b. pair_eq (hex_pair b) (digit (b / 16)) (digit (b % 16))) ≡ true
unfolding all_below hex_pair pair_eq digit le_bytes
pair_table = refl

pair_eq_sound : (xs : List ℕ) (a b : ℕ) → pair_eq xs a b ≡ true → xs ≡ a ∷ b ∷ []
unfolding pair_eq
pair_eq_sound [] a b h = cc
pair_eq_sound (x ∷ []) a b h = cc
pair_eq_sound (x ∷ y ∷ []) a b h = ground arith
pair_eq_sound (x ∷ y ∷ z ∷ zs) a b h = cc

hex_pair_lem : (b : ℕ) → b < 256 → hex_pair b ≡ digit (b / 16) ∷ digit (b % 16) ∷ []
hex_pair_lem b h =
    pair_eq_sound (hex_pair b) (digit (b / 16)) (digit (b % 16))
      (all_below_sound _ 256 b h pair_table)

parse_table : all_below 16 (λ n. parse_hex_char (digit n) == n && is_hex_char (digit n)) ≡ true
unfolding all_below parse_hex_char is_hex_char digit
parse_table = refl

parse_digit : (n : ℕ) → n < 16 → (parse_hex_char (digit n) ≡ n) × (is_hex_char (digit n) ≡ true)
parse_digit n h =
    let t : (parse_hex_char (digit n) == n && is_hex_char (digit n)) ≡ true =
      all_below_sound (λ k. parse_hex_char (digit k) == k && is_hex_char (digit k)) 16 n h
        parse_table in
    (ground arith, ground arith)

pairs-to_string :
    (oid : List ℕ) → All IsByte oid → parse_pairs (length oid) (to_string oid) ≡ some oid
unfolding parse_pairs to_string
pairs-to_string [] h = refl
pairs-to_string (b ∷ oid) h =
    rw (hex_pair_lem b h.0, pairs-to_string oid h.1) (ap (λ (t : ℕ). some (t ∷ oid)) value)
  where
    value :
        bit_or (parse_hex_char (digit (b / 16)) * 2 ^ 4) (parse_hex_char (digit (b % 16))) % 2 ^ 8
        ≡ b
    value =
        rw ((parse_digit (b / 16) (omega (arith, h.0))).0, (parse_digit (b % 16) (omega arith)).0)
          (omega (arith, bit_or_fields 4 (b / 16) (b % 16) (omega arith), h.0))

all_hex-to_string : (oid : List ℕ) → All IsByte oid → all_hex (to_string oid) ≡ true
unfolding all_hex to_string
all_hex-to_string [] h = refl
all_hex-to_string (b ∷ oid) h =
    rw
      (
        hex_pair_lem b h.0,
        (parse_digit (b / 16) (omega (arith, h.0))).1,
        (parse_digit (b % 16) (omega arith)).1,
      )
      (all_hex-to_string oid h.1)

length-to_string : (oid : List ℕ) → All IsByte oid → length (to_string oid) ≡ 2 * length oid
unfolding to_string
length-to_string [] h = refl
length-to_string (b ∷ oid) h = rw (hex_pair_lem b h.0) (omega (arith, length-to_string oid h.1))

take_all : (xs : List ℕ) → take (length xs) xs ≡ xs
take_all [] = refl
take_all (x ∷ xs) = ap (λ t. x ∷ t) (take_all xs)

-- The text of an object id, which is twelve bytes, is valid and gives the object id back.
pub init_from_string-to_string :
    (oid : List ℕ)
    → All IsByte oid
    → length oid ≡ 12
    → (init_from_string (to_string oid) ≡ some oid) × (is_valid (to_string oid) ≡ true)
unfolding init_from_string is_valid
init_from_string-to_string oid h twelve = (
  ap (λ (n : ℕ). parse_pairs n (to_string oid)) (sym twelve) ∙ pairs-to_string oid h,
  rw (size) (
      ap (λ (n : ℕ). all_hex (take n (to_string oid))) (sym size)
      ∙ ap all_hex (take_all (to_string oid))
      ∙ all_hex-to_string oid h),
)
  where
    size : length (to_string oid) ≡ 24
    size = omega (arith, length-to_string oid h)

-- What is printed for a digit that was read: a capital becomes a small letter.
unfoldable pub lower : ℕ → ℕ
lower c = if leb b'A' c && leb c b'F' then c + 32 else c

lower_table :
    all_below 256 (λ c.
      if is_hex_char c
      then digit (parse_hex_char c) == lower c && ltb (parse_hex_char c) 16
      else true)
    ≡ true
unfolding all_below parse_hex_char is_hex_char digit lower
lower_table = refl

unfoldable pub lowered : List ℕ → List ℕ
lowered [] = []
lowered (c ∷ str) = lower c ∷ lowered str

parse_lower :
    (c : ℕ)
    → IsByte c
    → is_hex_char c ≡ true
    → (digit (parse_hex_char c) ≡ lower c) × (parse_hex_char c < 16)
parse_lower c byte hex =
    let t =
      all_below_sound
        (λ c.
          if is_hex_char c
          then digit (parse_hex_char c) == lower c && ltb (parse_hex_char c) 16
          else true)
        256 c byte lower_table in
    (grind arith, grind arith)

Read : ℕ → List ℕ → List ℕ → Type 0
Read n str oid =
    (parse_pairs n str ≡ some oid)
    × (to_string oid ≡ lowered str)
    × All IsByte oid
    × (length oid ≡ n)

Read-pair :
    (n high low : ℕ) (str oid : List ℕ)
    → IsByte high
    → IsByte low
    → is_hex_char high ≡ true
    → is_hex_char low ≡ true
    → Read n str oid
    → (byte : ℕ) × Read (suc n) (high ∷ low ∷ str) (byte ∷ oid)
unfolding parse_pairs to_string lowered Read
Read-pair n high low str oid high_byte low_byte high_hex low_hex rest =
    (byte, (rw (rest.0) refl, rw (pair, rest.1) refl, (omega arith, rest.2), omega (arith, rest.3)))
  where
    first : (digit (parse_hex_char high) ≡ lower high) × (parse_hex_char high < 16)
    first = parse_lower high high_byte high_hex

    second : (digit (parse_hex_char low) ≡ lower low) × (parse_hex_char low < 16)
    second = parse_lower low low_byte low_hex

    byte : ℕ
    byte = bit_or (parse_hex_char high * 2 ^ 4) (parse_hex_char low) % 2 ^ 8

    value : byte ≡ parse_hex_char high * 16 + parse_hex_char low
    value = omega (
      arith,
      bit_or_fields 4 (parse_hex_char high) (parse_hex_char low) (second.1),
      first.1,
      second.1,
    )

    pair : hex_pair byte ≡ lower high ∷ lower low ∷ []
    pair = hex_pair_lem byte (omega arith) ∙ rw (high_part, low_part, first.0, second.0) refl
      where
        high_part : byte / 16 ≡ parse_hex_char high
        high_part = omega (arith, value, second.1)

        low_part : byte % 16 ≡ parse_hex_char low
        low_part = omega (arith, value, second.1)

Read-pairs :
    (n : ℕ) (str : List ℕ)
    → All IsByte str
    → length str ≡ 2 * n
    → all_hex str ≡ true
    → (oid : List ℕ) × Read n str oid
unfolding all_hex Read parse_pairs to_string lowered
Read-pairs zero [] bytes size hex = ([], (refl, refl, tt, refl))
Read-pairs zero (c ∷ str) bytes size hex = absurd (omega (arith, size))
Read-pairs (suc n) [] bytes size hex = absurd (omega (arith, size))
Read-pairs (suc n) (c ∷ []) bytes size hex = absurd (omega (arith, size))
Read-pairs (suc n) (high ∷ low ∷ str) bytes size hex =
    let rest : (oid : List ℕ) × Read n str oid =
      Read-pairs n str bytes.1.1 (omega (arith, size)) (grind arith) in
    let pair : (byte : ℕ) × Read (suc n) (high ∷ low ∷ str) (byte ∷ rest.0) =
      Read-pair n high low str rest.0 bytes.0 bytes.1.0 (grind arith) (grind arith) rest.1 in
    (pair.0 ∷ rest.0, pair.1)

-- Every text of 24 bytes that is valid gives an object id of twelve bytes, whose text is the same
-- text with its capitals made small.
pub to_string-init_from_string :
    (str : List ℕ)
    → All IsByte str
    → length str ≡ 24
    → is_valid str ≡ true
    → (oid : List ℕ) × (init_from_string str ≡ some oid)
      × (to_string oid ≡ lowered str)
      × All IsByte oid
      × (length oid ≡ 12)
unfolding init_from_string is_valid Read
to_string-init_from_string str bytes size valid =
    let read : (oid : List ℕ) × Read 12 str oid = Read-pairs 12 str bytes size hex in
    (read.0, read.1.0, read.1.1, read.1.2, read.1.3)
  where
    hex : all_hex str ≡ true
    hex =
        sym (ap all_hex (take_all str))
        ∙ ap (λ (n : ℕ). all_hex (take n str)) size
        ∙ grind (arith, size, valid)
