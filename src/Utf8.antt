-- ===== src/Utf8.antt =====
-- src/bson/bson-utf8.c: sequence lengths, decoding, encoding, validation and JSON escaping.
-- A pointer is the list of the bytes that can be read from it on. `none` is a read past its end.
-- A `char` is the number of its bit pattern: every use of one here is masked or compared with 0.
-- Lengths are below 2 ^ 32, as in every BSON document, so the `unsigned` index does not wrap.
pub mod Arith
pub mod Codec
pub mod Validate
use libbson.Base.{
  ℕ, zero, suc, ◌+◌, ◌-◌, ◌*◌, ◌/◌, ◌%◌, bit_and, bit_or, Bool, true, false, ◌&&◌, ◌||◌, Option,
  none, some, List, [], ◌∷◌, get_elem?, drop, ltb, leb, ◌==◌, if◌then◌else◌, ◌>>=◌,
}
use libbson.Base.Words.{u32}

-- `_bson_utf8_get_sequence`: the sequence length and the mask of the first byte.
pub get_sequence : ℕ → ℕ × ℕ
get_sequence c =
    if bit_and c 0x80 == 0
    then (1, 0x7f)
    else if bit_and c 0xe0 == 0xc0
    then (2, 0x1f)
    else if bit_and c 0xf0 == 0xe0
    then (3, 0x0f)
    else if bit_and c 0xf8 == 0xf0
    then (4, 0x07)
    else if bit_and c 0xfc == 0xf8
    then (5, 0x03)
    else if bit_and c 0xfe == 0xfc
    then (6, 0x01)
    else (0, 0)

-- `c = (c << 6) | (utf8[i] & 0x3F)`
pub shift_in : ℕ → ℕ → ℕ
shift_in c b = bit_or (u32 (c * 64)) (bit_and b 0x3f)

get_char_loop : ℕ → ℕ → List ℕ → ℕ → Option ℕ
get_char_loop zero i utf8 c = some c
get_char_loop (suc n) i utf8 c = do
  b ← get_elem? utf8 i
  get_char_loop n (i + 1) utf8 (shift_in c b)

-- `bson_utf8_get_char`
pub get_char : List ℕ → Option ℕ
get_char utf8 = do
  b ← get_elem? utf8 0
  get_char_loop ((get_sequence b).0 - 1) 1 utf8 (bit_and b (get_sequence b).1)

-- `bson_utf8_next_char`
pub next_char : List ℕ → Option (List ℕ)
next_char utf8 = do b ← get_elem? utf8 0; some (drop (get_sequence b).0 utf8)

-- `bson_utf8_from_unichar`: the bytes stored, as many as `*len` says.
unfoldable pub from_unichar : ℕ → List ℕ
from_unichar c =
    if leb c 0x7f
    then c ∷ []
    else if leb c 0x7ff
    then bit_or 0xc0 (bit_and (c / 64) 0x3f) ∷ bit_or 0x80 (bit_and c 0x3f) ∷ []
    else if leb c 0xffff
    then bit_or 0xe0 (bit_and (c / 4096) 0xf)
      ∷ bit_or 0x80 (bit_and (c / 64) 0x3f)
      ∷ bit_or 0x80 (bit_and c 0x3f)
      ∷ []
    else if leb c 0x1fffff
    then bit_or 0xf0 (bit_and (c / 262144) 0x7)
      ∷ bit_or 0x80 (bit_and (c / 4096) 0x3f)
      ∷ bit_or 0x80 (bit_and (c / 64) 0x3f)
      ∷ bit_or 0x80 (bit_and c 0x3f)
      ∷ []
    else if leb c 0x3ffffff
    then bit_or 0xf8 (bit_and (c / 16777216) 0x3)
      ∷ bit_or 0x80 (bit_and (c / 262144) 0x3f)
      ∷ bit_or 0x80 (bit_and (c / 4096) 0x3f)
      ∷ bit_or 0x80 (bit_and (c / 64) 0x3f)
      ∷ bit_or 0x80 (bit_and c 0x3f)
      ∷ []
    else if leb c 0x7fffffff
    then bit_or 0xfc (bit_and (c / 2147483648) 0x1)
      ∷ bit_or 0x80 (bit_and (c / 33554432) 0x3f)
      ∷ bit_or 0x80 (bit_and (c / 524288) 0x3f)
      ∷ bit_or 0x80 (bit_and (c / 8192) 0x3f)
      ∷ bit_or 0x80 (bit_and (c / 128) 0x3f)
      ∷ bit_or 0x80 (bit_and c 0x1)
      ∷ []
    else []

-- The loop over the continuation bytes: false when one has other high bits than 10.
continuation : ℕ → ℕ → List ℕ → ℕ → Option (Bool × ℕ)
continuation zero j utf8 c = some (true, c)
continuation (suc n) j utf8 c = do
  b ← get_elem? utf8 j
  let rest = continuation n (j + 1) utf8 (shift_in c b)
  if bit_and b 0xc0 == 0x80 then rest else some (false, shift_in c b)

-- The loop that looks for a NUL in the sequence.
has_null : ℕ → ℕ → List ℕ → ℕ → Option Bool
has_null zero j utf8 left = some false
has_null (suc n) j utf8 left = do
  b ← get_elem? utf8 j
  let rest = has_null n (j + 1) utf8 left
  if ltb left j || b == 0 then some true else rest

-- The code points that `bson_utf8_validate` lets through for a sequence length.
in_range : ℕ → ℕ → Bool → Bool
in_range n c allow_null =
    if ltb 0x10ffff c
    then false
    else if bit_and c 0xfffff800 == 0xd800
    then false
    else if n == 1
    then leb c 0x7f
    else if n == 2
    then (if leb 0x80 c && leb c 0x7ff then true else if c == 0 then allow_null else false)
    else if n == 3
    then (leb 0x800 c && leb c 0xfff) || (leb 0x1000 c && leb c 0xffff)
    else if n == 4
    then (leb 0x10000 c && leb c 0x3ffff)
      || (leb 0x40000 c && leb c 0xfffff)
      || (leb 0x100000 c && leb c 0x10ffff)
    else false

check_null : Bool → ℕ → List ℕ → ℕ → Option Bool
check_null true n utf8 left = some false
check_null false n utf8 left = has_null n 0 utf8 left

-- `return false`, or `continue` with the sequence length to skip.
pub data Verdict : Type 0 where
  rejected : Verdict
  accepted : ℕ → Verdict

-- The tests on the bytes of one sequence, once its length is known.
validate_bytes : ℕ → ℕ → List ℕ → ℕ → Bool → Option Verdict
validate_bytes n c utf8 left allow_null = do
  (tagged, c') ← continuation (n - 1) 1 utf8 c
  let checked = (do
    null ← check_null allow_null n utf8 left
    some (if null then rejected else if in_range n c' allow_null then accepted n else rejected))
  if tagged then checked else some rejected

-- One round of the loop of `bson_utf8_validate`, at `&utf8[i]` with `utf8_len - i` bytes left.
pub validate_char : List ℕ → ℕ → Bool → Option Verdict
validate_char utf8 left allow_null = do
  b ← get_elem? utf8 0
  let n = (get_sequence b).0
  let checked = validate_bytes n (bit_and b (get_sequence b).1) utf8 left allow_null
  if n == 0 then some rejected else if ltb left n then some rejected else checked

-- Each round skips a byte at least, so `utf8_len` rounds are enough; `none` is also no fuel left.
validate_loop : ℕ → List ℕ → ℕ → Bool → Option Bool
validate_loop fuel utf8 zero allow_null = some true
validate_loop zero utf8 (suc left) allow_null = none
validate_loop (suc fuel) utf8 (suc left) allow_null = do
  v ← validate_char utf8 (suc left) allow_null
  elim v [
    | rejected ↦ some false
    | accepted n ↦ validate_loop fuel (drop n utf8) (suc left - n) allow_null
  ]

-- `bson_utf8_validate`
pub validate : List ℕ → ℕ → Bool → Option Bool
validate utf8 utf8_len allow_null = validate_loop utf8_len utf8 utf8_len allow_null
