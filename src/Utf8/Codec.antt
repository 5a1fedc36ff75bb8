-- ===== src/Utf8/Codec.antt =====
-- What `bson_utf8_from_unichar` stores, and what `bson_utf8_get_char` reads back.
use libbson.Base.{
  ℕ, ◌+◌, ◌-◌, ◌*◌, ◌/◌, ◌%◌, ◌≤◌, ◌<◌, bit_and, bit_or, ◌≡◌, ◌≢◌, ap, ◌∙◌, some, List, [], ◌∷◌,
  ◌++◌, arith, ltb, if◌then◌else◌,
}
use libbson.Base.Bits.{bit_and_mask, bit_or_fields}
use libbson.Base.Words.{IsByte}
use libbson.Utf8.{get_char_loop, get_char, next_char, from_unichar}
use libbson.Utf8.Arith.{
  sequence_of, sequence_length, masked_first, shift_in_lem, lead_two, lead_three, lead_four,
  lead_five, lead_six, tagged,
}

-- The bytes of a code point, in plain arithmetic: the tag of the lead byte, then groups of six
-- bits.
abbrev pub group : ℕ → ℕ
group x = 128 + x % 64

abbrev pub encoding : ℕ → List ℕ
encoding c =
    if ltb c 0x80
    then c ∷ []
    else if ltb c 0x800
    then (192 + c / 64) ∷ group c ∷ []
    else if ltb c 0x10000
    then (224 + c / 4096) ∷ group (c / 64) ∷ group c ∷ []
    else if ltb c 0x200000
    then (240 + c / 262144) ∷ group (c / 4096) ∷ group (c / 64) ∷ group c ∷ []
    else (248 + c / 16777216)
      ∷ group (c / 262144)
      ∷ group (c / 4096)
      ∷ group (c / 64)
      ∷ group c
      ∷ []

mask_six : (x : ℕ) → x < 64 → bit_and x 0x3f ≡ x
mask_six x h = bit_and_mask 6 x ∙ omega arith

mask_four : (x : ℕ) → x < 16 → bit_and x 0xf ≡ x
mask_four x h = bit_and_mask 4 x ∙ omega arith

mask_three : (x : ℕ) → x < 8 → bit_and x 0x7 ≡ x
mask_three x h = bit_and_mask 3 x ∙ omega arith

mask_two : (x : ℕ) → x < 4 → bit_and x 0x3 ≡ x
mask_two x h = bit_and_mask 2 x ∙ omega arith

pub from_unichar-encoding : (c : ℕ) → c < 0x4000000 → from_unichar c ≡ encoding c
unfolding from_unichar
from_unichar-encoding c h = ground (
  arith,
  tagged c,
  tagged (c / 64),
  tagged (c / 4096),
  tagged (c / 262144),
  mask_six (c / 64),
  lead_two (c / 64),
  mask_four (c / 4096),
  lead_three (c / 4096),
  mask_three (c / 262144),
  lead_four (c / 262144),
  mask_two (c / 16777216),
  lead_five (c / 16777216),
)

-- Decoding by the arithmetic reading of the first byte.
get_char_first :
    (b : ℕ) (rest : List ℕ)
    → IsByte b
    → get_char (b ∷ rest)
      ≡ get_char_loop ((sequence_of b).0 - 1) 1 (b ∷ rest) (b % ((sequence_of b).1 + 1))
unfolding get_char
get_char_first b rest h = rw (sequence_length b h, masked_first b h)

-- Sequences of two to five bytes, read by the tag of the first one.
decode_one : (b : ℕ) (rest : List ℕ) → b < 128 → get_char (b ∷ rest) ≡ some b
unfolding get_char_loop
decode_one b rest h = ground (arith, get_char_first b rest)

decode_two :
    (b c : ℕ) (rest : List ℕ)
    → 192 ≤ b
    → b < 224
    → get_char (b ∷ c ∷ rest) ≡ some (b % 32 * 64 + c % 64)
unfolding get_char_loop
decode_two b c rest lo hi = ground (arith, get_char_first b (c ∷ rest), shift_in_lem (b % 32) c)

decode_three :
    (b c d : ℕ) (rest : List ℕ)
    → 224 ≤ b
    → b < 240
    → get_char (b ∷ c ∷ d ∷ rest) ≡ some ((b % 16 * 64 + c % 64) * 64 + d % 64)
unfolding get_char_loop
decode_three b c d rest lo hi = ground (
  arith,
  get_char_first b (c ∷ d ∷ rest),
  shift_in_lem (b % 16) c,
  shift_in_lem (b % 16 * 64 + c % 64) d,
)

decode_four :
    (b c d e : ℕ) (rest : List ℕ)
    → 240 ≤ b
    → b < 248
    → get_char (b ∷ c ∷ d ∷ e ∷ rest) ≡ some (((b % 8 * 64 + c % 64) * 64 + d % 64) * 64 + e % 64)
unfolding get_char_loop
decode_four b c d e rest lo hi = ground (
  arith,
  get_char_first b (c ∷ d ∷ e ∷ rest),
  shift_in_lem (b % 8) c,
  shift_in_lem (b % 8 * 64 + c % 64) d,
  shift_in_lem ((b % 8 * 64 + c % 64) * 64 + d % 64) e,
)

decode_five :
    (b c d e f : ℕ) (rest : List ℕ)
    → 248 ≤ b
    → b < 252
    → get_char (b ∷ c ∷ d ∷ e ∷ f ∷ rest)
      ≡ some ((((b % 4 * 64 + c % 64) * 64 + d % 64) * 64 + e % 64) * 64 + f % 64)
unfolding get_char_loop
decode_five b c d e f rest lo hi = ground (
  arith,
  get_char_first b (c ∷ d ∷ e ∷ f ∷ rest),
  shift_in_lem (b % 4) c,
  shift_in_lem (b % 4 * 64 + c % 64) d,
  shift_in_lem ((b % 4 * 64 + c % 64) * 64 + d % 64) e,
  shift_in_lem (((b % 4 * 64 + c % 64) * 64 + d % 64) * 64 + e % 64) f,
)

decode_six :
    (b c d e f g : ℕ) (rest : List ℕ)
    → 252 ≤ b
    → b < 254
    → get_char (b ∷ c ∷ d ∷ e ∷ f ∷ g ∷ rest)
      ≡ some (((((b % 2 * 64 + c % 64) * 64 + d % 64) * 64 + e % 64) * 64 + f % 64) * 64 + g % 64)
unfolding get_char_loop
decode_six b c d e f g rest lo hi = ground (
  arith,
  get_char_first b (c ∷ d ∷ e ∷ f ∷ g ∷ rest),
  shift_in_lem (b % 2) c,
  shift_in_lem (b % 2 * 64 + c % 64) d,
  shift_in_lem ((b % 2 * 64 + c % 64) * 64 + d % 64) e,
  shift_in_lem (((b % 2 * 64 + c % 64) * 64 + d % 64) * 64 + e % 64) f,
  shift_in_lem ((((b % 2 * 64 + c % 64) * 64 + d % 64) * 64 + e % 64) * 64 + f % 64) g,
)

decode_encoding : (c : ℕ) (rest : List ℕ) → c < 0x4000000 → get_char (encoding c ++ rest) ≡ some c
decode_encoding c rest h = ground (
  arith,
  decode_one c rest,
  decode_two (192 + c / 64) (group c) rest,
  decode_three (224 + c / 4096) (group (c / 64)) (group c) rest,
  decode_four (240 + c / 262144) (group (c / 4096)) (group (c / 64)) (group c) rest,
  decode_five (248 + c / 16777216) (group (c / 262144)) (group (c / 4096)) (group (c / 64))
      (group c) rest,
)

skip_encoding : (c : ℕ) (rest : List ℕ) → c < 0x4000000 → next_char (encoding c ++ rest) ≡ some rest
unfolding next_char
skip_encoding c rest h = ground (
  arith,
  sequence_length c,
  sequence_length (192 + c / 64),
  sequence_length (224 + c / 4096),
  sequence_length (240 + c / 262144),
  sequence_length (248 + c / 16777216),
)

-- Below 0x4000000, where the encoding has at most five bytes, decoding gives the code point back
-- and skipping it leads to whatever follows.
pub get_char-from_unichar :
    (c : ℕ) (rest : List ℕ)
    → c < 0x4000000
    → (get_char (from_unichar c ++ rest) ≡ some c)
      × (next_char (from_unichar c ++ rest) ≡ some rest)
get_char-from_unichar c rest h =
    rw (from_unichar-encoding c h) (decode_encoding c rest h, skip_encoding c rest h)

last_bit : (c : ℕ) → bit_or 0x80 (bit_and c 0x1) ≡ 128 + c % 2
last_bit c =
    ap (λ (t : ℕ). bit_or 0x80 t) (bit_and_mask 1 c) ∙ bit_or_fields 6 2 (c % 2) (omega arith)

six_bytes :
    (c : ℕ)
    → 0x4000000 ≤ c
    → c ≤ 0x7fffffff
    → from_unichar c
      ≡ 252
        ∷ group (c / 33554432)
        ∷ group (c / 524288)
        ∷ group (c / 8192)
        ∷ group (c / 128)
        ∷ (128 + c % 2)
        ∷ []
unfolding from_unichar
six_bytes c lo hi = ground (
  arith,
  tagged (c / 33554432),
  tagged (c / 524288),
  tagged (c / 8192),
  tagged (c / 128),
  last_bit c,
  bit_and_mask 1 (c / 2147483648),
  lead_six 0,
)

-- From 0x4000000 to 0x7fffffff, where the encoding has six bytes, decoding never gives the code
-- point `c` back, but `c / 128 * 64 + c % 2`.
pub get_char-six_bytes :
    (c : ℕ) (rest : List ℕ)
    → 0x4000000 ≤ c
    → c ≤ 0x7fffffff
    → (get_char (from_unichar c ++ rest) ≡ some (c / 128 * 64 + c % 2))
      × (get_char (from_unichar c ++ rest) ≢ some c)
get_char-six_bytes c rest lo hi = (decoded, λ e. ground (arith, decoded))
  where
    decoded : get_char (from_unichar c ++ rest) ≡ some (c / 128 * 64 + c % 2)
    decoded = rw (six_bytes c lo hi) (
        decode_six 252 (group (c / 33554432)) (group (c / 524288)) (group (c / 8192))
          (group (c / 128)) (128 + c % 2) rest (omega arith) (omega arith)
        ∙ ap some (omega arith))
