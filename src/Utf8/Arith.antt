-- ===== src/Utf8/Arith.antt =====
-- The masks and shifts of bson-utf8.c as arithmetic.
use libbson.Base.{
  ℕ, ◌+◌, ◌*◌, ◌/◌, ◌%◌, ◌<◌, ◌^◌, bit_and, bit_or, ◌≡◌, refl, ap, ◌∙◌, true, arith, ltb, ◌==◌,
  ==_iff, if◌then◌else◌,
}
use libbson.Base.Bits.{all_below, all_below_sound, bit_or_fields, bit_and_mask, bit_and_high}
use libbson.Base.Words.{u32, IsByte}
use libbson.Utf8.{get_sequence, shift_in}

-- The sequence lengths and masks by the range of the first byte.
abbrev pub sequence_of : ℕ → ℕ × ℕ
sequence_of b =
    if ltb b 128
    then (1, 127)
    else if ltb b 192
    then (0, 0)
    else if ltb b 224
    then (2, 31)
    else if ltb b 240
    then (3, 15)
    else if ltb b 248
    then (4, 7)
    else if ltb b 252
    then (5, 3)
    else if ltb b 254
    then (6, 1)
    else (0, 0)

length_table : all_below 256 (λ b. (get_sequence b).0 == (sequence_of b).0) ≡ true
unfolding all_below get_sequence
length_table = refl

mask_table : all_below 256 (λ b. bit_and b (get_sequence b).1 == b % ((sequence_of b).1 + 1)) ≡ true
unfolding all_below get_sequence
mask_table = refl

pub sequence_length : (b : ℕ) → IsByte b → (get_sequence b).0 ≡ (sequence_of b).0
sequence_length b h = (==_iff _ _).0 (all_below_sound _ 256 b h length_table)

-- The first byte under its mask, where the byte starts a sequence.
pub masked_first : (b : ℕ) → IsByte b → bit_and b (get_sequence b).1 ≡ b % ((sequence_of b).1 + 1)
masked_first b h = (==_iff _ _).0 (all_below_sound _ 256 b h mask_table)

-- A continuation byte is one from 128 up to 191.
tag_table : all_below 256 (λ b. bit_and b 0xc0 == b / 64 * 64) ≡ true
unfolding all_below
tag_table = refl

pub tag_bits : (b : ℕ) → IsByte b → bit_and b 0xc0 ≡ b / 64 * 64
tag_bits b h = (==_iff _ _).0 (all_below_sound _ 256 b h tag_table)

pub shift_in_lem : (c b : ℕ) → c < 2 ^ 26 → shift_in c b ≡ c * 64 + b % 64
unfolding shift_in
shift_in_lem c b h =
    rw (bit_and_mask 6 b)
      (ap (λ (t : ℕ). bit_or t (b % 64)) (fits c h) ∙ bit_or_fields 6 c (b % 64) (omega arith))
  where
    fits : (c : ℕ) → c < 2 ^ 26 → u32 (c * 64) ≡ c * 2 ^ 6
    fits c h = omega arith

pub surrogate_bits : (c : ℕ) → c < 2 ^ 32 → bit_and c 0xfffff800 ≡ c / 2048 * 2048
surrogate_bits c h =
    ap (λ (t : ℕ). bit_and t 0xfffff800) split
    ∙ bit_and_high 11 (c / 2048) (c % 2048) 0x1fffff (omega arith)
    ∙ ap (λ (t : ℕ). t * 2048) (bit_and_mask 21 (c / 2048) ∙ omega arith)
  where
    split : c ≡ c / 2048 * 2 ^ 11 + c % 2048
    split = omega arith

-- Tag bits over a field of their own width.
pub lead_two : (x : ℕ) → x < 32 → bit_or 0xc0 x ≡ 192 + x
lead_two x h = bit_or_fields 5 6 x h

pub lead_three : (x : ℕ) → x < 16 → bit_or 0xe0 x ≡ 224 + x
lead_three x h = bit_or_fields 4 14 x h

pub lead_four : (x : ℕ) → x < 8 → bit_or 0xf0 x ≡ 240 + x
lead_four x h = bit_or_fields 3 30 x h

pub lead_five : (x : ℕ) → x < 4 → bit_or 0xf8 x ≡ 248 + x
lead_five x h = bit_or_fields 2 62 x h

pub lead_six : (x : ℕ) → x < 2 → bit_or 0xfc x ≡ 252 + x
lead_six x h = bit_or_fields 1 126 x h

pub tagged : (x : ℕ) → bit_or 0x80 (bit_and x 0x3f) ≡ 128 + x % 64
tagged x =
    ap (λ (t : ℕ). bit_or 0x80 t) (bit_and_mask 6 x) ∙ bit_or_fields 6 2 (x % 64) (omega arith)
