-- ===== src/Decimal128.antt =====
-- src/bson/bson-decimal128.c: the arithmetic on 128 bits that printing and parsing stand on, and
-- the comparison of words. The texts themselves are left out.
pub mod Exact
pub mod Names
use libbson.Base.{
  ℕ, ◌+◌, ◌-◌, ◌*◌, ◌/◌, ◌%◌, ◌^◌, Bool, true, false, ◌&&◌, List, [], ◌∷◌, leb, ◌==◌, if◌then◌else◌,
}
use libbson.Base.Words.{u32}

-- `_bson_uint128_t`: four words, the highest first.
pub record Uint128 : Type 0 where
  pub part0 : ℕ
  pub part1 : ℕ
  pub part2 : ℕ
  pub part3 : ℕ

abbrev pub divisor : ℕ
divisor = 1000 * 1000 * 1000

-- A round of the loop of `_bson_uint128_divide1B`: the dividend, whose quotient and remainder
-- follow.
unfoldable pub dividend : ℕ → ℕ → ℕ
dividend rem part = (rem * 2 ^ 32 % 2 ^ 64 + part) % 2 ^ 64

-- `_bson_uint128_divide1B`: the quotient and the remainder.
unfoldable pub divide1b : Uint128 → Uint128 × ℕ
unfolding dividend
divide1b value =
    let d0 = dividend 0 value.part0 in
    let d1 = dividend (d0 % divisor) value.part1 in
    let d2 = dividend (d1 % divisor) value.part2 in
    let d3 = dividend (d2 % divisor) value.part3 in
    if value.part0 == 0 && value.part1 == 0 && value.part2 == 0 && value.part3 == 0
    then (value, 0)
    else (
      record {
        part0 = u32 (d0 / divisor);
        part1 = u32 (d1 / divisor);
        part2 = u32 (d2 / divisor);
        part3 = u32 (d3 / divisor);
      },
      u32 (d3 % divisor),
    )

-- `_mul_64x64`: the high and the low half of the product of two `uint64_t`.
unfoldable pub mul_64x64 : ℕ → ℕ → ℕ × ℕ
mul_64x64 left right =
    let left_high = left / 2 ^ 32 in
    let left_low = u32 left in
    let right_high = right / 2 ^ 32 in
    let right_low = u32 right in
    let high = left_high * right_high % 2 ^ 64 in
    let mid = left_high * right_low % 2 ^ 64 in
    let mid2 = left_low * right_high % 2 ^ 64 in
    let low = left_low * right_low % 2 ^ 64 in
    let high' = (high + mid / 2 ^ 32) % 2 ^ 64 in
    let mid' = (u32 mid + mid2 + low / 2 ^ 32) % 2 ^ 64 in
    if left == 0 && right == 0
    then (0, 0)
    else ((high' + mid' / 2 ^ 32) % 2 ^ 64, (mid' * 2 ^ 32 % 2 ^ 64 + u32 low) % 2 ^ 64)

-- `isupper` is the C library's.
module _ (isupper : ℕ → Bool) where
  -- `_dec128_tolower`.
  unfoldable pub to_lower : ℕ → ℕ
  to_lower c = if isupper c then (c + 32) % 2 ^ 8 else c

  -- `_dec128_istreq` of the characters in front of the NULs of two strings.
  unfoldable pub is_text_equal : List ℕ → List ℕ → Bool
  is_text_equal [] [] = true
  is_text_equal [] (y ∷ b) = false
  is_text_equal (x ∷ a) [] = false
  is_text_equal (x ∷ a) (y ∷ b) =
      let rest = is_text_equal a b in if to_lower x == to_lower y then rest else false
