-- ===== src/Decimal128/Exact.antt =====
-- src/bson/bson-decimal128.c: the arithmetic on 128 bits is exact.
use libbson.Base.{
  ℕ, ◌+◌, ◌-◌, ◌*◌, ◌/◌, ◌%◌, ◌^◌, ◌≤◌, ◌<◌, ◌≡◌, inl, inr, refl, ◌∙◌, sym, true, ◌&&◌, ◌==◌,
  Bool-cases, arith,
}
use native.Mathlib.Nat.{mul-le-mul}
use libbson.Base.Words.{u32}
use libbson.Decimal128.{Uint128, divisor, dividend, divide1b, mul_64x64}

-- The number that four words stand for, and words of 32 bits.
abbrev pub to_number : Uint128 → ℕ
to_number v = v.part0 * 2 ^ 96 + v.part1 * 2 ^ 64 + v.part2 * 2 ^ 32 + v.part3

abbrev pub IsWords : Uint128 → Type 0
IsWords v = (v.part0 < 2 ^ 32) × (v.part1 < 2 ^ 32) × (v.part2 < 2 ^ 32) × (v.part3 < 2 ^ 32)

round_lem :
    (rem part : ℕ)
    → rem < divisor
    → part < 2 ^ 32
    → (rem * 2 ^ 32 + part
        ≡ u32 (dividend rem part / divisor) * divisor + dividend rem part % divisor)
      × (u32 (dividend rem part / divisor) < 2 ^ 32)
      × (dividend rem part % divisor < divisor)
      × (u32 (dividend rem part % divisor) ≡ dividend rem part % divisor)
unfolding dividend
round_lem rem part hr hp = (omega arith, omega arith, omega arith, omega arith)

divisor_pos : 0 < divisor
divisor_pos = omega arith

zero_lem :
    (p0 p1 p2 p3 : ℕ)
    → p0 == 0 && p1 == 0 && p2 == 0 && p3 == 0 ≡ true
    → p0 * 2 ^ 96 + p1 * 2 ^ 64 + p2 * 2 ^ 32 + p3
      ≡ (p0 * 2 ^ 96 + p1 * 2 ^ 64 + p2 * 2 ^ 32 + p3) * divisor + 0
zero_lem p0 p1 p2 p3 h = ground arith

chain_lem :
    (p0 p1 p2 p3 q0 q1 q2 q3 r0 r1 r2 r3 : ℕ)
    → 0 * 2 ^ 32 + p0 ≡ q0 * divisor + r0
    → r0 * 2 ^ 32 + p1 ≡ q1 * divisor + r1
    → r1 * 2 ^ 32 + p2 ≡ q2 * divisor + r2
    → r2 * 2 ^ 32 + p3 ≡ q3 * divisor + r3
    → p0 * 2 ^ 96 + p1 * 2 ^ 64 + p2 * 2 ^ 32 + p3
      ≡ (q0 * 2 ^ 96 + q1 * 2 ^ 64 + q2 * 2 ^ 32 + q3) * divisor + r3
chain_lem p0 p1 p2 p3 q0 q1 q2 q3 r0 r1 r2 r3 h0 h1 h2 h3 = omega arith

-- For four words of 32 bits `_bson_uint128_divide1B` divides their number by 10 ^ 9: the quotient
-- is four words of 32 bits, and its number and the remainder, which is below 10 ^ 9, make up the
-- number.
pub divide1b-exact :
    (v : Uint128)
    → IsWords v
    → (to_number v ≡ to_number (divide1b v).0 * divisor + (divide1b v).1)
      × ((divide1b v).1 < divisor)
      × IsWords (divide1b v).0
unfolding divide1b
divide1b-exact v (h0, h1, h2, h3) =
    let (e0, b0, r0, _) = round_lem 0 v.part0 divisor_pos h0 in
    let (e1, b1, r1, _) = round_lem (dividend 0 v.part0 % divisor) v.part1 r0 h1 in
    let (e2, b2, r2, _) =
      round_lem (dividend (dividend 0 v.part0 % divisor) v.part1 % divisor) v.part2 r1 h2 in
    let (e3, b3, r3, w3) =
      round_lem
        (dividend (dividend (dividend 0 v.part0 % divisor) v.part1 % divisor) v.part2 % divisor)
        v.part3 r2 h3 in
    elim (Bool-cases (v.part0 == 0 && v.part1 == 0 && v.part2 == 0 && v.part3 == 0)) [
      | inl zero_value ↦
          rw zero_value
            (zero_lem v.part0 v.part1 v.part2 v.part3 zero_value, divisor_pos, (h0, h1, h2, h3))
      | inr some_value ↦
          rw some_value
            (rw w3 (chain_lem _ _ _ _ _ _ _ _ _ _ _ _ e0 e1 e2 e3, r3, (b0, b1, b2, b3)))
    ]

-- The products of halves, whose values below are bounded, and the sum of their shares.
halves_lem :
    (a b c d : ℕ)
    → a < 2 ^ 32
    → b < 2 ^ 32
    → c < 2 ^ 32
    → d < 2 ^ 32
    → (a * 2 ^ 32 + b) * (c * 2 ^ 32 + d) ≡ a * c * 2 ^ 64 + a * d * 2 ^ 32 + b * c * 2 ^ 32 + b * d
halves_lem a b c d ha hb hc hd = grind arith

product_bound : (a b : ℕ) → a < 2 ^ 32 → b < 2 ^ 32 → a * b ≤ (2 ^ 32 - 1) * (2 ^ 32 - 1)
product_bound a b ha hb = mul-le-mul {n₂ = 2 ^ 32 - 1} {m₂ = 2 ^ 32 - 1} (omega arith) (omega arith)

sum_lem :
    (h m n l : ℕ)
    → h ≤ (2 ^ 32 - 1) * (2 ^ 32 - 1)
    → m ≤ (2 ^ 32 - 1) * (2 ^ 32 - 1)
    → n ≤ (2 ^ 32 - 1) * (2 ^ 32 - 1)
    → l ≤ (2 ^ 32 - 1) * (2 ^ 32 - 1)
    → (((h % 2 ^ 64 + m % 2 ^ 64 / 2 ^ 32) % 2 ^ 64
              + (u32 (m % 2 ^ 64) + n % 2 ^ 64 + l % 2 ^ 64 / 2 ^ 32) % 2 ^ 64 / 2 ^ 32)
            % 2 ^ 64)
          * 2 ^ 64
        + ((u32 (m % 2 ^ 64) + n % 2 ^ 64 + l % 2 ^ 64 / 2 ^ 32) % 2 ^ 64 * 2 ^ 32 % 2 ^ 64
            + u32 (l % 2 ^ 64))
          % 2 ^ 64
      ≡ h * 2 ^ 64 + m * 2 ^ 32 + n * 2 ^ 32 + l
sum_lem h m n l hh hm hn hl = omega arith

zero_product : (l r : ℕ) → l == 0 && r == 0 ≡ true → 0 ≡ l * r
zero_product l r h = grind arith

split_lem : (x : ℕ) → x / 2 ^ 32 * 2 ^ 32 + u32 x ≡ x
split_lem x = omega arith

-- The product of two numbers below 2 ^ 64 is exact: `_mul_64x64` answers its high and its low half,
-- both below 2 ^ 64.
pub mul_64x64-exact :
    (left right : ℕ)
    → left < 2 ^ 64
    → right < 2 ^ 64
    → ((mul_64x64 left right).0 * 2 ^ 64 + (mul_64x64 left right).1 ≡ left * right)
      × ((mul_64x64 left right).0 < 2 ^ 64)
      × ((mul_64x64 left right).1 < 2 ^ 64)
unfolding mul_64x64
mul_64x64-exact left right hl hr =
    let left_high : left / 2 ^ 32 < 2 ^ 32 = omega arith in
    let left_low : u32 left < 2 ^ 32 = omega arith in
    let right_high : right / 2 ^ 32 < 2 ^ 32 = omega arith in
    let right_low : u32 right < 2 ^ 32 = omega arith in
    let shares =
      halves_lem (left / 2 ^ 32) (u32 left) (right / 2 ^ 32) (u32 right) left_high left_low
        right_high right_low in
    let product : (left / 2 ^ 32 * 2 ^ 32 + u32 left) * (right / 2 ^ 32 * 2 ^ 32 + u32 right)
        ≡ left * right =
      rw (split_lem left) (rw (split_lem right) refl) in
    elim (Bool-cases (left == 0 && right == 0)) [
      | inl both_zero ↦ rw both_zero (zero_product left right both_zero, omega arith, omega arith)
      | inr some_value ↦ rw some_value (
        sum_lem _ _ _ _ (product_bound _ _ left_high right_high)
              (product_bound _ _ left_high right_low) (product_bound _ _ left_low right_high)
              (product_bound _ _ left_low right_low)
            ∙ sym shares
            ∙ product,
        omega arith,
        omega arith,
      )
    ]
