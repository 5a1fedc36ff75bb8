-- ===== src/Examples/Decimals.antt =====
-- Concrete numbers and words for the theorems on decimal128.
use libbson.Base.{
  ℕ, ◌+◌, ◌-◌, ◌*◌, ◌^◌, ◌<◌, ◌≡◌, ◌↔◌, refl, Bool, true, ◌&&◌, List, [], ◌∷◌, leb, arith,
}
use mathlib.Core.List.{map}
use libbson.Decimal128.{Uint128, divisor, divide1b, mul_64x64, to_lower, is_text_equal}
use libbson.Decimal128.Exact.{to_number, IsWords, divide1b-exact, mul_64x64-exact}
use libbson.Decimal128.Names.{small_letter, is_text_equal-agrees}

abbrev four_words : Uint128
four_words = record { part0 = 1; part1 = 2; part2 = 3; part3 = 4 }

divide1b-exact_example :
    (to_number four_words ≡ to_number (divide1b four_words).0 * divisor + (divide1b four_words).1)
    × ((divide1b four_words).1 < divisor)
    × IsWords (divide1b four_words).0
divide1b-exact_example =
    divide1b-exact four_words (omega arith, omega arith, omega arith, omega arith)

-- The largest factors.
mul_64x64-exact_example :
    ((mul_64x64 (2 ^ 64 - 1) (2 ^ 64 - 1)).0 * 2 ^ 64 + (mul_64x64 (2 ^ 64 - 1) (2 ^ 64 - 1)).1
      ≡ (2 ^ 64 - 1) * (2 ^ 64 - 1))
    × ((mul_64x64 (2 ^ 64 - 1) (2 ^ 64 - 1)).0 < 2 ^ 64)
    × ((mul_64x64 (2 ^ 64 - 1) (2 ^ 64 - 1)).1 < 2 ^ 64)
mul_64x64-exact_example = mul_64x64-exact (2 ^ 64 - 1) (2 ^ 64 - 1) (omega arith) (omega arith)

-- `isupper` of the C locale.
abbrev is_upper : ℕ → Bool
is_upper c = leb b'A' c && leb c b'Z'

abbrev mixed : List ℕ
mixed = b'I' ∷ b'n' ∷ b'F' ∷ []

abbrev small_letters : List ℕ
small_letters = b'i' ∷ b'n' ∷ b'f' ∷ []

is_text_equal-agrees_example :
    (is_text_equal is_upper mixed small_letters ≡ true)
    ↔ (map small_letter mixed ≡ map small_letter small_letters)
is_text_equal-agrees_example =
    is_text_equal-agrees is_upper mixed small_letters (λ c h. refl)
      (omega arith, (omega arith, (omega arith, tt)))
      (omega arith, (omega arith, (omega arith, tt)))

is_text_equal-inf : is_text_equal is_upper mixed small_letters ≡ true
unfolding is_text_equal to_lower
is_text_equal-inf = refl
