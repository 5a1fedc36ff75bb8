-- ===== src/Base/Bits.antt =====
-- `&` and `|` as arithmetic: the lowest digit, low masks, and fields that do not overlap.
use Prim.Native.Nat.{ℕ, zero, suc, ◌+◌, ◌-◌, ◌*◌, ◌/◌, ◌%◌, ◌^◌, ◌≤◌, ◌<◌, min, max}
use Prim.Native.Nat.{bit_and, bit_or, digits, bitwise, bit_and-bitwise, bit_or-bitwise}
use mathlib.Core.Path.{◌≡◌, refl, ap, ◌∙◌}
use mathlib.Core.Bool.{Bool, true, ◌&&◌}
use mathlib.Core.WellFounded as Wf
use mathlib.Core.WellFounded.{Acc, WellFounded}
use native.Mathlib.Nat.{pow-suc, one-le-pow}
use native.Mathlib.Omega.{arith}

Acc-below : (k n : ℕ) → n < k → Acc ◌<◌ n
Acc-below zero n h = elim h [ ]
Acc-below (suc k) n h = Acc.intro n (λ m hm. Acc-below k m (omega arith))

unfoldable pub lt_wf : WellFounded ◌<◌
unfolding Acc-below
lt_wf = record { apply = λ n. Acc-below (suc n) n (omega arith) }

-- The native operations are `bitwise`, which divides by two on as much fuel as its first argument.
module _ (base : ℕ → ℕ) (op : ℕ → ℕ → ℕ) where
  one_to_spare : (fuel x y : ℕ) → x ≤ fuel → digits base op (suc fuel) x y ≡ digits base op fuel x y
  one_to_spare zero zero y h = refl
  one_to_spare zero (suc x) y h = absurd (omega arith)
  one_to_spare (suc fuel) zero y h = refl
  one_to_spare (suc fuel) (suc x) y h =
      rw (one_to_spare fuel (suc x / 2) (y / 2) (omega arith)) refl

  some_to_spare : (more x y : ℕ) → digits base op (more + x) x y ≡ bitwise base op x y
  some_to_spare zero x y = ap (λ (fuel : ℕ). digits base op fuel x y) (omega arith)
  some_to_spare (suc more) x y =
      ap (λ (fuel : ℕ). digits base op fuel x y) next
      ∙ one_to_spare (more + x) x y (omega arith)
      ∙ some_to_spare more x y
    where
      next : suc more + x ≡ suc (more + x)
      next = omega arith

  lowest_digit :
      (x y : ℕ)
      → bitwise base op (suc x) y ≡ bitwise base op (suc x / 2) (y / 2) * 2 + op (suc x % 2) (y % 2)
  lowest_digit x y =
      ap (λ (t : ℕ). t * 2 + op (suc x % 2) (y % 2))
        (ap (λ (fuel : ℕ). digits base op fuel (suc x / 2) (y / 2)) halved
          ∙ some_to_spare (x - suc x / 2) (suc x / 2) (y / 2))
    where
      halved : x ≡ x - suc x / 2 + suc x / 2
      halved = omega arith

pub bit_and_step : (x y : ℕ) → bit_and x y ≡ bit_and (x / 2) (y / 2) * 2 + min (x % 2) (y % 2)
bit_and_step zero y = simp bit_and-bitwise (omega arith)
bit_and_step (suc x) y = simp bit_and-bitwise (lowest_digit (λ t. 0) min x y)

pub bit_or_step : (x y : ℕ) → bit_or x y ≡ bit_or (x / 2) (y / 2) * 2 + max (x % 2) (y % 2)
bit_or_step zero y = simp bit_or-bitwise (omega arith)
bit_or_step (suc x) y = simp bit_or-bitwise (lowest_digit (λ t. t) max x y)

-- With nothing on the right: by the number of halvings that are left.
zero_right : (halvings x : ℕ) → x ≤ halvings → (bit_or x 0 ≡ x) × (bit_and x 0 ≡ 0)
zero_right halvings zero h = (refl, refl)
zero_right zero (suc x) h = absurd (omega arith)
zero_right (suc halvings) (suc x) h =
    let (or_half, and_half) = zero_right halvings (suc x / 2) (omega arith) in
    (omega (arith, or_half, bit_or_step (suc x) 0), omega (arith, and_half, bit_and_step (suc x) 0))

bit_or-zero : (x : ℕ) → bit_or x 0 ≡ x
bit_or-zero x = (zero_right x x (omega arith)).0

pub bit_and-zero : (x : ℕ) → bit_and x 0 ≡ 0
bit_and-zero x = (zero_right x x (omega arith)).1

double_pow : (high width : ℕ) → high * 2 ^ suc width ≡ 2 * (high * 2 ^ width)
double_pow high width = omega (arith, ap (λ (power : ℕ). high * power) (pow-suc 2 width))

-- Two fields, the lower of them `width` bits wide: `|` puts them side by side, and the low mask
-- takes the lower one.
bit_fields :
    (width high low : ℕ)
    → low < 2 ^ width
    → (bit_or (high * 2 ^ width) low ≡ high * 2 ^ width + low)
      × (bit_and (high * 2 ^ width + low) (2 ^ width - 1) ≡ low)
bit_fields zero high low h =
    (ground (arith, bit_or-zero high), ground (arith, bit_and-zero (high * 1 + low)))
bit_fields (suc width) high low h =
    let (side_by_side, lower) = bit_fields width high (low / 2) (omega (arith, pow-suc 2 width)) in
    (
      ground (arith, side_by_side, double_pow high width, bit_or_step (high * 2 ^ suc width) low),
      ground (
        arith,
        lower,
        pow-suc 2 width,
        double_pow high width,
        bit_and_step (high * 2 ^ suc width + low) (2 ^ suc width - 1),
      ),
    )

pub bit_or_fields :
    (width high low : ℕ) → low < 2 ^ width → bit_or (high * 2 ^ width) low ≡ high * 2 ^ width + low
bit_or_fields width high low h = (bit_fields width high low h).0

-- The mask of the low bits takes a remainder.
pub bit_and_mask : (width x : ℕ) → bit_and x (2 ^ width - 1) ≡ x % 2 ^ width
bit_and_mask width x = ground (
  arith,
  (bit_fields width (x / 2 ^ width) (x % 2 ^ width) (omega (arith, one-le-pow width 2))).1,
)

-- A mask with `k` zeros at its end looks at the quotient by `2 ^ k` alone.
pub bit_and_high :
    (k q r m : ℕ) → r < 2 ^ k → bit_and (q * 2 ^ k + r) (m * 2 ^ k) ≡ bit_and q m * 2 ^ k
bit_and_high zero q r m fits = ground (arith, ap (λ (t : ℕ). bit_and t m) r_zero)
  where
    r_zero : q * 1 + r ≡ q
    r_zero = omega arith
bit_and_high (suc k) q r m fits = ground (
  arith,
  bit_and_step (q * 2 ^ suc k + r) (m * 2 ^ suc k),
  double_pow q k,
  double_pow m k,
  double_pow (bit_and q m) k,
  bit_and_high k q (r / 2) m (omega arith),
)

-- A test on the numbers below a bound, run on each of them.
unfoldable pub all_below : ℕ → (ℕ → Bool) → Bool
all_below zero test = true
all_below (suc bound) test = all_below bound test && test bound

pub all_below_sound :
    (test : ℕ → Bool) (bound x : ℕ) → x < bound → all_below bound test ≡ true → test x ≡ true
unfolding all_below
all_below_sound test zero x inside all = absurd (omega arith)
all_below_sound test (suc bound) x inside all = ground (arith, all_below_sound test bound x)

-- `|` of two numbers is no smaller than the first, and needs no more bits than the two.
pub le-bit_or : (a b : ℕ) → a ≤ bit_or a b
le-bit_or a = Wf.induction lt_wf {C = λ n. (b : ℕ) → n ≤ bit_or n b} a step
  where
    step : (n : ℕ) → ((m : ℕ) → m < n → (b : ℕ) → m ≤ bit_or m b) → (b : ℕ) → n ≤ bit_or n b
    step zero ih b = omega arith
    step (suc n) ih b = omega (arith, bit_or_step (suc n) b, ih (suc n / 2) (omega arith) (b / 2))

pub bit_or-lt : (k a b : ℕ) → a < 2 ^ k → b < 2 ^ k → bit_or a b < 2 ^ k
bit_or-lt zero a b ha hb = ground (arith, bit_or-zero a)
bit_or-lt (suc k) a b ha hb = omega (
  arith,
  bit_or_step a b,
  pow-suc 2 k,
  bit_or-lt k (a / 2) (b / 2) (omega (arith, pow-suc 2 k)) (omega (arith, pow-suc 2 k)),
)
