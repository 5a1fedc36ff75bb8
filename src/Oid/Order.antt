-- ===== src/Oid/Order.antt =====
-- Object ids in order: the comparison against the number that the bytes spell.
use libbson.Base.{
  ℕ, suc, ◌+◌, ◌*◌, ◌^◌, ◌≤◌, ◌<◌, ◌≡◌, ◌↔◌, ◌⊎◌, inl, inr, sym, refl, ap, lt→ltb, le→ltb, Bool,
  true, false, List, [], ◌∷◌, length, All, arith, ltb, if◌then◌else◌,
}
use native.Mathlib.Nat.{mul-le-mul_right, pow-suc}
use libbson.Base.Words.{IsByte}
use libbson.Oid.{Sign, less, same, more, memcmp, compare, equal}

-- The number whose digits in base 256 are the bytes, the highest first.
abbrev pub big_endian : List ℕ → ℕ
big_endian [] = 0
big_endian (b ∷ bytes) = b * 256 ^ length bytes + big_endian bytes

abbrev pub Ordered : Sign → List ℕ → List ℕ → Type 0
Ordered less xs ys = big_endian xs < big_endian ys
Ordered same xs ys = xs ≡ ys
Ordered more xs ys = big_endian ys < big_endian xs

big_endian-bound : (bytes : List ℕ) → All IsByte bytes → big_endian bytes < 256 ^ length bytes
big_endian-bound [] h = omega arith
big_endian-bound (b ∷ bytes) h = omega (
  arith,
  big_endian-bound bytes h.1,
  mul-le-mul_right (256 ^ length bytes) (byte_le h.0),
  pow-suc 256 (length bytes),
)
  where
    byte_le : b < 256 → suc b ≤ 256
    byte_le below = below

-- A smaller first byte decides, whatever follows.
first_decides :
    (x y : ℕ) (xs ys : List ℕ)
    → All IsByte xs
    → length xs ≡ length ys
    → x < y
    → big_endian (x ∷ xs) < big_endian (y ∷ ys)
first_decides x y xs ys hx size below =
    rw (sym size) (omega (arith, big_endian-bound xs hx, mul-le-mul_right (256 ^ length xs) below))

Ordered-under :
    (x : ℕ) (xs ys : List ℕ)
    → length xs ≡ length ys
    → (rest : Sign) → Ordered rest xs ys
    → Ordered rest (x ∷ xs) (x ∷ ys)
Ordered-under x xs ys size less h = rw (size) (omega (arith, h))
Ordered-under x xs ys size same h = ap (λ t. x ∷ t) h
Ordered-under x xs ys size more h = rw (size) (omega (arith, h))

Ordered-by_tests :
    (x y : ℕ) (xs ys : List ℕ)
    → All IsByte xs
    → All IsByte ys
    → length xs ≡ length ys
    → (rest : Sign) → Ordered rest xs ys
    → Ordered (if ltb x y then less else if ltb y x then more else rest) (x ∷ xs) (y ∷ ys)
Ordered-by_tests x y xs ys hx hy size rest ordered = elim split [
  | inl below ↦ rw (lt→ltb x y below) (first_decides x y xs ys hx size below)
  | inr (inl above) ↦
      rw (le→ltb x y (omega (arith, above)), lt→ltb y x above)
        (first_decides y x ys xs hy (sym size) above)
  | inr (inr equals) ↦
      rw (le→ltb x y (omega (arith, equals)), le→ltb y x (omega (arith, equals)), equals)
        (Ordered-under y xs ys size rest ordered)
]
  where
    split : (x < y) ⊎ ((y < x) ⊎ (x ≡ y))
    split = omega arith

memcmp-Ordered :
    (xs ys : List ℕ)
    → All IsByte xs
    → All IsByte ys
    → length xs ≡ length ys
    → Ordered (memcmp xs ys) xs ys
unfolding memcmp
memcmp-Ordered [] [] hx hy size = refl
memcmp-Ordered [] (y ∷ ys) hx hy size = absurd (omega (arith, size))
memcmp-Ordered (x ∷ xs) [] hx hy size = absurd (omega (arith, size))
memcmp-Ordered (x ∷ xs) (y ∷ ys) hx hy size =
    Ordered-by_tests x y xs ys hx.1 hy.1 (omega (arith, size)) (memcmp xs ys)
      (memcmp-Ordered xs ys hx.1 hy.1 (omega (arith, size)))

-- Two object ids of bytes, of one length, compare as the numbers that their bytes spell with the
-- highest byte first: "less" and "more" are strict, and "same" is the same bytes.
pub compare-Ordered :
    (oid1 oid2 : List ℕ)
    → All IsByte oid1
    → All IsByte oid2
    → length oid1 ≡ length oid2
    → Ordered (compare oid1 oid2) oid1 oid2
unfolding compare
compare-Ordered oid1 oid2 bytes1 bytes2 size = memcmp-Ordered oid1 oid2 bytes1 bytes2 size

memcmp_self : (xs : List ℕ) → memcmp xs xs ≡ same
unfolding memcmp
memcmp_self [] = refl
memcmp_self (x ∷ xs) = rw (le→ltb x x (omega arith)) (memcmp_self xs)

same_only :
    (sign : Sign) (xs ys : List ℕ)
    → Ordered sign xs ys
    → elim sign [ same ↦ true | less ↦ false | more ↦ false ] ≡ true
    → xs ≡ ys
same_only less xs ys ordered h = cc
same_only same xs ys ordered h = ordered
same_only more xs ys ordered h = cc

-- Two object ids of bytes, of one length, are equal for the code just where they are the same
-- bytes.
pub equal_iff :
    (oid1 oid2 : List ℕ)
    → All IsByte oid1
    → All IsByte oid2
    → length oid1 ≡ length oid2
    → (equal oid1 oid2 ≡ true) ↔ (oid1 ≡ oid2)
unfolding equal
equal_iff oid1 oid2 bytes1 bytes2 size = (
  same_only (memcmp oid1 oid2) oid1 oid2 (memcmp-Ordered oid1 oid2 bytes1 bytes2 size),
  λ equals. rw (equals) (
      ap (λ sign. elim sign as (λ s. Bool) [ same ↦ true | less ↦ false | more ↦ false ])
        (memcmp_self oid2)),
)
