-- ===== src/Base/Memory.antt =====
-- Bytes that lie at an offset of a memory, and what a read of them gives.
use libbson.Base.Tests.{leb, ◌==◌, if◌then◌else◌}
use libbson.Base.Lists.{
  length, get_elem?, take, drop, All, length-append, length-drop, drop-drop, take-append,
  drop-append,
}
use libbson.Base.Words.{read_le32, le_bytes, length-le_bytes}
use Prim.Native.Nat.{ℕ, zero, suc, ◌+◌, ◌*◌, ◌/◌, ◌%◌, ◌^◌, ◌≤◌, ◌<◌}
use mathlib.Core.Path.{◌≡◌, refl, sym, ap, ◌∙◌}
use mathlib.Core.Logic.{◌≢◌}
use mathlib.Core.Bool.{Bool, true}
use mathlib.Core.List.{List, [], ◌∷◌, ◌++◌, append_assoc}
use mathlib.Core.Option.{Option, none, some}
use native.Mathlib.Omega.{arith}
use native.Mathlib.Nat.{pow-suc}

-- `n` bytes from an offset on, or a read past the end.
unfoldable pub slice : List ℕ → ℕ → ℕ → Option (List ℕ)
slice raw at n = if leb (at + n) (length raw) then some (take n (drop at raw)) else none

-- The number that little-endian bytes stand for.
unfoldable pub le_value : List ℕ → ℕ
le_value [] = 0
le_value (b ∷ bytes) = b + 256 * le_value bytes

-- The bytes lie in the memory at the offset, and `back` lies behind them.
pub record Holds (raw : List ℕ) (at : ℕ) (bytes : List ℕ) : Type 0 where
  pub back : List ℕ
  pub inside : at ≤ length raw
  pub found : drop at raw ≡ bytes ++ back

get_elem?-drop : (at k : ℕ) (xs : List ℕ) → get_elem? xs (at + k) ≡ get_elem? (drop at xs) k
get_elem?-drop zero k xs = ap (λ (i : ℕ). get_elem? xs i) (omega arith)
get_elem?-drop (suc at) k [] = refl
get_elem?-drop (suc at) k (x ∷ xs) =
    ap (λ (i : ℕ). get_elem? (x ∷ xs) i) next ∙ get_elem?-drop at k xs
  where
    next : suc at + k ≡ suc (at + k)
    next = omega arith

module _ {raw : List ℕ} {at : ℕ} where
  pub Holds-room : (bytes : List ℕ) → Holds raw at bytes → at + length bytes ≤ length raw
  Holds-room bytes h =
      omega (arith, h.inside, length-drop at raw, ap length h.found, length-append bytes h.back)

  -- The first and the second half of what lies there.
  pub Holds-front : (xs ys : List ℕ) → Holds raw at (xs ++ ys) → Holds raw at xs
  Holds-front xs ys h = record {
    back = ys ++ h.back;
    inside = h.inside;
    found = h.found ∙ append_assoc xs ys h.back;
  }

  pub Holds-behind : (xs ys : List ℕ) → Holds raw at (xs ++ ys) → Holds raw (at + length xs) ys
  Holds-behind xs ys h = record {
    back = h.back;
    inside = omega (arith, Holds-room (xs ++ ys) h, length-append xs ys);
    found =
        sym (drop-drop (length xs) at raw)
        ∙ ap (drop (length xs)) (h.found ∙ append_assoc xs ys h.back)
        ∙ drop-append xs (ys ++ h.back);
  }

  -- What lies behind a number.
  pub Holds-after :
      (n v : ℕ) (xs : List ℕ) → Holds raw at (le_bytes n v ++ xs) → Holds raw (at + n) xs
  Holds-after n v xs h =
      rw (ap (λ (k : ℕ). at + k) (sym (length-le_bytes n v))) (Holds-behind (le_bytes n v) xs h)

  pub get_elem?_of : (x : ℕ) (xs : List ℕ) → Holds raw at (x ∷ xs) → get_elem? raw at ≡ some x
  get_elem?_of x xs h =
      ap (λ (i : ℕ). get_elem? raw i) here
      ∙ get_elem?-drop at 0 raw
      ∙ ap (λ t. get_elem? t 0) h.found
    where
      here : at ≡ at + 0
      here = omega arith

  pub slice_of : (bytes : List ℕ) → Holds raw at bytes → slice raw at (length bytes) ≡ some bytes
  unfolding slice
  slice_of bytes h =
      ap (λ (b : Bool). if b then some (take (length bytes) (drop at raw)) else none) fits
      ∙ ap some (ap (take (length bytes)) h.found ∙ take-append bytes h.back)
    where
      fits : leb (at + length bytes) (length raw) ≡ true
      fits = ground (arith, Holds-room bytes h)

  -- A length word.
  pub read_le32_of : (v : ℕ) → v < 2 ^ 32 → Holds raw at (le_bytes 4 v) → read_le32 raw at ≡ some v
  unfolding read_le32 le_bytes
  read_le32_of v small h =
      rw (get_elem?_of (v % 256) (le_bytes 3 (v / 256)) h, byte 1, byte 2, byte 3)
        (ap some (omega arith))
    where
      byte : (k : ℕ) → get_elem? raw (at + k) ≡ get_elem? (le_bytes 4 v ++ h.back) k
      byte k = get_elem?-drop at k raw ∙ ap (λ t. get_elem? t k) h.found

pub le_value-le_bytes : (n v : ℕ) → v < 256 ^ n → le_value (le_bytes n v) ≡ v
unfolding le_bytes le_value
le_value-le_bytes zero v h = omega arith
le_value-le_bytes (suc n) v h =
    omega (arith, le_value-le_bytes n (v / 256) (omega (arith, pow-suc 256 n)))

-- `strlen` and the bytes in front of the NUL, given as many bytes as there are.
pub c_string : List ℕ → List ℕ
c_string [] = []
c_string (x ∷ xs) = if x == 0 then [] else x ∷ c_string xs

pub c_string_self : (xs : List ℕ) → All (λ x. x ≢ 0) xs → c_string xs ≡ xs
unfolding c_string
c_string_self [] h = refl
c_string_self (x ∷ xs) h = ground (arith, h.0, c_string_self xs h.1)

pub c_string-append : (xs ys : List ℕ) → All (λ x. x ≢ 0) xs → c_string (xs ++ (0 ∷ ys)) ≡ xs
unfolding c_string
c_string-append [] ys h = refl
c_string-append (x ∷ xs) ys h = ground (arith, h.0, c_string-append xs ys h.1)

-- The first four bytes read as a length, wherever they lie.
pub read_le32_first :
    (raw xs : List ℕ) (at v : ℕ)
    → read_le32 xs 0 ≡ some v
    → 4 ≤ length xs
    → Holds raw at xs
    → read_le32 raw at ≡ some v
unfolding read_le32
read_le32_first raw [] at v e long h = absurd (omega arith)
read_le32_first raw (a ∷ []) at v e long h = absurd (omega arith)
read_le32_first raw (a ∷ b ∷ []) at v e long h = absurd (omega arith)
read_le32_first raw (a ∷ b ∷ c ∷ []) at v e long h = absurd (omega arith)
read_le32_first raw (a ∷ b ∷ c ∷ d ∷ xs) at v e long h =
    rw (get_elem?_of a (b ∷ c ∷ d ∷ xs) h, byte 1, byte 2, byte 3) e
  where
    byte : (k : ℕ) → get_elem? raw (at + k) ≡ get_elem? ((a ∷ b ∷ c ∷ d ∷ xs) ++ h.back) k
    byte k = get_elem?-drop at k raw ∙ ap (λ t. get_elem? t k) h.found
