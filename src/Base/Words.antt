-- ===== src/Base/Words.antt =====
-- uint32_t arithmetic, and little-endian reads of a buffer.
use libbson.Base.Tests.{◌>>=◌}
use libbson.Base.Lists.{length, get_elem?, All, get_elem?_at}
use Prim.Native.Nat.{ℕ, zero, suc, ◌+◌, ◌-◌, ◌*◌, ◌/◌, ◌%◌, ◌^◌, ◌≤◌, ◌<◌}
use mathlib.Core.Path.{◌≡◌, refl}
use mathlib.Core.List.{List, [], ◌∷◌, ◌++◌}
use mathlib.Core.Option.{Option, some}
use native.Mathlib.Omega.{arith}

abbrev pub u32 : ℕ → ℕ
u32 n = n % 2 ^ 32

-- Sums and differences of `uint32_t` wrap.
abbrev pub add32 : ℕ → ℕ → ℕ
add32 a b = (a + b) % 2 ^ 32

abbrev pub sub32 : ℕ → ℕ → ℕ
sub32 a b = (a + (2 ^ 32 - b)) % 2 ^ 32

abbrev pub IsByte : ℕ → Type 0
IsByte b = b < 256

-- The little-endian bytes of a number.
unfoldable pub le_bytes : ℕ → ℕ → List ℕ
le_bytes zero v = []
le_bytes (suc n) v = (v % 256) ∷ le_bytes n (v / 256)

pub length-le_bytes : (n v : ℕ) → length (le_bytes n v) ≡ n
unfolding le_bytes
length-le_bytes zero v = refl
length-le_bytes (suc n) v = omega (arith, length-le_bytes n (v / 256))

-- Two words of four bytes as one of eight.
pub le_bytes-words :
    (high low : ℕ)
    → low < 2 ^ 32
    → le_bytes 8 (high * 2 ^ 32 + low) ≡ le_bytes 4 low ++ le_bytes 4 high
unfolding le_bytes
le_bytes-words high low h = ground arith

abbrev pub le32 : ℕ → ℕ → ℕ → ℕ → ℕ
le32 a b c d = a + 256 * b + 65536 * c + 16777216 * d

-- `memcpy (&l, p + at, 4); l = BSON_UINT32_FROM_LE (l);`
unfoldable pub read_le32 : List ℕ → ℕ → Option ℕ
read_le32 raw i = do
  a ← get_elem? raw i
  b ← get_elem? raw (i + 1)
  c ← get_elem? raw (i + 2)
  d ← get_elem? raw (i + 3)
  some (le32 a b c d)

pub read_le32_at :
    (raw : List ℕ) (i : ℕ)
    → All IsByte raw
    → i + 4 ≤ length raw
    → (v : ℕ) × (read_le32 raw i ≡ some v) × (v < 2 ^ 32)
unfolding read_le32
read_le32_at raw i bytes fits =
    let (a, ea, ha) = get_elem?_at raw i bytes (omega arith) in
    let (b, eb, hb) = get_elem?_at raw (i + 1) bytes (omega arith) in
    let (c, ec, hc) = get_elem?_at raw (i + 2) bytes (omega arith) in
    let (d, ed, hd) = get_elem?_at raw (i + 3) bytes (omega arith) in
    (le32 a b c d, rw (ea, eb, ec, ed), omega arith)
