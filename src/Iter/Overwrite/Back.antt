-- ===== src/Iter/Overwrite/Back.antt =====
-- src/bson/bson-iter.c: what is written over an element is read back.
use libbson.Base.{
  ℕ, zero, suc, ◌+◌, ◌^◌, ◌≤◌, ◌<◌, ◌≡◌, refl, sym, ap, ◌∙◌, Bool, true, false, Option, some, List,
  [], ◌∷◌, ◌++◌, length, take, drop, get_elem?, length-append, length-take, drop-append, ◌==◌,
  ==_iff, not, if◌then◌else◌, arith,
}
use libbson.Base.Words.{le_bytes, length-le_bytes}
use libbson.Base.Memory.{Holds, slice, slice_of, le_value, le_value-le_bytes, get_elem?_of}
use libbson.Types.{BsonType, to_byte, bool, int32, int64, double}
use libbson.Run.{Run, done, load, store}
use libbson.Run.{◌>>=◌}
use libbson.Base.{◌>>=◌ as ◌>>?◌}
use libbson.Bson.Grow.{store_fits}
use libbson.Iter.{Iter}
use libbson.Iter.Read.{of_type, read_le, read_bool, read_int32, read_int64, read_double}
use libbson.Iter.Overwrite.{
  overwrite, overwrite_bool, overwrite_int32, overwrite_int64, overwrite_double,
}

-- An iterator at an element of a type, whose data of `n` bytes lies in the memory behind the byte
-- of the type.
pub record IsAt (it : Iter) (t : BsonType) (n : ℕ) : Type 0 where
  pub raw : List ℕ
  pub memory : it.raw ≡ some raw
  pub type_byte : get_elem? raw it.type ≡ some (to_byte t)
  pub before : it.type < it.d1
  pub room : it.d1 + n ≤ length raw

get_elem?-take_append :
    (i n : ℕ) (xs ys : List ℕ)
    → i < n
    → n ≤ length xs
    → get_elem? (take n xs ++ ys) i ≡ get_elem? xs i
get_elem?-take_append i zero xs ys h room = absurd (omega (arith, h))
get_elem?-take_append i (suc n) [] ys h room = absurd (omega (arith, room))
get_elem?-take_append zero (suc n) (x ∷ xs) ys h room = refl
get_elem?-take_append (suc i) (suc n) (x ∷ xs) ys h room =
    get_elem?-take_append i n xs ys (omega (arith, h)) (omega (arith, room))

-- The iterator over the memory with `bytes` over the data, and all else as it was.
abbrev pub after : Iter → List ℕ → List ℕ → Iter
after it bytes raw = record it {
  raw = some (take it.d1 raw ++ (bytes ++ drop (it.d1 + length bytes) raw));
}

module _ (it : Iter) (t : BsonType) (bytes : List ℕ) (n : ℕ) (h : IsAt it t n)
    (size : length bytes ≡ n) where
  memory_after : List ℕ
  memory_after = take it.d1 h.raw ++ (bytes ++ drop (it.d1 + length bytes) h.raw)

  abbrev by_byte : List ℕ → Option ℕ → Run Iter
  by_byte raw r = load r >>= (λ b.
      if b == to_byte t
      then (store raw it.d1 bytes >>= (λ raw'. done (record it { raw = some raw' })))
      else done it)

  overwrite_lem : overwrite t bytes it ≡ done (after it bytes h.raw)
  unfolding overwrite
  overwrite_lem =
      ap (λ (m : Option (List ℕ)). load m >>= (λ raw. by_byte raw (get_elem? raw it.type))) h.memory
      ∙ ap (by_byte h.raw) h.type_byte
      ∙ rw
          (
            (==_iff (to_byte t) (to_byte t)).1 refl,
            store_fits h.raw it.d1 bytes (omega (arith, h.room, size)),
          )
          refl

  there : Holds memory_after it.d1 bytes
  unfolding memory_after
  there = record {
    back = drop (it.d1 + length bytes) h.raw;
    inside = omega (
      arith,
      front_len,
      length-append (take it.d1 h.raw) (bytes ++ drop (it.d1 + length bytes) h.raw),
    );
    found =
        ap (λ (k : ℕ). drop k memory_after) (sym front_len)
        ∙ drop-append (take it.d1 h.raw) (bytes ++ drop (it.d1 + length bytes) h.raw);
  }
    where
      front_len : length (take it.d1 h.raw) ≡ it.d1
      front_len = omega (arith, h.room, length-take it.d1 h.raw)

  -- A read at the type finds the memory of the data.
  reads :
      {A : Type 0} (absent : A) (read : List ℕ → Option A)
      → of_type t absent read (after it bytes h.raw) ≡ read memory_after
  unfolding memory_after
  reads absent read =
      ap (λ (r : Option ℕ). r >>? (λ b. if b == to_byte t then read memory_after else some absent))
        type_kept
      ∙ rw ((==_iff (to_byte t) (to_byte t)).1 refl) refl
    where
      type_kept : get_elem? memory_after it.type ≡ some (to_byte t)
      type_kept =
          get_elem?-take_append it.type it.d1 h.raw (bytes ++ drop (it.d1 + length bytes) h.raw)
            h.before (omega (arith, h.room))
          ∙ h.type_byte

number_there :
    (n at v : ℕ) (raw : List ℕ)
    → v < 256 ^ n
    → Holds raw at (le_bytes n v)
    → read_le n at raw ≡ some v
number_there n at v raw small h =
    ap (λ (k : ℕ). slice raw at k >>? (λ bytes. some (le_value bytes))) (sym (length-le_bytes n v))
    ∙ ap (λ (r : Option (List ℕ)). r >>? (λ bytes. some (le_value bytes)))
        (slice_of (le_bytes n v) h)
    ∙ ap some (le_value-le_bytes n v small)

overwrite_number :
    (it : Iter) (t : BsonType) (n v : ℕ) (h : IsAt it t n)
    → v < 256 ^ n
    → (overwrite t (le_bytes n v) it ≡ done (after it (le_bytes n v) h.raw))
      × (of_type t 0 (read_le n it.d1) (after it (le_bytes n v) h.raw) ≡ some v)
overwrite_number it t n v h small = (
  overwrite_lem it t (le_bytes n v) n h (length-le_bytes n v),
  reads it t (le_bytes n v) n h (length-le_bytes n v) 0 (read_le n it.d1)
      ∙ number_there n it.d1 v (memory_after it t (le_bytes n v) n h (length-le_bytes n v)) small
          (there it t (le_bytes n v) n h (length-le_bytes n v)),
)

-- At elements of the types of the calls, whose data lies in the memory behind the type byte, a
-- 32-bit integer, a 64-bit integer, a double and a Boolean are written over the data, all else
-- stays as it was, and they are what is read there afterwards.
pub overwrite_scalars :
    (i32 i64 d b : Iter) (v w pattern_ : ℕ) (flag : Bool)
    → (h32 : IsAt i32 int32 4) → (h64 : IsAt i64 int64 8) → (hd : IsAt d double 8)
    → (hb : IsAt b bool 1) → v < 2 ^ 32
    → w < 2 ^ 64
    → pattern_ < 2 ^ 64
    → (overwrite_int32 i32 v ≡ done (after i32 (le_bytes 4 v) h32.raw))
      × (read_int32 (after i32 (le_bytes 4 v) h32.raw) ≡ some v)
      × (overwrite_int64 i64 w ≡ done (after i64 (le_bytes 8 w) h64.raw))
      × (read_int64 (after i64 (le_bytes 8 w) h64.raw) ≡ some w)
      × (overwrite_double d pattern_ ≡ done (after d (le_bytes 8 pattern_) hd.raw))
      × (read_double (after d (le_bytes 8 pattern_) hd.raw) ≡ some pattern_)
      × (overwrite_bool b flag ≡ done (after b ((if flag then 1 else 0) ∷ []) hb.raw))
      × (read_bool (after b ((if flag then 1 else 0) ∷ []) hb.raw) ≡ some flag)
unfolding overwrite_int32 overwrite_int64 overwrite_double overwrite_bool read_int32 read_int64
    read_double read_bool
overwrite_scalars i32 i64 d b v w pattern_ flag h32 h64 hd hb hv hw hp =
    let (o32, r32) = overwrite_number i32 int32 4 v h32 (omega arith) in
    let (o64, r64) = overwrite_number i64 int64 8 w h64 (omega arith) in
    let (od, rd) = overwrite_number d double 8 pattern_ hd (omega arith) in
    (o32, r32, o64, r64, od, rd, ob, rb)
  where
    byte : List ℕ
    byte = (if flag then 1 else 0) ∷ []

    ob : overwrite bool byte b ≡ done (after b byte hb.raw)
    ob = overwrite_lem b bool byte 1 hb refl

    shown : (f : Bool) → not ((if f then 1 else 0) == 0) ≡ f
    shown true = refl
    shown false = refl

    rb :
        of_type bool false
          (λ raw. get_elem? raw b.d1 >>? (λ c. some (not (c == 0))))
          (after b byte hb.raw)
        ≡ some flag
    rb =
        reads b bool byte 1 hb refl false (λ raw. get_elem? raw b.d1 >>? (λ c. some (not (c == 0))))
        ∙ ap (λ (r : Option ℕ). r >>? (λ c. some (not (c == 0))))
            (get_elem?_of (if flag then 1 else 0) [] (there b bool byte 1 hb refl))
        ∙ ap some (shown flag)
