-- ===== src/Bson.antt =====
-- src/bson/bson.c: the growing buffer of a `bson_t`, and the append of bytes to it.
-- `buf` is the memory that the document lies in: the 120 bytes of an inline document, else `*buf`,
-- of `*buflen` bytes. A child document lies in the buffer of its parent, at `offset`.
-- `size_t` has 64 bits. Which memory is freed, and by whom, is left out.
pub mod Append
pub mod Copy
pub mod Child
pub mod Grow
pub mod Content
pub mod Value
pub mod Document
pub mod Validate
pub mod Whole
use libbson.Base.{
  ℕ, zero, suc, ◌+◌, ◌-◌, ◌*◌, ◌/◌, ◌%◌, ◌^◌, ◌≤◌, ◌≡◌, bit_or, Bool, true, false, not, ◌&&◌, List,
  [], ◌∷◌, length, take, ltb, leb, if◌then◌else◌,
}
use libbson.Base.Words.{le_bytes, add32}
use libbson.Run.{Run, done, aborted, fault, assert, store, ◌>>=◌, ◌>>◌}

-- The allocator that the library is given: `malloc` leaves the bytes open, `realloc` keeps the old
-- ones. (The library's own wrappers end the program where memory runs out.)
pub record Allocator : Type 0 where
  pub malloc : ℕ → List ℕ
  pub realloc : List ℕ → ℕ → List ℕ
  pub length-malloc : (n : ℕ) → length (malloc n) ≡ n
  pub length-realloc : (buf : List ℕ) (n : ℕ) → length (realloc buf n) ≡ n
  pub take-realloc :
      (buf : List ℕ) (n : ℕ) → length buf ≤ n → take (length buf) (realloc buf n) ≡ buf

-- `bson_t` and its two private forms. `can_realloc` tells that `realloc` is not NULL.
pub record Bson : Type 0 where
  pub is_inline : Bool
  pub is_rdonly : Bool
  pub is_child : Bool
  pub in_child : Bool
  pub len : ℕ
  pub depth : ℕ
  pub offset : ℕ
  pub buf : List ℕ
  pub can_realloc : Bool

abbrev pub inline_data_size : ℕ
inline_data_size = 120

-- `BSON_MAX_SIZE`, and `INT32_MAX`
abbrev pub max_size : ℕ
max_size = 2 ^ 31 - 1

-- `v |= v >> k`
abbrev pub smear : ℕ → ℕ → ℕ
smear k v = bit_or v (v / 2 ^ k)

-- `bson_next_power_of_two`, on 64 bits: `v--` and `v++` wrap.
pub next_power_of_two : ℕ → ℕ
next_power_of_two v =
    let v' = (v + (2 ^ 64 - 1)) % 2 ^ 64 in
    (smear 32 (smear 16 (smear 8 (smear 4 (smear 2 (smear 1 v'))))) + 1) % 2 ^ 64

module _ (m : Allocator) where
  -- `_bson_impl_inline_grow`: past 120 bytes the document moves to the heap.
  pub inline_grow : Bson → ℕ → Run (Bson × Bool)
  inline_grow b size =
      let req = next_power_of_two (b.len + size) in
      let moved = (do
        data_ ← store (m.malloc req) 0 (take b.len b.buf)
        done (
          record b { is_inline = false; depth = 0; offset = 0; buf = data_; can_realloc = true },
          true,
        )) in
      if leb (b.len + size) inline_data_size
      then done (b, true)
      else if leb req max_size
      then moved
      else done (b, false)

  -- `_bson_impl_alloc_grow`: room for the document and the ends of those around it.
  pub alloc_grow : Bson → ℕ → Bson × Bool
  alloc_grow b size =
      let req = b.offset + b.len + size + b.depth in
      let req' = next_power_of_two req in
      if leb req (length b.buf)
      then (b, true)
      else if leb req' max_size && b.can_realloc
      then (record b { buf = m.realloc b.buf req' }, true)
      else (b, false)

  -- `_bson_grow`
  pub grow : Bson → ℕ → Run (Bson × Bool)
  grow b size = if b.is_inline then inline_grow b size else done (alloc_grow b size)

-- The loop over the pairs of `_bson_append_va`: the buffer, the length and where to go on.
pub write_pairs : List ℕ → ℕ → ℕ → List (List ℕ) → Run (List ℕ × ℕ × ℕ)
write_pairs buf len at [] = done (buf, len, at)
write_pairs buf len at (bytes ∷ pairs) = do
  buf' ← store buf at bytes
  write_pairs buf' (add32 len (length bytes)) (at + length bytes) pairs

-- `_bson_encode_length`, then `*buf = '\0'`
pub close_document : Bson → List ℕ → ℕ → ℕ → Run Bson
close_document b buf len at = do
  buf' ← store buf b.offset (le_bytes 4 len)
  buf'' ← store buf' at (0 ∷ [])
  done (record b { buf = buf''; len = len })

pub write_all : Bson → List (List ℕ) → Run (Bson × Bool)
write_all b pairs = do
  (buf, len, at) ← write_pairs b.buf b.len (b.offset + b.len - 1) pairs
  b' ← close_document b buf len at
  done (b', true)

-- `n_pairs`, `first_len` and `first_data`: there is a first pair, and it has bytes.
abbrev pub has_first : List (List ℕ) → Bool
has_first [] = false
has_first ([] ∷ pairs) = false
has_first ((x ∷ bytes) ∷ pairs) = true

module _ (m : Allocator) where
  -- `_bson_append_va`
  pub append_va : Bson → ℕ → List (List ℕ) → Run (Bson × Bool)
  append_va b n_bytes pairs = do
    assert (not b.in_child)
    assert (not b.is_rdonly)
    (b', grown) ← grow m b n_bytes
    if grown then write_all b' pairs else done (b', false)

  -- `_bson_append`. `n_bytes` is a `uint32_t`, and the difference is taken in `size_t`.
  unfoldable pub append : Bson → ℕ → List (List ℕ) → Run (Bson × Bool)
  append b n_bytes pairs = do
    assert (has_first pairs)
    let rest = append_va b n_bytes pairs
    if ltb ((max_size + (2 ^ 64 - b.len)) % 2 ^ 64) n_bytes then done (b, false) else rest

-- `bson_init` (and `bson_new`): the five bytes of an empty document; the rest is as it was.
unfoldable pub empty_inline : List ℕ → Bson
empty_inline rest = record {
  is_inline = true;
  is_rdonly = false;
  is_child = false;
  in_child = false;
  len = 5;
  depth = 0;
  offset = 0;
  buf = 5 ∷ 0 ∷ 0 ∷ 0 ∷ 0 ∷ rest;
  can_realloc = false;
}
