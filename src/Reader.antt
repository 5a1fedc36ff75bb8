-- ===== src/Reader.antt =====
-- src/bson/bson-reader.c: the documents of a buffer, or of a handle that is read piece by piece. A
-- document that is answered is the `bson_t` over its bytes; in C it points into the buffer, and is
-- good until the next read. `fault` is an access out of bounds. The loop of the handle reader runs
-- on fuel, and `aborted` is its end. `size_t` has 64 bits. The readers over files and descriptors
-- only hand their calls to the system, and are left out.
pub mod Data
pub mod Fill
pub mod Round
pub mod Progress
pub mod Start
pub mod Handle
use libbson.Base.{
  ℕ, zero, suc, ◌+◌, ◌-◌, ◌*◌, ◌%◌, ◌^◌, Bool, true, false, not, ◌&&◌, ◌||◌, Option, none, some,
  List, [], ◌∷◌, length, ltb, leb, ◌==◌, if◌then◌else◌,
}
use libbson.Base.Words.{u32, read_le32}
use libbson.Base.Memory.{slice}
use libbson.Run.{Run, done, aborted, assert, store, load, ◌>>=◌, ◌>>◌}
use libbson.Bson.{Allocator, Bson}
use libbson.Bson.Value.{init_static}

-- `size_t` subtraction wraps.
abbrev pub sub_size : ℕ → ℕ → ℕ
sub_size a b = (a + (2 ^ 64 - b)) % 2 ^ 64

-- `a < b` on `int32_t`, given as patterns.
abbrev pub less_int32 : ℕ → ℕ → Bool
less_int32 a b = ltb ((a + 2 ^ 31) % 2 ^ 32) ((b + 2 ^ 31) % 2 ^ 32)

-- `bson_reader_data_t`, over `length` bytes at `data`.
pub record DataReader : Type 0 where
  pub bytes : List ℕ
  pub offset : ℕ

-- `bson_reader_new_from_data`
unfoldable pub new_from_data : List ℕ → DataReader
new_from_data bytes = record { bytes = bytes; offset = 0 }

-- The document of `blen` bytes at `offset`.
unfoldable pub take_document : List ℕ → ℕ → ℕ → Run (Option Bson)
take_document memory offset blen = do bytes ← load (slice memory offset blen); init_static bytes

unfoldable pub past_document : DataReader → ℕ → Option Bson → DataReader × Option Bson × Bool
past_document r blen none = (r, none, false)
past_document r blen (some b) = (record r { offset = r.offset + blen }, some b, false)

-- `_bson_reader_data_read`: the document, and `*reached_eof`.
unfoldable pub data_read : DataReader → Run (DataReader × Option Bson × Bool)
unfolding take_document past_document
data_read r =
    let whole = (do
      blen ← load (read_le32 r.bytes r.offset)
      let document = (do
        found ← take_document r.bytes r.offset blen
        done (past_document r blen found))
      if less_int32 blen 5 || less_int32 (u32 (sub_size (length r.bytes) r.offset)) blen
          then done (r, none, false)
          else document) in
    if ltb (r.offset + 4) (length r.bytes)
    then whole
    else done (r, none, r.offset == length r.bytes)

-- `_bson_reader_data_tell` and `bson_reader_reset`
unfoldable pub data_tell : DataReader → ℕ
data_tell r = r.offset

unfoldable pub reset : DataReader → DataReader
reset r = record r { offset = 0 }

unfoldable pub zeroed_bytes : ℕ → List ℕ
zeroed_bytes zero = []
zeroed_bytes (suc n) = 0 ∷ zeroed_bytes n

-- `bson_reader_handle_t`: the memory at `data` has `len` bytes.
pub record HandleReader (Handle : Type 0) : Type 0 where
  pub handle : Handle
  pub is_done : Bool
  pub has_failed : Bool
  pub end : ℕ
  pub offset : ℕ
  pub bytes_read : ℕ
  pub buf : List ℕ

-- How one turn of the loop of `_bson_reader_handle_read` ends.
pub data Turn (Handle : Type 0) : Type 0 where
  stop : HandleReader Handle → Option Bson → Bool → Turn Handle
  again : HandleReader Handle → Turn Handle

-- The caller's `read_func`: the handle afterwards, and the bytes; `none` is a negative result, and
-- no bytes are the result 0.
module _ (Handle : Type 0) (read_func : Handle → ℕ → Handle × Option (List ℕ)) where
  -- The first read, into an empty buffer.
  unfoldable pub first_filled :
      HandleReader Handle → Handle → Option (List ℕ) → Run (HandleReader Handle)
  first_filled r handle none = done (record r { handle = handle; is_done = true })
  first_filled r handle (some []) = done (record r { handle = handle; is_done = true })
  first_filled r handle (some (b ∷ bytes)) = do
    buf ← store r.buf 0 (b ∷ bytes)
    done (record r {
      handle = handle;
      bytes_read = r.bytes_read + length (b ∷ bytes);
      end = length (b ∷ bytes);
      buf = buf;
    })

  unfoldable pub first_fill : HandleReader Handle → Run (HandleReader Handle)
  unfolding first_filled
  first_fill r = let (handle, ret) = read_func r.handle (length r.buf) in first_filled r handle ret

  -- More is read behind what is left, which lies at the front.
  unfoldable pub refilled :
      HandleReader Handle → Handle → Option (List ℕ) → Run (HandleReader Handle)
  refilled r handle none = done (record r { handle = handle; is_done = true; has_failed = true })
  refilled r handle (some []) =
      done (record r { handle = handle; is_done = true; has_failed = false })
  refilled r handle (some (b ∷ bytes)) = do
    buf ← store r.buf r.end (b ∷ bytes)
    done (record r {
      handle = handle;
      bytes_read = r.bytes_read + length (b ∷ bytes);
      end = r.end + length (b ∷ bytes);
      buf = buf;
    })

  -- What is left moves to the front.
  unfoldable pub move_left : HandleReader Handle → Run (HandleReader Handle)
  move_left r = do
    left ← load (slice r.buf r.offset (sub_size r.end r.offset))
    buf ← store r.buf 0 left
    done (record r { offset = 0; end = sub_size r.end r.offset; buf = buf })

  unfoldable pub refill : HandleReader Handle → Run (HandleReader Handle)
  unfolding move_left refilled
  refill r = do
    front ← move_left r
    let (handle, ret) = read_func r.handle (sub_size (length front.buf) front.end)
    refilled front handle ret

  -- `_bson_reader_handle_fill_buffer`
  unfoldable pub fill_buffer : HandleReader Handle → Run (HandleReader Handle)
  unfolding first_fill refill
  fill_buffer r = if not r.is_done && r.offset == 0 && r.end == 0 then first_fill r else refill r

  -- `bson_reader_new_from_handle`, over zeroed memory of 1024 bytes.
  unfoldable pub new_from_handle : Handle → Run (HandleReader Handle)
  unfolding fill_buffer zeroed_bytes
  new_from_handle handle = fill_buffer (record {
    handle = handle;
    is_done = false;
    has_failed = false;
    end = 0;
    offset = 0;
    bytes_read = 0;
    buf = zeroed_bytes 1024;
  })

  module _ (m : Allocator) where
    -- `_bson_reader_handle_grow_buffer`
    unfoldable pub grow_buffer : HandleReader Handle → HandleReader Handle
    grow_buffer r = record r { buf = m.realloc r.buf (length r.buf * 2 % 2 ^ 64) }

    unfoldable pub past_bson : HandleReader Handle → ℕ → Option Bson → Turn Handle
    past_bson r blen none = stop r none false
    past_bson r blen (some b) = stop (record r { offset = r.offset + blen }) (some b) false

    unfoldable pub fill_again : HandleReader Handle → Run (Turn Handle)
    unfolding fill_buffer
    fill_again r = do r' ← fill_buffer r; done (again r')

    -- A turn of the loop, once there are four bytes, on the length that they hold.
    unfoldable pub turn_at : HandleReader Handle → ℕ → Run (Turn Handle)
    unfolding grow_buffer past_bson fill_again take_document
    turn_at r blen =
        let document = (do
          found ← take_document r.buf r.offset blen
          done (past_bson r blen found)) in
        let more = fill_again (if less_int32 (u32 (length r.buf)) blen then grow_buffer r else r) in
        if less_int32 blen 5
        then done (stop r none false)
        else if less_int32 (u32 (sub_size r.end r.offset)) blen
        then more
        else document

    -- A turn of the loop of `_bson_reader_handle_read`.
    unfoldable pub turn : HandleReader Handle → Run (Turn Handle)
    unfolding turn_at
    turn r =
        let measured = (do blen ← load (read_le32 r.buf r.offset); turn_at r blen) in
        let filled = fill_again r in
        if r.is_done
        then done (stop r none (not r.has_failed))
        else if ltb (sub_size r.end r.offset) 4
        then filled
        else measured

    -- `_bson_reader_handle_read`: the document, and `*reached_eof`.
    unfoldable pub handle_read :
        ℕ → HandleReader Handle → Run (HandleReader Handle × Option Bson × Bool)
    unfolding turn
    handle_read zero r = aborted
    handle_read (suc fuel) r = do
      end ← turn r
      elim end [ stop r' b eof ↦ done (r', b, eof) | again r' ↦ handle_read fuel r' ]

-- `_bson_reader_handle_tell`, on `off_t`.
unfoldable pub handle_tell : {Handle : Type 0} → HandleReader Handle → ℕ
handle_tell r = sub_size r.bytes_read r.end + r.offset
