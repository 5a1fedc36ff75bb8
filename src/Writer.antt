-- ===== src/Writer.antt =====
-- src/bson/bson-writer.c: documents written one behind the other into a buffer of the caller.
-- `buf` is the memory of `*buf`, of `*buflen` bytes. The document under way has the same pointers:
-- between `begin` and `end` the memory is the `buf` of `document`, and `document` is none where the
-- C structure is all zero. The writer's own memory, and `bson_writer_destroy`, are left out.

pub mod Room
pub mod Sequence
pub mod Finish
use libbson.Base.{
  ℕ, zero, suc, ◌+◌, ◌*◌, ◌%◌, ◌^◌, Bool, true, false, not, ◌&&◌, Option, none, some, List, [], ◌∷◌,
  length, ltb, leb, ◌==◌, if◌then◌else◌,
}
use libbson.Run.{Run, done, aborted, fault, assert, store, ◌>>=◌, ◌>>◌}
use libbson.Bson.{Allocator, Bson}

-- `bson_writer_t`. `can_realloc` tells that `realloc_func` is not NULL.
pub record Writer : Type 0 where
  pub ready : Bool
  pub buf : List ℕ
  pub offset : ℕ
  pub can_realloc : Bool
  pub document : Option Bson

-- `bson_writer_new`
unfoldable pub new : List ℕ → ℕ → Bool → Writer
new buf offset can_realloc = record {
  ready = true;
  buf = buf;
  offset = offset;
  can_realloc = can_realloc;
  document = none;
}

-- `writer->b.len`
unfoldable pub document_len : Option Bson → ℕ
document_len none = 0
document_len (some b) = b.len

-- The memory of `*buf`.
unfoldable pub memory : Writer → List ℕ
memory w = elim w.document [ none ↦ w.buf | some b ↦ b.buf ]

-- `bson_writer_get_length`
unfoldable pub get_length : Writer → ℕ
unfolding document_len
get_length w = w.offset + document_len w.document

-- One turn of the loop of `bson_writer_begin` on `*buflen`, a `size_t`.
unfoldable pub twice : ℕ → ℕ
twice buflen = if buflen == 0 then 64 else buflen * 2 % 2 ^ 64

-- The loop of `bson_writer_begin` on `*buflen`, from a number of turns; `none` is more turns.
unfoldable pub grow_len : ℕ → ℕ → ℕ → Option ℕ
grow_len zero needed buflen = if ltb buflen needed then none else some buflen
grow_len (suc turns) needed buflen =
    let rest = grow_len turns needed (twice buflen) in
    if ltb buflen needed then rest else some buflen

-- The turns that are enough, by `grow_len-Enough`.
abbrev pub turns : ℕ
turns = 65

-- The document that `bson_writer_begin` sets up in the buffer.
unfoldable pub fresh_document : Writer → List ℕ → Bson
fresh_document w buf = record {
  is_inline = false;
  is_rdonly = false;
  is_child = false;
  in_child = false;
  len = 5;
  depth = 0;
  offset = w.offset;
  buf = buf;
  can_realloc = w.can_realloc;
}

-- `memset (buf + offset + 1, 0, 5)`, then `buf[offset] = 5`
unfoldable pub write_empty : Writer → List ℕ → Run (Writer × Bool)
unfolding fresh_document
write_empty w buf = do
  buf' ← store buf (w.offset + 1) (0 ∷ 0 ∷ 0 ∷ 0 ∷ 0 ∷ [])
  buf'' ← store buf' w.offset (5 ∷ [])
  done (record w { ready = false; document = some (fresh_document w buf'') }, true)

module _ (m : Allocator) where
  -- `bson_writer_begin` past its loop. Where the loop never ends the code does not return.
  unfoldable pub begin_at : Writer → Option ℕ → Run (Writer × Bool)
  unfolding write_empty
  begin_at w none = aborted
  begin_at w (some buflen) =
      if ltb (length w.buf) (w.offset + 5)
      then write_empty w (m.realloc w.buf buflen)
      else write_empty w w.buf

  -- `bson_writer_begin`
  unfoldable pub begin : Writer → Run (Writer × Bool)
  unfolding begin_at grow_len twice
  begin w =
      let grown = begin_at w (grow_len turns (w.offset + 5) (length w.buf)) in
      do
        assert w.ready
        if ltb (length w.buf) (w.offset + 5) && not w.can_realloc
            then done (record w { ready = true; document = none }, false)
            else grown

-- `bson_writer_end`
unfoldable pub end : Writer → Run Writer
unfolding document_len memory
end w = do
  assert (not w.ready)
  done (record w {
    ready = true;
    buf = memory w;
    offset = w.offset + document_len w.document;
    document = none;
  })

-- `bson_writer_rollback`
unfoldable pub rollback : Writer → Writer
unfolding memory
rollback w = record w { ready = true; buf = memory w; document = none }
