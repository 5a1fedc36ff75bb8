-- ===== src/Bson/Child.antt =====
-- src/bson/bson.c: documents and arrays that are built inside their parent.
-- A child has the parent's `buf` pointer. While it is open the parent's bytes are those of the
-- child's `buf`: `append_bson_end` takes them from there.
use libbson.Base.{ℕ, ◌+◌, ◌-◌, Bool, true, false, not, List, [], ◌∷◌, leb, if◌then◌else◌}
use libbson.Base.Words.{le_bytes, add32, sub32}
use libbson.Types.{BsonType, document, array}
use libbson.Run.{Run, done, assert, store, ◌>>=◌, ◌>>◌}
use libbson.Bson.{Allocator, Bson, grow, append}
use libbson.Bson.Append.{keyed, keyed_size}

-- The child's header, once the parent holds the empty document at its end.
abbrev child_of : Bson → Bson
child_of b = record {
  is_inline = false;
  is_rdonly = false;
  is_child = true;
  in_child = false;
  len = 5;
  depth = if b.is_child then b.depth + 1 else 1;
  offset = b.offset + b.len - 1 - 5;
  buf = b.buf;
  can_realloc = b.can_realloc;
}

module _ (m : Allocator) where
  -- An inline parent moves to the heap first.
  leave_inline : Bson → Run (Bson × Bool)
  leave_inline b =
      let moved = (do
        assert (leb b.len 120)
        (b', grown) ← grow m b (128 - b.len)
        assert (if grown then not b'.is_inline else true)
        done (b', grown)) in
      if b.is_inline then moved else done (b, true)

  begin_child : Bson → List ℕ → BsonType → Run (Bson × Bson × Bool)
  begin_child b key child_type = do
    (b', ok) ← append m b (keyed_size key 5) (keyed child_type key ((5 ∷ 0 ∷ 0 ∷ 0 ∷ 0 ∷ []) ∷ []))
    done (if ok then (record b' { in_child = true }, child_of b', true) else (b', b', false))

  -- `_bson_append_bson_begin`: the parent, the child and the result. Where that is false the child
  -- is not written, and the second component has no meaning.
  unfoldable pub append_bson_begin : Bson → List ℕ → BsonType → Run (Bson × Bson × Bool)
  unfolding leave_inline begin_child
  append_bson_begin b key child_type = do
    assert (not b.is_rdonly)
    assert (not b.in_child)
    (b', ready) ← leave_inline b
    let begun = begin_child b' key child_type
    if ready then begun else done (b', b', false)

  unfoldable pub append_array_begin : Bson → List ℕ → Run (Bson × Bson × Bool)
  append_array_begin b key = append_bson_begin b key array

  unfoldable pub append_document_begin : Bson → List ℕ → Run (Bson × Bson × Bool)
  append_document_begin b key = append_bson_begin b key document

-- `_bson_append_bson_end`
unfoldable pub append_bson_end : Bson → Bson → Run (Bson × Bool)
append_bson_end b child = do
  assert b.in_child
  assert (not child.in_child)
  let len = sub32 (add32 b.len child.len) 5
  buf ← store child.buf (b.offset + len - 1) (0 ∷ [])
  buf' ← store buf b.offset (le_bytes 4 len)
  done (record b { in_child = false; len = len; buf = buf' }, true)

unfoldable pub append_array_end : Bson → Bson → Run (Bson × Bool)
append_array_end b child = append_bson_end b child

unfoldable pub append_document_end : Bson → Bson → Run (Bson × Bool)
append_document_end b child = append_bson_end b child
