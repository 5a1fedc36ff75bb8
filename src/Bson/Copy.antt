-- ===== src/Bson/Copy.antt =====
-- src/bson/bson.c: `bson_append_iter`, and the copies of a document without some of its keys.
-- The names to leave out, a list of C arguments that NULL ends, are a list.
mod Appended
pub mod Kept
use libbson.Base.{
  ℕ, zero, suc, Bool, true, false, ◌||◌, Option, none, some, List, [], ◌∷◌, if◌then◌else◌,
}
use libbson.Base.Memory.{c_string}
use libbson.Types.{
  BsonType, eod, double, utf8, document, array, binary, undefined, oid, bool, date_time, null,
  regex, dbpointer, code, symbol, codewscope, int32, timestamp, int64, decimal128, maxkey, minkey,
  of_byte,
}
use libbson.Run.{Run, done, aborted, fault, assert, load, ◌>>=◌, ◌>>◌}
use libbson.Bson.{Allocator, Bson}
use libbson.Bson.Append.{
  contents, append_double, append_utf8, append_document, append_array, append_binary,
  append_undefined, append_oid, append_bool, append_date_time, append_null, append_regex,
  append_dbpointer, append_code, append_symbol, append_code_with_scope, append_int32,
  append_timestamp, append_int64, append_decimal128, append_maxkey, append_minkey,
}
use libbson.Bson.Value.{with_static}
use libbson.Bson.Validate.{is_same}
use libbson.Iter.{Iter}
use libbson.Iter.Next.{init, next}
use libbson.Iter.Read.{
  iter_type, read_key, read_binary, read_bool, read_double, read_int32, read_int64, read_decimal128,
  read_oid, read_regex, read_utf8, read_code, read_symbol, read_codewscope, read_dbpointer,
  read_date_time, read_timestamp, read_document, read_array,
}

-- What a pointer that an accessor gives points at: NULL does not occur at an element of the
-- accessor's type.
abbrev pub pointed {ℓ} : {A : Type ℓ} → Option (Option A) → Run A
pointed none = fault
pointed (some none) = fault
pointed (some (some x)) = done x

module _ (m : Allocator) (b : Bson) (key : List ℕ) (it : Iter) where
  -- The `switch` of `bson_append_iter`. A code, and the collection of a pointer, is read up to its
  -- NUL.
  unfoldable pub append_iter_type : Option BsonType → Run (Bson × Bool)
  append_iter_type (some double) = do v ← load (read_double it); append_double m b key v
  append_iter_type (some utf8) = do s ← pointed (read_utf8 it); append_utf8 m b key (some s)
  append_iter_type (some document) = do
    d ← pointed (read_document it)
    with_static b d (append_document m b key)
  append_iter_type (some array) = do
    d ← pointed (read_array it)
    with_static b d (append_array m b key)
  append_iter_type (some binary) = do r ← pointed (read_binary it); append_binary m b key r.0 r.1
  append_iter_type (some undefined) = append_undefined m b key
  append_iter_type (some oid) = do id ← pointed (read_oid it); append_oid m b key id
  append_iter_type (some bool) = do v ← load (read_bool it); append_bool m b key v
  append_iter_type (some date_time) = do v ← load (read_date_time it); append_date_time m b key v
  append_iter_type (some null) = append_null m b key
  append_iter_type (some regex) = do r ← pointed (read_regex it); append_regex m b key r.0 r.1
  append_iter_type (some dbpointer) = do
    r ← pointed (read_dbpointer it)
    append_dbpointer m b key (c_string r.0) r.1
  append_iter_type (some code) = do js ← pointed (read_code it); append_code m b key (c_string js)
  append_iter_type (some symbol) = do s ← pointed (read_symbol it); append_symbol m b key (some s)
  append_iter_type (some codewscope) = do
    r ← pointed (read_codewscope it)
    with_static b r.1 (λ d. append_code_with_scope m b key (c_string r.0) (some d))
  append_iter_type (some int32) = do v ← load (read_int32 it); append_int32 m b key v
  append_iter_type (some timestamp) = do
    r ← load (read_timestamp it)
    append_timestamp m b key r.0 r.1
  append_iter_type (some int64) = do v ← load (read_int64 it); append_int64 m b key v
  append_iter_type (some decimal128) = do
    r ← pointed (read_decimal128 it)
    append_decimal128 m b key r.0 r.1
  append_iter_type (some maxkey) = append_maxkey m b key
  append_iter_type (some minkey) = append_minkey m b key
  append_iter_type (some eod) = done (b, false)
  append_iter_type none = done (b, false)

-- `bson_append_iter` where no key is given: that of the element.
unfoldable pub append_iter : Allocator → Bson → Iter → Run (Bson × Bool)
unfolding append_iter_type iter_type
append_iter m b it = do
  key ← load (read_key it)
  t ← load (iter_type it)
  append_iter_type m b key it (of_byte t)

-- `should_ignore`
unfoldable pub should_ignore : List (List ℕ) → List ℕ → Bool
unfolding is_same
should_ignore [] name = false
should_ignore (exclude ∷ others) name = is_same name exclude || should_ignore others name

-- The body of the loop of `_bson_copy_to_excluding_va`, with what follows it; an element that is
-- not appended fails the assertion.
unfoldable pub copy_key :
    Allocator → List (List ℕ) → List ℕ → Iter → Bson → (Bson → Run Bson) → Run Bson
unfolding append_iter should_ignore
copy_key m excludes key it dst go_on =
    let added = (do (dst', ok) ← append_iter m dst it; if ok then go_on dst' else aborted) in
    if should_ignore excludes key then go_on dst else added

unfoldable pub copy_element : Allocator → List (List ℕ) → Iter → Bson → (Bson → Run Bson) → Run Bson
unfolding copy_key
copy_element m excludes it dst go_on = do
  key ← load (read_key it)
  copy_key m excludes key it dst go_on

-- The loop. To run out of rounds is a fault.
unfoldable pub copy_loop : ℕ → Allocator → List (List ℕ) → Iter → Bson → Run Bson
unfolding copy_element
copy_loop zero m excludes it dst = fault
copy_loop (suc rounds) m excludes it dst = do
  (it', more) ← load (next it)
  let element = copy_element m excludes it' dst (λ dst'. copy_loop rounds m excludes it' dst')
  if more then element else done dst

-- That the list of keys to leave out has a first, `BSON_ASSERT (first_exclude)`.
abbrev pub has_exclude : List (List ℕ) → Bool
has_exclude [] = false
has_exclude (exclude ∷ others) = true

-- `bson_copy_to_excluding_noinit`. A step of the iterator takes two bytes at least.
unfoldable pub copy_to_excluding : Allocator → List (List ℕ) → Bson → Bson → Run Bson
unfolding copy_loop
copy_to_excluding m excludes src dst = do
  assert (has_exclude excludes)
  let (it, ok) = init (contents src) src.len
  let copied = copy_loop (suc src.len) m excludes it dst
  if ok then copied else done dst
