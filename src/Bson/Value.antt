-- ===== src/Bson/Value.antt =====
-- src/bson/bson.c: `bson_append_value` and `bson_init_static`.
use libbson.Base.{
  ℕ, ◌-◌, ◌^◌, Bool, true, false, Option, none, some, List, length, get_elem?, ltb, ◌==◌, ◌&&◌,
  ◌||◌, if◌then◌else◌,
}
use libbson.Base.Words.{read_le32}
use libbson.Base.Memory.{c_string}
use libbson.Format.{
  Value, v_double, v_utf8, v_document, v_array, v_binary, v_undefined, v_oid, v_bool, v_datetime,
  v_null, v_regex, v_dbpointer, v_code, v_symbol, v_codewscope, v_int32, v_timestamp, v_int64,
  v_decimal128, v_maxkey, v_minkey,
}
use libbson.Run.{Run, done, ◌>>=◌, load}
use libbson.Bson.{Allocator, Bson}
use libbson.Bson.Append.{
  append_double, append_utf8, append_document, append_array, append_binary, append_undefined,
  append_oid, append_bool, append_date_time, append_null, append_regex, append_dbpointer,
  append_code, append_symbol, append_code_with_scope, append_int32, append_timestamp, append_int64,
  append_decimal128, append_maxkey, append_minkey,
}

-- A read-only document over the bytes of another.
abbrev pub static_document : List ℕ → Bson
static_document bytes = record {
  is_inline = false;
  is_rdonly = true;
  is_child = false;
  in_child = false;
  len = length bytes;
  depth = 0;
  offset = 0;
  buf = bytes;
  can_realloc = false;
}

-- `bson_init_static`, given the `length` bytes at `data`; `none` is the result false.
unfoldable pub init_static : List ℕ → Run (Option Bson)
init_static bytes =
    let checked = (do
      len_le ← load (read_le32 bytes 0)
      last ← load (get_elem? bytes (length bytes - 1))
      done (if len_le == length bytes && last == 0 then some (static_document bytes) else none)) in
    if ltb (length bytes) 5 || ltb (2 ^ 31 - 1) (length bytes) then done none else checked

-- A value that holds a document is appended where `bson_init_static` takes the document.
unfoldable pub with_static : Bson → List ℕ → (Bson → Run (Bson × Bool)) → Run (Bson × Bool)
with_static b bytes append_to = do
  local ← init_static bytes
  elim local [ none ↦ done (b, false) | some d ↦ append_to d ]

-- The `switch` of `bson_append_value`. A code, and the
-- collection of a pointer, is read up to its NUL.
unfoldable pub append_value : Allocator → Bson → List ℕ → Value → Run (Bson × Bool)
append_value m b key (v_double v) = append_double m b key v
append_value m b key (v_utf8 s) = append_utf8 m b key (some s)
append_value m b key (v_document d) = with_static b d (append_document m b key)
append_value m b key (v_array d) = with_static b d (append_array m b key)
append_value m b key (v_binary subtype bytes) = append_binary m b key subtype bytes
append_value m b key v_undefined = append_undefined m b key
append_value m b key (v_oid id) = append_oid m b key id
append_value m b key (v_bool flag) = append_bool m b key flag
append_value m b key (v_datetime v) = append_date_time m b key v
append_value m b key v_null = append_null m b key
append_value m b key (v_regex r options) = append_regex m b key r options
append_value m b key (v_dbpointer collection id) = append_dbpointer m b key (c_string collection) id
append_value m b key (v_code js) = append_code m b key (c_string js)
append_value m b key (v_symbol s) = append_symbol m b key (some s)
append_value m b key (v_codewscope js scope) =
    with_static b scope (λ d. append_code_with_scope m b key (c_string js) (some d))
append_value m b key (v_int32 v) = append_int32 m b key v
append_value m b key (v_timestamp time increment) = append_timestamp m b key time increment
append_value m b key (v_int64 v) = append_int64 m b key v
append_value m b key (v_decimal128 low high) = append_decimal128 m b key low high
append_value m b key v_maxkey = append_maxkey m b key
append_value m b key v_minkey = append_minkey m b key
