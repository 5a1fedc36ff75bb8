-- ===== src/Iter/Element.antt =====
-- src/bson/bson-iter.c: where the step of the iterator leaves the offsets of an element's data.
pub mod Fill
pub mod Read
pub mod Step
pub mod Walk
use libbson.Base.{
  ℕ, zero, suc, ◌+◌, ◌-◌, ◌^◌, ◌≤◌, ◌<◌, ◌≡◌, ◌≢◌, refl, sym, ap, ◌∙◌, Bool, true, false, Option,
  none, some, List, [], ◌∷◌, ◌++◌, get_elem?, length, length-append, Bool-cases, inl, inr, arith,
  ◌==◌, if◌then◌else◌,
}
use mathlib.Core.List.{append_assoc}
use libbson.Base.Words.{add32, read_le32, le_bytes, length-le_bytes}
use libbson.Base.Memory.{
  Holds, Holds-front, Holds-behind, get_elem?_of, read_le32_of, read_le32_first,
}
use libbson.Types.{BsonType}
use libbson.Format.{
  Value, v_double, v_utf8, v_document, v_array, v_binary, v_undefined, v_oid, v_bool, v_datetime,
  v_null, v_regex, v_dbpointer, v_code, v_symbol, v_codewscope, v_int32, v_timestamp, v_int64,
  v_decimal128, v_maxkey, v_minkey, value_type, encode, text, binary_data, IsFit,
}
use libbson.Iter.{Iter, Filled, filled}
use libbson.Iter.Next.{fill_type}
use libbson.Iter.Fill.{Extends}

-- The offsets of the parts of a value whose data is at `o`.
abbrev pub Places : Value → ℕ → Iter → Type 0
Places (v_utf8 s) o it = (it.d1 ≡ o) × (it.d2 ≡ o + 4)
Places (v_code s) o it = (it.d1 ≡ o) × (it.d2 ≡ o + 4)
Places (v_symbol s) o it = (it.d1 ≡ o) × (it.d2 ≡ o + 4)
Places (v_binary subtype bytes) o it = (it.d1 ≡ o) × (it.d2 ≡ o + 4) × (it.d3 ≡ o + 5)
Places (v_regex r options) o it = (it.d1 ≡ o) × (it.d2 ≡ o + length r + 1)
Places (v_dbpointer collection id) o it =
    (it.d1 ≡ o) × (it.d2 ≡ o + 4) × (it.d3 ≡ o + length (text collection))
Places (v_codewscope js scope) o it =
    (it.d1 ≡ o) × (it.d2 ≡ o + 4) × (it.d3 ≡ o + 8) × (it.d4 ≡ o + length js + 9)
Places v_undefined o it = Unit
Places v_null o it = Unit
Places v_maxkey o it = Unit
Places v_minkey o it = Unit
Places v o it = it.d1 ≡ o

-- They do not depend on the error offset.
pub Places-cleared :
    (v : Value) (o : ℕ) (it : Iter) → Places v o it → Places v o (record it { err_off = 0 })
Places-cleared (v_double x) o it h = h
Places-cleared (v_utf8 x) o it h = h
Places-cleared (v_document x) o it h = h
Places-cleared (v_array x) o it h = h
Places-cleared (v_binary x y) o it h = h
Places-cleared v_undefined o it h = h
Places-cleared (v_oid x) o it h = h
Places-cleared (v_bool x) o it h = h
Places-cleared (v_datetime x) o it h = h
Places-cleared v_null o it h = h
Places-cleared (v_regex x y) o it h = h
Places-cleared (v_dbpointer x y) o it h = h
Places-cleared (v_code x) o it h = h
Places-cleared (v_symbol x) o it h = h
Places-cleared (v_codewscope x y) o it h = h
Places-cleared (v_int32 x) o it h = h
Places-cleared (v_timestamp x y) o it h = h
Places-cleared (v_int64 x) o it h = h
Places-cleared (v_decimal128 x y) o it h = h
Places-cleared v_maxkey o it h = h
Places-cleared v_minkey o it h = h
