-- ===== src/Iter/Read/Value.antt =====
-- src/bson/bson-iter.c: `bson_iter_value`.
use libbson.Base.{ℕ, Option, none, some, List, ◌>>=◌}
use libbson.Types.{
  BsonType, double, utf8, document, array, binary, undefined, oid, bool, date_time, null, regex,
  dbpointer, code, symbol, codewscope, int32, timestamp, int64, decimal128, maxkey, minkey, eod,
  of_byte,
}
use libbson.Format.{
  Value, v_double, v_utf8, v_document, v_array, v_binary, v_undefined, v_oid, v_bool, v_datetime,
  v_null, v_regex, v_dbpointer, v_code, v_symbol, v_codewscope, v_int32, v_timestamp, v_int64,
  v_decimal128, v_maxkey, v_minkey,
}
use libbson.Iter.{Iter}
use libbson.Iter.Read.{
  iter_type, read_binary, read_bool, read_double, read_int32, read_int64, read_decimal128, read_oid,
  read_regex, read_utf8, read_code, read_symbol, read_codewscope, read_dbpointer, read_date_time,
  read_timestamp, read_document, read_array,
}

-- What is answered of a pointer that an accessor gives: NULL does not occur at an element of the
-- accessor's type.
abbrev pub given {ℓ κ} : {A : Type ℓ} {B : Type κ} → (A → B) → Option (Option A) → Option (Option B)
given f none = none
given f (some none) = none
given f (some (some x)) = some (some (f x))

abbrev pub taken {ℓ κ} : {A : Type ℓ} {B : Type κ} → (A → B) → Option A → Option (Option B)
taken f none = none
taken f (some x) = some (some (f x))

-- The `switch`. `some none` is NULL.
unfoldable pub value_of : Option BsonType → Iter → Option (Option Value)
value_of (some double) it = taken v_double (read_double it)
value_of (some utf8) it = given v_utf8 (read_utf8 it)
value_of (some document) it = given v_document (read_document it)
value_of (some array) it = given v_array (read_array it)
value_of (some binary) it = given (λ (r : ℕ × List ℕ). v_binary r.0 r.1) (read_binary it)
value_of (some oid) it = given v_oid (read_oid it)
value_of (some bool) it = taken v_bool (read_bool it)
value_of (some date_time) it = taken v_datetime (read_date_time it)
value_of (some regex) it = given (λ (r : List ℕ × List ℕ). v_regex r.0 r.1) (read_regex it)
value_of (some dbpointer) it =
    given (λ (r : List ℕ × List ℕ). v_dbpointer r.0 r.1) (read_dbpointer it)
value_of (some code) it = given v_code (read_code it)
value_of (some symbol) it = given v_symbol (read_symbol it)
value_of (some codewscope) it =
    given (λ (r : List ℕ × List ℕ). v_codewscope r.0 r.1) (read_codewscope it)
value_of (some int32) it = taken v_int32 (read_int32 it)
value_of (some timestamp) it = taken (λ (r : ℕ × ℕ). v_timestamp r.0 r.1) (read_timestamp it)
value_of (some int64) it = taken v_int64 (read_int64 it)
value_of (some decimal128) it = given (λ (r : ℕ × ℕ). v_decimal128 r.0 r.1) (read_decimal128 it)
value_of (some null) it = some (some v_null)
value_of (some undefined) it = some (some v_undefined)
value_of (some maxkey) it = some (some v_maxkey)
value_of (some minkey) it = some (some v_minkey)
value_of (some eod) it = some none
value_of none it = some none

-- `bson_iter_value`
unfoldable pub value : Iter → Option (Option Value)
unfolding iter_type value_of
value it = do t ← iter_type it; value_of (of_byte t) it
