-- ===== src/Iter/Read.antt =====
-- src/bson/bson-iter.c: the functions that read the value of the current element.
-- `none` is a read past the memory, or through an iterator without one. A pointer with its length
-- is answered as the bytes that it points at, a C string as those in front of its NUL.
pub mod Value
pub mod Date
use libbson.Base.{
  ℕ, suc, ◌+◌, ◌-◌, ◌*◌, ◌/◌, ◌%◌, ◌^◌, Bool, true, false, not, Option, none, some, List, [], ◌∷◌,
  get_elem?, length, drop, ltb, leb, ◌==◌, ◌||◌, if◌then◌else◌, ◌>>=◌,
}
use libbson.Base.Words.{read_le32, sub32, add32}
use libbson.Base.Memory.{slice, le_value, c_string}
use libbson.Types.{
  BsonType, double, utf8, document, array, binary, undefined, oid, bool, date_time, null, regex,
  dbpointer, code, symbol, codewscope, int32, timestamp, int64, decimal128, maxkey, minkey, eod,
  to_byte, of_byte,
}
use libbson.Iter.{Iter}

-- `ITER_TYPE`
unfoldable pub iter_type : Iter → Option ℕ
iter_type it = do raw ← it.raw; get_elem? raw it.type

-- A read that is made at elements of one type; at others the answer is `absent`.
abbrev pub of_type {ℓ} : {A : Type ℓ} → BsonType → A → (List ℕ → Option A) → Iter → Option A
of_type t absent read it = do
  raw ← it.raw
  b ← get_elem? raw it.type
  let value = read raw
  if b == to_byte t then value else some absent

-- `memcpy` of a little-endian number of `n` bytes.
abbrev pub read_le : ℕ → ℕ → List ℕ → Option ℕ
read_le n at raw = do bytes ← slice raw at n; some (le_value bytes)

-- A C string: the bytes up to a NUL that has to be there.
unfoldable pub read_c_string : ℕ → List ℕ → Option (List ℕ)
read_c_string at raw =
    let s = c_string (drop at raw) in if leb (length raw) (at + length s) then none else some s

-- `bson_iter_utf8_len_unsafe`: the size less the NUL, and no less than 0 as an `int32_t`.
abbrev pub text_len : ℕ → ℕ
text_len l = if l == 0 || leb (2 ^ 31 + 1) l then 0 else l - 1

abbrev pub read_text : Iter → List ℕ → Option (List ℕ)
read_text it raw = do l ← read_le32 raw it.d1; slice raw it.d2 (text_len l)

-- `bson_iter_binary`: the subtype and the bytes. The subtype 2 has a second length in front.
unfoldable pub binary_at : Iter → List ℕ → Option (ℕ × List ℕ)
binary_at it raw = do
  subtype ← get_elem? raw it.d2
  l ← read_le32 raw it.d1
  let old = (do bytes ← slice raw (it.d3 + 4) (sub32 l 4); some (subtype, bytes))
  let new = (do bytes ← slice raw it.d3 l; some (subtype, bytes))
  if subtype == 2 then old else new

unfoldable pub read_binary : Iter → Option (Option (ℕ × List ℕ))
unfolding binary_at
read_binary it = of_type binary none (λ raw. do r ← binary_at it raw; some (some r)) it

-- `bson_iter_bool`
unfoldable pub read_bool : Iter → Option Bool
read_bool it = of_type bool false (λ raw. do b ← get_elem? raw it.d1; some (not (b == 0))) it

-- `bson_iter_double`, as its bit pattern.
unfoldable pub read_double : Iter → Option ℕ
read_double it = of_type double 0 (read_le 8 it.d1) it

-- `bson_iter_int32`
unfoldable pub read_int32 : Iter → Option ℕ
read_int32 it = of_type int32 0 (read_le 4 it.d1) it

-- `bson_iter_int64`
unfoldable pub read_int64 : Iter → Option ℕ
read_int64 it = of_type int64 0 (read_le 8 it.d1) it

-- `bson_iter_as_bool`. A double is zero when its pattern has no bit but the sign.
unfoldable pub as_bool_of : Option BsonType → Iter → Option Bool
as_bool_of (some bool) it = read_bool it
as_bool_of (some double) it = do v ← read_double it; some (not (v % 2 ^ 63 == 0))
as_bool_of (some int64) it = do v ← read_int64 it; some (not (v == 0))
as_bool_of (some int32) it = do v ← read_int32 it; some (not (v == 0))
as_bool_of (some utf8) it = some true
as_bool_of (some null) it = some false
as_bool_of (some undefined) it = some false
as_bool_of other it = some true

unfoldable pub as_bool : Iter → Option Bool
unfolding iter_type as_bool_of
as_bool it = do t ← iter_type it; as_bool_of (of_byte t) it

-- `bson_iter_as_int64`, as a 64-bit pattern; `to_int64` is the conversion of a double.
unfoldable pub as_int64_of : (ℕ → ℕ) → Option BsonType → Iter → Option ℕ
as_int64_of to_int64 (some bool) it = do b ← read_bool it; some (if b then 1 else 0)
as_int64_of to_int64 (some double) it = do v ← read_double it; some (to_int64 v)
as_int64_of to_int64 (some int64) it = read_int64 it
as_int64_of to_int64 (some int32) it = do
  v ← read_int32 it
  some (if leb (2 ^ 31) v then v + (2 ^ 64 - 2 ^ 32) else v)
as_int64_of to_int64 other it = some 0

unfoldable pub as_int64 : (ℕ → ℕ) → Iter → Option ℕ
unfolding iter_type as_int64_of
as_int64 to_int64 it = do t ← iter_type it; as_int64_of to_int64 (of_byte t) it

-- `bson_iter_decimal128`: the low and the high half.
unfoldable pub read_decimal128 : Iter → Option (Option (ℕ × ℕ))
read_decimal128 it =
    of_type decimal128 none
      (λ raw. do
        low ← read_le 8 it.d1 raw
        high ← read_le 8 (it.d1 + 8) raw
        some (some (low, high)))
      it

-- `bson_iter_oid`
unfoldable pub read_oid : Iter → Option (Option (List ℕ))
read_oid it = of_type oid none (λ raw. do id ← slice raw it.d1 12; some (some id)) it

-- `bson_iter_regex`
unfoldable pub read_regex : Iter → Option (Option (List ℕ × List ℕ))
unfolding read_c_string
read_regex it =
    of_type regex none
      (λ raw. do
        r ← read_c_string it.d1 raw
        options ← read_c_string it.d2 raw
        some (some (r, options)))
      it

-- `bson_iter_utf8`, `bson_iter_code` and `bson_iter_symbol`
unfoldable pub read_utf8 : Iter → Option (Option (List ℕ))
read_utf8 it = of_type utf8 none (λ raw. do s ← read_text it raw; some (some s)) it

unfoldable pub read_code : Iter → Option (Option (List ℕ))
read_code it = of_type code none (λ raw. do s ← read_text it raw; some (some s)) it

unfoldable pub read_symbol : Iter → Option (Option (List ℕ))
read_symbol it = of_type symbol none (λ raw. do s ← read_text it raw; some (some s)) it

-- `bson_iter_codewscope`: the code and the document of its scope. The assertion that the length of
-- the code is positive fails as `none`.
unfoldable pub codewscope_at : Iter → List ℕ → Option (List ℕ × List ℕ)
codewscope_at it raw = do
  js_length ← read_le32 raw it.d2
  scope_len ← read_le32 raw it.d4
  js ← slice raw it.d3 (js_length - 1)
  scope ← slice raw it.d4 scope_len
  if js_length == 0 then none else some (js, scope)

unfoldable pub read_codewscope : Iter → Option (Option (List ℕ × List ℕ))
unfolding codewscope_at
read_codewscope it = of_type codewscope none (λ raw. do r ← codewscope_at it raw; some (some r)) it

-- `bson_iter_dbpointer`: the collection and the object id.
unfoldable pub dbpointer_at : Iter → List ℕ → Option (List ℕ × List ℕ)
dbpointer_at it raw = do
  l ← read_le32 raw it.d1
  collection ← slice raw it.d2 (l - 1)
  id ← slice raw it.d3 12
  some (collection, id)

unfoldable pub read_dbpointer : Iter → Option (Option (List ℕ × List ℕ))
unfolding dbpointer_at
read_dbpointer it = of_type dbpointer none (λ raw. do r ← dbpointer_at it raw; some (some r)) it

-- `bson_iter_date_time`
unfoldable pub read_date_time : Iter → Option ℕ
read_date_time it = of_type date_time 0 (read_le 8 it.d1) it

-- `bson_iter_time_t`: `bson_iter_int64_unsafe (iter) / 1000UL`, a division of unsigned numbers.
unfoldable pub read_time_t : Iter → Option ℕ
read_time_t it = of_type date_time 0 (λ raw. do v ← read_le 8 it.d1 raw; some (v / 1000)) it

-- `bson_iter_timeval`: the quotient and the remainder of signed numbers, which go towards 0.
unfoldable pub to_timeval : ℕ → ℕ × ℕ
to_timeval v =
    if ltb v (2 ^ 63)
    then (v / 1000, v % 1000 * 1000)
    else ((2 ^ 64 - (2 ^ 64 - v) / 1000) % 2 ^ 64, (2 ^ 64 - (2 ^ 64 - v) % 1000 * 1000) % 2 ^ 64)

unfoldable pub read_timeval : Iter → Option (ℕ × ℕ)
unfolding to_timeval
read_timeval it =
    of_type date_time (0, 0) (λ raw. do v ← read_le 8 it.d1 raw; some (to_timeval v)) it

-- `bson_iter_timestamp`: the timestamp and the increment.
unfoldable pub read_timestamp : Iter → Option (ℕ × ℕ)
read_timestamp it =
    of_type timestamp (0, 0)
      (λ raw. do encoded ← read_le 8 it.d1 raw; some (encoded / 2 ^ 32 % 2 ^ 32, encoded % 2 ^ 32))
      it

-- `bson_iter_document` and `bson_iter_array`
unfoldable pub document_at : Iter → List ℕ → Option (List ℕ)
document_at it raw = do l ← read_le32 raw it.d1; slice raw it.d1 l

unfoldable pub read_document : Iter → Option (Option (List ℕ))
unfolding document_at
read_document it = of_type document none (λ raw. do d ← document_at it raw; some (some d)) it

unfoldable pub read_array : Iter → Option (Option (List ℕ))
unfolding document_at
read_array it = of_type array none (λ raw. do d ← document_at it raw; some (some d)) it

-- `bson_iter_key`
unfoldable pub read_key : Iter → Option (List ℕ)
unfolding read_c_string
read_key it = do raw ← it.raw; read_c_string it.key raw
