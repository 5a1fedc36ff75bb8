-- ===== src/Format.antt =====
-- The format itself: the values that an element can hold (`bson_value_t` of src/bson/bson-types.h)
-- and, as a description independent of the code, the bytes of an element.
use libbson.Base.{
  ℕ, suc, ◌+◌, ◌≤◌, ◌<◌, ◌^◌, ◌≡◌, ◌≢◌, Bool, List, [], ◌∷◌, ◌++◌, length, All, ◌==◌, if◌then◌else◌,
  some, get_elem?, ◌-◌, length-append, arith,
}
use libbson.Base.Words.{le_bytes, length-le_bytes, read_le32}
use libbson.Types.{
  BsonType, double, utf8, document, array, binary, undefined, oid, bool, date_time, null, regex,
  dbpointer, code, symbol, codewscope, int32, timestamp, int64, decimal128, maxkey, minkey, to_byte,
}

-- `bson_value_t`. A pointer with a length is the list of its bytes, a C string the bytes in front
-- of its NUL. Integers and doubles are bit patterns.
pub data Value : Type 0 where
  v_double : ℕ → Value
  v_utf8 : List ℕ → Value
  v_document : List ℕ → Value
  v_array : List ℕ → Value
  v_binary : ℕ → List ℕ → Value
  v_undefined : Value
  v_oid : List ℕ → Value
  v_bool : Bool → Value
  v_datetime : ℕ → Value
  v_null : Value
  v_regex : List ℕ → List ℕ → Value
  v_dbpointer : List ℕ → List ℕ → Value
  v_code : List ℕ → Value
  v_symbol : List ℕ → Value
  v_codewscope : List ℕ → List ℕ → Value
  v_int32 : ℕ → Value
  v_timestamp : ℕ → ℕ → Value
  v_int64 : ℕ → Value
  v_decimal128 : ℕ → ℕ → Value
  v_maxkey : Value
  v_minkey : Value

-- The member `value_type`.
unfoldable pub value_type : Value → BsonType
value_type (v_double v) = double
value_type (v_utf8 s) = utf8
value_type (v_document d) = document
value_type (v_array d) = array
value_type (v_binary subtype bytes) = binary
value_type v_undefined = undefined
value_type (v_oid id) = oid
value_type (v_bool b) = bool
value_type (v_datetime v) = date_time
value_type v_null = null
value_type (v_regex pattern_ options) = regex
value_type (v_dbpointer collection id) = dbpointer
value_type (v_code js) = code
value_type (v_symbol s) = symbol
value_type (v_codewscope js scope) = codewscope
value_type (v_int32 v) = int32
value_type (v_timestamp time increment) = timestamp
value_type (v_int64 v) = int64
value_type (v_decimal128 low high) = decimal128
value_type v_maxkey = maxkey
value_type v_minkey = minkey

-- The bytes of an element: its type, its key as a C string, its data.
abbrev pub element : BsonType → List ℕ → List ℕ → List ℕ
element t key bytes = to_byte t ∷ (key ++ (0 ∷ bytes))

-- A string of the format: the size with the NUL, the bytes, the NUL.
abbrev pub text : List ℕ → List ℕ
text value = le_bytes 4 (suc (length value)) ++ (value ++ (0 ∷ []))

pub length-text : (s : List ℕ) → length (text s) ≡ length s + 5
length-text s = omega (
  arith,
  length-append (le_bytes 4 (suc (length s))) (s ++ (0 ∷ [])),
  length-append s (0 ∷ []),
  length-le_bytes 4 (suc (length s)),
)

-- Binary data: the size, the subtype and the bytes; for the subtype 2 the size is four larger and
-- stands again, without the four, in front of the bytes.
abbrev pub binary_data : ℕ → List ℕ → List ℕ
binary_data subtype bytes =
    if subtype == 2
    then le_bytes 4 (length bytes + 4) ++ (subtype ∷ (le_bytes 4 (length bytes) ++ bytes))
    else le_bytes 4 (length bytes) ++ (subtype ∷ bytes)

-- The data of an element that holds the value.
unfoldable pub encode : Value → List ℕ
encode (v_double v) = le_bytes 8 v
encode (v_utf8 s) = text s
encode (v_document d) = d
encode (v_array d) = d
encode (v_binary subtype bytes) = binary_data subtype bytes
encode v_undefined = []
encode (v_oid id) = id
encode (v_bool b) = (if b then 1 else 0) ∷ []
encode (v_datetime v) = le_bytes 8 v
encode v_null = []
encode (v_regex pattern_ options) = pattern_ ++ (0 ∷ (options ++ (0 ∷ [])))
encode (v_dbpointer collection id) = text collection ++ id
encode (v_code js) = text js
encode (v_symbol s) = text s
encode (v_codewscope js scope) = le_bytes 4 (length js + length scope + 9) ++ (text js ++ scope)
encode (v_int32 v) = le_bytes 4 v
encode (v_timestamp time increment) = le_bytes 4 increment ++ le_bytes 4 time
encode (v_int64 v) = le_bytes 8 v
encode (v_decimal128 low high) = le_bytes 8 low ++ le_bytes 8 high
encode v_maxkey = []
encode v_minkey = []

-- Bytes without a NUL.
abbrev pub NoNul : List ℕ → Type 0
NoNul xs = All (λ x. x ≢ 0) xs

-- Bytes that begin with their length and end with a NUL.
abbrev pub IsDocument : List ℕ → Type 0
IsDocument d =
    (5 ≤ length d)
    × (length d < 2 ^ 31)
    × (read_le32 d 0 ≡ some (length d))
    × (get_elem? d (length d - 1) ≡ some 0)

-- The values whose members have the sizes of their C types.
abbrev pub IsFit : Value → Type 0
IsFit (v_double v) = v < 2 ^ 64
IsFit (v_utf8 s) = length s < 2 ^ 30
IsFit (v_document d) = IsDocument d
IsFit (v_array d) = IsDocument d
IsFit (v_binary subtype bytes) = (subtype < 256) × (length bytes < 2 ^ 30)
IsFit v_undefined = Unit
IsFit (v_oid id) = length id ≡ 12
IsFit (v_bool b) = Unit
IsFit (v_datetime v) = v < 2 ^ 64
IsFit v_null = Unit
IsFit (v_regex pattern_ options) = NoNul pattern_ × NoNul options
IsFit (v_dbpointer collection id) = (length collection < 2 ^ 30) × (length id ≡ 12)
IsFit (v_code js) = NoNul js × (length js < 2 ^ 30)
IsFit (v_symbol s) = length s < 2 ^ 30
IsFit (v_codewscope js scope) = NoNul js × (length js < 2 ^ 30) × IsDocument scope
IsFit (v_int32 v) = v < 2 ^ 32
IsFit (v_timestamp time increment) = (time < 2 ^ 32) × (increment < 2 ^ 32)
IsFit (v_int64 v) = v < 2 ^ 64
IsFit (v_decimal128 low high) = (low < 2 ^ 64) × (high < 2 ^ 64)
IsFit v_maxkey = Unit
IsFit v_minkey = Unit

-- The bytes of a list of elements.
abbrev pub encode_all : List (List ℕ × Value) → List ℕ
encode_all [] = []
encode_all ((key, v) ∷ rest) = element (value_type v) key (encode v) ++ encode_all rest

abbrev pub AllFit : List (List ℕ × Value) → Type 0
AllFit elements = All (λ (e : List ℕ × Value). NoNul e.0 × IsFit e.1) elements

-- A whole document: its size, its elements and a NUL.
abbrev pub document_size : List (List ℕ × Value) → ℕ
document_size elements = length (encode_all elements) + 5

abbrev pub document_bytes : List (List ℕ × Value) → List ℕ
document_bytes elements = le_bytes 4 (document_size elements) ++ (encode_all elements ++ (0 ∷ []))
