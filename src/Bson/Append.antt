-- ===== src/Bson/Append.antt =====
-- src/bson/bson.c: the functions that append one field.
-- A key is the list of its `key_length` bytes (where that is negative, of those in front of its
-- NUL); a C string is the list of the bytes in front of its NUL. Integers and doubles are given by
-- their bit patterns. The sums of sizes are `uint32_t` arguments.
pub mod Elements
pub mod Regex
use libbson.Base.{
  ℕ, ◌+◌, ◌*◌, ◌/◌, ◌%◌, ◌^◌, bit_or, Bool, true, false, Option, none, some, List, [], ◌∷◌, ◌++◌,
  length, take, drop, ltb, leb, ◌==◌, ◌||◌, if◌then◌else◌,
}
use libbson.Base.Words.{le_bytes, u32, add32}
use libbson.Types.{
  BsonType, double, utf8, document, array, binary, undefined, oid, bool, date_time, null, regex,
  dbpointer, code, symbol, codewscope, int32, timestamp, int64, decimal128, maxkey, minkey, to_byte,
}
use libbson.Run.{Run}
use libbson.Bson.{Allocator, Bson, append}

-- The pairs in front of the data: the type, the key and its NUL.
abbrev pub keyed : BsonType → List ℕ → List (List ℕ) → List (List ℕ)
keyed t key pairs = (to_byte t ∷ []) ∷ key ∷ (0 ∷ []) ∷ pairs

-- `1 + key_length + 1 + size`
abbrev pub keyed_size : List ℕ → ℕ → ℕ
keyed_size key size = u32 (1 + length key + 1 + size)

-- The bytes of a document.
abbrev pub contents : Bson → List ℕ
contents b = take b.len (drop b.offset b.buf)

-- `strchr (options, c)`
unfoldable pub has_byte : ℕ → List ℕ → Bool
has_byte c [] = false
has_byte c (x ∷ xs) = x == c || has_byte c xs

unfoldable pub sort_options : List ℕ → List ℕ → List ℕ
sort_options [] options = []
sort_options (c ∷ cs) options =
    let rest = sort_options cs options in if has_byte c options then c ∷ rest else rest

-- `_bson_append_regex_options_sorted`, with BSON_REGEX_OPTIONS_SORTED, "ilmsux".
unfoldable pub regex_options_sorted : List ℕ → List ℕ
regex_options_sorted options = sort_options (b'i' ∷ b'l' ∷ b'm' ∷ b's' ∷ b'u' ∷ b'x' ∷ []) options

module _ (m : Allocator) (b : Bson) (key : List ℕ) where
  unfoldable pub append_double : ℕ → Run (Bson × Bool)
  append_double value = append m b (keyed_size key 8) (keyed double key (le_bytes 8 value ∷ []))

  unfoldable pub append_int32 : ℕ → Run (Bson × Bool)
  append_int32 value = append m b (keyed_size key 4) (keyed int32 key (le_bytes 4 value ∷ []))

  unfoldable pub append_int64 : ℕ → Run (Bson × Bool)
  append_int64 value = append m b (keyed_size key 8) (keyed int64 key (le_bytes 8 value ∷ []))

  -- `low` and `high`, 64 bits each.
  unfoldable pub append_decimal128 : ℕ → ℕ → Run (Bson × Bool)
  append_decimal128 low high =
      append m b (keyed_size key 16)
        (keyed decimal128 key ((le_bytes 8 low ++ le_bytes 8 high) ∷ []))

  unfoldable pub append_date_time : ℕ → Run (Bson × Bool)
  append_date_time value =
      append m b (keyed_size key 8) (keyed date_time key (le_bytes 8 value ∷ []))

  -- `struct timeval`: seconds and microseconds as 64-bit patterns.
  unfoldable pub append_timeval : ℕ → ℕ → Run (Bson × Bool)
  append_timeval sec usec = append_date_time ((sec * 1000 + usec / 1000) % 2 ^ 64)

  unfoldable pub append_time_t : ℕ → Run (Bson × Bool)
  append_time_t value = append_timeval value 0

  -- `bson_append_now_utc`, given what `time (NULL)` answers.
  unfoldable pub append_now_utc : ℕ → Run (Bson × Bool)
  append_now_utc now = append_time_t now

  -- `(timestamp << 32) | increment`
  unfoldable pub append_timestamp : ℕ → ℕ → Run (Bson × Bool)
  append_timestamp time increment =
      append m b (keyed_size key 8)
        (keyed timestamp key (le_bytes 8 (bit_or (time * 2 ^ 32) increment) ∷ []))

  unfoldable pub append_bool : Bool → Run (Bson × Bool)
  append_bool value =
      append m b (keyed_size key 1) (keyed bool key (((if value then 1 else 0) ∷ []) ∷ []))

  -- The twelve bytes of the object id.
  unfoldable pub append_oid : List ℕ → Run (Bson × Bool)
  append_oid value = append m b (keyed_size key 12) (keyed oid key (value ∷ []))

  unfoldable pub append_undefined : Run (Bson × Bool)
  append_undefined = append m b (keyed_size key 0) (keyed undefined key [])

  unfoldable pub append_null : Run (Bson × Bool)
  append_null = append m b (keyed_size key 0) (keyed null key [])

  unfoldable pub append_maxkey : Run (Bson × Bool)
  append_maxkey = append m b (keyed_size key 0) (keyed maxkey key [])

  unfoldable pub append_minkey : Run (Bson × Bool)
  append_minkey = append m b (keyed_size key 0) (keyed minkey key [])

  text_pairs : BsonType → List ℕ → List (List ℕ)
  text_pairs t value = keyed t key (le_bytes 4 (add32 (length value) 1) ∷ value ∷ (0 ∷ []) ∷ [])

  -- `none` is NULL, which appends a null. The value is the list of its `length` bytes.
  unfoldable pub append_utf8 : Option (List ℕ) → Run (Bson × Bool)
  unfolding text_pairs
  append_utf8 none = append_null
  append_utf8 (some value) =
      append m b (keyed_size key (4 + length value + 1)) (text_pairs utf8 value)

  unfoldable pub append_symbol : Option (List ℕ) → Run (Bson × Bool)
  unfolding text_pairs
  append_symbol none = append_null
  append_symbol (some value) =
      append m b (keyed_size key (4 + length value + 1)) (text_pairs symbol value)

  -- `length` counts the NUL.
  unfoldable pub append_code : List ℕ → Run (Bson × Bool)
  append_code javascript =
      let length_ = u32 (length javascript + 1) in
      append m b (keyed_size key (4 + length_))
        (keyed code key (le_bytes 4 length_ ∷ (javascript ++ (0 ∷ [])) ∷ []))

  unfoldable pub append_dbpointer : List ℕ → List ℕ → Run (Bson × Bool)
  append_dbpointer collection id =
      let length_ = u32 (length collection + 1) in
      append m b (keyed_size key (4 + length_ + 12))
        (keyed dbpointer key (le_bytes 4 length_ ∷ (collection ++ (0 ∷ [])) ∷ id ∷ []))

  -- The subtype 2 has its length twice.
  unfoldable pub append_binary : ℕ → List ℕ → Run (Bson × Bool)
  append_binary subtype bytes =
      if subtype == 2
      then append m b (keyed_size key (4 + 1 + 4 + length bytes)) (
          keyed binary key (
            le_bytes 4 (add32 (length bytes) 4)
            ∷ ((subtype % 256) ∷ [])
            ∷ le_bytes 4 (length bytes)
            ∷ bytes
            ∷ []))
      else append m b (keyed_size key (4 + 1 + length bytes))
          (keyed binary key (le_bytes 4 (length bytes) ∷ ((subtype % 256) ∷ []) ∷ bytes ∷ []))

  unfoldable pub append_document : Bson → Run (Bson × Bool)
  append_document value =
      append m b (keyed_size key value.len) (keyed document key (contents value ∷ []))

  -- `bson_append_array`, without the warning that it prints for a first key other than "0", and
  -- without the step of an iterator that looks for this key.
  unfoldable pub append_array : Bson → Run (Bson × Bool)
  append_array value = append m b (keyed_size key value.len) (keyed array key (contents value ∷ []))

  -- `none` is a scope of NULL.
  unfoldable pub append_code_with_scope : List ℕ → Option Bson → Run (Bson × Bool)
  append_code_with_scope javascript none = append_code javascript
  append_code_with_scope javascript (some scope) =
      let js_length = u32 (length javascript + 1) in
      append m b (keyed_size key (4 + 4 + js_length + scope.len)) (
        keyed codewscope key (
          le_bytes 4 (u32 (4 + 4 + js_length + scope.len))
          ∷ le_bytes 4 js_length
          ∷ (javascript ++ (0 ∷ []))
          ∷ contents scope
          ∷ []))

  -- NULL stands for the empty string. The size counts the options without their NUL, and the last
  -- pair has it.
  unfoldable pub append_regex : List ℕ → List ℕ → Run (Bson × Bool)
  append_regex pattern_ options =
      let sorted = regex_options_sorted options in
      let regex_len = u32 (length pattern_ + 1) in
      append m b (keyed_size key (regex_len + length sorted))
        (keyed regex key ((pattern_ ++ (0 ∷ [])) ∷ (sorted ++ (0 ∷ [])) ∷ []))
