-- ===== src/Types.antt =====
-- src/bson/bson-types.h: the element types of BSON.
use libbson.Base.{ℕ, ◌==◌, Option, none, some, if◌then◌else◌}

-- `bson_type_t`
pub data BsonType : Type 0 where
  eod double utf8 document array binary undefined oid bool date_time null regex : BsonType
  dbpointer code symbol codewscope int32 timestamp int64 decimal128 maxkey minkey : BsonType

-- The byte that stands for a type.
unfoldable pub to_byte : BsonType → ℕ
to_byte eod = 0x00
to_byte double = 0x01
to_byte utf8 = 0x02
to_byte document = 0x03
to_byte array = 0x04
to_byte binary = 0x05
to_byte undefined = 0x06
to_byte oid = 0x07
to_byte bool = 0x08
to_byte date_time = 0x09
to_byte null = 0x0a
to_byte regex = 0x0b
to_byte dbpointer = 0x0c
to_byte code = 0x0d
to_byte symbol = 0x0e
to_byte codewscope = 0x0f
to_byte int32 = 0x10
to_byte timestamp = 0x11
to_byte int64 = 0x12
to_byte decimal128 = 0x13
to_byte maxkey = 0x7f
to_byte minkey = 0xff

-- The case that a `switch` on a type byte takes: `none` is `default`.
unfoldable pub of_byte : ℕ → Option BsonType
of_byte b =
    if b == 0x00
    then some eod
    else if b == 0x01
    then some double
    else if b == 0x02
    then some utf8
    else if b == 0x03
    then some document
    else if b == 0x04
    then some array
    else if b == 0x05
    then some binary
    else if b == 0x06
    then some undefined
    else if b == 0x07
    then some oid
    else if b == 0x08
    then some bool
    else if b == 0x09
    then some date_time
    else if b == 0x0a
    then some null
    else if b == 0x0b
    then some regex
    else if b == 0x0c
    then some dbpointer
    else if b == 0x0d
    then some code
    else if b == 0x0e
    then some symbol
    else if b == 0x0f
    then some codewscope
    else if b == 0x10
    then some int32
    else if b == 0x11
    then some timestamp
    else if b == 0x12
    then some int64
    else if b == 0x13
    then some decimal128
    else if b == 0x7f
    then some maxkey
    else if b == 0xff
    then some minkey
    else none
