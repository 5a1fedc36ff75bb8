-- ===== src/Iter/Next.antt =====
-- src/bson/bson-iter.c: `_bson_iter_next_internal` as a whole, and the ways to set up an iterator.
pub mod Safe
use libbson.Base.{
  ℕ, ◌+◌, ◌-◌, ◌^◌, Bool, true, false, ◌||◌, Option, none, some, List, get_elem?, ltb, leb, ◌==◌,
  not, if◌then◌else◌, ◌>>=◌,
}
use libbson.Base.Words.{add32, read_le32}
use libbson.Types.{
  BsonType, eod, double, utf8, document, array, binary, undefined, oid, bool, date_time, null,
  regex, dbpointer, code, symbol, codewscope, int32, timestamp, int64, decimal128, maxkey, minkey,
  of_byte, to_byte,
}
use libbson.Iter.{
  Iter, Filled, filled, invalid, unsupported, invalid_at, fill_string, fill_binary, fill_document,
  fill_bool, scan_nul, fill_regex, fill_dbpointer, fill_codewscope,
}

-- A field of `n` bytes.
abbrev pub fill_fixed : Iter → ℕ → ℕ → Filled
fill_fixed it o n = filled (record it { next_off = add32 o n }) o

-- A type without data: `iter->d1 = -1`.
abbrev pub fill_empty : Iter → ℕ → Filled
fill_empty it o = filled (record it { d1 = 2 ^ 32 - 1; next_off = o }) o

-- The `switch` at `fill_data_fields`. An unknown type falls through to the case of EOD.
unfoldable pub fill_type : BsonType → List ℕ → Iter → ℕ → Option Filled
fill_type date_time raw it o = some (fill_fixed it o 8)
fill_type double raw it o = some (fill_fixed it o 8)
fill_type int64 raw it o = some (fill_fixed it o 8)
fill_type timestamp raw it o = some (fill_fixed it o 8)
fill_type code raw it o = fill_string raw it o
fill_type symbol raw it o = fill_string raw it o
fill_type utf8 raw it o = fill_string raw it o
fill_type binary raw it o = fill_binary raw it o
fill_type array raw it o = fill_document raw it o
fill_type document raw it o = fill_document raw it o
fill_type oid raw it o = some (fill_fixed it o 12)
fill_type bool raw it o = fill_bool raw it o
fill_type regex raw it o = fill_regex raw it o
fill_type dbpointer raw it o = fill_dbpointer raw it o
fill_type codewscope raw it o = fill_codewscope raw it o
fill_type int32 raw it o = some (fill_fixed it o 4)
fill_type decimal128 raw it o = some (fill_fixed it o 16)
fill_type maxkey raw it o = some (fill_empty it o)
fill_type minkey raw it o = some (fill_empty it o)
fill_type null raw it o = some (fill_empty it o)
fill_type undefined raw it o = some (fill_empty it o)
fill_type eod raw it o = some (invalid_at it o)

unfoldable pub fill_byte : Option BsonType → List ℕ → Iter → ℕ → Option Filled
fill_byte none raw it o = some (unsupported (record it { err_off = o }))
fill_byte (some t) raw it o = fill_type t raw it o

-- What a call leaves: the iterator, its result, and the output parameters where it wrote them.
-- `key` is the offset of the key in `raw`, and `some none` is NULL.
pub record Next : Type 0 where
  pub iter : Iter
  pub decoded : Bool
  pub is_unsupported : Bool
  pub key : Option (Option ℕ)
  pub bson_type : Option ℕ

-- `mark_invalid`
abbrev pub mark_invalid : Iter → Iter
mark_invalid it = record it { raw = none; len = 0; next_off = 0 }

-- The test on `next_off` behind the `switch`, and the two ways out.
unfoldable pub finish : ℕ → Filled → Next
finish t (filled it o) =
    if leb it.len it.next_off
    then record {
      iter = mark_invalid (record it { err_off = o });
      decoded = false;
      is_unsupported = false;
      key = some (some it.key);
      bson_type = some t;
    }
    else record {
      iter = record it { err_off = 0 };
      decoded = true;
      is_unsupported = false;
      key = some (some it.key);
      bson_type = some t;
    }
finish t (invalid it) = record {
  iter = mark_invalid it;
  decoded = false;
  is_unsupported = false;
  key = some (some it.key);
  bson_type = some t;
}
finish t (unsupported it) = record {
  iter = mark_invalid it;
  decoded = false;
  is_unsupported = true;
  key = some (some it.key);
  bson_type = some t;
}

-- From `fill_data_fields` on, with the offset behind the key's NUL.
unfoldable pub fill_data_fields : List ℕ → Iter → ℕ → Option Next
fill_data_fields raw it o = do
  t ← get_elem? raw it.type
  f ← fill_byte (of_byte t) raw (record it { d1 = o }) o
  some (finish t f)

unfoldable pub next_field : List ℕ → Iter → Option Next
next_field raw it = do
  end ← scan_nul (it.len - add32 it.off 1) raw (add32 it.off 1)
  elim end [
    | none ↦ some (record {
      iter = mark_invalid it;
      decoded = false;
      is_unsupported = false;
      key = none;
      bson_type = none;
    })
    | some nul ↦ fill_data_fields raw it (add32 nul 1)
  ]

-- The iterator as a round starts on the field at `next_off`.
abbrev pub start_field : Iter → Iter
start_field it = record it {
  off = it.next_off;
  type = it.next_off;
  key = add32 it.next_off 1;
  d1 = 0;
  d2 = 0;
  d3 = 0;
  d4 = 0;
}

unfoldable pub next_from : Option (List ℕ) → Iter → Option Next
next_from none it = some (record {
  iter = it;
  decoded = false;
  is_unsupported = false;
  key = some none;
  bson_type = some (to_byte eod);
})
next_from (some raw) it = next_field raw (start_field it)

-- `_bson_iter_next_internal`
unfoldable pub next_internal : Iter → Option Next
next_internal it = next_from it.raw it

-- `bson_iter_next`
unfoldable pub next : Iter → Option (Iter × Bool)
next it = do n ← next_internal it; some (n.iter, n.decoded)

-- `memset (iter, 0, sizeof *iter)`
abbrev pub zeroed : Iter
zeroed = record {
  raw = none;
  len = 0;
  off = 0;
  type = 0;
  key = 0;
  d1 = 0;
  d2 = 0;
  d3 = 0;
  d4 = 0;
  next_off = 0;
  err_off = 0;
}

-- An iterator in front of the first field.
abbrev pub fresh : List ℕ → ℕ → Iter
fresh bytes length = record zeroed { raw = some bytes; len = length; next_off = 4 }

-- `bson_iter_init`, given the data and the length of the `bson_t`.
unfoldable pub init : List ℕ → ℕ → Iter × Bool
init bytes len = if ltb len 5 then (zeroed, false) else (fresh bytes len, true)

-- `bson_iter_init_from_data`
unfoldable pub init_from_data : List ℕ → ℕ → Option (Iter × Bool)
init_from_data bytes length =
    let checked = (do
      len_le ← read_le32 bytes 0
      let ends = (do
        b ← get_elem? bytes (length - 1)
        some (if b == 0 then (fresh bytes length, true) else (zeroed, false)))
      if len_le == length then ends else some (zeroed, false)) in
    if ltb length 5 || ltb (2 ^ 31 - 1) length then some (zeroed, false) else checked
