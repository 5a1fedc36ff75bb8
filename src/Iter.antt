-- ===== src/Iter.antt =====
-- src/bson/bson-iter.c: `bson_iter_t` and `_bson_iter_next_internal`.
-- `raw` is the memory that can be read from the pointer on, and is `none` for NULL. An operation
-- answers `none` where the code reads past it. The member `value`, a scratch area of
-- `bson_iter_value`, is left out. Offsets are `uint32_t` and wrap.
pub mod Next
pub mod Read
pub mod Element
pub mod Find
pub mod Overwrite
pub mod Visit
pub mod Fill
use libbson.Base.{
  ℕ, zero, suc, ◌+◌, ◌-◌, ◌^◌, Bool, true, false, ◌&&◌, ◌||◌, Option, none, some, List, get_elem?,
  ltb, leb, ◌==◌, not, if◌then◌else◌, ◌>>=◌,
}
use libbson.Base.Words.{add32, sub32, read_le32}

-- `bson_iter_t`
pub record Iter : Type 0 where
  pub raw : Option (List ℕ)
  pub len : ℕ
  pub off : ℕ
  pub type : ℕ
  pub key : ℕ
  pub d1 : ℕ
  pub d2 : ℕ
  pub d3 : ℕ
  pub d4 : ℕ
  pub next_off : ℕ
  pub err_off : ℕ

-- How the `switch` ends: with the offset `o` and the fields filled, or at `mark_invalid`.
pub data Filled : Type 0 where
  filled : Iter → ℕ → Filled
  invalid : Iter → Filled
  unsupported : Iter → Filled

-- `iter->err_off = at; goto mark_invalid;`
abbrev pub invalid_at : Iter → ℕ → Filled
invalid_at it at = invalid (record it { err_off = at })

-- BSON_TYPE_CODE, BSON_TYPE_SYMBOL, BSON_TYPE_UTF8
pub fill_string : List ℕ → Iter → ℕ → Option Filled
fill_string raw it o =
    let fits = (do
      l ← read_le32 raw it.d1
      let next = add32 (add32 o 4) l
      let it' = record it { d2 = add32 o 4; next_off = next }
      let last = (do
        b ← get_elem? raw (add32 o 4 + (l - 1))
        some (if b == 0 then filled it' o else invalid_at it' (sub32 (add32 (add32 o 4) l) 1)))
      if ltb (sub32 it.len (add32 o 4)) l
          then some (invalid_at (record it { d2 = add32 o 4 }) o)
          else if l == 0 || leb it.len next
          then some (invalid_at it' o)
          else last) in
    if leb it.len (add32 o 4) then some (invalid_at it o) else fits

-- The subtype 2 has a second length in the data. `binary_len + 4` is an `int32_t` sum, which is
-- taken modulo 2 ^ 32, as the comparison with the `uint32_t` does.
pub fill_binary_deprecated : List ℕ → Iter → ℕ → ℕ → Option Filled
fill_binary_deprecated raw it o l =
    let inner = (do
      binary_len ← read_le32 raw it.d3
      some (
          if add32 binary_len 4 == l
          then filled (record it { next_off = add32 (add32 o 5) l }) o
          else invalid_at it it.d3)) in
    if ltb l 4 then some (invalid_at it o) else inner

-- BSON_TYPE_BINARY
pub fill_binary : List ℕ → Iter → ℕ → Option Filled
fill_binary raw it o =
    let it' = record it { d2 = add32 o 4; d3 = add32 o 5 } in
    let fits = (do
      l ← read_le32 raw it.d1
      let sized = (do
        subtype ← get_elem? raw it'.d2
        let deprecated = fill_binary_deprecated raw it' o l
        if subtype == 2
            then deprecated
            else some (filled (record it' { next_off = add32 (add32 o 5) l }) o))
      if leb (sub32 it.len o) l then some (invalid_at it' o) else sized) in
    if leb (sub32 it.len 4) o then some (invalid_at it o) else fits

-- BSON_TYPE_ARRAY, BSON_TYPE_DOCUMENT
pub fill_document : List ℕ → Iter → ℕ → Option Filled
fill_document raw it o =
    let fits = (do
      l ← read_le32 raw it.d1
      some (
          if ltb it.len l || ltb (sub32 it.len o) l
          then invalid_at it o
          else filled (record it { next_off = add32 o l }) o)) in
    if leb (sub32 it.len 4) o then some (invalid_at it o) else fits

-- BSON_TYPE_BOOL
pub fill_bool : List ℕ → Iter → ℕ → Option Filled
fill_bool raw it o =
    let fits = (do
      val ← get_elem? raw it.d1
      some (
          if not (val == 0) && not (val == 1)
          then invalid_at it o
          else filled (record it { next_off = add32 o 1 }) o)) in
    if leb it.len it.d1 then some (invalid_at it o) else fits

-- `for (; o < len; o++) if (!data[o])`, over the `n` bytes left: where the NUL is, if there is one.
unfoldable pub scan_nul : ℕ → List ℕ → ℕ → Option (Option ℕ)
scan_nul zero raw o = some none
scan_nul (suc n) raw o = do
  b ← get_elem? raw o
  let rest = scan_nul n raw (o + 1)
  if b == 0 then some (some o) else rest

-- BSON_TYPE_REGEX: the pattern up to its NUL, then the options up to theirs.
pub fill_regex_options : List ℕ → Iter → ℕ → Option Filled
fill_regex_options raw it o = do
  end ← scan_nul (it.len - o) raw o
  elim end [
    | none ↦ some (invalid_at it it.next_off)
    | some eoo ↦ some (filled (record it { next_off = add32 eoo 1 }) eoo)
  ]

pub fill_regex : List ℕ → Iter → ℕ → Option Filled
fill_regex raw it o = do
  end ← scan_nul (it.len - o) raw o
  elim end [
    | none ↦ some (invalid_at it it.next_off)
    | some eor ↦ fill_regex_options raw (record it { d2 = add32 eor 1 }) (add32 eor 1)
  ]

-- BSON_TYPE_DBPOINTER
pub fill_dbpointer : List ℕ → Iter → ℕ → Option Filled
fill_dbpointer raw it o =
    let it' = record it { d2 = add32 o 4 } in
    let fits = (do
      l ← read_le32 raw it.d1
      let end = (do
        b ← get_elem? raw (o + l + 3)
        some (
            if b == 0
            then filled
                (record it' { d3 = add32 (add32 o 4) l; next_off = add32 (add32 (add32 o 4) l) 12 })
                o
            else invalid_at it' (add32 (add32 o l) 3)))
      if l == 0 || ltb (sub32 (sub32 it.len o) 4) l then some (invalid_at it' o) else end) in
    if leb (sub32 it.len 4) o then some (invalid_at it o) else fits

-- BSON_TYPE_CODEWSCOPE, from the test of the length of the code on.
pub fill_codewscope_scope : List ℕ → Iter → ℕ → Option Filled
fill_codewscope_scope raw it o = do
  l ← read_le32 raw it.d2
  let d4 = add32 (add32 (add32 o 4) 4) l
  let it' = record it { d4 = d4 }
  let scope = (do
    doclen ← read_le32 raw d4
    some (if add32 d4 doclen == it.next_off then filled it' o else invalid_at it' d4))
  if l == 0 || leb (sub32 (sub32 (sub32 it.len o) 4) 4) l
      then some (invalid_at it o)
      else if leb it.next_off (add32 d4 4)
      then some (invalid_at it (add32 o 4))
      else scope

pub fill_codewscope : List ℕ → Iter → ℕ → Option Filled
fill_codewscope raw it o =
    let it' = record it { d2 = add32 o 4; d3 = add32 o 8 } in
    let fits = (do
      l ← read_le32 raw it.d1
      let it'' = record it' { next_off = add32 o l }
      let code = fill_codewscope_scope raw it'' o
      if ltb l 14 || leb (sub32 it.len o) l
          then some (invalid_at it' o)
          else if leb it.len (add32 o l)
          then some (invalid_at it'' o)
          else code) in
    if ltb it.len 19 || leb (sub32 it.len 14) o then some (invalid_at it o) else fits
