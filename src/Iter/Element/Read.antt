-- ===== src/Iter/Element/Read.antt =====
-- `bson_iter_value` on an element of the format.
use libbson.Base.{
  ℕ, suc, ◌+◌, ◌-◌, ◌/◌, ◌*◌, ◌%◌, ◌^◌, ◌<◌, ◌≡◌, refl, sym, ap, ◌∙◌, Bool, true, false, not,
  Option, none, some, List, [], ◌∷◌, ◌++◌, get_elem?, length, drop, length-append, Bool-cases, inl,
  inr, arith, leb, ◌==◌, if◌then◌else◌, ◌>>=◌,
}
use mathlib.Core.Path.{subst}
use mathlib.Core.List.{append_assoc}
use libbson.Base.Words.{sub32, read_le32, le_bytes, length-le_bytes, le_bytes-words}
use libbson.Base.Memory.{
  Holds, Holds-room, Holds-front, Holds-behind, Holds-after, get_elem?_of, read_le32_of,
  read_le32_first, slice, slice_of, le_value-le_bytes, c_string, c_string-append,
}
use libbson.Types.{
  BsonType, to_byte, of_byte, double, utf8, document, array, binary, undefined, oid, bool,
  date_time, null, regex, dbpointer, code, symbol, codewscope, int32, timestamp, int64, decimal128,
  maxkey, minkey, eod,
}
use libbson.Format.{
  length-text, Value, v_double, v_utf8, v_document, v_array, v_binary, v_undefined, v_oid, v_bool,
  v_datetime, v_null, v_regex, v_dbpointer, v_code, v_symbol, v_codewscope, v_int32, v_timestamp,
  v_int64, v_decimal128, v_maxkey, v_minkey, value_type, encode, text, IsFit, IsDocument, NoNul,
}
use libbson.Iter.{Iter}
use libbson.Iter.Element.{Places}
use libbson.Iter.Element.Fill.{text_word, text_bytes}
use libbson.Iter.Read.{
  of_type, read_le, read_text, text_len, read_c_string, read_binary, binary_at, read_bool,
  read_double, read_int32, read_int64, read_decimal128, read_oid, read_regex, read_utf8, read_code,
  read_symbol, read_codewscope, codewscope_at, read_dbpointer, dbpointer_at, read_date_time,
  read_timestamp, read_document, document_at, read_array,
}
use libbson.Iter.Read.Value.{value_of}

pub of_byte-to_byte : (t : BsonType) → of_byte (to_byte t) ≡ some t
unfolding of_byte to_byte
of_byte-to_byte eod = refl
of_byte-to_byte double = refl
of_byte-to_byte utf8 = refl
of_byte-to_byte document = refl
of_byte-to_byte array = refl
of_byte-to_byte binary = refl
of_byte-to_byte undefined = refl
of_byte-to_byte oid = refl
of_byte-to_byte bool = refl
of_byte-to_byte date_time = refl
of_byte-to_byte null = refl
of_byte-to_byte regex = refl
of_byte-to_byte dbpointer = refl
of_byte-to_byte code = refl
of_byte-to_byte symbol = refl
of_byte-to_byte codewscope = refl
of_byte-to_byte int32 = refl
of_byte-to_byte timestamp = refl
of_byte-to_byte int64 = refl
of_byte-to_byte decimal128 = refl
of_byte-to_byte maxkey = refl
of_byte-to_byte minkey = refl

-- A read at an element of its own type.
of_type_self {ℓ} :
    {A : Type ℓ} (t : BsonType) (absent : A) (read : List ℕ → Option A) (it : Iter) (raw : List ℕ)
    (x : A)
    → it.raw ≡ some raw
    → get_elem? raw it.type ≡ some (to_byte t)
    → read raw ≡ some x
    → of_type t absent read it ≡ some x
of_type_self t absent read it raw x e et er = rw (e, et, same (to_byte t)) er
  where
    same : (n : ℕ) → (n == n) ≡ true
    same n = ground arith

-- Reads at an offset that is given in two ways.
module _ (raw : List ℕ) {at o : ℕ} (e : at ≡ o) where
  slice_at : (bytes : List ℕ) → Holds raw o bytes → slice raw at (length bytes) ≡ some bytes
  slice_at bytes h = ap (λ (k : ℕ). slice raw k (length bytes)) e ∙ slice_of bytes h

  word_at : (v : ℕ) → read_le32 raw o ≡ some v → read_le32 raw at ≡ some v
  word_at v h = ap (λ (k : ℕ). read_le32 raw k) e ∙ h

  byte_at : (x : ℕ) → get_elem? raw o ≡ some x → get_elem? raw at ≡ some x
  byte_at x h = ap (λ (k : ℕ). get_elem? raw k) e ∙ h

  read_le_at : (n v : ℕ) → v < 256 ^ n → Holds raw o (le_bytes n v) → read_le n at raw ≡ some v
  read_le_at n v small h =
      rw (ap (λ (k : ℕ). slice raw at k) (sym (length-le_bytes n v)) ∙ slice_at (le_bytes n v) h)
        (ap some (le_value-le_bytes n v small))

  pub read_c_string_at :
      (s more : List ℕ) → NoNul s → Holds raw o (s ++ (0 ∷ more)) → read_c_string at raw ≡ some s
  unfolding read_c_string
  read_c_string_at s more h holds = rw (string, inside) refl
    where
      string : c_string (drop at raw) ≡ s
      string =
          ap (λ (k : ℕ). c_string (drop k raw)) e
          ∙ ap c_string (holds.found ∙ append_assoc s (0 ∷ more) holds.back)
          ∙ c_string-append s (more ++ holds.back) h

      inside : leb (length raw) (at + length s) ≡ false
      inside = ground (arith, e, Holds-room (s ++ (0 ∷ more)) holds, length-append s (0 ∷ more))

module _ (raw : List ℕ) {o : ℕ} (it : Iter) (e : it.d1 ≡ o) (e' : it.d2 ≡ o + 4) where
  read_text_at : (s : List ℕ) → length s < 2 ^ 30 → Holds raw o (text s) → read_text it raw ≡ some s
  read_text_at s small h =
      rw (word_at raw e (suc (length s)) (text_word s small h), len)
        (slice_at raw e' s (Holds-front s (0 ∷ []) (text_bytes s h)))
    where
      len : text_len (suc (length s)) ≡ length s
      len = ground arith

module _ (raw : List ℕ) (it : Iter) (o : ℕ) (here : it.raw ≡ some raw) where
  abbrev Goal : Value → Type 0
  Goal v =
      Holds raw o (encode v)
      → Places v o it
      → get_elem? raw it.type ≡ some (to_byte (value_type v))
      → value_of (some (value_type v)) it ≡ some (some v)

  number :
      (t : BsonType) (n v : ℕ)
      → v < 256 ^ n
      → Holds raw o (le_bytes n v)
      → it.d1 ≡ o
      → get_elem? raw it.type ≡ some (to_byte t)
      → of_type t 0 (read_le n it.d1) it ≡ some v
  number t n v small h d1 et =
      of_type_self t 0 (read_le n it.d1) it raw v here et (read_le_at raw d1 n v small h)

  document_read :
      (d : List ℕ) → IsDocument d → Holds raw o d → it.d1 ≡ o → document_at it raw ≡ some d
  unfolding document_at
  document_read d (long, short, e, nul) h d1 =
      rw (word_at raw d1 (length d) (read_le32_first raw d o (length d) e (omega arith) h))
        (slice_at raw d1 d h)

  -- An accessor that answers NULL at other types.
  given_at {ℓ} :
      {A : Type ℓ} (t : BsonType) (read : List ℕ → Option A) (x : A)
      → read raw ≡ some x
      → get_elem? raw it.type ≡ some (to_byte t)
      → of_type t none (λ bytes. do r ← read bytes; some (some r)) it ≡ some (some x)
  given_at t read x e et =
      of_type_self t none (λ bytes. do r ← read bytes; some (some r)) it raw (some x) here et
        (rw e refl)

  binary_read_old : (bytes : List ℕ) → length bytes < 2 ^ 30 → Goal (v_binary 2 bytes)
  unfolding encode value_type value_of read_binary binary_at
  binary_read_old bytes fit h p et = rw (given_at binary (binary_at it) (2, bytes) found et) refl
    where
      behind : Holds raw (o + 4) (2 ∷ (le_bytes 4 (length bytes) ++ bytes))
      behind = Holds-after 4 (length bytes + 4) (2 ∷ (le_bytes 4 (length bytes) ++ bytes)) h

      inner : Holds raw (o + 4 + 1 + 4) bytes
      inner =
          Holds-after 4 (length bytes) bytes
            (Holds-behind (2 ∷ []) (le_bytes 4 (length bytes) ++ bytes) behind)

      less : sub32 (length bytes + 4) 4 ≡ length bytes
      less = omega arith

      there : it.d3 + 4 ≡ o + 4 + 1 + 4
      there = omega (arith, p.2)

      found : binary_at it raw ≡ some (2, bytes)
      found =
          rw
            (
              byte_at raw p.1 2 (get_elem?_of 2 (le_bytes 4 (length bytes) ++ bytes) behind),
              word_at raw p.0 (length bytes + 4) (
                  read_le32_of (length bytes + 4) (omega arith) (
                    Holds-front (le_bytes 4 (length bytes + 4))
                      (2 ∷ (le_bytes 4 (length bytes) ++ bytes)) h)),
              less,
              slice_at raw there bytes inner,
            )
            refl

  binary_read_new :
      (subtype : ℕ) (bytes : List ℕ)
      → length bytes < 2 ^ 30
      → (subtype == 2) ≡ false
      → Holds raw o (le_bytes 4 (length bytes) ++ (subtype ∷ bytes))
      → Places (v_binary subtype bytes) o it
      → get_elem? raw it.type ≡ some (to_byte binary)
      → value_of (some binary) it ≡ some (some (v_binary subtype bytes))
  unfolding value_of read_binary binary_at
  binary_read_new subtype bytes fit new h p et =
      rw (given_at binary (binary_at it) (subtype, bytes) found et) refl
    where
      behind : Holds raw (o + 4) (subtype ∷ bytes)
      behind = Holds-after 4 (length bytes) (subtype ∷ bytes) h

      there : it.d3 ≡ o + 4 + 1
      there = omega (arith, p.2)

      found : binary_at it raw ≡ some (subtype, bytes)
      found =
          rw
            (
              byte_at raw p.1 subtype (get_elem?_of subtype bytes behind),
              word_at raw p.0 (length bytes) (
                  read_le32_of (length bytes) (omega arith)
                    (Holds-front (le_bytes 4 (length bytes)) (subtype ∷ bytes) h)),
              slice_at raw there bytes (Holds-behind (subtype ∷ []) bytes behind),
              new,
            )
            refl

  binary_read :
      (subtype : ℕ) (bytes : List ℕ)
      → IsFit (v_binary subtype bytes)
      → Goal (v_binary subtype bytes)
  unfolding encode value_type
  binary_read subtype bytes fit h p et = elim (Bool-cases (subtype == 2)) [
    | inl old ↦
        let e : subtype ≡ 2 = ground arith in rw e (binary_read_old bytes fit.1 (rw e at h) p et)
    | inr new ↦ binary_read_new subtype bytes fit.1 new (rw new at h) p et
  ]

  regex_read : (r options : List ℕ) → IsFit (v_regex r options) → Goal (v_regex r options)
  unfolding encode value_type value_of read_regex
  regex_read r options fit h p et =
      rw
        (of_type_self {A = Option (List ℕ × List ℕ)} regex none
          (λ bytes. do
            r' ← read_c_string it.d1 bytes
            options' ← read_c_string it.d2 bytes
            some (some (r', options')))
          it raw (some (r, options)) here et
          (rw
            (
              read_c_string_at raw p.0 r (options ++ (0 ∷ [])) fit.0 h,
              read_c_string_at raw p.1 options [] fit.1 behind,
            )
            refl))
        refl
    where
      behind : Holds raw (o + length r + 1) (options ++ (0 ∷ []))
      behind =
          Holds-behind (0 ∷ []) (options ++ (0 ∷ [])) (Holds-behind r (0 ∷ (options ++ (0 ∷ []))) h)

  dbpointer_read :
      (collection id : List ℕ)
      → IsFit (v_dbpointer collection id)
      → Goal (v_dbpointer collection id)
  unfolding encode value_type value_of read_dbpointer dbpointer_at
  dbpointer_read collection id fit h p et =
      rw (given_at dbpointer (dbpointer_at it) (collection, id) found et) refl
    where
      first : Holds raw o (text collection)
      first = Holds-front (text collection) id h

      twelve : slice raw it.d3 12 ≡ some id
      twelve =
          ap (λ (n : ℕ). slice raw it.d3 n) (sym fit.1)
          ∙ slice_at raw p.2 id (Holds-behind (text collection) id h)

      found : dbpointer_at it raw ≡ some (collection, id)
      found =
          rw
            (
              word_at raw p.0 (suc (length collection)) (text_word collection fit.0 first),
              less,
              slice_at raw p.1 collection
                  (Holds-front collection (0 ∷ []) (text_bytes collection first)),
              twelve,
            )
            refl
        where
          less : suc (length collection) - 1 ≡ length collection
          less = omega arith

  codewscope_read :
      (js scope : List ℕ) → IsFit (v_codewscope js scope) → Goal (v_codewscope js scope)
  unfolding encode value_type value_of read_codewscope
  codewscope_read js scope fit h p et =
      rw (given_at codewscope (codewscope_at it) (js, scope) found et) refl
    where
      total : ℕ
      total = length js + length scope + 9

      behind : Holds raw (o + 4) (text js ++ scope)
      behind = Holds-after 4 (length js + length scope + 9) (text js ++ scope) h

      code_text : Holds raw (o + 4) (text js)
      code_text = Holds-front (text js) scope behind

      there : o + length js + 9 ≡ o + 4 + length (text js)
      there = omega (arith, length-text js)

      last : Holds raw (o + length js + 9) scope
      last = rw there (Holds-behind (text js) scope behind)

      chars : o + 8 ≡ o + 4 + 4
      chars = omega arith

      less : suc (length js) - 1 ≡ length js
      less = omega arith

      positive : (suc (length js) == 0) ≡ false
      positive = ground arith

      found : codewscope_at it raw ≡ some (js, scope)
      found =
          rw
            (
              word_at raw p.1 (suc (length js)) (text_word js fit.1 code_text),
              word_at raw p.3 (length scope) (
                  read_le32_first raw scope (o + length js + 9) (length scope) fit.2.2
                    (omega (arith, fit.2.0)) last),
              less,
              slice_at raw (p.2 ∙ chars) js (Holds-front js (0 ∷ []) (text_bytes js code_text)),
              slice_at raw p.3 scope last,
              positive,
            )
            refl

  -- Each accessor at an element of its type.
  pub value_of-encode : (v : Value) → IsFit v → Goal v
  unfolding encode value_type value_of read_double read_utf8 read_document read_array read_oid
      read_bool read_date_time read_code read_symbol read_int32 read_timestamp read_int64
      read_decimal128
  value_of-encode (v_double v) fit h p et = rw (number double 8 v fit h p et) refl
  value_of-encode (v_utf8 s) fit h p et =
      rw (given_at utf8 (read_text it) s (read_text_at raw it p.0 p.1 s fit h) et) refl
  value_of-encode (v_document d) fit h p et =
      rw (given_at document (document_at it) d (document_read d fit h p) et) refl
  value_of-encode (v_array d) fit h p et =
      rw (given_at array (document_at it) d (document_read d fit h p) et) refl
  value_of-encode (v_binary subtype bytes) fit h p et = binary_read subtype bytes fit h p et
  value_of-encode v_undefined fit h p et = refl
  value_of-encode (v_oid id) fit h p et =
      rw
        (given_at oid (λ bytes. slice bytes it.d1 12) id
          (ap (λ (n : ℕ). slice raw it.d1 n) (sym fit) ∙ slice_at raw p id h) et)
        refl
  value_of-encode (v_bool b) fit h p et =
      rw
        (of_type_self bool false (λ bytes. do x ← get_elem? bytes it.d1; some (not (x == 0))) it raw
          b here et
          (rw (byte_at raw p (if b then 1 else 0) (get_elem?_of (if b then 1 else 0) [] h))
            (flag b)))
        refl
    where
      flag : (c : Bool) → some (not ((if c then 1 else 0) == 0)) ≡ some c
      flag true = refl
      flag false = refl
  value_of-encode (v_datetime v) fit h p et = rw (number date_time 8 v fit h p et) refl
  value_of-encode v_null fit h p et = refl
  value_of-encode (v_regex r options) fit h p et = regex_read r options fit h p et
  value_of-encode (v_dbpointer collection id) fit h p et = dbpointer_read collection id fit h p et
  value_of-encode (v_code js) fit h p et =
      rw (given_at code (read_text it) js (read_text_at raw it p.0 p.1 js fit.1 h) et) refl
  value_of-encode (v_symbol s) fit h p et =
      rw (given_at symbol (read_text it) s (read_text_at raw it p.0 p.1 s fit h) et) refl
  value_of-encode (v_codewscope js scope) fit h p et = codewscope_read js scope fit h p et
  value_of-encode (v_int32 v) fit h p et = rw (number int32 4 v fit h p et) refl
  value_of-encode (v_timestamp time increment) fit h p et =
      rw
        (of_type_self {A = ℕ × ℕ} timestamp (0, 0)
          (λ bytes. do v ← read_le 8 it.d1 bytes; some (v / 2 ^ 32 % 2 ^ 32, v % 2 ^ 32)) it raw
          (time, increment) here et
          (rw
            (read_le_at raw p 8 (time * 2 ^ 32 + increment) (omega (arith, fit)) (
              subst (λ (bs : List ℕ). Holds raw o bs) (sym (le_bytes-words time increment fit.1))
                h))
            (λ i. some (high i, low i))))
        refl
    where
      high : (time * 2 ^ 32 + increment) / 2 ^ 32 % 2 ^ 32 ≡ time
      high = omega (arith, fit)

      low : (time * 2 ^ 32 + increment) % 2 ^ 32 ≡ increment
      low = omega (arith, fit)
  value_of-encode (v_int64 v) fit h p et = rw (number int64 8 v fit h p et) refl
  value_of-encode (v_decimal128 low high) fit h p et =
      rw
        (of_type_self {A = Option (ℕ × ℕ)} decimal128 none
          (λ bytes. do
            low' ← read_le 8 it.d1 bytes
            high' ← read_le 8 (it.d1 + 8) bytes
            some (some (low', high')))
          it raw (some (low, high)) here et
          (rw
            (
              read_le_at raw p 8 low fit.0 (Holds-front (le_bytes 8 low) (le_bytes 8 high) h),
              read_le_at raw (ap (λ (k : ℕ). k + 8) p) 8 high fit.1
                  (Holds-after 8 low (le_bytes 8 high) h),
            )
            refl))
        refl
  value_of-encode v_maxkey fit h p et = refl
  value_of-encode v_minkey fit h p et = refl
