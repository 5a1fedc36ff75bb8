-- ===== src/Bson/Append/Elements.antt =====
-- src/bson/bson.c: the elements that the functions of Append add to an open document.
use libbson.Base.{
  ◌*◌, bit_or, ℕ, suc, ◌+◌, ◌%◌, ◌^◌, ◌≤◌, ◌<◌, ◌≡◌, ◌⊎◌, inl, inr, refl, sym, ap, ◌∙◌, Bool, true,
  false, none, some, List, [], ◌∷◌, ◌++◌, length, length-append, arith, ◌==◌, if◌then◌else◌,
  Bool-cases,
}
use mathlib.Core.Path.{ap₂}
use mathlib.Core.List.{append_assoc, append-nil}
use libbson.Base.Bits.{bit_or_fields}
use libbson.Base.Words.{le_bytes-words, length-le_bytes, le_bytes, u32, add32}
use libbson.Format.{length-text, element, text, binary_data}
use libbson.Types.{
  undefined, timestamp, maxkey, minkey, BsonType, double, utf8, document, array, binary, oid, bool,
  date_time, null, dbpointer, code, symbol, codewscope, int32, int64, decimal128,
}
use libbson.Run.{Run, done}
use libbson.Bson.{Allocator, Bson, append}
use libbson.Bson.Grow.{Layout, IsOpen}
use libbson.Bson.Content.{concat, Appended, Answered, append-Answered}
use libbson.Bson.Append.{
  append_timestamp, append_undefined, append_maxkey, append_minkey, keyed, keyed_size, contents,
  text_pairs, append_double, append_int32, append_int64, append_date_time, append_decimal128,
  append_bool, append_oid, append_null, append_utf8, append_symbol, append_code, append_dbpointer,
  append_binary, append_document, append_array, append_code_with_scope,
}

module _ (m : Allocator) (b : Bson) (front body rest key : List ℕ) where
  -- The run adds the bytes to the document, or leaves the document as it was.
  abbrev pub Appends : Run (Bson × Bool) → List ℕ → Type 0
  Appends run more =
      ((b' : Bson) × (run ≡ done (b', true)) × Appended b b' front body more)
      ⊎ (run ≡ done (b, false))

  keyed-Appends :
      (t : BsonType) (size : ℕ) (pairs : List (List ℕ)) (bytes : List ℕ)
      → Layout b front body rest
      → IsOpen b
      → concat pairs ≡ bytes
      → size ≡ length bytes
      → length key + length bytes + 2 < 2 ^ 31
      → Appends (append m b (keyed_size key size) (keyed t key pairs)) (element t key bytes)
  keyed-Appends t size pairs bytes l o e same h = rw⁻¹ e (
      rw sizes (
        added (
          append-Answered m b front body rest (keyed t key pairs) l o
            (omega (arith, total, ap length e)) refl)))
    where
      added :
          {run : Run (Bson × Bool)} {more : List ℕ}
          → Answered m b run front body more
          → Appends run more
      added (inl (b', e, a, small)) = inl (b', e, a)
      added (inr (e, refused)) = inr e

      total : length (concat (keyed t key pairs)) ≡ 2 + length key + length (concat pairs)
      total = omega (arith, length-append key (0 ∷ concat pairs))

      sizes : keyed_size key size ≡ length (concat (keyed t key pairs))
      sizes = omega (arith, total, same, ap length e)

  one : (x : List ℕ) → concat (x ∷ []) ≡ x
  one x = append-nil x

  -- On an open document that lies in its memory, and for a key of fewer than 2 ^ 31 - 18 bytes, the
  -- appenders of doubles, integers, dates, decimals, Booleans, object ids of twelve bytes and nulls
  -- either add one element, whose data is the little-endian bytes of the value (for a null, none),
  -- or leave the document as it was.
  pub append_scalars :
      (value value' : ℕ) (id : List ℕ) (flag : Bool)
      → Layout b front body rest
      → IsOpen b
      → length id ≡ 12
      → length key + 18 < 2 ^ 31
      → Appends (append_double m b key value) (element double key (le_bytes 8 value))
        × Appends (append_int32 m b key value) (element int32 key (le_bytes 4 value))
        × Appends (append_int64 m b key value) (element int64 key (le_bytes 8 value))
        × Appends (append_date_time m b key value) (element date_time key (le_bytes 8 value))
        × Appends
            (append_decimal128 m b key value value')
            (element decimal128 key (le_bytes 8 value ++ le_bytes 8 value'))
        × Appends (append_bool m b key flag) (element bool key ((if flag then 1 else 0) ∷ []))
        × Appends (append_oid m b key id) (element oid key id)
        × Appends (append_null m b key) (element null key [])
  unfolding append_double append_int32 append_int64 append_date_time append_decimal128 append_bool
      append_oid append_null
  append_scalars value value' id flag l o hid hk = (
    fixed double 8 (le_bytes 8 value) (sym (length-le_bytes 8 value)) (omega arith),
    fixed int32 4 (le_bytes 4 value) (sym (length-le_bytes 4 value)) (omega arith),
    fixed int64 8 (le_bytes 8 value) (sym (length-le_bytes 8 value)) (omega arith),
    fixed date_time 8 (le_bytes 8 value) (sym (length-le_bytes 8 value)) (omega arith),
    fixed decimal128 16 (le_bytes 8 value ++ le_bytes 8 value')
        (omega (
          arith,
          length-append (le_bytes 8 value) (le_bytes 8 value'),
          length-le_bytes 8 value,
          length-le_bytes 8 value',
        ))
        (omega arith),
    fixed bool 1 ((if flag then 1 else 0) ∷ []) refl (omega arith),
    fixed oid 12 id (sym hid) (omega arith),
    keyed-Appends null 0 [] [] l o refl refl (omega arith),
  )
    where
      fixed :
          (t : BsonType) (size : ℕ) (bytes : List ℕ)
          → size ≡ length bytes
          → size ≤ 16
          → Appends
              (append m b (keyed_size key size) (keyed t key (bytes ∷ [])))
              (element t key bytes)
      fixed t size bytes e h =
          keyed-Appends t size (bytes ∷ []) bytes l o (one bytes) e (omega arith)

  -- On an open document that lies in its memory, and for sizes whose sum is below 2 ^ 31, the
  -- appenders of strings either add one element with the size, the bytes and a NUL (and the object
  -- id of twelve bytes, for a pointer), or leave the document as it was; no string at all adds a
  -- null.
  pub append_texts :
      (value id : List ℕ)
      → Layout b front body rest
      → IsOpen b
      → length id ≡ 12
      → length key + length value + 19 < 2 ^ 31
      → Appends (append_utf8 m b key (some value)) (element utf8 key (text value))
        × Appends (append_symbol m b key (some value)) (element symbol key (text value))
        × Appends (append_code m b key value) (element code key (text value))
        × Appends (append_dbpointer m b key value id) (element dbpointer key (text value ++ id))
        × Appends (append_utf8 m b key none) (element null key [])
        × Appends (append_symbol m b key none) (element null key [])
  unfolding append_utf8 append_symbol append_code append_dbpointer append_null text_pairs
  append_texts value id l o hid h = (
    keyed-Appends utf8 (4 + length value + 1)
        (le_bytes 4 (add32 (length value) 1) ∷ value ∷ (0 ∷ []) ∷ []) (text value) l o
        (ap (λ (n : ℕ). le_bytes 4 n ++ (value ++ (0 ∷ []))) size)
        (omega (arith, length-text value)) (omega (arith, length-text value)),
    keyed-Appends symbol (4 + length value + 1)
        (le_bytes 4 (add32 (length value) 1) ∷ value ∷ (0 ∷ []) ∷ []) (text value) l o
        (ap (λ (n : ℕ). le_bytes 4 n ++ (value ++ (0 ∷ []))) size)
        (omega (arith, length-text value)) (omega (arith, length-text value)),
    keyed-Appends code (4 + u32 (length value + 1))
        (le_bytes 4 (u32 (length value + 1)) ∷ (value ++ (0 ∷ [])) ∷ []) (text value) l o
        (ap₂ (λ (n : ℕ) x. le_bytes 4 n ++ x) size (append-nil (value ++ (0 ∷ []))))
        (omega (arith, length-text value)) (omega (arith, length-text value)),
    keyed-Appends dbpointer (4 + u32 (length value + 1) + 12)
        (le_bytes 4 (u32 (length value + 1)) ∷ (value ++ (0 ∷ [])) ∷ id ∷ []) (text value ++ id) l o
        (ap₂ (λ (n : ℕ) x. le_bytes 4 n ++ ((value ++ (0 ∷ [])) ++ x)) size (append-nil id)
          ∙ sym (append_assoc (le_bytes 4 (suc (length value))) (value ++ (0 ∷ [])) id))
        (omega (arith, length-text value, length-append (text value) id))
        (omega (arith, length-text value, length-append (text value) id)),
    keyed-Appends null 0 [] [] l o refl refl (omega arith),
    keyed-Appends null 0 [] [] l o refl refl (omega arith),
  )
    where
      size : add32 (length value) 1 ≡ suc (length value)
      size = omega arith

  -- On an open document that lies in its memory, and for sizes whose sum is below 2 ^ 31,
  -- `bson_append_binary` either adds one element with the data of its subtype, which is a byte, or
  -- leaves the document as it was.
  pub append_binary-Appends :
      (subtype : ℕ) (bytes : List ℕ)
      → Layout b front body rest
      → IsOpen b
      → subtype < 256
      → length key + length bytes + 11 < 2 ^ 31
      → Appends
          (append_binary m b key subtype bytes)
          (element binary key (binary_data subtype bytes))
  unfolding append_binary
  append_binary-Appends subtype bytes l o hs h = elim (Bool-cases (subtype == 2)) [
    | inl old ↦ rw old (
        keyed-Appends binary (4 + 1 + 4 + length bytes)
          (le_bytes 4 (add32 (length bytes) 4)
            ∷ ((subtype % 256) ∷ [])
            ∷ le_bytes 4 (length bytes)
            ∷ bytes
            ∷ [])
          (le_bytes 4 (length bytes + 4) ++ (subtype ∷ (le_bytes 4 (length bytes) ++ bytes))) l o
          (λ i. le_bytes 4 (size i) ++ (byte i ∷ (le_bytes 4 (length bytes) ++ append-nil bytes i)))
          (omega (
            arith,
            length-append (le_bytes 4 (length bytes + 4))
                (subtype ∷ (le_bytes 4 (length bytes) ++ bytes)),
            length-append (le_bytes 4 (length bytes)) bytes,
            length-le_bytes 4 (length bytes),
            length-le_bytes 4 (length bytes + 4),
          ))
          (omega (
            arith,
            length-append (le_bytes 4 (length bytes + 4))
                (subtype ∷ (le_bytes 4 (length bytes) ++ bytes)),
            length-append (le_bytes 4 (length bytes)) bytes,
            length-le_bytes 4 (length bytes),
            length-le_bytes 4 (length bytes + 4),
          )))
    | inr new ↦ rw new (
        keyed-Appends binary (4 + 1 + length bytes)
          (le_bytes 4 (length bytes) ∷ ((subtype % 256) ∷ []) ∷ bytes ∷ [])
          (le_bytes 4 (length bytes) ++ (subtype ∷ bytes)) l o
          (λ i. le_bytes 4 (length bytes) ++ (byte i ∷ append-nil bytes i))
          (omega (
            arith,
            length-append (le_bytes 4 (length bytes)) (subtype ∷ bytes),
            length-le_bytes 4 (length bytes),
          ))
          (omega (
            arith,
            length-append (le_bytes 4 (length bytes)) (subtype ∷ bytes),
            length-le_bytes 4 (length bytes),
          )))
  ]
    where
      byte : subtype % 256 ≡ subtype
      byte = omega arith

      size : add32 (length bytes) 4 ≡ length bytes + 4
      size = omega arith

  -- On an open document that lies in its memory, and for sizes whose sum is below 2 ^ 31, the
  -- appenders of documents either add one element that holds the bytes of the document given, or
  -- leave the document as it was; the element of code with a scope has its own size in front, then
  -- the code and the scope, and is an element of code where there is no scope.
  pub append_documents :
      (value : Bson) (javascript : List ℕ)
      → Layout b front body rest
      → IsOpen b
      → length (contents value) ≡ value.len
      → length key + length javascript + value.len + 11 < 2 ^ 31
      → Appends (append_document m b key value) (element document key (contents value))
        × Appends (append_array m b key value) (element array key (contents value))
        × Appends (append_code_with_scope m b key javascript (some value)) (
            element codewscope key (
              le_bytes 4 (length javascript + value.len + 9)
              ++ (text javascript ++ contents value)))
        × Appends
            (append_code_with_scope m b key javascript none)
            (element code key (text javascript))
  unfolding append_document append_array append_code_with_scope append_code
  append_documents value javascript l o e h = (
    keyed-Appends document value.len (contents value ∷ []) (contents value) l o
        (one (contents value)) (sym e) (omega (arith, e)),
    keyed-Appends array value.len (contents value ∷ []) (contents value) l o (one (contents value))
        (sym e) (omega (arith, e)),
    keyed-Appends codewscope (4 + 4 + u32 (length javascript + 1) + value.len)
        (le_bytes 4 (u32 (4 + 4 + u32 (length javascript + 1) + value.len))
          ∷ le_bytes 4 (u32 (length javascript + 1))
          ∷ (javascript ++ (0 ∷ []))
          ∷ contents value
          ∷ [])
        (le_bytes 4 (length javascript + value.len + 9) ++ (text javascript ++ contents value)) l o
        (λ i. le_bytes 4 (whole i) ++ scoped i) (omega (arith, size, e)) (omega (arith, size, e)),
    keyed-Appends code (4 + u32 (length javascript + 1))
        (le_bytes 4 (u32 (length javascript + 1)) ∷ (javascript ++ (0 ∷ [])) ∷ []) (text javascript)
        l o (λ i. le_bytes 4 (js i) ++ append-nil (javascript ++ (0 ∷ [])) i)
        (omega (arith, length-text javascript)) (omega (arith, length-text javascript)),
  )
    where
      js : u32 (length javascript + 1) ≡ suc (length javascript)
      js = omega arith

      whole :
          u32 (4 + 4 + u32 (length javascript + 1) + value.len) ≡ length javascript + value.len + 9
      whole = omega arith

      scoped :
          le_bytes 4 (u32 (length javascript + 1))
            ++ ((javascript ++ (0 ∷ [])) ++ (contents value ++ []))
          ≡ text javascript ++ contents value
      scoped =
          (λ i. le_bytes 4 (js i) ++ ((javascript ++ (0 ∷ [])) ++ append-nil (contents value) i))
          ∙ sym (
              append_assoc (le_bytes 4 (suc (length javascript))) (javascript ++ (0 ∷ []))
                (contents value))

      size :
          length
            (le_bytes 4 (length javascript + value.len + 9) ++ (text javascript ++ contents value))
          ≡ length javascript + length (contents value) + 9
      size = omega (
        arith,
        length-append (le_bytes 4 (length javascript + value.len + 9))
            (text javascript ++ contents value),
        length-append (text javascript) (contents value),
        length-text javascript,
        length-le_bytes 4 (length javascript + value.len + 9),
      )

  -- On an open document that lies in its memory, and for a key of fewer than 2 ^ 31 - 18 bytes, the
  -- appender of timestamps either adds one element, whose data is the increment and the time, or
  -- leaves the document as it was; so do those of the types without data.
  pub append_markers :
      (time increment : ℕ)
      → Layout b front body rest
      → IsOpen b
      → increment < 2 ^ 32
      → length key + 18 < 2 ^ 31
      → Appends
          (append_timestamp m b key time increment)
          (element timestamp key (le_bytes 4 increment ++ le_bytes 4 time))
        × Appends (append_undefined m b key) (element undefined key [])
        × Appends (append_maxkey m b key) (element maxkey key [])
        × Appends (append_minkey m b key) (element minkey key [])
  unfolding append_timestamp append_undefined append_maxkey append_minkey
  append_markers time increment l o hi hk = (
    keyed-Appends timestamp 8 (le_bytes 8 (bit_or (time * 2 ^ 32) increment) ∷ [])
        (le_bytes 4 increment ++ le_bytes 4 time) l o
        (one (le_bytes 8 (bit_or (time * 2 ^ 32) increment))
          ∙ ap (le_bytes 8) (bit_or_fields 32 time increment hi)
          ∙ le_bytes-words time increment hi)
        (omega (arith, size)) (omega (arith, size)),
    keyed-Appends undefined 0 [] [] l o refl refl (omega arith),
    keyed-Appends maxkey 0 [] [] l o refl refl (omega arith),
    keyed-Appends minkey 0 [] [] l o refl refl (omega arith),
  )
    where
      size : length (le_bytes 4 increment ++ le_bytes 4 time) ≡ 8
      size = omega (
        arith,
        length-append (le_bytes 4 increment) (le_bytes 4 time),
        length-le_bytes 4 increment,
        length-le_bytes 4 time,
      )
