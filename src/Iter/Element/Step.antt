-- ===== src/Iter/Element/Step.antt =====
-- The `switch` of `_bson_iter_next_internal` on the data of a value, type by type.
use libbson.Base.{
  ℕ, ◌+◌, ◌-◌, ◌^◌, ◌≤◌, ◌<◌, ◌≡◌, ◌≢◌, refl, ap, Bool, false, some, List, [], ◌∷◌, ◌++◌, length,
  length-append, Bool-cases, inl, inr, arith, ◌==◌, if◌then◌else◌,
}
use libbson.Base.Words.{add32, read_le32, le_bytes, length-le_bytes}
use libbson.Base.Memory.{
  Holds, Holds-front, Holds-behind, Holds-after, get_elem?_of, read_le32_of, read_le32_first,
}
use libbson.Format.{
  length-text, Value, v_double, v_utf8, v_document, v_array, v_binary, v_undefined, v_oid, v_bool,
  v_datetime, v_null, v_regex, v_dbpointer, v_code, v_symbol, v_codewscope, v_int32, v_timestamp,
  v_int64, v_decimal128, v_maxkey, v_minkey, value_type, encode, text, binary_data, IsFit,
  IsDocument,
}
use libbson.Iter.{Iter, filled}
use libbson.Iter.Next.{fill_type}
use libbson.Iter.Fill.{Extends}
use libbson.Iter.Element.{Places}
use libbson.Iter.Element.Fill.{
  fill_string-text, fill_document_self, fill_bool-byte, fill_dbpointer-text, fill_codewscope-text,
  fill_binary-data, fill_binary-old, fill_regex-strings,
}

-- The case of the value's type accepts its data, and goes on behind it.
abbrev pub Accepted : Value → List ℕ → Iter → ℕ → Type 0
Accepted v raw it o =
    (it' : Iter) × (o' : ℕ) × (fill_type (value_type v) raw it o ≡ some (filled it' o'))
    × Extends it it'
    × (it'.next_off ≡ o + length (encode v))
    × Places v o it'

abbrev with_offsets : Iter → ℕ → ℕ → ℕ → ℕ → ℕ → Iter
with_offsets it d1 d2 d3 d4 next_off = record it {
  d1 = d1;
  d2 = d2;
  d3 = d3;
  d4 = d4;
  next_off = next_off;
}

with_offsets-Extends :
    (it : Iter) (d1 d2 d3 d4 next_off : ℕ) → Extends it (with_offsets it d1 d2 d3 d4 next_off)
with_offsets-Extends it d1 d2 d3 d4 next_off = record {
  raw = refl;
  len = refl;
  off = refl;
  type = refl;
  key = refl;
}

module _ (raw : List ℕ) (it : Iter) (o : ℕ) where
  -- A case that is known to accept.
  accepted :
      (v : Value) (d1 d2 d3 d4 next_off o' : ℕ)
      → fill_type (value_type v) raw it o ≡ some (filled (with_offsets it d1 d2 d3 d4 next_off) o')
      → next_off ≡ o + length (encode v)
      → Places v o (with_offsets it d1 d2 d3 d4 next_off)
      → Accepted v raw it o
  accepted v d1 d2 d3 d4 next_off o' e n p =
      (_, _, e, with_offsets-Extends it d1 d2 d3 d4 next_off, n, p)

  module _ (start : it.d1 ≡ o) (small : it.len < 2 ^ 31) (header : 4 ≤ o) where
    abbrev Goal : Value → Type 0
    Goal v = Holds raw o (encode v) → o + length (encode v) < it.len → Accepted v raw it o

    fixed_offset : (n : ℕ) → o + n < it.len → add32 o n ≡ o + n
    fixed_offset n h = omega arith

    -- What lies behind a length word, and behind a byte.
    behind_word : (v : ℕ) (xs : List ℕ) → Holds raw o (le_bytes 4 v ++ xs) → Holds raw (o + 4) xs
    behind_word v xs h = Holds-after 4 v xs h

    next_byte : (i j x : ℕ) (xs : List ℕ) → j ≡ i + 1 → Holds raw i (x ∷ xs) → Holds raw j xs
    next_byte i j x xs e h = rw e (Holds-behind (x ∷ []) xs h)

    -- A string, and what may lie behind it.
    accepted_string :
        (s : List ℕ) → length s < 2 ^ 30 → Goal (v_utf8 s) × Goal (v_code s) × Goal (v_symbol s)
    unfolding fill_type encode value_type
    accepted_string s fit = (
      λ h inside.
          accepted (v_utf8 s) it.d1 (o + 4) it.d3 it.d4 (o + length (text s)) o
            (fill_string-text raw it o start small s fit h inside) refl (start, refl),
      λ h inside.
          accepted (v_code s) it.d1 (o + 4) it.d3 it.d4 (o + length (text s)) o
            (fill_string-text raw it o start small s fit h inside) refl (start, refl),
      λ h inside.
          accepted (v_symbol s) it.d1 (o + 4) it.d3 it.d4 (o + length (text s)) o
            (fill_string-text raw it o start small s fit h inside) refl (start, refl),
    )

    accepted_document : (d : List ℕ) → IsDocument d → Goal (v_document d) × Goal (v_array d)
    unfolding fill_type encode value_type
    accepted_document d fit = (
      λ h inside.
          accepted (v_document d) it.d1 it.d2 it.d3 it.d4 (o + length d) o
            (fill_document_self raw it o start small d fit (word h) inside) refl start,
      λ h inside.
          accepted (v_array d) it.d1 it.d2 it.d3 it.d4 (o + length d) o
            (fill_document_self raw it o start small d fit (word h) inside) refl start,
    )
      where
        word : Holds raw o d → read_le32 raw o ≡ some (length d)
        word h = read_le32_first raw d o (length d) fit.2 (omega (arith, fit)) h

    accepted_binary_old : (bytes : List ℕ) → length bytes < 2 ^ 30 → Goal (v_binary 2 bytes)
    unfolding fill_type encode value_type
    accepted_binary_old bytes fit h inside =
        accepted (v_binary 2 bytes) it.d1 (o + 4) (o + 5) it.d4 (o + 9 + length bytes) o
          (fill_binary-old raw it o start small bytes fit
            (read_le32_of (length bytes + 4) (omega arith) (
              Holds-front (le_bytes 4 (length bytes + 4)) (2 ∷ (le_bytes 4 (length bytes) ++ bytes))
                h))
            (get_elem?_of 2 (le_bytes 4 (length bytes) ++ bytes) behind)
            (read_le32_of (length bytes) (omega arith)
              (Holds-front (le_bytes 4 (length bytes)) bytes inner))
            (omega (arith, size)))
          (omega (arith, size)) (start, refl, refl)
      where
        size :
            length (le_bytes 4 (length bytes + 4) ++ (2 ∷ (le_bytes 4 (length bytes) ++ bytes)))
            ≡ length bytes + 9
        size = omega (
          arith,
          length-append (le_bytes 4 (length bytes + 4)) (2 ∷ (le_bytes 4 (length bytes) ++ bytes)),
          length-append (le_bytes 4 (length bytes)) bytes,
          length-le_bytes 4 (length bytes),
          length-le_bytes 4 (length bytes + 4),
        )

        behind : Holds raw (o + 4) (2 ∷ (le_bytes 4 (length bytes) ++ bytes))
        behind = behind_word (length bytes + 4) (2 ∷ (le_bytes 4 (length bytes) ++ bytes)) h

        inner : Holds raw (o + 5) (le_bytes 4 (length bytes) ++ bytes)
        inner =
            next_byte (o + 4) (o + 5) 2 (le_bytes 4 (length bytes) ++ bytes) (omega arith) behind

    accepted_binary_new :
        (subtype : ℕ) (bytes : List ℕ)
        → subtype ≢ 2
        → length bytes < 2 ^ 30
        → Holds raw o (le_bytes 4 (length bytes) ++ (subtype ∷ bytes))
        → o + (length bytes + 5) < it.len
        → (it' : Iter) × (fill_type (value_type (v_binary subtype bytes)) raw it o
            ≡ some (filled it' o))
          × Extends it it'
          × (it'.next_off ≡ o + (length bytes + 5))
          × Places (v_binary subtype bytes) o it'
    unfolding fill_type value_type
    accepted_binary_new subtype bytes other fit h inside = (
      with_offsets it it.d1 (o + 4) (o + 5) it.d4 (o + 5 + length bytes),
      fill_binary-data raw it o start small subtype bytes other fit
          (read_le32_of (length bytes) (omega arith)
            (Holds-front (le_bytes 4 (length bytes)) (subtype ∷ bytes) h))
          (get_elem?_of subtype bytes (behind_word (length bytes) (subtype ∷ bytes) h))
          (omega arith),
      with_offsets-Extends it it.d1 (o + 4) (o + 5) it.d4 (o + 5 + length bytes),
      omega arith,
      (start, refl, refl),
    )

    accepted_binary :
        (subtype : ℕ) (bytes : List ℕ) → length bytes < 2 ^ 30 → Goal (v_binary subtype bytes)
    unfolding encode
    accepted_binary subtype bytes fit h inside = elim (Bool-cases (subtype == 2)) [
      | inl old ↦
          let e : subtype ≡ 2 = ground arith in
          rw e (accepted_binary_old bytes fit (rw e at h) (rw e at inside))
      | inr new ↦
          let e = choose new in
          let (it', f, x, n, p) =
            accepted_binary_new subtype bytes (λ q. ground arith) fit (rw e at h)
              (omega (arith, ap length e, size)) in
          (it', o, f, x, omega (arith, ap length e, size, n), p)
    ]
      where
        size : length (le_bytes 4 (length bytes) ++ (subtype ∷ bytes)) ≡ length bytes + 5
        size = omega (
          arith,
          length-append (le_bytes 4 (length bytes)) (subtype ∷ bytes),
          length-le_bytes 4 (length bytes),
        )

        choose :
            (subtype == 2) ≡ false
            → binary_data subtype bytes ≡ le_bytes 4 (length bytes) ++ (subtype ∷ bytes)
        choose new =
            ap
              (λ (b : Bool).
                if b
                then le_bytes 4 (length bytes + 4)
                  ++ (subtype ∷ (le_bytes 4 (length bytes) ++ bytes))
                else le_bytes 4 (length bytes) ++ (subtype ∷ bytes))
              new

    accepted_regex : (r options : List ℕ) → IsFit (v_regex r options) → Goal (v_regex r options)
    unfolding fill_type encode value_type
    accepted_regex r options fit h inside =
        accepted (v_regex r options) it.d1 (o + length r + 1) it.d3 it.d4
          (o + (length r + length options + 2)) (o + length r + 1 + length options)
          (fill_regex-strings raw it o r options small fit.0 fit.1 h (omega (arith, size)))
          (omega (arith, size)) (start, refl)
      where
        size : length (r ++ (0 ∷ (options ++ (0 ∷ [])))) ≡ length r + length options + 2
        size =
            omega
              (arith, length-append r (0 ∷ (options ++ (0 ∷ []))), length-append options (0 ∷ []))

    accepted_dbpointer :
        (collection id : List ℕ)
        → IsFit (v_dbpointer collection id)
        → Goal (v_dbpointer collection id)
    unfolding fill_type encode value_type
    accepted_dbpointer collection id fit h inside =
        accepted (v_dbpointer collection id) it.d1 (o + 4) (o + length (text collection)) it.d4
          (o + length (text collection) + 12) o
          (fill_dbpointer-text raw it o start small collection fit.0
            (Holds-front (text collection) id h) (omega (arith, size)))
          (omega (arith, size)) (start, refl, refl)
      where
        size : length (text collection ++ id) ≡ length (text collection) + 12
        size = omega (arith, length-append (text collection) id, fit.1)

    accepted_codewscope :
        (js scope : List ℕ) → IsFit (v_codewscope js scope) → Goal (v_codewscope js scope)
    unfolding fill_type encode value_type
    accepted_codewscope js scope (no_nul, fit, doc) h inside =
        accepted (v_codewscope js scope) it.d1 (o + 4) (o + 8) (o + length js + 9)
          (o + (length js + length scope + 9)) o
          (fill_codewscope-text raw it o start small js scope header fit doc
            (read_le32_of (length js + length scope + 9) (omega (arith, doc))
              (Holds-front (le_bytes 4 (length js + length scope + 9)) (text js ++ scope) h))
            (Holds-front (text js) scope behind)
            (read_le32_first raw scope (o + length js + 9) (length scope) doc.2 (omega (arith, doc))
              last)
            (omega (arith, size)))
          (omega (arith, size)) (start, refl, refl, refl)
      where
        size :
            length (le_bytes 4 (length js + length scope + 9) ++ (text js ++ scope))
            ≡ length js + length scope + 9
        size = omega (
          arith,
          length-append (le_bytes 4 (length js + length scope + 9)) (text js ++ scope),
          length-le_bytes 4 (length js + length scope + 9),
          length-append (text js) scope,
          length-text js,
        )

        behind : Holds raw (o + 4) (text js ++ scope)
        behind = behind_word (length js + length scope + 9) (text js ++ scope) h

        there : o + length js + 9 ≡ o + 4 + length (text js)
        there = omega (arith, length-text js)

        last : Holds raw (o + length js + 9) scope
        last = rw there (Holds-behind (text js) scope behind)

    pub Accepted_value : (v : Value) → IsFit v → Goal v
    unfolding fill_type encode value_type
    Accepted_value (v_double v) fit h inside =
        accepted (v_double v) it.d1 it.d2 it.d3 it.d4 (add32 o 8) o refl
          (omega (arith, length-le_bytes 8 v)) start
    Accepted_value (v_utf8 s) fit h inside = (accepted_string s fit).0 h inside
    Accepted_value (v_document d) fit h inside = (accepted_document d fit).0 h inside
    Accepted_value (v_array d) fit h inside = (accepted_document d fit).1 h inside
    Accepted_value (v_binary subtype bytes) fit h inside =
        accepted_binary subtype bytes fit.1 h inside
    Accepted_value v_undefined fit h inside =
        accepted v_undefined (2 ^ 32 - 1) it.d2 it.d3 it.d4 o o refl (omega arith) tt
    Accepted_value (v_oid id) fit h inside =
        accepted (v_oid id) it.d1 it.d2 it.d3 it.d4 (add32 o 12) o refl (omega (arith, fit)) start
    Accepted_value (v_bool b) fit h inside =
        accepted (v_bool b) it.d1 it.d2 it.d3 it.d4 (o + 1) o
          (fill_bool-byte raw it o start small b (get_elem?_of (if b then 1 else 0) [] h) inside)
          refl start
    Accepted_value (v_datetime v) fit h inside =
        accepted (v_datetime v) it.d1 it.d2 it.d3 it.d4 (add32 o 8) o refl
          (omega (arith, length-le_bytes 8 v)) start
    Accepted_value v_null fit h inside =
        accepted v_null (2 ^ 32 - 1) it.d2 it.d3 it.d4 o o refl (omega arith) tt
    Accepted_value (v_regex r options) fit h inside = accepted_regex r options fit h inside
    Accepted_value (v_dbpointer collection id) fit h inside =
        accepted_dbpointer collection id fit h inside
    Accepted_value (v_code js) fit h inside = (accepted_string js fit.1).1 h inside
    Accepted_value (v_symbol s) fit h inside = (accepted_string s fit).2 h inside
    Accepted_value (v_codewscope js scope) fit h inside = accepted_codewscope js scope fit h inside
    Accepted_value (v_int32 v) fit h inside =
        accepted (v_int32 v) it.d1 it.d2 it.d3 it.d4 (add32 o 4) o refl
          (omega (arith, length-le_bytes 4 v)) start
    Accepted_value (v_timestamp time increment) fit h inside =
        accepted (v_timestamp time increment) it.d1 it.d2 it.d3 it.d4 (add32 o 8) o refl
          (omega (
            arith,
            length-append (le_bytes 4 increment) (le_bytes 4 time),
            length-le_bytes 4 increment,
            length-le_bytes 4 time,
          ))
          start
    Accepted_value (v_int64 v) fit h inside =
        accepted (v_int64 v) it.d1 it.d2 it.d3 it.d4 (add32 o 8) o refl
          (omega (arith, length-le_bytes 8 v)) start
    Accepted_value (v_decimal128 low high) fit h inside =
        accepted (v_decimal128 low high) it.d1 it.d2 it.d3 it.d4 (add32 o 16) o refl
          (omega (
            arith,
            length-append (le_bytes 8 low) (le_bytes 8 high),
            length-le_bytes 8 low,
            length-le_bytes 8 high,
          ))
          start
    Accepted_value v_maxkey fit h inside =
        accepted v_maxkey (2 ^ 32 - 1) it.d2 it.d3 it.d4 o o refl (omega arith) tt
    Accepted_value v_minkey fit h inside =
        accepted v_minkey (2 ^ 32 - 1) it.d2 it.d3 it.d4 o o refl (omega arith) tt
