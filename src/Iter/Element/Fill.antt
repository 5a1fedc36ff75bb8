-- ===== src/Iter/Element/Fill.antt =====
-- Each case of the `switch` in `_bson_iter_next_internal`, on the data of a value.
use libbson.Base.{
  ℕ, zero, suc, ◌+◌, ◌-◌, ◌^◌, ◌≤◌, ◌<◌, ◌≡◌, ◌≢◌, sym, ap, ◌∙◌, Bool, some, List, [], ◌∷◌, ◌++◌,
  get_elem?, length, Bool-cases, inl, inr, arith, if◌then◌else◌,
}
use mathlib.Core.List.{append_assoc}
use libbson.Base.Words.{add32, read_le32, le_bytes, length-le_bytes}
use libbson.Base.Memory.{Holds, Holds-front, Holds-behind, get_elem?_of, read_le32_of}
use libbson.Format.{length-text, text, IsDocument, NoNul}
use libbson.Iter.{
  Iter, filled, fill_string, fill_binary_deprecated, fill_binary, fill_document, fill_bool,
  scan_nul, fill_regex_options, fill_regex, fill_dbpointer, fill_codewscope_scope, fill_codewscope,
}

module _ {raw : List ℕ} where
  -- The length word, the bytes and the NUL of a string.
  pub text_word :
      {at : ℕ} (s : List ℕ)
      → length s < 2 ^ 30
      → Holds raw at (text s)
      → read_le32 raw at ≡ some (suc (length s))
  text_word s small h =
      read_le32_of (suc (length s)) (omega arith)
        (Holds-front (le_bytes 4 (suc (length s))) (s ++ (0 ∷ [])) h)

  pub text_bytes :
      {at : ℕ} (s : List ℕ) → Holds raw at (text s) → Holds raw (at + 4) (s ++ (0 ∷ []))
  text_bytes {at} s h =
      rw (ap (λ (n : ℕ). at + n) (sym (length-le_bytes 4 (suc (length s)))))
        (Holds-behind (le_bytes 4 (suc (length s))) (s ++ (0 ∷ [])) h)

  pub text_nul :
      {at : ℕ} (s : List ℕ) → Holds raw at (text s) → get_elem? raw (at + 4 + length s) ≡ some 0
  text_nul s h = get_elem?_of 0 [] (Holds-behind s (0 ∷ []) (text_bytes s h))

-- A read at an offset that is given in two ways.
moved : (raw : List ℕ) (i j x : ℕ) → i ≡ j → get_elem? raw j ≡ some x → get_elem? raw i ≡ some x
moved raw i j x e h = ap (λ (k : ℕ). get_elem? raw k) e ∙ h

module _ (raw : List ℕ) (it : Iter) (o : ℕ) (start : it.d1 ≡ o) (small : it.len < 2 ^ 31) where
  word_at : (v : ℕ) → read_le32 raw o ≡ some v → read_le32 raw it.d1 ≡ some v
  word_at v h = ap (λ (k : ℕ). read_le32 raw k) start ∙ h

  pub fill_string-text :
      (s : List ℕ)
      → length s < 2 ^ 30
      → Holds raw o (text s)
      → o + length (text s) < it.len
      → fill_string raw it o
        ≡ some (filled (record it { d2 = o + 4; next_off = o + length (text s) }) o)
  unfolding fill_string
  fill_string-text s hs h inside = ground (
    arith,
    word_at (suc (length s)) (text_word s hs h),
    moved raw (add32 o 4 + (suc (length s) - 1)) (o + 4 + length s) 0 (omega (arith, length-text s))
        (text_nul s h),
    length-text s,
  )

  pub fill_document_self :
      (d : List ℕ)
      → IsDocument d
      → read_le32 raw o ≡ some (length d)
      → o + length d < it.len
      → fill_document raw it o ≡ some (filled (record it { next_off = o + length d }) o)
  unfolding fill_document
  fill_document_self d (long, short, e, nul) h inside = ground (arith, word_at (length d) h)

  pub fill_bool-byte :
      (b : Bool)
      → get_elem? raw o ≡ some (if b then 1 else 0)
      → o + 1 < it.len
      → fill_bool raw it o ≡ some (filled (record it { next_off = o + 1 }) o)
  unfolding fill_bool
  fill_bool-byte b h inside = elim (Bool-cases b) [
    | inl e ↦ ground (arith, moved raw it.d1 o (if b then 1 else 0) start h)
    | inr e ↦ ground (arith, moved raw it.d1 o (if b then 1 else 0) start h)
  ]

  pub fill_dbpointer-text :
      (s : List ℕ)
      → length s < 2 ^ 30
      → Holds raw o (text s)
      → o + length (text s) + 12 < it.len
      → fill_dbpointer raw it o
        ≡ some (
            filled
              (record it {
                d2 = o + 4;
                d3 = o + length (text s);
                next_off = o + length (text s) + 12;
              })
              o)
  unfolding fill_dbpointer
  fill_dbpointer-text s hs h inside = ground (
    arith,
    word_at (suc (length s)) (text_word s hs h),
    moved raw (o + suc (length s) + 3) (o + 4 + length s) 0 (omega arith) (text_nul s h),
    length-text s,
  )

  pub fill_codewscope-text :
      (js scope : List ℕ)
      → 4 ≤ o
      → length js < 2 ^ 30
      → IsDocument scope
      → read_le32 raw o ≡ some (length js + length scope + 9)
      → Holds raw (o + 4) (text js)
      → read_le32 raw (o + length js + 9) ≡ some (length scope)
      → o + (length js + length scope + 9) < it.len
      → fill_codewscope raw it o
        ≡ some (
            filled
              (record it {
                d2 = o + 4;
                d3 = o + 8;
                d4 = o + length js + 9;
                next_off = o + (length js + length scope + 9);
              })
              o)
  unfolding fill_codewscope fill_codewscope_scope
  fill_codewscope-text js scope header hs (long, short, e, nul) h at_js doc inside = ground (
    arith,
    word_at (length js + length scope + 9) h,
    at (add32 o 4) (o + 4) (suc (length js)) (omega arith) (text_word js hs at_js),
    at (add32 (add32 (add32 o 4) 4) (suc (length js))) (o + length js + 9) (length scope)
        (omega arith) doc,
  )
    where
      at : (i j v : ℕ) → i ≡ j → read_le32 raw j ≡ some v → read_le32 raw i ≡ some v
      at i j v e h = ap (λ (k : ℕ). read_le32 raw k) e ∙ h

  pub fill_binary-data :
      (subtype : ℕ) (bytes : List ℕ)
      → subtype ≢ 2
      → length bytes < 2 ^ 30
      → read_le32 raw o ≡ some (length bytes)
      → get_elem? raw (o + 4) ≡ some subtype
      → o + 5 + length bytes < it.len
      → fill_binary raw it o
        ≡ some (filled (record it { d2 = o + 4; d3 = o + 5; next_off = o + 5 + length bytes }) o)
  unfolding fill_binary
  fill_binary-data subtype bytes other hs h sub inside =
      ground
        (arith, word_at (length bytes) h, moved raw (add32 o 4) (o + 4) subtype (omega arith) sub)

  pub fill_binary-old :
      (bytes : List ℕ)
      → length bytes < 2 ^ 30
      → read_le32 raw o ≡ some (length bytes + 4)
      → get_elem? raw (o + 4) ≡ some 2
      → read_le32 raw (o + 5) ≡ some (length bytes)
      → o + 9 + length bytes < it.len
      → fill_binary raw it o
        ≡ some (filled (record it { d2 = o + 4; d3 = o + 5; next_off = o + 9 + length bytes }) o)
  unfolding fill_binary fill_binary_deprecated
  fill_binary-old bytes hs h sub inner inside = ground (
    arith,
    word_at (length bytes + 4) h,
    moved raw (add32 o 4) (o + 4) 2 (omega arith) sub,
    at (add32 o 5) (o + 5) (length bytes) (omega arith) inner,
  )
    where
      at : (i j v : ℕ) → i ≡ j → read_le32 raw j ≡ some v → read_le32 raw i ≡ some v
      at i j v e h = ap (λ (k : ℕ). read_le32 raw k) e ∙ h

-- The loop that looks for a NUL finds that of a C string.
pub scan_nul-string :
    (raw : List ℕ) (n o : ℕ) (s : List ℕ)
    → NoNul s
    → length s < n
    → Holds raw o (s ++ (0 ∷ []))
    → scan_nul n raw o ≡ some (some (o + length s))
unfolding scan_nul
scan_nul-string raw zero o s h lt holds = absurd (omega arith)
scan_nul-string raw (suc n) o [] h lt holds = ground (arith, get_elem?_of 0 [] holds)
scan_nul-string raw (suc n) o (x ∷ s) h lt holds = ground (
  arith,
  get_elem?_of x (s ++ (0 ∷ [])) holds,
  h.0,
  scan_nul-string raw n (o + 1) s h.1 (omega arith) (Holds-behind (x ∷ []) (s ++ (0 ∷ [])) holds),
)

pub fill_regex-strings :
    (raw : List ℕ) (it : Iter) (o : ℕ) (r options : List ℕ)
    → it.len < 2 ^ 31
    → NoNul r
    → NoNul options
    → Holds raw o (r ++ (0 ∷ (options ++ (0 ∷ []))))
    → o + (length r + length options + 2) < it.len
    → fill_regex raw it o
      ≡ some (
          filled
            (record it { d2 = o + length r + 1; next_off = o + (length r + length options + 2) })
            (o + length r + 1 + length options))
unfolding fill_regex fill_regex_options
fill_regex-strings raw it o r options small hr ho holds inside = ground (
  arith,
  scan_nul-string raw (it.len - o) o r hr (omega arith) first,
  after (add32 (o + length r) 1) (omega arith),
)
  where
    first : Holds raw o (r ++ (0 ∷ []))
    first =
        Holds-front (r ++ (0 ∷ [])) (options ++ (0 ∷ []))
          (rw (append_assoc r (0 ∷ []) (options ++ (0 ∷ []))) holds)

    second : Holds raw (o + length r + 1) (options ++ (0 ∷ []))
    second =
        Holds-behind (0 ∷ []) (options ++ (0 ∷ []))
          (Holds-behind r (0 ∷ (options ++ (0 ∷ []))) holds)

    after :
        (e : ℕ)
        → e ≡ o + length r + 1
        → scan_nul (it.len - e) raw e ≡ some (some (o + length r + 1 + length options))
    after e h =
        ap (λ (k : ℕ). scan_nul (it.len - k) raw k) h
        ∙ scan_nul-string raw (it.len - (o + length r + 1)) (o + length r + 1) options ho
            (omega arith) second
