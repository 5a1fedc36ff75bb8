-- ===== src/Iter/Fill.antt =====
-- Each case of the `switch` in `_bson_iter_next_internal` reads inside the document, and an
-- element that it accepts ends behind its start.
use libbson.Base.{
  ℕ, zero, suc, ◌+◌, ◌-◌, ◌^◌, ◌≤◌, ◌<◌, ◌≡◌, ◌⊎◌, inl, inr, refl, false, Option, none, some, List,
  get_elem?, length, All, get_elem?_at, Bool-cases, arith, leb, ltb, ◌==◌, ◌||◌,
}
use libbson.Base.Words.{IsByte, add32, sub32, read_le32, read_le32_at}
use libbson.Iter.{
  Iter, Filled, filled, invalid, unsupported, fill_string, fill_binary_deprecated, fill_binary,
  fill_document, fill_bool, scan_nul, fill_regex_options, fill_regex, fill_dbpointer,
  fill_codewscope_scope, fill_codewscope,
}

-- What a case leaves of the iterator: all but the data offsets.
pub record Extends (it it' : Iter) : Type 0 where
  pub raw : it'.raw ≡ it.raw
  pub len : it'.len ≡ it.len
  pub off : it'.off ≡ it.off
  pub type : it'.type ≡ it.type
  pub key : it'.key ≡ it.key

-- The case answers, and an accepted element does not end in front of its data.
abbrev pub Settled : Iter → ℕ → Option Filled → Type 0
Settled it o none = ⊥
Settled it o (some (filled it' o')) = Extends it it' × (o ≤ it'.next_off)
Settled it o (some (invalid it')) = Unit
Settled it o (some (unsupported it')) = Unit

-- The document that the iterator is in, and the offset of the data.
pub record InDocument (raw : List ℕ) (it : Iter) (o : ℕ) : Type 0 where
  pub bytes : All IsByte raw
  pub fits : it.len ≤ length raw
  pub small : it.len < 2 ^ 31
  pub start : it.d1 ≡ o
  pub inside : o ≤ it.len
  pub header : 4 ≤ o

module _ (raw : List ℕ) (it : Iter) (o : ℕ) (d : InDocument raw it o) where
  room : leb (sub32 it.len 4) o ≡ false → it.d1 + 4 < length raw
  room h = ground (arith, d.fits, d.start, d.header, d.inside, d.small)

  -- The length word of a case whose first test passed.
  word : it.d1 + 4 ≤ length raw → (l : ℕ) × (read_le32 raw it.d1 ≡ some l) × (l < 2 ^ 32)
  word h = read_le32_at raw it.d1 d.bytes h

  pub Settled-fill_document : Settled it o (fill_document raw it o)
  unfolding fill_document
  Settled-fill_document = elim (Bool-cases (leb (sub32 it.len 4) o)) [
    | inl out ↦ rw out tt
    | inr fine ↦ let (l, e, hl) = word (omega (arith, room fine)) in rw (fine, e) (ground arith)
  ]

  pub Settled-fill_bool : Settled it o (fill_bool raw it o)
  unfolding fill_bool
  Settled-fill_bool = elim (Bool-cases (leb it.len it.d1)) [
    | inl out ↦ rw out tt
    | inr fine ↦
        let (b, e, hb) = get_elem?_at raw it.d1 d.bytes (ground arith) in
        rw (fine, e) (ground arith)
  ]

  pub Settled-fill_string : Settled it o (fill_string raw it o)
  unfolding fill_string
  Settled-fill_string = elim (Bool-cases (leb it.len (add32 o 4))) [
    | inl out ↦ rw out tt
    | inr fine ↦
        let (l, e, hl) = word (ground arith) in
        rw (fine, e)
          (elim (Bool-cases (ltb (sub32 it.len (add32 o 4)) l)) [
            | inl long ↦ rw long tt
            | inr short ↦ rw short (elim (Bool-cases (l == 0 || leb it.len (add32 (add32 o 4) l))) [
              | inl bad ↦ rw bad tt
              | inr good ↦
                  let (b, eb, hb) = get_elem?_at raw (add32 o 4 + (l - 1)) d.bytes (ground arith) in
                  rw (good, eb) (ground arith)
            ])
          ])
  ]

  pub Settled-fill_dbpointer : Settled it o (fill_dbpointer raw it o)
  unfolding fill_dbpointer
  Settled-fill_dbpointer = elim (Bool-cases (leb (sub32 it.len 4) o)) [
    | inl out ↦ rw out tt
    | inr fine ↦
        let (l, e, hl) = word (omega (arith, room fine)) in
        rw (fine, e)
          (elim (Bool-cases (l == 0 || ltb (sub32 (sub32 it.len o) 4) l)) [
            | inl bad ↦ rw bad tt
            | inr good ↦
                let (b, eb, hb) = get_elem?_at raw (o + l + 3) d.bytes (ground arith) in
                rw (good, eb) (ground arith)
          ])
  ]

  -- The scope's length is read in front of the end that the whole element states.
  pub Settled-fill_codewscope_scope :
      (it' : Iter)
      → Extends it it'
      → it'.d2 ≡ add32 o 4
      → o + 14 < it.len
      → o ≤ it'.next_off
      → it'.next_off < it.len
      → Settled it o (fill_codewscope_scope raw it' o)
  unfolding fill_codewscope_scope
  Settled-fill_codewscope_scope it' x e2 fine lo hi =
      let (l, e, hl) = read_le32_at raw it'.d2 d.bytes (ground arith) in
      rw e (elim (Bool-cases (l == 0 || leb (sub32 (sub32 (sub32 it'.len o) 4) 4) l)) [
        | inl bad ↦ rw bad tt
        | inr good ↦
            rw good
              (elim (Bool-cases (leb it'.next_off (add32 (add32 (add32 (add32 o 4) 4) l) 4))) [
                | inl long ↦ rw long tt
                | inr short ↦
                    let (m, em, hm) =
                      read_le32_at raw (add32 (add32 (add32 o 4) 4) l) d.bytes (ground arith) in
                    rw (short, em) (ground arith)
              ])
      ])

  pub Settled-fill_codewscope : Settled it o (fill_codewscope raw it o)
  unfolding fill_codewscope
  Settled-fill_codewscope = elim (Bool-cases (ltb it.len 19 || leb (sub32 it.len 14) o)) [
    | inl out ↦ rw out tt
    | inr fine ↦
        let (l, e, hl) = word (ground arith) in
        rw (fine, e)
          (elim (Bool-cases (ltb l 14 || leb (sub32 it.len o) l)) [
            | inl bad ↦ rw bad tt
            | inr good ↦ rw good (elim (Bool-cases (leb it.len (add32 o l))) [
              | inl long ↦ rw long tt
              | inr short ↦ rw short (
                  Settled-fill_codewscope_scope
                    (record it { d2 = add32 o 4; d3 = add32 o 8; next_off = add32 o l })
                    (record { raw = refl; len = refl; off = refl; type = refl; key = refl }) refl
                    (ground arith) (ground arith) (ground arith))
            ])
          ])
  ]

  -- The second length of a binary of subtype 2 may lie behind the end of the document: with four
  -- more bytes in reach the read is good.
  pub Settled-fill_binary : it.len + 4 ≤ length raw → Settled it o (fill_binary raw it o)
  unfolding fill_binary fill_binary_deprecated
  Settled-fill_binary slack = elim (Bool-cases (leb (sub32 it.len 4) o)) [
    | inl out ↦ rw out tt
    | inr fine ↦
        let (l, e, hl) = word (omega (arith, room fine)) in
        rw (fine, e)
          (elim (Bool-cases (leb (sub32 it.len o) l)) [
            | inl long ↦ rw long tt
            | inr short ↦
                let (s, es, hs) =
                  get_elem?_at raw (add32 o 4) d.bytes (ground (arith, room fine)) in
                rw (short, es)
                  (elim (Bool-cases (s == 2)) [
                    | inr other ↦ rw other (ground arith)
                    | inl two ↦ rw two (elim (Bool-cases (ltb l 4)) [
                      | inl tiny ↦ rw tiny tt
                      | inr large ↦
                          let (m, em, hm) = read_le32_at raw (add32 o 5) d.bytes (ground arith) in
                          rw (large, em) (ground arith)
                    ])
                  ])
          ])
  ]

-- The scan answers, and stops at the first NUL in its range.
pub scan_nul_at :
    (n : ℕ) (raw : List ℕ) (o : ℕ)
    → All IsByte raw
    → o + n ≤ length raw
    → (scan_nul n raw o ≡ some none)
      ⊎ ((p : ℕ) × (scan_nul n raw o ≡ some (some p))
          × (o ≤ p)
          × (p < o + n)
          × (get_elem? raw p ≡ some 0))
unfolding scan_nul
scan_nul_at zero raw o bytes fits = inl refl
scan_nul_at (suc n) raw o bytes fits =
    let (b, e, hb) = get_elem?_at raw o bytes (omega arith) in
    rw e (elim (Bool-cases (b == 0)) [
      | inl nul ↦ rw nul (inr (o, refl, omega arith, omega arith, ground arith))
      | inr other ↦ rw other (elim (scan_nul_at n raw (o + 1) bytes (omega arith)) [
        | inl no_nul ↦ inl no_nul
        | inr (p, ep, lo, hi, ez) ↦ inr (p, ep, omega arith, omega arith, ez)
      ])
    ])

module _ (raw : List ℕ) (it : Iter) (o : ℕ) (d : InDocument raw it o) where
  pub Settled-fill_regex_options :
      (it' : Iter) (o' : ℕ)
      → Extends it it'
      → o ≤ o'
      → o' ≤ it.len
      → Settled it o (fill_regex_options raw it' o')
  unfolding fill_regex_options
  Settled-fill_regex_options it' o' x lo hi =
      elim (scan_nul_at (it'.len - o') raw o' d.bytes (omega (arith, x.len, d.fits))) [
        | inl no_nul ↦ rw no_nul tt
        | inr (p, e, low, high, ez) ↦ rw e (ground (arith, x.len, d.small, x.raw))
      ]

  pub Settled-fill_regex : Settled it o (fill_regex raw it o)
  unfolding fill_regex
  Settled-fill_regex =
      elim (scan_nul_at (it.len - o) raw o d.bytes (omega (arith, d.fits, d.inside))) [
        | inl no_nul ↦ rw no_nul tt
        | inr (p, e, low, high, ez) ↦ rw e (
            Settled-fill_regex_options (record it { d2 = add32 p 1 }) (add32 p 1)
              (record { raw = refl; len = refl; off = refl; type = refl; key = refl })
              (omega (arith, d.small)) (omega (arith, d.small)))
      ]
