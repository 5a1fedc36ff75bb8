-- ===== src/Iter/Next/Safe.antt =====
-- `_bson_iter_next_internal` stays inside the document and makes progress.
use libbson.Base.{
  ℕ, ◌+◌, ◌-◌, ◌^◌, ◌≤◌, ◌<◌, ◌≡◌, ◌≢◌, ◌⊎◌, inl, inr, refl, true, false, Option, none, some, List,
  get_elem?, length, All, get_elem?_at, Bool-cases, arith, leb, ap, ◌∙◌,
}
use libbson.Base.Words.{IsByte, add32}
use libbson.Types.{
  BsonType, eod, double, utf8, document, array, binary, undefined, oid, bool, date_time, null,
  regex, dbpointer, code, symbol, codewscope, int32, timestamp, int64, decimal128, maxkey, minkey,
  of_byte,
}
use libbson.Iter.{Iter, Filled, filled, invalid, unsupported}
use libbson.Iter.Fill.{
  Settled, InDocument, Settled-fill_string, Settled-fill_binary, Settled-fill_document,
  Settled-fill_bool, Settled-fill_regex, Settled-fill_dbpointer, Settled-fill_codewscope,
  scan_nul_at,
}
use libbson.Iter.Next.{
  fill_type, fill_byte, Next, finish, fill_data_fields, next_field, next_from, next_internal,
  start_field,
}

-- An iterator in front of a field or of the end of a document.
pub record IsValid (raw : List ℕ) (it : Iter) : Type 0 where
  pub at : it.raw ≡ some raw
  pub bytes : All IsByte raw
  pub fits : it.len ≤ length raw
  pub small : it.len < 2 ^ 31
  pub header : 4 ≤ it.next_off
  pub inside : it.next_off < it.len

-- What a call may leave: a valid iterator on the field, or an invalidated one.
pub record Stepped (raw : List ℕ) (it : Iter) (n : Next) : Type 0 where
  pub valid : n.decoded ≡ true → IsValid raw n.iter
  pub same_len : n.decoded ≡ true → n.iter.len ≡ it.len
  pub on_field : n.decoded ≡ true → n.iter.off ≡ it.next_off
  pub advances : n.decoded ≡ true → it.next_off + 2 ≤ n.iter.next_off
  pub invalidated : n.decoded ≡ false → n.iter.raw ≡ none

-- Four more bytes in reach behind the document, or an element that is no binary.
abbrev pub NoOverread : List ℕ → Iter → Type 0
NoOverread raw it = (it.len + 4 ≤ length raw) ⊎ (get_elem? raw it.next_off ≢ some 5)

module _ (raw : List ℕ) (it : Iter) (o : ℕ) (d : InDocument raw it o) where
  Settled-fill_type :
      (t : BsonType)
      → (it.len + 4 ≤ length raw) ⊎ (t ≢ binary)
      → Settled it o (fill_type t raw it o)
  unfolding fill_type
  Settled-fill_type date_time s = ground (arith, d.small, d.inside)
  Settled-fill_type double s = ground (arith, d.small, d.inside)
  Settled-fill_type int64 s = ground (arith, d.small, d.inside)
  Settled-fill_type timestamp s = ground (arith, d.small, d.inside)
  Settled-fill_type oid s = ground (arith, d.small, d.inside)
  Settled-fill_type int32 s = ground (arith, d.small, d.inside)
  Settled-fill_type decimal128 s = ground (arith, d.small, d.inside)
  Settled-fill_type code s = Settled-fill_string raw it o d
  Settled-fill_type symbol s = Settled-fill_string raw it o d
  Settled-fill_type utf8 s = Settled-fill_string raw it o d
  Settled-fill_type binary (inl slack) = Settled-fill_binary raw it o d slack
  Settled-fill_type binary (inr other) = absurd (other refl)
  Settled-fill_type array s = Settled-fill_document raw it o d
  Settled-fill_type document s = Settled-fill_document raw it o d
  Settled-fill_type bool s = Settled-fill_bool raw it o d
  Settled-fill_type regex s = Settled-fill_regex raw it o d
  Settled-fill_type dbpointer s = Settled-fill_dbpointer raw it o d
  Settled-fill_type codewscope s = Settled-fill_codewscope raw it o d
  Settled-fill_type maxkey s = ground arith
  Settled-fill_type minkey s = ground arith
  Settled-fill_type null s = ground arith
  Settled-fill_type undefined s = ground arith
  Settled-fill_type eod s = tt

binary_byte : (t : ℕ) → of_byte t ≡ some binary → t ≡ 5
unfolding of_byte
binary_byte t h = ground arith

Settled-fill_byte :
    (raw : List ℕ) (it : Iter) (o : ℕ)
    → InDocument raw it o
    → (t : Option BsonType) → (it.len + 4 ≤ length raw) ⊎ (t ≢ some binary)
    → Settled it o (fill_byte t raw it o)
unfolding fill_byte
Settled-fill_byte raw it o d none s = tt
Settled-fill_byte raw it o d (some t) (inl slack) = Settled-fill_type raw it o d t (inl slack)
Settled-fill_byte raw it o d (some t) (inr other) =
    Settled-fill_type raw it o d t (inr (λ e. other (ap some e)))

-- The iterator on a field whose key ends in front of `o`.
record OnField (raw : List ℕ) (it s : Iter) (o : ℕ) : Type 0 where
  valid : IsValid raw it
  at : s.raw ≡ some raw
  len : s.len ≡ it.len
  off : s.off ≡ it.next_off
  behind : it.next_off + 2 ≤ o

finish-Stepped :
    (raw : List ℕ) (it s : Iter) (o t : ℕ) (f : Filled)
    → OnField raw it s o
    → Settled s o (some f)
    → Stepped raw it (finish t f)
unfolding finish
finish-Stepped raw it s o t (filled it' o') c (x, h) =
    elim (Bool-cases (leb it'.len it'.next_off)) [
      | inl out ↦ rw out (record {
        valid = λ e. cc;
        same_len = λ e. cc;
        on_field = λ e. cc;
        advances = λ e. cc;
        invalidated = λ e. refl;
      })
      | inr fine ↦ rw fine (record {
        valid = λ e. record {
          at = x.raw ∙ c.at;
          bytes = c.valid.bytes;
          fits = omega (arith, x.len, c.len, c.valid.fits);
          small = omega (arith, x.len, c.len, c.valid.small);
          header = omega (arith, c.behind, c.valid.header);
          inside = ground arith;
        };
        same_len = λ e. x.len ∙ c.len;
        on_field = λ e. x.off ∙ c.off;
        advances = λ e. omega (arith, c.behind);
        invalidated = λ e. cc;
      })
    ]
finish-Stepped raw it s o t (invalid it') c h = record {
  valid = λ e. cc;
  same_len = λ e. cc;
  on_field = λ e. cc;
  advances = λ e. cc;
  invalidated = λ e. refl;
}
finish-Stepped raw it s o t (unsupported it') c h = record {
  valid = λ e. cc;
  same_len = λ e. cc;
  on_field = λ e. cc;
  advances = λ e. cc;
  invalidated = λ e. refl;
}

Settled-value :
    (it : Iter) (o : ℕ) (r : Option Filled)
    → Settled it o r
    → (f : Filled) × (r ≡ some f) × Settled it o (some f)
Settled-value it o none h = absurd h
Settled-value it o (some f) h = (f, refl, h)

no_binary :
    (raw : List ℕ) (it : Iter) (t : ℕ)
    → get_elem? raw it.next_off ≡ some t
    → NoOverread raw it
    → (it.len + 4 ≤ length raw) ⊎ (of_byte t ≢ some binary)
no_binary raw it t e (inl slack) = inl slack
no_binary raw it t e (inr other) = inr (λ b. other (e ∙ ap some (binary_byte t b)))

fill_data_fields_of :
    (raw : List ℕ) (s : Iter) (o t : ℕ) (f : Filled)
    → get_elem? raw s.type ≡ some t
    → fill_byte (of_byte t) raw (record s { d1 = o }) o ≡ some f
    → fill_data_fields raw s o ≡ some (finish t f)
unfolding fill_data_fields
fill_data_fields_of raw s o t f et ef = rw (et, ef)

fields-Stepped :
    (raw : List ℕ) (it s : Iter) (o : ℕ)
    → OnField raw it s o
    → s.type ≡ it.next_off
    → o ≤ it.len
    → NoOverread raw it
    → (n : Next) × (fill_data_fields raw s o ≡ some n) × Stepped raw it n
unfolding fill_data_fields
fields-Stepped raw it s o c type inside s_over =
    let (t, et, ht) =
      get_elem?_at raw it.next_off c.valid.bytes (omega (arith, c.valid.fits, c.valid.inside)) in
    let s' : Iter = record s { d1 = o } in
    let (f, ef, hf) = Settled-value s' o (fill_byte (of_byte t) raw s' o) (
      Settled-fill_byte raw s' o
        (record {
          bytes = c.valid.bytes;
          fits = omega (arith, c.len, c.valid.fits);
          small = omega (arith, c.len, c.valid.small);
          start = refl;
          inside = omega (arith, c.len);
          header = omega (arith, c.behind);
        })
        (of_byte t) (rw c.len (no_binary raw it t et s_over))) in
    (
      finish t f,
      fill_data_fields_of raw s o t f (ap (get_elem? raw) type ∙ et) ef,
      finish-Stepped raw it s' o t f
          (record { valid = c.valid; at = c.at; len = c.len; off = c.off; behind = c.behind }) hf,
    )

next_field-Stepped :
    (raw : List ℕ) (it : Iter)
    → IsValid raw it
    → NoOverread raw it
    → (n : Next) × (next_field raw (start_field it) ≡ some n) × Stepped raw it n
unfolding next_field
next_field-Stepped raw it v s_over =
    elim (scan_nul_at (it.len - add32 it.next_off 1) raw (add32 it.next_off 1) v.bytes
      (omega (arith, v.fits, v.inside, v.small))) [
        | inl no_nul ↦ rw no_nul (
          _,
          refl,
          record {
            valid = λ e. cc;
            same_len = λ e. cc;
            on_field = λ e. cc;
            advances = λ e. cc;
            invalidated = λ e. refl;
          },
        )
        | inr (p, ep, lo, hi, ez) ↦ rw ep (
            fields-Stepped raw it (start_field it) (add32 p 1)
              (record {
                valid = v;
                at = v.at;
                len = refl;
                off = refl;
                behind = omega (arith, v.inside, v.small);
              })
              refl (omega (arith, v.small)) s_over)
      ]

-- On a valid iterator, with four readable bytes behind the document or on an element that is no
-- binary, `_bson_iter_next_internal` reads no byte out of reach. If it decodes an element, the
-- iterator is valid again, lies on that element, keeps its length and has moved on by two bytes at
-- least. If not, the iterator is invalidated.
pub next_internal-Stepped :
    (raw : List ℕ) (it : Iter)
    → IsValid raw it
    → NoOverread raw it
    → (n : Next) × (next_internal it ≡ some n) × Stepped raw it n
unfolding next_internal next_from
next_internal-Stepped raw it v s_over =
    let (n, e, st) = next_field-Stepped raw it v s_over in
    (n, ap (λ r. next_from r it) v.at ∙ e, st)

-- How a call ends: on a field, with a valid iterator that has moved on, or invalidated.
pub data Outcome (raw : List ℕ) (it : Iter) (n : Next) : Type 0 where
  on_field :
      n.decoded ≡ true
      → IsValid raw n.iter
      → n.iter.len ≡ it.len
      → n.iter.off ≡ it.next_off
      → it.next_off + 2 ≤ n.iter.next_off
      → Outcome raw it n
  at_end : n.decoded ≡ false → n.iter.raw ≡ none → Outcome raw it n

outcome : (raw : List ℕ) (it : Iter) (n : Next) → Stepped raw it n → Outcome raw it n
outcome raw it n s = elim (Bool-cases n.decoded) [
  | inl e ↦ on_field e (s.valid e) (s.same_len e) (s.on_field e) (s.advances e)
  | inr e ↦ at_end e (s.invalidated e)
]

-- On a valid iterator whose document is bytes, and has four more bytes in reach behind it or no
-- binary as its next element, `_bson_iter_next_internal` reads nothing past the memory. It ends on
-- the field at the old `next_off`, with a valid iterator of the same length that has moved on by
-- two bytes at least, or with the iterator invalidated.
pub next_internal-Outcome :
    (raw : List ℕ) (it : Iter)
    → IsValid raw it
    → NoOverread raw it
    → (n : Next) × (next_internal it ≡ some n) × Outcome raw it n
next_internal-Outcome raw it v s_over =
    let (n, e, s) = next_internal-Stepped raw it v s_over in (n, e, outcome raw it n s)
