-- ===== src/Reader/Data.antt =====
-- src/bson/bson-reader.c: the reader over a buffer gives the documents of the buffer.
use libbson.Base.{
  ℕ, ◌+◌, ◌^◌, ◌≤◌, ◌<◌, ◌≡◌, refl, sym, ap, ==_iff, ◌⊎◌, inl, inr, ◌∙◌, Bool, true, false, Option,
  none, some, List, [], ◌∷◌, ◌++◌, length, drop, All, length-append, drop-append, ltb, ◌==◌, lt→ltb,
  le→ltb, arith,
}
use mathlib.Core.Path.{ap₂, subst}
use mathlib.Core.List.{append_assoc, append-nil}
use libbson.Base.Words.{u32, read_le32}
use libbson.Base.Memory.{Holds, slice_of, read_le32_first}
use libbson.Format.{IsDocument}
use libbson.Run.{Run, done}
use libbson.Bson.{Bson}
use libbson.Bson.Value.{static_document}
use libbson.Bson.Content.{concat}
use libbson.Bson.Document.{init_static-IsDocument}
use libbson.Reader.{
  DataReader, new_from_data, data_read, take_document, past_document, less_int32, sub_size,
}

-- Calls of `bson_reader_read`: each document once, in order, and then NULL with `*reached_eof`.
abbrev pub Answers {ℓ} :
    {R : Type ℓ} → (R → Run (R × Option Bson × Bool)) → R → List (List ℕ) → Type ℓ
Answers {R = R} read r [] = (r' : R) × (read r ≡ done (r', none, true))
Answers {R = R} read r (d ∷ documents) =
    (r' : R) × (read r ≡ done (r', some (static_document d), false)) × Answers read r' documents

pub slice-Holds : (front d rest : List ℕ) → Holds (front ++ (d ++ rest)) (length front) d
slice-Holds front d rest = record {
  back = rest;
  inside = omega (arith, length-append front (d ++ rest));
  found = drop-append front (d ++ rest);
}

-- A document that lies in a memory is taken from it.
pub take_document_lem :
    (memory d : List ℕ) (at : ℕ)
    → Holds memory at d
    → IsDocument d
    → take_document memory at (length d) ≡ done (some (static_document d))
unfolding take_document
take_document_lem memory d at h fit = rw (slice_of d h) (init_static-IsDocument d fit)

pub length_word :
    (memory d : List ℕ) (at : ℕ)
    → Holds memory at d
    → IsDocument d
    → read_le32 memory at ≡ some (length d)
length_word memory d at h fit =
    read_le32_first memory d at (length d) fit.2 (omega (arith, fit.0)) h

-- The tests on the length, for numbers below 2 ^ 31.
pub less_int32_small : (a b : ℕ) → a < 2 ^ 31 → b < 2 ^ 31 → less_int32 a b ≡ ltb a b
less_int32_small a b ha hb = ground arith

-- The tests before a document is taken, for one of `n` bytes with at least as many left.
pub long_enough : (n : ℕ) → 5 ≤ n → n < 2 ^ 31 → less_int32 n 5 ≡ false
long_enough n long short = ground arith

pub fits_left :
    (total at n : ℕ)
    → at + n ≤ total
    → total < 2 ^ 31
    → n < 2 ^ 31
    → less_int32 (u32 (sub_size total at)) n ≡ false
fits_left total at n room small short = le→ltb _ _ (omega arith)

data_read-document :
    (r : DataReader) (front d rest : List ℕ)
    → r.bytes ≡ front ++ (d ++ rest)
    → r.offset ≡ length front
    → IsDocument d
    → length r.bytes < 2 ^ 31
    → data_read r
      ≡ done (record r { offset = r.offset + length d }, some (static_document d), false)
unfolding data_read past_document
data_read-document r front d rest split at fit small =
    rw
      (
        lt→ltb (r.offset + 4) (length r.bytes) (omega (arith, room, fit.0)),
        length_word r.bytes d r.offset there fit,
        long_enough (length d) fit.0 fit.1,
        fits_left (length r.bytes) r.offset (length d) room small fit.1,
        slice_of d there,
        init_static-IsDocument d fit,
      )
      refl
  where
    there : Holds r.bytes r.offset d
    there =
        subst (λ (m : List ℕ). Holds m r.offset d) (sym split)
          (subst (λ (k : ℕ). Holds (front ++ (d ++ rest)) k d) (sym at) (slice-Holds front d rest))

    room : r.offset + length d ≤ length r.bytes
    room = omega (arith, at, ap length split, length-append front (d ++ rest), length-append d rest)

Answers-from :
    (documents : List (List ℕ)) (r : DataReader) (front : List ℕ)
    → All IsDocument documents
    → r.bytes ≡ front ++ concat documents
    → r.offset ≡ length front
    → length r.bytes < 2 ^ 31
    → Answers data_read r documents
unfolding data_read
Answers-from [] r front fit split at small =
    (r, rw (le→ltb (r.offset + 4) (length r.bytes) (omega (arith, size)), eof) refl)
  where
    size : length r.bytes ≡ r.offset
    size = omega (arith, at, ap length split, ap length (append-nil front))

    eof : (r.offset == length r.bytes) ≡ true
    eof = (==_iff r.offset (length r.bytes)).1 (sym size)
Answers-from (d ∷ documents) r front fit split at small = (
  record r { offset = r.offset + length d },
  data_read-document r front d (concat documents) split at fit.0 small,
  Answers-from documents (record r { offset = r.offset + length d }) (front ++ d) fit.1
      (split ∙ sym (append_assoc front d (concat documents)))
      (omega (arith, at, length-append front d)) small,
)

-- Where fewer than 2 ^ 31 bytes are documents one behind the other, a reader over them answers each
-- document, once and in order, and then NULL with `*reached_eof` true.
pub new_from_data-Answers :
    (documents : List (List ℕ))
    → All IsDocument documents
    → length (concat documents) < 2 ^ 31
    → Answers data_read (new_from_data (concat documents)) documents
unfolding new_from_data
new_from_data-Answers documents fit small =
    Answers-from documents (record { bytes = concat documents; offset = 0 }) [] fit refl refl small

-- The length word of a document stands in any part of it that has four bytes.
pub length_word_of_part :
    (part more : List ℕ)
    → IsDocument (part ++ more)
    → 4 ≤ length part
    → read_le32 part 0 ≡ some (length (part ++ more))
unfolding read_le32
length_word_of_part [] more fit h = absurd (omega (arith, h))
length_word_of_part (a ∷ []) more fit h = absurd (omega (arith, h))
length_word_of_part (a ∷ b ∷ []) more fit h = absurd (omega (arith, h))
length_word_of_part (a ∷ b ∷ c ∷ []) more fit h = absurd (omega (arith, h))
length_word_of_part (a ∷ b ∷ c ∷ d ∷ part) more fit h = fit.2

-- The test on the bytes left, for a document that is longer.
pub beyond :
    (total at n : ℕ)
    → at ≤ total
    → total < at + n
    → total < 2 ^ 31
    → n < 2 ^ 31
    → less_int32 (u32 (sub_size total at)) n ≡ true
beyond total at n inside over small short = lt→ltb _ _ (omega arith)

-- Behind whole documents of a buffer of fewer than 2 ^ 31 bytes, a document of which some bytes are
-- there, and not all, is answered as NULL with `*reached_eof` false.
pub data_read-truncated :
    (r : DataReader) (front part more : List ℕ)
    → r.bytes ≡ front ++ part
    → r.offset ≡ length front
    → IsDocument (part ++ more)
    → 0 < length part
    → 0 < length more
    → length r.bytes < 2 ^ 31
    → data_read r ≡ done (r, none, false)
unfolding data_read
data_read-truncated r front part more split at fit some_there some_missing small = elim size [
  | inl short ↦
      rw (le→ltb (r.offset + 4) (length r.bytes) (omega (arith, total, short)), not_eof) refl
  | inr long ↦
      rw
        (
          lt→ltb (r.offset + 4) (length r.bytes) (omega (arith, total, long)),
          read_le32_first r.bytes part r.offset (length (part ++ more))
              (length_word_of_part part more fit (omega (arith, long))) (omega (arith, long)) there,
          long_enough (length (part ++ more)) fit.0 fit.1,
          beyond (length r.bytes) r.offset (length (part ++ more)) (omega (arith, total))
              (omega (arith, total, length-append part more)) small fit.1,
        )
        refl
]
  where
    total : length r.bytes ≡ r.offset + length part
    total = omega (arith, at, ap length split, length-append front part)

    size : (length part ≤ 4) ⊎ (4 < length part)
    size = omega arith

    not_eof : (r.offset == length r.bytes) ≡ false
    not_eof = ground (arith, total, some_there)

    there : Holds r.bytes r.offset part
    there = record {
      back = [];
      inside = omega (arith, total);
      found =
          ap₂ (λ (k : ℕ) (m : List ℕ). drop k m) at split
          ∙ drop-append front part
          ∙ sym (append-nil part);
    }
