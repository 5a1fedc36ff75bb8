-- ===== src/Examples/Streams.antt =====
-- Concrete streams, visits and overwritten elements for the theorems on them.
use libbson.Base.{
  ℕ, zero, suc, ◌+◌, ◌-◌, ◌^◌, ◌<◌, ◌≡◌, inl, inr, refl, sym, ap, Bool, true, false, Option, none,
  some, List, [], ◌∷◌, ◌++◌, length, take, drop, take-append-drop, length-take, All, arith,
}
use libbson.Base.Words.{le_bytes, read_le32}
use libbson.Types.{to_byte, int32, int64, double, bool}
use libbson.Format.{
  Value, v_int32, v_utf8, encode, AllFit, IsDocument, document_bytes, document_size, encode_all,
  NoNul,
}
use libbson.Run.{done}
use libbson.Utf8.{from_unichar}
use libbson.Utf8.Validate.{WellFormed}
use libbson.Iter.{Iter}
use libbson.Iter.Next.{fresh}
use libbson.Iter.Read.{read_bool, read_int32, read_int64, read_double}
use libbson.Iter.Overwrite.{overwrite_bool, overwrite_int32, overwrite_int64, overwrite_double}
use libbson.Iter.Overwrite.Back.{IsAt, after, overwrite_scalars}
use libbson.Iter.Visit.{visit_all}
use libbson.Iter.Visit.Order.{Plain, visitor_of, in_order, IsText, IsUtf8, visit_all-in_order}
use libbson.Bson.Content.{concat}
use libbson.Bson.Whole.Concat.{Concatenated, concat_documents-Represents}
use libbson.Reader.{
  DataReader, HandleReader, new_from_data, data_read, new_from_handle, handle_read,
}
use libbson.Reader.Data.{Answers, new_from_data-Answers, data_read-truncated}
use libbson.Reader.Fill.{Delivers}
use libbson.Reader.Handle.{new_from_handle-Answers}
use libbson.Reader.Start.{new_from_handle-failed}
use libbson.Bson.Document.{Represents}
use libbson.Examples.{
  a, a_is_one, zeroing, zeros, repeated, inline_document, inline_document-Layout,
  inline_document-IsOpen,
}

a_is_one-IsDocument : IsDocument a_is_one
unfolding read_le32
a_is_one-IsDocument = (omega arith, omega arith, refl, refl)

-- The document twice.
abbrev twice_one : List (List ℕ)
twice_one = a_is_one ∷ a_is_one ∷ []

new_from_data-Answers_example : Answers data_read (new_from_data (concat twice_one)) twice_one
new_from_data-Answers_example =
    new_from_data-Answers twice_one (a_is_one-IsDocument, (a_is_one-IsDocument, tt)) (omega arith)

-- The first eight bytes of the document.
abbrev half : DataReader
half = record { bytes = take 8 a_is_one; offset = 0 }

data_read-truncated_example : data_read half ≡ done (half, none, false)
data_read-truncated_example =
    data_read-truncated half [] (take 8 a_is_one) (drop 8 a_is_one) refl refl a_is_one-IsDocument
      (omega arith) (omega arith) (omega arith)

-- A handle is the bytes that are left.
abbrev read_bytes : List ℕ → ℕ → List ℕ × Option (List ℕ)
read_bytes h n = (drop n h, some (take n h))

taken_nothing : (h : List ℕ) (n : ℕ) → 0 < n → take n h ≡ [] → h ≡ []
taken_nothing [] n pos e = refl
taken_nothing (x ∷ h) zero pos e = absurd (omega (arith, pos))
taken_nothing (x ∷ h) (suc n) pos e = absurd (omega (arith, ap length e))

bytes-Delivers : Delivers (List ℕ) read_bytes
bytes-Delivers = record {
  pending = λ h. h;
  delivered = λ h n. take n h;
  answer = λ h n pos. refl;
  in_order = λ h n pos. sym (take-append-drop n h);
  in_room = λ h n pos. omega (arith, length-take n h);
  until_end = taken_nothing;
}

new_from_handle-Answers_example :
    (r : HandleReader (List ℕ)) × (new_from_handle
        (List ℕ)
        read_bytes
        (concat twice_one ++ take 8 a_is_one)
      ≡ done r)
    × Answers (handle_read (List ℕ) read_bytes zeroing 40) r twice_one
unfolding bytes-Delivers
new_from_handle-Answers_example =
    new_from_handle-Answers (List ℕ) read_bytes zeroing bytes-Delivers 40
      (concat twice_one ++ take 8 a_is_one) twice_one (take 8 a_is_one) refl
      ((a_is_one-IsDocument, omega arith), ((a_is_one-IsDocument, omega arith), tt))
      (inr (drop 8 a_is_one, omega arith, a_is_one-IsDocument, omega arith)) (omega arith)

-- A handle whose reads fail.
abbrev read_nothing : List ℕ → ℕ → List ℕ × Option (List ℕ)
read_nothing h n = (h, none)

new_from_handle-failed_example :
    (r : HandleReader (List ℕ)) × (new_from_handle (List ℕ) read_nothing a_is_one ≡ done r)
    × (handle_read (List ℕ) read_nothing zeroing 1 r ≡ done (r, none, true))
new_from_handle-failed_example =
    new_from_handle-failed (List ℕ) read_nothing zeroing 0 a_is_one refl

-- {"a": 1, "a": "h"}
abbrev two : List (List ℕ × Value)
two = (a, v_int32 1) ∷ (a, v_utf8 (b'h' ∷ [])) ∷ []

a-NoNul : NoNul a
a-NoNul = (omega arith, tt)

two-AllFit : AllFit two
two-AllFit = ((a-NoNul, omega arith), ((a-NoNul, omega arith), tt))

-- One ASCII letter is text.
letter-IsUtf8 : (allow_null : Bool) (c : ℕ) → 0 < c → c < 128 → IsUtf8 allow_null (c ∷ [])
unfolding from_unichar
letter-IsUtf8 allow_null c pos low = (
  (omega (arith, low), tt),
  omega arith,
  WellFormed.scalar c [] (c ∷ []) (inl (omega (arith, low))) (λ e. absurd (omega (arith, e, pos)))
      encoded WellFormed.empty,
)
  where
    encoded : c ∷ [] ≡ from_unichar c ++ []
    encoded = ground (arith, low)

two-IsText : All IsText two
two-IsText = (
  (letter-IsUtf8 false b'a' (omega arith) (omega arith), tt),
  (
    (
      letter-IsUtf8 false b'a' (omega arith) (omega arith),
      letter-IsUtf8 true b'h' (omega arith) (omega arith),
    ),
    tt,
  ),
)

two-small : document_size two < 2 ^ 31
unfolding le_bytes encode
two-small = omega arith

-- The calls are counted, and none stops.
abbrev counting : Plain ℕ
counting = record {
  before = λ key s. (s + 1, false);
  after = λ key s. (s + 1, false);
  visit = λ key v s. (s + 1, false);
}

visit_all-in_order_example :
    (it : Iter) × (visit_all ℕ
        (visitor_of counting)
        3
        (fresh (document_bytes two ++ []) (document_size two))
        0
      ≡ done ((in_order counting two 0).0, it, (in_order counting two 0).1))
visit_all-in_order_example =
    visit_all-in_order ℕ counting 3 two [] 0 two-AllFit two-IsText two-small (omega arith)

-- An element whose key is empty, with eight bytes of data, and an iterator at it.
abbrev at_type : ℕ → Iter
at_type t = record (fresh (t ∷ 0 ∷ zeros 8) 10) { type = 0; d1 = 2 }

at_int32 : IsAt (at_type 16) int32 4
unfolding to_byte repeated
at_int32 = record {
  raw = 16 ∷ 0 ∷ zeros 8;
  memory = refl;
  type_byte = refl;
  before = omega arith;
  room = omega arith;
}

at_int64 : IsAt (at_type 18) int64 8
unfolding to_byte repeated
at_int64 = record {
  raw = 18 ∷ 0 ∷ zeros 8;
  memory = refl;
  type_byte = refl;
  before = omega arith;
  room = omega arith;
}

at_double : IsAt (at_type 1) double 8
unfolding to_byte repeated
at_double = record {
  raw = 1 ∷ 0 ∷ zeros 8;
  memory = refl;
  type_byte = refl;
  before = omega arith;
  room = omega arith;
}

at_bool : IsAt (at_type 8) bool 1
unfolding to_byte repeated
at_bool = record {
  raw = 8 ∷ 0 ∷ zeros 8;
  memory = refl;
  type_byte = refl;
  before = omega arith;
  room = omega arith;
}

overwrite_scalars_example :
    (overwrite_int32 (at_type 16) 7 ≡ done (after (at_type 16) (le_bytes 4 7) at_int32.raw))
    × (read_int32 (after (at_type 16) (le_bytes 4 7) at_int32.raw) ≡ some 7)
    × (overwrite_int64 (at_type 18) 8 ≡ done (after (at_type 18) (le_bytes 8 8) at_int64.raw))
    × (read_int64 (after (at_type 18) (le_bytes 8 8) at_int64.raw) ≡ some 8)
    × (overwrite_double (at_type 1) 9 ≡ done (after (at_type 1) (le_bytes 8 9) at_double.raw))
    × (read_double (after (at_type 1) (le_bytes 8 9) at_double.raw) ≡ some 9)
    × (overwrite_bool (at_type 8) true ≡ done (after (at_type 8) (1 ∷ []) at_bool.raw))
    × (read_bool (after (at_type 8) (1 ∷ []) at_bool.raw) ≡ some true)
overwrite_scalars_example =
    overwrite_scalars (at_type 16) (at_type 18) (at_type 1) (at_type 8) 7 8 9 true at_int32 at_int64
      at_double at_bool (omega arith) (omega arith) (omega arith)

-- {"a": 1}, and {"a": 1, "a": "h"} in memory of its own.
abbrev one : List (List ℕ × Value)
one = (a, v_int32 1) ∷ []

abbrev body_of : List (List ℕ × Value) → List ℕ
body_of elements = le_bytes 4 (document_size elements) ++ encode_all elements

one-Represents : Represents (inline_document (body_of one)) [] one
unfolding le_bytes encode
one-Represents = record {
  rest = zeros (119 - length (body_of one));
  layout = inline_document-Layout (body_of one);
  is_open = inline_document-IsOpen (body_of one) (omega arith) (omega arith);
}

two-Represents : Represents (inline_document (body_of two)) [] two
unfolding le_bytes encode
two-Represents = record {
  rest = zeros (119 - length (body_of two));
  layout = inline_document-Layout (body_of two);
  is_open = inline_document-IsOpen (body_of two) (omega arith) (omega arith);
}

two-elements : length (encode_all two) < 2 ^ 31
unfolding le_bytes encode
two-elements = omega arith

concat_documents-Represents_example :
    Concatenated zeroing
      (inline_document (body_of one))
      (inline_document (body_of two))
      []
      (one ++ two)
concat_documents-Represents_example =
    concat_documents-Represents zeroing (inline_document (body_of one))
      (inline_document (body_of two)) [] [] one two one-Represents two-Represents two-elements
