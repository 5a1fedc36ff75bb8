-- ===== src/Examples/Documents.antt =====
-- Concrete documents, object ids and buffers for the theorems on whole documents.
use libbson.Base.{
  get_elem?, ◌-◌, ℕ, zero, suc, ◌^◌, ◌<◌, ◌≡◌, ap, sym, ◌↔◌, ◌∙◌, refl, true, false, none, some,
  List, [], ◌∷◌, ◌++◌, length, All, arith,
}
use libbson.Base.Words.{le_bytes, IsByte}
use libbson.Types.{date_time, to_byte}
use libbson.Format.{
  Value, value_type, v_int32, v_utf8, encode, AllFit, document_bytes, document_size, NoNul,
}
use libbson.Run.{done}
use libbson.Iter.{Iter}
use libbson.Iter.Next.{fresh, init, next}
use libbson.Iter.Element.Walk.{InFront, Decoded, step_over, Yields, init-Yields}
use libbson.Base.Memory.{slice, le_value}
use libbson.Iter.Read.{read_le, read_time_t, read_timeval}
use libbson.Iter.Read.Date.{time_t_iff}
use libbson.Iter.Find.{count_keys, init_find}
use libbson.Iter.Find.Count.{count_keys-ends, count_keys-length}
use libbson.Iter.Find.Search.{Search, init_find-Search}
use libbson.Bson.{Bson}
use libbson.Bson.Document.{Represents}
use libbson.Oid.{init_from_string, to_string, is_valid, all_hex, is_hex_char, compare, equal}
use libbson.Oid.Hex.{init_from_string-to_string, to_string-init_from_string, lowered}
use libbson.Oid.Order.{Ordered, compare-Ordered, equal_iff}
use libbson.Writer.{Writer, end, rollback, get_length, grow_len, turns, fresh_document}
use libbson.Writer.Room.{Enough, grow_len_fits, grow_len-Enough}
use libbson.Writer.Sequence.{Written, UnderWay, Begun, begin-Begun, fresh-Represents}
use libbson.Writer.Finish.{end-Written, rollback-Written}
use libbson.Examples.{
  a, a_is_one, a_is_one-IsByte, an_id, repeated, length-repeated, zeros, zeroing, empty,
  empty-Layout, empty-IsOpen,
}

a-NoNul : NoNul a
a-NoNul = (omega arith, tt)

in_front : InFront a_is_one (fresh a_is_one 12) a (v_int32 1)
unfolding le_bytes encode to_byte value_type
in_front = record {
  memory = refl;
  header = omega arith;
  small = omega arith;
  inside = omega arith;
  holds = record { back = 0 ∷ []; inside = omega arith; found = refl };
  no_nul = a-NoNul;
  fit = omega arith;
}

step_over_example :
    (it : Iter) × (next (fresh a_is_one 12) ≡ some (it, true))
    × Decoded a_is_one (fresh a_is_one 12) it a (v_int32 1)
step_over_example = step_over a_is_one (fresh a_is_one 12) a (v_int32 1) in_front

-- {"a": 1, "a": "hi"}
abbrev two : List (List ℕ × Value)
two = (a, v_int32 1) ∷ (a, v_utf8 (b'h' ∷ b'i' ∷ [])) ∷ []

two-AllFit : AllFit two
two-AllFit = ((a-NoNul, omega arith), ((a-NoNul, omega arith), tt))

two-small : document_size two < 2 ^ 31
unfolding le_bytes encode
two-small = omega arith

init-Yields_example :
    (init (document_bytes two ++ []) (document_size two)
      ≡ (fresh (document_bytes two ++ []) (document_size two), true))
    × Yields (fresh (document_bytes two ++ []) (document_size two)) two
init-Yields_example = init-Yields two [] two-AllFit two-small

count_keys-ends_example : (n : ℕ) × (count_keys a_is_one 8 ≡ some n)
count_keys-ends_example = count_keys-ends a_is_one 8 a_is_one-IsByte (omega arith) (omega arith)

count_keys-length_example : count_keys (document_bytes two ++ []) (document_size two) ≡ some 2
count_keys-length_example = count_keys-length two [] two-AllFit two-small

init_find-Search_example : Search a two (init_find (document_bytes two ++ []) (document_size two) a)
init_find-Search_example = init_find-Search two [] a two-AllFit two-small

pub empty-Represents : Represents empty [] []
unfolding le_bytes
empty-Represents = record { rest = zeros 115; layout = empty-Layout; is_open = empty-IsOpen }

an_id-IsByte : All IsByte an_id
an_id-IsByte = (
  omega arith,
  (
    omega arith,
    (
      omega arith,
      (
        omega arith,
        (
          omega arith,
          (
            omega arith,
            (
              omega arith,
              (omega arith, (omega arith, (omega arith, (omega arith, (omega arith, tt))))),
            ),
          ),
        ),
      ),
    ),
  ),
)

init_from_string-to_string_example :
    (init_from_string (to_string an_id) ≡ some an_id) × (is_valid (to_string an_id) ≡ true)
init_from_string-to_string_example = init_from_string-to_string an_id an_id-IsByte refl

-- 24 letters "A"
abbrev letters : List ℕ
letters = repeated b'A' 24

repeated-IsByte : (x n : ℕ) → IsByte x → All IsByte (repeated x n)
unfolding repeated
repeated-IsByte x zero h = tt
repeated-IsByte x (suc n) h = (h, repeated-IsByte x n h)

letters-valid : is_valid letters ≡ true
unfolding is_valid all_hex repeated is_hex_char
letters-valid = refl

to_string-init_from_string_example :
    (oid : List ℕ) × (init_from_string letters ≡ some oid)
    × (to_string oid ≡ lowered letters)
    × All IsByte oid
    × (length oid ≡ 12)
to_string-init_from_string_example =
    to_string-init_from_string letters (repeated-IsByte b'A' 24 (omega arith))
      (length-repeated b'A' 24) letters-valid

abbrev nines : List ℕ
nines = repeated 9 12

nines-IsByte : All IsByte nines
nines-IsByte = repeated-IsByte 9 12 (omega arith)

compare-Ordered_example : Ordered (compare an_id nines) an_id nines
compare-Ordered_example =
    compare-Ordered an_id nines an_id-IsByte nines-IsByte (sym (length-repeated 9 12))

equal_iff_example : (equal an_id nines ≡ true) ↔ (an_id ≡ nines)
equal_iff_example = equal_iff an_id nines an_id-IsByte nines-IsByte (sym (length-repeated 9 12))

grow_len-Enough_example : (n : ℕ) × (grow_len turns 1000 0 ≡ some n) × Enough 1000 0 n
grow_len-Enough_example = grow_len-Enough 1000 0 (omega arith)

-- A writer on 100 bytes, before a first document.
abbrev a_writer : Writer
a_writer = record {
  ready = true;
  buf = repeated 7 100;
  offset = 0;
  can_realloc = true;
  document = none;
}

a_writer-Written : Written a_writer []
a_writer-Written = record {
  is_ready = refl;
  none_open = refl;
  written = refl;
  within = omega arith;
}

room : grow_len turns 5 (length (repeated 7 100)) ≡ some 100
room = ap (grow_len turns 5) (length-repeated 7 100) ∙ grow_len_fits 65 5 100 (omega arith)

begin-Begun_example : Begun zeroing a_writer [] 100
begin-Begun_example =
    begin-Begun zeroing a_writer [] 100 a_writer-Written (omega arith)
      (omega (arith, length-repeated 7 100)) room

-- The writer past `begin`.
abbrev a_busy_writer : Writer
a_busy_writer = record a_writer {
  ready = false;
  document = some (fresh_document a_writer (5 ∷ 0 ∷ 0 ∷ 0 ∷ 0 ∷ 0 ∷ repeated 7 94));
}

a_busy_writer-UnderWay : UnderWay a_busy_writer [] []
unfolding fresh_document le_bytes
a_busy_writer-UnderWay = record {
  not_ready = refl;
  bson = fresh_document a_writer (5 ∷ 0 ∷ 0 ∷ 0 ∷ 0 ∷ 0 ∷ repeated 7 94);
  is_open = refl;
  represents =
      fresh-Represents a_writer [] (repeated 7 94) refl (omega (arith, length-repeated 7 94));
  at = refl;
}

end-Written_example :
    (w : Writer) × (end a_busy_writer ≡ done w)
    × Written w (document_bytes [] ∷ [])
    × (get_length w ≡ get_length a_busy_writer)
end-Written_example = end-Written a_busy_writer [] [] a_busy_writer-UnderWay

rollback-Written_example :
    Written (rollback a_busy_writer) [] × (get_length (rollback a_busy_writer) ≡ 0)
rollback-Written_example = rollback-Written a_busy_writer [] [] a_busy_writer-UnderWay

-- The element of a date, one millisecond before 1970.
abbrev before_1970 : List ℕ
before_1970 = 9 ∷ b'd' ∷ 0 ∷ 255 ∷ 255 ∷ 255 ∷ 255 ∷ 255 ∷ 255 ∷ 255 ∷ 255 ∷ []

abbrev at_date : Iter
at_date = record (fresh before_1970 11) { type = 0; d1 = 3 }

at_date-type : get_elem? before_1970 at_date.type ≡ some (to_byte date_time)
unfolding to_byte
at_date-type = refl

at_date-read : read_le 8 at_date.d1 before_1970 ≡ some (2 ^ 64 - 1)
unfolding slice le_value
at_date-read = refl

time_t_iff_example :
    (t : ℕ) × (tv : ℕ × ℕ) × (read_time_t at_date ≡ some t)
    × (read_timeval at_date ≡ some tv)
    × ((t ≡ tv.0) ↔ (2 ^ 64 - 1 < 2 ^ 63))
time_t_iff_example =
    time_t_iff before_1970 at_date (2 ^ 64 - 1) refl at_date-type at_date-read (omega arith)
