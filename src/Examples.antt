-- ===== src/Examples.antt =====
-- Concrete inputs to the theorems of this library.
mod Copies
mod Decimals
mod Documents
mod Streams
mod Validation
use libbson.Base.Words.{le_bytes}
use libbson.Base.{
  ℕ, zero, suc, ◌+◌, ◌-◌, ◌*◌, ◌/◌, ◌%◌, ◌^◌, ◌≤◌, ◌<◌, ◌≡◌, ◌≢◌, ◌⊎◌, inr, ◌↔◌, refl, ap, Bool,
  true, false, none, some, List, [], ◌∷◌, ◌++◌, length, take, length-append, arith, All,
}
use libbson.Utf8.{get_char, next_char, from_unichar, validate}
use libbson.Utf8.Codec.{get_char-from_unichar, get_char-six_bytes}
use libbson.Utf8.Validate.{WellFormed, validate-WellFormed}
use libbson.Iter.Next.{Next, fresh, next_internal}
use libbson.Iter.Next.Safe.{IsValid, Outcome, next_internal-Outcome}
use libbson.Types.{
  double, utf8, document, array, binary, oid, bool, date_time, null, dbpointer, code, symbol,
  codewscope, int32, int64, decimal128,
}
use libbson.Bson.Append.{
  append_double, append_int32, append_int64, append_date_time, append_decimal128, append_bool,
  append_oid, append_null, append_utf8, append_symbol, append_code, append_dbpointer, append_binary,
  append_document, append_array, append_code_with_scope,
}
use libbson.Format.{element, text, binary_data}
use libbson.Bson.Append.Elements.{
  Appends, append_scalars, append_texts, append_binary-Appends, append_documents,
}
use libbson.Bson.Append.Regex.{append_regex-fault}
use libbson.Run.{Run, done, fault, aborted}
use libbson.Bson.{Allocator, Bson, append, grow, has_first}
use libbson.Bson.Append.{
  contents, keyed, append_regex, regex_options_sorted, sort_options, has_byte,
}
use libbson.Bson.Grow.{Layout, IsOpen, Grown, grow_step}
use libbson.Bson.Content.{concat, Answered, append_step}

get_char-from_unichar_example :
    (get_char (from_unichar 0x20ac ++ (b'a' ∷ [])) ≡ some 0x20ac)
    × (next_char (from_unichar 0x20ac ++ (b'a' ∷ [])) ≡ some (b'a' ∷ []))
get_char-from_unichar_example = get_char-from_unichar 0x20ac (b'a' ∷ []) (omega arith)

get_char-six_bytes_example :
    (get_char (from_unichar 0x4000000 ++ []) ≡ some (0x4000000 / 128 * 64 + 0x4000000 % 2))
    × (get_char (from_unichar 0x4000000 ++ []) ≢ some 0x4000000)
get_char-six_bytes_example = get_char-six_bytes 0x4000000 [] (omega arith) (omega arith)

-- "a€"
abbrev euro : List ℕ
euro = b'a' ∷ 0xe2 ∷ 0x82 ∷ 0xac ∷ []

validate-WellFormed_example :
    (r : Bool) × (validate euro (length euro) false ≡ some r) × ((r ≡ true) ↔ WellFormed false euro)
validate-WellFormed_example =
    validate-WellFormed euro false (omega arith, (omega arith, (omega arith, (omega arith, tt))))
      (omega arith)

-- {"a": 1}
abbrev pub a_is_one : List ℕ
a_is_one = 12 ∷ 0 ∷ 0 ∷ 0 ∷ 16 ∷ b'a' ∷ 0 ∷ 1 ∷ 0 ∷ 0 ∷ 0 ∷ 0 ∷ []

pub a_is_one-IsByte : All (λ b. b < 256) a_is_one
a_is_one-IsByte = (
  omega arith,
  (
    omega arith,
    (
      omega arith,
      (
        omega arith,
        (
          omega arith,
          (
            omega arith,
            (
              omega arith,
              (omega arith, (omega arith, (omega arith, (omega arith, (omega arith, tt))))),
            ),
          ),
        ),
      ),
    ),
  ),
)

at_a-IsValid : IsValid a_is_one (fresh a_is_one 12)
at_a-IsValid = record {
  at = refl;
  bytes = a_is_one-IsByte;
  fits = omega arith;
  small = omega arith;
  header = omega arith;
  inside = omega arith;
}

next_internal-Outcome_example :
    (n : Next) × (next_internal (fresh a_is_one 12) ≡ some n)
    × Outcome a_is_one (fresh a_is_one 12) n
next_internal-Outcome_example =
    next_internal-Outcome a_is_one (fresh a_is_one 12) at_a-IsValid (inr (λ e. ground arith))

unfoldable pub repeated : ℕ → ℕ → List ℕ
repeated x zero = []
repeated x (suc n) = x ∷ repeated x n

pub length-repeated : (x n : ℕ) → length (repeated x n) ≡ n
unfolding repeated
length-repeated x zero = refl
length-repeated x (suc n) = omega (arith, length-repeated x n)

abbrev pub zeros : ℕ → List ℕ
zeros = repeated 0

pub length-zeros : (n : ℕ) → length (zeros n) ≡ n
length-zeros = length-repeated 0

pub resize : List ℕ → ℕ → List ℕ
resize buf zero = []
resize [] (suc n) = 0 ∷ resize [] n
resize (x ∷ xs) (suc n) = x ∷ resize xs n

pub length-resize : (buf : List ℕ) (n : ℕ) → length (resize buf n) ≡ n
unfolding resize
length-resize buf zero = refl
length-resize [] (suc n) = omega (arith, length-resize [] n)
length-resize (x ∷ xs) (suc n) = omega (arith, length-resize xs n)

pub take-resize : (buf : List ℕ) (n : ℕ) → length buf ≤ n → take (length buf) (resize buf n) ≡ buf
unfolding resize
take-resize [] n h = refl
take-resize (x ∷ xs) zero h = absurd (omega arith)
take-resize (x ∷ xs) (suc n) h = ap (λ t. x ∷ t) (take-resize xs n (omega arith))

-- An allocator whose new memory comes as zeros.
abbrev pub zeroing : Allocator
zeroing = record {
  malloc = zeros;
  realloc = resize;
  length-malloc = length-zeros;
  length-realloc = length-resize;
  take-realloc = take-resize;
}

-- An inline document of the bytes `body`, then the last one, in its 120.
abbrev pub inline_document : List ℕ → Bson
inline_document body = record {
  is_inline = true;
  is_rdonly = false;
  is_child = false;
  in_child = false;
  len = suc (length body);
  depth = 0;
  offset = 0;
  buf = body ++ (0 ∷ zeros (119 - length body));
  can_realloc = false;
}

pub inline_document-Layout :
    (body : List ℕ) → Layout (inline_document body) [] body (zeros (119 - length body))
inline_document-Layout body = record { split = refl; at = refl; size = refl }

inline_document-length :
    (body : List ℕ) → length body ≤ 119 → length (inline_document body).buf ≡ 120
inline_document-length body h =
    omega
      (arith, length-append body (0 ∷ zeros (119 - length body)), length-zeros (119 - length body))

pub inline_document-IsOpen :
    (body : List ℕ) → 4 ≤ length body → length body ≤ 119 → IsOpen (inline_document body)
inline_document-IsOpen body lo hi = record {
  writable = refl;
  no_child = refl;
  header = omega arith;
  room = omega (arith, inline_document-length body hi);
  small = omega (arith, inline_document-length body hi);
  inline_size = λ e. inline_document-length body hi;
  inline_at = λ e. (refl, refl);
}

abbrev pub empty_body : List ℕ
empty_body = 5 ∷ 0 ∷ 0 ∷ 0 ∷ []

pub empty-Layout : Layout (inline_document empty_body) [] empty_body (zeros 115)
empty-Layout = inline_document-Layout empty_body

pub empty-IsOpen : IsOpen (inline_document empty_body)
empty-IsOpen = inline_document-IsOpen empty_body (omega arith) (omega arith)

abbrev pub empty : Bson
empty = inline_document empty_body

grow_step_example :
    ((b' : Bson) × (grow zeroing empty 200 ≡ done (b', true)) × Grown empty b' 200 [] empty_body)
    ⊎ (grow zeroing empty 200 ≡ done (empty, false))
grow_step_example =
    grow_step zeroing empty 200 [] empty_body (zeros 115) empty-Layout empty-IsOpen (omega arith)

abbrev pub a : List ℕ
a = b'a' ∷ []

abbrev a_pairs : List (List ℕ)
a_pairs = keyed int32 a ((1 ∷ 0 ∷ 0 ∷ 0 ∷ []) ∷ [])

append_step_example :
    ((has_first a_pairs ≡ true)
      × Answered zeroing empty
          (append zeroing empty (length (concat a_pairs)) a_pairs)
          []
          empty_body
          (concat a_pairs))
    ⊎ ((has_first a_pairs ≡ false)
        × (append zeroing empty (length (concat a_pairs)) a_pairs ≡ aborted))
append_step_example =
    append_step zeroing empty [] empty_body (zeros 115) a_pairs empty-Layout empty-IsOpen
      (omega arith)

abbrev pub Added : Run (Bson × Bool) → List ℕ → Type 0
Added = Appends zeroing empty [] empty_body (zeros 115) a

abbrev pub an_id : List ℕ
an_id = 1 ∷ 2 ∷ 3 ∷ 4 ∷ 5 ∷ 6 ∷ 7 ∷ 8 ∷ 9 ∷ 10 ∷ 11 ∷ 12 ∷ []

append_scalars_example :
    Added (append_double zeroing empty a 7) (element double a (le_bytes 8 7))
    × Added (append_int32 zeroing empty a 7) (element int32 a (le_bytes 4 7))
    × Added (append_int64 zeroing empty a 7) (element int64 a (le_bytes 8 7))
    × Added (append_date_time zeroing empty a 7) (element date_time a (le_bytes 8 7))
    × Added
        (append_decimal128 zeroing empty a 7 8)
        (element decimal128 a (le_bytes 8 7 ++ le_bytes 8 8))
    × Added (append_bool zeroing empty a true) (element bool a (1 ∷ []))
    × Added (append_oid zeroing empty a an_id) (element oid a an_id)
    × Added (append_null zeroing empty a) (element null a [])
append_scalars_example =
    append_scalars zeroing empty [] empty_body (zeros 115) a 7 8 an_id true empty-Layout
      empty-IsOpen refl (omega arith)

append_texts_example :
    Added (append_utf8 zeroing empty a (some euro)) (element utf8 a (text euro))
    × Added (append_symbol zeroing empty a (some euro)) (element symbol a (text euro))
    × Added (append_code zeroing empty a euro) (element code a (text euro))
    × Added (append_dbpointer zeroing empty a euro an_id) (element dbpointer a (text euro ++ an_id))
    × Added (append_utf8 zeroing empty a none) (element null a [])
    × Added (append_symbol zeroing empty a none) (element null a [])
append_texts_example =
    append_texts zeroing empty [] empty_body (zeros 115) a euro an_id empty-Layout empty-IsOpen refl
      (omega arith)

append_binary-Appends_example :
    Added (append_binary zeroing empty a 2 an_id) (element binary a (binary_data 2 an_id))
append_binary-Appends_example =
    append_binary-Appends zeroing empty [] empty_body (zeros 115) a 2 an_id empty-Layout
      empty-IsOpen (omega arith) (omega arith)

append_documents_example :
    Added (append_document zeroing empty a empty) (element document a (contents empty))
    × Added (append_array zeroing empty a empty) (element array a (contents empty))
    × Added (append_code_with_scope zeroing empty a euro (some empty)) (
        element codewscope a
          (le_bytes 4 (length euro + empty.len + 9) ++ (text euro ++ contents empty)))
    × Added (append_code_with_scope zeroing empty a euro none) (element code a (text euro))
append_documents_example =
    append_documents zeroing empty [] empty_body (zeros 115) a empty euro empty-Layout empty-IsOpen
      refl (omega arith)

-- {"s": "xx…x"}, of 116 bytes
abbrev almost_full : List ℕ
almost_full = 116 ∷ 0 ∷ 0 ∷ 0 ∷ element utf8 (b's' ∷ []) (text (repeated b'x' 103))

append_regex-fault_example : append_regex zeroing (inline_document almost_full) a [] [] ≡ fault
unfolding regex_options_sorted sort_options has_byte le_bytes repeated
append_regex-fault_example =
    append_regex-fault zeroing (inline_document almost_full) [] almost_full
      (zeros (119 - length almost_full)) a [] [] (inline_document-Layout almost_full)
      (inline_document-IsOpen almost_full (omega arith) (omega arith)) refl (omega arith) refl
