-- ===== src/Examples/Validation.antt =====
-- Concrete nested documents for the theorems on `bson_validate`.
use libbson.Base.{ℕ, ◌^◌, ◌<◌, ◌≡◌, refl, true, false, Option, some, [], ◌∷◌, arith}
use libbson.Format.{v_utf8, v_int32, v_null, document_bytes, document_size, encode}
use libbson.Base.Words.{le_bytes}
use libbson.Run.{done}
use libbson.Utf8.Validate.{lone_ff}
use libbson.Bson.{Bson}
use libbson.Iter.Visit.{is_valid_key}
use libbson.Bson.Value.{static_document}
use libbson.Bson.Document.{static-contents}
use libbson.Bson.Validate.{top, check_utf8, bson_validate, bson_validate_with_error}
use libbson.Bson.Validate.Spec.{
  Elements, end, plain, nested, scoped, to_elements, nesting, past_key, past_tests, accepts,
}
use libbson.Bson.Validate.Built.{IsBuilt, length-document_bytes}
use libbson.Bson.Validate.Accept.{bson_validate-accepts, bson_validate-ill_formed}

-- A document, and behind it code with a scope, and a null.
abbrev three : Elements
three = nested false [] (plain [] (v_int32 1) end) (scoped [] [] end (plain [] v_null end))

abbrev opened_as : Elements → Bson
opened_as elements = static_document (document_bytes (to_elements elements))

small_three : document_size (to_elements three) < 2 ^ 31
unfolding to_elements encode le_bytes
small_three = omega arith

three-IsBuilt : IsBuilt three
unfolding to_elements encode le_bytes
three-IsBuilt = (
  (tt, (tt, omega arith)),
  omega arith,
  ((tt, (tt, omega arith)), (omega arith, tt, refl), tt),
  (
    (tt, (tt, omega arith)),
    (tt, (tt, omega arith), omega arith),
    omega arith,
    tt,
    ((tt, (tt, omega arith)), (tt, tt, refl), tt),
  ),
)

three_deep : nesting three < 2
unfolding nesting
three_deep = omega arith

bson_validate-accepts_example :
    ((offset : Option ℕ) × (bson_validate 2 31 (opened_as three) ≡ done (accepts 31 three, offset)))
    × ((error : Option (Option ℕ)) × (bson_validate_with_error 2 31 (opened_as three)
          ≡ done (accepts 31 three, error)))
bson_validate-accepts_example =
    bson_validate-accepts 2 31 three (opened_as three) three-IsBuilt three_deep
      (static-contents (document_bytes (to_elements three)))
      (length-document_bytes (to_elements three)) small_three

-- A string of the byte 0xff under the flag that asks for UTF-8.
abbrev ill : Elements
ill = plain [] (v_utf8 (0xff ∷ [])) end

ill-IsBuilt : IsBuilt ill
ill-IsBuilt = (((tt, (tt, omega arith))), (omega arith, ((omega arith, tt), omega arith), refl), tt)

ill_deep : nesting end < 1
unfolding nesting
ill_deep = omega arith

ill_passes : past_key check_utf8 top [] ≡ some top
unfolding past_key past_tests is_valid_key
ill_passes = refl

small_ill : document_size (to_elements ill) < 2 ^ 31
unfolding to_elements encode le_bytes
small_ill = omega arith

bson_validate-ill_formed_example :
    (offset : Option ℕ) × (bson_validate 1 check_utf8 (opened_as ill) ≡ done (true, offset))
bson_validate-ill_formed_example =
    bson_validate-ill_formed 1 check_utf8 [] (0xff ∷ []) end (opened_as ill) top ill-IsBuilt lone_ff
      ill_passes refl ill_deep (static-contents (document_bytes (to_elements ill)))
      (length-document_bytes (to_elements ill)) small_ill
