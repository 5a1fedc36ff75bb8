-- ===== src/Bson/Validate/Judge.antt =====
-- src/bson/bson.c: the functions of `bson_validate_funcs` follow the description of
-- `bson_validate`.
use libbson.Base.{
  ℕ, ◌≡◌, refl, ap, Bool, true, false, not, ◌&&◌, Option, none, some, List, if◌then◌else◌, ◌>>=◌,
}
use mathlib.Core.Path.{subst}
use libbson.Format.{
  Value, v_double, v_utf8, v_document, v_array, v_binary, v_undefined, v_oid, v_bool, v_datetime,
  v_null, v_regex, v_dbpointer, v_code, v_symbol, v_codewscope, v_int32, v_timestamp, v_int64,
  v_decimal128, v_maxkey, v_minkey, value_type,
}
use libbson.Run.{Run, done}
use libbson.Utf8.Validate.{validate-WellFormed}
use libbson.Bson.{Bson}
use libbson.Iter.Visit.{text_of, document_of}
use libbson.Iter.Visit.Calls.{IsBytes, HasBytes, call_value}
use libbson.Bson.Append.{has_byte}
use libbson.Iter.{Iter}
use libbson.Bson.Validate.{
  Phase, ValidateState, has_flag, check_utf8, check_dollar_keys, check_dot_keys, allow_nulls,
  check_empty_keys, fails_at, came_back, text_phase, validate_utf8, validate_funcs, validate_value,
  key_phase, validate_dots, validate_dollar, validate_before, is_empty_key,
}
use libbson.Bson.Validate.Spec.{past_tests, past_value, after_text, is_utf8}
use libbson.Bson.Validate.Rules.{
  key_phase_lem, is_empty_key_lem, has_byte_lem, text_phase_lem, has_flag_lem,
}

-- A state without an error has its phase.
abbrev pub verdict_of : Option ℕ → Phase → Option Phase
verdict_of none phase = some phase
verdict_of (some at) phase = none

abbrev pub verdict : ValidateState → Option Phase
verdict st = verdict_of st.err_offset st.phase

-- A call answers the phase and whether it stops the visit, or an error.
abbrev pub Agrees : ℕ → ValidateState × Bool → Option (Phase × Bool) → Type 0
Agrees flags a none = (a.0.flags ≡ flags) × (verdict a.0 ≡ none)
Agrees flags a (some (phase, stops)) =
    (a.0.flags ≡ flags) × (verdict a.0 ≡ some phase) × (a.1 ≡ stops)

abbrev pub goes_on : Option Phase → Option (Phase × Bool)
goes_on p = p >>= λ phase. some (phase, false)

abbrev pub state : ℕ → Option ℕ → Phase → Option ℕ → ValidateState
state flags at phase error = record { flags = flags; err_offset = at; phase = phase; error = error }

-- The tests of a key, given what they answer.
tests_lem :
    (flags : ℕ) (at : Option ℕ) (phase : Phase) (error : Option ℕ) (e d t : Bool) (k : Option Phase)
    (o : ℕ)
    → Agrees flags
        (if e
          then (fails_at o check_empty_keys (state flags at phase error), true)
          else if d
          then (elim k [
            | none ↦ (fails_at o check_dollar_keys (state flags at phase error), true)
            | some p ↦
                if t
                then (fails_at o check_dot_keys (state flags at p error), true)
                else (state flags at p error, false)
          ])
          else if t
          then (fails_at o check_dot_keys (state flags at phase error), true)
          else (state flags at phase error, false))
        (goes_on (
          verdict_of at phase >>= λ p.
          let behind = if d then k else some phase in
          if e then none else if t then none else behind))
tests_lem flags none phase error true d t k o = (refl, refl)
tests_lem flags (some a) phase error true d t k o = (refl, refl)
tests_lem flags none phase error false true true none o = (refl, refl)
tests_lem flags none phase error false true false none o = (refl, refl)
tests_lem flags (some a) phase error false true t none o = (refl, refl)
tests_lem flags none phase error false true true (some p) o = (refl, refl)
tests_lem flags none phase error false true false (some p) o = (refl, refl, refl)
tests_lem flags (some a) phase error false true true (some p) o = (refl, refl)
tests_lem flags (some a) phase error false true false (some p) o = (refl, refl)
tests_lem flags none phase error false false true k o = (refl, refl)
tests_lem flags none phase error false false false k o = (refl, refl, refl)
tests_lem flags (some a) phase error false false true k o = (refl, refl)
tests_lem flags (some a) phase error false false false k o = (refl, refl)

-- The tests of a key by the functions of the code.
past_tests_lem :
    (flags : ℕ) (phase : Phase) (key : List ℕ)
    → (let behind = if has_flag flags check_dollar_keys then key_phase phase key else some phase in
        if has_flag flags check_empty_keys && is_empty_key key
        then none
        else if has_flag flags check_dot_keys && has_byte b'.' key
        then none
        else behind)
      ≡ past_tests flags phase key
unfolding past_tests
past_tests_lem flags phase key =
    let flag = has_flag_lem flags in
    rw
      (key_phase_lem phase key, is_empty_key_lem key, has_byte_lem b'.' key, flag.1, flag.2, flag.4)
      refl

before_lem :
    (it : Iter) (key : List ℕ) (flags : ℕ) (at : Option ℕ) (phase : Phase) (error : Option ℕ)
    → Agrees flags
        (validate_before it key (state flags at phase error))
        (goes_on (verdict_of at phase >>= λ p. past_tests flags p key))
unfolding validate_before validate_dollar validate_dots
before_lem it key flags none phase error =
    subst (λ x. Agrees flags (validate_before it key (state flags none phase error)) (goes_on x))
      (past_tests_lem flags phase key)
      (tests_lem flags none phase error (has_flag flags check_empty_keys && is_empty_key key)
        (has_flag flags check_dollar_keys) (has_flag flags check_dot_keys && has_byte b'.' key)
        (key_phase phase key) it.off)
before_lem it key flags (some a) phase error =
    tests_lem flags (some a) phase error (has_flag flags check_empty_keys && is_empty_key key)
      (has_flag flags check_dollar_keys) (has_flag flags check_dot_keys && has_byte b'.' key)
      (key_phase phase key) it.off

pub validate_before_lem :
    (it : Iter) (key : List ℕ) (st : ValidateState)
    → Agrees st.flags
        (validate_before it key st)
        (goes_on (verdict st >>= λ phase. past_tests st.flags phase key))
validate_before_lem it key st = before_lem it key st.flags st.err_offset st.phase st.error

-- A call that changes nothing.
passes_lem :
    (flags : ℕ) (at : Option ℕ) (phase : Phase) (error : Option ℕ)
    → Agrees flags
        (state flags at phase error, false)
        (goes_on (verdict_of at phase >>= λ p. some p))
passes_lem flags none phase error = (refl, refl, refl)
passes_lem flags (some a) phase error = (refl, refl)

abbrev text_answer : Iter → ValidateState → Bool → Bool → Bool → ValidateState × Bool
text_answer it st u r d =
    if u && not r
    then (fails_at it.off check_utf8 st, true)
    else (if d then record st { phase = text_phase st.phase } else st, false)

text_run :
    (it : Iter) (st : ValidateState) (u r d : Bool)
    → (if u
        then done (
            if r
            then (if d then record st { phase = text_phase st.phase } else st, false)
            else (fails_at it.off check_utf8 st, true))
        else done (if d then record st { phase = text_phase st.phase } else st, false))
      ≡ done (text_answer it st u r d)
text_run it st true true d = refl
text_run it st true false d = refl
text_run it st false r d = refl

text-Agrees :
    (it : Iter) (flags : ℕ) (at : Option ℕ) (phase : Phase) (error : Option ℕ) (u r d : Bool)
    → Agrees flags (text_answer it (state flags at phase error) u r d) (
        goes_on (
          verdict_of at phase >>= λ p.
          if u && not r then none else some (if d then after_text p else p)))
text-Agrees it flags none phase error true true true = (refl, ap some (text_phase_lem phase), refl)
text-Agrees it flags none phase error true true false = (refl, refl, refl)
text-Agrees it flags none phase error true false d = (refl, refl)
text-Agrees it flags none phase error false r true = (refl, ap some (text_phase_lem phase), refl)
text-Agrees it flags none phase error false r false = (refl, refl, refl)
text-Agrees it flags (some a) phase error true true true = (refl, refl)
text-Agrees it flags (some a) phase error true true false = (refl, refl)
text-Agrees it flags (some a) phase error true false d = (refl, refl)
text-Agrees it flags (some a) phase error false r true = (refl, refl)
text-Agrees it flags (some a) phase error false r false = (refl, refl)

-- The tests of a string by the flags of the code.
past_text_lem :
    (flags : ℕ) (phase : Phase) (s : List ℕ)
    → (if has_flag flags check_utf8 && not (is_utf8 (has_flag flags allow_nulls) s)
        then none
        else some (if has_flag flags check_dollar_keys then after_text phase else phase))
      ≡ past_value flags phase (v_utf8 s)
unfolding past_value
past_text_lem flags phase s = let flag = has_flag_lem flags in rw (flag.0, flag.1, flag.3) refl

utf8_lem :
    (it : Iter) (s : List ℕ) (st : ValidateState)
    → IsBytes s
    → (a : ValidateState × Bool) × (validate_utf8 it s st ≡ done a)
      × Agrees st.flags a (goes_on (verdict st >>= λ p. past_value st.flags p (v_utf8 s)))
unfolding validate_utf8
utf8_lem it s st (bytes, small) =
    let (r, e, exact) = validate-WellFormed s (has_flag st.flags allow_nulls) bytes small in
    let u = has_flag st.flags check_utf8 in
    let d = has_flag st.flags check_dollar_keys in
    (
      text_answer it st u r d,
      rw e (text_run it st u r d),
      subst
          (λ (f : Phase → Option Phase).
            Agrees st.flags (text_answer it st u r d) (goes_on (verdict st >>= f)))
          (λ i p. past_text_lem st.flags p s i)
          (rw e (text-Agrees it st.flags st.err_offset st.phase st.error u r d)),
    )

-- The visit of a value that holds no document.
abbrev pub Passes : (Iter → Bson → ValidateState → Run (ValidateState × Bool)) → Value → Type 0
Passes visit v =
    (it : Iter) (key : List ℕ) (st : ValidateState)
    → (a : ValidateState × Bool) × (call_value (Run ValidateState) (validate_funcs visit) it key v
          (done st)
        ≡ (done a.0, a.1))
      × Agrees st.flags a (goes_on (verdict st >>= λ p. past_value st.flags p v))

module _ (visit : Iter → Bson → ValidateState → Run (ValidateState × Bool)) where
  unmoved :
      (st : ValidateState)
      → (a : ValidateState × Bool) × (◌≡◌ {A = Run ValidateState × Bool}
          (done st, false)
          (done a.0, a.1))
        × Agrees st.flags a (goes_on (verdict st >>= λ p. some p))
  unmoved st = ((st, false), refl, passes_lem st.flags st.err_offset st.phase st.error)

  pub plain_lem : (v : Value) → document_of v ≡ none → HasBytes (text_of v) → Passes visit v
  unfolding value_type past_value validate_value
  plain_lem (v_utf8 s) flat bytes =
      λ it key st. let (a, run, agrees) = utf8_lem it s st bytes in (a, ap came_back run, agrees)
  plain_lem (v_document d) flat bytes = absurd (cc flat)
  plain_lem (v_array d) flat bytes = absurd (cc flat)
  plain_lem (v_codewscope js scope) flat bytes = absurd (cc flat)
  plain_lem (v_double v) flat bytes = λ it key st. unmoved st
  plain_lem (v_binary subtype payload) flat bytes = λ it key st. unmoved st
  plain_lem v_undefined flat bytes = λ it key st. unmoved st
  plain_lem (v_oid id) flat bytes = λ it key st. unmoved st
  plain_lem (v_bool flag) flat bytes = λ it key st. unmoved st
  plain_lem (v_datetime v) flat bytes = λ it key st. unmoved st
  plain_lem v_null flat bytes = λ it key st. unmoved st
  plain_lem (v_regex pattern_ options) flat bytes = λ it key st. unmoved st
  plain_lem (v_dbpointer collection id) flat bytes = λ it key st. unmoved st
  plain_lem (v_code js) flat bytes = λ it key st. unmoved st
  plain_lem (v_symbol s) flat bytes = λ it key st. unmoved st
  plain_lem (v_int32 v) flat bytes = λ it key st. unmoved st
  plain_lem (v_timestamp time increment) flat bytes = λ it key st. unmoved st
  plain_lem (v_int64 v) flat bytes = λ it key st. unmoved st
  plain_lem (v_decimal128 low high) flat bytes = λ it key st. unmoved st
  plain_lem v_maxkey flat bytes = λ it key st. unmoved st
  plain_lem v_minkey flat bytes = λ it key st. unmoved st
