-- ===== src/Bson/Validate.antt =====
-- src/bson/bson.c: `bson_validate`, a visit of the document whose functions visit the documents in
-- it. The messages of the errors are left out; a code is the flag that was violated. The documents
-- inside a document are taken by themselves: a read past one is a fault, where the source would
-- read on in the document around it.
pub mod Accept
pub mod Built
pub mod Element
pub mod Judge
pub mod Nested
pub mod Rules
pub mod Same
pub mod Spec
use libbson.Base.{
  ℕ, zero, suc, ◌+◌, Bool, true, false, not, ◌&&◌, Option, none, some, List, [], ◌∷◌, length, ◌==◌,
  bit_and, if◌then◌else◌,
}
use libbson.Types.{
  BsonType, eod, double, utf8, document, array, binary, undefined, oid, bool, date_time, null,
  regex, dbpointer, code, symbol, codewscope, int32, timestamp, int64, decimal128, maxkey, minkey,
}
use libbson.Format.{Value, v_utf8, v_document, v_array, v_codewscope}
use libbson.Run.{Run, done, aborted, fault, load, ◌>>=◌}
use libbson.Utf8.{validate}
use libbson.Bson.{Bson}
use libbson.Bson.Append.{contents, has_byte}
use libbson.Bson.Value.{init_static}
use libbson.Iter.{Iter}
use libbson.Iter.Next.{init}
use libbson.Iter.Visit.{Visitor, visit_all}

-- `bson_validate_phase_t`
pub data Phase : Type 0 where
  start top lf_ref_key lf_ref_utf8 lf_id_key lf_db_key lf_db_utf8 not_dbref : Phase

-- `bson_validate_flags_t`
abbrev pub has_flag : ℕ → ℕ → Bool
has_flag flags flag = not (bit_and flags flag == 0)

abbrev pub check_utf8 : ℕ
check_utf8 = 1

abbrev pub check_dollar_keys : ℕ
check_dollar_keys = 2

abbrev pub check_dot_keys : ℕ
check_dot_keys = 4

abbrev pub allow_nulls : ℕ
allow_nulls = 8

abbrev pub check_empty_keys : ℕ
check_empty_keys = 16

-- `bson_validate_state_t`: `err_offset` is `none` for -1, `error` is `none` for no error.
pub record ValidateState : Type 0 where
  pub flags : ℕ
  pub err_offset : Option ℕ
  pub phase : Phase
  pub error : Option ℕ

-- `err_offset` and VALIDATION_ERR
abbrev pub fails_at : ℕ → ℕ → ValidateState → ValidateState
fails_at at flag st = record st { err_offset = some at; error = some flag }

-- `strcmp (a, b) == 0`
unfoldable pub is_same : List ℕ → List ℕ → Bool
is_same [] [] = true
is_same [] (y ∷ b) = false
is_same (x ∷ a) [] = false
is_same (x ∷ a) (y ∷ b) = x == y && is_same a b

-- The phase behind a key that begins with `$`, and behind another; `none` is an error.
unfoldable pub dollar_key : Phase → List ℕ → Option Phase
dollar_key lf_ref_key key =
    if is_same key (b'$' ∷ b'r' ∷ b'e' ∷ b'f' ∷ []) then some lf_ref_utf8 else none
dollar_key lf_id_key key = if is_same key (b'$' ∷ b'i' ∷ b'd' ∷ []) then some lf_db_key else none
dollar_key lf_db_key key = if is_same key (b'$' ∷ b'd' ∷ b'b' ∷ []) then some lf_db_utf8 else none
dollar_key other key = none

unfoldable pub other_key : Phase → Option Phase
other_key lf_id_key = none
other_key lf_ref_utf8 = none
other_key lf_db_utf8 = none
other_key phase = some not_dbref

unfoldable pub key_phase : Phase → List ℕ → Option Phase
unfolding dollar_key other_key
key_phase phase [] = other_key phase
key_phase phase (c ∷ key) = if c == b'$' then dollar_key phase (c ∷ key) else other_key phase

abbrev pub is_empty_key : List ℕ → Bool
is_empty_key [] = true
is_empty_key (c ∷ key) = false

-- `_bson_iter_validate_before`: the tests of empty keys, of `$` and of dots.
unfoldable pub validate_dots : Iter → List ℕ → ValidateState → ValidateState × Bool
validate_dots it key st =
    if has_flag st.flags check_dot_keys && has_byte b'.' key
    then (fails_at it.off check_dot_keys st, true)
    else (st, false)

unfoldable pub validate_dollar : Iter → List ℕ → ValidateState → ValidateState × Bool
unfolding validate_dots
validate_dollar it key st = elim (key_phase st.phase key) [
  | none ↦ (fails_at it.off check_dollar_keys st, true)
  | some phase ↦ validate_dots it key (record st { phase = phase })
]

unfoldable pub validate_before : Iter → List ℕ → ValidateState → ValidateState × Bool
unfolding validate_dollar validate_dots
validate_before it key st =
    if has_flag st.flags check_empty_keys && is_empty_key key
    then (fails_at it.off check_empty_keys st, true)
    else if has_flag st.flags check_dollar_keys
    then validate_dollar it key st
    else validate_dots it key st

-- The phase behind a string.
unfoldable pub text_phase : Phase → Phase
text_phase lf_ref_utf8 = lf_id_key
text_phase lf_db_utf8 = not_dbref
text_phase phase = phase

-- `_bson_iter_validate_utf8`
unfoldable pub validate_utf8 : Iter → List ℕ → ValidateState → Run (ValidateState × Bool)
validate_utf8 it s st =
    let st' =
      if has_flag st.flags check_dollar_keys
      then record st { phase = text_phase st.phase }
      else st in
    let judged = (do
      ok ← load (validate s (length s) (has_flag st.flags allow_nulls))
      done (if ok then (st', false) else (fails_at it.off check_utf8 st, true))) in
    if has_flag st.flags check_utf8 then judged else done (st', false)

-- `_bson_iter_validate_corrupt`
abbrev pub validate_corrupt : Iter → ValidateState → ValidateState
validate_corrupt it st = fails_at it.err_off 0 st

-- `_bson_validate_internal`, given `_bson_iter_validate_document`.
unfoldable pub validate_internal :
    (Iter → Bson → ValidateState → Run (ValidateState × Bool)) → ℕ → Bson → Run ValidateState
validate_internal visit flags b =
    let (it, ok) = init (contents b) b.len in
    let st : ValidateState = record {
      flags = flags;
      err_offset = none;
      phase = start;
      error = none;
    } in
    let visited = (do (st', stop) ← visit it b st; done st') in
    if ok then visited else done (fails_at 0 0 st)

-- What `bson_validate` answers, and what it writes to `*offset`.
abbrev pub validated : ValidateState → Bool × Option ℕ
validated st = elim st.err_offset [
  | none ↦ (true, none)
  | some at ↦ (false, if at == 0 then none else some at)
]

abbrev pub offset_of : Bool × Option ℕ → ℕ
offset_of (ok, none) = 0
offset_of (ok, some at) = at

-- `_bson_iter_validate_codewscope`: the offset is 0 where it was not written. A scope that is sound
-- stops the visit.
unfoldable pub validate_codewscope :
    (Iter → Bson → ValidateState → Run (ValidateState × Bool))
    → Iter
    → Bson
    → ValidateState
    → Run (ValidateState × Bool)
unfolding validate_internal
validate_codewscope visit it scope st = do
  inner ← validate_internal visit st.flags scope
  done (
      if (validated inner).0
      then (st, true)
      else (fails_at (it.off + offset_of (validated inner)) 0 st, false))

-- The document of a value, which the visit has opened by `bson_init_static`.
unfoldable pub opened :
    List ℕ → ValidateState → (Bson → Run (ValidateState × Bool)) → Run (ValidateState × Bool)
opened d st visit = do
  b ← init_static d
  elim b [ none ↦ done (st, false) | some local ↦ visit local ]

-- A call from inside the visit: a call that has not come back stops it.
abbrev pub came_back : Run (ValidateState × Bool) → Run ValidateState × Bool
came_back (done r) = (done r.0, r.1)
came_back aborted = (aborted, true)
came_back fault = (fault, true)

abbrev pub within :
    (ValidateState → Run (ValidateState × Bool)) → Run ValidateState → Run ValidateState × Bool
within f (done st) = came_back (f st)
within f aborted = (aborted, true)
within f fault = (fault, true)

module _ (visit : Iter → Bson → ValidateState → Run (ValidateState × Bool)) where
  -- The functions of `bson_validate_funcs` on values.
  unfoldable pub validate_value : Iter → Value → ValidateState → Run (ValidateState × Bool)
  unfolding validate_utf8 validate_codewscope opened
  validate_value it (v_utf8 s) st = validate_utf8 it s st
  validate_value it (v_document d) st = opened d st (λ b. visit it b st)
  validate_value it (v_array d) st = opened d st (λ b. visit it b st)
  validate_value it (v_codewscope js scope) st =
      opened scope st (λ b. validate_codewscope visit it b st)
  validate_value it other st = done (st, false)

  abbrev pub visits_type : BsonType → Bool
  visits_type utf8 = true
  visits_type document = true
  visits_type array = true
  visits_type codewscope = true
  visits_type other = false

  -- `bson_validate_funcs`
  abbrev pub validate_funcs : Visitor (Run ValidateState)
  validate_funcs = record {
    visit_before = some (λ it key. within (λ st. done (validate_before it key st)));
    visit_after = none;
    visit_value =
        λ t. if visits_type t then some (λ it key v. within (validate_value it v)) else none;
    visit_corrupt = some (λ it r. do st ← r; done (validate_corrupt it st));
    visit_unsupported_type = none;
  }

-- A DBRef that is not complete.
unfoldable pub is_open : Phase → Bool
is_open lf_id_key = true
is_open lf_ref_utf8 = true
is_open lf_db_utf8 = true
is_open other = false

unfoldable pub phase_inside : Phase → Phase
phase_inside start = top
phase_inside other = lf_ref_key

-- Behind the visit of the elements of a document.
unfoldable pub close_phase : Iter → Phase → ValidateState → ValidateState × Bool
unfolding is_open
close_phase it phase st =
    if is_open st.phase
    then (
      elim st.err_offset [
        | none ↦ record st { err_offset = some it.off }
        | some at ↦ if at == 0 then record st { err_offset = some it.off } else st
      ],
      true,
    )
    else (record st { phase = phase }, false)

-- `_bson_iter_validate_document`, from a depth of nested documents. An element has two bytes at
-- least.
unfoldable pub validate_document : ℕ → Iter → Bson → ValidateState → Run (ValidateState × Bool)
unfolding close_phase phase_inside
validate_document zero it b st = aborted
validate_document (suc depth) it b st =
    let (child, ok) = init (contents b) b.len in
    let visited = (do
      (r, it', stop) ←
          visit_all (Run ValidateState) (validate_funcs (validate_document depth)) (suc b.len) child
            (done (record st { phase = phase_inside st.phase }))
      st' ← r
      done (close_phase it st.phase st')) in
    if ok then visited else done (record st { err_offset = some it.off }, true)

-- `bson_validate`: the result, and what it writes to `*offset`.
unfoldable pub bson_validate : ℕ → ℕ → Bson → Run (Bool × Option ℕ)
unfolding validate_internal validate_document
bson_validate depth flags b = do
  st ← validate_internal (validate_document depth) flags b
  done (validated st)

abbrev pub error_of : ValidateState → Option (Option ℕ)
error_of st = elim (validated st).1 [ none ↦ none | some at ↦ some st.error ]

-- `bson_validate_with_error`: the result, and the code where it is written.
unfoldable pub bson_validate_with_error : ℕ → ℕ → Bson → Run (Bool × Option (Option ℕ))
unfolding validate_internal validate_document
bson_validate_with_error depth flags b = do
  st ← validate_internal (validate_document depth) flags b
  done ((validated st).0, error_of st)
