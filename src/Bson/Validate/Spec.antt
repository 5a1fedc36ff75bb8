-- ===== src/Bson/Validate/Spec.antt =====
-- Nested documents as trees, and what `bson_validate` accepts of them.
use libbson.Base.{
  ◌/◌, ◌%◌, ◌==◌, ℕ, suc, Bool, true, false, Option, none, some, List, [], ◌∷◌, length, take, ◌&&◌,
  not, if◌then◌else◌, ◌>>=◌,
}
use Prim.Native.Nat.{max}
use native.Mathlib.Decide.{ℕ_discrete}
use libbson.Base.Texts.{is_text}
use libbson.Format.{Value, v_utf8, v_document, v_array, v_codewscope, document_bytes}
use libbson.Utf8.{validate}
use libbson.Iter.Visit.{is_valid_text, is_valid_key, text_of}
use libbson.Bson.Validate.{
  Phase, start, top, lf_ref_key, lf_ref_utf8, lf_id_key, lf_db_key, lf_db_utf8, not_dbref,
}

-- The elements of a document: a key with a value, a document, an array, or code with a scope.
pub data Elements : Type 0 where
  end : Elements
  plain : List ℕ → Value → Elements → Elements
  nested : Bool → List ℕ → Elements → Elements → Elements
  scoped : List ℕ → List ℕ → Elements → Elements → Elements

unfoldable pub to_elements : Elements → List (List ℕ × Value)
to_elements end = []
to_elements (plain key v rest) = (key, v) ∷ to_elements rest
to_elements (nested is_array key inner rest) =
    (
      key,
      if is_array
          then v_array (document_bytes (to_elements inner))
          else v_document (document_bytes (to_elements inner)),
    )
    ∷ to_elements rest
to_elements (scoped key js scope rest) =
    (key, v_codewscope js (document_bytes (to_elements scope))) ∷ to_elements rest

-- How many documents stand inside one another.
unfoldable pub nesting : Elements → ℕ
nesting end = 0
nesting (plain key v rest) = nesting rest
nesting (nested is_array key inner rest) = max (suc (nesting inner)) (nesting rest)
nesting (scoped key js scope rest) = max (suc (nesting scope)) (nesting rest)

-- UTF-8, as `bson_utf8_validate` answers.
abbrev pub is_yes : Option Bool → Bool
is_yes none = false
is_yes (some b) = b

abbrev pub is_utf8 : Bool → List ℕ → Bool
is_utf8 allow_null s = is_yes (validate s (length s) allow_null)

-- A flag is a power of two, and a bit of the flags: 1 asks for UTF-8, 2 for the rules of `$`, 4 for
-- keys without dots and 16 for keys that are not empty; 8 allows NUL in strings.
abbrev pub is_set : ℕ → ℕ → Bool
is_set flags flag = flags / flag % 2 == 1

-- A DBRef: its keys are `$ref`, `$id` and `$db`, in this order, and the first and the last have
-- strings. What may stand in a phase as the next key, with the phase behind it.
abbrev pub expected : Phase → Option (List ℕ × Phase)
expected lf_ref_key = some (b'$' ∷ b'r' ∷ b'e' ∷ b'f' ∷ [], lf_ref_utf8)
expected lf_id_key = some (b'$' ∷ b'i' ∷ b'd' ∷ [], lf_db_key)
expected lf_db_key = some (b'$' ∷ b'd' ∷ b'b' ∷ [], lf_db_utf8)
expected other = none

-- The string of `$ref`, the key `$id` and the string of `$db` cannot be left out behind what they
-- follow.
abbrev pub is_missing : Phase → Bool
is_missing lf_ref_utf8 = true
is_missing lf_id_key = true
is_missing lf_db_utf8 = true
is_missing other = false

-- A key that begins with `$` has to be the expected one; another makes the document no DBRef.
unfoldable pub after_key : Phase → List ℕ → Option Phase
after_key phase key =
    let part = (do
      (name, behind) ← expected phase
      if is_text key name then some behind else none) in
    if is_text (take 1 key) (b'$' ∷ [])
    then part
    else if is_missing phase
    then none
    else some not_dbref

-- A string is that of `$ref`, that of `$db` or of no DBRef.
abbrev pub after_text : Phase → Phase
after_text lf_ref_utf8 = lf_id_key
after_text lf_db_utf8 = not_dbref
after_text other = other

-- A DBRef stands inside another document.
abbrev pub phase_in : Phase → Phase
phase_in start = top
phase_in other = lf_ref_key

unfoldable pub holds : ℕ → List ℕ → Bool
holds c [] = false
holds c (x ∷ xs) = elim (ℕ_discrete x c) [ yes same ↦ true | no other ↦ holds c xs ]

-- The phase behind a key that the flags let through; every key has to be UTF-8.
unfoldable pub past_tests : ℕ → Phase → List ℕ → Option Phase
past_tests flags phase key =
    let behind = if is_set flags 2 then after_key phase key else some phase in
    if is_set flags 16 && is_text key []
    then none
    else if is_set flags 4 && holds b'.' key
    then none
    else behind

unfoldable pub past_key : ℕ → Phase → List ℕ → Option Phase
unfolding past_tests
past_key flags phase key = if is_yes (is_valid_key key) then past_tests flags phase key else none

-- The phase behind a value that is no document.
unfoldable pub past_value : ℕ → Phase → Value → Option Phase
past_value flags phase (v_utf8 s) =
    if is_set flags 1 && not (is_utf8 (is_set flags 8) s)
    then none
    else some (if is_set flags 2 then after_text phase else phase)
past_value flags phase other = some phase

-- A document is closed in a phase in which no part of a DBRef is missing.
abbrev pub closed : Option Phase → Bool
closed none = false
closed (some phase) = not (is_missing phase)

-- The phase at the end of the visit of the elements, from a phase. The visit ends in front of the
-- end of the elements behind a scope that is accepted, and at a text that is not UTF-8.
unfoldable pub past_elements : ℕ → Elements → Phase → Option Phase
unfolding past_key past_value
past_elements flags end phase = some phase
past_elements flags (plain key v rest) phase =
    let others = λ (p : Phase). past_elements flags rest p in
    do
      phase1 ← past_key flags phase key
      let goes_on = (do phase2 ← past_value flags phase1 v; others phase2)
      if is_yes (is_valid_text (text_of v)) then goes_on else some phase1
past_elements flags (nested is_array key inner rest) phase =
    let others = λ (p : Phase). past_elements flags rest p in
    let inside = λ (p : Phase). closed (past_elements flags inner (phase_in p)) in
    do phase1 ← past_key flags phase key; if inside phase1 then others phase1 else none
past_elements flags (scoped key js scope rest) phase =
    let inside = closed (past_elements flags scope (phase_in start)) in
    do
      phase1 ← past_key flags phase key
      if is_yes (is_valid_text (some js))
          then (if inside then some phase1 else none)
          else some phase1

-- The documents that `bson_validate` accepts.
unfoldable pub accepts : ℕ → Elements → Bool
unfolding past_elements
accepts flags elements = closed (past_elements flags elements (phase_in start))
