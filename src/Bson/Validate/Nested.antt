-- ===== src/Bson/Validate/Nested.antt =====
-- src/bson/bson.c: the visits of the documents inside a document, given the visit of their
-- elements.
use libbson.Base.{
  ℕ, suc, ◌+◌, ◌^◌, ◌<◌, ◌≡◌, refl, sym, ap, ◌∙◌, Bool, true, false, Option, none, some, List, [],
  arith, ltb, ◌==◌, if◌then◌else◌, ◌>>=◌, Bool-cases, inl, inr,
}
use mathlib.Core.List.{append-nil}
use mathlib.Core.Path.{subst}
use libbson.Format.{
  Value, v_document, v_array, v_codewscope, value_type, document_bytes, document_size,
}
use libbson.Run.{Run, done}
use libbson.Bson.{Bson}
use libbson.Bson.Append.{contents}
use libbson.Bson.Value.{static_document}
use libbson.Bson.Document.{init_static-IsDocument, static-contents}
use libbson.Iter.{Iter}
use libbson.Iter.Next.{init, fresh}
use libbson.Iter.Find.Count.{elements-le}
use libbson.Iter.Visit.{visit_all}
use libbson.Iter.Visit.Calls.{Follows, call_value, visit_all-Follows}
use libbson.Bson.Validate.{
  Phase, start, ValidateState, is_open, close_phase, phase_inside, validate_funcs, validate_value,
  validate_document, validate_codewscope, validate_internal, validated, fails_at, opened, offset_of,
  came_back,
}
use libbson.Bson.Validate.Spec.{Elements, to_elements, closed, past_elements, is_missing, phase_in}
use libbson.Bson.Validate.Rules.{phase_inside_lem}
use libbson.Bson.Validate.Built.{
  IsBuilt, AllFit-IsBuilt, HoldsBytes-IsBuilt, document_bytes-IsDocument, length-document_bytes,
}
use libbson.Bson.Validate.Judge.{verdict_of, verdict, Agrees, state}
use libbson.Bson.Validate.Element.{Judged}

-- What the visit of a document answers, from a phase.
abbrev pub enclosed : ℕ → Elements → Phase → Option (Phase × Bool)
enclosed flags elements phase =
    if closed (past_elements flags elements (phase_in phase)) then some (phase, false) else none

abbrev pub shut_by : Phase → Phase → Option (Phase × Bool)
shut_by phase q = if is_missing q then none else some (phase, false)

enclosed_lem :
    (flags : ℕ) (phase : Phase) (x : Option Phase)
    → (x >>= shut_by phase) ≡ (if closed x then some (phase, false) else none)
enclosed_lem flags phase none = refl
enclosed_lem flags phase (some q) = elim (Bool-cases (is_missing q)) [
  | inl open_ ↦ rw open_ refl
  | inr shut ↦ rw shut refl
]

enclosed_inside :
    (flags : ℕ) (elements : Elements) (at : Option ℕ) (phase : Phase)
    → ((verdict_of at (phase_in phase) >>= past_elements flags elements) >>= shut_by phase)
      ≡ (verdict_of at phase >>= enclosed flags elements)
enclosed_inside flags elements none phase =
    enclosed_lem flags phase (past_elements flags elements (phase_in phase))
enclosed_inside flags elements (some a) phase = refl

-- Behind the elements of a document.
close_lem :
    (it : Iter) (phase : Phase) (flags : ℕ) (at : Option ℕ) (last : Phase) (error : Option ℕ)
    → Agrees flags
        (close_phase it phase (state flags at last error))
        (verdict_of at last >>= shut_by phase)
unfolding close_phase
close_lem it phase flags none last error = elim (Bool-cases (is_open last)) [
  | inl open_ ↦ rw open_ (refl, refl)
  | inr shut ↦ rw shut (refl, refl, refl)
]
close_lem it phase flags (some a) last error = elim (Bool-cases (is_open last)) [
  | inl open_ ↦ elim (Bool-cases (a == 0)) [
    | inl first ↦ rw (open_, first) (refl, refl)
    | inr later ↦ rw (open_, later) (refl, refl)
  ]
  | inr shut ↦ rw shut (refl, refl)
]

-- The visit of the elements leads from a state to the description's phase.
abbrev pub Walks : ℕ → Elements → Type 0
Walks depth elements =
    (flags : ℕ) (st : ValidateState) (r : Run ValidateState × Bool)
    → st.flags ≡ flags
    → Follows (Run ValidateState) (validate_funcs (validate_document depth)) (to_elements elements)
        (done st) r
    → Judged flags r.0 (verdict st >>= past_elements flags elements)

-- A document whose bytes are those of nested documents.
abbrev pub IsOf : Bson → Elements → Type 0
IsOf b elements =
    (contents b ≡ document_bytes (to_elements elements))
    × (b.len ≡ document_size (to_elements elements))

pair {ℓ κ} :
    {A : Type ℓ} {B : Type κ} {a a' : A} {b b' : B}
    → a ≡ a'
    → b ≡ b'
    → ◌≡◌ {A = A × B} (a, b) (a', b')
pair p q = λ i. (p i, q i)

document_lem :
    (depth : ℕ) (elements : Elements) (b : Bson) (it : Iter) (st : ValidateState)
    → Walks depth elements
    → IsBuilt elements
    → document_size (to_elements elements) < 2 ^ 31
    → IsOf b elements
    → (a : ValidateState × Bool) × (validate_document (suc depth) it b st ≡ done a)
      × Agrees st.flags a (verdict st >>= enclosed st.flags elements)
unfolding validate_document init
document_lem depth elements b it st walks built small (bytes, size) =
    let (r, last, run, follows) =
      visit_all-Follows (Run ValidateState) (validate_funcs (validate_document depth)) (suc b.len)
        (to_elements elements) [] (done (record st { phase = phase_inside st.phase }))
        (AllFit-IsBuilt elements built) (HoldsBytes-IsBuilt elements built) small
        (omega (arith, elements-le (to_elements elements), size)) in
    let (st', back, same, v) =
      walks st.flags (record st { phase = phase_inside st.phase }) r refl follows in
    let long : ltb b.len 5 ≡ false = ground arith in
    let from =
      ap
        (λ (p : List ℕ × ℕ).
          visit_all (Run ValidateState) (validate_funcs (validate_document depth)) (suc b.len)
            (fresh p.0 p.1) (done (record st { phase = phase_inside st.phase })))
        (pair (bytes ∙ sym (append-nil (document_bytes (to_elements elements)))) size) in
    (
      close_phase it st.phase st',
      rw (long, from ∙ run, back) refl,
      subst
          (λ (f : ℕ).
            Agrees f (close_phase it st.phase st') (verdict st >>= enclosed st.flags elements))
          same
          (subst (λ x. Agrees st'.flags (close_phase it st.phase st') x)
            (ap (λ x. x >>= shut_by st.phase)
                (v
                  ∙ ap (λ p. verdict_of st.err_offset p >>= past_elements st.flags elements)
                      (phase_inside_lem st.phase))
              ∙ enclosed_inside st.flags elements st.err_offset st.phase)
            (close_lem it st.phase st'.flags st'.err_offset st'.phase st'.error)),
    )

opened_lem :
    (elements : Elements) (st : ValidateState) (f : Bson → Run (ValidateState × Bool))
    → document_size (to_elements elements) < 2 ^ 31
    → opened (document_bytes (to_elements elements)) st f
      ≡ f (static_document (document_bytes (to_elements elements)))
unfolding opened
opened_lem elements st f small =
    rw (init_static-IsDocument _ (document_bytes-IsDocument (to_elements elements) small)) refl

static-IsOf :
    (elements : Elements) → IsOf (static_document (document_bytes (to_elements elements))) elements
static-IsOf elements = (
  static-contents (document_bytes (to_elements elements)),
  length-document_bytes (to_elements elements),
)

-- A document that is validated from its start.
abbrev pub is_inside : ℕ → Elements → Bool
is_inside flags elements = closed (past_elements flags elements (phase_in start))

validated_lem :
    (st : ValidateState) (ok : Bool)
    → verdict st ≡ (if ok then some start else none)
    → (validated st).0 ≡ ok
validated_lem st = go st.err_offset st.phase
  where
    go :
        (at : Option ℕ) (phase : Phase) (ok : Bool)
        → verdict_of at phase ≡ (if ok then some start else none)
        → (validated (state 0 at phase none)).0 ≡ ok
    go none phase true e = refl
    go none phase false e = cc e
    go (some a) phase true e = cc e
    go (some a) phase false e = refl

settled_lem :
    (flags : ℕ) (a : ValidateState × Bool) (ok : Bool)
    → Agrees flags a (if ok then some (start, false) else none)
    → (validated a.0).0 ≡ ok
settled_lem flags a true agrees = validated_lem a.0 true agrees.1
settled_lem flags a false agrees = validated_lem a.0 false agrees.1

pub internal_lem :
    (depth : ℕ) (elements : Elements) (b : Bson) (flags : ℕ)
    → Walks depth elements
    → IsBuilt elements
    → document_size (to_elements elements) < 2 ^ 31
    → IsOf b elements
    → (st : ValidateState) × (validate_internal (validate_document (suc depth)) flags b ≡ done st)
      × ((validated st).0 ≡ is_inside flags elements)
unfolding validate_internal init
internal_lem depth elements b flags walks built small of =
    let (a, run, agrees) =
      document_lem depth elements b (fresh (contents b) b.len) (state flags none start none) walks
        built small of in
    let long : ltb b.len 5 ≡ false = ground (arith, of.1) in
    (a.0, rw (long, run) refl, settled_lem flags a (is_inside flags elements) agrees)

-- A scope that is accepted stops the visit.
abbrev pub scope_answer : Iter → ℕ → ValidateState → Bool → ValidateState × Bool
scope_answer it offset st ok = if ok then (st, true) else (fails_at (it.off + offset) 0 st, false)

abbrev pub past_scope : Bool → Phase → Option (Phase × Bool)
past_scope ok phase = if ok then some (phase, true) else none

scope-Agrees :
    (it : Iter) (offset flags : ℕ) (at : Option ℕ) (phase : Phase) (error : Option ℕ) (ok : Bool)
    → Agrees flags
        (scope_answer it offset (state flags at phase error) ok)
        (verdict_of at phase >>= past_scope ok)
scope-Agrees it offset flags none phase error true = (refl, refl, refl)
scope-Agrees it offset flags none phase error false = (refl, refl)
scope-Agrees it offset flags (some a) phase error true = (refl, refl)
scope-Agrees it offset flags (some a) phase error false = (refl, refl)

module _ (depth : ℕ) (inner : Elements) (walks : Walks depth inner) (built : IsBuilt inner)
    (small : document_size (to_elements inner) < 2 ^ 31) where
  abbrev pub bytes_of : List ℕ
  bytes_of = document_bytes (to_elements inner)

  -- The visits of the values that hold documents.
  abbrev pub Calls : Value → (ValidateState → Option (Phase × Bool)) → Type 0
  Calls v answer =
      (it : Iter) (key : List ℕ) (st : ValidateState)
      → (a : ValidateState × Bool) × (call_value (Run ValidateState)
            (validate_funcs (validate_document (suc depth))) it key v (done st)
          ≡ (done a.0, a.1))
        × Agrees st.flags a (answer st)

  pub nested_lem :
      (is_array : Bool)
      → Calls
          (if is_array then v_array bytes_of else v_document bytes_of)
          (λ st. verdict st >>= enclosed st.flags inner)
  unfolding value_type validate_value
  nested_lem true it key st =
      let (a, run, agrees) =
        document_lem depth inner (static_document bytes_of) it st walks built small
          (static-IsOf inner) in
      (a, ap came_back (opened_lem inner st _ small ∙ run), agrees)
  nested_lem false it key st =
      let (a, run, agrees) =
        document_lem depth inner (static_document bytes_of) it st walks built small
          (static-IsOf inner) in
      (a, ap came_back (opened_lem inner st _ small ∙ run), agrees)

  pub scope_lem :
      (js : List ℕ)
      → Calls
          (v_codewscope js bytes_of)
          (λ st. verdict st >>= past_scope (is_inside st.flags inner))
  unfolding value_type validate_value validate_codewscope
  scope_lem js it key st =
      let (after, run, ok) =
        internal_lem depth inner (static_document bytes_of) st.flags walks built small
          (static-IsOf inner) in
      (
        scope_answer it (offset_of (validated after)) st (is_inside st.flags inner),
        ap came_back (opened_lem inner st _ small ∙ answered after run ok),
        scope-Agrees it (offset_of (validated after)) st.flags st.err_offset st.phase st.error
            (is_inside st.flags inner),
      )
    where
      answered :
          (after : ValidateState)
          → validate_internal (validate_document (suc depth)) st.flags (static_document bytes_of)
            ≡ done after
          → (validated after).0 ≡ is_inside st.flags inner
          → validate_codewscope (validate_document (suc depth)) it (static_document bytes_of) st
            ≡ done (scope_answer it (offset_of (validated after)) st (is_inside st.flags inner))
      answered after run ok = rw (run, ok) refl
