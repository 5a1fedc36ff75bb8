-- ===== src/Bson/Validate/Accept.antt =====
-- src/bson/bson.c: `bson_validate` accepts the nested documents that its description names.
use libbson.Base.{
  ℕ, zero, suc, ◌^◌, ◌≤◌, ◌<◌, ◌≡◌, refl, ap, ◌∙◌, Bool, true, false, Option, none, some, List, ◌∷◌,
  arith, if◌then◌else◌, ◌>>=◌, Bool-cases, inl, inr,
}
use mathlib.Core.Path.{subst}
use Prim.Native.Nat.{max}
use native.Mathlib.Nat.{le-max_left, le-max_right}
use libbson.Format.{Value, v_utf8, document_bytes, document_size}
use libbson.Run.{Run, done}
use libbson.Utf8.Validate.{WellFormed, validate-WellFormed}
use libbson.Bson.{Bson}
use libbson.Bson.Append.{contents}
use libbson.Iter.{Iter}
use libbson.Iter.Visit.{text_of, document_of, is_valid_text}
use libbson.Iter.Visit.Calls.{Follows, HasBytes, call_value}
use libbson.Bson.Validate.{
  Phase, top, ValidateState, validate_funcs, validate_document, validated, bson_validate,
  bson_validate_with_error, error_of,
}
use libbson.Bson.Validate.Spec.{
  Elements, end, plain, nested, scoped, to_elements, nesting, is_yes, closed, past_key, past_value,
  past_elements, accepts, is_missing, phase_in,
}
use libbson.Bson.Validate.Built.{IsBuilt}
use libbson.Bson.Validate.Judge.{verdict_of, verdict, Agrees, goes_on, plain_lem}
use libbson.Bson.Validate.Element.{Judged, behind, turn_lem}
use libbson.Bson.Validate.Nested.{
  Walks, enclosed, internal_lem, is_inside, nested_lem, past_scope, scope_lem,
}

-- The description, in the form of the turns.
under :
    (at : Option ℕ) (phase : Phase) (tests g h : Phase → Option Phase)
    → ((q : Phase) → g q ≡ h q)
    → (verdict_of at phase >>= λ p. tests p >>= g) ≡ (verdict_of at phase >>= λ p. tests p >>= h)
under none phase tests g h same = go (tests phase)
  where
    go : (x : Option Phase) → (x >>= g) ≡ (x >>= h)
    go none = refl
    go (some p) = same p
under (some a) phase tests g h same = refl

behind-goes_on :
    (x : Option Phase) (others : Phase → Option Phase) → behind (goes_on x) others ≡ (x >>= others)
behind-goes_on none others = refl
behind-goes_on (some p) others = refl

goes_on-bind :
    (x : Option Phase) (h : Phase → Option Phase) → goes_on (x >>= h) ≡ (x >>= λ p. goes_on (h p))
goes_on-bind none h = refl
goes_on-bind (some p) h = refl

behind-choice :
    (inside : Bool) (q : Phase) (stops : Bool) (others : Phase → Option Phase)
    → behind (if inside then some (q, stops) else none) others
      ≡ (if inside then (if stops then some q else others q) else none)
behind-choice true q true others = refl
behind-choice true q false others = refl
behind-choice false q stops others = refl

same_phase :
    (at : Option ℕ) (phase : Phase) → verdict_of at phase ≡ (verdict_of at phase >>= λ p. some p)
same_phase none phase = refl
same_phase (some a) phase = refl

walk_turn :
    (depth : ℕ) (key : List ℕ) (v : Value) (rest : Elements) (flags : ℕ) (st : ValidateState)
    (r : Run ValidateState × Bool) (f : Phase → Option (Phase × Bool)) (spec : Phase → Option Phase)
    → Walks depth rest
    → st.flags ≡ flags
    → ((it : Iter) (b : ValidateState)
        → b.flags ≡ flags
        → (a : ValidateState × Bool) × (call_value
              (Run ValidateState)
              (validate_funcs (validate_document depth))
              it
              key
              v
              (done b)
            ≡ (done a.0, a.1))
          × Agrees flags a (verdict b >>= f))
    → ((vt : Bool) (q : Phase)
        → is_valid_text (text_of v) ≡ some vt
        → (if vt then behind (f q) (past_elements flags rest) else some q) ≡ spec q)
    → Follows
        (Run ValidateState)
        (validate_funcs (validate_document depth))
        ((key, v) ∷ to_elements rest)
        (done st)
        r
    → Judged flags r.0 (verdict st >>= λ p. past_key flags p key >>= spec)
walk_turn depth key v rest flags st r f spec walks same called described
      (it, vk, vt, at, ek, et, lands) =
    let (st', back, flags', v') =
      turn_lem (validate_document depth) flags
        (λ s'.
          Follows (Run ValidateState) (validate_funcs (validate_document depth)) (to_elements rest)
            s' r)
        r (past_elements flags rest) (λ s e follows. walks flags s r e follows) it key v vk vt st f
        same ek (called it) lands in
    (
      st',
      back,
      flags',
      v' ∙ under st.err_offset st.phase (λ p. past_key flags p key) _ spec (λ q. described vt q et),
    )

plain_called :
    (depth : ℕ) (v : Value)
    → document_of v ≡ none
    → HasBytes (text_of v)
    → (key : List ℕ) (flags : ℕ) (it : Iter) (b : ValidateState) → b.flags ≡ flags
    → (a : ValidateState × Bool) × (call_value
          (Run ValidateState)
          (validate_funcs (validate_document depth))
          it
          key
          v
          (done b)
        ≡ (done a.0, a.1))
      × Agrees flags a (verdict b >>= λ p. goes_on (past_value flags p v))
plain_called depth v flat text key flags it b same =
    let (a, run, agrees) = plain_lem (validate_document depth) v flat text it key b in
    (
      a,
      run,
      subst (λ x. Agrees flags a x) (goes_on-bind (verdict b) (λ p. past_value flags p v))
          (subst (λ (k : ℕ). Agrees k a (goes_on (verdict b >>= λ p. past_value k p v))) same
            agrees),
    )

plain_described :
    (flags : ℕ) (v : Value) (others : Phase → Option Phase) (vt : Bool) (q : Phase)
    → is_valid_text (text_of v) ≡ some vt
    → (if vt then behind (goes_on (past_value flags q v)) others else some q)
      ≡ (if is_yes (is_valid_text (text_of v)) then (past_value flags q v >>= others) else some q)
plain_described flags v others true q e = rw e (behind-goes_on (past_value flags q v) others)
plain_described flags v others false q e = rw e refl

nested_described :
    (flags : ℕ) (inner : Elements) (others : Phase → Option Phase) (vt : Bool) (q : Phase)
    → is_valid_text none ≡ some vt
    → (if vt then behind (enclosed flags inner q) others else some q)
      ≡ (if closed (past_elements flags inner (phase_in q)) then others q else none)
unfolding is_valid_text
nested_described flags inner others true q e =
    behind-choice (closed (past_elements flags inner (phase_in q))) q false others
nested_described flags inner others false q e = cc e

scope_described :
    (flags : ℕ) (js : List ℕ) (scope : Elements) (others : Phase → Option Phase) (vt : Bool)
    (q : Phase)
    → is_valid_text (some js) ≡ some vt
    → (if vt then behind (past_scope (is_inside flags scope) q) others else some q) ≡ (
        if is_yes (is_valid_text (some js))
        then (if is_inside flags scope then some q else none)
        else some q)
scope_described flags js scope others true q e =
    rw e (behind-choice (is_inside flags scope) q true others)
scope_described flags js scope others false q e = rw e refl

deep_rest : (a b n : ℕ) → max a b ≤ n → (a ≤ n) × (b ≤ n)
deep_rest a b n h = (omega (arith, le-max_left a b), omega (arith, le-max_right a b))

walk :
    (elements : Elements) (depth : ℕ)
    → nesting elements ≤ depth
    → IsBuilt elements
    → Walks depth elements
unfolding to_elements past_elements nesting
walk end depth deep built flags st r same follows =
    (st, ap (λ p. p.0) follows, same, same_phase st.err_offset st.phase)
walk (plain key v rest) depth deep (k, (fit, text, flat), more) flags st r same follows =
    walk_turn depth key v rest flags st r (λ p. goes_on (past_value flags p v)) _
      (walk rest depth deep more) same (plain_called depth v flat text key flags)
      (plain_described flags v (past_elements flags rest)) follows
walk (nested is_array key inner rest) zero deep built flags st r same follows =
    absurd (omega (arith, deep_rest (suc (nesting inner)) (nesting rest) 0 deep))
walk (nested true key inner rest) (suc depth) deep (k, small, inside, more) flags st r same
      follows =
    let (d, d') = deep_rest (suc (nesting inner)) (nesting rest) (suc depth) deep in
    walk_turn (suc depth) key _ rest flags st r (enclosed flags inner) _
      (walk rest (suc depth) d' more) same
      (λ it b e.
        let (a, run, agrees) =
          nested_lem depth inner (walk inner depth (omega (arith, d)) inside) inside small true it
            key b in
        (a, run, subst (λ (f : ℕ). Agrees f a (verdict b >>= enclosed f inner)) e agrees))
      (nested_described flags inner (past_elements flags rest)) follows
walk (nested false key inner rest) (suc depth) deep (k, small, inside, more) flags st r same
      follows =
    let (d, d') = deep_rest (suc (nesting inner)) (nesting rest) (suc depth) deep in
    walk_turn (suc depth) key _ rest flags st r (enclosed flags inner) _
      (walk rest (suc depth) d' more) same
      (λ it b e.
        let (a, run, agrees) =
          nested_lem depth inner (walk inner depth (omega (arith, d)) inside) inside small false it
            key b in
        (a, run, subst (λ (f : ℕ). Agrees f a (verdict b >>= enclosed f inner)) e agrees))
      (nested_described flags inner (past_elements flags rest)) follows
walk (scoped key js scope rest) zero deep built flags st r same follows =
    absurd (omega (arith, deep_rest (suc (nesting scope)) (nesting rest) 0 deep))
walk (scoped key js scope rest) (suc depth) deep (k, code, small, inside, more) flags st r same
      follows =
    let (d, d') = deep_rest (suc (nesting scope)) (nesting rest) (suc depth) deep in
    walk_turn (suc depth) key _ rest flags st r (past_scope (is_inside flags scope)) _
      (walk rest (suc depth) d' more) same
      (λ it b e.
        let (a, run, agrees) =
          scope_lem depth scope (walk scope depth (omega (arith, d)) inside) inside small js it key
            b in
        (
          a,
          run,
          subst (λ (f : ℕ). Agrees f a (verdict b >>= past_scope (is_inside f scope))) e agrees,
        ))
      (scope_described flags js scope (past_elements flags rest)) follows

-- On a document whose bytes are those of nested documents, of fewer than 2 ^ 31 bytes, with keys
-- without NUL, values of the sizes of their C types and any bytes as texts, `bson_validate` and
-- `bson_validate_with_error` return, from a depth above that of the nesting, and answer true
-- exactly where the description accepts the elements under the flags: the keys are UTF-8 and pass
-- the tests that the flags ask for, so do the strings, and the documents inside pass too. Under the
-- flag for `$` a key begins with `$` only as the next key of a DBRef in a document inside another,
-- `$ref`, `$id` and `$db` in this order, and no DBRef lacks the string of `$ref`, the key `$id` or
-- the string of a `$db`. Nothing is asked of what stands behind a text that is not UTF-8, or behind
-- a scope that is accepted, in the same document.
pub bson_validate-accepts :
    (depth flags : ℕ) (elements : Elements) (b : Bson)
    → IsBuilt elements
    → nesting elements < depth
    → contents b ≡ document_bytes (to_elements elements)
    → b.len ≡ document_size (to_elements elements)
    → document_size (to_elements elements) < 2 ^ 31
    → ((offset : Option ℕ) × (bson_validate depth flags b ≡ done (accepts flags elements, offset)))
      × ((error : Option (Option ℕ)) × (bson_validate_with_error depth flags b
            ≡ done (accepts flags elements, error)))
unfolding bson_validate bson_validate_with_error accepts
bson_validate-accepts zero flags elements b built deep bytes size small = absurd (omega arith)
bson_validate-accepts (suc depth) flags elements b built deep bytes size small =
    let (st, run, ok) =
      internal_lem depth elements b flags (walk elements depth (omega arith) built) built small
        (bytes, size) in
    (
      ((validated st).1, rw run (ap (λ (k : Bool). done (k, (validated st).1)) ok)),
      (error_of st, rw run (ap (λ (k : Bool). done (k, error_of st)) ok)),
    )

closed_at_text :
    (x : Option Phase) (t : Option Bool) (phase : Phase) (others : Phase → Option Phase)
    → x ≡ some phase
    → t ≡ some false
    → is_missing phase ≡ false
    → closed (x >>= λ p. if is_yes t then others p else some p) ≡ true
closed_at_text x t phase others ex et shut = rw (ex, et) (rw shut refl)

-- On a document whose bytes are those of nested documents, of the sizes and with the keys and
-- values that the format allows, from a depth above that of the nesting and under every flag, where
-- the first key passes the tests and its value is a string that is not UTF-8, even with NUL
-- allowed, `bson_validate` answers true, whatever the elements behind are.
pub bson_validate-ill_formed :
    (depth flags : ℕ) (key s : List ℕ) (rest : Elements) (b : Bson) (phase : Phase)
    → IsBuilt (plain key (v_utf8 s) rest)
    → ¬ (WellFormed true s)
    → past_key flags top key ≡ some phase
    → is_missing phase ≡ false
    → nesting rest < depth
    → contents b ≡ document_bytes (to_elements (plain key (v_utf8 s) rest))
    → b.len ≡ document_size (to_elements (plain key (v_utf8 s) rest))
    → document_size (to_elements (plain key (v_utf8 s) rest)) < 2 ^ 31
    → (offset : Option ℕ) × (bson_validate depth flags b ≡ done (true, offset))
unfolding accepts past_elements is_valid_text nesting
bson_validate-ill_formed depth flags key s rest b phase built ill passes shut deep bytes size
      small =
    let (r, e, exact) = validate-WellFormed s true built.1.1.0 built.1.1.1 in
    let refused : r ≡ false = elim (Bool-cases r) [
      | inl fine ↦ absurd (ill (exact.0 fine))
      | inr bad ↦ bad
    ] in
    let ((offset, run), other) =
      bson_validate-accepts depth flags (plain key (v_utf8 s) rest) b built deep bytes size small in
    (
      offset,
      run
          ∙ ap (λ (k : Bool). done (k, offset))
              (closed_at_text _ _ phase _ passes (e ∙ ap some refused) shut),
    )
