-- ===== src/Iter/Visit/Order.antt =====
-- src/bson/bson-iter.c: the functions of the caller are called on the elements, in order.
use libbson.Base.{
  ℕ, ◌^◌, ◌<◌, ◌≡◌, refl, ap, ◌∙◌, Bool, true, false, Option, none, some, List, [], ◌∷◌, ◌++◌,
  length, All, if◌then◌else◌,
}
use libbson.Base.Words.{IsByte}
use libbson.Utf8.{validate}
use libbson.Utf8.Validate.{WellFormed, validate-WellFormed}
use libbson.Format.{Value, AllFit, document_bytes, document_size}
use libbson.Run.{done}
use libbson.Iter.{Iter}
use libbson.Iter.Next.{fresh}
use libbson.Iter.Visit.Calls.{
  HoldsBytes, HasBytes, stopped, going, at_fault, Lands, Follows, visit_all-Follows,
}
use libbson.Iter.Visit.{Visitor, text_of, is_valid_text, is_valid_key, visit_all}

-- The functions of a visitor that do not ask the iterator.
pub record Plain (S : Type 0) : Type 0 where
  pub before : List ℕ → S → S × Bool
  pub after : List ℕ → S → S × Bool
  pub visit : List ℕ → Value → S → S × Bool

abbrev pub visitor_of : {S : Type 0} → Plain S → Visitor S
visitor_of p = record {
  visit_before = some (λ it key s. p.before key s);
  visit_after = some (λ it key s. p.after key s);
  visit_value = λ t. some (λ it key v s. p.visit key v s);
  visit_corrupt = none;
  visit_unsupported_type = none;
}

-- The calls on one element: before, the value, after; the first that stops is the last.
abbrev pub one : {S : Type 0} → Plain S → List ℕ → Value → S → S × Bool
one p key v s =
    let (s1, stop1) = p.before key s in
    let (s2, stop2) = p.visit key v s1 in
    let (s3, stop3) = p.after key s2 in
    if stop1
    then (s1, true)
    else if stop2
    then (s2, true)
    else if stop3
    then (s3, true)
    else (s3, false)

-- The calls on a list of elements.
abbrev pub in_order : {S : Type 0} → Plain S → List (List ℕ × Value) → S → S × Bool
in_order p [] s = (s, false)
in_order p ((key, v) ∷ rest) s =
    let first = one p key v s in
    let others = in_order p rest first.0 in if first.1 then first else others

-- The bytes of a text of fewer than 2 ^ 32, in UTF-8, and those of a value, where it has one.
abbrev pub IsUtf8 : Bool → List ℕ → Type 0
IsUtf8 allow_null s = All IsByte s × (length s < 2 ^ 32) × WellFormed allow_null s

abbrev pub HasText : Option (List ℕ) → Type 0
HasText none = Unit {0}
HasText (some s) = IsUtf8 true s

abbrev pub IsText : List ℕ × Value → Type 0
IsText (key, v) = IsUtf8 false key × HasText (text_of v)

validate-IsUtf8 :
    (allow_null : Bool) (s : List ℕ)
    → IsUtf8 allow_null s
    → validate s (length s) allow_null ≡ some true
validate-IsUtf8 allow_null s (bytes, small, text) =
    let (r, e, exact) = validate-WellFormed s allow_null bytes small in e ∙ ap some (exact.1 text)

is_valid_key-IsUtf8 : (key : List ℕ) → IsUtf8 false key → is_valid_key key ≡ some true
unfolding is_valid_key
is_valid_key-IsUtf8 [] text = refl
is_valid_key-IsUtf8 (c ∷ key) text = validate-IsUtf8 false (c ∷ key) text

is_valid_text-HasText : (t : Option (List ℕ)) → HasText t → is_valid_text t ≡ some true
unfolding is_valid_text
is_valid_text-HasText none text = refl
is_valid_text-HasText (some s) text = validate-IsUtf8 true s text

HoldsBytes-IsText :
    (elements : List (List ℕ × Value)) → All IsText elements → All HoldsBytes elements
HoldsBytes-IsText [] text = tt
HoldsBytes-IsText ((key, v) ∷ rest) text =
    (((text.0.0.0, text.0.0.1), value_bytes (text_of v) text.0.1), HoldsBytes-IsText rest text.1)
  where
    value_bytes : (t : Option (List ℕ)) → HasText t → HasBytes t
    value_bytes none u = tt
    value_bytes (some b) u = (u.0, u.1)

module _ (S : Type 0) (p : Plain S) where
  chosen :
      (b1 b2 b3 : Bool) (s s1 s2 s3 : S) (it : Iter) (Rest : S → Type 0) (others : S → S × Bool)
      (r : S × Bool)
      → ((s' : S) → Rest s' → r ≡ others s')
      → Lands S
          (visitor_of p)
          s
          it
          (if b1
            then stopped s1 it
            else if true
            then (if b2 then stopped s2 it else if b3 then stopped s3 it else going s3)
            else stopped s1 (at_fault it))
          Rest
          r
      → r ≡ (
          let first =
            if b1
            then (s1, true)
            else if b2
            then (s2, true)
            else if b3
            then (s3, true)
            else (s3, false) in
          let rest = others first.0 in if first.1 then first else rest)
  chosen true b2 b3 s s1 s2 s3 it Rest others r go lands = lands
  chosen false true b3 s s1 s2 s3 it Rest others r go lands = lands
  chosen false false true s s1 s2 s3 it Rest others r go lands = lands
  chosen false false false s s1 s2 s3 it Rest others r go lands = go s3 lands

  Follows-in_order :
      (elements : List (List ℕ × Value)) (s : S) (r : S × Bool)
      → All IsText elements
      → Follows S (visitor_of p) elements s r
      → r ≡ in_order p elements s
  Follows-in_order [] s r text follows = follows
  Follows-in_order ((key, v) ∷ rest) s r text (it, vk, vt, at, ek, et, lands) =
      let valid_key : vk ≡ true = cc (is_valid_key-IsUtf8 key text.0.0) in
      let valid_text : vt ≡ true = cc (is_valid_text-HasText (text_of v) text.0.1) in
      chosen (p.before key s).1 (p.visit key v (p.before key s).0).1
        (p.after key (p.visit key v (p.before key s).0).0).1 s (p.before key s).0
        (p.visit key v (p.before key s).0).0 (p.after key (p.visit key v (p.before key s).0).0).0 it
        (λ s'. Follows S (visitor_of p) rest s' r) (in_order p rest) r
        (λ s'. Follows-in_order rest s' r text.1) (rw valid_key at (rw valid_text at lands))

  -- On the bytes of a document of fewer than 2 ^ 31 bytes, with anything behind them, where the
  -- keys are without NUL, the values have the sizes of their C types, and keys and texts are UTF-8
  -- (a key without a NUL), `bson_iter_visit_all` calls the functions of a visitor that do not ask
  -- the iterator on the elements in their order, before, at the value and after each, and stops at
  -- the first that answers true; its result tells whether one did. It takes a round for each
  -- element and one more.
  pub visit_all-in_order :
      (rounds : ℕ) (elements : List (List ℕ × Value)) (slack : List ℕ) (s : S)
      → AllFit elements
      → All IsText elements
      → document_size elements < 2 ^ 31
      → length elements < rounds
      → (it : Iter) × (visit_all S
            (visitor_of p)
            rounds
            (fresh (document_bytes elements ++ slack) (document_size elements))
            s
          ≡ done ((in_order p elements s).0, it, (in_order p elements s).1))
  visit_all-in_order rounds elements slack s fit text small enough =
      let (r, it, run, follows) =
        visit_all-Follows S (visitor_of p) rounds elements slack s fit
          (HoldsBytes-IsText elements text) small enough in
      (it, rw (← Follows-in_order elements s r text follows) run)
