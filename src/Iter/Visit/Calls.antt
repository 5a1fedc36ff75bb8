-- ===== src/Iter/Visit/Calls.antt =====
-- src/bson/bson-iter.c: what `bson_iter_visit_all` does at the elements of a document, for any
-- table of functions and whether or not the keys and the texts are UTF-8.
use libbson.Base.{
  ℕ, zero, suc, ◌+◌, ◌^◌, ◌≤◌, ◌<◌, ◌≡◌, refl, sym, ap, ◌∙◌, Bool, true, false, Option, none, some,
  List, [], ◌∷◌, ◌++◌, length, All, arith, ◌==◌, ==_iff, if◌then◌else◌, ◌>>=◌ as ◌>>?◌,
}
use libbson.Base.Words.{IsByte}
use libbson.Base.Memory.{Holds}
use libbson.Utf8.Validate.{validate-WellFormed}
use libbson.Types.{BsonType}
use libbson.Format.{
  Value, v_double, v_utf8, v_document, v_array, v_binary, v_undefined, v_oid, v_bool, v_datetime,
  v_null, v_regex, v_dbpointer, v_code, v_symbol, v_codewscope, v_int32, v_timestamp, v_int64,
  v_decimal128, v_maxkey, v_minkey, value_type, encode_all, AllFit, document_bytes, document_size,
  IsFit,
}
use libbson.Run.{done}
use libbson.Bson.Document.{init_static-IsDocument}
use libbson.Iter.{Iter}
use libbson.Iter.Next.{next_internal, fresh}
use libbson.Iter.Read.{read_key, read_c_string}
use libbson.Iter.Read.Value.{value_of}
use libbson.Iter.Element.Read.{of_byte-to_byte}
use libbson.Iter.Element.Walk.{
  found_next, end_next, cut, step_inside, document_body, next_internal_at_end,
}
use libbson.Iter.Visit.{
  Visitor, call, text_of, document_of, is_valid_text, is_valid_key, opens, Visited, returned,
  broken, passed, visit_read, visit_type, visit_byte, visit_keyed, visit_element, corrupt,
  visit_break, visit_end, end_round, key_of, visit_all,
}

-- The bytes of a text of fewer than 2 ^ 32, and those of a value, where it has one.
abbrev pub IsBytes : List ℕ → Type 0
IsBytes s = All IsByte s × (length s < 2 ^ 32)

abbrev pub HasBytes : Option (List ℕ) → Type 0
HasBytes none = Unit {0}
HasBytes (some s) = IsBytes s

abbrev pub HoldsBytes : List ℕ × Value → Type 0
HoldsBytes (key, v) = IsBytes key × HasBytes (text_of v)

-- The verdicts of the visit on a key and on the text of a value.
is_valid_key_total : (key : List ℕ) → IsBytes key → (r : Bool) × (is_valid_key key ≡ some r)
unfolding is_valid_key
is_valid_key_total [] b = (true, refl)
is_valid_key_total (c ∷ key) (bytes, small) =
    let (r, e, exact) = validate-WellFormed (c ∷ key) false bytes small in (r, e)

is_valid_text_total : (t : Option (List ℕ)) → HasBytes t → (r : Bool) × (is_valid_text t ≡ some r)
unfolding is_valid_text
is_valid_text_total none b = (true, refl)
is_valid_text_total (some s) (bytes, small) =
    let (r, e, exact) = validate-WellFormed s true bytes small in (r, e)

opens_lem : (v : Value) → IsFit v → opens (document_of v) ≡ done true
unfolding opens
opens_lem (v_double v) fit = refl
opens_lem (v_utf8 s) fit = refl
opens_lem (v_document d) fit = rw (init_static-IsDocument d fit) refl
opens_lem (v_array d) fit = rw (init_static-IsDocument d fit) refl
opens_lem (v_binary subtype bytes) fit = refl
opens_lem v_undefined fit = refl
opens_lem (v_oid id) fit = refl
opens_lem (v_bool flag) fit = refl
opens_lem (v_datetime v) fit = refl
opens_lem v_null fit = refl
opens_lem (v_regex pattern_ options) fit = refl
opens_lem (v_dbpointer collection id) fit = refl
opens_lem (v_code js) fit = refl
opens_lem (v_symbol s) fit = refl
opens_lem (v_codewscope js scope) fit = rw (init_static-IsDocument scope fit.2) refl
opens_lem (v_int32 v) fit = refl
opens_lem (v_timestamp time increment) fit = refl
opens_lem (v_int64 v) fit = refl
opens_lem (v_decimal128 low high) fit = refl
opens_lem v_maxkey fit = refl
opens_lem v_minkey fit = refl

-- How the functions of a visitor leave an element: one stops the visit, the key is no text, or the
-- visit goes on.
pub data Left (S : Type 0) : Type 0 where
  stopped : S → Iter → Left S
  spoilt : Left S
  going : S → Left S

-- The offset of the error is that of the element.
abbrev pub at_fault : Iter → Iter
at_fault it = record it { err_off = it.off }

module _ (S : Type 0) (visitor : Visitor S) where
  -- The three calls at an element.
  abbrev pub call_before : Iter → List ℕ → S → S × Bool
  call_before it key s = call visitor.visit_before (λ visit. visit it key) s

  abbrev pub call_value : Iter → List ℕ → Value → S → S × Bool
  call_value it key v s = call (visitor.visit_value (value_type v)) (λ visit. visit it key v) s

  abbrev pub call_after : Iter → List ℕ → S → S × Bool
  call_after it key s = call visitor.visit_after (λ visit. visit it key) s

  -- How an element is left, given the verdicts on its key and its text.
  abbrev pub calls_at : Bool → Bool → Iter → List ℕ → Value → S → Left S
  calls_at valid_key valid_text it key v s =
      let before = call_before it key s in
      let visited = call_value it key v before.0 in
      let after = call_after it key visited.0 in
      if valid_key
      then (if before.1
          then stopped before.0 it
          else if valid_text
          then (if visited.1
              then stopped visited.0 it
              else if after.1
              then stopped after.0 it
              else going after.0)
          else stopped before.0 (at_fault it))
      else spoilt

  abbrev pub Lands : S → Iter → Left S → (S → Type 0) → S × Bool → Type 0
  Lands s it (stopped s' i) Rest r = r ≡ (s', true)
  Lands s it spoilt Rest r = r ≡ (corrupt S visitor (at_fault it) s, false)
  Lands s it (going s') Rest r = Rest s'

  -- The calls at the elements, one after the other, lead from a state to a result.
  abbrev pub Follows : List (List ℕ × Value) → S → S × Bool → Type 0
  Follows [] s r = r ≡ (s, false)
  Follows ((key, v) ∷ rest) s r =
      (it : Iter) × (valid_key : Bool) × (valid_text : Bool) × (0 < it.off)
      × (is_valid_key key ≡ some valid_key)
      × (is_valid_text (text_of v) ≡ some valid_text)
      × Lands s it (calls_at valid_key valid_text it key v s) (λ s'. Follows rest s' r) r

  to_visited : S → Iter → Left S → Visited S
  to_visited s it (stopped s' i) = returned s' i
  to_visited s it spoilt = broken s (at_fault it)
  to_visited s it (going s') = passed s' it

  joined :
      (b1 b2 b3 : Bool) (s s1 s2 s3 : S) (it : Iter)
      → (if b1
          then done (returned s1 it)
          else done (if b2 then returned s2 it else if b3 then returned s3 it else passed s3 it))
        ≡ done (
            to_visited s it (
              if b1
              then stopped s1 it
              else if b2
              then stopped s2 it
              else if b3
              then stopped s3 it
              else going s3))
  unfolding to_visited
  joined true b2 b3 s s1 s2 s3 it = refl
  joined false true b3 s s1 s2 s3 it = refl
  joined false false true s s1 s2 s3 it = refl
  joined false false false s s1 s2 s3 it = refl

  refused :
      (b1 : Bool) (s s1 : S) (it : Iter)
      → (if b1 then done (returned s1 it) else done (returned s1 (at_fault it)))
        ≡ done (to_visited s it (if b1 then stopped s1 it else stopped s1 (at_fault it)))
  unfolding to_visited
  refused true s s1 it = refl
  refused false s s1 it = refl

  visit_element_lem :
      (vk vt : Bool) (it : Iter) (key : List ℕ) (v : Value) (s : S)
      → is_valid_key key ≡ some vk
      → is_valid_text (text_of v) ≡ some vt
      → IsFit v
      → value_of (some (value_type v)) it ≡ some (some v)
      → visit_element S visitor (some (value_type v)) it key s
        ≡ done (to_visited s it (calls_at vk vt it key v s))
  unfolding visit_element visit_keyed visit_byte visit_type visit_read to_visited
  visit_element_lem false vt it key v s k t fit typed = rw k refl
  visit_element_lem true false it key v s k t fit typed =
      rw (k, typed, t, opens_lem v fit)
        (refused (call_before it key s).1 s (call_before it key s).0 it)
  visit_element_lem true true it key v s k t fit typed =
      let before = call_before it key s in
      let visited = call_value it key v before.0 in
      let after = call_after it key visited.0 in
      rw (k, typed, t, opens_lem v fit)
        (joined before.1 visited.1 after.1 s before.0 visited.0 after.0 it)

  -- The key of a step onto an element.
  key_lem :
      (raw key : List ℕ) (it it' : Iter) (t : BsonType)
      → it.raw ≡ some raw
      → it'.raw ≡ some raw
      → read_key it' ≡ some key
      → key_of S visitor it.raw (found_next it' t) ≡ some key
  unfolding key_of read_key
  key_lem raw key it it' t memory memory' read = ap from memory ∙ sym (ap from memory') ∙ read
    where
      from : Option (List ℕ) → Option (List ℕ)
      from m = m >>? (λ bytes. read_c_string it'.key bytes)

  abbrev Ends : ℕ → Iter → S → (S × Bool → Type 0) → Type 0
  Ends rounds it s Rest =
      (r : S × Bool) × (it' : Iter) × (visit_all S visitor rounds it s ≡ done (r.0, it', r.1))
      × Rest r

  -- What follows an element.
  end_round_lem :
      (rounds : ℕ) (it : Iter) (s : S) (Rest : S → S × Bool → Type 0) (a : Left S)
      → 0 < it.off
      → ((s' : S) → Ends rounds it s' (Rest s'))
      → (r : S × Bool) × (it' : Iter) × (end_round S visitor
            (visit_all S visitor rounds)
            (to_visited s it a)
          ≡ done (r.0, it', r.1))
        × Lands s it a (λ s'. Rest s' r) r
  unfolding to_visited end_round visit_break
  end_round_lem rounds it s Rest (stopped s' i) at rest = ((s', true), i, refl, refl)
  end_round_lem rounds it s Rest spoilt at rest =
      let away : it.off == 0 ≡ false = ground arith in
      ((corrupt S visitor (at_fault it) s, false), at_fault it, rw away refl, refl)
  end_round_lem rounds it s Rest (going s') at rest = rest s'

  -- A round on an element, and what follows it.
  round_lem :
      (rounds : ℕ) (key : List ℕ) (v : Value) (rest : List (List ℕ × Value)) (it it' : Iter) (s : S)
      → next_internal it ≡ some (found_next it' (value_type v))
      → key_of S visitor it.raw (found_next it' (value_type v)) ≡ some key
      → HoldsBytes (key, v)
      → IsFit v
      → value_of (some (value_type v)) it' ≡ some (some v)
      → 0 < it'.off
      → ((s' : S) → Ends rounds it' s' (Follows rest s'))
      → Ends (suc rounds) it s (Follows ((key, v) ∷ rest) s)
  unfolding visit_all
  round_lem rounds key v rest it it' s e k bytes fit typed at go_on =
      let (vk, ek) = is_valid_key_total key bytes.0 in
      let (vt, et) = is_valid_text_total (text_of v) bytes.1 in
      let (r, last, run, lands) =
        end_round_lem rounds it' s (Follows rest) (calls_at vk vt it' key v s) at go_on in
      (
        r,
        last,
        rw
            (
              e,
              k,
              of_byte-to_byte (value_type v),
              visit_element_lem vk vt it' key v s ek et fit typed,
            )
            run,
        (it', vk, vt, at, ek, et, lands),
      )

  -- Behind the last element.
  end_lem :
      (rounds : ℕ) (raw : List ℕ) (it : Iter) (s : S)
      → it.raw ≡ some raw
      → suc it.next_off ≡ it.len
      → it.len < 2 ^ 31
      → it.err_off ≡ 0
      → Ends (suc rounds) it s (Follows [] s)
  unfolding visit_all visit_end
  end_lem rounds raw it s memory last small sound = (
    (s, false),
    (end_next it).iter,
    rw (next_internal_at_end raw it memory last small, (==_iff it.err_off 0).1 sound) refl,
    refl,
  )

  visits :
      (rounds : ℕ) (raw : List ℕ) (elements : List (List ℕ × Value)) (it : Iter) (s : S)
      → AllFit elements
      → All HoldsBytes elements
      → it.raw ≡ some raw
      → 4 ≤ it.next_off
      → it.len < 2 ^ 31
      → Holds raw it.next_off (encode_all elements ++ (0 ∷ []))
      → it.next_off + length (encode_all elements) + 1 ≡ it.len
      → it.err_off ≡ 0
      → length elements < rounds
      → Ends rounds it s (Follows elements s)
  visits zero raw elements it s fit bytes e header small h len sound enough =
      absurd (omega (arith, enough))
  visits (suc rounds) raw [] it s fit bytes e header small h len sound enough =
      end_lem rounds raw it s e (omega (arith, len)) small sound
  visits (suc rounds) raw ((key, v) ∷ rest) it s fit bytes e header small h len sound enough =
      let (front, behind, size) = cut raw key v rest it fit.0 e header small h len in
      let (it', n, d) = step_inside raw it key v front in
      round_lem rounds key v rest it it' s n
        (key_lem raw key it it' (value_type v) e d.memory d.key_read) bytes.0 fit.0.1 d.typed_read
        (omega (arith, d.starts, header))
        (λ s'.
          visits rounds raw rest it' s' fit.1 bytes.1 d.memory (omega (arith, d.behind, header))
            (omega (arith, d.same_len, small)) (rw d.behind behind)
            (omega (arith, d.behind, d.same_len, size, len)) d.no_error (omega (arith, enough)))

  -- On the bytes of a document, with anything behind them, the visit follows the elements, from
  -- one round more than there are elements.
  pub visit_all-Follows :
      (rounds : ℕ) (elements : List (List ℕ × Value)) (slack : List ℕ) (s : S)
      → AllFit elements
      → All HoldsBytes elements
      → document_size elements < 2 ^ 31
      → length elements < rounds
      → (r : S × Bool) × (it : Iter) × (visit_all S visitor rounds
            (fresh (document_bytes elements ++ slack) (document_size elements))
            s
          ≡ done (r.0, it, r.1))
        × Follows elements s r
  visit_all-Follows rounds elements slack s fit bytes small enough =
      visits rounds (document_bytes elements ++ slack) elements
        (fresh (document_bytes elements ++ slack) (document_size elements)) s fit bytes refl
        (omega arith) small (document_body elements slack) (omega arith) refl enough
