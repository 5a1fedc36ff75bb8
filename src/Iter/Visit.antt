-- ===== src/Iter/Visit.antt =====
-- src/bson/bson-iter.c: `bson_iter_visit_all`, over a table of the caller's functions. The state
-- `S` is what the caller's `data` points at. The `VISIT_*` functions of the types are one field, by
-- type; NULL is `none`. `fault` is a read past the memory, or of a key that was never set.
pub mod Calls
pub mod Order
use libbson.Base.{
  ℕ, zero, suc, Bool, true, false, not, ◌&&◌, Option, none, some, List, [], ◌∷◌, length, ◌==◌,
  ◌>>=◌ as ◌>>?◌, if◌then◌else◌,
}
use libbson.Types.{BsonType, of_byte}
use libbson.Format.{
  Value, v_utf8, v_document, v_array, v_regex, v_dbpointer, v_code, v_symbol, v_codewscope,
}
use libbson.Run.{Run, done, aborted, load, ◌>>=◌}
use libbson.Utf8.{validate}
use libbson.Bson.{Bson}
use libbson.Bson.Value.{init_static}
use libbson.Iter.{Iter}
use libbson.Iter.Next.{Next, next_internal}
use libbson.Iter.Read.{read_c_string}
use libbson.Iter.Read.Value.{value_of}

-- `bson_visitor_t`: a function answers the state and whether it stops the visit.
pub record Visitor (S : Type 0) : Type 0 where
  pub visit_before : Option (Iter → List ℕ → S → S × Bool)
  pub visit_after : Option (Iter → List ℕ → S → S × Bool)
  pub visit_value : BsonType → Option (Iter → List ℕ → Value → S → S × Bool)
  pub visit_corrupt : Option (Iter → S → S)
  pub visit_unsupported_type : Option (Iter → List ℕ → ℕ → S → S)

-- `VISIT_FIELD`
abbrev pub call {ℓ} : {A : Type ℓ} → {S : Type 0} → Option A → (A → S → S × Bool) → S → S × Bool
call none f s = (s, false)
call (some visit) f s = f visit s

-- The text of a value that the visit checks, and the document that it opens.
abbrev pub text_of : Value → Option (List ℕ)
text_of (v_utf8 s) = some s
text_of (v_regex pattern_ options) = some pattern_
text_of (v_dbpointer collection id) = some collection
text_of (v_code js) = some js
text_of (v_symbol s) = some s
text_of (v_codewscope js scope) = some js
text_of other = none

abbrev pub document_of : Value → Option (List ℕ)
document_of (v_document d) = some d
document_of (v_array d) = some d
document_of (v_codewscope js scope) = some scope
document_of other = none

unfoldable pub is_valid_text : Option (List ℕ) → Option Bool
is_valid_text none = some true
is_valid_text (some s) = validate s (length s) true

unfoldable pub opens : Option (List ℕ) → Run Bool
opens none = done true
opens (some d) = do b ← init_static d; done (elim b [ none ↦ false | some opened ↦ true ])

-- `*key && !bson_utf8_validate (key, strlen (key), false)`
unfoldable pub is_valid_key : List ℕ → Option Bool
is_valid_key [] = some true
is_valid_key (c ∷ key) = validate (c ∷ key) (length (c ∷ key)) false

-- How an element is left: the function returns true, or the loop is left, or goes on.
pub data Visited (S : Type 0) : Type 0 where
  returned : S → Iter → Visited S
  broken : S → Iter → Visited S
  passed : S → Iter → Visited S

module _ (S : Type 0) (visitor : Visitor S) where
  -- The visit of a value that is there.
  unfoldable pub visit_read : BsonType → Iter → List ℕ → Value → S → Run (S × Iter × Bool)
  unfolding is_valid_text opens
  visit_read t it key v s = do
    valid ← load (is_valid_text (text_of v))
    opened ← opens (document_of v)
    let (s', stop) = call (visitor.visit_value t) (λ visit. visit it key v) s
    if not valid
        then done (s, record it { err_off = it.off }, true)
        else if opened
        then done (s', it, stop)
        else done (s, it, false)

  -- The `switch`, on the value that the accessor of the type answers.
  unfoldable pub visit_type : BsonType → Iter → List ℕ → S → Run (S × Iter × Bool)
  unfolding visit_read
  visit_type t it key s = do
    found ← load (value_of (some t) it)
    elim found [ none ↦ done (s, it, false) | some v ↦ visit_read t it key v s ]

  unfoldable pub visit_byte : Option BsonType → Iter → List ℕ → S → Run (S × Iter × Bool)
  unfolding visit_type
  visit_byte none it key s = done (s, it, false)
  visit_byte (some t) it key s = visit_type t it key s

  -- The body of the loop behind the test of the key.
  unfoldable pub visit_keyed : Option BsonType → Iter → List ℕ → S → Run (Visited S)
  unfolding visit_byte
  visit_keyed t it key s =
      let (s1, stop1) = call visitor.visit_before (λ visit. visit it key) s in
      let behind = (do
        (s2, it2, stop2) ← visit_byte t it key s1
        let (s3, stop3) = call visitor.visit_after (λ visit. visit it2 key) s2
        done (
            if stop2 then returned s2 it2 else if stop3 then returned s3 it2 else passed s3 it2)) in
      if stop1 then done (returned s1 it) else behind

  -- The body of the loop.
  unfoldable pub visit_element : Option BsonType → Iter → List ℕ → S → Run (Visited S)
  unfolding visit_keyed is_valid_key
  visit_element t it key s = do
    valid ← load (is_valid_key key)
    if valid then visit_keyed t it key s else done (broken s (record it { err_off = it.off }))

  -- Behind the loop.
  unfoldable pub corrupt : Iter → S → S
  corrupt it s = elim visitor.visit_corrupt [ none ↦ s | some visit ↦ visit it s ]

  unfoldable pub unsupported_type :
      Option (Iter → List ℕ → ℕ → S → S) → Iter → List ℕ → ℕ → S → Run (S × Iter × Bool)
  unfolding corrupt
  unsupported_type none it key t s = done (corrupt it s, it, false)
  unsupported_type (some visit) it key t s = do
    valid ← load (validate key (length key) false)
    done (if valid then visit it key t s else corrupt it s, it, false)

  -- The key that a step answers lies in the memory from before the step.
  unfoldable pub key_of : Option (List ℕ) → Next → Option (List ℕ)
  key_of memory n = memory >>? λ raw. n.key >>? λ key. key >>? λ at. read_c_string at raw

  unfoldable pub visit_end : Option (List ℕ) → Next → S → Run (S × Iter × Bool)
  unfolding unsupported_type key_of corrupt
  visit_end memory n s =
      let unknown = (do
        key ← load (key_of memory n)
        t ← load n.bson_type
        unsupported_type visitor.visit_unsupported_type n.iter key t s) in
      if n.iter.err_off == 0
      then done (s, n.iter, false)
      else if n.is_unsupported
      then unknown
      else done (corrupt n.iter s, n.iter, false)

  -- What follows the loop where the key is no text: its `err_off` is the offset of the element.
  unfoldable pub visit_break : S → Iter → Run (S × Iter × Bool)
  unfolding corrupt
  visit_break s it = done (if it.err_off == 0 then s else corrupt it s, it, false)

  unfoldable pub end_round : (Iter → S → Run (S × Iter × Bool)) → Visited S → Run (S × Iter × Bool)
  unfolding visit_break
  end_round go_on (returned s it) = done (s, it, true)
  end_round go_on (broken s it) = visit_break s it
  end_round go_on (passed s it) = go_on it s

  -- `bson_iter_visit_all`, from a number of rounds; every round goes on by two bytes at least.
  unfoldable pub visit_all : ℕ → Iter → S → Run (S × Iter × Bool)
  unfolding visit_element visit_end end_round key_of
  visit_all zero it s = aborted
  visit_all (suc rounds) it s = do
    n ← load (next_internal it)
    let round = (do
      key ← load (key_of it.raw n)
      t ← load n.bson_type
      visited ← visit_element (of_byte t) n.iter key s
      end_round (visit_all rounds) visited)
    if n.decoded then round else visit_end it.raw n s
