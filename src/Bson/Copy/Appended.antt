-- ===== src/Bson/Copy/Appended.antt =====
-- src/bson/bson.c: `bson_append_iter` appends the value of the element.
use libbson.Base.{ℕ, ◌≡◌, refl, ap, ◌∙◌, Option, none, some, List, ◌>>=◌ as ◌>>?◌}
use libbson.Types.{
  BsonType, eod, double, utf8, document, array, binary, undefined, oid, bool, date_time, null,
  regex, dbpointer, code, symbol, codewscope, int32, timestamp, int64, decimal128, maxkey, minkey,
  of_byte,
}
use libbson.Format.{
  Value, v_double, v_utf8, v_document, v_array, v_binary, v_undefined, v_oid, v_bool, v_datetime,
  v_null, v_regex, v_dbpointer, v_code, v_symbol, v_codewscope, v_int32, v_timestamp, v_int64,
  v_decimal128, v_maxkey, v_minkey,
}
use libbson.Run.{Run, load, ◌>>=◌}
use libbson.Bson.{Allocator, Bson}
use libbson.Bson.Value.{append_value}
use libbson.Bson.Copy.{pointed, append_iter_type, append_iter}
use libbson.Iter.{Iter}
use libbson.Iter.Read.{
  iter_type, read_key, read_binary, read_bool, read_double, read_int32, read_int64, read_decimal128,
  read_oid, read_regex, read_utf8, read_code, read_symbol, read_codewscope, read_dbpointer,
  read_date_time, read_timestamp, read_document, read_array,
}
use libbson.Iter.Read.Value.{given, taken, value_of, value}

-- A value that is read and then appended.
taken_lem {ℓ κ} :
    {A : Type ℓ} {R : Type κ} (f : A → Value) (r : Option A) (k : A → Run R) (h : Value → Run R)
    {v : Value}
    → ((x : A) → k x ≡ h (f x))
    → taken f r ≡ some (some v)
    → (load r >>= k) ≡ h v
taken_lem f none k h same e = cc e
taken_lem f (some x) k h {v} same e = let here : f x ≡ v = cc e in same x ∙ ap h here

given_lem {ℓ κ} :
    {A : Type ℓ} {R : Type κ} (f : A → Value) (r : Option (Option A)) (k : A → Run R)
    (h : Value → Run R) {v : Value}
    → ((x : A) → k x ≡ h (f x))
    → given f r ≡ some (some v)
    → (pointed r >>= k) ≡ h v
given_lem f none k h same e = cc e
given_lem f (some none) k h same e = cc e
given_lem f (some (some x)) k h {v} same e = let here : f x ≡ v = cc e in same x ∙ ap h here

module _ (m : Allocator) (b : Bson) (key : List ℕ) (it : Iter) where
  append_iter_type_lem :
      (t : Option BsonType) (v : Value)
      → value_of t it ≡ some (some v)
      → append_iter_type m b key it t ≡ append_value m b key v
  unfolding value_of append_iter_type append_value
  append_iter_type_lem (some double) v e =
      taken_lem v_double (read_double it) _ (append_value m b key) (λ x. refl) e
  append_iter_type_lem (some utf8) v e =
      given_lem v_utf8 (read_utf8 it) _ (append_value m b key) (λ x. refl) e
  append_iter_type_lem (some document) v e =
      given_lem v_document (read_document it) _ (append_value m b key) (λ x. refl) e
  append_iter_type_lem (some array) v e =
      given_lem v_array (read_array it) _ (append_value m b key) (λ x. refl) e
  append_iter_type_lem (some binary) v e =
      given_lem (λ (r : ℕ × List ℕ). v_binary r.0 r.1) (read_binary it) _ (append_value m b key)
        (λ x. refl) e
  append_iter_type_lem (some oid) v e =
      given_lem v_oid (read_oid it) _ (append_value m b key) (λ x. refl) e
  append_iter_type_lem (some bool) v e =
      taken_lem v_bool (read_bool it) _ (append_value m b key) (λ x. refl) e
  append_iter_type_lem (some date_time) v e =
      taken_lem v_datetime (read_date_time it) _ (append_value m b key) (λ x. refl) e
  append_iter_type_lem (some regex) v e =
      given_lem (λ (r : List ℕ × List ℕ). v_regex r.0 r.1) (read_regex it) _ (append_value m b key)
        (λ x. refl) e
  append_iter_type_lem (some dbpointer) v e =
      given_lem (λ (r : List ℕ × List ℕ). v_dbpointer r.0 r.1) (read_dbpointer it) _
        (append_value m b key) (λ x. refl) e
  append_iter_type_lem (some code) v e =
      given_lem v_code (read_code it) _ (append_value m b key) (λ x. refl) e
  append_iter_type_lem (some symbol) v e =
      given_lem v_symbol (read_symbol it) _ (append_value m b key) (λ x. refl) e
  append_iter_type_lem (some codewscope) v e =
      given_lem (λ (r : List ℕ × List ℕ). v_codewscope r.0 r.1) (read_codewscope it) _
        (append_value m b key) (λ x. refl) e
  append_iter_type_lem (some int32) v e =
      taken_lem v_int32 (read_int32 it) _ (append_value m b key) (λ x. refl) e
  append_iter_type_lem (some timestamp) v e =
      taken_lem (λ (r : ℕ × ℕ). v_timestamp r.0 r.1) (read_timestamp it) _ (append_value m b key)
        (λ x. refl) e
  append_iter_type_lem (some int64) v e =
      taken_lem v_int64 (read_int64 it) _ (append_value m b key) (λ x. refl) e
  append_iter_type_lem (some decimal128) v e =
      given_lem (λ (r : ℕ × ℕ). v_decimal128 r.0 r.1) (read_decimal128 it) _ (append_value m b key)
        (λ x. refl) e
  append_iter_type_lem (some null) v e =
      let here : v_null ≡ v = cc e in ap (append_value m b key) here
  append_iter_type_lem (some undefined) v e =
      let here : v_undefined ≡ v = cc e in ap (append_value m b key) here
  append_iter_type_lem (some maxkey) v e =
      let here : v_maxkey ≡ v = cc e in ap (append_value m b key) here
  append_iter_type_lem (some minkey) v e =
      let here : v_minkey ≡ v = cc e in ap (append_value m b key) here
  append_iter_type_lem (some eod) v e = cc e
  append_iter_type_lem none v e = cc e

pub append_iter_lem :
    (m : Allocator) (b : Bson) (it : Iter) (key : List ℕ) (v : Value)
    → read_key it ≡ some key
    → value it ≡ some (some v)
    → append_iter m b it ≡ append_value m b key v
unfolding append_iter value
append_iter_lem m b it key v ek ev = rw ek (go (iter_type it) ev)
  where
    go :
        (t : Option ℕ)
        → (t >>? λ x. value_of (of_byte x) it) ≡ some (some v)
        → (load t >>= λ x. append_iter_type m b key it (of_byte x)) ≡ append_value m b key v
    go none e = cc e
    go (some x) e = append_iter_type_lem m b key it (of_byte x) v e
