-- ===== src/Iter/Element/Walk.antt =====
-- The walk of the iterator over the elements of a document.
use libbson.Base.{
  ℕ, suc, ◌+◌, ◌-◌, ◌^◌, ◌≤◌, ◌<◌, ◌≡◌, refl, ap, ◌∙◌, Bool, true, false, Option, none, some, List,
  [], ◌∷◌, ◌++◌, get_elem?, length, length-append, arith, ltb, leb, ◌>>=◌,
}
use mathlib.Core.List.{append_assoc}
use libbson.Base.Words.{add32, le_bytes}
use libbson.Base.Memory.{Holds, Holds-front, Holds-behind, get_elem?_of}
use libbson.Types.{BsonType, to_byte, of_byte}
use libbson.Format.{
  encode_all, AllFit, document_size, document_bytes, Value, value_type, encode, element, IsFit,
  NoNul,
}
use libbson.Iter.{Iter, filled, scan_nul}
use libbson.Iter.Next.{
  Next, fill_type, fill_byte, finish, fill_data_fields, next_field, start_field, next_from,
  next_internal, next, mark_invalid, init, fresh,
}
use libbson.Iter.Fill.{Extends}
use libbson.Iter.Read.{read_key, read_c_string}
use libbson.Iter.Read.Value.{value, value_of}
use libbson.Iter.Element.{Places, Places-cleared}
use libbson.Iter.Element.Fill.{scan_nul-string}
use libbson.Iter.Element.Step.{Accepted, Accepted_value}
use libbson.Iter.Element.Read.{value_of-encode, of_byte-to_byte, read_c_string_at}

-- What stands at an iterator in front of the element.
pub record InFront (raw : List ℕ) (it : Iter) (key : List ℕ) (v : Value) : Type 0 where
  pub memory : it.raw ≡ some raw
  pub header : 4 ≤ it.next_off
  pub small : it.len < 2 ^ 31
  pub inside : it.next_off + length (element (value_type v) key (encode v)) < it.len
  pub holds : Holds raw it.next_off (element (value_type v) key (encode v))
  pub no_nul : NoNul key
  pub fit : IsFit v

-- The element is decoded: its key and its value can be read, and the next one is behind it.
pub record Decoded (raw : List ℕ) (it it' : Iter) (key : List ℕ) (v : Value) : Type 0 where
  pub memory : it'.raw ≡ some raw
  pub same_len : it'.len ≡ it.len
  pub behind : it'.next_off ≡ it.next_off + length (element (value_type v) key (encode v))
  pub key_read : read_key it' ≡ some key
  pub value_read : value it' ≡ some (some v)
  pub typed_read : value_of (some (value_type v)) it' ≡ some (some v)
  pub no_error : it'.err_off ≡ 0
  pub starts : it'.off ≡ it.next_off

-- What a step answers on an element of a type.
abbrev pub found_next : Iter → BsonType → Next
found_next it t = record {
  iter = it;
  decoded = true;
  is_unsupported = false;
  key = some (some it.key);
  bson_type = some (to_byte t);
}

module _ (raw : List ℕ) (it : Iter) (key : List ℕ) (v : Value) (f : InFront raw it key v) where
  abbrev data_at : ℕ
  data_at = it.next_off + 1 + length key + 1

  size : length (element (value_type v) key (encode v)) ≡ length key + length (encode v) + 2
  size = omega (arith, length-append key (0 ∷ encode v))

  type_byte : get_elem? raw it.next_off ≡ some (to_byte (value_type v))
  type_byte = get_elem?_of (to_byte (value_type v)) (key ++ (0 ∷ encode v)) f.holds

  after_type : Holds raw (it.next_off + 1) (key ++ (0 ∷ encode v))
  after_type = Holds-behind (to_byte (value_type v) ∷ []) (key ++ (0 ∷ encode v)) f.holds

  key_string : Holds raw (it.next_off + 1) (key ++ (0 ∷ []))
  key_string =
      Holds-front (key ++ (0 ∷ [])) (encode v)
        (rw (append_assoc key (0 ∷ []) (encode v)) after_type)

  after_key : Holds raw data_at (encode v)
  after_key = Holds-behind (0 ∷ []) (encode v) (Holds-behind key (0 ∷ encode v) after_type)

  -- The iterator as the `switch` sees it.
  abbrev at_data : Iter
  at_data = record (start_field it) { d1 = data_at }

  accepted : Accepted v raw at_data data_at
  accepted =
      Accepted_value raw at_data data_at refl f.small (omega (arith, f.header)) v f.fit after_key
        (omega (arith, f.inside, size))

  found_key :
      scan_nul (it.len - add32 it.next_off 1) raw (add32 it.next_off 1)
      ≡ some (some (it.next_off + 1 + length key))
  found_key =
      ap (λ (o : ℕ). scan_nul (it.len - o) raw o) first
      ∙ scan_nul-string raw (it.len - (it.next_off + 1)) (it.next_off + 1) key f.no_nul
          (omega (arith, f.inside, size)) key_string
    where
      first : add32 it.next_off 1 ≡ it.next_off + 1
      first = omega (arith, f.inside, f.small)

  found_fields :
      (o : ℕ)
      → o ≡ data_at
      → next_field raw (start_field it) ≡ fill_data_fields raw (start_field it) data_at
  unfolding next_field
  found_fields o e = rw found_key (ap (λ (k : ℕ). fill_data_fields raw (start_field it) k) here)
    where
      here : add32 (it.next_off + 1 + length key) 1 ≡ data_at
      here = omega (arith, f.inside, f.small, size)

  module _ (it1 : Iter) (o1 : ℕ)
      (filled_by : fill_type (value_type v) raw at_data data_at ≡ some (filled it1 o1))
      (kept : Extends at_data it1) (end : it1.next_off ≡ data_at + length (encode v))
      (places : Places v data_at it1) where
    fields :
        fill_data_fields raw (start_field it) data_at
        ≡ some (finish (to_byte (value_type v)) (filled it1 o1))
    unfolding fill_data_fields fill_byte
    fields = rw (type_byte, of_byte-to_byte (value_type v), filled_by) refl

    finished : finish (to_byte (value_type v)) (filled it1 o1) ≡ record {
      iter = record it1 { err_off = 0 };
      decoded = true;
      is_unsupported = false;
      key = some (some it1.key);
      bson_type = some (to_byte (value_type v));
    }
    unfolding finish
    finished = rw not_past refl
      where
        not_past : leb it1.len it1.next_off ≡ false
        not_past = ground (arith, f.inside, size, end, kept.len)

    internal : next_internal it ≡ some (found_next (record it1 { err_off = 0 }) (value_type v))
    unfolding next_internal next_from
    internal =
        ap (λ r. next_from r it) f.memory ∙ found_fields data_at refl ∙ fields ∙ ap some finished

    stepped : next it ≡ some (record it1 { err_off = 0 }, true)
    unfolding next
    stepped = ap wrap internal
      where
        wrap : Option Next → Option (Iter × Bool)
        wrap r = r >>= λ n. some (n.iter, n.decoded)

    decoded : Decoded raw it (record it1 { err_off = 0 }) key v
    unfolding read_key value
    decoded = record {
      memory = kept.raw ∙ f.memory;
      same_len = kept.len;
      behind = end ∙ omega (arith, size);
      key_read =
          ap (λ r. r >>= λ bytes. read_c_string it1.key bytes) (kept.raw ∙ f.memory)
          ∙ read_c_string_at raw key_here key (encode v) f.no_nul after_type;
      value_read =
          ap read_type (kept.raw ∙ f.memory)
          ∙ ap (λ t. t >>= λ b. value_of (of_byte b) (record it1 { err_off = 0 })) its_type
          ∙ ap (λ t. value_of t (record it1 { err_off = 0 })) (of_byte-to_byte (value_type v))
          ∙ typed;
      typed_read = typed;
      no_error = refl;
      starts = kept.off;
    }
      where
        key_here : it1.key ≡ it.next_off + 1
        key_here = kept.key ∙ omega (arith, f.inside, f.small)

        its_type : get_elem? raw it1.type ≡ some (to_byte (value_type v))
        its_type = ap (λ (k : ℕ). get_elem? raw k) kept.type ∙ type_byte

        typed : value_of (some (value_type v)) (record it1 { err_off = 0 }) ≡ some (some v)
        typed =
            value_of-encode raw (record it1 { err_off = 0 }) data_at (kept.raw ∙ f.memory) v f.fit
              after_key (Places-cleared v data_at it1 places) its_type

        read_type : Option (List ℕ) → Option (Option Value)
        read_type r = (r >>= λ bytes. get_elem? bytes it1.type) >>= λ b.
            value_of (of_byte b) (record it1 { err_off = 0 })

  -- On an iterator whose memory holds, from `next_off` on, an element of the format, with a key
  -- without NUL and a value of the sizes of its C types, where the element ends inside the document
  -- and the document is shorter than 2 ^ 31 bytes: `bson_iter_next` answers true and steps onto the
  -- element, the key and the value that are read there are those that the element was made of, and
  -- the iterator goes on behind the element.
  pub step_over : (it' : Iter) × (next it ≡ some (it', true)) × Decoded raw it it' key v
  step_over =
      let (it1, o1, e, kept, end, places) = accepted in
      (
        record it1 { err_off = 0 },
        stepped it1 o1 e kept end places,
        decoded it1 o1 e kept end places,
      )

  -- The same, as `_bson_iter_next_internal` answers it.
  pub step_inside :
      (it' : Iter) × (next_internal it ≡ some (found_next it' (value_type v)))
      × Decoded raw it it' key v
  step_inside =
      let (it1, o1, e, kept, end, places) = accepted in
      (
        record it1 { err_off = 0 },
        internal it1 o1 e kept end places,
        decoded it1 o1 e kept end places,
      )

-- The iterator gives the keys and the values, one after the other, and then stops.
abbrev pub Yields : Iter → List (List ℕ × Value) → Type 0
Yields it [] = (it' : Iter) × (next it ≡ some (it', false))
Yields it ((key, v) ∷ rest) =
    (it' : Iter) × (next it ≡ some (it', true))
    × (read_key it' ≡ some key)
    × (value it' ≡ some (some v))
    × Yields it' rest

-- What a step answers behind the last element.
abbrev pub end_next : Iter → Next
end_next it = record {
  iter = mark_invalid (start_field it);
  decoded = false;
  is_unsupported = false;
  key = none;
  bson_type = none;
}

pub next_internal_at_end :
    (raw : List ℕ) (it : Iter)
    → it.raw ≡ some raw
    → suc it.next_off ≡ it.len
    → it.len < 2 ^ 31
    → next_internal it ≡ some (end_next it)
unfolding next_internal next_from next_field scan_nul
next_internal_at_end raw it e last small = ap (λ r. next_from r it) e ∙ ended
  where
    nothing : it.len - add32 it.next_off 1 ≡ 0
    nothing = omega arith

    none_left : scan_nul (it.len - add32 it.next_off 1) raw (add32 it.next_off 1) ≡ some none
    none_left = ap (λ (n : ℕ). scan_nul n raw (add32 it.next_off 1)) nothing

    ended : next_field raw (start_field it) ≡ some (end_next it)
    ended = rw none_left refl

next_at_end :
    (raw : List ℕ) (it : Iter)
    → it.raw ≡ some raw
    → suc it.next_off ≡ it.len
    → it.len < 2 ^ 31
    → (it' : Iter) × (next it ≡ some (it', false))
unfolding next
next_at_end raw it e last small =
    (mark_invalid (start_field it), ap wrap (next_internal_at_end raw it e last small))
  where
    wrap : Option Next → Option (Iter × Bool)
    wrap r = r >>= λ n. some (n.iter, n.decoded)

-- The first element of those in front of an iterator, and the others.
pub cut :
    (raw key : List ℕ) (v : Value) (rest : List (List ℕ × Value)) (it : Iter)
    → NoNul key × IsFit v
    → it.raw ≡ some raw
    → 4 ≤ it.next_off
    → it.len < 2 ^ 31
    → Holds raw it.next_off (encode_all ((key, v) ∷ rest) ++ (0 ∷ []))
    → it.next_off + length (encode_all ((key, v) ∷ rest)) + 1 ≡ it.len
    → InFront raw it key v
      × Holds raw
          (it.next_off + length (element (value_type v) key (encode v)))
          (encode_all rest ++ (0 ∷ []))
      × (length (element (value_type v) key (encode v) ++ encode_all rest)
          ≡ length (element (value_type v) key (encode v)) + length (encode_all rest))
cut raw key v rest it fit e header small h len = (front, behind, size)
  where
    bytes : List ℕ
    bytes = element (value_type v) key (encode v)

    regrouped : Holds raw it.next_off (bytes ++ (encode_all rest ++ (0 ∷ [])))
    regrouped = rw⁻¹ (append_assoc bytes (encode_all rest) (0 ∷ [])) h

    behind : Holds raw (it.next_off + length bytes) (encode_all rest ++ (0 ∷ []))
    behind = Holds-behind bytes (encode_all rest ++ (0 ∷ [])) regrouped

    size : length (bytes ++ encode_all rest) ≡ length bytes + length (encode_all rest)
    size = length-append bytes (encode_all rest)

    front : InFront raw it key v
    front = record {
      memory = e;
      header = header;
      small = small;
      inside = omega (arith, size);
      holds = Holds-front bytes (encode_all rest ++ (0 ∷ [])) regrouped;
      no_nul = fit.0;
      fit = fit.1;
    }

pub Yields-elements :
    (raw : List ℕ) (elements : List (List ℕ × Value)) (it : Iter)
    → AllFit elements
    → it.raw ≡ some raw
    → 4 ≤ it.next_off
    → it.len < 2 ^ 31
    → Holds raw it.next_off (encode_all elements ++ (0 ∷ []))
    → it.next_off + length (encode_all elements) + 1 ≡ it.len
    → Yields it elements
Yields-elements raw [] it fit e header small h len = next_at_end raw it e (omega arith) small
Yields-elements raw ((key, v) ∷ rest) it fit e header small h len =
    let (front, behind, size) = cut raw key v rest it fit.0 e header small h len in
    let (it', n, d) = step_over raw it key v front in
    (
      it',
      n,
      d.key_read,
      d.value_read,
      Yields-elements raw rest it' fit.1 d.memory (omega (arith, d.behind))
          (omega (arith, d.same_len)) (rw d.behind behind)
          (omega (arith, d.behind, d.same_len, size)),
    )

-- The elements of a document lie behind its length.
pub document_body :
    (elements : List (List ℕ × Value)) (slack : List ℕ)
    → Holds (document_bytes elements ++ slack) 4 (encode_all elements ++ (0 ∷ []))
unfolding le_bytes
document_body elements slack =
    Holds-behind (le_bytes 4 (document_size elements)) (encode_all elements ++ (0 ∷ [])) whole
  where
    whole : Holds (document_bytes elements ++ slack) 0 (document_bytes elements)
    whole = record { back = slack; inside = omega arith; found = refl }

-- On the bytes of a document, with anything behind them, where the keys are without NUL, the values
-- have the sizes of their C types and the document is shorter than 2 ^ 31 bytes, `bson_iter_init`
-- answers an iterator that gives the elements of the document one after the other and then stops.
pub init-Yields :
    (elements : List (List ℕ × Value)) (slack : List ℕ)
    → AllFit elements
    → document_size elements < 2 ^ 31
    → (init (document_bytes elements ++ slack) (document_size elements)
        ≡ (fresh (document_bytes elements ++ slack) (document_size elements), true))
      × Yields (fresh (document_bytes elements ++ slack) (document_size elements)) elements
unfolding init le_bytes
init-Yields elements slack fit small = (
  rw long refl,
  Yields-elements raw elements (fresh raw (document_size elements)) fit refl (omega arith) small
      (document_body elements slack) (omega arith),
)
  where
    raw : List ℕ
    raw = document_bytes elements ++ slack

    long : ltb (document_size elements) 5 ≡ false
    long = ground arith
