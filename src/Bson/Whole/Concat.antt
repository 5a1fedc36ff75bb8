-- ===== src/Bson/Whole/Concat.antt =====
-- src/bson/bson.c: `bson_concat` appends the elements of a document.
use libbson.Base.{
  ℕ, suc, ◌+◌, ◌-◌, ◌^◌, ◌<◌, ◌≡◌, ◌⊎◌, inl, inr, refl, sym, ap, ◌∙◌, Bool, true, false, List, [],
  ◌∷◌, ◌++◌, length, take, drop, length-append, take-append, ◌==◌, ==_iff, arith,
}
use mathlib.Core.Path.{ap₂, subst}
use mathlib.Core.List.{append-nil}
use libbson.Base.Words.{le_bytes, length-le_bytes}
use libbson.Types.{to_byte}
use libbson.Format.{
  Value, v_double, v_utf8, v_document, v_array, v_binary, v_undefined, v_oid, v_bool, v_datetime,
  v_null, v_regex, v_dbpointer, v_code, v_symbol, v_codewscope, v_int32, v_timestamp, v_int64,
  v_decimal128, v_maxkey, v_minkey, value_type, encode_all, document_size,
}
use libbson.Run.{Run, done}
use libbson.Bson.{Allocator, Bson, append}
use libbson.Bson.Append.{contents}
use libbson.Bson.Grow.{Layout}
use libbson.Bson.Content.{concat, extended, Answered, Refused, append-Answered}
use libbson.Bson.Document.{Represents, Represents-contents, encode_all-append}
use libbson.Bson.Whole.{is_empty, concat_documents}

extended-elements :
    (xs ys : List (List ℕ × Value))
    → extended (le_bytes 4 (document_size xs) ++ encode_all xs) (encode_all ys ++ [])
      ≡ le_bytes 4 (document_size (xs ++ ys)) ++ encode_all (xs ++ ys)
unfolding le_bytes
extended-elements xs ys = λ i. le_bytes 4 (sizes i) ++ bytes i
  where
    bytes : encode_all xs ++ (encode_all ys ++ []) ≡ encode_all (xs ++ ys)
    bytes =
        ap (λ t. encode_all xs ++ t) (append-nil (encode_all ys)) ∙ sym (encode_all-append xs ys)

    sizes :
        suc (length (le_bytes 4 (document_size xs) ++ encode_all xs)) + length (encode_all ys ++ [])
        ≡ document_size (xs ++ ys)
    sizes = omega (
      arith,
      ap length bytes,
      length-append (encode_all xs) (encode_all ys ++ []),
      length-append (le_bytes 4 (document_size xs)) (encode_all xs),
      length-le_bytes 4 (document_size xs),
    )

Represents-len :
    (b : Bson) (front : List ℕ) (elements : List (List ℕ × Value))
    → Represents b front elements
    → b.len ≡ document_size elements
Represents-len b front elements r = omega (
  arith,
  r.layout.size,
  length-append (le_bytes 4 (document_size elements)) (encode_all elements),
  length-le_bytes 4 (document_size elements),
)

-- No value has the type byte 0.
nonzero_type : (v : Value) → (to_byte (value_type v) == 0) ≡ false
unfolding to_byte value_type
nonzero_type (v_double x) = refl
nonzero_type (v_utf8 x) = refl
nonzero_type (v_document x) = refl
nonzero_type (v_array x) = refl
nonzero_type (v_binary x y) = refl
nonzero_type v_undefined = refl
nonzero_type (v_oid x) = refl
nonzero_type (v_bool x) = refl
nonzero_type (v_datetime x) = refl
nonzero_type v_null = refl
nonzero_type (v_regex x y) = refl
nonzero_type (v_dbpointer x y) = refl
nonzero_type (v_code x) = refl
nonzero_type (v_symbol x) = refl
nonzero_type (v_codewscope x y) = refl
nonzero_type (v_int32 x) = refl
nonzero_type (v_timestamp x y) = refl
nonzero_type (v_int64 x) = refl
nonzero_type (v_decimal128 x y) = refl
nonzero_type v_maxkey = refl
nonzero_type v_minkey = refl

module _ (src : Bson) (front key : List ℕ) (v : Value) (ys : List (List ℕ × Value))
    (r : Represents src front ((key, v) ∷ ys)) where
  abbrev all_of : List ℕ
  all_of = encode_all ((key, v) ∷ ys)

  not_empty : is_empty src ≡ done false
  unfolding is_empty le_bytes
  not_empty = rw (longer, Represents-contents src front ((key, v) ∷ ys) r, nonzero_type v) refl
    where
      longer : (src.len == 5) ≡ false
      longer = ground (arith, Represents-len src front ((key, v) ∷ ys) r)

  taken : take (src.len - 5) (drop 4 (contents src)) ≡ all_of
  unfolding le_bytes
  taken =
      ap₂ (λ (n : ℕ) (d : List ℕ). take n (drop 4 d)) size
        (Represents-contents src front ((key, v) ∷ ys) r)
      ∙ take-append all_of (0 ∷ [])
    where
      size : src.len - 5 ≡ length all_of
      size = omega (arith, Represents-len src front ((key, v) ∷ ys) r)

abbrev pub Concatenated : Allocator → Bson → Bson → List ℕ → List (List ℕ × Value) → Type 0
Concatenated m dst src front elements =
    ((b : Bson) × (concat_documents m dst src ≡ done (b, true)) × Represents b front elements)
    ⊎ ((concat_documents m dst src ≡ done (dst, false)) × Refused m dst (src.len - 5))

-- On an open document, and another whose elements have fewer than 2 ^ 31 bytes, `bson_concat`
-- either answers true and leaves a document that represents the elements of the first and then
-- those of the other, behind the same front; or it answers false and the document is as it was,
-- where the new length is more than BSON_MAX_SIZE or `_bson_grow` answers `false`.
pub concat_documents-Represents :
    (m : Allocator) (dst src : Bson) (front front' : List ℕ) (xs ys : List (List ℕ × Value))
    → Represents dst front xs
    → Represents src front' ys
    → length (encode_all ys) < 2 ^ 31
    → Concatenated m dst src front (xs ++ ys)
unfolding concat_documents is_empty
concat_documents-Represents m dst src front front' xs [] r r' small = inl (
  dst,
  rw ((==_iff src.len 5).1 (Represents-len src front' [] r')) refl,
  subst (Represents dst front) (sym (append-nil xs)) r,
)
concat_documents-Represents m dst src front front' xs ((key, v) ∷ ys) r r' small =
    rw (not_empty src front' key v ys r') (elim added [
      | inl (b, e, a, _) ↦ inl (
        b,
        e,
        record {
          rest = a.rest;
          layout =
              subst (λ (body : List ℕ). Layout b front body a.rest)
                (extended-elements xs ((key, v) ∷ ys)) a.layout;
          is_open = a.is_open;
        },
      )
      | inr (e, why) ↦ inr (e, subst (λ (n : ℕ). Refused m dst n) (sym same_size) why)
    ])
  where
    bytes : List ℕ
    bytes = encode_all ((key, v) ∷ ys)

    body : List ℕ
    body = le_bytes 4 (document_size xs) ++ encode_all xs

    call : Run (Bson × Bool)
    call = append m dst (src.len - 5) (take (src.len - 5) (drop 4 (contents src)) ∷ [])

    same_size : src.len - 5 ≡ length (concat (bytes ∷ []))
    same_size = omega (arith, Represents-len src front' ((key, v) ∷ ys) r', length-append bytes [])

    same_call : call ≡ append m dst (length (concat (bytes ∷ []))) (bytes ∷ [])
    same_call =
        ap₂ (λ (n : ℕ) (d : List ℕ). append m dst n (d ∷ [])) same_size
          (taken src front' key v ys r')

    added : Answered m dst call front body (concat (bytes ∷ []))
    added =
        subst (λ t. Answered m dst t front body (concat (bytes ∷ []))) (sym same_call)
          (append-Answered m dst front body r.rest (bytes ∷ []) r.layout r.is_open
            (omega (arith, small, length-append bytes [])) refl)
