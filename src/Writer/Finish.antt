-- ===== src/Writer/Finish.antt =====
-- src/bson/bson-writer.c: the end of a document, and what takes it back.
use libbson.Base.{
  ℕ, ◌+◌, ◌≡◌, refl, sym, ap, ◌∙◌, true, none, some, List, [], ◌∷◌, ◌++◌, length, take,
  length-append, take-append, arith,
}
use mathlib.Core.Path.{ap₂}
use mathlib.Core.List.{append_assoc, append-nil}
use libbson.Run.{done}
use libbson.Base.Words.{le_bytes}
use libbson.Format.{Value, document_bytes, encode_all, document_size}
use libbson.Bson.{Bson}
use libbson.Bson.Content.{concat}
use libbson.Bson.Document.{Represents}
use libbson.Writer.{Writer, end, rollback, memory, document_len, get_length}
use libbson.Writer.Sequence.{Written, UnderWay}

concat-one_more :
    (documents : List (List ℕ)) (d : List ℕ)
    → concat (documents ++ (d ∷ [])) ≡ concat documents ++ d
concat-one_more [] d = append-nil d
concat-one_more (x ∷ documents) d =
    ap (λ t. x ++ t) (concat-one_more documents d) ∙ sym (append_assoc x (concat documents) d)

-- The memory up to the end of a represented document.
module _ (b : Bson) (front : List ℕ) (elements : List (List ℕ × Value))
    (r : Represents b front elements) where
  memory_split : b.buf ≡ (front ++ document_bytes elements) ++ r.rest
  memory_split =
      r.layout.split
      ∙ sym (append_assoc front body (0 ∷ r.rest))
      ∙ sym (append_assoc (front ++ body) (0 ∷ []) r.rest)
      ∙ ap (λ t. t ++ r.rest)
          (append_assoc front body (0 ∷ [])
            ∙ ap (λ t. front ++ t)
                (append_assoc (le_bytes 4 (document_size elements)) (encode_all elements) (0 ∷ [])))
    where
      body : List ℕ
      body = le_bytes 4 (document_size elements) ++ encode_all elements

  document_end : b.offset + b.len ≡ length (front ++ document_bytes elements)
  document_end = omega (
    arith,
    r.layout.at,
    r.layout.size,
    length-append front (document_bytes elements),
    length-append (le_bytes 4 (document_size elements)) (encode_all elements),
    length-append (le_bytes 4 (document_size elements)) (encode_all elements ++ (0 ∷ [])),
    length-append (encode_all elements) (0 ∷ []),
  )

  take_document : take (b.offset + b.len) b.buf ≡ front ++ document_bytes elements
  take_document =
      ap₂ (λ (n : ℕ) buf. take n buf) document_end memory_split
      ∙ take-append (front ++ document_bytes elements) r.rest

memory_lem : (w : Writer) (b : Bson) → w.document ≡ some b → memory w ≡ b.buf
unfolding memory
memory_lem w b e = rw (e) refl

-- On a writer with a document under way that represents a list of elements, `bson_writer_end`
-- leaves a writer that holds one document more, the bytes of that list, and the length that the
-- writer tells stays.
pub end-Written :
    (w : Writer) (documents : List (List ℕ)) (elements : List (List ℕ × Value))
    → UnderWay w documents elements
    → (w' : Writer) × (end w ≡ done w')
      × Written w' (documents ++ (document_bytes elements ∷ []))
      × (get_length w' ≡ get_length w)
unfolding end memory document_len get_length
end-Written w documents elements u = (
  record w { ready = true; buf = u.bson.buf; offset = w.offset + u.bson.len; document = none },
  rw (u.not_ready, u.is_open) refl,
  record {
    is_ready = refl;
    none_open = refl;
    written =
        ap (λ (n : ℕ). take n u.bson.buf) at_end
        ∙ take_document u.bson (concat documents) elements u.represents
        ∙ sym (concat-one_more documents (document_bytes elements));
    within = omega (arith, at_end, u.represents.is_open.room);
  },
  rw (u.is_open) (omega arith),
)
  where
    at_end : w.offset + u.bson.len ≡ u.bson.offset + u.bson.len
    at_end = omega (arith, u.at, u.represents.layout.at)

-- On a writer with a document under way, `bson_writer_rollback` leaves a writer that holds the
-- documents in front of it, and tells their length.
pub rollback-Written :
    (w : Writer) (documents : List (List ℕ)) (elements : List (List ℕ × Value))
    → UnderWay w documents elements
    → Written (rollback w) documents × (get_length (rollback w) ≡ length (concat documents))
unfolding rollback memory document_len get_length
rollback-Written w documents elements u = (
  record {
    is_ready = refl;
    none_open = refl;
    written =
        ap₂ (λ (n : ℕ) (buf : List ℕ). take n buf) (sym u.at)
          (memory_lem w u.bson u.is_open ∙ u.represents.layout.split)
        ∙ take-append (concat documents) (
            (le_bytes 4 (document_size elements) ++ encode_all elements)
            ++ (0 ∷ u.represents.rest));
    within =
        rw (memory_lem w u.bson u.is_open)
          (omega (arith, u.at, u.represents.layout.at, u.represents.is_open.room));
  },
  omega (arith, u.at),
)
