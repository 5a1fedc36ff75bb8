-- ===== src/Bson/Validate/Built.antt =====
-- The bytes of nested documents are documents.
use libbson.Base.{
  ℕ, ◌+◌, ◌-◌, ◌^◌, ◌<◌, ◌≡◌, refl, sym, ap, ◌∙◌, true, false, none, some, List, [], ◌∷◌, ◌++◌,
  length, length-append, get_elem?, All, arith,
}
use mathlib.Core.List.{append_assoc, append-nil}
use libbson.Base.Words.{le_bytes, length-le_bytes}
use libbson.Base.Memory.{Holds, Holds-behind, get_elem?_of, read_le32_of}
use libbson.Format.{
  Value, NoNul, IsFit, IsDocument, AllFit, encode_all, document_bytes, document_size,
}
use libbson.Iter.Visit.{text_of, document_of}
use libbson.Iter.Visit.Calls.{IsBytes, HasBytes, HoldsBytes}
use libbson.Bson.Validate.Spec.{Elements, end, plain, nested, scoped, to_elements}

-- Keys without NUL, values of the sizes of their C types, documents of fewer than 2 ^ 31 bytes.
-- Texts are any bytes.
abbrev pub IsBuilt : Elements → Type 0
IsBuilt end = Unit
IsBuilt (plain key v rest) =
    (NoNul key × IsBytes key)
    × (IsFit v × HasBytes (text_of v) × (document_of v ≡ none))
    × IsBuilt rest
IsBuilt (nested is_array key inner rest) =
    (NoNul key × IsBytes key)
    × (document_size (to_elements inner) < 2 ^ 31)
    × IsBuilt inner
    × IsBuilt rest
IsBuilt (scoped key js scope rest) =
    (NoNul key × IsBytes key)
    × (NoNul js × IsBytes js × (length js < 2 ^ 30))
    × (document_size (to_elements scope) < 2 ^ 31)
    × IsBuilt scope
    × IsBuilt rest

pub length-document_bytes :
    (elements : List (List ℕ × Value)) → length (document_bytes elements) ≡ document_size elements
unfolding le_bytes
length-document_bytes elements = omega (arith, length-append (encode_all elements) (0 ∷ []))

-- The bytes of a document are its size, its elements and a NUL.
pub document_bytes-IsDocument :
    (elements : List (List ℕ × Value))
    → document_size elements < 2 ^ 31
    → IsDocument (document_bytes elements)
document_bytes-IsDocument elements small = (
  omega (arith, size),
  omega (arith, size),
  read_le32_of (document_size elements) (omega arith) front ∙ ap some (omega (arith, size)),
  ap (λ (k : ℕ). get_elem? (document_bytes elements) k) last ∙ get_elem?_of 0 [] nul,
)
  where
    bytes : List ℕ
    bytes = le_bytes 4 (document_size elements)

    size : length (document_bytes elements) ≡ document_size elements
    size = length-document_bytes elements

    front : Holds (document_bytes elements) 0 bytes
    front = record { back = encode_all elements ++ (0 ∷ []); inside = omega arith; found = refl }

    whole : Holds (document_bytes elements) 0 (bytes ++ encode_all elements ++ (0 ∷ []))
    whole = record {
      back = [];
      inside = omega arith;
      found =
          sym (append-nil _)
          ∙ ap (λ t. t ++ []) (sym (append_assoc bytes (encode_all elements) (0 ∷ [])));
    }

    nul : Holds (document_bytes elements) (0 + length (bytes ++ encode_all elements)) (0 ∷ [])
    nul = Holds-behind (bytes ++ encode_all elements) (0 ∷ []) whole

    last : length (document_bytes elements) - 1 ≡ 0 + length (bytes ++ encode_all elements)
    last = omega (
      arith,
      size,
      length-append bytes (encode_all elements),
      length-le_bytes 4 (document_size elements),
    )

pub AllFit-IsBuilt : (e : Elements) → IsBuilt e → AllFit (to_elements e)
unfolding to_elements
AllFit-IsBuilt end b = tt
AllFit-IsBuilt (plain key v rest) (k, (fit, text, flat), more) =
    ((k.0, fit), AllFit-IsBuilt rest more)
AllFit-IsBuilt (nested true key inner rest) (k, small, inside, more) =
    ((k.0, document_bytes-IsDocument (to_elements inner) small), AllFit-IsBuilt rest more)
AllFit-IsBuilt (nested false key inner rest) (k, small, inside, more) =
    ((k.0, document_bytes-IsDocument (to_elements inner) small), AllFit-IsBuilt rest more)
AllFit-IsBuilt (scoped key js scope rest) (k, code, small, inside, more) = (
  (k.0, (code.0, code.2, document_bytes-IsDocument (to_elements scope) small)),
  AllFit-IsBuilt rest more,
)

pub HoldsBytes-IsBuilt : (e : Elements) → IsBuilt e → All HoldsBytes (to_elements e)
unfolding to_elements
HoldsBytes-IsBuilt end b = tt
HoldsBytes-IsBuilt (plain key v rest) (k, (fit, text, flat), more) =
    ((k.1, text), HoldsBytes-IsBuilt rest more)
HoldsBytes-IsBuilt (nested true key inner rest) (k, small, inside, more) =
    ((k.1, tt), HoldsBytes-IsBuilt rest more)
HoldsBytes-IsBuilt (nested false key inner rest) (k, small, inside, more) =
    ((k.1, tt), HoldsBytes-IsBuilt rest more)
HoldsBytes-IsBuilt (scoped key js scope rest) (k, code, small, inside, more) =
    ((k.1, code.1), HoldsBytes-IsBuilt rest more)
