-- ===== src/Bson/Document.antt =====
-- src/bson/bson.c: a document that is being built, as the list of its elements.
use libbson.Base.{ℕ, ◌≡◌, refl, sym, ap, ◌∙◌, Bool, some, List, [], ◌∷◌, ◌++◌, length, take, arith}
use mathlib.Core.List.{append_assoc}
use libbson.Base.Words.{le_bytes}
use libbson.Format.{
  Value, v_regex, v_dbpointer, value_type, encode, element, NoNul, IsDocument, encode_all,
  document_size, document_bytes,
}
use libbson.Run.{Run, done}
use libbson.Bson.{Allocator, Bson}
use libbson.Bson.Grow.{Layout, IsOpen, contents_split}
use libbson.Bson.Append.{contents}
use libbson.Bson.Append.Elements.{Appends}
use libbson.Bson.Value.{static_document, init_static}

-- A value that is no regular expression, and whose collection, where it is a pointer, is a C
-- string.
abbrev pub IsKept : Value → Type 0
IsKept (v_regex r options) = ⊥
IsKept (v_dbpointer collection id) = NoNul collection
IsKept other = Unit

-- `bson_init_static` takes a document of the format.
pub init_static-IsDocument :
    (d : List ℕ) → IsDocument d → init_static d ≡ done (some (static_document d))
unfolding init_static
init_static-IsDocument d (long, short, size, nul) = rw (size, nul) (ground arith)

take_all : (xs : List ℕ) → take (length xs) xs ≡ xs
take_all [] = refl
take_all (x ∷ xs) = ap (λ t. x ∷ t) (take_all xs)

pub static-contents : (d : List ℕ) → contents (static_document d) ≡ d
static-contents d = take_all d

-- An object id that stands where a theorem asks for one.
abbrev zero_id : List ℕ
zero_id = 0 ∷ 0 ∷ 0 ∷ 0 ∷ 0 ∷ 0 ∷ 0 ∷ 0 ∷ 0 ∷ 0 ∷ 0 ∷ 0 ∷ []

module _ (m : Allocator) (b : Bson) (front body rest key : List ℕ) (l : Layout b front body rest)
    (o : IsOpen b) where
  abbrev Adds : Run (Bson × Bool) → List ℕ → Type 0
  Adds = Appends m b front body rest key

-- The memory of `b` holds the document of the elements behind `front`.
pub record Represents (b : Bson) (front : List ℕ) (elements : List (List ℕ × Value)) : Type 0 where
  pub rest : List ℕ
  pub layout : Layout b front (le_bytes 4 (document_size elements) ++ encode_all elements) rest
  pub is_open : IsOpen b

pub encode_all-append :
    (xs ys : List (List ℕ × Value)) → encode_all (xs ++ ys) ≡ encode_all xs ++ encode_all ys
encode_all-append [] ys = refl
encode_all-append ((key, v) ∷ xs) ys =
    ap (λ t. element (value_type v) key (encode v) ++ t) (encode_all-append xs ys)
    ∙ sym (append_assoc (element (value_type v) key (encode v)) (encode_all xs) (encode_all ys))

-- The bytes of a represented document.
pub Represents-contents :
    (b : Bson) (front : List ℕ) (elements : List (List ℕ × Value))
    → Represents b front elements
    → contents b ≡ document_bytes elements
Represents-contents b front elements r =
    contents_split b front (le_bytes 4 (document_size elements) ++ encode_all elements) r.rest
      r.layout
    ∙ append_assoc (le_bytes 4 (document_size elements)) (encode_all elements) (0 ∷ [])
