-- ===== src/Bson/Copy/Kept.antt =====
-- src/bson/bson.c: what a copy without some keys holds.
use libbson.Base.{
  ℕ, suc, ◌+◌, ◌^◌, ◌<◌, ◌≡◌, ◌⊎◌, ap, true, false, some, List, [], ◌∷◌, ◌++◌, length, All, Bool,
  ◌||◌, if◌then◌else◌,
}
use libbson.Format.{Value, encode}
use libbson.Base.Texts.{is_text}
use libbson.Run.{Run, done, aborted, load, ◌>>=◌}
use libbson.Bson.{Allocator, Bson}
use libbson.Bson.Value.{append_value}
use libbson.Bson.Document.{IsKept, Represents}
use libbson.Bson.Copy.{copy_key, copy_loop}
use libbson.Iter.{Iter}
use libbson.Iter.Next.{next}
use libbson.Iter.Read.{read_key}
use libbson.Iter.Read.Value.{value}

-- That a key is among some names.
unfoldable pub is_listed : List (List ℕ) → List ℕ → Bool
is_listed [] key = false
is_listed (name ∷ names) key = is_text key name || is_listed names key

-- The elements whose keys are not listed.
abbrev pub kept : List (List ℕ) → List (List ℕ × Value) → List (List ℕ × Value)
kept excludes [] = []
kept excludes ((key, v) ∷ rest) =
    let others = kept excludes rest in if is_listed excludes key then others else (key, v) ∷ others

-- A copy appends the elements, or aborts at the first that `bson_append_value` refuses.
abbrev pub Copied :
    Allocator → Run Bson → List ℕ → List (List ℕ × Value) → List (List ℕ × Value) → Type 0
Copied m run front xs added =
    ((b : Bson) × (run ≡ done b) × Represents b front (xs ++ added))
    ⊎ ((b : Bson) × (ys : List (List ℕ × Value)) × (key : List ℕ) × (v : Value) × (zs : List
          (List ℕ × Value))
        × (added ≡ ys ++ ((key, v) ∷ zs))
        × Represents b front (xs ++ ys)
        × (append_value m b key v ≡ done (b, false))
        × (run ≡ aborted))

-- Values that are no regular expressions, and whose collections are C strings, of which the next is small enough to be appended.
abbrev pub AllCopied : List (List ℕ × Value) → Type 0
AllCopied elements =
    All (λ (e : List ℕ × Value). IsKept e.1 × (length e.0 + length (encode e.1) + 20 < 2 ^ 31))
      elements

module _ (m : Allocator) (excludes : List (List ℕ)) (front : List ℕ) where
  abbrev Copies : ℕ → Iter → List (List ℕ × Value) → Type 0
  Copies rounds it elements =
      (xs : List (List ℕ × Value)) (dst : Bson)
      → Represents dst front xs
      → Copied m (copy_loop rounds m excludes it dst) front xs (kept excludes elements)

  -- The turn of the loop on an element.
  module _ (rounds : ℕ) (it it' : Iter) (key : List ℕ) (v : Value) (e : next it ≡ some (it', true))
      (ek : read_key it' ≡ some key) (ev : value it' ≡ some (some v)) where
    turn :
        (dst : Bson)
        → copy_loop (suc rounds) m excludes it dst
          ≡ copy_key m excludes key it' dst (λ dst'. copy_loop rounds m excludes it' dst')
    unfolding copy_loop
    turn dst = rw e (
        ap
          (λ k. load k >>= λ x.
            copy_key m excludes x it' dst (λ dst'. copy_loop rounds m excludes it' dst'))
          ek)
