-- ===== src/Bson/Whole.antt =====
-- src/bson/bson.c: whole documents compared, searched and put one behind the other.
pub mod Concat
use libbson.Base.{
  ℕ, zero, suc, ◌+◌, ◌-◌, ◌^◌, Bool, true, false, ◌&&◌, Option, none, some, List, [], ◌∷◌, length,
  take, drop, get_elem?, ltb, ◌==◌, ◌>>=◌ as ◌>>?◌, if◌then◌else◌,
}
use Prim.Native.Nat.{min}
use libbson.Run.{Run, done, load, ◌>>=◌}
use libbson.Oid.{Sign, less, same, more, memcmp}
use libbson.Bson.{Allocator, Bson, append}
use libbson.Bson.Append.{contents}
use libbson.Iter.{Iter}
use libbson.Iter.Next.{init}
use libbson.Iter.Find.{init_find, split_dot, find_descendant}

-- The sign of `len1 - len2` where the bytes do not differ.
unfoldable pub by_length : Sign → ℕ → ℕ → Sign
by_length less len1 len2 = less
by_length same len1 len2 = if ltb len1 len2 then less else if len1 == len2 then same else more
by_length more len1 len2 = more

-- `bson_compare`
unfoldable pub compare_documents : Bson → Bson → Sign
unfolding by_length
compare_documents b other =
    let data1 = drop 4 (contents b) in
    let data2 = drop 4 (contents other) in
    let len1 = b.len - 4 in
    let len2 = other.len - 4 in
    if len1 == len2
    then memcmp (take len1 data1) (take len1 data2)
    else by_length (memcmp (take (min len1 len2) data1) (take (min len1 len2) data2)) len1 len2

-- `bson_equal`
unfoldable pub equal_documents : Bson → Bson → Bool
equal_documents b other = elim (compare_documents b other) [
  | same ↦ true
  | less ↦ false
  | more ↦ false
]

-- `bson_has_field`. The rounds of the search for a dotted path are the bytes of the key.
unfoldable pub has_field : Bson → List ℕ → Option Bool
has_field b key =
    let (it, ok) = init (contents b) b.len in
    let descendant =
      find_descendant (suc (length key)) it key
      >>? (λ found. some (ok && elim found [ none ↦ false | some child ↦ true ])) in
    let direct = init_find (contents b) b.len key >>? (λ r. some r.1) in
    elim (split_dot key).1 [ none ↦ direct | some rest ↦ descendant ]

-- `bson_empty`, a macro of bson.h.
unfoldable pub is_empty : Bson → Run Bool
is_empty b =
    let no_type = (do first ← load (get_elem? (contents b) 4); done (first == 0)) in
    if b.len == 5 then done true else no_type

-- `bson_concat`: the elements of `src`, in one append.
unfoldable pub concat_documents : Allocator → Bson → Bson → Run (Bson × Bool)
unfolding is_empty
concat_documents m dst src = do
  empty ← is_empty src
  let added = append m dst (src.len - 5) (take (src.len - 5) (drop 4 (contents src)) ∷ [])
  if empty then done (dst, true) else added
