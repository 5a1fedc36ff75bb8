-- ===== src/Iter/Find.antt =====
-- src/bson/bson-iter.c: recursion into a document and the search for a key; src/bson/bson.c: what
-- counts and looks up the keys of a document with an iterator.
-- The loops run on fuel: every step of an iterator goes on by two bytes at least, so the length of
-- the document is enough. `none` is a read past the memory, or the end of the fuel.
pub mod Count
pub mod Search
use libbson.Base.{
  ℕ, zero, suc, ◌+◌, ◌-◌, Bool, true, false, Option, none, some, List, [], ◌∷◌, get_elem?, length,
  drop, ltb, leb, ◌==◌, ◌&&◌, ◌||◌, if◌then◌else◌, ◌>>=◌,
}
use libbson.Base.Words.{add32, read_le32}
use libbson.Types.{BsonType, document, array, to_byte}
use libbson.Iter.{Iter}
use libbson.Iter.Next.{next, zeroed, fresh, init}
use libbson.Iter.Read.{iter_type, read_key, read_document, read_array}

-- `bson_iter_recurse`: an iterator over the memory from the data on.
unfoldable pub recurse_into : Iter → Option (Iter × Bool)
recurse_into it = do raw ← it.raw; l ← read_le32 raw it.d1; some (fresh (drop it.d1 raw) l, true)

unfoldable pub recurse : Iter → Option (Iter × Bool)
unfolding iter_type recurse_into
recurse it = do
  t ← iter_type it
  let child = recurse_into it
  if t == to_byte document || t == to_byte array then child else some (zeroed, false)

-- `strncmp (key, ikey, keylen)` is 0, for a key of `keylen` bytes.
unfoldable pub is_prefix : List ℕ → List ℕ → Bool
is_prefix [] ikey = true
is_prefix (x ∷ key) [] = false
is_prefix (x ∷ key) (y ∷ ikey) = x == y && is_prefix key ikey

-- The test of the loop: and `ikey[keylen]` is NUL.
unfoldable pub same_key : List ℕ → List ℕ → Bool
unfolding is_prefix
same_key key ikey = is_prefix key ikey && length ikey == length key

-- The loop of `_bson_iter_find_with_len`.
unfoldable pub find_loop : ℕ → List ℕ → Iter → Option (Iter × Bool)
find_loop zero key it = none
find_loop (suc fuel) key it = do
  (it', ok) ← next it
  let rest = find_loop fuel key it'
  let here = (do ikey ← read_key it'; if same_key key ikey then some (it', true) else rest)
  if ok then here else some (it', false)

-- `bson_iter_find`: the length of the key is taken by `strlen`.
unfoldable pub find : List ℕ → Iter → Option (Iter × Bool)
find key it = find_loop (suc it.len) key it

-- `_bson_iter_find_with_len`, with the first `keylen` bytes of the key, `keylen` no less than 0.
unfoldable pub find_with_len : List ℕ → Iter → Option (Iter × Bool)
find_with_len [] it = some (it, false)
find_with_len (x ∷ key) it = find_loop (suc it.len) (x ∷ key) it

-- `bson_iter_init_find`
unfoldable pub init_find : List ℕ → ℕ → List ℕ → Option (Iter × Bool)
init_find bytes len key =
    let found = find key (init bytes len).0 in
    if (init bytes len).1 then found else some ((init bytes len).0, false)

-- `strchr (dotkey, '.')`: what stands in front of the first dot, and behind it.
unfoldable pub split_dot : List ℕ → List ℕ × Option (List ℕ)
split_dot [] = ([], none)
split_dot (x ∷ xs) =
    let (before, behind) = split_dot xs in if x == b'.' then ([], some xs) else (x ∷ before, behind)

-- `bson_iter_find_descendant`. Each round goes behind a dot, so the length of the key is enough.
unfoldable pub find_descendant : ℕ → Iter → List ℕ → Option (Option Iter)
find_descendant zero it dotkey = none
find_descendant (suc fuel) it dotkey = do
  (it', found) ← find_with_len (split_dot dotkey).0 it
  elim (split_dot dotkey).1 [
    | none ↦ some (if found then some it' else none)
    | some rest ↦ do
      (child, entered) ← if found then recurse it' else some (zeroed, false)
      elim entered [ true ↦ find_descendant fuel child rest | false ↦ some none ]
  ]

-- The loop of `bson_count_keys`.
unfoldable pub count_loop : ℕ → Iter → ℕ → Option ℕ
count_loop zero it count = none
count_loop (suc fuel) it count = do
  (it', ok) ← next it
  let rest = count_loop fuel it' (add32 count 1)
  if ok then rest else some count

-- `bson_count_keys`, given the data and the length of the document.
unfoldable pub count_keys : List ℕ → ℕ → Option ℕ
count_keys bytes len =
    let counted = count_loop (suc len) (init bytes len).0 0 in
    if (init bytes len).1 then counted else some 0
