-- ===== src/Bson/Content.antt =====
-- src/bson/bson.c: what `_bson_append` makes of the bytes of a document.
mod Stores
pub use Stores.{concat, extended, length-extended, store-length, store_behind, write_pairs_lem}
use Stores.{with_bytes, write_all_lem}
use libbson.Base.{
  ℕ, suc, ◌+◌, ◌-◌, ◌%◌, ◌^◌, ◌≤◌, ◌<◌, ◌≡◌, ◌⊎◌, inl, inr, refl, sym, ap, ◌∙◌, Bool, true, false,
  not, List, [], ◌∷◌, ◌++◌, length, drop, length-append, length-drop, arith, ltb, Bool-cases,
  if◌then◌else◌,
}
use libbson.Run.{aborted, Run, done, assert, ◌>>=◌}
use libbson.Bson.{has_first, Allocator, Bson, max_size, grow, write_all, append_va, append}
use libbson.Bson.Append.{contents}
use libbson.Bson.Grow.{Layout, IsOpen, grow_step, contents_split}
use mathlib.Core.Path.{ap₂}

-- What appending `more` to an open document leaves.
pub record Appended (b b' : Bson) (front body more : List ℕ) : Type 0 where
  pub rest : List ℕ
  pub layout : Layout b' front (extended body more) rest
  pub is_open : IsOpen b'
  pub bytes : contents b' ≡ extended body more ++ (0 ∷ [])

with_bytes-Appended :
    (b b' : Bson) (size : ℕ) (front body rest more : List ℕ)
    → Layout b' front body rest
    → IsOpen b'
    → b'.offset + b'.len + length more + b'.depth ≤ length b'.buf
    → Appended b
        (with_bytes b' front body more (drop 1 (drop (length more) (0 ∷ rest))))
        front
        body
        more
with_bytes-Appended b b' size front body rest more l o room = record {
  rest = drop 1 (drop (length more) (0 ∷ rest));
  layout = layout';
  is_open = record {
    writable = o.writable;
    no_child = o.no_child;
    header = omega (arith, o.header, l.size);
    room = omega (arith, same_length, l.size, room);
    small = omega (arith, same_length, o.small);
    inline_size = λ e. same_length ∙ o.inline_size e;
    inline_at = o.inline_at;
  };
  bytes =
      contents_split _ front (extended body more) (drop 1 (drop (length more) (0 ∷ rest))) layout';
}
  where
    tail : List ℕ
    tail = drop 1 (drop (length more) (0 ∷ rest))

    long : 4 ≤ length body
    long = omega (arith, l.size, o.header)

    layout' : Layout (with_bytes b' front body more tail) front (extended body more) tail
    layout' = record {
      split = refl;
      at = l.at;
      size = omega (arith, length-extended body more long);
    }

    same_length : length (front ++ (extended body more ++ (0 ∷ tail))) ≡ length b'.buf
    same_length = omega (
      arith,
      length-append front (extended body more ++ (0 ∷ tail)),
      length-append (extended body more) (0 ∷ tail),
      length-extended body more long,
      length-drop 1 (drop (length more) (0 ∷ rest)),
      length-drop (length more) (0 ∷ rest),
      ap length l.split,
      length-append front (body ++ (0 ∷ rest)),
      length-append body (0 ∷ rest),
      l.at,
      l.size,
      room,
    )

append_va_lem :
    (m : Allocator) (b : Bson) (front body rest : List ℕ) (pairs : List (List ℕ))
    → Layout b front body rest
    → IsOpen b
    → length (concat pairs) < 2 ^ 31
    → ((b' : Bson) × (append_va m b (length (concat pairs)) pairs ≡ done (b', true))
        × Appended b b' front body (concat pairs))
      ⊎ ((append_va m b (length (concat pairs)) pairs ≡ done (b, false))
          × (grow m b (length (concat pairs)) ≡ done (b, false)))
unfolding append_va
append_va_lem m b front body rest pairs l o h =
    elim (grow_step m b (length (concat pairs)) front body rest l o (omega arith)) [
      | inl (b', e, g) ↦ inl (
        with_bytes b' front body (concat pairs)
            (drop 1 (drop (length (concat pairs)) (0 ∷ g.rest))),
        gates
            ∙ ap after e
            ∙ write_all_lem b' front body g.rest pairs g.layout g.is_open.header
                (omega (arith, g.room, g.is_open.small)) (omega (arith, g.room)),
        with_bytes-Appended b b' 0 front body g.rest (concat pairs) g.layout g.is_open g.room,
      )
      | inr e ↦ inr (gates ∙ ap after e, e)
    ]
  where
    after : Run (Bson × Bool) → Run (Bson × Bool)
    after r = r >>= λ x. if x.1 then write_all x.0 pairs else done (x.0, false)

    gate : Bool → Bool → Run (Bson × Bool)
    gate c r =
        assert (not c) >>= λ _. assert (not r) >>= λ _. after (grow m b (length (concat pairs)))

    gates : append_va m b (length (concat pairs)) pairs ≡ after (grow m b (length (concat pairs)))
    gates = ap₂ gate o.no_child o.writable

-- Why bytes are refused: the document would be longer than BSON_MAX_SIZE, or cannot grow.
abbrev pub Refused : Allocator → Bson → ℕ → Type 0
Refused m b size = (max_size < b.len + size) ⊎ (grow m b size ≡ done (b, false))

-- The run adds the bytes, which the length can hold, or refuses them.
abbrev pub Answered : Allocator → Bson → Run (Bson × Bool) → List ℕ → List ℕ → List ℕ → Type 0
Answered m b run front body more =
    ((b' : Bson) × (run ≡ done (b', true))
      × Appended b b' front body more
      × (b.len + length more ≤ max_size))
    ⊎ ((run ≡ done (b, false)) × Refused m b (length more))

has_first_lem : (pairs : List (List ℕ)) → has_first pairs ≡ true → 0 < length (concat pairs)
has_first_lem [] h = ground arith
has_first_lem ([] ∷ xs) h = ground arith
has_first_lem ((x ∷ xs) ∷ rest) h = omega arith

-- What was added to lies in a memory of at most 2 ^ 31 bytes.
Appended-size :
    (b b' : Bson) (front body more : List ℕ)
    → b.len ≡ suc (length body)
    → 5 ≤ b.len
    → Appended b b' front body more
    → b.len + length more ≤ 2 ^ 31
Appended-size b b' front body more size header a = omega (
  arith,
  size,
  header,
  ap length a.layout.split,
  length-append front (extended body more ++ (0 ∷ a.rest)),
  length-append (extended body more) (0 ∷ a.rest),
  length-extended body more (omega (arith, size, header)),
  a.is_open.small,
)

-- An append of pairs of which the first has bytes.
pub append-Answered :
    (m : Allocator) (b : Bson) (front body rest : List ℕ) (pairs : List (List ℕ))
    → Layout b front body rest
    → IsOpen b
    → length (concat pairs) < 2 ^ 31
    → has_first pairs ≡ true
    → Answered m b (append m b (length (concat pairs)) pairs) front body (concat pairs)
unfolding append
append-Answered m b front body rest pairs l o h first =
    rw first
      (elim (Bool-cases (ltb ((max_size + (2 ^ 64 - b.len)) % 2 ^ 64) (length (concat pairs)))) [
        | inl full ↦ inr (ap choose full, inl (ground (arith, o.room, o.small)))
        | inr fits ↦ elim (append_va_lem m b front body rest pairs l o h) [
          | inl (b', e, a) ↦ inl (b', ap choose fits ∙ e, a, bound b' a fits)
          | inr (e, stuck) ↦ inr (ap choose fits ∙ e, inr stuck)
        ]
      ])
  where
    choose : Bool → Run (Bson × Bool)
    choose t = if t then done (b, false) else append_va m b (length (concat pairs)) pairs

    bound :
        (b' : Bson)
        → Appended b b' front body (concat pairs)
        → ltb ((max_size + (2 ^ 64 - b.len)) % 2 ^ 64) (length (concat pairs)) ≡ false
        → b.len + length (concat pairs) ≤ max_size
    bound b' a fits =
        let some_bytes = has_first_lem pairs first in
        let fits_memory = Appended-size b b' front body (concat pairs) (sym l.size) o.header a in
        ground (arith, some_bytes, fits_memory)

-- On an open document that lies in its memory, given pairs with their length in bytes, of fewer
-- than 2 ^ 31, `_bson_append` ends in one of three ways, and with no write out of bounds. Where
-- there is no pair, or the first has no bytes, an assertion fails. Else it answers `true` and
-- leaves an open document, in front of which the memory is as it was, of the new length, the old
-- bytes, those of the pairs and the NUL, where that length is at most BSON_MAX_SIZE; or it answers
-- `false` and the document is as it was, where the new length is more than that or `_bson_grow`
-- answers `false`.
pub append_step :
    (m : Allocator) (b : Bson) (front body rest : List ℕ) (pairs : List (List ℕ))
    → Layout b front body rest
    → IsOpen b
    → length (concat pairs) < 2 ^ 31
    → ((has_first pairs ≡ true)
        × Answered m b (append m b (length (concat pairs)) pairs) front body (concat pairs))
      ⊎ ((has_first pairs ≡ false) × (append m b (length (concat pairs)) pairs ≡ aborted))
unfolding append
append_step m b front body rest pairs l o h = elim (Bool-cases (has_first pairs)) [
  | inl first ↦ inl (first, append-Answered m b front body rest pairs l o h first)
  | inr none_ ↦ inr (none_, rw none_ refl)
]
