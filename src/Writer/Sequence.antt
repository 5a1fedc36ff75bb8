-- ===== src/Writer/Sequence.antt =====
-- src/bson/bson-writer.c: a buffer that is being written, as the list of its documents.
use libbson.Base.{
  ℕ, zero, suc, ◌+◌, ◌^◌, ◌≤◌, ◌<◌, ◌≡◌, ◌⊎◌, inl, inr, refl, sym, ap, ◌∙◌, Bool, true, false, not,
  ◌&&◌, Option, none, some, List, [], ◌∷◌, ◌++◌, length, take, drop, length-append, length-take,
  length-drop, take-append-drop, ltb, lt→ltb, arith, Bool-cases,
}
use mathlib.Core.Path.{ap₂, subst}
use mathlib.Core.List.{append_assoc}
use libbson.Run.{Run, done, fault, store}
use libbson.Base.Words.{le_bytes}
use libbson.Format.{Value}
use libbson.Bson.{Allocator, Bson}
use libbson.Bson.Content.{concat, store_behind}
use libbson.Bson.Document.{Represents}
use libbson.Writer.{Writer, fresh_document, write_empty, begin, begin_at, grow_len, turns}
use libbson.Writer.Room.{grow_len_fits, grow_len-Enough, Enough}

-- The empty document over six bytes at the end of a known front.
write_empty-over :
    (w : Writer) (front : List ℕ) (x a b c d e : ℕ) (rest : List ℕ)
    → length front ≡ w.offset
    → write_empty w (front ++ (x ∷ a ∷ b ∷ c ∷ d ∷ e ∷ rest))
      ≡ done (
        record w {
          ready = false;
          document = some (fresh_document w (front ++ (5 ∷ 0 ∷ 0 ∷ 0 ∷ 0 ∷ 0 ∷ rest)));
        },
        true,
      )
unfolding write_empty
write_empty-over w front x a b c d e rest at = rw (zeros, five) refl
  where
    zeros :
        store (front ++ (x ∷ a ∷ b ∷ c ∷ d ∷ e ∷ rest)) (w.offset + 1) (0 ∷ 0 ∷ 0 ∷ 0 ∷ 0 ∷ [])
        ≡ done (front ++ (x ∷ 0 ∷ 0 ∷ 0 ∷ 0 ∷ 0 ∷ rest))
    zeros =
        ap₂ (λ (buf : List ℕ) (at : ℕ). store buf at (0 ∷ 0 ∷ 0 ∷ 0 ∷ 0 ∷ []))
          (sym (append_assoc front (x ∷ []) (a ∷ b ∷ c ∷ d ∷ e ∷ rest)))
          (omega (arith, length-append front (x ∷ [])))
        ∙ store_behind (front ++ (x ∷ [])) (a ∷ b ∷ c ∷ d ∷ e ∷ rest) (0 ∷ 0 ∷ 0 ∷ 0 ∷ 0 ∷ [])
            (omega arith)
        ∙ ap done (
            append_assoc (front ++ (x ∷ [])) (0 ∷ 0 ∷ 0 ∷ 0 ∷ 0 ∷ []) rest
            ∙ append_assoc front (x ∷ []) (0 ∷ 0 ∷ 0 ∷ 0 ∷ 0 ∷ rest))

    five :
        store (front ++ (x ∷ 0 ∷ 0 ∷ 0 ∷ 0 ∷ 0 ∷ rest)) w.offset (5 ∷ [])
        ≡ done (front ++ (5 ∷ 0 ∷ 0 ∷ 0 ∷ 0 ∷ 0 ∷ rest))
    five =
        ap (λ (at : ℕ). store (front ++ (x ∷ 0 ∷ 0 ∷ 0 ∷ 0 ∷ 0 ∷ rest)) at (5 ∷ [])) (sym at)
        ∙ store_behind front (x ∷ 0 ∷ 0 ∷ 0 ∷ 0 ∷ 0 ∷ rest) (5 ∷ []) (omega arith)
        ∙ ap done (append_assoc front (5 ∷ []) (0 ∷ 0 ∷ 0 ∷ 0 ∷ 0 ∷ rest))

-- A list that is long enough, from a place on.
six_bytes :
    (old : List ℕ)
    → 6 ≤ length old
    → (x a b c d e : ℕ) × (rest : List ℕ) × (old ≡ x ∷ a ∷ b ∷ c ∷ d ∷ e ∷ rest)
six_bytes (x ∷ a ∷ b ∷ c ∷ d ∷ e ∷ rest) h = (x, a, b, c, d, e, rest, refl)
six_bytes [] h = absurd (omega (arith, h))
six_bytes (x ∷ []) h = absurd (omega (arith, h))
six_bytes (x ∷ a ∷ []) h = absurd (omega (arith, h))
six_bytes (x ∷ a ∷ b ∷ []) h = absurd (omega (arith, h))
six_bytes (x ∷ a ∷ b ∷ c ∷ []) h = absurd (omega (arith, h))
six_bytes (x ∷ a ∷ b ∷ c ∷ d ∷ []) h = absurd (omega (arith, h))

-- No document under way: the memory begins with the documents, which end at `offset`.
pub record Written (w : Writer) (documents : List (List ℕ)) : Type 0 where
  pub is_ready : w.ready ≡ true
  pub none_open : w.document ≡ none
  pub written : take w.offset w.buf ≡ concat documents
  pub within : w.offset ≤ length w.buf

-- A document of the elements under way, behind the documents.
pub record UnderWay (w : Writer) (documents : List (List ℕ)) (elements : List (List ℕ × Value))
    : Type 0 where
  pub not_ready : w.ready ≡ false
  pub bson : Bson
  pub is_open : w.document ≡ some bson
  pub represents : Represents bson (concat documents) elements
  pub at : length (concat documents) ≡ w.offset

-- What `begin` puts behind a front represents no elements.
pub fresh-Represents :
    (w : Writer) (front rest : List ℕ)
    → length front ≡ w.offset
    → length (front ++ (5 ∷ 0 ∷ 0 ∷ 0 ∷ 0 ∷ 0 ∷ rest)) ≤ 2 ^ 31
    → Represents (fresh_document w (front ++ (5 ∷ 0 ∷ 0 ∷ 0 ∷ 0 ∷ 0 ∷ rest))) front []
unfolding fresh_document le_bytes
fresh-Represents w front rest at small = record {
  rest = 0 ∷ rest;
  layout = record { split = refl; at = at; size = refl };
  is_open = record {
    writable = refl;
    no_child = refl;
    header = omega arith;
    room = omega (arith, length-append front (5 ∷ 0 ∷ 0 ∷ 0 ∷ 0 ∷ 0 ∷ rest), at);
    small = small;
    inline_size = λ e. cc;
    inline_at = λ e. (cc, cc);
  };
}

-- What `begin` makes of memory with six bytes behind the documents.
write_empty-UnderWay :
    (w : Writer) (documents : List (List ℕ)) (buf : List ℕ)
    → take w.offset buf ≡ concat documents
    → w.offset + 6 ≤ length buf
    → length buf ≤ 2 ^ 31
    → (w' : Writer) × (write_empty w buf ≡ done (w', true)) × UnderWay w' documents []
write_empty-UnderWay w documents buf written room small =
    let (x, a, b, c, d, e, rest, old) =
      six_bytes (drop w.offset buf) (omega (arith, length-drop w.offset buf)) in
    let at : length (concat documents) ≡ w.offset =
      omega (arith, ap length written, length-take w.offset buf) in
    let split : buf ≡ concat documents ++ (x ∷ a ∷ b ∷ c ∷ d ∷ e ∷ rest) =
      sym (take-append-drop w.offset buf) ∙ ap₂ (λ s t. s ++ t) written old in
    (
      record w {
        ready = false;
        document = some (fresh_document w (concat documents ++ (5 ∷ 0 ∷ 0 ∷ 0 ∷ 0 ∷ 0 ∷ rest)));
      },
      ap (write_empty w) split ∙ write_empty-over w (concat documents) x a b c d e rest at,
      record {
        not_ready = refl;
        bson = fresh_document w (concat documents ++ (5 ∷ 0 ∷ 0 ∷ 0 ∷ 0 ∷ 0 ∷ rest));
        is_open = refl;
        represents = fresh-Represents w (concat documents) rest at (
            omega (
              arith,
              ap length split,
              length-append (concat documents) (x ∷ a ∷ b ∷ c ∷ d ∷ e ∷ rest),
              length-append (concat documents) (5 ∷ 0 ∷ 0 ∷ 0 ∷ 0 ∷ 0 ∷ rest),
            ));
        at = at;
      },
    )

-- The `memset` of `begin` writes one byte more than it made sure of.
write_empty-short :
    (w : Writer) (buf : List ℕ) → length buf ≡ w.offset + 5 → write_empty w buf ≡ fault
unfolding write_empty store
write_empty-short w buf size = ground arith

take_front : (n : ℕ) (xs ys : List ℕ) → n ≤ length xs → take n (xs ++ ys) ≡ take n xs
take_front zero xs ys h = refl
take_front (suc n) [] ys h = absurd (omega (arith, h))
take_front (suc n) (x ∷ xs) ys h = ap (λ t. x ∷ t) (take_front n xs ys (omega (arith, h)))

take-realloc_front :
    (m : Allocator) (buf : List ℕ) (k n : ℕ)
    → k ≤ length buf
    → length buf ≤ n
    → take k (m.realloc buf n) ≡ take k buf
take-realloc_front m buf k n h larger =
    ap (take k) (
      sym (take-append-drop (length buf) (m.realloc buf n))
      ∙ ap (λ t. t ++ drop (length buf) (m.realloc buf n)) (m.take-realloc buf n larger))
    ∙ take_front k buf (drop (length buf) (m.realloc buf n)) h

-- The three ends of `bson_writer_begin`.
pub data Begun (m : Allocator) (w : Writer) (documents : List (List ℕ)) (n : ℕ) : Type 0 where
  refused :
      length w.buf < w.offset + 5
      → w.can_realloc ≡ false
      → begin m w ≡ done (w, false)
      → Begun m w documents n
  overrun : n ≡ w.offset + 5 → begin m w ≡ fault → Begun m w documents n
  begun :
      (w' : Writer)
      → w.offset + 6 ≤ n
      → begin m w ≡ done (w', true)
      → UnderWay w' documents []
      → Begun m w documents n

begin-refused :
    (m : Allocator) (w : Writer) (documents : List (List ℕ))
    → Written w documents
    → length w.buf < w.offset + 5
    → w.can_realloc ≡ false
    → begin m w ≡ done (w, false)
unfolding begin
begin-refused m w documents h short cannot =
    rw (h.is_ready, lt→ltb (length w.buf) (w.offset + 5) short, cannot) (ap left (sym h.none_open))
  where
    left : Option Bson → Run (Writer × Bool)
    left o = done (record w { ready = true; can_realloc = false; document = o }, false)

begin-at :
    (m : Allocator) (w : Writer) (documents : List (List ℕ)) (n : ℕ)
    → Written w documents
    → grow_len turns (w.offset + 5) (length w.buf) ≡ some n
    → (ltb (length w.buf) (w.offset + 5) && not w.can_realloc) ≡ false
    → begin m w ≡ begin_at m w (some n)
unfolding begin
begin-at m w documents n h e allowed = rw (h.is_ready, e, allowed) refl

begin_at_lem :
    (m : Allocator) (w : Writer) (n : ℕ)
    → (ltb (length w.buf) (w.offset + 5) ≡ true
        → begin_at m w (some n) ≡ write_empty w (m.realloc w.buf n))
      × (ltb (length w.buf) (w.offset + 5) ≡ false → begin_at m w (some n) ≡ write_empty w w.buf)
unfolding begin_at
begin_at_lem m w n = (λ short. rw short refl, λ fits. rw fits refl)

-- The end of `begin` in memory of `n` bytes that keeps the documents.
Begun-in :
    (m : Allocator) (w : Writer) (documents : List (List ℕ)) (n : ℕ) (buf : List ℕ)
    → begin m w ≡ write_empty w buf
    → take w.offset buf ≡ concat documents
    → length buf ≡ n
    → w.offset + 5 ≤ n
    → n ≤ 2 ^ 31
    → Begun m w documents n
Begun-in m w documents n buf e written size room small = elim split [
  | inl tight ↦ overrun tight (e ∙ write_empty-short w buf (size ∙ tight))
  | inr wide ↦
      let (w', written_over, under_way) =
        write_empty-UnderWay w documents buf written (omega arith) (omega arith) in
      begun w' wide (e ∙ written_over) under_way
]
  where
    split : (n ≡ w.offset + 5) ⊎ (w.offset + 6 ≤ n)
    split = omega arith

grown_len :
    (needed buflen n : ℕ)
    → needed ≤ 2 ^ 63
    → grow_len turns needed buflen ≡ some n
    → Enough needed buflen n
grown_len needed buflen n small e =
    let (n', e', enough) = grow_len-Enough needed buflen small in
    let same : n' ≡ n = cc in subst (λ (k : ℕ). Enough needed buflen k) same enough

-- `bson_writer_begin` on a writer that holds documents and has none under way, in memory of at
-- most 2 ^ 31 bytes, with `offset` at most 2 ^ 30 - 5, where its loop ends with the length `n`:
-- it refuses and leaves the writer as it was, where the memory is short and cannot grow; it writes
-- out of bounds where `n` has five bytes behind the documents; and else the empty document is
-- under way behind the documents.
pub begin-Begun :
    (m : Allocator) (w : Writer) (documents : List (List ℕ)) (n : ℕ)
    → Written w documents
    → w.offset + 5 ≤ 2 ^ 30
    → length w.buf ≤ 2 ^ 31
    → grow_len turns (w.offset + 5) (length w.buf) ≡ some n
    → Begun m w documents n
begin-Begun m w documents n h low small e = elim (Bool-cases (ltb (length w.buf) (w.offset + 5))) [
  | inl short ↦ elim (Bool-cases w.can_realloc) [
    | inl can ↦
        Begun-in m w documents n (m.realloc w.buf n)
          (begin-at m w documents n h e (rw (can, short) refl) ∙ (begin_at_lem m w n).0 short)
          (take-realloc_front m w.buf w.offset n h.within enough.1 ∙ h.written)
          (m.length-realloc w.buf n) enough.0 (omega (arith, enough))
    | inr cannot ↦
        refused (ground arith) cannot (begin-refused m w documents h (ground arith) cannot)
  ]
  | inr fits ↦
      Begun-in m w documents n w.buf
        (begin-at m w documents n h e (rw fits refl) ∙ (begin_at_lem m w n).1 fits) h.written
        (same_len (ground arith)) enough.0 (omega (arith, enough))
]
  where
    enough : Enough (w.offset + 5) (length w.buf) n
    enough = grown_len (w.offset + 5) (length w.buf) n (omega arith) e

    same_len : w.offset + 5 ≤ length w.buf → length w.buf ≡ n
    same_len room = let fits = grow_len_fits 65 (w.offset + 5) (length w.buf) room in cc
