-- ===== src/Bson/Grow.antt =====
-- src/bson/bson.c and bson-types.h: room for what is appended.
use libbson.Base.{
  ℕ, suc, ◌+◌, ◌-◌, ◌/◌, ◌%◌, ◌^◌, ◌≤◌, ◌<◌, ◌≡◌, ◌⊎◌, inl, inr, refl, sym, ap, ◌∙◌, Bool, true,
  false, ◌&&◌, List, [], ◌∷◌, ◌++◌, length, take, drop, length-append, length-take, length-drop,
  take-append-drop, drop-append, take_one_more, nil_of_length, arith, leb, Bool-cases,
  if◌then◌else◌,
}
use libbson.Base.Bits.{le-bit_or, bit_or-lt}
use libbson.Run.{Run, done, store}
use libbson.Bson.{
  Allocator, Bson, smear, next_power_of_two, max_size, inline_grow, alloc_grow, grow,
}
use mathlib.Core.List.{append_assoc}
use native.Mathlib.Nat.{le_trans, pow-le-pow_right, mul-div-le, one-le-pow}

div-le : (v d : ℕ) → 1 ≤ d → v / d ≤ v
div-le v d h = grind (arith, mul-div-le v d)

smear-lt : (j k v : ℕ) → v < 2 ^ k → smear j v < 2 ^ k
smear-lt j k v h =
    bit_or-lt k v (v / 2 ^ j) h (omega (arith, div-le v (2 ^ j) (one-le-pow j 2 (omega arith))))

le-smear : (j v : ℕ) → v ≤ smear j v
le-smear j v = le-bit_or v (v / 2 ^ j)

abbrev smeared : ℕ → ℕ
smeared v = smear 32 (smear 16 (smear 8 (smear 4 (smear 2 (smear 1 v)))))

smeared-lt : (k v : ℕ) → v < 2 ^ k → smeared v < 2 ^ k
smeared-lt k v h =
    smear-lt 32 k _
      (smear-lt 16 k _ (smear-lt 8 k _ (smear-lt 4 k _ (smear-lt 2 k _ (smear-lt 1 k v h)))))

le-smeared : (v : ℕ) → v ≤ smeared v
le-smeared v = le_trans (le-smear 1 v) (
    le_trans (le-smear 2 _) (
      le_trans (le-smear 4 _) (le_trans (le-smear 8 _) (le_trans (le-smear 16 _) (le-smear 32 _)))))

-- For a positive argument that is at most 2 ^ k, where k is at most 63, `bson_next_power_of_two` is
-- no smaller than the argument and at most 2 ^ k.
next_power_of_two_bounds :
    (k v : ℕ)
    → 0 < v
    → v ≤ 2 ^ k
    → k ≤ 63
    → (v ≤ next_power_of_two v) × (next_power_of_two v ≤ 2 ^ k)
unfolding next_power_of_two
next_power_of_two_bounds k v pos h hk =
    omega (arith, next, smeared-lt k (v - 1) (omega arith), le-smeared (v - 1), top)
  where
    top : 2 ^ k ≤ 2 ^ 63
    top = pow-le-pow_right (omega arith) hk

    next : next_power_of_two v ≡ (smeared (v - 1) + 1) % 2 ^ 64
    next = ap (λ (t : ℕ). (smeared t + 1) % 2 ^ 64) (omega (arith, top))

-- Where the bytes of a document lie: `front` in front of it, its bytes but for the last one, and
-- the rest of the memory behind that last one.
pub record Layout (b : Bson) (front body rest : List ℕ) : Type 0 where
  pub split : b.buf ≡ front ++ (body ++ (0 ∷ rest))
  pub at : length front ≡ b.offset
  pub size : suc (length body) ≡ b.len

-- A document that can be appended to.
pub record IsOpen (b : Bson) : Type 0 where
  pub writable : b.is_rdonly ≡ false
  pub no_child : b.in_child ≡ false
  pub header : 5 ≤ b.len
  pub room : b.offset + b.len + b.depth ≤ length b.buf
  pub small : length b.buf ≤ 2 ^ 31
  pub inline_size : b.is_inline ≡ true → length b.buf ≡ 120
  pub inline_at : b.is_inline ≡ true → (b.offset ≡ 0) × (b.depth ≡ 0)

-- What `_bson_grow` leaves when it succeeds: the same document, with room for `size` bytes.
pub record Grown (b b' : Bson) (size : ℕ) (front body : List ℕ) : Type 0 where
  pub rest : List ℕ
  pub layout : Layout b' front body rest
  pub is_open : IsOpen b'
  pub room : b'.offset + b'.len + size + b'.depth ≤ length b'.buf
  pub same_child : b'.is_child ≡ b.is_child
  pub same_depth : b'.depth ≡ b.depth

-- The layout after the memory has grown at its end.
Layout-more :
    (b : Bson) (front body rest more : List ℕ)
    → Layout b front body rest
    → b.buf ++ more ≡ front ++ (body ++ (0 ∷ (rest ++ more)))
Layout-more b front body rest more l =
    ap (λ t. t ++ more) l.split
    ∙ append_assoc front (body ++ (0 ∷ rest)) more
    ∙ ap (λ t. front ++ t) (append_assoc body (0 ∷ rest) more)

-- The bytes of a laid out document.
pub contents_split :
    (b : Bson) (front body rest : List ℕ)
    → Layout b front body rest
    → take b.len (drop b.offset b.buf) ≡ body ++ (0 ∷ [])
contents_split b front body rest l =
    ap (λ (n : ℕ). take n (drop b.offset b.buf)) (sym l.size)
    ∙ ap (λ t. take (suc (length body)) t)
        (ap (λ (n : ℕ). drop n b.buf) (sym l.at)
          ∙ ap (drop (length front)) l.split
          ∙ drop-append front (body ++ (0 ∷ rest)))
    ∙ take_one_more body 0 rest

-- A `memcpy` that fits.
pub store_fits :
    (buf : List ℕ) (at : ℕ) (bytes : List ℕ)
    → at + length bytes ≤ length buf
    → store buf at bytes ≡ done (take at buf ++ (bytes ++ drop (at + length bytes) buf))
unfolding store
store_fits buf at bytes h = ground arith

module _ (m : Allocator) (b : Bson) (size : ℕ) (front body rest : List ℕ) where
  -- `realloc` to a larger size.
  realloc-Grown :
      (req : ℕ)
      → Layout b front body rest
      → IsOpen b
      → b.is_inline ≡ false
      → b.offset + b.len + size + b.depth ≤ req
      → length b.buf ≤ req
      → req ≤ max_size
      → Grown b (record b { buf = m.realloc b.buf req }) size front body
  realloc-Grown req l o heap fits larger small = record {
    rest = rest ++ drop (length b.buf) (m.realloc b.buf req);
    layout = record {
      split =
          sym (take-append-drop (length b.buf) (m.realloc b.buf req))
          ∙ ap (λ t. t ++ drop (length b.buf) (m.realloc b.buf req))
              (m.take-realloc b.buf req larger)
          ∙ Layout-more b front body rest (drop (length b.buf) (m.realloc b.buf req)) l;
      at = l.at;
      size = l.size;
    };
    is_open = record {
      writable = o.writable;
      no_child = o.no_child;
      header = o.header;
      room = omega (arith, m.length-realloc b.buf req);
      small = omega (arith, m.length-realloc b.buf req);
      inline_size = λ e. cc;
      inline_at = λ e. (cc, cc);
    };
    room = omega (arith, m.length-realloc b.buf req);
    same_child = refl;
    same_depth = refl;
  }

  as_is :
      Layout b front body rest
      → IsOpen b
      → b.offset + b.len + size + b.depth ≤ length b.buf
      → Grown b b size front body
  as_is l o fits = record {
    rest = rest;
    layout = l;
    is_open = o;
    room = fits;
    same_child = refl;
    same_depth = refl;
  }

  required : ℕ
  required = b.offset + b.len + size + b.depth

  required_fits :
      IsOpen b
      → size < 2 ^ 32
      → b.offset + b.len + size + b.depth ≤ next_power_of_two (b.offset + b.len + size + b.depth)
  required_fits o hs =
      (next_power_of_two_bounds 63 (b.offset + b.len + size + b.depth) (omega (arith, o.header))
        (omega (arith, o.room, o.small)) (omega arith)).0

  alloc_grow_step :
      Layout b front body rest
      → IsOpen b
      → b.is_inline ≡ false
      → size < 2 ^ 32
      → ((alloc_grow m b size).1 ≡ true) × Grown b (alloc_grow m b size).0 size front body
        ⊎ (alloc_grow m b size ≡ (b, false))
  unfolding alloc_grow
  alloc_grow_step l o heap hs =
      elim (Bool-cases (leb (b.offset + b.len + size + b.depth) (length b.buf))) [
        | inl fits ↦ rw fits (inl (refl, as_is l o (ground arith)))
        | inr tight ↦
            rw tight
              (elim (Bool-cases (
                leb (next_power_of_two (b.offset + b.len + size + b.depth)) max_size
                && b.can_realloc)) [
                  | inl ok ↦ rw ok (
                      inl (
                        refl,
                        realloc-Grown (next_power_of_two (b.offset + b.len + size + b.depth)) l o
                            heap (required_fits o hs) (ground (arith, required_fits o hs))
                            (ground arith),
                      ))
                  | inr bad ↦ rw bad (inr refl)
                ])
      ]

  -- The bytes of an inline document stand at the front of its memory.
  inline_bytes :
      Layout b front body rest
      → IsOpen b
      → b.is_inline ≡ true
      → (take b.len b.buf ≡ body ++ (0 ∷ [])) × (front ≡ [])
  inline_bytes l o inline = (
    ap (λ (n : ℕ). take b.len (drop n b.buf)) (sym (o.inline_at inline).0)
        ∙ contents_split b front body rest l,
    nil_of_length front (l.at ∙ (o.inline_at inline).0),
  )

  heap-Layout :
      (spare : List ℕ)
      → Layout b front body rest
      → IsOpen b
      → b.is_inline ≡ true
      → take b.len b.buf ++ spare ≡ front ++ (body ++ (0 ∷ spare))
  heap-Layout spare l o inline =
      let (bytes, at_front) = inline_bytes l o inline in
      ap (λ t. t ++ spare) bytes
      ∙ append_assoc body (0 ∷ []) spare
      ∙ ap (λ t. t ++ (body ++ (0 ∷ spare))) (sym at_front)

  abbrev moved_buf : ℕ → List ℕ
  moved_buf req = take b.len b.buf ++ drop (0 + length (take b.len b.buf)) (m.malloc req)

  inline_length : Layout b front body rest → length (take b.len b.buf) ≡ b.len
  inline_length l =
      length-take b.len b.buf
      ∙ omega (
        arith,
        ap length l.split,
        length-append front (body ++ (0 ∷ rest)),
        length-append body (0 ∷ rest),
        l.size,
      )

  moved_length : (req : ℕ) → Layout b front body rest → b.len ≤ req → length (moved_buf req) ≡ req
  moved_length req l fits = omega (
    arith,
    length-append (take b.len b.buf) (drop (0 + length (take b.len b.buf)) (m.malloc req)),
    length-drop (0 + length (take b.len b.buf)) (m.malloc req),
    inline_length l,
    m.length-malloc req,
  )

  -- The move to the heap.
  inline-Grown :
      (req : ℕ)
      → Layout b front body rest
      → IsOpen b
      → b.is_inline ≡ true
      → b.len + size ≤ req
      → req ≤ max_size
      → (store (m.malloc req) 0 (take b.len b.buf) ≡ done (moved_buf req))
        × Grown b
            (record b {
              is_inline = false;
              depth = 0;
              offset = 0;
              buf = moved_buf req;
              can_realloc = true;
            })
            size
            front
            body
  inline-Grown req l o inline fits small = (
    store_fits (m.malloc req) 0 (take b.len b.buf)
        (omega (arith, inline_length l, m.length-malloc req)),
    record {
      rest = drop (0 + length (take b.len b.buf)) (m.malloc req);
      layout = record {
        split = heap-Layout (drop (0 + length (take b.len b.buf)) (m.malloc req)) l o inline;
        at = l.at ∙ (o.inline_at inline).0;
        size = l.size;
      };
      is_open = record {
        writable = o.writable;
        no_child = o.no_child;
        header = o.header;
        room = omega (arith, moved_length req l (omega arith));
        small = omega (arith, moved_length req l (omega arith));
        inline_size = λ e. cc;
        inline_at = λ e. cc;
      };
      room = omega (arith, moved_length req l (omega arith));
      same_child = refl;
      same_depth = sym (o.inline_at inline).1;
    },
  )

  inline_grow_step :
      Layout b front body rest
      → IsOpen b
      → b.is_inline ≡ true
      → size < 2 ^ 32
      → ((b' : Bson) × (inline_grow m b size ≡ done (b', true)) × Grown b b' size front body)
        ⊎ (inline_grow m b size ≡ done (b, false))
  unfolding inline_grow
  inline_grow_step l o inline hs = elim (Bool-cases (leb (b.len + size) 120)) [
    | inl fits ↦
        rw fits
          (inl (b, refl, as_is l o (ground (arith, o.inline_size inline, o.inline_at inline))))
    | inr tight ↦ rw tight (elim (Bool-cases (leb (next_power_of_two (b.len + size)) max_size)) [
      | inl ok ↦
          let (stored, g) =
            inline-Grown (next_power_of_two (b.len + size)) l o inline
              (next_power_of_two_bounds 63 (b.len + size) (omega (arith, o.header))
                (omega (arith, o.room, o.small)) (omega arith)).0
              (ground arith) in
          rw (ok, stored) (inl (_, refl, g))
      | inr bad ↦ rw bad (inr refl)
    ])
  ]

  -- On an open document that lies in its memory, for a size below 2 ^ 32, `_bson_grow` either
  -- answers `true` and leaves an open document of the same bytes, with room for `size` bytes more;
  -- or it answers `false` and the document is as it was.
  pub grow_step :
      Layout b front body rest
      → IsOpen b
      → size < 2 ^ 32
      → ((b' : Bson) × (grow m b size ≡ done (b', true)) × Grown b b' size front body)
        ⊎ (grow m b size ≡ done (b, false))
  unfolding grow
  grow_step l o hs = elim (Bool-cases b.is_inline) [
    | inl inline ↦ elim (inline_grow_step l o inline hs) [
      | inl (b', e, g) ↦ inl (b', ap choose inline ∙ e, g)
      | inr e ↦ inr (ap choose inline ∙ e)
    ]
    | inr heap ↦ elim (alloc_grow_step l o heap hs) [
      | inl (ok, g) ↦ inl (
        (alloc_grow m b size).0,
        ap choose heap ∙ ap (λ t. done ((alloc_grow m b size).0, t)) ok,
        g,
      )
      | inr e ↦ inr (ap choose heap ∙ ap (λ t. done t) e)
    ]
  ]
    where
      choose : Bool → Run (Bson × Bool)
      choose t = if t then inline_grow m b size else done (alloc_grow m b size)
