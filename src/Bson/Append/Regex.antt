-- ===== src/Bson/Append/Regex.antt =====
-- src/bson/bson.c: the size that `bson_append_regex` asks room for.
use libbson.Base.{
  ℕ, suc, ◌+◌, ◌-◌, ◌%◌, ◌^◌, ◌≤◌, ◌<◌, ◌≡◌, refl, sym, ap, ◌∙◌, Bool, true, false, not, List, [],
  ◌∷◌, ◌++◌, length, drop, length-append, length-drop, arith, ltb, if◌then◌else◌, nil_of_length,
}
use mathlib.Core.Path.{ap₂}
use mathlib.Core.List.{append_assoc}
use libbson.Base.Words.{length-le_bytes, le_bytes, u32}
use libbson.Types.{regex}
use libbson.Run.{Run, done, fault, store, assert, ◌>>=◌}
use libbson.Bson.{
  Allocator, Bson, max_size, inline_grow, grow, write_all, append_va, append, close_document,
}
use libbson.Bson.Grow.{Layout, IsOpen}
use libbson.Bson.Content.{concat, extended, length-extended, store-length, write_pairs_lem}
use libbson.Bson.Append.{keyed, keyed_size, regex_options_sorted, append_regex}

store_past :
    (buf bytes : List ℕ) (at : ℕ) → length buf < at + length bytes → store buf at bytes ≡ fault
unfolding store
store_past buf bytes at h = ground arith

close_past :
    (b : Bson) (front body more : List ℕ)
    → b.offset ≡ length front
    → 4 ≤ length body
    → close_document b
        (((front ++ body) ++ more) ++ [])
        (suc (length body) + length more)
        (length ((front ++ body) ++ more))
      ≡ fault
unfolding close_document
close_past b front body more at hb =
    rw
      (
        at,
        store-length front body more [] (le_bytes 4 (suc (length body) + length more))
            (length-le_bytes 4 (suc (length body) + length more)) hb,
        store_past ((front ++ extended body more) ++ []) (0 ∷ []) (length ((front ++ body) ++ more))
            past,
      )
      refl
  where
    past : length ((front ++ extended body more) ++ []) < length ((front ++ body) ++ more) + 1
    past = omega (
      arith,
      length-append (front ++ extended body more) [],
      length-append (front ++ body) more,
      length-append front body,
      length-append front (extended body more),
      length-extended body more hb,
    )

-- The pairs reach the end of the memory: the closing byte lies behind it.
write_past :
    (b : Bson) (front body rest : List ℕ) (pairs : List (List ℕ))
    → Layout b front body rest
    → 5 ≤ b.len
    → b.len + length (concat pairs) < 2 ^ 32
    → length (concat pairs) ≡ suc (length rest)
    → write_all b pairs ≡ fault
unfolding write_all close_document le_bytes
write_past b front body rest pairs l header small full =
    rw
      (
        l.split ∙ sym (append_assoc front body (0 ∷ rest)),
        start,
        sym l.size,
        write_pairs_lem (front ++ body) (0 ∷ rest) (suc (length body)) pairs (omega (arith, full))
            (omega (arith, l.size)),
        nothing_left,
        close_past b front body (concat pairs) (sym l.at) (omega (arith, l.size)),
      )
      refl
  where
    start : b.offset + b.len - 1 ≡ length (front ++ body)
    start = omega (arith, l.at, l.size, length-append front body)

    nothing_left : drop (length (concat pairs)) (0 ∷ rest) ≡ []
    nothing_left =
        nil_of_length (drop (length (concat pairs)) (0 ∷ rest))
          (length-drop (length (concat pairs)) (0 ∷ rest) ∙ omega (arith, full))

module _ (m : Allocator) (b : Bson) (front body rest key pattern_ options : List ℕ) where
  abbrev pairs : List (List ℕ)
  pairs = keyed regex key ((pattern_ ++ (0 ∷ [])) ∷ (regex_options_sorted options ++ (0 ∷ [])) ∷ [])

  -- The size that is asked for.
  abbrev asked : ℕ
  asked = keyed_size key (u32 (length pattern_ + 1) + length (regex_options_sorted options))

  pairs_size :
      asked ≤ 115
      → length key + length pattern_ + length (regex_options_sorted options) < 2 ^ 31
      → length (concat pairs) ≡ suc asked
  pairs_size small h = omega (
    arith,
    length-append key
        (0 ∷ ((pattern_ ++ (0 ∷ [])) ++ ((regex_options_sorted options ++ (0 ∷ [])) ++ []))),
    length-append (pattern_ ++ (0 ∷ [])) ((regex_options_sorted options ++ (0 ∷ [])) ++ []),
    length-append pattern_ (0 ∷ []),
    length-append (regex_options_sorted options ++ (0 ∷ [])) [],
    length-append (regex_options_sorted options) (0 ∷ []),
  )

  no_growth : b.is_inline ≡ true → b.len + asked ≡ 120 → grow m b asked ≡ done (b, true)
  unfolding grow inline_grow
  no_growth inline full = ground arith

  -- On an open inline document that lies in its memory, for arguments of fewer than 2 ^ 31 bytes,
  -- where the size that `bson_append_regex` asks for fills the 120 bytes to the last one, it writes
  -- behind the memory.
  pub append_regex-fault :
      Layout b front body rest
      → IsOpen b
      → b.is_inline ≡ true
      → length key + length pattern_ + length (regex_options_sorted options) < 2 ^ 31
      → b.len + asked ≡ 120
      → append_regex m b key pattern_ options ≡ fault
  unfolding append_regex append append_va
  append_regex-fault l o inline h full =
      ap choose fits
      ∙ ap₂ gate o.no_child o.writable
      ∙ ap after (no_growth inline full)
      ∙ write_past b front body rest pairs l o.header
          (omega (arith, pairs_size (omega (arith, o.header)) h))
          (omega (arith, pairs_size (omega (arith, o.header)) h, room))
    where
      after : Run (Bson × Bool) → Run (Bson × Bool)
      after r = r >>= λ x. if x.1 then write_all x.0 pairs else done (x.0, false)

      gate : Bool → Bool → Run (Bson × Bool)
      gate c r = assert (not c) >>= λ _. assert (not r) >>= λ _. after (grow m b asked)

      choose : Bool → Run (Bson × Bool)
      choose t = if t then done (b, false) else append_va m b asked pairs

      fits : ltb ((max_size + (2 ^ 64 - b.len)) % 2 ^ 64) asked ≡ false
      fits = ground arith

      room : suc (length rest) + length body ≡ 120
      room = omega (
        arith,
        ap length l.split,
        length-append front (body ++ (0 ∷ rest)),
        length-append body (0 ∷ rest),
        o.inline_size inline,
        l.at,
        (o.inline_at inline).0,
      )
