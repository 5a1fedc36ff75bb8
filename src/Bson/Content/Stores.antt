-- ===== src/Bson/Content/Stores.antt =====
-- src/bson/bson.c: the stores of `_bson_append_va`.
use libbson.Base.Words.{length-le_bytes, le_bytes}
use libbson.Base.{
  ℕ, zero, suc, ◌+◌, ◌-◌, ◌^◌, ◌≤◌, ◌<◌, ◌≡◌, refl, sym, ap, ◌∙◌, true, List, [], ◌∷◌, ◌++◌, length,
  drop, length-append, length-drop, take-append, drop_past, drop-drop, arith,
}
use libbson.Run.{done, store}
use libbson.Bson.{Bson, write_pairs, close_document, write_all}
use libbson.Bson.Grow.{Layout, store_fits}
use mathlib.Core.List.{append_assoc, append-nil}
use mathlib.Core.Path.{ap₂}

abbrev pub concat : List (List ℕ) → List ℕ
concat [] = []
concat (x ∷ xs) = x ++ concat xs

-- A `memcpy` over the end of a known front.
pub store_behind :
    (front old bytes : List ℕ)
    → length bytes ≤ length old
    → store (front ++ old) (length front) bytes ≡ done ((front ++ bytes) ++ drop (length bytes) old)
store_behind front old bytes h =
    store_fits (front ++ old) (length front) bytes (omega (arith, length-append front old))
    ∙ ap done (
        ap₂ (λ x y. x ++ (bytes ++ y)) (take-append front old) (drop_past (length bytes) front old)
        ∙ sym (append_assoc front bytes (drop (length bytes) old)))

pub write_pairs_lem :
    (front old : List ℕ) (len : ℕ) (pairs : List (List ℕ))
    → length (concat pairs) ≤ length old
    → len + length (concat pairs) < 2 ^ 32
    → write_pairs (front ++ old) len (length front) pairs
      ≡ done (
        (front ++ concat pairs) ++ drop (length (concat pairs)) old,
        len + length (concat pairs),
        length (front ++ concat pairs),
      )
unfolding write_pairs
write_pairs_lem front old len [] h w =
    rw append-nil (λ i. done (front ++ old, zero_more i, length front))
  where
    zero_more : len ≡ len + 0
    zero_more = omega arith
write_pairs_lem front old len (x ∷ xs) h w =
    rw (store_behind front old x (omega (arith, length-append x (concat xs)))) (
      ap₂ (λ (n k : ℕ). write_pairs ((front ++ x) ++ drop (length x) old) n k xs)
        (omega (arith, length-append x (concat xs))) (sym (length-append front x))
      ∙ write_pairs_lem (front ++ x) (drop (length x) old) (len + length x) xs
          (omega (arith, length-append x (concat xs), length-drop (length x) old))
          (omega (arith, length-append x (concat xs)))
      ∙ λ i. done (bytes_eq i, len_eq i, at_eq i))
  where
    at_eq : length ((front ++ x) ++ concat xs) ≡ length (front ++ (x ++ concat xs))
    at_eq = ap length (append_assoc front x (concat xs))

    len_eq : len + length x + length (concat xs) ≡ len + length (x ++ concat xs)
    len_eq = omega (arith, length-append x (concat xs))

    bytes_eq :
        ((front ++ x) ++ concat xs) ++ drop (length (concat xs)) (drop (length x) old)
        ≡ (front ++ (x ++ concat xs)) ++ drop (length (x ++ concat xs)) old
    bytes_eq =
        ap₂ (λ s t. s ++ t) (append_assoc front x (concat xs))
          (drop-drop (length (concat xs)) (length x) old
            ∙ ap (λ (k : ℕ). drop k old) (omega (arith, length-append x (concat xs))))

-- The bytes of a document but for the last, with more of them at its end.
abbrev pub extended : List ℕ → List ℕ → List ℕ
extended body more = le_bytes 4 (suc (length body) + length more) ++ (drop 4 body ++ more)

pub length-extended :
    (body more : List ℕ) → 4 ≤ length body → length (extended body more) ≡ length body + length more
length-extended body more h = omega (
  arith,
  length-append (le_bytes 4 (suc (length body) + length more)) (drop 4 body ++ more),
  length-append (drop 4 body) more,
  length-drop 4 body,
  length-le_bytes 4 (suc (length body) + length more),
)

drop_early : (n : ℕ) (xs ys : List ℕ) → n ≤ length xs → drop n (xs ++ ys) ≡ drop n xs ++ ys
drop_early zero xs ys h = refl
drop_early (suc n) [] ys h = ground arith
drop_early (suc n) (x ∷ xs) ys h = drop_early n xs ys (omega arith)

-- The new length over the old one.
pub store-length :
    (front body more tail size : List ℕ)
    → length size ≡ 4
    → 4 ≤ length body
    → store (((front ++ body) ++ more) ++ tail) (length front) size
      ≡ done ((front ++ (size ++ (drop 4 body ++ more))) ++ tail)
store-length front body more tail size h4 hb =
    ap (λ (s : List ℕ). store s (length front) size)
      (append_assoc (front ++ body) more tail ∙ append_assoc front body (more ++ tail))
    ∙ store_behind front (body ++ (more ++ tail)) size
        (omega (arith, length-append body (more ++ tail)))
    ∙ ap done (
        ap (λ (n : ℕ). (front ++ size) ++ drop n (body ++ (more ++ tail))) h4
        ∙ ap (λ t. (front ++ size) ++ t)
            (drop_early 4 body (more ++ tail) hb ∙ sym (append_assoc (drop 4 body) more tail))
        ∙ sym (append_assoc (front ++ size) (drop 4 body ++ more) tail)
        ∙ ap (λ t. t ++ tail) (append_assoc front size (drop 4 body ++ more)))

-- The last byte.
store_nul :
    (front tail : List ℕ)
    → 1 ≤ length tail
    → store (front ++ tail) (length front) (0 ∷ []) ≡ done (front ++ (0 ∷ drop 1 tail))
store_nul front tail h =
    store_behind front tail (0 ∷ []) h ∙ ap done (append_assoc front (0 ∷ []) (drop 1 tail))

-- The document `b` with its bytes `front`, `body`, those added and what lies behind them.
abbrev pub with_bytes : Bson → List ℕ → List ℕ → List ℕ → List ℕ → Bson
with_bytes b front body more tail = record b {
  buf = front ++ (extended body more ++ (0 ∷ tail));
  len = suc (length body) + length more;
}

close_document_lem :
    (b : Bson) (front body more tail : List ℕ)
    → b.offset ≡ length front
    → 4 ≤ length body
    → 1 ≤ length tail
    → close_document b
        (((front ++ body) ++ more) ++ tail)
        (suc (length body) + length more)
        (length ((front ++ body) ++ more))
      ≡ done (with_bytes b front body more (drop 1 tail))
unfolding close_document
close_document_lem b front body more tail at hb ht =
    rw
      (
        at,
        store-length front body more tail (le_bytes 4 (suc (length body) + length more))
            (length-le_bytes 4 (suc (length body) + length more)) hb,
        same_length,
        store_nul (front ++ extended body more) tail ht,
        append_assoc front (extended body more) (0 ∷ drop 1 tail),
      )
      refl
  where
    same_length : length ((front ++ body) ++ more) ≡ length (front ++ extended body more)
    same_length = omega (
      arith,
      length-append (front ++ body) more,
      length-append front body,
      length-append front (extended body more),
      length-extended body more hb,
    )

module _ (b : Bson) (front body rest : List ℕ) (pairs : List (List ℕ)) where
  pub write_all_lem :
      Layout b front body rest
      → 5 ≤ b.len
      → b.len + length (concat pairs) < 2 ^ 32
      → b.offset + b.len + length (concat pairs) ≤ length b.buf
      → write_all b pairs
        ≡ done (
          with_bytes b front body (concat pairs) (drop 1 (drop (length (concat pairs)) (0 ∷ rest))),
          true,
        )
  unfolding write_all close_document le_bytes
  write_all_lem l header small room =
      rw
        (
          l.split ∙ sym (append_assoc front body (0 ∷ rest)),
          start,
          sym l.size,
          write_pairs_lem (front ++ body) (0 ∷ rest) (suc (length body)) pairs (omega (arith, size))
              (omega (arith, l.size)),
          close_document_lem b front body (concat pairs) (drop (length (concat pairs)) (0 ∷ rest))
              (sym l.at) (omega (arith, l.size))
              (omega (arith, size, length-drop (length (concat pairs)) (0 ∷ rest))),
        )
        refl
    where
      start : b.offset + b.len - 1 ≡ length (front ++ body)
      start = omega (arith, l.at, l.size, length-append front body)

      size : length (concat pairs) ≤ length rest
      size = omega (
        arith,
        ap length l.split,
        length-append front (body ++ (0 ∷ rest)),
        length-append body (0 ∷ rest),
        l.at,
        l.size,
      )
