-- ===== src/Reader/Handle.antt =====
-- src/bson/bson-reader.c: the reader over a handle gives the documents that the handle delivers.
use libbson.Base.{
  ℕ, zero, suc, ◌+◌, ◌^◌, ◌≤◌, ◌<◌, ◌≡◌, ◌⊎◌, inl, inr, refl, sym, ap, ◌∙◌, true, false, Option,
  none, some, List, [], ◌∷◌, ◌++◌, length, All, length-append, arith,
}
use mathlib.Core.Path.{subst}
use mathlib.Core.List.{append_assoc}
use libbson.Format.{IsDocument}
use libbson.Run.{done}
use libbson.Bson.{Allocator}
use libbson.Bson.Value.{static_document}
use libbson.Reader.Start.{
  read_again, read_stop, turn_done, length-zeroed_bytes, start, new_from_handle_lem,
}
use libbson.Bson.Content.{concat}
use libbson.Reader.{HandleReader, handle_read, new_from_handle, zeroed_bytes}
use libbson.Reader.Data.{Answers}
use libbson.Reader.Fill.{Delivers, Holding, Filled, more, ended, fill_buffer-Filled}
use libbson.Reader.Round.{append_cases, turn-document, past_document-Holding, Short}
use libbson.Reader.Progress.{on, out, turn-Goes}

module _ (Handle : Type 0) (read_func : Handle → ℕ → Handle × Option (List ℕ)) (m : Allocator)
    (s : Delivers Handle read_func) where
  -- What may stand behind the whole documents of a handle: nothing, or a part of one more.
  abbrev pub IsPart : List ℕ → Type 0
  IsPart part =
      (part ≡ [])
      ⊎ ((missing : List ℕ) × (0 < length missing)
          × IsDocument (part ++ missing)
          × (length (part ++ missing) ≤ 2 ^ 30))

  abbrev ReachesEnd : ℕ → HandleReader Handle → Type 0
  ReachesEnd fuel r =
      (r' : HandleReader Handle) × (handle_read Handle read_func m fuel r ≡ done (r', none, true))

  read_done :
      (fuel : ℕ) (r : HandleReader Handle)
      → r.is_done ≡ true
      → r.has_failed ≡ false
      → 0 < fuel
      → ReachesEnd fuel r
  read_done zero r is_done sound enough = absurd (omega (arith, enough))
  read_done (suc fuel) r is_done sound enough = (
    r,
    read_stop Handle read_func m fuel r r none true (turn_done Handle read_func m r is_done sound),
  )

  Short-IsPart : (held back : List ℕ) → IsPart (held ++ back) → Short Handle read_func m held
  Short-IsPart held back (inl nothing) =
      inl (omega (arith, ap length nothing, length-append held back))
  Short-IsPart held back (inr (missing, some_missing, fit, low)) = inr (
    back ++ missing,
    omega (arith, some_missing, length-append back missing),
    subst IsDocument (append_assoc held back missing) fit,
    subst (λ (d : List ℕ). length d ≤ 2 ^ 30) (append_assoc held back missing) low,
  )

  pass_on :
      (r r' : HandleReader Handle) (held bytes : List ℕ)
      → s.pending r.handle ≡ bytes ++ s.pending r'.handle
      → held ++ s.pending r.handle ≡ (held ++ bytes) ++ s.pending r'.handle
  pass_on r r' held bytes order =
      ap (λ t. held ++ t) order ∙ sym (append_assoc held bytes (s.pending r'.handle))

  -- The end of the handle.
  read_end :
      (fuel : ℕ) (r : HandleReader Handle) (held : List ℕ)
      → Holding Handle r held
      → IsPart (held ++ s.pending r.handle)
      → length (s.pending r.handle) + 1 < fuel
      → ReachesEnd fuel r
  read_end zero r held h part enough = absurd (omega (arith, enough))
  read_end (suc fuel) r held h part enough =
      let (r', e, g) =
        turn-Goes Handle read_func m s r held h (Short-IsPart held (s.pending r.handle) part) in
      let (r'', e') : ReachesEnd fuel r' = elim g [
        | on bytes kept some_more order ↦
            read_end fuel r' (held ++ bytes) kept
              (subst IsPart (pass_on r r' held bytes order) part)
              (omega (
                arith,
                enough,
                some_more,
                ap length order,
                length-append bytes (s.pending r'.handle),
              ))
        | out nothing is_done sound ↦ read_done fuel r' is_done sound (omega (arith, enough))
      ] in
      (r'', read_again Handle read_func m fuel r r' e ∙ e')

  -- A document is read; what is behind it is left.
  record ReadOut (fuel : ℕ) (r : HandleReader Handle) (d rest : List ℕ) : Type 0 where
    next : HandleReader Handle
    left : List ℕ
    reads : handle_read Handle read_func m fuel r ≡ done (next, some (static_document d), false)
    holding : Holding Handle next left
    remaining : left ++ s.pending next.handle ≡ rest
    no_more : length (s.pending next.handle) ≤ length (s.pending r.handle)

  read_document :
      (fuel : ℕ) (r : HandleReader Handle) (held d rest : List ℕ)
      → Holding Handle r held
      → held ++ s.pending r.handle ≡ d ++ rest
      → IsDocument d
      → length d ≤ 2 ^ 30
      → length (s.pending r.handle) < fuel
      → ReadOut fuel r d rest
  read_document zero r held d rest h order fit low enough = absurd (omega (arith, enough))
  read_document (suc fuel) r held d rest h order fit low enough =
      elim (append_cases held (s.pending r.handle) d rest order) [
        | inl (tail, front, back) ↦
            let h' : Holding Handle r (d ++ tail) = subst (Holding Handle r) front h in
            record {
              next = record r { offset = r.offset + length d };
              left = tail;
              reads =
                  read_stop Handle read_func m fuel r (record r { offset = r.offset + length d })
                    (some (static_document d)) false
                    (turn-document Handle read_func m r d tail h' fit);
              holding = past_document-Holding Handle read_func m r d tail h';
              remaining = back;
              no_more = omega arith;
            }
        | inr (tail, front, back, some_left) ↦
            let (r', e, g) = turn-Goes Handle read_func m s r held h (
              inr (
                tail,
                some_left,
                subst IsDocument front fit,
                subst (λ (x : List ℕ). length x ≤ 2 ^ 30) front low,
              )) in
            elim g [
              | on bytes kept some_more between ↦
                  let out' =
                    read_document fuel r' (held ++ bytes) d rest kept
                      (sym (pass_on r r' held bytes between) ∙ order) fit low
                      (omega (
                        arith,
                        enough,
                        some_more,
                        ap length between,
                        length-append bytes (s.pending r'.handle),
                      )) in
                  record {
                    next = out'.next;
                    left = out'.left;
                    reads = read_again Handle read_func m fuel r r' e ∙ out'.reads;
                    holding = out'.holding;
                    remaining = out'.remaining;
                    no_more = omega (
                      arith,
                      out'.no_more,
                      ap length between,
                      length-append bytes (s.pending r'.handle),
                    );
                  }
              | out nothing is_done sound ↦ absurd (
                  omega
                    (arith, some_left, ap length back, ap length nothing, length-append tail rest))
            ]
      ]

  abbrev pub AllRead : List (List ℕ) → Type 0
  AllRead documents = All (λ d. IsDocument d × (length d ≤ 2 ^ 30)) documents

  Answers-held :
      (fuel : ℕ) (documents : List (List ℕ)) (part : List ℕ) (r : HandleReader Handle)
      (held : List ℕ)
      → Holding Handle r held
      → held ++ s.pending r.handle ≡ concat documents ++ part
      → AllRead documents
      → IsPart part
      → length (s.pending r.handle) + 1 < fuel
      → Answers (handle_read Handle read_func m fuel) r documents
  Answers-held fuel [] part r held h order fit tail enough =
      read_end fuel r held h (subst IsPart (sym order) tail) enough
  Answers-held fuel (d ∷ documents) part r held h order fit tail enough =
      let o =
        read_document fuel r held d (concat documents ++ part) h
          (order ∙ append_assoc d (concat documents) part) fit.0.0 fit.0.1
          (omega (arith, enough)) in
      (
        o.next,
        o.reads,
        Answers-held fuel documents part o.next o.left o.holding o.remaining fit.1 tail
            (omega (arith, enough, o.no_more)),
      )

  start-Holding : (handle : Handle) → Holding Handle (start Handle read_func m handle) []
  start-Holding handle = record {
    pre = [];
    post = zeroed_bytes 1024;
    split = refl;
    at = refl;
    to = omega arith;
    alive = refl;
    sound = refl;
    small = omega (arith, length-zeroed_bytes Handle read_func m 1024);
    wide = omega (arith, length-zeroed_bytes Handle read_func m 1024);
  }

  Answers-ended :
      (fuel : ℕ) (documents : List (List ℕ)) (part : List ℕ) (r : HandleReader Handle)
      → concat documents ++ part ≡ []
      → AllRead documents
      → r.is_done ≡ true
      → r.has_failed ≡ false
      → 0 < fuel
      → Answers (handle_read Handle read_func m fuel) r documents
  Answers-ended fuel [] part r nothing fit is_done sound enough =
      read_done fuel r is_done sound enough
  Answers-ended fuel (d ∷ documents) part r nothing fit is_done sound enough = absurd (
      omega (
        arith,
        fit.0.0.0,
        ap length nothing,
        length-append d (concat documents),
        length-append (d ++ concat documents) part,
      ))

  -- Over a handle whose reads do not fail and deliver, in any pieces, documents of at most 2 ^ 30
  -- bytes one behind the other, with nothing or a part of one more behind them, a reader answers each
  -- document, once and in order, and then NULL with `*reached_eof` true. The turns of the loop in one
  -- call are at most two more than the bytes that the handle has to deliver.
  pub new_from_handle-Answers :
      (fuel : ℕ) (handle : Handle) (documents : List (List ℕ)) (part : List ℕ)
      → s.pending handle ≡ concat documents ++ part
      → AllRead documents
      → IsPart part
      → length (s.pending handle) + 1 < fuel
      → (r : HandleReader Handle) × (new_from_handle Handle read_func handle ≡ done r)
        × Answers (handle_read Handle read_func m fuel) r documents
  new_from_handle-Answers fuel handle documents part order fit tail enough =
      let (r, e, f) =
        fill_buffer-Filled Handle read_func s (start Handle read_func m handle) []
          (start-Holding handle) (omega (arith, length-zeroed_bytes Handle read_func m 1024)) in
      (r, new_from_handle_lem Handle read_func m handle ∙ e, by_end r f)
    where
      by_end :
          (r : HandleReader Handle)
          → Filled Handle read_func s (start Handle read_func m handle) [] r
          → Answers (handle_read Handle read_func m fuel) r documents
      by_end r (more bytes kept some_more between size) =
          Answers-held fuel documents part r bytes kept (sym between ∙ order) fit tail (
            omega (
              arith,
              enough,
              some_more,
              ap length between,
              length-append bytes (s.pending r.handle),
            ))
      by_end r (ended nothing is_done sound) =
          Answers-ended fuel documents part r (sym order ∙ nothing) fit is_done sound
            (omega (arith, enough))
