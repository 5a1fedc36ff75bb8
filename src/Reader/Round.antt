-- ===== src/Reader/Round.antt =====
-- src/bson/bson-reader.c: one turn of the loop of `_bson_reader_handle_read`.
use libbson.Base.{
  ℕ, ◌-◌, ◌+◌, ◌*◌, ◌%◌, ◌^◌, ◌≤◌, ◌<◌, ◌≡◌, ◌⊎◌, inl, inr, refl, sym, ap, ◌∙◌, Bool, true, false,
  Option, none, some, List, [], ◌∷◌, ◌++◌, length, drop, length-append, take-append-drop, ltb, not,
  if◌then◌else◌, lt→ltb, le→ltb, arith,
}
use mathlib.Core.Path.{ap₂}
use mathlib.Core.List.{append_assoc}
use libbson.Base.Words.{u32, read_le32}
use libbson.Base.Memory.{Holds, Holds-front, slice_of, read_le32_first}
use libbson.Format.{IsDocument}
use libbson.Run.{Run, done, load, ◌>>=◌}
use libbson.Bson.{Allocator}
use libbson.Bson.Value.{static_document}
use libbson.Bson.Document.{init_static-IsDocument}
use libbson.Reader.{
  HandleReader, Turn, stop, fill_again, grow_buffer, turn, turn_at, past_bson, take_document,
  sub_size, less_int32,
}
use libbson.Reader.Data.{length_word, length_word_of_part, long_enough}
use libbson.Reader.Fill.{Holding, Holding-there, left_len, held_room}

-- One list cut at two places.
pub append_cases :
    (xs ys ds rest : List ℕ)
    → xs ++ ys ≡ ds ++ rest
    → ((tail : List ℕ) × (xs ≡ ds ++ tail) × (tail ++ ys ≡ rest))
      ⊎ ((tail : List ℕ) × (ds ≡ xs ++ tail) × (ys ≡ tail ++ rest) × (0 < length tail))
append_cases xs ys [] rest e = inl (xs, refl, e)
append_cases [] ys (d ∷ ds) rest e = inr (d ∷ ds, refl, e, omega arith)
append_cases (x ∷ xs) ys (d ∷ ds) rest e =
    let head : x ≡ d = cc in
    elim (append_cases xs ys ds rest cc) [
      | inl (tail, front, back) ↦ inl (tail, ap₂ (λ (a : ℕ) (t : List ℕ). a ∷ t) head front, back)
      | inr (tail, front, back, some_left) ↦
          inr (tail, ap₂ (λ (a : ℕ) (t : List ℕ). a ∷ t) (sym head) front, back, some_left)
    ]

module _ (Handle : Type 0) (read_func : Handle → ℕ → Handle × Option (List ℕ)) (m : Allocator) where
  abbrev pub by_length : HandleReader Handle → Bool → Run (Turn Handle)
  by_length r few =
      if few
      then fill_again Handle read_func m r
      else load (read_le32 r.buf r.offset) >>= turn_at Handle read_func m r

  pub turn_alive :
      (r : HandleReader Handle)
      → r.is_done ≡ false
      → turn Handle read_func m r ≡ by_length r (ltb (sub_size r.end r.offset) 4)
  unfolding turn
  turn_alive r alive =
      ap
        (λ (b : Bool).
          if b
          then done (stop r none (not r.has_failed))
          else by_length r (ltb (sub_size r.end r.offset) 4))
        alive

  pub turn_few :
      (r : HandleReader Handle) (held : List ℕ)
      → Holding Handle r held
      → length held < 4
      → turn Handle read_func m r ≡ fill_again Handle read_func m r
  turn_few r held h few =
      turn_alive r h.alive
      ∙ ap (by_length r)
          (lt→ltb (sub_size r.end r.offset) 4 (omega (arith, left_len Handle r held h, few)))

  pub turn_many :
      (r : HandleReader Handle) (held : List ℕ) (blen : ℕ)
      → Holding Handle r held
      → 4 ≤ length held
      → read_le32 r.buf r.offset ≡ some blen
      → turn Handle read_func m r ≡ turn_at Handle read_func m r blen
  turn_many r held blen h many word =
      turn_alive r h.alive
      ∙ ap (by_length r)
          (le→ltb (sub_size r.end r.offset) 4 (omega (arith, left_len Handle r held h, many)))
      ∙ ap (λ w. load w >>= turn_at Handle read_func m r) word

  -- A turn with a whole document in the buffer.
  pub turn-document :
      (r : HandleReader Handle) (d left : List ℕ)
      → Holding Handle r (d ++ left)
      → IsDocument d
      → turn Handle read_func m r
        ≡ done (stop (record r { offset = r.offset + length d }) (some (static_document d)) false)
  unfolding turn_at past_bson take_document
  turn-document r d left h fit =
      turn_many r (d ++ left) (length d) h (omega (arith, fit.0, length-append d left))
        (length_word r.buf d r.offset there fit)
      ∙ rw
          (
            long_enough (length d) fit.0 fit.1,
            held_all,
            slice_of d there,
            init_static-IsDocument d fit,
          )
          refl
    where
      there : Holds r.buf r.offset d
      there = Holds-front d left (Holding-there Handle r (d ++ left) h)

      held_all : less_int32 (u32 (sub_size r.end r.offset)) (length d) ≡ false
      held_all = le→ltb _ _ (
          omega (
            arith,
            left_len Handle r (d ++ left) h,
            length-append d left,
            fit.1,
            held_room Handle r (d ++ left) h,
            h.small,
          ))

  pub past_document-Holding :
      (r : HandleReader Handle) (d left : List ℕ)
      → Holding Handle r (d ++ left)
      → Holding Handle (record r { offset = r.offset + length d }) left
  past_document-Holding r d left h = record {
    pre = h.pre ++ d;
    post = h.post;
    split =
        h.split
        ∙ ap (λ t. h.pre ++ t) (append_assoc d left h.post)
        ∙ sym (append_assoc h.pre d (left ++ h.post));
    at = omega (arith, h.at, length-append h.pre d);
    to = omega (arith, h.to, length-append h.pre d, length-append d left);
    alive = h.alive;
    sound = h.sound;
    small = h.small;
    wide = h.wide;
  }

  -- The bytes held are no document yet.
  abbrev pub Short : List ℕ → Type 0
  Short held =
      (length held < 4)
      ⊎ ((missing : List ℕ) × (0 < length missing)
          × IsDocument (held ++ missing)
          × (length (held ++ missing) ≤ 2 ^ 30))

  -- The reader before the fill of a turn that finds a document of which bytes are missing.
  unfoldable pub widened : HandleReader Handle → ℕ → HandleReader Handle
  widened r blen =
      if less_int32 (u32 (length r.buf)) blen then grow_buffer Handle read_func m r else r

  pub turn-part :
      (r : HandleReader Handle) (held missing : List ℕ)
      → Holding Handle r held
      → 4 ≤ length held
      → 0 < length missing
      → IsDocument (held ++ missing)
      → turn Handle read_func m r
        ≡ fill_again Handle read_func m (widened r (length (held ++ missing)))
  unfolding turn_at widened
  turn-part r held missing h many some_missing fit =
      turn_many r held (length (held ++ missing)) h many (
        read_le32_first r.buf held r.offset (length (held ++ missing))
          (length_word_of_part held missing fit many) many (Holding-there Handle r held h))
      ∙ rw (long_enough (length (held ++ missing)) fit.0 fit.1, not_all) refl
    where
      not_all : less_int32 (u32 (sub_size r.end r.offset)) (length (held ++ missing)) ≡ true
      not_all =
          lt→ltb _ _ (
            omega
              (arith, left_len Handle r held h, length-append held missing, some_missing, fit.1))

  pub grow_buffer-Holding :
      (r : HandleReader Handle) (held : List ℕ)
      → Holding Handle r held
      → length r.buf ≤ 2 ^ 30 - 1
      → Holding Handle (grow_buffer Handle read_func m r) held
  unfolding grow_buffer
  grow_buffer-Holding r held h low = record {
    pre = h.pre;
    post = h.post ++ drop (length r.buf) (m.realloc r.buf (length r.buf * 2 % 2 ^ 64));
    split =
        sym (take-append-drop (length r.buf) wider)
        ∙ ap (λ t. t ++ drop (length r.buf) wider)
            (m.take-realloc r.buf (length r.buf * 2 % 2 ^ 64) (omega (arith, low)) ∙ h.split)
        ∙ append_assoc h.pre (held ++ h.post) (drop (length r.buf) wider)
        ∙ ap (λ t. h.pre ++ t) (append_assoc held h.post (drop (length r.buf) wider));
    at = h.at;
    to = h.to;
    alive = h.alive;
    sound = h.sound;
    small = omega (arith, m.length-realloc r.buf (length r.buf * 2 % 2 ^ 64));
    wide = omega (arith, h.wide, m.length-realloc r.buf (length r.buf * 2 % 2 ^ 64));
  }
    where
      wider : List ℕ
      wider = m.realloc r.buf (length r.buf * 2 % 2 ^ 64)
