-- ===== src/Reader/Fill.antt =====
-- src/bson/bson-reader.c: how the buffer of a handle reader is filled.
use libbson.Base.{
  ℕ, ◌-◌, ◌+◌, ◌^◌, ◌≤◌, ◌<◌, ◌≡◌, inl, inr, refl, sym, ap, ◌∙◌, true, false, Option, some, List,
  [], ◌∷◌, ◌++◌, length, drop, length-append, length-drop, nil_of_length, ◌==◌, ◌&&◌, not,
  Bool-cases, arith,
}
use mathlib.Core.Path.{subst}
use libbson.Base.Memory.{Holds, slice_of}
use libbson.Run.{Run, done}
use libbson.Bson.Content.{store_behind}
use libbson.Reader.{
  HandleReader, first_filled, first_fill, refilled, move_left, refill, fill_buffer, sub_size,
}
use libbson.Reader.Data.{slice-Holds}

-- A handle whose reads give what is pending, some of it at least, until nothing is left: what
-- `read_func` promises where no read fails.
pub record Delivers (Handle : Type 0) (read_func : Handle → ℕ → Handle × Option (List ℕ))
    : Type 0 where
  pub pending : Handle → List ℕ
  pub delivered : Handle → ℕ → List ℕ
  pub answer : (h : Handle) (n : ℕ) → 0 < n → (read_func h n).1 ≡ some (delivered h n)
  pub in_order :
      (h : Handle) (n : ℕ) → 0 < n → pending h ≡ delivered h n ++ pending (read_func h n).0
  pub in_room : (h : Handle) (n : ℕ) → 0 < n → length (delivered h n) ≤ n
  pub until_end : (h : Handle) (n : ℕ) → 0 < n → delivered h n ≡ [] → pending h ≡ []

module _ (Handle : Type 0) where
  -- The bytes `held` are in the buffer and not yet read, and the handle has not ended.
  pub record Holding (r : HandleReader Handle) (held : List ℕ) : Type 0 where
    pub pre : List ℕ
    pub post : List ℕ
    pub split : r.buf ≡ pre ++ (held ++ post)
    pub at : r.offset ≡ length pre
    pub to : r.end ≡ length pre + length held
    pub alive : r.is_done ≡ false
    pub sound : r.has_failed ≡ false
    pub small : length r.buf < 2 ^ 31
    pub wide : 4 ≤ length r.buf

  pub Holding-there :
      (r : HandleReader Handle) (held : List ℕ) → Holding r held → Holds r.buf r.offset held
  Holding-there r held h =
      subst (λ (m : List ℕ). Holds m r.offset held) (sym h.split)
        (subst (λ (k : ℕ). Holds (h.pre ++ (held ++ h.post)) k held) (sym h.at)
          (slice-Holds h.pre held h.post))

  pub left_len :
      (r : HandleReader Handle) (held : List ℕ)
      → Holding r held
      → sub_size r.end r.offset ≡ length held
  left_len r held h = omega (
    arith,
    h.at,
    h.to,
    h.small,
    ap length h.split,
    length-append h.pre (held ++ h.post),
    length-append held h.post,
  )

  pub held_room :
      (r : HandleReader Handle) (held : List ℕ) → Holding r held → length held ≤ length r.buf
  held_room r held h =
      omega
        (arith, ap length h.split, length-append h.pre (held ++ h.post), length-append held h.post)

module _ (Handle : Type 0) (read_func : Handle → ℕ → Handle × Option (List ℕ))
    (s : Delivers Handle read_func) where
  -- What a fill leaves: more bytes, or the end of the handle.
  pub data Filled (r : HandleReader Handle) (held : List ℕ) (r' : HandleReader Handle)
      : Type 0 where
    more :
        (bytes : List ℕ)
        → Holding Handle r' (held ++ bytes)
        → 0 < length bytes
        → s.pending r.handle ≡ bytes ++ s.pending r'.handle
        → length r'.buf ≡ length r.buf
        → Filled r held r'
    ended : s.pending r.handle ≡ [] → r'.is_done ≡ true → r'.has_failed ≡ false → Filled r held r'

  -- The reader after `bytes` were stored behind `held`, which lies at the front of the buffer.
  after_store : HandleReader Handle → Handle → List ℕ → List ℕ → HandleReader Handle
  after_store r handle held bytes = record r {
    handle = handle;
    offset = 0;
    bytes_read = r.bytes_read + length bytes;
    end = length held + length bytes;
    buf = (held ++ bytes) ++ drop (length bytes) (drop (length held) r.buf);
  }

  move_left_lem :
      (r : HandleReader Handle) (held : List ℕ)
      → Holding Handle r held
      → move_left Handle read_func r
        ≡ done (record r { offset = 0; end = length held; buf = held ++ drop (length held) r.buf })
  unfolding move_left
  move_left_lem r held h =
      rw
        (
          left_len Handle r held h,
          slice_of held (Holding-there Handle r held h),
          store_behind [] r.buf held fits,
        )
        refl
    where
      fits : length held ≤ length r.buf
      fits = held_room Handle r held h

  after_store-Holding :
      (r : HandleReader Handle) (handle : Handle) (held bytes : List ℕ)
      → Holding Handle r held
      → length held + length bytes ≤ length r.buf
      → Holding Handle (after_store r handle held bytes) (held ++ bytes)
        × (length (after_store r handle held bytes).buf ≡ length r.buf)
  unfolding after_store
  after_store-Holding r handle held bytes h room = (
    record {
      pre = [];
      post = drop (length bytes) (drop (length held) r.buf);
      split = refl;
      at = refl;
      to = omega (arith, length-append held bytes);
      alive = h.alive;
      sound = h.sound;
      small = omega (arith, same, h.small);
      wide = omega (arith, same, h.wide);
    },
    same,
  )
    where
      same :
          length ((held ++ bytes) ++ drop (length bytes) (drop (length held) r.buf)) ≡ length r.buf
      same = omega (
        arith,
        length-append (held ++ bytes) (drop (length bytes) (drop (length held) r.buf)),
        length-append held bytes,
        length-drop (length bytes) (drop (length held) r.buf),
        length-drop (length held) r.buf,
      )

  -- What a read leaves, by what it gave.
  refilled-Filled :
      (r front : HandleReader Handle) (held bytes : List ℕ) (handle : Handle)
      → Holding Handle r held
      → length held + length bytes ≤ length r.buf
      → front ≡ record r { offset = 0; end = length held; buf = held ++ drop (length held) r.buf }
      → s.pending r.handle ≡ bytes ++ s.pending handle
      → (bytes ≡ [] → s.pending r.handle ≡ [])
      → (r' : HandleReader Handle) × (refilled Handle read_func front handle (some bytes) ≡ done r')
        × Filled r held r'
  unfolding refilled after_store
  refilled-Filled r front held [] handle h room e order last = (
    record front { handle = handle; is_done = true; has_failed = false },
    refl,
    ended (last refl) refl refl,
  )
  refilled-Filled r front held (b ∷ bytes) handle h room e order last =
      let kept = after_store-Holding r handle held (b ∷ bytes) h room in
      (
        after_store r handle held (b ∷ bytes),
        ap (λ (f : HandleReader Handle). refilled Handle read_func f handle (some (b ∷ bytes))) e
            ∙ stored,
        more (b ∷ bytes) kept.0 (omega arith) order kept.1,
      )
    where
      stored :
          refilled Handle read_func
            (record r { offset = 0; end = length held; buf = held ++ drop (length held) r.buf })
            handle
            (some (b ∷ bytes))
          ≡ done (after_store r handle held (b ∷ bytes))
      stored =
          rw
            (store_behind held (drop (length held) r.buf) (b ∷ bytes)
              (omega (arith, room, length-drop (length held) r.buf)))
            refl

  abbrev Fills : Run (HandleReader Handle) → HandleReader Handle → List ℕ → Type 0
  Fills run r held = (r' : HandleReader Handle) × (run ≡ done r') × Filled r held r'

  refill-Filled :
      (r : HandleReader Handle) (held : List ℕ)
      → Holding Handle r held
      → length held < length r.buf
      → Fills (refill Handle read_func r) r held
  unfolding refill
  refill-Filled r held h room =
      let (r', e, f) =
        refilled-Filled r front held (s.delivered r.handle n) (read_func r.handle n).0 h
          (omega (arith, s.in_room r.handle n positive, left, room)) refl
          (s.in_order r.handle n positive) (s.until_end r.handle n positive) in
      (r', rw (move_left_lem r held h, s.answer r.handle n positive) e, f)
    where
      front : HandleReader Handle
      front = record r { offset = 0; end = length held; buf = held ++ drop (length held) r.buf }

      n : ℕ
      n = sub_size (length front.buf) front.end

      left : n ≡ length r.buf - length held
      left = omega (
        arith,
        room,
        h.small,
        length-append held (drop (length held) r.buf),
        length-drop (length held) r.buf,
      )

      positive : 0 < n
      positive = omega (arith, left, room)

  first_filled-Filled :
      (r : HandleReader Handle) (bytes : List ℕ) (handle : Handle)
      → Holding Handle r []
      → r.offset ≡ 0
      → length bytes ≤ length r.buf
      → s.pending r.handle ≡ bytes ++ s.pending handle
      → (bytes ≡ [] → s.pending r.handle ≡ [])
      → Fills (first_filled Handle read_func r handle (some bytes)) r []
  unfolding first_filled after_store
  first_filled-Filled r [] handle h start room order last =
      (record r { handle = handle; is_done = true }, refl, ended (last refl) refl h.sound)
  first_filled-Filled r (b ∷ bytes) handle h start room order last =
      let kept = after_store-Holding r handle [] (b ∷ bytes) h (omega (arith, room)) in
      (
        after_store r handle [] (b ∷ bytes),
        rw (store_behind [] r.buf (b ∷ bytes) room) (λ i. done (record r {
          handle = handle;
          offset = start i;
          bytes_read = r.bytes_read + length (b ∷ bytes);
          end = none_before i;
          buf = (b ∷ bytes) ++ drop (length (b ∷ bytes)) r.buf;
        })),
        more (b ∷ bytes) kept.0 (omega arith) order kept.1,
      )
    where
      none_before : length (b ∷ bytes) ≡ 0 + length (b ∷ bytes)
      none_before = omega arith

  first_fill-Filled :
      (r : HandleReader Handle)
      → Holding Handle r []
      → r.offset ≡ 0
      → 0 < length r.buf
      → Fills (first_fill Handle read_func r) r []
  unfolding first_fill
  first_fill-Filled r h start room = rw (s.answer r.handle (length r.buf) room) (
      first_filled-Filled r (s.delivered r.handle (length r.buf))
        (read_func r.handle (length r.buf)).0 h start (s.in_room r.handle (length r.buf) room)
        (s.in_order r.handle (length r.buf) room) (s.until_end r.handle (length r.buf) room))

  -- `_bson_reader_handle_fill_buffer`, where there is room.
  pub fill_buffer-Filled :
      (r : HandleReader Handle) (held : List ℕ)
      → Holding Handle r held
      → length held < length r.buf
      → Fills (fill_buffer Handle read_func r) r held
  unfolding fill_buffer
  fill_buffer-Filled r held h room =
      elim (Bool-cases (not r.is_done && r.offset == 0 && r.end == 0)) [
        | inl first ↦
            let start : (r.offset ≡ 0) × (r.end ≡ 0) = ground (arith, h.alive, first) in
            let nothing : held ≡ [] = nil_of_length held (omega (arith, start, h.at, h.to)) in
            rw first (
              subst (λ (xs : List ℕ). Fills (first_fill Handle read_func r) r xs) (sym nothing)
                (first_fill-Filled r (subst (Holding Handle r) nothing h) start.0
                  (omega (arith, room))))
        | inr later ↦ rw later (refill-Filled r held h room)
      ]
