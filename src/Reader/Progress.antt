-- ===== src/Reader/Progress.antt =====
-- src/bson/bson-reader.c: a turn of the loop that has to read on.
use libbson.Base.{
  ℕ, ◌*◌, ◌%◌, ◌^◌, ◌≤◌, ◌<◌, ◌≡◌, ◌⊎◌, inl, inr, refl, sym, ap, ◌∙◌, true, false, Option, List, [],
  ◌++◌, length, length-append, Bool-cases, arith,
}
use libbson.Base.Words.{u32}
use libbson.Run.{done}
use libbson.Bson.{Allocator}
use libbson.Reader.{HandleReader, again, fill_again, grow_buffer, turn, less_int32}
use libbson.Reader.Fill.{Delivers, Holding, held_room, Filled, more, ended, fill_buffer-Filled}
use libbson.Reader.Round.{turn_few, Short, widened, turn-part, grow_buffer-Holding}

module _ (Handle : Type 0) (read_func : Handle → ℕ → Handle × Option (List ℕ)) (m : Allocator)
    (s : Delivers Handle read_func) where
  -- A turn that reads on.
  pub data Goes (r : HandleReader Handle) (held : List ℕ) (r' : HandleReader Handle) : Type 0 where
    on :
        (bytes : List ℕ)
        → Holding Handle r' (held ++ bytes)
        → 0 < length bytes
        → s.pending r.handle ≡ bytes ++ s.pending r'.handle
        → Goes r held r'
    out : s.pending r.handle ≡ [] → r'.is_done ≡ true → r'.has_failed ≡ false → Goes r held r'

  pub Goes-Filled :
      (r wide : HandleReader Handle) (held : List ℕ)
      → wide.handle ≡ r.handle
      → Holding Handle wide held
      → length held < length wide.buf
      → (r' : HandleReader Handle) × (fill_again Handle read_func m wide ≡ done (again r'))
        × Goes r held r'
  unfolding fill_again
  Goes-Filled r wide held same h room =
      let (r', e, f) = fill_buffer-Filled Handle read_func s wide held h room in
      (r', rw e refl, by_end r' f)
    where
      by_end : (r' : HandleReader Handle) → Filled Handle read_func s wide held r' → Goes r held r'
      by_end r' (more bytes kept some_more order size) =
          on bytes kept some_more (ap s.pending (sym same) ∙ order)
      by_end r' (ended nothing is_done sound) =
          out (ap s.pending (sym same) ∙ nothing) is_done sound

  pub same_handle : (r : HandleReader Handle) → (grow_buffer Handle read_func m r).handle ≡ r.handle
  unfolding grow_buffer
  same_handle r = refl

  pub grown_len :
      (r : HandleReader Handle)
      → length (grow_buffer Handle read_func m r).buf ≡ length r.buf * 2 % 2 ^ 64
  unfolding grow_buffer
  grown_len r = m.length-realloc r.buf (length r.buf * 2 % 2 ^ 64)

  abbrev pub Turns : HandleReader Handle → List ℕ → Type 0
  Turns r held =
      (r' : HandleReader Handle) × (turn Handle read_func m r ≡ done (again r')) × Goes r held r'

  pub turn_few-Goes :
      (r : HandleReader Handle) (held : List ℕ)
      → Holding Handle r held
      → length held < 4
      → Turns r held
  turn_few-Goes r held h few =
      let (r', e, g) = Goes-Filled r r held refl h (omega (arith, few, h.wide)) in
      (r', turn_few Handle read_func m r held h few ∙ e, g)

  pub widened-Goes :
      (r : HandleReader Handle) (held : List ℕ) (blen : ℕ)
      → Holding Handle r held
      → length held < blen
      → blen ≤ 2 ^ 30
      → (r' : HandleReader Handle) × (fill_again Handle read_func m
            (widened Handle read_func m r blen)
          ≡ done (again r'))
        × Goes r held r'
  unfolding widened
  widened-Goes r held blen h part low = elim (Bool-cases (less_int32 (u32 (length r.buf)) blen)) [
    | inl narrow ↦
        let small : length r.buf < blen = narrower narrow in
        rw narrow (
          Goes-Filled r (grow_buffer Handle read_func m r) held (same_handle r)
            (grow_buffer-Holding Handle read_func m r held h (omega (arith, small, low)))
            (omega (arith, grown_len r, small, low, part, h.wide, held_room Handle r held h)))
    | inr enough ↦
        rw enough (Goes-Filled r r held refl h (omega (arith, part, not_narrower enough)))
  ]
    where
      narrower : less_int32 (u32 (length r.buf)) blen ≡ true → length r.buf < blen
      narrower e = ground (arith, h.small, low, e)

      not_narrower : less_int32 (u32 (length r.buf)) blen ≡ false → blen ≤ length r.buf
      not_narrower e = ground (arith, h.small, low, e)

  pub turn-Goes :
      (r : HandleReader Handle) (held : List ℕ)
      → Holding Handle r held
      → Short Handle read_func m held
      → Turns r held
  turn-Goes r held h (inl few) = turn_few-Goes r held h few
  turn-Goes r held h (inr (missing, some_missing, fit, low)) = elim size [
    | inl few ↦ turn_few-Goes r held h few
    | inr many ↦
        let (r', e, g) =
          widened-Goes r held (length (held ++ missing)) h
            (omega (arith, some_missing, length-append held missing)) low in
        (r', turn-part Handle read_func m r held missing h many some_missing fit ∙ e, g)
  ]
    where
      size : (length held < 4) ⊎ (4 ≤ length held)
      size = omega arith
