-- ===== src/Reader/Start.antt =====
-- src/bson/bson-reader.c: the calls of a handle reader, a turn at a time, and the first read.
use libbson.Base.{
  ℕ, zero, suc, ◌≡◌, refl, ap, ◌∙◌, Bool, true, false, Option, none, List, length, ltb, not,
  if◌then◌else◌, arith,
}
use libbson.Run.{done}
use libbson.Bson.{Allocator, Bson}
use libbson.Reader.{
  HandleReader, stop, again, first_fill, first_filled, fill_buffer, turn, handle_read,
  new_from_handle, zeroed_bytes, sub_size,
}
use libbson.Reader.Round.{by_length}

module _ (Handle : Type 0) (read_func : Handle → ℕ → Handle × Option (List ℕ)) (m : Allocator) where
  pub read_again :
      (fuel : ℕ) (r r' : HandleReader Handle)
      → turn Handle read_func m r ≡ done (again r')
      → handle_read Handle read_func m (suc fuel) r ≡ handle_read Handle read_func m fuel r'
  unfolding handle_read
  read_again fuel r r' e = rw e refl

  pub read_stop :
      (fuel : ℕ) (r r' : HandleReader Handle) (b : Option Bson) (eof : Bool)
      → turn Handle read_func m r ≡ done (stop r' b eof)
      → handle_read Handle read_func m (suc fuel) r ≡ done (r', b, eof)
  unfolding handle_read
  read_stop fuel r r' b eof e = rw e refl

  pub turn_done :
      (r : HandleReader Handle)
      → r.is_done ≡ true
      → r.has_failed ≡ false
      → turn Handle read_func m r ≡ done (stop r none true)
  unfolding turn
  turn_done r is_done sound =
      ap
        (λ (b : Bool).
          if b
          then done (stop r none (not r.has_failed))
          else by_length Handle read_func m r (ltb (sub_size r.end r.offset) 4))
        is_done
      ∙ ap (λ (b : Bool). done (stop r none (not b))) sound

  pub length-zeroed_bytes : (n : ℕ) → length (zeroed_bytes n) ≡ n
  unfolding zeroed_bytes
  length-zeroed_bytes zero = refl
  length-zeroed_bytes (suc n) = omega (arith, length-zeroed_bytes n)

  abbrev pub start : Handle → HandleReader Handle
  start handle = record {
    handle = handle;
    is_done = false;
    has_failed = false;
    end = 0;
    offset = 0;
    bytes_read = 0;
    buf = zeroed_bytes 1024;
  }

  pub new_from_handle_lem :
      (handle : Handle)
      → new_from_handle Handle read_func handle ≡ fill_buffer Handle read_func (start handle)
  unfolding new_from_handle
  new_from_handle_lem handle = refl

  -- Where the first read of a handle fails, the reader that is made answers NULL with `*reached_eof`
  -- true at once, as at the regular end of a handle.
  pub new_from_handle-failed :
      (fuel : ℕ) (handle : Handle)
      → (read_func handle 1024).1 ≡ none
      → (r : HandleReader Handle) × (new_from_handle Handle read_func handle ≡ done r)
        × (handle_read Handle read_func m (suc fuel) r ≡ done (r, none, true))
  unfolding fill_buffer first_fill first_filled
  new_from_handle-failed fuel handle failed =
      (r, new_from_handle_lem handle ∙ filled, read_stop fuel r r none true (turn_done r refl refl))
    where
      r : HandleReader Handle
      r = record (start handle) { handle = (read_func handle 1024).0; is_done = true }

      filled : fill_buffer Handle read_func (start handle) ≡ done r
      filled =
          ap
            (λ (n : ℕ).
              first_filled Handle read_func (start handle) (read_func handle n).0
                (read_func handle n).1)
            (length-zeroed_bytes 1024)
          ∙ ap (first_filled Handle read_func (start handle) (read_func handle 1024).0) failed
