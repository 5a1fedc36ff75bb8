-- ===== src/Iter/Read/Date.antt =====
-- src/bson/bson-iter.h: the seconds of a date.
use libbson.Base.{
  ℕ, ◌/◌, ◌^◌, ◌≤◌, ◌<◌, ◌≡◌, ◌↔◌, ◌⊎◌, inl, inr, refl, some, List, get_elem?, lt→ltb, le→ltb,
  arith,
}
use libbson.Types.{to_byte, date_time}
use libbson.Iter.{Iter}
use libbson.Iter.Read.{read_le, read_time_t, read_timeval, to_timeval}

seconds_iff : (v : ℕ) → v < 2 ^ 64 → (v / 1000 ≡ (to_timeval v).0) ↔ (v < 2 ^ 63)
unfolding to_timeval
seconds_iff v h = elim split [
  | inl low ↦ (λ e. low, λ l. rw (lt→ltb v (2 ^ 63) low) refl)
  | inr high ↦ rw (le→ltb v (2 ^ 63) high) (λ e. omega arith, λ l. omega arith)
]
  where
    split : (v < 2 ^ 63) ⊎ (2 ^ 63 ≤ v)
    split = omega arith

-- At a date, in memory that holds the 64 bits `v` of its milliseconds, both `bson_iter_time_t` and
-- `bson_iter_timeval` answer, and their seconds agree just where `v` is below 2 ^ 63, which is
-- where the date is not before 1970.
pub time_t_iff :
    (raw : List ℕ) (it : Iter) (v : ℕ)
    → it.raw ≡ some raw
    → get_elem? raw it.type ≡ some (to_byte date_time)
    → read_le 8 it.d1 raw ≡ some v
    → v < 2 ^ 64
    → (t : ℕ) × (tv : ℕ × ℕ) × (read_time_t it ≡ some t)
      × (read_timeval it ≡ some tv)
      × ((t ≡ tv.0) ↔ (v < 2 ^ 63))
unfolding read_time_t read_timeval to_byte
time_t_iff raw it v memory at_date read small = (
  v / 1000,
  to_timeval v,
  rw (memory, at_date, read) refl,
  rw (memory, at_date, read) refl,
  seconds_iff v small,
)
