-- ===== src/Writer/Room.antt =====
-- src/bson/bson-writer.c: the loop that doubles the length of the buffer.
use libbson.Base.{
  ℕ, zero, suc, ◌*◌, ◌^◌, ◌≤◌, ◌<◌, ◌≡◌, ◌⊎◌, inl, inr, refl, ap, ◌∙◌, some, ltb, lt→ltb, le→ltb,
  arith, Bool-cases,
}
use native.Mathlib.Nat.{pow-suc, mul_assoc}
use libbson.Writer.{twice, grow_len, turns}

-- What the loop ends with: room, in no more than twice what is needed where it grew at all.
abbrev pub Enough : ℕ → ℕ → ℕ → Type 0
Enough needed buflen n =
    (needed ≤ n) × (buflen ≤ n) × ((n ≡ buflen) ⊎ ((n ≡ 64) ⊎ (n < 2 * needed)))

twice_positive : (buflen : ℕ) → 0 < buflen → buflen < 2 ^ 63 → twice buflen ≡ 2 * buflen
unfolding twice
twice_positive buflen pos small = ground arith

grow_len_short :
    (t needed buflen : ℕ)
    → buflen < needed
    → grow_len (suc t) needed buflen ≡ grow_len t needed (twice buflen)
unfolding grow_len
grow_len_short t needed buflen h = rw (lt→ltb buflen needed h) refl

pub grow_len_fits : (t needed buflen : ℕ) → needed ≤ buflen → grow_len t needed buflen ≡ some buflen
unfolding grow_len
grow_len_fits zero needed buflen h = rw (le→ltb buflen needed h) refl
grow_len_fits (suc t) needed buflen h = rw (le→ltb buflen needed h) refl

grow_len_positive :
    (t needed buflen : ℕ)
    → 0 < buflen
    → needed ≤ 2 ^ 63
    → needed ≤ buflen * 2 ^ t
    → (n : ℕ) × (grow_len t needed buflen ≡ some n)
      × (needed ≤ n)
      × (buflen ≤ n)
      × ((n ≡ buflen) ⊎ (n < 2 * needed))
grow_len_positive zero needed buflen pos small h =
    (buflen, grow_len_fits 0 needed buflen (omega arith), omega arith, omega arith, inl refl)
grow_len_positive (suc t) needed buflen pos small h = elim (Bool-cases (ltb buflen needed)) [
  | inl short ↦
      let below : buflen < needed = ground arith in
      let (n, e, room, larger, small_enough) =
        grow_len_positive t needed (2 * buflen) (omega arith) small
          (omega (arith, pow-suc 2 t, power)) in
      (
        n,
        grow_len_short t needed buflen below ∙ rw (twice_positive buflen pos (omega arith)) e,
        room,
        omega arith,
        inr (omega arith),
      )
  | inr fits ↦ (
    buflen,
    grow_len_fits (suc t) needed buflen (ground arith),
    ground arith,
    omega arith,
    inl refl,
  )
]
  where
    power : buflen * 2 ^ suc t ≡ 2 * buflen * 2 ^ t
    power = omega (arith, ap (λ (p : ℕ). buflen * p) (pow-suc 2 t), mul_assoc 2 buflen (2 ^ t))

-- For a need of at most 2 ^ 63 bytes the loop of `bson_writer_begin` ends within 65 turns, whatever
-- the length it starts from. The length it ends with is no smaller than the need and the start;
-- it is the start itself, or 64, or less than twice the need.
pub grow_len-Enough :
    (needed buflen : ℕ)
    → needed ≤ 2 ^ 63
    → (n : ℕ) × (grow_len turns needed buflen ≡ some n) × Enough needed buflen n
unfolding twice
grow_len-Enough needed zero small = elim (Bool-cases (ltb 0 needed)) [
  | inl some_needed ↦
      let (n, e, room, larger, small_enough) =
        grow_len_positive 64 needed 64 (omega arith) small (omega arith) in
      (n, grow_len_short 64 needed 0 (ground arith) ∙ e, (room, omega arith, inr small_enough))
  | inr nothing ↦
      (0, grow_len_fits 65 needed 0 (ground arith), (ground arith, omega arith, inl refl))
]
grow_len-Enough needed (suc k) small =
    let (n, e, room, larger, small_enough) =
      grow_len_positive 65 needed (suc k) (omega arith) small (omega arith) in
    (n, e, (room, larger, omega arith))
