-- ===== src/Utf8/Validate.antt =====
-- What `bson_utf8_validate` accepts: the encodings of Unicode scalar values, one after the other.
mod Sequence
use libbson.Base.{
  ℕ, zero, suc, ◌+◌, ◌-◌, ◌*◌, ◌/◌, ◌^◌, ◌%◌, ◌≤◌, ◌<◌, ◌≡◌, ◌⊎◌, inl, inr, ◌↔◌, refl, sym, ap, ◌∙◌,
  Bool, true, false, Option, none, some, List, [], ◌∷◌, ◌++◌, length, length-append, length-drop,
  drop-append, All, drop, arith, ltb, leb, ◌==◌, if◌then◌else◌, Bool-cases,
}
use libbson.Base.Words.{IsByte}
use libbson.Utf8.{
  validate_bytes, get_sequence, from_unichar, Verdict, rejected, accepted, validate_char,
  validate_loop, validate,
}
use libbson.Utf8.Codec.{encoding, group, from_unichar-encoding}
use mathlib.Core.Logic.{dite}
use native.Mathlib.Decide.{dec_lt}
use libbson.Utf8.Arith.{sequence_of}
use Sequence.{
  two_ok, three_ok, four_ok, three_value, four_value, check_one, check_two, check_three, check_four,
  check_bad, check_short, verdict,
}

-- A code point that is no half of a surrogate pair.
abbrev pub IsScalar : ℕ → Type 0
IsScalar c = (c < 0xd800) ⊎ ((0xdfff < c) × (c ≤ 0x10ffff))

-- Text: the stored form of scalar values. NUL, and its form of two bytes, only where allowed.
pub data WellFormed (allow_null : Bool) : List ℕ → Type 0 where
  empty : WellFormed allow_null []
  scalar :
      (c : ℕ) (rest bytes : List ℕ)
      → IsScalar c
      → (c ≡ 0 → allow_null ≡ true)
      → bytes ≡ from_unichar c ++ rest
      → WellFormed allow_null rest
      → WellFormed allow_null bytes
  long_null :
      (rest bytes : List ℕ)
      → allow_null ≡ true
      → bytes ≡ 0xc0 ∷ 0x80 ∷ rest
      → WellFormed allow_null rest
      → WellFormed allow_null bytes

-- What an accepted sequence of `n` bytes at the front of `p` is.
Front : Bool → List ℕ → ℕ → Type 0
Front allow_null p n =
    ((c : ℕ) × IsScalar c × (c ≡ 0 → allow_null ≡ true) × (p ≡ from_unichar c ++ drop n p))
    ⊎ ((allow_null ≡ true) × (p ≡ 0xc0 ∷ 0x80 ∷ drop n p))

-- The verdict on the first sequence of a string, with what an accepted one is.
Judged : Bool → List ℕ → Type 0
unfolding Front
Judged allow_null p =
    (validate_char p (length p) allow_null ≡ some rejected)
    ⊎ ((n : ℕ) × (validate_char p (length p) allow_null ≡ some (accepted n))
        × (1 ≤ n)
        × (n ≤ length p)
        × Front allow_null p n)

-- A sequence that passes its test, as the stored form of its value.
front_scalar :
    (allow_null : Bool) (n c : ℕ) (p : List ℕ)
    → validate_char p (length p) allow_null ≡ some (accepted n)
    → 1 ≤ n
    → n ≤ length p
    → IsScalar c
    → (c ≡ 0 → allow_null ≡ true)
    → p ≡ encoding c ++ drop n p
    → Judged allow_null p
unfolding Judged
front_scalar allow_null n c p e pos fits sc null shape =
    inr (n, e, pos, fits, inl (c, sc, null, rw (from_unichar-encoding c (small sc)) shape))
  where
    small : IsScalar c → c < 0x4000000
    small sc = omega arith

judge_one : (allow_null : Bool) (b : ℕ) (rest : List ℕ) → b < 128 → Judged allow_null (b ∷ rest)
judge_one true b rest h =
    front_scalar true 1 b (b ∷ rest) (ground (arith, check_one b rest (length (b ∷ rest)) true))
      (omega arith) (omega arith) (omega arith) (λ _. refl) (ground arith)
judge_one false zero rest h = unfold Judged in inl (check_one 0 rest _ false h (omega arith))
judge_one false (suc b) rest h =
    front_scalar false 1 (suc b) (suc b ∷ rest)
      (ground (arith, check_one (suc b) rest (length (suc b ∷ rest)) false)) (omega arith)
      (omega arith) (omega arith) (λ e. absurd (omega arith)) (ground arith)

judge_two :
    (allow_null : Bool) (b c : ℕ) (rest : List ℕ)
    → 192 ≤ b
    → b < 224
    → IsByte c
    → Judged allow_null (b ∷ c ∷ rest)
judge_two allow_null b c rest lo hi hc = elim (Bool-cases (two_ok b c allow_null)) [
  | inl ok ↦ elim (Bool-cases (leb 194 b)) [
    | inl wide ↦
        front_scalar allow_null 2 (b % 32 * 64 + c % 64) (b ∷ c ∷ rest) (rw ok at check)
          (omega arith) (omega arith) (ground arith) (λ e. absurd (ground arith)) (ground arith)
    | inr null ↦
        unfold Judged in
        inr (2, rw ok at check, omega arith, omega arith, inr (ground arith, ground arith))
  ]
  | inr bad ↦ unfold Judged in inl (rw bad at check)
]
  where
    check :
        validate_char (b ∷ c ∷ rest) (length (b ∷ c ∷ rest)) allow_null
        ≡ some (verdict (two_ok b c allow_null) 2)
    check = check_two b c rest (length (b ∷ c ∷ rest)) allow_null lo hi hc (omega arith)

judge_three :
    (allow_null : Bool) (b c d : ℕ) (rest : List ℕ)
    → 224 ≤ b
    → b < 240
    → IsByte c
    → IsByte d
    → Judged allow_null (b ∷ c ∷ d ∷ rest)
judge_three allow_null b c d rest lo hi hc hd = elim (Bool-cases (three_ok b c d)) [
  | inl ok ↦
      front_scalar allow_null 3 (three_value b c d) (b ∷ c ∷ d ∷ rest) (rw ok at check)
        (omega arith) (omega arith) (ground arith) (λ e. absurd (ground arith)) (ground arith)
  | inr bad ↦ unfold Judged in inl (rw bad at check)
]
  where
    check :
        validate_char (b ∷ c ∷ d ∷ rest) (length (b ∷ c ∷ d ∷ rest)) allow_null
        ≡ some (verdict (three_ok b c d) 3)
    check = check_three b c d rest (length (b ∷ c ∷ d ∷ rest)) allow_null lo hi hc hd (omega arith)

judge_four :
    (allow_null : Bool) (b c d e : ℕ) (rest : List ℕ)
    → 240 ≤ b
    → b < 248
    → IsByte c
    → IsByte d
    → IsByte e
    → Judged allow_null (b ∷ c ∷ d ∷ e ∷ rest)
judge_four allow_null b c d e rest lo hi hc hd he = elim (Bool-cases (four_ok b c d e)) [
  | inl ok ↦
      front_scalar allow_null 4 (four_value b c d e) (b ∷ c ∷ d ∷ e ∷ rest) (rw ok at check)
        (omega arith) (omega arith) (ground arith) (λ z. absurd (ground arith)) (ground arith)
  | inr bad ↦ unfold Judged in inl (rw bad at check)
]
  where
    check :
        validate_char (b ∷ c ∷ d ∷ e ∷ rest) (length (b ∷ c ∷ d ∷ e ∷ rest)) allow_null
        ≡ some (verdict (four_ok b c d e) 4)
    check =
        check_four b c d e rest (length (b ∷ c ∷ d ∷ e ∷ rest)) allow_null lo hi hc hd he
          (omega arith)

short :
    (allow_null : Bool) (b : ℕ) (rest : List ℕ)
    → IsByte b
    → suc (length rest) < (sequence_of b).0
    → Judged allow_null (b ∷ rest)
unfolding Judged
short allow_null b rest hb l = inl (check_short b rest (length (b ∷ rest)) allow_null hb l)

bad_first :
    (allow_null : Bool) (b : ℕ) (rest : List ℕ)
    → IsByte b
    → All IsByte rest
    → ((128 ≤ b) × (b < 192)) ⊎ (248 ≤ b)
    → Judged allow_null (b ∷ rest)
unfolding Judged
bad_first allow_null b rest hb bytes bad =
    inl (check_bad b rest (length (b ∷ rest)) allow_null hb bytes (omega arith) bad)

data Class (b : ℕ) : Type 0 where
  one : b < 128 → Class b
  two : 192 ≤ b → b < 224 → Class b
  three : 224 ≤ b → b < 240 → Class b
  four : 240 ≤ b → b < 248 → Class b
  bad : ((128 ≤ b) × (b < 192)) ⊎ (248 ≤ b) → Class b

classify : (b : ℕ) → Class b
classify b = dite (dec_lt b 128) one λ p.
    dite (dec_lt b 192) (λ q. bad (inl (omega arith, q)))
      λ q. dite (dec_lt b 224) (two (omega arith)) λ r.
        dite (dec_lt b 240) (three (omega arith))
          λ s. dite (dec_lt b 248) (four (omega arith)) λ t. bad (inr (omega arith))

judge :
    (allow_null : Bool) (b : ℕ) (rest : List ℕ)
    → IsByte b
    → All IsByte rest
    → Class b
    → Judged allow_null (b ∷ rest)
judge allow_null b rest hb bytes (one h) = judge_one allow_null b rest h
judge allow_null b [] hb bytes (two lo hi) = short allow_null b [] hb (ground arith)
judge allow_null b (c ∷ rest) hb bytes (two lo hi) = judge_two allow_null b c rest lo hi bytes.0
judge allow_null b [] hb bytes (three lo hi) = short allow_null b [] hb (ground arith)
judge allow_null b (c ∷ []) hb bytes (three lo hi) = short allow_null b (c ∷ []) hb (ground arith)
judge allow_null b (c ∷ d ∷ rest) hb bytes (three lo hi) =
    judge_three allow_null b c d rest lo hi bytes.0 bytes.1.0
judge allow_null b [] hb bytes (four lo hi) = short allow_null b [] hb (ground arith)
judge allow_null b (c ∷ []) hb bytes (four lo hi) = short allow_null b (c ∷ []) hb (ground arith)
judge allow_null b (c ∷ d ∷ []) hb bytes (four lo hi) =
    short allow_null b (c ∷ d ∷ []) hb (ground arith)
judge allow_null b (c ∷ d ∷ e ∷ rest) hb bytes (four lo hi) =
    judge_four allow_null b c d e rest lo hi bytes.0 bytes.1.0 bytes.1.1.0
judge allow_null b rest hb bytes (bad h) = bad_first allow_null b rest hb bytes h

well_formed_front :
    (allow_null : Bool) (n : ℕ) (p : List ℕ)
    → Front allow_null p n
    → WellFormed allow_null (drop n p)
    → WellFormed allow_null p
unfolding Front
well_formed_front allow_null n p (inl (c, sc, null, e)) w =
    WellFormed.scalar c (drop n p) p sc null e w
well_formed_front allow_null n p (inr (allowed, e)) w =
    WellFormed.long_null (drop n p) p allowed e w

All-drop : (n : ℕ) (p : List ℕ) → All IsByte p → All IsByte (drop n p)
All-drop zero p h = h
All-drop (suc n) [] h = h
All-drop (suc n) (x ∷ p) h = All-drop n p h.1

loop_accepts :
    (fuel : ℕ) (p : List ℕ) (left : ℕ) (allow_null : Bool) (n : ℕ)
    → validate_char p (suc left) allow_null ≡ some (accepted n)
    → validate_loop (suc fuel) p (suc left) allow_null
      ≡ validate_loop fuel (drop n p) (suc left - n) allow_null
unfolding validate_loop
loop_accepts fuel p left allow_null n ok = rw ok

loop_rejects :
    (fuel : ℕ) (p : List ℕ) (left : ℕ) (allow_null : Bool)
    → validate_char p (suc left) allow_null ≡ some rejected
    → validate_loop (suc fuel) p (suc left) allow_null ≡ some false
unfolding validate_loop
loop_rejects fuel p left allow_null no_good = rw no_good

loop_ends :
    (fuel : ℕ) (p : List ℕ) (allow_null : Bool) → validate_loop fuel p 0 allow_null ≡ some true
unfolding validate_loop
loop_ends zero p allow_null = refl
loop_ends (suc fuel) p allow_null = refl

-- The loop answers, and only well-formed strings are accepted.
loop_sound :
    (fuel : ℕ) (p : List ℕ) (left : ℕ) (allow_null : Bool)
    → All IsByte p
    → left ≡ length p
    → left ≤ fuel
    → (r : Bool) × (validate_loop fuel p left allow_null ≡ some r)
      × (r ≡ true → WellFormed allow_null p)
unfolding Judged
loop_sound fuel [] zero allow_null bytes e f =
    (true, loop_ends fuel [] allow_null, λ _. WellFormed.empty)
loop_sound fuel (b ∷ p) zero allow_null bytes e f = absurd (omega arith)
loop_sound fuel [] (suc left) allow_null bytes e f = absurd (omega arith)
loop_sound zero (b ∷ p) (suc left) allow_null bytes e f = absurd (omega arith)
loop_sound (suc fuel) (b ∷ p) (suc left) allow_null bytes e f =
    elim (judge allow_null b p bytes.0 bytes.1 (classify b)) [
      | inl no_good ↦ (false, loop_rejects fuel (b ∷ p) left allow_null (rw e no_good), λ t. cc)
      | inr (n, ok, pos, fits, front) ↦
          let (r, er, w) =
            loop_sound fuel (drop n (b ∷ p)) (suc left - n) allow_null (All-drop n (b ∷ p) bytes)
              (omega (arith, length-drop n (b ∷ p))) (omega arith) in
          (
            r,
            loop_accepts fuel (b ∷ p) left allow_null n (rw e ok) ∙ er,
            λ t. well_formed_front allow_null n (b ∷ p) front (w t),
          )
    ]

-- A stored scalar value at the front is accepted, and its length is what is skipped.
accept_scalar :
    (c : ℕ) (rest : List ℕ) (left : ℕ) (allow_null : Bool)
    → IsScalar c
    → (c ≡ 0 → allow_null ≡ true)
    → length (encoding c) ≤ left
    → validate_char (encoding c ++ rest) left allow_null ≡ some (accepted (length (encoding c)))
accept_scalar c rest left allow_null sc null fits = ground (
  arith,
  check_one c rest left allow_null,
  check_two (192 + c / 64) (group c) rest left allow_null,
  check_three (224 + c / 4096) (group (c / 64)) (group c) rest left allow_null,
  check_four (240 + c / 262144) (group (c / 4096)) (group (c / 64)) (group c) rest left allow_null,
)

encoding_pos : (c : ℕ) → 1 ≤ length (encoding c)
encoding_pos c = ground arith

accept_step :
    (fuel : ℕ) (front rest : List ℕ) (allow_null : Bool)
    → 1 ≤ length front
    → validate_char (front ++ rest) (length (front ++ rest)) allow_null
      ≡ some (accepted (length front))
    → validate_loop fuel rest (length rest) allow_null ≡ some true
    → validate_loop (suc fuel) (front ++ rest) (length (front ++ rest)) allow_null ≡ some true
accept_step fuel [] rest allow_null pos ok ih = absurd (omega arith)
accept_step fuel (x ∷ front) rest allow_null pos ok ih =
    loop_accepts fuel (x ∷ front ++ rest) (length (front ++ rest)) allow_null (suc (length front))
      ok
    ∙ rw (drop-append front rest, left) ih
  where
    left : suc (length (front ++ rest)) - suc (length front) ≡ length rest
    left = omega (arith, length-append front rest)

-- Every well-formed string is accepted.
loop_complete :
    (allow_null : Bool) (fuel : ℕ) (p : List ℕ)
    → WellFormed allow_null p
    → length p ≤ fuel
    → validate_loop fuel p (length p) allow_null ≡ some true
loop_complete allow_null fuel p WellFormed.empty f = loop_ends fuel [] allow_null
loop_complete allow_null zero p (WellFormed.scalar c rest _ sc null e w) f = absurd (
    omega (
      arith,
      ap length e,
      ap length (from_unichar-encoding c (omega arith)),
      length-append (from_unichar c) rest,
      encoding_pos c,
    ))
loop_complete allow_null (suc fuel) p (WellFormed.scalar c rest _ sc null e w) f = rw (whole) (
    accept_step fuel (encoding c) rest allow_null (encoding_pos c)
      (accept_scalar c rest _ allow_null sc null (omega (arith, length-append (encoding c) rest)))
      (loop_complete allow_null fuel rest w
        (omega (arith, ap length whole, length-append (encoding c) rest, encoding_pos c))))
  where
    whole : p ≡ encoding c ++ rest
    whole = rw (← from_unichar-encoding c (omega arith)) e
loop_complete allow_null zero p (WellFormed.long_null rest _ allowed e w) f =
    absurd (omega (arith, ap length e))
loop_complete allow_null (suc fuel) p (WellFormed.long_null rest _ allowed e w) f = rw e (
    accept_step fuel (0xc0 ∷ 0x80 ∷ []) rest allow_null (omega arith)
      (ground (arith, check_two 192 128 rest (length (192 ∷ 128 ∷ rest)) allow_null))
      (loop_complete allow_null fuel rest w (omega (arith, ap length e))))

-- On a string of fewer than 2 ^ 32 bytes, given with its length, `bson_utf8_validate` reads nothing
-- past the end and answers; it answers true exactly when the string is a sequence of stored scalar
-- values (with NUL, and the form of NUL in two bytes, only where NUL is allowed).
pub validate-WellFormed :
    (utf8 : List ℕ) (allow_null : Bool)
    → All IsByte utf8
    → length utf8 < 2 ^ 32
    → (r : Bool) × (validate utf8 (length utf8) allow_null ≡ some r)
      × ((r ≡ true) ↔ WellFormed allow_null utf8)
unfolding validate
validate-WellFormed utf8 allow_null bytes short =
    let (r, e, sound) =
      loop_sound (length utf8) utf8 (length utf8) allow_null bytes refl (omega arith) in
    (r, e, (sound, λ w. cc (e, loop_complete allow_null (length utf8) utf8 w (omega arith))))

-- No sequence begins with 0xff.
pub lone_ff : ¬ (WellFormed true (0xff ∷ []))
unfolding validate validate_loop validate_char validate_bytes get_sequence
lone_ff w =
    let refused : validate (0xff ∷ []) 1 true ≡ some false = refl in
    let (r, e, exact) = validate-WellFormed (0xff ∷ []) true (omega arith) (omega arith) in
    cc (refused, e, exact.1 w)
