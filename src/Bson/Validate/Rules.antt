-- ===== src/Bson/Validate/Rules.antt =====
-- src/bson/bson.c: the tests of keys and strings follow the description of a DBRef.
use libbson.Base.{
  ◌+◌, ◌*◌, ◌/◌, ◌%◌, ◌^◌, ◌<◌, arith, ◌∙◌, ℕ, ◌≡◌, refl, sym, ap, true, none, some, List, [], ◌∷◌,
  ◌==◌, ◌||◌, ==_iff, Bool-cases, inl, inr, if◌then◌else◌, ◌>>=◌,
}
use mathlib.Core.Path.{ap₂}
use native.Mathlib.Decide.{ℕ_discrete}
use libbson.Base.Bits.{bit_and_high, bit_and_mask}
use libbson.Base.Texts.{is_text}
use libbson.Bson.Append.{has_byte}
use libbson.Bson.Validate.{
  Phase, start, top, lf_ref_key, lf_ref_utf8, lf_id_key, lf_db_key, lf_db_utf8, not_dbref, is_same,
  has_flag, check_utf8, check_dollar_keys, check_dot_keys, allow_nulls, check_empty_keys,
  dollar_key, other_key, key_phase, text_phase, phase_inside, is_empty_key,
}
use libbson.Bson.Validate.Same.{is_same_lem}
use libbson.Bson.Validate.Spec.{
  expected, is_missing, after_key, after_text, phase_in, holds, is_set,
}

pub text_phase_lem : (phase : Phase) → text_phase phase ≡ after_text phase
unfolding text_phase
text_phase_lem start = refl
text_phase_lem top = refl
text_phase_lem lf_ref_key = refl
text_phase_lem lf_ref_utf8 = refl
text_phase_lem lf_id_key = refl
text_phase_lem lf_db_key = refl
text_phase_lem lf_db_utf8 = refl
text_phase_lem not_dbref = refl

pub phase_inside_lem : (phase : Phase) → phase_inside phase ≡ phase_in phase
unfolding phase_inside
phase_inside_lem start = refl
phase_inside_lem top = refl
phase_inside_lem lf_ref_key = refl
phase_inside_lem lf_ref_utf8 = refl
phase_inside_lem lf_id_key = refl
phase_inside_lem lf_db_key = refl
phase_inside_lem lf_db_utf8 = refl
phase_inside_lem not_dbref = refl

pub is_empty_key_lem : (key : List ℕ) → is_empty_key key ≡ is_text key []
unfolding is_same
is_empty_key_lem [] = is_same_lem [] []
is_empty_key_lem (c ∷ key) = is_same_lem (c ∷ key) []

pub has_byte_lem : (c : ℕ) (s : List ℕ) → has_byte c s ≡ holds c s
unfolding has_byte holds
has_byte_lem c [] = refl
has_byte_lem c (x ∷ xs) = go (ℕ_discrete x c) (has_byte_lem c xs)
  where
    go :
        (d : Dec (x ≡ c))
        → has_byte c xs ≡ holds c xs
        → (x == c || has_byte c xs) ≡ elim d [ yes same ↦ true | no other ↦ holds c xs ]
    go (yes e) rest = rw ((==_iff x c).1 e) refl
    go (no n) rest = elim (Bool-cases (x == c)) [
      | inl h ↦ absurd (n ((==_iff x c).0 h))
      | inr h ↦ rw h rest
    ]

-- The choice of a key that begins with `$`.
dollar_key_lem :
    (phase : Phase) (key : List ℕ)
    → dollar_key phase key
      ≡ (expected phase >>= λ (p : List ℕ × Phase). if is_text key p.0 then some p.1 else none)
unfolding dollar_key
dollar_key_lem start key = refl
dollar_key_lem top key = refl
dollar_key_lem lf_ref_key key = ap (λ t. if t then some lf_ref_utf8 else none) (is_same_lem key _)
dollar_key_lem lf_ref_utf8 key = refl
dollar_key_lem lf_id_key key = ap (λ t. if t then some lf_db_key else none) (is_same_lem key _)
dollar_key_lem lf_db_key key = ap (λ t. if t then some lf_db_utf8 else none) (is_same_lem key _)
dollar_key_lem lf_db_utf8 key = refl
dollar_key_lem not_dbref key = refl

other_key_lem :
    (phase : Phase) → other_key phase ≡ (if is_missing phase then none else some not_dbref)
unfolding other_key
other_key_lem start = refl
other_key_lem top = refl
other_key_lem lf_ref_key = refl
other_key_lem lf_ref_utf8 = refl
other_key_lem lf_id_key = refl
other_key_lem lf_db_key = refl
other_key_lem lf_db_utf8 = refl
other_key_lem not_dbref = refl

-- A text of one byte.
one_byte : (c : ℕ) (key : List ℕ) → is_same (c ∷ []) (b'$' ∷ []) ≡ (c == b'$')
unfolding is_same
one_byte c key = elim (Bool-cases (c == b'$')) [ inl h ↦ rw h refl | inr h ↦ rw h refl ]

pub key_phase_lem : (phase : Phase) (key : List ℕ) → key_phase phase key ≡ after_key phase key
unfolding key_phase after_key is_same
key_phase_lem phase [] = rw (sym (is_same_lem [] (b'$' ∷ []))) (other_key_lem phase)
key_phase_lem phase (c ∷ key) =
    rw (sym (is_same_lem (c ∷ []) (b'$' ∷ [])), one_byte c key)
      (ap₂ (λ s t. if c == b'$' then s else t) (dollar_key_lem phase (c ∷ key))
        (other_key_lem phase))

-- A flag is a bit, whose place is `k`.
has_flag-split : (k q r : ℕ) → r < 2 ^ k → has_flag (q * 2 ^ k + r) (1 * 2 ^ k) ≡ (q % 2 == 1)
has_flag-split k q r h = rw (bit_and_high k q r 1 h, bit_and_mask 1 q) (ground arith)

pub has_flag_lem :
    (flags : ℕ)
    → (has_flag flags check_utf8 ≡ is_set flags 1)
      × (has_flag flags check_dollar_keys ≡ is_set flags 2)
      × (has_flag flags check_dot_keys ≡ is_set flags 4)
      × (has_flag flags allow_nulls ≡ is_set flags 8)
      × (has_flag flags check_empty_keys ≡ is_set flags 16)
has_flag_lem flags = (
  at_place 0 1 refl (omega arith),
  at_place 1 2 refl (omega arith),
  at_place 2 4 refl (omega arith),
  at_place 3 8 refl (omega arith),
  at_place 4 16 refl (omega arith),
)
  where
    at_place :
        (k w : ℕ)
        → 2 ^ k ≡ w
        → (flags ≡ flags / w * w + flags % w) × (flags % w < w)
        → has_flag flags w ≡ is_set flags w
    at_place k w size (split, small) =
        ap₂ (λ (x y : ℕ). has_flag x y)
          (split ∙ ap (λ (t : ℕ). flags / w * t + flags % w) (sym size)) (omega (arith, size))
        ∙ has_flag-split k (flags / w) (flags % w) (omega (arith, size, small))
