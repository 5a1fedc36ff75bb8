-- ===== src/Decimal128/Names.antt =====
-- src/bson/bson-decimal128.c: the comparison of words without case.
use libbson.Base.{
  ℕ, ◌+◌, ◌-◌, ◌<◌, ◌≡◌, ◌↔◌, inl, inr, refl, sym, ◌∙◌, Bool, true, List, [], ◌∷◌, ◌==◌, Bool-cases,
  leb, ◌&&◌, if◌then◌else◌, All, arith,
}
use mathlib.Core.Path.{ap₂}
use mathlib.Core.List.{map}
use libbson.Decimal128.{to_lower, is_text_equal}

-- The comparison by the function of the code.
is_text_equal-map :
    (isupper : ℕ → Bool) (a b : List ℕ)
    → (is_text_equal isupper a b ≡ true → map (to_lower isupper) a ≡ map (to_lower isupper) b)
      × (map (to_lower isupper) a ≡ map (to_lower isupper) b → is_text_equal isupper a b ≡ true)
unfolding is_text_equal
is_text_equal-map isupper [] [] = (λ _. refl, λ _. refl)
is_text_equal-map isupper [] (y ∷ b) = (λ h. cc, λ h. cc)
is_text_equal-map isupper (x ∷ a) [] = (λ h. cc, λ h. cc)
is_text_equal-map isupper (x ∷ a) (y ∷ b) =
    let rest = is_text_equal-map isupper a b in
    elim (Bool-cases (to_lower isupper x == to_lower isupper y)) [
      | inl same ↦ rw same (
          let first : to_lower isupper x ≡ to_lower isupper y = ground arith in
          (
            λ h. let r = rest.0 h in cc,
            λ h. let t : map (to_lower isupper) a ≡ map (to_lower isupper) b = cc in rest.1 t,
          ))
      | inr other ↦ rw other (
          let first : ¬ (to_lower isupper x ≡ to_lower isupper y) = (λ e. ground arith) in
          (λ h. cc, λ h. let f : to_lower isupper x ≡ to_lower isupper y = cc in absurd (first f)))
    ]

-- The small letter of an ASCII letter.
abbrev pub small_letter : ℕ → ℕ
small_letter c = if leb b'A' c && leb c b'Z' then c - b'A' + b'a' else c

-- `isupper` in the C locale, on ASCII.
abbrev IsAsciiUpper : (ℕ → Bool) → Type 0
IsAsciiUpper isupper = (c : ℕ) → c < 128 → isupper c ≡ (leb b'A' c && leb c b'Z')

abbrev AllAscii : List ℕ → Type 0
AllAscii text = All (λ c. c < 128) text

to_lower_lem :
    (isupper : ℕ → Bool) (c : ℕ)
    → IsAsciiUpper isupper
    → c < 128
    → to_lower isupper c ≡ small_letter c
unfolding to_lower
to_lower_lem isupper c upper h = rw (upper c h) (elim (Bool-cases (leb b'A' c && leb c b'Z')) [
  | inl letter ↦ rw letter (ground arith)
  | inr other ↦ rw other refl
])

map-to_lower :
    (isupper : ℕ → Bool) (text : List ℕ)
    → IsAsciiUpper isupper
    → AllAscii text
    → map (to_lower isupper) text ≡ map small_letter text
map-to_lower isupper [] upper h = refl
map-to_lower isupper (c ∷ text) upper h =
    ap₂ (λ x xs. x ∷ xs) (to_lower_lem isupper c upper h.0) (map-to_lower isupper text upper h.1)

-- On texts of ASCII characters, where `isupper` is that of the C locale, `_dec128_istreq` answers
-- true exactly where the two texts agree once their capital letters are small letters.
pub is_text_equal-agrees :
    (isupper : ℕ → Bool) (a b : List ℕ)
    → IsAsciiUpper isupper
    → AllAscii a
    → AllAscii b
    → (is_text_equal isupper a b ≡ true) ↔ (map small_letter a ≡ map small_letter b)
is_text_equal-agrees isupper a b upper ascii_a ascii_b =
    let same_a = map-to_lower isupper a upper ascii_a in
    let same_b = map-to_lower isupper b upper ascii_b in
    let agrees = is_text_equal-map isupper a b in
    (λ h. sym same_a ∙ agrees.0 h ∙ same_b, λ h. agrees.1 (same_a ∙ h ∙ sym same_b))
