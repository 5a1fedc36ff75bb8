-- ===== src/Bson/Validate/Same.antt =====
-- src/bson/bson.c: `strcmp` tells texts apart.
use libbson.Base.{
  ℕ, ◌≡◌, ◌≢◌, inl, inr, refl, sym, ap, ◌∙◌, true, false, List, [], ◌∷◌, ◌==◌, ◌&&◌, ==_iff,
  Bool-cases, arith,
}
use libbson.Base.Texts.{same_text, is_text}
use libbson.Bson.Validate.{is_same}

is_same_refl : (a : List ℕ) → is_same a a ≡ true
unfolding is_same
is_same_refl [] = refl
is_same_refl (x ∷ a) = rw ((==_iff x x).1 refl, is_same_refl a) refl

is_same_sound : (a b : List ℕ) → is_same a b ≡ true → a ≡ b
unfolding is_same
is_same_sound [] [] e = refl
is_same_sound [] (y ∷ b) e = ground arith
is_same_sound (x ∷ a) [] e = ground arith
is_same_sound (x ∷ a) (y ∷ b) e = elim (Bool-cases (x == y)) [
  | inl h ↦ λ i. (==_iff x y).0 h i ∷ is_same_sound a b (sym (ap (λ t. t && is_same a b) h) ∙ e) i
  | inr h ↦ absurd (go (sym (ap (λ t. t && is_same a b) h) ∙ e))
]
  where
    go : false ≢ true
    go h = ground arith

-- The code's comparison is the equality of texts.
pub is_same_lem : (a b : List ℕ) → is_same a b ≡ is_text a b
unfolding is_text
is_same_lem a b = go (same_text a b)
  where
    go : (d : Dec (a ≡ b)) → is_same a b ≡ elim d [ yes same ↦ true | no other ↦ false ]
    go (yes e) = ap (λ t. is_same a t) (sym e) ∙ is_same_refl a
    go (no n) = elim (Bool-cases (is_same a b)) [
      | inl h ↦ absurd (n (is_same_sound a b h))
      | inr h ↦ h
    ]
