-- ===== src/Base/Lists.antt =====
-- Byte sequences: lists measured and indexed by native numbers.
use Prim.Native.Nat.{ℕ, zero, suc, ◌+◌, ◌-◌, ◌<◌, min}
use mathlib.Core.Path.{◌≡◌, refl, ap, ◌∙◌}
use mathlib.Core.List.{List, [], ◌∷◌, ◌++◌}
use mathlib.Core.Option.{Option, none, some}
use native.Mathlib.Omega.{arith}

module _ {ℓ} {A : Type ℓ} where
  abbrev pub length : List A → ℕ
  length [] = 0
  length (x ∷ xs) = suc (length xs)

  abbrev pub get_elem? : List A → ℕ → Option A
  get_elem? [] i = none
  get_elem? (x ∷ xs) zero = some x
  get_elem? (x ∷ xs) (suc i) = get_elem? xs i

  abbrev pub take : ℕ → List A → List A
  take zero xs = []
  take (suc n) [] = []
  take (suc n) (x ∷ xs) = x ∷ take n xs

  abbrev pub drop : ℕ → List A → List A
  drop zero xs = xs
  drop (suc n) [] = []
  drop (suc n) (x ∷ xs) = drop n xs

  abbrev pub All {κ} : (A → Type κ) → List A → Type κ
  All P [] = Unit {κ}
  All P (x ∷ xs) = P x × All P xs

module _ {ℓ} {A : Type ℓ} where
  pub length-append : (xs ys : List A) → length (xs ++ ys) ≡ length xs + length ys
  length-append [] ys = omega arith
  length-append (x ∷ xs) ys = omega (arith, length-append xs ys)

  pub length-take : (n : ℕ) (xs : List A) → length (take n xs) ≡ min n (length xs)
  length-take zero xs = omega arith
  length-take (suc n) [] = omega arith
  length-take (suc n) (x ∷ xs) = omega (arith, length-take n xs)

  pub length-drop : (n : ℕ) (xs : List A) → length (drop n xs) ≡ length xs - n
  length-drop zero xs = omega arith
  length-drop (suc n) [] = omega arith
  length-drop (suc n) (x ∷ xs) = omega (arith, length-drop n xs)

  pub drop-append : (xs ys : List A) → drop (length xs) (xs ++ ys) ≡ ys
  drop-append [] ys = refl
  drop-append (x ∷ xs) ys = drop-append xs ys

  drop_eq : (n k : ℕ) (xs : List A) → n ≡ k → drop n xs ≡ drop k xs
  drop_eq n k xs e = ap (λ (j : ℕ). drop j xs) e

  pub drop_past : (n : ℕ) (xs ys : List A) → drop (length xs + n) (xs ++ ys) ≡ drop n ys
  drop_past n [] ys = drop_eq (0 + n) n ys (omega arith)
  drop_past n (x ∷ xs) ys =
      drop_eq (suc (length xs) + n) (suc (length xs + n)) (x ∷ xs ++ ys) (omega arith)
      ∙ drop_past n xs ys

  pub drop-drop : (n k : ℕ) (xs : List A) → drop n (drop k xs) ≡ drop (k + n) xs
  drop-drop n zero xs = drop_eq n (0 + n) xs (omega arith)
  drop-drop zero (suc k) [] = drop_eq (suc (k + 0)) (suc k + 0) [] (omega arith)
  drop-drop (suc n) (suc k) [] = drop_eq (suc (k + suc n)) (suc k + suc n) [] (omega arith)
  drop-drop n (suc k) (x ∷ xs) =
      drop-drop n k xs ∙ drop_eq (suc (k + n)) (suc k + n) (x ∷ xs) (omega arith)

  pub take-append : (xs ys : List A) → take (length xs) (xs ++ ys) ≡ xs
  take-append [] ys = refl
  take-append (x ∷ xs) ys = ap (λ t. x ∷ t) (take-append xs ys)

  pub take_one_more :
      (xs : List A) (y : A) (ys : List A) → take (suc (length xs)) (xs ++ (y ∷ ys)) ≡ xs ++ (y ∷ [])
  take_one_more [] y ys = refl
  take_one_more (x ∷ xs) y ys = ap (λ t. x ∷ t) (take_one_more xs y ys)

  pub nil_of_length : (xs : List A) → length xs ≡ 0 → xs ≡ []
  nil_of_length [] h = refl
  nil_of_length (x ∷ xs) h = absurd (omega arith)

  pub take-append-drop : (n : ℕ) (xs : List A) → take n xs ++ drop n xs ≡ xs
  take-append-drop zero xs = refl
  take-append-drop (suc n) [] = refl
  take-append-drop (suc n) (x ∷ xs) = ap (λ t. x ∷ t) (take-append-drop n xs)

  pub All-append {κ} : (P : A → Type κ) (xs ys : List A) → All P xs → All P ys → All P (xs ++ ys)
  All-append P [] ys h k = k
  All-append P (x ∷ xs) ys h k = (h.0, All-append P xs ys h.1 k)

  -- An index in range has an element, and the element has what every element has.
  pub get_elem?_at {κ} :
      {P : A → Type κ} (xs : List A) (i : ℕ)
      → All P xs
      → i < length xs
      → (x : A) × (get_elem? xs i ≡ some x) × P x
  get_elem?_at [] i h lt = absurd (omega arith)
  get_elem?_at (x ∷ xs) zero h lt = (x, refl, h.0)
  get_elem?_at (x ∷ xs) (suc i) h lt = get_elem?_at xs i h.1 (omega arith)
