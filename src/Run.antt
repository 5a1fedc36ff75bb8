-- ===== src/Run.antt =====
-- How a call that writes memory ends: with a value, at a failed BSON_ASSERT, or by an access out
-- of bounds.
use libbson.Base.{
  ℕ, ◌+◌, Bool, true, false, Option, none, some, List, ◌++◌, length, take, drop, leb,
}

pub data Run {ℓ} (A : Type ℓ) : Type ℓ where
  done : A → Run A
  aborted : Run A
  fault : Run A

infixl 5 ◌>>=◌ ◌>>◌
abbrev pub ◌>>=◌ {ℓ κ} : {A : Type ℓ} {B : Type κ} → Run A → (A → Run B) → Run B
done a >>= f = f a
aborted >>= f = aborted
fault >>= f = fault

abbrev pub ◌>>◌ {ℓ} : {B : Type ℓ} → Run (Unit {0}) → Run B → Run B
m >> k = m >>= λ _. k

-- `BSON_ASSERT`
abbrev pub assert : Bool → Run (Unit {0})
assert true = done tt
assert false = aborted

-- `memcpy (buf + at, bytes, length)`
abbrev put : Bool → List ℕ → ℕ → List ℕ → Run (List ℕ)
put true buf at bytes = done (take at buf ++ (bytes ++ drop (at + length bytes) buf))
put false buf at bytes = fault

unfoldable pub store : List ℕ → ℕ → List ℕ → Run (List ℕ)
store buf at bytes = put (leb (at + length bytes) (length buf)) buf at bytes

-- A read, whose `none` is out of bounds.
abbrev pub load {ℓ} : {A : Type ℓ} → Option A → Run A
load none = fault
load (some x) = done x
