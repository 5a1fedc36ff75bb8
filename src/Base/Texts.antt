-- ===== src/Base/Texts.antt =====
-- Equality of texts, decided.
use Prim.Native.Nat.{ℕ}
use mathlib.Core.Bool.{Bool, true, false}
use mathlib.Core.List.{List, List-discrete}
use native.Mathlib.Decide.{ℕ_discrete}

pub same_text : Discrete (List ℕ)
same_text = List-discrete ℕ_discrete

unfoldable pub is_text : List ℕ → List ℕ → Bool
is_text a b = elim (same_text a b) [ yes same ↦ true | no other ↦ false ]
