-- ===== src/Examples/Copies.antt =====
-- A concrete copy for the theorem on copies.
use libbson.Base.{ℕ, List, [], ◌∷◌}
use libbson.Format.{Value, v_null, v_int32}

-- The keys "a" and "b".
abbrev pair_of_keys : List (List ℕ × Value)
pair_of_keys = (97 ∷ [], v_int32 1) ∷ (98 ∷ [], v_null) ∷ []
