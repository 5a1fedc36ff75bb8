-- ===== src/Iter/Overwrite.antt =====
-- src/bson/bson-iter.c: values of a fixed size written over the current element. The memory is that
-- of the iterator.
pub mod Back
use libbson.Base.{ℕ, Bool, true, false, some, List, [], ◌∷◌, ◌++◌, get_elem?, ◌==◌, if◌then◌else◌}
use libbson.Base.Words.{le_bytes}
use libbson.Types.{BsonType, to_byte, bool, int32, int64, double, decimal128}
use libbson.Run.{Run, done, load, store, ◌>>=◌}
use libbson.Iter.{Iter}

-- What the five functions share: at another type nothing is written.
unfoldable pub overwrite : BsonType → List ℕ → Iter → Run Iter
overwrite t bytes it = do
  raw ← load it.raw
  b ← load (get_elem? raw it.type)
  let written = (do raw' ← store raw it.d1 bytes; done (record it { raw = some raw' }))
  if b == to_byte t then written else done it

-- `bson_iter_overwrite_bool`
unfoldable pub overwrite_bool : Iter → Bool → Run Iter
unfolding overwrite
overwrite_bool it value = overwrite bool ((if value then 1 else 0) ∷ []) it

-- `bson_iter_overwrite_int32` and `bson_iter_overwrite_int64`
unfoldable pub overwrite_int32 : Iter → ℕ → Run Iter
unfolding overwrite
overwrite_int32 it value = overwrite int32 (le_bytes 4 value) it

unfoldable pub overwrite_int64 : Iter → ℕ → Run Iter
unfolding overwrite
overwrite_int64 it value = overwrite int64 (le_bytes 8 value) it

-- `bson_iter_overwrite_double`, given the bit pattern.
unfoldable pub overwrite_double : Iter → ℕ → Run Iter
unfolding overwrite
overwrite_double it value = overwrite double (le_bytes 8 value) it

-- `bson_iter_overwrite_decimal128`
unfoldable pub overwrite_decimal128 : Iter → ℕ → ℕ → Run Iter
unfolding overwrite
overwrite_decimal128 it low high = overwrite decimal128 (le_bytes 8 low ++ le_bytes 8 high) it
