-- ===== src/BsonApi/Scalars/Laws.antt =====
-- What a value holds behind a setter.
use tpt.Common.{ℕ, ◌^◌, ◌<◌, ◌≡◌, Bool, none, some, List, length, arith, ap, if◌then◌else◌}
use tpt.BsonApi.Errors.{err_code, success}
use tpt.BsonApi.Scalars.{
  Scalar, int32, int64, utf8, bson_value_set_int32, bson_value_set_int64, bson_value_set_str,
}

-- The setters succeed on every value and argument that is given, whatever the value held before, and it holds the argument
-- then: an integer of its width as it is, and a text shorter than 2 ^ 32 bytes with its length; but a
-- text for which strdup finds no memory is NULL then, beside a length that is not 0.
pub setters-hold :
    {Double : Type 0} (old : Scalar Double) (n : ℕ) (str : List ℕ) (memory : Bool)
    → length str < 2 ^ 32
    → (n < 2 ^ 32 → bson_value_set_int32 (some old) n ≡ (err_code success, some (int32 n)))
      × (n < 2 ^ 64 → bson_value_set_int64 (some old) n ≡ (err_code success, some (int64 n)))
      × (bson_value_set_str memory (some old) (some str)
          ≡ (err_code success, some (utf8 (length str) (if memory then some str else none))))
unfolding bson_value_set_int32 bson_value_set_int64 bson_value_set_str
setters-hold old n str memory short = (
  λ fits. ap (λ (v : ℕ). (err_code success, some (int32 v))) (omega arith),
  λ fits. ap (λ (v : ℕ). (err_code success, some (int64 v))) (omega arith),
  ap (λ (v : ℕ). (err_code success, some (utf8 v (if memory then some str else none))))
      (omega arith),
)
