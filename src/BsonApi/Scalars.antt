-- ===== src/BsonApi/Scalars.antt =====
-- The setters of bson_api.c for numbers and strings, and the calls that it only passes on: bson_to_json and
-- bson_doc_destroy. An integer is the pattern of its bits; doubles are a parameter.
mod Laws
mod Tests
use tpt.Common.{
  ℕ, ◌%◌, ◌^◌, Bool, true, false, not, ◌||◌, Option, none, some, List, [], ◌∷◌, length, ℤ,
  if◌then◌else◌,
}
use tpt.BsonApi.Errors.{err_code, success, null_params, convert_json}

-- The type of a bson_value_t with its member of the union. A text that strdup has found no memory for is `none`.
pub data Scalar (Double : Type 0) : Type 0 where
  int32 : (v_int32 : ℕ) → Scalar Double
  int64 : (v_int64 : ℕ) → Scalar Double
  double_value : (v_double : Double) → Scalar Double
  utf8 : (len : ℕ) → (str : Option (List ℕ)) → Scalar Double

module _ {Double : Type 0} where
  -- The argument is `none` for NULL, and else what the value holds.
  pub bson_value_set_int32 : Option (Scalar Double) → (i32 : ℕ) → ℤ × Option (Scalar Double)
  bson_value_set_int32 none i32 = (err_code null_params, none)
  bson_value_set_int32 (some old) i32 = (err_code success, some (int32 (i32 % 2 ^ 32)))

  pub bson_value_set_int64 : Option (Scalar Double) → (i64 : ℕ) → ℤ × Option (Scalar Double)
  bson_value_set_int64 none i64 = (err_code null_params, none)
  bson_value_set_int64 (some old) i64 = (err_code success, some (int64 (i64 % 2 ^ 64)))

  pub bson_value_set_double : Option (Scalar Double) → (d : Double) → ℤ × Option (Scalar Double)
  bson_value_set_double none d = (err_code null_params, none)
  bson_value_set_double (some old) d = (err_code success, some (double_value d))

  -- `str` is `none` for NULL, and else its bytes before the 0; `len` is 32 bits wide.
  pub bson_value_set_str :
      (memory : Bool)
      → Option (Scalar Double)
      → (str : Option (List ℕ)) → ℤ × Option (Scalar Double)
  bson_value_set_str memory none str = (err_code null_params, none)
  bson_value_set_str memory (some old) none = (err_code null_params, some old)
  bson_value_set_str memory (some old) (some str) =
      (err_code success, some (utf8 (length str % 2 ^ 32) (if memory then some str else none)))

-- The result, and `*json` with `*len` if they are written. `bson` and `json` say that the pointers are not NULL,
-- `text` is what bson_as_json returns, `none` for NULL.
pub bson_to_json : (bson json : Bool) → (text : Option (List ℕ)) → ℤ × Option (Option (List ℕ))
bson_to_json bson json text =
    if not bson || not json then (err_code null_params, none) else elim text [
      | none ↦ (err_code convert_json, some none)
      | some t ↦ (err_code success, some (some t))
    ]

-- The documents that are given to bson_destroy.
pub bson_doc_destroy : {Doc : Type 0} → Option Doc → List Doc
bson_doc_destroy none = []
bson_doc_destroy (some d) = d ∷ []
