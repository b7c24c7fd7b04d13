-- ===== src/BsonApi/Scalars/Tests.antt =====
-- A text without memory, and an integer that is wider than the member.
use tpt.Common.{ℕ, ◌≡◌, refl, true, false, none, some, [], ◌∷◌}
use tpt.BsonApi.Errors.{err_code, success, convert_json}
use tpt.BsonApi.Scalars.{
  Scalar, int32, double_value, utf8, bson_value_set_str, bson_value_set_double, bson_to_json,
  bson_doc_destroy,
}

abbrev old : Scalar ℕ
old = int32 7

no_copy :
    bson_value_set_str false (some old) (some (97 ∷ [])) ≡ (err_code success, some (utf8 1 none))
unfolding bson_value_set_str
no_copy = refl

half : bson_value_set_double (some old) 5 ≡ (err_code success, some (double_value 5))
unfolding bson_value_set_double
half = refl

no_json : bson_to_json true true none ≡ (err_code convert_json, some none)
unfolding bson_to_json
no_json = refl

nothing_destroyed : bson_doc_destroy {Doc = ℕ} none ≡ []
unfolding bson_doc_destroy
nothing_destroyed = refl
