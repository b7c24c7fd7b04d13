-- ===== src/BsonApi/Docs/Tests.antt =====
-- libbson with documents that are their elements, and the instances of the theorems on documents there.
use tpt.Common.{ℕ, ◌≡◌, refl, sym, true, some, List, [], ◌∷◌, ◌++◌, length}
use tpt.BsonApi.Errors.{err_code, success}
use tpt.BsonApi.Docs.{Libbson, null_doc, bson_doc_create, bson_doc_get_elements}
use tpt.BsonApi.Docs.Laws.{bson_doc_get_elements-bson_doc_create}

abbrev pub Plain : Type 0
Plain = List (ℕ × ℕ)

pub same_some : (d e : Plain) → some d ≡ some e → d ≡ e
same_some d e h = cc

unfoldable pub plain : Libbson Plain ℕ ℕ
plain = record {
  elements = λ d. d;
  bson_append_value = λ d k v. some (d ++ (k, v) ∷ []);
  bson_iter = λ d. some d;
  bson_count_keys = λ d. length d;
  append-elements = λ d k v d' e. sym (same_some (d ++ (k, v) ∷ []) d' e);
  iter-elements = λ d es e. sym (same_some d es e);
  count-elements = λ d. refl;
}

abbrev two_elements : Plain
two_elements = (1, 10) ∷ (2, 20) ∷ []

bson_doc_get_elements-bson_doc_create_example :
    bson_doc_get_elements plain true true two_elements
    ≡ some (err_code success, some two_elements, some 2)
unfolding plain bson_doc_create
bson_doc_get_elements-bson_doc_create_example =
    bson_doc_get_elements-bson_doc_create plain [] two_elements two_elements two_elements null_doc
      refl refl refl
