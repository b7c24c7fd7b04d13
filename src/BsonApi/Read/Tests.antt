-- ===== src/BsonApi/Read/Tests.antt =====
-- A buffer of five documents, here numbers, and the instances of the theorems on bson_read_from_buffer.
use tpt.Common.{ℕ, ◌≡◌, refl, true, false, none, some, [], ◌∷◌, arith, pos}
use tpt.BsonApi.Read.{Answers, bson_read_from_buffer}
use tpt.BsonApi.Read.Laws.{parsed, bson_read_from_buffer-docs_of}

abbrev five_docs : Answers ℕ
five_docs = record {
  reader = true;
  memory = true;
  found = (1, true) ∷ (2, true) ∷ (3, true) ∷ (4, true) ∷ (5, true) ∷ [];
  eof = true;
  tell = pos 90;
  shrunk = true;
}

abbrev no_growth : Answers ℕ
no_growth = record five_docs { found = (1, true) ∷ (2, true) ∷ (3, true) ∷ (4, false) ∷ [] }

bson_read_from_buffer-docs_of_example :
    bson_read_from_buffer true five_docs none ≡ some (parsed true (pos 90) (1 ∷ 2 ∷ 3 ∷ 4 ∷ 5 ∷ []))
bson_read_from_buffer-docs_of_example =
    bson_read_from_buffer-docs_of five_docs none refl refl refl refl (omega arith)
