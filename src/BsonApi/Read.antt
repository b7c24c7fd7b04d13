-- ===== src/BsonApi/Read.antt =====
-- bson_read_from_buffer of bson_api.c and what it calls: the documents that libbson's reader finds in a
-- buffer, copied into an array that doubles. The reader is the list of its documents, each with whether a
-- realloc behind it succeeds, and what it says at their end; a copy of a document is the document.
mod Laws
mod Tests
use tpt.Common.{
  ℕ, ◌+◌, ◌*◌, ◌^◌, Bool, true, false, ◌&&◌, Option, none, some, List, [], ◌∷◌, ◌++◌, length, ℤ,
  pos, is_neg, leb, ltb, if◌then◌else◌,
}
use tpt.BsonApi.Errors.{
  err_code, success, null_params, mem_alloc, reader_new, reader_tell, reader_read,
}

abbrev pub bson_array_size : ℕ
bson_array_size = 4

module _ {A : Type 0} where
  -- The loop of read_and_alloc_bson_array, with the documents in the array and the entries it has room
  -- for. `none` is a write behind the array, an `int` that overflows, or, after a realloc that
  -- fails, the read of an entry of the array that has just been set to NULL.
  pub read_loop : (docs : List A) → (arr_size : ℕ) → List (A × Bool) → Option (List A × ℕ)
  read_loop docs arr_size [] = some (docs, arr_size)
  read_loop docs arr_size ((doc, grown) ∷ rest) =
      let more = docs ++ doc ∷ [] in
      let doubled = read_loop more (arr_size * 2) rest in
      let kept = read_loop more arr_size rest in
      if ltb (length docs) arr_size
      then (if leb arr_size (length more)
          then (if grown && ltb (arr_size * 2) (2 ^ 31) then doubled else none)
          else kept)
      else none

  -- The result with the array, `none` for NULL.
  pub read_and_alloc_bson_array : (memory : Bool) → List (A × Bool) → Option (ℤ × Option (List A))
  unfolding read_loop
  read_and_alloc_bson_array false found = some (err_code mem_alloc, none)
  read_and_alloc_bson_array true found = elim (read_loop [] bson_array_size found) [
    | none ↦ none
    | some (docs, arr_size) ↦ some (err_code success, some docs)
  ]

-- The result, and what is stored in `*parsed_len`, if anything is.
pub get_parsed_len : (eof : Bool) → (tell : ℤ) → ℤ × Option ℤ
get_parsed_len true tell =
    (if is_neg tell then err_code reader_tell else err_code success, some tell)
get_parsed_len false tell = (err_code reader_read, none)

-- What the reader and the allocator answer: whether there is a reader and memory for the first array, the
-- documents, whether the buffer ends behind them and where, and whether the last realloc returns a block.
pub record Answers (A : Type 0) : Type 0 where
  pub reader : Bool
  pub memory : Bool
  pub found : List (A × Bool)
  pub eof : Bool
  pub tell : ℤ
  pub shrunk : Bool

-- The result, `*doc_arr` with `none` for NULL, `*arr_len` and `*parsed_len`, the last two `none` if they
-- are not written.
pub record Parsed (A : Type 0) : Type 0 where
  pub ret : ℤ
  pub doc_arr : Option (List A)
  pub arr_len : Option ℕ
  pub parsed_len : Option ℤ

module _ {A : Type 0} where
  -- Behind read_and_alloc_bson_array, with its documents.
  pub finish_read : Answers A → List A → Parsed A
  unfolding get_parsed_len
  finish_read a docs =
      let (ret, parsed) = get_parsed_len a.eof a.tell in
      if is_neg ret
      then record { ret = ret; doc_arr = none; arr_len = some (length docs); parsed_len = parsed }
      else if a.shrunk
      then record {
        ret = ret;
        doc_arr = some docs;
        arr_len = some (length docs);
        parsed_len = parsed;
      }
      else if ltb 0 (length docs)
      then record {
        ret = err_code mem_alloc;
        doc_arr = none;
        arr_len = some (length docs);
        parsed_len = parsed;
      }
      else record { ret = ret; doc_arr = none; arr_len = some (length docs); parsed_len = parsed }

  -- `given` says that no pointer is NULL, and `old` is what `*doc_arr` holds before. The test
  -- `buf_len < 0` is on a size_t and never true.
  pub bson_read_from_buffer :
      (given : Bool) → Answers A → (old : Option (List A)) → Option (Parsed A)
  unfolding read_and_alloc_bson_array finish_read
  bson_read_from_buffer given a old =
      if given
      then (if a.reader
          then elim (read_and_alloc_bson_array a.memory a.found) [
            | none ↦ none
            | some (ret, none) ↦
                some (record { ret = ret; doc_arr = none; arr_len = some 0; parsed_len = none })
            | some (ret, some docs) ↦ some (finish_read a docs)
          ]
          else some (record {
            ret = err_code reader_new;
            doc_arr = old;
            arr_len = none;
            parsed_len = none;
          }))
      else some
          (record { ret = err_code null_params; doc_arr = old; arr_len = none; parsed_len = none })
