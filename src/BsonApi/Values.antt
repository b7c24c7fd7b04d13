-- ===== src/BsonApi/Values.antt =====
-- Writing documents to a buffer, and values that hold an array or a document: bson_write_to_buffer, bson_buffer_write,
-- and the setters and getters of bson_api.c for both. What libbson does with documents is Libbson, and with bytes
-- Storage.
mod Written
mod Laws
mod Tests
use tpt.Common.{
  ℕ, zero, suc, ◌+◌, ◌≡◌, Bool, true, false, not, Option, none, some, List, [], ◌∷◌, ◌++◌, map,
  length, ℤ, is_neg, if◌then◌else◌,
}
use tpt.BsonApi.Errors.{
  err_code, success, null_params, mem_alloc, creat_new, append_val, writer_new, writer_begin,
  iter_init,
}
use tpt.BsonApi.Docs.{Libbson, append_loop, bson_doc_copy_by_iter, fill_loop}

-- The empty document of bson_new and bson_writer_begin, the bytes of a document, and bson_new_from_data, which is
-- `none` for NULL. bson_uint32_to_string makes a key of a number.
pub record Storage {Doc Key Value : Type 0} (lib : Libbson Doc Key Value) : Type 0 where
  pub fresh : Doc
  pub data_of : Doc → List ℕ
  pub bson_new_from_data : List ℕ → Option Doc
  pub bson_uint32_to_string : ℕ → Key
  pub fresh-elements : lib.elements fresh ≡ []
  pub from_data-elements :
      (d d' : Doc) → bson_new_from_data (data_of d) ≡ some d' → lib.elements d' ≡ lib.elements d

-- What a value is set to: its type, with its bytes.
pub data Stored : Type 0 where
  array : List ℕ → Stored
  document : List ℕ → Stored

-- The value that a setter leaves with the result and the bytes of bson_write_to_buffer, if it writes one.
pub stored_as : (List ℕ → Stored) → ℤ × Option (List ℕ) → ℤ × Option Stored
stored_as kind (ret, none) = (ret, none)
stored_as kind (ret, some bytes) = if is_neg ret then (ret, none) else (ret, some (kind bytes))

module _ {Doc Key Value : Type 0} (lib : Libbson Doc Key Value) (st : Storage lib) where
  -- A round of bson_buffer_write: bson_writer_begin, the copy into the writer's document, and the further rounds.
  pub write_step : (begun : Bool) → (copy : ℤ × Option Doc) → (rest : ℤ × List Doc) → ℤ × List Doc
  write_step false copy rest = (err_code writer_begin, [])
  write_step true (ret, none) rest = (ret, [])
  write_step true (ret, some d) (ret', ds) = if is_neg ret then (ret, []) else (ret', d ∷ ds)

  -- The result with the documents in the writer; `begin i` is what bson_writer_begin returns in round i.
  pub bson_buffer_write : (begin : ℕ → Bool) → (i : ℕ) → List Doc → ℤ × List Doc
  unfolding write_step
  bson_buffer_write begin i [] = (err_code success, [])
  bson_buffer_write begin i (d ∷ ds) =
      write_step (begin i) (bson_doc_copy_by_iter lib st.fresh d)
        (bson_buffer_write begin (i + 1) ds)

  pub all_data : List Doc → List ℕ
  all_data [] = []
  all_data (d ∷ ds) = st.data_of d ++ all_data ds

  -- Behind bson_buffer_write: the realloc to the length of what has been written.
  pub shrink : (memory : Bool) → ℤ × List Doc → ℤ × Option (List ℕ)
  unfolding all_data
  shrink memory (ret, ds) =
      if is_neg ret
      then (ret, none)
      else if memory
      then (err_code success, some (all_data ds))
      else (err_code mem_alloc, none)

  -- The result, and the bytes in `*buf`, `none` for NULL or when it is not written. `writer` says whether
  -- bson_writer_new makes a writer.
  pub bson_write_to_buffer :
      (given writer : Bool) → (begin : ℕ → Bool) → (memory : Bool) → List Doc → ℤ × Option (List ℕ)
  unfolding bson_buffer_write shrink
  bson_write_to_buffer false writer begin memory docs = (err_code null_params, none)
  bson_write_to_buffer true false begin memory docs = (err_code writer_new, none)
  bson_write_to_buffer true true begin memory docs = shrink memory (bson_buffer_write begin 0 docs)

  pub bson_value_set_doc :
      (given writer : Bool) → (begin : ℕ → Bool) → (memory : Bool) → Doc → ℤ × Option Stored
  unfolding bson_write_to_buffer stored_as
  bson_value_set_doc false writer begin memory d = (err_code null_params, none)
  bson_value_set_doc true writer begin memory d =
      stored_as document (bson_write_to_buffer true writer begin memory (d ∷ []))

  -- The values with the keys that the loop gives them.
  pub keyed : (i : ℕ) → List Value → List (Key × Value)
  keyed i [] = []
  keyed i (v ∷ vs) = (st.bson_uint32_to_string i, v) ∷ keyed (i + 1) vs

  -- `new` says whether bson_new makes a document.
  pub bson_value_set_array :
      (given new writer : Bool)
      → (begin : ℕ → Bool) → (memory : Bool) → List Value
      → ℤ × Option Stored
  unfolding append_loop keyed bson_write_to_buffer stored_as
  bson_value_set_array false new writer begin memory vs = (err_code null_params, none)
  bson_value_set_array true false writer begin memory vs = (err_code creat_new, none)
  bson_value_set_array true true writer begin memory vs =
      elim (append_loop lib st.fresh (keyed 0 vs)) [
        | none ↦ (err_code append_val, none)
        | some d ↦ stored_as array (bson_write_to_buffer true writer begin memory (d ∷ []))
      ]

  -- The array of values from the entries; `none` is a write behind it.
  pub values : (n : ℕ) → Option (List (Key × Value)) → Option (ℤ × Option (List Value) × Option ℕ)
  values n none = none
  values n (some out) = some (err_code success, some (map (λ (e : Key × Value). e.1) out), some n)

  -- Behind bson_count_keys, which has returned `n`.
  pub array_counted :
      (memory : Bool)
      → (n : ℕ) → Option (List (Key × Value))
      → Option (ℤ × Option (List Value) × Option ℕ)
  unfolding fill_loop values
  array_counted memory zero visited = some (err_code success, none, some 0)
  array_counted false (suc n) visited = some (err_code mem_alloc, none, some (suc n))
  array_counted true (suc n) none = some (err_code iter_init, none, some (suc n))
  array_counted true (suc n) (some es) = values (suc n) (fill_loop lib (suc n) 0 es)

  -- The result, what `*arr_vals` holds if it is set, and `*arr_len` if it is.
  pub bson_value_get_array :
      (given memory : Bool) → (bytes : List ℕ) → Option (ℤ × Option (List Value) × Option ℕ)
  unfolding array_counted
  bson_value_get_array false memory bytes = some (err_code null_params, none, none)
  bson_value_get_array true memory bytes = elim (st.bson_new_from_data bytes) [
    | none ↦ some (err_code creat_new, none, none)
    | some d ↦ array_counted memory (lib.bson_count_keys d) (lib.bson_iter d)
  ]

  pub bson_value_get_doc : (given : Bool) → (bytes : List ℕ) → ℤ × Option Doc
  bson_value_get_doc false bytes = (err_code null_params, none)
  bson_value_get_doc true bytes = elim (st.bson_new_from_data bytes) [
    | none ↦ (err_code creat_new, none)
    | some d ↦ (err_code success, some d)
  ]
