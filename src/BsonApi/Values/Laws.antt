-- ===== src/BsonApi/Values/Laws.antt =====
-- An array or a document that a value is set to comes back from it.
use tpt.Common.{
  ℕ, suc, ◌+◌, ◌≡◌, refl, sym, ap, ◌∙◌, Bool, true, false, Option, none, some, List, [], ◌∷◌, ◌++◌,
  map, length, ℤ, ◌==◌, if◌then◌else◌, arith,
}
use tpt.BsonApi.Errors.{err_code, success, append_val}
use tpt.BsonApi.Docs.{Libbson, append_loop}
use tpt.BsonApi.Docs.Laws.{append_loop-elements, fill_loop-all}
use tpt.BsonApi.Values.{
  Storage, Stored, array, document, stored_as, bson_write_to_buffer, bson_value_set_doc, keyed,
  bson_value_set_array, values, array_counted, bson_value_get_array, bson_value_get_doc,
}
use tpt.BsonApi.Values.Written.{buffer-IsWritten, stored_as-bytes}

module _ {Doc Key Value : Type 0} (lib : Libbson Doc Key Value) (st : Storage lib) where
  document-injective : (a b : List ℕ) → document a ≡ document b → a ≡ b
  document-injective a b e = cc

  array-injective : (a b : List ℕ) → array a ≡ array b → a ≡ b
  array-injective a b e = cc

  -- Round trip of a document: a value that bson_value_set_doc has set to a document, whatever succeeded or failed on the
  -- way, gives one with the same elements back, once bson_new_from_data can read the bytes.
  pub bson_value_get_doc-bson_value_set_doc :
      (writer : Bool) (begin : ℕ → Bool) (memory : Bool) (d d' : Doc) (ret : ℤ) (bytes : List ℕ)
      → bson_value_set_doc lib st true writer begin memory d ≡ (ret, some (document bytes))
      → st.bson_new_from_data bytes ≡ some d'
      → (bson_value_get_doc lib st true bytes ≡ (err_code success, some d'))
        × (lib.elements d' ≡ lib.elements d)
  unfolding bson_value_set_doc bson_value_get_doc
  bson_value_get_doc-bson_value_set_doc writer begin memory d d' ret bytes set read =
      let x = bson_write_to_buffer lib st true writer begin memory (d ∷ []) in
      let (out, came, same) = stored_as-bytes lib st document x ret (document bytes) set in
      let (d1, stands, kept) = buffer-IsWritten lib st writer begin memory d x.0 out came in
      let here : bytes ≡ st.data_of d1 = sym (document-injective out bytes same) ∙ stands in
      (
        rw (bson_value_get_doc, read) refl,
        st.from_data-elements d1 d' (sym (ap st.bson_new_from_data here) ∙ read) ∙ kept,
      )

  keyed-values : (i : ℕ) (vs : List Value) → map (λ (e : Key × Value). e.1) (keyed lib st i vs) ≡ vs
  unfolding keyed
  keyed-values i [] = refl
  keyed-values i (v ∷ vs) = ap (λ (l : List Value). v ∷ l) (keyed-values (i + 1) vs)

  keyed-length : (i : ℕ) (vs : List Value) → length (keyed lib st i vs) ≡ length vs
  unfolding keyed
  keyed-length i [] = refl
  keyed-length i (v ∷ vs) = ap suc (keyed-length (i + 1) vs)

  -- What bson_value_get_array returns for these values.
  abbrev pub array_of : List Value → Option (ℤ × Option (List Value) × Option ℕ)
  array_of vs = some (err_code success, if length vs == 0 then none else some vs, some (length vs))

  length-map : (es : List (Key × Value)) → length (map (λ (e : Key × Value). e.1) es) ≡ length es
  length-map [] = refl
  length-map (e ∷ es) = ap suc (length-map es)

  array_counted-all :
      (es : List (Key × Value))
      → array_counted lib st true (length es) (some es)
        ≡ array_of (map (λ (e : Key × Value). e.1) es)
  unfolding array_counted values
  array_counted-all [] = refl
  array_counted-all (e ∷ es) =
      let n = length es in
      let vs : List Value = map (λ (x : Key × Value). x.1) es in
      ap (values lib st (suc n)) (fill_loop-all lib (e ∷ es) (suc n) 0 (omega arith))
      ∙ ap (λ (k : ℕ). some (err_code success, some (e.1 ∷ vs), some (suc k))) (sym (length-map es))
      ∙ rw (suc_ne (length vs)) refl
    where
      suc_ne : (n : ℕ) → (suc n == 0) ≡ false
      suc_ne n = ground arith

  -- Round trip of an array: a value that bson_value_set_array has set gives the values back, in order and with their
  -- number, and every write falls into the array, once bson_new_from_data can read the bytes, its document can be
  -- iterated and malloc finds memory. For no values no array is returned.
  pub bson_value_get_array-bson_value_set_array :
      (writer : Bool) (begin : ℕ → Bool) (memory : Bool) (vs : List Value) (d' : Doc) (ret : ℤ)
      (bytes : List ℕ) (its : List (Key × Value))
      → bson_value_set_array lib st true true writer begin memory vs ≡ (ret, some (array bytes))
      → st.bson_new_from_data bytes ≡ some d'
      → lib.bson_iter d' ≡ some its
      → bson_value_get_array lib st true true bytes ≡ array_of vs
  unfolding bson_value_set_array bson_value_get_array
  bson_value_get_array-bson_value_set_array writer begin memory vs d' ret bytes its set read
        visited =
      by_loop (append_loop lib st.fresh (keyed lib st 0 vs)) refl set
    where
      counted :
          lib.elements d' ≡ keyed lib st 0 vs
          → bson_value_get_array lib st true true bytes ≡ array_of vs
      counted all =
          let count : lib.bson_count_keys d' ≡ length (keyed lib st 0 vs) =
            lib.count-elements d' ∙ ap length all in
          let found : lib.bson_iter d' ≡ some (keyed lib st 0 vs) =
            visited ∙ ap some (lib.iter-elements d' its visited ∙ all) in
          rw (bson_value_get_array, read)
            ((λ i. array_counted lib st true (count i) (found i))
              ∙ array_counted-all (keyed lib st 0 vs)
              ∙ ap array_of (keyed-values 0 vs))

      by_loop :
          (o : Option Doc)
          → append_loop lib st.fresh (keyed lib st 0 vs) ≡ o
          → (elim o as (λ _. ℤ × Option Stored) [
            | none ↦ (err_code append_val, none)
            | some d ↦
                stored_as array (bson_write_to_buffer lib st true writer begin memory (d ∷ []))
          ])
            ≡ (ret, some (array bytes))
          → bson_value_get_array lib st true true bytes ≡ array_of vs
      by_loop none run made = absurd (ground arith)
      by_loop (some d) run made =
          let x = bson_write_to_buffer lib st true writer begin memory (d ∷ []) in
          let (out, came, same) = stored_as-bytes lib st array x ret (array bytes) made in
          let (d1, stands, kept) = buffer-IsWritten lib st writer begin memory d x.0 out came in
          let here : bytes ≡ st.data_of d1 = sym (array-injective out bytes same) ∙ stands in
          counted (
            st.from_data-elements d1 d' (sym (ap st.bson_new_from_data here) ∙ read)
            ∙ kept
            ∙ append_loop-elements lib (keyed lib st 0 vs) st.fresh d run
            ∙ ap (λ (l : List (Key × Value)). l ++ keyed lib st 0 vs) st.fresh-elements)
