-- ===== src/BsonApi/Docs.antt =====
-- Documents and arrays of elements: bson_doc_create, bson_doc_get_elements, bson_doc_copy_by_iter and
-- bson_fill_element_array of bson_api.c. libbson is a parameter, `Libbson`: the calls that the code makes, and the laws
-- that its documentation gives for them.
pub mod Laws
pub mod Tests
use tpt.Common.{
  ℕ, zero, suc, ◌+◌, ◌≡◌, Bool, true, false, Option, none, some, List, [], ◌∷◌, ◌++◌, length, ℤ,
  is_neg, leb, ltb, ◌==◌, if◌then◌else◌,
}
use tpt.BsonApi.Errors.{err_code, success, null_params, mem_alloc, append_val, iter_init}

-- `elements` is what a document holds. bson_append_value puts an element behind the others, and is `none` if it
-- returns false; bson_iter_init with bson_iter_next visits the elements in order, and is `none` if
-- bson_iter_init returns false.
pub record Libbson (Doc Key Value : Type 0) : Type 0 where
  pub elements : Doc → List (Key × Value)
  pub bson_append_value : Doc → Key → Value → Option Doc
  pub bson_iter : Doc → Option (List (Key × Value))
  pub bson_count_keys : Doc → ℕ
  pub append-elements :
      (d : Doc) (k : Key) (v : Value) (d' : Doc)
      → bson_append_value d k v ≡ some d'
      → elements d' ≡ elements d ++ (k, v) ∷ []
  pub iter-elements : (d : Doc) (es : List (Key × Value)) → bson_iter d ≡ some es → es ≡ elements d
  pub count-elements : (d : Doc) → bson_count_keys d ≡ length (elements d)

-- What `*bdoc` holds: NULL, a document, or one that has been destroyed.
pub data Slot (Doc : Type 0) : Type 0 where
  null_doc : Slot Doc
  held : (d : Doc) → Slot Doc
  destroyed : Slot Doc

-- The end of bson_doc_get_elements, with the `n` entries of the array; `none` is a write behind it.
pub filled :
    {Element : Type 0}
    → (n : ℕ) → Option (List Element)
    → Option (ℤ × Option (List Element) × Option ℕ)
filled n none = none
filled n (some out) = some (err_code success, some out, some n)

module _ {Doc Key Value : Type 0} (lib : Libbson Doc Key Value) where
  -- The appends of a loop, up to the first that fails.
  unfoldable pub append_loop : Doc → List (Key × Value) → Option Doc
  append_loop d [] = some d
  append_loop d ((k, v) ∷ es) = elim (lib.bson_append_value d k v) [
    | none ↦ none
    | some d' ↦ append_loop d' es
  ]

  -- `new` is what bson_new returns, `none` for NULL; its test is on `bdoc`, which is not NULL there, so
  -- an append to NULL may follow, which is the outer `none`. `given` says that neither pointer is NULL.
  pub bson_doc_create :
      (new : Option Doc)
      → (given : Bool) → List (Key × Value)
      → (old : Slot Doc) → Option (ℤ × Slot Doc)
  unfolding append_loop
  bson_doc_create new false es old = some (err_code null_params, old)
  bson_doc_create none true [] old = some (err_code success, null_doc)
  bson_doc_create none true (e ∷ es) old = none
  bson_doc_create (some d) true es old = elim (append_loop d es) [
    | none ↦ some (err_code append_val, destroyed)
    | some d' ↦ some (err_code success, held d')
  ]

  -- bson_doc_copy_by_iter: the result and `dst`, `none` where an append has failed midway.
  unfoldable pub bson_doc_copy_by_iter : (dst src : Doc) → ℤ × Option Doc
  unfolding append_loop
  bson_doc_copy_by_iter dst src = elim (lib.bson_iter src) [
    | none ↦ (err_code iter_init, some dst)
    | some es ↦ elim (append_loop dst es) [
      | none ↦ (err_code append_val, none)
      | some d ↦ (err_code success, some d)
    ]
  ]

  -- The entries that bson_fill_element_array writes; `none` is a write behind the array of `size`.
  unfoldable pub fill_loop : (size count : ℕ) → List (Key × Value) → Option (List (Key × Value))
  fill_loop size count [] = some []
  fill_loop size count (e ∷ es) =
      let rest : Option (List (Key × Value)) = elim (fill_loop size (count + 1) es) [
        | none ↦ none
        | some out ↦ some (e ∷ out)
      ] in
      if ltb count size then rest else none

  -- Behind bson_count_keys, which has returned `n`, with what bson_iter comes to.
  pub get_counted :
      (memory : Bool)
      → (n : ℕ) → Option (List (Key × Value))
      → Option (ℤ × Option (List (Key × Value)) × Option ℕ)
  unfolding fill_loop filled
  get_counted memory zero visited = some (err_code success, none, some 0)
  get_counted false (suc n) visited = some (err_code mem_alloc, none, some (suc n))
  get_counted true (suc n) none = some (err_code iter_init, some [], some (suc n))
  get_counted true (suc n) (some es) = filled (suc n) (fill_loop (suc n) 0 es)

  -- The result, what `*earr` holds if it is written, and `*ecount` if it is. `given` says that no pointer
  -- is NULL; `none` is a write behind the array.
  pub bson_doc_get_elements :
      (memory given : Bool) → Doc → Option (ℤ × Option (List (Key × Value)) × Option ℕ)
  unfolding get_counted
  bson_doc_get_elements memory false d = some (err_code null_params, none, none)
  bson_doc_get_elements memory true d = get_counted memory (lib.bson_count_keys d) (lib.bson_iter d)
