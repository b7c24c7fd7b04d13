-- ===== src/BsonApi/Docs/Laws.antt =====
-- A document gives back the elements that it was made from, and a copy has those of its source.
use tpt.Common.{
  ℕ, suc, ◌+◌, ◌≤◌, ◌≡◌, refl, sym, ap, subst, ◌∙◌, inl, inr, true, false, Option, none, some, List,
  [], ◌∷◌, ◌++◌, length, ltb, ◌==◌, ℤ, if◌then◌else◌, arith, Option-cases,
}
use mathlib.Core.List.{append-nil, append_assoc}
use tpt.BsonApi.Errors.{err_code, success, append_val, iter_init}
use tpt.BsonApi.Docs.{
  Libbson, Slot, held, destroyed, append_loop, filled, get_counted, bson_doc_create,
  bson_doc_copy_by_iter, fill_loop, bson_doc_get_elements,
}

module _ {Doc Key Value : Type 0} (lib : Libbson Doc Key Value) where
  pub append_loop-elements :
      (es : List (Key × Value)) (d d' : Doc)
      → append_loop lib d es ≡ some d'
      → lib.elements d' ≡ lib.elements d ++ es
  unfolding append_loop
  append_loop-elements [] d d' e =
      let same : d ≡ d' = cc in ap lib.elements (sym same) ∙ sym (append-nil (lib.elements d))
  append_loop-elements ((k, v) ∷ es) d d' e = elim (Option-cases (lib.bson_append_value d k v)) [
    | inl (d1, step) ↦
        append_loop-elements es d1 d' (after step)
        ∙ ap (λ (l : List (Key × Value)). l ++ es) (lib.append-elements d k v d1 step)
        ∙ append_assoc (lib.elements d) ((k, v) ∷ []) es
    | inr failed ↦ absurd (none_left (after failed))
  ]
    where
      after :
          {o : Option Doc}
          → lib.bson_append_value d k v ≡ o
          → (elim o as (λ _. Option Doc) [ none ↦ none | some d1 ↦ append_loop lib d1 es ])
            ≡ some d'
      after s =
          subst
            (λ (o : Option Doc).
              (elim o as (λ _. Option Doc) [ none ↦ none | some d1 ↦ append_loop lib d1 es ])
              ≡ some d')
            s e

      none_left : ◌≡◌ {A = Option Doc} none (some d') → ⊥
      none_left h = cc

  pub fill_loop-all :
      (es : List (Key × Value)) (size count : ℕ)
      → count + length es ≤ size
      → fill_loop lib size count es ≡ some es
  unfolding fill_loop
  fill_loop-all [] size count fits = refl
  fill_loop-all (e ∷ es) size count fits =
      let inside : ltb count size ≡ true = ground arith in
      rw (inside, fill_loop-all es size (count + 1) (omega arith)) refl

  created-elements :
      (d0 d : Doc) (es : List (Key × Value)) (old : Slot Doc)
      → bson_doc_create lib (some d0) true es old ≡ some (err_code success, held d)
      → lib.elements d ≡ lib.elements d0 ++ es
  unfolding bson_doc_create
  created-elements d0 d es old e = by_loop (append_loop lib d0 es) refl e
    where
      by_loop :
          (o : Option Doc)
          → append_loop lib d0 es ≡ o
          → (elim o as (λ _. Option (ℤ × Slot Doc)) [
            | none ↦ some (err_code append_val, destroyed)
            | some d' ↦ some (err_code success, held d')
          ])
            ≡ some (err_code success, held d)
          → lib.elements d ≡ lib.elements d0 ++ es
      by_loop none run made = absurd (ground arith)
      by_loop (some d1) run made =
          let same : d1 ≡ d = cc in ap lib.elements (sym same) ∙ append_loop-elements es d0 d1 run

  get_counted-all :
      (es : List (Key × Value))
      → get_counted lib true (length es) (some es)
        ≡ some (err_code success, if length es == 0 then none else some es, some (length es))
  unfolding get_counted filled
  get_counted-all [] = refl
  get_counted-all (e ∷ es) =
      ap (filled (length (e ∷ es))) (fill_loop-all (e ∷ es) (length (e ∷ es)) 0 (omega arith))
      ∙ rw (suc_ne (length es)) refl
    where
      suc_ne : (n : ℕ) → (suc n == 0) ≡ false
      suc_ne n = ground arith

  -- Round trip: a document that bson_doc_create has made in an empty document, and that can be iterated, gives back
  -- the elements that it was made from with their number, and all writes fall into the array. For no elements no array is returned.
  pub bson_doc_get_elements-bson_doc_create :
      (d0 d : Doc) (es its : List (Key × Value)) (old : Slot Doc)
      → lib.elements d0 ≡ []
      → bson_doc_create lib (some d0) true es old ≡ some (err_code success, held d)
      → lib.bson_iter d ≡ some its
      → bson_doc_get_elements lib true true d
        ≡ some (err_code success, if length es == 0 then none else some es, some (length es))
  unfolding bson_doc_get_elements
  bson_doc_get_elements-bson_doc_create d0 d es its old empty made visited =
      let content : lib.elements d ≡ es =
        created-elements d0 d es old made ∙ ap (λ (l : List (Key × Value)). l ++ es) empty in
      let count : lib.bson_count_keys d ≡ length es = lib.count-elements d ∙ ap length content in
      ap (λ (n : ℕ). get_counted lib true n (lib.bson_iter d)) count
      ∙ ap (get_counted lib true (length es))
          (visited ∙ ap some (lib.iter-elements d its visited ∙ content))
      ∙ get_counted-all es

  -- When bson_doc_copy_by_iter succeeds, the elements of its source stand behind those of its destination.
  pub bson_doc_copy_by_iter-elements :
      (dst src d : Doc)
      → bson_doc_copy_by_iter lib dst src ≡ (err_code success, some d)
      → lib.elements d ≡ lib.elements dst ++ lib.elements src
  unfolding bson_doc_copy_by_iter
  bson_doc_copy_by_iter-elements dst src d e = by_iter (lib.bson_iter src) refl e
    where
      by_loop :
          (es : List (Key × Value)) (o : Option Doc)
          → append_loop lib dst es ≡ o
          → (elim o as (λ _. ℤ × Option Doc) [
            | none ↦ (err_code append_val, none)
            | some d' ↦ (err_code success, some d')
          ])
            ≡ (err_code success, some d)
          → lib.elements d ≡ lib.elements dst ++ es
      by_loop es none run made = absurd (ground arith)
      by_loop es (some d1) run made =
          let same : d1 ≡ d = cc in ap lib.elements (sym same) ∙ append_loop-elements es dst d1 run

      by_iter :
          (o : Option (List (Key × Value)))
          → lib.bson_iter src ≡ o
          → (elim o as (λ _. ℤ × Option Doc) [
            | none ↦ (err_code iter_init, some dst)
            | some es ↦ elim (append_loop lib dst es) as (λ _. ℤ × Option Doc) [
              | none ↦ (err_code append_val, none)
              | some d' ↦ (err_code success, some d')
            ]
          ])
            ≡ (err_code success, some d)
          → lib.elements d ≡ lib.elements dst ++ lib.elements src
      by_iter none visited made = absurd (ground arith)
      by_iter (some es) visited made =
          by_loop es (append_loop lib dst es) refl made
          ∙ ap (λ (l : List (Key × Value)). lib.elements dst ++ l)
              (lib.iter-elements src es visited)
