-- ===== src/BsonApi/Values/Written.antt =====
-- What bson_write_to_buffer puts into the buffer for one document.
use tpt.Common.{
  ℕ, ◌≡◌, refl, sym, ap, ◌∙◌, inl, inr, Bool, true, false, Option, none, some, List, [], ◌∷◌, ◌++◌,
  ℤ, is_neg, if◌then◌else◌, arith, Bool-cases,
}
use mathlib.Core.List.{append-nil}
use tpt.BsonApi.Errors.{err_code, success, mem_alloc, append_val, iter_init, writer_begin}
use tpt.BsonApi.Docs.{Libbson, append_loop, bson_doc_copy_by_iter}
use tpt.BsonApi.Docs.Laws.{append_loop-elements}
use tpt.BsonApi.Values.{
  Storage, Stored, stored_as, write_step, bson_buffer_write, all_data, shrink, bson_write_to_buffer,
}

module _ {Doc Key Value : Type 0} (lib : Libbson Doc Key Value) (st : Storage lib) where
  -- A copy that reports no error has the elements of its source behind those of its destination.
  copied-elements :
      (dst src d : Doc) (ret : ℤ)
      → bson_doc_copy_by_iter lib dst src ≡ (ret, some d)
      → is_neg ret ≡ false
      → lib.elements d ≡ lib.elements dst ++ lib.elements src
  unfolding bson_doc_copy_by_iter
  copied-elements dst src d ret e good = by_iter (lib.bson_iter src) refl e
    where
      by_loop :
          (es : List (Key × Value)) (o : Option Doc)
          → append_loop lib dst es ≡ o
          → (elim o as (λ _. ℤ × Option Doc) [
            | none ↦ (err_code append_val, none)
            | some d' ↦ (err_code success, some d')
          ])
            ≡ (ret, some d)
          → lib.elements d ≡ lib.elements dst ++ es
      by_loop es none run made = absurd (ground arith)
      by_loop es (some d1) run made =
          let same : d1 ≡ d = cc in
          ap lib.elements (sym same) ∙ append_loop-elements lib es dst d1 run

      by_iter :
          (o : Option (List (Key × Value)))
          → lib.bson_iter src ≡ o
          → (elim o as (λ _. ℤ × Option Doc) [
            | none ↦ (err_code iter_init, some dst)
            | some es ↦ elim (append_loop lib dst es) as (λ _. ℤ × Option Doc) [
              | none ↦ (err_code append_val, none)
              | some d' ↦ (err_code success, some d')
            ]
          ])
            ≡ (ret, some d)
          → lib.elements d ≡ lib.elements dst ++ lib.elements src
      by_iter none visited made = absurd (ground arith)
      by_iter (some es) visited made =
          by_loop es (append_loop lib dst es) refl made
          ∙ ap (λ (l : List (Key × Value)). lib.elements dst ++ l)
              (lib.iter-elements src es visited)

  -- One document in the buffer.
  abbrev pub IsWritten : Doc → List ℕ → Type 0
  IsWritten d bytes = (d' : Doc) × (bytes ≡ st.data_of d') × (lib.elements d' ≡ lib.elements d)

  -- A copy without a document reports an error.
  copied-none :
      (dst src : Doc) (ret : ℤ)
      → bson_doc_copy_by_iter lib dst src ≡ (ret, none)
      → is_neg ret ≡ true
  unfolding bson_doc_copy_by_iter
  copied-none dst src ret e = by_iter (lib.bson_iter src) e
    where
      by_loop :
          (o : Option Doc)
          → (elim o as (λ _. ℤ × Option Doc) [
            | none ↦ (err_code append_val, none)
            | some d' ↦ (err_code success, some d')
          ])
            ≡ (ret, none)
          → is_neg ret ≡ true
      by_loop none made = ground arith
      by_loop (some d1) made = absurd (ground arith)

      by_iter :
          (o : Option (List (Key × Value)))
          → (elim o as (λ _. ℤ × Option Doc) [
            | none ↦ (err_code iter_init, some dst)
            | some es ↦ elim (append_loop lib dst es) as (λ _. ℤ × Option Doc) [
              | none ↦ (err_code append_val, none)
              | some d' ↦ (err_code success, some d')
            ]
          ])
            ≡ (ret, none)
          → is_neg ret ≡ true
      by_iter none made = absurd (ground arith)
      by_iter (some es) made = by_loop (append_loop lib dst es) made

  shrink-failed :
      (memory : Bool) (r : ℤ) (ds : List Doc)
      → is_neg r ≡ true
      → shrink lib st memory (r, ds) ≡ (r, none)
  unfolding shrink
  shrink-failed memory r ds bad = rw (shrink, bad) refl

  no_bytes :
      (r ret : ℤ) (bytes : List ℕ) → ◌≡◌ {A = ℤ × Option (List ℕ)} (r, none) (ret, some bytes) → ⊥
  no_bytes r ret bytes e = ground arith

  the_bytes :
      (r ret : ℤ) (bytes out : List ℕ)
      → ◌≡◌ {A = ℤ × Option (List ℕ)} (r, some out) (ret, some bytes)
      → bytes ≡ out
  the_bytes r ret bytes out e = cc

  one_written :
      (d : Doc) (memory : Bool) (ret : ℤ) (bytes : List ℕ)
      → shrink lib st memory (err_code success, d ∷ []) ≡ (ret, some bytes)
      → bytes ≡ st.data_of d
  unfolding shrink all_data
  one_written d false ret bytes h = absurd (no_bytes (err_code mem_alloc) ret bytes h)
  one_written d true ret bytes h =
      the_bytes (err_code success) ret bytes (st.data_of d ++ []) h ∙ append-nil (st.data_of d)

  written :
      (d : Doc) (begun memory : Bool) (copy : ℤ × Option Doc) (ret : ℤ) (bytes : List ℕ)
      → bson_doc_copy_by_iter lib st.fresh d ≡ copy
      → shrink lib st memory (write_step lib st begun copy (err_code success, []))
        ≡ (ret, some bytes)
      → IsWritten d bytes
  unfolding write_step
  written d false memory copy ret bytes run e =
      absurd (no_bytes _ ret bytes (sym (shrink-failed memory (err_code writer_begin) [] refl) ∙ e))
  written d true memory (r, none) ret bytes run e =
      absurd
        (no_bytes r ret bytes (sym (shrink-failed memory r [] (copied-none st.fresh d r run)) ∙ e))
  written d true memory (r, some d') ret bytes run e = elim (Bool-cases (is_neg r)) [
    | inl bad ↦ absurd (no_bytes r ret bytes (sym (failing bad) ∙ e))
    | inr good ↦ (
      d',
      one_written d' memory ret bytes (sym (ap (shrink lib st memory) (passing good)) ∙ e),
      copied-elements st.fresh d d' r run good
          ∙ ap (λ (l : List (Key × Value)). l ++ lib.elements d) st.fresh-elements,
    )
  ]
    where
      failing :
          is_neg r ≡ true
          → shrink lib st memory (write_step lib st true (r, some d') (err_code success, []))
            ≡ (r, none)
      failing bad =
          ap (shrink lib st memory) (rw (write_step, bad) refl) ∙ shrink-failed memory r [] bad

      passing :
          is_neg r ≡ false
          → write_step lib st true (r, some d') (err_code success, []) ≡ (err_code success, d' ∷ [])
      passing good = rw (write_step, good) refl

  pub buffer-IsWritten :
      (writer : Bool) (begin : ℕ → Bool) (memory : Bool) (d : Doc) (ret : ℤ) (bytes : List ℕ)
      → bson_write_to_buffer lib st true writer begin memory (d ∷ []) ≡ (ret, some bytes)
      → IsWritten d bytes
  unfolding bson_write_to_buffer bson_buffer_write
  buffer-IsWritten false begin memory d ret bytes e = absurd (no_bytes _ ret bytes e)
  buffer-IsWritten true begin memory d ret bytes e =
      written d (begin 0) memory (bson_doc_copy_by_iter lib st.fresh d) ret bytes refl e

  pub stored_as-bytes :
      (kind : List ℕ → Stored) (x : ℤ × Option (List ℕ)) (ret : ℤ) (v : Stored)
      → stored_as kind x ≡ (ret, some v)
      → (bytes : List ℕ) × (x ≡ (x.0, some bytes)) × (kind bytes ≡ v)
  unfolding stored_as
  stored_as-bytes kind (r, none) ret v e = absurd (nothing e)
    where
      nothing : ◌≡◌ {A = ℤ × Option Stored} (r, none) (ret, some v) → ⊥
      nothing h = ground arith
  stored_as-bytes kind (r, some bytes) ret v e = (bytes, refl, by_sign (is_neg r) e)
    where
      by_sign :
          (b : Bool)
          → ◌≡◌ {A = ℤ × Option Stored}
              (if b then (r, none) else (r, some (kind bytes)))
              (ret, some v)
          → kind bytes ≡ v
      by_sign true h = absurd (ground arith)
      by_sign false h = cc
