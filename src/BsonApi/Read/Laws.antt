-- ===== src/BsonApi/Read/Laws.antt =====
-- bson_read_from_buffer returns every document of the buffer, and where it does not.
use tpt.Common.{
  ℕ, ◌+◌, ◌*◌, ◌^◌, ◌<◌, ◌≡◌, refl, sym, ap, ◌∙◌, dec_lt, Bool, true, false, not, ◌&&◌, Option,
  none, some, List, [], ◌∷◌, ◌++◌, length, length-append, ℤ, pos, negsuc, is_neg, leb, ltb,
  if◌then◌else◌, arith,
}
use mathlib.Core.List.{append-nil, append_assoc}
use tpt.BsonApi.Errors.{err_code, success, reader_tell, reader_read}
use tpt.BsonApi.Read.{
  bson_array_size, read_loop, read_and_alloc_bson_array, get_parsed_len, Answers, Parsed,
  finish_read, bson_read_from_buffer,
}

module _ {A : Type 0} where
  abbrev pub docs_of : List (A × Bool) → List A
  docs_of [] = []
  docs_of ((doc, grown) ∷ rest) = doc ∷ docs_of rest

  abbrev pub all_grown : List (A × Bool) → Bool
  all_grown [] = true
  all_grown ((doc, grown) ∷ rest) = grown && all_grown rest

  -- With memory the loop reads on with room to spare and ends with all documents in the array.
  read_loop-docs_of :
      (found : List (A × Bool)) (docs : List A) (arr_size : ℕ)
      → length docs < arr_size
      → all_grown found ≡ true
      → arr_size < 2 ^ 30
      → 2 * (length docs + length (docs_of found)) < 2 ^ 30
      → (n : ℕ) × (read_loop docs arr_size found ≡ some (docs ++ docs_of found, n))
        × (length (docs ++ docs_of found) < n)
  unfolding read_loop
  read_loop-docs_of [] docs arr_size room all sized small =
      (arr_size, rw (append-nil docs) refl, rw (append-nil docs) room)
  read_loop-docs_of ((doc, false) ∷ rest) docs arr_size room all sized small = absurd (ground arith)
  read_loop-docs_of ((doc, true) ∷ rest) docs arr_size room all sized small =
      let len = length-append docs (doc ∷ []) in
      let joined = append_assoc docs (doc ∷ []) (docs_of rest) in
      let inside : ltb (length docs) arr_size ≡ true = ground arith in
      elim (dec_lt (length (docs ++ doc ∷ [])) arr_size) [
        | yes wide ↦
            let stays : leb arr_size (length (docs ++ doc ∷ [])) ≡ false = ground arith in
            let (n, e, left) =
              read_loop-docs_of rest (docs ++ doc ∷ []) arr_size wide all sized
                (omega (arith, len)) in
            (
              n,
              rw (inside, stays) (e ∙ ap (λ (l : List A). some (l, n)) joined),
              rw (sym joined) left,
            )
        | no full ↦
            let grows : leb arr_size (length (docs ++ doc ∷ [])) ≡ true = ground arith in
            let in_int : ltb (arr_size * 2) (2 ^ 31) ≡ true = ground arith in
            let (n, e, left) =
              read_loop-docs_of rest (docs ++ doc ∷ []) (arr_size * 2) (omega (arith, len)) all
                (omega (arith, len)) (omega (arith, len)) in
            (
              n,
              rw (inside, grows, in_int) (e ∙ ap (λ (l : List A). some (l, n)) joined),
              rw (sym joined) left,
            )
      ]

  -- The result of a read that found `docs`, by whether the buffer ends behind them and where.
  abbrev pub parsed : (eof : Bool) → (tell : ℤ) → (docs : List A) → Parsed A
  parsed eof tell docs = record {
    ret =
        if eof
        then (if is_neg tell then err_code reader_tell else err_code success)
        else err_code reader_read;
    doc_arr = if eof && not (is_neg tell) then some docs else none;
    arr_len = some (length docs);
    parsed_len = if eof then some tell else none;
  }

  finish_read-parsed :
      (reader memory : Bool) (found : List (A × Bool)) (docs : List A) (shrunk : Bool)
      → shrunk ≡ true
      → (eof : Bool) (tell : ℤ)
      → finish_read
          (record {
            reader = reader;
            memory = memory;
            found = found;
            eof = eof;
            tell = tell;
            shrunk = shrunk;
          })
          docs
        ≡ parsed eof tell docs
  unfolding finish_read get_parsed_len
  finish_read-parsed reader memory found docs false e eof tell = absurd (ground arith)
  finish_read-parsed reader memory found docs true e true (pos n) = refl
  finish_read-parsed reader memory found docs true e true (negsuc n) = refl
  finish_read-parsed reader memory found docs true e false tell = refl

-- With no NULL pointer, a reader, and memory, for fewer than 2 ^ 29 documents, bson_read_from_buffer returns. If the
-- buffer ends behind the last document it returns success with all documents in order, their number and
-- the place of the end; if the reader cannot tell that place, or the buffer does not end there, it returns the error of
-- that, and no documents.
pub bson_read_from_buffer-docs_of :
    {A : Type 0} (a : Answers A) (old : Option (List A))
    → a.reader ≡ true
    → a.memory ≡ true
    → a.shrunk ≡ true
    → all_grown a.found ≡ true
    → 2 * length (docs_of a.found) < 2 ^ 30
    → bson_read_from_buffer true a old ≡ some (parsed a.eof a.tell (docs_of a.found))
unfolding bson_read_from_buffer read_and_alloc_bson_array
bson_read_from_buffer-docs_of a old reader memory shrunk all small =
    let (n, e, left) =
      read_loop-docs_of a.found [] bson_array_size (omega arith) all (omega arith)
        (omega (arith, small)) in
    rw (reader, memory, e)
      (ap some (
        finish_read-parsed a.reader a.memory a.found (docs_of a.found) a.shrunk shrunk a.eof
          a.tell))

-- A realloc that fails while the documents are read makes bson_read_from_buffer read an entry of NULL: with the first array,
-- this is when the fourth document has been read.
pub bson_read_from_buffer_faults :
    {A : Type 0} (a : Answers A) (old : Option (List A)) (d0 d1 d2 d3 : A) (g0 g1 g2 : Bool)
    (rest : List (A × Bool))
    → a.reader ≡ true
    → a.memory ≡ true
    → a.found ≡ (d0, g0) ∷ (d1, g1) ∷ (d2, g2) ∷ (d3, false) ∷ rest
    → bson_read_from_buffer true a old ≡ none
unfolding bson_read_from_buffer read_and_alloc_bson_array read_loop
bson_read_from_buffer_faults a old d0 d1 d2 d3 g0 g1 g2 rest reader memory four =
    rw (reader, memory, four) refl
