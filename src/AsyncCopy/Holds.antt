-- ===== src/AsyncCopy/Holds.antt =====
-- What the buffer holds between two requests, and that a request and its callback keep it so.
use tpt.Common.{
  ℕ, zero, suc, ◌+◌, ◌-◌, ◌*◌, ◌^◌, ◌%◌, ◌≤◌, ◌<◌, ◌≡◌, refl, sym, ap, ◌∙◌, Bool, true, false, not,
  ◌&&◌, some, List, [], ◌∷◌, ◌++◌, length, take, drop, length-append, ℤ, pos, negsuc, is_neg, leb,
  ltb, arith,
}
use tpt.Common.{◌==◌, inl, inr, Bool-cases, leb→le, lt→ltb}
use tpt.AsyncCopy.{
  alloc_size, realloc_threshold, ReadInfo, reads, AioError, success, canceled, in_progress, other,
  Next, Output, go, granted, completion, as_int, request, next_request, read_callback,
}

-- The errno is not one for which the process exits.
abbrev pub goes_on : AioError → Bool
goes_on other = false
goes_on _ = true

-- The buffer holds the file up to `rest`, has room for more than the threshold, and the request is for what follows.
pub record Holds (file rest : List ℕ) (ri : ReadInfo) : Type 0 where
  pub whole : ri.buf ++ rest ≡ file
  pub len : ri.buf_len ≡ length ri.buf
  pub room : ri.buf_len + realloc_threshold < ri.buf_size
  pub wide : alloc_size ≤ ri.buf_size
  pub offset : ri.cb.aio_offset ≡ ri.buf_len
  pub at : ri.cb.aio_buf ≡ ri.buf_len
  pub nbytes : ri.cb.aio_nbytes ≡ ri.buf_size - ri.buf_len

drop-append : (xs ys : List ℕ) → drop (length xs) (xs ++ ys) ≡ ys
drop-append [] ys = refl
drop-append (x ∷ xs) ys = drop-append xs ys

pub length-take-le : (n : ℕ) (xs : List ℕ) → length (take n xs) ≤ n
length-take-le zero xs = omega arith
length-take-le (suc n) [] = omega arith
length-take-le (suc n) (x ∷ xs) = omega (arith, length-take-le n xs)

pub granted-within :
    (nbytes most : ℕ) → 0 < nbytes → (0 < granted nbytes most) × (granted nbytes most ≤ nbytes)
unfolding granted
granted-within nbytes most h = ground arith

pub request-go :
    (ret : ℤ) (e : AioError) (ri : ReadInfo)
    → (not (is_neg ret) && goes_on e) ≡ true
    → request ret e ri ≡ go ri
unfolding request
request-go (pos n) success ri h = refl
request-go (pos n) canceled ri h = refl
request-go (pos n) in_progress ri h = refl
request-go (pos n) other ri h = absurd (ground arith)
request-go (negsuc n) e ri h = absurd (ground arith)

le→leb : (m n : ℕ) → m ≤ n → leb m n ≡ true
le→leb m n h = ground arith

==_refl_of : (m n : ℕ) → m ≡ n → (m == n) ≡ true
==_refl_of m n h = ground arith

-- What a request stores when `rest` of the file is left.
abbrev pub stored : (most : ℕ) → (rest : List ℕ) → ReadInfo → List ℕ
stored most rest ri = take (granted ri.cb.aio_nbytes most) rest

granted-le : (nbytes most : ℕ) → granted nbytes most ≤ suc most
unfolding granted
granted-le nbytes most = ground arith

as_int-small : (n : ℕ) → n < 2 ^ 31 → as_int n ≡ pos n
as_int-small n small =
    let same : n % 2 ^ 32 ≡ n = omega arith in
    let positive : ltb n (2 ^ 31) ≡ true = lt→ltb _ _ small in rw (same, positive) refl

pub completion-stored :
    (file rest : List ℕ) (most : ℕ) (ri : ReadInfo)
    → Holds file rest ri
    → suc most < 2 ^ 31
    → completion file (reads most) ri
      ≡ some (pos (length (stored most rest ri)), record ri { buf = ri.buf ++ stored most rest ri })
unfolding completion
completion-stored file rest most ri h int =
    let whole = as_int-small (length (stored most rest ri)) (
      omega (
        arith,
        granted-le ri.cb.aio_nbytes most,
        length-take-le (granted ri.cb.aio_nbytes most) rest,
        int,
      )) in
    let left : drop ri.cb.aio_offset file ≡ rest =
      rw (h.offset, h.len, sym h.whole) (drop-append ri.buf rest) in
    let at : (length ri.buf == ri.cb.aio_buf) ≡ true = ==_refl_of _ _ (sym (h.at ∙ h.len)) in
    let few = length-take-le (granted ri.cb.aio_nbytes most) rest in
    let within = granted-within ri.cb.aio_nbytes most (omega (arith, h.nbytes, h.room)) in
    let fits : leb (ri.cb.aio_buf + length (stored most rest ri)) ri.buf_size ≡ true =
      le→leb _ _ (omega (arith, h.nbytes, h.room, h.at, few, within.1)) in
    rw (left, at, fits, whole) refl

next_request-Holds :
    (a : Next) (file rest : List ℕ) (ri : ReadInfo)
    → ri.buf ++ rest ≡ file
    → ri.buf_len ≡ length ri.buf
    → ri.buf_len + realloc_threshold < ri.buf_size
    → alloc_size ≤ ri.buf_size
    → (not (is_neg a.aio_read) && goes_on a.aio_error) ≡ true
    → (ri' : ReadInfo) × (next_request a ri ≡ go ri') × Holds file rest ri'
unfolding next_request
next_request-Holds a file rest ri whole len room wide served = (
  _,
  request-go a.aio_read a.aio_error _ served,
  record {
    whole = whole;
    len = len;
    room = room;
    wide = wide;
    offset = refl;
    at = refl;
    nbytes = refl;
  },
)

leb-false : (m n : ℕ) → leb m n ≡ false → n < m
leb-false m n h = ground arith

-- The buffer behind the bytes that have come in, with the next request.
pub read_callback-Holds :
    (o : Output) (a : Next) (file rest bytes : List ℕ) (ri : ReadInfo)
    → (ri.buf ++ bytes) ++ rest ≡ file
    → ri.buf_len ≡ length ri.buf
    → 0 < length bytes
    → ri.buf_len + length bytes ≤ ri.buf_size
    → alloc_size ≤ ri.buf_size
    → 2 * (length file + realloc_threshold) < 2 ^ 63
    → a.memory ≡ true
    → (not (is_neg a.aio_read) && goes_on a.aio_error) ≡ true
    → (ri' : ReadInfo) × (read_callback o
          (pos (length bytes))
          a
          (record ri { buf = ri.buf ++ bytes })
        ≡ go ri')
      × Holds file rest ri'
unfolding read_callback next_request
read_callback-Holds o a file rest bytes ri whole len some_bytes fits wide small memory served =
    let grown = length-append ri.buf bytes in
    let all = ap length (sym whole) ∙ length-append (ri.buf ++ bytes) rest in
    let more : (length bytes == 0) ≡ false = ground arith in
    let size = ri.buf_len + length bytes in
    elim (Bool-cases (leb (ri.buf_size - size) realloc_threshold)) [
      | inl full ↦
          let below = leb→le _ _ full in
          let holds : ltb (ri.buf_size * 2) (2 ^ 63) ≡ true =
            lt→ltb _ _ (omega (arith, below, grown, all, len, small, wide)) in
          rw (more, full, memory, holds)
            (next_request-Holds a file rest
              (record {
                buf = ri.buf ++ bytes;
                buf_size = ri.buf_size * 2;
                buf_len = size;
                cb = ri.cb;
              })
              whole (omega (arith, grown, len)) (omega arith) (omega arith) served)
      | inr room ↦
          let above = leb-false _ _ room in
          rw (more, room)
            (next_request-Holds a file rest
              (record { buf = ri.buf ++ bytes; buf_size = ri.buf_size; buf_len = size; cb = ri.cb })
              whole (omega (arith, grown, len)) (omega (arith, above)) wide served)
    ]
