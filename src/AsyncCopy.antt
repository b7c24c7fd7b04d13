-- ===== src/AsyncCopy.antt =====
-- system/aio/async_read_write.c: a file is read by asynchronous requests into a buffer that grows, and written to a copy
-- at its end. `file` is what the file holds; what the calls answer is an argument. One request stands at a time, so the
-- callbacks run one behind the other; the end of a callback, which only looks at the new request, is put before the next.
mod Holds
mod Laws
mod Tests
use tpt.Common.{
  ℕ, suc, ◌+◌, ◌-◌, ◌*◌, ◌^◌, ◌%◌, Bool, ◌&&◌, Option, none, some, List, [], ◌∷◌, ◌++◌, length,
  take, drop, ℤ, pos, negsuc, minus, is_neg, leb, ltb, ◌==◌, if◌then◌else◌,
}

abbrev pub alloc_size : ℕ
alloc_size = 4096

abbrev pub realloc_threshold : ℕ
realloc_threshold = 128

-- aio_buf counts from the start of the buffer.
pub record Aiocb : Type 0 where
  pub aio_offset : ℕ
  pub aio_buf : ℕ
  pub aio_nbytes : ℕ

-- `buf` is what has been stored in the buffer; the bytes behind it are unset.
pub record ReadInfo : Type 0 where
  pub buf : List ℕ
  pub buf_size : ℕ
  pub buf_len : ℕ
  pub cb : Aiocb

-- A request fails, or stores up to `most` + 1 of the bytes that it is for.
pub data Completed : Type 0 where
  fails : Completed
  reads : (most : ℕ) → Completed

-- What aio_error returns: 0, ECANCELED, EINPROGRESS, or another errno.
pub data AioError : Type 0 where
  success : AioError
  canceled : AioError
  in_progress : AioError
  other : AioError

-- The answers to the next request: whether realloc finds memory, and the results of aio_read and aio_error.
pub record Next : Type 0 where
  pub memory : Bool
  pub aio_read : ℤ
  pub aio_error : AioError

-- The results of open and of write for the copy; write takes as many bytes as it returns, which an `int` holds.
pub record Output : Type 0 where
  pub opened : ℤ
  pub write : ℤ

-- exit(status); the end of the last thread, with what is in the copy, if it has been opened; a request that stands;
-- or a use of NULL or of bytes outside the buffer.
pub data Process : Type 0 where
  exited : (status : ℕ) → Process
  ended : (copy : Option (List ℕ)) → Process
  reading : ReadInfo → Process
  fault : Process

pub data Step : Type 0 where
  stop : Process → Step
  go : ReadInfo → Step

-- How many bytes a request for `nbytes` may store.
unfoldable pub granted : (nbytes most : ℕ) → ℕ
granted nbytes most = if ltb most nbytes then suc most else nbytes

-- The conversion to an `int` of 32 bits.
abbrev pub as_int : ℕ → ℤ
as_int n = let m = n % 2 ^ 32 in if ltb m (2 ^ 31) then pos m else negsuc (2 ^ 32 - 1 - m)

-- The request is carried out: the `int` that takes the result of aio_return, with the buffer behind it; `none` is a store
-- outside of it.
unfoldable pub completion : (file : List ℕ) → Completed → ReadInfo → Option (ℤ × ReadInfo)
completion file fails ri = some (minus 1, ri)
completion file (reads most) ri =
    let bytes = take (granted ri.cb.aio_nbytes most) (drop ri.cb.aio_offset file) in
    if (length ri.buf == ri.cb.aio_buf) && leb (ri.cb.aio_buf + length bytes) ri.buf_size
    then some (as_int (length bytes), record ri { buf = ri.buf ++ bytes })
    else none

-- aio_read with the test of aio_error behind it.
unfoldable pub request : ℤ → AioError → ReadInfo → Step
request ret other ri = stop (exited 1)
request ret e ri = if is_neg ret then stop (exited 1) else go ri

abbrev pub written : ℤ → List ℕ → List ℕ
written (pos n) bytes = take n bytes
written (negsuc n) bytes = []

unfoldable pub at_eof : Output → ReadInfo → Process
at_eof o ri =
    if is_neg o.opened then exited 1 else ended (some (written o.write (take ri.buf_len ri.buf)))

-- The request for what follows, in the buffer as it is then.
unfoldable pub next_request : Next → ReadInfo → Step
next_request a ri = request a.aio_read a.aio_error (record ri {
  cb = record {
    aio_offset = ri.buf_len;
    aio_buf = ri.buf_len;
    aio_nbytes = ri.buf_size - ri.buf_len;
  };
})

-- `ret` is the `int` of aio_return's result. realloc's result is not tested: without memory the address that the next request gets
-- is an offset from NULL. A `long int` that overflows is a fault too.
unfoldable pub read_callback : Output → ℤ → Next → ReadInfo → Step
read_callback o (negsuc n) a ri = stop (ended none)
read_callback o (pos n) a ri =
    let ri' = record ri { buf_len = ri.buf_len + n } in
    if n == 0
    then stop (at_eof o ri)
    else if leb (ri'.buf_size - ri'.buf_len) realloc_threshold
    then (if a.memory && ltb (ri'.buf_size * 2) (2 ^ 63)
        then next_request a (record ri' { buf_size = ri'.buf_size * 2 })
        else stop fault)
    else next_request a ri'

-- The requests that are carried out, each with the answers to the next.
unfoldable pub callbacks : (file : List ℕ) → Output → List (Completed × Next) → ReadInfo → Process
callbacks file o [] ri = reading ri
callbacks file o ((c, a) ∷ rs) ri = elim (completion file c ri) [
  | none ↦ fault
  | some (ret, ri') ↦ elim (read_callback o ret a ri') [
    | stop p ↦ p
    | go ri'' ↦ callbacks file o rs ri''
  ]
]

abbrev pub fresh : ReadInfo
fresh = record {
  buf = [];
  buf_size = alloc_size;
  buf_len = 0;
  cb = record { aio_offset = 0; aio_buf = 0; aio_nbytes = alloc_size };
}

-- `opened` is what open returns for the file. calloc and malloc are taken to find memory, since main does not test it.
unfoldable pub main :
    (opened : ℤ)
    → (aio_read : ℤ) → AioError
    → (file : List ℕ) → Output
    → List (Completed × Next)
    → Process
main opened aio_read e file o rs =
    if is_neg opened
    then exited 1
    else elim (request aio_read e fresh) [ stop p ↦ p | go ri ↦ callbacks file o rs ri ]
