-- ===== src/AsyncCopy/Tests.antt =====
-- A file of three bytes that comes in one by one, and a copy that write cuts short.
use tpt.Common.{◌≡◌, refl, true, List, [], ◌∷◌, none, pos}
use tpt.AsyncCopy.{
  Completed, fails, reads, Next, Output, success, in_progress, other, ended, exited, main,
  read_callback, request, completion, granted, next_request, callbacks,
}

abbrev next : Next
next = record { memory = true; aio_read = pos 0; aio_error = in_progress }

abbrev one_by_one : List (Completed × Next)
one_by_one = (reads 0, next) ∷ (reads 0, next) ∷ (reads 0, next) ∷ (reads 0, next) ∷ []

abbrev short_write : Output
short_write = record { opened = pos 4; write = pos 2 }

-- A read that fails ends the process without a copy.
no_copy :
    main (pos 3) (pos 0) success (7 ∷ []) short_write ((reads 0, next) ∷ (fails, next) ∷ [])
    ≡ ended none
unfolding main request callbacks completion granted read_callback next_request
no_copy = refl

-- aio_error with another errno ends it with status 1.
refused : main (pos 3) (pos 0) other (7 ∷ []) short_write one_by_one ≡ exited 1
unfolding main request
refused = refl
