-- ===== src/AsyncCopy/Laws.antt =====
-- A file that is read and copied, by as many requests as it takes.
use tpt.Common.{
  if◌then◌else◌, ℕ, suc, ◌^◌, Bool, true, false, not, ◌&&◌, some, List, [], ◌∷◌, is_neg, ltb,
}
use tpt.AsyncCopy.{Completed, fails, reads, Next, Output, Process, exited, ended, written}
use tpt.AsyncCopy.Holds.{goes_on, Holds}

-- A request that is carried out and stores fewer than 2^31 bytes, and answers with which the next is made.
abbrev pub serves : Completed × Next → Bool
serves (fails, a) = false
serves (reads most, a) =
    ltb (suc most) (2 ^ 31) && (a.memory && (not (is_neg a.aio_read) && goes_on a.aio_error))

abbrev pub all_serve : List (Completed × Next) → Bool
all_serve [] = true
all_serve (r ∷ rs) = serves r && all_serve rs

-- The end of the process when the whole file is in the buffer.
abbrev pub copied : Output → (file : List ℕ) → Process
copied o file = if is_neg o.opened then exited 1 else ended (some (written o.write file))
