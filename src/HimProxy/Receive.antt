-- ===== src/HimProxy/Receive.antt =====
-- recv_client_data of core.c: it reads what has come in on a client's socket into a buffer that grows.
-- What recv, malloc and realloc answer is an argument, with the bytes that recv stores.
mod Laws
mod Tests
use tpt.Common.{
  ℕ, zero, suc, ◌&&◌, ◌+◌, ◌-◌, ◌*◌, ◌^◌, Bool, true, false, Option, none, some, List, [], ◌∷◌,
  ◌++◌, length, take, ℤ, pos, minus, leb, ltb, ◌==◌, if◌then◌else◌,
}
use tpt.HimProxy.{Run, done, running, fault}

abbrev pub alloc_size : ℕ
alloc_size = 8192

abbrev pub realloc_threshold : ℕ
realloc_threshold = 128

-- The fields of struct client_info for the buffer. `cbuf` is `none` for NULL, and else the bytes that have
-- been stored and how many the block has room for.
pub record ClientInfo : Type 0 where
  pub cbuf : Option (List ℕ × ℕ)
  pub cbuf_size : ℕ  -- int
  pub cbuf_len : ℕ  -- int

-- recv() fails with EINTR, with EAGAIN, or with another errno; it returns 0; or it stores bytes, and
-- `grown` is whether a realloc behind it succeeds.
pub data Recv : Type 0 where
  interrupted : Recv
  again : Recv
  broken : Recv
  closed : Recv
  got : (bytes : List ℕ) → (grown : Bool) → Recv

-- The block with the bytes stored from its place `at` on; `none` is a write to NULL or behind the
-- block, and one that leaves a gap behind the bytes that have been stored.
pub stored : Option (List ℕ × ℕ) → (at : ℕ) → List ℕ → Option (List ℕ × ℕ)
stored none at bytes = none
stored (some (content, room)) at bytes =
    if leb at (length content) && leb (at + length bytes) room
    then some (take at content ++ bytes, room)
    else none

-- realloc: NULL, or a block with the bytes.
abbrev reallocated : (grown : Bool) → (List ℕ × ℕ) → (size : ℕ) → Option (List ℕ × ℕ)
reallocated false block size = none
reallocated true (content, room) size = some (content, size)

-- The growth of the block once `len` bytes are in it; `none` is also an `int` that overflows.
pub grow_if_full : (grown : Bool) → (len size : ℕ) → Option (List ℕ × ℕ) → Option ClientInfo
grow_if_full grown len size none = none
grow_if_full grown len size (some block) =
    if leb (size - len) realloc_threshold
    then (if ltb (size * 2) (2 ^ 31)
        then some (record {
          cbuf = reallocated grown block (size * 2);
          cbuf_size = size * 2;
          cbuf_len = len;
        })
        else none)
    else some (record { cbuf = some block; cbuf_size = size; cbuf_len = len })

-- What follows a positive result of recv, up to the next round.
pub received : (bytes : List ℕ) → (grown : Bool) → ClientInfo → Option ClientInfo
unfolding stored grow_if_full
received bytes grown c =
    grow_if_full grown (c.cbuf_len + length bytes) c.cbuf_size (stored c.cbuf c.cbuf_len bytes)

pub recv_loop : List Recv → ClientInfo → Run (ℤ × ClientInfo)
unfolding received
recv_loop [] c = running
recv_loop (interrupted ∷ rs) c = recv_loop rs c
recv_loop (again ∷ rs) c = done (pos 0, c)
recv_loop (broken ∷ rs) c = done (minus 3, c)
recv_loop (closed ∷ rs) c = done (pos 0, c)
recv_loop (got bytes grown ∷ rs) c = elim (received bytes grown c) [
  | none ↦ fault
  | some c' ↦ recv_loop rs c'
]

-- The block that recv_client_data allocates when there is none.
abbrev pub allocated : (memory : Bool) → Option (List ℕ × ℕ)
allocated memory = if memory then some ([], alloc_size) else none

-- `memory` says whether malloc finds some; `none` is a NULL `pinfo`.
pub recv_client_data : (memory : Bool) → List Recv → Option ClientInfo → Run (ℤ × Option ClientInfo)
unfolding recv_loop
recv_client_data memory rs none = done (minus 1, none)
recv_client_data memory rs (some c) =
    let first : ClientInfo = record {
      cbuf = allocated memory;
      cbuf_size = alloc_size;
      cbuf_len = c.cbuf_len;
    } in
    let begun : Run (ℤ × ClientInfo) =
      if memory then recv_loop rs first else done (minus 2, first) in
    elim (if c.cbuf_size == 0 then begun else recv_loop rs c) [
      | done (ret, c') ↦ done (ret, some c')
      | running ↦ running
      | fault ↦ fault
    ]
