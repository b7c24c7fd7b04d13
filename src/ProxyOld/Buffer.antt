-- ===== src/ProxyOld/Buffer.antt =====
-- recv_client_data and alloc_client_buf of proxy_request_handler.c: what has come in on a client's socket is read
-- into a buffer that grows. What recv and realloc answer is an argument.
pub mod Filled
pub mod Laws
mod Tests
use tpt.Common.{
  ℕ, ◌+◌, ◌-◌, ◌*◌, ◌^◌, ◌&&◌, Bool, true, false, Option, none, some, List, [], ◌∷◌, ◌++◌, length,
  take, ℤ, pos, minus, is_some, leb, ltb, ◌==◌, if◌then◌else◌,
}
use tpt.HimProxy.{Run, done, running, fault}
use tpt.ProxyOld.{Block, ProxyInfo}

abbrev pub request_buf_size : ℕ
request_buf_size = 8192

abbrev pub realloc_limit : ℕ
realloc_limit = 128

-- recv() fails with EINTR, with EAGAIN, or with another errno; it returns 0; or it stores bytes.
pub data Recv : Type 0 where
  interrupted : Recv
  again : Recv
  broken : Recv
  closed : Recv
  got : (bytes : List ℕ) → Recv

-- A round of the loop: realloc returns NULL, or an address, and recv answers behind it.
pub data Round : Type 0 where
  no_memory : Round
  round : (address : ℕ) → Recv → Round

-- realloc to `size`: the bytes that the block has go over, as far as there is room.
abbrev pub reallocated : (address : ℕ) → Option Block → (size : ℕ) → Block
reallocated address none size = record { address = address; content = []; room = size }
reallocated address (some b) size = record {
  address = address;
  content = take size b.content;
  room = size;
}

-- The size that alloc_client_buf asks for; `none` is an `int` that overflows.
unfoldable pub wanted_size : (rem_len : ℕ) → ProxyInfo → Option ℕ
wanted_size rem_len p =
    if p.client_buf_size == 0
    then some request_buf_size
    else if ltb rem_len realloc_limit && is_some p.client_buf
    then (if ltb (p.client_buf_size * 2) (2 ^ 31) then some (p.client_buf_size * 2) else none)
    else some p.client_buf_size

-- The result. `*rem_len` comes to the size less what is in the buffer, except when the size was 0, where it
-- comes to the size.
unfoldable pub alloc_client_buf : (memory : Option ℕ) → (size : ℕ) → ProxyInfo → ℤ × ProxyInfo
alloc_client_buf none size p = (minus 1, record p { client_buf_size = size })
alloc_client_buf (some address) size p = (
  pos 0,
  record p { client_buf = some (reallocated address p.client_buf size); client_buf_size = size },
)

-- recv stores bytes at the end of those in the buffer; `none` is a write behind the block or to NULL.
unfoldable pub stored : ProxyInfo → (bytes : List ℕ) → Option ProxyInfo
stored p bytes = elim p.client_buf [
  | none ↦ none
  | some b ↦
      if (length b.content == p.client_buf_curr_len)
        && leb (p.client_buf_curr_len + length bytes) b.room
      then some (record p {
        client_buf = some (record b { content = b.content ++ bytes });
        client_buf_curr_len = p.client_buf_curr_len + length bytes;
      })
      else none
]

-- What a round comes to: the loop ends, or it goes on with the record.
pub data Step : Type 0 where
  stop : Run (ℤ × ProxyInfo) → Step
  go : ProxyInfo → Step

-- Behind a realloc that succeeds.
unfoldable pub receive : Recv → ProxyInfo → Step
receive interrupted p = go p
receive again p = stop (done (pos 1, p))
receive broken p = stop (done (minus 1, p))
receive closed p = stop (done (pos 0, p))
receive (got bytes) p = elim (stored p bytes) [ none ↦ stop fault | some p' ↦ go p' ]

unfoldable pub one_round : Round → ProxyInfo → Step
one_round r p = elim (wanted_size (p.client_buf_size - p.client_buf_curr_len) p) [
  | none ↦ stop fault
  | some size ↦ elim r [
    | no_memory ↦ stop (done (alloc_client_buf none size p))
    | round address recv ↦ receive recv (alloc_client_buf (some address) size p).1
  ]
]

unfoldable pub recv_loop : List Round → ProxyInfo → Run (ℤ × ProxyInfo)
recv_loop [] p = running
recv_loop (r ∷ rs) p = elim (one_round r p) [ stop result ↦ result | go p' ↦ recv_loop rs p' ]

-- `none` is a NULL argument.
unfoldable pub recv_client_data : List Round → Option ProxyInfo → Run (ℤ × Option ProxyInfo)
recv_client_data rs none = done (minus 1, none)
recv_client_data rs (some p) = elim (recv_loop rs p) [
  | done (ret, p') ↦ done (ret, some p')
  | running ↦ running
  | fault ↦ fault
]
