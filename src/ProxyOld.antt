-- ===== src/ProxyOld.antt =====
-- src/networking/himproxy/proxy_old, the proxy as it was before himproxy: its child processes accept clients,
-- one thread polls the clients' sockets, and the threads of a work queue read and parse requests.
pub mod Buffer
pub mod Requests
pub mod Poller
pub mod Core
pub mod Config
pub mod Release
mod Cleanup
pub mod Net
pub mod Forward
pub mod Main
use tpt.Common.{ℕ, Option, List}

-- Memory behind a pointer: its address, the bytes that have been stored, and how many it has room for.
pub record Block : Type 0 where
  pub address : ℕ
  pub content : List ℕ
  pub room : ℕ

-- struct proxy_req_info, of which the pointer is the address of a block with a place in it.
pub record ReqInfo : Type 0 where
  pub req_buf : ℕ × ℕ
  pub req_buf_len : ℕ

-- The client section of struct proxy_info. The requests hang on `curr_req`, and last_req is the last of them.
-- A NULL `client_buf` is `none`. The numbers are `int`s.
pub record ProxyInfo : Type 0 where
  pub client_buf : Option Block
  pub client_buf_size : ℕ
  pub client_buf_curr_len : ℕ
  pub client_buf_parsed_len : ℕ
  pub curr_req : List ReqInfo
