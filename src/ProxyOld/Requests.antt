-- ===== src/ProxyOld/Requests.antt =====
-- The parsing half of proxy_request_handler.c: parse_request_buffer cuts the requests off the buffer and lists
-- them, and receive_parse_request is the job of a work queue's thread. The callers give no NULL
-- to the static functions, so their tests for it are left out.
pub mod Cuts
pub mod Laws
pub mod Job
mod Tests
use tpt.Common.{
  ℕ, zero, suc, ◌+◌, Bool, true, false, Option, none, some, List, [], ◌∷◌, ◌++◌, drop, take, ℤ, pos,
  minus, is_neg, int_eq, if◌then◌else◌,
}
use tpt.HimProxy.{Run, done, running, fault}
use tpt.ProxyOld.{Block, ReqInfo, ProxyInfo}
use tpt.ProxyOld.Buffer.{Round, recv_client_data}

-- The answers of http_parse_request, of the HTTP library: the text is no request, or there is a request whose
-- headers have this length, or the headers are not complete.
pub data Parsed : Type 0 where
  malformed : Parsed
  request : (header_length : ℕ) → Parsed
  incomplete : Parsed

-- calloc in proxy_request_list_add, and the new entry behind the last one.
pub proxy_request_list_add :
    (memory : Bool) → (req_buf : ℕ × ℕ) → (req_buf_len : ℕ) → List ReqInfo → ℤ × List ReqInfo
proxy_request_list_add false req_buf req_buf_len reqs = (minus 1, reqs)
proxy_request_list_add true req_buf req_buf_len reqs =
    (pos 0, reqs ++ (record { req_buf = req_buf; req_buf_len = req_buf_len } ∷ []))

pub add_to_request_list :
    (memory : Bool) → (b : Block) → (header_length : ℕ) → ProxyInfo → ℤ × ProxyInfo
unfolding proxy_request_list_add
add_to_request_list memory b header_length p =
    let (ret, reqs) =
      proxy_request_list_add memory (b.address, p.client_buf_parsed_len) header_length p.curr_req in
    (if is_neg ret then minus 1 else ret, record p { curr_req = reqs })

pub handle_request : (memory : Bool) → (b : Block) → (header_length : ℕ) → ProxyInfo → ℤ × ProxyInfo
unfolding add_to_request_list
handle_request memory b header_length p =
    let (ret, p') = add_to_request_list memory b header_length p in
    if is_neg ret
    then (minus 1, p')
    else (pos 0, record p' { client_buf_parsed_len = p'.client_buf_parsed_len + header_length })

-- The text that http_parse_request gets.
abbrev pub unparsed : Block → ProxyInfo → List ℕ
unparsed b p = drop p.client_buf_parsed_len (take p.client_buf_curr_len b.content)

module _ (http_parse_request : List ℕ → Parsed) where
  -- The loop with the answers of calloc; `fuel` bounds the rounds. It ends in a round that finds the headers
  -- incomplete, and in no other.
  pub parse_loop : (fuel : ℕ) → (memory : List Bool) → Block → ProxyInfo → Run (ℤ × ProxyInfo)
  unfolding handle_request
  parse_loop zero memory b p = running
  parse_loop (suc fuel) memory b p = elim (http_parse_request (unparsed b p)) [
    | malformed ↦ parse_loop fuel memory b p
    | incomplete ↦ done (pos 1, p)
    | request n ↦ elim memory [
      | [] ↦ running
      | m ∷ memory' ↦ parse_loop fuel memory' b (handle_request m b n p).1
    ]
  ]

  -- recv_client_data leaves a block whenever it returns 1; without one the run counts as a fault.
  pub parse_request_buffer : (fuel : ℕ) → (memory : List Bool) → ProxyInfo → Run (ℤ × ProxyInfo)
  unfolding parse_loop
  parse_request_buffer fuel memory p = elim p.client_buf [
    | none ↦ fault
    | some b ↦ parse_loop fuel memory b p
  ]

-- What the job leaves: nothing has been done, or the connection stands with its record, or free_proxy_info
-- has been called behind close() of the client's socket.
pub data Ended : Type 0 where
  refused : Ended
  kept : ProxyInfo → Ended
  freed : Ended

module _ (http_parse_request : List ℕ → Parsed) where
  pub receive_parse_request :
      (rounds : List Round)
      → (fuel : ℕ) → (memory : List Bool) → (arg : Option ProxyInfo) → Run Ended
  receive_parse_request rounds fuel memory none = done refused
  receive_parse_request rounds fuel memory (some p) = elim (recv_client_data rounds (some p)) [
    | running ↦ running
    | fault ↦ fault
    | done (ret, none) ↦ fault
    | done (ret, some p') ↦
        if is_neg ret
        then done freed
        else if int_eq ret (pos 0)
        then done freed
        else elim (parse_request_buffer http_parse_request fuel memory p') [
          | running ↦ running
          | fault ↦ fault
          | done (parsed, p'') ↦ if is_neg parsed then done freed else done (kept p'')
        ]
  ]
