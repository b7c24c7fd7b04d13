-- ===== src/ProxyOld/Release.antt =====
-- What becomes of a client's struct: free_proxy_req_list and free_proxy_req_info of proxy_request_handler.c and
-- free_proxy_info of proxy_core.c, over an explicit heap of the requests. http_request_info_free belongs to
-- another library: `http_free` says what it returns for a pointer. The walk runs on fuel.
pub mod Laws
mod Tests
use tpt.Common.{
  ℕ, zero, suc, Bool, true, false, Option, none, some, List, [], ◌∷◌, ◌++◌, ℤ, pos, minus, is_neg,
  if◌then◌else◌, ◌==◌,
}
use tpt.Common.Cells.{Ptr, null, Heap, write, load}

-- The pointers of struct proxy_req_info that it owns.
pub record Req : Type 0 where
  pub host : Ptr
  pub dest_ip : Ptr
  pub http_request_info : Ptr

-- The result, the pointers that have been given to free and to http_request_info_free, and the heap.
pub record Released : Type 0 where
  pub ret : ℤ
  pub freed : List Ptr
  pub heap : Heap Req

-- A fault, `none`, is a use of NULL or of what has been freed.
pub free_proxy_req_info : (http_free : Ptr → ℤ) → (node : Ptr) → Heap Req → Option Released
free_proxy_req_info http_free node h = elim (load h node) [
  | none ↦ none
  | some (req, next) ↦ some (record {
    ret = if is_neg (http_free req.http_request_info) then minus 1 else pos 0;
    freed = req.host ∷ req.dest_ip ∷ req.http_request_info ∷ node ∷ [];
    heap = write h node none;
  })
]

-- `|=` of 0 and -1.
abbrev pub or_error : ℤ → ℤ → ℤ
or_error ret rv = if is_neg rv then minus 1 else ret

-- `ret` is the result so far; `curr->next` is read before the node is freed.
pub free_loop :
    (fuel : ℕ) → (http_free : Ptr → ℤ) → (curr : Ptr) → (ret : ℤ) → Heap Req → Option Released
free_loop zero http_free curr ret h = none
free_loop (suc k) http_free curr ret h =
    if curr == null then some (record { ret = ret; freed = []; heap = h }) else elim (load h curr) [
      | none ↦ none
      | some (req, next) ↦ elim (free_proxy_req_info http_free curr h) [
        | none ↦ none
        | some one ↦ elim (free_loop k http_free next (or_error ret one.ret) one.heap) [
          | none ↦ none
          | some rest ↦ some (record rest { freed = one.freed ++ rest.freed })
        ]
      ]
    ]

-- `head` is `none` for a NULL argument, and else what it points to.
pub free_proxy_req_list :
    (fuel : ℕ) → (http_free : Ptr → ℤ) → (head : Option Ptr) → Heap Req → Option Released
unfolding free_loop
free_proxy_req_list fuel http_free none h = some (record { ret = minus 1; freed = []; heap = h })
free_proxy_req_list fuel http_free (some curr) h = free_loop fuel http_free curr (pos 0) h

-- The pointers of struct proxy_info that it owns, and the address of the struct.
pub record Info : Type 0 where
  pub address : Ptr
  pub client_buf : Ptr
  pub curr_req : Ptr

-- The argument is `none` for NULL, and `*proxy_info` is `none` for NULL too.
pub free_proxy_info :
    (fuel : ℕ)
    → (http_free : Ptr → ℤ) → (proxy_info : Option (Option Info)) → Heap Req
    → Option Released
free_proxy_info fuel http_free none h = some (record { ret = minus 1; freed = []; heap = h })
free_proxy_info fuel http_free (some none) h = none
free_proxy_info fuel http_free (some (some info)) h =
    elim (free_proxy_req_list fuel http_free (some info.curr_req) h) [
      | none ↦ none
      | some r ↦ some (record {
        ret = or_error (pos 0) r.ret;
        freed = (info.client_buf ∷ r.freed) ++ (info.address ∷ []);
        heap = r.heap;
      })
    ]
