-- ===== src/ConnMgr/Errors.antt =====
-- src/networking/conn_mgr/include/conn_mgr_errors.h and conn_mgr_core.c: the error codes of the connection
-- manager and their names.
pub mod Names
use Prim.Native.String.{String}
use tpt.Common.{Option, List, [], ◌∷◌, ℤ, pos, minus}
use tpt.Common.Switch.{switch}

-- enum conn_mgr_err
pub data ConnMgrErr : Type 0 where
  success : ConnMgrErr
  null_params : ConnMgrErr
  mem_alloc : ConnMgrErr
  conn_socket : ConnMgrErr
  conn_setnonblocking : ConnMgrErr
  conn_setblocking : ConnMgrErr
  conn_connect : ConnMgrErr
  conn_timedout : ConnMgrErr
  conn_poll : ConnMgrErr
  conn_connecting : ConnMgrErr

-- The values of the enumerators: 0, and from CONN_MGR_MIN_ERR_CODE on one more each.
abbrev pub code : ConnMgrErr → ℤ
code success = pos 0
code null_params = minus 2100
code mem_alloc = minus 2099
code conn_socket = minus 2098
code conn_setnonblocking = minus 2097
code conn_setblocking = minus 2096
code conn_connect = minus 2095
code conn_timedout = minus 2094
code conn_poll = minus 2093
code conn_connecting = minus 2092

-- CONN_MGR_ERR_STR
abbrev pub name : ConnMgrErr → String
name success = "CONN_MGR_SUCCESS"
name null_params = "CONN_MGR_ERR_NULL_PARAMS"
name mem_alloc = "CONN_MGR_ERR_MEM_ALLOC"
name conn_socket = "CONN_MGR_CONN_ERR_SOCKET"
name conn_setnonblocking = "CONN_MGR_CONN_ERR_SETNONBLOCKING"
name conn_setblocking = "CONN_MGR_CONN_ERR_SETBLOCKING"
name conn_connect = "CONN_MGR_CONN_ERR_CONNECT"
name conn_timedout = "CONN_MGR_CONN_ERR_TIMEDOUT"
name conn_poll = "CONN_MGR_CONN_ERR_POLL"
name conn_connecting = "CONN_MGR_CONN_ERR_CONNECTING"

-- The cases of `conn_mgr_err_msg`, in order.
abbrev pub cases : List ConnMgrErr
cases =
    success ∷ null_params ∷ mem_alloc ∷ conn_socket ∷ conn_setnonblocking ∷ conn_setblocking
    ∷ conn_connect ∷ conn_timedout ∷ conn_poll ∷ conn_connecting ∷ []

-- `none` is NULL.
pub conn_mgr_err_msg : ℤ → Option String
conn_mgr_err_msg c = switch code name c cases
