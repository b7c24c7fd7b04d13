-- ===== src/ConnMgr/Errors/Names.antt =====
-- conn_mgr_err_msg names the error codes and nothing else.
use tpt.Common.{none, some, ℤ, int_eq, ◌≡◌, ◌⊎◌, inl, inr, refl, false, arith}
use tpt.Common.Switch.{Listed, switch_cases}
use tpt.ConnMgr.Errors.{ConnMgrErr, success, code, name, cases, conn_mgr_err_msg}

all-Listed : (e : ConnMgrErr) → Listed e cases
all-Listed success = inl refl
all-Listed e = ground arith

-- For every number, either it is the code of an error and conn_mgr_err_msg returns the name of that error,
-- or it is the code of no error and conn_mgr_err_msg returns NULL.
pub conn_mgr_err_msg_cases :
    (c : ℤ)
    → ((e : ConnMgrErr) × (c ≡ code e) × (conn_mgr_err_msg c ≡ some (name e)))
      ⊎ (((e : ConnMgrErr) → int_eq c (code e) ≡ false) × (conn_mgr_err_msg c ≡ none))
unfolding conn_mgr_err_msg
conn_mgr_err_msg_cases c = elim (switch_cases code name c cases) [
  | inl (e, l, same, found) ↦ inl (e, same, found)
  | inr (none_fits, nothing) ↦ inr ((λ e. none_fits e (all-Listed e)), nothing)
]
