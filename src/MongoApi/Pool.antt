-- ===== src/MongoApi/Pool.antt =====
-- The pool of mongo_api.c: mongo_context_pool_init, mongo_check_pool_params and mongo_context_pool_destroy.
mod Laws
mod Tests
use tpt.Common.{
  ℕ, Bool, true, false, not, Option, none, some, ℤ, pos, negsuc, is_neg, int_eq, ltb, ◌||◌,
  if◌then◌else◌,
}
use tpt.MongoApi.Errors.{null_params, mem_alloc, pool_params, uri_new, pool_new, code}

-- The arguments that mongo_check_pool_params corrects.
pub record Params : Type 0 where
  pub min_size : ℤ
  pub max_size : ℤ
  pub conn_timeout : ℤ
  pub op_timeout : ℤ

-- `a > b` on C `int`s
abbrev pub above : ℤ → ℤ → Bool
above (pos m) (pos n) = ltb n m
above (pos m) (negsuc n) = true
above (negsuc m) (pos n) = false
above (negsuc m) (negsuc n) = ltb m n

abbrev pub or_default : (default : ℕ) → ℤ → ℤ
or_default d n = if not (above n (pos 0)) then pos d else n

-- The result is always 0: its callers give no NULL.
pub mongo_check_pool_params : Params → Params
mongo_check_pool_params p =
    let min = or_default 1 p.min_size in
    let max = or_default 10 p.max_size in
    record {
      min_size = if above min max then max else min;
      max_size = max;
      conn_timeout = or_default 5000 p.conn_timeout;
      op_timeout = or_default 5000 p.op_timeout;
    }

-- What mongo_context_pool_init leaves: its result, whether a URI and a pool of the driver are there, the
-- struct in `*mpool`, if it is written, and the arguments that the URI is made from, if one is made.
pub record Made : Type 0 where
  pub ret : ℤ
  pub uri : Bool
  pub pool : Bool
  pub mpool : Option Bool
  pub params : Option Params

-- `given` says that neither pointer is NULL; what follows is whether the driver makes the URI and the pool,
-- and malloc finds memory. A NULL that malloc returns is stored in `*mpool`: `some false`.
pub mongo_context_pool_init : (given : Bool) → Params → (uri pool memory : Bool) → Made
unfolding mongo_check_pool_params
mongo_context_pool_init false p uri pool memory = record {
  ret = code null_params;
  uri = false;
  pool = false;
  mpool = none;
  params = none;
}
mongo_context_pool_init true p uri pool memory =
    let used = some (mongo_check_pool_params p) in
    if not uri
    then record { ret = code uri_new; uri = false; pool = false; mpool = none; params = used }
    else if not pool
    then record { ret = code pool_new; uri = false; pool = false; mpool = none; params = used }
    else if not memory
    then record {
      ret = code mem_alloc;
      uri = false;
      pool = false;
      mpool = some false;
      params = used;
    }
    else record { ret = pos 0; uri = false; pool = true; mpool = some true; params = used }

-- For a struct that mongo_context_pool_init has made.
pub mongo_context_pool_destroy : (given : Bool) → Made → Made
mongo_context_pool_destroy false m = record m { ret = code null_params }
mongo_context_pool_destroy true m = record m { ret = pos 0; pool = false; mpool = some false }
