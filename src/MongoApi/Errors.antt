-- ===== src/MongoApi/Errors.antt =====
-- src/mongo_api/include/mongo_errors.h and mongo_err_msg: the error codes and their names.
mod Names
use Prim.Native.String.{String}
use tpt.Common.{Option, List, [], ◌∷◌, ℤ, minus}
use tpt.Common.Switch.{switch}

-- enum mongo_api_err
pub data MongoApiErr : Type 0 where
  null_params : MongoApiErr
  mem_alloc : MongoApiErr
  pool_params : MongoApiErr
  uri_new : MongoApiErr
  pool_new : MongoApiErr
  pool_pop : MongoApiErr
  coll_get : MongoApiErr
  coll_find : MongoApiErr
  coll_insert : MongoApiErr
  coll_remove : MongoApiErr
  coll_update : MongoApiErr
  ttl_invalid : MongoApiErr
  coll_index_create : MongoApiErr

-- From MIN_ERR_CODE on, one more each.
abbrev pub code : MongoApiErr → ℤ
code null_params = minus 2000
code mem_alloc = minus 1999
code pool_params = minus 1998
code uri_new = minus 1997
code pool_new = minus 1996
code pool_pop = minus 1995
code coll_get = minus 1994
code coll_find = minus 1993
code coll_insert = minus 1992
code coll_remove = minus 1991
code coll_update = minus 1990
code ttl_invalid = minus 1989
code coll_index_create = minus 1988

-- MONGO_ERR_STR
abbrev pub name : MongoApiErr → String
name null_params = "MONGO_ERR_NULL_PARAMS"
name mem_alloc = "MONGO_ERR_MEM_ALLOC"
name pool_params = "MONGO_ERR_POOL_PARAMS"
name uri_new = "MONGO_ERR_URI_NEW"
name pool_new = "MONGO_ERR_POOL_NEW"
name pool_pop = "MONGO_ERR_POOL_POP"
name coll_get = "MONGO_ERR_COLL_GET"
name coll_find = "MONGO_ERR_COLL_FIND"
name coll_insert = "MONGO_ERR_COLL_INSERT"
name coll_remove = "MONGO_ERR_COLL_REMOVE"
name coll_update = "MONGO_ERR_COLL_UPDATE"
name ttl_invalid = "MONGO_ERR_TTL_INVALID"
name coll_index_create = "MONGO_ERR_COLL_INDEX_CREATE"

-- The cases of mongo_err_msg, in order; MONGO_ERR_COLL_UPDATE is none of them.
abbrev pub cases : List MongoApiErr
cases =
    null_params ∷ mem_alloc ∷ pool_params ∷ uri_new ∷ pool_new ∷ pool_pop ∷ coll_get ∷ coll_find
    ∷ coll_insert ∷ coll_remove ∷ ttl_invalid ∷ coll_index_create ∷ []

-- `none` is NULL.
pub mongo_err_msg : ℤ → Option String
mongo_err_msg c = switch code name c cases
