-- ===== src/BsonApi/Errors.antt =====
-- src/serialization/bson_api/include/bson_errors.h and bson_err_msg of bson_api.c: the error codes of the
-- layer over libbson and their names.
mod Names
use Prim.Native.String.{String}
use tpt.Common.{Option, List, [], ◌∷◌, ℤ, pos, minus}
use tpt.Common.Switch.{switch}

-- enum bson_api_err
pub data BsonApiErr : Type 0 where
  success : BsonApiErr
  null_params : BsonApiErr
  context_new : BsonApiErr
  mem_alloc : BsonApiErr
  creat_new : BsonApiErr
  convert_json : BsonApiErr
  append_val : BsonApiErr
  writer_new : BsonApiErr
  writer_begin : BsonApiErr
  invalid_buflen : BsonApiErr
  reader_new : BsonApiErr
  reader_tell : BsonApiErr
  reader_read : BsonApiErr
  iter_init : BsonApiErr

-- The values of the enumerators: 0, and from MIN_ERR_CODE on one more each.
abbrev pub err_code : BsonApiErr → ℤ
err_code success = pos 0
err_code null_params = minus 2100
err_code context_new = minus 2099
err_code mem_alloc = minus 2098
err_code creat_new = minus 2097
err_code convert_json = minus 2096
err_code append_val = minus 2095
err_code writer_new = minus 2094
err_code writer_begin = minus 2093
err_code invalid_buflen = minus 2092
err_code reader_new = minus 2091
err_code reader_tell = minus 2090
err_code reader_read = minus 2089
err_code iter_init = minus 2088

-- BSON_ERR_STR
abbrev pub err_name : BsonApiErr → String
err_name success = "BSON_SUCCESS"
err_name null_params = "BSON_ERR_NULL_PARAMS"
err_name context_new = "BSON_ERR_CONTEXT_NEW"
err_name mem_alloc = "BSON_ERR_MEM_ALLOC"
err_name creat_new = "BSON_ERR_CREAT_NEW"
err_name convert_json = "BSON_ERR_CONVERT_JSON"
err_name append_val = "BSON_ERR_APPEND_VAL"
err_name writer_new = "BSON_ERR_WRITER_NEW"
err_name writer_begin = "BSON_ERR_WRITER_BEGIN"
err_name invalid_buflen = "BSON_ERR_INVALID_BUFLEN"
err_name reader_new = "BSON_ERR_READER_NEW"
err_name reader_tell = "BSON_ERR_READER_TELL"
err_name reader_read = "BSON_ERR_READER_READ"
err_name iter_init = "BSON_ERR_ITER_INIT"

-- The cases of `bson_err_msg`, in order; BSON_SUCCESS is none of them.
abbrev pub err_cases : List BsonApiErr
err_cases =
    null_params ∷ mem_alloc ∷ context_new ∷ creat_new ∷ convert_json ∷ append_val ∷ writer_new
    ∷ writer_begin ∷ invalid_buflen ∷ reader_new ∷ reader_tell ∷ reader_read ∷ iter_init ∷ []

-- `none` is NULL.
pub bson_err_msg : ℤ → Option String
bson_err_msg c = switch err_code err_name c err_cases
