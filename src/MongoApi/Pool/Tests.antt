-- ===== src/MongoApi/Pool/Tests.antt =====
-- A pool with a least size above its greatest, and the instance of the theorem there.
use tpt.Common.{◌≡◌, refl, pos, minus}
use tpt.MongoApi.Pool.{Params, mongo_check_pool_params}

abbrev crossed : Params
crossed = record { min_size = pos 20; max_size = pos 8; conn_timeout = minus 1; op_timeout = pos 7 }

crossed_clamped :
    mongo_check_pool_params crossed
    ≡ record { min_size = pos 8; max_size = pos 8; conn_timeout = pos 5000; op_timeout = pos 7 }
unfolding mongo_check_pool_params
crossed_clamped = refl
