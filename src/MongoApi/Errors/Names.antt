-- ===== src/MongoApi/Errors/Names.antt =====
-- mongo_err_msg names every error code but one.
use tpt.Common.{none, some, ◌≡◌, refl, ◌⊎◌, inl, inr}
use tpt.MongoApi.Errors.{
  MongoApiErr, null_params, mem_alloc, pool_params, uri_new, pool_new, pool_pop, coll_get,
  coll_find, coll_insert, coll_remove, coll_update, ttl_invalid, coll_index_create, code, name,
  mongo_err_msg,
}

-- mongo_err_msg gives each error code of the enumeration its name, except MONGO_ERR_COLL_UPDATE, for
-- which it returns NULL.
pub mongo_err_msg-update :
    (e : MongoApiErr)
    → ((e ≡ coll_update) × (mongo_err_msg (code e) ≡ none))
      ⊎ (mongo_err_msg (code e) ≡ some (name e))
unfolding mongo_err_msg
mongo_err_msg-update coll_update = inl (refl, refl)
mongo_err_msg-update null_params = inr refl
mongo_err_msg-update mem_alloc = inr refl
mongo_err_msg-update pool_params = inr refl
mongo_err_msg-update uri_new = inr refl
mongo_err_msg-update pool_new = inr refl
mongo_err_msg-update pool_pop = inr refl
mongo_err_msg-update coll_get = inr refl
mongo_err_msg-update coll_find = inr refl
mongo_err_msg-update coll_insert = inr refl
mongo_err_msg-update coll_remove = inr refl
mongo_err_msg-update ttl_invalid = inr refl
mongo_err_msg-update coll_index_create = inr refl
