-- ===== src/MongoApi.antt =====
-- src/mongo_api/mongo_api.c: operations on documents over the MongoDB driver, libmongoc. What the driver answers is an
-- argument; what it has handed out, and not got back, is counted. Errors holds the codes and Pool the pool.
pub mod Errors
mod Pool
mod Laws
mod Tests
use tpt.Common.{
  ℕ, ◌+◌, ◌-◌, Bool, true, false, not, ◌&&◌, ◌||◌, Option, none, some, ℤ, pos, is_neg,
  if◌then◌else◌,
}
use tpt.MongoApi.Errors.{
  MongoApiErr, null_params, pool_pop, coll_get, coll_find, coll_insert, coll_remove, coll_update,
  ttl_invalid, coll_index_create, code,
}

-- The clients that are out of the pool, the collections and the cursors that are there, and whether a
-- collection or a cursor has been destroyed behind the return of its client.
pub record World : Type 0 where
  pub clients : ℕ
  pub colls : ℕ
  pub cursors : ℕ
  pub late : Bool

-- Whether the pool gives a client, and the client the collection.
pub record Driver : Type 0 where
  pub pop : Bool
  pub get_collection : Bool

abbrev pub popped : World → World
popped w = record w { clients = w.clients + 1 }

abbrev pub pushed : World → World
pushed w = record w { clients = w.clients - 1 }

abbrev pub with_collection : World → World
with_collection w = record w { colls = w.colls + 1 }

abbrev pub with_cursor : World → World
with_cursor w = record w { cursors = w.cursors + 1 }

-- mongoc_client_pool_push, then mongoc_collection_destroy, as all functions end.
abbrev pub give_back : World → World
give_back w = record (pushed w) { colls = w.colls - 1; late = true }

-- How all functions begin; `body` is what follows once they have the collection.
pub with_coll : Driver → (body : World → ℤ × World) → World → ℤ × World
with_coll d body w =
    if not d.pop
    then (code pool_pop, w)
    else if not d.get_collection
    then (code coll_get, pushed (popped w))
    else body (with_collection (popped w))

-- `given` says that no pointer is NULL; the last Boolean is what the driver's operation returns.
pub mongo_insert_doc : (given : Bool) → Driver → (inserted : Bool) → World → ℤ × World
unfolding with_coll
mongo_insert_doc false d inserted w = (code null_params, w)
mongo_insert_doc true d inserted w =
    with_coll d
      (λ w'. if not inserted then (code coll_insert, give_back w') else (pos 0, give_back w')) w

pub mongo_doc_remove : (given : Bool) → Driver → (removed : Bool) → World → ℤ × World
unfolding with_coll
mongo_doc_remove false d removed w = (code null_params, w)
mongo_doc_remove true d removed w =
    with_coll d
      (λ w'. if not removed then (code coll_remove, give_back w') else (pos 0, give_back w')) w

pub mongo_coll_create_ttl_index :
    (given : Bool) → Driver → (ttl : ℤ) → (created : Bool) → World → ℤ × World
unfolding with_coll
mongo_coll_create_ttl_index false d ttl created w = (code null_params, w)
mongo_coll_create_ttl_index true d ttl created w =
    if is_neg ttl
    then (code ttl_invalid, w)
    else with_coll d
        (λ w'.
          if not created then (code coll_index_create, give_back w') else (pos 0, give_back w'))
        w

pub mongo_doc_update : (given : Bool) → Driver → (updated : Bool) → World → ℤ × World
unfolding with_coll
mongo_doc_update false d updated w = (code null_params, w)
mongo_doc_update true d updated w =
    with_coll d
      (λ w'. if not updated then (code coll_update, give_back w') else (pos 0, give_back w')) w

-- `next` is what mongoc_cursor_next returns; the result has what `*exists` is set to, if it is.
pub mongo_doc_exists :
    (given : Bool) → Driver → (found next : Bool) → World → ℤ × World × Option Bool
unfolding with_coll
mongo_doc_exists false d found next w = (code null_params, w, none)
mongo_doc_exists true d found next w =
    let (ret, w') =
      with_coll d
        (λ w'.
          if not found
          then (code coll_find, give_back w')
          else let w'' = with_cursor w' in
            (pos 0, record (give_back w'') { cursors = w''.cursors - 1 }))
        w in
    (ret, w', if d.pop && (d.get_collection && found) then some next else none)
