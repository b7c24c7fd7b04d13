-- ===== src/MongoApi/Tests.antt =====
-- An update that the driver refuses, and the instances of the theorems there.
use tpt.Common.{◌≡◌, true, false, pos}
use tpt.MongoApi.Errors.{code, coll_insert, coll_remove, coll_update, coll_index_create}
use tpt.MongoApi.{
  World, Driver, mongo_insert_doc, mongo_doc_remove, mongo_coll_create_ttl_index, mongo_doc_update,
}
use tpt.MongoApi.Laws.{operations-give_back}

abbrev idle : World
idle = record { clients = 0; colls = 0; cursors = 0; late = false }

abbrev answering : Driver
answering = record { pop = true; get_collection = true }

abbrev no_collection : Driver
no_collection = record { pop = true; get_collection = false }

operations-give_back_example :
    (mongo_insert_doc true answering false idle ≡ (code coll_insert, record idle { late = true }))
    × (mongo_doc_remove true answering false idle ≡ (code coll_remove, record idle { late = true }))
    × (mongo_coll_create_ttl_index true answering (pos 60) false idle
        ≡ (code coll_index_create, record idle { late = true }))
    × (mongo_doc_update true answering false idle ≡ (code coll_update, record idle { late = true }))
operations-give_back_example = operations-give_back answering false 60 idle
