-- ===== src/MongoApi/Laws.antt =====
-- Every operation on documents gives back what it has taken from the driver, and returns the code of the first
-- step that fails.
use tpt.Common.{
  ℕ, ◌+◌, ◌-◌, ◌≡◌, refl, ap, Bool, true, false, not, ◌&&◌, ◌||◌, none, some, ℤ, pos, int_eq,
  if◌then◌else◌, arith,
}
use tpt.MongoApi.Errors.{
  MongoApiErr, pool_pop, coll_get, coll_find, coll_insert, coll_remove, coll_update,
  coll_index_create, code,
}
use tpt.MongoApi.{
  World, Driver, with_coll, popped, pushed, with_collection, with_cursor, give_back,
  mongo_insert_doc, mongo_doc_remove, mongo_coll_create_ttl_index, mongo_doc_update,
  mongo_doc_exists,
}

-- The code of the first step that fails; `e` is that of the last step.
abbrev pub first_failure : Driver → (done : Bool) → (e : MongoApiErr) → ℤ
first_failure d done e =
    if not d.pop
    then code pool_pop
    else if not d.get_collection
    then code coll_get
    else if not done
    then code e
    else pos 0

-- The world with all that was taken given back.
abbrev pub given_back : Driver → World → World
given_back d w = record w { late = w.late || (d.pop && d.get_collection) }

-- The end of the operations, for the result of the last step.
abbrev end_with : (done : Bool) → (e : MongoApiErr) → World → ℤ × World
end_with done e w = if not done then (code e, give_back w) else (pos 0, give_back w)

restored : (n : ℕ) → (n + 1) - 1 ≡ n
restored n = omega arith

or_false : (b : Bool) → b ≡ (b || false)
or_false b = ground arith

or_true : (b : Bool) → true ≡ (b || true)
or_true b = ground arith

unchanged : (w : World) → w ≡ record w { late = w.late || false }
unchanged w i = record w { late = or_false w.late i }

give_back-late :
    (w : World) → give_back (with_collection (popped w)) ≡ record w { late = w.late || true }
give_back-late w i = record {
  clients = restored w.clients i;
  colls = restored w.colls i;
  cursors = w.cursors;
  late = or_true w.late i;
}

pushed-popped : (w : World) → pushed (popped w) ≡ record w { late = w.late || false }
pushed-popped w i = record {
  clients = restored w.clients i;
  colls = w.colls;
  cursors = w.cursors;
  late = or_false w.late i;
}

with_coll-end :
    (pop get done : Bool) (e : MongoApiErr) (w : World)
    → with_coll (record { pop = pop; get_collection = get }) (end_with done e) w ≡ (
      first_failure (record { pop = pop; get_collection = get }) done e,
      given_back (record { pop = pop; get_collection = get }) w,
    )
unfolding with_coll
with_coll-end false get done e w = ap (λ (v : World). (code pool_pop, v)) (unchanged w)
with_coll-end true false done e w = ap (λ (v : World). (code coll_get, v)) (pushed-popped w)
with_coll-end true true false e w = ap (λ (v : World). (code e, v)) (give_back-late w)
with_coll-end true true true e w = ap (λ (v : World). (pos 0, v)) (give_back-late w)

-- Unless a pointer is NULL or the ttl is negative: mongo_insert_doc, mongo_doc_remove, mongo_coll_create_ttl_index and
-- mongo_doc_update return 0, or the code of the first step that fails; and whichever does, the client is back
-- in the pool and the collection destroyed. The client goes back before the collection goes.
pub operations-give_back :
    (d : Driver) (done : Bool) (n : ℕ) (w : World)
    → (mongo_insert_doc true d done w ≡ (first_failure d done coll_insert, given_back d w))
      × (mongo_doc_remove true d done w ≡ (first_failure d done coll_remove, given_back d w))
      × (mongo_coll_create_ttl_index true d (pos n) done w
          ≡ (first_failure d done coll_index_create, given_back d w))
      × (mongo_doc_update true d done w ≡ (first_failure d done coll_update, given_back d w))
unfolding mongo_insert_doc mongo_doc_remove mongo_coll_create_ttl_index mongo_doc_update
operations-give_back d done n w = (
  with_coll-end d.pop d.get_collection done coll_insert w,
  with_coll-end d.pop d.get_collection done coll_remove w,
  with_coll-end d.pop d.get_collection done coll_index_create w,
  with_coll-end d.pop d.get_collection done coll_update w,
)

-- The end of mongo_doc_exists.
abbrev end_exists : (found : Bool) → World → ℤ × World
end_exists found w =
    if not found
    then (code coll_find, give_back w)
    else let w' = with_cursor w in (pos 0, record (give_back w') { cursors = w'.cursors - 1 })

cursor-late :
    (w : World)
    → (let w' = with_cursor (with_collection (popped w)) in
        record (give_back w') { cursors = w'.cursors - 1 })
      ≡ record w { late = w.late || true }
cursor-late w i = record {
  clients = restored w.clients i;
  colls = restored w.colls i;
  cursors = restored w.cursors i;
  late = or_true w.late i;
}

with_coll-end_exists :
    (pop get found : Bool) (w : World)
    → with_coll (record { pop = pop; get_collection = get }) (end_exists found) w ≡ (
      first_failure (record { pop = pop; get_collection = get }) found coll_find,
      given_back (record { pop = pop; get_collection = get }) w,
    )
unfolding with_coll
with_coll-end_exists false get found w = ap (λ (v : World). (code pool_pop, v)) (unchanged w)
with_coll-end_exists true false found w = ap (λ (v : World). (code coll_get, v)) (pushed-popped w)
with_coll-end_exists true true false w = ap (λ (v : World). (code coll_find, v)) (give_back-late w)
with_coll-end_exists true true true w = ap (λ (v : World). (pos 0, v)) (cursor-late w)

-- mongo_doc_exists, for pointers that are not NULL, returns 0 or the code of the first step that fails, gives back the
-- client, the collection and the cursor, and sets `*exists` to what the cursor says exactly if it returns 0.
pub mongo_doc_exists-give_back :
    (d : Driver) (found next : Bool) (w : World)
    → mongo_doc_exists true d found next w ≡ (
      first_failure d found coll_find,
      given_back d w,
      if int_eq (first_failure d found coll_find) (pos 0) then some next else none,
    )
unfolding mongo_doc_exists
mongo_doc_exists-give_back d found next w i =
    let r = with_coll-end_exists d.pop d.get_collection found w in
    ((r i).0, (r i).1, set_exactly d.pop d.get_collection found i)
  where
    set_exactly :
        (pop get f : Bool)
        → (if pop && (get && f) then some next else none) ≡ (
            if int_eq
              (first_failure (record { pop = pop; get_collection = get }) f coll_find)
              (pos 0)
            then some next
            else none)
    set_exactly false get f = refl
    set_exactly true false f = refl
    set_exactly true true false = refl
    set_exactly true true true = refl
