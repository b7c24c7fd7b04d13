-- ===== src/MemPool/Program/Tests.antt =====
-- The tests as the program runs them.
use tpt.Common.{◌≡◌, refl, true, false, none, some, [], pos}
use tpt.MemPool.{argo_mem_pool_create, argo_mem_pool_get}
use tpt.MemPool.Program.{Allocs, test1, test3}
use tpt.MemPool.Program.Laws.{all_succeed}

abbrev one_slab : Allocs
one_slab = record { pool = true; slab = true; more = false }

-- The fifth object is not to be had, and the pool stays.
test3_fails : test3 one_slab ≡ some (pos 1, [])
unfolding test3 argo_mem_pool_create argo_mem_pool_get
test3_fails = refl

no_pool : test1 (record all_succeed { pool = false }) ≡ none
unfolding test1 argo_mem_pool_create
no_pool = refl
