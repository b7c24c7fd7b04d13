-- ===== src/MemPool/Program/Laws.antt =====
-- A client that gets objects and puts them back leaves a whole pool.
use tpt.Common.{ℕ, zero, suc, ◌+◌, ◌≡◌, Bool, true, false, some, List, [], ◌∷◌, length, pos, arith}
use tpt.MemPool.{MemPool, Addr, create_new_slab, argo_mem_pool_expand, argo_mem_pool_create}
use tpt.MemPool.Pool.{IsPool}
use tpt.MemPool.Program.{Allocs, obj_sz, obj_cnt, get_loop, put_loop, get_and_put_back}

expand-obj_cnt :
    (alloc : Bool) (mp mp' : MemPool)
    → argo_mem_pool_expand alloc mp ≡ some mp'
    → mp'.obj_cnt ≡ mp.obj_cnt
unfolding argo_mem_pool_expand create_new_slab
expand-obj_cnt false mp mp' e = ground arith
expand-obj_cnt true mp mp' e = ground arith

-- The numbers from `i` on.
abbrev pub count_up : (n i : ℕ) → List ℕ
count_up zero i = []
count_up (suc n) i = i ∷ count_up n (i + 1)

abbrev pub all_succeed : Allocs
all_succeed = record { pool = true; slab = true; more = true }

-- The whole run: the pool is made, the loops get `ptrs` from it and put them back, and every slab is freed.
abbrev pub GetsAndPuts : (cnt : ℕ) → Type 0
GetsAndPuts cnt =
    (made got : MemPool) × (ptrs : List Addr) × (free : List ℕ) × (argo_mem_pool_create true true
        obj_sz obj_cnt
      ≡ some made)
    × (get_loop cnt true made [] ≡ some (ptrs, got))
    × (length ptrs ≡ cnt)
    × IsPool (put_loop ptrs got) free []
    × (get_and_put_back cnt all_succeed ≡ some (pos 0, count_up (put_loop ptrs got).slab_cnt 0))
