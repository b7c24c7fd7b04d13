-- ===== src/MemPool/Tests.antt =====
-- A pool of two 8-byte objects, and the instances of the theorems of argo_mem_pool.c.
use tpt.Common.{ℕ, List, length, ◌-◌, ◌^◌, ◌≡◌, refl, true, Option, none, some, [], ◌∷◌, arith}
use mathlib.Core.Option
use tpt.MemPool.{MemPool, Addr, argo_mem_pool_create, argo_mem_pool_get, argo_mem_pool_put}
use tpt.MemPool.FreeList.{places}
use tpt.MemPool.Pool.{IsPool, grown, pointer, grown-IsPool, taken, taken-IsPool}
use tpt.MemPool.Client.{Got, argo_mem_pool_get-Got, argo_mem_pool_put-IsPool}
use tpt.MemPool.Sizes.{bare, bare-IsPool, argo_mem_pool_create-IsPool}

-- Two objects of 16 bytes in slab 0, both free.
abbrev two : MemPool
two = grown (bare (2 ^ 28 - 1) 16 2)

two-IsPool : IsPool two (0 ∷ 16 ∷ []) []
unfolding places
two-IsPool =
    grown-IsPool (bare (2 ^ 28 - 1) 16 2) []
      (bare-IsPool 16 2 2 refl (omega arith) (omega arith) (omega arith)) (omega arith)

-- The client's view of three calls of get: the third has to add a slab.
abbrev next : Option (Addr × MemPool) → Option (Addr × MemPool)
next r = elim r [ none ↦ none | some (a, mp) ↦ argo_mem_pool_get true mp ]

abbrev place_of : Option (Addr × MemPool) → Option Addr
place_of = Option.map (λ r. r.0)

three_gets : place_of (next (next (argo_mem_pool_get true two))) ≡ some (1, 8)
unfolding argo_mem_pool_get
three_gets = refl

second_get : place_of (next (argo_mem_pool_get true two)) ≡ some (0, 24)
unfolding argo_mem_pool_get
second_get = refl

-- An object that is given back is the next that is handed out.
get_after_put :
    place_of (elim (argo_mem_pool_get true two) [
      | none ↦ none
      | some (a, mp) ↦ argo_mem_pool_get true (argo_mem_pool_put mp a)
    ])
    ≡ some (0, 8)
unfolding argo_mem_pool_get argo_mem_pool_put
get_after_put = refl

argo_mem_pool_get-Got_example : Got true two (0 ∷ 16 ∷ []) [] (argo_mem_pool_get true two)
argo_mem_pool_get-Got_example = argo_mem_pool_get-Got true two (0 ∷ 16 ∷ []) [] two-IsPool

-- The same pool, with its first object in use.
one_used-IsPool : IsPool (taken two 0) (16 ∷ []) (0 ∷ [])
one_used-IsPool = taken-IsPool two 0 (16 ∷ []) [] two-IsPool

argo_mem_pool_put-IsPool_example :
    IsPool (argo_mem_pool_put (taken two 0) (pointer 0)) (0 ∷ 16 ∷ []) []
argo_mem_pool_put-IsPool_example =
    argo_mem_pool_put-IsPool (taken two 0) 0 (16 ∷ []) [] [] one_used-IsPool

argo_mem_pool_create-IsPool_example :
    (mp : MemPool) × (free : List ℕ) × (argo_mem_pool_create true true 20 100 ≡ some mp)
    × IsPool mp free []
    × (length free ≡ 100)
    × (mp.obj_sz ≡ 32)
    × (mp.slab_cnt ≡ 1)
argo_mem_pool_create-IsPool_example =
    argo_mem_pool_create-IsPool 20 100 (omega arith) (omega arith) (omega arith)
