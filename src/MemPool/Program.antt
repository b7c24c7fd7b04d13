-- ===== src/MemPool/Program.antt =====
-- argo_test_mem_pool.c, a program over the pool. Its texts of at most 8 bytes lie behind the metadata of the objects,
-- so writing them leaves the pool alone. A NULL pool or object that is used is a fault, `none`.
mod Laws
mod Tests
use tpt.Common.{ℕ, zero, suc, Bool, Option, none, some, List, [], ◌∷◌, ℤ, pos, ◌==◌, if◌then◌else◌}
use tpt.Common.Family.{update}
use tpt.MemPool.{
  MemPool, Addr, argo_mem_pool_create, argo_mem_pool_get, argo_mem_pool_put, argo_mem_pool_destroy,
}

-- Whether ARGO_ALLOC succeeds for the pool, for its first slab, and for the later ones.
pub record Allocs : Type 0 where
  pub pool : Bool
  pub slab : Bool
  pub more : Bool

abbrev pub obj_sz : ℕ
obj_sz = 8

abbrev pub obj_cnt : ℕ
obj_cnt = 4

-- The loop that fills ptr[], newest first; `none` is the jump to `done` with the result 1.
pub get_loop :
    (rounds : ℕ) → (alloc : Bool) → MemPool → (ptrs : List Addr) → Option (List Addr × MemPool)
get_loop zero alloc mp ptrs = some (ptrs, mp)
get_loop (suc rounds) alloc mp ptrs = elim (argo_mem_pool_get alloc mp) [
  | none ↦ none
  | some (ptr, mp') ↦ get_loop rounds alloc mp' (ptr ∷ ptrs)
]

-- The loop that puts the objects back, from the newest on.
pub put_loop : List Addr → MemPool → MemPool
put_loop [] mp = mp
put_loop (ptr ∷ ptrs) mp = put_loop ptrs (argo_mem_pool_put mp ptr)

-- The result of a test with the slabs that argo_mem_pool_destroy has freed; without memory for an object, the pool
-- is not destroyed.
abbrev pub Result : Type 0
Result = Option (ℤ × List ℕ)

pub get_and_put_back : (cnt : ℕ) → Allocs → Result
unfolding get_loop put_loop
get_and_put_back cnt a = elim (argo_mem_pool_create a.pool a.slab obj_sz obj_cnt) [
  | none ↦ none
  | some mp ↦ elim (get_loop cnt a.more mp []) [
    | none ↦ some (pos 1, [])
    | some (ptrs, mp') ↦ some (pos 0, argo_mem_pool_destroy (put_loop ptrs mp'))
  ]
]

-- The one object is written to even if it is NULL.
pub test1 : Allocs → Result
test1 a = elim (argo_mem_pool_create a.pool a.slab obj_sz obj_cnt) [
  | none ↦ none
  | some mp ↦ elim (argo_mem_pool_get a.more mp) [
    | none ↦ none
    | some (ptr, mp') ↦ some (pos 0, argo_mem_pool_destroy (argo_mem_pool_put mp' ptr))
  ]
]

pub test2 : Allocs → Result
unfolding get_and_put_back
test2 = get_and_put_back 4

pub test3 : Allocs → Result
unfolding get_and_put_back
test3 = get_and_put_back 5

pub test4 : Allocs → Result
unfolding get_and_put_back
test4 = get_and_put_back 9

-- ptr[] and the pool.
abbrev pub State : Type 0
State = (ℕ → Addr) × MemPool

-- `ptr[i] = argo_mem_pool_get(mp); sprintf(ptr[i], ...);`
pub get_into : (alloc : Bool) → (i : ℕ) → State → Option State
get_into alloc i (ptr, mp) = elim (argo_mem_pool_get alloc mp) [
  | none ↦ none
  | some (p, mp') ↦ some (update ptr i p, mp')
]

pub gets_into : (alloc : Bool) → List ℕ → State → Option State
unfolding get_into
gets_into alloc [] s = some s
gets_into alloc (i ∷ is) s = elim (get_into alloc i s) [
  | none ↦ none
  | some s' ↦ gets_into alloc is s'
]

pub puts_from : List ℕ → State → State
puts_from [] s = s
puts_from (i ∷ is) (ptr, mp) = puts_from is (ptr, argo_mem_pool_put mp (ptr i))

-- Behind the first four objects.
pub test5_rest : (alloc : Bool) → State → Result
unfolding gets_into puts_from
test5_rest alloc s = elim (gets_into alloc (0 ∷ 3 ∷ 4 ∷ 5 ∷ []) (puts_from (0 ∷ 3 ∷ []) s)) [
  | none ↦ none
  | some s1 ↦ elim (gets_into alloc (6 ∷ 7 ∷ 8 ∷ 4 ∷ 5 ∷ []) (puts_from (4 ∷ 5 ∷ []) s1)) [
    | none ↦ none
    | some s2 ↦
        let (ptr, mp) = puts_from (0 ∷ 1 ∷ 2 ∷ 3 ∷ 4 ∷ 5 ∷ 6 ∷ 7 ∷ 8 ∷ []) s2 in
        some (pos 0, argo_mem_pool_destroy mp)
  ]
]

-- Only the first four objects are tested for NULL.
pub test5 : Allocs → Result
unfolding gets_into test5_rest
test5 a = elim (argo_mem_pool_create a.pool a.slab obj_sz obj_cnt) [
  | none ↦ none
  | some mp ↦ elim (gets_into a.more (0 ∷ 1 ∷ 2 ∷ 3 ∷ []) ((λ _. (0, 0)), mp)) [
    | none ↦ some (pos 1, [])
    | some s ↦ test5_rest a.more s
  ]
]

-- The pool behind a number of calls whose objects nobody keeps; a call may return NULL.
pub lose_loop : (rounds : ℕ) → (alloc : Bool) → MemPool → MemPool
lose_loop zero alloc mp = mp
lose_loop (suc rounds) alloc mp = elim (argo_mem_pool_get alloc mp) [
  | none ↦ lose_loop rounds alloc mp
  | some (ptr, mp') ↦ lose_loop rounds alloc mp'
]

-- The pool that is left, which is not destroyed.
pub test6 : Allocs → Option MemPool
unfolding lose_loop
test6 a = elim (argo_mem_pool_create a.pool a.slab 8 2) [
  | none ↦ none
  | some mp ↦ some (lose_loop 50 a.more mp)
]
